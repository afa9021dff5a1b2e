-- ===== src/Audit/Writer.antt =====
-- common/audit/audit.go: the queue of audit events and the goroutine that writes them in batches, as
-- the steps of the callers and of the goroutine, one after another.
use my_go_market.Prelude.{
  ℕ, suc, Bool, true, false, List, [], ◌∷◌, ◌++◌, if◌then◌else◌, ltb, leb, length,
}
use my_go_market.Prelude.Text.{Text}
use my_go_market.Audit.Export.{EventRow}

-- `Event`, its metadata as the text that json.Marshal gives.
pub record Event : Type 0 where
  pub event_type : Text
  pub trace_id : Text
  pub actor_id : Text
  pub resource : Text
  pub metadata : Text
  pub error : Text

-- `Writer`: the channel, the open batch, whether it is closed, whether the goroutine has returned, and
-- the table that it writes, the oldest row first.
pub record Writer : Type 0 where
  pub ch : List Event
  pub batch : List Event
  pub closed : Bool
  pub done : Bool
  pub table : List EventRow

-- What a flush meets: whether the database takes the rows, the time, and the ids that are drawn.
pub record Flush : Type 0 where
  pub database : Bool
  pub now : ℕ
  pub new_id : ℕ → ℕ

abbrev pub ch_size : ℕ
ch_size = 1024

abbrev pub batch_size : ℕ
batch_size = 100

-- `Start`
abbrev pub start : Writer
start = record { ch = []; batch = []; closed = false; done = false; table = [] }

-- `Emit`: an event is dropped where the writer is closed or the channel full.
unfoldable pub emit : Event → Writer → Writer
emit e w =
    if w.closed
    then w
    else if ltb (length w.ch) ch_size
    then record w { ch = w.ch ++ (e ∷ []) }
    else w

-- `Shutdown`, up to its wait.
unfoldable pub shutdown : Writer → Writer
shutdown w = record w { closed = true }

abbrev pub row_of : (event_id now : ℕ) → Event → EventRow
row_of id now e = record {
  event_id = id;
  event_type = e.event_type;
  trace_id = e.trace_id;
  actor_id = e.actor_id;
  resource = e.resource;
  metadata = e.metadata;
  error = e.error;
  created_at = now;
}

unfoldable pub rows_of : (first : ℕ) → Flush → List Event → List EventRow
rows_of n f [] = []
rows_of n f (e ∷ es) = row_of (f.new_id n) f.now e ∷ rows_of (suc n) f es

-- The batch is emptied also where the database refuses it.
unfoldable pub flush : Flush → Writer → Writer
flush f w = record w {
  batch = [];
  table = (if f.database then w.table ++ rows_of 0 f w.batch else w.table);
}

-- The case of the channel in the loop: the goroutine waits at an empty channel, and returns at an empty
-- one that is closed.
unfoldable pub take_event : Flush → List Event → Writer → Writer
take_event f [] w = if w.closed then record (flush f w) { done = true } else w
take_event f (e ∷ es) w =
    let next = record w { ch = es; batch = w.batch ++ (e ∷ []) } in
    if leb batch_size (length next.batch) then flush f next else next

unfoldable pub receive : Flush → Writer → Writer
receive f w = if w.done then w else take_event f w.ch w

-- The case of the ticker.
unfoldable pub tick : Flush → Writer → Writer
tick f w = if w.done then w else flush f w

pub data Action : Type 0 where
  to_emit : Event → Action
  to_receive to_tick : Flush → Action
  to_shutdown : Action

unfoldable pub step : Action → Writer → Writer
step (to_emit e) w = emit e w
step (to_receive f) w = receive f w
step (to_tick f) w = tick f w
step to_shutdown w = shutdown w

unfoldable pub run : List Action → Writer → Writer
run [] w = w
run (a ∷ acts) w = run acts (step a w)
