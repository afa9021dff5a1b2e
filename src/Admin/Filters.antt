-- ===== src/Admin/Filters.antt =====
-- The conditions that the requests of services/admin/app put on their queries: http_service.go leaves out
-- what it cannot read, or lists nothing, and grpc_service.go refuses it. An id that uuid.Parse reads is
-- read alike by the database. A gRPC status is given by its number: 3 for InvalidArgument.
use my_go_market.Prelude.{
  ℕ, Bool, true, false, Option, none, some, List, [], ◌∷◌, ◌==◌, ◌&&◌, if◌then◌else◌, leb, length,
  take, drop,
}
use my_go_market.Prelude.Int.{ℤ}
use my_go_market.Prelude.Text.{Text, codes, text_eq, is_empty, trim_space}
use my_go_market.Web.{Reply, refused, answered, ◌>>=◌, pagination, page_offset, page_limit}
use my_go_market.Table.{where_rows}
use my_go_market.Admin.Rows.{AdminLib}

-- The conditions of a query so far, on a row.
abbrev pub Query : Type 0 → Type 0
Query R = R → Bool

abbrev pub every_row : {R : Type 0} → Query R
every_row r = true

-- `WHERE column = ?` for an id, which a null column does not satisfy.
abbrev pub is_id : ℕ → Option ℕ → Bool
is_id k none = false
is_id k (some j) = j == k

module _ {R : Type 0} where
  unfoldable pub where_equal : (value : Text) → (column : R → Text) → Query R → Query R
  where_equal value column q =
      let v = trim_space value in if is_empty v then q else (λ r. q r && text_eq (column r) v)

  -- The column, or `1 = 0` for an id that cannot be read.
  unfoldable pub where_parsed : Option ℕ → (column : R → Option ℕ) → Query R → Query R
  where_parsed none column q = λ r. q r && false
  where_parsed (some k) column q = λ r. q r && is_id k (column r)

  unfoldable pub where_from : Option ℕ → (column : R → ℕ) → Query R → Query R
  where_from none column q = q
  where_from (some t) column q = λ r. q r && leb t (column r)

  unfoldable pub where_to : Option ℕ → (column : R → ℕ) → Query R → Query R
  where_to none column q = q
  where_to (some t) column q = λ r. q r && leb (column r) t

  unfoldable pub proto_where_equal : (value : Text) → (column : R → Text) → Query R → Query R
  proto_where_equal value column q =
      let v = trim_space value in if is_empty v then q else (λ r. q r && text_eq (column r) v)

  unfoldable pub or_invalid_id :
      Option ℕ → (column : R → Option ℕ) → (code : Text) → Query R → Reply (Query R)
  or_invalid_id none column code q = refused 3 code
  or_invalid_id (some k) column code q = answered (λ r. q r && is_id k (column r))

-- A time in either of the two forms.
unfoldable pub parse_time : AdminLib → Text → Option ℕ
parse_time lib v = elim (lib.parse_rfc3339 v) [ none ↦ lib.parse_date v | some t ↦ some t ]

unfoldable pub parse_time_query : AdminLib → Text → Option ℕ
parse_time_query lib value =
    let v = trim_space value in if is_empty v then none else parse_time lib v

unfoldable pub or_invalid : Option ℕ → (code : Text) → Reply (Option ℕ)
or_invalid none code = refused 3 code
or_invalid (some t) code = answered (some t)

-- `parseProtoTime`, with the message of its caller.
unfoldable pub parse_proto_time : AdminLib → (value code : Text) → Reply (Option ℕ)
parse_proto_time lib value code =
    let v = trim_space value in
    if is_empty v then answered none else or_invalid (parse_time lib v) code

module _ {R : Type 0} (lib : AdminLib) where
  unfoldable pub where_uuid : (value : Text) → (column : R → Option ℕ) → Query R → Query R
  where_uuid value column q =
      let v = trim_space value in if is_empty v then q else where_parsed (lib.parse_uuid v) column q

  unfoldable pub where_time_range : (from to : Text) → (column : R → ℕ) → Query R → Query R
  where_time_range from to column q =
      where_to (parse_time_query lib to) column (where_from (parse_time_query lib from) column q)

  unfoldable pub proto_where_uuid :
      (value code : Text) → (column : R → Option ℕ) → Query R → Reply (Query R)
  proto_where_uuid value code column q =
      let v = trim_space value in
      if is_empty v then answered q else or_invalid_id (lib.parse_uuid v) column code q

  unfoldable pub proto_where_time_range :
      (from to : Text) → (column : R → ℕ) → Query R → Reply (Query R)
  proto_where_time_range from to column q = do
    start ← parse_proto_time lib from (codes "invalid from")
    end ← parse_proto_time lib to (codes "invalid to")
    answered (where_to end column (where_from start column q))

-- A page of rows as they are shown, with the number of rows that the conditions leave.
pub record Listing (V : Type 0) : Type 0 where
  pub items : List V
  pub total : ℕ
  pub page : ℤ
  pub page_size : ℤ

-- How the database sorts the rows of a query by a column, the highest first; the order of rows with the
-- same time is its choice.
abbrev pub OrderDesc : Type 0 → Type 0
OrderDesc R = (R → ℕ) → List R → List R

module _ {R V : Type 0} where
  unfoldable pub show_rows : (R → V) → List R → List V
  show_rows view [] = []
  show_rows view (r ∷ rows) = view r ∷ show_rows view rows

  -- The count, and the page that `Limit` and `Offset` take of the rows as `ORDER BY time DESC` gives them.
  unfoldable pub list_page :
      OrderDesc R
      → (time : R → ℕ) → (view : R → V) → (page page_size : ℤ) → Query R
      → List R
      → Listing V
  list_page order_desc time view page page_size q rows =
      let (p, size) = pagination page page_size in
      record {
        items = show_rows view (
            take (page_limit size)
              (drop (page_offset p size) (order_desc time (where_rows q rows))));
        total = length (where_rows q rows);
        page = p;
        page_size = size;
      }
