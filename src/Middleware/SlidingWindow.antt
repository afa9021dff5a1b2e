-- ===== src/Middleware/SlidingWindow.antt =====
-- common/middleware/redis_sliding_window.go: the script that Redis runs, and the middleware. Times are
-- milliseconds.
use my_go_market.Prelude.{
  ℕ, ◌+◌, Bool, true, false, Option, none, some, List, [], ◌∷◌, if◌then◌else◌, ltb, length,
}
use my_go_market.Prelude.Text.{Text, text_eq}
use my_go_market.Web.{Reply, refused, answered}

pub record Stamp : Type 0 where
  pub score : ℕ
  pub member : Text

-- A sorted set, and the time from which it is gone.
pub record ZSet : Type 0 where
  pub stamps : List Stamp
  pub gone_at : ℕ

abbrev pub live : (now : ℕ) → Option ZSet → List Stamp
live now none = []
live now (some z) = if ltb now z.gone_at then z.stamps else []

-- `ZREMRANGEBYSCORE key -inf now-window`: what stays.
unfoldable pub within : (now window : ℕ) → List Stamp → List Stamp
within now window [] = []
within now window (x ∷ xs) =
    let rest = within now window xs in if ltb now (x.score + window) then x ∷ rest else rest

unfoldable pub has_member : Text → List Stamp → Bool
has_member m [] = false
has_member m (x ∷ xs) = if text_eq x.member m then true else has_member m xs

unfoldable pub set_score : (now : ℕ) → (member : Text) → List Stamp → List Stamp
set_score now m [] = []
set_score now m (x ∷ xs) =
    (if text_eq x.member m then record x { score = now } else x) ∷ set_score now m xs

-- `ZADD`
unfoldable pub z_add : (now : ℕ) → (member : Text) → List Stamp → List Stamp
z_add now m xs =
    if has_member m xs then set_score now m xs else record { score = now; member = m } ∷ xs

-- The members of a set replaced, its expiry kept.
abbrev pub keep : List Stamp → Option ZSet → Option ZSet
keep kept none = none
keep kept (some z) = some (record { stamps = kept; gone_at = z.gone_at })

-- The script: whether the request is let through, and the set it leaves, where the removal of every
-- member is the removal of the key.
unfoldable pub sliding_window_lua :
    (now window limit : ℕ) → (member : Text) → Option ZSet → Bool × Option ZSet
sliding_window_lua now window limit m z =
    let kept = within now window (live now z) in
    if ltb (length kept) limit
    then (true, some (record { stamps = z_add now m kept; gone_at = now + window }))
    else (false, keep kept z)

-- The keys `rpa:ratelimit:ip:` by the address.
abbrev pub Windows : Type 0
Windows = Text → Option ZSet

-- `AllowIP`, with the member that it draws, where `up` says that Redis answers: none is an error.
unfoldable pub allow_ip :
    (up : Bool)
    → (now : ℕ) → (member ip : Text) → (window limit : ℕ) → Windows
    → Option Bool × Windows
allow_ip false now m ip window limit w = (none, w)
allow_ip true now m ip window limit w =
    let (allowed, z) = sliding_window_lua now window limit m (w ip) in
    (some allowed, λ k. if text_eq k ip then z else w k)

-- The middleware lets a request through where Redis fails.
unfoldable pub sliding_window_middleware :
    (up : Bool)
    → (now : ℕ) → (member ip : Text) → (window limit : ℕ) → Windows
    → Reply (Unit {0}) × Windows
sliding_window_middleware up now m ip window limit w =
    let (allowed, w') = allow_ip up now m ip window limit w in
    elim allowed [
      | none ↦ (answered tt, w')
      | some true ↦ (answered tt, w')
      | some false ↦ (refused 429 [], w')
    ]
