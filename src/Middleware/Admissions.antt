-- ===== src/Middleware/Admissions.antt =====
-- Requests of many addresses to the sliding window, one after another (redis_sliding_window.go).
use my_go_market.Prelude.{
  ℕ, ◌≤◌, ◌<◌, Bool, true, false, Option, none, List, [], ◌∷◌, ◌≡◌, refl, ◌&&◌, inl, inr,
  if◌then◌else◌, arith, ap, sym, subst, ◌∙◌, All, Bool-cases,
}
use my_go_market.Prelude.Text.{Text, text_eq, text_eq_iff}
use my_go_market.Web.{Reply, refused, answered}
use my_go_market.Middleware.SlidingWindow.{
  ZSet, has_member, sliding_window_lua, Windows, allow_ip, sliding_window_middleware,
}
use my_go_market.Middleware.WindowTimes.{scores, admitted_in, Capped, Capped-bound}
use my_go_market.Middleware.WindowBound.{stamps_of, Inv, Inv-later, script-Inv, script-fresh}

-- A request: its time, the member that it draws, and its address.
pub record Hit : Type 0 where
  pub now : ℕ
  pub member : Text
  pub ip : Text

abbrev is_answered : Reply (Unit {0}) → Bool
is_answered (answered u) = true
is_answered (refused status code) = false

-- The times at which requests of an address were let through, the newest first, after those of `log`.
unfoldable pub admissions :
    (window limit : ℕ) → (ip : Text) → List Hit → (log : List ℕ) → Windows → List ℕ
admissions window limit ip [] log s = log
admissions window limit ip (h ∷ hs) log s =
    let (r, s') = sliding_window_middleware true h.now h.member h.ip window limit s in
    admissions window limit ip hs (if text_eq ip h.ip && is_answered r then h.now ∷ log else log) s'

-- The times never go back.
unfoldable pub IsOrdered : (last : ℕ) → List Hit → Type 0
IsOrdered last [] = Unit
IsOrdered last (h ∷ hs) = (last ≤ h.now) × IsOrdered h.now hs

-- No two requests draw the same member.
unfoldable pub IsDistinct : List Hit → Type 0
IsDistinct [] = Unit
IsDistinct (h ∷ hs) = All (λ (q : Hit). text_eq h.member q.member ≡ false) hs × IsDistinct hs

abbrev IsNew : Option ZSet → Hit → Type 0
IsNew z h = has_member h.member (stamps_of z) ≡ false

IsNew-after :
    (w limit now : ℕ) (m : Text) (z : Option ZSet) (hs : List Hit)
    → has_member m (stamps_of z) ≡ false
    → All (IsNew z) hs
    → All (λ (q : Hit). text_eq m q.member ≡ false) hs
    → All (IsNew (sliding_window_lua now w limit m z).1) hs
IsNew-after w limit now m z [] new fresh differ = tt
IsNew-after w limit now m z (q ∷ hs) new (fresh, rest) (differ, differs) = (
  script-fresh w limit now m q.member z new fresh differ,
  IsNew-after w limit now m z hs new rest differs,
)

is_answered-middleware :
    (now : ℕ) (m ip : Text) (w limit : ℕ) (s : Windows)
    → is_answered (sliding_window_middleware true now m ip w limit s).0
      ≡ (sliding_window_lua now w limit m (s ip)).0
unfolding sliding_window_middleware allow_ip
is_answered-middleware now m ip w limit s =
    elim (Bool-cases (sliding_window_lua now w limit m (s ip)).0) [
      | inl passed ↦ ground (arith, passed)
      | inr stopped ↦ ground (arith, stopped)
    ]

middleware-window :
    (now : ℕ) (m ip k : Text) (w limit : ℕ) (s : Windows)
    → (sliding_window_middleware true now m ip w limit s).1 k
      ≡ (if text_eq k ip then (sliding_window_lua now w limit m (s ip)).1 else s k)
unfolding sliding_window_middleware allow_ip
middleware-window now m ip k w limit s =
    elim (Bool-cases (sliding_window_lua now w limit m (s ip)).0) [
      | inl passed ↦ rw (passed, sliding_window_middleware) refl
      | inr stopped ↦ rw (stopped, sliding_window_middleware) refl
    ]

admissions-Capped :
    (w limit : ℕ) (ip : Text) (hs : List Hit) (last : ℕ) (log : List ℕ) (s : Windows)
    → 0 < w
    → IsOrdered last hs
    → IsDistinct hs
    → All (IsNew (s ip)) hs
    → Inv w limit last log (s ip)
    → Capped w limit (admissions w limit ip hs log s)
unfolding admissions IsOrdered IsDistinct
admissions-Capped w limit ip [] last log s pos_w order distinct new i = i.capped
admissions-Capped w limit ip (h ∷ hs) last log s pos_w (le, order) (differs, distinct) (fresh, new)
      i =
    let s' = (sliding_window_middleware true h.now h.member h.ip w limit s).1 in
    let script = sliding_window_lua h.now w limit h.member (s ip) in
    elim (Bool-cases (text_eq ip h.ip)) [
      | inr other ↦
          let e : s' ip ≡ s ip =
            middleware-window h.now h.member h.ip ip w limit s ∙ rw other refl in
          rw other (
            admissions-Capped w limit ip hs h.now log s' pos_w order distinct
              (subst (λ (z : Option ZSet). All (IsNew z) hs) (sym e) new)
              (subst (Inv w limit h.now log) (sym e)
                (Inv-later w limit last h.now log (s ip) le i)))
      | inl own ↦
          let same : s h.ip ≡ s ip = ap s (sym ((text_eq_iff ip h.ip).0 own)) in
          let e : s' ip ≡ script.1 =
            middleware-window h.now h.member h.ip ip w limit s
            ∙ rw own
                (ap (λ (z : Option ZSet). (sliding_window_lua h.now w limit h.member z).1) same) in
          let let_in : is_answered (sliding_window_middleware true h.now h.member h.ip w limit s).0
              ≡ script.0 =
            is_answered-middleware h.now h.member h.ip w limit s
            ∙ ap (λ (z : Option ZSet). (sliding_window_lua h.now w limit h.member z).0) same in
          rw (own, let_in)
            (admissions-Capped w limit ip hs h.now (if script.0 then h.now ∷ log else log) s' pos_w
              order distinct
              (subst (λ (z : Option ZSet). All (IsNew z) hs) (sym e)
                (IsNew-after w limit h.now h.member (s ip) hs fresh new differs))
              (subst (Inv w limit h.now (if script.0 then h.now ∷ log else log)) (sym e)
                (script-Inv w limit last h.now h.member log (s ip) pos_w le fresh i)))
    ]

All-IsNew : (hs : List Hit) → All (IsNew none) hs
unfolding has_member
All-IsNew [] = tt
All-IsNew (h ∷ hs) = (refl, All-IsNew hs)

-- In any window of time, the sliding window lets through at most `limit` requests of an address, for
-- any requests of any addresses that come in the order of their times, draw different members and find
-- Redis answering, from empty sets, where the window is not empty.
pub window_bound :
    (w limit : ℕ) (ip : Text) (hs : List Hit) (at : ℕ)
    → 0 < w
    → IsOrdered 0 hs
    → IsDistinct hs
    → admitted_in at w (admissions w limit ip hs [] (λ k. none)) ≤ limit
unfolding Capped scores
window_bound w limit ip hs at pos_w order distinct =
    Capped-bound at w limit (admissions w limit ip hs [] (λ k. none)) (
      admissions-Capped w limit ip hs 0 [] (λ k. none) pos_w order distinct (All-IsNew hs)
        (record { same = λ t le. refl; below = tt; capped = tt }))
