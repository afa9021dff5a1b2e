-- ===== src/Middleware/WindowBound.antt =====
-- How many requests of one address the sliding window lets through (redis_sliding_window.go).
use my_go_market.Prelude.{
  ℕ, ◌+◌, ◌≤◌, ◌<◌, Bool, false, Option, none, some, List, [], ◌∷◌, ◌≡◌, refl, inl, inr,
  if◌then◌else◌, ltb, length, arith, ap, sym, subst, ◌∙◌, All, Bool-cases, ltb→lt,
}
use my_go_market.Prelude.Text.{Text, text_eq}
use my_go_market.Middleware.SlidingWindow.{
  Stamp, ZSet, keep, live, within, has_member, z_add, sliding_window_lua,
}
use my_go_market.Middleware.WindowTimes.{
  recent, scores, scores-within, length-scores, recent-recent, recent-old, has_member-within,
  Capped,
}

abbrev pub stamps_of : Option ZSet → List Stamp
stamps_of none = []
stamps_of (some z) = z.stamps

-- The set of an address agrees, from a time on, with the times of its admissions.
pub record Inv (w limit last : ℕ) (log : List ℕ) (z : Option ZSet) : Type 0 where
  pub same : (t : ℕ) → last ≤ t → recent t w (scores (live t z)) ≡ recent t w log
  pub below : All (λ (s : ℕ). s ≤ last) log
  pub capped : Capped w limit log

below_later :
    (last now : ℕ) (log : List ℕ)
    → last ≤ now
    → All (λ (s : ℕ). s ≤ last) log
    → All (λ (s : ℕ). s ≤ now) log
below_later last now [] h below = tt
below_later last now (s ∷ ss) h (le, below) =
    (omega (arith, h, le), below_later last now ss h below)

pub Inv-later :
    (w limit last now : ℕ) (log : List ℕ) (z : Option ZSet)
    → last ≤ now
    → Inv w limit last log z
    → Inv w limit now log z
Inv-later w limit last now log z h i = record {
  same = λ t le. i.same t (omega (arith, h, le));
  below = below_later last now log h i.below;
  capped = i.capped;
}

has_member-live :
    (q : Text) (now : ℕ) (z : Option ZSet)
    → has_member q (stamps_of z) ≡ false
    → has_member q (live now z) ≡ false
unfolding has_member
has_member-live q now none h = h
has_member-live q now (some z) h = elim (Bool-cases (ltb now z.gone_at)) [
  | inl there ↦ rw there h
  | inr gone ↦ rw gone refl
]

-- What the script keeps is what is recent of the admissions.
kept_recent :
    (w limit last now : ℕ) (log : List ℕ) (z : Option ZSet) (t : ℕ)
    → last ≤ now
    → now ≤ t
    → Inv w limit last log z
    → recent t w (scores (within now w (live now z))) ≡ recent t w log
kept_recent w limit last now log z t h le i =
    ap (recent t w) (scores-within now w (live now z))
    ∙ ap (recent t w) (i.same now h)
    ∙ recent-recent t now w log le

recent_cons :
    (t w s : ℕ) (ss : List ℕ)
    → recent t w (s ∷ ss) ≡ (if ltb t (s + w) then s ∷ recent t w ss else recent t w ss)
unfolding recent
recent_cons t w s ss = refl

admit-Inv :
    (w limit last now : ℕ) (m : Text) (log : List ℕ) (z : Option ZSet)
    → 0 < w
    → last ≤ now
    → has_member m (within now w (live now z)) ≡ false
    → length (within now w (live now z)) < limit
    → Inv w limit last log z
    → Inv w limit now
        (now ∷ log)
        (some (record { stamps = z_add now m (within now w (live now z)); gone_at = now + w }))
unfolding z_add Capped scores recent
admit-Inv w limit last now m log z pos_w h fresh few i =
    let kept = within now w (live now z) in
    let below : All (λ (s : ℕ). s ≤ now) (now ∷ log) =
      (omega arith, below_later last now log h i.below) in
    record {
      same = λ t le. elim (Bool-cases (ltb t (now + w))) [
        | inl soon ↦
            rw (soon, fresh, z_add)
              (recent_cons t w now (scores kept)
                ∙ rw (soon, kept_recent w limit last now log z t h le i) refl)
        | inr late ↦ rw late (
            sym
              (recent-old t now w log (below_later last now log h i.below) (ground (arith, late))))
      ];
      below = below;
      capped = (
        (let old : length (recent now w log) ≡ length kept =
              ap length (sym (scores-within now w (live now z) ∙ i.same now h))
              ∙ length-scores kept in
            ground (arith, pos_w, old, few)),
        below_later last now log h i.below,
        i.capped,
      );
    }

refuse-Inv :
    (w limit last now gone_at : ℕ) (log : List ℕ) (xs : List Stamp)
    → last ≤ now
    → Inv w limit last log (some (record { stamps = xs; gone_at = gone_at }))
    → Inv w limit now log (
        some (record {
          stamps = within now w (live now (some (record { stamps = xs; gone_at = gone_at })));
          gone_at = gone_at;
        }))
refuse-Inv w limit last now gone_at log xs h i =
    let z : Option ZSet = some (record { stamps = xs; gone_at = gone_at }) in
    record {
      same = λ t le. elim (Bool-cases (ltb t gone_at)) [
        | inl soon ↦ rw soon (kept_recent w limit last now log z t h le i)
        | inr late ↦
            subst
              (λ (b : Bool).
                recent t w (scores (if b then within now w (live now z) else [])) ≡ recent t w log)
              (sym late)
              (subst (λ (b : Bool). recent t w (scores (if b then xs else [])) ≡ recent t w log)
                late (i.same t (omega (arith, h, le))))
      ];
      below = below_later last now log h i.below;
      capped = i.capped;
    }

-- A run of the script.
pub script-Inv :
    (w limit last now : ℕ) (m : Text) (log : List ℕ) (z : Option ZSet)
    → 0 < w
    → last ≤ now
    → has_member m (stamps_of z) ≡ false
    → Inv w limit last log z
    → let (b, z') = sliding_window_lua now w limit m z in
      Inv w limit now (if b then now ∷ log else log) z'
unfolding sliding_window_lua
script-Inv w limit last now m log z pos_w h fresh i =
    elim (Bool-cases (ltb (length (within now w (live now z))) limit)) [
      | inl few ↦
          rw (few, sliding_window_lua)
            (admit-Inv w limit last now m log z pos_w h
              (has_member-within m now w (live now z) (has_member-live m now z fresh))
              (ltb→lt _ limit few) i)
      | inr many ↦ rw (many, sliding_window_lua) (kept z i)
    ]
  where
    kept :
        (z : Option ZSet)
        → Inv w limit last log z
        → Inv w limit now log (keep (within now w (live now z)) z)
    kept none i = Inv-later w limit last now log none h i
    kept (some y) i = refuse-Inv w limit last now y.gone_at log y.stamps h i

-- A member that is new stays new.
pub script-fresh :
    (w limit now : ℕ) (m q : Text) (z : Option ZSet)
    → has_member m (stamps_of z) ≡ false
    → has_member q (stamps_of z) ≡ false
    → text_eq m q ≡ false
    → has_member q (stamps_of (sliding_window_lua now w limit m z).1) ≡ false
unfolding sliding_window_lua z_add has_member
script-fresh w limit now m q z new fresh differ =
    let new_kept = has_member-within m now w (live now z) (has_member-live m now z new) in
    let fresh_kept = has_member-within q now w (live now z) (has_member-live q now z fresh) in
    elim (Bool-cases (ltb (length (within now w (live now z))) limit)) [
      | inl few ↦ rw (few, new_kept, differ) fresh_kept
      | inr many ↦ rw many (kept z fresh)
    ]
  where
    kept :
        (z : Option ZSet)
        → has_member q (stamps_of z) ≡ false
        → has_member q (stamps_of (keep (within now w (live now z)) z)) ≡ false
    kept none h = refl
    kept (some y) h =
        has_member-within q now w (live now (some y)) (has_member-live q now (some y) h)
