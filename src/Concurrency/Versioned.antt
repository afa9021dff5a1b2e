-- ===== src/Concurrency/Versioned.antt =====
-- common/utils/lock/optimistic.go: a value with a version, changed by compare and swap. A snapshot
-- lives at an address, the number of snapshots made before it, and CompareAndSwap compares
-- addresses. `Rivals` are the updates that other goroutines complete between two instructions of
-- this one.
use my_go_market.Prelude.{
  ℕ, zero, suc, Bool, true, false, not, Option, none, some, List, [], ◌∷◌, ◌≡◌, ◌≢◌, refl, ◌==◌,
  ◌+◌, ◌≤◌, ◌<◌, ◌⊎◌, inl, inr, arith, Bool-cases, Option-cases, ==_iff, if◌then◌else◌, ap,
}

pub record Snapshot (T : Type 0) : Type 0 where
  pub data_of : T
  pub version : ℕ

-- The current snapshot, its address, and the number of snapshots that were made.
pub record Versioned (T : Type 0) : Type 0 where
  pub value : Snapshot T
  pub address : ℕ
  pub made : ℕ

-- How an attempt to update ended; `of_function` is an error of the caller's function.
pub data Outcome : Type 0 where
  updated version_mismatch of_function concurrent_modification too_many_retries : Outcome

abbrev is_updated : Outcome → Bool
is_updated updated = true
is_updated _ = false

module _ {T : Type 0} where
  unfoldable pub pack : T → Versioned T
  pack x = record { value = record { data_of = x; version = 1 }; address = 0; made = 1 }

  unfoldable pub get : Versioned T → T × ℕ
  get v = (v.value.data_of, v.value.version)

  -- A new snapshot is made, and swapped in if the current one is still at `address`.
  unfoldable pub compare_and_swap : (address : ℕ) → Snapshot T → Versioned T → Bool × Versioned T
  compare_and_swap address new v =
      if v.address == address
      then (true, record { value = new; address = v.made; made = v.made + 1 })
      else (false, record v { made = v.made + 1 })

  -- An update that another goroutine completes.
  unfoldable pub rival : (T → T) → Versioned T → Versioned T
  rival f v = record {
    value = record { data_of = f v.value.data_of; version = v.value.version + 1 };
    address = v.made;
    made = v.made + 1;
  }

  unfoldable pub rivals : List (T → T) → Versioned T → Versioned T
  unfolding rival
  rivals [] v = v
  rivals (f ∷ fs) v = rivals fs (rival f v)

  -- `TryUpdate`, with the updates that others complete between its load and its swap.
  unfoldable pub try_update :
      (old_version : ℕ) → (fn : T → Option T) → List (T → T) → Versioned T → Outcome × Versioned T
  unfolding compare_and_swap
  try_update old_version fn others v =
      let current = v.value in
      if not (current.version == old_version)
      then (version_mismatch, rivals others v)
      else elim (fn current.data_of) [
        | none ↦ (of_function, rivals others v)
        | some new_data ↦
            let (swapped, v') =
              compare_and_swap v.address
                (record { data_of = new_data; version = current.version + 1 }) (rivals others v) in
            ((if swapped then updated else concurrent_modification), v')
      ]

  -- `UpdateWithRetry`. In the round with `n` rounds after it, `others n` are the updates that others
  -- complete between `Get` and the load, and those between the load and the swap.
  unfoldable pub update_with_retry :
      (max_retries : ℕ)
      → (fn : T → Option T) → (others : ℕ → List (T → T) × List (T → T)) → Versioned T
      → Outcome × Versioned T
  unfolding try_update rivals
  update_with_retry zero fn others v = (too_many_retries, v)
  update_with_retry (suc n) fn others v =
      let version = (get v).1 in
      let (r, v') = try_update version fn (others n).1 (rivals (others n).0 v) in
      let rest = update_with_retry n fn others v' in if is_updated r then (updated, v') else rest

  -- The current snapshot is one of those made.
  abbrev pub IsFresh : Versioned T → Type 0
  IsFresh v = v.address < v.made

  rivals-address :
      (f : T → T) (fs : List (T → T)) (v : Versioned T) → v.made ≤ (rivals (f ∷ fs) v).address
  unfolding rivals rival
  rivals-address f [] v = omega arith
  rivals-address f (g ∷ gs) v = omega (arith, rivals-address g gs (rival f v))

  cas_alone :
      (new : Snapshot T) (v : Versioned T)
      → compare_and_swap v.address new v
        ≡ (true, record { value = new; address = v.made; made = v.made + 1 })
  unfolding compare_and_swap
  cas_alone new v = ground arith

  cas_beaten :
      (new : Snapshot T) (f : T → T) (fs : List (T → T)) (v : Versioned T)
      → IsFresh v
      → let w = rivals (f ∷ fs) v in
        compare_and_swap v.address new w ≡ (false, record w { made = w.made + 1 })
  unfolding compare_and_swap
  cas_beaten new f fs v fresh =
      let w = rivals (f ∷ fs) v in
      rw (apart w.address v.address v.made (rivals-address f fs v) fresh, compare_and_swap) refl
    where
      apart : (a b n : ℕ) → n ≤ a → b < n → (a == b) ≡ false
      apart a b n le lt = ground arith

  -- An attempt to update ends in one of two ways. It reports success: then nothing came between, the
  -- version was the one given, and the new value is the function's at the next version. Or it
  -- reports an error: then the value and version are those that the others left.
  pub try_update_atomic :
      (old_version : ℕ) (fn : T → Option T) (others : List (T → T)) (v : Versioned T)
      → IsFresh v
      → let (r, v') = try_update old_version fn others v in
        ((r ≡ updated)
          × (others ≡ [])
          × (v.value.version ≡ old_version)
          × (fn v.value.data_of ≡ some v'.value.data_of)
          × (v'.value.version ≡ old_version + 1))
        ⊎ ((r ≢ updated) × (v'.value ≡ (rivals others v).value))
  unfolding try_update rivals
  try_update_atomic old_version fn others v fresh =
      elim (Bool-cases (v.value.version == old_version)) [
        | inr stale ↦ inr (rw (stale, try_update) (λ e. cc, refl))
        | inl same ↦ elim (Option-cases (fn v.value.data_of)) [
          | inl failed ↦ inr (rw (same, failed, try_update) (λ e. cc, refl))
          | inr (x, made) ↦ attempt others x same made
        ]
      ]
    where
      attempt :
          (others : List (T → T)) (x : T)
          → (v.value.version == old_version) ≡ true
          → fn v.value.data_of ≡ some x
          → let (r, v') = try_update old_version fn others v in
            ((r ≡ updated)
              × (others ≡ [])
              × (v.value.version ≡ old_version)
              × (fn v.value.data_of ≡ some v'.value.data_of)
              × (v'.value.version ≡ old_version + 1))
            ⊎ ((r ≢ updated) × (v'.value ≡ (rivals others v).value))
      attempt [] x same made =
          let old = (==_iff v.value.version old_version).0 same in
          inl (
            rw
              (
                same,
                made,
                try_update,
                rivals,
                cas_alone (record { data_of = x; version = v.value.version + 1 }) v,
              )
              (refl, refl, old, refl, ap (λ n. n + 1) old))
      attempt (f ∷ fs) x same made = inr (
          rw
            (
              same,
              made,
              try_update,
              cas_beaten (record { data_of = x; version = v.value.version + 1 }) f fs v fresh,
            )
            (λ e. cc, refl))
