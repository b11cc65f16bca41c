-- ===== src/Examples/Locking.antt =====
-- Two goroutines that lock keys in different orders.
use dirk.Go.{Bytes}
use dirk.Locker.{
  initially, after, lock, pre_lock, locking, Locks, set_phase, set_holder, Step, Different,
  Reachable, initial,
}
use dirk.Locker.Progress.{no_deadlock}
use dirk.Prelude.{◌==◌, refl, if◌then◌else◌, Bool, true, false, ◌≢◌, inl, inr}
use dirk.Locker.Progress.{no_deadlock}
use dirk.Go.{Bytes}
use dirk.Locker.{
  Locks, Different, Reachable, set_holder, initial, Step, set_phase, locking, initially, pre_lock,
}
use dirk.Prelude.{
  ℕ, ◌≢◌, inl, inr, refl, sym, Bool, true, false, some, List, [], ◌∷◌, ◌==◌, if◌then◌else◌,
}

abbrev keys : ℕ → List Bytes
keys t =
    if t == 0 then (1 ∷ []) ∷ (2 ∷ []) ∷ [] else if t == 1 then (2 ∷ []) ∷ (1 ∷ []) ∷ [] else []

abbrev key1 : Bytes
key1 = 1 ∷ []

abbrev key2 : Bytes
key2 = 2 ∷ []

not-same : key1 ≢ key2
not-same e = cc

keys-Different : (t : ℕ) → Different (keys t)
keys-Different t = by_test (t == 0) (t == 1)
  where
    by_test :
        (a b : Bool)
        → Different
            (if a then (1 ∷ []) ∷ (2 ∷ []) ∷ [] else if b then (2 ∷ []) ∷ (1 ∷ []) ∷ [] else [])
    by_test true b =
        ((λ h. elim h [ inl e ↦ not-same (sym e) | inr never ↦ never ]), ((λ never. never), tt))
    by_test false true =
        ((λ h. elim h [ inl e ↦ not-same e | inr never ↦ never ]), ((λ never. never), tt))
    by_test false false = tt

abbrev first_in : Locks
first_in = record (initial keys) {
  map_lock = some 0;
  phase = set_phase 0 (locking [] (keys 0)) (initial keys).phase;
}

abbrev first_locks : Locks
first_locks = record first_in {
  holder = set_holder (1 ∷ []) (some 0) first_in.holder;
  phase = set_phase 0 (locking ((1 ∷ []) ∷ []) ((2 ∷ []) ∷ [])) first_in.phase;
}

first_locks-Reachable : Reachable keys first_locks
first_locks-Reachable =
    after (after initially (pre_lock 0 (keys 0) refl refl))
      (lock 0 (1 ∷ []) [] ((2 ∷ []) ∷ []) refl refl)

no_deadlock_example : (s' : Locks) × Step first_locks s'
no_deadlock_example = no_deadlock keys first_locks 1 keys-Different first_locks-Reachable (λ e. cc)
