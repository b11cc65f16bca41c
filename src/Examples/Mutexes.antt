-- ===== src/Examples/Mutexes.antt =====
-- Two goroutines that both find no mutex for a key.
use dirk.Go.{Bytes}
use dirk.Locker.{Has, Different, set_holder}
use dirk.Locker.Mutexes.{
  idle, missing, creating, storing, leaving, acquiring, Mutexes, update, load_missing, lock_new,
  load_again_missing, store, unlock_new, acquire, no_mutexes, Reachable, initially, after,
}
use dirk.Locker.Exclusive.{exclusive}
use dirk.Prelude.{ℕ, ◌≡◌, refl, none, some, [], ◌∷◌}

abbrev wanted : Bytes
wanted = 1 ∷ []

abbrev first_missed : Mutexes
first_missed = record no_mutexes { pc = update 0 (missing wanted) no_mutexes.pc }

abbrev both_missed : Mutexes
both_missed = record first_missed { pc = update 1 (missing wanted) first_missed.pc }

abbrev entered : Mutexes
entered = record both_missed { new_lock = some 0; pc = update 0 (creating wanted) both_missed.pc }

abbrev looked_again : Mutexes
looked_again = record entered { pc = update 0 (storing wanted) entered.pc }

abbrev made_one : Mutexes
made_one = record looked_again {
  locks = set_holder wanted (some 0) looked_again.locks;
  made = 1;
  pc = update 0 (leaving wanted 0) looked_again.pc;
}

abbrev left : Mutexes
left = record made_one { new_lock = none; pc = update 0 (acquiring wanted 0) made_one.pc }

abbrev has_locked : Mutexes
has_locked = record left {
  holder = update 0 (some 0) left.holder;
  pc = update 0 idle left.pc;
  held = update 0 (wanted ∷ []) left.held;
}

both_missed-Reachable : Reachable both_missed
both_missed-Reachable =
    after (after initially (load_missing 0 wanted refl refl)) (load_missing 1 wanted refl refl)

made_one-Reachable : Reachable made_one
made_one-Reachable =
    after
      (after (after both_missed-Reachable (lock_new 0 wanted refl refl))
        (load_again_missing 0 wanted refl refl))
      (store 0 wanted refl)

has_locked-Reachable : Reachable has_locked
has_locked-Reachable =
    after (after made_one-Reachable (unlock_new 0 wanted 0 refl)) (acquire 0 wanted 0 refl refl)

exclusive_example :
    ((k : Bytes) (t u : ℕ) → Has k (has_locked.held t) → Has k (has_locked.held u) → t ≡ u)
    × ((t : ℕ) → Different (has_locked.held t))
    × ((t : ℕ) (k : Bytes)
        → Has k (has_locked.held t)
        → (m : ℕ) × (has_locked.locks k ≡ some m) × (has_locked.holder m ≡ some t))
exclusive_example = exclusive has_locked has_locked-Reachable
