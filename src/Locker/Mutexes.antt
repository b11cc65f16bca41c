-- ===== src/Locker/Mutexes.antt =====
-- services/locker/syncmap/service.go: Lock and Unlock in small steps, one access to shared memory
-- each. Goroutines, and the mutexes that are made, are numbers.
use dirk.Go.{Bytes}
use dirk.Locker.{set_holder}
use dirk.Prelude.{ℕ, suc, ◌≡◌, Option, none, some, List, [], ◌∷◌, ◌==◌, if◌then◌else◌}

-- Where a goroutine is in Lock: not in it; after a Load that has not found the key; with newLockMutex
-- locked; after the second Load has not found it; with the mutex of the key, before newLockMutex is
-- unlocked; and before the mutex of the key is locked.
pub data Pc : Type 0 where
  idle : Pc
  missing creating storing : Bytes → Pc
  leaving acquiring : Bytes → ℕ → Pc

-- The map from keys to mutexes, how many mutexes have been made, who holds newLockMutex and each
-- mutex, and for each goroutine the keys whose Lock has returned and that it has not unlocked, the
-- last first.
pub record Mutexes : Type 0 where
  pub locks : Bytes → Option ℕ
  pub made : ℕ
  pub new_lock : Option ℕ
  pub holder : ℕ → Option ℕ
  pub pc : ℕ → Pc
  pub held : ℕ → List Bytes

abbrev pub update {ℓ} : {A : Type ℓ} → ℕ → A → (ℕ → A) → ℕ → A
update t a f u = if t == u then a else f u

-- A goroutine calls Lock when it likes, and Unlock of the key that it has locked last.
pub data Step (s : Mutexes) : Mutexes → Type 0 where
  load_found :
      (t : ℕ) (k : Bytes) (m : ℕ)
      → s.pc t ≡ idle
      → s.locks k ≡ some m
      → Step s (record s { pc = update t (acquiring k m) s.pc })
  load_missing :
      (t : ℕ) (k : Bytes)
      → s.pc t ≡ idle
      → s.locks k ≡ none
      → Step s (record s { pc = update t (missing k) s.pc })
  lock_new :
      (t : ℕ) (k : Bytes)
      → s.pc t ≡ missing k
      → s.new_lock ≡ none
      → Step s (record s { new_lock = some t; pc = update t (creating k) s.pc })
  load_again_found :
      (t : ℕ) (k : Bytes) (m : ℕ)
      → s.pc t ≡ creating k
      → s.locks k ≡ some m
      → Step s (record s { pc = update t (leaving k m) s.pc })
  load_again_missing :
      (t : ℕ) (k : Bytes)
      → s.pc t ≡ creating k
      → s.locks k ≡ none
      → Step s (record s { pc = update t (storing k) s.pc })
  store :
      (t : ℕ) (k : Bytes)
      → s.pc t ≡ storing k
      → Step s (record s {
        locks = set_holder k (some s.made) s.locks;
        made = suc s.made;
        pc = update t (leaving k s.made) s.pc;
      })
  unlock_new :
      (t : ℕ) (k : Bytes) (m : ℕ)
      → s.pc t ≡ leaving k m
      → Step s (record s { new_lock = none; pc = update t (acquiring k m) s.pc })
  acquire :
      (t : ℕ) (k : Bytes) (m : ℕ)
      → s.pc t ≡ acquiring k m
      → s.holder m ≡ none
      → Step s (record s {
        holder = update m (some t) s.holder;
        pc = update t idle s.pc;
        held = update t (k ∷ s.held t) s.held;
      })
  unlock :
      (t : ℕ) (k : Bytes) (rest : List Bytes) (m : ℕ)
      → s.pc t ≡ idle
      → s.held t ≡ k ∷ rest
      → s.locks k ≡ some m
      → Step s (record s { holder = update m none s.holder; held = update t rest s.held })

-- New
abbrev pub no_mutexes : Mutexes
no_mutexes = record {
  locks = λ k. none;
  made = 0;
  new_lock = none;
  holder = λ m. none;
  pc = λ t. idle;
  held = λ t. [];
}

pub data Reachable : Mutexes → Type 0 where
  initially : Reachable no_mutexes
  after : {s s' : Mutexes} → Reachable s → Step s s' → Reachable s'
