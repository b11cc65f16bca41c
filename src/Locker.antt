-- ===== src/Locker.antt =====
-- services/locker/syncmap and the use that services/ruler/golang/runner.go makes of it: goroutines
-- that lock groups of keys. Lock is one step here, which waits
-- until nobody has the key (its own steps are in Mutexes); the names of goroutines are numbers.
pub mod Invariant
pub mod Progress
pub mod Mutexes
pub mod OneMutex
pub mod Acquired
pub mod Exclusive
use dirk.Go.{Bytes}
use dirk.Prelude.{
  ℕ, ◌≡◌, ◌⊎◌, Bool, true, false, Option, none, some, List, [], ◌∷◌, bytes_equal, ◌==◌,
  if◌then◌else◌,
}

-- Where a goroutine is in RunRules: before PreLock, with the keys it will lock; between PreLock and
-- PostLock, with the keys it has locked, the last first, and those it has not; after PostLock, with
-- those it has not unlocked.
pub data Phase : Type 0 where
  waiting : List Bytes → Phase
  locking : List Bytes → List Bytes → Phase
  working : List Bytes → Phase

-- `mapLock` and the mutex of each key, with the goroutine that holds it.
pub record Locks : Type 0 where
  pub map_lock : Option ℕ
  pub holder : Bytes → Option ℕ
  pub phase : ℕ → Phase

abbrev pub set_phase : ℕ → Phase → (ℕ → Phase) → ℕ → Phase
set_phase t p f u = if t == u then p else f u

abbrev pub set_holder : Bytes → Option ℕ → (Bytes → Option ℕ) → Bytes → Option ℕ
set_holder k o f j = if bytes_equal k j then o else f j

-- A goroutine's call that returns: that of a mutex returns when nothing holds it.
pub data Step (s : Locks) : Locks → Type 0 where
  pre_lock :
      (t : ℕ) (keys : List Bytes)
      → s.phase t ≡ waiting keys
      → s.map_lock ≡ none
      → Step s (record s { map_lock = some t; phase = set_phase t (locking [] keys) s.phase })
  lock :
      (t : ℕ) (k : Bytes) (held keys : List Bytes)
      → s.phase t ≡ locking held (k ∷ keys)
      → s.holder k ≡ none
      → Step s (record s {
        holder = set_holder k (some t) s.holder;
        phase = set_phase t (locking (k ∷ held) keys) s.phase;
      })
  post_lock :
      (t : ℕ) (held : List Bytes)
      → s.phase t ≡ locking held []
      → Step s (record s { map_lock = none; phase = set_phase t (working held) s.phase })
  unlock :
      (t : ℕ) (k : Bytes) (held : List Bytes)
      → s.phase t ≡ working (k ∷ held)
      → Step s (record s {
        holder = set_holder k none s.holder;
        phase = set_phase t (working held) s.phase;
      })

abbrev pub Has : Bytes → List Bytes → Type 0
Has k [] = ⊥
Has k (j ∷ l) = (j ≡ k) ⊎ Has k l

abbrev pub Different : List Bytes → Type 0
Different [] = Unit
Different (k ∷ l) = (Has k l → ⊥) × Different l

-- What a goroutine holds.
abbrev pub held_of : Phase → List Bytes
held_of (waiting keys) = []
held_of (locking held keys) = held
held_of (working held) = held

abbrev pub is_locking : Phase → Bool
is_locking (waiting keys) = false
is_locking (locking held keys) = true
is_locking (working held) = false

-- At the start nothing is locked, and each goroutine has different keys to lock.
abbrev pub initial : (ℕ → List Bytes) → Locks
initial keys = record { map_lock = none; holder = λ k. none; phase = λ t. waiting (keys t) }

pub data Reachable (keys : ℕ → List Bytes) : Locks → Type 0 where
  initially : Reachable keys (initial keys)
  after : {s s' : Locks} → Reachable keys s → Step s s' → Reachable keys s'
