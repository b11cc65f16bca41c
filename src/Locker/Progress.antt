-- ===== src/Locker/Progress.antt =====
-- The locks of goroutines that lock groups of keys: they never all wait.
use dirk.Go.{Bytes}
use dirk.Locker.Invariant.{true_not_false, some-inj, Inv, Fits, Reachable-Inv}
use dirk.Locker.{
  Phase, waiting, locking, working, Locks, set_phase, set_holder, Step, pre_lock, lock, post_lock,
  unlock, Has, Different, held_of, is_locking, Reachable,
}
use dirk.Prelude.{refl, Option-cases}
use dirk.Locker.{Locks, Phase, working, Different, Step, Reachable, Has, held_of, is_locking}
use dirk.Go.{Bytes}
use dirk.Prelude.{
  ℕ, ◌≡◌, inl, inr, refl, sym, ◌∙◌, ap, subst, Bool, true, false, none, some, List, [], ◌∷◌,
  Option-cases,
}

-- Where a goroutine that has finished is.
abbrev pub IsDone : Phase → Type 0
IsDone p = p ≡ working []

abbrev Moves : Locks → Type 0
Moves s = (s' : Locks) × Step s s'

module _ (s : Locks) (inv : Inv s) where
  -- A goroutine that holds a key and is not locking can unlock one.
  unlocks :
      (t : ℕ) (k : Bytes) (p : Phase)
      → s.phase t ≡ p
      → Has k (held_of p)
      → is_locking p ≡ false
      → Moves s
  unlocks t k (waiting keys) at h e = absurd h
  unlocks t k (locking held keys) at h e = absurd (true_not_false e)
  unlocks t k (working []) at h e = absurd h
  unlocks t k (working (j ∷ held)) at h e = (
    record s { holder = set_holder j none s.holder; phase = set_phase t (working held) s.phase },
    unlock t j held at,
  )

  -- The goroutine that is locking can lock its next key, or the one that holds it can unlock.
  locks_next :
      (t : ℕ) (k : Bytes) (held keys : List Bytes) → s.phase t ≡ locking held (k ∷ keys) → Moves s
  locks_next t k held keys at = elim (Option-cases (s.holder k)) [
    | inl free ↦ (
      record s {
        holder = set_holder k (some t) s.holder;
        phase = set_phase t (locking (k ∷ held) keys) s.phase;
      },
      lock t k held keys at free,
    )
    | inr (u, taken) ↦
        unlocks u k (s.phase u) refl (inv.owned k u taken)
          (not_locking u taken (is_locking (s.phase u)) refl)
  ]
    where
      own : s.holder k ≡ some t → ⊥
      own e =
          (subst (λ q. Fits q) at (inv.fits t)).2 k (inl refl)
            (subst (λ q. Has k (held_of q)) at (inv.owned k t e))

      not_locking :
          (u : ℕ)
          → s.holder k ≡ some u
          → (b : Bool) → is_locking (s.phase u) ≡ b
          → is_locking (s.phase u) ≡ false
      not_locking u taken false e = e
      not_locking u taken true e =
          absurd
            (own (taken ∙ ap some (some-inj (sym (inv.only u e) ∙ inv.only t (ap is_locking at)))))

  locking_can_go_on : (t : ℕ) (p : Phase) → s.phase t ≡ p → is_locking p ≡ true → Moves s
  locking_can_go_on t (waiting keys) at e = absurd (true_not_false (sym e))
  locking_can_go_on t (working held) at e = absurd (true_not_false (sym e))
  locking_can_go_on t (locking held (k ∷ keys)) at e = locks_next t k held keys at
  locking_can_go_on t (locking held []) at e = (
    record s { map_lock = none; phase = set_phase t (working held) s.phase },
    post_lock t held at,
  )

  can_go_on : (t : ℕ) (p : Phase) → s.phase t ≡ p → (IsDone p → ⊥) → Moves s
  can_go_on t (waiting keys) at busy = elim (Option-cases s.map_lock) [
    | inl free ↦ (
      record s { map_lock = some t; phase = set_phase t (locking [] keys) s.phase },
      pre_lock t keys at free,
    )
    | inr (u, taken) ↦ locking_can_go_on u (s.phase u) refl (inv.turn u taken)
  ]
  can_go_on t (locking held keys) at busy = locking_can_go_on t (locking held keys) at refl
  can_go_on t (working []) at busy = absurd (busy refl)
  can_go_on t (working (k ∷ held)) at busy = unlocks t k (working (k ∷ held)) at (inl refl) refl

-- In every state that goroutines reach that each call PreLock, Lock for each of their keys, PostLock,
-- and Unlock for each, in any interleaving, if the keys of each goroutine are all different and one
-- has not finished, some goroutine can go on: there is no deadlock.
pub no_deadlock :
    (keys : ℕ → List Bytes) (s : Locks) (t : ℕ)
    → ((u : ℕ) → Different (keys u))
    → Reachable keys s
    → (IsDone (s.phase t) → ⊥)
    → (s' : Locks) × Step s s'
no_deadlock keys s t different r busy =
    can_go_on s (Reachable-Inv different r) t (s.phase t) refl busy
