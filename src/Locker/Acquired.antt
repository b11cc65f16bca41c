-- ===== src/Locker/Acquired.antt =====
-- What the Store of a mutex, and the Lock of it, keep.
use dirk.Go.{Bytes}
use dirk.Locker.{Has, Different, set_holder}
use dirk.Locker.Invariant.{by_holder, some-inj, none_not_some}
use dirk.Locker.Mutexes.{idle, storing, leaving, acquiring, Mutexes, update}
use dirk.Locker.OneMutex.{Fits, Inv, by_update, other-Fits}
use dirk.Prelude.{
  ℕ, suc, ◌<◌, ◌≡◌, ◌≢◌, ◌⊎◌, inl, inr, refl, sym, ◌∙◌, subst, arith, Option, none, some, ◌∷◌,
}

less-ne : (a b : ℕ) → a < b → a ≢ b
less-ne a b h e = ground arith

-- The map with a new mutex for a key that had none.
module _ (s : Mutexes) (inv : Inv s) (k : Bytes) (absent : s.locks k ≡ none) where
  abbrev locks' : Bytes → Option ℕ
  locks' = set_holder k (some s.made) s.locks

  kept : (j : Bytes) (i : ℕ) → s.locks j ≡ some i → locks' j ≡ some i
  kept =
      by_holder (λ j o. (i : ℕ) → s.locks j ≡ some i → o ≡ some i) k (some s.made) s.locks
        (λ i e. absurd (none_not_some (sym absent ∙ e))) (λ j differ i e. e)

  stored : locks' k ≡ some s.made
  stored =
      by_holder (λ j o. k ≡ j → o ≡ some s.made) k (some s.made) s.locks (λ e. refl)
        (λ j differ e. absurd (differ e)) k refl

  found : (j : Bytes) (i : ℕ) → locks' j ≡ some i → ((k ≡ j) × (s.made ≡ i)) ⊎ (s.locks j ≡ some i)
  found =
      by_holder (λ j o. (i : ℕ) → o ≡ some i → ((k ≡ j) × (s.made ≡ i)) ⊎ (s.locks j ≡ some i)) k
        (some s.made) s.locks (λ i e. inl (refl, some-inj e)) (λ j differ i e. inr e)

  still_old : (j : Bytes) (i : ℕ) → locks' j ≡ some i → i < suc s.made
  still_old j i e = elim (found j i e) [
    | inl (same, new) ↦ ground arith
    | inr before ↦ (let h = inv.old j i before in ground arith)
  ]

  still_own : (j l : Bytes) (i : ℕ) → locks' j ≡ some i → locks' l ≡ some i → j ≡ l
  still_own j l i e f = elim (found j i e) [
    | inl (same, new) ↦ elim (found l i f) [
      | inl (same', new') ↦ sym same ∙ same'
      | inr before ↦ absurd (less-ne i s.made (inv.old l i before) (sym new))
    ]
    | inr before ↦ elim (found l i f) [
      | inl (same', new') ↦ absurd (less-ne i s.made (inv.old j i before) (sym new'))
      | inr before' ↦ inv.own j l i before before'
    ]
  ]

pub store-Inv :
    (s : Mutexes) (t : ℕ) (k : Bytes)
    → Inv s
    → s.pc t ≡ storing k
    → Inv (record s {
      locks = set_holder k (some s.made) s.locks;
      made = suc s.made;
      pc = update t (leaving k s.made) s.pc;
    })
store-Inv s t k inv at =
    let (mine, absent) = subst (λ p. Fits s.new_lock s.locks t p) at (inv.fits t) in
    let f : Bytes → Option ℕ = set_holder k (some s.made) s.locks in
    record {
      fits =
          by_update (λ u q. Fits s.new_lock f u q) t (leaving k s.made) s.pc
            (mine, stored s inv k absent)
            (λ u other.
              other-Fits t s.new_lock s.locks f u (s.pc u) other (kept s inv k absent)
                (subst (λ n. Fits n s.locks u (s.pc u)) mine (inv.fits u)));
      old = still_old s inv k absent;
      own = still_own s inv k absent;
      owns = λ u j h.
          let (i, there, holds) = inv.owns u j h in (i, kept s inv k absent j i there, holds);
      different = inv.different;
    }

-- The mutex of a key is locked.
module _ (s : Mutexes) (inv : Inv s) (t : ℕ) (k : Bytes) (m : ℕ) (there : s.locks k ≡ some m)
    (free : s.holder m ≡ none) where
  locked : update m (some t) s.holder m ≡ some t
  locked =
      by_update (λ i o. m ≡ i → o ≡ some t) m (some t) s.holder (λ e. refl)
        (λ i differ e. absurd (differ e)) m refl

  still_holds : (i u : ℕ) → s.holder i ≡ some u → update m (some t) s.holder i ≡ some u
  still_holds =
      by_update (λ i o. (u : ℕ) → s.holder i ≡ some u → o ≡ some u) m (some t) s.holder
        (λ u e. absurd (none_not_some (sym free ∙ e))) (λ i differ u e. e)

  not_held : Has k (s.held t) → ⊥
  not_held h =
      let (i, there', holds) = inv.owns t k h in
      none_not_some
        (sym free ∙ (subst (λ z. s.holder z ≡ some t) (some-inj (sym there' ∙ there)) holds))

  new_owns :
      (j : Bytes)
      → Has j (k ∷ s.held t)
      → (i : ℕ) × (s.locks j ≡ some i) × (update m (some t) s.holder i ≡ some t)
  new_owns j (inl e) = (m, subst (λ z. s.locks z ≡ some m) e there, locked)
  new_owns j (inr h) = let (i, there', holds) = inv.owns t j h in (i, there', still_holds i t holds)

pub acquire-Inv :
    (s : Mutexes) (t : ℕ) (k : Bytes) (m : ℕ)
    → Inv s
    → s.pc t ≡ acquiring k m
    → s.holder m ≡ none
    → Inv (record s {
      holder = update m (some t) s.holder;
      pc = update t idle s.pc;
      held = update t (k ∷ s.held t) s.held;
    })
acquire-Inv s t k m inv at free =
    let there = subst (λ p. Fits s.new_lock s.locks t p) at (inv.fits t) in
    record {
      fits = by_update (λ u q. Fits s.new_lock s.locks u q) t idle s.pc tt (λ u other. inv.fits u);
      old = inv.old;
      own = inv.own;
      owns = λ u j.
          by_update
            (λ u l.
              Has j l → (i : ℕ) × (s.locks j ≡ some i) × (update m (some t) s.holder i ≡ some u))
            t (k ∷ s.held t) s.held (new_owns s inv t k m there free j)
            (λ u other h.
              let (i, there', holds) = inv.owns u j h in
              (i, there', still_holds s inv t k m there free i u holds))
            u;
      different =
          by_update (λ u l. Different l) t (k ∷ s.held t) s.held
            (not_held s inv t k m there free, inv.different t) (λ u other. inv.different u);
    }
