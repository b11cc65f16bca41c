-- ===== src/Locker/Exclusive.antt =====
-- No two goroutines have a key locked, whatever the interleaving of the steps of Lock and Unlock.
use dirk.Go.{Bytes}
use dirk.Locker.{Has, Different}
use dirk.Locker.Invariant.{some-inj, none_not_some}
use dirk.Locker.Mutexes.{
  missing, storing, leaving, acquiring, Mutexes, update, Step, load_found, load_missing, lock_new,
  load_again_found, load_again_missing, store, unlock_new, acquire, unlock, Reachable, initially,
  after,
}
use dirk.Locker.OneMutex.{Fits, Inv, by_update, moves-Inv, lock_new-Inv, unlock_new-Inv}
use dirk.Locker.Acquired.{store-Inv, acquire-Inv}
use dirk.Prelude.{ℕ, ◌≡◌, ◌≢◌, inl, inr, refl, sym, ◌∙◌, subst, none, some, List, ◌∷◌}

-- The last key that a goroutine has locked is unlocked.
module _ (s : Mutexes) (inv : Inv s) (t : ℕ) (k : Bytes) (rest : List Bytes) (m : ℕ)
    (at : s.held t ≡ k ∷ rest) (there : s.locks k ≡ some m) where
  mine : s.holder m ≡ some t
  mine =
      let (i, there', holds) = inv.owns t k (subst (λ l. Has k l) (sym at) (inl refl)) in
      subst (λ z. s.holder z ≡ some t) (some-inj (sym there' ∙ there)) holds

  others_hold : (i : ℕ) → m ≢ i → (u : ℕ) → s.holder i ≡ some u → update m none s.holder i ≡ some u
  others_hold =
      by_update (λ i o. m ≢ i → (u : ℕ) → s.holder i ≡ some u → o ≡ some u) m none s.holder
        (λ differ u e. absurd (differ refl)) (λ i differ differ' u e. e)

  distinct : Different (k ∷ rest)
  distinct = subst (λ l. Different l) at (inv.different t)

  -- A key that is still held has another mutex.
  Kept : Bytes → ℕ → Type 0
  Kept j u = (i : ℕ) × (s.locks j ≡ some i) × (update m none s.holder i ≡ some u)

  keeps :
      (j : Bytes) (u : ℕ)
      → Has j (s.held u)
      → ((i : ℕ) → s.locks j ≡ some i → s.holder i ≡ some u → m ≢ i)
      → Kept j u
  unfolding Kept
  keeps j u h differ =
      let (i, there', holds) = inv.owns u j h in
      (i, there', others_hold i (differ i there' holds) u holds)

  still_owns : (j : Bytes) (u : ℕ) → Has j (update t rest s.held u) → Kept j u
  still_owns j =
      by_update (λ u l. Has j l → Kept j u) t rest s.held
        (λ h. keeps j t (subst (λ l. Has j l) (sym at) (inr h)) (λ i there' holds same. distinct.0 (
          subst (λ z. Has z rest)
            (inv.own j k m (subst (λ z. s.locks j ≡ some z) (sym same) there') there) h)))
        (λ u other h. keeps j u h (λ i there' holds same.
          other (some-inj (sym mine ∙ (subst (λ z. s.holder z ≡ some u) (sym same) holds)))))

unlock-Inv :
    (s : Mutexes) (t : ℕ) (k : Bytes) (rest : List Bytes) (m : ℕ)
    → Inv s
    → s.held t ≡ k ∷ rest
    → s.locks k ≡ some m
    → Inv (record s { holder = update m none s.holder; held = update t rest s.held })
unfolding Kept
unlock-Inv s t k rest m inv at there = record {
  fits = inv.fits;
  old = inv.old;
  own = inv.own;
  owns = λ u j. still_owns s inv t k rest m at there j u;
  different =
      by_update (λ u l. Different l) t rest s.held (distinct s inv t k rest m at there).1
        (λ u other. inv.different u);
}

Step-Inv : {s s' : Mutexes} → Step s s' → Inv s → Inv s'
Step-Inv {s} (load_found t k m at there) inv = moves-Inv s t (acquiring k m) inv there
Step-Inv {s} (load_missing t k at absent) inv = moves-Inv s t (missing k) inv tt
Step-Inv {s} (lock_new t k at free) inv = lock_new-Inv s t k inv free
Step-Inv {s} (load_again_found t k m at there) inv =
    moves-Inv s t (leaving k m) inv
      (subst (λ p. Fits s.new_lock s.locks t p) at (inv.fits t), there)
Step-Inv {s} (load_again_missing t k at absent) inv =
    moves-Inv s t (storing k) inv (subst (λ p. Fits s.new_lock s.locks t p) at (inv.fits t), absent)
Step-Inv {s} (store t k at) inv = store-Inv s t k inv at
Step-Inv {s} (unlock_new t k m at) inv = unlock_new-Inv s t k m inv at
Step-Inv {s} (acquire t k m at free) inv = acquire-Inv s t k m inv at free
Step-Inv {s} (unlock t k rest m idle_at at there) inv = unlock-Inv s t k rest m inv at there

Reachable-Inv : {s : Mutexes} → Reachable s → Inv s
Reachable-Inv initially = record {
  fits = λ t. tt;
  old = λ k m e. absurd (none_not_some e);
  own = λ k j m e. absurd (none_not_some e);
  owns = λ t k never. absurd never;
  different = λ t. tt;
}
Reachable-Inv (after r step) = Step-Inv step (Reachable-Inv r)

-- In every state that goroutines reach by the steps of Lock, whose map has no mutex at first, and of
-- Unlock, in any interleaving: no two of them have locked the same key; a goroutine has not locked a
-- key twice; and a key that a goroutine has locked is in the map, with a mutex that this goroutine
-- holds, so that its Unlock neither panics nor unlocks a mutex that is not locked.
pub exclusive :
    (s : Mutexes)
    → Reachable s
    → ((k : Bytes) (t u : ℕ) → Has k (s.held t) → Has k (s.held u) → t ≡ u)
      × ((t : ℕ) → Different (s.held t))
      × ((t : ℕ) (k : Bytes)
          → Has k (s.held t)
          → (m : ℕ) × (s.locks k ≡ some m) × (s.holder m ≡ some t))
exclusive s r =
    let inv = Reachable-Inv r in
    (
      λ k t u ht hu.
          let (i, a, holds) = inv.owns t k ht in
          let (j, b, holds') = inv.owns u k hu in
          some-inj (sym holds ∙ (subst (λ z. s.holder z ≡ some u) (some-inj (sym b ∙ a)) holds')),
      inv.different,
      inv.owns,
    )
