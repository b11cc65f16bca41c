-- ===== src/Locker/OneMutex.antt =====
-- What every interleaving of Lock and Unlock keeps: a key has one mutex, and its holder has the key.
use dirk.Go.{Bytes}
use dirk.Locker.{Has, Different}
use dirk.Locker.Invariant.{some-inj, none_not_some}
use dirk.Locker.Mutexes.{Pc, idle, missing, creating, storing, leaving, acquiring, Mutexes, update}
use dirk.Prelude.{
  ℕ, ◌<◌, ◌≡◌, ◌≢◌, inl, inr, refl, sym, subst, arith, Option, none, some, Bool-cases, ◌==◌,
  if◌then◌else◌,
}

-- What a goroutine knows of newLockMutex and of the map.
abbrev pub Fits : Option ℕ → (Bytes → Option ℕ) → ℕ → Pc → Type 0
Fits n f t idle = Unit
Fits n f t (missing k) = Unit
Fits n f t (creating k) = n ≡ some t
Fits n f t (storing k) = (n ≡ some t) × (f k ≡ none)
Fits n f t (leaving k m) = (n ≡ some t) × (f k ≡ some m)
Fits n f t (acquiring k m) = f k ≡ some m

pub record Inv (s : Mutexes) : Type 0 where
  pub fits : (t : ℕ) → Fits s.new_lock s.locks t (s.pc t)
  pub old : (k : Bytes) (m : ℕ) → s.locks k ≡ some m → m < s.made
  pub own : (k j : Bytes) (m : ℕ) → s.locks k ≡ some m → s.locks j ≡ some m → k ≡ j
  pub owns :
      (t : ℕ) (k : Bytes)
      → Has k (s.held t)
      → (m : ℕ) × (s.locks k ≡ some m) × (s.holder m ≡ some t)
  pub different : (t : ℕ) → Different (s.held t)

pub by_update :
    {A : Type 0} (P : ℕ → A → Type 0) (t : ℕ) (a : A) (f : ℕ → A)
    → P t a
    → ((u : ℕ) → t ≢ u → P u (f u))
    → (u : ℕ) → P u (update t a f u)
by_update P t a f here others u = elim (Bool-cases (t == u)) [
  | inl same ↦
      let e : t ≡ u = ground arith in
      subst (λ b. P u (if b then a else f u)) (sym same) (subst (λ v. P v a) e here)
  | inr other ↦ subst (λ b. P u (if b then a else f u)) (sym other) (others u (λ e. ground arith))
]

-- A step that only moves a goroutine.
pub moves-Inv :
    (s : Mutexes) (t : ℕ) (p : Pc)
    → Inv s
    → Fits s.new_lock s.locks t p
    → Inv (record s { pc = update t p s.pc })
moves-Inv s t p inv fit = record {
  fits = by_update (λ u q. Fits s.new_lock s.locks u q) t p s.pc fit (λ u other. inv.fits u);
  old = inv.old;
  own = inv.own;
  owns = inv.owns;
  different = inv.different;
}

-- When nobody holds newLockMutex, anyone may.
free-Fits : (n : Option ℕ) (f : Bytes → Option ℕ) (u : ℕ) (p : Pc) → Fits none f u p → Fits n f u p
free-Fits n f u idle h = tt
free-Fits n f u (missing k) h = tt
free-Fits n f u (creating k) h = absurd (none_not_some h)
free-Fits n f u (storing k) h = absurd (none_not_some h.0)
free-Fits n f u (leaving k m) h = absurd (none_not_some h.0)
free-Fits n f u (acquiring k m) h = h

-- Only its holder is between its Lock and its Unlock, and unlocks it, or adds to the map.
pub other-Fits :
    (t : ℕ) (n : Option ℕ) (f g : Bytes → Option ℕ) (u : ℕ) (p : Pc)
    → t ≢ u
    → ((k : Bytes) (m : ℕ) → f k ≡ some m → g k ≡ some m)
    → Fits (some t) f u p
    → Fits n g u p
other-Fits t n f g u idle differ keep h = tt
other-Fits t n f g u (missing k) differ keep h = tt
other-Fits t n f g u (creating k) differ keep h = absurd (differ (some-inj h))
other-Fits t n f g u (storing k) differ keep h = absurd (differ (some-inj h.0))
other-Fits t n f g u (leaving k m) differ keep h = absurd (differ (some-inj h.0))
other-Fits t n f g u (acquiring k m) differ keep h = keep k m h

pub lock_new-Inv :
    (s : Mutexes) (t : ℕ) (k : Bytes)
    → Inv s
    → s.new_lock ≡ none
    → Inv (record s { new_lock = some t; pc = update t (creating k) s.pc })
lock_new-Inv s t k inv free = record {
  fits =
      by_update (λ u q. Fits (some t) s.locks u q) t (creating k) s.pc refl
        (λ u other.
          free-Fits (some t) s.locks u (s.pc u)
            (subst (λ n. Fits n s.locks u (s.pc u)) free (inv.fits u)));
  old = inv.old;
  own = inv.own;
  owns = inv.owns;
  different = inv.different;
}

pub unlock_new-Inv :
    (s : Mutexes) (t : ℕ) (k : Bytes) (m : ℕ)
    → Inv s
    → s.pc t ≡ leaving k m
    → Inv (record s { new_lock = none; pc = update t (acquiring k m) s.pc })
unlock_new-Inv s t k m inv at =
    let (mine, there) = subst (λ p. Fits s.new_lock s.locks t p) at (inv.fits t) in
    record {
      fits =
          by_update (λ u q. Fits none s.locks u q) t (acquiring k m) s.pc there
            (λ u other.
              other-Fits t none s.locks s.locks u (s.pc u) other (λ j i e. e)
                (subst (λ n. Fits n s.locks u (s.pc u)) mine (inv.fits u)));
      old = inv.old;
      own = inv.own;
      owns = inv.owns;
      different = inv.different;
    }
