-- ===== src/Ruler/Locking.antt =====
-- Calls of a locker around a call of the rules, in an order that keeps the rules behind their locks.
use dirk.Ruler.{LockCall, pre_lock, post_lock, rules_called, lock, unlock, lock_all, unlock_all}
use dirk.Locker.{Has}
use dirk.Go.{Bytes}
use dirk.Prelude.{
  ◌≢◌, ◌⊎◌, inl, inr, refl, sym, ap, subst, Bool, true, false, List, [], ◌∷◌, ◌++◌, map, reverse,
  reverse_aux, All, Ordered, ◌≡◌,
}

-- The keys of the goroutine's locks, the last first, whether it is between PreLock and PostLock, and
-- whether it has called the rules, along the calls that it makes: PreLock and PostLock alternate; a
-- key is locked between them, and is not one that it holds; the rules are called once, after
-- PostLock, with all of `keys` locked; the key that is unlocked is the last that is held; and at the
-- end the rules have been called, and nothing is held.
abbrev pub Legal : List Bytes → Bool → List Bytes → Bool → List LockCall → Type 0
Legal keys inside held ran [] = (inside ≡ false) × (held ≡ []) × (ran ≡ true)
Legal keys inside held ran (pre_lock ∷ cs) = (inside ≡ false) × Legal keys true held ran cs
Legal keys inside held ran (post_lock ∷ cs) = (inside ≡ true) × Legal keys false held ran cs
Legal keys inside held ran (lock k ∷ cs) =
    (inside ≡ true) × All (λ j. k ≢ j) held × Legal keys inside (k ∷ held) ran cs
Legal keys inside held ran (rules_called ∷ cs) =
    (inside ≡ false)
    × (ran ≡ false)
    × ((k : Bytes) → Has k keys → Has k held)
    × Legal keys inside held true cs
Legal keys inside held ran (unlock k ∷ cs) =
    (rest : List Bytes) × (held ≡ k ∷ rest) × Legal keys inside rest ran cs

Has-reverse_aux :
    (k : Bytes) (ks held : List Bytes) → Has k ks ⊎ Has k held → Has k (reverse_aux ks held)
Has-reverse_aux k [] held (inl never) = absurd never
Has-reverse_aux k [] held (inr h) = h
Has-reverse_aux k (j ∷ ks) held (inl (inl e)) = Has-reverse_aux k ks (j ∷ held) (inr (inl e))
Has-reverse_aux k (j ∷ ks) held (inl (inr h)) = Has-reverse_aux k ks (j ∷ held) (inl h)
Has-reverse_aux k (j ∷ ks) held (inr h) = Has-reverse_aux k ks (j ∷ held) (inr (inr h))

-- The keys that are held are not among those to lock.
Apart : List Bytes → List Bytes → Type 0
Apart held keys = All (λ k. All (λ j. k ≢ j) held) keys

Apart-cons :
    (k : Bytes) (held ks : List Bytes) → All (λ j. k ≢ j) ks → Apart held ks → Apart (k ∷ held) ks
unfolding Apart
Apart-cons k held [] h a = tt
Apart-cons k held (j ∷ ks) h a = ((λ e. h.0 (sym e), a.0), Apart-cons k held ks h.1 a.1)

locks-Legal :
    (keys ks held : List Bytes) (cs : List LockCall)
    → Ordered (λ a b. a ≢ b) ks
    → Apart held ks
    → Legal keys false (reverse_aux ks held) false cs
    → Legal keys true held false (map lock ks ++ post_lock ∷ cs)
unfolding Apart
locks-Legal keys [] held cs o a h = (refl, h)
locks-Legal keys (k ∷ ks) held cs o a h =
    (refl, a.0, locks-Legal keys ks (k ∷ held) cs o.1 (Apart-cons k held ks o.0 a.1) h)

unlocks-Legal : (keys held : List Bytes) → Legal keys false held true (map unlock held)
unlocks-Legal keys [] = (refl, refl, refl)
unlocks-Legal keys (k ∷ held) = (held, refl, unlocks-Legal keys held)

nothing_held : (ks : List Bytes) → Apart [] ks
unfolding Apart
nothing_held [] = tt
nothing_held (k ∷ ks) = (tt, nothing_held ks)

calls_assoc :
    (ks : List Bytes) (cs : List LockCall)
    → (map lock ks ++ post_lock ∷ []) ++ cs ≡ map lock ks ++ post_lock ∷ cs
calls_assoc [] cs = refl
calls_assoc (k ∷ ks) cs = ap (λ l. lock k ∷ l) (calls_assoc ks cs)

-- Locking keys that are different, calling the rules, and unlocking the keys, the last first.
pub around-Legal :
    (keys : List Bytes)
    → Ordered (λ a b. a ≢ b) keys
    → Legal keys false [] false (lock_all keys ++ (rules_called ∷ [] ++ unlock_all keys))
unfolding lock_all unlock_all
around-Legal keys o = (
  refl,
  subst (λ cs. Legal keys true [] false cs)
      (sym (calls_assoc keys (rules_called ∷ map unlock (reverse keys))))
      (locks-Legal keys keys [] (rules_called ∷ map unlock (reverse keys)) o (nothing_held keys)
        (refl, refl, λ k h. Has-reverse_aux k keys [] (inl h), unlocks-Legal keys (reverse keys))),
)
