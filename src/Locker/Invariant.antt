-- ===== src/Locker/Invariant.antt =====
-- What holds of the locks in every state that goroutines reach.
use dirk.Go.{Bytes}
use dirk.Locker.{
  initially, unlock, after, lock, Phase, waiting, locking, working, Locks, set_phase, set_holder,
  Step, pre_lock, lock, post_lock,
}
use dirk.Prelude.{refl, ◌==◌, if◌then◌else◌, Bool-cases, bytes_equal, bytes_equal_iff}
use dirk.Locker.{
  Phase, Locks, set_phase, waiting, set_holder, locking, working, held_of, is_locking, Step,
  Different, pre_lock, Reachable, Has, post_lock,
}
use dirk.Go.{Bytes}
use dirk.Prelude.{
  ℕ, ◌≡◌, ◌≢◌, inl, inr, refl, sym, ◌∙◌, ap, subst, true, false, Option, none, some, List, [], ◌∷◌,
  arith, bytes_equal, bytes_equal_iff, Bool-cases, ◌==◌, if◌then◌else◌,
}

-- A goroutine's keys are all different.
abbrev pub Fits : Phase → Type 0
Fits (waiting keys) = Different keys
Fits (locking held keys) =
    Different held × Different keys × ((k : Bytes) → Has k keys → Has k held → ⊥)
Fits (working held) = Different held

-- `mapLock` is held by the goroutine that is locking, and each key by the one that has locked it.
pub record Inv (s : Locks) : Type 0 where
  pub turn : (t : ℕ) → s.map_lock ≡ some t → is_locking (s.phase t) ≡ true
  pub only : (t : ℕ) → is_locking (s.phase t) ≡ true → s.map_lock ≡ some t
  pub owned : (k : Bytes) (t : ℕ) → s.holder k ≡ some t → Has k (held_of (s.phase t))
  pub owns : (k : Bytes) (t : ℕ) → Has k (held_of (s.phase t)) → s.holder k ≡ some t
  pub fits : (t : ℕ) → Fits (s.phase t)

pub true_not_false : true ≡ false → ⊥
true_not_false h = cc

pub some-inj : {a b : ℕ} → some a ≡ some b → a ≡ b
some-inj h = cc

pub none_not_some : {a : ℕ} → none ≡ some a → ⊥
none_not_some h = cc

by_phase :
    (P : ℕ → Phase → Type 0) (t : ℕ) (p : Phase) (f : ℕ → Phase)
    → P t p
    → ((u : ℕ) → t ≢ u → P u (f u))
    → (u : ℕ) → P u (set_phase t p f u)
by_phase P t p f here others u = elim (Bool-cases (t == u)) [
  | inl same ↦
      let e : t ≡ u = ground arith in
      subst (λ b. P u (if b then p else f u)) (sym same) (subst (λ v. P v p) e here)
  | inr other ↦ subst (λ b. P u (if b then p else f u)) (sym other) (others u (λ e. ground arith))
]

pub by_holder :
    (Q : Bytes → Option ℕ → Type 0) (k : Bytes) (o : Option ℕ) (f : Bytes → Option ℕ)
    → Q k o
    → ((j : Bytes) → k ≢ j → Q j (f j))
    → (j : Bytes) → Q j (set_holder k o f j)
by_holder Q k o f here others j = elim (Bool-cases (bytes_equal k j)) [
  | inl same ↦
      let e : k ≡ j = (bytes_equal_iff k j).0 same in
      subst (λ b. Q j (if b then o else f j)) (sym same) (subst (λ v. Q v o) e here)
  | inr other ↦
      subst (λ b. Q j (if b then o else f j)) (sym other)
        (others j (λ e. true_not_false (sym ((bytes_equal_iff k j).1 e) ∙ other)))
]

-- A goroutine that goes on with what it holds.
module _ (s : Locks) (inv : Inv s) (t : ℕ) (p : Phase)
    (same : held_of (s.phase t) ≡ held_of p) where
  keep_owned : (k : Bytes) (u : ℕ) → s.holder k ≡ some u → Has k (held_of (set_phase t p s.phase u))
  keep_owned k =
      by_phase (λ u q. s.holder k ≡ some u → Has k (held_of q)) t p s.phase
        (λ h. subst (λ l. Has k l) same (inv.owned k t h)) (λ u other h. inv.owned k u h)

  keep_owns : (k : Bytes) (u : ℕ) → Has k (held_of (set_phase t p s.phase u)) → s.holder k ≡ some u
  keep_owns k =
      by_phase (λ u q. Has k (held_of q) → s.holder k ≡ some u) t p s.phase
        (λ h. inv.owns k t (subst (λ l. Has k l) (sym same) h)) (λ u other h. inv.owns k u h)

pre_lock-Inv :
    (s : Locks) (t : ℕ) (keys : List Bytes)
    → Inv s
    → s.phase t ≡ waiting keys
    → s.map_lock ≡ none
    → Inv (record s { map_lock = some t; phase = set_phase t (locking [] keys) s.phase })
pre_lock-Inv s t keys inv at free = record {
  turn =
      by_phase (λ u q. some t ≡ some u → is_locking q ≡ true) t (locking [] keys) s.phase
        (λ e. refl) (λ u other e. absurd (other (some-inj e)));
  only =
      by_phase (λ u q. is_locking q ≡ true → some t ≡ some u) t (locking [] keys) s.phase
        (λ e. refl) (λ u other e. absurd (none_not_some (sym free ∙ inv.only u e)));
  owned = keep_owned s inv t (locking [] keys) (ap held_of at);
  owns = keep_owns s inv t (locking [] keys) (ap held_of at);
  fits =
      by_phase (λ u q. Fits q) t (locking [] keys) s.phase
        (tt, subst (λ q. Fits q) at (inv.fits t), λ k h never. never) (λ u other. inv.fits u);
}

post_lock-Inv :
    (s : Locks) (t : ℕ) (held : List Bytes)
    → Inv s
    → s.phase t ≡ locking held []
    → Inv (record s { map_lock = none; phase = set_phase t (working held) s.phase })
post_lock-Inv s t held inv at = record {
  turn = λ u e. absurd (none_not_some e);
  only =
      by_phase (λ u q. is_locking q ≡ true → none ≡ some u) t (working held) s.phase
        (λ e. absurd (true_not_false (sym e)))
        (λ u other e.
          absurd (other (some-inj (sym (inv.only t (ap is_locking at)) ∙ inv.only u e))));
  owned = keep_owned s inv t (working held) (ap held_of at);
  owns = keep_owns s inv t (working held) (ap held_of at);
  fits =
      by_phase (λ u q. Fits q) t (working held) s.phase (subst (λ q. Fits q) at (inv.fits t)).0
        (λ u other. inv.fits u);
}

lock-Inv :
    (s : Locks) (t : ℕ) (k : Bytes) (held keys : List Bytes)
    → Inv s
    → s.phase t ≡ locking held (k ∷ keys)
    → s.holder k ≡ none
    → Inv (record s {
      holder = set_holder k (some t) s.holder;
      phase = set_phase t (locking (k ∷ held) keys) s.phase;
    })
lock-Inv s t k held keys inv at free = record {
  turn =
      by_phase (λ u q. s.map_lock ≡ some u → is_locking q ≡ true) t p s.phase (λ e. refl)
        (λ u other e. inv.turn u e);
  only =
      by_phase (λ u q. is_locking q ≡ true → s.map_lock ≡ some u) t p s.phase
        (λ e. inv.only t (ap is_locking at)) (λ u other e. inv.only u e);
  owned =
      by_holder (λ j o. (u : ℕ) → o ≡ some u → Has j (held_of (set_phase t p s.phase u))) k (some t)
        s.holder
        (by_phase (λ u q. some t ≡ some u → Has k (held_of q)) t p s.phase (λ e. inl refl)
          (λ u other e. absurd (other (some-inj e))))
        (λ j differ.
          by_phase (λ u q. s.holder j ≡ some u → Has j (held_of q)) t p s.phase
            (λ h. inr (subst (λ q. Has j (held_of q)) at (inv.owned j t h)))
            (λ u other h. inv.owned j u h));
  owns = λ j.
      by_phase (λ u q. Has j (held_of q) → set_holder k (some t) s.holder j ≡ some u) t p s.phase
        (λ h.
          by_holder (λ i o. Has i (k ∷ held) → o ≡ some t) k (some t) s.holder (λ h'. refl)
            (λ i differ h'. mine i differ h') j h)
        (λ u other h.
          by_holder (λ i o. Has i (held_of (s.phase u)) → o ≡ some u) k (some t) s.holder
            (λ h'. absurd (none_not_some (sym free ∙ inv.owns k u h')))
            (λ i differ h'. inv.owns i u h') j h);
  fits =
      by_phase (λ u q. Fits q) t p s.phase (next (subst (λ q. Fits q) at (inv.fits t)))
        (λ u other. inv.fits u);
}
  where
    p : Phase
    p = locking (k ∷ held) keys

    mine : (i : Bytes) → k ≢ i → Has i (k ∷ held) → s.holder i ≡ some t
    mine i differ (inl e) = absurd (differ e)
    mine i differ (inr h) = inv.owns i t (subst (λ q. Has i (held_of q)) (sym at) h)

    next : Fits (locking held (k ∷ keys)) → Fits (locking (k ∷ held) keys)
    next (dh, dk, apart) = ((λ h. apart k (inl refl) h, dh), dk.1, later)
      where
        later : (j : Bytes) → Has j keys → Has j (k ∷ held) → ⊥
        later j h (inl e) = dk.0 (subst (λ z. Has z keys) (sym e) h)
        later j h (inr h') = apart j (inr h) h'

unlock-Inv :
    (s : Locks) (t : ℕ) (k : Bytes) (held : List Bytes)
    → Inv s
    → s.phase t ≡ working (k ∷ held)
    → Inv (record s {
      holder = set_holder k none s.holder;
      phase = set_phase t (working held) s.phase;
    })
unlock-Inv s t k held inv at = record {
  turn =
      by_phase (λ u q. s.map_lock ≡ some u → is_locking q ≡ true) t p s.phase
        (λ e. absurd (true_not_false (sym (inv.turn t e) ∙ ap is_locking at)))
        (λ u other e. inv.turn u e);
  only =
      by_phase (λ u q. is_locking q ≡ true → s.map_lock ≡ some u) t p s.phase
        (λ e. absurd (true_not_false (sym e))) (λ u other e. inv.only u e);
  owned =
      by_holder (λ j o. (u : ℕ) → o ≡ some u → Has j (held_of (set_phase t p s.phase u))) k none
        s.holder (λ u e. absurd (none_not_some e))
        (λ j differ.
          by_phase (λ u q. s.holder j ≡ some u → Has j (held_of q)) t p s.phase
            (λ h. rest j differ (subst (λ q. Has j (held_of q)) at (inv.owned j t h)))
            (λ u other h. inv.owned j u h));
  owns = λ j.
      by_phase (λ u q. Has j (held_of q) → set_holder k none s.holder j ≡ some u) t p s.phase
        (λ h.
          by_holder (λ i o. Has i held → o ≡ some t) k none s.holder (λ h'. absurd (all.0 h'))
            (λ i differ h'. inv.owns i t (subst (λ q. Has i (held_of q)) (sym at) (inr h'))) j h)
        (λ u other h.
          by_holder (λ i o. Has i (held_of (s.phase u)) → o ≡ some u) k none s.holder
            (λ h'. absurd (other (some-inj (sym mine ∙ inv.owns k u h'))))
            (λ i differ h'. inv.owns i u h') j h);
  fits = by_phase (λ u q. Fits q) t p s.phase all.1 (λ u other. inv.fits u);
}
  where
    p : Phase
    p = working held

    all : Fits (working (k ∷ held))
    all = subst (λ q. Fits q) at (inv.fits t)

    mine : s.holder k ≡ some t
    mine = inv.owns k t (subst (λ q. Has k (held_of q)) (sym at) (inl refl))

    rest : (j : Bytes) → k ≢ j → Has j (k ∷ held) → Has j held
    rest j differ (inl e) = absurd (differ e)
    rest j differ (inr h) = h

Step-Inv : {s s' : Locks} → Step s s' → Inv s → Inv s'
Step-Inv {s} (pre_lock t keys at free) inv = pre_lock-Inv s t keys inv at free
Step-Inv {s} (lock t k held keys at free) inv = lock-Inv s t k held keys inv at free
Step-Inv {s} (post_lock t held at) inv = post_lock-Inv s t held inv at
Step-Inv {s} (unlock t k held at) inv = unlock-Inv s t k held inv at

pub Reachable-Inv :
    {keys : ℕ → List Bytes} {s : Locks} → ((t : ℕ) → Different (keys t)) → Reachable keys s → Inv s
Reachable-Inv {keys} different initially = record {
  turn = λ t e. absurd (none_not_some e);
  only = λ t e. absurd (true_not_false (sym e));
  owned = λ k t e. absurd (none_not_some e);
  owns = λ k t never. absurd never;
  fits = different;
}
Reachable-Inv different (after r step) = Step-Inv step (Reachable-Inv different r)
