-- ===== src/Process/Invariant.antt =====
-- What holds of the generations in every state, whatever requests the handlers get.
use dirk.Maps.{lookup, All-lookup, All-remove, remove}
use dirk.Process.Shares.{Matched}
use dirk.Process.{Config, get_generation, Generation, State}
use dirk.Process.Env.{Services}
use dirk.Prelude.{
  ◌-◌, ◌≡◌, inl, inr, refl, sym, ◌∙◌, ap, subst, false, Option, none, some, All, Bool-cases,
  Option-cases, ltb, String, str_eq, eq_iff,
}

-- A generation of the map: its account is its key, it is of this instance, and its shares fit.
pub record Sound (S : Services) (C : Config) (entry : String × Generation S) : Type 0 where
  pub account : entry.1.account ≡ entry.0
  pub id : entry.1.id ≡ C.id
  pub matched : Matched S C.id entry.1.shared_secrets entry.1.shared_v_vecs

some-inj : {A : Type 0} {a b : A} → some a ≡ some b → a ≡ b
some-inj h = cc

module _ (S : Services) (C : Config) where
  abbrev pub Inv : State S → Type 0
  Inv s = All (Sound S C) s.generations

  -- A generation that is found is sound, and was in the map; the rest of the map stays sound.
  pub get_generation-Inv :
      (account : String) (s : State S) → Inv s → Inv (get_generation S C account s).1
  unfolding get_generation
  get_generation-Inv account s h = elim (Option-cases (lookup str_eq account s.generations)) [
    | inl missing ↦ rw (missing, get_generation) h
    | inr (g, there) ↦
        elim (Bool-cases (ltb C.generation_timeout (S.now s.world - g.process_started))) [
          | inl expired ↦
              rw (there, expired, get_generation)
                (All-remove str_eq (Sound S C) account s.generations h)
          | inr fresh ↦ rw (there, fresh, get_generation) h
        ]
  ]

  -- A generation that is found is in the map and not expired, and the state is left.
  pub record Found (account : String) (s : State S) (g : Generation S) : Type 0 where
    pub there : lookup str_eq account s.generations ≡ some g
    pub fresh : ltb C.generation_timeout (S.now s.world - g.process_started) ≡ false
    pub state : (get_generation S C account s).1 ≡ s

  no_generation :
      {A : Type 0} (r : Option A × State S) (s : State S) (a : A) → r ≡ (none, s) → r.0 ≡ some a → ⊥
  no_generation r s a e h = let q : none ≡ some a = sym (ap (λ z. z.0) e) ∙ h in cc

  pub get_generation-Found :
      (account : String) (s : State S) (g : Generation S)
      → (get_generation S C account s).0 ≡ some g
      → Found account s g
  unfolding get_generation
  get_generation-Found account s g e = elim (Option-cases (lookup str_eq account s.generations)) [
    | inl missing ↦
        absurd
          (no_generation (get_generation S C account s) s g (rw (missing, get_generation) refl) e)
    | inr (g', there) ↦
        elim (Bool-cases (ltb C.generation_timeout (S.now s.world - g'.process_started))) [
          | inl expired ↦ absurd (
              no_generation (get_generation S C account s)
                (record s { generations = remove str_eq account s.generations }) g
                (rw (there, expired, get_generation) refl) e)
          | inr fresh ↦
              let whole : get_generation S C account s ≡ (some g', s) =
                rw (there, fresh, get_generation) refl in
              let same : g' ≡ g = some-inj (sym (ap (λ z. z.0) whole) ∙ e) in
              record {
                there = there ∙ ap some same;
                fresh =
                    subst
                      (λ z. ltb C.generation_timeout (S.now s.world - z.process_started) ≡ false)
                      same fresh;
                state = ap (λ z. z.1) whole;
              }
        ]
  ]

  pub found-Sound :
      (account : String) (s : State S) (g : Generation S)
      → Inv s
      → (get_generation S C account s).0 ≡ some g
      → Sound S C (account, g)
  found-Sound account s g h e =
      All-lookup str_eq eq_iff (Sound S C) account g s.generations h
        (get_generation-Found account s g e).there
