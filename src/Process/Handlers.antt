-- ===== src/Process/Handlers.antt =====
-- Each handler keeps what holds of the generations.
use dirk.Process.Shares.{insert-Matched}
use dirk.Process.Invariant.{Sound, Inv, found-Sound, get_generation-Inv}
use dirk.Process.{
  Config, receive, swap, contribute, abort, Generation, State, verify_contribution,
  with_contribution, set_generation, lookup_id, on_abort, keep, on_contribute, execute, on_execute,
  swap_with, get_generation, or_zero, outside,
}
use dirk.Process.Env.{Services, Endpoint}
use dirk.Go.{Run, Preserves-bind, ok, err, Result, Preserves, Error}
use dirk.Prelude.{Bool, true, false, not, ltb, []}
use dirk.Prelude.{refl}
use dirk.Maps.{All-insert, All-remove}
use dirk.Prelude.{
  ℕ, ◌≡◌, inl, inr, refl, subst, Bool, true, false, not, Option, none, some, List, [], ◌∷◌,
  Bool-cases, ltb, if◌then◌else◌, String, str_eq,
}

if-Preserves :
    {W A : Type 0} {P : W → Type 0} (b : Bool) (m n : Run W A)
    → Preserves P m
    → Preserves P n
    → Preserves P (if b then m else n)
if-Preserves true m n hm hn = hm
if-Preserves false m n hm hn = hn

ok-inj : {A : Type 0} {a b : A} → ok a ≡ ok b → a ≡ b
ok-inj h = cc

module _ (S : Services) (C : Config) where
  pub set_generation-Inv :
      (account : String) (g : Generation S) (s : State S)
      → Sound S C (account, g)
      → Inv S C s
      → Inv S C (set_generation S C account g s)
  set_generation-Inv account g s hg h = All-insert str_eq (Sound S C) account g s.generations hg h

  -- A contribution that verifies keeps the shares fitting.
  with_contribution-Sound :
      (account : String) (g : Generation S) (id : ℕ) (secret : S.SecretKey)
      (v_vec : List S.PublicKey)
      → verify_contribution S g.id secret v_vec ≡ true
      → Sound S C (account, g)
      → Sound S C (account, with_contribution S id secret v_vec g)
  with_contribution-Sound account g id secret v_vec h sound = record {
    account = sound.account;
    id = sound.id;
    matched =
        insert-Matched S C.id id secret v_vec g.shared_secrets g.shared_v_vecs
          (subst (λ i. verify_contribution S i secret v_vec ≡ true) sound.id h) sound.matched;
  }

  contribute-Inv :
      (sender_id : ℕ) (account : String) (secret : S.SecretKey) (v_vec : List S.PublicKey)
      (found : Option (Generation S)) (s : State S)
      → ((g : Generation S) → found ≡ some g → Sound S C (account, g))
      → Inv S C s
      → Inv S C (contribute S C sender_id account secret v_vec found s).1
  unfolding contribute
  contribute-Inv sender_id account secret v_vec none s hg h = h
  contribute-Inv sender_id account secret v_vec (some g) s hg h =
      elim (Bool-cases (verify_contribution S g.id secret v_vec)) [
        | inl valid ↦
            rw (valid, contribute)
              (set_generation-Inv account (with_contribution S sender_id secret v_vec g) s
                (with_contribution-Sound account g sender_id secret v_vec valid (hg g refl)) h)
        | inr invalid ↦ rw (invalid, contribute) h
      ]

  abort-Inv :
      (account : String) (found : Option (Generation S)) (s : State S)
      → Inv S C s
      → Inv S C (abort S C account found s).1
  unfolding abort
  abort-Inv account none s h = h
  abort-Inv account (some g) s h = All-remove str_eq (Sound S C) account s.generations h

  receive-Sound :
      (account : String) (id : ℕ) (g g' : Generation S)
      (r : Result (S.SecretKey × List S.PublicKey))
      → Sound S C (account, g)
      → receive S id g r ≡ ok g'
      → Sound S C (account, g')
  unfolding receive
  receive-Sound account id g g' (err e) sound h = cc
  receive-Sound account id g g' (ok (secret, v_vec)) sound h =
      from (verify_contribution S g.id secret v_vec) (lookup_id id g.shared_secrets) refl h
    where
      from :
          (b : Bool) (o : Option S.SecretKey)
          → verify_contribution S g.id secret v_vec ≡ b
          → (if not b then err "invalid contribution" else elim o [
            | some _ ↦ err "duplicate contribution"
            | none ↦ ok (with_contribution S id secret v_vec g)
          ])
            ≡ ok g'
          → Sound S C (account, g')
      from false o valid q = cc
      from true (some z) valid q = cc
      from true none valid q =
          subst (λ z. Sound S C (account, z)) (ok-inj q)
            (with_contribution-Sound account g id secret v_vec valid sound)

  keep-Inv :
      (account : String) (next : Generation S → Run (State S) (Option Error))
      (r : Result (Generation S))
      → ((g : Generation S) → r ≡ ok g → Sound S C (account, g))
      → ((g : Generation S) → Sound S C (account, g) → Preserves (Inv S C) (next g))
      → Preserves (Inv S C) (keep S C account next r)
  unfolding keep
  keep-Inv account next (err e) hr hn s h = h
  keep-Inv account next (ok g) hr hn s h =
      hn g (hr g refl) (set_generation S C account g s)
        (set_generation-Inv account g s (hr g refl) h)

  swap_with-Inv :
      (account : String) (vector : List S.PublicKey) (id : ℕ) (secret : S.SecretKey)
      (g : Generation S) (next : Generation S → Run (State S) (Option Error)) (r : Result Endpoint)
      → Sound S C (account, g)
      → ((g' : Generation S) → Sound S C (account, g') → Preserves (Inv S C) (next g'))
      → Preserves (Inv S C) (swap_with S C account vector id secret g next r)
  unfolding swap_with
  swap_with-Inv account vector id secret g next (err e) sound hn = λ s h. h
  swap_with-Inv account vector id secret g next (ok peer) sound hn =
      Preserves-bind (Inv S C) (outside (S.send_contribution peer account secret vector))
        (λ r. keep S C account next (receive S id g r)) (λ s h. h)
        (λ r.
          keep-Inv account next (receive S id g r) (λ g' e. receive-Sound account id g g' r sound e)
            hn)

  swap-Inv :
      (account : String) (vector : List S.PublicKey) (secrets : List (ℕ × S.SecretKey))
      (g : Generation S)
      → Sound S C (account, g)
      → Preserves (Inv S C) (swap S C account vector secrets g)
  unfolding swap
  swap-Inv account vector [] g sound = λ s h. h
  swap-Inv account vector ((id, secret) ∷ rest) g sound =
      if-Preserves (ltb C.id id)
        (swap_with S C account vector id secret g (swap S C account vector rest) (S.peer id))
        (swap S C account vector rest g)
        (swap_with-Inv account vector id secret g (swap S C account vector rest) (S.peer id) sound
          (λ g' sound'. swap-Inv account vector rest g' sound'))
        (swap-Inv account vector rest g sound)

  execute-Inv :
      (account : String) (found : Option (Generation S))
      → ((g : Generation S) → found ≡ some g → Sound S C (account, g))
      → Preserves (Inv S C) (execute S C account found)
  unfolding execute
  execute-Inv account none hg = λ s h. h
  execute-Inv account (some g) hg =
      swap-Inv account (or_zero [] (lookup_id g.id g.shared_v_vecs)) g.distribution_secrets g
        (hg g refl)

  pub on_contribute-Inv :
      (sender_id : ℕ) (account : String) (secret : S.SecretKey) (v_vec : List S.PublicKey)
      (s : State S)
      → Inv S C s
      → Inv S C (on_contribute S C sender_id account secret v_vec s).1
  unfolding on_contribute
  on_contribute-Inv sender_id account secret v_vec s h =
      contribute-Inv sender_id account secret v_vec (get_generation S C account s).0
        (get_generation S C account s).1 (λ g e. found-Sound S C account s g h e)
        (get_generation-Inv S C account s h)

  pub on_execute-Inv : (account : String) → Preserves (Inv S C) (on_execute S C account)
  unfolding on_execute
  on_execute-Inv account s h =
      execute-Inv account (get_generation S C account s).0 (λ g e. found-Sound S C account s g h e)
        (get_generation S C account s).1 (get_generation-Inv S C account s h)

  pub on_abort-Inv :
      (account : String) (s : State S) → Inv S C s → Inv S C (on_abort S C account s).1
  unfolding on_abort
  on_abort-Inv account s h =
      abort-Inv account (get_generation S C account s).0 (get_generation S C account s).1
        (get_generation-Inv S C account s h)
