-- ===== src/Process/Contribution.antt =====
-- A contribution of this instance that is made has a share for each participant, and they verify.
use dirk.Prelude.{Bool-cases}
use dirk.Process.{lookup_id, confirm_secrets, insert_id, verify_contribution, secrets_for, bls_id}
use dirk.Process.Env.{Services, Endpoint}
use dirk.Go.{ok, err, Result, Error, Result-cases}
use dirk.Prelude.{refl, ◌↔◌}
use dirk.Maps.{lookup-insert}
use dirk.Prelude.{
  ℕ, ◌≡◌, ◌⊎◌, inl, inr, refl, subst, Bool, true, false, none, some, List, [], ◌∷◌, arith, All,
  Bool-cases, ◌==◌, if◌then◌else◌,
}

pub ok-inj : {A : Type 0} {a b : A} → ok a ≡ ok b → a ≡ b
ok-inj h = cc

pub some_not_none : {e : Error} → some e ≡ none → ⊥
some_not_none h = cc

pub id_eq_iff : (a b : ℕ) → ((a == b) ≡ true) ↔ (a ≡ b)
id_eq_iff a b = (λ h. ground arith, λ h. ground arith)

lookup-insert_id :
    {A : Type 0} (k j : ℕ) (a : A) (m : List (ℕ × A))
    → lookup_id j (insert_id k a m) ≡ (if k == j then some a else lookup_id j m)
lookup-insert_id k j a m = lookup-insert (λ x y. x == y) id_eq_iff k j a m

module _ (S : Services) where
  -- One of the participants has the ID.
  abbrev pub Participates : ℕ → List Endpoint → Type 0
  Participates id [] = ⊥
  Participates id (p ∷ ps) = (p.id ≡ id) ⊎ Participates id ps

  abbrev pub HasId : ℕ → List (ℕ × S.SecretKey) → Type 0
  HasId id secrets = (secret : S.SecretKey) × (lookup_id id secrets ≡ some secret)

  insert_id-HasId :
      (id k : ℕ) (secret : S.SecretKey) (secrets : List (ℕ × S.SecretKey))
      → (k ≡ id) ⊎ HasId id secrets
      → HasId id (insert_id k secret secrets)
  insert_id-HasId id k secret secrets h = elim (Bool-cases (k == id)) [
    | inl same ↦ (secret, rw (lookup-insert_id k id secret secrets, same) refl)
    | inr other ↦ elim h [
      | inl e ↦ absurd (ground arith)
      | inr (found_it, e) ↦ (found_it, rw (lookup-insert_id k id secret secrets, other) e)
    ]
  ]

  -- Each participant has a secret.
  pub secrets_for-HasId :
      (id : ℕ) (sks : List S.SecretKey) (ps : List Endpoint) (acc secrets : List (ℕ × S.SecretKey))
      → Participates id ps ⊎ HasId id acc
      → secrets_for S sks ps acc ≡ ok secrets
      → HasId id secrets
  unfolding secrets_for
  secrets_for-HasId id sks [] acc secrets (inl never) e = absurd never
  secrets_for-HasId id sks [] acc secrets (inr h) e = subst (λ z. HasId id z) (ok-inj e) h
  secrets_for-HasId id sks (p ∷ ps) acc secrets h e =
      elim (Result-cases (S.set_secret sks (bls_id S p.id))) [
        | inr (x, failed) ↦ absurd (never failed)
        | inl (secret, done) ↦
            secrets_for-HasId id sks ps (insert_id p.id secret acc) secrets (later secret)
              (next secret done)
      ]
    where
      next :
          (secret : S.SecretKey)
          → S.set_secret sks (bls_id S p.id) ≡ ok secret
          → secrets_for S sks ps (insert_id p.id secret acc) ≡ ok secrets
      next secret done =
          subst
            (λ r.
              (elim r [
                | err x ↦ err "failed to set contribution"
                | ok z ↦ secrets_for S sks ps (insert_id p.id z acc)
              ])
              ≡ ok secrets)
            done e

      never : {x : Error} → S.set_secret sks (bls_id S p.id) ≡ err x → ⊥
      never {x} failed =
          let q : err "failed to set contribution" ≡ ok secrets =
            subst
              (λ r.
                (elim r [
                  | err x ↦ err "failed to set contribution"
                  | ok z ↦ secrets_for S sks ps (insert_id p.id z acc)
                ])
                ≡ ok secrets)
              failed e in
          cc

      later : (secret : S.SecretKey) → Participates id ps ⊎ HasId id (insert_id p.id secret acc)
      later secret = elim h [
        | inl (inl here) ↦ inr (insert_id-HasId id p.id secret acc (inl here))
        | inl (inr there) ↦ inl there
        | inr had ↦ inr (insert_id-HasId id p.id secret acc (inr had))
      ]

  abbrev pub Verifies : List S.PublicKey → ℕ × S.SecretKey → Type 0
  Verifies keys (k, v) = verify_contribution S k v keys ≡ true

  -- The loop that confirms the secrets verifies each.
  pub confirm_secrets-Verifies :
      (keys : List S.PublicKey) (secrets : List (ℕ × S.SecretKey))
      → confirm_secrets S keys secrets ≡ none
      → All (Verifies keys) secrets
  unfolding confirm_secrets verify_contribution
  confirm_secrets-Verifies keys [] e = tt
  confirm_secrets-Verifies keys ((k, v) ∷ secrets) e =
      elim (Result-cases (S.set_public keys (bls_id S k))) [
        | inr (x, failed) ↦ absurd (never x failed)
        | inl (key, done) ↦ elim (Bool-cases (S.is_equal (S.get_public_key v) key)) [
          | inl same ↦ (
            rw (done, verify_contribution) same,
            confirm_secrets-Verifies keys secrets (with_key key done same),
          )
          | inr other ↦ absurd (differs key done other)
        ]
      ]
    where
      by_key :
          (r : Result S.PublicKey)
          → S.set_public keys (bls_id S k) ≡ r
          → (elim r [
            | err x ↦ some "failed to create contribution"
            | ok key ↦
                if S.is_equal (S.get_public_key v) key
                then confirm_secrets S keys secrets
                else some "failed to verify contribution"
          ])
            ≡ none
      by_key r q =
          subst
            (λ z.
              (elim z [
                | err x ↦ some "failed to create contribution"
                | ok key ↦
                    if S.is_equal (S.get_public_key v) key
                    then confirm_secrets S keys secrets
                    else some "failed to verify contribution"
              ])
              ≡ none)
            q e

      never : (x : Error) → S.set_public keys (bls_id S k) ≡ err x → ⊥
      never x failed = some_not_none (by_key (err x) failed)

      by_test :
          (key : S.PublicKey) (b : Bool)
          → S.set_public keys (bls_id S k) ≡ ok key
          → S.is_equal (S.get_public_key v) key ≡ b
          → (if b then confirm_secrets S keys secrets else some "failed to verify contribution")
            ≡ none
      by_test key b done same =
          subst
            (λ z.
              (if z then confirm_secrets S keys secrets else some "failed to verify contribution")
              ≡ none)
            same (by_key (ok key) done)

      with_key :
          (key : S.PublicKey)
          → S.set_public keys (bls_id S k) ≡ ok key
          → S.is_equal (S.get_public_key v) key ≡ true
          → confirm_secrets S keys secrets ≡ none
      with_key key done same = by_test key true done same

      differs :
          (key : S.PublicKey)
          → S.set_public keys (bls_id S k) ≡ ok key
          → S.is_equal (S.get_public_key v) key ≡ false
          → ⊥
      differs key done other = some_not_none (by_test key false done other)
