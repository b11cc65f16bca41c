-- ===== src/Process/Prepare.antt =====
-- OnPrepare keeps what holds of the generations, if this instance is among the participants.
use dirk.Process.Contribution.{
  Participates, HasId, Verifies, secrets_for-HasId, confirm_secrets-Verifies, id_eq_iff, ok-inj,
}
use dirk.Process.Handlers.{set_generation-Inv}
use dirk.Process.Shares.{insert-Matched}
use dirk.Process.Invariant.{Sound, Inv, get_generation-Inv}
use dirk.Prelude.{Bool-cases, String, Option, map, length, sym}
use dirk.Maps.{All-lookup}
use dirk.Go.{Bytes}
use dirk.Process.{
  Config, lookup_id, confirm_secrets, verify_contribution, secrets_for, prepare, contribution_of,
  prepare_if_none, on_prepare, Generation, State, contributed, set_generation, new_generation,
  random_secrets, get_generation, or_zero, with_own,
}
use dirk.Process.Env.{Services, Endpoint}
use dirk.Go.{ok, err, Result, Error}
use dirk.Prelude.{refl}
use dirk.Prelude.{ℕ, ◌≡◌, inl, inr, refl, subst, true, none, some, List, [], All, Bool-cases, ◌==◌}

module _ (S : Services) (C : Config) where
  contributed-Sound :
      (account : String) (g : Generation S) (keys : List S.PublicKey)
      (secrets : List (ℕ × S.SecretKey))
      → Sound S C (account, g)
      → HasId S g.id secrets
      → All (Verifies S keys) secrets
      → Sound S C (account, contributed S g keys secrets)
  contributed-Sound account g keys secrets sound (secret, there) verified =
      let own : verify_contribution S g.id secret keys ≡ true =
        All-lookup (λ a b. a == b) id_eq_iff (Verifies S keys) g.id secret secrets verified there in
      record {
        account = sound.account;
        id = sound.id;
        matched =
            insert-Matched S C.id g.id (or_zero S.zero_secret (lookup_id g.id secrets)) keys
              g.shared_secrets g.shared_v_vecs
              (subst (λ o. verify_contribution S C.id (or_zero S.zero_secret o) keys ≡ true)
                (sym there) (subst (λ i. verify_contribution S i secret keys ≡ true) sound.id own))
              sound.matched;
      }

  contribution_of-Sound :
      (account : String) (sks : List S.SecretKey) (g g' : Generation S)
      → Sound S C (account, g)
      → Participates S g.id g.participants
      → contribution_of S sks g ≡ ok g'
      → Sound S C (account, g')
  unfolding contribution_of
  contribution_of-Sound account sks g g' sound part e =
      from (secrets_for S sks g.participants []) refl e
    where
      keys : List S.PublicKey
      keys = map S.get_public_key sks

      finish :
          (secrets : List (ℕ × S.SecretKey)) (o : Option Error)
          → secrets_for S sks g.participants [] ≡ ok secrets
          → confirm_secrets S keys secrets ≡ o
          → (elim o [ some x ↦ err x | none ↦ ok (contributed S g keys secrets) ]) ≡ ok g'
          → Sound S C (account, g')
      finish secrets (some x) made q h = cc
      finish secrets none made q h =
          subst (λ z. Sound S C (account, z)) (ok-inj h)
            (contributed-Sound account g keys secrets sound
              (secrets_for-HasId S g.id sks g.participants [] secrets (inl part) made)
              (confirm_secrets-Verifies S keys secrets q))

      from :
          (r : Result (List (ℕ × S.SecretKey)))
          → secrets_for S sks g.participants [] ≡ r
          → (elim r [
            | err x ↦ err x
            | ok secrets ↦ elim (confirm_secrets S keys secrets) [
              | some x ↦ err x
              | none ↦ ok (contributed S g keys secrets)
            ]
          ])
            ≡ ok g'
          → Sound S C (account, g')
      from (err x) made h = cc
      from (ok secrets) made h = finish secrets (confirm_secrets S keys secrets) made refl h

  prepare-Inv :
      (account : String) (g : Generation S) (s : State S)
      → Sound S C (account, g)
      → Participates S g.id g.participants
      → Inv S C s
      → Inv S C (prepare S C account g s).1
  unfolding prepare
  prepare-Inv account g s sound part h =
      from (contribution_of S (random_secrets S g.threshold s.world).0 g) refl
    where
      s1 : State S
      s1 = record (set_generation S C account g s) {
        world = (random_secrets S g.threshold s.world).1;
      }

      from :
          (r : Result (Generation S))
          → contribution_of S (random_secrets S g.threshold s.world).0 g ≡ r
          → Inv S C (with_own S C account r s1).1
      from (err x) e = set_generation-Inv S C account g s sound h
      from (ok g') e =
          set_generation-Inv S C account g' s1
            (contribution_of-Sound account (random_secrets S g.threshold s.world).0 g g' sound part
              e)
            (set_generation-Inv S C account g s sound h)

  prepare_if_none-Inv :
      (found : Option (Generation S)) (account : String) (passphrase : Option Bytes) (threshold : ℕ)
      (participants : List Endpoint) (s : State S)
      → Participates S C.id participants
      → Inv S C s
      → Inv S C (prepare_if_none S C found account passphrase threshold participants s).1
  unfolding prepare_if_none
  prepare_if_none-Inv (some g) account passphrase threshold participants s part h = h
  prepare_if_none-Inv none account passphrase threshold participants s part h =
      prepare-Inv account (new_generation S C account passphrase threshold participants s) s
        (record { account = refl; id = refl; matched = tt }) part h

  pub on_prepare-Inv :
      (account : String) (passphrase : Option Bytes) (threshold : ℕ) (participants : List Endpoint)
      (s : State S)
      → Participates S C.id participants
      → Inv S C s
      → Inv S C (on_prepare S C account passphrase threshold participants s).1
  unfolding on_prepare
  on_prepare-Inv account passphrase threshold participants s part h =
      elim (Bool-cases (length C.generation_passphrase == 0)) [
        | inl missing ↦ rw (missing, on_prepare) h
        | inr given ↦
            rw (given, on_prepare)
              (prepare_if_none-Inv (get_generation S C account s).0 account passphrase threshold
                participants (get_generation S C account s).1 part
                (get_generation-Inv S C account s h))
      ]
