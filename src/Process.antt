-- ===== src/Process.antt =====
-- services/process/standard: the distributed key generations of an instance, in generation.go,
-- crypto.go and service.go. Every handler runs under `generationsMu`, so that it is one step.
pub mod Env
pub mod Commit
pub mod Shares
pub mod Invariant
pub mod Handlers
pub mod Contribution
pub mod Prepare
pub mod Chains
pub mod Imported
pub mod Committed
pub mod Reachable
pub mod Generate
pub mod Composite
pub mod Agreed
pub mod Made
pub mod Requested
use dirk.Words.{put_le}
use dirk.Process.Env.{Services, Endpoint}
use dirk.Go.{Result, ok, err, Error, Run, ret, pure, ◌>>=◌}
use dirk.Go.{Bytes}
use dirk.Maps.{lookup, insert, remove}
use dirk.Prelude.{
  ℕ, zero, suc, ◌+◌, ◌-◌, ◌*◌, ◌/◌, ◌%◌, ◌<◌, ◌≤◌, ◌≡◌, ◌≢◌, ◌⊎◌, inl, inr, refl, sym, ◌∙◌, ap,
  subst, Bool, true, false, not, ◌&&◌, ◌||◌, Option, none, some, List, [], ◌∷◌, ◌++◌, map, reverse,
  arith, length, All, All-append, All-map, Ordered, take, drop, replicate, set, bytes_equal,
  bytes_equal_iff, Bool-cases, Option-cases, ◌==◌, ltb, leb, if◌then◌else◌, String, str_eq, eq_iff,
}

pub record Generation (S : Services) : Type 0 where
  pub process_started : ℕ
  pub id : ℕ
  pub account : String
  pub passphrase : Option Bytes
  pub threshold : ℕ  -- uint32
  pub participants : List Endpoint
  pub distribution_secrets : List (ℕ × S.SecretKey)
  pub shared_secrets : List (ℕ × S.SecretKey)
  pub shared_v_vecs : List (ℕ × List S.PublicKey)

pub record State (S : Services) : Type 0 where
  pub generations : List (String × Generation S)
  pub world : S.World

-- The fields of the service that do not change.
pub record Config : Type 0 where
  pub id : ℕ
  pub generation_passphrase : Bytes
  pub generation_timeout : ℕ

abbrev pub lookup_id : {A : Type 0} → ℕ → List (ℕ × A) → Option A
lookup_id = lookup (λ a b. a == b)

abbrev pub insert_id : {A : Type 0} → ℕ → A → List (ℕ × A) → List (ℕ × A)
insert_id = insert (λ a b. a == b)

-- A map's value, or the zero value of its type.
abbrev pub or_zero : {A : Type 0} → A → Option A → A
or_zero z none = z
or_zero z (some a) = a

-- A call that leaves the generations alone.
abbrev pub outside : {S : Services} {A : Type 0} → Run S.World A → Run (State S) A
outside m s = let (r, w) = m s.world in (r, record s { world = w })

module _ (S : Services) where
  -- util.BLSID
  abbrev pub bls_id : ℕ → S.ParticipantId
  bls_id id = S.set_little_endian (put_le 8 id)

  unfoldable pub verify_contribution : ℕ → S.SecretKey → List S.PublicKey → Bool
  verify_contribution id secret_share v_vec = elim (S.set_public v_vec (bls_id id)) [
    | err e ↦ false
    | ok v_vec_key ↦ S.is_equal (S.get_public_key secret_share) v_vec_key
  ]

  unfoldable pub random_secrets : ℕ → S.World → List S.SecretKey × S.World
  random_secrets zero w = ([], w)
  random_secrets (suc n) w =
      let (secret, w1) = S.random_secret w in
      let (rest, w2) = random_secrets n w1 in (secret ∷ rest, w2)

  -- A secret for each participant.
  unfoldable pub secrets_for :
      List S.SecretKey → List Endpoint → List (ℕ × S.SecretKey) → Result (List (ℕ × S.SecretKey))
  secrets_for sks [] secrets = ok secrets
  secrets_for sks (p ∷ participants) secrets = elim (S.set_secret sks (bls_id p.id)) [
    | err e ↦ err "failed to set contribution"
    | ok secret ↦ secrets_for sks participants (insert_id p.id secret secrets)
  ]

  -- The loop that confirms the secrets.
  unfoldable pub confirm_secrets : List S.PublicKey → List (ℕ × S.SecretKey) → Option Error
  confirm_secrets keys [] = none
  confirm_secrets keys ((k, v) ∷ secrets) = elim (S.set_public keys (bls_id k)) [
    | err e ↦ some "failed to create contribution"
    | ok v_vec_key ↦
        if S.is_equal (S.get_public_key v) v_vec_key
        then confirm_secrets keys secrets
        else some "failed to verify contribution"
  ]

  abbrev pub contributed : Generation S → List S.PublicKey → List (ℕ × S.SecretKey) → Generation S
  contributed g keys secrets = record g {
    shared_secrets =
        insert_id g.id (or_zero S.zero_secret (lookup_id g.id secrets)) g.shared_secrets;
    shared_v_vecs = insert_id g.id keys g.shared_v_vecs;
    distribution_secrets = secrets;
  }

  -- With the random keys drawn.
  unfoldable pub contribution_of : List S.SecretKey → Generation S → Result (Generation S)
  contribution_of sks g = elim (secrets_for sks g.participants []) [
    | err e ↦ err e
    | ok secrets ↦ elim (confirm_secrets (map S.get_public_key sks) secrets) [
      | some e ↦ err e
      | none ↦ ok (contributed g (map S.get_public_key sks) secrets)
    ]
  ]

  abbrev pub with_contribution : ℕ → S.SecretKey → List S.PublicKey → Generation S → Generation S
  with_contribution id secret v_vec g = record g {
    shared_secrets = insert_id id secret g.shared_secrets;
    shared_v_vecs = insert_id id v_vec g.shared_v_vecs;
  }

  -- The contribution that a peer sends back.
  unfoldable pub receive :
      ℕ → Generation S → Result (S.SecretKey × List S.PublicKey) → Result (Generation S)
  receive id g (err e) = err "failed to send contribution"
  receive id g (ok (secret, v_vec)) =
      if not (verify_contribution g.id secret v_vec)
      then err "invalid contribution"
      else elim (lookup_id id g.shared_secrets) [
        | some _ ↦ err "duplicate contribution"
        | none ↦ ok (with_contribution id secret v_vec g)
      ]

  module _ (C : Config) where
    -- A generation in progress; none is ErrNotFound. An old one is removed.
    unfoldable pub get_generation : String → State S → Option (Generation S) × State S
    get_generation account s = elim (lookup str_eq account s.generations) [
      | none ↦ (none, s)
      | some g ↦
          if ltb C.generation_timeout (S.now s.world - g.process_started)
          then (none, record s { generations = remove str_eq account s.generations })
          else (some g, s)
    ]

    abbrev pub set_generation : String → Generation S → State S → State S
    set_generation account g s = record s { generations = insert str_eq account g s.generations }

    abbrev pub new_generation : String → Option Bytes → ℕ → List Endpoint → State S → Generation S
    new_generation account passphrase threshold participants s = record {
      process_started = S.now s.world;
      id = C.id;
      account = account;
      passphrase = passphrase;
      threshold = threshold;
      participants = participants;
      distribution_secrets = [];
      shared_secrets = [];
      shared_v_vecs = [];
    }

    abbrev pub with_own : String → Result (Generation S) → Run (State S) (Option Error)
    with_own account (err e) s = (ret (some "failed to generate own contribution"), s)
    with_own account (ok g) s = (ret none, set_generation account g s)

    -- The generation stays in the map when its contribution fails.
    unfoldable pub prepare : String → Generation S → Run (State S) (Option Error)
    prepare account g s =
        let (sks, w) = random_secrets g.threshold s.world in
        with_own account (contribution_of sks g) (record (set_generation account g s) { world = w })

    unfoldable pub prepare_if_none :
        Option (Generation S)
        → String
        → Option Bytes
        → ℕ
        → List Endpoint
        → Run (State S) (Option Error)
    prepare_if_none (some g) account passphrase threshold participants s =
        (ret (some "in progress"), s)
    prepare_if_none none account passphrase threshold participants s =
        prepare account (new_generation account passphrase threshold participants s) s

    unfoldable pub on_prepare :
        String → Option Bytes → ℕ → List Endpoint → Run (State S) (Option Error)
    on_prepare account passphrase threshold participants s =
        if length C.generation_passphrase == 0
        then (ret (some "not created"), s)
        else let (found, s1) = get_generation account s in
          prepare_if_none found account passphrase threshold participants s1

    -- With the contribution received. The map holds a pointer, so that what a generation has
    -- received is in the map at once. `next` is the rest of the loop.
    unfoldable pub keep :
        String
        → (Generation S → Run (State S) (Option Error))
        → Result (Generation S)
        → Run (State S) (Option Error)
    keep account next (err e) = pure (some e)
    keep account next (ok g) = λ s. next g (set_generation account g s)

    unfoldable pub swap_with :
        String
        → List S.PublicKey
        → ℕ
        → S.SecretKey
        → Generation S
        → (Generation S → Run (State S) (Option Error))
        → Result Endpoint
        → Run (State S) (Option Error)
    swap_with account vector id secret g next (err e) = pure (some "failed to obtain peer")
    swap_with account vector id secret g next (ok peer) =
        outside (S.send_contribution peer account secret vector) >>= λ r.
        keep account next (receive id g r)

    -- The loop over the secrets to distribute.
    unfoldable pub swap :
        String
        → List S.PublicKey
        → List (ℕ × S.SecretKey)
        → Generation S
        → Run (State S) (Option Error)
    swap account vector [] g = pure none
    swap account vector ((id, secret) ∷ rest) g =
        if ltb C.id id
        then swap_with account vector id secret g (swap account vector rest) (S.peer id)
        else swap account vector rest g

    -- Each handler goes on with what `getGeneration` found.
    unfoldable pub execute : String → Option (Generation S) → Run (State S) (Option Error)
    execute account none = pure (some "not in progress")
    execute account (some g) =
        swap account (or_zero [] (lookup_id g.id g.shared_v_vecs)) g.distribution_secrets g

    unfoldable pub on_execute : String → Run (State S) (Option Error)
    on_execute account s = let (found, s1) = get_generation account s in execute account found s1

    abbrev pub swapped : ℕ → Generation S → S.SecretKey × List S.PublicKey
    swapped sender_id g = (
      or_zero S.zero_secret (lookup_id sender_id g.distribution_secrets),
      or_zero [] (lookup_id g.id g.shared_v_vecs),
    )

    unfoldable pub contribute :
        ℕ
        → String
        → S.SecretKey
        → List S.PublicKey
        → Option (Generation S)
        → State S
        → Result (S.SecretKey × List S.PublicKey) × State S
    contribute sender_id account secret v_vec none s = (err "not found", s)
    contribute sender_id account secret v_vec (some g) s =
        if not (verify_contribution g.id secret v_vec)
        then (err "invalid contribution", s)
        else let g' = with_contribution sender_id secret v_vec g in
          (ok (swapped sender_id g'), set_generation account g' s)

    unfoldable pub on_contribute :
        ℕ
        → String
        → S.SecretKey
        → List S.PublicKey
        → State S
        → Result (S.SecretKey × List S.PublicKey) × State S
    on_contribute sender_id account secret v_vec s =
        let (found, s1) = get_generation account s in
        contribute sender_id account secret v_vec found s1

    unfoldable pub abort : String → Option (Generation S) → State S → Option Error × State S
    abort account none s = (some "not in progress", s)
    abort account (some g) s =
        (none, record s { generations = remove str_eq account s.generations })

    unfoldable pub on_abort : String → State S → Option Error × State S
    on_abort account s = let (found, s1) = get_generation account s in abort account found s1
