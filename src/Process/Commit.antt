-- ===== src/Process/Commit.antt =====
-- services/process/standard/service.go: OnCommit and storeDistributedKey. Logging is left out.
use dirk.Maps.{remove}
use dirk.Go.{◌>>=◌, pure, Result, ok, err, panic, Bytes, Run, Go, ret, pure}
use dirk.Process.Env.{Services, Endpoint}
use dirk.Process.{Generation, State, Config, get_generation, or_zero, insert_id, outside}
use dirk.Prelude.{
  ℕ, not, none, some, List, [], ◌∷◌, map, length, replicate, ◌==◌, if◌then◌else◌, String, str_eq,
  Option,
}

-- The calls of a chain, which ends at the first error.
unfoldable pub try_then :
    {W A B : Type 0} → Run W (Result A) → (A → Run W (Result B)) → Run W (Result B)
try_then m f = m >>= λ r. elim r [ err e ↦ pure (err e) | ok a ↦ f a ]

module _ (S : Services) where
  unfoldable pub composite_secret : List (ℕ × S.SecretKey) → S.SecretKey → S.SecretKey
  composite_secret [] key = key
  composite_secret ((id, secret) ∷ rest) key = composite_secret rest (S.add_secret key secret)

  -- `aggregateVVec[i].Add`, for each i of a verification vector: out of range it panics.
  unfoldable pub add_v_vec : List S.PublicKey → List S.PublicKey → Go (List S.PublicKey)
  add_v_vec acc [] = ret acc
  add_v_vec [] (v ∷ vs) = panic
  add_v_vec (a ∷ acc) (v ∷ vs) = elim (add_v_vec acc vs) [
    | panic ↦ panic
    | ret sum ↦ ret (S.add_public a v ∷ sum)
  ]

  unfoldable pub aggregate : List (ℕ × List S.PublicKey) → List S.PublicKey → Go (List S.PublicKey)
  aggregate [] acc = ret acc
  aggregate ((id, v_vec) ∷ rest) acc = elim (add_v_vec acc v_vec) [
    | panic ↦ panic
    | ret acc' ↦ aggregate rest acc'
  ]

  -- A map from the participants' IDs to their addresses.
  unfoldable pub wallet_participants : List Endpoint → List (ℕ × String) → List (ℕ × String)
  wallet_participants [] m = m
  wallet_participants (p ∷ ps) m =
      wallet_participants ps (insert_id p.id (S.join_host_port p.name p.port) m)

  -- `locker.Unlock`, if the wallet is a locker, and `locker.Lock` when the call returns.
  unfoldable pub while_unlocked :
      {A : Type 0} → S.Wallet → Run S.World (Result A) → Run S.World (Result A)
  while_unlocked wallet m =
      if S.is_locker wallet
      then (S.unlock wallet >>= λ e. elim e [
        | some x ↦ pure (err "failed to unlock wallet")
        | none ↦ λ w.
            let (r, w1) = m w in
            let (locked, w2) = S.lock wallet w1 in
            elim locked [ panic ↦ (panic, w2) | ret x ↦ (r, w2) ]
      ])
      else m

  unfoldable pub store_distributed_key :
      String
      → Bytes
      → S.SecretKey
      → ℕ
      → List S.PublicKey
      → List Endpoint
      → Run S.World (Result Unit)
  store_distributed_key account passphrase private_key threshold vector participants =
      try_then (pure (S.wallet_and_account_names account)) (λ (wallet_name, account_name).
        try_then (S.open_wallet wallet_name) (λ wallet. while_unlocked wallet (
          try_then
            (S.import_distributed_account wallet account_name (S.serialize_secret private_key)
              threshold (map S.serialize_public vector) (wallet_participants participants [])
              passphrase)
            (λ generated. S.add_account wallet generated >>= λ e. pure (ok tt)))))

  -- The attempt to retrieve the key.
  unfoldable pub retrieve : String → Run S.World (Result Unit)
  retrieve account =
      try_then (pure (S.wallet_and_account_names account)) (λ (wallet_name, account_name).
        try_then (S.open_wallet wallet_name) (λ wallet.
          if S.is_provider wallet
          then try_then (S.account_by_name wallet account_name) (λ found. pure (ok tt))
          else pure (err "wallet does not support fetching accounts by name")))

  abbrev pub zero_vector : ℕ → List S.PublicKey
  zero_vector n = replicate n S.zero_public

  abbrev pub private_key_of : Generation S → S.SecretKey
  private_key_of g = composite_secret g.shared_secrets S.zero_secret

  module _ (C : Config) where
    -- The end of OnCommit: `aggregateVVec[0]` panics if the threshold is 0.
    unfoldable pub finish :
        String
        → Generation S
        → Bytes
        → List S.PublicKey
        → State S
        → Go (Result (Bytes × Bytes)) × State S
    finish account g confirmation [] s =
        (panic, record s { generations = remove str_eq account s.generations })
    finish account g confirmation (key ∷ keys) s = (
      ret (ok (S.serialize_public key, S.sign_byte (private_key_of g) confirmation)),
      record s { generations = remove str_eq account s.generations },
    )

    abbrev pub store_and_retrieve :
        Generation S → String → List S.PublicKey → Run S.World (Result Unit)
    store_and_retrieve g account vector =
        try_then
          (store_distributed_key g.account (or_zero C.generation_passphrase g.passphrase)
            (private_key_of g) g.threshold vector g.participants)
          (λ done. retrieve account)

    unfoldable pub commit_aggregated :
        String
        → Generation S
        → Bytes
        → Go (List S.PublicKey)
        → Run (State S) (Result (Bytes × Bytes))
    commit_aggregated account g confirmation panic s = (panic, s)
    commit_aggregated account g confirmation (ret vector) s =
        try_then (outside (store_and_retrieve g account vector))
          (λ done. finish account g confirmation vector) s

    unfoldable pub commit : String → Generation S → Bytes → Run (State S) (Result (Bytes × Bytes))
    commit account g confirmation s =
        if not (length g.shared_secrets == length g.participants)
        then (ret (err "have too few or too many contributions"), s)
        else if not (length g.shared_v_vecs == length g.participants)
        then (ret (err "have too few or too many contributions"), s)
        else commit_aggregated account g confirmation
            (aggregate g.shared_v_vecs (zero_vector g.threshold)) s

    unfoldable pub commit_found :
        String → Bytes → Option (Generation S) → Run (State S) (Result (Bytes × Bytes))
    commit_found account confirmation none = pure (err "not in progress")
    commit_found account confirmation (some g) = commit account g confirmation

    unfoldable pub on_commit : String → Bytes → Run (State S) (Result (Bytes × Bytes))
    on_commit account confirmation s =
        let (found, s1) = get_generation S C account s in commit_found account confirmation found s1
