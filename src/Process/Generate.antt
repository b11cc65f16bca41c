-- ===== src/Process/Generate.antt =====
-- services/process/standard/generate.go: OnGenerate, which has a key made by several instances. The
-- goroutines of the commits are run one after the other, in the order of the participants.
use dirk.Prelude.{Bool, true, false, leb, ltb, ◌/◌}
use dirk.Process.Env.{Services, Endpoint}
use dirk.Go.{ok, err, Result, Error, Run, Go, ret, panic, pure, ◌>>=◌, Bytes}
use dirk.Ruler.{Credentials}
use dirk.Core
use dirk.Core.{result_succeeded, result_denied}
use dirk.Process.Commit.{try_then}
use dirk.Process.{bls_id}
use dirk.Process.{bls_id}
use dirk.Process.Commit.{try_then}
use dirk.Ruler.{Credentials}
use dirk.Process.Env.{Endpoint, Services}
use dirk.Go.{Error, Bytes, Run, Result, ok, err, ◌>>=◌, Go, pure, panic, ret}
use dirk.Prelude.{
  ℕ, zero, suc, ◌+◌, ◌-◌, Bool, true, not, ◌&&◌, Option, none, some, List, [], ◌∷◌, map, length,
  take, drop, bytes_equal, ◌==◌, if◌then◌else◌, String, str_eq,
}

-- What OnGenerate uses besides: the wallets, the checker, the unlocker, the peers, the sender, and
-- BLS signatures.
pub record Requests (S : Services) : Type 1 where
  -- e2wallet.OpenWallet
  pub open_wallet : String → Run S.World (Result S.Wallet)
  pub wallet_type : S.Wallet → String
  pub check : Option Credentials → String → String → Bool
  pub unlock_wallet : S.Wallet → Run S.World (Result Bool)
  -- it panics if the wallet is no WalletAccountCreator
  pub create_account : S.Wallet → String → Option Bytes → Run S.World (Result S.Account)
  -- PublicKey().Marshal()
  pub public_key : S.Account → Bytes
  pub suitable : ℕ → Result (List Endpoint)
  pub send_prepare :
      Endpoint → String → Option Bytes → ℕ → List Endpoint → Run S.World (Option Error)
  pub send_execute : Endpoint → String → Run S.World (Option Error)
  pub send_commit : Endpoint → String → Bytes → Run S.World (Result (Bytes × Bytes))
  -- rand.Read into 32 bytes: those that were read
  pub read_random : Run S.World (Result Bytes)
  pub deserialize_public : Bytes → Result S.PublicKey
  pub Sign : Type 0
  pub deserialize_sign : Bytes → Result Sign
  pub recover : List Sign → List S.ParticipantId → Result Sign
  pub verify_byte : Sign → S.PublicKey → Bytes → Bool

abbrev pub Generated : Type 0
Generated = Bytes × List Endpoint

-- A step whose only result is an error.
abbrev pub unless_failed : {W : Type 0} → Error → Run W (Option Error) → Run W (Result Unit)
unless_failed text m = m >>= λ e. pure (elim e [ none ↦ ok tt | some x ↦ err text ])

-- `pubKeys[i]` and `pubKeys[(i+1)%len(pubKeys)]`, for each i.
unfoldable pub all_equal_next : Bytes → List Bytes → Bool
all_equal_next first [] = true
all_equal_next first (x ∷ []) = bytes_equal x first
all_equal_next first (x ∷ y ∷ keys) = bytes_equal x y && all_equal_next first (y ∷ keys)

module _ (S : Services) (R : Requests S) where
  abbrev pub check_access : Option Credentials → String → String → Core.Result
  check_access credentials account action =
      if R.check credentials account action then result_succeeded else result_denied

  -- The loop of the prepare requests.
  unfoldable pub prepare_all :
      String → Option Bytes → ℕ → List Endpoint → List Endpoint → Run S.World (Result Unit)
  prepare_all account passphrase threshold all [] = pure (ok tt)
  prepare_all account passphrase threshold all (p ∷ ps) =
      try_then
        (unless_failed "failed to prepare endpoints"
          (R.send_prepare p account passphrase threshold all))
        (λ done. prepare_all account passphrase threshold all ps)

  unfoldable pub execute_all : String → List Endpoint → Run S.World (Result Unit)
  execute_all account [] = pure (ok tt)
  execute_all account (p ∷ ps) =
      try_then (unless_failed "failed to execute generation" (R.send_execute p account))
        (λ done. execute_all account ps)

  -- The results of the commits.
  unfoldable pub commit_all :
      String → Bytes → List Endpoint → Run S.World (List (Result (Bytes × Bytes)))
  commit_all account confirmation [] = pure []
  commit_all account confirmation (p ∷ ps) = R.send_commit p account confirmation >>= λ r.
      commit_all account confirmation ps >>= λ rs. pure (r ∷ rs)

  -- The loop over the results.
  unfoldable pub committed_keys : List (Result (Bytes × Bytes)) → Result (List (Bytes × Bytes))
  committed_keys [] = ok []
  committed_keys (err e ∷ rs) = err "failed to complete generation"
  committed_keys (ok ([], sig) ∷ rs) = err "failed to complete generation"
  committed_keys (ok (b ∷ key, []) ∷ rs) = err "failed to complete generation"
  committed_keys (ok (b ∷ key, c ∷ sig) ∷ rs) = elim (committed_keys rs) [
    | err e ↦ err e
    | ok rest ↦ ok ((b ∷ key, c ∷ sig) ∷ rest)
  ]

  unfoldable pub deserialize_all : List (Endpoint × Bytes) → Result (List R.Sign)
  deserialize_all [] = ok []
  deserialize_all ((p, sig) ∷ rest) = elim (R.deserialize_sign sig) [
    | err e ↦ err "invalid generation"
    | ok s ↦ elim (deserialize_all rest) [ err e ↦ err e | ok ss ↦ ok (s ∷ ss) ]
  ]

  -- The check of the composite signature of some participants.
  unfoldable pub check_composite : S.PublicKey → Bytes → List (Endpoint × Bytes) → Option Error
  check_composite key confirmation window = elim (deserialize_all window) [
    | err e ↦ some e
    | ok sigs ↦ elim (R.recover sigs (map (λ e. bls_id S e.0.id) window)) [
      | err e ↦ some "invalid generation"
      | ok composite ↦
          if R.verify_byte composite key confirmation then none else some "invalid generation"
    ]
  ]

  -- The loop over the first participants of the windows.
  unfoldable pub check_composites :
      ℕ → ℕ → S.PublicKey → Bytes → List (Endpoint × Bytes) → Option Error
  check_composites zero threshold key confirmation sigs = none
  check_composites (suc n) threshold key confirmation sigs =
      let rest = check_composites n threshold key confirmation (drop 1 sigs) in
      elim (check_composite key confirmation (take threshold sigs)) [
        | some e ↦ some e
        | none ↦ rest
      ]

  abbrev pub pair_sigs : List Endpoint → List (Bytes × Bytes) → List (Endpoint × Bytes)
  pair_sigs (p ∷ ps) (r ∷ rs) = (p, r.1) ∷ pair_sigs ps rs
  pair_sigs _ _ = []

  -- `pubKeys[0]` panics if there is none.
  unfoldable pub check_generated :
      ℕ → Bytes → List Endpoint → List (Bytes × Bytes) → Go (Result Generated)
  check_generated threshold confirmation participants [] = panic
  check_generated threshold confirmation participants (r ∷ rs) =
      if not (all_equal_next r.0 (map (λ x. x.0) (r ∷ rs)))
      then ret (err "invalid generation")
      else elim (R.deserialize_public r.0) [
        | err e ↦ ret (err "invalid generation")
        | ok key ↦
            elim (check_composites (length participants + 1 - threshold) threshold key confirmation
              (pair_sigs participants (r ∷ rs))) [
                | some e ↦ ret (err e)
                | none ↦ ret (ok (r.0, participants))
              ]
      ]

  unfoldable pub confirmation_of : Result Bytes → Result Bytes
  confirmation_of (err e) = err "failed to generate commit data"
  confirmation_of (ok bytes) =
      if length bytes == 32 then ok bytes else err "failed to generate enough commit data"

  abbrev pub map_run : {A B : Type 0} → (A → B) → Run S.World A → Run S.World B
  map_run f m = m >>= λ a. pure (f a)

  unfoldable pub commit_and_check :
      String → ℕ → List Endpoint → Bytes → Run S.World (Result Generated)
  commit_and_check account threshold participants confirmation =
      try_then (map_run committed_keys (commit_all account confirmation participants))
        (λ keys w. (check_generated threshold confirmation participants keys, w))

  unfoldable pub generate_distributed :
      S.Wallet → String → Option Bytes → ℕ → ℕ → Run S.World (Result Generated)
  generate_distributed wallet account passphrase threshold count =
      if not (str_eq (R.wallet_type wallet) "distributed")
      then pure (err "wallet does not support distributed generation")
      else try_then (pure (R.suitable count)) (λ participants.
        try_then (prepare_all account passphrase threshold participants participants) (λ prepared.
          try_then (execute_all account participants) (λ executed.
            try_then (map_run confirmation_of R.read_random)
              (λ confirmation. commit_and_check account threshold participants confirmation))))

  -- `generate`, with the wallet unlocked.
  unfoldable pub create : S.Wallet → String → Option Bytes → Run S.World (Result Bytes)
  create wallet account_name passphrase =
      try_then (R.create_account wallet account_name passphrase)
        (λ created. S.add_account wallet created >>= λ e. pure (ok (R.public_key created)))

  -- `locker.Lock`, when the call returns; an error of it is logged.
  abbrev pub then_lock : {A : Type 0} → S.Wallet → Run S.World A → Run S.World A
  then_lock wallet m w =
      let (r, w1) = m w in
      let (locked, w2) = S.lock wallet w1 in elim locked [ panic ↦ (panic, w2) | ret x ↦ (r, w2) ]

  unfoldable pub if_unlocked : Bool → Run S.World (Result Bytes) → Run S.World (Result Bytes)
  if_unlocked false m = pure (err "failed to unlock wallet with known passphrases")
  if_unlocked true m = m

  unfoldable pub generate : S.Wallet → String → Option Bytes → Run S.World (Result Bytes)
  generate wallet account_name passphrase =
      if str_eq (R.wallet_type wallet) "distributed"
      then pure (err "wallet does not support account creation")
      else if S.is_locker wallet
      then try_then (R.unlock_wallet wallet) (λ unlocked.
        if_unlocked unlocked (then_lock wallet (create wallet account_name passphrase)))
      else create wallet account_name passphrase

  -- Once the account is new and the client may create it.
  unfoldable pub generate_for :
      S.Wallet → String → String → Option Bytes → ℕ → ℕ → Run S.World (Result Generated)
  generate_for wallet account account_name passphrase threshold count =
      if count == 1
      then try_then (generate wallet account_name passphrase) (λ key. pure (ok (key, [])))
      else generate_distributed wallet account passphrase threshold count

  abbrev pub if_absent :
      Result S.Account → Run S.World (Result Generated) → Run S.World (Result Generated)
  if_absent (ok found) next = pure (err "account already exists")
  if_absent (err e) next = next

  abbrev pub if_allowed :
      Core.Result → Run S.World (Result Generated) → Run S.World (Result Generated)
  if_allowed result_succeeded next = next
  if_allowed _ next = pure (err "failed rules check")

  unfoldable pub on_generate_in :
      Option Credentials
      → String
      → String
      → Option Bytes
      → ℕ
      → ℕ
      → S.Wallet
      → Run S.World (Result Generated)
  on_generate_in credentials account account_name passphrase threshold count wallet =
      if not (S.is_provider wallet)
      then pure (err "wallet does not support fetching accounts by name")
      else S.account_by_name wallet account_name >>= λ r. if_absent r (
          if_allowed (check_access credentials account "Create account")
            (generate_for wallet account account_name passphrase threshold count))

  unfoldable pub on_generate :
      Option Credentials → String → Option Bytes → ℕ → ℕ → Run S.World (Result Generated)
  on_generate credentials account passphrase threshold count =
      if count == 0
      then pure (err "zero participants")
      else if ltb count threshold
      then pure (err "signing threshold too high")
      else if leb threshold (count / 2)
      then pure (err "signing threshold too low")
      else try_then (pure (S.wallet_and_account_names account)) (λ (wallet_name, account_name).
        try_then (R.open_wallet wallet_name)
          (on_generate_in credentials account account_name passphrase threshold count))
