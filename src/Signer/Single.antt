-- ===== src/Signer/Single.antt =====
-- services/signer/standard: signgeneric.go, signbeaconattestation.go and signbeaconproposal.go.
use dirk.Rules.Env.{Env}
use dirk.Prelude.{
  ℕ, Bool, true, false, ◌||◌, Option, none, some, List, [], ◌∷◌, ◌++◌, take, replicate,
  if◌then◌else◌, String,
}
use dirk.Go
use dirk.Go.{ok, err, Go, Slice, Bytes, bytes_of, Run, ret, panic, pure, ◌>>=◌}
use dirk.Core
use dirk.Core.{result_unknown, result_succeeded, result_denied, result_failed}
use dirk.Rules.Types
use dirk.Rules.Types.{
  unknown, approved, denied, failed, SignData, SignBeaconAttestationData, SignBeaconProposalData,
  Checkpoint,
}
use dirk.Ruler.{
  Credentials, Action, sign, sign_beacon_attestation, sign_beacon_proposal, RulesData, AnyData,
  sign_data, attestation_data, proposal_data, run_rules,
}
use dirk.Signer.Services.{Services, AttestationData, BeaconBlockHeader}
use dirk.Signer.Account.{Step, go_on, refuse, pre_check}
use dirk.Signer.Root.{generate_signing_root, sign_root}

-- A result, and the signature if there is one.
abbrev pub Signed : Type 0
Signed = Core.Result × Option Bytes

abbrev pub without : Core.Result → Signed
without r = (r, none)

-- The `switch` on results[0].
abbrev pub decided : List Types.Result → Go (Step (Unit {0}))
decided [] = panic
decided (approved ∷ rs) = ret (go_on tt)
decided (denied ∷ rs) = ret (refuse result_denied)
decided (failed ∷ rs) = ret (refuse result_failed)
decided (unknown ∷ rs) = ret (refuse result_failed)

abbrev pub decided_call : Go (List Types.Result) → Go (Step (Unit {0}))
decided_call panic = panic
decided_call (ret rs) = decided rs

-- `copy` into a [32]byte.
abbrev pub to_bytes32 : Option Slice → Bytes
to_bytes32 s = take 32 (bytes_of s ++ replicate 32 0)

abbrev pub is_nil : Option Slice → Bool
is_nil none = true
is_nil (some s) = false

module _ (S : Services) (E : Env) (admin_ips : List String) (procs : ℕ) where
  abbrev pub State : Type 0
  State = S.World × E.Db

  -- A call that leaves the database as it is.
  abbrev pub with_world : {A : Type 0} → Run S.World A → Run State A
  with_world m (w, d) = let (r, w') = m w in (r, (w', d))

  abbrev pub rules_data : S.Wallet → S.Account → AnyData → RulesData
  rules_data wallet account payload = record {
    wallet_name = S.wallet_name wallet;
    account_name = S.account_name account;
    pub_key = S.public_key account;
    payload = payload;
  }

  -- One request is put to the rules.
  unfoldable pub confirm : Option Credentials → Action → RulesData → Run State (Step (Unit {0}))
  confirm credentials action rd (w, d) =
      let (rs, d', locks) = run_rules E admin_ips procs credentials action (some rd ∷ []) d in
      (decided_call rs, (w, d'))

  unfoldable pub signed_root : S.Account → S.World → Go.Result Bytes → Signed
  signed_root account w (err e) = without result_failed
  signed_root account w (ok root) = elim (sign_root S account root w) [
    | err e ↦ without result_failed
    | ok signature ↦ (result_succeeded, some signature)
  ]

  -- The signing root and the signature, once the rules have approved.
  unfoldable pub sign_data_root : Go.Result Bytes → Option Slice → S.Account → Run State Signed
  unfolding signed_root
  sign_data_root (err e) domain account s = pure (without result_failed) s
  sign_data_root (ok data_root) domain account (w, d) =
      pure (signed_root account w (generate_signing_root S data_root (bytes_of domain))) (w, d)

  unfoldable pub after_rules :
      Go.Result Bytes → Option Slice → S.Account → Step (Unit {0}) → Run State Signed
  after_rules data_root domain account (refuse r) = pure (without r)
  after_rules data_root domain account (go_on u) = sign_data_root data_root domain account

  unfoldable pub after_pre_check :
      Option Credentials
      → Action
      → AnyData
      → Go.Result Bytes
      → Option Slice
      → Step (S.Wallet × S.Account)
      → Run State Signed
  unfolding after_rules
  after_pre_check credentials action payload data_root domain (refuse r) = pure (without r)
  after_pre_check credentials action payload data_root domain (go_on (wallet, account)) =
      confirm credentials action (rules_data wallet account payload) >>= λ r.
      after_rules data_root domain account r

  -- What the three functions do with a request whose fields are all there.
  unfoldable pub sign_checked :
      Option Credentials
      → String
      → Option Bytes
      → Action
      → AnyData
      → Go.Result Bytes
      → Option Slice
      → Run State Signed
  unfolding after_pre_check
  sign_checked credentials name pub_key action payload data_root domain =
      with_world (pre_check S credentials name pub_key action) >>= λ r.
      after_pre_check credentials action payload data_root domain r

  unfoldable pub sign_generic :
      Option Credentials → String → Option Bytes → Option SignData → Run State Signed
  sign_generic none name pub_key request = pure (without result_failed)
  sign_generic (some credentials) name pub_key none = pure (without result_denied)
  sign_generic (some credentials) name pub_key (some request) =
      if is_nil request.payload
      then pure (without result_denied)
      else if is_nil request.domain
      then pure (without result_denied)
      else sign_checked (some credentials) name pub_key sign (sign_data (some request))
          (ok (bytes_of request.payload)) request.domain

  -- The spec version of an attestation.
  abbrev pub attestation_of_request :
      SignBeaconAttestationData → Checkpoint → Checkpoint → AttestationData
  attestation_of_request request source target = record {
    slot = request.slot;
    index = request.committee_index;
    beacon_block_root = to_bytes32 request.beacon_block_root;
    source_epoch = source.epoch;
    source_root = to_bytes32 source.root;
    target_epoch = target.epoch;
    target_root = to_bytes32 target.root;
  }

  -- The checks of the two checkpoints, in order, and then the signing.
  unfoldable pub sign_checkpoints :
      Credentials
      → String
      → Option Bytes
      → SignBeaconAttestationData
      → Option Checkpoint
      → Option Checkpoint
      → Run State Signed
  sign_checkpoints credentials name pub_key request none target = pure (without result_denied)
  sign_checkpoints credentials name pub_key request (some source) none =
      pure (without result_denied)
  sign_checkpoints credentials name pub_key request (some source) (some target) =
      if is_nil source.root || is_nil target.root
      then pure (without result_denied)
      else sign_checked (some credentials) name pub_key sign_beacon_attestation
          (attestation_data (some request))
          (S.attestation_root (attestation_of_request request source target)) request.domain

  unfoldable pub sign_attestation :
      Option Credentials
      → String
      → Option Bytes
      → Option SignBeaconAttestationData
      → Run State Signed
  sign_attestation none name pub_key request = pure (without result_failed)
  sign_attestation (some credentials) name pub_key none = pure (without result_denied)
  sign_attestation (some credentials) name pub_key (some request) =
      if is_nil request.beacon_block_root
      then pure (without result_denied)
      else if is_nil request.domain
      then pure (without result_denied)
      else sign_checkpoints credentials name pub_key request request.source request.target

  abbrev pub header_of_request : SignBeaconProposalData → BeaconBlockHeader
  header_of_request request = record {
    slot = request.slot;
    proposer_index = request.proposer_index;
    parent_root = to_bytes32 request.parent_root;
    state_root = to_bytes32 request.state_root;
    body_root = to_bytes32 request.body_root;
  }

  unfoldable pub sign_proposal :
      Option Credentials → String → Option Bytes → Option SignBeaconProposalData → Run State Signed
  sign_proposal none name pub_key request = pure (without result_failed)
  sign_proposal (some credentials) name pub_key none = pure (without result_denied)
  sign_proposal (some credentials) name pub_key (some request) =
      if is_nil request.domain
        || is_nil request.parent_root
        || is_nil request.body_root
        || is_nil request.state_root
      then pure (without result_denied)
      else sign_checked (some credentials) name pub_key sign_beacon_proposal
          (proposal_data (some request)) (S.header_root (header_of_request request)) request.domain
