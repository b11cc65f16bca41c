-- ===== src/Examples/Witnesses.antt =====
-- The properties at concrete inputs.
use dirk.Go
use dirk.Go.{ok, panic, Bytes, Slice, ret}
use dirk.Prelude.{
  ◌↔◌, ℕ, ◌+◌, ◌≡◌, ◌≢◌, ◌⊎◌, refl, Bool, true, ◌&&◌, ◌||◌, Option, none, some, List, [], ◌∷◌,
  arith, length, Ordered, replicate, String, str_eq, ◌^◌,
}
use dirk.Rules.Types.{
  ReqMetadata, SignData, SignBeaconAttestationData, SignBeaconProposalData, approved,
}
use dirk.Examples.Memory.{env, lawful}
use dirk.Examples.Attestations.{metadata}
use dirk.Signer.Services.{Services}
use dirk.Signer.History.{AllSignAsked, SignCall, attestation_call, sign_step, signed-Ordered}
use dirk.Signer.Root.{SigningRoot, marshal_ssz, unmarshal_ssz, size_ssz}
use dirk.Signer.Root.RoundTrip.{unmarshal-marshal, empty}
use dirk.Ruler.{
  Credentials, RulesData, sign_beacon_attestation, attestation_data, first_clash, to_bytes48,
}
use dirk.Ruler.History.{Call, attestation_step}
use dirk.Ruler.Safety.{attestations-Ordered}
use dirk.Ruler.Apart.{first_clash-Ordered}
use dirk.History.{run_all, SafeStep}
use dirk.Rules.Attestations.{run_attestations}
use dirk.Rules.Attestations.Call
use dirk.Rules.Attestations.Call.{run_attestations-SafeStep}
use dirk.Rules.Attestations.Safety.{IsSmall}
use dirk.Rules.Attestation.Watermark.{Covered, Later}
use dirk.Rules.Attestation.{on_sign_beacon_attestation, check_epochs, no_attestation}
use dirk.Rules.Attestation.Outcome.{AttestOutcome, on_sign_beacon_attestation_outcome}
use dirk.Rules.Attestation.Wrap.{check_epochs-wraps}
use dirk.Rules.Proposal.{on_sign_beacon_proposal}
use dirk.Rules.Proposal.Outcome.{ProposeOutcome, on_sign_beacon_proposal_outcome}
use dirk.Rules.Storage.{batch_store}
use dirk.Rules.Storage.Batch.{batch_store_outcome, Failed, staged_entries}
use dirk.Rules.Env.{after_writes}
use dirk.Rules.Sign.{on_sign, is_admin_ip}
use dirk.Rules.Sign.Guards.{Permitted, on_sign-Permitted}
use dirk.Rules.State.{
  AttestationState, encode_attestation, decode_attestation, encode_proposal, decode_proposal,
}
use dirk.Rules.State.RoundTrip.{decode-encode_attestation, decode-encode_proposal}
use dirk.Checker.{AccessPath, check, check_paths, check_operations}
use dirk.Checker.FirstMatch.{Granted, check-Granted}
use dirk.Words.{pos, negsuc}
use dirk.Go.{first4}

abbrev services : Services
services = record {
  World = Unit;
  Wallet = Unit;
  Account = Bytes;
  wallet_name = λ w. "Wallet 1";
  account_name = λ a. "Account 1";
  public_key = λ a. a;
  fetch_account = λ name w. (ret (ok (some tt, some (7 ∷ 8 ∷ []))), w);
  fetch_account_by_key = λ key w. (ret (ok (some tt, some key)), w);
  check = λ c name action. true;
  is_unlocked = λ a w. some (ok true);
  unlock_account = λ wallet a w. (ret (ok true), w);
  sign = λ a root w. some (ok root);
  attestation_root = λ a. ok a.beacon_block_root;
  header_root = λ header. ok header.body_root;
  merkleize = λ chunks. [];
}

abbrev credentials : Credentials
credentials = record { request_id = "1"; client = "client1"; ip = "" }

abbrev root : Option Slice
root = some (record { bytes = 5 ∷ []; spare = [] })

abbrev domain : Option Slice
domain = some (record { bytes = 1 ∷ 0 ∷ 0 ∷ 0 ∷ replicate 28 0; spare = [] })

abbrev request : ℕ → ℕ → SignBeaconAttestationData
request s t = record {
  domain = domain;
  slot = 0;
  committee_index = 0;
  beacon_block_root = root;
  source = some (record { epoch = s; root = root });
  target = some (record { epoch = t; root = root });
}

request-IsSmall : IsSmall (request 2 3)
request-IsSmall = (ground arith, ground arith)

later-IsSmall : IsSmall (request 3 4)
later-IsSmall = (ground arith, ground arith)

abbrev requests : List SignCall
requests =
    attestation_call (some credentials) "" (some (7 ∷ [])) (some (request 2 3))
    ∷ attestation_call (some credentials) "Wallet 1/Account 1" none (some (request 3 4))
    ∷ []

signed-Ordered_example :
    Ordered Later (run_all (sign_step services env [] 2) requests (tt, [])).0
    × AllSignAsked services env lawful [] 2 requests (tt, [])
signed-Ordered_example =
    signed-Ordered services env lawful [] 2 requests (tt, []) (request-IsSmall, (later-IsSmall, tt))

abbrev entry : Bytes → SignBeaconAttestationData → Option RulesData
entry key req = some (record {
  wallet_name = "Wallet 1";
  account_name = "Account 1";
  pub_key = key;
  payload = attestation_data (some req);
})

abbrev calls : List Call
calls =
    record {
      credentials = some credentials;
      action = sign_beacon_attestation;
      entries = entry (7 ∷ []) (request 2 3) ∷ entry (8 ∷ []) (request 3 4) ∷ [];
    }
    ∷ []

attestations-Ordered_example : Ordered Later (run_all (attestation_step env [] 2) calls []).0
attestations-Ordered_example =
    attestations-Ordered env lawful [] 2 calls []
      (((request-IsSmall, tt), ((later-IsSmall, tt), tt)), tt)

run_attestations-SafeStep_example :
    let out = run_attestations env ((7 ∷ []) ∷ (8 ∷ []) ∷ []) (request 2 3 ∷ request 3 4 ∷ []) [] in
    SafeStep
      (Covered env)
      Later
      []
      (Call.go_approvals ((7 ∷ []) ∷ (8 ∷ []) ∷ []) (request 2 3 ∷ request 3 4 ∷ []) out.0)
      out.1
run_attestations-SafeStep_example =
    run_attestations-SafeStep env lawful [] ((7 ∷ []) ∷ (8 ∷ []) ∷ [])
      (request 2 3 ∷ request 3 4 ∷ []) refl (request-IsSmall, (later-IsSmall, tt))
      ((λ e. cc, tt), (tt, tt))

on_sign_beacon_attestation_outcome_example :
    AttestOutcome env metadata.pub_key
      (request 2 3)
      []
      (on_sign_beacon_attestation env (some metadata) (some (request 2 3)) [])
on_sign_beacon_attestation_outcome_example =
    on_sign_beacon_attestation_outcome env lawful metadata (request 2 3) []

abbrev proposal : SignBeaconProposalData
proposal = record {
  domain = some (record { bytes = 0 ∷ 0 ∷ 0 ∷ 0 ∷ []; spare = [] });
  slot = 5;
  proposer_index = 1;
  parent_root = root;
  state_root = root;
  body_root = root;
}

on_sign_beacon_proposal_outcome_example :
    ProposeOutcome env metadata.pub_key 5 []
      (on_sign_beacon_proposal env (some metadata) (some proposal) [])
on_sign_beacon_proposal_outcome_example =
    on_sign_beacon_proposal_outcome env lawful metadata proposal []

unmarshal-marshal_example :
    let s : SigningRoot = record { data_root = replicate 32 1; domain = replicate 32 2 } in
    (buf : Bytes) × (marshal_ssz s ≡ ok buf)
    × (length buf ≡ size_ssz s)
    × (unmarshal_ssz empty buf ≡ ok s)
unmarshal-marshal_example =
    unmarshal-marshal (record { data_root = replicate 32 1; domain = replicate 32 2 }) refl refl

wrapped_approved : (check_epochs (2 ^ 63) (2 ^ 63 + 1) no_attestation).0 ≡ approved
unfolding check_epochs
wrapped_approved = refl

check_epochs-wraps_example :
    (check_epochs 1 2 (check_epochs (2 ^ 63) (2 ^ 63 + 1) no_attestation).1).0 ≡ approved
check_epochs-wraps_example =
    check_epochs-wraps (2 ^ 63) (2 ^ 63 + 1) 1 2 no_attestation wrapped_approved (ground arith)
      (ground arith) (ground arith) (ground arith) (ground arith)

abbrev keys : List Bytes
keys = (7 ∷ []) ∷ (8 ∷ []) ∷ []

abbrev values : List Bytes
values = (1 ∷ []) ∷ (2 ∷ []) ∷ []

batch_store_outcome_example :
    (((batch_store env keys values []).0 ≡ ret none)
      × ((j : Bytes)
          → env.get (batch_store env keys values []).1 j
            ≡ after_writes (staged_entries keys values []) j (env.get [] j)))
    ⊎ (((e : String) × ((batch_store env keys values []).0 ≡ ret (some e)))
        × Failed env lawful (λ e. e.1 ≢ []) [] (batch_store env keys values []).1)
batch_store_outcome_example =
    batch_store_outcome env lawful (λ e. e.1 ≢ []) keys values [] (λ e. cc, (λ e. cc, tt))

abbrev exit : SignData
exit = record { domain = some (record { bytes = 4 ∷ 0 ∷ 0 ∷ 0 ∷ []; spare = [] }); payload = root }

abbrev admin : ReqMetadata
admin = record { account = "Account 1"; pub_key = 7 ∷ []; ip = "10.0.0.1"; client = "client1" }

exit_approved : on_sign env ("10.0.0.1" ∷ []) (some admin) (some exit) ≡ ret approved
unfolding on_sign first4 is_admin_ip
exit_approved = refl

on_sign-Permitted_example :
    (on_sign env ("10.0.0.1" ∷ []) (some admin) (some exit) ≡ ret approved) ↔ (
      (domain : Bytes) × (first4 exit.domain ≡ ret domain)
      × Permitted env ("10.0.0.1" ∷ []) domain "10.0.0.1")
on_sign-Permitted_example = on_sign-Permitted env ("10.0.0.1" ∷ []) admin exit

abbrev access : String → Option (List AccessPath)
access client = some (
    record { wallet = λ w. true; account = λ a. true; operations = "~Unlock account" ∷ "All" ∷ [] }
    ∷ [])

abbrev same_fold : String → String → Bool
same_fold a b = str_eq a b || (str_eq a "All" && str_eq b "all")

abbrev names : String → Go.Result (String × String)
names path = ok ("Wallet 1", "Account 1")

check_granted : check same_fold names access (some credentials) "Wallet 1/Account 1" "Sign" ≡ true
unfolding check check_paths check_operations
check_granted = refl

check-Granted_example : Granted same_fold names access credentials "Wallet 1/Account 1" "Sign"
check-Granted_example =
    check-Granted same_fold names access credentials "Wallet 1/Account 1" "Sign" check_granted

abbrev entry_of : Bytes → RulesData
entry_of key = record {
  wallet_name = "Wallet 1";
  account_name = "Account 1";
  pub_key = key;
  payload = attestation_data (some (request 2 3));
}

no_clash : first_clash [] (entry_of (7 ∷ []) ∷ entry_of (8 ∷ []) ∷ []) ≡ none
unfolding first_clash to_bytes48
no_clash = refl

first_clash-Ordered_example :
    Ordered (λ a b. a ≢ b) (to_bytes48 (7 ∷ []) ∷ to_bytes48 (8 ∷ []) ∷ [])
first_clash-Ordered_example =
    first_clash-Ordered [] (entry_of (7 ∷ []) ∷ entry_of (8 ∷ []) ∷ []) no_clash

abbrev stored_state : AttestationState
stored_state = record { source_epoch = pos 2; target_epoch = negsuc 0 }

decode-encode_attestation_example :
    decode_attestation env.gob_attestation (encode_attestation (some stored_state)) no_attestation
    ≡ (none, stored_state)
decode-encode_attestation_example =
    decode-encode_attestation env.gob_attestation stored_state no_attestation
      (ground arith, ground arith)

decode-encode_proposal_example :
    decode_proposal env.gob_proposal
      (encode_proposal (some (record { slot = pos 5 })))
      (record { slot = pos 0 })
    ≡ (none, record { slot = pos 5 })
decode-encode_proposal_example =
    decode-encode_proposal env.gob_proposal (record { slot = pos 5 }) (record { slot = pos 0 })
      (ground arith)
