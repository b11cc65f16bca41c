-- ===== src/Signer/Several.antt =====
-- services/signer/standard: multisign.go and signbeaconattestations.go. The workers of
-- `util.Scatter` are run one after the other, in the order of their entries.
use dirk.Rules.Env.{Env}
use dirk.Prelude.{
  ℕ, suc, ◌-◌, Bool, true, false, ◌||◌, Option, none, some, List, [], ◌∷◌, ◌++◌, map, length,
  replicate, set, if◌then◌else◌, String,
}
use dirk.Go
use dirk.Go.{ok, err, Go, Bytes, bytes_of, ret, panic, Slice, Run, pure, ◌>>=◌}
use dirk.Core
use dirk.Core.{result_unknown, result_succeeded, result_denied, result_failed}
use dirk.Rules.Types
use dirk.Rules.Types.{
  unknown, approved, denied, failed, SignData, SignBeaconAttestationData, Checkpoint,
}
use dirk.Ruler.{
  Credentials, Action, sign, sign_beacon_attestation, RulesData, AnyData, sign_data,
  attestation_data, run_rules,
}
use dirk.Signer.Services.{Services}
use dirk.Signer.Account.{Step, go_on, refuse, pre_check}
use dirk.Signer.Root.{generate_signing_root}
use dirk.Signer.Single.{
  Signed, without, is_nil, State, with_world, rules_data, signed_root, attestation_of_request,
}

-- A request whose fields are all there: what the rules are given, and what is signed.
pub record Datum : Type 0 where
  pub payload : AnyData
  pub root : Go.Result Bytes
  pub domain : Option Slice

-- The index of the first request with a field that is missing, or all of them.
pub data Checked (A : Type 0) : Type 0 where
  bad : ℕ → Checked A
  good : List A → Checked A

abbrev pub add_checked : {A : Type 0} → Option A → Checked A → Checked A
add_checked none later = bad 0
add_checked (some a) (bad i) = bad (suc i)
add_checked (some a) (good later) = good (a ∷ later)

-- The loop over the requests, with the check of one.
unfoldable pub check_data : {R A : Type 0} → (R → Option A) → List R → Checked A
check_data f [] = good []
check_data f (r ∷ rs) = add_checked (f r) (check_data f rs)

-- checkSignData
unfoldable pub check_sign_data : Option SignData → Option Datum
check_sign_data none = none
check_sign_data (some d) =
    if is_nil d.payload
    then none
    else if is_nil d.domain
    then none
    else some
        (record { payload = sign_data (some d); root = ok (bytes_of d.payload); domain = d.domain })

-- The name and the public key of each request: the shorter slice is filled with empty ones.
unfoldable pub entries_of : List String → List (Option Bytes) → List (String × Option Bytes)
entries_of [] [] = []
entries_of [] (k ∷ keys) = ("", k) ∷ entries_of [] keys
entries_of (n ∷ names) [] = (n, none) ∷ entries_of names []
entries_of (n ∷ names) (k ∷ keys) = (n, k) ∷ entries_of names keys

abbrev pub head? : {A : Type 0} → List A → Option A
head? [] = none
head? (x ∷ xs) = some x

abbrev pub tail : {A : Type 0} → List A → List A
tail [] = []
tail (x ∷ xs) = xs

-- The results and the signatures that are returned.
abbrev pub Signatures : Type 0
Signatures = List Core.Result × List (Option Bytes)

-- A result that ends the request before the rules.
abbrev is_bad : Core.Result → Bool
is_bad result_unknown = false
is_bad result_succeeded = false
is_bad result_denied = true
is_bad result_failed = true

abbrev pub any_bad : List Core.Result → Bool
any_bad [] = false
any_bad (r ∷ rs) = is_bad r || any_bad rs

abbrev pub cons_signed : Go Signed → Go (List Signed) → Go (List Signed)
cons_signed panic ys = panic
cons_signed (ret y) panic = panic
cons_signed (ret y) (ret ys) = ret (y ∷ ys)

abbrev pub results_and_signatures : Go (List Signed) → Go Signatures
results_and_signatures panic = panic
results_and_signatures (ret ys) = ret (map (λ y. y.0) ys, map (λ y. y.1) ys)

module _ (S : Services) where
  -- What is kept of a request's first checks: its result, or `accounts[i]` and `rulesData[i]`.
  pub data Entry : Type 0 where
    refused : Core.Result → Entry
    passed : S.Account → RulesData → Entry

  abbrev pub result_before : Entry → Core.Result
  result_before (refused r) = r
  result_before (passed account rd) = result_unknown

  abbrev pub rules_of : Entry → Option RulesData
  rules_of (refused r) = none
  rules_of (passed account rd) = some rd

module _ (S : Services) (E : Env) (admin_ips : List String) (procs : ℕ) where
  -- `results[i]` and `data[i]` panic if there are fewer data than entries.
  unfoldable pub entry_of : Option Datum → Step (S.Wallet × S.Account) → Go (Entry S)
  entry_of none r = panic
  entry_of (some datum) (refuse r) = ret (refused r)
  entry_of (some datum) (go_on (wallet, account)) =
      ret (passed account (rules_data S E admin_ips procs wallet account datum.payload))

  -- The worker's loop before the rules.
  unfoldable pub pre_check_all :
      Option Credentials
      → Action
      → List (String × Option Bytes)
      → List Datum
      → Run S.World (List (Entry S))
  pre_check_all credentials action [] data_left = pure []
  pre_check_all credentials action ((name, pub_key) ∷ entries) data_left =
      pre_check S credentials name pub_key action >>= λ r.
      (λ w. (entry_of (head? data_left) r, w)) >>= λ e.
      pre_check_all credentials action entries (tail data_left) >>= λ es. pure (e ∷ es)

  unfoldable pub sign_approved : S.World → S.Account → Datum → Signed
  sign_approved w account datum = elim datum.root [
    | err e ↦ without result_failed
    | ok root ↦
        signed_root S E admin_ips procs account w
          (generate_signing_root S root (bytes_of datum.domain))
  ]

  -- One round of the worker's loop after the rules; a nil account is no signer.
  unfoldable pub sign_one : S.World → Types.Result → Option (Entry S) → Option Datum → Go Signed
  sign_one w unknown entry datum = ret (without result_failed)
  sign_one w denied entry datum = ret (without result_denied)
  sign_one w failed entry datum = ret (without result_failed)
  sign_one w approved none datum = panic
  sign_one w approved (some e) none = panic
  sign_one w approved (some (refused r)) (some datum) = ret (without result_failed)
  sign_one w approved (some (passed account rd)) (some datum) = ret (sign_approved w account datum)

  -- The worker's loop after the rules. Entries with no rules result keep the result they have.
  unfoldable pub sign_entries :
      S.World
      → List Types.Result
      → List (Entry S)
      → List Datum
      → List Core.Result
      → Go (List Signed)
  sign_entries w [] entries data_left results = ret (map without results)
  sign_entries w (r ∷ rs) entries data_left [] = panic
  sign_entries w (r ∷ rs) entries data_left (x ∷ results) =
      cons_signed (sign_one w r (head? entries) (head? data_left))
        (sign_entries w rs (tail entries) (tail data_left) results)

  unfoldable pub after_rules_results :
      S.World
      → Go (List Types.Result)
      → List (Entry S)
      → List Datum
      → List Core.Result
      → Go Signatures
  after_rules_results w panic entries data_left results = panic
  after_rules_results w (ret rs) entries data_left results =
      results_and_signatures (sign_entries w rs entries data_left results)

  -- Once the first checks are made.
  unfoldable pub confirm_and_sign :
      Option Credentials
      → Action
      → List Datum
      → List (Entry S)
      → Run (State S E admin_ips procs) Signatures
  confirm_and_sign credentials action data_left entries (w, d) =
      let results =
        map (result_before S) entries
        ++ replicate (length data_left - length entries) result_unknown in
      if any_bad results
      then (ret (results, []), (w, d))
      else (let (rs, d', locks) =
            run_rules E admin_ips procs credentials action (map (rules_of S) entries) d in
          (after_rules_results w rs entries data_left results, (w, d')))

  -- What the two functions share, once the fields of all requests are there.
  unfoldable pub sign_all :
      Option Credentials
      → List String
      → List (Option Bytes)
      → Action
      → List Datum
      → Run (State S E admin_ips procs) Signatures
  sign_all credentials names keys action data_left =
      with_world S E admin_ips procs
        (pre_check_all credentials action (entries_of names keys) data_left)
      >>= λ entries. confirm_and_sign credentials action data_left entries

  unfoldable pub sign_several :
      {R : Type 0}
      → (R → Option Datum)
      → Action
      → Option Credentials
      → List String
      → List (Option Bytes)
      → List R
      → Run (State S E admin_ips procs) Signatures
  sign_several f action credentials names keys [] = pure (result_denied ∷ [], [])
  sign_several f action none names keys (r ∷ rs) =
      pure (replicate (length (r ∷ rs)) result_denied, [])
  sign_several f action (some c) names keys (r ∷ rs) = elim (check_data f (r ∷ rs)) [
    | bad i ↦ pure (set (replicate (length (r ∷ rs)) result_unknown) i result_denied, [])
    | good data_left ↦ sign_all (some c) names keys action data_left
  ]

  unfoldable pub multisign :
      Option Credentials
      → List String
      → List (Option Bytes)
      → List (Option SignData)
      → Run (State S E admin_ips procs) Signatures
  unfolding sign_several
  multisign = sign_several check_sign_data sign

  unfoldable pub check_checkpoints :
      SignBeaconAttestationData → Option Checkpoint → Option Checkpoint → Option Datum
  check_checkpoints d none target = none
  check_checkpoints d (some source) none = none
  check_checkpoints d (some source) (some target) =
      if is_nil source.root || is_nil target.root
      then none
      else some (record {
        payload = attestation_data (some d);
        root = S.attestation_root (attestation_of_request S E admin_ips procs d source target);
        domain = d.domain;
      })

  -- The body of the loop of checkAttestationsData, with the data that are signed.
  unfoldable pub check_attestation_data : Option SignBeaconAttestationData → Option Datum
  unfolding check_checkpoints
  check_attestation_data none = none
  check_attestation_data (some d) =
      if is_nil d.beacon_block_root
      then none
      else if is_nil d.domain
      then none
      else check_checkpoints d d.source d.target

  unfoldable pub sign_attestations :
      Option Credentials
      → List String
      → List (Option Bytes)
      → List (Option SignBeaconAttestationData)
      → Run (State S E admin_ips procs) Signatures
  unfolding sign_several
  sign_attestations = sign_several check_attestation_data sign_beacon_attestation
