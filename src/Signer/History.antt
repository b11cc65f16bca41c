-- ===== src/Signer/History.antt =====
-- Sequences of signing requests, and the attestations that they sign.
use dirk.Signer.SeveralCalls.{several-Safe, attests_several, SmallDatum}
use dirk.Signer.Several.{
  check_sign_data, multisign, check_attestation_data, Datum, check_data, sign_attestations,
  check_checkpoints,
}
use dirk.Go.{Bytes, Go, bytes_of}
use dirk.Rules.Env.{Env, Lawful}
use dirk.Prelude.{
  [], ◌∷◌, ◌≡◌, sym, subst, arith, ℕ, inl, inr, ◌||◌, Option, none, some, List, All, Ordered,
  Bool-cases, String, ◌∷◌, ◌≡◌,
}
use dirk.Go
use dirk.Core.{result_denied, result_failed}
use dirk.Rules.Types.{SignData, SignBeaconAttestationData, SignBeaconProposalData, Checkpoint}
use dirk.Rules.Attestation.Watermark.{Attested, Later}
use dirk.Ruler.{
  Credentials, Action, sign, sign_beacon_attestation, sign_beacon_proposal, AnyData, sign_data,
  attestation_data, proposal_data, req_of,
}
use dirk.Ruler.History.{IsSmallAttestation, IsSmallProposal, proposal_of}
use dirk.Signer.Services.{Services}
use dirk.Signer.Account.{pre_check}
use dirk.Signer.Single.{
  Signed, State, sign_generic, sign_attestation, sign_checkpoints, sign_proposal, is_nil,
  attestation_of_request, header_of_request,
}
use dirk.Signer.Safety.{
  attested_after, CoveredState, SafeState, sign_checked-Safe, without_signature,
}
use dirk.History.{run_all, run_all-Ordered}
use dirk.Core
use dirk.Go.{ret}
use dirk.Signer.Several.{entries_of}
use dirk.Signer.SeveralSignatures.{EachSigned}
use dirk.Signer.SignedRequests.{AttestationRequest, sign_attestation-Signed}
use dirk.Signer.GenericRequests.{GenericRequest, sign_generic-Signed}
use dirk.Signer.SignedEntries.{OneOfSeveral, sign_attestations-Signed}

pub data SignCall : Type 0 where
  generic_call : Option Credentials → String → Option Bytes → Option SignData → SignCall
  attestation_call :
      Option Credentials → String → Option Bytes → Option SignBeaconAttestationData → SignCall
  proposal_call :
      Option Credentials → String → Option Bytes → Option SignBeaconProposalData → SignCall
  multisign_call :
      Option Credentials → List String → List (Option Bytes) → List (Option SignData) → SignCall
  attestations_call :
      Option Credentials
      → List String
      → List (Option Bytes)
      → List (Option SignBeaconAttestationData)
      → SignCall

-- Epochs and slots below 2^63.
abbrev pub IsSmallSign : SignCall → Type 0
IsSmallSign (generic_call c name pub_key request) = Unit
IsSmallSign (attestation_call c name pub_key request) = IsSmallAttestation request
IsSmallSign (proposal_call c name pub_key request) = IsSmallProposal request
IsSmallSign (multisign_call c names keys requests) = Unit
IsSmallSign (attestations_call c names keys requests) = All IsSmallAttestation requests

module _ (S : Services) (E : Env) (admin_ips : List String) (procs : ℕ) where
  abbrev pub attests :
      Option Credentials
      → String
      → Option Bytes
      → Action
      → AnyData
      → State S E admin_ips procs
      → Go Signed × State S E admin_ips procs
      → List Attested × State S E admin_ips procs
  attests c name pub_key action payload s out =
      (attested_after S (pre_check S c name pub_key action s.0).0 action payload out.0, out.1)

  -- A request, with the attestation that it signs, if it signs one: it is under the public key of the account that the
  -- first checks find.
  abbrev pub sign_step :
      SignCall → State S E admin_ips procs → List Attested × State S E admin_ips procs
  sign_step (generic_call c name pub_key request) s =
      attests c name pub_key sign (sign_data request) s
        (sign_generic S E admin_ips procs c name pub_key request s)
  sign_step (attestation_call c name pub_key request) s =
      attests c name pub_key sign_beacon_attestation (attestation_data request) s
        (sign_attestation S E admin_ips procs c name pub_key request s)
  sign_step (proposal_call c name pub_key request) s =
      attests c name pub_key sign_beacon_proposal (proposal_data request) s
        (sign_proposal S E admin_ips procs c name pub_key request s)
  sign_step (multisign_call c names keys requests) s =
      let out = multisign S E admin_ips procs c names keys requests s in
      (
        attests_several check_sign_data sign S E admin_ips procs c names keys s.0
            (check_data check_sign_data requests) out.0,
        out.1,
      )
  sign_step (attestations_call c names keys requests) s =
      let out = sign_attestations S E admin_ips procs c names keys requests s in
      let check = check_attestation_data S E admin_ips procs in
      (
        attests_several check sign_beacon_attestation S E admin_ips procs c names keys s.0
            (check_data check requests) out.0,
        out.1,
      )

All-Unit : {A : Type 0} (xs : List A) → All (λ x. Unit {0}) xs
All-Unit [] = tt
All-Unit (x ∷ xs) = (tt, All-Unit xs)

module _ (S : Services) (E : Env) (L : Lawful E) (admin_ips : List String) (procs : ℕ) where
  generic-Safe :
      (c : Option Credentials) (name : String) (k : Option Bytes) (request : Option SignData)
      (w : S.World) (d : E.Db)
      → let out = sign_step S E admin_ips procs (generic_call c name k request) (w, d) in
        SafeState S E L admin_ips procs (w, d) out.0 out.1
  unfolding sign_generic
  generic-Safe none name k request w d =
      without_signature S E L admin_ips procs (pre_check S none name k sign w).0 sign
        (sign_data request) w d result_failed
  generic-Safe (some c) name k none w d =
      without_signature S E L admin_ips procs (pre_check S (some c) name k sign w).0 sign
        (sign_data none) w d result_denied
  generic-Safe (some c) name k (some r) w d =
      let nothing =
        without_signature S E L admin_ips procs (pre_check S (some c) name k sign w).0 sign
          (sign_data (some r)) w d result_denied in
      elim (Bool-cases (is_nil r.payload)) [
        | inl e ↦ rw e nothing
        | inr e ↦ elim (Bool-cases (is_nil r.domain)) [
          | inl f ↦ rw (e, f) nothing
          | inr f ↦
              rw (e, f)
                (sign_checked-Safe S E L admin_ips procs (some c) name k sign (sign_data (some r))
                  (Go.ok (bytes_of r.payload)) r.domain w d (tt, tt))
        ]
      ]

  checkpoints-Safe :
      (c : Credentials) (name : String) (k : Option Bytes) (r : SignBeaconAttestationData)
      (source target : Option Checkpoint) (w : S.World) (d : E.Db)
      → IsSmallAttestation (some r)
      → let out =
          attests S E admin_ips procs
            (some c)
            name
            k
            sign_beacon_attestation
            (attestation_data (some r))
            (w, d)
            (sign_checkpoints S E admin_ips procs c name k r source target (w, d)) in
        SafeState S E L admin_ips procs (w, d) out.0 out.1
  unfolding sign_checkpoints
  checkpoints-Safe c name k r none target w d small =
      without_signature S E L admin_ips procs
        (pre_check S (some c) name k sign_beacon_attestation w).0 sign_beacon_attestation
        (attestation_data (some r)) w d result_denied
  checkpoints-Safe c name k r (some source) none w d small =
      without_signature S E L admin_ips procs
        (pre_check S (some c) name k sign_beacon_attestation w).0 sign_beacon_attestation
        (attestation_data (some r)) w d result_denied
  checkpoints-Safe c name k r (some source) (some target) w d small =
      elim (Bool-cases (is_nil source.root || is_nil target.root)) [
        | inl e ↦ rw e (
            without_signature S E L admin_ips procs
              (pre_check S (some c) name k sign_beacon_attestation w).0 sign_beacon_attestation
              (attestation_data (some r)) w d result_denied)
        | inr e ↦ rw e (
            sign_checked-Safe S E L admin_ips procs (some c) name k sign_beacon_attestation
              (attestation_data (some r))
              (S.attestation_root (attestation_of_request S E admin_ips procs r source target))
              r.domain w d (small, tt))
      ]

  attestation-Safe :
      (c : Option Credentials) (name : String) (k : Option Bytes)
      (request : Option SignBeaconAttestationData) (w : S.World) (d : E.Db)
      → IsSmallAttestation request
      → let out = sign_step S E admin_ips procs (attestation_call c name k request) (w, d) in
        SafeState S E L admin_ips procs (w, d) out.0 out.1
  unfolding sign_attestation
  attestation-Safe none name k request w d small =
      without_signature S E L admin_ips procs (pre_check S none name k sign_beacon_attestation w).0
        sign_beacon_attestation (attestation_data request) w d result_failed
  attestation-Safe (some c) name k none w d small =
      without_signature S E L admin_ips procs
        (pre_check S (some c) name k sign_beacon_attestation w).0 sign_beacon_attestation
        (attestation_data none) w d result_denied
  attestation-Safe (some c) name k (some r) w d small =
      let nothing =
        without_signature S E L admin_ips procs
          (pre_check S (some c) name k sign_beacon_attestation w).0 sign_beacon_attestation
          (attestation_data (some r)) w d result_denied in
      elim (Bool-cases (is_nil r.beacon_block_root)) [
        | inl e ↦ rw e nothing
        | inr e ↦ elim (Bool-cases (is_nil r.domain)) [
          | inl f ↦ rw (e, f) nothing
          | inr f ↦ rw (e, f) (checkpoints-Safe c name k r r.source r.target w d small)
        ]
      ]

  proposal-Safe :
      (c : Option Credentials) (name : String) (k : Option Bytes)
      (request : Option SignBeaconProposalData) (w : S.World) (d : E.Db)
      → IsSmallProposal request
      → let out = sign_step S E admin_ips procs (proposal_call c name k request) (w, d) in
        SafeState S E L admin_ips procs (w, d) out.0 out.1
  unfolding sign_proposal
  proposal-Safe none name k request w d small =
      without_signature S E L admin_ips procs (pre_check S none name k sign_beacon_proposal w).0
        sign_beacon_proposal (proposal_data request) w d result_failed
  proposal-Safe (some c) name k none w d small =
      without_signature S E L admin_ips procs (pre_check S (some c) name k sign_beacon_proposal w).0
        sign_beacon_proposal (proposal_data none) w d result_denied
  proposal-Safe (some c) name k (some r) w d small =
      elim (Bool-cases
        (is_nil r.domain || is_nil r.parent_root || is_nil r.body_root || is_nil r.state_root)) [
          | inl e ↦ rw e (
              without_signature S E L admin_ips procs
                (pre_check S (some c) name k sign_beacon_proposal w).0 sign_beacon_proposal
                (proposal_data (some r)) w d result_denied)
          | inr e ↦ rw e (
              sign_checked-Safe S E L admin_ips procs (some c) name k sign_beacon_proposal
                (proposal_data (some r)) (S.header_root (header_of_request S E admin_ips procs r))
                r.domain w d (tt, small))
        ]

  sign_data_payload :
      (r : SignData) (dt : Datum)
      → check_sign_data (some r) ≡ some dt
      → dt.payload ≡ sign_data (some r)
  unfolding check_sign_data
  sign_data_payload r dt e = ground arith

  checkpoints_payload :
      (r : SignBeaconAttestationData) (source target : Option Checkpoint) (dt : Datum)
      → check_checkpoints S E admin_ips procs r source target ≡ some dt
      → dt.payload ≡ attestation_data (some r)
  unfolding check_checkpoints
  checkpoints_payload r none target dt e = cc
  checkpoints_payload r (some source) none dt e = cc
  checkpoints_payload r (some source) (some target) dt e = ground arith

  attestation_data_payload :
      (r : SignBeaconAttestationData) (dt : Datum)
      → check_attestation_data S E admin_ips procs (some r) ≡ some dt
      → dt.payload ≡ attestation_data (some r)
  unfolding check_attestation_data
  attestation_data_payload r dt e = ground (arith, checkpoints_payload r r.source r.target dt)

  sign_data-SmallDatum :
      (r : Option SignData) (dt : Datum) → check_sign_data r ≡ some dt → Unit {0} → SmallDatum dt
  unfolding check_sign_data
  sign_data-SmallDatum none dt e u = cc
  sign_data-SmallDatum (some r) dt e u =
      subst (λ p. IsSmallAttestation (req_of p) × IsSmallProposal (proposal_of p))
        (sym (sign_data_payload r dt e)) (tt, tt)

  attestation_data-SmallDatum :
      (r : Option SignBeaconAttestationData) (dt : Datum)
      → check_attestation_data S E admin_ips procs r ≡ some dt
      → IsSmallAttestation r
      → SmallDatum dt
  unfolding check_attestation_data
  attestation_data-SmallDatum none dt e small = cc
  attestation_data-SmallDatum (some r) dt e small =
      subst (λ p. IsSmallAttestation (req_of p) × IsSmallProposal (proposal_of p))
        (sym (attestation_data_payload r dt e)) (small, tt)

  sign_step-Safe :
      (call : SignCall)
      → IsSmallSign call
      → (s : State S E admin_ips procs)
      → let out = sign_step S E admin_ips procs call s in
        SafeState S E L admin_ips procs s out.0 out.1
  sign_step-Safe (generic_call c name k request) small (w, d) = generic-Safe c name k request w d
  sign_step-Safe (attestation_call c name k request) small (w, d) =
      attestation-Safe c name k request w d small
  sign_step-Safe (proposal_call c name k request) small (w, d) =
      proposal-Safe c name k request w d small
  sign_step-Safe (multisign_call c names keys requests) small (w, d) =
      unfold multisign in
      several-Safe check_sign_data sign S E L admin_ips procs (λ r. Unit) sign_data-SmallDatum c
        names keys requests w d (All-Unit requests)
  sign_step-Safe (attestations_call c names keys requests) small (w, d) =
      unfold sign_attestations in
      several-Safe (check_attestation_data S E admin_ips procs) sign_beacon_attestation S E L
        admin_ips procs IsSmallAttestation attestation_data-SmallDatum c names keys requests w d
        small

  -- What the signatures that a request returns for attestations, or one for generic data, are over.
  abbrev pub SignsAsked : SignCall → State S E admin_ips procs → Type 0
  SignsAsked (attestation_call c name k request) s =
      (q : Core.Result) (signature : Bytes)
      → (sign_attestation S E admin_ips procs c name k request s).0 ≡ ret (q, some signature)
      → AttestationRequest S c s.0 name k request signature
  SignsAsked (generic_call c name k request) s =
      (q : Core.Result) (signature : Bytes)
      → (sign_generic S E admin_ips procs c name k request s).0 ≡ ret (q, some signature)
      → GenericRequest S E admin_ips c s.0 name k request signature
  SignsAsked (attestations_call c names keys requests) s =
      (results : List Core.Result) (sigs : List (Option Bytes))
      → (sign_attestations S E admin_ips procs c names keys requests s).0 ≡ ret (results, sigs)
      → EachSigned (OneOfSeveral S E admin_ips procs c) (entries_of names keys) requests sigs
  SignsAsked _ s = Unit

  abbrev pub AllSignAsked : List SignCall → State S E admin_ips procs → Type 0
  AllSignAsked [] s = Unit
  AllSignAsked (call ∷ calls) s =
      SignsAsked call s × AllSignAsked calls (sign_step S E admin_ips procs call s).1

  signs_asked : (call : SignCall) (s : State S E admin_ips procs) → SignsAsked call s
  signs_asked (generic_call c name k request) (w, d) =
      λ q signature h. sign_generic-Signed S E admin_ips procs c name k request w d q signature h
  signs_asked (attestation_call c name k request) (w, d) = λ q signature h.
      sign_attestation-Signed S E admin_ips procs c name k request w d q signature h
  signs_asked (proposal_call c name k request) s = tt
  signs_asked (multisign_call c names keys requests) s = tt
  signs_asked (attestations_call c names keys requests) (w, d) = λ results sigs h.
      sign_attestations-Signed S E admin_ips procs c names keys requests w d results sigs h

  all_sign_asked : (calls : List SignCall) (s : State S E admin_ips procs) → AllSignAsked calls s
  all_sign_asked [] s = tt
  all_sign_asked (call ∷ calls) s =
      (signs_asked call s, all_sign_asked calls (sign_step S E admin_ips procs call s).1)

  pub signed-Ordered :
      (calls : List SignCall) (s : State S E admin_ips procs)
      → All IsSmallSign calls
      → Ordered Later (run_all (sign_step S E admin_ips procs) calls s).0 × AllSignAsked calls s
  signed-Ordered calls s small = (
    run_all-Ordered (CoveredState S E L admin_ips procs) Later (sign_step S E admin_ips procs)
        IsSmallSign sign_step-Safe calls s small,
    all_sign_asked calls s,
  )
