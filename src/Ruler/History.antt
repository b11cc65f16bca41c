-- ===== src/Ruler/History.antt =====
-- Sequences of calls of RunRules, and what they approve.
use dirk.Words.{pow63}
use dirk.Rules.Env.{Env}
use dirk.Prelude.{
  if◌then◌else◌, Bool, true, false, Option, List, All, String, ℕ, none, some, [], ◌<◌, ◌∷◌, ◌++◌,
}
use dirk.Rules.Types
use dirk.Rules.Types.{approved, SignBeaconProposalData, SignBeaconAttestationData}
use dirk.Ruler.{
  is_attestation, sign_beacon_proposal, proposal_data, AnyData, Action, RulesData, Credentials,
  run_rules, req_of,
}
use dirk.Go.{ret, panic, Bytes, Go}
use dirk.Rules.Attestation.Watermark.{Attested}
use dirk.Rules.Attestations.Safety.{IsSmall, approval}
use dirk.Rules.Proposal.Watermark.{Proposed}

pub record Call : Type 0 where
  pub credentials : Option Credentials
  pub action : Action
  pub entries : List (Option RulesData)

abbrev pub attestation_approval :
    Bytes → Option SignBeaconAttestationData → Types.Result → List Attested
attestation_approval k none r = []
attestation_approval k (some req) r = approval k req r

-- The attestations of the entries with an APPROVED result.
unfoldable pub attestation_approvals : List (Option RulesData) → List Types.Result → List Attested
attestation_approvals (some rd ∷ entries) (r ∷ rs) =
    attestation_approval rd.pub_key (req_of rd.payload) r ++ attestation_approvals entries rs
attestation_approvals (none ∷ entries) (r ∷ rs) = attestation_approvals entries rs
attestation_approvals _ _ = []

abbrev pub results_attested : List (Option RulesData) → Go (List Types.Result) → List Attested
results_attested entries (ret rs) = attestation_approvals entries rs
results_attested entries panic = []

-- What a call with the attestation action approves.
abbrev pub attested_by : Action → List (Option RulesData) → Go (List Types.Result) → List Attested
attested_by action entries out = if is_attestation action then results_attested entries out else []

abbrev pub is_proposal : Action → Bool
is_proposal sign_beacon_proposal = true
is_proposal _ = false

abbrev pub proposal_of : AnyData → Option SignBeaconProposalData
proposal_of (proposal_data req) = req
proposal_of _ = none

abbrev pub proposal_approval : Bytes → Option SignBeaconProposalData → Types.Result → List Proposed
proposal_approval k (some req) approved = record { pub_key = k; slot = req.slot } ∷ []
proposal_approval k _ _ = []

-- The proposals of the entries with an APPROVED result.
unfoldable pub proposal_approvals : List (Option RulesData) → List Types.Result → List Proposed
proposal_approvals (some rd ∷ entries) (r ∷ rs) =
    proposal_approval rd.pub_key (proposal_of rd.payload) r ++ proposal_approvals entries rs
proposal_approvals (none ∷ entries) (r ∷ rs) = proposal_approvals entries rs
proposal_approvals _ _ = []

abbrev pub results_proposed : List (Option RulesData) → Go (List Types.Result) → List Proposed
results_proposed entries (ret rs) = proposal_approvals entries rs
results_proposed entries panic = []

-- What a call with the proposal action approves.
abbrev pub proposed_by : Action → List (Option RulesData) → Go (List Types.Result) → List Proposed
proposed_by action entries out = if is_proposal action then results_proposed entries out else []

-- Epochs and slots below 2^63.
abbrev pub IsSmallAttestation : Option SignBeaconAttestationData → Type 0
IsSmallAttestation none = Unit
IsSmallAttestation (some req) = IsSmall req

abbrev pub IsSmallProposal : Option SignBeaconProposalData → Type 0
IsSmallProposal none = Unit
IsSmallProposal (some req) = req.slot < pow63

abbrev pub IsSmallEntry : Option RulesData → Type 0
IsSmallEntry none = Unit
IsSmallEntry (some rd) =
    IsSmallAttestation (req_of rd.payload) × IsSmallProposal (proposal_of rd.payload)

abbrev pub IsSmallCall : Call → Type 0
IsSmallCall c = All IsSmallEntry c.entries

module _ (E : Env) (admin_ips : List String) (procs : ℕ) where
  -- A call, with the attestations or the proposals that it approves.
  abbrev pub attestation_step : Call → E.Db → List Attested × E.Db
  attestation_step c d =
      let out = run_rules E admin_ips procs c.credentials c.action c.entries d in
      (attested_by c.action c.entries out.0, out.1)

  abbrev pub proposal_step : Call → E.Db → List Proposed × E.Db
  proposal_step c d =
      let out = run_rules E admin_ips procs c.credentials c.action c.entries d in
      (proposed_by c.action c.entries out.0, out.1)
