-- ===== src/Examples/Sequences.antt =====
-- Sequences of rule calls, the locks of a call and the extents of workers, at concrete inputs.
use dirk.Go.{Slice}
use dirk.Prelude.{ℕ, refl, Option, none, some, List, [], ◌∷◌, arith, All, Ordered, length}
use dirk.Rules.Types.{SignBeaconProposalData}
use dirk.Examples.Memory.{env, lawful}
use dirk.Examples.Attestations.{attestation, metadata}
use dirk.Rules.Proposal.Watermark.{Later}
use dirk.Ruler.{RulesData, sign_beacon_attestation, attestation_data, run_rules}
use dirk.Scatter.{extents}
use dirk.Scatter.Cover.{parts, extents-cover}
use dirk.Prelude.{◌≡◌}
use dirk.Ruler.Locks.{LockOutcome, locked_keys, run_rules_locks}
use dirk.Ruler.Proposals.{
  RuleCall, proposal_rule, attestation_rule, rule_step, proposals-Ordered, IsSmallRule,
}
use dirk.History.{run_all}
use dirk.Rules.Attestations.{somes}

abbrev root : Option Slice
root = some (record { bytes = 5 ∷ []; spare = [] })

abbrev proposal : ℕ → SignBeaconProposalData
proposal slot = record {
  domain = some (record { bytes = 0 ∷ 0 ∷ 0 ∷ 0 ∷ []; spare = [] });
  slot = slot;
  proposer_index = 1;
  parent_root = root;
  state_root = root;
  body_root = root;
}

abbrev calls : List RuleCall
calls =
    proposal_rule metadata (some (proposal 5))
    ∷ attestation_rule metadata (some (attestation 2 3))
    ∷ proposal_rule metadata (some (proposal 6))
    ∷ []

calls-IsSmallRule : All IsSmallRule calls
calls-IsSmallRule = (ground arith, (tt, (ground arith, tt)))

proposals-Ordered_example : Ordered Later (run_all (rule_step env) calls []).0
proposals-Ordered_example = proposals-Ordered env lawful calls [] calls-IsSmallRule

abbrev entries : List (Option RulesData)
entries =
    some (record {
      wallet_name = "Wallet 1";
      account_name = "Account 1";
      pub_key = 7 ∷ [];
      payload = attestation_data (some (attestation 2 3));
    })
    ∷ []

run_rules_locks_example :
    let out = run_rules env [] 2 none sign_beacon_attestation entries [] in
    LockOutcome (locked_keys (somes entries)) [] out.1 out.2
run_rules_locks_example = run_rules_locks env [] 2 none sign_beacon_attestation entries [] refl

abbrev input : List ℕ
input = 10 ∷ 11 ∷ 12 ∷ 13 ∷ 14 ∷ []

extents-cover_example : parts input (extents 2 (length input)) ≡ input
extents-cover_example = extents-cover 2 input
