-- ===== src/Ruler/Proposals.antt =====
-- Sequences of calls of the single rules, and the proposals that they approve.
use dirk.Rules.Types
use dirk.Go.{panic, Bytes, Go, ret}
use dirk.Words.{int64}
use dirk.Rules.Env.{found, value, Env, Lawful}
use dirk.Prelude.{
  ◌≡◌, ◌≢◌, inl, inr, refl, sym, ◌∙◌, ap, subst, Option, none, some, List, [], All, Ordered,
  bytes_equal, bytes_equal_iff, Bool-cases, if◌then◌else◌,
}
use dirk.Rules.Types.{
  ReqMetadata, SignBeaconProposalData, SignBeaconAttestationData, approved, unknown, denied, failed,
}
use dirk.Rules.Attestation.{attestation_key, on_sign_beacon_attestation}
use dirk.Rules.Attestation.Outcome.{on_sign_beacon_attestation_outcome, on_sign_nil_unchanged}
use dirk.Rules.State.{encode_attestation}
use dirk.Rules.Proposal.{proposal_key, on_sign_beacon_proposal}
use dirk.Rules.Proposal.Outcome.{on_sign_beacon_proposal_outcome}
use dirk.Rules.Proposal.Watermark.{Proposed, Later, Covered, CoveredAt, Approved-SafeStep}
use dirk.Rules.Storage.ReadBack.{Keeps}
use dirk.Ruler.Loop.{proposal_key-ne}
use dirk.Ruler.History.{proposal_approval, IsSmallProposal}
use dirk.History.{SafeStep, nothing-SafeStep, run_all, run_all-Ordered}

pub data RuleCall : Type 0 where
  proposal_rule : ReqMetadata → Option SignBeaconProposalData → RuleCall
  attestation_rule : ReqMetadata → Option SignBeaconAttestationData → RuleCall

abbrev pub IsSmallRule : RuleCall → Type 0
IsSmallRule (proposal_rule m req) = IsSmallProposal req
IsSmallRule (attestation_rule m req) = Unit

abbrev proposed : Bytes → Option SignBeaconProposalData → Go Types.Result → List Proposed
proposed key req (ret r) = proposal_approval key req r
proposed key req panic = []

module _ (E : Env) where
  -- A call of a rule, with the proposal that it approves, if it approves one.
  abbrev pub rule_step : RuleCall → E.Db → List Proposed × E.Db
  rule_step (proposal_rule m req) d =
      let out = on_sign_beacon_proposal E (some m) req d in (proposed m.pub_key req out.0, out.1)
  rule_step (attestation_rule m req) d =
      let out = on_sign_beacon_attestation E (some m) req d in ([], out.1)

module _ (E : Env) (L : Lawful E) where
  abbrev ProposalSafe : E.Db → List Proposed → E.Db → Type 0
  ProposalSafe d xs d' = SafeStep (Covered E) Later d xs d'

  kept : (d d' : E.Db) → Keeps E d d' → (x : Proposed) → Covered E d x → Covered E d' x
  kept d d' k x c = subst (λ g. CoveredAt E g x.slot) (sym (k (proposal_key x.pub_key))) c

  not_approved :
      (key : Bytes) (req : SignBeaconProposalData) (g : Go Types.Result)
      → g ≢ ret approved
      → proposed key (some req) g ≡ []
  not_approved key req (ret approved) h = absurd (h refl)
  not_approved key req (ret unknown) h = refl
  not_approved key req (ret denied) h = refl
  not_approved key req (ret failed) h = refl
  not_approved key req panic h = refl

  proposal-ProposalSafe :
      (m : ReqMetadata) (req : Option SignBeaconProposalData) (d : E.Db)
      → IsSmallProposal req
      → let out = on_sign_beacon_proposal E (some m) req d in
        ProposalSafe d (proposed m.pub_key req out.0) out.1
  proposal-ProposalSafe m none d small =
      unfold on_sign_beacon_proposal in nothing-SafeStep (Covered E) Later d d [] refl (λ x c. c)
  proposal-ProposalSafe m (some req) d small =
      let out : Go Types.Result × E.Db = on_sign_beacon_proposal E (some m) (some req) d in
      elim (on_sign_beacon_proposal_outcome E L m req d) [
        | inl (done, a) ↦
            subst (λ g. ProposalSafe d (proposed m.pub_key (some req) g) out.1) (sym done)
              (Approved-SafeStep E m.pub_key req.slot d out.1 a small)
        | inr (n, keeps) ↦
            nothing-SafeStep (Covered E) Later d out.1 (proposed m.pub_key (some req) out.0)
              (not_approved m.pub_key req out.0 n) (kept d out.1 keeps)
      ]

  -- An attestation's call leaves the proposals' keys.
  attestation_preserves :
      (m : ReqMetadata) (req : Option SignBeaconAttestationData) (d : E.Db) (x : Proposed)
      → Covered E d x
      → Covered E (on_sign_beacon_attestation E (some m) req d).1 x
  attestation_preserves m none d x c =
      subst (λ d'. Covered E d' x) (sym (on_sign_nil_unchanged E m d)) c
  attestation_preserves m (some req) d x c = elim (on_sign_beacon_attestation_outcome E L m req d) [
    | inr (n, keeps) ↦ kept d (on_sign_beacon_attestation E (some m) (some req) d).1 keeps x c
    | inl (y, a) ↦
        elim (Bool-cases (bytes_equal (attestation_key m.pub_key) (proposal_key x.pub_key))) [
          | inl e ↦ absurd (
              proposal_key-ne x.pub_key m.pub_key
                (sym ((bytes_equal_iff (attestation_key m.pub_key) (proposal_key x.pub_key)).0 e)))
          | inr e ↦
              subst (λ g. CoveredAt E g x.slot)
                (sym (
                  a.writes (proposal_key x.pub_key)
                  ∙ ap
                      (λ b.
                        if b
                        then found (
                            value (
                              encode_attestation (
                                some (record {
                                  source_epoch = int64 a.source.epoch;
                                  target_epoch = int64 a.target.epoch;
                                }))))
                        else E.get d (proposal_key x.pub_key))
                      e))
                c
        ]
  ]

  rule_step-ProposalSafe :
      (call : RuleCall)
      → IsSmallRule call
      → (d : E.Db) → let out = rule_step E call d in ProposalSafe d out.0 out.1
  rule_step-ProposalSafe (proposal_rule m req) small d = proposal-ProposalSafe m req d small
  rule_step-ProposalSafe (attestation_rule m req) small d =
      nothing-SafeStep (Covered E) Later d (on_sign_beacon_attestation E (some m) req d).1 [] refl
        (λ x c. attestation_preserves m req d x c)

  -- Whatever calls of OnSignBeaconProposal and OnSignBeaconAttestation are made one after the other,
  -- each with metadata that is not nil, and from any database: if the slots of the proposals are below 2^63,
  -- the proposals that are approved for one public key have strictly increasing slots. The
  -- database is any that meets the laws the rules rely on.
  pub proposals-Ordered :
      (calls : List RuleCall) (d : E.Db)
      → All IsSmallRule calls
      → Ordered Later (run_all (rule_step E) calls d).0
  proposals-Ordered calls d small =
      run_all-Ordered (Covered E) Later (rule_step E) IsSmallRule rule_step-ProposalSafe calls d
        small
