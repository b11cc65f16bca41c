-- ===== src/Ruler/Multiple.antt =====
-- Several attestations in one call: a safe step.
use dirk.History.{nothing-SafeStep}
use dirk.Rules.Types
use dirk.Go.{Bytes, Go, ret, panic}
use dirk.Rules.Attestation.Watermark.{Covered, Later}
use dirk.Rules.Types.{SignBeaconAttestationData}
use dirk.Rules.Env.{Env, Lawful}
use dirk.Prelude.{
  ℕ, suc, ◌≡◌, ◌≢◌, inl, inr, refl, ap, subst, Option, none, some, List, [], ◌∷◌, ◌++◌, map, arith,
  length, All, Ordered, replicate, Bool-cases, Option-cases, ◌==◌, String,
}
use dirk.Rules.Attestations.{
  index_where, is_incomplete, is_none, somes, failed_at, run_attestations,
  on_sign_beacon_attestations,
}
use dirk.Rules.Attestations.Safety.{approvals, IsSmall, approval}
use dirk.Rules.Attestations.Call
use dirk.Rules.Attestations.Call.{run_attestations-SafeStep}
use dirk.Ruler.{
  Credentials, RulesData, to_bytes48, metadata_of, req_of, has_failed, prepare_extents,
  run_rules_for_multiple_beacon_attestations, failed,
}
use dirk.Ruler.History.{attestation_approvals, IsSmallEntry, IsSmallAttestation}
use dirk.Ruler.Approvals.{
  approvals-none, failed_at-NotApproved, replicate_failed-NotApproved, prepare_NotApproved,
  metadata-keys, index_where-cons, NotApproved,
}
use dirk.Ruler.Apart.{raw_keys-Ordered}
use dirk.Ruler.Entries.{Safe, go_approvals}
use dirk.Scatter.{extents}

abbrev requests : List RulesData → List (Option SignBeaconAttestationData)
requests rds = map (λ rd. req_of (RulesData.payload rd)) rds

abbrev raw_keys : List RulesData → List Bytes
raw_keys rds = map (λ rd. RulesData.pub_key rd) rds

requests-cons :
    (rd : RulesData) (rds : List RulesData)
    → index_where is_incomplete (requests (rd ∷ rds)) ≡ none
    → (req : SignBeaconAttestationData) × (req_of rd.payload ≡ some req)
      × (index_where is_incomplete (requests rds) ≡ none)
requests-cons rd rds h =
    let (now, rest) = index_where-cons is_incomplete (req_of rd.payload) (requests rds) h in
    elim (Option-cases (req_of rd.payload)) [
      | inl e ↦ absurd (ground arith)
      | inr (req, e) ↦ (req, e, rest)
    ]

-- Once there are no incomplete requests, what the rule approves is what its caller counts.
same_approvals :
    (rds : List RulesData) (rs : List Types.Result)
    → index_where is_incomplete (requests rds) ≡ none
    → approvals (raw_keys rds) (somes (requests rds)) rs ≡ attestation_approvals (map some rds) rs
unfolding approvals attestation_approvals
same_approvals [] rs h = refl
same_approvals (rd ∷ rds) [] h = let (req, e, rest) = requests-cons rd rds h in rw e refl
same_approvals (rd ∷ rds) (r ∷ rs) h =
    let (req, e, rest) = requests-cons rd rds h in
    rw e (ap (λ l. approval rd.pub_key req r ++ l) (same_approvals rds rs rest))

length-requests :
    (rds : List RulesData)
    → index_where is_incomplete (requests rds) ≡ none
    → length (raw_keys rds) ≡ length (somes (requests rds))
length-requests [] h = refl
length-requests (rd ∷ rds) h =
    let (req, e, rest) = requests-cons rd rds h in rw e (ap suc (length-requests rds rest))

requests-IsSmall :
    (rds : List RulesData)
    → index_where is_incomplete (requests rds) ≡ none
    → All IsSmallEntry (map some rds)
    → All IsSmall (somes (requests rds))
requests-IsSmall [] h small = tt
requests-IsSmall (rd ∷ rds) h small =
    let (req, e, rest) = requests-cons rd rds h in
    rw e (subst IsSmallAttestation e small.0.0, requests-IsSmall rds rest small.1)

module _ (E : Env) (L : Lawful E) where
  pub none_approved :
      (rds : List RulesData) (rs : List Types.Result) (d : E.Db)
      → All NotApproved rs
      → Safe E L d (go_approvals rds (ret rs)) d
  none_approved rds rs d h =
      nothing-SafeStep (Covered E) Later d d (attestation_approvals (map some rds) rs)
        (approvals-none (map some rds) rs h) (λ x c. c)

  same_go_approvals :
      (rds : List RulesData) (g : Go (List Types.Result))
      → index_where is_incomplete (requests rds) ≡ none
      → Call.go_approvals (raw_keys rds) (somes (requests rds)) g ≡ go_approvals rds g
  same_go_approvals rds panic h = refl
  same_go_approvals rds (ret rs) h = same_approvals rds rs h

  complete-Safe :
      (rds : List RulesData) (d : E.Db)
      → index_where is_incomplete (requests rds) ≡ none
      → All IsSmallEntry (map some rds)
      → Ordered (λ a b. a ≢ b) (map (λ rd. to_bytes48 (RulesData.pub_key rd)) rds)
      → let out = run_attestations E (raw_keys rds) (somes (requests rds)) d in
        Safe E L d (go_approvals rds out.0) out.1
  complete-Safe rds d h small apart =
      let out : Go (List Types.Result) × E.Db =
        run_attestations E (raw_keys rds) (somes (requests rds)) d in
      subst (λ xs. Safe E L d xs out.1) (same_go_approvals rds out.0 h)
        (run_attestations-SafeStep E L d (raw_keys rds) (somes (requests rds))
          (length-requests rds h) (requests-IsSmall rds h small) (raw_keys-Ordered rds apart))

  batch-Safe :
      (c : Option Credentials) (rds : List RulesData) (d : E.Db)
      → All IsSmallEntry (map some rds)
      → Ordered (λ a b. a ≢ b) (map (λ rd. to_bytes48 (RulesData.pub_key rd)) rds)
      → let out = on_sign_beacon_attestations E (map (metadata_of c) rds) (requests rds) d in
        Safe E L d (go_approvals rds out.0) out.1
  unfolding on_sign_beacon_attestations
  batch-Safe c rds d small apart =
      elim (Bool-cases (length (requests rds) == length (map (metadata_of c) rds))) [
        | inr e ↦ rw e (
            none_approved rds (replicate (length (requests rds)) failed) d
              (replicate_failed-NotApproved (length (requests rds))))
        | inl e ↦ rw e (elim (Option-cases (index_where is_none (map (metadata_of c) rds))) [
          | inr (i, f) ↦ rw f (
              none_approved rds (failed_at (length (requests rds)) i) d
                (failed_at-NotApproved (length (requests rds)) i))
          | inl f ↦ rw f (elim (Option-cases (index_where is_incomplete (requests rds))) [
            | inr (i, g) ↦ rw g (
                none_approved rds (failed_at (length (requests rds)) i) d
                  (failed_at-NotApproved (length (requests rds)) i))
            | inl g ↦ rw (g, metadata-keys c rds f) (complete-Safe rds d g small apart)
          ])
        ])
      ]

module _ (E : Env) (L : Lawful E) (admin_ips : List String) (procs : ℕ) where
  pub multiple-Safe :
      (c : Option Credentials) (rds : List RulesData) (d : E.Db)
      → All IsSmallEntry (map some rds)
      → Ordered (λ a b. a ≢ b) (map (λ rd. to_bytes48 (RulesData.pub_key rd)) rds)
      → let out = run_rules_for_multiple_beacon_attestations E admin_ips procs c rds d in
        Safe E L d (go_approvals rds out.0) out.1
  unfolding run_rules_for_multiple_beacon_attestations
  multiple-Safe c rds d small apart =
      let rs : List Types.Result = prepare_extents c rds (extents procs (length rds)) in
      elim (Bool-cases (has_failed rs)) [
        | inl e ↦
            rw e
              (none_approved E L rds rs d (prepare_NotApproved c rds (extents procs (length rds))))
        | inr e ↦ rw e (batch-Safe E L c rds d small apart)
      ]
