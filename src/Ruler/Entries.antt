-- ===== src/Ruler/Entries.antt =====
-- The entries that are run one after the other: each is a safe step.
use dirk.Prelude.{
  ℕ, ◌≡◌, ◌≢◌, inl, inr, refl, sym, subst, Option, none, some, List, [], map, Option-cases, String,
}
use dirk.Go.{Bytes, Go, ret, panic, ◌>>=◌, pure}
use dirk.History.{SafeStep, nothing-SafeStep}
use dirk.Rules.Types
use dirk.Rules.Types.{
  ReqMetadata, Checkpoint, SignBeaconAttestationData, unknown, approved, denied, failed,
}
use dirk.Rules.Env.{Env, Lawful}
use dirk.Rules.Storage.ReadBack.{Keeps}
use dirk.Rules.Attestation.{attestation_key, on_sign_beacon_attestation}
use dirk.Rules.Attestation.Outcome.{
  Approved, on_sign_beacon_attestation_outcome, on_sign_nil_unchanged,
}
use dirk.Rules.Attestation.Watermark.{Attested, Later, CoveredAt, Covered, Approved-SafeStep}
use dirk.Rules.Attestations.Safety.{IsSmall, IsSmallCheckpoint, approval, approvals_of}
use dirk.Ruler.{
  Credentials, RulesData, AnyData, sign_beacon_attestation, attestation_data, req_of, known,
  dispatch, run_with, run_entry, metadata_of,
}
use dirk.Ruler.History.{
  attestation_approval, attestation_approvals, IsSmallEntry, IsSmallAttestation,
}
use dirk.Ruler.Approvals.{metadata-key}

-- What a call of a rule approves, or the loop over some entries.
abbrev pub go_approval : Bytes → Option SignBeaconAttestationData → Go Types.Result → List Attested
go_approval k req (ret r) = attestation_approval k req r
go_approval k req panic = []

abbrev pub go_approvals : List RulesData → Go (List Types.Result) → List Attested
go_approvals rds (ret rs) = attestation_approvals (map some rds) rs
go_approvals rds panic = []

module _ (E : Env) (L : Lawful E) where
  abbrev pub Safe : E.Db → List Attested → E.Db → Type 0
  Safe d xs d' = SafeStep (Covered E) Later d xs d'

  pub Keeps-Covered : (d d' : E.Db) → Keeps E d d' → (x : Attested) → Covered E d x → Covered E d' x
  Keeps-Covered d d' k x c =
      subst (λ g. CoveredAt E g x.source x.target) (sym (k (attestation_key x.pub_key))) c

  of_approved :
      (k : Bytes) (req : SignBeaconAttestationData) (d d' : E.Db)
      → IsSmall req
      → Approved E k req d d'
      → Safe d (approval k req approved) d'
  of_approved k req d d' small a =
      subst (λ s. Safe d (approvals_of k s req.target) d') (sym a.source_is)
        (subst (λ t. Safe d (approvals_of k (some a.source) t) d') (sym a.target_is)
          (Approved-SafeStep E L k req d d' a (subst IsSmallCheckpoint a.source_is small.0)
            (subst IsSmallCheckpoint a.target_is small.1)))

  approval-ne :
      (k : Bytes) (req : SignBeaconAttestationData) (g : Go Types.Result)
      → g ≢ ret approved
      → go_approval k (some req) g ≡ []
  approval-ne k req (ret approved) h = absurd (h refl)
  approval-ne k req (ret unknown) h = refl
  approval-ne k req (ret denied) h = refl
  approval-ne k req (ret failed) h = refl
  approval-ne k req panic h = refl

  nil_approval : (k : Bytes) (g : Go Types.Result) → go_approval k none g ≡ []
  nil_approval k (ret r) = refl
  nil_approval k panic = refl

  -- One attestation.
  on_sign-Safe :
      (m : ReqMetadata) (req : Option SignBeaconAttestationData) (d : E.Db)
      → IsSmallAttestation req
      → Safe d
          (go_approval m.pub_key req (on_sign_beacon_attestation E (some m) req d).0)
          (on_sign_beacon_attestation E (some m) req d).1
  on_sign-Safe m none d small =
      let out : Go Types.Result × E.Db = on_sign_beacon_attestation E (some m) none d in
      nothing-SafeStep (Covered E) Later d out.1 (go_approval m.pub_key none out.0)
        (nil_approval m.pub_key out.0)
        (λ x c. subst (λ d'. Covered E d' x) (sym (on_sign_nil_unchanged E m d)) c)
  on_sign-Safe m (some req) d small =
      let out : Go Types.Result × E.Db = on_sign_beacon_attestation E (some m) (some req) d in
      elim (on_sign_beacon_attestation_outcome E L m req d) [
        | inl (done, a) ↦
            subst (λ g. Safe d (go_approval m.pub_key (some req) g) out.1) (sym done)
              (of_approved m.pub_key req d out.1 small a)
        | inr (not_done, keeps) ↦
            nothing-SafeStep (Covered E) Later d out.1 (go_approval m.pub_key (some req) out.0)
              (approval-ne m.pub_key req out.0 not_done) (Keeps-Covered d out.1 keeps)
      ]

  known-Safe :
      (k : Bytes) (req : Option SignBeaconAttestationData) (d : E.Db) (g : Go Types.Result)
      (d' : E.Db)
      → Safe d (go_approval k req g) d'
      → let out = ((λ (s : E.Db). (g, d')) >>= λ r. pure (known r)) d in
        Safe d (go_approval k req out.0) out.1
  known-Safe k req d panic d' h = h
  known-Safe k none d (ret unknown) d' h = h
  known-Safe k (some req) d (ret unknown) d' h = h
  known-Safe k req d (ret approved) d' h = h
  known-Safe k req d (ret denied) d' h = h
  known-Safe k req d (ret failed) d' h = h

  failed_approval :
      (k : Bytes) (req : Option SignBeaconAttestationData) → attestation_approval k req failed ≡ []
  failed_approval k none = refl
  failed_approval k (some req) = refl

module _ (E : Env) (L : Lawful E) (admin_ips : List String) (procs : ℕ) where
  failed-Safe :
      (k : Bytes) (req : Option SignBeaconAttestationData) (d : E.Db)
      → Safe E L d (attestation_approval k req failed) d
  failed-Safe k req d =
      nothing-SafeStep (Covered E) Later d d (attestation_approval k req failed)
        (failed_approval E L k req) (λ x c. c)

  with_metadata-Safe :
      (m : ReqMetadata) (payload : AnyData) (d : E.Db)
      → IsSmallAttestation (req_of payload)
      → let out = run_with E admin_ips procs sign_beacon_attestation payload (some m) d in
        Safe E L d (go_approval m.pub_key (req_of payload) out.0) out.1
  unfolding run_with dispatch
  with_metadata-Safe m (attestation_data req) d small =
      let out : Go Types.Result × E.Db = on_sign_beacon_attestation E (some m) req d in
      known-Safe E L m.pub_key req d out.0 out.1 (on_sign-Safe E L m req d small)
  with_metadata-Safe m payload d small = failed-Safe m.pub_key none d

  -- One entry.
  pub run_entry-Safe :
      (c : Option Credentials) (rd : RulesData) (d : E.Db)
      → IsSmallEntry (some rd)
      → let out = run_entry E admin_ips procs c sign_beacon_attestation rd d in
        Safe E L d (go_approval rd.pub_key (req_of rd.payload) out.0) out.1
  unfolding run_entry
  run_entry-Safe c rd d small = elim (Option-cases (metadata_of c rd)) [
    | inl e ↦ rw e (unfold run_with in failed-Safe rd.pub_key (req_of rd.payload) d)
    | inr (m, e) ↦ rw e (
        subst
          (λ k.
            let out = run_with E admin_ips procs sign_beacon_attestation rd.payload (some m) d in
            Safe E L d (go_approval k (req_of rd.payload) out.0) out.1)
          (metadata-key c rd m e) (with_metadata-Safe m rd.payload d small.0))
  ]
