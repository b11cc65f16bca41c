-- ===== src/Ruler/Safety.antt =====
-- The slashing protection of a history of calls of RunRules.
use dirk.Rules.Env.{Env, Lawful}
use dirk.Rules.Types
use dirk.Go.{Go, ret, panic}
use dirk.Rules.Attestation.Watermark.{Attested, Covered, Later}
use dirk.Prelude.{
  ℕ, ◌≡◌, ◌≢◌, inl, inr, refl, sym, subst, true, false, Option, some, List, [], ◌∷◌, map, arith,
  length, All, Ordered, Bool-cases, Option-cases, ltb, String,
}
use dirk.Rules.Attestations.{index_where, somes, failed_at}
use dirk.Ruler.{
  Credentials, RulesData, to_bytes48, Action, is_attestation, run_rules, run_locked,
  run_checked_rules, first_clash, needs_lock, is_nil_entry, LockCall, failed,
}
use dirk.Ruler.{sign_beacon_attestation}
use dirk.Ruler.History.{
  IsSmallEntry, Call, IsSmallCall, attestation_step, attested_by, results_attested,
}
use dirk.Ruler.Approvals.{
  approvals-none, replicate_failed-NotApproved, failed_at-NotApproved, NotApproved, somes-all,
}
use dirk.Ruler.Apart.{first_clash-Ordered}
use dirk.Ruler.Entries.{Safe, go_approvals}
use dirk.Ruler.Loop.{run_entries-Safe, run_entries_preserves}
use dirk.Ruler.Multiple.{multiple-Safe, none_approved}
use dirk.History.{run_all, run_all-Ordered, nothing-SafeStep}

is_attestation-eq :
    (action : Action) → is_attestation action ≡ true → action ≡ sign_beacon_attestation
is_attestation-eq sign_beacon_attestation h = refl
is_attestation-eq _ h = ground arith

unapproved :
    (action : Action) (entries : List (Option RulesData)) (rs : List Types.Result)
    → All NotApproved rs
    → attested_by action entries (ret rs) ≡ []
unapproved action entries rs h = elim (Bool-cases (is_attestation action)) [
  | inl n ↦ rw n (approvals-none entries rs h)
  | inr n ↦ rw n refl
]

module _ (E : Env) (L : Lawful E) (admin_ips : List String) (procs : ℕ) where
  checked-Safe :
      (c : Option Credentials) (rds : List RulesData) (d : E.Db)
      → All IsSmallEntry (map some rds)
      → Ordered (λ a b. a ≢ b) (map (λ rd. to_bytes48 (RulesData.pub_key rd)) rds)
      → let out = run_checked_rules E admin_ips procs c sign_beacon_attestation rds d in
        Safe E L d (go_approvals rds out.0) out.1
  unfolding run_checked_rules
  checked-Safe c rds d small apart = elim (Bool-cases (ltb 1 (length rds))) [
    | inl e ↦ rw e (multiple-Safe E L admin_ips procs c rds d small apart)
    | inr e ↦ rw e (run_entries-Safe E L admin_ips procs c rds d small)
  ]

  -- A call with the attestation action.
  locked-Safe :
      (c : Option Credentials) (rds : List RulesData) (d : E.Db)
      → All IsSmallEntry (map some rds)
      → let out = run_locked E admin_ips procs c sign_beacon_attestation rds d in
        Safe E L d (go_approvals rds out.0) out.1
  unfolding run_locked
  locked-Safe c rds d small = elim (Option-cases (first_clash [] rds)) [
    | inr (i, e) ↦
        rw e (
          none_approved E L rds (failed_at (length rds) i) d (failed_at-NotApproved (length rds) i))
    | inl e ↦ rw e (checked-Safe c rds d small (first_clash-Ordered [] rds e))
  ]

  -- A call with another action.
  checked_preserves :
      (c : Option Credentials) (action : Action) (rds : List RulesData) (d : E.Db) (x : Attested)
      → is_attestation action ≡ false
      → Covered E d x
      → Covered E (run_checked_rules E admin_ips procs c action rds d).1 x
  unfolding run_checked_rules
  checked_preserves c action rds d x h k = elim (Bool-cases (ltb 1 (length rds))) [
    | inl e ↦ rw (e, h) (run_entries_preserves E L admin_ips procs c action rds d x h k)
    | inr e ↦ rw e (run_entries_preserves E L admin_ips procs c action rds d x h k)
  ]

  locked_preserves :
      (c : Option Credentials) (action : Action) (rds : List RulesData) (d : E.Db) (x : Attested)
      → is_attestation action ≡ false
      → Covered E d x
      → Covered E (run_locked E admin_ips procs c action rds d).1 x
  unfolding run_locked
  locked_preserves c action rds d x h k = elim (Bool-cases (needs_lock action)) [
    | inr n ↦ rw n (checked_preserves c action rds d x h k)
    | inl n ↦ rw n (elim (Option-cases (first_clash [] rds)) [
      | inr (i, e) ↦ rw e k
      | inl e ↦ rw e (checked_preserves c action rds d x h k)
    ])
  ]

  attested_by-go_approvals :
      (rds : List RulesData) (g : Go (List Types.Result))
      → go_approvals rds g ≡ results_attested (map some rds) g
  attested_by-go_approvals rds panic = refl
  attested_by-go_approvals rds (ret rs) = refl

  call-Safe :
      (c : Option Credentials) (action : Action) (rds : List RulesData) (d : E.Db)
      → All IsSmallEntry (map some rds)
      → let out = run_locked E admin_ips procs c action rds d in
        Safe E L d (attested_by action (map some rds) out.0) out.1
  call-Safe c action rds d small = elim (Bool-cases (is_attestation action)) [
    | inr n ↦
        nothing-SafeStep (Covered E) Later d (run_locked E admin_ips procs c action rds d).1
          (attested_by action (map some rds) (run_locked E admin_ips procs c action rds d).0)
          (rw n refl) (λ x k. locked_preserves c action rds d x n k)
    | inl n ↦ rw (is_attestation-eq action n) (
        let out : Go (List Types.Result) × E.Db × List LockCall =
          run_locked E admin_ips procs c sign_beacon_attestation rds d in
        subst (λ xs. Safe E L d xs out.1) (attested_by-go_approvals rds out.0)
          (locked-Safe c rds d small))
  ]

  failed-Safe :
      (action : Action) (entries : List (Option RulesData)) (rs : List Types.Result) (d : E.Db)
      → All NotApproved rs
      → Safe E L d (attested_by action entries (ret rs)) d
  failed-Safe action entries rs d h =
      nothing-SafeStep (Covered E) Later d d (attested_by action entries (ret rs))
        (unapproved action entries rs h) (λ x c. c)

  pub entries-Safe :
      (c : Option Credentials) (action : Action) (entries : List (Option RulesData)) (d : E.Db)
      → All IsSmallEntry entries
      → let out = run_rules E admin_ips procs c action entries d in
        Safe E L d (attested_by action entries out.0) out.1
  unfolding run_rules
  entries-Safe c action [] d small =
      failed-Safe action [] (failed ∷ []) d (replicate_failed-NotApproved 1)
  entries-Safe c action (e ∷ es) d small = elim (Option-cases (index_where is_nil_entry (e ∷ es))) [
    | inr (i, h) ↦
        rw (h, run_rules)
          (failed-Safe action (e ∷ es) (failed_at (length (e ∷ es)) i) d
            (failed_at-NotApproved (length (e ∷ es)) i))
    | inl h ↦
        rw (h, run_rules)
          (let out : Go (List Types.Result) × E.Db × List LockCall =
              run_locked E admin_ips procs c action (somes (e ∷ es)) d in
            subst (λ l. Safe E L d (attested_by action l out.0) out.1) (sym (somes-all (e ∷ es) h))
              (call-Safe c action (somes (e ∷ es)) d
                (subst (λ l. All IsSmallEntry l) (somes-all (e ∷ es) h) small)))
  ]

  -- Whatever calls of RunRules are made one after the other, with any actions, entries and
  -- credentials, and from any database: if the epochs and slots of their entries are below 2^63, the
  -- attestations that they approve for one public key have strictly increasing targets and sources
  -- that do not decrease (so no two are a double vote, and neither of two surrounds the other). The
  -- database is any that meets the laws the rules rely on.
  pub attestations-Ordered :
      (calls : List Call) (d : E.Db)
      → All IsSmallCall calls
      → Ordered Later (run_all (attestation_step E admin_ips procs) calls d).0
  attestations-Ordered calls d small =
      run_all-Ordered (Covered E) Later (attestation_step E admin_ips procs) IsSmallCall
        (λ c v d. entries-Safe c.credentials c.action c.entries d v) calls d small
