-- ===== src/Ruler/Loop.antt =====
-- The loop over the entries is a safe step, for attestations and for the other actions.
use dirk.Words.{int64}
use dirk.Prelude.{
  ℕ, ◌≡◌, ◌≢◌, inl, inr, refl, sym, ◌∙◌, ap, subst, false, Option, none, some, List, [], ◌∷◌, ◌++◌,
  map, arith, All, bytes_equal, bytes_equal_iff, Bool-cases, if◌then◌else◌, String,
}
use dirk.Go.{Bytes, Go, ret, panic, ◌>>=◌, pure}
use dirk.History.{nothing-SafeStep, append-SafeStep}
use dirk.Rules.Types
use dirk.Rules.Types.{ReqMetadata, SignBeaconProposalData, approved, unknown, denied, failed}
use dirk.Rules.Env.{Env, Lawful, found, value}
use dirk.Rules.State.{encode_proposal}
use dirk.Rules.Attestation.{attestation_key}
use dirk.Rules.Attestation.Watermark.{Attested, Later, CoveredAt, Covered}
use dirk.Rules.Proposal.{proposal_key, on_sign_beacon_proposal}
use dirk.Rules.Proposal.Outcome.{on_sign_beacon_proposal_outcome}
use dirk.Ruler.{
  Credentials, Action, RulesData, AnyData, sign, sign_beacon_attestation, sign_beacon_proposal,
  access_account, create_account, lock_wallet, unlock_wallet, lock_account, unlock_account, other,
  nil_data, sign_data, proposal_data, access_data, lock_wallet_data, unlock_wallet_data,
  lock_account_data, unlock_account_data, create_account_data, is_attestation, req_of, known,
  dispatch, run_with, run_entry, cons_results, run_entries, metadata_of,
}
use dirk.Ruler.History.{attestation_approval, attestation_approvals, IsSmallEntry}
use dirk.Ruler.Entries.{Safe, Keeps-Covered, go_approval, go_approvals, run_entry-Safe}

-- The two kinds of keys differ in their last byte.
pub proposal_key-ne : (k j : Bytes) → proposal_key k ≢ attestation_key j
unfolding proposal_key attestation_key
proposal_key-ne [] [] h = ground arith
proposal_key-ne [] (y ∷ []) h = cc
proposal_key-ne [] (y ∷ y' ∷ j) h = cc
proposal_key-ne (x ∷ []) [] h = cc
proposal_key-ne (x ∷ x' ∷ k) [] h = cc
proposal_key-ne (x ∷ k) (y ∷ j) h = ground (arith, proposal_key-ne k j)

module _ (E : Env) (L : Lawful E) where
  forget : (d d' : E.Db) (xs : List Attested) → Safe E L d xs d' → Safe E L d [] d'
  forget d d' xs s = nothing-SafeStep (Covered E) Later d d' [] refl s.preserves

  -- One entry's safe step and that of the entries after it.
  cons-Safe :
      (rd : RulesData) (rds : List RulesData) (d d1 d2 : E.Db) (r : Go Types.Result)
      (rs : Go (List Types.Result))
      → Safe E L d (go_approval rd.pub_key (req_of rd.payload) r) d1
      → Safe E L d1 (go_approvals rds rs) d2
      → let out = cons_results r rs d1 d2 in Safe E L d (go_approvals (rd ∷ rds) out.0) out.1
  unfolding attestation_approvals
  cons-Safe rd rds d d1 d2 panic rs a b = a
  cons-Safe rd rds d d1 d2 (ret r) panic a b =
      forget d d2 (attestation_approval rd.pub_key (req_of rd.payload) r ++ []) (
        append-SafeStep (Covered E) Later d d1 d2
          (attestation_approval rd.pub_key (req_of rd.payload) r) [] a b)
  cons-Safe rd rds d d1 d2 (ret r) (ret rs) a b =
      append-SafeStep (Covered E) Later d d1 d2
        (attestation_approval rd.pub_key (req_of rd.payload) r)
        (attestation_approvals (map some rds) rs) a b

  -- A proposal's call leaves the attestations' keys.
  proposal_preserves :
      (m : ReqMetadata) (req : Option SignBeaconProposalData) (d : E.Db) (x : Attested)
      → Covered E d x
      → Covered E (on_sign_beacon_proposal E (some m) req d).1 x
  unfolding on_sign_beacon_proposal
  proposal_preserves m none d x c = c
  proposal_preserves m (some req) d x c = elim (on_sign_beacon_proposal_outcome E L m req d) [
    | inr (n, keeps) ↦
        Keeps-Covered E L d (on_sign_beacon_proposal E (some m) (some req) d).1 keeps x c
    | inl (y, a) ↦
        elim (Bool-cases (bytes_equal (proposal_key m.pub_key) (attestation_key x.pub_key))) [
          | inl e ↦ absurd (
              proposal_key-ne m.pub_key x.pub_key
                ((bytes_equal_iff (proposal_key m.pub_key) (attestation_key x.pub_key)).0 e))
          | inr e ↦
              subst (λ g. CoveredAt E g x.source x.target)
                (sym (
                  a.writes (attestation_key x.pub_key)
                  ∙ ap
                      (λ b.
                        if b
                        then found
                            (value (encode_proposal (some (record { slot = int64 req.slot }))))
                        else E.get d (attestation_key x.pub_key))
                      e))
                c
        ]
  ]

known-db :
    {D : Type 0} (d : D) (out : Go Types.Result × D)
    → (((λ (s : D). out) >>= λ r. pure (known r)) d).1 ≡ out.1
known-db d (ret r, d') = refl
known-db d (panic, d') = refl

cons_results-preserves :
    (E : Env) (r : Go Types.Result) (rs : Go (List Types.Result)) (d1 d2 : E.Db) (x : Attested)
    → Covered E d1 x
    → Covered E d2 x
    → Covered E (cons_results r rs d1 d2).1 x
cons_results-preserves E panic rs d1 d2 x a b = a
cons_results-preserves E (ret r) panic d1 d2 x a b = b
cons_results-preserves E (ret r) (ret rs) d1 d2 x a b = b

module _ (E : Env) (L : Lawful E) (admin_ips : List String) (procs : ℕ) where
  dispatch_preserves :
      (action : Action) (payload : AnyData) (m : ReqMetadata) (d : E.Db) (x : Attested)
      → is_attestation action ≡ false
      → Covered E d x
      → Covered E (dispatch E admin_ips procs action payload m d).1 x
  unfolding dispatch
  dispatch_preserves sign_beacon_attestation payload m d x h c = cc
  dispatch_preserves sign_beacon_proposal (proposal_data req) m d x h c =
      proposal_preserves E L m req d x c
  dispatch_preserves sign (sign_data req) m d x h c = c
  dispatch_preserves sign _ m d x h c = c
  dispatch_preserves sign_beacon_proposal _ m d x h c = c
  dispatch_preserves access_account (access_data req) m d x h c = c
  dispatch_preserves access_account _ m d x h c = c
  dispatch_preserves create_account (create_account_data req) m d x h c = c
  dispatch_preserves create_account _ m d x h c = c
  dispatch_preserves lock_wallet (lock_wallet_data req) m d x h c = c
  dispatch_preserves lock_wallet _ m d x h c = c
  dispatch_preserves unlock_wallet (unlock_wallet_data req) m d x h c = c
  dispatch_preserves unlock_wallet _ m d x h c = c
  dispatch_preserves lock_account (lock_account_data req) m d x h c = c
  dispatch_preserves lock_account _ m d x h c = c
  dispatch_preserves unlock_account (unlock_account_data req) m d x h c = c
  dispatch_preserves unlock_account _ m d x h c = c
  dispatch_preserves (other s) nil_data m d x h c = c
  dispatch_preserves (other s) _ m d x h c = c

  run_with_preserves :
      (action : Action) (payload : AnyData) (m : Option ReqMetadata) (d : E.Db) (x : Attested)
      → is_attestation action ≡ false
      → Covered E d x
      → Covered E (run_with E admin_ips procs action payload m d).1 x
  unfolding run_with
  run_with_preserves action payload none d x h c = c
  run_with_preserves action payload (some m) d x h c =
      subst (λ e. Covered E e x) (sym (known-db d (dispatch E admin_ips procs action payload m d)))
        (dispatch_preserves action payload m d x h c)

  pub run_entries_preserves :
      (credentials : Option Credentials) (action : Action) (rds : List RulesData) (d : E.Db)
      (x : Attested)
      → is_attestation action ≡ false
      → Covered E d x
      → Covered E (run_entries E admin_ips procs credentials action rds d).1 x
  unfolding run_entries run_entry
  run_entries_preserves credentials action [] d x h c = c
  run_entries_preserves credentials action (rd ∷ rds) d x h c =
      let a : Go Types.Result × E.Db = run_entry E admin_ips procs credentials action rd d in
      let b : Go (List Types.Result) × E.Db =
        run_entries E admin_ips procs credentials action rds a.1 in
      let after : Covered E a.1 x =
        run_with_preserves action rd.payload (metadata_of credentials rd) d x h c in
      cons_results-preserves E a.0 b.0 a.1 b.1 x after
        (run_entries_preserves credentials action rds a.1 x h after)

  -- Several attestations.
  pub run_entries-Safe :
      (credentials : Option Credentials) (rds : List RulesData) (d : E.Db)
      → All IsSmallEntry (map some rds)
      → let out = run_entries E admin_ips procs credentials sign_beacon_attestation rds d in
        Safe E L d (go_approvals rds out.0) out.1
  unfolding run_entries attestation_approvals
  run_entries-Safe credentials [] d small =
      nothing-SafeStep (Covered E) Later d d [] refl (λ x c. c)
  run_entries-Safe credentials (rd ∷ rds) d small =
      let a : Go Types.Result × E.Db =
        run_entry E admin_ips procs credentials sign_beacon_attestation rd d in
      let b : Go (List Types.Result) × E.Db =
        run_entries E admin_ips procs credentials sign_beacon_attestation rds a.1 in
      cons-Safe E L rd rds d a.1 b.1 a.0 b.0
        (run_entry-Safe E L admin_ips procs credentials rd d small.0)
        (run_entries-Safe credentials rds a.1 small.1)
