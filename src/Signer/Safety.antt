-- ===== src/Signer/Safety.antt =====
-- The slashing protection of a history of signing requests.
use dirk.Ruler.Safety.{entries-Safe}
use dirk.Signer.Account.{Step, go_on, refuse, pre_check}
use dirk.Signer.Root.{generate_signing_root}
use dirk.Rules.Attestation.Watermark.{Attested, Later, Covered}
use dirk.History.{nothing-SafeStep, SafeStep}
use dirk.Rules.Env.{Env, Lawful}
use dirk.Prelude.{
  ℕ, ◌≡◌, inl, inr, refl, ap, subst, Option, none, some, List, [], ◌∷◌, ◌++◌, Bool-cases,
  if◌then◌else◌, String,
}
use dirk.Go
use dirk.Go.{ok, err, Bytes, Go, Slice, ◌>>=◌, ret, bytes_of}
use dirk.Core
use dirk.Rules.Types
use dirk.Rules.Types.{
  unknown, approved, denied, failed, SignData, SignBeaconAttestationData, SignBeaconProposalData,
  Checkpoint,
}
use dirk.Ruler.{
  Action, RulesData, AnyData, req_of, is_attestation, Credentials, LockCall, run_rules,
}
use dirk.Ruler.History.{
  attestation_approval, attested_by, IsSmallAttestation, IsSmallProposal, proposal_of,
  attestation_approvals,
}
use dirk.Ruler.Entries.{Safe}
use dirk.Signer.Services.{Services}
use dirk.Signer.Single.{
  Signed, decided_call, State, rules_data, sign_data_root, signed_root, after_rules,
  after_pre_check, sign_checked, confirm,
}

-- What a signature over a payload attests.
abbrev pub attested_with : Bytes → Action → AnyData → Go Signed → List Attested
attested_with key action payload (ret (r, some signature)) =
    if is_attestation action then attestation_approval key (req_of payload) approved else []
attested_with key action payload (ret (r, none)) = []
attested_with key action payload Go.panic = []

append_nil : {A : Type 0} (xs : List A) → xs ++ [] ≡ xs
append_nil [] = refl
append_nil (x ∷ xs) = ap (λ l. x ∷ l) (append_nil xs)

single :
    (rd : RulesData) (rs : List Types.Result)
    → attestation_approvals (some rd ∷ []) (approved ∷ rs)
      ≡ attestation_approval rd.pub_key (req_of rd.payload) approved
unfolding attestation_approvals
single rd rs = append_nil (attestation_approval rd.pub_key (req_of rd.payload) approved)

one_approved :
    (action : Action) (rd : RulesData) (rs : List Types.Result)
    → attested_by action (some rd ∷ []) (ret (approved ∷ rs)) ≡ (
        if is_attestation action
        then attestation_approval rd.pub_key (req_of rd.payload) approved
        else [])
one_approved action rd rs = elim (Bool-cases (is_attestation action)) [
  | inl n ↦ rw n (single rd rs)
  | inr n ↦ rw n refl
]

module _ (S : Services) where
  -- What a request attests, by the account that its first checks find.
  abbrev pub attested_after :
      Go (Step (S.Wallet × S.Account)) → Action → AnyData → Go Signed → List Attested
  attested_after (ret (go_on (wallet, account))) action payload out =
      attested_with (S.public_key account) action payload out
  attested_after (ret (refuse r)) action payload out = []
  attested_after Go.panic action payload out = []

module _ (S : Services) (E : Env) (L : Lawful E) (admin_ips : List String) (procs : ℕ) where
  abbrev pub CoveredState : State S E admin_ips procs → Attested → Type 0
  CoveredState s x = Covered E s.1 x

  abbrev pub SafeState :
      State S E admin_ips procs → List Attested → State S E admin_ips procs → Type 0
  SafeState s xs s' = SafeStep CoveredState Later s xs s'

  pub forgets :
      (w w' : S.World) (d d' : E.Db)
      → ((x : Attested) → Covered E d x → Covered E d' x)
      → SafeState (w, d) [] (w', d')
  forgets w w' d d' keep = nothing-SafeStep CoveredState Later (w, d) (w', d') [] refl keep

  abbrev SmallPayload : AnyData → Type 0
  SmallPayload payload = IsSmallAttestation (req_of payload) × IsSmallProposal (proposal_of payload)

  pub lift :
      (w w' : S.World) (d d' : E.Db) (xs : List Attested)
      → Safe E L d xs d'
      → SafeState (w, d) xs (w', d')
  lift w w' d d' xs s = record {
    preserves = s.preserves;
    fresh = s.fresh;
    covered = s.covered;
    ordered = s.ordered;
  }

  signed-Safe :
      (action : Action) (key : Bytes) (payload : AnyData) (w : S.World) (d d' : E.Db)
      → Safe E L d
          (if is_attestation action then attestation_approval key (req_of payload) approved else [])
          d'
      → (o : Signed) → SafeState (w, d) (attested_with key action payload (ret o)) (w, d')
  signed-Safe action key payload w d d' s (r, none) = forgets w w d d' s.preserves
  signed-Safe action key payload w d d' s (r, some signature) =
      lift w w d d'
        (if is_attestation action then attestation_approval key (req_of payload) approved else []) s

  -- With or without a signature, the signing itself leaves the database.
  sign_data_root-Safe :
      (action : Action) (wallet : S.Wallet) (account : S.Account) (payload : AnyData)
      (root : Go.Result Bytes) (domain : Option Slice) (w : S.World) (d d' : E.Db)
      → Safe E L d
          (if is_attestation action
            then attestation_approval (S.public_key account) (req_of payload) approved
            else [])
          d'
      → let out = sign_data_root S E admin_ips procs root domain account (w, d') in
        SafeState (w, d) (attested_with (S.public_key account) action payload out.0) out.1
  unfolding sign_data_root
  sign_data_root-Safe action wallet account payload (err e) domain w d d' s =
      forgets w w d d' s.preserves
  sign_data_root-Safe action wallet account payload (ok root) domain w d d' s =
      signed-Safe action (S.public_key account) payload w d d' s
        (signed_root S E admin_ips procs account w (generate_signing_root S root (bytes_of domain)))

  -- After the rules: a signature is made only if they have approved.
  rules_results :
      (action : Action) (wallet : S.Wallet) (account : S.Account) (payload : AnyData)
      (root : Go.Result Bytes) (domain : Option Slice) (w : S.World) (d d' : E.Db)
      (rs : Go (List Types.Result))
      → Safe E L d
          (attested_by action
            (some (rules_data S E admin_ips procs wallet account payload) ∷ [])
            rs)
          d'
      → let out =
          ((λ (s : State S E admin_ips procs). (decided_call rs, (w, d'))) >>= λ r.
          after_rules S E admin_ips procs root domain account r)
            (w, d) in
        SafeState (w, d) (attested_with (S.public_key account) action payload out.0) out.1
  unfolding after_rules
  rules_results action wallet account payload root domain w d d' Go.panic s =
      forgets w w d d' s.preserves
  rules_results action wallet account payload root domain w d d' (ret []) s =
      forgets w w d d' s.preserves
  rules_results action wallet account payload root domain w d d' (ret (approved ∷ rs)) s =
      sign_data_root-Safe action wallet account payload root domain w d d' (
        subst (λ xs. Safe E L d xs d')
          (one_approved action (rules_data S E admin_ips procs wallet account payload) rs) s)
  rules_results action wallet account payload root domain w d d' (ret (denied ∷ rs)) s =
      forgets w w d d' s.preserves
  rules_results action wallet account payload root domain w d d' (ret (failed ∷ rs)) s =
      forgets w w d d' s.preserves
  rules_results action wallet account payload root domain w d d' (ret (unknown ∷ rs)) s =
      forgets w w d d' s.preserves

  pub restart :
      (w w1 w2 : S.World) (d d' : E.Db) (xs : List Attested)
      → SafeState (w1, d) xs (w2, d')
      → SafeState (w, d) xs (w2, d')
  restart w w1 w2 d d' xs s = record {
    preserves = s.preserves;
    fresh = s.fresh;
    covered = s.covered;
    ordered = s.ordered;
  }

  -- Once the first checks are made.
  pre_checked-Safe :
      (credentials : Option Credentials) (action : Action) (payload : AnyData)
      (root : Go.Result Bytes) (domain : Option Slice) (w w1 : S.World) (d : E.Db)
      (p : Go (Step (S.Wallet × S.Account)))
      → SmallPayload payload
      → let out =
          ((λ (s : State S E admin_ips procs). (p, (w1, d))) >>= λ r.
          after_pre_check S E admin_ips procs credentials action payload root domain r)
            (w, d) in
        SafeState (w, d) (attested_after S p action payload out.0) out.1
  unfolding after_pre_check confirm
  pre_checked-Safe credentials action payload root domain w w1 d Go.panic small =
      forgets w w1 d d (λ x c. c)
  pre_checked-Safe credentials action payload root domain w w1 d (ret (refuse r)) small =
      forgets w w1 d d (λ x c. c)
  pre_checked-Safe credentials action payload root domain w w1 d (ret (go_on (wallet, account)))
        small =
      let rd : RulesData = rules_data S E admin_ips procs wallet account payload in
      let call : Go (List Types.Result) × E.Db × List LockCall =
        run_rules E admin_ips procs credentials action (some rd ∷ []) d in
      let out : Go Signed × State S E admin_ips procs =
        ((λ (s : State S E admin_ips procs). (decided_call call.0, (w1, call.1))) >>= λ r.
        after_rules S E admin_ips procs root domain account r)
          (w1, d) in
      restart w w1 out.1.0 d out.1.1 (attested_with (S.public_key account) action payload out.0) (
        rules_results action wallet account payload root domain w1 d call.1 call.0
          (entries-Safe E L admin_ips procs credentials action (some rd ∷ []) d (small, tt)))

  pub sign_checked-Safe :
      (credentials : Option Credentials) (name : String) (pub_key : Option Bytes) (action : Action)
      (payload : AnyData) (root : Go.Result Bytes) (domain : Option Slice) (w : S.World) (d : E.Db)
      → SmallPayload payload
      → let out =
          sign_checked S E admin_ips procs credentials name pub_key action payload root domain
            (w, d) in
        SafeState
          (w, d)
          (attested_after S (pre_check S credentials name pub_key action w).0 action payload out.0)
          out.1
  unfolding sign_checked
  sign_checked-Safe credentials name pub_key action payload root domain w d small =
      pre_checked-Safe credentials action payload root domain w
        (pre_check S credentials name pub_key action w).1 d
        (pre_check S credentials name pub_key action w).0 small

  pub without_signature :
      (p : Go (Step (S.Wallet × S.Account))) (action : Action) (payload : AnyData) (w : S.World)
      (d : E.Db) (r : Core.Result)
      → SafeState (w, d) (attested_after S p action payload (ret (r, none))) (w, d)
  without_signature Go.panic action payload w d r = forgets w w d d (λ x c. c)
  without_signature (ret (refuse q)) action payload w d r = forgets w w d d (λ x c. c)
  without_signature (ret (go_on a)) action payload w d r = forgets w w d d (λ x c. c)
