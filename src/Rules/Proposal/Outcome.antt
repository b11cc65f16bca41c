-- ===== src/Rules/Proposal/Outcome.antt =====
-- What a call of OnSignBeaconProposal does to the store, on every branch.
use dirk.Prelude.{
  ℕ, ◌≡◌, ◌≢◌, ◌⊎◌, inl, inr, refl, sym, subst, false, Bool-cases, Option, some, [], ◌∷◌, arith,
  ◌&&◌, leb, bytes_equal, if◌then◌else◌,
}
use dirk.Go.{Bytes, Error, Go, ret, panic, first4, Result, ok, err, ◌>>=◌}
use dirk.Words.{int64, uint64, is_nonneg}
use dirk.Rules.Types
use dirk.Rules.Types.{ReqMetadata, SignBeaconProposalData, approved, denied, failed}
use dirk.Rules.State.{ProposalState, encode_proposal}
use dirk.Rules.State.RoundTrip.{encode_proposal-cons}
use dirk.Rules.Env.{Env, Lawful, Get}
use dirk.Rules.Storage.{view_item, stored}
use dirk.Rules.Storage.ReadBack.{fetch-eq, store-eq, Writes, Keeps, update_outcome}
use dirk.Rules.Proposal.{
  proposal_key, proposal_state_of, fetch_sign_beacon_proposal_state,
  store_sign_beacon_proposal_state, decide_proposal, after_domain, on_sign_beacon_proposal,
}

pub proposal_key-ne-nil : (pk : Bytes) → proposal_key pk ≢ []
unfolding proposal_key
proposal_key-ne-nil [] h = cc
proposal_key-ne-nil (b ∷ pk) h = cc

pub encode_proposal-ne-nil : (s : ProposalState) → encode_proposal (some s) ≢ []
encode_proposal-ne-nil s h = cc ((encode_proposal-cons s).1)

-- The state as `fetch` reads it from what its key holds.
abbrev pub proposal_state_at : (E : Env) → Get → Go (Result ProposalState)
unfolding proposal_state_of
proposal_state_at E g = elim (view_item g) [ ret r ↦ ret (proposal_state_of E r) | panic ↦ panic ]

-- An approved slot is above the stored one, and is stored.
pub record Approved (E : Env) (pk : Bytes) (slot : ℕ) (d d' : E.Db) : Type 0 where
  pub old : ProposalState
  pub was : proposal_state_at E (E.get d (proposal_key pk)) ≡ ret (ok old)
  pub above : (is_nonneg old.slot && leb slot (uint64 old.slot)) ≡ false
  pub writes :
      Writes E d (proposal_key pk) (encode_proposal (some (record { slot = int64 slot }))) d'

module _ (E : Env) where
  fetch_state-eq :
      (pk : Bytes) (d : E.Db)
      → fetch_sign_beacon_proposal_state E pk d
        ≡ (proposal_state_at E (E.get d (proposal_key pk)), d)
  unfolding fetch_sign_beacon_proposal_state
  fetch_state-eq pk d = ground (arith, fetch-eq E (proposal_key pk) d (proposal_key-ne-nil pk))

  -- The call either approves, above the stored slot, and writes its key; or does not approve, and
  -- writes nothing.
  abbrev pub ProposeOutcome : Bytes → ℕ → E.Db → Go Types.Result × E.Db → Type 0
  ProposeOutcome pk slot d out =
      ((out.0 ≡ ret approved) × Approved E pk slot d out.1)
      ⊎ ((out.0 ≢ ret approved) × Keeps E d out.1)

  after_store : Option Error × E.Db → Go Types.Result × E.Db
  after_store o = (ret (stored o.0), o.1)

  decide-eq :
      (pk : Bytes) (slot : ℕ) (old : ProposalState) (d : E.Db)
      → decide_proposal E pk slot (ok old) d ≡ (
          if is_nonneg old.slot && leb slot (uint64 old.slot)
          then (ret denied, d)
          else after_store (
              E.update d (proposal_key pk) (encode_proposal (some (record { slot = int64 slot })))))
  unfolding decide_proposal store_sign_beacon_proposal_state after_store
  decide-eq pk slot old d = ground (
    arith,
    store-eq E (proposal_key pk) (encode_proposal (some (record { slot = int64 slot }))) d
        (proposal_key-ne-nil pk) (encode_proposal-ne-nil (record { slot = int64 slot })),
  )

  decide_outcome :
      Lawful E
      → (pk : Bytes) (slot : ℕ) (d : E.Db) (old : ProposalState)
      → proposal_state_at E (E.get d (proposal_key pk)) ≡ ret (ok old)
      → ProposeOutcome pk slot d (decide_proposal E pk slot (ok old) d)
  unfolding after_store
  decide_outcome L pk slot d old was =
      rw (decide-eq pk slot old d)
        (elim (Bool-cases (is_nonneg old.slot && leb slot (uint64 old.slot))) [
          | inl low ↦ rw low (inr (λ h. cc, λ j. refl))
          | inr high ↦
              rw high
                (elim (update_outcome E L d (proposal_key pk)
                  (encode_proposal (some (record { slot = int64 slot })))) [
                    | inl (done, w) ↦
                        inl (rw done, record { old = old; was = was; above = high; writes = w })
                    | inr ((e, bad), keeps) ↦ inr (rw bad (λ h. cc), keeps)
                  ])
        ])

  fetched_outcome :
      Lawful E
      → (pk : Bytes) (slot : ℕ) (d : E.Db) (g : Go (Result ProposalState))
      → proposal_state_at E (E.get d (proposal_key pk)) ≡ g
      → ProposeOutcome pk slot d (((λ (e : E.Db). (g, d)) >>= λ r. decide_proposal E pk slot r) d)
  unfolding decide_proposal
  fetched_outcome L pk slot d (ret (ok old)) was =
      unfold decide_proposal in decide_outcome L pk slot d old was
  fetched_outcome L pk slot d (ret (err e)) was = inr (λ h. cc, λ j. refl)
  fetched_outcome L pk slot d panic was = inr (λ h. cc, λ j. refl)

  domain_outcome :
      Lawful E
      → (pk : Bytes) (slot : ℕ) (d : E.Db) (g : Go Bytes)
      → ProposeOutcome pk slot d (after_domain E pk slot g d)
  unfolding after_domain
  domain_outcome L pk slot d panic = inr (λ h. cc, λ j. refl)
  domain_outcome L pk slot d (ret domain) =
      elim (Bool-cases (bytes_equal domain E.domain_beacon_proposer)) [
        | inr other ↦ rw other (inr (λ h. cc, λ j. refl))
        | inl same ↦ rw same (
            subst
              (λ x.
                ProposeOutcome pk slot d
                  (((λ (e : E.Db). x) >>= λ r. decide_proposal E pk slot r) d))
              (sym (fetch_state-eq pk d))
              (fetched_outcome L pk slot d (proposal_state_at E (E.get d (proposal_key pk))) refl))
      ]

  -- OnSignBeaconProposal, with metadata and a request that are not nil and any database that meets
  -- the laws, either approves, and then the slot is above the stored one and is stored
  -- under its key and nothing else is written; or it does not approve, and nothing is written.
  pub on_sign_beacon_proposal_outcome :
      Lawful E
      → (m : ReqMetadata) (req : SignBeaconProposalData) (d : E.Db)
      → ProposeOutcome m.pub_key req.slot d (on_sign_beacon_proposal E (some m) (some req) d)
  unfolding on_sign_beacon_proposal
  on_sign_beacon_proposal_outcome L m req d =
      domain_outcome L m.pub_key req.slot d (first4 req.domain)
