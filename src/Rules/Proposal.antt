-- ===== src/Rules/Proposal.antt =====
-- rules/standard/signbeaconproposal.go: the slashing protection of a block proposal.
pub mod Outcome
pub mod Watermark
use dirk.Prelude.{
  ℕ, Option, none, some, [], ◌∷◌, ◌++◌, ◌&&◌, not, leb, bytes_equal, str_eq, if◌then◌else◌,
}
use dirk.Go.{Bytes, Error, Go, ret, panic, Run, ◌>>=◌, pure, crash, first4, Result, ok, err}
use dirk.Words.{pos, negsuc, int64, uint64, is_nonneg}
use dirk.Rules.Types
use dirk.Rules.Types.{ReqMetadata, SignBeaconProposalData, unknown, approved, denied, failed}
use dirk.Rules.State.{ProposalState, encode_proposal, decode_proposal}
use dirk.Rules.Env.{Env}
use dirk.Rules.Storage.{fetch, store, stored}

abbrev pub action_sign_beacon_proposal : Bytes
action_sign_beacon_proposal = 3 ∷ []

unfoldable pub proposal_key : Bytes → Bytes
proposal_key pub_key = pub_key ++ action_sign_beacon_proposal

abbrev pub no_proposal : ProposalState
no_proposal = record { slot = negsuc 0 }

abbrev pub zero_proposal : ProposalState
zero_proposal = record { slot = pos 0 }

module _ (E : Env) where
  -- What `fetchSignBeaconProposalState` makes of the result of `store.Fetch`.
  proposal_state_of : Result Bytes → Result ProposalState
  proposal_state_of (err e) = if str_eq e "not found" then ok no_proposal else err e
  proposal_state_of (ok bytes) =
      let (e, state) = decode_proposal E.gob_proposal bytes zero_proposal in
      elim e [ none ↦ ok state | some x ↦ err x ]

  unfoldable pub fetch_sign_beacon_proposal_state : Bytes → Run E.Db (Result ProposalState)
  unfolding proposal_state_of
  fetch_sign_beacon_proposal_state pub_key =
      fetch E (proposal_key pub_key) >>= λ r. pure (proposal_state_of r)

  unfoldable pub store_sign_beacon_proposal_state : Bytes → ProposalState → Run E.Db (Option Error)
  store_sign_beacon_proposal_state pub_key state =
      store E (proposal_key pub_key) (encode_proposal (some state))

  decide_proposal : Bytes → ℕ → Result ProposalState → Run E.Db Types.Result
  decide_proposal pub_key slot (err e) = pure failed
  decide_proposal pub_key slot (ok state) =
      if is_nonneg state.slot && leb slot (uint64 state.slot)
      then pure denied
      else (store_sign_beacon_proposal_state pub_key (record { slot = int64 slot }) >>= λ e.
          pure (stored e))

  after_domain : Bytes → ℕ → Go Bytes → Run E.Db Types.Result
  unfolding decide_proposal
  after_domain pub_key slot panic = crash
  after_domain pub_key slot (ret domain) =
      if not (bytes_equal domain E.domain_beacon_proposer)
      then pure denied
      else (fetch_sign_beacon_proposal_state pub_key >>= λ r. decide_proposal pub_key slot r)

  -- The domain is tested before the state is fetched. A nil `metadata` or `req` panics.
  unfoldable pub on_sign_beacon_proposal :
      Option ReqMetadata → Option SignBeaconProposalData → Run E.Db Types.Result
  unfolding after_domain
  on_sign_beacon_proposal (some metadata) (some req) =
      after_domain metadata.pub_key req.slot (first4 req.domain)
  on_sign_beacon_proposal (some metadata) none = crash
  on_sign_beacon_proposal none req = crash
