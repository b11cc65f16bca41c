-- ===== src/Rules/Proposal/Watermark.antt =====
-- The stored slot of a public key as a watermark: what it covers, and that approvals raise it.
use dirk.Prelude.{
  ℕ, ◌<◌, ◌≤◌, ◌≡◌, inl, inr, refl, sym, ◌∙◌, ap, subst, false, some, [], ◌∷◌, arith, ◌&&◌, leb,
  bytes_equal, bytes_equal_iff, Bool-cases, if◌then◌else◌,
}
use dirk.Go.{Bytes, ret, ok}
use dirk.Words.{int64, uint64, is_nonneg, AtLeast, int64-IsInt64, pow63}
use dirk.History.{SafeStep}
use dirk.Rules.State.{ProposalState, encode_proposal}
use dirk.Rules.State.RoundTrip.{decode-encode_proposal}
use dirk.Rules.Env.{Env, Get, found, value}
use dirk.Rules.Storage.{view_item}
use dirk.Rules.Proposal.{proposal_key, proposal_state_of, zero_proposal}
use dirk.Rules.Proposal.Outcome.{proposal_state_at, Approved}

-- A proposal that was approved: the public key, and the slot.
pub record Proposed : Type 0 where
  pub pub_key : Bytes
  pub slot : ℕ

-- Two proposals of one public key, the second signed after the first: the slot is higher, so the second
-- is no double proposal.
abbrev pub Later : Proposed → Proposed → Type 0
Later x y = x.pub_key ≡ y.pub_key → x.slot < y.slot

-- What a key holds decodes to a slot that is no lower.
abbrev pub CoveredAt : (E : Env) → Get → ℕ → Type 0
CoveredAt E g n = (st : ProposalState) × (proposal_state_at E g ≡ ret (ok st)) × AtLeast st.slot n

abbrev pub Covered : (E : Env) → E.Db → Proposed → Type 0
Covered E d x = CoveredAt E (E.get d (proposal_key x.pub_key)) x.slot

slot-above :
    (slot n : ℕ) (st : ProposalState)
    → (is_nonneg st.slot && leb slot (uint64 st.slot)) ≡ false
    → AtLeast st.slot n
    → n < slot
slot-above slot n st h c = ground arith

int64-AtLeast : (m n : ℕ) → m < pow63 → n ≤ m → AtLeast (int64 m) n
int64-AtLeast m n h l = ground arith

module _ (E : Env) where
  raised :
      (slot n : ℕ)
      → slot < pow63
      → n ≤ slot
      → CoveredAt E (found (value (encode_proposal (some (record { slot = int64 slot }))))) n
  unfolding proposal_state_of view_item
  raised slot n h l =
      let st : ProposalState = record { slot = int64 slot } in
      (
        st,
        ground (
          arith,
          decode-encode_proposal E.gob_proposal (record { slot = int64 slot }) zero_proposal
              (int64-IsInt64 slot),
        ),
        int64-AtLeast slot n h l,
      )

  -- An approving call is a safe step, if the slot fits int64.
  pub Approved-SafeStep :
      (pk : Bytes) (slot : ℕ) (d d' : E.Db) (a : Approved E pk slot d d')
      → slot < pow63
      → SafeStep (Covered E) Later d (record { pub_key = pk; slot = slot } ∷ []) d'
  Approved-SafeStep pk slot d d' a small = record {
    preserves = λ x c. elim (Bool-cases (bytes_equal key (proposal_key x.pub_key))) [
      | inl same ↦
          subst (λ g. CoveredAt E g x.slot)
            (sym (
              a.writes (proposal_key x.pub_key)
              ∙ ap (λ b. if b then found (value new) else E.get d (proposal_key x.pub_key)) same))
            (lift x.slot (
              subst (λ j. CoveredAt E (E.get d j) x.slot)
                (sym ((bytes_equal_iff key (proposal_key x.pub_key)).0 same)) c))
      | inr other ↦
          subst (λ g. CoveredAt E g x.slot)
            (sym (
              a.writes (proposal_key x.pub_key)
              ∙ ap (λ b. if b then found (value new) else E.get d (proposal_key x.pub_key)) other))
            c
    ];
    fresh = (
      λ x c e. later x.slot (subst (λ j. CoveredAt E (E.get d (proposal_key j)) x.slot) e c),
      tt,
    );
    covered = (
      subst (λ g. CoveredAt E g slot)
          (sym (
            a.writes key
            ∙ ap (λ b. if b then found (value new) else E.get d key)
                ((bytes_equal_iff key key).1 refl)))
          (raised slot slot small (omega arith)),
      tt,
    );
    ordered = (tt, tt);
  }
    where
      key : Bytes
      key = proposal_key pk

      new : Bytes
      new = encode_proposal (some (record { slot = int64 slot }))

      later : (n : ℕ) → CoveredAt E (E.get d key) n → n < slot
      later n (st, e, h) =
          let w = a.was in
          slot-above slot n a.old a.above (subst (λ z. AtLeast (ProposalState.slot z) n) (cc) h)

      lift : (n : ℕ) → CoveredAt E (E.get d key) n → CoveredAt E (found (value new)) n
      lift n c = let h = later n c in raised slot n small (omega arith)
