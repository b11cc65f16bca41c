-- ===== src/Ruler/Approvals.antt =====
-- Lists of results with no approval, and how the entries of a call match its results.
use dirk.Prelude.{
  ℕ, zero, suc, ◌≡◌, ◌≢◌, inl, inr, refl, ap, Bool, false, Option, none, some, List, [], ◌∷◌, map,
  arith, length, All, All-append, take, drop, replicate, Bool-cases, Option-cases,
}
use dirk.Go.{Bytes}
use dirk.Rules.Types
use dirk.Rules.Types.{ReqMetadata, SignBeaconAttestationData, unknown, approved, denied, failed}
use dirk.Rules.Attestations.{index_where, is_none, somes, failed_at}
use dirk.Ruler.{
  RulesData, Credentials, is_nil_entry, prepare_extent, prepare_extents, is_prepared, metadata_of,
  assemble_metadata, req_of,
}
use dirk.Ruler.History.{attestation_approval, attestation_approvals}

abbrev pub NotApproved : Types.Result → Type 0
NotApproved r = r ≢ approved

approval-none :
    (k : Bytes) (req : Option SignBeaconAttestationData) (r : Types.Result)
    → NotApproved r
    → attestation_approval k req r ≡ []
approval-none k none r h = refl
approval-none k (some req) unknown h = refl
approval-none k (some req) denied h = refl
approval-none k (some req) failed h = refl
approval-none k (some req) approved h = absurd (h refl)

-- With no approval there is nothing approved.
pub approvals-none :
    (entries : List (Option RulesData)) (rs : List Types.Result)
    → All NotApproved rs
    → attestation_approvals entries rs ≡ []
unfolding attestation_approvals
approvals-none [] rs h = refl
approvals-none (none ∷ entries) [] h = refl
approvals-none (some rd ∷ entries) [] h = refl
approvals-none (none ∷ entries) (r ∷ rs) h = approvals-none entries rs h.1
approvals-none (some rd ∷ entries) (r ∷ rs) h =
    rw (approval-none rd.pub_key (req_of rd.payload) r h.0) (approvals-none entries rs h.1)

failed_NotApproved : NotApproved failed
failed_NotApproved e = cc

unknown_NotApproved : NotApproved unknown
unknown_NotApproved e = cc

pub replicate-NotApproved :
    (n : ℕ) (r : Types.Result) → NotApproved r → All NotApproved (replicate n r)
replicate-NotApproved zero r h = tt
replicate-NotApproved (suc n) r h = (h, replicate-NotApproved n r h)

pub failed_at-NotApproved : (n i : ℕ) → All NotApproved (failed_at n i)
failed_at-NotApproved zero i = tt
failed_at-NotApproved (suc n) zero =
    (failed_NotApproved, replicate-NotApproved n unknown unknown_NotApproved)
failed_at-NotApproved (suc n) (suc i) = (unknown_NotApproved, failed_at-NotApproved n i)

pub replicate_failed-NotApproved : (n : ℕ) → All NotApproved (replicate n failed)
replicate_failed-NotApproved n = replicate-NotApproved n failed failed_NotApproved

extent_NotApproved :
    (c : Option Credentials) (rds : List RulesData) → All NotApproved (prepare_extent c rds)
unfolding prepare_extent
extent_NotApproved c [] = tt
extent_NotApproved c (rd ∷ rds) = elim (Bool-cases (is_prepared c rd)) [
  | inl e ↦ rw e (unknown_NotApproved, extent_NotApproved c rds)
  | inr e ↦
      rw e (failed_NotApproved, replicate-NotApproved (length rds) unknown unknown_NotApproved)
]

-- The preparation of several attestations approves nothing.
pub prepare_NotApproved :
    (c : Option Credentials) (rds : List RulesData) (es : List (ℕ × ℕ))
    → All NotApproved (prepare_extents c rds es)
unfolding prepare_extents
prepare_NotApproved c rds [] = tt
prepare_NotApproved c rds ((o, n) ∷ es) =
    All-append NotApproved (prepare_extent c (take n (drop o rds))) (prepare_extents c rds es)
      (extent_NotApproved c (take n (drop o rds))) (prepare_NotApproved c rds es)

-- A list with no nil entry is its entries.
pub somes-all :
    (entries : List (Option RulesData))
    → index_where is_nil_entry entries ≡ none
    → entries ≡ map some (somes entries)
unfolding index_where
somes-all [] h = refl
somes-all (none ∷ entries) h = cc
somes-all (some rd ∷ entries) h = ap (λ l. some rd ∷ l) (somes-all entries (ground arith))

pub metadata-key :
    (c : Option Credentials) (rd : RulesData) (m : ReqMetadata)
    → metadata_of c rd ≡ some m
    → m.pub_key ≡ rd.pub_key
unfolding assemble_metadata
metadata-key c rd m h = ground arith

pub index_where-cons :
    {A : Type 0} (p : A → Bool) (x : A) (xs : List A)
    → index_where p (x ∷ xs) ≡ none
    → (p x ≡ false) × (index_where p xs ≡ none)
unfolding index_where
index_where-cons p x xs h = ground arith

-- The public keys that are passed on are those of the entries.
pub metadata-keys :
    (c : Option Credentials) (rds : List RulesData)
    → index_where is_none (map (metadata_of c) rds) ≡ none
    → map (λ m. ReqMetadata.pub_key m) (somes (map (metadata_of c) rds))
      ≡ map (λ rd. RulesData.pub_key rd) rds
metadata-keys c [] h = refl
metadata-keys c (rd ∷ rds) h =
    let (now, rest) = index_where-cons is_none (metadata_of c rd) (map (metadata_of c) rds) h in
    elim (Option-cases (metadata_of c rd)) [
      | inl e ↦ absurd (ground arith)
      | inr (m, e) ↦
          rw (e, metadata-key c rd m e) (ap (λ l. rd.pub_key ∷ l) (metadata-keys c rds rest))
    ]
