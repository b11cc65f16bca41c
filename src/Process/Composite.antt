-- ===== src/Process/Composite.antt =====
-- The composite signatures that are checked of a distributed key.
use dirk.Process.Env.{Services, Endpoint}
use dirk.Process.Generate.{check_composites, check_composite, deserialize_all}
use dirk.Prelude.{drop, map}
use dirk.Go.{ok, err, Result, Error, Bytes}
use dirk.Process.Contribution.{some_not_none}
use dirk.Process.Generate.{Requests, check_composites, deserialize_all, check_composite}
use dirk.Process.{bls_id}
use dirk.Prelude.{Bool, true, false, none, some, if◌then◌else◌}
use dirk.Prelude.{
  ℕ, zero, suc, ◌≡◌, inl, inr, refl, subst, Bool, true, false, Option, none, some, List, map, take,
  drop, Option-cases, if◌then◌else◌,
}

abbrev invalid : Option Error
invalid = some "invalid generation"

module _ (S : Services) (R : Requests S) where
  -- The composite signature of some participants verifies.
  pub record Combines (key : S.PublicKey) (confirmation : Bytes) (window : List (Endpoint × Bytes))
      : Type 0 where
    pub sigs : List R.Sign
    pub composite : R.Sign
    pub read : deserialize_all S R window ≡ ok sigs
    pub recovered : R.recover sigs (map (λ e. bls_id S e.0.id) window) ≡ ok composite
    pub verified : R.verify_byte composite key confirmation ≡ true

  -- So does that of each `threshold` participants that follow each other.
  abbrev pub AllCombine : ℕ → ℕ → S.PublicKey → Bytes → List (Endpoint × Bytes) → Type 0
  AllCombine zero threshold key confirmation sigs = Unit
  AllCombine (suc n) threshold key confirmation sigs =
      Combines key confirmation (take threshold sigs)
      × AllCombine n threshold key confirmation (drop 1 sigs)

  check_composite-Combines :
      (key : S.PublicKey) (confirmation : Bytes) (window : List (Endpoint × Bytes))
      → check_composite S R key confirmation window ≡ none
      → Combines key confirmation window
  unfolding check_composite
  check_composite-Combines key confirmation window h = from (deserialize_all S R window) refl h
    where
      ids : List S.ParticipantId
      ids = map (λ e. bls_id S e.0.id) window

      last :
          (sigs : List R.Sign) (composite : R.Sign) (b : Bool)
          → deserialize_all S R window ≡ ok sigs
          → R.recover sigs ids ≡ ok composite
          → R.verify_byte composite key confirmation ≡ b
          → (if b then none else invalid) ≡ none
          → Combines key confirmation window
      last sigs composite false read recovered verified q = cc
      last sigs composite true read recovered verified q = record {
        sigs = sigs;
        composite = composite;
        read = read;
        recovered = recovered;
        verified = verified;
      }

      middle :
          (sigs : List R.Sign) (r : Result R.Sign)
          → deserialize_all S R window ≡ ok sigs
          → R.recover sigs ids ≡ r
          → (elim r [
            | err e ↦ invalid
            | ok composite ↦ if R.verify_byte composite key confirmation then none else invalid
          ])
            ≡ none
          → Combines key confirmation window
      middle sigs (err e) read recovered q = cc
      middle sigs (ok composite) read recovered q =
          last sigs composite (R.verify_byte composite key confirmation) read recovered refl q

      from :
          (r : Result (List R.Sign))
          → deserialize_all S R window ≡ r
          → (elim r [
            | err e ↦ some e
            | ok sigs ↦ elim (R.recover sigs ids) [
              | err e ↦ invalid
              | ok composite ↦ if R.verify_byte composite key confirmation then none else invalid
            ]
          ])
            ≡ none
          → Combines key confirmation window
      from (err e) read q = cc
      from (ok sigs) read q = middle sigs (R.recover sigs ids) read refl q

  pub check_composites-AllCombine :
      (n threshold : ℕ) (key : S.PublicKey) (confirmation : Bytes) (sigs : List (Endpoint × Bytes))
      → check_composites S R n threshold key confirmation sigs ≡ none
      → AllCombine n threshold key confirmation sigs
  unfolding check_composites
  check_composites-AllCombine zero threshold key confirmation sigs h = tt
  check_composites-AllCombine (suc n) threshold key confirmation sigs h =
      elim (Option-cases (check_composite S R key confirmation (take threshold sigs))) [
        | inl good ↦ (
          check_composite-Combines key confirmation (take threshold sigs) good,
          check_composites-AllCombine n threshold key confirmation (drop 1 sigs) (rest none good),
        )
        | inr (e, bad) ↦ absurd (some_not_none (rest (some e) bad))
      ]
    where
      rest :
          (o : Option Error)
          → check_composite S R key confirmation (take threshold sigs) ≡ o
          → (elim o [
            | some e ↦ some e
            | none ↦ check_composites S R n threshold key confirmation (drop 1 sigs)
          ])
            ≡ none
      rest o q =
          subst
            (λ z.
              (elim z [
                | some e ↦ some e
                | none ↦ check_composites S R n threshold key confirmation (drop 1 sigs)
              ])
              ≡ none)
            q h
