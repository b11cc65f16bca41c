-- ===== src/Interchange/Collect.antt =====
-- The entries that the import collects: none is lower than the existing one.
use dirk.Maps.{lookup, All-insert}
use dirk.Interchange.Writes.{Raises}
use dirk.Rules.Interchange.{no_protection, Protections}
use dirk.Go.{Go, panic}
use dirk.Prelude.{Option-cases, Bool-cases, All}
use dirk.Rules.Interchange.Reads.{Agrees, Holding}
use dirk.Rules.State.{AttestationState}
use dirk.Rules.Attestation.Watermark.{Attested, Above}
use dirk.Words.{ℤ, IsInt64, lez, AtLeast}
use dirk.Interchange.{
  Host, fold_proposals, protection_of, fold_attestations, SlashingProtectionProposal,
  SlashingProtectionData, max_of, and_then, SlashingProtectionAttestation, collect, add_if_newer,
  existing_covers, to_bytes48,
}
use dirk.Rules.Types.{SlashingProtection}
use dirk.Go.{Go, Go, ok, Result, Bytes, ret, err, Result-cases}
use dirk.Prelude.{
  ℕ, ◌≡◌, ◌≢◌, inl, inr, sym, ◌∙◌, subst, Bool, true, ◌&&◌, Option, none, some, List, [], ◌∷◌,
  arith, All, bytes_equal, Bool-cases, Option-cases, String,
}

-- strconv.ParseInt(s, 10, 64) gives an int64.
abbrev pub ParsesInt64 : Host → Type 0
ParsesInt64 H = (s : String) (z : ℤ) → H.parse_int s ≡ ok z → IsInt64 z

lez-AtLeast : (a b : ℤ) (n : ℕ) → lez a b ≡ true → AtLeast a n → AtLeast b n
lez-AtLeast a b n h l = ground arith

max_of-IsInt64 : (a b : ℤ) → IsInt64 a → IsInt64 b → IsInt64 (max_of a b)
max_of-IsInt64 a b h h' = ground arith

-- The epochs of an entry are int64.
abbrev InRange : SlashingProtection → Type 0
InRange p = IsInt64 p.highest_attested_source_epoch × IsInt64 p.highest_attested_target_epoch

-- Of a call that returns a value, that satisfies the predicate.
abbrev pub Gives : {A : Type 0} → (A → Type 0) → Go (Result A) → Type 0
Gives P panic = Unit
Gives P (ret (err e)) = Unit
Gives P (ret (ok a)) = P a

Gives-and_then :
    {A B : Type 0} (P : A → Type 0) (Q : B → Type 0) (r : Go (Result A)) (next : A → Go (Result B))
    → Gives P r
    → ((a : A) → P a → Gives Q (next a))
    → Gives Q (and_then r next)
Gives-and_then P Q panic next h f = tt
Gives-and_then P Q (ret (err e)) next h f = tt
Gives-and_then P Q (ret (ok a)) next h f = f a h

both : (a b c : Bool) → (a && b && c) ≡ true → (a ≡ true) × (b ≡ true)
both a b c h = ground arith

-- An entry that the loop adds does not lower the existing one.
existing_covers-Above :
    (old new : SlashingProtection) (st : AttestationState) (s t : ℕ)
    → Agrees old st
    → Above st s t
    → existing_covers old new ≡ true
    → AtLeast new.highest_attested_source_epoch s × AtLeast new.highest_attested_target_epoch t
existing_covers-Above old new st s t agrees above h =
    let (source, rest) =
      both (lez old.highest_attested_source_epoch new.highest_attested_source_epoch)
        (lez old.highest_attested_target_epoch new.highest_attested_target_epoch)
        (lez old.highest_proposed_slot new.highest_proposed_slot) h in
    (
      lez-AtLeast old.highest_attested_source_epoch new.highest_attested_source_epoch s source
          (subst (λ z. AtLeast z s) (sym agrees.0) above.0),
      lez-AtLeast old.highest_attested_target_epoch new.highest_attested_target_epoch t rest
          (subst (λ z. AtLeast z t) (sym agrees.1) above.1),
    )

never : {p : SlashingProtection} → none ≢ some p
never h = cc

some-inj : {p q : SlashingProtection} → some p ≡ some q → p ≡ q
some-inj h = cc

add_if_newer-Raises :
    (existing : Protections) (st : AttestationState) (x : Attested) (key : Bytes)
    (new : SlashingProtection) (acc : Protections)
    → Holding x.pub_key st existing
    → Above st x.source x.target
    → InRange new
    → All (Raises x) acc
    → All (Raises x) (add_if_newer existing key new acc)
unfolding add_if_newer
add_if_newer-Raises existing st x key new acc held above range h =
    elim (Option-cases (lookup bytes_equal key existing)) [
      | inl missing ↦
          rw (missing, add_if_newer)
            (All-insert bytes_equal (Raises x) key new acc
              (λ same. absurd (
                never (
                  sym (subst (λ k. lookup bytes_equal k existing ≡ none) same missing)
                  ∙ held.here)))
              h)
      | inr (old, there) ↦ elim (Bool-cases (existing_covers old new)) [
        | inl newer ↦
            rw (there, newer, add_if_newer)
              (All-insert bytes_equal (Raises x) key new acc
                (λ same.
                  let e : some held.entry ≡ some old =
                    sym held.here
                    ∙ subst (λ k. lookup bytes_equal k existing ≡ some old) same there in
                  let (s, t) =
                    existing_covers-Above held.entry new st x.source x.target held.agrees above
                      (subst (λ o. existing_covers o new ≡ true) (sym (some-inj e)) newer) in
                  (s, t, range.0, range.1))
                h)
        | inr other ↦ rw (there, other, add_if_newer) h
      ]
    ]

module _ (H : Host) (parses : ParsesInt64 H) where
  fold_attestations-InRange :
      (l : List (Option SlashingProtectionAttestation)) (p : SlashingProtection)
      → InRange p
      → Gives InRange (fold_attestations H l p)
  unfolding fold_attestations
  fold_attestations-InRange [] p h = h
  fold_attestations-InRange (none ∷ l) p h = tt
  fold_attestations-InRange (some a ∷ l) p h = elim (Result-cases (H.parse_int a.source_epoch)) [
    | inr (x, e) ↦ rw (e, fold_attestations) tt
    | inl (s, e) ↦ elim (Result-cases (H.parse_int a.target_epoch)) [
      | inr (x, e') ↦ rw (e, e', fold_attestations) tt
      | inl (t, e') ↦
          rw (e, e', fold_attestations)
            (fold_attestations-InRange l
              (record p {
                highest_attested_source_epoch = max_of p.highest_attested_source_epoch s;
                highest_attested_target_epoch = max_of p.highest_attested_target_epoch t;
              })
              (
                max_of-IsInt64 p.highest_attested_source_epoch s h.0 (parses a.source_epoch s e),
                max_of-IsInt64 p.highest_attested_target_epoch t h.1 (parses a.target_epoch t e'),
              ))
    ]
  ]

  fold_proposals-InRange :
      (l : List (Option SlashingProtectionProposal)) (p : SlashingProtection)
      → InRange p
      → Gives InRange (fold_proposals H l p)
  unfolding fold_proposals
  fold_proposals-InRange [] p h = h
  fold_proposals-InRange (none ∷ l) p h = tt
  fold_proposals-InRange (some b ∷ l) p h = elim (Result-cases (H.parse_int b.slot)) [
    | inr (x, e) ↦ rw (e, fold_proposals) tt
    | inl (n, e) ↦
        rw (e, fold_proposals)
          (fold_proposals-InRange l
            (record p { highest_proposed_slot = max_of p.highest_proposed_slot n }) h)
  ]

  protection_of-InRange :
      (entry : SlashingProtectionData) → Gives (λ (key, p). InRange p) (protection_of H entry)
  unfolding protection_of
  protection_of-InRange entry = elim (Result-cases (H.decode_hex entry.public_key)) [
    | inl (bytes, e) ↦
        rw (e, protection_of)
          (Gives-and_then InRange (λ (key, p). InRange p)
            (fold_attestations H entry.signed_attestations (no_protection []))
            (λ p.
              and_then (fold_proposals H entry.signed_blocks p)
                (λ q. ret (ok (to_bytes48 bytes, q))))
            (fold_attestations-InRange entry.signed_attestations (no_protection [])
              (omega arith, omega arith))
            (λ p h.
              Gives-and_then InRange (λ (key, q). InRange q)
                (fold_proposals H entry.signed_blocks p) (λ q. ret (ok (to_bytes48 bytes, q)))
                (fold_proposals-InRange entry.signed_blocks p h) (λ q hq. hq)))
    | inr (x, e) ↦ rw (e, protection_of) tt
  ]

  -- The loop over the entries: each that it keeps is one that the existing entry does not exceed.
  pub collect-Raises :
      (existing : Protections) (st : AttestationState) (x : Attested)
      → Holding x.pub_key st existing
      → Above st x.source x.target
      → (l : List (Option SlashingProtectionData)) (acc : Protections) → All (Raises x) acc
      → Gives (All (Raises x)) (collect H existing l acc)
  unfolding collect
  collect-Raises existing st x held above [] acc h = h
  collect-Raises existing st x held above (none ∷ l) acc h = tt
  collect-Raises existing st x held above (some entry ∷ l) acc h =
      Gives-and_then (λ (key, p). InRange p) (All (Raises x)) (protection_of H entry)
        (λ (key, new). collect H existing l (add_if_newer existing key new acc))
        (protection_of-InRange entry)
        (λ (key, new) range.
          collect-Raises existing st x held above l (add_if_newer existing key new acc)
            (add_if_newer-Raises existing st x key new acc held above range h))
