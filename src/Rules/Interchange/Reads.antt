-- ===== src/Rules/Interchange/Reads.antt =====
-- What the export reads: the entry of a public key holds the epochs that its key in the database
-- decodes to.
use dirk.Rules.Interchange.Collected.{
  lookup-insert_bytes, Holds, split_last, Listed, get_elem-append, read_item-value, take-append,
  fetch_items-lookup,
}
use dirk.Rules.Proposal.{zero_proposal}
use dirk.Rules.Attestation.{zero_attestation, attestation_key}
use dirk.Rules.Types.{SlashingProtection}
use dirk.Rules.State.{AttestationState, ProposalState, decode_attestation, decode_proposal}
use dirk.Rules.Storage.{view_item, read_item}
use dirk.Maps.{lookup, insert}
use dirk.Rules.Interchange.{
  export_slashing_protection, fetch_all, exported, export_entry, export_entries, export_kind,
  fetch_items, Items, Protections, with_attestation, with_proposal, entry_or_new, export_kind,
}
use dirk.Rules.Env.{Env, ItemRead, value}
use dirk.Go.{ret-inj, ◌>>=◌, pure, Go, panic, Result, Result-cases, err, Bytes, ret, ok, Error}
use dirk.Prelude.{
  All-map, ◌==◌, ◌∙◌, ℕ, ◌≡◌, ◌≢◌, ◌⊎◌, inl, inr, refl, sym, ap, subst, Option, none, some, List,
  [], ◌∷◌, arith, length, All, take, bytes_equal, bytes_equal_iff, Bool-cases, if◌then◌else◌,
  get_elem?, true, false,
}

abbrev pub Agrees : SlashingProtection → AttestationState → Type 0
Agrees p st =
    (p.highest_attested_source_epoch ≡ st.source_epoch)
    × (p.highest_attested_target_epoch ≡ st.target_epoch)

-- A public key's entry holds the epochs of a state.
pub record Holding (pk : Bytes) (st : AttestationState) (results : Protections) : Type 0 where
  pub entry : SlashingProtection
  pub here : lookup bytes_equal pk results ≡ some entry
  pub agrees : Agrees entry st

-- An entry that is put in, under the key or another.
insert-Holding :
    (pk key : Bytes) (st : AttestationState) (p : SlashingProtection) (m m' : Protections)
    → ok (insert bytes_equal key p m) ≡ ok m'
    → (key ≡ pk → Agrees p st)
    → (key ≢ pk → Holding pk st m)
    → Holding pk st m'
insert-Holding pk key st p m m' e here there =
    let same : insert bytes_equal key p m ≡ m' = cc in
    elim (Bool-cases (bytes_equal key pk)) [
      | inl at_it ↦ record {
        entry = p;
        here = rw (sym same, lookup-insert_bytes key pk p m, at_it) refl;
        agrees = here ((bytes_equal_iff key pk).0 at_it);
      }
      | inr elsewhere ↦
          let h = there (ground (arith, bytes_equal_iff key pk)) in
          record {
            entry = h.entry;
            here = rw (sym same, lookup-insert_bytes key pk p m, elsewhere) h.here;
            agrees = h.agrees;
          }
    ]

entry_or_new-some :
    (key : Bytes) (p : SlashingProtection) (m : Protections)
    → lookup bytes_equal key m ≡ some p
    → entry_or_new key m ≡ p
entry_or_new-some key p m h = ground arith

-- The proposal of any key keeps the epochs.
with_proposal-Holding :
    (pk key : Bytes) (st : AttestationState) (m m' : Protections) (r : Option Error × ProposalState)
    → with_proposal key m r ≡ ok m'
    → Holding pk st m
    → Holding pk st m'
with_proposal-Holding pk key st m m' (some x, state) e h = cc
with_proposal-Holding pk key st m m' (none, state) e h =
    insert-Holding pk key st (record (entry_or_new key m) { highest_proposed_slot = state.slot }) m
      m' e (λ same. rw (same, entry_or_new-some pk h.entry m h.here) h.agrees) (λ other. h)

-- The attestations of a key set its epochs, and keep those of another.
with_attestation-Holding :
    (pk key : Bytes) (st : AttestationState) (m m' : Protections)
    (r : Option Error × AttestationState)
    → with_attestation key m r ≡ ok m'
    → (key ≡ pk → r.1 ≡ st)
    → (key ≢ pk → Holding pk st m)
    → Holding pk st m'
with_attestation-Holding pk key st m m' (some x, state) e here there = cc
with_attestation-Holding pk key st m m' (none, state) e here there =
    insert-Holding pk key st
      (record (entry_or_new key m) {
        highest_attested_source_epoch = state.source_epoch;
        highest_attested_target_epoch = state.target_epoch;
      })
      m m' e (λ same. (ap (λ z. z.source_epoch) (here same), ap (λ z. z.target_epoch) (here same)))
      there

module _ (E : Env) where
  -- What a value decodes to.
  abbrev pub Decodes : Bytes → AttestationState → Type 0
  Decodes v st = decode_attestation E.gob_attestation v zero_attestation ≡ (none, st)

  -- One item: that of the public key sets its epochs, another keeps them.
  export_kind-Holding :
      (o : Option ℕ) (pk v key w : Bytes) (st : AttestationState) (m m' : Protections)
      → length pk ≡ 48
      → length key ≡ 49
      → get_elem? key 48 ≡ o
      → Decodes v st
      → (key ≡ attestation_key pk → w ≡ v)
      → (key ≢ attestation_key pk → Holding pk st m)
      → export_kind E o key w m ≡ ok m'
      → Holding pk st m'
  unfolding export_kind attestation_key
  export_kind-Holding none pk v key w st m m' hp hk last dec is_v other e = cc
  export_kind-Holding (some b) pk v key w st m m' hp hk last dec is_v other e =
      elim (Bool-cases (b == 2)) [
        | inl two ↦
            with_attestation-Holding pk (take 48 key) st m m'
              (decode_attestation E.gob_attestation w zero_attestation) (ground arith)
              (λ same. ap (λ r. r.1) (subst (λ z. Decodes z st) (sym (is_v (whole same two))) dec))
              (λ differ. other (λ z. differ (ap (take 48) z ∙ take-append 48 pk (2 ∷ []) hp)))
        | inr not_two ↦ elim (Bool-cases (b == 3)) [
          | inl three ↦
              with_proposal-Holding pk (take 48 key) st m m'
                (decode_proposal E.gob_proposal w zero_proposal) (ground arith)
                (other (λ z. absurd (not_byte_two not_two (is_two z))))
          | inr neither ↦ absurd (ground arith)
        ]
      ]
    where
      whole : take 48 key ≡ pk → (b == 2) ≡ true → key ≡ attestation_key pk
      whole same two =
          let b2 : b ≡ 2 = ground arith in split_last 48 b key hk last ∙ rw (same, b2) refl

      is_two : key ≡ attestation_key pk → b ≡ 2
      is_two z =
          let two : some 2 ≡ some b =
            sym (ap (λ j. get_elem? j 48) z ∙ get_elem-append 48 2 pk hp) ∙ last in
          cc

      not_byte_two : (b == 2) ≡ false → b ≢ 2
      not_byte_two h e = ground arith

  export_entries-Holding :
      (pk v : Bytes) (st : AttestationState) (items : Items) (m m' : Protections)
      → length pk ≡ 48
      → Decodes v st
      → Holds (attestation_key pk) v items
      → (lookup bytes_equal (attestation_key pk) items ≡ some v) ⊎ Holding pk st m
      → export_entries E items m ≡ ok m'
      → Holding pk st m'
  unfolding export_entries
  export_entries-Holding pk v st [] m m' hp dec hs (inl never) e = cc
  export_entries-Holding pk v st [] m m' hp dec hs (inr h) e =
      let same : m ≡ m' = cc in subst (λ z. Holding pk st z) same h
  export_entries-Holding pk v st ((key, w) ∷ items) m m' hp dec hs h e =
      elim (Result-cases (export_entry E key w m)) [
        | inl (m1, done) ↦
            export_entries-Holding pk v st items m1 m' hp dec hs.1 (later m1 done)
              (after (ok m1) done)
        | inr (x, failed) ↦ absurd (never (after (err x) failed))
      ]
    where
      after :
          (r : Result Protections)
          → export_entry E key w m ≡ r
          → (elim r [ err x ↦ err x | ok n ↦ export_entries E items n ]) ≡ ok m'
      after r q =
          subst (λ z. (elim z [ err x ↦ err x | ok n ↦ export_entries E items n ]) ≡ ok m') q e

      never : {x : Error} → err x ≡ ok m' → ⊥
      never q = cc

      step :
          (m1 : Protections)
          → export_entry E key w m ≡ ok m1
          → (key ≢ attestation_key pk → Holding pk st m)
          → Holding pk st m1
      step m1 done other =
          export_kind-Holding (get_elem? key 48) pk v key w st m m1 hp hs.0.0 refl dec hs.0.1 other
            done

      later :
          (m1 : Protections)
          → export_entry E key w m ≡ ok m1
          → (lookup bytes_equal (attestation_key pk) items ≡ some v) ⊎ Holding pk st m1
      later m1 done = elim (Bool-cases (bytes_equal key (attestation_key pk))) [
        | inl same ↦ inr (
            step m1 done
              (λ other. absurd (other ((bytes_equal_iff key (attestation_key pk)).0 same))))
        | inr differ ↦ elim h [
          | inl there ↦ inl (
              subst
                (λ b.
                  (if b then some w else lookup bytes_equal (attestation_key pk) items) ≡ some v)
                differ there)
          | inr held ↦ inr (step m1 done (λ other. held))
        ]
      ]

  -- What is exported of a public key is what its key in the database decodes to.
  pub export-Holding :
      (d : E.Db) (pk v : Bytes) (st : AttestationState) (m : Protections)
      → Listed E d
      → length pk ≡ 48
      → view_item (E.get d (attestation_key pk)) ≡ ret (ok v)
      → Decodes v st
      → (export_slashing_protection E d).0 ≡ ret (ok m)
      → Holding pk st m
  unfolding export_slashing_protection fetch_all
  export-Holding d pk v st m L hp there dec e = from (fetch_items (E.iterate d) []) refl e
    where
      agreeing :
          (l : List (Bytes × ItemRead))
          → All (λ x. view_item (E.get d x.0) ≡ read_item x.1) l
          → All (λ x. x.0 ≡ attestation_key pk → x.1 ≡ value v) l
      agreeing l h =
          All-map (λ x. view_item (E.get d x.0) ≡ read_item x.1)
            (λ x. x.0 ≡ attestation_key pk → x.1 ≡ value v) l
            (λ x same is_key.
              read_item-value x.1 v
                (sym same ∙ subst (λ k. view_item (E.get d k) ≡ ret (ok v)) (sym is_key) there))
            h

      from :
          (r : Go (Result Items))
          → fetch_items (E.iterate d) [] ≡ r
          → (((λ s. (r, s)) >>= λ a. pure (exported E a)) d).0 ≡ ret (ok m)
          → Holding pk st m
      from panic q h = cc
      from (ret (err x)) q h = cc
      from (ret (ok items)) q h =
          let (found_it, held) =
            fetch_items-lookup (attestation_key pk) v (E.iterate d) [] items L.keys
              (agreeing (E.iterate d) L.reads) (inr (L.listed (attestation_key pk) v there)) tt q in
          export_entries-Holding pk v st items [] m hp dec held (inl found_it) (ret-inj h)
