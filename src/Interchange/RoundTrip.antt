-- ===== src/Interchange/RoundTrip.antt =====
-- An entry that is exported is read back by the import.
use dirk.Rules.Interchange.Collected.{take-append}
use dirk.Prelude.{refl, []}
use dirk.Go.{ok, ret}
use dirk.Rules.Interchange.{is_set, no_protection}
use dirk.Rules.Types.{SlashingProtection}
use dirk.Words.{ℤ, ltz, negsuc}
use dirk.Interchange.{Host, fold_attestations, fold_proposals, protection_of, max_of, data_of}
use dirk.Prelude.{◌≡◌, inl, inr, refl, false, arith, length, replicate, Bool-cases}

-- The documented behaviour of encoding/hex, strconv and fmt: what is printed of an entry is read
-- back.
pub record Prints (H : Host) (v : SlashingProtection) : Type 0 where
  pub hex : H.decode_hex (H.encode_hex v.pub_key) ≡ ok v.pub_key
  pub slot : H.parse_int (H.show_int v.highest_proposed_slot) ≡ ok v.highest_proposed_slot
  pub source :
      H.parse_int (H.show_int v.highest_attested_source_epoch) ≡ ok v.highest_attested_source_epoch
  pub target :
      H.parse_int (H.show_int v.highest_attested_target_epoch) ≡ ok v.highest_attested_target_epoch

-- A number that the rules store, or -1 for none.
abbrev pub IsStored : ℤ → Type 0
IsStored z = ltz z (negsuc 0) ≡ false

-- An entry that the rules export: 48 bytes, with a target if it has a source.
pub record IsExported (p : SlashingProtection) : Type 0 where
  pub size : length p.pub_key ≡ 48
  pub slot : IsStored p.highest_proposed_slot
  pub source : IsStored p.highest_attested_source_epoch
  pub target : IsStored p.highest_attested_target_epoch
  pub both : p.highest_attested_source_epoch ≡ negsuc 0 → p.highest_attested_target_epoch ≡ negsuc 0

max_of-stored : (z : ℤ) → ltz z (negsuc 0) ≡ false → max_of (negsuc 0) z ≡ z
max_of-stored z h = ground arith

is_set-false : (z : ℤ) → is_set z ≡ false → z ≡ negsuc 0
is_set-false z h = ground arith

abbrev start : SlashingProtection
start = no_protection []

-- The epochs of `v`, and no slot.
abbrev epochs_of : SlashingProtection → SlashingProtection
epochs_of v = record start {
  highest_attested_source_epoch = v.highest_attested_source_epoch;
  highest_attested_target_epoch = v.highest_attested_target_epoch;
}

module _ (H : Host) where
  fold_attestations-data_of :
      (v : SlashingProtection)
      → Prints H v
      → IsExported v
      → fold_attestations H (data_of H v).signed_attestations start ≡ ret (ok (epochs_of v))
  unfolding fold_attestations data_of
  fold_attestations-data_of v prints ex =
      elim (Bool-cases (is_set v.highest_attested_source_epoch)) [
        | inl given ↦
            rw
              (
                given,
                prints.source,
                prints.target,
                max_of-stored v.highest_attested_source_epoch ex.source,
                max_of-stored v.highest_attested_target_epoch ex.target,
              )
              refl
        | inr unset ↦
            let source = is_set-false v.highest_attested_source_epoch unset in
            rw (unset, source, ex.both source) refl
      ]

  fold_proposals-data_of :
      (v : SlashingProtection)
      → Prints H v
      → IsExported v
      → fold_proposals H (data_of H v).signed_blocks (epochs_of v)
        ≡ ret (ok (record v { pub_key = [] }))
  unfolding fold_proposals data_of
  fold_proposals-data_of v prints ex = elim (Bool-cases (is_set v.highest_proposed_slot)) [
    | inl given ↦ rw (given, prints.slot, max_of-stored v.highest_proposed_slot ex.slot) refl
    | inr unset ↦ rw (unset, is_set-false v.highest_proposed_slot unset) refl
  ]

  -- An entry of the exported protection, with a public key of 48 bytes and numbers that are at least
  -- -1, and no target without a source, is read back by the import as the same key and the same
  -- three numbers, if what the libraries print of it they read back.
  pub protection_of-data_of :
      (v : SlashingProtection)
      → Prints H v
      → IsExported v
      → protection_of H (data_of H v) ≡ ret (ok (v.pub_key, record v { pub_key = [] }))
  unfolding protection_of data_of
  protection_of-data_of v prints ex =
      rw
        (
          prints.hex,
          protection_of,
          fold_attestations-data_of v prints ex,
          fold_proposals-data_of v prints ex,
          take-append 48 v.pub_key (replicate 48 0) ex.size,
        )
        refl
