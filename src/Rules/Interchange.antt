-- ===== src/Rules/Interchange.antt =====
-- rules/standard: slashingprotection.go, and FetchAll of storage.go.
pub mod Collected
pub mod Reads
use dirk.Prelude.{
  zero, suc, Bool, true, false, Option, none, some, List, [], ◌∷◌, ◌++◌, take, replicate,
  bytes_equal, ◌==◌, if◌then◌else◌, get_elem?, ℕ,
}
use dirk.Go.{ok, err, Result, Error, Bytes, Run, Go, pure, ◌>>=◌, ret, panic}
use dirk.Words.{ℤ, pos, negsuc}
use dirk.Maps.{lookup, insert}
use dirk.Rules.Types.{SlashingProtection}
use dirk.Rules.Env.{ItemRead, value, read_error, read_panic, Env}
use dirk.Rules.State.{
  AttestationState, ProposalState, encode_attestation, decode_attestation, encode_proposal,
  decode_proposal,
}
use dirk.Rules.Attestation.{attestation_key, zero_attestation}
use dirk.Rules.Proposal.{proposal_key, zero_proposal}
use dirk.Rules.Storage.{store}

abbrev pub Items : Type 0
Items = List (Bytes × Bytes)

-- From a public key's [48]byte.
abbrev pub Protections : Type 0
Protections = List (Bytes × SlashingProtection)

-- `copy` into a [49]byte, and of one into a [48]byte.
abbrev pub to_bytes49 : Bytes → Bytes
to_bytes49 k = take 49 (k ++ replicate 49 0)

-- The iterator's loop.
unfoldable pub fetch_items : List (Bytes × ItemRead) → Items → Go (Result Items)
fetch_items [] items = ret (ok items)
fetch_items ((k, value v) ∷ rest) items =
    fetch_items rest (insert bytes_equal (to_bytes49 k) v items)
fetch_items ((k, read_error e) ∷ rest) items = ret (err e)
fetch_items ((k, read_panic) ∷ rest) items = panic

abbrev pub no_protection : Bytes → SlashingProtection
no_protection key = record {
  pub_key = key;
  highest_proposed_slot = negsuc 0;
  highest_attested_source_epoch = negsuc 0;
  highest_attested_target_epoch = negsuc 0;
}

-- `results[pubKey]`, made if it is not there.
abbrev pub entry_or_new : Bytes → Protections → SlashingProtection
entry_or_new key results = elim (lookup bytes_equal key results) [
  | none ↦ no_protection key
  | some p ↦ p
]

-- z != -1
abbrev pub is_set : ℤ → Bool
is_set (negsuc zero) = false
is_set (negsuc (suc n)) = true
is_set (pos n) = true

abbrev with_attestation : Bytes → Protections → Option Error × AttestationState → Result Protections
with_attestation key results (some e, state) = err e
with_attestation key results (none, state) = ok (
    insert bytes_equal key
      (record (entry_or_new key results) {
        highest_attested_source_epoch = state.source_epoch;
        highest_attested_target_epoch = state.target_epoch;
      })
      results)

abbrev with_proposal : Bytes → Protections → Option Error × ProposalState → Result Protections
with_proposal key results (some e, state) = err e
with_proposal key results (none, state) = ok (
    insert bytes_equal key
      (record (entry_or_new key results) { highest_proposed_slot = state.slot }) results)

module _ (E : Env) where
  unfoldable pub fetch_all : Run E.Db (Result Items)
  fetch_all d = (fetch_items (E.iterate d) [], d)

  -- One round of the loop of ExportSlashingProtection, by the key's last byte.
  unfoldable pub export_kind : Option ℕ → Bytes → Bytes → Protections → Result Protections
  export_kind none key val results = err "unknown byte"
  export_kind (some b) key val results =
      if b == 2
      then with_attestation (take 48 key) results
          (decode_attestation E.gob_attestation val zero_attestation)
      else if b == 3
      then with_proposal (take 48 key) results (decode_proposal E.gob_proposal val zero_proposal)
      else err "unknown byte"

  abbrev pub export_entry : Bytes → Bytes → Protections → Result Protections
  export_entry key val results = export_kind (get_elem? key 48) key val results

  unfoldable pub export_entries : Items → Protections → Result Protections
  export_entries [] results = ok results
  export_entries ((key, val) ∷ rest) results = elim (export_entry key val results) [
    | err e ↦ err e
    | ok results' ↦ export_entries rest results'
  ]

  abbrev pub exported : Result Items → Result Protections
  exported (err e) = err e
  exported (ok items) = export_entries items []

  unfoldable pub export_slashing_protection : Run E.Db (Result Protections)
  export_slashing_protection = fetch_all >>= λ r. pure (exported r)

  unfoldable pub import_proposal : Bytes → SlashingProtection → Run E.Db (Option Error)
  import_proposal key v =
      if is_set v.highest_proposed_slot
      then store E (proposal_key key)
          (encode_proposal (some (record { slot = v.highest_proposed_slot })))
      else pure none

  unfoldable pub import_attestation : Bytes → SlashingProtection → Run E.Db (Option Error)
  import_attestation key v =
      if is_set v.highest_attested_source_epoch
      then store E (attestation_key key) (
          encode_attestation (
            some (record {
              source_epoch = v.highest_attested_source_epoch;
              target_epoch = v.highest_attested_target_epoch;
            })))
      else pure none

  -- An error ends the loop.
  abbrev pub unless_error : Option Error → Run E.Db (Option Error) → Run E.Db (Option Error)
  unless_error none next = next
  unless_error (some e) next = pure (some e)

  unfoldable pub import_slashing_protection : Protections → Run E.Db (Option Error)
  import_slashing_protection [] = pure none
  import_slashing_protection ((key, v) ∷ rest) = import_proposal key v >>= λ e.
      unless_error e
        (import_attestation key v >>= λ e'. unless_error e' (import_slashing_protection rest))
