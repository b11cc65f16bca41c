-- ===== src/Examples/Imports.antt =====
-- Slashing protection data, exported and imported.
use dirk.Rules.Interchange.{is_set}
use dirk.Words.{pos, negsuc}
use dirk.Rules.Env.{after_writes, found, value, key_not_found}
use dirk.Prelude.{sym, Bool}
use dirk.Go.{ok, err, ret, Bytes}
use dirk.Rules.State.{encode_attestation, AttestationState}
use dirk.Interchange.{Host, SlashingProtectionFile}
use dirk.Rules.Attestation.Watermark.{Covered, Attested, CoveredAt, CoveredAt-encode}
use dirk.Examples.Memory.{env, lawful}
use dirk.Interchange.Monotone.{store_slashing_protection-Covered}
use dirk.Interchange.RoundTrip.{protection_of-data_of}
use dirk.Rules.Interchange.Collected.{Listed, Has}
use dirk.Examples.Memory.{env, lawful}
use dirk.Rules.Attestation.{attestation_key}
use dirk.Rules.Storage.{view_item, read_item}
use dirk.Rules.Types.{SlashingProtection}
use dirk.Interchange.Collect.{ParsesInt64}
use dirk.Rules.State.{AttestationState, encode_attestation}
use dirk.Interchange.{
  SlashingProtectionAttestation, SlashingProtectionFile, Host, protection_of, data_of,
  store_slashing_protection,
}
use dirk.Rules.Attestation.Watermark.{Attested, Covered}
use dirk.Go.{Bytes, ok, ret}
use dirk.Prelude.{
  ◌≡◌, refl, sym, subst, Bool, none, some, List, [], ◌∷◌, arith, length, replicate, bytes_equal,
  bytes_equal_iff, if◌then◌else◌, str_eq,
}

one-get : (key v : Bytes) → env.get ((key, v) ∷ []) key ≡ found (value v)
one-get key v =
    subst
      (λ b.
        after_writes ((key, v) ∷ []) key key_not_found
        ≡ (if b then found (value v) else key_not_found))
      ((bytes_equal_iff key key).1 refl) (test-get (bytes_equal key key) refl)
  where
    test-get :
        (b : Bool)
        → bytes_equal key key ≡ b
        → after_writes ((key, v) ∷ []) key key_not_found
          ≡ (if bytes_equal key key then found (value v) else key_not_found)
    test-get b e = ground arith

one-reads :
    (key v k w : Bytes)
    → view_item (env.get ((key, v) ∷ []) k) ≡ ret (ok w)
    → Has k w ((key, value v) ∷ [])
unfolding view_item read_item
one-reads key v k w h = ground (arith, bytes_equal_iff key k)

one-Listed : (key v : Bytes) → length key ≡ 49 → Listed env ((key, v) ∷ [])
unfolding view_item read_item
one-Listed key v size = record {
  listed = one-reads key v;
  reads = (rw (one-get key v) refl, tt);
  keys = (size, tt);
}

abbrev key : Bytes
key = replicate 48 7

abbrev stored : AttestationState
stored = record { source_epoch = pos 2; target_epoch = pos 3 }

abbrev database : List (Bytes × Bytes)
database = (attestation_key key, encode_attestation (some stored)) ∷ []

abbrev host : Host
host = record {
  genesis_validators_root = "0x00";
  decode_hex = λ s. if str_eq s "0x07" then ok key else ok (replicate 32 0);
  encode_hex = λ bytes. "0x07";
  parse_int = λ s.
      if str_eq s "4"
      then ok (pos 4)
      else if str_eq s "-1"
      then ok (negsuc 0)
      else err "invalid syntax";
  show_int = λ z. if is_set z then "4" else "-1";
  init_rules = none;
}

host-ParsesInt64 : ParsesInt64 host
host-ParsesInt64 s z h = ground arith

abbrev attestation : SlashingProtectionAttestation
attestation = record { source_epoch = "4"; target_epoch = "4" }

abbrev file : SlashingProtectionFile
file = record {
  metadata = some (record { interchange_format_version = "5"; genesis_validators_root = "0x00" });
  entries =
      some (record {
        public_key = "0x07";
        signed_blocks = [];
        signed_attestations = some attestation ∷ [];
      })
      ∷ [];
}

abbrev held : Attested
held = record { pub_key = key; source = 2; target = 3 }

held-Covered : Covered env database held
held-Covered =
    subst (λ g. CoveredAt env g 2 3)
      (sym (one-get (attestation_key key) (encode_attestation (some stored))))
      (CoveredAt-encode env lawful stored 2 3 (ground arith) (ground arith))

key-size : length (attestation_key key) ≡ 49
unfolding attestation_key
key-size = refl

store_slashing_protection-Covered_example :
    Covered env (store_slashing_protection host env (some file) database).1 held
store_slashing_protection-Covered_example =
    store_slashing_protection-Covered host env database (some file) held host-ParsesInt64 lawful
      (one-Listed (attestation_key key) (encode_attestation (some stored)) key-size) refl
      held-Covered

abbrev protection : SlashingProtection
protection = record {
  pub_key = key;
  highest_proposed_slot = negsuc 0;
  highest_attested_source_epoch = pos 4;
  highest_attested_target_epoch = pos 4;
}

protection_of-data_of_example :
    protection_of host (data_of host protection)
    ≡ ret (ok (key, record protection { pub_key = [] }))
protection_of-data_of_example =
    protection_of-data_of host protection
      (record { hex = refl; slot = refl; source = refl; target = refl })
      (record { size = refl; slot = refl; source = refl; target = refl; both = λ e. cc })
