-- ===== src/Interchange.antt =====
-- slashingprotection.go: the export of the slashing protection data to the interchange format, and
-- its import. A nil pointer of the file is `none`; the warning on standard output is left out.
pub mod Writes
pub mod Collect
pub mod Monotone
pub mod RoundTrip
use dirk.Maps.{lookup, insert}
use dirk.Rules.Interchange.{
  Protections, is_set, export_slashing_protection, import_slashing_protection, no_protection,
}
use dirk.Words.{ℤ, ltz, lez}
use dirk.Rules.Env.{Env}
use dirk.Go.{Bytes, Go, Result, Run, Error, ret, err, ok, pure, panic, ◌>>=◌}
use dirk.Rules.Types.{SlashingProtection}
use dirk.Prelude.{
  Bool, not, ◌&&◌, Option, none, some, List, [], ◌∷◌, ◌++◌, map, length, take, replicate,
  bytes_equal, ◌==◌, if◌then◌else◌, String, str_eq,
}

-- Each of the file's structs; the pointers in a list may be nil.
pub record SlashingProtectionMetadata : Type 0 where
  pub interchange_format_version : String
  pub genesis_validators_root : String

pub record SlashingProtectionProposal : Type 0 where
  pub slot : String

pub record SlashingProtectionAttestation : Type 0 where
  pub source_epoch : String
  pub target_epoch : String

pub record SlashingProtectionData : Type 0 where
  pub public_key : String
  pub signed_blocks : List (Option SlashingProtectionProposal)
  pub signed_attestations : List (Option SlashingProtectionAttestation)

pub record SlashingProtectionFile : Type 0 where
  pub metadata : Option SlashingProtectionMetadata
  pub entries : List (Option SlashingProtectionData)

-- The configuration and the functions of Go's library that the two commands use.
pub record Host : Type 0 where
  -- viper.GetString("genesis-validators-root")
  pub genesis_validators_root : String
  -- hex.DecodeString(strings.TrimPrefix(s, "0x"))
  pub decode_hex : String → Result Bytes
  -- fmt.Sprintf("%#x", bytes)
  pub encode_hex : Bytes → String
  -- strconv.ParseInt(s, 10, 64)
  pub parse_int : String → Result ℤ
  -- fmt.Sprintf("%d", n)
  pub show_int : ℤ → String
  -- the error of `initRules`, if it has one
  pub init_rules : Option Error

-- `if n > max { max = n }`
abbrev pub max_of : ℤ → ℤ → ℤ
max_of max n = if ltz max n then n else max

abbrev pub existing_covers : SlashingProtection → SlashingProtection → Bool
existing_covers old new =
    lez old.highest_attested_source_epoch new.highest_attested_source_epoch
    && lez old.highest_attested_target_epoch new.highest_attested_target_epoch
    && lez old.highest_proposed_slot new.highest_proposed_slot

-- The test of an entry against the existing protection, and the write to `protectionMap`.
unfoldable pub add_if_newer : Protections → Bytes → SlashingProtection → Protections → Protections
add_if_newer existing key new acc = elim (lookup bytes_equal key existing) [
  | none ↦ insert bytes_equal key new acc
  | some old ↦ if existing_covers old new then insert bytes_equal key new acc else acc
]

-- `copy` into a [48]byte.
abbrev pub to_bytes48 : Bytes → Bytes
to_bytes48 k = take 48 (k ++ replicate 48 0)

abbrev pub fallible : {A B : Type 0} → Result A → (A → Go (Result B)) → Go (Result B)
fallible (err e) next = ret (err e)
fallible (ok a) next = next a

abbrev pub and_then : {A B : Type 0} → Go (Result A) → (A → Go (Result B)) → Go (Result B)
and_then panic next = panic
and_then (ret r) next = fallible r next

module _ (H : Host) where
  -- The loop over the attestations of an entry.
  unfoldable pub fold_attestations :
      List (Option SlashingProtectionAttestation)
      → SlashingProtection
      → Go (Result SlashingProtection)
  fold_attestations [] p = ret (ok p)
  fold_attestations (none ∷ rest) p = panic
  fold_attestations (some a ∷ rest) p = elim (H.parse_int a.source_epoch) [
    | err e ↦ ret (err "invalid attestation source epoch")
    | ok source ↦ elim (H.parse_int a.target_epoch) [
      | err e ↦ ret (err "invalid attestation target epoch")
      | ok target ↦ fold_attestations rest (record p {
        highest_attested_source_epoch = max_of p.highest_attested_source_epoch source;
        highest_attested_target_epoch = max_of p.highest_attested_target_epoch target;
      })
    ]
  ]

  unfoldable pub fold_proposals :
      List (Option SlashingProtectionProposal) → SlashingProtection → Go (Result SlashingProtection)
  fold_proposals [] p = ret (ok p)
  fold_proposals (none ∷ rest) p = panic
  fold_proposals (some b ∷ rest) p = elim (H.parse_int b.slot) [
    | err e ↦ ret (err "invalid proposal slot")
    | ok slot ↦
        fold_proposals rest
          (record p { highest_proposed_slot = max_of p.highest_proposed_slot slot })
  ]

  -- An entry of the file: its key, and the highest numbers in it. The code leaves the public key
  -- of `keyProtection` empty.
  unfoldable pub protection_of : SlashingProtectionData → Go (Result (Bytes × SlashingProtection))
  protection_of entry = elim (H.decode_hex entry.public_key) [
    | err e ↦ ret (err "failed to decode public key")
    | ok bytes ↦
        and_then (fold_attestations entry.signed_attestations (no_protection [])) (λ p.
          and_then (fold_proposals entry.signed_blocks p) (λ q. ret (ok (to_bytes48 bytes, q))))
  ]

  -- The loop over the file's entries.
  unfoldable pub collect :
      Protections → List (Option SlashingProtectionData) → Protections → Go (Result Protections)
  collect existing [] acc = ret (ok acc)
  collect existing (none ∷ rest) acc = panic
  collect existing (some entry ∷ rest) acc =
      and_then (protection_of entry)
        (λ (key, new). collect existing rest (add_if_newer existing key new acc))

  -- The checks of `genesis-validators-root`, which the two commands begin with.
  unfoldable pub check_root : String → Result Bytes
  check_root missing =
      if str_eq H.genesis_validators_root ""
      then err missing
      else elim (H.decode_hex H.genesis_validators_root) [
        | err e ↦ err "genesis-validators-root is invalid"
        | ok root ↦
            if length root == 32 then ok root else err "genesis-validators-root must be 32 bytes"
      ]

  unfoldable pub check_metadata : Option SlashingProtectionFile → Result SlashingProtectionFile
  check_metadata none = err "slashing protection missing"
  check_metadata (some file) = elim file.metadata [
    | none ↦ err "no metadata in file"
    | some metadata ↦
        if not (str_eq metadata.interchange_format_version "5")
        then err "interchange format incorrect"
        else elim (check_root "genesis-validators-root is required for import") [
          | err e ↦ err e
          | ok root ↦
              if str_eq H.genesis_validators_root metadata.genesis_validators_root
              then ok file
              else err "genesis validators root incorrect"
        ]
  ]

  module _ (E : Env) where
    unfoldable pub import_collected : Go (Result Protections) → Run E.Db (Option Error)
    import_collected panic d = (panic, d)
    import_collected (ret (err e)) d = (ret (some e), d)
    import_collected (ret (ok m)) d = import_slashing_protection E m d

    unfoldable pub import_beside :
        List (Option SlashingProtectionData) → Result Protections → Run E.Db (Option Error)
    import_beside entries (err e) = pure (some "failed to obtain existing protection")
    import_beside entries (ok existing) = import_collected (collect existing entries [])

    -- With the error of `initRules`, then with the result of the checks.
    unfoldable pub store_opened :
        List (Option SlashingProtectionData) → Option Error → Run E.Db (Option Error)
    store_opened entries (some e) = pure (some "failed to set up rules")
    store_opened entries none = export_slashing_protection E >>= import_beside entries

    unfoldable pub store_checked_file : Result SlashingProtectionFile → Run E.Db (Option Error)
    store_checked_file (err e) = pure (some e)
    store_checked_file (ok file) = store_opened file.entries H.init_rules

    abbrev pub store_slashing_protection : Option SlashingProtectionFile → Run E.Db (Option Error)
    store_slashing_protection file = store_checked_file (check_metadata file)

  -- An exported entry in the format of the file.
  unfoldable pub data_of : SlashingProtection → SlashingProtectionData
  data_of v = record {
    public_key = H.encode_hex v.pub_key;
    signed_blocks =
        (if is_set v.highest_proposed_slot
          then some (record { slot = H.show_int v.highest_proposed_slot }) ∷ []
          else []);
    signed_attestations =
        (if is_set v.highest_attested_source_epoch
          then some (record {
            source_epoch = H.show_int v.highest_attested_source_epoch;
            target_epoch = H.show_int v.highest_attested_target_epoch;
          })
            ∷ []
          else []);
  }

  unfoldable pub file_of : Bytes → Protections → SlashingProtectionFile
  file_of root protection = record {
    metadata =
        some (record {
          interchange_format_version = "5";
          genesis_validators_root = H.encode_hex root;
        });
    entries = map (λ (key, v). some (data_of v)) protection;
  }

  module _ (E : Env) where
    unfoldable pub fetch_slashing_protection : Run E.Db (Result SlashingProtectionFile)
    fetch_slashing_protection d =
        elim (check_root "genesis-validators-root is required for export") [
          | err e ↦ (ret (err e), d)
          | ok root ↦ elim H.init_rules [
            | some e ↦ (ret (err "failed to set up rules"), d)
            | none ↦
                (export_slashing_protection E >>= λ r. pure (elim r [
                  | err e ↦ err "failed to obtain slashing protection"
                  | ok protection ↦ ok (file_of root protection)
                ]))
                  d
          ]
        ]
