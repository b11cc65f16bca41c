-- ===== src/Interchange/Monotone.antt =====
-- The import never lowers the epochs that the database holds of a public key.
use dirk.Interchange.Collect.{Gives, ParsesInt64, collect-Raises}
use dirk.Rules.Attestation.Stored.{StoredAt, CoveredAt-StoredAt}
use dirk.Rules.Interchange.{export_slashing_protection, fetch_all, exported}
use dirk.Rules.Interchange.Collected.{Listed}
use dirk.Interchange.Writes.{Raises, import-Covered}
use dirk.Rules.Interchange.{Protections}
use dirk.Go.{Go, Preserves, Preserves-bind, ◌>>=◌, pure, panic, Error}
use dirk.Prelude.{refl, All, length}
use dirk.Rules.Interchange.Reads.{export-Holding}
use dirk.Rules.Attestation.{attestation_key}
use dirk.Rules.Attestation.Watermark.{Attested, Covered}
use dirk.Interchange.{
  check_metadata, store_checked_file, store_opened, import_beside, import_collected, Host,
  SlashingProtectionData, collect, store_slashing_protection, SlashingProtectionFile,
}
use dirk.Rules.Env.{Env, Lawful}
use dirk.Go.{Go, Preserves, Preserves-bind, ◌>>=◌, pure, Go, ok, Result, ret, err}
use dirk.Prelude.{refl, ◌≡◌, sym, subst, Option, none, some, List, [], All}

module _ (H : Host) (E : Env) (L : Lawful E) (x : Attested) where
  import_collected-Covered :
      (r : Go (Result Protections))
      → Gives (All (Raises x)) r
      → Preserves (λ d. Covered E d x) (import_collected H E r)
  unfolding import_collected
  import_collected-Covered panic h d c = c
  import_collected-Covered (ret (err e)) h d c = c
  import_collected-Covered (ret (ok m)) h d c = import-Covered E L m x h d c

  export_keeps : (d : E.Db) → (export_slashing_protection E d).1 ≡ d
  unfolding export_slashing_protection fetch_all
  export_keeps d =
      Preserves-bind (λ s. s ≡ d) (fetch_all E) (λ r. pure (exported E r)) (λ s h. h) (λ r s h. h) d
        refl

  beside-Covered :
      (entries : List (Option SlashingProtectionData)) (d : E.Db)
      → ParsesInt64 H
      → Listed E d
      → length x.pub_key ≡ 48
      → Covered E d x
      → Covered E ((export_slashing_protection E >>= import_beside H E entries) d).1 x
  unfolding import_beside
  beside-Covered entries d parses listed size c =
      after (export_slashing_protection E d).0 refl (export_slashing_protection E d).1
        (subst (λ s. Covered E s x) (sym (export_keeps d)) c)
    where
      there : StoredAt E (E.get d (attestation_key x.pub_key)) x.source x.target
      there = CoveredAt-StoredAt E (E.get d (attestation_key x.pub_key)) x.source x.target c

      after :
          (r : Go (Result Protections))
          → (export_slashing_protection E d).0 ≡ r
          → (s : E.Db) → Covered E s x
          → Covered E (((λ t. (r, s)) >>= import_beside H E entries) d).1 x
      after panic q s h = h
      after (ret (err e)) q s h = h
      after (ret (ok m)) q s h =
          import_collected-Covered (collect H m entries [])
            (collect-Raises H parses m there.state x
              (export-Holding E d x.pub_key there.bytes there.state m listed size there.reads
                there.decodes q)
              there.above entries [] tt)
            s h

  opened-Covered :
      (o : Option Error) (entries : List (Option SlashingProtectionData)) (d : E.Db)
      → ParsesInt64 H
      → Listed E d
      → length x.pub_key ≡ 48
      → Covered E d x
      → Covered E (store_opened H E entries o d).1 x
  unfolding store_opened
  opened-Covered (some e) entries d parses listed size c = c
  opened-Covered none entries d parses listed size c = beside-Covered entries d parses listed size c

  checked-Covered :
      (r : Result SlashingProtectionFile) (d : E.Db)
      → ParsesInt64 H
      → Listed E d
      → length x.pub_key ≡ 48
      → Covered E d x
      → Covered E (store_checked_file H E r d).1 x
  unfolding store_checked_file
  checked-Covered (err e) d parses listed size c = c
  checked-Covered (ok file) d parses listed size c =
      opened-Covered H.init_rules file.entries d parses listed size c

-- Whatever file is imported, storeSlashingProtection leaves the epochs that the database holds of a
-- public key of 48 bytes no lower than they were, also if it panics, if the file is refused, or if
-- a write fails. The database meets the laws, an iteration of it visits what can be read, under keys
-- of 49 bytes, and strconv.ParseInt gives an int64.
pub store_slashing_protection-Covered :
    (H : Host) (E : Env) (d : E.Db) (file : Option SlashingProtectionFile) (x : Attested)
    → ParsesInt64 H
    → Lawful E
    → Listed E d
    → length x.pub_key ≡ 48
    → Covered E d x
    → Covered E (store_slashing_protection H E file d).1 x
store_slashing_protection-Covered H E d file x parses L listed size c =
    checked-Covered H E L x (check_metadata H file) d parses listed size c
