-- ===== src/Signer/Root.antt =====
-- services/signer/standard: signingroot.go, signingroot_encoding.go and util.go.
pub mod RoundTrip
use dirk.Prelude.{
  ℕ, not, none, some, List, [], ◌∷◌, ◌++◌, length, take, drop, ◌==◌, if◌then◌else◌, String,
}
use dirk.Go
use dirk.Go.{ok, err, Bytes, Error}
use dirk.Signer.Services.{Services}

pub record SigningRoot : Type 0 where
  pub data_root : Bytes
  pub domain : Bytes

-- The error of a field that is not 32 bytes long.
abbrev bad_length : String → Error
bad_length field = field

unfoldable pub marshal_ssz_to : SigningRoot → Bytes → Go.Result Bytes
marshal_ssz_to s buf =
    if not (length s.data_root == 32)
    then err (bad_length "SigningRoot.DataRoot")
    else if not (length s.domain == 32)
    then err (bad_length "SigningRoot.Domain")
    else ok ((buf ++ s.data_root) ++ s.domain)

unfoldable pub marshal_ssz : SigningRoot → Go.Result Bytes
unfolding marshal_ssz_to
marshal_ssz s = marshal_ssz_to s []

-- Into an object that may hold bytes already: they are appended to.
unfoldable pub unmarshal_ssz : SigningRoot → Bytes → Go.Result SigningRoot
unmarshal_ssz s buf =
    if not (length buf == 64)
    then err "ErrSize"
    else ok (record {
      data_root = s.data_root ++ take 32 buf;
      domain = s.domain ++ take 32 (drop 32 buf);
    })

abbrev pub size_ssz : SigningRoot → ℕ
size_ssz s = 64

-- The chunks that are put into the hasher.
unfoldable pub hash_tree_root_with : SigningRoot → Go.Result (List Bytes)
hash_tree_root_with s =
    if not (length s.data_root == 32)
    then err (bad_length "SigningRoot.DataRoot")
    else if not (length s.domain == 32)
    then err (bad_length "SigningRoot.Domain")
    else ok (s.data_root ∷ s.domain ∷ [])

module _ (S : Services) where
  unfoldable pub merkleized : Go.Result (List Bytes) → Go.Result Bytes
  merkleized (ok chunks) = ok (S.merkleize chunks)
  merkleized (err e) = err e

  unfoldable pub hash_tree_root : SigningRoot → Go.Result Bytes
  unfolding merkleized
  hash_tree_root s = merkleized (hash_tree_root_with s)

  unfoldable pub generate_signing_root : Bytes → Bytes → Go.Result Bytes
  generate_signing_root root domain = hash_tree_root (record { data_root = root; domain = domain })

  unfoldable pub sign_root : S.Account → Bytes → S.World → Go.Result Bytes
  sign_root account root w = elim (S.sign account root w) [ none ↦ err "not a signer" | some r ↦ r ]
