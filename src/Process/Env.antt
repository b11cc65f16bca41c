-- ===== src/Process/Env.antt =====
-- What services/process/standard uses that is not its own: the herumi BLS library, the wallets of
-- go-eth2-wallet, the clock, and the services peers, sender and fetcher.
use dirk.Go.{Result, ok, Bytes, Run, Error}
use dirk.Prelude.{ℕ, suc, ◌≡◌, Bool, true, Option, List, [], ◌∷◌, replicate, String}

-- core/endpoint.go
pub record Endpoint : Type 0 where
  pub id : ℕ  -- uint64
  pub name : String
  pub port : ℕ  -- uint32

pub record Bls : Type 1 where
  pub SecretKey : Type 0
  pub PublicKey : Type 0
  pub ParticipantId : Type 0
  -- bls.SecretKey{} and Add
  pub zero_secret : SecretKey
  pub add_secret : SecretKey → SecretKey → SecretKey
  -- bls.PublicKey{}, Add and IsEqual
  pub zero_public : PublicKey
  pub add_public : PublicKey → PublicKey → PublicKey
  pub is_equal : PublicKey → PublicKey → Bool
  pub get_public_key : SecretKey → PublicKey
  -- Set, and its error
  pub set_secret : List SecretKey → ParticipantId → Result SecretKey
  pub set_public : List PublicKey → ParticipantId → Result PublicKey
  -- SetLittleEndian, which gives no error for eight bytes
  pub set_little_endian : Bytes → ParticipantId
  pub serialize_secret : SecretKey → Bytes
  pub serialize_public : PublicKey → Bytes
  -- SignByte, then Serialize
  pub sign_byte : SecretKey → Bytes → Bytes

-- The sum of two lists of coefficients, of which the second is no longer.
abbrev pub IsSum : (B : Bls) → List B.PublicKey → List B.PublicKey → List B.PublicKey → Type 0
IsSum B acc [] sum = acc ≡ sum
IsSum B (a ∷ acc) (v ∷ vs) (s ∷ sum) = (s ≡ B.add_public a v) × IsSum B acc vs sum
IsSum B _ _ _ = ⊥

-- `Set` evaluates the polynomial with these coefficients, and `GetPublicKey` is a homomorphism.
pub record LawfulBls (B : Bls) : Type 0 where
  pub equal : (a b : B.PublicKey) → B.is_equal a b ≡ true → a ≡ b
  pub public_zero : B.get_public_key B.zero_secret ≡ B.zero_public
  pub public_add :
      (a b : B.SecretKey)
      → B.get_public_key (B.add_secret a b) ≡ B.add_public (B.get_public_key a) (B.get_public_key b)
  -- of no terms at all, it is an error
  pub set_zero :
      (n : ℕ) (i : B.ParticipantId)
      → B.set_public (replicate (suc n) B.zero_public) i ≡ ok B.zero_public
  pub set_add :
      (acc v sum : List B.PublicKey) (i : B.ParticipantId) (a b : B.PublicKey)
      → IsSum B acc v sum
      → B.set_public acc i ≡ ok a
      → B.set_public v i ≡ ok b
      → B.set_public sum i ≡ ok (B.add_public a b)

pub record Services : Type 1 where
  pub bls : Bls
  pub open bls use *
  pub World : Type 0
  pub Wallet : Type 0
  pub Account : Type 0
  -- time.Now()
  pub now : World → ℕ
  -- SetByCSPRNG
  pub random_secret : World → SecretKey × World
  pub peer : ℕ → Result Endpoint
  pub send_contribution :
      Endpoint
      → String
      → SecretKey
      → List PublicKey
      → Run World (Result (SecretKey × List PublicKey))
  pub wallet_and_account_names : String → Result (String × String)
  -- distributed.OpenWallet on the first store
  pub open_wallet : String → Run World (Result Wallet)
  -- whether the wallet is a WalletLocker, and its methods
  pub is_locker : Wallet → Bool
  pub unlock : Wallet → Run World (Option Error)
  pub lock : Wallet → Run World (Option Error)
  -- it panics if the wallet is no WalletDistributedAccountImporter
  pub import_distributed_account :
      Wallet
      → String
      → Bytes
      → ℕ
      → List Bytes
      → List (ℕ × String)
      → Bytes
      → Run World (Result Account)
  pub add_account : Wallet → Account → Run World (Option Error)
  -- whether the wallet is a WalletAccountByNameProvider, and its method
  pub is_provider : Wallet → Bool
  pub account_by_name : Wallet → String → Run World (Result Account)
  -- ConnectAddress of an endpoint, by net.JoinHostPort
  pub join_host_port : String → ℕ → String
