-- ===== src/Signer/Services.antt =====
-- What the signer uses of the fetcher, the checker, the unlocker and the accounts, as parameters.
use dirk.Prelude.{String, Bool, Option, ℕ, List}
use dirk.Go.{Bytes, Run, Result}
use dirk.Ruler.{Credentials}

-- The hash tree root's input: a spec.AttestationData with roots of 32 bytes.
pub record AttestationData : Type 0 where
  pub slot : ℕ
  pub index : ℕ
  pub beacon_block_root : Bytes
  pub source_epoch : ℕ
  pub source_root : Bytes
  pub target_epoch : ℕ
  pub target_root : Bytes

-- A spec.BeaconBlockHeader.
pub record BeaconBlockHeader : Type 0 where
  pub slot : ℕ
  pub proposer_index : ℕ
  pub parent_root : Bytes
  pub state_root : Bytes
  pub body_root : Bytes

-- `World` is the state of the wallets, of their accounts and of the fetcher's cache.
pub record Services : Type 1 where
  pub World : Type 0
  pub Wallet : Type 0
  pub Account : Type 0
  pub wallet_name : Wallet → String
  pub account_name : Account → String
  pub public_key : Account → Bytes  -- PublicKey().Marshal()
  pub fetch_account : String → Run World (Result (Option Wallet × Option Account))
  pub fetch_account_by_key : Bytes → Run World (Result (Option Wallet × Option Account))
  pub check : Option Credentials → String → String → Bool
  pub is_unlocked : Account → World → Option (Result Bool)  -- none: not an AccountLocker
  pub unlock_account : Wallet → Account → Run World (Result Bool)
  pub sign : Account → Bytes → World → Option (Result Bytes)  -- none: not an AccountSigner
  pub attestation_root : AttestationData → Result Bytes
  pub header_root : BeaconBlockHeader → Result Bytes
  pub merkleize : List Bytes → Bytes  -- the hasher's root of the chunks that were put
