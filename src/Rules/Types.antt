-- ===== src/Rules/Types.antt =====
-- rules/service.go: requests, their metadata and results.
use dirk.Prelude.{ℕ, String, Option, List}
use dirk.Go.{Bytes, Slice}
use dirk.Words.{ℤ}

pub record ReqMetadata : Type 0 where
  pub account : String
  pub pub_key : Bytes
  pub ip : String
  pub client : String

pub record SignData : Type 0 where
  pub domain : Option Slice
  pub payload : Option Slice

pub record Checkpoint : Type 0 where
  pub epoch : ℕ  -- uint64
  pub root : Option Slice

pub record SignBeaconAttestationData : Type 0 where
  pub domain : Option Slice
  pub slot : ℕ  -- uint64
  pub committee_index : ℕ  -- uint64
  pub beacon_block_root : Option Slice
  pub source : Option Checkpoint
  pub target : Option Checkpoint

pub record SignBeaconProposalData : Type 0 where
  pub domain : Option Slice
  pub slot : ℕ  -- uint64
  pub proposer_index : ℕ  -- uint64
  pub parent_root : Option Slice
  pub state_root : Option Slice
  pub body_root : Option Slice

pub record AccessAccountData : Type 0 where
  pub paths : List String

-- Named as in the source: UNKNOWN, APPROVED, DENIED, FAILED.
pub data Result : Type 0 where
  unknown approved denied failed : Result

pub record SlashingProtection : Type 0 where
  pub pub_key : Bytes
  pub highest_proposed_slot : ℤ  -- int64
  pub highest_attested_source_epoch : ℤ  -- int64
  pub highest_attested_target_epoch : ℤ  -- int64
