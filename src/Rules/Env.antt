-- ===== src/Rules/Env.antt =====
-- The code that rules/standard calls and that is not in the repository: the badger database, the
-- domain constants of go-eth2-types and the decoder of encoding/gob. `Lawful` states what the
-- proofs rely on.
use dirk.Prelude.{◌≡◌, ◌⊎◌, Option, none, some, List, [], ◌∷◌, bytes_equal, if◌then◌else◌}
use dirk.Go.{Bytes, Error}
use dirk.Words.{IsInt64}
use dirk.Rules.State.{AttestationState, ProposalState}

-- `item.Value(f)` gives the value to `f`, or returns an error, or panics (on a nil item).
pub data ItemRead : Type 0 where
  value : Bytes → ItemRead
  read_error : Error → ItemRead
  read_panic : ItemRead

-- `txn.Get(key)`: an item; ErrKeyNotFound; or another error, beside which an item is returned too,
-- nil or not.
pub data Get : Type 0 where
  found : ItemRead → Get
  key_not_found : Get
  get_error : ItemRead → Get

pub record Badger : Type 1 where
  pub Db : Type 0
  pub get : Db → Bytes → Get
  -- `db.Update` of one `txn.Set`, and the database after it
  pub update : Db → Bytes → Bytes → Option Error × Db
  -- the items that an iterator visits, in its order
  pub iterate : Db → List (Bytes × ItemRead)
  pub Batch : Type 0
  pub new_write_batch : Db → Batch
  pub set : Batch → Bytes → Bytes → Option Error × Batch
  pub flush : Batch → Option Error × Db
  pub cancel : Batch → Db

-- The value that a list of writes, the newest first, gives a key.
abbrev pub newest : List (Bytes × Bytes) → Bytes → Option Bytes
newest [] k = none
newest ((j, v) ∷ es) k = if bytes_equal j k then some v else newest es k

-- What a key reads as after the writes.
abbrev pub after_writes : List (Bytes × Bytes) → Bytes → Get → Get
after_writes es k g = elim (newest es k) [ none ↦ g | some v ↦ found (value v) ]

-- A key was left as it was, or has a value that was written to it.
abbrev pub WroteSome : List (Bytes × Bytes) → Bytes → Get → Get → Type 0
WroteSome [] k old now = now ≡ old
WroteSome ((j, v) ∷ es) k old now = ((j ≡ k) × (now ≡ found (value v))) ⊎ WroteSome es k old now

pub record Env : Type 1 where
  pub badger : Badger
  pub open badger use *
  -- gob.NewDecoder(bytes.NewBuffer(data)).Decode(s), for the two types of s
  pub gob_attestation : Bytes → AttestationState → Option Error × AttestationState
  pub gob_proposal : Bytes → ProposalState → Option Error × ProposalState
  pub domain_beacon_attester : Bytes
  pub domain_beacon_proposer : Bytes
  pub domain_voluntary_exit : Bytes

-- badger's documented behaviour. An update that succeeds is read back, one that fails changes
-- nothing, and neither touches another key. `Staged w d es` says that the batch `w` was opened on
-- `d` and has been given the writes `es`, the newest first. A batch that is flushed with no error
-- has applied them; one that fails or is cancelled has applied some of them.
pub record Lawful (E : Env) : Type 1 where
  pub update_ok :
      (d : E.Db) (k v j : Bytes)
      → (E.update d k v).0 ≡ none
      → E.get (E.update d k v).1 j ≡ (if bytes_equal k j then found (value v) else E.get d j)
  pub update_failed :
      (d : E.Db) (k v j : Bytes) (e : Error)
      → (E.update d k v).0 ≡ some e
      → E.get (E.update d k v).1 j ≡ E.get d j
  pub Staged : E.Batch → E.Db → List (Bytes × Bytes) → Type 0
  pub staged_new : (d : E.Db) → Staged (E.new_write_batch d) d []
  pub staged_set :
      (w : E.Batch) (d : E.Db) (es : List (Bytes × Bytes)) (k v : Bytes)
      → Staged w d es
      → Staged (E.set w k v).1 d ((k, v) ∷ es)
  pub flush_ok :
      (w : E.Batch) (d : E.Db) (es : List (Bytes × Bytes)) (k : Bytes)
      → Staged w d es
      → (E.flush w).0 ≡ none
      → E.get (E.flush w).1 k ≡ after_writes es k (E.get d k)
  pub flush_failed :
      (w : E.Batch) (d : E.Db) (es : List (Bytes × Bytes)) (k : Bytes) (e : Error)
      → Staged w d es
      → (E.flush w).0 ≡ some e
      → WroteSome es k (E.get d k) (E.get (E.flush w).1 k)
  pub cancelled :
      (w : E.Batch) (d : E.Db) (es : List (Bytes × Bytes)) (k : Bytes)
      → Staged w d es
      → WroteSome es k (E.get d k) (E.get (E.cancel w) k)
  -- The fields that gob fills are int64.
  pub gob_attestation_int64 :
      (bs : Bytes) (s : AttestationState)
      → IsInt64 s.source_epoch × IsInt64 s.target_epoch
      → (E.gob_attestation bs s).0 ≡ none
      → IsInt64 (E.gob_attestation bs s).1.source_epoch
        × IsInt64 (E.gob_attestation bs s).1.target_epoch
