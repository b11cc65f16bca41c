-- ===== src/Signer/SignedRequests.antt =====
-- The requests that services/signer/standard signs: the attestation, the proposal or the data that a
-- signature is over, written out from the request.
use dirk.Rules.Env.{Env}
use dirk.Go.{Bytes, Run, pure, ret}
use dirk.Core
use dirk.Core.{result_denied, result_failed}
use dirk.Rules.Types.{SignBeaconAttestationData, Checkpoint}
use dirk.Ruler.{Credentials, sign_beacon_attestation, attestation_data}
use dirk.Signer.Services.{Services}
use dirk.Signer.Account.{go_on, pre_check}
use dirk.Signer.Single.{
  Signed, without, is_nil, attestation_of_request, to_bytes32, sign_attestation, sign_checkpoints,
  sign_checked,
}
use dirk.Signer.Signature.{SignedBy, sign_checked-SignedBy, no_result}
use dirk.Signer.Several.{Datum, check_attestation_data, check_checkpoints}
use dirk.Prelude.{
  ℕ, ◌≡◌, refl, sym, ap, subst, arith, Bool, true, false, ◌||◌, Option, none, some, List,
  if◌then◌else◌, String,
}

module _ (S : Services) (account : S.Account) where
  -- A signature over the attestation that a request asks for, in the request's domain.
  pub record AttestationSigned (r : SignBeaconAttestationData) (w : S.World) (signature : Bytes)
      : Type 0 where
    pub source : Checkpoint
    pub target : Checkpoint
    pub has_source : r.source ≡ some source
    pub has_target : r.target ≡ some target
    pub by :
        SignedBy S account
          (S.attestation_root (record {
            slot = r.slot;
            index = r.committee_index;
            beacon_block_root = to_bytes32 r.beacon_block_root;
            source_epoch = source.epoch;
            source_root = to_bytes32 source.root;
            target_epoch = target.epoch;
            target_root = to_bytes32 target.root;
          }))
          r.domain
          w
          signature

pub some-inj : {a b : Datum} → some a ≡ some b → a ≡ b
some-inj h = cc

-- A guard that has not refused a request.
pub unguarded :
    {W : Type 0} (b : Bool) (x : Core.Result) (m : Run W Signed) (w : W) (q : Core.Result)
    (s : Bytes)
    → ((if b then pure (without x) else m) w).0 ≡ ret (q, some s)
    → (m w).0 ≡ ret (q, some s)
unguarded true x m w q s h = absurd (no_result h)
unguarded false x m w q s h = h

-- A signature for a request for an attestation, under a name and a public key: the account is the one
-- that the first checks find, in the world that they are made in.
pub record AttestationRequest (S : Services) (c : Option Credentials) (before : S.World)
    (name : String) (k : Option Bytes) (request : Option SignBeaconAttestationData)
    (signature : Bytes) : Type 0 where
  pub wallet : S.Wallet
  pub account : S.Account
  pub after : S.World
  pub found :
      pre_check S c name k sign_beacon_attestation before ≡ (ret (go_on (wallet, account)), after)
  pub asked : SignBeaconAttestationData
  pub is_request : request ≡ some asked
  pub at : S.World
  pub signed : AttestationSigned S account asked at signature

module _ (S : Services) (E : Env) (admin_ips : List String) (procs : ℕ) where
  checkpoints-Signed :
      (c : Credentials) (name : String) (k : Option Bytes) (r : SignBeaconAttestationData)
      (source target : Option Checkpoint) (w : S.World) (d : E.Db) (q : Core.Result) (s : Bytes)
      → r.source ≡ source
      → r.target ≡ target
      → (sign_checkpoints S E admin_ips procs c name k r source target (w, d)).0 ≡ ret (q, some s)
      → (wallet : S.Wallet) × (account : S.Account) × (after : S.World) × (pre_check S
            (some c)
            name
            k
            sign_beacon_attestation
            w
          ≡ (ret (go_on (wallet, account)), after))
        × AttestationSigned S account r after s
  unfolding sign_checkpoints
  checkpoints-Signed c name k r none target w d q s es et h = absurd (no_result h)
  checkpoints-Signed c name k r (some source) none w d q s es et h = absurd (no_result h)
  checkpoints-Signed c name k r (some source) (some target) w d q s es et h =
      let root = S.attestation_root (attestation_of_request S E admin_ips procs r source target) in
      let (wallet, account, after, found, by) =
        sign_checked-SignedBy S E admin_ips procs (some c) name k sign_beacon_attestation
          (attestation_data (some r)) root r.domain w d q s
          (unguarded (is_nil source.root || is_nil target.root) result_denied
            (sign_checked S E admin_ips procs (some c) name k sign_beacon_attestation
              (attestation_data (some r)) root r.domain)
            (w, d) q s h) in
      (
        wallet,
        account,
        after,
        found,
        record { source = source; target = target; has_source = es; has_target = et; by = by },
      )

  -- A request for an attestation that gives a signature: it is by the account that the first checks
  -- find, over the attestation of the request.
  pub sign_attestation-Signed :
      (c : Option Credentials) (name : String) (k : Option Bytes)
      (request : Option SignBeaconAttestationData) (w : S.World) (d : E.Db) (q : Core.Result)
      (s : Bytes)
      → (sign_attestation S E admin_ips procs c name k request (w, d)).0 ≡ ret (q, some s)
      → AttestationRequest S c w name k request s
  unfolding sign_attestation
  sign_attestation-Signed none name k request w d q s h = absurd (no_result h)
  sign_attestation-Signed (some c) name k none w d q s h = absurd (no_result h)
  sign_attestation-Signed (some c) name k (some r) w d q s h =
      let m = sign_checkpoints S E admin_ips procs c name k r r.source r.target in
      let (wallet, account, after, found, signed) =
        checkpoints-Signed c name k r r.source r.target w d q s refl refl (
          unguarded (is_nil r.domain) result_denied m (w, d) q s
            (unguarded (is_nil r.beacon_block_root) result_denied
              (if is_nil r.domain then pure (without result_denied) else m) (w, d) q s h)) in
      record {
        wallet = wallet;
        account = account;
        after = after;
        found = found;
        asked = r;
        is_request = refl;
        at = after;
        signed = signed;
      }

  checkpoints-Datum :
      (r : SignBeaconAttestationData) (source target : Option Checkpoint) (dt : Datum)
      (account : S.Account) (w : S.World) (s : Bytes)
      → r.source ≡ source
      → r.target ≡ target
      → check_checkpoints S E admin_ips procs r source target ≡ some dt
      → SignedBy S account dt.root dt.domain w s
      → AttestationSigned S account r w s
  unfolding check_checkpoints
  checkpoints-Datum r none target dt account w s es et h by = cc
  checkpoints-Datum r (some source) none dt account w s es et h by = cc
  checkpoints-Datum r (some source) (some target) dt account w s es et h by =
      let (domain, root) = from (is_nil source.root || is_nil target.root) h in
      record {
        source = source;
        target = target;
        has_source = es;
        has_target = et;
        by =
            subst (λ z. SignedBy S account z r.domain w s) root
              (subst (λ z. SignedBy S account dt.root z w s) domain by);
      }
    where
      from :
          (b : Bool)
          → (if b
              then none
              else some (record {
                payload = attestation_data (some r);
                root =
                    S.attestation_root (attestation_of_request S E admin_ips procs r source target);
                domain = r.domain;
              }))
            ≡ some dt
          → (dt.domain ≡ r.domain)
            × (dt.root
                ≡ S.attestation_root (attestation_of_request S E admin_ips procs r source target))
      from true q = cc
      from false q =
          (sym (ap (λ z. Datum.domain z) (some-inj q)), sym (ap (λ z. Datum.root z) (some-inj q)))

  -- A signature over a datum of a request for attestations.
  pub attestation-Datum :
      (request : Option SignBeaconAttestationData) (dt : Datum) (account : S.Account) (w : S.World)
      (s : Bytes)
      → check_attestation_data S E admin_ips procs request ≡ some dt
      → SignedBy S account dt.root dt.domain w s
      → (r : SignBeaconAttestationData) × (request ≡ some r) × AttestationSigned S account r w s
  unfolding check_attestation_data
  attestation-Datum none dt account w s h by = cc
  attestation-Datum (some r) dt account w s h by = (
    r,
    refl,
    checkpoints-Datum r r.source r.target dt account w s refl refl
        (from (is_nil r.beacon_block_root) (is_nil r.domain)
          (check_checkpoints S E admin_ips procs r r.source r.target) h)
        by,
  )
    where
      from :
          (a b : Bool) (o : Option Datum)
          → (if a then none else if b then none else o) ≡ some dt
          → o ≡ some dt
      from a b o q = ground arith
