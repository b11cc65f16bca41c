-- ===== src/Process/Agreed.antt =====
-- What a distributed key that is made is: the key of every participant, whose signatures combine.
use dirk.Process.Composite.{AllCombine, check_composites-AllCombine}
use dirk.Process.Env.{Services, Endpoint}
use dirk.Process.Contribution.{ok-inj}
use dirk.Process.Generate.{check_composites, all_equal_next, pair_sigs, check_generated}
use dirk.Prelude.{not, length, map}
use dirk.Go.{ret, ret-inj, ok, err, Result, Error, Bytes}
use dirk.Process.Generate.{Requests, check_composites}
use dirk.Prelude.{String}
use dirk.Prelude.{Bool, true, false, none, some, if◌then◌else◌}
use dirk.Prelude.{
  ℕ, ◌+◌, ◌-◌, ◌≡◌, refl, ◌∙◌, subst, Bool, true, false, not, ◌&&◌, Option, none, some, List, [],
  ◌∷◌, map, arith, length, All, bytes_equal, bytes_equal_iff, if◌then◌else◌,
}

both : (a b : Bool) → (a && b) ≡ true → (a ≡ true) × (b ≡ true)
both a b h = ground arith

module _ (S : Services) (R : Requests S) where
  -- The keys are all the same.
  all_equal_next-All :
      (first : Bytes) (keys : List Bytes)
      → all_equal_next first keys ≡ true
      → All (λ k. k ≡ first) keys
  unfolding all_equal_next
  all_equal_next-All first [] h = tt
  all_equal_next-All first (x ∷ []) h = ((bytes_equal_iff x first).0 h, tt)
  all_equal_next-All first (x ∷ y ∷ keys) h =
      let (next, later) = both (bytes_equal x y) (all_equal_next first (y ∷ keys)) h in
      let rest = all_equal_next-All first (y ∷ keys) later in
      ((bytes_equal_iff x y).0 next ∙ rest.0, rest)

  -- The participants have been asked one after the other to commit the account with the confirmation
  -- data, and these are their replies.
  abbrev pub Replied :
      String → Bytes → List Endpoint → List (Bytes × Bytes) → S.World → S.World → Type 0
  Replied account confirmation [] [] w w' = w ≡ w'
  Replied account confirmation [] (r ∷ rs) w w' = ⊥
  Replied account confirmation (p ∷ ps) [] w w' = ⊥
  Replied account confirmation (p ∷ ps) (r ∷ rs) w w' =
      (w1 : S.World) × (R.send_commit p account confirmation w ≡ (ret (ok r), w1))
      × Replied account confirmation ps rs w1 w'

  -- A key that is made: 32 random bytes have been read and sent to every participant, each has
  -- replied with that key, and the signatures of each `threshold` participants that follow each other
  -- combine to one that verifies for the key and the bytes.
  pub record Agreed (account : String) (threshold count : ℕ) (public_key : Bytes)
      (participants : List Endpoint) : Type 0 where
    pub suitable : R.suitable count ≡ ok participants
    pub confirmation : Bytes
    pub size : length confirmation ≡ 32
    pub before : S.World
    pub between : S.World
    pub read : R.read_random before ≡ (ret (ok confirmation), between)
    pub commits : List (Bytes × Bytes)
    pub afterwards : S.World
    pub replies : Replied account confirmation participants commits between afterwards
    pub same : All (λ k. k ≡ public_key) (map (λ x. x.0) commits)
    pub each : length commits ≡ length participants
    pub key : S.PublicKey
    pub is_key : R.deserialize_public public_key ≡ ok key
    pub combined :
        AllCombine S R
          (length participants + 1 - threshold)
          threshold
          key
          confirmation
          (pair_sigs S R participants commits)

  pub record Checked (threshold : ℕ) (confirmation : Bytes) (participants : List Endpoint)
      (commits : List (Bytes × Bytes)) (made : Bytes × List Endpoint) : Type 0 where
    pub same : All (λ k. k ≡ made.0) (map (λ x. x.0) commits)
    pub key : S.PublicKey
    pub is_key : R.deserialize_public made.0 ≡ ok key
    pub combined :
        AllCombine S R
          (length participants + 1 - threshold)
          threshold
          key
          confirmation
          (pair_sigs S R participants commits)
    pub to : made.1 ≡ participants

  pub check_generated-Checked :
      (threshold : ℕ) (confirmation : Bytes) (participants : List Endpoint)
      (commits : List (Bytes × Bytes)) (made : Bytes × List Endpoint)
      → check_generated S R threshold confirmation participants commits ≡ ret (ok made)
      → Checked threshold confirmation participants commits made
  unfolding check_generated
  check_generated-Checked threshold confirmation participants [] made h = cc
  check_generated-Checked threshold confirmation participants (r ∷ rs) made h =
      from (all_equal_next r.0 (map (λ x. x.0) (r ∷ rs))) refl h
    where
      n : ℕ
      n = length participants + 1 - threshold

      sigs : List (Endpoint × Bytes)
      sigs = pair_sigs S R participants (r ∷ rs)

      last :
          (key : S.PublicKey) (o : Option Error)
          → all_equal_next r.0 (map (λ x. x.0) (r ∷ rs)) ≡ true
          → R.deserialize_public r.0 ≡ ok key
          → check_composites S R n threshold key confirmation sigs ≡ o
          → (elim o [ some e ↦ ret (err e) | none ↦ ret (ok (r.0, participants)) ]) ≡ ret (ok made)
          → Checked threshold confirmation participants (r ∷ rs) made
      last key (some e) equal is_key good q = cc
      last key none equal is_key good q =
          subst (λ m. Checked threshold confirmation participants (r ∷ rs) m) (ok-inj (ret-inj q))
            (record {
              same = all_equal_next-All r.0 (map (λ x. x.0) (r ∷ rs)) equal;
              key = key;
              is_key = is_key;
              combined = check_composites-AllCombine S R n threshold key confirmation sigs good;
              to = refl;
            })

      middle :
          (k : Result S.PublicKey)
          → all_equal_next r.0 (map (λ x. x.0) (r ∷ rs)) ≡ true
          → R.deserialize_public r.0 ≡ k
          → (elim k [
            | err e ↦ ret (err "invalid generation")
            | ok key ↦ elim (check_composites S R n threshold key confirmation sigs) [
              | some e ↦ ret (err e)
              | none ↦ ret (ok (r.0, participants))
            ]
          ])
            ≡ ret (ok made)
          → Checked threshold confirmation participants (r ∷ rs) made
      middle (err e) equal is_key q = cc
      middle (ok key) equal is_key q =
          last key (check_composites S R n threshold key confirmation sigs) equal is_key refl q

      from :
          (b : Bool)
          → all_equal_next r.0 (map (λ x. x.0) (r ∷ rs)) ≡ b
          → (if not b then ret (err "invalid generation") else elim (R.deserialize_public r.0) [
            | err e ↦ ret (err "invalid generation")
            | ok key ↦ elim (check_composites S R n threshold key confirmation sigs) [
              | some e ↦ ret (err e)
              | none ↦ ret (ok (r.0, participants))
            ]
          ])
            ≡ ret (ok made)
          → Checked threshold confirmation participants (r ∷ rs) made
      from false equal q = cc
      from true equal q = middle (R.deserialize_public r.0) equal refl q
