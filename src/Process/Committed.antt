-- ===== src/Process/Committed.antt =====
-- What a commit that succeeds has done.
use dirk.Process.Invariant.{Found, Sound, Inv, get_generation-Found, found-Sound}
use dirk.Process.Shares.{Matched, aggregate-Fits}
use dirk.Process.{Config, Generation, State, bls_id, outside, get_generation, or_zero}
use dirk.Process.Env.{Services, LawfulBls}
use dirk.Go.{ok, err, Go, ret, ret-inj, panic, pure, Bytes, Error}
use dirk.Prelude.{
  if◌then◌else◌, not, length, none, ◌==◌, Bool, true, false, refl, Bool, Option, subst, arith,
}
use dirk.Maps.{lookup, remove}
use dirk.Process.Imported.{Imported, store_distributed_key-Imported}
use dirk.Process.Chains.{try_then-inv}
use dirk.Process.Commit.{store_distributed_key, retrieve}
use dirk.Process.Commit.{
  add_v_vec, aggregate, zero_vector, private_key_of, finish, commit_aggregated, store_and_retrieve,
  on_commit, commit, commit_found,
}
use dirk.Go.{ret, ok, Go, err, pure}
use dirk.Prelude.{
  ℕ, zero, suc, ◌-◌, ◌≡◌, refl, sym, ◌∙◌, ap, false, some, List, [], ◌∷◌, length, ltb, String,
  str_eq,
}

-- As many have contributed as there are participants; the instance's private key is its share of the
-- public key that is returned, whose polynomial has the returned key as its first coefficient; the
-- wallet has imported that private key; the signature is by it; and the generation is gone.
pub record Committed (S : Services) (C : Config) (account : String) (confirmation : Bytes)
    (s s' : State S) (pub_key sig : Bytes) : Type 0 where
  pub g : Generation S
  pub there : lookup str_eq account s.generations ≡ some g
  pub fresh : ltb C.generation_timeout (S.now s.world - g.process_started) ≡ false
  pub all_secrets : length g.shared_secrets ≡ length g.participants
  pub all_v_vecs : length g.shared_v_vecs ≡ length g.participants
  pub first : S.PublicKey
  pub others : List S.PublicKey
  pub sum : aggregate S g.shared_v_vecs (zero_vector S g.threshold) ≡ ret (first ∷ others)
  pub share :
      S.set_public (first ∷ others) (bls_id S C.id) ≡ ok (S.get_public_key (private_key_of S g))
  pub key : pub_key ≡ S.serialize_public first
  pub signed : sig ≡ S.sign_byte (private_key_of S g) confirmation
  pub imported :
      Imported S account
        (or_zero C.generation_passphrase g.passphrase)
        (private_key_of S g)
        g.threshold
        (first ∷ others)
        g.participants
        s.world
  pub removed : s'.generations ≡ remove str_eq account s.generations

not_err : {A : Type 0} {a : A} {e : Error} → ret (err e) ≡ ret (ok a) → ⊥
not_err h = cc

no_panic : {A : Type 0} {a : A} → panic ≡ ret a → ⊥
no_panic h = cc

ok_pair : {A : Type 0} {a b : A} → ret (ok a) ≡ ret (ok b) → a ≡ b
ok_pair h = cc

module _ (S : Services) (C : Config) (L : LawfulBls S.bls) where
  add_v_vec-nil : (v sum : List S.PublicKey) → add_v_vec S [] v ≡ ret sum → sum ≡ []
  unfolding add_v_vec
  add_v_vec-nil [] sum h = sym (ret-inj h)
  add_v_vec-nil (v ∷ vs) sum h = cc

  aggregate-nil :
      (l : List (ℕ × List S.PublicKey)) (sum : List S.PublicKey)
      → aggregate S l [] ≡ ret sum
      → sum ≡ []
  unfolding aggregate add_v_vec
  aggregate-nil [] sum h = sym (ret-inj h)
  aggregate-nil ((k, []) ∷ l) sum h = aggregate-nil l sum h
  aggregate-nil ((k, (v ∷ vs)) ∷ l) sum h = cc

  -- The key is the share of the sum of the vectors.
  aggregate-share :
      (threshold : ℕ) (g : Generation S) (first : S.PublicKey) (others : List S.PublicKey)
      → Matched S C.id g.shared_secrets g.shared_v_vecs
      → aggregate S g.shared_v_vecs (zero_vector S threshold) ≡ ret (first ∷ others)
      → S.set_public (first ∷ others) (bls_id S C.id) ≡ ok (S.get_public_key (private_key_of S g))
  aggregate-share zero g first others matched h =
      let q : (first ∷ others) ≡ [] = aggregate-nil g.shared_v_vecs (first ∷ others) h in
      absurd (cc)
  aggregate-share (suc n) g first others matched h =
      aggregate-Fits S L C.id g.shared_secrets g.shared_v_vecs S.zero_secret (zero_vector S (suc n))
        (first ∷ others) matched (L.set_zero n (bls_id S C.id) ∙ ap ok (sym L.public_zero)) h

  finished :
      (account : String) (g : Generation S) (confirmation : Bytes) (vector : List S.PublicKey)
      (s s' : State S) (pub_key sig : Bytes)
      → finish S C account g confirmation vector s ≡ (ret (ok (pub_key, sig)), s')
      → (first : S.PublicKey) × (others : List S.PublicKey) × (vector ≡ first ∷ others)
        × (pub_key ≡ S.serialize_public first)
        × (sig ≡ S.sign_byte (private_key_of S g) confirmation)
        × (s'.generations ≡ remove str_eq account s.generations)
  unfolding finish
  finished account g confirmation [] s s' pub_key sig h = absurd (no_panic (ap (λ z. z.0) h))
  finished account g confirmation (k ∷ ks) s s' pub_key sig h = (
    k,
    ks,
    refl,
    ap (λ z. z.0) (sym (ok_pair (ap (λ z. z.0) h))),
    ap (λ z. z.1) (sym (ok_pair (ap (λ z. z.0) h))),
    ap (λ z. z.1.generations) (sym h),
  )

  -- What is stored when the key is found again.
  stored-Imported :
      (account : String) (g : Generation S) (vector : List S.PublicKey) (s s1 : State S)
      (done : Unit {0})
      → Sound S C (account, g)
      → outside (store_and_retrieve S C g account vector) s ≡ (ret (ok done), s1)
      → Imported S account
          (or_zero C.generation_passphrase g.passphrase)
          (private_key_of S g)
          g.threshold
          vector
          g.participants
          s.world
  stored-Imported account g vector s s1 done sound stored =
      let passphrase : Bytes = or_zero C.generation_passphrase g.passphrase in
      let (kept, w1, keeping, _) =
        try_then-inv
          (store_distributed_key S g.account passphrase (private_key_of S g) g.threshold vector
            g.participants)
          (λ kept. retrieve S account) s.world (store_and_retrieve S C g account vector s.world).1
          done
          (ap (λ r. (r, (store_and_retrieve S C g account vector s.world).1))
            (ap (λ z. z.0) stored)) in
      subst
        (λ a.
          Imported S a passphrase (private_key_of S g) g.threshold vector g.participants s.world)
        sound.account
        (store_distributed_key-Imported S g.account passphrase (private_key_of S g) g.threshold
          vector g.participants s.world w1 kept keeping)

  commit_aggregated-Committed :
      (account : String) (confirmation : Bytes) (g : Generation S) (s s' : State S)
      (vector : Go (List S.PublicKey)) (pub_key sig : Bytes)
      → aggregate S g.shared_v_vecs (zero_vector S g.threshold) ≡ vector
      → Found S C account s g
      → Sound S C (account, g)
      → length g.shared_secrets ≡ length g.participants
      → length g.shared_v_vecs ≡ length g.participants
      → commit_aggregated S C account g confirmation vector s ≡ (ret (ok (pub_key, sig)), s')
      → Committed S C account confirmation s s' pub_key sig
  unfolding commit_aggregated
  commit_aggregated-Committed account confirmation g s s' panic pub_key sig sum found sound ls lv
        h =
      absurd (no_panic (ap (λ z. z.0) h))
  commit_aggregated-Committed account confirmation g s s' (ret vector) pub_key sig sum found sound
        ls lv h =
      let (done, s1, stored, ended) =
        try_then-inv (outside (store_and_retrieve S C g account vector))
          (λ x. finish S C account g confirmation vector) s s' (pub_key, sig) h in
      let (first, others, is_vector, key, signed, removed) =
        finished account g confirmation vector s1 s' pub_key sig ended in
      let whole : aggregate S g.shared_v_vecs (zero_vector S g.threshold) ≡ ret (first ∷ others) =
        sum ∙ ap ret is_vector in
      record {
        g = g;
        there = found.there;
        fresh = found.fresh;
        all_secrets = ls;
        all_v_vecs = lv;
        first = first;
        others = others;
        sum = whole;
        share = aggregate-share g.threshold g first others sound.matched whole;
        key = key;
        signed = signed;
        removed = removed ∙ ap (λ z. remove str_eq account z.1.generations) (sym stored);
        imported =
            subst
              (λ v.
                Imported S account (or_zero C.generation_passphrase g.passphrase)
                  (private_key_of S g) g.threshold v g.participants s.world)
              is_vector (stored-Imported account g vector s s1 done sound stored);
      }

  refused : {e : Error} {s s' : State S} {r : Bytes × Bytes} → pure (err e) s ≡ (ret (ok r), s') → ⊥
  refused h = not_err (ap (λ z. z.0) h)

  commit-Committed :
      (account : String) (confirmation : Bytes) (g : Generation S) (s s' : State S)
      (pub_key sig : Bytes)
      → Found S C account s g
      → Sound S C (account, g)
      → commit S C account g confirmation s ≡ (ret (ok (pub_key, sig)), s')
      → Committed S C account confirmation s s' pub_key sig
  unfolding commit
  commit-Committed account confirmation g s s' pub_key sig found sound h =
      from (length g.shared_secrets == length g.participants)
        (length g.shared_v_vecs == length g.participants) refl refl h
    where
      from :
          (a b : Bool)
          → (length g.shared_secrets == length g.participants) ≡ a
          → (length g.shared_v_vecs == length g.participants) ≡ b
          → (if not a
              then (ret (err "have too few or too many contributions"), s)
              else if not b
              then (ret (err "have too few or too many contributions"), s)
              else commit_aggregated S C account g confirmation
                  (aggregate S g.shared_v_vecs (zero_vector S g.threshold))
                  s)
            ≡ (ret (ok (pub_key, sig)), s')
          → Committed S C account confirmation s s' pub_key sig
      from false b ea eb q = absurd (refused q)
      from true false ea eb q = absurd (refused q)
      from true true ea eb q =
          commit_aggregated-Committed account confirmation g s s'
            (aggregate S g.shared_v_vecs (zero_vector S g.threshold)) pub_key sig refl found sound
            (ground arith) (ground arith) q

  pub on_commit-Committed :
      (account : String) (confirmation : Bytes) (s s' : State S) (pub_key sig : Bytes)
      → Inv S C s
      → on_commit S C account confirmation s ≡ (ret (ok (pub_key, sig)), s')
      → Committed S C account confirmation s s' pub_key sig
  unfolding on_commit commit_found
  on_commit-Committed account confirmation s s' pub_key sig inv h =
      from (get_generation S C account s).0 refl h
    where
      from :
          (o : Option (Generation S))
          → (get_generation S C account s).0 ≡ o
          → commit_found S C account confirmation o (get_generation S C account s).1
            ≡ (ret (ok (pub_key, sig)), s')
          → Committed S C account confirmation s s' pub_key sig
      from none e q = absurd (refused q)
      from (some g) e q =
          let found = get_generation-Found S C account s g e in
          commit-Committed account confirmation g s s' pub_key sig found
            (found-Sound S C account s g inv e)
            (subst (λ z. commit S C account g confirmation z ≡ (ret (ok (pub_key, sig)), s'))
              found.state q)
