-- ===== src/Process/Shares.antt =====
-- The shares of a generation fit its verification vectors: the sum of the shares is the secret of
-- the sum of the vectors.
use dirk.Process.Commit.{add_v_vec, aggregate, composite_secret}
use dirk.Process.{bls_id, verify_contribution, insert_id}
use dirk.Process.Env.{Services, LawfulBls, IsSum}
use dirk.Go.{panic, Go-cases, Error, ret-inj, ret, ok, Result-cases, err}
use dirk.Prelude.{
  ℕ, suc, ◌≡◌, inl, inr, refl, sym, ◌∙◌, ap, subst, Bool, true, false, List, [], ◌∷◌, length, ◌==◌,
  if◌then◌else◌,
}

module _ (S : Services) where
  -- The two maps have the same keys, in one order, and each share verifies for the instance.
  abbrev pub Matched : ℕ → List (ℕ × S.SecretKey) → List (ℕ × List S.PublicKey) → Type 0
  Matched id [] [] = Unit
  Matched id ((k, secret) ∷ secrets) ((j, v_vec) ∷ v_vecs) =
      (k ≡ j) × (verify_contribution S id secret v_vec ≡ true) × Matched id secrets v_vecs
  Matched id _ _ = ⊥

  -- A verified contribution that is put in both maps.
  pub insert-Matched :
      (id k : ℕ) (secret : S.SecretKey) (v_vec : List S.PublicKey)
      (secrets : List (ℕ × S.SecretKey)) (v_vecs : List (ℕ × List S.PublicKey))
      → verify_contribution S id secret v_vec ≡ true
      → Matched id secrets v_vecs
      → Matched id (insert_id k secret secrets) (insert_id k v_vec v_vecs)
  insert-Matched id k secret v_vec [] [] h m = (refl, h, tt)
  insert-Matched id k secret v_vec [] (_ ∷ _) h m = absurd m
  insert-Matched id k secret v_vec (_ ∷ _) [] h m = absurd m
  insert-Matched id k secret v_vec ((j, s) ∷ secrets) ((i, v) ∷ v_vecs) h (same, fits, m) =
      subst
        (λ i'.
          Matched id (insert_id k secret ((j, s) ∷ secrets)) (insert_id k v_vec ((i', v) ∷ v_vecs)))
        same (at_key (insert-Matched id k secret v_vec secrets v_vecs h m) (j == k))
    where
      at_key :
          Matched id (insert_id k secret secrets) (insert_id k v_vec v_vecs)
          → (b : Bool)
          → Matched id
              (if b then (k, secret) ∷ secrets else (j, s) ∷ insert_id k secret secrets)
              (if b then (k, v_vec) ∷ v_vecs else (j, v) ∷ insert_id k v_vec v_vecs)
      at_key rest true = (refl, h, m)
      at_key rest false = (refl, fits, rest)

  pub length-Matched :
      (id : ℕ) (secrets : List (ℕ × S.SecretKey)) (v_vecs : List (ℕ × List S.PublicKey))
      → Matched id secrets v_vecs
      → length secrets ≡ length v_vecs
  length-Matched id [] [] m = refl
  length-Matched id [] (_ ∷ _) m = absurd m
  length-Matched id (_ ∷ _) [] m = absurd m
  length-Matched id (_ ∷ secrets) (_ ∷ v_vecs) m = ap suc (length-Matched id secrets v_vecs m.2)

  -- What a verified share is.
  abbrev Fits : ℕ → S.SecretKey → List S.PublicKey → Type 0
  Fits id secret v_vec = S.set_public v_vec (bls_id S id) ≡ ok (S.get_public_key secret)

  module _ (L : LawfulBls S.bls) where
    verify_contribution-Fits :
        (id : ℕ) (secret : S.SecretKey) (v_vec : List S.PublicKey)
        → verify_contribution S id secret v_vec ≡ true
        → Fits id secret v_vec
    unfolding verify_contribution
    verify_contribution-Fits id secret v_vec h =
        elim (Result-cases (S.set_public v_vec (bls_id S id))) [
          | inl (key, e) ↦ e ∙ ap ok (sym (L.equal (S.get_public_key secret) key (checked key e)))
          | inr (x, e) ↦ absurd (refused x e)
        ]
      where
        checked :
            (key : S.PublicKey)
            → S.set_public v_vec (bls_id S id) ≡ ok key
            → S.is_equal (S.get_public_key secret) key ≡ true
        checked key e =
            subst
              (λ r.
                (elim r [ err x ↦ false | ok k ↦ S.is_equal (S.get_public_key secret) k ]) ≡ true)
              e h

        refused : (x : Error) → S.set_public v_vec (bls_id S id) ≡ err x → ⊥
        refused x e =
            let q : false ≡ true =
              subst
                (λ r.
                  (elim r [ err x ↦ false | ok k ↦ S.is_equal (S.get_public_key secret) k ]) ≡ true)
                e h in
            cc

    add_v_vec-IsSum :
        (acc v sum : List S.PublicKey) → add_v_vec S acc v ≡ ret sum → IsSum S.bls acc v sum
    unfolding add_v_vec
    add_v_vec-IsSum acc [] sum h = let same : acc ≡ sum = cc in same
    add_v_vec-IsSum [] (v ∷ vs) sum h = cc
    add_v_vec-IsSum (a ∷ acc) (v ∷ vs) sum h = elim (Go-cases (add_v_vec S acc vs)) [
      | inl e ↦ absurd (broken e)
      | inr (rest, e) ↦ whole rest (add_v_vec-IsSum acc vs rest e) e
    ]
      where
        broken : add_v_vec S acc vs ≡ panic → ⊥
        broken e =
            let q : panic ≡ ret sum =
              subst (λ r. (elim r [ panic ↦ panic | ret t ↦ ret (S.add_public a v ∷ t) ]) ≡ ret sum)
                e h in
            cc

        whole :
            (rest : List S.PublicKey)
            → IsSum S.bls acc vs rest
            → add_v_vec S acc vs ≡ ret rest
            → IsSum S.bls (a ∷ acc) (v ∷ vs) sum
        whole rest tails e =
            subst (λ t. IsSum S.bls (a ∷ acc) (v ∷ vs) t)
              (ret-inj (
                subst
                  (λ r. (elim r [ panic ↦ panic | ret t ↦ ret (S.add_public a v ∷ t) ]) ≡ ret sum) e
                  h))
              (refl, tails)

    -- One more share and its vector.
    add_v_vec-Fits :
        (id : ℕ) (key secret : S.SecretKey) (acc v sum : List S.PublicKey)
        → Fits id key acc
        → Fits id secret v
        → add_v_vec S acc v ≡ ret sum
        → Fits id (S.add_secret key secret) sum
    add_v_vec-Fits id key secret acc v sum hk hs h =
        L.set_add acc v sum (bls_id S id) (S.get_public_key key) (S.get_public_key secret)
          (add_v_vec-IsSum acc v sum h) hk hs
        ∙ ap ok (sym (L.public_add key secret))

    pub aggregate-Fits :
        (id : ℕ) (secrets : List (ℕ × S.SecretKey)) (v_vecs : List (ℕ × List S.PublicKey))
        (key : S.SecretKey) (acc sum : List S.PublicKey)
        → Matched id secrets v_vecs
        → Fits id key acc
        → aggregate S v_vecs acc ≡ ret sum
        → Fits id (composite_secret S secrets key) sum
    unfolding aggregate composite_secret
    aggregate-Fits id [] [] key acc sum m hk h = subst (λ t. Fits id key t) (ret-inj h) hk
    aggregate-Fits id [] (_ ∷ _) key acc sum m hk h = absurd m
    aggregate-Fits id (_ ∷ _) [] key acc sum m hk h = absurd m
    aggregate-Fits id ((k, s) ∷ secrets) ((j, v) ∷ v_vecs) key acc sum m hk h =
        elim (Go-cases (add_v_vec S acc v)) [
          | inl e ↦ absurd (broken e)
          | inr (acc', e) ↦
              aggregate-Fits id secrets v_vecs (S.add_secret key s) acc' sum m.2
                (add_v_vec-Fits id key s acc v acc' hk (verify_contribution-Fits id s v m.1) e)
                (later acc' e)
        ]
      where
        broken : add_v_vec S acc v ≡ panic → ⊥
        broken e =
            let q : panic ≡ ret sum =
              subst (λ r. (elim r [ panic ↦ panic | ret t ↦ aggregate S v_vecs t ]) ≡ ret sum) e
                h in
            cc

        later : (t : List S.PublicKey) → add_v_vec S acc v ≡ ret t → aggregate S v_vecs t ≡ ret sum
        later t e =
            subst (λ r. (elim r [ panic ↦ panic | ret t ↦ aggregate S v_vecs t ]) ≡ ret sum) e h
