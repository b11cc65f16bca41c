-- ===== src/Maps.antt =====
-- Go's maps as association lists, over a key with a Boolean equality. The order in which the code
-- visits a map is that of the list.
use dirk.Prelude.{
  false, ◌≡◌, ◌↔◌, Bool, true, Option, none, some, List, [], ◌∷◌, arith, if◌then◌else◌, All, refl,
  Bool-cases, inl, subst, sym, inr,
}

module _ {ℓ} {K V : Type ℓ} (eq : K → K → Bool) where
  abbrev pub lookup : K → List (K × V) → Option V
  lookup k [] = none
  lookup k ((j, v) ∷ m) = if eq j k then some v else lookup k m

  abbrev pub insert : K → V → List (K × V) → List (K × V)
  insert k v [] = (k, v) ∷ []
  insert k v ((j, w) ∷ m) = if eq j k then (k, v) ∷ m else (j, w) ∷ insert k v m

  abbrev pub remove : K → List (K × V) → List (K × V)
  remove k [] = []
  remove k ((j, w) ∷ m) = if eq j k then remove k m else (j, w) ∷ remove k m

  -- What every entry satisfies, after an entry is put in.
  pub All-insert :
      (P : K × V → Type 0) (k : K) (v : V) (m : List (K × V))
      → P (k, v)
      → All P m
      → All P (insert k v m)
  All-insert P k v [] h hs = (h, hs)
  All-insert P k v ((j, w) ∷ m) h hs = elim (Bool-cases (eq j k)) [
    | inl e ↦ subst (λ b. All P (if b then (k, v) ∷ m else (j, w) ∷ insert k v m)) (sym e) (h, hs.1)
    | inr e ↦
        subst (λ b. All P (if b then (k, v) ∷ m else (j, w) ∷ insert k v m)) (sym e)
          (hs.0, All-insert P k v m h hs.1)
  ]

  pub All-remove : (P : K × V → Type 0) (k : K) (m : List (K × V)) → All P m → All P (remove k m)
  All-remove P k [] hs = tt
  All-remove P k ((j, w) ∷ m) hs = go (All-remove P k m hs.1) (eq j k)
    where
      go : All P (remove k m) → (b : Bool) → All P (if b then remove k m else (j, w) ∷ remove k m)
      go rest true = rest
      go rest false = (hs.0, rest)

  some-inj : {a b : V} → some a ≡ some b → a ≡ b
  some-inj h = cc

  module _ (eq_iff : (a b : K) → (eq a b ≡ true) ↔ (a ≡ b)) where
    pub lookup-insert :
        (k j : K) (v : V) (m : List (K × V))
        → lookup j (insert k v m) ≡ (if eq k j then some v else lookup j m)
    lookup-insert k j v [] = refl
    lookup-insert k j v ((i, w) ∷ m) =
        ground (arith, eq_iff k j, eq_iff i k, eq_iff i j, lookup-insert k j v m)

    pub lookup-remove :
        (k j : K) (m : List (K × V)) → lookup j (remove k m) ≡ (if eq k j then none else lookup j m)
    lookup-remove k j [] = ground arith
    lookup-remove k j ((i, w) ∷ m) =
        ground (arith, eq_iff k j, eq_iff i k, eq_iff i j, lookup-remove k j m)

    pub All-lookup :
        (P : K × V → Type 0) (k : K) (v : V) (m : List (K × V))
        → All P m
        → lookup k m ≡ some v
        → P (k, v)
    All-lookup P k v [] hs e = cc
    All-lookup P k v ((j, w) ∷ m) hs e = elim (Bool-cases (eq j k)) [
      | inl same ↦
          subst (λ i. P (i, v)) ((eq_iff j k).0 same)
            (subst (λ u. P (j, u))
              (some-inj (subst (λ b. (if b then some w else lookup k m) ≡ some v) same e)) hs.0)
      | inr other ↦
          All-lookup P k v m hs.1 (subst (λ b. (if b then some w else lookup k m) ≡ some v) other e)
    ]
