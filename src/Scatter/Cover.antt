-- ===== src/Scatter/Cover.antt =====
-- The workers' extents cover the input.
use dirk.Prelude.{
  ℕ, zero, suc, ◌+◌, ◌-◌, ◌*◌, ◌/◌, ◌%◌, ◌<◌, ◌≤◌, ◌≡◌, inl, inr, refl, sym, ◌∙◌, ap, subst, List,
  [], ◌∷◌, ◌++◌, arith, length, take, drop, Bool-cases, ◌==◌, ltb, if◌then◌else◌,
}
use dirk.Scatter.{calculate_extent_size, workers, extents_from, extents}
use native.Mathlib.Nat.{div-add-mod', suc-add, suc-mul, zero-add, add-mul, mod-lt, zero-mul}

-- The parts of a list that the extents are, one after the other.
abbrev pub parts : {A : Type 0} → List A → List (ℕ × ℕ) → List A
parts xs [] = []
parts xs ((offset, n) ∷ rest) = take n (drop offset xs) ++ parts xs rest

take-all : {A : Type 0} (n : ℕ) (xs : List A) → length xs ≤ n → take n xs ≡ xs
take-all zero [] h = refl
take-all zero (x ∷ xs) h = absurd (omega arith)
take-all (suc n) [] h = refl
take-all (suc n) (x ∷ xs) h = ap (λ l. x ∷ l) (take-all n xs (omega arith))

drop-all : {A : Type 0} (n : ℕ) (xs : List A) → length xs ≤ n → drop n xs ≡ []
drop-all zero [] h = refl
drop-all zero (x ∷ xs) h = absurd (omega arith)
drop-all (suc n) [] h = refl
drop-all (suc n) (x ∷ xs) h = drop-all n xs (omega arith)

take-drop : {A : Type 0} (n : ℕ) (xs : List A) → take n xs ++ drop n xs ≡ xs
take-drop zero xs = refl
take-drop (suc n) [] = refl
take-drop (suc n) (x ∷ xs) = ap (λ l. x ∷ l) (take-drop n xs)

drop_nil : {A : Type 0} (n : ℕ) → drop {A = A} n [] ≡ []
drop_nil zero = refl
drop_nil (suc n) = refl

drop-add : {A : Type 0} (o s : ℕ) (xs : List A) → drop (o + s) xs ≡ drop s (drop o xs)
drop-add zero s xs = ground arith
drop-add (suc o) s [] = drop_nil (suc o + s) ∙ sym (drop_nil s)
drop-add (suc o) s (x ∷ xs) = ap (λ n. drop n (x ∷ xs)) (suc-add o s) ∙ drop-add o s xs

length-drop : {A : Type 0} (o : ℕ) (xs : List A) → length (drop o xs) ≡ length xs - o
length-drop zero xs = omega arith
length-drop (suc o) [] = omega arith
length-drop (suc o) (x ∷ xs) = omega (arith, length-drop o xs)

append_nil : {A : Type 0} (xs : List A) → xs ++ [] ≡ xs
append_nil [] = refl
append_nil (x ∷ xs) = ap (λ l. x ∷ l) (append_nil xs)

-- One extent and what comes after it.
one-part :
    {A : Type 0} (o s : ℕ) (xs : List A)
    → take (if ltb (length xs) (o + s) then length xs - o else s) (drop o xs) ++ drop (o + s) xs
      ≡ drop o xs
one-part o s xs = elim (Bool-cases (ltb (length xs) (o + s))) [
  | inl e ↦
      rw
        (
          e,
          take-all (length xs - o) (drop o xs) (omega (arith, length-drop o xs)),
          drop-all (o + s) xs (ground arith),
        )
        (append_nil (drop o xs))
  | inr e ↦ rw (e, drop-add o s xs) (take-drop s (drop o xs))
]

parts-extents_from :
    {A : Type 0} (count worker size : ℕ) (xs : List A)
    → length xs ≤ (worker + count) * size
    → parts xs (extents_from count worker size (length xs)) ≡ drop (worker * size) xs
unfolding extents_from
parts-extents_from zero worker size xs h =
    sym (drop-all (worker * size) xs (subst (λ n. length xs ≤ n * size) (omega arith) h))
parts-extents_from (suc count) worker size xs h =
    let later : length xs ≤ (suc worker + count) * size =
      subst (λ n. length xs ≤ n * size) (omega arith) h in
    ap
      (λ l.
        take (if ltb (length xs) (worker * size + size) then length xs - worker * size else size)
          (drop (worker * size) xs)
        ++ l)
      (parts-extents_from count (suc worker) size xs later
        ∙ ap (λ n. drop n xs) (suc-mul worker size))
    ∙ one-part (worker * size) size xs

size_positive : (procs n : ℕ) → 0 < calculate_extent_size procs n
unfolding calculate_extent_size
size_positive procs n = ground arith

workers_enough : (n size : ℕ) → 0 < size → n ≤ workers n size * size
unfolding workers
workers_enough n size h = elim (Bool-cases (n % size == 0)) [
  | inl e ↦ rw e (ground (arith, div-add-mod' n size))
  | inr e ↦ rw e (omega (arith, div-add-mod' n size, mod-lt n h, add-mul (n / size) 1 size))
]

pub extents-cover :
    {A : Type 0} (procs : ℕ) (xs : List A) → parts xs (extents procs (length xs)) ≡ xs
unfolding extents
extents-cover procs xs =
    let size = calculate_extent_size procs (length xs) in
    parts-extents_from (workers (length xs) size) 0 size xs (
      subst (λ n. length xs ≤ n * size) (sym (zero-add (workers (length xs) size)))
        (workers_enough (length xs) size (size_positive procs (length xs))))
    ∙ ap (λ n. drop n xs) (zero-mul size)
