-- ===== src/Signer/Root/RoundTrip.antt =====
-- The encoding of signing roots.
use dirk.Prelude.{length-append}
use dirk.Prelude.{
  ℕ, zero, suc, ◌+◌, ◌≡◌, refl, ◌∙◌, ap, List, [], ◌∷◌, ◌++◌, arith, length, take, drop,
}
use dirk.Go.{ok, Bytes}
use dirk.Signer.Root.{SigningRoot, marshal_ssz, marshal_ssz_to, unmarshal_ssz, size_ssz}

abbrev pub empty : SigningRoot
empty = record { data_root = []; domain = [] }

-- Two lists whose first parts are of one length.
take-append : {A : Type 0} (n : ℕ) (xs ys : List A) → length xs ≡ n → take n (xs ++ ys) ≡ xs
take-append zero [] ys h = refl
take-append zero (x ∷ xs) ys h = ground arith
take-append (suc n) [] ys h = ground arith
take-append (suc n) (x ∷ xs) ys h = ap (λ l. x ∷ l) (take-append n xs ys (ground arith))

take_self : {A : Type 0} (n : ℕ) (xs : List A) → length xs ≡ n → take n xs ≡ xs
take_self zero [] h = refl
take_self zero (x ∷ xs) h = ground arith
take_self (suc n) [] h = ground arith
take_self (suc n) (x ∷ xs) h = ap (λ l. x ∷ l) (take_self n xs (ground arith))

drop-append : {A : Type 0} (n : ℕ) (xs ys : List A) → length xs ≡ n → drop n (xs ++ ys) ≡ ys
drop-append zero [] ys h = refl
drop-append zero (x ∷ xs) ys h = ground arith
drop-append (suc n) [] ys h = ground arith
drop-append (suc n) (x ∷ xs) ys h = drop-append n xs ys (ground arith)

-- A signing root whose two fields have 32 bytes is encoded to SizeSSZ() bytes that decode, into an empty
-- object, to it.
pub unmarshal-marshal :
    (s : SigningRoot)
    → length s.data_root ≡ 32
    → length s.domain ≡ 32
    → (buf : Bytes) × (marshal_ssz s ≡ ok buf)
      × (length buf ≡ size_ssz s)
      × (unmarshal_ssz empty buf ≡ ok s)
unfolding marshal_ssz marshal_ssz_to unmarshal_ssz
unmarshal-marshal s h k =
    let len : length (s.data_root ++ s.domain) ≡ 64 =
      length-append s.data_root s.domain ∙ ap (λ n. n + length s.domain) h ∙ ap (λ n. 32 + n) k in
    (
      s.data_root ++ s.domain,
      rw (h, k) refl,
      len,
      rw
          (
            len,
            take-append 32 s.data_root s.domain h,
            drop-append 32 s.data_root s.domain h,
            take_self 32 s.domain k,
          )
          refl,
    )
