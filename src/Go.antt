-- ===== src/Go.antt =====
-- What rules, ruler and signer use of the Go language: slices with their capacity, calls that may
-- panic, and the text of an error.
use dirk.Prelude.{
  ◌≡◌, ◌⊎◌, inl, inr, refl, ℕ, String, Option, none, some, List, [], ◌++◌, length, take, leb,
  if◌then◌else◌, ◌≡◌, ◌⊎◌, inl, inr,
}

abbrev pub Bytes : Type 0
Bytes = List ℕ

-- The text of an `error`, as `err.Error()` gives it.
abbrev pub Error : Type 0
Error = String

-- A non-nil slice: its bytes, and those of the backing array between its length and its capacity.
pub record Slice : Type 0 where
  pub bytes : Bytes
  pub spare : Bytes

-- The bytes of a slice that may be nil.
abbrev pub bytes_of : Option Slice → Bytes
bytes_of none = []
bytes_of (some s) = s.bytes

abbrev pub backing : Option Slice → Bytes
backing none = []
backing (some s) = s.bytes ++ s.spare

-- A call returns, or panics.
pub data Go {ℓ} (A : Type ℓ) : Type ℓ where
  ret : A → Go A
  panic : Go A

-- A call over a state: what it wrote before a panic stays written.
abbrev pub Run {ℓ} : Type ℓ → Type ℓ → Type ℓ
Run S A = S → Go A × S

infixl 5 ◌>>=◌
abbrev pub ◌>>=◌ {ℓ} : {S A B : Type ℓ} → Run S A → (A → Run S B) → Run S B
◌>>=◌ m f s = let (r, s') = m s in elim r [ ret a ↦ f a s' | panic ↦ (panic, s') ]

abbrev pub pure {ℓ} : {S A : Type ℓ} → A → Run S A
pure a s = (ret a, s)

abbrev pub crash {ℓ} : {S A : Type ℓ} → Run S A
crash s = (panic, s)

-- s[0:4]: it reads up to the capacity, and panics beyond it.
unfoldable pub first4 : Option Slice → Go Bytes
first4 s = if leb 4 (length (backing s)) then ret (take 4 (backing s)) else panic

-- A pair of a value and an `error`, of which callers read one.
pub data Result {ℓ} (A : Type ℓ) : Type ℓ where
  ok : A → Result A
  err : Error → Result A

pub Result-cases {ℓ} :
    {A : Type ℓ} (r : Result A) → ((a : A) × (r ≡ ok a)) ⊎ ((e : Error) × (r ≡ err e))
Result-cases (ok a) = inl (a, refl)
Result-cases (err e) = inr (e, refl)

-- A run keeps a property of the state, whether it returns or panics.
abbrev pub Preserves : {S A : Type 0} → (S → Type 0) → Run S A → Type 0
Preserves {S} C m = (s : S) → C s → C (m s).1

pub Preserves-bind :
    {S A B : Type 0} (C : S → Type 0) (m : Run S A) (f : A → Run S B)
    → Preserves C m
    → ((a : A) → Preserves C (f a))
    → Preserves C (m >>= f)
Preserves-bind {S} {A} {B} C m f hm hf s c = after (m s).0 (m s).1 (hm s c)
  where
    after : (r : Go A) (s' : S) → C s' → C (((λ t. (r, s')) >>= f) s).1
    after (ret a) s' h = hf a s' h
    after panic s' h = h

pub Go-cases {ℓ} : {A : Type ℓ} (r : Go A) → (r ≡ panic) ⊎ ((a : A) × (r ≡ ret a))
Go-cases (ret a) = inr (a, refl)
Go-cases panic = inl refl

pub ret-inj : {A : Type 0} {a b : A} → ret a ≡ ret b → a ≡ b
ret-inj h = cc

module _ {W A B : Type 0} (m : Run W A) (f : A → Run W B) where
  -- A call after another that returns.
  pub bind-inv :
      (w w' : W) (b : B)
      → (m >>= f) w ≡ (ret b, w')
      → (a : A) × (w1 : W) × (m w ≡ (ret a, w1)) × (f a w1 ≡ (ret b, w'))
  bind-inv w w' b h = from (m w).0 (m w).1 refl h
    where
      from :
          (r : Go A) (w1 : W)
          → m w ≡ (r, w1)
          → ((λ z. (r, w1)) >>= f) w ≡ (ret b, w')
          → (a : A) × (w1 : W) × (m w ≡ (ret a, w1)) × (f a w1 ≡ (ret b, w'))
      from panic w1 e q = cc
      from (ret a) w1 e q = (a, w1, e, q)
