-- ===== src/Rules/Interchange/Collected.antt =====
-- What FetchAll collects: each key of the database with the value that is read.
use dirk.Rules.Storage.{view_item, read_item}
use dirk.Maps.{lookup, insert, lookup-insert, All-insert}
use dirk.Rules.Interchange.{fetch_items, Items}
use dirk.Rules.Env.{read_panic, Env, ItemRead, value, read_error}
use dirk.Go.{Bytes, ret, ok}
use dirk.Prelude.{
  ℕ, zero, suc, ◌≡◌, ◌⊎◌, inl, inr, refl, ap, subst, some, List, [], ◌∷◌, ◌++◌, arith, length, All,
  take, replicate, bytes_equal, bytes_equal_iff, Bool-cases, if◌then◌else◌, get_elem?,
}

-- An item of the iteration.
abbrev pub Has : Bytes → Bytes → List (Bytes × ItemRead) → Type 0
Has k v [] = ⊥
Has k v ((j, r) ∷ rest) = ((j ≡ k) × (r ≡ value v)) ⊎ Has k v rest

-- badger's documented behaviour: an iteration visits the keys that can be read, with the value that is
-- read. Its keys are those that the rules write: a public key of 48 bytes, and one byte.
pub record Listed (E : Env) (d : E.Db) : Type 0 where
  pub listed : (k v : Bytes) → view_item (E.get d k) ≡ ret (ok v) → Has k v (E.iterate d)
  pub reads : All (λ e. view_item (E.get d e.0) ≡ read_item e.1) (E.iterate d)
  pub keys : All (λ e. length e.0 ≡ 49) (E.iterate d)

pub take-append : (n : ℕ) (k rest : Bytes) → length k ≡ n → take n (k ++ rest) ≡ k
take-append zero [] rest h = refl
take-append zero (b ∷ k) rest h = absurd (omega (arith, h))
take-append (suc n) [] rest h = absurd (omega (arith, h))
take-append (suc n) (b ∷ k) rest h = ap (λ z. b ∷ z) (take-append n k rest (omega (arith, h)))

pub get_elem-append : (n b : ℕ) (k : Bytes) → length k ≡ n → get_elem? (k ++ b ∷ []) n ≡ some b
get_elem-append zero b [] h = refl
get_elem-append zero b (c ∷ k) h = absurd (omega (arith, h))
get_elem-append (suc n) b [] h = absurd (omega (arith, h))
get_elem-append (suc n) b (c ∷ k) h = get_elem-append n b k (omega (arith, h))

pub split_last :
    (n b : ℕ) (k : Bytes) → length k ≡ suc n → get_elem? k n ≡ some b → k ≡ take n k ++ b ∷ []
split_last n b [] h e = absurd (omega (arith, h))
split_last zero b (c ∷ []) h e = ground arith
split_last zero b (c ∷ c' ∷ k) h e = absurd (omega (arith, h))
split_last (suc n) b (c ∷ k) h e = ap (λ z. c ∷ z) (split_last n b k (omega (arith, h)) e)

-- Items in which a key has one value.
abbrev pub Holds : Bytes → Bytes → Items → Type 0
Holds k v items = All (λ e. (length e.0 ≡ 49) × (e.0 ≡ k → e.1 ≡ v)) items

pub lookup-insert_bytes :
    {V : Type 0} (k j : Bytes) (v : V) (m : List (Bytes × V))
    → lookup bytes_equal j (insert bytes_equal k v m)
      ≡ (if bytes_equal k j then some v else lookup bytes_equal j m)
lookup-insert_bytes k j v m = lookup-insert bytes_equal bytes_equal_iff k j v m

value-inj : (v w : Bytes) → value v ≡ value w → v ≡ w
value-inj v w h = cc

-- The visit of an item keeps what a key's lookup gives, and gives it for the item's own key.
visited :
    (k v j w : Bytes) (l : List (Bytes × ItemRead)) (items : Items)
    → (j ≡ k → w ≡ v)
    → (lookup bytes_equal k items ≡ some v) ⊎ Has k v ((j, value w) ∷ l)
    → (lookup bytes_equal k (insert bytes_equal j w items) ≡ some v) ⊎ Has k v l
visited k v j w l items agree h = elim (Bool-cases (bytes_equal j k)) [
  | inl same ↦
      inl (rw (lookup-insert_bytes j k w items, same, agree ((bytes_equal_iff j k).0 same)) refl)
  | inr other ↦ elim h [
    | inl there ↦ inl (rw (lookup-insert_bytes j k w items, other) there)
    | inr (inl (here, _)) ↦ absurd (ground (arith, bytes_equal_iff j k))
    | inr (inr later) ↦ inr later
  ]
]

-- The loop's items hold a key's value once it was visited.
pub fetch_items-lookup :
    (k v : Bytes) (l : List (Bytes × ItemRead)) (items items' : Items)
    → All (λ e. length e.0 ≡ 49) l
    → All (λ e. e.0 ≡ k → e.1 ≡ value v) l
    → (lookup bytes_equal k items ≡ some v) ⊎ Has k v l
    → Holds k v items
    → fetch_items l items ≡ ret (ok items')
    → (lookup bytes_equal k items' ≡ some v) × Holds k v items'
unfolding fetch_items
fetch_items-lookup k v [] items items' hl ha (inl h) hi e =
    let same : items ≡ items' = cc in
    subst (λ m. (lookup bytes_equal k m ≡ some v) × Holds k v m) same (h, hi)
fetch_items-lookup k v [] items items' hl ha (inr h) hi e = absurd h
fetch_items-lookup k v ((j, value w) ∷ l) items items' hl ha h hi e =
    fetch_items-lookup k v l (insert bytes_equal j w items) items' hl.1 ha.1
      (visited k v j w l items (λ s. value-inj w v (ha.0 s)) h)
      (All-insert bytes_equal (λ e. (length e.0 ≡ 49) × (e.0 ≡ k → e.1 ≡ v)) j w items
        (hl.0, λ s. value-inj w v (ha.0 s)) hi)
      (subst (λ z. fetch_items l (insert bytes_equal z w items) ≡ ret (ok items'))
        (take-append 49 j (replicate 49 0) hl.0) e)
fetch_items-lookup k v ((j, read_error x) ∷ l) items items' hl ha h hi e = cc
fetch_items-lookup k v ((j, read_panic) ∷ l) items items' hl ha h hi e = cc

pub read_item-value : (r : ItemRead) (v : Bytes) → read_item r ≡ ret (ok v) → r ≡ value v
unfolding read_item
read_item-value (value w) v h = let same : w ≡ v = cc in ap value same
read_item-value (read_error e) v h = cc
read_item-value read_panic v h = cc
