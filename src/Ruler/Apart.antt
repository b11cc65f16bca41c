-- ===== src/Ruler/Apart.antt =====
-- The guard against several requests for one public key.
use dirk.Prelude.{
  ◌≡◌, ◌≢◌, ap, false, none, List, [], ◌∷◌, map, arith, All, All-map, Ordered, bytes_equal_iff,
}
use dirk.Go.{Bytes}
use dirk.Ruler.{RulesData, to_bytes48, mem_key, first_clash}

abbrev Fresh : List Bytes → RulesData → Type 0
Fresh seen rd = mem_key (to_bytes48 rd.pub_key) seen ≡ false

mem_key-cons :
    (k j : Bytes) (seen : List Bytes)
    → mem_key k (j ∷ seen) ≡ false
    → (j ≢ k) × (mem_key k seen ≡ false)
mem_key-cons k j seen h = (λ e. ground (arith, bytes_equal_iff j k), ground arith)

first_clash-cons :
    (seen : List Bytes) (rd : RulesData) (rds : List RulesData)
    → first_clash seen (rd ∷ rds) ≡ none
    → Fresh seen rd × (first_clash (to_bytes48 rd.pub_key ∷ seen) rds ≡ none)
unfolding first_clash
first_clash-cons seen rd rds h = ground arith

-- Once the guard has passed, no key is among those seen before it.
first_clash-Fresh :
    (seen : List Bytes) (rds : List RulesData) → first_clash seen rds ≡ none → All (Fresh seen) rds
first_clash-Fresh seen [] h = tt
first_clash-Fresh seen (rd ∷ rds) h =
    let (now, rest) = first_clash-cons seen rd rds h in
    (
      now,
      All-map (Fresh (to_bytes48 rd.pub_key ∷ seen)) (Fresh seen) rds
          (λ x f. (mem_key-cons (to_bytes48 x.pub_key) (to_bytes48 rd.pub_key) seen f).1)
          (first_clash-Fresh (to_bytes48 rd.pub_key ∷ seen) rds rest),
    )

abbrev locked_key : RulesData → Bytes
locked_key rd = to_bytes48 rd.pub_key

Apart-map :
    (k : Bytes) (rds : List RulesData)
    → All (λ x. k ≢ locked_key x) rds
    → All (λ j. k ≢ j) (map locked_key rds)
Apart-map k [] h = tt
Apart-map k (rd ∷ rds) h = (h.0, Apart-map k rds h.1)

-- If the guard of RunRules finds no entry without a public key or with that of an earlier one, the
-- [48]byte keys that are locked for the entries are all different.
pub first_clash-Ordered :
    (seen : List Bytes) (rds : List RulesData)
    → first_clash seen rds ≡ none
    → Ordered (λ a b. a ≢ b) (map (λ rd. to_bytes48 (RulesData.pub_key rd)) rds)
first_clash-Ordered seen [] h = tt
first_clash-Ordered seen (rd ∷ rds) h =
    let (now, rest) = first_clash-cons seen rd rds h in
    (
      Apart-map (locked_key rd) rds (
          All-map (Fresh (to_bytes48 rd.pub_key ∷ seen)) (λ x. locked_key rd ≢ locked_key x) rds
            (λ x f. (mem_key-cons (to_bytes48 x.pub_key) (to_bytes48 rd.pub_key) seen f).0)
            (first_clash-Fresh (to_bytes48 rd.pub_key ∷ seen) rds rest)),
      first_clash-Ordered (to_bytes48 rd.pub_key ∷ seen) rds rest,
    )

All-raw :
    (k : Bytes) (rds : List RulesData)
    → All (λ j. to_bytes48 k ≢ j) (map (λ rd. to_bytes48 (RulesData.pub_key rd)) rds)
    → All (λ j. k ≢ j) (map (λ rd. RulesData.pub_key rd) rds)
All-raw k [] h = tt
All-raw k (rd ∷ rds) h = (λ e. h.0 (ap to_bytes48 e), All-raw k rds h.1)

pub raw_keys-Ordered :
    (rds : List RulesData)
    → Ordered (λ a b. a ≢ b) (map (λ rd. to_bytes48 (RulesData.pub_key rd)) rds)
    → Ordered (λ a b. a ≢ b) (map (λ rd. RulesData.pub_key rd) rds)
raw_keys-Ordered [] h = tt
raw_keys-Ordered (rd ∷ rds) h = (All-raw rd.pub_key rds h.0, raw_keys-Ordered rds h.1)
