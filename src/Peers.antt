-- ===== src/Peers.antt =====
-- services/peers/static: the other instances, from the configuration. A map is a list of its
-- entries, in the order in which the code visits it.
use dirk.Process.Env.{Endpoint}
use dirk.Process.{lookup_id}
use dirk.Go.{ok, err, Result, Go, ret, panic}
use dirk.Prelude.{Bool, true, false, none, zero, suc}
use dirk.Process.Env.{Endpoint}
use dirk.Go.{Go, ret, Result, err, ok, panic}
use dirk.Prelude.{
  ℕ, zero, suc, ◌≡◌, refl, Bool, true, false, ◌||◌, none, some, List, [], ◌∷◌, map, arith, length,
  take, ◌==◌, ltb, if◌then◌else◌, String, str_eq,
}

-- The functions of Go's library that the configuration is read with.
pub record Strings : Type 0 where
  -- strings.Split(s, ":")
  pub split : String → List String
  -- strconv.ParseUint(s, 10, 32)
  pub parse_uint : String → Result ℕ

abbrev pub mem_name : String → List String → Bool
mem_name name [] = false
mem_name name (n ∷ names) = str_eq n name || mem_name name names

module _ (G : Strings) where
  -- The endpoint of an entry of the configuration, unless its name is among those before it.
  unfoldable pub peer_of : List String → ℕ → List String → Result Endpoint
  peer_of names id (name ∷ port ∷ []) =
      if mem_name name names then err "duplicate peer name" else elim (G.parse_uint port) [
        | err e ↦ err "malformed peer port"
        | ok n ↦
            if n == 0
            then err "invalid peer port"
            else ok (record { id = id; name = name; port = n })
      ]
  peer_of names id info = err "malformed peer"

  -- The loop over the configured peers.
  unfoldable pub new_peers : List String → List (ℕ × String) → Result (List (ℕ × Endpoint))
  new_peers names [] = ok []
  new_peers names ((id, v) ∷ rest) = elim (peer_of names id (G.split v)) [
    | err e ↦ err e
    | ok p ↦ elim (new_peers (p.name ∷ names) rest) [ err e ↦ err e | ok ps ↦ ok ((id, p) ∷ ps) ]
  ]

-- Peer
unfoldable pub peer : ℕ → List (ℕ × Endpoint) → Result Endpoint
peer id peers = elim (lookup_id id peers) [ none ↦ err "not found" | some p ↦ ok p ]

abbrev pub cons_peer : Endpoint → Go (List Endpoint) → Go (List Endpoint)
cons_peer p panic = panic
cons_peer p (ret ps) = ret (p ∷ ps)

-- The loop of Suitable, with the places of `res` that are left: beyond them it panics. It breaks off
-- when the last is taken.
unfoldable pub fill : ℕ → List (ℕ × Endpoint) → Go (List Endpoint)
fill left [] = ret []
fill zero (p ∷ ps) = panic
fill (suc zero) (p ∷ ps) = ret (p.1 ∷ [])
fill (suc (suc left)) (p ∷ ps) = cons_peer p.1 (fill (suc left) ps)

abbrev pub enough : ℕ → Go (List Endpoint) → Go (Result (List Endpoint))
enough threshold panic = panic
enough threshold (ret res) =
    if ltb (length res) threshold then ret (err "not enough suitable peers") else ret (ok res)

unfoldable pub suitable : ℕ → List (ℕ × Endpoint) → Go (Result (List Endpoint))
suitable threshold peers = enough threshold (fill threshold peers)

-- What Suitable means to return: the first peers, if there are enough.
abbrev pub first_peers : ℕ → List (ℕ × Endpoint) → Result (List Endpoint)
first_peers threshold peers =
    if ltb (length peers) threshold
    then err "not enough suitable peers"
    else ok (map (λ p. p.1) (take threshold peers))

fill-eq :
    (n : ℕ) (peers : List (ℕ × Endpoint))
    → fill (suc n) peers ≡ ret (map (λ p. p.1) (take (suc n) peers))
unfolding fill
fill-eq n [] = refl
fill-eq zero (p ∷ ps) = refl
fill-eq (suc n) (p ∷ ps) = rw (fill-eq n ps) refl

length-first :
    (n : ℕ) (peers : List (ℕ × Endpoint))
    → ltb (length (map (λ p. p.1) (take n peers))) n ≡ ltb (length peers) n
length-first zero peers = ground arith
length-first (suc n) [] = refl
length-first (suc n) (p ∷ ps) = ground (arith, length-first n ps)

ret-if : {A : Type 0} (b : Bool) (x y : A) → (if b then ret x else ret y) ≡ ret (if b then x else y)
ret-if true x y = refl
ret-if false x y = refl

-- Suitable, asked for at least one peer, returns the first that it visits, as many as asked for, or an
-- error if there are fewer; it does not panic.
pub suitable-first_peers :
    (n : ℕ) (peers : List (ℕ × Endpoint)) → suitable (suc n) peers ≡ ret (first_peers (suc n) peers)
unfolding suitable
suitable-first_peers n peers =
    rw (fill-eq n peers, length-first (suc n) peers)
      (ret-if (ltb (length peers) (suc n)) (err "not enough suitable peers")
        (ok (map (λ p. p.1) (take (suc n) peers))))
