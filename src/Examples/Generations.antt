-- ===== src/Examples/Generations.antt =====
-- A distributed key generation with one participant, over numbers for keys.
use native.Mathlib.Nat.{mul-add}
use dirk.Process.Invariant.{Inv}
use dirk.Process.Reachable.{Reachable-Inv}
use dirk.Go.{ok, err, ret, Result}
use dirk.Process.Env.{Bls, Services, LawfulBls, IsSum, Endpoint}
use dirk.Process.{
  get_generation, prepare, prepare_if_none, contribution_of, random_secrets, secrets_for,
  confirm_secrets, State, Config, on_prepare,
}
use dirk.Process.Reachable.{after}
use dirk.Process.Commit.{
  commit_found, commit, commit_aggregated, finish, aggregate, add_v_vec, composite_secret, try_then,
  store_distributed_key, retrieve, while_unlocked, wallet_participants, on_commit,
}
use dirk.Words.{put_le, get_le}
use dirk.Process.Reachable.{initially, after, prepared, Reachable, Reachable-Committed}
use dirk.Process.Committed.{Committed}
use dirk.Words.{get_le}
use dirk.Process.Reachable.{Reachable, Reachable-Committed, initially, prepared}
use dirk.Process.Commit.{on_commit}
use dirk.Process.{Config, State, on_prepare}
use dirk.Process.Env.{IsSum, Endpoint, Bls, LawfulBls, Services}
use dirk.Process.Committed.{Committed}
use dirk.Prelude.{
  ℕ, zero, suc, ◌+◌, ◌*◌, ◌≡◌, inl, refl, subst, true, none, List, [], ◌∷◌, arith, replicate, ◌==◌,
}

-- The polynomial with these coefficients, at i.
abbrev polynomial : List ℕ → ℕ → ℕ
polynomial [] i = 0
polynomial (c ∷ cs) i = c + i * polynomial cs i

abbrev at : List ℕ → ℕ → Result ℕ
at [] i = err "no terms"
at (c ∷ cs) i = ok (polynomial (c ∷ cs) i)

abbrev numbers : Bls
numbers = record {
  SecretKey = ℕ;
  PublicKey = ℕ;
  ParticipantId = ℕ;
  zero_secret = 0;
  add_secret = λ a b. a + b;
  zero_public = 0;
  add_public = λ a b. a + b;
  is_equal = λ a b. a == b;
  get_public_key = λ a. a;
  set_secret = at;
  set_public = at;
  set_little_endian = get_le;
  serialize_secret = λ a. a ∷ [];
  serialize_public = λ a. a ∷ [];
  sign_byte = λ a bytes. a ∷ bytes;
}

polynomial-zero : (n i : ℕ) → polynomial (replicate n 0) i ≡ 0
polynomial-zero zero i = refl
polynomial-zero (suc n) i = rw (polynomial-zero n i) (ground arith)

polynomial-sum :
    (acc v sum : List ℕ) (i : ℕ)
    → IsSum numbers acc v sum
    → polynomial sum i ≡ polynomial acc i + polynomial v i
polynomial-sum acc [] sum i h = subst (λ z. polynomial z i ≡ polynomial acc i + 0) h (omega arith)
polynomial-sum (a ∷ acc) (c ∷ v) (t ∷ sum) i (e, h) =
    let tails = polynomial-sum acc v sum i h in
    rw (e, tails) (ground (arith, mul-add i (polynomial acc i) (polynomial v i)))
polynomial-sum [] (c ∷ v) sum i h = absurd h
polynomial-sum (a ∷ acc) (c ∷ v) [] i h = absurd h

numbers-add :
    (acc v sum : List ℕ) (i a b : ℕ)
    → IsSum numbers acc v sum
    → at acc i ≡ ok a
    → at v i ≡ ok b
    → at sum i ≡ ok (a + b)
numbers-add acc [] sum i a b h ha hb = cc
numbers-add [] (c ∷ v) sum i a b h ha hb = absurd h
numbers-add (k ∷ acc) (c ∷ v) [] i a b h ha hb = absurd h
numbers-add (k ∷ acc) (c ∷ v) (t ∷ sum) i a b h ha hb =
    let pa : polynomial (k ∷ acc) i ≡ a = cc in
    let pb : polynomial (c ∷ v) i ≡ b = cc in
    rw (polynomial-sum (k ∷ acc) (c ∷ v) (t ∷ sum) i h, pa, pb) refl

lawful_numbers : LawfulBls numbers
lawful_numbers = record {
  equal = λ a b h. ground arith;
  public_zero = refl;
  public_add = λ a b. refl;
  set_zero = λ n i. rw (polynomial-zero (suc n) i) refl;
  set_add = numbers-add;
}

abbrev pub services : Services
services = record {
  bls = numbers;
  World = Unit;
  Wallet = Unit;
  Account = Unit;
  now = λ w. 0;
  random_secret = λ w. (5, w);
  peer = λ id. err "not found";
  send_contribution = λ peer account secret vector w. (ret (err "no peers"), w);
  wallet_and_account_names = λ account. ok ("Wallet 1", "Account 1");
  open_wallet = λ name w. (ret (ok tt), w);
  is_locker = λ wallet. true;
  unlock = λ wallet w. (ret none, w);
  lock = λ wallet w. (ret none, w);
  import_distributed_account =
      λ wallet name key threshold vector participants passphrase w. (ret (ok tt), w);
  add_account = λ wallet account w. (ret none, w);
  is_provider = λ wallet. true;
  account_by_name = λ wallet name w. (ret (ok tt), w);
  join_host_port = λ name port. name;
}

abbrev config : Config
config = record { id = 1; generation_passphrase = 1 ∷ []; generation_timeout = 60 }

abbrev participants : List Endpoint
participants = record { id = 1; name = "server1"; port = 8881 } ∷ []

abbrev at_start : State services
at_start = record { generations = []; world = tt }

abbrev ready : State services
ready = (on_prepare services config "Wallet 1/Account 1" none 1 participants at_start).1

ready-Reachable : Reachable services config ready
ready-Reachable =
    after (initially tt) (prepared "Wallet 1/Account 1" none 1 participants (inl refl))

ready-commit :
    on_commit services config "Wallet 1/Account 1" (9 ∷ []) ready
    ≡ (ret (ok (5 ∷ [], 5 ∷ 9 ∷ [])), at_start)
unfolding on_commit get_generation commit_found commit commit_aggregated finish aggregate add_v_vec
    composite_secret try_then store_distributed_key retrieve while_unlocked wallet_participants
    on_prepare prepare prepare_if_none contribution_of random_secrets secrets_for confirm_secrets
    get_le put_le
ready-commit = refl

Reachable-Committed_example :
    Committed services config "Wallet 1/Account 1" (9 ∷ []) ready at_start (5 ∷ []) (5 ∷ 9 ∷ [])
Reachable-Committed_example =
    Reachable-Committed services config "Wallet 1/Account 1" (9 ∷ []) ready at_start (5 ∷ [])
      (5 ∷ 9 ∷ []) lawful_numbers ready-Reachable ready-commit

Reachable-Inv_example : Inv services config ready
Reachable-Inv_example = Reachable-Inv services config ready-Reachable
