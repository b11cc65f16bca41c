-- ===== src/Process/Requested.antt =====
-- What a request for a key that succeeds has passed: the guards of OnGenerate, then the rounds.
use dirk.Process.Env.{Services, Endpoint}
use dirk.Go.{bind-inv, ok, err, Result, Error, Bytes, Run, ret, ret-inj, pure, ◌>>=◌}
use dirk.Process.Generate.{
  Requests, on_generate, on_generate_in, generate_for, generate, generate_distributed, if_absent,
  if_allowed, check_access,
}
use dirk.Process.Agreed.{Agreed}
use dirk.Process.Made.{rounds, rounds-Agreed, not_ok}
use dirk.Process.Commit.{try_then}
use dirk.Process.Chains.{try_then-inv}
use dirk.Core.{result_succeeded, result_denied}
use dirk.Ruler.{Credentials}
use dirk.Prelude.{refl, Bool, true, false, ◌==◌, if◌then◌else◌, not, ltb, leb, ◌/◌, ◌<◌, ◌≤◌}
use dirk.Process.Made.{not_ok}
use dirk.Go.{Error, pure, Run, err, Result, ret, ok, ret-inj}
use dirk.Process.Generate.{on_generate}
use dirk.Prelude.{
  ℕ, ◌/◌, ◌<◌, ◌≤◌, ◌≡◌, ◌≢◌, refl, ap, Bool, true, false, not, Option, List, [], arith, ◌==◌, ltb,
  leb, if◌then◌else◌, String, str_eq,
}

-- An error is no result.
refused : {W A : Type 0} {e : Error} {w w' : W} {a : A} → pure (err e) w ≡ (ret (ok a), w') → ⊥
refused h = not_ok (ret-inj (ap (λ z. z.0) h))

-- A guard that refuses a request.
guarded :
    {W A : Type 0} (b : Bool) (e : Error) (m : Run W (Result A)) (w w' : W) (a : A)
    → (if b then pure (err e) else m) w ≡ (ret (ok a), w')
    → (b ≡ false) × (m w ≡ (ret (ok a), w'))
guarded true e m w w' a h = absurd (refused h)
guarded false e m w w' a h = (refl, h)

module _ (S : Services) (R : Requests S) where
  generate_distributed-Agreed :
      (wallet : S.Wallet) (account : String) (passphrase : Option Bytes) (threshold count : ℕ)
      (w w' : S.World) (made : Bytes × List Endpoint)
      → generate_distributed S R wallet account passphrase threshold count w ≡ (ret (ok made), w')
      → Agreed S R account threshold count made.0 made.1
  unfolding generate_distributed rounds
  generate_distributed-Agreed wallet account passphrase threshold count w w' made h =
      rounds-Agreed S R account passphrase threshold count w w' made
        (guarded (not (str_eq (R.wallet_type wallet) "distributed"))
          "wallet does not support distributed generation"
          (rounds S R account passphrase threshold count) w w' made h).1

  generate_for-Agreed :
      (wallet : S.Wallet) (account account_name : String) (passphrase : Option Bytes)
      (threshold count : ℕ) (w w' : S.World) (made : Bytes × List Endpoint)
      → count ≢ 1
      → generate_for S R wallet account account_name passphrase threshold count w
        ≡ (ret (ok made), w')
      → Agreed S R account threshold count made.0 made.1
  unfolding generate_for
  generate_for-Agreed wallet account account_name passphrase threshold count w w' made several h =
      from (count == 1) refl h
    where
      from :
          (b : Bool)
          → (count == 1) ≡ b
          → (if b
                then try_then
                    (generate S R wallet account_name passphrase)
                    (λ key. pure (ok (key, [])))
                else generate_distributed S R wallet account passphrase threshold count)
              w
            ≡ (ret (ok made), w')
          → Agreed S R account threshold count made.0 made.1
      from true e q = absurd (several (ground arith))
      from false e q =
          generate_distributed-Agreed wallet account passphrase threshold count w w' made q

  absent :
      (r : Result S.Account) (m : Run S.World (Result (Bytes × List Endpoint))) (w w' : S.World)
      (made : Bytes × List Endpoint)
      → if_absent S R r m w ≡ (ret (ok made), w')
      → m w ≡ (ret (ok made), w')
  absent (ok found) m w w' made h = absurd (refused h)
  absent (err e) m w w' made h = h

  allowed :
      (b : Bool) (m : Run S.World (Result (Bytes × List Endpoint))) (w w' : S.World)
      (made : Bytes × List Endpoint)
      → if_allowed S R (if b then result_succeeded else result_denied) m w ≡ (ret (ok made), w')
      → (b ≡ true) × (m w ≡ (ret (ok made), w'))
  allowed true m w w' made h = (refl, h)
  allowed false m w w' made h = absurd (refused h)

  on_generate_in-Agreed :
      (credentials : Option Credentials) (account account_name : String) (passphrase : Option Bytes)
      (threshold count : ℕ) (wallet : S.Wallet) (w w' : S.World) (made : Bytes × List Endpoint)
      → count ≢ 1
      → on_generate_in S R credentials account account_name passphrase threshold count wallet w
        ≡ (ret (ok made), w')
      → (R.check credentials account "Create account" ≡ true)
        × Agreed S R account threshold count made.0 made.1
  unfolding on_generate_in
  on_generate_in-Agreed credentials account account_name passphrase threshold count wallet w w' made
        several h =
      let (r, w1, _, looked) =
        bind-inv (S.account_by_name wallet account_name)
          (λ r. if_absent S R r (
            if_allowed S R (check_access S R credentials account "Create account")
              (generate_for S R wallet account account_name passphrase threshold count)))
          w w' (ok made)
          (guarded (not (S.is_provider wallet)) "wallet does not support fetching accounts by name"
            (S.account_by_name wallet account_name >>= λ r. if_absent S R r (
              if_allowed S R (check_access S R credentials account "Create account")
                (generate_for S R wallet account account_name passphrase threshold count)))
            w w' made h).1 in
      let (may, made_it) =
        allowed (R.check credentials account "Create account")
          (generate_for S R wallet account account_name passphrase threshold count) w1 w' made
          (absent r
            (if_allowed S R (check_access S R credentials account "Create account")
              (generate_for S R wallet account account_name passphrase threshold count))
            w1 w' made looked) in
      (
        may,
        generate_for-Agreed wallet account account_name passphrase threshold count w1 w' made
            several made_it,
      )

  with_names :
      Option Credentials
      → String
      → Option Bytes
      → ℕ
      → ℕ
      → Run S.World (Result (Bytes × List Endpoint))
  with_names credentials account passphrase threshold count =
      try_then (pure (S.wallet_and_account_names account)) (λ (wallet_name, account_name).
        try_then (R.open_wallet wallet_name)
          (on_generate_in S R credentials account account_name passphrase threshold count))

  with_names-Agreed :
      (credentials : Option Credentials) (account : String) (passphrase : Option Bytes)
      (threshold count : ℕ) (w w' : S.World) (made : Bytes × List Endpoint)
      → count ≢ 1
      → with_names credentials account passphrase threshold count w ≡ (ret (ok made), w')
      → (R.check credentials account "Create account" ≡ true)
        × Agreed S R account threshold count made.0 made.1
  unfolding with_names
  with_names-Agreed credentials account passphrase threshold count w w' made several h =
      let (names, w1, _, opened) =
        try_then-inv (pure (S.wallet_and_account_names account))
          (λ (wallet_name, account_name).
            try_then (R.open_wallet wallet_name)
              (on_generate_in S R credentials account account_name passphrase threshold count))
          w w' made h in
      let (wallet, w2, _, entered) =
        try_then-inv (R.open_wallet names.0)
          (on_generate_in S R credentials account names.1 passphrase threshold count) w1 w' made
          opened in
      on_generate_in-Agreed credentials account names.1 passphrase threshold count wallet w2 w' made
        several entered

pub on_generate-Agreed :
    (S : Services) (R : Requests S) (credentials : Option Credentials) (account : String)
    (passphrase : Option Bytes) (threshold count : ℕ) (w w' : S.World) (key : Bytes)
    (participants : List Endpoint)
    → count ≢ 1
    → on_generate S R credentials account passphrase threshold count w
      ≡ (ret (ok (key, participants)), w')
    → (R.check credentials account "Create account" ≡ true)
      × (count / 2 < threshold)
      × (threshold ≤ count)
      × Agreed S R account threshold count key participants
unfolding on_generate with_names
on_generate-Agreed S R credentials account passphrase threshold count w w' key participants several
      h =
    let made : Bytes × List Endpoint = (key, participants) in
    let m = with_names S R credentials account passphrase threshold count in
    let (_, h1) =
      guarded (count == 0) "zero participants"
        (if ltb count threshold
          then pure (err "signing threshold too high")
          else if leb threshold (count / 2)
          then pure (err "signing threshold too low")
          else m)
        w w' made h in
    let (high, h2) =
      guarded (ltb count threshold) "signing threshold too high"
        (if leb threshold (count / 2) then pure (err "signing threshold too low") else m) w w' made
        h1 in
    let (low, h3) =
      guarded (leb threshold (count / 2)) "signing threshold too low" m w w' made h2 in
    let (may, agreed) =
      with_names-Agreed S R credentials account passphrase threshold count w w' made several h3 in
    (may, ground arith, ground arith, agreed)
