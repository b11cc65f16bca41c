-- ===== src/Process/Imported.antt =====
-- What storeDistributedKey has stored when it succeeds.
use dirk.Process.Env.{Services, Endpoint}
use dirk.Process.Commit.{try_then, while_unlocked, wallet_participants, store_distributed_key}
use dirk.Process.Chains.{try_then-inv}
use dirk.Go.{Run, Result, Go, ret, ret-inj, ok, err, panic, pure, ◌>>=◌, Bytes, Error}
use dirk.Prelude.{refl, Bool, true, false, none, some, if◌then◌else◌}
use dirk.Prelude.{
  ℕ, ◌≡◌, ◌⊎◌, inl, inr, refl, sym, ap, subst, Bool, true, false, Option, none, some, List, [], map,
  if◌then◌else◌, String,
}

-- The wallet of the account was opened in the world `w`, unlocked if it locks, and has imported the
-- private key under the account's name, with its threshold, its verification vector, the addresses
-- of its participants and a passphrase.
pub record Imported (S : Services) (account : String) (passphrase : Bytes) (key : S.SecretKey)
    (threshold : ℕ) (vector : List S.PublicKey) (participants : List Endpoint) (w : S.World)
    : Type 0 where
  pub wallet_name : String
  pub account_name : String
  pub names : S.wallet_and_account_names account ≡ ok (wallet_name, account_name)
  pub wallet : S.Wallet
  pub w1 : S.World
  pub opened : S.open_wallet wallet_name w ≡ (ret (ok wallet), w1)
  pub w2 : S.World
  pub unlocked :
      ((S.is_locker wallet ≡ false) × (w2 ≡ w1))
      ⊎ ((S.is_locker wallet ≡ true) × (S.unlock wallet w1 ≡ (ret none, w2)))
  pub imported_account : S.Account
  pub w3 : S.World
  pub imported :
      S.import_distributed_account wallet account_name
        (S.serialize_secret key)
        threshold
        (map S.serialize_public vector)
        (wallet_participants S participants [])
        passphrase
        w2
      ≡ (ret (ok imported_account), w3)

module _ (S : Services) where
  -- The call that the wallet was unlocked for has given a value.
  while_unlocked-inv :
      {A : Type 0} (wallet : S.Wallet) (m : Run S.World (Result A)) (w1 w' : S.World) (a : A)
      → while_unlocked S wallet m w1 ≡ (ret (ok a), w')
      → (w2 w3 : S.World) × (((S.is_locker wallet ≡ false) × (w2 ≡ w1))
          ⊎ ((S.is_locker wallet ≡ true) × (S.unlock wallet w1 ≡ (ret none, w2))))
        × (m w2 ≡ (ret (ok a), w3))
  unfolding while_unlocked
  while_unlocked-inv {A} wallet m w1 w' a h = by_kind (S.is_locker wallet) refl h
    where
      after_lock :
          (r : Go (Result A)) (l : Go (Option Error)) (w2 : S.World)
          → (elim l as (λ x. Go (Result A) × S.World) [ panic ↦ (panic, w2) | ret x ↦ (r, w2) ])
            ≡ (ret (ok a), w')
          → r ≡ ret (ok a)
      after_lock r panic w2 q = cc
      after_lock r (ret x) w2 q = ap (λ z. z.0) q

      by_unlock :
          (u : Go (Option Error)) (w2 : S.World)
          → S.is_locker wallet ≡ true
          → S.unlock wallet w1 ≡ (u, w2)
          → ((λ w. (u, w2)) >>= (λ e. elim e as (λ x. Run S.World (Result A)) [
            | some x ↦ pure (err "failed to unlock wallet")
            | none ↦ λ w.
                let (r, w1) = m w in
                let (locked, w2) = S.lock wallet w1 in
                elim locked as (λ x. Go (Result A) × S.World) [
                  | panic ↦ (panic, w2)
                  | ret x ↦ (r, w2)
                ]
          ]))
              w1
            ≡ (ret (ok a), w')
          → (w2 w3 : S.World) × (((S.is_locker wallet ≡ false) × (w2 ≡ w1))
              ⊎ ((S.is_locker wallet ≡ true) × (S.unlock wallet w1 ≡ (ret none, w2))))
            × (m w2 ≡ (ret (ok a), w3))
      by_unlock panic w2 kind e q = cc
      by_unlock (ret (some x)) w2 kind e q = cc
      by_unlock (ret none) w2 kind e q = (
        w2,
        (m w2).1,
        inr (kind, e),
        ap (λ r. (r, (m w2).1))
            (after_lock (m w2).0 (S.lock wallet (m w2).1).0 (S.lock wallet (m w2).1).1 q),
      )

      by_kind :
          (b : Bool)
          → S.is_locker wallet ≡ b
          → (if b
                then (S.unlock wallet >>= (λ e. elim e as (λ x. Run S.World (Result A)) [
                  | some x ↦ pure (err "failed to unlock wallet")
                  | none ↦ λ w.
                      let (r, w1) = m w in
                      let (locked, w2) = S.lock wallet w1 in
                      elim locked as (λ x. Go (Result A) × S.World) [
                        | panic ↦ (panic, w2)
                        | ret x ↦ (r, w2)
                      ]
                ]))
                else m)
              w1
            ≡ (ret (ok a), w')
          → (w2 w3 : S.World) × (((S.is_locker wallet ≡ false) × (w2 ≡ w1))
              ⊎ ((S.is_locker wallet ≡ true) × (S.unlock wallet w1 ≡ (ret none, w2))))
            × (m w2 ≡ (ret (ok a), w3))
      by_kind false kind q = (w1, w', inl (kind, refl), q)
      by_kind true kind q = by_unlock (S.unlock wallet w1).0 (S.unlock wallet w1).1 kind refl q

  -- Storing a key that succeeds has imported it.
  pub store_distributed_key-Imported :
      (account : String) (passphrase : Bytes) (key : S.SecretKey) (threshold : ℕ)
      (vector : List S.PublicKey) (participants : List Endpoint) (w w' : S.World) (u : Unit {0})
      → store_distributed_key S account passphrase key threshold vector participants w
        ≡ (ret (ok u), w')
      → Imported S account passphrase key threshold vector participants w
  unfolding store_distributed_key
  store_distributed_key-Imported account passphrase key threshold vector participants w w' u h =
      let import_into : S.Wallet → String → Run S.World (Result (Unit {0})) = λ wallet account_name.
        try_then
          (S.import_distributed_account wallet account_name (S.serialize_secret key) threshold
            (map S.serialize_public vector) (wallet_participants S participants []) passphrase)
          (λ generated. S.add_account wallet generated >>= λ e. pure (ok tt)) in
      let ((wallet_name, account_name), w0, named, h1) =
        try_then-inv (pure (S.wallet_and_account_names account))
          (λ n.
            try_then (S.open_wallet n.0)
              (λ wallet. while_unlocked S wallet (import_into wallet n.1)))
          w w' u h in
      let (wallet, w1, opened, h2) =
        try_then-inv (S.open_wallet wallet_name)
          (λ wallet. while_unlocked S wallet (import_into wallet account_name)) w0 w' u h1 in
      let (w2, w4, unlocked, h3) =
        while_unlocked-inv wallet (import_into wallet account_name) w1 w' u h2 in
      let (generated, w3, imported, _) =
        try_then-inv
          (S.import_distributed_account wallet account_name (S.serialize_secret key) threshold
            (map S.serialize_public vector) (wallet_participants S participants []) passphrase)
          (λ generated. S.add_account wallet generated >>= λ e. pure (ok tt)) w2 w4 u h3 in
      record {
        wallet_name = wallet_name;
        account_name = account_name;
        names = ret-inj (ap (λ z. z.0) named);
        wallet = wallet;
        w1 = w1;
        opened =
            subst (λ z. S.open_wallet wallet_name z ≡ (ret (ok wallet), w1))
              (sym (ap (λ z. z.1) named)) opened;
        w2 = w2;
        unlocked = unlocked;
        imported_account = generated;
        w3 = w3;
        imported = imported;
      }
