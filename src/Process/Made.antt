-- ===== src/Process/Made.antt =====
-- OnGenerate makes a distributed key only if all participants agree on it.
use dirk.Process.Env.{Services, Endpoint}
use dirk.Process.Commit.{try_then}
use dirk.Process.Chains.{try_then-inv}
use dirk.Process.Agreed.{check_generated-Checked}
use dirk.Process.Generate.{map_run, check_generated, prepare_all, execute_all}
use dirk.Prelude.{Bool, true, false, ◌==◌, if◌then◌else◌}
use dirk.Go.{bind-inv, ok, err, Result, Error, Bytes, Run, ret, ret-inj, pure, ◌>>=◌, Result-cases}
use dirk.Process.Contribution.{ok-inj}
use dirk.Process.Generate.{Requests, commit_all, committed_keys, confirmation_of, commit_and_check}
use dirk.Process.Agreed.{Agreed, Replied}
use dirk.Prelude.{refl, length}
use dirk.Go.{Run, ◌>>=◌, ret}
use dirk.Prelude.{
  ℕ, suc, ◌≡◌, inl, inr, refl, sym, ◌∙◌, ap, subst, Bool, true, false, Option, List, [], ◌∷◌, arith,
  length, ◌==◌, if◌then◌else◌, String,
}

pub not_ok : {A : Type 0} {a : A} {e : Error} → err e ≡ ok a → ⊥
not_ok h = cc

module _ (S : Services) (R : Requests S) where
  commit_all-length :
      (account : String) (confirmation : Bytes) (ps : List Endpoint) (w w' : S.World)
      (rs : List (Result (Bytes × Bytes)))
      → commit_all S R account confirmation ps w ≡ (ret rs, w')
      → length rs ≡ length ps
  unfolding commit_all
  commit_all-length account confirmation [] w w' rs h = ap length (sym (ret-inj (ap (λ z. z.0) h)))
  commit_all-length account confirmation (p ∷ ps) w w' rs h =
      let (r, w1, sent, next) =
        bind-inv (R.send_commit p account confirmation)
          (λ r. commit_all S R account confirmation ps >>= λ rs. pure (r ∷ rs)) w w' rs h in
      let (rest, w2, others, done) =
        bind-inv (commit_all S R account confirmation ps) (λ rs. pure (r ∷ rs)) w1 w' rs next in
      ap length (sym (ret-inj (ap (λ z. z.0) done)))
      ∙ ap suc (commit_all-length account confirmation ps w1 w2 rest others)

  committed_keys-length :
      (rs : List (Result (Bytes × Bytes))) (ks : List (Bytes × Bytes))
      → committed_keys S R rs ≡ ok ks
      → length ks ≡ length rs
  unfolding committed_keys
  committed_keys-length [] ks h = ap length (sym (ok-inj h))
  committed_keys-length (err e ∷ rs) ks h = cc
  committed_keys-length (ok ([], sig) ∷ rs) ks h = cc
  committed_keys-length (ok (b ∷ key, []) ∷ rs) ks h = cc
  committed_keys-length (ok (b ∷ key, c ∷ sig) ∷ rs) ks h =
      elim (Result-cases (committed_keys S R rs)) [
        | inl (rest, e) ↦
            ap length (sym (ok-inj (with_rest (ok rest) e)))
            ∙ ap suc (committed_keys-length rs rest e)
        | inr (x, e) ↦ absurd (not_ok (with_rest (err x) e))
      ]
    where
      with_rest :
          (r : Result (List (Bytes × Bytes)))
          → committed_keys S R rs ≡ r
          → (elim r [ err e ↦ err e | ok rest ↦ ok ((b ∷ key, c ∷ sig) ∷ rest) ]) ≡ ok ks
      with_rest r e =
          subst (λ z. (elim z [ err e ↦ err e | ok rest ↦ ok ((b ∷ key, c ∷ sig) ∷ rest) ]) ≡ ok ks)
            e h

  -- The bytes that are used are those that were read, and there are 32.
  confirmation_of-read :
      (r : Result Bytes) (bytes : Bytes)
      → confirmation_of S R r ≡ ok bytes
      → (r ≡ ok bytes) × (length bytes ≡ 32)
  unfolding confirmation_of
  confirmation_of-read (err e) bytes h = cc
  confirmation_of-read (ok read) bytes h = from (length read == 32) refl h
    where
      from :
          (b : Bool)
          → (length read == 32) ≡ b
          → (if b then ok read else err "failed to generate enough commit data") ≡ ok bytes
          → (ok read ≡ ok bytes) × (length bytes ≡ 32)
      from false e q = cc
      from true e q = (q, subst (λ z. length z ≡ 32) (ok-inj q) (ground arith))

  -- One result, and those after it.
  committed_keys-cons :
      (r : Result (Bytes × Bytes)) (rs : List (Result (Bytes × Bytes))) (ks : List (Bytes × Bytes))
      → committed_keys S R (r ∷ rs) ≡ ok ks
      → (k : Bytes × Bytes) × (later : List (Bytes × Bytes)) × (r ≡ ok k)
        × (committed_keys S R rs ≡ ok later)
        × (ks ≡ k ∷ later)
  unfolding committed_keys
  committed_keys-cons (err e) rs ks h = cc
  committed_keys-cons (ok ([], sig)) rs ks h = cc
  committed_keys-cons (ok (b ∷ key, [])) rs ks h = cc
  committed_keys-cons (ok (b ∷ key, c ∷ sig)) rs ks h = from (committed_keys S R rs) refl h
    where
      from :
          (r : Result (List (Bytes × Bytes)))
          → committed_keys S R rs ≡ r
          → (elim r [ err e ↦ err e | ok rest ↦ ok ((b ∷ key, c ∷ sig) ∷ rest) ]) ≡ ok ks
          → (k : Bytes × Bytes) × (later : List (Bytes × Bytes)) × (ok (b ∷ key, c ∷ sig) ≡ ok k)
            × (committed_keys S R rs ≡ ok later)
            × (ks ≡ k ∷ later)
      from (err x) e q = cc
      from (ok rest) e q = ((b ∷ key, c ∷ sig), rest, refl, e, sym (ok-inj q))

  -- The commits are the participants' replies.
  commit_all-Replied :
      (account : String) (confirmation : Bytes) (ps : List Endpoint) (w w' : S.World)
      (rs : List (Result (Bytes × Bytes))) (ks : List (Bytes × Bytes))
      → commit_all S R account confirmation ps w ≡ (ret rs, w')
      → committed_keys S R rs ≡ ok ks
      → Replied S R account confirmation ps ks w w'
  unfolding commit_all committed_keys
  commit_all-Replied account confirmation [] w w' rs ks h kept =
      subst (λ l. Replied S R account confirmation [] l w w')
        (no_keys (subst (λ l. committed_keys S R l ≡ ok ks) (sym (ret-inj (ap (λ z. z.0) h))) kept))
        (ap (λ z. z.1) h)
    where
      no_keys : committed_keys S R [] ≡ ok ks → [] ≡ ks
      no_keys q = ok-inj q
  commit_all-Replied account confirmation (p ∷ ps) w w' rs ks h kept =
      let (r, w1, sent, next) =
        bind-inv (R.send_commit p account confirmation)
          (λ r. commit_all S R account confirmation ps >>= λ rs. pure (r ∷ rs)) w w' rs h in
      let (rest, w2, others, done) =
        bind-inv (commit_all S R account confirmation ps) (λ rs. pure (r ∷ rs)) w1 w' rs next in
      let (k, later, good, kept_later, is) =
        committed_keys-cons r rest ks
          (subst (λ l. committed_keys S R l ≡ ok ks) (sym (ret-inj (ap (λ z. z.0) done))) kept) in
      subst (λ l. Replied S R account confirmation (p ∷ ps) l w w') (sym is)
        (
          w1,
          subst (λ z. R.send_commit p account confirmation w ≡ (ret z, w1)) good sent,
          commit_all-Replied account confirmation ps w1 w' rest later
              (subst (λ z. commit_all S R account confirmation ps w1 ≡ (ret rest, z))
                (ap (λ z. z.1) done) others)
              kept_later,
        )

  map_run-inv :
      {A B : Type 0} (f : A → B) (m : Run S.World A) (w w' : S.World) (b : B)
      → map_run S R f m w ≡ (ret b, w')
      → (a : A) × (w1 : S.World) × (m w ≡ (ret a, w')) × (f a ≡ b)
  map_run-inv f m w w' b h =
      let (a, w1, e, done) = bind-inv m (λ a. pure (f a)) w w' b h in
      (a, w1, subst (λ z. m w ≡ (ret a, z)) (ap (λ z. z.1) done) e, ret-inj (ap (λ z. z.0) done))

  commit_and_check-Agreed :
      (account : String) (threshold count : ℕ) (participants : List Endpoint) (confirmation : Bytes)
      (before w w' : S.World) (made : Bytes × List Endpoint)
      → R.suitable count ≡ ok participants
      → R.read_random before ≡ (ret (ok confirmation), w)
      → length confirmation ≡ 32
      → commit_and_check S R account threshold participants confirmation w ≡ (ret (ok made), w')
      → Agreed S R account threshold count made.0 made.1
  unfolding commit_and_check
  commit_and_check-Agreed account threshold count participants confirmation before w w' made suit
        read size h =
      let (commits, w1, got, checked) =
        try_then-inv
          (map_run S R (committed_keys S R) (commit_all S R account confirmation participants))
          (λ keys z. (check_generated S R threshold confirmation participants keys, z)) w w' made
          h in
      let (rs, w2, all, keys) =
        map_run-inv (committed_keys S R) (commit_all S R account confirmation participants) w w1
          (ok commits) got in
      let c =
        check_generated-Checked S R threshold confirmation participants commits made
          (ap (λ z. z.0) checked) in
      subst (λ ps. Agreed S R account threshold count made.0 ps) (sym c.to)
        (record {
          suitable = suit;
          confirmation = confirmation;
          size = size;
          before = before;
          between = w;
          read = read;
          commits = commits;
          afterwards = w1;
          replies = commit_all-Replied account confirmation participants w w1 rs commits all keys;
          same = c.same;
          each =
              committed_keys-length rs commits keys
              ∙ commit_all-length account confirmation participants w w1 rs all;
          key = c.key;
          is_key = c.is_key;
          combined = c.combined;
        })

  -- After the test of the wallet.
  unfoldable pub rounds :
      String → Option Bytes → ℕ → ℕ → Run S.World (Result (Bytes × List Endpoint))
  rounds account passphrase threshold count = try_then (pure (R.suitable count)) (λ participants.
      try_then (prepare_all S R account passphrase threshold participants participants) (λ prepared.
        try_then (execute_all S R account participants) (λ executed.
          try_then (map_run S R (confirmation_of S R) R.read_random)
            (λ confirmation. commit_and_check S R account threshold participants confirmation))))

  pub rounds-Agreed :
      (account : String) (passphrase : Option Bytes) (threshold count : ℕ) (w w' : S.World)
      (made : Bytes × List Endpoint)
      → rounds account passphrase threshold count w ≡ (ret (ok made), w')
      → Agreed S R account threshold count made.0 made.1
  unfolding rounds
  rounds-Agreed account passphrase threshold count w w' made h =
      let (participants, w1, suit, h1) =
        try_then-inv (pure (R.suitable count))
          (λ participants.
            try_then (prepare_all S R account passphrase threshold participants participants)
              (λ prepared. try_then (execute_all S R account participants) (λ executed.
                try_then (map_run S R (confirmation_of S R) R.read_random) (λ confirmation.
                  commit_and_check S R account threshold participants confirmation))))
          w w' made h in
      let (prepared, w2, _, h2) =
        try_then-inv (prepare_all S R account passphrase threshold participants participants)
          (λ prepared. try_then (execute_all S R account participants) (λ executed.
            try_then (map_run S R (confirmation_of S R) R.read_random)
              (λ confirmation. commit_and_check S R account threshold participants confirmation)))
          w1 w' made h1 in
      let (executed, w3, _, h3) =
        try_then-inv (execute_all S R account participants)
          (λ executed.
            try_then (map_run S R (confirmation_of S R) R.read_random)
              (λ confirmation. commit_and_check S R account threshold participants confirmation))
          w2 w' made h2 in
      let (confirmation, w4, read, h4) =
        try_then-inv (map_run S R (confirmation_of S R) R.read_random)
          (λ confirmation. commit_and_check S R account threshold participants confirmation) w3 w'
          made h3 in
      let (bytes, w5, read_it, is_it) =
        map_run-inv (confirmation_of S R) R.read_random w3 w4 (ok confirmation) read in
      let (same, size) = confirmation_of-read bytes confirmation is_it in
      commit_and_check-Agreed account threshold count participants confirmation w3 w4 w' made
        (ret-inj (ap (λ z. z.0) suit)) (subst (λ z. R.read_random w3 ≡ (ret z, w4)) same read_it)
        size h4
