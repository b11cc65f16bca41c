-- ===== src/Ruler/Locks.antt =====
-- The calls of the locker that RunRules makes.
use dirk.Rules.Env.{Env}
use dirk.Go.{Bytes}
use dirk.Prelude.{
  ℕ, ◌≡◌, ◌≢◌, ◌⊎◌, inl, inr, refl, true, Option, List, [], ◌∷◌, map, Ordered, Option-cases, String,
  false,
}
use dirk.Rules.Attestations.{index_where, somes}
use dirk.Ruler.{
  Credentials, Action, RulesData, LockCall, to_bytes48, first_clash, needs_lock, is_nil_entry,
  run_rules, run_locked,
}
use dirk.Ruler.Locking.{Legal, around-Legal}
use dirk.Ruler.Apart.{first_clash-Ordered}

abbrev pub locked_keys : List RulesData → List Bytes
locked_keys rds = map (λ rd. to_bytes48 (RulesData.pub_key rd)) rds

-- The database and the calls of a call: the keys are different, and the rules are called once,
-- with each of them locked; or the rules are not called, nothing is locked, and nothing is written.
abbrev pub LockOutcome : {D : Type 0} → List Bytes → D → D → List LockCall → Type 0
LockOutcome keys d d' calls =
    (Ordered (λ a b. a ≢ b) keys × Legal keys false [] false calls) ⊎ ((calls ≡ []) × (d' ≡ d))

module _ (E : Env) (admin_ips : List String) (procs : ℕ) where
  locked-outcome :
      (c : Option Credentials) (action : Action) (rds : List RulesData) (d : E.Db)
      → needs_lock action ≡ true
      → let out = run_locked E admin_ips procs c action rds d in
        LockOutcome (locked_keys rds) d out.1 out.2
  unfolding run_locked
  locked-outcome c action rds d h = elim (Option-cases (first_clash [] rds)) [
    | inr (i, e) ↦ rw (h, e) (inr (refl, refl))
    | inl e ↦
        let different = first_clash-Ordered [] rds e in
        rw (h, e) (inl (different, around-Legal (locked_keys rds) different))
  ]

  -- For an action that needs locks, RunRules either locks nothing, calls no rules and leaves the
  -- database as it is, or the [48]byte keys of its entries are all different, and it locks them between
  -- PreLock and PostLock, each once, calls the rules once, after PostLock and while it holds the lock
  -- of every entry's key, and then unlocks the keys, the last that was locked first, so that it holds
  -- none at the end.
  pub run_rules_locks :
      (c : Option Credentials) (action : Action) (entries : List (Option RulesData)) (d : E.Db)
      → needs_lock action ≡ true
      → let out = run_rules E admin_ips procs c action entries d in
        LockOutcome (locked_keys (somes entries)) d out.1 out.2
  unfolding run_rules
  run_rules_locks c action [] d h = inr (refl, refl)
  run_rules_locks c action (e ∷ es) d h = elim (Option-cases (index_where is_nil_entry (e ∷ es))) [
    | inr (i, n) ↦ rw (n, run_rules) (inr (refl, refl))
    | inl n ↦ rw (n, run_rules) (locked-outcome c action (somes (e ∷ es)) d h)
  ]
