-- ===== src/Checker.antt =====
-- services/checker/static: Check. A compiled regular expression is the test `MatchString`, and the
-- map from clients to paths is a function.
pub mod FirstMatch
use dirk.Prelude.{
  String, Bool, true, false, Option, none, some, List, [], ◌∷◌, ◌||◌, ◌&&◌, str_eq, append_string,
  if◌then◌else◌,
}
use dirk.Go.{Result, ok, err}
use dirk.Ruler.{Credentials}

-- The type `path`.
pub record AccessPath : Type 0 where
  pub wallet : String → Bool
  pub account : String → Bool
  pub operations : List String

module _ (equal_fold : String → String → Bool)
    (wallet_and_account_names : String → Result (String × String)) where
  -- The loop over a path's operations: the first that says anything decides.
  unfoldable pub check_operations : List String → String → Option Bool
  check_operations [] operation = none
  check_operations (o ∷ rest) operation =
      let later = check_operations rest operation in
      if equal_fold o "none" || equal_fold o (append_string "~" operation)
      then some false
      else if equal_fold o "all" || equal_fold o operation
      then some true
      else later

  -- The loop over the paths.
  unfoldable pub check_paths : List AccessPath → String → String → String → Bool
  check_paths [] wallet_name account_name operation = false
  check_paths (p ∷ rest) wallet_name account_name operation =
      let later = check_paths rest wallet_name account_name operation in
      if p.wallet wallet_name && p.account account_name
      then elim (check_operations p.operations operation) [ none ↦ later | some b ↦ b ]
      else later

  check_names : Option (List AccessPath) → Result (String × String) → String → Bool
  check_names access (err e) operation = false
  check_names none (ok names) operation = false
  check_names (some paths) (ok (wallet_name, account_name)) operation =
      if str_eq wallet_name "" then false else check_paths paths wallet_name account_name operation

  -- The method `Check`.
  unfoldable pub check :
      (String → Option (List AccessPath)) → Option Credentials → String → String → Bool
  unfolding check_names
  check access none account operation = false
  check access (some credentials) account operation =
      if str_eq credentials.client ""
      then false
      else check_names (access credentials.client) (wallet_and_account_names account) operation
