-- ===== src/Checker/FirstMatch.antt =====
-- The first operation that says anything about a request decides.
use dirk.Prelude.{
  ◌≡◌, ◌≢◌, inl, inr, refl, sym, ◌∙◌, ap, Bool, true, false, ◌&&◌, ◌||◌, Option, none, some, List,
  [], ◌∷◌, ◌++◌, arith, All, Bool-cases, if◌then◌else◌, String, str_eq, eq_iff,
}
use dirk.Prelude.{append_string}
use dirk.Go
use dirk.Go.{ok, err}
use dirk.Ruler.{Credentials}
use dirk.Checker.{AccessPath, check_operations, check_paths, check_names, check}

-- The operations of the paths that match, in order.
abbrev pub operations_for : List AccessPath → String → String → List String
operations_for [] wallet_name account_name = []
operations_for (p ∷ rest) wallet_name account_name =
    let later = operations_for rest wallet_name account_name in
    if p.wallet wallet_name && p.account account_name then p.operations ++ later else later

abbrev allowed : Option Bool → Bool
allowed none = false
allowed (some b) = b

allowed-true : (o : Option Bool) → allowed o ≡ true → o ≡ some true
allowed-true none h = cc
allowed-true (some b) h = ap (λ x. some x) h

after_path :
    (now later : Option Bool) (rest : Bool)
    → rest ≡ allowed later
    → elim now [ none ↦ rest | some b ↦ b ] ≡ allowed (elim now [ none ↦ later | some b ↦ some b ])
after_path none later rest h = h
after_path (some b) later rest h = refl

module _ (equal_fold : String → String → Bool) where
  abbrev pub is_negative : String → String → Bool
  is_negative operation o = equal_fold o "none" || equal_fold o (append_string "~" operation)

  abbrev pub is_positive : String → String → Bool
  is_positive operation o = equal_fold o "all" || equal_fold o operation

  -- An operation allows the request, and none before it says anything.
  pub record FirstAllows (operation : String) (ops : List String) : Type 0 where
    pub before : List String
    pub deciding : String
    pub after : List String
    pub splits : ops ≡ before ++ deciding ∷ after
    pub silent :
        All (λ o. (is_negative operation o ≡ false) × (is_positive operation o ≡ false)) before
    pub not_negative : is_negative operation deciding ≡ false
    pub positive : is_positive operation deciding ≡ true

module _ (equal_fold : String → String → Bool)
    (wallet_and_account_names : String → Go.Result (String × String)) where
  check_operations-append :
      (xs ys : List String) (operation : String)
      → check_operations equal_fold wallet_and_account_names (xs ++ ys) operation
        ≡ elim (check_operations equal_fold wallet_and_account_names xs operation) [
          | none ↦ check_operations equal_fold wallet_and_account_names ys operation
          | some b ↦ some b
        ]
  unfolding check_operations
  check_operations-append [] ys operation = refl
  check_operations-append (x ∷ xs) ys operation =
      ground (arith, check_operations-append xs ys operation)

  -- The loop over the paths is one loop over the operations of those that match.
  check_paths-flat :
      (paths : List AccessPath) (w a operation : String)
      → check_paths equal_fold wallet_and_account_names paths w a operation
        ≡ allowed (
            check_operations equal_fold wallet_and_account_names
              (operations_for paths w a)
              operation)
  unfolding check_paths check_operations
  check_paths-flat [] w a operation = refl
  check_paths-flat (p ∷ ps) w a operation = elim (Bool-cases (p.wallet w && p.account a)) [
    | inl e ↦
        rw (e, check_operations-append p.operations (operations_for ps w a) operation)
          (after_path (check_operations equal_fold wallet_and_account_names p.operations operation)
            (check_operations equal_fold wallet_and_account_names (operations_for ps w a) operation)
            (check_paths equal_fold wallet_and_account_names ps w a operation)
            (check_paths-flat ps w a operation))
    | inr e ↦ rw e (check_paths-flat ps w a operation)
  ]

  allows-FirstAllows :
      (ops : List String) (operation : String)
      → check_operations equal_fold wallet_and_account_names ops operation ≡ some true
      → FirstAllows equal_fold operation ops
  unfolding check_operations
  allows-FirstAllows [] operation h = cc
  allows-FirstAllows (o ∷ ops) operation h =
      elim (Bool-cases (is_negative equal_fold operation o)) [
        | inl n ↦ absurd (ground arith)
        | inr n ↦ elim (Bool-cases (is_positive equal_fold operation o)) [
          | inl y ↦ record {
            before = [];
            deciding = o;
            after = ops;
            splits = refl;
            silent = tt;
            not_negative = n;
            positive = y;
          }
          | inr y ↦
              (let later : FirstAllows equal_fold operation ops =
                  allows-FirstAllows ops operation (ground arith) in
                record {
                  before = o ∷ later.before;
                  deciding = later.deciding;
                  after = later.after;
                  splits = ap (λ l. o ∷ l) later.splits;
                  silent = ((n, y), later.silent);
                  not_negative = later.not_negative;
                  positive = later.positive;
                })
        ]
      ]

  -- What a granted request tells.
  pub record Granted (access : String → Option (List AccessPath)) (credentials : Credentials)
      (account operation : String) : Type 0 where
    pub has_client : credentials.client ≢ ""
    pub wallet_name : String
    pub account_name : String
    pub names : wallet_and_account_names account ≡ ok (wallet_name, account_name)
    pub has_wallet : wallet_name ≢ ""
    pub paths : List AccessPath
    pub paths_are : access credentials.client ≡ some paths
    pub allows : FirstAllows equal_fold operation (operations_for paths wallet_name account_name)

  Granted-names :
      (access : String → Option (List AccessPath)) (credentials : Credentials)
      (account operation : String) (ps : Option (List AccessPath))
      (ns : Go.Result (String × String))
      → access credentials.client ≡ ps
      → wallet_and_account_names account ≡ ns
      → credentials.client ≢ ""
      → check_names equal_fold wallet_and_account_names ps ns operation ≡ true
      → Granted access credentials account operation
  unfolding check_names
  Granted-names access credentials account operation ps (err e) p n c h = cc
  Granted-names access credentials account operation none (ok names) p n c h = cc
  Granted-names access credentials account operation (some ps) (ok (w, a)) p n c h =
      elim (Bool-cases (str_eq w "")) [
        | inl e ↦ absurd (ground arith)
        | inr e ↦ record {
          has_client = c;
          wallet_name = w;
          account_name = a;
          names = n;
          has_wallet = λ eq. ground (arith, eq_iff w "");
          paths = ps;
          paths_are = p;
          allows = allows-FirstAllows (operations_for ps w a) operation (
              allowed-true
                (check_operations equal_fold wallet_and_account_names (operations_for ps w a)
                  operation)
                (sym (check_paths-flat ps w a operation) ∙ ground arith));
        }
      ]

  -- Check grants a request only if the client has a name that the permissions list, the account's
  -- path has a wallet's name, and the first operation of the matching paths that says anything about the requested one, in
  -- the order of the list, allows it.
  pub check-Granted :
      (access : String → Option (List AccessPath)) (credentials : Credentials)
      (account operation : String)
      → check equal_fold wallet_and_account_names access (some credentials) account operation ≡ true
      → Granted access credentials account operation
  unfolding check check_names
  check-Granted access credentials account operation h =
      Granted-names access credentials account operation (access credentials.client)
        (wallet_and_account_names account) refl refl
        (λ e. ground (arith, eq_iff credentials.client ""))
        (ground (arith, eq_iff credentials.client ""))
