-- ===== src/Rules/Sign.antt =====
-- rules/standard: sign.go, and the rules that approve every request (listaccounts.go, lockwallet.go,
-- unlockwallet.go, lockaccount.go, unlockaccount.go, createaccount.go).
pub mod Guards
use dirk.Prelude.{
  Bool, false, String, Option, none, some, List, [], ◌∷◌, ◌||◌, not, bytes_equal, str_eq,
  if◌then◌else◌,
}
use dirk.Go.{Go, ret, panic, Bytes, first4}
use dirk.Rules.Types
use dirk.Rules.Types.{ReqMetadata, SignData, AccessAccountData, approved, denied, failed}
use dirk.Rules.Env.{Env}

-- The loop over `s.adminIPs`.
unfoldable pub is_admin_ip : List String → String → Bool
is_admin_ip [] ip = false
is_admin_ip (a ∷ rest) ip = str_eq ip a || is_admin_ip rest ip

module _ (E : Env) (admin_ips : List String) where
  -- A voluntary exit must come from an approved address.
  check_domain : Bytes → String → Types.Result
  check_domain domain ip =
      if bytes_equal domain E.domain_beacon_attester
      then denied
      else if bytes_equal domain E.domain_beacon_proposer
      then denied
      else if bytes_equal domain E.domain_voluntary_exit
      then (if str_eq ip ""
          then denied
          else if not (is_admin_ip admin_ips ip)
          then denied
          else approved)
      else approved

  unfoldable pub on_sign : Option ReqMetadata → Option SignData → Go Types.Result
  unfolding check_domain
  on_sign none req = ret failed
  on_sign (some metadata) none = panic
  on_sign (some metadata) (some req) = elim (first4 req.domain) [
    | panic ↦ panic
    | ret domain ↦ ret (check_domain domain metadata.ip)
  ]

unfoldable pub on_list_accounts : Option ReqMetadata → Option AccessAccountData → Types.Result
on_list_accounts metadata req = approved

-- LockWalletData, UnlockWalletData, LockAccountData, UnlockAccountData and CreateAccountData have
-- no fields.
unfoldable pub on_lock_wallet : Option ReqMetadata → Option (Unit {0}) → Types.Result
on_lock_wallet metadata req = approved

unfoldable pub on_unlock_wallet : Option ReqMetadata → Option (Unit {0}) → Types.Result
on_unlock_wallet metadata req = approved

unfoldable pub on_lock_account : Option ReqMetadata → Option (Unit {0}) → Types.Result
on_lock_account metadata req = approved

unfoldable pub on_unlock_account : Option ReqMetadata → Option (Unit {0}) → Types.Result
on_unlock_account metadata req = approved

unfoldable pub on_create_account : Option ReqMetadata → Option (Unit {0}) → Types.Result
on_create_account metadata req = approved
