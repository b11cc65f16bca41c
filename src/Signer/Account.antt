-- ===== src/Signer/Account.antt =====
-- services/signer/standard/helpers.go: the checks before a request is put to the rules.
use dirk.Go
use dirk.Prelude.{append_string}
use dirk.Prelude.{Bool, true, false, Option, none, some, if◌then◌else◌, String, str_eq}
use dirk.Core
use dirk.Core.{result_unknown, result_succeeded, result_denied, result_failed}
use dirk.Go.{ok, err, Bytes, Run, pure, ◌>>=◌, crash}
use dirk.Ruler.{
  Credentials, Action, sign, sign_beacon_attestation, sign_beacon_proposal, access_account,
  create_account, lock_wallet, unlock_wallet, lock_account, unlock_account, other,
}
use dirk.Signer.Services.{Services}

-- A step goes on with a value, or the request is refused.
pub data Step {ℓ} (A : Type ℓ) : Type ℓ where
  go_on : A → Step A
  refuse : Core.Result → Step A

-- services/ruler/service.go: the actions' strings.
abbrev pub action_string : Action → String
action_string sign = "Sign"
action_string sign_beacon_attestation = "Sign beacon attestation"
action_string sign_beacon_proposal = "Sign beacon proposal"
action_string access_account = "Access account"
action_string create_account = "Create account"
action_string lock_wallet = "Lock wallet"
action_string unlock_wallet = "Unlock wallet"
action_string lock_account = "Lock account"
action_string unlock_account = "Unlock account"
action_string (other s) = s

-- fmt.Sprintf("%s/%s", …)
abbrev account_path : String → String → String
account_path wallet_name account_name = append_string wallet_name (append_string "/" account_name)

abbrev fetched {ℓ} : {A : Type ℓ} → Go.Result A → Step A
fetched (ok a) = go_on a
fetched (err e) = refuse result_denied

abbrev unlocked : Go.Result Bool → Core.Result
unlocked (err e) = result_failed
unlocked (ok true) = result_succeeded
unlocked (ok false) = result_denied

module _ (S : Services) where
  unfoldable pub fetch_account_for :
      String → Option Bytes → Run S.World (Step (Option S.Wallet × Option S.Account))
  fetch_account_for name none =
      if str_eq name ""
      then pure (refuse result_denied)
      else S.fetch_account name >>= λ r. pure (fetched r)
  fetch_account_for name (some pub_key) = S.fetch_account_by_key pub_key >>= λ r. pure (fetched r)

  unfoldable pub check_access : Option Credentials → String → Action → Core.Result
  check_access credentials account_name action =
      if S.check credentials account_name (action_string action)
      then result_succeeded
      else result_denied

  after_is_unlocked : S.Wallet → S.Account → Go.Result Bool → Run S.World Core.Result
  after_is_unlocked wallet account (err e) = pure result_failed
  after_is_unlocked wallet account (ok true) = pure result_succeeded
  after_is_unlocked wallet account (ok false) =
      S.unlock_account wallet account >>= λ r. pure (unlocked r)

  unfoldable pub unlock_account_for : Option S.Wallet → Option S.Account → Run S.World Core.Result
  unfolding after_is_unlocked
  unlock_account_for none account w = pure result_denied w
  unlock_account_for (some wallet) none w = pure result_denied w
  unlock_account_for (some wallet) (some account) w = elim (S.is_unlocked account w) [
    | none ↦ pure result_succeeded w
    | some r ↦ after_is_unlocked wallet account r w
  ]

  after_unlock : S.Wallet → S.Account → Core.Result → Step (S.Wallet × S.Account)
  after_unlock wallet account result_succeeded = go_on (wallet, account)
  after_unlock wallet account r = refuse r

  after_access : S.Wallet → S.Account → Core.Result → Run S.World (Step (S.Wallet × S.Account))
  unfolding after_unlock
  after_access wallet account result_succeeded =
      unlock_account_for (some wallet) (some account) >>= λ r. pure (after_unlock wallet account r)
  after_access wallet account r = pure (refuse r)

  -- `wallet.Name()` and `account.Name()` panic on nil.
  after_fetch :
      Option Credentials
      → Action
      → Step (Option S.Wallet × Option S.Account)
      → Run S.World (Step (S.Wallet × S.Account))
  unfolding after_access
  after_fetch credentials action (refuse r) = pure (refuse r)
  after_fetch credentials action (go_on (none, account)) = crash
  after_fetch credentials action (go_on (some wallet, none)) = crash
  after_fetch credentials action (go_on (some wallet, some account)) = after_access wallet account (
      check_access credentials (account_path (S.wallet_name wallet) (S.account_name account))
        action)

  unfoldable pub pre_check :
      Option Credentials
      → String
      → Option Bytes
      → Action
      → Run S.World (Step (S.Wallet × S.Account))
  unfolding after_fetch
  pre_check credentials name pub_key action =
      fetch_account_for name pub_key >>= λ r. after_fetch credentials action r
