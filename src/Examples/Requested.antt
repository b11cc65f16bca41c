-- ===== src/Examples/Requested.antt =====
-- A key for two participants is asked for.
use dirk.Process.Env.{Services, Endpoint}
use dirk.Peers.{suitable, first_peers, suitable-first_peers, fill}
use dirk.Prelude.{◌≡◌}
use dirk.Go.{panic, ok, err, ret}
use dirk.Process.Generate.{
  Requests, on_generate, on_generate_in, generate_for, generate_distributed, prepare_all,
  execute_all, commit_and_check, commit_all, committed_keys, check_generated, check_composites,
  check_composite, deserialize_all, all_equal_next, confirmation_of,
}
use dirk.Process.Agreed.{Agreed}
use dirk.Process.Requested.{on_generate-Agreed}
use dirk.Process.Commit.{try_then}
use dirk.Words.{put_le, get_le}
use dirk.Examples.Generations.{services}
use dirk.Prelude.{refl, length, true, ◌==◌, ◌/◌, ◌<◌, ◌≤◌}
use dirk.Process.Commit.{try_then}
use dirk.Examples.Generations.{services}
use dirk.Process.Requested.{on_generate-Agreed}
use dirk.Process.Env.{Endpoint, Services}
use dirk.Process.Generate.{
  Requests, on_generate, on_generate_in, generate_for, generate_distributed, prepare_all,
  execute_all, commit_and_check, commit_all,
}
use dirk.Process.Agreed.{Agreed}
use dirk.Prelude.{
  ℕ, ◌/◌, ◌<◌, ◌≤◌, ◌≡◌, refl, true, none, List, [], ◌∷◌, arith, length, replicate, ◌==◌,
}

abbrev new_account : Services
new_account = record services {
  account_by_name = λ wallet name w. (ret (err "no account with that name"), w);
}

abbrev endpoints : List Endpoint
endpoints =
    record { id = 1; name = "server1"; port = 8881 }
    ∷ record { id = 2; name = "server2"; port = 8882 }
    ∷ []

abbrev requests : Requests new_account
requests = record {
  open_wallet = λ name w. (ret (ok tt), w);
  wallet_type = λ wallet. "distributed";
  check = λ credentials account action. true;
  unlock_wallet = λ wallet w. (ret (ok true), w);
  create_account = λ wallet name passphrase w. (ret (ok tt), w);
  public_key = λ account. [];
  suitable = λ count. ok endpoints;
  send_prepare = λ p account passphrase threshold all w. (ret none, w);
  send_execute = λ p account w. (ret none, w);
  send_commit = λ p account confirmation w. (ret (ok (5 ∷ [], p.id ∷ [])), w);
  read_random = λ w. (ret (ok (replicate 32 9)), w);
  deserialize_public = λ bytes. ok 5;
  Sign = ℕ;
  deserialize_sign = λ bytes. ok (length bytes);
  recover = λ sigs ids. ok (length sigs);
  verify_byte = λ sig key bytes. sig == 2;
}

two-made :
    on_generate new_account requests none "Wallet 1/Account 2" none 2 2 tt
    ≡ (ret (ok (5 ∷ [], endpoints)), tt)
unfolding on_generate on_generate_in generate_for generate_distributed try_then prepare_all
    execute_all commit_and_check commit_all committed_keys check_generated check_composites
    check_composite deserialize_all all_equal_next confirmation_of put_le get_le
two-made = refl

on_generate-Agreed_example :
    (true ≡ true)
    × (2 / 2 < 2)
    × (2 ≤ 2)
    × Agreed new_account requests "Wallet 1/Account 2" 2 2 (5 ∷ []) endpoints
on_generate-Agreed_example =
    on_generate-Agreed new_account requests none "Wallet 1/Account 2" none 2 2 tt tt (5 ∷ [])
      endpoints (λ e. ground arith) two-made

abbrev table : List (ℕ × Endpoint)
table =
    (1, record { id = 1; name = "server1"; port = 8881 })
    ∷ (2, record { id = 2; name = "server2"; port = 8882 })
    ∷ (3, record { id = 3; name = "server3"; port = 8883 })
    ∷ []

suitable-first_peers_example : suitable 2 table ≡ ret (first_peers 2 table)
suitable-first_peers_example = suitable-first_peers 1 table

none_asked : suitable 0 table ≡ panic
unfolding suitable fill
none_asked = refl
