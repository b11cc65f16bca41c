-- ===== src/Process/Reachable.antt =====
-- The states that an instance reaches, from one without generations, and what every commit of theirs
-- that succeeds has done.
use dirk.Process.Handlers.{on_execute-Inv, on_contribute-Inv, on_abort-Inv}
use dirk.Process.Committed.{Committed, on_commit-Committed}
use dirk.Process.Contribution.{Participates}
use dirk.Process.Prepare.{on_prepare-Inv}
use dirk.Process.Invariant.{Inv, Sound, get_generation-Inv}
use dirk.Process.Commit.{
  commit, finish, commit_found, try_then, commit_aggregated, on_commit, aggregate,
  store_and_retrieve, zero_vector,
}
use dirk.Process.{
  Config, State, Generation, on_prepare, get_generation, outside, on_execute, on_contribute,
  on_abort,
}
use dirk.Process.Env.{Services, LawfulBls, Endpoint}
use dirk.Go.{ok, err, Result, Preserves, Preserves-bind, Run, Go, ret, panic, pure, Bytes}
use dirk.Prelude.{none, ◌==◌, Bool, true, false, if◌then◌else◌, not, length}
use dirk.Maps.{All-remove}
use dirk.Prelude.{
  ℕ, ◌≡◌, Bool, true, false, not, Option, none, some, List, [], ◌∷◌, length, ◌==◌, if◌then◌else◌,
  String, str_eq,
}

module _ (S : Services) (C : Config) where
  chain-Inv :
      {A B : Type 0} (m : Run (State S) (Result A)) (f : A → Run (State S) (Result B))
      → Preserves (Inv S C) m
      → ((a : A) → Preserves (Inv S C) (f a))
      → Preserves (Inv S C) (try_then m f)
  unfolding try_then
  chain-Inv {A} {B} m f hm hf =
      Preserves-bind (Inv S C) m (λ r. elim r [ err e ↦ pure (err e) | ok a ↦ f a ]) hm
        (λ r. goes_on r)
    where
      goes_on : (r : Result A) → Preserves (Inv S C) (elim r [ err e ↦ pure (err e) | ok a ↦ f a ])
      goes_on (err e) = λ s h. h
      goes_on (ok a) = hf a

  finish-Inv :
      (account : String) (g : Generation S) (confirmation : Bytes) (vector : List S.PublicKey)
      → Preserves (Inv S C) (finish S C account g confirmation vector)
  unfolding finish
  finish-Inv account g confirmation [] s h = All-remove str_eq (Sound S C) account s.generations h
  finish-Inv account g confirmation (k ∷ ks) s h =
      All-remove str_eq (Sound S C) account s.generations h

  commit_aggregated-Inv :
      (account : String) (g : Generation S) (confirmation : Bytes) (vector : Go (List S.PublicKey))
      → Preserves (Inv S C) (commit_aggregated S C account g confirmation vector)
  unfolding commit_aggregated
  commit_aggregated-Inv account g confirmation panic = λ s h. h
  commit_aggregated-Inv account g confirmation (ret vector) =
      chain-Inv (outside (store_and_retrieve S C g account vector))
        (λ done. finish S C account g confirmation vector) (λ s h. h)
        (λ done. finish-Inv account g confirmation vector)

  commit-Inv :
      (account : String) (g : Generation S) (confirmation : Bytes)
      → Preserves (Inv S C) (commit S C account g confirmation)
  unfolding commit
  commit-Inv account g confirmation s h =
      from (length g.shared_secrets == length g.participants)
        (length g.shared_v_vecs == length g.participants)
    where
      rest : Run (State S) (Result (Bytes × Bytes))
      rest =
          commit_aggregated S C account g confirmation
            (aggregate S g.shared_v_vecs (zero_vector S g.threshold))

      from :
          (a b : Bool)
          → Inv S C
              (if not a
                then (ret (err "have too few or too many contributions"), s)
                else if not b
                then (ret (err "have too few or too many contributions"), s)
                else rest s).1
      from false b = h
      from true false = h
      from true true =
          commit_aggregated-Inv account g confirmation
            (aggregate S g.shared_v_vecs (zero_vector S g.threshold)) s h

  commit_found-Inv :
      (account : String) (confirmation : Bytes) (found : Option (Generation S))
      → Preserves (Inv S C) (commit_found S C account confirmation found)
  unfolding commit_found
  commit_found-Inv account confirmation none = λ s h. h
  commit_found-Inv account confirmation (some g) = commit-Inv account g confirmation

  pub on_commit-Inv :
      (account : String) (confirmation : Bytes)
      → Preserves (Inv S C) (on_commit S C account confirmation)
  unfolding on_commit
  on_commit-Inv account confirmation s h =
      commit_found-Inv account confirmation (get_generation S C account s).0
        (get_generation S C account s).1 (get_generation-Inv S C account s h)

  -- One request, whatever it asks and whatever comes of it, or a change outside the instance. A
  -- request to prepare names this instance among its participants.
  pub data Step : State S → State S → Type 0 where
    prepared :
        {s : State S} (account : String) (passphrase : Option Bytes) (threshold : ℕ)
        (participants : List Endpoint)
        → Participates S C.id participants
        → Step s (on_prepare S C account passphrase threshold participants s).1
    executed : {s : State S} (account : String) → Step s (on_execute S C account s).1
    contributed_to :
        {s : State S} (sender_id : ℕ) (account : String) (secret : S.SecretKey)
        (v_vec : List S.PublicKey)
        → Step s (on_contribute S C sender_id account secret v_vec s).1
    committed :
        {s : State S} (account : String) (confirmation : Bytes)
        → Step s (on_commit S C account confirmation s).1
    aborted : {s : State S} (account : String) → Step s (on_abort S C account s).1
    elsewhere : {s : State S} (world : S.World) → Step s (record s { world = world })

  pub data Reachable : State S → Type 0 where
    initially : (world : S.World) → Reachable (record { generations = []; world = world })
    after : {s s' : State S} → Reachable s → Step s s' → Reachable s'

  Step-Inv : {s s' : State S} → Step s s' → Inv S C s → Inv S C s'
  Step-Inv {s} (prepared account passphrase threshold participants part) h =
      on_prepare-Inv S C account passphrase threshold participants s part h
  Step-Inv {s} (executed account) h = on_execute-Inv S C account s h
  Step-Inv {s} (contributed_to sender_id account secret v_vec) h =
      on_contribute-Inv S C sender_id account secret v_vec s h
  Step-Inv {s} (committed account confirmation) h = on_commit-Inv account confirmation s h
  Step-Inv {s} (aborted account) h = on_abort-Inv S C account s h
  Step-Inv (elsewhere world) h = h

  -- In every state that is reached, each generation in the map has the account it is under and the
  -- instance's ID, and the shares and verification vectors that it has received have the same keys,
  -- with shares that verify.
  pub Reachable-Inv : {s : State S} → Reachable s → Inv S C s
  Reachable-Inv (initially world) = tt
  Reachable-Inv (after r step) = Step-Inv step (Reachable-Inv r)

pub Reachable-Committed :
    (S : Services) (C : Config) (account : String) (confirmation : Bytes) (s s' : State S)
    (pub_key sig : Bytes)
    → LawfulBls S.bls
    → Reachable S C s
    → on_commit S C account confirmation s ≡ (ret (ok (pub_key, sig)), s')
    → Committed S C account confirmation s s' pub_key sig
Reachable-Committed S C account confirmation s s' pub_key sig L r h =
    on_commit-Committed S C L account confirmation s s' pub_key sig (Reachable-Inv S C r) h
