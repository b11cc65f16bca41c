-- ===== src/Signer/SignedEntries.antt =====
-- The requests for several attestations that services/signer/standard signs: each signature is of the
-- request at its index.
use dirk.Rules.Env.{Env}
use dirk.Go.{Bytes, Go, Run, ◌>>=◌, pure, ret, ret-inj}
use dirk.Core
use dirk.Rules.Types
use dirk.Core.{result_unknown, result_denied, result_failed}
use dirk.Rules.Types.{SignData, SignBeaconAttestationData, SignBeaconProposalData, Checkpoint}
use dirk.Ruler.{Credentials, Action, sign_beacon_attestation, RulesData, LockCall, run_rules}
use dirk.Signer.Services.{Services}
use dirk.Signer.Single.{State}
use dirk.Signer.Signature.{SignedBy}
use dirk.Signer.SeveralSignatures.{
  EachSigned, EntriesSigned, EntriesFound, after_rules_results-Signed, found_all,
}
use dirk.Signer.Several.{
  Datum, Entry, passed, refused, tail, Checked, bad, good, add_checked, check_data,
  check_attestation_data, sign_several, rules_of, after_rules_results, pre_check_all, sign_all,
  sign_attestations, confirm_and_sign, Signatures, entries_of, any_bad, result_before,
}
use dirk.Prelude.{
  ℕ, ◌-◌, ◌≡◌, refl, sym, ap, subst, Bool, true, false, Option, none, some, List, [], ◌∷◌, ◌++◌,
  map, length, replicate, set, if◌then◌else◌, String,
}
use dirk.Signer.SignedRequests.{AttestationRequest, attestation-Datum, some-inj}

good-inj : {A : Type 0} (xs ys : List A) → good xs ≡ good ys → xs ≡ ys
good-inj xs ys h = cc

nothing_there : {A : Type 0} {a : A} → none ≡ some a → ⊥
nothing_there h = cc

module _ (S : Services) where
  not_passed :
      {q : Core.Result} {a : S.Account} {rd : RulesData}
      → ◌≡◌ {A = Option (Entry S)} (some (refused q)) (some (passed a rd))
      → ⊥
  not_passed h = cc

  passed-inj :
      {a b : S.Account} {rd rd' : RulesData}
      → ◌≡◌ {A = Option (Entry S)} (some (passed a rd)) (some (passed b rd'))
      → a ≡ b
  passed-inj h = cc

module _ (S : Services) (E : Env) (admin_ips : List String) (procs : ℕ) where
  -- The datum of each request.
  abbrev AllChecked : List (Option SignBeaconAttestationData) → List Datum → Type 0
  AllChecked [] [] = Unit
  AllChecked [] (d ∷ ds) = ⊥
  AllChecked (r ∷ rs) [] = ⊥
  AllChecked (r ∷ rs) (d ∷ ds) =
      (check_attestation_data S E admin_ips procs r ≡ some d) × AllChecked rs ds

  AllChecked-tail :
      (rs : List (Option SignBeaconAttestationData)) (ds : List Datum)
      → AllChecked rs ds
      → AllChecked (tail rs) (tail ds)
  AllChecked-tail [] [] h = tt
  AllChecked-tail [] (d ∷ ds) h = absurd h
  AllChecked-tail (r ∷ rs) [] h = absurd h
  AllChecked-tail (r ∷ rs) (d ∷ ds) h = h.1

  EntriesFound-tail :
      (c : Option Credentials) (action : Action) (es : List (String × Option Bytes))
      (entries : List (Entry S))
      → EntriesFound S E admin_ips procs c action es entries
      → EntriesFound S E admin_ips procs c action (tail es) (tail entries)
  EntriesFound-tail c action es [] h = tt
  EntriesFound-tail c action es (refused r ∷ entries) h = h
  EntriesFound-tail c action [] (passed account rd ∷ entries) h = absurd h
  EntriesFound-tail c action (e ∷ es) (passed account rd ∷ entries) h = h.1

  add_checked-All :
      (r : Option SignBeaconAttestationData) (rs : List (Option SignBeaconAttestationData))
      (o : Option Datum) (later : Checked Datum) (ds : List Datum)
      → check_attestation_data S E admin_ips procs r ≡ o
      → ((l : List Datum) → later ≡ good l → AllChecked rs l)
      → add_checked o later ≡ good ds
      → AllChecked (r ∷ rs) ds
  add_checked-All r rs none later ds is each h = cc
  add_checked-All r rs (some d) (bad i) ds is each h = cc
  add_checked-All r rs (some d) (good l) ds is each h =
      subst (λ z. AllChecked (r ∷ rs) z) (good-inj (d ∷ l) ds h) (is, each l refl)

  check_data-All :
      (rs : List (Option SignBeaconAttestationData)) (ds : List Datum)
      → check_data (check_attestation_data S E admin_ips procs) rs ≡ good ds
      → AllChecked rs ds
  unfolding check_data
  check_data-All [] ds h = subst (λ z. AllChecked [] z) (good-inj [] ds h) tt
  check_data-All (r ∷ rs) ds h =
      add_checked-All r rs (check_attestation_data S E admin_ips procs r)
        (check_data (check_attestation_data S E admin_ips procs) rs) ds refl
        (λ l e. check_data-All rs l e) h

  -- The account and the request of a signature of several.
  abbrev pub OneOfSeveral :
      Option Credentials → String → Option Bytes → Option SignBeaconAttestationData → Bytes → Type 0
  OneOfSeveral c name k request s =
      (before : S.World) × AttestationRequest S c before name k request s

  each_signed :
      (c : Option Credentials) (w : S.World) (es : List (String × Option Bytes))
      (rs : List (Option SignBeaconAttestationData)) (entries : List (Entry S)) (ds : List Datum)
      (sigs : List (Option Bytes))
      → EntriesFound S E admin_ips procs c sign_beacon_attestation es entries
      → AllChecked rs ds
      → EntriesSigned S w entries ds sigs
      → EachSigned (OneOfSeveral c) es rs sigs
  each_signed c w es rs entries ds [] found all h = tt
  each_signed c w es rs entries ds (none ∷ sigs) found all h =
      each_signed c w (tail es) (tail rs) (tail entries) (tail ds) sigs
        (EntriesFound-tail c sign_beacon_attestation es entries found) (AllChecked-tail rs ds all) h
  each_signed c w es rs [] ds (some s ∷ sigs) found all h = absurd (nothing_there h.0.is_entry)
  each_signed c w es rs (refused r ∷ entries) ds (some s ∷ sigs) found all h =
      absurd (not_passed S h.0.is_entry)
  each_signed c w [] rs (passed a rd ∷ entries) ds (some s ∷ sigs) found all h = absurd found
  each_signed c w (e ∷ es) rs (passed a rd ∷ entries) [] (some s ∷ sigs) found all h =
      absurd (nothing_there h.0.is_datum)
  each_signed c w (e ∷ es) [] (passed a rd ∷ entries) (d ∷ ds) (some s ∷ sigs) found all h =
      absurd all
  each_signed c w (e ∷ es) (r ∷ rs) (passed a rd ∷ entries) (d ∷ ds) (some s ∷ sigs) found all h =
      let by =
        subst (λ x. SignedBy S x d.root d.domain w s) (sym (passed-inj S h.0.is_entry))
          (subst (λ x. SignedBy S h.0.account x.root x.domain w s) (sym (some-inj h.0.is_datum))
            h.0.by) in
      let (asked, is_request, signed) = attestation-Datum S E admin_ips procs r d a w s all.0 by in
      (
        (
          found.0.before,
          record {
            wallet = found.0.wallet;
            account = a;
            after = found.0.after;
            found = found.0.found;
            asked = asked;
            is_request = is_request;
            at = w;
            signed = signed;
          },
        ),
        each_signed c w es rs entries ds sigs found.1 all.1 h.1,
      )

  -- No signatures.
  unsigned :
      (results before : List Core.Result) (sigs : List (Option Bytes)) (c : Option Credentials)
      (es : List (String × Option Bytes)) (rs : List (Option SignBeaconAttestationData))
      → ◌≡◌ {A = Go Signatures} (ret (before, [])) (ret (results, sigs))
      → EachSigned (OneOfSeveral c) es rs sigs
  unsigned results before sigs c es rs h =
      subst (λ z. EachSigned (OneOfSeveral c) es rs z) (ap (λ z. z.1) (ret-inj h)) tt

  confirmed-Signed :
      (c : Option Credentials) (es : List (String × Option Bytes))
      (rs : List (Option SignBeaconAttestationData)) (ds : List Datum) (entries : List (Entry S))
      (w : S.World) (d : E.Db) (results : List Core.Result) (sigs : List (Option Bytes))
      → EntriesFound S E admin_ips procs c sign_beacon_attestation es entries
      → AllChecked rs ds
      → (confirm_and_sign S E admin_ips procs c sign_beacon_attestation ds entries (w, d)).0
        ≡ ret (results, sigs)
      → EachSigned (OneOfSeveral c) es rs sigs
  unfolding confirm_and_sign
  confirmed-Signed c es rs ds entries w d results sigs found all h = from (any_bad before) h
    where
      before : List Core.Result
      before =
          map (result_before S) entries ++ replicate (length ds - length entries) result_unknown

      call : Go (List Types.Result) × E.Db × List LockCall
      call = run_rules E admin_ips procs c sign_beacon_attestation (map (rules_of S) entries) d

      from :
          (b : Bool)
          → (if◌then◌else◌ {A = Go Signatures × State S E admin_ips procs} b
              (ret (before, []), (w, d))
              (after_rules_results S E admin_ips procs w call.0 entries ds before, (w, call.1))).0
            ≡ ret (results, sigs)
          → EachSigned (OneOfSeveral c) es rs sigs
      from true q = unsigned results before sigs c es rs q
      from false q =
          each_signed c w es rs entries ds sigs found all (
            after_rules_results-Signed S E admin_ips procs w call.0 entries ds results before sigs
              q)

  sign_all-Signed :
      (c : Option Credentials) (names : List String) (keys : List (Option Bytes))
      (rs : List (Option SignBeaconAttestationData)) (ds : List Datum) (w : S.World) (d : E.Db)
      (results : List Core.Result) (sigs : List (Option Bytes))
      → AllChecked rs ds
      → (sign_all S E admin_ips procs c names keys sign_beacon_attestation ds (w, d)).0
        ≡ ret (results, sigs)
      → EachSigned (OneOfSeveral c) (entries_of names keys) rs sigs
  unfolding sign_all
  sign_all-Signed c names keys rs ds w d results sigs all h = from found.0 found.1 refl h
    where
      found : Go (List (Entry S)) × S.World
      found =
          pre_check_all S E admin_ips procs c sign_beacon_attestation (entries_of names keys) ds w

      from :
          (g : Go (List (Entry S))) (w1 : S.World)
          → found ≡ (g, w1)
          → (((λ (s : State S E admin_ips procs). (g, (w1, d))) >>= λ entries.
                confirm_and_sign S E admin_ips procs c sign_beacon_attestation ds entries)
              (w, d)).0
            ≡ ret (results, sigs)
          → EachSigned (OneOfSeveral c) (entries_of names keys) rs sigs
      from Go.panic w1 is q = cc
      from (ret entries) w1 is q =
          confirmed-Signed c (entries_of names keys) rs ds entries w1 d results sigs
            (found_all S E admin_ips procs c sign_beacon_attestation (entries_of names keys) ds w w1
              entries is)
            all q

  -- Each signature of several is of the request at its index, by the account that the first checks
  -- find for the name and the public key at that index.
  pub sign_attestations-Signed :
      (c : Option Credentials) (names : List String) (keys : List (Option Bytes))
      (rs : List (Option SignBeaconAttestationData)) (w : S.World) (d : E.Db)
      (results : List Core.Result) (sigs : List (Option Bytes))
      → (sign_attestations S E admin_ips procs c names keys rs (w, d)).0 ≡ ret (results, sigs)
      → EachSigned (OneOfSeveral c) (entries_of names keys) rs sigs
  unfolding sign_attestations sign_several
  sign_attestations-Signed c names keys [] w d results sigs h =
      unsigned results (result_denied ∷ []) sigs c (entries_of names keys) [] h
  sign_attestations-Signed none names keys (r ∷ rs) w d results sigs h =
      unsigned results (replicate (length (r ∷ rs)) result_denied) sigs none (entries_of names keys)
        (r ∷ rs) h
  sign_attestations-Signed (some c) names keys (r ∷ rs) w d results sigs h =
      from (check_data (check_attestation_data S E admin_ips procs) (r ∷ rs)) refl h
    where
      refusal : ℕ → List Core.Result
      refusal i = set (replicate (length (r ∷ rs)) result_unknown) i result_denied

      from :
          (k : Checked Datum)
          → check_data (check_attestation_data S E admin_ips procs) (r ∷ rs) ≡ k
          → ((elim k as (λ x. Run (State S E admin_ips procs) Signatures) [
            | bad i ↦ pure (refusal i, [])
            | good data_left ↦
                sign_all S E admin_ips procs (some c) names keys sign_beacon_attestation data_left
          ])
              (w, d)).0
            ≡ ret (results, sigs)
          → EachSigned (OneOfSeveral (some c)) (entries_of names keys) (r ∷ rs) sigs
      from (bad i) is q =
          unsigned results (refusal i) sigs (some c) (entries_of names keys) (r ∷ rs) q
      from (good ds) is q =
          sign_all-Signed (some c) names keys (r ∷ rs) ds w d results sigs
            (check_data-All (r ∷ rs) ds is) q
