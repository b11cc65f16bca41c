-- ===== src/Signer/SeveralSafety.antt =====
-- What several signatures attest is among what the rules approved.
use dirk.Rules.Attestation.Watermark.{Attested, Later}
use dirk.Rules.Env.{Env, Lawful}
use dirk.Core
use dirk.Rules.Types
use dirk.Prelude.{
  ℕ, ◌-◌, ◌≡◌, inl, inr, refl, sym, subst, Option, none, some, List, [], ◌∷◌, ◌++◌, map, arith,
  length, All, replicate, Bool-cases, if◌then◌else◌, String,
}
use dirk.Go.{Bytes, Go, ret}
use dirk.Core.{result_unknown, result_failed, result_denied}
use dirk.Rules.Types.{unknown, approved, denied, failed}
use dirk.Ruler.{Credentials, Action, RulesData, run_rules, req_of, is_attestation, LockCall}
use dirk.Ruler.History.{attestation_approval, attestation_approvals, attested_by, IsSmallEntry}
use dirk.Ruler.Safety.{entries-Safe}
use dirk.Signer.Services.{Services}
use dirk.Signer.Single.{Signed, without}
use dirk.Signer.Several.{
  Datum, Entry, refused, passed, head?, tail, rules_of, result_before, sign_entries, sign_one,
  sign_approved, cons_signed, results_and_signatures, Signatures, after_rules_results,
  confirm_and_sign, any_bad,
}
use dirk.Signer.Drops.{Drops, drop_all, skip_append, keep_append, Drops-SafeStep}
use dirk.Signer.Safety.{SafeState, CoveredState, forgets, lift}

abbrev pub signatures_of : Go Signatures → List (Option Bytes)
signatures_of (ret out) = out.1
signatures_of Go.panic = []

module _ (S : Services) where
  -- The attestations of the entries that have a signature.
  abbrev pub attested_entries : List (Entry S) → List (Option Bytes) → List Attested
  attested_entries (passed account rd ∷ entries) (some signature ∷ sigs) =
      attestation_approval rd.pub_key (req_of rd.payload) approved ++ attested_entries entries sigs
  attested_entries (passed account rd ∷ entries) (none ∷ sigs) = attested_entries entries sigs
  attested_entries (refused r ∷ entries) (s ∷ sigs) = attested_entries entries sigs
  attested_entries _ _ = []

  none_attested :
      (entries : List (Entry S)) (results : List Core.Result)
      → attested_entries entries (map (λ (y : Signed). y.1) (map without results)) ≡ []
  none_attested [] results = refl
  none_attested (refused r ∷ entries) [] = refl
  none_attested (passed a rd ∷ entries) [] = refl
  none_attested (refused r ∷ entries) (x ∷ results) = none_attested entries results
  none_attested (passed a rd ∷ entries) (x ∷ results) = none_attested entries results

module _ (S : Services) (E : Env) (admin_ips : List String) (procs : ℕ) (w : S.World) where
  abbrev signed :
      List Types.Result → List (Entry S) → List Datum → List Core.Result → List (Option Bytes)
  signed rs entries data_left results =
      signatures_of
        (results_and_signatures (sign_entries S E admin_ips procs w rs entries data_left results))

  abbrev sigs : Go (List Signed) → List (Option Bytes)
  sigs g = signatures_of (results_and_signatures g)

  refused-Drops :
      (q : Core.Result) (entries : List (Entry S)) (g : Go Signed) (h : Go (List Signed))
      (ys : List Attested)
      → Drops (attested_entries S entries (sigs h)) ys
      → Drops (attested_entries S (refused q ∷ entries) (sigs (cons_signed g h))) ys
  refused-Drops q entries Go.panic h ys ih = drop_all
  refused-Drops q entries (ret y) Go.panic ys ih = drop_all
  refused-Drops q entries (ret y) (ret l) ys ih = ih

  unsigned-Drops :
      (a : S.Account) (rd : RulesData) (entries : List (Entry S)) (q : Core.Result)
      (h : Go (List Signed)) (zs ys : List Attested)
      → Drops (attested_entries S entries (sigs h)) ys
      → Drops
          (attested_entries S (passed a rd ∷ entries) (sigs (cons_signed (ret (q, none)) h)))
          (zs ++ ys)
  unsigned-Drops a rd entries q Go.panic zs ys ih = drop_all
  unsigned-Drops a rd entries q (ret l) zs ys ih = skip_append zs ih

  signed-Drops :
      (a : S.Account) (rd : RulesData) (entries : List (Entry S)) (y : Signed)
      (h : Go (List Signed)) (ys : List Attested)
      → Drops (attested_entries S entries (sigs h)) ys
      → Drops
          (attested_entries S (passed a rd ∷ entries) (sigs (cons_signed (ret y) h)))
          (attestation_approval rd.pub_key (req_of rd.payload) approved ++ ys)
  signed-Drops a rd entries (q, none) h ys ih =
      unsigned-Drops a rd entries q h (attestation_approval rd.pub_key (req_of rd.payload) approved)
        ys ih
  signed-Drops a rd entries (q, some s) Go.panic ys ih = drop_all
  signed-Drops a rd entries (q, some s) (ret l) ys ih =
      keep_append (attestation_approval rd.pub_key (req_of rd.payload) approved) ih

  not_approved-Drops :
      (a : S.Account) (rd : RulesData) (r : Types.Result) (entries : List (Entry S))
      (q : Core.Result) (rs : List Types.Result) (data_left : List Datum)
      (results : List Core.Result)
      → Drops
          (attested_entries S entries (signed rs entries (tail data_left) results))
          (attestation_approvals (map (rules_of S) entries) rs)
      → Drops
          (attested_entries S (passed a rd ∷ entries) (
            sigs (
              cons_signed
                (ret (q, none))
                (sign_entries S E admin_ips procs w rs entries (tail data_left) results))))
          (attestation_approval rd.pub_key (req_of rd.payload) r
            ++ attestation_approvals (map (rules_of S) entries) rs)
  not_approved-Drops a rd r entries q rs data_left results ih =
      unsigned-Drops a rd entries q
        (sign_entries S E admin_ips procs w rs entries (tail data_left) results)
        (attestation_approval rd.pub_key (req_of rd.payload) r)
        (attestation_approvals (map (rules_of S) entries) rs) ih

  -- A signature is made only where the rules approved.
  sign_entries-Drops :
      (rs : List Types.Result) (entries : List (Entry S)) (data_left : List Datum)
      (results : List Core.Result)
      → Drops
          (attested_entries S entries (signed rs entries data_left results))
          (attestation_approvals (map (rules_of S) entries) rs)
  unfolding sign_entries sign_one attestation_approvals
  sign_entries-Drops [] entries data_left results =
      subst (λ l. Drops l (attestation_approvals (map (rules_of S) entries) []))
        (sym (none_attested S entries results)) drop_all
  sign_entries-Drops (r ∷ rs) [] data_left [] = drop_all
  sign_entries-Drops (r ∷ rs) (refused q ∷ entries) data_left [] = drop_all
  sign_entries-Drops (r ∷ rs) (passed a rd ∷ entries) data_left [] = drop_all
  sign_entries-Drops (r ∷ rs) [] data_left (x ∷ results) = drop_all
  sign_entries-Drops (r ∷ rs) (refused q ∷ entries) data_left (x ∷ results) =
      refused-Drops q entries
        (sign_one S E admin_ips procs w r (some (refused q)) (head? data_left))
        (sign_entries S E admin_ips procs w rs entries (tail data_left) results)
        (attestation_approvals (map (rules_of S) entries) rs)
        (sign_entries-Drops rs entries (tail data_left) results)
  sign_entries-Drops (approved ∷ rs) (passed a rd ∷ entries) [] (x ∷ results) = drop_all
  sign_entries-Drops (approved ∷ rs) (passed a rd ∷ entries) (d ∷ ds) (x ∷ results) =
      signed-Drops a rd entries (sign_approved S E admin_ips procs w a d)
        (sign_entries S E admin_ips procs w rs entries ds results)
        (attestation_approvals (map (rules_of S) entries) rs)
        (sign_entries-Drops rs entries ds results)
  sign_entries-Drops (unknown ∷ rs) (passed a rd ∷ entries) data_left (x ∷ results) =
      not_approved-Drops a rd unknown entries result_failed rs data_left results
        (sign_entries-Drops rs entries (tail data_left) results)
  sign_entries-Drops (denied ∷ rs) (passed a rd ∷ entries) data_left (x ∷ results) =
      not_approved-Drops a rd denied entries result_denied rs data_left results
        (sign_entries-Drops rs entries (tail data_left) results)
  sign_entries-Drops (failed ∷ rs) (passed a rd ∷ entries) data_left (x ∷ results) =
      not_approved-Drops a rd failed entries result_failed rs data_left results
        (sign_entries-Drops rs entries (tail data_left) results)

-- What several signatures attest, with a given action.
abbrev pub attested_several :
    (S : Services) → Action → List (Entry S) → Go Signatures → List Attested
attested_several S action entries out =
    if is_attestation action then attested_entries S entries (signatures_of out) else []

abbrev pub SmallEntries : (S : Services) → List (Entry S) → Type 0
SmallEntries S entries = All IsSmallEntry (map (rules_of S) entries)

module _ (S : Services) (E : Env) (L : Lawful E) (admin_ips : List String) (procs : ℕ) where
  pub no_signature :
      (action : Action) (entries : List (Entry S)) (results : List Core.Result)
      → attested_several S action entries (ret (results, [])) ≡ []
  no_signature action [] results = ground arith
  no_signature action (refused q ∷ entries) results = ground arith
  no_signature action (passed a rd ∷ entries) results = ground arith

  nothing-Drops :
      (entries : List (Entry S)) {ys : List Attested} → Drops (attested_entries S entries []) ys
  nothing-Drops [] = drop_all
  nothing-Drops (refused q ∷ entries) = drop_all
  nothing-Drops (passed a rd ∷ entries) = drop_all

  several-Drops :
      (w : S.World) (action : Action) (rs : Go (List Types.Result)) (entries : List (Entry S))
      (data_left : List Datum) (results : List Core.Result)
      → Drops
          (attested_several S action entries
            (after_rules_results S E admin_ips procs w rs entries data_left results))
          (attested_by action (map (rules_of S) entries) rs)
  unfolding after_rules_results
  several-Drops w action Go.panic entries data_left results =
      elim (Bool-cases (is_attestation action)) [
        | inl n ↦ rw n (nothing-Drops entries)
        | inr n ↦ rw n drop_all
      ]
  several-Drops w action (ret rs) entries data_left results =
      elim (Bool-cases (is_attestation action)) [
        | inl n ↦ rw n (sign_entries-Drops S E admin_ips procs w rs entries data_left results)
        | inr n ↦ rw n drop_all
      ]

  pub confirm-Safe :
      (c : Option Credentials) (action : Action) (data_left : List Datum) (entries : List (Entry S))
      (w : S.World) (d : E.Db)
      → SmallEntries S entries
      → let out = confirm_and_sign S E admin_ips procs c action data_left entries (w, d) in
        SafeState S E L admin_ips procs (w, d) (attested_several S action entries out.0) out.1
  unfolding confirm_and_sign
  confirm-Safe c action data_left entries w d small =
      let results : List Core.Result =
        map (result_before S) entries
        ++ replicate (length data_left - length entries) result_unknown in
      let call : Go (List Types.Result) × E.Db × List LockCall =
        run_rules E admin_ips procs c action (map (rules_of S) entries) d in
      elim (Bool-cases (any_bad results)) [
        | inl b ↦ rw b (
            subst (λ xs. SafeState S E L admin_ips procs (w, d) xs (w, d))
              (sym (no_signature action entries results))
              (forgets S E L admin_ips procs w w d d (λ x k. k)))
        | inr b ↦ rw b (
            Drops-SafeStep (CoveredState S E L admin_ips procs) Later (w, d) (w, call.1)
              (several-Drops w action call.0 entries data_left results)
              (lift S E L admin_ips procs w w d call.1
                (attested_by action (map (rules_of S) entries) call.0)
                (entries-Safe E L admin_ips procs c action (map (rules_of S) entries) d small)))
      ]

-- What a request for several signatures attests, by the entries that its first checks give.
abbrev pub attested_run :
    (S : Services) → Action → Go (List (Entry S)) → Go Signatures → List Attested
attested_run S action Go.panic out = []
attested_run S action (ret entries) out = attested_several S action entries out
