-- ===== src/Rules/Storage/Batch.antt =====
-- What the store holds after a batch, flushed or not.
use dirk.Prelude.{
  ◌≡◌, ◌≢◌, ◌⊎◌, inl, inr, refl, sym, subst, ◌∙◌, Option, none, some, List, [], ◌∷◌, arith,
  bytes_equal_iff, Option-cases, Bool-cases, All, length, ◌==◌, ap,
}
use dirk.Go.{Bytes, Error, Go, ret}
use dirk.Rules.Env.{Env, Lawful, newest, after_writes, WroteSome}
use dirk.Rules.Storage.{write_entries, check_entries, batch_store}

-- The entries that the loop stages, the newest first.
abbrev pub staged_entries : List Bytes → List Bytes → List (Bytes × Bytes) → List (Bytes × Bytes)
staged_entries (k ∷ ks) (v ∷ vs) es = staged_entries ks vs ((k, v) ∷ es)
staged_entries _ _ es = es

abbrev pub entries : List Bytes → List Bytes → List (Bytes × Bytes)
entries (k ∷ ks) (v ∷ vs) = (k, v) ∷ entries ks vs
entries _ _ = []

pub All-staged_entries :
    (P : Bytes × Bytes → Type 0) (ks vs : List Bytes) (es : List (Bytes × Bytes))
    → All P es
    → All P (entries ks vs)
    → All P (staged_entries ks vs es)
All-staged_entries P [] vs es h he = h
All-staged_entries P (k ∷ ks) [] es h he = h
All-staged_entries P (k ∷ ks) (v ∷ vs) es h he =
    All-staged_entries P ks vs ((k, v) ∷ es) (he.0, h) he.1

newest-step :
    (j k : Bytes) (v : Bytes) (es : List (Bytes × Bytes))
    → j ≢ k
    → newest ((j, v) ∷ es) k ≡ newest es k
newest-step j k v es h = ground (arith, bytes_equal_iff j k)

-- A key that is not staged keeps what it had.
newest-staged_other :
    (ks vs : List Bytes) (es : List (Bytes × Bytes)) (k : Bytes)
    → All (λ j. k ≢ j) ks
    → newest (staged_entries ks vs es) k ≡ newest es k
newest-staged_other [] vs es k h = refl
newest-staged_other (j ∷ ks) [] es k h = refl
newest-staged_other (j ∷ ks) (v ∷ vs) es k h =
    newest-staged_other ks vs ((j, v) ∷ es) k h.1 ∙ newest-step j k v es (λ e. h.0 (sym e))

-- A key that is staged once has its value.
pub newest-staged_head :
    (k : Bytes) (ks : List Bytes) (v : Bytes) (vs : List Bytes) (es : List (Bytes × Bytes))
    → All (λ j. k ≢ j) ks
    → newest (staged_entries (k ∷ ks) (v ∷ vs) es) k ≡ some v
newest-staged_head k ks v vs es h =
    newest-staged_other ks vs ((k, v) ∷ es) k h ∙ ground (arith, bytes_equal_iff k k)

module _ (E : Env) (L : Lawful E) (P : Bytes × Bytes → Type 0) where
  -- A batch that failed: every key is as it was, or has a value of an entry that satisfies `P`.
  pub record Failed (d d' : E.Db) : Type 0 where
    pub writes : List (Bytes × Bytes)
    pub all : All P writes
    pub some_of : (j : Bytes) → WroteSome writes j (E.get d j) (E.get d' j)

  -- What the loop and the flush leave behind: with no error all of the writes, with one only some.
  abbrev pub Outcome : E.Db → List (Bytes × Bytes) → Option Error × E.Db → Type 0
  Outcome d writes out =
      ((out.0 ≡ none) × ((j : Bytes) → E.get out.1 j ≡ after_writes writes j (E.get d j)))
      ⊎ (((e : Error) × (out.0 ≡ some e)) × Failed d out.1)

  flush_cases :
      (w : E.Batch) (d : E.Db) (es : List (Bytes × Bytes))
      → All P es
      → L.Staged w d es
      → Outcome d es (E.flush w)
  flush_cases w d es h st = elim (Option-cases (E.flush w).0) [
    | inl done ↦ inl (done, λ j. L.flush_ok w d es j st done)
    | inr (e, bad) ↦
        inr (
          (e, bad),
          record { writes = es; all = h; some_of = λ j. L.flush_failed w d es j e st bad },
        )
  ]

  pub write_cases :
      (ks vs : List Bytes) (w : E.Batch) (d : E.Db) (es : List (Bytes × Bytes))
      → All P es
      → All P (entries ks vs)
      → L.Staged w d es
      → Outcome d (staged_entries ks vs es) (write_entries E ks vs w)
  unfolding write_entries
  write_cases [] vs w d es h he st = flush_cases w d es h st
  write_cases (k ∷ ks) [] w d es h he st = flush_cases w d es h st
  write_cases (k ∷ ks) (v ∷ vs) w d es h he st = elim (Option-cases (E.set w k v).0) [
    | inl done ↦
        subst (λ o. Outcome d (staged_entries ks vs ((k, v) ∷ es)) (after_set o)) (sym done)
          (write_cases ks vs (E.set w k v).1 d ((k, v) ∷ es) (he.0, h) he.1
            (L.staged_set w d es k v st))
    | inr (e, bad) ↦
        subst (λ o. Outcome d (staged_entries ks vs ((k, v) ∷ es)) (after_set o)) (sym bad)
          (inr (
            (e, refl),
            record {
              writes = (k, v) ∷ es;
              all = (he.0, h);
              some_of =
                  λ j. L.cancelled (E.set w k v).1 d ((k, v) ∷ es) j (L.staged_set w d es k v st);
            },
          ))
  ]
    where
      after_set : Option Error → Option Error × E.Db
      after_set o = elim o [
        | none ↦ write_entries E ks vs (E.set w k v).1
        | some x ↦ (some x, E.cancel (E.set w k v).1)
      ]

  -- The guards return an error and write nothing; else the loop decides.
  batch_store-cases :
      (ks vs : List Bytes) (d : E.Db)
      → ((e : Error) × (batch_store E ks vs d ≡ (ret (some e), d)))
        ⊎ (batch_store E ks vs d ≡ (
          ret (write_entries E ks vs (E.new_write_batch d)).0,
          (write_entries E ks vs (E.new_write_batch d)).1,
        ))
  unfolding batch_store
  batch_store-cases ks vs d = elim (Bool-cases (length ks == 0)) [
    | inl e ↦ inl ("no keys provided", ground arith)
    | inr e ↦ elim (Bool-cases (length ks == length vs)) [
      | inr e' ↦ inl ("key/value length mismatch", ground arith)
      | inl e' ↦ elim (Option-cases (check_entries ks vs)) [
        | inl e'' ↦ inr (ground arith)
        | inr (x, e'') ↦ inl (x, ground arith)
      ]
    ]
  ]

  -- BatchStore, on keys and values whose pairs all meet a predicate, returns no error, and then every
  -- key holds the last value that is given for it, or what it held if none is; or it returns an
  -- error, and then every key holds what it held, or the value that some pair that meets the
  -- predicate has for it. This is for any database that meets the laws.
  pub batch_store_outcome :
      (ks vs : List Bytes) (d : E.Db)
      → All P (entries ks vs)
      → (((batch_store E ks vs d).0 ≡ ret none)
          × ((j : Bytes)
              → E.get (batch_store E ks vs d).1 j
                ≡ after_writes (staged_entries ks vs []) j (E.get d j)))
        ⊎ (((e : Error) × ((batch_store E ks vs d).0 ≡ ret (some e)))
            × Failed d (batch_store E ks vs d).1)
  batch_store_outcome ks vs d h = elim (batch_store-cases ks vs d) [
    | inl (e, eq) ↦ inr (
      (e, ap (λ (o : Go (Option Error) × E.Db). o.0) eq),
      subst (λ x. Failed d x) (sym (ap (λ (o : Go (Option Error) × E.Db). o.1) eq))
          (record { writes = []; all = tt; some_of = λ j. refl }),
    )
    | inr eq ↦
        of_loop (batch_store E ks vs d) eq
          (write_cases ks vs (E.new_write_batch d) d [] tt h (L.staged_new d))
  ]
    where
      w : Option Error × E.Db
      w = write_entries E ks vs (E.new_write_batch d)

      of_loop :
          (out : Go (Option Error) × E.Db)
          → out ≡ (ret w.0, w.1)
          → Outcome d (staged_entries ks vs []) w
          → ((out.0 ≡ ret none)
              × ((j : Bytes)
                  → E.get out.1 j ≡ after_writes (staged_entries ks vs []) j (E.get d j)))
            ⊎ (((e : Error) × (out.0 ≡ ret (some e))) × Failed d out.1)
      of_loop out eq (inl (done, all)) =
          inl (cc, λ j. ap (λ (o : Go (Option Error) × E.Db). E.get o.1 j) eq ∙ all j)
      of_loop out eq (inr ((e, bad), f)) =
          inr (
            (e, cc),
            subst (λ x. Failed d x) (sym (ap (λ (o : Go (Option Error) × E.Db). o.1) eq)) f,
          )
