-- ===== src/History.antt =====
-- Safety of a history of approvals, for any state that keeps track of what was approved: the
-- argument that the attestation and the proposal rules share.
use dirk.Prelude.{List, [], ◌∷◌, ◌++◌, All, All-append, All-map, Ordered, ◌≡◌}

-- Calls one after the other: what they approve, in order, and the last state.
unfoldable pub run_all : {C D I : Type 0} → (C → D → List I × D) → List C → D → List I × D
run_all step [] d = ([], d)
run_all step (c ∷ cs) d =
    let (xs, d1) = step c d in let (ys, d2) = run_all step cs d1 in (xs ++ ys, d2)

module _ {D : Type 0} {I : Type 0} (Covered : D → I → Type 0) (Later : I → I → Type 0) where
  -- One call: it forgets nothing, and what it approves is later than all before it, is covered
  -- after it, and is in order.
  pub record SafeStep (d : D) (approvals : List I) (d' : D) : Type 0 where
    pub preserves : (x : I) → Covered d x → Covered d' x
    pub fresh : All (λ y. (x : I) → Covered d x → Later x y) approvals
    pub covered : All (Covered d') approvals
    pub ordered : Ordered Later approvals

  pub Ordered-append :
      (xs ys : List I)
      → Ordered Later xs
      → Ordered Later ys
      → All (λ x. All (Later x) ys) xs
      → Ordered Later (xs ++ ys)
  Ordered-append [] ys hx hy h = hy
  Ordered-append (x ∷ xs) ys hx hy h =
      (All-append (Later x) xs ys hx.0 h.0, Ordered-append xs ys hx.1 hy h.1)

  -- A call that approves nothing and forgets nothing.
  pub nothing-SafeStep :
      (d d' : D) (xs : List I) → xs ≡ [] → ((x : I) → Covered d x → Covered d' x) → SafeStep d xs d'
  nothing-SafeStep d d' [] e keep = record {
    preserves = keep;
    fresh = tt;
    covered = tt;
    ordered = tt;
  }
  nothing-SafeStep d d' (x ∷ xs) e keep = cc

  -- Two safe steps, one after the other, are one.
  pub append-SafeStep :
      (d d1 d2 : D) (xs ys : List I)
      → SafeStep d xs d1
      → SafeStep d1 ys d2
      → SafeStep d (xs ++ ys) d2
  append-SafeStep d d1 d2 xs ys a b = record {
    preserves = λ x c. b.preserves x (a.preserves x c);
    fresh =
        All-append (λ y. (x : I) → Covered d x → Later x y) xs ys a.fresh
          (All-map (λ y. (x : I) → Covered d1 x → Later x y)
            (λ y. (x : I) → Covered d x → Later x y) ys (λ y f x c. f x (a.preserves x c)) b.fresh);
    covered =
        All-append (Covered d2) xs ys
          (All-map (Covered d1) (Covered d2) xs (λ x c. b.preserves x c) a.covered) b.covered;
    ordered = Ordered-append xs ys a.ordered b.ordered (
        All-map (Covered d1) (λ x. All (Later x) ys) xs
          (λ x c.
            All-map (λ y. (z : I) → Covered d1 z → Later z y) (Later x) ys (λ y f. f x c) b.fresh)
          a.covered);
  }

module _ {C D I : Type 0} (Covered : D → I → Type 0) (Later : I → I → Type 0)
    (step : C → D → List I × D) (Valid : C → Type 0)
    (safe : (c : C) → Valid c → (d : D) → SafeStep Covered Later d (step c d).0 (step c d).1) where
  -- What is covered at the start stays before every approval.
  run_all-fresh :
      (cs : List C) (d : D) (x : I)
      → All Valid cs
      → Covered d x
      → All (Later x) (run_all step cs d).0
  unfolding run_all
  run_all-fresh [] d x v h = tt
  run_all-fresh (c ∷ cs) d x v h =
      All-append (Later x) (step c d).0 (run_all step cs (step c d).1).0
        (All-map (λ y. (z : I) → Covered d z → Later z y) (Later x) (step c d).0 (λ y f. f x h)
          (safe c v.0 d).fresh)
        (run_all-fresh cs (step c d).1 x v.1 ((safe c v.0 d).preserves x h))

  pub run_all-Ordered : (cs : List C) (d : D) → All Valid cs → Ordered Later (run_all step cs d).0
  unfolding run_all
  run_all-Ordered [] d v = tt
  run_all-Ordered (c ∷ cs) d v =
      Ordered-append Covered Later (step c d).0 (run_all step cs (step c d).1).0
        (safe c v.0 d).ordered (run_all-Ordered cs (step c d).1 v.1)
        (All-map (Covered (step c d).1) (λ x. All (Later x) (run_all step cs (step c d).1).0)
          (step c d).0 (λ x h. run_all-fresh cs (step c d).1 x v.1 h) (safe c v.0 d).covered)
