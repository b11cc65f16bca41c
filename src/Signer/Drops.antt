-- ===== src/Signer/Drops.antt =====
-- A list with some items dropped, and what a part of a call's approvals keeps of a safe step.
use dirk.Prelude.{List, [], ◌∷◌, ◌++◌, All, Ordered}
use dirk.History.{SafeStep}

-- `Drops xs ys`: xs is ys with some items left out.
pub data Drops {A : Type 0} : List A → List A → Type 0 where
  drop_all : {ys : List A} → Drops [] ys
  keep : {x : A} {xs ys : List A} → Drops xs ys → Drops (x ∷ xs) (x ∷ ys)
  skip : {y : A} {xs ys : List A} → Drops xs ys → Drops xs (y ∷ ys)

pub All-Drops : {A : Type 0} (P : A → Type 0) {xs ys : List A} → Drops xs ys → All P ys → All P xs
All-Drops P drop_all h = tt
All-Drops P (keep d) h = (h.0, All-Drops P d h.1)
All-Drops P (skip d) h = All-Drops P d h.1

Ordered-Drops :
    {A : Type 0} (R : A → A → Type 0) {xs ys : List A} → Drops xs ys → Ordered R ys → Ordered R xs
Ordered-Drops R drop_all h = tt
Ordered-Drops R (keep {x} d) h = (All-Drops (R x) d h.0, Ordered-Drops R d h.1)
Ordered-Drops R (skip d) h = Ordered-Drops R d h.1

pub skip_append : {A : Type 0} (zs : List A) {xs ys : List A} → Drops xs ys → Drops xs (zs ++ ys)
skip_append [] d = d
skip_append (z ∷ zs) d = skip (skip_append zs d)

pub keep_append :
    {A : Type 0} (zs : List A) {xs ys : List A} → Drops xs ys → Drops (zs ++ xs) (zs ++ ys)
keep_append [] d = d
keep_append (z ∷ zs) d = keep (keep_append zs d)

-- A step that is safe for all approvals is safe for some of them.
pub Drops-SafeStep :
    {D I : Type 0} (Covered : D → I → Type 0) (Later : I → I → Type 0) (d d' : D) {xs ys : List I}
    → Drops xs ys
    → SafeStep Covered Later d ys d'
    → SafeStep Covered Later d xs d'
Drops-SafeStep Covered Later d d' drops s = record {
  preserves = s.preserves;
  fresh = All-Drops (λ y. (x : _) → Covered d x → Later x y) drops s.fresh;
  covered = All-Drops (Covered d') drops s.covered;
  ordered = Ordered-Drops Later drops s.ordered;
}
