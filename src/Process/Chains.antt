-- ===== src/Process/Chains.antt =====
-- Chains of calls that end at the first error, read backwards.
use dirk.Process.Commit.{try_then}
use dirk.Go.{Run, Result, Go, ret, ok, err, panic, pure, ◌>>=◌}
use dirk.Process.Commit.{try_then}
use dirk.Go.{Run, Result, ret, ok, Go, ◌>>=◌, err, pure}
use dirk.Prelude.{◌≡◌, refl}

module _ {W A B : Type 0} (m : Run W (Result A)) (f : A → Run W (Result B)) where
  -- A chain that gives a value has had one from each call.
  pub try_then-inv :
      (w w' : W) (b : B)
      → try_then m f w ≡ (ret (ok b), w')
      → (a : A) × (w1 : W) × (m w ≡ (ret (ok a), w1)) × (f a w1 ≡ (ret (ok b), w'))
  unfolding try_then
  try_then-inv w w' b h = from (m w).0 (m w).1 refl h
    where
      from :
          (r : Go (Result A)) (w1 : W)
          → m w ≡ (r, w1)
          → ((λ z. (r, w1)) >>= λ r. elim r [ err e ↦ pure (err e) | ok a ↦ f a ]) w
            ≡ (ret (ok b), w')
          → (a : A) × (w1 : W) × (m w ≡ (ret (ok a), w1)) × (f a w1 ≡ (ret (ok b), w'))
      from panic w1 e q = cc
      from (ret (err x)) w1 e q = cc
      from (ret (ok a)) w1 e q = (a, w1, e, q)
