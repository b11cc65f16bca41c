-- ===== src/Examples/Memory.antt =====
-- A database in memory that meets what the rules rely on, and the domains of the beacon chain.
use dirk.Prelude.{
  ◌≡◌, refl, sym, ◌∙◌, ap, subst, inr, none, some, List, [], ◌∷◌, ◌++◌, map, arith, bytes_equal,
  if◌then◌else◌,
}
use dirk.Go.{Bytes}
use dirk.Rules.Env.{Badger, Env, Lawful, Get, found, key_not_found, value, after_writes, WroteSome}

abbrev pub Writes : Type 0
Writes = List (Bytes × Bytes)

abbrev pub memory : Badger
memory = record {
  Db = Writes;
  get = λ d k. after_writes d k key_not_found;
  update = λ d k v. (none, (k, v) ∷ d);
  iterate = λ d. map (λ e. (e.0, value e.1)) d;
  Batch = Writes × Writes;
  new_write_batch = λ d. (d, []);
  set = λ w k v. (none, (w.0, (k, v) ∷ w.1));
  flush = λ w. (none, w.1 ++ w.0);
  cancel = λ w. w.0;
}

abbrev pub env : Env
env = record {
  badger = memory;
  gob_attestation = λ bytes s. (some "EOF", s);
  gob_proposal = λ bytes s. (some "EOF", s);
  domain_beacon_proposer = 0 ∷ 0 ∷ 0 ∷ 0 ∷ [];
  domain_beacon_attester = 1 ∷ 0 ∷ 0 ∷ 0 ∷ [];
  domain_voluntary_exit = 4 ∷ 0 ∷ 0 ∷ 0 ∷ [];
}

get-cons :
    (k v j : Bytes) (d : Writes)
    → after_writes ((k, v) ∷ d) j key_not_found
      ≡ (if bytes_equal k j then found (value v) else after_writes d j key_not_found)
get-cons k v j d = ground arith

get-append :
    (es d : Writes) (k : Bytes)
    → after_writes (es ++ d) k key_not_found ≡ after_writes es k (after_writes d k key_not_found)
get-append [] d k = refl
get-append ((j, v) ∷ es) d k = ground (arith, get-append es d k)

WroteSome-unchanged : (es : Writes) (k : Bytes) (g : Get) → WroteSome es k g g
WroteSome-unchanged [] k g = refl
WroteSome-unchanged ((j, v) ∷ es) k g = inr (WroteSome-unchanged es k g)

pub lawful : Lawful env
lawful = record {
  update_ok = λ d k v j h. get-cons k v j d;
  update_failed = λ d k v j e h. cc;
  Staged = λ w d es. (w.0 ≡ d) × (w.1 ≡ es);
  staged_new = λ d. (refl, refl);
  staged_set = λ w d es k v h. (h.0, ap (λ l. (k, v) ∷ l) h.1);
  flush_ok = λ w d es k st h.
      get-append w.1 w.0 k
      ∙ ap (λ l. after_writes l k (after_writes w.0 k key_not_found)) st.1
      ∙ ap (λ l. after_writes es k (after_writes l k key_not_found)) st.0;
  flush_failed = λ w d es k e st h. cc;
  cancelled = λ w d es k st.
      subst (λ l. WroteSome es k (after_writes d k key_not_found) (after_writes l k key_not_found))
        (sym st.0) (WroteSome-unchanged es k (after_writes d k key_not_found));
  gob_attestation_int64 = λ bs s h e. cc;
}
