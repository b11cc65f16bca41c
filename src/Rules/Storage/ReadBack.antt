-- ===== src/Rules/Storage/ReadBack.antt =====
-- `fetch` and `store` at a key and a value that are not empty.
use dirk.Prelude.{
  ◌≡◌, ◌≢◌, ◌⊎◌, inl, inr, refl, none, some, [], ◌∷◌, bytes_equal, if◌then◌else◌, Option-cases,
}
use dirk.Go.{Bytes, Error, ret}
use dirk.Rules.Env.{Env, Lawful, found, value}
use dirk.Rules.Storage.{view_item, fetch, store}

module _ (E : Env) where
  pub fetch-eq : (k : Bytes) (d : E.Db) → k ≢ [] → fetch E k d ≡ (view_item (E.get d k), d)
  unfolding fetch
  fetch-eq [] d h = absurd (h refl)
  fetch-eq (b ∷ k) d h = refl

  pub store-eq :
      (k v : Bytes) (d : E.Db)
      → k ≢ []
      → v ≢ []
      → store E k v d ≡ (ret (E.update d k v).0, (E.update d k v).1)
  unfolding store
  store-eq [] v d h h' = absurd (h refl)
  store-eq (b ∷ k) [] d h h' = absurd (h' refl)
  store-eq (b ∷ k) (c ∷ v) d h h' = refl

  -- After the write of one key, and after none.
  abbrev pub Writes : E.Db → Bytes → Bytes → E.Db → Type 0
  Writes d k v d' =
      (j : Bytes) → E.get d' j ≡ (if bytes_equal k j then found (value v) else E.get d j)

  abbrev pub Keeps : E.Db → E.Db → Type 0
  Keeps d d' = (j : Bytes) → E.get d' j ≡ E.get d j

  -- `db.Update` writes its key if it returns no error, and nothing else.
  pub update_outcome :
      Lawful E
      → (d : E.Db) (k v : Bytes)
      → (((E.update d k v).0 ≡ none) × Writes d k v (E.update d k v).1)
        ⊎ (((e : Error) × ((E.update d k v).0 ≡ some e)) × Keeps d (E.update d k v).1)
  update_outcome L d k v = elim (Option-cases (E.update d k v).0) [
    | inl done ↦ inl (done, λ j. L.update_ok d k v j done)
    | inr (e, bad) ↦ inr ((e, bad), λ j. L.update_failed d k v j e bad)
  ]
