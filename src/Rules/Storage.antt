-- ===== src/Rules/Storage.antt =====
-- rules/standard/storage.go: the methods of `Store` over a badger database.
pub mod ReadBack
pub mod Batch
use dirk.Prelude.{Option, none, some, List, [], ◌∷◌, length, ◌==◌, not, if◌then◌else◌}
use dirk.Go.{Bytes, Error, Go, ret, panic, Run, pure, Result, ok, err}
use dirk.Rules.Types
use dirk.Rules.Types.{approved, failed}
use dirk.Rules.Env.{
  ItemRead, value, read_error, read_panic, Get, found, key_not_found, get_error, Env,
}

-- `item.Value` with a function that copies the value
unfoldable pub read_item : ItemRead → Go (Result Bytes)
read_item (value v) = ret (ok v)
read_item (read_error e) = ret (err e)
read_item read_panic = panic

-- The body of `db.View`: an error that is not ErrKeyNotFound falls through to `item.Value`.
unfoldable pub view_item : Get → Go (Result Bytes)
unfolding read_item
view_item (found r) = read_item r
view_item key_not_found = ret (err "not found")
view_item (get_error r) = read_item r

-- The loop over both slices, which have one length, that looks for an empty entry.
check_entries : List Bytes → List Bytes → Option Error
check_entries ([] ∷ keys) values = some "empty key provided"
check_entries ((b ∷ k) ∷ keys) ([] ∷ values) = some "empty value provided"
check_entries ((b ∷ k) ∷ keys) ((c ∷ v) ∷ values) = check_entries keys values
check_entries _ _ = none

module _ (E : Env) where
  unfoldable pub fetch : Bytes → Run E.Db (Result Bytes)
  fetch [] d = (ret (err "no key provided"), d)
  fetch (b ∷ key) d = (view_item (E.get d (b ∷ key)), d)

  unfoldable pub store : Bytes → Bytes → Run E.Db (Option Error)
  store [] val d = (ret (some "no key provided"), d)
  store (b ∷ key) [] d = (ret (some "no value provided"), d)
  store (b ∷ key) (c ∷ val) d = let (e, d') = E.update d (b ∷ key) (c ∷ val) in (ret e, d')

  -- `wb.Set` for each entry, then `wb.Flush`; an error of `wb.Set` returns, and the deferred
  -- `wb.Cancel` ends the batch. After `wb.Flush` it has no effect.
  pub write_entries : List Bytes → List Bytes → E.Batch → Option Error × E.Db
  write_entries (k ∷ keys) (v ∷ values) w =
      let (e, w') = E.set w k v in
      let rest = write_entries keys values w' in
      elim e [ none ↦ rest | some x ↦ (some x, E.cancel w') ]
  write_entries _ _ w = E.flush w

  unfoldable pub batch_store : List Bytes → List Bytes → Run E.Db (Option Error)
  unfolding check_entries write_entries
  batch_store keys values d =
      if length keys == 0
      then (ret (some "no keys provided"), d)
      else if not (length keys == length values)
      then (ret (some "key/value length mismatch"), d)
      else elim (check_entries keys values) [
        | some e ↦ (ret (some e), d)
        | none ↦ (let (e, d') = write_entries keys values (E.new_write_batch d) in (ret e, d'))
      ]

-- What a rule returns once its state is stored: FAILED if that failed.
abbrev pub stored : Option Error → Types.Result
stored none = approved
stored (some e) = failed
