-- ===== src/Scatter.antt =====
-- util/scatter.go: how `Scatter` splits its input into one extent for each worker.
pub mod Cover
use dirk.Prelude.{ℕ, zero, suc, ◌+◌, ◌-◌, ◌*◌, ◌/◌, ◌%◌, ltb, ◌==◌, if◌then◌else◌, List, [], ◌∷◌}

-- `procs` is runtime.GOMAXPROCS(0).
unfoldable pub calculate_extent_size : ℕ → ℕ → ℕ
calculate_extent_size procs items =
    let extent_size = items / procs in
    if extent_size == 0
    then 1
    else if ltb 0 (items % extent_size)
    then extent_size + 1
    else extent_size

-- The number of workers.
unfoldable pub workers : ℕ → ℕ → ℕ
workers input_len extent_size =
    if input_len % extent_size == 0 then input_len / extent_size else input_len / extent_size + 1

-- A worker's offset and number of entries, for `count` workers from the given one on.
unfoldable pub extents_from : ℕ → ℕ → ℕ → ℕ → List (ℕ × ℕ)
extents_from zero worker extent_size input_len = []
extents_from (suc count) worker extent_size input_len =
    let offset = worker * extent_size in
    (offset, (if ltb input_len (offset + extent_size) then input_len - offset else extent_size))
    ∷ extents_from count (suc worker) extent_size input_len

unfoldable pub extents : ℕ → ℕ → List (ℕ × ℕ)
unfolding extents_from workers calculate_extent_size
extents procs input_len =
    let size = calculate_extent_size procs input_len in
    extents_from (workers input_len size) 0 size input_len
