-- ===== src/Mr/Sequential.antt =====
-- main/mrsequential.go: the sequential MapReduce, which runs in one process without partitions.
pub mod Agreement
use distributed_system.Prelude.{
  ℕ, zero, suc, ◌≡◌, Bool, true, false, Option, none, some, List, [], ◌∷◌, ◌++◌, map, length, eqb,
  if◌then◌else◌, ◌==◌, Str, bytes, comparable_nat, comparable_list, get, put, take, drop,
}
use distributed_system.Mr.Worker.{KeyValue, Sorter, Format, Files, output_text}

-- The first inner loop: how many entries at the front have this key.
unfoldable pub run_length : Str → List KeyValue → ℕ
run_length k [] = 0
run_length k (kv ∷ kvs) = let n = run_length k kvs in if kv.key == k then suc n else 0

-- The loop over the sorted entries, with more fuel than there are entries. `j - i` is at least 1.
unfoldable pub sequential_runs : ℕ → List KeyValue → List (Str × List Str)
sequential_runs zero kvs = []
sequential_runs (suc fuel) [] = []
sequential_runs (suc fuel) (kv ∷ kvs) =
    let n = suc (run_length kv.key kvs) in
    (kv.key, map (λ e. e.value) (take n (kv ∷ kvs))) ∷ sequential_runs fuel (drop n (kv ∷ kvs))

unfoldable pub sequential_groups : List KeyValue → List (Str × List Str)
sequential_groups kvs = sequential_runs (suc (length kvs)) kvs

module _ (format : Format) (mapf : Str → Str → List KeyValue) where
  open format use {text, read_all}

  -- The loop that reads the input files and accumulates what the map function emits.
  unfoldable pub read_inputs : List Str → Files format → Option (List KeyValue)
  read_inputs [] files = some []
  read_inputs (name ∷ names) files = elim (get files name) [
    | none ↦ none
    | some file ↦ elim (read_inputs names files) [
      | none ↦ none
      | some kvs ↦ some (mapf name (read_all file) ++ kvs)
    ]
  ]

  -- `main`, given the input files of the command line. Without any it exits.
  unfoldable pub sequential :
      Sorter → (Str → List Str → Str) → List Str → Files format → Option (Files format)
  sequential sorter reducef names files =
      if eqb (length names) 0 then none else elim (read_inputs names files) [
        | none ↦ none
        | some kvs ↦
            let groups = sequential_groups (sorter.sort_slice kvs) in
            some (put files (bytes "mr-out-0") (text (output_text reducef groups)))
      ]
