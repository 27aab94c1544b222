-- ===== src/Mr/Worker.antt =====
-- mr/worker.go: what a worker does with a task. Files are a map from names to contents; writing a
-- temporary file and renaming it is one `put`. `log.Fatalf` and a panic end the worker: `none`.
-- encoding/json and sort.Slice come as interfaces with the laws that the code relies on.
pub mod Grouping
pub mod Buckets
pub mod Names
pub mod Written
pub mod Job
use Prim.Native.Nat.{bit_and}
use mathlib.Core.List.{Perm}
use distributed_system.Prelude.{
  str_lt, ℕ, zero, suc, ◌+◌, ◌%◌, ◌≡◌, Bool, true, false, Option, none, some, List, [], ◌∷◌, ◌++◌,
  length, get_elem?, set, replicate, ltb, eqb, if◌then◌else◌, ◌==◌, Str, bytes, comparable_nat,
  comparable_list, ◌||◌, ◌&&◌, Map, get, put, All, not,
}
use distributed_system.Prelude.Decimal.{itoa}
use distributed_system.Fnv.{fnv32a}
use distributed_system.Mr.Rpc.{CoordinatorReply}
use distributed_system.Mr.Coordinator.{intermediate_name}

pub record KeyValue : Type 0 where
  pub key : Str
  pub value : Str

unfoldable pub ihash : Str → ℕ
ihash key = bit_and (fnv32a key) 0x7fffffff

-- No later entry has a smaller key.
abbrev pub IsSorted : List KeyValue → Type 0
IsSorted [] = Unit
IsSorted (x ∷ xs) = All (λ y. str_lt y.key x.key ≡ false) xs × IsSorted xs

-- sort.Slice by the keys. It is not stable: nothing is said of entries with the same key.
pub record Sorter : Type 0 where
  pub sort_slice : List KeyValue → List KeyValue
  pub sort_slice-perm : (kvs : List KeyValue) → Perm (sort_slice kvs) kvs
  pub sort_slice-IsSorted : (kvs : List KeyValue) → IsSorted (sort_slice kvs)

-- What a file can hold: the JSON lines of encoding/json, or a text. Entries read back as they were
-- written when their strings are valid UTF-8; encoding/json replaces other bytes.
pub record Format : Type 1 where
  pub File : Type 0
  pub IsUtf8 : Str → Type 0
  pub encode : List KeyValue → File
  pub decode : File → List KeyValue
  pub decode-encode :
      (kvs : List KeyValue)
      → All (λ kv. IsUtf8 kv.key × IsUtf8 kv.value) kvs
      → decode (encode kvs) ≡ kvs
  pub text : Str → File
  pub read_all : File → Str

-- The loop of `writeIntermediate` that dispatches each entry to its bucket.
unfoldable pub dispatch : ℕ → List KeyValue → List (List KeyValue) → List (List KeyValue)
dispatch n [] buckets = buckets
dispatch n (kv ∷ kvs) buckets =
    let r = ihash kv.key % n in
    let old : List KeyValue = elim (get_elem? buckets r) [ none ↦ [] | some b ↦ b ] in
    dispatch n kvs (set buckets r (old ++ kv ∷ []))

-- The inner loop of the reduce phase: the values of the entries at the front that have this key,
-- and the entries behind them.
unfoldable pub collect : Str → List KeyValue → List Str × List KeyValue
collect k [] = ([], [])
collect k (kv ∷ kvs) =
    let (vals, rest) = collect k kvs in
    if kv.key == k then (kv.value ∷ vals, rest) else ([], kv ∷ kvs)

-- The outer loop, with more fuel than there are entries: each key with its values.
unfoldable pub group_runs : ℕ → List KeyValue → List (Str × List Str)
group_runs zero kvs = []
group_runs (suc fuel) [] = []
group_runs (suc fuel) (kv ∷ kvs) =
    let (vals, rest) = collect kv.key kvs in (kv.key, kv.value ∷ vals) ∷ group_runs fuel rest

unfoldable pub groups_of : List KeyValue → List (Str × List Str)
groups_of kvs = group_runs (suc (length kvs)) kvs

-- `fmt.Fprintf(file, "%v %v\n", key, output)` for each group.
unfoldable pub output_text : (Str → List Str → Str) → List (Str × List Str) → Str
output_text reducef [] = []
output_text reducef ((k, vals) ∷ rest) =
    k ++ (b' ' ∷ (reducef k vals ++ (10 ∷ output_text reducef rest)))

unfoldable pub output_name : ℕ → Str
output_name i = bytes "mr-out-" ++ itoa i

module _ (format : Format) where
  open format use {File, encode, decode, text, read_all}

  abbrev pub Files : Type 0
  Files = Map Str File

  -- The second loop of `writeIntermediate`, from bucket `r` on.
  unfoldable pub write_buckets : ℕ → ℕ → List (List KeyValue) → Files → Files
  write_buckets map_id r [] files = files
  write_buckets map_id r (kva ∷ buckets) files =
      write_buckets map_id (suc r) buckets (put files (intermediate_name map_id r) (encode kva))

  -- With no reduce task the first entry divides by zero.
  unfoldable pub write_intermediate : ℕ → ℕ → List KeyValue → Files → Option Files
  write_intermediate map_id n kvs files =
      if eqb n 0 && not (eqb (length kvs) 0)
      then none
      else some (write_buckets map_id 0 (dispatch n kvs (replicate n [])) files)

  unfoldable pub handle_map_task :
      (Str → Str → List KeyValue) → CoordinatorReply → Files → Option Files
  handle_map_task mapf reply files = elim reply.input_files [
    | file ∷ [] ↦ elim (get files file) [
      | none ↦ none
      | some content ↦
          write_intermediate reply.work_id reply.n_reduce (mapf file (read_all content)) files
    ]
    | _ ↦ none
  ]

  -- The loop of `handleReduceTask` that loads the intermediate files.
  unfoldable pub load : List Str → Files → Option (List KeyValue)
  load [] files = some []
  load (name ∷ names) files = elim (get files name) [
    | none ↦ none
    | some file ↦ elim (load names files) [ none ↦ none | some kvs ↦ some (decode file ++ kvs) ]
  ]

  unfoldable pub handle_reduce_task :
      Sorter → (Str → List Str → Str) → CoordinatorReply → Files → Option Files
  handle_reduce_task sorter reducef reply files = elim (load reply.input_files files) [
    | none ↦ none
    | some kvs ↦
        let groups = groups_of (sorter.sort_slice kvs) in
        some (put files (output_name reply.work_id) (text (output_text reducef groups)))
  ]
