-- ===== src/Mr/Samples.antt =====
-- A small job for mr/worker.go and main/mrsequential.go: two input files, whose words
-- are single letters, and two reduce tasks. A file is a list of entries or a text, and the sort is by insertion.
use mathlib.Core.List.Perm
use mathlib.Core.List.{Perm}
use distributed_system.Prelude.{
  comparable_nat, comparable_list, All, All-imp, Bool-cases, List, Str, [], ap, arith, bytes,
  contains, false, get, get_elem?, if◌then◌else◌, inl, inr, length, map, put, refl, some, sym, true,
  ℕ, ◌%◌, ◌<◌, ◌∷◌, ◌≡◌, ◌≢◌, ◌⊎◌, not_lt_trans, str_lt, str_lt_asym, eqb, none,
}
use distributed_system.Prelude.Decimal.{itoa}
use distributed_system.Fnv.{fnv32a}
use distributed_system.Mr.Coordinator.{intermediate_name, intermediate_names}
use distributed_system.Mr.Worker.{
  KeyValue, ihash, IsSorted, Sorter, Format, dispatch, collect, group_runs, groups_of, output_text,
  output_name, Files, write_buckets, write_intermediate, handle_map_task, load, handle_reduce_task,
}
use distributed_system.Mr.Worker.Grouping.{IsGrouping, IsDistinct}
use distributed_system.Mr.Worker.Job.{
  reduce_reply, IsInput, run_maps, partition_values, run_maps-handle_reduce_task,
}
use distributed_system.Mr.WordCount.{
  wc_reduce, wc_reduce-IsUnordered, emit_words, wc_map, total, word_line, word_count-total,
}
use distributed_system.Mr.Sequential.{
  run_length, sequential_runs, sequential_groups, read_inputs, sequential,
}
use distributed_system.Mr.Sequential.Agreement.{Agrees, results, sequential-Agrees}

insert_entry : KeyValue → List KeyValue → List KeyValue
insert_entry x [] = x ∷ []
insert_entry x (y ∷ ys) =
    let rest = insert_entry x ys in if str_lt y.key x.key then y ∷ rest else x ∷ y ∷ ys

sort_entries : List KeyValue → List KeyValue
sort_entries [] = []
sort_entries (x ∷ xs) = insert_entry x (sort_entries xs)

insert_entry-perm : (x : KeyValue) (ys : List KeyValue) → Perm (insert_entry x ys) (x ∷ ys)
unfolding insert_entry
insert_entry-perm x [] = Perm.refl _
insert_entry-perm x (y ∷ ys) = elim (Bool-cases (str_lt y.key x.key)) [
  | inl less ↦ rw less (Perm.trans (Perm.cons y (insert_entry-perm x ys)) (Perm.swap x y ys))
  | inr not_less ↦ rw not_less (Perm.refl _)
]

sort_entries-perm : (xs : List KeyValue) → Perm (sort_entries xs) xs
unfolding sort_entries
sort_entries-perm [] = Perm.nil
sort_entries-perm (x ∷ xs) =
    Perm.trans (insert_entry-perm x (sort_entries xs)) (Perm.cons x (sort_entries-perm xs))

insert_entry-All :
    (P : KeyValue → Type 0) (x : KeyValue) (ys : List KeyValue)
    → P x
    → All P ys
    → All P (insert_entry x ys)
unfolding insert_entry
insert_entry-All P x [] p h = (p, tt)
insert_entry-All P x (y ∷ ys) p h = elim (Bool-cases (str_lt y.key x.key)) [
  | inl less ↦ rw less (h.0, insert_entry-All P x ys p h.1)
  | inr not_less ↦ rw not_less (p, h)
]

insert_entry-IsSorted :
    (x : KeyValue) (ys : List KeyValue) → IsSorted ys → IsSorted (insert_entry x ys)
unfolding insert_entry
insert_entry-IsSorted x [] s = (tt, tt)
insert_entry-IsSorted x (y ∷ ys) s = elim (Bool-cases (str_lt y.key x.key)) [
  | inl less ↦ rw less (
    insert_entry-All (λ z. str_lt z.key y.key ≡ false) x ys (str_lt_asym y.key x.key less) s.0,
    insert_entry-IsSorted x ys s.1,
  )
  | inr not_less ↦
      let behind = All-imp (λ z h. not_lt_trans x.key y.key z.key not_less h) ys s.0 in
      rw not_less ((not_less, behind), s)
]

sort_entries-IsSorted : (xs : List KeyValue) → IsSorted (sort_entries xs)
unfolding sort_entries
sort_entries-IsSorted [] = tt
sort_entries-IsSorted (x ∷ xs) =
    insert_entry-IsSorted x (sort_entries xs) (sort_entries-IsSorted xs)

unfoldable sorter : Sorter
unfolding sort_entries insert_entry
sorter = record {
  sort_slice = sort_entries;
  sort_slice-perm = sort_entries-perm;
  sort_slice-IsSorted = sort_entries-IsSorted;
}

abbrev entries_in : (List KeyValue ⊎ Str) → List KeyValue
entries_in (inl kvs) = kvs
entries_in (inr s) = []

abbrev bytes_in : (List KeyValue ⊎ Str) → Str
bytes_in (inl kvs) = []
bytes_in (inr s) = s

abbrev format : Format
format = record {
  File = List KeyValue ⊎ Str;
  IsUtf8 = λ s. All (λ c. c < 128) s;
  encode = inl;
  decode = entries_in;
  decode-encode = λ kvs h. refl;
  text = inr;
  read_all = bytes_in;
}

letters : Str → Str → List KeyValue
letters name [] = []
letters name (c ∷ cs) = record { key = c ∷ []; value = name } ∷ letters name cs

-- Every letter is a word.
single_letters : Str → List Str
single_letters [] = []
single_letters (c ∷ cs) = (c ∷ []) ∷ single_letters cs

program : Unit {0}
unfolding itoa fnv32a ihash intermediate_name intermediate_names dispatch collect group_runs
    groups_of output_text output_name write_buckets write_intermediate handle_map_task load
    handle_reduce_task run_maps sorter letters single_letters wc_reduce emit_words wc_map get put
    run_length sequential_runs sequential_groups read_inputs sequential
program = tt

abbrev file_a : Str × (List KeyValue ⊎ Str)
file_a = (bytes "a.txt", inr (bytes "xyx"))

abbrev file_b : Str × (List KeyValue ⊎ Str)
file_b = (bytes "b.txt", inr (bytes "zx"))

abbrev inputs : List (Str × (List KeyValue ⊎ Str))
inputs = file_a ∷ file_b ∷ []

-- The second map task runs first, and once more at the end.
abbrev runs : List ℕ
runs = 1 ∷ 0 ∷ 1 ∷ []

hash_test : map (λ k. ihash k % 2) (bytes "x" ∷ bytes "y" ∷ bytes "z" ∷ []) ≡ 1 ∷ 0 ∷ 1 ∷ []
unfolding program
hash_test = refl

sequential_test :
    sequential format letters sorter wc_reduce (bytes "a.txt" ∷ bytes "b.txt" ∷ []) inputs
    ≡ some (put inputs (bytes "mr-out-0") (inr (bytes "x 3\ny 1\nz 1\n")))
unfolding program
sequential_test = refl

input_apart : (name : Str) (j i : ℕ) → get_elem? name 0 ≢ some 109 → intermediate_name j i ≢ name
unfolding intermediate_name
input_apart name j i h e = h (ap (λ s. get_elem? s 0) (sym e))

inputs-IsInput : All (IsInput format letters inputs) inputs
unfolding program
inputs-IsInput = (
  record {
    present = refl;
    apart = λ j i. input_apart _ j i (λ e. ground (arith, e));
    utf8 = ground arith;
  },
  (
    record {
      present = refl;
      apart = λ j i. input_apart _ j i (λ e. ground (arith, e));
      utf8 = ground arith;
    },
    tt,
  ),
)

all_run : (j : ℕ) → j < length inputs → contains j runs ≡ true
all_run j h = ground (arith, h)

run_maps-handle_reduce_task_example :
    (fs' : Files format) × (groups : List (Str × List Str)) × (run_maps format letters 2 inputs runs
        inputs
      ≡ some fs')
    × (handle_reduce_task format sorter wc_reduce (reduce_reply 2 2 0) fs'
        ≡ some (put fs' (output_name 0) (inr (output_text wc_reduce groups))))
    × IsGrouping groups (partition_values format letters 2 0 inputs)
run_maps-handle_reduce_task_example =
    run_maps-handle_reduce_task format letters sorter wc_reduce 2 0 inputs runs inputs (omega arith)
      inputs-IsInput (omega arith, (omega arith, (omega arith, tt))) all_run

sequential-Agrees_example :
    (groups : List (Str × List Str)) × (fs' : Files format) × (sequential format letters sorter
        wc_reduce
        (bytes "a.txt" ∷ bytes "b.txt" ∷ [])
        inputs
      ≡ some (put inputs (bytes "mr-out-0") (inr (output_text wc_reduce groups))))
    × IsDistinct (results wc_reduce groups)
    × (run_maps format letters 2 inputs runs inputs ≡ some fs')
    × ((i : ℕ)
        → i < 2
        → Agrees format letters sorter wc_reduce 2 2 fs' (results wc_reduce groups) i)
sequential-Agrees_example =
    sequential-Agrees format letters sorter wc_reduce 2 inputs runs inputs (omega arith)
      (omega arith) wc_reduce-IsUnordered inputs-IsInput
      (omega arith, (omega arith, (omega arith, tt))) all_run

words-IsInput : All (IsInput format (wc_map single_letters) inputs) inputs
unfolding program
words-IsInput = (
  record {
    present = refl;
    apart = λ j i. input_apart _ j i (λ e. ground (arith, e));
    utf8 = ground arith;
  },
  (
    record {
      present = refl;
      apart = λ j i. input_apart _ j i (λ e. ground (arith, e));
      utf8 = ground arith;
    },
    tt,
  ),
)

word_count-total_example :
    (fs' : Files format) × (groups : List (Str × List Str)) × (run_maps format
        (wc_map single_letters)
        2
        inputs
        runs
        inputs
      ≡ some fs')
    × (handle_reduce_task format sorter wc_reduce (reduce_reply 2 2 1) fs'
        ≡ some (put fs' (output_name 1) (inr (output_text wc_reduce groups))))
    × IsDistinct (results wc_reduce groups)
    × ((k : Str)
        → get (results wc_reduce groups) k ≡ (
            if eqb (ihash k % 2) 1
            then word_line single_letters format sorter
                (total single_letters format sorter k inputs)
            else none))
word_count-total_example =
    word_count-total single_letters format sorter 2 1 inputs runs inputs (omega arith) words-IsInput
      (omega arith, (omega arith, (omega arith, tt))) all_run
