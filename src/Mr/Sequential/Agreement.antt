-- ===== src/Mr/Sequential/Agreement.antt =====
-- The sequential program main/mrsequential.go against the workers of mr/worker.go.
use mathlib.Core.List.Perm
use mathlib.Core.List.{Perm}
use distributed_system.Prelude.{
  ◌==◌, Str, bytes, comparable_nat, comparable_list, Map, get, put, All, Bool-cases, List, Option,
  [], ap, arith, contains, drop, eqb, false, get_elem?-lt, if◌then◌else◌, inl, inr, length,
  length-map, map, none, refl, some, suc, sym, take, true, zero, ℕ, ◌%◌, ◌<◌, ◌∙◌, ◌∷◌, ◌≡◌, ◌≢◌,
}
use distributed_system.Mr.Worker.{
  KeyValue, ihash, Sorter, Format, collect, group_runs, groups_of, output_text, output_name, Files,
  handle_reduce_task,
}
use distributed_system.Mr.Worker.Grouping.{
  values_of, IsGrouping, groups_of-IsGrouping, group_values, IsDistinct,
}
use distributed_system.Mr.Sequential.{
  run_length, sequential_runs, sequential_groups, read_inputs, sequential,
}
use distributed_system.Mr.Worker.Job.{
  IsInput, all_emitted, handle_reduce_task-IsGrouping, reduce_reply, run_maps, run_maps-MapsRan,
}

collect-run_length :
    (k : Str) (kvs : List KeyValue)
    → collect k kvs
      ≡ (map (λ e. e.value) (take (run_length k kvs) kvs), drop (run_length k kvs) kvs)
unfolding collect run_length
collect-run_length k [] = refl
collect-run_length k (kv ∷ kvs) = elim (Bool-cases (kv.key == k)) [
  | inl hit ↦ rw hit (ap (λ p. (kv.value ∷ p.0, p.1)) (collect-run_length k kvs))
  | inr miss ↦ rw miss refl
]

sequential_runs-group_runs :
    (fuel : ℕ) (kvs : List KeyValue) → sequential_runs fuel kvs ≡ group_runs fuel kvs
unfolding sequential_runs group_runs
sequential_runs-group_runs zero kvs = refl
sequential_runs-group_runs (suc fuel) [] = refl
sequential_runs-group_runs (suc fuel) (kv ∷ kvs) = rw (collect-run_length kv.key kvs) (
    ap (λ rest. (kv.key, kv.value ∷ map (λ e. e.value) (take (run_length kv.key kvs) kvs)) ∷ rest)
      (sequential_runs-group_runs fuel (drop (run_length kv.key kvs) kvs)))

-- The two programs group sorted entries in the same way.
pub sequential_groups-groups_of : (kvs : List KeyValue) → sequential_groups kvs ≡ groups_of kvs
unfolding sequential_groups groups_of
sequential_groups-groups_of kvs = sequential_runs-group_runs (suc (length kvs)) kvs

-- The lines of an output: each key with what the reduce function makes of its values.
abbrev pub results : (Str → List Str → Str) → List (Str × List Str) → Map Str Str
results reducef groups = map (λ g. (g.0, reducef g.0 g.1)) groups

abbrev pub result_of : (Str → List Str → Str) → Str → List Str → Option Str
result_of reducef k [] = none
result_of reducef k (v ∷ vs) = some (reducef k (v ∷ vs))

-- The reduce function does not look at the order of the values.
abbrev pub IsUnordered : (Str → List Str → Str) → Type 0
IsUnordered reducef = (k : Str) (vs ws : List Str) → Perm vs ws → reducef k vs ≡ reducef k ws

module _ (reducef : Str → List Str → Str) where
  result_of-perm :
      IsUnordered reducef
      → (k : Str) (vs ws : List Str) → Perm vs ws
      → result_of reducef k vs ≡ result_of reducef k ws
  result_of-perm u k vs [] p = rw (Perm.eq-nil p) refl
  result_of-perm u k [] (w ∷ ws) p = absurd (let e = Perm.nil-eq p in cc)
  result_of-perm u k (v ∷ vs) (w ∷ ws) p = ap some (u k (v ∷ vs) (w ∷ ws) p)

  get-results :
      (groups : List (Str × List Str)) (k : Str)
      → get groups k ≢ some []
      → get (results reducef groups) k ≡ result_of reducef k (group_values groups k)
  unfolding get
  get-results [] k ne = refl
  get-results ((key, []) ∷ rest) k ne = elim (Bool-cases (key == k)) [
    | inl hit ↦ absurd (ne (rw hit refl))
    | inr miss ↦ rw (group_values, miss) (get-results rest k (rw miss at ne))
  ]
  get-results ((key, v ∷ vs) ∷ rest) k ne = elim (Bool-cases (key == k)) [
    | inl hit ↦
        rw (group_values, hit)
          (ap (λ x. some (reducef x (v ∷ vs))) ((comparable_list.exact key k).0 hit))
    | inr miss ↦ rw (group_values, miss) (get-results rest k (rw miss at ne))
  ]

  get-results-none :
      (groups : List (Str × List Str)) (k : Str)
      → get groups k ≡ none
      → get (results reducef groups) k ≡ none
  unfolding get
  get-results-none [] k h = refl
  get-results-none ((key, vs) ∷ rest) k h = elim (Bool-cases (key == k)) [
    | inl hit ↦ ground (arith, hit, h)
    | inr miss ↦ rw miss (get-results-none rest k (rw miss at h))
  ]

  -- One line for each group.
  pub results-IsDistinct :
      (groups : List (Str × List Str)) → IsDistinct groups → IsDistinct (results reducef groups)
  results-IsDistinct [] d = tt
  results-IsDistinct ((key, vs) ∷ rest) d =
      (get-results-none rest key d.0, results-IsDistinct rest d.1)

  -- Two groupings of the same values give the same lines.
  pub IsGrouping-results :
      (groups : List (Str × List Str)) (values : Str → List Str)
      → IsUnordered reducef
      → IsGrouping groups values
      → (k : Str) → get (results reducef groups) k ≡ result_of reducef k (values k)
  IsGrouping-results groups values u g k =
      get-results groups k (g.inhabited k) ∙ result_of-perm u k _ _ (g.exact_values k)

module _ (format : Format) (mapf : Str → Str → List KeyValue) where
  open format use {File, text}

  abbrev names_of : List (Str × File) → List Str
  names_of inputs = map (λ p. p.0) inputs

  read_inputs-all_emitted :
      (inputs : List (Str × File)) (fs : Files format)
      → All (IsInput format mapf fs) inputs
      → read_inputs format mapf (names_of inputs) fs ≡ some (all_emitted format mapf inputs)
  unfolding read_inputs
  read_inputs-all_emitted [] fs ready = refl
  read_inputs-all_emitted ((name, file) ∷ inputs) fs ready =
      let e = ready.0.present in rw (read_inputs, e, read_inputs-all_emitted inputs fs ready.1) refl

  -- The output of reduce task `i` on the files `fs`, and how it compares with the lines of the
  -- sequential program.
  pub record Agrees (sorter : Sorter) (reducef : Str → List Str → Str) (n m : ℕ) (fs : Files format)
      (lines : Map Str Str) (i : ℕ) : Type 0 where
    pub groups : List (Str × List Str)
    pub written :
        handle_reduce_task format sorter reducef (reduce_reply n m i) fs
        ≡ some (put fs (output_name i) (text (output_text reducef groups)))
    pub one_line : IsDistinct (results reducef groups)
    pub same_lines :
        (k : Str)
        → get (results reducef groups) k ≡ (if eqb (ihash k % n) i then get lines k else none)

  module _ (sorter : Sorter) (reducef : Str → List Str → Str) where
    -- The sequential program and the distributed one agree, when the reduce function does not look at
    -- the order of the values, there is an input and a reduce task, and the inputs are there, are not
    -- named like intermediate files and give valid UTF-8. Both succeed, with the map tasks in any order,
    -- each one or more times; no output has two lines for a key; and reduce task `i` puts out for every
    -- key of its partition the line of the sequential program, if it has one, and no other line.
    pub sequential-Agrees :
        (n : ℕ) (inputs : List (Str × File)) (js : List ℕ) (fs : Files format)
        → 0 < n
        → 0 < length inputs
        → IsUnordered reducef
        → All (IsInput format mapf fs) inputs
        → All (λ j. j < length inputs) js
        → ((j : ℕ) → j < length inputs → contains j js ≡ true)
        → (groups : List (Str × List Str)) × (fs' : Files format) × (sequential format mapf sorter
              reducef
              (names_of inputs)
              fs
            ≡ some (put fs (bytes "mr-out-0") (text (output_text reducef groups))))
          × IsDistinct (results reducef groups)
          × (run_maps format mapf n inputs js fs ≡ some fs')
          × ((i : ℕ)
              → i < n
              → Agrees sorter reducef n (length inputs) fs' (results reducef groups) i)
    unfolding sequential
    sequential-Agrees n inputs js fs pos_n some_input u ready in_range all_run =
        let kvs = all_emitted format mapf inputs in
        let groups = sequential_groups (sorter.sort_slice kvs) in
        let (fs', r) = run_maps-MapsRan format mapf n inputs js fs pos_n ready in_range in
        let some_name : eqb (length (names_of inputs)) 0 ≡ false =
          ground (arith, length-map (λ (p : Str × File). p.0) inputs) in
        let loaded = read_inputs-all_emitted inputs fs ready in
        let g : IsGrouping groups (λ k. values_of k kvs) =
          rw (sequential_groups-groups_of (sorter.sort_slice kvs))
            (groups_of-IsGrouping sorter kvs) in
        (
          groups,
          fs',
          rw (sequential, some_name, loaded) refl,
          results-IsDistinct reducef groups g.distinct,
          r.ran,
          λ i lt.
              let (part, e, h) =
                handle_reduce_task-IsGrouping format mapf sorter reducef n i inputs fs' lt
                  r.inputs_kept
                  (λ j input e. r.mapped j (inl (all_run j (get_elem?-lt inputs j e))) input e) in
              record {
                groups = part;
                written = e;
                one_line = results-IsDistinct reducef part h.distinct;
                same_lines = λ k.
                    IsGrouping-results reducef part _ u h k
                    ∙ elim (Bool-cases (eqb (ihash k % n) i)) [
                      | inl hit ↦ rw hit (sym (IsGrouping-results reducef groups _ u g k))
                      | inr miss ↦ rw miss refl
                    ];
              },
        )
