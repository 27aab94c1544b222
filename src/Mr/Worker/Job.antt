-- ===== src/Mr/Worker/Job.antt =====
-- The map and the reduce phase of mr/worker.go together: the map tasks run in any order and as
-- often as the coordinator gives them out, and the reduce tasks read what they wrote.
use distributed_system.Mr.Rpc.{map_task, reduce_task, CoordinatorReply}
use distributed_system.Mr.Coordinator.{intermediate_name, intermediate_names}
use distributed_system.Mr.Worker.Grouping.{values_of, IsGrouping, groups_of-IsGrouping}
use distributed_system.Mr.Worker.Buckets.{bucket, bucket-append, All-bucket, values_of-bucket}
use distributed_system.Mr.Worker.Names.{intermediate_name_inj}
use distributed_system.Mr.Worker.Written.{Wrote, write_intermediate-Wrote}
use distributed_system.Prelude.{
  comparable_nat, comparable_list, All, All-get_elem?, All-imp, Bool-cases, List, Option, Str, [],
  ap, arith, contains, eqb, eqb_iff, get, get_elem?, get_elem?-lt, get_elem?-some, if◌then◌else◌,
  inl, inr, length, none, put, refl, some, subst, suc, sym, true, ℕ, ◌%◌, ◌++◌, ◌+◌, ◌<◌, ◌∙◌, ◌∷◌,
  ◌≡◌, ◌≢◌, ◌⊎◌,
}
use distributed_system.Mr.Worker.{
  Files, Format, KeyValue, Sorter, groups_of, handle_map_task, handle_reduce_task, ihash, load,
  output_name, output_text,
}

-- What the coordinator sends for the map task `j` on a file, and for the reduce task `i` after `m`
-- map tasks.
abbrev pub map_reply : ℕ → ℕ → Str → CoordinatorReply
map_reply n j name = record {
  task_type = map_task;
  input_files = name ∷ [];
  n_reduce = n;
  work_id = j;
}

abbrev pub reduce_reply : ℕ → ℕ → ℕ → CoordinatorReply
reduce_reply n m i = record {
  task_type = reduce_task;
  input_files = intermediate_names i 0 m;
  n_reduce = n;
  work_id = i;
}

module _ (format : Format) (mapf : Str → Str → List KeyValue) where
  open format use {File, IsUtf8, encode, decode, decode-encode, text, read_all}

  -- The entries that the map function emits for an input file.
  abbrev pub emitted : Str × File → List KeyValue
  emitted (name, file) = mapf name (read_all file)

  abbrev pub all_emitted : List (Str × File) → List KeyValue
  all_emitted [] = []
  all_emitted (input ∷ inputs) = emitted input ++ all_emitted inputs

  abbrev pub AllUtf8 : List KeyValue → Type 0
  AllUtf8 kvs = All (λ kv. IsUtf8 kv.key × IsUtf8 kv.value) kvs

  -- An input file is there, has no name of an intermediate file, and its entries are valid UTF-8.
  pub record IsInput (fs : Files format) (input : Str × File) : Type 0 where
    pub present : get fs input.0 ≡ some input.1
    pub apart : (j i : ℕ) → intermediate_name j i ≢ input.0
    pub utf8 : AllUtf8 (emitted input)

  -- The map tasks of the list `js` run one after the other.
  unfoldable pub run_maps : ℕ → List (Str × File) → List ℕ → Files format → Option (Files format)
  run_maps n inputs [] fs = some fs
  run_maps n inputs (j ∷ js) fs = elim (get_elem? inputs j) [
    | none ↦ none
    | some input ↦ elim (handle_map_task format mapf (map_reply n j input.0) fs) [
      | none ↦ none
      | some fs1 ↦ run_maps n inputs js fs1
    ]
  ]

  -- The intermediate files of the map task `j` are complete.
  abbrev pub IsMapped : ℕ → List (Str × File) → Files format → ℕ → Type 0
  IsMapped n inputs fs j =
      (input : Str × File)
      → get_elem? inputs j ≡ some input
      → (i : ℕ) → i < n
      → get fs (intermediate_name j i) ≡ some (encode (bucket n i (emitted input)))

  handle_map_task-Wrote :
      (n j : ℕ) (input : Str × File) (fs : Files format)
      → 0 < n
      → get fs input.0 ≡ some input.1
      → (fs' : Files format) × (handle_map_task format mapf (map_reply n j input.0) fs ≡ some fs')
        × Wrote format j n (emitted input) fs fs'
  unfolding handle_map_task
  handle_map_task-Wrote n j input fs pos_n e =
      let (fs', e', w) = write_intermediate-Wrote format j n (emitted input) fs pos_n in
      (fs', rw (handle_map_task, e) e', w)

  Wrote-IsInput :
      (n j : ℕ) (kvs : List KeyValue) (fs fs' : Files format)
      → Wrote format j n kvs fs fs'
      → (input : Str × File) → IsInput fs input
      → IsInput fs' input
  Wrote-IsInput n j kvs fs fs' w input h = record {
    present = w.others input.0 (λ i lt. h.apart j i) ∙ h.present;
    apart = h.apart;
    utf8 = h.utf8;
  }

  -- A map task completes its own intermediate files, and leaves complete what was complete.
  Wrote-IsMapped :
      (n j : ℕ) (inputs : List (Str × File)) (input : Str × File) (fs fs' : Files format)
      → get_elem? inputs j ≡ some input
      → Wrote format j n (emitted input) fs fs'
      → (j' : ℕ) → (eqb j j' ≡ true) ⊎ IsMapped n inputs fs j'
      → IsMapped n inputs fs' j'
  Wrote-IsMapped n j inputs input fs fs' e w j' h input' e' i lt = elim (Bool-cases (eqb j j')) [
    | inl hit ↦
        let same : j ≡ j' = (eqb_iff j j').0 hit in
        let same_input : input ≡ input' = ground (arith, same, e, e') in
        subst (λ x. get fs' (intermediate_name x i) ≡ some (encode (bucket n i (emitted input'))))
          same (w.written i lt ∙ ap (λ p. some (encode (bucket n i (emitted p)))) same_input)
    | inr miss ↦ elim h [
      | inl hit ↦ cc
      | inr before ↦
          w.others (intermediate_name j' i)
            (λ i0 lt0 q. cc ((eqb_iff j j').1 (intermediate_name_inj j i0 j' i q).0, miss))
          ∙ before input' e' i lt
    ]
  ]

  pub record MapsRan (n : ℕ) (inputs : List (Str × File)) (js : List ℕ) (fs fs' : Files format)
      : Type 0 where
    pub ran : run_maps n inputs js fs ≡ some fs'
    pub inputs_kept : All (IsInput fs') inputs
    pub mapped : (j : ℕ) → (contains j js ≡ true) ⊎ IsMapped n inputs fs j → IsMapped n inputs fs' j

  pub run_maps-MapsRan :
      (n : ℕ) (inputs : List (Str × File)) (js : List ℕ) (fs : Files format)
      → 0 < n
      → All (IsInput fs) inputs
      → All (λ j. j < length inputs) js
      → (fs' : Files format) × MapsRan n inputs js fs fs'
  unfolding run_maps
  run_maps-MapsRan n inputs [] fs pos_n ready lt = (
    fs,
    record {
      ran = refl;
      inputs_kept = ready;
      mapped = λ j h. elim h [ inl hit ↦ cc | inr before ↦ before ];
    },
  )
  run_maps-MapsRan n inputs (j ∷ js) fs pos_n ready lt =
      let (input, e) = get_elem?-some inputs j lt.0 in
      let here = All-get_elem? (IsInput fs) inputs j ready e in
      let (fs1, e1, w) = handle_map_task-Wrote n j input fs pos_n here.present in
      let ready1 = All-imp (Wrote-IsInput n j (emitted input) fs fs1 w) inputs ready in
      let (fs', r) = run_maps-MapsRan n inputs js fs1 pos_n ready1 lt.1 in
      (
        fs',
        record {
          ran = rw (run_maps, e, e1) r.ran;
          inputs_kept = r.inputs_kept;
          mapped = λ j' h. r.mapped j' (elim (Bool-cases (contains j' js)) [
            | inl later ↦ inl later
            | inr not_later ↦ inr (
                Wrote-IsMapped n j inputs input fs fs1 e w j' (elim h [
                  | inl hit ↦ inl (ground (arith, hit, not_later))
                  | inr before ↦ inr before
                ]))
          ]);
        },
      )

  -- Loading the intermediate files of a partition gives its bucket of all entries.
  load_partition :
      (n i : ℕ) (inputs : List (Str × File)) (fs : Files format) (j : ℕ)
      → i < n
      → All (IsInput fs) inputs
      → ((j' : ℕ)
          → (input : Str × File) → get_elem? inputs j' ≡ some input
          → get fs (intermediate_name (j + j') i) ≡ some (encode (bucket n i (emitted input))))
      → load format (intermediate_names i j (length inputs)) fs
        ≡ some (bucket n i (all_emitted inputs))
  unfolding load intermediate_names bucket
  load_partition n i [] fs j lt ready mapped = refl
  load_partition n i (input ∷ inputs) fs j lt ready mapped =
      let first : j + 0 ≡ j = omega arith in
      let here =
        subst (λ x. get fs (intermediate_name x i) ≡ some (encode (bucket n i (emitted input))))
          first (mapped 0 input refl) in
      let rest = load_partition n i inputs fs (suc j) lt ready.1 (λ j' input' e.
        let shift : j + suc j' ≡ suc j + j' = omega arith in
        subst (λ x. get fs (intermediate_name x i) ≡ some (encode (bucket n i (emitted input'))))
          shift (mapped (suc j') input' e)) in
      let back =
        decode-encode (bucket n i (emitted input))
          (All-bucket _ n i (emitted input) ready.0.utf8) in
      rw (load, here, rest)
        (ap some (
          ap (λ l. l ++ bucket n i (all_emitted inputs)) back
          ∙ sym (bucket-append n i (emitted input) (all_emitted inputs))))

  -- The values of a key that partition `i` has to put out: all that the map function emitted.
  abbrev pub partition_values : ℕ → ℕ → List (Str × File) → Str → List Str
  partition_values n i inputs k =
      if eqb (ihash k % n) i then values_of k (all_emitted inputs) else []

  module _ (sorter : Sorter) (reducef : Str → List Str → Str) where
    pub handle_reduce_task-IsGrouping :
        (n i : ℕ) (inputs : List (Str × File)) (fs : Files format)
        → i < n
        → All (IsInput fs) inputs
        → ((j : ℕ) → IsMapped n inputs fs j)
        → (groups : List (Str × List Str)) × (handle_reduce_task format sorter reducef
              (reduce_reply n (length inputs) i)
              fs
            ≡ some (put fs (output_name i) (text (output_text reducef groups))))
          × IsGrouping groups (partition_values n i inputs)
    unfolding handle_reduce_task
    handle_reduce_task-IsGrouping n i inputs fs lt ready mapped =
        let kvs = bucket n i (all_emitted inputs) in
        let sorted = sorter.sort_slice kvs in
        let zero_j : (j : ℕ) → 0 + j ≡ j = λ j. omega arith in
        let loaded =
          load_partition n i inputs fs 0 lt ready
            (λ j input e. rw (zero_j j) (mapped j input e i lt)) in
        (
          groups_of sorted,
          rw (handle_reduce_task, loaded) refl,
          subst (IsGrouping (groups_of sorted))
              (λ t k. values_of-bucket n i k (all_emitted inputs) t)
              (groups_of-IsGrouping sorter kvs),
        )

    -- Map tasks that run in any order, each one or more times, and then a reduce task: every call
    -- succeeds, and the output has one line for each key of the partition, from all values that
    -- the map function emitted for that key in all inputs.
    pub run_maps-handle_reduce_task :
        (n i : ℕ) (inputs : List (Str × File)) (js : List ℕ) (fs : Files format)
        → i < n
        → All (IsInput fs) inputs
        → All (λ j. j < length inputs) js
        → ((j : ℕ) → j < length inputs → contains j js ≡ true)
        → (fs' : Files format) × (groups : List (Str × List Str)) × (run_maps n inputs js fs
            ≡ some fs')
          × (handle_reduce_task format sorter reducef (reduce_reply n (length inputs) i) fs'
              ≡ some (put fs' (output_name i) (text (output_text reducef groups))))
          × IsGrouping groups (partition_values n i inputs)
    run_maps-handle_reduce_task n i inputs js fs lt ready in_range all_run =
        let (fs', r) = run_maps-MapsRan n inputs js fs (omega arith) ready in_range in
        let (groups, e, out) =
          handle_reduce_task-IsGrouping n i inputs fs' lt r.inputs_kept
            (λ j input e. r.mapped j (inl (all_run j (get_elem?-lt inputs j e))) input e) in
        (fs', groups, r.ran, e, out)
