-- ===== src/Mr/Coordinator/Invariant.antt =====
-- The bookkeeping invariant of the coordinator's counters and flags, kept by both handlers of
-- mr/coordinator.go for any request, and established by MakeCoordinator.
use distributed_system.Prelude.{
  ℕ, zero, suc, ◌<◌, ◌≡◌, refl, ◌⊎◌, inl, inr, Bool, true, false, not, none, some, List, [], ◌∷◌,
  arith, length, get_elem?, set, Option-cases, length-set, get_elem?-lt, ◌++◌, ◌∙◌, if◌then◌else◌,
  if_cases, eqb, Str, subst,
}
use distributed_system.Mr.Rpc.{
  TaskType, map_task, reduce_task, exit, wait, success, WorkerArgs, CoordinatorReply,
}
use distributed_system.Mr.Coordinator.Tables.{
  done_count, done_count-le-length, IsTaken, take_task-IsTaken, available-ne-success,
  done_count-set,
}
use distributed_system.Mr.Coordinator.{
  Task, MapTask, ReduceTask, Coordinator, ok, assign, take_task, complete, bump, assign_map,
  assign_reduce, assign_task, complete_map, complete_reduce, notify_as, notify_complete,
  make_map_tasks, make_reduce_tasks, make_coordinator,
}

-- One phase: its counter counts the completed tasks, and its flag is up exactly when all tasks of
-- a table that is not empty are completed.
pub record IsCounted {A : Type 0} (ts : List (Task A)) (num : ℕ) (flag : Bool) : Type 0 where
  pub counted : num ≡ done_count ts
  pub flag_up : flag ≡ true → done_count ts ≡ length ts
  pub flag_up_pos : flag ≡ true → 0 < length ts
  pub flag_down : flag ≡ false → (done_count ts < length ts) ⊎ (length ts ≡ 0)

pub record Inv (c : Coordinator) : Type 0 where
  pub map_phase : IsCounted c.map_tasks c.map_task_done_num c.map_tasks_done
  pub reduce_phase : IsCounted c.reduce_tasks c.reduce_task_done_num c.reduce_tasks_done
  pub reduce_size : length c.reduce_tasks ≡ c.n_reduce
  pub all : c.all_done ≡ c.reduce_tasks_done

module _ {A : Type 0} where
  pub done_count-take_task :
      {now i : ℕ} {ts : List (Task A)} {j : ℕ} {a : A} {rest : List (Task A)}
      → IsTaken now i ts j a rest
      → (done_count rest ≡ done_count ts) × (length rest ≡ length ts)
  unfolding assign
  done_count-take_task {now} {i} {ts} h =
      let fresh = available-ne-success now h.t h.was_available in
      rw h.table (
        ground (arith, done_count-set ts h.k (assign now h.t) h.found, fresh),
        length-set ts h.k (assign now h.t),
      )

  IsCounted-take_task :
      {now i : ℕ} (ts : List (Task A)) {j : ℕ} {a : A} (rest : List (Task A)) {num : ℕ}
      {flag : Bool}
      → IsTaken now i ts j a rest
      → IsCounted ts num flag
      → IsCounted rest num flag
  IsCounted-take_task ts rest h v = ground (arith, done_count-take_task h)

  -- The counter and the flag after `NotifyComplete`.
  pub IsCounted-complete :
      (i : ℕ) (t : Task A) (ts : List (Task A)) {num : ℕ} {flag : Bool}
      → get_elem? ts i ≡ some t
      → IsCounted ts num flag
      → let n = bump num (complete i t ts).1 in
        IsCounted (complete i t ts).0 n (if eqb n (length ts) then true else flag)
        × (length (complete i t ts).0 ≡ length ts)
  unfolding complete bump
  IsCounted-complete i t ts e v =
      let t' : Task A = record t { status = success } in
      ground (
        arith,
        done_count-set ts i t' e,
        length-set ts i t',
        done_count-le-length (set ts i t'),
        done_count-le-length ts,
        get_elem?-lt ts i e,
      )

-- To show something of what the two loops of `AssignTask` answer: the table has no available task,
-- or one was taken.
module _ {ℓ} (P : Coordinator × CoordinatorReply → Type ℓ) (now : ℕ) (c : Coordinator)
    (r : CoordinatorReply) where
  pub assign_map_cases :
      (take_task now 0 c.map_tasks ≡ none → P (c, record r { task_type = wait }))
      → ((j : ℕ) (file : Str) (tasks : List MapTask)
          → IsTaken now 0 c.map_tasks j file tasks
          → P (
            record c { map_tasks = tasks },
            record r {
              work_id = j;
              input_files = r.input_files ++ file ∷ [];
              task_type = map_task;
            },
          ))
      → P (assign_map now c r)
  unfolding assign_map
  assign_map_cases idle taken = elim (Option-cases (take_task now 0 c.map_tasks)) [
    | inl e ↦ rw (e, assign_map) (idle e)
    | inr ((j, a, rest), e) ↦
        rw (e, assign_map) (taken j a rest (take_task-IsTaken now 0 c.map_tasks e))
  ]

  pub assign_reduce_cases :
      (take_task now 0 c.reduce_tasks ≡ none → P (c, record r { task_type = wait }))
      → ((j : ℕ) (files : List Str) (tasks : List ReduceTask)
          → IsTaken now 0 c.reduce_tasks j files tasks
          → P (
            record c { reduce_tasks = tasks },
            record r { input_files = files; task_type = reduce_task; work_id = j },
          ))
      → P (assign_reduce now c r)
  unfolding assign_reduce
  assign_reduce_cases idle taken = elim (Option-cases (take_task now 0 c.reduce_tasks)) [
    | inl e ↦ rw (e, assign_reduce) (idle e)
    | inr ((j, a, rest), e) ↦
        rw (e, assign_reduce) (taken j a rest (take_task-IsTaken now 0 c.reduce_tasks e))
  ]

-- Why `AssignTask` gives out no task.
abbrev pub IsIdle : ℕ → Coordinator → Type 0
IsIdle now c =
    ((c.map_tasks_done ≡ false) × (take_task now 0 c.map_tasks ≡ none))
    ⊎ ((c.map_tasks_done ≡ true)
        × (c.reduce_tasks_done ≡ false)
        × (take_task now 0 c.reduce_tasks ≡ none))
    ⊎ ((c.map_tasks_done ≡ true) × (c.reduce_tasks_done ≡ true))

-- The same for `AssignTask` as a whole.
pub assign_task_cases {ℓ} :
    (P : Coordinator × CoordinatorReply → Type ℓ) (now : ℕ) (c : Coordinator) (r : CoordinatorReply)
    → ((k : TaskType)
        → (k ≡ wait) ⊎ (k ≡ exit)
        → IsIdle now c
        → P (c, record r { n_reduce = c.n_reduce; task_type = k }))
    → ((j : ℕ) (file : Str) (tasks : List MapTask)
        → c.map_tasks_done ≡ false
        → IsTaken now 0 c.map_tasks j file tasks
        → P (
          record c { map_tasks = tasks },
          record r {
            n_reduce = c.n_reduce;
            work_id = j;
            input_files = r.input_files ++ file ∷ [];
            task_type = map_task;
          },
        ))
    → ((j : ℕ) (files : List Str) (tasks : List ReduceTask)
        → c.map_tasks_done ≡ true
        → c.reduce_tasks_done ≡ false
        → IsTaken now 0 c.reduce_tasks j files tasks
        → P (
          record c { reduce_tasks = tasks },
          record r {
            n_reduce = c.n_reduce;
            input_files = files;
            task_type = reduce_task;
            work_id = j;
          },
        ))
    → P (assign_task now c r)
unfolding assign_task
assign_task_cases P now c r idle on_map on_reduce =
    let r' = record r { n_reduce = c.n_reduce } in
    if_cases P (not c.map_tasks_done) _ _
      (λ left.
        assign_map_cases P now c r' (λ e. idle wait (inl refl) (inl (ground arith, e)))
          (λ j file tasks h. on_map j file tasks (ground arith) h))
      λ over.
        if_cases P (not c.reduce_tasks_done) _ _
          (λ left.
            assign_reduce_cases P now c r'
              (λ e. idle wait (inl refl) (inr (inl (ground arith, ground arith, e))))
              (λ j files tasks h. on_reduce j files tasks (ground arith) (ground arith) h))
          λ done.
            let both : IsIdle now c = inr (inr (ground arith, ground arith)) in
            if_cases P c.all_done _ _ (λ _. idle exit (inr refl) both)
              (λ _. idle wait (inl refl) both)

assign_map-Inv :
    (now : ℕ) (c : Coordinator) (r : CoordinatorReply) → Inv c → Inv (assign_map now c r).0
assign_map-Inv now c r v =
    assign_map_cases (λ p. Inv p.0) now c r (λ _. v)
      λ j file tasks h. record {
        map_phase = IsCounted-take_task c.map_tasks tasks h v.map_phase;
        reduce_phase = v.reduce_phase;
        reduce_size = v.reduce_size;
        all = v.all;
      }

assign_reduce-Inv :
    (now : ℕ) (c : Coordinator) (r : CoordinatorReply) → Inv c → Inv (assign_reduce now c r).0
assign_reduce-Inv now c r v =
    assign_reduce_cases (λ p. Inv p.0) now c r (λ _. v)
      λ j files tasks h. record {
        map_phase = v.map_phase;
        reduce_phase = IsCounted-take_task c.reduce_tasks tasks h v.reduce_phase;
        reduce_size = (done_count-take_task h).1 ∙ v.reduce_size;
        all = v.all;
      }

-- Whatever is asked and whenever, AssignTask keeps the bookkeeping.
pub assign_task-Inv :
    (now : ℕ) (c : Coordinator) (r : CoordinatorReply) → Inv c → Inv (assign_task now c r).0
unfolding assign_task
assign_task-Inv now c r v =
    let r' = record r { n_reduce = c.n_reduce } in
    ground (arith, assign_map-Inv now c r' v, assign_reduce-Inv now c r' v)

complete_map-Inv :
    (i : ℕ) (t : MapTask) (c : Coordinator)
    → get_elem? c.map_tasks i ≡ some t
    → Inv c
    → Inv (complete_map i t c)
unfolding complete_map
complete_map-Inv i t c e v =
    let (phase, size) = IsCounted-complete i t c.map_tasks e v.map_phase in
    record {
      map_phase = rw size phase;
      reduce_phase = v.reduce_phase;
      reduce_size = v.reduce_size;
      all = v.all;
    }

complete_reduce-Inv :
    (i : ℕ) (t : ReduceTask) (c : Coordinator)
    → get_elem? c.reduce_tasks i ≡ some t
    → Inv c
    → Inv (complete_reduce i t c)
unfolding complete_reduce
complete_reduce-Inv i t c e v =
    let (phase, size) = IsCounted-complete i t c.reduce_tasks e v.reduce_phase in
    record {
      map_phase = v.map_phase;
      reduce_phase = rw (← v.reduce_size) phase;
      reduce_size = size ∙ v.reduce_size;
      all = ground (arith, v.all);
    }

-- To show something of the state after `NotifyComplete`.
pub notify_as_cases {ℓ} :
    (P : Coordinator → Type ℓ) (k : TaskType) (i : ℕ) (c : Coordinator)
    → ((t : MapTask) → k ≡ map_task → get_elem? c.map_tasks i ≡ some t → P (complete_map i t c))
    → ((t : ReduceTask)
        → k ≡ reduce_task
        → get_elem? c.reduce_tasks i ≡ some t
        → P (complete_reduce i t c))
    → P c
    → (c' : Coordinator) → notify_as k i c ≡ ok c'
    → P c'
unfolding notify_as
notify_as_cases P map_task i c on_map on_reduce same c' e =
    elim (Option-cases (get_elem? c.map_tasks i)) [
      | inl missing ↦ ground arith
      | inr (t, found) ↦
          let q : complete_map i t c ≡ c' = ground arith in subst P q (on_map t refl found)
    ]
notify_as_cases P reduce_task i c on_map on_reduce same c' e =
    elim (Option-cases (get_elem? c.reduce_tasks i)) [
      | inl missing ↦ ground arith
      | inr (t, found) ↦
          let q : complete_reduce i t c ≡ c' = ground arith in subst P q (on_reduce t refl found)
    ]
notify_as_cases P exit i c on_map on_reduce same c' e =
    let q : c ≡ c' = ground arith in subst P q same
notify_as_cases P wait i c on_map on_reduce same c' e =
    let q : c ≡ c' = ground arith in subst P q same

-- So does NotifyComplete, for any arguments that do not end the coordinator.
pub notify_complete-Inv :
    (args : WorkerArgs) (c c' : Coordinator) → notify_complete args c ≡ ok c' → Inv c → Inv c'
unfolding notify_complete
notify_complete-Inv args c c' e v =
    notify_as_cases Inv args.task_type args.work_id c
      (λ t _ found. complete_map-Inv args.work_id t c found v)
      (λ t _ found. complete_reduce-Inv args.work_id t c found v) v c' e

pub done_count-make_map_tasks :
    (i : ℕ) (files : List Str)
    → (done_count (make_map_tasks i files) ≡ 0) × (length (make_map_tasks i files) ≡ length files)
unfolding done_count make_map_tasks
done_count-make_map_tasks i [] = (refl, refl)
done_count-make_map_tasks i (f ∷ fs) = ground (arith, done_count-make_map_tasks (suc i) fs)

pub done_count-make_reduce_tasks :
    (m i n : ℕ)
    → (done_count (make_reduce_tasks m i n) ≡ 0) × (length (make_reduce_tasks m i n) ≡ n)
unfolding done_count make_reduce_tasks
done_count-make_reduce_tasks m i zero = (refl, refl)
done_count-make_reduce_tasks m i (suc n) = ground (arith, done_count-make_reduce_tasks m (suc i) n)

pub make_coordinator-Inv : (files : List Str) (n : ℕ) → Inv (make_coordinator files n)
unfolding make_coordinator
make_coordinator-Inv files n =
    ground
      (arith, done_count-make_map_tasks 0 files, done_count-make_reduce_tasks (length files) 0 n)
