-- ===== src/Mr/Coordinator/System.antt =====
-- The coordinator among its workers (mr/coordinator.go with the calls of mr/worker.go). A worker
-- may ask for a task at any time, may crash, and may report a task late or more than once: it
-- only ever reports a reply that it was given.
use distributed_system.Prelude.{
  ℕ, ◌<◌, ◌≡◌, refl, ◌⊎◌, inl, inr, true, false, some, List, [], ◌∷◌, arith, length, get_elem?,
  Bool-cases, length-set, get_elem?-lt, get_elem?-some, All, All-imp, All-get_elem?, Str, ◌≢◌, ◌∙◌,
  ap,
}
use distributed_system.Mr.Rpc.{
  TaskType, map_task, reduce_task, exit, wait, success, WorkerArgs, CoordinatorReply, empty_reply,
}
use distributed_system.Mr.Coordinator.Tables.{done_count, done_count-le-length, IsTaken}
use distributed_system.Mr.Coordinator.Invariant.{
  Inv, assign_map_cases, assign_reduce_cases, notify_as_cases, assign_task-Inv, notify_complete-Inv,
  make_coordinator-Inv, done_count-take_task, done_count-make_map_tasks,
  done_count-make_reduce_tasks,
}
use distributed_system.Mr.Coordinator.{
  Task, Coordinator, ok, fatal, complete, complete_map, complete_reduce, assign_map, assign_reduce,
  assign_task, notify_as, notify_complete, done, make_coordinator,
}

-- The arguments that `NotifyComplete` of mr/worker.go sends for a reply.
unfoldable pub success_args : CoordinatorReply → WorkerArgs
success_args r = record { work_id = r.work_id; task_status = success; task_type = r.task_type }

-- The coordinator, and every reply that it gave out so far.
pub record System : Type 0 where
  pub coordinator : Coordinator
  pub issued : List CoordinatorReply

abbrev pub after_assign : ℕ → System → System
after_assign now s =
    let (c, r) = assign_task now s.coordinator empty_reply in
    record { coordinator = c; issued = r ∷ s.issued }

pub data Step : System → System → Type 0 where
  asks : (s : System) (now : ℕ) → Step s (after_assign now s)
  reports :
      (s : System) (k : ℕ) (r : CoordinatorReply) (c' : Coordinator)
      → get_elem? s.issued k ≡ some r
      → notify_complete (success_args r) s.coordinator ≡ ok c'
      → Step s (record s { coordinator = c' })

pub data Reach (s : System) : System → Type 0 where
  here : Reach s s
  next : {t u : System} → Reach s t → Step t u → Reach s u

abbrev pub start : List Str → ℕ → System
start files n = record { coordinator = make_coordinator files n; issued = [] }

-- What a reply says of the coordinator that gave it: the work id is in range, and the map phase is
-- over when it is a reduce task.
pub record IsIssued (c : Coordinator) (r : CoordinatorReply) : Type 0 where
  pub map_range : r.task_type ≡ map_task → r.work_id < length c.map_tasks
  pub reduce_range : r.task_type ≡ reduce_task → r.work_id < length c.reduce_tasks
  pub after_map : r.task_type ≡ reduce_task → c.map_tasks_done ≡ true

-- A later coordinator has the same tables and never takes the map flag down.
pub record Extends (c c' : Coordinator) : Type 0 where
  pub map_size : length c'.map_tasks ≡ length c.map_tasks
  pub reduce_size : length c'.reduce_tasks ≡ length c.reduce_tasks
  pub map_stays : c.map_tasks_done ≡ true → c'.map_tasks_done ≡ true

IsIssued-Extends :
    (c c' : Coordinator) (rs : List CoordinatorReply)
    → Extends c c'
    → All (IsIssued c) rs
    → All (IsIssued c') rs
IsIssued-Extends c c' rs x =
    All-imp
      (λ r h. record {
        map_range = λ e. omega (arith, x.map_size, h.map_range e);
        reduce_range = λ e. omega (arith, x.reduce_size, h.reduce_range e);
        after_map = λ e. x.map_stays (h.after_map e);
      })
      rs

pub record IsSafe (s : System) : Type 0 where
  pub inv : Inv s.coordinator
  pub issued_ok : All (IsIssued s.coordinator) s.issued
  -- No reduce task is completed before the map phase is over.
  pub staged : 0 < done_count s.coordinator.reduce_tasks → s.coordinator.map_tasks_done ≡ true

record Gives (c : Coordinator) (p : Coordinator × CoordinatorReply) : Type 0 where
  grown : Extends c p.0
  valid : IsIssued p.0 p.1
  same_count : done_count p.0.reduce_tasks ≡ done_count c.reduce_tasks

taken_lt :
    {A : Type 0} {now : ℕ} {ts : List (Task A)} {j : ℕ} {a : A} {rest : List (Task A)}
    → IsTaken now 0 ts j a rest
    → j < length ts
taken_lt {ts} h = omega (arith, h.index, get_elem?-lt ts h.k h.found)

assign_map-Gives : (now : ℕ) (c : Coordinator) (r : CoordinatorReply) → Gives c (assign_map now c r)
assign_map-Gives now c r =
    assign_map_cases (Gives c) now c r (λ _. ground arith)
      (λ j file tasks h. ground (arith, done_count-take_task h, taken_lt h))

assign_reduce-Gives :
    (now : ℕ) (c : Coordinator) (r : CoordinatorReply)
    → c.map_tasks_done ≡ true
    → Gives c (assign_reduce now c r)
assign_reduce-Gives now c r over =
    assign_reduce_cases (Gives c) now c r (λ _. ground arith)
      (λ j files tasks h. ground (arith, done_count-take_task h, taken_lt h))

assign_task-Gives :
    (now : ℕ) (c : Coordinator) (r : CoordinatorReply) → Gives c (assign_task now c r)
unfolding assign_task
assign_task-Gives now c r =
    let r' = record r { n_reduce = c.n_reduce } in
    ground (arith, assign_map-Gives now c r', assign_reduce-Gives now c r')

complete_map-Extends : (i : ℕ) (t : Task Str) (c : Coordinator) → Extends c (complete_map i t c)
unfolding complete_map complete
complete_map-Extends i t c =
    ground (arith, length-set c.map_tasks i (record t { status = success }))

complete_reduce-Extends :
    (i : ℕ) (t : Task (List Str)) (c : Coordinator) → Extends c (complete_reduce i t c)
unfolding complete_reduce complete
complete_reduce-Extends i t c =
    ground (arith, length-set c.reduce_tasks i (record t { status = success }))

record Reported (r : CoordinatorReply) (c c' : Coordinator) : Type 0 where
  grown : Extends c c'
  counts : (done_count c'.reduce_tasks ≡ done_count c.reduce_tasks) ⊎ (r.task_type ≡ reduce_task)

notify_complete-Reported :
    (r : CoordinatorReply) (c c' : Coordinator)
    → notify_complete (success_args r) c ≡ ok c'
    → Reported r c c'
unfolding notify_complete success_args complete_map
notify_complete-Reported r c c' e =
    notify_as_cases (Reported r c) r.task_type r.work_id c
      (λ t _ _. record { grown = complete_map-Extends r.work_id t c; counts = inl refl })
      (λ t k _. record { grown = complete_reduce-Extends r.work_id t c; counts = inr k })
      (record { grown = ground arith; counts = inl refl }) c' e

Step-IsSafe : {s t : System} → Step s t → IsSafe s → IsSafe t
Step-IsSafe (asks s now) v =
    let g = assign_task-Gives now s.coordinator empty_reply in
    record {
      inv = assign_task-Inv now s.coordinator empty_reply v.inv;
      issued_ok = (
        g.valid,
        IsIssued-Extends s.coordinator (assign_task now s.coordinator empty_reply).0 s.issued
            g.grown v.issued_ok,
      );
      staged = λ h. g.grown.map_stays (v.staged (omega (arith, g.same_count)));
    }
Step-IsSafe (reports s k r c' listed e) v =
    let g = notify_complete-Reported r s.coordinator c' e in
    let w = All-get_elem? (IsIssued s.coordinator) s.issued k v.issued_ok listed in
    record {
      inv = notify_complete-Inv (success_args r) s.coordinator c' e v.inv;
      issued_ok = IsIssued-Extends s.coordinator c' s.issued g.grown v.issued_ok;
      staged = λ h. elim g.counts [
        | inl same ↦ g.grown.map_stays (v.staged (omega (arith, same)))
        | inr k ↦ g.grown.map_stays (w.after_map k)
      ];
    }

Reach-IsSafe : {s t : System} → IsSafe s → Reach s t → IsSafe t
Reach-IsSafe v here = v
Reach-IsSafe v (next r st) = Step-IsSafe st (Reach-IsSafe v r)

notify_as-ne-fatal :
    (k : TaskType) (i : ℕ) (c : Coordinator)
    → (k ≡ map_task → i < length c.map_tasks)
    → (k ≡ reduce_task → i < length c.reduce_tasks)
    → notify_as k i c ≢ fatal
unfolding notify_as
notify_as-ne-fatal map_task i c m r =
    let (t, e) = get_elem?-some c.map_tasks i (m refl) in ground arith
notify_as-ne-fatal reduce_task i c m r =
    let (t, e) = get_elem?-some c.reduce_tasks i (r refl) in ground arith
notify_as-ne-fatal exit i c m r = ground arith
notify_as-ne-fatal wait i c m r = ground arith

start-IsSafe : (files : List Str) (n : ℕ) → IsSafe (start files n)
unfolding make_coordinator
start-IsSafe files n = record {
  inv = make_coordinator-Inv files n;
  issued_ok = tt;
  staged = λ h. absurd (omega (arith, (done_count-make_reduce_tasks (length files) 0 n).0));
}

-- In every history from MakeCoordinator on, the counters count the completed tasks, each flag is
-- up only when all tasks of its phase are completed, each reply that was given out names a task
-- in range, a reduce task was given out only after the map phase, and no reduce task is completed
-- before the map phase is over.
pub Reach-start-IsSafe :
    (files : List Str) (n : ℕ) (s : System) → Reach (start files n) s → IsSafe s
Reach-start-IsSafe files n s r = Reach-IsSafe (start-IsSafe files n) r

abbrev pub AllSuccess : {A : Type 0} → List (Task A) → Type 0
AllSuccess ts = All (λ t. t.status ≡ success) ts

all_success : {A : Type 0} (ts : List (Task A)) → done_count ts ≡ length ts → AllSuccess ts
unfolding done_count
all_success [] e = tt
all_success (t ∷ ts) e =
    let below = done_count-le-length ts in (ground arith, all_success ts (ground arith))

-- When `Done` answers true after any history of a job, every map task and every reduce task is
-- completed.
pub Reach-done :
    (files : List Str) (n : ℕ) (s : System)
    → Reach (start files n) s
    → done s.coordinator ≡ true
    → AllSuccess s.coordinator.map_tasks × AllSuccess s.coordinator.reduce_tasks
unfolding done
Reach-done files n s r e =
    let v = Reach-start-IsSafe files n s r in
    let up : s.coordinator.reduce_tasks_done ≡ true = cc (v.inv.all) in
    let full = v.inv.reduce_phase.flag_up up in
    let some_done : 0 < done_count s.coordinator.reduce_tasks =
      omega (arith, full, v.inv.reduce_phase.flag_up_pos up) in
    (
      all_success s.coordinator.map_tasks (v.inv.map_phase.flag_up (v.staged some_done)),
      all_success s.coordinator.reduce_tasks full,
    )

Step-Extends : {s t : System} → Step s t → Extends s.coordinator t.coordinator
Step-Extends (asks s now) = (assign_task-Gives now s.coordinator empty_reply).grown
Step-Extends (reports s k r c' listed e) = (notify_complete-Reported r s.coordinator c' e).grown

pub Reach-Extends : {s t : System} → Reach s t → Extends s.coordinator t.coordinator
Reach-Extends here = ground arith
Reach-Extends (next r st) =
    let before = Reach-Extends r in
    let last = Step-Extends st in
    record {
      map_size = last.map_size ∙ before.map_size;
      reduce_size = last.reduce_size ∙ before.reduce_size;
      map_stays = λ h. last.map_stays (before.map_stays h);
    }

-- A job with no input file, or with no reduce task, is never done: its workers wait for ever.
pub Reach-never-done :
    (files : List Str) (n : ℕ) (s : System)
    → (files ≡ []) ⊎ (n ≡ 0)
    → Reach (start files n) s
    → done s.coordinator ≡ false
unfolding done make_coordinator
Reach-never-done files n s empty r =
    let v = Reach-start-IsSafe files n s r in
    let x = Reach-Extends r in
    let m = (done_count-make_map_tasks 0 files).1 in
    let k = (done_count-make_reduce_tasks (length files) 0 n).1 in
    elim (Bool-cases s.coordinator.all_done) [
      | inr down ↦ down
      | inl e ↦
          let up : s.coordinator.reduce_tasks_done ≡ true = cc (v.inv.all) in
          let full = v.inv.reduce_phase.flag_up up in
          let pos = v.inv.reduce_phase.flag_up_pos up in
          let over = v.staged (omega (arith, full, pos)) in
          let pos' = v.inv.map_phase.flag_up_pos over in
          absurd (elim empty [
            | inl no_files ↦ omega (arith, x.map_size, m, pos', ap length no_files)
            | inr no_reduce ↦ omega (arith, x.reduce_size, k, pos, no_reduce)
          ])
    ]

-- A report of a reply that was given out never ends the coordinator.
pub Reach-ne-fatal :
    (files : List Str) (n : ℕ) (s : System) (k : ℕ) (r : CoordinatorReply)
    → Reach (start files n) s
    → get_elem? s.issued k ≡ some r
    → notify_complete (success_args r) s.coordinator ≢ fatal
unfolding notify_complete success_args
Reach-ne-fatal files n s k r h e =
    let v = Reach-start-IsSafe files n s h in
    let w = All-get_elem? (IsIssued s.coordinator) s.issued k v.issued_ok e in
    notify_as-ne-fatal r.task_type r.work_id s.coordinator w.map_range w.reduce_range
