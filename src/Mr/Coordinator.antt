-- ===== src/Mr/Coordinator.antt =====
-- mr/coordinator.go: the task tables and the two RPC handlers. A handler runs under the mutex,
-- so it is one function from the state to the next; `now` is the clock that it reads, in
-- nanoseconds. `log.Fatalf` ends the process and is the result `fatal`.
pub mod Tables
pub mod Invariant
pub mod System
pub mod Lease
pub mod Replies
pub mod Progress
pub mod Finish
mod Samples
use distributed_system.Prelude.{
  ℕ, zero, suc, ◌+◌, ◌-◌, ◌*◌, ◌^◌, Bool, true, false, not, ◌&&◌, ◌||◌, Option, none, some, List,
  [], ◌∷◌, ◌++◌, length, get_elem?, set, ltb, eqb, if◌then◌else◌, Str, bytes,
}
use distributed_system.Prelude.Decimal.{itoa}
use distributed_system.Mr.Rpc.{
  TaskType, map_task, reduce_task, exit, wait, TaskStatus, success, todo, assigned, is_success,
  is_todo, is_assigned, WorkerArgs, CoordinatorReply,
}

-- `mapTask` and `reduceTask` differ in what a worker is given: a file name, or the names of all
-- intermediate files of a partition.
pub record Task (A : Type 0) : Type 0 where
  pub task_id : ℕ
  pub input : A
  pub status : TaskStatus
  pub time_stamp : ℕ

abbrev pub MapTask : Type 0
MapTask = Task Str

abbrev pub ReduceTask : Type 0
ReduceTask = Task (List Str)

pub record Coordinator : Type 0 where
  pub n_reduce : ℕ
  pub map_tasks : List MapTask
  pub reduce_tasks : List ReduceTask
  pub input_files : List Str
  pub map_tasks_done : Bool
  pub map_task_done_num : ℕ
  pub reduce_task_done_num : ℕ
  pub reduce_tasks_done : Bool
  pub all_done : Bool

pub data Outcome (A : Type 0) : Type 0 where
  ok : A → Outcome A
  fatal : Outcome A

-- `10*time.Second`
abbrev pub ten_seconds : ℕ
ten_seconds = 10 * 10 ^ 9

module _ {A : Type 0} where
  -- The test of the assignment loops: not started, or assigned too long ago.
  unfoldable pub available : ℕ → Task A → Bool
  available now t =
      is_todo t.status || (is_assigned t.status && ltb ten_seconds (now - t.time_stamp))

  unfoldable pub assign : ℕ → Task A → Task A
  assign now t = record t { status = assigned; time_stamp = now }

  abbrev keep_task : Task A → Option (ℕ × A × List (Task A)) → Option (ℕ × A × List (Task A))
  keep_task t none = none
  keep_task t (some (j, a, rest)) = some (j, a, t ∷ rest)

  -- The assignment loop from index `i` on: the index and input of the first available task, and
  -- the table in which it is assigned.
  unfoldable pub take_task : ℕ → ℕ → List (Task A) → Option (ℕ × A × List (Task A))
  take_task now i [] = none
  take_task now i (t ∷ ts) =
      if available now t
      then some (i, t.input, assign now t ∷ ts)
      else keep_task t (take_task now (suc i) ts)

  -- The test and write of `NotifyComplete`: the table, and whether the task is newly completed.
  unfoldable pub complete : ℕ → Task A → List (Task A) → List (Task A) × Bool
  complete i t ts =
      if is_success t.status then (ts, false) else (set ts i (record t { status = success }), true)

unfoldable pub assign_map : ℕ → Coordinator → CoordinatorReply → Coordinator × CoordinatorReply
assign_map now c reply = elim (take_task now 0 c.map_tasks) [
  | some (i, file, tasks) ↦ (
    record c { map_tasks = tasks },
    record reply {
      work_id = i;
      input_files = reply.input_files ++ file ∷ [];
      task_type = map_task;
    },
  )
  | none ↦ (c, record reply { task_type = wait })
]

unfoldable pub assign_reduce : ℕ → Coordinator → CoordinatorReply → Coordinator × CoordinatorReply
assign_reduce now c reply = elim (take_task now 0 c.reduce_tasks) [
  | some (i, files, tasks) ↦ (
    record c { reduce_tasks = tasks },
    record reply { input_files = files; task_type = reduce_task; work_id = i },
  )
  | none ↦ (c, record reply { task_type = wait })
]

-- `AssignTask` fills in the reply that it is given.
unfoldable pub assign_task : ℕ → Coordinator → CoordinatorReply → Coordinator × CoordinatorReply
assign_task now c r =
    let reply = record r { n_reduce = c.n_reduce } in
    if not c.map_tasks_done
    then assign_map now c reply
    else if not c.reduce_tasks_done
    then assign_reduce now c reply
    else if c.all_done
    then (c, record reply { task_type = exit })
    else (c, record reply { task_type = wait })

unfoldable pub bump : ℕ → Bool → ℕ
bump n fresh = if fresh then n + 1 else n

unfoldable pub complete_map : ℕ → MapTask → Coordinator → Coordinator
unfolding bump
complete_map i t c =
    let (tasks, fresh) = complete i t c.map_tasks in
    let n = bump c.map_task_done_num fresh in
    record c {
      map_tasks = tasks;
      map_task_done_num = n;
      map_tasks_done = if eqb n (length tasks) then true else c.map_tasks_done;
    }

unfoldable pub complete_reduce : ℕ → ReduceTask → Coordinator → Coordinator
unfolding bump
complete_reduce i t c =
    let (tasks, fresh) = complete i t c.reduce_tasks in
    let n = bump c.reduce_task_done_num fresh in
    record c {
      reduce_tasks = tasks;
      reduce_task_done_num = n;
      reduce_tasks_done = if eqb n c.n_reduce then true else c.reduce_tasks_done;
      all_done = if eqb n c.n_reduce then true else c.all_done;
    }

-- The `switch` of `NotifyComplete`. A work id out of range ends the coordinator.
unfoldable pub notify_as : TaskType → ℕ → Coordinator → Outcome Coordinator
notify_as map_task i c = elim (get_elem? c.map_tasks i) [
  | none ↦ fatal
  | some t ↦ ok (complete_map i t c)
]
notify_as reduce_task i c = elim (get_elem? c.reduce_tasks i) [
  | none ↦ fatal
  | some t ↦ ok (complete_reduce i t c)
]
notify_as _ i c = ok c

unfoldable pub notify_complete : WorkerArgs → Coordinator → Outcome Coordinator
unfolding notify_as
notify_complete args c = notify_as args.task_type args.work_id c

unfoldable pub done : Coordinator → Bool
done c = c.all_done

-- `fmt.Sprintf("mr-%d-%d", j, i)`
unfoldable pub intermediate_name : ℕ → ℕ → Str
intermediate_name j i = bytes "mr-" ++ (itoa j ++ (b'-' ∷ itoa i))

-- The loops of `MakeCoordinator`, which count up: the entries from index `i` on.
unfoldable pub make_map_tasks : ℕ → List Str → List MapTask
make_map_tasks i [] = []
make_map_tasks i (f ∷ fs) =
    record { task_id = i; input = f; status = todo; time_stamp = 0 } ∷ make_map_tasks (suc i) fs

unfoldable pub intermediate_names : ℕ → ℕ → ℕ → List Str
intermediate_names i j zero = []
intermediate_names i j (suc left) = intermediate_name j i ∷ intermediate_names i (suc j) left

unfoldable pub make_reduce_tasks : ℕ → ℕ → ℕ → List ReduceTask
make_reduce_tasks file_n i zero = []
make_reduce_tasks file_n i (suc left) =
    record { task_id = i; input = intermediate_names i 0 file_n; status = todo; time_stamp = 0 }
    ∷ make_reduce_tasks file_n (suc i) left

unfoldable pub make_coordinator : List Str → ℕ → Coordinator
make_coordinator files n = record {
  n_reduce = n;
  map_tasks = make_map_tasks 0 files;
  reduce_tasks = make_reduce_tasks (length files) 0 n;
  input_files = files;
  map_tasks_done = false;
  map_task_done_num = 0;
  reduce_task_done_num = 0;
  reduce_tasks_done = false;
  all_done = false;
}
