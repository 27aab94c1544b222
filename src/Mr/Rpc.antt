-- ===== src/Mr/Rpc.antt =====
-- mr/rpc.go: the types that a worker and the coordinator exchange. The Go constants are
-- numbered from 0, so the zero value of a `TaskType` is `map_task`.
use distributed_system.Prelude.{ℕ, List, [], Str, Bool, true, false}

pub data TaskType : Type 0 where
  map_task reduce_task exit wait : TaskType

pub data TaskStatus : Type 0 where
  success fail ask_a_new_task todo assigned : TaskStatus

abbrev pub is_success : TaskStatus → Bool
is_success success = true
is_success _ = false

abbrev pub is_todo : TaskStatus → Bool
is_todo todo = true
is_todo _ = false

abbrev pub is_assigned : TaskStatus → Bool
is_assigned assigned = true
is_assigned _ = false

pub record WorkerArgs : Type 0 where
  pub task_status : TaskStatus
  pub work_id : ℕ
  pub task_type : TaskType

pub record CoordinatorReply : Type 0 where
  pub task_type : TaskType
  pub input_files : List Str
  pub n_reduce : ℕ
  pub work_id : ℕ

-- `CoordinatorReply{}`
abbrev pub empty_reply : CoordinatorReply
empty_reply = record { task_type = map_task; input_files = []; n_reduce = 0; work_id = 0 }
