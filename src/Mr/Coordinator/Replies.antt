-- ===== src/Mr/Coordinator/Replies.antt =====
-- What the handlers of mr/coordinator.go answer and write, call by call.
use distributed_system.Prelude.{
  ℕ, ◌≡◌, refl, inl, inr, false, some, List, arith, get_elem?, Option-cases, get_elem?-set_self,
  get_elem?-lt,
}
use distributed_system.Mr.Rpc.{TaskType, map_task, reduce_task, exit, wait, success, WorkerArgs}
use distributed_system.Mr.Coordinator.{
  Task, Coordinator, ok, complete, bump, complete_map, complete_reduce, notify_as, notify_complete,
}

module _ {A : Type 0} where
  -- The task reported last is completed, and a second report of it finds that.
  complete_again :
      (i : ℕ) (t : Task A) (ts : List (Task A))
      → get_elem? ts i ≡ some t
      → (t' : Task A) × (get_elem? (complete i t ts).0 i ≡ some t')
        × (complete i t' (complete i t ts).0 ≡ ((complete i t ts).0, false))
  unfolding complete
  complete_again i t ts e = (
    record t { status = success },
    ground (arith, e, get_elem?-set_self ts i (record t { status = success }), get_elem?-lt ts i e),
    ground (arith, e),
  )

notify_as_again :
    (k : TaskType) (i : ℕ) (c c' : Coordinator) → notify_as k i c ≡ ok c' → notify_as k i c' ≡ ok c'
unfolding notify_as complete_map complete_reduce bump
notify_as_again map_task i c c' e = elim (Option-cases (get_elem? c.map_tasks i)) [
  | inl missing ↦ absurd (ground arith)
  | inr (t, found) ↦
      let again = complete_again i t c.map_tasks found in ground (arith, again.1, again.2)
]
notify_as_again reduce_task i c c' e = elim (Option-cases (get_elem? c.reduce_tasks i)) [
  | inl missing ↦ absurd (ground arith)
  | inr (t, found) ↦
      let again = complete_again i t c.reduce_tasks found in ground (arith, again.1, again.2)
]
notify_as_again exit i c c' e = refl
notify_as_again wait i c c' e = refl

-- A report that is sent twice, as a network may do, counts once: the second changes nothing.
pub notify_complete_idempotent :
    (args : WorkerArgs) (c c' : Coordinator)
    → notify_complete args c ≡ ok c'
    → notify_complete args c' ≡ ok c'
unfolding notify_complete
notify_complete_idempotent args c c' e = notify_as_again args.task_type args.work_id c c' e
