-- ===== src/Mr/Coordinator/Samples.antt =====
-- A small job of mr/coordinator.go: two input files and one reduce task.
use distributed_system.Prelude.{
  ℕ, ◌+◌, ◌*◌, ◌≡◌, ◌≢◌, refl, inl, true, false, List, [], ◌∷◌, arith, Str, bytes,
}
use distributed_system.Prelude.Decimal.{itoa}
use distributed_system.Mr.Rpc.{reduce_task, CoordinatorReply, empty_reply}
use distributed_system.Mr.Coordinator.System.{
  System, asks, reports, Reach, here, next, start, after_assign, success_args, IsSafe, AllSuccess,
  Reach-start-IsSafe, Reach-done, Reach-never-done, Reach-ne-fatal,
}
use distributed_system.Mr.Coordinator.Lease.{Later, assign_task_exclusive}
use distributed_system.Mr.Coordinator.Replies.{notify_complete_idempotent}
use distributed_system.Mr.Coordinator.Progress.{serve, serve_all, settle}
use distributed_system.Mr.Coordinator.Finish.{serve_all-finishes}
use distributed_system.Mr.Coordinator.{
  ok, fatal, available, assign, take_task, complete, complete_map, complete_reduce, assign_map,
  assign_reduce, assign_task, notify_complete, done, make_map_tasks, make_reduce_tasks,
  make_coordinator, intermediate_names, intermediate_name, ten_seconds,
}

program : Unit {0}
unfolding make_coordinator make_map_tasks make_reduce_tasks intermediate_names assign_task
    assign_map assign_reduce take_task available assign notify_complete success_args complete_map
    complete_reduce complete done serve serve_all
program = tt

abbrev files : List Str
files = bytes "a" ∷ bytes "b" ∷ []

-- Two workers took the two map tasks, and both crashed.
abbrev crashed : System
crashed = after_assign 1 (after_assign 0 (start files 1))

abbrev crashed_reach : Reach (start files 1) crashed
crashed_reach = next (next here (asks _ 0)) (asks _ 1)

abbrev limit : ℕ
limit = 2 * ten_seconds

abbrev times : List ℕ
times = limit ∷ limit ∷ (limit + 5) ∷ []

serve_all-finishes_example : done (serve_all times crashed.coordinator) ≡ true
unfolding program
serve_all-finishes_example =
    serve_all-finishes files 1 crashed limit times (omega arith) (omega arith) crashed_reach
      (omega arith) (omega arith) (omega arith) (omega arith)

Reach-start-IsSafe_example : IsSafe crashed
Reach-start-IsSafe_example = Reach-start-IsSafe files 1 crashed crashed_reach

assign_task_exclusive_example :
    (assign_task 1 (after_assign 0 (start files 1)).coordinator empty_reply).1.work_id
    ≢ (assign_task 0 (start files 1).coordinator empty_reply).1.work_id
unfolding program
assign_task_exclusive_example =
    assign_task_exclusive 0 1 (start files 1) (after_assign 0 (start files 1)) (inl refl)
      Later.start (omega arith) refl

-- One file, one worker: asks, reports, asks, reports.
abbrev one_file : List Str
one_file = bytes "a" ∷ []

abbrev first_ask : System
first_ask = after_assign 0 (start one_file 1)

abbrev first_reply : CoordinatorReply
first_reply = (assign_task 0 (start one_file 1).coordinator empty_reply).1

-- The state after the report of a reply.
abbrev after_report : CoordinatorReply → System → System
after_report r s = record s {
  coordinator = settle (notify_complete (success_args r) s.coordinator) s.coordinator;
}

abbrev mapped : System
mapped = after_report first_reply first_ask

abbrev second_ask : System
second_ask = after_assign 5 mapped

abbrev second_reply : CoordinatorReply
second_reply = (assign_task 5 mapped.coordinator empty_reply).1

abbrev finished : System
finished = after_report second_reply second_ask

finished_reach : Reach (start one_file 1) finished
unfolding program
finished_reach =
    next
      (next
        (next (next here (asks _ 0)) (reports first_ask 0 first_reply mapped.coordinator refl refl))
        (asks mapped 5))
      (reports second_ask 0 second_reply finished.coordinator refl refl)

second_reply_test :
    (second_reply.task_type ≡ reduce_task)
    × (second_reply.input_files ≡ bytes "mr-0-0" ∷ [])
    × (second_reply.n_reduce ≡ 1)
unfolding program intermediate_name itoa
second_reply_test = (refl, refl, refl)

done_test : done finished.coordinator ≡ true
unfolding program
done_test = refl

Reach-done_example :
    AllSuccess finished.coordinator.map_tasks × AllSuccess finished.coordinator.reduce_tasks
Reach-done_example = Reach-done one_file 1 finished finished_reach done_test

Reach-ne-fatal_example : notify_complete (success_args first_reply) first_ask.coordinator ≢ fatal
unfolding program
Reach-ne-fatal_example =
    Reach-ne-fatal one_file 1 first_ask 0 first_reply (next here (asks _ 0)) refl

-- No input file: the first worker waits, and so does every other.
Reach-never-done_example : done (after_assign 0 (start [] 3)).coordinator ≡ false
Reach-never-done_example =
    Reach-never-done [] 3 (after_assign 0 (start [] 3)) (inl refl) (next here (asks _ 0))

notify_complete_idempotent_example :
    notify_complete (success_args first_reply) mapped.coordinator ≡ ok mapped.coordinator
unfolding program
notify_complete_idempotent_example =
    notify_complete_idempotent (success_args first_reply) first_ask.coordinator mapped.coordinator
      refl
