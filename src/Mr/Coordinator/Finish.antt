-- ===== src/Mr/Coordinator/Finish.antt =====
-- The end of a job (mr/coordinator.go): from every state that the workers can bring about, one
-- surviving worker finishes the job.
use distributed_system.Prelude.{
  ℕ, zero, suc, ◌+◌, ◌≤◌, ◌<◌, ◌≡◌, refl, ◌⊎◌, inl, inr, List, [], ◌∷◌, arith, length, All, All-set,
  All-and, Str, Bool, true, if_cases,
}
use distributed_system.Mr.Rpc.{success, todo, assigned, is_success, empty_reply}
use distributed_system.Mr.Coordinator.Tables.{IsTaken}
use distributed_system.Mr.Coordinator.Invariant.{
  assign_task_cases, notify_as_cases, done_count-make_map_tasks, done_count-make_reduce_tasks,
}
use distributed_system.Mr.Coordinator.System.{
  System, Step, asks, reports, Reach, here, next, start, success_args, Reach-start-IsSafe,
  Reach-Extends,
}
use distributed_system.Mr.Coordinator.Progress.{IsStale, serve_all, serve_all-done}
use distributed_system.Mr.Coordinator.{
  Task, Coordinator, assign, complete, complete_map, complete_reduce, notify_complete,
  make_map_tasks, make_reduce_tasks, make_coordinator, ten_seconds, done,
}

abbrev IsLive : {A : Type 0} → Task A → Type 0
IsLive t = (t.status ≡ success) ⊎ (t.status ≡ todo) ⊎ (t.status ≡ assigned)

-- No task is ever in another state than these three.
record HasLive (c : Coordinator) : Type 0 where
  maps : All IsLive c.map_tasks
  reduces : All IsLive c.reduce_tasks

taken-IsLive :
    {A : Type 0} {now j : ℕ} (ts : List (Task A)) {a : A} {rest : List (Task A)}
    → IsTaken now 0 ts j a rest
    → All IsLive ts
    → All IsLive rest
unfolding assign
taken-IsLive {now = now} ts h v =
    rw h.table (All-set IsLive ts h.k (assign now h.t) v (inr (inr refl)))

complete-IsLive :
    {A : Type 0} (i : ℕ) (t : Task A) (ts : List (Task A))
    → All IsLive ts
    → All IsLive (complete i t ts).0
unfolding complete
complete-IsLive i t ts v =
    if_cases {A = List (Task _) × Bool} (λ p. All IsLive p.0) (is_success t.status) (ts, _) _
      (λ _. v) (λ _. All-set IsLive ts i (record t { status = success }) v (inl refl))

Step-HasLive : {s t : System} → Step s t → HasLive s.coordinator → HasLive t.coordinator
unfolding notify_complete success_args complete_map complete_reduce
Step-HasLive (asks s now) v =
    assign_task_cases (λ p. HasLive p.0) now s.coordinator empty_reply (λ _ _ _. v)
      (λ j file tasks _ h. record {
        maps = taken-IsLive s.coordinator.map_tasks h v.maps;
        reduces = v.reduces;
      })
      (λ j files tasks _ _ h. record {
        maps = v.maps;
        reduces = taken-IsLive s.coordinator.reduce_tasks h v.reduces;
      })
Step-HasLive (reports s k r c' listed e) v =
    notify_as_cases HasLive r.task_type r.work_id s.coordinator
      (λ t _ _. record {
        maps = complete-IsLive r.work_id t s.coordinator.map_tasks v.maps;
        reduces = v.reduces;
      })
      (λ t _ _. record {
        maps = v.maps;
        reduces = complete-IsLive r.work_id t s.coordinator.reduce_tasks v.reduces;
      })
      v c' e

map_tasks-IsLive : (i : ℕ) (files : List Str) → All IsLive (make_map_tasks i files)
unfolding make_map_tasks
map_tasks-IsLive i [] = tt
map_tasks-IsLive i (f ∷ fs) = (inr (inl refl), map_tasks-IsLive (suc i) fs)

reduce_tasks-IsLive : (m i n : ℕ) → All IsLive (make_reduce_tasks m i n)
unfolding make_reduce_tasks
reduce_tasks-IsLive m i zero = tt
reduce_tasks-IsLive m i (suc n) = (inr (inl refl), reduce_tasks-IsLive m (suc i) n)

Reach-HasLive :
    (files : List Str) (n : ℕ) {s : System} → Reach (start files n) s → HasLive s.coordinator
unfolding make_coordinator
Reach-HasLive files n here = record {
  maps = map_tasks-IsLive 0 files;
  reduces = reduce_tasks-IsLive (length files) 0 n;
}
Reach-HasLive files n (next r st) = Step-HasLive st (Reach-HasLive files n r)

-- Every task was last given out more than ten seconds before `limit`.
abbrev pub IsOld : {A : Type 0} → ℕ → List (Task A) → Type 0
IsOld limit ts = All (λ t. t.time_stamp + ten_seconds < limit) ts

old-IsStale :
    {A : Type 0} (limit : ℕ) (ts : List (Task A))
    → All IsLive ts
    → IsOld limit ts
    → All (IsStale limit) ts
old-IsStale limit = All-and λ t live old. ground arith

-- From every state that the workers can bring about in a job that has an input file and a reduce
-- task, whoever crashed: one worker that asks and reports finishes the job, once it asks as often
-- as there are tasks and more than ten seconds after the last assignment.
pub serve_all-finishes :
    (files : List Str) (n : ℕ) (s : System) (limit : ℕ) (times : List ℕ)
    → 0 < length files
    → 0 < n
    → Reach (start files n) s
    → IsOld limit s.coordinator.map_tasks
    → IsOld limit s.coordinator.reduce_tasks
    → All (λ now. limit ≤ now) times
    → length files + n ≤ length times
    → done (serve_all times s.coordinator) ≡ true
unfolding make_coordinator
serve_all-finishes files n s limit times some_file some_task r old_maps old_reduces late enough =
    let safe = Reach-start-IsSafe files n s r in
    let x = Reach-Extends r in
    let m = (done_count-make_map_tasks 0 files).1 in
    let k = (done_count-make_reduce_tasks (length files) 0 n).1 in
    let live = Reach-HasLive files n r in
    serve_all-done limit times s.coordinator late safe.inv
      (record {
        map_some = omega (arith, x.map_size, m);
        reduce_some = omega (arith, x.reduce_size, k);
        staged = safe.staged;
        map_stale = old-IsStale limit s.coordinator.map_tasks live.maps old_maps;
        reduce_stale = old-IsStale limit s.coordinator.reduce_tasks live.reduces old_reduces;
      })
      (omega (arith, x.map_size, m, x.reduce_size, k))
