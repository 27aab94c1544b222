-- ===== src/Mr/Coordinator/Progress.antt =====
-- Progress of a job (mr/coordinator.go with the loop of mr/worker.go): when the tasks of crashed
-- workers have timed out, one worker that goes on asking finishes the job.
use distributed_system.Prelude.{
  ℕ, suc, ◌+◌, ◌-◌, ◌≤◌, ◌<◌, ◌≡◌, refl, ◌∙◌, ap, ◌⊎◌, inl, inr, Bool, true, false, some, List, [],
  ◌∷◌, arith, length, get_elem?, Bool-cases, set-set, length-set, get_elem?-set_self, get_elem?-lt,
  if◌then◌else◌, if_cases, All, All-set, Str,
}
use distributed_system.Mr.Rpc.{
  TaskType, map_task, reduce_task, success, todo, assigned, CoordinatorReply, empty_reply,
}
use distributed_system.Mr.Coordinator.Tables.{
  done_count, done_count-le-length, done_count-set, IsTaken, take_task-none, available-ne-success,
}
use distributed_system.Mr.Coordinator.Invariant.{
  Inv, IsIdle, assign_task_cases, assign_task-Inv, notify_complete-Inv,
}
use distributed_system.Mr.Coordinator.System.{success_args}
use distributed_system.Mr.Coordinator.{
  Task, Coordinator, Outcome, ok, fatal, available, assign, complete, bump, complete_map,
  complete_reduce, assign_task, notify_as, notify_complete, ten_seconds, done,
}

abbrev is_task : TaskType → Bool
is_task map_task = true
is_task reduce_task = true
is_task _ = false

abbrev pub settle : Outcome Coordinator → Coordinator → Coordinator
settle (ok c') c = c'
settle fatal c = c

-- What a worker that does not crash reports for a reply: it is silent after `Wait` and `Exit`.
unfoldable pub report : CoordinatorReply → Coordinator → Coordinator
report r c = if is_task r.task_type then settle (notify_complete (success_args r) c) c else c

-- One pass of the loop of `Worker` as the coordinator sees it.
unfoldable pub serve : ℕ → Coordinator → Coordinator
unfolding report
serve now c = let (c', r) = assign_task now c empty_reply in report r c'

unfoldable pub serve_all : List ℕ → Coordinator → Coordinator
serve_all [] c = c
serve_all (now ∷ times) c = serve_all times (serve now c)

module _ {A : Type 0} (limit : ℕ) where
  -- A task that is completed, not started, or timed out from `limit` on.
  abbrev pub IsStale : Task A → Type 0
  IsStale t =
      (t.status ≡ success)
      ⊎ (t.status ≡ todo)
      ⊎ ((t.status ≡ assigned) × (t.time_stamp + ten_seconds < limit))

  done_count_of_idle :
      (now : ℕ) (ts : List (Task A))
      → limit ≤ now
      → All IsStale ts
      → All (λ t. available now t ≡ false) ts
      → done_count ts ≡ length ts
  unfolding done_count available
  done_count_of_idle now [] h s a = refl
  done_count_of_idle now (t ∷ ts) h s a = ground (arith, done_count_of_idle now ts h s.1 a.1)

  -- A task that was taken and is then reported.
  record Finishes (now j : ℕ) (ts rest : List (Task A)) (t : Task A) : Type 0 where
    found : get_elem? rest j ≡ some t
    fresh : (complete j t rest).1 ≡ true
    size : length (complete j t rest).0 ≡ length ts
    count : done_count (complete j t rest).0 ≡ suc (done_count ts)
    stale : All IsStale (complete j t rest).0

  taken-Finishes :
      {now j : ℕ} (ts : List (Task A)) {a : A} (rest : List (Task A))
      → All IsStale ts
      → (h : IsTaken now 0 ts j a rest) → Finishes now j ts rest (assign now h.t)
  unfolding complete assign
  taken-Finishes {now} {j} ts rest s h =
      let place : j ≡ h.k = omega (arith, h.index) in
      let t' : Task A = record h.t { status = success; time_stamp = now } in
      let twice = set-set ts h.k (assign now h.t) t' in
      let old = available-ne-success now h.t h.was_available in
      rw (h.table, place)
        (record {
          found = get_elem?-set_self ts h.k (assign now h.t) (get_elem?-lt ts h.k h.found);
          fresh = refl;
          size = ap length twice ∙ length-set ts h.k t';
          count = ground (arith, twice, done_count-set ts h.k t' h.found, old);
          stale = rw twice (All-set IsStale ts h.k t' s (inl refl));
        })

-- The tasks that are not completed.
abbrev pub pending : Coordinator → ℕ
pending c =
    (length c.map_tasks - done_count c.map_tasks)
    + (length c.reduce_tasks - done_count c.reduce_tasks)

module _ (limit : ℕ) where
  pub record IsReady (c : Coordinator) : Type 0 where
    pub map_some : 0 < length c.map_tasks
    pub reduce_some : 0 < length c.reduce_tasks
    pub staged : 0 < done_count c.reduce_tasks → c.map_tasks_done ≡ true
    pub map_stale : All (IsStale limit) c.map_tasks
    pub reduce_stale : All (IsStale limit) c.reduce_tasks

  record Served (c c' : Coordinator) : Type 0 where
    ready : IsReady c'
    fewer : suc (pending c') ≡ pending c

  serve_map :
      (now j : ℕ) (file : Str) (tasks : List (Task Str)) (c : Coordinator) (r : CoordinatorReply)
      → IsReady c
      → r.task_type ≡ map_task
      → r.work_id ≡ j
      → IsTaken now 0 c.map_tasks j file tasks
      → Served c (report r (record c { map_tasks = tasks }))
  unfolding report notify_complete success_args notify_as complete_map bump
  serve_map now j file tasks c r v e place h =
      let f = taken-Finishes limit c.map_tasks tasks v.map_stale h in
      let total = done_count-le-length (complete j (assign now h.t) tasks).0 in
      ground (arith, e, place, f)

  serve_reduce :
      (now j : ℕ) (files : List Str) (tasks : List (Task (List Str))) (c : Coordinator)
      (r : CoordinatorReply)
      → IsReady c
      → c.map_tasks_done ≡ true
      → r.task_type ≡ reduce_task
      → r.work_id ≡ j
      → IsTaken now 0 c.reduce_tasks j files tasks
      → Served c (report r (record c { reduce_tasks = tasks }))
  unfolding report notify_complete success_args notify_as complete_reduce bump
  serve_reduce now j files tasks c r v over e place h =
      let f = taken-Finishes limit c.reduce_tasks tasks v.reduce_stale h in
      let total = done_count-le-length (complete j (assign now h.t) tasks).0 in
      ground (arith, e, place, f)

  serve_lem :
      (now : ℕ) (c : Coordinator)
      → limit ≤ now
      → Inv c
      → IsReady c
      → c.all_done ≡ false
      → Served c (serve now c)
  unfolding serve
  serve_lem now c late inv v open_job =
      assign_task_cases (λ p. Served c (report p.1 p.0)) now c empty_reply
        (λ k _ idle. absurd (busy idle))
        (λ j file tasks _ h. serve_map now j file tasks c _ v refl refl h)
        (λ j files tasks over _ h. serve_reduce now j files tasks c _ v over refl refl h)
    where
      busy : ¬ IsIdle now c
      busy (inl (down, none_left)) =
          let all =
            done_count_of_idle limit now c.map_tasks late v.map_stale
              (take_task-none now 0 c.map_tasks none_left) in
          ground (arith, all, v.map_some, inv.map_phase.flag_down down)
      busy (inr (inl (over, down, none_left))) =
          let all =
            done_count_of_idle limit now c.reduce_tasks late v.reduce_stale
              (take_task-none now 0 c.reduce_tasks none_left) in
          ground (arith, all, v.reduce_some, inv.reduce_phase.flag_down down)
      busy (inr (inr (over, up))) = cc (inv.all)

  report-Inv : (r : CoordinatorReply) (c : Coordinator) → Inv c → Inv (report r c)
  unfolding report
  report-Inv r c v =
      if_cases Inv (is_task r.task_type) _ _
        (λ _.
          settle-Inv (notify_complete (success_args r) c)
            (λ c' e. notify_complete-Inv (success_args r) c c' e v))
        (λ _. v)
    where
      settle-Inv :
          (o : Outcome Coordinator) → ((c' : Coordinator) → o ≡ ok c' → Inv c') → Inv (settle o c)
      settle-Inv (ok c') h = h c' refl
      settle-Inv fatal h = v

  serve-Inv : (now : ℕ) (c : Coordinator) → Inv c → Inv (serve now c)
  unfolding serve
  serve-Inv now c v =
      report-Inv (assign_task now c empty_reply).1 _ (assign_task-Inv now c empty_reply v)

  -- A finished job stays finished.
  serve_done : (now : ℕ) (c : Coordinator) → Inv c → IsReady c → c.all_done ≡ true → serve now c ≡ c
  unfolding serve assign_task report
  serve_done now c inv v e =
      let up : c.reduce_tasks_done ≡ true = cc (inv.all) in
      let over = v.staged (omega (arith, v.reduce_some, inv.reduce_phase.flag_up up)) in
      ground (arith, over, up)

  pub serve_all-done :
      (times : List ℕ) (c : Coordinator)
      → All (λ now. limit ≤ now) times
      → Inv c
      → IsReady c
      → pending c ≤ length times
      → done (serve_all times c) ≡ true
  unfolding serve_all done
  serve_all-done [] c late inv v few =
      ground (arith, done_count-le-length c.reduce_tasks, inv.reduce_phase.flag_down, inv.all)
  serve_all-done (now ∷ times) c late inv v few = elim (Bool-cases c.all_done) [
    | inl e ↦ rw (serve_done now c inv v e) (
        serve_all-done times c late.1 inv v (
          ground (
            arith, inv.all, inv.reduce_phase.flag_up, inv.map_phase.flag_up, v.staged,
            v.reduce_some,
          )))
    | inr e ↦
        let s = serve_lem now c late.0 inv v e in
        serve_all-done times (serve now c) late.1 (serve-Inv now c inv) s.ready
          (omega (arith, s.fewer))
  ]
