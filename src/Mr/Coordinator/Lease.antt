-- ===== src/Mr/Coordinator/Lease.antt =====
-- A task that mr/coordinator.go gives out is leased for ten seconds: until then AssignTask gives
-- it to nobody else, whatever the other workers do in between.
use distributed_system.Prelude.{
  ℕ, ◌+◌, ◌≤◌, ◌<◌, ◌≡◌, refl, sym, subst, ◌∙◌, ◌⊎◌, inl, inr, some, List, arith, length, get_elem?,
  set, Bool-cases, get_elem?-set_self, get_elem?-set_ne, get_elem?-lt, eqb, eqb_iff, ◌≢◌, Str,
}
use distributed_system.Mr.Rpc.{
  TaskType, map_task, reduce_task, exit, wait, success, assigned, is_success, CoordinatorReply,
  empty_reply,
}
use distributed_system.Mr.Coordinator.Tables.{IsTaken}
use distributed_system.Mr.Coordinator.Invariant.{IsIdle, assign_task_cases, notify_as_cases}
use distributed_system.Mr.Coordinator.System.{System, after_assign, success_args}
use distributed_system.Mr.Coordinator.{
  Task, Coordinator, ok, available, assign, complete, complete_map, complete_reduce, assign_task,
  notify_complete, ten_seconds,
}

module _ {A : Type 0} (now j : ℕ) where
  -- Task `j` is completed, or was given out at `now` or later.
  pub record IsLeased (ts : List (Task A)) : Type 0 where
    pub t : Task A
    pub found : get_elem? ts j ≡ some t
    pub held : (t.status ≡ success) ⊎ ((t.status ≡ assigned) × (now ≤ t.time_stamp))

  taken-IsLeased :
      {now' : ℕ} (ts : List (Task A)) {a : A} {rest : List (Task A)}
      → now ≤ now'
      → IsTaken now' 0 ts j a rest
      → IsLeased rest
  unfolding assign
  taken-IsLeased {now'} ts later h = record {
    t = assign now' h.t;
    found =
        let place : j ≡ h.k = omega (arith, h.index) in
        rw (h.table, place)
          (get_elem?-set_self ts h.k (assign now' h.t) (get_elem?-lt ts h.k h.found));
    held = inr (refl, later);
  }

  IsLeased-set :
      (ts : List (Task A)) (i : ℕ) (t' : Task A)
      → i < length ts
      → (t'.status ≡ success) ⊎ ((t'.status ≡ assigned) × (now ≤ t'.time_stamp))
      → IsLeased ts
      → IsLeased (set ts i t')
  IsLeased-set ts i t' range h v = elim (Bool-cases (eqb i j)) [
    | inl same ↦ record {
      t = t';
      found = let e : i ≡ j = (eqb_iff i j).0 same in rw (← e) (get_elem?-set_self ts i t' range);
      held = h;
    }
    | inr other ↦ record {
      t = v.t;
      found = get_elem?-set_ne ts i j t' (ground arith) ∙ v.found;
      held = v.held;
    }
  ]

  IsLeased-take_task :
      {now' i : ℕ} (ts : List (Task A)) {a : A} (rest : List (Task A))
      → now ≤ now'
      → IsTaken now' 0 ts i a rest
      → IsLeased ts
      → IsLeased rest
  unfolding assign
  IsLeased-take_task {now'} ts rest later h v =
      rw h.table
        (IsLeased-set ts h.k (assign now' h.t) (get_elem?-lt ts h.k h.found) (inr (refl, later)) v)

  IsLeased-complete :
      (i : ℕ) (t : Task A) (ts : List (Task A))
      → get_elem? ts i ≡ some t
      → IsLeased ts
      → IsLeased (complete i t ts).0
  unfolding complete
  IsLeased-complete i t ts e v = elim (Bool-cases (is_success t.status)) [
    | inl old ↦ rw old v
    | inr new ↦
        rw new
          (IsLeased-set ts i (record t { status = success }) (get_elem?-lt ts i e) (inl refl) v)
  ]

  taken-ne :
      {now' i : ℕ} (ts : List (Task A)) {a : A} {rest : List (Task A)}
      → now' ≤ now + ten_seconds
      → IsTaken now' 0 ts i a rest
      → IsLeased ts
      → i ≢ j
  unfolding available
  taken-ne ts early h v e =
      let place : h.k ≡ j = omega (arith, h.index, e) in
      let same : some h.t ≡ some v.t = sym h.found ∙ (rw place v.found) in
      ground (arith, h.was_available, same, v.held)

-- The lease of a reply, by the table that its work id belongs to.
abbrev pub HoldsLease : ℕ → TaskType → ℕ → Coordinator → Type 0
HoldsLease now map_task j c = IsLeased now j c.map_tasks
HoldsLease now reduce_task j c = IsLeased now j c.reduce_tasks
HoldsLease now exit j c = Unit
HoldsLease now wait j c = Unit

assign_task-HoldsLease :
    (now : ℕ) (c : Coordinator) (r : CoordinatorReply)
    → let p = assign_task now c r in HoldsLease now p.1.task_type p.1.work_id p.0
assign_task-HoldsLease now c r =
    assign_task_cases (λ p. HoldsLease now p.1.task_type p.1.work_id p.0) now c r idle
      (λ j file tasks _ h. taken-IsLeased now j c.map_tasks (omega arith) h)
      (λ j files tasks _ _ h. taken-IsLeased now j c.reduce_tasks (omega arith) h)
  where
    idle : (k : TaskType) → (k ≡ wait) ⊎ (k ≡ exit) → IsIdle now c → HoldsLease now k r.work_id c
    idle wait _ _ = tt
    idle exit _ _ = tt
    idle map_task h _ = absurd (ground arith)
    idle reduce_task h _ = absurd (ground arith)

-- A lease outlives the later calls of all workers.
module _ (now : ℕ) (k : TaskType) (j : ℕ) where
  assign_task-keeps :
      (now' : ℕ) (c : Coordinator) (r : CoordinatorReply)
      → now ≤ now'
      → HoldsLease now k j c
      → HoldsLease now k j (assign_task now' c r).0
  assign_task-keeps now' c r later v =
      assign_task_cases (λ p. HoldsLease now k j p.0) now' c r (λ _ _ _. v)
        (λ i file tasks _ h. on_map k tasks h v) (λ i files tasks _ _ h. on_reduce k tasks h v)
    where
      on_map :
          (k : TaskType) {i : ℕ} {file : Str} (tasks : List (Task Str))
          → IsTaken now' 0 c.map_tasks i file tasks
          → HoldsLease now k j c
          → HoldsLease now k j (record c { map_tasks = tasks })
      on_map map_task tasks h w = IsLeased-take_task now j c.map_tasks tasks later h w
      on_map reduce_task tasks h w = w
      on_map exit tasks h w = w
      on_map wait tasks h w = w

      on_reduce :
          (k : TaskType) {i : ℕ} {files : List Str} (tasks : List (Task (List Str)))
          → IsTaken now' 0 c.reduce_tasks i files tasks
          → HoldsLease now k j c
          → HoldsLease now k j (record c { reduce_tasks = tasks })
      on_reduce map_task tasks h w = w
      on_reduce reduce_task tasks h w = IsLeased-take_task now j c.reduce_tasks tasks later h w
      on_reduce exit tasks h w = w
      on_reduce wait tasks h w = w

module _ (now j : ℕ) where
  complete_map-keeps :
      (k : TaskType) (i : ℕ) (t : Task Str) (c : Coordinator)
      → get_elem? c.map_tasks i ≡ some t
      → HoldsLease now k j c
      → HoldsLease now k j (complete_map i t c)
  unfolding complete_map
  complete_map-keeps map_task i t c e v = IsLeased-complete now j i t c.map_tasks e v
  complete_map-keeps reduce_task i t c e v = v
  complete_map-keeps exit i t c e v = v
  complete_map-keeps wait i t c e v = v

  complete_reduce-keeps :
      (k : TaskType) (i : ℕ) (t : Task (List Str)) (c : Coordinator)
      → get_elem? c.reduce_tasks i ≡ some t
      → HoldsLease now k j c
      → HoldsLease now k j (complete_reduce i t c)
  unfolding complete_reduce
  complete_reduce-keeps map_task i t c e v = v
  complete_reduce-keeps reduce_task i t c e v = IsLeased-complete now j i t c.reduce_tasks e v
  complete_reduce-keeps exit i t c e v = v
  complete_reduce-keeps wait i t c e v = v

-- What the workers do after time `now`: the clock does not run backwards.
pub data Later (now : ℕ) (s : System) : System → Type 0 where
  start : Later now s s
  asked : {t : System} (now' : ℕ) → now ≤ now' → Later now s t → Later now s (after_assign now' t)
  reported :
      {t : System} (k : ℕ) (r : CoordinatorReply) (c' : Coordinator)
      → get_elem? t.issued k ≡ some r
      → notify_complete (success_args r) t.coordinator ≡ ok c'
      → Later now s t
      → Later now s (record t { coordinator = c' })

module _ (now : ℕ) (k : TaskType) (j : ℕ) where
  Later-keeps :
      {s u : System}
      → Later now s u
      → HoldsLease now k j s.coordinator
      → HoldsLease now k j u.coordinator
  unfolding notify_complete success_args
  Later-keeps start v = v
  Later-keeps (asked {t} now' later l) v =
      assign_task-keeps now k j now' t.coordinator empty_reply later (Later-keeps l v)
  Later-keeps (reported {t} i r c' listed e l) v =
      let w = Later-keeps l v in
      notify_as_cases (HoldsLease now k j) r.task_type r.work_id t.coordinator
        (λ m _ found. complete_map-keeps now j k r.work_id m t.coordinator found w)
        (λ m _ found. complete_reduce-keeps now j k r.work_id m t.coordinator found w) w c' e

assign_task-ne :
    (now now' : ℕ) (k : TaskType) (j : ℕ) (c : Coordinator) (r : CoordinatorReply)
    → (k ≡ map_task) ⊎ (k ≡ reduce_task)
    → now' ≤ now + ten_seconds
    → HoldsLease now k j c
    → let p = assign_task now' c r in p.1.task_type ≡ k → p.1.work_id ≢ j
assign_task-ne now now' k j c r kind early v =
    assign_task_cases (λ p. p.1.task_type ≡ k → p.1.work_id ≢ j) now' c r
      (λ k' idle _ e. absurd (ground arith))
      (λ i file tasks _ h e.
        taken-ne now j c.map_tasks early h (subst (λ k. HoldsLease now k j c) (sym e) v))
      (λ i files tasks _ _ h e.
        taken-ne now j c.reduce_tasks early h (subst (λ k. HoldsLease now k j c) (sym e) v))

-- A task given out at time `now` is not given out again in the ten seconds after, whatever the
-- workers ask and report in between.
pub assign_task_exclusive :
    (now now' : ℕ) (s u : System)
    → let r = (assign_task now s.coordinator empty_reply).1 in
      let r' = (assign_task now' u.coordinator empty_reply).1 in
      (r.task_type ≡ map_task) ⊎ (r.task_type ≡ reduce_task)
      → Later now (after_assign now s) u
      → now' ≤ now + ten_seconds
      → r'.task_type ≡ r.task_type
      → r'.work_id ≢ r.work_id
assign_task_exclusive now now' s u kind l early =
    let p = assign_task now s.coordinator empty_reply in
    assign_task-ne now now' p.1.task_type p.1.work_id u.coordinator empty_reply kind early (
      Later-keeps now p.1.task_type p.1.work_id l
        (assign_task-HoldsLease now s.coordinator empty_reply))
