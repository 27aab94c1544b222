-- ===== src/Mr/Coordinator/Tables.antt =====
-- Laws of one task table: what the assignment loop finds, and how the completed tasks count.
use distributed_system.Prelude.{
  ℕ, zero, suc, ◌+◌, ◌≤◌, ◌≡◌, refl, ap, inl, inr, true, false, Option, none, some, List, [], ◌∷◌,
  arith, length, get_elem?, set, All, Bool-cases, if◌then◌else◌,
}
use distributed_system.Mr.Rpc.{is_success}
use distributed_system.Mr.Coordinator.{Task, available, assign, keep_task, take_task}

module _ {A : Type 0} where
  -- How many tasks of a table are completed.
  unfoldable pub done_count : List (Task A) → ℕ
  done_count [] = 0
  done_count (t ∷ ts) = let rest = done_count ts in if is_success t.status then suc rest else rest

  pub done_count-le-length : (ts : List (Task A)) → done_count ts ≤ length ts
  unfolding done_count
  done_count-le-length [] = omega arith
  done_count-le-length (t ∷ ts) = ground (arith, done_count-le-length ts)

  -- The loop, started at index `i`, took task `t` at place `k` of the table.
  pub record IsTaken (now i : ℕ) (ts : List (Task A)) (j : ℕ) (a : A) (rest : List (Task A))
      : Type 0 where
    pub k : ℕ
    pub t : Task A
    pub index : j ≡ i + k
    pub found : get_elem? ts k ≡ some t
    pub was_available : available now t ≡ true
    pub given : a ≡ t.input
    pub table : rest ≡ set ts k (assign now t)

  IsTaken-cons :
      {now i : ℕ} {ts : List (Task A)} {j : ℕ} {a : A} {rest : List (Task A)} (t : Task A)
      → IsTaken now (suc i) ts j a rest
      → IsTaken now i (t ∷ ts) j a (t ∷ rest)
  IsTaken-cons t h = record {
    k = suc h.k;
    t = h.t;
    index = omega (arith, h.index);
    found = h.found;
    was_available = h.was_available;
    given = h.given;
    table = ap (◌∷◌ t) h.table;
  }

  keep_task-eq-some :
      (t : Task A) (r : Option (ℕ × A × List (Task A))) {j : ℕ} {a : A} {rest : List (Task A)}
      → keep_task t r ≡ some (j, a, rest)
      → (rest' : List (Task A)) × (r ≡ some (j, a, rest')) × (rest ≡ t ∷ rest')
  keep_task-eq-some t none e = cc
  keep_task-eq-some t (some (j, a, rest')) e = (rest', ground arith, ground arith)

  pub take_task-IsTaken :
      (now i : ℕ) (ts : List (Task A)) {j : ℕ} {a : A} {rest : List (Task A)}
      → take_task now i ts ≡ some (j, a, rest)
      → IsTaken now i ts j a rest
  unfolding take_task
  take_task-IsTaken now i [] e = cc
  take_task-IsTaken now i (t ∷ ts) {j} {a} {rest} e = elim (Bool-cases (available now t)) [
    | inl h ↦ record {
      k = 0;
      t = t;
      index = ground arith;
      found = refl;
      was_available = h;
      given = ground arith;
      table = ground arith;
    }
    | inr h ↦
        let (rest', before, e') =
          keep_task-eq-some t (take_task now (suc i) ts) {j = j} {a = a} {rest = rest}
            (rw h at e) in
        rw e' (IsTaken-cons t (take_task-IsTaken now (suc i) ts before))
  ]

  pub take_task-none :
      (now i : ℕ) (ts : List (Task A))
      → take_task now i ts ≡ none
      → All (λ t. available now t ≡ false) ts
  unfolding take_task
  take_task-none now i [] e = tt
  take_task-none now i (t ∷ ts) e = ground (arith, take_task-none now (suc i) ts)

  pub available-ne-success :
      (now : ℕ) (t : Task A) → available now t ≡ true → is_success t.status ≡ false
  unfolding available
  available-ne-success now t h = ground arith

  pub done_count-set :
      (ts : List (Task A)) (k : ℕ) {t : Task A} (t' : Task A)
      → get_elem? ts k ≡ some t
      → done_count (set ts k t') + (if is_success t.status then 1 else 0)
        ≡ done_count ts + (if is_success t'.status then 1 else 0)
  unfolding done_count
  done_count-set [] k t' e = cc
  done_count-set (x ∷ ts) zero t' e = ground arith
  done_count-set (x ∷ ts) (suc k) t' e = ground (arith, done_count-set ts k t' e)
