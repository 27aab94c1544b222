-- ===== src/RaftTest/Applying.antt =====
-- The commands that applierSnap of raft1/server.go applies.
use distributed_system.Prelude.{
  ℕ, suc, ◌+◌, ◌≡◌, ◌≢◌, refl, sym, ap, subst, ◌∙◌, inl, inr, true, false, Option, some, get_elem?,
  get_elem?-lt, get_elem?-set_self, get_elem?-set_ne, set, eqb, eqb_iff, arith, Bool-cases,
  Option-cases, Comparable, comparable_nat, get, put, Str, ltb, not, ◌&&◌, ◌||◌,
}
use distributed_system.RaftTest.{
  Outcome-cases, ok, Server, Tester, ApplyMsg, Gob, check_logs, check_apply, check_command,
  applier_snap,
}
use distributed_system.RaftTest.Agreement.{
  entry_at, IsSafe, check_apply-IsSafe, check_apply-Applied,
}

module _ {Entry : Type 0} ⦃cmp : Comparable Entry⦄ where
  same_entries-IsSafe :
      (ts ts' : Tester Entry)
      → ((j i : ℕ) → entry_at ts' j i ≡ entry_at ts j i)
      → ts'.max_index ≡ ts.max_index
      → IsSafe ts
      → IsSafe ts'
  same_entries-IsSafe ts ts' same most s = record {
    agree = λ j k i v w e f. s.agree j k i v w (sym (same j i) ∙ e) (sym (same k i) ∙ f);
    no_gap = λ j i v e.
        let (w, f) = s.no_gap j i v (sym (same j (suc (suc i))) ∙ e) in (w, same j (suc i) ∙ f);
    bounded = λ j i v e. rw most (s.bounded j i v (sym (same j i) ∙ e));
  }

  -- A server that is replaced by one with the same log.
  set-entry_at :
      (ts : Tester Entry) (me : ℕ) (rs rs' : Server Entry)
      → get_elem? ts.srvs me ≡ some rs
      → rs'.logs ≡ rs.logs
      → (j i : ℕ) → entry_at (record ts { srvs = set ts.srvs me rs' }) j i ≡ entry_at ts j i
  set-entry_at ts me rs rs' found same j i = elim (Bool-cases (eqb me j)) [
    | inl hit ↦
        let e : me ≡ j = (eqb_iff me j).0 hit in
        subst (λ x. entry_at (record ts { srvs = set ts.srvs me rs' }) x i ≡ entry_at ts x i) e
          (rw (entry_at, get_elem?-set_self ts.srvs me rs' (get_elem?-lt ts.srvs me found), found)
            (ap (λ m. get m i) same))
    | inr miss ↦
        let ne : me ≢ j = λ e. cc ((eqb_iff me j).1 e, miss) in
        rw (entry_at, get_elem?-set_ne ts.srvs me j rs' ne) refl
  ]

  -- What applierSnap leaves after a command.
  pub record InOrder (me : ℕ) (m : ApplyMsg Entry) (ts ts' : Tester Entry) : Type 0 where
    pub before : Server Entry
    pub after : Server Entry
    pub found : get_elem? ts.srvs me ≡ some before
    pub next_index : m.command_index ≡ before.last_applied + 1
    pub replaced : get_elem? ts'.srvs me ≡ some after
    pub applied : after.last_applied ≡ m.command_index
    pub safe : IsSafe ts'

  accepted-InOrder :
      (me : ℕ) (m : ApplyMsg Entry) (ts ts1 ts' : Tester Entry) (rs : Server Entry)
      → get_elem? ts.srvs me ≡ some rs
      → m.command_index ≡ rs.last_applied + 1
      → check_apply me m.command_index m.command ts ≡ ok ts1
      → ts' ≡ record ts1 {
        srvs = set ts1.srvs me (record rs {
          logs = put rs.logs m.command_index m.command;
          last_applied = m.command_index;
        });
      }
      → IsSafe ts
      → InOrder me m ts ts'
  accepted-InOrder me m ts ts1 ts' rs found right run t s =
      let i = m.command_index in
      let v = m.command in
      let rs1 : Server Entry = record rs { logs = put rs.logs i v } in
      let rs' : Server Entry = record rs { logs = put rs.logs i v; last_applied = i } in
      let a = check_apply-Applied me i v ts ts1 run in
      let same_rs : a.rs ≡ rs = ground (arith, a.found, found) in
      let w : ts1.srvs ≡ set ts.srvs me rs1 =
        a.written
        ∙ ap (λ (r : Server Entry). set ts.srvs me (record r { logs = put r.logs i v })) same_rs in
      let found1 : get_elem? ts1.srvs me ≡ some rs1 =
        ap (λ l. get_elem? l me) w
        ∙ get_elem?-set_self ts.srvs me rs1 (get_elem?-lt ts.srvs me found) in
      let last : Tester Entry = record ts1 { srvs = set ts1.srvs me rs' } in
      let safe1 = check_apply-IsSafe me i v ts ts1 run s in
      record {
        before = rs;
        after = rs';
        found = found;
        next_index = right;
        replaced =
            ap (λ (x : Tester Entry). get_elem? x.srvs me) t
            ∙ get_elem?-set_self ts1.srvs me rs' (get_elem?-lt ts1.srvs me found1);
        applied = refl;
        safe =
            subst IsSafe (sym t)
              (same_entries-IsSafe ts1 last (set-entry_at ts1 me rs1 rs' found1 refl) refl safe1);
      }

  check_command-wrong :
      (me : ℕ) (m : ApplyMsg Entry) (rs : Server Entry) (ts : Tester Entry)
      → eqb m.command_index (rs.last_applied + 1) ≡ false
      → check_command me m rs ts ≡ ok (ts, rs, true)
  unfolding check_command
  check_command-wrong me m rs ts h = rw (check_command, h) refl

  -- A command without an error has passed the checks of the other applier.
  check_command-ok :
      (me : ℕ) (m : ApplyMsg Entry) (rs rs1 : Server Entry) (ts ts1 : Tester Entry)
      → check_command me m rs ts ≡ ok (ts1, rs1, false)
      → (m.command_index ≡ rs.last_applied + 1)
        × (rs1 ≡ record rs { logs = put rs.logs m.command_index m.command })
        × (check_apply me m.command_index m.command ts ≡ ok ts1)
  unfolding check_command check_apply
  check_command-ok me m rs rs1 ts ts1 h =
      elim (Bool-cases (eqb m.command_index (rs.last_applied + 1))) [
        | inr wrong ↦ ground (arith, check_command-wrong me m rs ts wrong, h)
        | inl right ↦ elim (Outcome-cases (check_logs me m.command_index m.command ts)) [
          | inl stop ↦ ground (arith, rw (check_command, right, stop) at h)
          | inr ((ts2, err, prev), run) ↦
              let h' = rw (check_command, right, run) at h in
              let no_err : (err || (ltb 1 m.command_index && not prev)) ≡ false =
                ground (arith, h') in
              (
                (eqb_iff m.command_index (rs.last_applied + 1)).0 right,
                ground (arith, h'),
                rw (check_apply, run, no_err) (ground (arith, h')),
              )
        ]
      ]

  -- A command that applierSnap takes without an error has the index behind the last one of the
  -- server, which it becomes; the logs stay in agreement, without gaps and in bounds.
  pub applier_snap-InOrder :
      (nil : Entry) (gob : Gob Entry) (me : ℕ) (m : ApplyMsg Entry) (ts ts' : Tester Entry)
      (snap : Option Str)
      → m.snapshot_valid ≡ false
      → m.command_valid ≡ true
      → applier_snap nil gob me m ts ≡ ok (ts', snap)
      → IsSafe ts
      → InOrder me m ts ts'
  unfolding applier_snap
  applier_snap-InOrder nil gob me m ts ts' snap sv cv h s =
      elim (Option-cases (get_elem? ts.srvs me)) [
        | inl missing ↦ ground (arith, missing, h)
        | inr (rs, found) ↦ elim (Outcome-cases (check_command me m rs ts)) [
          | inl stop ↦ ground (arith, found, sv, cv, stop, h)
          | inr ((ts1, rs1, true), run) ↦ ground (arith, found, sv, cv, run, h)
          | inr ((ts1, rs1, false), run) ↦
              let run' = rw (applier_snap, found, run, sv, cv) at h in
              let (right, written, checked) = check_command-ok me m rs rs1 ts ts1 run in
              accepted-InOrder me m ts ts1 ts' rs found right checked
                (ground (arith, run', written)) s
        ]
      ]
