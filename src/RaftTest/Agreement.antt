-- ===== src/RaftTest/Agreement.antt =====
-- What the checks of raft1/test.go establish when they are silent: the logs agree.
use distributed_system.Prelude.{
  ℕ, zero, suc, ◌≤◌, ◌≡◌, ◌≢◌, refl, ap, ◌∙◌, subst, inl, inr, true, false, ◌&&◌, Option, none,
  some, List, [], ◌∷◌, arith, get_elem?, set, replicate, get_elem?-set_self, get_elem?-set_ne,
  get_elem?-lt, ltb, eqb, eqb_iff, if◌then◌else◌, Bool-cases, Option-cases, comparable_nat,
  Comparable, get, put, get-put,
}
use distributed_system.RaftTest.{
  Outcome-cases, ok, Server, Tester, ApplyMsg, new_server, has_log, conflicts, prev_ok, check_logs,
  check_apply, applier, applier_all,
}

module _ {Entry : Type 0} ⦃cmp : Comparable Entry⦄ where
  -- The entry of server `j` at index `i`.
  abbrev pub entry_at : Tester Entry → ℕ → ℕ → Option Entry
  entry_at ts j i = elim (get_elem? ts.srvs j) [ none ↦ none | some rs ↦ get rs.logs i ]

  -- The logs agree, have no gap behind index 1, and end at the largest index.
  pub record IsSafe (ts : Tester Entry) : Type 0 where
    pub agree :
        (j k i : ℕ) (v w : Entry) → entry_at ts j i ≡ some v → entry_at ts k i ≡ some w → v ≡ w
    pub no_gap :
        (j i : ℕ) (v : Entry)
        → entry_at ts j (suc (suc i)) ≡ some v
        → (w : Entry) × (entry_at ts j (suc i) ≡ some w)
    pub bounded : (j i : ℕ) (v : Entry) → entry_at ts j i ≡ some v → i ≤ ts.max_index

  conflicts-false :
      (i : ℕ) (v : Entry) (srvs : List (Server Entry)) (j : ℕ) (rs : Server Entry) (w : Entry)
      → conflicts i v srvs ≡ false
      → get_elem? srvs j ≡ some rs
      → get rs.logs i ≡ some w
      → w ≡ v
  unfolding conflicts
  conflicts-false i v [] j rs w h e g = cc
  conflicts-false i v (x ∷ srvs) zero rs w h e g = ground (arith, h, e, g, cmp.exact w v)
  conflicts-false i v (x ∷ srvs) (suc j) rs w h e g =
      let tail : conflicts i v srvs ≡ false = ground (arith, h) in
      conflicts-false i v srvs j rs w tail e g

  -- What an entry that is applied without an error does.
  pub record Applied (me i : ℕ) (v : Entry) (ts ts' : Tester Entry) : Type 0 where
    pub rs : Server Entry
    pub found : get_elem? ts.srvs me ≡ some rs
    pub written : ts'.srvs ≡ set ts.srvs me (record rs { logs = put rs.logs i v })
    largest : ts'.max_index ≡ (if ltb ts.max_index i then i else ts.max_index)
    no_conflict : conflicts i v ts.srvs ≡ false
    no_gap : ltb 1 i ≡ true → prev_ok rs i ≡ true

  pub check_apply-Applied :
      (me i : ℕ) (v : Entry) (ts ts' : Tester Entry)
      → check_apply me i v ts ≡ ok ts'
      → Applied me i v ts ts'
  unfolding check_apply check_logs
  check_apply-Applied me i v ts ts' h = elim (Option-cases (get_elem? ts.srvs me)) [
    | inl missing ↦ ground (arith, missing, h)
    | inr (rs, found) ↦
        let run = rw (check_apply, check_logs, found) at h in
        record {
          rs = rs;
          found = found;
          written = ground (arith, run);
          largest = ground (arith, run);
          no_conflict = ground (arith, run);
          no_gap = λ far. ground (arith, run, far);
        }
  ]

  -- Only server `me` has another log, and only at index `i`.
  Applied-entry_at :
      (me i : ℕ) (v : Entry) (ts ts' : Tester Entry)
      → Applied me i v ts ts'
      → (j k : ℕ) → entry_at ts' j k ≡ (if eqb me j && eqb i k then some v else entry_at ts j k)
  Applied-entry_at me i v ts ts' a j k =
      let rs' : Server Entry = record (a.rs) { logs = put a.rs.logs i v } in
      elim (Bool-cases (eqb me j)) [
        | inl hit ↦
            let same : me ≡ j = (eqb_iff me j).0 hit in
            let now : get_elem? ts'.srvs j ≡ some rs' =
              ap (λ l. get_elem? l j) a.written
              ∙ subst (λ x. get_elem? (set ts.srvs me rs') x ≡ some rs') same
                  (get_elem?-set_self ts.srvs me rs' (get_elem?-lt ts.srvs me a.found)) in
            let before : get_elem? ts.srvs j ≡ some a.rs =
              subst (λ x. get_elem? ts.srvs x ≡ some a.rs) same a.found in
            rw (entry_at, now, before, hit) (get-put a.rs.logs i k v)
        | inr miss ↦
            let ne : me ≢ j = λ e. cc ((eqb_iff me j).1 e, miss) in
            let now : get_elem? ts'.srvs j ≡ get_elem? ts.srvs j =
              ap (λ l. get_elem? l j) a.written ∙ get_elem?-set_ne ts.srvs me j rs' ne in
            rw (entry_at, now, miss) refl
      ]

  entry_at-conflicts :
      (i : ℕ) (v w : Entry) (ts : Tester Entry) (j : ℕ)
      → conflicts i v ts.srvs ≡ false
      → entry_at ts j i ≡ some w
      → w ≡ v
  entry_at-conflicts i v w ts j h e = elim (Option-cases (get_elem? ts.srvs j)) [
    | inl missing ↦ ground (arith, missing, e)
    | inr (rs, found) ↦ conflicts-false i v ts.srvs j rs w h found (ground (arith, found, e))
  ]

  kept :
      (me i : ℕ) (v : Entry) (ts ts' : Tester Entry)
      → Applied me i v ts ts'
      → (j k : ℕ) → (w : Entry) × (entry_at ts j k ≡ some w)
      → (w : Entry) × (entry_at ts' j k ≡ some w)
  kept me i v ts ts' a j k (w, e) = elim (Bool-cases (eqb me j && eqb i k)) [
    | inl hit ↦ (v, ground (arith, Applied-entry_at me i v ts ts' a j k, hit))
    | inr miss ↦ (w, ground (arith, Applied-entry_at me i v ts ts' a j k, miss, e))
  ]

  -- The check for a gap found the entry in front.
  prev_entry :
      (me i : ℕ) (v : Entry) (ts ts' : Tester Entry)
      → Applied me i v ts ts'
      → (j k : ℕ) → (eqb me j && eqb i (suc (suc k))) ≡ true
      → (w : Entry) × (entry_at ts j (suc k) ≡ some w)
  prev_entry me i v ts ts' a j k hit =
      let same : me ≡ j = ground (arith, hit) in
      let far : i ≡ suc (suc k) = ground (arith, hit) in
      let before : get_elem? ts.srvs j ≡ some a.rs =
        subst (λ x. get_elem? ts.srvs x ≡ some a.rs) same a.found in
      let there : has_log a.rs (suc k) ≡ true =
        subst (λ x. prev_ok a.rs x ≡ true) far (a.no_gap (ground (arith, far))) in
      elim (Option-cases (get a.rs.logs (suc k))) [
        | inl missing ↦ ground (arith, missing, there)
        | inr (w, e) ↦ (w, ground (arith, before, e))
      ]

  pub check_apply-IsSafe :
      (me i : ℕ) (v : Entry) (ts ts' : Tester Entry)
      → check_apply me i v ts ≡ ok ts'
      → IsSafe ts
      → IsSafe ts'
  check_apply-IsSafe me i v ts ts' h s =
      let a = check_apply-Applied me i v ts ts' h in
      let at = Applied-entry_at me i v ts ts' a in
      record {
        agree = λ j k i' u w e f. ground (
          arith,
          at j i',
          at k i',
          e,
          f,
          s.agree j k i' u w,
          entry_at-conflicts i v u ts j a.no_conflict,
          entry_at-conflicts i v w ts k a.no_conflict,
        );
        no_gap = λ j i' u e.
            kept me i v ts ts' a j (suc i') (elim (Bool-cases (eqb me j && eqb i (suc (suc i')))) [
              | inl hit ↦ prev_entry me i v ts ts' a j i' hit
              | inr miss ↦ s.no_gap j i' u (ground (arith, at j (suc (suc i')), miss, e))
            ]);
        bounded = λ j i' u e. ground (arith, at j i', e, s.bounded j i' u, a.largest);
      }

  applier_all-IsSafe :
      (ms : List (ℕ × ApplyMsg Entry)) (ts ts' : Tester Entry)
      → applier_all ms ts ≡ ok ts'
      → IsSafe ts
      → IsSafe ts'
  unfolding applier_all applier
  applier_all-IsSafe [] ts ts' h s = let e : ts ≡ ts' = ground (arith, h) in subst IsSafe e s
  applier_all-IsSafe ((me, m) ∷ ms) ts ts' h s = elim (Bool-cases m.command_valid) [
    | inr other ↦ applier_all-IsSafe ms ts ts' (ground (arith, other, h)) s
    | inl valid ↦ elim (Outcome-cases (check_apply me m.command_index m.command ts)) [
      | inl stop ↦ ground (arith, valid, stop, h)
      | inr (ts1, run) ↦
          applier_all-IsSafe ms ts1 ts' (ground (arith, valid, run, h))
            (check_apply-IsSafe me m.command_index m.command ts ts1 run s)
    ]
  ]

  abbrev pub start : ℕ → Tester Entry
  start n = record { srvs = replicate n new_server; max_index = 0 }

  start-entry_at : (n j i : ℕ) → entry_at (start n) j i ≡ none
  unfolding new_server get
  start-entry_at zero j i = refl
  start-entry_at (suc n) zero i = refl
  start-entry_at (suc n) (suc j) i = start-entry_at n j i

  -- When the appliers of a test, from its start on, report no error, the entries of any two servers
  -- at one index are the same, no server has a gap behind index 1, and no entry is behind the
  -- largest index.
  pub applier_all-start-IsSafe :
      (n : ℕ) (ms : List (ℕ × ApplyMsg Entry)) (ts : Tester Entry)
      → applier_all ms (start n) ≡ ok ts
      → IsSafe ts
  applier_all-start-IsSafe n ms ts h = applier_all-IsSafe ms (start n) ts h (record {
    agree = λ j k i v w e f. ground (arith, start-entry_at n j i, e);
    no_gap = λ j i v e. ground (arith, start-entry_at n j (suc (suc i)), e);
    bounded = λ j i v e. ground (arith, start-entry_at n j i, e);
  })
