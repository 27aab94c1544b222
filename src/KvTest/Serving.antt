-- ===== src/KvTest/Serving.antt =====
-- kvtest1/kvtest.go and kvtest1/porcupine.go: a test whose clerk behaves as the labs ask of a server.
use distributed_system.Prelude.{
  comparable_nat, comparable_list, true, false, ℤ, List, Option, Str, [], arith, eqb, if◌then◌else◌,
  none, refl, some, ℕ, ◌&&◌, ◌++◌, ◌==◌, ◌∷◌, ◌≡◌, ◌≢◌, Bool-cases, ap, bind-some, inl, inr,
  some_inj, subst, sym, ◌>>=◌, ◌∙◌, ==_refl, ◌+◌,
}
use distributed_system.Models.{KvState, Operation, step}
use distributed_system.Models.Versions.{accepts}
use distributed_system.KvTest.{
  Clerk, Test, Logged, finished, kv_get, kv_put, append_op, ok_text, err_version, next_version,
  err_no_key,
}

-- A put of the version that the key has is answered by OK and raises the version; one of another
-- version is answered by ErrVersion, or by ErrNoKey when the key is missing. A get gives the value and
-- the version, and OK when the key is there. The clock leaves the server alone.
pub record Serves {W : Type 0} (ck : Clerk W) (state_of : W → Str → KvState) : Type 0 where
  pub get_value : (key : Str) (w : W) → (ck.clerk_get key w).0.0 ≡ (state_of w key).value
  pub get_version : (key : Str) (w : W) → (ck.clerk_get key w).0.1 ≡ (state_of w key).version
  pub get_found :
      (key : Str) (w : W) → (state_of w key).version ≢ 0 → (ck.clerk_get key w).0.2 ≡ ok_text
  pub get_keeps : (key : Str) (w : W) (k : Str) → state_of (ck.clerk_get key w).1 k ≡ state_of w k
  pub put_ok :
      (key value : Str) (w : W) → (ck.clerk_put key value (state_of w key).version w).0 ≡ ok_text
  pub put_stale :
      (key value : Str) (ver : ℕ) (w : W)
      → ver ≢ (state_of w key).version
      → (state_of w key).version ≢ 0
      → (ck.clerk_put key value ver w).0 ≡ err_version
  pub put_missing :
      (key value : Str) (ver : ℕ) (w : W)
      → ver ≢ 0
      → (state_of w key).version ≡ 0
      → (ck.clerk_put key value ver w).0 ≡ err_no_key
  pub put_state :
      (key value : Str) (ver : ℕ) (w : W) (k : Str)
      → state_of (ck.clerk_put key value ver w).1 k ≡ (
          if eqb ver (state_of w key).version && (key == k)
          then record { value = value; version = next_version (state_of w key).version }
          else state_of w k)
  pub since_keeps : (w : W) (k : Str) → state_of (ck.since w).1 k ≡ state_of w k

-- The model's state after one operation that it allows, and after several.
abbrev pub replay_one : KvState → Operation → Option KvState
replay_one st o = if (step st o.input o.output).0 then (step st o.input o.output).1 else none

abbrev pub replay : KvState → List Operation → Option KvState
replay st [] = some st
replay st (o ∷ os) = replay_one st o >>= λ st'. replay st' os

-- The logged operations on a key.
abbrev pub of_key : Str → List Logged → List Operation
of_key key [] = []
of_key key (l ∷ log) =
    if l.operation.input.key == key then l.operation ∷ of_key key log else of_key key log

of_key-behind :
    (key : Str) (log : List Logged) (l : Logged)
    → of_key key (append_op l log) ≡ (
        if l.operation.input.key == key then of_key key log ++ l.operation ∷ [] else of_key key log)
of_key-behind key [] l = refl
of_key-behind key (x ∷ log) l = ground (arith, of_key-behind key log l)

replay-behind :
    (st : KvState) (os : List Operation) (o : Operation) (mid st' : KvState)
    → replay st os ≡ some mid
    → replay_one mid o ≡ some st'
    → replay st (os ++ o ∷ []) ≡ some st'
replay-behind st [] o mid st' h k =
    let k' : replay_one st o ≡ some st' =
      subst (λ x. replay_one x o ≡ some st') (sym (some_inj h)) k in
    ap (λ r. r >>= λ x. some x) k'
replay-behind st (x ∷ os) o mid st' h k =
    let (st1, e, rest) = bind-some (replay_one st x) (λ y. replay y os) h in
    ap (λ r. r >>= λ y. replay y (os ++ o ∷ [])) e ∙ replay-behind st1 os o mid st' rest k

pub accepts-replay :
    (st : KvState) (os : List Operation) (st' : KvState)
    → replay st os ≡ some st'
    → accepts st os ≡ true
unfolding accepts
accepts-replay st [] st' h = refl
accepts-replay st (o ∷ os) st' h =
    let (st1, e, rest) = bind-some (replay_one st o) (λ y. replay y os) h in
    ground (arith, e, accepts-replay st1 os st' rest)

abbrev put_of : Str → Str → ℕ → Str → Operation
put_of key value ver err = record {
  input = record { op = 1; key = key; value = value; version = ver };
  output = record { value = []; version = 0; err = err };
}

replay_one-ok :
    (st : KvState) (key value : Str) (ver : ℕ) (err : Str)
    → eqb st.version ver ≡ true
    → err ≡ ok_text
    → replay_one st (put_of key value ver err)
      ≡ some (record { value = value; version = next_version st.version })
unfolding step
replay_one-ok st key value ver err hit e =
    subst
      (λ x.
        replay_one st (put_of key value ver x)
        ≡ some (record { value = value; version = next_version st.version }))
      (sym e) (rw (hit, step) refl)

replay_one-stale :
    (st : KvState) (key value : Str) (ver : ℕ) (err : Str)
    → eqb st.version ver ≡ false
    → err ≡ err_version
    → replay_one st (put_of key value ver err) ≡ some st
unfolding step
replay_one-stale st key value ver err miss e =
    subst (λ x. replay_one st (put_of key value ver x) ≡ some st) (sym e) (rw (miss, step) refl)

module _ {W : Type 0} (ck : Clerk W) (state_of : W → Str → KvState)
    (serves : Serves ck state_of) where
  -- The log of a key, replayed by the model, ends in the state of the server.
  abbrev pub Agrees : (Str → KvState) → Test W → Type 0
  Agrees first ts =
      (key : Str) → replay (first key) (of_key key ts.oplog) ≡ some (state_of ts.world key)

  logged-Agrees :
      (first : Str → KvState) (ts : Test W) (l : Logged) (w' : W) (n : ℕ)
      → Agrees first ts
      → ((k : Str)
          → (l.operation.input.key == k) ≡ true
          → replay_one (state_of ts.world k) l.operation ≡ some (state_of w' k))
      → ((k : Str) → (l.operation.input.key == k) ≡ false → state_of w' k ≡ state_of ts.world k)
      → Agrees first (record { world = w'; oplog = append_op l ts.oplog; ops = n })
  logged-Agrees first ts l w' n h own other k =
      let key = l.operation.input.key in
      elim (Bool-cases (key == k)) [
        | inl hit ↦
            ap (replay (first k)) (
              of_key-behind k ts.oplog l
              ∙ ap (λ b. if b then of_key k ts.oplog ++ l.operation ∷ [] else of_key k ts.oplog)
                  hit)
            ∙ replay-behind (first k) (of_key k ts.oplog) l.operation (state_of ts.world k)
                (state_of w' k) (h k) (own k hit)
        | inr miss ↦
            ap (replay (first k)) (
              of_key-behind k ts.oplog l
              ∙ ap (λ b. if b then of_key k ts.oplog ++ l.operation ∷ [] else of_key k ts.oplog)
                  miss)
            ∙ h k
            ∙ ap some (sym (other k miss))
      ]

  -- What the model makes of a get and of a put of the server.
  get_own :
      (key : Str) (ver : ℕ) (err : Str) (w : W)
      → replay_one (state_of w key) (record {
        input = record { op = 0; key = key; value = []; version = 0 };
        output = record { value = (ck.clerk_get key w).0.0; version = ver; err = err };
      })
        ≡ some (state_of w key)
  unfolding step
  get_own key ver err w =
      let right =
        subst (λ v. (v == (state_of w key).value) ≡ true) (sym (serves.get_value key w))
          (==_refl (state_of w key).value) in
      ap (λ b. if b then some (state_of w key) else none) right

  put_own :
      (key value : Str) (ver : ℕ) (w : W)
      → ((state_of w key).version ≡ 0 → ver ≡ 0)
      → replay_one (state_of w key) (put_of key value ver (ck.clerk_put key value ver w).0)
        ≡ some (state_of (ck.clerk_put key value ver w).1 key)
  put_own key value ver w known =
      let st = state_of w key in
      let next = serves.put_state key value ver w key in
      elim (Bool-cases (eqb st.version ver)) [
        | inl hit ↦
            let same : st.version ≡ ver = ground (arith, hit) in
            let err : (ck.clerk_put key value ver w).0 ≡ ok_text =
              subst (λ v. (ck.clerk_put key value v w).0 ≡ ok_text) same
                (serves.put_ok key value w) in
            let flag : (eqb ver st.version && (key == key)) ≡ true =
              ground (arith, same, ==_refl key) in
            replay_one-ok st key value ver _ hit err
            ∙ ap some (
                sym (
                  next
                  ∙ ap
                      (λ b.
                        if b
                        then record { value = value; version = next_version st.version }
                        else st)
                      flag))
        | inr miss ↦
            let err =
              serves.put_stale key value ver w (λ e. ground (arith, miss, e))
                (λ e. ground (arith, miss, e, known e)) in
            let flag : (eqb ver st.version && (key == key)) ≡ false = ground (arith, miss) in
            replay_one-stale st key value ver _ miss err
            ∙ ap some (
                sym (
                  next
                  ∙ ap
                      (λ b.
                        if b
                        then record { value = value; version = next_version st.version }
                        else st)
                      flag))
      ]

  pub kv_get-Agrees :
      (first : Str → KvState) (key : Str) (cli : ℤ) (ts : Test W)
      → Agrees first ts
      → (a : Str × ℕ × Str) × (ts' : Test W) × (kv_get ck key cli ts ≡ finished a ts')
        × Agrees first ts'
  unfolding kv_get
  kv_get-Agrees first key cli ts h =
      let w1 = (ck.since ts.world).1 in
      let w2 = (ck.clerk_get key w1).1 in
      let still : (k : Str) → state_of (ck.since w2).1 k ≡ state_of ts.world k =
        λ k. serves.since_keeps w2 k ∙ serves.get_keeps key w1 k ∙ serves.since_keeps ts.world k in
      let answer : Str × ℕ × Str = (ck.clerk_get key w1).0 in
      let get_op : Operation = record {
        input = record { op = 0; key = key; value = []; version = 0 };
        output = record { value = answer.0; version = answer.1; err = answer.2 };
      } in
      let own : replay_one (state_of ts.world key) get_op ≡ some (state_of (ck.since w2).1 key) =
        subst (λ st. replay_one st get_op ≡ some st) (serves.since_keeps ts.world key)
          (get_own key answer.1 answer.2 w1)
        ∙ ap some (sym (still key)) in
      (
        answer,
        _,
        refl,
        logged-Agrees first ts _ (ck.since w2).1 (ts.ops + 1) h
            (λ k hit.
              subst
                (λ x. replay_one (state_of ts.world x) get_op ≡ some (state_of (ck.since w2).1 x))
                ((comparable_list.exact key k).0 hit) own)
            (λ k miss. still k),
      )

  pub kv_put-Agrees :
      (first : Str → KvState) (key value : Str) (ver : ℕ) (cli : ℤ) (ts : Test W)
      → Agrees first ts
      → ((state_of ts.world key).version ≡ 0 → ver ≡ 0)
      → (err : Str) × (ts' : Test W) × (kv_put ck key value ver cli ts ≡ finished err ts')
        × Agrees first ts'
  unfolding kv_put
  kv_put-Agrees first key value ver cli ts h known =
      let w1 = (ck.since ts.world).1 in
      let err : Str = (ck.clerk_put key value ver w1).0 in
      let w2 = (ck.clerk_put key value ver w1).1 in
      let own : replay_one (state_of ts.world key) (put_of key value ver err)
          ≡ some (state_of (ck.since w2).1 key) =
        subst (λ st. replay_one st (put_of key value ver err) ≡ some (state_of w2 key))
          (serves.since_keeps ts.world key)
          (put_own key value ver w1
            (λ e. known (sym (ap (λ st. st.version) (serves.since_keeps ts.world key)) ∙ e)))
        ∙ ap some (sym (serves.since_keeps w2 key)) in
      (
        err,
        _,
        refl,
        logged-Agrees first ts _ (ck.since w2).1 (ts.ops + 1) h
            (λ k hit.
              subst
                (λ x.
                  replay_one (state_of ts.world x) (put_of key value ver err)
                  ≡ some (state_of (ck.since w2).1 x))
                ((comparable_list.exact key k).0 hit) own)
            (λ k miss.
              let flag : (eqb ver (state_of w1 key).version && (key == k)) ≡ false =
                ground (arith, miss) in
              serves.since_keeps w2 k
              ∙ serves.put_state key value ver w1 k
              ∙ ap
                  (λ b.
                    if b
                    then record { value = value; version = next_version (state_of w1 key).version }
                    else state_of w1 k)
                  flag
              ∙ serves.since_keeps ts.world k),
      )
