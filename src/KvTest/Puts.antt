-- ===== src/KvTest/Puts.antt =====
-- kvtest1/kvtest.go and kvtest1/porcupine.go: the log of a test, and PutAtLeastOnce, with a clerk that
-- serves.
use distributed_system.Prelude.{
  comparable_nat, comparable_list, true, false, ℤ, List, Str, [], refl, suc, zero, ℕ, ◌+◌, ◌<◌, ◌^◌,
  ◌∷◌, ◌≡◌, ◌≢◌, ==_refl, ap, arith, eqb, if◌then◌else◌, subst, sym, ◌&&◌, ◌==◌, ◌∙◌, Bool, not,
  ◌||◌,
}
use distributed_system.Models.{KvState}
use distributed_system.Models.Versions.{accepts}
use distributed_system.KvTest.{
  Clerk, Test, Result, ◌>>=◌, finished, failed, running, kv_get, kv_put, put_at_least_once, ok_text,
  err_version, next_version,
}
use distributed_system.KvTest.Serving.{
  Serves, of_key, Agrees, kv_get-Agrees, kv_put-Agrees, accepts-replay,
}

and-both : (a b : Bool) → (a && b) ≡ true → (a ≡ true) × (b ≡ true)
and-both a b h = (ground (arith, h), ground (arith, h))

pub data TestOp : Type 0 where
  a_get : Str → ℤ → TestOp
  a_put : Str → Str → ℕ → ℤ → TestOp

module _ {W : Type 0} (ck : Clerk W) where
  abbrev pub test_op : TestOp → Test W → Result W (Unit {0})
  test_op (a_get key cli) ts = elim (kv_get ck key cli ts) [
    | finished a ts' ↦ finished tt ts'
    | failed ↦ failed
    | running ↦ running
  ]
  test_op (a_put key value ver cli) ts = elim (kv_put ck key value ver cli ts) [
    | finished err ts' ↦ finished tt ts'
    | failed ↦ failed
    | running ↦ running
  ]

  abbrev pub test_ops : List TestOp → Test W → Result W (Unit {0})
  test_ops [] ts = finished tt ts
  test_ops (o ∷ os) ts = elim (test_op o ts) [
    | finished a ts' ↦ test_ops os ts'
    | failed ↦ failed
    | running ↦ running
  ]

module _ {W : Type 0} (ck : Clerk W) (state_of : W → Str → KvState)
    (serves : Serves ck state_of) where
  -- No put of a version other than 0 is sent for a key that the server does not have.
  abbrev allowed : TestOp → Test W → Bool
  allowed (a_get key cli) ts = true
  allowed (a_put key value ver cli) ts = eqb ver 0 || not (eqb (state_of ts.world key).version 0)

  abbrev pub knows : List TestOp → Test W → Bool
  knows [] ts = true
  knows (o ∷ os) ts =
      allowed o ts
      && elim (test_op ck o ts) [ finished a ts' ↦ knows os ts' | failed ↦ false | running ↦ false ]

  test_op-Agrees :
      (first : Str → KvState) (o : TestOp) (ts : Test W)
      → Agrees ck state_of serves first ts
      → allowed o ts ≡ true
      → (ts' : Test W) × (test_op ck o ts ≡ finished tt ts') × Agrees ck state_of serves first ts'
  test_op-Agrees first (a_get key cli) ts h ok =
      let (a, ts', e, h') = kv_get-Agrees ck state_of serves first key cli ts h in
      (ts', rw (e, test_op) refl, h')
  test_op-Agrees first (a_put key value ver cli) ts h ok =
      let known : (state_of ts.world key).version ≡ 0 → ver ≡ 0 = λ e. ground (arith, e, ok) in
      let (a, ts', e, h') = kv_put-Agrees ck state_of serves first key value ver cli ts h known in
      (ts', rw (e, test_op) refl, h')

  knows-rest :
      (o : TestOp) (os : List TestOp) (ts ts' : Test W)
      → knows (o ∷ os) ts ≡ true
      → test_op ck o ts ≡ finished tt ts'
      → (allowed o ts ≡ true) × (knows os ts' ≡ true)
  knows-rest o os ts ts' h e = and-both (allowed o ts) (knows os ts') (
      sym (
        ap
          (λ r.
            allowed o ts && elim r [ finished a t ↦ knows os t | failed ↦ false | running ↦ false ])
          e)
      ∙ h)

  test_ops-Agrees :
      (first : Str → KvState) (os : List TestOp) (ts : Test W)
      → Agrees ck state_of serves first ts
      → knows os ts ≡ true
      → (ts' : Test W) × (test_ops ck os ts ≡ finished tt ts') × Agrees ck state_of serves first ts'
  test_ops-Agrees first [] ts h ok = (ts, refl, h)
  test_ops-Agrees first (o ∷ os) ts h ok =
      let may : allowed o ts ≡ true = ground (arith, ok) in
      let (mid, e, h1) = test_op-Agrees first o ts h may in
      let (ts', e', h2) = test_ops-Agrees first os mid h1 (knows-rest o os ts mid ok e).1 in
      (ts', rw (e, test_ops) e', h2)

  -- The log of gets and puts on a clerk that serves, with no put of a version other than 0 for a key that
  -- the server does not have, is accepted by the model of the linearizability checker, for every key
  -- from the state that it has at first, whoever the clients are.
  pub test_ops-accepts :
      (os : List TestOp) (w : W) (n : ℕ)
      → knows os (record { world = w; oplog = []; ops = n }) ≡ true
      → (ts' : Test W) × (test_ops ck os (record { world = w; oplog = []; ops = n })
          ≡ finished tt ts')
        × ((key : Str) → accepts (state_of w key) (of_key key ts'.oplog) ≡ true)
  test_ops-accepts os w n ok =
      let (ts', e, h) =
        test_ops-Agrees (state_of w) os (record { world = w; oplog = []; ops = n }) (λ key. refl)
          ok in
      (ts', e, λ key. accepts-replay (state_of w key) (of_key key ts'.oplog) _ (h key))

  -- Where a put leaves the server.
  kv_put-after :
      (key value : Str) (ver : ℕ) (cli : ℤ) (ts : Test W)
      → (ts' : Test W) × (kv_put ck key value ver cli ts
          ≡ finished (ck.clerk_put key value ver (ck.since ts.world).1).0 ts')
        × (state_of ts'.world key ≡ (
            if eqb ver (state_of ts.world key).version
            then record { value = value; version = next_version (state_of ts.world key).version }
            else state_of ts.world key))
  unfolding kv_put
  kv_put-after key value ver cli ts =
      let w1 = (ck.since ts.world).1 in
      let w2 = (ck.clerk_put key value ver w1).1 in
      let same : (eqb ver (state_of w1 key).version && (key == key))
          ≡ eqb ver (state_of w1 key).version =
        ground (arith, ==_refl key) in
      (
        _,
        refl,
        serves.since_keeps w2 key
            ∙ serves.put_state key value ver w1 key
            ∙ ap
                (λ b.
                  if b
                  then record { value = value; version = next_version (state_of w1 key).version }
                  else state_of w1 key)
                same
            ∙ ap
                (λ st.
                  if eqb ver st.version
                  then record { value = value; version = next_version st.version }
                  else st)
                (serves.since_keeps ts.world key),
      )

  pub kv_put-stale :
      (key value : Str) (ver : ℕ) (cli : ℤ) (ts : Test W)
      → ver ≢ (state_of ts.world key).version
      → (state_of ts.world key).version ≢ 0
      → (ts' : Test W) × (kv_put ck key value ver cli ts ≡ finished err_version ts')
        × (state_of ts'.world key ≡ state_of ts.world key)
  kv_put-stale key value ver cli ts ne there =
      let (ts', e, st) = kv_put-after key value ver cli ts in
      let unmoved = serves.since_keeps ts.world key in
      let err =
        serves.put_stale key value ver (ck.since ts.world).1
          (λ q. ne (q ∙ ap (λ x. x.version) unmoved))
          (λ q. there (sym (ap (λ x. x.version) unmoved) ∙ q)) in
      let miss : eqb ver (state_of ts.world key).version ≡ false = ground (arith, ne) in
      (
        ts',
        e ∙ ap (λ x. finished x ts') err,
        st
            ∙ ap
                (λ b.
                  if b
                  then record {
                    value = value;
                    version = next_version (state_of ts.world key).version;
                  }
                  else state_of ts.world key)
                miss,
      )

  pub kv_put-ok :
      (key value : Str) (ver : ℕ) (cli : ℤ) (ts : Test W)
      → ver ≡ (state_of ts.world key).version
      → (ts' : Test W) × (kv_put ck key value ver cli ts ≡ finished ok_text ts')
        × (state_of ts'.world key ≡ record { value = value; version = next_version ver })
  kv_put-ok key value ver cli ts h =
      let (ts', e, st) = kv_put-after key value ver cli ts in
      let w1 = (ck.since ts.world).1 in
      let at : (state_of w1 key).version ≡ ver =
        ap (λ x. x.version) (serves.since_keeps ts.world key) ∙ sym h in
      let err : (ck.clerk_put key value ver w1).0 ≡ ok_text =
        subst (λ v. (ck.clerk_put key value v w1).0 ≡ ok_text) at (serves.put_ok key value w1) in
      let hit : eqb ver (state_of ts.world key).version ≡ true = ground (arith, h) in
      (
        ts',
        e ∙ ap (λ x. finished x ts') err,
        st
            ∙ ap
                (λ b.
                  if b
                  then record {
                    value = value;
                    version = next_version (state_of ts.world key).version;
                  }
                  else state_of ts.world key)
                hit
            ∙ ap (λ v. record { value = value; version = next_version v }) (sym h),
      )

  kv_put-ops :
      (key value : Str) (ver : ℕ) (cli : ℤ) (ts ts' : Test W) (err : Str)
      → kv_put ck key value ver cli ts ≡ finished err ts'
      → ts'.ops ≡ ts.ops + 1
  unfolding kv_put
  kv_put-ops key value ver cli ts ts' err h = ground (arith, h)

  put_at_least_once-done :
      (fuel : ℕ) (key value : Str) (ver : ℕ) (me : ℤ) (ts ts' : Test W)
      → kv_put ck key value ver me ts ≡ finished ok_text ts'
      → put_at_least_once ck (suc fuel) key value ver me ts ≡ finished (next_version ver) ts'
  unfolding put_at_least_once
  put_at_least_once-done fuel key value ver me ts ts' h = rw (h, put_at_least_once, ◌>>=◌) refl

  put_at_least_once-again :
      (fuel : ℕ) (key value : Str) (ver : ℕ) (me : ℤ) (ts ts' : Test W)
      → kv_put ck key value ver me ts ≡ finished err_version ts'
      → put_at_least_once ck (suc fuel) key value ver me ts
        ≡ put_at_least_once ck fuel key value (next_version ver) me ts'
  unfolding put_at_least_once
  put_at_least_once-again fuel key value ver me ts ts' h = rw (h, put_at_least_once, ◌>>=◌) refl

  -- On a clerk that serves, PutAtLeastOnce with a version that is not ahead of the server's, which stays
  -- below 2^64, ends after exactly as many puts as it is behind and one more; it returns the version
  -- that the key has then, with the value.
  pub put_at_least_once-ends :
      (gap fuel : ℕ) (key value : Str) (ver : ℕ) (me : ℤ) (ts : Test W)
      → (state_of ts.world key).version ≡ ver + gap
      → ver + gap + 1 < 2 ^ 64
      → gap < fuel
      → (ts' : Test W) × (put_at_least_once ck fuel key value ver me ts
          ≡ finished (ver + gap + 1) ts')
        × (state_of ts'.world key ≡ record { value = value; version = ver + gap + 1 })
        × (ts'.ops ≡ ts.ops + gap + 1)
  unfolding put_at_least_once
  put_at_least_once-ends gap zero key value ver me ts e small lt = elim lt [ ]
  put_at_least_once-ends zero (suc fuel) key value ver me ts e small lt =
      let (ts', put_it, st) = kv_put-ok key value ver me ts (omega (arith, e)) in
      let next : next_version ver ≡ ver + 0 + 1 = omega (arith, small) in
      (
        ts',
        put_at_least_once-done fuel key value ver me ts ts' put_it ∙ ap (λ v. finished v ts') next,
        st ∙ ap (λ v. record { value = value; version = v }) next,
        omega (arith, kv_put-ops key value ver me ts ts' ok_text put_it),
      )
  put_at_least_once-ends (suc gap) (suc fuel) key value ver me ts e small lt =
      let (mid, put_it, st) =
        kv_put-stale key value ver me ts (λ q. omega (arith, e, q)) (λ q. omega (arith, e, q)) in
      let next : next_version ver ≡ ver + 1 = omega (arith, small) in
      let total : next_version ver + gap + 1 ≡ ver + suc gap + 1 = omega (arith, next) in
      let (ts', rest, st', puts) =
        put_at_least_once-ends gap fuel key value (next_version ver) me mid
          (ap (λ x. x.version) st ∙ omega (arith, e, next)) (omega (arith, small, next))
          (omega (arith, lt)) in
      (
        ts',
        put_at_least_once-again fuel key value ver me ts mid put_it
            ∙ rest
            ∙ ap (λ v. finished v ts') total,
        st' ∙ ap (λ v. record { value = value; version = v }) total,
        omega (arith, puts, kv_put-ops key value ver me ts mid err_version put_it),
      )
