-- ===== src/KvTest/Retries.antt =====
-- kvtest1/kvtest.go: OnePut, with a clerk that serves.
use distributed_system.Models.{KvState}
use distributed_system.KvTest.{
  Clerk, Test, finished, ◌>>=◌, get_json, put_json, EntryV, ok_text, err_version, next_version,
}
use distributed_system.KvTest.Serving.{Serves}
use distributed_system.KvTest.Json.{ReadsBack, get_json-found, put_json-result}
use distributed_system.KvTest.Puts.{kv_put-ok, kv_put-stale}
use distributed_system.KvTest.Rounds.{one_put, put_round, is_wrong}
use distributed_system.Prelude.{
  comparable_nat, comparable_list, Str, arith, Option, ap, refl, some, sym, ℕ, ℤ, ◌∙◌, ◌≡◌, ◌≢◌,
  false, true, Bool-cases, eqb, inl, inr, subst, suc, ◌&&◌, ◌+◌, ◌<◌, ◌^◌,
}

module _ {W : Type 0} (ck : Clerk W) (state_of : W → Str → KvState)
    (serves : Serves ck state_of) where
  module _ (encode : EntryV → Option Str) (decode : Str → Option EntryV) where
    put_round-ok :
        (me : ℤ) (key : Str) (ver : ℕ) (ts mid ts' : Test W) (e : EntryV)
        → put_json ck encode decode key (record { id = me; v = ver }) ver me ts
          ≡ finished ok_text mid
        → get_json ck encode decode key me mid ≡ finished (next_version ver, e) ts'
        → e.v ≡ ver
        → put_round ck encode decode me key ver ts ≡ finished (next_version ver, true, true) ts'
    unfolding put_round
    put_round-ok me key ver ts mid ts' e h g is =
        let right : (eqb (next_version ver) (next_version ver)
              && is_wrong ck encode decode e me ver)
            ≡ false =
          ground (arith, is) in
        rw (h, g, right, put_round, ◌>>=◌) refl

    put_round-stale :
        (me : ℤ) (key : Str) (ver : ℕ) (ts mid ts' : Test W) (e : EntryV) (now : ℕ)
        → put_json ck encode decode key (record { id = me; v = ver }) ver me ts
          ≡ finished err_version mid
        → get_json ck encode decode key me mid ≡ finished (now, e) ts'
        → put_round ck encode decode me key ver ts ≡ finished (now, false, false) ts'
    unfolding put_round
    put_round-stale me key ver ts mid ts' e now h g = rw (h, g, put_round, ◌>>=◌) refl

    one_put-done :
        (fuel : ℕ) (me : ℤ) (key : Str) (ver now : ℕ) (ts ts' : Test W)
        → put_round ck encode decode me key ver ts ≡ finished (now, true, true) ts'
        → one_put ck encode decode (suc fuel) me key ver ts ≡ finished (now, true) ts'
    unfolding one_put
    one_put-done fuel me key ver now ts ts' h = rw (h, one_put, ◌>>=◌) refl

    one_put-again :
        (fuel : ℕ) (me : ℤ) (key : Str) (ver now : ℕ) (ts ts' : Test W)
        → put_round ck encode decode me key ver ts ≡ finished (now, false, false) ts'
        → one_put ck encode decode (suc fuel) me key ver ts
          ≡ one_put ck encode decode fuel me key now ts'
    unfolding one_put
    one_put-again fuel me key ver now ts ts' h = rw (h, one_put, ◌>>=◌) refl

    -- What a put that was answered by OK leaves.
    abbrev pub HasPut : ℤ → Str → ℕ → Test W → Type 0
    HasPut me key ver ts' =
        ((state_of ts'.world key).version ≡ ver + 1)
        × (decode (state_of ts'.world key).value ≡ some (record { id = me; v = ver }))

    one_put-first :
        (fuel : ℕ) (me : ℤ) (key : Str) (ver : ℕ) (ts : Test W)
        → ReadsBack encode decode
        → ver ≡ (state_of ts.world key).version
        → ver + 1 < 2 ^ 64
        → (ts' : Test W) × (one_put ck encode decode (suc fuel) me key ver ts
            ≡ finished (ver + 1, true) ts')
          × HasPut me key ver ts'
    one_put-first fuel me key ver ts reads is small =
        let entry : EntryV = record { id = me; v = ver } in
        let (text, coded, back) = reads entry in
        let (mid, put_it, st) = kv_put-ok ck state_of serves key text ver me ts is in
        let next : next_version ver ≡ ver + 1 = omega (arith, small) in
        let there : (state_of mid.world key).version ≢ 0 =
          λ q. omega (arith, next, sym (ap (λ x. x.version) st) ∙ q) in
        let read : decode (state_of mid.world key).value ≡ some entry =
          ap (λ x. decode x.value) st ∙ back in
        let (ts', got, still) =
          get_json-found ck state_of serves encode decode key me mid entry there read in
        let round =
          put_round-ok me key ver ts mid ts' entry
            (put_json-result ck state_of serves encode decode key entry ver me ts text coded
              ∙ put_it)
            (got ∙ ap (λ x. finished (x.version, entry) ts') st) refl in
        (
          ts',
          one_put-done fuel me key ver (next_version ver) ts ts' round
              ∙ ap (λ x. finished (x, true) ts') next,
          (ap (λ x. x.version) (still ∙ st) ∙ next, ap (λ x. decode x.value) still ∙ read),
        )

    -- OnePut on a key that is there, with an entry in it, ends after two rounds at most, whatever version
    -- it starts with, on a clerk that serves and when entries can be read back: it returns the next
    -- version and true, and the key has then this version and an entry of the client.
    pub one_put-ends :
        (fuel : ℕ) (me : ℤ) (key : Str) (ver now : ℕ) (old : EntryV) (ts : Test W)
        → ReadsBack encode decode
        → (state_of ts.world key).version ≡ now
        → decode (state_of ts.world key).value ≡ some old
        → now ≢ 0
        → now + 1 < 2 ^ 64
        → (ts' : Test W) × (one_put ck encode decode (suc (suc fuel)) me key ver ts
            ≡ finished (now + 1, true) ts')
          × HasPut me key now ts'
    one_put-ends fuel me key ver now old ts reads is held there small =
        elim (Bool-cases (eqb ver now)) [
          | inl hit ↦
              let at : now ≡ ver = ground (arith, hit) in
              subst
                (λ x.
                  (ts' : Test W) × (one_put ck encode decode (suc (suc fuel)) me key x ts
                    ≡ finished (now + 1, true) ts')
                  × HasPut me key now ts')
                at (one_put-first (suc fuel) me key now ts reads (sym is) small)
          | inr miss ↦
              let (text, coded, back) = reads (record { id = me; v = ver }) in
              let (mid, put_it, st) =
                kv_put-stale ck state_of serves key text ver me ts
                  (λ q. ground (arith, miss, q ∙ is)) (λ q. there (sym is ∙ q)) in
              let now_mid : (state_of mid.world key).version ≡ now = ap (λ x. x.version) st ∙ is in
              let (mid2, got, still) =
                get_json-found ck state_of serves encode decode key me mid old
                  (λ q. there (sym now_mid ∙ q)) (ap (λ x. decode x.value) st ∙ held) in
              let round =
                put_round-stale me key ver ts mid mid2 old now
                  (put_json-result ck state_of serves encode decode key _ ver me ts text coded
                    ∙ put_it)
                  (got ∙ ap (λ v. finished (v, old) mid2) now_mid) in
              let (ts', rest, has) =
                one_put-first fuel me key now mid2 reads (sym (ap (λ x. x.version) still ∙ now_mid))
                  small in
              (ts', one_put-again (suc fuel) me key ver now ts mid2 round ∙ rest, has)
        ]
