-- ===== src/KvTest/Interleaved.antt =====
-- kvtest1/kvtest.go: `CheckAppends` after rounds of OneClientAppend of several clients, one round after
-- the other, with a clerk that serves.
use distributed_system.Models.{KvState}
use distributed_system.KvTest.{
  Clerk, Test, Run, finished, pure, fail, ◌>>=◌, get_json, put_json, ok_text, ClntRes,
}
use distributed_system.KvTest.Serving.{Serves}
use distributed_system.KvTest.Json.{ReadsBack, get_json-found, put_json-result}
use distributed_system.KvTest.Puts.{kv_put-ok}
use distributed_system.KvTest.Rounds.{EntryN, append_one, tallied}
use distributed_system.KvTest.Appends.{Seen, check_appends}
use distributed_system.KvTest.Tallies.{
  next_round, Agree, no_rounds, Agree-tallied, Agree-begun, Agree-check_appends,
}
use distributed_system.Prelude.{
  comparable_nat, comparable_list, List, Str, arith, All, [], get_elem?, refl, set, some, true, ℕ,
  ◌++◌, ◌+◌, ◌∙◌, ◌∷◌, ◌≡◌, ap, none, sym, get_elem?-some, length, length-replicate, suc, ◌<◌,
  Option, bytes, length-append, length-set, pos, ℤ, ◌^◌,
}

module _ {W : Type 0} (ck : Clerk W) (encode : List EntryN → Option Str)
    (decode : Str → Option (List EntryN)) where
  -- A round of a client. Its number is that of the rounds that the client has counted.
  abbrev append_round : ℕ → ℕ → List ClntRes → Run W (List ClntRes)
  append_round fuel c rs = elim (get_elem? rs c) [
    | none ↦ fail
    | some r ↦ do
      is_ok ← append_one ck encode decode fuel c (next_round r)
      pure (set rs c (tallied is_ok r))
  ]

  -- Rounds of the clients of a list, one after the other.
  abbrev pub append_rounds : ℕ → List ℕ → List ClntRes → Run W (List ClntRes)
  append_rounds fuel [] rs = pure rs
  append_rounds fuel (c ∷ cs) rs = append_round fuel c rs >>= append_rounds fuel cs

  append_one-result :
      (fuel me i ver : ℕ) (ts mid ts' : Test W) (es : List EntryN)
      → get_json ck encode decode (bytes "k") (pos me) ts ≡ finished (ver, es) mid
      → put_json ck encode decode
          (bytes "k")
          (es ++ record { id = me; n = i } ∷ [])
          ver
          (pos me)
          mid
        ≡ finished ok_text ts'
      → append_one ck encode decode (suc fuel) me i ts ≡ finished true ts'
  unfolding append_one
  append_one-result fuel me i ver ts mid ts' es g h = rw (g, h, append_one, ◌>>=◌) refl

  append_round-result :
      (fuel c : ℕ) (rs : List ClntRes) (r : ClntRes) (ts ts' : Test W)
      → get_elem? rs c ≡ some r
      → append_one ck encode decode fuel c (next_round r) ts ≡ finished true ts'
      → append_round fuel c rs ts ≡ finished (set rs c (tallied true r)) ts'
  append_round-result fuel c rs r ts ts' at h = rw (at, h, append_round, ◌>>=◌) refl

  module _ (state_of : W → Str → KvState) (serves : Serves ck state_of) where
    -- The key has these entries, and has been put once for each and once before.
    abbrev Stores : List EntryN → Test W → Type 0
    Stores es ts =
        ((state_of ts.world (bytes "k")).version ≡ length es + 1)
        × (decode (state_of ts.world (bytes "k")).value ≡ some es)

    append_one-Stores :
        (fuel me i : ℕ) (es : List EntryN) (ts : Test W)
        → ReadsBack encode decode
        → Stores es ts
        → length es + 2 < 2 ^ 64
        → (ts' : Test W) × (append_one ck encode decode (suc fuel) me i ts ≡ finished true ts')
          × Stores (es ++ record { id = me; n = i } ∷ []) ts'
    append_one-Stores fuel me i es ts reads (ver, held) small =
        let entry : EntryN = record { id = me; n = i } in
        let (mid, got, still) =
          get_json-found ck state_of serves encode decode (bytes "k") (pos me) ts es
            (λ q. omega (arith, q, ver)) held in
        let (text, coded, back) = reads (es ++ entry ∷ []) in
        let same : length es + 1 ≡ (state_of mid.world (bytes "k")).version =
          sym (ap (λ st. st.version) still ∙ ver) in
        let (ts', put_it, st) =
          kv_put-ok ck state_of serves (bytes "k") text (length es + 1) (pos me) mid same in
        let size = length-append es (entry ∷ []) in
        (
          ts',
          append_one-result fuel me i (length es + 1) ts mid ts' es
              (got ∙ ap (λ v. finished (v, es) mid) ver)
              (put_json-result ck state_of serves encode decode (bytes "k") _ _ (pos me) mid text
                  coded
                ∙ put_it),
          (ap (λ x. x.version) st ∙ omega (arith, small, size), ap (λ x. decode x.value) st ∙ back),
        )

    append_rounds-Agree :
        (fuel n : ℕ) (cs : List ℕ) (es : List EntryN) (rs : List ClntRes) (seen : Seen)
        (ts : Test W)
        → ReadsBack encode decode
        → All (λ c. c < n) cs
        → length rs ≡ n
        → Stores es ts
        → Agree n es rs seen
        → length es + length cs + 1 < 2 ^ 64
        → (rs' : List ClntRes) × (ts' : Test W) × (es' : List EntryN) × (seen' : Seen)
          × (append_rounds (suc fuel) cs rs ts ≡ finished rs' ts')
          × Stores es' ts'
          × (length es' ≡ length es + length cs)
          × Agree n es' rs' seen'
    append_rounds-Agree fuel n [] es rs seen ts reads below size stored h small =
        (rs, ts, es, seen, refl, stored, omega arith, h)
    append_rounds-Agree fuel n (c ∷ cs) es rs seen ts reads (lt, below) size stored h small =
        let (r, at) = get_elem?-some rs c (omega (arith, lt, size)) in
        let entry : EntryN = record { id = c; n = next_round r } in
        let (mid, put_it, stored1) =
          append_one-Stores fuel c (next_round r) es ts reads stored (omega (arith, small)) in
        let (seen1, h1) = Agree-tallied n es rs seen c r h at in
        let longer = length-append es (entry ∷ []) in
        let (rs', ts', es', seen', e, stored', size', h') =
          append_rounds-Agree fuel n cs (es ++ entry ∷ []) (set rs c (tallied true r)) seen1 mid
            reads below (length-set rs c (tallied true r) ∙ size) stored1 h1
            (omega (arith, small, longer)) in
        let round = append_round-result (suc fuel) c rs r ts mid at put_it in
        (
          rs',
          ts',
          es',
          seen',
          rw (round, append_rounds, ◌>>=◌) e,
          stored',
          omega (arith, size', longer),
          h',
        )

    -- When the list of entries under "k" is empty at first, rounds of OneClientAppend by any clients, in
    -- any order and one after the other, all end at their first try, on a clerk that serves, when entries
    -- can be read back and the puts are fewer than 2^64; then a get gives a list with one entry for each
    -- round, and CheckAppends accepts it with the results of the clients.
    pub append_rounds-check_appends :
        (fuel n : ℕ) (cs : List ℕ) (me : ℤ) (ts : Test W)
        → ReadsBack encode decode
        → All (λ c. c < n) cs
        → (state_of ts.world (bytes "k")).version ≡ 1
        → decode (state_of ts.world (bytes "k")).value ≡ some []
        → length cs + 1 < 2 ^ 64
        → (rs : List ClntRes) × (ts' : Test W) × (ts'' : Test W) × (ver : ℕ) × (es : List EntryN)
          × (append_rounds (suc fuel) cs (no_rounds n) ts ≡ finished rs ts')
          × (get_json ck encode decode (bytes "k") me ts' ≡ finished (ver, es) ts'')
          × (length es ≡ length cs)
          × (check_appends es n rs ver ≡ true)
    append_rounds-check_appends fuel n cs me ts reads below first held small =
        let (rs, ts', es, seen, e, (ver, kept), size, h) =
          append_rounds-Agree fuel n cs [] (no_rounds n) _ ts reads below
            (length-replicate n (record { nok = 0; nmaybe = 0 })) (first, held) (Agree-begun n)
            (omega (arith, small)) in
        let (ts'', got, still) =
          get_json-found ck state_of serves encode decode (bytes "k") me ts' es
            (λ q. omega (arith, q, ver)) kept in
        (
          rs,
          ts',
          ts'',
          length es + 1,
          es,
          e,
          got ∙ ap (λ v. finished (v, es) ts'') ver,
          size ∙ omega arith,
          Agree-check_appends n es rs seen h,
        )
