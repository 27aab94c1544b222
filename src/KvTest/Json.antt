-- ===== src/KvTest/Json.antt =====
-- kvtest1/kvtest.go: GetJson and PutJson, with a clerk that serves.
use distributed_system.Models.{KvState}
use distributed_system.KvTest.{
  Clerk, Test, finished, ◌>>=◌, kv_get, kv_put, get_json, put_json, ok_text,
}
use distributed_system.KvTest.Serving.{Serves}
use distributed_system.Prelude.{
  comparable_nat, comparable_list, Str, Option, ap, refl, some, sym, ℕ, ℤ, ◌∙◌, ◌≡◌, ◌≢◌,
}

-- What is written can be read back.
abbrev pub ReadsBack : {V : Type 0} → (V → Option Str) → (Str → Option V) → Type 0
ReadsBack {V} encode decode =
    (e : V) → (text : Str) × (encode e ≡ some text) × (decode text ≡ some e)

module _ {W : Type 0} (ck : Clerk W) (state_of : W → Str → KvState)
    (serves : Serves ck state_of) where
  kv_get-answer :
      (key : Str) (cli : ℤ) (ts : Test W)
      → (ts' : Test W) × (kv_get ck key cli ts
          ≡ finished (ck.clerk_get key (ck.since ts.world).1).0 ts')
        × (state_of ts'.world key ≡ state_of ts.world key)
  unfolding kv_get
  kv_get-answer key cli ts =
      let w1 = (ck.since ts.world).1 in
      (
        _,
        refl,
        serves.since_keeps (ck.clerk_get key w1).1 key
            ∙ serves.get_keeps key w1 key
            ∙ serves.since_keeps ts.world key,
      )

  -- A get of a key that is there.
  kv_get-found :
      (key : Str) (cli : ℤ) (ts : Test W)
      → (state_of ts.world key).version ≢ 0
      → (ts' : Test W) × (kv_get ck key cli ts
          ≡ finished ((state_of ts.world key).value, (state_of ts.world key).version, ok_text) ts')
        × (state_of ts'.world key ≡ state_of ts.world key)
  kv_get-found key cli ts there =
      let w1 = (ck.since ts.world).1 in
      let still = serves.since_keeps ts.world key in
      let value : (ck.clerk_get key w1).0.0 ≡ (state_of ts.world key).value =
        serves.get_value key w1 ∙ ap (λ st. st.value) still in
      let version : (ck.clerk_get key w1).0.1 ≡ (state_of ts.world key).version =
        serves.get_version key w1 ∙ ap (λ st. st.version) still in
      let found : (ck.clerk_get key w1).0.2 ≡ ok_text =
        serves.get_found key w1 (λ q. there (sym (ap (λ st. st.version) still) ∙ q)) in
      let (ts', e, same) = kv_get-answer key cli ts in
      (ts', e ∙ λ i. finished (value i, version i, found i) ts', same)

  module _ {V : Type 0} (encode : V → Option Str) (decode : Str → Option V) where
    get_json-result :
        (key : Str) (me : ℤ) (ts ts' : Test W) (val : Str) (ver : ℕ) (e : V)
        → kv_get ck key me ts ≡ finished (val, ver, ok_text) ts'
        → decode val ≡ some e
        → get_json ck encode decode key me ts ≡ finished (ver, e) ts'
    unfolding get_json
    get_json-result key me ts ts' val ver e h d = rw (h, d, get_json, ◌>>=◌) refl

    pub get_json-found :
        (key : Str) (me : ℤ) (ts : Test W) (e : V)
        → (state_of ts.world key).version ≢ 0
        → decode (state_of ts.world key).value ≡ some e
        → (ts' : Test W) × (get_json ck encode decode key me ts
            ≡ finished ((state_of ts.world key).version, e) ts')
          × (state_of ts'.world key ≡ state_of ts.world key)
    get_json-found key me ts e there d =
        let (ts', h, still) = kv_get-found key me ts there in
        (ts', get_json-result key me ts ts' _ _ e h d, still)

    pub put_json-result :
        (key : Str) (e : V) (ver : ℕ) (me : ℤ) (ts : Test W) (text : Str)
        → encode e ≡ some text
        → put_json ck encode decode key e ver me ts ≡ kv_put ck key text ver me ts
    unfolding put_json
    put_json-result key e ver me ts text h = rw (h, put_json) refl
