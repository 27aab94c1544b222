-- ===== src/KvTest.antt =====
-- kvtest1/kvtest.go and kvtest1/porcupine.go: the harness of the key/value tests. What the clerk does
-- is an interface over a state `W` of its own. Loops that the source bounds by the time run on fuel.
-- Annotations are left out. A version is a uint64.
pub mod Rounds
pub mod Appends
pub mod Serving
pub mod Puts
pub mod Json
pub mod Retries
pub mod Tallies
pub mod Interleaved
mod Samples
use distributed_system.Prelude.{
  comparable_nat, comparable_list, comparable_int, true, false, ℤ, pos, negsuc, Bool, List, Option,
  Str, [], bytes, eqb, ids_from, if◌then◌else◌, leb, map, none, some, suc, zero, ℕ, ◌%◌, ◌&&◌, ◌++◌,
  ◌+◌, ◌==◌, ◌^◌, ◌||◌, ◌∷◌,
}
use distributed_system.Models.{KvInput, KvOutput, Operation}
use distributed_system.Prelude.Decimal.{itoa}

-- IKVClerk, and the clock `time.Since(t0)`.
pub record Clerk (W : Type 0) : Type 0 where
  pub clerk_get : Str → W → (Str × ℕ × Str) × W
  pub clerk_put : Str → Str → ℕ → W → Str × W
  pub since : W → ℕ × W

-- `porcupine.Operation`; its `operation` is what the model of models1/kv.go reads.
pub record Logged : Type 0 where
  pub operation : Operation
  pub called : ℕ
  pub returned_at : ℕ
  pub client_id : ℤ

-- `oplog` is never nil, and `ops` counts as Config.Op does.
pub record Test (W : Type 0) : Type 0 where
  pub world : W
  pub oplog : List Logged
  pub ops : ℕ

-- `failed` is a fatal error or a panic, `running` is a loop that has not come to its end.
pub data Result (W A : Type 0) : Type 0 where
  finished : A → Test W → Result W A
  failed : Result W A
  running : Result W A

abbrev pub Run : Type 0 → Type 0 → Type 0
Run W A = Test W → Result W A

module _ {W A : Type 0} where
  abbrev pub pure : A → Run W A
  pure a ts = finished a ts

  abbrev pub fail : Run W A
  fail ts = failed

  abbrev pub still_running : Run W A
  still_running ts = running

module _ {W A B : Type 0} where
  infixl 5 ◌>>=◌ ◌>>◌
  abbrev pub ◌>>=◌ : Run W A → (A → Run W B) → Run W B
  ◌>>=◌ m f ts = elim (m ts) [ finished a ts' ↦ f a ts' | failed ↦ failed | running ↦ running ]

  abbrev pub ◌>>◌ : Run W A → Run W B → Run W B
  m >> n = m >>= λ _. n

abbrev pub ok_text : Str
ok_text = bytes "OK"

abbrev pub err_version : Str
err_version = bytes "ErrVersion"

abbrev pub err_no_key : Str
err_no_key = bytes "ErrNoKey"

abbrev pub err_maybe : Str
err_maybe = bytes "ErrMaybe"

abbrev pub next_version : ℕ → ℕ
next_version ver = (ver + 1) % 2 ^ 64

abbrev pub append_op : Logged → List Logged → List Logged
append_op op log = log ++ op ∷ []

module _ {W : Type 0} (ck : Clerk W) where
  -- `Get` with a log.
  unfoldable pub kv_get : Str → ℤ → Run W (Str × ℕ × Str)
  kv_get key cli ts =
      let (start, w1) = ck.since ts.world in
      let ((val, ver, err), w2) = ck.clerk_get key w1 in
      let (end, w3) = ck.since w2 in
      finished (val, ver, err)
        (record {
          world = w3;
          oplog =
              append_op
                (record {
                  operation = record {
                    input = record { op = 0; key = key; value = []; version = 0 };
                    output = record { value = val; version = ver; err = err };
                  };
                  called = start;
                  returned_at = end;
                  client_id = cli;
                })
                ts.oplog;
          ops = ts.ops + 1;
        })

  -- `Put` with a log.
  unfoldable pub kv_put : Str → Str → ℕ → ℤ → Run W Str
  kv_put key value version cli ts =
      let (start, w1) = ck.since ts.world in
      let (err, w2) = ck.clerk_put key value version w1 in
      let (end, w3) = ck.since w2 in
      finished err (record {
        world = w3;
        oplog =
            append_op
              (record {
                operation = record {
                  input = record { op = 1; key = key; value = value; version = version };
                  output = record { value = []; version = 0; err = err };
                };
                called = start;
                returned_at = end;
                client_id = cli;
              })
              ts.oplog;
        ops = ts.ops + 1;
      })

  -- The methods of a test, with its own log.
  abbrev pub test_get : Str → ℤ → Run W (Str × ℕ × Str)
  test_get = kv_get

  abbrev pub test_put : Str → Str → ℕ → ℤ → Run W Str
  test_put = kv_put

  unfoldable pub put_at_least_once : ℕ → Str → Str → ℕ → ℤ → Run W ℕ
  put_at_least_once zero key value ver me = still_running
  put_at_least_once (suc fuel) key value ver me = do
    err ← test_put key value ver me
    elim (err == ok_text) [
      | true ↦ pure (next_version ver)
      | false ↦ elim (err == err_maybe || err == err_version) [
        | true ↦ put_at_least_once fuel key value (next_version ver) me
        | false ↦ elim (eqb ver 0) [ false ↦ fail | true ↦ put_at_least_once fuel key value ver me ]
      ]
    ]

  unfoldable pub check_get : Str → Str → ℕ → Run W (Unit {0})
  check_get key value version = do
    (val, ver, err) ← test_get key (pos 0)
    if err == ok_text && (val == value && eqb ver version) then pure tt else fail

  -- A value as encoding/json reads and writes it.
  module _ {V : Type 0} (encode : V → Option Str) (decode : Str → Option V) where
    unfoldable pub get_json : Str → ℤ → Run W (ℕ × V)
    get_json key me = do
      (val, ver, err) ← kv_get key me
      elim (err == ok_text) [
        | false ↦ fail
        | true ↦ elim (decode val) [ none ↦ fail | some v ↦ pure (ver, v) ]
      ]

    unfoldable pub put_json : Str → V → ℕ → ℤ → Run W Str
    put_json key v ver me = elim (encode v) [ none ↦ fail | some text ↦ kv_put key text ver me ]

    -- The put is always at the version 0.
    unfoldable pub put_at_least_once_json : ℕ → Str → V → ℕ → ℤ → Run W ℕ
    put_at_least_once_json zero key value ver me = still_running
    put_at_least_once_json (suc fuel) key value ver me = do
      err ← put_json key value 0 me
      elim (err == err_maybe) [
        | false ↦ pure ver
        | true ↦ put_at_least_once_json fuel key value (next_version ver) me
      ]

-- The counts of a client: puts that were answered by OK, and by ErrMaybe.
pub record ClntRes : Type 0 where
  pub nok : ℕ
  pub nmaybe : ℕ

abbrev pub add_results : ClntRes → List ClntRes → ClntRes
add_results res [] = res
add_results res (r ∷ rs) =
    add_results (record { nok = res.nok + r.nok; nmaybe = res.nmaybe + r.nmaybe }) rs

-- The counts of a test are below 2^64.
unfoldable pub check_counts : ℕ → ClntRes → Bool → Bool
check_counts ver0 res reliable =
    if reliable then eqb ver0 res.nok else leb ver0 (res.nok + res.nmaybe)

unfoldable pub make_keys : ℕ → List Str
make_keys n = map (λ (i : ℕ). b'k' ∷ itoa i) (ids_from 0 n)

pub record EntryV : Type 0 where
  pub id : ℤ
  pub v : ℕ
