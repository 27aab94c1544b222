-- ===== src/Models.antt =====
-- models1/kv.go: the model of a key/value server that the linearizability checker runs. A version is
-- a uint64, which wraps around.
pub mod Versions
pub mod Partition
mod Samples
use distributed_system.Prelude.{
  str_lt, ℕ, zero, suc, ◌+◌, ◌%◌, ◌^◌, Bool, true, false, ◌&&◌, ◌||◌, Option, none, some, List, [],
  ◌∷◌, ◌++◌, map, ltb, eqb, if◌then◌else◌, ◌==◌, Str, bytes, comparable_nat, comparable_list, Map,
  get, put, keys,
}

pub record KvInput : Type 0 where
  -- 0 is a get, 1 is a put
  pub op : ℕ
  pub key : Str
  pub value : Str
  pub version : ℕ

pub record KvOutput : Type 0 where
  pub value : Str
  pub version : ℕ
  pub err : Str

pub record KvState : Type 0 where
  pub value : Str
  pub version : ℕ

-- `porcupine.Operation`, as far as the model reads it.
pub record Operation : Type 0 where
  pub input : KvInput
  pub output : KvOutput

unfoldable pub init : KvState
init = record { value = []; version = 0 }

-- `Step`: whether the output is allowed, and the next state; `none` is the state "<invalid>".
unfoldable pub step : KvState → KvInput → KvOutput → Bool × Option KvState
step st inp out =
    if eqb inp.op 0
    then (out.value == st.value, some st)
    else if eqb inp.op 1
    then (if eqb st.version inp.version
        then (
          out.err == bytes "OK" || out.err == bytes "ErrMaybe",
          some (record { value = inp.value; version = (st.version + 1) % 2 ^ 64 }),
        )
        else (out.err == bytes "ErrVersion" || out.err == bytes "ErrMaybe", some st))
    else (false, none)

-- The first loop of `Partition`: the operations by key.
unfoldable pub by_key : List Operation → Map Str (List Operation) → Map Str (List Operation)
by_key [] m = m
by_key (o ∷ history) m =
    let k = o.input.key in
    let old : List Operation = elim (get m k) [ none ↦ [] | some os ↦ os ] in
    by_key history (put m k (old ++ o ∷ []))

unfoldable pub insert_string : Str → List Str → List Str
insert_string k [] = k ∷ []
insert_string k (x ∷ ks) =
    let rest = insert_string k ks in if str_lt x k then x ∷ rest else k ∷ x ∷ ks

-- `sort.Strings`
unfoldable pub sort_strings : List Str → List Str
sort_strings [] = []
sort_strings (k ∷ ks) = insert_string k (sort_strings ks)

unfoldable pub partition : List Operation → List (List Operation)
partition history =
    let m = by_key history [] in
    map (λ k. elim (get m k) [ none ↦ [] | some os ↦ os ]) (sort_strings (keys m))
