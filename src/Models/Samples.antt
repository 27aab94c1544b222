-- ===== src/Models/Samples.antt =====
-- A small history for models1/kv.go.
use distributed_system.Prelude.{
  ℕ, ◌<◌, ◌≡◌, refl, arith, true, List, [], ◌∷◌, Str, bytes, comparable_nat, comparable_list, get,
  put,
}
use distributed_system.Models.{
  Operation, init, step, by_key, insert_string, sort_strings, partition,
}
use distributed_system.Models.Versions.{accepts, ok_put-lt}
use distributed_system.Models.Partition.{IsPartition, partition-IsPartition}

program : Unit {0}
unfolding init step accepts by_key insert_string sort_strings partition get put
program = tt

abbrev put_op : Str → Str → ℕ → Str → Operation
put_op key value version err = record {
  input = record { op = 1; key = key; value = value; version = version };
  output = record { value = []; version = 0; err = err };
}

abbrev get_op : Str → Str → Operation
get_op key value = record {
  input = record { op = 0; key = key; value = []; version = 0 };
  output = record { value = value; version = 0; err = bytes "OK" };
}

abbrev first : Operation
first = put_op (bytes "k") (bytes "a") 0 (bytes "OK")

abbrev second : Operation
second = put_op (bytes "k") (bytes "b") 1 (bytes "OK")

abbrev history : List Operation
history =
    first
    ∷ get_op (bytes "k") (bytes "a")
    ∷ put_op (bytes "k") (bytes "c") 0 (bytes "ErrVersion")
    ∷ second
    ∷ []

abbrev mixed : List Operation
mixed = first ∷ get_op (bytes "j") [] ∷ second ∷ []

accepts_test : accepts init history ≡ true
unfolding program
accepts_test = refl

partition_test : partition mixed ≡ (get_op (bytes "j") [] ∷ []) ∷ (first ∷ second ∷ []) ∷ []
unfolding program
partition_test = refl

ok_put-lt_example : first.input.version < second.input.version
ok_put-lt_example =
    ok_put-lt history 0 3 first second accepts_test (omega arith) (omega arith) refl refl refl refl

partition-IsPartition_example : IsPartition mixed (partition mixed)
partition-IsPartition_example = partition-IsPartition mixed
