-- ===== src/KvTest/Samples.antt =====
-- Small tests for kvtest1/kvtest.go and kvtest1/porcupine.go, on a clerk that is a server.
use distributed_system.Prelude.{
  comparable_nat, comparable_list, comparable_int, true, false, pos, Map, Str, [], arith, eqb, get,
  if◌then◌else◌, none, put, refl, some, ℕ, ◌+◌, Bool, List, bytes, get-put, get_elem?, length, ◌∷◌,
  ◌≡◌, ◌≤◌, Option, negsuc, suc, zero, ℤ, ap,
}
use distributed_system.Models.{KvState}
use distributed_system.Models.Versions.{accepts}
use distributed_system.KvTest.{
  Clerk, Test, Result, finished, failed, running, kv_get, kv_put, put_at_least_once, check_get,
  ok_text, err_version, err_no_key, next_version, ClntRes, check_counts, make_keys, EntryV,
  put_at_least_once_json, put_json, get_json,
}
use distributed_system.KvTest.Rounds.{
  EntryN, draw_parts, spread_puts_size, put_each, check_each, one_put, put_round,
}
use distributed_system.KvTest.Appends.{
  check_appends, count_entries, count_entry, within, ns_of, Increasing, end_of,
  check_appends-Increasing, value,
}
use distributed_system.KvTest.Serving.{Serves, of_key}
use distributed_system.KvTest.Puts.{
  TestOp, a_get, a_put, test_ops, knows, test_ops-accepts, put_at_least_once-ends,
}
use distributed_system.KvTest.Json.{ReadsBack}
use distributed_system.KvTest.Tallies.{no_rounds}
use distributed_system.KvTest.Interleaved.{append_rounds, append_rounds-check_appends}
use distributed_system.KvTest.Retries.{HasPut, one_put-ends}
use distributed_system.Prelude.Decimal.{itoa}

program : Unit {0}
unfolding kv_get kv_put put_at_least_once check_get check_counts make_keys draw_parts
    spread_puts_size put_each check_each check_appends count_entries count_entry within get put itoa
    one_put put_round put_json get_json put_at_least_once_json
program = tt

-- The keys of the server, and the clock.
abbrev World : Type 0
World = Map Str KvState × ℕ

abbrev state_of : World → Str → KvState
state_of w k = elim (get w.0 k) [ none ↦ record { value = []; version = 0 } | some st ↦ st ]

abbrev put_answer : Str → Str → ℕ → World → Str × World
put_answer key value ver w =
    if eqb ver (state_of w key).version
    then (
      ok_text,
      (
        put w.0 key (record { value = value; version = next_version (state_of w key).version }),
        w.1,
      ),
    )
    else ((if eqb (state_of w key).version 0 then err_no_key else err_version), w)

abbrev server : Clerk World
server = record {
  clerk_get = λ (key : Str) (w : World). (
    (
      (state_of w key).value,
      (state_of w key).version,
      (if eqb (state_of w key).version 0 then err_no_key else ok_text),
    ),
    w,
  );
  clerk_put = put_answer;
  since = λ (w : World). (w.1, (w.0, w.1 + 1));
}

server-Serves : Serves server state_of
server-Serves = record {
  get_value = λ key w. refl;
  get_version = λ key w. refl;
  get_found = λ key w there. ground (arith, there);
  get_keeps = λ key w k. refl;
  put_ok = λ key value w. ground arith;
  put_stale = λ key value ver w ne there. ground (arith, ne, there);
  put_missing = λ key value ver w ne gone. ground (arith, ne, gone);
  put_state = λ key value ver w k. ground (
    arith,
    get-put w.0 key k (record { value = value; version = next_version (state_of w key).version }),
  );
  since_keeps = λ w k. refl;
}

abbrev begun : Test World
begun = record { world = ([], 0); oplog = []; ops = 0 }

abbrev key_x : Str
key_x = bytes "x"

abbrev some_ops : List TestOp
some_ops =
    a_put key_x (bytes "1") 0 (pos 0) ∷ a_put key_x (bytes "2") 0 (pos 1) ∷ a_get key_x (pos 1) ∷ []

some_knows : knows server state_of server-Serves some_ops begun ≡ true
unfolding program
some_knows = refl

test_ops-accepts_example :
    (ts' : Test World) × (test_ops server some_ops begun ≡ finished tt ts')
    × ((key : Str) → accepts (state_of ([], 0) key) (of_key key ts'.oplog) ≡ true)
test_ops-accepts_example =
    test_ops-accepts server state_of server-Serves some_ops ([], 0) 0 some_knows

-- The key has the version 2 when a client tries 0, 1 and 2.
abbrev two_puts : Test World
two_puts = record begun { world = ((key_x, record { value = bytes "b"; version = 2 }) ∷ [], 0) }

two_version : (state_of two_puts.world key_x).version ≡ 0 + 2
unfolding program
two_version = refl

put_at_least_once-ends_example :
    (ts' : Test World) × (put_at_least_once server 3 key_x (bytes "c") 0 (pos 0) two_puts
      ≡ finished (0 + 2 + 1) ts')
    × (state_of ts'.world key_x ≡ record { value = bytes "c"; version = 0 + 2 + 1 })
    × (ts'.ops ≡ two_puts.ops + 2 + 1)
put_at_least_once-ends_example =
    put_at_least_once-ends server state_of server-Serves 2 3 key_x (bytes "c") 0 (pos 0) two_puts
      two_version (omega arith) (omega arith)

-- Client 0 has the numbers 0 and 2, with one put in doubt, and client 1 the number 0.
abbrev entries : List EntryN
entries = record { id = 0; n = 0 } ∷ record { id = 1; n = 0 } ∷ record { id = 0; n = 2 } ∷ []

abbrev results : List ClntRes
results = record { nok = 2; nmaybe = 1 } ∷ record { nok = 1; nmaybe = 0 } ∷ []

checked : check_appends entries 2 results 4 ≡ true
unfolding program
checked = refl

check_appends-Increasing_example :
    (length entries + 1 ≡ 4)
    × ((c : ℕ) (r : ClntRes)
        → get_elem? results c ≡ some r
        → Increasing 0 (ns_of c entries)
          × (end_of 0 (ns_of c entries) ≤ r.nok + r.nmaybe)
          × (end_of 0 (ns_of c entries) ≤ length (ns_of c entries) + r.nmaybe))
check_appends-Increasing_example = check_appends-Increasing entries 2 results 4 checked

-- An old number is refused.
old_test :
    check_appends (record { id = 0; n = 1 } ∷ record { id = 0; n = 0 } ∷ []) 1 results 3 ≡ false
unfolding program
old_test = refl

keys_test : make_keys 2 ≡ bytes "k0" ∷ bytes "k1" ∷ []
unfolding program
keys_test = refl

parts_test : draw_parts 0 (4 ∷ 7 ∷ 2 ∷ []) ≡ (0 ∷ 2 ∷ [], 1 ∷ [])
unfolding program
parts_test = refl

abbrev is_finished : {A : Type 0} → Result World A → Bool
is_finished (finished a ts) = true
is_finished failed = false
is_finished running = false

spread_test :
    is_finished
      (spread_puts_size server ((bytes "k0", bytes "v") ∷ (bytes "k1", bytes "w") ∷ []) begun)
    ≡ true
unfolding program
spread_test = refl

-- A sign, a number and a version.
abbrev encoded : EntryV → Str
encoded e = elim e.id [ pos n ↦ 0 ∷ n ∷ e.v ∷ [] | negsuc n ↦ 1 ∷ n ∷ e.v ∷ [] ]

abbrev decoded : Str → Option EntryV
decoded (zero ∷ n ∷ v ∷ []) = some (record { id = pos n; v = v })
decoded (suc s ∷ n ∷ v ∷ []) = some (record { id = negsuc n; v = v })
decoded _ = none

decoded-encoded :
    (i : ℤ) (n : ℕ) → decoded (encoded (record { id = i; v = n })) ≡ some (record { id = i; v = n })
decoded-encoded (pos k) n = refl
decoded-encoded (negsuc k) n = refl

encoded-ReadsBack : ReadsBack (λ (e : EntryV). some (encoded e)) decoded
encoded-ReadsBack e = (encoded e, refl, decoded-encoded e.id e.v)

-- The key has the version 2 and an entry of client 1.
abbrev one_entry : Test World
one_entry = record begun {
  world = ((key_x, record { value = encoded (record { id = pos 1; v = 1 }); version = 2 }) ∷ [], 0);
}

entry_version : (state_of one_entry.world key_x).version ≡ 2
unfolding program
entry_version = refl

entry_held : decoded (state_of one_entry.world key_x).value ≡ some (record { id = pos 1; v = 1 })
unfolding program
entry_held = refl

-- A put of a wrong version reads the version and tries again.
one_put-ends_example :
    (ts' : Test World) × (one_put server
        (λ (e : EntryV). some (encoded e))
        decoded
        2
        (pos 0)
        key_x
        7
        one_entry
      ≡ finished (2 + 1, true) ts')
    × HasPut server state_of server-Serves
        (λ (e : EntryV). some (encoded e))
        decoded
        (pos 0)
        key_x
        2
        ts'
one_put-ends_example =
    one_put-ends server state_of server-Serves (λ (e : EntryV). some (encoded e)) decoded 0 (pos 0)
      key_x 7 2 (record { id = pos 1; v = 1 }) one_entry encoded-ReadsBack entry_version entry_held
      (λ e. omega (arith, e)) (omega arith)

abbrev doubtful : ClntRes
doubtful = record { nok = 2; nmaybe = 1 }

counts_test : check_counts 3 doubtful true ≡ false
unfolding program
counts_test = refl

unreliable_counts_test : check_counts 3 doubtful false ≡ true
unfolding program
unreliable_counts_test = refl

-- Two numbers for each entry.
abbrev written : List EntryN → Str
written [] = []
written (e ∷ es) = e.id ∷ e.n ∷ written es

abbrev read_entries : Str → Option (List EntryN)
read_entries [] = some []
read_entries (i ∷ []) = none
read_entries (i ∷ n ∷ rest) = elim (read_entries rest) [
  | none ↦ none
  | some es ↦ some (record { id = i; n = n } ∷ es)
]

read_entries-written : (es : List EntryN) → read_entries (written es) ≡ some es
read_entries-written [] = refl
read_entries-written (e ∷ es) =
    ap (λ r. elim r [ none ↦ none | some es' ↦ some (record { id = e.id; n = e.n } ∷ es') ])
      (read_entries-written es)

written-ReadsBack : ReadsBack (λ (es : List EntryN). some (written es)) read_entries
written-ReadsBack es = (written es, refl, read_entries-written es)

-- The list is empty.
abbrev no_entries : Test World
no_entries = record begun { world = ((bytes "k", record { value = []; version = 1 }) ∷ [], 0) }

no_entries_version : (state_of no_entries.world (bytes "k")).version ≡ 1
unfolding program
no_entries_version = refl

no_entries_held : read_entries (state_of no_entries.world (bytes "k")).value ≡ some []
unfolding program
no_entries_held = refl

-- Clients 0 and 1 append by turns.
append_rounds-check_appends_example :
    (rs : List ClntRes) × (ts' : Test World) × (ts'' : Test World) × (ver : ℕ) × (es : List EntryN)
    × (append_rounds server
          (λ (es : List EntryN). some (written es))
          read_entries
          1
          (0 ∷ 1 ∷ 0 ∷ [])
          (no_rounds 2)
          no_entries
        ≡ finished rs ts')
    × (get_json server
          (λ (es : List EntryN). some (written es))
          read_entries
          (bytes "k")
          (pos 0)
          ts'
        ≡ finished (ver, es) ts'')
    × (length es ≡ 3)
    × (check_appends es 2 rs ver ≡ true)
append_rounds-check_appends_example =
    append_rounds-check_appends server (λ (es : List EntryN). some (written es)) read_entries
      state_of server-Serves 0 2 (0 ∷ 1 ∷ 0 ∷ []) (pos 0) no_entries written-ReadsBack
      (omega arith, (omega arith, (omega arith, tt))) no_entries_version no_entries_held
      (omega arith)
