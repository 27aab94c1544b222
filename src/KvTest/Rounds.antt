-- ===== src/KvTest/Rounds.antt =====
-- kvtest1/kvtest.go: what the clients of a test do in their rounds.
use distributed_system.Prelude.{
  comparable_nat, comparable_list, comparable_int, true, false, ℤ, pos, negsuc, Bool, List, Map,
  Option, Str, [], bytes, eqb, get, get_elem?, if◌then◌else◌, length, map, none, not, put, some,
  suc, zero, ℕ, ◌%◌, ◌&&◌, ◌++◌, ◌+◌, ◌==◌, ◌||◌, ◌∷◌,
}
use distributed_system.KvTest.{
  Clerk, Run, finished, pure, fail, still_running, ◌>>=◌, ◌>>◌, ok_text, err_version, err_maybe,
  check_get, get_json, put_json, ClntRes, add_results, check_counts, EntryV, next_version,
}

-- What a round of `OneClientPut` counts.
abbrev counted : Bool → ClntRes → ClntRes
counted true res = record res { nok = res.nok + 1 }
counted false res = record res { nmaybe = res.nmaybe + 1 }

module _ {W : Type 0} (ck : Clerk W) (encode : EntryV → Option Str)
    (decode : Str → Option EntryV) where
  abbrev judge : ℕ → ClntRes → Bool → Run W ClntRes
  judge ver0 sum reliable = if check_counts ver0 sum reliable then pure sum else fail

  unfoldable pub check_put_concurrent : Str → List ClntRes → ClntRes → Bool → Run W ClntRes
  check_put_concurrent key rs res reliable = do
    (ver0, e) ← get_json ck encode decode key (negsuc 0)
    judge ver0 (add_results res rs) reliable

  -- A value of the client that its put of the version `ver` cannot have left.
  abbrev pub is_wrong : EntryV → ℤ → ℕ → Bool
  is_wrong e me ver = not (e.id == me) && not (eqb e.v ver)

  -- A round of `OnePut`: the version that was read, and whether the put ends the loop, and as OK.
  unfoldable pub put_round : ℤ → Str → ℕ → Run W (ℕ × Bool × Bool)
  put_round me key ver = do
    err ← put_json ck encode decode key (record { id = me; v = ver }) ver me
    elim (err == ok_text || (err == err_version || err == err_maybe)) [
      | false ↦ fail
      | true ↦ do
        (ver0, e) ← get_json ck encode decode key me
        elim (err == ok_text && (eqb ver0 (next_version ver) && is_wrong e me ver)) [
          | true ↦ fail
          | false ↦ pure (ver0, err == ok_text || err == err_maybe, err == ok_text)
        ]
    ]

  unfoldable pub one_put : ℕ → ℤ → Str → ℕ → Run W (ℕ × Bool)
  one_put zero me key ver = still_running
  one_put (suc fuel) me key ver = do
    (ver0, ends, is_ok) ← put_round me key ver
    elim ends [ true ↦ pure (ver0, is_ok) | false ↦ one_put fuel me key ver0 ]

  abbrev pick_key : Bool → ℕ → List Str → Option Str
  pick_key randomkeys draw ka =
      if randomkeys then get_elem? ka (draw % length ka) else get_elem? ka 0

  abbrev version_at : Map Str ℕ → Str → ℕ
  version_at verm k = elim (get verm k) [ none ↦ 0 | some ver ↦ ver ]

  -- Rounds of `OneClientPut` until the signal that the test is done: a random number for each.
  unfoldable pub put_rounds : ℕ → ℤ → Bool → List Str → List ℕ → Map Str ℕ → ClntRes → Run W ClntRes
  put_rounds fuel cli randomkeys ka [] verm res = pure res
  put_rounds fuel cli randomkeys ka (draw ∷ draws) verm res = elim (pick_key randomkeys draw ka) [
    | none ↦ fail
    | some k ↦ do
      (ver, is_ok) ← one_put fuel cli k (version_at verm k)
      put_rounds fuel cli randomkeys ka draws (put verm k ver) (counted is_ok res)
  ]

  unfoldable pub one_client_put : ℕ → ℤ → Bool → List Str → List ℕ → Run W ClntRes
  one_client_put fuel cli randomkeys ka draws =
      put_rounds fuel cli randomkeys ka draws (map (λ (k : Str). (k, 0)) ka)
        (record { nok = 0; nmaybe = 0 })

module _ {W : Type 0} (ck : Clerk W) where
  -- The two loops of `SpreadPutsSize`, on keys with their random values.
  unfoldable pub put_each : List (Str × Str) → Run W (Unit {0})
  put_each [] ts = finished tt ts
  put_each ((k, v) ∷ rest) ts =
      let (err, w) = ck.clerk_put k v 0 ts.world in put_each rest (record ts { world = w })

  unfoldable pub check_each : List (Str × Str) → Run W (Unit {0})
  check_each [] = pure tt
  check_each ((k, v) ∷ rest) = check_get ck k v 1 >> check_each rest

  unfoldable pub spread_puts_size : List (Str × Str) → Run W (Unit {0})
  spread_puts_size kvs = put_each kvs >> check_each kvs

-- What a round of `OneClientAppend` counts.
abbrev pub tallied : Bool → ClntRes → ClntRes
tallied true res = record res { nok = res.nok + 1 }
tallied false res = record res { nmaybe = res.nmaybe + 1 }

-- An entry of an append test; clients and rounds count from 0.
pub record EntryN : Type 0 where
  pub id : ℕ
  pub n : ℕ

module _ {W : Type 0} (ck : Clerk W) (encode : List EntryN → Option Str)
    (decode : Str → Option (List EntryN)) where
  -- The inner loop of `OneClientAppend`: whether the put of the entry was answered by OK.
  unfoldable pub append_one : ℕ → ℕ → ℕ → Run W Bool
  append_one zero me i = still_running
  append_one (suc fuel) me i = do
    (ver, es) ← get_json ck encode decode (bytes "k") (pos me)
    err ← put_json ck encode decode (bytes "k") (es ++ record { id = me; n = i } ∷ []) ver (pos me)
    elim (err == ok_text) [
      | true ↦ pure true
      | false ↦ elim (err == err_maybe) [ true ↦ pure false | false ↦ append_one fuel me i ]
    ]

  -- Rounds `i` and on, `k` of them.
  unfoldable pub one_client_append : ℕ → ℕ → ℕ → ℕ → ClntRes → Run W ClntRes
  one_client_append fuel me i zero res = pure res
  one_client_append fuel me i (suc k) res = do
    is_ok ← append_one fuel me i
    one_client_append fuel me (i + 1) k (tallied is_ok res)

-- What `Partitioner` makes of a random number for each server, from server `i` on.
unfoldable pub draw_parts : ℕ → List ℕ → List ℕ × List ℕ
draw_parts i [] = ([], [])
draw_parts i (draw ∷ draws) =
    let (p0, p1) = draw_parts (i + 1) draws in
    if eqb (draw % 2) 0 then (i ∷ p0, p1) else (p0, i ∷ p1)
