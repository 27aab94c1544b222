-- ===== src/Mr/Worker/Buckets.antt =====
-- The buckets of writeIntermediate in mr/worker.go: bucket `r` holds the entries whose key hashes
-- to `r`, in their order.
use distributed_system.Prelude.{
  ◌∷◌, ◌++◌, arith, All, length, get_elem?, set, replicate, length-set, length-replicate,
  get_elem?-some, get_elem?-set_self, get_elem?-set_ne, if◌then◌else◌, Bool-cases, eqb, eqb_iff,
  ◌==◌, Str, comparable_nat, comparable_list, List, [], ap, inl, inr, refl, some, subst, suc, sym,
  zero, ℕ, ◌%◌, ◌<◌, ◌∙◌, ◌≡◌, ◌≢◌,
}
use mathlib.Core.List.{append_assoc, append-nil}
use distributed_system.Mr.Worker.{KeyValue, ihash, dispatch}
use distributed_system.Mr.Worker.Grouping.{values_of}

unfoldable pub bucket : ℕ → ℕ → List KeyValue → List KeyValue
bucket n r [] = []
bucket n r (kv ∷ kvs) = if eqb (ihash kv.key % n) r then kv ∷ bucket n r kvs else bucket n r kvs

dispatch-append :
    (n r : ℕ) (kvs : List KeyValue) (buckets : List (List KeyValue)) (old : List KeyValue)
    → 0 < n
    → length buckets ≡ n
    → get_elem? buckets r ≡ some old
    → get_elem? (dispatch n kvs buckets) r ≡ some (old ++ bucket n r kvs)
unfolding dispatch bucket
dispatch-append n r [] buckets old pos_n size e = e ∙ ap some (sym (append-nil old))
dispatch-append n r (kv ∷ kvs) buckets old pos_n size e =
    let r' = ihash kv.key % n in
    let (b, found) = get_elem?-some buckets r' (ground arith) in
    let next = set buckets r' (b ++ kv ∷ []) in
    let size' : length next ≡ n = length-set buckets r' (b ++ kv ∷ []) ∙ size in
    elim (Bool-cases (eqb r' r)) [
      | inl hit ↦
          let same : r' ≡ r = (eqb_iff r' r).0 hit in
          let e' : b ≡ old = ground (arith, found, same, e) in
          let here : get_elem? next r ≡ some (old ++ kv ∷ []) =
            subst (λ i. get_elem? next i ≡ some (old ++ kv ∷ [])) same
              (get_elem?-set_self buckets r' (b ++ kv ∷ []) (ground arith)
                ∙ ap (λ l. some (l ++ kv ∷ [])) e') in
          rw (found, hit)
            (dispatch-append n r kvs next (old ++ kv ∷ []) pos_n size' here
              ∙ ap some (append_assoc old (kv ∷ []) (bucket n r kvs)))
      | inr miss ↦
          let ne : r' ≢ r = λ q. cc ((eqb_iff r' r).1 q, miss) in
          rw (found, miss)
            (dispatch-append n r kvs next old pos_n size'
              (get_elem?-set_ne buckets r' r (b ++ kv ∷ []) ne ∙ e))
    ]

get_elem?-replicate : (n r : ℕ) → r < n → get_elem? {A = List KeyValue} (replicate n []) r ≡ some []
get_elem?-replicate zero r h = elim h [ ]
get_elem?-replicate (suc n) zero h = refl
get_elem?-replicate (suc n) (suc r) h = get_elem?-replicate n r (omega arith)

pub length-dispatch :
    (n : ℕ) (kvs : List KeyValue) (buckets : List (List KeyValue))
    → length (dispatch n kvs buckets) ≡ length buckets
unfolding dispatch
length-dispatch n [] buckets = refl
length-dispatch n (kv ∷ kvs) buckets = length-dispatch n kvs _ ∙ length-set buckets _ _

-- Each bucket of the loop, started with empty buckets.
pub dispatch-bucket :
    (n r : ℕ) (kvs : List KeyValue)
    → r < n
    → get_elem? (dispatch n kvs (replicate n [])) r ≡ some (bucket n r kvs)
dispatch-bucket n r kvs h =
    dispatch-append n r kvs (replicate n []) [] (omega arith) (length-replicate n [])
      (get_elem?-replicate n r h)

-- A bucket has all values of its own keys, and none of another key.
pub values_of-bucket :
    (n r : ℕ) (k : Str) (kvs : List KeyValue)
    → values_of k (bucket n r kvs) ≡ (if eqb (ihash k % n) r then values_of k kvs else [])
unfolding values_of bucket
values_of-bucket n r k [] = ground arith
values_of-bucket n r k (kv ∷ kvs) = elim (Bool-cases (kv.key == k)) [
  | inl hit ↦
      let same : ihash kv.key ≡ ihash k = ap ihash ((comparable_list.exact kv.key k).0 hit) in
      ground (arith, hit, same, values_of-bucket n r k kvs)
  | inr miss ↦ ground (arith, miss, values_of-bucket n r k kvs)
]

pub bucket-append :
    (n r : ℕ) (xs ys : List KeyValue) → bucket n r (xs ++ ys) ≡ bucket n r xs ++ bucket n r ys
unfolding bucket
bucket-append n r [] ys = refl
bucket-append n r (x ∷ xs) ys = ground (arith, bucket-append n r xs ys)

pub All-bucket :
    (P : KeyValue → Type 0) (n r : ℕ) (kvs : List KeyValue) → All P kvs → All P (bucket n r kvs)
unfolding bucket
All-bucket P n r [] h = tt
All-bucket P n r (kv ∷ kvs) h = elim (Bool-cases (eqb (ihash kv.key % n) r)) [
  | inl hit ↦ rw hit (h.0, All-bucket P n r kvs h.1)
  | inr miss ↦ rw miss (All-bucket P n r kvs h.1)
]
