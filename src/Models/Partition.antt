-- ===== src/Models/Partition.antt =====
-- Partition of models1/kv.go: the history of each key, in the order of the keys.
use distributed_system.Prelude.{
  str_lt, str_lt_asym, not_lt_trans, ℕ, ◌≡◌, refl, sym, ap, ◌∙◌, inl, inr, false, none, some, List,
  [], ◌∷◌, ◌++◌, map, eqb, arith, All, All-imp, if◌then◌else◌, ◌==◌, Bool-cases, Str,
  comparable_nat, comparable_list, Map, get, put, keys, get-put, count-put, count,
}
use mathlib.Core.Path.{fun_ext}
use mathlib.Core.List.{append_assoc, append-nil}
use distributed_system.Models.{Operation, by_key, insert_string, sort_strings, partition}

-- The operations on a key, in their order.
abbrev pub ops_of : Str → List Operation → List Operation
ops_of k [] = []
ops_of k (o ∷ os) = if o.input.key == k then o ∷ ops_of k os else ops_of k os

abbrev list_at : Map Str (List Operation) → Str → List Operation
list_at m k = elim (get m k) [ none ↦ [] | some os ↦ os ]

list_at-by_key :
    (history : List Operation) (m : Map Str (List Operation)) (k : Str)
    → list_at (by_key history m) k ≡ list_at m k ++ ops_of k history
unfolding by_key
list_at-by_key [] m k = sym (append-nil (list_at m k))
list_at-by_key (o ∷ os) m k =
    let next : Map Str (List Operation) = put m o.input.key (list_at m o.input.key ++ o ∷ []) in
    let rest = list_at-by_key os next k in
    elim (Bool-cases (o.input.key == k)) [
      | inl hit ↦
          let same : o.input.key ≡ k = (comparable_list.exact o.input.key k).0 hit in
          let here : get next k ≡ some (list_at m k ++ o ∷ []) =
            ground (arith, get-put m o.input.key k (list_at m o.input.key ++ o ∷ []), hit, same) in
          let now : list_at next k ≡ list_at m k ++ o ∷ [] = rw (list_at, here) refl in
          rw hit (
            rest
            ∙ ap (λ l. l ++ ops_of k os) now
            ∙ append_assoc (list_at m k) (o ∷ []) (ops_of k os))
      | inr miss ↦
          let here : get next k ≡ get m k =
            ground (arith, get-put m o.input.key k (list_at m o.input.key ++ o ∷ []), miss) in
          let now : list_at next k ≡ list_at m k = rw (list_at, here) refl in
          rw miss (rest ∙ ap (λ l. l ++ ops_of k os) now)
    ]

-- 1 for a key of the history, and 0 for another.
abbrev pub occurs : Str → List Operation → ℕ
occurs k [] = 0
occurs k (o ∷ os) = if o.input.key == k then 1 else occurs k os

count-by_key :
    (history : List Operation) (m : Map Str (List Operation)) (k : Str)
    → count k (keys (by_key history m))
      ≡ (if eqb (count k (keys m)) 0 then occurs k history else count k (keys m))
unfolding by_key
count-by_key [] m k = ground arith
count-by_key (o ∷ os) m k =
    let v : List Operation = list_at m o.input.key ++ o ∷ [] in
    let next : Map Str (List Operation) = put m o.input.key v in
    ground (arith, count-by_key os next k, count-put m o.input.key k v)

count-insert_string : (k x : Str) (ks : List Str) → count k (insert_string x ks) ≡ count k (x ∷ ks)
unfolding insert_string
count-insert_string k x [] = refl
count-insert_string k x (y ∷ ks) = ground (arith, count-insert_string k x ks)

count-sort_strings : (k : Str) (ks : List Str) → count k (sort_strings ks) ≡ count k ks
unfolding sort_strings
count-sort_strings k [] = refl
count-sort_strings k (x ∷ ks) =
    count-insert_string k x (sort_strings ks) ∙ ground (arith, count-sort_strings k ks)

-- No later string is smaller.
abbrev pub Ascending : List Str → Type 0
Ascending [] = Unit
Ascending (x ∷ xs) = All (λ y. str_lt y x ≡ false) xs × Ascending xs

insert_string-All :
    (P : Str → Type 0) (x : Str) (ks : List Str) → P x → All P ks → All P (insert_string x ks)
unfolding insert_string
insert_string-All P x [] p h = (p, tt)
insert_string-All P x (y ∷ ks) p h = elim (Bool-cases (str_lt y x)) [
  | inl less ↦ rw less (h.0, insert_string-All P x ks p h.1)
  | inr not_less ↦ rw not_less (p, h)
]

insert_string-Ascending : (x : Str) (ks : List Str) → Ascending ks → Ascending (insert_string x ks)
unfolding insert_string
insert_string-Ascending x [] s = (tt, tt)
insert_string-Ascending x (y ∷ ks) s = elim (Bool-cases (str_lt y x)) [
  | inl less ↦ rw less (
    insert_string-All (λ z. str_lt z y ≡ false) x ks (str_lt_asym y x less) s.0,
    insert_string-Ascending x ks s.1,
  )
  | inr not_less ↦
      let behind = All-imp (λ z h. not_lt_trans x y z not_less h) ks s.0 in
      rw not_less ((not_less, behind), s)
]

sort_strings-Ascending : (ks : List Str) → Ascending (sort_strings ks)
unfolding sort_strings
sort_strings-Ascending [] = tt
sort_strings-Ascending (k ∷ ks) =
    insert_string-Ascending k (sort_strings ks) (sort_strings-Ascending ks)

-- A partition of a history by keys.
pub record IsPartition (history : List Operation) (parts : List (List Operation)) : Type 0 where
  pub ks : List Str
  pub by_keys : parts ≡ map (λ k. ops_of k history) ks
  pub each_once : (k : Str) → count k ks ≡ occurs k history
  pub ascending : Ascending ks

-- Partition gives for each key of the history, once and in the order of the keys, the operations on
-- this key, in their order.
pub partition-IsPartition : (history : List Operation) → IsPartition history (partition history)
unfolding partition get
partition-IsPartition history =
    let m = by_key history [] in
    record {
      ks = sort_strings (keys m);
      by_keys =
          ap (λ f. map f (sort_strings (keys m))) (fun_ext (λ k. list_at-by_key history [] k));
      each_once = λ k. count-sort_strings k (keys m) ∙ count-by_key history [] k;
      ascending = sort_strings-Ascending (keys m);
    }
