-- ===== src/Mr/Worker/Grouping.antt =====
-- The grouping loop of mr/worker.go (handleReduceTask): on sorted entries it makes one group for
-- each key, with all its values.
use mathlib.Core.Logic.{∥∥₁_map}
use mathlib.Core.List.{Perm}
use mathlib.Core.List.Permᴰ
use mathlib.Core.List.{Permᴰ}
use distributed_system.Prelude.{
  str_lt, str_lt_antisymm, ◌∷◌, ◌++◌, arith, length, All, All-imp, if◌then◌else◌, Bool-cases, ◌==◌,
  ==_ne, Str, comparable_nat, comparable_list, List, Option, [], ap, false, get, inl, inr, none,
  refl, some, subst, suc, sym, zero, ℕ, ◌<◌, ◌∙◌, ◌≡◌, ◌≢◌, ◌≤◌,
}
use distributed_system.Mr.Worker.{KeyValue, IsSorted, Sorter, collect, group_runs, groups_of}

-- The values of the entries that have this key, in their order.
unfoldable pub values_of : Str → List KeyValue → List Str
values_of k [] = []
values_of k (kv ∷ kvs) = if kv.key == k then kv.value ∷ values_of k kvs else values_of k kvs

pub values_of-append :
    (k : Str) (xs ys : List KeyValue) → values_of k (xs ++ ys) ≡ values_of k xs ++ values_of k ys
unfolding values_of
values_of-append k [] ys = refl
values_of-append k (x ∷ xs) ys = ground (arith, values_of-append k xs ys)

values_of_absent :
    (k : Str) (kvs : List KeyValue) → All (λ y. (y.key == k) ≡ false) kvs → values_of k kvs ≡ []
unfolding values_of
values_of_absent k [] h = refl
values_of_absent k (kv ∷ kvs) h = ground (arith, h.0, values_of_absent k kvs h.1)

-- What the inner loop leaves, when no entry has a smaller key.
record Collected (k : Str) (kvs : List KeyValue) (vals : List Str) (rest : List KeyValue)
    : Type 0 where
  all_values : vals ≡ values_of k kvs
  none_left : All (λ y. (y.key == k) ≡ false) rest
  others : (j : Str) → j ≢ k → values_of j rest ≡ values_of j kvs
  sorted : IsSorted rest
  shorter : length rest ≤ length kvs

collect-Collected :
    (k : Str) (kvs : List KeyValue)
    → IsSorted kvs
    → All (λ y. str_lt y.key k ≡ false) kvs
    → Collected k kvs (collect k kvs).0 (collect k kvs).1
unfolding collect values_of
collect-Collected k [] s h = ground arith
collect-Collected k (kv ∷ kvs) s h = elim (Bool-cases (kv.key == k)) [
  | inl hit ↦
      let c = collect-Collected k kvs s.1 h.1 in
      rw hit (record {
        all_values = rw hit (ap (◌∷◌ kv.value) c.all_values);
        none_left = c.none_left;
        others = λ j ne.
            let e : kv.key ≡ k = (comparable_list.exact kv.key k).0 hit in
            let miss : (kv.key == j) ≡ false = ==_ne kv.key j (λ q. ne (sym q ∙ e)) in
            rw miss (c.others j ne);
        sorted = c.sorted;
        shorter = omega (arith, c.shorter);
      })
  | inr miss ↦
      let absent : All (λ y. (y.key == k) ≡ false) kvs =
        All-imp
          (λ y not_less. ==_ne y.key k (λ e.
            let q = str_lt_antisymm kv.key k h.0 (rw e at not_less) in
            cc ((comparable_list.exact kv.key k).1 q, miss)))
          kvs s.0 in
      rw miss (record {
        all_values = rw miss (sym (values_of_absent k kvs absent));
        none_left = (miss, absent);
        others = λ j ne. refl;
        sorted = s;
        shorter = omega arith;
      })
]

-- The values of a key with at least one value.
abbrev pub some_values : List Str → Option (List Str)
some_values [] = none
some_values (v ∷ vs) = some (v ∷ vs)

group_runs-get :
    (fuel : ℕ) (kvs : List KeyValue) (j : Str)
    → length kvs < fuel
    → IsSorted kvs
    → get (group_runs fuel kvs) j ≡ some_values (values_of j kvs)
unfolding group_runs values_of get
group_runs-get zero kvs j h s = absurd (omega arith)
group_runs-get (suc fuel) [] j h s = refl
group_runs-get (suc fuel) (kv ∷ kvs) j h s =
    let c = collect-Collected kv.key kvs s.1 s.0 in
    let ih = group_runs-get fuel (collect kv.key kvs).1 j (omega (arith, c.shorter)) c.sorted in
    elim (Bool-cases (kv.key == j)) [
      | inl hit ↦
          let e : kv.key ≡ j = (comparable_list.exact kv.key j).0 hit in
          rw hit (ap (λ vs. some (kv.value ∷ vs)) (c.all_values ∙ ap (λ k. values_of k kvs) e))
      | inr miss ↦ rw miss (
          ih
          ∙ ap some_values
              (c.others j (λ e. cc ((comparable_list.exact kv.key j).1 (sym e), miss))))
    ]

-- The key of each line is that of no later line.
abbrev pub IsDistinct : {V : Type 0} → List (Str × V) → Type 0
IsDistinct [] = Unit
IsDistinct (g ∷ gs) = (get gs g.0 ≡ none) × IsDistinct gs

group_runs-IsDistinct :
    (fuel : ℕ) (kvs : List KeyValue)
    → length kvs < fuel
    → IsSorted kvs
    → IsDistinct (group_runs fuel kvs)
unfolding group_runs
group_runs-IsDistinct zero kvs h s = absurd (omega arith)
group_runs-IsDistinct (suc fuel) [] h s = tt
group_runs-IsDistinct (suc fuel) (kv ∷ kvs) h s =
    let c = collect-Collected kv.key kvs s.1 s.0 in
    let rest = (collect kv.key kvs).1 in
    let small : length rest < fuel = omega (arith, c.shorter) in
    (
      group_runs-get fuel rest kv.key small c.sorted
          ∙ ap some_values (values_of_absent kv.key rest c.none_left),
      group_runs-IsDistinct fuel rest small c.sorted,
    )

-- On sorted entries there is one group for each key, with all values of the key in their order,
-- and none for another key.
pub groups_of-get :
    (kvs : List KeyValue) (j : Str)
    → IsSorted kvs
    → get (groups_of kvs) j ≡ some_values (values_of j kvs)
unfolding groups_of
groups_of-get kvs j s = group_runs-get (suc (length kvs)) kvs j (omega arith) s

pub groups_of-IsDistinct : (kvs : List KeyValue) → IsSorted kvs → IsDistinct (groups_of kvs)
unfolding groups_of
groups_of-IsDistinct kvs s = group_runs-IsDistinct (suc (length kvs)) kvs (omega arith) s

values_of-cons :
    (k : Str) (a : KeyValue) (xs ys : List KeyValue)
    → Permᴰ (values_of k xs) (values_of k ys)
    → Permᴰ (values_of k (a ∷ xs)) (values_of k (a ∷ ys))
unfolding values_of
values_of-cons k a xs ys p = elim (Bool-cases (a.key == k)) [
  | inl hit ↦ rw hit (Permᴰ.cons refl p)
  | inr miss ↦ rw miss p
]

values_of-swap :
    (k : Str) (a b : KeyValue) (l : List KeyValue)
    → Permᴰ (values_of k (a ∷ b ∷ l)) (values_of k (b ∷ a ∷ l))
unfolding values_of
values_of-swap k a b l = elim (Bool-cases (a.key == k)) [
  | inr miss ↦ rw miss (Permᴰ.refl _)
  | inl hit ↦ elim (Bool-cases (b.key == k)) [
    | inr miss ↦ rw miss (Permᴰ.refl _)
    | inl hit' ↦ rw (hit, hit') (Permᴰ.swap refl refl)
  ]
]

-- An entry keeps its values under a reordering.
pub values_of-Permᴰ :
    (k : Str) {xs ys : List KeyValue} → Permᴰ xs ys → Permᴰ (values_of k xs) (values_of k ys)
unfolding values_of
values_of-Permᴰ k Permᴰ.nil = Permᴰ.nil
values_of-Permᴰ k (Permᴰ.cons {a} {b} {l₁} {l₂} e p) =
    subst (λ c. Permᴰ (values_of k (a ∷ l₁)) (values_of k (c ∷ l₂))) e
      (values_of-cons k a l₁ l₂ (values_of-Permᴰ k p))
values_of-Permᴰ k (Permᴰ.swap {a} {b} {a'} {b'} {l} e e') =
    subst (λ c. Permᴰ (values_of k (a ∷ b ∷ l)) (values_of k (a' ∷ c ∷ l))) e
      (subst (λ c. Permᴰ (values_of k (a ∷ b ∷ l)) (values_of k (c ∷ a ∷ l))) e'
        (values_of-swap k a b l))
values_of-Permᴰ k (Permᴰ.trans p q) = Permᴰ.trans (values_of-Permᴰ k p) (values_of-Permᴰ k q)

-- The values of a key in a list of groups.
abbrev pub group_values : List (Str × List Str) → Str → List Str
group_values groups k = elim (get groups k) [ none ↦ [] | some vs ↦ vs ]

pub group_values-groups_of :
    (kvs : List KeyValue) (k : Str)
    → IsSorted kvs
    → group_values (groups_of kvs) k ≡ values_of k kvs
group_values-groups_of kvs k s = ground (arith, groups_of-get kvs k s)

pub values_of-Perm :
    (k : Str) (xs ys : List KeyValue) → Perm xs ys → Perm (values_of k xs) (values_of k ys)
values_of-Perm k xs ys p =
    ∥∥₁_map {B = Permᴰ (values_of k xs) (values_of k ys)} p (values_of-Permᴰ k)

some_values-ne-empty : (vs : List Str) → some_values vs ≢ some []
some_values-ne-empty [] e = cc
some_values-ne-empty (v ∷ vs) e = ground (arith, e)

pub groups_of-ne-empty :
    (kvs : List KeyValue) (k : Str) → IsSorted kvs → get (groups_of kvs) k ≢ some []
groups_of-ne-empty kvs k s e =
    some_values-ne-empty (values_of k kvs) (sym (groups_of-get kvs k s) ∙ e)

-- One group for each key that has values, with exactly these values in some order.
pub record IsGrouping (groups : List (Str × List Str)) (values : Str → List Str) : Type 0 where
  pub distinct : IsDistinct groups
  pub inhabited : (k : Str) → get groups k ≢ some []
  pub exact_values : (k : Str) → Perm (group_values groups k) (values k)

pub groups_of-IsGrouping :
    (sorter : Sorter) (kvs : List KeyValue)
    → IsGrouping (groups_of (sorter.sort_slice kvs)) (λ k. values_of k kvs)
groups_of-IsGrouping sorter kvs =
    let sorted = sorter.sort_slice kvs in
    let s = sorter.sort_slice-IsSorted kvs in
    record {
      distinct = groups_of-IsDistinct sorted s;
      inhabited = λ k. groups_of-ne-empty sorted k s;
      exact_values = λ k.
          rw (group_values-groups_of sorted k s)
            (values_of-Perm k sorted kvs (sorter.sort_slice-perm kvs));
    }
