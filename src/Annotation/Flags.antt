-- ===== src/Annotation/Flags.antt =====
-- tester1/annotation.go: the flags of the servers, as lists of Booleans.
use distributed_system.Prelude.{
  zero, suc, ◌+◌, ◌<◌, ◌∙◌, length, set, get_elem?, get_elem?-some, All, All-imp, length-set, ℕ,
  ◌≡◌, refl, ap, sym, subst, Bool, true, false, some, List, [], ◌∷◌, Str, comparable_nat,
  comparable_list, comparable_list, map, arith, not, ◌||◌, replicate, ◌&&◌, ◌≤◌, ids_from,
}
use distributed_system.Annotation.Framework.{same_bools, sort_servers}
use distributed_system.Annotation.Faults.{mark_servers, copy_bools}

pub sort_servers-total :
    (id : ℕ) (connected crashed : List Bool)
    → length connected ≡ length crashed
    → (parts : Str × List ℕ × List ℕ) × (sort_servers id connected crashed ≡ some parts)
unfolding sort_servers
sort_servers-total id [] crashed h = (_, refl)
sort_servers-total id (connected ∷ rest) [] h = absurd (omega (arith, h))
sort_servers-total id (connected ∷ rest) (true ∷ crashed) h =
    let (parts, e) = sort_servers-total (id + 1) rest crashed (omega (arith, h)) in rw e (_, refl)
sort_servers-total id (true ∷ rest) (false ∷ crashed) h =
    let (parts, e) = sort_servers-total (id + 1) rest crashed (omega (arith, h)) in rw e (_, refl)
sort_servers-total id (false ∷ rest) (false ∷ crashed) h =
    let (parts, e) = sort_servers-total (id + 1) rest crashed (omega (arith, h)) in rw e (_, refl)

set_same : (xs : List Bool) (i : ℕ) (b : Bool) → get_elem? xs i ≡ some b → set xs i b ≡ xs
set_same [] i b h = refl
set_same (x ∷ xs) zero b h = let e : x ≡ b = cc in ap (λ y. y ∷ xs) (sym e)
set_same (x ∷ xs) (suc i) b h = ap (◌∷◌ x) (set_same xs i b h)

mark_servers-first :
    (value : Bool) (id : ℕ) (servers : List ℕ) (moved : Bool) (crashed : List Bool) (old : Bool)
    → get_elem? crashed id ≡ some old
    → mark_servers value (id ∷ servers) (moved, crashed)
      ≡ mark_servers value servers
          (moved || not (same_bools (old ∷ []) (value ∷ [])), set crashed id value)
unfolding mark_servers
mark_servers-first value id servers moved crashed old found = rw (found, mark_servers) refl

kept :
    (moved old value : Bool)
    → (moved || not (same_bools (old ∷ []) (value ∷ []))) ≡ false
    → (moved ≡ false) × (old ≡ value)
kept true old value h = cc
kept false true true h = (refl, refl)
kept false true false h = cc
kept false false true h = cc
kept false false false h = (refl, refl)

pub mark_servers-total :
    (value : Bool) (servers : List ℕ) (moved : Bool) (crashed : List Bool)
    → All (λ id. id < length crashed) servers
    → (after : Bool × List Bool) × (mark_servers value servers (moved, crashed) ≡ some after)
      × (length after.1 ≡ length crashed)
      × (after.0 ≡ false → (moved ≡ false) × (after.1 ≡ crashed))
unfolding mark_servers
mark_servers-total value [] moved crashed h = (_, refl, refl, λ e. (e, refl))
mark_servers-total value (id ∷ servers) moved crashed h =
    let (old, found) = get_elem?-some crashed id h.0 in
    let size = length-set crashed id value in
    let (after, e, same_size, unmoved) =
      mark_servers-total value servers (moved || not (same_bools (old ∷ []) (value ∷ [])))
        (set crashed id value) (All-imp (λ i lt. omega (arith, lt, size)) servers h.1) in
    (
      after,
      mark_servers-first value id servers moved crashed old found ∙ e,
      same_size ∙ size,
      λ quiet.
          let (still, same) = unmoved quiet in
          let k = kept moved old value still in
          (k.0, same ∙ ap (set crashed id) (sym k.1) ∙ set_same crashed id old found),
    )

pub ids_from-in_range : (i k n : ℕ) → i + k ≤ n → All (λ id. id < n) (ids_from i k)
ids_from-in_range i zero n h = tt
ids_from-in_range i (suc k) n h =
    (omega (arith, h), ids_from-in_range (i + 1) k n (omega (arith, h)))

pub length-copy_bools : (dst src : List Bool) → length (copy_bools dst src) ≡ length dst
unfolding copy_bools
length-copy_bools [] src = refl
length-copy_bools (x ∷ dst) [] = refl
length-copy_bools (x ∷ dst) (y ∷ src) = ap suc (length-copy_bools dst src)

same_bools-replicate :
    (b : Bool) (xs : List Bool)
    → same_bools (replicate (length xs) b) (map (λ (x : Bool). b) xs) ≡ true
same_bools-replicate b [] = refl
same_bools-replicate true (x ∷ xs) = same_bools-replicate true xs
same_bools-replicate false (x ∷ xs) = same_bools-replicate false xs

pub all_well :
    (n : ℕ) (xs ys : List Bool)
    → length xs ≡ n
    → length ys ≡ n
    → (same_bools (replicate n true) (map (λ (x : Bool). true) xs)
        && same_bools (replicate n false) (map (λ (x : Bool). false) ys))
      ≡ true
all_well n xs ys h k =
    let p : same_bools (replicate n true) (map (λ (x : Bool). true) xs) ≡ true =
      subst (λ m. same_bools (replicate m true) (map (λ (x : Bool). true) xs) ≡ true) h
        (same_bools-replicate true xs) in
    let q : same_bools (replicate n false) (map (λ (x : Bool). false) ys) ≡ true =
      subst (λ m. same_bools (replicate m false) (map (λ (x : Bool). false) ys) ≡ true) k
        (same_bools-replicate false ys) in
    ground (arith, p, q)

pub same_bools_self : (xs : List Bool) → same_bools xs xs ≡ true
same_bools_self [] = refl
same_bools_self (true ∷ xs) = same_bools_self xs
same_bools_self (false ∷ xs) = same_bools_self xs
