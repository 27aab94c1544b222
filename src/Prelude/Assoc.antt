-- ===== src/Prelude/Assoc.antt =====
-- Go maps as association lists. Where the source ranges over a map, the order of the list is the
-- order of the iteration.
use mathlib.Core.Path.{◌≡◌, refl}
use mathlib.Core.Logic.{◌≢◌}
use mathlib.Core.Bool.{◌&&◌}
use mathlib.Core.Option.{Option, none, some}
use mathlib.Core.List.{List, [], ◌∷◌, map}
use native.Mathlib.Omega.{arith}
use distributed_system.Prelude.Tests.{eqb, if◌then◌else◌}
use distributed_system.Prelude.Equality.{Comparable, ◌==◌, ==_refl, ==_ne, count}

abbrev pub Map {ℓ κ} : Type ℓ → Type κ → Type (ℓ ⊔ κ)
Map K V = List (K × V)

abbrev pub keys {ℓ κ} : {K : Type ℓ} {V : Type κ} → Map K V → List K
keys m = map (λ p. p.0) m

module _ {ℓ κ} {K : Type ℓ} {V : Type κ} ⦃cmp : Comparable K⦄ where
  -- `v, ok := m[k]`
  unfoldable pub get : Map K V → K → Option V
  get [] k = none
  get ((key, value) ∷ rest) k = if key == k then some value else get rest k

  -- `m[k] = v`
  unfoldable pub put : Map K V → K → V → Map K V
  put [] k v = (k, v) ∷ []
  put ((key, value) ∷ rest) k v = if key == k then (key, v) ∷ rest else (key, value) ∷ put rest k v

  -- `delete(m, k)`
  unfoldable pub remove : Map K V → K → Map K V
  remove [] k = []
  remove ((key, value) ∷ rest) k = if key == k then remove rest k else (key, value) ∷ remove rest k

  pub get-put :
      (m : Map K V) (k j : K) (v : V) → get (put m k v) j ≡ (if k == j then some v else get m j)
  unfolding get put
  get-put [] k j v = refl
  get-put ((key, w) ∷ rest) k j v =
      ground (arith, cmp.exact key k, cmp.exact key j, cmp.exact k j, get-put rest k j v)

  pub get-remove : (m : Map K V) (k j : K) → get (remove m k) j ≡ (if k == j then none else get m j)
  unfolding get remove
  get-remove [] k j = ground arith
  get-remove ((key, w) ∷ rest) k j =
      ground (arith, cmp.exact key k, cmp.exact key j, cmp.exact k j, get-remove rest k j)

module _ {ℓ κ} {K : Type ℓ} {V : Type κ} ⦃cmp : Comparable K⦄ where
  pub get-put_self : (m : Map K V) (k : K) (v : V) → get (put m k v) k ≡ some v
  get-put_self m k v = ground (arith, get-put m k k v, ==_refl k)

  pub get-put_ne : (m : Map K V) (k j : K) (v : V) → k ≢ j → get (put m k v) j ≡ get m j
  get-put_ne m k j v ne = ground (arith, get-put m k j v, ==_ne k j ne)

  pub get-remove_self : (m : Map K V) (k : K) → get (remove m k) k ≡ none
  get-remove_self m k = ground (arith, get-remove m k k, ==_refl k)

  pub get-remove_ne : (m : Map K V) (k j : K) → k ≢ j → get (remove m k) j ≡ get m j
  get-remove_ne m k j ne = ground (arith, get-remove m k j, ==_ne k j ne)

  -- The keys of a map that is written: a new key comes once.
  pub count-put :
      (m : Map K V) (k j : K) (v : V)
      → count j (keys (put m k v))
        ≡ (if k == j && eqb (count j (keys m)) 0 then 1 else count j (keys m))
  unfolding put
  count-put [] k j v = ground arith
  count-put ((key, w) ∷ m) k j v =
      ground (arith, cmp.exact key k, cmp.exact key j, cmp.exact k j, count-put m k j v)

  pub count-remove :
      (m : Map K V) (k j : K)
      → count j (keys (remove m k)) ≡ (if k == j then 0 else count j (keys m))
  unfolding remove
  count-remove [] k j = ground arith
  count-remove ((key, w) ∷ m) k j =
      ground (arith, cmp.exact key k, cmp.exact key j, cmp.exact k j, count-remove m k j)

  pub get-absent : (m : Map K V) (k : K) → count k (keys m) ≡ 0 → get m k ≡ none
  unfolding get
  get-absent [] k h = refl
  get-absent ((key, w) ∷ m) k h = ground (arith, get-absent m k, h)
