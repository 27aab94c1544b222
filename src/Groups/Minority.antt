-- ===== src/Groups/Minority.antt =====
-- tester1/group.go: `MakePartition` deals the servers to two parts.
use distributed_system.Groups.{ServerGrp}
use distributed_system.Groups.Operations.{fill_partition, make_partition, add_leader}
use distributed_system.Prelude.{
  comparable_nat, Bool-cases, List, [], ap, arith, count, drop, eqb, if◌then◌else◌, inl, inr, leb,
  length, ltb, not, refl, replicate, set, some, suc, take, zero, ℕ, ◌&&◌, ◌++◌, ◌+◌, ◌∷◌, ◌≡◌, ◌≤◌,
  false, length-append, true, ◌-◌, ◌∙◌, sym, ◌/◌, ◌<◌, ◌>>=◌,
}

-- The servers from `i` on, `k` of them, without `l`.
abbrev others : ℕ → ℕ → ℕ → List ℕ
others l i zero = []
others l i (suc k) = if eqb i l then others l (i + 1) k else i ∷ others l (i + 1) k

set-behind : (xs ys : List ℕ) (y v : ℕ) → set (xs ++ y ∷ ys) (length xs) v ≡ xs ++ v ∷ ys
set-behind [] ys y v = refl
set-behind (x ∷ xs) ys y v = ap (◌∷◌ x) (set-behind xs ys y v)

append_assoc : (xs ys zs : List ℕ) → (xs ++ ys) ++ zs ≡ xs ++ (ys ++ zs)
append_assoc [] ys zs = refl
append_assoc (x ∷ xs) ys zs = ap (◌∷◌ x) (append_assoc xs ys zs)

append_nil : (xs : List ℕ) → xs ++ [] ≡ xs
append_nil [] = refl
append_nil (x ∷ xs) = ap (◌∷◌ x) (append_nil xs)

-- One write, into the second part or into the first.
fill_partition-write_second :
    (l i k j : ℕ) (p1 d ys : List ℕ)
    → eqb i l ≡ false
    → j ≡ length p1 + length d
    → fill_partition l i (suc k) j (p1, d ++ 0 ∷ ys)
      ≡ fill_partition l (i + 1) k (j + 1) (p1, d ++ i ∷ ys)
unfolding fill_partition
fill_partition-write_second l i k j p1 d ys miss e =
    let full : ltb j (length p1) ≡ false = ground (arith, e) in
    let at : j - length p1 ≡ length d = omega (arith, e) in
    let fits : ltb (length d) (length (d ++ 0 ∷ ys)) ≡ true =
      ground (arith, length-append d (0 ∷ ys)) in
    rw (miss, full, at, fits, set-behind d ys 0 i, fill_partition) refl

fill_partition-write_first :
    (l i k : ℕ) (d ys p2 : List ℕ)
    → eqb i l ≡ false
    → fill_partition l i (suc k) (length d) (d ++ 0 ∷ ys, p2)
      ≡ fill_partition l (i + 1) k (length d + 1) (d ++ i ∷ ys, p2)
unfolding fill_partition
fill_partition-write_first l i k d ys p2 miss =
    let fits : ltb (length d) (length (d ++ 0 ∷ ys)) ≡ true =
      ground (arith, length-append d (0 ∷ ys)) in
    rw (miss, fits, set-behind d ys 0 i, fill_partition) refl

fill_partition-skip :
    (l i k j : ℕ) (ps : List ℕ × List ℕ)
    → eqb i l ≡ true
    → fill_partition l i (suc k) j ps ≡ fill_partition l (i + 1) k j ps
unfolding fill_partition
fill_partition-skip l i k j (p1, p2) hit = rw (hit, fill_partition) refl

-- The first part is full.
fill_partition-second :
    (l i k j : ℕ) (p1 d : List ℕ) (rooms x : ℕ)
    → j ≡ length p1 + length d
    → rooms ≡ length (others l i k) + x
    → fill_partition l i k j (p1, d ++ replicate rooms 0)
      ≡ some (p1, d ++ (others l i k ++ replicate x 0))
unfolding fill_partition
fill_partition-second l i zero j p1 d rooms x e h =
    let same : rooms ≡ x = omega (arith, h) in ap (λ r. some (p1, d ++ replicate r 0)) same
fill_partition-second l i (suc k) j p1 d zero x e h = elim (Bool-cases (eqb i l)) [
  | inl hit ↦
      fill_partition-skip l i k j _ hit
      ∙ rw hit (fill_partition-second l (i + 1) k j p1 d zero x e (ground (arith, h, hit)))
  | inr miss ↦ absurd (ground (arith, h, miss))
]
fill_partition-second l i (suc k) j p1 d (suc rooms) x e h = elim (Bool-cases (eqb i l)) [
  | inl hit ↦
      fill_partition-skip l i k j _ hit
      ∙ rw hit (fill_partition-second l (i + 1) k j p1 d (suc rooms) x e (ground (arith, h, hit)))
  | inr miss ↦ rw miss (
      fill_partition-write_second l i k j p1 d (replicate rooms 0) miss e
      ∙ ap (λ xs. fill_partition l (i + 1) k (j + 1) (p1, xs))
          (sym (append_assoc d (i ∷ []) (replicate rooms 0)))
      ∙ fill_partition-second l (i + 1) k (j + 1) p1 (d ++ i ∷ []) rooms x
          (omega (arith, e, length-append d (i ∷ []))) (ground (arith, h, miss))
      ∙ ap (λ xs. some (p1, xs)) (append_assoc d (i ∷ []) _))
]

fill_partition-first :
    (l i k j : ℕ) (d : List ℕ) (r rooms x : ℕ)
    → j ≡ length d
    → length (others l i k) + x ≡ r + rooms
    → x ≤ rooms
    → fill_partition l i k j (d ++ replicate r 0, replicate rooms 0)
      ≡ some (d ++ take r (others l i k), drop r (others l i k) ++ replicate x 0)
unfolding fill_partition
fill_partition-first l i zero j d zero rooms x e h le =
    let same : rooms ≡ x = omega (arith, h) in ap (λ m. some (d ++ [], replicate m 0)) same
fill_partition-first l i zero j d (suc r) rooms x e h le = absurd (omega (arith, h, le))
fill_partition-first l i (suc k) j d zero rooms x e h le =
    fill_partition-second l i (suc k) j (d ++ []) [] rooms x (omega (arith, e, length-append d []))
      (omega (arith, h))
fill_partition-first l i (suc k) j d (suc r) rooms x e h le = elim (Bool-cases (eqb i l)) [
  | inl hit ↦
      fill_partition-skip l i k j _ hit
      ∙ rw hit (fill_partition-first l (i + 1) k j d (suc r) rooms x e (ground (arith, h, hit)) le)
  | inr miss ↦ rw miss (
      ap (λ at. fill_partition l i (suc k) at (d ++ 0 ∷ replicate r 0, replicate rooms 0)) e
      ∙ fill_partition-write_first l i k d (replicate r 0) (replicate rooms 0) miss
      ∙ ap (λ xs. fill_partition l (i + 1) k (length d + 1) (xs, replicate rooms 0))
          (sym (append_assoc d (i ∷ []) (replicate r 0)))
      ∙ fill_partition-first l (i + 1) k (length d + 1) (d ++ i ∷ []) r rooms x
          (sym (length-append d (i ∷ []))) (ground (arith, h, miss)) le
      ∙ ap (λ xs. some (xs, drop r (others l (i + 1) k) ++ replicate x 0))
          (append_assoc d (i ∷ []) _))
]

count-take-drop : (j r : ℕ) (xs : List ℕ) → count j (take r xs) + count j (drop r xs) ≡ count j xs
count-take-drop j zero xs = omega arith
count-take-drop j (suc r) [] = refl
count-take-drop j (suc r) (x ∷ xs) = ground (arith, count-take-drop j r xs)

count-others :
    (l i k j : ℕ)
    → count j (others l i k) ≡ (if leb i j && ltb j (i + k) && not (eqb j l) then 1 else 0)
count-others l i zero j = ground arith
count-others l i (suc k) j = ground (arith, count-others l (i + 1) k j)

length-others :
    (l i k : ℕ) → length (others l i k) + (if leb i l && ltb l (i + k) then 1 else 0) ≡ k
length-others l i zero = ground arith
length-others l i (suc k) = ground (arith, length-others l (i + 1) k)

length-take-drop :
    (r : ℕ) (xs : List ℕ)
    → r ≤ length xs
    → (length (take r xs) ≡ r) × (length (drop r xs) + r ≡ length xs)
length-take-drop zero xs h = (refl, omega arith)
length-take-drop (suc r) [] h = elim h [ ]
length-take-drop (suc r) (x ∷ xs) h =
    let p = length-take-drop r xs (omega (arith, h)) in (omega (arith, p), omega (arith, p))

add_leader-behind :
    (l : ℕ) (p1 xs : List ℕ) → add_leader l (p1, xs ++ 0 ∷ []) ≡ some (p1, xs ++ l ∷ [])
add_leader-behind l p1 [] = refl
add_leader-behind l p1 (x ∷ xs) =
    let at : length (xs ++ 0 ∷ []) ≡ suc (length xs) = length-append xs (0 ∷ []) ∙ omega arith in
    ap (λ i. some (p1, set (x ∷ (xs ++ 0 ∷ [])) i l)) at
    ∙ ap (λ ys. some (p1, x ∷ ys)) (set-behind xs [] 0 l)

count-append : (j : ℕ) (xs ys : List ℕ) → count j (xs ++ ys) ≡ count j xs + count j ys
count-append j [] ys = omega arith
count-append j (x ∷ xs) ys = ground (arith, count-append j xs ys)

-- Two parts of a group of `n` servers, with `l` in the second.
abbrev pub AreParts : ℕ → ℕ → List ℕ → List ℕ → Type 0
AreParts n l p1 p2 =
    (length p1 ≡ length p2 + 1)
    × (count l p2 ≡ 1)
    × ((j : ℕ) → count j p1 + count j p2 ≡ (if ltb j n then 1 else 0))

others-all_but_one : (n l m : ℕ) → n ≡ m + m + 3 → l < n → length (others l 0 n) ≡ m + m + 2
others-all_but_one n l m size lt = ground (arith, length-others l 0 n, size, lt)

dealt-AreParts :
    (n l m r : ℕ)
    → n ≡ m + m + 3
    → l < n
    → r ≡ m + 2
    → AreParts n l (take r (others l 0 n)) (drop r (others l 0 n) ++ l ∷ [])
dealt-AreParts n l m r size lt half =
    let os = others l 0 n in
    let long = others-all_but_one n l m size lt in
    let p = length-take-drop r os (omega (arith, long, half)) in
    let both = count-take-drop l r os in
    (
      omega (arith, long, half, p, length-append (drop r os) (l ∷ [])),
      ground (arith, count-append l (drop r os) (l ∷ []), both, count-others l 0 n l),
      λ j. ground (
        arith,
        count-append j (drop r os) (l ∷ []),
        count-take-drop j r os,
        count-others l 0 n j,
        lt,
      ),
    )

-- MakePartition of an odd number of servers, three or more, deals each of them to one part, once,
-- and the leader to the smaller part.
pub make_partition-AreParts :
    (l : ℕ) (sg : ServerGrp) (m : ℕ)
    → length sg.srvs ≡ m + m + 3
    → l < length sg.srvs
    → (p1 p2 : List ℕ) × (make_partition l sg ≡ some (p1, p2)) × AreParts (length sg.srvs) l p1 p2
unfolding make_partition
make_partition-AreParts l sg m size lt =
    let n = length sg.srvs in
    let half : n / 2 ≡ m + 1 = omega (arith, size) in
    let filled =
      fill_partition-first l 0 n 0 [] (n / 2 + 1) (n / 2) 1 refl
        (omega (arith, others-all_but_one n l m size lt, half)) (omega (arith, half)) in
    (
      take (n / 2 + 1) (others l 0 n),
      drop (n / 2 + 1) (others l 0 n) ++ l ∷ [],
      ap (λ o. o >>= add_leader l) filled ∙ add_leader-behind l _ _,
      dealt-AreParts n l m (n / 2 + 1) size lt (omega (arith, half)),
    )
