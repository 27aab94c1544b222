-- ===== src/Annotation/Tiling.antt =====
-- tester1/annotation.go: what `finalize` gives for one tag.
use distributed_system.Annotation.Timeline.{
  Action, at_point, interval_from, continuous_on, continuous_end, Call, View, closed, alone, of_tag,
  of_tag-append, perform, run, started, timeline, timeline_from, view, view-perform,
}
use distributed_system.Prelude.{
  comparable_nat, Bool, Bool-cases, List, Map, Option, Option-cases, Str, [], ap, sym, subst,
  leb→le, arith, comparable_list, count, count-put, count-remove, false, get, get-absent,
  if◌then◌else◌, inl, inr, keys, leb, none, refl, some, true, ℕ, ◌&&◌, ◌++◌, ◌==◌, ◌∙◌, ◌∷◌, ◌≡◌,
  ◌≤◌,
}
use distributed_system.Annotation.{
  Annotation, Continuous, Mark, annotate_continuous_color, annotate_continuous_end,
  annotate_interval_color, annotate_point_color, concretize, concretize_all, finalize,
  mk_annotation,
}

-- A map has no two entries of one key.
abbrev IsUnique : Annotation → Type 0
IsUnique an = (tag : Str) → count tag (keys an.continuous) ≤ 1

perform-IsUnique :
    (a : Action) (c : Call) (an : Annotation) → IsUnique an → IsUnique (perform a c an)
unfolding annotate_point_color annotate_interval_color annotate_continuous_color
    annotate_continuous_end
perform-IsUnique at_point c an u tag = u tag
perform-IsUnique (interval_from s) c an u tag = u tag
perform-IsUnique continuous_on c an u tag =
    let k = count-put an.continuous c.tag tag (started c) in
    elim (Option-cases (get an.continuous c.tag)) [
      | inl missing ↦ ground (arith, missing, k, u tag)
      | inr (cont, found) ↦ ground (arith, found, k, u tag)
    ]
perform-IsUnique continuous_end c an u tag =
    ground (arith, count-remove an.continuous c.tag tag, u tag)

of_tag-concretize_all :
    (t : ℕ) (tag : Str) (m : Map Str Continuous)
    → count tag (keys m) ≤ 1
    → of_tag tag (concretize_all t m) ≡ closed t tag (get m tag)
unfolding concretize get
of_tag-concretize_all t tag [] u = refl
of_tag-concretize_all t tag ((key, cont) ∷ m) u = elim (Bool-cases (key == tag)) [
  | inl hit ↦
      let e : key ≡ tag = (comparable_list.exact key tag).0 hit in
      let c : count tag (keys m) ≡ 0 = ground (arith, u, hit) in
      let rest : of_tag tag (concretize_all t m) ≡ closed t tag (get m tag) =
        of_tag-concretize_all t tag m (omega (arith, c)) in
      let gone : get m tag ≡ none = get-absent m tag c in
      rw hit (
        ap (◌∷◌ (concretize t key cont)) (rest ∙ ap (closed t tag) gone)
        ∙ ap (λ k. concretize t k cont ∷ []) e)
  | inr miss ↦
      let c : count tag (keys m) ≤ 1 = ground (arith, u, miss) in
      rw miss (of_tag-concretize_all t tag m c)
]

timeline_from-run :
    (tag : Str) (t : ℕ) (cs : List Call) (an : Annotation)
    → IsUnique an
    → of_tag tag (finalize t (run cs an)).0 ≡ timeline_from tag t cs (view tag an)
unfolding finalize
timeline_from-run tag t [] an u =
    of_tag-append tag an.annotations _
    ∙ ap (◌++◌ (of_tag tag an.annotations)) (of_tag-concretize_all t tag an.continuous (u tag))
timeline_from-run tag t (c ∷ cs) an u =
    timeline_from-run tag t cs (perform c.action c an) (perform-IsUnique c.action c an u)
    ∙ (ap (timeline_from tag t cs) (view-perform c tag an) ∙ ground arith)

-- Whatever is annotated for other tags, the finalized annotations of a tag are those that its own
-- calls give, in their order.
pub finalize-timeline :
    (tag : Str) (t : ℕ) (cs : List Call)
    → of_tag tag (finalize t (run cs mk_annotation)).0 ≡ timeline tag t cs
unfolding mk_annotation get
finalize-timeline tag t cs = timeline_from-run tag t cs mk_annotation (λ tag'. omega arith)

-- The calls for a tag, from time `now` to `t`: time does not go back, no points and intervals, and
-- an end only when an annotation goes on.
abbrev next_on : Action → Bool → Option Bool
next_on at_point on = none
next_on (interval_from s) on = none
next_on continuous_on on = some true
next_on continuous_end on = if on then some false else none

abbrev pub is_proper : Str → ℕ → ℕ → Bool → List Call → Bool
is_proper tag t now on [] = leb now t
is_proper tag t now on (c ∷ cs) =
    leb now c.time
    && (if c.tag == tag
        then elim (next_on c.action on) [ none ↦ false | some on' ↦ is_proper tag t c.time on' cs ]
        else is_proper tag t c.time on cs)

-- Intervals one after the other, from `low` on: none overlaps another.
abbrev pub Tiles : ℕ → List Mark → Type 0
Tiles low [] = Unit
Tiles low (m ∷ ms) = (low ≤ m.start) × (m.start ≤ m.end_time) × Tiles m.end_time ms

abbrev from_nothing : Option Continuous → View
from_nothing cur = record { marks = []; current = cur }

append_assoc : (xs ys zs : List Mark) → (xs ++ ys) ++ zs ≡ xs ++ (ys ++ zs)
append_assoc [] ys zs = refl
append_assoc (x ∷ xs) ys zs = ap (◌∷◌ x) (append_assoc xs ys zs)

alone-marks :
    (a : Action) (c : Call) (xs ys : List Mark) (cur : Option Continuous)
    → alone a c (record { marks = xs ++ ys; current = cur }) ≡ (
        let v = alone a c (record { marks = ys; current = cur }) in
        record v { marks = xs ++ v.marks })
alone-marks at_point c xs ys cur =
    ap (λ ms. record { marks = ms; current = cur }) (append_assoc xs ys _)
alone-marks (interval_from s) c xs ys cur =
    ap (λ ms. record { marks = ms; current = cur }) (append_assoc xs ys _)
alone-marks continuous_on c xs ys cur =
    ap (λ ms. record { marks = ms; current = some (started c) }) (append_assoc xs ys _)
alone-marks continuous_end c xs ys cur =
    ap (λ ms. record { marks = ms; current = none }) (append_assoc xs ys _)

timeline_from-marks :
    (tag : Str) (t : ℕ) (cs : List Call) (xs ys : List Mark) (cur : Option Continuous)
    → timeline_from tag t cs (record { marks = xs ++ ys; current = cur })
      ≡ xs ++ timeline_from tag t cs (record { marks = ys; current = cur })
timeline_from-marks tag t [] xs ys cur = append_assoc xs ys (closed t tag cur)
timeline_from-marks tag t (c ∷ cs) xs ys cur =
    let v = alone c.action c (record { marks = ys; current = cur }) in
    elim (Bool-cases (c.tag == tag)) [
      | inl hit ↦ rw hit (
          ap (timeline_from tag t cs) (alone-marks c.action c xs ys cur)
          ∙ timeline_from-marks tag t cs xs v.marks v.current)
      | inr miss ↦ rw miss (timeline_from-marks tag t cs xs ys cur)
    ]

abbrev is_on : Option Continuous → Bool
is_on none = false
is_on (some _) = true

abbrev Waits : ℕ → ℕ → Option Continuous → Type 0
Waits low now none = low ≤ now
Waits low now (some cont) = (low ≤ cont.start) × (cont.start ≤ now)

-- What is to be shown of the calls that follow.
abbrev Tiled : Str → ℕ → List Call → Type 0
Tiled tag t cs =
    (low now : ℕ) (cur : Option Continuous)
    → Waits low now cur
    → is_proper tag t now (is_on cur) cs ≡ true
    → Tiles low (timeline_from tag t cs (from_nothing cur))

Tiles-first :
    (tag : Str) (t : ℕ) (cs : List Call) (m : Mark) (cur : Option Continuous) (low : ℕ)
    → low ≤ m.start
    → m.start ≤ m.end_time
    → Tiles m.end_time (timeline_from tag t cs (from_nothing cur))
    → Tiles low (timeline_from tag t cs (record { marks = m ∷ []; current = cur }))
Tiles-first tag t cs m cur low h k rest =
    subst (Tiles low) (sym (timeline_from-marks tag t cs (m ∷ []) [] cur)) (h, k, rest)

alone-Tiled :
    (a : Action) (c : Call) (tag : Str) (t : ℕ) (cs : List Call)
    → Tiled tag t cs
    → (low now : ℕ) (cur : Option Continuous) → Waits low now cur
    → now ≤ c.time
    → elim (next_on a (is_on cur)) [ none ↦ false | some on' ↦ is_proper tag t c.time on' cs ]
      ≡ true
    → Tiles low (timeline_from tag t cs (alone a c (from_nothing cur)))
unfolding concretize
alone-Tiled at_point c tag t cs ih low now cur w le h = absurd (ground (arith, h))
alone-Tiled (interval_from s) c tag t cs ih low now cur w le h = absurd (ground (arith, h))
alone-Tiled continuous_on c tag t cs ih low now none w le h =
    ih low c.time (some (started c)) (omega (arith, w, le), omega arith) h
alone-Tiled continuous_on c tag t cs ih low now (some cont) w le h =
    Tiles-first tag t cs (concretize c.time c.tag cont) (some (started c)) low w.0
      (omega (arith, w, le)) (ih c.time c.time (some (started c)) (omega arith, omega arith) h)
alone-Tiled continuous_end c tag t cs ih low now none w le h = absurd (ground (arith, h))
alone-Tiled continuous_end c tag t cs ih low now (some cont) w le h =
    Tiles-first tag t cs (concretize c.time c.tag cont) none low w.0 (omega (arith, w, le))
      (ih c.time c.time none (omega arith) h)

Waits-later :
    (low now later : ℕ) (cur : Option Continuous)
    → Waits low now cur
    → now ≤ later
    → Waits low later cur
Waits-later low now later none w h = omega (arith, w, h)
Waits-later low now later (some cont) w h = (w.0, omega (arith, w, h))

both : (a b : Bool) → (a && b) ≡ true → (a ≡ true) × (b ≡ true)
both a b h = ground (arith, h)

if_hit : (b x y : Bool) → b ≡ true → (if b then x else y) ≡ true → x ≡ true
if_hit b x y h e = ground (arith, h, e)

if_miss : (b x y : Bool) → b ≡ false → (if b then x else y) ≡ true → y ≡ true
if_miss b x y h e = ground (arith, h, e)

timeline_from-Tiled : (tag : Str) (t : ℕ) (cs : List Call) → Tiled tag t cs
unfolding concretize
timeline_from-Tiled tag t [] low now none w h = tt
timeline_from-Tiled tag t [] low now (some cont) w h = (w.0, ground (arith, w, h), tt)
timeline_from-Tiled tag t (c ∷ cs) low now cur w h =
    let p = both (leb now c.time) _ h in
    let le : now ≤ c.time = leb→le now c.time p.0 in
    elim (Bool-cases (c.tag == tag)) [
      | inl hit ↦ rw hit (
          alone-Tiled c.action c tag t cs (timeline_from-Tiled tag t cs) low now cur w le
            (if_hit _ _ _ hit p.1))
      | inr miss ↦ rw miss (
          timeline_from-Tiled tag t cs low c.time cur (Waits-later low now c.time cur w le)
            (if_miss _ _ _ miss p.1))
    ]

-- The intervals of a tag that is annotated in time order, by continuous annotations alone, which are
-- ended only while one goes on, do not overlap, and each ends no sooner than it starts.
pub finalize-Tiles :
    (tag : Str) (t : ℕ) (cs : List Call)
    → is_proper tag t 0 false cs ≡ true
    → Tiles 0 (of_tag tag (finalize t (run cs mk_annotation)).0)
finalize-Tiles tag t cs h =
    subst (Tiles 0) (sym (finalize-timeline tag t cs))
      (timeline_from-Tiled tag t cs 0 0 none (omega arith) h)
