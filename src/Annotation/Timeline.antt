-- ===== src/Annotation/Timeline.antt =====
-- tester1/annotation.go: the annotations of one tag, among calls for many tags.
use distributed_system.Prelude.{
  ℕ, ◌≡◌, refl, subst, ap, false, Option, none, some, List, [], ◌∷◌, ◌++◌, if◌then◌else◌, ◌==◌,
  ==_refl, Str, comparable_nat, comparable_list, Map, get, put, remove, get-put, get-remove, arith,
  Bool-cases, inl, inr, Option-cases,
}
use distributed_system.Annotation.{
  Annotation, Mark, Continuous, no_continuous, point, concretize, annotate_point_color,
  annotate_interval_color, annotate_continuous_color, annotate_continuous_end,
}

-- A call of one of the four annotating methods, with its timestamp.
pub data Action : Type 0 where
  at_point : Action
  interval_from : ℕ → Action
  continuous_on : Action
  continuous_end : Action

pub record Call : Type 0 where
  pub time : ℕ
  pub tag : Str
  pub desp : Str
  pub details : Str
  pub bgcolor : Str
  pub action : Action

abbrev pub perform : Action → Call → Annotation → Annotation
perform at_point c = annotate_point_color c.time c.tag c.desp c.details c.bgcolor
perform (interval_from s) c = annotate_interval_color c.time c.tag s c.desp c.details c.bgcolor
perform continuous_on c = annotate_continuous_color c.time c.tag c.desp c.details c.bgcolor
perform continuous_end c = annotate_continuous_end c.time c.tag

abbrev pub run : List Call → Annotation → Annotation
run [] an = an
run (c ∷ cs) an = run cs (perform c.action c an)

abbrev pub of_tag : Str → List Mark → List Mark
of_tag tag [] = []
of_tag tag (m ∷ ms) = if m.tag == tag then m ∷ of_tag tag ms else of_tag tag ms

-- What concerns one tag: its marks, and the annotation that goes on.
pub record View : Type 0 where
  pub marks : List Mark
  pub current : Option Continuous

abbrev pub view : Str → Annotation → View
view tag an = record { marks = of_tag tag an.annotations; current = get an.continuous tag }

abbrev pub closed : ℕ → Str → Option Continuous → List Mark
closed t tag none = []
closed t tag (some cont) = concretize t tag cont ∷ []

abbrev pub started : Call → Continuous
started c = record { start = c.time; desp = c.desp; details = c.details; bgcolor = c.bgcolor }

abbrev pub mark_of : ℕ → ℕ → Call → Mark
mark_of start end_time c = record (point start c.tag c.desp c.details c.bgcolor) {
  end_time = end_time;
}

abbrev pub going_on : Option Continuous → Continuous
going_on none = no_continuous
going_on (some cont) = cont

-- The calls for one tag, with a single cell in place of the map.
abbrev pub alone : Action → Call → View → View
alone at_point c v = record v { marks = v.marks ++ mark_of c.time 0 c ∷ [] }
alone (interval_from s) c v = record v { marks = v.marks ++ mark_of s c.time c ∷ [] }
alone continuous_on c v = record {
  marks = v.marks ++ closed c.time c.tag v.current;
  current = some (started c);
}
alone continuous_end c v = record {
  marks = v.marks ++ concretize c.time c.tag (going_on v.current) ∷ [];
  current = none;
}

-- The annotations of a tag as its own calls give them, finalized at `t`.
abbrev pub timeline_from : Str → ℕ → List Call → View → List Mark
timeline_from tag t [] v = v.marks ++ closed t tag v.current
timeline_from tag t (c ∷ cs) v =
    if c.tag == tag then timeline_from tag t cs (alone c.action c v) else timeline_from tag t cs v

abbrev pub timeline : Str → ℕ → List Call → List Mark
timeline tag t cs = timeline_from tag t cs (record { marks = []; current = none })

pub of_tag-append :
    (tag : Str) (xs ys : List Mark) → of_tag tag (xs ++ ys) ≡ of_tag tag xs ++ of_tag tag ys
of_tag-append tag [] ys = refl
of_tag-append tag (m ∷ xs) ys = ground (arith, of_tag-append tag xs ys)

pub append_nil : (xs : List Mark) → xs ++ [] ≡ xs
append_nil [] = refl
append_nil (m ∷ xs) = ap (◌∷◌ m) (append_nil xs)

of_tag-own : (xs : List Mark) (m : Mark) → of_tag m.tag (xs ++ m ∷ []) ≡ of_tag m.tag xs ++ m ∷ []
of_tag-own xs m = ground (arith, of_tag-append m.tag xs (m ∷ []), ==_refl m.tag)

of_tag-other :
    (tag : Str) (xs : List Mark) (m : Mark)
    → (m.tag == tag) ≡ false
    → of_tag tag (xs ++ m ∷ []) ≡ of_tag tag xs
of_tag-other tag xs m h =
    ground (arith, of_tag-append tag xs (m ∷ []), append_nil (of_tag tag xs), h)

get_own : (m : Map Str Continuous) (k : Str) (v : Continuous) → get (put m k v) k ≡ some v
get_own m k v = ground (arith, get-put m k k v, ==_refl k)

remove_own : (m : Map Str Continuous) (k : Str) → get (remove m k) k ≡ none
remove_own m k = ground (arith, get-remove m k k, ==_refl k)

view-perform_self :
    (a : Action) (c : Call) (an : Annotation)
    → view c.tag (perform a c an) ≡ alone a c (view c.tag an)
unfolding annotate_point_color annotate_interval_color annotate_continuous_color
    annotate_continuous_end concretize
view-perform_self at_point c an =
    ap (λ ms. record { marks = ms; current = get an.continuous c.tag })
      (of_tag-own an.annotations _)
view-perform_self (interval_from s) c an =
    ap (λ ms. record { marks = ms; current = get an.continuous c.tag })
      (of_tag-own an.annotations _)
view-perform_self continuous_on c an = elim (Option-cases (get an.continuous c.tag)) [
  | inl missing ↦ ground (
    arith,
    missing,
    get_own an.continuous c.tag (started c),
    append_nil (of_tag c.tag an.annotations),
  )
  | inr (cont, found) ↦ ground (
    arith,
    found,
    get_own an.continuous c.tag (started c),
    of_tag-own an.annotations (concretize c.time c.tag cont),
  )
]
view-perform_self continuous_end c an = ground (
  arith,
  remove_own an.continuous c.tag,
  of_tag-own an.annotations (concretize c.time c.tag (going_on (get an.continuous c.tag))),
)

view-perform_ne :
    (a : Action) (c : Call) (tag : Str) (an : Annotation)
    → (c.tag == tag) ≡ false
    → view tag (perform a c an) ≡ view tag an
unfolding annotate_point_color annotate_interval_color annotate_continuous_color
    annotate_continuous_end concretize
view-perform_ne at_point c tag an h =
    ground (arith, of_tag-other tag an.annotations (mark_of c.time 0 c) h)
view-perform_ne (interval_from s) c tag an h =
    ground (arith, of_tag-other tag an.annotations (mark_of s c.time c) h)
view-perform_ne continuous_on c tag an h = elim (Option-cases (get an.continuous c.tag)) [
  | inl missing ↦ ground (arith, missing, get-put an.continuous c.tag tag (started c), h)
  | inr (cont, found) ↦ ground (
    arith,
    found,
    get-put an.continuous c.tag tag (started c),
    h,
    of_tag-other tag an.annotations (concretize c.time c.tag cont) h,
  )
]
view-perform_ne continuous_end c tag an h = ground (
  arith,
  get-remove an.continuous c.tag tag,
  h,
  of_tag-other tag an.annotations (concretize c.time c.tag (going_on (get an.continuous c.tag))) h,
)

pub view-perform :
    (c : Call) (tag : Str) (an : Annotation)
    → view tag (perform c.action c an)
      ≡ (if c.tag == tag then alone c.action c (view tag an) else view tag an)
view-perform c tag an = elim (Bool-cases (c.tag == tag)) [
  | inl hit ↦
      let e : c.tag ≡ tag = (comparable_list.exact c.tag tag).0 hit in
      subst
        (λ k.
          view k (perform c.action c an)
          ≡ (if c.tag == k then alone c.action c (view k an) else view k an))
        e (ground (arith, ==_refl c.tag, view-perform_self c.action c an))
  | inr miss ↦ ground (arith, miss, view-perform_ne c.action c tag an miss)
]
