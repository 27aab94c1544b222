-- ===== src/Annotation/Checker.antt =====
-- tester1/annotation.go: the annotations of a checker.
use distributed_system.Annotation.{Mark, tag_checker, annotate_interval_color}
use distributed_system.Annotation.Framework.{Globals, annotate_checker_begin, annotate_checker_end}
use distributed_system.Prelude.{
  List, Str, [], ap, arith, bytes, map, refl, sym, ℕ, ◌++◌, ◌∙◌, ◌∷◌, ◌≡◌, ◌≢◌,
}
use distributed_system.Annotation.Timeline.{append_nil}

-- A call of AnnotateCheckerEnd, with its timestamp.
pub record Verdict : Type 0 where
  pub time : ℕ
  pub desp : Str
  pub details : Str
  pub color : Str

abbrev pub checker_ends : List Verdict → Globals → Globals
checker_ends [] g = g
checker_ends (v ∷ vs) g = checker_ends vs (annotate_checker_end v.time v.desp v.details v.color g)

abbrev verdict_mark : ℕ → Str → Verdict → Mark
verdict_mark ts begun v = record {
  tag = tag_checker;
  start = ts;
  end_time = v.time;
  description = v.desp;
  details = begun ++ bytes ": " ++ v.details;
  background_color = v.color;
}

abbrev pub verdict_marks : ℕ → Str → List Verdict → List Mark
verdict_marks ts begun = map (verdict_mark ts begun)

append_one : (xs ys : List Mark) (m : Mark) → (xs ++ m ∷ []) ++ ys ≡ xs ++ m ∷ ys
append_one [] ys m = refl
append_one (x ∷ xs) ys m = ap (◌∷◌ x) (append_one xs ys m)

checker_end-mark :
    (v : Verdict) (g : Globals)
    → g.finfo.ckbegin.ts ≢ 0
    → (annotate_checker_end v.time v.desp v.details v.color g) ≡ record g {
      annotation = record g.annotation {
        annotations =
            g.annotation.annotations
            ++ verdict_mark g.finfo.ckbegin.ts g.finfo.ckbegin.details v ∷ [];
      };
    }
unfolding annotate_checker_end annotate_interval_color
checker_end-mark v g h = ground (arith, h)

checker_ends-marks :
    (vs : List Verdict) (g : Globals)
    → g.finfo.ckbegin.ts ≢ 0
    → (checker_ends vs g).annotation.annotations
      ≡ g.annotation.annotations ++ verdict_marks g.finfo.ckbegin.ts g.finfo.ckbegin.details vs
checker_ends-marks [] g h = sym (append_nil g.annotation.annotations)
checker_ends-marks (v ∷ vs) g h =
    ap (λ g'. (checker_ends vs g').annotation.annotations) (checker_end-mark v g h)
    ∙ checker_ends-marks vs _ h
    ∙ append_one g.annotation.annotations _ _

-- After AnnotateCheckerBegin at a time other than 0, every AnnotateCheckerEnd until the next begin
-- leaves an interval that starts at that begin, not only the first one.
pub checker_ends-annotate_checker_begin :
    (ts : ℕ) (begun : Str) (vs : List Verdict) (g : Globals)
    → ts ≢ 0
    → (checker_ends vs (annotate_checker_begin ts begun g)).annotation.annotations
      ≡ g.annotation.annotations ++ verdict_marks ts begun vs
unfolding annotate_checker_begin
checker_ends-annotate_checker_begin ts begun vs g h =
    checker_ends-marks vs (annotate_checker_begin ts begun g) h
