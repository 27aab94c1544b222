-- ===== src/Annotation.antt =====
-- tester1/annotation.go: the annotations that a test leaves for the visualizer. The methods of the
-- global `annotation` are functions on its state. Each call of `timestamp` is an argument, a count of
-- nanoseconds. `finalize` ranges over a map: the order of the map is the order of the iteration.
pub mod Framework
pub mod Faults
pub mod Timeline
pub mod Tiling
pub mod Checker
pub mod Flags
pub mod Shown
mod Samples
use distributed_system.Prelude.{
  ℕ, Bool, true, false, not, ◌&&◌, ◌||◌, Option, none, some, List, [], ◌∷◌, ◌++◌, map,
  if◌then◌else◌, ◌==◌, Str, bytes, comparable_nat, comparable_list, Map, get, put, remove,
}

abbrev pub color_info : Str
color_info = bytes "#FAFAFA"

abbrev pub color_neutral : Str
color_neutral = bytes "#FFECB3"

abbrev pub color_success : Str
color_success = bytes "#C8E6C9"

abbrev pub color_failure : Str
color_failure = bytes "#FFCDD2"

abbrev pub color_fault : Str
color_fault = bytes "#B3E5FC"

abbrev pub color_user : Str
color_user = bytes "#FFF176"

abbrev pub tag_checker : Str
tag_checker = bytes "$ Checker"

abbrev pub tag_partition : Str
tag_partition = bytes "$ Failure"

abbrev pub tag_info : Str
tag_info = bytes "$ Test Info"

-- `porcupine.Annotation`, with the fields that the tester sets: a point has the end 0.
pub record Mark : Type 0 where
  pub tag : Str
  pub start : ℕ
  pub end_time : ℕ
  pub description : Str
  pub details : Str
  pub background_color : Str

pub record Continuous : Type 0 where
  pub start : ℕ
  pub desp : Str
  pub details : Str
  pub bgcolor : Str

pub record Annotation : Type 0 where
  pub annotations : List Mark
  pub continuous : Map Str Continuous
  pub finalized : Bool

unfoldable pub mk_annotation : Annotation
mk_annotation = record { annotations = []; continuous = []; finalized = false }

unfoldable pub clear : Annotation → Annotation
clear an = record an { annotations = []; continuous = []; finalized = false }

-- The zero value of `Continuous`, which a read of a missing key gives.
abbrev pub no_continuous : Continuous
no_continuous = record { start = 0; desp = []; details = []; bgcolor = [] }

abbrev pub point : ℕ → Str → Str → Str → Str → Mark
point t tag desp details bgcolor = record {
  tag = tag;
  start = t;
  end_time = 0;
  description = desp;
  details = details;
  background_color = bgcolor;
}

-- The interval of a continuous annotation that ends at `t`.
unfoldable pub concretize : ℕ → Str → Continuous → Mark
concretize t tag cont = record {
  tag = tag;
  start = cont.start;
  end_time = t;
  description = cont.desp;
  details = cont.details;
  background_color = cont.bgcolor;
}

unfoldable pub annotate_point_color : ℕ → Str → Str → Str → Str → Annotation → Annotation
annotate_point_color t tag desp details bgcolor an = record an {
  annotations = an.annotations ++ point t tag desp details bgcolor ∷ [];
}

unfoldable pub annotate_interval_color : ℕ → Str → ℕ → Str → Str → Str → Annotation → Annotation
annotate_interval_color t tag start desp details bgcolor an = record an {
  annotations =
      an.annotations
      ++ record {
        tag = tag;
        start = start;
        end_time = t;
        description = desp;
        details = details;
        background_color = bgcolor;
      }
        ∷ [];
}

unfoldable pub annotate_continuous_color : ℕ → Str → Str → Str → Str → Annotation → Annotation
annotate_continuous_color t tag desp details bgcolor an =
    let next : Continuous = record {
      start = t;
      desp = desp;
      details = details;
      bgcolor = bgcolor;
    } in
    elim (get an.continuous tag) [
      | none ↦ record an { continuous = put an.continuous tag next }
      | some cont ↦ record an {
        annotations = an.annotations ++ concretize t tag cont ∷ [];
        continuous = put an.continuous tag next;
      }
    ]

-- The branch for a missing key is empty in the source: what follows runs in both cases.
unfoldable pub annotate_continuous_end : ℕ → Str → Annotation → Annotation
annotate_continuous_end t tag an =
    let cont : Continuous = elim (get an.continuous tag) [ none ↦ no_continuous | some c ↦ c ] in
    record an {
      annotations = an.annotations ++ concretize t tag cont ∷ [];
      continuous = remove an.continuous tag;
    }

abbrev pub concretize_all : ℕ → Map Str Continuous → List Mark
concretize_all t [] = []
concretize_all t ((tag, cont) ∷ rest) = concretize t tag cont ∷ concretize_all t rest

-- `finalize` leaves the continuous annotations in their map.
unfoldable pub finalize : ℕ → Annotation → List Mark × Annotation
finalize t an = (an.annotations ++ concretize_all t an.continuous, record an { finalized = true })

unfoldable pub finalize_annotations : ℕ → ℕ → Str → Annotation → List Mark × Annotation
finalize_annotations t u end an =
    let (marks, after) = finalize t an in (marks ++ point u tag_info end end color_info ∷ [], after)

unfoldable pub set_annotation_finalized : Annotation → Annotation
set_annotation_finalized an = record an { finalized = true }

unfoldable pub get_annotation_finalized : Annotation → Bool
get_annotation_finalized an = an.finalized

-- What the visualization of a test shows: nothing when there is no annotation.
abbrev pub shown : ℕ → Str → List Mark → Option (List Mark)
shown u end [] = none
shown u end (m ∷ marks) = some (m ∷ marks ++ point u tag_info end end color_info ∷ [])

-- `cleanup` up to the opening of the file, with the value of VIS_ENABLE: what is to be written, if
-- anything, and the state that it leaves.
unfoldable pub cleanup : Str → Bool → ℕ → ℕ → Str → Annotation → Option (List Mark) × Annotation
cleanup vis_enable failed t u end an =
    if vis_enable == bytes "never"
      || not failed && not (vis_enable == bytes "always")
      || get_annotation_finalized an
    then (none, clear an)
    else (let (marks, after) = finalize t an in (shown u end marks, after))
