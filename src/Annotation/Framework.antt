-- ===== src/Annotation/Framework.antt =====
-- tester1/annotation.go: what the test framework annotates, and its record of the faults it made.
use distributed_system.Prelude.{
  ℕ, ◌+◌, Bool, true, false, ◌&&◌, Option, none, some, List, [], ◌∷◌, ◌++◌, if◌then◌else◌, eqb, Str,
  bytes, comparable_nat, comparable_list, replicate,
}
use distributed_system.Prelude.Decimal.{itoa}
use distributed_system.Annotation.{
  Annotation, annotate_point_color, annotate_interval_color, annotate_continuous_color,
  annotate_continuous_end, clear, color_info, color_fault, color_success, color_failure,
  color_neutral, color_user, tag_info, tag_checker, tag_partition, cleanup, Mark,
}

pub record CheckerBegin : Type 0 where
  pub ts : ℕ
  pub details : Str

pub record FrameworkInfo : Type 0 where
  pub nservers : ℕ
  pub connected : List Bool
  pub crashed : List Bool
  pub ckbegin : CheckerBegin

-- The two global variables of the package.
pub record Globals : Type 0 where
  pub annotation : Annotation
  pub finfo : FrameworkInfo

unfoldable pub mk_framework_info : ℕ → FrameworkInfo
mk_framework_info n = record {
  nservers = n;
  connected = replicate n true;
  crashed = replicate n false;
  ckbegin = record { ts = 0; details = [] };
}

-- `on_annotation f g`: a call on the annotation object alone.
abbrev pub on_annotation : (Annotation → Annotation) → Globals → Globals
on_annotation f g = record g { annotation = f g.annotation }

-- Used by users.
unfoldable pub annotate : ℕ → Str → Str → Str → Globals → Globals
annotate t tag desp details = on_annotation (annotate_point_color t tag desp details color_user)

unfoldable pub annotate_interval : ℕ → Str → ℕ → Str → Str → Globals → Globals
annotate_interval t tag start desp details =
    on_annotation (annotate_interval_color t tag start desp details color_user)

unfoldable pub annotate_continuous : ℕ → Str → Str → Str → Globals → Globals
annotate_continuous t tag desp details =
    on_annotation (annotate_continuous_color t tag desp details color_user)

-- Used by the test framework.
unfoldable pub annotate_info : ℕ → Str → Str → Globals → Globals
annotate_info t desp details =
    on_annotation (annotate_point_color t tag_info desp details color_info)

unfoldable pub annotate_info_interval : ℕ → ℕ → Str → Str → Globals → Globals
annotate_info_interval t start desp details =
    on_annotation (annotate_interval_color t tag_info start desp details color_info)

unfoldable pub annotate_test : ℕ → Str → ℕ → Globals → Globals
annotate_test t desp nservers g =
    let details = desp ++ bytes " (" ++ itoa nservers ++ bytes " servers)" in
    annotate_info t details details
      (record { annotation = clear g.annotation; finfo = mk_framework_info nservers })

unfoldable pub annotate_checker_begin : ℕ → Str → Globals → Globals
annotate_checker_begin t details g = record g {
  finfo = record g.finfo { ckbegin = record { ts = t; details = details } };
}

-- The reset at the end of the source writes to a local copy.
unfoldable pub annotate_checker_end : ℕ → Str → Str → Str → Globals → Globals
annotate_checker_end t desp details color g =
    let ckbegin = g.finfo.ckbegin in
    if eqb ckbegin.ts 0
    then on_annotation (annotate_point_color t tag_checker desp details color) g
    else on_annotation
        (annotate_interval_color t tag_checker ckbegin.ts desp
          (ckbegin.details ++ bytes ": " ++ details) color)
        g

unfoldable pub annotate_checker_success : ℕ → Str → Str → Globals → Globals
annotate_checker_success t desp details = annotate_checker_end t desp details color_success

unfoldable pub annotate_checker_failure : ℕ → Str → Str → Globals → Globals
annotate_checker_failure t desp details = annotate_checker_end t desp details color_failure

unfoldable pub annotate_checker_neutral : ℕ → Str → Str → Globals → Globals
annotate_checker_neutral t desp details = annotate_checker_end t desp details color_neutral

-- Three timestamps are taken, one by the failure and two by the cleanup.
unfoldable pub annotate_checker_failure_before_exit :
    Str → ℕ → ℕ → ℕ → Str → Str → Globals → Option (List Mark) × Globals
annotate_checker_failure_before_exit vis_enable t u v desp details g =
    let g' = annotate_checker_failure t desp details g in
    let (file, an) = cleanup vis_enable true u v (bytes "test failed") g'.annotation in
    (file, record g' { annotation = an })

-- The verb `%v` on a slice of numbers.
abbrev pub spaced : List ℕ → Str
spaced [] = []
spaced (i ∷ []) = itoa i
spaced (i ∷ rest) = itoa i ++ b' ' ∷ spaced rest

abbrev pub show_ids : List ℕ → Str
show_ids ids = b'[' ∷ spaced ids ++ b']' ∷ []

-- The loop of `annotateFault` from server `id` on: the servers in partitions of their own, the
-- connected ones and the crashed ones. `none` is the panic of a read out of range.
unfoldable pub sort_servers : ℕ → List Bool → List Bool → Option (Str × List ℕ × List ℕ)
sort_servers id [] crashed = some ([], [], [])
sort_servers id (connected ∷ rest) [] = none
sort_servers id (connected ∷ rest) (crash ∷ crashed) = elim (sort_servers (id + 1) rest crashed) [
  | none ↦ none
  | some (alone, conn, crashes) ↦
      if crash
      then some (alone, conn, id ∷ crashes)
      else if connected
      then some (alone, id ∷ conn, crashes)
      else some (b'[' ∷ itoa id ++ bytes "] " ++ alone, conn, crashes)
]

abbrev pub is_empty : List ℕ → Bool
is_empty [] = true
is_empty (_ ∷ _) = false

unfoldable pub fault_text : FrameworkInfo → Option Str
fault_text info = elim (sort_servers 0 info.connected info.crashed) [
  | none ↦ none
  | some (alone, conn, crashes) ↦ some (
      bytes "partition = "
      ++ alone
      ++ (if is_empty conn then [] else show_ids conn)
      ++ (if is_empty crashes then [] else bytes " / crash = " ++ show_ids crashes))
]

-- `slices.Equal`
abbrev pub same_bools : List Bool → List Bool → Bool
same_bools [] [] = true
same_bools (true ∷ xs) (true ∷ ys) = same_bools xs ys
same_bools (false ∷ xs) (false ∷ ys) = same_bools xs ys
same_bools _ _ = false

unfoldable pub no_fault : FrameworkInfo → Bool
no_fault info =
    same_bools (replicate info.nservers true) info.connected
    && same_bools (replicate info.nservers false) info.crashed

unfoldable pub annotate_fault : ℕ → Globals → Option Globals
annotate_fault t g =
    if no_fault g.finfo
    then some (on_annotation (annotate_continuous_end t tag_partition) g)
    else elim (fault_text g.finfo) [
      | none ↦ none
      | some text ↦
          some (on_annotation (annotate_continuous_color t tag_partition text text color_fault) g)
    ]
