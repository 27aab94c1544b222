-- ===== src/Annotation/Samples.antt =====
-- Small tests for tester1/annotation.go: a partition that grows, and three servers that crash and
-- come back.
use distributed_system.Annotation.{
  Mark, mk_annotation, finalize, finalize_annotations, cleanup, clear, set_annotation_finalized,
  concretize, annotate_point_color, annotate_continuous_color, annotate_continuous_end,
  annotate_interval_color, get_annotation_finalized, color_success,
}
use distributed_system.Annotation.Framework.{
  Globals, annotate_test, annotate_checker_begin, annotate_checker_end, mk_framework_info,
  annotate_fault, no_fault, annotate_info, fault_text, sort_servers,
}
use distributed_system.Annotation.Faults.{
  annotate_connection, annotate_shutdown, annotate_restart, annotate_two_partitions,
  annotate_clear_failure, mark_crashed, copy_bools, mark_servers,
}
use distributed_system.Annotation.Timeline.{
  Call, Action, at_point, continuous_on, continuous_end, run, of_tag, timeline,
}
use distributed_system.Annotation.Tiling.{is_proper, Tiles, finalize-timeline, finalize-Tiles}
use distributed_system.Annotation.Shown.{
  FaultCall, connection, shutdown, restart, fault_calls, shown_fault, current_fault,
  fault_calls-ShowsFault,
}
use distributed_system.Prelude.{
  List, Str, [], arith, bytes, false, get, none, put, refl, remove, some, true, ℕ, ◌∷◌, ◌≡◌,
}
use distributed_system.Prelude.Decimal.{itoa}
use distributed_system.Annotation.Checker.{Verdict}

program : Unit {0}
unfolding mk_annotation finalize finalize_annotations cleanup clear set_annotation_finalized
    concretize annotate_point_color annotate_test annotate_checker_begin annotate_checker_end
    mk_framework_info annotate_fault no_fault annotate_connection annotate_shutdown annotate_restart
    mark_crashed annotate_two_partitions annotate_clear_failure annotate_interval_color
    annotate_continuous_color annotate_continuous_end annotate_info get_annotation_finalized
    fault_text sort_servers mark_servers copy_bools get put remove itoa
program = tt

abbrev call : ℕ → Str → Str → Action → Call
call t tag text action = record {
  time = t;
  tag = tag;
  desp = text;
  details = text;
  bgcolor = [];
  action = action;
}

-- Two texts of one tag, with a point of another between them.
abbrev calls : List Call
calls =
    call 10 (bytes "f") (bytes "one") continuous_on
    ∷ call 12 (bytes "g") (bytes "here") at_point
    ∷ call 15 (bytes "f") (bytes "two") continuous_on
    ∷ call 20 (bytes "f") [] continuous_end
    ∷ []

abbrev interval : ℕ → ℕ → Str → Mark
interval s e text = record {
  tag = bytes "f";
  start = s;
  end_time = e;
  description = text;
  details = text;
  background_color = [];
}

timeline_test :
    timeline (bytes "f") 30 calls ≡ interval 10 15 (bytes "one") ∷ interval 15 20 (bytes "two") ∷ []
unfolding program
timeline_test = refl

-- An end with nothing that goes on leaves an interval from the time 0.
stray_end_test :
    (finalize 30 (run (call 20 (bytes "f") [] continuous_end ∷ []) mk_annotation)).0
    ≡ interval 0 20 [] ∷ []
unfolding program
stray_end_test = refl

cleanup_test :
    (cleanup (bytes "always") false 30 31 [] (run calls mk_annotation)).1.finalized ≡ true
unfolding program
cleanup_test = refl

cleanup_never_test :
    cleanup (bytes "never") true 30 31 [] (run calls mk_annotation) ≡ (none, mk_annotation)
unfolding program
cleanup_never_test = refl

abbrev globals : Globals
unfolding program
globals = record {
  annotation = record { annotations = []; continuous = []; finalized = true };
  finfo = mk_framework_info 1;
}

-- One begin and two ends.
abbrev verdicts : List Verdict
verdicts =
    record { time = 50; desp = bytes "ok"; details = bytes "first"; color = color_success }
    ∷ record { time = 60; desp = bytes "ok"; details = bytes "second"; color = color_success }
    ∷ []

abbrev faults : List (ℕ × FaultCall)
faults =
    (5, connection (true ∷ false ∷ true ∷ []))
    ∷ (6, shutdown (0 ∷ 2 ∷ []))
    ∷ (7, restart (0 ∷ []))
    ∷ []

faults_test :
    elim (fault_calls faults (annotate_test 1 (bytes "test") 3 globals)) [
      | none ↦ none
      | some g ↦ shown_fault g
    ]
    ≡ some (bytes "partition = [1] [0] / crash = [2]")
unfolding program
faults_test = refl

finalize-timeline_example :
    of_tag (bytes "f") (finalize 30 (run calls mk_annotation)).0 ≡ timeline (bytes "f") 30 calls
finalize-timeline_example = finalize-timeline (bytes "f") 30 calls

calls-proper : is_proper (bytes "f") 30 0 false calls ≡ true
unfolding program
calls-proper = refl

finalize-Tiles_example : Tiles 0 (of_tag (bytes "f") (finalize 30 (run calls mk_annotation)).0)
finalize-Tiles_example = finalize-Tiles (bytes "f") 30 calls calls-proper

fault_calls-ShowsFault_example :
    (g : Globals) × (fault_calls faults (annotate_test 1 (bytes "test") 3 globals) ≡ some g)
    × (shown_fault g ≡ current_fault g.finfo)
fault_calls-ShowsFault_example =
    fault_calls-ShowsFault 1 (bytes "test") 3 faults globals
      (tt, ((omega arith, (omega arith, tt)), ((omega arith, tt), tt)))
