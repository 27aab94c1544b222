-- ===== src/Annotation/Shown.antt =====
-- tester1/annotation.go: what the visualizer shows of the faults, after calls that set the flags of the
-- servers. AnnotateTwoPartitions sets none and shows a text of its own, so it is not among them.
use distributed_system.Prelude.{
  ◌<◌, ◌∙◌, length, All, All-imp, length-map, length-replicate, ℕ, ◌≡◌, refl, ap, sym, subst, Bool,
  true, false, Option, none, some, List, [], ◌∷◌, if◌then◌else◌, Str, comparable_nat,
  comparable_list, comparable_list, get, get-put_self, get-remove_self, Bool-cases, inl, inr, arith,
  Option-cases, if_cases, replicate,
}
use distributed_system.Annotation.{
  Annotation, Continuous, tag_partition, annotate_continuous_color, annotate_continuous_end,
  color_fault, annotate_point_color, clear,
}
use distributed_system.Annotation.Framework.{
  on_annotation, same_bools, Globals, FrameworkInfo, annotate_fault, no_fault, fault_text,
  annotate_test, annotate_info, mk_framework_info,
}
use distributed_system.Annotation.Faults.{
  annotate_connection, annotate_shutdown, annotate_restart, annotate_clear_failure, mark_crashed,
  annotate_shutdown_all, annotate_restart_all, mark_servers,
}
use distributed_system.Annotation.Flags.{
  all_well, ids_from-in_range, length-copy_bools, mark_servers-total, same_bools_self,
  sort_servers-total,
}

pub data FaultCall : Type 0 where
  connection : List Bool → FaultCall
  shutdown : List ℕ → FaultCall
  restart : List ℕ → FaultCall
  shutdown_all restart_all clear_failure : FaultCall

abbrev fault_call : ℕ → FaultCall → Globals → Option Globals
fault_call t (connection c) g = annotate_connection t c g
fault_call t (shutdown servers) g = annotate_shutdown t servers g
fault_call t (restart servers) g = annotate_restart t servers g
fault_call t shutdown_all g = annotate_shutdown_all t g
fault_call t restart_all g = annotate_restart_all t g
fault_call t clear_failure g = some (annotate_clear_failure t g)

-- The calls, each with its timestamp.
abbrev pub fault_calls : List (ℕ × FaultCall) → Globals → Option Globals
fault_calls [] g = some g
fault_calls ((t, c) ∷ cs) g = elim (fault_call t c g) [ none ↦ none | some g' ↦ fault_calls cs g' ]

abbrev description : Option Continuous → Option Str
description none = none
description (some cont) = some cont.desp

-- The text that is being shown for the tag of failures.
abbrev pub shown_fault : Globals → Option Str
shown_fault g = description (get g.annotation.continuous tag_partition)

abbrev pub current_fault : FrameworkInfo → Option Str
current_fault info = if no_fault info then none else fault_text info

abbrev pub ShowsFault : Globals → Type 0
ShowsFault g = shown_fault g ≡ current_fault g.finfo

abbrev IsSized : ℕ → FrameworkInfo → Type 0
IsSized n info = (info.nservers ≡ n) × (length info.connected ≡ n) × (length info.crashed ≡ n)

abbrev Leaves : ℕ → Option Globals → Type 0
Leaves n r = (g : Globals) × (r ≡ some g) × IsSized n g.finfo × ShowsFault g

fault_text-total :
    (info : FrameworkInfo) (n : ℕ) → IsSized n info → (text : Str) × (fault_text info ≡ some text)
unfolding fault_text
fault_text-total info n h =
    let (parts, e) = sort_servers-total 0 info.connected info.crashed (h.1 ∙ sym h.2) in
    rw (e, fault_text) (_, refl)

continuous_color-get :
    (t : ℕ) (tag desp details bgcolor : Str) (an : Annotation)
    → get (annotate_continuous_color t tag desp details bgcolor an).continuous tag
      ≡ some (record { start = t; desp = desp; details = details; bgcolor = bgcolor })
unfolding annotate_continuous_color
continuous_color-get t tag desp details bgcolor an = elim (Option-cases (get an.continuous tag)) [
  | inl missing ↦ rw (missing, annotate_continuous_color) (get-put_self an.continuous tag _)
  | inr (cont, found) ↦ rw (found, annotate_continuous_color) (get-put_self an.continuous tag _)
]

shows_none : (info : FrameworkInfo) → no_fault info ≡ true → none ≡ current_fault info
shows_none info h = ground (arith, h)

shows_text :
    (info : FrameworkInfo) (text : Str)
    → no_fault info ≡ false
    → fault_text info ≡ some text
    → some text ≡ current_fault info
shows_text info text h e = ground (arith, h, e)

annotate_fault-Leaves : (t n : ℕ) (g : Globals) → IsSized n g.finfo → Leaves n (annotate_fault t g)
unfolding annotate_fault annotate_continuous_end annotate_continuous_color
annotate_fault-Leaves t n g h = elim (Bool-cases (no_fault g.finfo)) [
  | inl hit ↦ (
    on_annotation (annotate_continuous_end t tag_partition) g,
    ground (arith, hit),
    h,
    ap description (get-remove_self g.annotation.continuous tag_partition) ∙ shows_none g.finfo hit,
  )
  | inr miss ↦
      let (text, e) = fault_text-total g.finfo n h in
      (
        on_annotation (annotate_continuous_color t tag_partition text text color_fault) g,
        ground (arith, miss, e),
        h,
        ap description (continuous_color-get t tag_partition text text color_fault g.annotation)
            ∙ shows_text g.finfo text miss e,
      )
]

mark_crashed-result :
    (value : Bool) (t n : ℕ) (servers : List ℕ) (g : Globals) (moved : Bool) (crashed : List Bool)
    → IsSized n g.finfo
    → ShowsFault g
    → mark_servers value servers (false, g.finfo.crashed) ≡ some (moved, crashed)
    → length crashed ≡ n
    → (moved ≡ false → crashed ≡ g.finfo.crashed)
    → Leaves n (mark_crashed value t servers g)
unfolding mark_crashed
mark_crashed-result value t n servers g true crashed size shows e len unmoved =
    rw (e, mark_crashed) (annotate_fault-Leaves t n _ (size.0, size.1, len))
mark_crashed-result value t n servers g false crashed size shows e len unmoved = (
  record g { finfo = record g.finfo { crashed = crashed } },
  rw (e, mark_crashed) refl,
  (size.0, size.1, len),
  subst (λ cr. shown_fault g ≡ current_fault (record g.finfo { crashed = cr })) (sym (unmoved refl))
      shows,
)

mark_crashed-Leaves :
    (value : Bool) (t n : ℕ) (servers : List ℕ) (g : Globals)
    → IsSized n g.finfo
    → ShowsFault g
    → All (λ id. id < n) servers
    → Leaves n (mark_crashed value t servers g)
mark_crashed-Leaves value t n servers g size shows h =
    let (after, e, same_size, unmoved) =
      mark_servers-total value servers false g.finfo.crashed
        (All-imp (λ i lt. omega (arith, lt, size.2)) servers h) in
    mark_crashed-result value t n servers g after.0 after.1 size shows e (same_size ∙ size.2)
      (λ quiet. (unmoved quiet).1)

abbrev pub IsInRange : ℕ → ℕ × FaultCall → Type 0
IsInRange n (t, shutdown servers) = All (λ id. id < n) servers
IsInRange n (t, restart servers) = All (λ id. id < n) servers
IsInRange n (t, _) = Unit

fault_call-Leaves :
    (t n : ℕ) (c : FaultCall) (g : Globals)
    → IsInRange n (t, c)
    → IsSized n g.finfo
    → ShowsFault g
    → Leaves n (fault_call t c g)
unfolding annotate_connection annotate_shutdown annotate_restart annotate_shutdown_all
    annotate_restart_all annotate_clear_failure annotate_continuous_end no_fault
fault_call-Leaves t n (connection c) g h size shows =
    if_cases (Leaves n) (same_bools g.finfo.connected c) _ _ (λ same. (g, refl, size, shows))
      (λ differ.
        annotate_fault-Leaves t n _
          (size.0, length-copy_bools g.finfo.connected c ∙ size.1, size.2))
fault_call-Leaves t n (shutdown servers) g h size shows =
    mark_crashed-Leaves true t n servers g size shows h
fault_call-Leaves t n (restart servers) g h size shows =
    mark_crashed-Leaves false t n servers g size shows h
fault_call-Leaves t n shutdown_all g h size shows =
    mark_crashed-Leaves true t n _ g size shows
      (ids_from-in_range 0 g.finfo.nservers n (omega (arith, size.0)))
fault_call-Leaves t n restart_all g h size shows =
    mark_crashed-Leaves false t n _ g size shows
      (ids_from-in_range 0 g.finfo.nservers n (omega (arith, size.0)))
fault_call-Leaves t n clear_failure g h size shows = (
  annotate_clear_failure t g,
  refl,
  (size.0, length-map _ g.finfo.connected ∙ size.1, length-map _ g.finfo.crashed ∙ size.2),
  ap description (get-remove_self g.annotation.continuous tag_partition)
      ∙ shows_none (annotate_clear_failure t g).finfo (
          all_well g.finfo.nservers g.finfo.connected g.finfo.crashed (size.1 ∙ sym size.0)
            (size.2 ∙ sym size.0)),
)

fault_calls-Leaves :
    (n : ℕ) (cs : List (ℕ × FaultCall)) (g : Globals)
    → All (IsInRange n) cs
    → IsSized n g.finfo
    → ShowsFault g
    → Leaves n (fault_calls cs g)
fault_calls-Leaves n [] g h size shows = (g, refl, size, shows)
fault_calls-Leaves n ((t, c) ∷ cs) g h size shows =
    let (g', e, size', shows') = fault_call-Leaves t n c g h.0 size shows in
    let (g'', e', rest, shows'') = fault_calls-Leaves n cs g' h.1 size' shows' in
    (g'', rw (e, fault_calls) e', rest, shows'')

starts_well : (n : ℕ) → no_fault (mk_framework_info n) ≡ true
unfolding no_fault mk_framework_info
starts_well n =
    ground (arith, same_bools_self (replicate n true), same_bools_self (replicate n false))

-- After AnnotateTest and any calls, with ids in range, of AnnotateConnection, AnnotateShutdown and
-- AnnotateRestart, of the last two for all servers, and of AnnotateClearFailure, the fault that is being
-- shown is the one of the present flags, and none when every server is up and connected.
pub fault_calls-ShowsFault :
    (u : ℕ) (desp : Str) (n : ℕ) (cs : List (ℕ × FaultCall)) (g : Globals)
    → All (IsInRange n) cs
    → (g' : Globals) × (fault_calls cs (annotate_test u desp n g) ≡ some g')
      × (shown_fault g' ≡ current_fault g'.finfo)
unfolding annotate_test annotate_info annotate_point_color clear mk_framework_info no_fault get
fault_calls-ShowsFault u desp n cs g h =
    let (g', e, size, shows) =
      fault_calls-Leaves n cs (annotate_test u desp n g) h
        (refl, length-replicate n true, length-replicate n false)
        (shows_none (mk_framework_info n) (starts_well n)) in
    (g', e, shows)
