-- ===== src/Annotation/Faults.antt =====
-- tester1/annotation.go: the annotations of the faults that the tester makes. Server ids are
-- indices: `none` is the panic of an index out of range.
use distributed_system.Prelude.{
  ℕ, Bool, true, false, not, ◌||◌, Option, none, some, List, [], ◌∷◌, ◌++◌, if◌then◌else◌, bytes,
  get_elem?, set, map, ids_from,
}
use distributed_system.Annotation.{
  annotate_continuous_color, annotate_continuous_end, color_fault, tag_partition,
}
use distributed_system.Annotation.Framework.{
  Globals, on_annotation, show_ids, same_bools, annotate_fault,
}

-- `copy(dst, src)`
unfoldable pub copy_bools : List Bool → List Bool → List Bool
copy_bools [] src = []
copy_bools (x ∷ dst) [] = x ∷ dst
copy_bools (x ∷ dst) (y ∷ src) = y ∷ copy_bools dst src

unfoldable pub annotate_connection : ℕ → List Bool → Globals → Option Globals
annotate_connection t connection g =
    if same_bools g.finfo.connected connection
    then some g
    else annotate_fault t (record g {
      finfo = record g.finfo { connected = copy_bools g.finfo.connected connection };
    })

unfoldable pub annotate_two_partitions : ℕ → List ℕ → List ℕ → Globals → Globals
annotate_two_partitions t p1 p2 =
    let text = bytes "partition = " ++ show_ids p1 ++ b' ' ∷ show_ids p2 in
    on_annotation (annotate_continuous_color t tag_partition text text color_fault)

unfoldable pub annotate_clear_failure : ℕ → Globals → Globals
annotate_clear_failure t g =
    let info = record g.finfo {
      crashed = map (λ (b : Bool). false) g.finfo.crashed;
      connected = map (λ (b : Bool). true) g.finfo.connected;
    } in
    on_annotation (annotate_continuous_end t tag_partition) (record g { finfo = info })

-- The loop of `AnnotateShutdown` and of `AnnotateRestart`: it writes `value` for each server, and
-- tells whether a flag has changed.
unfoldable pub mark_servers : Bool → List ℕ → Bool × List Bool → Option (Bool × List Bool)
mark_servers value [] st = some st
mark_servers value (id ∷ servers) (changed, crashed) = elim (get_elem? crashed id) [
  | none ↦ none
  | some old ↦
      mark_servers value servers
        (changed || not (same_bools (old ∷ []) (value ∷ [])), set crashed id value)
]

unfoldable pub mark_crashed : Bool → ℕ → List ℕ → Globals → Option Globals
mark_crashed value t servers g = elim (mark_servers value servers (false, g.finfo.crashed)) [
  | none ↦ none
  | some (changed, crashed) ↦
      let g' = record g { finfo = record g.finfo { crashed = crashed } } in
      if changed then annotate_fault t g' else some g'
]

unfoldable pub annotate_shutdown : ℕ → List ℕ → Globals → Option Globals
annotate_shutdown = mark_crashed true

unfoldable pub annotate_restart : ℕ → List ℕ → Globals → Option Globals
annotate_restart = mark_crashed false

unfoldable pub annotate_shutdown_all : ℕ → Globals → Option Globals
annotate_shutdown_all t g = annotate_shutdown t (ids_from 0 g.finfo.nservers) g

unfoldable pub annotate_restart_all : ℕ → Globals → Option Globals
annotate_restart_all t g = annotate_restart t (ids_from 0 g.finfo.nservers) g
