-- ===== src/Controller/Nodes.antt =====
-- Draining and uncordoning the nodes of a stage (pkg/controller/maintenance/maintenencejob.go).
pub mod Draining
use vihara.Prelude.{
  String, Bool, true, false, not, ◌&&◌, ◌||◌, Option, none, some, is_some, List, [], ◌∷◌, ◌++◌,
  ◌==◌, Map, insert, length, eqb, if◌then◌else◌,
}
use vihara.Api.{
  Time, Node, Taint, TaintEffect, no_schedule, MaintenanceNodeSelector, MaintenanceStage,
  MaintenanceJob,
}
use vihara.Env.{Error, wrapped, Result, ok, err, Env, M, pure, deref, ◌>>=◌}
use vihara.Env.Clients
use vihara.Controller.NodeEnv.{extract_node_field_path}

-- `corev1.TaintNodeUnschedulable`
abbrev pub unschedulable : String
unschedulable = "node.kubernetes.io/unschedulable"

abbrev is_no_schedule : TaintEffect → Bool
is_no_schedule no_schedule = true
is_no_schedule _ = false

-- the test of `drainNodes` on one taint
abbrev pub is_expected_taint : Taint → Bool
is_expected_taint t =
    is_no_schedule t.effect && t.key == unschedulable && is_some t.time_added && t.value == ""

unfoldable pub has_expected_taints : List Taint → Bool
has_expected_taints [] = false
has_expected_taints (t ∷ ts) = is_expected_taint t || has_expected_taints ts

-- the taints that `uncordonNodes` keeps
unfoldable pub remove_unschedulable : List Taint → List Taint
remove_unschedulable [] = []
remove_unschedulable (t ∷ ts) =
    let rest = remove_unschedulable ts in if t.key == unschedulable then rest else t ∷ rest

abbrev pub unschedulable_taint : Time → Taint
unschedulable_taint at = record {
  key = unschedulable;
  value = "";
  effect = no_schedule;
  time_added = some at;
}

abbrev pub with_taints : Node → List Taint → Node
with_taints node taints = record node { taints = taints }

module _ (e : Env) where
  -- the patch text of `patchUpdateNode`
  unfoldable pub node_patch : Node → Node → Result String
  node_patch old new = elim (e.marshal_node old) [
    | err x ↦ err (wrapped "failed to marshal old object" x)
    | ok old_data ↦ elim (e.marshal_node new) [
      | err x ↦ err (wrapped "failed to marshal new object" x)
      | ok new_data ↦ elim (e.merge_patch old_data new_data) [
        | err x ↦ err (wrapped "failed to generate patch data" x)
        | ok patch ↦ ok patch
      ]
    ]
  ]

  -- `patchUpdateNode`
  unfoldable pub patch_update_node : Node → Node → M (Option Error)
  patch_update_node old new = elim (node_patch old new) [
    | err x ↦ pure (some x)
    | ok patch ↦ Clients.patch_node e new.meta.name patch
  ]

  -- the loop that fills the labels
  unfoldable pub select_labels :
      Node → List MaintenanceNodeSelector → Map String → Result (Map String)
  select_labels node [] labels = ok labels
  select_labels node (s ∷ selectors) labels =
      if not (s.value_from.field_path == "")
      then elim (extract_node_field_path e node s.value_from.field_path) [
        | err x ↦ err x
        | ok value ↦ select_labels node selectors (insert s.key value labels)
      ]
      else select_labels node selectors (insert s.key s.value labels)

  -- `createSelectorFromMap`: one term for each entry, joined as the library does
  abbrev create_selector_from_map : Map String → String
  create_selector_from_map m = e.and_selectors m

  -- `getNodesByMaintenanceNodeSelectors`
  unfoldable pub get_nodes_by_selectors :
      String → List MaintenanceNodeSelector → M (Result (List Node))
  unfolding select_labels
  get_nodes_by_selectors node_name selectors = do
    got ← Clients.get_node e node_name
    elim got [
      | err x ↦ pure (err x)
      | ok node ↦ elim (select_labels node selectors []) [
        | err x ↦ pure (err x)
        | ok labels ↦ Clients.list_nodes e (create_selector_from_map labels)
      ]
    ]

  -- the loop of `drainNodes`
  unfoldable pub drain_each : List Node → M (Option Error)
  drain_each [] = pure none
  drain_each (node ∷ nodes) = elim (has_expected_taints node.taints) [
    | true ↦ drain_each nodes
    | false ↦ do
      at ← Clients.now e
      x ← patch_update_node node (with_taints node (node.taints ++ unschedulable_taint at ∷ []))
      elim x [ some x' ↦ pure (some x') | none ↦ drain_each nodes ]
  ]

  -- `drainNodes`
  unfoldable pub drain_nodes : MaintenanceJob → MaintenanceStage → M (Option Error)
  drain_nodes job stage = do
    drain ← deref stage.drain
    got ← get_nodes_by_selectors job.spec.node_name drain.node_selector
    elim got [ err x ↦ pure (some x) | ok nodes ↦ drain_each nodes ]

  -- the loop of `uncordonNodes`
  unfoldable pub uncordon_each : List Node → M (Option Error)
  uncordon_each [] = pure none
  uncordon_each (node ∷ nodes) =
      let kept = remove_unschedulable node.taints in
      elim (eqb (length kept) (length node.taints)) [
        | true ↦ pure none
        | false ↦ do
          x ← patch_update_node node (with_taints node kept)
          elim x [ some x' ↦ pure (some x') | none ↦ uncordon_each nodes ]
      ]

  -- `uncordonNodes`, which reads the selectors of the stage's drain specification
  unfoldable pub uncordon_nodes : MaintenanceJob → MaintenanceStage → M (Option Error)
  uncordon_nodes job stage = do
    drain ← deref stage.drain
    got ← get_nodes_by_selectors job.spec.node_name drain.node_selector
    elim got [ err x ↦ pure (some x) | ok nodes ↦ uncordon_each nodes ]
