-- ===== src/System/Frames/Nodes.antt =====
-- Draining and uncordoning touch no object of the controller.
use vihara.Controller.Nodes.Draining.{tainted}
use vihara.Prelude.{String, inl, inr, Option-cases, List, [], ◌∷◌, arith}
use vihara.Api.{Node, MaintenanceNodeSelector, MaintenanceStage, MaintenanceJob}
use vihara.Env.{
  Call, record_call, Result-cases, Outcome-cases, Env, State, ◌>>=◌, pure, deref, panic,
}
use vihara.Env.Clients.{now, get_node, list_nodes, patch_node}
use vihara.Controller.Nodes.{
  node_patch, with_taints, remove_unschedulable, patch_update_node, get_nodes_by_selectors,
  drain_each, drain_nodes, uncordon_each, uncordon_nodes,
}
use vihara.System.Frames.{Untouched, Untouched-refl}

module _ (e : Env) where
  Untouched-drain_each : (nodes : List Node) (s : State) → Untouched s (drain_each e nodes s).1
  unfolding drain_each patch_update_node patch_node now ◌>>=◌ pure
  Untouched-drain_each [] s = Untouched-refl s
  Untouched-drain_each (node ∷ nodes) s =
      let new = tainted e node (e.now s.history) in
      elim (Result-cases (node_patch e node new)) [
        | inl (x, bad) ↦ ground (arith, Untouched-drain_each nodes s)
        | inr (patch, got) ↦
            let t = record_call (Call.patch_node node.meta.name patch) (now e s).1 in
            ground (arith, Untouched-drain_each nodes s, Untouched-drain_each nodes t)
      ]

  Untouched-uncordon_each :
      (nodes : List Node) (s : State) → Untouched s (uncordon_each e nodes s).1
  unfolding uncordon_each patch_update_node patch_node ◌>>=◌ pure
  Untouched-uncordon_each [] s = Untouched-refl s
  Untouched-uncordon_each (node ∷ nodes) s =
      elim (Result-cases
        (node_patch e node (with_taints node (remove_unschedulable node.taints)))) [
          | inl (x, bad) ↦ ground arith
          | inr (patch, got) ↦
              let t = record_call (Call.patch_node node.meta.name patch) s in
              ground (arith, Untouched-uncordon_each nodes t)
        ]

  Untouched-get_nodes :
      (name : String) (selectors : List MaintenanceNodeSelector) (s : State)
      → Untouched s (get_nodes_by_selectors e name selectors s).1
  unfolding get_nodes_by_selectors get_node list_nodes ◌>>=◌ pure
  Untouched-get_nodes name selectors s = ground arith

  pub Untouched-drain_nodes :
      (job : MaintenanceJob) (stage : MaintenanceStage) (s : State)
      → Untouched s (drain_nodes e job stage s).1
  unfolding drain_nodes ◌>>=◌ pure deref panic
  Untouched-drain_nodes job stage s = elim (Option-cases stage.drain) [
    | inl missing ↦ ground arith
    | inr (drain, there) ↦
        let m = get_nodes_by_selectors e job.spec.node_name drain.node_selector in
        let quiet = Untouched-get_nodes job.spec.node_name drain.node_selector s in
        elim (Outcome-cases (m s).0) [
          | inl stuck ↦ ground arith
          | inr (inl (x, bad)) ↦ ground arith
          | inr (inr (nodes, got)) ↦ ground (arith, Untouched-drain_each nodes (m s).1)
        ]
  ]

  pub Untouched-uncordon_nodes :
      (job : MaintenanceJob) (stage : MaintenanceStage) (s : State)
      → Untouched s (uncordon_nodes e job stage s).1
  unfolding uncordon_nodes ◌>>=◌ pure deref panic
  Untouched-uncordon_nodes job stage s = elim (Option-cases stage.drain) [
    | inl missing ↦ ground arith
    | inr (drain, there) ↦
        let m = get_nodes_by_selectors e job.spec.node_name drain.node_selector in
        let quiet = Untouched-get_nodes job.spec.node_name drain.node_selector s in
        elim (Outcome-cases (m s).0) [
          | inl stuck ↦ ground arith
          | inr (inl (x, bad)) ↦ ground arith
          | inr (inr (nodes, got)) ↦ ground (arith, Untouched-uncordon_each nodes (m s).1)
        ]
  ]
