-- ===== src/Controller/Nodes/Draining.antt =====
-- What draining and uncordoning do to the nodes.
use vihara.Prelude.{
  ◌≡◌, refl, sym, ap, ◌⊎◌, inl, inr, Bool-cases, String, true, false, none, List, [], ◌∷◌, ◌++◌,
  All, length, arith,
}
use vihara.Api.{Time, Node, Taint}
use mathlib.Core.Path.{subst}
use mathlib.Core.List.{Memᴰ}
use vihara.Env.{Call, History, Env, State, Result-cases, record_call, returned, ok, ◌>>=◌, pure}
use vihara.Env.Clients.{now, patch_node}
use vihara.Env.Trace.{patches}
use vihara.Controller.Nodes.{
  unschedulable_taint, has_expected_taints, remove_unschedulable, with_taints, node_patch,
  patch_update_node, drain_each, uncordon_each,
}

-- The taint that draining adds is the one that it looks for.
has_expected_taints-append :
    (taints : List Taint) (at : Time)
    → has_expected_taints (taints ++ unschedulable_taint at ∷ []) ≡ true
unfolding has_expected_taints
has_expected_taints-append [] at = refl
has_expected_taints-append (t ∷ taints) at = ground (arith, has_expected_taints-append taints at)

module _ (e : Env) where
  -- Nodes that all have the taint are left alone: draining makes no call.
  drain_each_of_drained :
      (nodes : List Node) (s : State)
      → All (λ node. has_expected_taints node.taints ≡ true) nodes
      → drain_each e nodes s ≡ (returned none, s)
  unfolding drain_each pure
  drain_each_of_drained [] s h = refl
  drain_each_of_drained (node ∷ nodes) s (h, hs) =
      rw (h, drain_each) (drain_each_of_drained nodes s hs)

  -- The node with the taint that draining adds at a time.
  abbrev pub tainted : Node → Time → Node
  tainted node at = with_taints node (node.taints ++ unschedulable_taint at ∷ [])

  -- A node that has the taint, or whose patch to have it is in a history.
  abbrev pub IsDrained : History → Node → Type 0
  IsDrained h node =
      (has_expected_taints node.taints ≡ true)
      ⊎ ((at : Time) × (patch : String) × (has_expected_taints (tainted node at).taints ≡ true)
          × (node_patch e node (tainted node at) ≡ ok patch)
          × Memᴰ (node.meta.name, patch) (patches h))

  abbrev patched : Node → String → State → State
  patched node patch s = record_call (Call.patch_node node.meta.name patch) (now e s).1

  drain_each_skip :
      (node : Node) (nodes : List Node) (s : State)
      → has_expected_taints node.taints ≡ true
      → drain_each e (node ∷ nodes) s ≡ drain_each e nodes s
  unfolding drain_each
  drain_each_skip node nodes s has = rw (has, drain_each)

  module _ (node : Node) (nodes : List Node) (s : State)
      (missing : has_expected_taints node.taints ≡ false) where
    drain_each_cons :
        (drain_each e (node ∷ nodes) s).0 ≡ returned none
        → (patch : String) × (node_patch e node (tainted node (e.now s.history)) ≡ ok patch)
          × (drain_each e (node ∷ nodes) s ≡ drain_each e nodes (patched node patch s))
    unfolding drain_each patch_update_node patch_node now ◌>>=◌ pure
    drain_each_cons done =
        elim (Result-cases (node_patch e node (tainted node (e.now s.history)))) [
          | inl (x, refused) ↦ ground arith
          | inr (patch, got) ↦ (patch, got, ground arith)
        ]

  mem-patches-drain_each :
      (nodes : List Node) (s : State) (entry : String × String)
      → (drain_each e nodes s).0 ≡ returned none
      → Memᴰ entry (patches s.history)
      → Memᴰ entry (patches (drain_each e nodes s).1.history)
  unfolding drain_each pure now
  mem-patches-drain_each [] s entry done m = m
  mem-patches-drain_each (node ∷ nodes) s entry done m =
      elim (Bool-cases (has_expected_taints node.taints)) [
        | inl has ↦
            let same = drain_each_skip node nodes s has in
            rw same (mem-patches-drain_each nodes s entry (rw same at done) m)
        | inr missing ↦
            let (patch, _, same) = drain_each_cons node nodes s missing done in
            rw same (
              mem-patches-drain_each nodes (patched node patch s) entry (rw same at done)
                (Memᴰ.tail m))
      ]

  -- If draining returns with no error, each of the nodes has the taint that draining looks for, or
  -- a patch of this node was sent that gives it the taint.
  pub drain_each-IsDrained :
      (nodes : List Node) (s : State)
      → (drain_each e nodes s).0 ≡ returned none
      → All (IsDrained (drain_each e nodes s).1.history) nodes
  drain_each-IsDrained [] s done = tt
  drain_each-IsDrained (node ∷ nodes) s done = elim (Bool-cases (has_expected_taints node.taints)) [
    | inl has ↦
        let same = drain_each_skip node nodes s has in
        (
          inl has,
          subst (λ r. All (IsDrained r.1.history) nodes) (sym same)
              (drain_each-IsDrained nodes s (rw same at done)),
        )
    | inr missing ↦
        let (patch, got, same) = drain_each_cons node nodes s missing done in
        let done' : (drain_each e nodes (patched node patch s)).0 ≡ returned none =
          rw same at done in
        let at = e.now s.history in
        (
          inr (
            at,
            patch,
            has_expected_taints-append node.taints at,
            got,
            rw same (
                mem-patches-drain_each nodes (patched node patch s) (node.meta.name, patch) done'
                  (Memᴰ.head refl)),
          ),
          subst (λ r. All (IsDrained r.1.history) nodes) (sym same)
              (drain_each-IsDrained nodes (patched node patch s) done'),
        )
  ]

module _ (e : Env) (node : Node) (nodes : List Node) (s : State) where
  -- Uncordoning stops at the first node that has no taint to remove: it reports success, and the
  -- nodes behind it, whatever they are, keep their taints.
  pub uncordon_each_stops :
      remove_unschedulable node.taints ≡ node.taints
      → uncordon_each e (node ∷ nodes) s ≡ (returned none, s)
  unfolding uncordon_each pure
  uncordon_each_stops clean = ground (arith, ap length clean)
