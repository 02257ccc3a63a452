-- ===== src/Controller/Generate/Pods.antt =====
-- The stages of the generated jobs.
use vihara.Prelude.{
  ◌≡◌, ◌⊎◌, inl, inr, refl, String, true, false, Bool, Bool-cases, Option, Option-cases, none, some,
  is_some, List, [], ◌∷◌, map, pos, eqb_ℤ, ◌==◌, arith,
}
use vihara.Api.{
  Duration, EnvVar, EnvFromSource, Affinity, Toleration, PodSpec, PodTemplateSpec, RestartPolicy,
  MaintenanceStage, MaintenanceSpec, Maintenance,
}
use vihara.Controller.Generate.{
  overrides_node, generate_pod, generate_stage, generate_maintenance_job,
}

-- A pod that says where it runs: by the node affinity in its affinity, by the name of a node, or by a
-- node selector, an empty one included.
abbrev pub ChoosesNode : PodSpec → Type 0
ChoosesNode spec =
    ((a : Affinity) × (spec.affinity ≡ some a) × (is_some a.node_affinity ≡ true))
    ⊎ ((spec.node_name == "") ≡ false)
    ⊎ (is_some spec.node_selector ≡ true)

abbrev pub LeavesNode : PodSpec → Type 0
LeavesNode spec =
    ((a : Affinity) → spec.affinity ≡ some a → is_some a.node_affinity ≡ false)
    × ((spec.node_name == "") ≡ true)
    × (spec.node_selector ≡ none)

-- The pod of a generated stage, from the one of the snapshot: never started again, and on the given
-- node with the given tolerations unless it says itself where it runs.
abbrev pub IsPlaced : String → List Toleration → PodSpec → PodSpec → Type 0
IsPlaced node tolerations old new =
    (new.restart_policy ≡ RestartPolicy.never)
    × (new.affinity ≡ old.affinity)
    × (new.node_selector ≡ old.node_selector)
    × ((ChoosesNode old × (new.node_name ≡ old.node_name) × (new.tolerations ≡ old.tolerations))
        ⊎ (LeavesNode old × (new.node_name ≡ node) × (new.tolerations ≡ tolerations)))

abbrev pub IsPlaced? :
    String → List Toleration → Option PodTemplateSpec → Option PodTemplateSpec → Type 0
IsPlaced? node tolerations none none = Unit
IsPlaced? node tolerations (some old) (some new) =
    (new.labels ≡ old.labels) × IsPlaced node tolerations old.spec new.spec
IsPlaced? node tolerations none (some new) = ⊥
IsPlaced? node tolerations (some old) none = ⊥

-- A generated stage, from the one of the snapshot, for a node with tolerations and a default timeout.
pub record IsMade (node : String) (tolerations : List Toleration) (default : Duration)
    (old : MaintenanceStage) (new : MaintenanceStage) : Type 0 where
  pub same_name : new.name ≡ old.name
  pub same_delay : new.delay ≡ old.delay
  pub same_drain : new.drain ≡ old.drain
  pub same_uncordon : new.uncordon ≡ old.uncordon
  pub timed :
      ((eqb_ℤ old.timeout (pos 0) ≡ false) × (new.timeout ≡ old.timeout))
      ⊎ ((eqb_ℤ old.timeout (pos 0) ≡ true) × (new.timeout ≡ default))
  pub placed : IsPlaced? node tolerations old.pod new.pod

-- The stages of two lists, one by one.
abbrev pub AreMade :
    String → List Toleration → Duration → List MaintenanceStage → List MaintenanceStage → Type 0
AreMade node tolerations default [] [] = Unit
AreMade node tolerations default (old ∷ olds) (new ∷ news) =
    IsMade node tolerations default old new × AreMade node tolerations default olds news
AreMade node tolerations default [] (new ∷ news) = ⊥
AreMade node tolerations default (old ∷ olds) [] = ⊥

-- the first test of `overrides_node`
abbrev has_node_affinity : Option Affinity → Bool
has_node_affinity affinity = elim affinity [ none ↦ false | some a ↦ is_some a.node_affinity ]

affinity_cases :
    (affinity : Option Affinity)
    → ((a : Affinity) × (affinity ≡ some a) × (is_some a.node_affinity ≡ true))
      ⊎ (((a : Affinity) → affinity ≡ some a → is_some a.node_affinity ≡ false)
          × (has_node_affinity affinity ≡ false))
affinity_cases none = inr (λ a same. ground arith, refl)
affinity_cases (some a) = elim (Bool-cases (is_some a.node_affinity)) [
  | inl chosen ↦ inl (a, refl, chosen)
  | inr left ↦ inr (λ b same. ground arith, left)
]

overrides_node_cases :
    (spec : PodSpec)
    → ((overrides_node spec ≡ true) × ChoosesNode spec)
      ⊎ ((overrides_node spec ≡ false) × LeavesNode spec)
unfolding overrides_node
overrides_node_cases spec = elim (affinity_cases spec.affinity) [
  | inl (a, there, chosen) ↦ inl (ground arith, inl (a, there, chosen))
  | inr left ↦ elim (Bool-cases (spec.node_name == "")) [
    | inr named ↦ inl (ground arith, inr (inl named))
    | inl unnamed ↦ elim (Option-cases spec.node_selector) [
      | inr (labels, there) ↦ inl (ground arith, inr (inr (ground arith)))
      | inl missing ↦ inr (ground arith, (left.0, unnamed, missing))
    ]
  ]
]

module _ (env : List EnvVar) (env_from : List EnvFromSource) (node : String)
    (snapshot : MaintenanceSpec) (default : Duration) where
  generate_pod-IsPlaced :
      (spec : PodSpec)
      → IsPlaced node snapshot.tolerations spec (generate_pod env env_from node snapshot spec)
  unfolding generate_pod
  generate_pod-IsPlaced spec = elim (overrides_node_cases spec) [
    | inl (over, chooses) ↦ (refl, refl, refl, inl (chooses, ground arith, ground arith))
    | inr (kept, leaves) ↦ (refl, refl, refl, inr (leaves, ground arith, ground arith))
  ]

  generated_pod :
      (pod : Option PodTemplateSpec)
      → IsPlaced? node snapshot.tolerations pod (elim pod [
        | none ↦ none
        | some p ↦ some (record p { spec = generate_pod env env_from node snapshot p.spec })
      ])
  generated_pod none = tt
  generated_pod (some p) = (refl, generate_pod-IsPlaced p.spec)

  generated_stages :
      (stages : List MaintenanceStage)
      → AreMade node snapshot.tolerations default stages
          (map (generate_stage env env_from node snapshot default) stages)
  unfolding generate_stage
  generated_stages [] = tt
  generated_stages (stage ∷ stages) = (
    record {
      same_name = refl;
      same_delay = refl;
      same_drain = refl;
      same_uncordon = refl;
      timed = elim (Bool-cases (eqb_ℤ stage.timeout (pos 0))) [
        | inl zero ↦ inr (zero, ground arith)
        | inr given ↦ inl (given, ground arith)
      ];
      placed = generated_pod stage.pod;
    },
    generated_stages stages,
  )

  -- A generated job is for its node, and has the stages of the snapshot, one by one: with their
  -- names, delays, drains and uncordons, with their timeouts, or the default one where this is zero,
  -- and with their pods. Each pod is not started again. One that has a node affinity, a node name
  -- or a node selector keeps these and its tolerations; any other one gets the name of the job's node
  -- and the tolerations of the snapshot.
  pub generate_maintenance_job_stages :
      (machine : String) (mt : Maintenance) (namespace : String)
      → let job =
          generate_maintenance_job env env_from node machine mt snapshot namespace default in
        (job.spec.node_name ≡ node)
        × (job.spec.machine_id ≡ machine)
        × AreMade job.spec.node_name snapshot.tolerations default snapshot.stages job.spec.stages
  unfolding generate_maintenance_job
  generate_maintenance_job_stages machine mt namespace =
      (refl, refl, generated_stages snapshot.stages)
