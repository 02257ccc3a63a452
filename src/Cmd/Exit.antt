-- ===== src/Cmd/Exit.antt =====
-- How the program ends.
use mathlib.Core.Path.{subst}
use vihara.Prelude.{
  ℕ, String, ◌≡◌, ◌⊎◌, inl, inr, refl, Option-cases, Bool-cases, some, List, [], ◌∷◌, arith,
}
use vihara.Conf.{MaintenanceConfig, ViharaConfig}
use vihara.Env.{Error, wrapped, err, Result-cases}
use vihara.Cmd.{
  Site, Launch, Election, Ending, failed, exited, Command, version, root, resolve_namespace,
  on_elected, on_ejected, run_elections, run_traced, run, main,
}
use vihara.Cmd.ReadConfig.{read_config}

run_elections-exited :
    (site : Site) (c : MaintenanceConfig) (es : List Election) → run_elections site c es ≡ exited 1
unfolding run_elections on_elected on_ejected
run_elections-exited site c [] = refl
run_elections-exited site c (Election.elected ∷ es) = ground (arith, run_elections-exited site c es)
run_elections-exited site c (Election.ejected ∷ es) = refl
run_elections-exited site c (Election.new_leader who ∷ es) = run_elections-exited site c es

-- the error of one of the five things that `run` creates
abbrev pub IsSetupError : Site → Error → Type 0
IsSetupError site x =
    (site.kube_client_error ≡ some x)
    ⊎ (site.metrics ≡ err x)
    ⊎ (site.tls_error ≡ some x)
    ⊎ (site.tracing_error ≡ some x)
    ⊎ (site.elector_error ≡ some x)

-- How a run ends: by `os.Exit(1)`, or with an error that wraps one of these.
abbrev pub Ends : Site → Ending → Type 0
Ends site end =
    (end ≡ exited 1)
    ⊎ ((text : String) × (x : Error) × (end ≡ failed (wrapped text x)) × IsSetupError site x)

module _ (site : Site) where
  Ends-run_traced : (c : MaintenanceConfig) → Ends site (run_traced site c)
  unfolding run_traced
  Ends-run_traced c = elim (Option-cases site.tracing_error) [
    | inr (x, bad) ↦
        inr ("failed to create tracing provider", x, ground arith, inr (inr (inr (inl bad))))
    | inl fine ↦ elim (Option-cases site.elector_error) [
      | inr (x, bad) ↦ inr ("failed to create elector", x, ground arith, inr (inr (inr (inr bad))))
      | inl made ↦ inl (ground (arith, run_elections-exited site c site.elections))
    ]
  ]

  -- A run never gets to its last return, the one that the source calls unreachable, whatever the
  -- election calls back, and whether or not the controller can be made and started: it ends the
  -- program with exit code 1, or it returns an error that wraps the error of the client, of the
  -- metrics, of their TLS configuration, of the tracing provider or of the elector.
  pub run-Ends : (config : ViharaConfig) → Ends site (run site config)
  unfolding run
  run-Ends config =
      let c = resolve_namespace site config.maintenance in
      let traced = Ends-run_traced c in
      elim (Option-cases site.kube_client_error) [
        | inr (x, bad) ↦
            inr ("failed to create kube client from kubeconfig", x, ground arith, inl bad)
        | inl made ↦ elim (Result-cases site.metrics) [
          | inl (x, bad) ↦ inr ("failed to create metrics provider", x, ground arith, inr (inl bad))
          | inr (served, got) ↦ elim (Bool-cases served) [
            | inr silent ↦ subst (Ends site) (ground arith) traced
            | inl serves ↦ elim (Option-cases site.tls_error) [
              | inr (x, bad) ↦ inr (
                "failed to get tls config for metrics listener",
                x,
                ground arith,
                inr (inr (inl bad)),
              )
              | inl fine ↦ subst (Ends site) (ground arith) traced
            ]
          ]
        ]
      ]

abbrev code_of : Ending → ℕ
code_of (failed x) = 1
code_of (exited code) = code

module _ (site : Site) where
  code-run_elections :
      (c : MaintenanceConfig) (es : List Election) → code_of (run_elections site c es) ≡ 1
  unfolding run_elections on_elected on_ejected
  code-run_elections c [] = refl
  code-run_elections c (Election.elected ∷ es) = ground (arith, code-run_elections c es)
  code-run_elections c (Election.ejected ∷ es) = refl
  code-run_elections c (Election.new_leader who ∷ es) = code-run_elections c es

  code-run : (config : ViharaConfig) → code_of (run site config) ≡ 1
  unfolding run run_traced
  code-run config =
      ground (arith, code-run_elections (resolve_namespace site config.maintenance) site.elections)

-- The command never ends with exit code 0, whatever the configuration, the libraries and the
-- election do: it fails, or it is ended with code 1. Only `version` ends with 0.
main-code :
    (launch : Launch) (site : Site) (command : Command) (config : ViharaConfig)
    → main launch site command config ≡ elim command [ version ↦ 0 | root ↦ 1 ]
unfolding main
main-code launch site version config = refl
main-code launch site root config = elim (Result-cases (read_config launch config)) [
  | inl (x, bad) ↦ ground arith
  | inr (config', got) ↦ ground (arith, code-run site config')
]
