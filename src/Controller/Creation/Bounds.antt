-- ===== src/Controller/Creation/Bounds.antt =====
-- The number of names that the search of `createMaintenanceJobs` tries.
use Prim.Native.Nat.{◌^◌}
use vihara.Prelude.{
  ℕ, zero, suc, ◌+◌, ◌≤◌, ◌<◌, ◌≡◌, refl, sym, ap, ◌∙◌, inl, inr, String, true, Bool-cases, Option,
  none, some, arith, ◌==◌, ◌<>◌, eqb, eq_iff, format_hex, parse_hex, parse_hex-format_hex, length,
  lookup, erase, lookup-erase, length-erase, Map, if◌then◌else◌,
}
use vihara.Api.{MaintenanceJob}
use vihara.Env.{Error, Env, State, returned, Result-cases, ok, err}
use vihara.Controller.JobCache.{cached_mt_job}
use vihara.Controller.Creation.{candidate, free_name, max_rounds}
use vihara.Controller.Creation.Names.{free_name_of_err, free_name_of_same, free_name_of_other}
use text.Mathlib.TextLemmas.{append_cancel_left, append-nil, append-eq-nil_iff}

-- the name that is tried at `i`
abbrev nth : String → ℕ → String
nth base i = candidate base i base

dash_there : (base x : String) → ◌≡◌ {A = String} base (base <> "-" <> x) → ⊥
unfolding parse_hex
dash_there base x same =
    let cut = append_cancel_left base "" ("-" <> x) (append-nil base ∙ same) in
    let empty = (append-eq-nil_iff {p = "-"} {q = x}).0 (sym cut) in
    let value : parse_hex 1 "-" ≡ parse_hex 1 "" = ap (parse_hex 1) empty.0 in omega (arith, value)

nth_first : (base : String) → nth base 1 ≡ base
nth_first base = refl

nth_later : (base : String) (i : ℕ) → 1 < i → nth base i ≡ (base <> "-" <> format_hex i)
nth_later base i h = ground arith

-- No two names that are tried are the same.
nth_inj : (base : String) (i j : ℕ) → 1 ≤ i → i < j → j < 2 ^ 64 → nth base i ≡ nth base j → ⊥
nth_inj base i j pos_i lt small same = elim (Bool-cases (eqb i 1)) [
  | inl one ↦
      let first : i ≡ 1 = ground arith in
      dash_there base (format_hex j) (
        sym (nth_first base)
        ∙ (ap (nth base) (sym first) ∙ (same ∙ nth_later base j (omega arith))))
  | inr more ↦
      let later : 1 < i = ground arith in
      let dashed = sym (nth_later base i later) ∙ (same ∙ nth_later base j (omega arith)) in
      let cut = append_cancel_left base ("-" <> format_hex i) ("-" <> format_hex j) dashed in
      let hex = append_cancel_left "-" (format_hex i) (format_hex j) cut in
      let value : parse_hex 0 (format_hex i) ≡ parse_hex 0 (format_hex j) = ap (parse_hex 0) hex in
      omega (arith, value, parse_hex-format_hex i (omega arith), parse_hex-format_hex j small)
]

module _ (e : Env) (job : MaintenanceJob) where
  abbrev key_of : String → String
  key_of name = job.meta.namespace <> "/" <> name

  key_inj : (a b : String) → key_of a ≡ key_of b → a ≡ b
  key_inj a b same =
      append_cancel_left "/" a b (append_cancel_left job.meta.namespace ("/" <> a) ("/" <> b) same)

  -- What the search found out: a name that the cache does not have, or a job of this machine.
  abbrev pub Settled : State → Option String → Type 0
  Settled s (some name) = lookup (key_of name) s.mt_job_cache ≡ none
  Settled s none =
      (name : String) × (old : MaintenanceJob) × (lookup (key_of name) s.mt_job_cache ≡ some old)
      × ((old.spec.machine_id == job.spec.machine_id) ≡ true)

  cached_there :
      (s : State) (name : String) (old : MaintenanceJob)
      → cached_mt_job e s job.meta.namespace name ≡ ok old
      → lookup (key_of name) s.mt_job_cache ≡ some old
  unfolding cached_mt_job
  cached_there s name old h = ground arith

  cached_absent :
      (s : State) (name : String) {x : Error}
      → e.cache_error s.history (key_of name) ≡ none
      → cached_mt_job e s job.meta.namespace name ≡ err x
      → lookup (key_of name) s.mt_job_cache ≡ none
  unfolding cached_mt_job
  cached_absent s name readable missing = ground arith

  -- The map `m` has what the cache has under the names from `i` on.
  abbrev Agrees : State → ℕ → Map MaintenanceJob → Type 0
  Agrees s i m =
      (j : ℕ)
      → i ≤ j
      → j < 2 ^ 64
      → lookup (key_of (nth job.meta.name j)) m
        ≡ lookup (key_of (nth job.meta.name j)) s.mt_job_cache

  Agrees-erase :
      (s : State) (i : ℕ) (m : Map MaintenanceJob)
      → 1 ≤ i
      → Agrees s i m
      → Agrees s (i + 1) (erase (key_of (nth job.meta.name i)) m)
  Agrees-erase s i m pos_i agrees j le small =
      let base = job.meta.name in
      let ki = key_of (nth base i) in
      let kj = key_of (nth base j) in
      elim (Bool-cases (ki == kj)) [
        | inl same ↦ absurd (
            nth_inj base i j pos_i (omega arith) small
              (key_inj (nth base i) (nth base j) ((eq_iff ki kj).0 same)))
        | inr other ↦
            lookup-erase ki kj m ∙ rw (other, if◌then◌else◌) (agrees j (omega arith) small)
      ]

  candidate-nth :
      (i : ℕ) (name : String)
      → (i ≡ 1 → name ≡ job.meta.name)
      → candidate job.meta.name i name ≡ nth job.meta.name i
  candidate-nth i name first = ground arith

  search :
      (rounds i : ℕ) (name : String) (s : State) (m : Map MaintenanceJob)
      → ((n : String) → e.cache_error s.history (key_of n) ≡ none)
      → 1 ≤ i
      → (i ≡ 1 → name ≡ job.meta.name)
      → i + rounds ≤ 2 ^ 64
      → length m < rounds
      → Agrees s i m
      → (r : Option String) × (free_name e job rounds i name s ≡ (returned r, s)) × Settled s r
  search zero i name s m readable pos_i first small room agrees = absurd (omega arith)
  search (suc rounds) i name s m readable pos_i first small room agrees =
      let c = candidate job.meta.name i name in
      let same_name = candidate-nth i name first in
      elim (Result-cases (cached_mt_job e s job.meta.namespace c)) [
        | inl (x, missing) ↦ (
          some c,
          free_name_of_err e job rounds i name s missing,
          cached_absent s c (readable c) missing,
        )
        | inr (old, there) ↦ elim (Bool-cases (old.spec.machine_id == job.spec.machine_id)) [
          | inl same ↦ (
            none,
            free_name_of_same e job rounds i name s there same,
            (c, old, cached_there s c old there, same),
          )
          | inr other ↦
              let key = key_of (nth job.meta.name i) in
              let found : lookup key s.mt_job_cache ≡ some old =
                rw same_name at (cached_there s c old there) in
              let shorter = length-erase key m (agrees i (omega arith) (omega arith) ∙ found) in
              let (r, rest, settled) =
                search rounds (i + 1) c s (erase key m) readable (omega arith)
                  (λ one. absurd (omega arith)) (omega arith) (omega (arith, shorter))
                  (Agrees-erase s i m pos_i agrees) in
              (r, free_name_of_other e job rounds i name s there other ∙ rest, settled)
        ]
      ]

  -- The search for the name of a new job is settled within as many rounds as the cache has objects,
  -- and one more: if the loop may try so many and the cache is readable, it gives a name that no object
  -- of the cache has in the job's namespace, or it stops at a job of the same machine that the cache
  -- has. So it never gives a name that is taken in the cache.
  pub free_name_within :
      (rounds : ℕ) (s : State)
      → ((name : String) → e.cache_error s.history (key_of name) ≡ none)
      → length s.mt_job_cache < rounds
      → rounds ≤ max_rounds
      → (r : Option String) × (free_name e job rounds 1 job.meta.name s ≡ (returned r, s))
        × Settled s r
  free_name_within rounds s readable room small =
      search rounds 1 job.meta.name s s.mt_job_cache readable (omega arith) (λ _. refl)
        (omega arith) room (λ j le lt. refl)
