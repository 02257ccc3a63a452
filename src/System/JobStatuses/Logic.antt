-- ===== src/System/JobStatuses/Logic.antt =====
-- A small program logic for actions that keep the invariant of the job statuses and touch no
-- Maintenance object: `Safe m Q s` says so of `m` from `s` on, with `Q` of what it returns.
use vihara.Prelude.{◌≡◌, Bool, true, false, Option, none, some, ◌∙◌, refl, if◌then◌else◌}
use vihara.Env.{
  Error, Result, ok, err, Outcome, returned, panicked, State, M, ◌>>=◌, pure, panic, deref,
  continue,
}
use vihara.System.Frames.{SameMts, Untouched}
use vihara.System.JobStatuses.{JobsLive, JobsLive-SameMtJobs}

abbrev pub Post : {A : Type 0} → (A → Type 0) → Outcome A → Type 0
Post Q (returned a) = Q a
Post Q panicked = Unit

pub record Safe {A : Type 0} (m : M A) (Q : A → Type 0) (s : State) : Type 0 where
  pub same_mts : SameMts s (m s).1
  pub live : JobsLive (m s).1
  pub post : Post Q (m s).0

abbrev pub Any : {A : Type 0} → A → Type 0
Any a = Unit

pub Safe-pure :
    {A : Type 0} {Q : A → Type 0} {s : State} (a : A) → Q a → JobsLive s → Safe (pure a) Q s
unfolding pure
Safe-pure a q l = record { same_mts = (refl, refl); live = l; post = q }

pub Safe-panic : {A : Type 0} {Q : A → Type 0} {s : State} → JobsLive s → Safe (panic {A = A}) Q s
unfolding panic
Safe-panic l = record { same_mts = (refl, refl); live = l; post = tt }

pub Safe-deref :
    {A : Type 0} {o : Option A} {s : State} → JobsLive s → Safe (deref o) (λ a. o ≡ some a) s
unfolding deref
Safe-deref {o = none} l = Safe-panic l
Safe-deref {o = some a} l = Safe-pure a refl l

pub Safe-if :
    {A : Type 0} (b : Bool) {m k : M A} {Q : A → Type 0} {s : State}
    → (b ≡ true → Safe m Q s)
    → (b ≡ false → Safe k Q s)
    → Safe (if b then m else k) Q s
Safe-if true f g = f refl
Safe-if false f g = g refl

Safe-continue :
    {A B : Type 0} (r : Outcome A) (f : A → M B) {Q : A → Type 0} {R : B → Type 0} (s : State)
    → JobsLive s
    → Post Q r
    → ((a : A) → Q a → Safe (f a) R s)
    → SameMts s (continue r f s).1 × JobsLive (continue r f s).1 × Post R (continue r f s).0
Safe-continue (returned a) f s l q h = let k = h a q in (k.same_mts, k.live, k.post)
Safe-continue panicked f s l q h = ((refl, refl), l, tt)

pub Safe-bind :
    {A B : Type 0} {m : M A} {f : A → M B} {Q : A → Type 0} {R : B → Type 0} {s : State}
    → Safe m Q s
    → ((a : A) (t : State) → JobsLive t → Q a → Safe (f a) R t)
    → Safe (m >>= f) R s
unfolding ◌>>=◌
Safe-bind {m} {f} {s} h k =
    let (same, l, p) =
      Safe-continue (m s).0 f (m s).1 h.live h.post (λ a q. k a (m s).1 h.live q) in
    record { same_mts = (same.0 ∙ h.same_mts.0, same.1 ∙ h.same_mts.1); live = l; post = p }

Any-Post : {A : Type 0} (r : Outcome A) → Post Any r
Any-Post (returned a) = tt
Any-Post panicked = tt

Post-mono :
    {A : Type 0} {Q R : A → Type 0} → ((a : A) → Q a → R a) → (r : Outcome A) → Post Q r → Post R r
Post-mono weaker (returned a) q = weaker a q
Post-mono weaker panicked q = tt

-- An action that touches no object.
pub Safe-Untouched :
    {A : Type 0} {m : M A} {s : State} → Untouched s (m s).1 → JobsLive s → Safe m Any s
Safe-Untouched {m} {s} (same, still) l = record {
  same_mts = same;
  live = JobsLive-SameMtJobs still l;
  post = Any-Post (m s).0;
}

pub Safe-mono :
    {A : Type 0} {m : M A} {Q R : A → Type 0} {s : State}
    → ((a : A) → Q a → R a)
    → Safe m Q s
    → Safe m R s
Safe-mono {m} {s} weaker h = record {
  same_mts = h.same_mts;
  live = h.live;
  post = Post-mono weaker (m s).0 h.post;
}

pub Safe-option :
    {A B : Type 0} (o : Option A) {m : M B} {f : A → M B} {Q : B → Type 0} {s : State}
    → (o ≡ none → Safe m Q s)
    → ((a : A) → o ≡ some a → Safe (f a) Q s)
    → Safe (elim o [ none ↦ m | some a ↦ f a ]) Q s
Safe-option none h k = h refl
Safe-option (some a) h k = k a refl

pub Safe-result :
    {A B : Type 0} (r : Result A) {f : Error → M B} {g : A → M B} {Q : B → Type 0} {s : State}
    → ((x : Error) → Safe (f x) Q s)
    → ((a : A) → r ≡ ok a → Safe (g a) Q s)
    → Safe (elim r [ err x ↦ f x | ok a ↦ g a ]) Q s
Safe-result (err x) h k = h x
Safe-result (ok a) h k = k a refl
