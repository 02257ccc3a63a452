-- ===== src/Env/Reads.antt =====
-- Actions that only read: they leave the state as it was.
use vihara.Prelude.{◌≡◌, refl, ◌⊎◌, inl, inr}
use vihara.Env.{Outcome, returned, panicked, State, M, continue, ◌>>=◌}

abbrev pub Reads : {A : Type 0} → M A → State → Type 0
Reads m s = (m s).1 ≡ s

Reads-continue :
    {A B : Type 0} (r : Outcome A) (f : A → M B) (s : State)
    → ((a : A) → Reads (f a) s)
    → (continue r f s).1 ≡ s
Reads-continue (returned a) f s h = h a
Reads-continue panicked f s h = refl

pub Reads-bind :
    {A B : Type 0} (m : M A) (f : A → M B) (s : State)
    → Reads m s
    → ((a : A) → Reads (f a) s)
    → Reads (m >>= f) s
unfolding ◌>>=◌
Reads-bind m f s quiet h = rw quiet (Reads-continue (m s).0 f s h)

-- An action that only reads, in front of another.
pub bind_returned :
    {A B : Type 0} (m : M A) (f : A → M B) (s : State) {a : A}
    → (m s).0 ≡ returned a
    → Reads m s
    → (m >>= f) s ≡ f a s
unfolding ◌>>=◌
bind_returned m f s found quiet = rw (found, quiet) refl

pub bind_panicked :
    {A B : Type 0} (m : M A) (f : A → M B) (s : State)
    → (m s).0 ≡ panicked
    → Reads m s
    → (m >>= f) s ≡ (panicked, s)
unfolding ◌>>=◌
bind_panicked m f s stuck quiet = rw (stuck, quiet) refl

pub returned_cases : {A : Type 0} (r : Outcome A) → (r ≡ panicked) ⊎ ((a : A) × (r ≡ returned a))
returned_cases panicked = inl refl
returned_cases (returned a) = inr (a, refl)
