-- ===== src/Env/Quiet.antt =====
-- Actions that put nothing into a queue, whatever the state they run in.
use vihara.Prelude.{◌≡◌, ap, ◌∙◌, refl, Bool, true, false, Option, none, some, if◌then◌else◌}
use vihara.Env.{
  Error, Result, ok, err, Outcome, returned, panicked, State, M, pure, panic, deref, continue,
  ◌>>=◌,
}
use vihara.Env.Reads.{Reads}
use vihara.Env.Trace.{offers}

pub record OffersNothing {A : Type 0} (m : M A) : Type 0 where
  pub same_offers : (s : State) → offers (m s).1.history ≡ offers s.history

pub pure-OffersNothing : {A : Type 0} (a : A) → OffersNothing (pure a)
unfolding pure
pure-OffersNothing a = record { same_offers = λ s. refl }

pub deref-OffersNothing : {A : Type 0} (o : Option A) → OffersNothing (deref o)
unfolding deref pure panic
deref-OffersNothing none = record { same_offers = λ s. refl }
deref-OffersNothing (some a) = pure-OffersNothing a

pub if-OffersNothing :
    {A : Type 0} (b : Bool) {m k : M A}
    → OffersNothing m
    → OffersNothing k
    → OffersNothing (if b then m else k)
if-OffersNothing true f g = f
if-OffersNothing false f g = g

pub cases-OffersNothing :
    {A : Type 0} (b : Bool) {m k : M A}
    → OffersNothing m
    → OffersNothing k
    → OffersNothing (elim b [ true ↦ m | false ↦ k ])
cases-OffersNothing true f g = f
cases-OffersNothing false f g = g

pub option-OffersNothing :
    {A B : Type 0} (o : Option A) {m : M B} {k : A → M B}
    → OffersNothing m
    → ((a : A) → OffersNothing (k a))
    → OffersNothing (elim o [ none ↦ m | some a ↦ k a ])
option-OffersNothing none f g = f
option-OffersNothing (some a) f g = g a

pub result-OffersNothing :
    {A B : Type 0} (r : Result A) {m : Error → M B} {k : A → M B}
    → ((x : Error) → OffersNothing (m x))
    → ((a : A) → OffersNothing (k a))
    → OffersNothing (elim r [ err x ↦ m x | ok a ↦ k a ])
result-OffersNothing (err x) f g = f x
result-OffersNothing (ok a) f g = g a

continue-offers :
    {A B : Type 0} (r : Outcome A) (f : A → M B) (s : State)
    → ((a : A) → OffersNothing (f a))
    → offers (continue r f s).1.history ≡ offers s.history
continue-offers (returned a) f s h = (h a).same_offers s
continue-offers panicked f s h = refl

pub bind-OffersNothing :
    {A B : Type 0} {m : M A} {f : A → M B}
    → OffersNothing m
    → ((a : A) → OffersNothing (f a))
    → OffersNothing (m >>= f)
unfolding ◌>>=◌
bind-OffersNothing {m} {f} h k = record {
  same_offers = λ s. continue-offers (m s).0 f (m s).1 k ∙ h.same_offers s;
}

pub Reads-OffersNothing : {A : Type 0} {m : M A} → ((s : State) → Reads m s) → OffersNothing m
Reads-OffersNothing h = record { same_offers = λ s. ap (λ t. offers t.history) (h s) }
