-- ===== src/Informers/Sharing.antt =====
-- Informers are made once and run once.
use vihara.Prelude.{
  String, ◌≡◌, refl, inl, inr, Option-cases, Bool, true, none, some, [], ◌∷◌, eq_refl, Map, lookup,
  insert, lookup-insert, arith,
}
use vihara.Api.{Duration}
use vihara.Informers.{Informer, Factory, is_started, start_each, start, informer_for}

-- Each type of the map has been started.
abbrev AllStarted : Map Informer → Map Bool → Type 0
AllStarted [] started = Unit
AllStarted ((key, informer) ∷ rest) started =
    (is_started started key ≡ true) × AllStarted rest started

is_started-start_each :
    (key : String) (m : Map Informer) (started : Map Bool)
    → is_started started key ≡ true
    → is_started (start_each m started).1 key ≡ true
unfolding start_each
is_started-start_each key [] started h = h
is_started-start_each key ((k, informer) ∷ rest) started h = ground (
  arith,
  lookup-insert k key true started,
  is_started-start_each key rest started,
  is_started-start_each key rest (insert k true started),
)

AllStarted-start_each :
    (m : Map Informer) (started : Map Bool) → AllStarted m (start_each m started).1
unfolding start_each
AllStarted-start_each [] started = tt
AllStarted-start_each ((k, informer) ∷ rest) started = ground (
  arith,
  lookup-insert k k true started,
  eq_refl k,
  is_started-start_each k rest started,
  is_started-start_each k rest (insert k true started),
  AllStarted-start_each rest started,
  AllStarted-start_each rest (insert k true started),
)

start_each_of_started :
    (m : Map Informer) (started : Map Bool)
    → AllStarted m started
    → start_each m started ≡ ([], started)
unfolding start_each
start_each_of_started [] started all = refl
start_each_of_started ((k, informer) ∷ rest) started (here, all) =
    ground (arith, start_each_of_started rest started all)

-- A factory that is started a second time runs no informer again and does not change, whatever was
-- registered with it before the first time.
start_again : (f : Factory) → start (start f).1 ≡ ([], (start f).1)
unfolding start
start_again f =
    rw
      (start_each_of_started f.informers (start f).1.started
        (AllStarted-start_each f.informers f.started))
      refl

-- An informer that was asked for is there when it is asked for again: the second call gives the same
-- one, whatever it would make itself, and leaves the factory alone.
informer_for_again :
    (key : String) (new other : Duration → Informer) (f : Factory)
    → let (informer, f') = informer_for key new f in informer_for key other f' ≡ (informer, f')
unfolding informer_for
informer_for_again key new other f = elim (Option-cases (lookup key f.informers)) [
  | inl absent ↦
      let resync : Duration = elim (lookup key f.custom_resync) [
        | some period ↦ period
        | none ↦ f.default_resync
      ] in
      ground (arith, lookup-insert key key (new resync) f.informers, eq_refl key)
  | inr (informer, there) ↦ ground arith
]
