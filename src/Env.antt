-- ===== src/Env.antt =====
-- What the controller calls and does not implement: the API server behind the generated clients,
-- the informer caches, the two timeout queues, the event recorder, the clock, and the library
-- functions for JSON, hashing, patches, selectors, taints and field paths. `Env` has one function
-- for each; a function that answers a call reads the calls made before it, so that two equal calls
-- may have different answers. A handler is an action on `State`: it returns or panics, and leaves
-- the cached objects that it wrote through and the calls that it made.
pub mod Quiet
pub mod Clients
pub mod Trace
pub mod Reads
use vihara.Prelude.{
  String, Bool, true, false, Option, none, some, List, ◌∷◌, Map, ◌≡◌, refl, ◌⊎◌, inl, inr,
}
use vihara.Api.{
  Time, Duration, Node, Taint, Toleration, Job, MaintenanceSpec, Maintenance, MaintenanceJob,
  ResourceReference,
}

-- Go's error values. The API server's are told apart by their reason; `wrapped` is `%w`.
pub data Error : Type 0 where
  not_found : String → Error
  already_exists : String → Error
  other : String → Error
  errorf : String → Error
  wrapped : String → Error → Error

pub data Result {ℓ} (A : Type ℓ) : Type ℓ where
  ok : A → Result A
  err : Error → Result A

pub Result-cases {ℓ} :
    {A : Type ℓ} (r : Result A) → ((x : Error) × (r ≡ err x)) ⊎ ((a : A) × (r ≡ ok a))
Result-cases (ok a) = inr (a, refl)
Result-cases (err x) = inl (x, refl)

pub data EventType : Type 0 where
  normal warning : EventType

-- `mtScheduleTQ` and `mtJobScheduleTQ`
pub data Queue : Type 0 where
  mt_queue mt_job_queue : Queue

-- One call of the outside. An event carries its object's name, type, reason and message.
pub data Call : Type 0 where
  read_clock : Call
  event : String → EventType → String → String → Call
  update_mt : Maintenance → Call
  delete_mt : String → Call
  update_mt_job : MaintenanceJob → Call
  create_mt_job : MaintenanceJob → Call
  create_job : Job → Call
  get_node : String → Call
  list_nodes : String → Call
  patch_node : String → String → Call
  queue_find : Queue → String → Call
  queue_remove : Queue → String → Call
  offer_with_delay : Queue → String → Duration → Call
  offer_with_time : Queue → String → Time → Call

-- The calls made so far, the latest first.
abbrev pub History : Type 0
History = List Call

pub record Env : Type 0 where
  -- `time.Now().UTC()`
  pub now : History → Time
  -- the error of an indexer's `GetByKey`
  pub cache_error : History → String → Option Error
  -- the REST requests behind the typed clients
  pub put_mt_status : History → Maintenance → Result Maintenance
  pub delete_mt : History → String → Option Error
  pub put_mt_job_status : History → MaintenanceJob → Result MaintenanceJob
  pub post_mt_job : History → MaintenanceJob → Result MaintenanceJob
  pub post_job : History → Job → Result Job
  pub get_node : History → String → Result Node
  pub list_nodes : History → String → Result (List Node)
  pub patch_node : History → String → String → Option Error
  -- the timeout queues
  pub queue_find : History → Queue → String → Bool
  pub offer : History → Queue → String → Option Error
  -- the pod that runs this controller
  pub this_pod : ResourceReference
  -- encoding/json, hashhelper, strategicpatch
  pub marshal_spec : MaintenanceSpec → Result String
  pub unmarshal_spec : String → Result MaintenanceSpec
  pub marshal_node : Node → Result String
  pub sha256_hex : String → String
  pub merge_patch : String → String → Result String
  -- labels.SelectorFromSet(m).String(), fields.AndSelectors(…).String()
  pub selector_from_set : Map String → String
  pub and_selectors : List (String × String) → String
  -- whether FindMatchingUntoleratedTaint finds a taint
  pub untolerated_taint : List Taint → List Toleration → Bool
  -- fieldpath.ExtractFieldPathAsString
  pub field_path : Node → String → Result String
  -- fmt.Sprintf of a user's format at one text, and the `Error` method
  pub sprintf : String → String → String
  pub error_text : Error → String
  -- `%q` of a text, and `Format(time.RFC3339)`
  pub quote : String → String
  pub format_time : Time → String

pub record State : Type 0 where
  pub mt_cache : Map Maintenance
  pub mt_job_cache : Map MaintenanceJob
  pub history : History

-- A nil dereference or an index out of range ends the program.
pub data Outcome (A : Type 0) : Type 0 where
  returned : A → Outcome A
  panicked : Outcome A

pub Outcome-cases :
    {A : Type 0} (r : Outcome (Result A))
    → (r ≡ panicked) ⊎ ((x : Error) × (r ≡ returned (err x))) ⊎ ((a : A) × (r ≡ returned (ok a)))
Outcome-cases panicked = inl refl
Outcome-cases (returned (err x)) = inr (inl (x, refl))
Outcome-cases (returned (ok a)) = inr (inr (a, refl))

abbrev pub M : Type 0 → Type 0
M A = State → Outcome A × State

unfoldable pub pure : {A : Type 0} → A → M A
pure a s = (returned a, s)

unfoldable pub panic : {A : Type 0} → M A
panic s = (panicked, s)

abbrev pub continue : {A B : Type 0} → Outcome A → (A → M B) → M B
continue (returned a) f s = f a s
continue panicked f s = (panicked, s)

infixl 5 ◌>>=◌ ◌>>◌
unfoldable pub ◌>>=◌ : {A B : Type 0} → M A → (A → M B) → M B
◌>>=◌ m f s = let (r, s') = m s in continue r f s'

abbrev pub ◌>>◌ : {B : Type 0} → M (Unit {0}) → M B → M B
m >> k = m >>= λ _. k

-- `*p`
unfoldable pub deref : {A : Type 0} → Option A → M A
unfolding pure panic
deref none = panic
deref (some a) = pure a

abbrev pub record_call : Call → State → State
record_call c s = record s { history = c ∷ s.history }

-- An error as the result of a fallible pure function.
abbrev pub error? {ℓ} : {A : Type ℓ} → Result A → Option Error
error? (ok a) = none
error? (err x) = some x

-- errors.IsNotFound, errors.IsAlreadyExists
abbrev pub is_not_found : Error → Bool
is_not_found (not_found _) = true
is_not_found _ = false

abbrev pub is_already_exists : Error → Bool
is_already_exists (already_exists _) = true
is_already_exists _ = false
