-- ===== src/Clientset.antt =====
-- The generated clients of the two resources and their fakes
-- (pkg/apis/vihara/generated/clientset/versioned/typed/vihara/v1alpha1): the requests that they build
-- and how they read the answers. `Parity` compares a client with its fake.
pub mod MtJobs
pub mod Mts
pub mod FakeMtJobs
pub mod FakeMts
pub mod Parity
pub mod Timeout
use vihara.Prelude.{
  ℕ, suc, ◌+◌, ◌-◌, ◌*◌, ◌%◌, String, Bool, Option, none, some, List, [], ◌∷◌, Map, ℤ, pos, negsuc,
  ltb, if◌then◌else◌,
}
use vihara.Api.{Duration}
use vihara.Env.{Error, Result, ok, err}

-- The options of metav1, as far as the clients read them; the rest is passed on.
pub record Options : Type 0 where
  pub text : String

pub record ListOptions : Type 0 where
  pub timeout_seconds : Option ℤ
  pub watch : Bool
  pub label_selector : String
  pub options : Options

pub data Verb : Type 0 where
  get post put delete : Verb
  patch : String → Verb

-- what `VersionedParams` encodes
pub data Params : Type 0 where
  no_params : Params
  params : Options → Params
  list_params : ListOptions → Params

pub data Body (A : Type 0) : Type 0 where
  no_body : Body A
  object : A → Body A
  options_body : Options → Body A
  bytes : String → Body A

-- A request of the REST client: its verb, and what the calls on it set.
pub record Request (A : Type 0) : Type 0 where
  pub verb : Verb
  pub namespace : Option String
  pub resource : String
  pub name : Option String
  pub subresources : List String
  pub params : Params
  pub timeout : Option Duration
  pub body : Body A

-- a list of objects, with its `ListMeta`
pub record ObjectList (A : Type 0) : Type 0 where
  pub list_meta : String
  pub items : List A

-- The REST client: `Do(ctx)` read into an object or a list, or only for its error, and `Watch(ctx)`.
pub record Rest (A W : Type 0) : Type 0 where
  pub send : Request A → Result A
  pub send_list : Request A → Result (ObjectList A)
  pub send_only : Request A → Option Error
  pub send_watch : Request A → Result W

-- `Into(result)`: an error leaves the fresh object.
abbrev pub into : {A : Type 0} → A → Result A → A × Option Error
into fresh (ok a) = (a, none)
into fresh (err x) = (fresh, some x)

abbrev pub empty_list : {A : Type 0} → ObjectList A
empty_list = record { list_meta = ""; items = [] }

-- int64's wrap-around
unfoldable pub wrap_int64 : ℤ → ℤ
wrap_int64 (pos n) =
    let r = n % 18_446_744_073_709_551_616 in
    if ltb r 9_223_372_036_854_775_808 then pos r else negsuc (18_446_744_073_709_551_615 - r)
wrap_int64 (negsuc n) =
    let r = n % 18_446_744_073_709_551_616 in
    if ltb r 9_223_372_036_854_775_808 then negsuc r else pos (18_446_744_073_709_551_615 - r)

-- `time.Duration(seconds) * time.Second`
unfoldable pub of_seconds : ℤ → Duration
of_seconds (pos n) = wrap_int64 (pos (n * 1_000_000_000))
of_seconds (negsuc n) = wrap_int64 (negsuc (n * 1_000_000_000 + 999_999_999))

-- the timeout of the three methods that take list options
unfoldable pub list_timeout : ListOptions → Duration
list_timeout opts = elim opts.timeout_seconds [ none ↦ pos 0 | some s ↦ of_seconds s ]

-- The fake's actions, by the constructors of client-go's testing package. A root action has no
-- namespace.
pub data Action (A : Type 0) : Type 0 where
  get_action delete_action : (resource ns name : String) → Action A
  root_get_action root_delete_action : (resource name : String) → Action A
  list_action : (resource kind ns : String) → ListOptions → Action A
  root_list_action : (resource kind : String) → ListOptions → Action A
  watch_action delete_collection_action : (resource ns : String) → ListOptions → Action A
  root_watch_action root_delete_collection_action : (resource : String) → ListOptions → Action A
  create_action update_action : (resource ns : String) → A → Action A
  root_create_action root_update_action : (resource : String) → A → Action A
  update_subresource_action : (resource subresource ns : String) → A → Action A
  root_update_subresource_action : (resource subresource : String) → A → Action A
  patch_subresource_action : (resource ns name type data_ : String) → List String → Action A
  root_patch_subresource_action : (resource name type data_ : String) → List String → Action A

-- The fake's reactions: an object, or nil, with an error; and whether a label selector matches.
pub record Fake (A W : Type 0) : Type 0 where
  pub invokes : Action A → Option A × Option Error
  pub invokes_list : Action A → Option (ObjectList A) × Option Error
  pub invokes_watch : Action A → Result W
  pub label_matches : ListOptions → Map String → Bool

-- the items that a fake's list keeps
unfoldable pub keep_matching : {A : Type 0} → (A → Bool) → List A → List A
keep_matching test [] = []
keep_matching test (x ∷ xs) = let rest = keep_matching test xs in if test x then x ∷ rest else rest
