-- ===== src/Clientset/Parity.antt =====
-- A fake client stands for the client: each of its methods acts on what the client's request is for.
use vihara.Prelude.{◌≡◌, refl, false, true, String, Bool, Option, none, some, List, [], ◌∷◌, arith}
use vihara.Api.{Maintenance, MaintenanceJob}
use vihara.Clientset.{
  Options, ListOptions, Verb, Params, list_params, Body, no_body, object, options_body, bytes,
  Request, Action,
}
use vihara.Clientset.MtJobs
use vihara.Clientset.Mts
use vihara.Clientset.FakeMtJobs
use vihara.Clientset.FakeMts

-- What is done, as the API server tells it: by the verb, whether one object is named, and whether
-- the parameters ask for a watch.
pub data Kind : Type 0 where
  reads lists watches creates updates deletes deletes_all : Kind
  patches : String → Kind

pub record Target (A : Type 0) : Type 0 where
  pub kind : Kind
  pub namespace : Option String
  pub resource : String
  pub name : Option String
  pub subresources : List String
  pub content : Body A

abbrev pub asks_watch : Params → Bool
asks_watch (list_params opts) = opts.watch
asks_watch _ = false

abbrev pub kind_of : Verb → Option String → Bool → Kind
kind_of Verb.get (some _) watch = Kind.reads
kind_of Verb.get none true = Kind.watches
kind_of Verb.get none false = Kind.lists
kind_of Verb.post name watch = Kind.creates
kind_of Verb.put name watch = Kind.updates
kind_of Verb.delete (some _) watch = Kind.deletes
kind_of Verb.delete none watch = Kind.deletes_all
kind_of (Verb.patch type) name watch = Kind.patches type

-- the options of a deletion are not part of what it is about
abbrev pub content_of : {A : Type 0} → Body A → Body A
content_of (options_body _) = no_body
content_of body = body

abbrev pub of_request : {A : Type 0} → Request A → Target A
of_request r = record {
  kind = kind_of r.verb r.name (asks_watch r.params);
  namespace = r.namespace;
  resource = r.resource;
  name = r.name;
  subresources = r.subresources;
  content = content_of r.body;
}

module _ {A : Type 0} (name_of : A → String) where
  abbrev pub target :
      Kind → Option String → String → Option String → List String → Body A → Target A
  target kind ns resource name subresources content = record {
    kind = kind;
    namespace = ns;
    resource = resource;
    name = name;
    subresources = subresources;
    content = content;
  }

  abbrev pub of_action : Action A → Target A
  of_action (Action.get_action r ns n) = target Kind.reads (some ns) r (some n) [] no_body
  of_action (Action.root_get_action r n) = target Kind.reads none r (some n) [] no_body
  of_action (Action.delete_action r ns n) = target Kind.deletes (some ns) r (some n) [] no_body
  of_action (Action.root_delete_action r n) = target Kind.deletes none r (some n) [] no_body
  of_action (Action.list_action r k ns _) = target Kind.lists (some ns) r none [] no_body
  of_action (Action.root_list_action r k _) = target Kind.lists none r none [] no_body
  of_action (Action.watch_action r ns _) = target Kind.watches (some ns) r none [] no_body
  of_action (Action.root_watch_action r _) = target Kind.watches none r none [] no_body
  of_action (Action.delete_collection_action r ns _) =
      target Kind.deletes_all (some ns) r none [] no_body
  of_action (Action.root_delete_collection_action r _) =
      target Kind.deletes_all none r none [] no_body
  of_action (Action.create_action r ns a) = target Kind.creates (some ns) r none [] (object a)
  of_action (Action.root_create_action r a) = target Kind.creates none r none [] (object a)
  of_action (Action.update_action r ns a) =
      target Kind.updates (some ns) r (some (name_of a)) [] (object a)
  of_action (Action.root_update_action r a) =
      target Kind.updates none r (some (name_of a)) [] (object a)
  of_action (Action.update_subresource_action r sub ns a) =
      target Kind.updates (some ns) r (some (name_of a)) (sub ∷ []) (object a)
  of_action (Action.root_update_subresource_action r sub a) =
      target Kind.updates none r (some (name_of a)) (sub ∷ []) (object a)
  of_action (Action.patch_subresource_action r ns n t d subs) =
      target (Kind.patches t) (some ns) r (some n) subs (bytes d)
  of_action (Action.root_patch_subresource_action r n t d subs) =
      target (Kind.patches t) none r (some n) subs (bytes d)

-- Each of the nine methods of the fake client of MaintenanceJob objects records an action on the same
-- resource, namespace, name, subresources and content as the request of the client's method, and of
-- the same kind, if list options do not ask for a watch by themselves. The options of a deletion are
-- left out of the comparison.
pub mt_job_requests-FakeMtJobs :
    (ns : String) (name pt text : String) (job : MaintenanceJob) (opts : Options)
    (list_opts : ListOptions) (subresources : List String)
    → list_opts.watch ≡ false
    → (of_request (MtJobs.get_request ns name opts)
        ≡ of_action (λ job. job.meta.name) (FakeMtJobs.get_action ns name opts))
      × (of_request (MtJobs.list_request ns list_opts)
          ≡ of_action (λ job. job.meta.name) (FakeMtJobs.list_action ns list_opts))
      × (of_request (MtJobs.watch_request ns list_opts)
          ≡ of_action (λ job. job.meta.name) (FakeMtJobs.watch_action ns list_opts))
      × (of_request (MtJobs.create_request ns job opts)
          ≡ of_action (λ job. job.meta.name) (FakeMtJobs.create_action ns job opts))
      × (of_request (MtJobs.update_request ns job opts)
          ≡ of_action (λ job. job.meta.name) (FakeMtJobs.update_action ns job opts))
      × (of_request (MtJobs.update_status_request ns job opts)
          ≡ of_action (λ job. job.meta.name) (FakeMtJobs.update_status_action ns job opts))
      × (of_request (MtJobs.delete_request ns name opts)
          ≡ of_action (λ job. job.meta.name) (FakeMtJobs.delete_action ns name opts))
      × (of_request (MtJobs.delete_collection_request ns opts list_opts)
          ≡ of_action
              (λ job. job.meta.name)
              (FakeMtJobs.delete_collection_action ns opts list_opts))
      × (of_request (MtJobs.patch_request ns name pt text opts subresources)
          ≡ of_action
              (λ job. job.meta.name)
              (FakeMtJobs.patch_action ns name pt text opts subresources))
unfolding MtJobs.get_request FakeMtJobs.get_action MtJobs.list_request FakeMtJobs.list_action
    MtJobs.watch_request FakeMtJobs.watch_action MtJobs.create_request FakeMtJobs.create_action
    MtJobs.update_request FakeMtJobs.update_action MtJobs.update_status_request
    FakeMtJobs.update_status_action MtJobs.delete_request FakeMtJobs.delete_action
    MtJobs.delete_collection_request FakeMtJobs.delete_collection_action MtJobs.patch_request
    FakeMtJobs.patch_action
mt_job_requests-FakeMtJobs ns name pt text job opts list_opts subresources plain =
    (refl, ground arith, refl, refl, refl, refl, refl, refl, refl)

-- The same of the fake client of Maintenance objects, which have no namespace: each of its nine
-- methods records an action of the same kind, on the same resource, name, subresources and content as
-- the request of the client's method, if list options do not ask for a watch by themselves. The
-- options of a deletion are left out of the comparison.
mt_requests-FakeMts :
    (name pt text : String) (mt : Maintenance) (opts : Options) (list_opts : ListOptions)
    (subresources : List String)
    → list_opts.watch ≡ false
    → (of_request (Mts.get_request name opts)
        ≡ of_action (λ mt. mt.meta.name) (FakeMts.get_action name opts))
      × (of_request (Mts.list_request list_opts)
          ≡ of_action (λ mt. mt.meta.name) (FakeMts.list_action list_opts))
      × (of_request (Mts.watch_request list_opts)
          ≡ of_action (λ mt. mt.meta.name) (FakeMts.watch_action list_opts))
      × (of_request (Mts.create_request mt opts)
          ≡ of_action (λ mt. mt.meta.name) (FakeMts.create_action mt opts))
      × (of_request (Mts.update_request mt opts)
          ≡ of_action (λ mt. mt.meta.name) (FakeMts.update_action mt opts))
      × (of_request (Mts.update_status_request mt opts)
          ≡ of_action (λ mt. mt.meta.name) (FakeMts.update_status_action mt opts))
      × (of_request (Mts.delete_request name opts)
          ≡ of_action (λ mt. mt.meta.name) (FakeMts.delete_action name opts))
      × (of_request (Mts.delete_collection_request opts list_opts)
          ≡ of_action (λ mt. mt.meta.name) (FakeMts.delete_collection_action opts list_opts))
      × (of_request (Mts.patch_request name pt text opts subresources)
          ≡ of_action (λ mt. mt.meta.name) (FakeMts.patch_action name pt text opts subresources))
unfolding Mts.get_request FakeMts.get_action Mts.list_request FakeMts.list_action Mts.watch_request
    FakeMts.watch_action Mts.create_request FakeMts.create_action Mts.update_request
    FakeMts.update_action Mts.update_status_request FakeMts.update_status_action Mts.delete_request
    FakeMts.delete_action Mts.delete_collection_request FakeMts.delete_collection_action
    Mts.patch_request FakeMts.patch_action
mt_requests-FakeMts name pt text mt opts list_opts subresources plain =
    (refl, ground arith, refl, refl, refl, refl, refl, refl, refl)
