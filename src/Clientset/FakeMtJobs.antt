-- ===== src/Clientset/FakeMtJobs.antt =====
-- The fake client of MaintenanceJob objects (fake/fake_maintenancejob.go): an answer that is nil
-- stays nil.
use vihara.Prelude.{String, Option, none, some, List}
use vihara.Api.{MaintenanceJob}
use vihara.Env.{Error, Result}
use vihara.Clientset.{Options, ListOptions, ObjectList, Action, Fake, keep_matching}

abbrev resource : String
resource = "maintenancejobs"

abbrev kind : String
kind = "MaintenanceJob"

-- the action of `Get`
unfoldable pub get_action : String → String → Options → Action MaintenanceJob
get_action ns name options = Action.get_action resource ns name

-- the action of `List`
unfoldable pub list_action : String → ListOptions → Action MaintenanceJob
list_action ns opts = Action.list_action resource kind ns opts

-- the action of `Watch`
unfoldable pub watch_action : String → ListOptions → Action MaintenanceJob
watch_action ns opts = Action.watch_action resource ns opts

-- the action of `Create`
unfoldable pub create_action : String → MaintenanceJob → Options → Action MaintenanceJob
create_action ns job opts = Action.create_action resource ns job

-- the action of `Update`
unfoldable pub update_action : String → MaintenanceJob → Options → Action MaintenanceJob
update_action ns job opts = Action.update_action resource ns job

-- the action of `UpdateStatus`
unfoldable pub update_status_action : String → MaintenanceJob → Options → Action MaintenanceJob
update_status_action ns job opts = Action.update_subresource_action resource "status" ns job

-- the action of `Delete`
unfoldable pub delete_action : String → String → Options → Action MaintenanceJob
delete_action ns name opts = Action.delete_action resource ns name

-- the action of `DeleteCollection`
unfoldable pub delete_collection_action : String → Options → ListOptions → Action MaintenanceJob
delete_collection_action ns opts list_opts = Action.delete_collection_action resource ns list_opts

-- the action of `Patch`
unfoldable pub patch_action :
    String → String → String → String → Options → List String → Action MaintenanceJob
patch_action ns name pt text opts subresources =
    Action.patch_subresource_action resource ns name pt text subresources

module _ {W : Type 0} (f : Fake MaintenanceJob W) (ns : String) where
  -- `Get`
  unfoldable pub get : String → Options → Option MaintenanceJob × Option Error
  get name options = f.invokes (get_action ns name options)

  -- `List` filters what the reaction returns by its labels.
  unfoldable pub list : ListOptions → Option (ObjectList MaintenanceJob) × Option Error
  list opts =
      let (got, x) = f.invokes_list (list_action ns opts) in
      elim got [
        | none ↦ (none, x)
        | some all ↦ (
          some (record {
            list_meta = all.list_meta;
            items = keep_matching (λ item. f.label_matches opts item.meta.labels) all.items;
          }),
          x,
        )
      ]

  -- `Watch`
  unfoldable pub watch : ListOptions → Result W
  watch opts = f.invokes_watch (watch_action ns opts)

  -- `Create`
  unfoldable pub create : MaintenanceJob → Options → Option MaintenanceJob × Option Error
  create job opts = f.invokes (create_action ns job opts)

  -- `Update`
  unfoldable pub update : MaintenanceJob → Options → Option MaintenanceJob × Option Error
  update job opts = f.invokes (update_action ns job opts)

  -- `UpdateStatus`
  unfoldable pub update_status : MaintenanceJob → Options → Option MaintenanceJob × Option Error
  update_status job opts = f.invokes (update_status_action ns job opts)

  -- `Delete`
  unfoldable pub delete : String → Options → Option Error
  delete name opts = let (_, x) = f.invokes (delete_action ns name opts) in x

  -- `DeleteCollection`
  unfoldable pub delete_collection : Options → ListOptions → Option Error
  delete_collection opts list_opts =
      let (_, x) = f.invokes_list (delete_collection_action ns opts list_opts) in x

  -- `Patch`
  unfoldable pub patch :
      String → String → String → Options → List String → Option MaintenanceJob × Option Error
  patch name pt text opts subresources = f.invokes (patch_action ns name pt text opts subresources)
