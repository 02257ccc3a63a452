-- ===== src/Clientset/FakeMts.antt =====
-- The fake client of Maintenance objects (fake/fake_maintenance.go): an answer that is nil
-- stays nil.
use vihara.Prelude.{String, Option, none, some, List}
use vihara.Api.{Maintenance}
use vihara.Env.{Error, Result}
use vihara.Clientset.{Options, ListOptions, ObjectList, Action, Fake, keep_matching}

abbrev resource : String
resource = "maintenance"

abbrev kind : String
kind = "Maintenance"

-- the action of `Get`
unfoldable pub get_action : String → Options → Action Maintenance
get_action name options = Action.root_get_action resource name

-- the action of `List`
unfoldable pub list_action : ListOptions → Action Maintenance
list_action opts = Action.root_list_action resource kind opts

-- the action of `Watch`
unfoldable pub watch_action : ListOptions → Action Maintenance
watch_action opts = Action.root_watch_action resource opts

-- the action of `Create`
unfoldable pub create_action : Maintenance → Options → Action Maintenance
create_action mt opts = Action.root_create_action resource mt

-- the action of `Update`
unfoldable pub update_action : Maintenance → Options → Action Maintenance
update_action mt opts = Action.root_update_action resource mt

-- the action of `UpdateStatus`
unfoldable pub update_status_action : Maintenance → Options → Action Maintenance
update_status_action mt opts = Action.root_update_subresource_action resource "status" mt

-- the action of `Delete`
unfoldable pub delete_action : String → Options → Action Maintenance
delete_action name opts = Action.root_delete_action resource name

-- the action of `DeleteCollection`
unfoldable pub delete_collection_action : Options → ListOptions → Action Maintenance
delete_collection_action opts list_opts = Action.root_delete_collection_action resource list_opts

-- the action of `Patch`
unfoldable pub patch_action : String → String → String → Options → List String → Action Maintenance
patch_action name pt text opts subresources =
    Action.root_patch_subresource_action resource name pt text subresources

module _ {W : Type 0} (f : Fake Maintenance W) where
  -- `Get`
  unfoldable pub get : String → Options → Option Maintenance × Option Error
  get name options = f.invokes (get_action name options)

  -- `List` filters what the reaction returns by its labels.
  unfoldable pub list : ListOptions → Option (ObjectList Maintenance) × Option Error
  list opts =
      let (got, x) = f.invokes_list (list_action opts) in
      elim got [
        | none ↦ (none, x)
        | some all ↦ (
          some (record {
            list_meta = all.list_meta;
            items = keep_matching (λ item. f.label_matches opts item.meta.labels) all.items;
          }),
          x,
        )
      ]

  -- `Watch`
  unfoldable pub watch : ListOptions → Result W
  watch opts = f.invokes_watch (watch_action opts)

  -- `Create`
  unfoldable pub create : Maintenance → Options → Option Maintenance × Option Error
  create mt opts = f.invokes (create_action mt opts)

  -- `Update`
  unfoldable pub update : Maintenance → Options → Option Maintenance × Option Error
  update mt opts = f.invokes (update_action mt opts)

  -- `UpdateStatus`
  unfoldable pub update_status : Maintenance → Options → Option Maintenance × Option Error
  update_status mt opts = f.invokes (update_status_action mt opts)

  -- `Delete`
  unfoldable pub delete : String → Options → Option Error
  delete name opts = let (_, x) = f.invokes (delete_action name opts) in x

  -- `DeleteCollection`
  unfoldable pub delete_collection : Options → ListOptions → Option Error
  delete_collection opts list_opts =
      let (_, x) = f.invokes_list (delete_collection_action opts list_opts) in x

  -- `Patch`
  unfoldable pub patch :
      String → String → String → Options → List String → Option Maintenance × Option Error
  patch name pt text opts subresources = f.invokes (patch_action name pt text opts subresources)
