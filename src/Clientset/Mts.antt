-- ===== src/Clientset/Mts.antt =====
-- The client of Maintenance objects (maintenance.go).
use vihara.Prelude.{String, true, Option, none, some, List, [], ◌∷◌}
use vihara.Api.{Maintenance, empty_maintenance}
use vihara.Env.{Error, Result}
use vihara.Clientset.{
  Options, ListOptions, Verb, params, list_params, no_params, no_body, object, options_body, bytes,
  Request, ObjectList, Rest, into, empty_list, list_timeout,
}

-- the request of `Get`
unfoldable pub get_request : String → Options → Request Maintenance
get_request name options = record {
  verb = Verb.get;
  namespace = none;
  resource = "maintenance";
  name = some name;
  subresources = [];
  params = params options;
  timeout = none;
  body = no_body;
}

-- the request of `List`
unfoldable pub list_request : ListOptions → Request Maintenance
list_request opts = record {
  verb = Verb.get;
  namespace = none;
  resource = "maintenance";
  name = none;
  subresources = [];
  params = list_params opts;
  timeout = some (list_timeout opts);
  body = no_body;
}

-- the request of `Watch`
unfoldable pub watch_request : ListOptions → Request Maintenance
watch_request opts = record {
  verb = Verb.get;
  namespace = none;
  resource = "maintenance";
  name = none;
  subresources = [];
  params = list_params (record opts { watch = true });
  timeout = some (list_timeout opts);
  body = no_body;
}

-- the request of `Create`
unfoldable pub create_request : Maintenance → Options → Request Maintenance
create_request mt opts = record {
  verb = Verb.post;
  namespace = none;
  resource = "maintenance";
  name = none;
  subresources = [];
  params = params opts;
  timeout = none;
  body = object mt;
}

-- the request of `Update`
unfoldable pub update_request : Maintenance → Options → Request Maintenance
update_request mt opts = record {
  verb = Verb.put;
  namespace = none;
  resource = "maintenance";
  name = some mt.meta.name;
  subresources = [];
  params = params opts;
  timeout = none;
  body = object mt;
}

-- the request of `UpdateStatus`
unfoldable pub update_status_request : Maintenance → Options → Request Maintenance
update_status_request mt opts = record {
  verb = Verb.put;
  namespace = none;
  resource = "maintenance";
  name = some mt.meta.name;
  subresources = "status" ∷ [];
  params = params opts;
  timeout = none;
  body = object mt;
}

-- the request of `Delete`
unfoldable pub delete_request : String → Options → Request Maintenance
delete_request name opts = record {
  verb = Verb.delete;
  namespace = none;
  resource = "maintenance";
  name = some name;
  subresources = [];
  params = no_params;
  timeout = none;
  body = options_body opts;
}

-- the request of `DeleteCollection`
unfoldable pub delete_collection_request : Options → ListOptions → Request Maintenance
delete_collection_request opts list_opts = record {
  verb = Verb.delete;
  namespace = none;
  resource = "maintenance";
  name = none;
  subresources = [];
  params = list_params list_opts;
  timeout = some (list_timeout list_opts);
  body = options_body opts;
}

-- the request of `Patch`
unfoldable pub patch_request :
    String → String → String → Options → List String → Request Maintenance
patch_request name pt text opts subresources = record {
  verb = Verb.patch pt;
  namespace = none;
  resource = "maintenance";
  name = some name;
  subresources = subresources;
  params = params opts;
  timeout = none;
  body = bytes text;
}

module _ {W : Type 0} (r : Rest Maintenance W) where
  -- `Get`
  unfoldable pub get : String → Options → Maintenance × Option Error
  get name options = into empty_maintenance (r.send (get_request name options))

  -- `List`
  unfoldable pub list : ListOptions → ObjectList Maintenance × Option Error
  list opts = into empty_list (r.send_list (list_request opts))

  -- `Watch`
  unfoldable pub watch : ListOptions → Result W
  watch opts = r.send_watch (watch_request opts)

  -- `Create`
  unfoldable pub create : Maintenance → Options → Maintenance × Option Error
  create mt opts = into empty_maintenance (r.send (create_request mt opts))

  -- `Update`
  unfoldable pub update : Maintenance → Options → Maintenance × Option Error
  update mt opts = into empty_maintenance (r.send (update_request mt opts))

  -- `UpdateStatus`
  unfoldable pub update_status : Maintenance → Options → Maintenance × Option Error
  update_status mt opts = into empty_maintenance (r.send (update_status_request mt opts))

  -- `Delete`
  unfoldable pub delete : String → Options → Option Error
  delete name opts = r.send_only (delete_request name opts)

  -- `DeleteCollection`
  unfoldable pub delete_collection : Options → ListOptions → Option Error
  delete_collection opts list_opts = r.send_only (delete_collection_request opts list_opts)

  -- `Patch`
  unfoldable pub patch :
      String → String → String → Options → List String → Maintenance × Option Error
  patch name pt text opts subresources =
      into empty_maintenance (r.send (patch_request name pt text opts subresources))
