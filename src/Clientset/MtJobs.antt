-- ===== src/Clientset/MtJobs.antt =====
-- The client of MaintenanceJob objects (maintenancejob.go).
use vihara.Prelude.{String, true, Option, none, some, List, [], ◌∷◌}
use vihara.Api.{MaintenanceJob, empty_maintenance_job}
use vihara.Env.{Error, Result}
use vihara.Clientset.{
  Options, ListOptions, Verb, params, list_params, no_params, no_body, object, options_body, bytes,
  Request, ObjectList, Rest, into, empty_list, list_timeout,
}

-- the request of `Get`
unfoldable pub get_request : String → String → Options → Request MaintenanceJob
get_request ns name options = record {
  verb = Verb.get;
  namespace = some ns;
  resource = "maintenancejobs";
  name = some name;
  subresources = [];
  params = params options;
  timeout = none;
  body = no_body;
}

-- the request of `List`
unfoldable pub list_request : String → ListOptions → Request MaintenanceJob
list_request ns opts = record {
  verb = Verb.get;
  namespace = some ns;
  resource = "maintenancejobs";
  name = none;
  subresources = [];
  params = list_params opts;
  timeout = some (list_timeout opts);
  body = no_body;
}

-- the request of `Watch`
unfoldable pub watch_request : String → ListOptions → Request MaintenanceJob
watch_request ns opts = record {
  verb = Verb.get;
  namespace = some ns;
  resource = "maintenancejobs";
  name = none;
  subresources = [];
  params = list_params (record opts { watch = true });
  timeout = some (list_timeout opts);
  body = no_body;
}

-- the request of `Create`
unfoldable pub create_request : String → MaintenanceJob → Options → Request MaintenanceJob
create_request ns job opts = record {
  verb = Verb.post;
  namespace = some ns;
  resource = "maintenancejobs";
  name = none;
  subresources = [];
  params = params opts;
  timeout = none;
  body = object job;
}

-- the request of `Update`
unfoldable pub update_request : String → MaintenanceJob → Options → Request MaintenanceJob
update_request ns job opts = record {
  verb = Verb.put;
  namespace = some ns;
  resource = "maintenancejobs";
  name = some job.meta.name;
  subresources = [];
  params = params opts;
  timeout = none;
  body = object job;
}

-- the request of `UpdateStatus`
unfoldable pub update_status_request : String → MaintenanceJob → Options → Request MaintenanceJob
update_status_request ns job opts = record {
  verb = Verb.put;
  namespace = some ns;
  resource = "maintenancejobs";
  name = some job.meta.name;
  subresources = "status" ∷ [];
  params = params opts;
  timeout = none;
  body = object job;
}

-- the request of `Delete`
unfoldable pub delete_request : String → String → Options → Request MaintenanceJob
delete_request ns name opts = record {
  verb = Verb.delete;
  namespace = some ns;
  resource = "maintenancejobs";
  name = some name;
  subresources = [];
  params = no_params;
  timeout = none;
  body = options_body opts;
}

-- the request of `DeleteCollection`
unfoldable pub delete_collection_request : String → Options → ListOptions → Request MaintenanceJob
delete_collection_request ns opts list_opts = record {
  verb = Verb.delete;
  namespace = some ns;
  resource = "maintenancejobs";
  name = none;
  subresources = [];
  params = list_params list_opts;
  timeout = some (list_timeout list_opts);
  body = options_body opts;
}

-- the request of `Patch`
unfoldable pub patch_request :
    String → String → String → String → Options → List String → Request MaintenanceJob
patch_request ns name pt text opts subresources = record {
  verb = Verb.patch pt;
  namespace = some ns;
  resource = "maintenancejobs";
  name = some name;
  subresources = subresources;
  params = params opts;
  timeout = none;
  body = bytes text;
}

module _ {W : Type 0} (r : Rest MaintenanceJob W) (ns : String) where
  -- `Get`
  unfoldable pub get : String → Options → MaintenanceJob × Option Error
  get name options = into empty_maintenance_job (r.send (get_request ns name options))

  -- `List`
  unfoldable pub list : ListOptions → ObjectList MaintenanceJob × Option Error
  list opts = into empty_list (r.send_list (list_request ns opts))

  -- `Watch`
  unfoldable pub watch : ListOptions → Result W
  watch opts = r.send_watch (watch_request ns opts)

  -- `Create`
  unfoldable pub create : MaintenanceJob → Options → MaintenanceJob × Option Error
  create job opts = into empty_maintenance_job (r.send (create_request ns job opts))

  -- `Update`
  unfoldable pub update : MaintenanceJob → Options → MaintenanceJob × Option Error
  update job opts = into empty_maintenance_job (r.send (update_request ns job opts))

  -- `UpdateStatus`
  unfoldable pub update_status : MaintenanceJob → Options → MaintenanceJob × Option Error
  update_status job opts = into empty_maintenance_job (r.send (update_status_request ns job opts))

  -- `Delete`
  unfoldable pub delete : String → Options → Option Error
  delete name opts = r.send_only (delete_request ns name opts)

  -- `DeleteCollection`
  unfoldable pub delete_collection : Options → ListOptions → Option Error
  delete_collection opts list_opts = r.send_only (delete_collection_request ns opts list_opts)

  -- `Patch`
  unfoldable pub patch :
      String → String → String → Options → List String → MaintenanceJob × Option Error
  patch name pt text opts subresources =
      into empty_maintenance_job (r.send (patch_request ns name pt text opts subresources))
