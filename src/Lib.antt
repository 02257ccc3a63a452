-- ===== src/Lib.antt =====
-- Vihara: a Kubernetes controller that carries out planned maintenance on nodes.
--
-- A `Maintenance` object selects nodes, gives a schedule and lists stages (drain the nodes, run a
-- pod, uncordon them). The controller admits new objects, waits for their schedule, freezes their
-- specification in a snapshot, checks the maintenances they depend on, and creates one
-- `MaintenanceJob` for each selected node. Each `MaintenanceJob` is then moved through its stages.
-- Two timeout queues call the controller back, one with names of `Maintenance` objects and one with
-- names of `MaintenanceJob` objects; informers call it with the events of these objects and of the
-- Kubernetes jobs that run the pods.
--
-- The parts of the program and the files that model them:
-- - pkg/apis/vihara/v1alpha1/types_maintenance.go: Api/MtTypes (types, `CanBeScheduledIn`,
--   `Finished`, `Admitted`, `Canceled`, `Started`, `Scheduled`, `Expired`) and Validate (the
--   `Validate` methods).
-- - pkg/apis/vihara/v1alpha1/types_maintenancejob.go: Api/MtJobTypes.
-- - pkg/conf/vihara.go: Conf. pkg/conf/util.go: Cmd/ReadConfig (`ReadConfig`) and Cmd/Signals (its
--   signal loop).
-- - cmd/vihara/main.go, pkg/cmd/vihara.go, pkg/constant/env.go: Cmd (`main`, the flags' defaults,
--   `run` and its callbacks, `init`).
-- - pkg/util/manager/base_manager.go: Manager.
-- - pkg/controller/maintenance/maintenance.go: Controller/Phases (`onMaintenanceAdded`,
--   `onMaintenanceUpdated`, `onMaintenanceDeleting`, `onMaintenanceDeleted`,
--   `getMaintenanceFromCache`, `enqueueMaintenanceForScheduling`), Controller/Schedule
--   (`scheduleMaintenance`), Controller/Dependencies (its loops over the dependencies),
--   Controller/Creation (its loops over the nodes and the new jobs), Controller/NodeEnv
--   (`CreatePodEnvVarFromNodeSpecificEnv`, `CreatePodEnvSourceFromNodeSpecificEnvFrom`,
--   `ExtractNodeFieldPathAsString`).
-- - pkg/controller/maintenance/maintenencejob.go: Controller/JobEvents (`onMaintenanceJobAdded` and
--   the other three), Controller/JobCache (`getMaintenanceJobFromCache`,
--   `enqueueMaintenanceJobForScheduling`), Controller/Stages (`scheduleMaintenanceJob`),
--   Controller/Nodes (`drainNodes`, `uncordonNodes`, `getNodesByMaintenanceNodeSelectors`,
--   `patchUpdateNode`), Controller/Generate (`generateMaintenanceJob`), Controller/Merge
--   (`mergeEnv`, `mergeEnvFrom`).
-- - pkg/controller/maintenance/job.go: Controller/JobEvents (`onJobUpdated` and the other three) and
--   Controller/Generate (`generateJob`).
-- - pkg/controller/maintenance/controller.go: Controller/Reconcile (the `Controller` fields that the
--   handlers read, `reconcile.Result`), Controller/Events (the handlers that `NewController` gives to
--   the reconcilers) and Controller/Process (`processMaintenanceSchedule`,
--   `processMaintenanceJobSchedule`, and the function that `Start` runs once; its two consumers are
--   one list of keys, in the order in which they are handled).
-- - pkg/apis/vihara/generated/clientset/versioned/typed/vihara/v1alpha1: Env/Clients, the calls that
--   the controller makes, and Clientset (every method of the two clients with its request, and of
--   their fakes with its action).
-- - pkg/apis/vihara/generated/informers/externalversions: Informers (the factory and the two
--   informers). pkg/apis/vihara/generated/listers: Informers/Listers.
--
-- The controller as a whole is in System. Lifecycle is the abstract machine of a Maintenance's status,
-- and Reachable the relation of the controller's steps: the informers deliver and forget objects,
-- the handlers run, the queues give out keys, and the controller is restarted with empty caches. An
-- object that is delivered has the status of a new object or one that was submitted before. Frames
-- says what each part leaves alone, Statuses and JobStatuses what each part keeps (the latter with a
-- small program logic), Invariants what therefore holds in each reachable state, Phases what the
-- controller does to the objects of its cache, and Progress how a drain comes to its end. A handler
-- and the processing of a key are one step each.
--
-- How code becomes definitions. A handler is a function from the state to an outcome and a state
-- (`M` of Env): the state has the two informer caches and the history of the calls made so far. What
-- is not in the repository (the API server behind the clients, the queues, the clock, the event
-- recorder, and the libraries for JSON, hashes, patches, selectors, taints and field paths) is the
-- record `Env` of functions, which every definition that uses it takes as an argument. The ones that
-- answer a call read the history, so two equal calls may have different answers, and no answer is
-- assumed where a theorem does not name it. A nil dereference and an index out of range are the
-- outcome `panicked`. An error is a value of `Error`, and `nil` is `none`.
--
-- Pointers. `getMaintenanceFromCache` and `getMaintenanceJobFromCache` hand out the cache's own
-- object, so a write through them is a write to the cache (`write_mt`, `write_mt_job`); an object
-- that a client returned, or a `DeepCopy`, is not in the cache. On an error a client returns an empty
-- object, as the generated code does.
--
-- Bounds. Instants and durations are integers of nanoseconds without the limits of an int64, except
-- for the timeouts of Clientset, which wrap around.
-- `Duration.Seconds` is a float64 in the source, and exact to the second below 2^23 seconds. The
-- loop of `scheduleMaintenance` over the names of a job ends at 2^64 - 2 rounds in the source too,
-- which is `max_rounds`: its fuel is the loop's own bound. A uint64 has at most 16 digits in base 16,
-- the fuel of `format_hex`. Every other loop is a recursion on the list it goes through.
--
-- Not modelled: log lines; the order in which Go walks a map, where the source does not sort (the
-- model walks its association list); the text of a pod's node affinity; the construction of
-- clients, informers and reconcilers in `NewController`; interleavings within the handling of one
-- key; the metrics server and the event broadcaster of the command; the version command; generated
-- registrations, client sets and deep copies; vendored libraries.
pub mod Prelude
pub mod Api
pub mod Env
pub mod Conf
pub mod Validate
pub mod Controller
pub mod Manager
pub mod Cmd
pub mod Clientset
pub mod Informers
pub mod System
pub mod Tests
