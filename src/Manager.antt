-- ===== src/Manager.antt =====
-- The base of a controller: start once, close (pkg/util/manager/base_manager.go). The context is
-- whether it is done, and an action is a change of the program's state with an error.
pub mod Lifecycle
use vihara.Prelude.{Bool, true, false, ◌||◌, Option, none, some, if◌then◌else◌}
use vihara.Env.{Error}

pub record BaseManager : Type 0 where
  pub parent_done : Bool
  pub exited : Bool
  pub once_done : Bool

-- `NewBaseManager`
unfoldable pub new_base_manager : Bool → BaseManager
new_base_manager parent_done = record {
  parent_done = parent_done;
  exited = false;
  once_done = false;
}

module _ {S : Type 0} where
  -- `OnStart`: `sync.Once` runs its function the first time only.
  unfoldable pub on_start :
      (S → Option Error × S) → BaseManager → S → Option Error × BaseManager × S
  on_start do_start m s =
      if m.once_done
      then (none, m, s)
      else let (x, s') = do_start s in (x, record m { once_done = true }, s')

  -- `OnClose`; a nil `doClose` is `none`
  unfoldable pub on_close : Option (S → S) → BaseManager → S → BaseManager × S
  on_close do_close m s = (record m { exited = true }, elim do_close [ none ↦ s | some f ↦ f s ])

-- `Closing`: whether the context is done, by its own cancel function or by its parent.
unfoldable pub closing : BaseManager → Bool
closing m = m.parent_done || m.exited
