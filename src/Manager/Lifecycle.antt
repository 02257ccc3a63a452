-- ===== src/Manager/Lifecycle.antt =====
-- A manager starts once, and stays closed.
use vihara.Prelude.{◌≡◌, true, none, Option, arith}
use vihara.Env.{Error}
use vihara.Manager.{BaseManager, on_start, on_close, closing}

module _ {S : Type 0} (m : BaseManager) (s : S) where
  -- After a first start, whatever it returned, a second one does nothing and reports no error.
  on_start_twice :
      (first second : S → Option Error × S)
      → let (_, m', s') = on_start first m s in on_start second m' s' ≡ (none, m', s')
  unfolding on_start
  on_start_twice first second = ground arith

  -- A closed manager is closing, and a start does not change that.
  closing-on_close :
      (do_close : Option (S → S)) (do_start : S → Option Error × S)
      → let (m', s') = on_close do_close m s in
        (closing m' ≡ true) × (closing (on_start do_start m' s').1 ≡ true)
  unfolding on_start on_close closing
  closing-on_close do_close do_start = ground arith
