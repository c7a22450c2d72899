-- ===== src/Path/Linked.antt =====
-- taskman/path/io.c: an open keeps the registries in order.
use lq.Base.{Result}
use lq.Chan.Wired.{Wired}
use lq.Proc.State.{System, Kernel, Abi}
use lq.Proc.Attached.{Linked}
use lq.Path.Io.{Io}

module _ {K : Type 0} (kernel : Kernel K) (abi : Abi) where
  -- What a step leaves is in order.
  record After (out : Result (Unit {0}) × System K) : Type 0 where
    pub linked : Linked kernel abi out.1
