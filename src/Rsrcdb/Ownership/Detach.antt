-- ===== src/Rsrcdb/Ownership/Detach.antt =====
-- `tm_rsrc_detach` gives the addresses of a range back to the free ones.
use lq.Base.{ℕ, ◌≡◌, Bool, ◌==◌, ◌&&◌}
use lq.Rsrcdb.Entry.{Abi, Entry, Request, is_range}
use lq.Rsrcdb.Listed.{Listed}
use lq.Rsrcdb.Db.{Db}
use lq.Rsrcdb.Inv.{Inv}
use lq.Rsrcdb.Cover.{IsRange}
use lq.Rsrcdb.Calls.{class_of}

abbrev InClass : ℕ → Entry → Type 0
InClass k e = IsRange e × (e.class ≡ k)

module _ (abi : Abi) (caller : ℕ) (r : Request) where
  abbrev cls : ℕ
  cls = class_of abi r.flags

  abbrev wanted : Entry → Bool
  wanted e = e.owner == caller && is_range e r.start r.end
