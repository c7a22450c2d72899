-- ===== src/Mem/Protect.antt =====
-- taskman/mem/mmap.c: `tm_mprotect_serve`.
use lq.Base.{
  ℕ, zero, suc, ◌%◌, Bool, true, false, not, ◌&&◌, ◌||◌, Option, none, some, List, [], ◌∷◌, ltb,
  leb, ◌==◌, if◌then◌else◌, add64, Status, ok, err, enomem, einval, esrch, eacces,
}
use lq.Mem.Space.{Page, Space, Kernel, mega, page_4k, round_up}
use lq.Mem.Unmap.{find_mmap_idx}
use lq.Mem.Anonymous.{Rights}

-- The bits of `prot`: PROT_READ, PROT_WRITE and PROT_EXEC.
pub record Prot : Type 0 where
  pub read : Bool
  pub write : Bool
  pub exec : Bool

-- TM_VM_ATTR_EXEC_NEVER
abbrev pub exec_never : ℕ
exec_never = 1

-- `find_mmap_span`, as a test.
unfoldable pub in_mmap_span : ℕ → List Page → Bool
in_mmap_span va [] = false
in_mmap_span va (p ∷ ps) =
    let rest = in_mmap_span va ps in if leb p.va va && ltb va (add64 p.va mega) then true else rest

-- `cap_rights` is `seL4_CapRights_new`, with the read and the write right.
module _ {K : Type 0} (kernel : Kernel K) (rights : Rights) (cap_rights : Bool → Bool → ℕ) where
  -- The body of the loop for the page `va`.
  unfoldable pub protect_page : Prot → ℕ → Space → K → Status × K
  protect_page prot va s k =
      let attr = if prot.exec then rights.attr_default else exec_never in
      elim (find_mmap_idx va s.mprot) [
        | some hit ↦
            let (mapped, k') =
              kernel.map_page (hit.1).frame va (cap_rights prot.read prot.write) attr k in
            (if mapped then ok else err eacces, k')
        | none ↦
            if in_mmap_span va s.mmap
            then (if prot.read || prot.write then ok else err eacces, k)
            else (err enomem, k)
      ]

  -- The loop of `tm_mprotect_serve`, on fuel.
  unfoldable pub protect_pages : ℕ → Prot → ℕ → ℕ → Space → K → Option (Status × K)
  protect_pages zero prot va end s k = none
  protect_pages (suc fuel) prot va end s k =
      let (status, k') = protect_page prot va s k in
      let next = protect_pages fuel prot (add64 va page_4k) end s k' in
      if ltb va end then elim status [ ok ↦ next | err e ↦ some (err e, k') ] else some (ok, k)

  -- `tm_mprotect_serve`. The length bounds the turns of the loop.
  unfoldable pub mprotect_serve : ℕ → ℕ → Prot → Option Space → K → Option (Status × K)
  mprotect_serve addr len prot none k = some (err esrch, k)
  mprotect_serve addr len prot (some s) k =
      let end = round_up page_4k (add64 addr len) in
      if len == 0 || not (addr % page_4k == 0)
      then some (err einval, k)
      else protect_pages (suc len) prot addr end s k
