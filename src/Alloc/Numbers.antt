-- ===== src/Alloc/Numbers.antt =====
-- taskman/proc/process.c: numbers handed out from a stack of freed ones, or by counting up.
use lq.Base.{ℕ, ◌+◌, Option, none, some, List, [], ◌∷◌, leb, ltb, ◌==◌, if◌then◌else◌, length}

-- `s_next_pid` with `s_pid_free_list`, `s_next_slot` with `s_slot_free_list`; the top of the stack
-- is the head.
pub record Numbers : Type 0 where
  pub next : ℕ
  pub free_list : List ℕ

-- `tm_pid_alloc`, with TM_MAX_PROCESSES for `limit`; `none` is the answer 0.
unfoldable pub pid_alloc : ℕ → Numbers → Option ℕ × Numbers
pid_alloc limit s = elim s.free_list [
  | p ∷ rest ↦ (some p, record s { free_list = rest })
  | [] ↦ if leb limit s.next then (none, s) else (some s.next, record s { next = s.next + 1 })
]

-- `taskman_alloc_empty_slot`
unfoldable pub slot_alloc : Numbers → ℕ × Numbers
slot_alloc s = elim s.free_list [
  | p ∷ rest ↦ (p, record s { free_list = rest })
  | [] ↦ (s.next, record s { next = s.next + 1 })
]

-- A full stack drops the number.
abbrev pub push : ℕ → ℕ → Numbers → Numbers
push room n s =
    if ltb (length s.free_list) room then record s { free_list = n ∷ s.free_list } else s

-- `tm_pid_free`; `taskman` is QSOE_PID_TASKMAN, and no pid is negative.
unfoldable pub pid_free : ℕ → ℕ → ℕ → Numbers → Numbers
pid_free limit taskman pid s = if leb pid taskman then s else push limit pid s

-- `taskman_free_slot`
unfoldable pub slot_free : ℕ → Numbers → Numbers
slot_free slot s = if slot == 0 then s else push 256 slot s
