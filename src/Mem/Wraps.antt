-- ===== src/Mem/Wraps.antt =====
-- taskman/mem/mmap.c: lengths whose rounding wraps.
use lq.Mem.Space.{Space}
