-- ===== src/Synth/Device.antt =====
-- taskman/sys/console.c, devnull.c and devzero.c: the devices of the task manager.
use lq.Base.{ℕ, List, [], ltb, if◌then◌else◌, take, replicate, eagain, Result, value, fail}

-- TM_CONSOLE_MAX_WRITE and TM_DEVZERO_MAX_READ
abbrev pub max_payload : ℕ
max_payload = 928

abbrev pub clamp : ℕ → ℕ
clamp n = if ltb max_payload n then max_payload else n

-- `tm_console_write`: the count, and the bytes of the payload that go to the console.
unfoldable pub console_write : ℕ → List ℕ → ℕ × List ℕ
console_write nbytes payload = (clamp nbytes, take (clamp nbytes) payload)

-- `tm_console_read`
abbrev pub console_read : ℕ → Result (List ℕ)
console_read want = fail eagain

-- `tm_devnull_write` and `tm_devzero_write`, `tm_devnull_read`
abbrev pub sink_write : ℕ → ℕ
sink_write nbytes = nbytes

abbrev pub devnull_read : ℕ → Result (List ℕ)
devnull_read want = value []

-- `tm_devzero_read`
unfoldable pub devzero_read : ℕ → Result (List ℕ)
devzero_read want = value (replicate (clamp want) 0)
