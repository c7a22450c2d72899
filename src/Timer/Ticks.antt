-- ===== src/Timer/Ticks.antt =====
-- taskman/proc/timer.c: durations as ticks of the clock, and the comparison that wraps.
use lq.Base.{
  ℕ, ◌+◌, ◌*◌, ◌/◌, ◌%◌, ◌^◌, ◌≤◌, ◌<◌, ◌≡◌, ◌≢◌, sym, ap, ◌∙◌, Bool, true, false, arith, ltb, ◌==◌,
  if◌then◌else◌, add64, sub64, w64, unequal,
}
use native.Mathlib.Nat.{
  mod-eq_of_lt, div-add-mod', mul-add-div_right, div-le_self, mod-lt, mul-le-mul_right, add-mul,
  mul_right_comm,
}

-- `ns_to_ticks` for `unit` 10^9 and `us_to_ticks` for `unit` 10^6, at `freq` ticks per second.
unfoldable pub to_ticks : ℕ → ℕ → ℕ → ℕ
to_ticks unit freq t =
    if freq == 0 then 0 else add64 ((t / unit) * freq % w64) ((t % unit) * freq % w64 / unit)

abbrev pub ns_to_ticks : ℕ → ℕ → ℕ
ns_to_ticks freq ns = to_ticks 1000000000 freq ns

abbrev pub us_to_ticks : ℕ → ℕ → ℕ
us_to_ticks freq us = to_ticks 1000000 freq us

-- `(long)(now - expiry) >= 0`
abbrev pub expired : ℕ → ℕ → Bool
expired now expiry = ltb (sub64 now expiry) (2 ^ 63)

-- A time that is due for less than 2^63 ticks has expired, one that lies ahead by at most 2^63 has
-- not, and the wrap of the clock between the two makes no difference.
pub expired_iff :
    (start ahead : ℕ)
    → start < w64
    → ahead < 2 ^ 63
    → (expired (add64 start ahead) start ≡ true) × (expired start (add64 start (ahead + 1)) ≡ false)
expired_iff start ahead h k = (ground arith, ground arith)

-- Nothing is lost by the split product: within the bounds of the machine word the result is the
-- duration in ticks, rounded down.
pub to_ticks_floor :
    (unit freq t : ℕ)
    → 0 < unit
    → freq ≢ 0
    → t * freq < w64
    → unit * freq < w64
    → to_ticks unit freq t ≡ t * freq / unit
unfolding to_ticks
to_ticks_floor unit freq t pos some_freq fits fits' =
    let d = t / unit in
    let m = t % unit in
    let split : d * unit + m ≡ t = div-add-mod' t unit in
    let small : m < unit = mod-lt t pos in
    let whole : d * freq ≤ t * freq = mul-le-mul_right freq (div-le_self t unit) in
    let part : m * freq ≤ unit * freq = mul-le-mul_right freq (omega arith) in
    let spread : t * freq ≡ d * freq * unit + m * freq =
      ap (λ x. x * freq) (sym split)
      ∙ (add-mul (d * unit) m freq ∙ ap (λ x. x + m * freq) (mul_right_comm d unit freq)) in
    let floor : t * freq / unit ≡ d * freq + m * freq / unit =
      ap (λ x. x / unit) spread ∙ mul-add-div_right pos (d * freq) (m * freq) in
    let bound : t * freq / unit ≤ t * freq = div-le_self (t * freq) unit in
    rw
      (
        unequal freq 0 some_freq,
        mod-eq_of_lt {n = d * freq} {m = w64} (omega (arith, whole)),
        mod-eq_of_lt {n = m * freq} {m = w64} (omega (arith, part)),
      )
      (mod-eq_of_lt (omega (arith, floor, bound)) ∙ sym floor)
