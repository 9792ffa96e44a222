-- ===== src/Io/Pump/Wait.antt =====
-- How long `run` of rust_io/epoll_pump.rs waits.
use rust_base.Base.{
  ℕ, ◌+◌, ◌-◌, ◌/◌, ◌*◌, ◌≤◌, ◌<◌, ◌≡◌, ◌⊎◌, inl, inr, some, arith, Bool-cases, leb, min,
}
use rust_base.Io.Pump.{timeout_ms, i32_max}

-- The wait is no longer than the time to the deadline and fits into an i32; unless it is cut to an i32,
-- less than a millisecond of that time is left after it.
pub timeout_ms_bounds :
    (now deadline t : ℕ)
    → timeout_ms now (some deadline) ≡ some t
    → (t ≤ i32_max)
      × ((t ≡ 0) ⊎ (now + t * 1000000 ≤ deadline))
      × ((t ≡ i32_max) ⊎ (deadline < now + (t + 1) * 1000000))
unfolding timeout_ms
timeout_ms_bounds now deadline t h = elim (Bool-cases (leb deadline now)) [
  | inl past ↦ let e : t ≡ 0 = ground arith in (omega (arith, e), inl e, inr (ground arith))
  | inr future ↦
      let e : t ≡ min ((deadline - now) / 1000000) i32_max = ground arith in
      elim (Bool-cases (leb ((deadline - now) / 1000000) i32_max)) [
        | inl short ↦
            let k : t ≡ (deadline - now) / 1000000 = ground arith in
            (ground arith, inr (ground arith), inr (ground arith))
        | inr long ↦ let k : t ≡ i32_max = ground arith in (ground arith, inr (ground arith), inl k)
      ]
]
