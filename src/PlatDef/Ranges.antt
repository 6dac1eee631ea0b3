-- ===== src/PlatDef/Ranges.antt =====
-- The ranges of a buffer that a call is handed.
use ocp_canopy_open_bmc.Common.{
  ℕ, ◌+◌, ◌≤◌, ◌<◌, ◌≡◌, ◌↔◌, none, some, arith, Bytes, length, read_at,
}
use ocp_canopy_open_bmc.PlatDef.{range_at}

pub range_at-none : (off n : ℕ) (bs : Bytes) → (range_at off n bs ≡ none) ↔ (length bs < off + n)
unfolding range_at
range_at-none off n bs = ground arith

pub range_at-inside :
    (off n : ℕ) (bs : Bytes) → off + n ≤ length bs → range_at off n bs ≡ some (read_at off n bs)
unfolding range_at
range_at-inside off n bs h = ground arith
