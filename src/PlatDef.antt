-- ===== src/PlatDef.antt =====
-- src/platdef_extract.cpp and platdef_extract.hpp: from the flash of the host to the map of I2C
-- segments. The children model the bundle (Bundle), the records (Records), the buses of the kernel
-- (Topology), the map that combines them (Build) and the search of the flash (Extract).
--
-- `size_t` has 32 bits. The maps are association lists that hold a key at most once.
pub mod Table
pub mod Ranges
pub mod Bundle
pub mod Records
pub mod Topology
pub mod Build
pub mod Extract
use ocp_canopy_open_bmc.Common.{
  ℕ, ◌+◌, Option, none, some, leb, if◌then◌else◌, Bytes, length, read_at,
}

-- `I2cSegmentMapping`
pub record I2cSegmentMapping : Type 0 where
  pub cpld_register : ℕ
  pub channel_value : ℕ

-- The `n` bytes at an offset of a buffer, for a call that is handed their address: `none` when they
-- leave the buffer.
unfoldable pub range_at : ℕ → ℕ → Bytes → Option Bytes
range_at off n bs = if leb (off + n) (length bs) then some (read_at off n bs) else none
