-- ===== src/PlatDef/Build.antt =====
-- src/platdef_extract.cpp: the map from the I2C segments to the buses of the kernel.
pub mod Lookup
pub mod Order
use ocp_canopy_open_bmc.Common.{ℕ, ◌-◌, ltb, if◌then◌else◌, Option, none, some, [], ◌∷◌, ℤ, List}
use ocp_canopy_open_bmc.Smif.I2c.{SegmentBusMap}
use ocp_canopy_open_bmc.PlatDef.{I2cSegmentMapping}
use ocp_canopy_open_bmc.PlatDef.Table.{find_key, put}
use ocp_canopy_open_bmc.PlatDef.Records.{SegmentMap}
use ocp_canopy_open_bmc.PlatDef.Topology.{MuxTopology, Device, mux_key, scan_mux_topology}

abbrev pub cpld_register_base : ℕ
cpld_register_base = 0x84

unfoldable pub put_bus : ℕ → Option ℤ → SegmentBusMap → SegmentBusMap
put_bus segment none result = result
put_bus segment (some bus) result = put segment bus result

-- The loop over the segments.
unfoldable pub build : MuxTopology → SegmentMap → SegmentBusMap → SegmentBusMap
build topology [] result = result
build topology ((segment, mapping) ∷ segments) result =
    let mux_index = mapping.cpld_register - cpld_register_base in
    let resolved =
      put_bus segment (find_key (mux_key mux_index mapping.channel_value) topology) result in
    build topology segments
      (if ltb mapping.cpld_register cpld_register_base then result else resolved)

-- `buildSegmentBusMap`
unfoldable pub build_segment_bus_map : List Device → SegmentMap → SegmentBusMap
build_segment_bus_map devices segments = build (scan_mux_topology devices) segments []
