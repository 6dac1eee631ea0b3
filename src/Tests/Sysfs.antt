-- ===== src/Tests/Sysfs.antt =====
-- Listings of sysfs, and the order of a hash table, at concrete inputs.
use mathlib.Core.List.Perm
use ocp_canopy_open_bmc.Common.{◌≡◌, refl, none, List, [], ◌∷◌, inl, inr, arith, All}
use ocp_canopy_open_bmc.Smif.I2c.{find_bus}
use ocp_canopy_open_bmc.PlatDef.Table.{UniqueKeys, find_key}
use ocp_canopy_open_bmc.PlatDef.Records.{SegmentMap}
use ocp_canopy_open_bmc.PlatDef.Topology.{
  scan_mux_topology, mux_of, channel_of, bus_of, bind, strip,
}
use ocp_canopy_open_bmc.PlatDef.Topology.Printed.{
  ListedDevice, channel, other_channel, mux, other_device, device_entries, put_listed, IsListed,
  scan-listed,
}
use ocp_canopy_open_bmc.PlatDef.Build.{build_segment_bus_map}
use ocp_canopy_open_bmc.PlatDef.Build.Order.{build-Perm}
use ocp_canopy_open_bmc.Tests.PlatDef.{devices}

-- Multiplexer 1 with channels 2 (bus 39) and 200 (bus 1234567), a file, and a dangling link.
abbrev listing : List ListedDevice
listing =
    other_device (record { name = 117 ∷ []; channels = none })
    ∷ mux (56 ∷ 48 ∷ 58 ∷ []) 1 (
        channel 2 39
        ∷ other_channel (record { name = 117 ∷ []; target = none })
        ∷ other_channel (record { name = 99 ∷ []; target = none })
        ∷ channel 200 1234567
        ∷ [])
    ∷ []

listing-IsListed : All IsListed listing
unfolding mux_of channel_of bus_of bind strip
listing-IsListed = (
  refl,
  (
    (
      (refl, (refl, (refl, tt))),
      (
        omega arith,
        ((omega arith, omega arith), (inl refl, (inr refl, ((omega arith, omega arith), tt)))),
      ),
    ),
    tt,
  ),
)

scan-listed_example : scan_mux_topology (device_entries listing) ≡ put_listed listing []
scan-listed_example = scan-listed listing listing-IsListed

abbrev segments : SegmentMap
segments =
    (0x33, record { cpld_register = 0x85; channel_value = 2 })
    ∷ (0x34, record { cpld_register = 0x86; channel_value = 1 })
    ∷ []

abbrev other_order : SegmentMap
other_order =
    (0x34, record { cpld_register = 0x86; channel_value = 1 })
    ∷ (0x33, record { cpld_register = 0x85; channel_value = 2 })
    ∷ []

segments-UniqueKeys : UniqueKeys segments
unfolding find_key
segments-UniqueKeys = (refl, (refl, tt))

build-Perm_example :
    find_bus 0x33 (build_segment_bus_map devices segments)
    ≡ find_bus 0x33 (build_segment_bus_map devices other_order)
build-Perm_example =
    build-Perm devices segments other_order 0x33 segments-UniqueKeys (Perm.swap _ _ [])
