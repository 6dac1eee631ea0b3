-- ===== src/PlatDef/Build/Order.antt =====
-- `buildSegmentBusMap` goes through the segments in the order of a hash table.
use mathlib.Core.Logic.{∥∥₁_elim}
use mathlib.Core.List.{Perm}
use ocp_canopy_open_bmc.Common.{ℕ, ◌≡◌, ap, sym, ◌∙◌, List}
use ocp_canopy_open_bmc.Smif.I2c.{find_bus}
use ocp_canopy_open_bmc.PlatDef.Table.{UniqueKeys}
use ocp_canopy_open_bmc.PlatDef.Table.Order.{perm-SameMap}
use ocp_canopy_open_bmc.PlatDef.Records.{SegmentMap}
use ocp_canopy_open_bmc.PlatDef.Topology.{Device, scan_mux_topology}
use ocp_canopy_open_bmc.PlatDef.Build.{build_segment_bus_map}
use ocp_canopy_open_bmc.PlatDef.Build.Lookup.{bus_through, build-bus_through}

-- For a map of segments that holds each segment once: the proxy finds the same bus for a segment,
-- whatever order the loop over the map takes.
pub build-Perm :
    (devices : List Device) (segments others : SegmentMap) (segment : ℕ)
    → UniqueKeys segments
    → Perm segments others
    → find_bus segment (build_segment_bus_map devices segments)
      ≡ find_bus segment (build_segment_bus_map devices others)
build-Perm devices segments others segment unique orders = ∥∥₁_elim orders (hlevel) (λ p.
    let same = perm-SameMap p unique in
    build-bus_through devices segments segment unique
    ∙ ap (bus_through (scan_mux_topology devices)) (same.lookups segment)
    ∙ sym (build-bus_through devices others segment same.unique))
