-- ===== src/PlatDef/Build/Lookup.antt =====
-- Lookups in the map of the segments against lookups in the maps that it combines.
use ocp_canopy_open_bmc.Common.{
  ℕ, ◌-◌, ◌≡◌, refl, subst, ◌∙◌, Bool, true, false, Bool-cases, inl, inr, ltb, ◌==◌, ==_iff,
  if◌then◌else◌, Option, none, some, List, [], ◌∷◌, ℤ,
}
use ocp_canopy_open_bmc.Smif.I2c.{SegmentBusMap, find_bus}
use ocp_canopy_open_bmc.PlatDef.{I2cSegmentMapping}
use ocp_canopy_open_bmc.PlatDef.Table.{find_key, UniqueKeys, find_key-put_same, find_key-put_other}
use ocp_canopy_open_bmc.PlatDef.Records.{SegmentMap}
use ocp_canopy_open_bmc.PlatDef.Topology.{MuxTopology, Device, mux_key, scan_mux_topology}
use ocp_canopy_open_bmc.PlatDef.Build.{put_bus, build, build_segment_bus_map}

-- The proxy looks a segment up as any map does.
find_bus-find_key : (segment : ℕ) (m : SegmentBusMap) → find_bus segment m ≡ find_key segment m
unfolding find_bus find_key
find_bus-find_key segment [] = refl
find_bus-find_key segment ((s, bus) ∷ m) = rw (find_bus-find_key segment m) refl

-- The bus of a segment, said by one lookup behind the other.
abbrev pub bus_through : MuxTopology → Option I2cSegmentMapping → Option ℤ
bus_through topology none = none
bus_through topology (some mapping) =
    if ltb mapping.cpld_register 0x84
    then none
    else find_key (mux_key (mapping.cpld_register - 0x84) mapping.channel_value) topology

-- What stands in front of a lookup that finds nothing.
abbrev or_before : Option ℤ → Option ℤ → Option ℤ
or_before none before = before
or_before (some bus) before = some bus

or_before-none : (o : Option ℤ) → or_before o none ≡ o
or_before-none none = refl
or_before-none (some bus) = refl

put_bus-other :
    (s segment : ℕ) (o : Option ℤ) (result : SegmentBusMap)
    → (s == segment) ≡ false
    → find_key segment (put_bus s o result) ≡ find_key segment result
unfolding put_bus
put_bus-other s segment none result other = refl
put_bus-other s segment (some bus) result other = find_key-put_other s segment bus result other

put_bus-same :
    (s : ℕ) (o : Option ℤ) (result : SegmentBusMap)
    → find_key s (put_bus s o result) ≡ or_before o (find_key s result)
unfolding put_bus
put_bus-same s none result = refl
put_bus-same s (some bus) result = find_key-put_same s bus result

-- What a round does, behind its test.
round-other :
    (low : Bool) (s segment : ℕ) (o : Option ℤ) (result : SegmentBusMap)
    → (s == segment) ≡ false
    → find_key segment (if low then result else put_bus s o result) ≡ find_key segment result
round-other true s segment o result other = refl
round-other false s segment o result other = put_bus-other s segment o result other

round-same :
    (low : Bool) (s segment : ℕ) (o : Option ℤ) (result : SegmentBusMap)
    → s ≡ segment
    → find_key segment (if low then result else put_bus s o result)
      ≡ or_before (if low then none else o) (find_key segment result)
round-same true s segment o result same = refl
round-same false s segment o result same =
    subst (λ k. find_key k (put_bus s o result) ≡ or_before o (find_key k result)) same
      (put_bus-same s o result)

build-find :
    (topology : MuxTopology) (segment : ℕ) (segments : SegmentMap) (result : SegmentBusMap)
    → UniqueKeys segments
    → find_key segment (build topology segments result)
      ≡ or_before (bus_through topology (find_key segment segments)) (find_key segment result)
unfolding build find_key
build-find topology segment [] result unique = refl
build-find topology segment ((s, mapping) ∷ segments) result unique =
    let low = ltb mapping.cpld_register 0x84 in
    let o = find_key (mux_key (mapping.cpld_register - 0x84) mapping.channel_value) topology in
    let later =
      build-find topology segment segments (if low then result else put_bus s o result) unique.1 in
    elim (Bool-cases (s == segment)) [
      | inl same ↦
          let e = (==_iff s segment).0 same in
          let absent : find_key segment segments ≡ none =
            subst (λ k. find_key k segments ≡ none) e unique.0 in
          rw (later, same, absent) (round-same low s segment o result e)
      | inr other ↦ rw (later, other, round-other low s segment o result other) refl
    ]

-- For a map of segments that holds each segment once: the proxy finds the bus of a segment exactly
-- by looking the segment up, taking 0x84 from its register, and looking that multiplexer and the
-- channel up in the scan of sysfs; a segment whose register is below 0x84 has no bus.
pub build-bus_through :
    (devices : List Device) (segments : SegmentMap) (segment : ℕ)
    → UniqueKeys segments
    → find_bus segment (build_segment_bus_map devices segments)
      ≡ bus_through (scan_mux_topology devices) (find_key segment segments)
unfolding build_segment_bus_map find_key
build-bus_through devices segments segment unique =
    find_bus-find_key segment (build (scan_mux_topology devices) segments [])
    ∙ (build-find (scan_mux_topology devices) segment segments [] unique
        ∙ or_before-none (bus_through (scan_mux_topology devices) (find_key segment segments)))
