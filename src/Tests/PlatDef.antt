-- ===== src/Tests/PlatDef.antt =====
-- The readers of the PlatDef blob, and the start of the program, at concrete inputs.
use ocp_canopy_open_bmc.Common.{
  ℕ, suc, ◌+◌, ◌^◌, ◌≤◌, ◌≡◌, ◌↔◌, refl, ltb, if◌then◌else◌, Option, none, some, List, [], ◌∷◌,
  ◌++◌, arith, Bytes, IsBytes, All, load_le, pos,
}
use ocp_canopy_open_bmc.PlatDef.{range_at}
use ocp_canopy_open_bmc.PlatDef.Table.{UniqueKeys, put, find_key}
use ocp_canopy_open_bmc.PlatDef.Bundle.{decompress_plat_def}
use ocp_canopy_open_bmc.PlatDef.Bundle.Calls.{table_bytes, IsZlibBundle, decompress-leaves}
use ocp_canopy_open_bmc.PlatDef.Records.{
  SegmentMap, record_header_of, segment_of, engine_count, put_segment, on_segment, segments, go_on,
  on_fixed, on_record, records, on_first, parse_i2c_segments,
}
use ocp_canopy_open_bmc.PlatDef.Records.Printed.{
  skipped, engine, entries_bytes, put_entries, IsEntry,
}
use ocp_canopy_open_bmc.PlatDef.Records.RoundTrip.{parse-entries}
use ocp_canopy_open_bmc.PlatDef.Records.Declared.{Parsed, parse-Parsed}
use ocp_canopy_open_bmc.PlatDef.Topology.{
  Device, is_digit, is_space, skip_space, digits_value, magnitude, sign, unsigned_of, stoul, int_of,
  stoi, strip, or_else, behind, bind, small_stoul, mux_of, channel_of, bus_of, mux_key, put_channel,
  scan_channels, on_device, scan_devices, scan_mux_topology,
}
use ocp_canopy_open_bmc.PlatDef.Topology.Found.{IsFound, scan-IsFound}
use ocp_canopy_open_bmc.PlatDef.Build.{build_segment_bus_map}
use ocp_canopy_open_bmc.PlatDef.Build.Lookup.{bus_through, build-bus_through}
use ocp_canopy_open_bmc.Smif.I2c.{find_bus}
use ocp_canopy_open_bmc.Main.Boot.{map_of_blob}
use ocp_canopy_open_bmc.Main.Boot.Segments.{Backed, map_of_blob-Backed}

abbrev pub table : Bytes
table =
    0 ∷ 7 ∷ 0 ∷ 0 ∷ 0 ∷ 0 ∷ 0 ∷ 0 ∷ 0 ∷ 0 ∷ 0 ∷ 0 ∷ 0 ∷ 0 ∷ 0 ∷ 0 ∷ 0 ∷ 0 ∷ 0 ∷ 0 ∷ 0 ∷ 0 ∷ 0 ∷ 0
    ∷ 0 ∷ 0 ∷ 0 ∷ 0 ∷ 0 ∷ 0 ∷ 0 ∷ 0 ∷ 0 ∷ 0 ∷ 0 ∷ 0 ∷ 0 ∷ 0 ∷ 0 ∷ 0 ∷ 0 ∷ 0 ∷ 0 ∷ 0 ∷ 0 ∷ 0 ∷ 0 ∷ 0
    ∷ 0 ∷ 0 ∷ 0 ∷ 0 ∷ 0 ∷ 0 ∷ 0 ∷ 0 ∷ 0 ∷ 0 ∷ 0 ∷ 0 ∷ 0 ∷ 0 ∷ 0 ∷ 0 ∷ 16 ∷ 0 ∷ 0 ∷ 0 ∷ 0 ∷ 0 ∷ 0 ∷ 0
    ∷ 2 ∷ 0 ∷ 0 ∷ 0 ∷ 144 ∷ 0 ∷ 0 ∷ 0 ∷ 0 ∷ 0 ∷ 0 ∷ 0 ∷ 0 ∷ 0 ∷ 0 ∷ 0 ∷ 0 ∷ 0 ∷ 0 ∷ 0 ∷ 0 ∷ 0 ∷ 0
    ∷ 0 ∷ 0 ∷ 1 ∷ 0 ∷ 0 ∷ 0 ∷ 0 ∷ 0 ∷ 0 ∷ 0 ∷ 0 ∷ 0 ∷ 0 ∷ 0 ∷ 0 ∷ 0 ∷ 0 ∷ []

-- An engine with one segment, 0x33, which the register 0x85 selects as channel 2, and the end.
abbrev pub engine_records : Bytes
engine_records =
    14 ∷ 7 ∷ 0 ∷ 0 ∷ 0 ∷ 0 ∷ 0 ∷ 0 ∷ 0 ∷ 0 ∷ 0 ∷ 0 ∷ 0 ∷ 0 ∷ 0 ∷ 0 ∷ 0 ∷ 0 ∷ 0 ∷ 0 ∷ 0 ∷ 0 ∷ 0 ∷ 0
    ∷ 0 ∷ 0 ∷ 0 ∷ 0 ∷ 0 ∷ 0 ∷ 0 ∷ 0 ∷ 0 ∷ 0 ∷ 0 ∷ 0 ∷ 0 ∷ 0 ∷ 0 ∷ 0 ∷ 0 ∷ 0 ∷ 0 ∷ 0 ∷ 0 ∷ 0 ∷ 0 ∷ 0
    ∷ 0 ∷ 0 ∷ 0 ∷ 0 ∷ 0 ∷ 0 ∷ 0 ∷ 0 ∷ 0 ∷ 0 ∷ 0 ∷ 0 ∷ 0 ∷ 0 ∷ 0 ∷ 0 ∷ 0 ∷ 0 ∷ 0 ∷ 0 ∷ 0 ∷ 3 ∷ 1 ∷ 0
    ∷ 0 ∷ 0 ∷ 0 ∷ 0 ∷ 0 ∷ 0 ∷ 0 ∷ 0 ∷ 0 ∷ 0 ∷ 0 ∷ 0 ∷ 0 ∷ 51 ∷ 0 ∷ 0 ∷ 0 ∷ 0 ∷ 0 ∷ 0 ∷ 0 ∷ 0 ∷ 0 ∷ 0
    ∷ 1 ∷ 133 ∷ 0 ∷ 2 ∷ 0 ∷ 0 ∷ 0 ∷ 0 ∷ 0 ∷ 0 ∷ 0 ∷ 0 ∷ 0 ∷ 0 ∷ 0 ∷ 0 ∷ 255 ∷ 2 ∷ 0 ∷ 0 ∷ 0 ∷ 0 ∷ 0
    ∷ 0 ∷ 0 ∷ 0 ∷ 0 ∷ 0 ∷ 0 ∷ 0 ∷ 0 ∷ 0 ∷ 0 ∷ 0 ∷ 0 ∷ 0 ∷ 0 ∷ 0 ∷ 0 ∷ 0 ∷ 0 ∷ 0 ∷ 0 ∷ 0 ∷ 0 ∷ 0 ∷ 0
    ∷ 0 ∷ []

-- A decompressor that knows one answer.
abbrev pub inflate : ℕ → Bytes → Option Bytes
inflate capacity source = if ltb capacity 144 then none else some engine_records

abbrev blob : Bytes
blob = table ++ engine_records

-- A table that says a compressed size of 2^32 - 16.
abbrev wrapping_bundle : Bytes
wrapping_bundle =
    36 ∷ 80 ∷ 108 ∷ 97 ∷ 116 ∷ 100 ∷ 101 ∷ 102 ∷ 66 ∷ 117 ∷ 110 ∷ 100 ∷ 108 ∷ 101 ∷ 49 ∷ 36 ∷ 0 ∷ 0
    ∷ 0 ∷ 0 ∷ 0 ∷ 0 ∷ 0 ∷ 0 ∷ 0 ∷ 0 ∷ 0 ∷ 0 ∷ 0 ∷ 0 ∷ 0 ∷ 0 ∷ 0 ∷ 7 ∷ 0 ∷ 0 ∷ 0 ∷ 0 ∷ 0 ∷ 0 ∷ 0 ∷ 0
    ∷ 0 ∷ 0 ∷ 0 ∷ 0 ∷ 0 ∷ 0 ∷ 0 ∷ 0 ∷ 0 ∷ 0 ∷ 0 ∷ 0 ∷ 0 ∷ 0 ∷ 0 ∷ 0 ∷ 0 ∷ 0 ∷ 0 ∷ 0 ∷ 0 ∷ 0 ∷ 0 ∷ 0
    ∷ 0 ∷ 0 ∷ 0 ∷ 0 ∷ 0 ∷ 0 ∷ 0 ∷ 0 ∷ 0 ∷ 0 ∷ 0 ∷ 0 ∷ 0 ∷ 0 ∷ 0 ∷ 0 ∷ 0 ∷ 0 ∷ 0 ∷ 0 ∷ 0 ∷ 0 ∷ 0 ∷ 0
    ∷ 0 ∷ 0 ∷ 0 ∷ 0 ∷ 0 ∷ 0 ∷ 16 ∷ 0 ∷ 0 ∷ 0 ∷ 0 ∷ 0 ∷ 0 ∷ 0 ∷ 2 ∷ 0 ∷ 0 ∷ 0 ∷ 144 ∷ 0 ∷ 0 ∷ 0 ∷ 0
    ∷ 0 ∷ 0 ∷ 0 ∷ 0 ∷ 0 ∷ 0 ∷ 0 ∷ 0 ∷ 0 ∷ 0 ∷ 0 ∷ 0 ∷ 0 ∷ 0 ∷ 0 ∷ 240 ∷ 255 ∷ 255 ∷ 255 ∷ 0 ∷ 0 ∷ 0
    ∷ 0 ∷ 0 ∷ 0 ∷ 0 ∷ 0 ∷ 0 ∷ 0 ∷ 0 ∷ 0 ∷ []

wrapping_bundle-IsBytes : IsBytes wrapping_bundle
wrapping_bundle-IsBytes = ground arith

decompress-leaves_example :
    (decompress_plat_def inflate wrapping_bundle ≡ none)
    ↔ (IsZlibBundle wrapping_bundle × (2 ^ 32 ≤ load_le 96 4 (table_bytes wrapping_bundle) + 32))
decompress-leaves_example =
    decompress-leaves inflate wrapping_bundle wrapping_bundle-IsBytes (omega arith)

blob-IsBytes : IsBytes blob
blob-IsBytes = ground arith

parse-Parsed_example : Parsed blob (parse_i2c_segments 18 blob)
parse-Parsed_example = parse-Parsed blob 18 blob-IsBytes (omega arith) (omega arith)

-- The same records by their parts.
abbrev pub engine_front : Bytes
engine_front =
    14 ∷ 7 ∷ 0 ∷ 0 ∷ 0 ∷ 0 ∷ 0 ∷ 0 ∷ 0 ∷ 0 ∷ 0 ∷ 0 ∷ 0 ∷ 0 ∷ 0 ∷ 0 ∷ 0 ∷ 0 ∷ 0 ∷ 0 ∷ 0 ∷ 0 ∷ 0 ∷ 0
    ∷ 0 ∷ 0 ∷ 0 ∷ 0 ∷ 0 ∷ 0 ∷ 0 ∷ 0 ∷ 0 ∷ 0 ∷ 0 ∷ 0 ∷ 0 ∷ 0 ∷ 0 ∷ 0 ∷ 0 ∷ 0 ∷ 0 ∷ 0 ∷ 0 ∷ 0 ∷ 0 ∷ 0
    ∷ 0 ∷ 0 ∷ 0 ∷ 0 ∷ 0 ∷ 0 ∷ 0 ∷ 0 ∷ 0 ∷ 0 ∷ 0 ∷ 0 ∷ 0 ∷ 0 ∷ 0 ∷ 0 ∷ 0 ∷ 0 ∷ 0 ∷ 0 ∷ 0 ∷ 3 ∷ 1 ∷ 0
    ∷ 0 ∷ 0 ∷ 0 ∷ 0 ∷ 0 ∷ 0 ∷ 0 ∷ 0 ∷ []

abbrev pub segment_bytes : Bytes
segment_bytes =
    0 ∷ 0 ∷ 0 ∷ 0 ∷ 0 ∷ 51 ∷ 0 ∷ 0 ∷ 0 ∷ 0 ∷ 0 ∷ 0 ∷ 0 ∷ 0 ∷ 0 ∷ 0 ∷ 1 ∷ 133 ∷ 0 ∷ 2 ∷ 0 ∷ 0 ∷ 0 ∷ 0
    ∷ 0 ∷ 0 ∷ 0 ∷ 0 ∷ 0 ∷ 0 ∷ 0 ∷ 0 ∷ []

abbrev pub end_record : Bytes
end_record =
    255 ∷ 2 ∷ 0 ∷ 0 ∷ 0 ∷ 0 ∷ 0 ∷ 0 ∷ 0 ∷ 0 ∷ 0 ∷ 0 ∷ 0 ∷ 0 ∷ 0 ∷ 0 ∷ 0 ∷ 0 ∷ 0 ∷ 0 ∷ 0 ∷ 0 ∷ 0 ∷ 0
    ∷ 0 ∷ 0 ∷ 0 ∷ 0 ∷ 0 ∷ 0 ∷ 0 ∷ 0 ∷ []

pub table-IsEntry : IsEntry (skipped table)
table-IsEntry = (
  record { has_header = omega arith; sized = refl },
  λ e. absurd (omega (arith, e)),
  λ e. absurd (omega (arith, e)),
)

pub engine-IsEntry : IsEntry (engine engine_front (segment_bytes ∷ []) [])
engine-IsEntry = (
  record { has_header = omega arith; sized = refl },
  record { front_size = refl; tagged = refl; counts = refl; each = (refl, tt) },
)

parse-entries_example :
    parse_i2c_segments (2 + suc 0) (
      entries_bytes (skipped table ∷ engine engine_front (segment_bytes ∷ []) [] ∷ [])
      ++ (end_record ++ []))
    ≡ some (put_entries (engine engine_front (segment_bytes ∷ []) [] ∷ []) [])
parse-entries_example =
    parse-entries table end_record [] (engine engine_front (segment_bytes ∷ []) [] ∷ []) 0
      table-IsEntry refl (engine-IsEntry, tt) (omega arith) refl (omega arith)

blob_parsed :
    parse_i2c_segments 18 blob
    ≡ some ((0x33, record { cpld_register = 0x85; channel_value = 2 }) ∷ [])
unfolding parse_i2c_segments on_first records on_record on_fixed segments on_segment put_segment
    go_on record_header_of segment_of engine_count range_at put
blob_parsed = refl

-- A multiplexer 1 whose channel 2 is the bus 39.
abbrev pub devices : List Device
devices =
    record {
      name =
          97 ∷ 104 ∷ 98 ∷ 64 ∷ 56 ∷ 48 ∷ 48 ∷ 48 ∷ 48 ∷ 48 ∷ 48 ∷ 48 ∷ 58 ∷ 105 ∷ 50 ∷ 99 ∷ 109
          ∷ 117 ∷ 120 ∷ 64 ∷ 49 ∷ [];
      channels = some (
          record {
            name = 99 ∷ 104 ∷ 97 ∷ 110 ∷ 110 ∷ 101 ∷ 108 ∷ 45 ∷ 50 ∷ [];
            target = some (105 ∷ 50 ∷ 99 ∷ 45 ∷ 51 ∷ 57 ∷ []);
          }
          ∷ []);
    }
    ∷ []

scan-IsFound_example :
    All (IsFound devices) (scan_mux_topology devices) × UniqueKeys (scan_mux_topology devices)
scan-IsFound_example = scan-IsFound devices

abbrev segment_list : SegmentMap
segment_list = (0x33, record { cpld_register = 0x85; channel_value = 2 }) ∷ []

devices_scanned : scan_mux_topology devices ≡ (0x102, pos 39) ∷ []
unfolding scan_mux_topology scan_devices on_device scan_channels put_channel mux_of channel_of
    bus_of small_stoul bind behind strip or_else stoul stoi sign skip_space is_space is_digit
    magnitude digits_value unsigned_of int_of mux_key put
devices_scanned = refl

build-bus_through_example :
    find_bus 0x33 (build_segment_bus_map devices segment_list)
    ≡ bus_through (scan_mux_topology devices) (find_key 0x33 segment_list)
unfolding find_key
build-bus_through_example = build-bus_through devices segment_list 0x33 (refl, tt)

map_of_blob-Backed_example : Backed blob devices (map_of_blob 18 devices (some blob))
map_of_blob-Backed_example =
    map_of_blob-Backed blob devices 18 blob-IsBytes (omega arith) (omega arith)
