-- ===== src/Main/Boot/Chain.antt =====
-- From a bundle in the flash to the bus that the proxy uses.
use ocp_canopy_open_bmc.Common.{
  ℕ, suc, ◌+◌, ◌^◌, ◌≤◌, ◌≡◌, refl, sym, ap, ◌∙◌, false, ◌==◌, bit_and, if-intro, Option, some,
  List, [], ◌∷◌, ◌++◌, append_assoc, arith, ℤ, Bytes, All, length, length-append, load_le, get_or,
}
use ocp_canopy_open_bmc.UefiFv.Search.{extract_ffs_file}
use ocp_canopy_open_bmc.PlatDef.Table.{UniqueKeys, put-UniqueKeys, find_key}
use ocp_canopy_open_bmc.PlatDef.Bundle.{platdef_bundle_signature, decomp_size, decompress_plat_def}
use ocp_canopy_open_bmc.PlatDef.Bundle.Calls.{decompress-bundle}
use ocp_canopy_open_bmc.PlatDef.Records.{SegmentMap, segment_of, put_segment, parse_i2c_segments}
use ocp_canopy_open_bmc.PlatDef.Records.Printed.{
  Entry, skipped, engine, entries_bytes, put_segments, put_entries, IsEntry,
}
use ocp_canopy_open_bmc.PlatDef.Records.RoundTrip.{parse-entries}
use ocp_canopy_open_bmc.PlatDef.Topology.{scan_mux_topology}
use ocp_canopy_open_bmc.PlatDef.Build.{build_segment_bus_map}
use ocp_canopy_open_bmc.PlatDef.Build.Lookup.{bus_through, build-bus_through}
use ocp_canopy_open_bmc.PlatDef.Extract.{
  apml_fv_guid, apml_file_guid, host_prime, find_mtd_by_label, on_raw, on_rom, extract_plat_def,
}
use ocp_canopy_open_bmc.Smif.I2c.{SegmentBusMap, find_bus}
use ocp_canopy_open_bmc.Main.Boot.{
  Machine, Fuel, map_of, map_of_blob, plat_def_blob, segment_bus_map,
}

-- A bundle whose compressed part inflates to printed records.
pub record IsBundle (uncompress : ℕ → Bytes → Option Bytes) (raw table : Bytes) (es : List Entry)
    : Type 0 where
  pub reserved : Bytes
  pub compressed : Bytes
  pub last : Bytes
  pub trailer : Bytes
  pub behind : Bytes
  pub holds : raw ≡ (platdef_bundle_signature ++ reserved) ++ (table ++ (compressed ++ behind))
  pub reserved_size : length reserved ≡ 16
  pub table_size : length table ≡ 112
  pub zlib : (bit_and (load_le 64 2 table) 0x10 == 0) ≡ false
  pub says_size : load_le 96 4 table ≡ 112 + length compressed
  pub small : length compressed ≤ 2 ^ 31
  pub inflates :
      uncompress (decomp_size (load_le 76 4 table)) compressed
      ≡ some (entries_bytes es ++ (last ++ trailer))
  pub is_table : IsEntry (skipped table)
  pub each : All IsEntry es
  pub last_size : 32 ≤ length last
  pub last_type : get_or last 0 0 ≡ 255
  pub low : length (entries_bytes (skipped table ∷ es) ++ (last ++ trailer)) ≤ 2 ^ 31

put_segment-UniqueKeys :
    (seg : Bytes) (m : SegmentMap) → UniqueKeys m → UniqueKeys (put_segment (segment_of seg) m)
unfolding put_segment
put_segment-UniqueKeys seg m unique =
    if-intro UniqueKeys ((segment_of seg).mux_type == 1)
      (λ _. put-UniqueKeys (segment_of seg).id _ m unique) (λ _. unique)

put_segments-UniqueKeys :
    (segs : List Bytes) (m : SegmentMap) → UniqueKeys m → UniqueKeys (put_segments segs m)
put_segments-UniqueKeys [] m unique = unique
put_segments-UniqueKeys (seg ∷ segs) m unique =
    put_segments-UniqueKeys segs (put_segment (segment_of seg) m)
      (put_segment-UniqueKeys seg m unique)

put_entries-UniqueKeys :
    (es : List Entry) (m : SegmentMap) → UniqueKeys m → UniqueKeys (put_entries es m)
put_entries-UniqueKeys [] m unique = unique
put_entries-UniqueKeys (skipped bs ∷ es) m unique = put_entries-UniqueKeys es m unique
put_entries-UniqueKeys (engine front segs trailer ∷ es) m unique =
    put_entries-UniqueKeys es (put_segments segs m) (put_segments-UniqueKeys segs m unique)

module _ (uncompress : ℕ → Bytes → Option Bytes) (raw table : Bytes) (es : List Entry)
    (bundle : IsBundle uncompress raw table es) where
  abbrev printed : Bytes
  printed = entries_bytes (skipped table ∷ es) ++ (bundle.last ++ bundle.trailer)

  decompress-printed : decompress_plat_def uncompress raw ≡ some printed
  decompress-printed =
      ap (decompress_plat_def uncompress) bundle.holds
      ∙ (decompress-bundle uncompress bundle.reserved table bundle.compressed bundle.behind
            (entries_bytes es ++ (bundle.last ++ bundle.trailer)) bundle.reserved_size
            bundle.table_size bundle.zlib bundle.says_size bundle.small bundle.inflates
          ∙ ap some (sym (append_assoc table (entries_bytes es) (bundle.last ++ bundle.trailer))))

  raw_size : 1 ≤ length raw
  raw_size = omega (
    arith,
    ap (λ (x : Bytes). length x) bundle.holds,
    length-append (platdef_bundle_signature ++ bundle.reserved)
        (table ++ (bundle.compressed ++ bundle.behind)),
    length-append platdef_bundle_signature bundle.reserved,
  )

  printed_size : 1 ≤ length printed
  printed_size = omega (
    arith,
    length-append (entries_bytes (skipped table ∷ es)) (bundle.last ++ bundle.trailer),
    length-append table (entries_bytes es),
    bundle.table_size,
  )

==_positive : (n : ℕ) → 1 ≤ n → (n == 0) ≡ false
==_positive n h = ground arith

plat_def_blob-reads :
    {World : Type 0} (m : Machine World) (fuel : Fuel) (rom raw blob : Bytes)
    → (length (find_mtd_by_label host_prime m.mtds) == 0) ≡ false
    → m.open_file (find_mtd_by_label host_prime m.mtds) ≡ some rom
    → (length rom == 0) ≡ false
    → extract_ffs_file fuel.volumes fuel.files rom (length rom) apml_fv_guid apml_file_guid
      ≡ some raw
    → (length raw == 0) ≡ false
    → decompress_plat_def m.uncompress raw ≡ some blob
    → plat_def_blob fuel m ≡ some blob
unfolding plat_def_blob extract_plat_def on_rom on_raw
plat_def_blob-reads m fuel rom raw blob has_path opens has_rom extracted has_raw inflated =
    rw (has_path, opens, has_rom, extracted, has_raw, inflated) refl

segment_bus_map-blob :
    {World : Type 0} (m : Machine World) (fuel : Fuel) (blob : Bytes) (segments : SegmentMap)
    → plat_def_blob fuel m ≡ some blob
    → (length blob == 0) ≡ false
    → parse_i2c_segments fuel.records blob ≡ some segments
    → segment_bus_map fuel m ≡ some (build_segment_bus_map m.devices segments)
unfolding segment_bus_map map_of_blob map_of
segment_bus_map-blob m fuel blob segments reads has_blob parsed = rw (reads, has_blob, parsed) refl

-- The map is there, and a lookup in it has that result.
pub record Finds (segment : ℕ) (bus : Option ℤ) (o : Option SegmentBusMap) : Type 0 where
  pub result : SegmentBusMap
  pub returns : o ≡ some result
  pub finds : find_bus segment result ≡ bus

-- Where the search of the flash returns a bundle of printed records, with the flag for zlib and a
-- right compressed size, and both its compressed part and its blob have at most 2 GiB; with fuel
-- for each record, the table and the end included: the proxy finds for a segment exactly the bus
-- that the scan of sysfs has for the multiplexer and channel which the last CPLD segment of that
-- number in the records of the engines says, and no bus when there is no such segment, its
-- register is below 0x84, or the scan does not have that channel.
pub segment_bus_map-Finds :
    {World : Type 0} (m : Machine World) (fuel : Fuel) (rom raw table : Bytes) (es : List Entry)
    (segment k : ℕ)
    → (length (find_mtd_by_label host_prime m.mtds) == 0) ≡ false
    → m.open_file (find_mtd_by_label host_prime m.mtds) ≡ some rom
    → (length rom == 0) ≡ false
    → extract_ffs_file fuel.volumes fuel.files rom (length rom) apml_fv_guid apml_file_guid
      ≡ some raw
    → IsBundle m.uncompress raw table es
    → fuel.records ≡ length (skipped table ∷ es) + suc k
    → Finds segment
        (bus_through (scan_mux_topology m.devices) (find_key segment (put_entries es [])))
        (segment_bus_map fuel m)
segment_bus_map-Finds m fuel rom raw table es segment k has_path opens has_rom extracted bundle
      enough =
    let has_raw = ==_positive (length raw) (raw_size m.uncompress raw table es bundle) in
    let whole = printed m.uncompress raw table es bundle in
    let has_blob = ==_positive (length whole) (printed_size m.uncompress raw table es bundle) in
    let parsed =
      ap (λ n. parse_i2c_segments n whole) enough
      ∙ parse-entries table bundle.last bundle.trailer es k bundle.is_table bundle.table_size
          bundle.each bundle.last_size bundle.last_type bundle.low in
    let reads =
      plat_def_blob-reads m fuel rom raw whole has_path opens has_rom extracted has_raw
        (decompress-printed m.uncompress raw table es bundle) in
    record {
      result = build_segment_bus_map m.devices (put_entries es []);
      returns = segment_bus_map-blob m fuel whole (put_entries es []) reads has_blob parsed;
      finds =
          build-bus_through m.devices (put_entries es []) segment (put_entries-UniqueKeys es [] tt);
    }
