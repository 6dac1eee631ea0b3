-- ===== src/Tests/Boot.antt =====
-- The start of the program with a flash that holds a bundle.
use ocp_canopy_open_bmc.Common.{
  ℕ, zero, suc, ◌+◌, ◌^◌, ◌<◌, ◌≤◌, ◌≡◌, refl, sym, subst, ◌∙◌, true, false, ltb, if◌then◌else◌,
  if-intro, ltb→le, Option, none, some, List, [], ◌∷◌, ◌++◌, arith, Bytes, IsBytes, length,
  replicate, load_le, same, pos,
}
use ocp_canopy_open_bmc.UefiFv.{
  fv_header_of, guid_bytes, guid_equal, guid_is_all_ff, seek_read, ext_header_of, ffs_header_of,
  ffs_file_size,
}
use ocp_canopy_open_bmc.UefiFv.Walk.{
  walk, on_file, align8, file_payload, return_read, section_payload,
}
use ocp_canopy_open_bmc.UefiFv.Search.{
  fv_step, fv_end_of, search, on_volume, on_ext_header, after_walk, extract_ffs_file,
}
use ocp_canopy_open_bmc.UefiFv.Termination.{StepsFit}
use ocp_canopy_open_bmc.PlatDef.Table.{put, find_key}
use ocp_canopy_open_bmc.PlatDef.Bundle.{platdef_bundle_signature, decomp_size}
use ocp_canopy_open_bmc.PlatDef.Bundle.Calls.{table_bytes}
use ocp_canopy_open_bmc.PlatDef.Bundle.Small.{WritesWithin}
use ocp_canopy_open_bmc.PlatDef.Records.{segment_of, put_segment}
use ocp_canopy_open_bmc.PlatDef.Records.Printed.{Entry, engine, put_entries}
use ocp_canopy_open_bmc.PlatDef.Topology.{
  is_digit, is_space, skip_space, digits_value, magnitude, sign, unsigned_of, stoul, int_of, stoi,
  strip, or_else, behind, bind, small_stoul, mux_of, channel_of, bus_of, mux_key, put_channel,
  scan_channels, on_device, scan_devices, scan_mux_topology,
}
use ocp_canopy_open_bmc.PlatDef.Build.Lookup.{bus_through}
use ocp_canopy_open_bmc.PlatDef.Extract.{
  apml_fv_guid, apml_file_guid, host_prime, find_mtd_by_label, ends_with, on_name_file, first_line,
}
use ocp_canopy_open_bmc.Smbios.{FileOutcome}
use ocp_canopy_open_bmc.EvStorage.{saved}
use ocp_canopy_open_bmc.Smif.I2c.{I2cDriver, failed}
use ocp_canopy_open_bmc.Daemon.{Event, signal, read, got}
use ocp_canopy_open_bmc.Main.Boot.{segment_bus_map, Machine, Fuel, main}
use ocp_canopy_open_bmc.Main.Boot.Starts.{FlashFits}
use ocp_canopy_open_bmc.Main.Boot.Signals.{main-signals}
use ocp_canopy_open_bmc.Main.Boot.Chain.{IsBundle, Finds, segment_bus_map-Finds}
use ocp_canopy_open_bmc.Tests.PlatDef.{
  table, engine_records, inflate, devices, engine_front, segment_bytes, end_record, table-IsEntry,
  engine-IsEntry,
}

-- The flash: a volume with the file that holds the bundle.
abbrev flash_front : Bytes
flash_front =
    0 ∷ 0 ∷ 0 ∷ 0 ∷ 0 ∷ 0 ∷ 0 ∷ 0 ∷ 0 ∷ 0 ∷ 0 ∷ 0 ∷ 0 ∷ 0 ∷ 0 ∷ 0 ∷ 120 ∷ 229 ∷ 140 ∷ 140 ∷ 61 ∷ 138
    ∷ 28 ∷ 79 ∷ 153 ∷ 53 ∷ 137 ∷ 97 ∷ 133 ∷ 195 ∷ 45 ∷ 211 ∷ 0 ∷ 0 ∷ 1 ∷ 0 ∷ 0 ∷ 0 ∷ 0 ∷ 0 ∷ 95 ∷ 70
    ∷ 86 ∷ 72 ∷ 0 ∷ 0 ∷ 0 ∷ 0 ∷ 0 ∷ 0 ∷ 0 ∷ 0 ∷ 56 ∷ 0 ∷ 0 ∷ 0 ∷ 184 ∷ 90 ∷ 191 ∷ 126 ∷ 94 ∷ 82
    ∷ 124 ∷ 65 ∷ 155 ∷ 107 ∷ 94 ∷ 243 ∷ 103 ∷ 133 ∷ 105 ∷ 84 ∷ 20 ∷ 0 ∷ 0 ∷ 0 ∷ 255 ∷ 255 ∷ 255
    ∷ 255 ∷ 28 ∷ 0 ∷ 246 ∷ 197 ∷ 180 ∷ 57 ∷ 221 ∷ 67 ∷ 155 ∷ 155 ∷ 104 ∷ 50 ∷ 241 ∷ 187 ∷ 75 ∷ 233
    ∷ 0 ∷ 0 ∷ 2 ∷ 0 ∷ 60 ∷ 1 ∷ 0 ∷ 248 ∷ 36 ∷ 1 ∷ 0 ∷ 25 ∷ 36 ∷ 80 ∷ 108 ∷ 97 ∷ 116 ∷ 100 ∷ 101
    ∷ 102 ∷ 66 ∷ 117 ∷ 110 ∷ 100 ∷ 108 ∷ 101 ∷ 49 ∷ 36 ∷ 0 ∷ 0 ∷ 0 ∷ 0 ∷ 0 ∷ 0 ∷ 0 ∷ 0 ∷ 0 ∷ 0 ∷ 0
    ∷ 0 ∷ 0 ∷ 0 ∷ 0 ∷ 0 ∷ []

abbrev pub flash : Bytes
flash = flash_front ++ (table ++ engine_records)

abbrev pub no_bus : I2cDriver ℕ
no_bus = record { opens = λ w bus. false; transfer = λ w bus messages. (failed 5, w) }

-- "/dev/mtd0"
abbrev pub flash_path : Bytes
flash_path = 47 ∷ 100 ∷ 101 ∷ 118 ∷ 47 ∷ 109 ∷ 116 ∷ 100 ∷ 48 ∷ []

abbrev pub machine : Machine ℕ
machine = record {
  mtds =
      record { dev_name = 109 ∷ 116 ∷ 100 ∷ 48 ∷ 114 ∷ 111 ∷ []; name_file = none }
      ∷ record {
        dev_name = 109 ∷ 116 ∷ 100 ∷ 48 ∷ [];
        name_file = some (104 ∷ 111 ∷ 115 ∷ 116 ∷ 45 ∷ 112 ∷ 114 ∷ 105 ∷ 109 ∷ 101 ∷ 10 ∷ []);
      }
      ∷ [];
  open_file = λ path. if same path flash_path then some flash else none;
  uncompress = inflate;
  devices = devices;
  ev_file = none;
  ev_opens = true;
  saves = λ n. saved;
  smbios_file = none;
  surroundings = λ n. record { files = FileOutcome.written; epoch = 0 };
  bus_answers = λ n. true;
  gets_name = true;
  world = 0;
}

abbrev pub fuel : Fuel
fuel = record { volumes = 2; files = 22; records = 134217730 }

flash-StepsFit : StepsFit flash
unfolding fv_step fv_header_of
flash-StepsFit zero multiple inside signed = omega arith
flash-StepsFit (suc off) multiple inside signed = absurd (omega arith)

flash-IsBytes : IsBytes flash
flash-IsBytes = ground arith

some_injective : (a b : Bytes) → some a ≡ some b → a ≡ b
some_injective a b h = cc h

engine_records-IsBytes : IsBytes engine_records
engine_records-IsBytes = ground arith

pub inflate-WritesWithin : WritesWithin inflate
inflate-WritesWithin capacity source out h =
    if-intro (λ (o : Option Bytes). o ≡ some out → IsBytes out × (length out ≤ capacity))
      (ltb capacity 144) (λ _ e. absurd (ground (arith, e)))
      (λ large e.
        subst (λ bs. IsBytes bs × (length bs ≤ capacity)) (some_injective engine_records out e)
          (engine_records-IsBytes, ltb→le capacity 144 large))
      h

-- The extraction from the flash gives the bundle.
pub flash-bundle :
    extract_ffs_file 2 22 flash 396 apml_fv_guid apml_file_guid
    ≡ some ((platdef_bundle_signature ++ replicate 16 0) ++ (table ++ engine_records))
unfolding extract_ffs_file search on_volume seek_read fv_header_of guid_equal same guid_bytes
    on_ext_header ext_header_of after_walk walk fv_end_of on_file align8 guid_is_all_ff
    ffs_header_of ffs_file_size file_payload fv_step return_read section_payload
flash-bundle = refl

flash-FlashFits : FlashFits fuel flash
flash-FlashFits = record {
  bytes = flash-IsBytes;
  low = omega arith;
  steps = flash-StepsFit;
  volumes = 1;
  files = 20;
  volumes_fuel = refl;
  files_fuel = refl;
  enough_volumes = omega arith;
  enough_files = omega arith;
  no_wrap = λ raw e.
      subst (λ bs. load_le 96 4 (table_bytes bs) + 32 < 2 ^ 32)
        (some_injective ((platdef_bundle_signature ++ replicate 16 0) ++ (table ++ engine_records))
          raw (sym flash-bundle ∙ e))
        (omega arith);
}

pub machine_opens :
    (rom : Bytes)
    → machine.open_file (find_mtd_by_label host_prime machine.mtds) ≡ some rom
    → FlashFits fuel rom
unfolding find_mtd_by_label ends_with on_name_file first_line same
machine_opens rom e = subst (FlashFits fuel) (some_injective flash rom e) flash-FlashFits

-- A packet of a service that has no handler for it, and a signal.
abbrev events : List Event
events = read (got (8 ∷ 0 ∷ 7 ∷ 1 ∷ 3 ∷ 0 ∷ 16 ∷ 1 ∷ [])) ∷ signal ∷ []

main-signals_example :
    main true no_bus fuel machine 3 events ≡ main true no_bus fuel machine 0 events
main-signals_example = main-signals no_bus true fuel machine 3 events

abbrev pub printed_entries : List Entry
printed_entries = engine engine_front (segment_bytes ∷ []) [] ∷ []

abbrev pub bundle : Bytes
bundle = (platdef_bundle_signature ++ replicate 16 0) ++ (table ++ engine_records)

pub bundle-IsBundle : IsBundle inflate bundle table printed_entries
unfolding decomp_size
bundle-IsBundle = record {
  reserved = replicate 16 0;
  compressed = engine_records;
  last = end_record;
  trailer = [];
  behind = [];
  holds = refl;
  reserved_size = refl;
  table_size = refl;
  zlib = refl;
  says_size = refl;
  small = omega arith;
  inflates = refl;
  is_table = table-IsEntry;
  each = (engine-IsEntry, tt);
  last_size = omega arith;
  last_type = refl;
  low = omega arith;
}

segment_bus_map-Finds_example :
    Finds 0x33
      (bus_through (scan_mux_topology devices) (find_key 0x33 (put_entries printed_entries [])))
      (segment_bus_map fuel machine)
unfolding find_mtd_by_label ends_with on_name_file first_line same
segment_bus_map-Finds_example =
    segment_bus_map-Finds machine fuel flash bundle table printed_entries 0x33 134217727 refl refl
      refl flash-bundle bundle-IsBundle refl

-- The bus of the segment is 39.
pub bus_found :
    bus_through (scan_mux_topology devices) (find_key 0x33 (put_entries printed_entries []))
    ≡ some (pos 39)
unfolding put_segment segment_of put find_key mux_key scan_mux_topology scan_devices on_device
    scan_channels put_channel mux_of channel_of bus_of small_stoul bind behind strip or_else stoul
    stoi sign skip_space is_space is_digit magnitude digits_value unsigned_of int_of
bus_found = refl
