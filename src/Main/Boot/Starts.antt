-- ===== src/Main/Boot/Starts.antt =====
-- When `main` gets to the call of `run`, and what the daemon does then.
use ocp_canopy_open_bmc.Common.{
  ℕ, suc, ◌+◌, ◌*◌, ◌^◌, ◌≤◌, ◌<◌, ◌≡◌, refl, sym, subst, ap, ◌∙◌, Bool, true, false, if◌then◌else◌,
  ◌==◌, if-intro, if-ap, Option, none, some, inl, inr, List, [], arith, Bytes, IsBytes, All, length,
  length-take, length-drop, drop, load_le, same,
}
use ocp_canopy_open_bmc.UefiFv.Search.{extract_ffs_file}
use ocp_canopy_open_bmc.UefiFv.Reads.{read_at-IsBytes}
use ocp_canopy_open_bmc.UefiFv.Termination.{StepsFit, extract_terminates}
use ocp_canopy_open_bmc.UefiFv.Sound.{FromImage, extract-FromImage}
use ocp_canopy_open_bmc.PlatDef.Bundle.{decompress_plat_def}
use ocp_canopy_open_bmc.PlatDef.Bundle.Calls.{table_bytes, decompress-leaves}
use ocp_canopy_open_bmc.PlatDef.Extract.{
  apml_fv_guid, apml_file_guid, host_prime, find_mtd_by_label, on_raw, on_rom, extract_plat_def,
}
use ocp_canopy_open_bmc.Smif.I2c.{I2cDriver}
use ocp_canopy_open_bmc.Daemon.{ChifDaemon, Event, Output, run}
use ocp_canopy_open_bmc.Daemon.Replies.{Replies, over, PacketEvent}
use ocp_canopy_open_bmc.Daemon.Returns.{is_stopped, run-returned}
use ocp_canopy_open_bmc.Main.{Services, main_daemon}
use ocp_canopy_open_bmc.Main.Boot.{
  Exit, exited, aborted, exit_behind, Machine, Fuel, map_of_blob, plat_def_blob, segment_bus_map,
  services_with, daemon_with, boot, run_daemon, main,
}
use ocp_canopy_open_bmc.Main.Boot.Segments.{map_of_blob-Backed, boot-Replies}
use ocp_canopy_open_bmc.Main.Boot.Signals.{run_daemon-signals}
use ocp_canopy_open_bmc.PlatDef.Bundle.Small.{WritesWithin, IsSmall, SmallIfAny, decompress-Small}

-- A small blob is there.
record HasBlob (o : Option Bytes) : Type 0 where
  blob : Bytes
  returns : o ≡ some blob
  small : IsSmall blob

nothing-HasBlob : HasBlob (some [])
nothing-HasBlob = record { blob = []; returns = refl; small = (tt, omega arith) }

HasBlob-intro : (o : Option Bytes) → SmallIfAny o → (o ≡ none → 1 ≤ 0) → HasBlob o
HasBlob-intro none small there = absurd (omega (arith, there refl))
HasBlob-intro (some blob) small there = record { blob = blob; returns = refl; small = small }

from-IsSmall :
    (rom raw : Bytes)
    → IsSmall rom
    → FromImage rom apml_fv_guid apml_file_guid (some raw)
    → IsSmall raw
from-IsSmall rom raw small (inl empty) = subst IsSmall (sym empty) (tt, omega arith)
from-IsSmall rom raw small (inr (volume, file)) = subst IsSmall (sym file.slice) (
  read_at-IsBytes file.start file.size rom small.0,
  omega (arith, length-take file.size (drop file.start rom), length-drop file.start rom, small.1),
)

-- A flash image for which the search ends within the fuel, and whose PlatDef blob, if it has one,
-- says a compressed size below 2^32 - 32.
pub record FlashFits (fuel : Fuel) (rom : Bytes) : Type 0 where
  pub bytes : IsBytes rom
  pub low : length rom ≤ 2 ^ 31
  pub steps : StepsFit rom
  pub volumes : ℕ
  pub files : ℕ
  pub volumes_fuel : fuel.volumes ≡ suc volumes
  pub files_fuel : fuel.files ≡ suc (suc files)
  pub enough_volumes : length rom ≤ 0x10000 * volumes
  pub enough_files : length rom ≤ 24 * files
  pub no_wrap :
      (raw : Bytes)
      → extract_ffs_file fuel.volumes fuel.files rom (length rom) apml_fv_guid apml_file_guid
        ≡ some raw
      → load_le 96 4 (table_bytes raw) + 32 < 2 ^ 32

module _ (uncompress : ℕ → Bytes → Option Bytes) (writes : WritesWithin uncompress)
    (fuel : Fuel) where
  on_raw-HasBlob :
      (raw : Bytes)
      → IsSmall raw
      → load_le 96 4 (table_bytes raw) + 32 < 2 ^ 32
      → HasBlob (on_raw uncompress (some raw))
  unfolding on_raw
  on_raw-HasBlob raw small no_wrap =
      if-intro HasBlob (length raw == 0) (λ _. nothing-HasBlob)
        (λ _.
          HasBlob-intro (decompress_plat_def uncompress raw)
            (decompress-Small uncompress writes raw small)
            (λ e.
              omega (arith, no_wrap, ((decompress-leaves uncompress raw small.0 small.1).0 e).1)))

  on_rom-HasBlob :
      (o : Option Bytes)
      → ((rom : Bytes) → o ≡ some rom → FlashFits fuel rom)
      → HasBlob (on_rom fuel.volumes fuel.files uncompress o)
  unfolding on_rom
  on_rom-HasBlob none fits = nothing-HasBlob
  on_rom-HasBlob (some rom) fits =
      let fit = fits rom refl in
      let search =
        extract_ffs_file fuel.volumes fuel.files rom (length rom) apml_fv_guid apml_file_guid in
      let (raw, found) =
        extract_terminates rom (length rom) apml_fv_guid apml_file_guid fit.volumes fit.files
          fit.bytes fit.low fit.steps fit.enough_volumes fit.enough_files in
      let returns : search ≡ some raw =
        ap (λ n. extract_ffs_file n fuel.files rom (length rom) apml_fv_guid apml_file_guid)
          fit.volumes_fuel
        ∙ (ap
              (λ n.
                extract_ffs_file (suc fit.volumes) n rom (length rom) apml_fv_guid apml_file_guid)
              fit.files_fuel
            ∙ found) in
      let origin : FromImage rom apml_fv_guid apml_file_guid search =
        extract-FromImage rom fit.low (length rom) fuel.files apml_fv_guid apml_file_guid
          fuel.volumes in
      if-intro HasBlob (length rom == 0) (λ _. nothing-HasBlob)
        (λ _. rw returns (
          on_raw-HasBlob raw
            (from-IsSmall rom raw (fit.bytes, fit.low)
              (subst (FromImage rom apml_fv_guid apml_file_guid) returns origin))
            (fit.no_wrap raw returns)))

  extract_plat_def-HasBlob :
      {World : Type 0} (m : Machine World)
      → m.uncompress ≡ uncompress
      → ((rom : Bytes)
          → m.open_file (find_mtd_by_label host_prime m.mtds) ≡ some rom
          → FlashFits fuel rom)
      → HasBlob (extract_plat_def fuel.volumes fuel.files uncompress m.open_file m.mtds)
  unfolding extract_plat_def
  extract_plat_def-HasBlob m same fits =
      if-intro HasBlob (length (find_mtd_by_label host_prime m.mtds) == 0) (λ _. nothing-HasBlob)
        (λ _. on_rom-HasBlob (m.open_file (find_mtd_by_label host_prime m.mtds)) fits)

-- A daemon, and that it answers.
pub record Starts {World : Type 0} (o : Option (ChifDaemon (Services World))) : Type 0 where
  pub daemon : ChifDaemon (Services World)
  pub returns : o ≡ some daemon
  pub replies : (es : List Event) → All PacketEvent es → Replies es (run es daemon).1

module _ {World : Type 0} (driver : I2cDriver World) where
  -- On such a machine `main` gets to the call of `run`, with a daemon that answers packets.
  pub boot-Starts :
      (fuel : Fuel) (m : Machine World)
      → WritesWithin m.uncompress
      → ((rom : Bytes)
          → m.open_file (find_mtd_by_label host_prime m.mtds) ≡ some rom
          → FlashFits fuel rom)
      → 2 ^ 31 + 16 ≤ 16 * fuel.records
      → Starts (boot driver fuel m)
  unfolding boot segment_bus_map plat_def_blob daemon_with
  boot-Starts fuel m writes fits enough =
      let has = extract_plat_def-HasBlob m.uncompress writes fuel m refl fits in
      let backed =
        map_of_blob-Backed has.blob m.devices fuel.records has.small.0 has.small.1
          (omega (arith, has.small.1)) in
      let start : boot driver fuel m ≡ daemon_with driver m (some backed.result) =
        ap (daemon_with driver m)
          (ap (map_of_blob fuel.records m.devices) has.returns ∙ backed.returns) in
      record {
        daemon = main_daemon driver (services_with m backed.result);
        returns = start;
        replies = λ es each.
            boot-Replies driver fuel m (main_daemon driver (services_with m backed.result)) es start
              each;
      }

-- How `main` ends: with exit code 1 or by an exception, and nothing written, when the device does not
-- open or the name is not given; else with replies, and with exit code 0 when there is a signal.
record Exits (opens named : Bool) (es : List Event) (o : Option (Exit × List Output)) : Type 0 where
  outputs : List Output
  returns :
      o
      ≡ some (
          if opens
          then (if named then (exit_behind (is_stopped es), outputs) else (aborted, []))
          else (exited 1, []))
  replies : Replies es outputs

module _ {World : Type 0} (driver : I2cDriver World) where
  -- On a machine whose zlib writes bytes within its buffer, and whose flash, if it opens, holds at
  -- most 2 GiB of bytes, volumes that end below 4 GiB by their headers, and no PlatDef blob that
  -- says a compressed size of at least 2^32 - 32; with fuel for one round in each 64 KiB of the
  -- flash, in each 24 bytes of it, and in each 16 bytes of 2 GiB, and a few more; for any number of
  -- signals ahead of `run` and any row of signals and of reads that fail or return at most 4096
  -- bytes: `main` ends with exit code 1 and nothing written when the device does not open, by an
  -- exception and with nothing written when the D-Bus does not give it its name, and with exit code
  -- 0 when there is a signal among the events; else it still runs behind them. It writes at most
  -- one packet for each packet read, in the order of the reads, and each packet written echoes the
  -- sequence number, service and version of that read, and has its own length of 8 to 4096 bytes as
  -- its size field.
  main-Exits :
      (opens : Bool) (fuel : Fuel) (m : Machine World) (early : ℕ) (es : List Event)
      → WritesWithin m.uncompress
      → ((rom : Bytes)
          → m.open_file (find_mtd_by_label host_prime m.mtds) ≡ some rom
          → FlashFits fuel rom)
      → 2 ^ 31 + 16 ≤ 16 * fuel.records
      → All PacketEvent es
      → Exits opens m.gets_name es (main opens driver fuel m early es)
  unfolding main run_daemon
  main-Exits false fuel m early es writes fits enough each = record {
    outputs = [];
    returns = refl;
    replies = over;
  }
  main-Exits true fuel m early es writes fits enough each =
      let starts = boot-Starts driver fuel m writes fits enough in
      record {
        outputs = (run es starts.daemon).1;
        returns =
            ap (λ o. if m.gets_name then o else some (aborted, []))
              (run_daemon-signals early es (boot driver fuel m)
                ∙ ap (run_daemon es) starts.returns
                ∙ ap (λ returned. some (exit_behind returned, (run es starts.daemon).1))
                    (run-returned es starts.daemon))
            ∙ sym (if-ap some m.gets_name _ _);
        replies = starts.replies es each;
      }
