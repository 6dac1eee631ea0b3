-- ===== src/Main/Boot.antt =====
-- src/main.cpp: `main`, and what it builds its services from. Of the D-Bus connection only
-- this much is modelled: does it come up and give the program its name?
--
-- A result of `none` is one of the three readers of the flash that does not end within its fuel, or
-- that reads behind a buffer.
pub mod Signals
pub mod Segments
pub mod Starts
pub mod Chain
use ocp_canopy_open_bmc.Common.{
  ℕ, zero, suc, ◌==◌, if◌then◌else◌, Bool, not, Option, none, some, List, [], Bytes, length,
}
use ocp_canopy_open_bmc.Smbios.{Surroundings}
use ocp_canopy_open_bmc.EvStorage.{EvStorage, SaveOutcome, load}
use ocp_canopy_open_bmc.Smif.I2c.{I2cDriver, SegmentBusMap}
use ocp_canopy_open_bmc.PlatDef.Records.{SegmentMap, parse_i2c_segments}
use ocp_canopy_open_bmc.PlatDef.Topology.{Device}
use ocp_canopy_open_bmc.PlatDef.Build.{build_segment_bus_map}
use ocp_canopy_open_bmc.PlatDef.Extract.{MtdEntry, extract_plat_def}
use ocp_canopy_open_bmc.Daemon.{ChifDaemon, Event, Output, stop, run}
use ocp_canopy_open_bmc.Main.{Services, main_daemon}

-- How the program ends: with an exit code, or by an exception that nothing catches; or that it has
-- not ended, and its loop waits for what comes.
pub data Exit : Type 0 where
  exited : ℕ → Exit
  aborted : Exit
  still_running : Exit

-- Behind the rounds of `run` so far: whether it has returned, which takes the flag to be down.
abbrev pub exit_behind : Bool → Exit
exit_behind returned = if returned then exited 0 else still_running

-- What the program finds when it starts; the last flag says whether the D-Bus connection comes up
-- and gives it its name. The calls that do not come up throw.
pub record Machine (World : Type 0) : Type 0 where
  pub mtds : List MtdEntry
  pub open_file : Bytes → Option Bytes
  pub uncompress : ℕ → Bytes → Option Bytes
  pub devices : List Device
  pub ev_file : Option Bytes
  pub ev_opens : Bool
  pub saves : ℕ → SaveOutcome
  pub smbios_file : Option Bytes
  pub surroundings : ℕ → Surroundings
  pub bus_answers : ℕ → Bool
  pub world : World
  pub gets_name : Bool

-- The fuel of the three loops.
pub record Fuel : Type 0 where
  pub volumes : ℕ
  pub files : ℕ
  pub records : ℕ

unfoldable pub map_of : List Device → Option SegmentMap → Option SegmentBusMap
map_of devices none = none
map_of devices (some segments) = some (build_segment_bus_map devices segments)

unfoldable pub map_of_blob : ℕ → List Device → Option Bytes → Option SegmentBusMap
map_of_blob fuel devices none = none
map_of_blob fuel devices (some blob) =
    if length blob == 0 then some [] else map_of devices (parse_i2c_segments fuel blob)

module _ {World : Type 0} where
  unfoldable pub plat_def_blob : Fuel → Machine World → Option Bytes
  plat_def_blob fuel m = extract_plat_def fuel.volumes fuel.files m.uncompress m.open_file m.mtds

  -- `segmentBusMap`
  unfoldable pub segment_bus_map : Fuel → Machine World → Option SegmentBusMap
  segment_bus_map fuel m = map_of_blob fuel.records m.devices (plat_def_blob fuel m)

  -- `evStorage` behind `load`, whose result only is logged.
  unfoldable pub loaded : Machine World → EvStorage
  loaded m = (load m.ev_opens (record { entries = []; file = m.ev_file; outcomes = m.saves })).1

  unfoldable pub services_with : Machine World → SegmentBusMap → Services World
  services_with m segments = record {
    rom = record {
      writer = record {
        records = [];
        directory_version = 0;
        output = m.smbios_file;
        surroundings = m.surroundings;
      };
      mdr_bridge = some (record { calls = []; goes_through = m.bus_answers });
    };
    smif = record { ev_storage = some (loaded m); segment_to_bus = segments; world = m.world };
  }

  unfoldable pub daemon_with :
      I2cDriver World → Machine World → Option SegmentBusMap → Option (ChifDaemon (Services World))
  daemon_with driver m none = none
  daemon_with driver m (some segments) = some (main_daemon driver (services_with m segments))

  -- `main`, up to the call of `run`.
  unfoldable pub boot :
      I2cDriver World → Fuel → Machine World → Option (ChifDaemon (Services World))
  boot driver fuel m = daemon_with driver m (segment_bus_map fuel m)

  -- `signalHandler`, with the daemon that `gDaemon` points to.
  unfoldable pub signal_handler :
      Option (ChifDaemon (Services World)) → Option (ChifDaemon (Services World))
  signal_handler none = none
  signal_handler (some daemon) = some (stop daemon)

  -- So many signals, one after the other.
  unfoldable pub signals :
      ℕ → Option (ChifDaemon (Services World)) → Option (ChifDaemon (Services World))
  signals zero daemon = daemon
  signals (suc n) daemon = signals n (signal_handler daemon)

  -- `run`, and the exit code behind it, if it returns.
  unfoldable pub run_daemon :
      List Event → Option (ChifDaemon (Services World)) → Option (Exit × List Output)
  run_daemon es none = none
  run_daemon es (some daemon) =
      let out = run es daemon in some (exit_behind (not out.0.running), out.1)

  -- `main`: how it ends, if it does, and what the daemon does at the device; the flag says whether
  -- that opens, the number how many signals there are between the installation of their handler and
  -- `run`.
  unfoldable pub main :
      Bool → I2cDriver World → Fuel → Machine World → ℕ → List Event → Option (Exit × List Output)
  main opens driver fuel m early es =
      let ran = run_daemon es (signals early (boot driver fuel m)) in
      if opens then (if m.gets_name then ran else some (aborted, [])) else some (exited 1, [])
