-- ===== src/Main/Proxy.antt =====
-- From the flash to an I2C transfer: what the program makes of a packet for the proxy.
use ocp_canopy_open_bmc.Common.{
  ℕ, suc, ◌+◌, ◌≡◌, ap, ◌∙◌, true, false, ◌==◌, if◌then◌else◌, Option, some, List, [], ◌∷◌, arith,
  ℤ, Bytes, All, length, take,
}
use ocp_canopy_open_bmc.Packet.{parse_header, smif_service_id}
use ocp_canopy_open_bmc.Packet.Frame.{reply_frame, length-reply_frame}
use ocp_canopy_open_bmc.UefiFv.Search.{extract_ffs_file}
use ocp_canopy_open_bmc.PlatDef.Table.{find_key}
use ocp_canopy_open_bmc.PlatDef.Records.Printed.{Entry, skipped, put_entries}
use ocp_canopy_open_bmc.PlatDef.Topology.{scan_mux_topology}
use ocp_canopy_open_bmc.PlatDef.Build.Lookup.{bus_through}
use ocp_canopy_open_bmc.PlatDef.Extract.{
  apml_fv_guid, apml_file_guid, host_prime, find_mtd_by_label,
}
use ocp_canopy_open_bmc.EvStorage.Valid.{load-IsValid}
use ocp_canopy_open_bmc.Smif.I2c.{I2cDriver, SegmentBusMap}
use ocp_canopy_open_bmc.Smif.I2c.Transfer.{asked_messages, answer_body, AsksFor}
use ocp_canopy_open_bmc.Smif.Service.Proxy.{Proxies, handle-Proxies}
use ocp_canopy_open_bmc.Daemon.{Event, Output, run}
use ocp_canopy_open_bmc.Daemon.Replies.{PacketEvent}
use ocp_canopy_open_bmc.Daemon.Returns.{is_stopped, run-returned}
use ocp_canopy_open_bmc.Daemon.Fresh.{packets_read, packets_sent, zeros}
use ocp_canopy_open_bmc.Daemon.Fresh.Rounds.{length-zeros}
use ocp_canopy_open_bmc.Main.{main_daemon}
use ocp_canopy_open_bmc.Main.Whole.{StoreValid}
use ocp_canopy_open_bmc.Main.Apart.{is_for}
use ocp_canopy_open_bmc.Main.First.{first-sent}
use ocp_canopy_open_bmc.Main.Boot.{
  exited, aborted, still_running, exit_behind, Exit, signals, Machine, Fuel, segment_bus_map,
  loaded, services_with, daemon_with, boot, run_daemon, main,
}
use ocp_canopy_open_bmc.Main.Boot.Signals.{run_daemon-signals}
use ocp_canopy_open_bmc.Main.Boot.Chain.{IsBundle, Finds, segment_bus_map-Finds}

-- How `main` ends: with exit code 0 when there is a signal among the events, and it still runs when
-- there is none. This packet is the first that it sends.
pub record SendsFirst (es : List Event) (frame : Bytes) (o : Option (Exit × List Output))
    : Type 0 where
  pub outputs : List Output
  pub returns : o ≡ some (if is_stopped es then exited 0 else still_running, outputs)
  pub first : take 1 (packets_sent outputs) ≡ frame ∷ []

module _ {World : Type 0} (driver : I2cDriver World) where
  services_with-StoreValid :
      (m : Machine World) (segments : SegmentBusMap) → StoreValid driver (services_with m segments)
  unfolding services_with loaded
  services_with-StoreValid m segments =
      load-IsValid m.ev_opens (record { entries = []; file = m.ev_file; outcomes = m.saves })

  -- With the map of segments that the program finds.
  main-Finds :
      (fuel : Fuel) (m : Machine World) (early : ℕ) (es : List Event) (later : List Bytes) (bus : ℤ)
      (unused : Bytes) (address segment read_len : ℕ) (written packet : Bytes)
      → m.gets_name ≡ true
      → Finds segment (some bus) (segment_bus_map fuel m)
      → AsksFor driver m.world bus unused address segment read_len written
      → Proxies unused address segment read_len written packet
      → is_for smif_service_id packet ≡ true
      → All PacketEvent es
      → packets_read es ≡ packet ∷ later
      → SendsFirst es
          (reply_frame (parse_header packet) (
            answer_body address segment read_len
              (driver.transfer m.world bus (asked_messages address read_len written)).0))
          (main true driver fuel m early es)
  unfolding main boot daemon_with run_daemon services_with
  main-Finds fuel m early es later bus unused address segment read_len written packet named finds
        asks proxies mine each reads =
      let services = services_with m finds.result in
      let body =
        answer_body address segment read_len
          (driver.transfer m.world bus (asked_messages address read_len written)).0 in
      record {
        outputs = (run es (main_daemon driver services)).1;
        returns =
            ap
              (λ b.
                if b
                then run_daemon es (signals early (boot driver fuel m))
                else some (aborted, []))
              named
            ∙ run_daemon-signals early es (boot driver fuel m)
            ∙ ap (λ segments. run_daemon es (daemon_with driver m segments)) finds.returns
            ∙ ap (λ returned. some (exit_behind returned, (run es (main_daemon driver services)).1))
                (run-returned es (main_daemon driver services));
        first =
            first-sent driver services packet (reply_frame (parse_header packet) body) mine
              (handle-Proxies driver services.smif bus unused address segment read_len written
                packet zeros finds.finds asks proxies (omega (arith, length-zeros))).0
              (omega (arith, length-reply_frame (parse_header packet) body)) es later
              (services_with-StoreValid m finds.result) each reads;
      }

  -- Let the search of the flash return a bundle of printed records, with the flag for zlib and a
  -- right compressed size, both its compressed part and its blob of at most 2 GiB, with fuel for
  -- each record. Let the multiplexer and channel that the last CPLD segment of a number in the
  -- records says have a bus in the scan of sysfs, let that bus open, and let the D-Bus give the
  -- program its name. Then, if the first packet is one for the proxy that names the segment, with
  -- at most 32 bytes in each direction and at least one, the program ends with exit code 0 when
  -- there is a signal among its events and still runs behind them when there is none, and the first
  -- packet that it sends is the reply with what the driver returns for exactly the messages asked
  -- for, on that bus: its error as an error code, or the bytes read. This holds for any row of
  -- signals and of reads of at most 4096 bytes around the packet, any number of signals ahead of
  -- `run`, and any store of variables in the file.
  pub main-SendsFirst :
      (fuel : Fuel) (m : Machine World) (rom raw table : Bytes) (entries : List Entry) (k : ℕ)
      (early : ℕ) (es : List Event) (later : List Bytes) (bus : ℤ) (unused : Bytes)
      (address segment read_len : ℕ) (written packet : Bytes)
      → m.gets_name ≡ true
      → (length (find_mtd_by_label host_prime m.mtds) == 0) ≡ false
      → m.open_file (find_mtd_by_label host_prime m.mtds) ≡ some rom
      → (length rom == 0) ≡ false
      → extract_ffs_file fuel.volumes fuel.files rom (length rom) apml_fv_guid apml_file_guid
        ≡ some raw
      → IsBundle m.uncompress raw table entries
      → fuel.records ≡ length (skipped table ∷ entries) + suc k
      → bus_through (scan_mux_topology m.devices) (find_key segment (put_entries entries []))
        ≡ some bus
      → AsksFor driver m.world bus unused address segment read_len written
      → Proxies unused address segment read_len written packet
      → is_for smif_service_id packet ≡ true
      → All PacketEvent es
      → packets_read es ≡ packet ∷ later
      → SendsFirst es
          (reply_frame (parse_header packet) (
            answer_body address segment read_len
              (driver.transfer m.world bus (asked_messages address read_len written)).0))
          (main true driver fuel m early es)
  main-SendsFirst fuel m rom raw table entries k early es later bus unused address segment read_len
        written packet named has_path opens has_rom extracted bundle enough through asks proxies
        mine each reads =
      let finds =
        segment_bus_map-Finds m fuel rom raw table entries segment k has_path opens has_rom
          extracted bundle enough in
      main-Finds fuel m early es later bus unused address segment read_len written packet named
        (record { result = finds.result; returns = finds.returns; finds = finds.finds ∙ through })
        asks proxies mine each reads
