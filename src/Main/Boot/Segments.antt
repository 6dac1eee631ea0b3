-- ===== src/Main/Boot/Segments.antt =====
-- The daemon that `main` builds: its map of segments and its answers.
use ocp_canopy_open_bmc.Common.{
  ℕ, ◌+◌, ◌-◌, ◌*◌, ◌^◌, ◌≤◌, ◌≡◌, refl, sym, subst, ◌∙◌, ltb, ltb→le, ◌==◌, if-intro, Option, none,
  some, List, [], arith, Bytes, IsBytes, All, length, ℤ,
}
use ocp_canopy_open_bmc.EvStorage.Valid.{load-IsValid}
use ocp_canopy_open_bmc.Smif.I2c.{I2cDriver, SegmentBusMap, find_bus}
use ocp_canopy_open_bmc.PlatDef.{I2cSegmentMapping}
use ocp_canopy_open_bmc.PlatDef.Table.{find_key, find_key-All}
use ocp_canopy_open_bmc.PlatDef.Records.Declared.{IsDeclared, parse-Parsed}
use ocp_canopy_open_bmc.PlatDef.Topology.{Device, mux_key, scan_mux_topology}
use ocp_canopy_open_bmc.PlatDef.Topology.Found.{IsFound, scan-IsFound}
use ocp_canopy_open_bmc.PlatDef.Build.{build_segment_bus_map}
use ocp_canopy_open_bmc.PlatDef.Build.Lookup.{bus_through, build-bus_through}
use ocp_canopy_open_bmc.Daemon.{ChifDaemon, Event, run}
use ocp_canopy_open_bmc.Daemon.Replies.{Replies, PacketEvent}
use ocp_canopy_open_bmc.Main.{Services, main_daemon}
use ocp_canopy_open_bmc.Main.Whole.{main-Replies}
use ocp_canopy_open_bmc.Main.Boot.{
  Machine, Fuel, map_of, map_of_blob, segment_bus_map, loaded, services_with, daemon_with, boot,
}

-- Why the proxy may use a bus for a segment: the blob declares the segment's register and channel,
-- and sysfs has that multiplexer and channel with the bus.
pub record IsBacked (blob : Bytes) (devices : List Device) (segment : ℕ) (bus : ℤ) : Type 0 where
  pub mapping : I2cSegmentMapping
  pub declared : IsDeclared blob (segment, mapping)
  pub has_mux : 0x84 ≤ mapping.cpld_register
  pub found : IsFound devices (mux_key (mapping.cpld_register - 0x84) mapping.channel_value, bus)

-- The bus that is found for a segment is backed.
abbrev pub BackedIfAny : Bytes → List Device → ℕ → Option ℤ → Type 0
BackedIfAny blob devices segment none = Unit
BackedIfAny blob devices segment (some bus) = IsBacked blob devices segment bus

BackedIfAny-intro :
    (blob : Bytes) (devices : List Device) (segment : ℕ) (o : Option ℤ)
    → ((bus : ℤ) → o ≡ some bus → IsBacked blob devices segment bus)
    → BackedIfAny blob devices segment o
BackedIfAny-intro blob devices segment none each = tt
BackedIfAny-intro blob devices segment (some bus) each = each bus refl

-- A map whose buses are all backed.
pub record Backed (blob : Bytes) (devices : List Device) (outcome : Option SegmentBusMap)
    : Type 0 where
  pub result : SegmentBusMap
  pub returns : outcome ≡ some result
  pub each : (segment : ℕ) → BackedIfAny blob devices segment (find_bus segment result)

module _ (blob : Bytes) (devices : List Device) where
  bus_through-IsBacked :
      (segment : ℕ) (bus : ℤ) (mapping : Option I2cSegmentMapping)
      → ((m : I2cSegmentMapping) → mapping ≡ some m → IsDeclared blob (segment, m))
      → bus_through (scan_mux_topology devices) mapping ≡ some bus
      → IsBacked blob devices segment bus
  bus_through-IsBacked segment bus none declared h = absurd (ground arith)
  bus_through-IsBacked segment bus (some m) declared h =
      let key = mux_key (m.cpld_register - 0x84) m.channel_value in
      if-intro (λ (o : Option ℤ). o ≡ some bus → IsBacked blob devices segment bus)
        (ltb m.cpld_register 0x84) (λ _ e. absurd (ground (arith, e)))
        (λ high e. record {
          mapping = m;
          declared = declared m refl;
          has_mux = ltb→le m.cpld_register 0x84 high;
          found =
              find_key-All (IsFound devices) key bus (scan_mux_topology devices)
                (scan-IsFound devices).0 e;
        })
        h

-- With fuel for one record in 16 bytes and one more, a blob of at most 2 GiB of bytes gives a map
-- of segments. Whatever bus the proxy finds in it for a segment, the record of an engine in the
-- blob declares that segment, with a register from 0x84 on, and sysfs has a channel of the
-- multiplexer that the register selects, with the declared number, whose link names that bus.
pub map_of_blob-Backed :
    (blob : Bytes) (devices : List Device) (fuel : ℕ)
    → IsBytes blob
    → length blob ≤ 2 ^ 31
    → length blob + 16 ≤ 16 * fuel
    → Backed blob devices (map_of_blob fuel devices (some blob))
unfolding map_of_blob map_of find_bus
map_of_blob-Backed blob devices fuel bytes low enough =
    let parsed = parse-Parsed blob fuel bytes low enough in
    if-intro (Backed blob devices) (length blob == 0)
      (λ _. record { result = []; returns = refl; each = λ segment. tt })
      (λ _. rw (parsed.returns) (record {
        result = build_segment_bus_map devices parsed.result;
        returns = refl;
        each = λ segment.
            BackedIfAny-intro blob devices segment
              (find_bus segment (build_segment_bus_map devices parsed.result))
              (λ bus e.
                bus_through-IsBacked blob devices segment bus (find_key segment parsed.result)
                  (λ m found.
                    find_key-All (IsDeclared blob) segment m parsed.result parsed.declared.each
                      found)
                  (sym (build-bus_through devices parsed.result segment parsed.declared.unique)
                    ∙ e));
      }))

module _ {World : Type 0} where
  daemon_with-Replies :
      (driver : I2cDriver World) (m : Machine World) (segments : Option SegmentBusMap)
      (daemon : ChifDaemon (Services World)) (es : List Event)
      → daemon_with driver m segments ≡ some daemon
      → All PacketEvent es
      → Replies es (run es daemon).1
  unfolding daemon_with services_with loaded
  daemon_with-Replies driver m none daemon es h each = absurd (ground arith)
  daemon_with-Replies driver m (some segments) daemon es h each =
      let same : main_daemon driver (services_with m segments) ≡ daemon = cc h in
      subst (λ d. Replies es (run es d).1) same
        (main-Replies driver (services_with m segments) es
          (load-IsValid m.ev_opens (record { entries = []; file = m.ev_file; outcomes = m.saves }))
          each)

  -- Whatever the flash, sysfs and the file of the store hold: the daemon that `main` builds from them,
  -- when it gets that far, writes for any row of signals and of reads that fail or return at most 4096
  -- bytes at most one packet for each packet read, in the order of the reads, and each packet written
  -- echoes the sequence number, service and version of that read, and has its own length of 8 to 4096
  -- bytes as its size field.
  pub boot-Replies :
      (driver : I2cDriver World) (fuel : Fuel) (m : Machine World)
      (daemon : ChifDaemon (Services World)) (es : List Event)
      → boot driver fuel m ≡ some daemon
      → All PacketEvent es
      → Replies es (run es daemon).1
  unfolding boot
  boot-Replies driver fuel m daemon es h each =
      daemon_with-Replies driver m (segment_bus_map fuel m) daemon es h each
