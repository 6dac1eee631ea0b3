-- ===== src/Tests/Transfer.antt =====
-- An I2C transfer through the whole program, with the flash that holds a bundle.
use ocp_canopy_open_bmc.Common.{
  ℕ, ◌+◌, refl, true, false, [], ◌∷◌, arith, ℤ, pos, negsuc, Bytes, Bool, List, All, ◌==◌, same,
}
use ocp_canopy_open_bmc.Packet.{parse_header, payload}
use ocp_canopy_open_bmc.Packet.Frame.{reply_frame}
use ocp_canopy_open_bmc.Smif.I2c.{I2cDriver, transferred}
use ocp_canopy_open_bmc.Smif.I2c.Transfer.{asked_messages, answer_body, AsksFor}
use ocp_canopy_open_bmc.Smif.Service.Proxy.{Proxies}
use ocp_canopy_open_bmc.PlatDef.Extract.{find_mtd_by_label, ends_with, on_name_file, first_line}
use ocp_canopy_open_bmc.Daemon.{Event, signal, read, got, read_error}
use ocp_canopy_open_bmc.Daemon.Replies.{PacketEvent}
use ocp_canopy_open_bmc.Main.Boot.{main}
use ocp_canopy_open_bmc.Main.Proxy.{SendsFirst, main-SendsFirst}
use ocp_canopy_open_bmc.Tests.PlatDef.{table}
use ocp_canopy_open_bmc.Tests.Boot.{
  flash, machine, fuel, printed_entries, bundle, flash-bundle, bundle-IsBundle, bus_found,
}

abbrev is_39 : ℤ → Bool
is_39 (pos n) = n == 39
is_39 (negsuc n) = false

-- A driver with bus 39, on which each transfer reads two bytes.
abbrev driver : I2cDriver ℕ
driver = record {
  opens = λ w bus. is_39 bus;
  transfer = λ w bus messages. (transferred (171 ∷ 205 ∷ []), w + 1);
}

abbrev unused : Bytes
unused = 0 ∷ 0 ∷ 0 ∷ 0 ∷ 0 ∷ 0 ∷ 0 ∷ 0 ∷ 0 ∷ 0 ∷ 0 ∷ 0 ∷ []

-- One byte to write and two to read at address 0x50 of segment 0x33.
abbrev packet : Bytes
packet =
    26 ∷ 0 ∷ 5 ∷ 0 ∷ 0x72 ∷ 0 ∷ 0 ∷ 1 ∷ 0 ∷ 0 ∷ 0 ∷ 0 ∷ 0 ∷ 0 ∷ 0 ∷ 0 ∷ 0 ∷ 0 ∷ 0 ∷ 0 ∷ 160 ∷ 0
    ∷ 0x33 ∷ 1 ∷ 2 ∷ 16 ∷ []

abbrev events : List Event
events = read (read_error 5) ∷ read (got packet) ∷ signal ∷ read (got packet) ∷ []

events-PacketEvent : All PacketEvent events
events-PacketEvent = ground arith

packet-AsksFor : AsksFor driver 0 (pos 39) unused 160 0x33 2 (16 ∷ [])
packet-AsksFor = record {
  unused_size = refl;
  address_fits = omega arith;
  opened = refl;
  write_small = omega arith;
  read_small = omega arith;
  something = omega arith;
}

packet-Proxies : Proxies unused 160 0x33 2 (16 ∷ []) packet
unfolding parse_header payload
packet-Proxies = record { command = (omega arith, refl); request_is = refl }

main-SendsFirst_example :
    SendsFirst events
      (reply_frame
        (parse_header packet)
        (answer_body 160 0x33 2 (driver.transfer 0 (pos 39) (asked_messages 160 2 (16 ∷ []))).0))
      (main true driver fuel machine 1 events)
unfolding find_mtd_by_label ends_with on_name_file first_line same parse_header
main-SendsFirst_example =
    main-SendsFirst driver fuel machine flash bundle table printed_entries 134217727 1 events []
      (pos 39) unused 160 0x33 2 (16 ∷ []) packet refl refl refl refl flash-bundle bundle-IsBundle
      refl bus_found packet-AsksFor packet-Proxies refl events-PacketEvent refl
