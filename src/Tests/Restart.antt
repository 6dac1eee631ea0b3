-- ===== src/Tests/Restart.antt =====
-- A variable that is set, and read back behind a restart.
use ocp_canopy_open_bmc.Common.{
  ℕ, ◌≡◌, refl, true, false, none, some, [], ◌∷◌, arith, Bytes, List, All, take,
}
use ocp_canopy_open_bmc.Packet.{parse_header, payload}
use ocp_canopy_open_bmc.Packet.Frame.{reply_frame}
use ocp_canopy_open_bmc.EvStorage.{
  EvStorage, saved, name_field, find, entries_size, serialized_size, save, set_found, set,
}
use ocp_canopy_open_bmc.Smbios.{FileOutcome}
use ocp_canopy_open_bmc.Smif.I2c.{I2cDriver, failed}
use ocp_canopy_open_bmc.Smif.Response.Entry.{entry_body}
use ocp_canopy_open_bmc.Smif.Ev.RoundTrip.{set_request}
use ocp_canopy_open_bmc.Smif.Service.Store.{Sets, Gets, entry_of}
use ocp_canopy_open_bmc.Daemon.{Event, signal, read, got, read_error, run}
use ocp_canopy_open_bmc.Daemon.Replies.{PacketEvent}
use ocp_canopy_open_bmc.Daemon.Fresh.{packets_sent}
use ocp_canopy_open_bmc.Main.{Services, main_daemon}
use ocp_canopy_open_bmc.Main.Whole.{StoreValid}
use ocp_canopy_open_bmc.Main.Restart.{file_of, main-restart}
use ocp_canopy_open_bmc.Main.Boot.{Machine, services_with}

abbrev pub no_bus : I2cDriver ℕ
no_bus = record { opens = λ w bus. false; transfer = λ w bus messages. (failed 5, w) }

abbrev store : EvStorage
store = record { entries = []; file = none; outcomes = λ n. saved }

abbrev pub services : Services ℕ
services = record {
  rom = record {
    writer = record {
      records = [];
      directory_version = 0;
      output = none;
      surroundings = λ n. record { files = FileOutcome.written; epoch = 0 };
    };
    mdr_bridge = none;
  };
  smif = record { ev_storage = some store; segment_to_bus = []; world = 0 };
}

abbrev pub name : Bytes
name = 66 ∷ 111 ∷ []

abbrev pub value : Bytes
value = 1 ∷ 2 ∷ 3 ∷ []

abbrev set_packet : Bytes
set_packet = 49 ∷ 0 ∷ 1 ∷ 0 ∷ 0x2C ∷ 1 ∷ 0 ∷ 1 ∷ set_request name value

abbrev get_packet : Bytes
get_packet = 40 ∷ 0 ∷ 2 ∷ 0 ∷ 0x30 ∷ 1 ∷ 0 ∷ 1 ∷ name_field name

-- A stats command.
abbrev stats : Bytes
stats = 8 ∷ 0 ∷ 1 ∷ 0 ∷ 50 ∷ 1 ∷ 0 ∷ 1 ∷ []

abbrev first_events : List Event
first_events = read (got stats) ∷ read (got set_packet) ∷ read (read_error 5) ∷ signal ∷ []

abbrev second_events : List Event
second_events = read (read_error 5) ∷ read (got get_packet) ∷ read (got stats) ∷ []

abbrev machine : Machine ℕ
machine = record {
  mtds = [];
  open_file = λ path. none;
  uncompress = λ capacity source. none;
  devices = [];
  ev_file = file_of (run first_events (main_daemon no_bus services)).0.world.smif.ev_storage;
  ev_opens = true;
  saves = λ n. saved;
  smbios_file = none;
  surroundings = λ n. record { files = FileOutcome.written; epoch = 0 };
  bus_answers = λ n. true;
  gets_name = true;
  world = 0;
}

services-StoreValid : StoreValid no_bus services
unfolding entries_size
services-StoreValid = record { each = tt; small = omega arith }

first_events-PacketEvent : All PacketEvent first_events
unfolding name_field
first_events-PacketEvent = ground arith

second_events-PacketEvent : All PacketEvent second_events
unfolding name_field
second_events-PacketEvent = ground arith

set_packet-Sets : Sets name value set_packet
unfolding parse_header payload name_field
set_packet-Sets = record {
  command = (omega arith, refl);
  request = refl;
  is_name = record { text = ground arith; short = omega arith };
  some_byte = omega arith;
  small = omega arith;
}

get_packet-Gets : Gets name get_packet
unfolding parse_header payload name_field
get_packet-Gets = record {
  command = (omega arith, refl);
  request = refl;
  is_name = record { text = ground arith; short = omega arith };
}

set_accepted : (set name value store).0 ≡ true
unfolding set set_found find serialized_size entries_size save
set_accepted = refl

main-restart_example :
    take 1 (packets_sent (run second_events (main_daemon no_bus (services_with machine []))).1)
    ≡ reply_frame (parse_header get_packet) (entry_body (entry_of name value)) ∷ []
unfolding parse_header name_field
main-restart_example =
    main-restart no_bus services first_events (stats ∷ []) store name value set_packet machine []
      second_events (stats ∷ []) get_packet services-StoreValid first_events-PacketEvent refl refl
      set_packet-Sets set_accepted refl refl second_events-PacketEvent refl refl get_packet-Gets
