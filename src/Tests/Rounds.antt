-- ===== src/Tests/Rounds.antt =====
-- The daemon at concrete events.
use ocp_canopy_open_bmc.Common.{
  ℕ, ◌≡◌, refl, true, false, none, some, List, [], ◌∷◌, ◌++◌, arith, Bytes, All, replicate,
}
use ocp_canopy_open_bmc.Packet.{parse_header, max_packet_size, rom_service_id, smif_service_id}
use ocp_canopy_open_bmc.Packet.Frame.{ack_frame, put_frame}
use ocp_canopy_open_bmc.Smbios.{FileOutcome}
use ocp_canopy_open_bmc.Smif.I2c.{I2cDriver, failed}
use ocp_canopy_open_bmc.Daemon.{
  ServiceHandler, Event, signal, read, got, nothing, read_error, ChifDaemon, run,
}
use ocp_canopy_open_bmc.Daemon.Handlers.{IsHandler, IsReady, IsPacket}
use ocp_canopy_open_bmc.Daemon.Backoff.{pauses_from, run-pauses}
use ocp_canopy_open_bmc.Main.{Services, main_daemon}
use ocp_canopy_open_bmc.Daemon.Replies.{Replies, PacketEvent}
use ocp_canopy_open_bmc.Daemon.Fresh.{packets_read, packets_sent, fresh_serve, IsBlind}
use ocp_canopy_open_bmc.Daemon.Fresh.Runs.{run-fresh_serve}
use ocp_canopy_open_bmc.Rom.Session.{serve}
use ocp_canopy_open_bmc.Main.Apart.{packets_for, in_zeros, next_all, main-services}
use ocp_canopy_open_bmc.Main.Whole.{ack_frame-Answers, main-Replies}

abbrev ping : Bytes
ping = 8 ∷ 0 ∷ 7 ∷ 1 ∷ 3 ∷ 0 ∷ 16 ∷ 1 ∷ []

ping-IsPacket : IsPacket ping
ping-IsPacket = (ground arith, omega arith)

-- No bus opens.
abbrev no_bus : I2cDriver ℕ
no_bus = record { opens = λ w bus. false; transfer = λ w bus messages. (failed 5, w) }

abbrev services : Services ℕ
services = record {
  rom = record {
    writer = record {
      records = [];
      directory_version = 0;
      output = none;
      surroundings = λ n. record { files = FileOutcome.written; epoch = 0 };
    };
    mdr_bridge = some (record { calls = []; goes_through = λ n. true });
  };
  smif = record { ev_storage = none; segment_to_bus = []; world = 0 };
}

abbrev events : List Event
events = read (got ping) ∷ read (read_error 5) ∷ read nothing ∷ signal ∷ read (got ping) ∷ []

-- A handler that acknowledges all packets.
abbrev acknowledger : ServiceHandler ℕ
acknowledger = record {
  service_id = 16;
  handle = λ w request response. (put_frame (some (ack_frame (parse_header request))) response, w);
}

abbrev Always : ℕ → Type 0
Always w = Unit

abbrev acknowledger-IsHandler : IsHandler Always acknowledger
acknowledger-IsHandler = record {
  acts = λ w packet inv is_packet long. record {
    frame = some (ack_frame (parse_header packet));
    puts = λ response size. refl;
    answers = ack_frame-Answers packet is_packet long;
  };
  keeps = λ w request response inv. tt;
}

abbrev daemon : ChifDaemon ℕ
daemon = record {
  handlers = acknowledger ∷ [];
  running = true;
  consecutive_errors = 3;
  error_retry_counter = 0;
  recv_buf = replicate max_packet_size 0;
  resp_buf = replicate max_packet_size 0;
  world = 0;
}

daemon-IsReady : IsReady Always daemon
daemon-IsReady = record {
  recv_size = refl;
  resp_size = refl;
  handlers_hold = (acknowledger-IsHandler, tt);
  inv = tt;
}

main-Replies_example : Replies events (run events (main_daemon no_bus services)).1
main-Replies_example =
    main-Replies no_bus services events tt (ping-IsPacket, (tt, (tt, (tt, (ping-IsPacket, tt)))))

daemon-IsBlind : All IsBlind daemon.handlers
daemon-IsBlind = (λ w packet response size. refl, tt)

events-PacketEvent : All PacketEvent events
events-PacketEvent = (ping-IsPacket, (tt, (tt, (tt, (ping-IsPacket, tt)))))

run-fresh_serve_example :
    let served = fresh_serve daemon.handlers (packets_read events) daemon.world in
    (packets_sent (run events daemon).1 ≡ served.1) × ((run events daemon).0.world ≡ served.0)
run-fresh_serve_example =
    run-fresh_serve Always events daemon events-PacketEvent daemon-IsReady daemon-IsBlind

main-services_example : (run events (main_daemon no_bus services)).0.world ≡ record {
  rom = serve services.rom (in_zeros (packets_for rom_service_id (packets_read events)));
  smif = next_all no_bus services.smif (packets_for smif_service_id (packets_read events));
}
main-services_example = main-services no_bus services events tt events-PacketEvent

run-pauses_example :
    (run (replicate 9 (read (read_error 5)) ++ replicate 40 (read (read_error 5))) daemon).1
    ≡ pauses_from 0 40
run-pauses_example = run-pauses 5 refl 40 daemon
