-- ===== src/Tests/Enumerate.antt =====
-- A store that is read index by index.
use ocp_canopy_open_bmc.Common.{ℕ, ◌≡◌, refl, none, some, List, [], ◌∷◌, arith, Bytes, All}
use ocp_canopy_open_bmc.Packet.{parse_header, payload}
use ocp_canopy_open_bmc.EvStorage.{EvStorage, saved, entries_size}
use ocp_canopy_open_bmc.EvStorage.Valid.{IsValid}
use ocp_canopy_open_bmc.Daemon.{Event, signal, read, got, read_error, run}
use ocp_canopy_open_bmc.Daemon.Replies.{PacketEvent}
use ocp_canopy_open_bmc.Daemon.Fresh.{packets_read, packets_sent}
use ocp_canopy_open_bmc.Main.{Services, main_daemon}
use ocp_canopy_open_bmc.Main.Enumerate.{AskFrom, answers, main-answers}
use ocp_canopy_open_bmc.Tests.Restart.{no_bus, services, name, value}

abbrev two : EvStorage
two = record {
  entries = record { name = name; value = value } ∷ record { name = 67 ∷ []; value = [] } ∷ [];
  file = none;
  outcomes = λ n. saved;
}

abbrev two_services : Services ℕ
two_services = record services {
  smif = record { ev_storage = some two; segment_to_bus = []; world = 0 };
}

two-IsValid : IsValid two
unfolding entries_size
two-IsValid = record {
  each = (
    record { name_short = omega arith; name_text = ground arith; value_small = omega arith },
    (record { name_short = omega arith; name_text = ground arith; value_small = omega arith }, tt),
  );
  small = omega arith;
}

abbrev index_packet : ℕ → Bytes
index_packet i = 12 ∷ 0 ∷ 1 ∷ 0 ∷ 0x2B ∷ 1 ∷ 0 ∷ 1 ∷ i ∷ 0 ∷ 0 ∷ 0 ∷ []

abbrev events : List Event
events =
    read (got (index_packet 0))
    ∷ read (read_error 5)
    ∷ read (got (index_packet 1))
    ∷ read (got (index_packet 2))
    ∷ signal
    ∷ []

events-PacketEvent : All PacketEvent events
events-PacketEvent = ground arith

events-AskFrom : AskFrom 0 (packets_read events)
unfolding parse_header payload
events-AskFrom = (
  refl,
  (
    record { command = (omega arith, refl); request = refl; index_fits = omega arith },
    (
      refl,
      (
        record { command = (omega arith, refl); request = refl; index_fits = omega arith },
        (
          refl,
          (record { command = (omega arith, refl); request = refl; index_fits = omega arith }, tt),
        ),
      ),
    ),
  ),
)

main-answers_example :
    packets_sent (run events (main_daemon no_bus two_services)).1
    ≡ answers two.entries (packets_read events)
main-answers_example =
    main-answers no_bus two_services two events refl two-IsValid events-PacketEvent events-AskFrom
