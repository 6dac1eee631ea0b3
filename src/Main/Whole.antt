-- ===== src/Main/Whole.antt =====
-- The three services as handlers of the daemon, and the whole program.
use ocp_canopy_open_bmc.Common.{
  ℕ, ◌+◌, ◌≤◌, ap, ◌∙◌, false, ◌||◌, not, ltb, if-intro, Option, none, some, List, arith, Bytes,
  All, length, length-replicate, le_bytes,
}
use ocp_canopy_open_bmc.Packet.{rom_response_header, parse_header, max_packet_size}
use ocp_canopy_open_bmc.Packet.Layout.{length-header_bytes}
use ocp_canopy_open_bmc.Packet.Frame.{
  put_frame, reply_frame, ack_frame, reply_frame-IsReplyTo, ack_frame-IsReplyTo, length-reply_frame,
}
use ocp_canopy_open_bmc.Health
use ocp_canopy_open_bmc.Health.Refine.{acknowledge, handle-acknowledge}
use ocp_canopy_open_bmc.Rom
use ocp_canopy_open_bmc.Rom.{RomService}
use ocp_canopy_open_bmc.Rom.Refine.{is_known, respond as rom_respond, handle-respond as rom-respond}
use ocp_canopy_open_bmc.Smif.Response.Frames.{reply, Small}
use ocp_canopy_open_bmc.Smif.I2c.{I2cDriver}
use ocp_canopy_open_bmc.Smif.Ev.Answers.{ValidIfAny}
use ocp_canopy_open_bmc.Smif.Service
use ocp_canopy_open_bmc.Smif.Service.{SmifService}
use ocp_canopy_open_bmc.Smif.Service.Refine.{handle-Framed, handle-ValidIfAny}
use ocp_canopy_open_bmc.Daemon.{Event, register_handler, run}
use ocp_canopy_open_bmc.Daemon.Handlers.{IsPacket, Answers, AnswersIfAny, Acts, IsHandler, IsReady}
use ocp_canopy_open_bmc.Daemon.Replies.{Replies, PacketEvent, run-Replies}
use ocp_canopy_open_bmc.Main.{Services, registered, main_daemon}

reply_frame-Answers :
    (packet body : Bytes)
    → IsPacket packet
    → 8 ≤ length packet
    → 8 + length body ≤ max_packet_size
    → Answers packet (reply_frame (parse_header packet) body)
reply_frame-Answers packet body is_packet long fits =
    let size = length-reply_frame (parse_header packet) body in
    record {
      is_reply = reply_frame-IsReplyTo packet body is_packet.0 long (omega (arith, fits));
      has_header = omega (arith, size);
      is_small = omega (arith, size, fits);
    }

pub ack_frame-Answers :
    (packet : Bytes)
    → IsPacket packet
    → 8 ≤ length packet
    → Answers packet (ack_frame (parse_header packet))
ack_frame-Answers packet is_packet long = record {
  is_reply = ack_frame-IsReplyTo packet is_packet.0 long;
  has_header = omega (arith, length-header_bytes (rom_response_header (parse_header packet) 8));
  is_small = omega (arith, length-header_bytes (rom_response_header (parse_header packet) 8));
}

health-Acts :
    (packet : Bytes) → IsPacket packet → 8 ≤ length packet → Acts packet (Health.handle packet)
health-Acts packet is_packet long = record {
  frame = acknowledge packet max_packet_size;
  puts = λ response size.
      handle-acknowledge packet response ∙ ap (λ n. put_frame (acknowledge packet n) response) size;
  answers =
      if-intro (AnswersIfAny packet) (ltb (length packet) 8 || false) (λ short. tt)
        (λ _. reply_frame-Answers packet (le_bytes 4 0) is_packet long (omega arith));
}

rom-Acts :
    (s : RomService) (packet : Bytes)
    → IsPacket packet
    → 8 ≤ length packet
    → Acts packet (λ response. (Rom.handle s packet response).0)
rom-Acts s packet is_packet long = record {
  frame = rom_respond packet max_packet_size;
  puts = λ response size.
      rom-respond s packet response ∙ ap (λ n. put_frame (rom_respond packet n) response) size;
  answers =
      if-intro (AnswersIfAny packet)
        (ltb (length packet) 8 || (false || not (is_known (parse_header packet).command))) (λ _. tt)
        (λ _. ack_frame-Answers packet is_packet long);
}

reply-AnswersIfAny :
    (packet : Bytes) (body : Option Bytes)
    → IsPacket packet
    → 8 ≤ length packet
    → Small max_packet_size body
    → AnswersIfAny packet (reply (parse_header packet) body)
reply-AnswersIfAny packet none is_packet long small = tt
reply-AnswersIfAny packet (some body) is_packet long small =
    reply_frame-Answers packet body is_packet long small.0

module _ {World : Type 0} (driver : I2cDriver World) where
  smif-Acts :
      (s : SmifService World) (packet : Bytes)
      → ValidIfAny s.ev_storage
      → IsPacket packet
      → 8 ≤ length packet
      → Acts packet (λ response. (Service.handle driver s packet response).0)
  smif-Acts s packet valid is_packet long =
      let framed = handle-Framed driver s packet max_packet_size valid in
      record {
        frame = reply (parse_header packet) framed.body;
        puts = framed.puts;
        answers = reply-AnswersIfAny packet framed.body is_packet long framed.fits;
      }

  -- The store behind the SMIF service is within its limits.
  abbrev pub StoreValid : Services World → Type 0
  StoreValid w = ValidIfAny w.smif.ev_storage

  registered-IsHandler : All (IsHandler StoreValid) (registered driver)
  unfolding registered register_handler
  registered-IsHandler = (
    record {
      acts = λ w packet valid is_packet long. rom-Acts w.rom packet is_packet long;
      keeps = λ w request response valid. valid;
    },
    (
      record {
        acts = λ w packet valid is_packet long. smif-Acts w.smif packet valid is_packet long;
        keeps = λ w request response valid. handle-ValidIfAny driver w.smif request response valid;
      },
      (
        record {
          acts = λ w packet valid is_packet long. health-Acts packet is_packet long;
          keeps = λ w request response valid. valid;
        },
        tt,
      ),
    ),
  )

  pub main_daemon-IsReady :
      (services : Services World)
      → StoreValid services
      → IsReady StoreValid (main_daemon driver services)
  unfolding main_daemon
  main_daemon-IsReady services valid = record {
    recv_size = length-replicate {A = ℕ} max_packet_size 0;
    resp_size = length-replicate {A = ℕ} max_packet_size 0;
    handlers_hold = registered-IsHandler;
    inv = valid;
  }

  -- The daemon of `main`, started with a store within its limits or without one, whatever I2C
  -- driver it has: for any row of signals and of reads that fail or return at most 4096 bytes, it
  -- writes at most one packet for each packet read, in the order of the reads, and each packet
  -- written echoes the sequence number, service and version of that read, and has its own length
  -- of 8 to 4096 bytes as its size field.
  pub main-Replies :
      (services : Services World) (es : List Event)
      → StoreValid services
      → All PacketEvent es
      → Replies es (run es (main_daemon driver services)).1
  main-Replies services es valid each =
      run-Replies StoreValid es (main_daemon driver services) each
        (main_daemon-IsReady services valid)
