-- ===== src/Daemon/Fresh.antt =====
-- The daemon against a server that has no buffers: it hands each packet to its handler with a
-- buffer of zeros of its own.
pub mod Rounds
pub mod Runs
use ocp_canopy_open_bmc.Common.{
  ℕ, ◌+◌, ◌≤◌, ◌≡◌, refl, ap, sym, ◌∙◌, true, false, ltb, leb, ltb→le, if-intro, Bool-cases, inl,
  inr, write_at, length-write_at, Bool, subst, ◌==◌, if◌then◌else◌, Option, none, some, List, [],
  ◌∷◌, ◌++◌, append_assoc, arith, Bytes, length, length-replicate, All, replicate,
}
use ocp_canopy_open_bmc.Packet.{parse_header, max_packet_size}
use ocp_canopy_open_bmc.Daemon.{
  eintr, max_consecutive_errors, int_pow2, delay, ReadResult, ServiceHandler, Handlers, got,
  nothing, read_error, Event, signal, read, Output, sent, slept, undefined_pause, pause_of,
  ChifDaemon, find_handler, outputs_of, on_error, on_packet, on_read, step, stop, loop, run,
}
use ocp_canopy_open_bmc.Daemon.Handlers.{
  IsPacket, AnswersIfAny, IsReady, HandlerIfAny, outputs_of-sent, received,
  find_handler-HandlerIfAny,
}
use ocp_canopy_open_bmc.Packet.Frame.{put_frame}
use ocp_canopy_open_bmc.Daemon.Replies.{PacketEvent, step-IsReady}

-- The packets read before the first signal.
abbrev pub packets_read : List Event → List Bytes
packets_read [] = []
packets_read (signal ∷ es) = []
packets_read (read (got packet) ∷ es) = packet ∷ packets_read es
packets_read (read _ ∷ es) = packets_read es

-- The packets written.
abbrev pub packets_sent : List Output → List Bytes
packets_sent [] = []
packets_sent (sent frame ∷ os) = frame ∷ packets_sent os
packets_sent (_ ∷ os) = packets_sent os

abbrev pub zeros : Bytes
zeros = replicate max_packet_size 0

module _ {World : Type 0} where
  -- What a handler makes of a packet, if the service has one: the world behind it and the answer.
  abbrev pub fresh_packet : Option (ServiceHandler World) → Bytes → World → World × List Bytes
  fresh_packet none packet w = (w, [])
  fresh_packet (some h) packet w =
      let (handled, w') = h.handle w packet zeros in (w', packets_sent (outputs_of handled))

  abbrev pub fresh_round : Handlers World → Bytes → World → World × List Bytes
  fresh_round handlers packet w =
      if ltb (length packet) 8
      then (w, [])
      else fresh_packet (find_handler (parse_header packet).service_id handlers) packet w

  abbrev pub fresh_serve : Handlers World → List Bytes → World → World × List Bytes
  fresh_serve handlers [] w = (w, [])
  fresh_serve handlers (packet ∷ packets) w =
      let (w', now) = fresh_round handlers packet w in
      let (last, later) = fresh_serve handlers packets w' in (last, now ++ later)

  -- The world behind a packet does not depend on what the response buffer holds.
  abbrev pub IsBlind : ServiceHandler World → Type 0
  IsBlind h =
      (w : World) (packet response : Bytes)
      → length response ≡ max_packet_size
      → (h.handle w packet response).1 ≡ (h.handle w packet zeros).1

  abbrev pub BlindIfAny : Option (ServiceHandler World) → Type 0
  BlindIfAny none = Unit
  BlindIfAny (some h) = IsBlind h

  -- What the server does for the packets that one read gives.
  abbrev pub served_for : Handlers World → ReadResult → World → World × List Bytes
  served_for handlers (got packet) w = fresh_round handlers packet w
  served_for handlers _ w = (w, [])

  -- A round leaves this world, sends these packets, and leaves the handlers and the flag.
  pub record Serves (d : ChifDaemon World) (out : ChifDaemon World × List Output)
      (served : World × List Bytes) : Type 0 where
    pub world_is : out.0.world ≡ served.0
    pub sends : packets_sent out.1 ≡ served.1
    pub same_handlers : out.0.handlers ≡ d.handlers
    pub same_running : out.0.running ≡ d.running
