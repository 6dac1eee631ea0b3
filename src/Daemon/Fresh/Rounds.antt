-- ===== src/Daemon/Fresh/Rounds.antt =====
-- One round of the daemon against the server without buffers.
use ocp_canopy_open_bmc.Common.{
  ℕ, ◌+◌, ◌≤◌, ◌≡◌, refl, ap, sym, ◌∙◌, ltb, leb, ltb→le, if-intro, Bool-cases, inl, inr, write_at,
  length-write_at, subst, ◌==◌, Option, none, some, List, [], ◌∷◌, ◌++◌, arith, Bytes, length,
  length-replicate, All,
}
use ocp_canopy_open_bmc.Packet.{parse_header, max_packet_size}
use ocp_canopy_open_bmc.Daemon.{
  eintr, max_consecutive_errors, int_pow2, delay, ReadResult, ServiceHandler, Handlers, got,
  nothing, read_error, read, Output, sent, slept, undefined_pause, pause_of, ChifDaemon,
  find_handler, outputs_of, on_error, on_packet, on_read, step,
}
use ocp_canopy_open_bmc.Daemon.Handlers.{
  IsPacket, AnswersIfAny, IsReady, HandlerIfAny, outputs_of-sent, received,
  find_handler-HandlerIfAny,
}
use ocp_canopy_open_bmc.Packet.Frame.{put_frame}
use ocp_canopy_open_bmc.Daemon.Replies.{PacketEvent}
use ocp_canopy_open_bmc.Daemon.Fresh.{
  packets_sent, zeros, fresh_packet, fresh_round, IsBlind, BlindIfAny, Serves, served_for,
}

pub length-zeros : length zeros ≡ max_packet_size
length-zeros = length-replicate {A = ℕ} max_packet_size 0

pub packets_sent-append :
    (xs ys : List Output) → packets_sent (xs ++ ys) ≡ packets_sent xs ++ packets_sent ys
packets_sent-append [] ys = refl
packets_sent-append (sent frame ∷ xs) ys = ap (◌∷◌ frame) (packets_sent-append xs ys)
packets_sent-append (slept n ∷ xs) ys = packets_sent-append xs ys
packets_sent-append (undefined_pause ∷ xs) ys = packets_sent-append xs ys

-- What goes out for an answer does not depend on the rest of the buffer.
outputs_of-answer :
    (frame : Option Bytes) (packet first second : Bytes)
    → AnswersIfAny packet frame
    → outputs_of (put_frame frame first) ≡ outputs_of (put_frame frame second)
unfolding outputs_of
outputs_of-answer none packet first second answer = refl
outputs_of-answer (some f) packet first second answer =
    outputs_of-sent f first packet answer ∙ sym (outputs_of-sent f second packet answer)

pause_of-silent : (factor : Option ℕ) → packets_sent (pause_of factor ∷ []) ≡ []
unfolding pause_of
pause_of-silent none = refl
pause_of-silent (some factor) = refl

module _ {World : Type 0} (Inv : World → Type 0) where
  on_packet-Serves :
      (h : Option (ServiceHandler World)) (packet : Bytes) (d : ChifDaemon World)
      → HandlerIfAny Inv h
      → BlindIfAny h
      → IsReady Inv d
      → IsPacket packet
      → 8 ≤ length packet
      → Serves d (on_packet h packet d) (fresh_packet h packet d.world)
  unfolding on_packet
  on_packet-Serves none packet d holds blind ready is_packet long = record {
    world_is = refl;
    sends = refl;
    same_handlers = refl;
    same_running = refl;
  }
  on_packet-Serves (some h) packet d holds blind ready is_packet long =
      let act = holds.acts d.world packet ready.inv is_packet long in
      record {
        world_is = blind d.world packet d.resp_buf ready.resp_size;
        sends = ap packets_sent (
            ap outputs_of (act.puts d.resp_buf ready.resp_size)
            ∙ outputs_of-answer act.frame packet d.resp_buf zeros act.answers
            ∙ sym (ap outputs_of (act.puts zeros length-zeros)));
        same_handlers = refl;
        same_running = refl;
      }

  find_handler-BlindIfAny :
      (id : ℕ) (hs : Handlers World) → All IsBlind hs → BlindIfAny (find_handler id hs)
  unfolding find_handler
  find_handler-BlindIfAny id [] each = tt
  find_handler-BlindIfAny id (g ∷ hs) each =
      if-intro BlindIfAny (g.service_id == id) (λ _. each.0)
        (λ _. find_handler-BlindIfAny id hs each.1)

  on_read-Serves :
      (packet : Bytes) (d : ChifDaemon World)
      → IsPacket packet
      → IsReady Inv d
      → All IsBlind d.handlers
      → Serves d (on_read packet d) (fresh_round d.handlers packet d.world)
  unfolding on_read
  on_read-Serves packet d is_packet ready blind =
      let filled = write_at 0 packet d.recv_buf in
      let room : length packet ≤ length d.recv_buf = omega (arith, is_packet.1, ready.recv_size) in
      let reset : ChifDaemon World = record d {
        recv_buf = filled;
        consecutive_errors = 0;
        error_retry_counter = 0;
      } in
      let reset_ready : IsReady Inv reset = record {
        recv_size = length-write_at 0 packet d.recv_buf ∙ ready.recv_size;
        resp_size = ready.resp_size;
        handlers_hold = ready.handlers_hold;
        inv = ready.inv;
      } in
      let id = (parse_header packet).service_id in
      let outcome : Bytes → ChifDaemon World × List Output = λ request.
        on_packet (find_handler (parse_header request).service_id d.handlers) request reset in
      elim (Bool-cases (ltb (length packet) 8)) [
        | inl short ↦
            rw short
              (record { world_is = refl; sends = refl; same_handlers = refl; same_running = refl })
        | inr long ↦
            let served =
              on_packet-Serves (find_handler id d.handlers) packet reset
                (find_handler-HandlerIfAny Inv id d.handlers ready.handlers_hold)
                (find_handler-BlindIfAny id d.handlers blind) reset_ready is_packet
                (ltb→le (length packet) 8 long) in
            rw long (
              subst
                (λ request.
                  Serves d (outcome request)
                    (fresh_packet (find_handler id d.handlers) packet d.world))
                (sym (received packet d.recv_buf room))
                (record {
                  world_is = served.world_is;
                  sends = served.sends;
                  same_handlers = served.same_handlers;
                  same_running = served.same_running;
                }))
      ]

  -- A round that leaves all but the counters of errors, and sends no packet.
  abbrev IsIdle : ChifDaemon World → ChifDaemon World × List Output → Type 0
  IsIdle d out = Serves d out (d.world, [])

  on_error-IsIdle : (errno : ℕ) (d : ChifDaemon World) → IsIdle d (on_error errno d)
  unfolding on_error delay
  on_error-IsIdle errno d =
      if-intro (IsIdle d) (errno == eintr)
        (λ _. record { world_is = refl; sends = refl; same_handlers = refl; same_running = refl })
        (λ _.
          if-intro (IsIdle d) (leb max_consecutive_errors (d.consecutive_errors + 1))
            (λ _. record {
              world_is = refl;
              sends = pause_of-silent (int_pow2 d.error_retry_counter);
              same_handlers = refl;
              same_running = refl;
            })
            (λ _. record {
              world_is = refl;
              sends = refl;
              same_handlers = refl;
              same_running = refl;
            }))

  pub step-Serves :
      (r : ReadResult) (d : ChifDaemon World)
      → PacketEvent (read r)
      → IsReady Inv d
      → All IsBlind d.handlers
      → Serves d (step r d) (served_for d.handlers r d.world)
  unfolding step
  step-Serves nothing d is_packet ready blind = record {
    world_is = refl;
    sends = refl;
    same_handlers = refl;
    same_running = refl;
  }
  step-Serves (read_error errno) d is_packet ready blind = on_error-IsIdle errno d
  step-Serves (got []) d is_packet ready blind = record {
    world_is = refl;
    sends = refl;
    same_handlers = refl;
    same_running = refl;
  }
  step-Serves (got (b ∷ bs)) d is_packet ready blind =
      on_read-Serves (b ∷ bs) d is_packet ready blind
