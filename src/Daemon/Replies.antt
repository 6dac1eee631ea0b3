-- ===== src/Daemon/Replies.antt =====
-- The packets that the daemon writes against those that it reads.
use ocp_canopy_open_bmc.Common.{
  ◌+◌, ℕ, ◌≤◌, ◌≡◌, sym, subst, ◌∙◌, true, false, ltb, leb, ◌==◌, if-intro, ltb→le, Option, none,
  some, List, [], ◌∷◌, ◌++◌, arith, Bytes, length, length-write_at, All, write_at,
}
use ocp_canopy_open_bmc.Packet.{parse_header, max_packet_size}
use ocp_canopy_open_bmc.Packet.Frame.{put_frame}
use ocp_canopy_open_bmc.Daemon.{
  eintr, max_consecutive_errors, ServiceHandler, ReadResult, got, nothing, read_error, Event,
  signal, read, Output, sent, int_pow2, pause_of, delay, ChifDaemon, find_handler, on_error,
  outputs_of, on_packet, on_read, step, stop, loop, run,
}
use ocp_canopy_open_bmc.Daemon.Handlers.{
  IsPacket, Answers, AnswersIfAny, IsReady, HandlerIfAny, outputs_of-sent, received,
  on_packet-IsReady, find_handler-HandlerIfAny, retuned-IsReady,
}

-- An output that is no packet.
abbrev pub IsPause : Output → Type 0
IsPause (sent frame) = ⊥
IsPause _ = Unit

pause_of-IsPause : (factor : Option ℕ) → IsPause (pause_of factor)
unfolding pause_of
pause_of-IsPause none = tt
pause_of-IsPause (some factor) = tt

delay-IsPause : (k : ℕ) → IsPause (delay k)
unfolding delay
delay-IsPause k = pause_of-IsPause (int_pow2 k)

-- The outputs of a daemon for some events.
pub data Replies : List Event → List Output → Type 0 where
  over : {es : List Event} → Replies es []
  signalled : {es : List Event} {os : List Output} → Replies es os → Replies (signal ∷ es) os
  silent :
      {r : ReadResult} {es : List Event} {os : List Output}
      → Replies es os
      → Replies (read r ∷ es) os
  answered :
      {packet frame : Bytes} {es : List Event} {os : List Output}
      → Answers packet frame
      → Replies es os
      → Replies (read (got packet) ∷ es) (sent frame ∷ os)
  paused :
      {errno : ℕ} {o : Output} {es : List Event} {os : List Output}
      → IsPause o
      → Replies es os
      → Replies (read (read_error errno) ∷ es) (o ∷ os)

abbrev pub PacketEvent : Event → Type 0
PacketEvent (read (got packet)) = IsPacket packet
PacketEvent _ = Unit

module _ {World : Type 0} (Inv : World → Type 0) where
  outputs_of-put_frame :
      (frame : Option Bytes) (packet : Bytes) (resp : Bytes) (es : List Event) (os : List Output)
      → AnswersIfAny packet frame
      → length resp ≡ max_packet_size
      → Replies es os
      → Replies (read (got packet) ∷ es) (outputs_of (put_frame frame resp) ++ os)
  unfolding outputs_of
  outputs_of-put_frame none packet resp es os answer size later = silent later
  outputs_of-put_frame (some f) packet resp es os answer size later =
      subst (λ out. Replies (read (got packet) ∷ es) (out ++ os))
        (sym (outputs_of-sent f resp packet answer)) (answered answer later)

  on_packet-Replies :
      (h : Option (ServiceHandler World)) (packet : Bytes) (d : ChifDaemon World) (es : List Event)
      (os : List Output)
      → HandlerIfAny Inv h
      → IsReady Inv d
      → IsPacket packet
      → 8 ≤ length packet
      → Replies es os
      → Replies (read (got packet) ∷ es) ((on_packet h packet d).1 ++ os)
  unfolding on_packet
  on_packet-Replies none packet d es os holds ready is_packet long later = silent later
  on_packet-Replies (some h) packet d es os holds ready is_packet long later =
      let act = holds.acts d.world packet ready.inv is_packet long in
      let put = act.puts d.resp_buf ready.resp_size in
      subst (λ handled. Replies (read (got packet) ∷ es) (outputs_of handled ++ os)) (sym put)
        (outputs_of-put_frame act.frame packet d.resp_buf es os act.answers ready.resp_size later)

  -- A packet of some bytes, in the round that read it.
  record OnRead (packet : Bytes) (out : ChifDaemon World × List Output) : Type 0 where
    is_ready : IsReady Inv out.0
    replies :
        (es : List Event) (os : List Output)
        → Replies es os
        → Replies (read (got packet) ∷ es) (out.1 ++ os)

  on_packet-OnRead :
      (h : Option (ServiceHandler World)) (packet : Bytes) (d : ChifDaemon World)
      → HandlerIfAny Inv h
      → IsReady Inv d
      → IsPacket packet
      → 8 ≤ length packet
      → OnRead packet (on_packet h packet d)
  on_packet-OnRead h packet d holds ready is_packet long = record {
    is_ready = on_packet-IsReady Inv h packet d holds ready is_packet long;
    replies = λ es os later. on_packet-Replies h packet d es os holds ready is_packet long later;
  }

  on_read-OnRead :
      (packet : Bytes) (d : ChifDaemon World)
      → IsPacket packet
      → IsReady Inv d
      → OnRead packet (on_read packet d)
  unfolding on_read
  on_read-OnRead packet d is_packet ready =
      let filled = write_at 0 packet d.recv_buf in
      let room : length packet ≤ length d.recv_buf = omega (arith, is_packet.1, ready.recv_size) in
      let reset : ChifDaemon World = record d {
        recv_buf = filled;
        consecutive_errors = 0;
        error_retry_counter = 0;
      } in
      let reset_ready : IsReady Inv reset = record {
        recv_size = length-write_at 0 packet d.recv_buf ∙ ready.recv_size;
        resp_size = ready.resp_size;
        handlers_hold = ready.handlers_hold;
        inv = ready.inv;
      } in
      if-intro (OnRead packet) (ltb (length packet) 8)
        (λ short. record { is_ready = reset_ready; replies = λ es os later. silent later })
        (λ long.
          subst
            (λ request.
              OnRead packet (
                on_packet (find_handler (parse_header request).service_id d.handlers) request
                  reset))
            (sym (received packet d.recv_buf room))
            (on_packet-OnRead (find_handler (parse_header packet).service_id d.handlers) packet
              reset
              (find_handler-HandlerIfAny Inv (parse_header packet).service_id d.handlers
                ready.handlers_hold)
              reset_ready is_packet (ltb→le (length packet) 8 long)))

  on_error-IsReady :
      (errno : ℕ) (d : ChifDaemon World) → IsReady Inv d → IsReady Inv (on_error errno d).0
  unfolding on_error
  on_error-IsReady errno d ready =
      let errors = d.consecutive_errors + 1 in
      if-intro (λ (out : ChifDaemon World × List Output). IsReady Inv out.0) (errno == eintr)
        (λ _. ready)
        (λ _.
          if-intro (λ (out : ChifDaemon World × List Output). IsReady Inv out.0)
            (leb max_consecutive_errors errors)
            (λ _. retuned-IsReady Inv d d.running errors (d.error_retry_counter + 1) ready)
            (λ _. retuned-IsReady Inv d d.running errors d.error_retry_counter ready))

  on_error-Replies :
      (errno : ℕ) (d : ChifDaemon World) (es : List Event) (os : List Output)
      → Replies es os
      → Replies (read (read_error errno) ∷ es) ((on_error errno d).1 ++ os)
  unfolding on_error
  on_error-Replies errno d es os later =
      let errors = d.consecutive_errors + 1 in
      let P : ChifDaemon World × List Output → Type 0 =
        λ out. Replies (read (read_error errno) ∷ es) (out.1 ++ os) in
      if-intro P (errno == eintr) (λ _. silent later)
        (λ _.
          if-intro P (leb max_consecutive_errors errors)
            (λ _. paused (delay-IsPause d.error_retry_counter) later) (λ _. silent later))

  pub step-IsReady :
      (r : ReadResult) (d : ChifDaemon World)
      → PacketEvent (read r)
      → IsReady Inv d
      → IsReady Inv (step r d).0
  unfolding step
  step-IsReady nothing d is_packet ready = ready
  step-IsReady (read_error errno) d is_packet ready = on_error-IsReady errno d ready
  step-IsReady (got []) d is_packet ready = ready
  step-IsReady (got (b ∷ bs)) d is_packet ready =
      (on_read-OnRead (b ∷ bs) d is_packet ready).is_ready

  step-Replies :
      (r : ReadResult) (d : ChifDaemon World) (es : List Event) (os : List Output)
      → PacketEvent (read r)
      → IsReady Inv d
      → Replies es os
      → Replies (read r ∷ es) ((step r d).1 ++ os)
  unfolding step
  step-Replies nothing d es os is_packet ready later = silent later
  step-Replies (read_error errno) d es os is_packet ready later =
      on_error-Replies errno d es os later
  step-Replies (got []) d es os is_packet ready later = silent later
  step-Replies (got (b ∷ bs)) d es os is_packet ready later =
      (on_read-OnRead (b ∷ bs) d is_packet ready).replies es os later

  loop-Replies :
      (es : List Event) (d : ChifDaemon World)
      → All PacketEvent es
      → IsReady Inv d
      → Replies es (loop es d).1
  unfolding loop stop
  loop-Replies [] d each ready = over
  loop-Replies (signal ∷ es) d each ready = signalled (
      loop-Replies es (stop d) each.1
        (retuned-IsReady Inv d false d.consecutive_errors d.error_retry_counter ready))
  loop-Replies (read r ∷ es) d each ready =
      if-intro (λ (out : ChifDaemon World × List Output). Replies (read r ∷ es) out.1) d.running
        (λ _.
          step-Replies r d es (loop es (step r d).0).1 each.0 ready
            (loop-Replies es (step r d).0 each.1 (step-IsReady r d each.0 ready)))
        (λ _. over)

  -- Take handlers that, by an invariant of what they share, answer packets of at most 4096 bytes
  -- with replies of 8 to 4096 bytes or not at all. From a daemon with such handlers, buffers of 4096
  -- bytes and the invariant, a run on any row of reads and signals writes at most one packet for
  -- each packet read, in the order of the reads, and each packet written is a reply to that read.
  pub run-Replies :
      (es : List Event) (d : ChifDaemon World)
      → All PacketEvent es
      → IsReady Inv d
      → Replies es (run es d).1
  unfolding run
  run-Replies es d each ready =
      loop-Replies es (record d { running = true; consecutive_errors = 0; error_retry_counter = 0 })
        each (retuned-IsReady Inv d true 0 0 ready)
