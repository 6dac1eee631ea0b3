-- ===== src/Daemon/Handlers.antt =====
-- What the daemon needs of its handlers, and the round in which it reads a packet.
use ocp_canopy_open_bmc.Common.{
  ℕ, ◌≤◌, ◌≡◌, inl, inr, refl, ap, sym, subst, ◌∙◌, Bool, false, ltb, ◌==◌, if◌then◌else◌,
  Bool-cases, Option-cases, le→ltb, Option, none, some, List, [], ◌∷◌, arith, Bytes, IsBytes,
  length, All, take, drop, take-append, write_at, write_at-front,
}
use ocp_canopy_open_bmc.Packet.{parse_header, max_packet_size}
use ocp_canopy_open_bmc.Packet.Frame.{
  Handled, put_frame, IsReplyTo, length-put_frame, put_frame-take,
}
use ocp_canopy_open_bmc.Daemon.{
  ServiceHandler, Handlers, Output, sent, ChifDaemon, find_handler, outputs_of, on_packet, on_read,
}

-- A packet that the kernel driver may deliver.
abbrev pub IsPacket : Bytes → Type 0
IsPacket packet = IsBytes packet × (length packet ≤ max_packet_size)

-- A frame that answers a packet, in a buffer of the daemon's size.
pub record Answers (packet : Bytes) (frame : Bytes) : Type 0 where
  pub is_reply : IsReplyTo packet frame
  pub has_header : 8 ≤ length frame
  pub is_small : length frame ≤ max_packet_size

abbrev pub AnswersIfAny : Bytes → Option Bytes → Type 0
AnswersIfAny packet none = Unit
AnswersIfAny packet (some frame) = Answers packet frame

-- What a handler does for a packet to a buffer of the daemon's size: it puts an answer in front, or
-- leaves the buffer.
pub record Acts (packet : Bytes) (handler : Bytes → Handled) : Type 0 where
  pub frame : Option Bytes
  pub puts :
      (response : Bytes)
      → length response ≡ max_packet_size
      → handler response ≡ put_frame frame response
  pub answers : AnswersIfAny packet frame

-- What the daemon relies on of a handler, with an invariant of the world: it acts so on each packet
-- with a header, and keeps the invariant.
pub record IsHandler {World : Type 0} (Inv : World → Type 0) (h : ServiceHandler World)
    : Type 0 where
  pub acts :
      (w : World) (packet : Bytes)
      → Inv w
      → IsPacket packet
      → 8 ≤ length packet
      → Acts packet (λ response. (h.handle w packet response).0)
  pub keeps : (w : World) (request response : Bytes) → Inv w → Inv (h.handle w request response).1

pub outputs_of-frame :
    (f resp : Bytes) → 8 ≤ length f → outputs_of (put_frame (some f) resp) ≡ sent f ∷ []
unfolding outputs_of
outputs_of-frame f resp has_header =
    let long : ltb (length f) 8 ≡ false = le→ltb (length f) 8 has_header in
    rw (long, put_frame-take f resp)

pub outputs_of-sent :
    (f resp packet : Bytes) → Answers packet f → outputs_of (put_frame (some f) resp) ≡ sent f ∷ []
outputs_of-sent f resp packet answer = outputs_of-frame f resp answer.has_header

pub put_frame-size :
    (frame : Option Bytes) (packet resp : Bytes)
    → AnswersIfAny packet frame
    → length resp ≡ max_packet_size
    → length (put_frame frame resp).1 ≡ max_packet_size
put_frame-size none packet resp answer size = size
put_frame-size (some f) packet resp answer size =
    length-put_frame f resp (omega (arith, size, answer.is_small)) ∙ size

pub received :
    (packet buf : Bytes)
    → length packet ≤ length buf
    → take (length packet) (write_at 0 packet buf) ≡ packet
received packet buf room =
    ap (take (length packet)) (write_at-front packet buf room)
    ∙ take-append (length packet) packet (drop (length packet) buf) refl

module _ {World : Type 0} (Inv : World → Type 0) where
  -- The state of the daemon between two rounds.
  pub record IsReady (d : ChifDaemon World) : Type 0 where
    pub recv_size : length d.recv_buf ≡ max_packet_size
    pub resp_size : length d.resp_buf ≡ max_packet_size
    pub handlers_hold : All (IsHandler Inv) d.handlers
    pub inv : Inv d.world

  find_hit : {g h : ServiceHandler World} → IsHandler Inv g → some g ≡ some h → IsHandler Inv h
  find_hit {g} {h} holds same =
      subst (IsHandler Inv) (ap (λ o. elim o [ none ↦ g | some x ↦ x ]) same) holds

  find_handler-IsHandler :
      (id : ℕ) (hs : Handlers World) (h : ServiceHandler World)
      → All (IsHandler Inv) hs
      → find_handler id hs ≡ some h
      → IsHandler Inv h
  unfolding find_handler
  find_handler-IsHandler id [] h each f = cc
  find_handler-IsHandler id (g ∷ hs) h each f = elim (Bool-cases (g.service_id == id)) [
    | inl hit ↦ find_hit each.0 (rw hit at f)
    | inr miss ↦ find_handler-IsHandler id hs h each.1 (rw miss at f)
  ]

  abbrev pub HandlerIfAny : Option (ServiceHandler World) → Type 0
  HandlerIfAny none = Unit
  HandlerIfAny (some h) = IsHandler Inv h

  pub on_packet-IsReady :
      (h : Option (ServiceHandler World)) (packet : Bytes) (d : ChifDaemon World)
      → HandlerIfAny h
      → IsReady d
      → IsPacket packet
      → 8 ≤ length packet
      → IsReady (on_packet h packet d).0
  unfolding on_packet
  on_packet-IsReady none packet d holds ready is_packet long = ready
  on_packet-IsReady (some h) packet d holds ready is_packet long =
      let act = holds.acts d.world packet ready.inv is_packet long in
      let put = act.puts d.resp_buf ready.resp_size in
      record {
        recv_size = ready.recv_size;
        resp_size =
            ap (λ handled. length handled.1) put
            ∙ put_frame-size act.frame packet d.resp_buf act.answers ready.resp_size;
        handlers_hold = ready.handlers_hold;
        inv = holds.keeps d.world packet d.resp_buf ready.inv;
      }

  pub find_handler-HandlerIfAny :
      (id : ℕ) (hs : Handlers World) → All (IsHandler Inv) hs → HandlerIfAny (find_handler id hs)
  find_handler-HandlerIfAny id hs each = elim (Option-cases (find_handler id hs)) [
    | inl missing ↦ subst HandlerIfAny (sym missing) tt
    | inr (h, found) ↦ subst HandlerIfAny (sym found) (find_handler-IsHandler id hs h each found)
  ]

  pub retuned-IsReady :
      (d : ChifDaemon World) (up : Bool) (errors retries : ℕ)
      → IsReady d
      → IsReady
          (record d { running = up; consecutive_errors = errors; error_retry_counter = retries })
  retuned-IsReady d up errors retries ready = record {
    recv_size = ready.recv_size;
    resp_size = ready.resp_size;
    handlers_hold = ready.handlers_hold;
    inv = ready.inv;
  }

  -- In a ready daemon that has a handler for the packet's service: if the handler's answer to a
  -- packet with a header is a frame, then the round that reads the packet writes that frame, and
  -- nothing else.
  on_read-sent :
      (packet : Bytes) (d : ChifDaemon World) (h : ServiceHandler World) (f : Bytes)
      (ready : IsReady d) (is_packet : IsPacket packet) (long : 8 ≤ length packet)
      (holds : IsHandler Inv h)
      → find_handler (parse_header packet).service_id d.handlers ≡ some h
      → (holds.acts d.world packet ready.inv is_packet long).frame ≡ some f
      → (on_read packet d).1 ≡ sent f ∷ []
  unfolding on_read on_packet
  on_read-sent packet d h f ready is_packet long holds found answered_by =
      let filled = write_at 0 packet d.recv_buf in
      let room : length packet ≤ length d.recv_buf = omega (arith, is_packet.1, ready.recv_size) in
      let reset : ChifDaemon World = record d {
        recv_buf = filled;
        consecutive_errors = 0;
        error_retry_counter = 0;
      } in
      let act = holds.acts d.world packet ready.inv is_packet long in
      let whole : ltb (length packet) 8 ≡ false = le→ltb (length packet) 8 long in
      let outcome : Bytes → ChifDaemon World × List Output = λ request.
        on_packet (find_handler (parse_header request).service_id d.handlers) request reset in
      let branch : Bool → ChifDaemon World × List Output =
        λ b. if b then (reset, []) else outcome (take (length packet) filled) in
      let answer : Answers packet f = subst (AnswersIfAny packet) answered_by act.answers in
      ap (λ b. (branch b).1) whole
      ∙ (ap (λ request. (outcome request).1) (received packet d.recv_buf room)
          ∙ (ap (λ o. (on_packet o packet reset).1) found
              ∙ (ap outputs_of (act.puts d.resp_buf ready.resp_size)
                  ∙ (ap (λ frame. outputs_of (put_frame frame d.resp_buf)) answered_by
                      ∙ outputs_of-sent f d.resp_buf packet answer))))
