-- ===== src/Packet/Frame.antt =====
-- Responses seen as frames. A handler fills a buffer in place and returns a size; what it means to
-- say is either nothing, or a frame at the front of the buffer with the rest of it untouched.
use ocp_canopy_open_bmc.Common.{
  ℕ, ◌+◌, ◌≤◌, ◌<◌, ◌≡◌, refl, ap, sym, ◌∙◌, ◌++◌, [], Option, none, some, arith, ℤ, pos, negsuc,
  Bytes, IsBytes, length, length-append, length-drop, take, take-append, drop, write_at-front,
  append-nil,
}
use ocp_canopy_open_bmc.Packet.{
  Header, header_bytes, parse_header, response_header, rom_response_header, init_response,
  init_rom_response,
}
use ocp_canopy_open_bmc.Packet.Layout.{
  length-header_bytes, parse_header-header_bytes, parse_header-FitsHeader,
  response_header-FitsHeader, rom_response_header-FitsHeader,
}

-- What `handle` leaves behind: its result and the response buffer.
abbrev pub Handled : Type 0
Handled = ℤ × Bytes

-- "No response".
abbrev pub no_response : Bytes → Handled
no_response resp = (negsuc 0, resp)

-- The meaning of an optional frame in a buffer.
abbrev pub put_frame : Option Bytes → Bytes → Handled
put_frame none resp = no_response resp
put_frame (some frame) resp = (pos (length frame), frame ++ drop (length frame) resp)

-- The frame that answers a request with a payload: the response bit is set.
abbrev pub reply_frame : Header → Bytes → Bytes
reply_frame req body = header_bytes (response_header req (8 + length body)) ++ body

-- The ROM service's frame: a header alone, with the command echoed.
abbrev pub ack_frame : Header → Bytes
ack_frame req = header_bytes (rom_response_header req 8)

-- A frame answers a request: it has the request's sequence number, service and version, and its
-- size field is its length.
pub record IsReplyTo (req frame : Bytes) : Type 0 where
  pub sequence_echoed : (parse_header frame).sequence ≡ (parse_header req).sequence
  pub service_echoed : (parse_header frame).service_id ≡ (parse_header req).service_id
  pub version_echoed : (parse_header frame).version ≡ (parse_header req).version
  pub size_is_length : (parse_header frame).pkt_size ≡ length frame

-- A request with a header that gives this command.
abbrev pub IsCommand : ℕ → Bytes → Type 0
IsCommand c request = (8 ≤ length request) × ((parse_header request).command ≡ c)

pub length-reply_frame :
    (req : Header) (body : Bytes) → length (reply_frame req body) ≡ 8 + length body
length-reply_frame req body = omega (
  arith,
  length-append (header_bytes (response_header req (8 + length body))) body,
  length-header_bytes (response_header req (8 + length body)),
)

-- The frame for a request of at least 8 bytes with a payload, if both fit 16 bits of size, echoes
-- the request's sequence number, service and version, and has its own length as its size field.
pub reply_frame-IsReplyTo :
    (req body : Bytes)
    → IsBytes req
    → 8 ≤ length req
    → 8 + length body < 65536
    → IsReplyTo req (reply_frame (parse_header req) body)
unfolding response_header
reply_frame-IsReplyTo req body b h small =
    let parsed =
      parse_header-header_bytes (response_header (parse_header req) (8 + length body)) body (
        response_header-FitsHeader (parse_header req) (8 + length body)
          (parse_header-FitsHeader req b h) small) in
    record {
      sequence_echoed = ap (λ (p : Header). p.sequence) parsed;
      service_echoed = ap (λ (p : Header). p.service_id) parsed;
      version_echoed = ap (λ (p : Header). p.version) parsed;
      size_is_length =
          ap (λ (p : Header). p.pkt_size) parsed ∙ sym (length-reply_frame (parse_header req) body);
    }

-- The ROM service's frame for a request of at least 8 bytes, a header alone, echoes the request's
-- sequence number, service and version, and has its own length as its size field.
pub ack_frame-IsReplyTo :
    (req : Bytes) → IsBytes req → 8 ≤ length req → IsReplyTo req (ack_frame (parse_header req))
unfolding rom_response_header
ack_frame-IsReplyTo req b h =
    let parsed = rw append-nil at (
      parse_header-header_bytes (rom_response_header (parse_header req) 8) [] (
        rom_response_header-FitsHeader (parse_header req) 8 (parse_header-FitsHeader req b h)
          (omega arith))) in
    record {
      sequence_echoed = ap (λ (p : Header). p.sequence) parsed;
      service_echoed = ap (λ (p : Header). p.service_id) parsed;
      version_echoed = ap (λ (p : Header). p.version) parsed;
      size_is_length =
          ap (λ (p : Header). p.pkt_size) parsed
          ∙ sym (length-header_bytes (rom_response_header (parse_header req) 8));
    }

-- The frame stands at the front of the buffer, which keeps its length.
pub put_frame-take :
    (frame resp : Bytes) → take (length frame) (put_frame (some frame) resp).1 ≡ frame
put_frame-take frame resp = take-append (length frame) frame (drop (length frame) resp) refl

pub length-put_frame :
    (frame resp : Bytes)
    → length frame ≤ length resp
    → length (put_frame (some frame) resp).1 ≡ length resp
length-put_frame frame resp h =
    omega (arith, length-append frame (drop (length frame) resp), length-drop (length frame) resp)

-- `initResponse` and `initRomResponse` in a buffer with room.
pub init_response-front :
    (resp : Bytes) (req : Header) (n : ℕ)
    → 8 ≤ length resp
    → init_response resp req n ≡ header_bytes (response_header req n) ++ drop 8 resp
unfolding init_response header_bytes
init_response-front resp req n h = write_at-front (header_bytes (response_header req n)) resp h

pub init_rom_response-front :
    (resp : Bytes) (req : Header) (n : ℕ)
    → 8 ≤ length resp
    → init_rom_response resp req n ≡ header_bytes (rom_response_header req n) ++ drop 8 resp
unfolding init_rom_response header_bytes
init_rom_response-front resp req n h =
    write_at-front (header_bytes (rom_response_header req n)) resp h
