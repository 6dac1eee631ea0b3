-- ===== src/Rom/Refine.antt =====
-- What the ROM service answers, whatever its state.
use ocp_canopy_open_bmc.Common.{
  ℕ, ◌≡◌, refl, ◌||◌, Bool, true, false, not, ltb, ◌==◌, if◌then◌else◌, Bool-cases, inl, inr,
  Option, none, some, Bytes, length, arith, ltb→le,
}
use ocp_canopy_open_bmc.Packet.{Header, parse_header}
use ocp_canopy_open_bmc.Packet.Layout.{length-header_bytes}
use ocp_canopy_open_bmc.Packet.{rom_response_header}
use ocp_canopy_open_bmc.Packet.Frame.{put_frame, ack_frame, init_rom_response-front}
use ocp_canopy_open_bmc.Rom.{
  RomService, build_header_only_response, handle_begin, handle_record, handle_blob, handle_end,
  dispatch, handle,
}

-- The commands that the service knows.
abbrev pub is_known : ℕ → Bool
is_known c = c == 3 || (c == 4 || (c == 5 || (c == 6 || (c == 7 || c == 12))))

-- A header alone, for every known command, if the buffer holds it.
abbrev pub respond : Bytes → ℕ → Option Bytes
respond request capacity =
    if ltb (length request) 8 || (ltb capacity 8 || not (is_known (parse_header request).command))
    then none
    else some (ack_frame (parse_header request))

build_header_only_response-put_frame :
    (req : Header) (response : Bytes)
    → build_header_only_response req response
      ≡ put_frame (if ltb (length response) 8 then none else some (ack_frame req)) response
unfolding build_header_only_response
build_header_only_response-put_frame req response = elim (Bool-cases (ltb (length response) 8)) [
  | inl small ↦ rw small
  | inr room ↦ rw (
    room,
    length-header_bytes (rom_response_header req 8),
    init_rom_response-front response req 8 (ltb→le _ _ room),
  )
]

dispatch-reply :
    (s : RomService) (req : Header) (request response : Bytes)
    → (dispatch s req request response).0 ≡ (
        if is_known req.command
        then build_header_only_response req response
        else put_frame none response)
unfolding dispatch handle_begin handle_record handle_blob handle_end
dispatch-reply s req request response = ground arith

choose :
    (known small : Bool) (frame response : Bytes)
    → (if known
        then put_frame (if small then none else some frame) response
        else put_frame none response)
      ≡ put_frame (if small || not known then none else some frame) response
choose true true frame response = refl
choose true false frame response = refl
choose false true frame response = refl
choose false false frame response = refl

-- In every state, on every request and buffer, the service puts a header alone that echoes the
-- command in the buffer if the request has 8 bytes, the buffer 8, and the command is one of the six
-- that it knows; otherwise it does not answer and leaves the buffer.
pub handle-respond :
    (s : RomService) (request response : Bytes)
    → (handle s request response).0 ≡ put_frame (respond request (length response)) response
unfolding handle
handle-respond s request response = elim (Bool-cases (ltb (length request) 8)) [
  | inl short ↦ rw short
  | inr long ↦
      rw (long, dispatch-reply, build_header_only_response-put_frame)
        (choose (is_known (parse_header request).command) (ltb (length response) 8)
          (ack_frame (parse_header request)) response)
]
