-- ===== src/Health/Refine.antt =====
-- What the health service says to each request.
use ocp_canopy_open_bmc.Common.{
  ℕ, ◌≡◌, ◌||◌, ltb, if◌then◌else◌, Bool-cases, inl, inr, Option, none, some, Bytes, length,
  le_bytes, fill_n-front, ltb→le,
}
use ocp_canopy_open_bmc.Packet.{header_bytes, parse_header, init_response}
use ocp_canopy_open_bmc.Packet.Frame.{put_frame, reply_frame}
use ocp_canopy_open_bmc.Health.{handle}

-- Success, for every packet that has a header, if the buffer holds 12 bytes.
abbrev pub acknowledge : Bytes → ℕ → Option Bytes
acknowledge request capacity =
    if ltb (length request) 8 || ltb capacity 12
    then none
    else some (reply_frame (parse_header request) (le_bytes 4 0))

-- On every request and buffer, the handler puts a frame with error code 0 in the buffer if the
-- request has 8 bytes and the buffer 12, and otherwise does not answer and leaves the buffer.
pub handle-acknowledge :
    (request response : Bytes)
    → handle request response ≡ put_frame (acknowledge request (length response)) response
unfolding handle header_bytes init_response
handle-acknowledge request response = elim (Bool-cases (ltb (length request) 8)) [
  | inl short ↦ rw short
  | inr long ↦ elim (Bool-cases (ltb (length response) 12)) [
    | inl small ↦ rw (long, small)
    | inr room ↦ rw (long, room, fill_n-front 12 response (ltb→le _ _ room))
  ]
]
