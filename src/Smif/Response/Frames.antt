-- ===== src/Smif/Response/Frames.antt =====
-- The frames that the responses stand for.
use ocp_canopy_open_bmc.Common.{
  le→ltb, ℕ, ◌+◌, ◌≤◌, ◌<◌, ◌≡◌, refl, ap, sym, ◌∙◌, false, ltb, leb, if◌then◌else◌, Bool-cases,
  inl, inr, Option, none, some, ◌++◌, append_assoc, arith, pos, Bytes, length, length-append,
  length-drop, drop, drop-drop, replicate, replicate-add, le_bytes, fill_n, fill_n-front, ltb→le,
  write_at, write_at-front, write_at-shift,
}
use ocp_canopy_open_bmc.Packet.{Header, header_bytes, response_header, init_response, write_payload}
use ocp_canopy_open_bmc.Packet.Layout.{length-header_bytes}
use ocp_canopy_open_bmc.Packet.Frame.{
  Handled, no_response, put_frame, reply_frame, length-reply_frame, init_response-front,
}
use ocp_canopy_open_bmc.Smif.Response.{build_simple_response}

abbrev pub reply : Header → Option Bytes → Option Bytes
reply hdr none = none
reply hdr (some body) = some (reply_frame hdr body)

abbrev pub Small : ℕ → Option Bytes → Type 0
Small capacity none = Unit
Small capacity (some body) = (8 + length body ≤ capacity) × (8 + length body < 65536)

-- What a handler does to a response buffer of a given size: nothing, or it puts a reply in front,
-- whose payload does not depend on what the buffer held.
pub record Framed (hdr : Header) (capacity : ℕ) (handler : Bytes → Handled) : Type 0 where
  pub body : Option Bytes
  pub puts :
      (response : Bytes)
      → length response ≡ capacity
      → handler response ≡ put_frame (reply hdr body) response
  pub fits : Small capacity body

-- A write through the payload span changes what stands behind the header.
pub write_payload-append :
    (off : ℕ) (src : Bytes) (h : Header) (rest : Bytes)
    → 0 < length rest
    → write_payload off src (header_bytes h ++ rest) ≡ header_bytes h ++ write_at off src rest
unfolding write_payload
write_payload-append off src h rest some_byte =
    let size = length-append (header_bytes h) rest in
    let size_8 = length-header_bytes h in
    let behind : leb (length (header_bytes h ++ rest)) 8 ≡ false = ground (arith, size, size_8) in
    rw behind (write_at-shift (8 + off) off (header_bytes h) src rest (omega (arith, size_8)))

-- A buffer that is zeroed up to a size and given its header.
pub init_filled :
    (n k m : ℕ) (hdr : Header) (response : Bytes)
    → n ≡ 8 + k
    → n ≤ length response
    → init_response (fill_n n response) hdr m
      ≡ header_bytes (response_header hdr m) ++ (replicate k 0 ++ drop n response)
init_filled n k m hdr response e room =
    let zeros : Bytes = replicate 8 0 in
    let split : fill_n n response ≡ zeros ++ (replicate k 0 ++ drop n response) =
      fill_n-front n response room
      ∙ ap (λ (bs : Bytes). bs ++ drop n response) (replicate-add 8 k n 0 e)
      ∙ append_assoc zeros (replicate k 0) (drop n response) in
    rw split (init_response-front (zeros ++ (replicate k 0 ++ drop n response)) hdr m (omega arith))

-- A reply of `k` payload bytes and what was behind it in the buffer.
pub put_reply :
    (hdr : Header) (body response : Bytes) (n : ℕ)
    → n ≡ 8 + length body
    → put_frame (some (reply_frame hdr body)) response
      ≡ (pos n, header_bytes (response_header hdr n) ++ (body ++ drop n response))
put_reply hdr body response n e = rw (length-reply_frame hdr body, ← e) (rw append_assoc refl)

pub no_response-Framed : (hdr : Header) (capacity : ℕ) → Framed hdr capacity no_response
no_response-Framed hdr capacity = record { body = none; puts = λ response size. refl; fits = tt }

pub Framed-ext :
    {hdr : Header} {capacity : ℕ} {handler other : Bytes → Handled}
    → ((response : Bytes) → handler response ≡ other response)
    → Framed hdr capacity other
    → Framed hdr capacity handler
Framed-ext same framed = record {
  body = framed.body;
  puts = λ response size. same response ∙ framed.puts response size;
  fits = framed.fits;
}

-- A handler that does not answer in a buffer that is too small.
pub guard-Framed :
    (hdr : Header) (capacity n : ℕ) {handler : Bytes → Handled}
    → Framed hdr capacity handler
    → Framed hdr capacity
        (λ response. if ltb (length response) n then no_response response else handler response)
guard-Framed hdr capacity n framed = elim (Bool-cases (ltb capacity n)) [
  | inl less ↦ record { body = none; puts = λ response size. rw (size, less) refl; fits = tt }
  | inr room ↦ record {
    body = framed.body;
    puts = λ response size. rw (size, room) (framed.puts response size);
    fits = framed.fits;
  }
]

-- A handler that fills `n` bytes if the buffer has them, and else does as another one does.
module _ (hdr : Header) (capacity n : ℕ) (body : Bytes) (fill : Bytes → Bytes)
    {small : Bytes → Handled} where
  pub Framed-at :
      n ≡ 8 + length body
      → n < 65536
      → ((response : Bytes)
          → n ≤ length response
          → fill response ≡ header_bytes (response_header hdr n) ++ (body ++ drop n response))
      → Framed hdr capacity small
      → Framed hdr capacity
          (λ response. if ltb (length response) n then small response else (pos n, fill response))
  Framed-at e word filled other = elim (Bool-cases (ltb capacity n)) [
    | inl less ↦ record {
      body = other.body;
      puts = λ response size. rw (size, less) (other.puts response size);
      fits = other.fits;
    }
    | inr room ↦ record {
      body = some body;
      puts = λ response size.
          rw (size, room)
            (ap (λ (bs : Bytes). (pos n, bs))
                (filled response (omega (arith, ltb→le capacity n room)))
              ∙ sym (put_reply hdr body response n e));
      fits = (omega (arith, ltb→le capacity n room), omega arith);
    }
  ]

simple_filled :
    (hdr : Header) (code : ℕ) (response : Bytes)
    → 12 ≤ length response
    → write_payload 0 (le_bytes 4 code) (init_response response hdr 12)
      ≡ header_bytes (response_header hdr 12) ++ (le_bytes 4 code ++ drop 12 response)
simple_filled hdr code response room = rw (init_response-front response hdr 12 (omega arith)) (
    write_payload-append 0 (le_bytes 4 code) (response_header hdr 12) (drop 8 response)
      (omega (arith, length-drop 8 response))
    ∙ ap (λ (bs : Bytes). header_bytes (response_header hdr 12) ++ bs)
        (write_at-front (le_bytes 4 code) (drop 8 response) (omega (arith, length-drop 8 response))
          ∙ ap (λ (bs : Bytes). le_bytes 4 code ++ bs) (drop-drop 4 8 12 response refl)))

pub build_simple_response-Framed :
    (hdr : Header) (capacity code : ℕ)
    → Framed hdr capacity (λ response. build_simple_response hdr response code)
unfolding build_simple_response
build_simple_response-Framed hdr capacity code =
    Framed-at hdr capacity 12 (le_bytes 4 code)
      (λ response. write_payload 0 (le_bytes 4 code) (init_response response hdr 12)) refl
      (omega arith) (simple_filled hdr code) (no_response-Framed hdr capacity)

-- Where the buffer has 12 bytes, the simple response is a frame with its code.
pub build_simple_response-front :
    (hdr : Header) (code : ℕ) (response : Bytes)
    → 12 ≤ length response
    → build_simple_response hdr response code
      ≡ put_frame (some (reply_frame hdr (le_bytes 4 code))) response
unfolding build_simple_response
build_simple_response-front hdr code response room =
    let fits : ltb (length response) 12 ≡ false = le→ltb _ _ room in
    rw fits (
      ap (λ (bs : Bytes). (pos 12, bs)) (simple_filled hdr code response room)
      ∙ sym (put_reply hdr (le_bytes 4 code) response 12 refl))
