-- ===== src/Smif/Response/Entry.antt =====
-- The frame of an entry that is read back.
use ocp_canopy_open_bmc.Common.{
  ℕ, ltb, le→ltb, pos, some, ◌+◌, ◌-◌, ◌%◌, ◌^◌, min, ◌≤◌, ◌<◌, ◌≡◌, refl, ap, sym, ◌∙◌, true,
  false, ◌==◌, if◌then◌else◌, Bool-cases, inl, inr, ◌++◌, append_assoc, arith, Bytes, length,
  length-append, length-replicate, take-all, drop, replicate, replicate-add, le_bytes, write_at,
  write_at-over, write_at-shift,
}
use ocp_canopy_open_bmc.Packet.{Header, header_bytes, response_header}
use ocp_canopy_open_bmc.Packet.Frame.{put_frame, reply_frame}
use ocp_canopy_open_bmc.EvStorage.{EvEntry}
use ocp_canopy_open_bmc.EvStorage.Codec.{IsEntry}
use ocp_canopy_open_bmc.Smif.Response.{readback_size, fill_ev_data, build_ev_data_response}
use ocp_canopy_open_bmc.Smif.Response.Frames.{
  Framed, Framed-at, put_reply, write_payload-append, init_filled, build_simple_response-Framed,
}

-- The data on readback: nothing becomes four zeros.
unfoldable pub readback : EvEntry → Bytes
readback e = if length e.value == 0 then replicate 4 0 else e.value

-- The payload for an entry: no error, the padded name, the size of the data, the data.
abbrev pub entry_body : EvEntry → Bytes
entry_body e =
    le_bytes 4 0
    ++ (e.name
        ++ (replicate (32 - length e.name) 0 ++ (le_bytes 2 (readback_size e) ++ readback e)))

length-readback : (e : EvEntry) → length (readback e) ≡ readback_size e
unfolding readback_size readback
length-readback e = ground arith

length-entry_body : (e : EvEntry) → IsEntry e → length (entry_body e) ≡ 38 + readback_size e
length-entry_body e h =
    let name_short = h.name_short in
    let pad : Bytes = replicate (32 - length e.name) 0 in
    omega (
      arith,
      length-append e.name (pad ++ (le_bytes 2 (readback_size e) ++ readback e)),
      length-append pad (le_bytes 2 (readback_size e) ++ readback e),
      length-replicate {A = ℕ} (32 - length e.name) 0,
      length-append (le_bytes 2 (readback_size e)) (readback e),
      length-readback e,
    )

readback_size_bounds : (e : EvEntry) → IsEntry e → (0 < readback_size e) × (readback_size e ≤ 3966)
unfolding readback_size
readback_size_bounds e h = ground (arith, h.value_small)

-- Writes over the fourth and the fifth of a row of parts.
write_fourth :
    (k : ℕ) (a b c old src post : Bytes)
    → k ≡ length a + (length b + length c)
    → length src ≡ length old
    → write_at k src (a ++ (b ++ (c ++ (old ++ post)))) ≡ a ++ (b ++ (c ++ (src ++ post)))
write_fourth k a b c old src post e same =
    write_at-shift k (length b + length c) a src (b ++ (c ++ (old ++ post))) e
    ∙ ap (λ (bs : Bytes). a ++ bs)
        (write_at-shift (length b + length c) (length c) b src (c ++ (old ++ post)) refl
          ∙ ap (λ (bs : Bytes). b ++ bs) (write_at-over (length c) c src old post refl same))

write_fifth :
    (k : ℕ) (a b c d old src post : Bytes)
    → k ≡ length a + (length b + (length c + length d))
    → length src ≡ length old
    → write_at k src (a ++ (b ++ (c ++ (d ++ (old ++ post)))))
      ≡ a ++ (b ++ (c ++ (d ++ (src ++ post))))
write_fifth k a b c d old src post e same =
    write_at-shift k (length b + (length c + length d)) a src (b ++ (c ++ (d ++ (old ++ post)))) e
    ∙ ap (λ (bs : Bytes). a ++ bs)
        (write_fourth (length b + (length c + length d)) b c d old src post refl same)

abbrev padding : EvEntry → Bytes
padding e = replicate (32 - length e.name) 0

-- The zeros of the payload, part by part.
payload_zeros :
    (e : EvEntry) (k : ℕ)
    → IsEntry e
    → k ≡ 38 + readback_size e
    → replicate k 0
      ≡ replicate 4 0
        ++ (replicate (length e.name) 0
            ++ (padding e ++ (replicate 2 0 ++ replicate (readback_size e) 0)))
payload_zeros e k h size =
    let name_short = h.name_short in
    let z : ℕ = 0 in
    let rest = readback_size e in
    replicate-add 4 (34 + rest) k z (omega arith)
    ∙ ap (λ (bs : Bytes). replicate 4 0 ++ bs)
        (replicate-add (length e.name) (34 - length e.name + rest) (34 + rest) z (omega arith)
          ∙ ap (λ (bs : Bytes). replicate (length e.name) 0 ++ bs)
              (replicate-add (32 - length e.name) (2 + rest) (34 - length e.name + rest) z
                  (omega arith)
                ∙ ap (λ (bs : Bytes). padding e ++ bs) (replicate-add 2 rest (2 + rest) z refl)))

empty_readback :
    (e : EvEntry) → (length e.value == 0) ≡ true → replicate (readback_size e) 0 ≡ readback e
unfolding readback_size readback
empty_readback e empty = rw empty

value_readback :
    (e : EvEntry)
    → (length e.value == 0) ≡ false
    → (e.value ≡ readback e) × (length e.value ≡ readback_size e)
unfolding readback_size readback
value_readback e full = rw full (refl, refl)

regroup :
    (hd : Header) (e : EvEntry) (behind : Bytes)
    → header_bytes hd
        ++ (replicate 4 0
            ++ (e.name ++ (padding e ++ (le_bytes 2 (readback_size e) ++ (readback e ++ behind)))))
      ≡ header_bytes hd ++ (entry_body e ++ behind)
regroup hd e behind = simp append_assoc

fill_ev_data-eq :
    (hdr : Header) (e : EvEntry) (response : Bytes) (n : ℕ)
    → IsEntry e
    → n ≡ 46 + readback_size e
    → n ≤ length response
    → fill_ev_data hdr e n response
      ≡ header_bytes (response_header hdr n) ++ (entry_body e ++ drop n response)
unfolding fill_ev_data
fill_ev_data-eq hdr e response n h size room =
    let name_short = h.name_short in
    let hd = response_header hdr n in
    let behind = drop n response in
    let ds = readback_size e in
    let z : Bytes = replicate ds 0 in
    let zn : Bytes = replicate (length e.name) 0 in
    let all_zero : replicate (38 + ds) 0 ++ behind
        ≡ replicate 4 0 ++ (zn ++ (padding e ++ (replicate 2 0 ++ (z ++ behind)))) =
      rw (payload_zeros e (38 + ds) h refl) (simp append_assoc) in
    let bounds = readback_size_bounds e h in
    let len : ds % 2 ^ 16 ≡ ds = omega arith in
    let short : min (length e.name) 31 ≡ length e.name = omega arith in
    let pad : length (padding e) ≡ 32 - length e.name = length-replicate (32 - length e.name) 0 in
    let parts = λ (bs : Bytes).
      replicate 4 0 ++ (e.name ++ (padding e ++ (le_bytes 2 ds ++ (bs ++ behind)))) in
    let whole = λ (bs : Bytes) (same : bs ≡ readback e).
      ap (λ (x : Bytes). header_bytes hd ++ parts x) same ∙ regroup hd e behind in
    rw
      (
        init_filled n (38 + ds) n hdr response (omega arith) room,
        all_zero,
        short,
        take-all (length e.name) e.name (omega arith),
        write_payload-append 4 e.name hd
            (replicate 4 0 ++ (zn ++ (padding e ++ (replicate 2 0 ++ (z ++ behind)))))
            (omega arith),
        write_at-over 4 (replicate 4 0) e.name zn (padding e ++ (replicate 2 0 ++ (z ++ behind)))
            refl (sym (length-replicate (length e.name) 0)),
        len,
        write_payload-append 36 (le_bytes 2 ds) hd
            (replicate 4 0 ++ (e.name ++ (padding e ++ (replicate 2 0 ++ (z ++ behind)))))
            (omega arith),
        write_fourth 36 (replicate 4 0) e.name (padding e) (replicate 2 0) (le_bytes 2 ds)
            (z ++ behind) (omega arith) refl,
      )
      (elim (Bool-cases (length e.value == 0)) [
        | inl empty ↦ rw empty (whole z (empty_readback e empty))
        | inr full ↦
            let (value_is, value_size) = value_readback e full in
            rw full (
              write_payload-append 38 e.value hd (parts z) (omega arith)
              ∙ ap (λ (bs : Bytes). header_bytes hd ++ bs)
                  (write_fifth 38 (replicate 4 0) e.name (padding e) (le_bytes 2 ds) z e.value
                    behind (omega (arith, pad)) (value_size ∙ sym (length-replicate ds 0)))
              ∙ whole e.value value_is)
      ])

-- An entry within the limits of the store is read back in a frame of its own size, or, if the
-- buffer does not hold that, with an error code.
pub build_ev_data_response-Framed :
    (hdr : Header) (capacity : ℕ) (e : EvEntry)
    → IsEntry e
    → Framed hdr capacity (λ response. build_ev_data_response hdr response e)
unfolding build_ev_data_response
build_ev_data_response-Framed hdr capacity e h =
    let n = (8 + (4 + 32 + 2 + readback_size e)) % 2 ^ 16 in
    let bounds = readback_size_bounds e h in
    let size : n ≡ 46 + readback_size e = omega arith in
    Framed-at hdr capacity n (entry_body e) (fill_ev_data hdr e n)
      (omega (arith, length-entry_body e h)) (omega arith)
      (λ response room. fill_ev_data-eq hdr e response n h size room)
      (build_simple_response-Framed hdr capacity 3)

-- Where the buffer holds it, that frame is what is read back.
pub build_ev_data_response-front :
    (hdr : Header) (e : EvEntry) (response : Bytes)
    → IsEntry e
    → 4012 ≤ length response
    → build_ev_data_response hdr response e
      ≡ put_frame (some (reply_frame hdr (entry_body e))) response
unfolding build_ev_data_response
build_ev_data_response-front hdr e response h room =
    let n = (8 + (4 + 32 + 2 + readback_size e)) % 2 ^ 16 in
    let bounds = readback_size_bounds e h in
    let size : n ≡ 46 + readback_size e = omega arith in
    let holds : ltb (length response) n ≡ false = le→ltb _ _ (omega (arith, room, size, bounds)) in
    let whole : n ≡ 8 + length (entry_body e) = omega (arith, length-entry_body e h) in
    rw holds (
      ap (λ bs. (pos n, bs)) (fill_ev_data-eq hdr e response n h size (omega arith))
      ∙ sym (put_reply hdr (entry_body e) response n whole))
