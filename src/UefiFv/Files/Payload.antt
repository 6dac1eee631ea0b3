-- ===== src/UefiFv/Files/Payload.antt =====
-- The payload of a file with one raw section.
use ocp_canopy_open_bmc.Common.{
  ℕ, ◌+◌, ◌-◌, ◌^◌, ◌≤◌, ◌<◌, ◌≡◌, refl, ap, sym, ◌∙◌, true, false, ltb, lt→ltb, le→ltb, ◌==◌, some,
  ◌++◌, append_assoc, arith, Bytes, length, length-append, get_or, bit_and, read_at, read_at-append,
}
use ocp_canopy_open_bmc.UefiFv.{word, EfiGuid, ffs_header_of, guid_equal, guid_is_all_ff, seek_read}
use ocp_canopy_open_bmc.UefiFv.Walk.{
  Walk, found, return_read, section_payload, file_payload, on_file,
}
use ocp_canopy_open_bmc.UefiFv.Reads.{seek_read-inside}
use ocp_canopy_open_bmc.UefiFv.Files.{
  FfsFile, file_size, head_bytes, padding, padded_bytes, IsFile, length-head_bytes, name-head_bytes,
  type-head_bytes, attributes-head_bytes, size-head_bytes,
}

-- A FREEFORM file of small size whose content is one raw section around the payload.
pub record IsRawFile (file_guid : EfiGuid) (f : FfsFile) (payload : Bytes) : Type 0 where
  pub fine : IsFile f
  pub used : guid_is_all_ff f.name ≡ false
  pub named : guid_equal f.name file_guid ≡ true
  pub freeform : f.file_type ≡ 2
  pub not_large : (bit_and f.attributes 1 == 0) ≡ true
  pub section : Bytes
  pub section_size : length section ≡ 4
  pub raw : get_or section 3 0 ≡ 0x19
  pub wraps : f.content ≡ section ++ payload
  pub some_payload : 0 < length payload

module _ (rom pre post : Bytes) (file_guid : EfiGuid) (f : FfsFile) (payload : Bytes)
    (is_raw : IsRawFile file_guid f payload) (holds : rom ≡ pre ++ (padded_bytes f ++ post))
    (small : length rom ≤ 2 ^ 31) where
  -- Where the section and the payload stand.
  holds_payload :
      rom ≡ (pre ++ head_bytes f) ++ (is_raw.section ++ (payload ++ (padding f ++ post)))
  holds_payload =
      let behind : (f.content ++ padding f) ++ post
          ≡ is_raw.section ++ (payload ++ (padding f ++ post)) =
        append_assoc f.content (padding f) post
        ∙ (ap (λ (bs : Bytes). bs ++ (padding f ++ post)) is_raw.wraps
            ∙ append_assoc is_raw.section payload (padding f ++ post)) in
      holds
      ∙ (ap (λ (bs : Bytes). pre ++ bs)
            (append_assoc (head_bytes f) (f.content ++ padding f) post
              ∙ ap (λ (bs : Bytes). head_bytes f ++ bs) behind)
          ∙ sym (
              append_assoc pre (head_bytes f) (is_raw.section ++ (payload ++ (padding f ++ post)))))

  start : length (pre ++ head_bytes f) ≡ length pre + 24
  start = omega (arith, length-append pre (head_bytes f), length-head_bytes f is_raw.fine)

  content_size : length f.content ≡ 4 + length payload
  content_size = omega (
    arith,
    ap (λ (bs : Bytes). length bs) is_raw.wraps,
    length-append is_raw.section payload,
    is_raw.section_size,
  )

  room : length pre + 28 + length payload ≤ length rom
  room = omega (
    arith,
    ap (λ (bs : Bytes). length bs) holds_payload,
    length-append (pre ++ head_bytes f) (is_raw.section ++ (payload ++ (padding f ++ post))),
    start,
    length-append is_raw.section (payload ++ (padding f ++ post)),
    is_raw.section_size,
    length-append payload (padding f ++ post),
  )

  section_read : seek_read rom true (length pre + 24) 4 ≡ some is_raw.section
  section_read =
      seek_read-inside rom (length pre + 24) 4 (omega (arith, room))
      ∙ ap some (
          ap (read_at (length pre + 24) 4) holds_payload
          ∙ read_at-append (length pre + 24) 4 (pre ++ head_bytes f) is_raw.section
              (payload ++ (padding f ++ post)) start is_raw.section_size)

  payload_read : seek_read rom true (length pre + 28) (length payload) ≡ some payload
  payload_read =
      let rest : Bytes = payload ++ (padding f ++ post) in
      let front = length-append (pre ++ head_bytes f) is_raw.section in
      seek_read-inside rom (length pre + 28) (length payload) room
      ∙ ap some (
          ap (read_at (length pre + 28) (length payload))
            (holds_payload ∙ sym (append_assoc (pre ++ head_bytes f) is_raw.section rest))
          ∙ read_at-append (length pre + 28) (length payload)
              ((pre ++ head_bytes f) ++ is_raw.section) payload (padding f ++ post)
              (omega (arith, front, start, is_raw.section_size)) refl)

  section_payload-raw :
      section_payload rom (length pre + 24) (length f.content) (some is_raw.section) ≡ found payload
  unfolding section_payload
  section_payload-raw =
      let at_payload : word (length pre + 24 + 4) ≡ length pre + 28 = omega (arith, room, small) in
      let size : length f.content - 4 ≡ length payload = omega (arith, content_size) in
      rw (is_raw.raw, at_payload, size, payload_read) (unfold return_read in refl)

  file_payload-raw : file_payload rom (length pre) (ffs_header_of (head_bytes f)) ≡ found payload
  unfolding file_payload
  file_payload-raw =
      let at_content : word (length pre + 24) ≡ length pre + 24 = omega (arith, room, small) in
      let size : file_size f - 24 ≡ length f.content = omega arith in
      let more : ltb 4 (length f.content) ≡ true =
        lt→ltb 4 (length f.content) (omega (arith, content_size, is_raw.some_payload)) in
      rw
        (
          size-head_bytes f is_raw.fine,
          type-head_bytes f is_raw.fine,
          is_raw.freeform,
          size,
          more,
          at_content,
          section_read,
        )
        section_payload-raw

  -- The walk returns the payload of the file, behind files of other names.
  pub on_file-found :
      (next : ℕ → Walk)
      → on_file next rom file_guid (length pre) (some (head_bytes f)) ≡ found payload
  unfolding on_file
  on_file-found next =
      let large : ltb (file_size f) 24 ≡ false = le→ltb (file_size f) 24 (omega arith) in
      let fine = is_raw.fine in
      rw
        (
          file_payload-raw,
          size-head_bytes f fine,
          attributes-head_bytes f fine,
          name-head_bytes f fine,
          is_raw.used,
          large,
          is_raw.named,
          is_raw.not_large,
        )
        refl
