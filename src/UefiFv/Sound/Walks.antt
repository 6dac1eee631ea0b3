-- ===== src/UefiFv/Sound/Walks.antt =====
-- Where the bytes come from that the walk over the files of a volume finds.
use ocp_canopy_open_bmc.Common.{
  ℕ, zero, suc, ◌+◌, ◌-◌, ◌^◌, ◌≤◌, ◌<◌, ◌≡◌, inl, inr, refl, ap, sym, subst, true, ◌&&◌, ltb,
  ltb→le, leb, ◌==◌, if-intro, Bool-cases, Option-cases, Option, none, some, arith, Bytes, length,
  get_or, bit_and, read_at,
}
use ocp_canopy_open_bmc.UefiFv.{
  word, EfiGuid, EfiFfsFileHeader, ffs_header_of, guid_equal, guid_is_all_ff, ffs_file_size,
  seek_read,
}
use ocp_canopy_open_bmc.UefiFv.Walk.{
  Walk, found, return_read, section_payload, file_payload, on_file, align8, walk,
}
use ocp_canopy_open_bmc.UefiFv.Reads.{seek_read-some}

-- Bytes that are the end of the content of a file with that name, inside the image.
pub record FileAt (rom : Bytes) (file_guid : EfiGuid) (bytes : Bytes) : Type 0 where
  pub file : ℕ
  pub named : guid_equal (ffs_header_of (read_at file 24 rom)).name file_guid ≡ true
  pub start : ℕ
  pub size : ℕ
  pub behind_header : file + 24 ≤ start
  pub to_the_end : start + size ≡ file + ffs_file_size (ffs_header_of (read_at file 24 rom))
  pub inside : start + size ≤ length rom
  pub slice : bytes ≡ read_at start size rom

module _ (rom : Bytes) (small : length rom ≤ 2 ^ 31) (file_guid : EfiGuid) where
  abbrev pub Sound : Walk → Type 0
  Sound (found bytes) = FileAt rom file_guid bytes
  Sound _ = Unit

  module _ (file : ℕ) (hdr : EfiFfsFileHeader) (here : hdr ≡ ffs_header_of (read_at file 24 rom))
      (header_inside : file + 24 ≤ length rom) (large : 24 ≤ ffs_file_size hdr)
      (named : guid_equal hdr.name file_guid ≡ true) where
    return_read-Sound :
        (start size : ℕ)
        → file + 24 ≤ start
        → start + size ≡ file + ffs_file_size hdr
        → Sound (return_read (seek_read rom true start size))
    unfolding return_read
    return_read-Sound start size behind to_end =
        elim (Option-cases (seek_read rom true start size)) [
          | inl none_read ↦ subst (λ o. Sound (return_read o)) (sym none_read) tt
          | inr (bytes, read) ↦
              let (_, inside, slice) = seek_read-some rom true start size bytes read in
              subst (λ o. Sound (return_read o)) (sym read)
                (record {
                  file = file;
                  named = subst (λ h. guid_equal h.name file_guid ≡ true) here named;
                  start = start;
                  size = size;
                  behind_header = behind;
                  to_the_end = subst (λ h. start + size ≡ file + ffs_file_size h) here to_end;
                  inside = inside;
                  slice = slice;
                })
        ]

    section_payload-Sound :
        (o : Option Bytes)
        → 4 < ffs_file_size hdr - 24
        → Sound (section_payload rom (word (file + 24)) (ffs_file_size hdr - 24) o)
    unfolding section_payload
    section_payload-Sound none some_bytes = tt
    section_payload-Sound (some sec) some_bytes =
        let size = ffs_file_size hdr - 24 in
        let start = word (file + 24) in
        if-intro Sound (get_or sec 3 0 == 0x19)
          (λ _. return_read-Sound (word (start + 4)) (size - 4) (omega arith) (omega arith))
          (λ _.
            if-intro Sound (get_or sec 3 0 == 2)
              (λ _.
                if-intro Sound (leb size 20) (λ _. tt)
                  (λ more.
                    return_read-Sound (word (start + 20)) (size - 20) (omega arith) (ground arith)))
              (λ _. return_read-Sound start size (omega arith) (omega arith)))

    file_payload-Sound : Sound (file_payload rom file hdr)
    unfolding file_payload
    file_payload-Sound =
        let size = ffs_file_size hdr - 24 in
        let start = word (file + 24) in
        elim (Bool-cases (hdr.file_type == 2 && ltb 4 size)) [
          | inl section ↦
              rw section (section_payload-Sound (seek_read rom true start 4) (ground arith))
          | inr plain ↦ rw plain (return_read-Sound start size (omega arith) (omega arith))
        ]

  on_file-Sound :
      (next : ℕ → Walk) (off : ℕ) (o : Option Bytes)
      → seek_read rom true off 24 ≡ o
      → ((at : ℕ) → Sound (next at))
      → Sound (on_file next rom file_guid off o)
  unfolding on_file
  on_file-Sound next off none read go = tt
  on_file-Sound next off (some bs) read go =
      let hdr = ffs_header_of bs in
      let (_, inside, slice) = seek_read-some rom true off 24 bs read in
      if-intro Sound (guid_is_all_ff hdr.name) (λ _. tt)
        (λ _.
          if-intro Sound (ltb (ffs_file_size hdr) 24) (λ _. tt)
            (λ large.
              if-intro Sound (guid_equal hdr.name file_guid && bit_and hdr.attributes 1 == 0)
                (λ hit.
                  file_payload-Sound off hdr (ap ffs_header_of slice) inside (ltb→le _ 24 large)
                    (ground arith))
                (λ _. go (word (off + ffs_file_size hdr)))))

  pub walk-Sound : (fuel fv_end off : ℕ) → Sound (walk fuel rom file_guid fv_end off)
  unfolding walk
  walk-Sound zero fv_end off = tt
  walk-Sound (suc fuel) fv_end off =
      if-intro Sound (ltb (word (off + 24)) fv_end)
        (λ _.
          on_file-Sound (walk fuel rom file_guid fv_end) (align8 off)
            (seek_read rom true (align8 off) 24) refl (λ at. walk-Sound fuel fv_end at))
        (λ _. tt)
