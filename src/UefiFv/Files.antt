-- ===== src/UefiFv/Files.antt =====
-- A printed row of files, and how the walk reads them. Payload and RoundTrip say what it returns.
pub mod Payload
pub mod RoundTrip
use ocp_canopy_open_bmc.Common.{
  ℕ, suc, ◌+◌, ◌-◌, ◌%◌, ◌^◌, ◌≤◌, ◌<◌, ◌≡◌, refl, ap, sym, ◌∙◌, true, false, ltb, lt→ltb, le→ltb,
  ◌==◌, some, List, [], ◌∷◌, ◌++◌, append_assoc, arith, Bytes, length, length-append,
  length-replicate, All, get_or, get_or-behind, bit_and, take, replicate, take-append, le_bytes,
  read_at, read_at-append,
}
use ocp_canopy_open_bmc.UefiFv.{
  word, EfiGuid, ffs_header_of, guid_equal, guid_is_all_ff, ffs_file_size, seek_read,
}
use ocp_canopy_open_bmc.UefiFv.Walk.{
  Walk, found, return_read, section_payload, file_payload, on_file, align8, walk,
}
use ocp_canopy_open_bmc.UefiFv.Reads.{seek_read-inside}

-- A file of a firmware volume.
pub record FfsFile : Type 0 where
  pub name : Bytes
  pub integrity_check : Bytes
  pub file_type : ℕ
  pub attributes : ℕ
  pub state : ℕ
  pub content : Bytes

abbrev pub file_size : FfsFile → ℕ
file_size f = 24 + length f.content

abbrev pub front_bytes : FfsFile → Bytes
front_bytes f = f.name ++ f.integrity_check

abbrev pub head_bytes : FfsFile → Bytes
head_bytes f =
    front_bytes f ++ (f.file_type ∷ f.attributes ∷ (le_bytes 3 (file_size f) ++ (f.state ∷ [])))

-- The next file starts at a multiple of 8.
abbrev pub padding : FfsFile → Bytes
padding f = replicate ((8 - file_size f % 8) % 8) 255

abbrev pub padded_bytes : FfsFile → Bytes
padded_bytes f = head_bytes f ++ (f.content ++ padding f)

abbrev pub files_bytes : List FfsFile → Bytes
files_bytes [] = []
files_bytes (f ∷ fs) = padded_bytes f ++ files_bytes fs

-- The sizes that the header of a file can hold.
pub record IsFile (f : FfsFile) : Type 0 where
  pub name_size : length f.name ≡ 16
  pub check_size : length f.integrity_check ≡ 2
  pub small : file_size f < 2 ^ 24

module _ (f : FfsFile) (fine : IsFile f) where
  pub length-front_bytes : length (front_bytes f) ≡ 18
  length-front_bytes =
      omega (arith, length-append f.name f.integrity_check, fine.name_size, fine.check_size)

  pub length-head_bytes : length (head_bytes f) ≡ 24
  length-head_bytes = omega (
    arith,
    length-front_bytes,
    length-append (front_bytes f)
        (f.file_type ∷ f.attributes ∷ (le_bytes 3 (file_size f) ++ (f.state ∷ []))),
  )

  -- The header is decoded from its bytes.
  pub name-head_bytes : (ffs_header_of (head_bytes f)).name ≡ f.name
  unfolding ffs_header_of
  name-head_bytes =
      let tail = f.file_type ∷ f.attributes ∷ (le_bytes 3 (file_size f) ++ (f.state ∷ [])) in
      ap (take 16) (append_assoc f.name f.integrity_check tail)
      ∙ take-append 16 f.name (f.integrity_check ++ tail) fine.name_size

  pub type-head_bytes : (ffs_header_of (head_bytes f)).file_type ≡ f.file_type
  unfolding ffs_header_of
  type-head_bytes =
      get_or-behind (front_bytes f)
        (f.file_type ∷ f.attributes ∷ (le_bytes 3 (file_size f) ++ (f.state ∷ []))) 0 18 18 0
        length-front_bytes refl

  pub attributes-head_bytes : (ffs_header_of (head_bytes f)).attributes ≡ f.attributes
  unfolding ffs_header_of
  attributes-head_bytes =
      get_or-behind (front_bytes f)
        (f.file_type ∷ f.attributes ∷ (le_bytes 3 (file_size f) ++ (f.state ∷ []))) 1 19 18 0
        length-front_bytes refl

  pub size-head_bytes : ffs_file_size (ffs_header_of (head_bytes f)) ≡ file_size f
  unfolding ffs_header_of ffs_file_size
  size-head_bytes =
      let front : Bytes = front_bytes f ++ (f.file_type ∷ f.attributes ∷ []) in
      let field : read_at 20 3 (head_bytes f) ≡ le_bytes 3 (file_size f) =
        ap (read_at 20 3) (
          sym (
            append_assoc (front_bytes f) (f.file_type ∷ f.attributes ∷ [])
              (le_bytes 3 (file_size f) ++ (f.state ∷ []))))
        ∙ read_at-append 20 3 front (le_bytes 3 (file_size f)) (f.state ∷ [])
            (omega (
              arith,
              length-front_bytes,
              length-append (front_bytes f) (f.file_type ∷ f.attributes ∷ []),
            ))
            refl in
      rw field (omega (arith, fine.small))

  pub length-padded_bytes : length (padded_bytes f) ≡ file_size f + (8 - file_size f % 8) % 8
  length-padded_bytes = omega (
    arith,
    length-head_bytes,
    length-append (head_bytes f) (f.content ++ padding f),
    length-append f.content (padding f),
    length-replicate {A = ℕ} ((8 - file_size f % 8) % 8) 255,
  )

  -- Behind the file the walk is aligned to the next one.
  pub align8-behind :
      (here : ℕ)
      → here % 8 ≡ 0
      → here ≤ 2 ^ 31
      → align8 (here + file_size f) ≡ here + length (padded_bytes f)
  unfolding align8
  align8-behind here multiple low = rw length-padded_bytes (ground (arith, fine.small))

  module _ (rom pre more : Bytes) (holds : rom ≡ pre ++ (padded_bytes f ++ more))
      (file_guid : EfiGuid) (fv_end : ℕ) where
    pub head_read : read_at (length pre) 24 rom ≡ head_bytes f
    head_read =
        ap (read_at (length pre) 24) (
          holds
          ∙ ap (λ (bs : Bytes). pre ++ bs)
              (append_assoc (head_bytes f) (f.content ++ padding f) more))
        ∙ read_at-append (length pre) 24 pre (head_bytes f) ((f.content ++ padding f) ++ more) refl
            length-head_bytes

    pub length-holds : length pre + length (padded_bytes f) ≤ length rom
    length-holds = omega (
      arith,
      ap (λ (bs : Bytes). length bs) holds,
      length-append pre (padded_bytes f ++ more),
      length-append (padded_bytes f) more,
    )

    -- The walk reads the header of the file.
    pub walk_reads :
        (fuel off : ℕ)
        → align8 off ≡ length pre
        → off + 24 < fv_end
        → fv_end ≤ 2 ^ 31
        → walk (suc fuel) rom file_guid fv_end off
          ≡ on_file
              (walk fuel rom file_guid fv_end)
              rom
              file_guid
              (length pre)
              (some (head_bytes f))
    unfolding walk
    walk_reads fuel off aligned before low =
        let more_files : ltb (word (off + 24)) fv_end ≡ true =
          lt→ltb (word (off + 24)) fv_end (omega arith) in
        let read : seek_read rom true (length pre) 24 ≡ some (head_bytes f) =
          seek_read-inside rom (length pre) 24 (omega (arith, length-holds, length-padded_bytes))
          ∙ ap some head_read in
        rw (more_files, aligned, read)

  -- A file of another name is passed over.
  pub on_file-skips :
      (next : ℕ → Walk) (rom : Bytes) (file_guid : EfiGuid) (here : ℕ)
      → guid_is_all_ff f.name ≡ false
      → guid_equal f.name file_guid ≡ false
      → here ≤ 2 ^ 31
      → on_file next rom file_guid here (some (head_bytes f)) ≡ next (here + file_size f)
  unfolding on_file
  on_file-skips next rom file_guid here used other low =
      let large : ltb (file_size f) 24 ≡ false = le→ltb (file_size f) 24 (omega arith) in
      let on : word (here + file_size f) ≡ here + file_size f = omega (arith, fine.small) in
      rw (size-head_bytes, name-head_bytes, used, large, other, on)

-- A file that the walk passes over.
pub record IsOther (file_guid : EfiGuid) (f : FfsFile) : Type 0 where
  pub fine : IsFile f
  pub used : guid_is_all_ff f.name ≡ false
  pub other : guid_equal f.name file_guid ≡ false
