-- ===== src/UefiFv/Termination.antt =====
-- How much fuel the search needs, and for which images.
pub mod Walks
use ocp_canopy_open_bmc.Common.{
  ℕ, zero, suc, ◌+◌, ◌-◌, ◌*◌, ◌%◌, ◌^◌, ◌≤◌, ◌<◌, ◌≡◌, refl, sym, subst, Bool, true, false, not,
  ◌&&◌, ltb, leb, ltb→le, ◌==◌, ==_iff, if-intro, Bool-cases, inl, inr, Option, none, some, arith,
  Bytes, IsBytes, length, get_or, bit_and, read_at,
}
use ocp_canopy_open_bmc.UefiFv.{
  word, EfiGuid, EfiFvHeader, EfiFfsFileHeader, fv_header_of, ext_header_of, ffs_header_of,
  efi_fvh_signature, ffs2_guid, guid_equal, guid_is_all_ff, ffs_file_size, seek_read,
}
use ocp_canopy_open_bmc.UefiFv.Walk.{
  Walk, found, gave_up, ended, running, return_read, section_payload, file_payload, on_file, align8,
  walk,
}
use ocp_canopy_open_bmc.UefiFv.Search.{
  fv_step, fv_end_of, after_walk, on_ext_header, on_volume, search, extract_ffs_file,
}
use ocp_canopy_open_bmc.UefiFv.Reads.{
  seek_read-some, read_at-IsBytes, ffs_file_size-lt, align8_bounds, fv_step_bounds,
}
use ocp_canopy_open_bmc.UefiFv.Termination.Walks.{Ends, walk-Ends_anywhere}

abbrev Answers : Option Bytes → Type 0
Answers none = ⊥
Answers (some d) = Unit

after_walk-Answers :
    (next : Bool → ℕ → Option Bytes) (after : ℕ) (w : Walk)
    → Ends w
    → ((good : Bool) → Answers (next good after))
    → Answers (after_walk next after w)
unfolding after_walk
after_walk-Answers next after (found d) ends go = tt
after_walk-Answers next after gave_up ends go = tt
after_walk-Answers next after (ended good) ends go = go good
after_walk-Answers next after running ends go = absurd ends

-- Each volume of the image, at a multiple of 64 KiB, ends below 4 GiB by its header.
abbrev pub StepsFit : Bytes → Type 0
StepsFit rom =
    (off : ℕ)
    → off % 0x10000 ≡ 0
    → off + 56 ≤ length rom
    → (fv_header_of (read_at off 56 rom)).signature ≡ efi_fvh_signature
    → off + fv_step (fv_header_of (read_at off 56 rom)).fv_length < 2 ^ 32

module _ (rom : Bytes) (bytes : IsBytes rom) (small : length rom ≤ 2 ^ 31) (rom_size : ℕ)
    (fv_guid file_guid : EfiGuid) (m : ℕ) (walks : length rom ≤ 24 * m) where
  on_ext_header-Answers :
      (next : Bool → ℕ → Option Bytes) (off : ℕ) (hdr : EfiFvHeader) (o : Option Bytes)
      → ((good : Bool) → Answers (next good (word (off + fv_step hdr.fv_length))))
      → Answers (on_ext_header next (suc (suc m)) rom rom_size fv_guid file_guid off hdr o)
  unfolding on_ext_header
  on_ext_header-Answers next off hdr none go = go false
  on_ext_header-Answers next off hdr (some bs) go =
      let ext = ext_header_of bs in
      let after = word (off + fv_step hdr.fv_length) in
      let first = word (off + hdr.ext_header_offset + ext.ext_header_size) in
      let fv_end = fv_end_of rom_size off hdr.fv_length in
      if-intro Answers (not (guid_equal ext.fv_name fv_guid)) (λ _. go true)
        (λ _.
          after_walk-Answers next after (walk (suc (suc m)) rom file_guid fv_end first)
            (walk-Ends_anywhere rom bytes small file_guid fv_end m first walks) go)

  on_volume-Answers :
      (next : Bool → ℕ → Option Bytes) (off : ℕ) (o : Option Bytes)
      → ((bs : Bytes) → o ≡ some bs → (good : Bool) → Answers (next good (word (off + 0x10000))))
      → ((bs : Bytes)
          → o ≡ some bs
          → (fv_header_of bs).signature ≡ efi_fvh_signature
          → (good : Bool) → Answers (next good (word (off + fv_step (fv_header_of bs).fv_length))))
      → Answers (on_volume next (suc (suc m)) rom rom_size fv_guid file_guid off o)
  unfolding on_volume
  on_volume-Answers next off none plain signed = tt
  on_volume-Answers next off (some bs) plain signed =
      let hdr = fv_header_of bs in
      elim (Bool-cases (hdr.signature == efi_fvh_signature)) [
        | inr other ↦ rw other (plain bs refl true)
        | inl volume ↦
            let go = signed bs refl ((==_iff hdr.signature efi_fvh_signature).0 volume) in
            rw volume (
              if-intro Answers (not (guid_equal hdr.file_system_guid ffs2_guid)) (λ _. go true)
                (λ _.
                  if-intro Answers (hdr.ext_header_offset == 0) (λ _. go true)
                    (λ _.
                      on_ext_header-Answers next off hdr
                        (seek_read rom true (word (off + hdr.ext_header_offset)) 20) go)))
      ]

  next_volume :
      StepsFit rom
      → (off : ℕ) (good : Bool) (bs : Bytes) → off % 0x10000 ≡ 0
      → seek_read rom good off 56 ≡ some bs
      → (fv_header_of bs).signature ≡ efi_fvh_signature
      → off + fv_step (fv_header_of bs).fv_length < 2 ^ 32
  next_volume steps off good bs multiple read signed =
      let (_, inside, here) = seek_read-some rom good off 56 bs read in
      subst (λ x. off + fv_step (fv_header_of x).fv_length < 2 ^ 32) (sym here)
        (steps off multiple inside
          (subst (λ x. (fv_header_of x).signature ≡ efi_fvh_signature) here signed))

  search-Answers :
      StepsFit rom
      → (n off : ℕ) (good : Bool) → off % 0x10000 ≡ 0
      → off < 2 ^ 32
      → length rom ≤ off + 0x10000 * n
      → Answers (search (suc n) (suc (suc m)) rom rom_size fv_guid file_guid good off)
  unfolding search
  search-Answers steps zero off good multiple low enough =
      if-intro Answers (ltb (word (off + 56)) rom_size)
        (λ _.
          on_volume-Answers (search zero (suc (suc m)) rom rom_size fv_guid file_guid) off
            (seek_read rom good off 56)
            (λ bs read _. absurd (omega (arith, seek_read-some rom good off 56 bs read)))
            (λ bs read _ _. absurd (omega (arith, seek_read-some rom good off 56 bs read))))
        (λ _. tt)
  search-Answers steps (suc n) off good multiple low enough =
      if-intro Answers (ltb (word (off + 56)) rom_size)
        (λ _.
          on_volume-Answers (search (suc n) (suc (suc m)) rom rom_size fv_guid file_guid) off
            (seek_read rom good off 56)
            (λ bs read still.
              let (_, inside, _) = seek_read-some rom good off 56 bs read in
              search-Answers steps n (word (off + 0x10000)) still (omega arith) (omega arith)
                (omega arith))
            (λ bs read volume still.
              let fits = next_volume steps off good bs multiple read volume in
              let (long, whole) = fv_step_bounds (fv_header_of bs).fv_length in
              search-Answers steps n (word (off + fv_step (fv_header_of bs).fv_length)) still
                (omega arith) (omega arith) (omega arith)))
        (λ _. tt)

answered : (o : Option Bytes) → Answers o → (bytes : Bytes) × (o ≡ some bytes)
answered none a = absurd a
answered (some bytes) a = (bytes, refl)

-- For an image of bytes of at most 2 GiB whose volumes end below 4 GiB by their headers, and for any
-- size that the caller gives: with as many rounds for the volumes as the image has blocks of 64 KiB,
-- and one more, and for the files of each as it has file headers of 24 bytes, and two more, the
-- search is over and returns bytes.
pub extract_terminates :
    (rom : Bytes) (rom_size : ℕ) (fv_guid file_guid : EfiGuid) (n m : ℕ)
    → IsBytes rom
    → length rom ≤ 2 ^ 31
    → StepsFit rom
    → length rom ≤ 0x10000 * n
    → length rom ≤ 24 * m
    → (bytes : Bytes) × (extract_ffs_file (suc n) (suc (suc m)) rom rom_size fv_guid file_guid
        ≡ some bytes)
unfolding extract_ffs_file
extract_terminates rom rom_size fv_guid file_guid n m bytes small steps blocks headers =
    answered (search (suc n) (suc (suc m)) rom rom_size fv_guid file_guid true 0) (
      search-Answers rom bytes small rom_size fv_guid file_guid m headers steps n 0 true refl
        (omega arith) (omega arith))
