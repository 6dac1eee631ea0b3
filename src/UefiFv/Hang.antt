-- ===== src/UefiFv/Hang.antt =====
-- Images on which the search does not end, and images on which it ends early.
use ocp_canopy_open_bmc.Common.{
  ℕ, zero, suc, ◌+◌, ◌*◌, ◌^◌, ◌≤◌, ◌<◌, ◌≡◌, refl, ap, ◌∙◌, true, false, ltb, lt→ltb, ◌==◌, none,
  some, [], arith, Bytes, length, read_at,
}
use native.Mathlib.Decide.{dec_lt}
use ocp_canopy_open_bmc.UefiFv.{
  word, EfiGuid, fv_header_of, efi_fvh_signature, ffs2_guid, guid_equal, seek_read,
}
use ocp_canopy_open_bmc.UefiFv.Search.{fv_step, on_ext_header, on_volume, search, extract_ffs_file}
use ocp_canopy_open_bmc.UefiFv.Reads.{seek_read-inside, seek_read-outside, seek_read-bad}

-- The header that stands at an offset is no volume's.
abbrev pub Plain : Bytes → ℕ → Type 0
Plain rom off = ((fv_header_of (read_at off 56 rom)).signature == efi_fvh_signature) ≡ false

-- A volume stands at an offset, of another file system, whose length leads from there across 4 GiB
-- back to zero.
pub record WrapsToZero (rom : Bytes) (off : ℕ) : Type 0 where
  pub signed : ((fv_header_of (read_at off 56 rom)).signature == efi_fvh_signature) ≡ true
  pub other_files :
      guid_equal (fv_header_of (read_at off 56 rom)).file_system_guid ffs2_guid ≡ false
  pub wraps : off + fv_step (fv_header_of (read_at off 56 rom)).fv_length ≡ 2 ^ 32

module _ (rom : Bytes) (rom_size : ℕ) (fv_guid file_guid : EfiGuid) (walk_fuel : ℕ) where
  pub round-Plain :
      (fuel off : ℕ)
      → off + 56 < rom_size
      → rom_size ≤ length rom
      → rom_size ≤ 2 ^ 31
      → Plain rom off
      → search (suc fuel) walk_fuel rom rom_size fv_guid file_guid true off
        ≡ search fuel walk_fuel rom rom_size fv_guid file_guid true (off + 0x10000)
  unfolding search on_volume
  round-Plain fuel off inside held small plain =
      let more : ltb (word (off + 56)) rom_size ≡ true =
        lt→ltb (word (off + 56)) rom_size (omega arith) in
      let read = seek_read-inside rom off 56 (omega arith) in
      let next : word (off + 0x10000) ≡ off + 0x10000 = omega arith in rw (more, read, plain, next)

  round_wrap :
      (fuel off : ℕ)
      → off + 56 < rom_size
      → rom_size ≤ length rom
      → rom_size ≤ 2 ^ 31
      → WrapsToZero rom off
      → search (suc fuel) walk_fuel rom rom_size fv_guid file_guid true off
        ≡ search fuel walk_fuel rom rom_size fv_guid file_guid true 0
  unfolding search on_volume
  round_wrap fuel off inside held small wrap =
      let more : ltb (word (off + 56)) rom_size ≡ true =
        lt→ltb (word (off + 56)) rom_size (omega arith) in
      let read = seek_read-inside rom off 56 (omega arith) in
      let next : word (off + fv_step (fv_header_of (read_at off 56 rom)).fv_length) ≡ 0 =
        omega (arith, wrap.wraps) in
      rw (more, read, wrap.signed, wrap.other_files, next)

  search_hangs :
      (k : ℕ)
      → 0x10000 * k + 56 < rom_size
      → rom_size ≤ length rom
      → rom_size ≤ 2 ^ 31
      → ((j : ℕ) → j < k → Plain rom (0x10000 * j))
      → WrapsToZero rom (0x10000 * k)
      → (fuel j : ℕ) → j ≤ k
      → search fuel walk_fuel rom rom_size fv_guid file_guid true (0x10000 * j) ≡ none
  search_hangs k inside held small plain wrap zero j le = unfold search in refl
  search_hangs k inside held small plain wrap (suc fuel) j le = elim (dec_lt j k) [
    | yes before ↦
        round-Plain fuel (0x10000 * j) (omega arith) held small (plain j before)
        ∙ (ap (search fuel walk_fuel rom rom_size fv_guid file_guid true)
              {x = 0x10000 * j + 0x10000} {y = 0x10000 * suc j} (omega arith)
            ∙ search_hangs k inside held small plain wrap fuel (suc j) (omega arith))
    | no last ↦
        ap (search (suc fuel) walk_fuel rom rom_size fv_guid file_guid true) {x = 0x10000 * j}
          {y = 0x10000 * k} (omega (arith, last, le))
        ∙ (round_wrap fuel (0x10000 * k) inside held small wrap
            ∙ search_hangs k inside held small plain wrap fuel 0 (omega arith))
  ]

  -- Once the stream is bad the search returns no bytes, at whatever offset it goes on.
  search_bad :
      (fuel off : ℕ)
      → search (suc fuel) walk_fuel rom rom_size fv_guid file_guid false off ≡ some []
  unfolding search on_volume
  search_bad fuel off = rw (seek_read-bad rom off 56) (ground arith)

  -- A volume of the right file system, with an extended header that the image does not hold.
  pub record CutShort (off : ℕ) : Type 0 where
    pub signed : ((fv_header_of (read_at off 56 rom)).signature == efi_fvh_signature) ≡ true
    pub ffs2 : guid_equal (fv_header_of (read_at off 56 rom)).file_system_guid ffs2_guid ≡ true
    pub extended : ((fv_header_of (read_at off 56 rom)).ext_header_offset == 0) ≡ false
    pub outside :
        length rom < word (off + (fv_header_of (read_at off 56 rom)).ext_header_offset) + 20

  -- Where the search of an image, of which the caller says at most its size and at most 2 GiB,
  -- comes with a good stream to a volume of the right file system whose extended header does not
  -- lie within the image, it returns no bytes, whatever stands behind that volume, with fuel for
  -- two rounds. (The code goes on to the next volume, but its stream stays bad.)
  pub search-CutShort :
      (fuel off : ℕ)
      → off + 56 < rom_size
      → rom_size ≤ length rom
      → rom_size ≤ 2 ^ 31
      → CutShort off
      → search (suc (suc fuel)) walk_fuel rom rom_size fv_guid file_guid true off ≡ some []
  search-CutShort fuel off inside held small cut =
      let hdr = fv_header_of (read_at off 56 rom) in
      let more : ltb (word (off + 56)) rom_size ≡ true =
        lt→ltb (word (off + 56)) rom_size (omega arith) in
      let read = seek_read-inside rom off 56 (omega arith) in
      let unread = seek_read-outside rom true (word (off + hdr.ext_header_offset)) 20 cut.outside in
      let round : search (suc (suc fuel)) walk_fuel rom rom_size fv_guid file_guid true off
          ≡ search (suc fuel) walk_fuel rom rom_size fv_guid file_guid false
              (word (off + fv_step hdr.fv_length)) =
        cut_round more read unread in
      round ∙ search_bad fuel (word (off + fv_step hdr.fv_length))
    where
      cut_round :
          ltb (word (off + 56)) rom_size ≡ true
          → seek_read rom true off 56 ≡ some (read_at off 56 rom)
          → seek_read rom true
              (word (off + (fv_header_of (read_at off 56 rom)).ext_header_offset))
              20
            ≡ none
          → search (suc (suc fuel)) walk_fuel rom rom_size fv_guid file_guid true off
            ≡ search
                (suc fuel)
                walk_fuel
                rom
                rom_size
                fv_guid
                file_guid
                false
                (word (off + fv_step (fv_header_of (read_at off 56 rom)).fv_length))
      cut_round more read unread =
          unfold search in
          unfold on_volume in
          unfold on_ext_header in rw (more, read, cut.signed, cut.ffs2, cut.extended, unread)

-- An image of at most 2 GiB, whose first volume is behind k blocks of 64 KiB, is of another file
-- system, and has a length that leads across 4 GiB back to zero: whatever the fuel, the search does
-- not end.
pub extract_hangs :
    (rom : Bytes) (rom_size : ℕ) (fv_guid file_guid : EfiGuid) (k : ℕ)
    → 0x10000 * k + 56 < rom_size
    → rom_size ≤ length rom
    → rom_size ≤ 2 ^ 31
    → ((j : ℕ) → j < k → Plain rom (0x10000 * j))
    → WrapsToZero rom (0x10000 * k)
    → (fuel walk_fuel : ℕ) → extract_ffs_file fuel walk_fuel rom rom_size fv_guid file_guid ≡ none
unfolding extract_ffs_file
extract_hangs rom rom_size fv_guid file_guid k inside held small plain wrap fuel walk_fuel =
    search_hangs rom rom_size fv_guid file_guid walk_fuel k inside held small plain wrap fuel 0
      (omega arith)
