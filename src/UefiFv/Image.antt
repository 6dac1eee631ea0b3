-- ===== src/UefiFv/Image.antt =====
-- The search of an image that holds a printed row of files.
use ocp_canopy_open_bmc.Common.{
  ℕ, zero, suc, ◌+◌, ◌*◌, ◌%◌, ◌^◌, ◌≤◌, ◌<◌, ◌≡◌, refl, ap, ap₂, ◌∙◌, true, false, ltb, lt→ltb,
  ◌==◌, some, List, ◌++◌, arith, Bytes, All, length, read_at,
}
use ocp_canopy_open_bmc.UefiFv.{
  word, EfiGuid, fv_header_of, ext_header_of, efi_fvh_signature, ffs2_guid, guid_equal,
}
use ocp_canopy_open_bmc.UefiFv.Walk.{walk, found, align8}
use ocp_canopy_open_bmc.UefiFv.Search.{
  fv_end_of, after_walk, on_ext_header, on_volume, search, extract_ffs_file,
}
use ocp_canopy_open_bmc.UefiFv.Reads.{seek_read-inside}
use ocp_canopy_open_bmc.UefiFv.Hang.{Plain, round-Plain}
use ocp_canopy_open_bmc.UefiFv.Files.{FfsFile, files_bytes, padded_bytes, IsOther}
use ocp_canopy_open_bmc.UefiFv.Files.Payload.{IsRawFile}
use ocp_canopy_open_bmc.UefiFv.Files.RoundTrip.{walk-finds}

-- A volume of the right file system stands at an offset; its extended header has a name, and says
-- where its files begin.
pub record IsNamedVolume (rom : Bytes) (off : ℕ) (fv_guid : EfiGuid) (fv_length extension first : ℕ)
    : Type 0 where
  pub header_inside : off + 56 < length rom
  pub signed : ((fv_header_of (read_at off 56 rom)).signature == efi_fvh_signature) ≡ true
  pub ffs2 : guid_equal (fv_header_of (read_at off 56 rom)).file_system_guid ffs2_guid ≡ true
  pub says_length : (fv_header_of (read_at off 56 rom)).fv_length ≡ fv_length
  pub says_extension : (fv_header_of (read_at off 56 rom)).ext_header_offset ≡ extension
  pub extended : (extension == 0) ≡ false
  pub extension_inside : off + extension + 20 ≤ length rom
  pub named : guid_equal (ext_header_of (read_at (off + extension) 20 rom)).fv_name fv_guid ≡ true
  pub says_first :
      off + extension + (ext_header_of (read_at (off + extension) 20 rom)).ext_header_size ≡ first

fv_end_of-le : (rom_size off fv_length : ℕ) → fv_end_of rom_size off fv_length ≤ rom_size
unfolding fv_end_of
fv_end_of-le rom_size off fv_length = ground arith

module _ (rom : Bytes) (fv_guid file_guid : EfiGuid) (walk_fuel : ℕ)
    (low : length rom ≤ 2 ^ 31) where
  search-passes :
      (n j k fuel : ℕ)
      → n + j ≡ k
      → 0x10000 * k + 56 < length rom
      → ((i : ℕ) → i < k → Plain rom (0x10000 * i))
      → search (n + fuel) walk_fuel rom (length rom) fv_guid file_guid true (0x10000 * j)
        ≡ search fuel walk_fuel rom (length rom) fv_guid file_guid true (0x10000 * k)
  search-passes zero j k fuel e inside plain =
      ap₂ (λ m i. search m walk_fuel rom (length rom) fv_guid file_guid true (0x10000 * i))
        {x = 0 + fuel} {y = fuel} {u = j} {v = k} (omega arith) (omega arith)
  search-passes (suc n) j k fuel e inside plain =
      ap (λ m. search m walk_fuel rom (length rom) fv_guid file_guid true (0x10000 * j))
        {x = suc n + fuel} {y = suc (n + fuel)} (omega arith)
      ∙ (round-Plain rom (length rom) fv_guid file_guid walk_fuel (n + fuel) (0x10000 * j)
            (omega arith) (omega arith) low (plain j (omega arith))
          ∙ (ap (search (n + fuel) walk_fuel rom (length rom) fv_guid file_guid true)
                {x = 0x10000 * j + 0x10000} {y = 0x10000 * suc j} (omega arith)
              ∙ search-passes n (suc j) k fuel (omega arith) inside plain))

  search-walks :
      (off fv_length extension first fuel : ℕ) (payload : Bytes)
      → IsNamedVolume rom off fv_guid fv_length extension first
      → first ≤ 2 ^ 31
      → walk walk_fuel rom file_guid (fv_end_of (length rom) off fv_length) first ≡ found payload
      → search (suc fuel) walk_fuel rom (length rom) fv_guid file_guid true off ≡ some payload
  unfolding search on_volume on_ext_header after_walk
  search-walks off fv_length extension first fuel payload volume small walks =
      let more : ltb (word (off + 56)) (length rom) ≡ true =
        lt→ltb (word (off + 56)) (length rom) (omega (arith, volume.header_inside, low)) in
      let read = seek_read-inside rom off 56 (omega (arith, volume.header_inside)) in
      let at : word (off + extension) ≡ off + extension =
        omega (arith, volume.extension_inside, low) in
      let ext_read = seek_read-inside rom (off + extension) 20 volume.extension_inside in
      let start : word
            (off + extension + (ext_header_of (read_at (off + extension) 20 rom)).ext_header_size)
          ≡ first =
        omega (arith, volume.says_first, small) in
      rw
        (
          more, read, volume.signed, volume.ffs2, volume.says_extension, volume.says_length,
          volume.extended, at, ext_read, volume.named, start, walks,
        )
        refl

-- Of an image of at most 2 GiB: behind blocks of 64 KiB that start with no volume stands a volume with
-- the name asked for, and in it, at a multiple of 8, a printed row of files of other names in front of
-- the file asked for, which holds one raw section and whose header is in the volume. Then the search
-- returns the payload of that section, with fuel for those blocks, those files, and one more of each.
pub extract-finds :
    (rom : Bytes) (fv_guid file_guid : EfiGuid) (k fv_length extension first : ℕ)
    (fs : List FfsFile) (f : FfsFile) (payload pre post : Bytes) (fuel walk_fuel : ℕ)
    → length rom ≤ 2 ^ 31
    → ((j : ℕ) → j < k → Plain rom (0x10000 * j))
    → IsNamedVolume rom (0x10000 * k) fv_guid fv_length extension first
    → rom ≡ pre ++ (files_bytes fs ++ (padded_bytes f ++ post))
    → All (IsOther file_guid) fs
    → IsRawFile file_guid f payload
    → align8 first ≡ length pre
    → first ≤ length pre
    → length pre % 8 ≡ 0
    → length pre + length (files_bytes fs) + 24 < fv_end_of (length rom) (0x10000 * k) fv_length
    → extract_ffs_file (k + suc fuel) (length fs + suc walk_fuel) rom (length rom) fv_guid file_guid
      ≡ some payload
unfolding extract_ffs_file
extract-finds rom fv_guid file_guid k fv_length extension first fs f payload pre post fuel walk_fuel
      low plain volume holds others is_raw aligned before multiple room =
    let end = fv_end_of (length rom) (0x10000 * k) fv_length in
    let end_le = fv_end_of-le (length rom) (0x10000 * k) fv_length in
    let walks =
      walk-finds file_guid fs f payload pre post rom end walk_fuel first others is_raw holds aligned
        before multiple room (omega arith) low in
    search-passes rom fv_guid file_guid (length fs + suc walk_fuel) low k 0 k (suc fuel)
      (omega arith) volume.header_inside plain
    ∙ search-walks rom fv_guid file_guid (length fs + suc walk_fuel) low (0x10000 * k) fv_length
        extension first fuel payload volume (omega arith) walks
