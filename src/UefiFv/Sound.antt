-- ===== src/UefiFv/Sound.antt =====
-- Where the bytes come from that the search returns.
pub mod Walks
use ocp_canopy_open_bmc.Common.{
  ℕ, zero, suc, ◌+◌, ◌-◌, ◌^◌, ◌≤◌, ◌<◌, ◌≡◌, ◌⊎◌, inl, inr, refl, ap, sym, subst, Bool, true,
  false, not, ◌&&◌, ltb, ltb→le, leb, ◌==◌, if-intro, Bool-cases, Option-cases, Option, none, some,
  [], arith, Bytes, length, get_or, bit_and, read_at,
}
use ocp_canopy_open_bmc.UefiFv.{
  word, EfiGuid, EfiFvHeader, EfiFfsFileHeader, fv_header_of, ext_header_of, ffs_header_of,
  efi_fvh_signature, ffs2_guid, guid_equal, guid_is_all_ff, ffs_file_size, seek_read,
}
use ocp_canopy_open_bmc.UefiFv.Walk.{
  Walk, found, gave_up, ended, running, return_read, section_payload, file_payload, on_file, align8,
  walk,
}
use ocp_canopy_open_bmc.UefiFv.Search.{
  fv_step, fv_end_of, after_walk, on_ext_header, on_volume, search, extract_ffs_file,
}
use ocp_canopy_open_bmc.UefiFv.Reads.{seek_read-some}
use ocp_canopy_open_bmc.UefiFv.Sound.Walks.{FileAt, Sound, walk-Sound}

-- A volume of the right file system with that name in its extended header.
pub record VolumeAt (rom : Bytes) (fv_guid : EfiGuid) : Type 0 where
  pub volume : ℕ
  pub signed : ((fv_header_of (read_at volume 56 rom)).signature == efi_fvh_signature) ≡ true
  pub ffs2 : guid_equal (fv_header_of (read_at volume 56 rom)).file_system_guid ffs2_guid ≡ true
  pub extension : ℕ
  pub linked : extension ≡ word (volume + (fv_header_of (read_at volume 56 rom)).ext_header_offset)
  pub named : guid_equal (ext_header_of (read_at extension 20 rom)).fv_name fv_guid ≡ true

-- Nothing, or bytes of the file, from an image that has the volume.
abbrev pub FromImage : Bytes → EfiGuid → EfiGuid → Option Bytes → Type 0
FromImage rom fv_guid file_guid none = Unit
FromImage rom fv_guid file_guid (some bytes) =
    (bytes ≡ []) ⊎ VolumeAt rom fv_guid × FileAt rom file_guid bytes

module _ (rom : Bytes) (small : length rom ≤ 2 ^ 31) (rom_size walk_fuel : ℕ)
    (fv_guid file_guid : EfiGuid) where
  after_walk-FromImage :
      (next : Bool → ℕ → Option Bytes) (after : ℕ) (w : Walk)
      → VolumeAt rom fv_guid
      → Sound rom small file_guid w
      → ((good : Bool) (at : ℕ) → FromImage rom fv_guid file_guid (next good at))
      → FromImage rom fv_guid file_guid (after_walk next after w)
  unfolding after_walk
  after_walk-FromImage next after (found bytes) volume sound go = inr (volume, sound)
  after_walk-FromImage next after gave_up volume sound go = inl refl
  after_walk-FromImage next after (ended good) volume sound go = go good after
  after_walk-FromImage next after running volume sound go = tt

  on_ext_header-FromImage :
      (next : Bool → ℕ → Option Bytes) (off extension : ℕ) (hdr : EfiFvHeader) (o : Option Bytes)
      → ((guid_equal (ext_header_of (read_at extension 20 rom)).fv_name fv_guid ≡ true)
          → VolumeAt rom fv_guid)
      → seek_read rom true extension 20 ≡ o
      → ((good : Bool) (at : ℕ) → FromImage rom fv_guid file_guid (next good at))
      → FromImage rom fv_guid file_guid
          (on_ext_header next walk_fuel rom rom_size fv_guid file_guid off hdr o)
  unfolding on_ext_header
  on_ext_header-FromImage next off extension hdr none volume read go =
      go false (word (off + fv_step hdr.fv_length))
  on_ext_header-FromImage next off extension hdr (some bs) volume read go =
      let ext = ext_header_of bs in
      let after = word (off + fv_step hdr.fv_length) in
      let first = word (off + hdr.ext_header_offset + ext.ext_header_size) in
      let fv_end = fv_end_of rom_size off hdr.fv_length in
      let (_, _, slice) = seek_read-some rom true extension 20 bs read in
      if-intro (FromImage rom fv_guid file_guid) (not (guid_equal ext.fv_name fv_guid))
        (λ _. go true after)
        (λ named.
          after_walk-FromImage next after (walk walk_fuel rom file_guid fv_end first)
            (volume (
              subst (λ x. guid_equal (ext_header_of x).fv_name fv_guid ≡ true) slice
                (ground arith)))
            (walk-Sound rom small file_guid walk_fuel fv_end first) go)

  on_volume-FromImage :
      (next : Bool → ℕ → Option Bytes) (off : ℕ) (good : Bool) (o : Option Bytes)
      → seek_read rom good off 56 ≡ o
      → ((still : Bool) (at : ℕ) → FromImage rom fv_guid file_guid (next still at))
      → FromImage rom fv_guid file_guid
          (on_volume next walk_fuel rom rom_size fv_guid file_guid off o)
  unfolding on_volume
  on_volume-FromImage next off good none read go = inl refl
  on_volume-FromImage next off good (some bs) read go =
      let hdr = fv_header_of bs in
      let after = word (off + fv_step hdr.fv_length) in
      let extension = word (off + hdr.ext_header_offset) in
      let (_, _, slice) = seek_read-some rom good off 56 bs read in
      let P = FromImage rom fv_guid file_guid in
      if-intro P (not (hdr.signature == efi_fvh_signature)) (λ _. go true (word (off + 0x10000)))
        (λ signed.
          if-intro P (not (guid_equal hdr.file_system_guid ffs2_guid)) (λ _. go true after)
            (λ ffs2.
              if-intro P (hdr.ext_header_offset == 0) (λ _. go true after)
                (λ _.
                  on_ext_header-FromImage next off extension hdr (seek_read rom true extension 20)
                    (λ named. record {
                      volume = off;
                      signed =
                          subst (λ x. ((fv_header_of x).signature == efi_fvh_signature) ≡ true)
                            slice (ground arith);
                      ffs2 =
                          subst (λ x. guid_equal (fv_header_of x).file_system_guid ffs2_guid ≡ true)
                            slice (ground arith);
                      extension = extension;
                      linked = ap (λ x. word (off + (fv_header_of x).ext_header_offset)) slice;
                      named = named;
                    })
                    refl go)))

  search-FromImage :
      (fuel : ℕ) (good : Bool) (off : ℕ)
      → FromImage rom fv_guid file_guid
          (search fuel walk_fuel rom rom_size fv_guid file_guid good off)
  unfolding search
  search-FromImage zero good off = tt
  search-FromImage (suc fuel) good off =
      if-intro (FromImage rom fv_guid file_guid) (ltb (word (off + 56)) rom_size)
        (λ _.
          on_volume-FromImage (search fuel walk_fuel rom rom_size fv_guid file_guid) off good
            (seek_read rom good off 56) refl (λ still at. search-FromImage fuel still at))
        (λ _. inl refl)

  -- Of an image of at most 2 GiB, whatever it holds: bytes that the search returns are none, or they
  -- lie within the image, behind the header and up to the end of a file with the name asked for, and
  -- the image has a volume of the right file system with the volume's name asked for.
  pub extract-FromImage :
      (fuel : ℕ)
      → FromImage rom fv_guid file_guid
          (extract_ffs_file fuel walk_fuel rom rom_size fv_guid file_guid)
  unfolding extract_ffs_file
  extract-FromImage fuel = search-FromImage fuel true 0
