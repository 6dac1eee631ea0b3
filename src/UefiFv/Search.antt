-- ===== src/UefiFv/Search.antt =====
-- src/uefi_fv.cpp: the search over the volumes of an image, on fuel; `none` says that it ran out.
use ocp_canopy_open_bmc.Common.{
  ℕ, zero, suc, ◌+◌, ◌-◌, ◌%◌, Bool, true, false, not, ltb, ◌==◌, if◌then◌else◌, Option, none, some,
  [], Bytes,
}
use ocp_canopy_open_bmc.UefiFv.{
  EfiFvHeader, EfiGuid, efi_fvh_signature, ext_header_of, ext_header_struct_size, ffs2_guid,
  fv_header_of, fv_header_size, guid_equal, seek_read, word,
}
use ocp_canopy_open_bmc.UefiFv.Walk.{Walk, ended, found, gave_up, running, walk}

-- The distance to the next volume: the length, aligned up to 64 KiB, and never zero.
unfoldable pub fv_step : ℕ → ℕ
fv_step fv_length =
    let len = word fv_length in
    let aligned = if len % 0x10000 == 0 then len else word (len - len % 0x10000 + 0x10000) in
    if aligned == 0 then 0x10000 else aligned

-- What the search does with the end of a walk. `next` is the rest of the search: for `good()` of
-- the stream and an offset, the bytes returned.
unfoldable pub after_walk : (Bool → ℕ → Option Bytes) → ℕ → Walk → Option Bytes
after_walk next after (found bytes) = some bytes
after_walk next after gave_up = some []
after_walk next after (ended good) = next good after
after_walk next after running = none

-- `fvEnd`
unfoldable pub fv_end_of : ℕ → ℕ → ℕ → ℕ
fv_end_of rom_size off fv_length =
    let fv_end = word (off + word fv_length) in if ltb rom_size fv_end then rom_size else fv_end

-- The part of a round of the search behind the read of the extended header.
unfoldable pub on_ext_header :
    (Bool → ℕ → Option Bytes)
    → ℕ
    → Bytes
    → ℕ
    → EfiGuid
    → EfiGuid
    → ℕ
    → EfiFvHeader
    → Option Bytes
    → Option Bytes
on_ext_header next fuel rom rom_size fv_guid file_guid off hdr none =
    next false (word (off + fv_step hdr.fv_length))
on_ext_header next fuel rom rom_size fv_guid file_guid off hdr (some bs) =
    let ext = ext_header_of bs in
    let after = word (off + fv_step hdr.fv_length) in
    if not (guid_equal ext.fv_name fv_guid)
    then next true after
    else after_walk next after (
        walk fuel rom file_guid (fv_end_of rom_size off hdr.fv_length)
          (word (off + hdr.ext_header_offset + ext.ext_header_size)))

-- The part of a round of the search behind the read of a volume header at `off`.
unfoldable pub on_volume :
    (Bool → ℕ → Option Bytes) → ℕ → Bytes → ℕ → EfiGuid → EfiGuid → ℕ → Option Bytes → Option Bytes
on_volume next fuel rom rom_size fv_guid file_guid off none = some []
on_volume next fuel rom rom_size fv_guid file_guid off (some bs) =
    let hdr = fv_header_of bs in
    let after = word (off + fv_step hdr.fv_length) in
    if not (hdr.signature == efi_fvh_signature)
    then next true (word (off + 0x10000))
    else if not (guid_equal hdr.file_system_guid ffs2_guid)
    then next true after
    else if hdr.ext_header_offset == 0
    then next true after
    else on_ext_header next fuel rom rom_size fv_guid file_guid off hdr
        (seek_read rom true (word (off + hdr.ext_header_offset)) ext_header_struct_size)

-- The loop over the volumes; each walk has the second fuel.
unfoldable pub search : ℕ → ℕ → Bytes → ℕ → EfiGuid → EfiGuid → Bool → ℕ → Option Bytes
search zero walk_fuel rom rom_size fv_guid file_guid good off = none
search (suc fuel) walk_fuel rom rom_size fv_guid file_guid good off =
    let round =
      on_volume (search fuel walk_fuel rom rom_size fv_guid file_guid) walk_fuel rom rom_size
        fv_guid file_guid off (seek_read rom good off fv_header_size) in
    if ltb (word (off + fv_header_size)) rom_size then round else some []

-- `extractFfsFile`, with fuel for the volumes and for the files of each.
unfoldable pub extract_ffs_file : ℕ → ℕ → Bytes → ℕ → EfiGuid → EfiGuid → Option Bytes
extract_ffs_file fuel walk_fuel rom rom_size fv_guid file_guid =
    search fuel walk_fuel rom rom_size fv_guid file_guid true 0
