-- ===== src/UefiFv/Walk.antt =====
-- src/uefi_fv.cpp: the walk over the files of a volume, on fuel; `running` says that it ran out.
use ocp_canopy_open_bmc.Common.{
  ℕ, zero, suc, ◌+◌, ◌-◌, ◌%◌, bit_and, Bool, true, false, ◌&&◌, ltb, leb, ◌==◌, if◌then◌else◌,
  Option, none, some, Bytes, get_or,
}
use ocp_canopy_open_bmc.UefiFv.{
  EfiFfsFileHeader, EfiGuid, efi_ffs_large_file, efi_fv_file_type_freeform,
  efi_section_guid_defined, efi_section_raw, ffs_file_size, ffs_header_of, ffs_header_size,
  guid_equal, guid_is_all_ff, section_header_size, seek_read, word,
}

-- How the walk over the files of a volume ends: with data to return, with nothing to return, with
-- the search going on behind the volume (and `good()` of the stream), or not within the fuel.
pub data Walk : Type 0 where
  found : Bytes → Walk
  gave_up : Walk
  ended : Bool → Walk
  running : Walk

unfoldable pub return_read : Option Bytes → Walk
return_read none = gave_up
return_read (some bytes) = found bytes

-- The payload of a FREEFORM file, behind the read of its section header.
unfoldable pub section_payload : Bytes → ℕ → ℕ → Option Bytes → Walk
section_payload rom data_offset data_size none = gave_up
section_payload rom data_offset data_size (some sec) =
    if get_or sec 3 0 == efi_section_raw
    then return_read (
        seek_read rom true (word (data_offset + section_header_size))
          (data_size - section_header_size))
    else if get_or sec 3 0 == efi_section_guid_defined
    then (if leb data_size 20
        then ended true
        else return_read (seek_read rom true (word (data_offset + 20)) (data_size - 20)))
    else return_read (seek_read rom true data_offset data_size)

-- The file of that name was found at `offset`.
unfoldable pub file_payload : Bytes → ℕ → EfiFfsFileHeader → Walk
file_payload rom offset hdr =
    let data_size = ffs_file_size hdr - ffs_header_size in
    let data_offset = word (offset + ffs_header_size) in
    if hdr.file_type == efi_fv_file_type_freeform && ltb section_header_size data_size
    then section_payload rom data_offset data_size
        (seek_read rom true data_offset section_header_size)
    else return_read (seek_read rom true data_offset data_size)

-- The part of a round of the walk behind the read of the file header at `offset`.
unfoldable pub on_file : (ℕ → Walk) → Bytes → EfiGuid → ℕ → Option Bytes → Walk
on_file next rom file_guid offset none = ended false
on_file next rom file_guid offset (some bs) =
    let hdr = ffs_header_of bs in
    let file_size = ffs_file_size hdr in
    if guid_is_all_ff hdr.name
    then ended true
    else if ltb file_size ffs_header_size
    then ended true
    else if guid_equal hdr.name file_guid && bit_and hdr.attributes efi_ffs_large_file == 0
    then file_payload rom offset hdr
    else next (word (offset + file_size))

-- `if (fileOffset & 0x07) fileOffset = (fileOffset & ~0x07UL) + 0x08`
unfoldable pub align8 : ℕ → ℕ
align8 off = if off % 8 == 0 then off else word (off - off % 8 + 8)

-- The loop over the files of a volume.
unfoldable pub walk : ℕ → Bytes → EfiGuid → ℕ → ℕ → Walk
walk zero rom file_guid fv_end off = running
walk (suc fuel) rom file_guid fv_end off =
    let round =
      on_file (walk fuel rom file_guid fv_end) rom file_guid (align8 off)
        (seek_read rom true (align8 off) ffs_header_size) in
    if ltb (word (off + ffs_header_size)) fv_end then round else ended true
