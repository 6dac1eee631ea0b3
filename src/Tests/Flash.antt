-- ===== src/Tests/Flash.antt =====
-- The search of the flash at concrete images.
use ocp_canopy_open_bmc.Common.{
  ℕ, zero, suc, ◌+◌, ◌*◌, ◌^◌, ◌<◌, ◌≡◌, refl, sym, subst, true, false, ◌==◌, none, some, [], ◌∷◌,
  ◌++◌, arith, Bytes, IsBytes, length, length-append, length-replicate, replicate, read_at,
  read_at-append, same,
}
use ocp_canopy_open_bmc.UefiFv.{
  guid_bytes, fv_header_of, efi_fvh_signature, ffs2_guid, guid_equal, guid_is_all_ff, seek_read,
  ext_header_of, ffs_header_of, ffs_file_size,
}
use ocp_canopy_open_bmc.UefiFv.Walk.{
  walk, on_file, align8, file_payload, return_read, section_payload,
}
use ocp_canopy_open_bmc.UefiFv.Search.{
  fv_step, fv_end_of, search, on_volume, on_ext_header, after_walk, extract_ffs_file,
}
use ocp_canopy_open_bmc.UefiFv.Termination.{StepsFit, extract_terminates}
use ocp_canopy_open_bmc.UefiFv.Hang.{Plain, WrapsToZero, extract_hangs, CutShort, search-CutShort}
use ocp_canopy_open_bmc.UefiFv.Sound.{FromImage, extract-FromImage}
use ocp_canopy_open_bmc.UefiFv.Files.{FfsFile, files_bytes, padded_bytes, IsFile, IsOther}
use ocp_canopy_open_bmc.UefiFv.Files.Payload.{IsRawFile}
use ocp_canopy_open_bmc.UefiFv.Image.{IsNamedVolume, extract-finds}
use ocp_canopy_open_bmc.PlatDef.Extract.{apml_fv_guid, apml_file_guid}

-- A volume of the file system with an extended header that names it.
abbrev volume : Bytes
volume =
    0 ∷ 0 ∷ 0 ∷ 0 ∷ 0 ∷ 0 ∷ 0 ∷ 0 ∷ 0 ∷ 0 ∷ 0 ∷ 0 ∷ 0 ∷ 0 ∷ 0 ∷ 0 ∷ 120 ∷ 229 ∷ 140 ∷ 140 ∷ 61 ∷ 138
    ∷ 28 ∷ 79 ∷ 153 ∷ 53 ∷ 137 ∷ 97 ∷ 133 ∷ 195 ∷ 45 ∷ 211 ∷ 0 ∷ 0 ∷ 1 ∷ 0 ∷ 0 ∷ 0 ∷ 0 ∷ 0 ∷ 95 ∷ 70
    ∷ 86 ∷ 72 ∷ 0 ∷ 0 ∷ 0 ∷ 0 ∷ 0 ∷ 0 ∷ 0 ∷ 0 ∷ 56 ∷ 0 ∷ 0 ∷ 0 ∷ 184 ∷ 90 ∷ 191 ∷ 126 ∷ 94 ∷ 82
    ∷ 124 ∷ 65 ∷ 155 ∷ 107 ∷ 94 ∷ 243 ∷ 103 ∷ 133 ∷ 105 ∷ 84 ∷ 20 ∷ 0 ∷ 0 ∷ 0 ∷ 255 ∷ 255 ∷ 255
    ∷ 255 ∷ []

-- A file of another name, and the file with the blob "APML!" in a raw section.
abbrev other_file : FfsFile
other_file = record {
  name = replicate 16 1;
  integrity_check = 0 ∷ 0 ∷ [];
  file_type = 1;
  attributes = 0;
  state = 248;
  content = 7 ∷ [];
}

abbrev section : Bytes
section = 9 ∷ 0 ∷ 0 ∷ 25 ∷ []

abbrev apml : Bytes
apml = 65 ∷ 80 ∷ 77 ∷ 76 ∷ 33 ∷ []

abbrev blob_file : FfsFile
blob_file = record {
  name =
      28 ∷ 0 ∷ 246 ∷ 197 ∷ 180 ∷ 57 ∷ 221 ∷ 67 ∷ 155 ∷ 155 ∷ 104 ∷ 50 ∷ 241 ∷ 187 ∷ 75 ∷ 233 ∷ [];
  integrity_check = 0 ∷ 0 ∷ [];
  file_type = 2;
  attributes = 0;
  state = 248;
  content = section ++ apml;
}

abbrev flash_image : Bytes
flash_image = volume ++ (files_bytes (other_file ∷ []) ++ (padded_bytes blob_file ++ []))

image_length : length flash_image ≡ 152
image_length = refl

image_found :
    extract_ffs_file 2 9 flash_image (length flash_image) apml_fv_guid apml_file_guid ≡ some apml
unfolding extract_ffs_file search on_volume seek_read fv_header_of guid_equal same guid_bytes
    on_ext_header ext_header_of after_walk walk fv_end_of on_file align8 guid_is_all_ff
    ffs_header_of ffs_file_size file_payload fv_step return_read section_payload
image_found = refl

-- The only header of the image that can stand at a multiple of 64 KiB is the first one.
image-StepsFit : StepsFit flash_image
unfolding fv_step fv_header_of
image-StepsFit zero multiple inside signed = omega arith
image-StepsFit (suc off) multiple inside signed = absurd (omega arith)

image-IsBytes : IsBytes flash_image
image-IsBytes = ground arith

extract_terminates_example :
    (bytes : Bytes) × (extract_ffs_file 2 9 flash_image 152 apml_fv_guid apml_file_guid
      ≡ some bytes)
extract_terminates_example =
    extract_terminates flash_image 152 apml_fv_guid apml_file_guid 1 7 image-IsBytes (omega arith)
      image-StepsFit (omega arith) (omega arith)

extract-FromImage_example :
    FromImage flash_image apml_fv_guid apml_file_guid
      (extract_ffs_file 2 9 flash_image 152 apml_fv_guid apml_file_guid)
extract-FromImage_example =
    extract-FromImage flash_image (omega arith) 152 9 apml_fv_guid apml_file_guid 2

other_file-IsFile : IsFile other_file
other_file-IsFile = record { name_size = refl; check_size = refl; small = omega arith }

other_file-IsOther : IsOther apml_file_guid other_file
unfolding guid_is_all_ff guid_equal same guid_bytes
other_file-IsOther = record { fine = other_file-IsFile; used = refl; other = refl }

blob_file-IsFile : IsFile blob_file
blob_file-IsFile = record { name_size = refl; check_size = refl; small = omega arith }

blob_file-IsRawFile : IsRawFile apml_file_guid blob_file apml
unfolding guid_is_all_ff guid_equal same guid_bytes
blob_file-IsRawFile = record {
  fine = blob_file-IsFile;
  used = refl;
  named = refl;
  freeform = refl;
  not_large = refl;
  section = section;
  section_size = refl;
  raw = refl;
  wraps = refl;
  some_payload = omega arith;
}

apml_volume : IsNamedVolume flash_image (0x10000 * 0) apml_fv_guid 0x10000 56 76
unfolding fv_header_of ext_header_of guid_equal same guid_bytes
apml_volume = record {
  header_inside = omega arith;
  signed = refl;
  ffs2 = refl;
  says_length = refl;
  says_extension = refl;
  extended = refl;
  extension_inside = omega arith;
  named = refl;
  says_first = refl;
}

extract-finds_example :
    extract_ffs_file (0 + suc 1) (1 + suc 7) flash_image 152 apml_fv_guid apml_file_guid ≡ some apml
unfolding align8 fv_end_of
extract-finds_example =
    extract-finds flash_image apml_fv_guid apml_file_guid 0 0x10000 56 76 (other_file ∷ [])
      blob_file apml volume [] 1 7 (omega arith)
      (λ j none_before. absurd (omega (arith, none_before))) apml_volume refl
      (other_file-IsOther, tt) blob_file-IsRawFile refl (omega arith) refl (omega arith)

-- A block of zeros, and a volume of another file system with a length of 4 GiB less 64 KiB.
abbrev wrapping_header : Bytes
wrapping_header =
    0 ∷ 0 ∷ 0 ∷ 0 ∷ 0 ∷ 0 ∷ 0 ∷ 0 ∷ 0 ∷ 0 ∷ 0 ∷ 0 ∷ 0 ∷ 0 ∷ 0 ∷ 0 ∷ 1 ∷ 1 ∷ 1 ∷ 1 ∷ 1 ∷ 1 ∷ 1 ∷ 1
    ∷ 1 ∷ 1 ∷ 1 ∷ 1 ∷ 1 ∷ 1 ∷ 1 ∷ 1 ∷ 0 ∷ 0 ∷ 255 ∷ 255 ∷ 0 ∷ 0 ∷ 0 ∷ 0 ∷ 95 ∷ 70 ∷ 86 ∷ 72 ∷ 0 ∷ 0
    ∷ 0 ∷ 0 ∷ 0 ∷ 0 ∷ 0 ∷ 0 ∷ 0 ∷ 0 ∷ 0 ∷ 0 ∷ []

abbrev wrapping_image : Bytes
wrapping_image = replicate 65536 0 ++ (wrapping_header ++ (0 ∷ []))

wrapping_header_read : read_at (0x10000 * 1) 56 wrapping_image ≡ wrapping_header
wrapping_header_read =
    read_at-append 65536 56 (replicate 65536 0) wrapping_header (0 ∷ [])
      (length-replicate {A = ℕ} 65536 0) refl

wrapping_length : length wrapping_image ≡ 65593
wrapping_length = omega (
  arith,
  length-append (replicate 65536 0) (wrapping_header ++ (0 ∷ [])),
  length-replicate {A = ℕ} 65536 0,
)

first_block-Plain : (j : ℕ) → j < 1 → Plain wrapping_image (0x10000 * j)
unfolding fv_header_of
first_block-Plain zero first = refl
first_block-Plain (suc j) first = absurd (omega arith)

wrapping-WrapsToZero : WrapsToZero wrapping_image (0x10000 * 1)
unfolding fv_header_of guid_equal same guid_bytes fv_step
wrapping-WrapsToZero = record {
  signed =
      subst (λ x. ((fv_header_of x).signature == efi_fvh_signature) ≡ true)
        (sym wrapping_header_read) refl;
  other_files =
      subst (λ x. guid_equal (fv_header_of x).file_system_guid ffs2_guid ≡ false)
        (sym wrapping_header_read) refl;
  wraps =
      subst (λ x. 0x10000 * 1 + fv_step (fv_header_of x).fv_length ≡ 2 ^ 32)
        (sym wrapping_header_read) refl;
}

extract_hangs_example :
    extract_ffs_file 1000 9 wrapping_image 65593 apml_fv_guid apml_file_guid ≡ none
extract_hangs_example =
    extract_hangs wrapping_image 65593 apml_fv_guid apml_file_guid 1 (omega arith)
      (omega (arith, wrapping_length)) (omega arith) first_block-Plain wrapping-WrapsToZero 1000 9

-- A volume whose extended header would stand at 60 of 76 bytes.
abbrev cut_image : Bytes
cut_image =
    0 ∷ 0 ∷ 0 ∷ 0 ∷ 0 ∷ 0 ∷ 0 ∷ 0 ∷ 0 ∷ 0 ∷ 0 ∷ 0 ∷ 0 ∷ 0 ∷ 0 ∷ 0 ∷ 120 ∷ 229 ∷ 140 ∷ 140 ∷ 61 ∷ 138
    ∷ 28 ∷ 79 ∷ 153 ∷ 53 ∷ 137 ∷ 97 ∷ 133 ∷ 195 ∷ 45 ∷ 211 ∷ 0 ∷ 0 ∷ 1 ∷ 0 ∷ 0 ∷ 0 ∷ 0 ∷ 0 ∷ 95 ∷ 70
    ∷ 86 ∷ 72 ∷ 0 ∷ 0 ∷ 0 ∷ 0 ∷ 0 ∷ 0 ∷ 0 ∷ 0 ∷ 60 ∷ 0 ∷ 0 ∷ 0 ∷ 0 ∷ 0 ∷ 0 ∷ 0 ∷ 0 ∷ 0 ∷ 0 ∷ 0 ∷ 0
    ∷ 0 ∷ 0 ∷ 0 ∷ 0 ∷ 0 ∷ 0 ∷ 0 ∷ 0 ∷ 0 ∷ 0 ∷ 0 ∷ []

cut_image-CutShort : CutShort cut_image 76 apml_fv_guid apml_file_guid 9 0
unfolding fv_header_of guid_equal same guid_bytes
cut_image-CutShort = record { signed = refl; ffs2 = refl; extended = refl; outside = omega arith }

search-CutShort_example :
    search (suc (suc 0)) 9 cut_image 76 apml_fv_guid apml_file_guid true 0 ≡ some []
search-CutShort_example =
    search-CutShort cut_image 76 apml_fv_guid apml_file_guid 9 0 0 (omega arith) (omega arith)
      (omega arith) cut_image-CutShort
