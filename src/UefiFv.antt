-- ===== src/UefiFv.antt =====
-- src/uefi_fv.cpp: the search of a UEFI firmware image for the payload of one file.
--
-- The image is its bytes. Of the input stream only `good()` is state: a read that does not get all
-- its bytes sets the fail bit, nothing clears it, and a stream that is not good neither seeks nor
-- reads. `size_t` has 32 bits, as on the ARMv6 target (meta-canopy/meta-hpe/meta-gxp/conf/machine).
-- Walk and Search hold the two loops.
pub mod Walk
pub mod Search
pub mod Reads
pub mod Termination
pub mod Hang
pub mod Sound
pub mod Files
pub mod Image
use ocp_canopy_open_bmc.Common.{
  ℕ, zero, suc, ◌+◌, ◌-◌, ◌*◌, ◌%◌, ◌^◌, bit_and, Bool, true, false, not, ◌&&◌, ltb, leb, ◌==◌,
  if◌then◌else◌, Option, none, some, [], ◌∷◌, ◌++◌, Bytes, length, take, get_or, read_at, le_bytes,
  load_le, same,
}

-- Arithmetic on `size_t`.
abbrev pub word : ℕ → ℕ
word n = n % 2 ^ 32

-- `EfiGuid`
pub record EfiGuid : Type 0 where
  pub data1 : ℕ
  pub data2 : ℕ
  pub data3 : ℕ
  pub data4 : Bytes

-- The bytes that `memcmp` compares.
unfoldable pub guid_bytes : EfiGuid → Bytes
guid_bytes g = le_bytes 4 g.data1 ++ (le_bytes 2 g.data2 ++ (le_bytes 2 g.data3 ++ g.data4))

-- `EfiFvHeader`: the fields that the search reads.
pub record EfiFvHeader : Type 0 where
  pub file_system_guid : Bytes
  pub fv_length : ℕ
  pub signature : ℕ
  pub ext_header_offset : ℕ

-- `EfiFvExtHeader`
pub record EfiFvExtHeader : Type 0 where
  pub fv_name : Bytes
  pub ext_header_size : ℕ

-- `EfiFfsFileHeader`: the fields that the search reads.
pub record EfiFfsFileHeader : Type 0 where
  pub name : Bytes
  pub file_type : ℕ
  pub attributes : ℕ
  pub size : Bytes

abbrev pub fv_header_size : ℕ
fv_header_size = 56

abbrev pub ext_header_struct_size : ℕ
ext_header_struct_size = 20

abbrev pub ffs_header_size : ℕ
ffs_header_size = 24

abbrev pub section_header_size : ℕ
section_header_size = 4

unfoldable pub fv_header_of : Bytes → EfiFvHeader
fv_header_of bs = record {
  file_system_guid = read_at 16 16 bs;
  fv_length = load_le 32 8 bs;
  signature = load_le 40 4 bs;
  ext_header_offset = load_le 52 2 bs;
}

unfoldable pub ext_header_of : Bytes → EfiFvExtHeader
ext_header_of bs = record { fv_name = read_at 0 16 bs; ext_header_size = load_le 16 4 bs }

unfoldable pub ffs_header_of : Bytes → EfiFfsFileHeader
ffs_header_of bs = record {
  name = read_at 0 16 bs;
  file_type = get_or bs 18 0;
  attributes = get_or bs 19 0;
  size = read_at 20 3 bs;
}

abbrev pub efi_fvh_signature : ℕ
efi_fvh_signature = 0x4856465F

abbrev pub efi_fv_file_type_freeform : ℕ
efi_fv_file_type_freeform = 0x02

abbrev pub efi_ffs_large_file : ℕ
efi_ffs_large_file = 0x01

abbrev pub efi_section_raw : ℕ
efi_section_raw = 0x19

abbrev pub efi_section_guid_defined : ℕ
efi_section_guid_defined = 0x02

abbrev pub ffs2_guid : EfiGuid
ffs2_guid = record {
  data1 = 0x8C8CE578;
  data2 = 0x8A3D;
  data3 = 0x4F1C;
  data4 = 0x99 ∷ 0x35 ∷ 0x89 ∷ 0x61 ∷ 0x85 ∷ 0xC3 ∷ 0x2D ∷ 0xD3 ∷ [];
}

abbrev all_ff : EfiGuid
all_ff = record {
  data1 = 0xFFFFFFFF;
  data2 = 0xFFFF;
  data3 = 0xFFFF;
  data4 = 0xFF ∷ 0xFF ∷ 0xFF ∷ 0xFF ∷ 0xFF ∷ 0xFF ∷ 0xFF ∷ 0xFF ∷ [];
}

-- `guidEqual`, on the bytes of a struct that was read and on a GUID.
unfoldable pub guid_equal : Bytes → EfiGuid → Bool
guid_equal bs g = same bs (guid_bytes g)

-- `guidIsAllFf`
unfoldable pub guid_is_all_ff : Bytes → Bool
guid_is_all_ff bs = guid_equal bs all_ff

-- `ffsFileSize`: shifted bytes do not overlap, so their bitwise or is their sum.
unfoldable pub ffs_file_size : EfiFfsFileHeader → ℕ
ffs_file_size hdr =
    get_or hdr.size 0 0 + (get_or hdr.size 1 0 * 2 ^ 8 + get_or hdr.size 2 0 * 2 ^ 16)

-- `rom.seekg(off); rom.read(…, n)` on a stream with this `good()`: the bytes, or no longer good.
unfoldable pub seek_read : Bytes → Bool → ℕ → ℕ → Option Bytes
seek_read rom good off n =
    if good && leb (off + n) (length rom) then some (read_at off n rom) else none
