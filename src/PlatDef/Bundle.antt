-- ===== src/PlatDef/Bundle.antt =====
-- src/platdef_extract.cpp: the bundle that the flash holds, and what it decompresses to.
--
-- zlib is a parameter: the bytes that `uncompress` writes for a capacity and a source, or none when
-- it does not return `Z_OK`. A result of `none` is a call that is handed bytes behind the blob.
pub mod Calls
pub mod Small
use ocp_canopy_open_bmc.Common.{
  ℕ, ◌+◌, ◌-◌, ◌*◌, ◌^◌, not, ◌||◌, ltb, ◌==◌, bit_and, if◌then◌else◌, Option, none, some, [], ◌∷◌,
  ◌++◌, Bytes, length, drop, read_at, load_le, same,
}
use ocp_canopy_open_bmc.UefiFv.{word}
use ocp_canopy_open_bmc.PlatDef.{range_at}

-- `PlatDefTableData`: the fields that decide.
pub record PlatDefTableData : Type 0 where
  pub flags : ℕ
  pub total_size : ℕ
  pub compressed_size : ℕ

abbrev pub bundle_header_size : ℕ
bundle_header_size = 32

abbrev pub table_data_size : ℕ
table_data_size = 112

abbrev pub table_data_flag_zlib : ℕ
table_data_flag_zlib = 0x0010

unfoldable pub table_data_of : Bytes → PlatDefTableData
table_data_of bs = record {
  flags = load_le 64 2 bs;
  total_size = load_le 76 4 bs;
  compressed_size = load_le 96 4 bs;
}

-- `PLATDEF_BUNDLE_SIGNATURE`, "$PlatdefBundle1$"
abbrev pub platdef_bundle_signature : Bytes
platdef_bundle_signature =
    36 ∷ 80 ∷ 108 ∷ 97 ∷ 116 ∷ 100 ∷ 101 ∷ 102 ∷ 66 ∷ 117 ∷ 110 ∷ 100 ∷ 108 ∷ 101 ∷ 49 ∷ 36 ∷ []

-- The size of the output buffer behind the table data.
unfoldable pub decomp_size : ℕ → ℕ
decomp_size total_size =
    if total_size == 0 || ltb (512 * 1024) total_size then 256 * 1024 else total_size

-- The blob that is returned: the table data and the records, or nothing.
unfoldable pub inflated : Bytes → Option Bytes → Bytes
inflated table none = []
inflated table (some records) = table ++ records

unfoldable pub call_uncompress :
    (ℕ → Bytes → Option Bytes) → Bytes → ℕ → Option Bytes → Option Bytes
call_uncompress uncompress table capacity none = none
call_uncompress uncompress table capacity (some source) =
    some (inflated table (uncompress capacity source))

-- The part behind the two checks of the bundle.
unfoldable pub decompress_table : (ℕ → Bytes → Option Bytes) → Bytes → Bytes → Option Bytes
decompress_table uncompress raw table =
    let hdr = table_data_of table in
    let comp_offset = word (bundle_header_size + table_data_size) in
    let comp_size = hdr.compressed_size - table_data_size in
    if bit_and hdr.flags table_data_flag_zlib == 0
    then some (drop bundle_header_size raw)
    else if ltb hdr.compressed_size table_data_size
    then some []
    else if ltb (length raw) (word (comp_offset + comp_size))
    then some []
    else call_uncompress uncompress table (decomp_size hdr.total_size)
        (range_at comp_offset comp_size raw)

-- `decompressPlatDef`
unfoldable pub decompress_plat_def : (ℕ → Bytes → Option Bytes) → Bytes → Option Bytes
decompress_plat_def uncompress raw =
    if ltb (length raw) bundle_header_size
    then some []
    else if not (same (read_at 0 16 raw) platdef_bundle_signature)
    then some []
    else if ltb (length raw) (bundle_header_size + table_data_size)
    then some []
    else decompress_table uncompress raw (read_at bundle_header_size table_data_size raw)
