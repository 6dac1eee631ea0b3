-- ===== src/PlatDef/Extract.antt =====
-- src/platdef_extract.cpp: the flash partition of the host, and the PlatDef blob in it.
--
-- The entries of /sys/class/mtd are a list in the order of the iteration; `open_file` is the
-- contents of a device node, or none when it does not open. A result of `none` is a search that
-- does not end within the fuel, or a call of zlib with bytes behind the blob.
use ocp_canopy_open_bmc.Common.{
  ℕ, ◌==◌, if◌then◌else◌, Bool, ◌||◌, Option, none, some, List, [], ◌∷◌, ◌++◌, Bytes, length, same,
}
use ocp_canopy_open_bmc.UefiFv.{EfiGuid}
use ocp_canopy_open_bmc.UefiFv.Search.{extract_ffs_file}
use ocp_canopy_open_bmc.PlatDef.Bundle.{decompress_plat_def}

-- An entry of /sys/class/mtd, and its file `name` unless there is none or it does not open.
pub record MtdEntry : Type 0 where
  pub dev_name : Bytes
  pub name_file : Option Bytes

-- `std::getline`
unfoldable pub first_line : Bytes → Bytes
first_line [] = []
first_line (c ∷ cs) = let rest = first_line cs in if c == 10 then [] else c ∷ rest

-- "ro"
abbrev pub ro_suffix : Bytes
ro_suffix = 114 ∷ 111 ∷ []

-- `ends_with`
unfoldable pub ends_with : Bytes → Bytes → Bool
ends_with suffix [] = same [] suffix
ends_with suffix (c ∷ cs) = same (c ∷ cs) suffix || ends_with suffix cs

-- "/dev/"
abbrev pub dev_prefix : Bytes
dev_prefix = 47 ∷ 100 ∷ 101 ∷ 118 ∷ 47 ∷ []

-- "host-prime"
abbrev pub host_prime : Bytes
host_prime = 104 ∷ 111 ∷ 115 ∷ 116 ∷ 45 ∷ 112 ∷ 114 ∷ 105 ∷ 109 ∷ 101 ∷ []

-- A round for an entry: its path, or that of a later entry.
unfoldable pub on_name_file : Bytes → Bytes → Bytes → Option Bytes → Bytes
on_name_file label dev_name later none = later
on_name_file label dev_name later (some text) =
    if same (first_line text) label then dev_prefix ++ dev_name else later

-- `findMtdByLabel`
unfoldable pub find_mtd_by_label : Bytes → List MtdEntry → Bytes
find_mtd_by_label label [] = []
find_mtd_by_label label (e ∷ es) =
    let later = find_mtd_by_label label es in
    if ends_with ro_suffix e.dev_name
    then later
    else on_name_file label e.dev_name later e.name_file

-- {7EBF5AB8-525E-417C-9B6B-5EF367856954}
abbrev pub apml_fv_guid : EfiGuid
apml_fv_guid = record {
  data1 = 0x7EBF5AB8;
  data2 = 0x525E;
  data3 = 0x417C;
  data4 = 0x9B ∷ 0x6B ∷ 0x5E ∷ 0xF3 ∷ 0x67 ∷ 0x85 ∷ 0x69 ∷ 0x54 ∷ [];
}

-- {C5F6001C-39B4-43DD-9B9B-6832F1BB4BE9}
abbrev pub apml_file_guid : EfiGuid
apml_file_guid = record {
  data1 = 0xC5F6001C;
  data2 = 0x39B4;
  data3 = 0x43DD;
  data4 = 0x9B ∷ 0x9B ∷ 0x68 ∷ 0x32 ∷ 0xF1 ∷ 0xBB ∷ 0x4B ∷ 0xE9 ∷ [];
}

unfoldable pub on_raw : (ℕ → Bytes → Option Bytes) → Option Bytes → Option Bytes
on_raw uncompress none = none
on_raw uncompress (some raw) =
    if length raw == 0 then some [] else decompress_plat_def uncompress raw

unfoldable pub on_rom : ℕ → ℕ → (ℕ → Bytes → Option Bytes) → Option Bytes → Option Bytes
on_rom fuel walk_fuel uncompress none = some []
on_rom fuel walk_fuel uncompress (some rom) =
    let raw = extract_ffs_file fuel walk_fuel rom (length rom) apml_fv_guid apml_file_guid in
    if length rom == 0 then some [] else on_raw uncompress raw

-- `extractPlatDef`
unfoldable pub extract_plat_def :
    ℕ → ℕ → (ℕ → Bytes → Option Bytes) → (Bytes → Option Bytes) → List MtdEntry → Option Bytes
extract_plat_def fuel walk_fuel uncompress open_file mtds =
    let path = find_mtd_by_label host_prime mtds in
    if length path == 0 then some [] else on_rom fuel walk_fuel uncompress (open_file path)
