-- ===== src/Smbios.antt =====
-- src/smbios_writer.cpp: the writer that gathers SMBIOS records from the host and stores them as
-- a file with an MDR header and an SMBIOS 3.0 entry point.
--
-- The file system and the clock are a stream of answers, one for each call of `finalize`. The
-- directory is the content of its file `smbios2`; the temporary file is not kept in the model.
pub mod Blob
pub mod Image
use ocp_canopy_open_bmc.Common.{
  ℕ, zero, suc, ◌+◌, ◌-◌, ◌*◌, ◌%◌, ◌^◌, Bool, true, false, ◌||◌, ◌==◌, ltb, leb, if◌then◌else◌,
  Option, none, some, [], ◌∷◌, ◌++◌, Bytes, length, take, le_bytes, load_le, read_at,
}

-- `MdrHeader`
pub record MdrHeader : Type 0 where
  pub dir_ver : ℕ
  pub mdr_type : ℕ
  pub timestamp : ℕ
  pub data_size : ℕ

-- `Smbios3EntryPoint`
pub record Smbios3EntryPoint : Type 0 where
  pub anchor_string : Bytes
  pub checksum : ℕ
  pub entry_point_length : ℕ
  pub smbios_major : ℕ
  pub smbios_minor : ℕ
  pub smbios_docrev : ℕ
  pub entry_point_revision : ℕ
  pub reserved : ℕ
  pub structure_table_max_size : ℕ
  pub structure_table_address : ℕ

abbrev pub max_smbios_data_size : ℕ
max_smbios_data_size = 1024 * 1024

abbrev pub max_records_per_blob : ℕ
max_records_per_blob = 1000

-- How the file operations of one call of `finalize` end. The stream is tested before its destructor
-- writes out what it still holds: where that fails, so many bytes of the file are out, and the file
-- gets its name all the same.
pub data FileOutcome : Type 0 where
  directory_failed open_failed write_failed rename_failed written : FileOutcome
  cut_short : ℕ → FileOutcome

-- What one call of `finalize` meets: its files and the clock's seconds.
pub record Surroundings : Type 0 where
  pub files : FileOutcome
  pub epoch : ℕ

-- `SmbiosWriter`, with the file that it writes.
pub record Writer : Type 0 where
  pub records : Bytes
  pub directory_version : ℕ
  pub output : Option Bytes
  pub surroundings : ℕ → Surroundings

-- `begin`
unfoldable pub begin : Writer → Writer
begin w = record w { records = [] }

-- The loop of `addRecord`: `n` rounds are left of the (capped) record count.
unfoldable pub add_loop : ℕ → Bytes → ℕ → Bytes → Bytes
add_loop zero blob offset records = records
add_loop (suc n) blob offset records =
    let rec_size = load_le offset 2 blob in
    let start = offset + 2 in
    let rest = add_loop n blob (start + rec_size) (records ++ read_at start rec_size blob) in
    if leb (offset + 2) (length blob)
    then (if rec_size == 0 || ltb (length blob) (start + rec_size)
        then records
        else if ltb max_smbios_data_size (length records + rec_size)
        then records
        else rest)
    else records

-- The record count of a blob, capped.
unfoldable pub blob_count : Bytes → ℕ
blob_count blob =
    let count = load_le 0 4 blob in
    if ltb max_records_per_blob count then max_records_per_blob else count

-- `addRecord`
unfoldable pub add_record : Bytes → Writer → Writer
add_record blob w =
    if ltb (length blob) 6
    then w
    else record w { records = add_loop (blob_count blob) blob 4 w.records }

-- `dataSize`
unfoldable pub data_size : Writer → ℕ
data_size w = length w.records

-- The bytes of the packed structs.
unfoldable pub mdr_header_bytes : MdrHeader → Bytes
mdr_header_bytes m =
    le_bytes 1 m.dir_ver
    ++ (le_bytes 1 m.mdr_type ++ (le_bytes 4 m.timestamp ++ le_bytes 4 m.data_size))

unfoldable pub entry_point_bytes : Smbios3EntryPoint → Bytes
entry_point_bytes ep =
    ep.anchor_string
    ++ (le_bytes 1 ep.checksum
        ++ (le_bytes 1 ep.entry_point_length
            ++ (le_bytes 1 ep.smbios_major
                ++ (le_bytes 1 ep.smbios_minor
                    ++ (le_bytes 1 ep.smbios_docrev
                        ++ (le_bytes 1 ep.entry_point_revision
                            ++ (le_bytes 1 ep.reserved
                                ++ (le_bytes 4 ep.structure_table_max_size
                                    ++ le_bytes 8 ep.structure_table_address))))))))

-- The loop of `computeChecksum` over the bytes from index `i` on, with a `uint8_t` sum.
unfoldable pub sum_bytes : ℕ → Bytes → ℕ → ℕ
sum_bytes i [] sum = sum
sum_bytes i (b ∷ bs) sum = sum_bytes (i + 1) bs (if i == 5 then sum else (sum + b) % 256)

-- `computeChecksum`
unfoldable pub compute_checksum : Smbios3EntryPoint → ℕ
compute_checksum ep = (256 - sum_bytes 0 (entry_point_bytes ep) 0) % 256

-- The entry point that `finalize` builds for a table of a given size, before and with its checksum.
unfoldable pub blank_entry_point : ℕ → Smbios3EntryPoint
blank_entry_point size = record {
  anchor_string = b'_' ∷ b'S' ∷ b'M' ∷ b'3' ∷ b'_' ∷ [];
  checksum = 0;
  entry_point_length = 24;
  smbios_major = 3;
  smbios_minor = 3;
  smbios_docrev = 0;
  entry_point_revision = 1;
  reserved = 0;
  structure_table_max_size = size % 2 ^ 32;
  structure_table_address = 0;
}

unfoldable pub entry_point : ℕ → Smbios3EntryPoint
entry_point size = let ep = blank_entry_point size in record ep { checksum = compute_checksum ep }

-- The bytes that `finalize` writes out.
unfoldable pub image : ℕ → ℕ → Bytes → Bytes
image version epoch records =
    mdr_header_bytes (record {
      dir_ver = version;
      mdr_type = 2;
      timestamp = epoch % 2 ^ 32;
      data_size = (24 + length records) % 2 ^ 32;
    })
    ++ (entry_point_bytes (entry_point (length records)) ++ records)

-- The state behind a call of `finalize` that has reached its files.
abbrev used : Writer → Writer
used w = record w { surroundings = λ n. w.surroundings (suc n) }

-- The version is counted up before the temporary file is opened.
abbrev counted : Writer → Writer
counted w = record (used w) { directory_version = (w.directory_version + 1) % 256 }

-- The file operations of `finalize`, for records that are not empty.
unfoldable pub write_files : FileOutcome → ℕ → Writer → Bool × Writer
write_files FileOutcome.directory_failed epoch w = (false, used w)
write_files FileOutcome.written epoch w =
    let w' = counted w in
    (true, record w' { output = some (image w'.directory_version epoch w.records) })
write_files (FileOutcome.cut_short n) epoch w =
    let w' = counted w in
    (true, record w' { output = some (take n (image w'.directory_version epoch w.records)) })
write_files _ epoch w = (false, counted w)

-- `finalize`
unfoldable pub finalize : Writer → Bool × Writer
finalize w =
    let now = w.surroundings 0 in
    if length w.records == 0 then (false, w) else write_files now.files now.epoch w
