-- ===== src/Smbios/Image.antt =====
-- The file that `finalize` writes, and when it is written.
use ocp_canopy_open_bmc.Common.{
  ℕ, ◌+◌, ◌-◌, ◌%◌, ◌^◌, ◌≤◌, ◌<◌, ◌≡◌, refl, sym, subst, ◌∙◌, ◌⊎◌, inl, inr, Bool, true, false,
  not, ◌&&◌, if◌then◌else◌, Option, some, [], ◌∷◌, ◌++◌, arith, ◌==◌, Bytes, length, take, drop,
  read_at, load_le, le_value-le_bytes,
}
use ocp_canopy_open_bmc.Smbios.{
  FileOutcome, Smbios3EntryPoint, Writer, mdr_header_bytes, entry_point_bytes, sum_bytes,
  compute_checksum, blank_entry_point, entry_point, image, write_files, finalize,
  max_smbios_data_size,
}

abbrev pub byte_sum : Bytes → ℕ
byte_sum [] = 0
byte_sum (b ∷ bs) = b + byte_sum bs

sum_bytes-late :
    (i : ℕ) (bs : Bytes) (sum : ℕ)
    → 5 < i
    → sum < 256
    → sum_bytes i bs sum ≡ (sum + byte_sum bs) % 256
unfolding sum_bytes
sum_bytes-late i [] sum late small = omega arith
sum_bytes-late i (b ∷ bs) sum late small =
    let other : (i == 5) ≡ false = ground arith in
    rw other
      (omega (arith, sum_bytes-late (i + 1) bs ((sum + b) % 256) (omega arith) (omega arith)))

-- The loop adds up all the bytes but the one at index 5.
sum_bytes-skip :
    (a : Bytes) (c : ℕ) (rest : Bytes)
    → length a ≡ 5
    → sum_bytes 0 (a ++ (c ∷ rest)) 0 ≡ (byte_sum a + byte_sum rest) % 256
unfolding sum_bytes
sum_bytes-skip (a₀ ∷ a₁ ∷ a₂ ∷ a₃ ∷ a₄ ∷ []) c rest h =
    let sum = (((((0 + a₀) % 256 + a₁) % 256 + a₂) % 256 + a₃) % 256 + a₄) % 256 in
    sum_bytes-late 6 rest sum (omega arith) (omega arith) ∙ omega arith
sum_bytes-skip _ c rest h = absurd (omega arith)

byte_sum-append : (xs ys : Bytes) → byte_sum (xs ++ ys) ≡ byte_sum xs + byte_sum ys
byte_sum-append [] ys = omega arith
byte_sum-append (x ∷ xs) ys = omega (arith, byte_sum-append xs ys)

balanced :
    (a : Bytes) (c : ℕ) (rest : Bytes)
    → length a ≡ 5
    → byte_sum (a ++ (((256 - sum_bytes 0 (a ++ (c ∷ rest)) 0) % 256 % 256) ∷ rest)) % 256 ≡ 0
balanced a c rest h = omega (
  arith,
  sum_bytes-skip a c rest h,
  byte_sum-append a (((256 - sum_bytes 0 (a ++ (c ∷ rest)) 0) % 256 % 256) ∷ rest),
)

-- With the checksum that `computeChecksum` returns, the bytes of an entry point add up to zero
-- modulo 256, if the anchor has its five bytes.
pub checksum-byte_sum :
    (ep : Smbios3EntryPoint)
    → length ep.anchor_string ≡ 5
    → byte_sum (entry_point_bytes (record ep { checksum = compute_checksum ep })) % 256 ≡ 0
unfolding compute_checksum entry_point_bytes
checksum-byte_sum ep h = balanced ep.anchor_string (ep.checksum % 256) _ h

-- What a reader of `smbios2` finds at the places that the formats fix.
pub record IsImage (file : Bytes) (version epoch : ℕ) (records : Bytes) : Type 0 where
  pub directory_version : load_le 0 1 file ≡ version
  pub mdr_type : load_le 1 1 file ≡ 2
  pub timestamp : load_le 2 4 file ≡ epoch % 2 ^ 32
  pub mdr_size : load_le 6 4 file ≡ length (drop 10 file)
  pub anchor : read_at 10 5 file ≡ b'_' ∷ b'S' ∷ b'M' ∷ b'3' ∷ b'_' ∷ []
  pub entry_length : load_le 16 1 file ≡ 24
  pub balanced_entry : byte_sum (read_at 10 24 file) % 256 ≡ 0
  pub table_size : load_le 22 4 file ≡ length records
  pub table : drop 34 file ≡ records

image-IsImage :
    (version epoch : ℕ) (records : Bytes)
    → version < 256
    → length records ≤ max_smbios_data_size
    → IsImage (image version epoch records) version epoch records
unfolding image mdr_header_bytes entry_point_bytes entry_point blank_entry_point
image-IsImage version epoch records v small = record {
  directory_version = le_value-le_bytes 1 version (omega arith);
  mdr_type = refl;
  timestamp = le_value-le_bytes 4 (epoch % 2 ^ 32) (omega arith);
  mdr_size = le_value-le_bytes 4 ((24 + length records) % 2 ^ 32) (omega arith) ∙ omega arith;
  anchor = refl;
  entry_length = refl;
  balanced_entry = checksum-byte_sum (blank_entry_point (length records)) refl;
  table_size = le_value-le_bytes 4 (length records % 2 ^ 32) (omega arith) ∙ omega arith;
  table = refl;
}

-- When the records get to the file whole: there are some, and every file operation went through.
abbrev pub Succeeds : Writer → Type 0
Succeeds w = (0 < length w.records) × ((w.surroundings 0).files ≡ FileOutcome.written)

-- The image that a call of `finalize` is about.
abbrev pub next_image : Writer → Bytes
next_image w = image ((w.directory_version + 1) % 256) (w.surroundings 0).epoch w.records

-- Whether the file gets its name, and how much of its bytes it has then.
abbrev is_named : FileOutcome → Bool
is_named FileOutcome.written = true
is_named (FileOutcome.cut_short n) = true
is_named _ = false

abbrev kept : FileOutcome → Bytes → Bytes
kept (FileOutcome.cut_short n) bs = take n bs
kept _ bs = bs

abbrev has_directory : FileOutcome → Bool
has_directory FileOutcome.directory_failed = false
has_directory _ = true

-- `finalize` returns true exactly when there are records, and the temporary file opens, is good
-- behind the last write and is renamed. Then the file is the image of the records under the next
-- directory version (modulo 256), the complete image unless closing the stream fails, and else so
-- many bytes of it as are out by then. When it returns false, the file is what it was. The version
-- is counted up also when it fails, except for want of records or of the directory. The records
-- stay in any case.
pub finalize_outcome :
    (w : Writer)
    → let files = (w.surroundings 0).files in
      let some_records = not (length w.records == 0) in
      let ok = some_records && is_named files in
      ((finalize w).0 ≡ ok)
      × ((finalize w).1.output ≡ (if ok then some (kept files (next_image w)) else w.output))
      × ((finalize w).1.directory_version ≡ (
          if some_records && has_directory files
          then (w.directory_version + 1) % 256
          else w.directory_version))
      × ((finalize w).1.records ≡ w.records)
unfolding finalize write_files
finalize_outcome w = (ground arith, ground arith, ground arith, ground arith)

pub finalize-Succeeds :
    (w : Writer)
    → Succeeds w
    → ((finalize w).0 ≡ true) × ((finalize w).1.output ≡ some (next_image w))
unfolding finalize write_files
finalize-Succeeds w ok = (ground (arith, ok), ground (arith, ok))

pub next_image-IsImage :
    (w : Writer)
    → length w.records ≤ max_smbios_data_size
    → IsImage (next_image w) ((w.directory_version + 1) % 256) (w.surroundings 0).epoch w.records
next_image-IsImage w small = image-IsImage _ _ w.records (omega arith) small

-- A file that is the one meant, or what a failed flush has left of it.
abbrev pub Whole : FileOutcome → Bytes → Option Bytes → Type 0
Whole files file output =
    ((files ≡ FileOutcome.written) × (output ≡ some file))
    ⊎ ((n : ℕ) × (files ≡ FileOutcome.cut_short n) × (output ≡ some (take n file)))

named-Whole :
    (files : FileOutcome) (file : Bytes)
    → is_named files ≡ true
    → Whole files file (some (kept files file))
named-Whole FileOutcome.written file named = inl (refl, refl)
named-Whole (FileOutcome.cut_short n) file named = inr (n, refl, refl)
named-Whole FileOutcome.directory_failed file named = absurd (cc named)
named-Whole FileOutcome.open_failed file named = absurd (cc named)
named-Whole FileOutcome.write_failed file named = absurd (cc named)
named-Whole FileOutcome.rename_failed file named = absurd (cc named)

-- Let `finalize` return true on a store within its limit. Then the file, or what a flush that failed
-- when the stream was closed has left of it, is an image with the next directory version in its MDR
-- header and the sizes that belong to it, a balanced entry point that gives the size of the table,
-- and the records, byte for byte, at offset 34. Unless that flush fails, it is the whole image.
pub finalize-IsImage :
    (w : Writer)
    → length w.records ≤ max_smbios_data_size
    → (finalize w).0 ≡ true
    → (file : Bytes) × IsImage file
        ((w.directory_version + 1) % 256)
        (w.surroundings 0).epoch
        w.records
      × Whole (w.surroundings 0).files file (finalize w).1.output
finalize-IsImage w small done =
    let files = (w.surroundings 0).files in
    let (returns, left, _, _) = finalize_outcome w in
    let ok : (not (length w.records == 0) && is_named files) ≡ true = sym returns ∙ done in
    let output : (finalize w).1.output ≡ some (kept files (next_image w)) = rw ok at left in
    (
      next_image w,
      next_image-IsImage w small,
      subst (Whole files (next_image w)) (sym output)
          (named-Whole files (next_image w) (ground (arith, ok))),
    )
