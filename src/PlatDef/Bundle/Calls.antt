-- ===== src/PlatDef/Bundle/Calls.antt =====
-- What `uncompress` is handed, and what comes back for a bundle.
use ocp_canopy_open_bmc.Common.{
  ℕ, ◌+◌, ◌-◌, ◌^◌, ◌≤◌, ◌<◌, ◌≡◌, ◌↔◌, refl, ap, sym, ◌∙◌, Bool, true, false, not, ltb, le→ltb,
  ltb→le, ◌==◌, bit_and, if◌then◌else◌, Option, none, some, ◌++◌, append_assoc, arith, Bytes,
  IsBytes, length, length-append, take, take-append, drop, length-take, length-drop, read_at,
  read_at-append, load_le, le_value-lt, same, same_iff,
}
use ocp_canopy_open_bmc.UefiFv.{word}
use ocp_canopy_open_bmc.UefiFv.Reads.{read_at-IsBytes}
use ocp_canopy_open_bmc.PlatDef.{range_at}
use ocp_canopy_open_bmc.PlatDef.Ranges.{range_at-none, range_at-inside}
use ocp_canopy_open_bmc.PlatDef.Bundle.{
  table_data_of, platdef_bundle_signature, decomp_size, inflated, call_uncompress, decompress_table,
  decompress_plat_def,
}

abbrev pub table_bytes : Bytes → Bytes
table_bytes raw = read_at 32 112 raw

-- A blob with both headers, whose records are compressed.
pub record IsZlibBundle (raw : Bytes) : Type 0 where
  pub fits : 144 ≤ length raw
  pub signed : read_at 0 16 raw ≡ platdef_bundle_signature
  pub zlib : (bit_and (load_le 64 2 (table_bytes raw)) 0x10 == 0) ≡ false

load_le-lt : (off : ℕ) (bs : Bytes) → IsBytes bs → off + 4 ≤ length bs → load_le off 4 bs < 2 ^ 32
load_le-lt off bs bytes fits =
    let field = read_at off 4 bs in
    omega (
      arith,
      le_value-lt field (read_at-IsBytes off 4 bs bytes),
      ap (λ n. 256 ^ n) {x = length field} {y = 4}
          (omega (arith, length-take 4 (drop off bs), length-drop off bs)),
    )

not-false : (b : Bool) → not b ≡ false → b ≡ true
not-false b h = ground arith

-- A guard that returns, in front of code for which a condition says when it fails.
guarded :
    (b : Bool) (a : Bytes) (x : Option Bytes) (P : Type 0)
    → (P → b ≡ false)
    → (b ≡ false → (x ≡ none) ↔ P)
    → ((if b then some a else x) ≡ none) ↔ P
guarded true a x P passes rest =
    (λ e. absurd (ground arith), λ p. absurd (ground (arith, passes p)))
guarded false a x P passes rest = rest refl

module _ (uncompress : ℕ → Bytes → Option Bytes) where
  call_uncompress-none :
      (table : Bytes) (capacity : ℕ) (source : Option Bytes)
      → (call_uncompress uncompress table capacity source ≡ none) ↔ (source ≡ none)
  unfolding call_uncompress
  call_uncompress-none table capacity none = ground arith
  call_uncompress-none table capacity (some source) = ground arith

  decompress_table-none :
      (raw table : Bytes)
      → 144 ≤ length raw
      → length raw ≤ 2 ^ 31
      → load_le 96 4 table < 2 ^ 32
      → (decompress_table uncompress raw table ≡ none)
        ↔ (((bit_and (load_le 64 2 table) 0x10 == 0) ≡ false) × (2 ^ 32 ≤ load_le 96 4 table + 32))
  unfolding decompress_table table_data_of
  decompress_table-none raw table fits low word_size =
      let zlib = bit_and (load_le 64 2 table) 0x10 == 0 in
      let size = load_le 96 4 table in
      let source = range_at 144 (size - 112) raw in
      let call = call_uncompress-none table (decomp_size (load_le 76 4 table)) source in
      let range = range_at-none 144 (size - 112) raw in
      guarded zlib _ _ _ (λ p. p.0)
        (λ packed.
          guarded (ltb size 112) _ _ _ (λ p. le→ltb size 112 (omega (arith, p.1)))
            (λ full.
              guarded (ltb (length raw) (word (144 + (size - 112)))) _ _ _
                (λ p. le→ltb (length raw) (word (144 + (size - 112))) (omega (arith, p.1)))
                (λ within.
                  let ends = ltb→le (length raw) (word (144 + (size - 112))) within in
                  let starts = ltb→le size 112 full in
                  (
                    λ e. (packed, omega (arith, range.0 (call.0 e), ends, starts)),
                    λ p. call.1 (range.1 (omega (arith, p.1))),
                  ))))

  -- For a blob of at most 2 GiB of bytes: `uncompress` is handed bytes behind the blob exactly
  -- when the blob has both headers, the flag for zlib, and a compressed size of at least 2^32 -
  -- 32, whose end wraps around in 32 bits.
  pub decompress-leaves :
      (raw : Bytes)
      → IsBytes raw
      → length raw ≤ 2 ^ 31
      → (decompress_plat_def uncompress raw ≡ none)
        ↔ (IsZlibBundle raw × (2 ^ 32 ≤ load_le 96 4 (table_bytes raw) + 32))
  unfolding decompress_plat_def
  decompress-leaves raw bytes low =
      let sign = same_iff (read_at 0 16 raw) platdef_bundle_signature in
      guarded (ltb (length raw) 32) _ _ _ (λ p. le→ltb (length raw) 32 (omega (arith, p.0.fits)))
        (λ long.
          guarded (not (same (read_at 0 16 raw) platdef_bundle_signature)) _ _ _
            (λ p. ap not (sign.1 p.0.signed))
            (λ signed.
              guarded (ltb (length raw) 144) _ _ _
                (λ p. le→ltb (length raw) 144 (omega (arith, p.0.fits)))
                (λ whole.
                  let fits = ltb→le (length raw) 144 whole in
                  let size : 96 + 4 ≤ length (table_bytes raw) =
                    omega (arith, length-take 112 (drop 32 raw), length-drop 32 raw) in
                  let table =
                    decompress_table-none raw (table_bytes raw) fits low
                      (load_le-lt 96 (table_bytes raw) (read_at-IsBytes 32 112 raw bytes) size) in
                  (
                    λ e. (
                      record {
                        fits = fits;
                        signed =
                            sign.0
                              (not-false (same (read_at 0 16 raw) platdef_bundle_signature) signed);
                        zlib = (table.0 e).0;
                      },
                      (table.0 e).1,
                    ),
                    λ p. table.1 (p.0.zlib, p.1),
                  ))))

  decompress-reads :
      (raw table compressed records : Bytes)
      → 144 + length compressed ≤ length raw
      → read_at 0 16 raw ≡ platdef_bundle_signature
      → read_at 32 112 raw ≡ table
      → read_at 144 (length compressed) raw ≡ compressed
      → (bit_and (load_le 64 2 table) 0x10 == 0) ≡ false
      → load_le 96 4 table ≡ 112 + length compressed
      → length compressed ≤ 2 ^ 31
      → uncompress (decomp_size (load_le 76 4 table)) compressed ≡ some records
      → decompress_plat_def uncompress raw ≡ some (table ++ records)
  unfolding decompress_plat_def decompress_table table_data_of
  decompress-reads raw table compressed records all signed table_at source zlib size small
        inflates =
      let fields : load_le 96 4 table - 112 ≡ length compressed = omega (arith, size) in
      let short = le→ltb (length raw) 32 (omega (arith, all)) in
      let cut = le→ltb (length raw) 144 (omega (arith, all)) in
      let full = le→ltb (load_le 96 4 table) 112 (omega (arith, size)) in
      let ends = le→ltb (length raw) (word (144 + length compressed)) (omega (arith, all, small)) in
      let inside = range_at-inside 144 (length compressed) raw all in
      let same_signature = (same_iff platdef_bundle_signature platdef_bundle_signature).1 refl in
      rw (short, signed, same_signature, cut, table_at, zlib, full, fields, ends, inside, source)
        (unfold call_uncompress inflated in rw inflates refl)

  -- A bundle decompresses to its table data and the records that zlib returns for its compressed
  -- part, when the flag for zlib is set, the compressed size in the table is right, and the
  -- compressed part has at most 2 GiB.
  pub decompress-bundle :
      (reserved table compressed trailer records : Bytes)
      → length reserved ≡ 16
      → length table ≡ 112
      → (bit_and (load_le 64 2 table) 0x10 == 0) ≡ false
      → load_le 96 4 table ≡ 112 + length compressed
      → length compressed ≤ 2 ^ 31
      → uncompress (decomp_size (load_le 76 4 table)) compressed ≡ some records
      → decompress_plat_def uncompress
          ((platdef_bundle_signature ++ reserved) ++ (table ++ (compressed ++ trailer)))
        ≡ some (table ++ records)
  decompress-bundle reserved table compressed trailer records reserved_size table_size zlib size
        small inflates =
      let front : Bytes = platdef_bundle_signature ++ reserved in
      let rest : Bytes = compressed ++ trailer in
      let raw : Bytes = front ++ (table ++ rest) in
      let front_size : length front ≡ 32 =
        omega (arith, length-append platdef_bundle_signature reserved, reserved_size) in
      let all : 144 + length compressed ≤ length raw = omega (
        arith,
        length-append front (table ++ rest),
        front_size,
        length-append table rest,
        table_size,
        length-append compressed trailer,
      ) in
      let signed : read_at 0 16 raw ≡ platdef_bundle_signature =
        ap (take 16) (append_assoc platdef_bundle_signature reserved (table ++ rest))
        ∙ take-append 16 platdef_bundle_signature (reserved ++ (table ++ rest)) refl in
      let table_at : read_at 32 112 raw ≡ table =
        read_at-append 32 112 front table rest front_size table_size in
      let source : read_at 144 (length compressed) raw ≡ compressed =
        ap (read_at 144 (length compressed)) (sym (append_assoc front table rest))
        ∙ read_at-append 144 (length compressed) (front ++ table) compressed trailer
            (omega (arith, length-append front table, front_size, table_size)) refl in
      decompress-reads raw table compressed records all signed table_at source zlib size
        (omega (arith, small)) inflates
