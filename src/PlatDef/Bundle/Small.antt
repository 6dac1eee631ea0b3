-- ===== src/PlatDef/Bundle/Small.antt =====
-- The size of what a bundle decompresses to.
use ocp_canopy_open_bmc.Common.{
  ℕ, ◌+◌, ◌-◌, ◌*◌, ◌^◌, ◌≤◌, ◌≡◌, refl, not, ltb, bit_and, ◌==◌, if-intro, Option, none, some, [],
  arith, Bytes, IsByte, IsBytes, All-append, All-drop, length, length-append, length-take,
  length-drop, drop, read_at, load_le, same,
}
use ocp_canopy_open_bmc.UefiFv.{word}
use ocp_canopy_open_bmc.UefiFv.Reads.{read_at-IsBytes}
use ocp_canopy_open_bmc.PlatDef.{range_at}
use ocp_canopy_open_bmc.PlatDef.Bundle.{
  table_data_of, platdef_bundle_signature, decomp_size, inflated, call_uncompress, decompress_table,
  decompress_plat_def,
}
use ocp_canopy_open_bmc.PlatDef.Bundle.Calls.{table_bytes}

-- zlib writes bytes, at most as many as the buffer has.
abbrev pub WritesWithin : (ℕ → Bytes → Option Bytes) → Type 0
WritesWithin uncompress =
    (capacity : ℕ) (source out : Bytes)
    → uncompress capacity source ≡ some out
    → IsBytes out × (length out ≤ capacity)

-- Bytes that fit a vector.
abbrev pub IsSmall : Bytes → Type 0
IsSmall bs = IsBytes bs × (length bs ≤ 2 ^ 31)

abbrev pub SmallIfAny : Option Bytes → Type 0
SmallIfAny none = Unit
SmallIfAny (some bs) = IsSmall bs

decomp_size-le : (total : ℕ) → decomp_size total ≤ 512 * 1024
unfolding decomp_size
decomp_size-le total = ground arith

module _ (uncompress : ℕ → Bytes → Option Bytes) (writes : WritesWithin uncompress) where
  inflated-IsSmall :
      (table source : Bytes) (total : ℕ)
      → IsBytes table
      → length table ≤ 112
      → IsSmall (inflated table (uncompress (decomp_size total) source))
  unfolding inflated
  inflated-IsSmall table source total bytes short =
      go (uncompress (decomp_size total) source) (writes (decomp_size total) source)
    where
      go :
          (o : Option Bytes)
          → ((out : Bytes) → o ≡ some out → IsBytes out × (length out ≤ decomp_size total))
          → IsSmall (inflated table o)
      go none each = unfold inflated in (tt, omega arith)
      go (some out) each =
          unfold inflated in
          let (out_bytes, out_size) = each out refl in
          (
            All-append IsByte table out bytes out_bytes,
            omega (arith, length-append table out, short, out_size, decomp_size-le total),
          )

  call_uncompress-Small :
      (table : Bytes) (total : ℕ) (source : Option Bytes)
      → IsBytes table
      → length table ≤ 112
      → SmallIfAny (call_uncompress uncompress table (decomp_size total) source)
  unfolding call_uncompress
  call_uncompress-Small table total none bytes short = tt
  call_uncompress-Small table total (some source) bytes short =
      inflated-IsSmall table source total bytes short

  pub decompress-Small :
      (raw : Bytes) → IsSmall raw → SmallIfAny (decompress_plat_def uncompress raw)
  unfolding decompress_plat_def decompress_table table_data_of
  decompress-Small raw small =
      let table = table_bytes raw in
      let size = load_le 96 4 table in
      let nothing : IsSmall [] = (tt, omega arith) in
      if-intro SmallIfAny (ltb (length raw) 32) (λ _. nothing)
        (λ _.
          if-intro SmallIfAny (not (same (read_at 0 16 raw) platdef_bundle_signature))
            (λ _. nothing)
            (λ _.
              if-intro SmallIfAny (ltb (length raw) 144) (λ _. nothing)
                (λ _.
                  if-intro SmallIfAny (bit_and (load_le 64 2 table) 0x10 == 0)
                    (λ _.
                      (All-drop IsByte 32 raw small.0, omega (arith, length-drop 32 raw, small.1)))
                    (λ _.
                      if-intro SmallIfAny (ltb size 112) (λ _. nothing)
                        (λ _.
                          if-intro SmallIfAny (ltb (length raw) (word (144 + (size - 112))))
                            (λ _. nothing)
                            (λ _.
                              call_uncompress-Small table (load_le 76 4 table)
                                (range_at 144 (size - 112) raw) (read_at-IsBytes 32 112 raw small.0)
                                (omega (arith, length-take 112 (drop 32 raw)))))))))
