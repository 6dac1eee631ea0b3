-- ===== src/PlatDef/Records/Printed.antt =====
-- Printed records, and what the parser copies from them.
use ocp_canopy_open_bmc.Common.{
  ℕ, suc, ◌+◌, ◌*◌, ◌^◌, ◌≤◌, ◌<◌, ◌≡◌, ◌≢◌, refl, sym, ap, ◌∙◌, true, false, ◌||◌, le→ltb, leb,
  ◌==◌, Option, some, List, [], ◌∷◌, ◌++◌, append_assoc, arith, Bytes, All, length, length-append,
  get_or, get_or-take, get_or-drop, get_or-behind, get_or-front, read_at, read_at-append, drop,
}
use ocp_canopy_open_bmc.UefiFv.{word}
use ocp_canopy_open_bmc.PlatDef.Ranges.{range_at-inside}
use ocp_canopy_open_bmc.PlatDef.Records.{
  record_header_of, segment_of, SegmentMap, put_segment, on_segment, segments, on_record, records,
}

-- A record of a blob: one that is skipped, or an engine's, as the bytes in front of its segments,
-- those of each segment, and those behind.
pub data Entry : Type 0 where
  skipped : Bytes → Entry
  engine : Bytes → List Bytes → Bytes → Entry

abbrev pub joined : List Bytes → Bytes
joined [] = []
joined (bs ∷ rest) = bs ++ joined rest

abbrev pub entry_bytes : Entry → Bytes
entry_bytes (skipped bs) = bs
entry_bytes (engine front segs trailer) = front ++ (joined segs ++ trailer)

abbrev pub entries_bytes : List Entry → Bytes
entries_bytes [] = []
entries_bytes (e ∷ es) = entry_bytes e ++ entries_bytes es

-- What the segments of an engine, and the records of a blob, say of the map.
abbrev pub put_segments : List Bytes → SegmentMap → SegmentMap
put_segments [] result = result
put_segments (seg ∷ segs) result = put_segments segs (put_segment (segment_of seg) result)

abbrev pub put_entry : Entry → SegmentMap → SegmentMap
put_entry (skipped bs) result = result
put_entry (engine front segs trailer) result = put_segments segs result

abbrev pub put_entries : List Entry → SegmentMap → SegmentMap
put_entries [] result = result
put_entries (e ∷ es) result = put_entries es (put_entry e result)

-- The size field says the length, in units of 16 bytes.
pub record IsRecord (bs : Bytes) : Type 0 where
  pub has_header : 32 ≤ length bs
  pub sized : length bs ≡ get_or bs 1 0 * 16

pub record IsEngine (front : Bytes) (segs : List Bytes) : Type 0 where
  pub front_size : length front ≡ 80
  pub tagged : get_or front 0 0 ≡ 14
  pub counts : get_or front 70 0 ≡ length segs
  pub each : All (λ (seg : Bytes). length seg ≡ 32) segs

abbrev pub IsEntry : Entry → Type 0
IsEntry (skipped bs) = IsRecord bs × (get_or bs 0 0 ≢ 14) × (get_or bs 0 0 ≢ 255)
IsEntry (engine front segs trailer) =
    IsRecord (front ++ (joined segs ++ trailer)) × IsEngine front segs

-- A byte of a copy, from the bytes that stand behind a prefix.
pub get_or-copied :
    (pre bs more plat_def : Bytes) (k off n i j : ℕ)
    → plat_def ≡ pre ++ (bs ++ more)
    → off ≡ length pre + k
    → i < n
    → j ≡ k + i
    → j < length bs
    → get_or (read_at off n plat_def) i 0 ≡ get_or bs j 0
get_or-copied pre bs more plat_def k off n i j holds here small at inside =
    get_or-take n i (drop off plat_def) 0 small
    ∙ (get_or-drop off i (length pre + j) plat_def 0 (omega arith)
        ∙ (ap (λ (x : Bytes). get_or x (length pre + j) 0) holds
            ∙ (get_or-behind pre (bs ++ more) j (length pre + j) (length pre) 0 refl refl
                ∙ get_or-front bs more j 0 inside)))

goes_on : (t size : ℕ) → t ≢ 255 → 1 ≤ size → (t == 255 || size == 0) ≡ false
goes_on t size no_end large = ground arith

pub not-zero : (a : ℕ) → 1 ≤ a → a ≢ 0
not-zero a h = ground arith

pub ==_other : (a b : ℕ) → a ≢ b → (a == b) ≡ false
==_other a b other = ground arith

le→leb : (a b : ℕ) → a ≤ b → leb a b ≡ true
le→leb a b h = ground arith

module _ (plat_def : Bytes) (low : length plat_def ≤ 2 ^ 31) where
  pub segments-put :
      (segs : List Bytes) (i seg_start record_end : ℕ) (pre more : Bytes) (result : SegmentMap)
      → plat_def ≡ pre ++ (joined segs ++ more)
      → All (λ (seg : Bytes). length seg ≡ 32) segs
      → length pre ≡ seg_start + i * 32
      → length pre + length (joined segs) ≤ record_end
      → record_end ≤ length plat_def
      → segments (length segs) i plat_def seg_start record_end result
        ≡ some (put_segments segs result)
  unfolding segments on_segment
  segments-put [] i seg_start record_end pre more result holds each here fits inside = refl
  segments-put (seg ∷ segs) i seg_start record_end pre more result holds each here fits inside =
      let rest : Bytes = joined segs ++ more in
      let split : plat_def ≡ pre ++ (seg ++ rest) =
        holds ∙ ap (λ (x : Bytes). pre ++ x) (append_assoc seg (joined segs) more) in
      let whole = length-append seg (joined segs) in
      let at : word (seg_start + i * 32) ≡ length pre = omega (arith, here, fits, inside, low) in
      let end : word (length pre + 32) ≡ length pre + 32 =
        omega (arith, fits, inside, low, whole, each.0) in
      let in_blob =
        le→ltb (length plat_def) (length pre + 32) (omega (arith, fits, inside, whole, each.0)) in
      let in_record = le→ltb record_end (length pre + 32) (omega (arith, fits, whole, each.0)) in
      let read =
        range_at-inside (length pre) 32 plat_def (omega (arith, fits, inside, whole, each.0))
        ∙ ap some (
            ap (read_at (length pre) 32) split
            ∙ read_at-append (length pre) 32 pre seg rest refl each.0) in
      rw (at, end, in_blob, in_record, read)
        (segments-put segs (suc i) seg_start record_end (pre ++ seg) more
          (put_segment (segment_of seg) result) (split ∙ sym (append_assoc pre seg rest)) each.1
          (omega (arith, length-append pre seg, each.0, here))
          (omega (arith, length-append pre seg, whole, fits)) inside)

  -- The header of a record is copied, and the record is inside the blob.
  module _ (pre bs more : Bytes) (holds : plat_def ≡ pre ++ (bs ++ more))
      (has_header : 32 ≤ length bs) where
    pub type_copied : get_or (read_at (length pre) 32 plat_def) 0 0 ≡ get_or bs 0 0
    type_copied =
        get_or-copied pre bs more plat_def 0 (length pre) 32 0 0 holds (omega arith) (omega arith)
          (omega arith) (omega (arith, has_header))

    pub size_copied : get_or (read_at (length pre) 32 plat_def) 1 0 ≡ get_or bs 1 0
    size_copied =
        get_or-copied pre bs more plat_def 0 (length pre) 32 1 1 holds (omega arith) (omega arith)
          (omega arith) (omega (arith, has_header))

    pub room : length pre + length bs ≤ length plat_def
    room = omega (
      arith,
      ap (λ (x : Bytes). length x) holds,
      length-append pre (bs ++ more),
      length-append bs more,
    )

    -- The loop reads the header of the record.
    pub records-reads :
        (fuel : ℕ) (result : SegmentMap)
        → records (suc fuel) plat_def (length pre) result
          ≡ on_record
              (records fuel plat_def)
              plat_def
              (length pre)
              result
              (some (read_at (length pre) 32 plat_def))
    unfolding records
    records-reads fuel result =
        let end : word (length pre + 32) ≡ length pre + 32 = omega (arith, room, low, has_header) in
        let more_records : leb (length pre + 32) (length plat_def) ≡ true =
          le→leb (length pre + 32) (length plat_def) (omega (arith, room, has_header)) in
        rw
          (
            end,
            more_records,
            range_at-inside (length pre) 32 plat_def (omega (arith, room, has_header)),
          )
          refl

    pub on_record-skips :
        (next : ℕ → SegmentMap → Option SegmentMap) (result : SegmentMap)
        → length bs ≡ get_or bs 1 0 * 16
        → get_or bs 0 0 ≢ 14
        → get_or bs 0 0 ≢ 255
        → on_record next plat_def (length pre) result (some (read_at (length pre) 32 plat_def))
          ≡ next (length pre + length bs) result
    unfolding on_record record_header_of
    on_record-skips next result sized no_engine no_end =
        let size = get_or bs 1 0 in
        let after : word (length pre + size * 16) ≡ length pre + length bs =
          omega (arith, room, low, sized) in
        let go : (get_or bs 0 0 == 255 || size == 0) ≡ false =
          goes_on (get_or bs 0 0) size no_end (omega (arith, has_header, sized)) in
        let inside = le→ltb (length plat_def) (length pre + length bs) room in
        let other : (get_or bs 0 0 == 14) ≡ false = ==_other (get_or bs 0 0) 14 no_engine in
        rw (type_copied, size_copied, after, go, inside, other) refl

    pub on_record-ends :
        (next : ℕ → SegmentMap → Option SegmentMap) (result : SegmentMap)
        → get_or bs 0 0 ≡ 255
        → on_record next plat_def (length pre) result (some (read_at (length pre) 32 plat_def))
          ≡ some result
    unfolding on_record record_header_of
    on_record-ends next result end = rw (type_copied, end) refl
