-- ===== src/PlatDef/Records/RoundTrip.antt =====
-- Printed records against the parser.
use ocp_canopy_open_bmc.Common.{
  ℕ, suc, ◌+◌, ◌*◌, ◌^◌, ◌≤◌, ◌≡◌, refl, sym, ap, ap₂, ◌∙◌, true, false, le→ltb, ◌==◌, ==_iff,
  Option, some, List, [], ◌∷◌, ◌++◌, append_assoc, arith, Bytes, All, length, length-append, get_or,
  get_or-front, read_at,
}
use ocp_canopy_open_bmc.UefiFv.{word}
use ocp_canopy_open_bmc.PlatDef.Ranges.{range_at-inside}
use ocp_canopy_open_bmc.PlatDef.Records.{
  record_header_of, engine_count, SegmentMap, go_on, on_fixed, on_record, records, on_first,
  parse_i2c_segments,
}
use ocp_canopy_open_bmc.PlatDef.Records.Printed.{
  Entry, skipped, engine, joined, entry_bytes, entries_bytes, put_segments, put_entry, put_entries,
  IsRecord, IsEngine, IsEntry, segments-put, type_copied, size_copied, room, records-reads,
  on_record-skips, on_record-ends, get_or-copied, not-zero, ==_other,
}

module _ (plat_def : Bytes) (low : length plat_def ≤ 2 ^ 31) where
  module _ (pre more front : Bytes) (segs : List Bytes) (trailer : Bytes)
      (holds : plat_def ≡ pre ++ ((front ++ (joined segs ++ trailer)) ++ more))
      (is_record : IsRecord (front ++ (joined segs ++ trailer)))
      (is_engine : IsEngine front segs) where
    abbrev bytes : Bytes
    bytes = front ++ (joined segs ++ trailer)

    inside : length pre + length bytes ≤ length plat_def
    inside = room plat_def low pre bytes more holds is_record.has_header

    long : 80 + length (joined segs) ≤ length bytes
    long = omega (
      arith,
      length-append front (joined segs ++ trailer),
      is_engine.front_size,
      length-append (joined segs) trailer,
    )

    count_copied : get_or (read_at (length pre + 32) 48 plat_def) 38 0 ≡ length segs
    count_copied =
        get_or-copied pre bytes more plat_def 32 (length pre + 32) 48 38 70 holds refl (omega arith)
          refl (omega (arith, long))
        ∙ (get_or-front front (joined segs ++ trailer) 70 0 (omega (arith, is_engine.front_size))
            ∙ is_engine.counts)

    segments_here : plat_def ≡ (pre ++ front) ++ (joined segs ++ (trailer ++ more))
    segments_here =
        holds
        ∙ (ap (λ (x : Bytes). pre ++ x)
              (append_assoc front (joined segs ++ trailer) more
                ∙ ap (λ (x : Bytes). front ++ x) (append_assoc (joined segs) trailer more))
            ∙ sym (append_assoc pre front (joined segs ++ (trailer ++ more))))

    on_fixed-puts :
        (next : SegmentMap → Option SegmentMap) (result : SegmentMap)
        → on_fixed next plat_def
            (length pre)
            (get_or bytes 1 0 * 16)
            result
            (some (read_at (length pre + 32) 48 plat_def))
          ≡ next (put_segments segs result)
    unfolding on_fixed go_on engine_count
    on_fixed-puts next result =
        let end : word (length pre + get_or bytes 1 0 * 16) ≡ length pre + length bytes =
          omega (arith, inside, low, is_record.sized) in
        let fixed : word (length pre + 32 + 48) ≡ length pre + 80 =
          omega (arith, inside, low, long) in
        let front_end = length-append pre front in
        let put =
          segments-put plat_def low segs 0 (length pre + 80) (length pre + length bytes)
            (pre ++ front) (trailer ++ more) result segments_here is_engine.each
            (omega (arith, front_end, is_engine.front_size))
            (omega (arith, front_end, is_engine.front_size, long)) inside in
        rw (count_copied, end, fixed, put) refl

    on_record-puts :
        (next : ℕ → SegmentMap → Option SegmentMap) (result : SegmentMap)
        → on_record next plat_def (length pre) result (some (read_at (length pre) 32 plat_def))
          ≡ next (length pre + length bytes) (put_segments segs result)
    unfolding on_record record_header_of
    on_record-puts next result =
        let header = is_record.has_header in
        let size = get_or bytes 1 0 in
        let tag : get_or (read_at (length pre) 32 plat_def) 0 0 ≡ 14 =
          type_copied plat_def low pre bytes more holds header
          ∙ (get_or-front front (joined segs ++ trailer) 0 0 (omega (arith, is_engine.front_size))
              ∙ is_engine.tagged) in
        let after : word (length pre + size * 16) ≡ length pre + length bytes =
          omega (arith, inside, low, is_record.sized) in
        let go : (size == 0) ≡ false =
          ==_other size 0 (not-zero size (omega (arith, header, is_record.sized))) in
        let in_blob = le→ltb (length plat_def) (length pre + length bytes) inside in
        let fixed : word (length pre + 32 + 48) ≡ length pre + 80 =
          omega (arith, inside, low, long) in
        let has_fixed = le→ltb (length plat_def) (length pre + 80) (omega (arith, inside, long)) in
        let eng : word (length pre + 32) ≡ length pre + 32 = omega (arith, inside, low, long) in
        let read = range_at-inside (length pre + 32) 48 plat_def (omega (arith, inside, long)) in
        rw
          (
            tag,
            size_copied plat_def low pre bytes more holds header,
            after,
            go,
            in_blob,
            fixed,
            has_fixed,
            eng,
            read,
          )
          (on_fixed-puts (next (length pre + length bytes)) result)

  record-step :
      (e : Entry) (pre more : Bytes) (fuel : ℕ) (result : SegmentMap)
      → IsEntry e
      → plat_def ≡ pre ++ (entry_bytes e ++ more)
      → records (suc fuel) plat_def (length pre) result
        ≡ records fuel plat_def (length pre + length (entry_bytes e)) (put_entry e result)
  record-step (skipped bs) pre more fuel result (is_record, no_engine, no_end) holds =
      records-reads plat_def low pre bs more holds is_record.has_header fuel result
      ∙ on_record-skips plat_def low pre bs more holds is_record.has_header (records fuel plat_def)
          result is_record.sized no_engine no_end
  record-step (engine front segs trailer) pre more fuel result (is_record, is_engine) holds =
      records-reads plat_def low pre (front ++ (joined segs ++ trailer)) more holds
        is_record.has_header fuel result
      ∙ on_record-puts pre more front segs trailer holds is_record is_engine (records fuel plat_def)
          result

  records-put :
      (es : List Entry) (pre last trailer : Bytes) (fuel pos : ℕ) (result : SegmentMap)
      → All IsEntry es
      → plat_def ≡ pre ++ (entries_bytes es ++ (last ++ trailer))
      → 32 ≤ length last
      → get_or last 0 0 ≡ 255
      → pos ≡ length pre
      → records (length es + suc fuel) plat_def pos result ≡ some (put_entries es result)
  records-put [] pre last trailer fuel pos result each holds header end here =
      ap₂ (λ n p. records n plat_def p result) {x = 0 + suc fuel} {y = suc fuel} (omega arith) here
      ∙ (records-reads plat_def low pre last trailer holds header fuel result
          ∙ on_record-ends plat_def low pre last trailer holds header (records fuel plat_def) result
              end)
  records-put (e ∷ es) pre last trailer fuel pos result each holds header end here =
      let rest : Bytes = last ++ trailer in
      let split : plat_def ≡ pre ++ (entry_bytes e ++ (entries_bytes es ++ rest)) =
        holds
        ∙ ap (λ (x : Bytes). pre ++ x) (append_assoc (entry_bytes e) (entries_bytes es) rest) in
      ap₂ (λ n p. records n plat_def p result) {x = suc (length es) + suc fuel}
        {y = suc (length es + suc fuel)} (omega arith) here
      ∙ (record-step e pre (entries_bytes es ++ rest) (length es + suc fuel) result each.0 split
          ∙ records-put es (pre ++ entry_bytes e) last trailer fuel
              (length pre + length (entry_bytes e)) (put_entry e result) each.1
              (split ∙ sym (append_assoc pre (entry_bytes e) (entries_bytes es ++ rest))) header end
              (omega (arith, length-append pre (entry_bytes e))))

-- Of a printed blob of at most 2 GiB, with a table record of 112 bytes in front, any row of records and
-- engines whose size fields say their lengths, and an end record behind them, the parser returns, with
-- fuel for each record and one more, exactly the map that the engines' segments put, in order.
pub parse-entries :
    (table last trailer : Bytes) (es : List Entry) (fuel : ℕ)
    → IsEntry (skipped table)
    → length table ≡ 112
    → All IsEntry es
    → 32 ≤ length last
    → get_or last 0 0 ≡ 255
    → length (entries_bytes (skipped table ∷ es) ++ (last ++ trailer)) ≤ 2 ^ 31
    → parse_i2c_segments
        (length (skipped table ∷ es) + suc fuel)
        (entries_bytes (skipped table ∷ es) ++ (last ++ trailer))
      ≡ some (put_entries es [])
unfolding parse_i2c_segments on_first record_header_of
parse-entries table last trailer es fuel is_table table_size each header end low =
    let all = skipped table ∷ es in
    let blob : Bytes = entries_bytes all ++ (last ++ trailer) in
    let holds : blob ≡ [] ++ (table ++ (entries_bytes es ++ (last ++ trailer))) =
      append_assoc table (entries_bytes es) (last ++ trailer) in
    let inside =
      room blob low [] table (entries_bytes es ++ (last ++ trailer)) holds
        (omega (arith, table_size)) in
    let long = le→ltb (length blob) 32 (omega (arith, inside, table_size)) in
    let read = range_at-inside 0 32 blob (omega (arith, inside, table_size)) in
    let size =
      size_copied blob low [] table (entries_bytes es ++ (last ++ trailer)) holds
        (omega (arith, table_size)) in
    let stride : (get_or (read_at 0 32 blob) 1 0 * 16 == 112) ≡ true =
      (==_iff (get_or (read_at 0 32 blob) 1 0 * 16) 112).1
        (omega (arith, size, is_table.0.sized, table_size)) in
    rw (long, read, stride)
      (records-put blob low all [] last trailer fuel 0 [] (is_table, each) refl header end refl)
