-- ===== src/PlatDef/Records/Declared.antt =====
-- The parser of the records: that it returns, stays inside the blob, and what its entries come from.
use ocp_canopy_open_bmc.Common.{
  ℕ, zero, suc, ◌+◌, ◌*◌, ◌^◌, ◌≤◌, ◌≡◌, refl, Bool, true, false, not, ◌||◌, ltb, ltb→le, leb, ◌==◌,
  ==_iff, if-intro, Option, some, [], arith, Bytes, IsBytes, All, length, get_or, read_at,
}
use ocp_canopy_open_bmc.UefiFv.{word}
use ocp_canopy_open_bmc.UefiFv.Reads.{get_or-IsByte, read_at-IsBytes}
use ocp_canopy_open_bmc.PlatDef.{I2cSegmentMapping}
use ocp_canopy_open_bmc.PlatDef.Ranges.{range_at-inside}
use ocp_canopy_open_bmc.PlatDef.Table.{UniqueKeys, put-UniqueKeys, put-All}
use ocp_canopy_open_bmc.PlatDef.Records.{
  record_header_of, segment_of, engine_count, SegmentMap, put_segment, on_segment, segments, go_on,
  on_fixed, on_record, records, on_first, parse_i2c_segments,
}

abbrev pub header_at : ℕ → Bytes → Bytes
header_at pos plat_def = read_at pos 32 plat_def

-- An entry of the map, and the segment of an engine's record that declares it.
pub record IsDeclared (plat_def : Bytes) (entry : ℕ × I2cSegmentMapping) : Type 0 where
  pub engine : ℕ
  pub is_engine : get_or (header_at engine plat_def) 0 0 ≡ 14
  pub engine_inside : engine + get_or (header_at engine plat_def) 1 0 * 16 ≤ length plat_def
  pub at : ℕ
  pub behind_engine : engine + 80 ≤ at
  pub inside : at + 32 ≤ engine + get_or (header_at engine plat_def) 1 0 * 16
  pub selected : get_or (read_at at 32 plat_def) 16 0 ≡ 1
  pub segment_id : get_or (read_at at 32 plat_def) 5 0 ≡ entry.0
  pub register : get_or (read_at at 32 plat_def) 17 0 ≡ entry.1.cpld_register
  pub channel : get_or (read_at at 32 plat_def) 19 0 ≡ entry.1.channel_value

-- A map with each key once, whose entries are declared.
pub record Declared (plat_def : Bytes) (result : SegmentMap) : Type 0 where
  pub each : All (IsDeclared plat_def) result
  pub unique : UniqueKeys result

-- The parser returns such a map.
pub record Parsed (plat_def : Bytes) (outcome : Option SegmentMap) : Type 0 where
  pub result : SegmentMap
  pub returns : outcome ≡ some result
  pub declared : Declared plat_def result

module _ (plat_def : Bytes) (bytes : IsBytes plat_def) (low : length plat_def ≤ 2 ^ 31) where
  kept : (result : SegmentMap) → Declared plat_def result → Parsed plat_def (some result)
  kept result declared = record { result = result; returns = refl; declared = declared }

  not-false : (b : Bool) → not b ≡ false → b ≡ true
  not-false b h = ground arith

  module _ (engine : ℕ) (is_engine : get_or (header_at engine plat_def) 0 0 ≡ 14)
      (engine_inside : engine + get_or (header_at engine plat_def) 1 0 * 16 ≤ length plat_def) where
    put_segment-Declared :
        (at : ℕ) (result : SegmentMap)
        → engine + 80 ≤ at
        → at + 32 ≤ engine + get_or (header_at engine plat_def) 1 0 * 16
        → Declared plat_def result
        → Declared plat_def (put_segment (segment_of (read_at at 32 plat_def)) result)
    unfolding put_segment segment_of
    put_segment-Declared at result behind inside declared =
        let seg = read_at at 32 plat_def in
        let id = get_or seg 5 0 in
        let mapping : I2cSegmentMapping = record {
          cpld_register = get_or seg 17 0;
          channel_value = get_or seg 19 0;
        } in
        if-intro (Declared plat_def) (get_or seg 16 0 == 1)
          (λ selected. record {
            each =
                put-All (IsDeclared plat_def) id mapping result
                  (record {
                    engine = engine;
                    is_engine = is_engine;
                    engine_inside = engine_inside;
                    at = at;
                    behind_engine = behind;
                    inside = inside;
                    selected = (==_iff (get_or seg 16 0) 1).0 selected;
                    segment_id = refl;
                    register = refl;
                    channel = refl;
                  })
                  declared.each;
            unique = put-UniqueKeys id mapping result declared.unique;
          })
          (λ _. declared)

    segments-Parsed :
        (left i : ℕ) (result : SegmentMap)
        → i + left ≤ 256
        → Declared plat_def result
        → Parsed plat_def (
            segments left i plat_def
              (engine + 80)
              (engine + get_or (header_at engine plat_def) 1 0 * 16)
              result)
    unfolding segments on_segment
    segments-Parsed zero i result few declared = kept result declared
    segments-Parsed (suc left) i result few declared =
        let at = engine + 80 + i * 32 in
        let end = engine + get_or (header_at engine plat_def) 1 0 * 16 in
        let here : word at ≡ at = omega (arith, engine_inside, low) in
        let behind : word (at + 32) ≡ at + 32 = omega (arith, engine_inside, low) in
        rw (here, behind)
          (if-intro (Parsed plat_def) (ltb (length plat_def) (at + 32) || ltb end (at + 32))
            (λ _. kept result declared)
            (λ within.
              let inside : at + 32 ≤ end = ground (arith, within) in
              rw (range_at-inside at 32 plat_def (omega (arith, inside, engine_inside))) (
                segments-Parsed left (suc i)
                  (put_segment (segment_of (read_at at 32 plat_def)) result) (omega arith)
                  (put_segment-Declared at result (omega arith) inside declared))))

  few : (eng : Bytes) → IsBytes eng → 0 + engine_count eng ≤ 256
  unfolding engine_count
  few eng h = omega (arith, get_or-IsByte eng 38 h)

  go_on-Parsed :
      (next : SegmentMap → Option SegmentMap) (outcome : Option SegmentMap)
      → ((result : SegmentMap) → Declared plat_def result → Parsed plat_def (next result))
      → Parsed plat_def outcome
      → Parsed plat_def (go_on next outcome)
  unfolding go_on
  go_on-Parsed next outcome later parsed = rw (parsed.returns) (later parsed.result parsed.declared)

  on_fixed-Parsed :
      (engine : ℕ) (is_engine : get_or (header_at engine plat_def) 0 0 ≡ 14)
      (engine_inside : engine + get_or (header_at engine plat_def) 1 0 * 16 ≤ length plat_def)
      (next : SegmentMap → Option SegmentMap) (eng : Bytes) (result : SegmentMap)
      → engine + 80 ≤ length plat_def
      → IsBytes eng
      → Declared plat_def result
      → ((new : SegmentMap) → Declared plat_def new → Parsed plat_def (next new))
      → Parsed plat_def (
          on_fixed next plat_def engine
            (get_or (header_at engine plat_def) 1 0 * 16)
            result
            (some eng))
  unfolding on_fixed
  on_fixed-Parsed engine is_engine engine_inside next eng result room eng_bytes declared later =
      let end : word (engine + get_or (header_at engine plat_def) 1 0 * 16)
          ≡ engine + get_or (header_at engine plat_def) 1 0 * 16 =
        omega (arith, engine_inside, low) in
      let fixed : word (engine + 32 + 48) ≡ engine + 80 = omega (arith, room, low) in
      rw (end, fixed)
        (go_on-Parsed next _ later (
          segments-Parsed engine is_engine engine_inside (engine_count eng) 0 result
            (few eng eng_bytes) declared))

  on_record-Parsed :
      (next : ℕ → SegmentMap → Option SegmentMap) (pos : ℕ) (result : SegmentMap)
      → Declared plat_def result
      → pos + 32 ≤ length plat_def
      → ((after : ℕ) (new : SegmentMap)
          → pos + 16 ≤ after
          → after ≤ length plat_def
          → Declared plat_def new
          → Parsed plat_def (next after new))
      → Parsed plat_def (on_record next plat_def pos result (some (header_at pos plat_def)))
  unfolding on_record record_header_of
  on_record-Parsed next pos result declared room later =
      let hdr = header_at pos plat_def in
      let size = get_or hdr 1 0 in
      let size_byte = get_or-IsByte hdr 1 (read_at-IsBytes pos 32 plat_def bytes) in
      let end : word (pos + size * 16) ≡ pos + size * 16 = omega (arith, room, low, size_byte) in
      let fixed : word (pos + 32 + 48) ≡ pos + 80 = omega (arith, room, low) in
      let eng_at : word (pos + 32) ≡ pos + 32 = omega (arith, room, low) in
      rw (end, fixed, eng_at)
        (if-intro (Parsed plat_def) (get_or hdr 0 0 == 255 || size == 0) (λ _. kept result declared)
          (λ go.
            if-intro (Parsed plat_def) (ltb (length plat_def) (pos + size * 16))
              (λ _. kept result declared)
              (λ holds.
                let some_size : 1 ≤ size = ground (arith, go) in
                let inside = ltb→le (length plat_def) (pos + size * 16) holds in
                let next_declared = λ (new : SegmentMap) (d : Declared plat_def new).
                  later (pos + size * 16) new (omega (arith, some_size)) inside d in
                if-intro (Parsed plat_def) (not (get_or hdr 0 0 == 14))
                  (λ _. next_declared result declared)
                  (λ engine.
                    if-intro (Parsed plat_def) (ltb (length plat_def) (pos + 80))
                      (λ _. kept result declared)
                      (λ has_fixed.
                        let is_engine =
                          (==_iff (get_or hdr 0 0) 14).0
                            (not-false (get_or hdr 0 0 == 14) engine) in
                        let fixed_inside = ltb→le (length plat_def) (pos + 80) has_fixed in
                        let eng = read_at (pos + 32) 48 plat_def in
                        rw (range_at-inside (pos + 32) 48 plat_def (omega (arith, fixed_inside))) (
                          on_fixed-Parsed pos is_engine inside (next (pos + size * 16)) eng result
                            fixed_inside (read_at-IsBytes (pos + 32) 48 plat_def bytes) declared
                            next_declared))))))

  records-Parsed :
      (fuel pos : ℕ) (result : SegmentMap)
      → length plat_def + 16 ≤ pos + 16 * fuel
      → pos ≤ length plat_def
      → Declared plat_def result
      → Parsed plat_def (records fuel plat_def pos result)
  unfolding records
  records-Parsed zero pos result enough before declared = absurd (omega arith)
  records-Parsed (suc fuel) pos result enough before declared =
      let end : word (pos + 32) ≡ pos + 32 = omega (arith, low) in
      rw end (
        if-intro (Parsed plat_def) (leb (pos + 32) (length plat_def))
          (λ fits.
            let room : pos + 32 ≤ length plat_def = ground (arith, fits) in
            rw (range_at-inside pos 32 plat_def room) (
              on_record-Parsed (records fuel plat_def) pos result declared room
                (λ after new further inside d.
                  records-Parsed fuel after new (omega (arith, further)) inside d)))
          (λ _. kept result declared))

-- On a blob of at most 2 GiB of bytes, with fuel for one record in 16 bytes and one more, the
-- parser returns and copies nothing from behind the blob. It returns a map with each key once;
-- each entry is declared by a segment that a CPLD selects and that stands in the record of an
-- engine inside the blob.
pub parse-Parsed :
    (plat_def : Bytes) (fuel : ℕ)
    → IsBytes plat_def
    → length plat_def ≤ 2 ^ 31
    → length plat_def + 16 ≤ 16 * fuel
    → Parsed plat_def (parse_i2c_segments fuel plat_def)
unfolding parse_i2c_segments on_first
parse-Parsed plat_def fuel bytes low enough =
    let empty : Parsed plat_def (some []) =
      kept plat_def bytes low [] (record { each = tt; unique = tt }) in
    if-intro (Parsed plat_def) (ltb (length plat_def) 32) (λ _. empty)
      (λ long.
        rw (range_at-inside 0 32 plat_def (omega (arith, ltb→le (length plat_def) 32 long))) (
          if-intro (Parsed plat_def)
            (not ((record_header_of (read_at 0 32 plat_def)).size * 16 == 112)) (λ _. empty)
            (λ _.
              records-Parsed plat_def bytes low fuel 0 [] (omega (arith, enough)) (omega arith)
                (record { each = tt; unique = tt }))))
