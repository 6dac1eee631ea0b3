-- ===== src/PlatDef/Records.antt =====
-- src/platdef_extract.cpp: the records of a PlatDef blob, and the I2C segments that they declare.
--
-- A result of `none` is a copy from behind the blob, or the end of the fuel for the loop over the
-- records. The loop over the segments of an engine counts down from their number.
pub mod Declared
pub mod Printed
pub mod RoundTrip
use ocp_canopy_open_bmc.Common.{
  ℕ, zero, suc, ◌+◌, ◌*◌, not, ◌||◌, ltb, leb, ◌==◌, if◌then◌else◌, Option, none, some, List, [],
  Bytes, length, get_or,
}
use ocp_canopy_open_bmc.UefiFv.{word}
use ocp_canopy_open_bmc.PlatDef.{I2cSegmentMapping, range_at}
use ocp_canopy_open_bmc.PlatDef.Table.{put}

-- `PlatDefRecordHeader`: the fields that the walk reads.
pub record PlatDefRecordHeader : Type 0 where
  pub record_type : ℕ
  pub size : ℕ

unfoldable pub record_header_of : Bytes → PlatDefRecordHeader
record_header_of bs = record { record_type = get_or bs 0 0; size = get_or bs 1 0 }

-- `PlatDefI2CSegment`: the fields that the loop reads.
pub record PlatDefI2cSegment : Type 0 where
  pub id : ℕ
  pub mux_type : ℕ
  pub byte : ℕ
  pub select_mask : ℕ

unfoldable pub segment_of : Bytes → PlatDefI2cSegment
segment_of bs = record {
  id = get_or bs 5 0;
  mux_type = get_or bs 16 0;
  byte = get_or bs 17 0;
  select_mask = get_or bs 19 0;
}

-- `PlatDefI2CEngineFixed::count`
unfoldable pub engine_count : Bytes → ℕ
engine_count bs = get_or bs 38 0

abbrev pub record_header_size : ℕ
record_header_size = 32

abbrev pub engine_fixed_size : ℕ
engine_fixed_size = 48

abbrev pub segment_size : ℕ
segment_size = 32

abbrev pub record_type_i2c_engine : ℕ
record_type_i2c_engine = 14

abbrev pub record_type_end_of_table : ℕ
record_type_end_of_table = 255

abbrev pub i2c_mux_type_cpld : ℕ
i2c_mux_type_cpld = 1

-- `result`
abbrev pub SegmentMap : Type 0
SegmentMap = List (ℕ × I2cSegmentMapping)

-- The entry that a segment puts, if a CPLD selects its channel.
unfoldable pub put_segment : PlatDefI2cSegment → SegmentMap → SegmentMap
put_segment seg result =
    if seg.mux_type == i2c_mux_type_cpld
    then put seg.id (record { cpld_register = seg.byte; channel_value = seg.select_mask }) result
    else result

unfoldable pub on_segment :
    (SegmentMap → Option SegmentMap) → SegmentMap → Option Bytes → Option SegmentMap
on_segment next result none = none
on_segment next result (some bs) = next (put_segment (segment_of bs) result)

-- The loop over the segments of an engine: `left` is `eng.count - i`.
unfoldable pub segments : ℕ → ℕ → Bytes → ℕ → ℕ → SegmentMap → Option SegmentMap
segments zero i plat_def seg_start record_end result = some result
segments (suc left) i plat_def seg_start record_end result =
    let seg_off = word (seg_start + i * segment_size) in
    let seg_end = word (seg_off + segment_size) in
    let round =
      on_segment (segments left (suc i) plat_def seg_start record_end) result
        (range_at seg_off segment_size plat_def) in
    if ltb (length plat_def) seg_end || ltb record_end seg_end then some result else round

-- The rest of the loop over the records goes on with the map of a record.
unfoldable pub go_on : (SegmentMap → Option SegmentMap) → Option SegmentMap → Option SegmentMap
go_on next none = none
go_on next (some result) = next result

-- The part for an engine behind the copy of its fixed fields.
unfoldable pub on_fixed :
    (SegmentMap → Option SegmentMap) → Bytes → ℕ → ℕ → SegmentMap → Option Bytes → Option SegmentMap
on_fixed next plat_def pos record_bytes result none = none
on_fixed next plat_def pos record_bytes result (some eng) = go_on next (
    segments (engine_count eng) 0 plat_def (word (pos + record_header_size + engine_fixed_size))
      (word (pos + record_bytes)) result)

-- The part of a round behind the copy of the record header at `pos`.
unfoldable pub on_record :
    (ℕ → SegmentMap → Option SegmentMap) → Bytes → ℕ → SegmentMap → Option Bytes → Option SegmentMap
on_record next plat_def pos result none = none
on_record next plat_def pos result (some bs) =
    let hdr = record_header_of bs in
    let record_bytes = hdr.size * 16 in
    let later = next (word (pos + record_bytes)) in
    if hdr.record_type == record_type_end_of_table || hdr.size == 0
    then some result
    else if ltb (length plat_def) (word (pos + record_bytes))
    then some result
    else if not (hdr.record_type == record_type_i2c_engine)
    then later result
    else if ltb (length plat_def) (word (pos + record_header_size + engine_fixed_size))
    then some result
    else on_fixed later plat_def pos record_bytes result
        (range_at (word (pos + record_header_size)) engine_fixed_size plat_def)

-- The loop over the records.
unfoldable pub records : ℕ → Bytes → ℕ → SegmentMap → Option SegmentMap
records zero plat_def pos result = none
records (suc fuel) plat_def pos result =
    let round =
      on_record (records fuel plat_def) plat_def pos result
        (range_at pos record_header_size plat_def) in
    if leb (word (pos + record_header_size)) (length plat_def) then round else some result

unfoldable pub on_first : ℕ → Bytes → Option Bytes → Option SegmentMap
on_first fuel plat_def none = none
on_first fuel plat_def (some bs) =
    if not ((record_header_of bs).size * 16 == 112) then some [] else records fuel plat_def 0 []

-- `parseI2cSegments`
unfoldable pub parse_i2c_segments : ℕ → Bytes → Option SegmentMap
parse_i2c_segments fuel plat_def =
    if ltb (length plat_def) record_header_size
    then some []
    else on_first fuel plat_def (range_at 0 record_header_size plat_def)
