-- ===== src/Rom.antt =====
-- src/rom_service.cpp: the handler for service 0x02, through which the host's firmware uploads its
-- SMBIOS records.
pub mod Refine
pub mod Session
use ocp_canopy_open_bmc.Common.{ℕ, ltb, ◌==◌, if◌then◌else◌, Option, none, some, pos, Bytes, length}
use ocp_canopy_open_bmc.MdrBridge.{MdrBridge, synchronize}
use ocp_canopy_open_bmc.Packet.{Header, header_size, parse_header, payload, init_rom_response}
use ocp_canopy_open_bmc.Packet.Frame.{Handled, no_response}
use ocp_canopy_open_bmc.Smbios.{Writer, begin, add_record, finalize}

abbrev pub rom_cmd_begin : ℕ
rom_cmd_begin = 0x0003

abbrev pub rom_cmd_record : ℕ
rom_cmd_record = 0x0004

abbrev pub rom_cmd_end : ℕ
rom_cmd_end = 0x0005

abbrev pub rom_cmd_power_data : ℕ
rom_cmd_power_data = 0x0006

abbrev pub rom_cmd_thermal : ℕ
rom_cmd_thermal = 0x0007

abbrev pub rom_cmd_blob : ℕ
rom_cmd_blob = 0x000C

-- `RomService`; the bridge is absent where the source's pointer is null.
pub record RomService : Type 0 where
  pub writer : Writer
  pub mdr_bridge : Option MdrBridge

-- `buildHeaderOnlyResponse`
unfoldable pub build_header_only_response : Header → Bytes → Handled
build_header_only_response req response =
    if ltb (length response) header_size
    then no_response response
    else (pos header_size, init_rom_response response req header_size)

-- `handleBegin`
unfoldable pub handle_begin : RomService → Header → Bytes → Handled × RomService
handle_begin s req response =
    (build_header_only_response req response, record s { writer = begin s.writer })

-- `handleRecord` and `handleBlob`, which differ only in what they log.
unfoldable pub handle_record : RomService → Header → Bytes → Bytes → Handled × RomService
handle_record s req request response =
    if length (payload request) == 0 then (build_header_only_response req response, s) else (
      build_header_only_response req response,
      record s { writer = add_record (payload request) s.writer },
    )

unfoldable pub handle_blob : RomService → Header → Bytes → Bytes → Handled × RomService
handle_blob s req request response =
    if length (payload request) == 0 then (build_header_only_response req response, s) else (
      build_header_only_response req response,
      record s { writer = add_record (payload request) s.writer },
    )

-- The bridge behind a call of `synchronize`, whose result the service ignores.
unfoldable pub asked : Option MdrBridge → Option MdrBridge
asked none = none
asked (some bridge) = some (synchronize bridge).1

-- `handleEnd`
unfoldable pub handle_end : RomService → Header → Bytes → Handled × RomService
handle_end s req response =
    let (done, w) = finalize s.writer in
    let handled = build_header_only_response req response in
    (
      handled,
      record s { writer = w; mdr_bridge = if done then asked s.mdr_bridge else s.mdr_bridge },
    )

-- The switch of `RomService::handle`.
unfoldable pub dispatch : RomService → Header → Bytes → Bytes → Handled × RomService
dispatch s req request response =
    if req.command == rom_cmd_begin
    then handle_begin s req response
    else if req.command == rom_cmd_record
    then handle_record s req request response
    else if req.command == rom_cmd_end
    then handle_end s req response
    else if req.command == rom_cmd_power_data
    then (build_header_only_response req response, s)
    else if req.command == rom_cmd_thermal
    then (build_header_only_response req response, s)
    else if req.command == rom_cmd_blob
    then handle_blob s req request response
    else (no_response response, s)

-- `RomService::handle`
unfoldable pub handle : RomService → Bytes → Bytes → Handled × RomService
handle s request response =
    if ltb (length request) header_size
    then (no_response response, s)
    else dispatch s (parse_header request) request response
