-- ===== src/Health.antt =====
-- src/health_service.cpp: the handler for service 0x10, which acknowledges every command.
pub mod Refine
use ocp_canopy_open_bmc.Common.{ℕ, ltb, if◌then◌else◌, pos, Bytes, length, fill_n}
use ocp_canopy_open_bmc.Packet.{header_size, parse_header, init_response}
use ocp_canopy_open_bmc.Packet.Frame.{Handled, no_response}

-- The header and a 4-byte error code.
abbrev resp_size : ℕ
resp_size = 12

-- `HealthService::handle`
unfoldable pub handle : Bytes → Bytes → Handled
handle request response =
    if ltb (length request) header_size
    then no_response response
    else if ltb (length response) resp_size
    then no_response response
    else (pos resp_size, init_response (fill_n resp_size response) (parse_header request) resp_size)
