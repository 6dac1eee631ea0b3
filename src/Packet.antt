-- ===== src/Packet.antt =====
-- src/packet.hpp: the header of a CHIF packet, the payload behind it, and the two ways to start a
-- response. A packet is its bytes; a response buffer is a byte list that only changes in place.
pub mod Layout
pub mod Frame
use ocp_canopy_open_bmc.Common.{
  ℕ, ◌+◌, ◌-◌, ◌++◌, [], bit_or, Bytes, leb, if◌then◌else◌, length, drop, le_bytes, load_le,
  write_at,
}

-- `ChifPktHeader`
pub record Header : Type 0 where
  pub pkt_size : ℕ
  pub sequence : ℕ
  pub command : ℕ
  pub service_id : ℕ
  pub version : ℕ

abbrev pub header_size : ℕ
header_size = 8

abbrev pub max_packet_size : ℕ
max_packet_size = 4096

abbrev pub max_payload_size : ℕ
max_payload_size = max_packet_size - header_size

abbrev pub response_bit : ℕ
response_bit = 0x8000

abbrev pub smif_service_id : ℕ
smif_service_id = 0x00

abbrev pub rom_service_id : ℕ
rom_service_id = 0x02

abbrev pub health_service_id : ℕ
health_service_id = 0x10

-- The bytes of the packed struct, on a little-endian machine.
unfoldable pub header_bytes : Header → Bytes
header_bytes h =
    le_bytes 2 h.pkt_size
    ++ (le_bytes 2 h.sequence
        ++ (le_bytes 2 h.command ++ (le_bytes 1 h.service_id ++ le_bytes 1 h.version)))

-- `parseHeader`
unfoldable pub parse_header : Bytes → Header
parse_header buf = record {
  pkt_size = load_le 0 2 buf;
  sequence = load_le 2 2 buf;
  command = load_le 4 2 buf;
  service_id = load_le 6 1 buf;
  version = load_le 7 1 buf;
}

-- `payload`
unfoldable pub payload : Bytes → Bytes
payload pkt = if leb (length pkt) header_size then [] else drop header_size pkt

-- The header that `initResponse` builds.
unfoldable pub response_header : Header → ℕ → Header
response_header req resp_size = record {
  pkt_size = resp_size;
  sequence = req.sequence;
  command = bit_or req.command response_bit;
  service_id = req.service_id;
  version = req.version;
}

-- The header that `initRomResponse` builds: no response bit.
unfoldable pub rom_response_header : Header → ℕ → Header
rom_response_header req resp_size = record {
  pkt_size = resp_size;
  sequence = req.sequence;
  command = req.command;
  service_id = req.service_id;
  version = req.version;
}

-- `initResponse`
unfoldable pub init_response : Bytes → Header → ℕ → Bytes
init_response resp req resp_size = write_at 0 (header_bytes (response_header req resp_size)) resp

-- `initRomResponse`
unfoldable pub init_rom_response : Bytes → Header → ℕ → Bytes
init_rom_response resp req resp_size =
    write_at 0 (header_bytes (rom_response_header req resp_size)) resp

-- A write through the span that `responsePayload` returns, at an offset into it. The span is the
-- buffer behind its header, and empty for a buffer with nothing there.
unfoldable pub write_payload : ℕ → Bytes → Bytes → Bytes
write_payload off src resp =
    if leb (length resp) header_size then resp else write_at (header_size + off) src resp
