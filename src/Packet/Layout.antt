-- ===== src/Packet/Layout.antt =====
-- The byte layout of packet headers, parsed and printed.
use ocp_canopy_open_bmc.Common.{
  ℕ, ◌≤◌, ◌<◌, ◌≡◌, refl, ◌++◌, [], ◌∷◌, arith, Bytes, IsBytes, length, le_value-le_bytes,
  bit_or_top,
}
use ocp_canopy_open_bmc.Packet.{
  Header, header_bytes, parse_header, payload, response_header, rom_response_header,
}

-- Each field fits the width that the struct gives it.
pub record FitsHeader (h : Header) : Type 0 where
  pub pkt_size_fits : h.pkt_size < 65536
  pub sequence_fits : h.sequence < 65536
  pub command_fits : h.command < 65536
  pub service_id_fits : h.service_id < 256
  pub version_fits : h.version < 256

pub length-header_bytes : (h : Header) → length (header_bytes h) ≡ 8
unfolding header_bytes
length-header_bytes h = refl

-- A header whose fields fit the struct, printed in front of any bytes, is parsed back from them.
pub parse_header-header_bytes :
    (h : Header) (rest : Bytes) → FitsHeader h → parse_header (header_bytes h ++ rest) ≡ h
unfolding parse_header header_bytes
parse_header-header_bytes h rest f = λ i. record {
  pkt_size = le_value-le_bytes 2 h.pkt_size (omega arith) i;
  sequence = le_value-le_bytes 2 h.sequence (omega arith) i;
  command = le_value-le_bytes 2 h.command (omega arith) i;
  service_id = le_value-le_bytes 1 h.service_id (omega arith) i;
  version = le_value-le_bytes 1 h.version (omega arith) i;
}

-- What is parsed from bytes fits the struct.
pub parse_header-FitsHeader :
    (buf : Bytes) → IsBytes buf → 8 ≤ length buf → FitsHeader (parse_header buf)
unfolding parse_header
parse_header-FitsHeader (b₀ ∷ b₁ ∷ b₂ ∷ b₃ ∷ b₄ ∷ b₅ ∷ b₆ ∷ b₇ ∷ rest) p h = omega arith
parse_header-FitsHeader _ p h = absurd (omega arith)

-- A packet of at least 8 bytes (numbers below 256) is its parsed header, printed, and its payload.
packet_splits :
    (pkt : Bytes)
    → IsBytes pkt
    → 8 ≤ length pkt
    → header_bytes (parse_header pkt) ++ payload pkt ≡ pkt
unfolding parse_header header_bytes payload
packet_splits (b₀ ∷ b₁ ∷ b₂ ∷ b₃ ∷ b₄ ∷ b₅ ∷ b₆ ∷ b₇ ∷ []) p h = ground arith
packet_splits (b₀ ∷ b₁ ∷ b₂ ∷ b₃ ∷ b₄ ∷ b₅ ∷ b₆ ∷ b₇ ∷ x ∷ rest) p h = ground arith
packet_splits _ p h = absurd (omega arith)

pub response_header-FitsHeader :
    (h : Header) (n : ℕ) → FitsHeader h → n < 65536 → FitsHeader (response_header h n)
unfolding response_header
response_header-FitsHeader h n f small = omega (arith, bit_or_top h.command f.command_fits)

pub rom_response_header-FitsHeader :
    (h : Header) (n : ℕ) → FitsHeader h → n < 65536 → FitsHeader (rom_response_header h n)
unfolding rom_response_header
rom_response_header-FitsHeader h n f small = omega arith
