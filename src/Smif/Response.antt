-- ===== src/Smif/Response.antt =====
-- src/smif_service.cpp: the responses that several handlers build, and the fixed ones.
pub mod Frames
pub mod Fixed
pub mod Entry
use ocp_canopy_open_bmc.Common.{
  ℕ, ◌+◌, ◌-◌, ◌%◌, ◌^◌, min, ltb, ◌==◌, if◌then◌else◌, [], ◌∷◌, pos, Bytes, length, take, le_bytes,
  fill_n,
}
use ocp_canopy_open_bmc.Packet.{Header, init_response, write_payload}
use ocp_canopy_open_bmc.Packet.Frame.{Handled, no_response}
use ocp_canopy_open_bmc.EvStorage.{EvEntry, max_ev_name_len}

-- `EvError`
pub data EvError : Type 0 where
  success device_error no_such_ev name_too_long data_too_large unsupported : EvError

-- `ev`, the code of an error.
unfoldable pub ev : EvError → ℕ
ev success = 0
ev device_error = 1
ev no_such_ev = 2
ev name_too_long = 3
ev data_too_large = 4
ev unsupported = 5

-- `buildSimpleResponse`
unfoldable pub build_simple_response : Header → Bytes → ℕ → Handled
build_simple_response hdr response error_code =
    if ltb (length response) 12
    then no_response response
    else (pos 12, write_payload 0 (le_bytes 4 error_code) (init_response response hdr 12))

-- The size of an entry's data on readback: nothing is padded to four bytes.
unfoldable pub readback_size : EvEntry → ℕ
readback_size e = if length e.value == 0 then 4 else length e.value

-- What `buildEvDataResponse` writes into a buffer that holds a response of the given size.
unfoldable pub fill_ev_data : Header → EvEntry → ℕ → Bytes → Bytes
fill_ev_data hdr e resp_size response =
    let started = init_response (fill_n resp_size response) hdr resp_size in
    let name_len = min (length e.name) (max_ev_name_len - 1) in
    let named = write_payload 4 (take name_len e.name) started in
    let data_len = readback_size e % 2 ^ 16 in
    let sized = write_payload (4 + max_ev_name_len) (le_bytes 2 data_len) named in
    if length e.value == 0 then sized else write_payload (4 + max_ev_name_len + 2) e.value sized

-- `buildEvDataResponse`
unfoldable pub build_ev_data_response : Header → Bytes → EvEntry → Handled
build_ev_data_response hdr response e =
    let payload_size = 4 + max_ev_name_len + 2 + readback_size e in
    let resp_size = (8 + payload_size) % 2 ^ 16 in
    if ltb (length response) resp_size
    then build_simple_response hdr response 3
    else (pos resp_size, fill_ev_data hdr e resp_size response)

-- `handleEvState`
unfoldable pub handle_ev_state : Header → Bytes → Handled
handle_ev_state hdr response =
    if ltb (length response) 16
    then no_response response
    else (pos 16, write_payload 4 (le_bytes 4 1) (init_response (fill_n 16 response) hdr 16))

-- `handleGetEvAuthStatus`
unfoldable pub handle_get_ev_auth_status : Header → Bytes → Handled
handle_get_ev_auth_status hdr response =
    let started = init_response (fill_n 132 response) hdr 132 in
    let versioned = write_payload 4 (le_bytes 4 1) started in
    let active = write_payload 8 (0x01 ∷ []) versioned in
    let side_a = write_payload 9 (0x01 ∷ []) active in
    let side_b = write_payload 10 (0x01 ∷ []) side_a in
    if ltb (length response) 132 then no_response response else (pos 132, side_b)

abbrev plat_def_no_more_records : ℕ
plat_def_no_more_records = 6

abbrev pub plat_def_resp_size : ℕ
plat_def_resp_size = 8 + 4024

-- `handlePlatDefDownload`
unfoldable pub handle_plat_def_download : Header → Bytes → Handled
handle_plat_def_download hdr response =
    let started = init_response (fill_n plat_def_resp_size response) hdr plat_def_resp_size in
    if ltb (length response) plat_def_resp_size
    then build_simple_response hdr response 1
    else (pos plat_def_resp_size, write_payload 0 (le_bytes 4 plat_def_no_more_records) started)
