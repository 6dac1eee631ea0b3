-- ===== src/Smif/Response/Fixed.antt =====
-- The responses of src/smif_service.cpp that are always the same.
use ocp_canopy_open_bmc.Common.{
  ℕ, refl, [], ◌∷◌, ◌++◌, arith, Bytes, drop, replicate, le_bytes, fill_n,
}
use ocp_canopy_open_bmc.Packet.{Header, response_header, init_response, write_payload}
use ocp_canopy_open_bmc.Smif.Response.{
  handle_ev_state, handle_get_ev_auth_status, handle_plat_def_download, plat_def_resp_size,
}
use ocp_canopy_open_bmc.Smif.Response.Frames.{
  Framed, Framed-at, init_filled, write_payload-append, no_response-Framed,
  build_simple_response-Framed,
}

-- The payload that `handleEvState` sends: no error, connected.
abbrev ev_state_body : Bytes
ev_state_body = le_bytes 4 0 ++ le_bytes 4 1

pub handle_ev_state-Framed :
    (hdr : Header) (capacity : ℕ) → Framed hdr capacity (handle_ev_state hdr)
unfolding handle_ev_state
handle_ev_state-Framed hdr capacity =
    Framed-at hdr capacity 16 ev_state_body
      (λ response. write_payload 4 (le_bytes 4 1) (init_response (fill_n 16 response) hdr 16)) refl
      (omega arith)
      (λ response room. rw (init_filled 16 8 16 hdr response refl room) (
        write_payload-append 4 (le_bytes 4 1) (response_header hdr 16)
          (replicate 8 0 ++ drop 16 response) (omega arith)))
      (no_response-Framed hdr capacity)

-- The payload that `handleGetEvAuthStatus` sends.
abbrev auth_status_body : Bytes
auth_status_body = le_bytes 4 0 ++ (le_bytes 4 1 ++ (1 ∷ 1 ∷ 1 ∷ replicate 113 0))

pub handle_get_ev_auth_status-Framed :
    (hdr : Header) (capacity : ℕ) → Framed hdr capacity (handle_get_ev_auth_status hdr)
unfolding handle_get_ev_auth_status
handle_get_ev_auth_status-Framed hdr capacity =
    Framed-at hdr capacity 132 auth_status_body
      (λ response. write_payload 10 (1 ∷ []) (
        write_payload 9 (1 ∷ []) (
          write_payload 8 (1 ∷ [])
            (write_payload 4 (le_bytes 4 1) (init_response (fill_n 132 response) hdr 132)))))
      refl (omega arith)
      (λ response room.
        let h = response_header hdr 132 in
        let rest : Bytes = replicate 113 0 ++ drop 132 response in
        rw (
          init_filled 132 124 132 hdr response refl room,
          write_payload-append 4 (le_bytes 4 1) h (replicate 124 0 ++ drop 132 response)
              (omega arith),
          write_payload-append 8 (1 ∷ []) h (le_bytes 4 0 ++ (le_bytes 4 1 ++ (0 ∷ 0 ∷ 0 ∷ rest)))
              (omega arith),
          write_payload-append 9 (1 ∷ []) h (le_bytes 4 0 ++ (le_bytes 4 1 ++ (1 ∷ 0 ∷ 0 ∷ rest)))
              (omega arith),
          write_payload-append 10 (1 ∷ []) h (le_bytes 4 0 ++ (le_bytes 4 1 ++ (1 ∷ 1 ∷ 0 ∷ rest)))
              (omega arith),
        ))
      (no_response-Framed hdr capacity)

-- The payload that `handlePlatDefDownload` sends: no more records.
abbrev no_records_body : Bytes
no_records_body = le_bytes 4 6 ++ replicate 4020 0

pub handle_plat_def_download-Framed :
    (hdr : Header) (capacity : ℕ) → Framed hdr capacity (handle_plat_def_download hdr)
unfolding handle_plat_def_download
handle_plat_def_download-Framed hdr capacity =
    Framed-at hdr capacity plat_def_resp_size no_records_body
      (λ response.
        write_payload 0 (le_bytes 4 6)
          (init_response (fill_n plat_def_resp_size response) hdr plat_def_resp_size))
      refl (omega arith)
      (λ response room. rw (
        init_filled plat_def_resp_size 4024 plat_def_resp_size hdr response refl room,
        write_payload-append 0 (le_bytes 4 6) (response_header hdr plat_def_resp_size)
            (replicate 4024 0 ++ drop plat_def_resp_size response) (omega arith),
      ))
      (build_simple_response-Framed hdr capacity 1)
