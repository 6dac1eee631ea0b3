-- ===== src/Smif/Service/Refine.antt =====
-- What the SMIF service does to its response buffer and to its store, whatever the request.
use ocp_canopy_open_bmc.Common.{ℕ, ◌≡◌, ltb, ◌==◌, if◌then◌else◌, arith, Bytes, length}
use ocp_canopy_open_bmc.Packet.{Header, parse_header, payload}
use ocp_canopy_open_bmc.Packet.Frame.{no_response}
use ocp_canopy_open_bmc.Smif.Response.{
  build_simple_response, handle_ev_state, handle_get_ev_auth_status, handle_plat_def_download,
}
use ocp_canopy_open_bmc.Smif.Response.Frames.{
  Framed, Framed-ext, guard-Framed, no_response-Framed, build_simple_response-Framed,
}
use ocp_canopy_open_bmc.Smif.Response.Fixed.{
  handle_ev_state-Framed, handle_get_ev_auth_status-Framed, handle_plat_def_download-Framed,
}
use ocp_canopy_open_bmc.Smif.Ev.{
  handle_get_ev_by_index, handle_set_delete_ev, handle_get_ev_by_name, handle_ev_stats,
}
use ocp_canopy_open_bmc.Smif.Ev.Answers.{
  ValidIfAny, if-Framed, handle_set_delete_ev-ValidIfAny, handle_get_ev_by_index-Framed,
  handle_set_delete_ev-Framed, handle_get_ev_by_name-Framed, handle_ev_stats-Framed,
}
use ocp_canopy_open_bmc.Smif.I2c.{I2cDriver, handle_i2c_proxy}
use ocp_canopy_open_bmc.Smif.I2c.Bounds.{handle_i2c_proxy-Framed}
use ocp_canopy_open_bmc.Smif.Service.{SmifService, dispatch, handle}

module _ {World : Type 0} (driver : I2cDriver World) where
  dispatch-reply :
      (s : SmifService World) (hdr : Header) (request response : Bytes)
      → (dispatch driver s hdr request response).0 ≡ (
          if hdr.command == 0x012B
          then handle_get_ev_by_index s.ev_storage hdr request response
          else if hdr.command == 0x012C
          then (handle_set_delete_ev s.ev_storage hdr request response).0
          else if hdr.command == 0x0130
          then handle_get_ev_by_name s.ev_storage hdr request response
          else if hdr.command == 0x0132
          then handle_ev_stats s.ev_storage hdr response
          else if hdr.command == 0x0133
          then handle_ev_state hdr response
          else if hdr.command == 0x012D
          then handle_get_ev_auth_status hdr response
          else if hdr.command == 0x0072
          then (handle_i2c_proxy driver s.segment_to_bus hdr request response s.world).0
          else if hdr.command == 0x0200
          then handle_plat_def_download hdr response
          else build_simple_response hdr response 0)
  unfolding dispatch
  dispatch-reply s hdr request response = ground arith

  dispatch-Framed :
      (s : SmifService World) (hdr : Header) (capacity : ℕ) (request : Bytes)
      → ValidIfAny s.ev_storage
      → Framed hdr capacity (λ response. (dispatch driver s hdr request response).0)
  dispatch-Framed s hdr capacity request h =
      let c = hdr.command in
      Framed-ext (λ response. dispatch-reply s hdr request response)
        (if-Framed hdr capacity (c == 0x012B)
          (handle_get_ev_by_index-Framed s.ev_storage hdr capacity request h)
          (if-Framed hdr capacity (c == 0x012C)
            (handle_set_delete_ev-Framed s.ev_storage hdr capacity request)
            (if-Framed hdr capacity (c == 0x0130)
              (handle_get_ev_by_name-Framed s.ev_storage hdr capacity request h)
              (if-Framed hdr capacity (c == 0x0132)
                (handle_ev_stats-Framed s.ev_storage hdr capacity)
                (if-Framed hdr capacity (c == 0x0133) (handle_ev_state-Framed hdr capacity) (
                  if-Framed hdr capacity (c == 0x012D)
                    (handle_get_ev_auth_status-Framed hdr capacity)
                    (if-Framed hdr capacity (c == 0x0072)
                      (handle_i2c_proxy-Framed driver s.segment_to_bus hdr capacity request s.world)
                      (if-Framed hdr capacity (c == 0x0200)
                        (handle_plat_def_download-Framed hdr capacity)
                        (build_simple_response-Framed hdr capacity 0)))))))))

  pub handle-short :
      (s : SmifService World) (request response : Bytes)
      → (handle driver s request response).0 ≡ (
          if ltb (length request) 8
          then no_response response
          else if ltb (length response) 12
          then no_response response
          else (dispatch driver s (parse_header request) (payload request) response).0)
  unfolding handle
  handle-short s request response = ground arith

  -- For a store within its limits and any request: the service either does not answer and leaves
  -- the response buffer, or puts a reply to the request at the front of it. The reply fits the
  -- buffer, and it does not depend on what the buffer held before.
  pub handle-Framed :
      (s : SmifService World) (request : Bytes) (capacity : ℕ)
      → ValidIfAny s.ev_storage
      → Framed (parse_header request) capacity (λ response. (handle driver s request response).0)
  handle-Framed s request capacity h =
      let hdr = parse_header request in
      let silent = no_response-Framed hdr capacity in
      Framed-ext (λ response. handle-short s request response)
        (if-Framed hdr capacity (ltb (length request) 8) silent
          (guard-Framed hdr capacity 12 (dispatch-Framed s hdr capacity (payload request) h)))

  -- Whatever bytes a request has, a store of the service that is within its limits stays so.
  pub handle-ValidIfAny :
      (s : SmifService World) (request response : Bytes)
      → ValidIfAny s.ev_storage
      → ValidIfAny (handle driver s request response).1.ev_storage
  unfolding handle dispatch
  handle-ValidIfAny s request response h = ground (
    arith,
    handle_set_delete_ev-ValidIfAny s.ev_storage (parse_header request) (payload request) response
        h,
  )
