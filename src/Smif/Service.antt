-- ===== src/Smif/Service.antt =====
-- src/smif_service.cpp: the switch over the commands.
pub mod Refine
pub mod State
pub mod Store
pub mod Index
pub mod Proxy
use ocp_canopy_open_bmc.Common.{ℕ, Bool, ltb, ◌==◌, if◌then◌else◌, Option, Bytes, length}
use ocp_canopy_open_bmc.Packet.{Header, header_size, parse_header, payload}
use ocp_canopy_open_bmc.Packet.Frame.{Handled, no_response}
use ocp_canopy_open_bmc.EvStorage.{EvStorage}
use ocp_canopy_open_bmc.Smif.Response.{
  build_simple_response, handle_ev_state, handle_get_ev_auth_status, handle_plat_def_download,
}
use ocp_canopy_open_bmc.Smif.Ev.{
  handle_get_ev_by_index, handle_set_delete_ev, handle_get_ev_by_name, handle_ev_stats,
}
use ocp_canopy_open_bmc.Smif.I2c.{I2cDriver, SegmentBusMap, handle_i2c_proxy}

abbrev pub smif_cmd_get_ev_by_index : ℕ
smif_cmd_get_ev_by_index = 0x012B

abbrev pub smif_cmd_set_delete_ev : ℕ
smif_cmd_set_delete_ev = 0x012C

abbrev pub smif_cmd_get_ev_auth_status : ℕ
smif_cmd_get_ev_auth_status = 0x012D

abbrev pub smif_cmd_get_ev_by_name : ℕ
smif_cmd_get_ev_by_name = 0x0130

abbrev pub smif_cmd_ev_stats : ℕ
smif_cmd_ev_stats = 0x0132

abbrev pub smif_cmd_ev_state : ℕ
smif_cmd_ev_state = 0x0133

abbrev pub smif_cmd_i2c_transaction : ℕ
smif_cmd_i2c_transaction = 0x0072

abbrev pub smif_cmd_plat_def_upload : ℕ
smif_cmd_plat_def_upload = 0x0200

-- `SmifService`, with the state of the hardware behind its I2C proxy.
pub record SmifService (World : Type 0) : Type 0 where
  pub ev_storage : Option EvStorage
  pub segment_to_bus : SegmentBusMap
  pub world : World

module _ {World : Type 0} (driver : I2cDriver World) where
  -- The switch of `SmifService::handle`. Every command that it does not name is a stub.
  unfoldable pub dispatch : SmifService World → Header → Bytes → Bytes → Handled × SmifService World
  dispatch s hdr request response =
      let (changed, storage) = handle_set_delete_ev s.ev_storage hdr request response in
      let (proxied, world) =
        handle_i2c_proxy driver s.segment_to_bus hdr request response s.world in
      if hdr.command == smif_cmd_get_ev_by_index
      then (handle_get_ev_by_index s.ev_storage hdr request response, s)
      else if hdr.command == smif_cmd_set_delete_ev
      then (changed, record s { ev_storage = storage })
      else if hdr.command == smif_cmd_get_ev_by_name
      then (handle_get_ev_by_name s.ev_storage hdr request response, s)
      else if hdr.command == smif_cmd_ev_stats
      then (handle_ev_stats s.ev_storage hdr response, s)
      else if hdr.command == smif_cmd_ev_state
      then (handle_ev_state hdr response, s)
      else if hdr.command == smif_cmd_get_ev_auth_status
      then (handle_get_ev_auth_status hdr response, s)
      else if hdr.command == smif_cmd_i2c_transaction
      then (proxied, record s { world = world })
      else if hdr.command == smif_cmd_plat_def_upload
      then (handle_plat_def_download hdr response, s)
      else (build_simple_response hdr response 0, s)

  -- `SmifService::handle`
  unfoldable pub handle : SmifService World → Bytes → Bytes → Handled × SmifService World
  handle s request response =
      if ltb (length request) header_size
      then (no_response response, s)
      else if ltb (length response) 12
      then (no_response response, s)
      else dispatch s (parse_header request) (payload request) response
