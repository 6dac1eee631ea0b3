-- ===== src/Smif/Service/State.antt =====
-- The state of the SMIF service behind a packet, without the response buffer.
use ocp_canopy_open_bmc.Common.{
  ℕ, ◌≤◌, ◌≡◌, refl, false, ltb, ◌==◌, if◌then◌else◌, le→ltb, Option, none, some, arith, Bytes,
  length,
}
use ocp_canopy_open_bmc.Packet.{Header, parse_header, payload}
use ocp_canopy_open_bmc.EvStorage.{EvStorage}
use ocp_canopy_open_bmc.Smif.Ev.{set_delete_ev, handle_set_delete_ev}
use ocp_canopy_open_bmc.Smif.I2c.{I2cDriver, i2c_writes, handle_i2c_proxy}
use ocp_canopy_open_bmc.Smif.Service.{SmifService, dispatch, handle}

abbrev pub changed : Option EvStorage → Bytes → Option EvStorage
changed none request = none
changed (some s) request = some (set_delete_ev s request).1

changed-handle :
    (storage : Option EvStorage) (hdr : Header) (request response : Bytes)
    → (handle_set_delete_ev storage hdr request response).1 ≡ changed storage request
unfolding handle_set_delete_ev
changed-handle none hdr request response = refl
changed-handle (some s) hdr request response = refl

module _ {World : Type 0} (driver : I2cDriver World) where
  -- Two commands change the state: one the store, one the hardware behind the proxy.
  abbrev pub next_by : SmifService World → ℕ → Bytes → SmifService World
  next_by s command request =
      if command == 0x012C
      then record s { ev_storage = changed s.ev_storage request }
      else if command == 0x0072
      then record s { world = (i2c_writes driver s.segment_to_bus request s.world).1 }
      else s

  abbrev pub next : SmifService World → Bytes → SmifService World
  next s packet =
      if ltb (length packet) 8 then s else next_by s (parse_header packet).command (payload packet)

  proxy-world :
      (s : SmifService World) (hdr : Header) (request response : Bytes)
      → 57 ≤ length response
      → (handle_i2c_proxy driver s.segment_to_bus hdr request response s.world).1
        ≡ (i2c_writes driver s.segment_to_bus request s.world).1
  unfolding handle_i2c_proxy
  proxy-world s hdr request response room =
      let long : ltb (length response) 57 ≡ false = le→ltb _ _ room in rw long refl

  dispatch-next :
      (s : SmifService World) (hdr : Header) (request response : Bytes)
      → 57 ≤ length response
      → (dispatch driver s hdr request response).1 ≡ next_by s hdr.command request
  unfolding dispatch
  dispatch-next s hdr request response room =
      rw (changed-handle s.ev_storage hdr request response, proxy-world s hdr request response room)
        (ground arith)

  -- In a buffer of at least 57 bytes, the state behind a packet is what the packet says, whatever
  -- the buffer holds.
  pub handle-next :
      (s : SmifService World) (packet response : Bytes)
      → 57 ≤ length response
      → (handle driver s packet response).1 ≡ next s packet
  unfolding handle
  handle-next s packet response room =
      let long : ltb (length response) 12 ≡ false = le→ltb _ _ (omega (arith, room)) in
      rw (long, dispatch-next s (parse_header packet) (payload packet) response room) (ground arith)
