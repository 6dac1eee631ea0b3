-- ===== src/Smif/Service/Proxy.antt =====
-- A packet that leads to an I2C transfer, at the SMIF service.
use ocp_canopy_open_bmc.Common.{
  ℕ, ◌≤◌, ◌≡◌, refl, ap, sym, ◌∙◌, false, ltb, le→ltb, some, ◌++◌, arith, ℤ, pos, Bytes, length,
  drop, replicate,
}
use ocp_canopy_open_bmc.Packet.{Header, header_bytes, parse_header, payload, response_header}
use ocp_canopy_open_bmc.Packet.Frame.{IsCommand, put_frame, reply_frame}
use ocp_canopy_open_bmc.Smif.Response.Frames.{init_filled, put_reply}
use ocp_canopy_open_bmc.Smif.I2c.{
  I2cDriver, SegmentBusMap, TransferResult, Writes, find_bus, apply_writes, i2c_resp_size,
  handle_i2c_proxy, i2c_writes,
}
use ocp_canopy_open_bmc.Smif.I2c.Bounds.{
  payload_after, apply_writes-append, length-payload_after, i2c_writes-InBounds,
}
use ocp_canopy_open_bmc.Smif.I2c.Transfer.{
  i2c_request, asked_messages, answer_body, AsksFor, payload_after-answer_body, i2c_writes-transfer,
}
use ocp_canopy_open_bmc.Smif.Service.{SmifService, dispatch, handle}
use ocp_canopy_open_bmc.Smif.Service.Refine.{handle-short}
use ocp_canopy_open_bmc.Smif.Service.State.{handle-next}

module _ {World : Type 0} (driver : I2cDriver World) (segments : SegmentBusMap) (w : World)
    (bus : ℤ) (unused : Bytes) (address segment read_len : ℕ) (written : Bytes)
    (found : find_bus segment segments ≡ some bus)
    (asks : AsksFor driver w bus unused address segment read_len written) where
  abbrev request : Bytes
  request = i2c_request unused address segment read_len written

  abbrev transferring : TransferResult × World
  transferring = driver.transfer w bus (asked_messages address read_len written)

  abbrev body : Bytes
  body = answer_body address segment read_len transferring.0

  body-is : payload_after (i2c_writes driver segments request w).0 (replicate 49 0) ≡ body
  body-is =
      ap (λ out. payload_after out.0 (replicate 49 0))
        (i2c_writes-transfer driver segments w bus unused address segment read_len written found
          asks)
      ∙ payload_after-answer_body address segment read_len transferring.0 asks.read_small

  proxy-answers :
      (hdr : Header) (response : Bytes)
      → 57 ≤ length response
      → (handle_i2c_proxy driver segments hdr request response w).0
        ≡ put_frame (some (reply_frame hdr body)) response
  unfolding handle_i2c_proxy
  proxy-answers hdr response room =
      let fits : ltb (length response) 57 ≡ false = le→ltb _ _ room in
      let ws = (i2c_writes driver segments request w).0 in
      let size : length body ≡ 49 =
        ap (λ (bs : Bytes). length bs) (sym body-is) ∙ length-payload_after ws (replicate 49 0) in
      rw fits (
        ap (λ bs. (pos i2c_resp_size, bs))
          (ap (apply_writes ws) (init_filled 57 49 57 hdr response refl room)
            ∙ apply_writes-append ws (response_header hdr 57) (replicate 49 0) (drop 57 response)
                refl (i2c_writes-InBounds driver segments request w)
            ∙ ap (λ (x : Bytes). header_bytes (response_header hdr 57) ++ (x ++ drop 57 response))
                body-is)
        ∙ sym (put_reply hdr body response 57 (omega (arith, size))))

-- The packet asks the service for this transfer.
pub record Proxies (unused : Bytes) (address segment read_len : ℕ) (written packet : Bytes)
    : Type 0 where
  pub command : IsCommand 0x0072 packet
  pub request_is : payload packet ≡ i2c_request unused address segment read_len written

module _ {World : Type 0} (driver : I2cDriver World) where
  dispatch-proxy :
      (s : SmifService World) (hdr : Header) (request response : Bytes)
      → hdr.command ≡ 0x0072
      → (dispatch driver s hdr request response).0
        ≡ (handle_i2c_proxy driver s.segment_to_bus hdr request response s.world).0
  unfolding dispatch
  dispatch-proxy s hdr request response is_proxy = ground arith

  -- Of a service that gets a packet for a transfer.
  pub handle-Proxies :
      (s : SmifService World) (bus : ℤ) (unused : Bytes) (address segment read_len : ℕ)
      (written packet response : Bytes)
      → find_bus segment s.segment_to_bus ≡ some bus
      → AsksFor driver s.world bus unused address segment read_len written
      → Proxies unused address segment read_len written packet
      → 57 ≤ length response
      → let (result, w') = driver.transfer s.world bus (asked_messages address read_len written) in
        ((handle driver s packet response).0
          ≡ put_frame
              (some
                (reply_frame (parse_header packet) (answer_body address segment read_len result)))
              response)
        × ((handle driver s packet response).1 ≡ record s { world = w' })
  handle-Proxies s bus unused address segment read_len written packet response found asks proxies
        room =
      let hdr = parse_header packet in
      let long : ltb (length packet) 8 ≡ false = le→ltb _ _ proxies.command.0 in
      let space : ltb (length response) 12 ≡ false = le→ltb _ _ (omega (arith, room)) in
      (
        handle-short driver s packet response
            ∙ rw (long, space)
                (dispatch-proxy s hdr (payload packet) response proxies.command.1
                  ∙ rw proxies.request_is (
                      proxy-answers driver s.segment_to_bus s.world bus unused address segment
                        read_len written found asks hdr response room)),
        handle-next driver s packet response room
            ∙ rw (long, proxies.command.1, proxies.request_is)
                (ap (λ (out : Writes × World). record s { world = out.1 })
                  (i2c_writes-transfer driver s.segment_to_bus s.world bus unused address segment
                    read_len written found asks)),
      )
