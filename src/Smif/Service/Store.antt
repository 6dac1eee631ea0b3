-- ===== src/Smif/Service/Store.antt =====
-- Packets that set a variable and that read one, at the SMIF service.
use ocp_canopy_open_bmc.Common.{
  ℕ, ◌≤◌, ◌<◌, ◌≡◌, refl, ap, ◌∙◌, true, false, ltb, le→ltb, some, arith, Bytes, length, same_iff,
}
use ocp_canopy_open_bmc.Packet.{Header, parse_header, payload}
use ocp_canopy_open_bmc.Packet.Frame.{IsCommand, put_frame, reply_frame}
use ocp_canopy_open_bmc.EvStorage.{EvEntry, EvStorage, name_field, get_by_name, set}
use ocp_canopy_open_bmc.EvStorage.Codec.{IsEntry}
use ocp_canopy_open_bmc.EvStorage.Valid.{IsValid}
use ocp_canopy_open_bmc.EvStorage.View.{view, view-set, find-name}
use ocp_canopy_open_bmc.Smif.Response.Entry.{entry_body, build_ev_data_response-front}
use ocp_canopy_open_bmc.Smif.Ev.{answer_entry, handle_get_ev_by_name}
use ocp_canopy_open_bmc.Smif.Ev.RoundTrip.{
  IsName, set_request, set_delete_ev-set_request, handle_get_ev_by_name-name_field, view-entry,
}
use ocp_canopy_open_bmc.Smif.I2c.{I2cDriver}
use ocp_canopy_open_bmc.Smif.Service.{SmifService, dispatch, handle}
use ocp_canopy_open_bmc.Smif.Service.Refine.{handle-short}
use ocp_canopy_open_bmc.Smif.Service.State.{next}

-- The packet sets the variable of this name to this value.
pub record Sets (name value packet : Bytes) : Type 0 where
  pub command : IsCommand 0x012C packet
  pub request : payload packet ≡ set_request name value
  pub is_name : IsName name
  pub some_byte : 0 < length value
  pub small : length value ≤ 3966

-- The packet reads the variable of this name.
pub record Gets (name packet : Bytes) : Type 0 where
  pub command : IsCommand 0x0130 packet
  pub request : payload packet ≡ name_field name
  pub is_name : IsName name

abbrev pub entry_of : Bytes → Bytes → EvEntry
entry_of name value = record { name = name; value = value }

-- Behind a `set` that is accepted, the name finds an entry with it and the value.
pub set-get_by_name :
    (name value : Bytes) (s : EvStorage)
    → IsValid s
    → (set name value s).0 ≡ true
    → get_by_name name (set name value s).1 ≡ some (entry_of name value)
set-get_by_name name value s valid accepted =
    let after : EvStorage = (set name value s).1 in
    let stored : view after name ≡ some value =
      view-set name value name s valid accepted ∙ rw ((same_iff name name).1 refl) refl in
    let (e, found, value_is) = view-entry name value after stored in
    let name_is : e.name ≡ name = find-name name after.entries e (unfold get_by_name in found) in
    found ∙ ap some (λ i. record { name = name_is i; value = value_is i })

module _ {World : Type 0} (driver : I2cDriver World) where
  pub next-Sets :
      (s : SmifService World) (store : EvStorage) (name value packet : Bytes)
      → s.ev_storage ≡ some store
      → Sets name value packet
      → (next driver s packet).ev_storage ≡ some (set name value store).1
  next-Sets s store name value packet there sets =
      let long : ltb (length packet) 8 ≡ false = le→ltb _ _ sets.command.0 in
      rw (long, sets.command.1, sets.request, there)
        (ap (λ (out : ℕ × EvStorage). some out.1)
          (set_delete_ev-set_request name value store sets.is_name sets.some_byte sets.small))

  dispatch-get :
      (s : SmifService World) (hdr : Header) (request response : Bytes)
      → hdr.command ≡ 0x0130
      → (dispatch driver s hdr request response).0
        ≡ handle_get_ev_by_name s.ev_storage hdr request response
  unfolding dispatch
  dispatch-get s hdr request response is_get = ground arith

  pub handle-Gets :
      (s : SmifService World) (store : EvStorage) (name packet response : Bytes) (e : EvEntry)
      → s.ev_storage ≡ some store
      → Gets name packet
      → get_by_name name store ≡ some e
      → IsEntry e
      → 4012 ≤ length response
      → (handle driver s packet response).0
        ≡ put_frame (some (reply_frame (parse_header packet) (entry_body e))) response
  unfolding answer_entry
  handle-Gets s store name packet response e there gets found is_entry room =
      let hdr = parse_header packet in
      let long : ltb (length packet) 8 ≡ false = le→ltb _ _ gets.command.0 in
      let space : ltb (length response) 12 ≡ false = le→ltb _ _ (omega (arith, room)) in
      handle-short driver s packet response
      ∙ rw (long, space)
          (dispatch-get s hdr (payload packet) response gets.command.1
            ∙ rw (gets.request, there)
                (handle_get_ev_by_name-name_field name store hdr response gets.is_name
                  ∙ rw found (build_ev_data_response-front hdr e response is_entry room)))
