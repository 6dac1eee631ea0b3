-- ===== src/Smif/Service/Index.antt =====
-- Packets that read the variable at an index, at the SMIF service.
use ocp_canopy_open_bmc.Common.{
  ℕ, ◌^◌, ◌≤◌, ◌<◌, ◌≡◌, refl, ap, sym, ◌∙◌, false, ltb, le→ltb, Option, none, some, [], append-nil,
  arith, Bytes, length, get_elem?, le_bytes, load_le, load_le-append,
}
use ocp_canopy_open_bmc.Packet.{Header, parse_header, payload}
use ocp_canopy_open_bmc.Packet.Frame.{IsCommand, put_frame, reply_frame}
use ocp_canopy_open_bmc.EvStorage.{EvEntry, EvStorage, get_by_index}
use ocp_canopy_open_bmc.EvStorage.Codec.{IsEntry}
use ocp_canopy_open_bmc.Smif.Response.{ev}
use ocp_canopy_open_bmc.Smif.Response.Frames.{build_simple_response-front}
use ocp_canopy_open_bmc.Smif.Response.Entry.{entry_body, build_ev_data_response-front}
use ocp_canopy_open_bmc.Smif.Ev.{answer_entry, handle_get_ev_by_index}
use ocp_canopy_open_bmc.Smif.I2c.{I2cDriver}
use ocp_canopy_open_bmc.Smif.Service.{SmifService, dispatch, handle}
use ocp_canopy_open_bmc.Smif.Service.Refine.{handle-short}
use ocp_canopy_open_bmc.Smif.Service.State.{next}

-- The packet reads the variable at this index.
pub record ReadsIndex (i : ℕ) (packet : Bytes) : Type 0 where
  pub command : IsCommand 0x012B packet
  pub request : payload packet ≡ le_bytes 4 i
  pub index_fits : i < 2 ^ 32

-- The payload of the answer: the entry, or the error code for no such variable.
abbrev pub indexed_body : Option EvEntry → Bytes
indexed_body none = le_bytes 4 2
indexed_body (some e) = entry_body e

abbrev pub EntryIfAny : Option EvEntry → Type 0
EntryIfAny none = Unit
EntryIfAny (some e) = IsEntry e

answer_entry-front :
    (hdr : Header) (found : Option EvEntry) (response : Bytes)
    → EntryIfAny found
    → 4012 ≤ length response
    → answer_entry hdr response found
      ≡ put_frame (some (reply_frame hdr (indexed_body found))) response
unfolding answer_entry ev
answer_entry-front hdr none response is_entry room =
    build_simple_response-front hdr 2 response (omega arith)
answer_entry-front hdr (some e) response is_entry room =
    build_ev_data_response-front hdr e response is_entry room

get_by_index-answer :
    (i : ℕ) (s : EvStorage) (hdr : Header) (response : Bytes)
    → i < 2 ^ 32
    → handle_get_ev_by_index (some s) hdr (le_bytes 4 i) response
      ≡ answer_entry hdr response (get_elem? s.entries i)
unfolding handle_get_ev_by_index get_by_index
get_by_index-answer i s hdr response fits =
    let decoded : load_le 0 4 (le_bytes 4 i) ≡ i =
      ap (load_le 0 4) (sym (append-nil (le_bytes 4 i)))
      ∙ load_le-append 0 4 i [] [] refl (omega arith) in
    ap (λ k. answer_entry hdr response (get_elem? s.entries k)) decoded

module _ {World : Type 0} (driver : I2cDriver World) where
  dispatch-index :
      (s : SmifService World) (hdr : Header) (request response : Bytes)
      → hdr.command ≡ 0x012B
      → (dispatch driver s hdr request response).0
        ≡ handle_get_ev_by_index s.ev_storage hdr request response
  unfolding dispatch
  dispatch-index s hdr request response is_index = ground arith

  pub handle-ReadsIndex :
      (s : SmifService World) (store : EvStorage) (i : ℕ) (packet response : Bytes)
      → s.ev_storage ≡ some store
      → ReadsIndex i packet
      → EntryIfAny (get_elem? store.entries i)
      → 4012 ≤ length response
      → (handle driver s packet response).0
        ≡ put_frame
            (some (reply_frame (parse_header packet) (indexed_body (get_elem? store.entries i))))
            response
  handle-ReadsIndex s store i packet response there reads is_entry room =
      let hdr = parse_header packet in
      let long : ltb (length packet) 8 ≡ false = le→ltb _ _ reads.command.0 in
      let space : ltb (length response) 12 ≡ false = le→ltb _ _ (omega (arith, room)) in
      handle-short driver s packet response
      ∙ rw (long, space)
          (dispatch-index s hdr (payload packet) response reads.command.1
            ∙ rw (reads.request, there)
                (get_by_index-answer i store hdr response reads.index_fits
                  ∙ answer_entry-front hdr (get_elem? store.entries i) response is_entry room))

  -- Such a packet changes nothing.
  pub next-ReadsIndex :
      (s : SmifService World) (i : ℕ) (packet : Bytes)
      → ReadsIndex i packet
      → next driver s packet ≡ s
  next-ReadsIndex s i packet reads =
      let long : ltb (length packet) 8 ≡ false = le→ltb _ _ reads.command.0 in
      rw (long, reads.command.1) refl
