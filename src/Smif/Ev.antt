-- ===== src/Smif/Ev.antt =====
-- src/smif_service.cpp: the commands on environment variables. The store is absent where the
-- source's pointer is null.
pub mod Answers
pub mod RoundTrip
use ocp_canopy_open_bmc.Common.{
  ℕ, ◌+◌, ◌-◌, ◌/◌, ◌%◌, ◌^◌, Bool, not, ltb, ◌==◌, if◌then◌else◌, Option, none, some, bit_and, pos,
  Bytes, length, get_or, le_bytes, load_le, read_at, fill_n, until_nul,
}
use ocp_canopy_open_bmc.Packet.{Header, init_response, write_payload}
use ocp_canopy_open_bmc.Packet.Frame.{Handled, no_response}
use ocp_canopy_open_bmc.EvStorage.{
  EvEntry, EvStorage, max_ev_name_len, max_ev_data_size, max_ev_file_size, get_by_index,
  get_by_name, set, del, delete_all, count, remaining_size,
}
use ocp_canopy_open_bmc.Smif.Response.{
  EvError, success, device_error, no_such_ev, name_too_long, data_too_large, unsupported, ev,
  build_simple_response, build_ev_data_response,
}

abbrev pub ev_flag_set : ℕ
ev_flag_set = 0x01

abbrev pub ev_flag_delete : ℕ
ev_flag_delete = 0x02

abbrev pub ev_flag_delete_all : ℕ
ev_flag_delete_all = 0x04

-- The end of `handleGetEvByIndex` and `handleGetEvByName`: an entry, or none, was found.
unfoldable pub answer_entry : Header → Bytes → Option EvEntry → Handled
answer_entry hdr response none = build_simple_response hdr response (ev no_such_ev)
answer_entry hdr response (some e) = build_ev_data_response hdr response e

-- `handleGetEvByIndex`
unfoldable pub handle_get_ev_by_index : Option EvStorage → Header → Bytes → Bytes → Handled
handle_get_ev_by_index none hdr request response =
    build_simple_response hdr response (ev device_error)
handle_get_ev_by_index (some s) hdr request response =
    if ltb (length request) 4
    then build_simple_response hdr response (ev device_error)
    else answer_entry hdr response (get_by_index (load_le 0 4 request) s)

-- The result of an operation on the store, as an error code.
abbrev code_of : Bool → EvError → ℕ
code_of done failure = if done then ev success else ev failure

-- The delete branch of `handleSetDeleteEv`: the error code and the store behind it.
unfoldable pub delete_ev : EvStorage → Bytes → ℕ × EvStorage
delete_ev s request =
    let region = read_at 4 max_ev_name_len request in
    let (done, s') = del (until_nul region) s in
    if ltb (length request) (4 + max_ev_name_len)
    then (ev no_such_ev, s)
    else if not (get_or region (max_ev_name_len - 1) 0 == 0)
    then (ev name_too_long, s)
    else (code_of done device_error, s')

-- The set branch. A name is cut to 31 bytes, and no data means that the variable is deleted.
unfoldable pub set_ev : EvStorage → Bytes → ℕ × EvStorage
set_ev s request =
    let min_set_payload = 4 + max_ev_name_len + 2 in
    let name = until_nul (read_at 4 (max_ev_name_len - 1) request) in
    let data_len = load_le (4 + max_ev_name_len) 2 request in
    let (deleted, without) = del name s in
    let (done, s') = set name (read_at min_set_payload data_len request) s in
    if ltb (length request) min_set_payload
    then (ev no_such_ev, s)
    else if ltb max_ev_data_size data_len
    then (ev data_too_large, s)
    else if data_len == 0
    then (ev success, without)
    else if ltb (length request) (min_set_payload + data_len)
    then (ev no_such_ev, s)
    else (code_of done name_too_long, s')

-- The flags of `handleSetDeleteEv`, in the order in which they are tested.
unfoldable pub set_delete_ev : EvStorage → Bytes → ℕ × EvStorage
set_delete_ev s request =
    let flags = get_or request 0 0 in
    let (done, cleared) = delete_all s in
    if ltb (length request) 4
    then (ev no_such_ev, s)
    else if not (bit_and flags ev_flag_delete_all == 0)
    then (code_of done name_too_long, cleared)
    else if not (bit_and flags ev_flag_delete == 0)
    then delete_ev s request
    else if not (bit_and flags ev_flag_set == 0)
    then set_ev s request
    else (ev unsupported, s)

-- `handleSetDeleteEv`: every branch ends in a simple response with its code.
unfoldable pub handle_set_delete_ev :
    Option EvStorage → Header → Bytes → Bytes → Handled × Option EvStorage
handle_set_delete_ev none hdr request response =
    (build_simple_response hdr response (ev no_such_ev), none)
handle_set_delete_ev (some s) hdr request response =
    let (code, s') = set_delete_ev s request in (build_simple_response hdr response code, some s')

-- The guards of `handleGetEvByName`, in the order in which they are tested.
unfoldable pub handle_get_ev_by_name : Option EvStorage → Header → Bytes → Bytes → Handled
handle_get_ev_by_name storage hdr request response =
    if ltb (length request) max_ev_name_len
    then build_simple_response hdr response (ev no_such_ev)
    else elim storage [
      | none ↦ build_simple_response hdr response (ev device_error)
      | some s ↦
          if not (get_or request (max_ev_name_len - 1) 0 == 0)
          then build_simple_response hdr response (ev name_too_long)
          else answer_entry hdr response
              (get_by_name (until_nul (read_at 0 (max_ev_name_len - 1) request)) s)
    ]

abbrev remaining_of : Option EvStorage → ℕ
remaining_of none = 0
remaining_of (some s) = remaining_size s % 2 ^ 32

abbrev count_of : Option EvStorage → ℕ
count_of none = 0
count_of (some s) = count s % 2 ^ 16

-- `handleEvStats`
unfoldable pub handle_ev_stats : Option EvStorage → Header → Bytes → Handled
handle_ev_stats storage hdr response =
    let started = init_response (fill_n 20 response) hdr 20 in
    let sized = write_payload 4 (le_bytes 4 (remaining_of storage)) started in
    let counted = write_payload 8 (le_bytes 2 (count_of storage)) sized in
    let limited = write_payload 10 (le_bytes 2 (max_ev_file_size / 1024 % 2 ^ 16)) counted in
    if ltb (length response) 20 then no_response response else (pos 20, limited)
