-- ===== src/Smif/Ev/Answers.antt =====
-- What the variable commands answer and do.
use ocp_canopy_open_bmc.Common.{
  ℕ, zero, suc, All, List, get_elem?, subst, bit_and, ◌+◌, ◌≡◌, refl, Bool, true, false, not, ltb,
  ◌==◌, if◌then◌else◌, if-intro, Option, none, some, [], ◌∷◌, ◌++◌, arith, Bytes, length, get_or,
  drop, replicate, le_bytes, load_le, read_at, fill_n, until_nul, until_nul-NoNul,
}
use ocp_canopy_open_bmc.Packet.{Header, response_header, init_response, write_payload}
use ocp_canopy_open_bmc.Packet.Frame.{Handled}
use ocp_canopy_open_bmc.EvStorage.{EvEntry, EvStorage, get_by_index, get_by_name}
use ocp_canopy_open_bmc.EvStorage.Codec.{IsEntry}
use ocp_canopy_open_bmc.EvStorage.Valid.{
  IsValid, find-IsEntry, set-IsValid, del-IsValid, delete_all-IsValid,
}
use ocp_canopy_open_bmc.Smif.Response.{ev, no_such_ev}
use ocp_canopy_open_bmc.Smif.Response.Frames.{
  Framed, Framed-at, no_response-Framed, build_simple_response-Framed, init_filled,
  write_payload-append,
}
use ocp_canopy_open_bmc.Smif.Response.Entry.{build_ev_data_response-Framed}
use ocp_canopy_open_bmc.Smif.Ev.{
  answer_entry, handle_get_ev_by_index, delete_ev, set_ev, set_delete_ev, handle_set_delete_ev,
  handle_get_ev_by_name, remaining_of, count_of, handle_ev_stats,
}

-- A store that is there is within its limits.
abbrev pub ValidIfAny : Option EvStorage → Type 0
ValidIfAny none = Unit
ValidIfAny (some s) = IsValid s

-- The same of the store behind a command with an error code.
record ValidAfter (r : ℕ × EvStorage) : Type 0 where
  valid : IsValid r.1

delete_ev-ValidAfter :
    (s : EvStorage) (request : Bytes) → IsValid s → ValidAfter (delete_ev s request)
unfolding delete_ev
delete_ev-ValidAfter s request h =
    if-intro ValidAfter (ltb (length request) 36) (λ _. record { valid = h })
      (λ _.
        if-intro ValidAfter (not (get_or (read_at 4 32 request) 31 0 == 0))
          (λ _. record { valid = h })
          (λ _. record { valid = del-IsValid (until_nul (read_at 4 32 request)) s h }))

set_ev-ValidAfter : (s : EvStorage) (request : Bytes) → IsValid s → ValidAfter (set_ev s request)
unfolding set_ev
set_ev-ValidAfter s request h =
    let name = until_nul (read_at 4 31 request) in
    let value = read_at 38 (load_le 36 2 request) request in
    let data_len = load_le 36 2 request in
    if-intro ValidAfter (ltb (length request) 38) (λ _. record { valid = h })
      (λ _.
        if-intro ValidAfter (ltb 3966 data_len) (λ _. record { valid = h })
          (λ _.
            if-intro ValidAfter (data_len == 0) (λ _. record { valid = del-IsValid name s h })
              (λ _.
                if-intro ValidAfter (ltb (length request) (38 + data_len))
                  (λ _. record { valid = h })
                  (λ _. record {
                    valid = set-IsValid name value s (until_nul-NoNul (read_at 4 31 request)) h;
                  }))))

set_delete_ev-ValidAfter :
    (s : EvStorage) (request : Bytes) → IsValid s → ValidAfter (set_delete_ev s request)
unfolding set_delete_ev
set_delete_ev-ValidAfter s request h =
    let flags = get_or request 0 0 in
    if-intro ValidAfter (ltb (length request) 4) (λ _. record { valid = h })
      (λ _.
        if-intro ValidAfter (not (bit_and flags 4 == 0))
          (λ _. record { valid = delete_all-IsValid s })
          (λ _.
            if-intro ValidAfter (not (bit_and flags 2 == 0)) (λ _. delete_ev-ValidAfter s request h)
              (λ _.
                if-intro ValidAfter (not (bit_and flags 1 == 0))
                  (λ _. set_ev-ValidAfter s request h) (λ _. record { valid = h }))))

-- A set or delete command keeps the limits of the store, whatever its bytes are.
pub handle_set_delete_ev-ValidIfAny :
    (storage : Option EvStorage) (hdr : Header) (request response : Bytes)
    → ValidIfAny storage
    → ValidIfAny (handle_set_delete_ev storage hdr request response).1
unfolding handle_set_delete_ev
handle_set_delete_ev-ValidIfAny none hdr request response h = tt
handle_set_delete_ev-ValidIfAny (some s) hdr request response h =
    (set_delete_ev-ValidAfter s request h).valid

get_by_index-IsEntry :
    (index : ℕ) (s : EvStorage) (e : EvEntry)
    → IsValid s
    → get_by_index index s ≡ some e
    → IsEntry e
unfolding get_by_index
get_by_index-IsEntry index s e h f = go index s.entries h.each f
  where
    go : (i : ℕ) (es : List EvEntry) → All IsEntry es → get_elem? es i ≡ some e → IsEntry e
    go i [] each g = cc
    go zero (x ∷ es) each g =
        let same_entry : x ≡ e = ground arith in subst IsEntry same_entry each.0
    go (suc i) (x ∷ es) each g = go i es each.1 g

answer_entry-Framed :
    (hdr : Header) (capacity : ℕ) (found : Option EvEntry)
    → ((e : EvEntry) → found ≡ some e → IsEntry e)
    → Framed hdr capacity (λ response. answer_entry hdr response found)
unfolding answer_entry
answer_entry-Framed hdr capacity none h = build_simple_response-Framed hdr capacity (ev no_such_ev)
answer_entry-Framed hdr capacity (some e) h =
    build_ev_data_response-Framed hdr capacity e (h e refl)

-- Framing of a conditional.
pub if-Framed :
    (hdr : Header) (capacity : ℕ) (b : Bool) {x y : Bytes → Handled}
    → Framed hdr capacity x
    → Framed hdr capacity y
    → Framed hdr capacity (λ response. if b then x response else y response)
if-Framed hdr capacity true p q = p
if-Framed hdr capacity false p q = q

pub handle_get_ev_by_index-Framed :
    (storage : Option EvStorage) (hdr : Header) (capacity : ℕ) (request : Bytes)
    → ValidIfAny storage
    → Framed hdr capacity (handle_get_ev_by_index storage hdr request)
unfolding handle_get_ev_by_index ev
handle_get_ev_by_index-Framed none hdr capacity request h =
    build_simple_response-Framed hdr capacity 1
handle_get_ev_by_index-Framed (some s) hdr capacity request h =
    if-Framed hdr capacity (ltb (length request) 4) (build_simple_response-Framed hdr capacity 1) (
      answer_entry-Framed hdr capacity (get_by_index (load_le 0 4 request) s)
        (λ e f. get_by_index-IsEntry (load_le 0 4 request) s e h f))

pub handle_get_ev_by_name-Framed :
    (storage : Option EvStorage) (hdr : Header) (capacity : ℕ) (request : Bytes)
    → ValidIfAny storage
    → Framed hdr capacity (handle_get_ev_by_name storage hdr request)
unfolding handle_get_ev_by_name ev
handle_get_ev_by_name-Framed none hdr capacity request h =
    if-Framed hdr capacity (ltb (length request) 32) (build_simple_response-Framed hdr capacity 2)
      (build_simple_response-Framed hdr capacity 1)
handle_get_ev_by_name-Framed (some s) hdr capacity request h =
    let name = until_nul (read_at 0 31 request) in
    if-Framed hdr capacity (ltb (length request) 32) (build_simple_response-Framed hdr capacity 2) (
      if-Framed hdr capacity (not (get_or request 31 0 == 0))
        (build_simple_response-Framed hdr capacity 3)
        (answer_entry-Framed hdr capacity (get_by_name name s)
          (λ e f. unfold get_by_name in find-IsEntry name s.entries e h.each f)))

pub handle_set_delete_ev-Framed :
    (storage : Option EvStorage) (hdr : Header) (capacity : ℕ) (request : Bytes)
    → Framed hdr capacity (λ response. (handle_set_delete_ev storage hdr request response).0)
unfolding handle_set_delete_ev ev
handle_set_delete_ev-Framed none hdr capacity request = build_simple_response-Framed hdr capacity 2
handle_set_delete_ev-Framed (some s) hdr capacity request =
    build_simple_response-Framed hdr capacity (set_delete_ev s request).0

-- The payload that `handleEvStats` sends: no error, the bytes left, the number of entries, and the
-- limit in KiB.
abbrev pub stats_body : Option EvStorage → Bytes
stats_body storage =
    le_bytes 4 0
    ++ (le_bytes 4 (remaining_of storage) ++ (le_bytes 2 (count_of storage) ++ le_bytes 2 64))

pub handle_ev_stats-Framed :
    (storage : Option EvStorage) (hdr : Header) (capacity : ℕ)
    → Framed hdr capacity (handle_ev_stats storage hdr)
unfolding handle_ev_stats
handle_ev_stats-Framed storage hdr capacity =
    Framed-at hdr capacity 20 (stats_body storage)
      (λ response. write_payload 10 (le_bytes 2 64) (
        write_payload 8 (le_bytes 2 (count_of storage)) (
          write_payload 4 (le_bytes 4 (remaining_of storage))
            (init_response (fill_n 20 response) hdr 20))))
      refl (omega arith)
      (λ response room.
        let h = response_header hdr 20 in
        let rest = drop 20 response in
        rw (
          init_filled 20 12 20 hdr response refl room,
          write_payload-append 4 (le_bytes 4 (remaining_of storage)) h (replicate 12 0 ++ rest)
              (omega arith),
          write_payload-append 8 (le_bytes 2 (count_of storage)) h
              (le_bytes 4 0 ++ (le_bytes 4 (remaining_of storage) ++ (replicate 4 0 ++ rest)))
              (omega arith),
          write_payload-append 10 (le_bytes 2 64) h
              (le_bytes 4 0
                ++ (le_bytes 4 (remaining_of storage)
                    ++ (le_bytes 2 (count_of storage) ++ (replicate 2 0 ++ rest))))
              (omega arith),
        ))
      (no_response-Framed hdr capacity)
