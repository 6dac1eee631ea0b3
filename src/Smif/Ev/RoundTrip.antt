-- ===== src/Smif/Ev/RoundTrip.antt =====
-- A variable that is set by one command and read back by the next.
use ocp_canopy_open_bmc.Common.{
  ℕ, zero, suc, ◌+◌, ◌-◌, ◌≤◌, ◌<◌, ◌≡◌, refl, ap, sym, ◌∙◌, inl, inr, true, false, ltb, le→ltb,
  ◌==◌, Option, none, some, [], ◌∷◌, ◌++◌, append_assoc, append-nil, arith, Bytes, NoNul, same_iff,
  Option-cases, get_or, length, length-append, length-replicate, take, replicate, replicate-add,
  le_bytes, load_le, load_le-append, read_at, read_at-append, until_nul,
}
use ocp_canopy_open_bmc.Packet.{Header}
use ocp_canopy_open_bmc.EvStorage.{EvEntry, EvStorage, name_field, set, get_by_name}
use ocp_canopy_open_bmc.EvStorage.Codec.{name_field-eq, length-name_field}
use ocp_canopy_open_bmc.EvStorage.Valid.{IsValid}
use ocp_canopy_open_bmc.EvStorage.View.{view, view-set}
use ocp_canopy_open_bmc.Smif.Response.{name_too_long, build_ev_data_response}
use ocp_canopy_open_bmc.Smif.Ev.{
  code_of, set_ev, set_delete_ev, answer_entry, handle_get_ev_by_name,
}

-- The payload of a command that sets a variable, and of one that reads it.
abbrev pub set_request : Bytes → Bytes → Bytes
set_request name value =
    (1 ∷ 0 ∷ 0 ∷ 0 ∷ []) ++ (name_field name ++ (le_bytes 2 (length value) ++ value))

-- A name that the store can hold.
pub record IsName (name : Bytes) : Type 0 where
  pub text : NoNul name
  pub short : length name ≤ 31

cut_text :
    (name : Bytes) (n : ℕ) (rest : Bytes)
    → NoNul name
    → length name ≤ n
    → until_nul (take n (name ++ (0 ∷ rest))) ≡ name
cut_text [] zero rest t h = refl
cut_text [] (suc n) rest t h = refl
cut_text (b ∷ name) zero rest t h = absurd (omega arith)
cut_text (b ∷ name) (suc n) rest t h = ground (arith, cut_text name n rest t.1)

name_field-text :
    (name rest : Bytes) → IsName name → until_nul (take 31 (name_field name ++ rest)) ≡ name
name_field-text name rest is_name =
    let one : replicate {A = ℕ} (32 - length name) 0 ≡ 0 ∷ replicate (31 - length name) 0 =
      ap (λ j. replicate j 0) {x = 32 - length name} {y = suc (31 - length name)}
        (omega (arith, is_name.short)) in
    rw (name_field-eq name is_name.text is_name.short, one, append_assoc)
      (cut_text name 31 (replicate (31 - length name) 0 ++ rest) is_name.text is_name.short)

get_or-last : (xs : Bytes) (i x : ℕ) → length xs ≡ i → get_or (xs ++ (x ∷ [])) i 0 ≡ x
get_or-last [] zero x h = refl
get_or-last [] (suc i) x h = absurd (omega arith)
get_or-last (y ∷ xs) zero x h = absurd (omega arith)
get_or-last (y ∷ xs) (suc i) x h = get_or-last xs i x (omega arith)

name_field-ends : (name : Bytes) → IsName name → get_or (name_field name) 31 0 ≡ 0
name_field-ends name is_name =
    let short = is_name.short in
    let zeros : Bytes = replicate (31 - length name) 0 in
    let split : replicate (32 - length name) 0 ≡ zeros ++ (0 ∷ []) =
      replicate-add (31 - length name) 1 (32 - length name) 0 (omega (arith, short)) in
    rw (name_field-eq name is_name.text short, split)
      (ap (λ bs. get_or bs 31 0) (sym (append_assoc name zeros (0 ∷ [])))
        ∙ get_or-last (name ++ zeros) 31 0 (
            omega (
              arith,
              short,
              length-append name zeros,
              length-replicate {A = ℕ} (31 - length name) 0,
            )))

nonzero : (n : ℕ) → 0 < n → (n == 0) ≡ false
nonzero n h = ground arith

set_ev-decoded :
    (request name value : Bytes) (s : EvStorage)
    → until_nul (read_at 4 31 request) ≡ name
    → load_le 36 2 request ≡ length value
    → read_at 38 (length value) request ≡ value
    → length request ≡ 38 + length value
    → 0 < length value
    → length value ≤ 3966
    → set_ev s request ≡ (code_of (set name value s).0 name_too_long, (set name value s).1)
unfolding set_ev
set_ev-decoded request name value s n l v size some_byte small =
    let holds_sizes : ltb (length request) 38 ≡ false = le→ltb _ 38 (omega (arith, size)) in
    let holds_data : ltb (length request) (38 + length value) ≡ false =
      le→ltb _ _ (omega (arith, size)) in
    let fits : ltb 3966 (length value) ≡ false = le→ltb 3966 (length value) small in
    let present : (length value == 0) ≡ false = nonzero (length value) some_byte in
    rw (n, l, v, holds_sizes, fits, present, holds_data)

length-set_request :
    (name value : Bytes) → IsName name → length (set_request name value) ≡ 38 + length value
length-set_request name value is_name = omega (
  arith,
  length-append (name_field name) (le_bytes 2 (length value) ++ value),
  length-name_field name is_name.text is_name.short,
)

-- A command to set a variable, whose name has at most 31 characters and whose value has 1 to 3966
-- bytes, calls `set` with that name and value.
pub set_delete_ev-set_request :
    (name value : Bytes) (s : EvStorage)
    → IsName name
    → 0 < length value
    → length value ≤ 3966
    → set_delete_ev s (set_request name value)
      ≡ (code_of (set name value s).0 name_too_long, (set name value s).1)
unfolding set_delete_ev
set_delete_ev-set_request name value s is_name some_byte small =
    let request : Bytes = set_request name value in
    let field : Bytes = name_field name in
    let size = length-set_request name value is_name in
    let field_size = length-name_field name is_name.text is_name.short in
    let prefix : Bytes = 1 ∷ 0 ∷ 0 ∷ 0 ∷ field in
    let whole : ltb (length request) 4 ≡ false = le→ltb _ 4 (omega (arith, size)) in
    let content : read_at 38 (length value) request ≡ value =
      let front : Bytes = prefix ++ le_bytes 2 (length value) in
      ap (read_at 38 (length value)) (
        sym (append_assoc prefix (le_bytes 2 (length value)) value)
        ∙ ap (λ (bs : Bytes). front ++ bs) (sym (append-nil value)))
      ∙ read_at-append 38 (length value) front value []
          (omega (arith, field_size, length-append prefix (le_bytes 2 (length value)))) refl in
    let called =
      set_ev-decoded request name value s
        (name_field-text name (le_bytes 2 (length value) ++ value) is_name)
        (load_le-append 36 2 (length value) prefix value (omega (arith, field_size))
          (omega (arith, small)))
        content size some_byte small in
    rw whole called

-- A command to read a variable by its name looks that name up.
pub handle_get_ev_by_name-name_field :
    (name : Bytes) (s : EvStorage) (hdr : Header) (response : Bytes)
    → IsName name
    → handle_get_ev_by_name (some s) hdr (name_field name) response
      ≡ answer_entry hdr response (get_by_name name s)
unfolding handle_get_ev_by_name
handle_get_ev_by_name-name_field name s hdr response is_name =
    let whole : ltb (length (name_field name)) 32 ≡ false =
      le→ltb _ 32 (omega (arith, length-name_field name is_name.text is_name.short)) in
    let decoded : until_nul (take 31 (name_field name)) ≡ name =
      ap (λ bs. until_nul (take 31 bs)) (sym (append-nil (name_field name)))
      ∙ name_field-text name [] is_name in
    rw (whole, name_field-ends name is_name, decoded)

pub view-entry :
    (name value : Bytes) (s : EvStorage)
    → view s name ≡ some value
    → (e : EvEntry) × (get_by_name name s ≡ some e) × (e.value ≡ value)
view-entry name value s seen = elim (Option-cases (get_by_name name s)) [
  | inl missing ↦ cc (rw missing at seen)
  | inr (e, found) ↦
      (e, found, ap (λ (o : Option Bytes). elim o [ none ↦ [] | some x ↦ x ]) (rw found at seen))
]

-- On a store within its limits: if `set` accepts a name of at most 31 characters and a value of 1
-- to 3966 bytes, then a command that sets them, followed by one that reads that name, is answered
-- with the data response of an entry that has that value.
set_then_get :
    (name value : Bytes) (s : EvStorage) (hdr : Header) (response : Bytes)
    → IsName name
    → 0 < length value
    → length value ≤ 3966
    → IsValid s
    → (set name value s).0 ≡ true
    → (e : EvEntry) × (e.value ≡ value)
      × (handle_get_ev_by_name
            (some (set_delete_ev s (set_request name value)).1)
            hdr
            (name_field name)
            response
          ≡ build_ev_data_response hdr response e)
unfolding answer_entry
set_then_get name value s hdr response is_name some_byte small valid accepted =
    let after : EvStorage = (set name value s).1 in
    let stored : view after name ≡ some value =
      view-set name value name s valid accepted ∙ rw ((same_iff name name).1 refl) refl in
    let (e, found, same_value) = view-entry name value after stored in
    (
      e,
      same_value,
      ap
            (λ (out : ℕ × EvStorage).
              handle_get_ev_by_name (some out.1) hdr (name_field name) response)
            (set_delete_ev-set_request name value s is_name some_byte small)
          ∙ (handle_get_ev_by_name-name_field name after hdr response is_name
              ∙ ap (answer_entry hdr response) found),
    )
