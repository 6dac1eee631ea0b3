-- ===== src/EvStorage.antt =====
-- src/ev_storage.cpp: the store of BIOS environment variables, a list of named values that is
-- written to a file after each change.
--
-- A `std::string` is its bytes. The file system is the content of the store's file and a stream of
-- answers, one for each call of `save`. The directory is taken to exist (`load` creates it), and
-- sums of sizes to fit `size_t`, which the limits below see to.
pub mod Codec
pub mod Valid
pub mod View
pub mod Durable
use ocp_canopy_open_bmc.Common.{
  ℕ, zero, suc, ◌+◌, ◌-◌, ◌%◌, ◌^◌, ◌≤◌, Bool, true, false, not, ◌&&◌, ◌||◌, ◌==◌, ltb, leb,
  if◌then◌else◌, Option, none, some, List, [], ◌∷◌, ◌++◌, ℤ, pos, negsuc, Bytes, length, get_elem?,
  take, drop, replicate, le_bytes, le_value, same, until_nul,
}

abbrev pub max_ev_file_size : ℕ
max_ev_file_size = 65536

abbrev pub max_ev_name_len : ℕ
max_ev_name_len = 32

abbrev pub max_ev_data_size : ℕ
max_ev_data_size = 3966

abbrev pub ev_file_magic : ℕ
ev_file_magic = 0x31535645

abbrev pub entry_overhead : ℕ
entry_overhead = max_ev_name_len + 2

abbrev pub header_size : ℕ
header_size = 8

-- `EvEntry`; `value` is the source's `data`.
pub record EvEntry : Type 0 where
  pub name : Bytes
  pub value : Bytes

-- How the file operations of one call of `save` end. A failure of the temporary file does not touch
-- the store's file; a failed copy leaves something there.
pub data SaveOutcome : Type 0 where
  saved temp_failed : SaveOutcome
  copy_failed : Option Bytes → SaveOutcome

-- `EvStorage`, with the content of its file.
pub record EvStorage : Type 0 where
  pub entries : List EvEntry
  pub file : Option Bytes
  pub outcomes : ℕ → SaveOutcome

-- The name field of an entry: `strncpy` of at most 31 characters into 32 zero bytes.
unfoldable pub name_field : Bytes → Bytes
name_field name =
    let copied = take (max_ev_name_len - 1) (until_nul name) in
    copied ++ replicate (max_ev_name_len - length copied) 0

unfoldable pub entry_bytes : EvEntry → Bytes
entry_bytes e =
    let data_len = length e.value % 2 ^ 16 in
    name_field e.name ++ (le_bytes 2 data_len ++ take data_len e.value)

unfoldable pub entries_bytes : List EvEntry → Bytes
entries_bytes [] = []
entries_bytes (e ∷ es) = entry_bytes e ++ entries_bytes es

-- What `save` writes out.
unfoldable pub file_bytes : List EvEntry → Bytes
file_bytes es = le_bytes 4 ev_file_magic ++ (le_bytes 4 (length es % 2 ^ 32) ++ entries_bytes es)

-- `save`
unfoldable pub save : EvStorage → Bool × EvStorage
save s =
    let later : EvStorage = record s { outcomes = λ n. s.outcomes (suc n) } in
    elim (s.outcomes 0) [
      | saved ↦ (true, record later { file = some (file_bytes s.entries) })
      | temp_failed ↦ (false, later)
      | copy_failed left ↦ (false, record later { file = left })
    ]

-- An input stream: what is left of the file, and `good()`.
pub record Stream : Type 0 where
  pub rest : Bytes
  pub good : Bool

-- `file.read` of `n` bytes into a zeroed buffer. A short read stores what there is.
unfoldable pub read : ℕ → Stream → Bytes × Stream
read n s =
    if s.good
    then (
      take n s.rest ++ replicate (n - length s.rest) 0,
      record { rest = drop n s.rest; good = leb n (length s.rest) },
    )
    else (replicate n 0, s)

-- The loop of `load`, with `n` rounds left, behind `total` bytes of accepted entries.
unfoldable pub load_loop : ℕ → Stream → ℕ → List EvEntry → List EvEntry
load_loop zero s total entries = entries
load_loop (suc n) s total entries =
    let (name_buf, s₁) = read max_ev_name_len s in
    let (len_buf, s₂) = read 2 s₁ in
    let data_len = le_value len_buf in
    let refused =
      ltb max_ev_data_size data_len
      || (ltb max_ev_file_size (total + entry_overhead + data_len) || not s₂.good) in
    let (value, s₃) = (if ltb 0 data_len then read data_len s₂ else ([], s₂)) in
    let entry : EvEntry = record {
      name = until_nul (take (max_ev_name_len - 1) name_buf);
      value = value;
    } in
    let more = load_loop n s₃ (total + (entry_overhead + data_len)) (entries ++ (entry ∷ [])) in
    if s.good then (if refused then entries else if s₃.good then more else entries) else entries

-- `load` of a file that opens: its result, and the entries.
unfoldable pub load_file : Bytes → ℤ × List EvEntry
load_file content =
    let (magic_buf, s₁) = read 4 (record { rest = content; good = true }) in
    let (count_buf, s₂) = read 4 s₁ in
    if not (le_value magic_buf == ev_file_magic)
    then (negsuc 0, [])
    else if ltb 10000 (le_value count_buf)
    then (negsuc 0, [])
    else (pos 0, load_loop (le_value count_buf) s₂ header_size [])

-- What `load` makes of the file; the flag says whether a file that is there can be opened.
unfoldable pub load_content : Bool → Option Bytes → ℤ × List EvEntry
load_content opens none = (pos 0, [])
load_content opens (some content) = if opens then load_file content else (negsuc 0, [])

-- `load`
unfoldable pub load : Bool → EvStorage → ℤ × EvStorage
load opens s = let (result, es) = load_content opens s.file in (result, record s { entries = es })

-- `getByIndex`
unfoldable pub get_by_index : ℕ → EvStorage → Option EvEntry
get_by_index index s = get_elem? s.entries index

-- `std::find_if` by name.
unfoldable pub find : Bytes → List EvEntry → Option EvEntry
find name [] = none
find name (e ∷ es) = if same e.name name then some e else find name es

-- `getByName`
unfoldable pub get_by_name : Bytes → EvStorage → Option EvEntry
get_by_name name s = find name s.entries

-- `serializedSize`
unfoldable pub entries_size : List EvEntry → ℕ
entries_size [] = 0
entries_size (e ∷ es) = entry_overhead + length e.value + entries_size es

unfoldable pub serialized_size : EvStorage → ℕ
serialized_size s = header_size + entries_size s.entries

-- The value of the first entry of that name is replaced.
unfoldable pub assign_first : Bytes → Bytes → List EvEntry → List EvEntry
assign_first name value [] = []
assign_first name value (e ∷ es) =
    if same e.name name then record e { value = value } ∷ es else e ∷ assign_first name value es

-- The first entry of that name is erased.
unfoldable pub erase_first : Bytes → List EvEntry → List EvEntry
erase_first name [] = []
erase_first name (e ∷ es) = if same e.name name then es else e ∷ erase_first name es

abbrev with_entries : EvStorage → List EvEntry → EvStorage
with_entries s es = record s { entries = es }

-- The part of `set` behind `find_if`: an entry of that name, or none, was found.
unfoldable pub set_found : Option EvEntry → Bytes → Bytes → EvStorage → Bool × EvStorage
set_found (some e) name value s =
    if ltb (length e.value) (length value)
      && ltb max_ev_file_size (serialized_size s + (length value - length e.value))
    then (false, s)
    else save (with_entries s (assign_first name value s.entries))
set_found none name value s =
    if ltb max_ev_file_size (serialized_size s + (entry_overhead + length value))
    then (false, s)
    else save (with_entries s (s.entries ++ (record { name = name; value = value } ∷ [])))

-- `set`
unfoldable pub set : Bytes → Bytes → EvStorage → Bool × EvStorage
set name value s =
    if length name == 0 || leb max_ev_name_len (length name)
    then (false, s)
    else if ltb max_ev_data_size (length value)
    then (false, s)
    else set_found (find name s.entries) name value s

-- The part of `del` behind `find_if`.
unfoldable pub del_found : Option EvEntry → Bytes → EvStorage → Bool × EvStorage
del_found none name s = (false, s)
del_found (some e) name s = save (with_entries s (erase_first name s.entries))

-- `del`
unfoldable pub del : Bytes → EvStorage → Bool × EvStorage
del name s = del_found (find name s.entries) name s

-- `deleteAll`
unfoldable pub delete_all : EvStorage → Bool × EvStorage
delete_all s = save (with_entries s [])

-- `count`
unfoldable pub count : EvStorage → ℕ
count s = length s.entries % 2 ^ 32

-- `remainingSize`
unfoldable pub remaining_size : EvStorage → ℕ
remaining_size s =
    let used = serialized_size s in if ltb used max_ev_file_size then max_ev_file_size - used else 0
