-- ===== src/EvStorage/Valid.antt =====
-- The limits of the store, across its operations and the loading of a file.
pub mod Loads
use ocp_canopy_open_bmc.Common.{
  ℕ, zero, suc, ◌+◌, ◌-◌, ◌≤◌, ◌≡◌, refl, Bool, true, false, not, ◌||◌, ltb, leb, ◌==◌, ℤ, same,
  ltb→le, if◌then◌else◌, if-intro, Bool-cases, inl, inr, Option, none, some, List, [], ◌∷◌, ◌++◌,
  arith, Bytes, length, length-append, length-take, length-replicate, take, replicate, All,
  All-append, le_value, until_nul, NoNul, until_nul-NoNul, length-until_nul,
}
use ocp_canopy_open_bmc.EvStorage.{
  EvEntry, EvStorage, Stream, read, load_loop, load_file, load, find, assign_first, erase_first,
  entries_size, serialized_size, save, set_found, set, del_found, del, delete_all, load_content,
  ev_file_magic, max_ev_data_size, max_ev_file_size,
}
use ocp_canopy_open_bmc.EvStorage.Codec.{IsEntry, IsStored, IsStored-concat, entries_size-concat}
use ocp_canopy_open_bmc.EvStorage.Valid.Loads.{load_file-IsStored}

-- A store within its limits.
abbrev pub IsValid : EvStorage → Type 0
IsValid s = IsStored s.entries

-- Whatever the file holds, the entries that `load` takes from it are within the limits.
pub load-IsValid : (opens : Bool) (s : EvStorage) → IsValid (load opens s).1
unfolding load
load-IsValid opens s = go opens s.file
  where
    go : (b : Bool) (file : Option Bytes) → IsStored (load_content b file).1
    go b none = unfold load_content entries_size in record { each = tt; small = omega arith }
    go true (some content) = unfold load_content in load_file-IsStored content
    go false (some content) =
        unfold load_content entries_size in record { each = tt; small = omega arith }

pub entries-save : (s : EvStorage) → (save s).1.entries ≡ s.entries
unfolding save
entries-save s = ground arith

pub find-IsEntry :
    (name : Bytes) (es : List EvEntry) (e : EvEntry)
    → All IsEntry es
    → find name es ≡ some e
    → IsEntry e
unfolding find
find-IsEntry name [] e each f = cc
find-IsEntry name (x ∷ es) e each f = ground (arith, find-IsEntry name es e each.1)

pub entries_size-assign_first :
    (name value : Bytes) (es : List EvEntry) (e : EvEntry)
    → find name es ≡ some e
    → entries_size (assign_first name value es) + length e.value ≡ entries_size es + length value
unfolding find assign_first entries_size
entries_size-assign_first name value [] e f = cc
entries_size-assign_first name value (x ∷ es) e f =
    ground (arith, entries_size-assign_first name value es e)

assign_first-IsEntry :
    (name value : Bytes) (es : List EvEntry)
    → length value ≤ max_ev_data_size
    → All IsEntry es
    → All IsEntry (assign_first name value es)
unfolding assign_first
assign_first-IsEntry name value [] v each = tt
assign_first-IsEntry name value (x ∷ es) v each =
    if-intro (All IsEntry) (same x.name name)
      (λ _. (
        record { name_short = each.0.name_short; name_text = each.0.name_text; value_small = v },
        each.1,
      ))
      (λ _. (each.0, assign_first-IsEntry name value es v each.1))

erase_first-IsEntry :
    (name : Bytes) (es : List EvEntry) → All IsEntry es → All IsEntry (erase_first name es)
unfolding erase_first
erase_first-IsEntry name [] each = tt
erase_first-IsEntry name (x ∷ es) each =
    if-intro (All IsEntry) (same x.name name) (λ _. each.1)
      (λ _. (each.0, erase_first-IsEntry name es each.1))

entries_size-erase_first :
    (name : Bytes) (es : List EvEntry) → entries_size (erase_first name es) ≤ entries_size es
unfolding erase_first entries_size
entries_size-erase_first name [] = omega arith
entries_size-erase_first name (x ∷ es) = ground (arith, entries_size-erase_first name es)

-- A saved store has the entries that were put in it.
save-IsValid :
    (s : EvStorage) (es : List EvEntry) → IsStored es → IsValid (save (record s { entries = es })).1
save-IsValid s es h = rw (entries-save (record s { entries = es })) h

abbrev ValidResult : Bool × EvStorage → Type 0
ValidResult r = IsValid r.1

set_found-IsValid :
    (found : Option EvEntry) (name value : Bytes) (s : EvStorage)
    → find name s.entries ≡ found
    → IsEntry (record { name = name; value = value })
    → IsValid s
    → IsValid (set_found found name value s).1
unfolding set_found serialized_size
set_found-IsValid (some e) name value s f new h =
    let old = find-IsEntry name s.entries e h.each f in
    let size = entries_size-assign_first name value s.entries e f in
    if-intro ValidResult _ (λ _. h)
      (λ fits. save-IsValid s _ (record {
        each = assign_first-IsEntry name value s.entries new.value_small h.each;
        small = ground (arith, size, h.small, fits);
      }))
set_found-IsValid none name value s f new h =
    if-intro ValidResult _ (λ _. h)
      (λ fits. save-IsValid s _ (
        IsStored-concat s.entries (record { name = name; value = value }) h.each new
          (omega (arith, ltb→le _ _ fits))))

-- The limits hold after every call of `set` with a C string, whatever it returns.
pub set-IsValid :
    (name value : Bytes) (s : EvStorage) → NoNul name → IsValid s → IsValid (set name value s).1
unfolding set
set-IsValid name value s t h =
    if-intro ValidResult (length name == 0 || leb 32 (length name)) (λ _. h)
      (λ n.
        if-intro ValidResult (ltb max_ev_data_size (length value)) (λ _. h)
          (λ v.
            set_found-IsValid (find name s.entries) name value s refl
              (record {
                name_short = short_name (length name) n;
                name_text = t;
                value_small = ltb→le _ _ v;
              })
              h))
  where
    short_name : (n : ℕ) → (n == 0 || leb 32 n) ≡ false → n ≤ 31
    short_name n e = ground arith

-- The limits hold after every call of `del`.
pub del-IsValid : (name : Bytes) (s : EvStorage) → IsValid s → IsValid (del name s).1
unfolding del
del-IsValid name s h = go (find name s.entries)
  where
    go : (found : Option EvEntry) → IsValid (del_found found name s).1
    go none = unfold del_found in h
    go (some e) =
        unfold del_found in
        save-IsValid s _ (record {
          each = erase_first-IsEntry name s.entries h.each;
          small = omega (arith, h.small, entries_size-erase_first name s.entries);
        })

pub delete_all-IsValid : (s : EvStorage) → IsValid (delete_all s).1
unfolding delete_all entries_size
delete_all-IsValid s = save-IsValid s [] (record { each = tt; small = omega arith })
