-- ===== src/EvStorage/Durable.antt =====
-- Changes to the store over time: what a restart finds, and what failing files do.
use ocp_canopy_open_bmc.Common.{
  ◌≡◌, refl, sym, ◌∙◌, subst, Bool, true, false, if◌then◌else◌, Bool-cases, inl, inr, Option, none,
  some, List, [], ◌∷◌, append-nil, arith, pos, Bytes, same, same_iff, NoNul,
}
use ocp_canopy_open_bmc.EvStorage.{
  EvEntry, EvStorage, temp_failed, file_bytes, load_content, load, find, get_by_name, erase_first,
  save, set, del_found, del, delete_all,
}
use ocp_canopy_open_bmc.EvStorage.Codec.{load_file-file_bytes}
use ocp_canopy_open_bmc.EvStorage.Valid.{
  IsValid, entries-save, set-IsValid, del-IsValid, delete_all-IsValid,
}
use ocp_canopy_open_bmc.EvStorage.View.{
  Distinct, fits, view, put_in, set_exact, set_accepted, find-put, put-Distinct, find-erase_first,
  value_of-none,
}

-- The calls that change the store.
pub data Change : Type 0 where
  to_set : Bytes → Bytes → Change
  to_del : Bytes → Change
  to_delete_all : Change

abbrev pub apply : Change → EvStorage → Bool × EvStorage
apply (to_set name value) s = set name value s
apply (to_del name) s = del name s
apply to_delete_all s = delete_all s

-- A change that names a C string.
abbrev pub IsNamed : Change → Type 0
IsNamed (to_set name value) = NoNul name
IsNamed _ = Unit

apply-IsValid : (c : Change) (s : EvStorage) → IsNamed c → IsValid s → IsValid (apply c s).1
apply-IsValid (to_set name value) s t h = set-IsValid name value s t h
apply-IsValid (to_del name) s t h = del-IsValid name s h
apply-IsValid to_delete_all s t h = delete_all-IsValid s

erase_first-Distinct :
    (name : Bytes) (es : List EvEntry) → Distinct es → Distinct (erase_first name es)
unfolding erase_first
erase_first-Distinct name [] d = tt
erase_first-Distinct name (e ∷ es) d = elim (Bool-cases (same e.name name)) [
  | inl hit ↦ rw hit d.1
  | inr miss ↦ rw miss (
    value_of-none _ (find-erase_first name e.name es d.1 ∙ rw d.0 (both-none (same name e.name))),
    erase_first-Distinct name es d.1,
  )
]
  where
    both-none : (b : Bool) → (if◌then◌else◌ {A = Option Bytes} b none none) ≡ none
    both-none true = refl
    both-none false = refl

set-Distinct :
    (name value : Bytes) (s : EvStorage)
    → IsValid s
    → Distinct s.entries
    → Distinct (set name value s).1.entries
set-Distinct name value s h d = elim (Bool-cases (fits name value s)) [
  | inl ok ↦
      rw (set_exact name value s h, ok, entries-save (put_in name value s))
        (put-Distinct name value s.entries d)
  | inr no_room ↦ rw (set_exact name value s h, no_room) d
]

del-Distinct : (name : Bytes) (s : EvStorage) → Distinct s.entries → Distinct (del name s).1.entries
unfolding del
del-Distinct name s d = go (find name s.entries)
  where
    go : (found : Option EvEntry) → Distinct (del_found found name s).1.entries
    go none = unfold del_found in d
    go (some _) =
        unfold del_found in
        rw (entries-save (record s { entries = erase_first name s.entries }))
          (erase_first-Distinct name s.entries d)

apply-Distinct :
    (c : Change) (s : EvStorage) → IsValid s → Distinct s.entries → Distinct (apply c s).1.entries
apply-Distinct (to_set name value) s h d = set-Distinct name value s h d
apply-Distinct (to_del name) s h d = del-Distinct name s d
apply-Distinct to_delete_all s h d =
    unfold delete_all in rw (entries-save (record s { entries = [] })) tt

abbrev pub apply_all : List Change → EvStorage → EvStorage
apply_all [] s = s
apply_all (c ∷ cs) s = apply_all cs (apply c s).1

abbrev pub AllNamed : List Change → Type 0
AllNamed [] = Unit
AllNamed (c ∷ cs) = IsNamed c × AllNamed cs

-- Along any row of changes with C strings for names, whether the files work or fail, a store within
-- its limits and with distinct names stays so.
pub apply_all-IsValid :
    (cs : List Change) (s : EvStorage)
    → AllNamed cs
    → IsValid s
    → Distinct s.entries
    → IsValid (apply_all cs s) × Distinct (apply_all cs s).entries
apply_all-IsValid [] s t h d = (h, d)
apply_all-IsValid (c ∷ cs) s t h d =
    apply_all-IsValid cs (apply c s).1 t.1 (apply-IsValid c s t.0 h) (apply-Distinct c s h d)

-- The store's file, when `save` returns true.
file-save :
    (s : EvStorage) → (save s).0 ≡ true → (save s).1.file ≡ some (file_bytes (save s).1.entries)
unfolding save
file-save s ok = ground arith

abbrev IsWritten : Bool × EvStorage → Type 0
IsWritten r = r.0 ≡ true → r.1.file ≡ some (file_bytes r.1.entries)

apply-IsWritten : (c : Change) (s : EvStorage) → IsValid s → IsWritten (apply c s)
apply-IsWritten (to_set name value) s h ok =
    subst IsWritten (sym (set_accepted name value s h ok)) (file-save (put_in name value s)) ok
apply-IsWritten (to_del name) s h ok = unfold del in go (find name s.entries) (unfold del in ok)
  where
    go : (found : Option EvEntry) → IsWritten (del_found found name s)
    go none e = unfold del_found in cc
    go (some _) e =
        unfold del_found in file-save (record s { entries = erase_first name s.entries }) e
apply-IsWritten to_delete_all s h ok = unfold delete_all in file-save (record s { entries = [] }) ok

load-written :
    (s : EvStorage) → IsValid s → s.file ≡ some (file_bytes s.entries) → load true s ≡ (pos 0, s)
unfolding load load_content
load-written s h f =
    rw (f, ← append-nil (file_bytes s.entries), load_file-file_bytes s.entries [] h)

-- On a store within its limits, a change with a C string for a name that returns true survives a
-- restart: `load` then succeeds and finds the very store that the change left.
pub apply-load :
    (c : Change) (s : EvStorage)
    → IsNamed c
    → IsValid s
    → (apply c s).0 ≡ true
    → load true (apply c s).1 ≡ (pos 0, (apply c s).1)
apply-load c s t h ok =
    load-written (apply c s).1 (apply-IsValid c s t h) (apply-IsWritten c s h ok)

same_self : (a : Bytes) → same a a ≡ true
same_self a = (same_iff a a).1 refl

save_failed :
    (s : EvStorage) → s.outcomes 0 ≡ temp_failed → ((save s).0 ≡ false) × ((save s).1.file ≡ s.file)
unfolding save
save_failed s e = rw (e, save) (refl, refl)

-- On a store within its limits, when the temporary file of `save` fails, a value within the limits is not saved: `set` returns
-- false and the file is what it was. The store has the new value all the same from then on.
pub set_unsaved :
    (name value : Bytes) (s : EvStorage)
    → IsValid s
    → fits name value s ≡ true
    → s.outcomes 0 ≡ temp_failed
    → ((set name value s).0 ≡ false)
      × ((set name value s).1.file ≡ s.file)
      × (view (set name value s).1 name ≡ some value)
set_unsaved name value s h ok e =
    let path : set name value s ≡ save (put_in name value s) =
      set_exact name value s h ∙ rw ok refl in
    let failed = save_failed (put_in name value s) e in
    rw path (
      failed.0,
      failed.1,
      unfold get_by_name in
          rw
            (entries-save (put_in name value s), find-put name value name s.entries, same_self name)
            refl,
    )
