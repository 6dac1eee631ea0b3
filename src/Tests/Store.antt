-- ===== src/Tests/Store.antt =====
-- The store of environment variables at concrete inputs.
use ocp_canopy_open_bmc.Common.{
  ◌≡◌, refl, true, false, pos, none, some, List, [], ◌∷◌, ◌++◌, arith, Bytes, NoNul, same,
  if◌then◌else◌,
}
use ocp_canopy_open_bmc.EvStorage.{
  EvEntry, EvStorage, saved, temp_failed, file_bytes, load_file, load, save, set, del, find,
  entries_size, set_found, del_found, serialized_size, assign_first,
}
use ocp_canopy_open_bmc.EvStorage.Codec.{IsStored, load_file-file_bytes}
use ocp_canopy_open_bmc.EvStorage.Valid.{IsValid, load-IsValid}
use ocp_canopy_open_bmc.EvStorage.View.{Distinct, fits, view, put_in, set_exact, view-set, view-del}
use ocp_canopy_open_bmc.EvStorage.Durable.{
  to_set, to_del, apply, apply_all, apply_all-IsValid, apply-load, set_unsaved,
}

abbrev boot : Bytes
boot = 66 ∷ 111 ∷ 111 ∷ 116 ∷ []

abbrev lang : Bytes
lang = 76 ∷ 97 ∷ 110 ∷ 103 ∷ []

abbrev entries : List EvEntry
entries = record { name = boot; value = 1 ∷ 0 ∷ [] } ∷ record { name = lang; value = [] } ∷ []

abbrev storage : EvStorage
storage = record { entries = entries; file = none; outcomes = λ n. saved }

abbrev failing : EvStorage
failing = record { entries = entries; file = none; outcomes = λ n. temp_failed }

boot-NoNul : NoNul boot
boot-NoNul = grind arith

lang-NoNul : NoNul lang
lang-NoNul = grind arith

entries-IsStored : IsStored entries
unfolding entries_size
entries-IsStored = record {
  each = (
    record { name_short = omega arith; name_text = boot-NoNul; value_small = omega arith },
    (record { name_short = omega arith; name_text = lang-NoNul; value_small = omega arith }, tt),
  );
  small = omega arith;
}

entries-Distinct : Distinct entries
unfolding find same
entries-Distinct = (refl, (refl, tt))

set_accepted_here : (set lang (7 ∷ []) storage).0 ≡ true
unfolding set find set_found serialized_size entries_size save same assign_first
set_accepted_here = refl

del_accepted_here : (del boot storage).0 ≡ true
unfolding del find del_found save same
del_accepted_here = refl

fits_here : fits lang (7 ∷ []) failing ≡ true
unfolding entries_size same
fits_here = refl

load_file-file_bytes_example : load_file (file_bytes entries ++ (3 ∷ [])) ≡ (pos 0, entries)
load_file-file_bytes_example = load_file-file_bytes entries (3 ∷ []) entries-IsStored

load-IsValid_example : IsValid (load true (record storage { file = some (69 ∷ 86 ∷ []) })).1
load-IsValid_example = load-IsValid true (record storage { file = some (69 ∷ 86 ∷ []) })

set_exact_example :
    set lang (7 ∷ []) storage
    ≡ (if fits lang (7 ∷ []) storage then save (put_in lang (7 ∷ []) storage) else (false, storage))
set_exact_example = set_exact lang (7 ∷ []) storage entries-IsStored

view-set_example :
    view (set lang (7 ∷ []) storage).1 boot
    ≡ (if same lang boot then some (7 ∷ []) else view storage boot)
view-set_example = view-set lang (7 ∷ []) boot storage entries-IsStored set_accepted_here

view-del_example :
    view (del boot storage).1 lang ≡ (if same boot lang then none else view storage lang)
view-del_example = view-del boot lang storage entries-Distinct del_accepted_here

apply_all-IsValid_example :
    IsValid (apply_all (to_set lang (7 ∷ []) ∷ to_del boot ∷ []) failing)
    × Distinct (apply_all (to_set lang (7 ∷ []) ∷ to_del boot ∷ []) failing).entries
apply_all-IsValid_example =
    apply_all-IsValid (to_set lang (7 ∷ []) ∷ to_del boot ∷ []) failing (lang-NoNul, (tt, tt))
      entries-IsStored entries-Distinct

apply-load_example :
    load true (apply (to_set lang (7 ∷ [])) storage).1
    ≡ (pos 0, (apply (to_set lang (7 ∷ [])) storage).1)
apply-load_example =
    apply-load (to_set lang (7 ∷ [])) storage lang-NoNul entries-IsStored set_accepted_here

set_unsaved_example :
    ((set lang (7 ∷ []) failing).0 ≡ false)
    × ((set lang (7 ∷ []) failing).1.file ≡ none)
    × (view (set lang (7 ∷ []) failing).1 lang ≡ some (7 ∷ []))
set_unsaved_example = set_unsaved lang (7 ∷ []) failing entries-IsStored fits_here refl
