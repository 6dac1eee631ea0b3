-- ===== src/EvStorage/View.antt =====
-- The store as a map from names to values.
use ocp_canopy_open_bmc.Common.{
  ℕ, ◌+◌, ◌-◌, ◌≤◌, ◌≡◌, refl, ap, ◌∙◌, Bool, true, false, ◌||◌, ◌&&◌, ltb, leb, ◌==◌,
  if◌then◌else◌, Bool-cases, inl, inr, Option, none, some, List, [], ◌∷◌, ◌++◌, arith, Bytes,
  length, same, same_iff,
}
use ocp_canopy_open_bmc.EvStorage.{
  EvEntry, EvStorage, find, get_by_name, assign_first, erase_first, entries_size, serialized_size,
  save, set_found, set, del_found, del,
}
use ocp_canopy_open_bmc.EvStorage.Codec.{entries_size-concat}
use ocp_canopy_open_bmc.EvStorage.Valid.{IsValid, entries-save, entries_size-assign_first}

abbrev pub value_of : Option EvEntry → Option Bytes
value_of none = none
value_of (some e) = some e.value

-- The value that the store has for a name.
abbrev pub view : EvStorage → Bytes → Option Bytes
view s name = value_of (get_by_name name s)

-- A list of entries with this value for this name: in the place of the first entry of the name, or
-- behind all others.
abbrev pub put : Bytes → Bytes → List EvEntry → List EvEntry
put name value [] = record { name = name; value = value } ∷ []
put name value (e ∷ es) =
    if same e.name name then record e { value = value } ∷ es else e ∷ put name value es

-- The limits on a name, on a value and on the whole store with the value in it.
abbrev pub fits : Bytes → Bytes → EvStorage → Bool
fits name value s =
    (ltb 0 (length name) && leb (length name) 31)
    && (leb (length value) 3966 && leb (8 + entries_size (put name value s.entries)) 65536)

put-none :
    (name value : Bytes) (es : List EvEntry)
    → find name es ≡ none
    → put name value es ≡ es ++ (record { name = name; value = value } ∷ [])
unfolding find
put-none name value [] f = refl
put-none name value (e ∷ es) f = ground (arith, put-none name value es)

put-some :
    (name value : Bytes) (es : List EvEntry) (e : EvEntry)
    → find name es ≡ some e
    → put name value es ≡ assign_first name value es
unfolding find assign_first
put-some name value [] e f = cc
put-some name value (x ∷ es) e f = ground (arith, put-some name value es e)

abbrev pub put_in : Bytes → Bytes → EvStorage → EvStorage
put_in name value s = record s { entries = put name value s.entries }

swap_branches {ℓ} :
    {A : Type ℓ} (a b : ℕ) (x y : A) → (if ltb b a then x else y) ≡ (if leb a b then y else x)
swap_branches a b x y = elim (Bool-cases (leb a b)) [
  | inl le ↦ rw (le, not_lt le)
  | inr gt ↦ rw (gt, lt gt)
]
  where
    not_lt : leb a b ≡ true → ltb b a ≡ false
    not_lt h = ground arith

    lt : leb a b ≡ false → ltb b a ≡ true
    lt h = ground arith

growth_test :
    (old new size total : ℕ)
    → total + old ≡ size + new
    → size ≤ 65536
    → (ltb old new && ltb 65536 (size + (new - old))) ≡ ltb 65536 total
growth_test old new size total e h = ground arith

set_found-put :
    (found : Option EvEntry) (name value : Bytes) (s : EvStorage)
    → find name s.entries ≡ found
    → IsValid s
    → set_found found name value s ≡ (
        if leb (8 + entries_size (put name value s.entries)) 65536
        then save (put_in name value s)
        else (false, s))
unfolding set_found serialized_size
set_found-put none name value s f h =
    let e = put-none name value s.entries f in
    let size : 8 + entries_size s.entries + (34 + length value)
        ≡ 8 + entries_size (put name value s.entries) =
      omega (
        arith,
        ap entries_size e ∙ entries_size-concat s.entries (record { name = name; value = value }),
      ) in
    rw (size, ← e) (swap_branches _ 65536 (false, s) (save (put_in name value s)))
set_found-put (some e) name value s f h =
    let size = entries_size-assign_first name value s.entries e f in
    let p = put-some name value s.entries e f in
    rw
      (
        growth_test (length e.value) (length value) (8 + entries_size s.entries)
            (8 + entries_size (assign_first name value s.entries)) (omega (arith, size)) h.small,
        ← p,
      )
      (swap_branches _ 65536 (false, s) (save (put_in name value s)))

-- On a store within its limits, `set` writes out the store with the value in it exactly when the
-- name has 1 to 31 bytes, the value at most 3966, and the new store fits the file. Otherwise it
-- returns false and changes nothing.
pub set_exact :
    (name value : Bytes) (s : EvStorage)
    → IsValid s
    → set name value s ≡ (if fits name value s then save (put_in name value s) else (false, s))
unfolding set
set_exact name value s h = rw (set_found-put (find name s.entries) name value s refl h) (
    same_limits (length name) (length value)
      (leb (8 + entries_size (put name value s.entries)) 65536) _ _)
  where
    same_limits :
        (n v : ℕ) (small : Bool) (x y : Bool × EvStorage)
        → (if n == 0 || leb 32 n then y else if ltb 3966 v then y else if small then x else y)
          ≡ (if (ltb 0 n && leb n 31) && (leb v 3966 && small) then x else y)
    same_limits n v small x y = ground arith

pub find-name :
    (name : Bytes) (es : List EvEntry) (e : EvEntry) → find name es ≡ some e → e.name ≡ name
unfolding find
find-name name [] e f = cc
find-name name (x ∷ es) e f = ground (arith, same_iff x.name name, find-name name es e)

pub find-put :
    (name value other : Bytes) (es : List EvEntry)
    → value_of (find other (put name value es))
      ≡ (if same name other then some value else value_of (find other es))
unfolding find
find-put name value other [] = ground arith
find-put name value other (e ∷ es) = ground (
  arith,
  same_iff e.name name,
  same_iff e.name other,
  same_iff name other,
  find-put name value other es,
)

-- A call of `set` that returns true is a write of the store with the value in it.
pub set_accepted :
    (name value : Bytes) (s : EvStorage)
    → IsValid s
    → (set name value s).0 ≡ true
    → set name value s ≡ save (put_in name value s)
set_accepted name value s h ok = elim (Bool-cases (fits name value s)) [
  | inl yes_fits ↦ set_exact name value s h ∙ rw yes_fits refl
  | inr no_fits ↦
      let refused : set name value s ≡ (false, s) = set_exact name value s h ∙ rw no_fits refl in
      cc refused
]

-- On a store within its limits, a call of `set` that returns true gives the name the new value,
-- and leaves every other name its own.
pub view-set :
    (name value other : Bytes) (s : EvStorage)
    → IsValid s
    → (set name value s).0 ≡ true
    → view (set name value s).1 other ≡ (if same name other then some value else view s other)
unfolding get_by_name
view-set name value other s h ok =
    ap (λ (es : List EvEntry). value_of (find other es))
      (ap (λ (r : Bool × EvStorage). r.1.entries) (set_accepted name value s h ok)
        ∙ entries-save (put_in name value s))
    ∙ find-put name value other s.entries

-- No two entries have the same name.
abbrev pub Distinct : List EvEntry → Type 0
Distinct [] = Unit
Distinct (e ∷ es) = (find e.name es ≡ none) × Distinct es

pub find-erase_first :
    (name other : Bytes) (es : List EvEntry)
    → Distinct es
    → value_of (find other (erase_first name es))
      ≡ (if same name other then none else value_of (find other es))
unfolding find erase_first
find-erase_first name other [] d = ground arith
find-erase_first name other (e ∷ es) d = ground (
  arith,
  same_iff e.name name,
  same_iff e.name other,
  same_iff name other,
  find-erase_first name other es d.1,
)

-- On entries with distinct names, a call of `del` that returns true leaves the name without a
-- value, and every other name with the one that it had.
pub view-del :
    (name other : Bytes) (s : EvStorage)
    → Distinct s.entries
    → (del name s).0 ≡ true
    → view (del name s).1 other ≡ (if same name other then none else view s other)
unfolding get_by_name del
view-del name other s d ok =
    ap (λ (es : List EvEntry). value_of (find other es)) (go (find name s.entries) ok)
    ∙ find-erase_first name other s.entries d
  where
    go :
        (found : Option EvEntry)
        → (del_found found name s).0 ≡ true
        → (del_found found name s).1.entries ≡ erase_first name s.entries
    go none e = unfold del_found in cc
    go (some _) e =
        unfold del_found in entries-save (record s { entries = erase_first name s.entries })

pub value_of-none : (found : Option EvEntry) → value_of found ≡ none → found ≡ none
value_of-none none h = refl
value_of-none (some e) h = cc

pub put-Distinct :
    (name value : Bytes) (es : List EvEntry) → Distinct es → Distinct (put name value es)
unfolding find
put-Distinct name value [] d = (refl, tt)
put-Distinct name value (e ∷ es) d = elim (Bool-cases (same e.name name)) [
  | inl hit ↦ rw hit d
  | inr miss ↦ rw miss (
    value_of-none _
        (unfold find in find-put name value e.name es ∙ rw (same_flip e.name name miss, d.0)),
    put-Distinct name value es d.1,
  )
]
  where
    same_flip : (a b : Bytes) → same a b ≡ false → same b a ≡ false
    same_flip a b h = ground (arith, same_iff a b, same_iff b a)
