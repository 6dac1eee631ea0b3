-- ===== src/EvStorage/Codec.antt =====
-- The file format: loading what was saved.
use ocp_canopy_open_bmc.Common.{
  ℕ, zero, suc, ◌+◌, ◌-◌, ◌*◌, ◌%◌, ◌^◌, ◌≤◌, ◌≡◌, refl, sym, ap, ◌∙◌, true, ltb, leb,
  if◌then◌else◌, List, [], ◌∷◌, ◌++◌, append-nil, append_assoc, arith, pos, Bytes, length,
  length-append, length-replicate, take, take-append, take-all, drop-append, replicate, All,
  le_bytes, le_value-le_bytes, until_nul, NoNul, until_nul-NoNul_self, le→ltb, All-append,
}
use ocp_canopy_open_bmc.EvStorage.{
  EvEntry, Stream, name_field, entry_bytes, entries_bytes, file_bytes, read, load_loop, load_file,
  entries_size, max_ev_data_size, max_ev_file_size, ev_file_magic,
}

-- An entry that the format can carry.
pub record IsEntry (e : EvEntry) : Type 0 where
  pub name_short : length e.name ≤ 31
  pub name_text : NoNul e.name
  pub value_small : length e.value ≤ max_ev_data_size

-- A list of entries within the limit of the file.
pub record IsStored (es : List EvEntry) : Type 0 where
  pub each : All IsEntry es
  pub small : 8 + entries_size es ≤ max_ev_file_size

entries_size-append :
    (es fs : List EvEntry) → entries_size (es ++ fs) ≡ entries_size es + entries_size fs
unfolding entries_size
entries_size-append [] fs = omega arith
entries_size-append (e ∷ es) fs = omega (arith, entries_size-append es fs)

pub IsStored-concat :
    (es : List EvEntry) (e : EvEntry)
    → All IsEntry es
    → IsEntry e
    → 8 + entries_size es + (34 + length e.value) ≤ max_ev_file_size
    → IsStored (es ++ (e ∷ []))
unfolding entries_size
IsStored-concat es e each h fits = record {
  each = All-append IsEntry es (e ∷ []) each (h, tt);
  small = omega (arith, entries_size-append es (e ∷ []));
}

pub entries_size-concat :
    (es : List EvEntry) (e : EvEntry)
    → entries_size (es ++ (e ∷ [])) ≡ entries_size es + (34 + length e.value)
unfolding entries_size
entries_size-concat es e = omega (arith, entries_size-append es (e ∷ []))

abbrev stream : Bytes → Stream
stream bs = record { rest = bs; good = true }

read-append : (n : ℕ) (x r : Bytes) → length x ≡ n → read n (stream (x ++ r)) ≡ (x, stream r)
unfolding read
read-append n x r h =
    let pad : n - length (x ++ r) ≡ 0 = omega (arith, length-append x r) in
    let full : leb n (length (x ++ r)) ≡ true = ground (arith, length-append x r) in
    rw (pad, full, take-append n x r h, drop-append n x r h, append-nil)

read_value :
    (v r : Bytes)
    → (if ltb 0 (length v) then read (length v) (stream (v ++ r)) else ([], stream (v ++ r)))
      ≡ (v, stream r)
read_value [] r = refl
read_value (b ∷ v) r =
    let some_byte : ltb 0 (length (b ∷ v)) ≡ true = ground arith in
    rw some_byte (read-append (length (b ∷ v)) (b ∷ v) r refl)

zeros_text : (n m : ℕ) → until_nul (take n (replicate m 0)) ≡ []
zeros_text zero m = refl
zeros_text (suc n) zero = refl
zeros_text (suc n) (suc m) = refl

padded_text :
    (name : Bytes) (n m : ℕ)
    → NoNul name
    → length name ≤ n
    → until_nul (take n (name ++ replicate m 0)) ≡ name
padded_text [] n m t h = zeros_text n m
padded_text (b ∷ name) zero m t h = absurd (omega arith)
padded_text (b ∷ name) (suc n) m t h = ground (arith, padded_text name n m t.1)

pub name_field-eq :
    (name : Bytes)
    → NoNul name
    → length name ≤ 31
    → name_field name ≡ name ++ replicate (32 - length name) 0
unfolding name_field
name_field-eq name t h = rw (until_nul-NoNul_self name t, take-all 31 name h)

pub length-name_field :
    (name : Bytes) → NoNul name → length name ≤ 31 → length (name_field name) ≡ 32
length-name_field name t h = rw (name_field-eq name t h) (
    omega (
      arith,
      length-append name (replicate (32 - length name) 0),
      length-replicate {A = ℕ} (32 - length name) 0,
    ))

entry_bytes-eq :
    (e : EvEntry) (tail : Bytes)
    → IsEntry e
    → entry_bytes e ++ tail
      ≡ name_field e.name ++ (le_bytes 2 (length e.value) ++ (e.value ++ tail))
unfolding entry_bytes
entry_bytes-eq e tail h =
    let small = h.value_small in
    let same_size : length e.value % 2 ^ 16 ≡ length e.value = omega arith in
    rw (same_size, take-all (length e.value) e.value (omega arith)) (simp append_assoc)

-- One round of the loop takes one entry off the stream.
load_loop-entry :
    (n total : ℕ) (e : EvEntry) (tail : Bytes) (acc : List EvEntry)
    → IsEntry e
    → total + (34 + length e.value) ≤ max_ev_file_size
    → load_loop (suc n) (stream (entry_bytes e ++ tail)) total acc
      ≡ load_loop n (stream tail) (total + (34 + length e.value)) (acc ++ (e ∷ []))
unfolding load_loop
load_loop-entry n total e tail acc h fits =
    let v = h.value_small in
    let t = h.name_text in
    let s = h.name_short in
    rw (
      entry_bytes-eq e tail h,
      read-append 32 (name_field e.name) (le_bytes 2 (length e.value) ++ (e.value ++ tail))
          (length-name_field e.name t s),
      read-append 2 (le_bytes 2 (length e.value)) (e.value ++ tail) refl,
      le_value-le_bytes 2 (length e.value) (omega arith),
      read_value e.value tail,
      le→ltb max_ev_data_size (length e.value) v,
      le→ltb max_ev_file_size (total + 34 + length e.value) (omega arith),
      name_field-eq e.name t s,
      padded_text e.name 31 (32 - length e.name) t s,
    )

load_loop-entries :
    (es : List EvEntry) (junk : Bytes) (total : ℕ) (acc : List EvEntry)
    → All IsEntry es
    → total + entries_size es ≤ max_ev_file_size
    → load_loop (length es) (stream (entries_bytes es ++ junk)) total acc ≡ acc ++ es
unfolding entries_bytes entries_size
load_loop-entries [] junk total acc h fits = unfold load_loop in sym (append-nil acc)
load_loop-entries (e ∷ es) junk total acc h fits =
    ap (λ (bs : Bytes). load_loop (suc (length es)) (stream bs) total acc)
      (append_assoc (entry_bytes e) (entries_bytes es) junk)
    ∙ load_loop-entry (length es) total e (entries_bytes es ++ junk) acc h.0 (omega arith)
    ∙ load_loop-entries es junk (total + (34 + length e.value)) (acc ++ (e ∷ [])) h.1 (omega arith)
    ∙ append_assoc acc (e ∷ []) es

length-le-entries_size : (es : List EvEntry) → 34 * length es ≤ entries_size es
unfolding entries_size
length-le-entries_size [] = omega arith
length-le-entries_size (e ∷ es) = omega (arith, length-le-entries_size es)

-- Loading what `save` writes for entries within the limits succeeds and gives back those entries,
-- in order, whatever stands behind them in the file.
pub load_file-file_bytes :
    (es : List EvEntry) (junk : Bytes)
    → IsStored es
    → load_file (file_bytes es ++ junk) ≡ (pos 0, es)
unfolding load_file file_bytes
load_file-file_bytes es junk h =
    let few = length-le-entries_size es in
    let small = h.small in
    let n : length es % 2 ^ 32 ≡ length es = omega arith in
    let body = entries_bytes es ++ junk in
    rw
      (
        n,
        read-append 4 (le_bytes 4 ev_file_magic) (le_bytes 4 (length es) ++ body) refl,
        read-append 4 (le_bytes 4 (length es)) body refl,
        le_value-le_bytes 4 (length es) (omega arith),
        le→ltb 10000 (length es) (omega arith),
      )
      (ap (λ (xs : List EvEntry). (pos 0, xs)) (load_loop-entries es junk 8 [] h.each small))
