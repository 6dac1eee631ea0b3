-- ===== src/Smbios/Blob.antt =====
-- The ROM's blob format against the loop that takes it apart.
use ocp_canopy_open_bmc.Common.{
  ℕ, zero, suc, ◌+◌, ◌*◌, min, ◌≤◌, ◌<◌, ◌^◌, ◌≡◌, refl, sym, ap, ◌∙◌, List, [], ◌∷◌, ◌++◌,
  append-nil, append_assoc, arith, Bytes, length, length-append, All, All-take, take, drop,
  take-append-drop, length-take, le_bytes, ltb, if◌then◌else◌, Bool-cases, inl, inr, false, ◌==◌,
  leb, ◌||◌, le→ltb, ltb→lt, ltb→le, load_le, read_at, load_le-append, read_at-append,
}
use ocp_canopy_open_bmc.Smbios.{
  Writer, add_loop, blob_count, add_record, max_smbios_data_size, max_records_per_blob,
}

-- A record that the format can carry.
abbrev pub IsRecord : Bytes → Type 0
IsRecord r = (0 < length r) × (length r < 65536)

-- Each record behind its 16-bit size.
abbrev pub wrapped : List Bytes → Bytes
wrapped [] = []
wrapped (r ∷ rs) = le_bytes 2 (length r) ++ (r ++ wrapped rs)

abbrev pub blob_of : List Bytes → Bytes
blob_of rs = le_bytes 4 (length rs) ++ wrapped rs

-- The records that a store of `used` bytes still takes, in order, up to the first that does not fit.
abbrev pub accepted : ℕ → List Bytes → Bytes
accepted used [] = []
accepted used (r ∷ rs) =
    if ltb max_smbios_data_size (used + length r) then [] else r ++ accepted (used + length r) rs

wrapped-append : (rs ss : List Bytes) → wrapped (rs ++ ss) ≡ wrapped rs ++ wrapped ss
wrapped-append [] ss = refl
wrapped-append (r ∷ rs) ss = simp (wrapped-append rs ss, append_assoc)

add_loop-accepted :
    (rs : List Bytes) (blob pre junk records : Bytes) (off : ℕ)
    → blob ≡ pre ++ (wrapped rs ++ junk)
    → length pre ≡ off
    → All IsRecord rs
    → add_loop (length rs) blob off records ≡ records ++ accepted (length records) rs
unfolding add_loop
add_loop-accepted [] blob pre junk records off e p h = sym (append-nil records)
add_loop-accepted (r ∷ rs) blob pre junk records off e p h =
    let tail = wrapped rs ++ junk in
    let e₁ : blob ≡ pre ++ (le_bytes 2 (length r) ++ (r ++ tail)) = e ∙ simp append_assoc in
    let e₂ : blob ≡ (pre ++ le_bytes 2 (length r)) ++ (r ++ tail) = e₁ ∙ simp append_assoc in
    let e₃ : blob ≡ ((pre ++ le_bytes 2 (length r)) ++ r) ++ tail = e₂ ∙ simp append_assoc in
    let p₂ : length (pre ++ le_bytes 2 (length r)) ≡ off + 2 =
      omega (arith, length-append pre (le_bytes 2 (length r))) in
    let p₃ : length ((pre ++ le_bytes 2 (length r)) ++ r) ≡ off + 2 + length r =
      omega (arith, length-append (pre ++ le_bytes 2 (length r)) r) in
    let size : load_le off 2 blob ≡ length r =
      rw e₁ (load_le-append off 2 (length r) pre (r ++ tail) p (omega arith)) in
    let body : read_at (off + 2) (length r) blob ≡ r =
      rw e₂ (read_at-append (off + 2) (length r) (pre ++ le_bytes 2 (length r)) r tail p₂ refl) in
    let len : length blob ≡ off + 2 + length r + length tail =
      ap length e₃ ∙ omega (arith, length-append ((pre ++ le_bytes 2 (length r)) ++ r) tail) in
    let rest =
      add_loop-accepted rs blob ((pre ++ le_bytes 2 (length r)) ++ r) junk (records ++ r)
        (off + 2 + length r) e₃ p₃ h.1 in
    rw (size, body)
      (ground (
        arith,
        rest,
        len,
        length-append records r,
        append-nil records,
        append_assoc records r (accepted (length records + length r) rs),
      ))

length-wrapped : (rs : List Bytes) → All IsRecord rs → 3 * length rs ≤ length (wrapped rs)
length-wrapped [] h = omega arith
length-wrapped (r ∷ rs) h = omega (
  arith,
  length-append (le_bytes 2 (length r)) (r ++ wrapped rs),
  length-append r (wrapped rs),
  length-wrapped rs h.1,
)

capped_count :
    (n : ℕ) → (if ltb max_records_per_blob n then max_records_per_blob else n) ≡ min 1000 n
capped_count n = elim (Bool-cases (ltb max_records_per_blob n)) [
  | inl more ↦ rw more (omega (arith, ltb→lt 1000 n more))
  | inr less ↦ rw less (omega (arith, ltb→le 1000 n less))
]

blob_count-blob_of :
    (rs : List Bytes) (junk : Bytes)
    → length rs < 2 ^ 32
    → blob_count (blob_of rs ++ junk) ≡ length (take 1000 rs)
unfolding blob_count
blob_count-blob_of rs junk small =
    let count : load_le 0 4 (blob_of rs ++ junk) ≡ length rs =
      load_le-append 0 4 (length rs) [] (wrapped rs ++ junk) refl small in
    rw count (capped_count (length rs) ∙ sym (length-take 1000 rs))

blob-size :
    (rs : List Bytes) (junk : Bytes)
    → All IsRecord rs
    → 0 < length rs
    → ltb (length (blob_of rs ++ junk)) 6 ≡ false
blob-size rs junk h some_record =
    le→ltb (length (blob_of rs ++ junk)) 6
      (omega (arith, length-append (wrapped rs) junk, length-wrapped rs h))

-- The first `n` records, with the rest of the blob as what stands behind them.
blob-split :
    (n : ℕ) (rs : List Bytes) (junk : Bytes)
    → blob_of rs ++ junk
      ≡ le_bytes 4 (length rs) ++ (wrapped (take n rs) ++ (wrapped (drop n rs) ++ junk))
blob-split n rs junk =
    ap (λ (body : Bytes). le_bytes 4 (length rs) ++ body)
      (ap (λ (ss : List Bytes). wrapped ss ++ junk) (sym (take-append-drop n rs))
        ∙ simp (wrapped-append, append_assoc))

-- A blob of 1 to 2^32 - 1 records of 1 to 65535 bytes, whatever stands behind it, adds exactly the records that fit: of
-- the first 1000, in order, all those before the first that would take the store past its limit.
pub add_record-blob_of :
    (rs : List Bytes) (junk : Bytes) (w : Writer)
    → All IsRecord rs
    → 0 < length rs
    → length rs < 2 ^ 32
    → add_record (blob_of rs ++ junk) w
      ≡ record w { records = w.records ++ accepted (length w.records) (take 1000 rs) }
unfolding add_record
add_record-blob_of rs junk w h some_record small =
    rw (blob-size rs junk h some_record, blob_count-blob_of rs junk small)
      (ap (λ (r : Bytes). record w { records = r })
        (add_loop-accepted (take 1000 rs) (blob_of rs ++ junk) (le_bytes 4 (length rs))
          (wrapped (drop 1000 rs) ++ junk) w.records 4 (blob-split 1000 rs junk) refl
          (All-take IsRecord 1000 rs h)))

-- What a store has become when more was added behind it, within the limit.
abbrev pub Extends : Bytes → Bytes → Type 0
Extends before after =
    (extra : Bytes) × (after ≡ before ++ extra)
    × (length before + length extra ≤ max_smbios_data_size)

Extends-refl : (records : Bytes) → length records ≤ max_smbios_data_size → Extends records records
Extends-refl records h = ([], sym (append-nil records), omega arith)

add_loop-Extends :
    (n : ℕ) (blob : Bytes) (off : ℕ) (records : Bytes)
    → length records ≤ max_smbios_data_size
    → Extends records (add_loop n blob off records)
unfolding add_loop
add_loop-Extends zero blob off records h = Extends-refl records h
add_loop-Extends (suc n) blob off records h =
    let size = load_le off 2 blob in
    let body = read_at (off + 2) size blob in
    let body_size : length body ≤ size = omega (arith, length-take size (drop (off + 2) blob)) in
    elim (Bool-cases (leb (off + 2) (length blob))) [
      | inr done ↦ rw done (Extends-refl records h)
      | inl more ↦ elim (Bool-cases (size == 0 || ltb (length blob) (off + 2 + size))) [
        | inl bad ↦ rw (more, bad) (Extends-refl records h)
        | inr good ↦ elim (Bool-cases (ltb max_smbios_data_size (length records + size))) [
          | inl full ↦ rw (more, good, full) (Extends-refl records h)
          | inr room ↦
              let fits = ltb→le _ _ room in
              let (extra, e, small) =
                add_loop-Extends n blob (off + 2 + size) (records ++ body)
                  (omega (arith, length-append records body)) in
              rw (more, good, room)
                (
                  body ++ extra,
                  e ∙ append_assoc records body extra,
                  omega (arith, length-append records body, length-append body extra),
                )
        ]
      ]
    ]

-- Whatever bytes the host sends to a store within the limit of 1 MiB, a blob only adds behind the
-- records that are there, and does not take the store past the limit.
pub add_record-Extends :
    (blob : Bytes) (w : Writer)
    → length w.records ≤ max_smbios_data_size
    → Extends w.records (add_record blob w).records
unfolding add_record
add_record-Extends blob w h = elim (Bool-cases (ltb (length blob) 6)) [
  | inl short ↦ rw short (Extends-refl w.records h)
  | inr long ↦ rw long (add_loop-Extends (blob_count blob) blob 4 w.records h)
]
