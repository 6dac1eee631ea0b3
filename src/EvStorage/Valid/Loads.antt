-- ===== src/EvStorage/Valid/Loads.antt =====
-- The limits of the entries that `load` takes from a file.
use ocp_canopy_open_bmc.Common.{
  ℕ, zero, suc, ◌+◌, ◌-◌, ◌≤◌, ◌≡◌, refl, Bool, true, false, not, ◌||◌, ltb, ◌==◌, ℤ, if◌then◌else◌,
  if-intro, Bool-cases, inl, inr, List, [], ◌∷◌, ◌++◌, arith, Bytes, length, length-append,
  length-take, length-replicate, take, replicate, le_value, until_nul, until_nul-NoNul,
  length-until_nul,
}
use ocp_canopy_open_bmc.EvStorage.{
  EvEntry, Stream, read, load_loop, load_file, entries_size, ev_file_magic,
}
use ocp_canopy_open_bmc.EvStorage.Codec.{IsStored, IsStored-concat, entries_size-concat}

length-read : (n : ℕ) (s : Stream) → length (read n s).0 ≡ n
unfolding read
length-read n s = elim (Bool-cases s.good) [
  | inl good ↦ rw good (
      omega (
        arith,
        length-append (take n s.rest) (replicate (n - length s.rest) 0),
        length-take n s.rest,
        length-replicate {A = ℕ} (n - length s.rest) 0,
      ))
  | inr bad ↦ rw bad (length-replicate {A = ℕ} n 0)
]

length-value :
    (n : ℕ) (s : Stream)
    → length (let (value, rest) = (if ltb 0 n then read n s else ([], s)) in value) ≡ n
length-value zero s = refl
length-value (suc n) s = ground (arith, length-read (suc n) s)

length-read_name : (bs : Bytes) → length (until_nul (take 31 bs)) ≤ 31
length-read_name bs = omega (arith, length-until_nul (take 31 bs), length-take 31 bs)

refused_limits :
    (len total : ℕ) (good : Bool)
    → (ltb 3966 len || (ltb 65536 total || not good)) ≡ false
    → (len ≤ 3966) × (total ≤ 65536)
refused_limits len total good h = ground arith

load_loop-IsStored :
    (n : ℕ) (s : Stream) (total : ℕ) (acc : List EvEntry)
    → IsStored acc
    → total ≡ 8 + entries_size acc
    → IsStored (load_loop n s total acc)
unfolding load_loop
load_loop-IsStored zero s total acc h t = h
load_loop-IsStored (suc n) s total acc h t =
    let name_buf = (read 32 s).0 in
    let s₁ = (read 32 s).1 in
    let data_len = le_value (read 2 s₁).0 in
    let s₂ = (read 2 s₁).1 in
    let taken : Bytes × Stream = (if ltb 0 data_len then read data_len s₂ else ([], s₂)) in
    let entry : EvEntry = record { name = until_nul (take 31 name_buf); value = taken.0 } in
    let size = length-value data_len s₂ in
    let refused = ltb 3966 data_len || (ltb 65536 (total + 34 + data_len) || not s₂.good) in
    let kept = λ (b : refused ≡ false). refused_limits data_len (total + 34 + data_len) s₂.good b in
    let more = λ (b : refused ≡ false).
      load_loop-IsStored n taken.1 (total + (34 + data_len)) (acc ++ (entry ∷ []))
        (IsStored-concat acc entry h.each
          (record {
            name_short = length-read_name name_buf;
            name_text = until_nul-NoNul (take 31 name_buf);
            value_small = omega (arith, size, kept b);
          })
          (omega (arith, size, kept b)))
        (omega (arith, size, entries_size-concat acc entry)) in
    if-intro IsStored s.good
      (λ good.
        if-intro IsStored refused (λ b. h)
          (λ b. if-intro IsStored taken.1.good (λ whole. more b) (λ bad. h)))
      (λ bad. h)

pub load_file-IsStored : (content : Bytes) → IsStored (load_file content).1
unfolding load_file entries_size
load_file-IsStored content =
    let empty : IsStored [] = record { each = tt; small = omega arith } in
    let first = read 4 (record { rest = content; good = true }) in
    let second = read 4 first.1 in
    if-intro (λ (r : ℤ × List EvEntry). IsStored r.1) (not (le_value first.0 == ev_file_magic))
      (λ _. empty)
      (λ _.
        if-intro (λ (r : ℤ × List EvEntry). IsStored r.1) (ltb 10000 (le_value second.0))
          (λ _. empty)
          (λ _. load_loop-IsStored (le_value second.0) second.1 8 [] empty (omega arith)))
