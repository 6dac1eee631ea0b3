-- ===== src/UefiFv/Termination/Walks.antt =====
-- How much fuel the walk over the files of a volume needs.
use ocp_canopy_open_bmc.Common.{
  ℕ, zero, suc, ◌+◌, ◌-◌, ◌*◌, ◌^◌, ◌≤◌, ◌<◌, ◌≡◌, refl, sym, subst, true, ◌&&◌, ltb, leb, ltb→le,
  ◌==◌, if-intro, Option, none, some, arith, Bytes, IsBytes, length, get_or, bit_and,
}
use ocp_canopy_open_bmc.UefiFv.{
  word, EfiGuid, EfiFfsFileHeader, ffs_header_of, guid_equal, guid_is_all_ff, ffs_file_size,
  seek_read,
}
use ocp_canopy_open_bmc.UefiFv.Walk.{
  Walk, running, return_read, section_payload, file_payload, on_file, align8, walk,
}
use ocp_canopy_open_bmc.UefiFv.Reads.{
  seek_read-some, read_at-IsBytes, ffs_file_size-lt, align8_bounds,
}

abbrev pub Ends : Walk → Type 0
Ends running = ⊥
Ends _ = Unit

return_read-Ends : (o : Option Bytes) → Ends (return_read o)
unfolding return_read
return_read-Ends none = tt
return_read-Ends (some bs) = tt

section_payload-Ends :
    (rom : Bytes) (off size : ℕ) (o : Option Bytes) → Ends (section_payload rom off size o)
unfolding section_payload
section_payload-Ends rom off size none = tt
section_payload-Ends rom off size (some sec) =
    if-intro Ends (get_or sec 3 0 == 0x19) (λ _. return_read-Ends _)
      (λ _.
        if-intro Ends (get_or sec 3 0 == 2)
          (λ _. if-intro Ends (leb size 20) (λ _. tt) (λ _. return_read-Ends _))
          (λ _. return_read-Ends _))

file_payload-Ends :
    (rom : Bytes) (off : ℕ) (hdr : EfiFfsFileHeader) → Ends (file_payload rom off hdr)
unfolding file_payload
file_payload-Ends rom off hdr =
    let size = ffs_file_size hdr - 24 in
    let start = word (off + 24) in
    if-intro Ends (hdr.file_type == 2 && ltb 4 size)
      (λ _. section_payload-Ends rom start size (seek_read rom true start 4))
      (λ _. return_read-Ends (seek_read rom true start size))

on_file-Ends :
    (next : ℕ → Walk) (rom : Bytes) (file_guid : EfiGuid) (off : ℕ) (o : Option Bytes)
    → ((bs : Bytes)
        → o ≡ some bs
        → 24 ≤ ffs_file_size (ffs_header_of bs)
        → Ends (next (word (off + ffs_file_size (ffs_header_of bs)))))
    → Ends (on_file next rom file_guid off o)
unfolding on_file
on_file-Ends next rom file_guid off none go = tt
on_file-Ends next rom file_guid off (some bs) go =
    let hdr = ffs_header_of bs in
    if-intro Ends (guid_is_all_ff hdr.name) (λ _. tt)
      (λ _.
        if-intro Ends (ltb (ffs_file_size hdr) 24) (λ _. tt)
          (λ large.
            if-intro Ends (guid_equal hdr.name file_guid && bit_and hdr.attributes 1 == 0)
              (λ _. file_payload-Ends rom off hdr) (λ _. go bs refl (ltb→le _ 24 large))))

module _ (rom : Bytes) (bytes : IsBytes rom) (small : length rom ≤ 2 ^ 31) where
  -- The file header that is read next stands inside the image, and its size is below 16 MiB.
  file_read :
      (off : ℕ) (bs : Bytes)
      → seek_read rom true off 24 ≡ some bs
      → (off + 24 ≤ length rom) × (ffs_file_size (ffs_header_of bs) < 2 ^ 24)
  file_read off bs read =
      let (_, inside, here) = seek_read-some rom true off 24 bs read in
      (inside, ffs_file_size-lt bs (subst IsBytes (sym here) (read_at-IsBytes off 24 rom bytes)))

  module _ (file_guid : EfiGuid) (fv_end : ℕ) where
    walk-Ends :
        (n off : ℕ)
        → off + 8 ≤ 2 ^ 32
        → length rom ≤ off + 24 * n
        → Ends (walk (suc n) rom file_guid fv_end off)
    unfolding walk
    walk-Ends zero off low enough =
        if-intro Ends (ltb (word (off + 24)) fv_end)
          (λ _.
            on_file-Ends (walk zero rom file_guid fv_end) rom file_guid (align8 off)
              (seek_read rom true (align8 off) 24)
              (λ bs read _.
                absurd (omega (arith, file_read (align8 off) bs read, align8_bounds off low))))
          (λ _. tt)
    walk-Ends (suc n) off low enough =
        if-intro Ends (ltb (word (off + 24)) fv_end)
          (λ _.
            on_file-Ends (walk (suc n) rom file_guid fv_end) rom file_guid (align8 off)
              (seek_read rom true (align8 off) 24)
              (λ bs read large.
                let (inside, size_lt) = file_read (align8 off) bs read in
                let (ahead, _) = align8_bounds off low in
                walk-Ends n (word (align8 off + ffs_file_size (ffs_header_of bs))) (omega arith)
                  (omega arith)))
          (λ _. tt)

    -- From any offset, also one that is aligned up across zero.
    pub walk-Ends_anywhere :
        (n off : ℕ) → length rom ≤ 24 * n → Ends (walk (suc (suc n)) rom file_guid fv_end off)
    unfolding walk
    walk-Ends_anywhere n off enough =
        if-intro Ends (ltb (word (off + 24)) fv_end)
          (λ _.
            on_file-Ends (walk (suc n) rom file_guid fv_end) rom file_guid (align8 off)
              (seek_read rom true (align8 off) 24)
              (λ bs read large.
                let (inside, size_lt) = file_read (align8 off) bs read in
                walk-Ends n (word (align8 off + ffs_file_size (ffs_header_of bs))) (omega arith)
                  (omega arith)))
          (λ _. tt)
