-- ===== src/UefiFv/Reads.antt =====
-- What reads of the image return, and the ranges of what is decoded from them.
use ocp_canopy_open_bmc.Common.{
  ℕ, zero, suc, ◌+◌, ◌%◌, ◌^◌, ◌≤◌, ◌<◌, ◌≡◌, refl, Bool, true, false, none, some, [], ◌∷◌, arith,
  Bytes, IsBytes, IsByte, length, get_or, All-take, All-drop, drop, read_at,
}
use ocp_canopy_open_bmc.UefiFv.{ffs_header_of, ffs_file_size, seek_read}
use ocp_canopy_open_bmc.UefiFv.Walk.{align8}
use ocp_canopy_open_bmc.UefiFv.Search.{fv_step}

-- A read that returns bytes had a good stream, and returns the bytes that stand there.
pub seek_read-some :
    (rom : Bytes) (good : Bool) (off n : ℕ) (bs : Bytes)
    → seek_read rom good off n ≡ some bs
    → (good ≡ true) × (off + n ≤ length rom) × (bs ≡ read_at off n rom)
unfolding seek_read
seek_read-some rom good off n bs h = ground arith

pub seek_read-inside :
    (rom : Bytes) (off n : ℕ)
    → off + n ≤ length rom
    → seek_read rom true off n ≡ some (read_at off n rom)
unfolding seek_read
seek_read-inside rom off n h = ground arith

pub seek_read-outside :
    (rom : Bytes) (good : Bool) (off n : ℕ) → length rom < off + n → seek_read rom good off n ≡ none
unfolding seek_read
seek_read-outside rom good off n h = ground arith

-- The fail bit stays.
pub seek_read-bad : (rom : Bytes) (off n : ℕ) → seek_read rom false off n ≡ none
unfolding seek_read
seek_read-bad rom off n = refl

pub read_at-IsBytes : (off n : ℕ) (bs : Bytes) → IsBytes bs → IsBytes (read_at off n bs)
read_at-IsBytes off n bs h = All-take IsByte n (drop off bs) (All-drop IsByte off bs h)

pub get_or-IsByte : (bs : Bytes) (i : ℕ) → IsBytes bs → get_or bs i 0 < 256
get_or-IsByte [] i h = omega arith
get_or-IsByte (b ∷ bs) zero h = h.0
get_or-IsByte (b ∷ bs) (suc i) h = get_or-IsByte bs i h.1

-- The size field of a file has 24 bits.
pub ffs_file_size-lt : (bs : Bytes) → IsBytes bs → ffs_file_size (ffs_header_of bs) < 2 ^ 24
unfolding ffs_file_size ffs_header_of
ffs_file_size-lt bs h =
    let field = read_at 20 3 bs in
    let b = read_at-IsBytes 20 3 bs h in
    omega (arith, get_or-IsByte field 0 b, get_or-IsByte field 1 b, get_or-IsByte field 2 b)

pub align8_bounds : (off : ℕ) → off + 8 ≤ 2 ^ 32 → (off ≤ align8 off) × (align8 off < off + 8)
unfolding align8
align8_bounds off h = ground arith

pub fv_step_bounds : (len : ℕ) → (0x10000 ≤ fv_step len) × (fv_step len % 0x10000 ≡ 0)
unfolding fv_step
fv_step_bounds len = (ground arith, ground arith)
