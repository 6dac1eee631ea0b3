-- ===== src/Common/Buffer.antt =====
-- Byte buffers: what `memcpy` and `fill_n` write into a span, and what a load at an offset reads.
use Prim.Native.Nat.{ℕ, zero, suc, ◌+◌, ◌^◌, ◌≤◌, ◌<◌}
use mathlib.Core.Path.{◌≡◌, refl, ap, ◌∙◌}
use mathlib.Core.List.{[], ◌∷◌, ◌++◌}
use native.Mathlib.Omega.{arith}
use ocp_canopy_open_bmc.Common.Lists.{length, take, drop, replicate, take-append, drop-append}
use ocp_canopy_open_bmc.Common.Words.{Bytes, le_bytes, le_value, length-le_bytes, le_value-le_bytes}

-- `memcpy(buf + off, src, size(src))`. It never makes the buffer longer: what would go past its
-- end is dropped here, and the theorems show that the code writes within its buffers.
abbrev pub write_at : ℕ → Bytes → Bytes → Bytes
write_at zero [] buf = buf
write_at zero (s ∷ src) [] = []
write_at zero (s ∷ src) (b ∷ buf) = s ∷ write_at zero src buf
write_at (suc off) src [] = []
write_at (suc off) src (b ∷ buf) = b ∷ write_at off src buf

-- `fill_n(buf, n, 0)`.
abbrev pub fill_n : ℕ → Bytes → Bytes
fill_n n buf = write_at 0 (replicate n 0) buf

abbrev pub read_at : ℕ → ℕ → Bytes → Bytes
read_at off n buf = take n (drop off buf)

-- An n-byte little-endian load at an offset.
abbrev pub load_le : ℕ → ℕ → Bytes → ℕ
load_le off n buf = le_value (read_at off n buf)

pub length-write_at : (off : ℕ) (src buf : Bytes) → length (write_at off src buf) ≡ length buf
length-write_at zero [] buf = refl
length-write_at zero (s ∷ src) [] = refl
length-write_at zero (s ∷ src) (b ∷ buf) = ap suc (length-write_at zero src buf)
length-write_at (suc off) src [] = refl
length-write_at (suc off) src (b ∷ buf) = ap suc (length-write_at off src buf)

-- A write that fits, at the front and behind a prefix.
pub write_at-front :
    (src buf : Bytes) → length src ≤ length buf → write_at 0 src buf ≡ src ++ drop (length src) buf
write_at-front [] buf h = refl
write_at-front (s ∷ src) [] h = absurd (omega arith)
write_at-front (s ∷ src) (b ∷ buf) h = ap (◌∷◌ s) (write_at-front src buf (omega arith))

pub write_at-append :
    (off : ℕ) (xs src buf : Bytes)
    → length xs ≡ off
    → write_at off src (xs ++ buf) ≡ xs ++ write_at 0 src buf
write_at-append zero [] src buf h = refl
write_at-append zero (x ∷ xs) src buf h = absurd (omega arith)
write_at-append (suc off) [] src buf h = absurd (omega arith)
write_at-append (suc off) (x ∷ xs) src buf h =
    ap (◌∷◌ x) (write_at-append off xs src buf (omega arith))

pub fill_n-front :
    (n : ℕ) (buf : Bytes) → n ≤ length buf → fill_n n buf ≡ replicate n 0 ++ drop n buf
fill_n-front zero buf h = refl
fill_n-front (suc n) [] h = absurd (omega arith)
fill_n-front (suc n) (b ∷ buf) h = ap (◌∷◌ 0) (fill_n-front n buf (omega arith))

-- The bytes that stand between two parts of a buffer are read at their place.
pub read_at-append :
    (off n : ℕ) (pre mid post : Bytes)
    → length pre ≡ off
    → length mid ≡ n
    → read_at off n (pre ++ (mid ++ post)) ≡ mid
read_at-append off n pre mid post p m =
    rw (drop-append off pre (mid ++ post) p) (take-append n mid post m)

pub load_le-append :
    (off n v : ℕ) (pre post : Bytes)
    → length pre ≡ off
    → v < 256 ^ n
    → load_le off n (pre ++ (le_bytes n v ++ post)) ≡ v
load_le-append off n v pre post p small =
    ap le_value (read_at-append off n pre (le_bytes n v) post p (length-le_bytes n v))
    ∙ le_value-le_bytes n v small

-- A write over bytes that stand behind a prefix.
pub write_at-over :
    (off : ℕ) (pre src old post : Bytes)
    → length pre ≡ off
    → length src ≡ length old
    → write_at off src (pre ++ (old ++ post)) ≡ pre ++ (src ++ post)
write_at-over off pre src old post p e =
    write_at-append off pre src (old ++ post) p ∙ ap (λ (bs : Bytes). pre ++ bs) (over src old e)
  where
    over : (s o : Bytes) → length s ≡ length o → write_at 0 s (o ++ post) ≡ s ++ post
    over [] [] h = refl
    over [] (x ∷ o) h = absurd (omega arith)
    over (y ∷ s) [] h = absurd (omega arith)
    over (y ∷ s) (x ∷ o) h = ap (◌∷◌ y) (over s o (omega arith))

-- A write at a distance behind a prefix.
pub write_at-shift :
    (k n : ℕ) (pre src post : Bytes)
    → k ≡ length pre + n
    → write_at k src (pre ++ post) ≡ pre ++ write_at n src post
write_at-shift k n [] src post e = ap (λ j. write_at j src post) {x = k} {y = n} (omega arith)
write_at-shift zero n (x ∷ pre) src post e = absurd (omega arith)
write_at-shift (suc k) n (x ∷ pre) src post e =
    ap (◌∷◌ x) (write_at-shift k n pre src post (omega arith))

-- A write that ends before the rest of a buffer leaves the rest alone.
pub write_at-inside :
    (off : ℕ) (src xs rest : Bytes)
    → off + length src ≤ length xs
    → write_at off src (xs ++ rest) ≡ write_at off src xs ++ rest
write_at-inside zero [] xs rest h = refl
write_at-inside zero (s ∷ src) [] rest h = absurd (omega arith)
write_at-inside zero (s ∷ src) (x ∷ xs) rest h =
    ap (◌∷◌ s) (write_at-inside zero src xs rest (omega arith))
write_at-inside (suc off) src [] rest h = absurd (omega arith)
write_at-inside (suc off) src (x ∷ xs) rest h =
    ap (◌∷◌ x) (write_at-inside off src xs rest (omega arith))
