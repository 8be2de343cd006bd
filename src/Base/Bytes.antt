-- ===== src/Base/Bytes.antt =====
-- Memory as the program sees it: a buffer is a list of bytes.
use Prim.Native.Nat.{ℕ, zero, suc, ◌+◌, ◌<◌, ◌≤◌}
use mathlib.Core.Path.{◌≡◌, refl, ap}
use mathlib.Core.List.{List, [], ◌∷◌, ◌++◌}
use native.Mathlib.Omega.{arith}
use viji_osc_osd.Base.Lists.{length, get_or, take, drop, All}

abbrev pub IsByte : ℕ → Type 0
IsByte b = b < 256

-- `p[i]`. The model reads 0 past the end of a buffer.
abbrev pub get8 : List ℕ → ℕ → ℕ
get8 p i = get_or p i 0

-- The bytes `src` copied over the front of `dst`; what would fall outside `dst` is dropped.
overlay : List ℕ → List ℕ → List ℕ
overlay [] dst = dst
overlay (b ∷ src) [] = []
overlay (b ∷ src) (d ∷ dst) = b ∷ overlay src dst

-- `memcpy(dst + off, src, length src)`.
unfoldable pub write_at : ℕ → List ℕ → List ℕ → List ℕ
unfolding overlay
write_at zero src dst = overlay src dst
write_at (suc off) src [] = []
write_at (suc off) src (d ∷ dst) = d ∷ write_at off src dst

length-overlay : (src dst : List ℕ) → length (overlay src dst) ≡ length dst
unfolding overlay
length-overlay [] dst = refl
length-overlay (b ∷ src) [] = refl
length-overlay (b ∷ src) (d ∷ dst) = ap suc (length-overlay src dst)

pub length-write_at : (off : ℕ) (src dst : List ℕ) → length (write_at off src dst) ≡ length dst
unfolding write_at
length-write_at zero src dst = length-overlay src dst
length-write_at (suc off) src [] = refl
length-write_at (suc off) src (d ∷ dst) = ap suc (length-write_at off src dst)

drop-overlay : (n : ℕ) (src dst : List ℕ) → length src ≤ n → drop n (overlay src dst) ≡ drop n dst
unfolding overlay
drop-overlay n [] dst h = refl
drop-overlay n (b ∷ src) [] h = refl
drop-overlay zero (b ∷ src) (d ∷ dst) h = absurd (omega arith)
drop-overlay (suc n) (b ∷ src) (d ∷ dst) h = drop-overlay n src dst (omega arith)

-- A write in front of `n` changes nothing behind it.
pub drop-write_at :
    (n off : ℕ) (src dst : List ℕ)
    → off + length src ≤ n
    → drop n (write_at off src dst) ≡ drop n dst
unfolding write_at
drop-write_at n zero src dst h = drop-overlay n src dst (omega arith)
drop-write_at n (suc off) src [] h = refl
drop-write_at zero (suc off) src (d ∷ dst) h = absurd (omega arith)
drop-write_at (suc n) (suc off) src (d ∷ dst) h = drop-write_at n off src dst (omega arith)

-- What fits is found again at its place, with what stood behind it.
pub write_at-zero :
    (src dst : List ℕ) → length src ≤ length dst → write_at 0 src dst ≡ src ++ drop (length src) dst
unfolding write_at
write_at-zero [] dst h = refl
write_at-zero (b ∷ src) [] h = absurd (omega arith)
write_at-zero (b ∷ src) (d ∷ dst) h = ap (◌∷◌ b) (write_at-zero src dst (omega arith))

pub get8-IsByte : (d : List ℕ) (i : ℕ) → All IsByte d → get8 d i < 256
get8-IsByte [] i h = omega arith
get8-IsByte (b ∷ d) zero h = h.0
get8-IsByte (b ∷ d) (suc i) h = get8-IsByte d i h.1

pub drop-IsByte : (n : ℕ) (d : List ℕ) → All IsByte d → All IsByte (drop n d)
drop-IsByte zero d h = h
drop-IsByte (suc n) [] h = h
drop-IsByte (suc n) (b ∷ d) h = drop-IsByte n d h.1

pub take-IsByte : (n : ℕ) (d : List ℕ) → All IsByte d → All IsByte (take n d)
take-IsByte zero d h = tt
take-IsByte (suc n) [] h = tt
take-IsByte (suc n) (b ∷ d) h = (h.0, take-IsByte n d h.1)

-- One write of a buffer that is filled from the front: `done` is what has been written so far.
pub write_next :
    (off : ℕ) (src done rest : List ℕ)
    → length done ≡ off
    → length src ≤ length rest
    → write_at off src (done ++ rest) ≡ (done ++ src) ++ drop (length src) rest
unfolding write_at
write_next zero src [] rest e h = write_at-zero src rest h
write_next zero src (x ∷ done) rest e h = absurd (omega arith)
write_next (suc off) src [] rest e h = absurd (omega arith)
write_next (suc off) src (x ∷ done) rest e h =
    ap (◌∷◌ x) (write_next off src done rest (omega arith) h)

-- A copy that is as long as the buffer.
pub write_at-whole : (src dst : List ℕ) → length dst ≡ length src → write_at 0 src dst ≡ src
unfolding write_at overlay
write_at-whole [] [] h = refl
write_at-whole [] (d ∷ dst) h = absurd (omega arith)
write_at-whole (b ∷ src) [] h = absurd (omega arith)
write_at-whole (b ∷ src) (d ∷ dst) h = ap (◌∷◌ b) (write_at-whole src dst (omega arith))
