-- ===== src/Io/Content.antt =====
-- The contents of the data files, and what the functions of osd-target/io.c rely on in the system calls
-- on them.
use mathlib.Core.Path.{fun_ext}
use viji_osc_osd.Base.{
  ℕ, zero, suc, ◌+◌, ◌≡◌, ◌⊎◌, refl, ap, ◌∙◌, Bool, true, false, ◌&&◌, Option, none, some, List, [],
  ◌∷◌, ◌++◌, take, drop, length, ◌==◌, if◌then◌else◌, arith, drop-append_eq, take-append_eq,
}
use viji_osc_osd.Files.{Files, regular, stat_error}
use viji_osc_osd.Io.{lend}

-- The files by partition and object.
abbrev pub Disk : Type 0
Disk = ℕ → ℕ → Option (List ℕ)

abbrev pub is_object : ℕ → ℕ → ℕ → ℕ → Bool
is_object pid oid p o = p == pid && o == oid

abbrev pub update : ℕ → ℕ → List ℕ → Disk → Disk
update pid oid c g p o = if is_object pid oid p o then some c else g p o

-- The bytes `src` written at `off` into a file: a gap before them is filled with zeros. Writing
-- nothing changes nothing.
unfoldable pub splice : ℕ → List ℕ → List ℕ → List ℕ
splice off [] c = c
splice off (b ∷ src) c = lend off c ++ ((b ∷ src) ++ drop (off + length (b ∷ src)) c)

-- POSIX on regular files of a local file system: `view` is what the files hold, and `file` what a
-- descriptor is open on. A read stops short only at the end of the file, a write may write less than it
-- was asked for, and every call may fail, `stat` too.
pub record Contents (f : Files) : Type 0 where
  pub view : f.Fs → Disk
  pub file : ℕ → f.Fs → Option (ℕ × ℕ)
  pub open_keeps : (p o : ℕ) (s : f.Fs) → view (f.open_file p o s).1 ≡ view s
  pub open_shows :
      (p o fd : ℕ) (s : f.Fs)
      → (f.open_file p o s).0 ≡ some fd
      → (c : List ℕ) × (view s p o ≡ some c) × (file fd (f.open_file p o s).1 ≡ some (p, o))
  pub close_keeps : (fd : ℕ) (s : f.Fs) → view (f.close fd s).1 ≡ view s
  pub pread_keeps :
      (fd len off : ℕ) (s : f.Fs)
      → (view (f.pread fd len off s).1 ≡ view s)
        × ((n : ℕ) → file n (f.pread fd len off s).1 ≡ file n s)
  pub pread_reads :
      (fd len off p o : ℕ) (c bytes : List ℕ) (s : f.Fs)
      → file fd s ≡ some (p, o)
      → view s p o ≡ some c
      → (f.pread fd len off s).0 ≡ some bytes
      → bytes ≡ take len (drop off c)
  pub pwrite_fails :
      (fd off : ℕ) (src : List ℕ) (s : f.Fs)
      → (f.pwrite fd src off s).0 ≡ none
      → view (f.pwrite fd src off s).1 ≡ view s
  pub pwrite_writes :
      (fd off p o n : ℕ) (src c : List ℕ) (s : f.Fs)
      → file fd s ≡ some (p, o)
      → view s p o ≡ some c
      → (f.pwrite fd src off s).0 ≡ some n
      → view (f.pwrite fd src off s).1 ≡ update p o (splice off (take n src) c) (view s)
  pub pwrite_shows :
      (fd off n : ℕ) (src : List ℕ) (s : f.Fs) → file n (f.pwrite fd src off s).1 ≡ file n s
  pub end_keeps :
      (fd : ℕ) (s : f.Fs)
      → (view (f.seek_end fd s).1 ≡ view s) × ((n : ℕ) → file n (f.seek_end fd s).1 ≡ file n s)
  pub end_found :
      (fd p o off : ℕ) (c : List ℕ) (s : f.Fs)
      → file fd s ≡ some (p, o)
      → view s p o ≡ some c
      → (f.seek_end fd s).0 ≡ some off
      → off ≡ length c
  pub stat_sees :
      (p o : ℕ) (c : List ℕ) (s : f.Fs)
      → view s p o ≡ some c
      → (f.stat p o s ≡ regular (length c)) ⊎ (f.stat p o s ≡ stat_error)
  pub truncate_fails :
      (p o n : ℕ) (s : f.Fs) → (f.truncate p o n s).0 ≡ false → view (f.truncate p o n s).1 ≡ view s
  pub truncate_cuts :
      (p o n : ℕ) (c : List ℕ) (s : f.Fs)
      → view s p o ≡ some c
      → (f.truncate p o n s).0 ≡ true
      → view (f.truncate p o n s).1 ≡ update p o (lend n c) (view s)
  pub alloc_keeps :
      (n : ℕ) (s : f.Fs)
      → (view (f.alloc n s).1 ≡ view s) × ((k : ℕ) → file k (f.alloc n s).1 ≡ file k s)

pub length-lend : (n : ℕ) (p : List ℕ) → length (lend n p) ≡ n
unfolding lend
length-lend zero p = refl
length-lend (suc n) [] = ap suc (length-lend n [])
length-lend (suc n) (b ∷ p) = ap suc (length-lend n p)

pub update_self : (p o : ℕ) (c : List ℕ) (g : Disk) → g p o ≡ some c → update p o c g ≡ g
update_self p o c g h = fun_ext λ p'. fun_ext λ o'. ground arith

pub update-update :
    (p o : ℕ) (c c' : List ℕ) (g : Disk) → update p o c' (update p o c g) ≡ update p o c' g
update-update p o c c' g = fun_ext λ p'. fun_ext λ o'. ground arith

pub update_at : (p o : ℕ) (c : List ℕ) (g : Disk) → update p o c g p o ≡ some c
update_at p o c g = ground arith

-- What was written is read back.
pub range-splice :
    (len off : ℕ) (src c : List ℕ) → length src ≡ len → take len (drop off (splice off src c)) ≡ src
unfolding splice
range-splice zero off [] c e = refl
range-splice (suc len) off [] c e = absurd (omega arith)
range-splice len off (b ∷ src) c e =
    ap (take len) (
      drop-append_eq off (lend off c) ((b ∷ src) ++ drop (off + length (b ∷ src)) c)
        (length-lend off c))
    ∙ take-append_eq len (b ∷ src) (drop (off + length (b ∷ src)) c) e
