-- ===== src/Files.antt =====
-- The system calls on the data files of osd-target, which are a parameter. `get_dfile_name` gives each
-- object a file of its own, so that a file is named here by pid and oid.
use viji_osc_osd.Base.{ℕ, Bool, List, Option}

-- What `stat` finds: a regular file or something else, with its size, ENOENT, or another error.
pub data Stat : Type 0 where
  regular special : ℕ → Stat
  absent stat_error : Stat

-- The times of a file: of its last change of status, access and modification, each in seconds and
-- nanoseconds from 1970 on.
pub record Times : Type 0 where
  pub ctime : ℕ × ℕ
  pub atime : ℕ × ℕ
  pub mtime : ℕ × ℕ

abbrev pub never : Times
never = record { ctime = (0, 0); atime = (0, 0); mtime = (0, 0) }

-- `none` and `false` stand for the result -1, or for the null pointer where memory is asked for. A
-- descriptor is a number.
pub record Files : Type 1 where
  pub Fs : Type 0
  pub stat : ℕ → ℕ → Fs → Stat
  pub creat : ℕ → ℕ → Fs → Option ℕ × Fs
  pub unlink : ℕ → ℕ → Fs → Bool × Fs
  pub open_file : ℕ → ℕ → Fs → Option ℕ × Fs
  pub close : ℕ → Fs → Bool × Fs
  pub pread : ℕ → ℕ → ℕ → Fs → Option (List ℕ) × Fs
  pub pwrite : ℕ → List ℕ → ℕ → Fs → Option ℕ × Fs
  pub seek_end : ℕ → Fs → Option ℕ × Fs
  pub truncate : ℕ → ℕ → ℕ → Fs → Bool × Fs
  pub fdatasync : ℕ → Fs → Bool × Fs
  pub sync_file_range : ℕ → ℕ → ℕ → Fs → Bool × Fs
  pub alloc : ℕ → Fs → Bool × Fs
  -- What else `stat` finds for a file, `st_blocks` and the times; the times of the database's file,
  -- unless `stat` fails for it; and `f_blocks` and `f_bfree` of `statfs`, unless it fails.
  pub blocks : ℕ → ℕ → Fs → ℕ
  pub times : ℕ → ℕ → Fs → Times
  pub db_times : Fs → Option Times
  pub statfs : ℕ → ℕ → Fs → Option (ℕ × ℕ)
