-- ===== src/Memory.antt =====
-- A database that keeps its tables in memory and a file system without files: what the parameters of
-- the model can be.
pub mod Disk
use viji_osc_osd.Base.{
  ℕ, ◌≡◌, refl, true, false, none, some, List, [], ◌∷◌, Bool-cases, inl, inr, if◌then◌else◌, ℕ, ◌⊎◌,
  filter,
}
use viji_osc_osd.Db.{
  Answers, done, failed, row, osd_ok, osd_error, db_exec_dms, first_row, db_reset_stmt,
}
use viji_osc_osd.Store.{
  Query, attr_is, AttrRow, Stmt, Tables, Sqlite, Behaves, effect, select, conflict, head,
}
use viji_osc_osd.Store.Fetch.{Fetches, Answering, selected}
use viji_osc_osd.Files.{Files, absent, never}
use viji_osc_osd.Device.Remove.Rows.{Removable, is_removal}

-- The rows one after the other.
unfoldable pub rows_of {ℓ} : {A : Type ℓ} → List A → Answers A
rows_of [] = done
rows_of (v ∷ vs) = row v (rows_of vs)

abbrev pub memory : Sqlite
memory = record {
  Conn = Tables;
  run = λ s t. if conflict s t then (failed, t) else (rows_of (select s t), effect s t);
  fetch = λ g t. (rows_of (selected g t), t);
}

rows_of-ok : (vs : List ℕ) → db_exec_dms (rows_of vs) ≡ osd_ok
unfolding rows_of db_exec_dms db_reset_stmt
rows_of-ok [] = refl
rows_of-ok (v ∷ vs) = refl

rows_of-head : (vs : List ℕ) → (first_row some none (rows_of vs)).1 ≡ head vs
unfolding rows_of first_row
rows_of-head [] = refl
rows_of-head (v ∷ vs) = refl

-- A run without a conflict, and one with.
pub fine :
    (s : Stmt) (t : Tables)
    → conflict s t ≡ false
    → (db_exec_dms (memory.run s t).0 ≡ osd_ok)
      × ((memory.run s t).1 ≡ effect s t)
      × ((first_row some none (memory.run s t).0).1 ≡ head (select s t))
fine s t e = rw e (rows_of-ok (select s t), refl, rows_of-head (select s t))

pub refused :
    (s : Stmt) (t : Tables)
    → conflict s t ≡ true
    → (db_exec_dms (memory.run s t).0 ≡ osd_error) × ((memory.run s t).1 ≡ t)
unfolding db_exec_dms db_reset_stmt
refused s t e = rw e (refl, refl)

unfoldable pub memory-Behaves : Behaves memory
memory-Behaves = record {
  tables = λ t. t;
  success = λ s t ok. elim (Bool-cases (conflict s t)) [
    | inl e ↦ absurd (cc (ok, (refused s t e).0))
    | inr e ↦ (e, (fine s t e).1)
  ];
  failure = λ s t bad. elim (Bool-cases (conflict s t)) [
    | inl e ↦ (refused s t e).1
    | inr e ↦ absurd (cc (bad, (fine s t e).0))
  ];
  answer = λ s t small ok. elim (Bool-cases (conflict s t)) [
    | inl e ↦ absurd (cc (ok, (refused s t e).0))
    | inr e ↦ (fine s t e).2
  ];
}

rows_of-Answering : (all rows : List AttrRow) → Answering all rows (rows_of rows)
unfolding rows_of Answering
rows_of-Answering all [] = refl
rows_of-Answering all (r ∷ rows) = (rows, refl, rows_of-Answering all rows)

named_row :
    (g : Query) (p o page number : ℕ) (t : Tables)
    → (g ≡ Query.getval p o page number) ⊎ (g ≡ Query.getattr p o page number)
    → let rows = filter (attr_is p o page number) t.attr in
      Answering rows rows (rows_of (selected g t))
unfolding selected
named_row g p o page number t (inl e) = rw e (rows_of-Answering _ _)
named_row g p o page number t (inr e) = rw e (rows_of-Answering _ _)

pub memory-Fetches : Fetches memory memory-Behaves
unfolding memory-Behaves selected
memory-Fetches = record {
  keeps = λ g t. refl;
  one = λ g p o page number t which. named_row g p o page number t which;
}

removal_fits : (s : Stmt) (t : Tables) → is_removal s ≡ true → conflict s t ≡ false
unfolding conflict
removal_fits (Stmt.obj_delete p o) t h = refl
removal_fits (Stmt.coll_deloid p o) t h = refl
removal_fits (Stmt.attr_delall p o) t h = refl
removal_fits s t h = absurd (cc h)

pub memory-Removable : Removable memory
memory-Removable s h (t, bad) = absurd (cc (bad, (fine s t (removal_fits s t h)).0))

abbrev pub no_files : Files
no_files = record {
  Fs = Unit;
  stat = λ pid oid s. absent;
  creat = λ pid oid s. (some 3, s);
  unlink = λ pid oid s. (true, s);
  open_file = λ pid oid s. (none, s);
  close = λ fd s. (true, s);
  pread = λ fd len off s. (none, s);
  pwrite = λ fd bytes off s. (none, s);
  seek_end = λ fd s. (none, s);
  truncate = λ pid oid len s. (false, s);
  fdatasync = λ fd s. (true, s);
  sync_file_range = λ fd off len s. (true, s);
  alloc = λ n s. (true, s);
  blocks = λ pid oid s. 0;
  times = λ pid oid s. never;
  db_times = λ s. none;
  statfs = λ pid oid s. none;
}
