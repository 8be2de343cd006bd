-- ===== src/Db.antt =====
-- osd-target/db.h and the statement runners of osd-target/db.c. What sqlite3 answers while a prepared
-- statement is run is data: one constructor for each call's result, in the order of the calls.
pub mod Runs
pub mod Retrieval
use viji_osc_osd.Base.{
  ℕ, ◌+◌, ◌-◌, ◌%◌, ◌^◌, Bool, true, false, not, List, [], ◌∷◌, ◌++◌, ltb, leb, ◌==◌, if◌then◌else◌,
}
use viji_osc_osd.Wire.{set_htonll}

-- The results of the functions on the database: OSD_OK, OSD_ERROR, OSD_REPEAT, -ENOENT and -EEXIST.
pub data Ret : Type 0 where
  osd_ok osd_error osd_repeat enoent eexist : Ret

abbrev pub is_ok : Ret → Bool
is_ok osd_ok = true
is_ok r = false

-- What a bound statement meets: the values could not be bound; a step returns SQLITE_BUSY; a step
-- returns SQLITE_ROW; a step returns SQLITE_DONE; a step returns an error; or a step returns
-- SQLITE_SCHEMA, `db_initialize` then succeeds or not, and the rest is what the statement meets when
-- it is run again.
pub data Answers {ℓ} (A : Type ℓ) : Type ℓ where
  unbound done failed : Answers A
  busy : Answers A → Answers A
  row : A → Answers A → Answers A
  schema : Bool → Answers A → Answers A

-- What `sqlite3_reset` returns: it repeats the error of the last step, and a row is none.
pub data Reset : Type 0 where
  reset_ok reset_error : Reset
  reset_schema : Bool → Reset

unfoldable pub db_reset_stmt : Bool → Reset → Ret
db_reset_stmt false r = osd_error
db_reset_stmt true reset_ok = osd_ok
db_reset_stmt true (reset_schema true) = osd_repeat
db_reset_stmt true (reset_schema false) = osd_error
db_reset_stmt true reset_error = osd_error

-- A caller of the two runners below binds its values and, on OSD_REPEAT, jumps back to do so again:
-- the clause for `schema` has both the runner's result and that jump.
unfoldable pub repeat_if {ℓ} : {A : Type ℓ} → Ret → A → A → A
repeat_if osd_repeat again result = again
repeat_if r again result = result

-- Up to the first step that is not busy.
unfoldable pub db_exec_dms {ℓ} : {A : Type ℓ} → Answers A → Ret
db_exec_dms unbound = db_reset_stmt false reset_ok
db_exec_dms done = db_reset_stmt true reset_ok
db_exec_dms failed = db_reset_stmt true reset_error
db_exec_dms (busy rest) = db_exec_dms rest
db_exec_dms (row v rest) = db_reset_stmt true reset_ok
db_exec_dms (schema up rest) =
    let again = db_exec_dms rest in
    let ret = db_reset_stmt true (reset_schema up) in repeat_if ret again ret

-- The loop of the functions that read one row: the same steps, with `f` of the row's column assigned
-- to a variable that holds `d` before.
unfoldable pub first_row {ℓ κ} : {A : Type ℓ} {B : Type κ} → (A → B) → B → Answers A → Ret × B
first_row f d unbound = (db_reset_stmt false reset_ok, d)
first_row f d done = (db_reset_stmt true reset_ok, d)
first_row f d failed = (db_reset_stmt true reset_error, d)
first_row f d (busy rest) = first_row f d rest
first_row f d (row v rest) = (db_reset_stmt true reset_ok, f v)
first_row f d (schema up rest) =
    let again = first_row f d rest in
    let ret = db_reset_stmt true (reset_schema up) in repeat_if ret again (ret, d)

-- The variables of `db_exec_id_rtrvl_stmt`, with the bytes that it wrote to `outdata`.
pub record Retrieved : Type 0 where
  pub written : List ℕ
  pub len : ℕ
  pub add_len : ℕ
  pub cont_id : ℕ

abbrev pub start : Retrieved
start = record { written = []; len = 0; add_len = 0; cont_id = 0 }

-- What one row does, before the test of `add_len`.
pub place : ℕ → Retrieved → ℕ → Retrieved
place alloc_len s id =
    if leb 8 ((alloc_len + 2 ^ 64 - s.len) % 2 ^ 64)
    then record s { written = s.written ++ set_htonll id; len = (s.len + 8) % 2 ^ 64 }
    else if s.cont_id == 0
    then record s { cont_id = id }
    else s

pub db_exec_id_rtrvl_stmt : ℕ → Retrieved → Answers ℕ → Ret × Retrieved
db_exec_id_rtrvl_stmt alloc_len s unbound = (db_reset_stmt false reset_ok, s)
db_exec_id_rtrvl_stmt alloc_len s done = (db_reset_stmt true reset_ok, s)
db_exec_id_rtrvl_stmt alloc_len s failed = (db_reset_stmt true reset_error, s)
db_exec_id_rtrvl_stmt alloc_len s (busy rest) = db_exec_id_rtrvl_stmt alloc_len s rest
db_exec_id_rtrvl_stmt alloc_len s (row id rest) =
    let placed = place alloc_len s id in
    let next =
      db_exec_id_rtrvl_stmt alloc_len (record placed { add_len = (placed.add_len + 8) % 2 ^ 64 })
        rest in
    if ltb placed.add_len ((placed.add_len + 8) % 2 ^ 64)
    then next
    else (db_reset_stmt true reset_ok, record placed { add_len = 2 ^ 64 - 1 })
db_exec_id_rtrvl_stmt alloc_len s (schema up rest) =
    let again = db_exec_id_rtrvl_stmt alloc_len start rest in
    let ret = db_reset_stmt true (reset_schema up) in repeat_if ret again (ret, s)
