-- ===== src/Store/Obj.antt =====
-- The functions of osd-target/obj.c on a connection. The label `repeat` and the jump to it are in the
-- runners of Db; binding the values is part of an execution. Counts are below 2 ^ 31, so that
-- `sqlite3_column_int` reads them.
use viji_osc_osd.Base.{ℕ, ◌+◌, ◌%◌, ◌^◌, Bool, false, ◌==◌}
use viji_osc_osd.Db.{Ret, Retrieved, start, db_exec_dms, first_row, db_exec_id_rtrvl_stmt}
use viji_osc_osd.Store.{Sqlite, Stmt}

module _ (q : Sqlite) where
  -- An execution that changes rows, one that reads a single column of the first row, and one that
  -- lists ids.
  abbrev pub exec_dms : Stmt → q.Conn → Ret × q.Conn
  exec_dms s c = let (answers, c') = q.run s c in (db_exec_dms answers, c')

  abbrev pub exec_row {ℓ} : {B : Type ℓ} → Stmt → (ℕ → B) → B → q.Conn → (Ret × B) × q.Conn
  exec_row s f d c = let (answers, c') = q.run s c in (first_row f d answers, c')

  abbrev pub exec_ids : Stmt → ℕ → q.Conn → (Ret × Retrieved) × q.Conn
  exec_ids s alloc_len c =
      let (answers, c') = q.run s c in (db_exec_id_rtrvl_stmt alloc_len start answers, c')

  unfoldable pub obj_insert : ℕ → ℕ → ℕ → q.Conn → Ret × q.Conn
  obj_insert pid oid type = exec_dms (Stmt.obj_insert pid oid type)

  unfoldable pub obj_delete : ℕ → ℕ → q.Conn → Ret × q.Conn
  obj_delete pid oid = exec_dms (Stmt.obj_delete pid oid)

  obj_delete_pid : ℕ → q.Conn → Ret × q.Conn
  obj_delete_pid pid = exec_dms (Stmt.obj_delpid pid)

  -- The callers' variables hold 0 before the calls of these two.
  unfoldable pub obj_get_nextoid : ℕ → q.Conn → (Ret × ℕ) × q.Conn
  obj_get_nextoid pid = exec_row (Stmt.obj_nextoid pid) (λ v. (v + 1) % 2 ^ 64) 0

  unfoldable pub obj_get_nextpid : q.Conn → (Ret × ℕ) × q.Conn
  obj_get_nextpid = exec_row Stmt.obj_nextpid (λ v. (v + 1) % 2 ^ 64) 0

  -- `*present`
  unfoldable pub obj_ispresent : ℕ → ℕ → q.Conn → (Ret × ℕ) × q.Conn
  obj_ispresent pid oid = exec_row (Stmt.obj_isprsnt pid oid) (λ v. v) 0

  -- `*isempty`. `sqlite3_column_int` gives the low 32 bits of a count.
  unfoldable pub obj_isempty_pid : ℕ → q.Conn → (Ret × Bool) × q.Conn
  obj_isempty_pid pid = exec_row (Stmt.obj_emptypid pid) (λ v. 0 == v % 2 ^ 32) false

  -- `*obj_type`, from ILLEGAL_OBJ on.
  unfoldable pub obj_get_type : ℕ → ℕ → q.Conn → (Ret × ℕ) × q.Conn
  obj_get_type pid oid = exec_row (Stmt.obj_gettype pid oid) (λ v. v % 2 ^ 8) 0

  pub obj_get_oids_in_pid : ℕ → ℕ → ℕ → q.Conn → (Ret × Retrieved) × q.Conn
  obj_get_oids_in_pid pid initial_oid = exec_ids (Stmt.obj_getoids pid initial_oid)

  pub obj_get_cids_in_pid : ℕ → ℕ → ℕ → q.Conn → (Ret × Retrieved) × q.Conn
  obj_get_cids_in_pid pid initial_cid = exec_ids (Stmt.obj_getcids pid initial_cid)

  pub obj_get_all_pids : ℕ → ℕ → q.Conn → (Ret × Retrieved) × q.Conn
  obj_get_all_pids initial_pid = exec_ids (Stmt.obj_getpids initial_pid)
