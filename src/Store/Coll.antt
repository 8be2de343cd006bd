-- ===== src/Store/Coll.antt =====
-- The functions of osd-target/coll.c on a connection, and of osd-target/attr.c those that the
-- operations below use: both as in Obj.
use viji_osc_osd.Base.{◌%◌, ◌^◌, ℕ, Bool, false, ◌==◌, List}
use viji_osc_osd.Db.{Ret, Retrieved}
use viji_osc_osd.Store.{Sqlite, Stmt}
use viji_osc_osd.Store.Obj.{exec_dms, exec_row, exec_ids}

module _ (q : Sqlite) where
  pub coll_insert : ℕ → ℕ → ℕ → ℕ → q.Conn → Ret × q.Conn
  coll_insert pid cid oid number = exec_dms q (Stmt.coll_insert pid cid oid number)

  unfoldable pub coll_copyoids : ℕ → ℕ → ℕ → q.Conn → Ret × q.Conn
  coll_copyoids pid dest_cid source_cid = exec_dms q (Stmt.coll_copyoids pid dest_cid source_cid)

  pub coll_delete : ℕ → ℕ → ℕ → q.Conn → Ret × q.Conn
  coll_delete pid cid oid = exec_dms q (Stmt.coll_delete pid cid oid)

  unfoldable pub coll_delete_cid : ℕ → ℕ → q.Conn → Ret × q.Conn
  coll_delete_cid pid cid = exec_dms q (Stmt.coll_delcid pid cid)

  unfoldable pub coll_delete_oid : ℕ → ℕ → q.Conn → Ret × q.Conn
  coll_delete_oid pid oid = exec_dms q (Stmt.coll_deloid pid oid)

  -- `*isempty`. `sqlite3_column_int` gives the low 32 bits of a count.
  unfoldable pub coll_isempty_cid : ℕ → ℕ → q.Conn → (Ret × Bool) × q.Conn
  coll_isempty_cid pid cid = exec_row q (Stmt.coll_emptycid pid cid) (λ v. 0 == v % 2 ^ 32) false

  -- `cid` is the caller's variable.
  pub coll_get_cid : ℕ → ℕ → ℕ → ℕ → q.Conn → (Ret × ℕ) × q.Conn
  coll_get_cid pid oid number cid = exec_row q (Stmt.coll_getcid pid oid number) (λ v. v) cid

  pub coll_get_oids_in_cid : ℕ → ℕ → ℕ → ℕ → q.Conn → (Ret × Retrieved) × q.Conn
  coll_get_oids_in_cid pid cid initial_oid = exec_ids q (Stmt.coll_getoids pid cid initial_oid)

  unfoldable pub set_attr : ℕ → ℕ → ℕ → ℕ → List ℕ → q.Conn → Ret × q.Conn
  set_attr pid oid page number val = exec_dms q (Stmt.attr_setattr pid oid page number val)

  unfoldable pub attr_delete_attr : ℕ → ℕ → ℕ → ℕ → q.Conn → Ret × q.Conn
  attr_delete_attr pid oid page number = exec_dms q (Stmt.attr_delattr pid oid page number)

  unfoldable pub attr_delete_all : ℕ → ℕ → q.Conn → Ret × q.Conn
  attr_delete_all pid oid = exec_dms q (Stmt.attr_delall pid oid)
