-- ===== src/Device/Attributes/Setting.antt =====
-- The handlers of osd-target/osd.c that set attributes, of an object and of the members of a collection,
-- with `mtq_set_member_attrs` of osd-target/mtq.c. `isembedded` is true.
pub mod Defines
use viji_osc_osd.Base.{
  ℕ, Bool, true, false, not, ◌&&◌, ◌||◌, List, [], ◌∷◌, take, any, ltb, ◌==◌, if◌then◌else◌,
}
use viji_osc_osd.Db.{Answers, unbound, done, failed, busy, row, schema}
use viji_osc_osd.Store.{Sqlite, Stmt, userobject, collection}
use viji_osc_osd.Store.Obj.{obj_ispresent}
use viji_osc_osd.Store.Coll.{attr_delete_attr}
use viji_osc_osd.Files.{Files}
use viji_osc_osd.Exec.{
  Exec, Exit, Reply, value, reply, unfinished, pure, raise, ◌>>=◌, ◌>>◌, leave_if, assert, on_error,
  failing_as,
}
use viji_osc_osd.Page.{issettable_page}
use viji_osc_osd.Device.{Device, missing, cdb_err, hw_err, db, fill_ccap}
use viji_osc_osd.Device.Remove.{require_ok}
use viji_osc_osd.Device.Members.{set_cap}
use viji_osc_osd.Device.Attributes.{user_info_pg, root_info_pg}
use viji_osc_osd.Device.Attributes.Info.{set_row, set_uiap, set_riap}
use viji_osc_osd.Device.Attributes.Getting.{illegal_obj, param_list_err, obj_type_of, require_attr}

abbrev attrnum_unmodifiable : ℕ
attrnum_unmodifiable = 0xFFFFFFFF

abbrev user_coll_pg : ℕ
user_coll_pg = 4

-- The test of ATTRNUM_INFO: the name of a page has at most 40 bytes, one of them 0.
pub bad_name : ℕ → List ℕ → ℕ → Bool
bad_name number val len = number == 0 && (ltb 40 len || not (any (λ b. b == 0) (take len val)))

module _ {q : Sqlite} {f : Files} where
  -- The switch on the page, and what is behind it. `val` is never null.
  set_on_page : ℕ → ℕ → ℕ → ℕ → List ℕ → ℕ → Exec (Device q f) Unit
  set_on_page pid oid page number val len =
      let illegal = raise (cdb_err pid oid) in
      if page == user_info_pg
      then (set_uiap pid oid number val len >>= require_attr illegal)
      else if page == root_info_pg
      then (set_riap pid oid number val len >>= require_attr illegal)
      else if page == user_coll_pg
      then failing_as (cdb_err pid oid) (set_cap pid oid number val len)
      else if len == 0
      then (db (attr_delete_attr q pid oid page number) >>= require_ok illegal)
      else (set_row pid oid page number val len >>= require_attr (raise (hw_err pid oid)))

  pub osd_set_attributes : ℕ → ℕ → ℕ → ℕ → List ℕ → ℕ → Exec (Device q f) Unit
  osd_set_attributes pid oid page number val len = do
    found ← db (obj_ispresent q pid oid)
    leave_if (missing found) (raise (cdb_err pid oid))
    obj_type ← obj_type_of pid oid
    leave_if (obj_type == illegal_obj) (raise (cdb_err pid oid))
    leave_if (not (issettable_page obj_type page)) (raise (param_list_err pid oid))
    leave_if (number == attrnum_unmodifiable) (raise (param_list_err pid oid))
    leave_if (len == 0) (raise (cdb_err pid oid))
    leave_if (bad_name number val len) (raise (cdb_err pid oid))
    leave_if (ltb 0xFFFE len) (raise (param_list_err pid oid))
    set_on_page pid oid page number val len

-- The loop of `mtq_set_member_attrs`: it ends well when the first step that is not busy is the last.
all_done : Answers ℕ → Bool
all_done unbound = false
all_done done = true
all_done failed = false
all_done (busy rest) = all_done rest
all_done (row v rest) = false
all_done (schema up rest) = false

module _ (q : Sqlite) where
  -- Whether the result is 0.
  run_members : ℕ → ℕ → List (ℕ × ℕ × List ℕ) → q.Conn → Bool × q.Conn
  run_members pid cid set_attr c =
      let (answers, c') = q.run (Stmt.attr_setmembers pid cid set_attr) c in (all_done answers, c')

  pub mtq_set_member_attrs : ℕ → ℕ → List (ℕ × ℕ × List ℕ) → q.Conn → Bool × q.Conn
  mtq_set_member_attrs pid cid [] c = (true, c)
  mtq_set_member_attrs pid cid (e ∷ set_attr) c = run_members pid cid (e ∷ set_attr) c

-- `begin_txn` and `end_txn` are the functions that begin and end a transaction, and say whether they
-- succeeded.
module _ {q : Sqlite} {f : Files} (begin_txn end_txn : Exec (Device q f) Bool) where
  ended_txn : Exec (Device q f) Unit
  ended_txn = end_txn >>= assert

  set_members : ℕ → ℕ → List (ℕ × ℕ × List ℕ) → Exec (Device q f) Unit
  set_members pid cid set_attr = do
    found ← db (obj_ispresent q pid cid)
    leave_if (missing found) (raise (cdb_err pid cid))
    obj_type ← obj_type_of pid cid
    leave_if (not (obj_type == collection)) (raise (cdb_err pid cid))
    leave_if (any (λ e. not (issettable_page userobject e.0)) set_attr)
        (raise (param_list_err pid cid))
    set ← db (mtq_set_member_attrs q pid cid set_attr)
    leave_if (not set) (raise (hw_err pid cid))

  -- Every way out ends the transaction.
  pub osd_set_member_attributes : ℕ → ℕ → List (ℕ × ℕ × List ℕ) → Exec (Device q f) Unit
  osd_set_member_attributes pid cid set_attr = do
    begin_txn >>= assert
    on_error (set_members pid cid set_attr) ended_txn
    ended_txn
    fill_ccap collection pid cid 0
