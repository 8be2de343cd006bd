-- ===== src/Device/Remove.antt =====
-- The handlers of osd-target/osd.c that remove an object.
pub mod Rows
pub mod Containers
use viji_osc_osd.Base.{ℕ, Bool, true, false, not, ◌&&◌, ◌||◌, ltb, leb, ◌==◌, if◌then◌else◌}
use viji_osc_osd.Db.{Ret, is_ok}
use viji_osc_osd.Store.{Sqlite, partition_oid, userobject, collection, partition}
use viji_osc_osd.Store.Obj.{obj_ispresent, obj_isempty_pid, obj_delete}
use viji_osc_osd.Store.Coll.{attr_delete_all, coll_delete_oid, coll_delete_cid, coll_isempty_cid}
use viji_osc_osd.Files.{Files}
use viji_osc_osd.Exec.{Exec, sdd, pure, raise, ◌>>=◌, ◌>>◌, leave_if}
use viji_osc_osd.Device.{
  Device, object_lb, missing, cdb_err, hw_err, db, sys, invalidate, fill_ccap,
}
use viji_osc_osd.Sense.{illegal_request, part_or_coll_contains_user_objects}

module _ {q : Sqlite} {f : Files} where
  -- `if (ret != 0) goto label;` with a label that only builds the reply.
  abbrev pub require_ok : Exec (Device q f) Unit → Ret → Exec (Device q f) Unit
  require_ok label ret = leave_if (not (is_ok ret)) label

  unfoldable pub osd_remove : ℕ → ℕ → Exec (Device q f) Unit
  osd_remove pid oid = do
    leave_if (not (leb object_lb pid && leb object_lb oid)) (raise (cdb_err pid oid))
    invalidate
    sys (f.unlink pid oid)
    deleted ← db (attr_delete_all q pid oid)
    require_ok (raise (hw_err pid oid)) deleted
    left ← db (coll_delete_oid q pid oid)
    require_ok (raise (hw_err pid oid)) left
    removed ← db (obj_delete q pid oid)
    require_ok (raise (hw_err pid oid)) removed
    fill_ccap userobject pid oid 0

  -- `if (!isempty) { ... }`
  empty_collection : ℕ → ℕ → ℕ → Bool → Exec (Device q f) Unit
  empty_collection pid cid fcr true = pure tt
  empty_collection pid cid fcr false = do
    leave_if (fcr == 0) (raise (sdd illegal_request part_or_coll_contains_user_objects pid cid))
    deleted ← db (coll_delete_cid q pid cid)
    require_ok (raise (hw_err pid cid)) deleted

  pub osd_remove_collection : ℕ → ℕ → ℕ → Exec (Device q f) Unit
  osd_remove_collection pid cid fcr = do
    leave_if (pid == 0 || ltb pid object_lb) (raise (cdb_err pid cid))
    leave_if (ltb cid object_lb) (raise (cdb_err pid cid))
    found ← db (obj_ispresent q pid cid)
    leave_if (missing found) (raise (cdb_err pid cid))
    invalidate
    (ret, isempty) ← db (coll_isempty_cid q pid cid)
    require_ok (raise (hw_err pid cid)) ret
    empty_collection pid cid fcr isempty
    deleted ← db (attr_delete_all q pid cid)
    require_ok (raise (hw_err pid cid)) deleted
    removed ← db (obj_delete q pid cid)
    require_ok (raise (hw_err pid cid)) removed
    fill_ccap collection pid cid 0

  pub osd_remove_partition : ℕ → Exec (Device q f) Unit
  osd_remove_partition pid = do
    leave_if (pid == 0) (raise (cdb_err pid partition_oid))
    (ret, isempty) ← db (obj_isempty_pid q pid)
    leave_if (not (is_ok ret) || not isempty)
        (raise (sdd illegal_request part_or_coll_contains_user_objects pid partition_oid))
    invalidate
    deleted ← db (attr_delete_all q pid partition_oid)
    require_ok (raise (hw_err pid partition_oid)) deleted
    removed ← db (obj_delete q pid partition_oid)
    require_ok (raise (hw_err pid partition_oid)) removed
    fill_ccap partition pid partition_oid 0
