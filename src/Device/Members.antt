-- ===== src/Device/Members.antt =====
-- The handlers of osd-target/osd.c on the members of collections, and `osd_copy_user_objects`, whose
-- copying is still to be written in the source.
use viji_osc_osd.Base.{ℕ, zero, suc, Bool, true, not, ◌&&◌, ◌||◌, List, ltb, ◌==◌, if◌then◌else◌}
use viji_osc_osd.Db.{Ret}
use viji_osc_osd.Wire.{get_ntohll}
use viji_osc_osd.Store.{Sqlite, partition_oid, userobject, collection}
use viji_osc_osd.Store.Obj.{obj_ispresent, obj_insert}
use viji_osc_osd.Store.Coll.{coll_copyoids, coll_get_cid, coll_delete, coll_insert}
use viji_osc_osd.Files.{Files}
use viji_osc_osd.Exec.{Exec, Reply, osd_error_reply, pure, raise, ◌>>=◌, ◌>>◌, leave_if}
use viji_osc_osd.Device.{
  Device, object_lb, missing, cdb_err, hw_err, db, fill_ccap, out_hw_err, pick_id,
}
use viji_osc_osd.Device.Remove.{require_ok}

-- The bounds of osd-util/osd-defs.h.
abbrev linked_collection_oid_lb : ℕ
linked_collection_oid_lb = object_lb

abbrev tracking_collection_oid_lb : ℕ
tracking_collection_oid_lb = 1

abbrev is_linked_coll : ℕ → Bool
is_linked_coll source_cid = ltb linked_collection_oid_lb source_cid

-- The body assigns 0x1082 to its argument and returns it.
abbrev is_tracking_coll : ℕ → Bool
is_tracking_coll source_cid = true

abbrev is_spontaneous_coll : ℕ → Bool
is_spontaneous_coll source_cid = ltb source_cid tracking_collection_oid_lb

module _ {q : Sqlite} {f : Files} where
  require_present : ℕ → ℕ → Reply → Exec (Device q f) Unit
  require_present pid oid illegal = do
    found ← db (obj_ispresent q pid oid)
    leave_if (missing found) (raise illegal)

  copy_members : ℕ → ℕ → ℕ → Reply → Exec (Device q f) Unit
  copy_members pid cid zero hw = pure tt
  copy_members pid cid (suc n) hw = do
    copied ← db (coll_copyoids q pid cid (suc n))
    require_ok (out_hw_err hw) copied

  -- `to_do_1`, `to_do_2` and `to_do_3` are 0: the tests that they guard are left out.
  pub osd_create_user_tracking_collection : ℕ → ℕ → ℕ → ℕ → Exec (Device q f) Unit
  osd_create_user_tracking_collection pid requested_cid source_cid cdb_cont_len = do
    let illegal = cdb_err requested_cid 0
    let hw = hw_err requested_cid 0
    leave_if (pid == 0 || ltb pid object_lb) (raise illegal)
    leave_if (not (requested_cid == 0) && ltb requested_cid object_lb) (raise illegal)
    require_present pid partition_oid illegal
    require_present pid source_cid illegal
    leave_if
        (not (source_cid == 0) && cdb_cont_len == 0 || source_cid == 0 && not (cdb_cont_len == 0))
        (raise illegal)
    leave_if
        (not (source_cid == 0)
          && (not (is_linked_coll source_cid)
              && (not (is_tracking_coll source_cid) && not (is_spontaneous_coll source_cid))))
        (raise illegal)
    cid ← pick_id pid requested_cid illegal hw
    copy_members pid cid source_cid hw
    inserted ← db (obj_insert q pid cid collection)
    require_ok (raise illegal) inserted
    fill_ccap collection pid cid 0

  -- The fields of `struct copy_user_object_source` are the bytes of the descriptor.
  pub osd_copy_user_objects : ℕ → ℕ → List ℕ → List ℕ → Exec (Device q f) Unit
  osd_copy_user_objects pid requested_oid source_pid source_oid = do
    let illegal = cdb_err pid requested_oid
    leave_if (pid == 0 || ltb pid object_lb) (raise illegal)
    leave_if (not (requested_oid == 0) && ltb requested_oid object_lb) (raise illegal)
    require_present (get_ntohll source_pid) partition_oid illegal
    require_present (get_ntohll source_pid) (get_ntohll source_oid) illegal
    require_present pid partition_oid illegal
    oid ← pick_id pid requested_oid illegal (hw_err pid requested_oid)
    fill_ccap userobject pid oid 0

  failed_unless_ok : Ret → Exec (Device q f) Unit
  failed_unless_ok = require_ok (raise osd_error_reply)

  set_pointer : ℕ → ℕ → ℕ → List ℕ → Exec (Device q f) Unit
  set_pointer pid oid number val = do
    let cid = get_ntohll val
    found ← db (obj_ispresent q pid cid)
    leave_if (missing found) (raise osd_error_reply)
    inserted ← db (coll_insert q pid cid oid number)
    failed_unless_ok inserted

  clear_pointer : ℕ → ℕ → ℕ → Exec (Device q f) Unit
  clear_pointer pid oid number = do
    (ret, cid) ← db (coll_get_cid q pid oid number 0)
    failed_unless_ok ret
    deleted ← db (coll_delete q pid cid oid)
    failed_unless_ok deleted

  -- By the length of the value: 0 removes the membership, and 8 bytes name a collection.
  set_or_clear : ℕ → ℕ → ℕ → List ℕ → ℕ → Exec (Device q f) Unit
  set_or_clear pid oid number val len =
      if len == 0
      then clear_pointer pid oid number
      else if not (len == 8)
      then raise osd_error_reply
      else set_pointer pid oid number val

  pub set_cap : ℕ → ℕ → ℕ → List ℕ → ℕ → Exec (Device q f) Unit
  set_cap pid oid number val len = do
    leave_if (ltb number 0x1 || ltb 0xFFFFFF00 number) (raise osd_error_reply)
    set_or_clear pid oid number val len
