-- ===== src/Device/Create.antt =====
-- The handlers of osd-target/osd.c that create an object.
pub mod Objects
pub mod Others
pub mod Partition
use viji_osc_osd.Base.{
  ℕ, zero, suc, ◌+◌, ◌-◌, ◌%◌, ◌^◌, Bool, true, false, not, ◌&&◌, ◌||◌, ltb, ◌==◌, if◌then◌else◌,
}
use viji_osc_osd.Db.{Ret, is_ok}
use viji_osc_osd.Store.{Sqlite, partition_oid, userobject, collection, partition}
use viji_osc_osd.Store.Obj.{obj_ispresent, obj_insert, obj_delete, obj_get_nextpid}
use viji_osc_osd.Files.{Files}
use viji_osc_osd.Exec.{Reply, Exec, pure, raise, ◌>>=◌, ◌>>◌, modify, leave_if, ignore}
use viji_osc_osd.Device.{
  Device, object_lb, add64, missing, cdb_err, hw_err, db, invalidate, fill_ccap, out_hw_err,
  osd_create_datafile, pick_id,
}
use viji_osc_osd.Device.Remove.{osd_remove, require_ok}

module _ {q : Sqlite} {f : Files} where
  -- The `n` identifiers from `j` on.
  pub osd_remove_tmp_objects : ℕ → ℕ → ℕ → Exec (Device q f) Unit
  osd_remove_tmp_objects pid j zero = pure tt
  osd_remove_tmp_objects pid j (suc n) =
      let rest = osd_remove_tmp_objects pid (j + 1) n in do ignore (osd_remove pid j); rest

  -- One round of the loop of `osd_create`: the object `oid + k`, after k others.
  pub create_one : ℕ → ℕ → ℕ → Reply → Exec (Device q f) Unit
  create_one pid oid k hw = do
    inserted ← db (obj_insert q pid (oid + k) userobject)
    leave_if (not (is_ok inserted)) (osd_remove_tmp_objects pid oid k >> out_hw_err hw)
    created ← osd_create_datafile pid (oid + k)
    leave_if (not (is_ok created))
        (db (obj_delete q pid (oid + k)) >> osd_remove_tmp_objects pid oid k >> out_hw_err hw)

  -- The rounds from the k-th on, `n` of them.
  pub create_rounds : ℕ → ℕ → ℕ → ℕ → Reply → Exec (Device q f) Unit
  create_rounds pid oid k zero hw = pure tt
  create_rounds pid oid k (suc n) hw =
      let rest = create_rounds pid oid (suc k) n hw in do create_one pid oid k hw; rest

  -- `i < oid + numoid` is tested with 64 bits: from `oid` on, that many rounds.
  pub osd_create : ℕ → ℕ → ℕ → Exec (Device q f) Unit
  osd_create pid requested_oid numoid = do
    let illegal = cdb_err pid requested_oid
    let hw = hw_err pid requested_oid
    leave_if (pid == 0 || ltb pid object_lb) (raise illegal)
    leave_if (not (requested_oid == 0) && ltb requested_oid object_lb) (raise illegal)
    part ← db (obj_ispresent q pid partition_oid)
    leave_if (missing part) (raise illegal)
    leave_if (ltb 1 numoid && not (requested_oid == 0)) (raise illegal)
    oid ← pick_id pid requested_oid illegal hw
    let count = if numoid == 0 then 1 else numoid
    create_rounds pid oid 0 (add64 oid count - oid) hw
    modify (λ d. record d { ic = record d.ic { next_id = add64 d.ic.next_id (count - 1) } })
    fill_ccap userobject pid (add64 oid (count - 1)) 0

  pub osd_create_collection : ℕ → ℕ → Exec (Device q f) Unit
  osd_create_collection pid requested_cid = do
    let illegal = cdb_err requested_cid 0
    leave_if (pid == 0 || ltb pid object_lb) (raise illegal)
    leave_if (not (requested_cid == 0) && ltb requested_cid object_lb) (raise illegal)
    part ← db (obj_ispresent q pid partition_oid)
    leave_if (missing part) (raise illegal)
    cid ← pick_id pid requested_cid illegal (hw_err requested_cid 0)
    inserted ← db (obj_insert q pid cid collection)
    require_ok (raise illegal) inserted
    fill_ccap collection pid cid 0

  unfoldable pub pick_pid : ℕ → Exec (Device q f) ℕ
  pick_pid zero = do
    (r, pid) ← db (obj_get_nextpid q)
    require_ok (raise (hw_err 0 0)) r
    pure (if pid == 1 then object_lb else pid)
  pick_pid (suc n) = pure (suc n)

  unfoldable pub osd_create_partition : ℕ → Exec (Device q f) Unit
  osd_create_partition requested_pid = do
    leave_if (not (requested_pid == 0) && ltb requested_pid object_lb)
        (raise (cdb_err requested_pid 0))
    pid ← pick_pid requested_pid
    inserted ← db (obj_insert q pid partition_oid partition)
    require_ok (raise (cdb_err requested_pid 0)) inserted
    fill_ccap partition pid partition_oid 0
