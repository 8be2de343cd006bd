-- ===== src/Device/Lists.antt =====
-- The handlers of osd-target/osd.c that list the objects of the root, of a partition and of a collection.
use viji_osc_osd.Base.{
  ℕ, zero, suc, ◌+◌, ◌-◌, ◌^◌, Bool, not, ◌&&◌, Option, none, some, List, [], ◌∷◌, length, drop,
  replicate, ltb, ◌==◌, if◌then◌else◌,
}
use viji_osc_osd.Base.Bytes.{write_at}
use viji_osc_osd.Wire.{set_htonll}
use viji_osc_osd.Db.{Ret, Retrieved, is_ok}
use viji_osc_osd.Store.{Sqlite, collection, partition, partition_oid}
use viji_osc_osd.Store.Obj.{obj_get_all_pids, obj_get_oids_in_pid, obj_get_cids_in_pid}
use viji_osc_osd.Store.Coll.{coll_get_oids_in_cid}
use viji_osc_osd.Files.{Files}
use viji_osc_osd.Exec.{
  Exec, Exit, value, reply, unfinished, Reply, pure, raise, ◌>>=◌, ◌>>◌, leave_if, spin,
}
use viji_osc_osd.Io.{Transfer}
use viji_osc_osd.Device.{Device, object_lb, cdb_err, hw_err, add64, db, fill_ccap}
use viji_osc_osd.Device.ListedAttributes.{Listing, mtq_list_oids_attr}

-- `list_id` names a list to be continued, from the local `cont_id` on, which is still 0.
pub start_oid : ℕ → ℕ → ℕ
start_oid zero initial_oid = initial_oid
start_oid (suc n) initial_oid = 0

-- `add_len` with the 16 bytes behind its own field: all ones where that does not fit.
pub saturated : ℕ → ℕ
saturated add_len = if ltb add_len (add64 add_len 16) then add64 add_len 16 else 2 ^ 64 - 1

-- The header of 24 bytes: the additional length, the continuation, and at its end the format.
pub list_header : ℕ → ℕ → ℕ → List ℕ
list_header add_len cont_id format =
    write_at 23 (format ∷ [])
      (write_at 8 (set_htonll cont_id) (write_at 0 (set_htonll add_len) (replicate 24 0)))

-- The buffer after a list was retrieved behind the header.
pub with_list : ℕ → ℕ → Retrieved → List ℕ → Transfer
with_list add_len format r outdata = record {
  outdata = write_at 0 (list_header add_len r.cont_id format) (write_at 24 r.written outdata);
  used_outlen = add64 r.len 24;
  warning = none;
}

-- The buffer where only the header was cleared.
cleared : List ℕ → ℕ → Transfer
cleared outdata used = record {
  outdata = write_at 0 (replicate 24 0) outdata;
  used_outlen = used;
  warning = none;
}

module _ {q : Sqlite} {f : Files} where
  require_list : Reply → Ret × Retrieved → Exec (Device q f) Retrieved
  require_list label (r, got) = do leave_if (not (is_ok r)) (raise label); pure got

  -- The tests of both handlers. `sz` is the number of attributes that are asked for.
  list_tests : ℕ → ℕ → ℕ → Reply → Exec (Device q f) Unit
  list_tests list_attr alloc_len sz illegal = do
    leave_if (ltb alloc_len 24) (raise illegal)
    leave_if (list_attr == 0 && not (sz == 0)) (raise illegal)
    leave_if (list_attr == 1 && sz == 0) (raise illegal)

  partition_ids : ℕ → ℕ → ℕ → Exec (Device q f) (Ret × Retrieved)
  partition_ids pid initial_oid alloc_len =
      if pid == 0
      then db (obj_get_all_pids q initial_oid alloc_len)
      else db (obj_get_oids_in_pid q pid initial_oid alloc_len)

  list_plain : ℕ → ℕ → ℕ → List ℕ → Exec (Device q f) Transfer
  list_plain pid initial_oid alloc_len outdata = do
    result ← partition_ids pid initial_oid (alloc_len - 24)
    r ← require_list (hw_err pid initial_oid) result
    pure (with_list (saturated r.add_len) 0x84 r outdata)

  require_listing : Reply → Exit (Option Listing) → Exec (Device q f) Listing
  require_listing label (value none) = raise label
  require_listing label (value (some l)) = pure l
  require_listing label (reply r) = raise r
  require_listing label unfinished = spin

  -- The list is written behind the header.
  list_with_attrs : Bool → ℕ → ℕ → ℕ → List (ℕ × ℕ) → ℕ → List ℕ → ℕ → Exec (Device q f) Transfer
  list_with_attrs ndebug addr pid initial_oid entries alloc_len outdata used = do
    result ← db (
        mtq_list_oids_attr ndebug (addr + 24) q pid initial_oid entries (alloc_len - 24)
          (drop 24 outdata) used)
    l ← require_listing (hw_err pid initial_oid) result
    pure (
        with_list (saturated l.add_len) 0x88
          (record {
            written = l.mem;
            len = l.used_outlen;
            add_len = l.add_len;
            cont_id = l.cont_id;
          })
          outdata)

  list_partition :
      Bool → ℕ → ℕ → ℕ → ℕ → ℕ → List (ℕ × ℕ) → ℕ → List ℕ → ℕ → Exec (Device q f) Transfer
  list_partition ndebug addr list_attr pid alloc_len initial_oid entries list_id outdata used =
      let sz = length entries in
      if list_attr == 0 && sz == 0
      then list_plain pid (start_oid list_id initial_oid) alloc_len outdata
      else if list_attr == 1 && (not (sz == 0) && not (pid == 0))
      then list_with_attrs ndebug addr pid (start_oid list_id initial_oid) entries alloc_len outdata
          used
      else pure (cleared outdata used)

  -- `ndebug` says whether assertions are compiled out, and `addr` is the address of `outdata`. The
  -- caller's `*used_outlen` holds `used` before.
  pub osd_list :
      Bool → ℕ → ℕ → ℕ → ℕ → ℕ → List (ℕ × ℕ) → ℕ → List ℕ → ℕ → Exec (Device q f) Transfer
  osd_list ndebug addr list_attr pid zero initial_oid entries list_id outdata used =
      pure (record { outdata = outdata; used_outlen = used; warning = none })
  osd_list ndebug addr list_attr pid (suc n) initial_oid entries list_id outdata used = do
    list_tests list_attr (suc n) (length entries) (cdb_err pid initial_oid)
    t ← list_partition ndebug addr list_attr pid (suc n) initial_oid entries list_id outdata used
    fill_ccap partition pid partition_oid 0
    pure t

  collection_ids : ℕ → ℕ → ℕ → ℕ → Exec (Device q f) (Ret × Retrieved)
  collection_ids pid cid initial_oid alloc_len =
      if cid == 0
      then db (obj_get_cids_in_pid q pid initial_oid alloc_len)
      else db (coll_get_oids_in_cid q pid cid initial_oid alloc_len)

  -- Here the length may wrap around.
  list_members : ℕ → ℕ → ℕ → ℕ → List ℕ → Exec (Device q f) Transfer
  list_members pid cid initial_oid alloc_len outdata = do
    result ← collection_ids pid cid initial_oid (alloc_len - 24)
    r ← require_list (hw_err pid initial_oid) result
    pure (with_list (add64 r.add_len 16) 0x84 r outdata)

  list_of_collection : ℕ → ℕ → ℕ → ℕ → ℕ → ℕ → ℕ → List ℕ → ℕ → Exec (Device q f) Transfer
  list_of_collection list_attr pid cid alloc_len initial_oid sz list_id outdata used =
      if list_attr == 0 && sz == 0
      then list_members pid cid (start_oid list_id initial_oid) alloc_len outdata
      else if list_attr == 1 && (not (sz == 0) && not (cid == 0))
      then raise (cdb_err pid (start_oid list_id initial_oid))
      else pure (cleared outdata used)

  pub osd_list_collection : ℕ → ℕ → ℕ → ℕ → ℕ → ℕ → ℕ → List ℕ → ℕ → Exec (Device q f) Transfer
  osd_list_collection list_attr pid cid zero initial_oid sz list_id outdata used =
      pure (record { outdata = outdata; used_outlen = used; warning = none })
  osd_list_collection list_attr pid cid (suc n) initial_oid sz list_id outdata used = do
    list_tests list_attr (suc n) sz (cdb_err pid initial_oid)
    t ← list_of_collection list_attr pid cid (suc n) initial_oid sz list_id outdata used
    fill_ccap collection pid object_lb 0
    pure t
