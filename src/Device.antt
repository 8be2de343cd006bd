-- ===== src/Device.antt =====
-- The handlers of osd-target/osd.c that create and remove objects, as actions on the device: the
-- database connection, the file system, the cache of object identifiers and the current command
-- attributes page. Where the code builds sense data and returns, the model leaves with that reply.
pub mod Remove
pub mod Create
pub mod Members
pub mod Calls
pub mod Cache
pub mod Attributes
pub mod Atomics
pub mod ListedAttributes
pub mod Lists
pub mod Queries
use viji_osc_osd.Base.{
  ℕ, zero, suc, ◌+◌, ◌-◌, ◌%◌, ◌^◌, Bool, true, false, not, ◌||◌, Option, none, some, ltb, ◌==◌,
  if◌then◌else◌,
}
use viji_osc_osd.Db.{Ret, osd_ok, osd_error, eexist, is_ok}
use viji_osc_osd.Store.{Sqlite, partition_oid}
use viji_osc_osd.Store.Obj.{obj_ispresent, obj_get_nextoid}
use viji_osc_osd.Files.{Files, Stat, regular, special, absent, stat_error}
use viji_osc_osd.Exec.{Reply, sdd, Exec, pure, raise, ◌>>=◌, ◌>>◌, modify, leave_if, value, reply}
use viji_osc_osd.Sense.{illegal_request, hardware_error, invalid_field_in_cdb}

-- The bounds of osd-util/osd-defs.h: OBJECT_PID_LB, which the others equal.
abbrev pub object_lb : ℕ
object_lb = 0x10000

abbrev pub add64 : ℕ → ℕ → ℕ
add64 a b = (a + b) % 2 ^ 64

abbrev pub sub64 : ℕ → ℕ → ℕ
sub64 a b = (a + 2 ^ 64 - b) % 2 ^ 64

-- `struct cur_cmd_attr_pg`, the fields that `fill_ccap` sets with a null `ricv`.
pub record Ccap : Type 0 where
  pub obj_type : ℕ
  pub pid : ℕ
  pub oid : ℕ
  pub append_off : ℕ

-- `struct id_cache`
pub record IdCache : Type 0 where
  pub cur_pid : ℕ
  pub next_id : ℕ

-- `struct osd_device`
pub record Device (q : Sqlite) (f : Files) : Type 0 where
  pub conn : q.Conn
  pub fs : f.Fs
  pub ic : IdCache
  pub ccap : Ccap

abbrev pub no_ids : IdCache
no_ids = record { cur_pid = 0; next_id = 0 }

-- `!present || ret != OSD_OK`
abbrev pub missing : Ret × ℕ → Bool
missing (r, present) = not (is_ok r) || present == 0

-- `present || ret != OSD_OK`
abbrev pub taken : Ret × ℕ → Bool
taken (r, present) = not (is_ok r) || not (present == 0)

abbrev pub cdb_err : ℕ → ℕ → Reply
cdb_err = sdd illegal_request invalid_field_in_cdb

abbrev pub hw_err : ℕ → ℕ → Reply
hw_err = sdd hardware_error invalid_field_in_cdb

-- What `creat` returned, and the descriptor to be closed: 0 is a result without error, but is not
-- closed.
abbrev pub opened : Option ℕ → Ret × Option ℕ
opened none = (osd_error, none)
opened (some zero) = (osd_ok, none)
opened (some (suc n)) = (osd_ok, some (suc n))

module _ {q : Sqlite} {f : Files} where
  -- A call on the database, and one on the file system.
  abbrev pub db : {A : Type 0} → (q.Conn → A × q.Conn) → Exec (Device q f) A
  db call d = let (a, c) = call d.conn in (value a, record d { conn = c })

  abbrev pub sys : {A : Type 0} → (f.Fs → A × f.Fs) → Exec (Device q f) A
  sys call d = let (a, s) = call d.fs in (value a, record d { fs = s })

  abbrev pub invalidate : Exec (Device q f) Unit
  invalidate = modify (λ d. record d { ic = no_ids })

  unfoldable pub fill_ccap : ℕ → ℕ → ℕ → ℕ → Exec (Device q f) Unit
  fill_ccap type pid oid off =
      modify (λ d. record d {
        ccap = record { obj_type = type; pid = pid; oid = oid; append_off = off };
      })

  -- The label of the creating handlers that gives up the cache.
  abbrev pub out_hw_err : {A : Type 0} → Reply → Exec (Device q f) A
  out_hw_err r = invalidate >> raise r

  -- The new file's descriptor is closed, unless it is 0.
  pub close_new : Ret × Option ℕ → Exec (Device q f) Ret
  close_new (r, none) = pure r
  close_new (r, some fd) = do sys (f.close fd); pure r

  pub create_at : ℕ → ℕ → Stat → Exec (Device q f) Ret
  create_at pid oid (regular size) = pure eexist
  create_at pid oid (special size) = pure osd_ok
  create_at pid oid stat_error = pure osd_error
  create_at pid oid absent = do fd ← sys (f.creat pid oid); close_new (opened fd)

  pub osd_create_datafile : ℕ → ℕ → Exec (Device q f) Ret
  osd_create_datafile pid oid d = create_at pid oid (f.stat pid oid d.fs) d

  -- The next identifier in a partition, 1 where it has none: from the table, or from the cache.
  pub table_id : ℕ → Reply → Exec (Device q f) ℕ
  table_id pid hw = do
    (r, id) ← db (obj_get_nextoid q pid)
    leave_if (not (is_ok r)) (out_hw_err hw)
    modify (λ d. record d { ic = record { cur_pid = pid; next_id = add64 id 1 } })
    pure id

  pub cached_id : ℕ → Reply → Exec (Device q f) ℕ
  cached_id pid hw d =
      if d.ic.cur_pid == pid
      then (value d.ic.next_id, record d { ic = record d.ic { next_id = add64 d.ic.next_id 1 } })
      else table_id pid hw d

  -- The first identifier of a partition.
  pub first_id : ℕ → Exec (Device q f) ℕ
  first_id id d =
      if id == 1
      then (value object_lb, record d { ic = record d.ic { next_id = add64 object_lb 1 } })
      else (value id, d)

  -- How a creating handler picks the identifier: the one that was asked for, when it is free, or a new
  -- one. `illegal` and `hw` are the replies of its two labels.
  pub pick_id : ℕ → ℕ → Reply → Reply → Exec (Device q f) ℕ
  pick_id pid zero illegal hw = do id ← cached_id pid hw; first_id id
  pick_id pid (suc n) illegal hw = do
    found ← db (obj_ispresent q pid (suc n))
    leave_if (taken found) (raise illegal)
    invalidate
    pure (suc n)
