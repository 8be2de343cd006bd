-- ===== src/Device/Atomics.antt =====
-- The atomic operations on attributes of osd-target/osd.c: compare and swap, fetch and add, and the
-- general compare and swap. `stack` is the local variable that an attribute is read into, which is not
-- initialized.
pub mod Register
pub mod Steps
pub mod Operations
use viji_osc_osd.Base.{
  ℕ, ◌+◌, ◌*◌, ◌/◌, ◌%◌, ◌^◌, ◌<◌, ◌≡◌, Bool, true, false, not, ◌&&◌, ◌||◌, Option, none, some,
  List, [], ◌∷◌, take, replicate, ltb, ◌==◌, if◌then◌else◌,
}
use viji_osc_osd.Base.Bytes.{get8, write_at}
use viji_osc_osd.Wire.{set_htonll}
use viji_osc_osd.Db.{Ret, osd_ok, osd_error, osd_repeat, enoent, eexist}
use viji_osc_osd.Store.{Sqlite, userobject}
use viji_osc_osd.Store.Obj.{obj_ispresent}
use viji_osc_osd.Store.Coll.{attr_delete_attr}
use viji_osc_osd.Files.{Files}
use viji_osc_osd.Exec.{Exec, Reply, pure, raise, ◌>>=◌, ◌>>◌, leave_if, spin}
use viji_osc_osd.Attr.{AttrRet, code, invalid, asserted, Retrieval}
use viji_osc_osd.Attr.Table.{attr_get_val}
use viji_osc_osd.Device.{Device, missing, cdb_err, hw_err, add64, db, sys}
use viji_osc_osd.Device.Remove.{require_ok}
use viji_osc_osd.Device.Attributes.{user_atomics_pg}
use viji_osc_osd.Device.Attributes.Info.{attr_set_attr}
use viji_osc_osd.Device.Attributes.Getting.{obj_type_of, require_attr}

abbrev pub uap_cas : ℕ
uap_cas = 1

abbrev pub uap_fa : ℕ
uap_fa = 2

-- A number of 64 bits in memory, on a little-endian machine.
unfoldable pub store64 : ℕ → List ℕ
store64 v =
    (v % 256)
    ∷ (v / 2 ^ 8 % 256)
    ∷ (v / 2 ^ 16 % 256)
    ∷ (v / 2 ^ 24 % 256)
    ∷ (v / 2 ^ 32 % 256)
    ∷ (v / 2 ^ 40 % 256)
    ∷ (v / 2 ^ 48 % 256)
    ∷ (v / 2 ^ 56 % 256)
    ∷ []

unfoldable pub load64 : List ℕ → ℕ
load64 d =
    get8 d 0
    + get8 d 1 * 2 ^ 8
    + get8 d 2 * 2 ^ 16
    + get8 d 3 * 2 ^ 24
    + get8 d 4 * 2 ^ 32
    + get8 d 5 * 2 ^ 40
    + get8 d 6 * 2 ^ 48
    + get8 d 7 * 2 ^ 56

-- `swap_len` bytes at a pointer that is not null, or no bytes at a null pointer.
pub swaps_in : Option (List ℕ) → ℕ → Bool
swaps_in none len = false
swaps_in (some swap) len = ltb 0 len

pub swaps_out : Option (List ℕ) → ℕ → Bool
swaps_out none len = len == 0
swaps_out (some swap) len = false

abbrev pub bytes_of : Option (List ℕ) → List ℕ
bytes_of none = []
bytes_of (some p) = p

-- `memcmp(a, b, n) == 0`
pub same_bytes : List ℕ → List ℕ → Bool
same_bytes [] [] = true
same_bytes [] (b ∷ bs) = false
same_bytes (a ∷ more) [] = false
same_bytes (a ∷ more) (b ∷ bs) = a == b && same_bytes more bs

module _ {q : Sqlite} {f : Files} where
  -- The object is there, and a user object.
  pub require_userobject : ℕ → ℕ → Exec (Device q f) Unit
  require_userobject pid oid = do
    found ← db (obj_ispresent q pid oid)
    leave_if (missing found) (raise (cdb_err pid oid))
    obj_type ← obj_type_of pid oid
    leave_if (not (obj_type == userobject)) (raise (cdb_err pid oid))

  pub set_atomic : ℕ → ℕ → ℕ → ℕ → Exec (Device q f) Unit
  set_atomic pid oid number v = do
    set ← attr_set_attr pid oid user_atomics_pg number (store64 v) 8
    require_attr (raise (hw_err pid oid)) set

  -- An attribute that is not defined is set to 0.
  pub defined_or_zero : ℕ → ℕ → ℕ → Retrieval → Exec (Device q f) ℕ
  defined_or_zero pid oid number r = elim r.ret [
    | code osd_ok ↦ pure (load64 r.outdata)
    | code osd_error ↦ raise (hw_err pid oid)
    | code osd_repeat ↦ raise (hw_err pid oid)
    | code enoent ↦ do set_atomic pid oid number 0; pure 0
    | code eexist ↦ raise (hw_err pid oid)
    | invalid ↦ raise (hw_err pid oid)
    | asserted ↦ spin
  ]

  pub atomic_value : List ℕ → ℕ → ℕ → ℕ → Exec (Device q f) ℕ
  atomic_value stack pid oid number = do
    r ← db (attr_get_val q true 0 pid oid user_atomics_pg number 8 stack 0)
    defined_or_zero pid oid number r

  pub set_if : Bool → ℕ → ℕ → ℕ → ℕ → Exec (Device q f) Unit
  set_if true pid oid number v = set_atomic pid oid number v
  set_if false pid oid number v = pure tt

  -- `doutbuf` and `*used_outlen`
  pub osd_cas : List ℕ → ℕ → ℕ → ℕ → ℕ → List ℕ → Exec (Device q f) (List ℕ × ℕ)
  osd_cas stack pid oid cmp swap doutbuf = do
    require_userobject pid oid
    val ← atomic_value stack pid oid uap_cas
    set_if (val == cmp) pid oid uap_cas swap
    pure (write_at 0 (set_htonll val) doutbuf, 8)

  pub osd_fa : List ℕ → ℕ → ℕ → ℕ → List ℕ → Exec (Device q f) (List ℕ × ℕ)
  osd_fa stack pid oid add doutbuf = do
    require_userobject pid oid
    val ← atomic_value stack pid oid uap_fa
    set_atomic pid oid uap_fa (add64 add val)
    pure (write_at 0 (set_htonll val) doutbuf, 8)

  -- What the general operation does to the attribute. `matches` says whether it has the value `cmp`.
  swap_value : ℕ → ℕ → ℕ → ℕ → Option (List ℕ) → ℕ → Bool → Bool → Exec (Device q f) Unit
  swap_value pid oid page number swap swap_len undefined matches =
      if swaps_in swap swap_len && (undefined || matches)
      then (attr_set_attr pid oid page number (bytes_of swap) swap_len
          >>= require_attr (raise (hw_err pid oid)))
      else if swaps_out swap swap_len && matches
      then (db (attr_delete_attr q pid oid page number) >>= require_ok (raise (hw_err pid oid)))
      else pure tt

  -- `*orig_val`, where it is not null, and `*orig_len`. The pointer is null only where the attribute is
  -- not defined and was not written either.
  swapped :
      ℕ
      → ℕ
      → ℕ
      → ℕ
      → List ℕ
      → ℕ
      → Option (List ℕ)
      → ℕ
      → Bool
      → Retrieval
      → Exec (Device q f) (Option (List ℕ) × ℕ)
  swapped pid oid page number cmp cmp_len swap swap_len undefined r = do
    let matches = r.used_outlen == cmp_len && same_bytes (take cmp_len cmp) (take cmp_len r.outdata)
    swap_value pid oid page number swap swap_len undefined matches
    let written = swaps_in swap swap_len || swaps_out swap swap_len && matches
    pure (if undefined && not written then (none, 0) else (some r.outdata, r.used_outlen))

  gen_cas_result :
      ℕ
      → ℕ
      → ℕ
      → ℕ
      → List ℕ
      → ℕ
      → Option (List ℕ)
      → ℕ
      → Retrieval
      → Exec (Device q f) (Option (List ℕ) × ℕ)
  gen_cas_result pid oid page number cmp cmp_len swap swap_len r = elim r.ret [
    | code osd_ok ↦ swapped pid oid page number cmp cmp_len swap swap_len false r
    | code osd_error ↦ raise (hw_err pid oid)
    | code osd_repeat ↦ raise (hw_err pid oid)
    | code enoent ↦ swapped pid oid page number cmp cmp_len swap swap_len true r
    | code eexist ↦ raise (hw_err pid oid)
    | invalid ↦ raise (hw_err pid oid)
    | asserted ↦ spin
  ]

  -- `val` is what `malloc` returns.
  pub osd_gen_cas :
      List ℕ
      → ℕ
      → ℕ
      → ℕ
      → ℕ
      → List ℕ
      → ℕ
      → Option (List ℕ)
      → ℕ
      → Exec (Device q f) (Option (List ℕ) × ℕ)
  osd_gen_cas val pid oid page number cmp cmp_len swap swap_len = do
    allocated ← sys (f.alloc 0xFFFE)
    leave_if (not allocated) (raise (hw_err pid oid))
    require_userobject pid oid
    r ← db (attr_get_val q true 0 pid oid page number 0xFFFE val 0)
    gen_cas_result pid oid page number cmp cmp_len swap swap_len r
