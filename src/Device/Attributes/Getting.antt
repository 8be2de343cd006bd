-- ===== src/Device/Attributes/Getting.antt =====
-- The handlers of osd-target/osd.c that get attributes, as a list and as a page. `isembedded` is true.
pub mod Listed
use viji_osc_osd.Base.{
  ℕ, ◌+◌, ◌-◌, ◌^◌, Bool, true, false, not, ◌&&◌, ◌||◌, none, List, [], ◌∷◌, ◌++◌, replicate, ltb,
  leb, ◌==◌, if◌then◌else◌,
}
use viji_osc_osd.Db.{Ret, osd_ok, osd_error, osd_repeat, enoent, eexist, is_ok}
use viji_osc_osd.ListEntry.{
  PackResult, einval, eoverflow, aborted, packed, le_pack_attr, le_multiobj_pack_attr,
}
use viji_osc_osd.Store.{Sqlite, partition_oid, partition, root}
use viji_osc_osd.Store.Obj.{obj_get_type}
use viji_osc_osd.Files.{Files}
use viji_osc_osd.Exec.{Exec, Reply, sdd, pure, raise, ◌>>=◌, ◌>>◌, leave_if, spin}
use viji_osc_osd.Attr.{
  AttrRet, code, invalid, asserted, Retrieval, rtrvd_set_attr_list, rtrvd_create_multiobj_list,
}
use viji_osc_osd.Attr.Table.{
  attr_get_val, attr_get_all_attrs, attr_get_page_as_list, attr_get_for_all_pages,
  attr_get_conversion,
}
use viji_osc_osd.Page.{isgettable_page, partition_pg}
use viji_osc_osd.Sense.{illegal_request, invalid_field_in_param_list}
use viji_osc_osd.Device.{Device, object_lb, cdb_err, hw_err, db}
use viji_osc_osd.Device.Attributes.{
  incits, cur_cmd_attr_pg, user_info_pg, user_tmstmp_pg, user_atomics_pg, root_info_pg, get_ccap,
  get_ccap_aslist, get_utsap, get_utsap_aslist,
}
use viji_osc_osd.Device.Attributes.Info.{attr_get_attr, attr_set_attr}

abbrev pub illegal_obj : ℕ
illegal_obj = 0

abbrev pub getallattr_pg : ℕ
getallattr_pg = 0xFFFFFFFF

abbrev pub attrnum_getall : ℕ
attrnum_getall = 0xFFFFFFFF

abbrev pub param_list_err : ℕ → ℕ → Reply
param_list_err = sdd illegal_request invalid_field_in_param_list

-- "User Object Timestamps     " and "User Atomics               " behind `incits`, with their last 0.
abbrev user_tmstmp_page : List ℕ
user_tmstmp_page =
    incits
    ++ (0x55 ∷ 0x73 ∷ 0x65 ∷ 0x72 ∷ 0x20 ∷ 0x4F ∷ 0x62 ∷ 0x6A ∷ 0x65 ∷ 0x63 ∷ 0x74 ∷ 0x20 ∷ 0x54
        ∷ 0x69 ∷ 0x6D ∷ 0x65 ∷ 0x73 ∷ 0x74 ∷ 0x61 ∷ 0x6D ∷ 0x70 ∷ 0x73 ∷ [])
    ++ replicate 5 0x20
    ++ (0 ∷ [])

abbrev user_atomic_page : List ℕ
user_atomic_page =
    incits
    ++ (0x55 ∷ 0x73 ∷ 0x65 ∷ 0x72 ∷ 0x20 ∷ 0x41 ∷ 0x74 ∷ 0x6F ∷ 0x6D ∷ 0x69 ∷ 0x63 ∷ 0x73 ∷ [])
    ++ replicate 15 0x20
    ++ (0 ∷ [])

pub type_found : Ret × ℕ → ℕ
type_found (r, type) = if is_ok r then type else illegal_obj

-- The entry of an attribute that is not defined.
fill_null_attr : Bool → ℕ → ℕ → ℕ → ℕ → List ℕ → ℕ → ℕ → PackResult × List ℕ
fill_null_attr ndebug addr oid page number outbuf outlen listfmt =
    if not (page == getallattr_pg) && not (number == attrnum_getall)
    then (if listfmt == rtrvd_create_multiobj_list
        then le_multiobj_pack_attr ndebug addr outbuf outlen oid page number 0 none
        else le_pack_attr addr outbuf outlen page number 0 none)
    else (packed 0, outbuf)

-- `get_uiap` makes one error of all.
only_error : Retrieval → Retrieval
only_error r = elim r.ret [
  | code osd_ok ↦ r
  | code osd_error ↦ r
  | code osd_repeat ↦ record r { ret = code osd_error }
  | code enoent ↦ record r { ret = code osd_error }
  | code eexist ↦ record r { ret = code osd_error }
  | invalid ↦ record r { ret = code osd_error }
  | asserted ↦ r
]

module _ {q : Sqlite} {f : Files} where
  -- `get_obj_type`
  unfoldable pub obj_type_of : ℕ → ℕ → Exec (Device q f) ℕ
  obj_type_of pid oid =
      if pid == 0 && oid == 0
      then pure root
      else if leb object_lb pid && oid == partition_oid
      then pure partition
      else if leb object_lb pid && leb object_lb oid
      then (do found ← db (obj_get_type q pid oid); pure (type_found found))
      else pure illegal_obj

  -- `if (ret != OSD_OK) goto label;` on the result of a function of attr.c.
  unfoldable pub require_attr : Exec (Device q f) Unit → AttrRet → Exec (Device q f) Unit
  require_attr label (code r) = leave_if (not (is_ok r)) label
  require_attr label invalid = label
  require_attr label asserted = spin

  init_names : ℕ → ℕ → Exec (Device q f) Unit → Exec (Device q f) Unit
  init_names pid oid label = do
    stamps ← attr_set_attr pid oid user_tmstmp_pg 0 user_tmstmp_page 40
    require_attr label stamps
    atomics ← attr_set_attr pid oid user_atomics_pg 0 user_atomic_page 40
    require_attr label atomics

  unless_defined : ℕ → ℕ → Exec (Device q f) Unit → AttrRet → Exec (Device q f) Unit
  unless_defined pid oid label (code enoent) = init_names pid oid label
  unless_defined pid oid label r = require_attr label r

  -- `label` is where its callers go on an error.
  pub lazy_init_attr : ℕ → ℕ → ℕ → ℕ → Exec (Device q f) Unit → Exec (Device q f) Unit
  lazy_init_attr pid oid page number label =
      if not (page == getallattr_pg) && not (number == attrnum_getall)
        || (leb page user_atomics_pg && ltb 0 number
            || ltb user_atomics_pg page && not (page == getallattr_pg))
      then pure tt
      else (do
        r ← db (attr_get_val q true 0 pid oid user_tmstmp_pg 0 40 (replicate 40 0) 0)
        unless_defined pid oid label r.ret)

  -- What is done with the codes that a handler does not turn into an entry of its own.
  pub attr_result : Reply → Exec (Device q f) Retrieval → Retrieval → Exec (Device q f) Retrieval
  attr_result label absent r = elim r.ret [
    | code osd_ok ↦ pure r
    | code osd_error ↦ raise label
    | code osd_repeat ↦ spin
    | code enoent ↦ absent
    | code eexist ↦ spin
    | invalid ↦ raise label
    | asserted ↦ spin
  ]

  null_result : Reply → PackResult × List ℕ → Exec (Device q f) Retrieval
  null_result label (packed n, mem) =
      pure (record { ret = code osd_ok; outdata = mem; used_outlen = n })
  null_result label (eoverflow, mem) =
      pure (record { ret = code osd_ok; outdata = mem; used_outlen = 0 })
  null_result label (einval, mem) = raise label
  null_result label (aborted, mem) = spin

  mutiplex_getattr_list :
      Bool → ℕ → ℕ → ℕ → ℕ → ℕ → List ℕ → ℕ → ℕ → ℕ → Exec (Device q f) Retrieval
  mutiplex_getattr_list ndebug addr pid oid page number outbuf outlen listfmt used =
      if page == getallattr_pg && number == attrnum_getall
      then db (attr_get_all_attrs q ndebug addr pid oid outlen outbuf listfmt used)
      else if not (page == getallattr_pg) && number == attrnum_getall
      then db (attr_get_page_as_list q ndebug addr pid oid page outlen outbuf listfmt used)
      else if page == getallattr_pg && not (number == attrnum_getall)
      then db (attr_get_for_all_pages q ndebug addr pid oid number outlen outbuf listfmt used)
      else db (attr_get_conversion q ndebug addr pid oid page number outlen outbuf listfmt used)

  get_uiap :
      Bool → ℕ → List ℕ → List ℕ → ℕ → ℕ → ℕ → ℕ → List ℕ → ℕ → ℕ → ℕ → Exec (Device q f) Retrieval
  get_uiap ndebug addr name ll pid oid page number outbuf outlen listfmt used = do
    r ← attr_get_attr ndebug addr name ll pid oid page number outlen outbuf listfmt used
    pure (only_error r)

  -- The switch on the page; `get_riap` is `attr_get_attr`.
  get_listed :
      Bool → ℕ → List ℕ → List ℕ → ℕ → ℕ → ℕ → ℕ → List ℕ → ℕ → ℕ → ℕ → Exec (Device q f) Retrieval
  get_listed ndebug addr name ll pid oid page number outbuf outlen listfmt used =
      if page == cur_cmd_attr_pg
      then (λ d. pure (get_ccap_aslist addr d.ccap number outbuf outlen used) d)
      else if page == partition_pg + user_tmstmp_pg || page == user_tmstmp_pg
      then get_utsap_aslist ndebug addr pid oid number outbuf outlen listfmt used
      else if page == partition_pg + 2
          || (page == partition_pg + user_info_pg || page == user_info_pg)
      then get_uiap ndebug addr name ll pid oid page number outbuf outlen listfmt used
      else if page == root_info_pg
      then attr_get_attr ndebug addr name ll pid oid page number outlen outbuf listfmt used
      else mutiplex_getattr_list ndebug addr pid oid page number outbuf outlen listfmt used

  -- The caller's memory and `*used_outlen`, which holds `used` before. `name` and `ll` are the arrays of
  -- `attr_get_attr`.
  pub osd_getattr_list :
      Bool
      → ℕ
      → List ℕ
      → List ℕ
      → ℕ
      → ℕ
      → ℕ
      → ℕ
      → List ℕ
      → ℕ
      → ℕ
      → ℕ
      → Exec (Device q f) (List ℕ × ℕ)
  osd_getattr_list ndebug addr name ll pid oid page number outbuf outlen listfmt used = do
    obj_type ← obj_type_of pid oid
    leave_if (obj_type == illegal_obj) (raise (cdb_err pid oid))
    leave_if (not (isgettable_page obj_type page)) (raise (param_list_err pid oid))
    lazy_init_attr pid oid page number (raise (hw_err pid oid))
    got ← get_listed ndebug addr name ll pid oid page number outbuf outlen listfmt used
    let label = param_list_err pid oid
    let absent =
        null_result label (fill_null_attr ndebug addr oid page number got.outdata outlen listfmt)
    r ← attr_result label absent got
    pure (r.outdata, r.used_outlen)

  paged : Bool → ℕ → ℕ → ℕ → ℕ → List ℕ → ℕ → ℕ → Exec (Device q f) Retrieval
  paged ndebug addr pid oid page outbuf outlen used =
      if page == cur_cmd_attr_pg
      then (λ d. pure (get_ccap d.ccap outbuf outlen used) d)
      else if page == user_tmstmp_pg
      then get_utsap pid oid outbuf outlen
      else if page == getallattr_pg
      then (do
        lazy_init_attr pid oid page 0 (raise (hw_err pid oid))
        db (attr_get_all_attrs q ndebug addr pid oid outlen outbuf rtrvd_set_attr_list used))
      else raise (cdb_err pid oid)

  -- The assertion behind the switch leaves out -ENOENT.
  pub osd_getattr_page : Bool → ℕ → ℕ → ℕ → ℕ → List ℕ → ℕ → ℕ → Exec (Device q f) (List ℕ × ℕ)
  osd_getattr_page ndebug addr pid oid page outbuf outlen used = do
    obj_type ← obj_type_of pid oid
    leave_if (obj_type == illegal_obj) (raise (cdb_err pid oid))
    leave_if (not (isgettable_page obj_type page)) (raise (param_list_err pid oid))
    got ← paged ndebug addr pid oid page outbuf outlen used
    r ← attr_result (param_list_err pid oid) spin got
    pure (r.outdata, r.used_outlen)
