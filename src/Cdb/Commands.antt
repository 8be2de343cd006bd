-- ===== src/Cdb/Commands.antt =====
-- The commands of osd-target/cdb.c that are functions of their own. A command ends with no sense data,
-- with sense data beside the data that it returns, or leaves with a reply. The assertion of the reading
-- handlers that there is an output buffer is made at their call.
use viji_osc_osd.Base.{
  ℕ, zero, suc, ◌-◌, ◌/◌, ◌%◌, ◌^◌, Bool, true, false, not, ◌&&◌, ◌||◌, Option, none, some, List,
  [], ◌∷◌, drop, ltb, ◌==◌, if◌then◌else◌,
}
use viji_osc_osd.Base.Bytes.{get8}
use viji_osc_osd.Wire.{get_ntohll}
use viji_osc_osd.Store.{Sqlite, partition_oid}
use viji_osc_osd.Files.{Files}
use viji_osc_osd.Exec.{
  Exec, Exit, Reply, unset, value, reply, unfinished, pure, raise, ◌>>=◌, ◌>>◌, leave_if, modify,
  assert, spin, on_error, ignore,
}
use viji_osc_osd.Device.{Ccap, cdb_err, add64, sub64}
use viji_osc_osd.Device.Create.{
  osd_create, osd_create_collection, osd_create_partition, osd_remove_tmp_objects,
}
use viji_osc_osd.Device.Remove.{osd_remove, osd_remove_partition}
use viji_osc_osd.Device.Members.{osd_copy_user_objects}
use viji_osc_osd.Io.{SgList}
use viji_osc_osd.Data.{osd_read_device, osd_read_map, ddt_contig, ddt_sgl}
use viji_osc_osd.Cdb.{
  Request, Cmd, Descriptor, sglist_of, cdb16, cdb32, cdb64, cdb_pid, cdb_oid, on_device,
  transferred, cur_cmd_attr_pg, getpage_setvalue, scatter_gather_list, query_list,
  copy_user_object_source, extension_capabilities,
}
use viji_osc_osd.Cdb.Handlers.{Handlers}
use viji_osc_osd.Cdb.Attributes.{
  begin_txn, end_txn, set_attributes, get_attributes, std_get_set_attr, parse_getattr_list,
  parse_setattr_list, put_back,
}

abbrev pub no_sglist : SgList
no_sglist = record { num_entries = 0; entries = [] }

-- `num_descriptors > 1 || (num_descriptors == 1 && descriptors[0].type != SCATTER_GATHER_LIST)`
unfoldable pub has_other_descriptors : List Descriptor → Bool
has_other_descriptors [] = false
has_other_descriptors (d ∷ []) = not (d.type == scatter_gather_list)
has_other_descriptors (d ∷ e ∷ ds) = true

-- What the data of a command is described by, when there is one descriptor or another number: the type
-- of the description, the list, and how many bytes of the input stand in front of the data.
pub record DataFormat : Type 0 where
  pub ddt : ℕ
  pub sglist : SgList
  pub skipped : ℕ

unfoldable pub data_format : List Descriptor → ℕ → DataFormat
data_format (d ∷ []) cdb_cont_len = record {
  ddt = ddt_sgl;
  sglist = sglist_of d;
  skipped = cdb_cont_len;
}
data_format ds cdb_cont_len = record { ddt = ddt_contig; sglist = no_sglist; skipped = 0 }

-- `copy_desc`. The first test is for another type than the one that is wanted, as in the source.
copy_desc : List Descriptor → Option Descriptor
copy_desc (d ∷ []) = if not (d.type == copy_user_object_source) then some d else none
copy_desc (d ∷ e ∷ []) =
    if d.type == copy_user_object_source && e.type == extension_capabilities
    then some d
    else if e.type == copy_user_object_source && d.type == extension_capabilities
    then some e
    else none
copy_desc ds = none

-- `query_desc`
query_desc : ℕ → List Descriptor → Option Descriptor
query_desc zero (d ∷ []) = if d.type == query_list then some d else none
query_desc (suc cid) (d ∷ e ∷ []) =
    if d.type == query_list && e.type == extension_capabilities
    then some d
    else if e.type == query_list && d.type == extension_capabilities
    then some e
    else none
query_desc matches_cid ds = none

-- `osd_get_created_oid`
abbrev created_oid : Ccap → ℕ → ℕ
created_oid c numoid = if ltb 0 numoid then sub64 c.oid (numoid - 1) else c.oid

module _ {q : Sqlite} {f : Files} where
  -- A handler whose sense data goes to a buffer that is thrown away.
  unsensed : {A : Type 0} → Exit A × Cmd q f → Exit A × Cmd q f
  unsensed (value a, c) = (value a, c)
  unsensed (reply r, c) = (reply unset, c)
  unsensed (unfinished, c) = (unfinished, c)

  -- The current command attributes after a handler.
  get_ccap : Exec (Cmd q f) Ccap
  get_ccap c = (value c.device.ccap, c)

  -- `desc_specific_hdr`, which is set for a query list only.
  hdr_of : Descriptor → Exec (Cmd q f) (List ℕ)
  hdr_of d = if d.type == query_list then pure d.body else spin

  require_desc : Reply → Option Descriptor → Exec (Cmd q f) Descriptor
  require_desc bad none = raise bad
  require_desc bad (some d) = pure d

  -- The error label stands behind the call, and is not jumped over.
  pub cdb_copy_user_objects : Request → List Descriptor → Exec (Cmd q f) (Option Reply)
  cdb_copy_user_objects r ds = do
    let bad = cdb_err (cdb64 r 16) (cdb64 r 24)
    d ← require_desc bad (copy_desc ds)
    leave_if (not (d.length == 18)) (raise bad)
    cuos ← hdr_of d
    ignore (on_device (osd_copy_user_objects (cdb64 r 16) (cdb64 r 24) cuos (drop 8 cuos)))
    raise bad

  module _ (h : Handlers q f) (r : Request) where
    -- The rounds of the loop of `cdb_create` that removes the objects.
    pub cdb_create : ℕ → Exec (Cmd q f) (Option Reply)
    cdb_create cdb_cont_len = do
      let pid = cdb_pid r
      let numoid = cdb16 r 32
      leave_if
          (ltb 1 numoid
            && (r.getset_cdbfmt == getpage_setvalue && not (cdb32 r 52 == cur_cmd_attr_pg)))
          (raise (cdb_err pid (cdb64 r 24)))
      begin_txn h r
      on_error (on_device (osd_create pid (cdb64 r 24) numoid)) (end_txn h r)
      end_txn h r
      let count = if numoid == 0 then 1 else numoid
      ccap ← get_ccap
      let oid = created_oid ccap count
      on_error
          (do
            set_attributes h r pid oid count cdb_cont_len
            get_attributes h r pid oid count cdb_cont_len)
          (on_device (osd_remove_tmp_objects pid oid (add64 oid count - oid)))
      pure none

    pub cdb_create_collection : ℕ → Exec (Cmd q f) (Option Reply)
    cdb_create_collection cdb_cont_len = do
      let pid = cdb_pid r
      λ c. unsensed (on_device (osd_create_collection pid (cdb64 r 24)) c)
      ccap ← get_ccap
      on_error (std_get_set_attr h r pid ccap.oid cdb_cont_len)
          (ignore (on_device (osd_remove pid ccap.oid)))
      pure none

    pub cdb_create_partition : ℕ → Exec (Cmd q f) (Option Reply)
    cdb_create_partition cdb_cont_len = do
      on_device (osd_create_partition (cdb64 r 16))
      ccap ← get_ccap
      on_error (std_get_set_attr h r ccap.pid partition_oid cdb_cont_len)
          (ignore (on_device (osd_remove ccap.pid partition_oid)))
      pure none

    pub cdb_remove_partition : ℕ → Exec (Cmd q f) (Option Reply)
    cdb_remove_partition cdb_cont_len = do
      std_get_set_attr h r (cdb_pid r) partition_oid cdb_cont_len
      on_device (osd_remove_partition (cdb_pid r))
      pure none

    unfoldable pub cdb_remove : ℕ → Exec (Cmd q f) (Option Reply)
    cdb_remove cdb_cont_len = do
      std_get_set_attr h r (cdb_pid r) (cdb_oid r) cdb_cont_len
      on_device (osd_remove (cdb_pid r) (cdb_oid r))
      pure none

    pub get_outdata : Exec (Cmd q f) (List ℕ)
    get_outdata c = (value c.outdata, c)

    pub cdb_query : List Descriptor → ℕ → Exec (Cmd q f) (Option Reply)
    cdb_query ds cdb_cont_len = do
      d ← require_desc (cdb_err (cdb_pid r) (cdb_oid r)) (query_desc (cdb64 r 40) ds)
      out ← get_outdata
      t ←
          on_device
            (h.osd_query (cdb_pid r) (cdb_oid r) d.length (cdb64 r 32) d.body out cdb_cont_len)
      transferred t

    -- A read past the end is no reason to leave out the attributes.
    pub cdb_read : List Descriptor → ℕ → Exec (Cmd q f) (Option Reply)
    cdb_read ds cdb_cont_len = do
      let pid = cdb_pid r
      let oid = cdb_oid r
      leave_if (has_other_descriptors ds) (raise (cdb_err pid oid))
      let fmt = data_format ds cdb_cont_len
      assert r.has_outdata
      out ← get_outdata
      t ← on_device (
          osd_read_device pid oid (cdb64 r 32) (cdb64 r 40) (drop fmt.skipped r.indata) out
            fmt.sglist fmt.ddt)
      rec_err_sense ← transferred t
      std_get_set_attr h r pid oid cdb_cont_len
      pure rec_err_sense

    pub cdb_read_map : ℕ → Exec (Cmd q f) (Option Reply)
    cdb_read_map cdb_cont_len = do
      std_get_set_attr h r (cdb_pid r) (cdb_oid r) cdb_cont_len
      assert r.has_outdata
      out ← get_outdata
      t ←
          on_device
            (osd_read_map (cdb_pid r) (cdb_oid r) (cdb64 r 32) (cdb64 r 40) (cdb16 r 48) out)
      transferred t

    pub cdb_list : Exec (Cmd q f) (Option Reply)
    cdb_list = do
      let pid = cdb_pid r
      let initial_oid = cdb64 r 40
      let bad = cdb_err pid initial_oid
      leave_if (r.getset_cdbfmt == getpage_setvalue) (raise bad)
      leave_if (not (get8 r.cdb 11 % 16 == 0)) (raise bad)
      entries ← on_error (parse_getattr_list h r pid initial_oid) (raise bad)
      out ← get_outdata
      t ← on_device (
          h.osd_list (get8 r.cdb 11 / 2 ^ 6 % 2) pid (cdb64 r 32) initial_oid entries (cdb32 r 48)
            out)
      transferred t

    pub cdb_set_member_attributes : ℕ → Exec (Cmd q f) (Option Reply)
    cdb_set_member_attributes cdb_cont_len = do
      let pid = cdb_pid r
      let cid = cdb_oid r
      entries ← on_error (parse_setattr_list h r pid cid) (raise (cdb_err pid cid))
      on_device (h.osd_set_member_attributes pid cid entries cdb_cont_len)
      pure none

    -- The bytes that an atomic operation returns, put at an offset of the output buffer.
    put_result : ℕ → List ℕ × ℕ → Exec (Cmd q f) Unit
    put_result off (p, used) =
        modify (λ c. record c { outdata = put_back off p c.outdata; used_outlen = used })

    pub cdb_cas : ℕ → Exec (Cmd q f) (Option Reply)
    cdb_cas cdb_cont_len = do
      let pid = cdb_pid r
      let oid = cdb_oid r
      let off = cdb64 r 40
      leave_if (not r.has_outdata || not r.has_indata) (raise (cdb_err pid oid))
      leave_if (ltb (cdb64 r 32) 8) (raise (cdb_err pid oid))
      out ← get_outdata
      result ←
          on_device
            (h.osd_cas pid oid (get_ntohll r.indata) (get_ntohll (drop 8 r.indata)) (drop off out))
      put_result off result
      std_get_set_attr h r pid oid cdb_cont_len
      pure none

    pub cdb_fa : ℕ → Exec (Cmd q f) (Option Reply)
    cdb_fa cdb_cont_len = do
      let pid = cdb_pid r
      let oid = cdb_oid r
      let off = cdb64 r 40
      leave_if (not r.has_outdata || not r.has_indata) (raise (cdb_err pid oid))
      leave_if (ltb (cdb64 r 32) 8) (raise (cdb_err pid oid))
      out ← get_outdata
      result ← on_device (h.osd_fa pid oid (get_ntohll r.indata) (drop off out))
      put_result off result
      std_get_set_attr h r pid oid cdb_cont_len
      pure none
