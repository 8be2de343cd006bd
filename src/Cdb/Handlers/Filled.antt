-- ===== src/Cdb/Handlers/Filled.antt =====
-- The interface of the commands with the handlers of osd-target/osd.c that Device.Attributes,
-- Device.Atomics, Device.Lists and Device.Queries have. The others are those of `rest`.
use viji_osc_osd.Base.{ℕ, Bool, List, length}
use viji_osc_osd.Store.{Sqlite}
use viji_osc_osd.Files.{Files}
use viji_osc_osd.Device.Attributes.Getting.{osd_getattr_list, osd_getattr_page}
use viji_osc_osd.Device.Attributes.Setting.{osd_set_attributes, osd_set_member_attributes}
use viji_osc_osd.Device.Atomics.{osd_cas, osd_fa}
use viji_osc_osd.Device.Lists.{osd_list, osd_list_collection}
use viji_osc_osd.Device.Queries.{osd_query}
use viji_osc_osd.Cdb.Handlers.{Handlers}
use viji_osc_osd.Cdb.GeneralCas.{cdb_gen_cas}

-- `addr` is the address of the buffers that the commands lend, as far as it matters, which is modulo 8;
-- `name`, `ll` and `stack` are local variables that are not initialized; a command counts no output
-- before it calls a handler.
module _ {q : Sqlite} {f : Files} (ndebug : Bool) (addr : ℕ) (name ll stack : List ℕ)
    (rest : Handlers q f) where
  abbrev handled : Handlers q f
  handled = record rest {
    osd_set_attributes =
        λ pid oid page number val len cont. osd_set_attributes pid oid page number val len;
    osd_getattr_page = λ pid oid page outbuf alloc_len cont.
        osd_getattr_page ndebug addr pid oid page outbuf alloc_len 0;
    osd_getattr_list = λ pid oid page number outbuf alloc_len listfmt cont.
        osd_getattr_list ndebug addr name ll pid oid page number outbuf alloc_len listfmt 0;
    osd_list = λ list_attr pid alloc_len initial_oid entries list_id outdata.
        osd_list ndebug addr list_attr pid alloc_len initial_oid entries list_id outdata 0;
    osd_list_collection = λ list_attr pid cid alloc_len initial_oid entries list_id outdata.
        osd_list_collection list_attr pid cid alloc_len initial_oid (length entries) list_id outdata
          0;
    osd_query = λ pid cid qll alloc_len indata outdata cont.
        osd_query pid cid qll alloc_len indata outdata 0;
    osd_cas = osd_cas stack;
    osd_fa = osd_fa stack;
    osd_set_member_attributes = λ pid cid set_attr cont.
        osd_set_member_attributes rest.osd_begin_txn rest.osd_end_txn pid cid set_attr;
  }

  -- `val` is what `malloc` returns in `osd_gen_cas`.
  abbrev pub filled : List ℕ → Handlers q f
  filled val = record handled {
    cdb_gen_cas = λ r osd_cmd cont. cdb_gen_cas handled r val addr osd_cmd cont;
  }
