-- ===== src/Attr/Table.antt =====
-- The functions of osd-target/attr.c on a connection that read attributes: each binds its values to its
-- statement and packs the rows. The caller's variable `*used_outlen` holds `used` before.
use viji_osc_osd.Base.{ℕ, Bool, not, ◌&&◌, List, ◌==◌, if◌then◌else◌}
use viji_osc_osd.Store.{Sqlite, Query}
use viji_osc_osd.Page.{userobject_pg, partition_pg, collection_pg, root_pg}
use viji_osc_osd.Attr.{
  Gather, gather_val, gather_attr, gather_dir_page, Retrieval, invalid, begin, exec_attr_rtrvl_stmt,
}

module _ (q : Sqlite) (ndebug : Bool) (addr : ℕ) where
  abbrev pub fetched : Gather → Query → ℕ → ℕ → ℕ → List ℕ → ℕ → q.Conn → Retrieval × q.Conn
  fetched g query oid listfmt outlen outdata used c =
      let (answers, c') = q.fetch query c in
      (
        exec_attr_rtrvl_stmt ndebug addr g oid listfmt outlen used (begin outdata outlen) answers,
        c',
      )

  -- `_attr_get_attr`; its arguments `orig_page` and `orig_number` are not read.
  unfoldable pub attr_get_row : ℕ → ℕ → ℕ → ℕ → ℕ → List ℕ → ℕ → ℕ → q.Conn → Retrieval × q.Conn
  attr_get_row pid oid page number outlen outdata listfmt used =
      fetched gather_attr (Query.getattr pid oid page number) oid listfmt outlen outdata used

  unfoldable pub attr_get_conversion :
      ℕ → ℕ → ℕ → ℕ → ℕ → List ℕ → ℕ → ℕ → q.Conn → Retrieval × q.Conn
  attr_get_conversion = attr_get_row

  unfoldable pub attr_get_val : ℕ → ℕ → ℕ → ℕ → ℕ → List ℕ → ℕ → q.Conn → Retrieval × q.Conn
  attr_get_val pid oid page number outlen outdata used =
      fetched gather_val (Query.getval pid oid page number) oid 0 outlen outdata used

  pub attr_get_page_as_list : ℕ → ℕ → ℕ → ℕ → List ℕ → ℕ → ℕ → q.Conn → Retrieval × q.Conn
  attr_get_page_as_list pid oid page outlen outdata listfmt used =
      fetched gather_attr (Query.pgaslst pid oid page) oid listfmt outlen outdata used

  pub attr_get_for_all_pages : ℕ → ℕ → ℕ → ℕ → List ℕ → ℕ → ℕ → q.Conn → Retrieval × q.Conn
  attr_get_for_all_pages pid oid number outlen outdata listfmt used =
      fetched gather_attr (Query.forallpg pid oid number) oid listfmt outlen outdata used

  pub attr_get_all_attrs : ℕ → ℕ → ℕ → List ℕ → ℕ → ℕ → q.Conn → Retrieval × q.Conn
  attr_get_all_attrs pid oid outlen outdata listfmt used =
      fetched gather_attr (Query.getall pid oid) oid listfmt outlen outdata used

  -- No handler calls this one.
  attr_get_dir_page : ℕ → ℕ → ℕ → ℕ → List ℕ → ℕ → ℕ → q.Conn → Retrieval × q.Conn
  attr_get_dir_page pid oid page outlen outdata listfmt used c =
      if not (page == userobject_pg)
        && (not (page == collection_pg) && (not (page == partition_pg) && not (page == root_pg)))
      then (record { ret = invalid; outdata = outdata; used_outlen = used }, c)
      else fetched (gather_dir_page page) (Query.dirpage pid oid) oid listfmt outlen outdata used c
