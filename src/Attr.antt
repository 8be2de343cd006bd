-- ===== src/Attr.antt =====
-- How osd-target/attr.c reads attributes: the rows of a statement, packed one after the other into the
-- caller's memory.
pub mod Table
pub mod Single
pub mod Bounds
use viji_osc_osd.Base.{
  ℕ, zero, suc, ◌+◌, ◌%◌, ◌^◌, ◌-◌, Bool, true, false, not, ◌&&◌, Option, none, some, List, [], ◌∷◌,
  ◌++◌, length, take, drop, ltb, ◌==◌, if◌then◌else◌,
}
use viji_osc_osd.Base.Bytes.{write_at}
use viji_osc_osd.Db.{
  Answers, unbound, done, failed, busy, row, schema, Ret, osd_ok, enoent, Reset, reset_ok,
  reset_error, reset_schema, db_reset_stmt, repeat_if,
}
use viji_osc_osd.ListEntry.{
  PackResult, einval, eoverflow, aborted, packed, le_pack_attr, le_multiobj_pack_attr,
}
use viji_osc_osd.Store.{AttrRow}

abbrev pub attr_page_id_len : ℕ
attr_page_id_len = 40

abbrev pub rtrvd_set_attr_list : ℕ
rtrvd_set_attr_list = 0x09

abbrev pub rtrvd_create_multiobj_list : ℕ
rtrvd_create_multiobj_list = 0x0F

-- What a function of attr.c returns: one of the results on the database, -EINVAL, or nothing, when an
-- assertion of the packing fails.
pub data AttrRet : Type 0 where
  code : Ret → AttrRet
  invalid asserted : AttrRet

-- What it leaves behind: its result, the caller's memory from `outdata` on, and `*used_outlen`.
pub record Retrieval : Type 0 where
  pub ret : AttrRet
  pub outdata : List ℕ
  pub used_outlen : ℕ

-- `rtrvl_type`
pub data Gather : Type 0 where
  gather_val gather_attr : Gather
  gather_dir_page : ℕ → Gather

-- `sqlite3_column_blob`, which is null for an empty value.
pub column_blob : List ℕ → Option (List ℕ)
column_blob [] = none
column_blob (b ∷ value) = some (b ∷ value)

-- The variables of the loop over the rows: the caller's memory, how far `outdata` has moved in it,
-- `outlen`, `len` and `found`.
pub record Cursor : Type 0 where
  pub mem : List ℕ
  pub moved : ℕ
  pub outlen : ℕ
  pub len : ℕ
  pub found : Bool

abbrev pub begin : List ℕ → ℕ → Cursor
begin mem outlen = record { mem = mem; moved = 0; outlen = outlen; len = 0; found = false }

-- What a packing function wrote behind the bytes that `outdata` has moved over.
pub placed : Cursor → PackResult × List ℕ → Cursor
placed s (packed n, rest) = record {
  mem = take s.moved s.mem ++ rest;
  moved = s.moved + n;
  outlen = (s.outlen + 2 ^ 64 - n) % 2 ^ 64;
  len = (s.len + n) % 2 ^ 32;
  found = true;
}
placed s (r, rest) = record s { mem = take s.moved s.mem ++ rest }

-- The end of the function, when no row was found invalid. `*used_outlen` is 0 before the loop.
unfoldable pub ended : Ret → Cursor → Retrieval
ended osd_ok s = record {
  ret = code (if s.found then osd_ok else enoent);
  outdata = s.mem;
  used_outlen = s.len;
}
ended r s = record { ret = code r; outdata = s.mem; used_outlen = 0 }

-- A row ends the loop unless some of it was packed. `rest` is what the steps behind it do.
pub continued : PackResult → Cursor → Retrieval → Retrieval
continued (packed zero) s rest = ended (db_reset_stmt true reset_ok) s
continued (packed (suc n)) s rest = rest
continued eoverflow s rest = ended (db_reset_stmt true reset_ok) s
continued einval s rest = record { ret = invalid; outdata = s.mem; used_outlen = 0 }
continued aborted s rest = record { ret = asserted; outdata = s.mem; used_outlen = 0 }

-- `ndebug` says whether assertions are compiled out, and `addr` is the address of the caller's memory.
module _ (ndebug : Bool) (addr : ℕ) where
  attr_gather_attr : List ℕ → ℕ → ℕ → ℕ → ℕ → AttrRow → PackResult × List ℕ
  attr_gather_attr buf moved buflen oid listfmt r =
      let len = length r.value % 2 ^ 16 in
      if listfmt == rtrvd_set_attr_list
      then le_pack_attr (addr + moved) buf buflen r.page r.number len (column_blob r.value)
      else if listfmt == rtrvd_create_multiobj_list
      then le_multiobj_pack_attr ndebug (addr + moved) buf buflen oid r.page r.number len
          (column_blob r.value)
      else (einval, buf)

  attr_gather_val : List ℕ → ℕ → AttrRow → PackResult × List ℕ
  attr_gather_val buf buflen r =
      let len = length r.value % 2 ^ 16 in
      if ltb buflen len then (einval, buf) else (packed len, write_at 0 (take len r.value) buf)

  -- The row's page is the number of an attribute of the directory page.
  attr_gather_dir_page : List ℕ → ℕ → ℕ → ℕ → ℕ → ℕ → AttrRow → PackResult × List ℕ
  attr_gather_dir_page buf moved outlen oid page listfmt r =
      let len = length r.value % 2 ^ 16 in
      if not (len == attr_page_id_len)
      then (einval, buf)
      else if listfmt == rtrvd_set_attr_list
      then le_pack_attr (addr + moved) buf outlen page r.page len (column_blob r.value)
      else if listfmt == rtrvd_create_multiobj_list
      then le_multiobj_pack_attr ndebug (addr + moved) buf outlen oid page r.page len
          (column_blob r.value)
      else (einval, buf)

  -- The functions take the length that is left as a number of 32 bits.
  pub gather : Gather → ℕ → ℕ → Cursor → AttrRow → PackResult × List ℕ
  gather gather_val oid listfmt s r = attr_gather_val (drop s.moved s.mem) (s.outlen % 2 ^ 32) r
  gather gather_attr oid listfmt s r =
      attr_gather_attr (drop s.moved s.mem) s.moved (s.outlen % 2 ^ 32) oid listfmt r
  gather (gather_dir_page page) oid listfmt s r =
      attr_gather_dir_page (drop s.moved s.mem) s.moved (s.outlen % 2 ^ 32) oid page listfmt r

  -- The loop, with its callers' jump to `repeat`. `used` is the caller's variable, which a statement
  -- that is not bound leaves; the log call on it, which is given a wrong pointer, is left out.
  pub exec_attr_rtrvl_stmt : Gather → ℕ → ℕ → ℕ → ℕ → Cursor → Answers AttrRow → Retrieval
  exec_attr_rtrvl_stmt g oid listfmt outlen used s unbound =
      record (ended (db_reset_stmt false reset_ok) s) { used_outlen = used }
  exec_attr_rtrvl_stmt g oid listfmt outlen used s done = ended (db_reset_stmt true reset_ok) s
  exec_attr_rtrvl_stmt g oid listfmt outlen used s failed = ended (db_reset_stmt true reset_error) s
  exec_attr_rtrvl_stmt g oid listfmt outlen used s (busy rest) =
      exec_attr_rtrvl_stmt g oid listfmt outlen used s rest
  exec_attr_rtrvl_stmt g oid listfmt outlen used s (row r rest) =
      let result = gather g oid listfmt s r in
      let next = placed s result in
      continued result.0 next (exec_attr_rtrvl_stmt g oid listfmt outlen used next rest)
  exec_attr_rtrvl_stmt g oid listfmt outlen used s (schema up rest) =
      let again = exec_attr_rtrvl_stmt g oid listfmt outlen 0 (begin s.mem outlen) rest in
      let ret = db_reset_stmt true (reset_schema up) in repeat_if ret again (ended ret s)
