-- ===== src/Cdb/Attributes.antt =====
-- The get and set attributes parameters of a command, osd-target/cdb.c. The lengths of lists are
-- numbers of 32 bits, as in the source.
use viji_osc_osd.Base.{
  ℕ, zero, suc, ◌+◌, ◌-◌, ◌/◌, ◌%◌, ◌^◌, not, ◌&&◌, ◌||◌, Option, none, some, List, [], ◌∷◌, ◌++◌,
  take, drop, ltb, ◌==◌, if◌then◌else◌,
}
use viji_osc_osd.Base.Bytes.{get8, write_at}
use viji_osc_osd.Wire.{get_ntohs, get_ntohl, set_htonl}
use viji_osc_osd.Offset.{get_ntohoffset}
use viji_osc_osd.Store.{Sqlite}
use viji_osc_osd.Files.{Files}
use viji_osc_osd.Exec.{Exec, Reply, pure, raise, ◌>>=◌, ◌>>◌, modify, assert, spin, on_error}
use viji_osc_osd.Io.{lend}
use viji_osc_osd.Device.{cdb_err, add64}
use viji_osc_osd.ListEntry.{le_page_off, le_number_off, le_len_off, le_val_off}
use viji_osc_osd.Cdb.{
  Request, Cmd, cdb16, cdb32, on_device, param_list_err, invalid_param_list, cur_cmd_attr_pg,
  getfield_setvalue, getpage_setvalue, getlist_setlist,
}
use viji_osc_osd.Cdb.Handlers.{Handlers}
use viji_osc_osd.Attr.{rtrvd_set_attr_list, rtrvd_create_multiobj_list}

abbrev pub list_hdr_len : ℕ
list_hdr_len = 8

-- The list types of osd-target/osd-types.h.
abbrev pub rtrv_attr_list : ℕ
rtrv_attr_list = 0x01

abbrev pub sub32 : ℕ → ℕ → ℕ
sub32 a b = (a + 2 ^ 32 - b) % 2 ^ 32

abbrev pub add32 : ℕ → ℕ → ℕ
add32 a b = (a + b) % 2 ^ 32

-- The memory from an offset on, put back into the buffer.
abbrev pub put_back : ℕ → List ℕ → List ℕ → List ℕ
put_back off p buf = take off buf ++ p

-- `pad`, and the bytes that an entry with a value of `len` bytes takes.
abbrev pub entry_len : ℕ → ℕ
entry_len len = le_val_off + len + (8 - (le_val_off + len) % 8) % 8

module _ {q : Sqlite} {f : Files} (h : Handlers q f) (r : Request) where
  -- `err = osd_begin_txn(cmd->osd); assert(err == 0);`
  pub begin_txn : Exec (Cmd q f) Unit
  begin_txn = do ok ← on_device h.osd_begin_txn; assert ok

  pub end_txn : Exec (Cmd q f) Unit
  end_txn = do ok ← on_device h.osd_end_txn; assert ok

  -- Between the two, with the second also on the way out.
  pub within_txn : Exec (Cmd q f) Unit → Exec (Cmd q f) Unit
  within_txn m = do begin_txn; on_error m end_txn; end_txn

  pub get_attr_page : ℕ → ℕ → ℕ → ℕ → Exec (Cmd q f) Unit
  get_attr_page pid oid numoid cdb_cont_len c =
      let page = cdb32 r 52 in
      let alloc_len = cdb32 r 56 in
      let off = r.retrieved_attr_off in
      if page == 0 || alloc_len == 0
      then pure tt c
      else if ltb 1 numoid && not (page == cur_cmd_attr_pg)
      then raise (param_list_err pid oid) c
      else if not r.has_outdata
      then raise (param_list_err pid oid) c
      else (do
        (p, used) ←
            on_device (h.osd_getattr_page pid oid page (drop off c.outdata) alloc_len cdb_cont_len)
        modify (λ c. record c { outdata = put_back off p c.outdata; get_used_outlen = used }))
          c

  -- `osd_set_attributes` for the `n` objects from `oid` on.
  pub set_objects : ℕ → ℕ → ℕ → ℕ → ℕ → List ℕ → ℕ → ℕ → Exec (Cmd q f) Unit
  set_objects zero pid oid page number val len cdb_cont_len = pure tt
  set_objects (suc n) pid oid page number val len cdb_cont_len = do
    on_device (h.osd_set_attributes pid oid page number val len cdb_cont_len)
    set_objects n pid (oid + 1) page number val len cdb_cont_len

  -- How many `i` there are with `i = oid; i < oid + numoid; i++`.
  abbrev objects : ℕ → ℕ → ℕ
  objects oid numoid = add64 oid numoid - oid

  -- The length is handed on as a number of 16 bits.
  pub set_attr_value : ℕ → ℕ → ℕ → ℕ → Exec (Cmd q f) Unit
  set_attr_value pid oid numoid cdb_cont_len =
      let page = cdb32 r 64 in
      let number = cdb32 r 68 in
      let len = cdb32 r 72 in
      let offset = get_ntohoffset (drop 76 r.cdb) in
      if page == 0
      then pure tt
      else within_txn (
          set_objects (objects oid numoid) pid oid page number (drop offset r.indata) (len % 2 ^ 16)
            cdb_cont_len)

  unfoldable pub set_one_attr_value : ℕ → ℕ → ℕ → ℕ → Exec (Cmd q f) Unit
  set_one_attr_value pid oid numoid cdb_cont_len =
      let page = cdb32 r 52 in
      let number = cdb32 r 56 in
      let len = cdb16 r 60 in
      if page == 0
      then pure tt
      else if ltb 18 len || (page == 0xFFFFFFFF || number == 0xFFFFFFFF)
      then raise (cdb_err pid oid)
      else within_txn
          (set_objects (objects oid numoid) pid oid page number (drop 62 r.cdb) len cdb_cont_len)

  -- One attribute of the `n` objects from `oid` on, with `list_alloc_len` bytes left in the buffer: what
  -- is left afterwards. The next entry goes behind those that are there.
  get_objects : ℕ → ℕ → ℕ → ℕ → ℕ → ℕ → ℕ → ℕ → Exec (Cmd q f) ℕ
  get_objects zero pid oid page number listfmt list_alloc_len cdb_cont_len c = pure list_alloc_len c
  get_objects (suc n) pid oid page number listfmt list_alloc_len cdb_cont_len c =
      let off = r.retrieved_attr_off + c.get_used_outlen in
      (do
        (p, used) ← on_device (
            h.osd_getattr_list pid oid page number (drop off c.outdata) list_alloc_len listfmt
              cdb_cont_len)
        modify (λ c. record c {
          outdata = put_back off p c.outdata;
          get_used_outlen = add32 c.get_used_outlen used;
        })
        get_objects n pid (oid + 1) page number listfmt (sub32 list_alloc_len used) cdb_cont_len)
        c

  -- The entries of the list, 8 bytes each.
  get_entries : ℕ → List ℕ → ℕ → ℕ → ℕ → ℕ → ℕ → ℕ → Exec (Cmd q f) Unit
  get_entries zero p pid oid numoid listfmt list_alloc_len cdb_cont_len = pure tt
  get_entries (suc k) p pid oid numoid listfmt list_alloc_len cdb_cont_len = do
    left ←
        get_objects (objects oid numoid) pid oid (get_ntohl p) (get_ntohl (drop 4 p)) listfmt
          list_alloc_len cdb_cont_len
    get_entries k (drop 8 p) pid oid numoid listfmt left cdb_cont_len

  -- The tests of `get_attr_list` and `parse_getattr_list` behind those of the list's presence: the
  -- reply of the first that fails.
  pub list_fault : ℕ → ℕ → Option Reply
  list_fault pid oid =
      let getattr_list_len = cdb32 r 52 in
      let list_off = get_ntohoffset (drop 56 r.cdb) in
      let list_alloc_len = cdb32 r 60 in
      let list_in_len = (r.inlen + 2 ^ 64 - list_off) % 2 ^ 64 % 2 ^ 32 in
      let list_len = sub32 getattr_list_len 8 in
      if ltb getattr_list_len list_hdr_len
      then some (param_list_err pid oid)
      else if ltb list_in_len 8
      then some (param_list_err pid oid)
      else if not (list_off % 8 == 0) || not (list_alloc_len % 8 == 0)
      then some (param_list_err pid oid)
      else if not (get8 r.indata list_off % 16 == rtrv_attr_list)
      then some (invalid_param_list pid oid)
      else if not (list_len % 8 == 0)
      then some (param_list_err pid oid)
      else if ltb (add32 list_len 8) list_in_len
      then some (param_list_err pid oid)
      else none

  leave_with : Option Reply → Exec (Cmd q f) Unit
  leave_with none = pure tt
  leave_with (some e) = raise e

  -- The header, the entries, and the length of the list behind them.
  get_list : ℕ → ℕ → ℕ → ℕ → Exec (Cmd q f) Unit
  get_list pid oid numoid cdb_cont_len =
      let listfmt = if ltb 1 numoid then rtrvd_create_multiobj_list else rtrvd_set_attr_list in
      let list_len = sub32 (cdb32 r 52) 8 in
      let list_hdr = drop (get_ntohoffset (drop 56 r.cdb)) r.indata in
      let off = r.retrieved_attr_off in
      do
        modify (λ c. record c { outdata = write_at off (listfmt ∷ 0 ∷ 0 ∷ 0 ∷ []) c.outdata })
        within_txn (do
          modify (λ c. record c { get_used_outlen = 8 })
          get_entries (list_len / 8) (drop 8 list_hdr) pid oid numoid listfmt (sub32 (cdb32 r 60) 8)
              cdb_cont_len
          modify (λ c. record c {
            outdata = write_at (off + 4) (set_htonl (sub32 c.get_used_outlen 8)) c.outdata;
          }))

  pub get_attr_list : ℕ → ℕ → ℕ → ℕ → Exec (Cmd q f) Unit
  get_attr_list pid oid numoid cdb_cont_len =
      if cdb32 r 52 == 0
      then pure tt
      else if not r.has_outdata
      then raise (param_list_err pid oid)
      else (leave_with (list_fault pid oid) >> get_list pid oid numoid cdb_cont_len)

  -- The loop over a list of values, at most `fuel` rounds, while `list_len` bytes are left. Entries that
  -- run over the length make it wrap around.
  set_entries : ℕ → ℕ → List ℕ → ℕ → ℕ → ℕ → ℕ → Exec (Cmd q f) Unit
  set_entries zero list_len p pid oid numoid cdb_cont_len = if list_len == 0 then pure tt else spin
  set_entries (suc fuel) list_len p pid oid numoid cdb_cont_len =
      let len = get_ntohs (drop le_len_off p) in
      let round : Exec (Cmd q f) Unit = (do
        set_objects (objects oid numoid) pid oid (get_ntohl (drop le_page_off p))
            (get_ntohl (drop le_number_off p)) (drop le_val_off p) len cdb_cont_len
        set_entries fuel (sub32 list_len (entry_len len)) (drop (entry_len len) p) pid oid numoid
            cdb_cont_len) in
      if list_len == 0 then pure tt else round

  -- `list_off` has 32 bits here, and is not compared with the length of the input.
  pub set_attr_list : ℕ → ℕ → ℕ → ℕ → Exec (Cmd q f) Unit
  set_attr_list pid oid numoid cdb_cont_len =
      let setattr_list_len = cdb32 r 68 in
      let list_hdr = drop (get_ntohoffset (drop 72 r.cdb) % 2 ^ 32) r.indata in
      let list_len = sub32 setattr_list_len 8 in
      if setattr_list_len == 0
      then pure tt
      else if ltb setattr_list_len list_hdr_len
      then raise (param_list_err pid oid)
      else if not (get8 list_hdr 0 % 16 == rtrvd_set_attr_list)
      then raise (param_list_err pid oid)
      else if not (list_len % 8 == 0)
      then raise (param_list_err pid oid)
      else within_txn (set_entries list_len list_len (drop 8 list_hdr) pid oid numoid cdb_cont_len)

  unfoldable pub get_attributes : ℕ → ℕ → ℕ → ℕ → Exec (Cmd q f) Unit
  get_attributes pid oid numoid cdb_cont_len =
      if ltb numoid 1
      then raise (cdb_err pid oid)
      else if r.getset_cdbfmt == getpage_setvalue
      then get_attr_page pid oid numoid cdb_cont_len
      else if r.getset_cdbfmt == getlist_setlist
      then get_attr_list pid oid numoid cdb_cont_len
      else if r.getset_cdbfmt == getfield_setvalue
      then pure tt
      else raise (cdb_err pid oid)

  unfoldable pub set_attributes : ℕ → ℕ → ℕ → ℕ → Exec (Cmd q f) Unit
  set_attributes pid oid numoid cdb_cont_len =
      if ltb numoid 1
      then raise (cdb_err pid oid)
      else if r.getset_cdbfmt == getpage_setvalue
      then set_attr_value pid oid numoid cdb_cont_len
      else if r.getset_cdbfmt == getlist_setlist
      then set_attr_list pid oid numoid cdb_cont_len
      else if r.getset_cdbfmt == getfield_setvalue
      then set_one_attr_value pid oid numoid cdb_cont_len
      else raise (cdb_err pid oid)

  unfoldable pub std_get_set_attr : ℕ → ℕ → ℕ → Exec (Cmd q f) Unit
  std_get_set_attr pid oid cdb_cont_len = do
    set_attributes pid oid 1 cdb_cont_len
    get_attributes pid oid 1 cdb_cont_len

  -- The `k` entries of a list of requested attributes: page and number.
  pub parsed_entries : ℕ → List ℕ → List (ℕ × ℕ)
  parsed_entries zero p = []
  parsed_entries (suc k) p = (get_ntohl p, get_ntohl (drop 4 p)) ∷ parsed_entries k (drop 8 p)

  -- The entries of the list in the request; `malloc` succeeds.
  pub parse_getattr_list : ℕ → ℕ → Exec (Cmd q f) (List (ℕ × ℕ))
  parse_getattr_list pid oid =
      let list_hdr = drop (get_ntohoffset (drop 56 r.cdb)) r.indata in
      if cdb32 r 52 == 0
      then pure []
      else (leave_with (list_fault pid oid)
          >> pure (parsed_entries (sub32 (cdb32 r 52) 8 / 8) (drop 8 list_hdr)))

  -- The entries of a list of values: page, number, and the value.
  pub parse_entries : ℕ → ℕ → List ℕ → Exec (Cmd q f) (List (ℕ × ℕ × List ℕ))
  parse_entries zero list_len p = if list_len == 0 then pure [] else spin
  parse_entries (suc fuel) list_len p =
      let len = get_ntohs (drop le_len_off p) in
      let round : Exec (Cmd q f) (List (ℕ × ℕ × List ℕ)) = (do
        rest ← parse_entries fuel (sub32 list_len (entry_len len)) (drop (entry_len len) p)
        pure (
            (
              get_ntohl (drop le_page_off p),
              get_ntohl (drop le_number_off p),
              lend len (drop le_val_off p),
            )
            ∷ rest)) in
      if list_len == 0 then pure [] else round

  pub parse_setattr_list : ℕ → ℕ → Exec (Cmd q f) (List (ℕ × ℕ × List ℕ))
  parse_setattr_list pid oid =
      let setattr_list_len = cdb32 r 68 in
      let list_hdr = drop (get_ntohoffset (drop 72 r.cdb) % 2 ^ 32) r.indata in
      let list_len = sub32 setattr_list_len 8 in
      if setattr_list_len == 0
      then pure []
      else if ltb setattr_list_len list_hdr_len
      then raise (param_list_err pid oid)
      else if not (get8 list_hdr 0 % 16 == rtrvd_set_attr_list)
      then raise (param_list_err pid oid)
      else if not (list_len % 8 == 0)
      then raise (param_list_err pid oid)
      else parse_entries list_len list_len (drop 8 list_hdr)
