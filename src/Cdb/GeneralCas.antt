-- ===== src/Cdb/GeneralCas.antt =====
-- `cdb_gen_cas` of osd-target/cdb.c: the general compare and swap, and the attributes that are set and
-- got with it. Where the source frees a pointer that was never set, or frees one twice, the model is
-- unfinished.
use viji_osc_osd.Base.{
  ℕ, zero, suc, ◌+◌, ◌%◌, ◌^◌, Bool, true, false, not, ◌&&◌, ◌||◌, Option, none, some, List, [],
  ◌∷◌, take, drop, replicate, ltb, leb, ◌==◌, if◌then◌else◌,
}
use viji_osc_osd.Base.Bytes.{get8, write_at}
use viji_osc_osd.Wire.{get_ntohs, get_ntohl, set_htonl}
use viji_osc_osd.Offset.{get_ntohoffset}
use viji_osc_osd.ListEntry.{PackResult, einval, eoverflow, aborted, packed, le_pack_attr, roundup8}
use viji_osc_osd.Store.{Sqlite}
use viji_osc_osd.Files.{Files}
use viji_osc_osd.Exec.{
  Exec, Reply, pure, raise, ◌>>=◌, ◌>>◌, modify, leave_if, spin, assert, failing_as,
}
use viji_osc_osd.Attr.{rtrvd_set_attr_list}
use viji_osc_osd.Device.{cdb_err}
use viji_osc_osd.Device.Atomics.{osd_gen_cas, same_bytes}
use viji_osc_osd.Cdb.{Request, Cmd, cdb32, cdb_pid, cdb_oid, on_device, getlist_setlist}
use viji_osc_osd.Cdb.Handlers.{Handlers}
use viji_osc_osd.Cdb.Attributes.{list_hdr_len, sub32, add32, put_back, entry_len, get_attributes}

abbrev pub osd_gen_cas_action : ℕ
osd_gen_cas_action = 0x88A5

abbrev pub osd_cond_setattr : ℕ
osd_cond_setattr = 0x8891

-- Where an entry of this list has its length and its value, which is not where
-- `struct list_entry` has them.
abbrev cas_len_off : ℕ
cas_len_off = 8

abbrev cas_val_off : ℕ
cas_val_off = 10

-- The two values that are compared and swapped, null where they are empty, and the rest of the list.
record CasList : Type 0 where
  pub page : ℕ
  pub number : ℕ
  pub cmp : Option (List ℕ)
  pub cmp_len : ℕ
  pub swap : Option (List ℕ)
  pub swap_len : ℕ
  pub rest : List ℕ
  pub rest_len : ℕ

value_at : List ℕ → ℕ → Option (List ℕ)
value_at list len = if len == 0 then none else some (drop cas_val_off list)

abbrev bytes_at : Option (List ℕ) → List ℕ
bytes_at none = []
bytes_at (some p) = p

cas_list : List ℕ → ℕ → CasList
cas_list list list_len =
    let cmp_len = get_ntohs (drop cas_len_off list) in
    let second = drop (entry_len cmp_len) list in
    let swap_len = get_ntohs (drop cas_len_off second) in
    record {
      page = get_ntohl list;
      number = get_ntohl (drop 4 list);
      cmp = value_at list cmp_len;
      cmp_len = cmp_len;
      swap = value_at second swap_len;
      swap_len = swap_len;
      rest = drop (entry_len swap_len) second;
      rest_len = sub32 (sub32 list_len (entry_len cmp_len)) (entry_len swap_len);
    }

-- Whether the second entry is of the same attribute.
same_attribute : List ℕ → Bool
same_attribute list =
    let second = drop (entry_len (get_ntohs (drop cas_len_off list))) list in
    get_ntohl list == get_ntohl second && get_ntohl (drop 4 list) == get_ntohl (drop 4 second)

-- `val` is what `malloc` returns in `osd_gen_cas`, and `addr` the address of the output buffer.
module _ {q : Sqlite} {f : Files} (h : Handlers q f) (r : Request) (val : List ℕ) (addr : ℕ) where
  -- The part of `exec_gen_cas` that takes the list apart. The pointer that its caller frees after an
  -- error is not set yet.
  parse_cas_list : ℕ → ℕ → Exec (Cmd q f) CasList
  parse_cas_list pid oid =
      let list = drop (get_ntohoffset (drop 72 r.cdb) % 2 ^ 32) r.indata in
      let list_len = get_ntohl (drop 4 list) in
      let first = drop 8 list in
      let left = sub32 list_len (entry_len (get_ntohs (drop cas_len_off first))) in
      do
        leave_if (ltb (cdb32 r 68) list_hdr_len) spin
        leave_if (not (get8 list 0 % 16 == rtrvd_set_attr_list)) spin
        leave_if (not (add32 list_len 8 == cdb32 r 68)) spin
        leave_if (not (list_len % 8 == 0)) spin
        leave_if (ltb left 16) spin
        assert (same_attribute first)
        pure (cas_list first list_len)

  exec_gen_cas : ℕ → ℕ → Exec (Cmd q f) (CasList × Option (List ℕ) × ℕ × Bool)
  exec_gen_cas pid oid = do
    l ← parse_cas_list pid oid
    (orig, orig_len) ←
        on_device
          (osd_gen_cas val pid oid l.page l.number (bytes_at l.cmp) l.cmp_len l.swap l.swap_len)
    let cas_res =
        orig_len == l.cmp_len
        && same_bytes (take l.cmp_len (bytes_at l.cmp)) (take l.cmp_len (bytes_at orig))
    pure (l, orig, orig_len, cas_res)

  -- At most `fuel` rounds, while `list_len` bytes are left.
  set_rest : ℕ → ℕ → ℕ → List ℕ → ℕ → ℕ → Exec (Cmd q f) Unit
  set_rest zero pid oid list list_len cdb_cont_len = if list_len == 0 then pure tt else spin
  set_rest (suc fuel) pid oid list list_len cdb_cont_len =
      let len = get_ntohs (drop cas_len_off list) in
      let round : Exec (Cmd q f) Unit = (do
        on_device (
            h.osd_set_attributes pid oid (get_ntohl list) (get_ntohl (drop 4 list))
              (drop cas_val_off list) len cdb_cont_len)
        set_rest fuel pid oid (drop (entry_len len) list) (sub32 list_len (entry_len len))
            cdb_cont_len) in
      if list_len == 0 then pure tt else round

  exec_cas_setattr : ℕ → ℕ → List ℕ → ℕ → ℕ → Exec (Cmd q f) Unit
  exec_cas_setattr pid oid list list_len cdb_cont_len = do
    leave_if (ltb list_len 16) (raise (cdb_err pid oid))
    set_rest list_len pid oid list list_len cdb_cont_len

  -- The request with room for the first entry in front of the others. The offset is put back afterwards,
  -- and the allocation length is not read again.
  with_room : ℕ → Request
  with_room orig_le_len = record r {
    retrieved_attr_off = r.retrieved_attr_off + orig_le_len;
    cdb = write_at 60 (set_htonl (sub32 (cdb32 r 60) orig_le_len)) r.cdb;
  }

  -- The length of the list with the new entry, and the output that is counted.
  count_original : ℕ → ℕ → ℕ → Exec (Cmd q f) Unit
  count_original off orig_le_len alloc_len c =
      let list_len = add32 (get_ntohl (drop (off + 4) c.outdata)) orig_le_len in
      let used = add32 c.get_used_outlen (add32 list_len 8) in
      (do
        modify (λ c. record c {
          outdata = write_at (off + 4) (set_htonl list_len) c.outdata;
          get_used_outlen = used;
        })
        assert (leb used alloc_len))
        c

  -- The value that was found is put in front. `freed` says whether the source frees it then: after an
  -- error its caller frees it once more.
  put_original : ℕ → ℕ → ℕ → Bool → Reply → PackResult × List ℕ → Exec (Cmd q f) Unit
  put_original off orig_le_len alloc_len freed illegal (packed (suc n), p) = do
    assert (suc n == orig_le_len)
    modify (λ c. record c { outdata = put_back (off + 8) p c.outdata })
    count_original off orig_le_len alloc_len
  put_original off orig_le_len alloc_len freed illegal (packed zero, p) =
      if freed then spin else raise illegal
  put_original off orig_le_len alloc_len freed illegal (einval, p) =
      if freed then spin else raise illegal
  put_original off orig_le_len alloc_len freed illegal (eoverflow, p) =
      if freed then spin else raise illegal
  put_original off orig_le_len alloc_len freed illegal (aborted, p) = spin

  shown_original : Option (List ℕ) → ℕ → Option (List ℕ)
  shown_original orig orig_len = if orig_len == 0 then none else orig

  is_freed : Option (List ℕ) → Bool
  is_freed none = false
  is_freed (some p) = true

  -- Every error of `exec_getattr` leads to the label of `cdb_gen_cas` that reports an illegal request.
  exec_getattr : ℕ → ℕ → CasList → Option (List ℕ) → ℕ → ℕ → Exec (Cmd q f) Unit
  exec_getattr pid oid l orig orig_len cdb_cont_len =
      let alloc_len = cdb32 r 60 in
      let orig_le_len = roundup8 (16 + orig_len) in
      let illegal = cdb_err pid oid in
      let off = r.retrieved_attr_off in
      let shown = shown_original orig orig_len in
      let valen = if is_freed shown then orig_len else 0 in
      do
        leave_if (ltb (sub32 alloc_len 8) orig_le_len) (raise illegal)
        modify (λ c. record c { outdata = write_at (off + orig_le_len) (replicate 8 0) c.outdata })
        failing_as illegal (get_attributes h (with_room orig_le_len) pid oid 1 cdb_cont_len)
        modify (λ c. record c {
          outdata =
              write_at off (rtrvd_set_attr_list ∷ take 7 (drop (off + orig_le_len + 1) c.outdata))
                (write_at (off + orig_le_len) (rtrvd_set_attr_list ∷ []) c.outdata);
        })
        (λ c.
            put_original off orig_le_len alloc_len (is_freed shown) illegal
              (le_pack_attr (addr + off + 8) (drop (off + 8) c.outdata) (sub32 alloc_len 8) l.page
                l.number valen shown)
              c)

  -- Whether the other attributes of the list are set.
  sets_rest : ℕ → CasList → Bool → Bool
  sets_rest osd_cmd l cas_res = not (
      osd_cmd == osd_gen_cas_action && l.rest_len == 0
      || osd_cmd == osd_cond_setattr && (l.rest_len == 0 || not cas_res))

  set_others : Bool → ℕ → ℕ → CasList → ℕ → Exec (Cmd q f) Unit
  set_others false pid oid l cdb_cont_len = pure tt
  set_others true pid oid l cdb_cont_len = exec_cas_setattr pid oid l.rest l.rest_len cdb_cont_len

  pub cdb_gen_cas : ℕ → ℕ → Exec (Cmd q f) Unit
  cdb_gen_cas osd_cmd cdb_cont_len = do
    let pid = cdb_pid r
    let oid = cdb_oid r
    leave_if (not (r.getset_cdbfmt == getlist_setlist)) spin
    (l, orig, orig_len, cas_res) ← exec_gen_cas pid oid
    set_others (sets_rest osd_cmd l cas_res) pid oid l cdb_cont_len
    exec_getattr pid oid l orig orig_len cdb_cont_len
