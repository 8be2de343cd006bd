-- ===== src/Device/Attributes.antt =====
-- The attributes that are not rows of a table: `attr_get_attr` and `attr_set_attr` of osd-target/attr.c,
-- and in osd-target/osd.c the pages for the current command, the time stamps and the information on
-- objects and on the root. The functions return codes, and leave the caller's memory as they filled it.
pub mod Info
pub mod Getting
pub mod Setting
pub mod Kept
pub mod RoundTrip
pub mod Own
use viji_osc_osd.Base.{
  ℕ, zero, suc, ◌+◌, ◌*◌, ◌/◌, ◌%◌, ◌^◌, ◌-◌, Bool, true, false, not, ◌&&◌, ◌||◌, Option, none,
  some, List, [], ◌∷◌, ◌++◌, length, take, replicate, ltb, leb, ◌==◌, if◌then◌else◌,
}
use viji_osc_osd.Base.Bytes.{write_at}
use viji_osc_osd.Wire.{set_htonl, set_htonll, set_htontime_le}
use viji_osc_osd.Db.{osd_ok, osd_error}
use viji_osc_osd.ListEntry.{
  PackResult, einval, eoverflow, aborted, packed, le_pack_attr, le_multiobj_pack_attr,
}
use viji_osc_osd.Store.{Sqlite}
use viji_osc_osd.Files.{Files, Stat, Times, regular, special, absent, stat_error}
use viji_osc_osd.Exec.{Exec, value}
use viji_osc_osd.Attr.{
  AttrRet, code, invalid, asserted, Retrieval, rtrvd_set_attr_list, rtrvd_create_multiobj_list,
  attr_page_id_len,
}
use viji_osc_osd.Device.{Device, Ccap}

abbrev pub cur_cmd_attr_pg : ℕ
cur_cmd_attr_pg = 0xFFFFFFFE

abbrev pub user_info_pg : ℕ
user_info_pg = 1

abbrev pub user_tmstmp_pg : ℕ
user_tmstmp_pg = 3

abbrev pub user_atomics_pg : ℕ
user_atomics_pg = 6

abbrev pub root_info_pg : ℕ
root_info_pg = 0x90000001

-- "INCITS  T10 "
abbrev pub incits : List ℕ
incits = 0x49 ∷ 0x4E ∷ 0x43 ∷ 0x49 ∷ 0x54 ∷ 0x53 ∷ 0x20 ∷ 0x20 ∷ 0x54 ∷ 0x31 ∷ 0x30 ∷ 0x20 ∷ []

abbrev cur_cmd_name : List ℕ
cur_cmd_name =
    incits
    ++ (0x43 ∷ 0x75 ∷ 0x72 ∷ 0x72 ∷ 0x65 ∷ 0x6E ∷ 0x74 ∷ 0x20 ∷ 0x43 ∷ 0x6F ∷ 0x6D ∷ 0x6D ∷ 0x61
        ∷ 0x6E ∷ 0x64 ∷ 0x00 ∷ [])

abbrev tmstmp_name : List ℕ
tmstmp_name =
    incits
    ++ (0x55 ∷ 0x73 ∷ 0x65 ∷ 0x72 ∷ 0x20 ∷ 0x4F ∷ 0x62 ∷ 0x6A ∷ 0x65 ∷ 0x63 ∷ 0x74 ∷ 0x20 ∷ 0x54
        ∷ 0x69 ∷ 0x6D ∷ 0x65 ∷ 0x73 ∷ 0x74 ∷ 0x61 ∷ 0x6D ∷ 0x70 ∷ 0x73 ∷ 0x00 ∷ [])

-- What a value is asked of: its length and its bytes, or the function returns with what it left.
pub data Shown : Type 0 where
  shows : ℕ → Option (List ℕ) → Shown
  returns : Retrieval → Shown

-- A packing function's result as the functions below return it. `used` is the caller's variable.
pub pack_done : ℕ → PackResult × List ℕ → Retrieval
pack_done used (packed zero, mem) = record { ret = asserted; outdata = mem; used_outlen = used }
pack_done used (packed (suc n), mem) = record {
  ret = code osd_ok;
  outdata = mem;
  used_outlen = suc n;
}
pack_done used (eoverflow, mem) = record { ret = code osd_ok; outdata = mem; used_outlen = 0 }
pack_done used (einval, mem) = record { ret = invalid; outdata = mem; used_outlen = used }
pack_done used (aborted, mem) = record { ret = asserted; outdata = mem; used_outlen = used }

abbrev pub error_with : ℕ → List ℕ → Retrieval
error_with used outdata = record { ret = code osd_error; outdata = outdata; used_outlen = used }

pub found_size : Stat → Option ℕ
found_size (regular size) = some size
found_size (special size) = some size
found_size absent = none
found_size stat_error = none

-- `set_hton_time`: 6 bytes, unless the milliseconds do not fit in 48 bits.
pub set_hton_time : ℕ × ℕ → Option (List ℕ)
set_hton_time (sec, nsec) =
    let time = (sec * 1000 + nsec / 1000000) % 2 ^ 64 in
    if leb (2 ^ 48) time then none else some (set_htontime_le time)

-- A time in a variable of 8 bytes that holds 0 before.
time_value : ℕ × ℕ → List ℕ
time_value t = elim (set_hton_time t) [
  | none ↦ replicate 8 0
  | some bytes ↦ write_at 0 bytes (replicate 8 0)
]

-- The pages that are packed by their own functions.
get_ccap_page : Ccap → List ℕ
get_ccap_page c = write_at 60 (set_htonll c.append_off) (
    write_at 52 (set_htonll c.oid) (
      write_at 44 (set_htonll c.pid) (
        write_at 40 ((c.obj_type % 2 ^ 8) ∷ []) (
          write_at 8 (replicate 32 0) (
            write_at 4 (set_htonl 60) (write_at 0 (set_htonl cur_cmd_attr_pg) (replicate 68 0)))))))

-- `get_ccap`
pub get_ccap : Ccap → List ℕ → ℕ → ℕ → Retrieval
get_ccap c outbuf outlen used =
    if ltb outlen 68
    then record { ret = code osd_ok; outdata = outbuf; used_outlen = 0 }
    else record {
      ret = code osd_ok;
      outdata = write_at 0 (get_ccap_page c) outbuf;
      used_outlen = 68;
    }

-- The times in the order of the page, each behind the one before; the first that does not fit ends the
-- function.
put_times : ℕ → List (ℕ × ℕ) → List ℕ → Retrieval
put_times off [] buf = record { ret = code osd_ok; outdata = buf; used_outlen = 38 }
put_times off (t ∷ times) buf =
    let rest = put_times (off + 6) times in
    elim (set_hton_time t) [
      | none ↦ record { ret = code osd_error; outdata = buf; used_outlen = 0 }
      | some bytes ↦ rest (write_at off bytes buf)
    ]

-- Whether assertions are compiled out, and the address of the caller's memory.
module _ (ndebug : Bool) (addr : ℕ) where
  pub pack_as : ℕ → ℕ → ℕ → ℕ → ℕ → ℕ → ℕ → Option (List ℕ) → List ℕ → Retrieval
  pack_as listfmt used oid outlen page number len val outdata =
      if listfmt == rtrvd_set_attr_list
      then pack_done used (le_pack_attr addr outdata (outlen % 2 ^ 32) page number len val)
      else if listfmt == rtrvd_create_multiobj_list
      then pack_done used
          (le_multiobj_pack_attr ndebug addr outdata (outlen % 2 ^ 32) oid page number len val)
      else error_with used outdata

  utsap_packed : ℕ → ℕ → ℕ → List ℕ → ℕ → ℕ → Shown → Retrieval
  utsap_packed oid number used outbuf outlen listfmt (returns r) = r
  utsap_packed oid number used outbuf outlen listfmt (shows len val) =
      if listfmt == rtrvd_create_multiobj_list
      then pack_done used (
          le_multiobj_pack_attr ndebug addr outbuf (outlen % 2 ^ 32) oid user_tmstmp_pg number len
            val)
      else pack_done used (le_pack_attr addr outbuf (outlen % 2 ^ 32) user_tmstmp_pg number len val)

-- `get_ccap_aslist`
pub get_ccap_aslist : ℕ → Ccap → ℕ → List ℕ → ℕ → ℕ → Retrieval
get_ccap_aslist addr c number outbuf outlen used =
    let put = λ (len : ℕ) (val : List ℕ).
      pack_done used
        (le_pack_attr addr outbuf (outlen % 2 ^ 32) cur_cmd_attr_pg number len (some val)) in
    if number == 0
    then put attr_page_id_len (write_at 0 cur_cmd_name (replicate 40 0))
    else if number == 1
    then put 32 (replicate 32 0)
    else if number == 2
    then put 1 ((c.obj_type % 2 ^ 8) ∷ [])
    else if number == 3
    then put 8 (set_htonll c.pid)
    else if number == 4
    then put 8 (set_htonll c.oid)
    else if number == 5
    then put 8 (set_htonll c.append_off)
    else error_with used outbuf

utsap_page : List ℕ → Option Times → Option Times → Retrieval
utsap_page buf none db_times = error_with 0 buf
utsap_page buf (some data_times) none = error_with 0 buf
utsap_page buf (some data_times) (some db_times) =
    put_times 8
      (data_times.ctime ∷ db_times.atime ∷ db_times.mtime ∷ data_times.atime ∷ data_times.mtime
        ∷ [])
      buf

-- A time stamp that `stat` found, or the error.
stamp : ℕ → List ℕ → (Times → ℕ × ℕ) → Option Times → Shown
stamp used outbuf which none = returns (error_with used outbuf)
stamp used outbuf which (some t) = shows 6 (some (time_value (which t)))

module _ (f : Files) where
  -- `stat` of the object's file.
  file_times : ℕ → ℕ → f.Fs → Option Times
  file_times pid oid s = elim (found_size (f.stat pid oid s)) [
    | none ↦ none
    | some size ↦ some (f.times pid oid s)
  ]

  stamped : ℕ → ℕ → ℕ → ℕ → List ℕ → f.Fs → Shown
  stamped pid oid number used outbuf s =
      if number == 0
      then shows attr_page_id_len (some (write_at 0 tmstmp_name (replicate 40 0)))
      else if number == 1
      then stamp used outbuf (λ t. t.ctime) (file_times pid oid s)
      else if number == 2
      then stamp used outbuf (λ t. t.atime) (f.db_times s)
      else if number == 3
      then stamp used outbuf (λ t. t.mtime) (f.db_times s)
      else if number == 4
      then stamp used outbuf (λ t. t.atime) (file_times pid oid s)
      else if number == 5
      then stamp used outbuf (λ t. t.mtime) (file_times pid oid s)
      else returns (error_with used outbuf)

module _ {q : Sqlite} {f : Files} where
  -- `get_utsap`. `*used_outlen` is not used after an error.
  pub get_utsap : ℕ → ℕ → List ℕ → ℕ → Exec (Device q f) Retrieval
  get_utsap pid oid outbuf outlen d =
      if ltb outlen 38
      then (value (record { ret = code osd_ok; outdata = outbuf; used_outlen = 0 }), d)
      else (let buf =
            write_at 4 (set_htonl 30)
              (write_at 0 (set_htonl user_tmstmp_pg) (write_at 0 (replicate 38 0) outbuf)) in
          (value (utsap_page buf (file_times f pid oid d.fs) (f.db_times d.fs)), d))

  -- `get_utsap_aslist`
  pub get_utsap_aslist : Bool → ℕ → ℕ → ℕ → ℕ → List ℕ → ℕ → ℕ → ℕ → Exec (Device q f) Retrieval
  get_utsap_aslist ndebug addr pid oid number outbuf outlen listfmt used d = (
    value (
        utsap_packed ndebug addr oid number used outbuf outlen listfmt
          (stamped f pid oid number used outbuf d.fs)),
    d,
  )
