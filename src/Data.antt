-- ===== src/Data.antt =====
-- The handlers of osd-target/osd.c on the data of a user object, and the functions that they choose
-- from by the type of the data descriptor. `lseek` to the end gives the size; `malloc` and `calloc`
-- count as system calls.
pub mod Written
pub mod Appended
pub mod Unnumbered
pub mod Punched
pub mod Mapped
use viji_osc_osd.Base.{
  ℕ, zero, suc, ◌+◌, ◌*◌, ◌-◌, ◌%◌, ◌^◌, Bool, true, false, not, ◌&&◌, Option, none, some, List, [],
  ◌∷◌, ◌++◌, drop, replicate, length, ltb, leb, ◌==◌, if◌then◌else◌,
}
use viji_osc_osd.Base.Bytes.{write_at}
use viji_osc_osd.Wire.{get_ntohll, set_htons, set_htonl, set_htonll}
use viji_osc_osd.Sense.{illegal_request}
use viji_osc_osd.Store.{Sqlite, userobject}
use viji_osc_osd.Files.{Files, Stat, regular, special, absent, stat_error}
use viji_osc_osd.Exec.{
  Reply, sdd, osd_error_reply, Exit, Exec, pure, raise, ◌>>=◌, ◌>>◌, leave_if, spin, assert, ignore,
  value, reply, unfinished,
}
use viji_osc_osd.Device.{Device, object_lb, add64, sub64, cdb_err, hw_err, sys, fill_ccap}
use viji_osc_osd.Device.Create.{osd_create}
use viji_osc_osd.Device.Remove.{osd_remove}
use viji_osc_osd.Io.{
  SgList, Transfer, open_object, close_object, require_open, pwrite_all, short, most_rounds,
  contig_read, sgl_read, vec_read, contig_write, sgl_write, vec_write, sgl_write_all,
  vec_write_rounds, require_read, lend,
}

-- The data descriptor types of osd-util/osd-defs.h.
abbrev pub ddt_contig : ℕ
ddt_contig = 0

abbrev pub ddt_sgl : ℕ
ddt_sgl = 1

abbrev pub ddt_vec : ℕ
ddt_vec = 2

abbrev pub osd_error_unimplemented : Reply
osd_error_unimplemented = sdd illegal_request 0 0 0

abbrev pub osd_error_bad_cdb : Reply
osd_error_bad_cdb = sdd illegal_request 0 0 0

-- The size of the pieces of a map in `osd_read_map`: `dscptr_size`.
abbrev pub dscptr_size : ℕ
dscptr_size = 4

abbrev pub written_data : ℕ
written_data = 0x0001

-- The result when the caller lends no bytes at all.
abbrev untouched : List ℕ → Transfer
untouched outdata = record { outdata = outdata; used_outlen = 0; warning = none }

-- The fields of a descriptor that `set_dscptr` writes, from its third byte on.
set_dscptr : ℕ → ℕ → ℕ → List ℕ
set_dscptr dscptr_type data_len byte_offset =
    set_htons dscptr_type ++ set_htonl data_len ++ set_htonll byte_offset

-- The loop of `osd_read_map`, at most `fuel` rounds: the buffer, with the next descriptor at
-- `byte_offset`, and the number of descriptors. `none` means that the fuel ran out, or that a descriptor
-- was written behind the buffer, whose length the loop does not look at: what happens then is undefined.
pub map_rounds : ℕ → ℕ → List ℕ → ℕ → ℕ → Option (List ℕ × ℕ)
map_rounds zero file_size outdata byte_offset add_len =
    if file_size == 0 then some (outdata, add_len) else none
map_rounds (suc fuel) file_size outdata byte_offset add_len =
    let data_len = if leb file_size dscptr_size then file_size else dscptr_size in
    let rest =
      map_rounds fuel (file_size - dscptr_size)
        (write_at (byte_offset + 2) (set_dscptr written_data data_len byte_offset) outdata)
        (byte_offset + 16) (add_len + 1) in
    if file_size == 0
    then some (outdata, add_len)
    else if ltb (length outdata) (byte_offset + 16)
    then none
    else rest

-- The additional length in front of the descriptors.
pub mapped : Option (List ℕ × ℕ) → Option Transfer
mapped none = none
mapped (some (outdata, add_len)) = some (record {
  outdata =
      (let mapped_len = add_len * 16 % 2 ^ 64 in
        write_at 0 (set_htonll (if ltb 0xffffffff mapped_len then 0xffffffff else mapped_len))
          outdata);
  used_outlen = add64 8 (add_len * 16 % 2 ^ 64);
  warning = none;
})

module _ {q : Sqlite} {f : Files} where
  -- `lseek(fd, 0, SEEK_END)`
  require_end : Reply → Option ℕ → Exec (Device q f) ℕ
  require_end hw none = raise hw
  require_end hw (some off) = pure off

  seek_to_end : ℕ → Reply → Exec (Device q f) ℕ
  seek_to_end fd hw = do found ← sys (f.seek_end fd); require_end hw found

  pub contig_append : ℕ → ℕ → ℕ → List ℕ → Exec (Device q f) Unit
  contig_append pid oid len appenddata = do
    let hw = hw_err pid oid
    fd ← open_object pid oid
    off ← seek_to_end fd hw
    pwrite_all fd appenddata len off hw
    close_object fd hw
    fill_ccap userobject pid oid off

  -- The number of entries stands in front of them, and the data behind.
  pub sgl_append : ℕ → ℕ → ℕ → List ℕ → Exec (Device q f) Unit
  sgl_append pid oid len appenddata = do
    let hw = hw_err pid oid
    let pairs = get_ntohll appenddata
    let data_offset = add64 (pairs * 16 % 2 ^ 64) 8
    assert (not (pairs == 0))
    fd ← open_object pid oid
    off ← seek_to_end fd hw
    sgl_write_all fd pairs (drop 8 appenddata) off (drop data_offset appenddata) hw
    close_object fd hw
    fill_ccap userobject pid oid off

  pub vec_append : ℕ → ℕ → ℕ → List ℕ → Exec (Device q f) Unit
  vec_append pid oid len appenddata = do
    let hw = hw_err pid oid
    let stride = get_ntohll appenddata
    let length' = get_ntohll (drop 8 appenddata)
    fd ← open_object pid oid
    off ← seek_to_end fd hw
    vec_write_rounds most_rounds fd (drop 16 appenddata) (sub64 len 16) length' stride 0 off hw
    close_object fd hw
    fill_ccap userobject pid oid off

  pub osd_append : ℕ → ℕ → ℕ → List ℕ → ℕ → ℕ → Exec (Device q f) Unit
  osd_append pid oid len appenddata cdb_cont_len ddt =
      if ddt == ddt_contig
      then contig_append pid oid len (drop cdb_cont_len appenddata)
      else if ddt == ddt_sgl
      then sgl_append pid oid len (drop cdb_cont_len appenddata)
      else if ddt == ddt_vec
      then vec_append pid oid len appenddata
      else raise (cdb_err pid oid)

  pub osd_read_device : ℕ → ℕ → ℕ → ℕ → List ℕ → List ℕ → SgList → ℕ → Exec (Device q f) Transfer
  osd_read_device pid oid len offset indata outdata sglist ddt =
      if ddt == ddt_contig
      then contig_read pid oid len offset outdata
      else if ddt == ddt_sgl
      then sgl_read pid oid len offset sglist outdata
      else if ddt == ddt_vec
      then vec_read pid oid len offset indata outdata
      else raise (cdb_err pid oid)

  pub osd_write : ℕ → ℕ → ℕ → ℕ → List ℕ → SgList → ℕ → Exec (Device q f) Unit
  osd_write pid oid len offset dinbuf sglist ddt =
      if ddt == ddt_contig
      then contig_write pid oid len offset dinbuf
      else if ddt == ddt_sgl
      then sgl_write pid oid len offset dinbuf sglist
      else if ddt == ddt_vec
      then vec_write pid oid len offset dinbuf
      else raise (cdb_err pid oid)

  -- The object is removed when it could not be written. Both replies are built in the same buffer:
  -- the later one counts.
  after_write : ℕ → ℕ → Exit Unit × Device q f → Exit Unit × Device q f
  after_write pid oid (value u, d) = (value u, d)
  after_write pid oid (reply r, d) = (osd_remove pid oid >> raise r) d
  after_write pid oid (unfinished, d) = (unfinished, d)

  pub osd_create_and_write : ℕ → ℕ → ℕ → ℕ → List ℕ → SgList → ℕ → Exec (Device q f) Unit
  osd_create_and_write pid oid len offset dinbuf sglist ddt = do
    osd_create pid oid 1
    λ d. after_write pid oid (osd_write pid oid len offset dinbuf sglist ddt d)

  -- A handler that closes its file on the way out.
  abbrev pub close_and : {A : Type 0} → ℕ → Reply → Exec (Device q f) A
  close_and fd r = sys (f.close fd) >> raise r

  pub osd_clear : ℕ → ℕ → ℕ → ℕ → Exec (Device q f) Unit
  osd_clear pid oid len offset = do
    let hw = hw_err pid oid
    room ← sys (f.alloc len)
    leave_if (not room) (raise hw)
    fd ← open_object pid oid
    written ← sys (f.pwrite fd (replicate len 0) offset)
    leave_if (short len written) (close_and fd hw)
    closed ← sys (f.close fd)
    leave_if (not closed) (close_and fd hw)
    fill_ccap userobject pid oid 0

  -- `ret = stat(path, &sb); if (ret != 0) { close(fd); return OSD_ERROR; }`: the size.
  size_or_leave : ℕ → Stat → Exec (Device q f) ℕ
  size_or_leave fd (regular size) = pure size
  size_or_leave fd (special size) = pure size
  size_or_leave fd absent = close_and fd osd_error_reply
  size_or_leave fd stat_error = close_and fd osd_error_reply

  pub stat_size : ℕ → ℕ → ℕ → Exec (Device q f) ℕ
  stat_size fd pid oid d = size_or_leave fd (f.stat pid oid d.fs) d

  -- A result of `truncate`, `pread` or `pwrite` that ends in `out_hw_err`.
  leave_hw_if : Bool → ℕ → Reply → Exec (Device q f) Unit
  leave_hw_if failed fd hw = leave_if failed (close_and fd hw)

  close_or_hw : ℕ → Reply → Exec (Device q f) Unit
  close_or_hw fd hw = do closed ← sys (f.close fd); leave_hw_if (not closed) fd hw

  -- The range ends behind the end of the object.
  punch_tail : ℕ → ℕ → ℕ → ℕ → Reply → Exec (Device q f) Unit
  punch_tail fd pid oid offset hw = do
    cut ← sys (f.truncate pid oid offset)
    leave_hw_if (not cut) fd hw
    close_or_hw fd hw

  bytes_or_leave : ℕ → Reply → Option (List ℕ) → Exec (Device q f) (List ℕ)
  bytes_or_leave fd hw none = close_and fd hw
  bytes_or_leave fd hw (some bytes) = pure bytes

  -- Moves the `new_len` bytes behind the range to its start. Bytes that were asked for and not read
  -- are undefined in the buffer; the model has 0 there.
  punch_middle : ℕ → ℕ → ℕ → ℕ → ℕ → ℕ → Reply → Exec (Device q f) Unit
  punch_middle fd pid oid offset new_offset new_len hw = do
    room ← sys (f.alloc new_len)
    leave_hw_if (not room) fd hw
    found ← sys (f.pread fd new_len new_offset)
    buf ← bytes_or_leave fd hw found
    written ← sys (f.pwrite fd (lend new_len buf) offset)
    leave_hw_if (short new_len written) fd hw
    cut ← sys (f.truncate pid oid (add64 offset new_len))
    leave_hw_if (not cut) fd hw
    close_or_hw fd hw

  pub osd_punch : ℕ → ℕ → ℕ → ℕ → Exec (Device q f) Unit
  osd_punch pid oid len offset = do
    let hw = hw_err pid oid
    fd ← open_object pid oid
    let new_offset = add64 len offset
    size ← stat_size fd pid oid
    leave_if (ltb size offset) (close_and fd (cdb_err pid oid))
    if ltb size new_offset
        then punch_tail fd pid oid offset hw
        else punch_middle fd pid oid offset new_offset (size - new_offset) hw

  -- The scopes of `osd_flush`: 0 for data and attributes, 2 for a range, and those without code.
  flush_all : ℕ → ℕ → ℕ → Exec (Device q f) Unit
  flush_all fd pid oid = do
    let hw = hw_err pid oid
    done ← sys (f.fdatasync fd)
    leave_hw_if (not done) fd hw
    close_or_hw fd hw
    fill_ccap userobject pid oid 0

  -- What `close` returns is not read where the range is cut down to the object.
  flush_range : ℕ → ℕ → ℕ → ℕ → ℕ → Exec (Device q f) Unit
  flush_range fd pid oid len offset = do
    let hw = hw_err pid oid
    size ← stat_size fd pid oid
    leave_if (ltb size offset) (close_and fd (cdb_err pid oid))
    let beyond = ltb (size - offset) len
    done ← sys (f.sync_file_range fd offset (if beyond then size - offset else len))
    leave_hw_if (not done) fd hw
    if beyond
        then sys (f.close fd) >> pure tt
        else (do close_or_hw fd hw; fill_ccap userobject pid oid 0)

  pub osd_flush : ℕ → ℕ → ℕ → ℕ → ℕ → Exec (Device q f) Unit
  osd_flush pid oid len offset flush_scope = do
    fd ← open_object pid oid
    if flush_scope == 0
        then flush_all fd pid oid
        else if flush_scope == 2
        then flush_range fd pid oid len offset
        else raise osd_error_unimplemented

  map_or_spin : Option Transfer → Exec (Device q f) Transfer
  map_or_spin none = spin
  map_or_spin (some t) = pure t

  write_map : ℕ → ℕ → Reply → Option Transfer → Exec (Device q f) Transfer
  write_map fd map_type hw written = do
    leave_if (not (map_type == written_data)) (raise osd_error_unimplemented)
    t ← map_or_spin written
    close_object fd hw
    pure t

  read_map : ℕ → ℕ → ℕ → ℕ → List ℕ → Exec (Device q f) Transfer
  read_map pid oid offset map_type outdata = do
    fd ← open_object pid oid
    size ← stat_size fd pid oid
    leave_if (ltb size offset) (raise (cdb_err pid oid))
    write_map fd map_type (hw_err pid oid)
        (mapped (map_rounds (size - offset) (size - offset) outdata 8 0))

  -- An empty answer is given before anything else is looked at.
  pub osd_read_map : ℕ → ℕ → ℕ → ℕ → ℕ → List ℕ → Exec (Device q f) Transfer
  osd_read_map pid oid alloc_len offset map_type outdata =
      if alloc_len == 0
      then pure (untouched outdata)
      else if ltb alloc_len 24
      then raise (cdb_err pid oid)
      else read_map pid oid offset map_type (write_at 0 (replicate alloc_len 0) outdata)
