-- ===== src/Io.antt =====
-- The reading and writing of object data, osd-target/io.c, as actions on the device. A buffer lent for
-- output is handed back with what was written to it; when the function leaves with a reply, its
-- contents are not used.
pub mod Content
pub mod Opened
pub mod Written
pub mod Reading
use viji_osc_osd.Base.{
  ℕ, zero, suc, ◌+◌, ◌*◌, ◌-◌, ◌%◌, ◌^◌, Bool, true, false, not, ◌&&◌, Option, none, some, List, [],
  ◌∷◌, ◌++◌, drop, replicate, length, ltb, leb, ◌==◌, if◌then◌else◌,
}
use viji_osc_osd.Base.Bytes.{write_at}
use viji_osc_osd.Wire.{get_ntohll}
use viji_osc_osd.Sense.{recovered_error, read_past_end_of_user_object}
use viji_osc_osd.Store.{Sqlite, userobject}
use viji_osc_osd.Files.{Files}
use viji_osc_osd.Exec.{Reply, sdd_csi, Exec, pure, raise, ◌>>=◌, ◌>>◌, leave_if, spin, assert}
use viji_osc_osd.Device.{Device, object_lb, add64, sub64, cdb_err, hw_err, sys, fill_ccap}

-- `n` bytes of the memory at a pointer.
unfoldable pub lend : ℕ → List ℕ → List ℕ
lend zero p = []
lend (suc n) [] = 0 ∷ lend n []
lend (suc n) (b ∷ p) = b ∷ lend n p

-- `struct sg_list`, with the bytes at `entries`.
pub record SgList : Type 0 where
  pub num_entries : ℕ
  pub entries : List ℕ

abbrev sg_entry_len : ℕ
sg_entry_len = 16

abbrev pub entry_offset : List ℕ → ℕ
entry_offset entries = get_ntohll entries

abbrev pub entry_bytes_to_transfer : List ℕ → ℕ
entry_bytes_to_transfer entries = get_ntohll (drop 8 entries)

-- What a function that reads leaves behind when it returns: the output buffer, `*used_outlen`, and
-- sense data for a read past the end.
pub record Transfer : Type 0 where
  pub outdata : List ℕ
  pub used_outlen : ℕ
  pub warning : Option Reply

-- `ret < 0 || ret != length`
abbrev pub short : ℕ → Option ℕ → Bool
short length none = true
short length (some n) = not (n == length)

-- More rounds than any loop below makes whose counter of 64 bits falls in each round, and which may
-- wrap around in the first.
pub most_rounds : ℕ
most_rounds = 2 ^ 64 + 1

pub past_end : ℕ → ℕ → ℕ → ℕ → Option Reply
past_end pid oid len readlen =
    if ltb readlen len
    then some (sdd_csi recovered_error read_past_end_of_user_object pid oid readlen)
    else none

-- What was read, filled up with zeros.
abbrev pub with_zeros : ℕ → List ℕ → List ℕ
with_zeros len bytes = bytes ++ replicate (len - length bytes) 0

module _ {q : Sqlite} {f : Files} where
  -- `if (fd < 0) goto label;`
  abbrev pub require_open : Reply → Option ℕ → Exec (Device q f) ℕ
  require_open label none = raise label
  require_open label (some fd) = pure fd

  -- The test of the identifiers, and the call of `open`.
  unfoldable pub open_object : ℕ → ℕ → Exec (Device q f) ℕ
  open_object pid oid = do
    leave_if (not (leb object_lb pid && leb object_lb oid)) (raise (cdb_err pid oid))
    opened ← sys (f.open_file pid oid)
    require_open (cdb_err pid oid) opened

  -- `ret = close(fd); if (ret != 0) goto out_hw_err;`
  unfoldable pub close_object : ℕ → Reply → Exec (Device q f) Unit
  close_object fd hw = do closed ← sys (f.close fd); leave_if (not closed) (raise hw)

  -- `if (ret < 0) goto out_hw_err;`
  abbrev pub require_read : Reply → Option (List ℕ) → Exec (Device q f) (List ℕ)
  require_read hw none = raise hw
  require_read hw (some bytes) = pure bytes

  -- Between `pread` and the test of its result the file is closed.
  pub contig_read : ℕ → ℕ → ℕ → ℕ → List ℕ → Exec (Device q f) Transfer
  contig_read pid oid len offset outdata = do
    fd ← open_object pid oid
    found ← sys (f.pread fd len offset)
    closed ← sys (f.close fd)
    let hw = hw_err pid oid
    bytes ← require_read hw found
    leave_if (not closed) (raise hw)
    fill_ccap userobject pid oid 0
    pure record {
      outdata = write_at 0 (with_zeros len bytes) outdata;
      used_outlen = len;
      warning = past_end pid oid len (length bytes);
    }

  -- The rounds of `sgl_read` for the entries left, with the buffer and `data_offset`.
  pub sgl_read_rounds : ℕ → ℕ → List ℕ → ℕ → Reply → List ℕ → ℕ → Exec (Device q f) (List ℕ × ℕ)
  sgl_read_rounds fd zero entries offset hw outdata data_offset = pure (outdata, data_offset)
  sgl_read_rounds fd (suc n) entries offset hw outdata data_offset = do
    let length' = entry_bytes_to_transfer entries
    found ← sys (f.pread fd length' (add64 (entry_offset entries) offset))
    bytes ← require_read hw found
    sgl_read_rounds fd n (drop sg_entry_len entries) offset hw
        (write_at data_offset (with_zeros length' bytes) outdata) (add64 data_offset (length bytes))

  -- All entries, with a counter that never gets to 2 ^ 32, as in `sgl_write_all` below.
  sgl_read_all : ℕ → ℕ → List ℕ → ℕ → Reply → List ℕ → Exec (Device q f) (List ℕ × ℕ)
  sgl_read_all fd pairs entries offset hw outdata =
      if ltb pairs (2 ^ 32)
      then sgl_read_rounds fd pairs entries offset hw outdata 0
      else sgl_read_rounds fd (2 ^ 32) entries offset hw outdata 0 >> spin

  pub sgl_read : ℕ → ℕ → ℕ → ℕ → SgList → List ℕ → Exec (Device q f) Transfer
  sgl_read pid oid len offset sglist outdata = do
    fd ← open_object pid oid
    let hw = hw_err pid oid
    (out, readlen) ← sgl_read_all fd sglist.num_entries sglist.entries offset hw outdata
    close_object fd hw
    fill_ccap userobject pid oid 0
    pure record { outdata = out; used_outlen = readlen; warning = past_end pid oid len readlen }

  -- The rounds of `vec_read`, at most `fuel`, while `bytes` are left: the buffer and `readlen`.
  pub vec_read_rounds :
      ℕ → ℕ → ℕ → ℕ → ℕ → ℕ → ℕ → Reply → List ℕ → ℕ → Exec (Device q f) (List ℕ × ℕ)
  vec_read_rounds zero fd bytes length' stride offset_val offset hw outdata readlen =
      if bytes == 0 then pure (outdata, readlen) else spin
  vec_read_rounds (suc fuel) fd bytes length' stride offset_val offset hw outdata readlen =
      let left = sub64 bytes length' in
      let round : Exec (Device q f) (List ℕ × ℕ) = (do
        found ← sys (f.pread fd length' (add64 offset_val offset))
        data' ← require_read hw found
        leave_if (not (length data' == length')) (raise hw)
        vec_read_rounds fuel fd left (if ltb left length' then left else length') stride
            (add64 offset_val stride) offset hw (write_at readlen data' outdata)
            (add64 readlen length')) in
      if bytes == 0 then pure (outdata, readlen) else round

  pub vec_read : ℕ → ℕ → ℕ → ℕ → List ℕ → List ℕ → Exec (Device q f) Transfer
  vec_read pid oid len offset indata outdata = do
    let stride = get_ntohll indata
    let length' = get_ntohll (drop 8 indata)
    fd ← open_object pid oid
    let hw = hw_err pid oid
    (out, readlen) ← vec_read_rounds most_rounds fd len length' stride 0 offset hw outdata 0
    close_object fd hw
    fill_ccap userobject pid oid 0
    pure record { outdata = out; used_outlen = readlen; warning = past_end pid oid len readlen }

  -- `pwrite` of a range of the input buffer, which has to write all of it.
  pub pwrite_all : ℕ → List ℕ → ℕ → ℕ → Reply → Exec (Device q f) Unit
  pwrite_all fd p len offset hw = do
    written ← sys (f.pwrite fd (lend len p) offset)
    leave_if (short len written) (raise hw)

  unfoldable pub contig_write : ℕ → ℕ → ℕ → ℕ → List ℕ → Exec (Device q f) Unit
  contig_write pid oid len offset dinbuf = do
    fd ← open_object pid oid
    pwrite_all fd dinbuf len offset (hw_err pid oid)
    close_object fd (hw_err pid oid)
    fill_ccap userobject pid oid 0

  -- The rounds of `sgl_write` for the entries left, with the data left.
  pub sgl_write_rounds : ℕ → ℕ → List ℕ → ℕ → List ℕ → Reply → Exec (Device q f) Unit
  sgl_write_rounds fd zero entries offset p hw = pure tt
  sgl_write_rounds fd (suc n) entries offset p hw = do
    let length' = entry_bytes_to_transfer entries
    pwrite_all fd p length' (add64 (entry_offset entries) offset) hw
    sgl_write_rounds fd n (drop sg_entry_len entries) offset (drop length' p) hw

  -- All entries. The counter is an `unsigned int`, which never gets to 2 ^ 32: with that many entries or
  -- more the loop begins again at the first one, for ever, unless a round leaves. The model follows the
  -- first 2 ^ 32 rounds.
  unfoldable pub sgl_write_all : ℕ → ℕ → List ℕ → ℕ → List ℕ → Reply → Exec (Device q f) Unit
  sgl_write_all fd pairs entries offset p hw =
      if ltb pairs (2 ^ 32)
      then sgl_write_rounds fd pairs entries offset p hw
      else sgl_write_rounds fd (2 ^ 32) entries offset p hw >> spin

  pub sgl_write : ℕ → ℕ → ℕ → ℕ → List ℕ → SgList → Exec (Device q f) Unit
  sgl_write pid oid len offset dinbuf sglist = do
    assert (not (sglist.num_entries == 0))
    fd ← open_object pid oid
    sgl_write_all fd sglist.num_entries sglist.entries offset dinbuf (hw_err pid oid)
    close_object fd (hw_err pid oid)
    fill_ccap userobject pid oid 0

  -- The rounds of `vec_write`, at most `fuel`, while `bytes` are left, with the data left.
  pub vec_write_rounds : ℕ → ℕ → List ℕ → ℕ → ℕ → ℕ → ℕ → ℕ → Reply → Exec (Device q f) Unit
  vec_write_rounds zero fd p bytes length' stride offset_val offset hw =
      if bytes == 0 then pure tt else spin
  vec_write_rounds (suc fuel) fd p bytes length' stride offset_val offset hw =
      let left = sub64 bytes length' in
      let round : Exec (Device q f) Unit = (do
        pwrite_all fd p length' (add64 offset_val offset) hw
        vec_write_rounds fuel fd (drop length' p) left (if ltb left length' then left else length')
            stride (add64 offset_val stride) offset hw) in
      if bytes == 0 then pure tt else round

  pub vec_write : ℕ → ℕ → ℕ → ℕ → List ℕ → Exec (Device q f) Unit
  vec_write pid oid len offset dinbuf = do
    let stride = get_ntohll dinbuf
    let length' = get_ntohll (drop 8 dinbuf)
    fd ← open_object pid oid
    vec_write_rounds most_rounds fd (drop 16 dinbuf) (sub64 len 16) length' stride 0 offset
        (hw_err pid oid)
    close_object fd (hw_err pid oid)
    fill_ccap userobject pid oid 0
