-- ===== src/Cdb/Submit.antt =====
-- `osdemu_cmd_submit` of osd-target/cdb.c: a command from its descriptor block to the status and the
-- data that go back.
pub mod Handled
use viji_osc_osd.Base.{
  ℕ, ◌+◌, ◌*◌, ◌-◌, ◌/◌, ◌%◌, ◌^◌, Bool, true, false, not, ◌&&◌, ◌||◌, Option, none, some, List, [],
  drop, replicate, ltb, leb, ◌==◌, if◌then◌else◌,
}
use viji_osc_osd.Base.Bytes.{get8, write_at}
use viji_osc_osd.Wire.{get_ntohl, get_ntohll}
use viji_osc_osd.Offset.{get_ntohoffset}
use viji_osc_osd.Sense.{
  illegal_request, hardware_error, invalid_command_opcode, invalid_field_in_cdb,
  system_resource_failure,
}
use viji_osc_osd.Store.{Sqlite}
use viji_osc_osd.Files.{Files}
use viji_osc_osd.Exec.{Exit, Reply, osd_error_reply, header, value, reply, unfinished}
use viji_osc_osd.Device.{Device, add64}
use viji_osc_osd.Cdb.{Cmd, getfield_setvalue, getpage_setvalue, getlist_setlist}
use viji_osc_osd.Cdb.Handlers.{Handlers}
use viji_osc_osd.Cdb.Service.{exec_service_action}

abbrev varlen_cdb : ℕ
varlen_cdb = 0x7f

abbrev osd_cdb_size : ℕ
osd_cdb_size = 236

-- An offset that says that there is nothing: -1.
abbrev no_offset : ℕ
no_offset = 2 ^ 64 - 1

-- `cmd->outlen` for the data of a command: a length of 8 bytes, one of 4, or none.
unfoldable pub data_len : ℕ → List ℕ → ℕ
data_len action cdb =
    if action == 0x8883
      || action == 0x8897
      || action == 0x8885
      || action == 0x88a0
      || action == 0x888d
      || action == 0x8890
      || action == 0x88a5
    then get_ntohll (drop 32 cdb)
    else if action == 0x8899
    then get_ntohl (drop 36 cdb)
    else 0

-- Where the retrieved attributes end, if they are asked for.
abbrev attributes_end : ℕ → ℕ → ℕ
attributes_end off len = if off == no_offset then 0 else add64 off len

abbrev larger : ℕ → ℕ → ℕ
larger outlen end = if ltb outlen end then end else outlen

-- `retrieved_attr_off` and `outlen`, or a format that is not known.
unfoldable pub calc_max_out_len : ℕ → ℕ → List ℕ → Option (ℕ × ℕ)
unfolding data_len
calc_max_out_len action fmt cdb =
    let outlen = data_len action cdb in
    if fmt == getpage_setvalue
    then (let off = get_ntohoffset (drop 60 cdb) in
        some (off, larger outlen (attributes_end off (get_ntohl (drop 56 cdb)))))
    else if fmt == getlist_setlist
    then (let off = get_ntohoffset (drop 64 cdb) in
        some (off, larger outlen (attributes_end off (get_ntohl (drop 60 cdb)))))
    else if fmt == getfield_setvalue
    then some (0, outlen)
    else none

-- SAM_STAT_GOOD, or SAM_STAT_CHECK_CONDITION with sense data.
pub data Status : Type 0 where
  good : Status
  check_condition : Reply → Status

-- `data_out` and `data_out_len` are those of the caller unless the command returns data.
pub record Outcome : Type 0 where
  pub status : Status
  pub data_out : List ℕ
  pub data_out_len : ℕ

abbrev status_of : Option Reply → Status
status_of none = good
status_of (some r) = check_condition r

-- Zeros in front of the retrieved attributes, and how much of the output is used.
unfoldable pub with_attributes : ℕ → List ℕ → ℕ → ℕ → List ℕ × ℕ
with_attributes off outdata used get_used =
    if ltb 0 get_used && not (off == no_offset)
    then (
      if ltb used off then write_at used (replicate (off - used) 0) outdata else outdata,
      add64 off get_used,
    )
    else (outdata, used)

module _ {q : Sqlite} {f : Files} where
  -- The labels that give the data buffer back.
  out_free_resource : Status → List ℕ → Device q f → Exit Outcome × Device q f
  out_free_resource status buf d =
      (value record { status = status; data_out = buf; data_out_len = 0 }, d)

  refuse : ℕ → ℕ → List ℕ → Device q f → Exit Outcome × Device q f
  refuse key code buf d = out_free_resource (check_condition (header key code)) buf d

  -- What is returned behind the execution. The assertion is that the output fits.
  return_data : ℕ → ℕ → List ℕ → Status → List ℕ × ℕ → Device q f → Exit Outcome × Device q f
  return_data outlen given_len buf status (outdata, used) d =
      if outlen == 0
      then (value record { status = status; data_out = buf; data_out_len = given_len }, d)
      else if not (leb used outlen)
      then (unfinished, d)
      else if ltb 0 used
      then (value record { status = status; data_out = outdata; data_out_len = used }, d)
      else out_free_resource status buf d

  -- The bare OSD_ERROR is a length of -1 of the sense data, which `memcpy` takes for all of memory: what
  -- happens then is undefined.
  finish : ℕ → ℕ → ℕ → List ℕ → Exit (Option Reply) × Cmd q f → Exit Outcome × Device q f
  finish off outlen given_len buf (value warning, c) =
      return_data outlen given_len buf (status_of warning)
        (with_attributes off c.outdata c.used_outlen c.get_used_outlen) c.device
  finish off outlen given_len buf (reply osd_error_reply, c) = (unfinished, c.device)
  finish off outlen given_len buf (reply r, c) =
      return_data outlen given_len buf (check_condition r)
        (with_attributes off c.outdata c.used_outlen c.get_used_outlen) c.device
  finish off outlen given_len buf (unfinished, c) = (unfinished, c.device)

  module _ (h : Handlers q f) (cdb : List ℕ) (data_in : Option (List ℕ)) (data_in_len : ℕ) where
    abbrev action_of : ℕ
    action_of = get8 cdb 8 * 2 ^ 8 + get8 cdb 9

    abbrev fmt_of : ℕ
    fmt_of = get8 cdb 11 / 2 ^ 4 % 4

    abbrev bytes_of : Option (List ℕ) → List ℕ
    bytes_of none = []
    bytes_of (some p) = p

    abbrev is_there : Option (List ℕ) → Bool
    is_there none = false
    is_there (some p) = true

    -- The command with its output buffer, if there is one.
    run : ℕ → ℕ → ℕ → List ℕ → Option (List ℕ) → Device q f → Exit Outcome × Device q f
    run off outlen given_len buf out d = finish off outlen given_len buf (
        exec_service_action h
          record {
            cdb = cdb;
            action = action_of;
            getset_cdbfmt = fmt_of;
            retrieved_attr_off = off;
            indata = bytes_of data_in;
            inlen = data_in_len;
            has_indata = is_there data_in;
            has_outdata = is_there out;
          }
          record { device = d; outdata = bytes_of out; used_outlen = 0; get_used_outlen = 0 })

    -- The memory that `malloc` returns is undefined; the model has zeros.
    malloced : ℕ → ℕ → ℕ → Bool × f.Fs → Device q f → Exit Outcome × Device q f
    malloced off outlen given_len (true, s) d =
        run off outlen given_len [] (some (replicate outlen 0)) (record d { fs = s })
    malloced off outlen given_len (false, s) d =
        refuse hardware_error system_resource_failure [] (record d { fs = s })

    with_buffer : ℕ → ℕ → Option (List ℕ) → ℕ → Device q f → Exit Outcome × Device q f
    with_buffer off outlen (some p) given_len d =
        if outlen == given_len
        then run off outlen given_len p (some p) d
        else refuse illegal_request invalid_field_in_cdb p d
    with_buffer off outlen none given_len d =
        if outlen == 0
        then run off outlen given_len [] none d
        else malloced off outlen given_len (f.alloc outlen d.fs) d

    sized : Option (ℕ × ℕ) → Option (List ℕ) → ℕ → Device q f → Exit Outcome × Device q f
    sized none out given_len d = refuse illegal_request invalid_field_in_cdb (bytes_of out) d
    sized (some (off, outlen)) out given_len d = with_buffer off outlen out given_len d

    -- `out` and `given_len` are `*data_out` and `*data_out_len`.
    pub osdemu_cmd_submit : Option (List ℕ) → ℕ → Device q f → Exit Outcome × Device q f
    osdemu_cmd_submit out given_len d =
        if not (get8 cdb 0 == varlen_cdb) || not (get8 cdb 7 == osd_cdb_size - 8)
        then refuse illegal_request invalid_command_opcode (bytes_of out) d
        else sized (calc_max_out_len action_of fmt_of cdb) out given_len d
