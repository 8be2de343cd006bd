-- ===== src/Cdb.antt =====
-- A command, as osd-target/cdb.c takes it apart, and what it works on.
pub mod Continuation
pub mod Parsed
pub mod Handlers
pub mod Attributes
pub mod Commands
pub mod Service
pub mod Submit
pub mod GeneralCas
use viji_osc_osd.Base.{
  ℕ, ◌+◌, ◌*◌, ◌/◌, ◌%◌, ◌^◌, Bool, true, false, Option, none, some, List, drop, ◌==◌,
  if◌then◌else◌,
}
use viji_osc_osd.Base.Bytes.{get8}
use viji_osc_osd.Wire.{get_ntohs, get_ntohl, get_ntohll}
use viji_osc_osd.Store.{Sqlite}
use viji_osc_osd.Files.{Files}
use viji_osc_osd.Exec.{Exec, Exit, Reply, value, reply, unfinished, sdd, modify}
use viji_osc_osd.Sense.{
  illegal_request, invalid_field_in_cdb, parameter_list_length_error, invalid_field_in_param_list,
}
use viji_osc_osd.Io.{SgList, Transfer}
use viji_osc_osd.Device.{Device}

-- The descriptor types of osd-util/osd-defs.h.
abbrev pub no_more_descriptors : ℕ
no_more_descriptors = 0x0000

abbrev pub scatter_gather_list : ℕ
scatter_gather_list = 0x0001

abbrev pub query_list : ℕ
query_list = 0x0002

abbrev pub copy_user_object_source : ℕ
copy_user_object_source = 0x0101

abbrev pub extension_capabilities : ℕ
extension_capabilities = 0xFFEE

-- The formats of the get and set attributes parameters.
abbrev pub getfield_setvalue : ℕ
getfield_setvalue = 0x1

abbrev pub getpage_setvalue : ℕ
getpage_setvalue = 0x2

abbrev pub getlist_setlist : ℕ
getlist_setlist = 0x3

abbrev pub cur_cmd_attr_pg : ℕ
cur_cmd_attr_pg = 0xFFFFFFFE

-- `struct cdb_continuation_descriptor`, with the memory behind the descriptor's header.
pub record Descriptor : Type 0 where
  pub type : ℕ
  pub length : ℕ
  pub body : List ℕ

-- `desc->sglist`, which is set for a scatter/gather list: an entry has 16 bytes.
abbrev pub sglist_of : Descriptor → SgList
sglist_of d = record { num_entries = d.length / 16; entries = d.body }

-- What `struct command` holds of the request. The fields that a command changes are in Cmd.
pub record Request : Type 0 where
  pub cdb : List ℕ
  pub action : ℕ
  pub getset_cdbfmt : ℕ
  pub retrieved_attr_off : ℕ
  pub indata : List ℕ
  pub inlen : ℕ
  pub has_indata : Bool
  pub has_outdata : Bool

-- The device, and the fields of `struct command` that a command changes.
pub record Cmd (q : Sqlite) (f : Files) : Type 0 where
  pub device : Device q f
  pub outdata : List ℕ
  pub used_outlen : ℕ
  pub get_used_outlen : ℕ

-- The numbers at an offset of the command descriptor block, and the two fields that most commands
-- have.
abbrev pub cdb16 : Request → ℕ → ℕ
cdb16 r off = get_ntohs (drop off r.cdb)

abbrev pub cdb32 : Request → ℕ → ℕ
cdb32 r off = get_ntohl (drop off r.cdb)

abbrev pub cdb64 : Request → ℕ → ℕ
cdb64 r off = get_ntohll (drop off r.cdb)

abbrev pub cdb_pid : Request → ℕ
cdb_pid r = cdb64 r 16

abbrev pub cdb_oid : Request → ℕ
cdb_oid r = cdb64 r 24

-- The replies that cdb.c builds with `sense_basic_build`.
abbrev pub param_list_err : ℕ → ℕ → Reply
param_list_err = sdd illegal_request parameter_list_length_error

abbrev pub invalid_param_list : ℕ → ℕ → Reply
invalid_param_list = sdd illegal_request invalid_field_in_param_list

module _ {q : Sqlite} {f : Files} where
  abbrev in_command : {A : Type 0} → Cmd q f → Exit A × Device q f → Exit A × Cmd q f
  in_command c (e, d) = (e, record c { device = d })

  -- A handler of osd.c within a command.
  abbrev pub on_device : {A : Type 0} → Exec (Device q f) A → Exec (Cmd q f) A
  on_device m c = in_command c (m c.device)

  -- A handler that hands back the output buffer and sets `used_outlen`.
  pub transferred : Transfer → Exec (Cmd q f) (Option Reply)
  transferred t c = (value t.warning, record c { outdata = t.outdata; used_outlen = t.used_outlen })
