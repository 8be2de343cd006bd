-- ===== src/Sense.antt =====
-- The sense data builders of osd-target/osd-sense.c and `sense_test_type` of
-- osd-target/target-sense.h. A builder returns the length it used and the buffer after its writes;
-- the warnings that the source prints are left out.
pub mod Layout
use viji_osc_osd.Base.{
  ℕ, ◌+◌, ◌-◌, ◌/◌, ◌%◌, ◌^◌, Bool, ◌&&◌, List, [], ◌∷◌, ◌++◌, take, drop, ltb, ◌==◌, if◌then◌else◌,
}
use viji_osc_osd.Base.Bytes.{get8, write_at}
use viji_osc_osd.Wire.{set_htonl, set_htonll}

abbrev osd_max_sense : ℕ
osd_max_sense = 252

-- `ASC(x)` and `ASCQ(x)`.
abbrev pub asc : ℕ → ℕ
asc x = x / 2 ^ 8 % 256

abbrev pub ascq : ℕ → ℕ
ascq x = x % 256

-- Sense keys and codes of osd-util/osd-sense.h.
abbrev pub recovered_error : ℕ
recovered_error = 0x01

abbrev pub hardware_error : ℕ
hardware_error = 0x04

abbrev pub illegal_request : ℕ
illegal_request = 0x05

abbrev pub invalid_command_opcode : ℕ
invalid_command_opcode = 0x2000

abbrev pub invalid_field_in_cdb : ℕ
invalid_field_in_cdb = 0x2400

abbrev pub invalid_field_in_param_list : ℕ
invalid_field_in_param_list = 0x2600

abbrev pub parameter_list_length_error : ℕ
parameter_list_length_error = 0x1A00

abbrev pub part_or_coll_contains_user_objects : ℕ
part_or_coll_contains_user_objects = 0x2C0A

abbrev pub read_past_end_of_user_object : ℕ
read_past_end_of_user_object = 0x3B17

abbrev pub system_resource_failure : ℕ
system_resource_failure = 0x5500

sense_header_build : List ℕ → ℕ → ℕ → ℕ → ℕ → ℕ × List ℕ
sense_header_build buf len key code additional_len = if ltb len 8 then (0, buf) else (
  8,
  write_at 7 (additional_len ∷ []) (write_at 0 (0x72 ∷ key ∷ asc code ∷ ascq code ∷ []) buf),
)

sense_info_build : List ℕ → ℕ → ℕ → ℕ → ℕ → ℕ → ℕ × List ℕ
sense_info_build buf len not_init_funcs completed_funcs pid oid = if ltb len 32 then (0, buf) else (
  32,
  write_at 24 (set_htonll oid) (
      write_at 16 (set_htonll pid) (
        write_at 12 (set_htonl completed_funcs)
          (write_at 8 (set_htonl not_init_funcs) (write_at 0 (0x6 ∷ 0x1e ∷ []) buf)))),
)

sense_csi_build : List ℕ → ℕ → ℕ → ℕ × List ℕ
sense_csi_build buf len csi =
    if ltb len 12
    then (0, buf)
    else (12, write_at 4 (set_htonll csi) (write_at 0 (0x1 ∷ 0xa ∷ []) buf))

-- `f(sense + off, ...)`, with `off += ` its result, in a uint8_t.
abbrev append_with : ℕ × List ℕ → (ℕ → List ℕ → ℕ × List ℕ) → ℕ × List ℕ
append_with (off, sense) f =
    let (n, rest) = f off (drop off sense) in ((off + n) % 256, take off sense ++ rest)

-- The bits of the functions that a command can report.
abbrev nifunc : ℕ
nifunc = 0x303010b0

pub sense_basic_build : List ℕ → ℕ → ℕ → ℕ → ℕ → ℕ × List ℕ
unfolding sense_header_build sense_info_build
sense_basic_build sense key code pid oid =
    append_with (sense_header_build sense osd_max_sense key code 32)
      λ off p. sense_info_build p (osd_max_sense - off) nifunc 0 pid oid

pub sense_build_sdd : List ℕ → ℕ → ℕ → ℕ → ℕ → ℕ × List ℕ
unfolding sense_header_build sense_info_build
sense_build_sdd sense key code pid oid =
    append_with (sense_header_build sense osd_max_sense key code 32)
      λ off p. sense_info_build p (osd_max_sense - off) nifunc 0 pid oid

pub sense_build_sdd_csi : List ℕ → ℕ → ℕ → ℕ → ℕ → ℕ → ℕ × List ℕ
unfolding sense_header_build sense_info_build sense_csi_build
sense_build_sdd_csi sense key code pid oid csi =
    append_with
      (append_with (sense_header_build sense osd_max_sense key code 44)
        (λ off p. sense_info_build p (osd_max_sense - off) nifunc 0 pid oid))
      (λ off p. sense_csi_build p (osd_max_sense - off) csi)

sense_test_type : List ℕ → ℕ → ℕ → Bool
sense_test_type sense key code =
    get8 sense 1 == key && get8 sense 2 == asc code && get8 sense 3 == ascq code
