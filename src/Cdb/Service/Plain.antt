-- ===== src/Cdb/Service/Plain.antt =====
-- Commands without continuation and without attributes: which handlers they run.
use viji_osc_osd.Base.{ℕ, ◌%◌, ◌≡◌, refl, ap, ◌∙◌, inl, inr, none, Option, [], ltb, Bool-cases}
use viji_osc_osd.Base.Bytes.{get8}
use viji_osc_osd.Store.{Sqlite}
use viji_osc_osd.Files.{Files}
use viji_osc_osd.Exec.{Exec, Exit, Reply, value, reply, unfinished, ◌>>◌, raise, leave_if, pure}
use viji_osc_osd.Device.{Device}
use viji_osc_osd.Device.Remove.{osd_remove}
use viji_osc_osd.Data.{
  osd_append, osd_clear, osd_flush, osd_punch, osd_write, osd_error_bad_cdb, ddt_contig,
}
use viji_osc_osd.Cdb.{Request, Cmd, cdb32, cdb64, cdb_pid, cdb_oid, on_device, getfield_setvalue}
use viji_osc_osd.Cdb.Handlers.{Handlers}
use viji_osc_osd.Cdb.Attributes.{
  std_get_set_attr, set_attributes, get_attributes, set_one_attr_value,
}
use viji_osc_osd.Cdb.Commands.{cdb_remove, no_sglist, data_format}
use viji_osc_osd.Cdb.Service.{
  attributes, exec_service_action, exec_action, actions_a_to_f, actions_g_to_r, actions_s_to_w,
  exec_write, exec_append, exec_clear, exec_punch, exec_flush, check_no_continuations,
  verify_enough_input_data, require_sglist,
}

-- The commands on the data of one object that return no data, and the removal of one.
pub data DataCommand : Type 0 where
  append : DataCommand
  clear : DataCommand
  flush : DataCommand
  punch : DataCommand
  remove : DataCommand
  write : DataCommand

-- Their service actions in the standard.
abbrev pub action_code : DataCommand → ℕ
action_code append = 0x8887
action_code clear = 0x8889
action_code flush = 0x8888
action_code punch = 0x8884
action_code remove = 0x888a
action_code write = 0x8886

-- A request without a continuation segment and without attributes: the format of one attribute, on
-- page 0.
pub record IsPlain (r : Request) : Type 0 where
  pub alone : cdb32 r 48 ≡ 0
  pub format : r.getset_cdbfmt ≡ getfield_setvalue
  pub no_page : cdb32 r 52 ≡ 0

module _ {q : Sqlite} {f : Files} where
  -- What a command asks for, on the device alone: the fields of the descriptor block are the
  -- partition, the object, the length and the offset.
  abbrev pub asked : DataCommand → Request → Exec (Device q f) Unit
  asked append r =
      leave_if (ltb r.inlen (cdb64 r 32)) (raise osd_error_bad_cdb)
      >> osd_append (cdb_pid r) (cdb_oid r) (cdb64 r 32) r.indata 0 ddt_contig
  asked clear r = osd_clear (cdb_pid r) (cdb_oid r) (cdb64 r 32) (cdb64 r 40)
  asked flush r = osd_flush (cdb_pid r) (cdb_oid r) (cdb64 r 32) (cdb64 r 40) (get8 r.cdb 10 % 4)
  asked punch r = osd_punch (cdb_pid r) (cdb_oid r) (cdb64 r 32) (cdb64 r 40)
  asked remove r = osd_remove (cdb_pid r) (cdb_oid r)
  asked write r =
      leave_if (ltb r.inlen (cdb64 r 32)) (raise osd_error_bad_cdb)
      >> osd_write (cdb_pid r) (cdb_oid r) (cdb64 r 32) (cdb64 r 40) r.indata no_sglist ddt_contig

  -- A result on the device, within a command and without a warning.
  abbrev pub within : Cmd q f → Exit Unit × Device q f → Exit (Option Reply) × Cmd q f
  within c (value u, d) = (value none, record c { device = d })
  within c (reply e, d) = (reply e, record c { device = d })
  within c (unfinished, d) = (unfinished, record c { device = d })

  module _ (h : Handlers q f) (r : Request) (p : IsPlain r) where
    std_get_set_attr_nothing :
        (pid oid : ℕ) (c : Cmd q f) → std_get_set_attr h r pid oid 0 c ≡ (value tt, c)
    unfolding std_get_set_attr set_attributes get_attributes set_one_attr_value
    std_get_set_attr_nothing pid oid c = rw (p.format, p.no_page) refl

    attributes_after :
        (e : Exit Unit × Device q f) (c : Cmd q f)
        → (on_device (λ d. e) >> attributes h r 0) c ≡ within c e
    attributes_after (value u, d) c =
        rw (std_get_set_attr_nothing (cdb_pid r) (cdb_oid r) (record c { device = d })) refl
    attributes_after (reply e, d) c = refl
    attributes_after (unfinished, d) c = refl

    nothing_after :
        (e : Exit Unit × Device q f) (c : Cmd q f)
        → (on_device (λ d. e) >> pure none) c ≡ within c e
    nothing_after (value u, d) c = refl
    nothing_after (reply e, d) c = refl
    nothing_after (unfinished, d) c = refl

    exec_action-asked :
        (k : DataCommand) (c : Cmd q f)
        → exec_action h r 0 (action_code k) [] c ≡ within c (asked k r c.device)
    unfolding exec_action actions_a_to_f actions_g_to_r actions_s_to_w exec_write exec_append
        exec_clear exec_punch exec_flush cdb_remove check_no_continuations verify_enough_input_data
        require_sglist data_format
    exec_action-asked append c = elim (Bool-cases (ltb r.inlen (cdb64 r 32))) [
      | inl less ↦ rw less refl
      | inr fits ↦ rw fits (
          attributes_after
            (osd_append (cdb_pid r) (cdb_oid r) (cdb64 r 32) r.indata 0 ddt_contig c.device) c)
    ]
    exec_action-asked clear c = attributes_after (asked clear r c.device) c
    exec_action-asked flush c = nothing_after (asked flush r c.device) c
    exec_action-asked punch c = attributes_after (asked punch r c.device) c
    exec_action-asked remove c =
        rw (std_get_set_attr_nothing (cdb_pid r) (cdb_oid r) c)
          (nothing_after (asked remove r c.device) c)
    exec_action-asked write c = elim (Bool-cases (ltb r.inlen (cdb64 r 32))) [
      | inl less ↦ rw less refl
      | inr fits ↦ rw fits (
          attributes_after
            (osd_write (cdb_pid r) (cdb_oid r) (cdb64 r 32) (cdb64 r 40) r.indata no_sglist
              ddt_contig c.device)
            c)
    ]

    -- A service action without continuation and attributes does what the command asks of the device.
    pub exec_service_action-asked :
        (k : DataCommand) (c : Cmd q f)
        → r.action ≡ action_code k
        → exec_service_action h r c ≡ within c (asked k r c.device)
    unfolding exec_service_action
    exec_service_action-asked k c e =
        rw p.alone (ap (λ a. exec_action h r 0 a [] c) e ∙ exec_action-asked k c)
