-- ===== src/Cdb/Service.antt =====
-- The service actions of osd-target/cdb.c: `exec_service_action`, with a definition for each case of its
-- `switch` that does more than one call.
pub mod Refusals
pub mod Plain
use viji_osc_osd.Base.{
  ℕ, ◌+◌, ◌/◌, ◌%◌, ◌^◌, Bool, true, false, not, ◌&&◌, ◌||◌, Option, none, some, List, [], ◌∷◌,
  drop, ltb, ◌==◌, if◌then◌else◌,
}
use viji_osc_osd.Base.Bytes.{get8}
use viji_osc_osd.Store.{Sqlite, partition_oid}
use viji_osc_osd.Files.{Files}
use viji_osc_osd.Exec.{
  Exec, Exit, Reply, value, reply, unfinished, pure, raise, ◌>>=◌, ◌>>◌, leave_if, spin,
}
use viji_osc_osd.Device.{cdb_err}
use viji_osc_osd.Device.Remove.{osd_remove_collection}
use viji_osc_osd.Device.Members.{osd_create_user_tracking_collection}
use viji_osc_osd.Data.{
  osd_append, osd_clear, osd_create_and_write, osd_flush, osd_punch, osd_write, osd_error_bad_cdb,
  osd_error_unimplemented, ddt_contig,
}
use viji_osc_osd.Cdb.{
  Request, Cmd, Descriptor, cdb16, cdb32, cdb64, cdb_pid, cdb_oid, on_device, transferred,
  scatter_gather_list,
}
use viji_osc_osd.Cdb.Continuation.{parse_cdb_continuation_segment}
use viji_osc_osd.Cdb.Handlers.{Handlers}
use viji_osc_osd.Cdb.Attributes.{set_attributes, get_attributes, std_get_set_attr}
use viji_osc_osd.Cdb.Commands.{
  data_format, get_outdata, cdb_copy_user_objects, cdb_create, cdb_create_collection,
  cdb_create_partition, cdb_remove_partition, cdb_remove, cdb_query, cdb_read, cdb_read_map,
  cdb_list, cdb_set_member_attributes, cdb_cas, cdb_fa,
}

-- The service actions of osd-util/osd-defs.h that take part in the statements below.
abbrev pub osd_write_action : ℕ
osd_write_action = 0x8886

abbrev osd_gen_cas : ℕ
osd_gen_cas = 0x88a5

abbrev osd_cond_setattr : ℕ
osd_cond_setattr = 0x8891

module _ {q : Sqlite} {f : Files} where
  -- A list that was not set is read when there is one descriptor of another type: no behaviour is
  -- defined.
  require_sglist : List Descriptor → Exec (Cmd q f) Unit
  require_sglist (d ∷ []) = if d.type == scatter_gather_list then pure tt else spin
  require_sglist ds = pure tt

  -- `if (ret) break;` behind a handler that may have returned data with sense data.
  unless_warned : Exec (Cmd q f) Unit → Option Reply → Exec (Cmd q f) (Option Reply)
  unless_warned m none = m >> pure none
  unless_warned m (some w) = pure (some w)

  pub check_no_continuations : ℕ → ℕ → ℕ → Exec (Cmd q f) Unit
  check_no_continuations cdb_cont_len pid oid =
      leave_if (not (cdb_cont_len == 0)) (raise (cdb_err pid oid))

  pub verify_enough_input_data : Request → ℕ → Exec (Cmd q f) Unit
  verify_enough_input_data r cdblen = leave_if (ltb r.inlen cdblen) (raise osd_error_bad_cdb)

  -- A command without continuation that is not implemented.
  refuse_at : ℕ → ℕ → ℕ → Exec (Cmd q f) (Option Reply)
  refuse_at cdb_cont_len pid oid = do
    check_no_continuations cdb_cont_len pid oid
    raise osd_error_unimplemented

  module _ (h : Handlers q f) (r : Request) (cdb_cont_len : ℕ) where
    abbrev attributes : Exec (Cmd q f) (Option Reply)
    attributes = std_get_set_attr h r (cdb_pid r) (cdb_oid r) cdb_cont_len >> pure none

    -- A command without continuation.
    abbrev alone : ℕ → ℕ → Exec (Cmd q f) (Option Reply) → Exec (Cmd q f) (Option Reply)
    alone pid oid m = check_no_continuations cdb_cont_len pid oid >> m

    exec_append : Exec (Cmd q f) (Option Reply)
    exec_append = do
      verify_enough_input_data r (cdb64 r 32)
      check_no_continuations cdb_cont_len (cdb_pid r) (cdb_oid r)
      on_device (osd_append (cdb_pid r) (cdb_oid r) (cdb64 r 32) r.indata cdb_cont_len ddt_contig)
      attributes

    exec_clear : Exec (Cmd q f) (Option Reply)
    exec_clear = do
      check_no_continuations cdb_cont_len (cdb_pid r) (cdb_oid r)
      on_device (osd_clear (cdb_pid r) (cdb_oid r) (cdb64 r 32) (cdb64 r 40))
      attributes

    -- The test of the descriptors builds sense data and goes on.
    exec_create_and_write : List Descriptor → Exec (Cmd q f) (Option Reply)
    exec_create_and_write ds = do
      verify_enough_input_data r (cdb64 r 32)
      require_sglist ds
      let fmt = data_format ds cdb_cont_len
      on_device (
          osd_create_and_write (cdb_pid r) (cdb64 r 24) (cdb64 r 32) (cdb64 r 40)
            (drop fmt.skipped r.indata) fmt.sglist fmt.ddt)
      pure none

    -- The last two arguments of the handler are the source collection and the length of the
    -- continuation: the call has them the other way round.
    exec_create_user_tracking_collection : Exec (Cmd q f) (Option Reply)
    exec_create_user_tracking_collection = do
      let source_cid = cdb64 r 40
      on_device (
          osd_create_user_tracking_collection (cdb_pid r) (cdb64 r 24) cdb_cont_len
            (source_cid % 2 ^ 32))
      pure none

    exec_flush : Exec (Cmd q f) (Option Reply)
    exec_flush = do
      check_no_continuations cdb_cont_len (cdb_pid r) (cdb_oid r)
      on_device (osd_flush (cdb_pid r) (cdb_oid r) (cdb64 r 32) (cdb64 r 40) (get8 r.cdb 10 % 4))
      pure none

    exec_format_osd : Exec (Cmd q f) (Option Reply)
    exec_format_osd = do
      check_no_continuations cdb_cont_len 0 0
      on_device (h.osd_format_osd (cdb64 r 32) cdb_cont_len)
      std_get_set_attr h r 0 0 cdb_cont_len
      pure none

    exec_get_attributes : Exec (Cmd q f) (Option Reply)
    exec_get_attributes = do
      check_no_continuations cdb_cont_len (cdb_pid r) (cdb_oid r)
      get_attributes h r (cdb_pid r) (cdb_oid r) 1 cdb_cont_len
      set_attributes h r (cdb_pid r) (cdb_oid r) 1 cdb_cont_len
      pure none

    exec_list_collection : Exec (Cmd q f) (Option Reply)
    exec_list_collection = do
      out ← get_outdata h r
      t ← on_device (
          h.osd_list_collection (get8 r.cdb 11 / 2 ^ 6 % 2) (cdb_pid r) (cdb_oid r) (cdb64 r 32)
            (cdb64 r 40) [] (cdb32 r 48) out)
      warning ← transferred t
      unless_warned (std_get_set_attr h r (cdb_pid r) (cdb_oid r) cdb_cont_len) warning

    exec_punch : Exec (Cmd q f) (Option Reply)
    exec_punch = do
      check_no_continuations cdb_cont_len (cdb_pid r) (cdb_oid r)
      on_device (osd_punch (cdb_pid r) (cdb_oid r) (cdb64 r 32) (cdb64 r 40))
      attributes

    exec_query : List Descriptor → Exec (Cmd q f) (Option Reply)
    exec_query ds = do
      warning ← cdb_query h r ds cdb_cont_len
      unless_warned (std_get_set_attr h r (cdb_pid r) (cdb_oid r) cdb_cont_len) warning

    exec_remove_collection : Exec (Cmd q f) (Option Reply)
    exec_remove_collection = do
      check_no_continuations cdb_cont_len (cdb_pid r) (cdb_oid r)
      on_device (osd_remove_collection (cdb_pid r) (cdb_oid r) (get8 r.cdb 11 % 2))
      pure none

    exec_set_attributes : Exec (Cmd q f) (Option Reply)
    exec_set_attributes = do check_no_continuations cdb_cont_len (cdb_pid r) (cdb_oid r); attributes

    -- As in `exec_create_and_write`, the test of the descriptors goes on.
    exec_write : List Descriptor → Exec (Cmd q f) (Option Reply)
    exec_write ds = do
      verify_enough_input_data r (cdb64 r 32)
      require_sglist ds
      let fmt = data_format ds cdb_cont_len
      on_device (
          osd_write (cdb_pid r) (cdb_oid r) (cdb64 r 32) (cdb64 r 40) (drop fmt.skipped r.indata)
            fmt.sglist fmt.ddt)
      attributes

    -- The cases in the order of the source, in three parts, for the action `a`; `other` is what follows a
    -- part.
    actions_a_to_f :
        ℕ → List Descriptor → Exec (Cmd q f) (Option Reply) → Exec (Cmd q f) (Option Reply)
    actions_a_to_f a ds other =
        let pid = cdb_pid r in
        let oid = cdb_oid r in
        if a == 0x8887
        then exec_append
        else if a == 0x8889
        then exec_clear
        else if a == 0x8893
        then cdb_copy_user_objects r ds
        else if a == 0x8882
        then alone pid oid (cdb_create h r cdb_cont_len)
        else if a == 0x8892
        then exec_create_and_write ds
        else if a == 0x88a8
        then raise osd_error_unimplemented
        else if a == 0x8895
        then alone pid oid (cdb_create_collection h r cdb_cont_len)
        else if a == 0x888b
        then alone pid partition_oid (cdb_create_partition h r cdb_cont_len)
        else if a == 0x88a9
        then raise osd_error_unimplemented
        else if a == 0x8894
        then exec_create_user_tracking_collection
        else if a == 0x88aa
        then raise osd_error_unimplemented
        else if a == 0x8888
        then exec_flush
        else if a == 0x889a
        then refuse_at cdb_cont_len pid oid
        else if a == 0x889c
        then refuse_at cdb_cont_len 0 0
        else if a == 0x889b
        then refuse_at cdb_cont_len pid partition_oid
        else if a == 0x8881
        then exec_format_osd
        else other

    actions_g_to_r :
        ℕ → List Descriptor → Exec (Cmd q f) (Option Reply) → Exec (Cmd q f) (Option Reply)
    actions_g_to_r a ds other =
        let pid = cdb_pid r in
        let oid = cdb_oid r in
        if a == 0x888e
        then exec_get_attributes
        else if a == 0x88a2
        then raise osd_error_unimplemented
        else if a == 0x8883
        then cdb_list h r
        else if a == 0x8897
        then exec_list_collection
        else if a == 0x8f7c || a == 0x8f7d
        then refuse_at cdb_cont_len pid oid
        else if a == 0x8884
        then exec_punch
        else if a == 0x88a0
        then exec_query ds
        else if a == 0x88b1
        then alone pid oid (cdb_read_map h r cdb_cont_len)
        else if a == 0x88b2
        then raise osd_error_unimplemented
        else if a == 0x8885
        then cdb_read h r ds cdb_cont_len
        else if a == 0x88ab
        then raise osd_error_unimplemented
        else if a == 0x888a
        then alone pid oid (cdb_remove h r cdb_cont_len)
        else if a == 0x8896
        then exec_remove_collection
        else if a == 0x88a1
        then refuse_at cdb_cont_len pid oid
        else if a == 0x888c
        then alone pid partition_oid (cdb_remove_partition h r cdb_cont_len)
        else if a == 0x88ac
        then raise osd_error_unimplemented
        else other

    actions_s_to_w : ℕ → List Descriptor → Exec (Cmd q f) (Option Reply)
    actions_s_to_w a ds =
        let pid = cdb_pid r in
        let oid = cdb_oid r in
        if a == 0x888f
        then exec_set_attributes
        else if a == 0x8898
        then raise osd_error_unimplemented
        else if a == 0x8899
        then refuse_at cdb_cont_len 0 0
        else if a == 0x88a3
        then alone pid oid (cdb_set_member_attributes h r cdb_cont_len)
        else if a == osd_write_action
        then exec_write ds
        else if a == 0x888d
        then cdb_cas h r cdb_cont_len
        else if a == 0x8890
        then cdb_fa h r cdb_cont_len
        else if a == osd_gen_cas
        then h.cdb_gen_cas r osd_gen_cas cdb_cont_len >> pure none
        else if a == osd_cond_setattr
        then h.cdb_gen_cas r osd_cond_setattr cdb_cont_len >> pure none
        else raise osd_error_unimplemented

    exec_action : ℕ → List Descriptor → Exec (Cmd q f) (Option Reply)
    exec_action a ds = actions_a_to_f a ds (actions_g_to_r a ds (actions_s_to_w a ds))

    after_parsing : Exit (List Descriptor) → Exec (Cmd q f) (Option Reply)
    after_parsing (value ds) = exec_action r.action ds
    after_parsing (reply e) = raise e
    after_parsing unfinished = spin

  pub exec_service_action : Handlers q f → Request → Exec (Cmd q f) (Option Reply)
  exec_service_action h r =
      let cdb_cont_len = cdb32 r 48 in
      if cdb_cont_len == 0
      then exec_action h r cdb_cont_len r.action []
      else after_parsing h r cdb_cont_len
          (parse_cdb_continuation_segment r cdb_cont_len (cdb_pid r) (cdb_oid r))
