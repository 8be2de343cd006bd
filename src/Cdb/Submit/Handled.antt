-- ===== src/Cdb/Submit/Handled.antt =====
-- Whole commands without continuation and without attributes: from the descriptor block through the
-- handler of osd-target/osd.c to what goes back.
use viji_osc_osd.Base.{
  ℕ, ◌+◌, ◌*◌, ◌/◌, ◌%◌, ◌^◌, true, false, ◌≤◌, ◌≡◌, refl, ap, ◌∙◌, ◌⊎◌, inl, inr, none, some, drop,
  List, [], le→ltb,
}
use viji_osc_osd.Base.Bytes.{get8}
use viji_osc_osd.Wire.{get_ntohl, get_ntohll}
use viji_osc_osd.Store.{Sqlite}
use viji_osc_osd.Files.{Files}
use viji_osc_osd.Exec.{
  Exit, Reply, sdd, sdd_csi, osd_error_reply, header, unset, Post, value, reply, unfinished,
}
use viji_osc_osd.Device.{Device}
use viji_osc_osd.Io.{lend}
use viji_osc_osd.Io.Content.{Contents, splice}
use viji_osc_osd.Io.Opened.{Unwritten}
use viji_osc_osd.Io.Written.{splice_all}
use viji_osc_osd.Data.{osd_write, ddt_contig}
use viji_osc_osd.Data.Written.{Rewritten, write_pieces, osd_write_lem}
use viji_osc_osd.Cdb.{Request, Cmd, getfield_setvalue}
use viji_osc_osd.Cdb.Handlers.{Handlers}
use viji_osc_osd.Cdb.Commands.{no_sglist}
use viji_osc_osd.Cdb.Service.Plain.{
  DataCommand, append, clear, flush, punch, remove, write, action_code, IsPlain, asked, within,
  exec_service_action-asked,
}
use viji_osc_osd.Cdb.Submit.{
  Outcome, good, check_condition, osdemu_cmd_submit, calc_max_out_len, data_len, run, finish,
  return_data, sized, with_buffer,
}

-- A descriptor block of the right kind and length, for a command without continuation and without
-- attributes.
pub record IsBlock (k : DataCommand) (cdb : List ℕ) : Type 0 where
  pub opcode : get8 cdb 0 ≡ 0x7f
  pub rest : get8 cdb 7 ≡ 228
  pub action : get8 cdb 8 * 2 ^ 8 + get8 cdb 9 ≡ action_code k
  pub format : get8 cdb 11 / 2 ^ 4 % 4 ≡ getfield_setvalue
  pub alone : get_ntohl (drop 48 cdb) ≡ 0
  pub no_page : get_ntohl (drop 52 cdb) ≡ 0

-- The request that the command is, with the bytes that came with it.
abbrev pub request : List ℕ → List ℕ → ℕ → Request
request cdb indata inlen = record {
  cdb = cdb;
  action = get8 cdb 8 * 2 ^ 8 + get8 cdb 9;
  getset_cdbfmt = get8 cdb 11 / 2 ^ 4 % 4;
  retrieved_attr_off = 0;
  indata = indata;
  inlen = inlen;
  has_indata = true;
  has_outdata = false;
}

no_output :
    (k : DataCommand) (cdb : List ℕ)
    → calc_max_out_len (action_code k) getfield_setvalue cdb ≡ some (0, 0)
unfolding calc_max_out_len data_len
no_output append cdb = refl
no_output clear cdb = refl
no_output flush cdb = refl
no_output punch cdb = refl
no_output remove cdb = refl
no_output write cdb = refl

module _ {q : Sqlite} {f : Files} where
  -- What goes back for the result of a handler: a status, and no data. Behind the bare OSD_ERROR the
  -- behaviour is undefined.
  abbrev pub answered : ℕ → Exit Unit × Device q f → Exit Outcome × Device q f
  answered given_len (value u, d) =
      (value record { status = good; data_out = []; data_out_len = given_len }, d)
  answered given_len (reply osd_error_reply, d) = (unfinished, d)
  answered given_len (reply e, d) =
      (value record { status = check_condition e; data_out = []; data_out_len = given_len }, d)
  answered given_len (unfinished, d) = (unfinished, d)

  finished :
      (given_len : ℕ) (c : Cmd q f) (e : Exit Unit × Device q f)
      → c.used_outlen ≡ 0
      → c.get_used_outlen ≡ 0
      → finish 0 0 given_len [] (within c e) ≡ answered given_len e
  unfolding finish return_data
  finished given_len c (value u, d) a b = refl
  finished given_len c (reply osd_error_reply, d) a b = refl
  finished given_len c (reply (sdd k s p o), d) a b = refl
  finished given_len c (reply (sdd_csi k s p o i), d) a b = refl
  finished given_len c (reply (header k s), d) a b = refl
  finished given_len c (reply unset, d) a b = refl
  finished given_len c (unfinished, d) a b = refl

  -- Without an output buffer, a command on the data of one object, or its removal, that has no
  -- continuation and no attributes does to the device what its handler does with the fields of the
  -- descriptor block, and goes back with the handler's sense data or with a good status, unless the
  -- handler returns the bare OSD_ERROR, behind which the behaviour is undefined.
  pub osdemu_cmd_submit-asked :
      (h : Handlers q f) (k : DataCommand) (cdb indata : List ℕ) (inlen given_len : ℕ)
      (d : Device q f)
      → IsBlock k cdb
      → osdemu_cmd_submit h cdb (some indata) inlen none given_len d
        ≡ answered given_len (asked k (request cdb indata inlen) d)
  unfolding osdemu_cmd_submit sized with_buffer run
  osdemu_cmd_submit-asked h k cdb indata inlen given_len d p =
      let c : Cmd q f = record { device = d; outdata = []; used_outlen = 0; get_used_outlen = 0 } in
      let plain : IsPlain (request cdb indata inlen) = record {
        alone = p.alone;
        format = p.format;
        no_page = p.no_page;
      } in
      let out : calc_max_out_len (get8 cdb 8 * 2 ^ 8 + get8 cdb 9) (get8 cdb 11 / 2 ^ 4 % 4) cdb
          ≡ some (0, 0) =
        ap (λ a. calc_max_out_len a (get8 cdb 11 / 2 ^ 4 % 4) cdb) p.action
        ∙ ap (λ m. calc_max_out_len (action_code k) m cdb) p.format
        ∙ no_output k cdb in
      rw (p.opcode, p.rest, out)
        (ap (finish 0 0 given_len [])
            (exec_service_action-asked h (request cdb indata inlen) plain k c p.action)
          ∙ finished given_len c (asked k (request cdb indata inlen) d) refl refl)

  -- What goes back tells how the handler ended.
  abbrev pub Told :
      (Unit {0} → Device q f → Type 0)
      → (Reply → Device q f → Type 0)
      → Outcome
      → Device q f
      → Type 0
  Told Q E o d =
      ((o.status ≡ good) × Q tt d) ⊎ ((e : Reply) × (o.status ≡ check_condition e) × E e d)

  Post-answered :
      (Q : Unit {0} → Device q f → Type 0) (E : Reply → Device q f → Type 0) (given_len : ℕ)
      (e : Exit Unit × Device q f)
      → ((d : Device q f) → E osd_error_reply d → ⊥)
      → Post Q E e
      → Post (Told Q E) (λ _ _. ⊥) (answered given_len e)
  Post-answered Q E given_len (value u, d) clean h = inl (refl, h)
  Post-answered Q E given_len (reply osd_error_reply, d) clean h = clean d h
  Post-answered Q E given_len (reply (sdd k s p o), d) clean h = inr (sdd k s p o, refl, h)
  Post-answered Q E given_len (reply (sdd_csi k s p o i), d) clean h =
      inr (sdd_csi k s p o i, refl, h)
  Post-answered Q E given_len (reply (header k s), d) clean h = inr (header k s, refl, h)
  Post-answered Q E given_len (reply unset, d) clean h = inr (unset, refl, h)
  Post-answered Q E given_len (unfinished, d) clean h = h

  -- A WRITE command that came with the data of its length, without continuation, attributes and output
  -- buffer, ends with a status. It is good, and the object has the data written into its old contents
  -- at the offset of the descriptor block, the other objects and the tables being as they were; or it
  -- comes with sense data, and either nothing changed or at most the contents of the object did.
  pub osdemu_cmd_submit-write :
      (b : Contents f) (h : Handlers q f) (cdb indata : List ℕ) (inlen given_len : ℕ)
      (d : Device q f)
      → IsBlock write cdb
      → get_ntohll (drop 32 cdb) ≤ inlen
      → let pid = get_ntohll (drop 16 cdb) in
        let oid = get_ntohll (drop 24 cdb) in
        Post
          (Told
            (λ _.
              Rewritten b pid oid
                (splice (get_ntohll (drop 40 cdb)) (lend (get_ntohll (drop 32 cdb)) indata))
                d)
            (Unwritten q b pid oid (b.view d.fs) d.conn))
          (λ _ _. ⊥)
          (osdemu_cmd_submit h cdb (some indata) inlen none given_len d)
  unfolding write_pieces splice_all
  osdemu_cmd_submit-write b h cdb indata inlen given_len d p enough =
      let pid = get_ntohll (drop 16 cdb) in
      let oid = get_ntohll (drop 24 cdb) in
      let len = get_ntohll (drop 32 cdb) in
      let offset = get_ntohll (drop 40 cdb) in
      rw (osdemu_cmd_submit-asked h write cdb indata inlen given_len d p, le→ltb inlen len enough)
        (Post-answered (λ _. Rewritten b pid oid (splice offset (lend len indata)) d)
          (Unwritten q b pid oid (b.view d.fs) d.conn) given_len
          (osd_write pid oid len offset indata no_sglist ddt_contig d)
          (λ e u. elim u [ inl (x, _) ↦ absurd (cc x) | inr (x, _) ↦ absurd (cc x) ])
          (osd_write_lem b pid oid len offset ddt_contig indata no_sglist d (inl refl)))
