-- ===== src/Device/Attributes/Getting/Listed.antt =====
-- An attribute that is defined is got as its entry.
use viji_osc_osd.Base.{
  ℕ, suc, ◌+◌, ◌-◌, ◌%◌, ◌^◌, ◌≤◌, ◌<◌, ◌≡◌, refl, sym, ap, ◌∙◌, subst, arith, Bool, not, ◌⊎◌, inl,
  inr, List, ◌++◌, length, drop, ◌==◌, ==_ne, drop-append_eq,
}
use viji_osc_osd.Db.{osd_ok, osd_error}
use viji_osc_osd.ListEntry.{packed}
use viji_osc_osd.ListEntry.Pack.{entry, length-entry}
use viji_osc_osd.ListEntry.Within.{fronted}
use viji_osc_osd.Store.{Sqlite, Behaves, Query}
use viji_osc_osd.Store.Fetch.{Fetches, Answering}
use viji_osc_osd.Files.{Files}
use viji_osc_osd.Exec.{Exec, Reply, Hoare, raise, bind, ret, given}
use viji_osc_osd.Attr.{code, Retrieval, gather_attr, rtrvd_set_attr_list}
use viji_osc_osd.Attr.Table.{attr_get_row, attr_get_conversion}
use viji_osc_osd.Attr.Single.{one_row, gather_attr-whole}
use viji_osc_osd.Page.{isgettable_page}
use viji_osc_osd.Device.{Device, cdb_err, hw_err}
use viji_osc_osd.Device.Attributes.Getting.{
  osd_getattr_list, illegal_obj, param_list_err, lazy_init_attr, get_listed, mutiplex_getattr_list,
  attr_result,
}
use viji_osc_osd.Device.Attributes.Kept.{Kept, type_of, same_tables}
use viji_osc_osd.Device.Attributes.Own.{Own, Refused, attr_row, Defined, passes}

module _ {q : Sqlite} (f : Files) (b : Behaves q) (fe : Fetches q b) (ndebug : Bool)
    (addr pid oid page number : ℕ) (value : List ℕ) where
  abbrev E : Reply → Device q f → Type 0
  E r d = Refused pid oid r

  abbrev K : Device q f → Type 0
  K = Kept f b (Defined pid oid page number value)

  abbrev item : List ℕ
  item = entry page number (length value) value

  -- What is asked of the buffer: it is aligned, and has room for the entry.
  pub record Room (outbuf : List ℕ) (outlen : ℕ) : Type 0 where
    pub aligned : addr % 8 ≡ 0
    pub even : outlen % 8 ≡ 0
    pub narrow : outlen < 2 ^ 32
    pub shown : 0 < length value
    pub short : length value < 2 ^ 16
    pub fits : 16 + length value ≤ outlen
    pub lent : outlen ≤ length outbuf

  abbrev Got : List ℕ → Retrieval → Type 0
  Got outbuf r =
      (r.ret ≡ code osd_error)
      ⊎ ((r.ret ≡ code osd_ok)
          × (r.outdata ≡ item ++ drop (length item) outbuf)
          × (r.used_outlen ≡ length item))

  reading :
      (outbuf : List ℕ) (outlen used : ℕ) (d : Device q f)
      → Room outbuf outlen
      → K d
      → Got outbuf
          (attr_get_conversion q ndebug addr pid oid page number outlen outbuf rtrvd_set_attr_list
            used d.conn).0
  unfolding attr_get_conversion attr_get_row Defined
  reading outbuf outlen used d room k =
      let r = attr_row pid oid page number value in
      let target = item ++ drop (length item) outbuf in
      let len = length-entry page number (length value) value in
      let whole : suc (length item - 1) ≡ length item = omega (arith, len) in
      let fits : length item ≤ outlen = omega (arith, len, room.fits, room.even) in
      let (size, _) = fronted outlen item outbuf fits room.lent in
      let a = (q.fetch (Query.getattr pid oid page number) d.conn).0 in
      let shape =
        subst (λ rows. Answering rows rows a) k
          (fe.one (Query.getattr pid oid page number) pid oid page number d.conn (inr refl)) in
      elim (one_row ndebug addr gather_attr oid rtrvd_set_attr_list outlen r (length item - 1)
        target
        (λ mem. (length mem ≡ length outbuf) × (drop (length item) mem ≡ drop (length item) outbuf))
        (λ mem (h, e).
          gather_attr-whole ndebug addr oid outlen mem r room.aligned room.even room.narrow
            room.shown room.short room.fits (omega (arith, room.lent))
          ∙ ap (λ t. (packed (length item), item ++ t)) e
          ∙ ap (λ m. (packed m, target)) (sym whole))
        (size, drop-append_eq (length item) item (drop (length item) outbuf) refl) used outbuf a
        (refl, refl) shape) [
          | inl e ↦ inl e
          | inr (e, out, n) ↦ inr (e, out, n ∙ omega (arith, len, room.narrow))
        ]

  listed :
      (outbuf : List ℕ) (outlen used : ℕ) (name ll : List ℕ)
      → Room outbuf outlen
      → Own page number
      → Hoare K
          (get_listed ndebug addr name ll pid oid page number outbuf outlen rtrvd_set_attr_list
            used)
          (λ r d. K d × Got outbuf r)
          E
  unfolding get_listed mutiplex_getattr_list attr_get_conversion attr_get_row
  listed outbuf outlen used name ll room (lo, hi, n) =
      rw
        (
          ==_ne page 0xFFFFFFFE (λ e. absurd (omega arith)),
          ==_ne page 0x30000003 (λ e. absurd (omega arith)),
          ==_ne page 3 (λ e. absurd (omega arith)),
          ==_ne page 0x30000002 (λ e. absurd (omega arith)),
          ==_ne page 0x30000001 (λ e. absurd (omega arith)),
          ==_ne page 1 (λ e. absurd (omega arith)),
          ==_ne page 0x90000001 (λ e. absurd (omega arith)),
          ==_ne page 0xFFFFFFFF (λ e. absurd (omega arith)),
          ==_ne number 0xFFFFFFFF (λ e. absurd (omega arith)),
        )
        (record {
          at = λ d k.
              let g = Query.getattr pid oid page number in
              (
                same_tables f b (Defined pid oid page number value) d (q.fetch g d.conn).1
                    (fe.keeps g d.conn) k,
                reading outbuf outlen used d room k,
              );
        })

  -- What the handler makes of it.
  answers :
      (outbuf : List ℕ) (r : Retrieval) (absent : Exec (Device q f) Retrieval)
      → Hoare
          (λ d. K d × Got outbuf r)
          (attr_result (param_list_err pid oid) absent r)
          (λ x d.
            (x.outdata ≡ item ++ drop (length item) outbuf) × (x.used_outlen ≡ length item) × K d)
          E
  unfolding attr_result Refused
  answers outbuf r absent = record {
    at = λ d (k, got). elim got [
      | inl e ↦ rw e (inr (inl refl))
      | inr (e, out, n) ↦ rw e (out, n, k)
    ];
  }

  lazy :
      Own page number
      → (label : Exec (Device q f) Unit)
      → Hoare K (lazy_init_attr pid oid page number label) (λ _. K) E
  unfolding lazy_init_attr
  lazy (lo, hi, n) label =
      rw
        (
          ==_ne page 0xFFFFFFFF (λ e. absurd (omega arith)),
          ==_ne number 0xFFFFFFFF (λ e. absurd (omega arith)),
        )
        (ret tt (λ d k. k))

  pub gets :
      (outbuf : List ℕ) (outlen used : ℕ) (name ll : List ℕ)
      → Room outbuf outlen
      → Own page number
      → Hoare K
          (osd_getattr_list ndebug addr name ll pid oid page number outbuf outlen
            rtrvd_set_attr_list used)
          (λ (out, n) d. (out ≡ item ++ drop (length item) outbuf) × (n ≡ length item) × K d)
          E
  unfolding osd_getattr_list Refused
  gets outbuf outlen used name ll room own =
      let T = Defined pid oid page number value in
      bind (type_of f b T pid oid) (λ type.
        bind (passes pid oid (type == illegal_obj) (cdb_err pid oid) (inl refl)) (λ _. given (λ _.
          bind
            (passes pid oid (not (isgettable_page type page)) (param_list_err pid oid)
              (inr (inl refl)))
            (λ _. given (λ _. bind (lazy own (raise (hw_err pid oid))) (λ _.
              bind (listed outbuf outlen used name ll room own) (λ r.
                bind (answers outbuf r _) (λ x. ret (x.outdata, x.used_outlen) (λ d h. h)))))))))
