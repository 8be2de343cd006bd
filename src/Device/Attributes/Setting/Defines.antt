-- ===== src/Device/Attributes/Setting/Defines.antt =====
-- An attribute that is set is defined afterwards.
use viji_osc_osd.Base.{
  ℕ, ◌≡◌, refl, ap, ◌∙◌, arith, Bool, false, not, inl, inr, List, filter, take, ltb, ◌==◌, ==_ne,
}
use viji_osc_osd.Db.Runs.{dms_cases}
use viji_osc_osd.Store.{Sqlite, Behaves, Stmt, Tables, attr_is, effect}
use viji_osc_osd.Store.Rows.{attr_add-here}
use viji_osc_osd.Store.Obj.{obj_ispresent}
use viji_osc_osd.Store.Coll.{set_attr}
use viji_osc_osd.Files.{Files}
use viji_osc_osd.Exec.{Reply, Hoare, raise, bind, given, weaken, ◌>>=◌}
use viji_osc_osd.Page.{issettable_page}
use viji_osc_osd.Device.{Device, missing, cdb_err, hw_err}
use viji_osc_osd.Device.Attributes.Info.{set_row}
use viji_osc_osd.Device.Attributes.Getting.{require_attr, illegal_obj, param_list_err}
use viji_osc_osd.Device.Attributes.Setting.{
  osd_set_attributes, set_on_page, bad_name, attrnum_unmodifiable,
}
use viji_osc_osd.Device.Attributes.Kept.{Kept, reads, type_of}
use viji_osc_osd.Device.Attributes.Own.{Own, Refused, attr_row, Defined, passes}

module _ {q : Sqlite} (f : Files) (b : Behaves q) (pid oid page number : ℕ) where
  abbrev E : Reply → Device q f → Type 0
  E r d = Refused pid oid r

  abbrev Known : List ℕ → Device q f → Type 0
  Known value = Kept f b (Defined pid oid page number value)

  abbrev Any : Device q f → Type 0
  Any d = Unit {0}

  row_set :
      (val : List ℕ) (len : ℕ)
      → Hoare Any
          (set_row pid oid page number val len >>= require_attr (raise (hw_err pid oid)))
          (λ _. Known (take len val))
          E
  unfolding set_row set_attr require_attr Defined Refused effect
  row_set val len = record {
    at = λ d p.
        let s = Stmt.attr_setattr pid oid page number (take len val) in
        let run = q.run s d.conn in
        elim (dms_cases run.0) [
          | inl ok ↦ rw ok (
              ap (λ (t : Tables). filter (attr_is pid oid page number) t.attr)
                (b.success s d.conn ok).1
              ∙ attr_add-here (attr_row pid oid page number (take len val)) (b.tables d.conn).attr)
          | inr bad ↦ rw bad (inr (inr refl))
        ];
  }

  on_page :
      (val : List ℕ) (len : ℕ)
      → Own page number
      → (len == 0) ≡ false
      → Hoare Any (set_on_page pid oid page number val len) (λ _. Known (take len val)) E
  unfolding set_on_page
  on_page val len (lo, hi, n) h =
      rw
        (
          ==_ne page 1 (λ e. absurd (omega arith)),
          ==_ne page 0x90000001 (λ e. absurd (omega arith)),
          ==_ne page 4 (λ e. absurd (omega arith)),
          h,
        )
        (row_set val len)

  -- Its value is not empty.
  pub sets :
      (val : List ℕ) (len : ℕ)
      → Own page number
      → Hoare
          (λ _. Unit {0})
          (osd_set_attributes pid oid page number val len)
          (λ _ d. Kept f b (Defined pid oid page number (take len val)) d × ((len == 0) ≡ false))
          E
  unfolding osd_set_attributes Refused obj_ispresent effect
  sets val len own =
      let cdb = inl refl in
      let list = inr (inl refl) in
      let test = λ (c : Bool) (r : Reply) (h : Refused pid oid r).
        passes {q = q} {f = f} {P = Any} pid oid c r h in
      bind (reads f b (λ t. Unit {0}) (Stmt.obj_isprsnt pid oid) (λ x. x) 0 (λ t. refl)) (λ found.
        bind (test (missing found) (cdb_err pid oid) cdb) (λ _. given (λ _.
          bind (type_of f b (λ t. Unit {0}) pid oid) (λ type.
            bind (test (type == illegal_obj) (cdb_err pid oid) cdb) (λ _. given (λ _.
              bind (test (not (issettable_page type page)) (param_list_err pid oid) list) (λ _.
                given (λ _.
                  bind (test (number == attrnum_unmodifiable) (param_list_err pid oid) list) (λ _.
                    given (λ _. bind (test (len == 0) (cdb_err pid oid) cdb) (λ _. given (λ long.
                      bind (test (bad_name number val len) (cdb_err pid oid) cdb) (λ _. given (λ _.
                        bind (test (ltb 0xFFFE len) (param_list_err pid oid) list) (λ _. given (λ _.
                          weaken (on_page val len own long) (λ d p. p) (λ _ d k. (k, long))
                            (λ r d e. e)))))))))))))))))
