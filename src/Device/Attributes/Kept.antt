-- ===== src/Device/Attributes/Kept.antt =====
-- What a handler's reading leaves as it is: a property T of the tables, whichever.
use viji_osc_osd.Base.{
  ℕ, ◌%◌, ◌^◌, ◌≡◌, refl, sym, ◌∙◌, subst, Bool, true, false, ◌&&◌, inl, inr, leb, ◌==◌,
  if◌then◌else◌,
}
use viji_osc_osd.Db.Runs.{dms_cases}
use viji_osc_osd.Store.{Sqlite, Behaves, Stmt, Tables, effect, root, partition, partition_oid}
use viji_osc_osd.Store.Obj.{exec_row, obj_get_type}
use viji_osc_osd.Files.{Files}
use viji_osc_osd.Exec.{Exec, Reply, Hoare, bind, ret}
use viji_osc_osd.Device.{Device, object_lb, db}
use viji_osc_osd.Device.Attributes.Getting.{obj_type_of, type_found, illegal_obj}

choose :
    {S A : Type 0} {P : S → Type 0} {Q : A → S → Type 0} {E : Reply → S → Type 0} (c : Bool)
    {m n : Exec S A}
    → Hoare P m Q E
    → Hoare P n Q E
    → Hoare P (if c then m else n) Q E
choose true h k = h
choose false h k = k

module _ {q : Sqlite} (f : Files) (b : Behaves q) (T : Tables → Type 0) where
  abbrev pub Kept : Device q f → Type 0
  Kept d = T (b.tables d.conn)

  pub same_tables :
      (d : Device q f) (c : q.Conn)
      → b.tables c ≡ b.tables d.conn
      → Kept d
      → Kept (record d { conn = c })
  same_tables d c e h = subst T (sym e) h

  module _ {E : Reply → Device q f → Type 0} where
    pub reads :
        {B : Type 0} (s : Stmt) (g : ℕ → B) (d0 : B)
        → ((t : Tables) → effect s t ≡ t)
        → Hoare Kept (db (exec_row q s g d0)) (λ _. Kept) E
    reads s g d0 same = record {
      at = λ d p. elim (dms_cases (q.run s d.conn).0) [
        | inl ok ↦
            same_tables d (q.run s d.conn).1 ((b.success s d.conn ok).1 ∙ same (b.tables d.conn)) p
        | inr bad ↦ same_tables d (q.run s d.conn).1 (b.failure s d.conn bad) p
      ];
    }

    pub type_of : (pid oid : ℕ) → Hoare Kept (obj_type_of pid oid) (λ _. Kept) E
    unfolding obj_type_of obj_get_type effect
    type_of pid oid =
        let kept = λ (x : ℕ). ret {Q = λ _. Kept} {E = E} x (λ d p. p) in
        let s = Stmt.obj_gettype pid oid in
        choose (pid == 0 && oid == 0) (kept root) (
          choose (leb object_lb pid && oid == partition_oid) (kept partition) (
            choose (leb object_lb pid && leb object_lb oid)
              (bind (reads s (λ x. x % 2 ^ 8) 0 (λ t. refl)) (λ found. kept (type_found found)))
              (kept illegal_obj)))
