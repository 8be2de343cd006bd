-- ===== src/Device/Calls.antt =====
-- Rules for the calls on the database inside a handler: what the tables are afterwards. R stands for
-- what is known of the device beside its tables.
use viji_osc_osd.Base.{
  ℕ, ◌≡◌, refl, sym, subst, ◌∙◌, ap, ◌⊎◌, inl, inr, true, false, not, none, some,
}
use viji_osc_osd.Db.{Ret, osd_ok, osd_error, osd_error, is_ok, db_exec_dms, first_row}
use viji_osc_osd.Db.Runs.{assigned, dms_cases, first_row-assigned}
use viji_osc_osd.Store.{Sqlite, Behaves, Stmt, Tables, Small, effect, conflict, select, head}
use viji_osc_osd.Store.Obj.{exec_dms, exec_row}
use viji_osc_osd.Files.{Files}
use viji_osc_osd.Exec.{Exec, Reply, Hoare, modified, leave_if}
use viji_osc_osd.Device.{Device, IdCache, fill_ccap, db, sys, invalidate, no_ids}

-- Some execution of the statement fails.
abbrev pub Failed : Sqlite → Stmt → Type 0
Failed q s = (c : q.Conn) × (db_exec_dms (q.run s c).0 ≡ osd_error)

module _ {q : Sqlite} (f : Files) (b : Behaves q) where
  -- The tables of the device are t, and R holds of its cache.
  pub record At (t : Tables) (R : IdCache → Type 0) (d : Device q f) : Type 0 where
    pub stored : b.tables d.conn ≡ t
    pub known : R d.ic

  At-after :
      {t : Tables} {R : IdCache → Type 0} (s : Stmt) (d : Device q f)
      → At t R d
      → effect s t ≡ t
      → At t R (record d { conn = (q.run s d.conn).1 })
  At-after s d p same = elim (dms_cases (q.run s d.conn).0) [
    | inl ok ↦ record {
      stored = (b.success s d.conn ok).1 ∙ ap (effect s) p.stored ∙ same;
      known = p.known;
    }
    | inr error ↦ record { stored = b.failure s d.conn error ∙ p.stored; known = p.known }
  ]

  answered :
      {t : Tables} {R : IdCache → Type 0} (s : Stmt) (d : Device q f)
      → At t R d
      → db_exec_dms (q.run s d.conn).0 ≡ osd_ok
      → Small t
      → (first_row some none (q.run s d.conn).0).1 ≡ head (select s t)
  answered s d p ok small =
      b.answer s d.conn (subst Small (sym p.stored) small) ok
      ∙ ap (λ t'. head (select s t')) p.stored

  -- After a statement that changes rows: it did so, without a conflict, or changed nothing.
  abbrev pub Ran : Stmt → Tables → (IdCache → Type 0) → Ret → Device q f → Type 0
  Ran s t R r d =
      ((is_ok r ≡ true) × (conflict s t ≡ false) × At (effect s t) R d)
      ⊎ ((is_ok r ≡ false) × Failed q s × At t R d)

  -- After one that reads a row.
  abbrev pub Read :
      {B : Type 0}
      → Stmt
      → (ℕ → B)
      → B
      → Tables
      → (IdCache → Type 0)
      → Ret × B
      → Device q f
      → Type 0
  Read s g d0 t R (r, v) d =
      At t R d × (r ≡ osd_ok → Small t → v ≡ assigned g d0 (head (select s t)))

  module _ {t : Tables} {R : IdCache → Type 0} {E : Reply → Device q f → Type 0} where
    pub dms-Ran : (s : Stmt) → Hoare (At t R) (db (exec_dms q s)) (Ran s t R) E
    dms-Ran s = record {
      at = λ d p. elim (dms_cases (q.run s d.conn).0) [
        | inl ok ↦
            let (free, now) = b.success s d.conn ok in
            inl (
              ap is_ok ok,
              sym (ap (conflict s) p.stored) ∙ free,
              record { stored = now ∙ ap (effect s) p.stored; known = p.known },
            )
        | inr error ↦ inr (
          ap is_ok error,
          (d.conn, error),
          record { stored = b.failure s d.conn error ∙ p.stored; known = p.known },
        )
      ];
    }

    pub row-Read :
        {B : Type 0} (s : Stmt) (g : ℕ → B) (d0 : B)
        → effect s t ≡ t
        → Hoare (At t R) (db (exec_row q s g d0)) (Read s g d0 t R) E
    row-Read s g d0 same = record {
      at = λ d p.
          let e = first_row-assigned g d0 (q.run s d.conn).0 in
          (
            At-after s d p same,
            λ ok small.
                ap (λ x. x.1) e
                ∙ ap (assigned g d0) (answered s d p (ap (λ x. x.0) (sym e) ∙ ok) small),
          );
    }

    -- The jump behind a statement that changes rows: the handler goes on when it did so.
    pub if_Ran :
        (s : Stmt) (r : Ret) {label : Exec (Device q f) Unit}
        → (Failed q s → (Q : Device q f → Type 0) → Hoare (At t R) label (λ _. Q) E)
        → Hoare
            (Ran s t R r)
            (leave_if (not (is_ok r)) label)
            (λ _ d. At (effect s t) R d × (conflict s t ≡ false))
            E
    if_Ran s r bad = record {
      at = λ d p. elim p [
        | inl (e, free, now) ↦ rw e (now, free)
        | inr (e, failed, now) ↦ rw e ((bad failed _).at d now)
      ];
    }

    -- A system call leaves the tables.
    pub sys_done : {A : Type 0} (call : f.Fs → A × f.Fs) → Hoare (At t R) (sys call) (λ _. At t R) E
    sys_done call = record { at = λ d p. record { stored = p.stored; known = p.known } }

    pub invalidated : Hoare (At t R) invalidate (λ _. At t (λ ic. ic.cur_pid ≡ 0)) E
    invalidated =
        modified (λ d. record d { ic = no_ids }) (λ d p. record { stored = p.stored; known = refl })

    pub filled :
        (type pid oid off : ℕ)
        → Hoare
            (At t R)
            (fill_ccap type pid oid off)
            (λ _ d.
              At t R d
              × (d.ccap ≡ record { obj_type = type; pid = pid; oid = oid; append_off = off }))
            E
    unfolding fill_ccap
    filled type pid oid off =
        modified
          (λ d. record d {
            ccap = record { obj_type = type; pid = pid; oid = oid; append_off = off };
          })
          (λ d p. (record { stored = p.stored; known = p.known }, refl))

  -- A fact beside the state is a premise.
  pub having :
      {A C : Type 0} {P : Device q f → Type 0} {m : Exec (Device q f) A}
      {Q : A → Device q f → Type 0} {E : Reply → Device q f → Type 0}
      → (C → Hoare P m Q E)
      → Hoare (λ d. P d × C) m Q E
  having h = record { at = λ d p. (h p.1).at d p.0 }
