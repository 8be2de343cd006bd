-- ===== src/Device/Create/Objects.antt =====
-- The loop of `osd_create` and what it takes back when a round fails.
pub mod Whole
use viji_osc_osd.Base.{
  ℕ, zero, suc, ◌+◌, ◌≤◌, ◌<◌, ◌≡◌, refl, sym, subst, ap, ◌∙◌, inl, inr, Bool, true, false, not,
  List, ◌∷◌, any, Option, none, some, arith,
}
use viji_osc_osd.Db.{Ret, is_ok}
use viji_osc_osd.Store.{
  ObjRow, Sqlite, Behaves, Stmt, Tables, effect, conflict, obj_at, without, userobject,
}
use viji_osc_osd.Store.Rows.{Absent, without-none}
use viji_osc_osd.Store.Created.{
  object_row, created, purged, Free, Free-more, created-last, created-Absent, purged-created,
  without_self,
}
use viji_osc_osd.Store.Obj.{obj_insert, obj_delete}
use viji_osc_osd.Files.{Files, Stat, regular, special, absent, stat_error}
use viji_osc_osd.Exec.{
  Exec, Reply, Hoare, ◌>>◌, bind, ret, raised, ignore, ignored, left_if, modified, weaken,
}
use viji_osc_osd.Device.{
  Device, IdCache, object_lb, hw_err, db, out_hw_err, no_ids, opened, close_new, create_at,
  osd_create_datafile,
}
use viji_osc_osd.Device.Remove.{osd_remove}
use viji_osc_osd.Device.Remove.Rows.{Removable, osd_remove-rows}
use viji_osc_osd.Device.Create.{osd_remove_tmp_objects, create_one, create_rounds}
use viji_osc_osd.Device.Calls.{At, Ran, dms-Ran, if_Ran, having, sys_done, invalidated}

-- What `obj_delete` takes back of the round that failed.
untaken :
    (pid oid k : ℕ) (rows : List ObjRow)
    → any (obj_at pid (oid + k)) (created pid oid k rows) ≡ false
    → without (obj_at pid (oid + k)) (object_row pid (oid + k) ∷ created pid oid k rows)
      ≡ created pid oid k rows
untaken pid oid k rows e =
    without_self pid (oid + k) (created pid oid k rows)
    ∙ without-none (obj_at pid (oid + k)) (created pid oid k rows) e

module _ {q : Sqlite} {f : Files} (b : Behaves q) where
  -- The rows of the object table.
  abbrev pub Objs : List ObjRow → Device q f → Type 0
  Objs rows d = (b.tables d.conn).obj ≡ rows

  -- How the handler leaves when a round fails.
  abbrev pub TakenBack : Reply → List ObjRow → Reply → Device q f → Type 0
  TakenBack hw rows r d = (r ≡ hw) × Objs rows d × (d.ic.cur_pid ≡ 0)

  -- The k rounds so far.
  abbrev pub Rounds : ℕ → ℕ → List ObjRow → Tables → (IdCache → Type 0) → ℕ → Device q f → Type 0
  Rounds pid oid rows t R k = At f b (record t { obj = created pid oid k rows }) R

  module _ {t : Tables} {R : IdCache → Type 0} {E : Reply → Device q f → Type 0} where
    close_new-At : (r : Ret × Option ℕ) → Hoare (At f b t R) (close_new r) (λ _. At f b t R) E
    unfolding close_new
    close_new-At (r, none) = ret r (λ d p. p)
    close_new-At (r, some fd) = bind (sys_done f b (f.close fd)) (λ _. ret r (λ d p. p))

    create_at-At :
        (pid oid : ℕ) (s : Stat) → Hoare (At f b t R) (create_at pid oid s) (λ _. At f b t R) E
    unfolding create_at
    create_at-At pid oid (regular size) = ret _ (λ d p. p)
    create_at-At pid oid (special size) = ret _ (λ d p. p)
    create_at-At pid oid stat_error = ret _ (λ d p. p)
    create_at-At pid oid absent =
        bind (sys_done f b (f.creat pid oid)) (λ fd. close_new-At (opened fd))

    pub osd_create_datafile-At :
        (pid oid : ℕ) → Hoare (At f b t R) (osd_create_datafile pid oid) (λ _. At f b t R) E
    unfolding osd_create_datafile
    osd_create_datafile-At pid oid = record {
      at = λ d p. (create_at-At pid oid (f.stat pid oid d.fs)).at d p;
    }

  module _ (rm : Removable q) (pid : ℕ) (hp : object_lb ≤ pid)
      {E : Reply → Device q f → Type 0} where
    remove_one :
        (j : ℕ) (rows : List ObjRow)
        → object_lb ≤ j
        → Hoare (Objs rows) (ignore (osd_remove pid j)) (λ _. Objs (without (obj_at pid j) rows)) E
    remove_one j rows hj = record {
      at = λ d p.
          (ignored {E = E} (
              weaken (osd_remove-rows b {t = b.tables d.conn} {R = λ _. Unit} pid j hp hj)
                (λ _ x. x)
                (λ _ s x. ap (λ (y : Tables). y.obj) x.0.stored ∙ ap (without (obj_at pid j)) p)
                (λ r s x. absurd (rm x.1.failed.0 x.1.failed.1 x.1.failed.2)))).at
            d (record { stored = refl; known = tt });
    }

    osd_remove_tmp_objects-Objs :
        (j n : ℕ) (rows : List ObjRow)
        → object_lb ≤ j
        → Hoare (Objs rows) (osd_remove_tmp_objects pid j n) (λ _. Objs (purged pid j n rows)) E
    unfolding osd_remove_tmp_objects
    osd_remove_tmp_objects-Objs j zero rows hj = ret tt (λ d p. p)
    osd_remove_tmp_objects-Objs j (suc n) rows hj =
        bind (remove_one j rows hj)
          (λ _. osd_remove_tmp_objects-Objs (j + 1) n (without (obj_at pid j) rows) (omega arith))

  module _ (rm : Removable q) (pid oid : ℕ) (hp : object_lb ≤ pid) (ho : object_lb ≤ oid)
      (hw : Reply) (rows : List ObjRow) where
    restored :
        (k : ℕ)
        → Free pid oid k rows
        → Hoare
            (Objs (created pid oid k rows))
            (osd_remove_tmp_objects pid oid k)
            (λ _. Objs rows)
            (TakenBack hw rows)
    restored k free =
        weaken (osd_remove_tmp_objects-Objs rm pid hp oid k (created pid oid k rows) ho) (λ d p. p)
          (λ _ d p. p ∙ purged-created pid oid k rows free) (λ _ d p. p)

    gave_up :
        {A : Type 0} {Q : A → Device q f → Type 0}
        → Hoare (Objs rows) (out_hw_err hw) Q (TakenBack hw rows)
    gave_up =
        bind {Q = λ _ d. Objs rows d × (d.ic.cur_pid ≡ 0)}
          (modified (λ d. record d { ic = no_ids }) (λ d p. (p, refl)))
          (λ _. raised hw (λ d p. (refl, p.0, p.1)))

    taken_back :
        {A : Type 0} {Q : A → Device q f → Type 0} (k : ℕ)
        → Free pid oid k rows
        → Hoare
            (Objs (created pid oid k rows))
            (osd_remove_tmp_objects pid oid k >> out_hw_err hw)
            Q
            (TakenBack hw rows)
    taken_back k free = bind (restored k free) (λ _. gave_up)

    -- The row of a round without a data file is deleted first.
    undone :
        {A : Type 0} {Q : A → Device q f → Type 0} {R : IdCache → Type 0} (t : Tables) (k : ℕ)
        → t.obj ≡ object_row pid (oid + k) ∷ created pid oid k rows
        → Free pid oid k rows
        → any (obj_at pid (oid + k)) (created pid oid k rows) ≡ false
        → Hoare
            (At f b t R)
            (db (obj_delete q pid (oid + k)) >> osd_remove_tmp_objects pid oid k >> out_hw_err hw)
            Q
            (TakenBack hw rows)
    unfolding obj_delete effect
    undone t k e free new =
        bind
          (bind {Q = λ _. Objs (created pid oid k rows)}
            (weaken (dms-Ran f b (Stmt.obj_delete pid (oid + k))) (λ d p. p)
              (λ r d p. elim p [
                | inl (ok, free', now) ↦
                    ap (λ (x : Tables). x.obj) now.stored
                    ∙ ap (without (obj_at pid (oid + k))) e
                    ∙ untaken pid oid k rows new
                | inr (no', failed, now) ↦ absurd (rm (Stmt.obj_delete pid (oid + k)) refl failed)
              ])
              (λ _ d p. p))
            (λ _. restored k free))
          (λ _. gave_up)

    create_one-Rounds :
        {R : IdCache → Type 0} (t : Tables) (k : ℕ)
        → Free pid oid k rows
        → Hoare
            (Rounds pid oid rows t R k)
            (create_one pid oid k hw)
            (λ _ d. Rounds pid oid rows t R (suc k) d × Absent pid (oid + k) rows)
            (TakenBack hw rows)
    unfolding create_one obj_insert obj_delete effect conflict
    create_one-Rounds {R} t k free =
        bind (dms-Ran f b (Stmt.obj_insert pid (oid + k) userobject)) (λ r.
          bind
            (if_Ran f b _ r (λ why Q.
              weaken (taken_back k free) (λ d p. ap (λ (x : Tables). x.obj) p.stored) (λ _ d x. x)
                (λ _ d x. x)))
            (λ _. having f b (λ new. bind (osd_create_datafile-At pid (oid + k)) (λ c.
              weaken (left_if (not (is_ok c)) (undone _ k refl free new)) (λ d p. p)
                (λ _ d p. (
                  record {
                    stored =
                        p.0.stored
                        ∙ ap (λ rows'. record t { obj = rows' }) (created-last pid oid k rows);
                    known = p.0.known;
                  },
                  created-Absent pid oid k (oid + k) rows new,
                ))
                (λ _ d p. p)))))
