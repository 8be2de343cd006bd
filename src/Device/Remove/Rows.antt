-- ===== src/Device/Remove/Rows.antt =====
-- What the removing handlers do to the tables.
use viji_osc_osd.Base.{
  ℕ, ◌≡◌, ◌≤◌, refl, Bool, true, false, not, ◌&&◌, leb, ◌==◌, ◌<◌, ◌⊎◌, inl, inr, Bool-cases, ◌∙◌,
  ap, arith,
}
use viji_osc_osd.Store.{Sqlite, Behaves, Stmt, Tables, effect, obj_at, attr_at, without, userobject}
use viji_osc_osd.Store.Obj.{obj_delete}
use viji_osc_osd.Store.Coll.{attr_delete_all, coll_delete_oid}
use viji_osc_osd.Files.{Files}
use viji_osc_osd.Exec.{Reply, Hoare, bind, raise, raised, passed, weaken, Post}
use viji_osc_osd.Device.{Device, IdCache, object_lb, hw_err, cdb_err}
use viji_osc_osd.Device.Remove.{osd_remove}
use viji_osc_osd.Device.Calls.{At, Failed, dms-Ran, if_Ran, having, sys_done, invalidated, filled}

-- The statements of a removal.
abbrev pub is_removal : Stmt → Bool
is_removal (Stmt.obj_delete p o) = true
is_removal (Stmt.coll_deloid p o) = true
is_removal (Stmt.attr_delall p o) = true
is_removal s = false

-- A database on which removals do not fail.
abbrev pub Removable : Sqlite → Type 0
Removable q = (s : Stmt) → is_removal s ≡ true → Failed q s → ⊥

-- The tables without the object: its row, its attributes, and its memberships.
abbrev pub without_object : ℕ → ℕ → Tables → Tables
without_object pid oid t = record {
  obj = without (obj_at pid oid) t.obj;
  coll = without (λ r. r.pid == pid && r.oid == oid) t.coll;
  attr = without (attr_at pid oid) t.attr;
}

module _ {q : Sqlite} {f : Files} (b : Behaves q) where
  -- How a removal that fails on the way leaves the device.
  pub record Kept (t : Tables) (d : Device q f) : Type 0 where
    pub objects : (b.tables d.conn).obj ≡ t.obj
    pub given_up : d.ic.cur_pid ≡ 0
    pub failed : (s : Stmt) × (is_removal s ≡ true) × Failed q s

  fails :
      {A : Type 0} {t t' : Tables} (pid oid : ℕ)
      → t'.obj ≡ t.obj
      → ((s : Stmt) × (is_removal s ≡ true) × Failed q s)
      → (Q : A → Device q f → Type 0)
      → Hoare
          (At f b t' (λ ic. ic.cur_pid ≡ 0))
          (raise (hw_err pid oid))
          Q
          (λ r d. (r ≡ hw_err pid oid) × Kept t d)
  fails pid oid e why Q = raised (hw_err pid oid) (λ d p. (
    refl,
    record { objects = ap (λ (x : Tables). x.obj) p.stored ∙ e; given_up = p.known; failed = why },
  ))

  module _ {t : Tables} {R : IdCache → Type 0} (pid oid : ℕ) (hp : object_lb ≤ pid)
      (ho : object_lb ≤ oid) where
    pub osd_remove-rows :
        Hoare
          (At f b t R)
          (osd_remove pid oid)
          (λ _ d.
            At f b (without_object pid oid t) (λ ic. ic.cur_pid ≡ 0) d
            × (d.ccap ≡ record { obj_type = userobject; pid = pid; oid = oid; append_off = 0 }))
          (λ r d. (r ≡ hw_err pid oid) × Kept t d)
    unfolding osd_remove attr_delete_all coll_delete_oid obj_delete effect
    osd_remove-rows =
        bind (passed (not (leb object_lb pid && leb object_lb oid)) _ (ground arith)) (λ _.
          bind (invalidated f b) (λ _. bind (sys_done f b (f.unlink pid oid)) (λ _.
            bind (dms-Ran f b (Stmt.attr_delall pid oid)) (λ r1.
              bind
                (if_Ran f b _ r1
                  (λ why Q. fails pid oid refl (Stmt.attr_delall pid oid, refl, why) (λ _. Q)))
                (λ _. bind (having f b (λ _. dms-Ran f b (Stmt.coll_deloid pid oid))) (λ r2.
                  bind
                    (if_Ran f b _ r2
                      (λ why Q. fails pid oid refl (Stmt.coll_deloid pid oid, refl, why) (λ _. Q)))
                    (λ _. bind (having f b (λ _. dms-Ran f b (Stmt.obj_delete pid oid))) (λ r3.
                      bind
                        (if_Ran f b _ r3 (λ why Q.
                          fails pid oid refl (Stmt.obj_delete pid oid, refl, why) (λ _. Q)))
                        (λ _. having f b (λ _. filled f b userobject pid oid 0))))))))))

-- How `osd_remove` leaves the device: as it was, or with the object table as it was and the cache given
-- up.
abbrev pub Unremoved :
    {q : Sqlite} {f : Files} → Behaves q → ℕ → ℕ → Device q f → Reply → Device q f → Type 0
Unremoved b pid oid d r d' =
    ((r ≡ cdb_err pid oid) × (d' ≡ d) × ((pid < object_lb) ⊎ (oid < object_lb)))
    ⊎ ((r ≡ hw_err pid oid) × Kept b (b.tables d.conn) d')

-- `osd_remove`, whatever the file system does: when it ends well the identifiers were valid, the
-- object's row, its attributes and its memberships are gone from the tables and every other row is
-- there, the cache is given up and the current command attributes name the object; when it ends with
-- ILLEGAL REQUEST an identifier was too small and nothing has changed; otherwise it ends with HARDWARE
-- ERROR, the object table is as it was, the cache is given up and one of the three statements can fail.
pub osd_remove_lem :
    {q : Sqlite} {f : Files} (b : Behaves q) (pid oid : ℕ) (d : Device q f)
    → Post
        (λ _ d'.
          At f b (without_object pid oid (b.tables d.conn)) (λ ic. ic.cur_pid ≡ 0) d'
          × (d'.ccap ≡ record { obj_type = userobject; pid = pid; oid = oid; append_off = 0 }))
        (Unremoved b pid oid d)
        (osd_remove pid oid d)
unfolding osd_remove
osd_remove_lem {f} b pid oid d = elim (Bool-cases (not (leb object_lb pid && leb object_lb oid))) [
  | inl e ↦ rw e (inl (refl, refl, ground arith))
  | inr e ↦
      (weaken {E' = Unremoved b pid oid d}
          (osd_remove-rows b {t = b.tables d.conn} {R = λ _. Unit} pid oid (ground arith)
            (ground arith))
          (λ _ x. x) (λ _ s x. x) (λ r s x. inr x)).at
        d (record { stored = refl; known = tt })
]
