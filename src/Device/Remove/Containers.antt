-- ===== src/Device/Remove/Containers.antt =====
-- What the handlers do that remove a partition or a collection.
use viji_osc_osd.Base.{
  ℕ, ◌%◌, ◌^◌, ◌<◌, ◌≤◌, length, ◌≡◌, ◌≢◌, refl, sym, ap, ◌∙◌, ◌⊎◌, inl, inr, Bool, true, false,
  not, ◌&&◌, ◌||◌, List, [], ◌∷◌, any, ltb, ◌==◌, arith, Bool-cases,
}
use viji_osc_osd.Db.{Ret, osd_ok, is_ok}
use viji_osc_osd.Store.{
  ObjRow, Sqlite, Behaves, Stmt, Tables, Small, effect, select, count, obj_at, coll_at, attr_at,
  without, partition, collection, partition_oid,
}
use viji_osc_osd.Store.Rows.{without-none}
use viji_osc_osd.Store.Obj.{obj_ispresent, obj_isempty_pid, obj_delete}
use viji_osc_osd.Store.Coll.{attr_delete_all, coll_delete_cid, coll_isempty_cid}
use viji_osc_osd.Files.{Files}
use viji_osc_osd.Exec.{Reply, sdd, Hoare, Post, bind, ret, raise, raised, left_if, weaken}
use viji_osc_osd.Device.{Device, IdCache, object_lb, missing, cdb_err, hw_err}
use viji_osc_osd.Sense.{illegal_request, part_or_coll_contains_user_objects}
use viji_osc_osd.Device.Remove.{osd_remove_partition, osd_remove_collection, empty_collection}
use viji_osc_osd.Device.Calls.{At, dms-Ran, if_Ran, row-Read, having, invalidated, filled}

-- A result that passes the handlers' test.
was_ok : (r : Ret) → not (is_ok r) ≡ false → r ≡ osd_ok
was_ok r h = ground arith

count-zero {ℓ} : {A : Type ℓ} (p : A → Bool) (rows : List A) → count p rows ≡ 0 → any p rows ≡ false
count-zero p [] h = refl
count-zero p (r ∷ rows) h = elim (Bool-cases (p r)) [
  | inl e ↦ absurd (ground arith)
  | inr e ↦ rw e (count-zero p rows (ground arith))
]

count-le {ℓ} : {A : Type ℓ} (p : A → Bool) (rows : List A) → count p rows ≤ length rows
count-le p [] = omega arith
count-le p (r ∷ rows) =
    let rest = count-le p rows in
    elim (Bool-cases (p r)) [ inl e ↦ rw e (omega arith) | inr e ↦ rw e (omega arith) ]

-- A row of an object in the partition that is not the partition itself.
abbrev pub inside : ℕ → ObjRow → Bool
inside pid r = r.pid == pid && not (r.oid == 0)

none_inside :
    (pid : ℕ) (t : Tables) (r : Ret) (isempty : Bool)
    → length t.obj < 2 ^ 32
    → (r ≡ osd_ok → isempty ≡ (0 == count (inside pid) t.obj % 2 ^ 32))
    → (not (is_ok r) || not isempty) ≡ false
    → any (inside pid) t.obj ≡ false
none_inside pid t r isempty few fact g =
    let e = fact (was_ok r (ground arith)) in
    let le = count-le (inside pid) t.obj in
    let whole : count (inside pid) t.obj % 2 ^ 32 ≡ count (inside pid) t.obj = omega arith in
    count-zero (inside pid) t.obj (ground arith)

no_members :
    (pid cid : ℕ) (t : Tables) (r : Ret) (isempty : Bool)
    → length t.coll < 2 ^ 32
    → (r ≡ osd_ok → isempty ≡ (0 == count (coll_at pid cid) t.coll % 2 ^ 32))
    → not (is_ok r) ≡ false
    → isempty ≡ true
    → any (coll_at pid cid) t.coll ≡ false
no_members pid cid t r isempty few fact g e =
    let e' = fact (was_ok r g) in
    let le = count-le (coll_at pid cid) t.coll in
    let whole : count (coll_at pid cid) t.coll % 2 ^ 32 ≡ count (coll_at pid cid) t.coll =
      omega arith in
    count-zero (coll_at pid cid) t.coll (ground arith)

-- The tables without a collection: its row, its attributes, and all its members.
abbrev pub without_collection : ℕ → ℕ → Tables → Tables
without_collection pid cid t = record {
  obj = without (obj_at pid cid) t.obj;
  coll = without (coll_at pid cid) t.coll;
  attr = without (attr_at pid cid) t.attr;
}

module _ {q : Sqlite} {f : Files} (b : Behaves q) where
  -- The object table is as it was.
  abbrev pub Same : Tables → Reply → Device q f → Type 0
  Same t r d = (b.tables d.conn).obj ≡ t.obj

  same :
      {A : Type 0} (t : Tables) {t' : Tables} {R : IdCache → Type 0} (Q : A → Device q f → Type 0)
      (r : Reply)
      → t'.obj ≡ t.obj
      → Hoare (At f b t' R) (raise r) Q (Same t)
  same t Q r e = raised r (λ d p. ap (λ (x : Tables). x.obj) p.stored ∙ e)

  osd_remove_partition-empty :
      {R : IdCache → Type 0} (pid : ℕ) (t : Tables)
      → Small t
      → length t.obj < 2 ^ 32
      → Hoare
          (At f b t R)
          (osd_remove_partition pid)
          (λ _ d.
            At f b
              (record t {
                obj = without (obj_at pid partition_oid) t.obj;
                attr = without (attr_at pid partition_oid) t.attr;
              })
              (λ ic. ic.cur_pid ≡ 0)
              d
            × (any (inside pid) t.obj ≡ false))
          (Same t)
  unfolding osd_remove_partition obj_isempty_pid attr_delete_all obj_delete effect select
  osd_remove_partition-empty pid t small few =
      let err = hw_err pid partition_oid in
      let not_empty = sdd illegal_request part_or_coll_contains_user_objects pid partition_oid in
      bind (left_if (pid == 0) (same t _ (cdb_err pid partition_oid) refl)) (λ _. having f b (λ g1.
        bind (row-Read f b (Stmt.obj_emptypid pid) (λ v. 0 == v % 2 ^ 32) false refl)
          (λ (r, isempty).
            bind
              (left_if (not (is_ok r) || not isempty)
                (raised not_empty (λ d p. ap (λ (x : Tables). x.obj) p.0.stored)))
              (λ _. having f b (λ g2. having f b (λ fact. bind (invalidated f b) (λ _.
                bind (dms-Ran f b (Stmt.attr_delall pid partition_oid)) (λ r1.
                  bind (if_Ran f b _ r1 (λ _ Q. same t _ err refl)) (λ _. having f b (λ _.
                    bind (dms-Ran f b (Stmt.obj_delete pid partition_oid)) (λ r2.
                      bind (if_Ran f b _ r2 (λ _ Q. same t _ err refl)) (λ _. having f b (λ _.
                        weaken (filled f b partition pid partition_oid 0) (λ d p. p)
                          (λ _ d p. (p.0, none_inside pid t r isempty few (λ ok. fact ok small) g2))
                          (λ _ d p. p))))))))))))))

  empty_collection-At :
      {R : IdCache → Type 0} (pid cid fcr : ℕ) (isempty : Bool) (t : Tables)
      → (isempty ≡ true → any (coll_at pid cid) t.coll ≡ false)
      → Hoare
          (At f b t R)
          (empty_collection pid cid fcr isempty)
          (λ _ d.
            At f b (record t { coll = without (coll_at pid cid) t.coll }) R d
            × ((fcr ≢ 0) ⊎ (any (coll_at pid cid) t.coll ≡ false)))
          (Same t)
  unfolding empty_collection coll_delete_cid effect
  empty_collection-At pid cid fcr true t mem = ret tt (λ d p. (
    record {
      stored =
          p.stored
          ∙ ap (λ rows. record t { coll = rows })
              (sym (without-none (coll_at pid cid) t.coll (mem refl)));
      known = p.known;
    },
    inr (mem refl),
  ))
  empty_collection-At pid cid fcr false t mem =
      bind
        (left_if (fcr == 0)
          (same t _ (sdd illegal_request part_or_coll_contains_user_objects pid cid) refl))
        (λ _. having f b (λ g. bind (dms-Ran f b (Stmt.coll_delcid pid cid)) (λ r.
          weaken (if_Ran f b _ r (λ _ Q. same t _ (hw_err pid cid) refl)) (λ d p. p)
            (λ _ d p. (p.0, inl (ground arith))) (λ _ d p. p))))

  osd_remove_collection-gone :
      {R : IdCache → Type 0} (pid cid fcr : ℕ) (t : Tables)
      → Small t
      → length t.coll < 2 ^ 32
      → Hoare
          (At f b t R)
          (osd_remove_collection pid cid fcr)
          (λ _ d.
            At f b (without_collection pid cid t) (λ ic. ic.cur_pid ≡ 0) d
            × ((fcr ≢ 0) ⊎ (any (coll_at pid cid) t.coll ≡ false)))
          (Same t)
  unfolding osd_remove_collection obj_ispresent coll_isempty_cid attr_delete_all obj_delete effect
      select
  osd_remove_collection-gone pid cid fcr t small few =
      let illegal = cdb_err pid cid in
      let err = hw_err pid cid in
      bind (left_if (pid == 0 || ltb pid object_lb) (same t _ illegal refl)) (λ _. having f b (λ g1.
        bind (left_if (ltb cid object_lb) (same t _ illegal refl)) (λ _. having f b (λ g2.
          bind (row-Read f b (Stmt.obj_isprsnt pid cid) (λ v. v) 0 refl) (λ (r, v).
            bind
              (left_if (missing (r, v))
                (raised illegal (λ d p. ap (λ (x : Tables). x.obj) p.0.stored)))
              (λ _. having f b (λ g3. having f b (λ _. bind (invalidated f b) (λ _.
                bind (row-Read f b (Stmt.coll_emptycid pid cid) (λ v. 0 == v % 2 ^ 32) false refl)
                  (λ (r', isempty).
                    bind
                      (left_if (not (is_ok r'))
                        (raised err (λ d p. ap (λ (x : Tables). x.obj) p.0.stored)))
                      (λ _. having f b (λ g4. having f b (λ fact.
                        bind
                          (empty_collection-At pid cid fcr isempty t
                            (no_members pid cid t r' isempty few (λ ok. fact ok small) g4))
                          (λ _. having f b (λ forced.
                            bind (dms-Ran f b (Stmt.attr_delall pid cid)) (λ r1.
                              bind (if_Ran f b _ r1 (λ _ Q. same t _ err refl)) (λ _.
                                having f b (λ _. bind (dms-Ran f b (Stmt.obj_delete pid cid)) (λ r2.
                                  bind (if_Ran f b _ r2 (λ _ Q. same t _ err refl)) (λ _.
                                    having f b (λ _.
                                      weaken (filled f b collection pid cid 0) (λ d p. p)
                                        (λ _ d p. (p.0, forced)) (λ _ d p. p))))))))))))))))))))))

-- `osd_remove_partition` on any database that answers as SQL says, with identifiers below 2 ^ 63 and
-- fewer than 2 ^ 32 objects: when it ends well the partition held no object, its row and its attributes are gone, every other row is
-- there and the cache is given up; when it ends with sense data the object table is as it was.
pub osd_remove_partition_lem :
    {q : Sqlite} {f : Files} (b : Behaves q) (pid : ℕ) (d : Device q f)
    → Small (b.tables d.conn)
    → length (b.tables d.conn).obj < 2 ^ 32
    → Post
        (λ _ d'.
          At f b
            (record (b.tables d.conn) {
              obj = without (obj_at pid partition_oid) (b.tables d.conn).obj;
              attr = without (attr_at pid partition_oid) (b.tables d.conn).attr;
            })
            (λ ic. ic.cur_pid ≡ 0)
            d'
          × (any (inside pid) (b.tables d.conn).obj ≡ false))
        (Same b (b.tables d.conn))
        (osd_remove_partition pid d)
osd_remove_partition_lem b pid d small few =
    (osd_remove_partition-empty b {R = λ _. Unit} pid (b.tables d.conn) small few).at d
      (record { stored = refl; known = tt })

-- `osd_remove_collection` on any database that answers as SQL says, with identifiers below 2 ^ 63 and
-- fewer than 2 ^ 32 memberships: when it ends well the collection had no members or the removal was forced, its row, its attributes and all
-- its memberships are gone, every other row is there and the cache is given up; when it ends with sense
-- data the object table is as it was.
pub osd_remove_collection_lem :
    {q : Sqlite} {f : Files} (b : Behaves q) (pid cid fcr : ℕ) (d : Device q f)
    → Small (b.tables d.conn)
    → length (b.tables d.conn).coll < 2 ^ 32
    → Post
        (λ _ d'.
          At f b (without_collection pid cid (b.tables d.conn)) (λ ic. ic.cur_pid ≡ 0) d'
          × ((fcr ≢ 0) ⊎ (any (coll_at pid cid) (b.tables d.conn).coll ≡ false)))
        (Same b (b.tables d.conn))
        (osd_remove_collection pid cid fcr d)
osd_remove_collection_lem b pid cid fcr d small few =
    (osd_remove_collection-gone b {R = λ _. Unit} pid cid fcr (b.tables d.conn) small few).at d
      (record { stored = refl; known = tt })
