-- ===== src/Device/Create/Others.antt =====
-- What the handlers do that create a collection.
use viji_osc_osd.Base.{
  ℕ, ◌≡◌, ◌≤◌, ◌<◌, ◌^◌, refl, sym, subst, ◌⊎◌, inl, inr, not, ◌&&◌, ◌||◌, ◌∷◌, ltb, ◌==◌, arith,
}
use viji_osc_osd.Store.{
  ObjRow, Sqlite, Behaves, Stmt, Tables, Small, effect, conflict, collection, partition_oid,
}
use viji_osc_osd.Store.Rows.{Absent, Below, Below-more, Placed}
use viji_osc_osd.Store.Obj.{obj_ispresent, obj_insert}
use viji_osc_osd.Files.{Files}
use viji_osc_osd.Exec.{Reply, Hoare, Post, bind, raise, raised, left_if, weaken, knowing}
use viji_osc_osd.Device.{Device, IdCache, object_lb, missing, cdb_err, hw_err}
use viji_osc_osd.Device.Create.{osd_create_collection}
use viji_osc_osd.Device.Calls.{At, dms-Ran, if_Ran, row-Read, having, filled}
use viji_osc_osd.Device.Cache.{Fresh, Picked, pick_id-Picked}

abbrev collection_row : ℕ → ℕ → ObjRow
collection_row pid cid = record { pid = pid; oid = cid; type = collection }

-- The identifier of the collection once it is picked.
abbrev Chosen : ℕ → ℕ → Tables → ℕ → IdCache → Type 0
Chosen pid requested t cid ic =
    Picked pid cid t ic
    × (object_lb ≤ cid)
    × (cid ≤ 2 ^ 63)
    × ((requested ≡ 0) ⊎ ((cid ≡ requested) × (ic.cur_pid ≡ 0)))

-- The cache stays right when an identifier that it handed out is used, or is not used.
used :
    (pid cid type : ℕ) (t : Tables) (ic : IdCache)
    → object_lb ≤ cid
    → Picked pid cid t ic
    → Fresh (record t { obj = record { pid = pid; oid = cid; type = type } ∷ t.obj }) ic
used pid cid type t ic h (inl given_up) = inl given_up
used pid cid type t ic h (inr (same, next, below)) = inr (
  (
    inr (omega arith),
    subst (λ (k : ℕ). Below k ic.next_id t.obj) (sym same)
        (Below-more pid cid ic.next_id t.obj (omega arith) below),
  ),
  omega arith,
)

asked_for : {A B C : Type 0} → A ⊎ (B × C) → A ⊎ B
asked_for (inl a) = inl a
asked_for (inr (x, c)) = inr x

unused :
    (pid cid : ℕ) (t : Tables) (ic : IdCache) → object_lb ≤ cid → Picked pid cid t ic → Fresh t ic
unused pid cid t ic h (inl given_up) = inl given_up
unused pid cid t ic h (inr (same, next, below)) = inr (
  subst (λ (k : ℕ). Below k ic.next_id t.obj) (sym same)
      (Below-more pid cid ic.next_id t.obj (omega arith) below),
  omega arith,
)

module _ {q : Sqlite} {f : Files} (b : Behaves q) where
  -- What a run of `osd_create_collection` that ends well has done.
  pub record Collected (pid requested : ℕ) (t : Tables) (d : Device q f) : Type 0 where
    pub cid : ℕ
    pub valid : object_lb ≤ cid
    pub asked : (requested ≡ 0) ⊎ (cid ≡ requested)
    pub free : Absent pid cid t.obj
    pub stored : b.tables d.conn ≡ record t { obj = collection_row pid cid ∷ t.obj }
    pub fresh : Fresh (b.tables d.conn) d.ic
    pub named : d.ccap ≡ record { obj_type = collection; pid = pid; oid = cid; append_off = 0 }

  abbrev pub Uncollected : Tables → Reply → Device q f → Type 0
  Uncollected t r d = At f b t (Fresh t) d

  illegal :
      {A : Type 0} {Q : A → Device q f → Type 0} {P : Device q f → Type 0} (t : Tables) (r : Reply)
      → ((d : Device q f) → P d → At f b t (Fresh t) d)
      → Hoare P (raise r) Q (Uncollected t)
  illegal t r h = raised r h

  osd_create_collection-Collected :
      (pid requested : ℕ) (t : Tables)
      → Placed object_lb t.obj
      → Small t
      → requested < 2 ^ 63
      → Hoare
          (At f b t (λ ic. Fresh t ic × (ic.next_id < 2 ^ 63)))
          (osd_create_collection pid requested)
          (λ _. Collected pid requested t)
          (Uncollected t)
  unfolding osd_create_collection obj_ispresent obj_insert effect conflict
  osd_create_collection-Collected pid requested t placed small hr =
      let err = cdb_err requested 0 in
      bind
        (left_if (pid == 0 || ltb pid object_lb)
          (illegal t err (λ d p. record { stored = p.stored; known = p.known.0 })))
        (λ _. having f b (λ g1.
          bind
            (left_if (not (requested == 0) && ltb requested object_lb)
              (illegal t err (λ d p. record { stored = p.stored; known = p.known.0 })))
            (λ _. having f b (λ g2.
              bind (row-Read f b (Stmt.obj_isprsnt pid partition_oid) (λ v. v) 0 refl) (λ (r, v).
                bind
                  (left_if (missing (r, v))
                    (illegal t err (λ d p. record { stored = p.0.stored; known = p.0.known.0 })))
                  (λ _. having f b (λ g3. having f b (λ fact.
                    bind
                      (weaken
                        (pick_id-Picked b
                          (record { valid = ground arith; placed = placed; small = small })
                          requested err (hw_err requested 0) (ground arith) hr)
                        (λ d p. p) (λ _ d p. p) (λ e d p. p.0))
                      (λ cid.
                        knowing (λ d p. (p.known.1, asked_for p.known.3))
                          (λ (valid, asked).
                            bind (dms-Ran f b (Stmt.obj_insert pid cid collection)) (λ r1.
                              bind
                                (if_Ran f b _ r1 (λ _ Q. raised err (λ d p. record {
                                  stored = p.stored;
                                  known = unused pid cid t d.ic valid p.known.0;
                                })))
                                (λ _. having f b (λ free.
                                  weaken (filled f b collection pid cid 0) (λ d p. p)
                                    (λ _ d p. record {
                                      cid = cid;
                                      valid = valid;
                                      asked = asked;
                                      free = free;
                                      stored = p.0.stored;
                                      fresh =
                                          subst (λ t'. Fresh t' d.ic) (sym p.0.stored)
                                            (used pid cid collection t d.ic valid p.0.known.0);
                                      named = p.1;
                                    })
                                    (λ _ d p. p))))))))))))))

-- `osd_create_collection` on any database that answers as SQL says: when the identifiers in the object
-- table are valid and below 2 ^ 63, as the request is, and the cache holds an identifier above those of
-- its partition, then a run that ends well has inserted the one row of a collection whose identifier is
-- valid, was free and is the requested one if there was a request, has changed no other row and names
-- the collection in the current command attributes; a run that ends with sense data has changed no
-- table; and either way the cache is right again.
pub osd_create_collection_lem :
    {q : Sqlite} {f : Files} (b : Behaves q) (pid requested : ℕ) (d : Device q f)
    → Placed object_lb (b.tables d.conn).obj
    → Small (b.tables d.conn)
    → Fresh (b.tables d.conn) d.ic
    → d.ic.next_id < 2 ^ 63
    → requested < 2 ^ 63
    → Post
        (λ _. Collected b pid requested (b.tables d.conn))
        (Uncollected b (b.tables d.conn))
        (osd_create_collection pid requested d)
osd_create_collection_lem b pid requested d placed small fresh next hr =
    (osd_create_collection-Collected b pid requested (b.tables d.conn) placed small hr).at d
      (record { stored = refl; known = (fresh, next) })
