-- ===== src/Device/Create/Objects/Whole.antt =====
-- `osd_create` from its guards to the current command attributes.
use viji_osc_osd.Base.{
  ℕ, zero, suc, ◌+◌, ◌-◌, ◌^◌, ◌≤◌, ◌<◌, ◌≡◌, refl, sym, subst, ap, ◌∙◌, ◌⊎◌, inl, inr, not, ◌&&◌,
  ◌||◌, ltb, ◌==◌, if◌then◌else◌, arith,
}
use viji_osc_osd.Store.{Sqlite, Behaves, Stmt, Tables, Small, effect, userobject, partition_oid}
use viji_osc_osd.Store.Rows.{Below, Placed}
use viji_osc_osd.Store.Created.{created, Free, Free-more, created-Below}
use viji_osc_osd.Store.Obj.{obj_ispresent}
use viji_osc_osd.Files.{Files}
use viji_osc_osd.Exec.{
  Reply, Hoare, Post, ◌>>◌, modify, raise, bind, ret, raised, left_if, modified, weaken, knowing,
}
use viji_osc_osd.Device.{Device, IdCache, object_lb, add64, missing, cdb_err, hw_err, fill_ccap}
use viji_osc_osd.Device.Remove.Rows.{Removable}
use viji_osc_osd.Device.Create.{create_rounds, osd_create}
use viji_osc_osd.Device.Create.Objects.{Objs, Rounds, TakenBack, create_one-Rounds}
use viji_osc_osd.Device.Calls.{At, row-Read, having, filled}
use viji_osc_osd.Device.Cache.{Fresh, Picked, pick_id-Picked}

-- How many objects are created.
abbrev pub created_count : ℕ → ℕ
created_count numoid = if numoid == 0 then 1 else numoid

-- The identifier once it is picked.
abbrev Chosen : ℕ → ℕ → Tables → ℕ → IdCache → Type 0
Chosen pid requested t oid ic =
    Picked pid oid t ic
    × (object_lb ≤ oid)
    × (oid ≤ 2 ^ 63)
    × ((requested ≡ 0) ⊎ ((oid ≡ requested) × (ic.cur_pid ≡ 0)))

-- The cache once it counts the n objects from `oid` on.
abbrev Counted : ℕ → ℕ → ℕ → ℕ → Tables → IdCache → Type 0
Counted pid requested oid n t ic =
    Fresh (record t { obj = created pid oid n t.obj }) ic × ((requested ≡ 0) ⊎ (oid ≡ requested))

rounds_left : (oid n : ℕ) → oid ≤ 2 ^ 63 → n < 2 ^ 63 → 0 + (add64 oid n - oid) ≡ n
rounds_left oid n h small = omega arith

next_Fresh :
    (pid oid n : ℕ) (t : Tables) (ic : IdCache)
    → Picked pid oid t ic
    → object_lb ≤ oid
    → oid ≤ 2 ^ 63
    → 1 ≤ n
    → n < 2 ^ 16
    → Fresh
        (record t { obj = created pid oid n t.obj })
        (record ic { next_id = add64 ic.next_id (n - 1) })
next_Fresh pid oid n t ic (inl none') ho hs pos hn = inl none'
next_Fresh pid oid n t ic (inr (same, next, below)) ho hs pos hn =
    let now : oid + n ≡ add64 ic.next_id (n - 1) = omega arith in
    inr (
      subst (λ (k : ℕ). Below k (add64 ic.next_id (n - 1)) (created pid oid n t.obj)) (sym same)
          (subst (λ (k : ℕ). Below pid k (created pid oid n t.obj)) now
            (created-Below pid oid n t.obj below)),
      omega arith,
    )

module _ {q : Sqlite} {f : Files} (b : Behaves q) where
  module _ (rm : Removable q) (pid oid : ℕ) (hp : object_lb ≤ pid) (ho : object_lb ≤ oid)
      (hw : Reply) (t : Tables) {R : IdCache → Type 0} where
    create_rounds-Rounds :
        (n k m : ℕ)
        → k + n ≡ m
        → Free pid oid k t.obj
        → Hoare
            (Rounds {f = f} b pid oid t.obj t R k)
            (create_rounds pid oid k n hw)
            (λ _ d. Rounds {f = f} b pid oid t.obj t R m d × Free pid oid m t.obj)
            (TakenBack {f = f} b hw t.obj)
    unfolding create_rounds
    create_rounds-Rounds zero k m e free =
        let same : k ≡ m = omega arith in
        ret tt (λ d p.
          subst (λ (j : ℕ). Rounds {f = f} b pid oid t.obj t R j d × Free pid oid j t.obj) same
            (p, free))
    create_rounds-Rounds (suc n) k m e free =
        bind (create_one-Rounds b rm pid oid hp ho hw t.obj t k free) (λ _. having f b (λ new.
          create_rounds-Rounds n (suc k) m (omega arith) (Free-more pid oid k t.obj free new)))

  -- What a run of `osd_create` that ends well has done: n objects with consecutive identifiers that
  -- were free are rows of the object table, nothing else has changed in the tables, the cache is
  -- right, and the current command attributes name the last of the objects.
  pub record Made (pid requested n : ℕ) (t : Tables) (d : Device q f) : Type 0 where
    pub first : ℕ
    pub valid : object_lb ≤ first
    pub asked : (requested ≡ 0) ⊎ (first ≡ requested)
    pub free : Free pid first n t.obj
    pub stored : b.tables d.conn ≡ record t { obj = created pid first n t.obj }
    pub fresh : Fresh (b.tables d.conn) d.ic
    pub highest :
        d.ccap ≡ record { obj_type = userobject; pid = pid; oid = first + (n - 1); append_off = 0 }

  -- How it leaves: with one of its two replies, the object table as it was, and a cache that is right.
  pub record Refused (pid requested : ℕ) (t : Tables) (r : Reply) (d : Device q f) : Type 0 where
    pub sense : (r ≡ cdb_err pid requested) ⊎ (r ≡ hw_err pid requested)
    pub objects : Objs b t.obj d
    pub fresh : Fresh (b.tables d.conn) d.ic

  -- What the handler starts from.
  abbrev pub Start : Tables → Device q f → Type 0
  Start t = At f b t (λ ic. Fresh t ic × (ic.next_id < 2 ^ 63))

  refused :
      {pid requested : ℕ} {t : Tables} {r : Reply} {d : Device q f}
      → (r ≡ cdb_err pid requested) ⊎ (r ≡ hw_err pid requested)
      → At f b t (Fresh t) d
      → Refused pid requested t r d
  refused {d} s p = record {
    sense = s;
    objects = ap (λ (x : Tables). x.obj) p.stored;
    fresh = subst (λ t'. Fresh t' d.ic) (sym p.stored) p.known;
  }

  illegal-Refused :
      {A : Type 0} {Q : A → Device q f → Type 0} {P : Device q f → Type 0} (pid requested : ℕ)
      (t : Tables)
      → ((d : Device q f) → P d → Start t d)
      → Hoare P (raise (cdb_err pid requested)) Q (Refused pid requested t)
  illegal-Refused pid requested t start = raised (cdb_err pid requested) (λ d p.
      let s = start d p in refused (inl refl) (record { stored = s.stored; known = s.known.0 }))

  ends :
      (pid requested n oid : ℕ) (t : Tables)
      → 1 ≤ n
      → n < 2 ^ 16
      → object_lb ≤ oid
      → oid ≤ 2 ^ 63
      → Hoare
          (λ d.
            Rounds {f = f} b pid oid t.obj t (Chosen pid requested t oid) n d
            × Free pid oid n t.obj)
          (modify (λ d. record d { ic = record d.ic { next_id = add64 d.ic.next_id (n - 1) } })
            >> fill_ccap userobject pid (add64 oid (n - 1)) 0)
          (λ _. Made pid requested n t)
          (Refused pid requested t)
  ends pid requested n oid t pos hn ho hs = having f b (λ free.
      bind {Q = λ _. Rounds {f = f} b pid oid t.obj t (Counted pid requested oid n t) n}
        (modified (λ d. record d { ic = record d.ic { next_id = add64 d.ic.next_id (n - 1) } })
          (λ d p. record {
            stored = p.stored;
            known = (next_Fresh pid oid n t d.ic p.known.0 ho hs pos hn, ground (arith, p.known.3));
          }))
        (λ _.
          weaken (filled f b userobject pid (add64 oid (n - 1)) 0) (λ d p. p)
            (λ _ d p.
              let last : add64 oid (n - 1) ≡ oid + (n - 1) = omega arith in
              record {
                first = oid;
                valid = ho;
                asked = p.0.known.1;
                free = free;
                stored = p.0.stored;
                fresh = subst (λ t'. Fresh t' d.ic) (sym p.0.stored) p.0.known.0;
                highest =
                    p.1
                    ∙ ap
                        (λ (k : ℕ). record {
                          obj_type = userobject;
                          pid = pid;
                          oid = k;
                          append_off = 0;
                        })
                        last;
              })
            (λ _ d p. p)))

  -- The rounds and the end, once an identifier is chosen.
  makes :
      (rm : Removable q) (pid requested n oid : ℕ) (t : Tables)
      → object_lb ≤ pid
      → 1 ≤ n
      → n < 2 ^ 16
      → Hoare
          (At f b t (Chosen pid requested t oid))
          (create_rounds pid oid 0 (add64 oid n - oid) (hw_err pid requested)
            >> (modify (λ d. record d { ic = record d.ic { next_id = add64 d.ic.next_id (n - 1) } })
                >> fill_ccap userobject pid (add64 oid (n - 1)) 0))
          (λ _. Made pid requested n t)
          (Refused pid requested t)
  makes rm pid requested n oid t hp pos hn =
      knowing (λ d p. (p.known.1, p.known.2))
        (λ (ho, hs).
          bind
            (weaken
              (create_rounds-Rounds rm pid oid hp ho (hw_err pid requested) t (add64 oid n - oid) 0
                n (rounds_left oid n hs (omega arith)) (λ i less. absurd (omega arith)))
              (λ d p. p) (λ _ d p. p)
              (λ r d p. record { sense = inr p.0; objects = p.1; fresh = inl p.2 }))
            (λ _. ends pid requested n oid t pos hn ho hs))

  osd_create-Made :
      (rm : Removable q) (pid requested numoid : ℕ) (t : Tables)
      → Placed object_lb t.obj
      → Small t
      → requested < 2 ^ 63
      → numoid < 2 ^ 16
      → Hoare
          (Start t)
          (osd_create pid requested numoid)
          (λ _. Made pid requested (created_count numoid) t)
          (Refused pid requested t)
  unfolding osd_create obj_ispresent effect
  osd_create-Made rm pid requested numoid t placed small hr hn =
      bind (left_if (pid == 0 || ltb pid object_lb) (illegal-Refused pid requested t (λ d p. p)))
        (λ _. having f b (λ g1.
          bind
            (left_if (not (requested == 0) && ltb requested object_lb)
              (illegal-Refused pid requested t (λ d p. p)))
            (λ _. having f b (λ g2.
              bind (row-Read f b (Stmt.obj_isprsnt pid partition_oid) (λ v. v) 0 refl) (λ (r, v).
                bind (left_if (missing (r, v)) (illegal-Refused pid requested t (λ d p. p.0))) (λ _.
                  having f b (λ g3.
                    bind
                      (left_if (ltb 1 numoid && not (requested == 0))
                        (illegal-Refused pid requested t (λ d p. p.0)))
                      (λ _. having f b (λ g4. having f b (λ fact.
                        bind
                          (weaken
                            (pick_id-Picked b
                              (record { valid = ground arith; placed = placed; small = small })
                              requested (cdb_err pid requested) (hw_err pid requested)
                              (ground arith) hr)
                            (λ d p. p) (λ _ d p. p) (λ e d p. refused p.1 p.0))
                          (λ oid.
                            makes rm pid requested (created_count numoid) oid t (ground arith)
                              (ground arith) (ground arith))))))))))))

-- `osd_create` on any database that answers as SQL says and on which removals do not fail, and on any
-- file system: when the identifiers in the object table are valid and below 2 ^ 63, the cache holds an
-- identifier above those of its partition, and the arguments fit their types, then a run that ends well
-- has inserted `numoid` rows, or one for 0, with consecutive identifiers that were free, the requested
-- one if there was a request, has changed no other row of any table and names the last one in the
-- current command attributes; a run that ends with sense data returns one of two replies and leaves the
-- rows of the object table as they were; and either way the cache is right again.
pub osd_create_lem :
    {q : Sqlite} {f : Files} (b : Behaves q) (rm : Removable q) (pid requested numoid : ℕ)
    (d : Device q f)
    → Placed object_lb (b.tables d.conn).obj
    → Small (b.tables d.conn)
    → Fresh (b.tables d.conn) d.ic
    → d.ic.next_id < 2 ^ 63
    → requested < 2 ^ 63
    → numoid < 2 ^ 16
    → Post
        (λ _. Made b pid requested (created_count numoid) (b.tables d.conn))
        (Refused b pid requested (b.tables d.conn))
        (osd_create pid requested numoid d)
osd_create_lem b rm pid requested numoid d placed small fresh next hr hn =
    (osd_create-Made b rm pid requested numoid (b.tables d.conn) placed small hr hn).at d
      (record { stored = refl; known = (fresh, next) })
