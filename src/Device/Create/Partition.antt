-- ===== src/Device/Create/Partition.antt =====
-- What `osd_create_partition` of osd-target/osd.c does.
use viji_osc_osd.Base.{
  ℕ, zero, suc, ◌+◌, ◌%◌, ◌^◌, ◌≡◌, ◌≢◌, ◌<◌, refl, ◌⊎◌, inl, inr, false, not, ◌&&◌, List, [], ◌∷◌,
  map, All, ltb, ◌==◌, if◌then◌else◌, arith, Bool-cases,
}
use viji_osc_osd.Db.{Ret, osd_ok, is_ok}
use viji_osc_osd.Store.{
  ObjRow, Sqlite, Behaves, Stmt, Tables, Small, max_of, effect, select, conflict, partition,
  partition_oid,
}
use viji_osc_osd.Store.Rows.{Absent}
use viji_osc_osd.Store.Obj.{obj_get_nextpid, obj_insert}
use viji_osc_osd.Files.{Files}
use viji_osc_osd.Exec.{Reply, Hoare, Post, bind, ret, raised, left_if, weaken}
use viji_osc_osd.Device.{Device, IdCache, object_lb, cdb_err, hw_err}
use viji_osc_osd.Device.Create.{osd_create_partition, pick_pid}
use viji_osc_osd.Device.Calls.{At, dms-Ran, if_Ran, row-Read, having, filled}

-- Every partition and object is below the identifier of the partition.
abbrev Above : ℕ → List ObjRow → Type 0
Above pid = All (λ r. r.pid < pid)

max_of-Above :
    (pid : ℕ) (rows : List ObjRow) → max_of (map (λ r. r.pid) rows) < pid → Above pid rows
unfolding max_of
max_of-Above pid [] h = tt
max_of-Above pid (r ∷ rows) h = (omega arith, max_of-Above pid rows (omega arith))

max_of-Small :
    (n : ℕ) (rows : List ObjRow)
    → All (λ r. (r.pid < n) × (r.oid < n)) rows
    → 0 < n
    → max_of (map (λ r. r.pid) rows) < n
unfolding max_of
max_of-Small n [] h pos = pos
max_of-Small n (r ∷ rows) h pos = omega (arith, max_of-Small n rows h.1 pos, h.0.0)

-- The requested identifier, or a new one above all others.
abbrev Fits : ℕ → Tables → ℕ → Type 0
Fits requested t pid = ((requested ≡ 0) × Above pid t.obj) ⊎ ((requested ≢ 0) × (pid ≡ requested))

next-Fits :
    (t : Tables) (r : Ret) (v : ℕ)
    → Small t
    → (r ≡ osd_ok → v ≡ (max_of (map (λ x. x.pid) t.obj) + 1) % 2 ^ 64)
    → not (is_ok r) ≡ false
    → Fits 0 t (if v == 1 then object_lb else v)
next-Fits t r v small fact g =
    let ok : r ≡ osd_ok = ground arith in
    let e = fact ok in
    let bound : max_of (map (λ x. x.pid) t.obj) < 2 ^ 63 =
      max_of-Small (2 ^ 63) t.obj small (omega arith) in
    elim (Bool-cases (v == 1)) [
      | inl one ↦ rw one (inl (refl, max_of-Above object_lb t.obj (ground arith)))
      | inr more ↦ rw more (inl (refl, max_of-Above v t.obj (omega arith)))
    ]

module _ {q : Sqlite} {f : Files} (b : Behaves q) where
  -- What a run that ends well has done.
  pub record Parted (requested : ℕ) (t : Tables) (d : Device q f) : Type 0 where
    pub pid : ℕ
    pub fits : Fits requested t pid
    pub free : Absent pid partition_oid t.obj
    pub stored :
        b.tables d.conn
        ≡ record t { obj = record { pid = pid; oid = partition_oid; type = partition } ∷ t.obj }
    pub named :
        d.ccap ≡ record { obj_type = partition; pid = pid; oid = partition_oid; append_off = 0 }

  -- How it leaves: the tables and the cache are as they were.
  abbrev pub Unparted : Tables → IdCache → Reply → Device q f → Type 0
  Unparted t ic r d = At f b t (λ ic'. ic' ≡ ic) d

  pick_pid-Fits :
      (requested : ℕ) (t : Tables) (ic : IdCache)
      → Small t
      → Hoare
          (At f b t (λ ic'. ic' ≡ ic))
          (pick_pid requested)
          (λ pid d. At f b t (λ ic'. ic' ≡ ic) d × Fits requested t pid)
          (Unparted t ic)
  unfolding pick_pid obj_get_nextpid effect select
  pick_pid-Fits zero t ic small =
      bind (row-Read f b Stmt.obj_nextpid (λ v. (v + 1) % 2 ^ 64) 0 refl) (λ (r, v).
        bind (left_if (not (is_ok r)) (raised (hw_err 0 0) (λ d p. p.0))) (λ _.
          ret (if v == 1 then object_lb else v)
            (λ d p. (p.0.0, next-Fits t r v small (λ ok. p.0.1 ok small) p.1))))
  pick_pid-Fits (suc n) t ic small = ret (suc n) (λ d p. (p, inr (omega arith, refl)))

  osd_create_partition-Parted :
      (requested : ℕ) (t : Tables) (ic : IdCache)
      → Small t
      → Hoare
          (At f b t (λ ic'. ic' ≡ ic))
          (osd_create_partition requested)
          (λ _. Parted requested t)
          (Unparted t ic)
  unfolding osd_create_partition obj_insert effect conflict
  osd_create_partition-Parted requested t ic small =
      let err = cdb_err requested 0 in
      bind (left_if (not (requested == 0) && ltb requested object_lb) (raised err (λ d p. p))) (λ _.
        having f b (λ g. bind (pick_pid-Fits requested t ic small) (λ pid. having f b (λ fits.
          bind (dms-Ran f b (Stmt.obj_insert pid partition_oid partition)) (λ r.
            bind (if_Ran f b _ r (λ _ Q. raised err (λ d p. p))) (λ _. having f b (λ free.
              weaken (filled f b partition pid partition_oid 0) (λ d p. p)
                (λ _ d p. record {
                  pid = pid;
                  fits = fits;
                  free = free;
                  stored = p.0.stored;
                  named = p.1;
                })
                (λ _ d p. p))))))))

-- `osd_create_partition` on any database that answers as SQL says, with identifiers below 2 ^ 63: a run
-- that ends well has inserted the row of a partition that was not there, with the requested identifier
-- or one above all others, has changed no other row and names the partition in the current command
-- attributes; a run that ends with sense data has changed neither the tables nor the cache.
pub osd_create_partition_lem :
    {q : Sqlite} {f : Files} (b : Behaves q) (requested : ℕ) (d : Device q f)
    → Small (b.tables d.conn)
    → Post
        (λ _. Parted b requested (b.tables d.conn))
        (Unparted b (b.tables d.conn) d.ic)
        (osd_create_partition requested d)
osd_create_partition_lem b requested d small =
    (osd_create_partition-Parted b requested (b.tables d.conn) d.ic small).at d
      (record { stored = refl; known = refl })
