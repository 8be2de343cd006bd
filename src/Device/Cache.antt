-- ===== src/Device/Cache.antt =====
-- The cache of object identifiers of osd-target/osd.c: what `pick_id` returns.
use viji_osc_osd.Base.{
  ℕ, zero, suc, ◌+◌, ◌%◌, ◌^◌, ◌≤◌, ◌<◌, ◌≡◌, refl, subst, ◌⊎◌, inl, inr, false, not, ◌==◌, arith,
  Bool-cases,
}
use viji_osc_osd.Db.{Ret, osd_ok, is_ok}
use viji_osc_osd.Store.{Sqlite, Behaves, Stmt, Tables, Small, effect, select, max_of, oids_in}
use viji_osc_osd.Store.Rows.{Below, Below-more, Placed, oids_in-Below, max_of-small, max_of-Placed}
use viji_osc_osd.Store.Obj.{obj_ispresent, obj_get_nextoid}
use viji_osc_osd.Files.{Files}
use viji_osc_osd.Exec.{Reply, Hoare, bind, ret, raised, left_if, modified, weaken}
use viji_osc_osd.Device.{
  Device, IdCache, object_lb, add64, taken, pick_id, cached_id, table_id, first_id, no_ids,
  out_hw_err,
}
use viji_osc_osd.Device.Calls.{At, row-Read}

-- A cache that holds a partition's next identifier holds one above all of them.
abbrev pub Fresh : Tables → IdCache → Type 0
Fresh t ic = (ic.cur_pid ≡ 0) ⊎ (Below ic.cur_pid ic.next_id t.obj × (object_lb < ic.next_id))

-- The cache once `id` is picked in `pid`: given up, or about to hand out the identifier above.
abbrev pub Picked : ℕ → ℕ → Tables → IdCache → Type 0
Picked pid id t ic =
    (ic.cur_pid ≡ 0) ⊎ ((ic.cur_pid ≡ pid) × (ic.next_id ≡ id + 1) × Below pid id t.obj)

-- What the handlers' guards and the tables give at the start.
pub record Ready (pid : ℕ) (t : Tables) : Type 0 where
  pub valid : object_lb ≤ pid
  pub placed : Placed object_lb t.obj
  pub small : Small t

-- The column of `SELECT MAX(oid)` and the variable that is set from it.
next_after_max :
    {pid : ℕ} {t : Tables}
    → Ready pid t
    → (v : ℕ) → v ≡ (max_of (oids_in pid t.obj) + 1) % 2 ^ 64
    → Below pid v t.obj × ((v ≡ 1) ⊎ (object_lb < v)) × (v ≤ 2 ^ 63)
next_after_max {pid} {t} r v e =
    let bound : max_of (oids_in pid t.obj) < 2 ^ 63 =
      max_of-small pid (2 ^ 63) t.obj r.small (omega arith) in
    (
      oids_in-Below pid v t.obj (omega arith),
      ground (arith, max_of-Placed pid object_lb t.obj r.placed),
      omega arith,
    )

-- What is known of the identifier that `cached_id` returns.
abbrev Got : ℕ → Tables → ℕ → IdCache → Type 0
Got pid t id ic =
    (ic.cur_pid ≡ pid)
    × (ic.next_id ≡ id + 1)
    × Below pid id t.obj
    × ((id ≡ 1) ⊎ (object_lb < id))
    × (id ≤ 2 ^ 63)

hit :
    {pid : ℕ} {t : Tables}
    → Ready pid t
    → (ic : IdCache) → Fresh t ic
    → ic.cur_pid ≡ pid
    → Below pid ic.next_id t.obj × (object_lb < ic.next_id)
hit {t} rd ic fresh same =
    let valid = rd.valid in
    elim fresh [
      | inl given_up ↦ absurd (omega arith)
      | inr (below, above) ↦ (subst (λ k. Below k ic.next_id t.obj) same below, above)
    ]

was_ok : (r : Ret) → not (is_ok r) ≡ false → r ≡ osd_ok
was_ok r h = ground arith

module _ {q : Sqlite} {f : Files} (b : Behaves q) where
  module _ {pid : ℕ} {t : Tables} (rd : Ready pid t) where
    after_table :
        {R : IdCache → Type 0} (v : ℕ) (d : Device q f)
        → At f b t R d
        → v ≡ (max_of (oids_in pid t.obj) + 1) % 2 ^ 64
        → At f b t (Got pid t v) (record d { ic = record { cur_pid = pid; next_id = add64 v 1 } })
    after_table v d p e =
        let (below, one, bound) = next_after_max rd v e in
        record { stored = p.stored; known = (refl, omega arith, below, one, bound) }

    gives_up :
        {A : Type 0} {R : IdCache → Type 0} {Q : A → Device q f → Type 0} (hw : Reply)
        → Hoare (At f b t R) (out_hw_err hw) Q (λ r d. At f b t (Fresh t) d × (r ≡ hw))
    gives_up hw =
        bind {Q = λ _. At f b t (Fresh t)}
          (modified (λ d. record d { ic = no_ids })
            (λ d p. record { stored = p.stored; known = inl refl }))
          (λ _. raised hw (λ d p. (p, refl)))

    table_id-Got :
        {R : IdCache → Type 0} (hw : Reply)
        → Hoare
            (At f b t R)
            (table_id pid hw)
            (λ id. At f b t (Got pid t id))
            (λ r d. At f b t (Fresh t) d × (r ≡ hw))
    unfolding table_id obj_get_nextoid effect select
    table_id-Got {R} hw =
        bind (row-Read f b (Stmt.obj_nextoid pid) (λ v. (v + 1) % 2 ^ 64) 0 refl) (λ (r, v).
          bind
            (left_if (not (is_ok r)) (weaken (gives_up hw) (λ d p. p.0) (λ _ d p. p) (λ _ d p. p)))
            (λ _.
              bind {Q = λ _. At f b t (Got pid t v)}
                (modified (λ d. record d { ic = record { cur_pid = pid; next_id = add64 v 1 } })
                  (λ d p. after_table v d p.0.0 (p.0.1 (was_ok r p.1) rd.small)))
                (λ _. ret v (λ d p. p))))

    cached_id-Got :
        (hw : Reply)
        → Hoare
            (At f b t (λ ic. Fresh t ic × (ic.next_id < 2 ^ 63)))
            (cached_id pid hw)
            (λ id. At f b t (Got pid t id))
            (λ r d. At f b t (Fresh t) d × (r ≡ hw))
    unfolding cached_id
    cached_id-Got hw = record {
      at = λ d p. elim (Bool-cases (d.ic.cur_pid == pid)) [
        | inl e ↦
            let same : d.ic.cur_pid ≡ pid = ground arith in
            let (below, above) = hit rd d.ic p.known.0 same in
            rw e (record {
              stored = p.stored;
              known = (same, omega (arith, p.known.1), below, inr above, omega (arith, p.known.1));
            })
        | inr e ↦ rw e ((table_id-Got hw).at d p)
      ];
    }

    first_id-Picked :
        {E : Reply → Device q f → Type 0} (id : ℕ)
        → Hoare
            (At f b t (Got pid t id))
            (first_id id)
            (λ id'. At f b t (λ ic. Picked pid id' t ic × (object_lb ≤ id') × (id' ≤ 2 ^ 63)))
            E
    unfolding first_id
    first_id-Picked id = record {
      at = λ d p.
          let (same, next, below, one, bound) = p.known in
          elim (Bool-cases (id == 1)) [
            | inl e ↦ rw e (record {
              stored = p.stored;
              known = (
                inr (same, refl, Below-more pid id object_lb t.obj (ground arith) below),
                omega arith,
                omega arith,
              );
            })
            | inr e ↦ rw e (record {
              stored = p.stored;
              known = (inr (same, next, below), ground arith, bound);
            })
          ];
    }

    -- The identifier is a valid one above the others of the partition, or the one that was asked for,
    -- and then the cache is given up. When the handler leaves, the cache is still right.
    pub pick_id-Picked :
        (requested : ℕ) (illegal hw : Reply)
        → (requested ≡ 0) ⊎ (object_lb ≤ requested)
        → requested < 2 ^ 63
        → Hoare
            (At f b t (λ ic. Fresh t ic × (ic.next_id < 2 ^ 63)))
            (pick_id pid requested illegal hw)
            (λ id. At f b t (λ ic.
              Picked pid id t ic
              × (object_lb ≤ id)
              × (id ≤ 2 ^ 63)
              × ((requested ≡ 0) ⊎ ((id ≡ requested) × (ic.cur_pid ≡ 0)))))
            (λ r d. At f b t (Fresh t) d × ((r ≡ illegal) ⊎ (r ≡ hw)))
    unfolding pick_id obj_ispresent effect
    pick_id-Picked zero illegal hw valid small =
        bind (weaken (cached_id-Got hw) (λ d p. p) (λ _ d p. p) (λ r d p. (p.0, inr p.1))) (λ id.
          weaken (first_id-Picked id) (λ d p. p)
            (λ id' d p. record {
              stored = p.stored;
              known = (p.known.0, p.known.1, p.known.2, inl refl);
            })
            (λ _ d p. p))
    pick_id-Picked (suc n) illegal hw valid small =
        bind (row-Read f b (Stmt.obj_isprsnt pid (suc n)) (λ v. v) 0 refl) (λ (r, v).
          bind
            (left_if (taken (r, v)) (
              raised illegal
                (λ d p. (record { stored = p.0.stored; known = p.0.known.0 }, inl refl))))
            (λ _.
              bind {Q = λ _. At f b t (λ ic. ic.cur_pid ≡ 0)}
                (modified (λ d. record d { ic = no_ids })
                  (λ d p. record { stored = p.0.0.stored; known = refl }))
                (λ _. ret (suc n) (λ d p. record {
                  stored = p.stored;
                  known = (inl p.known, ground arith, omega arith, inr (refl, p.known));
                }))))
