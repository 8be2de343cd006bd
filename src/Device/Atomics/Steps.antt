-- ===== src/Device/Atomics/Steps.antt =====
-- The steps of the atomic operations of osd-target/osd.c on a register.
use viji_osc_osd.Base.{
  ℕ, ◌^◌, ◌<◌, ◌≡◌, refl, sym, ap, ◌∙◌, subst, arith, Bool, true, false, not, ◌⊎◌, inl, inr, List,
  length, ◌==◌, if◌then◌else◌,
}
use viji_osc_osd.Db.{osd_ok, osd_error, enoent}
use viji_osc_osd.Db.Runs.{dms_cases}
use viji_osc_osd.Store.{Sqlite, Behaves, Stmt, Tables, effect, userobject, Query}
use viji_osc_osd.Store.Fetch.{Fetches, Answering}
use viji_osc_osd.Store.Obj.{obj_ispresent}
use viji_osc_osd.Store.Coll.{set_attr}
use viji_osc_osd.Files.{Files}
use viji_osc_osd.Exec.{
  Reply, Hoare, Post, ◌>>◌, pure, raise, bind, ret, raised, left_if, leave_if, weaken,
}
use viji_osc_osd.Attr.{code, Retrieval, gather_val, begin}
use viji_osc_osd.Attr.Table.{attr_get_val}
use viji_osc_osd.Attr.Single.{no_row, one_row, gather_val-whole}
use viji_osc_osd.Device.{Device, missing, cdb_err, hw_err}
use viji_osc_osd.Device.Attributes.{user_atomics_pg}
use viji_osc_osd.Device.Attributes.Info.{set_row, attr_set_attr-set_row}
use viji_osc_osd.Device.Attributes.Getting.{require_attr}
use viji_osc_osd.Device.Attributes.Kept.{reads, type_of, same_tables}
use viji_osc_osd.Device.Atomics.{
  store64, load64, set_atomic, atomic_value, defined_or_zero, require_userobject, set_if,
}
use viji_osc_osd.Device.Atomics.Register.{Holds, Besides, attr_row, written}

module _ {q : Sqlite} (f : Files) (b : Behaves q) (fe : Fetches q b) (pid oid number : ℕ)
    (t0 : Tables) where
  -- The register has the value v, and all else is as in t0.
  unfoldable pub Keeps : ℕ → Device q f → Type 0
  Keeps v d = Holds pid oid number v (b.tables d.conn) × Besides pid oid number t0 (b.tables d.conn)

  -- How an operation may fail: the register is as it was.
  unfoldable pub Fails : ℕ → Reply → Device q f → Type 0
  Fails v r d = ((r ≡ cdb_err pid oid) ⊎ (r ≡ hw_err pid oid)) × Keeps v d

  abbrev Told : ℕ → Tables → Type 0
  Told v t = Holds pid oid number v t × Besides pid oid number t0 t

  refuses :
      {Q : Unit {0} → Device q f → Type 0} (v : ℕ)
      → Hoare (Keeps v) (raise (cdb_err pid oid)) Q (Fails v)
  unfolding Fails
  refuses v = raised (cdb_err pid oid) (λ d p. (inl refl, p))

  kept_if :
      (v : ℕ) (test : Bool)
      → Hoare (Keeps v) (leave_if test (raise (cdb_err pid oid))) (λ _. Keeps v) (Fails v)
  kept_if v test = weaken (left_if test (refuses v)) (λ d p. p) (λ _ d (p, _). p) (λ r d e. e)

  pub present : (v : ℕ) → Hoare (Keeps v) (require_userobject pid oid) (λ _. Keeps v) (Fails v)
  unfolding require_userobject obj_ispresent effect Keeps
  present v = bind (reads f b (Told v) (Stmt.obj_isprsnt pid oid) (λ x. x) 0 (λ t. refl)) (λ found.
      bind (kept_if v (missing found))
        (λ _. bind (type_of f b (Told v) pid oid) (λ type. kept_if v (not (type == userobject)))))

  row_set :
      (v u : ℕ)
      → u < 2 ^ 64
      → Hoare
          (Keeps v)
          (set_row pid oid user_atomics_pg number (store64 u) 8)
          (λ r d. ((r ≡ code osd_ok) × Keeps u d) ⊎ ((r ≡ code osd_error) × Keeps v d))
          (Fails v)
  unfolding set_row set_attr store64 Keeps
  row_set v u h = record {
    at = λ d p.
        let s = Stmt.attr_setattr pid oid user_atomics_pg number (store64 u) in
        elim (dms_cases (q.run s d.conn).0) [
          | inl ok ↦
              let now = (b.success s d.conn ok).1 in
              inl (
                ap code ok,
                subst (Told u) (sym now) (written pid oid number u t0 (b.tables d.conn) h p.1),
              )
          | inr bad ↦ inr (
            ap code bad,
            same_tables f b (Told v) d (q.run s d.conn).1 (b.failure s d.conn bad) p,
          )
        ];
  }

  pub sets :
      (v u : ℕ)
      → u < 2 ^ 64
      → Hoare (Keeps v) (set_atomic pid oid number u) (λ _. Keeps u) (Fails v)
  unfolding set_atomic require_attr Fails
  sets v u h =
      let as_row =
        attr_set_attr-set_row {q = q} {f = f} pid oid user_atomics_pg number (store64 u) 8
          (λ e. absurd (omega arith)) (λ e. absurd (omega arith)) in
      rw as_row (
        bind (row_set v u h) (λ r. record {
          at = λ d p. elim p [ inl (e, k) ↦ rw e k | inr (e, k) ↦ rw e (inr refl, k) ];
        }))

  -- What the reading of the attribute returns.
  Outcome : ℕ → Retrieval → Type 0
  Outcome v r =
      (r.ret ≡ code osd_error)
      ⊎ ((r.ret ≡ code enoent) × (v ≡ 0))
      ⊎ ((r.ret ≡ code osd_ok) × (load64 r.outdata ≡ v))

  reading :
      (v : ℕ) (stack : List ℕ) (d : Device q f)
      → length stack ≡ 8
      → Holds pid oid number v (b.tables d.conn)
      → Outcome v (attr_get_val q true 0 pid oid user_atomics_pg number 8 stack 0 d.conn).0
  unfolding attr_get_val Holds Outcome
  reading v stack d h (inl (nil, z)) =
      let a = (q.fetch (Query.getval pid oid user_atomics_pg number) d.conn).0 in
      let shape =
        subst (λ rows. Answering rows rows a) nil
          (fe.one (Query.getval pid oid user_atomics_pg number) pid oid user_atomics_pg number
            d.conn (inl refl)) in
      elim (no_row true 0 gather_val oid 0 8 0 (begin stack 8) a refl shape) [
        | inl e ↦ inl e
        | inr e ↦ inr (inl (e, z))
      ]
  reading v stack d h (inr (bytes, len, one, val)) =
      let a = (q.fetch (Query.getval pid oid user_atomics_pg number) d.conn).0 in
      let shape =
        subst (λ rows. Answering rows rows a) one
          (fe.one (Query.getval pid oid user_atomics_pg number) pid oid user_atomics_pg number
            d.conn (inl refl)) in
      elim (one_row true 0 gather_val oid 0 8 (attr_row pid oid number bytes) 7 bytes
        (λ mem. length mem ≡ 8)
        (λ mem k.
          gather_val-whole true 0 oid 0 8 mem (attr_row pid oid number bytes) (omega arith) len k)
        len 0 stack a h shape) [
          | inl e ↦ inl e
          | inr (e, out, _) ↦ inr (inr (e, ap load64 out ∙ val))
        ]

  decided :
      (v : ℕ) (r : Retrieval) (d : Device q f)
      → Keeps v d
      → Outcome v r
      → Post (λ x d. Keeps v d × (x ≡ v)) (Fails v) (defined_or_zero pid oid number r d)
  unfolding defined_or_zero Outcome Fails
  decided v r d k (inl e) = rw e (inr refl, k)
  decided v r d k (inr (inl (e, z))) =
      let zeroed : Hoare (Keeps v) (set_atomic pid oid number 0 >> pure 0)
          (λ x d. Keeps v d × (x ≡ v)) (Fails v) =
        bind (sets v 0 (omega arith))
          (λ _. ret 0 (λ d k. (subst (λ n. Keeps n d) (sym z) k, sym z))) in
      rw e (zeroed.at d k)
  decided v r d k (inr (inr (e, val))) = rw e (k, val)

  pub finds :
      (v : ℕ) (stack : List ℕ)
      → length stack ≡ 8
      → Hoare (Keeps v) (atomic_value stack pid oid number) (λ x d. Keeps v d × (x ≡ v)) (Fails v)
  unfolding atomic_value attr_get_val Keeps
  finds v stack h = record {
    at = λ d p.
        let g = Query.getval pid oid user_atomics_pg number in
        let k = same_tables f b (Told v) d (q.fetch g d.conn).1 (fe.keeps g d.conn) p in
        decided v (attr_get_val q true 0 pid oid user_atomics_pg number 8 stack 0 d.conn).0
          (record d { conn = (q.fetch g d.conn).1 }) k (reading v stack d h p.0);
  }

  pub swaps :
      (v u : ℕ) (test : Bool)
      → u < 2 ^ 64
      → Hoare
          (Keeps v)
          (set_if test pid oid number u)
          (λ _. Keeps (if test then u else v))
          (Fails v)
  unfolding set_if
  swaps v u true h = sets v u h
  swaps v u false h = ret tt (λ d k. k)
