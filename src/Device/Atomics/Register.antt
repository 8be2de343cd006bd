-- ===== src/Device/Atomics/Register.antt =====
-- The attributes of the atomic operations as registers of 64 bits.
use viji_osc_osd.Base.{
  ℕ, ◌^◌, ◌<◌, ◌≡◌, refl, ◌∙◌, arith, Bool, ◌⊎◌, inr, List, [], ◌∷◌, length, filter,
}
use viji_osc_osd.Store.{Stmt, Tables, AttrRow, attr_is, without, effect}
use viji_osc_osd.Store.Rows.{attr_add-here, attr_add-besides}
use viji_osc_osd.Device.Attributes.{user_atomics_pg}
use viji_osc_osd.Device.Atomics.{store64, load64}

pub load-store : (v : ℕ) → v < 2 ^ 64 → load64 (store64 v) ≡ v
unfolding load64 store64
load-store v h = omega arith

-- The row that an attribute is.
abbrev pub attr_row : ℕ → ℕ → ℕ → List ℕ → AttrRow
attr_row pid oid number value = record {
  pid = pid;
  oid = oid;
  page = user_atomics_pg;
  number = number;
  value = value;
}

module _ (pid oid number : ℕ) where
  abbrev pub here : AttrRow → Bool
  here = attr_is pid oid user_atomics_pg number

  -- The register has the value v: its attribute is not defined, and v is 0, or has 8 bytes that are v.
  unfoldable pub Holds : ℕ → Tables → Type 0
  Holds v t =
      ((filter here t.attr ≡ []) × (v ≡ 0))
      ⊎ ((bytes : List ℕ) × (length bytes ≡ 8)
          × (filter here t.attr ≡ attr_row pid oid number bytes ∷ [])
          × (load64 bytes ≡ v))

  -- All but the register is as it was in t0.
  unfoldable pub Besides : Tables → Tables → Type 0
  Besides t0 t =
      (t.obj ≡ t0.obj) × (t.coll ≡ t0.coll) × (without here t.attr ≡ without here t0.attr)

  pub written :
      (v : ℕ) (t0 t : Tables)
      → v < 2 ^ 64
      → Besides t0 t
      → let t' = effect (Stmt.attr_setattr pid oid user_atomics_pg number (store64 v)) t in
        Holds v t' × Besides t0 t'
  unfolding Holds Besides effect store64
  written v t0 t h (o, c, a) = (
    inr (
      store64 v,
      refl,
      attr_add-here (attr_row pid oid number (store64 v)) t.attr,
      load-store v h,
    ),
    (o, c, attr_add-besides (attr_row pid oid number (store64 v)) t.attr ∙ a),
  )
