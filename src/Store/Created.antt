-- ===== src/Store/Created.antt =====
-- Rows of consecutive identifiers put into the object table, and taken out again.
use viji_osc_osd.Base.{
  ℕ, zero, suc, ◌+◌, ◌≤◌, ◌<◌, ◌≡◌, refl, subst, Bool-cases, ◌∙◌, ap, inl, inr, List, ◌∷◌, ◌==◌,
  arith,
}
use viji_osc_osd.Store.{ObjRow, obj_at, without, userobject}
use viji_osc_osd.Store.Rows.{Absent, Below, Below-more, Placed, without-none}

abbrev pub object_row : ℕ → ℕ → ObjRow
object_row pid oid = record { pid = pid; oid = oid; type = userobject }

-- The rows after n objects from `oid` on were inserted, in this order.
abbrev pub created : ℕ → ℕ → ℕ → List ObjRow → List ObjRow
created pid oid zero rows = rows
created pid oid (suc n) rows = created pid (oid + 1) n (object_row pid oid ∷ rows)

-- The rows after n objects from `oid` on were deleted, in this order.
abbrev pub purged : ℕ → ℕ → ℕ → List ObjRow → List ObjRow
purged pid oid zero rows = rows
purged pid oid (suc n) rows = purged pid (oid + 1) n (without (obj_at pid oid) rows)

-- None of n identifiers from `oid` on is in use.
abbrev pub Free : ℕ → ℕ → ℕ → List ObjRow → Type 0
Free pid oid n rows = (i : ℕ) → i < n → Absent pid (oid + i) rows

pub created-last :
    (pid oid n : ℕ) (rows : List ObjRow)
    → object_row pid (oid + n) ∷ created pid oid n rows ≡ created pid oid (suc n) rows
created-last pid oid zero rows =
    let same : oid + 0 ≡ oid = omega arith in ap (λ (k : ℕ). object_row pid k ∷ rows) same
created-last pid oid (suc n) rows =
    let rows' = object_row pid oid ∷ rows in
    let shift : oid + suc n ≡ oid + 1 + n = omega arith in
    ap (λ (k : ℕ). object_row pid k ∷ created pid (oid + 1) n rows') shift
    ∙ created-last pid (oid + 1) n rows'

Free-first : (pid oid n : ℕ) (rows : List ObjRow) → Free pid oid (suc n) rows → Absent pid oid rows
Free-first pid oid n rows h =
    let same : oid + 0 ≡ oid = omega arith in
    subst (λ (k : ℕ). Absent pid k rows) same (h 0 (omega arith))

Free-rest :
    (pid oid n : ℕ) (rows : List ObjRow) → Free pid oid (suc n) rows → Free pid (oid + 1) n rows
Free-rest pid oid n rows h i less =
    let shift : oid + suc i ≡ oid + 1 + i = omega arith in
    subst (λ (k : ℕ). Absent pid k rows) shift (h (suc i) (omega arith))

-- One more identifier that is free.
pub Free-more :
    (pid oid n : ℕ) (rows : List ObjRow)
    → Free pid oid n rows
    → Absent pid (oid + n) rows
    → Free pid oid (suc n) rows
Free-more pid oid n rows h last i less = elim (Bool-cases (i == n)) [
  | inl e ↦
      let same : n ≡ i = ground arith in subst (λ (k : ℕ). Absent pid (oid + k) rows) same last
  | inr e ↦ h i (ground arith)
]

pub created-Absent :
    (pid oid n j : ℕ) (rows : List ObjRow)
    → Absent pid j (created pid oid n rows)
    → Absent pid j rows
created-Absent pid oid zero j rows h = h
created-Absent pid oid (suc n) j rows h =
    let h' = created-Absent pid (oid + 1) n j (object_row pid oid ∷ rows) h in ground arith

without-created :
    (pid oid n j : ℕ) (rows : List ObjRow)
    → j < oid
    → without (obj_at pid j) (created pid oid n rows)
      ≡ created pid oid n (without (obj_at pid j) rows)
without-created pid oid zero j rows h = refl
without-created pid oid (suc n) j rows h =
    without-created pid (oid + 1) n j (object_row pid oid ∷ rows) (omega arith)
    ∙ ap (created pid (oid + 1) n) (ground arith)

pub without_self :
    (pid oid : ℕ) (rows : List ObjRow)
    → without (obj_at pid oid) (object_row pid oid ∷ rows) ≡ without (obj_at pid oid) rows
without_self pid oid rows = ground arith

pub purged-created :
    (pid oid n : ℕ) (rows : List ObjRow)
    → Free pid oid n rows
    → purged pid oid n (created pid oid n rows) ≡ rows
purged-created pid oid zero rows h = refl
purged-created pid oid (suc n) rows h =
    ap (purged pid (oid + 1) n) (
      without-created pid (oid + 1) n oid (object_row pid oid ∷ rows) (omega arith)
      ∙ ap (created pid (oid + 1) n) (
          without_self pid oid rows
          ∙ without-none (obj_at pid oid) rows (Free-first pid oid n rows h)))
    ∙ purged-created pid (oid + 1) n rows (Free-rest pid oid n rows h)

pub created-Below :
    (pid oid n : ℕ) (rows : List ObjRow)
    → Below pid oid rows
    → Below pid (oid + n) (created pid oid n rows)
created-Below pid oid zero rows h = Below-more pid oid (oid + 0) rows (omega arith) h
created-Below pid oid (suc n) rows h =
    Below-more pid (oid + 1 + n) (oid + suc n) (created pid (oid + 1) n (object_row pid oid ∷ rows))
      (omega arith)
      (created-Below pid (oid + 1) n (object_row pid oid ∷ rows)
        (inr (omega arith), Below-more pid oid (oid + 1) rows (omega arith) h))

created-Placed :
    (pid oid lb n : ℕ) (rows : List ObjRow)
    → lb ≤ oid
    → Placed lb rows
    → Placed lb (created pid oid n rows)
created-Placed pid oid lb zero rows le h = h
created-Placed pid oid lb (suc n) rows le h =
    created-Placed pid (oid + 1) lb n (object_row pid oid ∷ rows) (omega arith) (inr le, h)
