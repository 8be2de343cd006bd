-- ===== src/Db/Runs.antt =====
-- What the statement runners of osd-target/db.c return.
use viji_osc_osd.Base.{◌≡◌, refl, ◌⊎◌, inl, inr, true, false, Option, none, some}
use viji_osc_osd.Db.{
  Answers, unbound, done, failed, busy, row, schema, osd_ok, osd_error, db_exec_dms, first_row,
  db_reset_stmt, repeat_if,
}

abbrev pub assigned {ℓ κ} : {A : Type ℓ} {B : Type κ} → (A → B) → B → Option A → B
assigned f d none = d
assigned f d (some v) = f v

pub dms_cases {ℓ} :
    {A : Type ℓ} (a : Answers A) → (db_exec_dms a ≡ osd_ok) ⊎ (db_exec_dms a ≡ osd_error)
unfolding db_exec_dms db_reset_stmt repeat_if
dms_cases unbound = inr refl
dms_cases done = inl refl
dms_cases failed = inr refl
dms_cases (busy a) = dms_cases a
dms_cases (row v a) = inl refl
dms_cases (schema true a) = dms_cases a
dms_cases (schema false a) = inr refl

pub first_row-assigned {ℓ κ} :
    {A : Type ℓ} {B : Type κ} (f : A → B) (d : B) (a : Answers A)
    → first_row f d a ≡ (db_exec_dms a, assigned f d (first_row some none a).1)
unfolding first_row db_exec_dms db_reset_stmt repeat_if
first_row-assigned f d unbound = refl
first_row-assigned f d done = refl
first_row-assigned f d failed = refl
first_row-assigned f d (busy a) = first_row-assigned f d a
first_row-assigned f d (row v a) = refl
first_row-assigned f d (schema true a) = first_row-assigned f d a
first_row-assigned f d (schema false a) = refl
