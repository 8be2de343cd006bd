-- ===== src/Device/Attributes/Own.antt =====
-- The attributes that are rows of the table, on the pages of user objects that no function of its own
-- answers, and how the handlers on them refuse.
use viji_osc_osd.Base.{ℕ, ◌≤◌, ◌<◌, ◌≡◌, Bool, false, ◌⊎◌, List, [], ◌∷◌, filter}
use viji_osc_osd.Store.{Sqlite, Tables, AttrRow, attr_is}
use viji_osc_osd.Files.{Files}
use viji_osc_osd.Exec.{Reply, Hoare, raise, raised, left_if, leave_if}
use viji_osc_osd.Device.{Device, cdb_err, hw_err}
use viji_osc_osd.Device.Attributes.Getting.{param_list_err}

-- The pages and the attributes' numbers.
abbrev pub Own : ℕ → ℕ → Type 0
Own page number = (0x10000 ≤ page) × (page < 0x20000000) × (number < 0xFFFFFFFF)

-- The replies of the handlers.
unfoldable pub Refused : ℕ → ℕ → Reply → Type 0
Refused pid oid r = (r ≡ cdb_err pid oid) ⊎ (r ≡ param_list_err pid oid) ⊎ (r ≡ hw_err pid oid)

abbrev pub attr_row : ℕ → ℕ → ℕ → ℕ → List ℕ → AttrRow
attr_row pid oid page number value = record {
  pid = pid;
  oid = oid;
  page = page;
  number = number;
  value = value;
}

-- The attribute is a row of the table.
unfoldable pub Defined : ℕ → ℕ → ℕ → ℕ → List ℕ → Tables → Type 0
Defined pid oid page number value t =
    filter (attr_is pid oid page number) t.attr ≡ attr_row pid oid page number value ∷ []

-- A test that leads to one of the replies.
pub passes :
    {q : Sqlite} {f : Files} {P : Device q f → Type 0} (pid oid : ℕ) (test : Bool) (r : Reply)
    → Refused pid oid r
    → Hoare P (leave_if test (raise r)) (λ _ d. P d × (test ≡ false)) (λ e d. Refused pid oid e)
passes pid oid test r h = left_if test (raised r (λ d p. h))
