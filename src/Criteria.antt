-- ===== src/Criteria.antt =====
-- The criteria of a query, `struct query_criteria` of osd-target/osd-types.h, and what the SQL text that
-- `mtq_run_query` of osd-target/mtq.c puts together from them selects.
use viji_osc_osd.Base.{
  ℕ, Bool, true, false, ◌&&◌, ◌||◌, List, [], ◌∷◌, ◌++◌, filter, any, ltb, ◌==◌, if◌then◌else◌,
}

-- One criterion. An empty bound is not tested.
pub record Criterion : Type 0 where
  pub page : ℕ
  pub number : ℕ
  pub min_val : List ℕ
  pub max_val : List ℕ

-- How sqlite3 compares two blobs: byte by byte, and a beginning of the other is less.
pub blob_leb : List ℕ → List ℕ → Bool
blob_leb [] b = true
blob_leb (x ∷ a) [] = false
blob_leb (x ∷ a) (y ∷ b) = ltb x y || x == y && blob_leb a b

is_empty : List ℕ → Bool
is_empty [] = true
is_empty (x ∷ a) = false

-- Page, number and value of an attribute.
pub meets : Criterion → ℕ → ℕ → List ℕ → Bool
meets c page number value =
    page == c.page
    && (number == c.number
        && ((is_empty c.min_val || blob_leb c.min_val value)
            && (is_empty c.max_val || blob_leb value c.max_val)))

-- An identifier put into an ordered list without repetitions.
into : ℕ → List ℕ → List ℕ
into x [] = x ∷ []
into x (y ∷ ys) =
    let rest = into x ys in if ltb x y then x ∷ y ∷ ys else if x == y then y ∷ ys else y ∷ rest

pub ordered : List ℕ → List ℕ
ordered [] = []
ordered (x ∷ xs) = into x (ordered xs)

-- `UNION` and `INTERSECT`.
combined : ℕ → List ℕ → List ℕ → List ℕ
combined query_type a b = if query_type == 0 then a ++ b else filter (λ x. any (λ y. x == y) b) a

-- The criteria from the first on; `all` are the identifiers that are selected without a criterion.
pub selection : ℕ → (Criterion → List ℕ) → List ℕ → List Criterion → List ℕ
selection query_type select all [] = all
selection query_type select all (c ∷ criteria) =
    ordered (selection query_type select (combined query_type all (select c)) criteria)
