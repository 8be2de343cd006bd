-- ===== src/Store/Rows.antt =====
-- Which identifiers the rows of the object table hold, and what SELECT MAX finds.
use viji_osc_osd.Base.{
  ℕ, ◌≤◌, ◌<◌, ◌≡◌, ◌≢◌, refl, ap, ◌⊎◌, inl, inr, Bool, true, false, List, [], ◌∷◌, filter, any,
  All, ◌==◌, max, arith, Bool-cases, ==_self,
}
use viji_osc_osd.Store.{ObjRow, AttrRow, attr_is, attr_add, max_of, oids_in, without, obj_at}

-- The identifiers of the partition are below n.
abbrev pub Below : ℕ → ℕ → List ObjRow → Type 0
Below pid n = All (λ r. (r.pid ≢ pid) ⊎ (r.oid < n))

-- Every identifier is 0, a partition's, or from `lb` on.
abbrev pub Placed : ℕ → List ObjRow → Type 0
Placed lb = All (λ r. (r.oid ≡ 0) ⊎ (lb ≤ r.oid))

-- The rows have no object pid, oid.
abbrev pub Absent : ℕ → ℕ → List ObjRow → Type 0
Absent pid oid rows = any (obj_at pid oid) rows ≡ false

module _ {ℓ κ} {A : Type ℓ} (P : A → Type κ) where
  pub All-filter : (p : A → Bool) (xs : List A) → All P xs → All P (filter p xs)
  All-filter p [] h = tt
  All-filter p (x ∷ xs) h = elim (Bool-cases (p x)) [
    | inl e ↦ rw e (h.0, All-filter p xs h.1)
    | inr e ↦ rw e (All-filter p xs h.1)
  ]

module _ {ℓ} {A : Type ℓ} where
  -- Removing what a predicate selects nowhere changes nothing.
  pub without-none : (p : A → Bool) (xs : List A) → any p xs ≡ false → without p xs ≡ xs
  without-none p [] h = refl
  without-none p (x ∷ xs) h = elim (Bool-cases (p x)) [
    | inl e ↦ absurd (ground arith)
    | inr e ↦ rw e (ap (◌∷◌ x) (without-none p xs (ground arith)))
  ]

pub Below-more : (pid m n : ℕ) (rows : List ObjRow) → m ≤ n → Below pid m rows → Below pid n rows
Below-more pid m n [] le h = tt
Below-more pid m n (r ∷ rows) le h = (ground arith, Below-more pid m n rows le h.1)

max_of-hit :
    (pid : ℕ) (r : ObjRow) (rows : List ObjRow)
    → (r.pid == pid) ≡ true
    → max_of (oids_in pid (r ∷ rows)) ≡ max r.oid (max_of (oids_in pid rows))
unfolding max_of
max_of-hit pid r rows e = rw e

max_of-miss :
    (pid : ℕ) (r : ObjRow) (rows : List ObjRow)
    → (r.pid == pid) ≡ false
    → max_of (oids_in pid (r ∷ rows)) ≡ max_of (oids_in pid rows)
max_of-miss pid r rows e = rw e

-- The largest identifier of a partition is above each of them.
pub oids_in-Below :
    (pid n : ℕ) (rows : List ObjRow) → max_of (oids_in pid rows) < n → Below pid n rows
oids_in-Below pid n [] h = tt
oids_in-Below pid n (r ∷ rows) h = elim (Bool-cases (r.pid == pid)) [
  | inl e ↦
      let step = max_of-hit pid r rows e in
      (inr (omega (arith, step)), oids_in-Below pid n rows (omega (arith, step)))
  | inr e ↦ (inl (ground arith), oids_in-Below pid n rows (omega (arith, max_of-miss pid r rows e)))
]

pub max_of-small :
    (pid n : ℕ) (rows : List ObjRow)
    → All (λ r. (r.pid < n) × (r.oid < n)) rows
    → 0 < n
    → max_of (oids_in pid rows) < n
unfolding max_of
max_of-small pid n [] h pos = pos
max_of-small pid n (r ∷ rows) h pos =
    let rest = max_of-small pid n rows h.1 pos in
    elim (Bool-cases (r.pid == pid)) [
      | inl e ↦ rw e (omega (arith, rest, h.0.1))
      | inr e ↦ rw e rest
    ]

pub max_of-Placed :
    (pid lb : ℕ) (rows : List ObjRow)
    → Placed lb rows
    → (max_of (oids_in pid rows) ≡ 0) ⊎ (lb ≤ max_of (oids_in pid rows))
unfolding max_of
max_of-Placed pid lb [] h = inl refl
max_of-Placed pid lb (r ∷ rows) h =
    let rest = max_of-Placed pid lb rows h.1 in
    let this = h.0 in
    elim (Bool-cases (r.pid == pid)) [
      | inl e ↦ rw e (ground (arith, rest, this))
      | inr e ↦ rw e rest
    ]

-- Rows that a predicate does not select, selected by it, and selected as before.
pub filter-without {ℓ} :
    {A : Type ℓ} (p : A → Bool) (rows : List A) → filter p (without p rows) ≡ []
filter-without p [] = refl
filter-without p (x ∷ rows) = elim (Bool-cases (p x)) [
  | inl e ↦ rw e (filter-without p rows)
  | inr e ↦ rw (e, e) (filter-without p rows)
]

pub without-twice {ℓ} :
    {A : Type ℓ} (p : A → Bool) (rows : List A) → without p (without p rows) ≡ without p rows
without-twice p [] = refl
without-twice p (x ∷ rows) = elim (Bool-cases (p x)) [
  | inl e ↦ rw e (without-twice p rows)
  | inr e ↦ rw (e, e) (ap (◌∷◌ x) (without-twice p rows))
]

-- A row of the attribute table that is put in: it is the one of its key, and the others are as before.
attr_is_self : (r : AttrRow) → attr_is r.pid r.oid r.page r.number r ≡ true
attr_is_self r = rw (==_self r.pid, ==_self r.oid, ==_self r.page, ==_self r.number) refl

pub attr_add-here :
    (r : AttrRow) (rows : List AttrRow)
    → filter (attr_is r.pid r.oid r.page r.number) (attr_add r rows) ≡ r ∷ []
attr_add-here r rows =
    rw (attr_is_self r) (ap (◌∷◌ r) (filter-without (attr_is r.pid r.oid r.page r.number) rows))

pub attr_add-besides :
    (r : AttrRow) (rows : List AttrRow)
    → let here = attr_is r.pid r.oid r.page r.number in
      without here (attr_add r rows) ≡ without here rows
attr_add-besides r rows =
    rw (attr_is_self r) (without-twice (attr_is r.pid r.oid r.page r.number) rows)
