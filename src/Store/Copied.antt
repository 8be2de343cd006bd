-- ===== src/Store/Copied.antt =====
-- Copying the members of a collection, `coll_copyoids` of osd-target/coll.c, with the uniqueness
-- constraint of osd-target/osd.schema.
use viji_osc_osd.Base.{
  ℕ, ◌≡◌, ◌≢◌, refl, ◌⊎◌, subst, inl, inr, Bool, true, false, ◌&&◌, List, [], ◌∷◌, filter, any,
  ◌==◌, ==_ne, arith, Bool-cases,
}
use viji_osc_osd.Db.{osd_ok, osd_error}
use viji_osc_osd.Db.Runs.{dms_cases}
use viji_osc_osd.Store.{
  CollRow, Sqlite, Behaves, Stmt, coll_at, coll_add, coll_add_all, effect, conflict, without,
}
use viji_osc_osd.Store.Coll.{coll_copyoids}

-- The row makes the object a member; it does so by a copy or a tracking.
abbrev pub member : ℕ → ℕ → ℕ → CollRow → Bool
member pid cid oid r = coll_at pid cid r && r.oid == oid

abbrev pub tracked : ℕ → ℕ → ℕ → CollRow → Bool
tracked pid cid oid r = member pid cid oid r && r.number == 0

abbrev copy : ℕ → ℕ → ℕ → CollRow
copy pid cid oid = record { pid = pid; cid = cid; oid = oid; number = 0 }

abbrev replaced : ℕ → ℕ → CollRow → Bool
replaced pid oid x = x.pid == pid && (x.oid == oid && x.number == 0)

-- A row that is not replaced stays, and one that is replaced does not.
any-without :
    (p x : CollRow → Bool) (rows : List CollRow)
    → ((r : CollRow) → p r ≡ true → x r ≡ false)
    → any p rows ≡ true
    → any p (without x rows) ≡ true
any-without p x [] apart h = h
any-without p x (r ∷ rows) apart h = elim (Bool-cases (p r)) [
  | inl e ↦ rw (apart r e, e)
  | inr e ↦
      let rest = any-without p x rows apart (ground arith) in
      elim (Bool-cases (x r)) [ inl e' ↦ rw e' rest | inr e' ↦ rw (e', e) rest ]
]

none-without :
    (p x : CollRow → Bool) (rows : List CollRow)
    → ((r : CollRow) → p r ≡ true → x r ≡ true)
    → any p (without x rows) ≡ false
none-without p x [] inside = refl
none-without p x (r ∷ rows) inside =
    let rest = none-without p x rows inside in
    elim (Bool-cases (x r)) [
      | inl e' ↦ rw e' rest
      | inr e' ↦ elim (Bool-cases (p r)) [
        | inl e ↦ absurd (cc (inside r e, e'))
        | inr e ↦ rw (e', e) rest
      ]
    ]

still-none :
    (p x : CollRow → Bool) (rows : List CollRow)
    → any p rows ≡ false
    → any p (without x rows) ≡ false
still-none p x [] h = h
still-none p x (r ∷ rows) h =
    let rest = still-none p x rows (ground arith) in
    let this : p r ≡ false = ground arith in
    elim (Bool-cases (x r)) [ inl e' ↦ rw e' rest | inr e' ↦ rw (e', this) rest ]

any-filter :
    (p x : CollRow → Bool) (rows : List CollRow)
    → any (λ r. p r && x r) rows ≡ true
    → any x (filter p rows) ≡ true
any-filter p x [] h = h
any-filter p x (r ∷ rows) h = elim (Bool-cases (p r)) [
  | inl e ↦ elim (Bool-cases (x r)) [
    | inl e' ↦ rw (e, e')
    | inr e' ↦ rw (e, e') (any-filter p x rows (ground arith))
  ]
  | inr e ↦ rw e (any-filter p x rows (ground arith))
]

module _ (pid dest : ℕ) (oid : ℕ) where
  one_kept :
      (o : ℕ) (rows : List CollRow)
      → any (member pid dest oid) rows ≡ true
      → any (member pid dest oid) (coll_add (copy pid dest o) rows) ≡ true
  one_kept o rows h = elim (Bool-cases (o == oid)) [
    | inl e ↦ ground arith
    | inr e ↦
        let rest =
          any-without (member pid dest oid) (replaced pid o) rows (λ r m. ground arith) h in
        ground arith
  ]

  all_kept :
      (picked rows : List CollRow)
      → any (member pid dest oid) rows ≡ true
      → any (member pid dest oid) (coll_add_all pid dest picked rows) ≡ true
  unfolding coll_add_all
  all_kept [] rows h = h
  all_kept (r ∷ picked) rows h =
      all_kept picked (coll_add (copy pid dest r.oid) rows) (one_kept r.oid rows h)

  copied :
      (picked rows : List CollRow)
      → any (λ r. r.oid == oid) picked ≡ true
      → any (member pid dest oid) (coll_add_all pid dest picked rows) ≡ true
  unfolding coll_add_all
  copied [] rows h = absurd (cc h)
  copied (r ∷ picked) rows h = elim (Bool-cases (r.oid == oid)) [
    | inl e ↦ all_kept picked (coll_add (copy pid dest r.oid) rows) (ground arith)
    | inr e ↦ copied picked (coll_add (copy pid dest r.oid) rows) (ground arith)
  ]

  module _ (source : ℕ) (apart : dest ≢ source) where
    one_gone :
        (o : ℕ) (rows : List CollRow)
        → any (tracked pid source oid) rows ≡ false
        → any (tracked pid source oid) (coll_add (copy pid dest o) rows) ≡ false
    one_gone o rows h =
        let rest = still-none (tracked pid source oid) (replaced pid o) rows h in
        let other = ==_ne dest source apart in ground arith

    all_gone :
        (picked rows : List CollRow)
        → any (tracked pid source oid) rows ≡ false
        → any (tracked pid source oid) (coll_add_all pid dest picked rows) ≡ false
    unfolding coll_add_all
    all_gone [] rows h = h
    all_gone (r ∷ picked) rows h =
        all_gone picked (coll_add (copy pid dest r.oid) rows) (one_gone r.oid rows h)

    moved :
        (picked rows : List CollRow)
        → any (λ r. r.oid == oid) picked ≡ true
        → any (tracked pid source oid) (coll_add_all pid dest picked rows) ≡ false
    unfolding coll_add_all
    moved [] rows h = absurd (cc h)
    moved (r ∷ picked) rows h = elim (Bool-cases (r.oid == oid)) [
      | inl e ↦
          let same : r.oid ≡ oid = ground arith in
          let gone =
            none-without (tracked pid source oid) (replaced pid r.oid) rows (λ x m. ground arith) in
          let other = ==_ne dest source apart in
          all_gone picked (coll_add (copy pid dest r.oid) rows) (ground arith)
      | inr e ↦ moved picked (coll_add (copy pid dest r.oid) rows) (ground arith)
    ]

-- Where no picked row conflicts, the object of one is no member yet.
free :
    (pid dest oid : ℕ) (picked rows : List CollRow)
    → any (λ r. any (λ x. coll_at pid dest x && x.oid == r.oid) rows) picked ≡ false
    → any (λ r. r.oid == oid) picked ≡ true
    → any (member pid dest oid) rows ≡ false
free pid dest oid [] rows h k = absurd (cc k)
free pid dest oid (r ∷ picked) rows h k = elim (Bool-cases (r.oid == oid)) [
  | inl e ↦
      let same : r.oid ≡ oid = ground arith in
      subst (λ o. any (λ x. coll_at pid dest x && x.oid == o) rows ≡ false) same (ground arith)
  | inr e ↦ free pid dest oid picked rows (ground arith) (ground arith)
]

-- What copying the members of a collection into another one does to the memberships.
abbrev pub Copied : ℕ → ℕ → ℕ → List CollRow → List CollRow → Type 0
Copied pid dest source rows rows' =
    (oid : ℕ)
    → any (member pid source oid) rows ≡ true
    → (any (member pid dest oid) rows ≡ false)
      × (any (member pid dest oid) rows' ≡ true)
      × (any (tracked pid source oid) rows' ≡ false)

-- `coll_copyoids` into another collection, on a database that behaves, succeeds or fails. Where it
-- succeeds, no member of the first was a member of the other one before, each of them is one now, and
-- one that was only tracked by the first, with the number 0, as a copy is, is a member of the first no
-- longer: the table allows one membership of an object with the number 0. Where it fails, the tables are
-- as they were.
pub coll_copyoids_lem :
    {q : Sqlite} (b : Behaves q) (pid dest source : ℕ) (c : q.Conn)
    → dest ≢ source
    → let (r, c') = coll_copyoids q pid dest source c in
      ((r ≡ osd_ok) × Copied pid dest source (b.tables c).coll (b.tables c').coll)
      ⊎ ((r ≡ osd_error) × (b.tables c' ≡ b.tables c))
unfolding effect conflict coll_copyoids
coll_copyoids_lem {q} b pid dest source c apart =
    let s = Stmt.coll_copyoids pid dest source in
    let rows = (b.tables c).coll in
    let from = filter (coll_at pid source) rows in
    elim (dms_cases (q.run s c).0) [
      | inl ok ↦
          let (clear, done) = b.success s c ok in
          inl (
            ok,
            λ oid h.
                let picked = any-filter (coll_at pid source) (λ r. r.oid == oid) rows h in
                rw done (
                  free pid dest oid from rows clear picked,
                  copied pid dest oid from rows picked,
                  moved pid dest oid source apart from rows picked,
                ),
          )
      | inr bad ↦ inr (bad, b.failure s c bad)
    ]
