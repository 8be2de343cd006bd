-- ===== src/Db/Retrieval.antt =====
-- What `db_exec_id_rtrvl_stmt` of osd-target/db.c writes and returns.
use viji_osc_osd.Base.{
  ℕ, zero, suc, ◌+◌, ◌-◌, ◌*◌, ◌/◌, ◌%◌, ◌^◌, ◌≤◌, ◌<◌, ◌≡◌, ◌≢◌, refl, sym, subst, ==_ne, ap, ◌∙◌,
  inl, inr, Bool, true, false, List, [], ◌∷◌, ◌++◌, append-nil, append_assoc, length, length-append,
  take, take-all, length-take, All, get_or, ltb, leb, ◌==◌, if◌then◌else◌, arith, Bool-cases,
}
use viji_osc_osd.Wire.{set_htonll}
use viji_osc_osd.Db.{
  Answers, unbound, done, failed, busy, row, schema, Ret, osd_ok, osd_error, Retrieved, start,
  place, db_exec_id_rtrvl_stmt, db_reset_stmt, repeat_if,
}

-- The rows of the last run of a statement, after the rows `seen` in it so far, when it succeeds.
abbrev pub last_rows : List ℕ → Answers ℕ → List ℕ × Bool
last_rows seen unbound = (seen, false)
last_rows seen done = (seen, true)
last_rows seen failed = (seen, false)
last_rows seen (busy rest) = last_rows seen rest
last_rows seen (row id rest) = last_rows (seen ++ id ∷ []) rest
last_rows seen (schema true rest) = last_rows [] rest
last_rows seen (schema false rest) = (seen, false)

-- How many rows there are in all runs, and that none is 0.
abbrev row_count : Answers ℕ → ℕ
row_count (busy rest) = row_count rest
row_count (row id rest) = suc (row_count rest)
row_count (schema up rest) = row_count rest
row_count a = 0

abbrev NonZero : Answers ℕ → Type 0
NonZero (busy rest) = NonZero rest
NonZero (row id rest) = (id ≢ 0) × NonZero rest
NonZero (schema up rest) = NonZero rest
NonZero a = Unit {0}

abbrev encode : List ℕ → List ℕ
encode [] = []
encode (id ∷ ids) = set_htonll id ++ encode ids

-- The first n identifiers, the length of all, and the first that did not fit, or 0.
abbrev pub summary : ℕ → List ℕ → Retrieved
summary n ids = record {
  written = encode (take n ids);
  len = 8 * length (take n ids);
  add_len = 8 * length ids;
  cont_id = get_or ids n 0;
}

encode_snoc : (ids : List ℕ) (id : ℕ) → encode (ids ++ id ∷ []) ≡ encode ids ++ set_htonll id
encode_snoc [] id = append-nil (set_htonll id)
encode_snoc (x ∷ ids) id =
    ap (λ r. set_htonll x ++ r) (encode_snoc ids id)
    ∙ sym (append_assoc (set_htonll x) (encode ids) (set_htonll id))

-- One more row while there is room, the first without room, and a later one.
take_room :
    (n : ℕ) (ids : List ℕ) (id : ℕ)
    → length ids < n
    → (take n (ids ++ id ∷ []) ≡ ids ++ id ∷ []) × (take n ids ≡ ids)
take_room zero ids id h = absurd (omega arith)
take_room (suc n) [] id h = (ap (◌∷◌ id) (take-all n [] (omega arith)), refl)
take_room (suc n) (x ∷ ids) id h =
    let (a, b) = take_room n ids id (omega arith) in (ap (◌∷◌ x) a, ap (◌∷◌ x) b)

take_full : (n : ℕ) (ids : List ℕ) (id : ℕ) → n ≤ length ids → take n (ids ++ id ∷ []) ≡ take n ids
take_full zero ids id h = refl
take_full (suc n) [] id h = absurd (omega arith)
take_full (suc n) (x ∷ ids) id h = ap (◌∷◌ x) (take_full n ids id (omega arith))

get_or_room :
    (n : ℕ) (ids : List ℕ) (id : ℕ)
    → length ids < n
    → (get_or (ids ++ id ∷ []) n 0 ≡ 0) × (get_or ids n 0 ≡ 0)
get_or_room zero ids id h = absurd (omega arith)
get_or_room (suc n) [] id h = (refl, refl)
get_or_room (suc n) (x ∷ ids) id h = get_or_room n ids id (omega arith)

get_or_last :
    (ids : List ℕ) (id : ℕ)
    → (get_or (ids ++ id ∷ []) (length ids) 0 ≡ id) × (get_or ids (length ids) 0 ≡ 0)
get_or_last [] id = (refl, refl)
get_or_last (x ∷ ids) id = get_or_last ids id

get_or_early :
    (n : ℕ) (ids : List ℕ) (id : ℕ) → n < length ids → get_or (ids ++ id ∷ []) n 0 ≡ get_or ids n 0
get_or_early n [] id h = absurd (omega arith)
get_or_early zero (x ∷ ids) id h = refl
get_or_early (suc n) (x ∷ ids) id h = get_or_early n ids id (omega arith)

nonzero_at : (n : ℕ) (ids : List ℕ) → n < length ids → All (λ i. i ≢ 0) ids → get_or ids n 0 ≢ 0
nonzero_at n [] h nz = absurd (omega arith)
nonzero_at zero (x ∷ ids) h nz = nz.0
nonzero_at (suc n) (x ∷ ids) h nz = nonzero_at n ids (omega arith) nz.1

All-snoc :
    (ids : List ℕ) (id : ℕ) → All (λ i. i ≢ 0) ids → id ≢ 0 → All (λ i. i ≢ 0) (ids ++ id ∷ [])
All-snoc [] id nz h = (h, tt)
All-snoc (x ∷ ids) id nz h = (nz.0, All-snoc ids id nz.1 h)

summary-start : (n : ℕ) → summary n [] ≡ start
summary-start n = rw (take-all {A = ℕ} n [] (omega arith))

module _ (alloc_len : ℕ) (ha : alloc_len < 2 ^ 64) where
  placed_room :
      (seen : List ℕ) (id : ℕ)
      → length seen < alloc_len / 8
      → 8 * (length seen + 1) < 2 ^ 64
      → let p = place alloc_len (summary (alloc_len / 8) seen) id in
        record p { add_len = (p.add_len + 8) % 2 ^ 64 } ≡ summary (alloc_len / 8) (seen ++ id ∷ [])
  unfolding place
  placed_room seen id room small =
      let n = alloc_len / 8 in
      let (grown, all) = take_room n seen id room in
      let (none', none) = get_or_room n seen id room in
      let more = length-append {A = ℕ} seen (id ∷ []) in
      let test : leb 8 ((alloc_len + 2 ^ 64 - 8 * length seen) % 2 ^ 64) ≡ true = ground arith in
      let len' : (8 * length seen + 8) % 2 ^ 64 ≡ 8 * length (seen ++ id ∷ []) =
        omega (arith, more) in
      rw (all, grown, test, none', none, encode_snoc seen id, len')

  placed_full :
      (seen : List ℕ) (id : ℕ)
      → alloc_len / 8 ≤ length seen
      → 8 * (length seen + 1) < 2 ^ 64
      → All (λ i. i ≢ 0) seen
      → let p = place alloc_len (summary (alloc_len / 8) seen) id in
        record p { add_len = (p.add_len + 8) % 2 ^ 64 } ≡ summary (alloc_len / 8) (seen ++ id ∷ [])
  unfolding place
  placed_full seen id full small nz =
      let n = alloc_len / 8 in
      let kept = take_full n seen id full in
      let more = length-append {A = ℕ} seen (id ∷ []) in
      let count : length (take n seen) ≡ n = omega (arith, length-take n seen) in
      let test : leb 8 ((alloc_len + 2 ^ 64 - 8 * n) % 2 ^ 64) ≡ false = ground arith in
      let len' : (8 * length seen + 8) % 2 ^ 64 ≡ 8 * length (seen ++ id ∷ []) =
        omega (arith, more) in
      elim (Bool-cases (length seen == n)) [
        | inl e ↦
            let same : n ≡ length seen = ground arith in
            let now : get_or (seen ++ id ∷ []) n 0 ≡ id =
              subst (λ (k : ℕ). get_or (seen ++ id ∷ []) k 0 ≡ id) (sym same)
                (get_or_last seen id).0 in
            let none' : get_or seen n 0 ≡ 0 =
              subst (λ (k : ℕ). get_or seen k 0 ≡ 0) (sym same) (get_or_last seen id).1 in
            rw (kept, count, test, none', now, len')
        | inr e ↦
            let less : n < length seen = ground arith in
            let early = get_or_early n seen id less in
            let some' : (get_or seen n 0 == 0) ≡ false =
              ==_ne (get_or seen n 0) 0 (nonzero_at n seen less nz) in
            rw (kept, count, test, early, some', len')
      ]

  placed :
      (seen : List ℕ) (id : ℕ)
      → 8 * (length seen + 1) < 2 ^ 64
      → All (λ i. i ≢ 0) seen
      → let p = place alloc_len (summary (alloc_len / 8) seen) id in
        record p { add_len = (p.add_len + 8) % 2 ^ 64 } ≡ summary (alloc_len / 8) (seen ++ id ∷ [])
  placed seen id small nz = elim (Bool-cases (ltb (length seen) (alloc_len / 8))) [
    | inl e ↦ placed_room seen id (ground arith) small
    | inr e ↦ placed_full seen id (ground arith) small nz
  ]

  -- The test of an overflow of `add_len` passes.
  counted :
      (seen : List ℕ) (id : ℕ)
      → 8 * (length seen + 1) < 2 ^ 64
      → let p = place alloc_len (summary (alloc_len / 8) seen) id in
        ltb p.add_len ((p.add_len + 8) % 2 ^ 64) ≡ true
  unfolding place
  counted seen id small = ground arith

  retrieved :
      (seen : List ℕ) (a : Answers ℕ)
      → 8 * (length seen + row_count a) < 2 ^ 64
      → All (λ i. i ≢ 0) seen
      → NonZero a
      → db_exec_id_rtrvl_stmt alloc_len (summary (alloc_len / 8) seen) a ≡ (
        if (last_rows seen a).1 then osd_ok else osd_error,
        summary (alloc_len / 8) (last_rows seen a).0,
      )
  unfolding db_exec_id_rtrvl_stmt db_reset_stmt repeat_if
  retrieved seen unbound small nz ok = refl
  retrieved seen done small nz ok = refl
  retrieved seen failed small nz ok = refl
  retrieved seen (busy rest) small nz ok = retrieved seen rest small nz ok
  retrieved seen (row id rest) small nz ok =
      rw (counted seen id (omega arith), placed seen id (omega arith) nz)
        (retrieved (seen ++ id ∷ []) rest (omega (arith, length-append {A = ℕ} seen (id ∷ [])))
          (All-snoc seen id nz ok.0) ok.1)
  retrieved seen (schema true rest) small nz ok =
      ap (λ s. db_exec_id_rtrvl_stmt alloc_len s rest) (sym (summary-start (alloc_len / 8)))
      ∙ retrieved [] rest (omega arith) tt ok
  retrieved seen (schema false rest) small nz ok = refl

-- `db_exec_id_rtrvl_stmt`, whatever sqlite3 answers and however often the statement waits or is run
-- again, as long as all identifiers are not 0 and their bytes are counted by 64 bits: it returns OSD_OK
-- when the last run ends well; it has then written the first identifiers of that run, as many as fit
-- into `alloc_len` bytes, `add_len` is the length of all of them, and `cont_id` is the first identifier
-- that did not fit, or 0; and it never writes more than `alloc_len` bytes.
pub db_exec_id_rtrvl_stmt_lem :
    (alloc_len : ℕ) (a : Answers ℕ)
    → alloc_len < 2 ^ 64
    → 8 * row_count a < 2 ^ 64
    → NonZero a
    → (db_exec_id_rtrvl_stmt alloc_len start a ≡ (
      if (last_rows [] a).1 then osd_ok else osd_error,
      summary (alloc_len / 8) (last_rows [] a).0,
    ))
      × ((db_exec_id_rtrvl_stmt alloc_len start a).1.len ≤ alloc_len)
db_exec_id_rtrvl_stmt_lem alloc_len a ha small nz =
    let ran =
      ap (λ s. db_exec_id_rtrvl_stmt alloc_len s a) (sym (summary-start (alloc_len / 8)))
      ∙ retrieved alloc_len ha [] a (omega arith) tt nz in
    let ids = (last_rows [] a).0 in
    let bound : 8 * length (take (alloc_len / 8) ids) ≤ alloc_len =
      omega (arith, length-take (alloc_len / 8) ids) in
    (ran, subst (λ (r : Ret × Retrieved). r.1.len ≤ alloc_len) (sym ran) bound)
