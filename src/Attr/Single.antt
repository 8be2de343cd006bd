-- ===== src/Attr/Single.antt =====
-- What the reading of an attribute that is named by its key returns: one row, or none.
use viji_osc_osd.Base.{
  ℕ, suc, ◌+◌, ◌%◌, ◌^◌, ◌≡◌, ◌<◌, ◌≤◌, ◌-◌, ◌++◌, drop, ap, some, if◌then◌else◌, refl, arith, Bool,
  true, false, ◌⊎◌, inl, inr, List, [], ◌∷◌, subst, sym, ◌∙◌, length, take, take-all, le→ltb, ltb,
}
use viji_osc_osd.Base.Bytes.{write_at-whole}
use viji_osc_osd.Db.{
  Answers, unbound, done, failed, busy, row, schema, osd_ok, osd_error, enoent, db_reset_stmt,
  repeat_if,
}
use viji_osc_osd.ListEntry.{packed, PackResult, le_pack_attr}
use viji_osc_osd.ListEntry.Pack.{entry, le_pack_attr_lem}
use viji_osc_osd.Store.{AttrRow}
use viji_osc_osd.Store.Fetch.{Answering}
use viji_osc_osd.Attr.{
  Gather, gather_val, gather_attr, attr_gather_val, attr_gather_attr, column_blob,
  rtrvd_set_attr_list, Retrieval, code, Cursor, begin, ended, continued, placed, gather,
  exec_attr_rtrvl_stmt,
}

shown_blob : (value : List ℕ) → 0 < length value → column_blob value ≡ some value
unfolding column_blob
shown_blob [] h = absurd (omega arith)
shown_blob (b ∷ value) h = refl

-- A value that fills the caller's memory.
pub gather_val-whole :
    (ndebug : Bool) (addr oid listfmt n : ℕ) (mem : List ℕ) (r : AttrRow)
    → n < 2 ^ 16
    → length r.value ≡ n
    → length mem ≡ n
    → gather ndebug addr gather_val oid listfmt (begin mem n) r ≡ (packed n, r.value)
unfolding gather attr_gather_val
gather_val-whole ndebug addr oid listfmt n mem r small h k =
    let len : length r.value % 2 ^ 16 ≡ n = omega arith in
    let fits : ltb (n % 2 ^ 32) n ≡ false = le→ltb (n % 2 ^ 32) n (omega arith) in
    let all : take n r.value ≡ r.value = take-all n r.value (omega arith) in
    rw (len, fits, all, write_at-whole r.value mem (k ∙ sym h)) refl

-- The entry of a value, in the caller's memory that has room for it.
pub gather_attr-whole :
    (ndebug : Bool) (addr oid outlen : ℕ) (mem : List ℕ) (r : AttrRow)
    → addr % 8 ≡ 0
    → outlen % 8 ≡ 0
    → outlen < 2 ^ 32
    → 0 < length r.value
    → length r.value < 2 ^ 16
    → 16 + length r.value ≤ outlen
    → outlen ≤ length mem
    → let e = entry r.page r.number (length r.value) r.value in
      gather ndebug addr gather_attr oid rtrvd_set_attr_list (begin mem outlen) r
      ≡ (packed (length e), e ++ drop (length e) mem)
unfolding gather attr_gather_attr
gather_attr-whole ndebug addr oid outlen mem r ha ho h32 h0 h16 fits lent =
    let n = length r.value in
    let cut : n % 2 ^ 16 ≡ n = omega arith in
    let out : outlen % 2 ^ 32 ≡ outlen = omega arith in
    let a0 : addr + 0 ≡ addr = omega arith in
    let room : ltb (outlen - 16) n ≡ false = ground arith in
    let (same, _, _) =
      le_pack_attr_lem addr mem outlen r.page r.number n (some r.value) ha ho (omega arith) lent
        (omega arith) in
    rw (cut, out, a0, shown_blob r.value h0)
      (subst
        (λ v. le_pack_attr addr mem outlen r.page r.number n (some r.value) ≡ (
          packed (length (entry r.page r.number n v)),
          entry r.page r.number n v ++ drop (length (entry r.page r.number n v)) mem,
        ))
        (ap (λ b. take (if b then outlen - 16 else n) r.value) room
          ∙ take-all n r.value (omega arith))
        same)

module _ (ndebug : Bool) (addr : ℕ) (g : Gather) (oid listfmt outlen : ℕ) where
  -- No row: -ENOENT, unless an execution failed.
  pub no_row :
      (used : ℕ) (s : Cursor) (a : Answers AttrRow)
      → s.found ≡ false
      → Answering [] [] a
      → let x = exec_attr_rtrvl_stmt ndebug addr g oid listfmt outlen used s a in
        (x.ret ≡ code osd_error) ⊎ (x.ret ≡ code enoent)
  unfolding exec_attr_rtrvl_stmt ended db_reset_stmt repeat_if Answering
  no_row used s unbound h k = inl refl
  no_row used s done h k = inr (rw h)
  no_row used s failed h k = inl refl
  no_row used s (busy rest) h k = no_row used s rest h k
  no_row used s (row r rest) h (more, e, k) = absurd (cc e)
  no_row used s (schema true rest) h k = no_row 0 (begin s.mem outlen) rest refl k
  no_row used s (schema false rest) h k = inl refl

  -- One row, which is packed to `target`: that, unless an execution failed. Fresh is what is known of the
  -- memory before the row is read, also when it is read once more.
  module _ (r : AttrRow) (n : ℕ) (target : List ℕ) (Fresh : List ℕ → Type 0)
      (step : (mem : List ℕ)
        → Fresh mem
        → gather ndebug addr g oid listfmt (begin mem outlen) r ≡ (packed (suc n), target))
      (afresh : Fresh target) where
    abbrev Out : Retrieval → Type 0
    Out x =
        (x.ret ≡ code osd_error)
        ⊎ ((x.ret ≡ code osd_ok) × (x.outdata ≡ target) × (x.used_outlen ≡ suc n % 2 ^ 32))

    abbrev Read : Cursor → Type 0
    Read s = (s.found ≡ true) × (s.mem ≡ target) × (s.len ≡ suc n % 2 ^ 32)

    ended-Out : (s : Cursor) → Read s → Out (ended osd_ok s)
    unfolding ended
    ended-Out s (f, m, l) = inr (rw f refl, m, l)

    continued-Out :
        (mem : List ℕ) (w : PackResult × List ℕ) (rest : Cursor → Retrieval)
        → w ≡ (packed (suc n), target)
        → ((s : Cursor) → Read s → Out (rest s))
        → Out (continued w.0 (placed (begin mem outlen) w) (rest (placed (begin mem outlen) w)))
    unfolding continued placed
    continued-Out mem w rest e h =
        let l : (0 + suc n) % 2 ^ 32 ≡ suc n % 2 ^ 32 = omega arith in
        rw e (h (placed (begin mem outlen) (packed (suc n), target)) (refl, refl, l))

    -- Before the row is read, and after.
    both :
        (a : Answers AttrRow)
        → ((used : ℕ) (mem : List ℕ)
            → Fresh mem
            → Answering (r ∷ []) (r ∷ []) a
            → Out (exec_attr_rtrvl_stmt ndebug addr g oid listfmt outlen used (begin mem outlen) a))
          × ((used : ℕ) (s : Cursor)
              → Read s
              → Answering (r ∷ []) [] a
              → Out (exec_attr_rtrvl_stmt ndebug addr g oid listfmt outlen used s a))
    unfolding exec_attr_rtrvl_stmt ended db_reset_stmt repeat_if Answering
    both unbound = (λ used mem fresh k. inl refl, λ used s h k. inl refl)
    both done = (λ used mem fresh k. absurd (cc k), λ used s h k. ended-Out s h)
    both failed = (λ used mem fresh k. inl refl, λ used s h k. inl refl)
    both (busy rest) = both rest
    both (row x rest) = (
      λ used mem fresh (more, e, k).
          let same : r ≡ x = cc e in
          let nil : [] ≡ more = cc e in
          let step' =
            subst
              (λ y.
                gather ndebug addr g oid listfmt (begin mem outlen) y ≡ (packed (suc n), target))
              same (step mem fresh) in
          continued-Out mem _
            (λ s. exec_attr_rtrvl_stmt ndebug addr g oid listfmt outlen used s rest) step'
            (λ s h. (both rest).1 used s h (subst (λ m. Answering (r ∷ []) m rest) (sym nil) k)),
      λ used s h (more, e, k). absurd (cc e),
    )
    both (schema true rest) = (
      λ used mem fresh k. (both rest).0 0 mem fresh k,
      λ used s (f, m, l) k. (both rest).0 0 s.mem (subst Fresh (sym m) afresh) k,
    )
    both (schema false rest) = (λ used mem fresh k. inl refl, λ used s h k. inl refl)

    pub one_row :
        (used : ℕ) (mem : List ℕ) (a : Answers AttrRow)
        → Fresh mem
        → Answering (r ∷ []) (r ∷ []) a
        → let x = exec_attr_rtrvl_stmt ndebug addr g oid listfmt outlen used (begin mem outlen) a in
          (x.ret ≡ code osd_error)
          ⊎ ((x.ret ≡ code osd_ok) × (x.outdata ≡ target) × (x.used_outlen ≡ suc n % 2 ^ 32))
    one_row used mem a fresh k = (both a).0 used mem fresh k
