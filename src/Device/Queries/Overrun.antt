-- ===== src/Device/Queries/Overrun.antt =====
-- What the loop over a query's rows writes: all identifiers where they fit, and behind the buffer where
-- there are more.
use viji_osc_osd.Base.{
  ℕ, zero, suc, ◌+◌, ◌*◌, ◌-◌, ◌%◌, ◌^◌, ◌≤◌, ◌<◌, ◌≡◌, refl, sym, ap, ◌∙◌, arith, true, false, inl,
  inr, some, List, [], ◌∷◌, ◌++◌, length, take, drop, ltb, Bool-cases, append_assoc, drop-drop,
  length-take, length-append,
}
use viji_osc_osd.Base.Bytes.{write_at, write_next, length-write_at}
use viji_osc_osd.Wire.{set_htonll}
use viji_osc_osd.ListEntry.Multiobj.{length-set_htonll}
use viji_osc_osd.Db.{Answers, done, row}
use viji_osc_osd.Exec.{value, unfinished}
use viji_osc_osd.Device.Queries.{
  Found, put_id, next_id, query_rows, first_found, unless_behind, after_put,
}

-- A statement that answers with identifiers.
abbrev pub listed : List ℕ → Answers ℕ
listed [] = done
listed (id ∷ ids) = row id (listed ids)

-- The identifiers as the list has them.
abbrev pub packed_ids : List ℕ → List ℕ
packed_ids [] = []
packed_ids (id ∷ ids) = set_htonll id ++ packed_ids ids

take-drop : (n : ℕ) (xs : List ℕ) → take n xs ++ drop n xs ≡ xs
take-drop zero xs = refl
take-drop (suc n) [] = refl
take-drop (suc n) (x ∷ xs) = ap (◌∷◌ x) (take-drop n xs)

module _ (alloc_len : ℕ) (narrow : alloc_len < 2 ^ 32) where
  -- The next round's variables: after an identifier that was written, and after one that was not.
  abbrev wrote : Found → ℕ → Found
  wrote s id = record {
    mem = write_at s.off (set_htonll id) s.mem;
    off = s.off + 8;
    len = s.len + 8;
    used = (s.used + 8) % 2 ^ 64;
  }

  abbrev left_out : Found → Found
  left_out s = record { mem = s.mem; off = s.off + 8; len = s.len + 8; used = s.used }

  overruns :
      (s : Found) (ids : List ℕ)
      → length s.mem ≡ alloc_len
      → s.off ≡ s.len + 8
      → s.len ≤ alloc_len + 8
      → alloc_len + 8 < s.len + 8 * length ids
      → query_rows alloc_len s (listed ids) ≡ unfinished
  unfolding query_rows put_id unless_behind after_put next_id
  overruns s [] whole at near many = absurd (omega arith)
  overruns s (id ∷ ids) whole at near many =
      let len' : (s.len + 8) % 2 ^ 64 ≡ s.len + 8 = omega arith in
      let grows : ltb s.len (s.len + 8) ≡ true = ground arith in
      elim (Bool-cases (ltb 8 ((alloc_len + 2 ^ 64 - s.len) % 2 ^ 64))) [
        | inl e ↦ elim (Bool-cases (ltb (length s.mem) (s.off + 8))) [
          | inl over ↦ rw (e, over) refl
          | inr inside ↦
              let w = length-write_at s.off (set_htonll id) s.mem in
              let enough : s.off + 8 ≤ alloc_len = ground (arith, whole, inside) in
              rw (e, inside, len', grows)
                (overruns (wrote s id) ids (w ∙ whole) (omega arith) (omega arith) (omega arith))
        ]
        | inr e ↦
            let before : s.len ≤ alloc_len = ground (arith, e) in
            rw (e, len', grows)
              (overruns (left_out s) ids whole (omega arith) (omega arith) (omega arith))
      ]

  -- What the loop leaves when it has written all identifiers behind `before`.
  abbrev Listed : Found → List ℕ → List ℕ → List ℕ → Type 0
  Listed s ids before rest =
      (t : Found) × (query_rows alloc_len s (listed ids) ≡ value (some t))
      × (t.mem ≡ before ++ (packed_ids ids ++ drop (8 * length ids) rest))
      × (t.used ≡ s.used + 8 * length ids)
      × (t.len ≡ s.len + 8 * length ids)

  stepped :
      (s : Found) (id : ℕ) (ids : List ℕ)
      → ltb 8 ((alloc_len + 2 ^ 64 - s.len) % 2 ^ 64) ≡ true
      → ltb (length s.mem) (s.off + 8) ≡ false
      → ltb s.len (s.len + 8) ≡ true
      → (s.len + 8) % 2 ^ 64 ≡ s.len + 8
      → query_rows alloc_len s (listed (id ∷ ids)) ≡ query_rows alloc_len (wrote s id) (listed ids)
  unfolding query_rows put_id unless_behind after_put next_id
  stepped s id ids room inside grows len' = rw (room, inside, len', grows) refl

  fits :
      (s : Found) (ids before rest : List ℕ)
      → s.mem ≡ before ++ rest
      → length before ≡ s.off
      → length s.mem ≡ alloc_len
      → s.off ≡ s.len + 8
      → s.used ≡ s.off
      → s.off + 8 * length ids ≤ alloc_len
      → Listed s ids before rest
  unfolding query_rows
  fits s [] before rest e a b c d h = (s, refl, e, omega arith, omega arith)
  fits s (id ∷ ids) before rest e a b c d h =
      let id8 = length-set_htonll id in
      let len' : (s.len + 8) % 2 ^ 64 ≡ s.len + 8 = omega arith in
      let used' : (s.used + 8) % 2 ^ 64 ≡ s.used + 8 = omega arith in
      let grows : ltb s.len (s.len + 8) ≡ true = ground arith in
      let room : ltb 8 ((alloc_len + 2 ^ 64 - s.len) % 2 ^ 64) ≡ true = ground arith in
      let inside : ltb (length s.mem) (s.off + 8) ≡ false = ground arith in
      let size : length (before ++ rest) ≡ alloc_len = ap (λ (x : List ℕ). length x) (sym e) ∙ b in
      let there : write_at s.off (set_htonll id) s.mem ≡ (before ++ set_htonll id) ++ drop 8 rest =
        ap (write_at s.off (set_htonll id)) e
        ∙ write_next s.off (set_htonll id) before rest a
            (omega (arith, id8, size, length-append before rest))
        ∙ ap (λ n. (before ++ set_htonll id) ++ drop n rest) id8 in
      let (t, run, mem, used, len) =
        fits (wrote s id) ids (before ++ set_htonll id) (drop 8 rest) there
          (omega (arith, id8, length-append before (set_htonll id)))
          (length-write_at s.off (set_htonll id) s.mem ∙ b) (omega arith) (omega arith)
          (omega arith) in
      let behind : drop (8 * length ids) (drop 8 rest) ≡ drop (8 * length (id ∷ ids)) rest =
        drop-drop (8 * length ids) 8 (8 * length (id ∷ ids)) rest (omega arith) in
      (
        t,
        stepped s id ids room inside grows len' ∙ run,
        mem
            ∙ append_assoc before (set_htonll id)
                (packed_ids ids ++ drop (8 * length ids) (drop 8 rest))
            ∙ ap (λ x. before ++ x)
                (sym (
                    append_assoc (set_htonll id) (packed_ids ids)
                      (drop (8 * length ids) (drop 8 rest)))
                  ∙ ap (λ x. (set_htonll id ++ packed_ids ids) ++ x) behind),
        omega arith,
        omega arith,
      )

-- Where a query finds identifiers of more than 3 bytes above the length of the buffer, which is its
-- allocation length, from 13 bytes on and below 2 ^ 32, the loop writes one of them behind the buffer,
-- since the room that is left wraps around: what happens then is undefined.
pub query_rows-overruns :
    (outdata ids : List ℕ)
    → 13 ≤ length outdata
    → length outdata < 2 ^ 32
    → length outdata + 3 < 8 * length ids
    → query_rows (length outdata) (first_found outdata) (listed ids) ≡ unfinished
query_rows-overruns outdata ids header narrow many =
    overruns (length outdata) narrow (first_found outdata) ids refl (omega arith) (omega arith)
      (omega arith)

-- Where a query finds identifiers that fit into the buffer of its allocation length, below 2 ^ 32,
-- behind the header of 13 bytes, the loop writes all of them, and nothing else, and counts them.
pub query_rows-fits :
    (outdata ids : List ℕ)
    → length outdata < 2 ^ 32
    → 13 + 8 * length ids ≤ length outdata
    → (t : Found) × (query_rows (length outdata) (first_found outdata) (listed ids)
        ≡ value (some t))
      × (t.mem ≡ take 13 outdata ++ (packed_ids ids ++ drop (8 * length ids) (drop 13 outdata)))
      × (t.used ≡ 13 + 8 * length ids)
      × (t.len ≡ 5 + 8 * length ids)
query_rows-fits outdata ids narrow room =
    fits (length outdata) narrow (first_found outdata) ids (take 13 outdata) (drop 13 outdata)
      (sym (take-drop 13 outdata)) (omega (arith, length-take 13 outdata)) refl (omega arith)
      (omega arith) room
