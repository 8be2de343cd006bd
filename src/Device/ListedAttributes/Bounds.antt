-- ===== src/Device/ListedAttributes/Bounds.antt =====
-- What a list with attributes may write: nothing past the length that the caller lends.
use viji_osc_osd.Base.{
  ℕ, zero, suc, ◌+◌, ◌-◌, ◌%◌, ◌^◌, ◌≤◌, ◌<◌, ◌≡◌, refl, ◌∙◌, arith, Bool, ◌⊎◌, inl, inr, Option,
  some, List, ◌++◌, ◌&&◌, ◌||◌, length, take, drop, replicate, ltb, leb, ◌==◌, length-drop,
  length-append, length-take, drop-drop, drop-past, Bool-cases,
}
use viji_osc_osd.Base.Bytes.{write_at, length-write_at, drop-write_at}
use viji_osc_osd.Wire.{set_htonl, set_htonl_le, set_htonll}
use viji_osc_osd.Db.{Answers, unbound, done, failed, busy, row, schema}
use viji_osc_osd.ListEntry.{PackResult, einval, eoverflow, aborted, packed, le_pack_attr, roundup8}
use viji_osc_osd.ListEntry.Multiobj.{length-set_htonll}
use viji_osc_osd.ListEntry.Within.{Within, Least, le_pack_attr-Within, le_pack_attr-Least}
use viji_osc_osd.Attr.{column_blob}
use viji_osc_osd.Attr.Bounds.{column_blob-Holds}
use viji_osc_osd.Store.{AttrRow}
use viji_osc_osd.Exec.{Exit, value}
use viji_osc_osd.Device.{add64}
use viji_osc_osd.Device.Attributes.{user_tmstmp_pg}
use viji_osc_osd.Device.ListedAttributes.{
  Listing, Round, close_list, close_open_list, continue_from, start_entry, open_entry, count_length,
  after_attr, without_room, packed_attr, list_row, finish_list, listing_after, after_round,
  list_rows, first_listing,
}

-- Where a loop with attributes leaves a list, it has at most `n` bytes, and the memory is as long as
-- before and the same behind these.
abbrev pub Bounded : ℕ → List ℕ → Exit (Option Listing) → Type 0
Bounded n mem (value (some t)) =
    (t.used_outlen ≤ n) × (length t.mem ≡ length mem) × (drop n t.mem ≡ drop n mem)
Bounded n mem r = Unit {0}

-- From `mem0` and a length on: what has been listed is within the length, and what is behind is as it
-- was.
module _ (mem0 : List ℕ) (out0 : ℕ) (lent : out0 ≤ length mem0) (small : out0 < 2 ^ 32) where
  abbrev Same : List ℕ → Type 0
  Same m = (length m ≡ length mem0) × (drop out0 m ≡ drop out0 mem0)

  record Inside (s : Listing) : Type 0 where
    pub room : s.tail + s.alloc_len ≡ out0
    pub counted : s.used_outlen ≡ s.tail
    pub same : Same s.mem
    pub linked : (s.head ≡ s.tail) ⊎ (s.head + 4 ≤ s.tail)

  written-Same :
      (off : ℕ) (src m : List ℕ) → off + length src ≤ out0 → Same m → Same (write_at off src m)
  written-Same off src m h (k, e) =
      (length-write_at off src m ∙ k, drop-write_at out0 off src m h ∙ e)

  close_list-Inside : (s : Listing) → Inside s → s.head + 4 ≤ s.tail → Inside (close_list s)
  unfolding close_list set_htonl_le
  close_list-Inside s i h = record {
    room = i.room;
    counted = i.counted;
    same = written-Same s.head (set_htonl s.attr_list_len) s.mem (omega (arith, i.room)) i.same;
    linked = inl refl;
  }

  continue_from-Inside : (oid : ℕ) (s : Listing) → Inside s → Inside (continue_from oid s)
  unfolding continue_from
  continue_from-Inside oid s i = elim (Bool-cases (s.cont_id == 0)) [
    | inl e ↦ rw e (record { room = i.room; counted = i.counted; same = i.same; linked = i.linked })
    | inr e ↦ rw e i
  ]

  close_open_list-Inside : (s : Listing) → Inside s → Inside (close_open_list s)
  unfolding close_open_list
  close_open_list-Inside s i = elim (Bool-cases (s.head == s.tail)) [
    | inl e ↦ rw e i
    | inr e ↦
        rw e (close_list-Inside s i (elim i.linked [ inl k ↦ absurd (ground arith) | inr k ↦ k ]))
  ]

  without_room-Inside : (oid : ℕ) (s : Listing) → Inside s → Inside (without_room oid s)
  unfolding without_room
  without_room-Inside oid s i = elim (Bool-cases (s.head == s.tail)) [
    | inl e ↦ rw e i
    | inr e ↦ rw e (
        continue_from-Inside oid (close_list s)
          (close_list-Inside s i (elim i.linked [ inl k ↦ absurd (ground arith) | inr k ↦ k ])))
  ]

  closed :
      (s : Listing) → let c = close_open_list s in (c.head ≡ c.tail) × (c.alloc_len ≡ s.alloc_len)
  unfolding close_open_list close_list
  closed s = elim (Bool-cases (s.head == s.tail)) [
    | inl e ↦ rw e (ground arith, refl)
    | inr e ↦ rw e (refl, refl)
  ]

  start_entry-Inside :
      (oid : ℕ) (s : Listing) → Inside s → 16 ≤ s.alloc_len → Inside (start_entry oid s)
  unfolding start_entry
  start_entry-Inside oid s i h =
      let m = write_at s.tail (set_htonll oid) s.mem in
      let w = record s { mem = write_at (s.tail + 8) (replicate 4 0) m } in
      let inside : Inside w = record {
        room = i.room;
        counted = i.counted;
        same = written-Same (s.tail + 8) (replicate 4 0) m (omega (arith, i.room)) (
            written-Same s.tail (set_htonll oid) s.mem
              (omega (arith, i.room, length-set_htonll oid)) i.same);
        linked = i.linked;
      } in
      let c = close_open_list-Inside w inside in
      let (at, room) = closed w in
      record {
        room = omega (arith, c.room, room, at);
        counted = omega (arith, c.room, c.counted, room, at);
        same = c.same;
        linked = inr (omega (arith, at));
      }

  open_entry-Inside : (oid : ℕ) (s : Listing) → Inside s → Inside (open_entry oid s)
  unfolding open_entry
  open_entry-Inside oid s i = elim (Bool-cases (leb 16 s.alloc_len)) [
    | inl e ↦ rw e (start_entry-Inside oid s i (ground arith))
    | inr e ↦ rw e (continue_from-Inside oid (close_open_list s) (close_open_list-Inside s i))
  ]

  abbrev Safe : Exit (Option Listing) → Type 0
  Safe = Bounded out0 mem0

  abbrev Sound : Round → Type 0
  Sound (Round.going t) = Inside t
  Sound (Round.ended t) = Inside t
  Sound (Round.left r) = Safe (value r)
  Sound Round.asserted = Unit {0}

  count_length-Sound : (n : ℕ) (s : Listing) → Inside s → Sound (count_length n s)
  unfolding count_length
  count_length-Sound n s i =
      let kept : (m : ℕ) → Inside (record s { add_len = m }) =
        λ m. record { room = i.room; counted = i.counted; same = i.same; linked = i.linked } in
      elim (Bool-cases (ltb s.add_len (add64 s.add_len n))) [
        | inl e ↦ rw e (kept (add64 s.add_len n))
        | inr e ↦ rw e (kept (2 ^ 64 - 1))
      ]

  after_attr-Inside :
      (oid n : ℕ) (s : Listing) (m : List ℕ)
      → Inside s
      → Same m
      → 16 ≤ n
      → n ≤ s.alloc_len
      → Inside (after_attr oid n (record s { mem = m }))
  unfolding after_attr
  after_attr-Inside oid n s m i same least fits =
      let moved : Listing = record s {
        mem = m;
        alloc_len = (s.alloc_len + 2 ^ 64 - n) % 2 ^ 64;
        tail = s.tail + n;
        attr_list_len = (s.attr_list_len + n) % 2 ^ 32;
        used_outlen = add64 s.used_outlen n;
      } in
      let linked : s.head + 4 ≤ s.tail + n = elim i.linked [
        | inl k ↦ omega arith
        | inr k ↦ omega arith
      ] in
      let inside : Inside moved = record {
        room = omega (arith, i.room);
        counted = omega (arith, i.room, i.counted);
        same = same;
        linked = inr linked;
      } in
      elim (Bool-cases (ltb ((s.alloc_len + 2 ^ 64 - n) % 2 ^ 64) 16)) [
        | inl e ↦
            rw e
              (continue_from-Inside oid (close_list moved) (close_list-Inside moved inside linked))
        | inr e ↦ rw e inside
      ]

  -- What was packed behind the entries before.
  joined :
      (s : Listing) (m : List ℕ)
      → Inside s
      → length m ≡ length (drop s.tail s.mem)
      → drop s.alloc_len m ≡ drop s.alloc_len (drop s.tail s.mem)
      → Same (take s.tail s.mem ++ m)
  joined s m i h k =
      let (size, behind) = i.same in
      let front : length (take s.tail s.mem) ≡ s.tail =
        omega (arith, length-take s.tail s.mem, i.room) in
      (
        omega (arith, length-append (take s.tail s.mem) m, length-drop s.tail s.mem, i.room),
        drop-past out0 s.alloc_len (take s.tail s.mem) m (omega (arith, i.room))
            ∙ k
            ∙ drop-drop s.alloc_len s.tail out0 s.mem i.room
            ∙ behind,
      )

  module _ (ndebug : Bool) (addr : ℕ) where
    packed_attr-Sound :
        (oid len : ℕ) (s : Listing) (w : PackResult × List ℕ)
        → Inside s
        → Within s.alloc_len (drop s.tail s.mem) w
        → Least w.0
        → Sound (packed_attr ndebug addr oid len s w)
    unfolding packed_attr
    packed_attr-Sound oid len s (packed zero, m) i h least = absurd (omega arith)
    packed_attr-Sound oid len s (packed (suc k), m) i (size, behind, fits) least =
        let after = record s { mem = take s.tail s.mem ++ m } in
        count_length-Sound (roundup8 (4 + 4 + 2 + len)) (after_attr oid (suc k) after) (
          after_attr-Inside oid (suc k) s (take s.tail s.mem ++ m) i (joined s m i size behind)
            least fits)
    packed_attr-Sound oid len s (einval, m) i h least = tt
    packed_attr-Sound oid len s (eoverflow, m) i h least = elim (Bool-cases ndebug) [
      | inl e ↦ rw e tt
      | inr e ↦ rw e tt
    ]
    packed_attr-Sound oid len s (aborted, m) i h least = tt

    list_row-Sound : (s : Listing) (r : AttrRow) → Inside s → Sound (list_row ndebug addr s r)
    unfolding list_row
    list_row-Sound s r i =
        let len = length r.value % 2 ^ 16 in
        let (size, _) = i.same in
        let whole : s.alloc_len % 2 ^ 32 ≡ s.alloc_len = omega (arith, i.room) in
        elim (Bool-cases (r.page == user_tmstmp_pg && r.number == 0)) [
          | inl e ↦ rw e (count_length-Sound 16 (open_entry r.oid s) (open_entry-Inside r.oid s i))
          | inr e ↦ elim (Bool-cases (leb 16 s.alloc_len)) [
            | inl roomy ↦
                rw (e, roomy, whole)
                  (packed_attr-Sound r.oid len s
                    (le_pack_attr (addr + s.tail) (drop s.tail s.mem) s.alloc_len r.page r.number
                      len (column_blob r.value))
                    i
                    (le_pack_attr-Within (addr + s.tail) (drop s.tail s.mem) s.alloc_len r.page
                      r.number len (column_blob r.value)
                      (omega (arith, length-drop s.tail s.mem, i.room)) (column_blob-Holds r.value))
                    (le_pack_attr-Least (addr + s.tail) (drop s.tail s.mem) s.alloc_len r.page
                      r.number len (column_blob r.value)))
            | inr full ↦
                rw (e, full)
                  (count_length-Sound (roundup8 (4 + 4 + 2 + len)) (without_room r.oid s)
                    (without_room-Inside r.oid s i))
          ]
        ]

    finish_list-Safe : (s : Listing) → Inside s → Safe (finish_list ndebug addr s)
    unfolding finish_list set_htonl_le
    finish_list-Safe s i =
        let used : s.used_outlen ≤ out0 = omega (arith, i.room, i.counted) in
        let (size, behind) = i.same in
        elim (Bool-cases (s.head == s.tail)) [
          | inl e ↦ rw e (used, size, behind)
          | inr e ↦
              elim (Bool-cases (ndebug || s.head + (4 + s.attr_list_len) % 2 ^ 32 == s.tail)) [
                | inl ok ↦
                    let linked : s.head + 4 ≤ s.tail = elim i.linked [
                      | inl k ↦ absurd (ground arith)
                      | inr k ↦ k
                    ] in
                    let (size', behind') =
                      written-Same s.head (set_htonl s.attr_list_len) s.mem (omega (arith, i.room))
                        i.same in
                    rw (e, ok) (used, size', behind')
                | inr bad ↦ rw (e, bad) tt
              ]
        ]

    listing_after-Inside :
        (s : Listing) (x : Round) → Inside s → Sound x → Inside (listing_after ndebug addr s x)
    unfolding listing_after
    listing_after-Inside s (Round.going t) i h = h
    listing_after-Inside s (Round.ended t) i h = i
    listing_after-Inside s (Round.left r) i h = i
    listing_after-Inside s Round.asserted i h = i

    after_round-Safe :
        (x : Round) (rest : Exit (Option Listing))
        → Sound x
        → Safe rest
        → Safe (after_round ndebug addr x rest)
    unfolding after_round
    after_round-Safe (Round.going t) rest h safe = safe
    after_round-Safe (Round.ended t) rest h safe = finish_list-Safe t h
    after_round-Safe (Round.left r) rest h safe = h
    after_round-Safe Round.asserted rest h safe = tt

    lists : (s : Listing) (a : Answers AttrRow) → Inside s → Safe (list_rows ndebug addr s a)
    unfolding list_rows
    lists s unbound i = tt
    lists s done i = finish_list-Safe s i
    lists s failed i = tt
    lists s (busy rest) i = lists s rest i
    lists s (row r rest) i =
        let x = list_row ndebug addr s r in
        let h = list_row-Sound s r i in
        let next = listing_after ndebug addr s x in
        after_round-Safe x (list_rows ndebug addr next rest) h
          (lists next rest (listing_after-Inside s x i h))
    lists s (schema up rest) i = tt

-- Whatever sqlite3 answers, the loop that lists attributes into a buffer that lends `alloc_len` bytes,
-- below 2 ^ 32, counts at most these as used where it ends without an error, and then keeps the buffer's
-- length and every byte behind them.
pub list_rows-bounds :
    (ndebug : Bool) (addr alloc_len : ℕ) (outdata : List ℕ) (a : Answers AttrRow)
    → alloc_len ≤ length outdata
    → alloc_len < 2 ^ 32
    → Bounded alloc_len outdata (list_rows ndebug addr (first_listing outdata alloc_len 0) a)
list_rows-bounds ndebug addr alloc_len outdata a lent small =
    lists outdata alloc_len lent small ndebug addr (first_listing outdata alloc_len 0) a
      (record { room = omega arith; counted = refl; same = (refl, refl); linked = inl refl })
