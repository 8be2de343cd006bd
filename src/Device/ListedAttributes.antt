-- ===== src/Device/ListedAttributes.antt =====
-- `mtq_list_oids_attr` of osd-target/mtq.c: the user objects of a partition with the attributes that are
-- asked for. Memory that is asked for is found.
pub mod Bounds
use viji_osc_osd.Base.{
  ℕ, zero, suc, ◌+◌, ◌-◌, ◌%◌, ◌^◌, Bool, ◌&&◌, ◌||◌, Option, none, some, List, [], ◌∷◌, ◌++◌,
  length, take, drop, replicate, ltb, leb, ◌==◌, if◌then◌else◌,
}
use viji_osc_osd.Base.Bytes.{write_at}
use viji_osc_osd.Wire.{set_htonl, set_htonll}
use viji_osc_osd.Db.{Answers, unbound, done, failed, busy, row, schema}
use viji_osc_osd.ListEntry.{PackResult, einval, eoverflow, aborted, packed, le_pack_attr, roundup8}
use viji_osc_osd.Attr.{column_blob}
use viji_osc_osd.Store.{Sqlite, AttrRow, Query}
use viji_osc_osd.Exec.{Exit, value, unfinished}
use viji_osc_osd.Device.{add64}
use viji_osc_osd.Device.Attributes.{user_tmstmp_pg}

-- The variables of the loop over the rows: the memory from `outdata` on, how far `head` and `tail` are
-- in it, `alloc_len`, `attr_list_len`, `*used_outlen`, `*add_len` and `*cont_id`.
pub record Listing : Type 0 where
  pub mem : List ℕ
  pub head : ℕ
  pub tail : ℕ
  pub alloc_len : ℕ
  pub attr_list_len : ℕ
  pub used_outlen : ℕ
  pub add_len : ℕ
  pub cont_id : ℕ

-- `*used_outlen` holds `used` before, `*add_len` and `*cont_id` are 0.
abbrev pub first_listing : List ℕ → ℕ → ℕ → Listing
first_listing outdata alloc_len used = record {
  mem = outdata;
  head = 0;
  tail = 0;
  alloc_len = alloc_len;
  attr_list_len = 0;
  used_outlen = used;
  add_len = 0;
  cont_id = 0;
}

-- A round of the loop: it goes on; it ends the loop as if there were no more rows; it returns, with
-- `none` for an error; or an assertion fails.
data Round : Type 0 where
  going ended : Listing → Round
  left : Option Listing → Round
  asserted : Round

-- The length is put in front of the attributes of the entry before.
close_list : Listing → Listing
close_list s = record s {
  mem = write_at s.head (set_htonl s.attr_list_len) s.mem;
  head = s.tail;
  attr_list_len = 0;
}

close_open_list : Listing → Listing
close_open_list s = if s.head == s.tail then s else close_list s

continue_from : ℕ → Listing → Listing
continue_from oid s = if s.cont_id == 0 then record s { cont_id = oid } else s

-- The header of an object's entry. `head` is left where its length belongs.
start_entry : ℕ → Listing → Listing
start_entry oid s =
    let written = write_at (s.tail + 8) (replicate 4 0) (write_at s.tail (set_htonll oid) s.mem) in
    let c = close_open_list (record s { mem = written }) in
    record c {
      alloc_len = c.alloc_len - 16;
      tail = c.tail + 16;
      head = c.head + 12;
      used_outlen = add64 c.used_outlen 16;
    }

open_entry : ℕ → Listing → Listing
open_entry oid s =
    if leb 16 s.alloc_len then start_entry oid s else continue_from oid (close_open_list s)

-- The end of a round, which ends the loop where `*add_len` overflows.
count_length : ℕ → Listing → Round
count_length n s =
    if ltb s.add_len (add64 s.add_len n)
    then going (record s { add_len = add64 s.add_len n })
    else ended (record s { add_len = 2 ^ 64 - 1 })

-- Behind an attribute of `n` bytes.
after_attr : ℕ → ℕ → Listing → Listing
after_attr oid n s =
    let moved = record s {
      alloc_len = (s.alloc_len + 2 ^ 64 - n) % 2 ^ 64;
      tail = s.tail + n;
      attr_list_len = (s.attr_list_len + n) % 2 ^ 32;
      used_outlen = add64 s.used_outlen n;
    } in
    if ltb moved.alloc_len 16 then continue_from oid (close_list moved) else moved

-- An attribute that finds no room.
without_room : ℕ → Listing → Listing
without_room oid s = if s.head == s.tail then s else continue_from oid (close_list s)

-- `ndebug` says whether assertions are compiled out, and `addr` is the address of `outdata`.
module _ (ndebug : Bool) (addr : ℕ) where
  -- What `le_pack_attr` returned for a value of `len` bytes, and what it left behind `tail`.
  packed_attr : ℕ → ℕ → Listing → PackResult × List ℕ → Round
  packed_attr oid len s (packed zero, rest) = left (some s)
  packed_attr oid len s (packed (suc k), rest) =
      count_length (roundup8 (4 + 4 + 2 + len))
        (after_attr oid (suc k) (record s { mem = take s.tail s.mem ++ rest }))
  packed_attr oid len s (einval, rest) = left none
  packed_attr oid len s (eoverflow, rest) = if ndebug then left none else asserted
  packed_attr oid len s (aborted, rest) = asserted

  -- The first SELECT finds the rows that begin an object's entry.
  list_row : Listing → AttrRow → Round
  list_row s r =
      let len = length r.value % 2 ^ 16 in
      if r.page == user_tmstmp_pg && r.number == 0
      then count_length 16 (open_entry r.oid s)
      else if leb 16 s.alloc_len
      then packed_attr r.oid len s (
          le_pack_attr (addr + s.tail) (drop s.tail s.mem) (s.alloc_len % 2 ^ 32) r.page r.number
            len (column_blob r.value))
      else count_length (roundup8 (4 + 4 + 2 + len)) (without_room r.oid s)

  -- Behind the loop: the last length, and the assertion that the entry ends with its attributes.
  finish_list : Listing → Exit (Option Listing)
  finish_list s =
      if s.head == s.tail
      then value (some s)
      else if ndebug || s.head + (4 + s.attr_list_len) % 2 ^ 32 == s.tail
      then value (some (record s { mem = write_at s.head (set_htonl s.attr_list_len) s.mem }))
      else unfinished

  listing_after : Listing → Round → Listing
  listing_after s (going t) = t
  listing_after s r = s

  -- `rest` is what the rows behind do.
  after_round : Round → Exit (Option Listing) → Exit (Option Listing)
  after_round (going t) rest = rest
  after_round (ended t) rest = finish_list t
  after_round (left r) rest = value r
  after_round asserted rest = unfinished

  -- `none` where the statement cannot be prepared or its last step is not SQLITE_DONE. The loop is not
  -- run again when the schema has changed.
  pub list_rows : Listing → Answers AttrRow → Exit (Option Listing)
  list_rows s unbound = value none
  list_rows s done = finish_list s
  list_rows s failed = value none
  list_rows s (busy rest) = list_rows s rest
  list_rows s (row r rest) =
      let round = list_row s r in after_round round (list_rows (listing_after s round) rest)
  list_rows s (schema up rest) = value none

  module _ (q : Sqlite) where
    -- `none` is an error.
    pub mtq_list_oids_attr :
        ℕ → ℕ → List (ℕ × ℕ) → ℕ → List ℕ → ℕ → q.Conn → Exit (Option Listing) × q.Conn
    mtq_list_oids_attr pid initial_oid [] alloc_len outdata used c = (value none, c)
    mtq_list_oids_attr pid initial_oid (e ∷ entries) alloc_len outdata used c =
        let (answers, c') =
          q.fetch (Query.list_oids_attr pid initial_oid ((user_tmstmp_pg, 0) ∷ (e ∷ entries))) c in
        (list_rows (first_listing outdata alloc_len used) answers, c')
