-- ===== src/ListEntry.antt =====
-- The attribute list entries of osd-target/list-entry.c, with the layout of `struct list_entry` in
-- osd-target/osd-types.h on a machine with 8-byte pointers.
pub mod Pack
pub mod Multiobj
pub mod Within
use viji_osc_osd.Base.{
  ℕ, ◌+◌, ◌-◌, ◌*◌, ◌/◌, ◌%◌, Bool, true, false, not, ◌&&◌, ◌||◌, Option, none, some, List, [],
  take, drop, replicate, ltb, ◌==◌, if◌then◌else◌, ◌++◌,
}
use viji_osc_osd.Base.Bytes.{write_at}
use viji_osc_osd.Wire.{set_htons, set_htonl, set_htonll}

-- Offsets of the fields of `struct list_entry`.
abbrev pub le_page_off : ℕ
le_page_off = 0

abbrev pub le_number_off : ℕ
le_number_off = 4

abbrev le_reserved_off : ℕ
le_reserved_off = 8

abbrev pub le_len_off : ℕ
le_len_off = 14

abbrev pub le_val_off : ℕ
le_val_off = 16

-- `struct multiobj_list_entry` has no reserved bytes: oid, page, number, len, and then the value.
abbrev mle_page_off : ℕ
mle_page_off = 8

abbrev mle_val_off : ℕ
mle_val_off = 18

abbrev mle_min_item_len : ℕ
mle_min_item_len = (le_val_off + 7) / 8 * 8

abbrev pub roundup8 : ℕ → ℕ
roundup8 x = (x + 7) / 8 * 8

-- What the packing functions return: -EINVAL, -EOVERFLOW, a number of bytes, or no return at all
-- when an assertion fails.
pub data PackResult : Type 0 where
  einval eoverflow aborted : PackResult
  packed : ℕ → PackResult

-- How many bytes of the value are copied: `valen`, cut down to the room behind the header, or none
-- for a null pointer.
abbrev pub copied_len : ℕ → ℕ → Option (List ℕ) → ℕ
copied_len room valen none = 0
copied_len room valen (some val) = if ltb room valen then room else valen

abbrev pub bytes_at : Option (List ℕ) → List ℕ
bytes_at none = []
bytes_at (some val) = val

-- The writes of a call that finds room: the header, `n` bytes of the value, and the padding.
le_fill : List ℕ → ℕ → ℕ → ℕ → ℕ → List ℕ → PackResult × List ℕ
le_fill buf page number valen n val =
    let len = n + le_val_off in
    let pad = roundup8 len - len in
    (
      packed (len + pad),
      write_at len (replicate pad 0) (
          write_at le_val_off (take n val) (
            write_at le_reserved_off (replicate 6 0) (
              write_at le_len_off (set_htons valen) (
                write_at le_number_off (set_htonl number)
                  (write_at le_page_off (set_htonl page) buf))))),
    )

-- `buf` is the memory at the address `addr`, of which the caller lends the first `buflen` bytes, and
-- `val` the memory that the pointer `val` shows, unless it is null.
pub le_pack_attr : ℕ → List ℕ → ℕ → ℕ → ℕ → ℕ → Option (List ℕ) → PackResult × List ℕ
le_pack_attr addr buf buflen page number valen val =
    if not (buflen % 8 == 0) || not (addr % 8 == 0)
    then (einval, buf)
    else if ltb buflen le_val_off
    then (eoverflow, buf)
    else le_fill buf page number valen (copied_len (buflen - le_val_off) valen val) (bytes_at val)

-- The number that a positive result is, with the 8 bytes of the object identifier added.
abbrev after_oid : PackResult → PackResult
after_oid (packed n) = packed (mle_page_off + n)
after_oid r = r

-- `ndebug` says whether the file was compiled with -DNDEBUG, which drops assertions.
pub le_multiobj_pack_attr :
    Bool → ℕ → List ℕ → ℕ → ℕ → ℕ → ℕ → ℕ → Option (List ℕ) → PackResult × List ℕ
le_multiobj_pack_attr ndebug addr buf buflen oid page number valen val =
    if ltb buflen mle_min_item_len
    then (eoverflow, buf)
    else let buf' = write_at 0 (set_htonll oid) buf in
      if ndebug || mle_val_off == le_val_off + 8
      then (let (r, rest) =
            le_pack_attr (addr + 8) (drop 8 buf') (buflen - 8) page number valen val in
          (after_oid r, take 8 buf' ++ rest))
      else (aborted, buf')
