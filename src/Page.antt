-- ===== src/Page.antt =====
-- Which attribute pages can be set and read: the tests of osd-target/osd.c, with the page numbers of
-- osd-util/osd-defs.h. An `int` is its 32 bits, so that a comparison of two is one with the sign bit
-- turned over.
pub mod Ranges
use viji_osc_osd.Base.{
  ℕ, ◌+◌, ◌-◌, ◌%◌, ◌^◌, Bool, true, false, not, ◌&&◌, ◌||◌, ltb, leb, ◌==◌, if◌then◌else◌,
}
use viji_osc_osd.Store.{userobject, collection, partition, root}

abbrev pub userobject_pg : ℕ
userobject_pg = 0x0

abbrev pub partition_pg : ℕ
partition_pg = 0x30000000

abbrev pub collection_pg : ℕ
collection_pg = 0x60000000

abbrev pub root_pg : ℕ
root_pg = 0x90000000

abbrev reserved_pg : ℕ
reserved_pg = 0xC0000000

abbrev pub any_pg : ℕ
any_pg = 0xF0000000

abbrev leb_int : ℕ → ℕ → Bool
leb_int a b = leb ((a + 2 ^ 31) % 2 ^ 32) ((b + 2 ^ 31) % 2 ^ 32)

abbrev sub32 : ℕ → ℕ → ℕ
sub32 a b = (a + 2 ^ 32 - b) % 2 ^ 32

pub get_rel_page : ℕ → ℕ → ℕ
get_rel_page obj_type page =
    if obj_type == root
    then sub32 page root_pg
    else if obj_type == partition
    then sub32 page partition_pg
    else if obj_type == collection
    then sub32 page collection_pg
    else if obj_type == userobject
    then sub32 page userobject_pg
    else 2 ^ 32 - 1

pub check_valid_pg : ℕ → ℕ → Bool
check_valid_pg obj_type page =
    if obj_type == userobject
    then ltb page partition_pg
    else if obj_type == collection
    then leb collection_pg page && ltb page root_pg
    else if obj_type == partition
    then leb partition_pg page && ltb page collection_pg
    else if obj_type == root
    then leb root_pg page && ltb page reserved_pg
    else false

-- STD_PG_LB to STD_PG_UB, and LUN_PG_LB to LUN_PG_UB.
pub issettable_page : ℕ → ℕ → Bool
issettable_page obj_type page =
    if not (check_valid_pg obj_type page)
    then leb any_pg page
    else (let rel_page = get_rel_page obj_type page in
        leb_int 0x0 rel_page && leb_int rel_page 0x7F
        || leb_int 0x10000 rel_page && leb_int rel_page 0x1FFFFFFF)

-- RSRV_PG_LB to RSRV_PG_UB, and VEND_PG_UB.
pub isgettable_page : ℕ → ℕ → Bool
isgettable_page obj_type page =
    if not (check_valid_pg obj_type page)
    then leb any_pg page
    else (let rel_page = get_rel_page obj_type page in
        not (leb_int 0x80 rel_page && leb_int rel_page 0x7FFF || not (leb_int rel_page 0x2FFFFFFF)))
