-- ===== src/Examples.antt =====
-- The theorems at concrete inputs where their hypotheses hold.
pub mod Commands
pub mod Submitted
pub mod Attributes
use viji_osc_osd.Base.{
  ℕ, ◌+◌, ◌-◌, ◌*◌, ◌^◌, ◌%◌, ◌/◌, ◌≡◌, ◌≢◌, ◌≤◌, ◌<◌, ◌⊎◌, ◌↔◌, refl, inl, inr, true, false, none,
  some, [], ◌∷◌, ◌++◌, replicate, drop, take, length, any, arith, ◌&&◌, ◌==◌, if◌then◌else◌,
}
use viji_osc_osd.Wire.{
  get_ntohs_le, get_ntohl_le, get_ntohll_le, get_ntohs_be, get_ntohl_be, get_ntohll_be,
  get_ntohtime_le, get_ntohtime_be, set_htons_le, set_htonl_le, set_htonll_le, set_htontime_le,
  get_ntohll, set_htonll,
}
use viji_osc_osd.Wire.RoundTrip.{get-set_wrap, le-eq-be}
use viji_osc_osd.Sense.{sense_build_sdd, sense_build_sdd_csi, sense_basic_build}
use viji_osc_osd.Sense.Layout.{Identifies, sense_build_sdd_lem, sense_build_sdd_csi_lem}
use viji_osc_osd.Offset.{get_ntohoffset, set_htonoffset}
use viji_osc_osd.Offset.RoundTrip.{get_ntohoffset-set_htonoffset}
use viji_osc_osd.ListEntry.{
  le_pack_attr, le_multiobj_pack_attr, packed, einval, eoverflow, aborted, copied_len,
}
use viji_osc_osd.ListEntry.Pack.{entry, le_pack_attr_lem}
use viji_osc_osd.ListEntry.Multiobj.{le_multiobj_pack_attr_lem}
use viji_osc_osd.Page.{userobject_pg, any_pg, issettable_page, isgettable_page}
use viji_osc_osd.Page.Ranges.{pages_lem}
use viji_osc_osd.Store.{
  Tables, Small, userobject, partition, collection, partition_oid, obj_at, coll_at, attr_at,
  without,
}
use viji_osc_osd.Exec.{Post}
use viji_osc_osd.Memory.{memory, memory-Behaves, memory-Removable, no_files}
use viji_osc_osd.Device.{Device, no_ids}
use viji_osc_osd.Device.Calls.{At}
use viji_osc_osd.Device.Create.{osd_create_partition, osd_create, osd_create_collection}
use viji_osc_osd.Device.Create.Objects.Whole.{Made, Refused, created_count, osd_create_lem}
use viji_osc_osd.Device.Create.Others.{Collected, Uncollected, osd_create_collection_lem}
use viji_osc_osd.Device.Create.Partition.{Parted, Unparted, osd_create_partition_lem}
use viji_osc_osd.Device.Remove.{osd_remove, osd_remove_partition, osd_remove_collection}
use viji_osc_osd.Device.Remove.Rows.{without_object, Unremoved, osd_remove_lem}
use viji_osc_osd.Device.Remove.Containers.{
  Same, inside, without_collection, osd_remove_partition_lem, osd_remove_collection_lem,
}
use viji_osc_osd.Offset.Truncation.{
  get_ntohoffset-set_htonoffset_cut, get_ntohoffset-set_htonoffset_wrong,
}
use viji_osc_osd.Db.{
  Answers, done, busy, row, schema, osd_ok, osd_error, db_exec_id_rtrvl_stmt, start,
}
use viji_osc_osd.Db.Retrieval.{last_rows, summary, db_exec_id_rtrvl_stmt_lem}
use viji_osc_osd.Store.Coll.{coll_copyoids}
use viji_osc_osd.Store.Copied.{Copied, coll_copyoids_lem}

-- A partition with two objects and a collection that has one of them, and an empty partition.
abbrev tables : Tables
tables = record {
  obj =
      record { pid = 0x10000; oid = 0x10000; type = userobject }
      ∷ record { pid = 0x10000; oid = 0x10001; type = userobject }
      ∷ record { pid = 0x10000; oid = 0x10002; type = collection }
      ∷ record { pid = 0x10000; oid = 0; type = partition }
      ∷ record { pid = 0x10001; oid = 0; type = partition }
      ∷ [];
  coll = record { pid = 0x10000; cid = 0x10002; oid = 0x10001; number = 1 } ∷ [];
  attr = [];
}

abbrev device : Device memory no_files
device = record {
  conn = tables;
  fs = tt;
  ic = no_ids;
  ccap = record { obj_type = 0; pid = 0; oid = 0; append_off = 0 };
}

tables-Small : Small tables
tables-Small = (
  (omega arith, omega arith),
  (
    (omega arith, omega arith),
    ((omega arith, omega arith), ((omega arith, omega arith), ((omega arith, omega arith), tt))),
  ),
)

osd_create_example :
    Post
      (λ _. Made memory-Behaves 0x10000 0 (created_count 3) tables)
      (Refused memory-Behaves 0x10000 0 tables)
      (osd_create 0x10000 0 3 device)
unfolding memory-Behaves
osd_create_example =
    osd_create_lem memory-Behaves memory-Removable 0x10000 0 3 device
      (inr (omega arith), (inr (omega arith), (inr (omega arith), (inl refl, (inl refl, tt)))))
      tables-Small (inl refl) (omega arith) (omega arith) (omega arith)

osd_remove_example :
    Post
      (λ _ d'.
        At no_files memory-Behaves (without_object 0x10000 0x10001 tables) (λ ic. ic.cur_pid ≡ 0) d'
        × (d'.ccap
            ≡ record { obj_type = userobject; pid = 0x10000; oid = 0x10001; append_off = 0 }))
      (Unremoved memory-Behaves 0x10000 0x10001 device)
      (osd_remove 0x10000 0x10001 device)
unfolding memory-Behaves
osd_remove_example = osd_remove_lem memory-Behaves 0x10000 0x10001 device

osd_create_collection_example :
    Post
      (λ _. Collected memory-Behaves 0x10000 0x10007 tables)
      (Uncollected memory-Behaves tables)
      (osd_create_collection 0x10000 0x10007 device)
unfolding memory-Behaves
osd_create_collection_example =
    osd_create_collection_lem memory-Behaves 0x10000 0x10007 device
      (inr (omega arith), (inr (omega arith), (inr (omega arith), (inl refl, (inl refl, tt)))))
      tables-Small (inl refl) (omega arith) (omega arith)

osd_remove_partition_example :
    Post
      (λ _ d'.
        At no_files memory-Behaves
          (record tables {
            obj = without (obj_at 0x10001 partition_oid) tables.obj;
            attr = without (attr_at 0x10001 partition_oid) tables.attr;
          })
          (λ ic. ic.cur_pid ≡ 0)
          d'
        × (any (inside 0x10001) tables.obj ≡ false))
      (Same memory-Behaves tables)
      (osd_remove_partition 0x10001 device)
unfolding memory-Behaves
osd_remove_partition_example =
    osd_remove_partition_lem memory-Behaves 0x10001 device tables-Small (omega arith)

osd_remove_collection_example :
    Post
      (λ _ d'.
        At no_files memory-Behaves
          (without_collection 0x10000 0x10002 tables)
          (λ ic. ic.cur_pid ≡ 0)
          d'
        × ((◌≢◌ {A = ℕ} 1 0) ⊎ (any (coll_at 0x10000 0x10002) tables.coll ≡ false)))
      (Same memory-Behaves tables)
      (osd_remove_collection 0x10000 0x10002 1 device)
unfolding memory-Behaves
osd_remove_collection_example =
    osd_remove_collection_lem memory-Behaves 0x10000 0x10002 1 device tables-Small (omega arith)

-- A five-byte value in a buffer of 32 bytes, of which 24 are lent.
le_pack_attr_example :
    let e =
      entry 1 9 5
        (take (copied_len 8 5 (some (1 ∷ 2 ∷ 3 ∷ 4 ∷ 5 ∷ []))) (1 ∷ 2 ∷ 3 ∷ 4 ∷ 5 ∷ [])) in
    (le_pack_attr 8 (replicate 32 7) 24 1 9 5 (some (1 ∷ 2 ∷ 3 ∷ 4 ∷ 5 ∷ []))
      ≡ (packed (length e), e ++ drop (length e) (replicate 32 7)))
    × (length e ≤ 24)
    × (length e % 8 ≡ 0)
le_pack_attr_example =
    le_pack_attr_lem 8 (replicate 32 7) 24 1 9 5 (some (1 ∷ 2 ∷ 3 ∷ 4 ∷ 5 ∷ [])) refl refl
      (omega arith) (omega arith) (omega arith)

le_multiobj_example :
    let e = entry 1 9 2 (take (copied_len (32 - 8 - 16) 2 (some (1 ∷ 2 ∷ []))) (1 ∷ 2 ∷ [])) in
    (le_multiobj_pack_attr true 8 (replicate 40 7) 32 0x10004 1 9 2 (some (1 ∷ 2 ∷ []))
      ≡ (packed (8 + length e), set_htonll 0x10004 ++ e ++ drop (8 + length e) (replicate 40 7)))
    × (8 + length e ≤ 32)
le_multiobj_example =
    le_multiobj_pack_attr_lem 8 (replicate 40 7) 32 0x10004 1 9 2 (some (1 ∷ 2 ∷ [])) refl refl
      (omega arith) (omega arith) (omega arith)

offset_example : get_ntohoffset (set_htonoffset (5 * 2 ^ 9 * 2 ^ 3) ++ 1 ∷ []) ≡ 5 * 2 ^ 9 * 2 ^ 3
offset_example =
    get_ntohoffset-set_htonoffset 5 9 (1 ∷ []) (omega arith) (omega arith) (omega arith)

getters_example :
    (get_ntohs_le (set_htons_le 0x123456789ABCDEF01 ++ 7 ∷ []) ≡ 0x123456789ABCDEF01 % 2 ^ 16)
    × (get_ntohl_le (set_htonl_le 0x123456789ABCDEF01 ++ 7 ∷ []) ≡ 0x123456789ABCDEF01 % 2 ^ 32)
    × (get_ntohll_le (set_htonll_le 0x123456789ABCDEF01 ++ 7 ∷ []) ≡ 0x123456789ABCDEF01 % 2 ^ 64)
getters_example = get-set_wrap 0x123456789ABCDEF01 (7 ∷ [])

byte_orders_example :
    (get_ntohs_le (1 ∷ 2 ∷ 255 ∷ []) ≡ get_ntohs_be (1 ∷ 2 ∷ 255 ∷ []))
    × (get_ntohl_le (1 ∷ 2 ∷ 255 ∷ []) ≡ get_ntohl_be (1 ∷ 2 ∷ 255 ∷ []))
    × (get_ntohll_le (1 ∷ 2 ∷ 255 ∷ []) ≡ get_ntohll_be (1 ∷ 2 ∷ 255 ∷ []))
    × (get_ntohtime_le (1 ∷ 2 ∷ 255 ∷ []) ≡ get_ntohtime_be (1 ∷ 2 ∷ 255 ∷ []))
byte_orders_example = le-eq-be (1 ∷ 2 ∷ 255 ∷ []) (omega arith, (omega arith, (omega arith, tt)))

sense_example :
    let r = sense_build_sdd (replicate 64 9) 5 0x2400 0x10000 0x10001 in
    (r.0 ≡ 8 + 32)
    × Identifies r.1 32 5 0x2400 0x10000 0x10001
    × (drop 40 r.1 ≡ drop 40 (replicate 64 9))
    × (sense_basic_build (replicate 64 9) 5 0x2400 0x10000 0x10001 ≡ r)
sense_example =
    sense_build_sdd_lem 5 0x2400 0x10000 0x10001 (omega arith) (omega arith) (replicate 64 9)
      (omega arith)

sense_csi_example :
    let r = sense_build_sdd_csi (replicate 64 9) 1 0x3B17 0x10000 0x10001 77 in
    (r.0 ≡ 8 + 44)
    × Identifies r.1 44 1 0x3B17 0x10000 0x10001
    × (get_ntohll (drop 44 r.1) ≡ 77)
    × (drop 52 r.1 ≡ drop 52 (replicate 64 9))
sense_csi_example =
    sense_build_sdd_csi_lem 1 0x3B17 0x10000 0x10001 (omega arith) (omega arith) 77 (replicate 64 9)
      (omega arith) (omega arith)

pages_example :
    ((issettable_page userobject 0x10001 ≡ true) ↔ (
      (any_pg ≤ 0x10001)
      ⊎ ((userobject_pg ≤ 0x10001) × (0x10001 < userobject_pg + 0x80))
      ⊎ ((userobject_pg + 0x10000 ≤ 0x10001) × (0x10001 < userobject_pg + 0x20000000))))
    × ((isgettable_page userobject 0x10001 ≡ true) ↔ (
        (any_pg ≤ 0x10001)
        ⊎ ((userobject_pg ≤ 0x10001) × (0x10001 < userobject_pg + 0x80))
        ⊎ ((userobject_pg + 0x8000 ≤ 0x10001) × (0x10001 < userobject_pg + 0x30000000))))
pages_example = pages_lem userobject userobject_pg 0x10001 (inl (refl, refl)) (omega arith)

offset_cut_example :
    (get_ntohoffset (set_htonoffset (2 ^ 40 + 1) ++ []) ≤ 2 ^ 40 + 1)
    × (2 ^ 40 + 1 < get_ntohoffset (set_htonoffset (2 ^ 40 + 1) ++ []) + 2 ^ 15)
offset_cut_example =
    get_ntohoffset-set_htonoffset_cut (2 ^ 40 + 1) [] (omega arith) (inr (omega arith))

offset_wrong_example :
    (get_ntohoffset (set_htonoffset (2 ^ 43) ++ []) * 2 ^ 16 ≤ 2 ^ 43)
    × (2 ^ 43 < get_ntohoffset (set_htonoffset (2 ^ 43) ++ []) * 2 ^ 16 + 2 ^ 23)
offset_wrong_example = get_ntohoffset-set_htonoffset_wrong (2 ^ 43) [] (omega arith) (omega arith)

-- A statement that is stale after its first row, and then waits once and has three rows.
abbrev answers : Answers ℕ
answers = row 5 (schema true (busy (row 6 (row 7 (row 8 done)))))

ids_example :
    (db_exec_id_rtrvl_stmt 20 start answers ≡ (
      if (last_rows [] answers).1 then osd_ok else osd_error,
      summary (20 / 8) (last_rows [] answers).0,
    ))
    × ((db_exec_id_rtrvl_stmt 20 start answers).1.len ≤ 20)
ids_example =
    db_exec_id_rtrvl_stmt_lem 20 answers (omega arith) (omega arith)
      (omega arith, (omega arith, (omega arith, (omega arith, tt))))

-- The member 0x10001 was copied into the collection 0x10002, and is copied on into 0x10003.
abbrev copied_tables : Tables
copied_tables = record tables {
  coll = record { pid = 0x10000; cid = 0x10002; oid = 0x10001; number = 0 } ∷ [];
}

coll_copyoids_example :
    let (r, t') = coll_copyoids memory 0x10000 0x10003 0x10002 copied_tables in
    ((r ≡ osd_ok) × Copied 0x10000 0x10003 0x10002 copied_tables.coll t'.coll)
    ⊎ ((r ≡ osd_error) × (t' ≡ copied_tables))
unfolding memory-Behaves
coll_copyoids_example =
    coll_copyoids_lem memory-Behaves 0x10000 0x10003 0x10002 copied_tables (omega arith)

osd_create_partition_example :
    Post
      (λ _. Parted memory-Behaves 0 tables)
      (Unparted memory-Behaves tables device.ic)
      (osd_create_partition 0 device)
unfolding memory-Behaves
osd_create_partition_example = osd_create_partition_lem memory-Behaves 0 device tables-Small
