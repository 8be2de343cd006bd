-- ===== src/Examples/Attributes.antt =====
-- The theorems on attributes and queries at concrete inputs where their hypotheses hold.
use viji_osc_osd.Base.{
  ◌≡◌, refl, some, ◌+◌, ◌*◌, inl, inr, true, false, [], ◌∷◌, ◌++◌, replicate, length, drop, take,
  ◌==◌, if◌then◌else◌, arith,
}
use viji_osc_osd.Base.Bytes.{write_at}
use viji_osc_osd.Wire.{set_htonll}
use viji_osc_osd.Db.{Answers, done, busy, row}
use viji_osc_osd.Exec.{value, unfinished, Post, ◌>>◌}
use viji_osc_osd.ListEntry.Pack.{entry}
use viji_osc_osd.Store.{Tables, AttrRow, userobject, partition}
use viji_osc_osd.Memory.{memory, memory-Behaves, memory-Fetches, no_files}
use viji_osc_osd.Attr.{rtrvd_set_attr_list}
use viji_osc_osd.Device.{Device, no_ids, add64}
use viji_osc_osd.Device.Atomics.{osd_cas, osd_fa, load64, uap_cas, uap_fa}
use viji_osc_osd.Device.Atomics.Register.{Holds, Besides}
use viji_osc_osd.Device.Atomics.Steps.{Keeps, Fails}
use viji_osc_osd.Device.Atomics.Operations.{osd_cas_lem, osd_fa_lem}
use viji_osc_osd.Device.ListedAttributes.{list_rows, first_listing}
use viji_osc_osd.Device.ListedAttributes.Bounds.{Bounded, list_rows-bounds}
use viji_osc_osd.Device.Queries.{Found, query_rows, first_found}
use viji_osc_osd.Device.Queries.Overrun.{listed, packed_ids, query_rows-overruns, query_rows-fits}
use viji_osc_osd.Device.Attributes.Getting.{osd_getattr_list}
use viji_osc_osd.Device.Attributes.Setting.{osd_set_attributes}
use viji_osc_osd.Device.Attributes.Own.{Refused}
use viji_osc_osd.Device.Attributes.RoundTrip.{osd_set_attributes-osd_getattr_list}

-- A partition with an object whose register for compare and swap holds 7.
abbrev atomic : Tables
atomic = record {
  obj =
      record { pid = 0x10000; oid = 0x10001; type = userobject }
      ∷ record { pid = 0x10000; oid = 0; type = partition }
      ∷ [];
  coll = [];
  attr =
      record { pid = 0x10000; oid = 0x10001; page = 6; number = 1; value = 7 ∷ replicate 7 0 } ∷ [];
}

abbrev device : Device memory no_files
device = record {
  conn = atomic;
  fs = tt;
  ic = no_ids;
  ccap = record { obj_type = 0; pid = 0; oid = 0; append_off = 0 };
}

-- Swapping it for 9, where it is compared with 7.
osd_cas_example :
    Post
      (λ (shown, used) d.
        ((shown ≡ write_at 0 (set_htonll 7) (replicate 8 0)) × (used ≡ 8))
        × Keeps no_files memory-Behaves memory-Fetches 0x10000 0x10001 uap_cas atomic
            (if 7 == 7 then 9 else 7)
            d)
      (Fails no_files memory-Behaves memory-Fetches 0x10000 0x10001 uap_cas atomic 7)
      (osd_cas (replicate 8 0) 0x10000 0x10001 7 9 (replicate 8 0) device)
unfolding Keeps Holds Besides memory-Behaves load64
osd_cas_example =
    osd_cas_lem no_files memory-Behaves memory-Fetches atomic (replicate 8 0) (replicate 8 0)
      0x10000 0x10001 7 9 7 device refl (omega arith)
      (inr (7 ∷ replicate 7 0, refl, refl, refl), (refl, refl, refl))

-- Adding 5 to a register that was never used.
osd_fa_example :
    Post
      (λ (shown, used) d.
        ((shown ≡ write_at 0 (set_htonll 0) (replicate 8 0)) × (used ≡ 8))
        × Keeps no_files memory-Behaves memory-Fetches 0x10000 0x10001 uap_fa atomic (add64 5 0) d)
      (Fails no_files memory-Behaves memory-Fetches 0x10000 0x10001 uap_fa atomic 0)
      (osd_fa (replicate 8 0) 0x10000 0x10001 5 (replicate 8 0) device)
unfolding Keeps Holds Besides memory-Behaves
osd_fa_example =
    osd_fa_lem no_files memory-Behaves memory-Fetches atomic (replicate 8 0) (replicate 8 0) 0x10000
      0x10001 5 0 device refl (inl (refl, refl), (refl, refl, refl))

-- Two attributes, of which the second does not fit, after a wait.
abbrev answers : Answers AttrRow
answers = busy (
    row (record { pid = 0x10000; oid = 0x10001; page = 6; number = 1; value = replicate 8 7 })
      (row (record { pid = 0x10000; oid = 0x10001; page = 6; number = 2; value = replicate 8 5 })
        done))

-- Three bytes on the page 0x10000.
osd_set_attributes_example :
    let item = entry 0x10000 5 3 (take 3 (1 ∷ 2 ∷ 3 ∷ [])) in
    Post
      (λ (out, n) _. (out ≡ item ++ drop (length item) (replicate 32 0)) × (n ≡ length item))
      (λ r _. Refused 0x10000 0x10001 r)
      ((osd_set_attributes 0x10000 0x10001 0x10000 5 (1 ∷ 2 ∷ 3 ∷ []) 3
          >> osd_getattr_list true 0 [] [] 0x10000 0x10001 0x10000 5
              (replicate 32 0)
              32
              rtrvd_set_attr_list
              0)
        device)
osd_set_attributes_example =
    osd_set_attributes-osd_getattr_list no_files memory-Behaves memory-Fetches true 0 0x10000
      0x10001 0x10000 5 3 32 0 (1 ∷ 2 ∷ 3 ∷ []) (replicate 32 0) [] [] device
      (omega arith, omega arith, omega arith) (omega arith) (omega arith) (refl, refl)
      (omega arith, omega arith, omega arith)

-- Five identifiers for a buffer of 21 bytes, and two for one of 32.
overrun_example :
    query_rows 21 (first_found (replicate 21 0)) (listed (1 ∷ 2 ∷ 3 ∷ 4 ∷ 5 ∷ [])) ≡ unfinished
overrun_example =
    query_rows-overruns (replicate 21 0) (1 ∷ 2 ∷ 3 ∷ 4 ∷ 5 ∷ []) (omega arith) (omega arith)
      (omega arith)

fits_example :
    (t : Found) × (query_rows 32 (first_found (replicate 32 0)) (listed (1 ∷ 2 ∷ []))
      ≡ value (some t))
    × (t.mem
        ≡ take 13 (replicate 32 0)
          ++ (packed_ids (1 ∷ 2 ∷ []) ++ drop (8 * 2) (drop 13 (replicate 32 0))))
    × (t.used ≡ 13 + 8 * 2)
    × (t.len ≡ 5 + 8 * 2)
fits_example = query_rows-fits (replicate 32 0) (1 ∷ 2 ∷ []) (omega arith) (omega arith)

-- An object with an attribute of 3 bytes, and one for which there is no room, in 40 bytes.
abbrev listed_rows : Answers AttrRow
listed_rows =
    row (record { pid = 0x10000; oid = 0x10001; page = 3; number = 0; value = [] })
      (row
        (record {
          pid = 0x10000;
          oid = 0x10001;
          page = 0x10000;
          number = 5;
          value = 1 ∷ 2 ∷ 3 ∷ [];
        })
        (row (record { pid = 0x10000; oid = 0x10002; page = 3; number = 0; value = [] }) done))

list_rows_example :
    Bounded 40
      (replicate 48 0)
      (list_rows false 0 (first_listing (replicate 48 0) 40 0) listed_rows)
list_rows_example =
    list_rows-bounds false 0 40 (replicate 48 0) listed_rows (omega arith) (omega arith)
