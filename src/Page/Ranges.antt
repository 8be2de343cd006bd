-- ===== src/Page/Ranges.antt =====
-- The tests of osd-target/osd.c as ranges of page numbers.
use viji_osc_osd.Base.{ℕ, ◌+◌, ◌^◌, ◌≤◌, ◌<◌, ◌≡◌, ◌⊎◌, inl, inr, ◌↔◌, true, arith}
use viji_osc_osd.Store.{userobject, collection, partition, root}
use viji_osc_osd.Page.{
  userobject_pg, partition_pg, collection_pg, root_pg, any_pg, get_rel_page, check_valid_pg,
  issettable_page, isgettable_page,
}

-- A type of object and its first page.
abbrev Pages : ℕ → ℕ → Type 0
Pages obj_type base =
    ((obj_type ≡ userobject) × (base ≡ userobject_pg))
    ⊎ ((obj_type ≡ partition) × (base ≡ partition_pg))
    ⊎ ((obj_type ≡ collection) × (base ≡ collection_pg))
    ⊎ ((obj_type ≡ root) × (base ≡ root_pg))

-- The pages of a type of object that can be set are the first 0x80 of its range of 0x30000000 and those
-- from 0x10000 up to 0x20000000 there, and every type has the pages from ANY_PG on; those that can be
-- read are the whole range without 0x80 to 0x7FFF, and again the pages from ANY_PG on.
pub pages_lem :
    (obj_type base page : ℕ)
    → Pages obj_type base
    → page < 2 ^ 32
    → ((issettable_page obj_type page ≡ true) ↔ (
        (any_pg ≤ page)
        ⊎ ((base ≤ page) × (page < base + 0x80))
        ⊎ ((base + 0x10000 ≤ page) × (page < base + 0x20000000))))
      × ((isgettable_page obj_type page ≡ true) ↔ (
          (any_pg ≤ page)
          ⊎ ((base ≤ page) × (page < base + 0x80))
          ⊎ ((base + 0x8000 ≤ page) × (page < base + 0x30000000))))
unfolding issettable_page isgettable_page check_valid_pg get_rel_page
pages_lem obj_type base page (inl (t, e)) h = rw (t, e) (ground arith, ground arith)
pages_lem obj_type base page (inr (inl (t, e))) h = rw (t, e) (ground arith, ground arith)
pages_lem obj_type base page (inr (inr (inl (t, e)))) h = rw (t, e) (ground arith, ground arith)
pages_lem obj_type base page (inr (inr (inr (t, e)))) h = rw (t, e) (ground arith, ground arith)
