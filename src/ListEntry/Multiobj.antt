-- ===== src/ListEntry/Multiobj.antt =====
-- `le_multiobj_pack_attr`: an object identifier, then an entry, if its assertion is compiled out.
use viji_osc_osd.Base.{
  ℕ, ◌+◌, ◌-◌, ◌%◌, ◌≤◌, ◌≡◌, refl, ap, sym, le→ltb, ◌∙◌, true, Option, List, ◌++◌, length, take,
  drop, arith, length-drop, drop-drop, take-append_eq, drop-append_eq, append_assoc,
}
use viji_osc_osd.Base.Bytes.{write_at, write_at-zero}
use viji_osc_osd.Wire.{set_htonll, set_htonll_le}
use viji_osc_osd.ListEntry.{packed, copied_len, bytes_at, le_multiobj_pack_attr}
use viji_osc_osd.ListEntry.Pack.{Holds, entry, le_pack_attr_lem}

pub length-set_htonll : (v : ℕ) → length (set_htonll v) ≡ 8
unfolding set_htonll_le
length-set_htonll v = refl

pub oid_written :
    (oid : ℕ) (buf : List ℕ)
    → 8 ≤ length buf
    → write_at 0 (set_htonll oid) buf ≡ set_htonll oid ++ drop 8 buf
oid_written oid buf h =
    write_at-zero (set_htonll oid) buf (omega (arith, length-set_htonll oid))
    ∙ ap (λ n. set_htonll oid ++ drop n buf) (length-set_htonll oid)

-- Compiled without assertions, in an aligned buffer with room for the identifier and a header, it
-- writes the identifier and then the entry of `le_pack_attr`, and returns the length of both, which
-- is at most `buflen`; the rest of the memory is unchanged.
pub le_multiobj_pack_attr_lem :
    (addr : ℕ) (buf : List ℕ) (buflen oid page number valen : ℕ) (val : Option (List ℕ))
    → addr % 8 ≡ 0
    → buflen % 8 ≡ 0
    → 24 ≤ buflen
    → buflen ≤ length buf
    → Holds valen val
    → let e =
        entry page number valen (take (copied_len (buflen - 8 - 16) valen val) (bytes_at val)) in
      (le_multiobj_pack_attr true addr buf buflen oid page number valen val
        ≡ (packed (8 + length e), set_htonll oid ++ e ++ drop (8 + length e) buf))
      × (8 + length e ≤ buflen)
unfolding le_multiobj_pack_attr
le_multiobj_pack_attr_lem addr buf buflen oid page number valen val ha hb h24 hl hv =
    let e =
      entry page number valen (take (copied_len (buflen - 8 - 16) valen val) (bytes_at val)) in
    let (eq, fits, _) =
      le_pack_attr_lem (addr + 8) (drop 8 buf) (buflen - 8) page number valen val (omega arith)
        (omega arith) (omega arith) (omega (arith, length-drop 8 buf)) hv in
    (
      rw
          (
            le→ltb buflen 16 (omega arith),
            oid_written oid buf (omega arith),
            drop-append_eq 8 (set_htonll oid) (drop 8 buf) (length-set_htonll oid),
            take-append_eq 8 (set_htonll oid) (drop 8 buf) (length-set_htonll oid),
            eq,
            drop-drop (length e) 8 (8 + length e) buf refl,
          )
          (ap (λ t. (packed (8 + length e), t)) (sym (append_assoc (set_htonll oid) e _))),
      omega arith,
    )
