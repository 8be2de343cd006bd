-- ===== src/ListEntry/Within.antt =====
-- The packing functions of osd-target/list-entry.c in any case, errors included: they write within the
-- length that they are lent.
use viji_osc_osd.Base.{
  ℕ, ◌+◌, ◌-◌, ◌%◌, ◌≤◌, ◌≡◌, refl, sym, ◌∙◌, subst, arith, Bool, false, not, ◌||◌, inl, inr,
  Option, List, ◌++◌, length, take, drop, ltb, ◌==◌, length-drop, length-append, drop-drop,
  drop-past, Bool-cases, take-append_eq, drop-append_eq,
}
use viji_osc_osd.Wire.{set_htonll}
use viji_osc_osd.ListEntry.{
  PackResult, einval, eoverflow, aborted, packed, le_pack_attr, le_multiobj_pack_attr, le_fill,
  copied_len, bytes_at, after_oid,
}
use viji_osc_osd.ListEntry.Pack.{Holds, entry, le_pack_attr_lem}
use viji_osc_osd.ListEntry.Multiobj.{oid_written, length-set_htonll}

-- A packing function that is lent `n` bytes of a memory returns at most n, and leaves what is behind.
abbrev pub Bound : ℕ → PackResult → Type 0
Bound n (packed k) = k ≤ n
Bound n r = Unit {0}

abbrev pub Within : ℕ → List ℕ → PackResult × List ℕ → Type 0
Within n mem (r, m) = (length m ≡ length mem) × (drop n m ≡ drop n mem) × Bound n r

-- What is written in front.
pub fronted :
    (n : ℕ) (src mem : List ℕ)
    → length src ≤ n
    → n ≤ length mem
    → (length (src ++ drop (length src) mem) ≡ length mem)
      × (drop n (src ++ drop (length src) mem) ≡ drop n mem)
fronted n src mem h k = (
  omega (arith, length-append src (drop (length src) mem), length-drop (length src) mem),
  drop-past n (n - length src) src (drop (length src) mem) (omega arith)
      ∙ drop-drop (n - length src) (length src) n mem (omega arith),
)

pub le_pack_attr-Within :
    (addr : ℕ) (buf : List ℕ) (buflen page number valen : ℕ) (val : Option (List ℕ))
    → buflen ≤ length buf
    → Holds valen val
    → Within buflen buf (le_pack_attr addr buf buflen page number valen val)
unfolding le_pack_attr
le_pack_attr-Within addr buf buflen page number valen val h hv =
    elim (Bool-cases (not (buflen % 8 == 0) || not (addr % 8 == 0))) [
      | inl e ↦ rw e (refl, refl, tt)
      | inr e ↦ elim (Bool-cases (ltb buflen 16)) [
        | inl less ↦ rw (e, less) (refl, refl, tt)
        | inr more ↦
            let v = take (copied_len (buflen - 16) valen val) (bytes_at val) in
            let (same, fits, _) =
              le_pack_attr_lem addr buf buflen page number valen val (ground arith) (ground arith)
                (ground arith) h hv in
            let (len, rest) = fronted buflen (entry page number valen v) buf fits h in
            rw same (len, rest, fits)
      ]
    ]

-- What is packed has at least a header.
abbrev pub Least : PackResult → Type 0
Least (packed k) = 16 ≤ k
Least r = Unit {0}

pub le_pack_attr-Least :
    (addr : ℕ) (buf : List ℕ) (buflen page number valen : ℕ) (val : Option (List ℕ))
    → Least (le_pack_attr addr buf buflen page number valen val).0
unfolding le_pack_attr le_fill
le_pack_attr-Least addr buf buflen page number valen val =
    elim (Bool-cases (not (buflen % 8 == 0) || not (addr % 8 == 0))) [
      | inl e ↦ rw e tt
      | inr e ↦ elim (Bool-cases (ltb buflen 16)) [
        | inl less ↦ rw (e, less) tt
        | inr more ↦ rw (e, more) (omega arith)
      ]
    ]

Bound-after : (n : ℕ) (r : PackResult) → 8 ≤ n → Bound (n - 8) r → Bound n (after_oid r)
Bound-after n einval h b = tt
Bound-after n eoverflow h b = tt
Bound-after n aborted h b = tt
Bound-after n (packed k) h b = omega arith

-- The entry behind an identifier.
after_oid-Within :
    (n : ℕ) (id rest : List ℕ) (w : PackResult × List ℕ)
    → length id ≡ 8
    → 8 ≤ n
    → Within (n - 8) rest w
    → Within n (id ++ rest) (after_oid w.0, id ++ w.1)
after_oid-Within n id rest (r, m) e h (len, same, bound) = (
  omega (arith, length-append id m, length-append id rest),
  drop-past n (n - 8) id m (omega arith) ∙ same ∙ sym (drop-past n (n - 8) id rest (omega arith)),
  Bound-after n r h bound,
)

id_front :
    (n oid : ℕ) (buf : List ℕ)
    → 8 ≤ n
    → n ≤ length buf
    → (length (set_htonll oid ++ drop 8 buf) ≡ length buf)
      × (drop n (set_htonll oid ++ drop 8 buf) ≡ drop n buf)
id_front n oid buf h k =
    let id = set_htonll oid in
    let e = length-set_htonll oid in
    subst (λ m. (length (id ++ drop m buf) ≡ length buf) × (drop n (id ++ drop m buf) ≡ drop n buf))
      e (fronted n id buf (omega arith) k)

pub le_multiobj_pack_attr-Within :
    (ndebug : Bool) (addr : ℕ) (buf : List ℕ) (buflen oid page number valen : ℕ)
    (val : Option (List ℕ))
    → buflen ≤ length buf
    → Holds valen val
    → Within buflen buf (le_multiobj_pack_attr ndebug addr buf buflen oid page number valen val)
unfolding le_multiobj_pack_attr
le_multiobj_pack_attr-Within ndebug addr buf buflen oid page number valen val h hv =
    let id = set_htonll oid in
    let id8 : length id ≡ 8 = length-set_htonll oid in
    elim (Bool-cases (ltb buflen 16)) [
      | inl less ↦ rw less (refl, refl, tt)
      | inr more ↦ elim (Bool-cases (ndebug || false)) [
        | inl e ↦
            let w = le_pack_attr (addr + 8) (drop 8 buf) (buflen - 8) page number valen val in
            let inner =
              le_pack_attr-Within (addr + 8) (drop 8 buf) (buflen - 8) page number valen val
                (omega (arith, length-drop 8 buf)) hv in
            let (len, rest, bound) =
              after_oid-Within buflen id (drop 8 buf) w id8 (ground arith) inner in
            let (len', rest') = id_front buflen oid buf (ground arith) h in
            rw
              (
                more,
                e,
                oid_written oid buf (ground arith),
                take-append_eq 8 id (drop 8 buf) id8,
                drop-append_eq 8 id (drop 8 buf) id8,
              )
              (len ∙ len', rest ∙ rest', bound)
        | inr e ↦
            let (len, rest) = id_front buflen oid buf (ground arith) h in
            rw (more, e, oid_written oid buf (ground arith)) (len, rest, tt)
      ]
    ]
