-- ===== src/ListEntry/Pack.antt =====
-- What the packing functions of osd-target/list-entry.c write.
use viji_osc_osd.Base.{
  ℕ, ◌+◌, ◌-◌, ◌%◌, ◌≤◌, ◌≡◌, refl, ap, ◌∙◌, subst, Option, none, some, List, ◌∷◌, ◌++◌, length,
  take, drop, replicate, arith, length-take, length-drop, length-append, length-replicate,
  drop-drop,
}
use viji_osc_osd.Base.Bytes.{write_at, write_next}
use viji_osc_osd.Wire.{set_htons, set_htonl, set_htons_le, set_htonl_le}
use viji_osc_osd.ListEntry.{packed, copied_len, bytes_at, le_fill, le_pack_attr, roundup8}

-- An entry of the standard's list format: page, number, six reserved bytes, the length that the value
-- has untruncated, the value, and zeros up to a multiple of 8.
header : ℕ → ℕ → ℕ → List ℕ
header page number valen = set_htonl page ++ set_htonl number ++ replicate 6 0 ++ set_htons valen

pub entry : ℕ → ℕ → ℕ → List ℕ → List ℕ
unfolding header
entry page number valen v =
    (header page number valen ++ v) ++ replicate (roundup8 (length v) - length v) 0

-- The value pointer is null or shows the `valen` bytes that it promises.
abbrev pub Holds : ℕ → Option (List ℕ) → Type 0
Holds valen none = Unit {0}
Holds valen (some val) = valen ≤ length val

length-header : (page number valen : ℕ) → length (header page number valen) ≡ 16
unfolding header set_htonl_le set_htons_le
length-header page number valen = refl

header_writes :
    (page number valen : ℕ) (buf : List ℕ)
    → 16 ≤ length buf
    → write_at 8 (replicate 6 0) (
        write_at 14
          (set_htons valen)
          (write_at 4 (set_htonl number) (write_at 0 (set_htonl page) buf)))
      ≡ header page number valen ++ drop 16 buf
unfolding write_at header set_htonl_le set_htons_le
header_writes page number valen
      (x0 ∷ x1 ∷ x2 ∷ x3 ∷ x4 ∷ x5 ∷ x6 ∷ x7 ∷ x8 ∷ x9 ∷ x10 ∷ x11 ∷ x12 ∷ x13 ∷ x14 ∷ x15 ∷ rest)
      h =
    refl
header_writes page number valen _ h = absurd (omega arith)

pub length-entry :
    (page number valen : ℕ) (v : List ℕ)
    → length (entry page number valen v) ≡ 16 + roundup8 (length v)
unfolding entry
length-entry page number valen v = omega (
  arith,
  length-header page number valen,
  length-append (header page number valen ++ v) (replicate (roundup8 (length v) - length v) 0),
  length-append (header page number valen) v,
  length-replicate {A = ℕ} (roundup8 (length v) - length v) 0,
)

-- Writing a value and its padding behind the header leaves the entry and what was behind it.
entry_writes :
    (page number valen : ℕ) (v buf : List ℕ)
    → 16 + roundup8 (length v) ≤ length buf
    → write_at
        (length v + 16)
        (replicate (roundup8 (length v) - length v) 0)
        (write_at 16 v (header page number valen ++ drop 16 buf))
      ≡ entry page number valen v ++ drop (16 + roundup8 (length v)) buf
unfolding entry
entry_writes page number valen v buf h =
    let hd = header page number valen in
    let pad : List ℕ = replicate (roundup8 (length v) - length v) 0 in
    let hp = length-replicate {A = ℕ} (roundup8 (length v) - length v) 0 in
    let room = length-drop 16 buf in
    ap (write_at (length v + 16) pad)
      (write_next 16 v hd (drop 16 buf) (length-header page number valen) (omega arith))
    ∙ write_next (length v + 16) pad (hd ++ v) (drop (length v) (drop 16 buf))
        (omega (arith, length-append hd v, length-header page number valen))
        (omega (arith, length-drop (length v) (drop 16 buf)))
    ∙ ap (λ t. (hd ++ v) ++ pad ++ t)
        (ap (drop (length pad)) (drop-drop (length v) 16 (16 + length v) buf refl)
          ∙ drop-drop (length pad) (16 + length v) (16 + roundup8 (length v)) buf (omega arith))

pad_eq : (n : ℕ) → roundup8 (n + 16) - (n + 16) ≡ roundup8 n - n
pad_eq n = omega arith

-- With `v` for the bytes that are copied.
fill_eq :
    (buf : List ℕ) (page number valen : ℕ) (val v : List ℕ)
    → take (length v) val ≡ v
    → 16 + roundup8 (length v) ≤ length buf
    → let e = entry page number valen v in
      le_fill buf page number valen (length v) val ≡ (packed (length e), e ++ drop (length e) buf)
unfolding le_fill
fill_eq buf page number valen val v hv hb =
    rw
      (
        hv,
        header_writes page number valen buf (omega arith),
        pad_eq (length v),
        entry_writes page number valen v buf hb,
        length-entry page number valen v,
      )
      (ap (λ n. (packed n, entry page number valen v ++ drop (16 + roundup8 (length v)) buf))
        (omega arith))

copied_fits :
    (room valen : ℕ) (val : Option (List ℕ))
    → Holds valen val
    → (copied_len room valen val ≤ length (bytes_at val)) × (copied_len room valen val ≤ room)
copied_fits room valen none h = omega arith
copied_fits room valen (some val) h = ground arith

le_fill_lem :
    (buf : List ℕ) (page number valen n : ℕ) (val : List ℕ)
    → n ≤ length val
    → 16 + roundup8 n ≤ length buf
    → let e = entry page number valen (take n val) in
      le_fill buf page number valen n val ≡ (packed (length e), e ++ drop (length e) buf)
le_fill_lem buf page number valen n val hn hb =
    let lv : length (take n val) ≡ n = omega (arith, length-take n val) in
    subst
      (λ m. le_fill buf page number valen m val ≡ (
        packed (length (entry page number valen (take n val))),
        entry page number valen (take n val)
            ++ drop (length (entry page number valen (take n val))) buf,
      ))
      lv (fill_eq buf page number valen val (take n val) (ap (λ m. take m val) lv) (omega arith))

-- With room for a header in an aligned buffer, `le_pack_attr` writes the entry, with the value cut
-- down to the room there is, returns its length, which is a multiple of 8 and at most `buflen`, and
-- leaves the rest of the memory alone.
pub le_pack_attr_lem :
    (addr : ℕ) (buf : List ℕ) (buflen page number valen : ℕ) (val : Option (List ℕ))
    → addr % 8 ≡ 0
    → buflen % 8 ≡ 0
    → 16 ≤ buflen
    → buflen ≤ length buf
    → Holds valen val
    → let e = entry page number valen (take (copied_len (buflen - 16) valen val) (bytes_at val)) in
      (le_pack_attr addr buf buflen page number valen val
        ≡ (packed (length e), e ++ drop (length e) buf))
      × (length e ≤ buflen)
      × (length e % 8 ≡ 0)
unfolding le_pack_attr
le_pack_attr_lem addr buf buflen page number valen val ha hb h16 hl hv =
    let n = copied_len (buflen - 16) valen val in
    let hn = copied_fits (buflen - 16) valen val hv in
    let le = length-entry page number valen (take n (bytes_at val)) in
    let lv = length-take n (bytes_at val) in
    (
      ground (arith, le_fill_lem buf page number valen n (bytes_at val) hn.0 (omega arith)),
      omega arith,
      omega arith,
    )
