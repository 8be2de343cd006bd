-- ===== src/Cdb/Parsed.antt =====
-- What the continuation segment of a command parses to.
use viji_osc_osd.Base.{
  ℕ, zero, suc, ◌+◌, ◌-◌, ◌%◌, ◌^◌, ◌≤◌, ◌<◌, ◌≡◌, refl, sym, ap, ◌∙◌, ◌⊎◌, inl, inr, false, List,
  [], ◌∷◌, ◌++◌, drop, take, length, arith, ==_ne, ==_self, le→ltb, drop-append_eq, append_assoc,
  append-nil, take-append_eq, length-append, map, All,
}
use viji_osc_osd.Base.Bytes.{get8}
use viji_osc_osd.Wire.{get_ntohs, set_htons, set_htonl, set_htons_le, set_htonl_le}
use viji_osc_osd.Wire.RoundTrip.{get-set_wrap}
use viji_osc_osd.Exec.{Reply, value}
use viji_osc_osd.Device.{cdb_err}
use viji_osc_osd.Cdb.{Descriptor, Request, scatter_gather_list, query_list}
use viji_osc_osd.Cdb.Continuation.{
  parse_descriptors, is_refused, desc_size, desc_len, desc_length, desc_pad_length, desc_type,
  is_accepted, parse_cdb_continuation_segment,
}

-- A descriptor as the standard lays it out, without padding, and descriptors one after the other.
abbrev pub encoded : ℕ → List ℕ → List ℕ
encoded type body = set_htons type ++ (0 ∷ 0 ∷ (set_htonl (length body) ++ body))

abbrev pub segment : List (ℕ × List ℕ) → List ℕ
segment [] = []
segment ((type, body) ∷ ds) = encoded type body ++ segment ds

-- What the parser accepts.
abbrev pub Fits : ℕ × List ℕ → Type 0
Fits (type, body) =
    ((type ≡ scatter_gather_list) ⊎ (type ≡ query_list))
    × (length body % 8 ≡ 0)
    × (length body < 2 ^ 32 - 16)

parsed : List (ℕ × List ℕ) → List ℕ → List Descriptor
parsed [] tail = []
parsed ((type, body) ∷ ds) tail =
    record { type = type; length = length body; body = body ++ (segment ds ++ tail) }
    ∷ parsed ds tail

encoded_fields :
    (type : ℕ) (body rest : List ℕ)
    → type < 2 ^ 16
    → length body < 2 ^ 32
    → let p = encoded type body ++ rest in
      (desc_type p ≡ type)
      × (desc_length p ≡ length body)
      × (desc_pad_length p ≡ 0)
      × (drop 8 p ≡ body ++ rest)
unfolding set_htons_le set_htonl_le
encoded_fields type body rest h k =
    let e : type % 2 ^ 16 ≡ type = omega arith in
    let e' : length body % 2 ^ 32 ≡ length body = omega arith in
    (
      (get-set_wrap type ((0 ∷ 0 ∷ (set_htonl (length body) ++ body)) ++ rest)).0 ∙ e,
      (get-set_wrap (length body) (body ++ rest)).1 ∙ e',
      refl,
      refl,
    )

encoded_size :
    (p : List ℕ) (n : ℕ)
    → desc_length p ≡ n
    → desc_pad_length p ≡ 0
    → n < 2 ^ 32 - 16
    → desc_size p ≡ 8 + n
unfolding desc_size desc_len
encoded_size p n h k small = omega (arith, h, k)

encoded-accepted :
    (left type n : ℕ) (p : List ℕ)
    → (type ≡ scatter_gather_list) ⊎ (type ≡ query_list)
    → desc_type p ≡ type
    → desc_length p ≡ n
    → desc_pad_length p ≡ 0
    → n % 8 ≡ 0
    → n < 2 ^ 32 - 16
    → 8 + n ≤ left
    → is_refused left p ≡ false
unfolding is_refused desc_size desc_len is_accepted
encoded-accepted left type n p kind t l k m small room =
    let e : n % 2 ^ 32 ≡ n = omega arith in
    let e0 : n + 0 ≡ n = omega arith in
    let e' : (n + 8) % 2 ^ 32 ≡ n + 8 = omega arith in
    elim kind [
      | inl a ↦ rw (t, l, k, a, e0, e, m, e', le→ltb left (n + 8) (omega arith))
      | inr a ↦ rw (t, l, k, a, e0, e, m, e', le→ltb left (n + 8) (omega arith))
    ]

length-encoded : (type : ℕ) (body : List ℕ) → length (encoded type body) ≡ 8 + length body
unfolding set_htons_le set_htonl_le
length-encoded type body = omega arith

-- One descriptor in front of a rest.
parse_one :
    (fuel left type : ℕ) (body rest : List ℕ) (bad : Reply) (ds : List Descriptor)
    → Fits (type, body)
    → 8 + length body ≤ left
    → parse_descriptors (suc fuel) left (encoded type body ++ rest) bad ds
      ≡ parse_descriptors fuel
          (left - (8 + length body))
          rest
          bad
          (ds ++ record { type = type; length = length body; body = body ++ rest } ∷ [])
unfolding parse_descriptors
parse_one fuel left type body rest bad ds fits room =
    let kind = fits.0 in
    let small : type < 2 ^ 16 = elim kind [ inl e ↦ omega (arith, e) | inr e ↦ omega (arith, e) ] in
    let fields = encoded_fields type body rest small (omega (arith, fits.2)) in
    let p = encoded type body ++ rest in
    let size = encoded_size p (length body) fields.1 fields.2 fits.2 in
    let fine =
      encoded-accepted left type (length body) p kind fields.0 fields.1 fields.2 fits.1 fits.2
        room in
    let behind =
      drop-append_eq (8 + length body) (encoded type body) rest (length-encoded type body) in
    rw (==_ne left 0 (omega arith), fine, size, behind, fields.0, fields.1, fields.3)

parse_none :
    (fuel : ℕ) (p : List ℕ) (bad : Reply) (ds : List Descriptor)
    → parse_descriptors fuel 0 p bad ds ≡ value ds
unfolding parse_descriptors
parse_none zero p bad ds = refl
parse_none (suc fuel) p bad ds = refl

parse_descriptors-segment :
    (fuel : ℕ) (xs : List (ℕ × List ℕ)) (tail : List ℕ) (bad : Reply) (ds : List Descriptor)
    → All Fits xs
    → length (segment xs) ≤ fuel
    → parse_descriptors fuel (length (segment xs)) (segment xs ++ tail) bad ds
      ≡ value (ds ++ parsed xs tail)
unfolding parsed
parse_descriptors-segment fuel [] tail bad ds fits h =
    parse_none fuel tail bad ds ∙ ap value (sym (append-nil ds))
parse_descriptors-segment zero ((type, body) ∷ xs) tail bad ds fits h =
    absurd (omega (arith, length-append (encoded type body) (segment xs), length-encoded type body))
parse_descriptors-segment (suc fuel) ((type, body) ∷ xs) tail bad ds fits h =
    let l = length-append (encoded type body) (segment xs) in
    let l' = length-encoded type body in
    let left : length (encoded type body ++ segment xs) - (8 + length body) ≡ length (segment xs) =
      omega (arith, l, l') in
    let d : Descriptor = record {
      type = type;
      length = length body;
      body = body ++ (segment xs ++ tail);
    } in
    ap (λ p. parse_descriptors (suc fuel) (length (segment ((type, body) ∷ xs))) p bad ds)
      (append_assoc (encoded type body) (segment xs) tail)
    ∙ parse_one fuel (length (segment ((type, body) ∷ xs))) type body (segment xs ++ tail) bad ds
        fits.0 (omega (arith, l, l'))
    ∙ ap (λ n. parse_descriptors fuel n (segment xs ++ tail) bad (ds ++ d ∷ [])) left
    ∙ parse_descriptors-segment fuel xs tail bad (ds ++ d ∷ []) fits.1 (omega (arith, l, l'))
    ∙ ap value (append_assoc ds (d ∷ []) (parsed xs tail))

-- The bytes that a parsed descriptor stands for.
abbrev pub shown : Descriptor → ℕ × List ℕ
shown d = (d.type, take d.length d.body)

shown-parsed : (xs : List (ℕ × List ℕ)) (tail : List ℕ) → map shown (parsed xs tail) ≡ xs
unfolding parsed
shown-parsed [] tail = refl
shown-parsed ((type, body) ∷ xs) tail =
    rw (take-append_eq (length body) body (segment xs ++ tail) refl, shown-parsed xs tail)

segment_aligned : (xs : List (ℕ × List ℕ)) → All Fits xs → length (segment xs) % 8 ≡ 0
segment_aligned [] fits = refl
segment_aligned ((type, body) ∷ xs) fits = omega (
  arith,
  length-append (encoded type body) (segment xs),
  length-encoded type body,
  segment_aligned xs fits.1,
  fits.0.1,
)

-- A continuation segment with format 1 and the command's action, and with one or more descriptors that
-- are scatter/gather or query lists of a multiple of 8 bytes behind its header, parses to these
-- descriptors, whatever follows it.
pub parse_cdb_continuation_segment_lem :
    (r : Request) (pid oid : ℕ) (x : ℕ × List ℕ) (xs : List (ℕ × List ℕ)) (tail : List ℕ)
    → All Fits (x ∷ xs)
    → get8 r.indata 0 ≡ 1
    → get_ntohs (drop 2 r.indata) ≡ r.action
    → drop 40 r.indata ≡ segment (x ∷ xs) ++ tail
    → (ds : List Descriptor) × (parse_cdb_continuation_segment r
          (40 + length (segment (x ∷ xs)))
          pid
          oid
        ≡ value ds)
      × (map shown ds ≡ x ∷ xs)
unfolding parse_cdb_continuation_segment
parse_cdb_continuation_segment_lem r pid oid (type, body) xs tail fits format action there =
    let all = (type, body) ∷ xs in
    let n = length (segment all) in
    let least : 8 ≤ n =
      omega (arith, length-append (encoded type body) (segment xs), length-encoded type body) in
    let aligned : (40 + n) % 8 ≡ 0 = omega (arith, segment_aligned all fits) in
    let behind : 40 + n - 40 ≡ n = omega arith in
    (
      parsed all tail,
      rw
          (
            aligned,
            le→ltb (40 + n) 48 (omega arith),
            action,
            ==_self r.action,
            format,
            behind,
            there,
          )
          (parse_descriptors-segment (40 + n) all tail (cdb_err pid oid) [] fits (omega arith)),
      shown-parsed all tail,
    )
