-- ===== src/Offset/RoundTrip.antt =====
-- Encoding an offset of osd-util/osd-util.c that the format can hold, and decoding it again.
use native.Mathlib.Nat.{pow-le-pow_right, mod-eq_of_lt}
use viji_osc_osd.Base.{
  ℕ, ◌+◌, ◌-◌, ◌*◌, ◌/◌, ◌%◌, ◌^◌, ◌≤◌, ◌<◌, ◌≡◌, ap, sym, ◌∙◌, ◌≢◌, List, ◌++◌, ltb, le→ltb, ==_ne,
  arith, if◌then◌else◌,
}
use viji_osc_osd.Wire.{set_htonl}
use viji_osc_osd.Wire.RoundTrip.{get-set}
use viji_osc_osd.Offset.{
  max_mantissa, offset_unused, shrink, get_ntohoffset, get_ntohoffset_base, set_htonoffset,
  set_htonoffset_from,
}
use viji_osc_osd.Offset.Shrink.{shrink_bounds, shrink_exact}

pub pow_le : (e n : ℕ) → e ≤ n → 2 ^ e ≤ 2 ^ n
pow_le e n h = pow-le-pow_right (omega arith) h

-- The shift that a decoder takes for the shift `e`: its digit is read as a signed number.
abbrev pub seen : ℕ → ℕ
seen e = if ltb e 16 then e else e - 16

pub seen_small : (e : ℕ) → e ≤ 15 → seen e ≡ e
seen_small e h = ground arith

mantissa_fits : (v e : ℕ) → v ≤ max_mantissa → e ≤ 15 → v * 2 ^ e < 2 ^ 43
mantissa_fits v e hv he = let p = pow_le e 15 he in grind arith

abbrev pub encoded : ℕ → ℕ → ℕ
encoded e v = v + (e + 8) % 16 * 2 ^ 28

digit_seen :
    (e v : ℕ)
    → 3 ≤ e
    → e ≤ 23
    → v ≤ max_mantissa
    → (let digit = encoded e v / 2 ^ 28 in if ltb digit 8 then digit + 8 else digit + 8 - 16)
      ≡ seen e
digit_seen e v lo hi hv = ground arith

base_decoded :
    (e v : ℕ)
    → 3 ≤ e
    → e ≤ 23
    → v ≤ max_mantissa
    → encoded e v ≢ offset_unused
    → get_ntohoffset_base (encoded e v) ≡ v * 2 ^ seen e
unfolding get_ntohoffset_base
base_decoded e v lo hi hv hu =
    let low : encoded e v % 2 ^ 28 ≡ v = omega arith in
    let fits = mantissa_fits v (seen e) hv (ground arith) in
    rw (==_ne (encoded e v) offset_unused hu, digit_seen e v lo hi hv, low)
      (mod-eq_of_lt (omega (arith, fits)))

-- What the decoder returns for the shift and mantissa that the normalising loop ends with.
pub decoded :
    (e v : ℕ) (rest : List ℕ)
    → 3 ≤ e
    → e ≤ 23
    → v ≤ max_mantissa
    → encoded e v ≢ offset_unused
    → get_ntohoffset (set_htonl (set_htonoffset_from (e, v)) ++ rest) ≡ v * 2 ^ seen e
unfolding get_ntohoffset set_htonoffset_from
decoded e v rest lo hi hv hu = rw (le→ltb 23 e hi) (
    ap get_ntohoffset_base ((get-set (encoded e v) rest).1 (omega arith))
    ∙ base_decoded e v lo hi hv hu)

-- The one mantissa and exponent whose encoding means "no offset".
pub not_unused :
    (e v : ℕ)
    → 3 ≤ e
    → e ≤ 15
    → v ≤ max_mantissa
    → v * 2 ^ e ≢ max_mantissa * 2 ^ 7
    → encoded e v ≢ offset_unused
not_unused e v lo hi hv h u =
    let e7 : e ≡ 7 = omega arith in let vm : v ≡ max_mantissa = omega arith in h (rw (e7, vm))

-- Decoding what `set_htonoffset` wrote for a mantissa and an exponent from -5 to 7, which is a shift
-- from 3 to 15, returns the same number, unless it is 2 ^ 35 - 2 ^ 7, whose encoding is the mark of an
-- unused offset.
pub get_ntohoffset-set_htonoffset :
    (m r : ℕ) (rest : List ℕ)
    → m ≤ max_mantissa
    → r ≤ 12
    → m * 2 ^ r * 2 ^ 3 ≢ max_mantissa * 2 ^ 7
    → get_ntohoffset (set_htonoffset (m * 2 ^ r * 2 ^ 3) ++ rest) ≡ m * 2 ^ r * 2 ^ 3
unfolding set_htonoffset
get_ntohoffset-set_htonoffset m r rest hm hr hu =
    let small : m * 2 ^ r * 2 ^ 3 < 2 ^ 43 = (let p = pow_le r 12 hr in grind arith) in
    let start : m * 2 ^ r * 2 ^ 3 / 2 ^ 3 ≡ m * 2 ^ r = omega arith in
    let (lo, hi, top) = shrink_bounds 12 64 3 (m * 2 ^ r) (omega arith) (omega arith) in
    let exact = shrink_exact r 64 3 m (omega arith) hm in
    let s = shrink 64 3 (m * 2 ^ r) in
    let hi' : s.0 ≤ 15 = hi in
    rw start (
      decoded s.0 s.1 rest lo (omega arith) top
        (not_unused s.0 s.1 lo hi' top (λ u. hu (sym exact ∙ u)))
      ∙ ap (λ k. s.1 * 2 ^ k) (seen_small s.0 hi')
      ∙ exact)
