-- ===== src/Offset/Truncation.antt =====
-- Encoding an offset of osd-util/osd-util.c that the format cannot hold, and decoding it again.
use native.Mathlib.Nat.{pow-suc}
use viji_osc_osd.Base.{
  ℕ, zero, suc, ◌+◌, ◌-◌, ◌*◌, ◌/◌, ◌^◌, ◌≤◌, ◌<◌, ◌≡◌, ◌≢◌, ap, subst, sym, ◌∙◌, ◌⊎◌, inl, inr,
  List, ◌++◌, ltb, arith, Bool-cases,
}
use viji_osc_osd.Offset.{max_mantissa, shrink, get_ntohoffset, set_htonoffset, offset_unused}
use viji_osc_osd.Offset.Shrink.{shrink_bounds, shrink_near}
use viji_osc_osd.Offset.RoundTrip.{pow_le, seen, encoded, seen_small, decoded}

-- One unit of the last place.
unit_above : (v e n start : ℕ) → start < (v + 1) * 2 ^ e → e ≤ n → start < v * 2 ^ e + 2 ^ n
unit_above v e n start h le = let p = pow_le e n le in grind arith

start_lo : (val : ℕ) → val / 2 ^ 3 * 2 ^ 3 ≤ val
start_lo val = omega arith

start_hi : (val : ℕ) → val < (val / 2 ^ 3 + 1) * 2 ^ 3
start_hi val = omega arith

-- Only the numbers of the last place that belongs to the mark are encoded as the mark.
not_marked :
    (v e val : ℕ)
    → 3 ≤ e
    → e ≤ 15
    → v ≤ max_mantissa
    → v * 2 ^ e ≤ val
    → val < (v + 1) * 2 ^ e
    → (val < max_mantissa * 2 ^ 7) ⊎ (2 ^ 35 ≤ val)
    → encoded e v ≢ offset_unused
not_marked v e val lo hi hv below near away u =
    let e7 : e ≡ 7 = omega arith in
    let vm : v ≡ max_mantissa = omega arith in
    let from = subst (λ (k : ℕ). v * 2 ^ k ≤ val) e7 below in
    let to = subst (λ (k : ℕ). val < (v + 1) * 2 ^ k) e7 near in
    elim away [ inl a ↦ omega arith | inr a ↦ omega arith ]

-- Below 2 ^ 43, except for the 128 numbers from 2 ^ 35 - 2 ^ 7 on whose encoding is the mark of an
-- unused offset, decoding what `set_htonoffset` wrote returns a number at most the given one and less
-- than 2 ^ 15 below it.
pub get_ntohoffset-set_htonoffset_cut :
    (val : ℕ) (rest : List ℕ)
    → val < 2 ^ 43
    → (val < max_mantissa * 2 ^ 7) ⊎ (2 ^ 35 ≤ val)
    → (get_ntohoffset (set_htonoffset val ++ rest) ≤ val)
      × (val < get_ntohoffset (set_htonoffset val ++ rest) + 2 ^ 15)
unfolding set_htonoffset
get_ntohoffset-set_htonoffset_cut val rest h away =
    let (lo, hi, top) = shrink_bounds 12 64 3 (val / 2 ^ 3) (omega arith) (omega arith) in
    let (below, near) = shrink_near 64 3 (val / 2 ^ 3) val (start_lo val) (start_hi val) in
    let s = shrink 64 3 (val / 2 ^ 3) in
    let hi' : s.0 ≤ 15 = hi in
    let close = unit_above s.1 s.0 15 val near hi' in
    let out =
      decoded s.0 s.1 rest lo (omega arith) top (not_marked s.1 s.0 val lo hi' top below near away)
      ∙ ap (λ k. s.1 * 2 ^ k) (seen_small s.0 hi') in
    rw out (below, close)

large : (v e val : ℕ) → v ≤ max_mantissa → val < (v + 1) * 2 ^ e → 2 ^ 43 ≤ val → 16 ≤ e
large v e val hv h big = elim (Bool-cases (ltb e 16)) [
  | inl less ↦ let p = pow_le e 15 (ground arith) in absurd (grind arith)
  | inr more ↦ ground arith
]

pow_split : (k : ℕ) → 2 ^ (k + 16) ≡ 2 ^ k * 2 ^ 16
pow_split zero = omega arith
pow_split (suc k) =
    let e : suc k + 16 ≡ suc (k + 16) = omega arith in
    rw (e, pow-suc 2 (k + 16), pow-suc 2 k) (omega (arith, pow_split k))

shifted : (v e : ℕ) → 16 ≤ e → v * 2 ^ seen e * 2 ^ 16 ≡ v * 2 ^ e
shifted v e h =
    let low : seen e ≡ e - 16 = ground arith in
    let back : e - 16 + 16 ≡ e = omega arith in
    let split : 2 ^ e ≡ 2 ^ (e - 16) * 2 ^ 16 =
      sym (ap (λ (k : ℕ). 2 ^ k) back) ∙ pow_split (e - 16) in
    rw (low, split) (grind arith)

mark_free :
    (v e val : ℕ)
    → 16 ≤ e
    → e ≤ 23
    → v ≤ max_mantissa
    → v * 2 ^ e ≤ val
    → val < max_mantissa * 2 ^ 23
    → encoded e v ≢ offset_unused
mark_free v e val lo hi hv below h u =
    let e23 : e ≡ 23 = omega arith in
    let vm : v ≡ max_mantissa = omega arith in
    let top = subst (λ (k : ℕ). v * 2 ^ k ≤ val) e23 below in omega arith

-- From 2 ^ 43 on and below 2 ^ 51 - 2 ^ 23, where the numbers begin whose encoding is the mark of an
-- unused offset, decoding what `set_htonoffset` wrote returns a number whose 2 ^ 16-fold is at most the
-- given one and less than 2 ^ 23 below it.
pub get_ntohoffset-set_htonoffset_wrong :
    (val : ℕ) (rest : List ℕ)
    → 2 ^ 43 ≤ val
    → val < max_mantissa * 2 ^ 23
    → (get_ntohoffset (set_htonoffset val ++ rest) * 2 ^ 16 ≤ val)
      × (val < get_ntohoffset (set_htonoffset val ++ rest) * 2 ^ 16 + 2 ^ 23)
unfolding set_htonoffset
get_ntohoffset-set_htonoffset_wrong val rest big h =
    let (lo, hi, top) = shrink_bounds 20 64 3 (val / 2 ^ 3) (omega arith) (omega arith) in
    let (below, near) = shrink_near 64 3 (val / 2 ^ 3) val (start_lo val) (start_hi val) in
    let s = shrink 64 3 (val / 2 ^ 3) in
    let hi' : s.0 ≤ 23 = hi in
    let lo' = large s.1 s.0 val top near big in
    let out = decoded s.0 s.1 rest lo hi' top (mark_free s.1 s.0 val lo' hi' top below h) in
    rw (out, shifted s.1 s.0 lo') (below, unit_above s.1 s.0 23 val near hi')
