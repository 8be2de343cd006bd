-- ===== src/Offset/Shrink.antt =====
-- What the normalising loop does to the number that mantissa and shift stand for.
use native.Mathlib.Nat.{pow-suc}
use native.Mathlib.Numerals.{add-one}
use viji_osc_osd.Base.{
  ℕ, zero, suc, ◌+◌, ◌*◌, ◌/◌, ◌%◌, ◌^◌, ◌≤◌, ◌<◌, ◌≡◌, ◌∙◌, ap, refl, le→ltb, inl, inr, ltb,
  Bool-cases, arith,
}
use viji_osc_osd.Offset.{shrink, max_mantissa}

abbrev pub value : ℕ × ℕ → ℕ
value (exponent, val) = val * 2 ^ exponent

split_half : (e v : ℕ) → v * 2 ^ e ≡ v / 2 * (2 * 2 ^ e) + v % 2 * 2 ^ e
split_half e v =
    let p : v ≡ v / 2 * 2 + v % 2 = omega arith in ap (λ (t : ℕ). t * 2 ^ e) p ∙ omega arith

pow_step : (e : ℕ) → 2 ^ (e + 1) ≡ 2 * 2 ^ e
pow_step e = rw add-one (omega (arith, pow-suc 2 e))

-- Of a number below 2 ^ (28 + n) at most n bits are dropped, and what is left is a mantissa.
pub shrink_bounds :
    (n fuel e v : ℕ)
    → n ≤ fuel
    → v < 2 ^ 28 * 2 ^ n
    → (e ≤ (shrink fuel e v).0)
      × ((shrink fuel e v).0 ≤ e + n)
      × ((shrink fuel e v).1 ≤ max_mantissa)
unfolding shrink
shrink_bounds zero zero e v h hv = omega arith
shrink_bounds zero (suc fuel) e v h hv = ground arith
shrink_bounds (suc n) zero e v h hv = absurd (omega arith)
shrink_bounds (suc n) (suc fuel) e v h hv =
    ground (arith, shrink_bounds n fuel (e + 1) (v / 2) (omega arith) (omega (arith, pow-suc 2 n)))

low_part : (b t : ℕ) → b ≤ 1 → b * t ≤ t
low_part b t h = grind arith

expand : (v t : ℕ) → (v + 1) * t ≡ v * t + t
expand v t = grind arith

halve_lo : (e v start : ℕ) → v * 2 ^ e ≤ start → v / 2 * 2 ^ (e + 1) ≤ start
halve_lo e v start h = rw pow_step (omega (arith, split_half e v))

halve_hi : (e v start : ℕ) → start < (v + 1) * 2 ^ e → start < (v / 2 + 1) * 2 ^ (e + 1)
halve_hi e v start h =
    rw pow_step
      (omega (arith, split_half e v, low_part (v % 2) (2 ^ e) (omega arith), expand v (2 ^ e)))

half_double : (r m : ℕ) → m * 2 ^ suc r / 2 ≡ m * 2 ^ r
half_double r m = rw (pow-suc 2 r) (omega arith)

shift_one : (r e m : ℕ) → m * 2 ^ r * 2 ^ (e + 1) ≡ m * 2 ^ suc r * 2 ^ e
shift_one r e m = rw (pow_step e, pow-suc 2 r) (omega arith)

-- Each round drops the lowest bit: what is left stands for a number at most the given one, and less
-- than one unit of its last place below.
pub shrink_near :
    (fuel e v start : ℕ)
    → v * 2 ^ e ≤ start
    → start < (v + 1) * 2 ^ e
    → let r = shrink fuel e v in (value r ≤ start) × (start < (r.1 + 1) * 2 ^ r.0)
unfolding shrink
shrink_near zero e v start lo hi = (lo, hi)
shrink_near (suc fuel) e v start lo hi = elim (Bool-cases (ltb max_mantissa v)) [
  | inl more ↦
      rw more
        (shrink_near fuel (e + 1) (v / 2) start (halve_lo e v start lo) (halve_hi e v start hi))
  | inr done ↦ rw done (lo, hi)
]

-- On m * 2 ^ r with a mantissa m nothing is lost.
pub shrink_exact :
    (r fuel e m : ℕ)
    → r ≤ fuel
    → m ≤ max_mantissa
    → value (shrink fuel e (m * 2 ^ r)) ≡ m * 2 ^ r * 2 ^ e
unfolding shrink
shrink_exact zero zero e m h hm = refl
shrink_exact zero (suc fuel) e m h hm = rw (le→ltb max_mantissa (m * 2 ^ 0) (omega arith))
shrink_exact (suc r) zero e m h hm = absurd (omega arith)
shrink_exact (suc r) (suc fuel) e m h hm = elim (Bool-cases (ltb max_mantissa (m * 2 ^ suc r))) [
  | inl more ↦
      rw (more, half_double r m) (shrink_exact r fuel (e + 1) m (omega arith) hm ∙ shift_one r e m)
  | inr done ↦ rw done
]
