-- ===== src/Offset.antt =====
-- The offsets of osd-util/osd-util.c: a mantissa of 28 bits and a signed exponent of 4 bits stand
-- for mantissa * 2 ^ (exponent + 8). The model counts `exponent + 8`, the shift, as `next_offset`
-- does; it starts at 3, so the differences below are at least 0.
pub mod Shrink
pub mod RoundTrip
pub mod Truncation
use viji_osc_osd.Base.{
  ℕ, zero, suc, ◌+◌, ◌-◌, ◌*◌, ◌/◌, ◌%◌, ◌^◌, Option, none, some, List, [], ◌∷◌, ltb, ◌==◌,
  if◌then◌else◌,
}
use viji_osc_osd.Wire.{get_ntohl, set_htonl}

abbrev pub max_mantissa : ℕ
max_mantissa = 0x0fffffff

abbrev pub offset_unused : ℕ
offset_unused = 0xFFFFFFFF

-- `exponent >>= 28` keeps the sign of the top four bits: a digit from 8 on is the exponent less 16.
pub get_ntohoffset_base : ℕ → ℕ
get_ntohoffset_base base =
    if base == offset_unused
    then 2 ^ 64 - 1
    else let digit = base / 2 ^ 28 in
      base % 2 ^ 28 * 2 ^ (if ltb digit 8 then digit + 8 else digit + 8 - 16) % 2 ^ 64

pub get_ntohoffset : List ℕ → ℕ
get_ntohoffset d = get_ntohoffset_base (get_ntohl d)

-- `while (val > max_mantissa) { ++exponent; val >>= 1; }`
pub shrink : ℕ → ℕ → ℕ → ℕ × ℕ
shrink zero exponent val = (exponent, val)
shrink (suc fuel) exponent val =
    let rest = shrink fuel (exponent + 1) (val / 2) in
    if ltb max_mantissa val then rest else (exponent, val)

-- Four zero bytes where the offset is too big; otherwise the low four bits of the exponent go above
-- the mantissa.
pub set_htonoffset_from : ℕ × ℕ → ℕ
set_htonoffset_from (exponent, val) =
    if ltb 23 exponent then 0 else val + (exponent + 8) % 16 * 2 ^ 28

-- A uint64_t has 64 bits, so 64 rounds are enough.
pub set_htonoffset : ℕ → List ℕ
set_htonoffset val = set_htonl (set_htonoffset_from (shrink 64 3 (val / 2 ^ 3)))

-- From the label `recheck` on. `none` says that the rounds ran out.
recheck : ℕ → ℕ → ℕ × ℕ → Option ℕ
recheck zero start (exponent, val) = none
recheck (suc rounds) start (exponent, val) =
    let again = recheck rounds start (exponent + 1, (val + 1) / 2) in
    if ltb 23 exponent
    then some 0
    else if ltb (val * 2 ^ exponent % 2 ^ 64) start
    then if ltb max_mantissa (val + 1) then again else some ((val + 1) * 2 ^ exponent % 2 ^ 64)
    else some (val * 2 ^ exponent % 2 ^ 64)

pub next_offset : ℕ → Option ℕ
next_offset start = recheck 2 start (shrink 64 3 (start / 2 ^ 3))
