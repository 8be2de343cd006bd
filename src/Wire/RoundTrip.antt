-- ===== src/Wire/RoundTrip.antt =====
-- The setters and getters of osd-util/osd-util.c together, on either kind of machine.
use viji_osc_osd.Base.{
  ℕ, ◌+◌, ◌*◌, ◌/◌, ◌%◌, ◌^◌, ◌<◌, ◌≡◌, List, [], ◌∷◌, ◌++◌, take, drop, All, refl, arith,
}
use viji_osc_osd.Base.Bytes.{IsByte, get8-IsByte, drop-IsByte, take-IsByte}
use viji_osc_osd.Wire.{
  get_ntohs_le, get_ntohs_be, get_ntohl_le, get_ntohl_be, get_ntohll_le, get_ntohll_be,
  get_ntohtime_le, get_ntohtime_be, set_htons_le, set_htonl_le, set_htonll_le, set_htontime_le,
}

-- The bytes of `v` in network order, highest first.
network16 : ℕ → List ℕ
network16 v = (v / 2 ^ 8 % 256) ∷ (v % 256) ∷ []

network32 : ℕ → List ℕ
network32 v = (v / 2 ^ 24 % 256) ∷ (v / 2 ^ 16 % 256) ∷ (v / 2 ^ 8 % 256) ∷ (v % 256) ∷ []

set_htons-network : (v : ℕ) → set_htons_le v ≡ network16 v
unfolding set_htons_le network16
set_htons-network v = ground arith

set_htonl-network : (v : ℕ) → set_htonl_le v ≡ network32 v
unfolding set_htonl_le network32
set_htonl-network v = ground arith

set_htonll-network : (v : ℕ) → set_htonll_le v ≡ network32 (v / 2 ^ 32) ++ network32 v
unfolding set_htonll_le network32
set_htonll-network v = ground arith

get_ntohs-network : (v : ℕ) (rest : List ℕ) → get_ntohs_le (network16 v ++ rest) ≡ v % 2 ^ 16
unfolding get_ntohs_le network16
get_ntohs-network v rest = omega arith

get_ntohl-network : (v : ℕ) (rest : List ℕ) → get_ntohl_le (network32 v ++ rest) ≡ v % 2 ^ 32
unfolding get_ntohl_le network32
get_ntohl-network v rest = omega arith

get_ntohll-network :
    (v : ℕ) (rest : List ℕ)
    → get_ntohll_le (network32 (v / 2 ^ 32) ++ network32 v ++ rest) ≡ v % 2 ^ 64
unfolding get_ntohll_le network32
get_ntohll-network v rest = omega arith

-- The same for the values of the width.
pub get-set :
    (v : ℕ) (rest : List ℕ)
    → (v < 2 ^ 16 → get_ntohs_le (set_htons_le v ++ rest) ≡ v)
      × (v < 2 ^ 32 → get_ntohl_le (set_htonl_le v ++ rest) ≡ v)
      × (v < 2 ^ 64 → get_ntohll_le (set_htonll_le v ++ rest) ≡ v)
unfolding network32
get-set v rest = (
  λ h. rw set_htons-network (omega (arith, get_ntohs-network v rest)),
  λ h. rw set_htonl-network (omega (arith, get_ntohl-network v rest)),
  λ h. rw set_htonll-network (omega (arith, get_ntohll-network v rest)),
)

-- A swapped little-endian load is a big-endian load.
swab_load16 :
    (a b : ℕ)
    → a < 256
    → b < 256
    → (a + b * 2 ^ 8) % 256 * 2 ^ 8 + (a + b * 2 ^ 8) / 2 ^ 8 % 256 ≡ a * 2 ^ 8 + b
swab_load16 a b ha hb = omega arith

swab32-load32 : (d : List ℕ) → All IsByte d → get_ntohl_le d ≡ get_ntohl_be d
unfolding get_ntohl_le get_ntohl_be
swab32-load32 d h =
    omega (arith, get8-IsByte d 0 h, get8-IsByte d 1 h, get8-IsByte d 2 h, get8-IsByte d 3 h)

ntohll-words : (d : List ℕ) → get_ntohll_le d ≡ get_ntohl_le d * 2 ^ 32 + get_ntohl_le (drop 4 d)
unfolding get_ntohll_le get_ntohl_le
ntohll-words d = refl

ntohll_be-words : (d : List ℕ) → get_ntohll_be d ≡ get_ntohl_be d * 2 ^ 32 + get_ntohl_be (drop 4 d)
unfolding get_ntohll_be get_ntohl_be
ntohll_be-words d = refl

ntohll-agree : (d : List ℕ) → All IsByte d → get_ntohll_le d ≡ get_ntohll_be d
ntohll-agree d h = omega (
  arith,
  ntohll-words d,
  ntohll_be-words d,
  swab32-load32 d h,
  swab32-load32 (drop 4 d) (drop-IsByte 4 d h),
)

time-agree : (d : List ℕ) → All IsByte d → get_ntohtime_le d ≡ get_ntohtime_be d
unfolding get_ntohtime_le get_ntohtime_be get_ntohll_be
time-agree d h = ntohll-agree (0 ∷ 0 ∷ take 6 d) (omega arith, (omega arith, take-IsByte 6 d h))

-- On any buffer the getters of both byte orders return the same numbers, each within its width.
pub le-eq-be :
    (d : List ℕ)
    → All IsByte d
    → (get_ntohs_le d ≡ get_ntohs_be d)
      × (get_ntohl_le d ≡ get_ntohl_be d)
      × (get_ntohll_le d ≡ get_ntohll_be d)
      × (get_ntohtime_le d ≡ get_ntohtime_be d)
unfolding get_ntohs_le get_ntohs_be
le-eq-be d h = (
  swab_load16 _ _ (get8-IsByte d 0 h) (get8-IsByte d 1 h),
  swab32-load32 d h,
  ntohll-agree d h,
  time-agree d h,
)

-- The six-byte time keeps the low 48 bits of a number of milliseconds, and drops the rest.
pub get_ntohtime-set_htontime : (v : ℕ) → get_ntohtime_le (set_htontime_le v) ≡ v % 2 ^ 48
unfolding get_ntohtime_le set_htontime_le
get_ntohtime-set_htontime v = omega arith

-- Each getter reads back what its setter wrote, whatever follows, reduced to the setter's width.
pub get-set_wrap :
    (v : ℕ) (rest : List ℕ)
    → (get_ntohs_le (set_htons_le v ++ rest) ≡ v % 2 ^ 16)
      × (get_ntohl_le (set_htonl_le v ++ rest) ≡ v % 2 ^ 32)
      × (get_ntohll_le (set_htonll_le v ++ rest) ≡ v % 2 ^ 64)
get-set_wrap v rest = (
  rw set_htons-network (get_ntohs-network v rest),
  rw set_htonl-network (get_ntohl-network v rest),
  rw set_htonll-network (get_ntohll-network v rest),
)
