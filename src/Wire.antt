-- ===== src/Wire.antt =====
-- The byte order functions of osd-util/osd-util.c, in both variants that osd-util/osd-util.h selects
-- from. A pointer is the list of the bytes from it on; masks and shifts of disjoint fields are
-- written by `/`, `%`, `*` and `+`.
pub mod RoundTrip
use viji_osc_osd.Base.{ℕ, ◌+◌, ◌*◌, ◌/◌, ◌%◌, ◌^◌, List, [], ◌∷◌, ◌++◌, take, drop}
use viji_osc_osd.Base.Bytes.{get8}

-- `*(const uint16_t *) d` and `*(const uint32_t *) d` on a little-endian machine.
load16_le : List ℕ → ℕ
load16_le d = get8 d 0 + get8 d 1 * 2 ^ 8

load32_le : List ℕ → ℕ
load32_le d = get8 d 0 + get8 d 1 * 2 ^ 8 + get8 d 2 * 2 ^ 16 + get8 d 3 * 2 ^ 24

-- The bytes that `*(uint16_t *) x = w` and `*(uint32_t *) x = w` write there.
store16_le : ℕ → List ℕ
store16_le w = (w % 256) ∷ (w / 2 ^ 8 % 256) ∷ []

store32_le : ℕ → List ℕ
store32_le w = (w % 256) ∷ (w / 2 ^ 8 % 256) ∷ (w / 2 ^ 16 % 256) ∷ (w / 2 ^ 24 % 256) ∷ []

-- The loads of a big-endian machine.
load16_be : List ℕ → ℕ
load16_be d = get8 d 0 * 2 ^ 8 + get8 d 1

load32_be : List ℕ → ℕ
load32_be d = get8 d 0 * 2 ^ 24 + get8 d 1 * 2 ^ 16 + get8 d 2 * 2 ^ 8 + get8 d 3

load64_be : List ℕ → ℕ
load64_be d = load32_be d * 2 ^ 32 + load32_be (drop 4 d)

swab32 : ℕ → ℕ
swab32 d = d % 256 * 2 ^ 24 + d / 2 ^ 8 % 256 * 2 ^ 16 + d / 2 ^ 16 % 256 * 2 ^ 8 + d / 2 ^ 24 % 256

unfoldable pub get_ntohll_le : List ℕ → ℕ
unfolding swab32 load32_le
get_ntohll_le d =
    let d0 = swab32 (load32_le d) in let d1 = swab32 (load32_le (drop 4 d)) in d0 * 2 ^ 32 + d1

pub get_ntohll_be : List ℕ → ℕ
unfolding load64_be load32_be
get_ntohll_be d = load64_be d

unfoldable pub get_ntohl_le : List ℕ → ℕ
unfolding swab32 load32_le
get_ntohl_le d = swab32 (load32_le d)

pub get_ntohl_be : List ℕ → ℕ
unfolding load32_be
get_ntohl_be d = load32_be d

pub get_ntohs_le : List ℕ → ℕ
unfolding load16_le
get_ntohs_le d = let x = load16_le d in x % 256 * 2 ^ 8 + x / 2 ^ 8 % 256

pub get_ntohs_be : List ℕ → ℕ
unfolding load16_be
get_ntohs_be d = load16_be d

unfoldable pub set_htonll_le : ℕ → List ℕ
unfolding swab32 store32_le
set_htonll_le val =
    store32_le (swab32 (val / 2 ^ 32 % 2 ^ 32)) ++ store32_le (swab32 (val % 2 ^ 32))

unfoldable pub set_htonl_le : ℕ → List ℕ
unfolding swab32 store32_le
set_htonl_le val = store32_le (swab32 val)

unfoldable pub set_htons_le : ℕ → List ℕ
unfolding store16_le
set_htons_le val = store16_le (val % 256 * 2 ^ 8 + val / 2 ^ 8 % 256)

-- Six bytes, big-endian, as milliseconds since 1970.
pub get_ntohtime_le : List ℕ → ℕ
unfolding get_ntohll_le
get_ntohtime_le d = get_ntohll_le (0 ∷ 0 ∷ take 6 d)

pub get_ntohtime_be : List ℕ → ℕ
unfolding load64_be load32_be
get_ntohtime_be d = load64_be (0 ∷ 0 ∷ take 6 d)

pub set_htontime_le : ℕ → List ℕ
unfolding set_htonll_le
set_htontime_le val = take 6 (drop 2 (set_htonll_le val))

-- The names that the target is built with on a little-endian machine.
abbrev pub get_ntohs : List ℕ → ℕ
get_ntohs = get_ntohs_le

abbrev pub get_ntohl : List ℕ → ℕ
get_ntohl = get_ntohl_le

abbrev pub get_ntohll : List ℕ → ℕ
get_ntohll = get_ntohll_le

abbrev pub set_htons : ℕ → List ℕ
set_htons = set_htons_le

abbrev pub set_htonl : ℕ → List ℕ
set_htonl = set_htonl_le

abbrev pub set_htonll : ℕ → List ℕ
set_htonll = set_htonll_le
