-- ===== src/Cdb/Continuation.antt =====
-- `parse_cdb_continuation_segment` of osd-target/cdb.c. `realloc` succeeds.
pub mod Ends
use viji_osc_osd.Base.{
  ℕ, zero, suc, ◌+◌, ◌-◌, ◌%◌, ◌^◌, Bool, not, ◌&&◌, ◌||◌, List, [], ◌∷◌, ◌++◌, drop, ltb, ◌==◌,
  if◌then◌else◌,
}
use viji_osc_osd.Base.Bytes.{get8}
use viji_osc_osd.Wire.{get_ntohs, get_ntohl}
use viji_osc_osd.Exec.{Reply, Exit, value, reply, unfinished}
use viji_osc_osd.Device.{cdb_err}
use viji_osc_osd.Cdb.{Descriptor, Request, no_more_descriptors, scatter_gather_list, query_list}

-- The header of a descriptor: its type, the length of what follows, and of the padding.
abbrev pub desc_type : List ℕ → ℕ
desc_type p = get_ntohs p

abbrev pub desc_length : List ℕ → ℕ
desc_length p = get_ntohl (drop 4 p)

abbrev pub desc_pad_length : List ℕ → ℕ
desc_pad_length p = get8 p 3 % 8

-- `desc_len`, before and after the header is counted: numbers of 32 bits.
unfoldable pub desc_len : List ℕ → ℕ
desc_len p = (desc_length p + desc_pad_length p) % 2 ^ 32

unfoldable pub desc_size : List ℕ → ℕ
unfolding desc_len
desc_size p = (desc_len p + 8) % 2 ^ 32

-- The cases of the `switch` that do not jump to the error label.
unfoldable pub is_accepted : ℕ → ℕ → Bool
is_accepted type pad_length =
    type == no_more_descriptors
    || (type == scatter_gather_list || type == query_list) && pad_length == 0

-- The jumps to the error label in one round, with `left` bytes left.
unfoldable pub is_refused : ℕ → List ℕ → Bool
unfolding desc_len desc_size is_accepted
is_refused left p =
    not (desc_len p % 8 == 0)
    || ltb left (desc_size p)
    || not (is_accepted (desc_type p) (desc_pad_length p))

-- The loop over the descriptors, at most `fuel` rounds, with `left` bytes left.
unfoldable pub parse_descriptors : ℕ → ℕ → List ℕ → Reply → List Descriptor → Exit (List Descriptor)
unfolding desc_len desc_size is_refused
parse_descriptors zero left p bad ds = if left == 0 then value ds else unfinished
parse_descriptors (suc fuel) left p bad ds =
    let size = desc_size p in
    let d : Descriptor = record { type = desc_type p; length = desc_length p; body = drop 8 p } in
    let rest = parse_descriptors fuel (left - size) (drop size p) bad (ds ++ d ∷ []) in
    if left == 0 then value ds else if is_refused left p then reply bad else rest

-- A round takes 8 bytes or more, or none: after as many rounds as bytes the loop goes on for ever.
unfoldable pub parse_cdb_continuation_segment : Request → ℕ → ℕ → ℕ → Exit (List Descriptor)
unfolding parse_descriptors
parse_cdb_continuation_segment r cdb_cont_len pid oid =
    let bad = cdb_err pid oid in
    if not (cdb_cont_len % 8 == 0) || ltb cdb_cont_len 48
    then reply bad
    else if not (get_ntohs (drop 2 r.indata) == r.action)
    then reply bad
    else if not (get8 r.indata 0 == 1)
    then reply bad
    else parse_descriptors cdb_cont_len (cdb_cont_len - 40) (drop 40 r.indata) bad []
