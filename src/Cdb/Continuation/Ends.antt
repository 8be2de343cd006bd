-- ===== src/Cdb/Continuation/Ends.antt =====
-- Where the loop over the descriptors of a continuation segment ends.
use viji_osc_osd.Base.{
  ℕ, zero, suc, ◌-◌, ◌%◌, ◌^◌, ◌≤◌, ◌≡◌, ◌≢◌, false, List, [], ◌∷◌, ◌++◌, drop, arith, ==_ne,
  ==_self, le→ltb,
}
use viji_osc_osd.Base.Bytes.{get8}
use viji_osc_osd.Wire.{get_ntohs}
use viji_osc_osd.Exec.{Reply, unfinished}
use viji_osc_osd.Device.{cdb_err}
use viji_osc_osd.Cdb.{Descriptor, Request, no_more_descriptors}
use viji_osc_osd.Cdb.Continuation.{
  parse_descriptors, is_refused, desc_size, desc_len, desc_length, desc_pad_length, desc_type,
  is_accepted, parse_cdb_continuation_segment,
}

-- A descriptor of which the length is just below 2 ^ 32: its size, with the header, is counted as 0.
wrapped_size : (p : List ℕ) → desc_length p ≡ 2 ^ 32 - 8 → desc_pad_length p ≡ 0 → desc_size p ≡ 0
unfolding desc_size desc_len
wrapped_size p h k = omega (arith, h, k)

wrapped-accepted :
    (left : ℕ) (p : List ℕ)
    → desc_type p ≡ no_more_descriptors
    → desc_length p ≡ 2 ^ 32 - 8
    → desc_pad_length p ≡ 0
    → is_refused left p ≡ false
unfolding is_refused desc_size desc_len is_accepted
wrapped-accepted left p t h k = rw (t, h, k, le→ltb left 0 (omega arith))

-- The loop stays at such a descriptor, whatever the number of rounds.
parse_descriptors-unfinished :
    (fuel left : ℕ) (p : List ℕ) (bad : Reply) (ds : List Descriptor)
    → left ≢ 0
    → desc_type p ≡ no_more_descriptors
    → desc_length p ≡ 2 ^ 32 - 8
    → desc_pad_length p ≡ 0
    → parse_descriptors fuel left p bad ds ≡ unfinished
unfolding parse_descriptors
parse_descriptors-unfinished zero left p bad ds h t l k = rw (==_ne left 0 h)
parse_descriptors-unfinished (suc fuel) left p bad ds h t l k =
    let same : left - 0 ≡ left = omega arith in
    rw (==_ne left 0 h, wrapped-accepted left p t l k, wrapped_size p l k, same)
      (parse_descriptors-unfinished fuel left p bad
        (ds ++ record { type = desc_type p; length = desc_length p; body = drop 8 p } ∷ []) h t l k)

-- A continuation segment whose header is right and whose first descriptor has type 0, no padding and
-- the length 2 ^ 32 - 8 is never parsed to an end.
pub parse_cdb_continuation_segment-endless :
    (r : Request) (cdb_cont_len pid oid : ℕ)
    → 48 ≤ cdb_cont_len
    → cdb_cont_len % 8 ≡ 0
    → get8 r.indata 0 ≡ 1
    → get_ntohs (drop 2 r.indata) ≡ r.action
    → (desc_type (drop 40 r.indata) ≡ no_more_descriptors)
      × (desc_length (drop 40 r.indata) ≡ 2 ^ 32 - 8)
      × (desc_pad_length (drop 40 r.indata) ≡ 0)
    → parse_cdb_continuation_segment r cdb_cont_len pid oid ≡ unfinished
unfolding parse_cdb_continuation_segment
parse_cdb_continuation_segment-endless r cdb_cont_len pid oid h aligned format action (t, l, k) =
    rw (aligned, le→ltb cdb_cont_len 48 h, action, ==_self r.action, format)
      (parse_descriptors-unfinished cdb_cont_len (cdb_cont_len - 40) (drop 40 r.indata)
        (cdb_err pid oid) [] (omega arith) t l k)
