-- ===== src/Device/Queries.antt =====
-- `osd_query` of osd-target/osd.c, with the parsing of its criteria and `mtq_run_query` of
-- osd-target/mtq.c. Memory that is asked for is found.
pub mod Overrun
use viji_osc_osd.Base.{
  ℕ, zero, suc, ◌+◌, ◌*◌, ◌-◌, ◌%◌, ◌^◌, Bool, true, false, not, ◌&&◌, ◌||◌, Option, none, some,
  List, [], ◌∷◌, drop, replicate, length, ltb, leb, ◌==◌, if◌then◌else◌,
}
use viji_osc_osd.Base.Bytes.{get8, write_at}
use viji_osc_osd.Wire.{get_ntohs, get_ntohl, set_htonll}
use viji_osc_osd.Criteria.{Criterion}
use viji_osc_osd.Db.{Answers, unbound, done, failed, busy, row, schema}
use viji_osc_osd.Page.{partition_pg}
use viji_osc_osd.Store.{Sqlite, Stmt, collection}
use viji_osc_osd.Store.Obj.{obj_ispresent}
use viji_osc_osd.Files.{Files}
use viji_osc_osd.Exec.{
  Exec, Exit, value, reply, unfinished, Reply, pure, raise, ◌>>=◌, ◌>>◌, leave_if, spin,
}
use viji_osc_osd.Io.{Transfer, lend}
use viji_osc_osd.Device.{Device, object_lb, missing, cdb_err, hw_err, db, fill_ccap}

-- `ML_ODL_OFF`, behind the header of the list, which is also `MIN_ML_LEN`.
abbrev pub ml_odl_off : ℕ
ml_odl_off = 13

-- The entry at the front of the list, and how many bytes it has.
criterion_at : List ℕ → Criterion
criterion_at cp =
    let min_len = get_ntohs (drop 12 cp) in
    let max_at = drop (14 + min_len) cp in
    record {
      page = get_ntohl (drop 4 cp);
      number = get_ntohl (drop 8 cp);
      min_val = lend min_len (drop 14 cp);
      max_val = lend (get_ntohs max_at) (drop 2 max_at);
    }

criterion_size : List ℕ → ℕ
criterion_size cp =
    let min_len = get_ntohs (drop 12 cp) in 14 + min_len + 2 + get_ntohs (drop (14 + min_len) cp)

with_entry : Criterion → Exit (Option (List Criterion)) → Exit (Option (List Criterion))
with_entry c (value none) = value none
with_entry c (value (some cs)) = value (some (c ∷ cs))
with_entry c (reply r) = reply r
with_entry c unfinished = unfinished

-- The loop of `parse_query_criteria`, at most `fuel` rounds, with `qll` bytes left; an entry that runs
-- over them makes the number wrap around. `none` is an error.
parse_criteria : ℕ → List ℕ → ℕ → Exit (Option (List Criterion))
parse_criteria zero cp qll = if qll == 0 then value (some []) else unfinished
parse_criteria (suc fuel) cp qll =
    let rest =
      parse_criteria fuel (drop (criterion_size cp) cp)
        ((qll + 2 ^ 32 - criterion_size cp % 2 ^ 32) % 2 ^ 32) in
    if qll == 0
    then value (some [])
    else if get_ntohs (drop 2 cp) == 0
    then value (some [])
    else if leb partition_pg (get_ntohl (drop 4 cp))
    then value none
    else with_entry (criterion_at cp) rest

-- An entry takes 16 bytes or more, and memory behind the request reads as an empty one.
pub parse_query_criteria : List ℕ → ℕ → Exit (Option (List Criterion))
parse_query_criteria cp qll =
    parse_criteria (length cp + 1) (drop 4 cp) ((qll + 2 ^ 32 - 4) % 2 ^ 32)

-- The variables of the loop over the rows: the memory from `outdata` on, how far `p` is in it, `len`
-- and `*used_outlen`.
pub record Found : Type 0 where
  pub mem : List ℕ
  pub off : ℕ
  pub len : ℕ
  pub used : ℕ

-- What is left of the buffer is a number of 64 bits. `none` where the identifier is written behind the
-- end of the buffer: what happens then is undefined.
pub put_id : ℕ → Found → ℕ → Option Found
put_id alloc_len s id =
    if ltb 8 ((alloc_len + 2 ^ 64 - s.len) % 2 ^ 64)
    then (if ltb (length s.mem) (s.off + 8)
        then none
        else some
            (record s { mem = write_at s.off (set_htonll id) s.mem; used = (s.used + 8) % 2 ^ 64 }))
    else some s

pub next_id : Found → Found
next_id s = record s {
  off = s.off + 8;
  len = if ltb s.len ((s.len + 8) % 2 ^ 64) then (s.len + 8) % 2 ^ 64 else 2 ^ 64 - 1;
}

after_put : Found → Option Found → Found
after_put s none = s
after_put s (some t) = next_id t

unless_behind : Option Found → Exit (Option Found) → Exit (Option Found)
unless_behind none rest = unfinished
unless_behind (some t) rest = rest

-- `none` where the last step is not SQLITE_DONE.
pub query_rows : ℕ → Found → Answers ℕ → Exit (Option Found)
query_rows alloc_len s unbound = value none
query_rows alloc_len s done = value (some s)
query_rows alloc_len s failed = value none
query_rows alloc_len s (busy rest) = value none
query_rows alloc_len s (row id rest) =
    let put = put_id alloc_len s id in
    unless_behind put (query_rows alloc_len (after_put s put) rest)
query_rows alloc_len s (schema up rest) = value none

abbrev pub first_found : List ℕ → Found
first_found outdata = record {
  mem = outdata;
  off = ml_odl_off;
  len = ml_odl_off - 8;
  used = ml_odl_off;
}

with_length : Exit (Option Found) → Exit (Option Found)
with_length (value (some s)) = value (some (record s { mem = write_at 0 (set_htonll s.len) s.mem }))
with_length r = r

module _ (q : Sqlite) where
  mtq_run_query : ℕ → ℕ → ℕ → List Criterion → List ℕ → ℕ → q.Conn → Exit (Option Found) × q.Conn
  mtq_run_query pid cid query_type criteria outdata alloc_len c =
      if leb query_type 1
      then (let (answers, c') = q.run (Stmt.coll_query pid cid query_type criteria) c in
          (with_length (query_rows alloc_len (first_found outdata) answers), c'))
      else (value none, c)

module _ {q : Sqlite} {f : Files} where
  -- `if (ret) goto label;`
  require_result : {A : Type 0} → Reply → Exit (Option A) → Exec (Device q f) A
  require_result label (value none) = raise label
  require_result label (value (some x)) = pure x
  require_result label (reply r) = raise r
  require_result label unfinished = spin

  run_query : ℕ → ℕ → ℕ → ℕ → List ℕ → List ℕ → Exec (Device q f) Transfer
  run_query pid cid query_list_len alloc_len indata outdata = do
    leave_if (ltb alloc_len ml_odl_off) (raise (cdb_err pid cid))
    criteria ← require_result (cdb_err pid cid) (parse_query_criteria indata query_list_len)
    let cleared = write_at 12 (0x84 ∷ []) (write_at 8 (replicate 4 0) outdata)
    found ← db (mtq_run_query q pid cid (get8 indata 0 % 16) criteria cleared (alloc_len % 2 ^ 32))
    s ← require_result (hw_err pid cid) found
    fill_ccap collection pid cid 0
    pure (record { outdata = s.mem; used_outlen = s.used; warning = none })

  -- The caller's `*used_outlen` holds `used` before.
  pub osd_query : ℕ → ℕ → ℕ → ℕ → List ℕ → List ℕ → ℕ → Exec (Device q f) Transfer
  osd_query pid cid query_list_len alloc_len indata outdata used = do
    leave_if (ltb pid object_lb) (raise (cdb_err pid cid))
    found ← db (obj_ispresent q pid cid)
    leave_if (missing found) (raise (cdb_err pid cid))
    leave_if (ltb query_list_len 8) (raise (cdb_err pid cid))
    if alloc_len == 0
        then pure (record { outdata = outdata; used_outlen = used; warning = none })
        else run_query pid cid query_list_len alloc_len indata outdata
