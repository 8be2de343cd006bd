-- ===== src/Examples/Commands.antt =====
-- The theorems on data and on commands at concrete inputs where their hypotheses hold.
use viji_osc_osd.Base.{
  ℕ, ◌+◌, ◌^◌, ◌-◌, ◌≡◌, subst, ◌⊎◌, refl, inl, inr, true, false, none, some, List, [], ◌∷◌, ◌++◌,
  replicate, length, drop, take, map, All, arith,
}
use viji_osc_osd.Wire.{set_htonll, set_htonll_le, get_ntohll, set_htons, set_htons_le, set_htonl}
use viji_osc_osd.Exec.{Post, value, unfinished, ◌>>◌, pure}
use viji_osc_osd.Device.{Device, no_ids, cdb_err, hw_err}
use viji_osc_osd.Memory.{memory}
use viji_osc_osd.Memory.Disk.{disk_files, disk_files-Contents}
use viji_osc_osd.Wire.RoundTrip.{get-set_wrap}
use viji_osc_osd.Io.{SgList, lend, Transfer}
use viji_osc_osd.Io.Content.{update}
use viji_osc_osd.Io.Opened.{Unwritten, Holds}
use viji_osc_osd.Io.Written.{splice_all, strided, pieces_of, Filled}
use viji_osc_osd.Data.{
  osd_write, osd_append, osd_read_device, osd_create_and_write, osd_punch, ddt_sgl, ddt_contig,
  ddt_vec,
}
use viji_osc_osd.Data.Written.{Rewritten, write_pieces, osd_write_lem, osd_write-vec, read-write}
use viji_osc_osd.Data.Appended.{osd_append_lem}
use viji_osc_osd.Data.Punched.{Unpunched, osd_punch_lem}
use viji_osc_osd.Data.Unnumbered.{osd_create_and_write_unnumbered, spoiled}
use viji_osc_osd.Device.Create.{osd_create}
use viji_osc_osd.Store.{partition}
use viji_osc_osd.Cdb.{Request, Cmd, Descriptor, scatter_gather_list}
use viji_osc_osd.Cdb.Continuation.{parse_cdb_continuation_segment}
use viji_osc_osd.Cdb.Parsed.{Fits, segment, shown, parse_cdb_continuation_segment_lem}
use viji_osc_osd.Cdb.Continuation.Ends.{parse_cdb_continuation_segment-endless}
use viji_osc_osd.Cdb.Handlers.{Handlers}

-- What a list or a query of nothing transfers.
abbrev nothing : List ℕ → Transfer
nothing p = record { outdata = p; used_outlen = 0; warning = none }

-- A device with a partition and an object of five bytes.
abbrev pub stored : Device memory disk_files
stored = record {
  conn = record {
    obj = record { pid = 0x10000; oid = 0; type = partition } ∷ [];
    coll = [];
    attr = [];
  };
  fs = record {
    disk = update 0x10000 0x10001 (1 ∷ 2 ∷ 3 ∷ 4 ∷ 5 ∷ []) (λ p o. none);
    opened = none;
  };
  ic = no_ids;
  ccap = record { obj_type = 0; pid = 0; oid = 0; append_off = 0 };
}

abbrev two_pieces : SgList
two_pieces = record {
  num_entries = 2;
  entries = set_htonll 1 ++ set_htonll 2 ++ set_htonll 7 ++ set_htonll 1;
}

osd_write_example :
    Post
      (λ _.
        Rewritten disk_files-Contents 0x10000 0x10001
          (splice_all (write_pieces ddt_sgl 3 0 (7 ∷ 8 ∷ 9 ∷ []) two_pieces))
          stored)
      (Unwritten memory disk_files-Contents 0x10000 0x10001
        (disk_files-Contents.view stored.fs)
        stored.conn)
      (osd_write 0x10000 0x10001 3 0 (7 ∷ 8 ∷ 9 ∷ []) two_pieces ddt_sgl stored)
osd_write_example =
    osd_write_lem disk_files-Contents 0x10000 0x10001 3 0 ddt_sgl (7 ∷ 8 ∷ 9 ∷ []) two_pieces stored
      (inr (refl, omega arith, omega arith))

-- Five bytes in pieces of two, four bytes apart.
abbrev striding : List ℕ
striding = set_htonll 4 ++ (set_htonll 2 ++ 1 ∷ 2 ∷ 3 ∷ 4 ∷ 5 ∷ [])

striding_piece : get_ntohll (drop 8 striding) ≡ 2
unfolding set_htonll_le
striding_piece = (get-set_wrap 2 (1 ∷ 2 ∷ 3 ∷ 4 ∷ 5 ∷ [])).2

osd_write_vec_example :
    let piece = get_ntohll (drop 8 striding) in
    Post
      (λ _.
        Rewritten disk_files-Contents 0x10000 0x10001
          (splice_all (
            strided
              (pieces_of piece (21 - 16))
              piece
              (get_ntohll striding)
              3
              0
              (drop 16 striding)
              (21 - 16)))
          stored)
      (Unwritten memory disk_files-Contents 0x10000 0x10001
        (disk_files-Contents.view stored.fs)
        stored.conn)
      (osd_write 0x10000 0x10001 21 3 striding two_pieces ddt_vec stored)
osd_write_vec_example =
    osd_write-vec disk_files-Contents 0x10000 0x10001 21 3 striding two_pieces stored (omega arith)
      (omega arith) (omega (arith, striding_piece)) (omega (arith, striding_piece))

read-write_example :
    Post
      (λ t _.
        (take 3 t.outdata ≡ lend 3 (7 ∷ 8 ∷ 9 ∷ [])) × (t.used_outlen ≡ 3) × (t.warning ≡ none))
      (λ r _. (r ≡ cdb_err 0x10000 0x10001) ⊎ (r ≡ hw_err 0x10000 0x10001))
      ((osd_write 0x10000 0x10001 3 4 (7 ∷ 8 ∷ 9 ∷ []) two_pieces ddt_contig
          >> osd_read_device 0x10000 0x10001 3 4 [] (replicate 4 0) two_pieces ddt_contig)
        stored)
read-write_example =
    read-write disk_files-Contents 0x10000 0x10001 3 4 (7 ∷ 8 ∷ 9 ∷ []) (replicate 4 0) two_pieces
      two_pieces stored (omega arith)

osd_append_example :
    let g = disk_files-Contents.view stored.fs in
    Post
      (λ _ d'.
        (c : List ℕ) × (g 0x10000 0x10001 ≡ some c)
        × Holds memory disk_files-Contents 0x10000 0x10001 g stored.conn
            (c ++ lend 2 (drop 0 (8 ∷ 9 ∷ [])))
            d'
        × Filled memory disk_files-Contents 0x10000 0x10001 g stored.conn (length c) d')
      (Unwritten memory disk_files-Contents 0x10000 0x10001 g stored.conn)
      (osd_append 0x10000 0x10001 2 (8 ∷ 9 ∷ []) 0 ddt_contig stored)
osd_append_example = osd_append_lem disk_files-Contents 0x10000 0x10001 2 0 (8 ∷ 9 ∷ []) stored

shown_five :
    (c : List ℕ) → disk_files-Contents.view stored.fs 0x10000 0x10001 ≡ some c → length c ≡ 5
unfolding disk_files-Contents
shown_five c e =
    let shown : some (1 ∷ 2 ∷ 3 ∷ 4 ∷ 5 ∷ []) ≡ some c = e in
    let same : 1 ∷ 2 ∷ 3 ∷ 4 ∷ 5 ∷ [] ≡ c = cc shown in subst (λ x. length x ≡ 5) same refl

osd_punch_example :
    let g = disk_files-Contents.view stored.fs in
    Post
      (λ _ d'.
        (c : List ℕ) × (g 0x10000 0x10001 ≡ some c)
        × Holds memory disk_files-Contents 0x10000 0x10001 g stored.conn
            (take 1 c ++ drop (2 + 1) c)
            d')
      (Unpunched disk_files-Contents 0x10000 0x10001 g stored.conn)
      (osd_punch 0x10000 0x10001 2 1 stored)
osd_punch_example =
    osd_punch_lem disk_files-Contents 0x10000 0x10001 2 1 stored (omega arith)
      (λ c e. omega (arith, shown_five c e))

osd_create_and_write_example :
    osd_create_and_write 0x10000 0 3 0 (7 ∷ 8 ∷ 9 ∷ []) two_pieces ddt_contig stored
    ≡ spoiled 0x10000 (osd_create 0x10000 0 1 stored)
osd_create_and_write_example =
    osd_create_and_write_unnumbered 0x10000 3 0 (7 ∷ 8 ∷ 9 ∷ []) two_pieces stored

-- A header of 40 bytes in front of descriptors, for the action of writing.
abbrev behind_header : List ℕ → List ℕ
behind_header p = 1 ∷ 0 ∷ (set_htons 0x8886 ++ (replicate 36 0 ++ p))

abbrev writing : List ℕ → List ℕ → Request
writing cdb indata = record {
  cdb = cdb;
  action = 0x8886;
  getset_cdbfmt = 2;
  retrieved_attr_off = 0;
  indata = indata;
  inlen = length indata;
  has_indata = true;
  has_outdata = false;
}

abbrev one_list : List (ℕ × List ℕ)
one_list = (scatter_gather_list, set_htonll 0 ++ set_htonll 5) ∷ []

one_list-Fits : All Fits one_list
unfolding set_htonll_le
one_list-Fits = ((inl refl, refl, omega arith), tt)

parse_example :
    let r = writing [] (behind_header (segment one_list ++ 9 ∷ [])) in
    (ds : List Descriptor) × (parse_cdb_continuation_segment r (40 + length (segment one_list)) 0 0
      ≡ value ds)
    × (map shown ds ≡ one_list)
unfolding set_htons_le
parse_example =
    parse_cdb_continuation_segment_lem (writing [] (behind_header (segment one_list ++ 9 ∷ []))) 0 0
      (scatter_gather_list, set_htonll 0 ++ set_htonll 5) [] (9 ∷ []) one_list-Fits refl
      (get-set_wrap 0x8886 (replicate 36 0 ++ (segment one_list ++ 9 ∷ []))).0 refl

-- A segment of a header and one descriptor that says that nothing follows, with no byte of 255.
abbrev ending : List ℕ
ending = 1 ∷ 0 ∷ 0x88 ∷ 0x86 ∷ replicate 44 0

-- A descriptor that says that nothing follows, with a length just below 2 ^ 32.
abbrev wrapping : List ℕ
wrapping = set_htons 0 ++ (0 ∷ 0 ∷ (set_htonl (2 ^ 32 - 8) ++ []))

parse_endless_example :
    parse_cdb_continuation_segment (writing [] (behind_header wrapping)) 48 0 0 ≡ unfinished
unfolding set_htons_le
parse_endless_example =
    parse_cdb_continuation_segment-endless (writing [] (behind_header wrapping)) 48 0 0
      (omega arith) refl refl (get-set_wrap 0x8886 (replicate 36 0 ++ wrapping)).0
      (
        (get-set_wrap 0 (0 ∷ 0 ∷ (set_htonl (2 ^ 32 - 8) ++ []))).0,
        (get-set_wrap (2 ^ 32 - 8) []).1,
        refl,
      )

-- Handlers that succeed and change nothing.
abbrev pub quiet : Handlers memory disk_files
quiet = record {
  osd_begin_txn = pure true;
  osd_end_txn = pure true;
  osd_set_attributes = λ pid oid page number val len cont. pure tt;
  osd_getattr_page = λ pid oid page p len cont. pure (p, 0);
  osd_getattr_list = λ pid oid page number p len fmt cont. pure (p, 0);
  osd_list = λ attr pid len oid l id p. pure (nothing p);
  osd_list_collection = λ attr pid cid len oid l id p. pure (nothing p);
  osd_query = λ pid cid n len hdr p cont. pure (nothing p);
  osd_cas = λ pid oid cmp swap p. pure (p, 0);
  osd_fa = λ pid oid add p. pure (p, 0);
  osd_format_osd = λ capacity cont. pure tt;
  osd_set_member_attributes = λ pid cid l cont. pure tt;
  cdb_gen_cas = λ r action cont. pure tt;
}

abbrev command : Cmd memory disk_files
command = record { device = stored; outdata = []; used_outlen = 0; get_used_outlen = 0 }

-- A removal that comes with a continuation of 64 bytes.
abbrev removal : Request
removal = record (writing (replicate 48 0 ++ (set_htonl 64 ++ [])) []) { action = 0x888a }
