-- ===== src/Io/Written.antt =====
-- What the writing functions of osd-target/io.c leave in the object's file.
use viji_osc_osd.Base.{
  true, ℕ, zero, suc, ◌+◌, ◌*◌, ◌-◌, ◌/◌, ◌^◌, ◌≤◌, ◌<◌, ◌≡◌, refl, subst, inl, some, List, [], ◌∷◌,
  drop, ltb, if◌then◌else◌, arith, ◌≢◌, min, ==_ne,
}
use viji_osc_osd.Wire.{get_ntohll}
use viji_osc_osd.Store.{Sqlite, userobject}
use viji_osc_osd.Files.{Files}
use viji_osc_osd.Exec.{Reply, Exec, Hoare, ◌>>=◌, bind, ret, weaken}
use viji_osc_osd.Device.{Device, add64, sub64, hw_err, fill_ccap}
use viji_osc_osd.Io.{
  lend, SgList, entry_offset, entry_bytes_to_transfer, contig_write, sgl_write, sgl_write_rounds,
  sgl_write_all, vec_write, vec_write_rounds, most_rounds, open_object, close_object,
}
use viji_osc_osd.Io.Content.{Disk, Contents, splice}
use viji_osc_osd.Io.Opened.{
  Kept, Holds, Open, Unwritten, open_object-Open, pwrite_all-Open, close_object-Holds, filled-Holds,
}

-- Pieces of data, each with its offset, written one after the other.
unfoldable pub splice_all : List (ℕ × List ℕ) → List ℕ → List ℕ
splice_all [] c = c
splice_all ((off, src) ∷ pieces) c = splice_all pieces (splice off src c)

-- The pieces of a scatter/gather list: its entries take the data in order.
unfoldable pub sg_pieces : ℕ → List ℕ → ℕ → List ℕ → List (ℕ × List ℕ)
sg_pieces zero entries offset p = []
sg_pieces (suc n) entries offset p =
    let len = entry_bytes_to_transfer entries in
    (add64 (entry_offset entries) offset, lend len p)
    ∷ sg_pieces n (drop 16 entries) offset (drop len p)

-- `n` pieces of `len` bytes, a stride apart, of `bytes` bytes in all; the last may be shorter.
unfoldable pub strided : ℕ → ℕ → ℕ → ℕ → ℕ → List ℕ → ℕ → List (ℕ × List ℕ)
strided zero len stride offset at p bytes = []
strided (suc n) len stride offset at p bytes =
    (add64 at offset, lend (min len bytes) p)
    ∷ strided n len stride offset (add64 at stride) (drop len p) (bytes - len)

-- How many pieces that are.
abbrev pub pieces_of : ℕ → ℕ → ℕ
pieces_of len bytes = (bytes + len - 1) / len

pieces_of_bounds :
    (len bytes : ℕ)
    → 0 < len
    → (bytes ≤ pieces_of len bytes * len)
      × (pieces_of len bytes * len < bytes + len)
      × (pieces_of len bytes ≤ bytes)
pieces_of_bounds len bytes h =
    let lo : (bytes + len - 1) / len * len ≤ bytes + len - 1 = grind arith in
    let hi : bytes + len - 1 < (bytes + len - 1) / len * len + len = grind arith in
    (omega arith, omega arith, grind arith)

module _ (q : Sqlite) {f : Files} (b : Contents f) (pid oid : ℕ) (g : Disk) (conn : q.Conn) where
  -- The object's file held c, and holds what `change` makes of it.
  abbrev pub Changed : (List ℕ → List ℕ) → Device q f → Type 0
  Changed change d = (c : List ℕ) × (g pid oid ≡ some c) × Holds q b pid oid g conn (change c) d

  sgl_write_rounds-Open :
      (fd n : ℕ) (entries : List ℕ) (offset : ℕ) (p c : List ℕ)
      → Hoare
          (Open q b pid oid g conn fd c)
          (sgl_write_rounds fd n entries offset p (hw_err pid oid))
          (λ _. Open q b pid oid g conn fd (splice_all (sg_pieces n entries offset p) c))
          (Unwritten q b pid oid g conn)
  unfolding sgl_write_rounds splice_all sg_pieces
  sgl_write_rounds-Open fd zero entries offset p c = ret tt (λ d o. o)
  sgl_write_rounds-Open fd (suc n) entries offset p c =
      bind
        (pwrite_all-Open q b pid oid g conn fd (add64 (entry_offset entries) offset)
          (entry_bytes_to_transfer entries) p c)
        (λ _.
          sgl_write_rounds-Open fd n (drop 16 entries) offset
            (drop (entry_bytes_to_transfer entries) p) _)

  -- Of the current command attributes, what a successful write leaves.
  abbrev pub Filled : ℕ → Device q f → Type 0
  Filled off d = d.ccap ≡ record { obj_type = userobject; pid = pid; oid = oid; append_off = off }

  -- Whatever writes to the open file, between `open` and `close`.
  module _ {body : ℕ → Exec (Device q f) Unit} (change : List ℕ → List ℕ)
      (writes : (fd : ℕ) (c : List ℕ)
        → Hoare
            (Open q b pid oid g conn fd c)
            (body fd)
            (λ _. Open q b pid oid g conn fd (change c))
            (Unwritten q b pid oid g conn)) where
    pub between-Changed :
        Hoare
          (Kept q b pid oid g conn)
          (open_object pid oid >>= λ fd. body fd >>= λ _.
            close_object fd (hw_err pid oid) >>= λ _. fill_ccap userobject pid oid 0)
          (λ _ d. Changed change d × Filled 0 d)
          (Unwritten q b pid oid g conn)
    between-Changed = bind (open_object-Open q b pid oid g conn (λ d k. inl (refl, k))) (λ fd.
        record {
          at = λ d (c, old, o).
              (bind (writes fd c) (λ _.
                  bind (close_object-Holds q b pid oid g conn fd (change c)) (λ _.
                    weaken (filled-Holds q b pid oid g conn 0 (change c)) (λ d p. p)
                      (λ _ d p. ((c, old, p.0), p.1)) (λ r d p. p)))).at
                d o;
        })

  vec_write_done :
      (fuel fd length' stride offset at bytes : ℕ) (p c : List ℕ) (hw : Reply)
      → bytes ≡ 0
      → Hoare
          (Open q b pid oid g conn fd c)
          (vec_write_rounds fuel fd p bytes length' stride at offset hw)
          (λ _. Open q b pid oid g conn fd c)
          (Unwritten q b pid oid g conn)
  unfolding vec_write_rounds
  vec_write_done zero fd length' stride offset at bytes p c hw e = rw e (ret tt (λ d o. o))
  vec_write_done (suc fuel) fd length' stride offset at bytes p c hw e = rw e (ret tt (λ d o. o))

  -- One round, and the loop from the next one on.
  vec_write_step :
      {Q : Unit {0} → Device q f → Type 0} (fuel fd length' stride offset at bytes : ℕ)
      (p c : List ℕ)
      → bytes ≢ 0
      → Hoare
          (Open q b pid oid g conn fd (splice (add64 at offset) (lend length' p) c))
          (vec_write_rounds fuel fd
            (drop length' p)
            (sub64 bytes length')
            (if ltb (sub64 bytes length') length' then sub64 bytes length' else length')
            stride
            (add64 at stride)
            offset
            (hw_err pid oid))
          Q
          (Unwritten q b pid oid g conn)
      → Hoare
          (Open q b pid oid g conn fd c)
          (vec_write_rounds (suc fuel) fd p bytes length' stride at offset (hw_err pid oid))
          Q
          (Unwritten q b pid oid g conn)
  unfolding vec_write_rounds
  vec_write_step {Q} fuel fd length' stride offset at bytes p c more rest =
      let whole =
        bind (pwrite_all-Open q b pid oid g conn fd (add64 at offset) length' p c) (λ _. rest) in
      rw (==_ne bytes 0 more) whole

  -- With as many rounds as pieces, `vec_write` writes them all.
  vec_write_rounds-Open :
      (fuel fd n len stride offset at bytes : ℕ) (p c : List ℕ)
      → n ≤ fuel
      → 0 < len
      → bytes < 2 ^ 64
      → bytes ≤ n * len
      → n * len < bytes + len
      → Hoare
          (Open q b pid oid g conn fd c)
          (vec_write_rounds fuel fd p bytes (min len bytes) stride at offset (hw_err pid oid))
          (λ _. Open q b pid oid g conn fd (splice_all (strided n len stride offset at p bytes) c))
          (Unwritten q b pid oid g conn)
  unfolding splice_all strided
  vec_write_rounds-Open fuel fd zero len stride offset at bytes p c h0 h1 h2 h3 h4 =
      vec_write_done fuel fd _ stride offset at bytes p c _ (omega arith)
  vec_write_rounds-Open zero fd (suc n) len stride offset at bytes p c h0 h1 h2 h3 h4 =
      absurd (omega arith)
  vec_write_rounds-Open (suc fuel) fd (suc zero) len stride offset at bytes p c h0 h1 h2 h3 h4 =
      vec_write_step fuel fd (min len bytes) stride offset at bytes p c (omega arith)
        (vec_write_done fuel fd _ stride offset _ _ _ _ _ (omega arith))
  vec_write_rounds-Open (suc fuel) fd (suc (suc n)) len stride offset at bytes p c h0 h1 h2 h3 h4 =
      let more : (n + 1) * len < bytes = omega arith in
      let big : len < bytes = grind arith in
      let e : min len bytes ≡ len = omega arith in
      let left : sub64 bytes len ≡ bytes - len = omega arith in
      let next : (if ltb (bytes - len) len then bytes - len else len) ≡ min len (bytes - len) =
        ground arith in
      vec_write_step fuel fd (min len bytes) stride offset at bytes p c (omega arith) (
        rw (e, left, next)
          (vec_write_rounds-Open fuel fd (suc n) len stride offset (add64 at stride) (bytes - len)
            (drop len p) (splice (add64 at offset) (lend len p) c) (omega arith) h1 (omega arith)
            (omega arith) (omega arith)))

  pub contig_write-Changed :
      (len offset : ℕ) (dinbuf : List ℕ)
      → Hoare
          (Kept q b pid oid g conn)
          (contig_write pid oid len offset dinbuf)
          (λ _ d. Changed (splice offset (lend len dinbuf)) d × Filled 0 d)
          (Unwritten q b pid oid g conn)
  unfolding contig_write
  contig_write-Changed len offset dinbuf =
      between-Changed (splice offset (lend len dinbuf))
        (λ fd c. pwrite_all-Open q b pid oid g conn fd offset len dinbuf c)

  pub sgl_write-Changed :
      (len offset : ℕ) (dinbuf : List ℕ) (sglist : SgList)
      → sglist.num_entries ≢ 0
      → sglist.num_entries < 2 ^ 32
      → Hoare
          (Kept q b pid oid g conn)
          (sgl_write pid oid len offset dinbuf sglist)
          (λ _ d.
            Changed (splice_all (sg_pieces sglist.num_entries sglist.entries offset dinbuf)) d
            × Filled 0 d)
          (Unwritten q b pid oid g conn)
  unfolding sgl_write sgl_write_all
  sgl_write-Changed len offset dinbuf sglist some_entries few =
      let narrow : ltb sglist.num_entries (2 ^ 32) ≡ true = ground arith in
      rw (==_ne sglist.num_entries 0 some_entries, narrow)
        (between-Changed (splice_all (sg_pieces sglist.num_entries sglist.entries offset dinbuf))
          (λ fd c. sgl_write_rounds-Open fd sglist.num_entries sglist.entries offset dinbuf c))

  pub vec_write-Changed :
      (len offset : ℕ) (dinbuf : List ℕ)
      → 16 ≤ len
      → len < 2 ^ 64
      → 0 < get_ntohll (drop 8 dinbuf)
      → get_ntohll (drop 8 dinbuf) ≤ len - 16
      → let piece = get_ntohll (drop 8 dinbuf) in
        Hoare
          (Kept q b pid oid g conn)
          (vec_write pid oid len offset dinbuf)
          (λ _ d.
            Changed
              (splice_all (
                strided
                  (pieces_of piece (len - 16))
                  piece
                  (get_ntohll dinbuf)
                  offset
                  0
                  (drop 16 dinbuf)
                  (len - 16)))
              d
            × Filled 0 d)
          (Unwritten q b pid oid g conn)
  unfolding vec_write most_rounds
  vec_write-Changed len offset dinbuf h0 h1 h2 h3 =
      let piece = get_ntohll (drop 8 dinbuf) in
      let bytes = len - 16 in
      let e : sub64 len 16 ≡ bytes = omega arith in
      let e' : min piece bytes ≡ piece = omega arith in
      let n = pieces_of_bounds piece bytes h2 in
      between-Changed _ (λ fd c. rw e (
        subst
          (λ k.
            Hoare (Open q b pid oid g conn fd c)
              (vec_write_rounds most_rounds fd (drop 16 dinbuf) bytes k (get_ntohll dinbuf) 0 offset
                (hw_err pid oid))
              (λ _. Open q b pid oid g conn fd (
                splice_all
                  (strided (pieces_of piece bytes) piece (get_ntohll dinbuf) offset 0
                    (drop 16 dinbuf) bytes)
                  c))
              (Unwritten q b pid oid g conn))
          e'
          (vec_write_rounds-Open most_rounds fd (pieces_of piece bytes) piece (get_ntohll dinbuf)
            offset 0 bytes (drop 16 dinbuf) c (omega arith) h2 (omega arith) n.0 n.1)))
