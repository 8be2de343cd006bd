-- ===== src/Data/Written.antt =====
-- What the writing handlers of osd-target/osd.c leave in an object.
use viji_osc_osd.Base.{
  ℕ, ◌-◌, ◌^◌, ◌≤◌, ◌<◌, ◌≡◌, ◌≢◌, refl, ap, ◌∙◌, ◌⊎◌, inl, inr, none, List, [], ◌∷◌, take, drop,
  length, ◌==◌, if◌then◌else◌,
}
use viji_osc_osd.Wire.{get_ntohll}
use viji_osc_osd.Store.{Sqlite}
use viji_osc_osd.Files.{Files}
use viji_osc_osd.Exec.{Post, ◌>>◌, bind, weaken}
use viji_osc_osd.Device.{Device, cdb_err, hw_err}
use viji_osc_osd.Io.{SgList, lend}
use viji_osc_osd.Io.Content.{Contents, splice, length-lend, range-splice, update, update_at}
use viji_osc_osd.Io.Opened.{Unwritten}
use viji_osc_osd.Io.Written.{
  Changed, Filled, splice_all, sg_pieces, strided, pieces_of, contig_write-Changed,
  sgl_write-Changed, vec_write-Changed,
}
use viji_osc_osd.Io.Reading.{contig_read-Transferred, range, transfer_full}
use viji_osc_osd.Data.{osd_write, osd_read_device, ddt_contig, ddt_sgl, ddt_vec}

-- The pieces that a write of the data puts into the object.
unfoldable pub write_pieces : ℕ → ℕ → ℕ → List ℕ → SgList → List (ℕ × List ℕ)
write_pieces ddt len offset dinbuf sglist =
    if ddt == ddt_contig
    then (offset, lend len dinbuf) ∷ []
    else sg_pieces sglist.num_entries sglist.entries offset dinbuf

module _ {q : Sqlite} {f : Files} (b : Contents f) (pid oid : ℕ) where
  -- The object's contents are changed, and nothing else is.
  abbrev pub Rewritten : (List ℕ → List ℕ) → Device q f → Device q f → Type 0
  Rewritten change d d' =
      Changed q b pid oid (b.view d.fs) d.conn change d'
      × Filled q b pid oid (b.view d.fs) d.conn 0 d'

  -- `osd_write` with contiguous data, or with a scatter/gather list that has entries, but fewer than
  -- 2 ^ 32, ends. It leaves
  -- the object with the pieces of the data written into its old contents one after the other, the
  -- other objects and the tables as they were, and the object in the current command attributes; or
  -- it refuses the command with no change; or it reports a hardware error, with at most the contents
  -- of the object changed.
  pub osd_write_lem :
      (len offset ddt : ℕ) (dinbuf : List ℕ) (sglist : SgList) (d : Device q f)
      → (ddt ≡ ddt_contig)
        ⊎ ((ddt ≡ ddt_sgl) × (sglist.num_entries ≢ 0) × (sglist.num_entries < 2 ^ 32))
      → Post
          (λ _. Rewritten (splice_all (write_pieces ddt len offset dinbuf sglist)) d)
          (Unwritten q b pid oid (b.view d.fs) d.conn)
          (osd_write pid oid len offset dinbuf sglist ddt d)
  unfolding osd_write write_pieces splice_all
  osd_write_lem len offset ddt dinbuf sglist d h = elim h [
    | inl e ↦ rw e (
        (contig_write-Changed q b pid oid (b.view d.fs) d.conn len offset dinbuf).at d
          record { shown = refl; same = refl })
    | inr (e, some_entries, few) ↦ rw e (
        (sgl_write-Changed q b pid oid (b.view d.fs) d.conn len offset dinbuf sglist some_entries
            few).at
          d record { shown = refl; same = refl })
  ]

  -- With a stride, `osd_write` ends, if the data has a header of two numbers and the length of a
  -- piece is neither 0 nor more than the rest. It leaves the object with all pieces of the data
  -- written a stride apart, or refuses or fails as in the other formats.
  pub osd_write-vec :
      (len offset : ℕ) (dinbuf : List ℕ) (sglist : SgList) (d : Device q f)
      → 16 ≤ len
      → len < 2 ^ 64
      → 0 < get_ntohll (drop 8 dinbuf)
      → get_ntohll (drop 8 dinbuf) ≤ len - 16
      → let piece = get_ntohll (drop 8 dinbuf) in
        Post
          (λ _.
            Rewritten
              (splice_all (
                strided
                  (pieces_of piece (len - 16))
                  piece
                  (get_ntohll dinbuf)
                  offset
                  0
                  (drop 16 dinbuf)
                  (len - 16)))
              d)
          (Unwritten q b pid oid (b.view d.fs) d.conn)
          (osd_write pid oid len offset dinbuf sglist ddt_vec d)
  unfolding osd_write
  osd_write-vec len offset dinbuf sglist d h0 h1 h2 h3 =
      (vec_write-Changed q b pid oid (b.view d.fs) d.conn len offset dinbuf h0 h1 h2 h3).at d
        record { shown = refl; same = refl }

  -- Writing contiguous data and then reading the same range of the object gives the data back, with no
  -- warning, when the buffer has room for it; otherwise one of the two commands left with its error.
  pub read-write :
      (len offset : ℕ) (dinbuf outdata : List ℕ) (sglist sglist' : SgList) (d : Device q f)
      → len ≤ length outdata
      → Post
          (λ t _.
            (take len t.outdata ≡ lend len dinbuf) × (t.used_outlen ≡ len) × (t.warning ≡ none))
          (λ r _. (r ≡ cdb_err pid oid) ⊎ (r ≡ hw_err pid oid))
          ((osd_write pid oid len offset dinbuf sglist ddt_contig
              >> osd_read_device pid oid len offset [] outdata sglist' ddt_contig)
            d)
  unfolding osd_write osd_read_device
  read-write len offset dinbuf outdata sglist sglist' d room =
      (bind
          (weaken (contig_write-Changed q b pid oid (b.view d.fs) d.conn len offset dinbuf)
            (λ e p. p) (λ _ e p. p) (λ r e p. elim p [ inl (x, _) ↦ inl x | inr (x, _) ↦ inr x ]))
          (λ _. record {
            at = λ e ((c, old, h), _).
                (weaken
                    (contig_read-Transferred q b pid oid
                      (update pid oid (splice offset (lend len dinbuf) c) (b.view d.fs)) d.conn len
                      offset outdata)
                    (λ e' p. p)
                    (λ t e' (c', there, kept, same).
                      let now : c' ≡ splice offset (lend len dinbuf) c = cc (
                        there,
                        update_at pid oid (splice offset (lend len dinbuf) c) (b.view d.fs),
                      ) in
                      let all : range len offset c' ≡ lend len dinbuf =
                        ap (range len offset) now
                        ∙ range-splice len offset (lend len dinbuf) c (length-lend len dinbuf) in
                      let full =
                        transfer_full q b pid oid (b.view d.fs) d.conn len outdata (lend len dinbuf)
                          (length-lend len dinbuf) room in
                      rw (same, all) full)
                    (λ r e' p. p.0)).at
                  e record { shown = h.shown; same = h.same };
          })).at
        d record { shown = refl; same = refl }
