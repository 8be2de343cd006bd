-- ===== src/Data/Appended.antt =====
-- What `osd_append` of osd-target/osd.c leaves in an object.
use viji_osc_osd.Base.{
  ℕ, ◌+◌, ◌≡◌, refl, sym, ap, ◌∙◌, subst, ◌⊎◌, inl, inr, Option, none, some, List, [], ◌∷◌, ◌++◌,
  drop, length, arith, append-nil, drop-all, Option-cases,
}
use viji_osc_osd.Store.{Sqlite, userobject}
use viji_osc_osd.Files.{Files}
use viji_osc_osd.Exec.{Reply, Hoare, Post, ◌>>=◌, ◌>>◌, bind, ret, raised, weaken, given}
use viji_osc_osd.Device.{Device, hw_err, sys, fill_ccap}
use viji_osc_osd.Io.{lend, pwrite_all, close_object}
use viji_osc_osd.Io.Content.{Disk, Contents, splice, update_at}
use viji_osc_osd.Io.Opened.{
  Holds, Open, Unwritten, open_object-Open, pwrite_all-Open, close_object-Holds, filled-Holds,
}
use viji_osc_osd.Io.Written.{Filled}
use viji_osc_osd.Data.{osd_append, contig_append, seek_to_end, require_end, ddt_contig}

lend-all : (c : List ℕ) → lend (length c) c ≡ c
unfolding lend
lend-all [] = refl
lend-all (x ∷ c) = ap (◌∷◌ x) (lend-all c)

-- Writing at the end.
splice_end : (src c : List ℕ) → splice (length c) src c ≡ c ++ src
unfolding splice
splice_end [] c = sym (append-nil c)
splice_end (b ∷ src) c =
    rw (lend-all c, drop-all (length c + length (b ∷ src)) c (omega arith), append-nil)

module _ {q : Sqlite} {f : Files} (b : Contents f) (pid oid : ℕ) where
  Sought : Disk → q.Conn → ℕ → List ℕ → Option ℕ → Device q f → Type 0
  Sought g conn fd c r d = Open q b pid oid g conn fd c d × ((r ≡ none) ⊎ (r ≡ some (length c)))

  sys-Sought :
      {E : Reply → Device q f → Type 0} (g : Disk) (conn : q.Conn) (fd : ℕ) (c : List ℕ)
      → Hoare (Open q b pid oid g conn fd c) (sys (f.seek_end fd)) (Sought g conn fd c) E
  unfolding Sought
  sys-Sought g conn fd c = record {
    at = λ d p.
        let keeps = b.end_keeps fd d.fs in
        (
          record {
            holds = record { shown = keeps.0 ∙ p.holds.shown; same = p.holds.same };
            shows = keeps.1 fd ∙ p.shows;
          },
          elim (Option-cases (f.seek_end fd d.fs).0) [
            | inl e ↦ inl e
            | inr (off, e) ↦ inr (
                e
                ∙ ap some (
                    b.end_found fd pid oid off c d.fs p.shows
                      (subst (λ v. v pid oid ≡ some c) (sym p.holds.shown) (update_at pid oid c g))
                      e))
          ],
        );
  }

  require_end-Open :
      (g : Disk) (conn : q.Conn) (fd : ℕ) (c : List ℕ) (r : Option ℕ)
      → Hoare
          (Sought g conn fd c r)
          (require_end (hw_err pid oid) r)
          (λ off d. Open q b pid oid g conn fd c d × (off ≡ length c))
          (Unwritten q b pid oid g conn)
  unfolding require_end Sought
  require_end-Open g conn fd c none = raised (hw_err pid oid) (λ d p. inr (refl, (c, p.0.holds)))
  require_end-Open g conn fd c (some off) =
      ret off (λ d p. (p.0, elim p.1 [ inl e ↦ absurd (cc e) | inr e ↦ cc e ]))

  -- Behind `open`, on an object with the contents c.
  contig_append-from :
      (g : Disk) (conn : q.Conn) (fd len : ℕ) (p c : List ℕ)
      → g pid oid ≡ some c
      → Hoare
          (Open q b pid oid g conn fd c)
          (seek_to_end fd (hw_err pid oid) >>= λ off.
            pwrite_all fd p len off (hw_err pid oid)
            >> (close_object fd (hw_err pid oid) >> fill_ccap userobject pid oid off))
          (λ _ d.
            (c' : List ℕ) × (g pid oid ≡ some c')
            × Holds q b pid oid g conn (c' ++ lend len p) d
            × Filled q b pid oid g conn (length c') d)
          (Unwritten q b pid oid g conn)
  unfolding seek_to_end
  contig_append-from g conn fd len p c old =
      bind (bind (sys-Sought g conn fd c) (require_end-Open g conn fd c)) (λ off. given (λ e.
        bind (pwrite_all-Open q b pid oid g conn fd off len p c) (λ _.
          bind (close_object-Holds q b pid oid g conn fd (splice off (lend len p) c)) (λ _.
            weaken (filled-Holds q b pid oid g conn off (splice off (lend len p) c)) (λ d h. h)
              (λ _ d h. (
                c,
                old,
                subst (λ l. Holds q b pid oid g conn l d)
                    (ap (λ k. splice k (lend len p) c) e ∙ splice_end (lend len p) c) h.0,
                subst (λ k. Filled q b pid oid g conn k d) e h.1,
              ))
              (λ r d h. h)))))

  -- `osd_append` of contiguous data ends. It leaves the object with the data behind its old contents,
  -- the other objects and the tables as they were, and the current command attributes with the old
  -- length as the offset; or it refuses the command with no change; or it reports a hardware error,
  -- with at most the contents of the object changed.
  pub osd_append_lem :
      (len cdb_cont_len : ℕ) (appenddata : List ℕ) (d : Device q f)
      → Post
          (λ _ d'.
            (c : List ℕ) × (b.view d.fs pid oid ≡ some c)
            × Holds q b pid oid
                (b.view d.fs)
                d.conn
                (c ++ lend len (drop cdb_cont_len appenddata))
                d'
            × Filled q b pid oid (b.view d.fs) d.conn (length c) d')
          (Unwritten q b pid oid (b.view d.fs) d.conn)
          (osd_append pid oid len appenddata cdb_cont_len ddt_contig d)
  unfolding osd_append contig_append
  osd_append_lem len cdb_cont_len appenddata d =
      (bind (open_object-Open q b pid oid (b.view d.fs) d.conn (λ e k. inl (refl, k))) (λ fd.
          record {
            at = λ e (c, old, o).
                (contig_append-from (b.view d.fs) d.conn fd len (drop cdb_cont_len appenddata) c
                    old).at
                  e o;
          })).at
        d record { shown = refl; same = refl }
