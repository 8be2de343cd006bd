-- ===== src/Io/Reading.antt =====
-- What the reading functions of osd-target/io.c return.
use viji_osc_osd.Base.{
  ℕ, ◌-◌, ◌≤◌, ◌≡◌, refl, sym, ap, ◌∙◌, subst, ◌⊎◌, inl, inr, not, Option, none, some, List, ◌++◌,
  take, drop, length, arith, Option-cases, append-nil, take-append_eq, le→ltb,
}
use viji_osc_osd.Base.Bytes.{write_at, write_at-zero}
use viji_osc_osd.Store.{Sqlite, userobject}
use viji_osc_osd.Files.{Files}
use viji_osc_osd.Exec.{
  Reply, Hoare, ◌>>=◌, ◌>>◌, pure, raise, leave_if, bind, ret, raised, left_if, given, weaken,
}
use viji_osc_osd.Device.{Device, cdb_err, hw_err, sys, fill_ccap}
use viji_osc_osd.Io.{
  Transfer, with_zeros, past_end, contig_read, require_read, open_object, close_object,
}
use viji_osc_osd.Io.Content.{Disk, Contents, update_self}
use viji_osc_osd.Io.Opened.{Kept, open_object-Open}

-- The bytes of a range of the contents, as far as there are any.
abbrev pub range : ℕ → ℕ → List ℕ → List ℕ
range len offset c = take len (drop offset c)

module _ (q : Sqlite) {f : Files} (b : Contents f) (pid oid : ℕ) (g : Disk) (conn : q.Conn) where
  -- Reading refuses or fails with all files and tables as they were.
  abbrev pub Unread : Reply → Device q f → Type 0
  Unread r d = ((r ≡ cdb_err pid oid) ⊎ (r ≡ hw_err pid oid)) × Kept q b pid oid g conn d

  -- The object holds c, and nothing changed.
  pub record Reading (fd : ℕ) (c : List ℕ) (d : Device q f) : Type 0 where
    pub old : g pid oid ≡ some c
    pub kept : Kept q b pid oid g conn d
    pub shows : b.file fd d.fs ≡ some (pid, oid)

  pub open_object-Reading :
      Hoare
        (Kept q b pid oid g conn)
        (open_object pid oid)
        (λ fd d. (c : List ℕ) × Reading fd c d)
        Unread
  open_object-Reading =
      weaken (open_object-Open q b pid oid g conn (λ d k. (inl refl, k))) (λ d p. p)
        (λ fd d (c, old, o). (
          c,
          record {
            old = old;
            kept = record {
              shown = o.holds.shown ∙ update_self pid oid c g old;
              same = o.holds.same;
            };
            shows = o.shows;
          },
        ))
        (λ r d p. p)

  -- After `pread`: a failure, or exactly the range.
  abbrev pub Found : ℕ → ℕ → ℕ → List ℕ → Option (List ℕ) → Device q f → Type 0
  Found fd len off c r d = Reading fd c d × ((r ≡ none) ⊎ (r ≡ some (range len off c)))

  pub sys-Found :
      {E : Reply → Device q f → Type 0} (fd len off : ℕ) (c : List ℕ)
      → Hoare (Reading fd c) (sys (f.pread fd len off)) (Found fd len off c) E
  sys-Found fd len off c = record {
    at = λ d p.
        let keeps = b.pread_keeps fd len off d.fs in
        (
          record {
            old = p.old;
            kept = record { shown = keeps.0 ∙ p.kept.shown; same = p.kept.same };
            shows = keeps.1 fd ∙ p.shows;
          },
          elim (Option-cases (f.pread fd len off d.fs).0) [
            | inl e ↦ inl e
            | inr (bytes, e) ↦ inr (
                e
                ∙ ap some (
                    b.pread_reads fd len off pid oid c bytes d.fs p.shows
                      (subst (λ v. v pid oid ≡ some c) (sym p.kept.shown) p.old) e))
          ],
        );
  }

  -- What reading the bytes transfers, and reading from the contents c.
  abbrev pub transfer_of : ℕ → List ℕ → List ℕ → Transfer
  transfer_of len outdata bytes = record {
    outdata = write_at 0 (with_zeros len bytes) outdata;
    used_outlen = len;
    warning = past_end pid oid len (length bytes);
  }

  abbrev pub contig_transfer : ℕ → ℕ → List ℕ → List ℕ → Transfer
  contig_transfer len offset outdata c = transfer_of len outdata (range len offset c)

  abbrev pub Transferred : (List ℕ → Transfer) → Transfer → Device q f → Type 0
  Transferred transfer t d =
      (c : List ℕ) × (g pid oid ≡ some c) × Kept q b pid oid g conn d × (t ≡ transfer c)

  closed-Kept :
      {E : Reply → Device q f → Type 0} (fd : ℕ) (c : List ℕ)
      → Hoare (Reading fd c) (sys (f.close fd)) (λ _. Kept q b pid oid g conn) E
  closed-Kept fd c = record {
    at = λ d p. record { shown = b.close_keeps fd d.fs ∙ p.kept.shown; same = p.kept.same };
  }

  pub close_object-Kept :
      (fd : ℕ) (c : List ℕ)
      → Hoare
          (Reading fd c)
          (close_object fd (hw_err pid oid))
          (λ _. Kept q b pid oid g conn)
          Unread
  unfolding close_object
  close_object-Kept fd c = bind (closed-Kept fd c) (λ closed.
      weaken (left_if (not closed) (raised (hw_err pid oid) (λ d p. (inr refl, p)))) (λ d p. p)
        (λ _ d p. p.0) (λ r d p. p))

  filled-Kept :
      {E : Reply → Device q f → Type 0}
      → Hoare
          (Kept q b pid oid g conn)
          (fill_ccap userobject pid oid 0)
          (λ _. Kept q b pid oid g conn)
          E
  unfolding fill_ccap
  filled-Kept = record { at = λ d p. record { shown = p.shown; same = p.same } }

  -- `if (ret < 0) goto out_hw_err;`
  require_read-Kept :
      (len off : ℕ) (c : List ℕ) (r : Option (List ℕ))
      → (r ≡ none) ⊎ (r ≡ some (range len off c))
      → Hoare
          (Kept q b pid oid g conn)
          (require_read (hw_err pid oid) r)
          (λ bytes d. Kept q b pid oid g conn d × (bytes ≡ range len off c))
          Unread
  require_read-Kept len off c none h = raised (hw_err pid oid) (λ d p. (inr refl, p))
  require_read-Kept len off c (some bytes) h =
      ret bytes (λ d p. (p, elim h [ inl e ↦ absurd (cc e) | inr e ↦ cc e ]))

  -- Behind `open`.
  contig_read-from :
      (fd len offset : ℕ) (outdata c : List ℕ)
      → g pid oid ≡ some c
      → Hoare
          (Reading fd c)
          (sys (f.pread fd len offset) >>= λ found. sys (f.close fd) >>= λ closed.
            require_read (hw_err pid oid) found >>= λ bytes.
            leave_if (not closed) (raise (hw_err pid oid))
            >> (fill_ccap userobject pid oid 0 >> pure (transfer_of len outdata bytes)))
          (Transferred (contig_transfer len offset outdata))
          Unread
  contig_read-from fd len offset outdata c old = bind (sys-Found fd len offset c) (λ found.
      given (λ h. bind (closed-Kept fd c) (λ closed.
        bind (require_read-Kept len offset c found h) (λ bytes. given (λ e.
          bind (left_if (not closed) (raised (hw_err pid oid) (λ d p. (inr refl, p)))) (λ _.
            given (λ _. bind filled-Kept (λ _.
              ret (transfer_of len outdata bytes)
                (λ d p. (c, old, p, ap (transfer_of len outdata) e))))))))))

  pub contig_read-Transferred :
      (len offset : ℕ) (outdata : List ℕ)
      → Hoare
          (Kept q b pid oid g conn)
          (contig_read pid oid len offset outdata)
          (Transferred (contig_transfer len offset outdata))
          Unread
  unfolding contig_read
  contig_read-Transferred len offset outdata =
      bind open_object-Reading
        (λ fd. record { at = λ d (c, p). (contig_read-from fd len offset outdata c p.old).at d p })

  -- What was read in full fills the front of the buffer, with no warning.
  pub transfer_full :
      (len : ℕ) (outdata bytes : List ℕ)
      → length bytes ≡ len
      → len ≤ length outdata
      → let t = transfer_of len outdata bytes in
        (take len t.outdata ≡ bytes) × (t.used_outlen ≡ len) × (t.warning ≡ none)
  unfolding past_end
  transfer_full len outdata bytes e h =
      let none_left : len - length bytes ≡ 0 = omega arith in
      let front : write_at 0 bytes outdata ≡ bytes ++ drop (length bytes) outdata =
        write_at-zero bytes outdata (omega arith) in
      (
        rw (none_left, append-nil, front) (take-append_eq len bytes _ e),
        refl,
        rw (le→ltb (length bytes) len (omega arith)),
      )
