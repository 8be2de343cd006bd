-- ===== src/Io/Opened.antt =====
-- The files of the device while a function of osd-target/io.c works on one of them: rules for its
-- system calls.
use viji_osc_osd.Base.{
  ℕ, ◌≡◌, refl, sym, ap, ◌∙◌, subst, ◌⊎◌, inl, inr, not, ◌&&◌, Option, none, some, List, take,
  length, leb, ◌==◌, arith, Option-cases, Bool-cases, take-all,
}
use viji_osc_osd.Store.{Sqlite}
use viji_osc_osd.Files.{Files}
use viji_osc_osd.Exec.{Reply, Exec, Hoare, raise, leave_if, bind, raised, left_if, given, weaken}
use viji_osc_osd.Device.{Device, object_lb, cdb_err, hw_err, sys, fill_ccap}
use viji_osc_osd.Store.{userobject}
use viji_osc_osd.Io.{lend, short, open_object, close_object, require_open, pwrite_all}
use viji_osc_osd.Io.Content.{
  Disk, Contents, update, splice, length-lend, update_self, update-update, update_at,
}

module _ (q : Sqlite) {f : Files} (b : Contents f) (pid oid : ℕ) (g : Disk) (conn : q.Conn) where
  -- The files are g.
  pub record Kept (d : Device q f) : Type 0 where
    pub shown : b.view d.fs ≡ g
    pub same : d.conn ≡ conn

  -- The object's file holds c and the others are those of g; the tables are the same.
  pub record Holds (c : List ℕ) (d : Device q f) : Type 0 where
    pub shown : b.view d.fs ≡ update pid oid c g
    pub same : d.conn ≡ conn

  -- The descriptor is open on the object.
  pub record Open (fd : ℕ) (c : List ℕ) (d : Device q f) : Type 0 where
    pub holds : Holds c d
    pub shows : b.file fd d.fs ≡ some (pid, oid)

  -- What an error leaves behind: the command was refused and nothing changed, or the file system
  -- failed and at most the object's contents changed.
  abbrev pub Unwritten : Reply → Device q f → Type 0
  Unwritten r d =
      ((r ≡ cdb_err pid oid) × Kept d) ⊎ ((r ≡ hw_err pid oid) × ((c : List ℕ) × Holds c d))

  abbrev Opened : Option ℕ → Device q f → Type 0
  Opened o d =
      ((o ≡ none) × Kept d)
      ⊎ ((fd : ℕ) × (o ≡ some fd) × ((c : List ℕ) × (g pid oid ≡ some c) × Open fd c d))

  sys-Opened : {E : Reply → Device q f → Type 0} → Hoare Kept (sys (f.open_file pid oid)) Opened E
  sys-Opened = record {
    at = λ d p.
        let kept = b.open_keeps pid oid d.fs ∙ p.shown in
        elim (Option-cases (f.open_file pid oid d.fs).0) [
          | inl e ↦ inl (e, record { shown = kept; same = p.same })
          | inr (fd, e) ↦
              let (c, there, shows) = b.open_shows pid oid fd d.fs e in
              let old : g pid oid ≡ some c = subst (λ v. v pid oid ≡ some c) p.shown there in
              inr (
                fd,
                e,
                (
                  c,
                  old,
                  record {
                    holds = record {
                      shown = kept ∙ sym (update_self pid oid c g old);
                      same = p.same;
                    };
                    shows = shows;
                  },
                ),
              )
        ];
  }

  required :
      {E : Reply → Device q f → Type 0}
      (refused : (d : Device q f) → Kept d → E (cdb_err pid oid) d) (o : Option ℕ)
      → Hoare
          (Opened o)
          (require_open (cdb_err pid oid) o)
          (λ fd d. (c : List ℕ) × (g pid oid ≡ some c) × Open fd c d)
          E
  required refused none = record {
    at = λ d p. elim p [ inl (e, kept) ↦ refused d kept | inr (fd, e, rest) ↦ absurd (cc e) ];
  }
  required refused (some fd) = record {
    at = λ d p. elim p [
      | inl (e, kept) ↦ absurd (cc e)
      | inr (fd', e, (c, old, o)) ↦
          let e' : fd' ≡ fd = cc e in (c, old, subst (λ n. Open n c d) e' o)
    ];
  }

  pub open_object-Open :
      {E : Reply → Device q f → Type 0}
      (refused : (d : Device q f) → Kept d → E (cdb_err pid oid) d)
      → Hoare Kept
          (open_object pid oid)
          (λ fd d. (c : List ℕ) × (g pid oid ≡ some c) × Open fd c d)
          E
  unfolding open_object
  open_object-Open refused =
      bind
        (left_if (not (leb object_lb pid && leb object_lb oid)) (raised (cdb_err pid oid) refused))
        (λ _. given (λ _. bind sys-Opened (required refused)))

  pub Open-Open :
      (fd off n : ℕ) (src c : List ℕ) (d : Device q f)
      → Open fd c d
      → (f.pwrite fd src off d.fs).0 ≡ some n
      → Open fd (splice off (take n src) c) (record d { fs = (f.pwrite fd src off d.fs).1 })
  Open-Open fd off n src c d o e =
      let there : b.view d.fs pid oid ≡ some c =
        subst (λ v. v pid oid ≡ some c) (sym o.holds.shown) (update_at pid oid c g) in
      record {
        holds = record {
          shown =
              b.pwrite_writes fd off pid oid n src c d.fs o.shows there e
              ∙ ap (update pid oid (splice off (take n src) c)) o.holds.shown
              ∙ update-update pid oid c (splice off (take n src) c) g;
          same = o.holds.same;
        };
        shows = b.pwrite_shows fd off fd src d.fs ∙ o.shows;
      }

  abbrev pub Wrote : ℕ → ℕ → List ℕ → List ℕ → Option ℕ → Device q f → Type 0
  Wrote fd off src c r d =
      ((r ≡ none) × Open fd c d) ⊎ ((n : ℕ) × (r ≡ some n) × Open fd (splice off (take n src) c) d)

  pub sys-Wrote :
      {E : Reply → Device q f → Type 0} (fd off : ℕ) (src c : List ℕ)
      → Hoare (Open fd c) (sys (f.pwrite fd src off)) (Wrote fd off src c) E
  sys-Wrote fd off src c = record {
    at = λ d o. elim (Option-cases (f.pwrite fd src off d.fs).0) [
      | inl e ↦ inl (
        e,
        record {
          holds = record {
            shown = b.pwrite_fails fd off src d.fs e ∙ o.holds.shown;
            same = o.holds.same;
          };
          shows = b.pwrite_shows fd off fd src d.fs ∙ o.shows;
        },
      )
      | inr (n, e) ↦ inr (n, e, Open-Open fd off n src c d o e)
    ];
  }

  -- The test behind `pwrite`: all bytes are there, or the function goes to its error label.
  pub all_Wrote :
      (fd off len : ℕ) (src c : List ℕ) (label : Exec (Device q f) (Unit {0})) (r : Option ℕ)
      → length src ≡ len
      → ((c' : List ℕ) → Hoare (Open fd c') label (λ _. Open fd (splice off src c)) Unwritten)
      → Hoare
          (Wrote fd off src c r)
          (leave_if (short len r) label)
          (λ _. Open fd (splice off src c))
          Unwritten
  all_Wrote fd off len src c label none e leaves = record {
    at = λ d p. elim p [ inl (_, o) ↦ (leaves c).at d o | inr (n, bad, _) ↦ absurd (cc bad) ];
  }
  all_Wrote fd off len src c label (some m) e leaves = record {
    at = λ d p. elim p [
      | inl (bad, _) ↦ absurd (cc bad)
      | inr (n, same, o) ↦
          let e' : n ≡ m = cc same in
          let o' : Open fd (splice off (take m src) c) d =
            subst (λ k. Open fd (splice off (take k src) c) d) e' o in
          elim (Bool-cases (m == len)) [
            | inl all ↦
                rw all (subst (λ l. Open fd (splice off l c) d) (take-all m src (ground arith)) o')
            | inr less ↦ rw less ((leaves (splice off (take m src) c)).at d o')
          ]
    ];
  }

  pub pwrite_all-Open :
      (fd off len : ℕ) (p c : List ℕ)
      → Hoare
          (Open fd c)
          (pwrite_all fd p len off (hw_err pid oid))
          (λ _. Open fd (splice off (lend len p) c))
          Unwritten
  unfolding pwrite_all
  pwrite_all-Open fd off len p c = bind (sys-Wrote fd off (lend len p) c) (λ r.
      all_Wrote fd off len (lend len p) c (raise (hw_err pid oid)) r (length-lend len p)
        (λ c'. raised (hw_err pid oid) (λ d o. inr (refl, (c', o.holds)))))

  pub sys_Closed :
      {E : Reply → Device q f → Type 0} (fd : ℕ) (c : List ℕ)
      → Hoare (Open fd c) (sys (f.close fd)) (λ _. Holds c) E
  sys_Closed fd c = record {
    at = λ d o. record { shown = b.close_keeps fd d.fs ∙ o.holds.shown; same = o.holds.same };
  }

  pub close_object-Holds :
      (fd : ℕ) (c : List ℕ)
      → Hoare (Open fd c) (close_object fd (hw_err pid oid)) (λ _. Holds c) Unwritten
  unfolding close_object
  close_object-Holds fd c = bind (sys_Closed fd c) (λ closed.
      weaken (left_if (not closed) (raised (hw_err pid oid) (λ d p. inr (refl, (c, p))))) (λ d p. p)
        (λ _ d p. p.0) (λ r d p. p))

  pub filled-Holds :
      {E : Reply → Device q f → Type 0} (off : ℕ) (c : List ℕ)
      → Hoare
          (Holds c)
          (fill_ccap userobject pid oid off)
          (λ _ d.
            Holds c d
            × (d.ccap ≡ record { obj_type = userobject; pid = pid; oid = oid; append_off = off }))
          E
  unfolding fill_ccap
  filled-Holds off c = record { at = λ d p. (record { shown = p.shown; same = p.same }, refl) }
