-- ===== src/Data/Punched.antt =====
-- What `osd_punch` of osd-target/osd.c leaves in an object.
use viji_osc_osd.Base.{
  if◌then◌else◌, ℕ, zero, suc, ◌+◌, ◌-◌, ◌^◌, ◌≤◌, ◌<◌, ◌≡◌, refl, sym, ap, ◌∙◌, subst, ◌⊎◌, inl,
  inr, Bool, true, false, not, Option, none, some, List, [], ◌∷◌, ◌++◌, take, drop, length, ltb,
  arith, Bool-cases, append-nil, append_assoc, drop-all, take-all, length-drop, length-append,
  take-append_eq,
}
use viji_osc_osd.Store.{Sqlite}
use viji_osc_osd.Files.{Files}
use viji_osc_osd.Exec.{
  Reply, osd_error_reply, Hoare, Post, leave_if, ◌>>=◌, ◌>>◌, bind, ret, raised, left_if, weaken,
  given,
}
use viji_osc_osd.Device.{Device, cdb_err, hw_err, sys, add64}
use viji_osc_osd.Io.{lend}
use viji_osc_osd.Io.Content.{
  Disk, Contents, splice, update, update_at, update_self, update-update, length-lend,
}
use viji_osc_osd.Io.Opened.{Kept, Holds, Open, Unwritten, open_object-Open, sys-Wrote, all_Wrote}
use viji_osc_osd.Io.Reading.{Reading, Found, sys-Found, range}
use viji_osc_osd.Data.{
  stat_size, close_and, leave_hw_if, close_or_hw, punch_tail, punch_middle, bytes_or_leave,
  osd_punch,
}
use viji_osc_osd.Data.Mapped.{stat_size-Reading}

lend_within : (n : ℕ) (c : List ℕ) → n ≤ length c → lend n c ≡ take n c
unfolding lend
lend_within zero c h = refl
lend_within (suc n) [] h = absurd (omega (arith, h))
lend_within (suc n) (b ∷ c) h = ap (◌∷◌ b) (lend_within n c (omega (arith, h)))

-- The bytes behind a range, moved to its start, and the file cut behind them.
lend-splice :
    (offset n : ℕ) (src c : List ℕ)
    → offset ≤ length c
    → n ≡ offset + length src
    → lend n (splice offset src c) ≡ take offset c ++ src
unfolding splice
lend-splice offset n [] c h e =
    let e' : n ≡ offset = omega (arith, e) in
    rw e' (lend_within offset c h ∙ sym (append-nil (take offset c)))
lend-splice offset n (b ∷ src) c h e =
    let rest = drop (offset + length (b ∷ src)) c in
    let front = lend offset c ++ (b ∷ src) in
    let l : length front ≡ n =
      omega (arith, length-append (lend offset c) (b ∷ src), length-lend offset c, e) in
    ap (lend n) (sym (append_assoc (lend offset c) (b ∷ src) rest))
    ∙ lend_within n (front ++ rest) (omega (arith, length-append front rest, l))
    ∙ take-append_eq n front rest l
    ∙ ap (λ x. x ++ (b ∷ src)) (lend_within offset c h)

module _ {q : Sqlite} {f : Files} (b : Contents f) (pid oid : ℕ) (g : Disk) (conn : q.Conn) where
  closed-Holds :
      {E : Reply → Device q f → Type 0} (fd : ℕ) (c : List ℕ)
      → Hoare (Holds q b pid oid g conn c) (sys (f.close fd)) (λ _. Holds q b pid oid g conn c) E
  closed-Holds fd c = record {
    at = λ d p. record { shown = b.close_keeps fd d.fs ∙ p.shown; same = p.same };
  }

  failing :
      {A : Type 0} {Q : A → Device q f → Type 0} (fd : ℕ) (c : List ℕ)
      → Hoare
          (Holds q b pid oid g conn c)
          (close_and {A = A} fd (hw_err pid oid))
          Q
          (Unwritten q b pid oid g conn)
  failing fd c = bind (closed-Holds fd c) (λ _. raised (hw_err pid oid) (λ d p. inr (refl, (c, p))))

  hw_left :
      {P : Device q f → Type 0} (fd : ℕ) (c : List ℕ) (failed : Bool)
      → ((d : Device q f) → P d → Holds q b pid oid g conn c d)
      → Hoare P
          (leave_hw_if failed fd (hw_err pid oid))
          (λ _ d. P d × (failed ≡ false))
          (Unwritten q b pid oid g conn)
  unfolding leave_hw_if
  hw_left fd c failed holds = left_if failed (weaken (failing fd c) holds (λ _ d p. p) (λ r d p. p))

  close_or_hw-Holds :
      (fd : ℕ) (c : List ℕ)
      → Hoare
          (Holds q b pid oid g conn c)
          (close_or_hw fd (hw_err pid oid))
          (λ _. Holds q b pid oid g conn c)
          (Unwritten q b pid oid g conn)
  unfolding close_or_hw
  close_or_hw-Holds fd c = bind (closed-Holds fd c) (λ closed.
      weaken (hw_left fd c (not closed) (λ d p. p)) (λ d p. p) (λ _ d p. p.0) (λ r d p. p))

  -- Cutting the file, with its failure.
  Cut : ℕ → List ℕ → Bool → Device q f → Type 0
  Cut n c cut d =
      ((cut ≡ false) × Holds q b pid oid g conn c d)
      ⊎ ((cut ≡ true) × Holds q b pid oid g conn (lend n c) d)

  sys-Cut :
      {E : Reply → Device q f → Type 0} (n : ℕ) (c : List ℕ)
      → Hoare (Holds q b pid oid g conn c) (sys (f.truncate pid oid n)) (Cut n c) E
  unfolding Cut
  sys-Cut n c = record {
    at = λ d p.
        let there : b.view d.fs pid oid ≡ some c =
          subst (λ v. v pid oid ≡ some c) (sym p.shown) (update_at pid oid c g) in
        elim (Bool-cases (f.truncate pid oid n d.fs).0) [
          | inl e ↦ inr (
            e,
            record {
              shown =
                  b.truncate_cuts pid oid n c d.fs there e
                  ∙ ap (update pid oid (lend n c)) p.shown
                  ∙ update-update pid oid c (lend n c) g;
              same = p.same;
            },
          )
          | inr e ↦
              inl (e, record { shown = b.truncate_fails pid oid n d.fs e ∙ p.shown; same = p.same })
        ];
  }

  tested_Cut :
      (fd n : ℕ) (c : List ℕ) (cut : Bool)
      → Hoare
          (Cut n c cut)
          (leave_hw_if (not cut) fd (hw_err pid oid))
          (λ _. Holds q b pid oid g conn (lend n c))
          (Unwritten q b pid oid g conn)
  unfolding leave_hw_if Cut
  tested_Cut fd n c true = record {
    at = λ d p. elim p [ inl (e, _) ↦ absurd (cc e) | inr (_, h) ↦ h ];
  }
  tested_Cut fd n c false = record {
    at = λ d p. elim p [
      | inl (_, h) ↦
          (failing {A = Unit {0}} {Q = λ _. Holds q b pid oid g conn (lend n c)} fd c).at d h
      | inr (e, _) ↦ absurd (cc e)
    ];
  }

  -- `punch_tail`, which is also the end of `punch_middle`.
  punch_tail-Holds :
      (fd n : ℕ) (c : List ℕ)
      → Hoare
          (Holds q b pid oid g conn c)
          (punch_tail fd pid oid n (hw_err pid oid))
          (λ _. Holds q b pid oid g conn (lend n c))
          (Unwritten q b pid oid g conn)
  unfolding punch_tail
  punch_tail-Holds fd n c =
      bind (sys-Cut n c)
        (λ cut. bind (tested_Cut fd n c cut) (λ _. close_or_hw-Holds fd (lend n c)))

  Reading-Open :
      (fd : ℕ) (c : List ℕ) (d : Device q f)
      → Reading q b pid oid g conn fd c d
      → Open q b pid oid g conn fd c d
  Reading-Open fd c d p = record {
    holds = record {
      shown = p.kept.shown ∙ sym (update_self pid oid c g p.old);
      same = p.kept.same;
    };
    shows = p.shows;
  }

  sys-Alloc :
      {E : Reply → Device q f → Type 0} (fd n : ℕ) (c : List ℕ)
      → Hoare
          (Reading q b pid oid g conn fd c)
          (sys (f.alloc n))
          (λ _. Reading q b pid oid g conn fd c)
          E
  sys-Alloc fd n c = record {
    at = λ d p.
        let keeps = b.alloc_keeps n d.fs in
        record {
          old = p.old;
          kept = record { shown = keeps.0 ∙ p.kept.shown; same = p.kept.same };
          shows = keeps.1 fd ∙ p.shows;
        };
  }

  bytes_left :
      (fd n off : ℕ) (c : List ℕ) (found : Option (List ℕ))
      → Hoare
          (Found q b pid oid g conn fd n off c found)
          (bytes_or_leave fd (hw_err pid oid) found)
          (λ bytes d. Open q b pid oid g conn fd c d × (bytes ≡ range n off c))
          (Unwritten q b pid oid g conn)
  unfolding bytes_or_leave
  bytes_left fd n off c none =
      weaken (failing fd c) (λ d p. (Reading-Open fd c d p.0).holds) (λ _ d p. p) (λ r d p. p)
  bytes_left fd n off c (some bytes) =
      ret bytes
        (λ d p. (Reading-Open fd c d p.0, elim p.1 [ inl e ↦ absurd (cc e) | inr e ↦ cc e ]))

  -- The bytes behind the range are moved to its start.
  punch_middle-Holds :
      (fd offset new n : ℕ) (c : List ℕ)
      → offset ≤ new
      → new ≤ length c
      → length c < 2 ^ 63
      → n ≡ length c - new
      → Hoare
          (Reading q b pid oid g conn fd c)
          (punch_middle fd pid oid offset new n (hw_err pid oid))
          (λ _. Holds q b pid oid g conn (take offset c ++ drop new c))
          (Unwritten q b pid oid g conn)
  unfolding punch_middle punch_tail leave_hw_if
  punch_middle-Holds fd offset new n c before inside small e =
      let l : length (drop new c) ≡ n = length-drop new c ∙ sym e in
      let whole : lend n (take n (drop new c)) ≡ drop new c =
        ap (lend n) (take-all n (drop new c) (omega (arith, l)))
        ∙ lend_within n (drop new c) (omega (arith, l))
        ∙ take-all n (drop new c) (omega (arith, l)) in
      let no_wrap : add64 offset n ≡ offset + n = omega (arith, e) in
      let moved : lend (add64 offset n) (splice offset (drop new c) c)
          ≡ take offset c ++ drop new c =
        lend-splice offset (add64 offset n) (drop new c) c (omega arith)
          (omega (arith, no_wrap, l)) in
      bind (sys-Alloc fd n c) (λ room.
        bind (hw_left fd c (not room) (λ d p. (Reading-Open fd c d p).holds)) (λ _. given (λ _.
          bind (sys-Found q b pid oid g conn fd n new c) (λ found.
            bind (bytes_left fd n new c found) (λ buf. given (λ same.
              bind (sys-Wrote q b pid oid g conn fd offset (lend n buf) c) (λ written.
                bind
                  (all_Wrote q b pid oid g conn fd offset n (lend n buf) c
                    (close_and fd (hw_err pid oid)) written (length-lend n buf)
                    (λ c'. weaken (failing fd c') (λ d p. p.holds) (λ _ d p. p) (λ r d p. p)))
                  (λ _.
                    weaken (punch_tail-Holds fd (add64 offset n) (splice offset (lend n buf) c))
                      (λ d p. p.holds)
                      (λ _ d p.
                        subst (λ x. Holds q b pid oid g conn x d)
                          (ap (λ y. lend (add64 offset n) (splice offset (lend n y) c)) same
                            ∙ ap (λ y. lend (add64 offset n) (splice offset y c)) whole
                            ∙ moved)
                          p)
                      (λ r d p. p)))))))))

  -- The range ends within the contents, or behind them.
  punch_either :
      (fd offset new size : ℕ) (c : List ℕ)
      → offset ≤ new
      → offset ≤ size
      → size ≡ length c
      → length c < 2 ^ 63
      → Hoare
          (Reading q b pid oid g conn fd c)
          (if ltb size new
            then punch_tail fd pid oid offset (hw_err pid oid)
            else punch_middle fd pid oid offset new (size - new) (hw_err pid oid))
          (λ _. Holds q b pid oid g conn (take offset c ++ drop new c))
          (Unwritten q b pid oid g conn)
  punch_either fd offset new size c before inside e small = elim (Bool-cases (ltb size new)) [
    | inl past ↦
        let short' : length c ≤ new = ground (arith, e, past) in
        let left : lend offset c ≡ take offset c ++ drop new c =
          lend_within offset c (omega (arith, e, inside))
          ∙ sym (append-nil (take offset c))
          ∙ ap (λ x. take offset c ++ x) (sym (drop-all new c short')) in
        rw past (
          weaken (punch_tail-Holds fd offset c) (λ d p. (Reading-Open fd c d p).holds)
            (λ _ d p. subst (λ x. Holds q b pid oid g conn x d) left p) (λ r d p. p))
    | inr fits ↦ rw fits (
        punch_middle-Holds fd offset new (size - new) c before (ground (arith, e, fits)) small
          (ap (λ k. k - new) e))
  ]

  -- Or `stat` failed.
  abbrev pub Unpunched : Reply → Device q f → Type 0
  Unpunched r d =
      Unwritten q b pid oid g conn r d ⊎ ((r ≡ osd_error_reply) × Kept q b pid oid g conn d)

  punch_from :
      (fd offset new : ℕ) (c : List ℕ)
      → offset ≤ new
      → length c < 2 ^ 63
      → Hoare
          (Reading q b pid oid g conn fd c)
          (stat_size fd pid oid >>= λ size.
            (leave_if (ltb size offset) (close_and fd (cdb_err pid oid))
              >> (if ltb size new
                  then punch_tail fd pid oid offset (hw_err pid oid)
                  else punch_middle fd pid oid offset new (size - new) (hw_err pid oid))))
          (λ _. Holds q b pid oid g conn (take offset c ++ drop new c))
          Unpunched
  punch_from fd offset new c before small =
      bind (stat_size-Reading b pid oid g conn fd c (λ d k. inr (refl, k))) (λ size. given (λ e.
        weaken
          (bind
            (left_if (ltb size offset) record {
              at = λ d p. inl (
                refl,
                record { shown = b.close_keeps fd d.fs ∙ p.kept.shown; same = p.kept.same },
              );
            })
            (λ _. given (λ inside.
              punch_either fd offset new size c before (ground (arith, inside)) e small)))
          (λ d p. p) (λ _ d p. p) (λ r d p. inl p)))

module _ {q : Sqlite} {f : Files} (b : Contents f) (pid oid : ℕ) where
  -- For a range whose end does not wrap around, and an object below 2 ^ 63 bytes, `osd_punch` ends. It
  -- leaves the object without the bytes of the range, the other objects and the tables as they were;
  -- or it refuses the command with no change; or it reports a hardware error, with at most the contents
  -- of the object changed; or it returns the bare OSD_ERROR with no change.
  pub osd_punch_lem :
      (len offset : ℕ) (d : Device q f)
      → len + offset < 2 ^ 64
      → ((c : List ℕ) → b.view d.fs pid oid ≡ some c → length c < 2 ^ 63)
      → Post
          (λ _ d'.
            (c : List ℕ) × (b.view d.fs pid oid ≡ some c)
            × Holds q b pid oid (b.view d.fs) d.conn (take offset c ++ drop (len + offset) c) d')
          (Unpunched b pid oid (b.view d.fs) d.conn)
          (osd_punch pid oid len offset d)
  unfolding osd_punch
  osd_punch_lem len offset d no_wrap small =
      let new : add64 len offset ≡ len + offset = omega (arith, no_wrap) in
      rw new (
        (bind
            (weaken (open_object-Open q b pid oid (b.view d.fs) d.conn (λ e k. inl (refl, k)))
              (λ e p. p) (λ _ e p. p) (λ r e p. inl p))
            (λ fd. record {
              at = λ e (c, old, o).
                  (weaken
                      (punch_from b pid oid (b.view d.fs) d.conn fd offset (len + offset) c
                        (omega arith) (small c old))
                      (λ e' p. p) (λ _ e' p. (c, old, p)) (λ r e' p. p)).at
                    e
                    record {
                      old = old;
                      kept = record {
                        shown = o.holds.shown ∙ update_self pid oid c (b.view d.fs) old;
                        same = o.holds.same;
                      };
                      shows = o.shows;
                    };
            })).at
          d record { shown = refl; same = refl })
