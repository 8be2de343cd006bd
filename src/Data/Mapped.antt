-- ===== src/Data/Mapped.antt =====
-- What `osd_read_map` of osd-target/osd.c reports, and how much it writes.
use viji_osc_osd.Base.{
  ℕ, zero, suc, ◌+◌, ◌*◌, ◌-◌, ◌/◌, ◌≤◌, ◌≡◌, ◌≢◌, refl, sym, ap, ◌∙◌, ◌<◌, ◌^◌, false, ◌⊎◌, inl,
  inr, some, List, leb, ◌==◌, if◌then◌else◌, arith, Bool-cases, subst, length, ltb,
}
use viji_osc_osd.Base.Bytes.{write_at, length-write_at}
use viji_osc_osd.Store.{Sqlite}
use viji_osc_osd.Files.{Files}
use viji_osc_osd.Exec.{Reply, osd_error_reply, Hoare}
use viji_osc_osd.Device.{Device}
use viji_osc_osd.Io.{Transfer}
use viji_osc_osd.Io.Content.{Disk, Contents}
use viji_osc_osd.Io.Opened.{Kept}
use viji_osc_osd.Io.Reading.{Reading, Unread}
use viji_osc_osd.Data.{map_rounds, dscptr_size, written_data, set_dscptr, stat_size, size_or_leave}

-- As many rounds as bytes are enough where the buffer has room: the loop ends, with a descriptor for
-- every four bytes or part of four.
pub map_rounds_total :
    (fuel size byte_offset k : ℕ) (outdata : List ℕ)
    → size ≤ fuel
    → byte_offset + (size + 3) / 4 * 16 ≤ length outdata
    → (out : List ℕ) × (map_rounds fuel size outdata byte_offset k ≡ some (out, k + (size + 3) / 4))
unfolding map_rounds
map_rounds_total zero size byte_offset k outdata h room =
    let e : size ≡ 0 = omega arith in
    let e' : k + (0 + 3) / 4 ≡ k = omega arith in (outdata, rw (e, e'))
map_rounds_total (suc fuel) size byte_offset k outdata h room = elim (Bool-cases (size == 0)) [
  | inl z ↦
      let e : size ≡ 0 = ground arith in
      let e' : k + (0 + 3) / 4 ≡ k = omega arith in (outdata, rw (e, e'))
  | inr more ↦
      let positive : size ≢ 0 = ground arith in
      let count : k + 1 + (size - dscptr_size + 3) / 4 ≡ k + (size + 3) / 4 = omega arith in
      let src =
        set_dscptr written_data (if leb size dscptr_size then size else dscptr_size) byte_offset in
      let roomy : ltb (length outdata) (byte_offset + 16) ≡ false = ground arith in
      let r =
        map_rounds_total fuel (size - dscptr_size) (byte_offset + 16) (k + 1)
          (write_at (byte_offset + 2) src outdata) (omega arith)
          (omega (arith, length-write_at (byte_offset + 2) src outdata)) in
      (r.0, rw (more, roomy) (r.1 ∙ ap (λ (n : ℕ). some (r.0, n)) count))
]

-- The buffer has room for the header and the descriptors of the object, and is below 2 ^ 64 bytes.
abbrev pub Roomy : ℕ → ℕ → Disk → ℕ → List ℕ → Type 0
Roomy pid oid g offset outdata =
    (length outdata < 2 ^ 64)
    × ((c : List ℕ) → g pid oid ≡ some c → 8 + (length c - offset + 3) / 4 * 16 ≤ length outdata)

module _ {q : Sqlite} {f : Files} (b : Contents f) (pid oid : ℕ) where
  -- `stat` may fail on a file that is there: then the file is closed, and the reply is OSD_ERROR.
  pub stat_size-Reading :
      {E : Reply → Device q f → Type 0} (g : Disk) (conn : q.Conn) (fd : ℕ) (c : List ℕ)
      → ((d : Device q f) → Kept q b pid oid g conn d → E osd_error_reply d)
      → Hoare
          (Reading q b pid oid g conn fd c)
          (stat_size fd pid oid)
          (λ size d. Reading q b pid oid g conn fd c d × (size ≡ length c))
          E
  unfolding stat_size size_or_leave
  stat_size-Reading g conn fd c failed = record {
    at = λ d p.
        let there : b.view d.fs pid oid ≡ some c =
          subst (λ v. v pid oid ≡ some c) (sym p.kept.shown) p.old in
        elim (b.stat_sees pid oid c d.fs there) [
          | inl e ↦ rw e (p, refl)
          | inr e ↦
              rw e (
                failed _
                  record { shown = b.close_keeps fd d.fs ∙ p.kept.shown; same = p.kept.same })
        ];
  }

  -- What is reported of the contents c.
  abbrev pub Mapping : Disk → q.Conn → ℕ → Transfer → Device q f → Type 0
  Mapping g conn offset t d =
      (c : List ℕ) × (g pid oid ≡ some c)
      × (offset ≤ length c)
      × (t.used_outlen ≡ 8 + (length c - offset + 3) / 4 * 16)
      × Kept q b pid oid g conn d

  -- What is left when there is no map: no file and no table changed.
  abbrev pub Unmapped : Disk → q.Conn → Reply → Device q f → Type 0
  Unmapped g conn r d =
      Unread q b pid oid g conn r d ⊎ ((r ≡ osd_error_reply) × Kept q b pid oid g conn d)
