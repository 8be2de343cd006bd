-- ===== src/Data/Unnumbered.antt =====
-- `osd_create_and_write` of osd-target/osd.c when the initiator leaves the choice of the identifier to
-- the target.
use viji_osc_osd.Base.{ℕ, ◌≡◌, refl, false, ◌&&◌, List, leb, Bool-cases, inl, inr}
use viji_osc_osd.Store.{Sqlite}
use viji_osc_osd.Files.{Files}
use viji_osc_osd.Exec.{Exit, value, reply, unfinished, and_then}
use viji_osc_osd.Device.{Device, object_lb, cdb_err}
use viji_osc_osd.Device.Create.{osd_create}
use viji_osc_osd.Device.Remove.{osd_remove}
use viji_osc_osd.Io.{SgList, contig_write, open_object}
use viji_osc_osd.Data.{osd_create_and_write, ddt_contig, after_write, osd_write}

-- 0 is no identifier of a user object.
no_object : (pid : ℕ) → (leb object_lb pid && leb object_lb 0) ≡ false
no_object pid = elim (Bool-cases (leb object_lb pid)) [ inl e ↦ rw e | inr e ↦ rw e ]

module _ {q : Sqlite} {f : Files} where
  contig_write-refused :
      (pid len offset : ℕ) (dinbuf : List ℕ) (d : Device q f)
      → contig_write pid 0 len offset dinbuf d ≡ (reply (cdb_err pid 0), d)
  unfolding contig_write open_object
  contig_write-refused pid len offset dinbuf d = rw (no_object pid)

  pub osd_remove-refused :
      (pid : ℕ) (d : Device q f) → osd_remove pid 0 d ≡ (reply (cdb_err pid 0), d)
  unfolding osd_remove
  osd_remove-refused pid d = rw (no_object pid)

  -- What becomes of the creation: when it made an object, an illegal request all the same.
  abbrev pub spoiled : ℕ → Exit Unit × Device q f → Exit Unit × Device q f
  spoiled pid (value u, d) = (reply (cdb_err pid 0), d)
  spoiled pid (reply r, d) = (reply r, d)
  spoiled pid (unfinished, d) = (unfinished, d)

  after_create :
      (pid len offset : ℕ) (dinbuf : List ℕ) (sglist : SgList) (made : Exit Unit × Device q f)
      → and_then
          (λ _ d. after_write pid 0 (osd_write pid 0 len offset dinbuf sglist ddt_contig d))
          made
        ≡ spoiled pid made
  unfolding after_write osd_write
  after_create pid len offset dinbuf sglist (value u, d) =
      rw (contig_write-refused pid len offset dinbuf d, osd_remove-refused pid d)
  after_create pid len offset dinbuf sglist (reply r, d) = refl
  after_create pid len offset dinbuf sglist (unfinished, d) = refl

  -- With the requested identifier 0, `osd_create_and_write` of contiguous data never succeeds: when
  -- `osd_create` made an object, the command still leaves with an illegal request, and the device is
  -- as the creation left it, with the object; when `osd_create` left, so does the command.
  pub osd_create_and_write_unnumbered :
      (pid len offset : ℕ) (dinbuf : List ℕ) (sglist : SgList) (d : Device q f)
      → osd_create_and_write pid 0 len offset dinbuf sglist ddt_contig d
        ≡ spoiled pid (osd_create pid 0 1 d)
  unfolding osd_create_and_write
  osd_create_and_write_unnumbered pid len offset dinbuf sglist d =
      after_create pid len offset dinbuf sglist (osd_create pid 0 1 d)
