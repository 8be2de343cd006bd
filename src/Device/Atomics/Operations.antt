-- ===== src/Device/Atomics/Operations.antt =====
-- What the atomic operations of osd-target/osd.c do to a register.
use viji_osc_osd.Base.{ℕ, ◌^◌, ◌<◌, ◌≡◌, refl, ap, subst, arith, List, length, ◌==◌, if◌then◌else◌}
use viji_osc_osd.Base.Bytes.{write_at}
use viji_osc_osd.Wire.{set_htonll}
use viji_osc_osd.Store.{Sqlite, Behaves, Tables}
use viji_osc_osd.Store.Fetch.{Fetches}
use viji_osc_osd.Files.{Files}
use viji_osc_osd.Exec.{Post, bind, ret, given}
use viji_osc_osd.Device.{Device, add64}
use viji_osc_osd.Device.Atomics.{osd_cas, osd_fa, uap_cas, uap_fa}
use viji_osc_osd.Device.Atomics.Steps.{Keeps, Fails, present, finds, sets, swaps}

-- Compare and swap on a register that has the value v: it returns v in network order, and the register
-- then has the value `swap` if v is `cmp`, and v if not; everything else in the tables is as it was.
-- When it is refused or an execution fails the register still has the value v.
pub osd_cas_lem :
    {q : Sqlite} (f : Files) (b : Behaves q) (fe : Fetches q b) (t0 : Tables) (stack out : List ℕ)
    (pid oid cmp swap v : ℕ) (d : Device q f)
    → length stack ≡ 8
    → swap < 2 ^ 64
    → Keeps f b fe pid oid uap_cas t0 v d
    → Post
        (λ (shown, used) d.
          ((shown ≡ write_at 0 (set_htonll v) out) × (used ≡ 8))
          × Keeps f b fe pid oid uap_cas t0 (if v == cmp then swap else v) d)
        (Fails f b fe pid oid uap_cas t0 v)
        (osd_cas stack pid oid cmp swap out d)
unfolding osd_cas
osd_cas_lem f b fe t0 stack out pid oid cmp swap v d len h k =
    (bind (present f b fe pid oid uap_cas t0 v) (λ _.
        bind (finds f b fe pid oid uap_cas t0 v stack len) (λ x. given (λ e.
          bind (swaps f b fe pid oid uap_cas t0 v swap (x == cmp) h) (λ _.
            ret (write_at 0 (set_htonll x) out, 8)
              (λ d k. (
                (ap (λ n. write_at 0 (set_htonll n) out) e, refl),
                subst (λ n. Keeps f b fe pid oid uap_cas t0 (if n == cmp then swap else v) d) e k,
              ))))))).at
      d k

-- Fetch and add on a register that has the value v: it returns v in network order, and the register then
-- has the sum, of 64 bits; everything else in the tables is as it was. When it is refused or an execution
-- fails the register still has the value v.
pub osd_fa_lem :
    {q : Sqlite} (f : Files) (b : Behaves q) (fe : Fetches q b) (t0 : Tables) (stack out : List ℕ)
    (pid oid add v : ℕ) (d : Device q f)
    → length stack ≡ 8
    → Keeps f b fe pid oid uap_fa t0 v d
    → Post
        (λ (shown, used) d.
          ((shown ≡ write_at 0 (set_htonll v) out) × (used ≡ 8))
          × Keeps f b fe pid oid uap_fa t0 (add64 add v) d)
        (Fails f b fe pid oid uap_fa t0 v)
        (osd_fa stack pid oid add out d)
unfolding osd_fa
osd_fa_lem f b fe t0 stack out pid oid add v d len k =
    (bind (present f b fe pid oid uap_fa t0 v) (λ _.
        bind (finds f b fe pid oid uap_fa t0 v stack len) (λ x. given (λ e.
          bind (sets f b fe pid oid uap_fa t0 v (add64 add x) (omega arith)) (λ _.
            ret (write_at 0 (set_htonll x) out, 8)
              (λ d k. (
                (ap (λ n. write_at 0 (set_htonll n) out) e, refl),
                subst (λ n. Keeps f b fe pid oid uap_fa t0 (add64 add n) d) e k,
              ))))))).at
      d k
