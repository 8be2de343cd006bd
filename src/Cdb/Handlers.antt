-- ===== src/Cdb/Handlers.antt =====
-- The functions of osd-target/osd.c on attributes, lists, queries and atomic operations, of which the
-- commands of osd-target/cdb.c make use: an interface. Memory is lent from an address on, and handed
-- back as it is afterwards. Transactions are those of sqlite3.
pub mod Filled
use viji_osc_osd.Base.{ℕ, Bool, List}
use viji_osc_osd.Store.{Sqlite}
use viji_osc_osd.Files.{Files}
use viji_osc_osd.Exec.{Exec}
use viji_osc_osd.Io.{Transfer}
use viji_osc_osd.Device.{Device}
use viji_osc_osd.Cdb.{Request, Cmd}

-- The arguments are those of the functions, in their order, without the device, the embedding flag,
-- which is always true, and the sense buffer. `osd_begin_txn` and `osd_end_txn` say whether they
-- succeeded. The functions that fill a buffer and count what they used return both.
pub record Handlers (q : Sqlite) (f : Files) : Type 0 where
  pub osd_begin_txn : Exec (Device q f) Bool
  pub osd_end_txn : Exec (Device q f) Bool
  pub osd_set_attributes : ℕ → ℕ → ℕ → ℕ → List ℕ → ℕ → ℕ → Exec (Device q f) Unit
  pub osd_getattr_page : ℕ → ℕ → ℕ → List ℕ → ℕ → ℕ → Exec (Device q f) (List ℕ × ℕ)
  pub osd_getattr_list : ℕ → ℕ → ℕ → ℕ → List ℕ → ℕ → ℕ → ℕ → Exec (Device q f) (List ℕ × ℕ)
  pub osd_list : ℕ → ℕ → ℕ → ℕ → List (ℕ × ℕ) → ℕ → List ℕ → Exec (Device q f) Transfer
  pub osd_list_collection :
      ℕ → ℕ → ℕ → ℕ → ℕ → List (ℕ × ℕ) → ℕ → List ℕ → Exec (Device q f) Transfer
  pub osd_query : ℕ → ℕ → ℕ → ℕ → List ℕ → List ℕ → ℕ → Exec (Device q f) Transfer
  pub osd_cas : ℕ → ℕ → ℕ → ℕ → List ℕ → Exec (Device q f) (List ℕ × ℕ)
  pub osd_fa : ℕ → ℕ → ℕ → List ℕ → Exec (Device q f) (List ℕ × ℕ)
  pub osd_format_osd : ℕ → ℕ → Exec (Device q f) Unit
  pub osd_set_member_attributes : ℕ → ℕ → List (ℕ × ℕ × List ℕ) → ℕ → Exec (Device q f) Unit
  pub cdb_gen_cas : Request → ℕ → ℕ → Exec (Cmd q f) Unit
