-- ===== src/Attr/Bounds.antt =====
-- What the reading of attributes may write: nothing past the length that the caller lends.
use viji_osc_osd.Base.{ℕ, ◌+◌, ◌%◌, ◌^◌, ◌≤◌, ◌<◌, ◌≡◌, arith, ◌⊎◌, List, [], ◌∷◌, length, drop}
use viji_osc_osd.Db.{osd_error}
use viji_osc_osd.ListEntry.Pack.{Holds}
use viji_osc_osd.ListEntry.Within.{Within}
use viji_osc_osd.Attr.{Retrieval, code, Cursor, column_blob}

pub column_blob-Holds : (value : List ℕ) → Holds (length value % 2 ^ 16) (column_blob value)
unfolding column_blob
column_blob-Holds [] = tt
column_blob-Holds (b ∷ value) = omega arith

-- From `mem0` and a length on: what has been packed is within the length, and what is behind is as it
-- was.
module _ (mem0 : List ℕ) (out0 : ℕ) (lent : out0 ≤ length mem0) (small : out0 < 2 ^ 32) where
  record Inside (s : Cursor) : Type 0 where
    pub room : s.moved + s.outlen ≡ out0
    pub counted : s.len ≡ s.moved
    pub size : length s.mem ≡ length mem0
    pub behind : drop out0 s.mem ≡ drop out0 mem0

  Safe : Retrieval → Type 0
  Safe x =
      (length x.outdata ≡ length mem0)
      × (drop out0 x.outdata ≡ drop out0 mem0)
      × ((x.used_outlen ≤ out0) ⊎ (x.ret ≡ code osd_error))
