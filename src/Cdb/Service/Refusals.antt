-- ===== src/Cdb/Service/Refusals.antt =====
-- Commands that are refused because they have a continuation.
use viji_osc_osd.Base.{ℕ, ◌≡◌, Option, List, [], ◌∷◌, ◌++◌}
use viji_osc_osd.Store.{Sqlite}
use viji_osc_osd.Files.{Files}
use viji_osc_osd.Exec.{Exec, Exit, Reply, reply}
use viji_osc_osd.Cdb.{Cmd}
use viji_osc_osd.Cdb.Handlers.{Handlers}

-- The service actions that allow no continuation: append, clear, create, create a collection or a
-- partition, the four flushes, format, get attributes, the two SCSI ones, punch, read map, remove an
-- object, a collection, its members or a partition, set attributes, set the master key, and set member
-- attributes.
abbrev pub early_actions : List ℕ
early_actions = 0x8887 ∷ 0x8889 ∷ 0x8882 ∷ 0x8895 ∷ 0x888b ∷ 0x8888 ∷ 0x889a ∷ 0x889c ∷ []

abbrev pub middle_actions : List ℕ
middle_actions = 0x889b ∷ 0x8881 ∷ 0x888e ∷ 0x8f7c ∷ 0x8f7d ∷ 0x8884 ∷ 0x88b1 ∷ []

abbrev pub late_actions : List ℕ
late_actions = 0x888a ∷ 0x8896 ∷ 0x88a1 ∷ 0x888c ∷ 0x888f ∷ 0x8899 ∷ 0x88a3 ∷ []

abbrev pub alone_actions : List ℕ
alone_actions = early_actions ++ (middle_actions ++ late_actions)

module _ {q : Sqlite} {f : Files} where
  -- The action leaves with a reply and changes nothing.
  abbrev pub Stays : Cmd q f → Exit (Option Reply) × Cmd q f → Type 0
  Stays c result = (e : Reply) × (result ≡ (reply e, c))
