-- ===== src/Store/Fetch.antt =====
-- What the statements of osd-target/attr.c and osd-target/mtq.c that read attributes select, by their SQL
-- text, and what the code relies on when it steps through the rows.
use viji_osc_osd.Base.{
  ℕ, ◌≡◌, ◌⊎◌, not, ◌&&◌, List, [], ◌∷◌, ◌++◌, map, filter, any, replicate, leb, if◌then◌else◌,
  ◌==◌,
}
use viji_osc_osd.Db.{Answers, unbound, done, failed, busy, row, schema}
use viji_osc_osd.Store.{
  Sqlite, Behaves, Tables, AttrRow, Query, userobject, obj_at, attr_at, attr_is,
}

-- `unid_page`, of which `sizeof` binds 40 bytes: "        unidentified attributes page   ".
abbrev unid_page : List ℕ
unid_page =
    replicate 8 0x20
    ++ (0x75 ∷ 0x6E ∷ 0x69 ∷ 0x64 ∷ 0x65 ∷ 0x6E ∷ 0x74 ∷ 0x69 ∷ 0x66 ∷ 0x69 ∷ 0x65 ∷ 0x64 ∷ [])
    ++ (0x20 ∷ 0x61 ∷ 0x74 ∷ 0x74 ∷ 0x72 ∷ 0x69 ∷ 0x62 ∷ 0x75 ∷ 0x74 ∷ 0x65 ∷ 0x73 ∷ [])
    ++ (0x20 ∷ 0x70 ∷ 0x61 ∷ 0x67 ∷ 0x65 ∷ 0x20 ∷ 0x20 ∷ 0x20 ∷ 0 ∷ [])

-- One row of each page.
one_a_page : List AttrRow → List AttrRow
one_a_page [] = []
one_a_page (r ∷ rows) = r ∷ filter (λ x. not (x.page == r.page)) (one_a_page rows)

-- The rows of the directory page: each page of the object that has no name, as a row with the name
-- `unid_page`; then the names of the others.
pub directory : List AttrRow → List AttrRow
directory rows =
    let names = filter (λ r. r.number == 0) rows in
    let nameless = filter (λ r. not (any (λ x. x.page == r.page) names)) (one_a_page rows) in
    map {A = AttrRow} (λ r. record r { number = 0; value = unid_page }) nameless ++ names

-- The rows of one SELECT of a list: an attribute of the user objects from an identifier on.
listed_attr : ℕ → ℕ → ℕ × ℕ → Tables → List AttrRow
listed_attr pid from (page, number) t =
    let lists =
      λ (oid : ℕ). any (λ o. obj_at pid oid o && (o.type == userobject && leb from o.oid)) t.obj in
    filter (λ r. r.pid == pid && (lists r.oid && (r.page == page && r.number == number))) t.attr

-- UNION ALL.
pub listed_attrs : ℕ → ℕ → List (ℕ × ℕ) → Tables → List AttrRow
listed_attrs pid from [] t = []
listed_attrs pid from (e ∷ entries) t = listed_attr pid from e t ++ listed_attrs pid from entries t

into_oids : AttrRow → List AttrRow → List AttrRow
into_oids x [] = x ∷ []
into_oids x (r ∷ rows) =
    let later = into_oids x rows in if leb x.oid r.oid then x ∷ (r ∷ rows) else r ∷ later

-- ORDER BY myoid. The code relies on the rows of an object coming in the order of the SELECTs.
pub order_by_oid : List AttrRow → List AttrRow
order_by_oid [] = []
order_by_oid (r ∷ rows) = into_oids r (order_by_oid rows)

-- The rows that a statement selects. It reads the columns page, number and value of them, `getval` the
-- value alone, and `dirpage` page and value.
unfoldable pub selected : Query → Tables → List AttrRow
selected (Query.getattr p o page number) t = filter (attr_is p o page number) t.attr
selected (Query.getval p o page number) t = filter (attr_is p o page number) t.attr
selected (Query.pgaslst p o page) t = filter (λ r. attr_at p o r && r.page == page) t.attr
selected (Query.forallpg p o number) t = filter (λ r. attr_at p o r && r.number == number) t.attr
selected (Query.getall p o) t = filter (attr_at p o) t.attr
selected (Query.dirpage p o) t = directory (filter (attr_at p o) t.attr)
selected (Query.list_oids_attr p from entries) t = order_by_oid (listed_attrs p from entries t)

-- The steps answer with the rows of a list, of which `rows` are still to come, and are done when there
-- are no more; or they fail. When the statement is run again it answers with all of them.
unfoldable pub Answering {ℓ} : {A : Type ℓ} → List A → List A → Answers A → Type ℓ
Answering all rows unbound = Unit
Answering all rows failed = Unit
Answering all rows done = rows ≡ []
Answering all rows (busy rest) = Answering all rows rest
Answering {A} all rows (row r rest) = (more : List A) × (rows ≡ r ∷ more) × Answering all more rest
Answering all rows (schema up rest) = Answering all all rest

-- What the code relies on: a statement that reads changes nothing, and one that names a single
-- attribute by its primary key answers with that row, if there is one.
pub record Fetches (q : Sqlite) (b : Behaves q) : Type 0 where
  pub keeps : (g : Query) (c : q.Conn) → b.tables (q.fetch g c).1 ≡ b.tables c
  pub one :
      (g : Query) (p o page number : ℕ) (c : q.Conn)
      → (g ≡ Query.getval p o page number) ⊎ (g ≡ Query.getattr p o page number)
      → let rows = filter (attr_is p o page number) (b.tables c).attr in
        Answering rows rows (q.fetch g c).0
