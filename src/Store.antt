-- ===== src/Store.antt =====
-- The tables of osd-target/osd.schema and the statements that osd-target/obj.c, coll.c and attr.c
-- prepare. A statement's rows and effect are those of its SQL text. sqlite3 itself is a parameter: an
-- execution may wait, fail, or find its statement stale, and `Behaves` says what holds when it succeeds.
pub mod Obj
pub mod Coll
pub mod Rows
pub mod Created
pub mod Copied
pub mod Fetch
use viji_osc_osd.Base.{
  ℕ, zero, suc, ◌+◌, ◌≡◌, ◌^◌, ◌<◌, Bool, true, false, not, ◌&&◌, List, [], ◌∷◌, ◌++◌, Option, none,
  some, map, length, filter, any, All, max, ltb, leb, ◌==◌, if◌then◌else◌,
}
use viji_osc_osd.Criteria.{Criterion, meets, ordered, selection}
use viji_osc_osd.Db.{Answers, Ret, osd_ok, osd_error, db_exec_dms, first_row}

pub record ObjRow : Type 0 where
  pub pid : ℕ
  pub oid : ℕ
  pub type : ℕ

pub record CollRow : Type 0 where
  pub pid : ℕ
  pub cid : ℕ
  pub oid : ℕ
  pub number : ℕ

pub record AttrRow : Type 0 where
  pub pid : ℕ
  pub oid : ℕ
  pub page : ℕ
  pub number : ℕ
  pub value : List ℕ

pub record Tables : Type 0 where
  pub obj : List ObjRow
  pub coll : List CollRow
  pub attr : List AttrRow

abbrev pub userobject : ℕ
userobject = 0x80

abbrev pub collection : ℕ
collection = 0x40

abbrev pub partition : ℕ
partition = 0x02

abbrev pub root : ℕ
root = 0x01

abbrev pub partition_oid : ℕ
partition_oid = 0

-- The statements of `struct obj_tab`, `struct coll_tab` and `struct attr_tab` with the values bound to
-- them, named as there with the table's name in front. The last two are the statements that
-- `mtq_run_query` and `mtq_set_member_attrs` of mtq.c put together.
pub data Stmt : Type 0 where
  obj_insert : ℕ → ℕ → ℕ → Stmt
  obj_delete obj_isprsnt obj_gettype obj_getoids obj_getcids : ℕ → ℕ → Stmt
  obj_delpid obj_nextoid obj_emptypid obj_getpids : ℕ → Stmt
  obj_nextpid : Stmt
  coll_insert : ℕ → ℕ → ℕ → ℕ → Stmt
  coll_delete coll_getcid coll_getoids coll_copyoids : ℕ → ℕ → ℕ → Stmt
  coll_delcid coll_deloid coll_emptycid : ℕ → ℕ → Stmt
  attr_setattr : ℕ → ℕ → ℕ → ℕ → List ℕ → Stmt
  attr_delattr : ℕ → ℕ → ℕ → ℕ → Stmt
  attr_delall : ℕ → ℕ → Stmt
  coll_query : ℕ → ℕ → ℕ → List Criterion → Stmt
  attr_setmembers : ℕ → ℕ → List (ℕ × ℕ × List ℕ) → Stmt

abbrev pub obj_at : ℕ → ℕ → ObjRow → Bool
obj_at pid oid r = r.pid == pid && r.oid == oid

abbrev pub coll_at : ℕ → ℕ → CollRow → Bool
coll_at pid cid r = r.pid == pid && r.cid == cid

abbrev pub attr_at : ℕ → ℕ → AttrRow → Bool
attr_at pid oid r = r.pid == pid && r.oid == oid

abbrev pub attr_is : ℕ → ℕ → ℕ → ℕ → AttrRow → Bool
attr_is pid oid page number r = attr_at pid oid r && (r.page == page && r.number == number)

-- The rows that a predicate does not select.
abbrev pub without {ℓ} : {A : Type ℓ} → (A → Bool) → List A → List A
without p = filter (λ x. not (p x))

-- `UNIQUE (pid, oid, number) ON CONFLICT REPLACE`
abbrev pub coll_add : CollRow → List CollRow → List CollRow
coll_add r rows = r ∷ without (λ x. x.pid == r.pid && (x.oid == r.oid && x.number == r.number)) rows

-- `INSERT INTO coll SELECT ?, ?, oid, 0 FROM coll WHERE ...`: one insertion for each selected row.
pub coll_add_all : ℕ → ℕ → List CollRow → List CollRow → List CollRow
coll_add_all pid cid [] rows = rows
coll_add_all pid cid (r ∷ picked) rows =
    coll_add_all pid cid picked
      (coll_add (record { pid = pid; cid = cid; oid = r.oid; number = 0 }) rows)

-- `INSERT OR REPLACE INTO attr`
abbrev pub attr_add : AttrRow → List AttrRow → List AttrRow
attr_add r rows = r ∷ without (attr_is r.pid r.oid r.page r.number) rows

-- `SELECT pid, oid, page, number, ? FROM coll WHERE cid = ...`: one insertion for each of these rows.
pub attr_add_each : ℕ → ℕ × ℕ × List ℕ → List CollRow → List AttrRow → List AttrRow
attr_add_each pid entry [] rows = rows
attr_add_each pid (page, number, value) (m ∷ members) rows =
    let r : AttrRow = record {
      pid = pid;
      oid = m.oid;
      page = page;
      number = number;
      value = value;
    } in
    attr_add_each pid (page, number, value) members (attr_add r rows)

pub attr_add_all : ℕ → List CollRow → List (ℕ × ℕ × List ℕ) → List AttrRow → List AttrRow
attr_add_all pid members [] rows = rows
attr_add_all pid members (entry ∷ entries) rows =
    attr_add_all pid members entries (attr_add_each pid entry members rows)

-- What a statement does to the tables.
unfoldable pub effect : Stmt → Tables → Tables
effect (obj_insert p o k) t = record t { obj = record { pid = p; oid = o; type = k } ∷ t.obj }
effect (obj_delete p o) t = record t { obj = without (obj_at p o) t.obj }
effect (obj_delpid p) t = record t { obj = without (λ r. r.pid == p) t.obj }
effect (coll_insert p c o n) t = record t {
  coll = coll_add (record { pid = p; cid = c; oid = o; number = n }) t.coll;
}
effect (coll_delete p c o) t = record t { coll = without (λ r. coll_at p c r && r.oid == o) t.coll }
effect (coll_delcid p c) t = record t { coll = without (coll_at p c) t.coll }
effect (coll_deloid p o) t = record t { coll = without (λ r. r.pid == p && r.oid == o) t.coll }
effect (coll_copyoids p dest source) t = record t {
  coll = coll_add_all p dest (filter (coll_at p source) t.coll) t.coll;
}
effect (attr_setattr p o g n v) t = record t {
  attr = attr_add (record { pid = p; oid = o; page = g; number = n; value = v }) t.attr;
}
effect (attr_delattr p o g n) t = record t { attr = without (attr_is p o g n) t.attr }
effect (attr_delall p o) t = record t { attr = without (attr_at p o) t.attr }
effect (attr_setmembers p c entries) t = record t {
  attr = attr_add_all p (filter (λ r. r.cid == c) t.coll) entries t.attr;
}
effect s t = t

-- The largest of a column. Of no rows it is NULL, which is read as 0.
unfoldable pub max_of : List ℕ → ℕ
max_of [] = 0
max_of (x ∷ xs) = max x (max_of xs)

abbrev pub count {ℓ} : {A : Type ℓ} → (A → Bool) → List A → ℕ
count p rows = length (filter p rows)

abbrev pub oids_in : ℕ → List ObjRow → List ℕ
oids_in pid rows = map (λ r. r.oid) (filter (λ r. r.pid == pid) rows)

-- The members of a collection that have an attribute which a predicate selects. The partition of the
-- attribute is not compared.
members_with : ℕ → ℕ → (AttrRow → Bool) → Tables → List ℕ
members_with pid cid p t =
    map (λ r. r.oid)
      (filter (λ r. coll_at pid cid r && any (λ a. a.oid == r.oid && p a) t.attr) t.coll)

-- The identifiers that a query selects, in their order.
pub query_ids : ℕ → ℕ → ℕ → List Criterion → Tables → List ℕ
query_ids pid cid query_type [] t = ordered (members_with pid cid (λ a. true) t)
query_ids pid cid query_type (c ∷ criteria) t =
    let by = λ (k : Criterion). members_with pid cid (λ a. meets k a.page a.number a.value) t in
    ordered (selection query_type by (by c) criteria)

-- The rows of a statement that reads, each with its one column.
unfoldable pub select : Stmt → Tables → List ℕ
select (obj_nextoid p) t = max_of (oids_in p t.obj) ∷ []
select obj_nextpid t = max_of (map (λ r. r.pid) t.obj) ∷ []
select (obj_isprsnt p o) t = count (obj_at p o) t.obj ∷ []
select (obj_emptypid p) t = count (λ r. r.pid == p && not (r.oid == 0)) t.obj ∷ []
select (obj_gettype p o) t = map (λ r. r.type) (filter (obj_at p o) t.obj)
select (obj_getoids p from) t =
    map (λ r. r.oid) (filter (λ r. r.pid == p && (r.type == userobject && leb from r.oid)) t.obj)
select (obj_getcids p from) t =
    map (λ r. r.oid) (filter (λ r. r.pid == p && (r.type == collection && leb from r.oid)) t.obj)
select (obj_getpids from) t =
    map (λ r. r.pid)
      (filter (λ r. r.oid == partition_oid && (r.type == partition && leb from r.pid)) t.obj)
select (coll_emptycid p c) t = count (coll_at p c) t.coll ∷ []
select (coll_getcid p o n) t =
    map (λ r. r.cid) (filter (λ r. r.pid == p && (r.oid == o && r.number == n)) t.coll)
select (coll_getoids p c from) t =
    map (λ r. r.oid) (filter (λ r. coll_at p c r && leb from r.oid) t.coll)
select (coll_query p c query_type criteria) t = query_ids p c query_type criteria t
select s t = []

-- The primary keys: `PRIMARY KEY (pid, oid)` and `PRIMARY KEY (pid, cid, oid)`. One of the rows that
-- are copied is enough for the whole statement to fail.
unfoldable pub conflict : Stmt → Tables → Bool
conflict (obj_insert p o k) t = any (obj_at p o) t.obj
conflict (coll_insert p c o n) t = any (λ r. coll_at p c r && r.oid == o) t.coll
conflict (coll_copyoids p dest source) t =
    any (λ r. any (λ x. coll_at p dest x && x.oid == r.oid) t.coll)
      (filter (coll_at p source) t.coll)
conflict s t = false

abbrev pub head {ℓ} : {A : Type ℓ} → List A → Option A
head [] = none
head (x ∷ xs) = some x

-- sqlite3 keeps an integer as a signed number of 64 bits: ids from 2 ^ 63 on would compare as
-- negative ones.
abbrev pub Small : Tables → Type 0
Small t = All (λ r. (r.pid < 2 ^ 63) × (r.oid < 2 ^ 63)) t.obj

-- The statements of `struct attr_tab` that read attributes, with the values bound to them. The last one
-- is the statement that `mtq_list_oids_attr` of mtq.c puts together: its `oid` is that of the object.
pub data Query : Type 0 where
  getattr getval : ℕ → ℕ → ℕ → ℕ → Query
  pgaslst forallpg : ℕ → ℕ → ℕ → Query
  getall dirpage : ℕ → ℕ → Query
  list_oids_attr : ℕ → ℕ → List (ℕ × ℕ) → Query

-- The database with whatever decides how an execution goes.
pub record Sqlite : Type 1 where
  pub Conn : Type 0
  pub run : Stmt → Conn → Answers ℕ × Conn
  pub fetch : Query → Conn → Answers AttrRow × Conn

-- What the code relies on, with the tables that a connection stands for.
pub record Behaves (q : Sqlite) : Type 0 where
  pub tables : q.Conn → Tables
  pub success :
      (s : Stmt) (c : q.Conn)
      → db_exec_dms (q.run s c).0 ≡ osd_ok
      → (conflict s (tables c) ≡ false) × (tables (q.run s c).1 ≡ effect s (tables c))
  pub failure :
      (s : Stmt) (c : q.Conn)
      → db_exec_dms (q.run s c).0 ≡ osd_error
      → tables (q.run s c).1 ≡ tables c
  pub answer :
      (s : Stmt) (c : q.Conn)
      → Small (tables c)
      → db_exec_dms (q.run s c).0 ≡ osd_ok
      → (first_row some none (q.run s c).0).1 ≡ head (select s (tables c))
