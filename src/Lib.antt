-- ===== src/Lib.antt =====
-- The verification library of the OSD target: the object-based storage device emulator of osd-target,
-- with the helpers of osd-util. It models the default build, little-endian and on sqlite3.
--
-- The program. osd-target/cdb.c takes a command apart and calls a handler of osd-target/osd.c. A
-- handler checks its arguments, reads and changes three tables through osd-target/obj.c, coll.c and
-- attr.c, which run prepared statements by osd-target/db.c, and keeps each object's data in a file,
-- osd-target/io.c. It reports an error as sense data, osd-target/osd-sense.c. Attributes travel as
-- list entries, osd-target/list-entry.c, and numbers in the byte order and the offset format of
-- osd-util/osd-util.c.
--
-- The files. Base has the names that all modules share, with lists, tests and byte buffers. Wire is
-- the getters and setters of osd-util/osd-util.c, a function of a buffer each, and Offset the offset
-- format. Sense is osd-target/osd-sense.c: a builder takes the buffer and returns its result and the
-- new buffer. ListEntry is osd-target/list-entry.c, and Page the tests of page numbers of
-- osd-target/osd.c. Db is the statement runners of osd-target/db.c and db.h: what sqlite3 answers,
-- step by step, is a value of the type Answers, and the loops are recursion on it. Store has the
-- tables of osd-target/osd.schema, and each prepared statement with its rows and its effect;
-- Store.Obj and Store.Coll are the functions of obj.c, coll.c and attr.c on a connection. Exec is the
-- form of a handler, an action on a state that runs to its end or leaves with a reply, with rules for
-- proofs. Files is the system calls. Attr is how attr.c reads attributes: the rows of a statement
-- packed one after the other into the caller's memory, which Attr.Bounds and Attr.Single are about;
-- Attr.Table has its functions on a connection, and Store.Fetch the rows that their statements
-- select. Device is the device of osd-target/osd-types.h with the identifier cache; Device.Create,
-- Device.Remove and Device.Members are handlers of osd-target/osd.c under the names of the source,
-- and Device.Calls has the rules for their calls. Device.Attributes has the attributes that are no
-- rows, Device.Attributes.Info those of objects and of the root, Device.Attributes.Getting and
-- Device.Attributes.Setting the handlers for attributes, which Device.Attributes.RoundTrip is about,
-- and Device.Atomics the atomic operations, which Device.Atomics.Operations is about.
-- Device.ListedAttributes has mtq_list_oids_attr of osd-target/mtq.c, which
-- Device.ListedAttributes.Bounds is about. Device.Lists has the handlers that list objects, and
-- Device.Queries osd_query with mtq_run_query of osd-target/mtq.c, which Device.Queries.Overrun is
-- about; Criteria is the criteria of a query. Memory is a database in memory, Memory.Disk a file
-- system in memory, and Examples has the results at concrete inputs. Io is osd-target/io.c, one
-- function each, with a buffer that is lent for output handed back by the function; Io.Content says
-- what the data files hold, and Io.Opened, Io.Written and Io.Reading have the rules for its
-- functions. Data is the handlers of osd-target/osd.c for data; Data.Written, Data.Appended,
-- Data.Punched, Data.Mapped and Data.Unnumbered are about writing, appending, punching, read maps and
-- osd_create_and_write. Cdb is osd-target/cdb.c: Cdb.Continuation parses continuation segments, which
-- Cdb.Parsed and Cdb.Continuation.Ends are about, Cdb.Attributes has the attribute parameters,
-- Cdb.GeneralCas cdb_gen_cas, Cdb.Commands the commands, Cdb.Service the dispatch of service actions,
-- which Cdb.Service.Refusals and Cdb.Service.Plain are about, and Cdb.Submit osdemu_cmd_submit, with
-- Cdb.Submit.Handled about whole commands. struct command is split into Request, which a command does
-- not change, and Cmd, which it does. Cdb.Handlers is the interface to the handlers for attributes,
-- lists, queries and atomic operations, and Cdb.Handlers.Filled puts those of Device into it.
--
-- Parameters. sqlite3 is the record Sqlite: a connection and what an execution of a statement
-- answers. Behaves says what the code relies on: a statement that succeeds had no conflict with a
-- primary key, has the effect of its SQL text and returns its rows, and one that fails changes
-- nothing. Removable says that deletions do not fail; only the rollback of osd_create needs it. The
-- file system is the record Files. Contents says what writing and reading rely on: POSIX on regular
-- files of a local file system, where a write may be short, and every call may fail. The results on
-- the tables assume nothing of it. Fetches says of the statements that read attributes that they
-- change nothing and that one that names an attribute by its key answers with its row or none; the
-- order of the rows of the others is not used. Local variables that the source does not initialize,
-- and the address of a buffer, are arguments. Handlers stands for the handlers of attributes, lists,
-- queries and atomic operations; no result assumes anything of them. Strict limits: sqlite3 compares
-- 64-bit integers with their sign, so identifiers are below 2 ^ 63 where a result needs their order.
--
-- Machine numbers. Buffers are lists of bytes; sums and shifts of fixed width are reduced as in the
-- source. Pointers that the source asserts to be valid are valid. Loops: the 64 rounds of the offset
-- encoder are enough for 64 bits, and the two rounds of next_offset are a bound of the model that it
-- makes visible by an option; a statement that waits or goes stale does so finitely often. The
-- strided loops of io.c have 2 ^ 64 + 1 rounds, more than there are bytes; the loop of osd_read_map
-- has as many rounds as bytes, and the parser of a continuation as many as its bytes, since a round
-- takes at least 8 of them or none, and then the loop never ends. A scatter/gather list of 2 ^ 32
-- entries or more is followed for 2 ^ 32 rounds and is then unfinished. The loops of a query and of a
-- read map, which do not look at the length of their buffer, are unfinished where they write behind
-- it; elsewhere what is written behind a caller's buffer is dropped. An action that never ends, or
-- whose behaviour C does not define, or whose assertion fails, is unfinished, which no result counts
-- as an end.
--
-- Not modelled. Opening and formatting a device are system calls. The Panasas back end is another
-- build on a library that is not in the repository. Logging, also where a log call is given a wrong
-- pointer, and the statistics of the D-Bus build are left out.
pub mod Attr
pub mod Base
pub mod Cdb
pub mod Criteria
pub mod Data
pub mod Db
pub mod Device
pub mod Examples
pub mod Exec
pub mod Files
pub mod Io
pub mod ListEntry
pub mod Memory
pub mod Offset
pub mod Page
pub mod Sense
pub mod Store
pub mod Wire
