-- ===== src/Lib.antt =====
-- traffic-count counts the traffic of each MAC address on the configured network interfaces. A
-- program in the kernel adds up packets in a map; the service copies the counters into a SQLite
-- database every few seconds, prunes the daily rows once they are old, and answers queries over
-- HTTP on the loopback interface. This library models the service and states what makes it correct.
--
-- The parts, and the files of the repository that they model:
--   Base        what all modules share: library names, Boolean tests on numbers, lists, and sorting
--               and filtering, as `ORDER BY` and `WHERE` do them.
--   Error, Exec errors as values, with one constructor for each `fmt.Errorf("…: %w", err)`, and the
--               methods that change a state and return a value or an error. What was written
--               before an error stays written.
--   Calendar    CurrentDateUTC, FormatDateUTC and PruneCutoffDate of internal/storage/storage.go.
--               A time is the number of nanoseconds since 1970-01-01 UTC; earlier times are not
--               modelled, and a year has four digits. Calendar.TextOrder relates the order of dates
--               as TEXT, which the queries use, to the order of days.
--   Go          what the program uses of Go's packages strconv, time, os, net and strings: Atoi, the
--               int64 of a number of seconds, what Stat answers, SplitHostPort, and the strings that
--               TrimSpace empties.
--   Storage     internal/storage/storage.go. Types has its records, Engine the transactions of
--               database/sql over one connection, Open is New with initSchema, Repository the three
--               upserts, Query the reads of one row, Listing the three lists, Prune the deletion of
--               old rows. Tables are lists of rows with a primary key (Storage.Table).
--   Ebpf        internal/ebpf. TrafficMap is map.go and ebpf.go: the map as the service reads it, and
--               its iterator. Loader is loader.go, with its mock mode. Iface and Attachment are
--               attachment.go: the manager of the links, whose children are Detach, Status (its
--               queries), Slots (the manager as the states of the interfaces' directions), Moves and
--               Steps (what its operations do to the links), Outcome (what AttachIface tells),
--               Linked (the links that attached directions store), Teardown (DetachAll) and History (any use
--               of the manager).
--   Runtime     internal/runtime. Flush is flush.go, with the loop's start and stop in
--               Flush.Lifecycle; Housekeeping is housekeeping.go; Service is Start and Stop of
--               runtime.go, with the status in Service.Report; History has the sequences of flushes,
--               prunings, waits and restarts that a database can live through. Flush.View looks at
--               the tables without the order of their rows. Interleave has the goroutines: how far
--               runLoop, Flush, Stop and runOnce have come, and the calls with which each goes on
--               while the others wait.
--   Config      internal/config/config.go: the configuration, its loading and its validation.
--   Bootstrap   internal/bootstrap/bootstrap.go: Validator.Validate, and in Bootstrap.Checks the checks
--               of the environment that NewValidator puts into it.
--   Http        internal/http/http.go. Mac prints and compares addresses, Params reads numbers, Page
--               is the loop with offset and limit, Traffic has the queries, Server the handlers, Routes
--               the server with the patterns that NewServer registers.
--   Main        cmd/traffic-count/main.go: what main starts, in its order, and what it stops. Its
--               child Goroutines leads from the start into Runtime.Interleave.
--   Testutil    internal/testutil/testutil.go: Interfaces and Listing are its functions on interfaces,
--               Frame is buildEthernetFrame, TempDb a database in a temporary file, Harness the service
--               in a test, with Cleanup in Harness and Pairs. Ip is the command ip, a parameter.
--   Examples    runs on concrete inputs.
--
-- A flush (Runtime.Flush.flush) reads an entry of the kernel's map, looks up the key's checkpoint
-- (Storage.Query), takes the difference of the counters, and writes checkpoint, total and daily row
-- in one transaction (persist_all). The queries of Http.Traffic read the rows that flushes wrote and
-- housekeeping has left.
--
-- The program (Main.main) loads and validates the configuration, runs the startup checks, starts the
-- service, which loads the programs and has the manager attach them to each interface, puts the result
-- of the checks in place of the service's own, opens the database, and starts the two loops. At the
-- end (Main.shut_down) it stops housekeeping, flushes for the last time and detaches everything.
--
-- Parameters. The engine (Storage.Engine.Engine) says which calls of the SQLite driver fail, and what
-- SQLite adds up for two INTEGER values; IsExact states that the sum is exact below 2 ^ 63, IsReliable
-- that no call fails. The kernel's map (Ebpf.TrafficMap.BpfMap) answers NextKey and Lookup. The
-- order in which Go gives the entries of a map is a function that permutes. The checks of the
-- validator are functions, as in the source; those that NewValidator sets ask a parameter (System) for
-- the user, the files of /sys and the command tc. Ebpf.Link.Kernel is what the manager calls of package
-- net and of cilium's package link: it answers by the number of calls so far, so a call may fail at one
-- time and not at another. Net counts the calls and has the links that the kernel holds. Objects
-- (Ebpf.Loader) is what the loader calls, Files (Config) the reading of the file and of its JSON, and
-- Host (Main) all of these together. AssignsTagged (Ebpf.Loader) is what LoadAndAssign documents of
-- fields without a tag. ServeMux (Http.Routes) is http.ServeMux of Go 1.21, which go.mod asks for, with
-- what it documents in IsServeMux; Ip and TempFiles (Testutil) are the command ip and the temporary
-- files of package os, with
-- IsIp and IsTempFiles.
--
-- Numbers. Counters are natural numbers with the wrap-around of uint64 written out (sub64, add64).
-- The conversion of uint64 to int64 by database/sql, which refuses 2 ^ 63 and above, is bind_counters.
-- An interval is the 64 bits of its number of nanoseconds (Go.Duration).
--
-- Fuel. The loop of a flush runs on fuel, one round for each entry and one for the end, so more
-- fuel than entries is enough. Everything else is structural recursion.
--
-- Goroutines. In Runtime.Interleave each call of Repository and each transaction is one step, and so is
-- a section under the lock of a loop; between two steps any other goroutine may take its own, time
-- passes, and the kernel's map changes. SQLite isolates what the connections of database/sql do, and a
-- call that finds the database locked fails, as any call may, also a Scan of a sum that SQLite has made
-- a REAL. A tick can come at any time. `Start` and the first `Stop` of the flush loop are called once,
-- as main does; any further `Stop` returns at once. In Main the ticker of the flush loop is made before
-- main goes on or after (Host.early); the panic of a ticker ends the program.
--
-- Not modelled: JSON, of the configuration and of an answer; the program in the kernel (bpf/); the
-- generator; the texts of errors, what is printed, and exit codes; closing the database; columns
-- `updated_at`, which nothing reads.
pub mod Base
pub mod Error
pub mod Exec
pub mod Calendar
pub mod Go
pub mod Storage
pub mod Ebpf
pub mod Runtime
pub mod Config
pub mod Bootstrap
pub mod Http
pub mod Main
pub mod Testutil
pub mod Examples
