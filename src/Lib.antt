-- ===== src/Lib.antt =====
-- OpenVTL: the daemon openvtld, a web API and job runner around mhVTL virtual tape libraries.
--
-- The parts of the program and how they interact. Requests reach openvtld/internal/api: its middleware
-- finds out who asks and whether they may, and its handlers work on the database of
-- openvtld/internal/store. Jobs of openvtld/internal/export move cartridges to S3 and back: an export
-- writes the cartridge as a tar stream to the chunker, which cuts it into windows, compresses each into a
-- staging file and hands it to a sink that uploads it. openvtld/internal/license derives the support key
-- that an installation shows. openvtld/internal/inventory knows the declared libraries of device.conf, the
-- SCSI devices that answer and what the changers hold, and creates libraries and cartridges there;
-- openvtld/internal/orchestrate builds the FC targets of the live libraries from that and from the access
-- registry of the store, and restarts mhVTL in the operator's window.
--
-- The files and the code.
--   Prelude, Exec: shared. `Exec S E A` is code over a state that gives a value or stops early; a store
--     function stops with an `SqlError`, a handler with the `Response` that it wrote before `return`.
--     Exec/Triple has the triples by which properties of a state are carried through such code.
--   Store: openvtld/internal/store/auth.go (Users, Sessions), apikeys.go (ApiKeys), jobs.go (Jobs), acls.go
--     (Acls), and of catalog.go and store.go the functions Audit, Setting and SetSetting. A `Tables` holds
--     the rows; each SQL statement is a function on it that the engine carries out whole, or not at all
--     with an error, at any statement. Store/View and Store/Kept carry a property of the user table through
--     each statement, Store/Snapshot a database that is known; Store/Users/Numbered is about the row of one
--     id, Store/Jobs/Transition about TransitionJob as a transaction, Store/Jobs/Ledger about the ledger of
--     uploaded chunks.
--   Api: openvtld/internal/api/auth.go, the key handlers of system.go, the routes of server.go. Access is
--     requireAuth, Login the handlers of setup, login, logout and me, Users and Keys those of users and API
--     keys; Serve puts them behind the middleware and runs a list of requests.
--   Events: openvtld/internal/events/bus.go, the bus, with the receives of its clients as steps.
--   Export/Chunker: openvtld/internal/export/tarchunk.go, the type chunker with all its methods, and the
--     count of chunks of runExport in export.go.
--   Export/Resume: where runExport of export.go goes on, from the ledger of uploaded chunks.
--   License: openvtld/internal/license/fingerprint.go, the functions format, derive and Valid.
--   Inventory: openvtld/internal/inventory. Snapshot is model.go with the look-ups, Models the catalogue of
--     models.go, Creation the checks and allocations of CreateLibrary in libcreate.go (Creation/Checked and
--     Creation/Unique are about them), Labels the functions NextLabel, mintDensity and mintCapacityMB of
--     mint.go, Changer the function findFreeSlot of adopt.go, Minting the functions MintCart of mint.go and
--     AdoptCart of adopt.go, Deletion the function DeleteCart of delete.go, Polled and Media the functions
--     applyMtx and applyMedia of engine.go, Removal the text that RemoveLibrary of libremove.go writes.
--   Orchestrate: openvtld/internal/orchestrate. Luns is the expected table of LUNs of fc.go, Access the
--     ACLs (reconcileACLs, verifyACLs), Targets the ports and verifyFC, Repair the operations that change
--     targets (Ensure, ensureFCAdditive, rebuildAll, ReconcileAccess, SetPortServing), Apply the function
--     ApplyLibraries of apply.go with its polls. Additive is the property that only adding commands are
--     issued, carried through Repair; the children of each module hold the theorems about it.
--   Tests: runs of these at concrete inputs.
--
-- What is a parameter. `Env` (Store.antt) is the SQL engine's failures, the clock, the random generator,
-- argon2id and SHA-256; `Host` (Export/Chunker.antt) is the context, the file system, the zstd encoder, the
-- hash and the sink; trim_space is strings.TrimSpace. `Plant` (Orchestrate.antt) is targetcli, configfs,
-- sysfs, lsscsi and systemd as they are read, `Shell` (Orchestrate/Apply.antt) the acts of the operator's
-- window and the snapshot, `Robot` (Inventory/Deletion.antt) and `Station` (Inventory/Minting.antt) mktape,
-- mtx, vtlcmd and the media files; commands may fail and change the world, a read leaves it alone. The
-- random numbers of serials are a sequence. Each call may fail and may change a world that nothing is known
-- of, so the theorems hold for every order of failures; those that need more name it.
--
-- Bounds and fuel. The loop of Write runs on fuel of one more than the bytes it is given: a round consumes
-- a byte, but for the first at a window that a failed close left full; a step that panics is told from one
-- that returns an error, and the panic ends Write without a result. Counters of bytes and of chunks are
-- natural numbers for an int64 and an int, which the bytes of a stream do not reach; ids are integers; a
-- poll of ApplyLibraries has 24 rounds, which Orchestrate/Apply/Polled shows to be enough for its 45
-- seconds; the number of polls in the seconds that DeleteCart and MintCart wait is any; nanoseconds since
-- 1970 are natural numbers. A time in a column is its number of seconds, for its RFC 3339 text in UTC,
-- whose order is the order of the texts up to the year 9999.
--
-- What is not modelled. JSON and HTTP encoding (a body is a value, or nothing if it does not decode), log
-- lines, the delay of a failed login, scanning of rows, two requests at once (the operations of the
-- orchestrator hold a mutex, so here they run one after the other); the tar writer and the listing of a
-- cartridge's files; the rest of the job runner; of the inventory the parser of device.conf (its result is
-- a reading of the parameter), the blocks that are printed to it, the file library_contents (its rewriting
-- is an act of the parameter), discovery and the loops of the engine but for applyMtx and applyMedia; the
-- views of the orchestrator for the Targets page; the other packages of openvtld/internal, the web
-- interface, packaging.
mod Prelude
pub mod Exec
pub mod Store
pub mod Api
pub mod Events
pub mod Export
pub mod License
pub mod Inventory
pub mod Orchestrate
mod Tests
