-- ===== src/Lib.antt =====
-- dirk: the slashing protection of a distributed signer
--
-- A request for a signature reaches the signer (services/signer/standard), which fetches and checks
-- the account and puts the request to the ruler (services/ruler/golang). The ruler refuses several
-- entries for one public key, locks the keys, and runs the rules (rules/standard), which keep for
-- each public key the epochs or the slot that were last approved, in badger
-- (rules/standard/storage.go). An approved request is then signed. Protection data of another
-- instance are imported, and exported, by commands (slashingprotection.go). Keys that several
-- instances share are made by the process service, in which each instance keeps its generations.
--
--   Prelude    names of the libraries, lists, tests; Words: int64, uint64, little-endian bytes;
--              Go: slices, panics, errors
--   History    sequences of calls, and what one call must do for their approvals to be in order
--   Rules      rules/: Types, State (encodings), Env (badger, gob and the domains as parameters),
--              Storage, Attestation (one), Attestations (a batch), Proposal, Sign, Interchange
--              (export and import of slashingprotection.go)
--   Maps       Go's maps as association lists
--   Locker     services/locker/syncmap: goroutines that lock groups of keys, as RunRules does;
--              Mutexes: Lock and Unlock in small steps
--   Interchange  slashingprotection.go: the file, its export and its import
--   Process    services/process/standard: Env (BLS, wallets, clock and services as parameters), the
--              handlers (service.go, generation.go, crypto.go), Commit (OnCommit), Generate
--              (generate.go), and what holds of the states reached and of the keys made
--   Scatter    util/scatter.go: the extents of the workers
--   Ruler      services/ruler: RunRules, runRules and runRulesForMultipleBeaconAttestations
--   Core       core/result.go
--   Checker    services/checker/static: Check
--   Signer     services/signer/standard: Services (the fetcher, the checker, the unlocker and the
--              accounts as parameters), Account (helpers.go), Root (the signing root), Single
--              (SignGeneric, SignBeaconAttestation and SignBeaconProposal), Several (Multisign and
--              SignBeaconAttestations), and what the signatures are over
--   Peers      services/peers/static
--   Examples   a database in memory that meets the laws, tests and concrete inputs
--
-- A method is a function with its name in snake case; a handler with calls that change state takes
-- the state and returns it with its result, which is a panic where the code panics. A
-- `[]byte` is a list of its bytes, with its spare capacity where the code reads beyond its length. A
-- uint64 is a natural number; int64 and its conversions wrap around. Every loop is recursion on a
-- list or on a number that the code counts to, so there is no fuel.
--
-- Badger is a parameter (Rules.Env): its operations, and as laws what its documentation says of
-- reads after writes; a write batch that fails may have written some of its entries. The
-- workers of `util.Scatter` are run one after the other, in the order of their entries: they write
-- different indices. Calls of RunRules are run one after the other, which the locks ensure for one
-- public key: a call is the list of its calls of the locker and of the rules, in order. Locker.Mutexes
-- has the steps of Lock and Unlock, with the map of mutexes and newLockMutex; in the step relation of
-- Locker, for goroutines that lock groups of keys, Lock is one step, which waits until nobody has the
-- key. Logging, metrics and tracing are left out.
--
-- The handlers of the process service run under one mutex, so each is one step; the goroutines of
-- OnGenerate are run one after the other; what an instance gets from another is any value. A map is
-- visited in the order of its list.
--
-- Not modelled: the transport (services/api, services/sender), metrics, start-up, the
-- managers of accounts and wallets, the lister, the fetcher, the unlocker, and the reading
-- of files and JSON.
pub mod Prelude
pub mod Words
pub mod Maps
pub mod Go
pub mod History
pub mod Rules
pub mod Scatter
pub mod Ruler
pub mod Core
pub mod Checker
pub mod Signer
pub mod Interchange
pub mod Process
pub mod Locker
pub mod Peers
pub mod Examples
