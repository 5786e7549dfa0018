-- ===== src/Lib.antt =====
-- A verification library for ori-skills-hub: the upload, publication and malware scanning of skills.
--
-- An author uploads a signed archive with a skill.yaml. The publish service verifies the author's
-- signature, inspects the archive, validates the package, decides on a review, signs the
-- manifest, rebuilds and signs the archive, stores it and calls the repository. A skill is
-- published with an artifact and, if it needs a scan, with a scan job, in one transaction;
-- workers lease due jobs, submit the upload to VirusTotal, poll the analysis and complete the
-- job, which lists or rejects the skill; an administrator lists, rejects or unlists skills by
-- hand. The rules are enforced twice, by the repositories and by CHECK constraints and triggers
-- of the schema, and both are modelled: a statement of a repository is a write of
-- Database/Writes.antt that the guards of the schema may refuse.
--
-- The files and the code that they model:
-- - Core.antt: the enumerations of hub/core/models.py.
-- - Value.antt: JSON and YAML values and Python dictionaries, as far as the program reads them.
-- - Database.antt: the rows of hub/db/_models.py and the errors of hub/db/errors.py. The database
--   is a record of tables, a transaction a function from it to an outcome with the new tables; an
--   exception rolls back, so it carries none. Database/Guards.antt and Database/JobGuards.antt have
--   the triggers and the CHECK constraints, Database/Writes.antt the statements under them, with
--   unique and foreign keys. The tables of author identities are not modelled but for the status of
--   an author.
-- - Publication.antt, Publication/Inputs.antt, Publication/Transitions.antt:
--   `create_publication`, `transition_skill` and `increment_downloads` of HubRepository in
--   hub/db/repository.py.
-- - ScanQueue.antt, ScanQueue/Reports.antt, ScanQueue/Evidence.antt, ScanQueue/Completion.antt:
--   ScanRepository of hub/db/scans.py: claims, reports of progress, statistics and completions;
--   ScanQueue/Due.antt, ScanQueue/Order.antt, ScanQueue/Leases.antt, ScanQueue/Idle.antt and
--   ScanQueue/Ownership.antt are about one call of it, ScanQueue/Exclusion.antt about several claims.
-- - Scanner.antt: `submit` and `poll_once` of VirusTotalScanner in hub/integrations/scan.py;
--   Scanner/Counts.antt, Scanner/Responses.antt and Scanner/Verdict.antt are about its clean results.
-- - ScanWorker.antt, ScanWorker/Invocation.antt: ScanWorker of hub/core/scan_worker.py: one
--   `run_once`, with its storage, provider, clocks and random source as arguments.
--   ScanWorker/Bounds.antt is about its bounds, ScanWorker/Decisions.antt about its clean
--   completions. The latency metric is left out. The claim, the decision and the reports of one
--   `run_once` run with no transaction of anyone else between them; interleavings of the calls
--   themselves are those of Lifecycle.antt.
-- - Lifecycle.antt: sequences of repository calls, each one transaction; a sequence is any
--   interleaving of workers and web requests. Lifecycle/Runs.antt has the invariant, with a file
--   for each kind of step beside it; Lifecycle/Trail.antt breaks every call into single accepted
--   writes, and the files below it are about what such writes keep; Lifecycle/Moves.antt,
--   Lifecycle/Outcomes.antt and Lifecycle/Published.antt are about the tables after one call.
-- - Validation.antt, Validation/Triggers.antt, Validation/Actions.antt, Validation/Package.antt:
--   `validate_skill_metadata` of hub/core/validation.py and `publish_decision` of
--   hub/core/review.py. Validation/Json.antt, Validation/Reads.antt and the files below Triggers,
--   Actions and Package are about what they accept. A value is a finite tree, so that the search of
--   `_validate_json_value` for cycles has nothing to find, and is taken to be nested no deeper than
--   the interpreter's recursion limit, beyond which the code refuses it.
-- - Signing.antt: wire signatures, canonical manifests and detached metadata of
--   hub/security/signing.py, with Signing/Wire.antt and Signing/Manifest.antt about them. Ed25519,
--   base64, hashlib and json are an argument.
-- - Archive.antt, Archive/Names.antt, Archive/Tree.antt, Archive/Document.antt,
--   Archive/Inspection.antt, Archive/Rebuild.antt: hub/storage/tarball.py, with gzip, tarfile,
--   yaml and the tables of Unicode as an argument. The files below them are about the names, paths,
--   members and manifests that are accepted.
-- - Publish.antt, Publish/Pipeline.antt: `publish_skill` of hub/core/publish.py, which composes
--   signing, archives, validation and the repository; the store, the scanner and the private keys
--   are arguments. Publish/Accepted.antt, Publish/Admitted.antt and
--   Publish/Gate.antt are about what it publishes.
-- - Objects.antt: ContentAddressedStorage of hub/storage/objects.py; Objects/Immutable.antt is about
--   what it keeps.
-- - HubKeys.antt: the loading of keys in hub/security/hub_keys.py, with HubKeys/Secrets.antt and
--   HubKeys/Sources.antt about it.
-- - Prelude.antt: tests, lists, texts, results and keys that the parts share.
-- - Scenarios.antt and the files below it: concrete calls and tables, on which the theorems are
--   used.
--
-- Texts are lists of code points, times are whole microseconds, and the clocks, the new
-- identifiers and CURRENT_TIMESTAMP of a call are arguments. SQL leaves open which of several
-- equally early due jobs a claim takes, and the model takes the one that stands first. Loops run
-- over the rows of a table, the members of an archive or the parts of a value, so they need no
-- fuel. The HTTP client is an argument: a call takes the response or the failure that it gave.
-- Not modelled: reading queries, author identities, the generation of key files, the web layer,
-- configuration, migrations and scripts.
mod Prelude
pub mod Core
pub mod Value
pub mod Validation
pub mod Signing
pub mod Archive
pub mod Publish
pub mod Objects
pub mod HubKeys
pub mod Database
pub mod Publication
pub mod ScanQueue
pub mod Scanner
pub mod ScanWorker
pub mod Lifecycle
mod Scenarios
