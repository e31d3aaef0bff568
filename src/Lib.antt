-- ===== src/Lib.antt =====
-- Verification of the thesis agent, a Go program that runs on managed computers: it enrolls with a
-- server, keeps a WebSocket to it, and carries out its commands (downloads, virus scans, shutdown,
-- inventories, streams of measurements and of the screen).
--
-- The parts and where they are modelled:
--   Base        shared helpers: tests on native numbers and strings, lists, association lists, signed
--               integers, texts as lists of code points.
--   Transport   internal/transportpolicy/policy.go: which endpoints and redirects are allowed. The
--               download manager, the registration and the client share its HTTP client.
--   Retry       internal/retry/backoff.go: the waits between attempts to connect and to enroll.
--   Download    download/manager.go, messages.go, destination.go, policy.go. `Handlers` has the
--               operations under the manager's mutex, `Attempts` their interleavings, `Validate`,
--               `Destination` and `Destination/Roots` the checks, `Request` the HTTP request with
--               its retries, `Progress` the writer that reports, `Run` a whole job with every early
--               return. `Cache`, `Publishing`, `Integrity` and `Attempts/Exclusion` prove.
--   Client      client/message.go, client.go, power.go, antivirus.go, performance.go, screen.go and
--               installed_apps.go. `Message` parses, `Dispatch` routes a frame to the managers and
--               streams, `Events` is the queue that keeps results for a reconnect, `Streams`,
--               `Screen` and `Apps` are the goroutines of a connection.
--   Identity    service/agent_id.go and private_key.go; `Store` has loading, copying and enrolling
--               (service/enrollment_state.go, registration.go), `Migration` the migration of the
--               private key to machine protection (service/private_key_migration.go).
--   Antivirus   antivirus/scan.go: one scan at a time.
--   Logging     service/logging.go: the rotating log file.
--   Host        internal/servicehost/host_windows.go: the select loop of the Windows service.
--   Auth        internal/agentauth/protocol.go and client/auth.go: the signed transcript and the four
--               messages of the authentication. `Framing` decodes the transcript, `Exchange` proves.
--   Protected   internal/protectedpath/runtime_windows.go, runtime.go and path_windows.go. `Descriptor`
--               classifies the access rights of a file, `Repair` inspects and repairs the files of the
--               agent, `Startup` is the gate that pins, locks and repairs before anything is read.
--   Config      config/config.go: the file `.env` and the environment.
--   Inventory   installedapps/collector.go: the inventory of applications that the client sends.
--   Agent       internal/agent/runtime.go: a run from the gate to the client's sessions, with what is
--               deferred. `Checks`, `Order` and `Ready` prove, `Diagnostics` is internal/agent/security.go and
--               `Command` main.go. A run uses the policy of Transport and the roots of Download.
--   Scenarios   concrete runs.
--
-- The correspondence: a struct is a record, an operation is a function from the state to the state,
-- with what it sends or writes recorded in the state, and with the answers of the operating system,
-- the network and the clock as arguments. Goroutines are step relations, one step for each section
-- under a mutex or each channel operation. The gate of the start and the run of the agent record
-- their acts in a list; the system's answers to the gate may depend on all acts so far. An
-- identifier has the name it has in Go, in lower case with underscores.
--
-- Numbers: durations and sizes are native numbers; the doubling of the backoff, the conversion of a
-- file's size to uint64, the product of the percentage and the check point of a service status keep
-- their wrap-around. float64 is a parameter of the backoff.
--
-- Fuel: the walk over the directories above a destination takes one unit more than the path has
-- characters, and `check_destination_links-IsSafe` shows that this is enough for every destination
-- that `clean_destination` accepts. The rounds of the enrollment loop take any fuel beyond the first
-- round that is no temporary failure, which `ensure_enrollment-ends` shows. The HTTP request has the three rounds of the code.
--
-- Parameters: JSON decoding, base64, SHA-256, Ed25519, DPAPI, url.Parse, case folding, path/filepath,
-- the Unicode tables and uuid.Parse. The laws that theorems assume of them are records next to them
-- (`FoldLaws`, `UnicodeLaws`, `FloatLaws`, `DirLaws`, `SameLaw`, `IsInt64`, `Rearranges`).
--
-- Not modelled: the boundary of internal/protectedpath/access_windows.go, the registry reader of
-- installedapps, internal/desktopcapture, internal/statefile, internal/runlock,
-- service/power_windows.go, the service's registration and repair
-- (internal/servicehost/configure_windows.go and repair_windows.go), and the wrappers of operating
-- system calls. The texts of log lines and the times in messages are left out of the models.
pub mod Base
pub mod Retry
pub mod Transport
pub mod Download
pub mod Client
pub mod Identity
pub mod Antivirus
pub mod Logging
pub mod Host
pub mod Auth
pub mod Protected
pub mod Agent
pub mod Config
pub mod Inventory
pub mod Scenarios
