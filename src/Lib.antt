-- ===== src/Lib.antt =====
-- bksd: a daemon that backs up removable drives as they are plugged in.
--
-- The program and its parts. A hardware adapter reports a drive (src/adapters). The orchestrator
-- (src/core/orchestrator.rs) writes a job to the database (src/db/jobs.rs), runs a transfer engine
-- (src/core/transfer_engine.rs and the folder of that name) into a new folder below the backup
-- directory, checks the copy against the hashes of the transfer (src/core/verifier.rs), and keeps
-- the live status of each job in a tracker (src/core/progress.rs). Clients ask for jobs over RPC
-- (src/rpc), a web socket (src/web) and a terminal interface (src/cli).
--
-- Which file models which part.
--   Base: shared helpers. Numbers are the native ones; `add_u64` and `sub_u64` wrap around.
--   Storage: std::fs and std::path. A path is the list of its components. `Disk` is what the
--     backups are written to; a file keeps its bytes and the attributes that were set. `Exec` is a
--     call that changes the disk and may fail, where the changes before the failure stay.
--     Storage/Host: the machine's answers to each system call, as a parameter, with BLAKE3 and f64.
--   Transfer: the types of src/core/transfer_engine.rs, and `FileOwner`.
--   Ownership: src/core/ownership.rs. The user tables and the environment are a parameter.
--   NativeCopy: src/core/transfer_engine/native_copy.rs. Scan is `scan_directory`, on the tree of
--     what the device answers; Dirs is `resolve_owner` and `create_directory_structure`; File is
--     `copy_single_file`; Estimate is the percentage and `calculate_eta`; Files is
--     `copy_files_with_progress`; Engine is `NativeCopyEngine::transfer`; Errors tells a removed device.
--   Verifier: src/core/verifier.rs.
--   Progress: src/core/progress.rs.
--   Tables: the rows of the tables of src/db/schema.sql, and what SQLite leaves open. Db: the
--     statements of src/db/jobs.rs on them.
--   Notifications: the events and `create_notifier` of src/core/notifications/mod.rs; Slack is
--     src/core/notifications/slack.rs.
--   Orchestrator: src/core/orchestrator.rs. `Daemon` is the state that the tasks share and what they
--     have sent out. An `Action` is one atomic step: an event of the hardware, or the receipt of one
--     status by the receiving task of one job; `after_actions` runs any sequence of them, so jobs
--     interleave in every order.
--   Simulated: src/core/transfer_engine/simulated.rs. `fuel` bounds the rounds of its loop; as many
--     rounds as there are bytes are enough where a round copies at least one byte.
--   Rpc: src/rpc/protocol.rs, src/rpc/methods.rs and `handle_connection` of src/rpc/transport.rs.
--   RpcClient: src/rpc/client.rs. Web: src/web/websocket.rs.
--   Tui: src/cli/tui/app.rs, with the daemon's answers to the calls of each action as a parameter;
--     Keys is src/cli/tui/input.rs, Loop is `run_app` of src/cli/tui/mod.rs, and Drawing is the
--     texts of src/cli/tui/ui.rs, where a slice that panics is `none`.
--   Hardware: src/core/hardware.rs. Kernel: the calls of the system.
--   Linux: src/adapters/linux.rs, over the kernel as a parameter;
--     Watching has the thread that polls udev and the task that handles its events, with the
--     clean-ups in between; Table says what the mount calls do to the table of mounts.
--   SimulatedAdapter: src/adapters/simulated.rs, and the lines that control it.
--   Rsync: src/core/transfer_engine/rsync.rs, over a parameter for the process and the matches of
--     the regular expression.
--   Throttle: `LogThrottle` of src/logging.rs. The load and the exchange of its atomic number are
--     steps of their own, so the calls of several threads interleave.
--   Service: src/service.rs and the configuration of src/config.rs; Command is `run_start` of
--     src/main.rs without `--foreground`.
--   Examples: tests and instances.
--
-- Assumptions and bounds.
--   The device and the answers of the system are fixed during one phase of a transfer, with an
--   answer of its own for each path and for each call. A read gives its result per call, so a file
--   can fail in the middle. A tree of directories is finite, so the scan ends.
--   A buffered write goes to the disk at once; the flush behind it may still fail.
--   A release build is modelled: u64 additions wrap around.
--   The receiver of a status never stops the engine: the results of `send` are dropped in the code.
--   What a job's transfer task sends is settled when the job starts. The receiving task takes its
--   statuses in the order of the channel.
--   The clock of the database has seconds. The order of rows with the same second is a parameter,
--   which may differ with the LIMIT and the OFFSET of a statement, as are the text of the errors and
--   the numbers that SQLite can bind. `IsOrdering` says what ORDER BY promises. An error of the
--   engine is possible at each statement.
--   A lazy unmount takes the mounts below it away too, as umount(2) says. Bind mounts and mount
--   propagation are left out. `File::create` keeps the mode and the owner of a file that is there.
--   The numbers of the JSON-RPC error codes are not modelled.
--   f64 is a parameter; `IsIeee` says what is used of it. BLAKE3 is a parameter; `IsStreaming` says
--   that it hashes the concatenation of its updates. Nothing is said of collisions.
--   A panic of `expect` is the error of the blocking task's join.
--   The notifier, once there is one, gets each event; that it may fail is logged in the code and has
--   no effect.
--   JSON is a parameter of Rpc: what a line or parameters are read as, and what a payload becomes.
--
--   `to_lowercase` is that of ASCII: no other character has a lower case among the letters of the
--   names of file systems. The names of devices are ASCII.
--   A poll of udev, an event, a clean-up and a stop are steps of a sequence; an error of `systemctl`
--   and of each file operation is possible at each call.
--
-- Not modelled. Log messages and the spans; `job_id` where it is only logged. Accepting connections,
-- the web server, the styles of the terminal, the status command, the daemon's start with
-- `--foreground` and the merging of configuration sources: they are I/O, presentation or glue over
-- libraries. Removing a device only writes a log message.
pub mod Base
pub mod Db
pub mod Examples
pub mod Hardware
pub mod Kernel
pub mod Linux
pub mod NativeCopy
pub mod Notifications
pub mod Orchestrator
pub mod Ownership
pub mod Progress
pub mod Rpc
pub mod RpcClient
pub mod Rsync
pub mod Service
pub mod Simulated
pub mod SimulatedAdapter
pub mod Storage
pub mod Tables
pub mod Throttle
pub mod Transfer
pub mod Tui
pub mod Verifier
pub mod Web
