-- ===== src/Lib.antt =====
-- The laboratory for log rotation under a memory limit. A writer appends numbered records to a log
-- file; a rotator moves or truncates the file; a monitor samples the memory of the control group and
-- the sizes of the files; an audit reads the rotated files back and says which records were lost; and
-- a sweep searches the least memory limit under which all of this succeeds.
--
-- Base         shared names, lists, text as bytes, `(v, error)` results, integers.
-- Strconv      the decimal prints and parses of Go's strconv and fmt, with their round trips.
-- Report       internal/report/report.go: the records that the parts hand to one another; Report/Atomic
--              is `WriteJSONAtomic`. To the parts that call it it is a call that fails or does not.
-- Csv          the files that encoding/csv writes, as the pieces that were written to them.
-- FilePath     `filepath.Base`.
-- Record       internal/record/record.go: `encode`, `parse`; the proofs are in Record/RoundTrip.
-- Integrity    internal/integrity/analyze.go: `analyze`, over the line scanner of Integrity/Lines.
--              Integrity/Counts says what the loop counts, Missing and Order what the report says,
--              Intact and Rotated that an intact log is found intact.
-- Sweep        Sweep/Search is internal/sweep/search.go: `search` over any runner of attempts. Its
--              children follow the attempts (Attempts, Log), the two ends of the range (Bracket), the
--              report (Boundary), threshold runners (Least) and what stays as it was (Plain). Sweep/Docker is
--              internal/sweep/docker.go: `docker_attempt` and `docker_search`, over the answers of
--              the docker command.
-- Writer       internal/writer/writer.go: the generator, its buffer and `flush`; Writer/Loop has the
--              cases of the loop as events, the handler of /reopen-logs, and `run`. Stream says what
--              stands in the buffer and the files, Steps that every case keeps it, Complete what a run
--              without an error leaves. Files, Shuffle and Audit hand that to the audit. Retry, Credit,
--              Requests and Reopens are about a flush that fails, the loop over the credit, and reopens,
--              Essence, Running and Served about what a tick leaves, and how soon a request is served.
-- Metrics      internal/metrics/analyze.go: `analyze`; the order statistics are in Metrics/Ranks, the
--              rise of the cache during a rotation in Metrics/Transient.
-- Cgroup       internal/cgroup/reader.go: `sample` and `rss_from_cgroup_procs` of Cgroup/Sampling,
--              whose ranges are in Cgroup/Bounds.
-- Monitor      internal/monitor/monitor.go: the rows of a sample, `read_samples`; Monitor/Files has
--              the statistics of the log files and the loop of `Run`, Readings what a tick reads and
--              `Run` from its start, Written the rows that are in the file; Bounds says that they are
--              read back.
-- Harness      internal/harness/run.go: the waits for the children and the rule of success;
--              Harness/Driver is `run` over the answers of the children and the files they left.
--              Children has the arguments of the children, Processes follows them, Peaks has the maxima,
--              Collected where a summary comes from, Verdict when it is a success, and Whole the
--              writer, the audit and the harness together.
-- FileSystem   the system calls of the rotator over one directory that it shares with the writer. The
--              writer takes its moves, from a schedule, before each call, and each call may fail.
--              Kept, Calls, Files and Held say what the calls leave in place, Exact what the log holds.
-- Rotator      internal/rotator: both rotations and the events; Rotator/Driver has retention,
--              `rotate_once` and the loops of `run`. Safe, Failed, Copied, Counted and Lost follow the
--              log through both rotations, and Events the events that are read back. Backups, Trimmed
--              and Retention say which backups are kept.
-- Command      cmd/loglab/main.go: the choice of a command, `run` and its exit code (Command/Exit), and
--              `memory-sweep` (Command/Sweep), whose reports are compared in Command/Deltas.
--              Command/Flags is Go's `flag` package with the flags of every command, Program the
--              program with `rotate` and `monitor`. Started follows the arguments of Harness/Children
--              into the children, Contained those of a Docker attempt into the container;
--              Swept is `memory-sweep` over Docker searches.
-- Copyprobe    tools/copyprobe/main.go over FileSystem; Copies says what it leaves in the two
--              files, over the calls of Copyprobe/Calm.
-- Tests        the theorems at concrete data, and runs that can be followed in the Go tests.
--
-- A uint64 is a native number whose wrap-around is written out; an int that may be negative is an
-- integer of Base/Int; a float64 is a parameter, since antt has no floats. The search runs on fuel: one
-- more than the distance of the two limits, which shrinks in every round, so that `search` never
-- runs out of it. The loop over the writer's credit runs on the credit itself, of which each record takes
-- at least a byte. The wait of a Docker attempt and the loops of the writer, the rotator, the monitor and
-- the harness run on the list or the number of the events that come before the context is done. What the
-- world answers (open files, processes, the clock, the docker command, filepath.Glob, the reader of
-- encoding/csv) is an argument.
--
-- Not modelled: signals, logs and what is printed; the syntax of durations, of JSON and of CSV, which is
-- the standard library's; attempts at a limit below zero, which a sum that wraps in alignUp leads to; the modes and owners of files; the names of Docker's volumes and
-- containers and their removal; the C++ writer, the scripts and the deployment.
mod Base
pub mod Strconv
pub mod Report
pub mod Csv
pub mod FilePath
pub mod Record
pub mod Integrity
pub mod Sweep
pub mod Writer
pub mod Metrics
pub mod Cgroup
pub mod Monitor
pub mod Harness
pub mod FileSystem
pub mod Rotator
pub mod Command
pub mod Copyprobe
mod Tests
