-- ===== src/Lib.antt =====
-- sensorwatch: the command line tool of rust/sensorwatch-cli, which watches hardware sensors. Paths below
-- are relative to rust/sensorwatch-cli/src.
--
-- The program reads samples, from the live source or from recorded files (replay.rs), and evaluates rules
-- over them (rules.rs, engine.rs). `watch` (watch.rs) turns the transitions of the rules into numbered
-- events (event.rs) and exits on the first one or follows. `report` (report.rs) folds the samples of a
-- window into aggregates and prints a digest that fits a byte cap (digest.rs).
--
-- Prelude   numbers, lists, orders, sorted maps (BTreeMap), panics as `none`, texts and decimals
-- Float     what the program does with an f64: a record of operations, and the laws of IEEE 754 as a
--           second record. The only instance is a small one that shows the laws can be met.
-- Labels    labels.rs
-- Source    source.rs: samples and ticks. An instant is its number of nanoseconds. Source.Live is a poll of
--           `LiveSource`.
-- Jsonl     jsonl.rs: the records of the log and their timestamps. Jsonl.Stamp reads a timestamp back.
-- Rules     rules.rs: Rules.Validate is `validate`, Rules.Load is `RuleSet::from_toml_str` after the TOML
--           reader. Rules.Sound, Rules.Complete and Rules.Names hold the proofs.
-- Engine    engine.rs: Engine.Gate is `Gate`, Engine.Series evaluates one reading, Engine.Observe is
--           `Engine::observe` with its passes; the other modules hold the proofs. A rule and its state are
--           two lists that are walked together, as in the code.
-- Digest    digest.rs: Digest.Duration is `parse_duration_secs`, Digest.Gaps and Digest.Aggregate are the
--           streaming pass, Digest.When `parse_when`, `candidate_files` and the window that the arguments of
--           report.rs resolve to, Digest.Rows the rows, their ranking and filters, Digest.Fit the byte cap and
--           Digest.Emit `emit`; the other modules hold the proofs.
-- Event     event.rs: the event record, `SeqStore` (Event.Sequence) over a directory whose writes can
--           fail, spool names (Event.Slug).
-- Report    report.rs: the scan loop of `run`, and `run` itself in Report.Run.
-- Watch     watch.rs and exit.rs: `apply_filters`, `run_one_shot`, `run_follow`. A loop takes the list of
--           what the world does in each of its rounds.
-- Replay    replay.rs and limits.rs: `read_line_bounded` over the chunks of a reader, `fixup_python_tokens`,
--           `parse_line` (Replay.Parse) and `ReplaySource` (Replay.Ticks).
-- Export    export.rs: `ParquetSink`, the scan of `run`, the guard of the output file, and `run` itself in
--           Export.Run.
-- Config    config.rs: the lenient configuration and the sensor filter.
-- Binding   rust/sensorwatch/src/lib.rs, from the repository's root: the safe wrapper of the C library. Each
--           call gives its result and the handles that it acquired and released.
-- Logger    logger.rs: `LogWriter` over a directory whose calls can fail, `run_loop` over the list of what the
--           world does in its rounds, and `wait_for_shutdown`.
-- Examples  the theorems at concrete inputs
--
-- Machine integers wrap where a release build wraps: `u32` and `u64` write out the remainder. Signed
-- values that the code keeps non-negative are natural numbers. Three loops are on fuel: the binary search
-- of `fit` (Digest.Fit.narrow), whose fuel is the largest drop count, since every step makes the interval
-- smaller, the walk over the days of a window (Digest.When.files_from), whose fuel is the number of those
-- days, and the reading of a replay source (Replay.Ticks.drain), whose fuel is more than the bytes and
-- files that are left, since every turn uses some up. Caps that are constants of the code (MAX_GAPS,
-- VIOLATION_CAP, MAX_LINE_BYTES) are arguments of most definitions that use them, so that the theorems
-- hold for any.
--
-- Code of other crates is a parameter: `str::to_lowercase` (Prelude.Text.CaseFold), the operations of f64
-- (Float), the JSON renderer of a digest, the dates, zones and parsers of jiff (Logger.Calendar,
-- Digest.When.Zone), the renderer of a record (Jsonl), the clock and files that a report finds
-- (Report.Run.Outside, Export.Run.Outside), the TOML reader (Config.Toml), the JSON, UTF-8 and instant
-- readers of a replay (Replay.Parse.Readers), file identities (Export.Identities) and the functions of
-- the C library (Binding.Core). What a theorem relies on of them is a record of laws: Float.IsFloat,
-- Logger.Names.IsCalendar, Replay.Window.IsReaders, Binding.Reads.Serves. The
-- texts of messages and warnings are not modelled; an error is a constructor of its cause, an exit code
-- or `none`.
--
-- Not modelled: the set-up of `log` and `watch`, the sensor rows that a live `watch --follow` logs,
-- snapshot.rs, render.rs, cli.rs, the C library, its raw
-- declarations, and the Python package.
pub mod Prelude
pub mod Float
pub mod Labels
pub mod Source
pub mod Rules
pub mod Engine
pub mod Digest
pub mod Event
pub mod Binding
pub mod Config
pub mod Logger
pub mod Report
pub mod Watch
pub mod Replay
pub mod Jsonl
pub mod Export
pub mod Examples
