-- ===== src/Watch.antt =====
-- rust/sensorwatch-cli/src/watch.rs and exit.rs: the rule filters and the two loops of `watch`. What
-- the world does in one round of a loop is a `Round`, and a loop takes the list of them.
pub mod Filters
pub mod OneShot
pub mod Follow
pub mod Followed
use sensorwatch.Prelude.{
  ℕ, Bool, true, false, not, ◌&&◌, ◌||◌, Option, none, some, List, [], ◌∷◌, ◌++◌, if◌then◌else◌,
  leb, is_empty, any, map,
}
use sensorwatch.Prelude.Order.{list_ord, nat_ord, same}
use sensorwatch.Prelude.Text.{Text}
use sensorwatch.Source.{Tick}
use sensorwatch.Rules.{Rule, RuleSet, Severity, rank, retain, has_no_rules}
use sensorwatch.Engine.Observe.{Engine, Transition}
use sensorwatch.Event.{Event, from_transition}
use sensorwatch.Event.Sequence.{Directory, SeqStore, Io, done, next}
use sensorwatch.Event.Slug.{spool_file_name}

-- exit.rs
abbrev pub success : ℕ
success = 0

abbrev pub fatal : ℕ
fatal = 1

abbrev pub usage : ℕ
usage = 2

abbrev pub event_fired : ℕ
event_fired = 10

abbrev pub interrupted : ℕ
interrupted = 130

pub data MinSeverity : Type 0 where
  info warning critical : MinSeverity

unfoldable pub severity_of : MinSeverity → Severity
severity_of MinSeverity.info = Severity.info
severity_of MinSeverity.warning = Severity.warning
severity_of MinSeverity.critical = Severity.critical

pub record Args : Type 0 where
  pub rules : List Text
  pub min_severity : Option MinSeverity
  pub live : Bool  -- no `--replay`
  pub spooling : Bool  -- `--spool-dir`

-- the rules that are left, or the exit code
pub data Filtered (W : Type 0) : Type 0 where
  left : RuleSet W → Filtered W
  rejected : ℕ → Filtered W

module _ {W : Type 0} where
  -- `available.contains`, for every name asked for
  unfoldable pub all_known : List (Rule W) → List Text → Bool
  all_known rules [] = true
  all_known rules (n ∷ ns) = any (λ (r : Rule W). same r.name n) rules && all_known rules ns

  abbrev pub by_severity : Option MinSeverity → RuleSet W → RuleSet W
  by_severity none s = s
  by_severity (some m) s = retain (λ r. leb (rank (severity_of m)) (rank r.severity)) s

  abbrev pub not_empty : RuleSet W → Filtered W
  not_empty s = if has_no_rules s then rejected usage else left s

  unfoldable pub apply_filters : RuleSet W → Args → Filtered W
  unfolding all_known retain has_no_rules severity_of
  apply_filters s args =
      if is_empty args.rules
      then not_empty (by_severity args.min_severity s)
      else if all_known s.rules args.rules
      then not_empty
          (by_severity args.min_severity (retain (λ r. any (λ n. same n r.name) args.rules) s))
      else rejected usage

-- how the wait at the end of a live round ends
pub data Wait : Type 0 where
  elapsed deadline_passed shut_down : Wait

pub record Round (W : Type 0) : Type 0 where
  pub shutdown : Bool  -- `shutdown_requested`
  pub timed_out : Bool  -- a deadline is set and has passed
  pub tick : Option (Tick W)  -- `next_tick`
  pub wait : Wait

-- The files and streams that a loop writes: `io` is how the next persists of the sequence number end,
-- and they succeed when it is used up. `daily` is the events whose line was written whole to the daily
-- file, and `daily_io` tells of its next writes whether they are; all are when it is used up. `spooled` is
-- the events that are handed to the spool. A write that fails is only logged.
pub record World (W : Type 0) : Type 0 where
  pub directory : Directory
  pub store : SeqStore
  pub io : List Io
  pub printed : List (Event W)
  pub spooled : List (Text × Event W)
  pub daily : List (Event W)
  pub daily_io : List Bool

pub data Ended : Type 0 where
  exited : ℕ → Ended
  running : Ended

abbrev pub head_io : List Io → Io
head_io [] = done
head_io (io ∷ ios) = io

abbrev pub tail_io : List Io → List Io
tail_io [] = []
tail_io (io ∷ ios) = ios

module _ {W : Type 0} (args : Args) where
  -- `spool_if_configured`; a write that fails is only logged, so the name is what was attempted
  unfoldable pub spool_if_configured : World W → Event W → World W
  spool_if_configured w e =
      if args.spooling
      then record w { spooled = w.spooled ++ ((spool_file_name e.seq e.rule, e) ∷ []) }
      else w

  -- `seq_store.next()`
  unfoldable pub reserve : World W → World W × Option ℕ
  unfolding next
  reserve w =
      let (d, s, n) = next w.directory w.store (head_io w.io) in
      (record w { directory = d; store = s; io = tail_io w.io }, n)
