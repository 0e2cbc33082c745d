-- ===== src/Event/Sequence.antt =====
-- event.rs: `SeqStore`, over a state directory whose writes can fail.
use sensorwatch.Prelude.{
  ℕ, ◌+◌, not, ◌&&◌, Option, none, some, [], ◌∷◌, ◌++◌, ltb, ◌==◌, if◌then◌else◌, all, is_empty,
}
use sensorwatch.Prelude.Text.{Text, trim, is_ascii_digit}
use sensorwatch.Prelude.Decimal.{digits_value, print}
use sensorwatch.Prelude.Words.{u64_mod}

-- the files `watch.seq` and `watch.seq.tmp`
pub record Directory : Type 0 where
  pub seq_file : Option Text
  pub staging : Option Text

pub record SeqStore : Type 0 where
  pub last : ℕ  -- u64

-- `str::parse::<u64>`: an optional `+`, then digits, and a value below 2^64
abbrev pub parse_digits : Text → Option ℕ
parse_digits s =
    if not (is_empty s) && all is_ascii_digit s
    then (if ltb (digits_value 0 s) u64_mod then some (digits_value 0 s) else none)
    else none

unfoldable pub parse_u64 : Text → Option ℕ
parse_u64 [] = none
parse_u64 (c ∷ s) = if c == b'+' then parse_digits s else parse_digits (c ∷ s)

abbrev pub opened_at : Option ℕ → Option SeqStore
opened_at none = none
opened_at (some n) = some (record { last = n })

-- how the calls of `open` on the directory and on the file end, where a file that is missing is readable
pub data Access : Type 0 where
  readable not_created unreadable : Access

-- `SeqStore::open`; `none` is an error: no directory, a file that cannot be read, or a corrupt one
unfoldable pub open_store : Access → Directory → Option SeqStore
unfolding parse_u64
open_store not_created d = none
open_store unreadable d = none
open_store readable d = elim d.seq_file [
  | none ↦ some (record { last = 0 })
  | some s ↦ opened_at (parse_u64 (trim s))
]

-- how the two file operations of `next` end; a write that fails leaves any text behind
pub data Io : Type 0 where
  done : Io
  write_fails : Option Text → Io
  rename_fails : Io

unfoldable pub line : ℕ → Text
line n = print n ++ (b'\n' ∷ [])

abbrev pub persist : Directory → SeqStore → Io → Directory × SeqStore × Option ℕ
persist d s done = (
  record { seq_file = some (line (s.last + 1)); staging = none },
  record { last = s.last + 1 },
  some (s.last + 1),
)
persist d s (write_fails left) = (record d { staging = left }, s, none)
persist d s rename_fails = (record d { staging = some (line (s.last + 1)) }, s, none)

-- `SeqStore::next`
unfoldable pub next : Directory → SeqStore → Io → Directory × SeqStore × Option ℕ
unfolding line
next d s io = if ltb (s.last + 1) u64_mod then persist d s io else (d, s, none)
