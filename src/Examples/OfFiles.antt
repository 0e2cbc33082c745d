-- ===== src/Examples/OfFiles.antt =====
-- event.rs and replay.rs at concrete inputs.
use sensorwatch.Prelude.{ℕ, ◌≡◌, refl, none, some, List, [], ◌∷◌, arith, any, if◌then◌else◌}
use sensorwatch.Prelude.Text.{text}
use sensorwatch.Event.Sequence.{Directory, SeqStore, open_store, done, write_fails}
use sensorwatch.Event.Restart.{reserve, restart, life, AscendsFrom, life-Ascends}
use sensorwatch.Event.Slug.{slug, IsSlug, slug-IsSlug}
use sensorwatch.Replay.Tokens.{fixup_python_tokens}
use sensorwatch.Replay.Pieces.{
  Piece, quoted, plain, nan, other, is_token, nulled, written, fixup-written,
}
use sensorwatch.Replay.Lines.{read_line_bounded}
use sensorwatch.Replay.Chunks.{join, joined, read_line, read_line_bounded-read_line}

-- a new state directory
abbrev fresh : Directory
fresh = record { seq_file = none; staging = none }

abbrev started : SeqStore
started = record { last = 0 }

life-Ascends_example :
    (ns : List ℕ) × (life fresh started
        (reserve done ∷ reserve (write_fails none) ∷ restart ∷ reserve done ∷ [])
      ≡ some ns)
    × AscendsFrom 0 ns
unfolding open_store
life-Ascends_example =
    life-Ascends fresh started
      (reserve done ∷ reserve (write_fails none) ∷ restart ∷ reserve done ∷ []) refl

slug-IsSlug_example : IsSlug (slug (text "CPU hot!"))
slug-IsSlug_example = slug-IsSlug (text "CPU hot!")

-- {"NaN":NaN}
abbrev pieces : List Piece
pieces =
    other b'{'
    ∷ quoted (plain b'N' ∷ plain b'a' ∷ plain b'N' ∷ [])
    ∷ other b':'
    ∷ nan
    ∷ other b'}'
    ∷ []

fixup-written_example :
    fixup_python_tokens (written pieces)
    ≡ (if any is_token pieces then some (nulled pieces) else none)
fixup-written_example = fixup-written pieces (
  (omega arith, omega arith, omega arith, omega arith),
  (
    ((omega arith, omega arith), ((omega arith, omega arith), ((omega arith, omega arith), tt))),
    (
      (omega arith, omega arith, omega arith, omega arith),
      (tt, ((omega arith, omega arith, omega arith, omega arith), tt)),
    ),
  ),
)

read_line_bounded-read_line_example :
    joined (read_line_bounded 4 (text "ab" ∷ text "c\nd" ∷ []))
    ≡ read_line 4 (join (text "ab" ∷ text "c\nd" ∷ []))
read_line_bounded-read_line_example =
    read_line_bounded-read_line 4 (text "ab" ∷ text "c\nd" ∷ []) (λ e. cc, (λ e. cc, tt))
