-- ===== src/Replay/Lines.antt =====
-- replay.rs: `read_line_bounded`. A reader is the list of the chunks that `fill_buf` still returns; an
-- empty chunk is the end of the file.
use sensorwatch.Prelude.{
  ℕ, ◌+◌, ◌*◌, Bool, true, false, Option, none, some, List, [], ◌∷◌, ◌++◌, leb, ◌==◌, if◌then◌else◌,
  length, is_empty,
}
use sensorwatch.Prelude.Text.{Text}

-- `MAX_LINE_BYTES`
abbrev pub max_line_bytes : ℕ
max_line_bytes = 4 * 1024 * 1024

pub data LineOutcome : Type 0 where
  line oversized eof : LineOutcome

-- the bytes before the first newline, and those after it if there is one
unfoldable pub split_newline : Text → Text × Option Text
split_newline [] = ([], none)
split_newline (b ∷ bs) =
    let (before, after) = split_newline bs in
    if b == b'\n' then ([], some bs) else (b ∷ before, after)

-- `buf` and `oversized` after the bytes that one chunk adds
unfoldable pub extend : ℕ → Text × Bool → Text → Text × Bool
extend limit (buf, true) bytes = (buf, true)
extend limit (buf, false) bytes =
    if leb (length buf + length bytes) limit then (buf ++ bytes, false) else ([], true)

abbrev pub at_end : Text × Bool → LineOutcome
at_end (buf, true) = oversized
at_end (buf, false) = if is_empty buf then eof else line

abbrev pub at_newline : Text × Bool → LineOutcome
at_newline (buf, true) = oversized
at_newline (buf, false) = line

-- `consume`, of a part of the chunk
abbrev pub unread : Text → List Text → List Text
unread [] chunks = chunks
unread (b ∷ bs) chunks = (b ∷ bs) ∷ chunks

-- the loop: the outcome, the buffer and what is left of the reader
unfoldable pub read_from : ℕ → Text × Bool → List Text → LineOutcome × Text × List Text
unfolding split_newline extend
read_from limit st [] = (at_end st, st.0, [])
read_from limit st ([] ∷ chunks) = (at_end st, st.0, [] ∷ chunks)
read_from limit st ((b ∷ bs) ∷ chunks) =
    let (before, after) = split_newline (b ∷ bs) in
    let st' = extend limit st before in
    elim after [
      | some left ↦ (at_newline st', st'.0, unread left chunks)
      | none ↦ read_from limit st' chunks
    ]

unfoldable pub read_line_bounded : ℕ → List Text → LineOutcome × Text × List Text
unfolding read_from
read_line_bounded limit chunks = read_from limit ([], false) chunks
