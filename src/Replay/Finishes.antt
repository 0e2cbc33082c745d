-- ===== src/Replay/Finishes.antt =====
-- replay.rs: draining a source ends.
use mathlib.Core.Path.{subst}
use sensorwatch.Prelude.{
  ℕ, zero, suc, ◌+◌, ◌≤◌, ◌<◌, ◌≡◌, ◌⊎◌, ◌∙◌, ap, ap₂, sym, refl, Bool, false, Option, none, some,
  List, [], ◌∷◌, Bool-cases, Option-cases, List-cases, inl, inr, arith, length, all,
}
use sensorwatch.Prelude.Panic.{Returns}
use sensorwatch.Prelude.Text.{Text}
use sensorwatch.Float.{Float}
use sensorwatch.Source.{Sample}
use sensorwatch.Replay.Lines.{
  LineOutcome, line, oversized, eof, split_newline, extend, unread, read_from, read_line_bounded,
  max_line_bytes,
}
use sensorwatch.Replay.Chunks.{after_split}
use sensorwatch.Replay.Parse.{Readers, leading_timestamp, parse_line}
use sensorwatch.Replay.Ticks.{
  BufReader, FileReader, ReplaySource, Turn, returned, again, exhausted, is_ascii_whitespace,
  finish_current_file, record_skip, window_drops, parsed_turn, line_turn, outcome_turn, opened,
  after, fails_now, turn_at, turn, drain,
}

abbrev pub bytes_left : List Text → ℕ
bytes_left [] = 0
bytes_left (c ∷ cs) = length c + bytes_left cs

bytes_left-unread :
    (bs : Text) (cs : List Text) → bytes_left (unread bs cs) ≡ length bs + bytes_left cs
bytes_left-unread [] cs = omega arith
bytes_left-unread (b ∷ bs) cs = omega arith

split_newline-shrinks :
    (bytes left : Text) → (split_newline bytes).1 ≡ some left → length left < length bytes
unfolding split_newline
split_newline-shrinks [] left h = cc
split_newline-shrinks (b ∷ bytes) left h = ground (arith, split_newline-shrinks bytes left)

after_split-lt :
    (limit : ℕ) (st : Text × Bool) (q : Text × Option Text) (size : ℕ) (chunks : List Text)
    → 0 < size
    → ((left : Text) → q.1 ≡ some left → length left < size)
    → ((st' : Text × Bool) → bytes_left (read_from limit st' chunks).2 ≤ bytes_left chunks)
    → bytes_left (after_split limit st q chunks).2 < size + bytes_left chunks
after_split-lt limit st (before, some left) size chunks p h ih =
    omega (arith, h left refl, bytes_left-unread left chunks)
after_split-lt limit st (before, none) size chunks p h ih =
    omega (arith, p, ih (extend limit st before))

read_from-le :
    (limit : ℕ) (st : Text × Bool) (chunks : List Text)
    → bytes_left (read_from limit st chunks).2 ≤ bytes_left chunks
unfolding read_from
read_from-le limit st [] = omega arith
read_from-le limit st ([] ∷ chunks) = omega arith
read_from-le limit st ((b ∷ bs) ∷ chunks) =
    let h =
      after_split-lt limit st (split_newline (b ∷ bs)) (length (b ∷ bs)) chunks (omega arith)
        (split_newline-shrinks (b ∷ bs)) (λ st'. read_from-le limit st' chunks) in
    omega (arith, h)

-- A call that is not at the end of the file uses bytes up.
read_line_bounded-lt :
    (limit : ℕ) (chunks : List Text)
    → ((read_line_bounded limit chunks).0 ≡ eof)
      ⊎ (bytes_left (read_line_bounded limit chunks).2 < bytes_left chunks)
unfolding read_line_bounded read_from
read_line_bounded-lt limit [] = inl refl
read_line_bounded-lt limit ([] ∷ chunks) = inl refl
read_line_bounded-lt limit ((b ∷ bs) ∷ chunks) = inr (
    after_split-lt limit ([], false) (split_newline (b ∷ bs)) (length (b ∷ bs)) chunks (omega arith)
      (split_newline-shrinks (b ∷ bs)) (λ st'. read_from-le limit st' chunks))

module _ {W : Type 0} ⦃f : Float W⦄ (readers : Readers W)
    (file_open : Text → Option BufReader) where
  abbrev cost_of_current : Option FileReader → ℕ
  cost_of_current none = 0
  cost_of_current (some fr) = 1 + bytes_left fr.reader.chunks

  abbrev cost_of_file : Option BufReader → ℕ
  cost_of_file none = 1
  cost_of_file (some r) = 2 + bytes_left r.chunks

  abbrev cost_of_pending : List Text → ℕ
  cost_of_pending [] = 0
  cost_of_pending (p ∷ ps) = cost_of_file (file_open p) + cost_of_pending ps

  -- more than the turns that are left
  abbrev pub cost : ReplaySource → ℕ
  cost s = cost_of_current s.current + cost_of_pending s.pending

  -- the turn returns the end, or leaves less to do
  abbrev Falls : ℕ → Turn W → Type 0
  Falls n exhausted = Unit
  Falls n (again s) = cost s < n
  Falls n (returned x s) = cost s < n

  parsed_turn-Falls :
      (fr : FileReader) (s : ReplaySource) (o : Option (Sample W)) (n : ℕ)
      → cost s < n
      → s.current ≡ some fr
      → Falls n (parsed_turn readers file_open fr s o)
  unfolding record_skip
  parsed_turn-Falls fr s none n h e =
      let same_ : cost_of_current s.current ≡ 1 + bytes_left fr.reader.chunks = rw e refl in
      omega (arith, h, same_)
  parsed_turn-Falls fr s (some x) n h e = h

  line_turn-Falls :
      (fr : FileReader) (s : ReplaySource) (bytes : Text) (n : ℕ)
      → cost s < n
      → s.current ≡ some fr
      → Falls n (line_turn readers file_open fr s bytes)
  unfolding line_turn
  line_turn-Falls fr s bytes n h e = elim (Bool-cases (all is_ascii_whitespace bytes)) [
    | inl w ↦ rw (line_turn, w) h
    | inr w ↦
        elim (Bool-cases
          (window_drops readers file_open s.window (leading_timestamp readers bytes) bytes)) [
            | inl d ↦ rw (line_turn, w, d) h
            | inr d ↦ rw (line_turn, w, d) (parsed_turn-Falls fr s (parse_line readers bytes) n h e)
          ]
  ]

  outcome_turn-Falls :
      (fr : FileReader) (s : ReplaySource) (r : LineOutcome × Text × List Text)
      → (r.0 ≡ eof) ⊎ (bytes_left r.2 < bytes_left fr.reader.chunks)
      → Falls
          (1 + bytes_left fr.reader.chunks + cost_of_pending s.pending)
          (outcome_turn readers file_open fr s r)
  unfolding finish_current_file record_skip
  outcome_turn-Falls fr s (eof, bytes, rest) h = omega arith
  outcome_turn-Falls fr s (oversized, bytes, rest) (inl e) = cc
  outcome_turn-Falls fr s (oversized, bytes, rest) (inr l) = omega (arith, l)
  outcome_turn-Falls fr s (line, bytes, rest) (inl e) = cc
  outcome_turn-Falls fr s (line, bytes, rest) (inr l) =
      line_turn-Falls _ _ bytes _ (omega (arith, l)) refl

  opened-Falls :
      (path : Text) (rest : List Text) (s : ReplaySource) (o : Option BufReader)
      → s.current ≡ none
      → Falls (cost_of_file o + cost_of_pending rest) (opened readers file_open path rest s o)
  opened-Falls path rest s none e =
      let gone : cost_of_current s.current ≡ 0 = rw e refl in omega (arith, gone)
  opened-Falls path rest s (some r) e = omega arith

  turn-Falls : (s : ReplaySource) → Falls (cost s) (turn readers file_open s)
  unfolding turn turn_at finish_current_file
  turn-Falls s = elim (Option-cases s.current) [
    | inl x ↦ elim (List-cases s.pending) [
      | inl z ↦
          let end : turn readers file_open s ≡ exhausted = ap₂ (turn_at readers file_open s) x z in
          rw end tt
      | inr (path, rest, z) ↦
          let next : turn readers file_open s
              ≡ opened readers file_open path rest s (file_open path) =
            ap₂ (turn_at readers file_open s) x z in
          let total : cost s ≡ 0 + cost_of_pending (path ∷ rest) =
            ap₂ (λ a b. a + b) (ap cost_of_current x) (ap cost_of_pending z) in
          let whole : cost s ≡ cost_of_pending (path ∷ rest) = omega (arith, total) in
          rw next (
            subst (λ n. Falls n (opened readers file_open path rest s (file_open path))) (sym whole)
              (opened-Falls path rest s (file_open path) x))
    ]
    | inr (fr, x) ↦
        let total : cost s ≡ 1 + bytes_left fr.reader.chunks + cost_of_pending s.pending =
          ap (λ a. a + cost_of_pending s.pending) (ap cost_of_current x) in
        let at_reader = ap (λ c. turn_at readers file_open s c s.pending) x in
        elim (Bool-cases (fails_now fr.reader.reads_left)) [
          | inl z ↦
              let end : turn readers file_open s ≡ again (finish_current_file s) =
                at_reader ∙ rw z refl in
              rw end (omega (arith, total))
          | inr z ↦
              let r = read_line_bounded max_line_bytes fr.reader.chunks in
              let next : turn readers file_open s ≡ outcome_turn readers file_open fr s r =
                at_reader ∙ rw z refl in
              rw next (
                subst (λ n. Falls n (outcome_turn readers file_open fr s r)) (sym total)
                  (outcome_turn-Falls fr s r
                    (read_line_bounded-lt max_line_bytes fr.reader.chunks)))
        ]
  ]

  after-Returns :
      (x : Sample W) (o : Option (List (Sample W) × ReplaySource)) → Returns o → Returns (after x o)
  after-Returns x o ((xs, s), e) = ((x ∷ xs, s), rw e refl)

  drained-Returns :
      (fuel n : ℕ) (s : ReplaySource) (t : Turn W)
      → Falls n t
      → n < suc fuel
      → ((a : ReplaySource) → cost a < fuel → Returns (drain readers file_open fuel a))
      → Returns (elim t [
        | exhausted ↦ some ([], s)
        | returned x a ↦ after x (drain readers file_open fuel a)
        | again a ↦ drain readers file_open fuel a
      ])
  drained-Returns fuel n s exhausted h l ih = (_, refl)
  drained-Returns fuel n s (returned x a) h l ih = after-Returns x _ (ih a (omega (arith, h, l)))
  drained-Returns fuel n s (again a) h l ih = ih a (omega (arith, h, l))

  -- Draining ends: one turn more than the bytes and files that are left is fuel enough.
  pub drain-Returns :
      (fuel : ℕ) (s : ReplaySource) → cost s < fuel → Returns (drain readers file_open fuel s)
  unfolding drain
  drain-Returns zero s h = elim h [ ]
  drain-Returns (suc fuel) s h =
      drained-Returns fuel (cost s) s (turn readers file_open s) (turn-Falls s) h
        (drain-Returns fuel)
