-- ===== src/Replay/Lockstep.antt =====
-- replay.rs: a source with a window beside the same source without one.
use mathlib.Core.Path.{subst}
use sensorwatch.Prelude.{
  ℕ, zero, suc, ◌+◌, ◌≡◌, ◌∙◌, ap, refl, Bool, true, false, not, ◌&&◌, Option, none, some, List, [],
  ◌∷◌, if◌then◌else◌, Bool-cases, Option-cases, inl, inr, arith, keep, all,
}
use sensorwatch.Prelude.Text.{Text}
use sensorwatch.Float.{Float}
use sensorwatch.Source.{Timestamp, Sample}
use sensorwatch.Replay.Lines.{LineOutcome, line, oversized, eof, read_line_bounded, max_line_bytes}
use sensorwatch.Replay.Parse.{Readers, leading_timestamp, parse_line}
use sensorwatch.Replay.Ticks.{
  BufReader, FileReader, ReplaySource, Turn, returned, again, exhausted, is_ascii_whitespace,
  out_of_window, finish_current_file, record_skip, parsed_turn, line_turn, outcome_turn, after,
  opened, one_less, fails_now, turn_at, turn, drain,
}
use sensorwatch.Replay.Window.{IsReaders, parse_line-leading}

-- the same files and the same place in them, whatever was counted
abbrev SameReader : Option FileReader → Option FileReader → Type 0
SameReader none none = Unit
SameReader (some a) (some b) = a.reader ≡ b.reader
SameReader _ _ = ⊥

-- the samples that the report keeps
abbrev pub in_window : {W : Type 0} → Timestamp → Timestamp → Sample W → Bool
in_window since until x = not (out_of_window since until x.timestamp)

module _ {W : Type 0} ⦃f : Float W⦄ (readers : Readers W) (laws : IsReaders readers)
    (file_open : Text → Option BufReader) (since until : Timestamp) where
  -- the left source has no window, the right one has it
  abbrev Agree : ReplaySource → ReplaySource → Type 0
  Agree s t =
      (s.window ≡ none)
      × (t.window ≡ some (since, until))
      × (s.pending ≡ t.pending)
      × (s.opened_files ≡ t.opened_files)
      × SameReader s.current t.current

  -- Both turns end alike, but for a sample outside the window, which the right one may pass over.
  abbrev Lock : Turn W → Turn W → Type 0
  Lock exhausted exhausted = Unit
  Lock (again s) (again t) = Agree s t
  Lock (returned x s) (returned y t) = (x ≡ y) × Agree s t
  Lock (returned x s) (again t) = (in_window since until x ≡ false) × Agree s t
  Lock _ _ = ⊥

  parsed_turn-Lock :
      (a b : FileReader) (s t : ReplaySource) (o : Option (Sample W))
      → a.reader ≡ b.reader
      → Agree s t
      → Lock (parsed_turn readers file_open a s o) (parsed_turn readers file_open b t o)
  unfolding record_skip
  parsed_turn-Lock a b s t none e (u, v, p, q, c) = (u, v, p, q, e)
  parsed_turn-Lock a b s t (some x) e h = (refl, h)

  -- A line that the window drops is skipped, or gives a sample outside the window.
  dropped-Lock :
      (a : FileReader) (s t : ReplaySource) (b : FileReader) (bytes : Text) (ts : Timestamp)
      → Agree s t
      → a.reader ≡ b.reader
      → t.current ≡ some b
      → leading_timestamp readers bytes ≡ some ts
      → out_of_window since until ts && readers.is_json bytes ≡ true
      → Lock (parsed_turn readers file_open a s (parse_line readers bytes)) (again t)
  unfolding record_skip
  dropped-Lock a s t b bytes ts (u, v, p, q, c) e cur lead out =
      elim (parse_line-leading readers laws bytes ts lead (ground arith)) [
        | inl n ↦ rw (n, cur) (u, v, p, q, e)
        | inr (x, g, same_) ↦
            let o : out_of_window since until x.timestamp ≡ true =
              ap (out_of_window since until) same_ ∙ ground arith in
            rw (g, o) (refl, (u, v, p, q, c))
      ]

  line_turn-Lock :
      (a b : FileReader) (s t : ReplaySource) (bytes : Text)
      → a.reader ≡ b.reader
      → t.current ≡ some b
      → Agree s t
      → Lock (line_turn readers file_open a s bytes) (line_turn readers file_open b t bytes)
  unfolding line_turn
  line_turn-Lock a b s t bytes e cur h =
      let (u, v, _, _, _) = h in
      elim (Bool-cases (all is_ascii_whitespace bytes)) [
        | inl w ↦ rw (line_turn, w) h
        | inr w ↦
            let left : line_turn readers file_open a s bytes
                ≡ parsed_turn readers file_open a s (parse_line readers bytes) =
              rw (line_turn, w, u) refl in
            elim (Option-cases (leading_timestamp readers bytes)) [
              | inl n ↦
                  let right : line_turn readers file_open b t bytes
                      ≡ parsed_turn readers file_open b t (parse_line readers bytes) =
                    rw (line_turn, w, v, n) refl in
                  rw (left, right) (parsed_turn-Lock a b s t (parse_line readers bytes) e h)
              | inr (ts, n) ↦
                  elim (Bool-cases (out_of_window since until ts && readers.is_json bytes)) [
                    | inl o ↦
                        let right : line_turn readers file_open b t bytes ≡ again t =
                          rw (line_turn, w, v, n, o) refl in
                        rw (left, right) (dropped-Lock a s t b bytes ts h e cur n o)
                    | inr o ↦
                        let right : line_turn readers file_open b t bytes
                            ≡ parsed_turn readers file_open b t (parse_line readers bytes) =
                          rw (line_turn, w, v, n, o) refl in
                        rw (left, right) (parsed_turn-Lock a b s t (parse_line readers bytes) e h)
                  ]
            ]
      ]

  outcome_turn-Lock :
      (a b : FileReader) (s t : ReplaySource) (r : LineOutcome × Text × List Text)
      → a.reader ≡ b.reader
      → Agree s t
      → Lock (outcome_turn readers file_open a s r) (outcome_turn readers file_open b t r)
  unfolding finish_current_file record_skip
  outcome_turn-Lock a b s t (eof, bytes, rest) e (u, v, p, q, c) = (u, v, p, q, tt)
  outcome_turn-Lock a b s t (oversized, bytes, rest) e (u, v, p, q, c) = (
    u,
    v,
    p,
    q,
    ap (λ (x : BufReader). record { chunks = rest; reads_left = one_less x.reads_left }) e,
  )
  outcome_turn-Lock a b s t (line, bytes, rest) e (u, v, p, q, c) =
      let past =
        ap (λ (x : BufReader). record { chunks = rest; reads_left = one_less x.reads_left }) e in
      line_turn-Lock _ _ _ _ bytes past refl (u, v, p, q, past)

  opened-Lock :
      (path : Text) (rest : List Text) (s t : ReplaySource) (o : Option BufReader)
      → s.current ≡ none
      → t.current ≡ none
      → Agree s t
      → Lock (opened readers file_open path rest s o) (opened readers file_open path rest t o)
  opened-Lock path rest s t none cs ct (u, v, p, q, c) = (u, v, refl, q, c)
  opened-Lock path rest s t (some r) cs ct (u, v, p, q, c) = (u, v, refl, ap (λ n. n + 1) q, refl)

  turn_at-Lock :
      (s t : ReplaySource) (c d : Option FileReader) (ps : List Text)
      → Agree s t
      → SameReader c d
      → s.current ≡ c
      → t.current ≡ d
      → Lock (turn_at readers file_open s c ps) (turn_at readers file_open t d ps)
  unfolding turn_at finish_current_file
  turn_at-Lock s t none none [] h m x y = tt
  turn_at-Lock s t none none (path ∷ rest) h m x y =
      opened-Lock path rest s t (file_open path) x y h
  turn_at-Lock s t none (some b) ps h m x y = elim m [ ]
  turn_at-Lock s t (some a) none ps h m x y = elim m [ ]
  turn_at-Lock s t (some a) (some b) ps (u, v, p, q, c) m x y =
      let read = read_line_bounded max_line_bytes b.reader.chunks in
      let left : turn_at readers file_open s (some a) ps ≡ (
          if fails_now b.reader.reads_left
          then again (finish_current_file s)
          else outcome_turn readers file_open a s read) =
        ap
          (λ (r : BufReader).
            if fails_now r.reads_left
            then again (finish_current_file s)
            else outcome_turn readers file_open a s (read_line_bounded max_line_bytes r.chunks))
          m in
      rw left (elim (Bool-cases (fails_now b.reader.reads_left)) [
        | inl z ↦ rw z (u, v, p, q, tt)
        | inr z ↦ rw z (outcome_turn-Lock a b s t read m (u, v, p, q, c))
      ])

  turn-Lock :
      (s t : ReplaySource) → Agree s t → Lock (turn readers file_open s) (turn readers file_open t)
  unfolding turn
  turn-Lock s t h =
      let (u, v, p, q, c) = h in
      subst
        (λ ps.
          Lock (turn_at readers file_open s s.current s.pending)
            (turn_at readers file_open t t.current ps))
        p (turn_at-Lock s t s.current t.current s.pending h c refl refl)

  -- the outcomes of two drains with the same fuel
  abbrev pub Related :
      Option (List (Sample W) × ReplaySource) → Option (List (Sample W) × ReplaySource) → Type 0
  Related none none = Unit
  Related (some (xs, s)) (some (ys, t)) =
      (keep (in_window since until) xs ≡ keep (in_window since until) ys)
      × (s.opened_files ≡ t.opened_files)
  Related _ _ = ⊥

  after-Related :
      (x : Sample W) (o p : Option (List (Sample W) × ReplaySource))
      → Related o p
      → Related (after x o) (after x p)
  after-Related x none none h = tt
  after-Related x none (some _) h = elim h [ ]
  after-Related x (some (xs, s)) none h = elim h [ ]
  after-Related x (some (xs, s)) (some (ys, t)) (h, k) =
      elim (Bool-cases (in_window since until x)) [
        | inl e ↦ rw e (ap (λ zs. x ∷ zs) h, k)
        | inr e ↦ rw e (h, k)
      ]

  after_outside-Related :
      (x : Sample W) (o p : Option (List (Sample W) × ReplaySource))
      → in_window since until x ≡ false
      → Related o p
      → Related (after x o) p
  after_outside-Related x none none e h = tt
  after_outside-Related x none (some _) e h = elim h [ ]
  after_outside-Related x (some (xs, s)) none e h = elim h [ ]
  after_outside-Related x (some (xs, s)) (some (ys, t)) e (h, k) = rw e (h, k)

  -- what is drained after a turn
  abbrev drained : ℕ → ReplaySource → Turn W → Option (List (Sample W) × ReplaySource)
  drained fuel s exhausted = some ([], s)
  drained fuel s (returned x s') = after x (drain readers file_open fuel s')
  drained fuel s (again s') = drain readers file_open fuel s'

  -- one turn of both, and then the rest of both
  drain_turn :
      (fuel : ℕ) (s t : ReplaySource) (x y : Turn W)
      → s.opened_files ≡ t.opened_files
      → ((a b : ReplaySource)
          → Agree a b
          → Related (drain readers file_open fuel a) (drain readers file_open fuel b))
      → Lock x y
      → Related (drained fuel s x) (drained fuel t y)
  drain_turn fuel s t exhausted exhausted o ih l = (refl, o)
  drain_turn fuel s t exhausted (again _) o ih l = elim l [ ]
  drain_turn fuel s t exhausted (returned _ _) o ih l = elim l [ ]
  drain_turn fuel s t (again a) exhausted o ih l = elim l [ ]
  drain_turn fuel s t (again a) (again b) o ih l = ih a b l
  drain_turn fuel s t (again a) (returned _ _) o ih l = elim l [ ]
  drain_turn fuel s t (returned x a) exhausted o ih l = elim l [ ]
  drain_turn fuel s t (returned x a) (again b) o ih (l, h) =
      after_outside-Related x _ _ l (ih a b h)
  drain_turn fuel s t (returned x a) (returned y b) o ih (l, h) =
      subst
        (λ z.
          Related (after x (drain readers file_open fuel a))
            (after z (drain readers file_open fuel b)))
        l (after-Related x _ _ (ih a b h))

  drained_by :
      (fuel : ℕ) (s : ReplaySource) (x : Turn W)
      → elim x [
        | exhausted ↦ some ([], s)
        | returned sample s' ↦ after sample (drain readers file_open fuel s')
        | again s' ↦ drain readers file_open fuel s'
      ]
        ≡ drained fuel s x
  drained_by fuel s exhausted = refl
  drained_by fuel s (returned x a) = refl
  drained_by fuel s (again a) = refl

  pub drain-Related :
      (fuel : ℕ) (s t : ReplaySource)
      → Agree s t
      → Related (drain readers file_open fuel s) (drain readers file_open fuel t)
  unfolding drain
  drain-Related zero s t h = tt
  drain-Related (suc fuel) s t h =
      let (u, v, p, q, c) = h in
      rw
        (drained_by fuel s (turn readers file_open s), drained_by fuel t (turn readers file_open t))
        (drain_turn fuel s t (turn readers file_open s) (turn readers file_open t) q
          (drain-Related fuel) (turn-Lock s t h))
