-- ===== src/Replay/Chunks.antt =====
-- What `read_line_bounded` reads does not depend on how the bytes come in.
use sensorwatch.Prelude.{
  ℕ, ◌+◌, ◌≡◌, ◌≢◌, refl, sym, ap, ◌∙◌, Bool, true, false, Option, none, some, List, [], ◌∷◌, ◌++◌,
  leb, ◌==◌, if◌then◌else◌, length, length-append, All, arith, Bool-cases, inl, inr,
}
use mathlib.Core.List.{append-nil, append_assoc}
use sensorwatch.Prelude.Text.{Text}
use sensorwatch.Replay.Lines.{
  LineOutcome, split_newline, extend, at_end, at_newline, unread, read_from, read_line_bounded,
}

abbrev pub join : List Text → Text
join [] = []
join (c ∷ cs) = c ++ join cs

-- the buffer and the flag after bytes without a newline
abbrev pub seen : ℕ → Text → Text × Bool
seen limit bytes = if leb (length bytes) limit then (bytes, false) else ([], true)

-- what reading a line of the whole bytes gives: the outcome, the buffer and the bytes after the line
unfoldable pub read_line : ℕ → Text → LineOutcome × Text × Text
unfolding split_newline
read_line limit bytes =
    let (before, after) = split_newline bytes in
    let st = seen limit before in
    elim after [ some left ↦ (at_newline st, st.0, left) | none ↦ (at_end st, st.0, []) ]

extend-seen : (limit : ℕ) (p b : Text) → extend limit (seen limit p) b ≡ seen limit (p ++ b)
unfolding extend
extend-seen limit p b = elim (Bool-cases (leb (length p) limit)) [
  | inl e ↦ rw (e, length-append p b) refl
  | inr e ↦
      let long : leb (length p + length b) limit ≡ false = ground arith in
      rw (e, length-append p b, long) refl
]

-- what the loop gives for bytes `p` before, and a rest that splits as given
abbrev finished : ℕ → Text → Text × Option Text → LineOutcome × Text × Text
finished limit p (before, some left) =
    let st = seen limit (p ++ before) in (at_newline st, st.0, left)
finished limit p (before, none) = let st = seen limit (p ++ before) in (at_end st, st.0, [])

abbrev glue : Text × Option Text → Text → Text × Option Text
glue (before, some left) ys = (before, some (left ++ ys))
glue (before, none) ys = let (b, a) = split_newline ys in (before ++ b, a)

glue-cons :
    (x : ℕ) (s : Text × Option Text) (ys : Text)
    → glue (x ∷ s.0, s.1) ys ≡ (x ∷ (glue s ys).0, (glue s ys).1)
glue-cons x (before, none) ys = refl
glue-cons x (before, some left) ys = refl

split_newline-append : (xs ys : Text) → split_newline (xs ++ ys) ≡ glue (split_newline xs) ys
unfolding split_newline
split_newline-append [] ys = refl
split_newline-append (x ∷ xs) ys = elim (Bool-cases (x == b'\n')) [
  | inl e ↦ rw e refl
  | inr e ↦ rw (e, split_newline-append xs ys) (sym (glue-cons x (split_newline xs) ys))
]

join-unread : (bs : Text) (chunks : List Text) → join (unread bs chunks) ≡ bs ++ join chunks
join-unread [] chunks = refl
join-unread (b ∷ bs) chunks = refl

abbrev pub joined : LineOutcome × Text × List Text → LineOutcome × Text × Text
joined (o, buf, chunks) = (o, buf, join chunks)

finished-shift :
    (limit : ℕ) (p before : Text) (q : Text × Option Text)
    → finished limit (p ++ before) q ≡ finished limit p (before ++ q.0, q.1)
finished-shift limit p before (b, none) =
    ap (λ x. (at_end (seen limit x), (seen limit x).0, [])) (append_assoc p before b)
finished-shift limit p before (b, some left) =
    ap (λ x. (at_newline (seen limit x), (seen limit x).0, left)) (append_assoc p before b)

-- one chunk of the loop, after it was split
abbrev pub after_split :
    ℕ → Text × Bool → Text × Option Text → List Text → LineOutcome × Text × List Text
after_split limit st (before, after) chunks =
    let st' = extend limit st before in
    elim after [
      | some left ↦ (at_newline st', st'.0, unread left chunks)
      | none ↦ read_from limit st' chunks
    ]

after_split-finished :
    (limit : ℕ) (p : Text) (q : Text × Option Text) (chunks : List Text)
    → ((r : Text)
        → joined (read_from limit (seen limit r) chunks)
          ≡ finished limit r (split_newline (join chunks)))
    → joined (after_split limit (seen limit p) q chunks) ≡ finished limit p (glue q (join chunks))
after_split-finished limit p (before, some left) chunks ih =
    rw (extend-seen limit p before, join-unread left chunks) refl
after_split-finished limit p (before, none) chunks ih =
    rw (extend-seen limit p before)
      (ih (p ++ before) ∙ finished-shift limit p before (split_newline (join chunks)))

read_from-finished :
    (limit : ℕ) (p : Text) (chunks : List Text)
    → All (λ c. c ≢ []) chunks
    → joined (read_from limit (seen limit p) chunks)
      ≡ finished limit p (split_newline (join chunks))
unfolding read_from split_newline
read_from-finished limit p [] h =
    ap (λ x. (at_end (seen limit x), (seen limit x).0, [])) (sym (append-nil p))
read_from-finished limit p ([] ∷ chunks) (h, hs) = absurd (h refl)
read_from-finished limit p ((b ∷ bs) ∷ chunks) (h, hs) =
    after_split-finished limit p (split_newline (b ∷ bs)) chunks
      (λ r. read_from-finished limit r chunks hs)
    ∙ ap (finished limit p) (sym (split_newline-append (b ∷ bs) (join chunks)))

finished_nil :
    (limit : ℕ) (q : Text × Option Text)
    → finished limit [] q ≡ (
        let st = seen limit q.0 in
        elim q.1 [ some left ↦ (at_newline st, st.0, left) | none ↦ (at_end st, st.0, []) ])
finished_nil limit (before, none) = refl
finished_nil limit (before, some left) = refl

-- For a reader without empty chunks, the outcome, the line and the bytes left after it are those of
-- the joined bytes, wherever the chunks end: the line is the bytes before the first newline if they are
-- at most the limit, and otherwise it is dropped.
pub read_line_bounded-read_line :
    (limit : ℕ) (chunks : List Text)
    → All (λ c. c ≢ []) chunks
    → joined (read_line_bounded limit chunks) ≡ read_line limit (join chunks)
unfolding read_line_bounded read_line
read_line_bounded-read_line limit chunks h =
    let start : leb 0 limit ≡ true = ground arith in
    ap (λ x. joined (read_from limit (if x then ([], false) else ([], true)) chunks)) (sym start)
    ∙ read_from-finished limit [] chunks h
    ∙ finished_nil limit (split_newline (join chunks))
