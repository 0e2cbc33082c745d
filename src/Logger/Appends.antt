-- ===== src/Logger/Appends.antt =====
-- rust/sensorwatch-cli/src/logger.rs: what a sequence of writes leaves in the daily files.
use mathlib.Core.Path.{subst}
use mathlib.Core.Option.{some-injective}
use mathlib.Core.List.{append_assoc, append-nil}
use sensorwatch.Prelude.{
  ◌≡◌, ◌∙◌, ap, ap₂, sym, refl, true, false, none, some, List, [], ◌∷◌, ◌++◌, if◌then◌else◌,
  Bool-cases, inl, inr, All, All-map_weaken,
}
use sensorwatch.Prelude.Order.{list_ord, nat_ord, same, same_iff}
use sensorwatch.Prelude.Text.{Text}
use sensorwatch.Logger.{
  Calendar, LogWriter, Files, Io, contents, append_to, log_path, ensure_file, write_record,
  write_raw,
}
use sensorwatch.Logger.Names.{IsCalendar, daily_file_path-injective}
use sensorwatch.Logger.Retention.{Retains}
use sensorwatch.Logger.Contents.{or_empty, contents-append_to_same, contents-append_to_other}
use sensorwatch.Logger.Opens.{IsReady, ensure_file-Opened}

-- a write that the loop or `watch` asks for
pub record Write (Z : Type 0) : Type 0 where
  pub text : Text
  pub now : Z
  pub io : Io

module _ {D Z : Type 0} (calendar : Calendar D Z) where
  unfoldable pub write_all : LogWriter D → Files → List (Write Z) → LogWriter D × Files
  unfolding write_raw
  write_all w files [] = (w, files)
  write_all w files (x ∷ xs) =
      let (w', files') = write_raw calendar w x.text x.now x.io files in write_all w' files' xs

  -- the lines of one day, each whole
  unfoldable pub lines_on : Text → D → List (Write Z) → Text
  lines_on line_ending d [] = []
  lines_on line_ending d (x ∷ xs) =
      let rest = lines_on line_ending d xs in
      if calendar.same_date (calendar.date x.now) d then (x.text ++ line_ending) ++ rest else rest

  -- A write that opens its file and gets out whole, on a day whose cleanup retains `d`.
  abbrev pub Succeeds : LogWriter D → D → Write Z → Type 0
  Succeeds w d x =
      (x.io.opens ≡ true) × (x.io.written ≡ none) × Retains calendar w (calendar.date x.now) d

  -- what a write does to a file of the day `d`
  abbrev pub Wrote : D → LogWriter D → Files → Write Z → LogWriter D × Files → Type 0
  Wrote d w files x (w', files') =
      (w'.prefix ≡ w.prefix)
      × (w'.retention_days ≡ w.retention_days)
      × (w'.line_ending ≡ w.line_ending)
      × IsReady calendar d w' files'
      × (or_empty (contents files' (log_path calendar w d))
          ≡ or_empty (contents files (log_path calendar w d)) ++ lines_on w.line_ending d (x ∷ []))

  module _ (laws : IsCalendar calendar) (d : D) where
    other_name :
        (w : LogWriter D) (today : D)
        → calendar.same_date today d ≡ false
        → same (log_path calendar w today) (log_path calendar w d) ≡ false
    unfolding log_path
    other_name w today e =
        elim (Bool-cases (same (log_path calendar w today) (log_path calendar w d))) [
          | inl y ↦
              let p = (same_iff (log_path calendar w today) (log_path calendar w d)).0 y in
              let t : today ≡ d = daily_file_path-injective calendar laws w.prefix today d p in
              let z = (laws.same_date_iff today d).1 t in cc
          | inr n ↦ n
        ]

    log_path_prefix :
        (w w' : LogWriter D) (e : D)
        → w'.prefix ≡ w.prefix
        → log_path calendar w' e ≡ log_path calendar w e
    unfolding log_path
    log_path_prefix w w' e p = rw p refl

    -- A file that is appended to is there afterwards.
    append_to-some :
        (files : Files) (name line bytes : Text)
        → contents files name ≡ some bytes
        → contents (append_to files name line) name ≡ some (bytes ++ line)
    append_to-some files name line bytes k = contents-append_to_same files name line ∙ rw k refl

    -- Appending a line to today's file, as seen in the file of `d`.
    append_to-today :
        (w : LogWriter D) (files : Files) (today : D) (line : Text)
        → (today ≡ d → (bytes : Text) × (contents files (log_path calendar w d) ≡ some bytes))
        → or_empty
            (contents (append_to files (log_path calendar w today) line) (log_path calendar w d))
          ≡ or_empty (contents files (log_path calendar w d))
            ++ (if calendar.same_date today d then line ++ [] else [])
    append_to-today w files today line exists = elim (Bool-cases (calendar.same_date today d)) [
      | inl e ↦
          let t : today ≡ d = (laws.same_date_iff today d).0 e in
          let (bytes, k) = exists t in
          rw (e, append-nil line)
            (ap
                (λ y.
                  or_empty (
                    contents (append_to files (log_path calendar w y) line)
                      (log_path calendar w d)))
                t
              ∙ ap or_empty (contents-append_to_same files (log_path calendar w d) line)
              ∙ rw k refl)
      | inr e ↦
          rw (e, append-nil (or_empty (contents files (log_path calendar w d))))
            (ap or_empty (
              contents-append_to_other files (log_path calendar w today) line
                (log_path calendar w d) (other_name w today e)))
    ]

    write_raw-Wrote :
        (w : LogWriter D) (files : Files) (x : Write Z)
        → IsReady calendar d w files
        → Succeeds w d x
        → Wrote d w files x (write_raw calendar w x.text x.now x.io files)
    unfolding write_raw write_record lines_on
    write_raw-Wrote w files x ready (opens, whole, retains) =
        let (o, p, r, l, f, cd, same_, exists) =
          ensure_file-Opened calendar laws d w files x.now x.io ready opens retains in
        let today = calendar.date x.now in
        let (is_open, w', files') = ensure_file calendar w x.now x.io files in
        let line = x.text ++ w'.line_ending in
        let path = log_path calendar w today in
        let ready' : IsReady calendar d w' (append_to files' path line) = λ name q. (
          today,
          cd,
          some-injective _ _ (sym q ∙ f) ∙ sym (log_path_prefix w w' today p),
          λ t.
              let (bytes, k) = exists t in
              let there : contents files' path ≡ some bytes =
                ap (λ y. contents files' (log_path calendar w y)) t ∙ k in
              (
                bytes ++ line,
                ap (λ n. contents (append_to files' path line) n) (some-injective _ _ (sym q ∙ f))
                    ∙ append_to-some files' path line bytes there,
              ),
        ) in
        let result : write_raw calendar w x.text x.now x.io files
            ≡ (w', append_to files' path line) =
          rw (o, f, whole) refl in
        let content : or_empty (contents (append_to files' path line) (log_path calendar w d))
            ≡ or_empty (contents files (log_path calendar w d))
              ++ lines_on w.line_ending d (x ∷ []) =
          append_to-today w files' today line exists ∙ rw (same_, l) refl in
        subst (Wrote d w files x) (sym result) (p, r, l, ready', content)

    lines_on-cons :
        (line_ending : Text) (x : Write Z) (xs : List (Write Z))
        → lines_on line_ending d (x ∷ []) ++ lines_on line_ending d xs
          ≡ lines_on line_ending d (x ∷ xs)
    unfolding lines_on
    lines_on-cons line_ending x xs =
        elim (Bool-cases (calendar.same_date (calendar.date x.now) d)) [
          | inl e ↦ rw (e, append-nil (x.text ++ line_ending)) refl
          | inr e ↦ rw e refl
        ]

    same_Succeeds :
        (w w' : LogWriter D)
        → w'.retention_days ≡ w.retention_days
        → (x : Write Z) → Succeeds w d x
        → Succeeds w' d x
    same_Succeeds w w' r x (opens, whole, retains) = (
      opens,
      whole,
      λ cutoff s. retains cutoff (ap (calendar.sub_days (calendar.date x.now)) (sym r) ∙ s),
    )

    -- Writes that open their file and get out whole, none of whose cleanups is past the day `d`, add to the
    -- file of that day exactly the lines of that day, each whole and in order, after what it held, however
    -- the writes of other days stand between them.
    pub write_all-lines_on :
        (w : LogWriter D) (files : Files) (xs : List (Write Z))
        → IsReady calendar d w files
        → All (Succeeds w d) xs
        → or_empty (contents (write_all w files xs).1 (log_path calendar w d))
          ≡ or_empty (contents files (log_path calendar w d)) ++ lines_on w.line_ending d xs
    unfolding write_all lines_on
    write_all-lines_on w files [] ready h = sym (append-nil _)
    write_all-lines_on w files (x ∷ xs) ready (h, hs) =
        let (w', files') = write_raw calendar w x.text x.now x.io files in
        let (p, r, l, ready', step) = write_raw-Wrote w files x ready h in
        let ih =
          write_all-lines_on w' files' xs ready'
            (All-map_weaken (Succeeds w d) (Succeeds w' d) (same_Succeeds w w' r) xs hs) in
        let before = or_empty (contents files (log_path calendar w d)) in
        let now_ = lines_on w.line_ending d (x ∷ []) in
        let later = lines_on w.line_ending d xs in
        let q = log_path_prefix w w' d p in
        let last = (write_all w' files' xs).1 in
        ap (λ n. or_empty (contents last n)) (sym q)
        ∙ ih
        ∙ ap₂ (λ n e. or_empty (contents files' n) ++ lines_on e d xs) q l
        ∙ ap (λ y. y ++ later) step
        ∙ append_assoc before now_ later
        ∙ ap (λ y. before ++ y) (lines_on-cons w.line_ending x xs)
