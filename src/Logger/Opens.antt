-- ===== src/Logger/Opens.antt =====
-- rust/sensorwatch-cli/src/logger.rs: the daily file that `ensure_file` opens.
use sensorwatch.Prelude.{
  ◌≡◌, ◌∙◌, ap, sym, refl, Bool, true, false, ◌&&◌, some, Bool-cases, Option-cases, inl, inr, arith,
}
use sensorwatch.Prelude.Order.{list_ord, nat_ord}
use sensorwatch.Prelude.Text.{Text}
use sensorwatch.Logger.{
  Calendar, LogWriter, Files, Io, contents, create, log_path, cleanup_old_files, is_today, is_some,
  ensure_file,
}
use sensorwatch.Logger.Names.{IsCalendar}
use sensorwatch.Logger.Retention.{Retains, cleanup_old_files-Retains}
use sensorwatch.Logger.Contents.{or_empty, contents-create_same, create-keeps}

module _ {D Z : Type 0} (calendar : Calendar D Z) where
  -- A writer that has a file open has today's, and if that is the file of `d`, it exists.
  abbrev pub IsReady : D → LogWriter D → Files → Type 0
  IsReady d w files =
      (name : Text)
      → w.file ≡ some name
      → (e : D) × (w.current_date ≡ some e)
        × (name ≡ log_path calendar w e)
        × (e ≡ d → (bytes : Text) × (contents files name ≡ some bytes))

  -- what the call that opens the file does to a file of the day `d`
  abbrev pub Opened : D → LogWriter D → Files → D → Bool × LogWriter D × Files → Type 0
  Opened d w files today (is_open, w', files') =
      (is_open ≡ true)
      × (w'.prefix ≡ w.prefix)
      × (w'.retention_days ≡ w.retention_days)
      × (w'.line_ending ≡ w.line_ending)
      × (w'.file ≡ some (log_path calendar w today))
      × (w'.current_date ≡ some today)
      × (or_empty (contents files' (log_path calendar w d))
          ≡ or_empty (contents files (log_path calendar w d)))
      × (today ≡ d → (bytes : Text) × (contents files' (log_path calendar w d) ≡ some bytes))

  module _ (laws : IsCalendar calendar) (d : D) where
    -- Today's file is open already.
    ensure_file_open :
        (w : LogWriter D) (files : Files) (now : Z) (io : Io)
        → IsReady d w files
        → is_today calendar w.current_date (calendar.date now) && is_some w.file ≡ true
        → Opened d w files (calendar.date now) (ensure_file calendar w now io files)
    unfolding ensure_file
    ensure_file_open w files now io ready h = elim (Option-cases w.file) [
      | inl q ↦
          let g : is_today calendar w.current_date (calendar.date now) && false ≡ true =
            rw q at h in
          let no : ⊥ = ground arith in elim no [ ]
      | inr (name, q) ↦
          let (e, cd, n, exists) = ready name q in
          let g : calendar.same_date e (calendar.date now) && true ≡ true = rw (cd, q) at h in
          let p : e ≡ calendar.date now =
            (laws.same_date_iff e (calendar.date now)).0 (ground arith) in
          rw h (
            refl,
            refl,
            refl,
            refl,
            rw q (ap some (n ∙ ap (log_path calendar w) p)),
            cd ∙ ap some p,
            refl,
            λ t.
                let (bytes, c) = exists (p ∙ t) in
                (bytes, sym (ap (contents files) (n ∙ ap (log_path calendar w) (p ∙ t))) ∙ c),
          )
    ]

    -- Today's file is created where it is missing.
    created :
        (w : LogWriter D) (files : Files) (today : D)
        → today ≡ d
        → (bytes : Text) × (contents
              (create files (log_path calendar w today))
              (log_path calendar w d)
            ≡ some bytes)
    created w files today t = (
      or_empty (contents files (log_path calendar w today)),
      ap (λ x. contents (create files (log_path calendar w today)) (log_path calendar w x)) (sym t)
          ∙ contents-create_same files (log_path calendar w today),
    )

    ensure_file_closed :
        (w : LogWriter D) (files : Files) (now : Z) (io : Io)
        → io.opens ≡ true
        → Retains calendar w (calendar.date now) d
        → is_today calendar w.current_date (calendar.date now) && is_some w.file ≡ false
        → Opened d w files (calendar.date now) (ensure_file calendar w now io files)
    unfolding ensure_file log_path
    ensure_file_closed w files now io opens retains h =
        let today = calendar.date now in
        let opened : LogWriter D = record w {
          file = some (log_path calendar w today);
          current_date = some today;
        } in
        let fresh = create files (log_path calendar w today) in
        elim (Option-cases w.current_date) [
          | inl q ↦
              rw (ensure_file, h, opens, q)
                (
                  refl,
                  refl,
                  refl,
                  refl,
                  refl,
                  refl,
                  create-keeps files (log_path calendar w today) (log_path calendar w d),
                  created w files today,
                )
          | inr (e, q) ↦
              let c : contents (cleanup_old_files calendar opened today io fresh)
                    (log_path calendar w d)
                  ≡ contents fresh (log_path calendar w d) =
                cleanup_old_files-Retains calendar laws opened today d io fresh retains in
              rw (ensure_file, h, opens, q)
                (
                  refl,
                  refl,
                  refl,
                  refl,
                  refl,
                  refl,
                  ap or_empty c
                      ∙ create-keeps files (log_path calendar w today) (log_path calendar w d),
                  λ t. let (bytes, k) = created w files today t in (bytes, c ∙ k),
                )
        ]

    pub ensure_file-Opened :
        (w : LogWriter D) (files : Files) (now : Z) (io : Io)
        → IsReady d w files
        → io.opens ≡ true
        → Retains calendar w (calendar.date now) d
        → Opened d w files (calendar.date now) (ensure_file calendar w now io files)
    ensure_file-Opened w files now io ready opens retains =
        elim (Bool-cases (is_today calendar w.current_date (calendar.date now) && is_some w.file)) [
          | inl h ↦ ensure_file_open w files now io ready h
          | inr h ↦ ensure_file_closed w files now io opens retains h
        ]
