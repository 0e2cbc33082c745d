-- ===== src/Engine/Debounce.antt =====
-- What a gate does over a sequence of samples.
use sensorwatch.Prelude.{
  ℕ, suc, ◌+◌, ◌≤◌, ◌<◌, ◌≡◌, refl, ◌↔◌, true, false, Option, none, some, List, [], ◌∷◌, ◌++◌,
  arith,
}
use sensorwatch.Prelude.Words.{u32, u32_mod}
use sensorwatch.Engine.Gate.{
  Gate, default_gate, Verdict, violates, recovers, holds, GateEvent, fired, cleared, apply,
  unevaluable,
}

-- what a sample means for a gate: a verdict, or none if the value is NaN
abbrev pub Signal : Type 0
Signal = Option Verdict

unfoldable pub feed : ℕ → Gate → Signal → Gate × Option GateEvent
unfolding apply unevaluable
feed n g none = (unevaluable g, none)
feed n g (some v) = apply g v n

-- Between samples: an unfired gate is short of its debounce count, and a fired one counts from it on.
pub record IsGate (n : ℕ) (g : Gate) : Type 0 where
  pub short : g.fired ≡ false → g.streak < n
  pub reached : g.fired ≡ true → g.streak ≡ n
  pub counted : g.total < u32_mod

pub IsGate-default : (n : ℕ) → 1 ≤ n → IsGate n default_gate
IsGate-default n h = ground arith

pub feed-IsGate :
    (n : ℕ) (g : Gate) (s : Signal) → 1 ≤ n → n < u32_mod → IsGate n g → IsGate n (feed n g s).0
unfolding feed
feed-IsGate n g none h k v = ground arith
feed-IsGate n g (some violates) h k v = ground arith
feed-IsGate n g (some recovers) h k v = ground arith
feed-IsGate n g (some holds) h k v = ground arith

-- The hysteresis band is a verdict on fired gates alone.
abbrev pub Fits : Gate → Signal → Type 0
Fits g (some holds) = g.fired ≡ true
Fits g _ = Unit {0}

-- The gate after a history of samples, the newest first.
unfoldable pub gate_after : ℕ → List Signal → Gate
unfolding feed
gate_after n [] = default_gate
gate_after n (s ∷ h) = (feed n (gate_after n h) s).0

abbrev pub Fitting : ℕ → List Signal → Type 0
Fitting n [] = Unit {0}
Fitting n (s ∷ h) = Fits (gate_after n h) s × Fitting n h

-- how many of the newest samples violate without a break
abbrev pub recent : List Signal → ℕ
recent (some violates ∷ h) = suc (recent h)
recent _ = 0

pub gate_after-IsGate : (n : ℕ) (h : List Signal) → 1 ≤ n → n < u32_mod → IsGate n (gate_after n h)
unfolding gate_after
gate_after-IsGate n [] l u = IsGate-default n l
gate_after-IsGate n (s ∷ h) l u = feed-IsGate n (gate_after n h) s l u (gate_after-IsGate n h l u)

streak_step :
    (n : ℕ) (g : Gate) (s : Signal) (h : List Signal)
    → n < u32_mod
    → IsGate n g
    → Fits g s
    → (g.fired ≡ false → g.streak ≡ recent h)
    → (feed n g s).0.fired ≡ false
    → (feed n g s).0.streak ≡ recent (s ∷ h)
unfolding feed
streak_step n g none h u v ok e q = ground arith
streak_step n g (some violates) h u v ok e q = ground arith
streak_step n g (some recovers) h u v ok e q = ground arith
streak_step n g (some holds) h u v ok e q = ground arith

pub streak_exact :
    (n : ℕ) (h : List Signal)
    → 1 ≤ n
    → n < u32_mod
    → Fitting n h
    → (gate_after n h).fired ≡ false
    → (gate_after n h).streak ≡ recent h
unfolding gate_after
streak_exact n [] l u ok q = refl
streak_exact n (s ∷ h) l u (okay, oks) q =
    streak_step n (gate_after n h) s h u (gate_after-IsGate n h l u) okay (streak_exact n h l u oks)
      q

-- A gate fires on a sample exactly when it has not fired yet, the sample violates, and it is the
-- `n`th violating sample in a row, whatever came before.
pub fires_iff :
    (n : ℕ) (h : List Signal) (s : Signal)
    → 1 ≤ n
    → n < u32_mod
    → Fitting n h
    → ((feed n (gate_after n h) s).1 ≡ some fired)
      ↔ (((gate_after n h).fired ≡ false) × (s ≡ some violates) × (suc (recent h) ≡ n))
unfolding feed
fires_iff n h none l u ok = (λ e. ground arith, λ e. ground arith)
fires_iff n h (some violates) l u ok = (
  λ e. ground (arith, streak_exact n h l u ok, gate_after-IsGate n h l u),
  λ e. ground (arith, streak_exact n h l u ok, gate_after-IsGate n h l u),
)
fires_iff n h (some recovers) l u ok = (λ e. ground arith, λ e. ground arith)
fires_iff n h (some holds) l u ok = (λ e. ground arith, λ e. ground arith)

-- The samples of a list, oldest first; the gate after them and the events that they caused.
unfoldable pub feed_all : ℕ → Gate → List Signal → Gate × List GateEvent
unfolding feed
feed_all n g [] = (g, [])
feed_all n g (s ∷ ss) =
    let (g', event) = feed n g s in
    let (g'', events) = feed_all n g' ss in
    (g'', elim event [ none ↦ events | some e ↦ e ∷ events ])

abbrev pub violations : List Signal → ℕ
violations [] = 0
violations (some violates ∷ ss) = suc (violations ss)
violations (_ ∷ ss) = violations ss

-- no sample of the list recovers
abbrev pub NoRecovery : List Signal → Type 0
NoRecovery [] = Unit {0}
NoRecovery (some recovers ∷ ss) = ⊥
NoRecovery (_ ∷ ss) = NoRecovery ss

counting :
    (n : ℕ) (g : Gate) (ss : List Signal)
    → g.fired ≡ true
    → g.total < u32_mod
    → NoRecovery ss
    → (feed_all n g (ss ++ some recovers ∷ []))
      ≡ (default_gate, cleared (u32 (g.total + violations ss)) ∷ [])
unfolding feed_all
counting n g [] e t h = ground arith
counting n g (none ∷ ss) e t h = ground (arith, counting n g ss e t h)
counting n g (some violates ∷ ss) e t h =
    ground (arith, counting n (record g { total = u32 (g.total + 1) }) ss e (omega arith) h)
counting n g (some recovers ∷ ss) e t h = absurd h
counting n g (some holds ∷ ss) e t h = counting n g ss e t h

-- An alert is closed by the first recovering sample after it, once, and counts every violating sample
-- of its episode, those that armed it included (modulo 2^32). NaN and the hysteresis band neither
-- close it nor count.
pub episode :
    (n : ℕ) (h ss : List Signal)
    → 1 ≤ n
    → n < u32_mod
    → Fitting n h
    → (gate_after n h).fired ≡ false
    → suc (recent h) ≡ n
    → NoRecovery ss
    → feed_all n (gate_after n h) (some violates ∷ ss ++ some recovers ∷ [])
      ≡ (default_gate, fired ∷ cleared (u32 (n + violations ss)) ∷ [])
unfolding feed_all
episode n h ss l u ok q r c = ground (
  arith,
  streak_exact n h l u ok q,
  counting n (record { fired = true; streak = n; total = n }) ss refl u c,
)
