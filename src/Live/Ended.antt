-- ===== src/Live/Ended.antt =====
-- How the loop of waitForLive ends.
use mathlib.Core.Option
use sitey.Prelude.{
  ℕ, suc, ◌+◌, ◌≤◌, ◌≡◌, ◌≢◌, refl, Bool, true, false, Option, none, some, Bool-cases, inl, inr,
  arith, Option-cases, leb, ◌||◌, ◌∙◌, ap, subst, sym, Result, ok, err,
}
use sitey.Live.{CheckState, pass, pending, fail, LiveReport}
use sitey.Live.Report.{
  Waited, wait_loop, is_hard_failure, after_report, count_failure, Rejection, after_poll,
  count_poll,
}

abbrev pub IsFailed : Result Rejection LiveReport → Type 0
IsFailed (err e) = ⊥
IsFailed (ok report) = report.state ≡ fail

-- a report that is in the state, if that is to have failed
abbrev pub IsFailedOr : Result Rejection LiveReport → CheckState → Type 0
IsFailedOr outcome fail = IsFailed outcome
IsFailedOr outcome _ = Unit {0}

failed_or :
    (report : LiveReport) (state : CheckState) → report.state ≡ state → IsFailedOr (ok report) state
failed_or report pass e = tt
failed_or report pending e = tt
failed_or report fail e = e

module _ (reports : ℕ → Result Rejection LiveReport) (overdue : ℕ → Bool) (fail_after : ℕ) where
  -- The `k` reports before poll `i` have all failed.
  abbrev pub FailedRun : ℕ → ℕ → Type 0
  FailedRun i ℕ.zero = Unit {0}
  FailedRun ℕ.zero (suc k) = ⊥
  FailedRun (suc i) (suc k) = IsFailed (reports i) × FailedRun i k

  -- Why the loop answered at the report of poll `i`.
  pub data Reason (i : ℕ) (report : LiveReport) (timed_out : Bool) : Type 0 where
    live : report.state ≡ pass → timed_out ≡ false → Reason i report timed_out
    hard :
        report.state ≡ fail
        → is_hard_failure report ≡ true
        → timed_out ≡ false
        → Reason i report timed_out
    failing :
        (k : ℕ)
        → fail_after ≤ k
        → FailedRun (suc i) k
        → timed_out ≡ false
        → Reason i report timed_out
    late : report.state ≢ pass → overdue i ≡ true → timed_out ≡ true → Reason i report timed_out

  -- How the loop ended with poll `i`: it answered the report, or runChecks or `load` rejected.
  pub data Ended (i : ℕ) : Result Rejection Waited → Type 0 where
    answered :
        (w : Waited) → reports i ≡ ok w.report → Reason i w.report w.timed_out → Ended i (ok w)
    rejected : (e : Rejection) → reports i ≡ err e → Ended i (err e)

  after_report-Reason :
      (i failures : ℕ) (report : LiveReport) (state : CheckState) (w : Waited)
      → report.state ≡ state
      → IsFailedOr (reports i) state
      → FailedRun i failures
      → after_report fail_after failures (overdue i) report state ≡ some w
      → (w.report ≡ report) × Reason i report w.timed_out
  after_report-Reason i failures report pass w e failed run h =
      (ground arith, live e (ground arith))
  after_report-Reason i failures report pending w e failed run h = elim (Bool-cases (overdue i)) [
    | inl o ↦ (ground arith, late (λ k. cc) o (ground arith))
    | inr o ↦ absurd (ground arith)
  ]
  after_report-Reason i failures report fail w e failed run h =
      elim (Bool-cases (is_hard_failure report)) [
        | inl k ↦ (ground arith, hard e k (ground arith))
        | inr k ↦ elim (Bool-cases (leb fail_after (suc failures))) [
          | inl m ↦
              (ground arith, failing (suc failures) (ground arith) (failed, run) (ground arith))
          | inr m ↦ elim (Bool-cases (overdue i)) [
            | inl o ↦ (ground arith, late (λ j. cc) o (ground arith))
            | inr o ↦ absurd (ground arith)
          ]
        ]
      ]

  after_ok-Ended :
      (i failures : ℕ) (report : LiveReport) (answer : Option Waited) (x : Result Rejection Waited)
      → reports i ≡ ok report
      → FailedRun i failures
      → after_report fail_after failures (overdue i) report report.state ≡ answer
      → Option.map ok answer ≡ some x
      → Ended i x
  after_ok-Ended i failures report none x at run e h = absurd (ground arith)
  after_ok-Ended i failures report (some w) x at run e h =
      let failed =
        subst (λ r. IsFailedOr r report.state) (sym at) (failed_or report report.state refl) in
      let (same, reason) = after_report-Reason i failures report report.state w refl failed run e in
      let of_w : ok w ≡ x = ground arith in
      subst (Ended i) of_w
        (answered w (at ∙ ap ok (sym same)) (subst (λ r. Reason i r w.timed_out) (sym same) reason))

  after_poll-Ended :
      (i failures : ℕ) (outcome : Result Rejection LiveReport) (x : Result Rejection Waited)
      → reports i ≡ outcome
      → FailedRun i failures
      → after_poll fail_after failures (overdue i) outcome ≡ some x
      → Ended i x
  after_poll-Ended i failures (err e) x at run h =
      let same : err e ≡ x = ground arith in subst (Ended i) same (rejected e at)
  after_poll-Ended i failures (ok report) x at run h =
      after_ok-Ended i failures report _ x at run refl h

  count_poll-FailedRun :
      (i failures : ℕ) (outcome : Result Rejection LiveReport)
      → reports i ≡ outcome
      → after_poll fail_after failures (overdue i) outcome ≡ none
      → FailedRun i failures
      → FailedRun (suc i) (count_poll failures outcome)
  count_poll-FailedRun i failures (err e) at h run = absurd (ground arith)
  count_poll-FailedRun i failures (ok report) at h run =
      counted report.state
        (subst (λ r. IsFailedOr r report.state) (sym at) (failed_or report report.state refl))
    where
      counted :
          (state : CheckState)
          → IsFailedOr (reports i) state
          → FailedRun (suc i) (count_failure failures state)
      counted pass f = tt
      counted pending f = tt
      counted fail f = (f, run)

  pub wait_loop-Ended :
      (fuel i failures : ℕ) (x : Result Rejection Waited)
      → FailedRun i failures
      → wait_loop reports overdue fail_after fuel i failures ≡ some x
      → (n : ℕ) × Ended n x
  unfolding wait_loop
  wait_loop-Ended ℕ.zero i failures x run h = absurd (ground arith)
  wait_loop-Ended (suc fuel) i failures x run h =
      elim (Option-cases (after_poll fail_after failures (overdue i) (reports i))) [
        | inl e ↦
            wait_loop-Ended fuel (suc i) (count_poll failures (reports i)) x
              (count_poll-FailedRun i failures (reports i) refl e run) (rw e at h)
        | inr (y, e) ↦
            let same : y ≡ x = ground arith in
            (i, after_poll-Ended i failures (reports i) x refl run (e ∙ ap some same))
      ]

  after_report-overdue :
      (failures : ℕ) (report : LiveReport) (state : CheckState)
      → (w : Waited) × (after_report fail_after failures true report state ≡ some w)
  after_report-overdue failures report pass = (record { report = report; timed_out = false }, refl)
  after_report-overdue failures report pending =
      (record { report = report; timed_out = true }, refl)
  after_report-overdue failures report fail =
      elim (Bool-cases (is_hard_failure report || leb fail_after (suc failures))) [
        | inl e ↦ (record { report = report; timed_out = false }, rw e refl)
        | inr e ↦ (record { report = report; timed_out = true }, rw e refl)
      ]

  after_poll-overdue :
      (failures : ℕ) (outcome : Result Rejection LiveReport)
      → (x : Result Rejection Waited) × (after_poll fail_after failures true outcome ≡ some x)
  after_poll-overdue failures (err e) = (err e, refl)
  after_poll-overdue failures (ok report) =
      let (w, e) = after_report-overdue failures report report.state in (ok w, rw e refl)

  pub wait_loop-ends :
      (more i failures : ℕ)
      → overdue (i + more) ≡ true
      → (x : Result Rejection Waited) × (wait_loop reports overdue fail_after (suc more) i failures
          ≡ some x)
  unfolding wait_loop
  wait_loop-ends ℕ.zero i failures o =
      let o' : overdue i ≡ true = subst (λ n. overdue n ≡ true) (omega arith) o in
      let (x, e) = after_poll-overdue failures (reports i) in (x, rw (o', e) refl)
  wait_loop-ends (suc more) i failures o =
      elim (Option-cases (after_poll fail_after failures (overdue i) (reports i))) [
        | inr (x, e) ↦ (x, rw e refl)
        | inl e ↦
            let o' : overdue (suc i + more) ≡ true =
              subst (λ n. overdue n ≡ true) (omega arith) o in
            let (x, k) = wait_loop-ends more (suc i) (count_poll failures (reports i)) o' in
            (x, rw e k)
      ]
