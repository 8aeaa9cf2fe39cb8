-- ===== src/Live/Wait.antt =====
-- What waitForLive answers.
use sitey.Prelude.{
  ℕ, suc, ◌≡◌, refl, Bool, true, false, Option, none, some, Bool-cases, inl, inr, arith, ◌∙◌, ap,
  subst, is_empty, All, sym, Result, ok,
}
use sitey.Text.{Text}
use sitey.Live.{LiveReport, LiveInput}
use sitey.Live.Ended.{Ended, answered, rejected, wait_loop-Ended, wait_loop-ends}
use sitey.Live.Report.{
  Waited, wait_for_live, report_of_poll, Rejection, Poll, report_of_load, checks_reject, run_checks,
}
use sitey.Live.Verdict.{IsSuccess, IsServed, run_checks_iff}

-- Why waitForLive ended.
abbrev pub WaitEnded :
    (Text → Text) → (ℕ → Poll) → (ℕ → Bool) → ℕ → Result Rejection Waited → Type 0
WaitEnded hostname_of polls overdue fail_after x =
    (n : ℕ) × Ended (report_of_poll hostname_of polls) overdue fail_after n x

report_of_load-ok :
    (hostname_of : Text → Text) (poll : Poll) (load : Option LiveInput) (report : LiveReport)
    → report_of_load hostname_of poll load ≡ ok report
    → (input : LiveInput) × (load ≡ some input)
      × (report ≡ run_checks hostname_of poll.probes input)
report_of_load-ok hostname_of poll none report h = absurd (ground arith)
report_of_load-ok hostname_of poll (some input) report h =
    elim (Bool-cases (checks_reject poll input)) [
      | inl e ↦ absurd (ground arith)
      | inr e ↦ (input, refl, ground arith)
    ]

module _ (hostname_of : Text → Text) (polls : ℕ → Poll) where
  wait_for_live-Ended :
      (overdue : ℕ → Bool) (fail_after fuel : ℕ) (x : Result Rejection Waited)
      → wait_for_live hostname_of polls overdue fail_after fuel ≡ some x
      → WaitEnded hostname_of polls overdue fail_after x
  unfolding wait_for_live
  wait_for_live-Ended overdue fail_after fuel x h =
      wait_loop-Ended (report_of_poll hostname_of polls) overdue fail_after fuel 0 0 x tt h

  -- If the time is up when poll `n` has been made, waitForLive ends within its first `n + 1` polls. Either it
  -- rejects, and then because in the last poll `load` or a probe rejected; or it answers the report of the last
  -- poll, for one of four reasons: the report is live; it failed and the deployment or the service is to blame;
  -- it and those before it failed, as many in a row as are asked for; or, and only then with `timedOut`, the
  -- time was up at a report that is not live.
  pub wait_for_live-ends :
      (overdue : ℕ → Bool) (fail_after n : ℕ)
      → overdue n ≡ true
      → (x : Result Rejection Waited) × (wait_for_live hostname_of polls overdue fail_after (suc n)
          ≡ some x)
        × WaitEnded hostname_of polls overdue fail_after x
  unfolding wait_for_live
  wait_for_live-ends overdue fail_after n o =
      let (x, e) =
        wait_loop-ends (report_of_poll hostname_of polls) overdue fail_after n 0 0
          (subst (λ k. overdue k ≡ true) (omega arith) o) in
      (x, e, wait_for_live-Ended overdue fail_after (suc n) x e)

  live_poll :
      (n : ℕ) (report : LiveReport)
      → report_of_poll hostname_of polls n ≡ ok report
      → report.live ≡ true
      → (input : LiveInput) × ((polls n).load ≡ some input)
        × (input.active ≡ true)
        × IsSuccess input.deployment
        × (is_empty input.routes ≡ false)
        × All (IsServed hostname_of (polls n).probes input) input.routes
  unfolding report_of_poll
  live_poll n report h is_live =
      let (input, loaded, same) = report_of_load-ok hostname_of (polls n) (polls n).load report h in
      let (active, success, routed, served) =
        (run_checks_iff hostname_of (polls n).probes input).0
          (ap (λ r. r.live) (sym same) ∙ is_live) in
      (input, loaded, active, success, routed, served)

  -- If waitForLive answers that the service is live, then in one of the polls the service was active, its
  -- latest deployment had succeeded, it had a route, and every route was served.
  wait_for_live-live :
      (overdue : ℕ → Bool) (fail_after fuel : ℕ) (w : Waited)
      → wait_for_live hostname_of polls overdue fail_after fuel ≡ some (ok w)
      → w.report.live ≡ true
      → (n : ℕ) × (input : LiveInput) × ((polls n).load ≡ some input)
        × (input.active ≡ true)
        × IsSuccess input.deployment
        × (is_empty input.routes ≡ false)
        × All (IsServed hostname_of (polls n).probes input) input.routes
  wait_for_live-live overdue fail_after fuel w h is_live =
      let (n, ended) = wait_for_live-Ended overdue fail_after fuel (ok w) h in
      let at = by_end n (ok w) ended w refl in
      let (input, loaded, active, success, routed, served) = live_poll n w.report at is_live in
      (n, input, loaded, active, success, routed, served)
    where
      by_end :
          (n : ℕ) (x : Result Rejection Waited)
          → Ended (report_of_poll hostname_of polls) overdue fail_after n x
          → (v : Waited) → x ≡ ok v
          → report_of_poll hostname_of polls n ≡ ok v.report
      by_end n x (answered u at reason) v e =
          let same : u ≡ v = ground arith in at ∙ ap (λ (t : Waited). ok t.report) same
      by_end n x (rejected e' at) v e = absurd (ground arith)
