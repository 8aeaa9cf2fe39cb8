-- ===== src/Live/Verdict.antt =====
-- When a service counts as live.
use sitey.Prelude.{
  ◌≡◌, ◌↔◌, refl, Bool, true, false, Option, none, some, List, [], ◌∷◌, Bool-cases, inl, inr, arith,
  All, All-append, is_empty, any, any_none, All-map, append-All, ap,
}
use sitey.Text.{Text, codes, text_eq, starts_with}
use sitey.Text.Equal.{text_eq→eq, text_eq_self}
use sitey.Live.{
  Check, CheckState, pass, pending, fail, Probes, LiveInput, Deployment, is_fail, is_pass,
  is_pending,
}
use sitey.Live.Report.{
  run_checks, worst_state, route_checks, route_url, all_route_checks, deployment_check, report_of,
}

abbrev pub IsPass : Check → Type 0
IsPass c = c.state ≡ pass

state-pass : (s : CheckState) → is_fail s ≡ false → is_pending s ≡ false → s ≡ pass
state-pass pass f p = refl
state-pass pending f p = absurd (ground arith)
state-pass fail f p = absurd (ground arith)

none_open :
    (checks : List Check)
    → any (λ (c : Check). is_fail c.state) checks ≡ false
    → any (λ (c : Check). is_pending c.state) checks ≡ false
    → All IsPass checks
none_open [] f p = tt
none_open (c ∷ checks) f p = (
  state-pass c.state (ground arith) (ground arith),
  none_open checks (ground arith) (ground arith),
)

-- The report passes exactly if each of its checks does.
worst_state-pass : (checks : List Check) → (worst_state checks ≡ pass) ↔ All IsPass checks
worst_state-pass checks = (
  (λ h. none_open checks (ground arith) (ground arith)),
  (λ h.
      let no_fail =
        any_none (λ (c : Check). is_fail c.state) checks
          (All-map IsPass _ checks (λ c e. rw e refl) h) in
      let no_pending =
        any_none (λ (c : Check). is_pending c.state) checks
          (All-map IsPass _ checks (λ c e. rw e refl) h) in
      rw (no_fail, no_pending) refl),
)

is_pass-eq : (s : CheckState) → is_pass s ≡ true → s ≡ pass
is_pass-eq pass h = refl
is_pass-eq pending h = absurd (ground arith)
is_pass-eq fail h = absurd (ground arith)

abbrev pub IsSuccess : Option Deployment → Type 0
IsSuccess deployment = (d : Deployment) × (deployment ≡ some d) × (d.status ≡ codes "success")

deployment_check-pass :
    (deployment : Option Deployment)
    → (is_pass (deployment_check deployment).state ≡ true) ↔ IsSuccess deployment
deployment_check-pass none = ((λ h. absurd (ground arith)), (λ h. absurd (ground arith)))
deployment_check-pass (some d) = elim (Bool-cases (text_eq d.status (codes "success"))) [
  | inl e ↦ rw e ((λ h. (d, refl, text_eq→eq d.status (codes "success") e)), (λ h. refl))
  | inr e ↦ (
    (λ h. absurd (not_success d e h)),
    (λ k.
        let (q, at_d, status) = k in
        let same : d ≡ q = ground arith in
        let yes_eq : text_eq d.status (codes "success") ≡ true =
          rw (same, status) (text_eq_self (codes "success")) in
        cc),
  )
]
  where
    not_success :
        (d : Deployment)
        → text_eq d.status (codes "success") ≡ false
        → is_pass (deployment_check (some d)).state ≡ true
        → ⊥
    not_success d e h = elim (Bool-cases (text_eq d.status (codes "failed"))) [
      | inl k ↦ let h' : false ≡ true = rw (e, k) at h in cc
      | inr k ↦ let h' : false ≡ true = rw (e, k) at h in cc
    ]

report_of-live :
    (active : Bool) (deployed : Check) (no_routes : Bool) (checks : List Check)
    → ((report_of active deployed no_routes checks).live ≡ true) ↔ (
        (active ≡ true) × (is_pass deployed.state ≡ true) × (no_routes ≡ false) × All IsPass checks)
unfolding report_of
report_of-live false deployed no_routes checks =
    ((λ h. absurd (ground arith)), (λ h. absurd (ground arith)))
report_of-live true deployed no_routes checks = elim (Bool-cases (is_pass deployed.state)) [
  | inr d ↦ rw d ((λ h. absurd (ground arith)), (λ h. absurd (ground arith)))
  | inl d ↦ elim (Bool-cases no_routes) [
    | inl r ↦ rw (d, r) ((λ h. absurd (ground arith)), (λ h. absurd (ground arith)))
    | inr r ↦ (
      (λ h.
          let live : is_pass (worst_state (deployed ∷ checks)) ≡ true = rw (d, r) at h in
          let passed = (worst_state-pass (deployed ∷ checks)).0 (is_pass-eq _ live) in
          (refl, d, r, passed.1)),
      (λ h.
          let passed =
            (worst_state-pass (deployed ∷ checks)).1 (is_pass-eq deployed.state d, h.3) in
          let live : is_pass (worst_state (deployed ∷ checks)) ≡ true = ap is_pass passed in
          rw (d, r) live),
    )
  ]
]

module _ (hostname_of : Text → Text) (probes : Probes) where
  -- What must pass of a route: the answer of its URL, and for https the certificate of its host.
  abbrev pub IsServed : LiveInput → Text → Type 0
  IsServed input route =
      IsPass (probes.http_probe (route_url route) input.deploy_mode input.service_id)
      × (starts_with (route_url route) (codes "https://") ≡ true
          → IsPass (probes.tls_probe (hostname_of (route_url route))))

  route_checks-IsServed :
      (input : LiveInput) (route : Text)
      → All IsPass (route_checks hostname_of probes input route) ↔ IsServed input route
  unfolding route_checks
  route_checks-IsServed input route =
      elim (Bool-cases (starts_with (route_url route) (codes "https://"))) [
        | inl e ↦ rw e ((λ h. (h.1.0, λ _. h.0)), (λ h. (h.1 refl, (h.0, tt))))
        | inr e ↦ rw e ((λ h. (h.0, λ k. absurd (ground arith))), (λ h. (h.0, tt)))
      ]

  all_route_checks-IsServed :
      (input : LiveInput) (routes : List Text)
      → All IsPass (all_route_checks hostname_of probes input routes) ↔ All (IsServed input) routes
  unfolding all_route_checks
  all_route_checks-IsServed input [] = ((λ h. tt), (λ h. tt))
  all_route_checks-IsServed input (r ∷ routes) =
      let first = route_checks hostname_of probes input r in
      let rest = all_route_checks hostname_of probes input routes in
      (
        (λ h.
            let (a, b) = append-All IsPass first rest h in
            ((route_checks-IsServed input r).0 a, (all_route_checks-IsServed input routes).0 b)),
        (λ h.
            All-append IsPass first rest ((route_checks-IsServed input r).1 h.0)
              ((all_route_checks-IsServed input routes).1 h.1)),
      )

  -- The report of runChecks is live exactly if the service is active, its latest deployment has succeeded, it
  -- has a public route, and every route is served: its request passes, and over https its certificate too.
  pub run_checks_iff :
      (input : LiveInput)
      → ((run_checks hostname_of probes input).live ≡ true) ↔ (
          (input.active ≡ true)
          × IsSuccess input.deployment
          × (is_empty input.routes ≡ false)
          × All (IsServed input) input.routes)
  unfolding run_checks
  run_checks_iff input =
      let (to, from) =
        report_of-live input.active (deployment_check input.deployment) (is_empty input.routes)
          (all_route_checks hostname_of probes input input.routes) in
      let (deployed, success) = deployment_check-pass input.deployment in
      let (served, passed) = all_route_checks-IsServed input input.routes in
      (
        (λ h. let (a, d, r, c) = to h in (a, deployed d, r, served c)),
        (λ h. from (h.0, success h.1, h.2, passed h.3)),
      )
