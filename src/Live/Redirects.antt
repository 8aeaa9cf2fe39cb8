-- ===== src/Live/Redirects.antt =====
-- Where probeHttp goes, and when it ends.
use sitey.Prelude.{
  ℕ, suc, ◌+◌, ◌≤◌, ◌<◌, ◌≡◌, refl, true, false, Option, none, some, Result, ok, err, Bool-cases,
  inl, inr, ◌⊎◌, arith, ◌≢◌, ◌&&◌, leb, ap, sym, ◌∙◌, subst, ltb,
}
use sitey.Text.{Text, codes, text_eq}
use sitey.Text.Equal.{text_eq→eq}
use sitey.Live.{CheckState, pass}
use sitey.Live.Probe.{
  Url, Response, probe_loop, hop_outcome, judge, max_redirects, redirect, follow, is_allowed_scheme,
  redirect_to, Hop, Probed, answer, arrive, is_other_service, probe_http, invalid_location,
}

-- what the probe may request: the host it was given, and never http after https
abbrev pub MayRequest : Url → Url → Type 0
MayRequest start u =
    (u.hostname ≡ start.hostname) × (start.protocol ≡ codes "https:" → u.protocol ≡ codes "https:")

module _ (resolve : Text → Url → Option Url) (deploy_mode : Text) (service_id : Option ℕ) where
  redirect-follow :
      (hop status : ℕ) (current : Url) (next : Option Url) (to : Url)
      → redirect hop status current next ≡ follow to
      → (to.hostname ≡ current.hostname)
        × (is_allowed_scheme current to ≡ true)
        × (hop < max_redirects)
  unfolding redirect
  redirect-follow hop status current none to h = absurd (ground arith)
  redirect-follow hop status current (some next) to h =
      elim (Bool-cases (text_eq next.hostname current.hostname && is_allowed_scheme current next)) [
        | inr e ↦ absurd (ground arith)
        | inl e ↦ elim (Bool-cases (leb max_redirects hop)) [
          | inl k ↦ absurd (ground arith)
          | inr k ↦
              let same : next ≡ to = ground arith in
              (
                ap (λ u. u.hostname) (sym same)
                    ∙ text_eq→eq next.hostname current.hostname (ground arith),
                subst (λ u. is_allowed_scheme current u ≡ true) same (ground arith),
                ground arith,
              )
        ]
      ]

  judge-not_follow : (res : Response) (to : Url) → judge deploy_mode service_id res ≢ follow to
  unfolding judge
  judge-not_follow res to h = ground arith

  -- A round that goes on to another URL has used one of the redirects, and stays on the host.
  arrive-follow :
      (hop : ℕ) (current to : Url) (res : Response) (location : Option Text)
      → arrive resolve deploy_mode service_id hop current res location ≡ follow to
      → (to.hostname ≡ current.hostname)
        × (is_allowed_scheme current to ≡ true)
        × (hop < max_redirects)
  unfolding arrive
  arrive-follow hop current to res none h = absurd (judge-not_follow res to h)
  arrive-follow hop current to res (some location) h =
      redirect-follow hop res.status current (resolve location current) to h

  hop_outcome-follow :
      (hop : ℕ) (current to : Url) (fetched : Result Text Response)
      → hop_outcome resolve deploy_mode service_id hop current fetched ≡ follow to
      → (to.hostname ≡ current.hostname)
        × (is_allowed_scheme current to ≡ true)
        × (hop < max_redirects)
  unfolding hop_outcome
  hop_outcome-follow hop current to (err detail) h = absurd (ground arith)
  hop_outcome-follow hop current to (ok res) h =
      arrive-follow hop current to res (redirect_to res) h

  Hop-cases :
      (x : Hop)
      → ((state : CheckState) × (detail : Text) × (x ≡ answer state detail))
        ⊎ (((to : Url) × (x ≡ follow to)) ⊎ (x ≡ invalid_location))
  Hop-cases (answer state detail) = inl (state, detail, refl)
  Hop-cases (follow to) = inr (inl (to, refl))
  Hop-cases invalid_location = inr (inr refl)

  probe_loop-ends :
      (fetch : ℕ → Url → Result Text Response) (fuel hop : ℕ) (current : Url)
      → hop ≤ max_redirects
      → max_redirects < fuel + hop
      → (r : Probed) × (probe_loop resolve deploy_mode service_id fetch fuel hop current ≡ some r)
  unfolding probe_loop
  probe_loop-ends fetch ℕ.zero hop current l m = absurd (omega arith)
  probe_loop-ends fetch (suc fuel) hop current l m =
      elim (Hop-cases
        (hop_outcome resolve deploy_mode service_id hop current (fetch hop current))) [
          | inl (state, detail, e) ↦ (ok (state, detail), rw e refl)
          | inr (inr e) ↦ (err tt, rw e refl)
          | inr (inl (to, e)) ↦
              let (_, _, left) = hop_outcome-follow hop current to (fetch hop current) e in
              let (r, k) =
                probe_loop-ends fetch fuel (suc hop) to (omega (arith, left)) (omega arith) in
              (r, rw e k)
        ]

  probe_http-ends :
      (fetch : ℕ → Url → Result Text Response) (url : Url)
      → (r : Probed) × (probe_http resolve deploy_mode service_id fetch url ≡ some r)
  unfolding probe_http
  probe_http-ends fetch url =
      probe_loop-ends fetch (suc max_redirects) 0 url (omega arith) (omega arith)

  https-stays :
      (current to : Url)
      → is_allowed_scheme current to ≡ true
      → current.protocol ≡ codes "https:"
      → to.protocol ≡ codes "https:"
  unfolding is_allowed_scheme
  https-stays current to h e = elim (Bool-cases (text_eq to.protocol current.protocol)) [
    | inl k ↦ text_eq→eq to.protocol current.protocol k ∙ e
    | inr k ↦ text_eq→eq to.protocol (codes "https:") (ground arith)
  ]

  probe_loop-agrees :
      (fetch fetch' : ℕ → Url → Result Text Response) (start : Url)
      → ((hop : ℕ) (u : Url) → MayRequest start u → fetch hop u ≡ fetch' hop u)
      → (fuel hop : ℕ) (current : Url) → MayRequest start current
      → probe_loop resolve deploy_mode service_id fetch fuel hop current
        ≡ probe_loop resolve deploy_mode service_id fetch' fuel hop current
  unfolding probe_loop
  probe_loop-agrees fetch fetch' start agree ℕ.zero hop current m = refl
  probe_loop-agrees fetch fetch' start agree (suc fuel) hop current m =
      elim (Hop-cases
        (hop_outcome resolve deploy_mode service_id hop current (fetch' hop current))) [
          | inl (state, detail, e) ↦ rw (agree hop current m, e) refl
          | inr (inr e) ↦ rw (agree hop current m, e) refl
          | inr (inl (to, e)) ↦
              let (host, scheme, _) = hop_outcome-follow hop current to (fetch' hop current) e in
              rw (agree hop current m, e)
                (probe_loop-agrees fetch fetch' start agree fuel (suc hop) to
                  (host ∙ m.0, λ k. https-stays current to scheme (m.1 k)))
        ]

  -- probeHttp ends after at most six requests, whatever they answer: the first and one for each of the five
  -- redirects that it follows. Its answer depends on nothing but the requests to the host of its URL, and if
  -- that is an https one, on nothing but https requests: a redirect never takes it elsewhere.
  pub probe_http-agrees :
      (fetch fetch' : ℕ → Url → Result Text Response) (url : Url)
      → ((hop : ℕ) (u : Url) → MayRequest url u → fetch hop u ≡ fetch' hop u)
      → (r : Probed) × (probe_http resolve deploy_mode service_id fetch url ≡ some r)
        × (probe_http resolve deploy_mode service_id fetch' url ≡ some r)
  unfolding probe_http
  probe_http-agrees fetch fetch' url agree =
      let (r, ends) = probe_http-ends fetch url in
      let same =
        probe_loop-agrees fetch fetch' url agree (suc max_redirects) 0 url (refl, λ e. e) in
      (r, ends, sym same ∙ ends)

  -- an answer that counts as live: 2xx, not the placeholder, and from the service
  pub record IsLiveAnswer (res : Response) : Type 0 where
    pub success : (200 ≤ res.status) × (res.status < 300)
    pub deployed : res.has_pending_header ≡ false
    pub from_service : is_other_service service_id res.service_header ≡ false

  judge-pass :
      (res : Response) (detail : Text)
      → judge deploy_mode service_id res ≡ answer pass detail
      → IsLiveAnswer res
  unfolding judge
  judge-pass res detail h = elim (Bool-cases res.has_pending_header) [
    | inl e ↦ absurd (ground arith)
    | inr e ↦ elim (Bool-cases (leb 200 res.status && ltb res.status 300)) [
      | inr k ↦ absurd (ground arith)
      | inl k ↦ elim (Bool-cases (is_other_service service_id res.service_header)) [
        | inl o ↦ absurd (ground arith)
        | inr o ↦ record { success = (ground arith, ground arith); deployed = e; from_service = o }
      ]
    ]
  ]

  redirect-not_pass :
      (hop status : ℕ) (current : Url) (next : Option Url) (detail : Text)
      → redirect hop status current next ≢ answer pass detail
  unfolding redirect
  redirect-not_pass hop status current none detail h = ground arith
  redirect-not_pass hop status current (some next) detail h = ground arith

  hop_outcome-pass :
      (hop : ℕ) (current : Url) (fetched : Result Text Response) (detail : Text)
      → hop_outcome resolve deploy_mode service_id hop current fetched ≡ answer pass detail
      → (res : Response) × (fetched ≡ ok res) × IsLiveAnswer res
  unfolding hop_outcome
  hop_outcome-pass hop current (err e) detail h = absurd (ground arith)
  hop_outcome-pass hop current (ok res) detail h = (res, refl, by_location (redirect_to res) h)
    where
      by_location :
          (location : Option Text)
          → arrive resolve deploy_mode service_id hop current res location ≡ answer pass detail
          → IsLiveAnswer res
      by_location none k = judge-pass res detail (unfold arrive in k)
      by_location (some to) k = absurd (
          redirect-not_pass hop res.status current (resolve to current) detail (unfold arrive in k))

  -- One of the requests that the probe may make has been answered by the live service.
  abbrev pub Answered : (ℕ → Url → Result Text Response) → Url → Type 0
  Answered fetch start =
      (hop : ℕ) × (u : Url) × (res : Response) × MayRequest start u
      × (fetch hop u ≡ ok res)
      × IsLiveAnswer res

  probe_loop-pass :
      (fetch : ℕ → Url → Result Text Response) (start : Url) (fuel hop : ℕ) (current : Url)
      (detail : Text)
      → MayRequest start current
      → probe_loop resolve deploy_mode service_id fetch fuel hop current ≡ some (ok (pass, detail))
      → Answered fetch start
  unfolding probe_loop
  probe_loop-pass fetch start ℕ.zero hop current detail m h = absurd (ground arith)
  probe_loop-pass fetch start (suc fuel) hop current detail m h =
      elim (Hop-cases
        (hop_outcome resolve deploy_mode service_id hop current (fetch hop current))) [
          | inl (state, text, e) ↦
              let h' : ◌≡◌ {A = Option Probed} (some (ok (state, text)))
                  (some (ok (pass, detail))) =
                rw e at h in
              let at_pass : state ≡ pass = ground arith in
              let (res, got, live) =
                hop_outcome-pass hop current (fetch hop current) text (rw at_pass at e) in
              (hop, current, res, m, got, live)
          | inr (inr e) ↦ absurd (ground arith)
          | inr (inl (to, e)) ↦
              let (host, scheme, _) = hop_outcome-follow hop current to (fetch hop current) e in
              probe_loop-pass fetch start fuel (suc hop) to detail
                (host ∙ m.0, λ k. https-stays current to scheme (m.1 k)) (rw e at h)
        ]

  -- A probe passes only if the host itself, over https if that was asked for, has answered with 2xx, without
  -- the placeholder's header and, where a service is expected, with that service's own header.
  pub probe_http-pass :
      (fetch : ℕ → Url → Result Text Response) (url : Url) (detail : Text)
      → probe_http resolve deploy_mode service_id fetch url ≡ some (ok (pass, detail))
      → Answered fetch url
  unfolding probe_http
  probe_http-pass fetch url detail h =
      probe_loop-pass fetch url (suc max_redirects) 0 url detail (refl, λ e. e) h
