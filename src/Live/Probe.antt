-- ===== src/Live/Probe.antt =====
-- probeHttp of siteyctl/src/verify.ts.
use sitey.Prelude.{
  ℕ, suc, ltb, leb, Bool, true, false, not, ◌&&◌, ◌||◌, ◌==◌, Option, none, some, [], ◌++◌,
  if◌then◌else◌, is_empty, Result, ok, err,
}
use sitey.Text.{Text, codes, text_eq}
use sitey.Live.{CheckState, pass, pending, fail}
use sitey.SiteBlocks.Bodies.{decimal}

-- A parsed URL, as far as it is looked at.
pub record Url : Type 0 where
  pub protocol : Text
  pub hostname : Text
  pub href : Text

-- An answer with its headers `location`, PENDING_HEADER (is it there?) and `x-sitey-service`.
pub record Response : Type 0 where
  pub status : ℕ
  pub location : Option Text
  pub has_pending_header : Bool
  pub service_header : Option Text

abbrev pub max_redirects : ℕ
max_redirects = 5

unfoldable pub is_transient : ℕ → Bool
is_transient status = status == 502 || status == 503 || status == 504

-- The outcome of one round of the loop: the check, another URL to go to, or what `new URL` throws.
pub data Hop : Type 0 where
  answer : CheckState → Text → Hop
  follow : Url → Hop
  invalid_location : Hop

-- `res.status >= 300 && res.status < 400 && location`; an empty header is no location
abbrev pub redirect_in : ℕ → Option Text → Option Text
redirect_in status none = none
redirect_in status (some location) =
    if leb 300 status && ltb status 400 && not (is_empty location) then some location else none

unfoldable pub redirect_to : Response → Option Text
redirect_to res = redirect_in res.status res.location

unfoldable pub is_allowed_scheme : Url → Url → Bool
is_allowed_scheme current next =
    text_eq next.protocol current.protocol
    || (text_eq current.protocol (codes "http:") && text_eq next.protocol (codes "https:"))

unfoldable pub redirect : ℕ → ℕ → Url → Option Url → Hop
redirect hop status current none = invalid_location
redirect hop status current (some next) =
    if not (text_eq next.hostname current.hostname && is_allowed_scheme current next)
    then answer fail (
        codes "HTTP "
        ++ (decimal status
            ++ (codes " redirects to " ++ (next.href ++ codes ", which isn't this host"))))
    else if leb max_redirects hop
    then answer fail (codes "more than 5 redirects")
    else follow next

-- `res.headers.get("x-sitey-service") !== String(serviceId)`
abbrev pub is_other_service : Option ℕ → Option Text → Bool
is_other_service none header = false
is_other_service (some id) none = true
is_other_service (some id) (some header) = not (text_eq header (decimal id))

abbrev pub other_service_detail : ℕ → Option ℕ → Text
other_service_detail status none = []
other_service_detail status (some id) =
    codes "HTTP "
    ++ (decimal status
        ++ (codes ", but the response was not served by service-"
            ++ (decimal id ++ codes ". Check the route, DNS, and Caddy configuration.")))

-- what follows the redirects
unfoldable pub judge : Text → Option ℕ → Response → Hop
judge deploy_mode service_id res =
    let http_status = codes "HTTP " ++ decimal res.status in
    if res.has_pending_header
    then answer pending
        (http_status ++ codes " is Sitey's placeholder page: nothing deployed is being served yet")
    else if leb 200 res.status && ltb res.status 300
    then (if is_other_service service_id res.service_header
        then answer fail (other_service_detail res.status service_id)
        else answer pass http_status)
    else if is_transient res.status
    then answer pending (http_status ++ codes ": the app isn't answering yet")
    else answer fail (
        if text_eq deploy_mode (codes "server")
        then http_status
          ++ codes ": the app answered, but not with 2xx, so it isn't counted as live"
        else http_status)

-- The answer of probeHttp's promise: a check's state and detail, or a rejection.
abbrev pub Probed : Type 0
Probed = Result Unit (CheckState × Text)

-- The end of a round; `none`: the fuel has run out.
abbrev pub end_round : (Url → Option Probed) → Hop → Option Probed
end_round continue (answer state detail) = some (ok (state, detail))
end_round continue (follow next) = continue next
end_round continue invalid_location = some (err tt)

module _ (resolve : Text → Url → Option Url) (deploy_mode : Text) (service_id : Option ℕ) where
  unfoldable pub arrive : ℕ → Url → Response → Option Text → Hop
  arrive hop current res none = judge deploy_mode service_id res
  arrive hop current res (some location) =
      redirect hop res.status current (resolve location current)

  -- one round of the loop, given what the request answers
  unfoldable pub hop_outcome : ℕ → Url → Result Text Response → Hop
  hop_outcome hop current (err detail) =
      answer pending
        (codes "GET " ++ (current.href ++ (codes " failed (" ++ (detail ++ codes ")"))))
  hop_outcome hop current (ok res) = arrive hop current res (redirect_to res)

  -- The loop, whose request of round `hop` answers `fetch hop`.
  unfoldable pub probe_loop : (ℕ → Url → Result Text Response) → ℕ → ℕ → Url → Option Probed
  probe_loop fetch ℕ.zero hop current = none
  probe_loop fetch (suc fuel) hop current =
      let continue : Url → Option Probed = λ next. probe_loop fetch fuel (suc hop) next in
      end_round continue (hop_outcome hop current (fetch hop current))

  -- probeHttp, after `new URL(url)`
  unfoldable pub probe_http : (ℕ → Url → Result Text Response) → Url → Option Probed
  probe_http fetch current = probe_loop fetch (suc max_redirects) 0 current
