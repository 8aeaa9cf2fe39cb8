-- ===== src/Live.antt =====
-- siteyctl/src/verify.ts: whether a service is live. What stands outside is given: the URL parser, and what a
-- request or a TLS connection answers.
pub mod Probe
pub mod Redirects
pub mod Report
pub mod Verdict
pub mod Ended
pub mod Wait
mod Tests
use sitey.Prelude.{ℕ, Bool, true, false, Option, List, [], ◌∷◌, any}
use sitey.Text.{Text, codes}

pub data CheckState : Type 0 where
  pass pending fail : CheckState

pub data CheckName : Type 0 where
  service deploy tls http : CheckName

pub record Check : Type 0 where
  pub name : CheckName
  pub target : Text
  pub state : CheckState
  pub detail : Text

abbrev pub is_pass : CheckState → Bool
is_pass pass = true
is_pass _ = false

abbrev pub is_pending : CheckState → Bool
is_pending pending = true
is_pending _ = false

abbrev pub is_fail : CheckState → Bool
is_fail fail = true
is_fail _ = false

pub record Deployment : Type 0 where
  pub id : Text
  pub status : Text

pub record LiveInput : Type 0 where
  pub service_id : Option ℕ
  pub active : Bool
  pub deploy_mode : Text
  pub deployment : Option Deployment
  pub routes : List Text

pub record LiveReport : Type 0 where
  pub state : CheckState
  pub live : Bool
  pub checks : List Check

pub record Probes : Type 0 where
  pub tls_probe : Text → Check
  pub http_probe : Text → Text → Option ℕ → Check
