-- ===== src/Routes/Insert.antt =====
-- insertResolvedRoute on a consistent table.
use sitey.Prelude.{
  ◌≡◌, ◌≢◌, refl, sym, ap, ◌∙◌, Bool, true, false, none, some, List, [], ◌∷◌, ◌++◌, arith,
  Bool-cases, Option-cases, inl, inr, Result, find, any, err, ok, ◌==◌, In, All-In, find-none,
  any-false, All-append, In-append, find-In, subst, In-append_left, Pairwise-append, All-of_In,
  find-some,
}
use sitey.Text.{Text, text_eq}
use sitey.Text.Equal.{text_eq_self, text_eq→eq}
use sitey.RouteString.{is_hostname, route_host}
use sitey.Routes.{
  ServiceRoute, Resolved, Service, insert_resolved_route, claim_route, differs, RouteError,
  assert_compatible_host, Inserted, existing_or, create_route, routes_for_host, already_routed,
  same_key, mixed_http_only, resolved_row, just_routed,
}
use sitey.Routes.Hosts.{
  effective, Apart, IsConsistent, IsLabelled, SameScheme, listed_row, row_listed,
}

-- What resolveRouteInput promises of its answer: it stands for a valid host, and under a wildcard domain the
-- subdomain is one label.
pub record IsResolved (resolved : Resolved) : Type 0 where
  pub valid : is_hostname resolved.host ≡ true
  pub stands : route_host resolved.domain.hostname resolved.subdomain ≡ resolved.host
  pub labelled : IsLabelled (some resolved.domain) resolved.subdomain

abbrev pub claims : Resolved → ServiceRoute → Bool
claims resolved r = text_eq r.path_prefix resolved.path_prefix

abbrev pub mixed : Resolved → ServiceRoute → Bool
mixed resolved r = differs r.http_only resolved.http_only

-- The ways in which insertResolvedRoute ends.
pub data Outcome (id : Text) (service : Service) (resolved : Resolved) (rows : List ServiceRoute)
    : Result RouteError Inserted → Type 0 where
  taken :
      (r : ServiceRoute)
      → find (claims resolved) (routes_for_host resolved.host rows) ≡ some r
      → r.service.id ≢ service.id
      → Outcome id service resolved rows (err (already_routed resolved.route r.service))
  mixes :
      any (mixed resolved) (routes_for_host resolved.host rows) ≡ true
      → Outcome id service resolved rows (err mixed_http_only)
  exists :
      (r : ServiceRoute)
      → find (claims resolved) (routes_for_host resolved.host rows) ≡ some r
      → r.service.id ≡ service.id
      → any (mixed resolved) (routes_for_host resolved.host rows) ≡ false
      → Outcome id service resolved rows
          (ok (record { route = r; already_existed = true; rows = rows }))
  raced :
      find (claims resolved) (routes_for_host resolved.host rows) ≡ none
      → any (same_key (resolved_row id service resolved)) rows ≡ true
      → Outcome id service resolved rows (err (just_routed resolved.route))
  created :
      find (claims resolved) (routes_for_host resolved.host rows) ≡ none
      → any (mixed resolved) (routes_for_host resolved.host rows) ≡ false
      → Outcome id service resolved rows (
          ok (record {
            route = resolved_row id service resolved;
            already_existed = false;
            rows = rows ++ resolved_row id service resolved ∷ [];
          }))

pub insert_resolved_route-Outcome :
    (id : Text) (service : Service) (resolved : Resolved) (rows : List ServiceRoute)
    → Outcome id service resolved rows (insert_resolved_route id service resolved rows)
unfolding insert_resolved_route claim_route assert_compatible_host existing_or create_route
insert_resolved_route-Outcome id service resolved rows =
    elim (Option-cases (find (claims resolved) (routes_for_host resolved.host rows))) [
      | inl e ↦ elim (Bool-cases (any (mixed resolved) (routes_for_host resolved.host rows))) [
        | inl m ↦ rw (e, m) (mixes m)
        | inr m ↦ elim (Bool-cases (any (same_key (resolved_row id service resolved)) rows)) [
          | inl k ↦ rw (e, m, k) (raced e k)
          | inr k ↦ rw (e, m, k) (created e m)
        ]
      ]
      | inr (r, e) ↦ elim (Bool-cases (r.service.id == service.id)) [
        | inr o ↦ rw (e, o) (taken r e (ground arith))
        | inl o ↦ elim (Bool-cases (any (mixed resolved) (routes_for_host resolved.host rows))) [
          | inl m ↦ rw (e, o, m) (mixes m)
          | inr m ↦ rw (e, o, m) (exists r e (ground arith) m)
        ]
      ]
    ]

-- What a successful call answers: a row of the table afterwards, the caller's, under the host and path asked
-- for; and the rows there were are still there.
pub record Routed (service : Service) (resolved : Resolved) (rows : List ServiceRoute)
    (a : Inserted) : Type 0 where
  pub at_host : effective a.route ≡ some resolved.host
  pub at_path : a.route.path_prefix ≡ resolved.path_prefix
  pub at_scheme : a.route.http_only ≡ resolved.http_only
  pub owner : a.route.service.id ≡ service.id
  pub stored : In a.route a.rows
  pub kept : (r : ServiceRoute) → In r rows → In r a.rows

pub differs-false : (a b : Bool) → differs a b ≡ false → a ≡ b
differs-false true true h = refl
differs-false true false h = h
differs-false false true h = sym h
differs-false false false h = refl

module _ (id : Text) (service : Service) (resolved : Resolved) (rows : List ServiceRoute)
    (w : IsResolved resolved) (consistent : IsConsistent rows) where
  abbrev new : ServiceRoute
  new = resolved_row id service resolved

  new_host : effective new ≡ some resolved.host
  unfolding resolved_row
  new_host = ap some w.stands

  pub found :
      (r : ServiceRoute)
      → In r (routes_for_host resolved.host rows)
      → In r rows × (effective r ≡ some resolved.host)
  found r i = listed_row resolved.host rows r w.valid consistent i

  pub listed :
      (r : ServiceRoute)
      → In r rows
      → effective r ≡ some resolved.host
      → In r (routes_for_host resolved.host rows)
  listed r i e = row_listed resolved.host rows r w.valid consistent i e

  -- no row has the new row's path, and every row has its HTTP-only setting
  Apart-new :
      (r : ServiceRoute)
      → find (claims resolved) (routes_for_host resolved.host rows) ≡ none
      → any (mixed resolved) (routes_for_host resolved.host rows) ≡ false
      → In r rows
      → Apart r new
  unfolding resolved_row
  Apart-new r none_claims none_mixed i e =
      let host : effective r ≡ some resolved.host = e ∙ new_host in
      let k = listed r i host in
      let other = All-In _ _ r (find-none (claims resolved) _ none_claims) k in
      let same = All-In _ _ r (any-false (mixed resolved) _ none_mixed) k in
      (
        (λ p.
            let t : text_eq r.path_prefix resolved.path_prefix ≡ true =
              rw p (text_eq_self resolved.path_prefix) in
            cc),
        subst (λ h. SameScheme h r new) (sym host)
            (differs-false r.http_only resolved.http_only same),
      )

  IsConsistent-created :
      find (claims resolved) (routes_for_host resolved.host rows) ≡ none
      → any (mixed resolved) (routes_for_host resolved.host rows) ≡ false
      → IsConsistent (rows ++ new ∷ [])
  unfolding resolved_row
  IsConsistent-created none_claims none_mixed = record {
    labelled =
        All-append (λ r. IsLabelled r.domain r.subdomain) rows (new ∷ []) consistent.labelled
          (w.labelled, tt);
    apart =
        Pairwise-append Apart rows new consistent.apart
          (All-of_In (λ r. Apart r new) rows (λ r i. Apart-new r none_claims none_mixed i));
  }

  pub Outcome-IsConsistent :
      (result : Result RouteError Inserted) (a : Inserted)
      → Outcome id service resolved rows result
      → result ≡ ok a
      → IsConsistent a.rows
  Outcome-IsConsistent _ a (taken r f o) e = absurd (ground arith)
  Outcome-IsConsistent _ a (mixes m) e = absurd (ground arith)
  Outcome-IsConsistent _ a (exists r f o m) e = subst IsConsistent (ground arith) consistent
  Outcome-IsConsistent _ a (raced f k) e = absurd (ground arith)
  Outcome-IsConsistent _ a (created f m) e =
      subst IsConsistent (ground arith) (IsConsistent-created f m)

  Routed-exists :
      (r : ServiceRoute)
      → find (claims resolved) (routes_for_host resolved.host rows) ≡ some r
      → r.service.id ≡ service.id
      → any (mixed resolved) (routes_for_host resolved.host rows) ≡ false
      → Routed service resolved rows (record { route = r; already_existed = true; rows = rows })
  Routed-exists r f o m =
      let i = find-In (claims resolved) _ r f in
      let (k, h) = found r i in
      record {
        at_host = h;
        at_path = text_eq→eq r.path_prefix resolved.path_prefix (find-some (claims resolved) _ r f);
        at_scheme =
            differs-false r.http_only resolved.http_only
              (All-In _ _ r (any-false (mixed resolved) _ m) i);
        owner = o;
        stored = k;
        kept = (λ q j. j);
      }

  Routed-created :
      Routed service resolved rows
        (record { route = new; already_existed = false; rows = rows ++ new ∷ [] })
  unfolding resolved_row
  Routed-created = record {
    at_host = new_host;
    at_path = refl;
    at_scheme = refl;
    owner = refl;
    stored = In-append rows new;
    kept = (λ q j. In-append_left rows (new ∷ []) q j);
  }

  pub Outcome-Routed :
      (result : Result RouteError Inserted) (a : Inserted)
      → Outcome id service resolved rows result
      → result ≡ ok a
      → Routed service resolved rows a
  Outcome-Routed _ a (taken r f o) e = absurd (ground arith)
  Outcome-Routed _ a (mixes m) e = absurd (ground arith)
  Outcome-Routed _ a (exists r f o m) e =
      subst (Routed service resolved rows) (ground arith) (Routed-exists r f o m)
  Outcome-Routed _ a (raced f k) e = absurd (ground arith)
  Outcome-Routed _ a (created f m) e =
      subst (Routed service resolved rows) (ground arith) Routed-created
