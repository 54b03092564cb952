-- ===== src/Coordinator/Once.antt =====
-- The writes of a delivery and its outcome (src/delivery/coordinator.ts).
use codexhook.Base.{
  ℕ, ◌≡◌, refl, sym, ap, ◌∙◌, Bool, true, not, List, [], ◌++◌, arith, ltb, Bool-cases, inl, inr,
  ◌&&◌,
}
use codexhook.Base.Dict.{has}
use codexhook.Base.Result.{err}
use codexhook.Contracts.{
  DeliveryRoute, desktop, app_server, RouteSubmissionOutcome, confirmed, not_submitted, ambiguous,
  rejected, DeliveryRequest, DeliveryAttempt, may_fallback,
}
use codexhook.Coordinator.Support.{route_result, unexpected}
use codexhook.Coordinator.Route.{
  Activity, DesktopWorld, LocalWorld, Write, DesktopDecision, outcome, retry_idle, is_steer,
  in_time, follow_desktop_task, admit_desktop, write_desktop, submit_to_desktop, admit_local,
  write_local, submit_to_local, desktop_failure, unfollowable,
}
use codexhook.Coordinator.Cases.{Result-cases}
use codexhook.Coordinator.Deliver.{
  Breakers, RouteWorld, fall_back, after_desktop, decided, route, Turn, done, again, is_busy,
}
use codexhook.Coordinator.Routes.{
  routes_of, written_routes, implicated, decision_routes, result_routes, gated_routes,
  written_routes-append, routes_of-nil,
}

module _ (request : DeliveryRequest) (deadline : ℕ) where
  follow-routes :
      (broken : Bool) (w : DesktopWorld) (o : RouteSubmissionOutcome desktop)
      → follow_desktop_task request deadline broken w ≡ err o
      → routes_of o ≡ []
  unfolding follow_desktop_task in_time desktop_failure unexpected
  follow-routes broken w o e = ground arith

  admit-routes :
      (activity : Activity) (w : DesktopWorld) (d : DesktopDecision)
      → admit_desktop request deadline activity w ≡ err d
      → decision_routes d ≡ []
  unfolding admit_desktop unfollowable
  admit-routes activity w d e = ground arith

  admit_local-routes :
      (w : LocalWorld) (o : RouteSubmissionOutcome app_server)
      → admit_local request deadline w ≡ err o
      → routes_of o ≡ []
  unfolding admit_local in_time unexpected
  admit_local-routes w o e = ground arith

  desktop-routes :
      (broken : Bool) (w : DesktopWorld)
      → written_routes (submit_to_desktop request deadline broken w).1
        ≡ decision_routes (submit_to_desktop request deadline broken w).0
  unfolding submit_to_desktop write_desktop written_routes
  desktop-routes broken w = elim (Result-cases (follow_desktop_task request deadline broken w)) [
    | inl (o, e) ↦ rw (e, submit_to_desktop) (sym (follow-routes broken w o e))
    | inr (activity, e) ↦ elim (Result-cases (admit_desktop request deadline activity w)) [
      | inl (d, f) ↦ rw (e, f, submit_to_desktop) (sym (admit-routes activity w d f))
      | inr (_, f) ↦ rw (e, f, submit_to_desktop) (routes_of-nil _)
    ]
  ]

  local-routes :
      (w : LocalWorld)
      → written_routes (submit_to_local request deadline w).1
        ≡ routes_of (submit_to_local request deadline w).0
  unfolding submit_to_local write_local written_routes
  local-routes w = elim (Result-cases (admit_local request deadline w)) [
    | inl (o, e) ↦ rw (e, submit_to_local) (sym (admit_local-routes w o e))
    | inr (_, e) ↦ rw (e, submit_to_local) (routes_of-nil _)
  ]

  route_result-routes :
      (route : DeliveryRoute) (o : RouteSubmissionOutcome route) (attempts : List DeliveryAttempt)
      → result_routes (route_result request route o attempts) ≡ routes_of o
  unfolding route_result
  route_result-routes desktop (confirmed _ _ _) attempts = refl
  route_result-routes app_server (confirmed _ _ _) attempts = refl
  route_result-routes route (not_submitted _ _ _) attempts = refl
  route_result-routes route (ambiguous _ _) attempts = refl
  route_result-routes route (rejected _ _) attempts = refl

  -- A fallback follows a proof that the desktop plane wrote nothing.
  fallback-routes :
      (o : RouteSubmissionOutcome desktop) → may_fallback desktop o ≡ true → routes_of o ≡ []
  unfolding may_fallback
  fallback-routes o e = ground arith

  busy-routes : (o : RouteSubmissionOutcome desktop) → is_busy o ≡ true → routes_of o ≡ []
  busy-routes o e = ground arith

  fall_back-routes :
      (first : DeliveryAttempt) (writes : List Write) (breakers : Breakers) (w : RouteWorld)
      → written_routes writes ≡ []
      → let r = fall_back request deadline first writes breakers w in
        written_routes r.writes ≡ gated_routes r.result
  unfolding fall_back
  fall_back-routes first writes breakers w e =
      let (o, more) = submit_to_local request deadline w.local_plane in
      written_routes-append writes more
      ∙ ap (λ l. l ++ written_routes more) e
      ∙ local-routes w.local_plane
      ∙ sym (route_result-routes app_server o _)

  after_desktop-routes :
      (o : RouteSubmissionOutcome desktop) (writes : List Write) (breakers : Breakers)
      (w : RouteWorld)
      → written_routes writes ≡ routes_of o
      → let r = after_desktop request deadline o writes breakers w in
        written_routes r.writes ≡ gated_routes r.result
  unfolding after_desktop
  after_desktop-routes o writes breakers w e =
      elim (Bool-cases (may_fallback desktop o && ltb w.before_fallback deadline)) [
        | inl falls ↦
            rw falls (fall_back-routes _ writes _ w (e ∙ fallback-routes o (ground arith)))
        | inr stays ↦ rw stays (e ∙ sym (route_result-routes desktop o _))
      ]

  decided-routes :
      (d : DesktopDecision) (writes : List Write) (breakers : Breakers) (w : RouteWorld)
      → written_routes writes ≡ decision_routes d
      → let r = decided request deadline d writes breakers w in
        written_routes r.writes ≡ gated_routes r.result
  unfolding decided
  decided-routes (retry_idle require_activity) writes breakers w e = e
  decided-routes (outcome o) writes breakers w e =
      elim (Bool-cases (not (is_steer request.mode) && is_busy o)) [
        | inl busy ↦ rw busy (e ∙ busy-routes o (ground arith))
        | inr settled_outcome ↦ rw settled_outcome (after_desktop-routes o writes breakers w e)
      ]

  pub route-routes :
      (breakers : Breakers) (w : RouteWorld)
      → let r = route request deadline breakers w in written_routes r.writes ≡ gated_routes r.result
  unfolding route
  route-routes breakers w =
      let broken = has request.task.thread_id breakers in
      decided-routes _ _ breakers w (desktop-routes broken w.desktop_plane)

  -- What a turn of the queue loop has written, by how it ends.
  abbrev TurnRoutes : Turn → Type 0
  TurnRoutes (done d) = written_routes d.writes ≡ implicated d.result
  TurnRoutes (again _ writes) = written_routes writes ≡ []
