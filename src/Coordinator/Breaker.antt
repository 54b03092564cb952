-- ===== src/Coordinator/Breaker.antt =====
-- The task's entry in `desktopBreakers` after the steps of a delivery
-- (src/delivery/coordinator.ts).
use codexhook.Base.{
  ℕ, ◌≡◌, ◌⊎◌, refl, ◌∙◌, String, true, false, not, Option, none, some, List, arith, ltb,
  if◌then◌else◌, Bool-cases, inl, inr, ◌&&◌, eq_refl,
}
use codexhook.Base.Dict.{get, delete, get-set, get-delete}
use codexhook.Contracts.{
  DeliveryRoute, DeliveryOperation, desktop, app_server, RouteSubmissionOutcome, confirmed,
  not_submitted, ambiguous, rejected, DeliveryRequest, DeliveryAttempt, DeliveryOutcome, Failure,
  confirmed_desktop, confirmed_app_server, is_ambiguous, is_rejected, is_unavailable, may_fallback,
}
use codexhook.Coordinator.Support.{
  RoutingResult, settled, pending, route_result, confirm, reconcile_delivery,
}
use codexhook.Coordinator.Route.{
  Write, DesktopDecision, outcome, retry_idle, is_steer, submit_to_local,
}
use codexhook.Coordinator.Deliver.{
  Breakers, RouteWorld, GatedResult, routed, retries, trip, fall_back, after_desktop, decided,
  route, is_busy, reconcile, finish, FinishWorld, steer_delivery, idle_unavailable,
  is_ambiguous_outcome, is_own,
}
use codexhook.Coordinator.Cases.{Result-cases, Gated-cases}

module _ (request : DeliveryRequest) (deadline : ℕ) where
  abbrev entry : Breakers → Option String
  entry = get request.task.thread_id

  abbrev IsDefinite : DeliveryOutcome → Type 0
  IsDefinite (is_ambiguous _ _) = ⊥
  IsDefinite _ = Unit

  abbrev PendingEntry : DeliveryRoute → Breakers → Breakers → Type 0
  PendingEntry desktop before after = entry after ≡ some request.delivery_id
  PendingEntry app_server before after = entry after ≡ entry before

  abbrev RoutedEntry : Breakers → GatedResult → Breakers → Type 0
  RoutedEntry before (routed (pending p)) after = PendingEntry p.route before after
  RoutedEntry before (routed (settled o)) after = IsDefinite o × (entry after ≡ entry before)
  RoutedEntry before (retries _) after = entry after ≡ entry before

  result-entry :
      (o : RouteSubmissionOutcome desktop) (attempts : List DeliveryAttempt) (before : Breakers)
      → RoutedEntry before
          (routed (route_result request desktop o attempts))
          (trip request deadline o before)
  unfolding route_result trip confirm
  result-entry (confirmed _ _ _) attempts before = (tt, refl)
  result-entry (not_submitted _ _ _) attempts before = (tt, refl)
  result-entry (rejected _ _) attempts before = (tt, refl)
  result-entry (ambiguous _ _) attempts before =
      get-set request.task.thread_id request.task.thread_id request.delivery_id before
      ∙ cc (eq_refl request.task.thread_id)

  fallback-entry :
      (o : RouteSubmissionOutcome app_server) (attempts : List DeliveryAttempt) (before : Breakers)
      → RoutedEntry before (routed (route_result request app_server o attempts)) before
  unfolding route_result confirm
  fallback-entry (confirmed _ _ _) attempts before = (tt, refl)
  fallback-entry (not_submitted _ _ _) attempts before = (tt, refl)
  fallback-entry (rejected _ _) attempts before = (tt, refl)
  fallback-entry (ambiguous _ _) attempts before = refl

  not-tripped :
      (o : RouteSubmissionOutcome desktop)
      → may_fallback desktop o ≡ true
      → is_ambiguous_outcome o ≡ false
  unfolding may_fallback
  not-tripped o e = ground arith

  trip-not :
      (o : RouteSubmissionOutcome desktop) (before : Breakers)
      → is_ambiguous_outcome o ≡ false
      → trip request deadline o before ≡ before
  unfolding trip
  trip-not o before e = rw e

  after_desktop-entry :
      (o : RouteSubmissionOutcome desktop) (writes : List Write) (before : Breakers)
      (w : RouteWorld)
      → let r = after_desktop request deadline o writes before w in
        RoutedEntry before r.result r.breakers
  unfolding after_desktop fall_back
  after_desktop-entry o writes before w =
      elim (Bool-cases (may_fallback desktop o && ltb w.before_fallback deadline)) [
        | inl falls ↦
            rw (falls, trip-not o before (not-tripped o (ground arith)))
              (fallback-entry (submit_to_local request deadline w.local_plane).0 _ before)
        | inr stays ↦ rw stays (result-entry o _ before)
      ]

  decided-entry :
      (d : DesktopDecision) (writes : List Write) (before : Breakers) (w : RouteWorld)
      → let r = decided request deadline d writes before w in RoutedEntry before r.result r.breakers
  unfolding decided
  decided-entry (retry_idle b) writes before w = refl
  decided-entry (outcome o) writes before w =
      elim (Bool-cases (not (is_steer request.mode) && is_busy o)) [
        | inl busy ↦ rw busy refl
        | inr other ↦ rw other (after_desktop-entry o writes before w)
      ]

  -- The breaker of the task after a delivery, by its outcome.
  abbrev pub BreakerAfter : Breakers → DeliveryOutcome → Breakers → Type 0
  BreakerAfter before (is_ambiguous desktop _) after = entry after ≡ some request.delivery_id
  BreakerAfter before _ after = (entry after ≡ entry before) ⊎ (entry after ≡ none)

  lifted :
      (b : Breakers)
      → (entry (if is_own request deadline (entry b) then delete request.task.thread_id b else b)
          ≡ entry b)
        ⊎ (entry (if is_own request deadline (entry b) then delete request.task.thread_id b else b)
            ≡ none)
  lifted b = elim (Bool-cases (is_own request deadline (entry b))) [
    | inl own ↦ rw own (
        inr (
          get-delete request.task.thread_id request.task.thread_id b
          ∙ cc (eq_refl request.task.thread_id)))
    | inr other ↦ rw other (inl refl)
  ]

  settled-entry :
      (o : DeliveryOutcome) (before b : Breakers)
      → RoutedEntry before (routed (settled o)) b
      → BreakerAfter before o b
  settled-entry (confirmed_desktop _) before b e = inl e.1
  settled-entry (confirmed_app_server _) before b e = inl e.1
  settled-entry (is_ambiguous _ _) before b e = absurd e.0
  settled-entry (is_rejected _ _) before b e = inl e.1
  settled-entry (is_unavailable _) before b e = inl e.1

  unresolved-entry :
      (route : DeliveryRoute) (failure : Failure) (before b c : Breakers)
      → entry c ≡ entry b
      → PendingEntry route before b
      → BreakerAfter before (is_ambiguous route failure) c
  unresolved-entry desktop failure before b c kept e = kept ∙ e
  unresolved-entry app_server failure before b c kept e = inl (kept ∙ e)

  abbrev lift : Breakers → Breakers
  lift c =
      if is_own request deadline (get request.task.thread_id c)
      then delete request.task.thread_id c
      else c

  own-lifted : (c : Breakers) → entry c ≡ some request.delivery_id → entry (lift c) ≡ none
  own-lifted c e =
      rw (e, eq_refl request.delivery_id)
        (get-delete request.task.thread_id request.task.thread_id c
          ∙ cc (eq_refl request.task.thread_id))

  confirmed-after :
      (route : DeliveryRoute) (turn_id : String) (operation : DeliveryOperation)
      (attempts : List DeliveryAttempt) (before c : Breakers)
      → (entry c ≡ entry before) ⊎ (entry c ≡ none)
      → BreakerAfter before (confirm route request turn_id operation attempts) c
  unfolding confirm
  confirmed-after desktop turn_id operation attempts before c h = h
  confirmed-after app_server turn_id operation attempts before c h = h

  resolved-entry :
      (route : DeliveryRoute) (before b c : Breakers)
      → entry c ≡ entry b
      → PendingEntry route before b
      → (entry (lift c) ≡ entry before) ⊎ (entry (lift c) ≡ none)
  resolved-entry desktop before b c kept e = inr (own-lifted c (kept ∙ e))
  resolved-entry app_server before b c kept e = elim (lifted c) [
    | inl same ↦ inl (same ∙ kept ∙ e)
    | inr gone ↦ inr gone
  ]

  finish-entry :
      (result : RoutingResult) (before b : Breakers) (writes : List Write) (f : FinishWorld)
      → ((c : Breakers) → entry (f.others c) ≡ entry c)
      → RoutedEntry before (routed result) b
      → let d = finish request deadline result b writes f in BreakerAfter before d.result d.breakers
  unfolding finish reconcile
  finish-entry (settled o) before b writes f neutral e = settled-entry o before b e
  finish-entry (pending p) before b writes f neutral e =
      elim (Result-cases (reconcile_delivery f.stream request p.route)) [
        | inl (d, r) ↦
            rw (r, reconcile) (unresolved-entry p.route _ before b (f.others b) (neutral b) e)
        | inr (turn_id, r) ↦
            rw (r, reconcile)
              (confirmed-after p.route turn_id _ _ before _
                (resolved-entry p.route before b (f.others b) (neutral b) e))
      ]

  route-entry :
      (before : Breakers) (w : RouteWorld)
      → let r = route request deadline before w in RoutedEntry before r.result r.breakers
  unfolding route
  route-entry before w = decided-entry _ _ before w

  steer-entry :
      (before : Breakers) (w : RouteWorld) (f : FinishWorld)
      → ((c : Breakers) → entry (f.others c) ≡ entry c)
      → let d = steer_delivery request deadline before w f in
        BreakerAfter before d.result d.breakers
  unfolding steer_delivery idle_unavailable
  steer-entry before w f neutral =
      let e = route-entry before w in
      elim (Gated-cases (route request deadline before w).result) [
        | inl (result, g) ↦
            rw (g, steer_delivery) (finish-entry result before _ _ f neutral (rw g at e))
        | inr (b, g) ↦ rw (g, steer_delivery) (inl (rw g at e))
      ]

-- In steer mode, when the deliveries of other fibers leave the task's breaker entry as it is: an
-- ambiguous outcome of the desktop route leaves the breaker set to this delivery, an ambiguous
-- outcome of the other route and every other outcome leaves the task's entry as it was or removes
-- it.
pub steer_delivery_breaker :
    (request : DeliveryRequest) (deadline : ℕ) (before : Breakers) (w : RouteWorld)
    (f : FinishWorld)
    → ((c : Breakers) → get request.task.thread_id (f.others c) ≡ get request.task.thread_id c)
    → let d = steer_delivery request deadline before w f in
      BreakerAfter request deadline before d.result d.breakers
steer_delivery_breaker request deadline before w f neutral =
    steer-entry request deadline before w f neutral
