-- ===== src/Coordinator/Routes.antt =====
-- The routes of the writes, and those that outcomes and results name
-- (src/delivery/coordinator.ts).
use codexhook.Base.{◌≡◌, refl, ap, List, [], ◌∷◌, ◌++◌}
use codexhook.Contracts.{
  DeliveryRoute, desktop, app_server, RouteSubmissionOutcome, confirmed, not_submitted, ambiguous,
  rejected, DeliveryOutcome, confirmed_desktop, confirmed_app_server, is_ambiguous, is_rejected,
  is_unavailable,
}
use codexhook.Coordinator.Support.{RoutingResult, settled, pending}
use codexhook.Coordinator.Route.{Write, to_desktop, to_local, DesktopDecision, outcome, retry_idle}
use codexhook.Coordinator.Deliver.{GatedResult, routed, retries, route}

-- The route on which an outcome leaves a possible write: all but `NotSubmitted` do.
abbrev pub routes_of : {route : DeliveryRoute} → RouteSubmissionOutcome route → List DeliveryRoute
routes_of (not_submitted _ _ _) = []
routes_of {route} _ = route ∷ []

-- The routes of the writes that may have reached the task.
unfoldable pub written_routes : List Write → List DeliveryRoute
written_routes [] = []
written_routes (to_desktop _ o ∷ writes) = routes_of o ++ written_routes writes
written_routes (to_local _ o ∷ writes) = routes_of o ++ written_routes writes

-- The route that a delivery's outcome implicates.
abbrev pub implicated : DeliveryOutcome → List DeliveryRoute
implicated (confirmed_desktop _) = desktop ∷ []
implicated (confirmed_app_server _) = app_server ∷ []
implicated (is_ambiguous route _) = route ∷ []
implicated (is_rejected route _) = route ∷ []
implicated (is_unavailable _) = []

abbrev pub decision_routes : DesktopDecision → List DeliveryRoute
decision_routes (outcome o) = routes_of o
decision_routes (retry_idle _) = []

abbrev pub result_routes : RoutingResult → List DeliveryRoute
result_routes (settled o) = implicated o
result_routes (pending p) = p.route ∷ []

abbrev pub gated_routes : GatedResult → List DeliveryRoute
gated_routes (routed r) = result_routes r
gated_routes (retries _) = []

pub written_routes-append :
    (xs ys : List Write) → written_routes (xs ++ ys) ≡ written_routes xs ++ written_routes ys
unfolding written_routes
written_routes-append [] ys = refl
written_routes-append (to_desktop s (confirmed a b c) ∷ xs) ys =
    ap (◌∷◌ desktop) (written_routes-append xs ys)
written_routes-append (to_desktop s (not_submitted a b c) ∷ xs) ys = written_routes-append xs ys
written_routes-append (to_desktop s (ambiguous a b) ∷ xs) ys =
    ap (◌∷◌ desktop) (written_routes-append xs ys)
written_routes-append (to_desktop s (rejected a b) ∷ xs) ys =
    ap (◌∷◌ desktop) (written_routes-append xs ys)
written_routes-append (to_local s (confirmed a b c) ∷ xs) ys =
    ap (◌∷◌ app_server) (written_routes-append xs ys)
written_routes-append (to_local s (not_submitted a b c) ∷ xs) ys = written_routes-append xs ys
written_routes-append (to_local s (ambiguous a b) ∷ xs) ys =
    ap (◌∷◌ app_server) (written_routes-append xs ys)
written_routes-append (to_local s (rejected a b) ∷ xs) ys =
    ap (◌∷◌ app_server) (written_routes-append xs ys)

pub routes_of-nil :
    {route : DeliveryRoute} (o : RouteSubmissionOutcome route) → routes_of o ++ [] ≡ routes_of o
routes_of-nil (confirmed _ _ _) = refl
routes_of-nil (not_submitted _ _ _) = refl
routes_of-nil (ambiguous _ _) = refl
routes_of-nil (rejected _ _) = refl
