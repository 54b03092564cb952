-- ===== src/Coordinator/Broken.antt =====
-- A pass over the planes while the breaker of the task is set
-- (src/delivery/coordinator.ts).
use codexhook.Base.{
  ℕ, ◌≡◌, refl, String, true, false, not, [], ltb, Bool-cases, inl, inr, ◌&&◌, All,
}
use codexhook.Base.Dict.{has}
use codexhook.Contracts.{desktop, RouteSubmissionOutcome, DeliveryRequest, may_fallback}
use codexhook.Coordinator.Route.{
  DesktopWorld, LocalWorld, Write, to_desktop, to_local, outcome, is_steer, follow_desktop_task,
  submit_to_desktop, submit_to_local, write_local, admit_local,
}
use codexhook.Coordinator.Deliver.{
  Breakers, RouteWorld, trip, fall_back, after_desktop, decided, route, is_busy,
  is_ambiguous_outcome,
}
use codexhook.Coordinator.Cases.{Result-cases}

abbrev pub IsLocal : Write → Type 0
IsLocal (to_desktop _ _) = ⊥
IsLocal (to_local _ _) = Unit

module _ (request : DeliveryRequest) (deadline : ℕ) where
  abbrev pub thread : String
  thread = request.task.thread_id

  broken-silent :
      (w : DesktopWorld)
      → (o : RouteSubmissionOutcome desktop) × (submit_to_desktop request deadline true w
          ≡ (outcome o, []))
        × (may_fallback desktop o ≡ true)
        × (is_busy o ≡ false)
        × (is_ambiguous_outcome o ≡ false)
  unfolding submit_to_desktop follow_desktop_task may_fallback
  broken-silent w = (_, refl, refl, refl, refl)

  submit_to_local-IsLocal : (w : LocalWorld) → All IsLocal (submit_to_local request deadline w).1
  unfolding submit_to_local write_local
  submit_to_local-IsLocal w = elim (Result-cases (admit_local request deadline w)) [
    | inl (o, e) ↦ rw (e, submit_to_local) tt
    | inr (_, e) ↦ rw (e, submit_to_local) (tt, tt)
  ]

  untripped-IsLocal :
      (o : RouteSubmissionOutcome desktop) (breakers : Breakers) (w : RouteWorld)
      → is_ambiguous_outcome o ≡ false
      → let r = after_desktop request deadline o [] breakers w in
        All IsLocal r.writes × (r.breakers ≡ breakers)
  unfolding after_desktop fall_back trip
  untripped-IsLocal o breakers w untripped =
      elim (Bool-cases (may_fallback desktop o && ltb w.before_fallback deadline)) [
        | inl falls ↦ rw (falls, untripped) (submit_to_local-IsLocal w.local_plane, refl)
        | inr stays ↦ rw (stays, untripped) (tt, refl)
      ]

  decided-IsLocal :
      (o : RouteSubmissionOutcome desktop) (breakers : Breakers) (w : RouteWorld)
      → is_ambiguous_outcome o ≡ false
      → let r = decided request deadline (outcome o) [] breakers w in
        All IsLocal r.writes × (r.breakers ≡ breakers)
  unfolding decided
  decided-IsLocal o breakers w untripped =
      elim (Bool-cases (not (is_steer request.mode) && is_busy o)) [
        | inl busy ↦ rw busy (tt, refl)
        | inr other ↦ rw other (untripped-IsLocal o breakers w untripped)
      ]

  route-broken :
      (breakers : Breakers) (w : RouteWorld)
      → has thread breakers ≡ true
      → All IsLocal (route request deadline breakers w).writes
        × ((route request deadline breakers w).breakers ≡ breakers)
  unfolding route
  route-broken breakers w e =
      let (o, silent, falls, quiet, untripped) = broken-silent w.desktop_plane in
      rw (e, silent) (decided-IsLocal o breakers w untripped)

-- While a task's breaker is set, a pass over the planes submits nothing to the desktop plane and
-- leaves the breakers as they are.
pub route_broken :
    (request : DeliveryRequest) (deadline : ℕ) (breakers : Breakers) (w : RouteWorld)
    → has request.task.thread_id breakers ≡ true
    → All IsLocal (route request deadline breakers w).writes
      × ((route request deadline breakers w).breakers ≡ breakers)
route_broken request deadline breakers w e = route-broken request deadline breakers w e
