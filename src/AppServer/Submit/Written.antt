-- ===== src/AppServer/Submit/Written.antt =====
-- What an app-server submission may have written, and what its outcome says of it
-- (src/app-server/local-codex.ts, src/app-server/mutation.ts).
use mathlib.Core.Path.{subst}
use codexhook.Base.{
  ◌≡◌, ◌⊎◌, refl, sym, String, Bool, true, false, not, some, List, [], ◌∷◌, All, arith, Bool-cases,
  Option-cases, inl, inr,
}
use codexhook.Types.{DeliveryMode, queue, steer}
use codexhook.Contracts.{
  app_server, DeliveryOperation, start, steer as steer_operation, RouteSubmissionOutcome,
  not_submitted,
}
use codexhook.Coordinator.Route.{LocalSubmission}
use codexhook.AppServer.Mutation.{
  MutationOperation, SubmitExit, written, not_written, write_fails, ReplyExit, replied, error_reply,
  is_disconnected, is_late, is_malformed, is_interrupted, dies, PeerExits, after_reply,
  after_submit, mutate, may_be_written,
}
use codexhook.AppServer.Submit.{
  ClientState, no_client, incompatible_client, usable_client, CanonicalTurn, TurnCall, start_turn,
  steer_turn, operation_of_call, ClientWorld, mutation_outcome, call, in_progress_turns,
  steer_active, submit_queue, submit_steer, submit,
}

-- The outcome says that nothing was written.
abbrev pub is_not_submitted : RouteSubmissionOutcome app_server → Bool
is_not_submitted (not_submitted _ _ _) = true
is_not_submitted _ = false

abbrev pub is_empty : List TurnCall → Bool
is_empty [] = true
is_empty (_ ∷ _) = false

module _ {C : Type 0} (request : LocalSubmission) where
  reply-written :
      (operation : DeliveryOperation) (mutation : MutationOperation) (reply : ReplyExit C String)
      → is_not_submitted (mutation_outcome request operation (after_reply mutation reply)) ≡ false
  unfolding mutation_outcome after_reply
  reply-written operation mutation (replied _) = refl
  reply-written operation mutation (error_reply _) = refl
  reply-written operation mutation is_disconnected = refl
  reply-written operation mutation is_late = refl
  reply-written operation mutation is_malformed = refl
  reply-written operation mutation is_interrupted = refl
  reply-written operation mutation dies = refl

  submit-written :
      (operation : DeliveryOperation) (mutation : MutationOperation) (exit : SubmitExit)
      (reply : ReplyExit C String)
      → is_not_submitted (mutation_outcome request operation (after_submit mutation exit reply))
        ≡ not
            (may_be_written {A = String} (record { prepares = true; submit = exit; reply = reply }))
  unfolding mutation_outcome after_submit
  submit-written operation mutation written reply = reply-written operation mutation reply
  submit-written operation mutation not_written reply = refl
  submit-written operation mutation write_fails reply = refl

  mutate-written :
      (operation : DeliveryOperation) (mutation : MutationOperation) (peer : PeerExits C String)
      → is_not_submitted (mutation_outcome request operation (mutate mutation peer))
        ≡ not (may_be_written peer)
  unfolding mutation_outcome mutate
  mutate-written operation mutation peer = elim (Bool-cases peer.prepares) [
    | inl prepared ↦
        rw (prepared, mutate) (submit-written operation mutation peer.submit peer.reply)
    | inr failed ↦ rw (failed, mutate) refl
  ]

  -- The outcome and the calls agree, and every call is fenced.
  abbrev pub IsFenced : ClientWorld C → TurnCall → Type 0
  IsFenced w (start_turn thread_id client_id text) =
      (request.mode ≡ queue)
      × (thread_id ≡ request.task.thread_id)
      × (client_id ≡ request.delivery_id)
      × (text ≡ request.message)
  IsFenced w (steer_turn thread_id expected client_id text) =
      (request.mode ≡ steer)
      × (thread_id ≡ request.task.thread_id)
      × (client_id ≡ request.delivery_id)
      × (text ≡ request.message)
      × ((turns : List CanonicalTurn) × (turn : CanonicalTurn) × (w.history ≡ some turns)
          × (in_progress_turns turns ≡ turn ∷ [])
          × (expected ≡ turn.id))

  abbrev pub Agrees : ClientWorld C → RouteSubmissionOutcome app_server × List TurnCall → Type 0
  Agrees w (o, calls) = (is_not_submitted o ≡ is_empty calls) × All (IsFenced w) calls

  call-Agrees :
      (operation : DeliveryOperation) (turn : TurnCall) (w : ClientWorld C)
      → IsFenced w turn
      → Agrees w (call request operation turn w)
  unfolding call
  call-Agrees operation turn w fenced = elim (Option-cases (w.exits turn)) [
    | inl dead ↦ rw (dead, call) (refl, (fenced, tt))
    | inr (peer, e) ↦
        let same = mutate-written operation (operation_of_call turn) peer in
        elim (Bool-cases (may_be_written peer)) [
          | inl sent ↦ rw (e, same, sent, call) (refl, (fenced, tt))
          | inr unsent ↦ rw (e, same, unsent, call) (refl, tt)
        ]
  ]

  active-Agrees :
      (turns active : List CanonicalTurn) (w : ClientWorld C)
      → request.mode ≡ steer
      → w.history ≡ some turns
      → in_progress_turns turns ≡ active
      → Agrees w (steer_active request active w)
  unfolding steer_active
  active-Agrees turns [] w m h e = (refl, tt)
  active-Agrees turns (turn ∷ []) w m h e =
      call-Agrees steer_operation _ w (m, refl, refl, refl, (turns, turn, h, e, refl))
  active-Agrees turns (first ∷ second ∷ rest) w m h e = (refl, tt)

  queue-Agrees : (w : ClientWorld C) → request.mode ≡ queue → Agrees w (submit_queue request w)
  unfolding submit_queue call
  queue-Agrees w m = elim (Bool-cases w.reads_task) [
    | inl readable ↦ rw (readable, submit_queue) (call-Agrees start _ w (m, refl, refl, refl))
    | inr failed ↦ rw (failed, submit_queue) (refl, tt)
  ]

  steer_history :
      (w : ClientWorld C) (turns : List CanonicalTurn)
      → w.history ≡ some turns
      → submit_steer request w ≡ steer_active request (in_progress_turns turns) w
  unfolding submit_steer
  steer_history w turns h = ground arith

  steer-Agrees : (w : ClientWorld C) → request.mode ≡ steer → Agrees w (submit_steer request w)
  unfolding submit_steer
  steer-Agrees w m = elim (Option-cases w.history) [
    | inl failed ↦ rw (failed, submit_steer) (refl, tt)
    | inr (turns, h) ↦
        subst (λ r. Agrees w r) (sym (steer_history w turns h))
          (active-Agrees turns (in_progress_turns turns) w m h refl)
  ]

mode_cases : (m : DeliveryMode) → (m ≡ queue) ⊎ (m ≡ steer)
mode_cases queue = inl refl
mode_cases steer = inr refl

state_cases :
    (s : ClientState) → (s ≡ usable_client) ⊎ ((s ≡ no_client) ⊎ (s ≡ incompatible_client))
state_cases usable_client = inl refl
state_cases no_client = inr (inl refl)
state_cases incompatible_client = inr (inr refl)

module _ {C : Type 0} (request : LocalSubmission) (w : ClientWorld C) where
  submit_usable_queue :
      w.state ≡ usable_client → request.mode ≡ queue → submit request w ≡ submit_queue request w
  unfolding submit
  submit_usable_queue usable m = ground arith

  submit_usable_steer :
      w.state ≡ usable_client → request.mode ≡ steer → submit request w ≡ submit_steer request w
  unfolding submit
  submit_usable_steer usable m = ground arith

  submit_unusable :
      (w.state ≡ no_client) ⊎ (w.state ≡ incompatible_client) → Agrees request w (submit request w)
  unfolding submit
  submit_unusable (inl e) = rw (e, submit) (refl, tt)
  submit_unusable (inr e) = rw (e, submit) (refl, tt)

-- The outcome of a submission to the app server is NotSubmitted exactly if no call's frame may have
-- been written. Every call carries the request's thread,
-- delivery id and message; a steer is sent only when the history shows exactly one turn in
-- progress, with the id of that turn as its fence.
pub submit-Agrees :
    {C : Type 0} (request : LocalSubmission) (w : ClientWorld C)
    → Agrees request w (submit request w)
submit-Agrees request w = elim (state_cases w.state) [
  | inr unusable ↦ submit_unusable request w unusable
  | inl usable ↦ elim (mode_cases request.mode) [
    | inl m ↦
        subst (λ r. Agrees request w r) (sym (submit_usable_queue request w usable m))
          (queue-Agrees request w m)
    | inr m ↦
        subst (λ r. Agrees request w r) (sym (submit_usable_steer request w usable m))
          (steer-Agrees request w m)
  ]
]
