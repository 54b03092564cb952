-- ===== src/Desktop/Attachment/Told.antt =====
-- What the outcome of an injection tells about the write (src/transport/desktop-attachment.ts).
use codexhook.Base.{
  String, ◌≡◌, refl, ◌∙◌, Bool, true, false, not, ◌&&◌, Option, none, some, arith, Bool-cases, inl,
  inr,
}
use codexhook.Base.Result.{Result, ok, err}
use codexhook.Contracts.{OutcomeTag, not_submitted_tag, tag_of}
use codexhook.Types.{DeliveryMode}
use codexhook.Desktop.{Turn, DesktopCommand}
use codexhook.Desktop.State.{DesktopThreadState, idle, injecting, turn_of, set_injection}
use codexhook.Desktop.Injection.{DesktopProofBaseline, capture_desktop_proof}
use codexhook.Ipc.{DesktopProtocolError}
use codexhook.Ipc.Adapters.{ReceiptOutcome, accepted}
use codexhook.Desktop.Attachment.{
  is_unknown, is_not_written, reply_of, is_confirmed, is_not_submitted, is_rejected, is_ambiguous,
  Injected, is_invalid, proven_turn_id, World, confirm_turn, confirm, await_proof, after_reply,
  inject_following, inject, route_outcome,
}

abbrev pub Ending : Type 0
Ending = Result (Option DesktopProtocolError) (ReceiptOutcome (Option String))

-- The request ended in a way that rules out that the task has got the command: the error says that
-- nothing was written, or the application has rejected it for a reason that is known.
abbrev pub is_ruled_out : Ending → Bool
is_ruled_out (ok (accepted turn_id)) = false
is_ruled_out (ok (ReceiptOutcome.rejected reason)) = not (is_unknown reason)
is_ruled_out (err none) = false
is_ruled_out (err (some cause)) = is_not_written cause.write_state

-- The request was made, from the state before the injection.
abbrev pub is_sent : World → DesktopCommand → DesktopThreadState → Bool
is_sent world command s =
    world.follows && not (is_invalid command (world.during_follow (set_injection idle s)))

abbrev pub is_not_submitted_tag : OutcomeTag → Bool
is_not_submitted_tag not_submitted_tag = true
is_not_submitted_tag _ = false

-- The outcome says that nothing was submitted.
abbrev says_nothing : Injected → Bool
says_nothing (is_not_submitted reason, s) = true
says_nothing _ = false

confirm-says_nothing :
    (turn_id : String) (turn : Option Turn) (s : DesktopThreadState)
    → says_nothing (confirm turn_id turn s) ≡ false
confirm-says_nothing turn_id none s = refl
confirm-says_nothing turn_id (some turn) s = refl

confirm_turn-says_nothing :
    (turn_id : Option String) (s : DesktopThreadState)
    → says_nothing (confirm_turn turn_id s) ≡ false
confirm_turn-says_nothing none s = refl
confirm_turn-says_nothing (some turn_id) s = confirm-says_nothing turn_id (turn_of turn_id s) s

module _ (world : World) (command : DesktopCommand) where
  await_proof-says_nothing :
      (baseline : DesktopProofBaseline) (turn_id : Option String) (s : DesktopThreadState)
      → says_nothing (await_proof world command baseline turn_id s) ≡ false
  unfolding await_proof
  await_proof-says_nothing baseline turn_id s = elim (Bool-cases (not world.in_time)) [
    | inl late ↦ rw (late, await_proof) refl
    | inr timely ↦
        rw (timely, await_proof)
          (confirm_turn-says_nothing (proven_turn_id command (world.during_wait s) turn_id baseline)
            (world.during_wait s))
  ]

  after_reply-says_nothing :
      (baseline : DesktopProofBaseline) (ending : Ending) (s : DesktopThreadState)
      → says_nothing (after_reply world command baseline (reply_of ending) s) ≡ is_ruled_out ending
  unfolding after_reply reply_of
  after_reply-says_nothing baseline (ok (accepted turn_id)) s =
      await_proof-says_nothing baseline _ s
  after_reply-says_nothing baseline (ok (ReceiptOutcome.rejected reason)) s = ground arith
  after_reply-says_nothing baseline (err none) s = await_proof-says_nothing baseline _ s
  after_reply-says_nothing baseline (err (some cause)) s =
      elim (Bool-cases (is_not_written cause.write_state)) [
        | inl nothing ↦ rw (nothing, after_reply, reply_of) refl
        | inr something ↦
            rw (something, after_reply, reply_of)
              (rw something (await_proof-says_nothing baseline _ s))
      ]

  following-says_nothing :
      (ending : Ending) (s : DesktopThreadState)
      → world.reply ≡ reply_of ending
      → says_nothing (inject_following world command s)
        ≡ not (not (is_invalid command s) && not (is_ruled_out ending))
  unfolding inject_following
  following-says_nothing ending s ends = elim (Bool-cases (is_invalid command s)) [
    | inl invalid ↦ rw (invalid, inject_following) refl
    | inr valid ↦
        let told =
          after_reply-says_nothing (capture_desktop_proof command s) ending
            (world.during_write (set_injection injecting s)) in
        rw (valid, inject_following, ends) (ground arith)
  ]

  inject-says_nothing :
      (ending : Ending) (s : DesktopThreadState)
      → world.reply ≡ reply_of ending
      → says_nothing (inject world command s)
        ≡ not (is_sent world command s && not (is_ruled_out ending))
  unfolding inject
  inject-says_nothing ending s ends = elim (Bool-cases world.follows) [
    | inl follows ↦
        let told =
          following-says_nothing ending (world.during_follow (set_injection idle s)) ends in
        rw (follows, inject) (ground arith)
    | inr lost ↦ rw (lost, inject) refl
  ]

  route_outcome-says_nothing :
      (delivery_id : String) (mode : DeliveryMode) (injected : Injected)
      → is_not_submitted_tag (tag_of (route_outcome delivery_id mode injected.0))
        ≡ says_nothing injected
  unfolding route_outcome
  route_outcome-says_nothing delivery_id mode (is_confirmed turn_id turn, s) = refl
  route_outcome-says_nothing delivery_id mode (is_not_submitted reason, s) = refl
  route_outcome-says_nothing delivery_id mode (is_rejected, s) = refl
  route_outcome-says_nothing delivery_id mode (is_ambiguous, s) = refl

  -- Whatever happens to the task during an injection, the outcome of a submission to the desktop is
  -- NotSubmitted exactly if the request was not made, since the task could not be followed or the
  -- command did not fit its state, or if its end rules out that the task has got the command: the
  -- error says that nothing was written, or the rejection is one that is known.
  pub inject-tells :
      (ending : Ending) (delivery_id : String) (mode : DeliveryMode) (s : DesktopThreadState)
      → world.reply ≡ reply_of ending
      → is_not_submitted_tag (tag_of (route_outcome delivery_id mode (inject world command s).0))
        ≡ not (is_sent world command s && not (is_ruled_out ending))
  inject-tells ending delivery_id mode s ends =
      route_outcome-says_nothing delivery_id mode (inject world command s)
      ∙ inject-says_nothing ending s ends
