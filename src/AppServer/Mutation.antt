-- ===== src/AppServer/Mutation.antt =====
-- A mutation of the app server (src/app-server/mutation.ts). What the peer's three steps end with
-- is given; an end that the source tells apart by a tag is a constructor.
use codexhook.Base.{Bool, true, false, not, ◌&&◌}

-- `peer.submit`: the frame was written, it was not (`RpcNotWritten`), or it failed otherwise.
pub data SubmitExit : Type 0 where
  written not_written write_fails : SubmitExit

-- `peer.reply`; `error_reply` has the code.
pub data ReplyExit (C A : Type 0) : Type 0 where
  replied : A → ReplyExit C A
  error_reply : C → ReplyExit C A
  is_disconnected is_late is_malformed is_interrupted dies : ReplyExit C A

pub data MutationOperation : Type 0 where
  turn_start turn_steer turn_interrupt : MutationOperation

pub data AmbiguousReason : Type 0 where
  write_error disconnected timeout malformed interrupted defect : AmbiguousReason

-- `CanonicalMutationResult`; the one reason of `unavailable` is `pre-submit-failure`.
pub data CanonicalMutationResult (C A : Type 0) : Type 0 where
  confirmed : MutationOperation → A → CanonicalMutationResult C A
  rejected : MutationOperation → C → CanonicalMutationResult C A
  unavailable : MutationOperation → CanonicalMutationResult C A
  ambiguous : MutationOperation → AmbiguousReason → CanonicalMutationResult C A

-- What the peer does with one request.
pub record PeerExits (C A : Type 0) : Type 0 where
  pub prepares : Bool
  pub submit : SubmitExit
  pub reply : ReplyExit C A

abbrev is_not_written : SubmitExit → Bool
is_not_written not_written = true
is_not_written _ = false

module _ {C A : Type 0} where
  unfoldable pub after_reply : MutationOperation → ReplyExit C A → CanonicalMutationResult C A
  after_reply operation (replied value) = confirmed operation value
  after_reply operation (error_reply code) = rejected operation code
  after_reply operation is_disconnected = ambiguous operation disconnected
  after_reply operation is_late = ambiguous operation timeout
  after_reply operation is_malformed = ambiguous operation malformed
  after_reply operation is_interrupted = ambiguous operation interrupted
  after_reply operation dies = ambiguous operation defect

  unfoldable pub after_submit :
      MutationOperation → SubmitExit → ReplyExit C A → CanonicalMutationResult C A
  after_submit operation not_written reply = unavailable operation
  after_submit operation write_fails reply = ambiguous operation write_error
  after_submit operation written reply = after_reply operation reply

  unfoldable pub mutate : MutationOperation → PeerExits C A → CanonicalMutationResult C A
  mutate operation peer = elim peer.prepares [
    | false ↦ unavailable operation
    | true ↦ after_submit operation peer.submit peer.reply
  ]

  -- The request may have reached the server.
  abbrev pub may_be_written : PeerExits C A → Bool
  may_be_written peer = peer.prepares && not (is_not_written peer.submit)
