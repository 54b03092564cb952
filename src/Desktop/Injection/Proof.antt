-- ===== src/Desktop/Injection/Proof.antt =====
-- The turn that `findProvenStartTurn` gives, against a baseline of an earlier state
-- (src/transport/desktop-injection.ts).
use codexhook.Base.{
  ◌≡◌, ◌⊎◌, ◌==◌, eq_iff, String, Bool, true, false, none, some, List, [], ◌∷◌, map, keep, any,
  arith, Bool-cases, List-cases, inl, inr, All, All-imply,
}
use codexhook.Base.Dict.{get, has}
use codexhook.Desktop.{Turn, StartCommand, start}
use codexhook.Desktop.State.{DesktopThreadState, turns_snapshot, has_delivery}
use codexhook.Desktop.State.Consistent.{IsConsistent, IsOwn}
use codexhook.Desktop.Injection.{
  capture_desktop_proof, has_advanced, is_later, is_novel, only_id, find_proven_start_turn,
  proves_command, proves_desktop_injection,
}

-- The ids of the turns that a state shows.
abbrev pub shows : String → DesktopThreadState → Bool
shows turn_id s = any (λ id. id == turn_id) (map (λ (turn : Turn). turn.id) (turns_snapshot s))

-- The turn is shown, and every other one that is shown was shown before.
pub record IsOnlyNew (before s : DesktopThreadState) (turn_id : String) : Type 0 where
  pub new : shows turn_id before ≡ false
  pub present : shows turn_id s ≡ true
  pub others :
      All (λ (turn : Turn). (turn.id ≡ turn_id) ⊎ (shows turn.id before ≡ true)) (turns_snapshot s)

keep-none :
    (p : String → Bool) (m : List (String × Turn)) (P : Turn → Type 0)
    → keep (λ (turn : Turn). p turn.id) (map (λ e. e.1) m) ≡ []
    → ((turn : Turn) → p turn.id ≡ false → P turn)
    → All P (map (λ e. e.1) m)
unfolding keep
keep-none p [] P h old = tt
keep-none p ((j, turn) ∷ m) P h old = elim (Bool-cases (p turn.id)) [
  | inl new ↦ absurd (ground arith)
  | inr known ↦ (old turn known, keep-none p m P (ground arith) old)
]

-- Where the search gives a turn, it is the only one that passes the test.
record IsOnly (p : String → Bool) (m : List (String × Turn)) (turn_id : String) : Type 0 where
  test : p turn_id ≡ true
  known : has turn_id m ≡ true
  shown : any (λ id. id == turn_id) (map (λ (turn : Turn). turn.id) (map (λ e. e.1) m)) ≡ true
  others : All (λ (turn : Turn). (turn.id ≡ turn_id) ⊎ (p turn.id ≡ false)) (map (λ e. e.1) m)

only_id-IsOnly :
    (p : String → Bool) (m : List (String × Turn)) (turn_id : String)
    → All IsOwn m
    → only_id (keep (λ (turn : Turn). p turn.id) (map (λ e. e.1) m)) ≡ some turn_id
    → IsOnly p m turn_id
unfolding keep any get
only_id-IsOnly p [] turn_id own h = absurd (cc)
only_id-IsOnly p ((j, turn) ∷ m) turn_id (mine, own) h = elim (Bool-cases (p turn.id)) [
  | inr old ↦
      let rest = only_id-IsOnly p m turn_id own (ground arith) in
      record {
        test = rest.test;
        known = let k = rest.known in ground arith;
        shown = let k = rest.shown in ground arith;
        others = (inr old, rest.others);
      }
  | inl new ↦ elim (List-cases (keep (λ (turn : Turn). p turn.id) (map (λ e. e.1) m))) [
    | inl nothing ↦
        let same : turn.id ≡ turn_id = ground arith in
        record {
          test = ground arith;
          known = ground (arith, eq_iff j turn_id);
          shown = ground (arith, eq_iff turn.id turn_id);
          others = (inl same, keep-none p m _ nothing (λ other old. inr old));
        }
    | inr (other, others, e) ↦ absurd (ground arith)
  ]
]

-- What the proof of a start says of the state before and the one now.
pub record Proves (command : StartCommand) (before s : DesktopThreadState) (turn_id : String)
    : Type 0 where
  pub proof :
      proves_desktop_injection
        (start command)
        s
        turn_id
        (capture_desktop_proof (start command) before)
      ≡ true
  pub only_new : IsOnlyNew before s turn_id
  pub not_delivered : has_delivery command.client_user_message_id none before ≡ false
  pub delivered : has_delivery command.client_user_message_id none s ≡ true
  pub same_generation : s.generation ≡ before.generation
  pub later : is_later before.revision s.revision ≡ true

-- From a consistent state, the turn that is found as the one of a start, against what was captured
-- of any state before, is proved to be its turn: it is shown now and was not shown then, every
-- other turn that is shown now was shown then, and the delivery is seen now and was not seen then,
-- in the same generation and at a greater revision.
pub find_proven_start_turn-Proves :
    (command : StartCommand) (before s : DesktopThreadState) (turn_id : String)
    → IsConsistent s.observed
    → find_proven_start_turn command s (capture_desktop_proof (start command) before) ≡ some turn_id
    → Proves command before s turn_id
unfolding find_proven_start_turn capture_desktop_proof proves_desktop_injection proves_command
    has_advanced is_novel
find_proven_start_turn-Proves command before s turn_id v h =
    let baseline = capture_desktop_proof (start command) before in
    let only : only_id (keep (λ (turn : Turn). is_novel baseline turn.id) (turns_snapshot s))
        ≡ some turn_id =
      ground arith in
    let found = only_id-IsOnly (is_novel baseline) s.observed.turns turn_id v.own only in
    let test = found.test in
    let known = found.known in
    let shown = found.shown in
    record {
      proof = ground arith;
      only_new = record {
        new = ground arith;
        present = shown;
        others =
            All-imply (turns_snapshot s)
              (λ turn h. elim h [ inl same ↦ inl same | inr old ↦ inr (ground arith) ])
              found.others;
      };
      not_delivered = ground arith;
      delivered = ground arith;
      same_generation = ground arith;
      later = ground arith;
    }
