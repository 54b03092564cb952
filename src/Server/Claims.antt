-- ===== src/Server/Claims.antt =====
-- What a request leads to in the registry and the delivery service (src/server.ts).
use mathlib.Core.Path.{subst}
use codexhook.Base.{
  ℕ, ◌≡◌, ◌⊎◌, refl, sym, ◌∙◌, String, Bool, true, false, none, some, List, arith, eqb,
  if◌then◌else◌, Bool-cases, Option-cases, inl, inr, ◌&&◌, ◌==◌,
}
use codexhook.Types.{WebhookRecord}
use codexhook.Lifecycle.{enter}
use codexhook.RateLimit.{allow}
use codexhook.Registry.{Table, inspect_token, claim_token}
use codexhook.Delivery.{Service, submit}
use codexhook.Server.{
  Server, Exchange, Reply, status, reply_to, handle_health, handle_claim, handle_body, handle_hook,
  handle_token, handle_route, handle_request, handle,
}
use codexhook.Server.Address.{route_token, ends_with}
use codexhook.Server.Body.{RequestBody, complete, too_large, broken, read_body}

-- No other request reaches the delivery service meanwhile.
abbrev pub IsAlone : Exchange → Type 0
IsAlone x =
    ((s : Server) → (x.during_authorize s).service ≡ s.service)
    × ((s : Server) → (x.during_body s).service ≡ s.service)

-- Answered with 202.
abbrev pub is_taken : Reply → Bool
is_taken reply = elim (status reply) [ none ↦ false | some code ↦ eqb code 202 ]

no_health_code : (up : Bool) → eqb (if up then 200 else 503) 202 ≡ false
no_health_code true = refl
no_health_code false = refl

RequestBody-cases :
    (b : RequestBody) → ((bytes : List ℕ) × (b ≡ complete bytes)) ⊎ ((b ≡ too_large) ⊎ (b ≡ broken))
RequestBody-cases (complete bytes) = inl (bytes, refl)
RequestBody-cases too_large = inr (inl refl)
RequestBody-cases broken = inr (inr refl)

-- The state with the request's ticket.
abbrev pub entered : Server → Server
entered s = record s { lifecycle = (enter s.lifecycle).1 }

module _ (token_hash : String → String) (limit window : ℕ) (x : Exchange) (before : Service) where
  -- One claim of a hook in the table, and one submission of its message.
  abbrev pub IsServed : Table → String → Reply → Server → Type 0
  IsServed table token reply last =
      (hook : WebhookRecord) × (bytes : List ℕ) × (claim_token token_hash table token x.claim_time
        ≡ (some hook, last.table))
      × (read_body x.declared_length x.chunks x.aborted ≡ complete bytes)
      × (last.service ≡ (submit before hook (x.decode bytes) x.delivery_id).1)
      × (reply ≡ reply_to hook (submit before hook (x.decode bytes) x.delivery_id).0)

  abbrev pub IsRefused : Reply → Server → Type 0
  IsRefused reply last = (is_taken reply ≡ false) × (last.service ≡ before)

  abbrev Either : Table → String → Reply × Server → Type 0
  Either table token (reply, last) = IsServed table token reply last ⊎ IsRefused reply last

  claim-Either :
      (s : Server) (token : String) (bytes : List ℕ)
      → s.service ≡ before
      → read_body x.declared_length x.chunks x.aborted ≡ complete bytes
      → Either s.table token (handle_claim token_hash limit window s x token (x.decode bytes))
  unfolding handle_claim
  claim-Either s token bytes same read =
      elim (Option-cases (claim_token token_hash s.table token x.claim_time).0) [
        | inl missing ↦ rw (missing, handle_claim) (inr (refl, same))
        | inr (hook, found) ↦
            rw (found, same, handle_claim) (inl (hook, bytes, refl, read, refl, refl))
      ]

  body_read :
      (s : Server) (token : String) (bytes : List ℕ)
      → read_body x.declared_length x.chunks x.aborted ≡ complete bytes
      → handle_body token_hash limit window s x token
        ≡ handle_claim token_hash limit window (x.during_body s) x token (x.decode bytes)
  unfolding handle_body
  body_read s token bytes read = rw (read, handle_body) refl

  -- The state in which the claim is made, for the state and the hook after the inspection: what
  -- others did during the authorization, the count of the limiter, and what others did while the
  -- body was read.
  abbrev pub at_claim : Server → WebhookRecord → Server
  at_claim checked hook =
      let later = x.during_authorize checked in
      x.during_body
        (record later { events = (allow limit window later.events hook.thread_id x.allow_time).1 })

  -- The state after the inspection, from the state with the ticket.
  abbrev pub after_inspection : Server → String → Server
  after_inspection s token = record s {
    table = (inspect_token token_hash s.table token x.inspect_time).1;
  }

  -- Served with the hook that the inspection has found, or refused.
  abbrev pub Inspected : Server → String → Reply × Server → Type 0
  Inspected s token (reply, last) =
      ((hook : WebhookRecord) × ((inspect_token token_hash s.table token x.inspect_time).0
          ≡ some hook)
        × IsServed (at_claim (after_inspection s token) hook).table token reply last)
      ⊎ IsRefused reply last

  inspected :
      (s : Server) (token : String) (hook : WebhookRecord) (r : Reply × Server)
      → (inspect_token token_hash s.table token x.inspect_time).0 ≡ some hook
      → Either (at_claim (after_inspection s token) hook).table token r
      → Inspected s token r
  inspected s token hook r found (inl served) = inl (hook, found, served)
  inspected s token hook r found (inr refused) = inr refused

  hook_found :
      (s : Server) (token : String) (hook : WebhookRecord)
      → (inspect_token token_hash s.table token x.inspect_time).0 ≡ some hook
      → handle_token token_hash limit window s x token
        ≡ handle_hook token_hash limit window (after_inspection s token) x token hook
  unfolding handle_token
  hook_found s token hook found = rw (found, handle_token) refl

  module _ (alone : IsAlone x) where
    body-Either :
        (s : Server) (token : String)
        → s.service ≡ before
        → Either (x.during_body s).table token (handle_body token_hash limit window s x token)
    unfolding handle_body
    body-Either s token same =
        elim (RequestBody-cases (read_body x.declared_length x.chunks x.aborted)) [
          | inl (bytes, read) ↦
              subst (λ r. Either (x.during_body s).table token r)
                (sym (body_read s token bytes read))
                (claim-Either (x.during_body s) token bytes (alone.1 s ∙ same) read)
          | inr (inl over) ↦ rw (over, handle_body) (inr (refl, alone.1 s ∙ same))
          | inr (inr failed) ↦ rw (failed, handle_body) (inr (refl, alone.1 s ∙ same))
        ]

    hook-Either :
        (s : Server) (token : String) (hook : WebhookRecord)
        → s.service ≡ before
        → Either (at_claim s hook).table token (handle_hook token_hash limit window s x token hook)
    unfolding handle_hook
    hook-Either s token hook same = elim (Option-cases (x.authorizes hook)) [
      | inl throws ↦ rw (throws, handle_hook) (inr (refl, alone.0 s ∙ same))
      | inr (false, refused) ↦ rw (refused, handle_hook) (inr (refl, alone.0 s ∙ same))
      | inr (true, authorized) ↦
          let kept = alone.0 s ∙ same in
          elim (Bool-cases
            (allow limit window (x.during_authorize s).events hook.thread_id x.allow_time).0) [
              | inl within ↦ rw (authorized, within, handle_hook) (body-Either _ token kept)
              | inr over ↦ rw (authorized, over, handle_hook) (inr (refl, kept))
            ]
    ]

    token-Either :
        (s : Server) (token : String)
        → s.service ≡ before
        → Inspected s token (handle_token token_hash limit window s x token)
    unfolding handle_token
    token-Either s token same =
        elim (Option-cases (inspect_token token_hash s.table token x.inspect_time).0) [
          | inl missing ↦ rw (missing, handle_token) (inr (refl, same))
          | inr (hook, found) ↦
              subst (λ r. Inspected s token r) (sym (hook_found s token hook found))
                (inspected s token hook
                  (handle_hook token_hash limit window (after_inspection s token) x token hook)
                  found (hook-Either (after_inspection s token) token hook same))
        ]

  -- The same for the whole handler, with the token of the address.
  abbrev pub Outcome : Server → String → Reply × Server → Type 0
  Outcome s path (reply, last) =
      ((token : String) × (hook : WebhookRecord) × (route_token path ≡ some token)
        × ((inspect_token token_hash s.table token x.inspect_time).0 ≡ some hook)
        × IsServed (at_claim (after_inspection s token) hook).table token reply last)
      ⊎ IsRefused reply last

  with_token :
      (s : Server) (path token : String) (r : Reply × Server)
      → route_token path ≡ some token
      → Inspected s token r
      → Outcome s path r
  with_token s path token r found (inl (hook, known, served)) =
      inl (token, hook, found, known, served)
  with_token s path token r found (inr refused) = inr refused

  route_found :
      (s : Server) (path token : String)
      → (x.method == "POST") ≡ true
      → route_token path ≡ some token
      → handle_route token_hash limit window s x path
        ≡ handle_token token_hash limit window s x token
  unfolding handle_route
  route_found s path token post found = rw (post, found, handle_route) refl

  route-Outcome :
      (s : Server) (path : String)
      → IsAlone x
      → s.service ≡ before
      → Outcome s path (handle_route token_hash limit window s x path)
  unfolding handle_route
  route-Outcome s path alone same = elim (Bool-cases (x.method == "POST")) [
    | inr other ↦ rw (other, handle_route) (inr (refl, same))
    | inl post ↦ elim (Option-cases (route_token path)) [
      | inl missing ↦ rw (post, missing, handle_route) (inr (refl, same))
      | inr (token, found) ↦
          subst (λ r. Outcome s path r) (sym (route_found s path token post found))
            (with_token s path token (handle_token token_hash limit window s x token) found
              (token-Either alone s token same))
    ]
  ]

  request-Outcome :
      (s : Server) (path : String)
      → IsAlone x
      → s.service ≡ before
      → Outcome (entered s) path (handle_request token_hash limit window s x path)
  unfolding handle_request
  request-Outcome s path alone same = elim (Option-cases (enter s.lifecycle).0) [
    | inl closed ↦ rw (closed, handle_request) (inr (refl, same))
    | inr (ticket, opened) ↦ rw (opened, handle_request) (route-Outcome (entered s) path alone same)
  ]

  health-taken :
      (s : Server)
      → IsAlone x
      → s.service ≡ before
      → IsRefused (handle_health s x).0 (handle_health s x).1
  unfolding handle_health
  health-taken s alone same = elim (Option-cases x.authorizes_health) [
    | inl throws ↦ rw (throws, handle_health) (refl, alone.0 s ∙ same)
    | inr (false, refused) ↦ rw (refused, handle_health) (refl, alone.0 s ∙ same)
    | inr (true, authorized) ↦ rw (authorized, handle_health) (no_health_code _, alone.0 s ∙ same)
  ]

module _ (token_hash : String → String) (limit window : ℕ) (s : Server) (x : Exchange)
    (path : String) (found : x.path ≡ some path) where
  handle_is_health :
      ((x.method == "GET") && ends_with path "/healthz") ≡ true
      → handle token_hash limit window s x ≡ handle_health s x
  unfolding handle
  handle_is_health health = ground arith

  handle_is_request :
      ((x.method == "GET") && ends_with path "/healthz") ≡ false
      → handle token_hash limit window s x ≡ handle_request token_hash limit window s x path
  unfolding handle
  handle_is_request other = ground arith

-- A request whose address parses, while no other one reaches the delivery service: either an
-- inspection has found the hook of its token, the hook was then claimed once, in the table as it was
-- when the whole body had been read, which is the table that stays, and the message was submitted
-- once to the service, and the reply is that of the submission; or it is not answered with 202 and
-- the service is as before.
pub handle-Outcome :
    (token_hash : String → String) (limit window : ℕ) (s : Server) (x : Exchange) (path : String)
    → IsAlone x
    → x.path ≡ some path
    → Outcome token_hash limit window x s.service
        (entered s)
        path
        (handle token_hash limit window s x)
handle-Outcome token_hash limit window s x path alone found =
    elim (Bool-cases ((x.method == "GET") && ends_with path "/healthz")) [
      | inl health ↦
          subst (λ r. Outcome token_hash limit window x s.service (entered s) path r)
            (sym (handle_is_health token_hash limit window s x path found health))
            (inr (health-taken token_hash limit window x s.service s alone refl))
      | inr other ↦
          subst (λ r. Outcome token_hash limit window x s.service (entered s) path r)
            (sym (handle_is_request token_hash limit window s x path found other))
            (request-Outcome token_hash limit window x s.service s path alone refl)
    ]
