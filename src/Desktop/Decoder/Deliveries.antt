-- ===== src/Desktop/Decoder/Deliveries.antt =====
-- The search for delivery ids in a value (`deliveryIds` of src/transport/desktop-task-decoder.ts).
use codexhook.Base.{
  ℕ, zero, suc, ◌+◌, ◌≤◌, ◌≡◌, refl, ap, ◌∙◌, ◌==◌, eq_iff, String, Bool, false, ◌||◌, ◌&&◌, some,
  List, [], ◌∷◌, ◌++◌, any, arith, Bool-cases, inl, inr, if◌then◌else◌,
}
use codexhook.Json.{
  Json, null, boolean, number, text, array, object, Items, no_items, item, Members, no_members,
  member, weight, weight_items, weight_members,
}
use codexhook.Desktop.Decoder.{visit_members, push_items, visit, search_ids, delivery_ids}

-- Does the id stand, as a text, at a key `clientUserMessageId` somewhere in the value?
unfoldable mutual
  pub occurs : String → Json → Bool
  occurs id null = false
  occurs id (boolean b) = false
  occurs id (number n) = false
  occurs id (text t) = false
  occurs id (array items) = occurs_items id items
  occurs id (object members) = occurs_members id members

  pub occurs_items : String → Items → Bool
  occurs_items id no_items = false
  occurs_items id (item value items) = occurs id value || occurs_items id items

  pub occurs_members : String → Members → Bool
  occurs_members id no_members = false
  occurs_members id (member key value members) =
      (key == "clientUserMessageId" && text_is id value)
      || (occurs id value || occurs_members id members)

  pub text_is : String → Json → Bool
  text_is id (text t) = t == id
  text_is id _ = false

abbrev pub contains : String → List String → Bool
contains id found = any (λ other. other == id) found

abbrev stack_weight : List Json → ℕ
stack_weight [] = 0
stack_weight (value ∷ pending) = weight value + stack_weight pending

contains-append :
    (id new : String) (found : List String)
    → contains id (found ++ new ∷ []) ≡ ((new == id) || contains id found)
unfolding any
contains-append id new [] = ground arith
contains-append id new (x ∷ found) = ground (arith, contains-append id new found)

contains-add :
    (id new : String) (found : List String)
    → contains id (if contains new found then found else found ++ new ∷ [])
      ≡ ((new == id) || contains id found)
contains-add id new found = elim (Bool-cases (contains new found)) [
  | inl old ↦ ground (arith, eq_iff new id)
  | inr fresh ↦ ground (arith, contains-append id new found)
]

-- What the search has found and what it may still find.
abbrev finds : String → List String × List Json → Bool
finds id (found, pending) = contains id found || any (occurs id) pending

or-false : (b : Bool) → b ≡ (b || false)
or-false b = ground arith

or_comm : (a b : Bool) → (a || b) ≡ (b || a)
or_comm a b = ground arith

-- A value that is found later, and an id that is found at once.
or-later : (k c v p m : Bool) → ((c || (v || p)) || m) ≡ ((c || p) || ((k && false) || (v || m)))
or-later k c v p m = ground arith

or-now : (a c p m : Bool) → (((a || c) || p) || m) ≡ ((c || p) || (a || m))
or-now a c p m = ground arith

or-pushed : (v p m : Bool) → ((v || p) || m) ≡ (p || (v || m))
or-pushed v p m = ground arith

or-right : (c p m : Bool) → ((c || p) || m) ≡ (c || (m || p))
or-right c p m = ground arith

later :
    (id key : String) (value : Json) (members : Members) (found : List String) (pending : List Json)
    (result : Bool)
    → result ≡ (finds id (found, value ∷ pending) || occurs_members id members)
    → result ≡ (
        finds id (found, pending)
        || (((key == "clientUserMessageId") && false)
            || (occurs id value || occurs_members id members)))
unfolding any
later id key value members found pending result h =
    h
    ∙ or-later (key == "clientUserMessageId") (contains id found) (occurs id value)
        (any (occurs id) pending) (occurs_members id members)

visit_members-occurs :
    (id : String) (members : Members) (found : List String) (pending : List Json)
    → finds id (visit_members members found pending)
      ≡ (finds id (found, pending) || occurs_members id members)
unfolding visit_members occurs any
visit_members-occurs id no_members found pending = or-false _
visit_members-occurs id (member key (text t) members) found pending =
    elim (Bool-cases (key == "clientUserMessageId")) [
      | inr other ↦
          rw (other, visit_members) (visit_members-occurs id members found (text t ∷ pending))
      | inl here ↦
          rw (here, visit_members)
            (visit_members-occurs id members (if contains t found then found else found ++ t ∷ [])
                pending
              ∙ (ap (λ b. (b || any (occurs id) pending) || occurs_members id members)
                    (contains-add id t found)
                  ∙ or-now (t == id) (contains id found) (any (occurs id) pending)
                      (occurs_members id members)))
    ]
visit_members-occurs id (member key null members) found pending =
    later id key null members found pending _
      (visit_members-occurs id members found (null ∷ pending))
visit_members-occurs id (member key (boolean b) members) found pending =
    later id key (boolean b) members found pending _
      (visit_members-occurs id members found (boolean b ∷ pending))
visit_members-occurs id (member key (number n) members) found pending =
    later id key (number n) members found pending _
      (visit_members-occurs id members found (number n ∷ pending))
visit_members-occurs id (member key (array items) members) found pending =
    later id key (array items) members found pending _
      (visit_members-occurs id members found (array items ∷ pending))
visit_members-occurs id (member key (object inner) members) found pending =
    later id key (object inner) members found pending _
      (visit_members-occurs id members found (object inner ∷ pending))

push_items-occurs :
    (id : String) (items : Items) (pending : List Json)
    → any (occurs id) (push_items items pending)
      ≡ (any (occurs id) pending || occurs_items id items)
unfolding push_items any occurs
push_items-occurs id no_items pending = or-false _
push_items-occurs id (item value items) pending =
    push_items-occurs id items (value ∷ pending)
    ∙ or-pushed (occurs id value) (any (occurs id) pending) (occurs_items id items)

visit-occurs :
    (id : String) (value : Json) (found : List String) (pending : List Json)
    → finds id (visit value found pending) ≡ finds id (found, value ∷ pending)
unfolding visit any occurs
visit-occurs id null found pending = refl
visit-occurs id (boolean b) found pending = refl
visit-occurs id (number n) found pending = refl
visit-occurs id (text t) found pending = refl
visit-occurs id (array items) found pending =
    ap (λ b. contains id found || b)
      (push_items-occurs id items pending
        ∙ or_comm (any (occurs id) pending) (occurs_items id items))
visit-occurs id (object members) found pending =
    visit_members-occurs id members found pending
    ∙ or-right (contains id found) (any (occurs id) pending) (occurs_members id members)

visit_members-weight :
    (members : Members) (found : List String) (pending : List Json)
    → stack_weight (visit_members members found pending).1
      ≤ weight_members members + stack_weight pending
unfolding visit_members weight
visit_members-weight no_members found pending = omega arith
visit_members-weight (member key (text t) members) found pending = ground (
  arith,
  visit_members-weight members found (text t ∷ pending),
  visit_members-weight members (if contains t found then found else found ++ t ∷ []) pending,
)
visit_members-weight (member key null members) found pending =
    ground (arith, visit_members-weight members found (null ∷ pending))
visit_members-weight (member key (boolean b) members) found pending =
    ground (arith, visit_members-weight members found (boolean b ∷ pending))
visit_members-weight (member key (number n) members) found pending =
    ground (arith, visit_members-weight members found (number n ∷ pending))
visit_members-weight (member key (array items) members) found pending =
    ground (arith, visit_members-weight members found (array items ∷ pending))
visit_members-weight (member key (object inner) members) found pending =
    ground (arith, visit_members-weight members found (object inner ∷ pending))

push_items-weight :
    (items : Items) (pending : List Json)
    → stack_weight (push_items items pending) ≤ weight_items items + stack_weight pending
unfolding push_items weight
push_items-weight no_items pending = omega arith
push_items-weight (item value items) pending =
    ground (arith, push_items-weight items (value ∷ pending))

-- A turn of the loop takes weight off the stack.
visit-weight :
    (value : Json) (found : List String) (pending : List Json)
    → suc (stack_weight (visit value found pending).1) ≤ weight value + stack_weight pending
unfolding visit weight
visit-weight null found pending = omega arith
visit-weight (boolean b) found pending = omega arith
visit-weight (number n) found pending = omega arith
visit-weight (text t) found pending = omega arith
visit-weight (array items) found pending = ground (arith, push_items-weight items pending)
visit-weight (object members) found pending =
    ground (arith, visit_members-weight members found pending)

search_ids-occurs :
    (id : String) (n : ℕ) (found : List String) (pending : List Json)
    → stack_weight pending ≤ n
    → contains id (search_ids n found pending) ≡ finds id (found, pending)
unfolding search_ids any
search_ids-occurs id zero found [] h = ground arith
search_ids-occurs id zero found (value ∷ pending) h =
    let less = visit-weight value found pending in absurd (omega arith)
search_ids-occurs id (suc n) found [] h = ground arith
search_ids-occurs id (suc n) found (value ∷ pending) h =
    let step = visit value found pending in
    let less = visit-weight value found pending in
    ground (
      arith,
      search_ids-occurs id n step.0 step.1 (omega arith),
      visit-occurs id value found pending,
    )

-- The ids that the search with its stack gives are those that stand, as texts, at a key
-- `clientUserMessageId` somewhere in the value, at any depth; the bound of the loop is enough.
pub delivery_ids-occurs :
    (id : String) (value : Json) → contains id (delivery_ids (some value)) ≡ occurs id value
unfolding delivery_ids any
delivery_ids-occurs id value =
    ground (arith, search_ids-occurs id (weight value) [] (value ∷ []) (omega arith))
