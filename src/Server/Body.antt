-- ===== src/Server/Body.antt =====
-- The body of a request (`readBody` of src/server.ts).
use codexhook.Base.{
  ℕ, ◌*◌, ◌+◌, ◌≤◌, ◌≡◌, ◌↔◌, refl, ap, ◌∙◌, Bool, true, false, Option, none, some, List, [], ◌∷◌,
  ◌++◌, length, length-append, ltb, if◌then◌else◌, arith, Bool-cases, inl, inr,
}

-- `MAX_BODY_BYTES` of src/config.ts.
abbrev pub max_body_bytes : ℕ
max_body_bytes = 128 * 1024

-- The bytes, a `RangeError`, or a failure of the stream.
pub data RequestBody : Type 0 where
  complete : List ℕ → RequestBody
  too_large broken : RequestBody

abbrev after_chunk : List ℕ → RequestBody → RequestBody
after_chunk chunk (complete bytes) = complete (chunk ++ bytes)
after_chunk chunk too_large = too_large
after_chunk chunk broken = broken

-- The loop over the chunks, with the number of bytes before them.
unfoldable pub collect : ℕ → List (List ℕ) → Bool → RequestBody
collect bytes [] aborted = if aborted then broken else complete []
collect bytes (chunk ∷ chunks) aborted =
    let total = bytes + length chunk in
    let rest = collect total chunks aborted in
    if ltb max_body_bytes total then too_large else after_chunk chunk rest

abbrev declares_too_much : Option ℕ → Bool
declares_too_much none = false
declares_too_much (some n) = ltb max_body_bytes n

unfoldable pub read_body : Option ℕ → List (List ℕ) → Bool → RequestBody
read_body declared chunks aborted =
    if declares_too_much declared then too_large else collect 0 chunks aborted

abbrev pub concat : List (List ℕ) → List ℕ
concat [] = []
concat (chunk ∷ chunks) = chunk ++ concat chunks

-- The body as it should be read: everything, if it is not cut off and is not over the limit.
abbrev pub Fits : Option ℕ → List (List ℕ) → Bool → Type 0
Fits declared chunks aborted =
    (declares_too_much declared ≡ false)
    × (length (concat chunks) ≤ max_body_bytes)
    × (aborted ≡ false)

after_chunk-complete :
    (chunk bytes : List ℕ) (rest : RequestBody)
    → after_chunk chunk rest ≡ complete bytes
    → (tail : List ℕ) × (rest ≡ complete tail) × (bytes ≡ chunk ++ tail)
after_chunk-complete chunk bytes (complete tail) h = (tail, refl, ground arith)
after_chunk-complete chunk bytes too_large h = absurd (cc)
after_chunk-complete chunk bytes broken h = absurd (cc)

collect-complete :
    (n : ℕ) (chunks : List (List ℕ)) (aborted : Bool) (bytes : List ℕ)
    → collect n chunks aborted ≡ complete bytes
    → n ≤ max_body_bytes
    → (bytes ≡ concat chunks) × (n + length (concat chunks) ≤ max_body_bytes) × (aborted ≡ false)
unfolding collect
collect-complete n [] true bytes h le = absurd (cc)
collect-complete n [] false bytes h le = (ground arith, omega arith, refl)
collect-complete n (chunk ∷ chunks) aborted bytes h le =
    elim (Bool-cases (ltb max_body_bytes (n + length chunk))) [
      | inl over ↦ absurd (ground arith)
      | inr fits ↦
          let (tail, ended, joined) =
            after_chunk-complete chunk bytes (collect (n + length chunk) chunks aborted)
              (ground arith) in
          let (same, short, whole) =
            collect-complete (n + length chunk) chunks aborted tail ended (ground arith) in
          (joined ∙ ap (◌++◌ chunk) same, omega (arith, length-append chunk (concat chunks)), whole)
    ]

complete-collect :
    (n : ℕ) (chunks : List (List ℕ))
    → n + length (concat chunks) ≤ max_body_bytes
    → collect n chunks false ≡ complete (concat chunks)
unfolding collect
complete-collect n [] le = refl
complete-collect n (chunk ∷ chunks) le =
    let count = length-append chunk (concat chunks) in
    let rest = complete-collect (n + length chunk) chunks (omega arith) in ground arith

-- The body that is read is the concatenation of the chunks, and one is read exactly if the declared
-- length, where there is one, and the bytes received are not over 128 KiB and the stream has not
-- failed; chunk boundaries do not matter.
pub read_body-complete :
    (declared : Option ℕ) (chunks : List (List ℕ)) (aborted : Bool) (bytes : List ℕ)
    → (read_body declared chunks aborted ≡ complete bytes)
      ↔ ((bytes ≡ concat chunks) × Fits declared chunks aborted)
unfolding read_body
read_body-complete declared chunks aborted bytes = (
  λ h.
      let (same, short, whole) =
        collect-complete 0 chunks aborted bytes (ground arith) (omega arith) in
      (same, (ground arith, omega arith, whole)),
  λ (same, (small, short, whole)).
      let read = complete-collect 0 chunks (omega arith) in ground arith,
)
