-- ===== src/Ipc/Framing/Examples.antt =====
-- The frames of two values in three chunks. The printer and the parser know those two values.
use mathlib.Core.Path.{subst}
use codexhook.Base.{
  ℕ, ◌≡◌, refl, ◌==◌, eq_iff, ◌&&◌, Option, none, some, List, [], ◌∷◌, ◌++◌, arith, eqb, Bool-cases,
  inl, inr, concat, if◌then◌else◌,
}
use codexhook.Base.Result.{ok}
use codexhook.Json.{Json, null, text, object, no_members, member}
use codexhook.Ipc.Framing.{push_chunks, read_all, encode_desktop_frame}
use codexhook.Ipc.Framing.Chunks.{push_chunks-concat}
use codexhook.Ipc.Framing.RoundTrip.{encode_all, received, push_chunks-encode_all}

abbrev hello : Json
hello = object (member "type" (text "x") no_members)

-- `{"type":"x"}`.
abbrev hello_bytes : List ℕ
hello_bytes = 123 ∷ 34 ∷ 116 ∷ 121 ∷ 112 ∷ 101 ∷ 34 ∷ 58 ∷ 34 ∷ 120 ∷ 34 ∷ 125 ∷ []

abbrev null_bytes : List ℕ
null_bytes = 110 ∷ 117 ∷ 108 ∷ 108 ∷ []

stringify : Json → Option (List ℕ)
stringify null = some null_bytes
stringify (object (member key (text t) no_members)) =
    if (key == "type") && (t == "x") then some hello_bytes else none
stringify _ = none

parse : List ℕ → Option Json
parse [] = none
parse (byte ∷ bytes) =
    if eqb byte 123 then some hello else (if eqb byte 110 then some null else none)

parse-stringify :
    (value : Json) (body : List ℕ) → stringify value ≡ some body → parse body ≡ some value
unfolding stringify parse
parse-stringify null body h =
    let same : null_bytes ≡ body = ground arith in
    subst (λ bytes. parse bytes ≡ some null) same refl
parse-stringify (object (member key (text t) no_members)) body h =
    elim (Bool-cases ((key == "type") && (t == "x"))) [
      | inl known ↦
          let same : hello_bytes ≡ body = ground arith in
          subst (λ bytes. parse bytes ≡ some (object (member key (text t) no_members))) same
            (ground (arith, eq_iff key "type", eq_iff t "x"))
      | inr other ↦ absurd (ground arith)
    ]
parse-stringify _ body h = absurd (ground arith)

abbrev chunks : List (List ℕ)
chunks = (12 ∷ 0 ∷ 0 ∷ []) ∷ (0 ∷ hello_bytes ++ 4 ∷ []) ∷ (0 ∷ 0 ∷ 0 ∷ null_bytes) ∷ []

push_chunks-concat_example : push_chunks parse 64 [] chunks ≡ read_all parse 64 (concat chunks)
push_chunks-concat_example = push_chunks-concat parse 64 chunks

push_chunks-encode_all_example :
    push_chunks parse 64 [] chunks ≡ ok (received (hello ∷ null ∷ []), [])
unfolding encode_all encode_desktop_frame stringify
push_chunks-encode_all_example =
    push_chunks-encode_all stringify parse 32 64 parse-stringify (omega arith) (omega arith)
      (hello ∷ null ∷ []) chunks refl
