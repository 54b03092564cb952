-- ===== src/Ipc/Framing/RoundTrip.antt =====
-- Frames that are written and read again (src/transport/desktop-ipc/framing.ts).
use mathlib.Core.Path.{subst}
use codexhook.Base.{
  ℕ, zero, suc, ◌/◌, ◌%◌, ◌^◌, ◌≤◌, ◌<◌, ◌≡◌, refl, ap, ◌∙◌, ◌||◌, Option, some, List, [], ◌∷◌,
  ◌++◌, length, length-append, drop, take-length, drop-length, concat, flat_map, eqb, ltb, arith,
  Bool-cases, Option-cases, inl, inr,
}
use codexhook.Base.Result.{Result, ok, err, Result-cases}
use codexhook.Json.{Json}
use codexhook.Ipc.{DesktopProtocolError}
use codexhook.Ipc.Framing.{
  FrameEvent, frame, header, uint32_le, read_uint32_le, events_of, wire_envelope, parsed_frame,
  prepend, next_frame, read_frames, read_all, push_chunks, encode_desktop_frame,
}
use codexhook.Ipc.Framing.Frames.{frame_at, frame-less, read_once-frame}
use codexhook.Ipc.Framing.Chunks.{push_chunks-concat}

uint32_round_trip :
    (n : ℕ)
    → n < 2 ^ 32
    → read_uint32_le (n % 256) (n / 256 % 256) (n / 65536 % 256) (n / 16777216 % 256) ≡ n
uint32_round_trip n h = omega arith

-- The frames of some values one after the other.
unfoldable pub encode_all :
    (Json → Option (List ℕ)) → ℕ → List Json → Result DesktopProtocolError (List ℕ)
encode_all stringify max [] = ok []
encode_all stringify max (value ∷ values) = elim (encode_desktop_frame stringify max value) [
  | err failure ↦ err failure
  | ok bytes ↦ elim (encode_all stringify max values) [
    | err failure ↦ err failure
    | ok more ↦ ok (bytes ++ more)
  ]
]

-- What a value leads to at the other end.
abbrev pub received : List Json → List FrameEvent
received values = flat_map (λ value. events_of (wire_envelope value)) values

module _ (stringify : Json → Option (List ℕ)) (parse : List ℕ → Option Json) (max_out max_in : ℕ)
    (round_trip : (value : Json) (body : List ℕ)
      → stringify value ≡ some body
      → parse body ≡ some value)
    (fits : max_out ≤ max_in) (small : max_out < 2 ^ 32) where
  encoded-frame :
      (value : Json) (bytes more : List ℕ)
      → encode_desktop_frame stringify max_out value ≡ ok bytes
      → next_frame parse max_in (bytes ++ more) ≡ frame (events_of (wire_envelope value)) more
  unfolding encode_desktop_frame header
  encoded-frame value bytes more h = elim (Option-cases (stringify value)) [
    | inl nothing ↦ absurd (ground arith)
    | inr (body, printed) ↦ elim (Bool-cases (eqb (length body) 0 || ltb max_out (length body))) [
      | inl refused ↦ absurd (ground arith)
      | inr sound ↦
          let same : uint32_le (length body) ++ body ≡ bytes = ground arith in
          let size = uint32_round_trip (length body) (ground arith) in
          let head : header ((uint32_le (length body) ++ body) ++ more)
              ≡ some (length body, body ++ more) =
            ap (λ n. some (n, body ++ more)) size in
          subst
            (λ bytes.
              next_frame parse max_in (bytes ++ more)
              ≡ frame (events_of (wire_envelope value)) more)
            same
            (frame_at parse max_in ((uint32_le (length body) ++ body) ++ more) (body ++ more)
                (length body) head (ground arith) (ground (arith, length-append body more))
              ∙ (ap (λ t. parsed_frame (parse t) (drop (length body) (body ++ more)))
                    (take-length body more)
                  ∙ (ap (λ v. parsed_frame v (drop (length body) (body ++ more)))
                        (round_trip value body printed)
                      ∙ ap (frame (events_of (wire_envelope value))) (drop-length body more))))
    ]
  ]

  read-encode_all :
      (values : List Json) (bytes : List ℕ) (n : ℕ)
      → length bytes < n
      → encode_all stringify max_out values ≡ ok bytes
      → read_frames parse max_in n bytes ≡ ok (received values, [])
  unfolding encode_all flat_map read_frames next_frame header
  read-encode_all values bytes zero h e = absurd (omega arith)
  read-encode_all [] bytes (suc n) h e =
      let same : [] ≡ bytes = ground arith in
      subst (λ bytes. read_frames parse max_in (suc n) bytes ≡ ok ([], [])) same refl
  read-encode_all (value ∷ values) bytes (suc n) h e =
      elim (Result-cases (encode_desktop_frame stringify max_out value)) [
        | inl (failure, q) ↦ absurd (ground arith)
        | inr (first, q) ↦ elim (Result-cases (encode_all stringify max_out values)) [
          | inl (failure, r) ↦ absurd (ground arith)
          | inr (more, r) ↦
              let same : first ++ more ≡ bytes = ground arith in
              let next = encoded-frame value first more q in
              let less = frame-less parse max_in (first ++ more) more _ next in
              let whole = ap length same in
              subst
                (λ bytes.
                  read_frames parse max_in (suc n) bytes ≡ ok (received (value ∷ values), []))
                same
                (read_once-frame parse max_in n (first ++ more) more _ next
                  ∙ ap (prepend (events_of (wire_envelope value)))
                      (read-encode_all values more n (omega arith) r))
        ]
      ]

  -- Where JSON values are read back as they were written, the frames of a list of values, however
  -- their bytes are cut into chunks, lead to the events of the values in their order, with nothing
  -- left in the buffer, provided that the limit of the writer is not over that of the reader and is
  -- below 2 ^ 32.
  pub push_chunks-encode_all :
      (values : List Json) (chunks : List (List ℕ))
      → encode_all stringify max_out values ≡ ok (concat chunks)
      → push_chunks parse max_in [] chunks ≡ ok (received values, [])
  unfolding read_all
  push_chunks-encode_all values chunks e =
      push_chunks-concat parse max_in chunks
      ∙ read-encode_all values (concat chunks) (suc (length (concat chunks))) (omega arith) e
