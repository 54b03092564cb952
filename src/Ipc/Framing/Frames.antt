-- ===== src/Ipc/Framing/Frames.antt =====
-- One turn of the decoder's loop and the whole loop (src/transport/desktop-ipc/framing.ts).
use mathlib.Core.Path.{subst}
use mathlib.Core.List.{append_assoc}
use codexhook.Base.{
  ℕ, zero, suc, ◌+◌, ◌≤◌, ◌<◌, ◌≡◌, ◌⊎◌, refl, sym, ap, ◌∙◌, true, false, ◌||◌, Option, none, some,
  List, [], ◌∷◌, ◌++◌, length, length-append, take, drop, length-drop, take-append, drop-append,
  eqb, ltb, arith, Bool-cases, Option-cases, inl, inr,
}
use codexhook.Base.Result.{Result, ok, err}
use codexhook.Json.{Json}
use codexhook.Ipc.{DesktopProtocolError}
use codexhook.Ipc.Framing.{
  Frame, partial, invalid, frame, next_frame, parsed_frame, FrameEvent, header, prepend,
  read_frames, read_all, frame_error,
}

header-length :
    (bytes body : List ℕ) (size : ℕ)
    → header bytes ≡ some (size, body)
    → length bytes ≡ 4 + length body
unfolding header
header-length [] body size h = absurd (cc)
header-length (a ∷ []) body size h = absurd (cc)
header-length (a ∷ b ∷ []) body size h = absurd (cc)
header-length (a ∷ b ∷ c ∷ []) body size h = absurd (cc)
header-length (a ∷ b ∷ c ∷ d ∷ rest) body size h = ground arith

header-append :
    (bytes body more : List ℕ) (size : ℕ)
    → header bytes ≡ some (size, body)
    → header (bytes ++ more) ≡ some (size, body ++ more)
unfolding header
header-append [] body more size h = absurd (cc)
header-append (a ∷ []) body more size h = absurd (cc)
header-append (a ∷ b ∷ []) body more size h = absurd (cc)
header-append (a ∷ b ∷ c ∷ []) body more size h = absurd (cc)
header-append (a ∷ b ∷ c ∷ d ∷ rest) body more size h = ground arith

module _ (parse : List ℕ → Option Json) (max_frame_bytes : ℕ) where
  -- What the bytes after it leave of a frame.
  Extends : List ℕ → List ℕ → Frame → Type 0
  Extends bytes more partial = Unit
  Extends bytes more invalid = next_frame parse max_frame_bytes (bytes ++ more) ≡ invalid
  Extends bytes more (frame events rest) =
      (next_frame parse max_frame_bytes (bytes ++ more) ≡ frame events (rest ++ more))
      × (length rest < length bytes)

  pub frame_at :
      (bytes body : List ℕ) (size : ℕ)
      → header bytes ≡ some (size, body)
      → (eqb size 0 || ltb max_frame_bytes size) ≡ false
      → ltb (length body) size ≡ false
      → next_frame parse max_frame_bytes bytes
        ≡ parsed_frame (parse (take size body)) (drop size body)
  unfolding next_frame
  frame_at bytes body size head sound fits = rw (head, next_frame, sound, fits) refl

  invalid_at :
      (bytes body : List ℕ) (size : ℕ)
      → header bytes ≡ some (size, body)
      → (eqb size 0 || ltb max_frame_bytes size) ≡ true
      → next_frame parse max_frame_bytes bytes ≡ invalid
  unfolding next_frame
  invalid_at bytes body size head unsound = rw (head, next_frame, unsound) refl

  parsed-Extends :
      (bytes more rest : List ℕ) (parsed : Option Json)
      → next_frame parse max_frame_bytes (bytes ++ more) ≡ parsed_frame parsed (rest ++ more)
      → length rest < length bytes
      → Extends bytes more (parsed_frame parsed rest)
  unfolding Extends
  parsed-Extends bytes more rest none same less = same
  parsed-Extends bytes more rest (some value) same less = (same, less)

  body-Extends :
      (bytes body more : List ℕ) (size : ℕ)
      → header bytes ≡ some (size, body)
      → (eqb size 0 || ltb max_frame_bytes size) ≡ false
      → ltb (length body) size ≡ false
      → Extends bytes more (next_frame parse max_frame_bytes bytes)
  body-Extends bytes body more size head sound whole =
      let fits : size ≤ length body = ground arith in
      let longer : ltb (length (body ++ more)) size ≡ false =
        ground (arith, length-append body more) in
      let after =
        frame_at (bytes ++ more) (body ++ more) size (header-append bytes body more size head) sound
          longer in
      subst (Extends bytes more) (sym (frame_at bytes body size head sound whole)) (
        parsed-Extends bytes more (drop size body) (parse (take size body))
          (after
            ∙ (ap (λ t. parsed_frame (parse t) (drop size (body ++ more)))
                  (take-append size body more fits)
                ∙ ap (parsed_frame (parse (take size body))) (drop-append size body more fits)))
          (omega (arith, length-drop size body fits, header-length bytes body size head)))

  next_frame-Extends :
      (bytes more : List ℕ) → Extends bytes more (next_frame parse max_frame_bytes bytes)
  unfolding next_frame Extends
  next_frame-Extends bytes more = elim (Option-cases (header bytes)) [
    | inl short ↦ rw (short, next_frame) tt
    | inr ((size, body), head) ↦ elim (Bool-cases (eqb size 0 || ltb max_frame_bytes size)) [
      | inl unsound ↦ subst (Extends bytes more) (sym (invalid_at bytes body size head unsound)) (
          invalid_at (bytes ++ more) (body ++ more) size (header-append bytes body more size head)
            unsound)
      | inr sound ↦ elim (Bool-cases (ltb (length body) size)) [
        | inl short ↦ rw (head, next_frame, sound, short) tt
        | inr whole ↦ body-Extends bytes body more size head sound whole
      ]
    ]
  ]

  pub Frame-cases :
      (f : Frame)
      → (f ≡ partial)
        ⊎ ((f ≡ invalid) ⊎ ((events : List FrameEvent) × (rest : List ℕ) × (f ≡ frame events rest)))
  Frame-cases partial = inl refl
  Frame-cases invalid = inr (inl refl)
  Frame-cases (frame events rest) = inr (inr (events, rest, refl))

  -- A frame takes bytes off.
  pub frame-less :
      (bytes rest : List ℕ) (events : List FrameEvent)
      → next_frame parse max_frame_bytes bytes ≡ frame events rest
      → length rest < length bytes
  unfolding Extends
  frame-less bytes rest events e = (subst (Extends bytes []) e (next_frame-Extends bytes [])).1

  abbrev pub read : ℕ → List ℕ → Result DesktopProtocolError (List FrameEvent × List ℕ)
  read = read_frames parse max_frame_bytes

  pub read_once-partial :
      (n : ℕ) (bytes : List ℕ)
      → next_frame parse max_frame_bytes bytes ≡ partial
      → read (suc n) bytes ≡ ok ([], bytes)
  unfolding read_frames
  read_once-partial n bytes e = rw (e, read_frames) refl

  pub read_once-invalid :
      (n : ℕ) (bytes : List ℕ)
      → next_frame parse max_frame_bytes bytes ≡ invalid
      → read (suc n) bytes ≡ err frame_error
  unfolding read_frames
  read_once-invalid n bytes e = rw (e, read_frames) refl

  pub read_once-frame :
      (n : ℕ) (bytes rest : List ℕ) (events : List FrameEvent)
      → next_frame parse max_frame_bytes bytes ≡ frame events rest
      → read_frames parse max_frame_bytes (suc n) bytes
        ≡ prepend events (read_frames parse max_frame_bytes n rest)
  unfolding read_frames
  read_once-frame n bytes rest events e = rw (e, read_frames) refl

  -- More turns than are needed change nothing.
  pub read-fuel :
      (n m : ℕ) (bytes : List ℕ)
      → length bytes < n
      → length bytes < m
      → read_frames parse max_frame_bytes n bytes ≡ read_frames parse max_frame_bytes m bytes
  read-fuel zero m bytes h k = absurd (omega arith)
  read-fuel (suc n) zero bytes h k = absurd (omega arith)
  read-fuel (suc n) (suc m) bytes h k =
      elim (Frame-cases (next_frame parse max_frame_bytes bytes)) [
        | inl e ↦ read_once-partial n bytes e ∙ sym (read_once-partial m bytes e)
        | inr (inl e) ↦ read_once-invalid n bytes e ∙ sym (read_once-invalid m bytes e)
        | inr (inr (events, rest, e)) ↦
            let less = frame-less bytes rest events e in
            read_once-frame n bytes rest events e
            ∙ (ap (prepend events) (read-fuel n m rest (omega arith) (omega arith))
                ∙ sym (read_once-frame m bytes rest events e))
      ]

  -- What the bytes after it make of a result.
  unfoldable pub extend :
      List ℕ
      → Result DesktopProtocolError (List FrameEvent × List ℕ)
      → Result DesktopProtocolError (List FrameEvent × List ℕ)
  extend more (err failure) = err failure
  extend more (ok (events, rest)) = prepend events (read_all parse max_frame_bytes (rest ++ more))

  pub prepend-prepend :
      (xs ys : List FrameEvent) (r : Result DesktopProtocolError (List FrameEvent × List ℕ))
      → prepend xs (prepend ys r) ≡ prepend (xs ++ ys) r
  prepend-prepend xs ys (err failure) = refl
  prepend-prepend xs ys (ok (later, rest)) =
      ap (λ zs. ok (zs, rest)) (sym (append_assoc xs ys later))

  pub prepend-nil : (r : Result DesktopProtocolError (List FrameEvent × List ℕ)) → prepend [] r ≡ r
  prepend-nil (err failure) = refl
  prepend-nil (ok (later, rest)) = refl

  extend-prepend :
      (more : List ℕ) (events : List FrameEvent)
      (r : Result DesktopProtocolError (List FrameEvent × List ℕ))
      → prepend events (extend more r) ≡ extend more (prepend events r)
  unfolding extend
  extend-prepend more events (err failure) = refl
  extend-prepend more events (ok (later, rest)) =
      prepend-prepend events later (read_all parse max_frame_bytes (rest ++ more))

  pub read-append :
      (n : ℕ) (bytes more : List ℕ)
      → length bytes < n
      → read_all parse max_frame_bytes (bytes ++ more) ≡ extend more (read n bytes)
  unfolding read_all extend Extends
  read-append zero bytes more h = absurd (omega arith)
  read-append (suc n) bytes more h = elim (Frame-cases (next_frame parse max_frame_bytes bytes)) [
    | inl e ↦ sym (ap (extend more) (read_once-partial n bytes e) ∙ prepend-nil _)
    | inr (inl e) ↦
        read_once-invalid _ (bytes ++ more)
          (subst (Extends bytes more) e (next_frame-Extends bytes more))
        ∙ sym (ap (extend more) (read_once-invalid n bytes e))
    | inr (inr (events, rest, e)) ↦
        let less = frame-less bytes rest events e in
        let after = subst (Extends bytes more) e (next_frame-Extends bytes more) in
        read_once-frame _ (bytes ++ more) (rest ++ more) events after.0
        ∙ (ap (prepend events) (
              read-fuel (length (bytes ++ more)) (suc (length (rest ++ more))) (rest ++ more)
                (omega (arith, length-append bytes more, length-append rest more)) (omega arith)
              ∙ read-append n rest more (omega arith))
            ∙ (extend-prepend more events (read n rest)
                ∙ ap (extend more) (sym (read_once-frame n bytes rest events e))))
  ]

  pub read_all-append :
      (bytes more : List ℕ)
      → read_all parse max_frame_bytes (bytes ++ more)
        ≡ extend more (read_all parse max_frame_bytes bytes)
  unfolding read_all
  read_all-append bytes more = read-append (suc (length bytes)) bytes more (omega arith)
