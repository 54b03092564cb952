-- ===== src/Ipc/Framing/Chunks.antt =====
-- The frames of a stream that comes in chunks (src/transport/desktop-ipc/framing.ts).
use mathlib.Core.Path.{subst}
use mathlib.Core.List.{append-nil, append_assoc}
use codexhook.Base.{
  ℕ, zero, suc, ◌<◌, ◌≡◌, refl, sym, ap, ◌∙◌, Option, List, [], ◌∷◌, ◌++◌, length, concat, arith,
  inl, inr,
}
use codexhook.Base.Result.{ok, Result-cases}
use codexhook.Json.{Json}
use codexhook.Ipc.Framing.{
  FrameEvent, header, next_frame, prepend, read_frames, read_all, push, push_chunks,
}
use codexhook.Ipc.Framing.Frames.{
  extend, read_all-append, prepend-nil, read_once-partial, read_once-invalid, read_once-frame,
  Frame-cases, frame-less,
}

module _ (parse : List ℕ → Option Json) (max_frame_bytes : ℕ) where
  -- There is no whole frame at the start of the bytes.
  abbrev pub IsPartial : List ℕ → Type 0
  IsPartial bytes = read_all parse max_frame_bytes bytes ≡ ok ([], bytes)

  -- What remains after the frames that were read.
  read-IsPartial :
      (n : ℕ) (bytes rest : List ℕ) (events : List FrameEvent)
      → length bytes < n
      → read_frames parse max_frame_bytes n bytes ≡ ok (events, rest)
      → IsPartial rest
  unfolding read_all
  read-IsPartial zero bytes rest events h e = absurd (omega arith)
  read-IsPartial (suc n) bytes rest events h e =
      elim (Frame-cases parse max_frame_bytes (next_frame parse max_frame_bytes bytes)) [
        | inl few ↦
            let once = read_once-partial parse max_frame_bytes n bytes few in
            let same : bytes ≡ rest = ground arith in
            subst IsPartial same (read_once-partial parse max_frame_bytes (length bytes) bytes few)
        | inr (inl bad) ↦
            let once = read_once-invalid parse max_frame_bytes n bytes bad in absurd (ground arith)
        | inr (inr (first, after, whole)) ↦
            let once = read_once-frame parse max_frame_bytes n bytes after first whole in
            let less = frame-less parse max_frame_bytes bytes after first whole in
            elim (Result-cases (read_frames parse max_frame_bytes n after)) [
              | inl (failure, q) ↦ absurd (ground arith)
              | inr ((later, last), q) ↦
                  let same : last ≡ rest = ground arith in
                  subst IsPartial same (read-IsPartial n after last later (omega arith) q)
            ]
      ]

  read_all-IsPartial :
      (bytes rest : List ℕ) (events : List FrameEvent)
      → read_all parse max_frame_bytes bytes ≡ ok (events, rest)
      → IsPartial rest
  unfolding read_all
  read_all-IsPartial bytes rest events e =
      read-IsPartial (suc (length bytes)) bytes rest events (omega arith) e

  push_chunks_from :
      (buffer : List ℕ) (chunks : List (List ℕ))
      → IsPartial buffer
      → push_chunks parse max_frame_bytes buffer chunks
        ≡ read_all parse max_frame_bytes (buffer ++ concat chunks)
  unfolding push_chunks push extend
  push_chunks_from buffer [] p = sym (
      subst (λ bytes. read_all parse max_frame_bytes bytes ≡ ok ([], buffer))
        (sym (append-nil buffer)) p)
  push_chunks_from buffer ([] ∷ chunks) p =
      prepend-nil parse max_frame_bytes _ ∙ push_chunks_from buffer chunks p
  push_chunks_from buffer ((byte ∷ chunk) ∷ chunks) p =
      let first = buffer ++ byte ∷ chunk in
      let more = concat chunks in
      let whole : read_all parse max_frame_bytes (buffer ++ byte ∷ (chunk ++ more))
          ≡ extend parse max_frame_bytes more (read_all parse max_frame_bytes first) =
        ap (read_all parse max_frame_bytes) (sym (append_assoc buffer (byte ∷ chunk) more))
        ∙ read_all-append parse max_frame_bytes first more in
      elim (Result-cases (read_all parse max_frame_bytes first)) [
        | inl (failure, q) ↦
            rw (q, push_chunks, push) (sym (whole ∙ ap (extend parse max_frame_bytes more) q))
        | inr ((events, rest), q) ↦
            rw (q, push_chunks, push)
              (ap (prepend events)
                  (push_chunks_from rest chunks (read_all-IsPartial first rest events q))
                ∙ sym (whole ∙ ap (extend parse max_frame_bytes more) q))
      ]

  -- A decoder that is new gives for the chunks of a stream, however it is cut, the same events, the
  -- same buffer or the same error as for the whole stream at once.
  pub push_chunks-concat :
      (chunks : List (List ℕ))
      → push_chunks parse max_frame_bytes [] chunks ≡ read_all parse max_frame_bytes (concat chunks)
  unfolding read_all read_frames next_frame header
  push_chunks-concat chunks = push_chunks_from [] chunks refl
