-- ===== src/Journal/Lines.antt =====
-- Lines and entries of a file (src/diagnostics/journal.ts).
use mathlib.Core.List.{append_assoc}
use mathlib.Core.Path.{subst}
use codexhook.Base.{
  ℕ, suc, ◌+◌, ◌≤◌, ◌≡◌, refl, sym, ap, ◌∙◌, Bool, false, ◌||◌, List, [], ◌∷◌, ◌++◌, length,
  length-append, concat, keep, any, eqb, leb, ltb, arith, Bool-cases, inl, inr, if◌then◌else◌, All,
}
use codexhook.Journal.Records.{DiagnosticRecord}
use codexhook.Journal.{split_lines, is_empty, full_lines, entries, keep_last}

abbrev pub has_newline : List ℕ → Bool
has_newline line = any (λ c. eqb c 10) line

-- The entries of some bytes after the start of a line.
abbrev entries_after : List ℕ → List ℕ → ℕ
entries_after line bytes = length (full_lines (split_lines line bytes))

entries-newline :
    (line bytes : List ℕ)
    → entries_after line (10 ∷ bytes) ≡ (if is_empty line then 0 else 1) + entries bytes
unfolding split_lines full_lines keep
entries-newline line bytes = ground arith

entries-line :
    (before line bytes : List ℕ)
    → has_newline line ≡ false
    → entries_after before (line ++ 10 ∷ bytes) ≤ suc (entries bytes)
unfolding split_lines full_lines keep any
entries-line before [] bytes h = ground arith
entries-line before (c ∷ line) bytes h = elim (Bool-cases (eqb c 10)) [
  | inl newline ↦ absurd (ground arith)
  | inr other ↦ let rest = entries-line (before ++ c ∷ []) line bytes (ground arith) in ground arith
]

-- A line at the end adds at most one entry.
entries_after-append :
    (before bytes line : List ℕ)
    → has_newline line ≡ false
    → entries_after before (bytes ++ (line ++ 10 ∷ [])) ≤ suc (entries_after before bytes)
unfolding split_lines full_lines keep
entries_after-append before [] line h = let one = entries-line before line [] h in omega arith
entries_after-append before (c ∷ bytes) line h = elim (Bool-cases (eqb c 10)) [
  | inl newline ↦ let rest = entries_after-append [] bytes line h in ground arith
  | inr other ↦ let rest = entries_after-append (before ++ c ∷ []) bytes line h in ground arith
]

pub entries-append :
    (bytes line : List ℕ)
    → has_newline line ≡ false
    → entries (bytes ++ (line ++ 10 ∷ [])) ≤ suc (entries bytes)
entries-append bytes line h = entries_after-append [] bytes line h

-- A line of the file, with its newline at the end.
pub record IsLine (line : List ℕ) : Type 0 where
  pub body : List ℕ
  pub same : line ≡ body ++ 10 ∷ []
  pub single : has_newline body ≡ false

pub entries-concat :
    (lines : List (List ℕ)) → All IsLine lines → entries (concat lines) ≤ length lines
unfolding split_lines full_lines keep
entries-concat [] h = omega arith
entries-concat (line ∷ lines) (l, h) =
    let whole : line ++ concat lines ≡ l.body ++ (10 ∷ concat lines) =
      ap (λ bytes. bytes ++ concat lines) l.same ∙ append_assoc l.body (10 ∷ []) (concat lines) in
    let rest = entries-concat lines h in
    subst (λ bytes. entries bytes ≤ suc (length lines)) (sym whole)
      (let one = entries-line [] l.body (concat lines) l.single in omega arith)

-- What a rotation keeps: whole lines, within the targets.
pub record IsKept (target_entries target_bytes : ℕ) (kept : List (List ℕ) × ℕ) : Type 0 where
  pub lines : All IsLine kept.0
  pub size : length (concat kept.0) ≡ kept.1
  pub bytes_within : kept.1 ≤ target_bytes
  pub entries_within : length kept.0 ≤ target_entries

module _ (print : DiagnosticRecord → List ℕ)
    (one_line : (next : DiagnosticRecord) → has_newline (print next) ≡ false) where
  pub keep_last-IsKept :
      (target_entries target_bytes : ℕ) (records : List DiagnosticRecord) (kept : List (List ℕ))
      (bytes : ℕ)
      → IsKept target_entries target_bytes (kept, bytes)
      → IsKept target_entries target_bytes
          (keep_last print target_entries target_bytes records kept bytes)
  unfolding keep_last
  keep_last-IsKept target_entries target_bytes [] kept bytes v = v
  keep_last-IsKept target_entries target_bytes (next ∷ records) kept bytes v =
      let line = print next ++ 10 ∷ [] in
      elim (Bool-cases
        (leb target_entries (length kept) || ltb target_bytes (bytes + length line))) [
          | inl full ↦ rw (full, keep_last) v
          | inr fits ↦
              let size = v.size in
              rw (fits, keep_last)
                (keep_last-IsKept target_entries target_bytes records (line ∷ kept)
                  (bytes + length line)
                  (record {
                    lines = (
                      record { body = print next; same = refl; single = one_line next },
                      v.lines,
                    );
                    size = omega (arith, length-append line (concat kept));
                    bytes_within = ground arith;
                    entries_within = ground arith;
                  }))
        ]
