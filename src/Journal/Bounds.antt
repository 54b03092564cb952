-- ===== src/Journal/Bounds.antt =====
-- The size of the journal's file (src/diagnostics/journal.ts).
use mathlib.Core.Path.{subst}
use codexhook.Base.{
  ℕ, ◌+◌, ◌*◌, ◌≤◌, ◌≡◌, refl, sym, ◌∙◌, Bool, true, false, not, ◌&&◌, ◌||◌, Option, none, some,
  List, [], ◌∷◌, ◌++◌, length, length-append, arith, Bool-cases, inl, inr,
}
use codexhook.Json.{Json}
use codexhook.Journal.Records.{DiagnosticRecord}
use codexhook.Journal.{
  DiagnosticJournal, new_journal, max, or_default, Faults, contents, entries, disk_usage, target,
  is_within, failed, read_all, rotated, rotate, enforce_bounds, append_line, count_and_append,
  append, run,
}
use codexhook.Journal.Lines.{has_newline, entries-append, entries-concat, keep_last-IsKept}

-- The counts, where there are any, are not below those of the file.
abbrev pub IsCounted : Option (ℕ × ℕ) → List ℕ → Type 0
IsCounted none bytes = Unit
IsCounted (some (size, count)) bytes = (length bytes ≤ size) × (entries bytes ≤ count)

pub record IsValid (j : DiagnosticJournal) : Type 0 where
  pub counted : IsCounted j.on_disk (contents j.file)
  pub bytes_limit : 1024 ≤ j.max_bytes
  pub entries_limit : 8 ≤ j.max_entries

-- The file is not over the limits.
pub record IsWithin (max_bytes max_entries : ℕ) (j : DiagnosticJournal) : Type 0 where
  pub bytes : length (contents j.file) ≤ max_bytes
  pub count : entries (contents j.file) ≤ max_entries

-- A journal that is valid, and within its limits unless something threw.
record IsBounded (thrown : Bool) (j : DiagnosticJournal) : Type 0 where
  valid : IsValid j
  within : (thrown ≡ false) → IsWithin j.max_bytes j.max_entries j

abbrev pub throws : Faults → Bool
throws faults =
    faults.directory || (faults.usage || (faults.appending || (faults.reading || faults.writing)))

failed-IsBounded :
    (thrown : Bool) (j : DiagnosticJournal)
    → 1024 ≤ j.max_bytes
    → 8 ≤ j.max_entries
    → thrown ≡ true
    → IsBounded thrown (failed j)
unfolding failed
failed-IsBounded thrown j b e h = record {
  valid = record { counted = tt; bytes_limit = b; entries_limit = e };
  within = λ quiet. absurd (ground arith);
}

new_journal-IsValid :
    (file : Option (List ℕ)) (max_bytes max_entries : Option ℕ)
    → IsValid (new_journal file max_bytes max_entries)
unfolding new_journal
new_journal-IsValid file max_bytes max_entries = record {
  counted = tt;
  bytes_limit = ground arith;
  entries_limit = ground arith;
}

target-le : (limit : ℕ) → 1 ≤ limit → target limit ≤ limit
target-le limit h = ground arith

module _ (parse : List ℕ → Option Json) (print : DiagnosticRecord → List ℕ)
    (one_line : (next : DiagnosticRecord) → has_newline (print next) ≡ false) where
  rotate-IsBounded :
      (thrown : Bool) (j : DiagnosticJournal)
      → 1024 ≤ j.max_bytes
      → 8 ≤ j.max_entries
      → IsBounded thrown (rotate parse print j)
  unfolding rotate rotated
  rotate-IsBounded thrown j b e =
      let kept =
        keep_last-IsKept print one_line (target j.max_entries) (target j.max_bytes)
          (read_all parse print (contents j.file)).0 [] 0
          (record {
            lines = tt;
            size = refl;
            bytes_within = omega arith;
            entries_within = omega arith;
          }) in
      let size = kept.size in
      let bytes_within = kept.bytes_within in
      let entries_within = kept.entries_within in
      let count = entries-concat _ kept.lines in
      let small = target-le j.max_bytes (omega arith) in
      let few = target-le j.max_entries (omega arith) in
      record {
        valid = record { counted = (omega arith, count); bytes_limit = b; entries_limit = e };
        within = λ quiet. record { bytes = omega arith; count = omega arith };
      }

  enforce_bounds-IsBounded :
      (faults : Faults) (thrown : Bool) (size count : ℕ) (j : DiagnosticJournal)
      → throws faults ≡ thrown
      → IsValid j
      → length (contents j.file) ≤ size
      → entries (contents j.file) ≤ count
      → IsBounded thrown (enforce_bounds parse print faults (size, count) j)
  unfolding enforce_bounds is_within
  enforce_bounds-IsBounded faults thrown size count j t v s c =
      elim (Bool-cases (is_within j size count)) [
        | inl within ↦
            rw (within, enforce_bounds)
              (record {
                valid = v;
                within = λ quiet. record { bytes = ground arith; count = ground arith };
              })
        | inr over ↦ elim (Bool-cases (faults.reading || faults.writing)) [
          | inl fault ↦
              rw (over, enforce_bounds, fault)
                (failed-IsBounded thrown j v.bytes_limit v.entries_limit (ground arith))
          | inr fine ↦
              rw (over, enforce_bounds, fine)
                (rotate-IsBounded thrown j v.bytes_limit v.entries_limit)
        ]
      ]

  -- The journal with the line at the end of its file.
  abbrev with_line : DiagnosticRecord → ℕ → ℕ → DiagnosticJournal → DiagnosticJournal
  with_line next size count j = record j {
    file = some (contents j.file ++ (print next ++ 10 ∷ []));
    on_disk = some (size + length (print next ++ 10 ∷ []), count + 1);
  }

  append_line-failed :
      (faults : Faults) (next : DiagnosticRecord) (size count : ℕ) (j : DiagnosticJournal)
      → faults.appending ≡ true
      → append_line parse print faults next (size, count) j ≡ failed j
  unfolding append_line
  append_line-failed faults next size count j fault = ground arith

  append_line-fine :
      (faults : Faults) (next : DiagnosticRecord) (size count : ℕ) (j : DiagnosticJournal)
      → faults.appending ≡ false
      → append_line parse print faults next (size, count) j
        ≡ enforce_bounds parse print faults
            (size + length (print next ++ 10 ∷ []), count + 1)
            (with_line next size count j)
  unfolding append_line
  append_line-fine faults next size count j fine = ground arith

  append_line-IsBounded :
      (faults : Faults) (thrown : Bool) (next : DiagnosticRecord) (size count : ℕ)
      (j : DiagnosticJournal)
      → throws faults ≡ thrown
      → 1024 ≤ j.max_bytes
      → 8 ≤ j.max_entries
      → length (contents j.file) ≤ size
      → entries (contents j.file) ≤ count
      → IsBounded thrown (append_line parse print faults next (size, count) j)
  append_line-IsBounded faults thrown next size count j t b e s c =
      let line = print next ++ 10 ∷ [] in
      elim (Bool-cases faults.appending) [
        | inl fault ↦
            subst (IsBounded thrown) (sym (append_line-failed faults next size count j fault))
              (failed-IsBounded thrown j b e (ground arith))
        | inr fine ↦
            let longer : length (contents j.file ++ line) ≤ size + length line =
              omega (arith, length-append (contents j.file) line) in
            let more : entries (contents j.file ++ line) ≤ count + 1 =
              let one = entries-append (contents j.file) (print next) (one_line next) in
              omega arith in
            subst (IsBounded thrown) (sym (append_line-fine faults next size count j fine)) (
              enforce_bounds-IsBounded faults thrown (size + length line) (count + 1)
                (with_line next size count j) t
                (record { counted = (longer, more); bytes_limit = b; entries_limit = e }) longer
                more)
      ]

  count_and_append-known :
      (faults : Faults) (next : DiagnosticRecord) (j : DiagnosticJournal) (counts : ℕ × ℕ)
      → j.on_disk ≡ some counts
      → count_and_append parse print faults next j ≡ append_line parse print faults next counts j
  unfolding count_and_append
  count_and_append-known faults next j counts known = ground arith

  count_and_append-failed :
      (faults : Faults) (next : DiagnosticRecord) (j : DiagnosticJournal)
      → j.on_disk ≡ none
      → faults.usage ≡ true
      → count_and_append parse print faults next j ≡ failed j
  unfolding count_and_append
  count_and_append-failed faults next j unknown fault = ground arith

  count_and_append-unknown :
      (faults : Faults) (next : DiagnosticRecord) (j : DiagnosticJournal)
      → j.on_disk ≡ none
      → faults.usage ≡ false
      → count_and_append parse print faults next j
        ≡ append_line parse print faults next
            (length (contents j.file), entries (contents j.file))
            j
  unfolding count_and_append disk_usage
  count_and_append-unknown faults next j unknown fine = ground arith

  counted_append-IsBounded :
      (faults : Faults) (thrown : Bool) (next : DiagnosticRecord) (j : DiagnosticJournal)
      (counts : Option (ℕ × ℕ))
      → throws faults ≡ thrown
      → IsValid j
      → j.on_disk ≡ counts
      → IsBounded thrown (count_and_append parse print faults next j)
  counted_append-IsBounded faults thrown next j (some (size, count)) t v known =
      let counted = subst (λ o. IsCounted o (contents j.file)) known v.counted in
      subst (IsBounded thrown) (sym (count_and_append-known faults next j (size, count) known)) (
        append_line-IsBounded faults thrown next size count j t v.bytes_limit v.entries_limit
          counted.0 counted.1)
  counted_append-IsBounded faults thrown next j none t v unknown = elim (Bool-cases faults.usage) [
    | inl fault ↦
        subst (IsBounded thrown) (sym (count_and_append-failed faults next j unknown fault))
          (failed-IsBounded thrown j v.bytes_limit v.entries_limit (ground arith))
    | inr fine ↦
        subst (IsBounded thrown) (sym (count_and_append-unknown faults next j unknown fine)) (
          append_line-IsBounded faults thrown next (length (contents j.file))
            (entries (contents j.file)) j t v.bytes_limit v.entries_limit (omega arith)
            (omega arith))
  ]

  append-IsBounded :
      (faults : Faults) (next : DiagnosticRecord) (j : DiagnosticJournal)
      → IsValid j
      → IsBounded (throws faults) (append parse print faults next j)
  unfolding append
  append-IsBounded faults next j v = elim (Bool-cases (not j.directory_ready && faults.directory)) [
    | inl fault ↦
        rw (fault, append)
          (failed-IsBounded (throws faults) j v.bytes_limit v.entries_limit (ground arith))
    | inr fine ↦
        rw (fine, append)
          (counted_append-IsBounded faults (throws faults) next
            (record j { directory_ready = true }) j.on_disk refl
            (record {
              counted = v.counted;
              bytes_limit = v.bytes_limit;
              entries_limit = v.entries_limit;
            })
            refl)
  ]

  run-IsValid :
      (calls : List (Faults × DiagnosticRecord)) (j : DiagnosticJournal)
      → IsValid j
      → IsValid (run parse print calls j)
  unfolding run
  run-IsValid [] j v = v
  run-IsValid ((faults, next) ∷ calls) j v =
      let bounded = append-IsBounded faults next j v in
      run-IsValid calls (append parse print faults next j) bounded.valid

  append-max_bytes :
      (faults : Faults) (next : DiagnosticRecord) (j : DiagnosticJournal)
      → (append parse print faults next j).max_bytes ≡ j.max_bytes
  unfolding append count_and_append append_line enforce_bounds failed rotate
  append-max_bytes faults next j = ground arith

  append-max_entries :
      (faults : Faults) (next : DiagnosticRecord) (j : DiagnosticJournal)
      → (append parse print faults next j).max_entries ≡ j.max_entries
  unfolding append count_and_append append_line enforce_bounds failed rotate
  append-max_entries faults next j = ground arith

  run-max_bytes :
      (calls : List (Faults × DiagnosticRecord)) (j : DiagnosticJournal)
      → (run parse print calls j).max_bytes ≡ j.max_bytes
  unfolding run
  run-max_bytes [] j = refl
  run-max_bytes ((faults, next) ∷ calls) j =
      run-max_bytes calls (append parse print faults next j) ∙ append-max_bytes faults next j

  run-max_entries :
      (calls : List (Faults × DiagnosticRecord)) (j : DiagnosticJournal)
      → (run parse print calls j).max_entries ≡ j.max_entries
  unfolding run
  run-max_entries [] j = refl
  run-max_entries ((faults, next) ∷ calls) j =
      run-max_entries calls (append parse print faults next j) ∙ append-max_entries faults next j

  -- Whatever is in the file of a new journal, whatever limits it is given and whatever it has
  -- appended since, with any errors of the file system: when a record is appended and nothing
  -- throws, the file ends up with at most as many bytes and entries as the limits say, which are
  -- 256 KiB and 512 where they are not given, and not below 1024 bytes and 8 entries. No record may
  -- be printed with a newline in it.
  pub append-IsWithin :
      (file : Option (List ℕ)) (max_bytes max_entries : Option ℕ)
      (calls : List (Faults × DiagnosticRecord)) (faults : Faults) (next : DiagnosticRecord)
      → throws faults ≡ false
      → IsWithin
          (max 1024 (or_default (256 * 1024) max_bytes))
          (max 8 (or_default 512 max_entries))
          (append parse print faults next
            (run parse print calls (new_journal file max_bytes max_entries)))
  unfolding new_journal
  append-IsWithin file max_bytes max_entries calls faults next quiet =
      let first = new_journal file max_bytes max_entries in
      let j = run parse print calls first in
      let valid = run-IsValid calls first (new_journal-IsValid file max_bytes max_entries) in
      let bounded = append-IsBounded faults next j valid in
      let within = bounded.within quiet in
      let size = within.bytes in
      let count = within.count in
      let same_size = append-max_bytes faults next j ∙ run-max_bytes calls first in
      let same_count = append-max_entries faults next j ∙ run-max_entries calls first in
      record { bytes = omega arith; count = omega arith }
