-- ===== src/Journal.antt =====
-- `DiagnosticJournal` (src/diagnostics/journal.ts). The file is a list of bytes, which are UTF-8, in
-- which 10 is the newline. JSON.parse and the bytes that JSON.stringify gives for a record are
-- parameters. Nobody else writes the file; an operation of the file system that throws changes
-- nothing.
pub mod Records
pub mod Lines
pub mod Bounds
mod Examples
use mathlib.Core.List.{reverse}
use codexhook.Base.{
  ℕ, zero, suc, ◌+◌, ◌-◌, ◌*◌, ◌/◌, Bool, true, false, not, ◌&&◌, ◌||◌, Option, none, some, List,
  [], ◌∷◌, ◌++◌, length, concat, keep, take, String, eqb, leb, ltb, if◌then◌else◌,
}
use codexhook.Json.{Json}
use codexhook.Contracts.{DeliveryOutcome, SanitizedDiagnostic}
use codexhook.Journal.Records.{DiagnosticRecord, parse_record, outcome_record, recorded_diagnostic}

-- The two counts are set and cleared together.
pub record DiagnosticJournal : Type 0 where
  pub file : Option (List ℕ)
  pub on_disk : Option (ℕ × ℕ)
  pub directory_ready : Bool
  pub max_bytes : ℕ
  pub max_entries : ℕ

abbrev pub max : ℕ → ℕ → ℕ
max a b = if leb a b then b else a

abbrev pub or_default : ℕ → Option ℕ → ℕ
or_default default none = default
or_default default (some n) = n

unfoldable pub new_journal : Option (List ℕ) → Option ℕ → Option ℕ → DiagnosticJournal
new_journal file max_bytes max_entries = record {
  file = file;
  on_disk = none;
  directory_ready = false;
  max_bytes = max 1024 (or_default (256 * 1024) max_bytes);
  max_entries = max 8 (or_default 512 max_entries);
}

-- What throws in one call of `append`.
pub record Faults : Type 0 where
  pub directory : Bool
  pub usage : Bool
  pub appending : Bool
  pub reading : Bool
  pub writing : Bool

abbrev pub contents : Option (List ℕ) → List ℕ
contents none = []
contents (some bytes) = bytes

-- `split("\n")`, with the bytes of the line so far.
unfoldable pub split_lines : List ℕ → List ℕ → List (List ℕ)
split_lines line [] = line ∷ []
split_lines line (c ∷ cs) =
    if eqb c 10 then line ∷ split_lines [] cs else split_lines (line ++ c ∷ []) cs

abbrev pub is_empty : List ℕ → Bool
is_empty [] = true
is_empty (c ∷ cs) = false

-- `filter(Boolean)`.
unfoldable pub full_lines : List (List ℕ) → List (List ℕ)
full_lines lines = keep (λ line. not (is_empty line)) lines

abbrev pub entries : List ℕ → ℕ
entries bytes = length (full_lines (split_lines [] bytes))

-- The bytes and the entries.
unfoldable pub disk_usage : Option (List ℕ) → ℕ × ℕ
disk_usage file = (length (contents file), entries (contents file))

abbrev pub target : ℕ → ℕ
target limit = max 1 (limit * 3 / 4)

unfoldable pub is_within : DiagnosticJournal → ℕ → ℕ → Bool
is_within j bytes count = leb count j.max_entries && leb bytes j.max_bytes

-- The last records come first in `records`; what was kept of them is in the order of the file.
unfoldable pub keep_last :
    (DiagnosticRecord → List ℕ)
    → ℕ
    → ℕ
    → List DiagnosticRecord
    → List (List ℕ)
    → ℕ
    → List (List ℕ) × ℕ
keep_last print target_entries target_bytes [] kept bytes = (kept, bytes)
keep_last print target_entries target_bytes (next ∷ records) kept bytes =
    let line = print next ++ 10 ∷ [] in
    if leb target_entries (length kept) || ltb target_bytes (bytes + length line)
    then (kept, bytes)
    else keep_last print target_entries target_bytes records (line ∷ kept) (bytes + length line)

-- After an error, the counts are read again.
unfoldable pub failed : DiagnosticJournal → DiagnosticJournal
failed j = record j { on_disk = none; directory_ready = false }

-- The records of some lines, the last one first, and the number of lines that hold none, after
-- those of the lines before.
unfoldable pub read_lines :
    (List ℕ → Option Json) → List (List ℕ) → List DiagnosticRecord × ℕ → List DiagnosticRecord × ℕ
read_lines parse [] read = read
read_lines parse (line ∷ lines) (found, invalid) = elim (parse line) [
  | none ↦ read_lines parse lines (found, invalid + 1)
  | some value ↦ elim (parse_record value) [
    | none ↦ read_lines parse lines (found, invalid + 1)
    | some next ↦ read_lines parse lines (next ∷ found, invalid)
  ]
]

pub record DiagnosticJournalSnapshot : Type 0 where
  pub records : List DiagnosticRecord
  pub invalid_lines : ℕ
  pub available : Bool
  pub limit_bytes : ℕ
  pub limit_entries : ℕ

module _ (parse : List ℕ → Option Json) (print : DiagnosticRecord → List ℕ) where
  abbrev pub read_all : List ℕ → List DiagnosticRecord × ℕ
  read_all bytes = read_lines parse (full_lines (split_lines [] bytes)) ([], 0)

  -- The last `max_entries` records, in the order of the file; none if reading throws.
  unfoldable pub read : Bool → DiagnosticJournal → DiagnosticJournalSnapshot
  read throws j =
      if throws
      then record {
        records = [];
        invalid_lines = 0;
        available = false;
        limit_bytes = j.max_bytes;
        limit_entries = j.max_entries;
      }
      else record {
        records = reverse (take j.max_entries (read_all (contents j.file)).0);
        invalid_lines = (read_all (contents j.file)).1;
        available = true;
        limit_bytes = j.max_bytes;
        limit_entries = j.max_entries;
      }

  -- The lines that a rotation keeps, and their bytes.
  unfoldable pub rotated : DiagnosticJournal → List (List ℕ) × ℕ
  rotated j =
      keep_last print (target j.max_entries) (target j.max_bytes) (read_all (contents j.file)).0 []
        0

  unfoldable pub rotate : DiagnosticJournal → DiagnosticJournal
  rotate j = record j {
    file = some (concat (rotated j).0);
    on_disk = some ((rotated j).1, length (rotated j).0);
  }

  unfoldable pub enforce_bounds : Faults → ℕ × ℕ → DiagnosticJournal → DiagnosticJournal
  enforce_bounds faults (bytes, count) j =
      if is_within j bytes count
      then j
      else (if faults.reading || faults.writing then failed j else rotate j)

  -- The line at the end of the file, from the counts before.
  unfoldable pub append_line :
      Faults → DiagnosticRecord → ℕ × ℕ → DiagnosticJournal → DiagnosticJournal
  append_line faults next (bytes, count) j =
      let line = print next ++ 10 ∷ [] in
      if faults.appending
      then failed j
      else enforce_bounds faults (bytes + length line, count + 1)
          (record j {
            file = some (contents j.file ++ line);
            on_disk = some (bytes + length line, count + 1);
          })

  unfoldable pub count_and_append :
      Faults → DiagnosticRecord → DiagnosticJournal → DiagnosticJournal
  count_and_append faults next j = elim j.on_disk [
    | some counts ↦ append_line faults next counts j
    | none ↦ if faults.usage then failed j else append_line faults next (disk_usage j.file) j
  ]

  unfoldable pub append : Faults → DiagnosticRecord → DiagnosticJournal → DiagnosticJournal
  append faults next j =
      if not j.directory_ready && faults.directory
      then failed j
      else count_and_append faults next (record j { directory_ready = true })

  abbrev pub record_outcome :
      Faults → String → DeliveryOutcome → DiagnosticJournal → DiagnosticJournal
  record_outcome faults timestamp outcome j = append faults (outcome_record timestamp outcome) j

  abbrev pub record_diagnostic :
      Faults → String → SanitizedDiagnostic → DiagnosticJournal → DiagnosticJournal
  record_diagnostic faults timestamp diagnostic j =
      append faults (recorded_diagnostic timestamp diagnostic) j

  -- Appends, each with what throws in it.
  unfoldable pub run : List (Faults × DiagnosticRecord) → DiagnosticJournal → DiagnosticJournal
  run [] j = j
  run ((faults, next) ∷ calls) j = run calls (append faults next j)
