-- ===== src/Coredump/Notes.antt =====
-- The NT_FILE note of a core file (kit/coredump/src/notes.rs), written and parsed.
use mathlib.Core.List.{append_assoc}
use pyroscope_rs.Base.{
  ℕ, suc, ◌+◌, ◌-◌, ◌*◌, ◌%◌, ◌^◌, ◌≤◌, ◌<◌, ◌≡◌, ◌≢◌, refl, sym, ap, ◌∙◌, String, List, [], ◌∷◌,
  ◌++◌, some, arith, All, Option, none, if◌then◌else◌, leb, length, take, drop, le→ltb,
  length-append, ne→eqb,
}
use pyroscope_rs.Base.Bytes.{
  to_le_bytes, from_le_bytes, read_le, length-to_le_bytes, from_le_bytes-to_le_bytes,
}
use pyroscope_rs.Base.Slices.{take-append_length, drop-append}
use pyroscope_rs.Base.Reading.{read_le-append}
use pyroscope_rs.Coredump.{
  Mapping, path_of, ok, Entry, parse_entries, split_null, mapping_of, name_entries, or_unterminated,
  parse_nt_file,
}

-- the entries of a note, with what stands behind them
unfoldable pub entries_bytes : List (Entry × List ℕ) → List ℕ → List ℕ
entries_bytes [] behind = behind
entries_bytes ((e, name) ∷ files) behind =
    to_le_bytes 8 e.start
    ++ (to_le_bytes 8 e.end ++ (to_le_bytes 8 e.file_offset_pages ++ entries_bytes files behind))

unfoldable pub names_bytes : List (Entry × List ℕ) → List ℕ
names_bytes [] = []
names_bytes ((e, name) ∷ files) = name ++ 0 ∷ names_bytes files

-- the descriptor that the kernel writes for some mapped files
unfoldable pub note_bytes : ℕ → List (Entry × List ℕ) → List ℕ
note_bytes page_size files =
    to_le_bytes 8 (length files)
    ++ (to_le_bytes 8 page_size ++ entries_bytes files (names_bytes files))

-- a name that is not empty
abbrev name_of : (List ℕ → String) → List ℕ → Option String
name_of lossy [] = none
name_of lossy (b ∷ name) = some (lossy (b ∷ name))

-- What the note says of a file: it is mapped from `start` to `end`, and the mapping begins so many pages
-- behind the start of the file.
abbrev pub described : (List ℕ → String) → ℕ → Entry → List ℕ → Mapping
described lossy page_size e name = record {
  vaddr = e.start;
  length = if leb e.start e.end then e.end - e.start else 2 ^ 64 - (e.start - e.end);
  flags = 0;
  file_offset = e.file_offset_pages * page_size % 2 ^ 64;
  path = name_of lossy name;
}

mapping_of-described :
    (lossy : List ℕ → String) (page_size : ℕ) (e : Entry) (name : List ℕ)
    → e.start < 2 ^ 64
    → e.end < 2 ^ 64
    → mapping_of lossy page_size e name ≡ described lossy page_size e name
unfolding mapping_of path_of
mapping_of-described lossy page_size e [] small large = ground arith
mapping_of-described lossy page_size e (b ∷ name) small large = ground arith

-- what the note says of its files
abbrev pub mappings_of : (List ℕ → String) → ℕ → List (Entry × List ℕ) → List Mapping
mappings_of lossy page_size [] = []
mappings_of lossy page_size ((e, name) ∷ files) =
    described lossy page_size e name ∷ mappings_of lossy page_size files

abbrev pub IsFile : Entry × List ℕ → Type 0
IsFile (e, name) =
    (e.start < 2 ^ 64) × (e.end < 2 ^ 64) × (e.file_offset_pages < 2 ^ 64) × All (λ b. b ≢ 0) name

abbrev entries_of : List (Entry × List ℕ) → List Entry
entries_of [] = []
entries_of ((e, name) ∷ files) = e ∷ entries_of files

length-entries_bytes :
    (files : List (Entry × List ℕ)) (behind : List ℕ)
    → length (entries_bytes files behind) ≡ length files * 24 + length behind
unfolding entries_bytes
length-entries_bytes [] behind = omega arith
length-entries_bytes ((e, name) ∷ files) behind =
    let rest = entries_bytes files behind in
    let c = to_le_bytes 8 e.file_offset_pages in
    let b = to_le_bytes 8 e.end in
    omega (
      arith,
      length-append (to_le_bytes 8 e.start) (b ++ (c ++ rest)),
      length-append b (c ++ rest),
      length-append c rest,
      length-to_le_bytes 8 e.start,
      length-to_le_bytes 8 e.end,
      length-to_le_bytes 8 e.file_offset_pages,
      length-entries_bytes files behind,
    )

split_null-append :
    (name behind : List ℕ)
    → All (λ b. b ≢ 0) name
    → split_null (name ++ 0 ∷ behind) ≡ some (name, behind)
unfolding split_null
split_null-append [] behind h = refl
split_null-append (b ∷ name) behind (nonzero, h) =
    rw (ne→eqb b 0 nonzero, split_null-append name behind h)

name_entries-names_bytes :
    (lossy : List ℕ → String) (page_size : ℕ) (files : List (Entry × List ℕ))
    → All IsFile files
    → name_entries lossy page_size (entries_of files) (names_bytes files)
      ≡ some (mappings_of lossy page_size files)
unfolding name_entries names_bytes
name_entries-names_bytes lossy page_size [] h = refl
name_entries-names_bytes lossy page_size ((e, name) ∷ files) ((s, t, p, name_bytes), h) = rw (
  split_null-append name (names_bytes files) name_bytes,
  name_entries-names_bytes lossy page_size files h,
  mapping_of-described lossy page_size e name s t,
)

parse_entries-entries_bytes :
    (files : List (Entry × List ℕ)) (before behind : List ℕ) (i : ℕ)
    → length before ≡ 16 + i * 24
    → All IsFile files
    → parse_entries (before ++ entries_bytes files behind) i (length files)
      ≡ some (entries_of files)
unfolding parse_entries entries_bytes
parse_entries-entries_bytes [] before behind i at h = refl
parse_entries-entries_bytes ((e, name) ∷ files) before behind i at ((s, t, p, name_bytes), h) =
    let a = to_le_bytes 8 e.start in
    let b = to_le_bytes 8 e.end in
    let c = to_le_bytes 8 e.file_offset_pages in
    let rest = entries_bytes files behind in
    let la = length-to_le_bytes 8 e.start in
    let lb = length-to_le_bytes 8 e.end in
    let lc = length-to_le_bytes 8 e.file_offset_pages in
    let whole = before ++ (a ++ (b ++ (c ++ rest))) in
    let e₁ : whole ≡ (before ++ a) ++ (b ++ (c ++ rest)) = sym (append_assoc before a _) in
    let e₂ : whole ≡ ((before ++ a) ++ b) ++ (c ++ rest) =
      e₁ ∙ sym (append_assoc (before ++ a) b _) in
    let e₃ : whole ≡ (((before ++ a) ++ b) ++ c) ++ rest =
      e₂ ∙ sym (append_assoc ((before ++ a) ++ b) c _) in
    let l₁ = length-append before a in
    let l₂ = length-append (before ++ a) b in
    let l₃ = length-append ((before ++ a) ++ b) c in
    let first : read_le 8 whole (16 + i * 24) ≡ some e.start =
      read_le-append 8 (16 + i * 24) e.start before (b ++ (c ++ rest)) (sym at) s in
    let second : read_le 8 whole (16 + i * 24 + 8) ≡ some e.end =
      ap (λ (x : List ℕ). read_le 8 x (16 + i * 24 + 8)) e₁
      ∙ read_le-append 8 (16 + i * 24 + 8) e.end (before ++ a) (c ++ rest) (omega (arith, l₁, la))
          t in
    let third : read_le 8 whole (16 + i * 24 + 16) ≡ some e.file_offset_pages =
      ap (λ (x : List ℕ). read_le 8 x (16 + i * 24 + 16)) e₂
      ∙ read_le-append 8 (16 + i * 24 + 16) e.file_offset_pages ((before ++ a) ++ b) rest
          (omega (arith, l₁, l₂, la, lb)) p in
    let others : parse_entries whole (i + 1) (length files) ≡ some (entries_of files) =
      ap (λ (x : List ℕ). parse_entries x (i + 1) (length files)) e₃
      ∙ parse_entries-entries_bytes files (((before ++ a) ++ b) ++ c) behind (i + 1)
          (omega (arith, l₁, l₂, l₃, la, lb, lc)) h in
    rw (first, second, third, others)

drop-entries_bytes :
    (files : List (Entry × List ℕ)) (behind : List ℕ)
    → drop (length files * 24) (entries_bytes files behind) ≡ behind
unfolding entries_bytes
drop-entries_bytes [] behind = refl
drop-entries_bytes ((e, name) ∷ files) behind =
    let n = length files * 24 in
    let la = length-to_le_bytes 8 e.start in
    let lb = length-to_le_bytes 8 e.end in
    let lc = length-to_le_bytes 8 e.file_offset_pages in
    drop-append (suc (length files) * 24) (n + 16) (to_le_bytes 8 e.start) _ (omega arith)
    ∙ drop-append (n + 16) (n + 8) (to_le_bytes 8 e.end) _ (omega arith)
    ∙ drop-append (n + 8) n (to_le_bytes 8 e.file_offset_pages) _ (omega arith)
    ∙ drop-entries_bytes files behind

-- the parse of a note whose parts are known
pub parse_nt_file-read :
    (lossy : List ℕ → String) (desc : List ℕ) (n page_size : ℕ) (entries : List Entry)
    (names : List ℕ)
    → 16 ≤ length desc
    → from_le_bytes (take 8 desc) ≡ n
    → from_le_bytes (take 8 (drop 8 desc)) ≡ page_size
    → 16 + n * 24 ≤ length desc
    → n * 24 < 2 ^ 63
    → parse_entries desc 0 n ≡ some entries
    → drop (16 + n * 24) desc ≡ names
    → parse_nt_file lossy desc ≡ or_unterminated (name_entries lossy page_size entries names)
unfolding parse_nt_file
parse_nt_file-read lossy desc n page_size entries names long number pages room fits read behind =
    let entries_end : (16 + n * 24) % 2 ^ 64 ≡ 16 + n * 24 = omega arith in
    rw (
      le→ltb (length desc) 16 long,
      number,
      entries_end,
      le→ltb (length desc) (16 + n * 24) room,
      le→ltb (2 ^ 63 - 1) (n * 24) (omega arith),
      read,
      pages,
      number,
      entries_end,
      behind,
    )

-- A note that describes some mapped files parses to a mapping for each, in order: its start and
-- the length up to its end (wrapping where the end is ahead of the start), its offset in the file (pages
-- times the page size, wrapping) and its name, or none if the name is empty. The numbers
-- are 64-bit words, names hold no zero byte, and there are fewer than 2 ^ 32 files.
pub parse_nt_file-note_bytes :
    (lossy : List ℕ → String) (page_size : ℕ) (files : List (Entry × List ℕ))
    → page_size < 2 ^ 64
    → All IsFile files
    → length files < 2 ^ 32
    → parse_nt_file lossy (note_bytes page_size files) ≡ ok (mappings_of lossy page_size files)
unfolding note_bytes
parse_nt_file-note_bytes lossy page_size files small good fits =
    let n = length files in
    let a = to_le_bytes 8 n in
    let b = to_le_bytes 8 page_size in
    let names = names_bytes files in
    let entries = entries_bytes files names in
    let la = length-to_le_bytes 8 n in
    let lb = length-to_le_bytes 8 page_size in
    let desc = a ++ (b ++ entries) in
    let size : length desc ≡ 16 + n * 24 + length names = omega (
      arith,
      length-append a (b ++ entries),
      length-append b entries,
      length-entries_bytes files names,
    ) in
    let number : from_le_bytes (take 8 desc) ≡ n =
      ap from_le_bytes (take-append_length 8 a (b ++ entries) (sym la))
      ∙ from_le_bytes-to_le_bytes 8 n (omega arith) in
    let second : drop 8 desc ≡ b ++ entries = drop-append 8 0 a (b ++ entries) (omega arith) in
    let pages : from_le_bytes (take 8 (drop 8 desc)) ≡ page_size =
      ap (λ (x : List ℕ). from_le_bytes (take 8 x)) second
      ∙ ap from_le_bytes (take-append_length 8 b entries (sym lb))
      ∙ from_le_bytes-to_le_bytes 8 page_size small in
    let regrouped : desc ≡ (a ++ b) ++ entries = sym (append_assoc a b entries) in
    let read : parse_entries desc 0 n ≡ some (entries_of files) =
      ap (λ (x : List ℕ). parse_entries x 0 n) regrouped
      ∙ parse_entries-entries_bytes files (a ++ b) names 0 (omega (arith, length-append a b))
          good in
    let behind : drop (16 + n * 24) desc ≡ names =
      drop-append (16 + n * 24) (8 + n * 24) a (b ++ entries) (omega arith)
      ∙ drop-append (8 + n * 24) (n * 24) b entries (omega arith)
      ∙ drop-entries_bytes files names in
    parse_nt_file-read lossy desc n page_size (entries_of files) names (omega arith) number pages
      (omega arith) (omega arith) read behind
    ∙ ap or_unterminated (name_entries-names_bytes lossy page_size files good)
