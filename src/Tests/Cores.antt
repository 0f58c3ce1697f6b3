-- ===== src/Tests/Cores.antt =====
-- Reads and notes of kit/coredump on small files.
use pyroscope_rs.Base.{
  ◌↔◌, ◌≤◌, ◌+◌, ◌*◌, ◌%◌, length, ℕ, ◌^◌, ◌≡◌, refl, List, [], ◌∷◌, String, arith, All, take,
}
use pyroscope_rs.Base.Bytes.{from_le_bytes}
use pyroscope_rs.Coredump.{Segment, panicked, ok, read, Entry, parse_nt_file}
use pyroscope_rs.Coredump.Reads.{IsSane, covering, expected_bytes, read-expected_bytes}
use pyroscope_rs.Coredump.Panics.{parse_nt_file-panicked_iff}
use pyroscope_rs.Coredump.Notes.{note_bytes, mappings_of, IsFile, parse_nt_file-note_bytes}

abbrev file : List ℕ
file = 10 ∷ 11 ∷ 12 ∷ 13 ∷ 14 ∷ 15 ∷ []

-- six bytes in memory, of which the file has four, from its byte 2 on
abbrev segment : Segment
segment = record { vaddr = 4096; memsz = 6; file_offset = 2; filesz = 4 }

segment-IsSane : All IsSane (segment ∷ [])
segment-IsSane = ((omega arith, omega arith), tt)

read-expected_bytes_example :
    read file (segment ∷ []) 4097 2 ≡ expected_bytes file 4097 2 (covering 4097 2 (segment ∷ []))
read-expected_bytes_example =
    read-expected_bytes file (segment ∷ []) 4097 2 segment-IsSane (omega arith)

two_bytes : expected_bytes file 4097 2 (covering 4097 2 (segment ∷ [])) ≡ ok (13 ∷ 14 ∷ [])
two_bytes = refl

abbrev lossy : List ℕ → String
lossy bytes = "name"

abbrev files : List (Entry × List ℕ)
files =
    (record { start = 4096; end = 8192; file_offset_pages = 3 }, 47 ∷ 97 ∷ [])
    ∷ (record { start = 8192; end = 12288; file_offset_pages = 0 }, [])
    ∷ []

files-IsFile : All IsFile files
files-IsFile = (
  (
    omega arith,
    omega arith,
    omega arith,
    (λ e. absurd (omega arith), (λ e. absurd (omega arith), tt)),
  ),
  ((omega arith, omega arith, omega arith, tt), tt),
)

parse_nt_file-note_bytes_example :
    parse_nt_file lossy (note_bytes 4096 files) ≡ ok (mappings_of lossy 4096 files)
parse_nt_file-note_bytes_example =
    parse_nt_file-note_bytes lossy 4096 files (omega arith) files-IsFile (omega arith)

-- 2 ^ 61 files and a page size
abbrev bogus : List ℕ
bogus = 0 ∷ 0 ∷ 0 ∷ 0 ∷ 0 ∷ 0 ∷ 0 ∷ 32 ∷ 0 ∷ 16 ∷ 0 ∷ 0 ∷ 0 ∷ 0 ∷ 0 ∷ 0 ∷ []

claimed : from_le_bytes (take 8 bogus) ≡ 2 ^ 61
unfolding from_le_bytes
claimed = refl

parse_nt_file-panicked_iff_example : (parse_nt_file lossy bogus ≡ panicked) ↔ (
    (16 ≤ length bogus)
    × (2 ^ 63 ≤ from_le_bytes (take 8 bogus) * 24)
    × ((16 + from_le_bytes (take 8 bogus) * 24) % 2 ^ 64 ≤ length bogus))
parse_nt_file-panicked_iff_example = parse_nt_file-panicked_iff lossy bogus

-- the 16 bytes panic
bogus_panics : parse_nt_file lossy bogus ≡ panicked
bogus_panics =
    (parse_nt_file-panicked_iff lossy bogus).1
      (omega arith, omega (arith, claimed), omega (arith, claimed))
