-- ===== src/Coredump.antt =====
-- kit/coredump/src: reads of memory from an ELF core file, and its notes. The `object` crate parses the
-- file: the segments and the descriptors of the notes are arguments. Sums on u64 and usize wrap as in
-- a release build on a 64-bit machine. `lossy` stands for `String::from_utf8_lossy`.
pub mod Reads
pub mod Notes
pub mod Panics
use pyroscope_rs.Base.{
  ℕ, zero, suc, ◌+◌, ◌-◌, ◌*◌, ◌%◌, ◌^◌, String, Bool, true, false, ◌&&◌, List, [], ◌∷◌, ◌++◌,
  Option, none, some, length, take, drop, ◌==◌, eqb, leb, ltb, if◌then◌else◌, option_bind,
}
use pyroscope_rs.Base.Equality.{string_eq}
use pyroscope_rs.Base.Bytes.{from_le_bytes, read_le}

pub record Segment : Type 0 where
  pub vaddr : ℕ
  pub memsz : ℕ
  pub file_offset : ℕ
  pub filesz : ℕ

pub record Mapping : Type 0 where
  pub vaddr : ℕ
  pub length : ℕ
  pub flags : ℕ
  pub file_offset : ℕ
  pub path : Option String

pub record ThreadInfo : Type 0 where
  pub lwp : ℕ
  pub gp_regs : List ℕ
  pub tp_base : ℕ

pub data CoredumpError : Type 0 where
  io : CoredumpError
  elf_parse : String → CoredumpError
  not_core_file : CoredumpError
  invalid_note : String → CoredumpError
  address_not_mapped : ℕ → CoredumpError
  read_out_of_bounds : ℕ → ℕ → CoredumpError

-- a `Result`, or a panic
pub data Outcome (A : Type 0) : Type 0 where
  ok : A → Outcome A
  err : CoredumpError → Outcome A
  panicked : Outcome A

abbrev pub saturating_add : ℕ → ℕ → ℕ
saturating_add a b = if ltb (a + b) (2 ^ 64) then a + b else 2 ^ 64 - 1

-- `core` is the file's `data`; `buf.copy_from_slice(&data[file_pos..file_end])` for a buffer of `len` bytes
unfoldable pub copy_slice : List ℕ → ℕ → ℕ → ℕ → Outcome (List ℕ)
copy_slice core len file_pos file_end =
    if leb file_pos file_end && leb file_end (length core) && eqb (file_end - file_pos) len
    then ok (take len (drop file_pos core))
    else panicked

-- the branch of `memory::read` for a segment that has the range
unfoldable pub read_segment : List ℕ → Segment → ℕ → ℕ → Outcome (List ℕ)
unfolding copy_slice
read_segment core seg addr len =
    let seg_rel = addr - seg.vaddr in
    let file_pos = (seg.file_offset + seg_rel) % 2 ^ 64 in
    let file_end = (file_pos + len) % 2 ^ 64 in
    if ltb seg.filesz ((seg_rel + len) % 2 ^ 64)
    then err (read_out_of_bounds addr len)
    else if ltb (length core) file_end
    then err (read_out_of_bounds addr len)
    else copy_slice core len file_pos file_end

-- `memory::read` into a buffer of `len` bytes: the bytes of the buffer afterwards
unfoldable pub read : List ℕ → List Segment → ℕ → ℕ → Outcome (List ℕ)
unfolding read_segment
read core [] addr len = err (address_not_mapped addr)
read core (seg ∷ segments) addr len =
    let rest = read core segments addr len in
    if leb seg.vaddr addr && leb (saturating_add addr len) (saturating_add seg.vaddr seg.memsz)
    then read_segment core seg addr len
    else rest

unfoldable pub number_of : Outcome (List ℕ) → Outcome ℕ
number_of (ok bytes) = ok (from_le_bytes bytes)
number_of (err e) = err e
number_of panicked = panicked

unfoldable pub read_u64 : List ℕ → List Segment → ℕ → Outcome ℕ
unfolding number_of read
read_u64 core segments addr = number_of (read core segments addr 8)

unfoldable pub read_u32 : List ℕ → List Segment → ℕ → Outcome ℕ
unfolding number_of read
read_u32 core segments addr = number_of (read core segments addr 4)

-- the layout of `elf_prstatus` on x86_64: 336 bytes, the thread id at 32, 216 bytes of registers at 112,
-- among them fs_base as number 21
unfoldable pub parse_prstatus : List ℕ → List ThreadInfo → Outcome (List ThreadInfo)
parse_prstatus desc threads =
    if ltb (length desc) 336
    then err (invalid_note "NT_PRSTATUS too short for x86_64")
    else let gp_regs = take 216 (drop 112 desc) in
      ok (
        threads
        ++ record {
          lwp = from_le_bytes (take 4 (drop 32 desc));
          gp_regs = gp_regs;
          tp_base = from_le_bytes (take 8 (drop 168 gp_regs));
        }
          ∷ [])

pub record Entry : Type 0 where
  pub start : ℕ
  pub end : ℕ
  pub file_offset_pages : ℕ

-- the loop over the entries, `n` of them from number `i` on; `none` is an index out of bounds
unfoldable pub parse_entries : List ℕ → ℕ → ℕ → Option (List Entry)
parse_entries desc i zero = some []
parse_entries desc i (suc n) =
    let base = 16 + i * 24 in
    option_bind (read_le 8 desc base) λ start. option_bind (read_le 8 desc (base + 8)) λ end.
      option_bind (read_le 8 desc (base + 16)) λ pages.
        option_bind (parse_entries desc (i + 1) n)
          λ entries. some (record { start = start; end = end; file_offset_pages = pages } ∷ entries)

-- the bytes before the first zero, and those after it
unfoldable pub split_null : List ℕ → Option (List ℕ × List ℕ)
split_null [] = none
split_null (b ∷ bytes) =
    let rest = split_null bytes in
    if eqb b 0 then some ([], bytes) else option_bind rest λ (name, behind). some (b ∷ name, behind)

unfoldable pub path_of : (List ℕ → String) → List ℕ → Option String
path_of lossy [] = none
path_of lossy (b ∷ name) = some (lossy (b ∷ name))

unfoldable pub mapping_of : (List ℕ → String) → ℕ → Entry → List ℕ → Mapping
unfolding path_of
mapping_of lossy page_size entry name = record {
  vaddr = entry.start;
  length = (entry.end + (2 ^ 64 - entry.start)) % 2 ^ 64;
  flags = 0;
  file_offset = entry.file_offset_pages * page_size % 2 ^ 64;
  path = path_of lossy name;
}

-- the loop over the names; `none` is a name without its end
unfoldable pub name_entries : (List ℕ → String) → ℕ → List Entry → List ℕ → Option (List Mapping)
unfolding split_null mapping_of
name_entries lossy page_size [] names = some []
name_entries lossy page_size (entry ∷ entries) names =
    option_bind (split_null names) λ (name, behind).
      option_bind (name_entries lossy page_size entries behind)
        λ mappings. some (mapping_of lossy page_size entry name ∷ mappings)

abbrev pub or_unterminated : Option (List Mapping) → Outcome (List Mapping)
or_unterminated none = err (invalid_note "NT_FILE filename missing null terminator")
or_unterminated (some mappings) = ok mappings

-- `Vec::with_capacity` panics where the bytes of its elements pass `isize::MAX`
unfoldable pub parse_nt_file : (List ℕ → String) → List ℕ → Outcome (List Mapping)
unfolding parse_entries name_entries
parse_nt_file lossy desc =
    if ltb (length desc) 16
    then err (invalid_note "NT_FILE too short for header")
    else let num_files = from_le_bytes (take 8 desc) in
      let page_size = from_le_bytes (take 8 (drop 8 desc)) in
      let entries_end = (16 + num_files * 24) % 2 ^ 64 in
      if ltb (length desc) entries_end
      then err (invalid_note "NT_FILE truncated entries")
      else if ltb (2 ^ 63 - 1) (num_files * 24)
      then panicked
      else elim (parse_entries desc 0 num_files) [
        | none ↦ panicked
        | some entries ↦
            or_unterminated (name_entries lossy page_size entries (drop entries_end desc))
      ]

-- a program header of the file
pub record ProgramHeader : Type 0 where
  pub p_type : ℕ
  pub p_vaddr : ℕ
  pub p_memsz : ℕ
  pub p_offset : ℕ
  pub p_filesz : ℕ

-- the headers of type PT_LOAD
unfoldable pub collect_segments : List ProgramHeader → List Segment
collect_segments [] = []
collect_segments (ph ∷ headers) =
    let rest = collect_segments headers in
    if eqb ph.p_type 1
    then record {
      vaddr = ph.p_vaddr;
      memsz = ph.p_memsz;
      file_offset = ph.p_offset;
      filesz = ph.p_filesz;
    }
      ∷ rest
    else rest

-- what the iterators over the notes give in turn: an error, or a note with its name
pub data Note : Type 0 where
  broken : String → Note
  note : String → ℕ → List ℕ → Note

unfoldable pub parse_note :
    (List ℕ → String)
    → Note
    → List Mapping × List ThreadInfo
    → Outcome (List Mapping × List ThreadInfo)
unfolding parse_prstatus parse_nt_file
parse_note lossy (broken message) (mappings, threads) = err (elf_parse message)
parse_note lossy (note name n_type desc) (mappings, threads) =
    if name == "CORE" && eqb n_type 1
    then elim (parse_prstatus desc threads) [
      | ok threads' ↦ ok (mappings, threads')
      | err e ↦ err e
      | panicked ↦ panicked
    ]
    else if name == "CORE" && eqb n_type 0x46494c45
    then elim (parse_nt_file lossy desc) [
      | ok mappings' ↦ ok (mappings', threads)
      | err e ↦ err e
      | panicked ↦ panicked
    ]
    else ok (mappings, threads)

unfoldable pub parse_notes :
    (List ℕ → String)
    → List Note
    → List Mapping × List ThreadInfo
    → Outcome (List Mapping × List ThreadInfo)
unfolding parse_note
parse_notes lossy [] found = ok found
parse_notes lossy (n ∷ notes) found = elim (parse_note lossy n found) [
  | ok found' ↦ parse_notes lossy notes found'
  | err e ↦ err e
  | panicked ↦ panicked
]
