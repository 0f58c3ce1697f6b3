-- ===== src/Coredump/Reads.antt =====
-- Reads of memory from a core file (kit/coredump/src/memory.rs).
use pyroscope_rs.Base.{
  ℕ, ◌+◌, ◌-◌, ◌^◌, ◌<◌, ◌≡◌, refl, ◌&&◌, List, [], ◌∷◌, Option, none, some, arith, All, length,
  take, drop, leb, if◌then◌else◌, Bool-cases, inl, inr,
}
use pyroscope_rs.Coredump.{
  Segment, address_not_mapped, read_out_of_bounds, Outcome, ok, err, copy_slice, read_segment, read,
}

-- the segment neither wraps around in memory nor in the file
abbrev pub IsSane : Segment → Type 0
IsSane seg = (seg.vaddr + seg.memsz < 2 ^ 64) × (seg.file_offset + seg.filesz < 2 ^ 64)

-- the first segment that has all bytes of a range
abbrev pub covering : ℕ → ℕ → List Segment → Option Segment
covering addr len [] = none
covering addr len (seg ∷ segments) =
    let rest = covering addr len segments in
    if leb seg.vaddr addr && leb (addr + len) (seg.vaddr + seg.memsz) then some seg else rest

-- What a read is to give: the bytes of the file behind the offset of the segment, if the file has them.
abbrev pub expected_bytes : List ℕ → ℕ → ℕ → Option Segment → Outcome (List ℕ)
expected_bytes core addr len none = err (address_not_mapped addr)
expected_bytes core addr len (some seg) =
    let position = seg.file_offset + (addr - seg.vaddr) in
    if leb (addr - seg.vaddr + len) seg.filesz && leb (position + len) (length core)
    then ok (take len (drop position core))
    else err (read_out_of_bounds addr len)

-- In a core file with sane segments a read of a range that does not wrap never panics: it gives the bytes
-- of the first segment with the range, or an error where no segment has it or the file has not all its
-- bytes.
pub read-expected_bytes :
    (core : List ℕ) (segments : List Segment) (addr len : ℕ)
    → All IsSane segments
    → addr + len < 2 ^ 64
    → read core segments addr len ≡ expected_bytes core addr len (covering addr len segments)
unfolding read read_segment copy_slice
read-expected_bytes core [] addr len sane fits = refl
read-expected_bytes core (seg ∷ segments) addr len (sane, rest) fits =
    elim (Bool-cases (leb seg.vaddr addr && leb (addr + len) (seg.vaddr + seg.memsz))) [
      | inl here ↦ ground (arith, here, sane.0, sane.1, fits)
      | inr there ↦
          ground (
            arith,
            there,
            sane.0,
            sane.1,
            fits,
            read-expected_bytes core segments addr len rest fits,
          )
    ]
