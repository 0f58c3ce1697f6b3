-- ===== src/Coredump/Panics.antt =====
-- When the parse of an NT_FILE note panics (kit/coredump/src/notes.rs).
use pyroscope_rs.Base.{
  ℕ, zero, suc, ◌-◌, ◌+◌, ◌*◌, ◌%◌, ◌^◌, ◌≤◌, ◌<◌, ◌≡◌, refl, sym, ◌∙◌, ◌↔◌, String, List, [],
  Option, none, some, arith, length, take, drop, ltb, le→ltb, lt→ltb, ltb→le, ltb→lt, le→leb,
  Bool-cases, inl, inr,
}
use pyroscope_rs.Base.Bytes.{from_le_bytes, read_le}
use pyroscope_rs.Coredump.Notes.{parse_nt_file-read}
use pyroscope_rs.Coredump.{
  Mapping, panicked, Entry, parse_entries, name_entries, or_unterminated, parse_nt_file,
}

read_le-some :
    (k : ℕ) (buf : List ℕ) (offset : ℕ)
    → offset + k ≤ length buf
    → read_le k buf offset ≡ some (from_le_bytes (take k (drop offset buf)))
unfolding read_le
read_le-some k buf offset room = rw (le→leb (offset + k) (length buf) room)

-- The loop over the entries reads no byte behind the note, if the note has room for them.
parse_entries-some :
    (desc : List ℕ) (i n : ℕ)
    → 16 + (i + n) * 24 ≤ length desc
    → (entries : List Entry) × (parse_entries desc i n ≡ some entries)
unfolding parse_entries
parse_entries-some desc i zero room = ([], refl)
parse_entries-some desc i (suc n) room =
    let base = 16 + i * 24 in
    let (entries, others) = parse_entries-some desc (i + 1) n (omega arith) in
    rw
      (
        read_le-some 8 desc base (omega arith),
        read_le-some 8 desc (base + 8) (omega arith),
        read_le-some 8 desc (base + 16) (omega arith),
        others,
      )
      (_, refl)

or_unterminated-returns : (m : Option (List Mapping)) → or_unterminated m ≡ panicked → ⊥
or_unterminated-returns none h = cc
or_unterminated-returns (some mappings) h = cc

-- A parse that gets as far as the entries, of which the note has room for all, returns.
parse_nt_file-returns :
    (lossy : List ℕ → String) (desc : List ℕ)
    → 16 ≤ length desc
    → 16 + from_le_bytes (take 8 desc) * 24 ≤ length desc
    → from_le_bytes (take 8 desc) * 24 < 2 ^ 63
    → parse_nt_file lossy desc ≡ panicked
    → ⊥
parse_nt_file-returns lossy desc long room fits h =
    let n = from_le_bytes (take 8 desc) in
    let page_size = from_le_bytes (take 8 (drop 8 desc)) in
    let (entries, read) = parse_entries-some desc 0 n (omega (arith, room)) in
    let behind = drop (16 + n * 24) desc in
    let result =
      parse_nt_file-read lossy desc n page_size entries behind long refl refl room fits read refl in
    or_unterminated-returns (name_entries lossy page_size entries behind) (sym result ∙ h)

-- The parse of a note panics exactly where the note has its header of 16 bytes and claims so many files that their
-- entries, of 24 bytes each, would be 2 ^ 63 bytes or more, but for which the end of the entries, computed
-- modulo 2 ^ 64, lies within the note. On every other note it returns, and in particular it reads no byte
-- behind the note.
pub parse_nt_file-panicked_iff :
    (lossy : List ℕ → String) (desc : List ℕ)
    → (parse_nt_file lossy desc ≡ panicked) ↔ (
        (16 ≤ length desc)
        × (2 ^ 63 ≤ from_le_bytes (take 8 desc) * 24)
        × ((16 + from_le_bytes (take 8 desc) * 24) % 2 ^ 64 ≤ length desc))
unfolding parse_nt_file
parse_nt_file-panicked_iff lossy desc = (only, wraps)
  where
    n : ℕ
    n = from_le_bytes (take 8 desc)

    wraps :
        (16 ≤ length desc) × (2 ^ 63 ≤ n * 24) × ((16 + n * 24) % 2 ^ 64 ≤ length desc)
        → parse_nt_file lossy desc ≡ panicked
    wraps (long, many, passes) = rw (
      le→ltb (length desc) 16 long,
      le→ltb (length desc) ((16 + n * 24) % 2 ^ 64) passes,
      lt→ltb (2 ^ 63 - 1) (n * 24) (omega arith),
    )

    only :
        parse_nt_file lossy desc ≡ panicked
        → (16 ≤ length desc) × (2 ^ 63 ≤ n * 24) × ((16 + n * 24) % 2 ^ 64 ≤ length desc)
    only h = elim (Bool-cases (ltb (length desc) 16)) [
      | inl short ↦ absurd (cc (rw short at h))
      | inr long ↦ elim (Bool-cases (ltb (length desc) ((16 + n * 24) % 2 ^ 64))) [
        | inl truncated ↦ absurd (cc (rw (long, truncated) at h))
        | inr passes ↦ elim (Bool-cases (ltb (2 ^ 63 - 1) (n * 24))) [
          | inl many ↦ (ltb→le _ _ long, omega (arith, ltb→lt _ _ many), ltb→le _ _ passes)
          | inr few ↦
              let fits : n * 24 < 2 ^ 63 = omega (arith, ltb→le _ _ few) in
              let long' : 16 ≤ length desc = ltb→le _ _ long in
              let passes' : (16 + n * 24) % 2 ^ 64 ≤ length desc = ltb→le _ _ passes in
              absurd (parse_nt_file-returns lossy desc long' (omega arith) fits h)
        ]
      ]
    ]
