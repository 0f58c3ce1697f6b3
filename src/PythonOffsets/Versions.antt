-- ===== src/PythonOffsets/Versions.antt =====
-- Versions and the header of the debug offsets (kit/python_offsets/src/lib.rs).
use pyroscope_rs.Base.{
  ℕ, ◌+◌, ◌*◌, ◌/◌, ◌%◌, ◌^◌, ◌<◌, ◌≤◌, ◌≡◌, ◌↔◌, ap, ◌∙◌, ◌&&◌, List, Option, some, arith, length,
  take, drop, eqb, if◌then◌else◌, Option-cases, inl, inr,
}
use pyroscope_rs.Base.Bytes.{from_le_bytes}
use pyroscope_rs.PythonOffsets.{
  unsupported_version, ok, err, cookie, PythonVersion, parse_version, check_version, detect_version,
  read_version_hex, parse_repr_c, read_debug_offsets,
}

-- `PY_VERSION_HEX`
abbrev pub version_hex : PythonVersion → ℕ → ℕ
version_hex v level = v.major * 2 ^ 24 + v.minor * 2 ^ 16 + v.micro * 2 ^ 8 + level

parse_version-version_hex :
    (v : PythonVersion) (level : ℕ)
    → v.major < 256
    → v.minor < 256
    → v.micro < 256
    → level < 256
    → parse_version (version_hex v level) ≡ v
unfolding parse_version
parse_version-version_hex v level a b c d =
    let p : version_hex v level / 2 ^ 24 % 256 ≡ v.major = omega arith in
    let q : version_hex v level / 2 ^ 16 % 256 ≡ v.minor = omega arith in
    let r : version_hex v level / 2 ^ 8 % 256 ≡ v.micro = omega arith in
    λ i. record { major = p i; minor = q i; micro = r i }

-- Where the word at `Py_Version` has the encoding of a version in its low 32 bits, whatever stands above
-- them, `detect_version` gives that version if it is 3.14 and an error for any other, and
-- `read_version_hex` gives the encoding.
pub detect_version-version_hex :
    (read : ℕ → Option ℕ) (addr high level : ℕ) (v : PythonVersion)
    → v.major < 256
    → v.minor < 256
    → v.micro < 256
    → level < 256
    → read addr ≡ some (high * 2 ^ 32 + version_hex v level)
    → (detect_version read addr
        ≡ (if eqb v.major 3 && eqb v.minor 14 then ok v else err unsupported_version))
      × (read_version_hex read addr ≡ ok (version_hex v level))
unfolding detect_version read_version_hex check_version
detect_version-version_hex read addr high level v a b c d at_addr =
    let low : (high * 2 ^ 32 + version_hex v level) % 2 ^ 32 ≡ version_hex v level = omega arith in
    (
      rw (at_addr, detect_version, low, parse_version-version_hex v level a b c d) (ground arith),
      rw (at_addr, read_version_hex, low),
    )

-- The header of a buffer with the debug offsets: long enough, the cookie, the version, not free threaded.
pub record HasHeader (size : ℕ) (buf : List ℕ) (version : ℕ) : Type 0 where
  pub long : size ≤ length buf
  pub has_cookie : from_le_bytes (take 8 buf) ≡ cookie
  pub has_version : from_le_bytes (take 8 (drop 8 buf)) ≡ version
  pub with_gil : from_le_bytes (take 8 (drop 16 buf)) ≡ 0

parse_repr_c-ok :
    {T : Type 0} (size : ℕ) (layout : List ℕ → T) (buf : List ℕ) (version : ℕ) (t : T)
    → parse_repr_c size layout buf version ≡ ok t
    → HasHeader size buf version × (layout (take size buf) ≡ t)
unfolding parse_repr_c
parse_repr_c-ok size layout buf version t h = (
  record {
    long = ground (arith, h);
    has_cookie = ground (arith, h);
    has_version = ground (arith, h);
    with_gil = ground (arith, h);
  },
  ground (arith, h),
)

parse_repr_c-HasHeader :
    {T : Type 0} (size : ℕ) (layout : List ℕ → T) (buf : List ℕ) (version : ℕ)
    → HasHeader size buf version
    → parse_repr_c size layout buf version ≡ ok (layout (take size buf))
unfolding parse_repr_c
parse_repr_c-HasHeader size layout buf version x =
    ground (arith, x.long, x.has_cookie, x.has_version, x.with_gil)

-- `read_debug_offsets` succeeds exactly for the minor version 14 on memory that can be read and has the
-- header for the version word given, and then gives what the layout reads from the bytes.
pub read_debug_offsets_iff :
    {T : Type 0} (size : ℕ) (layout : List ℕ → T) (slice : ℕ → ℕ → Option (List ℕ)) (addr : ℕ)
    (v : PythonVersion) (version : ℕ) (t : T)
    → (read_debug_offsets size layout slice addr v version ≡ ok t) ↔ (
        (buf : List ℕ) × (v.minor ≡ 14)
        × (slice size addr ≡ some buf)
        × HasHeader size buf version
        × (layout (take size buf) ≡ t))
unfolding read_debug_offsets
read_debug_offsets_iff size layout slice addr v version t = (
  λ h.
      let minor : v.minor ≡ 14 = ground (arith, h) in
      elim (Option-cases (slice size addr)) [
        | inl fault ↦ absurd (ground (arith, rw (fault, read_debug_offsets) at h))
        | inr (buf, at_addr) ↦
            let parsed : parse_repr_c size layout buf version ≡ ok t =
              ground (arith, minor, rw (at_addr, read_debug_offsets) at h) in
            let (header, same) = parse_repr_c-ok size layout buf version t parsed in
            (buf, minor, at_addr, header, same)
      ],
  λ (buf, minor, at_addr, header, same).
      rw (at_addr, read_debug_offsets, minor)
        (parse_repr_c-HasHeader size layout buf version header ∙ ap ok same),
)
