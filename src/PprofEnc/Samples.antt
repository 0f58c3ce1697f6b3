-- ===== src/PprofEnc/Samples.antt =====
-- `add_sample` (kit/pprof_enc/src/lib.rs) against a table from stacks to totals.
use pyroscope_rs.Base.{
  ℕ, zero, suc, ◌+◌, ◌%◌, ◌^◌, ◌<◌, ◌≡◌, refl, List, [], ◌∷◌, ◌++◌, Option, none, some, arith,
  get_elem?, set, ◌==◌, if◌then◌else◌, Bool, false,
}
use pyroscope_rs.Base.Index.{IsIndex}
use pyroscope_rs.PprofEnc.{Sample, Frame, stack_eq, ids_eq, ProfileBuilder}
use pyroscope_rs.PprofEnc.Tables.{resolve, IsTables}
use pyroscope_rs.PprofEnc.Locations.{resolve_all}

-- A sample stands for a stack, and carries one value.
pub record IsSample (r : ℕ → Option Frame) (s : Sample) : Type 0 where
  pub frames : List Frame
  pub value : ℕ
  pub resolves : resolve_all r s.location_id ≡ some frames
  pub one_value : s.value ≡ value ∷ []
  pub fits : value < 2 ^ 64

pub record IsValid (b : ProfileBuilder) : Type 0 where
  pub tables : IsTables b
  pub sampled : IsIndex (λ s. s.location_id) 0 b.samples b.sample_index
  pub samples : (i : ℕ) (s : Sample) → get_elem? b.samples i ≡ some s → IsSample (resolve b) s

abbrev stands_for : (ℕ → Option Frame) → Sample → List Frame → Bool
stands_for r s frames = is_stack (resolve_all r s.location_id) frames
  where
    is_stack : Option (List Frame) → List Frame → Bool
    is_stack none gs = false
    is_stack (some fs) gs = fs == gs

abbrev first_value : List ℕ → ℕ
first_value [] = 0
first_value (v ∷ _) = v

-- What the samples say of one stack: the sum of the values of all samples that stand for it.
abbrev pub total_of : (ℕ → Option Frame) → List Sample → List Frame → ℕ
total_of r [] frames = 0
total_of r (s ∷ ss) frames =
    let rest = total_of r ss frames in
    if stands_for r s frames then (first_value s.value + rest) % 2 ^ 64 else rest

unfoldable pub total : ProfileBuilder → List Frame → ℕ
total b frames = total_of (resolve b) b.samples frames

pub total_of-push :
    (r : ℕ → Option Frame) (ss : List Sample) (ids : List ℕ) (v : ℕ) (fs frames : List Frame)
    → resolve_all r ids ≡ some fs
    → total_of r (ss ++ record { location_id = ids; value = v ∷ [] } ∷ []) frames
      ≡ (if fs == frames then (total_of r ss frames + v) % 2 ^ 64 else total_of r ss frames)
total_of-push r [] ids v fs frames h = rw h (ground arith)
total_of-push r (s ∷ ss) ids v fs frames h = ground (arith, total_of-push r ss ids v fs frames h)

pub total_of-set :
    (r : ℕ → Option Frame) (ss : List Sample) (i : ℕ) (s : Sample) (v₀ v : ℕ)
    (fs frames : List Frame)
    → get_elem? ss i ≡ some s
    → s.value ≡ v₀ ∷ []
    → resolve_all r s.location_id ≡ some fs
    → total_of r (set ss i (record s { value = ((v₀ + v) % 2 ^ 64) ∷ [] })) frames
      ≡ (if fs == frames then (total_of r ss frames + v) % 2 ^ 64 else total_of r ss frames)
total_of-set r [] i s v₀ v fs frames h one res = cc
total_of-set r (t ∷ ss) zero s v₀ v fs frames h one res =
    let e : t ≡ s = ground (arith, h) in rw (e, res, one) (ground arith)
total_of-set r (t ∷ ss) (suc i) s v₀ v fs frames h one res =
    ground (arith, total_of-set r ss i s v₀ v fs frames h one res)

-- A longer table leaves the totals of the samples at hand.
pub total_of-resolves :
    (r r' : ℕ → Option Frame) (ss : List Sample) (frames : List Frame)
    → ((i : ℕ) (s : Sample)
        → get_elem? ss i ≡ some s
        → resolve_all r' s.location_id ≡ resolve_all r s.location_id)
    → total_of r' ss frames ≡ total_of r ss frames
total_of-resolves r r' [] frames same = refl
total_of-resolves r r' (s ∷ ss) frames same =
    rw (same 0 s refl, total_of-resolves r r' ss frames (λ i t h. same (suc i) t h))
