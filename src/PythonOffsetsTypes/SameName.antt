-- ===== src/PythonOffsetsTypes/SameName.antt =====
-- The fields of the two layouts by name, and the conversion (kit/python_offsets_types/src/lib.rs).
use pyroscope_rs.Base.{ℕ, String, ◌≡◌, refl, map, some, Eq}
use pyroscope_rs.Base.Equality.{String-discrete}
use pyroscope_rs.Base.Map
use pyroscope_rs.PythonOffsetsTypes.Py314
use pyroscope_rs.PythonOffsetsTypes.Fields.{fields_313, fields_314}
use pyroscope_rs.PythonOffsetsTypes.{from}

unfoldable pub FieldName-discrete : Discrete (String × String)
FieldName-discrete = hlevel String-discrete

instance abbrev pub field_name_eq : Eq (String × String)
field_name_eq = record { dec = FieldName-discrete }

from-entries :
    (v : Py314.DebugOffsets)
    → map (λ (e : (String × String) × ℕ). Map.get e.0 (fields_314 v)) (fields_313 (from v))
      ≡ map (λ (e : (String × String) × ℕ). some e.1) (fields_313 (from v))
unfolding fields_313 fields_314 from Map.get FieldName-discrete String-discrete
from-entries v = refl

-- Whatever field the 3.13 layout has, the conversion gives it the value of the 3.14 field with the
-- same struct and field name; and it keeps the cookie.
pub from-same_name :
    (v : Py314.DebugOffsets) (name : String × String) (x : ℕ)
    → Map.get name (fields_313 (from v)) ≡ some x
    → ((from v).cookie ≡ v.cookie) × (Map.get name (fields_314 v) ≡ some x)
from-same_name v name x h = (
  unfold from in refl,
  Map.get-submap (fields_313 (from v)) (fields_314 v) name (from-entries v) h,
)
