-- ===== src/StateMachine/FieldMap.antt =====
-- What the fields of a key stand for: a list of pairs of a field and a value, each field once.
use quarkdb.Base.{
  ◌+◌, ◌≤◌, ◌≡◌, not, refl, ap, Bool, true, false, Option, none, some, is_some, List, [], ◌∷◌,
  Bytes, bytes_eq, bytes_eq_iff, if◌then◌else◌, length, arith, Bool-cases, inl, inr,
}
use quarkdb.StateMachine.Status.{count_of}

abbrev pub FieldMap : Type 0
FieldMap = List (Bytes × Bytes)

abbrev pub find : FieldMap → Bytes → Option Bytes
find [] f = none
find ((k, v) ∷ m) f = let rest = find m f in if bytes_eq k f then some v else rest

abbrev pub has : FieldMap → Bytes → Bool
has m f = is_some (find m f)

abbrev pub insert : FieldMap → Bytes → Bytes → FieldMap
insert [] f v = (f, v) ∷ []
insert ((k, w) ∷ m) f v =
    let rest = insert m f v in if bytes_eq k f then (k, v) ∷ m else (k, w) ∷ rest

abbrev pub erase : FieldMap → Bytes → FieldMap
erase [] f = []
erase ((k, w) ∷ m) f = let rest = erase m f in if bytes_eq k f then rest else (k, w) ∷ rest

abbrev pub IsDistinct : FieldMap → Type 0
IsDistinct [] = Unit {0}
IsDistinct ((k, v) ∷ m) = (find m k ≡ none) × IsDistinct m

pub bytes_eq_refl : (f : Bytes) → bytes_eq f f ≡ true
bytes_eq_refl f = (bytes_eq_iff f f).1 refl

pub find-insert :
    (m : FieldMap) (f v g : Bytes)
    → find (insert m f v) g ≡ (if bytes_eq f g then some v else find m g)
find-insert [] f v g = refl
find-insert ((k, w) ∷ m) f v g =
    ground (arith, find-insert m f v g, bytes_eq_iff k f, bytes_eq_iff k g, bytes_eq_iff f g)

pub find-erase :
    (m : FieldMap) (f g : Bytes) → find (erase m f) g ≡ (if bytes_eq f g then none else find m g)
find-erase [] f g = ground arith
find-erase ((k, w) ∷ m) f g =
    ground (arith, find-erase m f g, bytes_eq_iff k f, bytes_eq_iff k g, bytes_eq_iff f g)

bytes_eq_sym : (f g : Bytes) → bytes_eq f g ≡ bytes_eq g f
bytes_eq_sym f g = ground (arith, bytes_eq_iff f g, bytes_eq_iff g f)

pub length-insert :
    (m : FieldMap) (f v : Bytes) → length (insert m f v) + count_of (has m f) ≡ length m + 1
length-insert [] f v = refl
length-insert ((k, w) ∷ m) f v = ground (arith, length-insert m f v)

pub erase_absent : (m : FieldMap) (f : Bytes) → find m f ≡ none → erase m f ≡ m
erase_absent [] f e = refl
erase_absent ((k, w) ∷ m) f e = ground (arith, erase_absent m f)

pub length-erase :
    (m : FieldMap) (f : Bytes) → IsDistinct m → length (erase m f) + count_of (has m f) ≡ length m
length-erase [] f d = refl
length-erase ((k, w) ∷ m) f (new, d) = elim (Bool-cases (bytes_eq k f)) [
  | inl e ↦
      let same = (bytes_eq_iff k f).0 e in
      let shorter = erase_absent m f (rw same at new) in rw e (rw shorter (ground arith))
  | inr e ↦ rw e (ground (arith, length-erase m f d))
]

pub insert-IsDistinct : (m : FieldMap) (f v : Bytes) → IsDistinct m → IsDistinct (insert m f v)
insert-IsDistinct [] f v d = (refl, tt)
insert-IsDistinct ((k, w) ∷ m) f v (new, d) = elim (Bool-cases (bytes_eq k f)) [
  | inl e ↦ rw e (new, d)
  | inr e ↦ rw e (ground (arith, find-insert m f v k, bytes_eq_sym f k), insert-IsDistinct m f v d)
]

pub erase-IsDistinct : (m : FieldMap) (f : Bytes) → IsDistinct m → IsDistinct (erase m f)
erase-IsDistinct [] f d = tt
erase-IsDistinct ((k, w) ∷ m) f (new, d) = elim (Bool-cases (bytes_eq k f)) [
  | inl e ↦ rw e (erase-IsDistinct m f d)
  | inr e ↦ rw e (ground (arith, find-erase m f k), erase-IsDistinct m f d)
]

-- Several fields set, added or erased, in order.
abbrev pub insert_all : FieldMap → List Bytes → FieldMap
insert_all m [] = m
insert_all m (f ∷ []) = m
insert_all m (f ∷ v ∷ rest) = insert_all (insert m f v) rest

abbrev pub erase_all : FieldMap → List Bytes → FieldMap
erase_all m [] = m
erase_all m (f ∷ rest) = erase_all (erase m f) rest

-- A field that is there keeps its value.
abbrev pub add_if : Bool → FieldMap → Bytes → Bytes → FieldMap
add_if true m f v = m
add_if false m f v = insert m f v

abbrev pub add : FieldMap → Bytes → Bytes → FieldMap
add m f v = add_if (has m f) m f v

abbrev pub add_all : Bytes → FieldMap → List Bytes → FieldMap
add_all v m [] = m
add_all v m (f ∷ rest) = add_all v (add m f v) rest

pub length-add :
    (m : FieldMap) (f v : Bytes) → length (add m f v) ≡ length m + count_of (not (has m f))
length-add m f v = elim (Bool-cases (has m f)) [
  | inl e ↦ rw e (ground arith)
  | inr e ↦ rw e (omega (arith, length-insert m f v, ap count_of e))
]

pub length-erase_all :
    (m : FieldMap) (fs : List Bytes) → IsDistinct m → length (erase_all m fs) ≤ length m
length-erase_all m [] d = omega arith
length-erase_all m (f ∷ rest) d =
    omega (arith, length-erase m f d, length-erase_all (erase m f) rest (erase-IsDistinct m f d))

pub length-add_all :
    (v : Bytes) (m : FieldMap) (fs : List Bytes)
    → (length m ≤ length (add_all v m fs)) × (length (add_all v m fs) ≤ length m + length fs)
length-add_all v m [] = (omega arith, omega arith)
length-add_all v m (f ∷ rest) =
    let (low, high) = length-add_all v (add m f v) rest in
    (ground (arith, low, length-add m f v), ground (arith, high, length-add m f v))
