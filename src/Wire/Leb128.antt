-- ===== src/Wire/Leb128.antt =====
-- One instance of the parameter of Wire, the base-128 format of protobuf, at which the tests run the
-- messages.
use kiri_gcp.Prelude.{
  ℕ, zero, suc, ◌+◌, ◌-◌, ◌*◌, ◌/◌, ◌%◌, ◌^◌, ◌<◌, ◌≤◌, ◌≡◌, refl, sym, ap, ◌∙◌, inl, inr, true,
  false, Option, none, some, List, [], ◌∷◌, ◌++◌, arith, ltb, leb, ◌==◌, if◌then◌else◌, length,
  length-append, take, drop, drop-length_append, take-length_append, append_assoc, Bool-cases,
}
use kiri_gcp.Text.{Text}
use kiri_gcp.Wire.Fields.{Item, text_item, item_wire, wire}
use kiri_gcp.Wire.{
  WireType, varint_type, fixed32_type, fixed64_type, bytes_type, start_group_type, end_group_type,
  Protowire, IsProtowire,
}

-- At most `fuel` groups of seven bits, the lowest first.
groups : ℕ → ℕ → Text
groups zero v = []
groups (suc fuel) v =
    let more = groups fuel (v / 128) in if ltb v 128 then v ∷ [] else (v % 128 + 128) ∷ more

abbrev longer : ℕ → Option (ℕ × ℕ) → Option (ℕ × ℕ)
longer c none = none
longer c (some (v, n)) = some (c - 128 + 128 * v, suc n)

read_groups : Text → Option (ℕ × ℕ)
read_groups [] = none
read_groups (c ∷ s) = let more = longer c (read_groups s) in if ltb c 128 then some (c, 1) else more

abbrev bound : ℕ → ℕ
bound zero = 1
bound (suc fuel) = 128 * bound fuel

read_groups-groups :
    (fuel v : ℕ) (rest : Text)
    → v < bound (suc fuel)
    → read_groups (groups (suc fuel) v ++ rest) ≡ some (v, length (groups (suc fuel) v))
unfolding read_groups groups
read_groups-groups zero v rest h = rw (small, small) refl
  where
    small : ltb v 128 ≡ true
    small = ground arith
read_groups-groups (suc fuel) v rest h = elim (Bool-cases (ltb v 128)) [
  | inl e ↦ rw (e, e) refl
  | inr e ↦
      rw (e, large)
        (ap (longer (v % 128 + 128)) (read_groups-groups fuel (v / 128) rest (omega arith))
          ∙ ap (λ (n : ℕ). some (n, suc (length (groups (suc fuel) (v / 128))))) (omega arith))
]
  where
    large : ltb (v % 128 + 128) 128 ≡ false
    large = ground arith

-- A 64-bit number has at most ten groups.
uvarint : ℕ → Text
unfolding groups
uvarint v = groups 10 v

read_groups-uvarint :
    (v : ℕ) (rest : Text)
    → v < 2 ^ 64
    → read_groups (uvarint v ++ rest) ≡ some (v, length (uvarint v))
unfolding uvarint
read_groups-uvarint v rest h = read_groups-groups 9 v rest (omega arith)

longer_size : (c : ℕ) (o : Option (ℕ × ℕ)) (v n : ℕ) → longer c o ≡ some (v, n) → 0 < n
longer_size c none v n h = cc
longer_size c (some (u, m)) v n h = ground arith

read_groups_size : (s : Text) (v n : ℕ) → read_groups s ≡ some (v, n) → 0 < n
unfolding read_groups
read_groups_size [] v n = λ h. cc
read_groups_size (c ∷ s) v n = elim (Bool-cases (ltb c 128)) [
  | inl e ↦ rw e λ h. ground arith
  | inr e ↦ rw e λ h. longer_size c (read_groups s) v n h
]

abbrev type_number : WireType → ℕ
type_number varint_type = 0
type_number fixed64_type = 1
type_number bytes_type = 2
type_number start_group_type = 3
type_number end_group_type = 4
type_number fixed32_type = 5

abbrev type_at : ℕ → Option WireType
type_at n =
    if n == 0
    then some varint_type
    else if n == 1
    then some fixed64_type
    else if n == 2
    then some bytes_type
    else if n == 3
    then some start_group_type
    else if n == 4
    then some end_group_type
    else if n == 5
    then some fixed32_type
    else none

typed : ℕ → ℕ → Option WireType → Option (ℕ × WireType × ℕ)
typed num n none = none
typed num n (some t) = if num == 0 then none else some (num, t, n)

tag_of : Option (ℕ × ℕ) → Option (ℕ × WireType × ℕ)
unfolding typed
tag_of none = none
tag_of (some (v, n)) = typed (v / 8) n (type_at (v % 8))

cut : Text → Option (ℕ × ℕ) → Option (Text × ℕ)
cut s none = none
cut s (some (size, n)) =
    let rest = drop n s in if leb size (length rest) then some (take size rest, n + size) else none

little_endian : ℕ → ℕ → Text
little_endian zero v = []
little_endian (suc k) v = v % 256 ∷ little_endian k (v / 256)

from_little_endian : Text → ℕ
from_little_endian [] = 0
from_little_endian (c ∷ s) = c + 256 * from_little_endian s

fixed : ℕ → Text → Option (ℕ × ℕ)
unfolding from_little_endian
fixed k s = if leb k (length s) then some (from_little_endian (take k s), k) else none

pub leb128 : Protowire
leb128 = record {
  append_tag = λ b num t. b ++ uvarint (num * 8 + type_number t);
  append_varint = λ b v. b ++ uvarint v;
  append_fixed32 = λ b v. b ++ little_endian 4 v;
  append_fixed64 = λ b v. b ++ little_endian 8 v;
  append_bytes = λ b v. b ++ (uvarint (length v) ++ v);
  consume_tag = λ b. tag_of (read_groups b);
  consume_varint = read_groups;
  consume_fixed32 = fixed 4;
  consume_fixed64 = fixed 8;
  consume_bytes = λ b. cut b (read_groups b);
}

type_at-type_number : (t : WireType) → type_at (type_number t) ≡ some t
type_at-type_number varint_type = refl
type_at-type_number fixed64_type = refl
type_at-type_number bytes_type = refl
type_at-type_number start_group_type = refl
type_at-type_number end_group_type = refl
type_at-type_number fixed32_type = refl

type_number_bound : (t : WireType) → type_number t ≤ 5
type_number_bound varint_type = omega arith
type_number_bound fixed64_type = omega arith
type_number_bound bytes_type = omega arith
type_number_bound start_group_type = omega arith
type_number_bound end_group_type = omega arith
type_number_bound fixed32_type = omega arith

typed_lem :
    (num n : ℕ) (t : WireType) → 1 ≤ num → typed num n (type_at (type_number t)) ≡ some (num, t, n)
unfolding typed
typed_lem num n t p = rw (type_at-type_number t, positive) refl
  where
    positive : (num == 0) ≡ false
    positive = ground arith

tag_lem :
    (num : ℕ) (t : WireType) (rest : Text)
    → 1 ≤ num
    → num < 2 ^ 29
    → tag_of (read_groups (uvarint (num * 8 + type_number t) ++ rest))
      ≡ some (num, t, length (uvarint (num * 8 + type_number t)))
unfolding tag_of
tag_lem num t rest p q =
    let low = type_number_bound t in
    let v = num * 8 + type_number t in
    let n = length (uvarint v) in
    let rest_is : v % 8 ≡ type_number t = omega (arith, low) in
    let quotient_is : v / 8 ≡ num = omega (arith, low) in
    ap tag_of (read_groups-uvarint v rest (omega (arith, low)))
    ∙ ap (λ (k : ℕ). typed (v / 8) n (type_at k)) rest_is
    ∙ ap (λ (k : ℕ). typed k n (type_at (type_number t))) quotient_is
    ∙ typed_lem num n t p

typed_size :
    (k m : ℕ) (o : Option WireType) (num n : ℕ) (t : WireType)
    → 0 < m
    → typed k m o ≡ some (num, t, n)
    → 0 < n
unfolding typed
typed_size k m none num n t p h = cc
typed_size k m (some u) num n t p h = ground arith

tag_size_lem :
    (o : Option (ℕ × ℕ)) (num n : ℕ) (t : WireType)
    → ((v m : ℕ) → o ≡ some (v, m) → 0 < m)
    → tag_of o ≡ some (num, t, n)
    → 0 < n
unfolding tag_of
tag_size_lem none num n t p h = cc
tag_size_lem (some (v, m)) num n t p h =
    typed_size (v / 8) m (type_at (v % 8)) num n t (p v m refl) h

cut_lem :
    (front v rest : Text)
    → cut (front ++ (v ++ rest)) (some (length v, length front)) ≡ some (v, length front + length v)
unfolding cut
cut_lem front v rest =
    rw (drop-length_append front (v ++ rest), inside, take-length_append v rest) refl
  where
    inside : leb (length v) (length (v ++ rest)) ≡ true
    inside = ground (arith, length-append v rest)

bytes_lem :
    (v rest : Text)
    → length v < 2 ^ 63
    → cut ((uvarint (length v) ++ v) ++ rest) (read_groups ((uvarint (length v) ++ v) ++ rest))
      ≡ some (v, length (uvarint (length v) ++ v))
bytes_lem v rest h =
    let front = uvarint (length v) in
    ap (λ (b : Text). cut b (read_groups b)) (append_assoc front v rest)
    ∙ ap (cut (front ++ (v ++ rest))) (read_groups-uvarint (length v) (v ++ rest) (omega arith))
    ∙ cut_lem front v rest
    ∙ ap (λ (n : ℕ). some (v, n)) (sym (length-append front v))

length-little_endian : (k v : ℕ) → length (little_endian k v) ≡ k
unfolding little_endian
length-little_endian zero v = refl
length-little_endian (suc k) v = omega (arith, length-little_endian k (v / 256))

abbrev bytes_bound : ℕ → ℕ
bytes_bound zero = 1
bytes_bound (suc k) = 256 * bytes_bound k

from_little_endian-little_endian :
    (k v : ℕ) → v < bytes_bound k → from_little_endian (little_endian k v) ≡ v
unfolding from_little_endian little_endian
from_little_endian-little_endian zero v h = omega arith
from_little_endian-little_endian (suc k) v h =
    omega (arith, from_little_endian-little_endian k (v / 256) (omega arith))

fixed_lem :
    (k v : ℕ) (rest : Text)
    → v < bytes_bound k
    → fixed k (little_endian k v ++ rest) ≡ some (v, length (little_endian k v))
unfolding fixed
fixed_lem k v rest h = rw inside (
    ap (λ (s : Text). some (from_little_endian s, k)) taken
    ∙ ap (λ (n : ℕ). some (n, k)) (from_little_endian-little_endian k v h)
    ∙ ap (λ (n : ℕ). some (v, n)) (sym (length-little_endian k v)))
  where
    inside : leb k (length (little_endian k v ++ rest)) ≡ true
    inside = ground (arith, length-append (little_endian k v) rest, length-little_endian k v)

    taken : take k (little_endian k v ++ rest) ≡ little_endian k v
    taken =
        ap (λ (n : ℕ). take n (little_endian k v ++ rest)) (sym (length-little_endian k v))
        ∙ take-length_append (little_endian k v) rest

pub leb128-IsProtowire : IsProtowire leb128
unfolding leb128
leb128-IsProtowire = record {
  tag_appends = λ b num t. refl;
  varint_appends = λ b v. refl;
  bytes_appends = λ b v. refl;
  tag_consumed = tag_lem;
  tag_size = λ b num n t e. tag_size_lem (read_groups b) num n t (read_groups_size b) e;
  varint_consumed = read_groups-uvarint;
  fixed32_appends = λ b v. refl;
  fixed64_appends = λ b v. refl;
  fixed32_consumed = λ v rest h. fixed_lem 4 v rest (omega arith);
  fixed64_consumed = λ v rest h. fixed_lem 8 v rest (omega arith);
  bytes_consumed = bytes_lem;
}

length-groups : (fuel v : ℕ) → length (groups fuel v) ≤ fuel
unfolding groups
length-groups zero v = omega arith
length-groups (suc fuel) v = ground (arith, length-groups fuel (v / 128))

length-text_item :
    (num : ℕ) (v : Text) → length (item_wire leb128 (text_item num v)) ≤ 20 + length v
unfolding leb128 item_wire uvarint
length-text_item num v =
    let tag = groups 10 (num * 8 + 2) in
    let size = groups 10 (length v) in
    omega (
      arith,
      length-append tag (size ++ v),
      length-append size v,
      length-groups 10 (num * 8 + 2),
      length-groups 10 (length v),
    )

-- A string in front of a message makes it not much longer.
pub length-wire :
    (num : ℕ) (v : Text) (is : List Item)
    → length (wire leb128 (text_item num v ∷ is)) ≤ 20 + length v + length (wire leb128 is)
unfolding wire
length-wire num v is = omega (
  arith,
  length-append (item_wire leb128 (text_item num v)) (wire leb128 is),
  length-text_item num v,
)
