-- ===== src/Engine/KeyEquality.antt =====
-- The equality of record keys (tuples of typed values in engine.py), from that of the values.
use excel_youhua.Prelude.{
  ℕ, Bool, true, false, ◌&&◌, ◌≡◌, ◌↔◌, Eq, ◌==◌, string_eq, nat_beq, arith, eq_iff,
}
use excel_youhua.Prelude.Equality.{list_beq, list_beq_iff}
use excel_youhua.Python.{Value, null, other}
use excel_youhua.Product.Models.{FieldType, datetime, integer, decimal, date, boolean, enum}
use excel_youhua.Engine.Keys.{KeyPart, Key, row_number_fallback, typed}

abbrev type_code : FieldType → ℕ
type_code FieldType.string = 0
type_code integer = 1
type_code decimal = 2
type_code date = 3
type_code datetime = 4
type_code boolean = 5
type_code enum = 6
type_code FieldType.phone = 7
type_code FieldType.id_code = 8
type_code FieldType.postal_code = 9
type_code FieldType.set = 10
type_code FieldType.json = 11
type_code FieldType.fuzzy_string = 12

type_code-injective : (s t : FieldType) → type_code s ≡ type_code t → s ≡ t
type_code-injective s t h = ground arith

module _ {Obj : Type 0} ⦃e : Eq Obj⦄ where
  abbrev pub value_beq : Value Obj → Value Obj → Bool
  value_beq null null = true
  value_beq (Value.text s) (Value.text t) = s == t
  value_beq (other a) (other b) = a == b
  value_beq _ _ = false

  pub value_beq_iff : (a b : Value Obj) → (value_beq a b ≡ true) ↔ (a ≡ b)
  value_beq_iff null null = ground arith
  value_beq_iff (Value.text s) (Value.text t) = ground (arith, eq_iff s t)
  value_beq_iff (other a) (other b) = ground (arith, e.beq_iff a b)
  value_beq_iff _ _ = ground arith

  instance abbrev pub value_eq : Eq (Value Obj)
  value_eq = record { beq = value_beq; beq_iff = value_beq_iff }

  abbrev pub part_beq : KeyPart Obj → KeyPart Obj → Bool
  part_beq (KeyPart.row_number m) (KeyPart.row_number n) = nat_beq m n
  part_beq (row_number_fallback m) (row_number_fallback n) = nat_beq m n
  part_beq (typed s a) (typed t b) = nat_beq (type_code s) (type_code t) && value_beq a b
  part_beq _ _ = false

  pub part_beq_iff : (a b : KeyPart Obj) → (part_beq a b ≡ true) ↔ (a ≡ b)
  part_beq_iff (KeyPart.row_number m) (KeyPart.row_number n) = ground arith
  part_beq_iff (row_number_fallback m) (row_number_fallback n) = ground arith
  part_beq_iff (typed s a) (typed t b) = ground (arith, value_beq_iff a b, type_code-injective s t)
  part_beq_iff _ _ = ground arith

  instance abbrev pub part_eq : Eq (KeyPart Obj)
  part_eq = record { beq = part_beq; beq_iff = part_beq_iff }

  instance abbrev pub key_eq : Eq (Key Obj)
  key_eq = record { beq = list_beq; beq_iff = list_beq_iff }
