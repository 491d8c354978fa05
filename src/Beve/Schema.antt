-- ===== src/Beve/Schema.antt =====
-- native/include/glaze_meta.h: the types that the templates of Writer and Reader accept.
-- A `glz::meta<T>::fields` tuple is the list of its members' types: names are not on the wire.
use flatpak_dart.Base.{ℕ, Bool, List, Option, Bytes}

-- `Elem` are the types with an overload of `read_value`; `Field` are those of the members that the
-- struct reader branches on. `number w` is an arithmetic type of `w` bytes.
mutual
  pub data Elem : Type 0 where
    number : ℕ → Elem
    text : Elem
    object : Fields → Elem

  pub data Field : Type 0 where
    plain : Elem → Field
    flag : Field
    optional : Elem → Field
    vector : Elem → Field

  pub data Fields : Type 0 where
    end : Fields
    field : Field → Fields → Fields

-- The values of a type. A number stands for the bit pattern of an arithmetic value.
abbrev mutual
  pub ElemVal : Elem → Type 0
  ElemVal (number w) = ℕ
  ElemVal text = Bytes
  ElemVal (object fs) = FieldsVal fs

  pub FieldVal : Field → Type 0
  FieldVal (plain t) = ElemVal t
  FieldVal flag = Bool
  FieldVal (optional t) = Option (ElemVal t)
  FieldVal (vector t) = List (ElemVal t)

  pub FieldsVal : Fields → Type 0
  FieldsVal end = Unit {0}
  FieldsVal (field f fs) = FieldVal f × FieldsVal fs
