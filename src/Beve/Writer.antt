-- ===== src/Beve/Writer.antt =====
-- native/include/glaze_meta.h, `glz::Writer`: each function takes the buffer and returns it grown.
use flatpak_dart.Base.{ℕ, Bool, Option, none, some, List, [], ◌∷◌, ◌++◌}
use flatpak_dart.Base.{Bytes, length, if◌then◌else◌}
use flatpak_dart.Beve.Schema.{Elem, number, text, object, Field, plain, flag, optional, vector}
use flatpak_dart.Beve.Schema.{Fields, end, field, ElemVal, FieldVal, FieldsVal}
use flatpak_dart.Beve.Words.{le_bytes}

unfoldable pub write_number : ℕ → ℕ → Bytes → Bytes
write_number w v buf = buf ++ le_bytes w v

unfoldable pub write_bool : Bool → Bytes → Bytes
write_bool v buf = buf ++ (if v then 1 else 0) ∷ []

unfoldable pub write_text : Bytes → Bytes → Bytes
unfolding write_number
write_text s buf = write_number 8 (length s) buf ++ s

-- The range loop of the vector writer.
unfoldable pub write_each {ℓ} : {A : Type ℓ} → (A → Bytes → Bytes) → List A → Bytes → Bytes
write_each write [] buf = buf
write_each write (v ∷ vs) buf = write_each write vs (write v buf)

unfoldable pub write_vector {ℓ} : {A : Type ℓ} → (A → Bytes → Bytes) → List A → Bytes → Bytes
unfolding write_number write_each
write_vector write vs buf = write_each write vs (write_number 8 (length vs) buf)

unfoldable pub write_optional {ℓ} : {A : Type ℓ} → (A → Bytes → Bytes) → Option A → Bytes → Bytes
unfolding write_number
write_optional write none buf = write_number 1 0 buf
write_optional write (some v) buf = write v (write_number 1 1 buf)

unfoldable mutual
  unfolding write_number write_bool write_text write_vector write_optional

  pub write_elem : (t : Elem) → ElemVal t → Bytes → Bytes
  write_elem (number w) v buf = write_number w v buf
  write_elem text s buf = write_text s buf
  write_elem (object fs) v buf = write_fields fs v buf

  pub write_field : (t : Field) → FieldVal t → Bytes → Bytes
  write_field (plain t) v buf = write_elem t v buf
  write_field flag b buf = write_bool b buf
  write_field (optional t) v buf = write_optional (write_elem t) v buf
  write_field (vector t) vs buf = write_vector (write_elem t) vs buf

  pub write_fields : (fs : Fields) → FieldsVal fs → Bytes → Bytes
  write_fields end v buf = buf
  write_fields (field t fs) v buf = write_fields fs v.1 (write_field t v.0 buf)

-- `write_span` over elements of `w` bytes; a number stands for an element's bit pattern.
unfoldable pub write_span : ℕ → List ℕ → Bytes → Bytes
unfolding write_number write_each
write_span w vs buf = write_each (write_number w) vs (write_number 8 (length vs) buf)

unfoldable pub write_binary : (fs : Fields) → FieldsVal fs → Bytes
unfolding write_fields
write_binary fs v = write_fields fs v []
