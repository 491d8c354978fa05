-- ===== src/Wire/Reflect.antt =====
-- native/include/glaze_meta.h, `glz::meta<T>` and the free functions over it.
use flatpak_dart.Base.{ℕ, ◌+◌, ◌<◌, ◌≡◌, ◌≢◌, refl, ap, ◌∙◌, ◌++◌, Bytes, length}
use flatpak_dart.Beve.Schema.{Elem, Field, plain, text, number, Fields, FieldsVal}
use flatpak_dart.Beve.Writer.{write_binary}
use flatpak_dart.Beve.Reader.{
  Reader, addresses, Decoded, decoded, rejected, undefined, read_binary, read_fields, caught, throw,
  Exception,
}
use flatpak_dart.Beve.Safety.{FieldsAreNative, IsUser, read_binary-ne-undefined}
use flatpak_dart.Beve.RoundTrip.{FieldsFit, read_binary-write_binary}

abbrev pub txt : Field
txt = plain text

abbrev pub word : ℕ → Field
word w = plain (number w)

-- A struct and its `meta<T>::fields`: the members as a row, in the registered order, and back.
pub record Reflectable (T : Type 0) : Type 1 where
  pub fields : Fields
  pub row : T → FieldsVal fields
  pub unrow : FieldsVal fields → T
  pub unrow-row : (x : T) → unrow (row x) ≡ x

abbrev on_decoded {ℓ κ} : {A : Type ℓ} {B : Type κ} → (A → B) → Decoded A → Decoded B
on_decoded f (decoded v) = decoded (f v)
on_decoded f rejected = rejected
on_decoded f undefined = undefined

on_decoded-undefined {ℓ κ} :
    {A : Type ℓ} {B : Type κ} (f : A → B) (d : Decoded A)
    → on_decoded f d ≡ undefined
    → d ≡ undefined
on_decoded-undefined f (decoded v) e = cc
on_decoded-undefined f rejected e = cc
on_decoded-undefined f undefined e = refl

module _ {T : Type 0} ⦃m : Reflectable T⦄ where
  unfoldable pub encode : T → Bytes
  encode x = write_binary m.fields (m.row x)

  unfoldable pub decode : (Elem → ℕ) → Reader → Decoded T
  decode limit r = on_decoded m.unrow (read_binary limit m.fields r)

  abbrev pub Fits : (Elem → ℕ) → T → Type 0
  Fits limit x = FieldsFit limit m.fields (m.row x)

  -- Every registered struct is read back as it was written, if its members fit the format.
  pub decode-encode :
      (limit : Elem → ℕ) (x : T) (p : ℕ) (more : Bytes)
      → Fits limit x
      → p + length (encode x ++ more) < addresses
      → decode limit (record { p = p; rest = encode x ++ more }) ≡ decoded x
  unfolding encode decode
  decode-encode limit x p more fits h =
      ap (on_decoded m.unrow) (read_binary-write_binary limit m.fields (m.row x) p more fits h)
      ∙ ap decoded (m.unrow-row x)

  pub decode-throw :
      (limit : Elem → ℕ) (r : Reader) (x : Exception)
      → read_fields limit m.fields r ≡ throw x
      → decode limit r ≡ rejected
  unfolding decode read_binary
  decode-throw limit r x e = ap (λ o. on_decoded m.unrow (caught o)) e

  pub decode-ne-undefined :
      (limit : Elem → ℕ) (r : Reader)
      → FieldsAreNative m.fields
      → IsUser r
      → decode limit r ≢ undefined
  unfolding decode
  decode-ne-undefined limit r h u e =
      read_binary-ne-undefined limit m.fields r h u (on_decoded-undefined m.unrow _ e)
