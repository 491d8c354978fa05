-- ===== src/Beve/RoundTrip.antt =====
-- The round trip of native/include/glaze_meta.h over every schema, by recursion on the schema.
use flatpak_dart.Base.{ℕ, suc, ◌+◌, ◌^◌, ◌<◌, ◌≤◌, ◌≡◌, refl, sym, ap, ◌∙◌, true}
use flatpak_dart.Base.{
  Option, none, some, List, [], ◌∷◌, ◌++◌, append_assoc, append-nil, Bytes, All,
}
use flatpak_dart.Base.{length, length-append, arith, le→not-ltb, All-map}
use flatpak_dart.Beve.Schema.{Elem, number, text, object, Field, plain, flag, optional, vector}
use flatpak_dart.Beve.Schema.{Fields, end, field, ElemVal, FieldVal, FieldsVal}
use flatpak_dart.Beve.Words.{le_bytes}
use flatpak_dart.Beve.Writer.{write_number, write_each, write_vector, write_optional}
use flatpak_dart.Beve.Writer.{write_elem, write_field, write_fields, write_binary}
use flatpak_dart.Beve.Reader.{Read, addresses, read_number, read_bool}
use flatpak_dart.Beve.Reader.{
  read_times, read_present, read_optional, read_vector, read_value, read_field,
}
use flatpak_dart.Beve.Reader.{read_fields, read_binary, decoded, caught}
use flatpak_dart.Beve.Codec.{
  Reads, Encodes, Reads-bind, Reads-pure, Reads-map, IsText, read_number-Reads,
}
use flatpak_dart.Beve.Codec.{write_number-Encodes, write_bool-Encodes, write_text-Encodes}

abbrev pub OnSome {ℓ κ} : {A : Type ℓ} → (A → Type κ) → Option A → Type κ
OnSome P none = Unit
OnSome P (some v) = P v

module _ {ℓ} {A : Type ℓ} (write : A → Bytes → Bytes) (read : Read A) where
  -- One element after the other.
  times_cons :
      (n : ℕ) (v : A) (vs : List A) (bs cs : Bytes)
      → Reads read bs v
      → Reads (read_times read n) cs vs
      → Reads (read_times read (suc n)) (bs ++ cs) (v ∷ vs)
  unfolding read_times
  times_cons n v vs bs cs hv hvs =
      Reads-bind read _ bs cs v (v ∷ vs) hv (Reads-map (read_times read n) (λ us. v ∷ us) cs vs hvs)

  each_codec :
      (vs : List A)
      → All (Encodes write read) vs
      → Encodes (write_each write) (read_times read (length vs)) vs
  unfolding write_each
  each_codec [] h = ([], λ buf. sym (append-nil buf), unfold read_times in Reads-pure [])
  each_codec (v ∷ vs) ((bs, w, r), h) =
      let (cs, ws, rs) = each_codec vs h in
      (
        bs ++ cs,
        λ buf. ws (write v buf) ∙ ap (λ b. b ++ cs) (w buf) ∙ append_assoc buf bs cs,
        times_cons (length vs) v vs bs cs r rs,
      )

  pub vector_codec :
      (limit : ℕ) (vs : List A)
      → length vs ≤ limit
      → length vs < 256 ^ 8
      → All (Encodes write read) vs
      → Encodes (write_vector write) (read_vector limit read) vs
  unfolding write_vector read_vector write_number
  vector_codec limit vs hl hn h =
      let (cs, ws, rs) = each_codec vs h in
      (
        le_bytes 8 (length vs) ++ cs,
        λ buf. ws (buf ++ le_bytes 8 (length vs)) ∙ append_assoc buf _ cs,
        Reads-bind (read_number 8) _ (le_bytes 8 (length vs)) cs (length vs) vs
            (read_number-Reads 8 (length vs) hn)
            (λ p more f. rw (le→not-ltb limit (length vs) hl) (rs p more f)),
      )

  -- A flag byte, then the value if there is one.
  optional_codec :
      (o : Option A)
      → OnSome (Encodes write read) o
      → Encodes (write_optional write) (read_optional read) o
  unfolding write_optional read_optional write_number read_bool le_bytes
  optional_codec none h = (0 ∷ [], λ buf. refl, λ p more k. refl)
  optional_codec (some v) (bs, w, r) = (
    1 ∷ bs,
    λ buf. w (buf ++ 1 ∷ []) ∙ append_assoc buf (1 ∷ []) bs,
    Reads-bind read_bool (read_present read) (1 ∷ []) bs true (some v) (λ p more k. refl)
        (Reads-map read some bs v r),
  )

-- The values that the format carries: words in range, texts and vectors that can be allocated.
abbrev mutual
  pub ElemFits : (Elem → ℕ) → (t : Elem) → ElemVal t → Type 0
  ElemFits limit (number w) v = v < 256 ^ w
  ElemFits limit text s = IsText s
  ElemFits limit (object fs) v = FieldsFit limit fs v

  pub FieldFits : (Elem → ℕ) → (t : Field) → FieldVal t → Type 0
  FieldFits limit (plain t) v = ElemFits limit t v
  FieldFits limit flag b = Unit {0}
  FieldFits limit (optional t) o = OnSome (ElemFits limit t) o
  FieldFits limit (vector t) vs =
      (length vs ≤ limit t) × (length vs < 256 ^ 8) × All (ElemFits limit t) vs

  pub FieldsFit : (Elem → ℕ) → (fs : Fields) → FieldsVal fs → Type 0
  FieldsFit limit end v = Unit {0}
  FieldsFit limit (field t fs) v = FieldFits limit t v.0 × FieldsFit limit fs v.1

OnSome-map {ℓ κ μ} :
    {A : Type ℓ} {P : A → Type κ} {Q : A → Type μ}
    → ((a : A) → P a → Q a)
    → (o : Option A) → OnSome P o
    → OnSome Q o
OnSome-map f none h = tt
OnSome-map f (some v) h = f v h

mutual
  unfolding write_elem read_value

  elem_codec :
      (limit : Elem → ℕ) (t : Elem) (v : ElemVal t)
      → ElemFits limit t v
      → Encodes (write_elem t) (read_value limit t) v
  elem_codec limit (number w) v h = write_number-Encodes w v h
  elem_codec limit text s h = write_text-Encodes s h
  elem_codec limit (object fs) v h = fields_codec limit fs v h

  field_codec :
      (limit : Elem → ℕ) (t : Field) (v : FieldVal t)
      → FieldFits limit t v
      → Encodes (write_field t) (read_field limit t) v
  field_codec limit (plain t) v h = elem_codec limit t v h
  field_codec limit flag b h = write_bool-Encodes b
  field_codec limit (optional t) o h =
      optional_codec (write_elem t) (read_value limit t) o (OnSome-map (elem_codec limit t) o h)
  field_codec limit (vector t) vs h =
      vector_codec (write_elem t) (read_value limit t) (limit t) vs h.0 h.1
        (All-map (elem_codec limit t) vs h.2)

  fields_codec :
      (limit : Elem → ℕ) (fs : Fields) (v : FieldsVal fs)
      → FieldsFit limit fs v
      → Encodes (write_fields fs) (read_fields limit fs) v
  fields_codec limit end v h = ([], λ buf. sym (append-nil buf), Reads-pure tt)
  fields_codec limit (field t fs) v h =
      let (bs, w, r) = field_codec limit t v.0 h.0 in
      let (cs, ws, rs) = fields_codec limit fs v.1 h.1 in
      (
        bs ++ cs,
        λ buf. ws (write_field t v.0 buf) ∙ ap (λ b. b ++ cs) (w buf) ∙ append_assoc buf bs cs,
        Reads-bind (read_field limit t) _ bs cs v.0 v r
            (Reads-map (read_fields limit fs) (λ us. (v.0, us)) cs v.1 rs),
      )

-- Reading back what `write_binary` wrote gives the value again, at any address below the wrap, for
-- every schema and every value that fits it; bytes that follow are not looked at.
pub read_binary-write_binary :
    (limit : Elem → ℕ) (fs : Fields) (v : FieldsVal fs) (p : ℕ) (more : Bytes)
    → FieldsFit limit fs v
    → p + length (write_binary fs v ++ more) < addresses
    → read_binary limit fs (record { p = p; rest = write_binary fs v ++ more }) ≡ decoded v
unfolding read_binary write_binary
read_binary-write_binary limit fs v p more fits h =
    let (bs, w, r) = fields_codec limit fs v fits in
    let e : write_fields fs v [] ≡ bs = w [] in
    rw e (
      ap caught
        (r p more (omega (arith, ap (λ (b : Bytes). length (b ++ more)) e, length-append bs more))))
