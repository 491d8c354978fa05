-- ===== src/Beve/Safety.antt =====
-- Reads stay inside the buffer (native/include/glaze_meta.h, `glz::Reader`).
use flatpak_dart.Base.{ℕ, zero, suc, ◌+◌, ◌^◌, ◌≤◌, ◌≡◌, ◌≢◌, Bool, true, false}
use flatpak_dart.Base.{inl, inr, List, [], ◌∷◌, Bytes, length}
use flatpak_dart.Base.{length-drop, ltb, arith, Bool-cases, Option, some, none, if◌then◌else◌}
use flatpak_dart.Beve.Schema.{Elem, number, text, object, Field, plain, flag, optional, vector}
use flatpak_dart.Beve.Schema.{Fields, end, field, FieldsVal}
use flatpak_dart.Beve.Reader.{Reader, Read, Outcome, ok, throw, fault, ◌>>=◌, pure}
use flatpak_dart.Beve.Reader.{max_size, past_end, take_bytes, read_number, read_bool, read_bool_at}
use flatpak_dart.Beve.Reader.{make_string, read_text, read_times, read_present, read_optional}
use flatpak_dart.Beve.Reader.{read_vector, read_value, read_field, read_fields, read_binary, caught}
use flatpak_dart.Beve.Reader.{undefined, out_of_range}
use flatpak_dart.Beve.Words.{le_value}

-- A buffer in the lower half of the address space, where user memory lies.
abbrev pub IsUser : Reader → Type 0
IsUser r = r.p + length r.rest ≤ 2 ^ 63

-- The cursor moved forward and `end` is where it was; a fault is excluded.
abbrev pub Within {ℓ} : {A : Type ℓ} → Reader → Outcome A → Type 0
Within r (ok v r') = (r.p ≤ r'.p) × (r'.p + length r'.rest ≡ r.p + length r.rest)
Within r (throw e) = Unit
Within r fault = ⊥

abbrev pub IsSafe {ℓ} : {A : Type ℓ} → Read A → Type 0
IsSafe read = (r : Reader) → IsUser r → Within r (read r)

Within-later {ℓ} :
    {A : Type ℓ} (r r' : Reader) (o : Outcome A)
    → (r.p ≤ r'.p) × (r'.p + length r'.rest ≡ r.p + length r.rest)
    → Within r' o
    → Within r o
Within-later r r' (ok b r'') h w = omega arith
Within-later r r' (throw e) h w = tt
Within-later r r' fault h w = w

Within-bind {ℓ κ} :
    {A : Type ℓ} {B : Type κ} (f : A → Read B) (r : Reader) (o : Outcome A)
    → IsUser r
    → Within r o
    → ((a : A) → IsSafe (f a))
    → Within r (elim o [ ok a r' ↦ f a r' | throw e ↦ throw e | fault ↦ fault ])
Within-bind f r (ok a r') u w h = Within-later r r' (f a r') w (h a r' (omega arith))
Within-bind f r (throw e) u w h = tt
Within-bind f r fault u w h = w

IsSafe-bind {ℓ κ} :
    {A : Type ℓ} {B : Type κ} (read : Read A) (f : A → Read B)
    → IsSafe read
    → ((a : A) → IsSafe (f a))
    → IsSafe (read >>= f)
IsSafe-bind read f hr hf r u = Within-bind f r (read r) u (hr r u) hf

IsSafe-pure {ℓ} : {A : Type ℓ} (v : A) → IsSafe (pure v)
IsSafe-pure v r u = omega arith

take_bytes-Within : (n : ℕ) (r : Reader) → n ≤ length r.rest → Within r (take_bytes n r)
unfolding take_bytes
take_bytes-Within n r h = ground (arith, length-drop n r.rest)

-- A check that passed without a wrap.
past_end-le :
    (n : ℕ) (r : Reader) → IsUser r → n ≤ max_size → past_end n r ≡ false → n ≤ length r.rest
past_end-le n r u small e = ground arith

-- A guarded read is safe if its body is where the guard lets it run.
checked-Within {ℓ} :
    {A : Type ℓ} (n : ℕ) (r : Reader) (o : Outcome A)
    → (past_end n r ≡ false → Within r o)
    → Within r (if past_end n r then throw out_of_range else o)
checked-Within n r o h = elim (Bool-cases (past_end n r)) [ inl e ↦ rw e tt | inr e ↦ rw e (h e) ]

read_number-IsSafe : (w : ℕ) → w ≤ 8 → IsSafe (read_number w)
unfolding read_number
read_number-IsSafe w hw r u = checked-Within w r _ λ e.
    Within-bind (λ bs. pure (le_value bs)) r (take_bytes w r) u
      (take_bytes-Within w r (past_end-le w r u (omega arith) e)) (λ bs. IsSafe-pure (le_value bs))

read_bool-IsSafe : IsSafe read_bool
unfolding read_bool
read_bool-IsSafe r u = at r.rest r.p
  where
    at : (bs : Bytes) (p : ℕ) → Within (record { p = p; rest = bs }) (read_bool_at bs p)
    at [] p = tt
    at (b ∷ bs) p = omega arith

-- A length that the wrapped check lets through is refused by the string itself.
make_string-Within :
    (n : ℕ) (r : Reader) → IsUser r → past_end n r ≡ false → Within r (make_string n r)
unfolding make_string
make_string-Within n r u e = elim (Bool-cases (ltb max_size n)) [
  | inl big ↦ rw big tt
  | inr small ↦ rw small (take_bytes-Within n r (past_end-le n r u (ground arith) e))
]

read_text-IsSafe : IsSafe read_text
unfolding read_text
read_text-IsSafe =
    IsSafe-bind (read_number 8) _ (read_number-IsSafe 8 (omega arith))
      λ n r u. checked-Within n r _ (make_string-Within n r u)

module _ {ℓ} {A : Type ℓ} (read : Read A) (safe : IsSafe read) where
  read_times-IsSafe : (n : ℕ) → IsSafe (read_times read n)
  unfolding read_times
  read_times-IsSafe zero = IsSafe-pure {A = List A} []
  read_times-IsSafe (suc n) =
      IsSafe-bind read _ safe
        λ v. IsSafe-bind (read_times read n) _ (read_times-IsSafe n) λ vs. IsSafe-pure (v ∷ vs)

  read_vector-IsSafe : (limit : ℕ) → IsSafe (read_vector limit read)
  unfolding read_vector
  read_vector-IsSafe limit =
      IsSafe-bind (read_number 8) _ (read_number-IsSafe 8 (omega arith)) λ n r u.
        elim (Bool-cases (ltb limit n)) [ inl e ↦ rw e tt | inr e ↦ rw e (read_times-IsSafe n r u) ]

  read_present-IsSafe : (b : Bool) → IsSafe (read_present read b)
  unfolding read_present
  read_present-IsSafe true = IsSafe-bind read _ safe λ v. IsSafe-pure (some v)
  read_present-IsSafe false = IsSafe-pure {A = Option A} none

  read_optional-IsSafe : IsSafe (read_optional read)
  unfolding read_optional
  read_optional-IsSafe = IsSafe-bind read_bool _ read_bool-IsSafe read_present-IsSafe

-- The arithmetic types of C++ have 8 bytes at most.
abbrev mutual
  pub ElemIsNative : Elem → Type 0
  ElemIsNative (number w) = w ≤ 8
  ElemIsNative text = Unit {0}
  ElemIsNative (object fs) = FieldsAreNative fs

  pub FieldIsNative : Field → Type 0
  FieldIsNative (plain t) = ElemIsNative t
  FieldIsNative flag = Unit {0}
  FieldIsNative (optional t) = ElemIsNative t
  FieldIsNative (vector t) = ElemIsNative t

  pub FieldsAreNative : Fields → Type 0
  FieldsAreNative end = Unit {0}
  FieldsAreNative (field t fs) = FieldIsNative t × FieldsAreNative fs

mutual
  unfolding read_value

  read_value-IsSafe : (limit : Elem → ℕ) (t : Elem) → ElemIsNative t → IsSafe (read_value limit t)
  read_value-IsSafe limit (number w) h = read_number-IsSafe w h
  read_value-IsSafe limit text h = read_text-IsSafe
  read_value-IsSafe limit (object fs) h = read_fields-IsSafe limit fs h

  read_field-IsSafe : (limit : Elem → ℕ) (t : Field) → FieldIsNative t → IsSafe (read_field limit t)
  read_field-IsSafe limit (plain t) h = read_value-IsSafe limit t h
  read_field-IsSafe limit flag h = read_bool-IsSafe
  read_field-IsSafe limit (optional t) h =
      read_optional-IsSafe (read_value limit t) (read_value-IsSafe limit t h)
  read_field-IsSafe limit (vector t) h =
      read_vector-IsSafe (read_value limit t) (read_value-IsSafe limit t h) (limit t)

  read_fields-IsSafe :
      (limit : Elem → ℕ) (fs : Fields) → FieldsAreNative fs → IsSafe (read_fields limit fs)
  read_fields-IsSafe limit end h = IsSafe-pure {A = Unit {0}} tt
  read_fields-IsSafe limit (field t fs) h =
      IsSafe-bind (read_field limit t) _ (read_field-IsSafe limit t h.0) λ v.
        IsSafe-bind (read_fields limit fs) _ (read_fields-IsSafe limit fs h.1)
          λ vs. IsSafe-pure {A = FieldsVal (field t fs)} (v, vs)

caught-ne-undefined {ℓ} :
    {A : Type ℓ} (r : Reader) (o : Outcome A) → Within r o → caught o ≢ undefined
caught-ne-undefined r (ok v r') w e = cc
caught-ne-undefined r (throw x) w e = cc
caught-ne-undefined r fault w e = w

-- On any bytes whatever, `read_binary` returns a value or reports failure and never reads outside
-- its buffer, for every schema of C++ types and a buffer in the lower half of the address space.
pub read_binary-ne-undefined :
    (limit : Elem → ℕ) (fs : Fields) (r : Reader)
    → FieldsAreNative fs
    → IsUser r
    → read_binary limit fs r ≢ undefined
unfolding read_binary
read_binary-ne-undefined limit fs r h u =
    caught-ne-undefined r (read_fields limit fs r) (read_fields-IsSafe limit fs h r u)
