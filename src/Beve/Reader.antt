-- ===== src/Beve/Reader.antt =====
-- native/include/glaze_meta.h, `glz::Reader`. The cursor is the address `p` and the bytes from `p` up
-- to `end`, so `end` is `p` plus their number. Addresses and lengths are 64-bit words: `p + n` and
-- `n * sizeof(T)` wrap. A read of bytes outside the buffer is `fault`, which no check of the source
-- turns into an exception.
use flatpak_dart.Base.{ℕ, zero, suc, ◌+◌, ◌-◌, ◌*◌, ◌%◌, ◌^◌, Bool, true, false, not, Option, none}
use flatpak_dart.Base.{some, List, [], ◌∷◌, Bytes, length, take, drop, ltb, ◌==◌}
use flatpak_dart.Base.{if◌then◌else◌}
use flatpak_dart.Beve.Schema.{Elem, number, text, object, Field, plain, flag, optional, vector}
use flatpak_dart.Beve.Schema.{Fields, end, field, ElemVal, FieldVal, FieldsVal}
use flatpak_dart.Beve.Words.{le_value}

pub record Reader : Type 0 where
  pub p : ℕ
  pub rest : Bytes

-- `std::out_of_range` is the Reader's own; `no_room` is what `std::string` and `vector::reserve`
-- throw for a length that they cannot allocate.
pub data Exception : Type 0 where
  out_of_range no_room : Exception

pub data Outcome {ℓ} (A : Type ℓ) : Type ℓ where
  ok : A → Reader → Outcome A
  throw : Exception → Outcome A
  fault : Outcome A

abbrev pub Read {ℓ} : Type ℓ → Type ℓ
Read A = Reader → Outcome A

infixl 5 ◌>>=◌
abbrev pub ◌>>=◌ {ℓ κ} : {A : Type ℓ} {B : Type κ} → Read A → (A → Read B) → Read B
◌>>=◌ m f r = elim (m r) [ ok a r' ↦ f a r' | throw e ↦ throw e | fault ↦ fault ]

abbrev pub pure {ℓ} : {A : Type ℓ} → A → Read A
pure a r = ok a r

abbrev pub addresses : ℕ
addresses = 2 ^ 64

-- `std::string::max_size()` of libstdc++ on a 64-bit target: PTRDIFF_MAX less the final null.
abbrev pub max_size : ℕ
max_size = 2 ^ 63 - 2

-- `p + n > end`
abbrev pub past_end : ℕ → Reader → Bool
past_end n r = ltb (r.p + length r.rest) ((r.p + n) % addresses)

-- Copies `n` bytes at the cursor and moves it behind them.
unfoldable pub take_bytes : ℕ → Read Bytes
take_bytes n r =
    if ltb (length r.rest) n
    then fault
    else ok (take n r.rest) (record { p = r.p + n; rest = drop n r.rest })

unfoldable pub has_data : ℕ → Reader → Bool
has_data n r = not (past_end n r)

unfoldable pub read_number : ℕ → Read ℕ
read_number w r =
    if past_end w r then throw out_of_range else (take_bytes w >>= λ bs. pure (le_value bs)) r

unfoldable pub read_bool_at : Bytes → ℕ → Outcome Bool
read_bool_at [] p = throw out_of_range
read_bool_at (b ∷ bs) p = ok (not (b == 0)) (record { p = p + 1; rest = bs })

unfoldable pub read_bool : Read Bool
unfolding read_bool_at
read_bool r = read_bool_at r.rest r.p

-- `std::string s(p, n)` throws when `n` is over its limit.
unfoldable pub make_string : ℕ → Read Bytes
make_string n r = if ltb max_size n then throw no_room else take_bytes n r

unfoldable pub read_text : Read Bytes
read_text = read_number 8 >>= λ n r. if past_end n r then throw out_of_range else make_string n r

unfoldable pub read_present {ℓ} : {A : Type ℓ} → Read A → Bool → Read (Option A)
read_present read true = read >>= λ v. pure (some v)
read_present read false = pure none

unfoldable pub read_optional {ℓ} : {A : Type ℓ} → Read A → Read (Option A)
unfolding read_present
read_optional read = read_bool >>= read_present read

-- The counted loop of `read_vector`.
unfoldable pub read_times {ℓ} : {A : Type ℓ} → Read A → ℕ → Read (List A)
read_times read zero = pure []
read_times read (suc n) = let more = read_times read n in read >>= λ v. more >>= λ vs. pure (v ∷ vs)

-- `limit` is the largest count that `v.reserve(n)` takes.
unfoldable pub read_vector {ℓ} : {A : Type ℓ} → ℕ → Read A → Read (List A)
read_vector limit read =
    read_number 8 >>= λ n r. if ltb limit n then throw no_room else read_times read n r

-- `limit t` is what `std::vector<t>::reserve` takes: it depends on the element's size and the heap.
unfoldable mutual
  pub read_value : (limit : Elem → ℕ) (t : Elem) → Read (ElemVal t)
  read_value limit (number w) = read_number w
  read_value limit text = read_text
  read_value limit (object fs) = read_fields limit fs

  pub read_field : (limit : Elem → ℕ) (t : Field) → Read (FieldVal t)
  read_field limit (plain t) = read_value limit t
  read_field limit flag = read_bool
  read_field limit (optional t) = read_optional (read_value limit t)
  read_field limit (vector t) = read_vector (limit t) (read_value limit t)

  pub read_fields : (limit : Elem → ℕ) (fs : Fields) → Read (FieldsVal fs)
  read_fields limit end = pure tt
  read_fields limit (field t fs) =
      read_field limit t >>= λ v. read_fields limit fs >>= λ vs. pure (v, vs)

-- A view of `count` elements at `start`: nothing is copied.
pub record Span : Type 0 where
  pub start : ℕ
  pub count : ℕ

-- Moving the cursor by `n` bytes leaves the buffer when the sum has wrapped.
unfoldable pub skip : ℕ → Read (Unit {0})
skip n r =
    if ltb (length r.rest) n then fault else ok tt (record { p = r.p + n; rest = drop n r.rest })

-- The tail of the two view readers: check `size` bytes, make a view of `count` elements, step over.
unfoldable pub view_behind : ℕ → ℕ → Read Span
view_behind size count r =
    if past_end size r
    then throw out_of_range
    else (skip size >>= λ _. pure (record { start = r.p; count = count })) r

unfoldable pub read_string_view : Read Span
read_string_view = read_number 8 >>= λ n. view_behind n n

unfoldable pub read_span : ℕ → Read Span
read_span w = read_number 8 >>= λ n. view_behind (n * w % addresses) n

-- What `read_binary(bytes, out)` does: true with `out` set, false with `out` as it was, or a read
-- outside the buffer.
pub data Decoded {ℓ} (A : Type ℓ) : Type ℓ where
  decoded : A → Decoded A
  rejected : Decoded A
  undefined : Decoded A

abbrev pub caught {ℓ} : {A : Type ℓ} → Outcome A → Decoded A
caught (ok v r) = decoded v
caught (throw e) = rejected
caught fault = undefined

unfoldable pub read_binary : (limit : Elem → ℕ) (fs : Fields) → Reader → Decoded (FieldsVal fs)
read_binary limit fs r = caught (read_fields limit fs r)
