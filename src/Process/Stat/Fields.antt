-- ===== src/Process/Stat/Fields.antt =====
-- `read_start_time` of native/src/installation_reader.cpp on the lines that the kernel writes.
use flatpak_dart.Base.{ℕ, ◌+◌, ◌*◌, ◌-◌, ◌^◌, ◌<◌, ◌≤◌, ◌≡◌, ◌≢◌, refl, sym, ap, ◌∙◌, true}
use flatpak_dart.Base.{false, none, some, List, [], ◌∷◌, ◌++◌, Bytes, All, length}
use flatpak_dart.Base.{◌==◌, arith, lt→ltb}
use flatpak_dart.Process.Stat.{
  or_here, after_last_paren, skip_spaces, skip_token, is_space, is_digit,
}
use flatpak_dart.Process.Stat.{skip_white, digits_from, digits_value, in_range, signed_value}
use flatpak_dart.Process.Stat.{parse_start_time, last_field, next_field, fields_loop, fields_of}
use flatpak_dart.Process.Stat.{read_start_time}

abbrev IsPlain : ℕ → Type 0
IsPlain c = (c ≢ b' ') × (c ≢ b')')

abbrev pub NoParen : ℕ → Type 0
NoParen c = c ≢ b')'

abbrev IsDigit : ℕ → Type 0
IsDigit c = is_digit c ≡ true

-- A field: not empty, with no space and no parenthesis.
abbrev pub IsToken : Bytes → Type 0
IsToken [] = ⊥
IsToken (c ∷ cs) = All IsPlain (c ∷ cs)

-- Fields, each behind one space.
abbrev pub spaced : List Bytes → Bytes → Bytes
spaced [] rest = rest
spaced (t ∷ ts) rest = b' ' ∷ (t ++ spaced ts rest)

-- What follows a number: nothing, or a byte that is no digit.
abbrev NoDigit : Bytes → Type 0
NoDigit [] = Unit
NoDigit (c ∷ cs) = is_digit c ≡ false

abbrev decimal : ℕ → Bytes → ℕ
decimal acc [] = acc
decimal acc (c ∷ cs) = decimal (acc * 10 + (c - b'0')) cs

skip_token-append : (t rest : Bytes) → All IsPlain t → skip_token (t ++ b' ' ∷ rest) ≡ b' ' ∷ rest
unfolding skip_token
skip_token-append [] rest h = refl
skip_token-append (c ∷ t) rest h = ground (arith, skip_token-append t rest)

digits_from-append :
    (acc : ℕ) (ds rest : Bytes)
    → All IsDigit ds
    → NoDigit rest
    → digits_from acc (ds ++ rest) ≡ decimal acc ds
unfolding digits_from
digits_from-append acc [] [] h n = refl
digits_from-append acc [] (c ∷ rest) h n = rw n
digits_from-append acc (d ∷ ds) rest h n =
    rw (h.0) (digits_from-append (acc * 10 + (d - b'0')) ds rest h.1 n)

digit_bounds : (c : ℕ) → IsDigit c → (b'0' ≤ c) × (c ≤ b'9')
digit_bounds c h = (ground arith, ground arith)

digits_value-append :
    (d : ℕ) (ds rest : Bytes)
    → All IsDigit (d ∷ ds)
    → NoDigit rest
    → digits_value (d ∷ (ds ++ rest)) ≡ some (decimal 0 (d ∷ ds))
unfolding digits_value
digits_value-append d ds rest h n = rw h.0 (ap some (digits_from-append 0 (d ∷ ds) rest h n))

-- The number at field 22.
start_time_value :
    (d : ℕ) (ds rest : Bytes)
    → All IsDigit (d ∷ ds)
    → NoDigit rest
    → decimal 0 (d ∷ ds) < 2 ^ 64
    → parse_start_time (d ∷ (ds ++ rest)) ≡ some (decimal 0 (d ∷ ds))
unfolding parse_start_time skip_white signed_value in_range
start_time_value d ds rest h n fits =
    let (lo, hi) = digit_bounds d h.0 in
    let white : is_space d ≡ false = ground arith in
    let minus : (d == b'-') ≡ false = ground arith in
    let plus : (d == b'+') ≡ false = ground arith in
    rw white (
      rw minus (
        rw plus (
          ap (in_range false) (digits_value-append d ds rest h n)
          ∙ rw (lt→ltb (decimal 0 (d ∷ ds)) (2 ^ 64) fits) refl)))

-- Behind a field stands the space of the next one.
skip_token-spaced :
    (t : Bytes) (ts : List Bytes) (rest : Bytes)
    → All IsPlain t
    → skip_token (t ++ spaced ts (b' ' ∷ rest)) ≡ spaced ts (b' ' ∷ rest)
skip_token-spaced t [] rest h = skip_token-append t rest h
skip_token-spaced t (u ∷ ts) rest h = skip_token-append t (u ++ spaced ts (b' ' ∷ rest)) h

skip_spaces-cons : (c : ℕ) (cs : Bytes) → c ≢ b' ' → skip_spaces (c ∷ cs) ≡ c ∷ cs
unfolding skip_spaces
skip_spaces-cons c cs h = ground arith

-- The space before a field is skipped, and no more.
skip_space : (c : ℕ) (cs : Bytes) → c ≢ b' ' → skip_spaces (b' ' ∷ c ∷ cs) ≡ c ∷ cs
unfolding skip_spaces
skip_space c cs h = ground arith

fields_loop-spaced :
    (ts : List Bytes) (d : ℕ) (ds rest : Bytes)
    → All IsToken ts
    → All IsDigit (d ∷ ds)
    → NoDigit rest
    → decimal 0 (d ∷ ds) < 2 ^ 64
    → fields_loop (length ts) (spaced ts (b' ' ∷ d ∷ (ds ++ rest))) ≡ some (decimal 0 (d ∷ ds))
unfolding fields_loop last_field next_field
fields_loop-spaced [] d ds rest ht h n fits =
    ap last_field (skip_space d (ds ++ rest) (omega (arith, digit_bounds d h.0)))
    ∙ start_time_value d ds rest h n fits
fields_loop-spaced ([] ∷ ts) d ds rest ht h n fits = absurd ht.0
fields_loop-spaced ((c ∷ t) ∷ ts) d ds rest ht h n fits =
    let more : Bytes = b' ' ∷ d ∷ (ds ++ rest) in
    ap (next_field (fields_loop (length ts))) (skip_space c (t ++ spaced ts more) ht.0.0.0)
    ∙ ap (fields_loop (length ts)) (skip_token-spaced (c ∷ t) ts (d ∷ (ds ++ rest)) ht.0)
    ∙ fields_loop-spaced ts d ds rest ht.1 h n fits

no_paren : (s : Bytes) → All NoParen s → after_last_paren s ≡ none
unfolding after_last_paren
no_paren [] h = refl
no_paren (c ∷ s) h =
    let e : (c == b')') ≡ false = ground arith in
    ap (λ o. or_here o (c == b')') s) (no_paren s h.1) ∙ rw e refl

-- Everything up to the last parenthesis goes, whatever the command's name holds.
after_last_paren-append :
    (front s : Bytes) → All NoParen s → after_last_paren (front ++ b')' ∷ s) ≡ some s
unfolding after_last_paren
after_last_paren-append [] s h = ap (λ o. or_here o true s) (no_paren s h)
after_last_paren-append (c ∷ front) s h =
    ap (λ o. or_here o (c == b')') (front ++ b')' ∷ s)) (after_last_paren-append front s h)

-- On a line "pid (comm) f3 f4 ... f22 ...", with any bytes at all before the last parenthesis, the
-- result is the number in field 22: the 19 fields before it are skipped, and what follows its digits
-- is not looked at.
pub read_start_time-field :
    (front : Bytes) (ts : List Bytes) (d : ℕ) (ds rest : Bytes)
    → length ts ≡ 19
    → All IsToken ts
    → All IsDigit (d ∷ ds)
    → NoDigit rest
    → decimal 0 (d ∷ ds) < 2 ^ 64
    → All NoParen (spaced ts (b' ' ∷ d ∷ (ds ++ rest)))
    → read_start_time (some (front ++ b')' ∷ spaced ts (b' ' ∷ d ∷ (ds ++ rest))))
      ≡ some (decimal 0 (d ∷ ds))
unfolding read_start_time fields_of
read_start_time-field front ts d ds rest len ht h n fits np =
    let line : Bytes = spaced ts (b' ' ∷ d ∷ (ds ++ rest)) in
    ap fields_of (after_last_paren-append front line np)
    ∙ ap (λ k. fields_loop k line) (sym len)
    ∙ fields_loop-spaced ts d ds rest ht h n fits
