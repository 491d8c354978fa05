-- ===== src/Process/Stat.antt =====
-- native/src/installation_reader.cpp, `read_start_time`: field 22 of /proc/<pid>/stat. The contents
-- are a C string, so a list of bytes without 0.
use flatpak_dart.Base.{ℕ, zero, suc, ◌+◌, ◌-◌, ◌*◌, ◌%◌, ◌^◌, Bool, true, false, ◌&&◌, ◌||◌, Option}
use flatpak_dart.Base.{none, some, List, [], ◌∷◌, Bytes, ltb, leb, ◌==◌, if◌then◌else◌}
pub mod Fields

-- `strrchr(s, ')') + 1`
abbrev pub or_here : Option Bytes → Bool → Bytes → Option Bytes
or_here (some later) hit here = some later
or_here none true here = some here
or_here none false here = none

unfoldable pub after_last_paren : Bytes → Option Bytes
after_last_paren [] = none
after_last_paren (c ∷ cs) = or_here (after_last_paren cs) (c == b')') cs

-- `while (*p == ' ') p++;` and `while (*p && *p != ' ') p++;`
unfoldable pub skip_spaces : Bytes → Bytes
skip_spaces [] = []
skip_spaces (c ∷ cs) = if c == b' ' then skip_spaces cs else c ∷ cs

unfoldable pub skip_token : Bytes → Bytes
skip_token [] = []
skip_token (c ∷ cs) = if c == b' ' then c ∷ cs else skip_token cs

-- `strtoull(p, &end, 10)` of the C library: white space, a sign, digits. The value of the digits is
-- exact here; `none` stands for `end == p`.
abbrev pub is_space : ℕ → Bool
is_space c = c == b' ' || (leb 9 c && leb c 13)

abbrev pub is_digit : ℕ → Bool
is_digit c = leb b'0' c && leb c b'9'

unfoldable pub skip_white : Bytes → Bytes
skip_white [] = []
skip_white (c ∷ cs) = if is_space c then skip_white cs else c ∷ cs

unfoldable pub digits_from : ℕ → Bytes → ℕ
digits_from acc [] = acc
digits_from acc (c ∷ cs) = if is_digit c then digits_from (acc * 10 + (c - b'0')) cs else acc

unfoldable pub digits_value : Bytes → Option ℕ
digits_value [] = none
digits_value (c ∷ cs) = if is_digit c then some (digits_from 0 (c ∷ cs)) else none

-- ERANGE is a failure too; a minus sign negates in 64 bits.
unfoldable pub in_range : Bool → Option ℕ → Option ℕ
in_range negative none = none
in_range negative (some v) =
    if ltb v (2 ^ 64) then some (if negative then (2 ^ 64 - v) % 2 ^ 64 else v) else none

unfoldable pub signed_value : Bytes → Option ℕ
unfolding in_range
signed_value [] = none
signed_value (c ∷ cs) =
    if c == b'-'
    then in_range true (digits_value cs)
    else (if c == b'+'
        then in_range false (digits_value cs)
        else in_range false (digits_value (c ∷ cs)))

unfoldable pub parse_start_time : Bytes → Option ℕ
unfolding skip_white signed_value
parse_start_time p = signed_value (skip_white p)

unfoldable pub last_field : Bytes → Option ℕ
unfolding parse_start_time
last_field [] = none
last_field (c ∷ cs) = parse_start_time (c ∷ cs)

unfoldable pub next_field : (Bytes → Option ℕ) → Bytes → Option ℕ
unfolding skip_token
next_field loop [] = none
next_field loop (c ∷ cs) = loop (skip_token (c ∷ cs))

-- The field loop. `left` is the number of fields between the next one and field 22: it reads `field++`
-- backwards, and the loop has 20 rounds at most.
unfoldable pub fields_loop : ℕ → Bytes → Option ℕ
fields_loop zero p = last_field (skip_spaces p)
fields_loop (suc left) p = next_field (fields_loop left) (skip_spaces p)

unfoldable pub fields_of : Option Bytes → Option ℕ
unfolding fields_loop
fields_of none = none
fields_of (some p) = fields_loop 19 p

-- `contents` is absent where the file cannot be read.
unfoldable pub read_start_time : Option Bytes → Option ℕ
unfolding after_last_paren fields_of
read_start_time none = none
read_start_time (some contents) = fields_of (after_last_paren contents)
