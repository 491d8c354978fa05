-- ===== src/Beve/Views.antt =====
-- The zero-copy readers of native/include/glaze_meta.h, whose length is not checked a second time.
use flatpak_dart.Base.{ℕ, ◌+◌, ◌*◌, ◌%◌, ◌^◌, ◌<◌, ◌≤◌, ◌≡◌, refl, ap, ◌∙◌}
use flatpak_dart.Base.{◌++◌, Bytes, length, drop, arith, le→not-ltb, lt→ltb}
use native.Mathlib.Decide.{dec_le}
use native.Mathlib.Nat.{mod-eq_of_lt}
use flatpak_dart.Beve.Words.{le_bytes, length-le_bytes}
use flatpak_dart.Beve.Reader.{Reader, Outcome, ok, throw, fault, addresses, Span}
use flatpak_dart.Beve.Reader.{read_number, skip, view_behind, read_span, out_of_range}
use flatpak_dart.Beve.Codec.{>>=-ok, past_end-false, read_number-Reads}

-- The bytes of the view lie between the cursor before the call and the end of the buffer.
abbrev pub InBuffer : ℕ → Reader → Outcome Span → Type 0
InBuffer w r (ok v r') = (r.p ≤ v.start) × (v.start + v.count * w ≤ r.p + length r.rest)
InBuffer w r (throw e) = Unit
InBuffer w r fault = ⊥

abbrev pub counted : ℕ → ℕ → Bytes → Reader
counted p n more = record { p = p; rest = le_bytes 8 n ++ more }

skip-ok :
    (n : ℕ) (r : Reader)
    → n ≤ length r.rest
    → skip n r ≡ ok tt (record { p = r.p + n; rest = drop n r.rest })
unfolding skip
skip-ok n r h = rw (le→not-ltb (length r.rest) n h)

view_behind-ok :
    (size count : ℕ) (r : Reader)
    → r.p + length r.rest < addresses
    → size ≤ length r.rest
    → view_behind size count r
      ≡ ok
          (record { start = r.p; count = count })
          (record { p = r.p + size; rest = drop size r.rest })
unfolding view_behind
view_behind-ok size count r h le =
    rw (past_end-false size r h le) (>>=-ok (skip size) _ r (skip-ok size r le))

view_behind-throw :
    (size count : ℕ) (r : Reader)
    → r.p + size < addresses
    → length r.rest < size
    → view_behind size count r ≡ throw out_of_range
unfolding view_behind
view_behind-throw size count r h lt =
    rw (lt→ltb (r.p + length r.rest) ((r.p + size) % addresses) (omega arith))

view_behind-InBuffer :
    (w n : ℕ) (r : Reader)
    → r.p + length r.rest < addresses
    → r.p + n * w < addresses
    → InBuffer w r (view_behind (n * w % addresses) n r)
view_behind-InBuffer w n r h k =
    rw (mod-eq_of_lt {n = n * w} {m = addresses} (omega arith))
      (elim (dec_le (n * w) (length r.rest)) [
        | yes le ↦ rw (view_behind-ok (n * w) n r h le) (omega arith)
        | no gt ↦ rw (view_behind-throw (n * w) n r k (omega arith)) tt
      ])

-- The step over the count.
behind_count :
    (w n p : ℕ) (more : Bytes)
    → p + 8 + length more < addresses
    → n < 2 ^ 64
    → read_span w (counted p n more)
      ≡ view_behind (n * w % addresses) n (record { p = p + 8; rest = more })
unfolding read_span
behind_count w n p more h hn =
    >>=-ok (read_number 8) _ (counted p n more)
      (read_number-Reads 8 n hn p more (omega (arith, length-le_bytes 8 n)))
    ∙ ap (λ k. view_behind (n * w % addresses) n (record { p = p + k; rest = more }))
        (length-le_bytes 8 n)

-- A span whose byte size and end do not wrap lies in the buffer, or is refused: for elements of `w`
-- bytes, any stored count `n` and any bytes after it.
pub read_span-InBuffer :
    (w n p : ℕ) (more : Bytes)
    → p + 8 + length more < addresses
    → p + 8 + n * w < addresses
    → n < 2 ^ 64
    → InBuffer w (record { p = p + 8; rest = more }) (read_span w (counted p n more))
read_span-InBuffer w n p more h k hn =
    rw (behind_count w n p more h hn)
      (view_behind-InBuffer w n (record { p = p + 8; rest = more }) h k)

-- The defect: a count whose byte size wraps round to something small passes the check, and the span
-- that `read_span` returns is longer than the whole buffer.
pub read_span_wraps :
    (w n p : ℕ) (more : Bytes)
    → p + 8 + length more < addresses
    → n < 2 ^ 64
    → 2 ^ 64 ≤ n * w
    → n * w % 2 ^ 64 ≤ length more
    → (v : Span) × (r' : Reader) × (read_span w (counted p n more) ≡ ok v r')
      × (v.count ≡ n)
      × (p + 8 + length more < v.start + v.count * w)
read_span_wraps w n p more h hn big small = (
  record { start = p + 8; count = n },
  record { p = p + 8 + n * w % 2 ^ 64; rest = drop (n * w % 2 ^ 64) more },
  behind_count w n p more h hn
      ∙ view_behind-ok (n * w % 2 ^ 64) n (record { p = p + 8; rest = more }) h small,
  refl,
  omega arith,
)
