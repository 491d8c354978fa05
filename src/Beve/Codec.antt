-- ===== src/Beve/Codec.antt =====
-- Matching writers and readers (native/include/glaze_meta.h): what the round trip is built from.
use flatpak_dart.Base.{ℕ, ◌+◌, ◌^◌, ◌<◌, ◌≤◌, ◌≡◌, refl, ap, ◌∙◌, subst, Bool, true}
use flatpak_dart.Base.{false, [], ◌∷◌, ◌++◌, append_assoc}
use flatpak_dart.Base.{Bytes, length, length-append, take-append, drop-append, arith, le→not-ltb}
use flatpak_dart.Beve.Words.{le_bytes, le_value, le_value-le_bytes, length-le_bytes}
use flatpak_dart.Beve.Writer.{write_number, write_bool, write_text}
use flatpak_dart.Beve.Reader.{
  Reader, Read, Outcome, ok, throw, Exception, ◌>>=◌, pure, addresses, max_size,
}
use flatpak_dart.Beve.Reader.{past_end, take_bytes, read_number, read_bool, make_string, read_text}

-- Wherever `bs` stands in the address space, `read` takes just these bytes and returns `v`.
abbrev pub Reads {ℓ} : {A : Type ℓ} → Read A → Bytes → A → Type ℓ
Reads read bs v =
    (p : ℕ) (more : Bytes)
    → p + (length bs + length more) < addresses
    → read (record { p = p; rest = bs ++ more }) ≡ ok v (record { p = p + length bs; rest = more })

-- `write` adds bytes that `read` turns back into `v`.
abbrev pub Encodes {ℓ} : {A : Type ℓ} → (A → Bytes → Bytes) → Read A → A → Type ℓ
Encodes write read v = (bs : Bytes) × ((buf : Bytes) → write v buf ≡ buf ++ bs) × Reads read bs v

pub >>=-ok {ℓ κ} :
    {A : Type ℓ} {B : Type κ} (read : Read A) (f : A → Read B) (r : Reader) {v : A} {r' : Reader}
    → read r ≡ ok v r'
    → (read >>= f) r ≡ f v r'
>>=-ok read f r e = rw (e, ◌>>=◌)

pub >>=-throw {ℓ κ} :
    {A : Type ℓ} {B : Type κ} (read : Read A) (f : A → Read B) (r : Reader) {x : Exception}
    → read r ≡ throw x
    → (read >>= f) r ≡ throw x
>>=-throw read f r e = rw (e, ◌>>=◌)

pub Reads-bind {ℓ κ} :
    {A : Type ℓ} {B : Type κ} (read : Read A) (f : A → Read B) (bs cs : Bytes) (v : A) (w : B)
    → Reads read bs v
    → Reads (f v) cs w
    → Reads (read >>= f) (bs ++ cs) w
Reads-bind read f bs cs v w hr hf p more h = rw (append_assoc bs cs more) (
    >>=-ok read f _ (hr p (cs ++ more) (omega (arith, length-append bs cs, length-append cs more)))
    ∙ hf (p + length bs) more (omega (arith, length-append bs cs))
    ∙ ap (λ a. ok w (record { p = a; rest = more })) (omega (arith, length-append bs cs)))

pub Reads-pure {ℓ} : {A : Type ℓ} (v : A) → Reads (pure v) [] v
Reads-pure v p more h = ap (λ a. ok v (record { p = a; rest = more })) (omega arith)

pub Reads-map {ℓ κ} :
    {A : Type ℓ} {B : Type κ} (read : Read A) (g : A → B) (bs : Bytes) (v : A)
    → Reads read bs v
    → Reads (read >>= λ a. pure (g a)) bs (g v)
Reads-map read g bs v h p more k = >>=-ok read (λ a. pure (g a)) _ (h p more k)

pub take_bytes-Reads : (bs : Bytes) → Reads (take_bytes (length bs)) bs bs
unfolding take_bytes
take_bytes-Reads bs p more h =
    ground (arith, length-append bs more, take-append bs more, drop-append bs more)

-- A bounds check passes when the bytes are there and the buffer does not wrap.
pub past_end-false :
    (n : ℕ) (r : Reader)
    → r.p + length r.rest < addresses
    → n ≤ length r.rest
    → past_end n r ≡ false
past_end-false n r h le = le→not-ltb _ _ (omega arith)

pub read_number-Reads : (w v : ℕ) → v < 256 ^ w → Reads (read_number w) (le_bytes w v) v
unfolding read_number
read_number-Reads w v hv p more h =
    rw (past_end-false w _ fits (omega (arith, sizes))) (>>=-ok (take_bytes w) _ _ taken ∙ value)
  where
    bs : Bytes
    bs = le_bytes w v

    sizes : length (bs ++ more) ≡ w + length more
    sizes = omega (arith, length-append bs more, length-le_bytes w v)

    fits : p + length (bs ++ more) < addresses
    fits = omega (arith, length-append bs more)

    taken :
        take_bytes w (record { p = p; rest = bs ++ more })
        ≡ ok bs (record { p = p + length bs; rest = more })
    taken =
        subst (λ n. Reads (take_bytes n) bs bs) (length-le_bytes w v) (take_bytes-Reads bs) p more h

    value :
        ◌≡◌ {A = Outcome ℕ}
          (ok (le_value bs) (record { p = p + length bs; rest = more }))
          (ok v (record { p = p + length bs; rest = more }))
    value = ap (λ a. ok a (record { p = p + length bs; rest = more })) (le_value-le_bytes w v hv)

-- The same before a text or an element of its own size.
past_end-append :
    (p : ℕ) (bs more : Bytes)
    → p + (length bs + length more) < addresses
    → past_end (length bs) (record { p = p; rest = bs ++ more }) ≡ false
past_end-append p bs more h =
    past_end-false (length bs) (record { p = p; rest = bs ++ more })
      (omega (arith, length-append bs more)) (omega (arith, length-append bs more))

pub write_number-Encodes : (w v : ℕ) → v < 256 ^ w → Encodes (write_number w) (read_number w) v
unfolding write_number
write_number-Encodes w v h = (le_bytes w v, λ buf. refl, read_number-Reads w v h)

pub write_bool-Encodes : (b : Bool) → Encodes write_bool read_bool b
unfolding write_bool read_bool
write_bool-Encodes true = (1 ∷ [], λ buf. refl, λ p more h. refl)
write_bool-Encodes false = (0 ∷ [], λ buf. refl, λ p more h. refl)

-- A string that `max_size` admits.
abbrev pub IsText : Bytes → Type 0
IsText s = length s ≤ max_size

make_string-Reads : (s : Bytes) → IsText s → Reads (make_string (length s)) s s
unfolding make_string
make_string-Reads s hs p more h =
    rw (le→not-ltb max_size (length s) hs) (take_bytes-Reads s p more h)

pub read_text-Reads : (s : Bytes) → IsText s → Reads read_text (le_bytes 8 (length s) ++ s) s
unfolding read_text
read_text-Reads s hs =
    Reads-bind (read_number 8) _ (le_bytes 8 (length s)) s (length s) s
      (read_number-Reads 8 (length s) (omega arith))
      λ p more h. rw (past_end-append p s more h) (make_string-Reads s hs p more h)

pub write_text-Encodes : (s : Bytes) → IsText s → Encodes write_text read_text s
unfolding write_text
write_text-Encodes s hs =
    (le_bytes 8 (length s) ++ s, λ buf. append_assoc buf _ s, read_text-Reads s hs)
