-- ===== src/Tests/Codec.antt =====
-- Concrete runs of the codec and the frames (native/include/glaze_meta.h, flatpak_post.h).
use flatpak_dart.Base.{ℕ, ◌+◌, ◌*◌, ◌^◌, ◌<◌, ◌≡◌, refl, true, some, [], ◌∷◌, ◌++◌}
use flatpak_dart.Base.{Bytes, bytes, length, ◌≢◌, arith}
use flatpak_dart.Beve.Schema.{Elem, number, text, Fields, end, field, plain, flag, optional, vector}
use flatpak_dart.Beve.Reader.{Reader, decoded, undefined, read_binary, ok, Span, read_span}
use flatpak_dart.Beve.Writer.{write_binary}
use flatpak_dart.Beve.Words.{le_bytes}
use flatpak_dart.Beve.Reader.{addresses}
use flatpak_dart.Beve.RoundTrip.{FieldsFit, read_binary-write_binary}
use flatpak_dart.Beve.Safety.{read_binary-ne-undefined}
use flatpak_dart.Beve.Views.{counted, InBuffer, read_span-InBuffer, read_span_wraps}
use flatpak_dart.Wire.Reflect.{encode, decode, decode-encode}
use flatpak_dart.Wire.Events.{FpMetadataEntry, fp_metadata_entry_meta}

abbrev cap : Elem → ℕ
cap t = 1000

-- A struct with a text, a flag, an optional word and a vector of bytes.
abbrev sample_fields : Fields
sample_fields =
    field (plain text) (field flag (field (optional (number 4)) (field (vector (number 1)) end)))

abbrev more : Bytes
more = 7 ∷ 7 ∷ []

written :
    write_binary sample_fields (bytes "ab", (true, (some 258, (5 ∷ [], tt))))
    ≡ 2 ∷ 0 ∷ 0 ∷ 0 ∷ 0 ∷ 0 ∷ 0 ∷ 0 ∷ 97 ∷ 98 ∷ 1 ∷ 1 ∷ 2 ∷ 1 ∷ 0 ∷ 0 ∷ 1 ∷ 0 ∷ 0 ∷ 0 ∷ 0 ∷ 0 ∷ 0
      ∷ 0 ∷ 5 ∷ []
unfolding write_binary le_bytes
written = refl

sample_fits : FieldsFit cap sample_fields (bytes "ab", (true, (some 258, (5 ∷ [], tt))))
sample_fits =
    (omega arith, (tt, (omega arith, ((omega arith, omega arith, (omega arith, tt)), tt))))

sample_room :
    4096
      + length (write_binary sample_fields (bytes "ab", (true, (some 258, (5 ∷ [], tt)))) ++ more)
    < addresses
unfolding write_binary le_bytes
sample_room = omega arith

read_binary-write_binary_example :
    read_binary cap sample_fields (record {
      p = 4096;
      rest = write_binary sample_fields (bytes "ab", (true, (some 258, (5 ∷ [], tt)))) ++ more;
    })
    ≡ decoded (bytes "ab", (true, (some 258, (5 ∷ [], tt))))
read_binary-write_binary_example =
    read_binary-write_binary cap sample_fields (bytes "ab", (true, (some 258, (5 ∷ [], tt)))) 4096
      more sample_fits sample_room

read_binary-ne-undefined_example :
    read_binary cap sample_fields (record { p = 4096; rest = more }) ≢ undefined
read_binary-ne-undefined_example =
    read_binary-ne-undefined cap sample_fields (record { p = 4096; rest = more })
      (tt, (tt, (omega arith, (omega arith, tt)))) (omega arith)

abbrev ipc_entry : FpMetadataEntry
ipc_entry = record { section = bytes "Context"; key = bytes "shared"; value = bytes "ipc" }

entry_room : 4096 + length (encode ipc_entry ++ more) < addresses
unfolding encode write_binary le_bytes
entry_room = omega arith

decode-encode_example :
    decode cap (record { p = 4096; rest = encode ipc_entry ++ more }) ≡ decoded ipc_entry
decode-encode_example =
    decode-encode cap ipc_entry 4096 more (omega arith, (omega arith, (omega arith, tt))) entry_room

read_span-InBuffer_example :
    InBuffer 4 (record { p = 4104; rest = more }) (read_span 4 (counted 4096 3 more))
read_span-InBuffer_example =
    read_span-InBuffer 4 3 4096 more (omega arith) (omega arith) (omega arith)

-- 2^61 + 0 words of 8 bytes: the size wraps to 0.
read_span_wraps_example :
    (v : Span) × (r' : Reader) × (read_span 8 (counted 4096 (2 ^ 61) more) ≡ ok v r')
    × (v.count ≡ 2 ^ 61)
    × (4096 + 8 + length more < v.start + v.count * 8)
read_span_wraps_example =
    read_span_wraps 8 (2 ^ 61) 4096 more (omega arith) (omega arith) (omega arith) (omega arith)
