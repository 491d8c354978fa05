-- ===== src/Remote/Config/Decode.antt =====
-- The change requests that cross the bridge (native/src/user_remote_bridge.cpp, `decode_config`).
use flatpak_dart.Base.{ℕ, ◌+◌, ◌%◌, ◌<◌, ◌≡◌, ◌≢◌, refl, sym, ap, ◌∙◌, Option}
use flatpak_dart.Base.{none, some, [], ◌∷◌, ◌++◌, Bytes, length, arith, lt→ltb}
use flatpak_dart.Beve.Schema.{Elem}
use flatpak_dart.Beve.Reader.{Reader, Decoded, decoded, rejected, undefined, addresses}
use flatpak_dart.Beve.Reader.{read_number, read_text, out_of_range, throw}
use flatpak_dart.Beve.Reader.{read_value}
use flatpak_dart.Beve.Safety.{IsUser}
use flatpak_dart.Wire.Reflect.{
  encode, decode, Fits, decode-encode, decode-throw, decode-ne-undefined,
}
use flatpak_dart.Beve.Codec.{>>=-throw}
use flatpak_dart.Wire.Remotes.{RemoteConfig, remote_config_meta}
use flatpak_dart.Remote.Config.{default_config, kept, decode_bytes, decode_config}

-- With no bytes the first length is missing.
number_missing :
    (p : ℕ) → p + 8 < addresses → read_number 8 (record { p = p; rest = [] }) ≡ throw out_of_range
unfolding read_number
number_missing p h = rw (lt→ltb (p + 0) ((p + 8) % addresses) (omega arith)) refl

decode_nothing :
    (limit : Elem → ℕ) (p : ℕ)
    → p + 8 < addresses
    → decode {T = RemoteConfig} limit (record { p = p; rest = [] }) ≡ rejected
unfolding read_value read_text
decode_nothing limit p h =
    decode-throw {T = RemoteConfig} limit (record { p = p; rest = [] }) out_of_range
      (>>=-throw read_text _ _ (>>=-throw (read_number 8) _ _ (number_missing p h)))

decode_bytes_lem :
    (limit : Elem → ℕ) (p : ℕ) (bs : Bytes)
    → p + 8 < addresses
    → decode_bytes limit p bs ≡ kept (decode limit (record { p = p; rest = bs }))
unfolding decode_bytes
decode_bytes_lem limit p [] h = sym (ap kept (decode_nothing limit p h))
decode_bytes_lem limit p (b ∷ bs) h = refl

-- The request that Dart encodes is the one that the bridge applies.
pub decode_config-encode :
    (limit : Elem → ℕ) (cfg : RemoteConfig) (p : ℕ) (more : Bytes)
    → Fits limit cfg
    → p + 8 + length (encode cfg ++ more) < addresses
    → decode_config limit (some (record { p = p; rest = encode cfg ++ more })) ≡ decoded cfg
unfolding decode_config
decode_config-encode limit cfg p more fits h =
    decode_bytes_lem limit p (encode cfg ++ more) (omega arith)
    ∙ ap kept (decode-encode limit cfg p more fits (omega arith))

kept-decoded :
    (d : Decoded RemoteConfig) → d ≢ undefined → (cfg : RemoteConfig) × (kept d ≡ decoded cfg)
kept-decoded (decoded cfg) h = (cfg, refl)
kept-decoded rejected h = (default_config, refl)
kept-decoded undefined h = absurd (h refl)

-- Any buffer at all yields a request, and none makes the bridge read outside it.
pub decode_config-decoded :
    (limit : Elem → ℕ) (buf : Reader)
    → IsUser buf
    → (cfg : RemoteConfig) × (decode_config limit (some buf) ≡ decoded cfg)
unfolding decode_config
decode_config-decoded limit buf u =
    let (cfg, e) =
      kept-decoded (decode limit buf)
        (decode-ne-undefined {T = RemoteConfig} limit buf (omega arith) u) in
    (cfg, decode_bytes_lem limit buf.p buf.rest (omega arith) ∙ e)

-- A buffer that does not decode stands for the default request.
pub decode_config-rejected :
    (limit : Elem → ℕ) (buf : Reader)
    → decode {T = RemoteConfig} limit buf ≡ rejected
    → decode_config limit (some buf) ≡ decoded default_config
unfolding decode_config decode_bytes
decode_config-rejected limit buf e = at buf.p buf.rest e
  where
    at :
        (p : ℕ) (bs : Bytes)
        → decode {T = RemoteConfig} limit (record { p = p; rest = bs }) ≡ rejected
        → decode_bytes limit p bs ≡ decoded default_config
    at p [] e = refl
    at p (b ∷ bs) e = ap kept e

-- No buffer, or one in the lower half of the address space.
abbrev pub BufferOk : Option Reader → Type 0
BufferOk none = Unit
BufferOk (some buf) = IsUser buf

pub decode_config-total :
    (limit : Elem → ℕ) (buf : Option Reader)
    → BufferOk buf
    → (cfg : RemoteConfig) × (decode_config limit buf ≡ decoded cfg)
decode_config-total limit none h = (default_config, unfold decode_config in refl)
decode_config-total limit (some buf) h = decode_config-decoded limit buf h
