-- ===== src/Reader/Told/Agreement.antt =====
-- The tests and structs of native/src/installation_reader.cpp against what Dart should be told.
use flatpak_dart.Base.{◌≡◌, refl, ap, Bool, true, false, not, ◌||◌, ◌&&◌, Option, none, some, []}
use flatpak_dart.Base.{◌∷◌, Bytes, bytes, arith}
use flatpak_dart.Flatpak.{RefKind, app, runtime, is_app, FlatpakInstalledRef}
use flatpak_dart.Flatpak.{Answer, value, failure, non_empty}
use flatpak_dart.Metadata.{KeyFile}
use flatpak_dart.Reader.{Installation, FlatpakRemoteRef}
use flatpak_dart.Reader.{kind_text, ref_info, app_info, is_set}
use flatpak_dart.Reader.Listing.{skips_runtime, skips_remote_ref, other_arch, remote_ref_has_socket}
use flatpak_dart.Reader.Listing.{metadata_has_socket, keyfile_has_socket, update_info}
use flatpak_dart.Reader.Told.{wants_kind, wants_arch, asks_wayland, is_wayland, wants_socket}
use flatpak_dart.Reader.Told.{wants_app, wants_offer, is_there, told_kind, told_offer, told_update}
use flatpak_dart.Reader.Told.{told_app}
use flatpak_dart.Flatpak.{FlatpakRef}

kinds : (b : Bool) (k : RefKind) → not b && not (is_app k) ≡ not (wants_kind b k)
kinds true app = refl
kinds true runtime = refl
kinds false app = refl
kinds false runtime = refl

pub skips_runtime-wants_app :
    (b : Bool) (iref : FlatpakInstalledRef) → skips_runtime b iref ≡ not (wants_app b iref)
unfolding skips_runtime
skips_runtime-wants_app b iref = kinds b iref.ref.kind

arches : (arch a : Option Bytes) → other_arch (non_empty arch) a ≡ not (wants_arch arch a)
unfolding other_arch non_empty
arches none a = refl
arches (some []) a = refl
arches (some (c ∷ cs)) a = refl

keyfiles :
    (strip : Bytes → Bytes) (a : Answer KeyFile)
    → keyfile_has_socket strip (bytes "wayland") a ≡ asks_wayland strip a
unfolding keyfile_has_socket
keyfiles strip (failure e) = refl
keyfiles strip (value kf) = refl

metadatas :
    (inst : Installation) (m : Option Bytes)
    → metadata_has_socket inst (bytes "wayland") m ≡ is_wayland inst m
unfolding metadata_has_socket
metadatas inst none = refl
metadatas inst (some m) = keyfiles inst.strip (inst.parse_keyfile m)

sockets : (w : Bool) (k : RefKind) (b : Bool) → w && is_app k && not b ≡ not (wants_socket w k b)
sockets true app b = refl
sockets true runtime b = refl
sockets false app b = refl
sockets false runtime b = refl

all_three : (a b c : Bool) → not a || not b || not c ≡ not (a && b && c)
all_three a b c = ground arith

pub skips_remote_ref-wants_offer :
    (inst : Installation) (arch : Option Bytes) (b w : Bool) (fref : FlatpakRemoteRef)
    → skips_remote_ref inst arch b w fref ≡ not (wants_offer inst arch b w fref)
unfolding skips_remote_ref remote_ref_has_socket
skips_remote_ref-wants_offer inst arch b w fref =
    rw
      (
        kinds b fref.ref.kind,
        arches arch fref.ref.arch,
        metadatas inst fref.metadata,
        sockets w fref.ref.kind (is_wayland inst fref.metadata),
        all_three (wants_kind b fref.ref.kind) (wants_arch arch fref.ref.arch)
            (wants_socket w fref.ref.kind (is_wayland inst fref.metadata)),
      )
      refl

kind_text-told : (k : RefKind) → kind_text k ≡ told_kind k
unfolding kind_text
kind_text-told app = refl
kind_text-told runtime = refl

is_set-is_there : (s : Option Bytes) → is_set s ≡ is_there s
unfolding is_set
is_set-is_there none = refl
is_set-is_there (some s) = refl

pub ref_info-told : (ref : FlatpakRef) → ref_info (kind_text ref.kind) ref ≡ told_offer ref
unfolding ref_info
ref_info-told ref = ap (λ k. ref_info k ref) (kind_text-told ref.kind)

pub update_info-told : (ref : FlatpakRef) → update_info ref ≡ told_update ref
unfolding update_info ref_info
update_info-told ref =
    ap (λ k. record (ref_info k ref) { collection_id = [] }) (kind_text-told ref.kind)

pub app_info-told :
    (iref : FlatpakInstalledRef) → app_info (kind_text iref.ref.kind) iref ≡ told_app iref
unfolding app_info
app_info-told iref = rw (ref_info-told iref.ref, is_set-is_there iref.eol) refl
