-- ===== src/Metadata/Extensions.antt =====
-- The extensions that a keyfile requires (native/src/app_metadata.cpp).
use flatpak_dart.Base.{
  ◌≡◌, refl, false, Option, none, some, List, [], ◌∷◌, ◌++◌, Bytes, ◌⊎◌, sym, subst,
}
use flatpak_dart.Base.{bytes, All, All-map, All-append, arith, Bool-cases, inl, inr}
use flatpak_dart.Metadata.{KeyFile, RequiredExtension, after_prefix, extension_prefix, branches_or}
use flatpak_dart.Metadata.{extension, extension_if, extensions_loop, required_extensions}

abbrev pub NonEmpty : {A : Type 0} → List A → Type 0
NonEmpty [] = ⊥
NonEmpty (x ∷ xs) = Unit

abbrev pub IsIn : Bytes → List Bytes → Type 0
IsIn g [] = ⊥
IsIn g (h ∷ hs) = (g ≡ h) ⊎ IsIn g hs

-- An extension that is installed with the application: it has an id and a branch to install, and its
-- group says neither that it is not downloaded nor that it is a directory of extensions.
abbrev pub IsRequired : KeyFile → List Bytes → RequiredExtension → Type 0
IsRequired kf groups e =
    NonEmpty e.id
    × NonEmpty e.branches
    × IsIn (extension_prefix ++ e.id) groups
    × (kf.boolean (extension_prefix ++ e.id) (bytes "no-autodownload") ≡ false)
    × (kf.boolean (extension_prefix ++ e.id) (bytes "subdirectories") ≡ false)

branches_or-NonEmpty : (b : Bytes) (bs : List Bytes) → NonEmpty (branches_or b bs)
unfolding branches_or
branches_or-NonEmpty b [] = tt
branches_or-NonEmpty b (c ∷ bs) = tt

after_prefix-append : (p g : Bytes) (id : Bytes) → after_prefix p g ≡ some id → g ≡ p ++ id
unfolding after_prefix
after_prefix-append [] g id e = cc
after_prefix-append (c ∷ p) [] id e = cc
after_prefix-append (c ∷ p) (d ∷ g) id e = ground (arith, after_prefix-append p g id)

extension_if-IsRequired :
    (kf : KeyFile) (b : Option Bytes) (g : Bytes) (gs : List Bytes) (o : Option Bytes)
    → after_prefix extension_prefix g ≡ o
    → All (IsRequired kf (g ∷ gs)) (extension_if kf b g o)
unfolding extension_if extension
extension_if-IsRequired kf b g gs none e = tt
extension_if-IsRequired kf b g gs (some []) e = tt
extension_if-IsRequired kf b g gs (some (c ∷ cs)) e =
    let p : g ≡ extension_prefix ++ c ∷ cs = after_prefix-append extension_prefix g (c ∷ cs) e in
    elim (Bool-cases (kf.boolean g (bytes "no-autodownload"))) [
      | inl t ↦ rw t tt
      | inr t ↦ elim (Bool-cases (kf.boolean g (bytes "subdirectories"))) [
        | inl u ↦ rw (t, u) tt
        | inr u ↦
            rw (t, u)
              (
                (
                  tt,
                  branches_or-NonEmpty _ _,
                  inl (sym p),
                  subst (λ h. kf.boolean h (bytes "no-autodownload") ≡ false) p t,
                  subst (λ h. kf.boolean h (bytes "subdirectories") ≡ false) p u,
                ),
                tt,
              )
      ]
    ]

extensions_loop-IsRequired :
    (kf : KeyFile) (b : Option Bytes) (gs : List Bytes)
    → All (IsRequired kf gs) (extensions_loop kf b gs)
unfolding extensions_loop
extensions_loop-IsRequired kf b [] = tt
extensions_loop-IsRequired kf b (g ∷ gs) =
    All-append (IsRequired kf (g ∷ gs)) _ _
      (extension_if-IsRequired kf b g gs (after_prefix extension_prefix g) refl)
      (All-map (λ e h. (h.0, h.1, inr h.2, h.3, h.4)) _ (extensions_loop-IsRequired kf b gs))

-- Every extension found stands in the keyfile under its own group, has an id and at least one branch,
-- and is neither excluded from download nor a directory of extensions.
pub required_extensions-IsRequired :
    (kf : KeyFile) (app_branch : Option Bytes)
    → All (IsRequired kf kf.groups) (required_extensions (some kf) app_branch)
unfolding required_extensions
required_extensions-IsRequired kf app_branch = extensions_loop-IsRequired kf app_branch kf.groups
