-- ===== src/Reader/Refresh/Arrivals.antt =====
-- What arrives at one port of the frames that native/src/installation_reader.cpp posts, as whole replies.
use flatpak_dart.Base.{ℕ, ◌+◌, ◌≡◌, refl, sym, ap, ◌∙◌, subst, false}
use flatpak_dart.Base.{
  List, [], ◌∷◌, ◌++◌, append_assoc, append-nil, All-map, All, All-append, length, length-append,
}
use flatpak_dart.Base.{◌==◌, ==_iff, if◌then◌else◌, Bool-cases, inl, inr, arith}
use flatpak_dart.Post.{Frame}
use flatpak_dart.Reader.Replies.{IsReply}

abbrev pub concat : List (List Frame) → List Frame
concat [] = []
concat (b ∷ bs) = b ++ concat bs

-- What arrives at a port.
abbrev pub to_port : ℕ → List Frame → List Frame
to_port port [] = []
to_port port (f ∷ fs) = let rest = to_port port fs in if f.port == port then f ∷ rest else rest

-- The frames are `n` whole replies on the port, one after the other.
abbrev pub Replies : ℕ → ℕ → List Frame → Type 0
Replies n port fs =
    (bs : List (List Frame)) × (fs ≡ concat bs) × (length bs ≡ n) × All (IsReply port) bs

abbrev pub one_on : ℕ → ℕ → ℕ
one_on port p = if p == port then 1 else 0

to_port-append :
    (port : ℕ) (fs gs : List Frame) → to_port port (fs ++ gs) ≡ to_port port fs ++ to_port port gs
to_port-append port [] gs = refl
to_port-append port (f ∷ fs) gs = elim (Bool-cases (f.port == port)) [
  | inl e ↦ rw (e, to_port-append port fs gs) refl
  | inr e ↦ rw (e, to_port-append port fs gs) refl
]

concat-append : (bs cs : List (List Frame)) → concat (bs ++ cs) ≡ concat bs ++ concat cs
concat-append [] cs = refl
concat-append (b ∷ bs) cs =
    ap (◌++◌ b) (concat-append bs cs) ∙ sym (append_assoc b (concat bs) (concat cs))

pub Replies-append :
    (m n port : ℕ) (fs gs : List Frame)
    → Replies m port (to_port port fs)
    → Replies n port (to_port port gs)
    → Replies (m + n) port (to_port port (fs ++ gs))
Replies-append m n port fs gs (bs, e, k, h) (cs, e', k', h') = (
  bs ++ cs,
  to_port-append port fs gs ∙ rw (e, e') (sym (concat-append bs cs)),
  omega (arith, length-append bs cs),
  All-append (IsReply port) bs cs h h',
)

abbrev OnPort : ℕ → Frame → Type 0
OnPort r f = f.port ≡ r

to_port-own : (port : ℕ) (fs : List Frame) → All (OnPort port) fs → to_port port fs ≡ fs
to_port-own port [] h = refl
to_port-own port (f ∷ fs) (e, h) = rw ((==_iff f.port port).1 e, to_port-own port fs h) refl

to_port-other :
    (r port : ℕ) (fs : List Frame) → (r == port) ≡ false → All (OnPort r) fs → to_port port fs ≡ []
to_port-other r port [] n h = refl
to_port-other r port (f ∷ fs) n (e, h) = rw (e, n, to_port-other r port fs n h) refl

IsReply-OnPort : (r : ℕ) (fs : List Frame) → IsReply r fs → All (OnPort r) fs
IsReply-OnPort r fs (ds, t, e, d, k) =
    subst (All (OnPort r)) (sym e)
      (All-append (OnPort r) ds (t ∷ []) (All-map (λ f h. h.0) ds d) (k.0, tt))

pub one_reply :
    (r port : ℕ) (fs : List Frame) → IsReply r fs → Replies (one_on port r) port (to_port port fs)
one_reply r port fs h = elim (Bool-cases (r == port)) [
  | inl e ↦
      let same = subst (λ p. IsReply p fs) ((==_iff r port).0 e) h in
      (
        fs ∷ [],
        to_port-own port fs (IsReply-OnPort port fs same) ∙ sym (append-nil fs),
        rw e refl,
        (same, tt),
      )
  | inr e ↦ ([], to_port-other r port fs e (IsReply-OnPort r fs h), rw e refl, tt)
]
