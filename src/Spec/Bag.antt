-- ===== src/Spec/Bag.antt =====
-- Bags: the abstract view of a list that forgets the order of its elements.
use mathlib.Core.Quot
use mathlib.Core.Quot.{Quot}
use flatpak_dart.Base.{◌≡◌, refl, ap, ◌∙◌, Bool, false, ◌||◌, List, [], ◌∷◌, arith}

or_swap : (a b c : Bool) → a || (b || c) ≡ b || (a || c)
or_swap a b c = ground arith

module _ {A : Type 0} where
  pub data Reordered : List A → List A → Type 0 where
    empty : Reordered [] []
    keeps : {xs ys : List A} (x : A) → Reordered xs ys → Reordered (x ∷ xs) (x ∷ ys)
    swaps : {xs : List A} (x y : A) → Reordered (x ∷ y ∷ xs) (y ∷ x ∷ xs)
    joins : {xs ys zs : List A} → Reordered xs ys → Reordered ys zs → Reordered xs zs

  abbrev pub any_of : (A → Bool) → List A → Bool
  any_of f [] = false
  any_of f (x ∷ xs) = f x || any_of f xs

  pub any_of-Reordered :
      {xs ys : List A} (f : A → Bool) → Reordered xs ys → any_of f xs ≡ any_of f ys
  any_of-Reordered f empty = refl
  any_of-Reordered f (keeps x r) = ap (◌||◌ (f x)) (any_of-Reordered f r)
  any_of-Reordered f (swaps {xs} x y) = or_swap (f x) (f y) (any_of f xs)
  any_of-Reordered f (joins r s) = any_of-Reordered f r ∙ any_of-Reordered f s

abbrev pub Bag : Type 0 → Type 0
Bag A = Quot (Reordered {A = A})

abbrev pub of_list : {A : Type 0} → List A → Bag A
of_list = Quot.mk

-- Whether some element of the bag passes the test.
unfoldable pub some_in : {A : Type 0} → (A → Bool) → Bag A → Bool
some_in f = Quot.lift (hlevel) (any_of f) (λ xs ys r. any_of-Reordered f r)

pub some_in-of_list :
    {A : Type 0} (f : A → Bool) (xs : List A) → some_in f (of_list xs) ≡ any_of f xs
unfolding some_in
some_in-of_list f xs = refl
