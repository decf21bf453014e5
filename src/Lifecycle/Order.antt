-- ===== src/Lifecycle/Order.antt =====
-- Ordered lists, and a sort that std::sort may be in core/app_lifecycle.cpp and
-- core/shutdown_coordinator.cpp.
use email_server_backend.Base.{
  ◌≡◌, inl, inr, Bool, true, false, List, [], ◌∷◌, All, All-imp, Bool-cases, if◌then◌else◌,
}
use mathlib.Core.List.{Perm}
use mathlib.Core.List.Perm

module _ {A : Type 0} (le : A → A → Bool) where
  -- No element may stand before one that is to come first.
  abbrev pub IsOrdered : List A → Type 0
  IsOrdered [] = Unit
  IsOrdered (x ∷ xs) = All (λ y. le x y ≡ true) xs × IsOrdered xs

  abbrev insert_by : A → List A → List A
  insert_by x [] = x ∷ []
  insert_by x (y ∷ ys) = let rest = insert_by x ys in if le x y then x ∷ y ∷ ys else y ∷ rest

  abbrev pub sort_by : List A → List A
  sort_by [] = []
  sort_by (x ∷ xs) = insert_by x (sort_by xs)

  insert_by-Perm : (x : A) (ys : List A) → Perm (insert_by x ys) (x ∷ ys)
  insert_by-Perm x [] = Perm.refl (x ∷ [])
  insert_by-Perm x (y ∷ ys) = elim (Bool-cases (le x y)) [
    | inl e ↦ rw e (Perm.refl (x ∷ y ∷ ys))
    | inr e ↦ rw e (Perm.trans (Perm.cons y (insert_by-Perm x ys)) (Perm.swap x y ys))
  ]

  pub sort_by-Perm : (xs : List A) → Perm (sort_by xs) xs
  sort_by-Perm [] = Perm.refl []
  sort_by-Perm (x ∷ xs) = Perm.trans (insert_by-Perm x (sort_by xs)) (Perm.cons x (sort_by-Perm xs))

  insert_by-All : (P : A → Type 0) (x : A) (ys : List A) → P x → All P ys → All P (insert_by x ys)
  insert_by-All P x [] h hs = (h, tt)
  insert_by-All P x (y ∷ ys) h (k, hs) = elim (Bool-cases (le x y)) [
    | inl e ↦ rw e (h, (k, hs))
    | inr e ↦ rw e (k, insert_by-All P x ys h hs)
  ]

module _ {A : Type 0} (le : A → A → Bool) (le-total : (x y : A) → le x y ≡ false → le y x ≡ true)
    (le-trans : (x y z : A) → le x y ≡ true → le y z ≡ true → le x z ≡ true) where
  insert_by-IsOrdered : (x : A) (ys : List A) → IsOrdered le ys → IsOrdered le (insert_by le x ys)
  insert_by-IsOrdered x [] h = (tt, tt)
  insert_by-IsOrdered x (y ∷ ys) (low, h) = elim (Bool-cases (le x y)) [
    | inl e ↦ rw e ((e, All-imp (λ z k. le-trans x y z e k) ys low), (low, h))
    | inr e ↦ rw e (
      insert_by-All le (λ z. le y z ≡ true) x ys (le-total x y e) low,
      insert_by-IsOrdered x ys h,
    )
  ]

  pub sort_by-IsOrdered : (xs : List A) → IsOrdered le (sort_by le xs)
  sort_by-IsOrdered [] = tt
  sort_by-IsOrdered (x ∷ xs) = insert_by-IsOrdered x (sort_by le xs) (sort_by-IsOrdered xs)
