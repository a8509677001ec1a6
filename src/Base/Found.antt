-- ===== src/Base/Found.antt =====
-- What `find_last` finds.
use exoscale_cloud_controlle.Base.{
  ◌≡◌, ◌∙◌, ap, Bool, true, false, none, some, List, [], ◌∷◌, Member, inl, inr, Option-cases,
  find_last, arith,
}

pub find_last-passes :
    {A : Type 0} (p : A → Bool) (xs : List A) (y : A) → find_last p xs ≡ some y → p y ≡ true
find_last-passes p [] y h = cc
find_last-passes p (x ∷ xs) y h = elim (Option-cases (find_last p xs)) [
  | inl e ↦ ground arith
  | inr (z, e) ↦ let same : z ≡ y = ground arith in find_last-passes p xs y (e ∙ ap some same)
]

pub find_last-none :
    {A : Type 0} (p : A → Bool) (xs : List A) (x : A)
    → find_last p xs ≡ none
    → Member x xs
    → p x ≡ false
find_last-none p [] x h m = absurd m
find_last-none p (y ∷ xs) x h m = elim (Option-cases (find_last p xs)) [
  | inr (z, e) ↦ ground arith
  | inl e ↦ elim m [
    | inl f ↦ let g : p y ≡ false = ground arith in ap p f ∙ g
    | inr n ↦ find_last-none p xs x e n
  ]
]
