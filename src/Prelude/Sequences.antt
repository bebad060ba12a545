-- ===== src/Prelude/Sequences.antt =====
-- Lists of lists, and the last element that passes a test.
use mathlib.Core.Path.{◌≡◌, refl, sym, ap, ◌∙◌}
use mathlib.Core.Bool.{Bool}
use mathlib.Core.List.{List, [], ◌∷◌, ◌++◌}
use mathlib.Core.List.{append_assoc, append-nil}
use mathlib.Core.Option.{Option, none, some}
use native.Mathlib.Omega.{arith}
use schedulator.Prelude.Tests.{if◌then◌else◌}
use mathlib.Core.Logic.{◌⊎◌, inl, inr}
use schedulator.Prelude.Lists.{select, All, All-map}

-- The lists one after the other.
abbrev pub concat {ℓ} : {A : Type ℓ} → List (List A) → List A
concat [] = []
concat (xs ∷ xss) = xs ++ concat xss

-- The last element that passes a test.
abbrev pub last_of {ℓ} : {A : Type ℓ} → (A → Bool) → List A → Option A
last_of p [] = none
last_of p (x ∷ xs) = elim (last_of p xs) [ some y ↦ some y | none ↦ if p x then some x else none ]

abbrev pub later {ℓ} : {A : Type ℓ} → Option A → Option A → Option A
later (some y) o = some y
later none o = o

pub last_of-append {ℓ} :
    {A : Type ℓ} (p : A → Bool) (xs ys : List A)
    → last_of p (xs ++ ys) ≡ later (last_of p ys) (last_of p xs)
last_of-append p [] ys = ground arith
last_of-append p (x ∷ xs) ys = ground (arith, last_of-append p xs ys)

pub select-append {ℓ} :
    {A : Type ℓ} (p : A → Bool) (xs ys : List A) → select p (xs ++ ys) ≡ select p xs ++ select p ys
select-append p [] ys = refl
select-append p (x ∷ xs) ys = ground (arith, select-append p xs ys)

pub concat-append {ℓ} :
    {A : Type ℓ} (xss : List (List A)) (ys : List A) → concat (xss ++ ys ∷ []) ≡ concat xss ++ ys
concat-append [] ys = append-nil ys
concat-append (xs ∷ xss) ys =
    ap (λ l. xs ++ l) (concat-append xss ys) ∙ sym (append_assoc xs (concat xss) ys)

-- Some element of a list.
abbrev pub Some : {A : Type 0} → (A → Type 0) → List A → Type 0
Some P [] = ⊥
Some P (x ∷ xs) = P x ⊎ Some P xs

-- Whatever is so of an element is so of some element.
pub All-Some :
    {A B : Type 0} (Q : A → B → Type 0) (xs : List A)
    → All (λ x. (b : B) → Q x b → Some (λ y. Q y b) xs) xs
All-Some Q [] = tt
All-Some Q (x ∷ xs) = ((λ b. inl), All-map (λ y found b q. inr (found b q)) xs (All-Some Q xs))

pub Some-map :
    {A : Type 0} {P Q : A → Type 0} → ((x : A) → P x → Q x) → (xs : List A) → Some P xs → Some Q xs
Some-map f [] none_of = elim none_of [ ]
Some-map f (x ∷ xs) (inl here) = inl (f x here)
Some-map f (x ∷ xs) (inr later) = inr (Some-map f xs later)

pub Some-one : {A : Type 0} {P : A → Type 0} (xs : List A) → Some P xs → (x : A) × P x
Some-one [] none_of = elim none_of [ ]
Some-one (x ∷ xs) (inl here) = (x, here)
Some-one (x ∷ xs) (inr later) = Some-one xs later

pub Some-left : {A : Type 0} (P : A → Type 0) (xs ys : List A) → Some P xs → Some P (xs ++ ys)
Some-left P [] ys none_of = elim none_of [ ]
Some-left P (x ∷ xs) ys (inl here) = inl here
Some-left P (x ∷ xs) ys (inr later) = inr (Some-left P xs ys later)

pub Some-right : {A : Type 0} (P : A → Type 0) (xs ys : List A) → Some P ys → Some P (xs ++ ys)
Some-right P [] ys h = h
Some-right P (x ∷ xs) ys h = inr (Some-right P xs ys h)

pub Some-none : {A : Type 0} (P : A → Type 0) (xs : List A) → All (λ x. P x → ⊥) xs → Some P xs → ⊥
Some-none P [] a none_of = none_of
Some-none P (x ∷ xs) a (inl here) = a.0 here
Some-none P (x ∷ xs) a (inr later) = Some-none P xs a.1 later
