-- ===== src/Prelude/Maps.antt =====
-- A Go map with text keys as an association list. Go iterates in an unspecified order: here it is
-- the order of the list, and the theorems range over all lists.
use Prim.Native.Nat.{ℕ, ◌+◌}
use Prim.Native.String.{String}
use mathlib.Core.Bool.{Bool, true, false}
use mathlib.Core.Path.{◌≡◌, refl, subst}
use mathlib.Core.Option.{Option, none, some}
use mathlib.Core.List.{List, [], ◌∷◌, ◌++◌, map}
use native.Mathlib.Omega.{arith}
use mathlib.Core.Logic.{inl, inr}
use schedulator.Prelude.Tests.{if◌then◌else◌, or_else, Bool-cases}
use schedulator.Prelude.Int.{ℤ, ◌+ℤ◌, 0ℤ}
use schedulator.Prelude.Texts.{◌==◌, eq_iff}

abbrev pub Map {ℓ} : Type ℓ → Type ℓ
Map V = List (String × V)

module _ {ℓ} {V : Type ℓ} where
  abbrev pub lookup : String → Map V → Option V
  lookup k [] = none
  lookup k ((j, v) ∷ m) = if j == k then some v else lookup k m

  abbrev pub insert : String → V → Map V → Map V
  insert k v [] = (k, v) ∷ []
  insert k v ((j, w) ∷ m) = if j == k then (k, v) ∷ m else (j, w) ∷ insert k v m

  abbrev pub delete : String → Map V → Map V
  delete k [] = []
  delete k ((j, w) ∷ m) = if j == k then delete k m else (j, w) ∷ delete k m

  abbrev pub values : Map V → List V
  values m = map (λ e. e.1) m

  -- No key stands twice, as in every map of the program.
  abbrev pub IsMap : Map V → Type ℓ
  IsMap [] = Unit
  IsMap ((k, v) ∷ m) = (lookup k m ≡ none) × IsMap m

  pub lookup-insert :
      (k j : String) (v : V) (m : Map V)
      → lookup j (insert k v m) ≡ (if k == j then some v else lookup j m)
  lookup-insert k j v [] = refl
  lookup-insert k j v ((i, w) ∷ m) =
      ground (arith, eq_iff k j, eq_iff i k, eq_iff i j, lookup-insert k j v m)

  pub lookup-delete :
      (k j : String) (m : Map V) → lookup j (delete k m) ≡ (if k == j then none else lookup j m)
  lookup-delete k j [] = ground arith
  lookup-delete k j ((i, w) ∷ m) =
      ground (arith, eq_iff k j, eq_iff i k, eq_iff i j, lookup-delete k j m)

  pub insert-IsMap : (k : String) (v : V) (m : Map V) → IsMap m → IsMap (insert k v m)
  insert-IsMap k v [] h = (refl, tt)
  insert-IsMap k v ((i, w) ∷ m) h =
      ground (arith, eq_iff i k, eq_iff k i, lookup-insert k i v m, insert-IsMap k v m)

  lookup-delete-none : (k j : String) (m : Map V) → lookup j m ≡ none → lookup j (delete k m) ≡ none
  lookup-delete-none k j m h = ground (arith, lookup-delete k j m)

  pub delete-IsMap : (k : String) (m : Map V) → IsMap m → IsMap (delete k m)
  delete-IsMap k [] h = tt
  delete-IsMap k ((i, w) ∷ m) h = ground (arith, lookup-delete-none k i m, delete-IsMap k m)

  pub delete_missing : (k : String) (m : Map V) → lookup k m ≡ none → delete k m ≡ m
  delete_missing k [] h = refl
  delete_missing k ((i, w) ∷ m) h = ground (arith, delete_missing k m)

  -- How many values of a map pass a test, and whether the value at a key does.
  abbrev pub count_values : (V → Bool) → Map V → ℕ
  count_values p [] = 0
  count_values p ((k, v) ∷ m) = (if p v then 1 else 0) + count_values p m

  abbrev pub weight : (V → Bool) → Option V → ℕ
  weight p none = 0
  weight p (some v) = if p v then 1 else 0

  pub count-insert :
      (p : V → Bool) (k : String) (v : V) (m : Map V)
      → count_values p (insert k v m) + weight p (lookup k m)
        ≡ count_values p m + (if p v then 1 else 0)
  count-insert p k v [] = omega arith
  count-insert p k v ((i, w) ∷ m) = ground (arith, count-insert p k v m)

  pub count-delete :
      (p : V → Bool) (k : String) (m : Map V)
      → IsMap m
      → count_values p (delete k m) + weight p (lookup k m) ≡ count_values p m
  count-delete p k [] h = omega arith
  count-delete p k ((i, w) ∷ m) h =
      ground (arith, eq_iff i k, count-delete p k m, delete_missing k m)

  -- Every value of a map has a property.
  abbrev pub AllValues {κ} : (V → Type κ) → Map V → Type κ
  AllValues P [] = Unit
  AllValues P ((k, v) ∷ m) = P v × AllValues P m

  pub AllValues-insert {κ} :
      (P : V → Type κ) (k : String) (v : V) (m : Map V)
      → P v
      → AllValues P m
      → AllValues P (insert k v m)
  AllValues-insert P k v [] h a = (h, tt)
  AllValues-insert P k v ((i, w) ∷ m) h a = pick (i == k) (AllValues-insert P k v m h a.1)
    where
      pick :
          (b : Bool)
          → AllValues P (insert k v m)
          → AllValues P (if b then (k, v) ∷ m else (i, w) ∷ insert k v m)
      pick true rest = (h, a.1)
      pick false rest = (a.0, rest)

  pub AllValues-delete {κ} :
      (P : V → Type κ) (k : String) (m : Map V) → AllValues P m → AllValues P (delete k m)
  AllValues-delete P k [] a = tt
  AllValues-delete P k ((i, w) ∷ m) a = pick (i == k) (AllValues-delete P k m a.1)
    where
      pick :
          (b : Bool)
          → AllValues P (delete k m)
          → AllValues P (if b then delete k m else (i, w) ∷ delete k m)
      pick true rest = rest
      pick false rest = (a.0, rest)

  pub AllValues-lookup {κ} :
      (P : V → Type κ) (k : String) (v : V) (m : Map V) → AllValues P m → lookup k m ≡ some v → P v
  AllValues-lookup P k v [] a e = cc
  AllValues-lookup P k v ((i, w) ∷ m) a e = elim (Bool-cases (i == k)) [
    | inl hit ↦ subst P (ground arith) a.0
    | inr miss ↦ AllValues-lookup P k v m a.1 (ground arith)
  ]

-- Counters: `m[k] += n` on a map from texts to `int`s.
abbrev pub counter : String → Map ℤ → ℤ
counter k m = or_else (lookup k m) 0ℤ

abbrev pub add_at : String → ℤ → Map ℤ → Map ℤ
add_at k n m = insert k (counter k m +ℤ n) m

pub counter-add_at :
    (k j : String) (n : ℤ) (m : Map ℤ)
    → counter j (add_at k n m) ≡ (if k == j then counter k m +ℤ n else counter j m)
counter-add_at k j n m = ground (arith, lookup-insert k j (counter k m +ℤ n) m)

-- Every entry of a map is found under its key.
module _ {ℓ} {V : Type ℓ} where
  abbrev pub AllEntries {κ} : (String → V → Type κ) → Map V → Type κ
  AllEntries P [] = Unit
  AllEntries P ((k, v) ∷ m) = P k v × AllEntries P m

  AllEntries-cons :
      (j : String) (w : V) (m rest : Map V)
      → lookup j rest ≡ none
      → AllEntries (λ k v. lookup k m ≡ some v) rest
      → AllEntries (λ k v. lookup k ((j, w) ∷ m) ≡ some v) rest
  AllEntries-cons j w m [] fresh a = tt
  AllEntries-cons j w m ((k, v) ∷ rest) fresh a =
      (ground (arith, eq_iff j k, eq_iff k j), AllEntries-cons j w m rest (ground arith) a.1)

  pub entries-lookup : (m : Map V) → IsMap m → AllEntries (λ k v. lookup k m ≡ some v) m
  entries-lookup [] h = tt
  entries-lookup ((k, v) ∷ m) h =
      (ground (arith, eq_iff k k), AllEntries-cons k v m m h.0 (entries-lookup m h.1))

-- A map of lists, where a missing key reads as the empty list.
module _ {ℓ} {A : Type ℓ} where
  abbrev pub listed : String → Map (List A) → List A
  listed k m = or_else (lookup k m) []

  abbrev pub append_at : String → A → Map (List A) → Map (List A)
  append_at k x m = insert k (listed k m ++ x ∷ []) m

  pub listed-append_at :
      (k j : String) (x : A) (m : Map (List A))
      → listed j (append_at k x m) ≡ (if k == j then listed j m ++ x ∷ [] else listed j m)
  listed-append_at k j x m = ground (arith, eq_iff k j, lookup-insert k j (listed k m ++ x ∷ []) m)
