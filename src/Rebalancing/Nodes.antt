-- ===== src/Rebalancing/Nodes.antt =====
-- internal/engine/rebalancing/scoring.go: the tightest node for a number of GPUs.
use schedulator.Prelude.{
  Some, ℤ, 0ℤ, ◌-ℤ◌, ◌≤ℤ◌, ltb_ℤ, -ℤ_parts, true, false, List, [], ◌∷◌, values, All, arith, ◌≡◌,
  ◌≢◌, refl, sym, subst, ◌∙◌, ◌⊎◌, inl, inr,
}
use schedulator.Model.{Node, Cluster}
use schedulator.WorldState.{node_map}
use schedulator.Rebalancing.{Fit, fits, tighter, tightest_fit}

-- A waste that no fitting node undercuts.
abbrev pub IsTight : ℤ → ℤ → Node → Type 0
IsTight gpus waste n = (fits gpus n ≡ false) ⊎ ((0ℤ ≤ℤ waste) × (waste ≤ℤ n.free_gpus -ℤ gpus))

-- The fit is that of a node which has room.
abbrev pub IsOf : ℤ → Fit → Node → Type 0
IsOf gpus f n = (fits gpus n ≡ true) × (f.node_id ≡ n.node_id) × (f.waste ≡ n.free_gpus -ℤ gpus)

tighter-IsTight :
    (gpus : ℤ) (n m : Node) (f : Fit)
    → IsTight gpus f.waste m
    → IsTight gpus (tighter gpus n f).waste m
unfolding tighter
tighter-IsTight gpus n m f h = ground (arith, -ℤ_parts n.free_gpus gpus, -ℤ_parts m.free_gpus gpus)

tighter-IsTight_self : (gpus : ℤ) (n : Node) (f : Fit) → IsTight gpus (tighter gpus n f).waste n
unfolding tighter
tighter-IsTight_self gpus n f = ground (arith, -ℤ_parts n.free_gpus gpus)

tightest_fit-keeps :
    (gpus : ℤ) (ns : List Node) (m : Node) (f : Fit)
    → IsTight gpus f.waste m
    → IsTight gpus (tightest_fit gpus ns f).waste m
unfolding tightest_fit
tightest_fit-keeps gpus [] m f h = h
tightest_fit-keeps gpus (n ∷ ns) m f h =
    tightest_fit-keeps gpus ns m (tighter gpus n f) (tighter-IsTight gpus n m f h)

pub tightest_fit-IsTight :
    (gpus : ℤ) (ns : List Node) (f : Fit) → All (IsTight gpus (tightest_fit gpus ns f).waste) ns
unfolding tightest_fit
tightest_fit-IsTight gpus [] f = tt
tightest_fit-IsTight gpus (n ∷ ns) f = (
  tightest_fit-keeps gpus ns n (tighter gpus n f) (tighter-IsTight_self gpus n f),
  tightest_fit-IsTight gpus ns (tighter gpus n f),
)

tighter-IsOf :
    (gpus : ℤ) (n : Node) (f : Fit) → (tighter gpus n f ≡ f) ⊎ IsOf gpus (tighter gpus n f) n
unfolding tighter
tighter-IsOf gpus n f = ground arith

pub tightest_fit-IsOf :
    (gpus : ℤ) (ns : List Node) (f : Fit)
    → (tightest_fit gpus ns f ≡ f) ⊎ Some (IsOf gpus (tightest_fit gpus ns f)) ns
unfolding tightest_fit
tightest_fit-IsOf gpus [] f = inl refl
tightest_fit-IsOf gpus (n ∷ ns) f = elim (tightest_fit-IsOf gpus ns (tighter gpus n f)) [
  | inr later ↦ inr (inr later)
  | inl same ↦ elim (tighter-IsOf gpus n f) [
    | inl kept ↦ inl (same ∙ kept)
    | inr chosen ↦ inr (inl (subst (λ g. IsOf gpus g n) (sym same) chosen))
  ]
]

-- How a waste may change and stay tight where it was.
abbrev pub IsLower : ℤ → ℤ → Type 0
IsLower w w' = (w' ≡ w) ⊎ ((ltb_ℤ w 0ℤ ≡ true) ⊎ ((0ℤ ≤ℤ w') × (w' ≤ℤ w)))

-- A smaller waste is as tight.
pub IsTight-le : (gpus w w' : ℤ) (n : Node) → IsLower w w' → IsTight gpus w n → IsTight gpus w' n
IsTight-le gpus w w' n le h = ground (arith, le, h)

abbrev pub AreNamed : {F : Type 0} → List (Cluster F) → Type 0
AreNamed cs = All (λ c. All (λ n. n.node_id ≢ "") (values (node_map c))) cs

pub Some-named :
    (gpus : ℤ) (f : Fit) (ns : List Node)
    → All (λ n. n.node_id ≢ "") ns
    → Some (IsOf gpus f) ns
    → (f.node_id ≢ "") × (0ℤ ≤ℤ f.waste)
Some-named gpus f [] named none_of = elim none_of [ ]
Some-named gpus f (n ∷ ns) named (inl (room, same, waste)) =
    ((λ e. named.0 (sym same ∙ e)), ground (arith, room, waste, -ℤ_parts n.free_gpus gpus))
Some-named gpus f (n ∷ ns) named (inr later) = Some-named gpus f ns named.1 later
