-- ===== src/Base/Lists.antt =====
-- Lists over the native numbers, and predicates on lists by recursion.
use Prim.Native.Nat.{ℕ, suc}
use mathlib.Core.Bool.{Bool}
use mathlib.Core.List.{List, [], ◌∷◌, Memᴰ}
use mathlib.Core.List.Memᴰ.{head, tail}
use hydra_operator.Base.Tests.{if◌then◌else◌}

abbrev pub length {ℓ} : {A : Type ℓ} → List A → ℕ
length [] = 0
length (_ ∷ xs) = suc (length xs)

-- Every entry satisfies the predicate.
abbrev pub All : {A : Type 0} → (A → Type 0) → List A → Type 0
All holds [] = Unit
All holds (entry ∷ rest) = holds entry × All holds rest

-- How many entries pass a test.
abbrev pub count_if {ℓ} : {A : Type ℓ} → (A → Bool) → List A → ℕ
count_if p [] = 0
count_if p (x ∷ xs) = let rest = count_if p xs in if p x then suc rest else rest

-- What holds of all entries holds of each.
pub All-at : {A : Type 0} (P : A → Type 0) {a : A} {l : List A} → Memᴰ a l → All P l → P a
All-at P (head e) (one, rest) = rw e one
All-at P (tail m) (one, rest) = All-at P m rest

pub All-map :
    {A : Type 0} (P Q : A → Type 0) → ((a : A) → P a → Q a) → (l : List A) → All P l → All Q l
All-map P Q weaken [] holds = tt
All-map P Q weaken (a ∷ l) (one, rest) = (weaken a one, All-map P Q weaken l rest)

pub All-intro : {A : Type 0} (P : A → Type 0) → ((a : A) → P a) → (l : List A) → All P l
All-intro P holds [] = tt
All-intro P holds (a ∷ l) = (holds a, All-intro P holds l)
