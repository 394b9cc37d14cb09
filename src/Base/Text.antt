-- ===== src/Base/Text.antt =====
-- `strings.ToLower`.
use Prim.Native.Char.{Char, code}
use Prim.Native.String.{String, ◌++◌ as ◌<>◌}
use Prim.Native.Nat.{ℕ, ◌≤◌, ◌<◌}
use mathlib.Core.Path.{◌≡◌, refl, ap}
use mathlib.Core.Logic.{◌⊎◌, inl, inr}
use mathlib.Core.Bool.{Bool, true, false, ◌&&◌, ◌||◌}
use mathlib.Core.List.{List, [], ◌∷◌, ◌++◌}
use text.Mathlib.TextLemmas.{nil-append, cons-append}
use native.Mathlib.Omega.{arith}
use native.Mathlib.Decide.{dec_lt}
use hydra_operator.Base.Tests.{ltb, eqb, if◌then◌else◌, Bool-cases}
use hydra_operator.Base.Lists.{length}

-- The letter of the second text that stands where `c` stands in the first.
abbrev translate : String → String → Char → Char
translate (String.◌∷◌ a as') (String.◌∷◌ b bs) c =
    if eqb (code c) (code a) then b else translate as' bs c
translate _ _ c = c

module _ (wide : Char → Char) where
  -- An ASCII letter by the table, any other character by `unicode.ToLower`, here `wide`.
  unfoldable pub lower_char : Char → Char
  lower_char c =
      if ltb (code c) 128
      then translate "ABCDEFGHIJKLMNOPQRSTUVWXYZ" "abcdefghijklmnopqrstuvwxyz" c
      else wide c

  unfoldable pub to_lower : String → String
  unfolding lower_char
  to_lower String.[] = String.[]
  to_lower (String.◌∷◌ c s) = String.◌∷◌ (lower_char c) (to_lower s)

-- The codes of a text.
abbrev pub codes : String → List ℕ
codes String.[] = []
codes (String.◌∷◌ c s) = code c ∷ codes s

abbrev pub has_code : ℕ → List ℕ → Bool
has_code n [] = false
has_code n (k ∷ ks) = eqb n k || has_code n ks

abbrev pub all_codes : (ℕ → Bool) → List ℕ → Bool
all_codes p [] = true
all_codes p (k ∷ ks) = p k && all_codes p ks

pub codes-append : (s t : String) → codes (s <> t) ≡ codes s ++ codes t
codes-append String.[] t = rw nil-append
codes-append (String.◌∷◌ c s) t = rw cons-append (ap (λ ks. code c ∷ ks) (codes-append s t))

-- A letter that is translated becomes one of the second text, and every other letter stays.
translate-cases :
    (p : ℕ → Bool) (from to : String) (c : Char)
    → all_codes p (codes to) ≡ true
    → (has_code (code c) (codes from) ≡ false → p (code c) ≡ true)
    → length (codes from) ≤ length (codes to)
    → p (code (translate from to c)) ≡ true
translate-cases p String.[] to c good other fits = other refl
translate-cases p (String.◌∷◌ a from) String.[] c good other fits = absurd (omega arith)
translate-cases p (String.◌∷◌ a from) (String.◌∷◌ b to) c good other fits =
    elim (Bool-cases (eqb (code c) (code a))) [
      | inl same ↦ ground arith
      | inr differ ↦ rw differ (
          translate-cases p from to c (ground arith) (λ absent. other (ground arith)) (omega arith))
    ]

letters : List ℕ
letters =
    65 ∷ 66 ∷ 67 ∷ 68 ∷ 69 ∷ 70 ∷ 71 ∷ 72 ∷ 73 ∷ 74 ∷ 75 ∷ 76 ∷ 77 ∷ 78 ∷ 79 ∷ 80 ∷ 81 ∷ 82 ∷ 83
    ∷ 84 ∷ 85 ∷ 86 ∷ 87 ∷ 88 ∷ 89 ∷ 90 ∷ []

has_code-letters : (n : ℕ) → has_code n letters ≡ false → (n < 65) ⊎ (90 < n)
unfolding letters
has_code-letters n h = elim (dec_lt n 65) [ yes small ↦ inl small | no large ↦ inr (ground arith) ]

-- A property of ASCII that holds of the small letters and of what is no capital letter holds of every
-- ASCII character in lower case.
pub lower_char-ascii :
    (wide : Char → Char) (p : ℕ → Bool) (c : Char)
    → code c < 128
    → all_codes p (codes "abcdefghijklmnopqrstuvwxyz") ≡ true
    → ((code c < 65) ⊎ (90 < code c) → p (code c) ≡ true)
    → p (code (lower_char wide c)) ≡ true
unfolding lower_char letters
lower_char-ascii wide p c ascii good other =
    let translated =
      translate-cases p "ABCDEFGHIJKLMNOPQRSTUVWXYZ" "abcdefghijklmnopqrstuvwxyz" c good
        (λ absent. other (has_code-letters (code c) absent)) (omega arith) in
    ground arith

lower_example : to_lower (λ c. c) "Ab-9Z" ≡ "ab-9z"
unfolding to_lower
lower_example = refl
