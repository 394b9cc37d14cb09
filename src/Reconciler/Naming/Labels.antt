-- ===== src/Reconciler/Naming/Labels.antt =====
-- The names of Knative Services are names that Kubernetes accepts.
use Prim.Native.Char.{Char, code}
use hydra_operator.Base.{
  ℕ, ◌≤◌, String, ◌≡◌, refl, Bool, true, false, ◌&&◌, ◌||◌, not, arith, ltb, eqb, List, [], ◌∷◌,
  length,
}
use hydra_operator.Base.Text.{
  to_lower, lower_char, lower_char-ascii, codes, codes-append, all_codes,
}
use hydra_operator.Reconciler.Naming.{ksvc_name_for}

abbrev pub within : ℕ → ℕ → ℕ → Bool
within low high n = not (ltb n low) && not (ltb high n)

-- A small letter or a digit.
abbrev pub is_small : ℕ → Bool
is_small n = within b'a' b'z' n || within b'0' b'9' n

abbrev pub is_label_code : ℕ → Bool
is_label_code n = is_small n || eqb n b'-'

-- A letter of any case or a digit.
abbrev pub is_alphanumeric : ℕ → Bool
is_alphanumeric n = is_small n || within b'A' b'Z' n

-- A letter of any case, a digit or a dash, as in a UUID.
abbrev pub is_id_code : ℕ → Bool
is_id_code n = is_alphanumeric n || eqb n b'-'

abbrev pub last_code : (ℕ → Bool) → List ℕ → Bool
last_code p [] = false
last_code p (k ∷ []) = p k
last_code p (_ ∷ k ∷ ks) = last_code p (k ∷ ks)

abbrev pub first_code : (ℕ → Bool) → List ℕ → Bool
first_code p [] = false
first_code p (k ∷ _) = p k

-- A DNS label of RFC 1035, which is one of RFC 1123 too: small letters, digits and dashes, a letter
-- first, no dash last, and at most 63 characters.
pub record IsDnsLabel (ks : List ℕ) : Type 0 where
  pub small : all_codes is_label_code ks ≡ true
  pub starts : first_code (within b'a' b'z') ks ≡ true
  pub ends : last_code is_small ks ≡ true
  pub fits : length ks ≤ 63

module _ (wide : Char → Char) where
  lower-label :
      (c : Char) → is_id_code (code c) ≡ true → is_label_code (code (lower_char wide c)) ≡ true
  lower-label c h =
      lower_char-ascii wide is_label_code c (ground arith) refl (λ no_capital. ground arith)

  lower-small :
      (c : Char) → is_alphanumeric (code c) ≡ true → is_small (code (lower_char wide c)) ≡ true
  lower-small c h =
      lower_char-ascii wide is_small c (ground arith) refl (λ no_capital. ground arith)

  to_lower-label :
      (s : String)
      → all_codes is_id_code (codes s) ≡ true
      → all_codes is_label_code (codes (to_lower wide s)) ≡ true
  unfolding to_lower
  to_lower-label String.[] h = refl
  to_lower-label (String.◌∷◌ c s) h =
      let this = lower-label c (ground arith) in
      let rest = to_lower-label s (ground arith) in ground arith

  to_lower-last :
      (s : String)
      → last_code is_alphanumeric (codes s) ≡ true
      → last_code is_small (codes (to_lower wide s)) ≡ true
  unfolding to_lower
  to_lower-last String.[] h = h
  to_lower-last (String.◌∷◌ c String.[]) h = lower-small c h
  to_lower-last (String.◌∷◌ c (String.◌∷◌ d s)) h = to_lower-last (String.◌∷◌ d s) h

  length-to_lower : (s : String) → length (codes (to_lower wide s)) ≡ length (codes s)
  unfolding to_lower
  length-to_lower String.[] = refl
  length-to_lower (String.◌∷◌ c s) = omega (arith, length-to_lower s)

  last-prefixed :
      (p : ℕ → Bool) (k : ℕ) (ks : List ℕ) → last_code p ks ≡ true → last_code p (k ∷ ks) ≡ true
  last-prefixed p k [] h = absurd (ground arith)
  last-prefixed p k (j ∷ ks) h = h

  abbrev prefixed : List ℕ → List ℕ
  prefixed ks = b'k' ∷ b's' ∷ b'v' ∷ b'c' ∷ b'-' ∷ ks

  codes-ksvc_name_for :
      (id : String) → codes (ksvc_name_for wide id) ≡ prefixed (codes (to_lower wide id))
  unfolding ksvc_name_for
  codes-ksvc_name_for id = codes-append "ksvc-" (to_lower wide id)

  prefixed-IsDnsLabel :
      (ks : List ℕ)
      → all_codes is_label_code ks ≡ true
      → last_code is_small ks ≡ true
      → length ks ≤ 58
      → IsDnsLabel (prefixed ks)
  prefixed-IsDnsLabel ks small last short = record {
    small = small;
    starts = refl;
    ends = last-prefixed is_small b'-' ks last;
    fits = omega arith;
  }

  -- The name for a container's ID of letters, digits and dashes that does not end with a dash and has
  -- at most 58 characters, as a UUID has 36, is a DNS label, so Kubernetes accepts it for a Service and
  -- a Route.
  pub ksvc_name_for-IsDnsLabel :
      (id : String)
      → all_codes is_id_code (codes id) ≡ true
      → last_code is_alphanumeric (codes id) ≡ true
      → length (codes id) ≤ 58
      → IsDnsLabel (codes (ksvc_name_for wide id))
  ksvc_name_for-IsDnsLabel id chars last short = rw codes-ksvc_name_for (
      prefixed-IsDnsLabel (codes (to_lower wide id)) (to_lower-label id chars)
        (to_lower-last id last) (omega (arith, length-to_lower id)))
