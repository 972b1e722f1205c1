-- ===== src/Text/Trims.antt =====
-- Trimming a text again changes nothing.
use shield_dns.Prelude.{
  ℕ, ◌≡◌, ◌≤◌, ◌⊎◌, refl, subst, ap, ◌∙◌, arith, Bool, false, ◌&&◌, [], ◌∷◌, Bool-cases, inl, inr,
  length,
}
use shield_dns.Text.{Text, is_empty, is_space, trim_left, trim_right, trim, trim_space, has_byte}

is_empty-cases : (s : Text) → (s ≡ []) ⊎ (is_empty s ≡ false)
is_empty-cases [] = inl refl
is_empty-cases (c ∷ s) = inr refl

module _ (p : ℕ → Bool) where
  trim_right_idempotent : (s : Text) → trim_right p (trim_right p s) ≡ trim_right p s
  unfolding trim_right
  trim_right_idempotent [] = refl
  trim_right_idempotent (c ∷ s) = elim (Bool-cases (p c && is_empty (trim_right p s))) [
    | inl gone ↦ rw gone refl
    | inr kept ↦ rw kept (rw (trim_right_idempotent s) (rw kept refl))
  ]

  trim_left-trim_right :
      (s : Text) → trim_left p (trim_right p (trim_left p s)) ≡ trim_right p (trim_left p s)
  unfolding trim_right trim_left
  trim_left-trim_right [] = refl
  trim_left-trim_right (c ∷ s) = elim (Bool-cases (p c)) [
    | inl gone ↦ rw gone (trim_left-trim_right s)
    | inr kept ↦ rw kept (rw kept (rw kept refl))
  ]

  trims_idempotent :
      (s : Text)
      → trim_right p (trim_left p (trim_right p (trim_left p s))) ≡ trim_right p (trim_left p s)
  trims_idempotent s =
      ap (trim_right p) (trim_left-trim_right s) ∙ trim_right_idempotent (trim_left p s)

  trim_right-trim_left :
      (s : Text) → trim_right p (trim_left p (trim_right p s)) ≡ trim_right p (trim_left p s)
  unfolding trim_right trim_left
  trim_right-trim_left [] = refl
  trim_right-trim_left (c ∷ s) = elim (Bool-cases (p c)) [
    | inl space ↦ elim (is_empty-cases (trim_right p s)) [
      | inl none_left ↦
          rw (space, none_left)
            (subst (λ t. trim_right p (trim_left p t) ≡ trim_right p (trim_left p s)) none_left
              (trim_right-trim_left s))
      | inr some_left ↦ rw (space, some_left, trim_left, space) (trim_right-trim_left s)
    ]
    | inr kept ↦ rw (kept, trim_left, kept, trim_right_idempotent s, kept) refl
  ]

  length-trim_left : (s : Text) → length (trim_left p s) ≤ length s
  unfolding trim_left
  length-trim_left [] = omega arith
  length-trim_left (c ∷ s) = ground (arith, length-trim_left s)

  length-trim_right : (s : Text) → length (trim_right p s) ≤ length s
  unfolding trim_right
  length-trim_right [] = omega arith
  length-trim_right (c ∷ s) = ground (arith, length-trim_right s)

pub trim_idempotent : (cutset s : Text) → trim cutset (trim cutset s) ≡ trim cutset s
unfolding trim
trim_idempotent cutset s = trims_idempotent (λ c. has_byte c cutset) s

pub trim_space_idempotent : (s : Text) → trim_space (trim_space s) ≡ trim_space s
unfolding trim_space
trim_space_idempotent s = trims_idempotent is_space s

pub trim_space-trim_right : (s : Text) → trim_space (trim_right is_space s) ≡ trim_space s
unfolding trim_space
trim_space-trim_right s = trim_right-trim_left is_space s

pub length-trim_space : (s : Text) → length (trim_space s) ≤ length s
unfolding trim_space
length-trim_space s =
    omega (arith, length-trim_right is_space (trim_left is_space s), length-trim_left is_space s)
