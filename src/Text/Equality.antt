-- ===== src/Text/Equality.antt =====
-- Comparing texts decides equality.
use shield_dns.Prelude.{◌≡◌, refl, ◌↔◌, true, [], ◌∷◌, arith, subst}
use shield_dns.Text.{Text, text_eq}

pub text_eq_sound : (s t : Text) → text_eq s t ≡ true → s ≡ t
unfolding text_eq
text_eq_sound [] [] h = refl
text_eq_sound [] (b ∷ t) h = cc
text_eq_sound (a ∷ s) [] h = cc
text_eq_sound (a ∷ s) (b ∷ t) h = ground (arith, text_eq_sound s t)

pub text_eq_refl : (s : Text) → text_eq s s ≡ true
unfolding text_eq
text_eq_refl [] = refl
text_eq_refl (a ∷ s) = ground (arith, text_eq_refl s)

pub text_eq_iff : (s t : Text) → (text_eq s t ≡ true) ↔ (s ≡ t)
text_eq_iff s t =
    (text_eq_sound s t, λ e. subst (λ (u : Text). text_eq s u ≡ true) e (text_eq_refl s))
