-- ===== src/Text/Words.antt =====
-- Words without certain bytes: trimming, cutting and splitting around them.
use shield_dns.Prelude.{
  ℕ, ◌≡◌, refl, ap, ◌∙◌, arith, Bool, true, false, ◌||◌, any, Bool-cases, inl, inr, List, [], ◌∷◌,
  ◌++◌, map, append_assoc, append-nil, ◌==◌, if◌then◌else◌,
}
use shield_dns.Text.{
  Text, is_empty, is_space, trim_left, trim_right, before, split, join, drop_empty, fields,
}
use shield_dns.Text.Labels.{split-append}

abbrev pub space_to_blank : ℕ → ℕ
space_to_blank c = if is_space c then b' ' else c

module _ (p : ℕ → Bool) where
  unfoldable pub IsFree : Text → Type 0
  IsFree [] = Unit
  IsFree (c ∷ s) = (p c ≡ false) × IsFree s

  pub IsFree-any : (s : Text) → any p s ≡ false → IsFree s
  unfolding IsFree
  IsFree-any [] h = tt
  IsFree-any (c ∷ s) h = elim (Bool-cases (p c)) [
    | inl e ↦ cc (h, ap (λ b. b || any p s) e)
    | inr e ↦ (e, IsFree-any s (rw e at h))
  ]

  pub IsFree-append : (s t : Text) → IsFree s → IsFree t → IsFree (s ++ t)
  unfolding IsFree
  IsFree-append [] t free free' = free'
  IsFree-append (c ∷ s) t (here, free) free' = (here, IsFree-append s t free free')

  pub trim_right-append : (s t : Text) → IsFree s → trim_right p (s ++ t) ≡ s ++ trim_right p t
  unfolding IsFree trim_right
  trim_right-append [] t free = refl
  trim_right-append (c ∷ s) t (here, free) = rw here (ap (λ r. c ∷ r) (trim_right-append s t free))

  pub before-append : (s t : Text) (c : ℕ) → IsFree s → p c ≡ true → before p (s ++ (c ∷ t)) ≡ s
  unfolding IsFree before
  before-append [] t c free here = rw here refl
  before-append (d ∷ s) t c (other, free) here =
      rw other (ap (λ r. d ∷ r) (before-append s t c free here))

  -- There is a first byte, and it is free of `p`.
  unfoldable pub Leads : Text → Type 0
  Leads [] = ⊥
  Leads (c ∷ s) = p c ≡ false

  pub Leads-append : (s t : Text) → Leads s → Leads (s ++ t)
  unfolding Leads
  Leads-append [] t leads = elim leads [ ]
  Leads-append (c ∷ s) t leads = leads

  pub Leads-IsFree : (s : Text) → is_empty s ≡ false → IsFree s → Leads s
  unfolding Leads IsFree
  Leads-IsFree [] long free = cc
  Leads-IsFree (c ∷ s) long (here, free) = here

  pub trim_left-Leads : (s : Text) → Leads s → trim_left p s ≡ s
  unfolding Leads trim_left
  trim_left-Leads [] leads = refl
  trim_left-Leads (c ∷ s) leads = rw leads refl

  trim_right-cons :
      (c : ℕ) (s : Text) → trim_right p s ≡ s → is_empty s ≡ false → trim_right p (c ∷ s) ≡ c ∷ s
  unfolding trim_right
  trim_right-cons c s same long = elim (Bool-cases (p c)) [
    | inl e ↦ rw (trim_right, same, e, long) refl
    | inr e ↦ rw (trim_right, same, e) refl
  ]

  -- A text of which nothing is trimmed at the end, however it starts.
  unfoldable pub IsKept : Text → Type 0
  IsKept t = (trim_right p t ≡ t) × (is_empty t ≡ false)

  pub IsKept-append : (s t : Text) → IsKept t → IsKept (s ++ t)
  unfolding IsKept trim_right
  IsKept-append [] t kept = kept
  IsKept-append (c ∷ s) t kept =
      let (same, long) = IsKept-append s t kept in (trim_right-cons c (s ++ t) same long, refl)

-- The words of a line: neither empty nor with a space.
unfoldable pub AreWords : List Text → Type 0
AreWords [] = Unit
AreWords (w ∷ ws) = (is_empty w ≡ false) × IsFree is_space w × AreWords ws

is_empty-append : (s t : Text) → is_empty s ≡ false → is_empty (s ++ t) ≡ false
is_empty-append [] t h = cc
is_empty-append (c ∷ s) t h = refl

is_empty-join :
    (w : Text) (ws : List Text) → is_empty w ≡ false → is_empty (join b' ' (w ∷ ws)) ≡ false
unfolding join
is_empty-join w [] h = h
is_empty-join w (v ∷ vs) h = is_empty-append w (b' ' ∷ join b' ' (v ∷ vs)) h

trim_right-blank :
    (t u : Text)
    → trim_right is_space t ≡ u
    → is_empty u ≡ false
    → trim_right is_space (b' ' ∷ t) ≡ b' ' ∷ u
unfolding trim_right is_space
trim_right-blank t u h long = rw (h, long) refl

pub trim_right-join :
    (w : Text) (ws : List Text)
    → AreWords (w ∷ ws)
    → trim_right is_space (join b' ' (w ∷ ws) ++ (b' ' ∷ [])) ≡ join b' ' (w ∷ ws)
unfolding join AreWords trim_right is_space
trim_right-join w [] (long, free, words) =
    trim_right-append is_space w (b' ' ∷ []) free ∙ append-nil w
trim_right-join w (v ∷ vs) (long, free, words) =
    rw (append_assoc w (b' ' ∷ join b' ' (v ∷ vs)) (b' ' ∷ [])) (
      trim_right-append is_space w (b' ' ∷ (join b' ' (v ∷ vs) ++ (b' ' ∷ []))) free
      ∙ ap (λ t. w ++ t)
          (trim_right-blank (join b' ' (v ∷ vs) ++ (b' ' ∷ [])) (join b' ' (v ∷ vs))
            (trim_right-join v vs words) (is_empty-join v vs words.0)))

map-IsFree : (w : Text) → IsFree is_space w → map space_to_blank w ≡ w
unfolding IsFree
map-IsFree [] free = refl
map-IsFree (c ∷ s) (here, free) = rw (here, map-IsFree s free) refl

map-append :
    (s t : Text) → map space_to_blank (s ++ t) ≡ map space_to_blank s ++ map space_to_blank t
map-append [] t = refl
map-append (c ∷ s) t = ap (λ r. space_to_blank c ∷ r) (map-append s t)

not_blank : (c : ℕ) → is_space c ≡ false → (c == b' ') ≡ false
unfolding is_space
not_blank c h = ground arith

split-word : (w : Text) → IsFree is_space w → split b' ' w ≡ w ∷ []
unfolding IsFree split
split-word [] free = refl
split-word (c ∷ s) (here, free) = rw (not_blank c here, split-word s free) refl

split-join :
    (w : Text) (ws : List Text)
    → AreWords (w ∷ ws)
    → split b' ' (map space_to_blank (join b' ' (w ∷ ws))) ≡ w ∷ ws
unfolding join AreWords is_space
split-join w [] (long, free, words) = rw (map-IsFree w free) (split-word w free)
split-join w (v ∷ vs) (long, free, words) =
    ap (split b' ') (
      map-append w (b' ' ∷ join b' ' (v ∷ vs))
      ∙ ap (λ t. t ++ (b' ' ∷ map space_to_blank (join b' ' (v ∷ vs)))) (map-IsFree w free))
    ∙ (split-append b' ' w (map space_to_blank (join b' ' (v ∷ vs)))
        ∙ rw (split-word w free, split-join v vs words) refl)

drop_empty-words : (ws : List Text) → AreWords ws → drop_empty ws ≡ ws
unfolding AreWords drop_empty
drop_empty-words [] words = refl
drop_empty-words (w ∷ ws) (long, free, words) =
    rw long (ap (λ r. w ∷ r) (drop_empty-words ws words))

pub fields-join :
    (w : Text) (ws : List Text) → AreWords (w ∷ ws) → fields (join b' ' (w ∷ ws)) ≡ w ∷ ws
unfolding fields
fields-join w ws words = ap drop_empty (split-join w ws words) ∙ drop_empty-words (w ∷ ws) words
