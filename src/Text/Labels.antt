-- ===== src/Text/Labels.antt =====
-- Splitting at a byte and joining again.
use shield_dns.Prelude.{
  ℕ, ◌≡◌, refl, sym, ap, subst, ==_iff, List, [], ◌∷◌, ◌++◌, arith, Bool-cases, inl, inr, ◌==◌,
  append_assoc,
}
use shield_dns.Text.{Text, split, join, cons_head}

module _ (sep : ℕ) where
  -- A split is never empty.
  pub split-cons : (s : Text) → (p : Text) × (ps : List Text) × (split sep s ≡ p ∷ ps)
  unfolding split
  split-cons [] = ([], [], refl)
  split-cons (c ∷ s) = elim (Bool-cases (c == sep)) [
    | inl e ↦ ([], split sep s, rw e)
    | inr e ↦ let (p, ps, whole) = split-cons s in (c ∷ p, ps, rw (e, whole))
  ]

  cons_head-append :
      (c : ℕ) (p : Text) (ps qs : List Text)
      → cons_head c ((p ∷ ps) ++ qs) ≡ cons_head c (p ∷ ps) ++ qs
  cons_head-append c p ps qs = refl

  pub split-append : (s t : Text) → split sep (s ++ (sep ∷ t)) ≡ split sep s ++ split sep t
  unfolding split
  split-append [] t = ground arith
  split-append (c ∷ s) t = elim (Bool-cases (c == sep)) [
    | inl e ↦ rw e (ap (λ r. [] ∷ r) (split-append s t))
    | inr e ↦ let (p, ps, whole) = split-cons s in rw (e, split-append s t, whole) refl
  ]

  join-cons_head :
      (c : ℕ) (p : Text) (ps : List Text) → join sep ((c ∷ p) ∷ ps) ≡ c ∷ join sep (p ∷ ps)
  unfolding join
  join-cons_head c p [] = refl
  join-cons_head c p (q ∷ ps) = refl

  join-nil-cons : (p : Text) (ps : List Text) → join sep ([] ∷ p ∷ ps) ≡ sep ∷ join sep (p ∷ ps)
  unfolding join
  join-nil-cons p ps = refl

  join-split_step :
      (c : ℕ) (s p : Text) (ps : List Text)
      → split sep s ≡ p ∷ ps
      → join sep (p ∷ ps) ≡ s
      → join sep (split sep (c ∷ s)) ≡ c ∷ s
  unfolding split
  join-split_step c s p ps whole ih = elim (Bool-cases (c == sep)) [
    | inl e ↦ rw (e, whole, join-nil-cons p ps, ih) (ap (λ b. b ∷ s) (sym ((==_iff c sep).0 e)))
    | inr e ↦ rw (e, whole, join-cons_head c p ps, ih)
  ]

  -- Joining what was split gives the text.
  pub join-split : (s : Text) → join sep (split sep s) ≡ s
  join-split [] = unfold join split in refl
  join-split (c ∷ s) =
      let (p, ps, whole) = split-cons s in
      join-split_step c s p ps whole (subst (λ l. join sep l ≡ s) whole (join-split s))

  pub join-append :
      (p : Text) (ps : List Text) (q : Text) (qs : List Text)
      → join sep ((p ∷ ps) ++ (q ∷ qs)) ≡ join sep (p ∷ ps) ++ (sep ∷ join sep (q ∷ qs))
  unfolding join
  join-append p [] q qs = refl
  join-append p (r ∷ ps) q qs =
      rw (join-append r ps q qs)
        (sym (append_assoc p (sep ∷ join sep (r ∷ ps)) (sep ∷ join sep (q ∷ qs))))
