-- ===== src/Text/Cuts.antt =====
-- Cutting a text: the parts put together again give the text.
use shield_dns.Prelude.{
  ℕ, ◌≡◌, refl, ap, Bool, true, false, [], ◌∷◌, ◌++◌, Option, none, some, arith, Option-cases,
  Bool-cases, inl, inr, ==_iff, if◌then◌else◌, ◌==◌,
}
use shield_dns.Text.{Text, cut_prefix, cut, cons_front, before, cut_last}

pub cut_prefix-append : (p s back : Text) → cut_prefix p s ≡ some back → s ≡ p ++ back
unfolding cut_prefix
cut_prefix-append [] s back h = ground arith
cut_prefix-append (c ∷ p) [] back h = cc
cut_prefix-append (c ∷ p) (d ∷ s) back h = ground (arith, cut_prefix-append p s back)

cons_front-eq-some :
    (c : ℕ) (o : Option (Text × Text)) (front back : Text)
    → cons_front c o ≡ some (front, back)
    → (f : Text) × (o ≡ some (f, back)) × (front ≡ c ∷ f)
cons_front-eq-some c none front back h = cc
cons_front-eq-some c (some (f, b)) front back h = (f, cc, cc)

pub cut-append : (p s front back : Text) → cut p s ≡ some (front, back) → s ≡ front ++ (p ++ back)
unfolding cut
cut-append [] [] front back h = ground arith
cut-append (c ∷ p) [] front back h = cc
cut-append p (c ∷ s) front back h = elim (Option-cases (cut_prefix p (c ∷ s))) [
  | inl e ↦
      let (f, found, split) = cons_front-eq-some c (cut p s) front back (rw (e, cut) at h) in
      cc (cut-append p s f back found)
  | inr (b, e) ↦
      let same : some ([], b) ≡ some (front, back) = rw (e, cut) at h in
      cc (same, cut_prefix-append p (c ∷ s) b e)
]

pub before-append : (p : ℕ → Bool) (s : Text) → (back : Text) × (s ≡ before p s ++ back)
unfolding before
before-append p [] = ([], refl)
before-append p (c ∷ s) = elim (Bool-cases (p c)) [
  | inl e ↦ (c ∷ s, rw e)
  | inr e ↦ let (back, whole) = before-append p s in (back, rw e (ap (λ t. c ∷ t) whole))
]

cut_last_here :
    (b : Bool) (s front back : Text)
    → if◌then◌else◌ {A = Option (Text × Text)} b (some ([], s)) none ≡ some (front, back)
    → (b ≡ true) × (front ≡ []) × (s ≡ back)
cut_last_here true s front back h = (refl, cc, cc)
cut_last_here false s front back h = cc

pub cut_last-append :
    (c : ℕ) (s front back : Text) → cut_last c s ≡ some (front, back) → s ≡ front ++ (c ∷ back)
unfolding cut_last
cut_last-append c [] front back h = cc
cut_last-append c (d ∷ s) front back h = elim (Option-cases (cut_last c s)) [
  | inl e ↦
      let (same, nil, rest) = cut_last_here (d == c) s front back (rw (e, cut_last) at h) in
      rw nil (cc (rest, (==_iff d c).0 same))
  | inr ((f, b), e) ↦
      let same : some (d ∷ f, b) ≡ some (front, back) = rw (e, cut_last) at h in
      cc (same, cut_last-append c s f b e)
]
