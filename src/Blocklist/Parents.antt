-- ===== src/Blocklist/Parents.antt =====
-- The parent domains of a subdomain.
use shield_dns.Prelude.{◌≡◌, sym, subst, Bool, true, List, [], ◌∷◌, ◌++◌, All, any, arith}
use shield_dns.Text.{Text, join}
use shield_dns.Text.Labels.{split-cons, split-append, join-split, join-append}
use shield_dns.Blocklist.{joined_tails, parent_domains}

-- `x.d`, a subdomain of `d`
abbrev pub sub_domain : Text → Text → Text
sub_domain x d = x ++ (b'.' ∷ d)

joined_tails-All {ℓ} :
    (P : Text → Type ℓ) (p : Text) (ps : List Text) (q : Text) (qs : List Text)
    → ((y : Text) → P (sub_domain y (join b'.' (q ∷ qs))))
    → P (join b'.' (q ∷ qs))
    → All P (joined_tails (q ∷ qs))
    → All P (joined_tails ((p ∷ ps) ++ (q ∷ qs)))
unfolding joined_tails
joined_tails-All P p [] q qs inner here above = (here, above)
joined_tails-All P p (r ∷ ps) q qs inner here above = (
  rw (join-append b'.' r ps q qs) (inner (join b'.' (r ∷ ps))),
  joined_tails-All P r ps q qs inner here above,
)

-- Each parent of `x.d` lies below `d`, is `d`, or is a parent of `d`.
pub parent_domains-All {ℓ} :
    (P : Text → Type ℓ) (x d : Text)
    → ((y : Text) → P (sub_domain y d))
    → P d
    → All P (parent_domains d)
    → All P (parent_domains (sub_domain x d))
unfolding parent_domains
parent_domains-All P x d inner here above =
    let (p, ps, of_x) = split-cons b'.' x in
    let (q, qs, of_d) = split-cons b'.' d in
    let whole : d ≡ join b'.' (q ∷ qs) =
      sym (subst (λ l. join b'.' l ≡ d) of_d (join-split b'.' d)) in
    rw (split-append b'.' x d, of_x, of_d)
      (joined_tails-All P p ps q qs (subst (λ e. (y : Text) → P (sub_domain y e)) whole inner)
        (subst P whole here) (rw of_d at above))

joined_tails-any :
    (f : Text → Bool) (p : Text) (ps : List Text) (q : Text) (qs : List Text)
    → f (join b'.' (q ∷ qs)) ≡ true
    → any f (joined_tails ((p ∷ ps) ++ (q ∷ qs))) ≡ true
unfolding joined_tails
joined_tails-any f p [] q qs h = ground arith
joined_tails-any f p (r ∷ ps) q qs h = ground (arith, joined_tails-any f r ps q qs h)

-- `d` itself is among the parents of `x.d`.
pub any-parent_domains :
    (f : Text → Bool) (x d : Text) → f d ≡ true → any f (parent_domains (sub_domain x d)) ≡ true
unfolding parent_domains
any-parent_domains f x d h =
    let (p, ps, of_x) = split-cons b'.' x in
    let (q, qs, of_d) = split-cons b'.' d in
    let whole : join b'.' (q ∷ qs) ≡ d = subst (λ l. join b'.' l ≡ d) of_d (join-split b'.' d) in
    rw (split-append b'.' x d, of_x, of_d)
      (joined_tails-any f p ps q qs (subst (λ e. f e ≡ true) (sym whole) h))
