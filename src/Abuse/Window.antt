-- ===== src/Abuse/Window.antt =====
-- The sliding windows: what `prune_window` keeps of an ascending list of times.
use shield_dns.Prelude.{
  ℕ, ◌+◌, ◌≤◌, ◌≡◌, refl, Bool, List, [], ◌∷◌, ◌++◌, All, keep, length, arith, ltb, leb, Bool-cases,
  inl, inr, subst, length-keep, All-append,
}
use shield_dns.Abuse.{drop_old, prune_window, count_query}

abbrev pub IsAscending : List ℕ → Type 0
IsAscending [] = Unit {0}
IsAscending (t ∷ []) = Unit {0}
IsAscending (t ∷ u ∷ ts) = (t ≤ u) × IsAscending (u ∷ ts)

-- Times that were recorded in order, the last of them no later than now.
pub record IsTimely (now : ℕ) (ts : List ℕ) : Type 0 where
  pub ascending : IsAscending ts
  pub past : All (λ t. t ≤ now) ts

abbrev pub in_window : ℕ → ℕ → ℕ → Bool
in_window now window t = ltb now (t + window)

abbrev pub touches_window : ℕ → ℕ → ℕ → Bool
touches_window now window t = leb now (t + window)

IsAscending-tail : (t : ℕ) (ts : List ℕ) → IsAscending (t ∷ ts) → IsAscending ts
IsAscending-tail t [] h = tt
IsAscending-tail t (u ∷ ts) h = h.1

ascending_above :
    (now window t : ℕ) (ts : List ℕ)
    → IsAscending (t ∷ ts)
    → now ≤ t + window
    → All (λ u. now ≤ u + window) (t ∷ ts)
ascending_above now window t [] h le = (le, tt)
ascending_above now window t (u ∷ ts) h le =
    (le, ascending_above now window u ts h.1 (omega (arith, h.0)))

module _ (now window : ℕ) where
  -- Nothing inside the window is lost.
  keep-drop_old :
      (ts : List ℕ)
      → keep (in_window now window) (drop_old now window ts) ≡ keep (in_window now window) ts
  unfolding drop_old
  keep-drop_old [] = refl
  keep-drop_old (t ∷ ts) = ground (arith, keep-drop_old ts)

  pub keep-prune_window :
      (ts : List ℕ)
      → keep (in_window now window) (prune_window ts now window) ≡ keep (in_window now window) ts
  unfolding prune_window
  keep-prune_window [] = refl
  keep-prune_window (t ∷ ts) = ground (arith, keep-drop_old (t ∷ ts))

  drop_old-above :
      (ts : List ℕ) → IsAscending ts → All (λ t. now ≤ t + window) (drop_old now window ts)
  unfolding drop_old
  drop_old-above [] h = tt
  drop_old-above (t ∷ ts) h = elim (Bool-cases (ltb now (t + window))) [
    | inl e ↦ rw e (ascending_above now window t ts h (ground arith))
    | inr e ↦ rw e (drop_old-above ts (IsAscending-tail t ts h))
  ]

  -- Nothing before the window is kept.
  pub prune_window-above :
      (ts : List ℕ) → IsAscending ts → All (λ t. now ≤ t + window) (prune_window ts now window)
  unfolding prune_window
  prune_window-above [] h = tt
  prune_window-above (t ∷ ts) h = elim (Bool-cases (leb now (t + window))) [
    | inl e ↦ rw e (ascending_above now window t ts h (ground arith))
    | inr e ↦ rw e (drop_old-above (t ∷ ts) h)
  ]

  drop_old-IsTimely : (ts : List ℕ) → IsTimely now ts → IsTimely now (drop_old now window ts)
  unfolding drop_old
  drop_old-IsTimely [] h = h
  drop_old-IsTimely (t ∷ ts) h = elim (Bool-cases (ltb now (t + window))) [
    | inl e ↦ rw e h
    | inr e ↦ rw e (
        drop_old-IsTimely ts
          (record { ascending = IsAscending-tail t ts h.ascending; past = h.past.1 }))
  ]

  prune_window-IsTimely :
      (ts : List ℕ) → IsTimely now ts → IsTimely now (prune_window ts now window)
  unfolding prune_window
  prune_window-IsTimely [] h = h
  prune_window-IsTimely (t ∷ ts) h = elim (Bool-cases (leb now (t + window))) [
    | inl e ↦ rw e h
    | inr e ↦ rw e (drop_old-IsTimely (t ∷ ts) h)
  ]

  drop_old-shorter :
      (ts : List ℕ)
      → length (keep (touches_window now window) (drop_old now window ts))
        ≤ length (keep (touches_window now window) ts)
  unfolding drop_old
  drop_old-shorter [] = omega arith
  drop_old-shorter (t ∷ ts) = ground (arith, drop_old-shorter ts)

  keep-All :
      (ts : List ℕ) → All (λ t. now ≤ t + window) ts → keep (touches_window now window) ts ≡ ts
  keep-All [] h = refl
  keep-All (t ∷ ts) h = ground (arith, keep-All ts h.1, h.0)

  prune_window-shorter :
      (ts : List ℕ)
      → length (keep (touches_window now window) (prune_window ts now window))
        ≤ length (keep (touches_window now window) ts)
  unfolding prune_window
  prune_window-shorter [] = omega arith
  prune_window-shorter (t ∷ ts) = ground (arith, drop_old-shorter (t ∷ ts))

  -- What is kept is no more than what touches the window, and no less than what lies in it.
  pub prune_window-le :
      (ts : List ℕ)
      → IsAscending ts
      → length (prune_window ts now window) ≤ length (keep (touches_window now window) ts)
  prune_window-le ts h =
      subst (λ l. length l ≤ length (keep (touches_window now window) ts))
        (keep-All (prune_window ts now window) (prune_window-above ts h)) (prune_window-shorter ts)

  pub in_window-le :
      (ts : List ℕ) → length (keep (in_window now window) ts) ≤ length (prune_window ts now window)
  in_window-le ts =
      rw (← keep-prune_window ts) (length-keep (in_window now window) (prune_window ts now window))

IsAscending-append :
    (now : ℕ) (ts : List ℕ)
    → IsAscending ts
    → All (λ t. t ≤ now) ts
    → IsAscending (ts ++ (now ∷ []))
IsAscending-append now [] h p = tt
IsAscending-append now (t ∷ []) h p = (p.0, tt)
IsAscending-append now (t ∷ u ∷ ts) h p = (h.0, IsAscending-append now (u ∷ ts) h.1 p.1)

pub append-IsTimely : (now : ℕ) (ts : List ℕ) → IsTimely now ts → IsTimely now (ts ++ (now ∷ []))
append-IsTimely now ts h = record {
  ascending = IsAscending-append now ts h.ascending h.past;
  past = All-append (λ t. t ≤ now) ts (now ∷ []) h.past (omega arith, tt);
}

-- A window with one more query is again a list of times in order.
pub count_query-IsTimely :
    (now window : ℕ) (ts : List ℕ) → IsTimely now ts → IsTimely now (count_query ts now window)
unfolding count_query
count_query-IsTimely now window ts h =
    prune_window-IsTimely now window (ts ++ (now ∷ [])) (append-IsTimely now ts h)

later_past : (a b : ℕ) (ts : List ℕ) → a ≤ b → All (λ t. t ≤ a) ts → All (λ t. t ≤ b) ts
later_past a b [] le h = tt
later_past a b (t ∷ ts) le h = (omega (arith, h.0), later_past a b ts le h.1)

pub IsTimely-later : (a b : ℕ) (ts : List ℕ) → a ≤ b → IsTimely a ts → IsTimely b ts
IsTimely-later a b ts le h = record { ascending = h.ascending; past = later_past a b ts le h.past }

-- `pruneWindow` on times that were recorded in order returns all that lie inside the window and
-- nothing that lies before it.
pub prune_window_exact :
    (now window : ℕ) (ts : List ℕ)
    → IsAscending ts
    → (keep (in_window now window) (prune_window ts now window) ≡ keep (in_window now window) ts)
      × All (λ t. now ≤ t + window) (prune_window ts now window)
prune_window_exact now window ts h =
    (keep-prune_window now window ts, prune_window-above now window ts h)
