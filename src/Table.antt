-- ===== src/Table.antt =====
-- Go's `map[string]V` as a list of its entries. The order of the list stands for the order of a
-- `range`, and no statement reads it: maps are compared by what `lookup` returns.
use shield_dns.Prelude.{
  ◌≡◌, refl, ap, Bool, true, ◌||◌, List, [], ◌∷◌, ◌++◌, Option, none, some, arith, any, Bool-cases,
  inl, inr, if◌then◌else◌, any-append,
}
use shield_dns.Text.{Text, text_eq}
use shield_dns.Text.Equality.{text_eq_iff, text_eq_refl, text_eq_sound}

abbrev pub Table {ℓ} : Type ℓ → Type ℓ
Table V = List (Text × V)

module _ {ℓ} {V : Type ℓ} where
  unfoldable pub lookup : Text → Table V → Option V
  lookup k [] = none
  lookup k ((j, v) ∷ m) = if text_eq j k then some v else lookup k m

  -- `m[k] = v`
  unfoldable pub insert : Text → V → Table V → Table V
  insert k v [] = (k, v) ∷ []
  insert k v ((j, w) ∷ m) = if text_eq j k then (j, v) ∷ m else (j, w) ∷ insert k v m

  -- `for k := range m { if !p(k) { delete(m, k) } }`
  unfoldable pub keep_keys : (Text → Bool) → Table V → Table V
  keep_keys p [] = []
  keep_keys p ((j, v) ∷ m) = let rest = keep_keys p m in if p j then (j, v) ∷ rest else rest

  -- `delete(m, k)`
  unfoldable pub delete : Text → Table V → Table V
  delete k [] = []
  delete k ((j, v) ∷ m) = let rest = delete k m in if text_eq j k then rest else (j, v) ∷ rest

  pub lookup-insert :
      (k j : Text) (v : V) (m : Table V)
      → lookup j (insert k v m) ≡ (if text_eq k j then some v else lookup j m)
  unfolding lookup insert
  lookup-insert k j v [] = refl
  lookup-insert k j v ((i, w) ∷ m) =
      ground (arith, text_eq_iff k j, text_eq_iff i k, text_eq_iff i j, lookup-insert k j v m)

  pub lookup-insert_self : (k : Text) (v : V) (m : Table V) → lookup k (insert k v m) ≡ some v
  lookup-insert_self k v m = rw (lookup-insert, text_eq_refl k)

  pub lookup-delete :
      (k j : Text) (m : Table V)
      → lookup j (delete k m) ≡ (if text_eq k j then none else lookup j m)
  unfolding lookup delete
  lookup-delete k j [] = ground arith
  lookup-delete k j ((i, w) ∷ m) =
      ground (arith, text_eq_iff k j, text_eq_iff i k, text_eq_iff i j, lookup-delete k j m)

  pub lookup-keep_keys :
      (p : Text → Bool) (j : Text) (m : Table V)
      → lookup j (keep_keys p m) ≡ (if p j then lookup j m else none)
  unfolding lookup keep_keys
  lookup-keep_keys p j [] = ground arith
  lookup-keep_keys p j ((i, w) ∷ m) = elim (Bool-cases (text_eq i j)) [
    | inl same ↦
        rw (text_eq_sound i j same) (ground (arith, lookup-keep_keys p j m, text_eq_refl j))
    | inr other ↦ ground (arith, lookup-keep_keys p j m)
  ]

-- Each key stands in the table once, as in a map.
abbrev pub IsMap {ℓ} : {V : Type ℓ} → Table V → Type ℓ
IsMap [] = Unit
IsMap ((k, v) ∷ m) = (lookup k m ≡ none) × IsMap m

-- `m.Range` that deletes each entry whose value fails the test
unfoldable pub keep_values {ℓ} : {V : Type ℓ} → (V → Bool) → Table V → Table V
keep_values p [] = []
keep_values p ((k, v) ∷ m) = let rest = keep_values p m in if p v then (k, v) ∷ rest else rest

abbrev pub filter {ℓ} : {V : Type ℓ} → (V → Bool) → Option V → Option V
filter p none = none
filter p (some v) = if p v then some v else none

lookup-none-keep_values {ℓ} :
    {V : Type ℓ} (p : V → Bool) (k : Text) (m : Table V)
    → lookup k m ≡ none
    → lookup k (keep_values p m) ≡ none
unfolding lookup keep_values
lookup-none-keep_values p k [] h = refl
lookup-none-keep_values p k ((j, v) ∷ m) h = ground (arith, lookup-none-keep_values p k m)

pub lookup-keep_values {ℓ} :
    {V : Type ℓ} (p : V → Bool) (k : Text) (m : Table V)
    → IsMap m
    → lookup k (keep_values p m) ≡ filter p (lookup k m)
unfolding lookup keep_values
lookup-keep_values p k [] h = refl
lookup-keep_values p k ((j, v) ∷ m) h = elim (Bool-cases (text_eq j k)) [
  | inl same ↦
      let gone : lookup k m ≡ none = rw (text_eq_sound j k same) at h.0 in
      elim (Bool-cases (p v)) [
        | inl e ↦ rw (e, same) (rw e refl)
        | inr e ↦ rw (e, same, lookup-none-keep_values p k m gone) (rw e refl)
      ]
  | inr other ↦ elim (Bool-cases (p v)) [
    | inl e ↦ rw (e, other) (lookup-keep_values p k m h.1)
    | inr e ↦ rw (e, other) (lookup-keep_values p k m h.1)
  ]
]

-- Go's `map[string]struct{}`, and the membership loops over a `[]string`.
unfoldable pub member : Text → List Text → Bool
member k s = any (λ j. text_eq j k) s

unfoldable pub add : Text → List Text → List Text
unfolding member
add k s = if member k s then s else s ++ k ∷ []

pub member_of_eq : (k j : Text) (s : List Text) → text_eq k j ≡ true → member k s ≡ member j s
member_of_eq k j s e = ap (λ i. member i s) (text_eq_sound k j e)

pub member-add : (k j : Text) (s : List Text) → member j (add k s) ≡ (text_eq k j || member j s)
unfolding add
member-add k j s = elim (Bool-cases (member k s)) [
  | inl old ↦ rw old (ground (arith, member_of_eq k j s))
  | inr new ↦ rw new (unfold member in rw any-append (ground arith))
]
