-- ===== src/Text.antt =====
-- Go's `string` as the list of its bytes, with the functions of the standard package `strings` that
-- the server calls. Letter case, spaces and digits are those of ASCII text.
pub mod Equality
pub mod Cuts
pub mod Labels
pub mod Trims
pub mod Words
pub mod Tests
use Prim.Native.Char.{code}
use Prim.Native.String.{String}
use shield_dns.Prelude.{
  ℕ, zero, suc, ◌+◌, ◌-◌, ◌≡◌, Bool, true, false, not, ◌&&◌, ◌||◌, List, [], ◌∷◌, ◌++◌, map, any,
  Option, none, some, leb, ◌==◌, if◌then◌else◌, is_some, option_or,
}

abbrev pub Text : Type 0
Text = List ℕ

-- A literal. It stays shut in proofs, and is unfolded in tests.
unfoldable pub lit : String → Text
lit String.[] = []
lit (String.◌∷◌ c s) = code c ∷ lit s

unfoldable pub text_eq : Text → Text → Bool
text_eq [] [] = true
text_eq [] (b ∷ t) = false
text_eq (a ∷ s) [] = false
text_eq (a ∷ s) (b ∷ t) = a == b && text_eq s t

abbrev pub is_empty : Text → Bool
is_empty [] = true
is_empty (c ∷ s) = false

unfoldable pub lower_byte : ℕ → ℕ
lower_byte c = if leb b'A' c && leb c b'Z' then c + 32 else c

-- `strings.ToLower`, `strings.EqualFold`
unfoldable pub to_lower : Text → Text
unfolding lower_byte
to_lower s = map lower_byte s

unfoldable pub equal_fold : Text → Text → Bool
unfolding to_lower text_eq
equal_fold s t = text_eq (to_lower s) (to_lower t)

-- '\t' '\n' '\v' '\f' '\r' ' '
unfoldable pub is_space : ℕ → Bool
is_space c = leb 9 c && leb c 13 || c == b' '

-- `strings.TrimFunc`
unfoldable pub trim_left : (ℕ → Bool) → Text → Text
trim_left p [] = []
trim_left p (c ∷ s) = let rest = trim_left p s in if p c then rest else c ∷ s

unfoldable pub trim_right : (ℕ → Bool) → Text → Text
trim_right p [] = []
trim_right p (c ∷ s) = let rest = trim_right p s in if p c && is_empty rest then [] else c ∷ rest

-- `strings.TrimSpace`
unfoldable pub trim_space : Text → Text
unfolding trim_left trim_right is_space
trim_space s = trim_right is_space (trim_left is_space s)

-- `strings.ContainsRune`
unfoldable pub has_byte : ℕ → Text → Bool
has_byte c s = any (λ d. d == c) s

-- `strings.Trim`
unfoldable pub trim : Text → Text → Text
unfolding trim_left trim_right has_byte
trim cutset s = trim_right (λ c. has_byte c cutset) (trim_left (λ c. has_byte c cutset) s)

-- `strings.CutPrefix`
unfoldable pub cut_prefix : Text → Text → Option Text
cut_prefix [] s = some s
cut_prefix (c ∷ p) [] = none
cut_prefix (c ∷ p) (d ∷ s) = if c == d then cut_prefix p s else none

-- `strings.HasPrefix`, `strings.TrimPrefix`
unfoldable pub has_prefix : Text → Text → Bool
unfolding cut_prefix
has_prefix p s = is_some (cut_prefix p s)

unfoldable pub trim_prefix : Text → Text → Text
unfolding cut_prefix
trim_prefix p s = option_or (cut_prefix p s) s

-- `strings.HasSuffix`, `strings.TrimSuffix`
unfoldable pub has_suffix : Text → Text → Bool
unfolding text_eq
has_suffix p [] = text_eq p []
has_suffix p (c ∷ s) = text_eq p (c ∷ s) || has_suffix p s

unfoldable pub trim_suffix : Text → Text → Text
unfolding text_eq
trim_suffix p [] = []
trim_suffix p (c ∷ s) = let rest = trim_suffix p s in if text_eq p (c ∷ s) then [] else c ∷ rest

-- `strings.Contains`
unfoldable pub contains : Text → Text → Bool
unfolding has_prefix
contains p [] = is_empty p
contains p (c ∷ s) = has_prefix p (c ∷ s) || contains p s

-- What stands before and behind the first `p` in `s`: `s[:i]` and `s[i+len(p):]` at
-- `i = strings.Index(s, p)`.
abbrev pub cons_front : ℕ → Option (Text × Text) → Option (Text × Text)
cons_front c none = none
cons_front c (some (front, back)) = some (c ∷ front, back)

unfoldable pub cut : Text → Text → Option (Text × Text)
unfolding cut_prefix
cut p [] = if is_empty p then some ([], []) else none
cut p (c ∷ s) = elim (cut_prefix p (c ∷ s)) [
  | some back ↦ some ([], back)
  | none ↦ cons_front c (cut p s)
]

-- `s[:i]` at `i = strings.IndexFunc(s, p)`, and `s` where there is none.
unfoldable pub before : (ℕ → Bool) → Text → Text
before p [] = []
before p (c ∷ s) = let rest = before p s in if p c then [] else c ∷ rest

-- `strings.Split` at a separator of one byte
abbrev pub cons_head : ℕ → List Text → List Text
cons_head c [] = (c ∷ []) ∷ []
cons_head c (p ∷ ps) = (c ∷ p) ∷ ps

unfoldable pub split : ℕ → Text → List Text
split sep [] = [] ∷ []
split sep (c ∷ s) = let rest = split sep s in if c == sep then [] ∷ rest else cons_head c rest

-- `strings.Join` with a separator of one byte
unfoldable pub join : ℕ → List Text → Text
join sep [] = []
join sep (p ∷ []) = p
join sep (p ∷ q ∷ ps) = p ++ (sep ∷ join sep (q ∷ ps))

-- `strings.Fields`
unfoldable pub drop_empty : List Text → List Text
drop_empty [] = []
drop_empty (p ∷ ps) = if is_empty p then drop_empty ps else p ∷ drop_empty ps

unfoldable pub fields : Text → List Text
unfolding split drop_empty is_space
fields s = drop_empty (split b' ' (map (λ c. if is_space c then b' ' else c) s))

-- What stands before and behind the last `c` in `s`.
unfoldable pub cut_last : ℕ → Text → Option (Text × Text)
cut_last c [] = none
cut_last c (d ∷ s) = elim (cut_last c s) [
  | some (front, back) ↦ some (d ∷ front, back)
  | none ↦ if d == c then some ([], s) else none
]
