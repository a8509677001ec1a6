-- ===== src/Base/Text.antt =====
-- The parts of Go's `strings`, `strconv` and `fmt` that the provider calls, on texts of Unicode
-- scalar values. Letters are folded as in ASCII, as are all the names that the program folds
-- (protocols, host names, node pool names and the word `true`).
use Prim.Native.Char.{Char, char, code, IsScalar}
use Prim.Native.String.{String}
use Prim.Native.String.append
use exoscale_cloud_controlle.Base.{List, [], ◌∷◌}
use exoscale_cloud_controlle.Base.{
  ℕ, ◌+◌, ◌-◌, ◌%◌, ◌<◌, ◌<>◌, ◌≡◌, refl, Bool, true, false, ◌&&◌, ◌||◌, Option, none, some, arith,
  leb, if◌then◌else◌, ◌==◌, nat_eq, string_eq,
}

scalar_of_small : (n : ℕ) → n < 55296 → IsScalar n
scalar_of_small n h = ground arith

abbrev pub is_digit : ℕ → Bool
is_digit c = leb b'0' c && leb c b'9'

abbrev pub is_upper : ℕ → Bool
is_upper c = leb b'A' c && leb c b'Z'

abbrev pub is_lower : ℕ → Bool
is_lower c = leb b'a' c && leb c b'z'

lower_scalar : (n : ℕ) → IsScalar (n % 26 + b'a')
lower_scalar n = scalar_of_small (n % 26 + b'a') (omega arith)

lower_char : Char → Char
lower_char c =
    if is_upper (code c)
    then char ((code c - b'A') % 26 + b'a') (lower_scalar (code c - b'A'))
    else c

-- `strings.ToLower`
unfoldable pub to_lower : String → String
unfolding lower_char lower_scalar scalar_of_small
to_lower String.[] = String.[]
to_lower (String.◌∷◌ c s) = String.◌∷◌ (lower_char c) (to_lower s)

abbrev pub is_empty : String → Bool
is_empty String.[] = true
is_empty (String.◌∷◌ c s) = false

abbrev pub fold_code : ℕ → ℕ
fold_code n = if is_upper n then n + 32 else n

-- `strings.EqualFold`
unfoldable pub equal_fold : String → String → Bool
unfolding nat_eq
equal_fold String.[] String.[] = true
equal_fold String.[] (String.◌∷◌ d t) = false
equal_fold (String.◌∷◌ c s) String.[] = false
equal_fold (String.◌∷◌ c s) (String.◌∷◌ d t) =
    fold_code (code c) == fold_code (code d) && equal_fold s t

-- What follows the prefix, where the text has it.
unfoldable pub strip_prefix : String → String → Option String
unfolding nat_eq
strip_prefix String.[] s = some s
strip_prefix (String.◌∷◌ c p) String.[] = none
strip_prefix (String.◌∷◌ c p) (String.◌∷◌ d s) = if code c == code d then strip_prefix p s else none

-- `strings.HasPrefix`
unfoldable pub has_prefix : String → String → Bool
unfolding strip_prefix
has_prefix s p = elim (strip_prefix p s) [ none ↦ false | some _ ↦ true ]

-- `strings.TrimPrefix`
unfoldable pub trim_prefix : String → String → String
unfolding strip_prefix
trim_prefix s p = elim (strip_prefix p s) [ none ↦ s | some rest ↦ rest ]

-- `strings.HasSuffix`
unfoldable pub has_suffix : String → String → Bool
unfolding string_eq
has_suffix String.[] p = p == ""
has_suffix (String.◌∷◌ c s) p = String.◌∷◌ c s == p || has_suffix s p

-- `strings.Trim(s, c)` for one character: first the left end, then the right end.
unfoldable pub trim_left : ℕ → String → String
unfolding nat_eq
trim_left k String.[] = String.[]
trim_left k (String.◌∷◌ c s) = if code c == k then trim_left k s else String.◌∷◌ c s

unfoldable pub trim_right : ℕ → String → String
unfolding nat_eq string_eq
trim_right k String.[] = String.[]
trim_right k (String.◌∷◌ c s) =
    let rest = trim_right k s in if rest == "" && code c == k then String.[] else String.◌∷◌ c rest

unfoldable pub trim : String → ℕ → String
unfolding trim_left trim_right
trim s k = trim_right k (trim_left k s)

pub strip_prefix-append : (p s : String) → strip_prefix p (p <> s) ≡ some s
unfolding strip_prefix nat_eq
strip_prefix-append String.[] s = rw append.nil
strip_prefix-append (String.◌∷◌ c p) s = rw append.cons (ground (arith, strip_prefix-append p s))

-- A prefix that was put in front is what `TrimPrefix` takes off.
pub trim_prefix-append : (p s : String) → trim_prefix (p <> s) p ≡ s
unfolding trim_prefix
trim_prefix-append p s = ground (arith, strip_prefix-append p s)

-- A text is equal to itself under folding.
pub equal_fold_refl : (s : String) → equal_fold s s ≡ true
unfolding equal_fold
equal_fold_refl String.[] = refl
equal_fold_refl (String.◌∷◌ c s) = ground (arith, equal_fold_refl s)

pub equal_fold_sym : (s t : String) → equal_fold s t ≡ equal_fold t s
unfolding equal_fold
equal_fold_sym String.[] String.[] = refl
equal_fold_sym String.[] (String.◌∷◌ d t) = refl
equal_fold_sym (String.◌∷◌ c s) String.[] = refl
equal_fold_sym (String.◌∷◌ c s) (String.◌∷◌ d t) = ground (arith, equal_fold_sym s t)

pub equal_fold_trans :
    (s t u : String) → equal_fold s t ≡ true → equal_fold t u ≡ true → equal_fold s u ≡ true
unfolding equal_fold
equal_fold_trans String.[] String.[] u h k = k
equal_fold_trans String.[] (String.◌∷◌ d t) u h k = cc
equal_fold_trans (String.◌∷◌ c s) String.[] u h k = cc
equal_fold_trans (String.◌∷◌ c s) (String.◌∷◌ d t) String.[] h k = cc
equal_fold_trans (String.◌∷◌ c s) (String.◌∷◌ d t) (String.◌∷◌ e u) h k =
    ground (arith, equal_fold_trans s t u)

-- Lower-casing changes nothing that folding sees.
pub equal_fold-to_lower : (s : String) → equal_fold (to_lower s) s ≡ true
unfolding equal_fold to_lower
equal_fold-to_lower String.[] = refl
equal_fold-to_lower (String.◌∷◌ c s) = ground (arith, equal_fold-to_lower s)

-- `strings.Split` at one character: the texts between its places, one at least.
unfoldable pub split : ℕ → String → List String
unfolding nat_eq
split k String.[] = "" ∷ []
split k (String.◌∷◌ c s) =
    let rest = split k s in
    if code c == k
    then "" ∷ rest
    else elim rest [ [] ↦ String.◌∷◌ c "" ∷ [] | t ∷ more ↦ String.◌∷◌ c t ∷ more ]
