-- ===== src/Instances/Labels.antt =====
-- The name of an instance type as a label value (exoscale/instances.go, lines 19-21 and 342-345).
use Prim.Native.Char.{code}
use Prim.Native.String.{String}
use exoscale_cloud_controlle.Base.{
  ℕ, ◌<>◌, ◌≡◌, Bool, true, false, not, ◌&&◌, ◌||◌, if◌then◌else◌, leb, arith,
}
use exoscale_cloud_controlle.Base.Text.{is_digit, is_upper, is_lower, is_empty}

-- `[A-Za-z0-9]`
abbrev pub is_alphanumeric : ℕ → Bool
is_alphanumeric c = is_upper c || is_lower c || is_digit c

-- `[-A-Za-z0-9_.]`
abbrev pub is_label_char : ℕ → Bool
is_label_char c = is_alphanumeric c || leb b'-' c && leb c b'.' || leb b'_' c && leb c b'_'

-- Is the character one that `labelInvalidCharsRegex` matches? At an end of the text, what is not
-- alphanumeric; elsewhere, what is no character of a label.
abbrev pub is_invalid : Bool → Bool → ℕ → Bool
is_invalid first last c = (first || last) && not (is_alphanumeric c) || not (is_label_char c)

remove_from : Bool → String → String
remove_from first String.[] = String.[]
remove_from first (String.◌∷◌ c s) =
    let rest = remove_from false s in
    if is_invalid first (is_empty s) (code c) then rest else String.◌∷◌ c rest

-- `labelInvalidCharsRegex.ReplaceAllString(s, "")`
unfoldable pub remove_invalid : String → String
unfolding remove_from
remove_invalid s = remove_from true s

-- `getInstanceTypeName`
unfoldable pub get_instance_type_name : String → String → String
get_instance_type_name family size = family <> ("." <> size)

abbrev pub AllLabelChars : String → Type 0
AllLabelChars String.[] = Unit {0}
AllLabelChars (String.◌∷◌ c s) = (is_label_char (code c) ≡ true) × AllLabelChars s

remove_from-AllLabelChars : (first : Bool) (s : String) → AllLabelChars (remove_from first s)
unfolding remove_from
remove_from-AllLabelChars first String.[] = tt
remove_from-AllLabelChars first (String.◌∷◌ c s) = ground (arith, remove_from-AllLabelChars false s)

-- Whatever the name of a type, only characters that a label may have are left in it.
pub remove_invalid-AllLabelChars : (s : String) → AllLabelChars (remove_invalid s)
unfolding remove_invalid
remove_invalid-AllLabelChars s = remove_from-AllLabelChars true s
