-- ===== src/Base/Duration.antt =====
-- `time.ParseDuration`, and the whole seconds that the provider takes of a duration. Durations are
-- nanoseconds. A fraction of a unit is cut to whole nanoseconds in exact arithmetic, and so are the
-- seconds, where Go goes through a float64; the two agree for durations below 2 ^ 23 seconds.
use Prim.Native.Char.{code}
use Prim.Native.String.{String}
use exoscale_cloud_controlle.Base.{
  ℕ, zero, suc, ◌+◌, ◌-◌, ◌*◌, ◌/◌, ◌^◌, ◌≤◌, ◌<◌, ◌≡◌, refl, Bool, true, false, not, ◌&&◌, ◌||◌,
  Option, none, some, arith, ltb, leb, if◌then◌else◌, ◌==◌, nat_eq, string_eq, ℤ, pos, negsuc, neg,
  Option-cases, Bool-cases, inl, inr,
}
use exoscale_cloud_controlle.Base.Text.{is_digit, is_empty, strip_prefix}
use exoscale_cloud_controlle.Base.Decimal.{read_digits, max_int64}

abbrev second : ℕ
second = 1000000000

-- The units in nanoseconds.
unit_of : String → Option ℕ
unfolding string_eq
unit_of u =
    if u == "ns"
    then some 1
    else if u == "us" || u == "µs" || u == "μs"
    then some 1000
    else if u == "ms"
    then some 1000000
    else if u == "s"
    then some second
    else if u == "m"
    then some (60 * second)
    else if u == "h"
    then some (3600 * second)
    else none

abbrev is_number : ℕ → Bool
is_number c = is_digit c || (leb b'.' c && leb c b'.')

abbrev starts_with_digit : String → Bool
starts_with_digit String.[] = false
starts_with_digit (String.◌∷◌ c s) = is_digit (code c)

abbrev size : String → ℕ
size String.[] = 0
size (String.◌∷◌ c s) = suc (size s)

-- The text up to the next digit or point, and the rest.
split_unit : String → String × String
split_unit String.[] = ("", "")
split_unit (String.◌∷◌ c s) =
    let (u, rest) = split_unit s in
    if is_number (code c) then ("", String.◌∷◌ c s) else (String.◌∷◌ c u, rest)

-- The digits behind a point: their number, the power of ten they count in, whether there are any.
fraction : String → ℕ × ℕ × Bool × String
unfolding read_digits
fraction s = elim (strip_prefix "." s) [
  | none ↦ (0, 1, false, s)
  | some r ↦
      let (f, rest) = read_digits 0 r in (f, 10 ^ (size r - size rest), starts_with_digit r, rest)
]

-- `v` and a fraction in a unit, or `none` where 2 ^ 63 nanoseconds are passed.
scaled : ℕ → ℕ → ℕ → ℕ → Option ℕ
scaled v f scale u =
    let d = v * u + f * u / scale in
    if ltb ((max_int64 + 1) / u) v then none else if ltb (max_int64 + 1) d then none else some d

-- A number that has been read, in the unit that the text goes on with.
in_unit : ℕ → ℕ → ℕ → String → Option (ℕ × String)
in_unit v f scale r =
    let (u, rest) = split_unit r in
    if is_empty u then none else elim (unit_of u) [
      | none ↦ none
      | some unit ↦ elim (scaled v f scale unit) [ none ↦ none | some d ↦ some (d, rest) ]
    ]

-- One number with its unit, in nanoseconds, and the rest; `none` is an error.
term : String → Option (ℕ × String)
term s =
    let (v, r) = read_digits 0 s in
    let (f, scale, post, r') = fraction r in
    if not (starts_with_digit s) && not post
    then none
    else if ltb (max_int64 + 1) v
    then none
    else in_unit v f scale r'

-- The loop over the terms. The outer `none` means that the fuel ran out, the inner one an error.
duration_loop : ℕ → ℕ → String → Option (Option ℕ)
duration_loop zero d s = none
duration_loop (suc f) d s = elim (is_empty s) [
  | true ↦ some (some d)
  | false ↦ elim (term s) [
    | none ↦ some none
    | some (v, rest) ↦ elim (ltb (max_int64 + 1) (d + v)) [
      | true ↦ some none
      | false ↦ duration_loop f (d + v) rest
    ]
  ]
]

-- A text that has lost its sign.
unsigned_duration : String → Option ℕ
unfolding duration_loop string_eq
unsigned_duration s =
    if s == "0"
    then some 0
    else if is_empty s
    then none
    else elim (duration_loop (suc (size s)) 0 s) [ none ↦ none | some r ↦ r ]

-- `time.ParseDuration`; `none` is its error.
unfoldable pub parse_duration : String → Option ℤ
unfolding unsigned_duration strip_prefix term fraction in_unit split_unit unit_of scaled
parse_duration s = elim (strip_prefix "-" s) [
  | some r ↦ elim (unsigned_duration r) [ none ↦ none | some d ↦ some (neg (pos d)) ]
  | none ↦
      let r : String = elim (strip_prefix "+" s) [ none ↦ s | some t ↦ t ] in
      elim (unsigned_duration r) [
        | none ↦ none
        | some d ↦ if ltb max_int64 d then none else some (pos d)
      ]
]

-- `int64(d.Seconds())`, which cuts towards zero.
unfoldable pub whole_seconds : ℤ → ℤ
whole_seconds (pos d) = pos (d / second)
whole_seconds (negsuc d) = neg (pos (suc d / second))

size-read_digits : (acc : ℕ) (s : String) → size (read_digits acc s).1 ≤ size s
unfolding read_digits
size-read_digits acc String.[] = omega arith
size-read_digits acc (String.◌∷◌ c s) =
    ground (arith, size-read_digits (acc * 10 + (code c - b'0')) s)

size-strip_prefix : (p s r : String) → strip_prefix p s ≡ some r → size r ≤ size s
unfolding strip_prefix
size-strip_prefix String.[] s r h = ground arith
size-strip_prefix (String.◌∷◌ c p) String.[] r h = cc
size-strip_prefix (String.◌∷◌ c p) (String.◌∷◌ d s) r h = ground (arith, size-strip_prefix p s r)

size-fraction : (s : String) → size (fraction s).3 ≤ size s
unfolding fraction
size-fraction s = elim (Option-cases (strip_prefix "." s)) [
  | inl e ↦ rw (e, fraction) (omega arith)
  | inr (r, e) ↦ rw (e, fraction) (omega (arith, size-read_digits 0 r, size-strip_prefix "." s r e))
]

size-split_unit-le : (s : String) → size (split_unit s).1 ≤ size s
unfolding split_unit
size-split_unit-le String.[] = omega arith
size-split_unit-le (String.◌∷◌ c s) = ground (arith, size-split_unit-le s)

size-split_unit : (s : String) → is_empty (split_unit s).0 ≡ false → size (split_unit s).1 < size s
unfolding split_unit
size-split_unit String.[] h = cc
size-split_unit (String.◌∷◌ c s) h = elim (Bool-cases (is_number (code c))) [
  | inl e ↦ let h' = rw e at h in cc
  | inr e ↦ rw e (omega (arith, size-split_unit-le s))
]

size-in_unit :
    (v f scale : ℕ) (r : String) {d : ℕ} {rest : String}
    → in_unit v f scale r ≡ some (d, rest)
    → size rest < size r
unfolding in_unit
size-in_unit v f scale r h = ground (arith, size-split_unit r)

-- Each term takes at least the characters of its unit off.
size-term : (s : String) {v : ℕ} {rest : String} → term s ≡ some (v, rest) → size rest < size s
unfolding term
size-term s {v} {rest} h =
    let (n, r) = read_digits 0 s in
    let (f, scale, post, r') = fraction r in
    ground (
      arith,
      size-read_digits 0 s,
      size-fraction r,
      size-in_unit n f scale r' {d = v} {rest = rest},
    )

-- The fuel is enough: one unit of it for each character, and one more.
duration_loop_total :
    (f d : ℕ) (s : String) → size s < f → (r : Option ℕ) × (duration_loop f d s ≡ some r)
unfolding duration_loop
duration_loop_total zero d s h = elim h [ ]
duration_loop_total (suc f) d s h = elim (Bool-cases (is_empty s)) [
  | inl done ↦ (some d, ground arith)
  | inr more ↦ elim (Option-cases (term s)) [
    | inl e ↦ (none, ground arith)
    | inr ((v, rest), e) ↦ elim (Bool-cases (ltb (max_int64 + 1) (d + v))) [
      | inl over ↦ (none, ground arith)
      | inr fits ↦
          let (r, q) = duration_loop_total f (d + v) rest (omega (arith, size-term s e)) in
          (r, ground arith)
    ]
  ]
]

durations_test :
    (parse_duration "1m30s" ≡ some (pos (90 * second)))
    × (parse_duration "1.5h" ≡ some (pos (5400 * second)))
    × (parse_duration "10" ≡ none)
unfolding parse_duration
durations_test = (refl, refl, refl)
