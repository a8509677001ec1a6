-- ===== src/Base/Decimal.antt =====
-- `strconv.Atoi` and the decimal digits of `fmt`: reading back what was printed.
use Prim.Native.Char.{Char, char, code, IsScalar}
use Prim.Native.String.{String}
use Prim.Native.String.append
use exoscale_cloud_controlle.Base.{
  ℕ, zero, suc, ◌+◌, ◌-◌, ◌*◌, ◌/◌, ◌%◌, ◌≤◌, ◌<◌, ◌<>◌, ◌≡◌, refl, false, Option, none, some,
  arith, ltb, leb, if◌then◌else◌, nat_eq, string_eq, ℤ, pos, negsuc, neg,
}
use exoscale_cloud_controlle.Base.Text.{is_digit, is_empty, strip_prefix, strip_prefix-append}

digit_scalar : (n : ℕ) → IsScalar (n % 10 + b'0')
digit_scalar n = let small : n % 10 + b'0' < 55296 = omega arith in ground arith

digit : ℕ → Char
digit n = char (n % 10 + b'0') (digit_scalar n)

-- The digits of `n`, in front of `t`.
show_onto : ℕ → ℕ → String → String
unfolding digit digit_scalar
show_onto zero n t = t
show_onto (suc f) n t =
    let front = show_onto f (n / 10) (String.◌∷◌ (digit n) t) in
    if ltb n 10 then String.◌∷◌ (digit n) t else front

unfoldable pub show_nat : ℕ → String
unfolding show_onto
show_nat n = show_onto (suc n) n ""

-- `%d`
unfoldable pub show_int : ℤ → String
unfolding show_nat
show_int (pos n) = show_nat n
show_int (negsuc n) = "-" <> show_nat (suc n)

-- The leading digits, as a number, and what follows them.
unfoldable pub read_digits : ℕ → String → ℕ × String
read_digits acc String.[] = (acc, "")
read_digits acc (String.◌∷◌ c s) =
    let rest = read_digits (acc * 10 + (code c - b'0')) s in
    if is_digit (code c) then rest else (acc, String.◌∷◌ c s)

-- All of a text as digits, at least one.
unfoldable pub read_nat : String → Option ℕ
unfolding read_digits string_eq
read_nat s =
    let (n, rest) = read_digits 0 s in
    if is_empty s then none else if is_empty rest then some n else none

show_nat_test : show_nat 30080 ≡ "30080"
unfolding show_nat
show_nat_test = refl

-- Nothing is lost by printing: reading the digits of `n` in front of any text goes on with `n`.
read_digits-show_onto :
    (f n : ℕ) (t : String) → n < f → read_digits 0 (show_onto f n t) ≡ read_digits n t
unfolding show_onto read_digits digit
read_digits-show_onto zero n t h = elim h [ ]
read_digits-show_onto (suc f) n t h =
    ground (arith, read_digits-show_onto f (n / 10) (String.◌∷◌ (digit n) t))

show_onto-nonempty : (f n : ℕ) (t : String) → is_empty (show_onto (suc f) n t) ≡ false
unfolding show_onto
show_onto-nonempty zero n t = ground arith
show_onto-nonempty (suc f) n t =
    ground (arith, show_onto-nonempty f (n / 10) (String.◌∷◌ (digit n) t))

-- A printed number begins with a digit, and so with no sign.
strip_prefix-show_onto :
    (k : Char) (f n : ℕ) (t : String)
    → is_digit (code k) ≡ false
    → strip_prefix (String.◌∷◌ k "") (show_onto (suc f) n t) ≡ none
unfolding show_onto strip_prefix digit
strip_prefix-show_onto k zero n t h = ground arith
strip_prefix-show_onto k (suc f) n t h =
    ground (arith, strip_prefix-show_onto k f (n / 10) (String.◌∷◌ (digit n) t) h)

strip_prefix-show_nat :
    (k : Char) (n : ℕ)
    → is_digit (code k) ≡ false
    → strip_prefix (String.◌∷◌ k "") (show_nat n) ≡ none
unfolding show_nat
strip_prefix-show_nat k n h = strip_prefix-show_onto k n n "" h

show_onto-append : (f n : ℕ) (s t : String) → show_onto f n s <> t ≡ show_onto f n (s <> t)
unfolding show_onto
show_onto-append zero n s t = refl
show_onto-append (suc f) n s t =
    ground
      (arith, append.cons (digit n) s t, show_onto-append f (n / 10) (String.◌∷◌ (digit n) s) t)

pub read_digits-show_nat : (n : ℕ) (t : String) → read_digits 0 (show_nat n <> t) ≡ read_digits n t
unfolding show_nat
read_digits-show_nat n t =
    rw (show_onto-append (suc n) n "" t, append.nil t)
      (read_digits-show_onto (suc n) n t (omega arith))

pub read_nat-show_nat : (n : ℕ) → read_nat (show_nat n) ≡ some n
unfolding read_nat show_nat
read_nat-show_nat n =
    rw (read_digits-show_onto (suc n) n "" (omega arith), show_onto-nonempty n n "")

abbrev pub max_int64 : ℕ
max_int64 = 9223372036854775807

-- `strconv.Atoi`; `none` is its error, for what is no number and what is no int64.
unfoldable pub atoi : String → Option ℤ
unfolding read_nat strip_prefix
atoi s = elim (strip_prefix "-" s) [
  | some r ↦ elim (read_nat r) [
    | none ↦ none
    | some n ↦ if leb n (max_int64 + 1) then some (neg (pos n)) else none
  ]
  | none ↦
      let unsigned : String = elim (strip_prefix "+" s) [ none ↦ s | some r ↦ r ] in
      elim (read_nat unsigned) [
        | none ↦ none
        | some n ↦ if leb n max_int64 then some (pos n) else none
      ]
]

-- The range of Go's `int`.
abbrev pub IsInt64 : ℤ → Type 0
IsInt64 (pos n) = n ≤ max_int64
IsInt64 (negsuc n) = n ≤ max_int64

atoi_unsigned :
    (s : String) (n : ℕ)
    → strip_prefix "-" s ≡ none
    → strip_prefix "+" s ≡ none
    → read_nat s ≡ some n
    → n ≤ max_int64
    → atoi s ≡ some (pos n)
unfolding atoi
atoi_unsigned s n minus plus digits h = ground arith

atoi_negative :
    (s r : String) (n : ℕ)
    → strip_prefix "-" s ≡ some r
    → read_nat r ≡ some n
    → n ≤ max_int64 + 1
    → atoi s ≡ some (neg (pos n))
unfolding atoi
atoi_negative s r n minus digits h = ground arith

-- Every int64 that `fmt` prints is read back by `strconv.Atoi`.
pub atoi-show_int : (z : ℤ) → IsInt64 z → atoi (show_int z) ≡ some z
unfolding show_int
atoi-show_int (pos n) h =
    atoi_unsigned (show_nat n) n (strip_prefix-show_nat (char b'-' tt) n refl)
      (strip_prefix-show_nat (char b'+' tt) n refl) (read_nat-show_nat n) h
atoi-show_int (negsuc n) h =
    atoi_negative ("-" <> show_nat (suc n)) (show_nat (suc n)) (suc n)
      (strip_prefix-append "-" (show_nat (suc n))) (read_nat-show_nat (suc n)) (omega arith)
