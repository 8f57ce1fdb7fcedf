-- ===== src/Auth/DeviceId/Luhn.antt =====
-- The Luhn sum as plain arithmetic, and what the check digit detects.
use remotelink.Prelude.{
  ℕ, ◌+◌, ◌-◌, ◌*◌, ◌%◌, ◌^◌, ◌≤◌, ◌<◌, ◌≡◌, refl, Bool, true, false, not, ◌&&◌, List, [], ◌∷◌,
  ◌++◌, arith, length, length-append,
}
use mathlib.Core.List.{reverse, reverse-append, reverse-cons, append_assoc}
use remotelink.Text.{is_ascii_digit, all_digits}
use remotelink.Auth.DeviceId.{luhn_digit, luhn_loop, validate_luhn}

-- The sum with no machine word: every other digit is doubled, starting from the first if `double`.
unfoldable pub luhn_total : Bool → List ℕ → ℕ
luhn_total double [] = 0
luhn_total double (c ∷ cs) = luhn_digit double (c - b'0') + luhn_total (not double) cs

abbrev flips : List ℕ → Bool → Bool
flips [] b = b
flips (c ∷ cs) b = flips cs (not b)

luhn_digit-le : (double : Bool) (c : ℕ) → is_ascii_digit c ≡ true → luhn_digit double (c - b'0') ≤ 9
unfolding luhn_digit is_ascii_digit
luhn_digit-le false c h = ground arith
luhn_digit-le true c h = ground arith

pub luhn_loop-total :
    (double : Bool) (sum : ℕ) (cs : List ℕ)
    → all_digits cs ≡ true
    → sum + 9 * length cs < 2 ^ 32
    → luhn_loop double sum cs ≡ sum + luhn_total double cs
unfolding luhn_loop all_digits luhn_total
luhn_loop-total double sum [] h fits = omega arith
luhn_loop-total double sum (c ∷ cs) h fits = ground (
  arith,
  luhn_digit-le double c,
  luhn_loop-total (not double) ((sum + luhn_digit double (c - b'0')) % 2 ^ 32) cs,
)

luhn_total-append :
    (double : Bool) (xs ys : List ℕ)
    → luhn_total double (xs ++ ys) ≡ luhn_total double xs + luhn_total (flips xs double) ys
unfolding luhn_total
luhn_total-append double [] ys = omega arith
luhn_total-append double (x ∷ xs) ys = omega (arith, luhn_total-append (not double) xs ys)

pub all_digits-append : (xs ys : List ℕ) → all_digits (xs ++ ys) ≡ (all_digits xs && all_digits ys)
unfolding all_digits
all_digits-append [] ys = refl
all_digits-append (x ∷ xs) ys = ground (arith, all_digits-append xs ys)

pub all_digits-reverse : (xs : List ℕ) → all_digits (reverse xs) ≡ all_digits xs
unfolding all_digits
all_digits-reverse [] = refl
all_digits-reverse (x ∷ xs) =
    rw (reverse-cons x xs)
      (ground (arith, all_digits-append (reverse xs) (x ∷ []), all_digits-reverse xs))

pub length-reverse : (xs : List ℕ) → length (reverse xs) ≡ length xs
length-reverse [] = refl
length-reverse (x ∷ xs) =
    rw (reverse-cons x xs) (omega (arith, length-append (reverse xs) (x ∷ []), length-reverse xs))

-- A digit's share determines the digit.
luhn_digit_inj :
    (double : Bool) (a b t : ℕ)
    → is_ascii_digit a ≡ true
    → is_ascii_digit b ≡ true
    → (luhn_digit double (a - b'0') + t) % 10 ≡ (luhn_digit double (b - b'0') + t) % 10
    → a ≡ b
unfolding luhn_digit is_ascii_digit
luhn_digit_inj false a b t h k e = ground arith
luhn_digit_inj true a b t h k e = ground arith

-- `validate_luhn` in terms of the plain sum.
pub validate_luhn_total :
    (full : List ℕ)
    → 9 * length full < 2 ^ 32
    → validate_luhn full ≡ true
    → (all_digits full ≡ true) × (luhn_total false (reverse full) % 10 ≡ 0)
unfolding validate_luhn
validate_luhn_total full fits h =
    ground
      (arith, all_digits-reverse full, length-reverse full, luhn_loop-total false 0 (reverse full))

reverse_middle :
    (xs ys : List ℕ) (a : ℕ) → reverse (xs ++ (a ∷ ys)) ≡ reverse ys ++ (a ∷ reverse xs)
reverse_middle xs ys a =
    rw (reverse-append xs (a ∷ ys), reverse-cons a ys)
      (append_assoc (reverse ys) (a ∷ []) (reverse xs))

-- The total around one digit.
total_middle :
    (xs ys : List ℕ) (a : ℕ)
    → luhn_total false (reverse (xs ++ (a ∷ ys)))
      ≡ luhn_digit (flips (reverse ys) false) (a - b'0')
        + (luhn_total false (reverse ys) + luhn_total (not (flips (reverse ys) false)) (reverse xs))
unfolding luhn_total
total_middle xs ys a =
    rw (reverse_middle xs ys a)
      (omega (arith, luhn_total-append false (reverse ys) (a ∷ reverse xs)))

middle_digit :
    (xs ys : List ℕ) (a : ℕ) → all_digits (xs ++ (a ∷ ys)) ≡ true → is_ascii_digit a ≡ true
unfolding all_digits
middle_digit xs ys a h = ground (arith, all_digits-append xs (a ∷ ys))

-- The check digit detects every single wrong digit: two valid texts that differ in one place at
-- most are the same. (Texts of this many digits do not overflow the 32-bit sum.)
pub validate_luhn_single :
    (xs ys : List ℕ) (a b : ℕ)
    → 9 * length (xs ++ (a ∷ ys)) < 2 ^ 32
    → validate_luhn (xs ++ (a ∷ ys)) ≡ true
    → validate_luhn (xs ++ (b ∷ ys)) ≡ true
    → a ≡ b
validate_luhn_single xs ys a b fits h k =
    let place = flips (reverse ys) false in
    let same_length : length (xs ++ (b ∷ ys)) ≡ length (xs ++ (a ∷ ys)) =
      omega (arith, length-append xs (a ∷ ys), length-append xs (b ∷ ys)) in
    let (da, ta) = validate_luhn_total (xs ++ (a ∷ ys)) fits h in
    let (db, tb) = validate_luhn_total (xs ++ (b ∷ ys)) (omega (arith, same_length)) k in
    luhn_digit_inj place a b (luhn_total false (reverse ys) + luhn_total (not place) (reverse xs))
      (middle_digit xs ys a da) (middle_digit xs ys b db)
      (omega (arith, ta, tb, total_middle xs ys a, total_middle xs ys b))
