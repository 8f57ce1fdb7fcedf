-- ===== src/Auth/DeviceId/RoundTrip.antt =====
-- What `parse` accepts, and that it reads back what is generated and what is displayed.
use remotelink.Prelude.{
  ℕ, zero, suc, ◌+◌, ◌*◌, ◌-◌, ◌%◌, ◌^◌, ◌≤◌, ◌<◌, ◌≡◌, ◌↔◌, refl, true, false, List, [], ◌∷◌, ◌++◌,
  ok, arith, length, length-append, ap, sym, ◌∙◌, if◌then◌else◌, subst,
}
use mathlib.Core.List.{reverse, reverse-append}
use remotelink.Text.{is_whitespace, is_ascii_digit, all_digits, str_len-digits}
use remotelink.Auth.DeviceId.{
  DevicePublicId, strip, luhn_check_digit, luhn_loop, validate_luhn, parse, skip, first,
  display_grouped, generate_body, generate_with_rng, is_empty, total_digits,
}
use remotelink.Auth.DeviceId.Luhn.{
  luhn_loop-total, all_digits-append, all_digits-reverse, length-reverse,
}

pub record WellFormed (digits : List ℕ) : Type 0 where
  pub ten : length digits ≡ total_digits
  pub numeric : all_digits digits ≡ true
  pub checked : validate_luhn digits ≡ true

digit-not-space : (c : ℕ) → is_ascii_digit c ≡ true → is_whitespace c ≡ false
unfolding is_ascii_digit is_whitespace
digit-not-space c h = ground arith

pub strip-digits : (cs : List ℕ) → all_digits cs ≡ true → strip cs ≡ cs
unfolding strip all_digits
strip-digits [] h = refl
strip-digits (c ∷ cs) h = ground (arith, digit-not-space c, strip-digits cs)

strip-append : (xs ys : List ℕ) → strip (xs ++ ys) ≡ strip xs ++ strip ys
unfolding strip
strip-append [] ys = refl
strip-append (x ∷ xs) ys = ground (arith, strip-append xs ys)

parsed :
    (input digits : List ℕ)
    → parse input ≡ ok (record { digits = digits })
    → (strip input ≡ digits) × WellFormed digits
unfolding parse
parsed input digits e =
    let same : strip input ≡ digits = ground (arith, e) in
    (
      same,
      subst WellFormed same (record {
        ten = ground (arith, e, str_len-digits (strip input));
        numeric = ground (arith, e);
        checked = ground (arith, e);
      }),
    )

-- `parse` succeeds exactly on the texts that, without blanks, dashes and underscores, are ten
-- decimal digits with a correct check digit, and returns those digits.
pub parse_iff :
    (input digits : List ℕ)
    → (parse input ≡ ok (record { digits = digits })) ↔ ((strip input ≡ digits) × WellFormed digits)
unfolding parse
parse_iff input digits =
    (parsed input digits, λ (e, w). ground (arith, e, w, str_len-digits (strip input)))

generate_body_lem :
    (draw : ℕ → ℕ → ℕ)
    → ((i n : ℕ) → 0 < n → draw i n < n)
    → (rounds i : ℕ) (body : List ℕ) → all_digits body ≡ true
    → (all_digits (generate_body draw rounds i body) ≡ true)
      × (length (generate_body draw rounds i body) ≡ rounds + length body)
unfolding generate_body all_digits
generate_body_lem draw range zero i body h = (h, omega arith)
generate_body_lem draw range (suc rounds) i body h =
    let c = if is_empty body then b'1' + draw i 9 else b'0' + draw i 10 in
    let more = generate_body_lem draw range rounds (i + 1) (body ++ (c ∷ [])) in
    let numeric : all_digits (body ++ (c ∷ [])) ≡ true =
      ground (arith, h, range i 9, range i 10, all_digits-append body (c ∷ [])) in
    ((more numeric).0, omega (arith, (more numeric).1, length-append body (c ∷ [])))

is_empty-snoc : (xs : List ℕ) (x : ℕ) → is_empty (xs ++ (x ∷ [])) ≡ false
is_empty-snoc [] x = refl
is_empty-snoc (y ∷ ys) x = refl

-- A text of digits with its check digit is valid.
check-valid :
    (body : List ℕ) (check : ℕ)
    → 9 * length body + 9 < 2 ^ 32
    → luhn_check_digit body ≡ ok check
    → (all_digits (body ++ ((b'0' + check) ∷ [])) ≡ true)
      × (validate_luhn (body ++ ((b'0' + check) ∷ [])) ≡ true)
unfolding luhn_check_digit validate_luhn
check-valid body check fits e =
    let x = b'0' + check in
    let full : List ℕ = body ++ (x ∷ []) in
    ground (
      arith,
      e,
      all_digits-append body (x ∷ []),
      is_empty-snoc body x,
      reverse-append body (x ∷ []),
      luhn_loop-total true 0 (reverse body),
      luhn_loop-total true check (reverse body),
      all_digits-reverse body,
      length-reverse body,
    )

-- What is generated is read back: from draws within their ranges, `generate_with_rng` makes an id
-- of ten digits with a correct check digit, and `parse` returns it.
pub generate-parse :
    (draw : ℕ → ℕ → ℕ)
    → ((i n : ℕ) → 0 < n → draw i n < n)
    → (id : DevicePublicId) × (generate_with_rng draw ≡ ok id)
      × WellFormed id.digits
      × (parse id.digits ≡ ok id)
unfolding generate_with_rng
generate-parse draw range =
    let body = generate_body draw 9 0 [] in
    let (numeric, nine) = generate_body_lem draw range 9 0 [] (unfold all_digits in refl) in
    let check = (10 - luhn_loop true 0 (reverse body) % 10) % 10 in
    let full : List ℕ = body ++ ((b'0' + check) ∷ []) in
    let made : luhn_check_digit body ≡ ok check =
      unfold luhn_check_digit in ground (arith, numeric, nine) in
    let (digits, valid) = check-valid body check (omega (arith, nine)) made in
    let w : WellFormed full = record {
      ten = omega (arith, nine, length-append body ((b'0' + check) ∷ []));
      numeric = digits;
      checked = valid;
    } in
    (
      record { digits = full },
      rw (made, generate_with_rng),
      w,
      (parse_iff full full).1 (strip-digits full digits, w),
    )

first-append-skip : (n : ℕ) (cs : List ℕ) → first n cs ++ skip n cs ≡ cs
unfolding first skip
first-append-skip zero cs = refl
first-append-skip (suc n) [] = refl
first-append-skip (suc n) (c ∷ cs) = ap (◌∷◌ c) (first-append-skip n cs)

skip_six : (cs : List ℕ) → skip 3 (skip 3 cs) ≡ skip 6 cs
unfolding skip
skip_six [] = refl
skip_six (a ∷ []) = refl
skip_six (a ∷ b ∷ []) = refl
skip_six (a ∷ b ∷ c ∷ cs) = refl

first_all : (n : ℕ) (cs : List ℕ) → length cs ≤ n → first n cs ≡ cs
unfolding first
first_all zero [] h = refl
first_all zero (c ∷ cs) h = absurd (omega arith)
first_all (suc n) [] h = refl
first_all (suc n) (c ∷ cs) h = ap (◌∷◌ c) (first_all n cs (omega arith))

length-skip : (n : ℕ) (cs : List ℕ) → length (skip n cs) ≡ length cs - n
unfolding skip
length-skip zero cs = omega arith
length-skip (suc n) [] = omega arith
length-skip (suc n) (c ∷ cs) = omega (arith, length-skip n cs)

-- The three groups make up the ten digits.
groups :
    (cs : List ℕ) → length cs ≡ 10 → first 3 cs ++ (first 3 (skip 3 cs) ++ first 4 (skip 6 cs)) ≡ cs
groups cs ten =
    let last : first 4 (skip 6 cs) ≡ skip 6 cs =
      first_all 4 (skip 6 cs) (omega (arith, length-skip 6 cs)) in
    rw (last, ← skip_six cs, first-append-skip 3 (skip 3 cs)) (first-append-skip 3 cs)

strip_space : (cs : List ℕ) → strip (32 ∷ cs) ≡ strip cs
unfolding strip
strip_space cs = refl

-- A displayed id, in its groups of three, three and four digits, is read back as the same id.
pub parse-display_grouped :
    (id : DevicePublicId) → WellFormed id.digits → parse (display_grouped id) ≡ ok id
unfolding display_grouped
parse-display_grouped id w = (parse_iff (display_grouped id) id.digits).1 (stripped, w)
  where
    stripped : strip (display_grouped id) ≡ id.digits
    stripped =
        let d = id.digits in
        let spaced = 32 ∷ first 4 (skip 6 d) in
        strip-append (first 3 d) (32 ∷ (first 3 (skip 3 d) ++ spaced))
        ∙ ap (◌++◌ (strip (first 3 d))) (
            strip_space (first 3 (skip 3 d) ++ spaced)
            ∙ strip-append (first 3 (skip 3 d)) spaced
            ∙ ap (◌++◌ (strip (first 3 (skip 3 d)))) (strip_space (first 4 (skip 6 d)))
            ∙ sym (strip-append (first 3 (skip 3 d)) (first 4 (skip 6 d))))
        ∙ sym (strip-append (first 3 d) (first 3 (skip 3 d) ++ first 4 (skip 6 d)))
        ∙ ap strip (groups d w.ten)
        ∙ strip-digits d w.numeric
