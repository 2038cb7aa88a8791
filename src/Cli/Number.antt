-- ===== src/Cli/Number.antt =====
-- cli/cli_parser.c: `_str2int` and the printed form of a number.
use multithreading.Prelude.{
  ℕ, zero, suc, ◌+◌, ◌*◌, ◌/◌, ◌%◌, ◌^◌, ◌<◌, ◌≤◌, true, false, Option, some, List, [], ◌∷◌, ◌++◌,
  ◌==◌, ◌&&◌, if◌then◌else◌, ltb, length, length-append, take_all, map, ◌≡◌, refl, ap, ◌∙◌, arith,
  inl, inr, Bool-cases,
}
use multithreading.Cli.{between, w32, digits_loop, dec_digit, hex_digit, str2dec, str2int}

-- The digits of a number, at most `fuel` of them.
unfoldable pub digits : (base fuel n : ℕ) → List ℕ
digits base zero n = []
digits base (suc fuel) n =
    let rest = digits base fuel (n / base) in if ltb n base then n ∷ [] else rest ++ n % base ∷ []

-- The characters of digits.
abbrev pub dec_char : ℕ → ℕ
dec_char d = 48 + d

abbrev pub hex_char : ℕ → ℕ
hex_char d = if ltb d 10 then 48 + d else 87 + d

abbrev power : (base fuel : ℕ) → ℕ
power base zero = 1
power base (suc fuel) = base * power base fuel

abbrev Below : ℕ → List ℕ → Type 0
Below base [] = Unit
Below base (d ∷ ds) = (d < base) × Below base ds

Below-end : (base d : ℕ) (ds : List ℕ) → Below base ds → d < base → Below base (ds ++ d ∷ [])
Below-end base d [] b h = (h, tt)
Below-end base d (e ∷ ds) (c, b) h = (c, Below-end base d ds b h)

-- The loop on digits.
horner : (base value : ℕ) → List ℕ → ℕ
horner base value [] = value
horner base value (d ∷ ds) = horner base (w32 (w32 (value * base) + d)) ds

horner-append :
    (base value d : ℕ) (ds : List ℕ)
    → horner base value (ds ++ d ∷ []) ≡ w32 (w32 (horner base value ds * base) + d)
unfolding horner
horner-append base value d [] = refl
horner-append base value d (e ∷ ds) = horner-append base (w32 (w32 (value * base) + e)) d ds

digits_loop-horner :
    (base : ℕ) (digit : ℕ → Option ℕ) (char : ℕ → ℕ)
    → ((d : ℕ) → d < base → digit (char d) ≡ some d)
    → (value : ℕ) (ds : List ℕ) → Below base ds
    → digits_loop base digit value (map char ds) ≡ horner base value ds
unfolding horner digits_loop
digits_loop-horner base digit char h value [] b = refl
digits_loop-horner base digit char h value (d ∷ ds) (c, b) =
    rw (h d c) (digits_loop-horner base digit char h (w32 (w32 (value * base) + d)) ds b)

module _ (base : ℕ) (more : 0 < base)
    (put_back : (n : ℕ)
      → n < 2 ^ 32
      → (w32 (w32 (n / base * base) + n % base) ≡ n) × (n / base < 2 ^ 32) × (n % base < base))
    (shorter : (n m : ℕ) → n < base * m → n / base < m) where
  digits-Below : (fuel n : ℕ) → n < 2 ^ 32 → Below base (digits base fuel n)
  unfolding digits
  digits-Below zero n h = tt
  digits-Below (suc fuel) n h = elim (Bool-cases (ltb n base)) [
    | inl p ↦ rw p (ground arith, tt)
    | inr p ↦
        let (same, small, digit) = put_back n h in
        rw p (
          Below-end base (n % base) (digits base fuel (n / base))
            (digits-Below fuel (n / base) small) digit)
  ]

  length-digits : (fuel n : ℕ) → length (digits base fuel n) ≤ fuel
  unfolding digits
  length-digits zero n = omega arith
  length-digits (suc fuel) n = elim (Bool-cases (ltb n base)) [
    | inl p ↦ rw p (omega arith)
    | inr p ↦ rw p (
        omega (
          arith,
          length-append (digits base fuel (n / base)) (n % base ∷ []),
          length-digits fuel (n / base),
        ))
  ]

  horner-digits :
      (fuel n : ℕ) → n < 2 ^ 32 → n < power base fuel → horner base 0 (digits base fuel n) ≡ n
  unfolding horner digits
  horner-digits zero n h b = omega arith
  horner-digits (suc fuel) n h b = elim (Bool-cases (ltb n base)) [
    | inl p ↦ rw p (omega arith)
    | inr p ↦
        let (same, small, digit) = put_back n h in
        let rest = horner-digits fuel (n / base) small (shorter n (power base fuel) b) in
        rw (p, horner-append base 0 (n % base) (digits base fuel (n / base)), rest) same
  ]

dec_digit-char : (d : ℕ) → d < 10 → dec_digit (dec_char d) ≡ some d
dec_digit-char d h =
    let here : between 48 57 (48 + d) ≡ true = ground arith in rw here (ap some (omega arith))

hex_digit-char : (d : ℕ) → d < 16 → hex_digit (hex_char d) ≡ some d
hex_digit-char d h = elim (Bool-cases (ltb d 10)) [
  | inl p ↦
      let here : between 48 57 (48 + d) ≡ true = ground arith in
      rw (p, here) (ap some (omega arith))
  | inr p ↦
      let a : between 48 57 (87 + d) ≡ false = ground arith in
      let b : between 65 70 (87 + d) ≡ false = ground arith in
      let c : between 97 102 (87 + d) ≡ true = ground arith in
      rw (p, a, b, c) (ap some (ground arith))
]

length-map : (f : ℕ → ℕ) (xs : List ℕ) → length (map f xs) ≡ length xs
length-map f [] = refl
length-map f (x ∷ xs) = ap suc (length-map f xs)

str2dec-horner :
    (ds : List ℕ) → Below 10 ds → length ds ≤ 10 → str2dec (map dec_char ds) ≡ horner 10 0 ds
str2dec-horner ds b h =
    ap (λ cs. digits_loop 10 dec_digit 0 cs)
      (take_all 10 (map dec_char ds) (omega (arith, length-map dec_char ds)))
    ∙ digits_loop-horner 10 dec_digit dec_char dec_digit-char 0 ds b

-- A digit is no `x`.
str2int-dec : (ds : List ℕ) → Below 10 ds → str2int (map dec_char ds) ≡ str2dec (map dec_char ds)
str2int-dec [] b = refl
str2int-dec (c ∷ []) b = refl
str2int-dec (c ∷ d ∷ []) b = refl
str2int-dec (c ∷ d ∷ e ∷ ds) (bc, (bd, b)) =
    let other : ((48 + c == 48) && (48 + d == 120)) ≡ false = ground arith in rw other refl

str2int-hex :
    (ds : List ℕ)
    → Below 16 ds
    → length ds ≤ 8
    → str2int (48 ∷ 120 ∷ map hex_char ds) ≡ horner 16 0 ds
unfolding digits_loop horner
str2int-hex [] b h = refl
str2int-hex (d ∷ ds) b h =
    ap (λ cs. digits_loop 16 hex_digit 0 cs)
      (take_all 8 (map hex_char (d ∷ ds)) (omega (arith, length-map hex_char (d ∷ ds))))
    ∙ digits_loop-horner 16 hex_digit hex_char hex_digit-char 0 (d ∷ ds) b

dec_back :
    (n : ℕ)
    → n < 2 ^ 32
    → (w32 (w32 (n / 10 * 10) + n % 10) ≡ n) × (n / 10 < 2 ^ 32) × (n % 10 < 10)
dec_back n h = (omega arith, omega arith, omega arith)

hex_back :
    (n : ℕ)
    → n < 2 ^ 32
    → (w32 (w32 (n / 16 * 16) + n % 16) ≡ n) × (n / 16 < 2 ^ 32) × (n % 16 < 16)
hex_back n h = (omega arith, omega arith, omega arith)

dec_shorter : (n m : ℕ) → n < 10 * m → n / 10 < m
dec_shorter n m h = omega arith

hex_shorter : (n m : ℕ) → n < 16 * m → n / 16 < m
hex_shorter n m h = omega arith

-- `_str2int` reads back every 32-bit number from its decimal digits, and from its hexadecimal digits, in small
-- letters, behind `0x`.
pub str2int-digits :
    (n : ℕ)
    → n < 2 ^ 32
    → (str2int (map dec_char (digits 10 10 n)) ≡ n)
      × (str2int (48 ∷ 120 ∷ map hex_char (digits 16 8 n)) ≡ n)
str2int-digits n h =
    let ds = digits 10 10 n in
    let hs = digits 16 8 n in
    let b = digits-Below 10 (omega arith) dec_back dec_shorter 10 n h in
    let c = digits-Below 16 (omega arith) hex_back hex_shorter 8 n h in
    (
      str2int-dec ds b
          ∙ str2dec-horner ds b (length-digits 10 (omega arith) dec_back dec_shorter 10 n)
          ∙ horner-digits 10 (omega arith) dec_back dec_shorter 10 n h (omega arith),
      str2int-hex hs c (length-digits 16 (omega arith) hex_back hex_shorter 8 n)
          ∙ horner-digits 16 (omega arith) hex_back hex_shorter 8 n h (omega arith),
    )
