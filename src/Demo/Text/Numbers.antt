-- ===== src/Demo/Text/Numbers.antt =====
-- Numbers that are printed and read back.
use coroutine_transaction.Base.{
  append-nil, append_assoc, ℕ, zero, suc, ◌+◌, ◌-◌, ◌*◌, ◌/◌, ◌%◌, ◌^◌, ◌<◌, ◌≤◌, ◌≡◌, ◌∙◌, refl,
  sym, ap, inl, inr, true, false, List, [], ◌∷◌, ◌++◌, pos, All, Bool-cases, ltb, ◌==◌, arith,
}
use coroutine_transaction.Demo.Text.{
  is_space, is_digit, is_nil, skip_spaces, trim_end, trim, ok, throws, invalid_argument,
  scan_digits, scan_number, strto_unsigned, strto_signed, digits, to_string, words_from,
}

abbrev pub Spaces : List ℕ → Type 0
Spaces cs = All (λ c. is_space c ≡ true) cs

abbrev pub Digits : List ℕ → Type 0
Digits cs = All (λ c. is_digit c ≡ true) cs

abbrev pub pow10 : ℕ → ℕ
pow10 zero = 1
pow10 (suc n) = 10 * pow10 n

-- A word that is not empty and has digits only.
abbrev pub Numeral : List ℕ → Type 0
Numeral cs = (is_nil cs ≡ false) × Digits cs

digit_space : (c : ℕ) → is_digit c ≡ true → is_space c ≡ false
digit_space c h = ground arith

-- A word has no spaces.
abbrev pub Word : List ℕ → Type 0
Word cs = All (λ c. is_space c ≡ false) cs

Digits-Word : (cs : List ℕ) → Digits cs → Word cs
Digits-Word [] h = tt
Digits-Word (c ∷ cs) (h, hs) = (digit_space c h, Digits-Word cs hs)

Digits-append : (xs ys : List ℕ) → Digits xs → Digits ys → Digits (xs ++ ys)
Digits-append [] ys h k = k
Digits-append (x ∷ xs) ys (h, hs) k = (h, Digits-append xs ys hs k)

is_nil-append : (xs : List ℕ) (y : ℕ) → is_nil (xs ++ (y ∷ [])) ≡ false
is_nil-append [] y = refl
is_nil-append (x ∷ xs) y = refl

more_fuel : (fuel n : ℕ) → n < pow10 (suc fuel) → ltb n 10 ≡ false → 0 < fuel
more_fuel zero n h b = absurd (ground arith)
more_fuel (suc fuel) n h b = omega arith

digits-Numeral : (fuel n : ℕ) → n < pow10 fuel → 0 < fuel → Numeral (digits fuel n)
unfolding digits
digits-Numeral zero n h k = absurd (omega arith)
digits-Numeral (suc fuel) n h k = elim (Bool-cases (ltb n 10)) [
  | inl b ↦ rw b (refl, (ground arith, tt))
  | inr b ↦
      let f = more_fuel fuel n h b in
      let (_, ds) = digits-Numeral fuel (n / 10) (ground arith) f in
      rw b (
        is_nil-append (digits fuel (n / 10)) (48 + n % 10),
        Digits-append (digits fuel (n / 10)) _ ds (ground arith, tt),
      )
]

scan_step :
    (n m c : ℕ) (cs : List ℕ)
    → is_digit c ≡ true
    → n * 10 + (c - 48) ≡ m
    → scan_digits n (c ∷ cs) ≡ scan_digits m cs
unfolding scan_digits
scan_step n m c cs d e = rw (d, scan_digits, e) refl

scan_digits-digits :
    (fuel n : ℕ) (rest : List ℕ)
    → n < pow10 fuel
    → 0 < fuel
    → scan_digits 0 (digits fuel n ++ rest) ≡ scan_digits n rest
unfolding digits
scan_digits-digits zero n rest h k = absurd (omega arith)
scan_digits-digits (suc fuel) n rest h k = elim (Bool-cases (ltb n 10)) [
  | inl b ↦ rw b (scan_step 0 n (48 + n) rest (ground arith) (omega arith))
  | inr b ↦
      let f = more_fuel fuel n h b in
      rw (b, append_assoc (digits fuel (n / 10)) ((48 + n % 10) ∷ []) rest)
        (scan_digits-digits fuel (n / 10) ((48 + n % 10) ∷ rest) (ground arith) f
          ∙ scan_step (n / 10) n (48 + n % 10) rest (ground arith) (omega arith))
]

pub to_string-Numeral : (n : ℕ) → n < 2 ^ 64 → Numeral (to_string n)
unfolding to_string
to_string-Numeral n h = digits-Numeral 20 n (omega arith) (omega arith)

-- Spaces around a numeral are dropped.
skip_spaces-append : (sp cs : List ℕ) → Spaces sp → skip_spaces (sp ++ cs) ≡ skip_spaces cs
unfolding skip_spaces
skip_spaces-append [] cs h = refl
skip_spaces-append (c ∷ sp) cs (h, hs) = rw h (skip_spaces-append sp cs hs)

trim_end-Spaces : (sp : List ℕ) → Spaces sp → trim_end sp ≡ []
unfolding trim_end
trim_end-Spaces [] h = refl
trim_end-Spaces (c ∷ sp) (h, hs) = rw (h, trim_end-Spaces sp hs) refl

trim_end-append : (w sp : List ℕ) → Word w → Spaces sp → trim_end (w ++ sp) ≡ w
unfolding trim_end
trim_end-append [] sp h k = trim_end-Spaces sp k
trim_end-append (c ∷ w) sp (h, hs) k = rw (h, trim_end-append w sp hs k) refl

-- A word that starts with a digit.
skip_spaces-digit : (c : ℕ) (cs : List ℕ) → is_digit c ≡ true → skip_spaces (c ∷ cs) ≡ c ∷ cs
unfolding skip_spaces
skip_spaces-digit c cs h = rw (digit_space c h) refl

trim-Numeral :
    (sp w sp' : List ℕ) → Spaces sp → Numeral w → Spaces sp' → trim (sp ++ (w ++ sp')) ≡ w
unfolding trim
trim-Numeral sp [] sp' h (z, _) k = cc z
trim-Numeral sp (c ∷ w) sp' h (_, (d, ds)) k =
    ap trim_end (skip_spaces-append sp (c ∷ (w ++ sp')) h ∙ skip_spaces-digit c (w ++ sp') d)
    ∙ trim_end-append (c ∷ w) sp' (Digits-Word (c ∷ w) (d, ds)) k

scan_number-Numeral :
    (w : List ℕ) (n : ℕ) → Numeral w → scan_digits 0 w ≡ (n, []) → scan_number w ≡ (false, n, [])
unfolding scan_number
scan_number-Numeral [] n (z, _) e = cc z
scan_number-Numeral (c ∷ w) n (_, (d, ds)) e =
    let a : (c == 45) ≡ false = ground arith in
    let b : (c == 43) ≡ false = ground arith in rw (skip_spaces-digit c w d, a, b, d, e) refl

scan_digits-to_string : (n : ℕ) → n < 2 ^ 64 → scan_digits 0 (to_string n) ≡ (n, [])
unfolding to_string scan_digits
scan_digits-to_string n h =
    ap (scan_digits 0) (sym (append-nil (digits 20 n)))
    ∙ scan_digits-digits 20 n [] (omega arith) (omega arith)

module _ (bits n : ℕ) (sp sp' : List ℕ) (h : Spaces sp) (k : Spaces sp') where
  -- A number that is printed and read back as a number of its type, with spaces around it, is the
  -- number, for unsigned types of up to 64 bits.
  pub strto_unsigned-to_string :
      n < 2 ^ bits → 2 ^ bits ≤ 2 ^ 64 → strto_unsigned bits (sp ++ (to_string n ++ sp')) ≡ ok n
  unfolding strto_unsigned
  strto_unsigned-to_string lt le =
      let small : n < 2 ^ 64 = omega (arith) in
      let num = to_string-Numeral n small in
      let a : ltb (2 ^ 64 - 1) n ≡ false = ground arith in
      let b : ltb (2 ^ bits - 1) n ≡ false = ground arith in
      rw
        (
          trim-Numeral sp (to_string n) sp' h num k,
          num.0,
          scan_number-Numeral (to_string n) n num (scan_digits-to_string n small),
          a,
          b,
        )
        refl

  pub strto_signed-to_string :
      n < 2 ^ (bits - 1)
      → 2 ^ (bits - 1) ≤ 2 ^ 63
      → strto_signed bits (sp ++ (to_string n ++ sp')) ≡ ok (pos n)
  unfolding strto_signed
  strto_signed-to_string lt le =
      let small : n < 2 ^ 64 = omega (arith) in
      let num = to_string-Numeral n small in
      let a : ltb (2 ^ 63 - 1) n ≡ false = ground arith in
      let b : ltb (2 ^ (bits - 1) - 1) n ≡ false = ground arith in
      rw
        (
          trim-Numeral sp (to_string n) sp' h num k,
          num.0,
          scan_number-Numeral (to_string n) n num (scan_digits-to_string n small),
          a,
          b,
        )
        refl

-- What strto returns is a number of its type.
pub strto_unsigned-lt :
    (bits v : ℕ) (str : List ℕ) → 0 < 2 ^ bits → strto_unsigned bits str ≡ ok v → v < 2 ^ bits
unfolding strto_unsigned
strto_unsigned-lt bits v str p h = ground arith

pub to_string-Word : (n : ℕ) → n < 2 ^ 64 → Word (to_string n)
to_string-Word n h = Digits-Word (to_string n) (to_string-Numeral n h).1

pub words_from-Word :
    (cur w rest : List ℕ) → Word w → words_from cur (w ++ rest) ≡ words_from (cur ++ w) rest
unfolding words_from
words_from-Word cur [] rest h = ap (λ c. words_from c rest) (sym (append-nil cur))
words_from-Word cur (c ∷ w) rest (h, hs) =
    rw (h, words_from)
      (words_from-Word (cur ++ (c ∷ [])) w rest hs
        ∙ ap (λ t. words_from t rest) (append_assoc cur (c ∷ []) w))

-- A word and a space, and a word at the end.
pub words_from-space :
    (w rest : List ℕ)
    → Word w
    → is_nil w ≡ false
    → words_from [] (w ++ (32 ∷ rest)) ≡ w ∷ words_from [] rest
unfolding words_from
words_from-space w rest h k = words_from-Word [] w (32 ∷ rest) h ∙ (rw k refl)

pub words_from-last : (w : List ℕ) → Word w → is_nil w ≡ false → words_from [] w ≡ w ∷ []
unfolding words_from
words_from-last w h k =
    ap (words_from []) (sym (append-nil w)) ∙ (words_from-Word [] w [] h ∙ (rw k refl))

-- A word that begins neither with a digit nor with a sign is no number.
pub strto_unsigned_not_number :
    (bits c : ℕ) (w : List ℕ)
    → Word (c ∷ w)
    → is_digit c ≡ false
    → (c == 45) ≡ false
    → (c == 43) ≡ false
    → strto_unsigned bits (c ∷ w) ≡ throws invalid_argument
unfolding strto_unsigned trim scan_number skip_spaces
strto_unsigned_not_number bits c w (h, hs) d m p =
    let t : trim_end (c ∷ w) ≡ c ∷ w =
      ap trim_end (sym (append-nil (c ∷ w))) ∙ trim_end-append (c ∷ w) [] (h, hs) tt in
    rw (h, t, h, m, p, d) refl
