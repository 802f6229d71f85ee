-- ===== src/Demo/Text.antt =====
-- Text as the codes of its characters: Utils::trim and Utils::strto of demo/utils.h, and what they use of
-- the standard library (isspace, strtoull and strtoll at base 10, std::to_string).
pub mod Numbers
use Prim.Native.Char.{code}
use Prim.Native.String.{String}
use coroutine_transaction.Base.{
  ℕ, zero, suc, ◌+◌, ◌-◌, ◌*◌, ◌/◌, ◌%◌, ◌^◌, Bool, true, false, not, ◌&&◌, ◌||◌, List, [], ◌∷◌,
  ◌++◌, ℤ, pos, negsuc, ltb, leb, ◌==◌, if◌then◌else◌,
}

abbrev pub codes : String → List ℕ
codes String.[] = []
codes (String.◌∷◌ c s) = code c ∷ codes s

-- std::isspace.
abbrev pub is_space : ℕ → Bool
is_space c = c == 32 || (leb 9 c && leb c 13)

abbrev pub is_digit : ℕ → Bool
is_digit c = leb 48 c && leb c 57

abbrev pub is_nil : List ℕ → Bool
is_nil [] = true
is_nil (_ ∷ _) = false

unfoldable pub skip_spaces : List ℕ → List ℕ
skip_spaces [] = []
skip_spaces (c ∷ cs) = if is_space c then skip_spaces cs else c ∷ cs

unfoldable pub trim_end : List ℕ → List ℕ
trim_end [] = []
trim_end (c ∷ cs) = let rest = trim_end cs in if is_space c && is_nil rest then [] else c ∷ rest

-- Utils::trim.
unfoldable pub trim : List ℕ → List ℕ
unfolding skip_spaces trim_end
trim cs = trim_end (skip_spaces cs)

-- What std::invalid_argument and std::out_of_range say.
pub data StrtoError : Type 0 where
  invalid_argument out_of_range : StrtoError

pub data Strto (A : Type 0) : Type 0 where
  ok : A → Strto A
  throws : StrtoError → Strto A

-- The digits at the front, as a number, and what follows them.
unfoldable pub scan_digits : ℕ → List ℕ → ℕ × List ℕ
scan_digits n [] = (n, [])
scan_digits n (c ∷ cs) = elim (is_digit c) [
  | true ↦ scan_digits (n * 10 + (c - 48)) cs
  | false ↦ (n, c ∷ cs)
]

abbrev pub sign : List ℕ → Bool × List ℕ
sign [] = (false, [])
sign (c ∷ cs) = if c == 45 then (true, cs) else if c == 43 then (false, cs) else (false, c ∷ cs)

abbrev pub starts_digit : List ℕ → Bool
starts_digit [] = false
starts_digit (c ∷ _) = is_digit c

-- strtoull and strtoll before their limits: the sign, the number and the characters at `end`.
unfoldable pub scan_number : List ℕ → Bool × ℕ × List ℕ
unfolding skip_spaces scan_digits
scan_number cs =
    let (negative, ds) = sign (skip_spaces cs) in
    if starts_digit ds
    then (let (n, rest) = scan_digits 0 ds in (negative, n, rest))
    else (false, 0, cs)

-- `static_cast<unsigned long long>(-n)` is what strtoull makes of a minus sign.
abbrev pub strtoull_value : Bool → ℕ → ℕ
strtoull_value negative n = if negative then (2 ^ 64 - n) % 2 ^ 64 else n

-- Utils::strto of an unsigned type of `bits` bits, behind the scan.
abbrev pub strto_unsigned_of : ℕ → Bool × ℕ × List ℕ → Strto ℕ
strto_unsigned_of bits (negative, n, rest) =
    if not (is_nil rest)
    then throws invalid_argument
    else if ltb (2 ^ 64 - 1) n
    then throws out_of_range
    else if ltb (2 ^ bits - 1) (strtoull_value negative n)
    then throws out_of_range
    else ok (strtoull_value negative n)

unfoldable pub strto_unsigned : ℕ → List ℕ → Strto ℕ
unfolding trim scan_number
strto_unsigned bits str =
    let s = trim str in
    if is_nil s then throws invalid_argument else strto_unsigned_of bits (scan_number s)

abbrev pub minus : ℕ → ℤ
minus zero = pos 0
minus (suc n) = negsuc n

-- Utils::strto of a signed type of `bits` bits, behind the scan.
abbrev pub strto_signed_of : ℕ → Bool × ℕ × List ℕ → Strto ℤ
strto_signed_of bits (negative, n, rest) =
    if not (is_nil rest)
    then throws invalid_argument
    else if ltb (if negative then 2 ^ 63 else 2 ^ 63 - 1) n
    then throws out_of_range
    else if ltb (if negative then 2 ^ (bits - 1) else 2 ^ (bits - 1) - 1) n
    then throws out_of_range
    else ok (if negative then minus n else pos n)

pub strto_signed : ℕ → List ℕ → Strto ℤ
unfolding trim scan_number
strto_signed bits str =
    let s = trim str in
    if is_nil s then throws invalid_argument else strto_signed_of bits (scan_number s)

-- std::to_string; 20 digits are enough for a u64.
pub digits : ℕ → ℕ → List ℕ
digits zero n = []
digits (suc fuel) n =
    let more = digits fuel (n / 10) in
    if ltb n 10 then (48 + n) ∷ [] else more ++ ((48 + n % 10) ∷ [])

pub to_string : ℕ → List ℕ
unfolding digits
to_string n = digits 20 n

abbrev pub to_string_signed : ℤ → List ℕ
to_string_signed (pos n) = to_string n
to_string_signed (negsuc n) = 45 ∷ to_string (suc n)

-- `while (ss >> one)`: the words between the spaces.
pub words_from : List ℕ → List ℕ → List (List ℕ)
words_from word [] = if is_nil word then [] else word ∷ []
words_from word (c ∷ cs) = elim (is_space c) [
  | true ↦ if is_nil word then words_from [] cs else word ∷ words_from [] cs
  | false ↦ words_from (word ++ (c ∷ [])) cs
]

unfoldable pub words : List ℕ → List (List ℕ)
unfolding words_from
words cs = words_from [] cs
