-- ===== src/Simulation/Text.antt =====
-- fmt.Printf with `%d` and fmt.Scan into an `int`, as gen.go and main.go use them. A text is the list
-- of its codes. Underscores, the prefixes of other bases than ten (0x, and 0 before a digit) and
-- numbers that do not fit into an `int` are left out.
use async_agreement_protocol.Base.{
  ℕ, zero, suc, ◌+◌, ◌-◌, ◌*◌, ◌/◌, ◌%◌, ◌≤◌, ◌<◌, ◌≡◌, refl, sym, ap, ◌∙◌, inl, inr, Bool-cases,
  Bool, true, false, ◌&&◌, ◌||◌, Option, none, some, List, [], ◌∷◌, ltb, leb, eqb, if◌then◌else◌,
  arith,
}
use async_agreement_protocol.Base.Int.{ℤ, pos, negsuc}

abbrev pub Text : Type 0
Text = List ℕ

abbrev pub space : ℕ
space = b' '

abbrev pub newline : ℕ
newline = b'\n'

-- The decimal digits of a number in front of `tail`; `fuel` bounds their number.
unfoldable pub print_digits : ℕ → ℕ → Text → Text
print_digits zero k tail = tail
print_digits (suc fuel) k tail =
    let longer = print_digits fuel (k / 10) ((b'0' + k % 10) ∷ tail) in
    if ltb k 10 then (b'0' + k) ∷ tail else longer

-- Printf of a number that is not negative with `%d`, in front of what is printed next.
unfoldable pub print_number : ℕ → Text → Text
print_number k tail = print_digits (suc k) k tail

abbrev is_space : ℕ → Bool
is_space c = eqb c space || leb 9 c && leb c 13

abbrev pub is_digit : ℕ → Bool
is_digit c = leb b'0' c && leb c b'9'

unfoldable pub skip_spaces : Text → Text
skip_spaces [] = []
skip_spaces (c ∷ text) = if is_space c then skip_spaces text else c ∷ text

unfoldable pub read_digits : ℕ → Text → ℕ × Text
read_digits acc [] = (acc, [])
read_digits acc (c ∷ text) =
    let more = read_digits (acc * 10 + (c - b'0')) text in
    if is_digit c then more else (acc, c ∷ text)

abbrev negated : ℕ → ℤ
negated zero = pos 0
negated (suc k) = negsuc k

abbrev with_sign : (ℕ → ℤ) → ℕ × Text → Option ℤ × Text
with_sign sign (k, text) = (some (sign k), text)

-- At least one digit has to follow the sign.
unfoldable pub scan_digits : (ℕ → ℤ) → Text → Option ℤ × Text
scan_digits sign [] = (none, [])
scan_digits sign (c ∷ text) =
    if is_digit c then with_sign sign (read_digits 0 (c ∷ text)) else (none, c ∷ text)

unfoldable pub scan_signed : Text → Option ℤ × Text
scan_signed [] = (none, [])
scan_signed (c ∷ text) =
    if eqb c b'-'
    then scan_digits negated text
    else if eqb c b'+'
    then scan_digits pos text
    else scan_digits pos (c ∷ text)

-- One operand of Scan: the number, `none` for an error, and the text that is left.
unfoldable pub scan_number : Text → Option ℤ × Text
scan_number text = scan_signed (skip_spaces text)

-- At its end, a call of Scan on os.Stdin loses the character that it has looked at last.
abbrev pub end_call : Text → Text
end_call [] = []
end_call (c ∷ text) = text

read_digits-digit :
    (acc d m : ℕ) (tail : Text)
    → d < 10
    → m ≡ acc * 10 + d
    → read_digits acc ((b'0' + d) ∷ tail) ≡ read_digits m tail
unfolding read_digits
read_digits-digit acc d m tail h e = ground (arith, h, e)

-- What is printed of a number is read as this number.
read_digits-print_digits :
    (fuel k : ℕ) (tail : Text)
    → k < fuel
    → read_digits 0 (print_digits fuel k tail) ≡ read_digits k tail
unfolding print_digits
read_digits-print_digits zero k tail h = absurd (omega (arith, h))
read_digits-print_digits (suc fuel) k tail h = elim (Bool-cases (ltb k 10)) [
  | inl e ↦ rw e (read_digits-digit 0 k k tail (ground (arith, e)) (omega arith))
  | inr e ↦
      let ten : 10 ≤ k = ground (arith, e) in
      rw e (
        read_digits-print_digits fuel (k / 10) _ (omega (arith, h, ten))
        ∙ read_digits-digit (k / 10) (k % 10) k tail (omega arith) (omega arith))
]

-- The first character that is printed of a number is a digit.
print_digits-head :
    (fuel k : ℕ) (tail : Text)
    → k < fuel
    → (c : ℕ) × (rest : Text) × (print_digits fuel k tail ≡ c ∷ rest) × (is_digit c ≡ true)
unfolding print_digits
print_digits-head zero k tail h = absurd (omega (arith, h))
print_digits-head (suc fuel) k tail h = elim (Bool-cases (ltb k 10)) [
  | inl e ↦ (b'0' + k, tail, rw e refl, ground (arith, e))
  | inr e ↦
      let ten : 10 ≤ k = ground (arith, e) in
      rw e (print_digits-head fuel (k / 10) _ (omega (arith, h, ten)))
]

scan_number-digit :
    (c : ℕ) (text : Text)
    → is_digit c ≡ true
    → scan_number (c ∷ text) ≡ with_sign pos (read_digits 0 (c ∷ text))
unfolding scan_number skip_spaces scan_signed scan_digits
scan_number-digit c text h = ground (arith, h)

-- A printed number with a character behind it that is no digit is scanned, up to that character.
pub scan_number-print_number :
    (k c : ℕ) (text : Text)
    → is_digit c ≡ false
    → scan_number (print_number k (c ∷ text)) ≡ (some (pos k), c ∷ text)
unfolding print_number read_digits
scan_number-print_number k c text h =
    let (d, rest, e, digit) = print_digits-head (suc k) k (c ∷ text) (omega arith) in
    ap scan_number e
    ∙ scan_number-digit d rest digit
    ∙ ap (λ t. with_sign pos (read_digits 0 t)) (sym e)
    ∙ ap (with_sign pos) (read_digits-print_digits (suc k) k (c ∷ text) (omega arith))
    ∙ rw h refl

-- Spaces before a number are skipped.
pub scan_number-space : (text : Text) → scan_number (space ∷ text) ≡ scan_number text
unfolding scan_number skip_spaces
scan_number-space text = refl
