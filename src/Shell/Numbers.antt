-- ===== src/Shell/Numbers.antt =====
-- What the printer's numbers say when they are read: `IPutUint` of embedded/kl_lib/shell.cpp.
use locket_api.Prelude.{
  ℕ, ◌+◌, ◌-◌, ◌*◌, ◌/◌, ◌%◌, ◌≡◌, ◌≢◌, ◌≤◌, ◌<◌, Option, none, some, List, [], ◌∷◌, ◌++◌, length,
  get_or, leb, ltb, ◌&&◌, ◌>>=◌, if◌then◌else◌, arith,
}
use locket_api.Shell.{chr_0}
use locket_api.Shell.Print.{padding, digits_sz}

-- The digit that a character stands for, in a radix of at most sixteen: `0` to `9` and the capital
-- letters `A` to `F`. No other character stands for a digit.
abbrev pub digit_of : ℕ → ℕ → Option ℕ
digit_of base c =
    if leb 48 c && (leb c 57 && ltb (c - 48) base)
    then some (c - 48)
    else if leb 65 c && (leb c 70 && ltb (c - 65 + 10) base)
    then some (c - 65 + 10)
    else none

-- Reading digits on from `v`, where all characters are digits.
abbrev pub reading : ℕ → List ℕ → ℕ → Option ℕ
reading base [] v = some v
reading base (c ∷ cs) v = do d ← digit_of base c; reading base cs (v * base + d)

-- What the two radixes share.
record Radix (base : ℕ) : Type 0 where
  small : base ≤ 16
  digit : (n : ℕ) → n % base < base
  joins : (n : ℕ) → n / base * base + n % base ≡ n
  last : (n : ℕ) → n / base ≡ 0 → n % base ≡ n
  down : (n m : ℕ) → n < m * base → n / base < m

abbrev ten : Radix 10
ten = record {
  small = omega arith;
  digit = λ n. omega arith;
  joins = λ n. omega arith;
  last = λ n h. omega arith;
  down = λ n m h. omega arith;
}

abbrev sixteen : Radix 16
sixteen = record {
  small = omega arith;
  digit = λ n. omega arith;
  joins = λ n. omega arith;
  last = λ n h. omega arith;
  down = λ n m h. omega arith;
}

-- `r` is the numeral of `n` in front of `ds`, with at most `room` digits.
pub record Numeral (base room n : ℕ) (ds r : List ℕ) : Type 0 where
  pub front : List ℕ
  pub splits : r ≡ front ++ ds
  pub reads : reading base r 0 ≡ reading base ds n
  pub fits : length front ≤ room
  pub leads : n ≢ 0 → get_or front 0 chr_0 ≢ chr_0

Placed : ℕ → ℕ → ℕ → List ℕ → Option (List ℕ) → Type 0
Placed base room n ds none = ⊥
Placed base room n ds (some r) = Numeral base room n ds r

-- How a number is printed: the fillers, and the numeral, which says the number again.
pub record Prints (base n width filler : ℕ) (text : List ℕ) : Type 0 where
  pub digits : List ℕ
  pub shape : text ≡ padding (width - length digits) filler ++ digits
  pub numeral : Numeral base digits_sz n [] digits
