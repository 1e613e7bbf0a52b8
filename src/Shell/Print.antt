-- ===== src/Shell/Print.antt =====
-- Printing: `PrintfHelper_t` of embedded/kl_lib/shell.cpp, for the formats without floating point
-- numbers, and `PrintToBuf_t`. A 32-bit argument is its bits. Reading past the end of the format, a
-- missing argument and one of another type give `none`.
use locket_api.Prelude.{
  ℕ, zero, suc, ◌+◌, ◌-◌, ◌*◌, ◌/◌, ◌%◌, Bool, true, false, ◌&&◌, ◌||◌, Option, none, some, List,
  [], ◌∷◌, ◌++◌, length, get_elem?, ltb, leb, ◌==◌, if◌then◌else◌, ◌>>=◌,
}
use locket_api.Shell.{chr_lf, chr_cr, chr_0, chr_9, chr_upper_a}

-- An argument: a number, a string, or an array of bytes.
pub data Arg : Type 0 where
  num : ℕ → Arg
  str : List ℕ → Arg
  arr : List ℕ → Arg

abbrev pub chr_percent : ℕ
chr_percent = 37

abbrev pub chr_star : ℕ
chr_star = 42

abbrev pub chr_minus : ℕ
chr_minus = 45

abbrev pub chr_dot : ℕ
chr_dot = 46

abbrev pub chr_space : ℕ
chr_space = 32

-- The size of `digits`.
abbrev pub digits_sz : ℕ
digits_sz = 10

-- Below this a 32-bit number is not negative.
abbrev pub int32_end : ℕ
int32_end = 2147483648

unfoldable pub char_of : ℕ → ℕ
char_of digit = if ltb digit 10 then chr_0 + digit else chr_upper_a + digit - 10

-- The loop that fills `digits`, of which `room` places are free; the first to be printed stands
-- first. A write past the end of the array gives `none`.
unfoldable pub place : ℕ → ℕ → ℕ → List ℕ → Option (List ℕ)
unfolding char_of
place zero base n digits = none
place (suc room) base n digits =
    let rest = place room base (n / base) (char_of (n % base) ∷ digits) in
    if n / base == 0 then some (char_of (n % base) ∷ digits) else rest

unfoldable pub padding : ℕ → ℕ → List ℕ
padding zero filler = []
padding (suc n) filler = filler ∷ padding n filler

-- The characters of the directive, the width and what stands behind: digits of a width or a precision
-- are read here.
unfoldable pub number : List ℕ → List Arg → ℕ → Option (ℕ × (ℕ × (List ℕ × List Arg)))
number [] args w = none
number (c ∷ fmt) args w = elim (leb chr_0 c && leb c chr_9) [
  | true ↦ number fmt args ((w * 10 + (c - chr_0)) % 4294967296)
  | false ↦ elim (c == chr_star) [
    | true ↦ elim args [
      | num n ∷ args' ↦ number fmt args' ((w * 10 + n % 256) % 4294967296)
      | _ ↦ none
    ]
    | false ↦ some (w, (c, (fmt, args)))
  ]
]

-- The zero that asks for another filler.
unfoldable pub filler_of : List ℕ → ℕ × List ℕ
filler_of [] = (chr_space, [])
filler_of (c ∷ fmt) = if c == chr_0 then (chr_0, fmt) else (chr_space, c ∷ fmt)

-- The precision behind a width that ends at a dot.
unfoldable pub skip_precision : ℕ × (List ℕ × List Arg) → Option (ℕ × (List ℕ × List Arg))
unfolding number
skip_precision (c, (fmt, args)) = elim (c == chr_dot) [
  | false ↦ some (c, (fmt, args))
  | true ↦ do precision ← number fmt args 0; some precision.1
]

-- The cases of the `switch`; `%f` is not among those of the model.
pub data Directive : Type 0 where
  character string hex unsigned signed array percent float unknown : Directive

unfoldable pub directive_of : ℕ → Directive
directive_of c =
    if c == 99
    then character
    else if (c == 115) || (c == 83)
    then string
    else if c == 88
    then hex
    else if c == 117
    then unsigned
    else if (c == 100) || (c == 105)
    then signed
    else if c == 102
    then float
    else if c == 65
    then array
    else if c == chr_percent
    then percent
    else unknown

-- `put` is `IPutChar`; it tells whether it returned `retvOk`.
module _ {S : Type 0} (put : ℕ → S → Bool × S) where
  -- Characters one by one, until one is refused.
  unfoldable pub put_all : List ℕ → S → Bool × S
  put_all [] s = (true, s)
  put_all (c ∷ cs) s = let rest = put_all cs (put c s).1 in if (put c s).0 then rest else put c s

  unfoldable pub i_put_uint : ℕ → ℕ → ℕ → ℕ → S → Option (Bool × S)
  unfolding put_all place padding
  i_put_uint n base width filler s = do
    digits ← place digits_sz base n []
    some (put_all (padding (width - length digits) filler ++ digits) s)

  -- No delimiter stands before the array.
  unfoldable pub delimit : ℕ → ℕ → S → Bool × S
  delimit i delimiter s = if ltb 0 i && ltb 0 delimiter then put (delimiter % 256) s else (true, s)

  -- The loop of `%A` from the `i`-th element on, of which `count` are left.
  unfoldable pub put_array : ℕ → ℕ → ℕ → List ℕ → S → Option (Bool × S)
  unfolding i_put_uint delimit
  put_array zero i delimiter xs s = some (true, s)
  put_array (suc count) i delimiter xs s = elim (delimit i delimiter s).0 [
    | false ↦ some (delimit i delimiter s)
    | true ↦ do
      x ← get_elem? xs i
      printed ← i_put_uint x 16 2 chr_0 (delimit i delimiter s).1
      elim printed.0 [
        | false ↦ some printed
        | true ↦ put_array count (i + 1) delimiter xs printed.1
      ]
  ]

  unfoldable pub put_int : ℕ → ℕ → ℕ → S → Option (Bool × S)
  unfolding i_put_uint
  put_int n width filler s =
      if ltb n int32_end
      then i_put_uint n 10 width filler s
      else (if (put chr_minus s).0
          then i_put_uint (4294967296 - n) 10 width filler (put chr_minus s).1
          else some (put chr_minus s))

  -- The `switch`: whether to go on, what was printed, and the arguments that are left.
  unfoldable pub decode : Directive → ℕ → ℕ → List Arg → S → Option ((Bool × S) × List Arg)
  unfolding put_array put_int
  decode character width filler (num n ∷ args) s = some (put (n % 256) s, args)
  decode string width filler (str cs ∷ args) s = some (put_all cs s, args)
  decode hex width filler (num n ∷ args) s = do
    printed ← i_put_uint n 16 width filler s
    some (printed, args)
  decode unsigned width filler (num n ∷ args) s = do
    printed ← i_put_uint n 10 width filler s
    some (printed, args)
  decode signed width filler (num n ∷ args) s = do
    printed ← put_int n width filler s
    some (printed, args)
  decode array width filler (arr xs ∷ num n ∷ num delimiter ∷ args) s = do
    printed ← put_array (if ltb n int32_end then n else 0) 0 delimiter xs s
    some (printed, args)
  decode percent width filler args s = some (put chr_percent s, args)
  decode unknown width filler args s = some ((true, s), args)
  decode _ width filler args s = none

  -- A conversion behind its `%`: what stands in the format behind it, and what `decode` gives.
  unfoldable pub conversion : List ℕ → List Arg → S → Option (List ℕ × ((Bool × S) × List Arg))
  unfolding filler_of number skip_precision directive_of decode
  conversion fmt args s =
      let filler = filler_of fmt in
      do
        width ← number filler.1 args 0
        past ← skip_precision width.1
        done ← decode (directive_of past.0) width.0 filler.0 past.1.1 s
        some (past.1.0, done)

  -- The loop over the format, on fuel.
  unfoldable pub print_format : ℕ → List ℕ → List Arg → S → Option S
  unfolding conversion
  print_format zero fmt args s = none
  print_format (suc fuel) [] args s = some s
  print_format (suc fuel) (c ∷ fmt) args s = elim (c == chr_percent) [
    | false ↦ elim (put c s).0 [
      | false ↦ some (put c s).1
      | true ↦ print_format fuel fmt args (put c s).1
    ]
    | true ↦ do
      done ← conversion fmt args s
      elim done.1.0.0 [
        | false ↦ some done.1.0.1
        | true ↦ print_format fuel done.0 done.1.1 done.1.0.1
      ]
  ]

  -- `start` is `IStartTransmissionIfNotYet`. Each turn of the loop takes characters from the format.
  unfoldable pub i_vs_printf : (S → S) → List ℕ → List Arg → S → Option S
  unfolding print_format
  i_vs_printf start fmt args s = do s' ← print_format (length fmt + 1) fmt args s; some (start s')

  unfoldable pub print_eol : (S → S) → S → S
  print_eol start s = start (put chr_lf (put chr_cr s).1).1

-- `PrintToBuf_t`: the text behind which the pointer stands.
unfoldable pub put_to_buf : ℕ → List ℕ → Bool × List ℕ
put_to_buf c text = (true, text ++ (c ∷ []))

unfoldable pub printf_to_buf : List ℕ → List Arg → Option (List ℕ)
unfolding i_vs_printf put_to_buf
printf_to_buf fmt args = i_vs_printf put_to_buf (λ text. text) fmt args []
