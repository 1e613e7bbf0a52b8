-- ===== src/Shell/Bytes.antt =====
-- A byte through the shell: how `%A` prints it, and how the receiver of commands takes it.
use Prim.Native.Nat.{bit_or}
use locket_api.Prelude.{
  ℕ, zero, suc, ◌+◌, ◌*◌, ◌/◌, ◌%◌, ◌≡◌, ◌<◌, refl, ◌∙◌, Bool, true, false, ◌&&◌, some, List, [],
  ◌∷◌, ◌++◌, length, take, set, get-append-cons, append-nil, append-append, length-append,
  length-set, set-set, get_or-set, take-set, ◌==◌, ==_iff, Bool-cases, inl, inr, arith,
}
use locket_api.Shell.{chr_0}
use locket_api.Shell.Print.{
  char_of, place, padding, put_all, i_put_uint, put_array, put_to_buf, delimit,
}
use locket_api.Shell.ByteCmd.{
  ByteCmd, proceed, bytecmd_data_sz, put_char, add_half_of_byte, other_char, process_char,
  reset_completed,
}

-- Bytes.
abbrev pub Below256 : List ℕ → Type 0
Below256 [] = Unit
Below256 (x ∷ xs) = (x < 256) × Below256 xs

abbrev pub hexes : ℕ → List ℕ
hexes x = char_of (x / 16) ∷ char_of (x % 16) ∷ []

abbrev pub hex_text : List ℕ → List ℕ
hex_text [] = []
hex_text (x ∷ xs) = hexes x ++ hex_text xs

pub put_all-put_to_buf : (cs text : List ℕ) → put_all put_to_buf cs text ≡ (true, text ++ cs)
unfolding put_all put_to_buf
put_all-put_to_buf [] text = rw (append-nil text) refl
put_all-put_to_buf (c ∷ cs) text =
    rw (put_all-put_to_buf cs (text ++ (c ∷ [])), append-append text (c ∷ []) cs) refl

place_byte_low : (x : ℕ) → x / 16 ≡ 0 → place 10 16 x [] ≡ some (char_of (x % 16) ∷ [])
unfolding place
place_byte_low x e = rw e refl

place_byte_high : (x : ℕ) → x < 256 → (x / 16 == 0) ≡ false → place 10 16 x [] ≡ some (hexes x)
unfolding place
place_byte_high x h e =
    let high : x / 16 / 16 ≡ 0 = omega arith in
    let digit : x / 16 % 16 ≡ x / 16 = omega arith in rw (e, high, digit) refl

put_byte :
    (x : ℕ) (text : List ℕ)
    → x < 256
    → i_put_uint put_to_buf x 16 2 chr_0 text ≡ some (true, text ++ hexes x)
unfolding i_put_uint padding
put_byte x text h = elim (Bool-cases (x / 16 == 0)) [
  | inl e ↦
      rw
        (
          place_byte_low x ((==_iff _ _).0 e),
          put_all-put_to_buf (chr_0 ∷ char_of (x % 16) ∷ []) text,
          (==_iff _ _).0 e,
        )
        refl
  | inr e ↦ rw (place_byte_high x h e, put_all-put_to_buf (hexes x) text) refl
]

no_delimiter : (i : ℕ) (text : List ℕ) → delimit put_to_buf i 0 text ≡ (true, text)
unfolding delimit
no_delimiter i text = ground arith

pub put_bytes :
    (xs pre text : List ℕ)
    → Below256 xs
    → put_array put_to_buf (length xs) (length pre) 0 (pre ++ xs) text
      ≡ some (true, text ++ hex_text xs)
unfolding put_array
put_bytes [] pre text v = rw (append-nil text) refl
put_bytes (x ∷ xs) pre text v =
    let rest = put_bytes xs (pre ++ (x ∷ [])) (text ++ hexes x) v.1 in
    rw (no_delimiter (length pre) text, get-append-cons pre x xs, put_array)
      (rw (no_delimiter (length pre) text) (
        rw (put_byte x text v.0) (
          simp
            (
              length-append pre (x ∷ []),
              append-append pre (x ∷ []) xs,
              append-append text (hexes x) (hex_text xs),
            )
            at rest)))

abbrev halves : ℕ → ℕ
halves x = bit_or (x / 16 * 16 % 256) (x % 16)

halves_table : ℕ → Bool
halves_table zero = true
halves_table (suc n) = (halves n == n) && halves_table n

halves_sound : (n x : ℕ) → halves_table n ≡ true → x < n → halves x ≡ x
unfolding halves_table
halves_sound zero x h lt = absurd (omega arith)
halves_sound (suc n) x h lt = ground (arith, halves_sound n x)

halves_256 : halves_table 256 ≡ true
unfolding halves_table
halves_256 = refl

-- The receiver where the bytes `pre` of a command have come.
pub record Got (pre : List ℕ) (me : ByteCmd) : Type 0 where
  pub open_command : me.completed ≡ false
  pub started : me.was_started ≡ true
  pub whole : me.first_half_of_byte ≡ true
  pub count : me.cnt ≡ length pre
  pub size : length me.i_buf ≡ bytecmd_data_sz
  pub holds : take (length pre) me.i_buf ≡ pre

put_char-char_of :
    (h : ℕ) (me : ByteCmd)
    → h < 16
    → me.completed ≡ false
    → me.was_started ≡ true
    → me.cnt < bytecmd_data_sz
    → put_char (char_of h) me ≡ (proceed, add_half_of_byte h me)
unfolding put_char char_of other_char process_char reset_completed
put_char-char_of h me b c w l = ground arith

-- Both halves of a byte.
abbrev pub absorb : ℕ → ByteCmd → ByteCmd
absorb x me = add_half_of_byte (x % 16) (add_half_of_byte (x / 16) me)

absorb_lem :
    (x : ℕ) (me : ByteCmd)
    → x < 256
    → me.first_half_of_byte ≡ true
    → me.cnt < length me.i_buf
    → absorb x me
      ≡ record me { i_buf = set me.i_buf me.cnt x; cnt = me.cnt + 1; first_half_of_byte = true }
unfolding add_half_of_byte
absorb_lem x me h w l = rw w (
    rw
      (
        set-set me.i_buf me.cnt (x / 16 * 16 % 256),
        get_or-set me.i_buf me.cnt (x / 16 * 16 % 256) 0 l,
        halves_sound 256 x halves_256 h,
      )
      refl)

holds_more :
    (x : ℕ) (pre buf : List ℕ) (c : ℕ)
    → c ≡ length pre
    → c < length buf
    → take (length pre) buf ≡ pre
    → take (length (pre ++ (x ∷ []))) (set buf c x) ≡ pre ++ (x ∷ [])
holds_more x pre buf c e l h =
    let longer : length (pre ++ (x ∷ [])) ≡ suc c = omega (arith, length-append pre (x ∷ []), e) in
    rw (longer, take-set buf c x l, e, h) refl

pub absorb-Got :
    (x : ℕ) (pre : List ℕ) (me : ByteCmd)
    → x < 256
    → length pre < bytecmd_data_sz
    → Got pre me
    → Got (pre ++ (x ∷ [])) (absorb x me)
absorb-Got x pre me h l g =
    let inside : me.cnt < length me.i_buf = omega (arith, g.size, g.count) in
    rw (absorb_lem x me h g.whole inside) (record {
      open_command = g.open_command;
      started = g.started;
      whole = refl;
      count = omega (arith, length-append pre (x ∷ []), g.count);
      size = length-set me.i_buf me.cnt x ∙ g.size;
      holds = holds_more x pre me.i_buf me.cnt g.count inside g.holds;
    })

-- Both characters of a byte are taken.
pub put_char-hexes :
    (x : ℕ) (pre : List ℕ) (me : ByteCmd)
    → x < 256
    → length pre < bytecmd_data_sz
    → Got pre me
    → (put_char (char_of (x / 16)) me ≡ (proceed, add_half_of_byte (x / 16) me))
      × (put_char (char_of (x % 16)) (add_half_of_byte (x / 16) me) ≡ (proceed, absorb x me))
unfolding add_half_of_byte
put_char-hexes x pre me h l g = (
  put_char-char_of (x / 16) me (omega arith) g.open_command g.started (omega (arith, g.count)),
  rw g.whole (
      put_char-char_of (x % 16)
        (record me { i_buf = set me.i_buf me.cnt (x / 16 * 16 % 256); first_half_of_byte = false })
        (omega arith) g.open_command g.started (omega (arith, g.count))),
)
