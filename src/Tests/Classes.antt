-- ===== src/Tests/Classes.antt =====
-- The ASCII character classes, and a UTF-8 encoding of the ASCII code points.
use json_schema_mlir.Prelude.{
  ℕ, ◌+◌, ◌-◌, arith, Bool, ◌||◌, ◌&&◌, ltb, leb, none, some, [], ◌∷◌, if◌then◌else◌, refl,
}
use json_schema_mlir.Lexer.Token.{Chars, AreChars}

abbrev within : ℕ → ℕ → ℕ → Bool
within lo hi c = leb lo c && leb c hi

abbrev is_letter : ℕ → Bool
is_letter c = within b'a' b'z' c || within b'A' b'Z' c

abbrev pub ascii : Chars
ascii = record {
  is_digit = within b'0' b'9';
  is_alpha = is_letter;
  is_alnum = λ c. is_letter c || within b'0' b'9' c;
  is_hex_digit = λ c. within b'0' b'9' c || within b'a' b'f' c || within b'A' b'F' c;
  is_print = within 0x20 0x7E;
  hex_digit_value = λ c.
      if within b'0' b'9' c
      then c - b'0'
      else if within b'a' b'f' c
      then c - b'a' + 10
      else c - b'A' + 10;
  convert_code_point = λ n. if ltb n 128 then some (n ∷ []) else none;
}

pub ascii-AreChars : AreChars ascii
ascii-AreChars = record {
  is_digit_iff = λ c. refl;
  is_alpha_iff = λ c. refl;
  is_alnum_iff = λ c. refl;
  is_hex_digit_decimal = λ n h. ground arith;
  is_hex_digit_lower = λ n h. ground arith;
  hex_digit_value_decimal = λ n h. ground arith;
  hex_digit_value_lower = λ n h. ground arith;
  convert_ascii = λ n h. ground arith;
}
