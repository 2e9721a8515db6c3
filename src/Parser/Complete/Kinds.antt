-- ===== src/Parser/Complete/Kinds.antt =====
-- The kinds of tokens in `skipValue`.
use json_schema_mlir.Prelude.{◌<◌, ◌≡◌, refl, ◌==◌, arith, true, false, ◌||◌, some}
use json_schema_mlir.Lexer.Token.{
  TokenKind, l_brace, r_brace, l_square, r_square, colon, comma, string, number, true_word,
  false_word, null_word, eof, error, Token,
}
use json_schema_mlir.Parser.State.{State, is, kind_id, consume}
use json_schema_mlir.Parser.Loops.{Parse}
use json_schema_mlir.Parser.Values.{Done, skip_kind}
use json_schema_mlir.Parser.Grammar.{is_atom}

pub atom_range : (k : TokenKind) → is_atom k ≡ true → (5 < kind_id k) × (kind_id k < 11)
atom_range l_brace e = absurd (ground arith)
atom_range r_brace e = absurd (ground arith)
atom_range l_square e = absurd (ground arith)
atom_range r_square e = absurd (ground arith)
atom_range colon e = absurd (ground arith)
atom_range comma e = absurd (ground arith)
atom_range string e = (omega arith, omega arith)
atom_range number e = (omega arith, omega arith)
atom_range true_word e = (omega arith, omega arith)
atom_range false_word e = (omega arith, omega arith)
atom_range null_word e = (omega arith, omega arith)
atom_range eof e = absurd (ground arith)
atom_range error e = absurd (ground arith)

pub atom-no_square : (t : Token) → is_atom t.kind ≡ true → is r_square t ≡ false
unfolding is
atom-no_square t e = let (a, b) = atom_range t.kind e in ground arith

pub atom-no_end : (t : Token) → is_atom t.kind ≡ true → is eof t ≡ false
unfolding is
atom-no_end t e = let (a, b) = atom_range t.kind e in ground arith

pub skip_kind-atom :
    (nested : Parse Done) (k : TokenKind) (s : State)
    → is_atom k ≡ true
    → skip_kind nested k s ≡ some (tt, consume s)
unfolding skip_kind
skip_kind-atom nested l_brace s e = absurd (ground arith)
skip_kind-atom nested r_brace s e = absurd (ground arith)
skip_kind-atom nested l_square s e = absurd (ground arith)
skip_kind-atom nested r_square s e = absurd (ground arith)
skip_kind-atom nested colon s e = absurd (ground arith)
skip_kind-atom nested comma s e = absurd (ground arith)
skip_kind-atom nested string s e = refl
skip_kind-atom nested number s e = refl
skip_kind-atom nested true_word s e = refl
skip_kind-atom nested false_word s e = refl
skip_kind-atom nested null_word s e = refl
skip_kind-atom nested eof s e = absurd (ground arith)
skip_kind-atom nested error s e = absurd (ground arith)

pub skip_kind-bracket :
    (nested : Parse Done) (k : TokenKind) (s : State)
    → (kind_id k == 0 || kind_id k == 2) ≡ true
    → skip_kind nested k s ≡ nested s
unfolding skip_kind
skip_kind-bracket nested l_brace s e = refl
skip_kind-bracket nested r_brace s e = absurd (ground arith)
skip_kind-bracket nested l_square s e = refl
skip_kind-bracket nested r_square s e = absurd (ground arith)
skip_kind-bracket nested colon s e = absurd (ground arith)
skip_kind-bracket nested comma s e = absurd (ground arith)
skip_kind-bracket nested string s e = absurd (ground arith)
skip_kind-bracket nested number s e = absurd (ground arith)
skip_kind-bracket nested true_word s e = absurd (ground arith)
skip_kind-bracket nested false_word s e = absurd (ground arith)
skip_kind-bracket nested null_word s e = absurd (ground arith)
skip_kind-bracket nested eof s e = absurd (ground arith)
skip_kind-bracket nested error s e = absurd (ground arith)
