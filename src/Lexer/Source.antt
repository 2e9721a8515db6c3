-- ===== src/Lexer/Source.antt =====
-- Positions and the source buffer. A cursor holds the bytes from its position on, so `peek` and
-- `advance` need no index. The offsets of a buffer of less than 2^32 bytes do not wrap.
use Prim.Native.Nat.{min}
use json_schema_mlir.Prelude.{
  ℕ, ◌+◌, ◌-◌, Bool, ◌==◌, List, [], ◌∷◌, length, get_or, take, drop, Bytes, if◌then◌else◌,
}

pub record SourcePos : Type 0 where
  pub offset : ℕ
  pub line : ℕ
  pub column : ℕ

pub record SourceRange : Type 0 where
  pub begin : SourcePos
  pub end : SourcePos

pub record Cursor : Type 0 where
  pub rest : Bytes
  pub pos : SourcePos

abbrev pub start_pos : SourcePos
start_pos = record { offset = 0; line = 1; column = 1 }

-- The position behind byte `c`.
unfoldable pub step_pos : ℕ → SourcePos → SourcePos
step_pos c p =
    if c == b'\n'
    then record { offset = p.offset + 1; line = p.line + 1; column = 1 }
    else record { offset = p.offset + 1; line = p.line; column = p.column + 1 }

abbrev pub peek : Cursor → ℕ → ℕ
peek cur ahead = get_or cur.rest ahead 0

abbrev advance_in : Bytes → SourcePos → Cursor
advance_in [] p = record { rest = []; pos = p }
advance_in (c ∷ cs) p = record { rest = cs; pos = step_pos c p }

unfoldable pub advance : Cursor → Cursor
advance cur = advance_in cur.rest cur.pos

-- `while (test(peek())) advance();`, up to the end of the buffer.
unfoldable pub scan_from : (ℕ → Bool) → Bytes → SourcePos → Cursor
scan_from test [] p = record { rest = []; pos = p }
scan_from test (c ∷ cs) p =
    let more = scan_from test cs (step_pos c p) in
    if test c then more else record { rest = c ∷ cs; pos = p }

abbrev pub scan : (ℕ → Bool) → Cursor → Cursor
scan test cur = scan_from test cur.rest cur.pos

-- `text.slice(begin, end)`.
abbrev pub slice : Bytes → ℕ → ℕ → Bytes
slice text b e = take (e - b) (drop b text)

-- The offsets at which lines start, from offset `i` on.
unfoldable pub newlines_from : ℕ → Bytes → List ℕ
newlines_from i [] = []
newlines_from i (c ∷ cs) =
    let rest = newlines_from (i + 1) cs in if c == b'\n' then (i + 1) ∷ rest else rest

-- `SourceFile::lineStarts`.
unfoldable pub line_starts : Bytes → List ℕ
line_starts text = 0 ∷ newlines_from 0 text

unfoldable pub get_offset : Bytes → ℕ → ℕ → ℕ
get_offset text line column =
    if line == 0
    then 0
    else let starts = line_starts text in
      let line_index = min line (length starts) - 1 in
      let offset = get_or starts line_index 0 + (if column == 0 then 0 else column - 1) in
      min offset (length text)
