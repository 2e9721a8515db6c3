-- ===== src/Lexer/Moves/Strings.antt =====
-- What is kept by `advance`, at strings.
use json_schema_mlir.Prelude.{
  ℕ, zero, suc, ◌*◌, ◌+◌, Bool, true, false, not, ◌&&◌, ◌||◌, ◌==◌, ltb, some, [], ◌∷◌, Bytes, ◌≡◌,
  refl, arith, Bool-cases, inl, inr, if◌then◌else◌, length, ◌≤◌,
}
use mathlib.Core.Option.{none-ne-some, some-injective}
use json_schema_mlir.Lexer.Source.{SourcePos, Cursor, advance, peek}
use json_schema_mlir.Lexer.Token.{
  Message, unterminated_string, expected_hex_digits, unpaired_low_surrogate,
  unpaired_high_surrogate, invalid_escape, Chars,
}
use json_schema_mlir.Lexer.Strings.{
  StringState, Next, stop, more, fail_at, move_to, read_hex, low_half, unicode_escape, escape,
  string_step, string_loop, follow, is_low_surrogate, is_high_surrogate, bad_escape, at_end,
}
use json_schema_mlir.Lexer.Moves.{IsKept, at_bytes}

pub fail_at-cur : (at : SourcePos) (m : Message) (s : StringState) → (fail_at at m s).cur ≡ s.cur
fail_at-cur at m s = ground arith

if-state :
    (I : Cursor → Type 0) (b : Bool) (x y : StringState)
    → I x.cur
    → I y.cur
    → I (if b then x else y).cur
if-state I true x y p q = p
if-state I false x y p q = q

module _ {I : Cursor → Type 0} (kept : IsKept I) where
  fail_at-keeps :
      (at : SourcePos) (m : Message) (s : StringState) → I s.cur → I (fail_at at m s).cur
  fail_at-keeps at m s i = if-state I s.bad _ _ i i

  module _ (ch : Chars) where
    read_hex-keeps : (n r : ℕ) (cur : Cursor) → I cur → I (read_hex ch n r cur).2
    unfolding read_hex
    read_hex-keeps zero r cur i = i
    read_hex-keeps (suc n) r cur i = elim (Bool-cases (not (ch.is_hex_digit (peek cur 0)))) [
      | inl e ↦ rw e i
      | inr e ↦ rw e (
          read_hex-keeps n (r * 16 + ch.hex_digit_value (peek cur 0)) (advance cur)
            (kept.step cur i))
    ]

    low_half-keeps :
        (at : SourcePos) (u : ℕ) (s : StringState) → I s.cur → I (low_half ch at u s).cur
    unfolding low_half
    low_half-keeps at u s i =
        let (full, low, after) = read_hex ch 4 0 (advance (advance s.cur)) in
        let j = read_hex-keeps 4 0 (advance (advance s.cur)) (kept.step _ (kept.step s.cur i)) in
        let t = move_to after s in
        if-state I (not (peek s.cur 0 == b'\\') || not (peek s.cur 1 == b'u')) _ _
          (fail_at-keeps at unpaired_high_surrogate s i)
          (if-state I (not full || not (is_low_surrogate low)) _ _
            (fail_at-keeps at unpaired_high_surrogate t j) j)

    unicode_escape-keeps :
        (at : SourcePos) (s : StringState) → I s.cur → I (unicode_escape ch at s).cur
    unfolding unicode_escape
    unicode_escape-keeps at s i =
        let (full, unit, after) = read_hex ch 4 0 (advance s.cur) in
        let j = read_hex-keeps 4 0 (advance s.cur) (kept.step s.cur i) in
        let t = move_to after s in
        if-state I (not full) _ _ (fail_at-keeps at expected_hex_digits t j) (
          if-state I (is_low_surrogate unit) _ _ (fail_at-keeps at unpaired_low_surrogate t j)
            (if-state I (is_high_surrogate unit) _ _ (low_half-keeps at unit t j) j))

    bad_escape-keeps : (at : SourcePos) (s : StringState) → I s.cur → I (bad_escape at s).cur
    bad_escape-keeps at s i =
        let t = fail_at at invalid_escape s in
        if-state I (not (peek s.cur 0 == b'\n') && not (at_end s.cur.rest))
          (move_to (advance s.cur) t) t (kept.step s.cur i) (fail_at-keeps at invalid_escape s i)

    escape-keeps : (at : SourcePos) (s : StringState) → I s.cur → I (escape ch at s).cur
    unfolding escape
    escape-keeps at s i =
        let e = peek s.cur 0 in
        let pushed = kept.step s.cur i in
        if-state I (e == b'"' || e == b'\\' || e == b'/') _ _ pushed (
          if-state I (e == b'b') _ _ pushed (
            if-state I (e == b'f') _ _ pushed (
              if-state I (e == b'n') _ _ pushed (
                if-state I (e == b'r') _ _ pushed (
                  if-state I (e == b't') _ _ pushed (
                    if-state I (e == b'u') _ _ (unicode_escape-keeps at s i)
                      (bad_escape-keeps at s i)))))))

    abbrev AfterStep : StringState → Next → Type 0
    AfterStep s (stop t) = I s.cur → I t.cur
    AfterStep s (more t) = (at_end s.cur.rest ≡ false) × (I (advance s.cur) → I t.cur)

    if-Next :
        (s : StringState) (b : Bool) (x y : Next)
        → (b ≡ true → AfterStep s x)
        → (b ≡ false → AfterStep s y)
        → AfterStep s (if b then x else y)
    if-Next s true x y p q = p refl
    if-Next s false x y p q = q refl

    -- A round that goes on has consumed a byte.
    pub string_step_lem :
        (begin : SourcePos) (s : StringState) → AfterStep s (string_step ch begin s)
    unfolding string_step
    string_step_lem begin s =
        let at = s.cur.pos in
        let c = peek s.cur 0 in
        if-Next s (at_end s.cur.rest || c == b'\n') _ _
          (λ e i. fail_at-keeps begin unterminated_string s i)
          λ there.
            let live : at_end s.cur.rest ≡ false = ground arith in
            if-Next s (c == b'"') _ _ (λ e i. kept.step s.cur i)
              λ e1.
                if-Next s (ltb c 0x20) _ _ (λ e. (live, λ i. i))
                  λ e2.
                    if-Next s (not (c == b'\\')) _ _ (λ e. (live, λ i. i))
                      λ e3. (live, λ i. escape-keeps at (move_to (advance s.cur) s) i)

    string_next-keeps :
        (begin : SourcePos) (s : StringState) (n : Next) {t : StringState} (fuel : ℕ)
        → AfterStep s n
        → I s.cur
        → ((u : StringState) → I u.cur → string_loop ch begin fuel u ≡ some t → I t.cur)
        → follow (string_loop ch begin fuel) n ≡ some t
        → I t.cur
    string_next-keeps begin s (stop u) fuel a i ih e = rw (← some-injective _ _ e) (a i)
    string_next-keeps begin s (more u) fuel (live, a) i ih e = ih u (a (kept.step s.cur i)) e

    -- The loop over a string moves by `advance` alone.
    pub string_loop-keeps :
        (begin : SourcePos) (fuel : ℕ) (s : StringState) {t : StringState}
        → I s.cur
        → string_loop ch begin fuel s ≡ some t
        → I t.cur
    unfolding string_loop
    string_loop-keeps begin zero s {t} i e = absurd (none-ne-some t e)
    string_loop-keeps begin (suc fuel) s i e =
        string_next-keeps begin s (string_step ch begin s) fuel (string_step_lem begin s) i
          (λ u j h. string_loop-keeps begin fuel u j h) e

length-advance :
    (n : ℕ) (bs : Bytes) (p : SourcePos) → length bs ≤ n → length (advance (at_bytes bs p)).rest ≤ n
unfolding advance
length-advance n [] p h = h
length-advance n (c ∷ cs) p h = omega arith

length-advance_strict :
    (n : ℕ) (bs : Bytes) (p : SourcePos)
    → at_end bs ≡ false
    → length bs ≤ suc n
    → length (advance (at_bytes bs p)).rest ≤ n
unfolding advance
length-advance_strict n [] p e h = absurd (cc)
length-advance_strict n (c ∷ cs) p e h = omega arith

-- At most `n` bytes are left.
abbrev pub AtMost : ℕ → Cursor → Type 0
AtMost n cur = length cur.rest ≤ n

pub AtMost-IsKept : (n : ℕ) → IsKept (AtMost n)
AtMost-IsKept n = record { step = λ cur h. length-advance n cur.rest cur.pos h }

-- Where a byte is left, `advance` takes one.
pub advance-AtMost :
    (n : ℕ) (cur : Cursor) → at_end cur.rest ≡ false → AtMost (suc n) cur → AtMost n (advance cur)
advance-AtMost n cur e h = length-advance_strict n cur.rest cur.pos e h

string_next-total :
    (ch : Chars) (begin : SourcePos) (fuel : ℕ) (s : StringState) (n : Next)
    → AfterStep (AtMost-IsKept fuel) ch s n
    → AtMost (suc fuel) s.cur
    → ((u : StringState)
        → AtMost fuel u.cur
        → (t : StringState) × (string_loop ch begin (suc fuel) u ≡ some t))
    → (t : StringState) × (follow (string_loop ch begin (suc fuel)) n ≡ some t)
string_next-total ch begin fuel s (stop u) a h ih = (u, refl)
string_next-total ch begin fuel s (more u) (live, a) h ih =
    ih u (a (advance-AtMost fuel s.cur live h))

nothing-left : (bs : Bytes) → length bs ≤ 0 → at_end bs ≡ true
nothing-left [] h = refl
nothing-left (c ∷ cs) h = absurd (ground arith)

string_end-total :
    (ch : Chars) (begin : SourcePos) (s : StringState) (n : Next)
    → AfterStep (AtMost-IsKept 0) ch s n
    → AtMost 0 s.cur
    → (t : StringState) × (follow (string_loop ch begin 0) n ≡ some t)
string_end-total ch begin s (stop u) a h = (u, refl)
string_end-total ch begin s (more u) (live, a) h = let e = nothing-left s.cur.rest h in absurd (cc)

-- With more fuel than bytes left, the loop over a string ends.
pub string_loop-total :
    (ch : Chars) (begin : SourcePos) (fuel : ℕ) (s : StringState)
    → AtMost fuel s.cur
    → (t : StringState) × (string_loop ch begin (suc fuel) s ≡ some t)
unfolding string_loop
string_loop-total ch begin zero s h =
    string_end-total ch begin s (string_step ch begin s)
      (string_step_lem (AtMost-IsKept 0) ch begin s) h
string_loop-total ch begin (suc fuel) s h =
    string_next-total ch begin fuel s (string_step ch begin s)
      (string_step_lem (AtMost-IsKept fuel) ch begin s) h
      (λ u j. string_loop-total ch begin fuel u j)
