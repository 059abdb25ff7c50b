-- ===== src/Script/Lexer/Strings.antt =====
-- internal/script/lexer.go: a string literal that was printed with escapes is read back, and one that is
-- not closed on its line is refused.
use laskah.Prelude.{
  ℕ, ◌≡◌, refl, ◌-◌, ◌∙◌, ap, true, false, ◌||◌, [], ◌∷◌, ◌++◌, ◌==◌, nat_eq, if◌then◌else◌,
  Bool-cases, ◌⊎◌, inl, inr, eq_of_beq, beq_refl, sym, arith,
}
use laskah.Prelude.Text.{Text}
use laskah.Script.Outcome.{Outcome, ok, failed, then_do, string_not_closed, string_over_lines}
use laskah.Script.Lexer.{Reader, string}
use laskah.Script.Lexer.Literals.{
  decoded, writes, short_escape, decode_escape, string_round, read_string,
}
use laskah.Script.Lexer.Scan.{string_token, next}

-- How a text is written between quotes: a backslash before the quote and the backslash, `\n` for a
-- newline, and every other character as it is.
pub escape_char : ℕ → ℕ → Text → Text
escape_char quote c later =
    if c == quote || c == 92
    then 92 ∷ c ∷ later
    else (if c == 10 then 92 ∷ 110 ∷ later else c ∷ later)

unfoldable pub escape_text : ℕ → Text → Text
unfolding escape_char
escape_text quote [] = []
escape_text quote (c ∷ s) = escape_char quote c (escape_text quote s)

abbrev pub IsQuote : ℕ → Type 0
IsQuote c = (c ≡ 39) ⊎ (c ≡ 34)

-- The escapes of a printed character stand for it.
string_round-escaped :
    (quote n c : ℕ) (t : Text)
    → IsQuote quote
    → (c == quote || c == 92) ≡ true
    → string_round quote n 92 (c ∷ t) ≡ writes (decoded c 2)
unfolding string_round decode_escape short_escape
string_round-escaped quote n c t (inl q) e = ground (arith, e, q)
string_round-escaped quote n c t (inr q) e = ground (arith, e, q)

string_round-newline :
    (quote n : ℕ) (t : Text)
    → IsQuote quote
    → string_round quote n 92 (110 ∷ t) ≡ writes (decoded 10 2)
unfolding string_round decode_escape short_escape
string_round-newline quote n t (inl q) = ground (arith, q)
string_round-newline quote n t (inr q) = ground (arith, q)

string_round-plain :
    (quote n c : ℕ) (t : Text)
    → (c == quote || c == 92) ≡ false
    → (c == 10) ≡ false
    → string_round quote n c t ≡ writes (decoded c 1)
unfolding string_round
string_round-plain quote n c t e w = ground (arith, e, w)

-- Put a character before the string that is read.
abbrev put_before : Text → Outcome (Text × Text) → Outcome (Text × Text)
put_before s o = then_do o λ (later, left). ok (s ++ later, left)

read_string-skip :
    (quote n c : ℕ) (t : Text) → read_string quote n 1 (c ∷ t) ≡ read_string quote n 0 t
unfolding read_string
read_string-skip quote n c t = refl

-- A round that writes a character goes on behind it.
read_string-put :
    (quote n c d size : ℕ) (t : Text)
    → string_round quote n c t ≡ writes (decoded d size)
    → read_string quote n 0 (c ∷ t) ≡ put_before (d ∷ []) (read_string quote n (size - 1) t)
unfolding read_string
read_string-put quote n c d size t e = rw (e, read_string)

-- One character of the printed text is read.
read_string-char :
    (quote n c : ℕ) (t : Text)
    → IsQuote quote
    → read_string quote n 0 (escape_char quote c t) ≡ put_before (c ∷ []) (read_string quote n 0 t)
unfolding escape_char
read_string-char quote n c t q = elim (Bool-cases (c == quote || c == 92)) [
  | inl e ↦ rw e (
      read_string-put quote n 92 c 2 (c ∷ t) (string_round-escaped quote n c t q e)
      ∙ ap (put_before (c ∷ [])) (read_string-skip quote n c t))
  | inr e ↦ elim (Bool-cases (c == 10)) [
    | inl w ↦
        rw (e, w, eq_of_beq c 10 w)
          (read_string-put quote n 92 10 2 (110 ∷ t) (string_round-newline quote n t q)
            ∙ ap (put_before (10 ∷ [])) (read_string-skip quote n 110 t))
    | inr w ↦ rw (e, w) (read_string-put quote n c c 1 t (string_round-plain quote n c t e w))
  ]
]

put_before-append :
    (c : ℕ) (s : Text) (o : Outcome (Text × Text))
    → put_before (c ∷ []) (put_before s o) ≡ put_before (c ∷ s) o
put_before-append c s (ok r) = refl
put_before-append c s (failed w) = refl
put_before-append c s Outcome.out_of_fuel = refl

escape_char-append :
    (quote c : ℕ) (later t : Text)
    → escape_char quote c later ++ t ≡ escape_char quote c (later ++ t)
unfolding escape_char
escape_char-append quote c later t = elim (Bool-cases (c == quote || c == 92)) [
  | inl e ↦ rw e
  | inr e ↦ elim (Bool-cases (c == 10)) [ inl w ↦ rw (e, w) | inr w ↦ rw (e, w) ]
]

put_before-nil : (o : Outcome (Text × Text)) → o ≡ put_before [] o
put_before-nil (ok r) = refl
put_before-nil (failed w) = refl
put_before-nil Outcome.out_of_fuel = refl

-- The printed text before anything else is read as the text.
pub read_string-escape_text :
    (quote n : ℕ) (s t : Text)
    → IsQuote quote
    → read_string quote n 0 (escape_text quote s ++ t) ≡ put_before s (read_string quote n 0 t)
unfolding escape_text
read_string-escape_text quote n [] t q = put_before-nil (read_string quote n 0 t)
read_string-escape_text quote n (c ∷ s) t q =
    rw (escape_char-append quote c (escape_text quote s) t) (
      read_string-char quote n c (escape_text quote s ++ t) q
      ∙ ap (put_before (c ∷ [])) (read_string-escape_text quote n s t q)
      ∙ put_before-append c s (read_string quote n 0 t))

read_string-quote : (quote n : ℕ) (t : Text) → read_string quote n 0 (quote ∷ t) ≡ ok ([], t)
unfolding string_round read_string
read_string-quote quote n t = rw (beq_refl quote, read_string)

read_string-break :
    (quote n : ℕ) (t : Text)
    → IsQuote quote
    → read_string quote n 0 (10 ∷ t) ≡ failed (string_over_lines n)
unfolding read_string string_round
read_string-break quote n t (inl q) = rw q
read_string-break quote n t (inr q) = rw q

append-nil_lem : (s : Text) → s ++ [] ≡ s
append-nil_lem [] = refl
append-nil_lem (c ∷ s) = rw (append-nil_lem s)

next-quote :
    {R : Type 0} (u : Reader R) (quote n : ℕ) (t : Text)
    → IsQuote quote
    → next u quote t n ≡ then_do (read_string quote n 0 t) λ r. ok (string_token u n r)
unfolding next
next-quote u quote n t (inl q) = rw q
next-quote u quote n t (inr q) = rw q

-- A text that was printed between single or double quotes, with escapes for the quote, the
-- backslash and the newline, is read as one string token of that text, and exactly its
-- characters are taken from any source that goes on behind it.
pub next-escape_text :
    {R : Type 0} (u : Reader R) (quote n : ℕ) (s rest : Text)
    → IsQuote quote
    → next u quote (escape_text quote s ++ quote ∷ rest) n
      ≡ ok (record { kind = string s; line = n }, record { rest = rest; line = n })
next-escape_text u quote n s rest q = rw (
  next-quote u quote n (escape_text quote s ++ quote ∷ rest) q,
  read_string-escape_text quote n s (quote ∷ rest) q,
  read_string-quote quote n rest,
  append-nil_lem s,
)

read_string-open :
    (quote n : ℕ) (s : Text)
    → IsQuote quote
    → read_string quote n 0 (escape_text quote s) ≡ failed (string_not_closed n)
unfolding read_string
read_string-open quote n s q =
    ap (read_string quote n 0) (sym (append-nil_lem (escape_text quote s)))
    ∙ read_string-escape_text quote n s [] q

-- A string, printed in that way, that reaches a newline or the end of the source before its
-- quote is refused: the two errors are told apart and name the line on which the string starts.
pub next-unclosed :
    {R : Type 0} (u : Reader R) (quote n : ℕ) (s rest : Text)
    → IsQuote quote
    → (next u quote (escape_text quote s ++ 10 ∷ rest) n ≡ failed (string_over_lines n))
      × (next u quote (escape_text quote s) n ≡ failed (string_not_closed n))
next-unclosed u quote n s rest q = (
  rw (
    next-quote u quote n (escape_text quote s ++ 10 ∷ rest) q,
    read_string-escape_text quote n s (10 ∷ rest) q,
    read_string-break quote n rest q,
  ),
  rw (next-quote u quote n (escape_text quote s) q, read_string-open quote n s q),
)
