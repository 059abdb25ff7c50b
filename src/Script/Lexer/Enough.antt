-- ===== src/Script/Lexer/Enough.antt =====
-- The tokens that internal/script/lexer.go cuts off: their weight is paid for by the characters taken,
-- and `tokenize` ends with the one end token.
use laskah.Prelude.{
  ℕ, zero, suc, ◌+◌, ◌≤◌, ◌<◌, ◌≡◌, refl, true, false, ◌&&◌, ◌||◌, Option, none, some, List, [],
  ◌∷◌, ◌++◌, ◌==◌, nat_eq, if◌then◌else◌, length, drop, find, In, All, All-In, find→In, length-drop,
  arith,
}
use laskah.Prelude.Text.{Text}
use laskah.Script.Outcome.{
  Outcome, ok, failed, bad_hex_number, bad_number, bad_character, Yields, value, refused,
  Yields-then, Yields-if, Yields-map,
}
use laskah.Script.Lexer
use laskah.Script.Lexer.{
  Reader, Token, Kind, eof, ident, number, string, template, punct, punctuators, has_prefix,
  source_weight, is_eof, token_weight, weight,
}
use laskah.Script.Lexer.Literals.{is_decimal, is_hex_digit, parse_uint, Template}
use laskah.Script.Lexer.Scan.{
  while_true, is_ident_start, is_ident_part, exponent, read_hex, read_decimal, read_number,
  read_ident, read_punct, string_token, template_token, next, tokenize_from, tokenize_within,
  tokenize, starts_decimal,
}
use laskah.Script.Lexer.Progress.{
  skip_space-Yields, length-while_true, while_true-shrinks, length-exponent, length-read_string,
  read_template-Yields,
}

-- The end token stands last, and nowhere else.
abbrev pub Ended : {R : Type 0} → List (Token R) → Type 0
Ended [] = ⊥
Ended (t ∷ ts) = if is_eof t then ts ≡ [] else Ended ts

module _ {R : Type 0} (u : Reader R) where
  -- A token was cut off, which is paid for and leaves at most `n` characters.
  abbrev Cut : ℕ → Token R × Lexer.Lexer → Type 0
  Cut n (t, l) = (is_eof t ≡ false) × (token_weight t + length l.rest ≤ suc n)

  read_hex-Cut :
      (c : ℕ) (t : Text) (n : ℕ)
      → Yields (Cut (length t)) (read_hex u (record { rest = c ∷ t; line = n }))
  unfolding read_hex
  read_hex-Cut c t n = from (parse_uint 64 (while_true is_hex_digit (drop 1 t)).0)
    where
      from :
          (o : Option ℕ)
          → Yields (Cut (length t)) (elim o [
            | none ↦ failed (bad_hex_number n)
            | some v ↦ ok (
              record { kind = number (u.of_uint v); line = n },
              record { rest = (while_true is_hex_digit (drop 1 t)).1; line = n },
            )
          ])
      from none = refused
      from (some v) =
          value (refl, omega (arith, length-while_true is_hex_digit (drop 1 t), length-drop 1 t))

  read_decimal-Cut :
      (c : ℕ) (t : Text) (n : ℕ)
      → (is_decimal c || c == 46) ≡ true
      → Yields (Cut (length t)) (read_decimal u (record { rest = c ∷ t; line = n }))
  unfolding read_decimal
  read_decimal-Cut c t n e = from (
      u.parse_float (
        (while_true (λ d. is_decimal d || d == 46) (c ∷ t)).0
        ++ (exponent (while_true (λ d. is_decimal d || d == 46) (c ∷ t)).1).0))
    where
      from :
          (o : Option R)
          → Yields (Cut (length t)) (elim o [
            | none ↦ failed (bad_number n)
            | some v ↦ ok (
              record { kind = number v; line = n },
              record {
                rest = (exponent (while_true (λ d. is_decimal d || d == 46) (c ∷ t)).1).1;
                line = n;
              },
            )
          ])
      from none = refused
      from (some v) = value (
        refl,
        omega (
          arith,
          length-exponent (while_true (λ d. is_decimal d || d == 46) (c ∷ t)).1,
          while_true-shrinks (λ d. is_decimal d || d == 46) c t e,
        ),
      )

  read_number-Cut :
      (c : ℕ) (t : Text) (n : ℕ)
      → (is_decimal c || c == 46) ≡ true
      → Yields (Cut (length t)) (read_number u (record { rest = c ∷ t; line = n }))
  unfolding read_number
  read_number-Cut c t n e = Yields-if _ (λ _. read_hex-Cut c t n) (λ _. read_decimal-Cut c t n e)

  -- A letter that starts a word belongs to it.
  is_ident_start-part : (c : ℕ) → is_ident_start u c ≡ true → is_ident_part u c ≡ true
  unfolding is_ident_start is_ident_part
  is_ident_start-part c e = ground (arith, e)

  punctuators-nonempty : All (λ p. 0 < length p) punctuators
  punctuators-nonempty = omega arith

  read_punct-Cut :
      (c : ℕ) (t : Text) (n : ℕ)
      → Yields (Cut (length t)) (read_punct u (record { rest = c ∷ t; line = n }))
  unfolding read_punct
  read_punct-Cut c t n =
      from (find (has_prefix (c ∷ t)) punctuators) (λ p. find→In (has_prefix (c ∷ t)) punctuators)
    where
      from :
          (o : Option Text)
          → ((p : Text) → o ≡ some p → In p punctuators × (has_prefix (c ∷ t) p ≡ true))
          → Yields (Cut (length t)) (elim o [
            | some p ↦ ok (
              record { kind = punct p; line = n },
              record { rest = drop (length p) (c ∷ t); line = n },
            )
            | none ↦ failed (bad_character n)
          ])
      from none h = refused
      from (some p) h =
          let some_length : 0 < length p =
            All-In (λ p. 0 < length p) punctuators punctuators-nonempty (h p refl).0 in
          value (refl, omega (arith, length-drop (length p) (c ∷ t)))

  string_token-Cut :
      (n : ℕ) (t : Text) (r : Text × Text)
      → length r.1 ≤ length t
      → Yields (Cut (length t)) (ok (string_token u n r))
  string_token-Cut n t (text, left) q = value (refl, omega arith)

  template_token-Cut :
      (n : ℕ) (t : Text) (r : Template)
      → source_weight r.exprs + length r.after.rest + 0 ≤ length t
      → Yields (Cut (length t)) (ok (template_token u n r))
  template_token-Cut n t r q = value (refl, omega arith)

  read_ident-Cut :
      (c : ℕ) (t : Text) (n : ℕ)
      → is_ident_start u c ≡ true
      → Yields (Cut (length t)) (ok (read_ident u (record { rest = c ∷ t; line = n })))
  unfolding read_ident
  read_ident-Cut c t n e =
      let shrinks = while_true-shrinks (is_ident_part u) c t (is_ident_start-part c e) in
      value (refl, omega arith)

  next-Cut : (c : ℕ) (t : Text) (n : ℕ) → Yields (Cut (length t)) (next u c t n)
  unfolding next
  next-Cut c t n =
      Yields-if (c == 39 || c == 34)
        (λ _. Yields-then (length-read_string c n 0 t) (string_token-Cut n t))
        (λ _.
          Yields-if (c == 96)
            (λ _. Yields-then (read_template-Yields n n 0 t) (template_token-Cut n t))
            (λ _.
              Yields-if (is_decimal c || c == 46 && starts_decimal t)
                (λ e. read_number-Cut c t n (ground (arith, e)))
                (λ _.
                  Yields-if (is_ident_start u c) (read_ident-Cut c t n)
                    (λ _. read_punct-Cut c t n))))

  abbrev Tokens : ℕ → List (Token R) → Type 0
  Tokens n ts = Ended ts × (weight ts ≤ suc n)

  tokenize_from-Tokens :
      (later : Lexer.Lexer → Outcome (List (Token R))) (t : Text) (n : ℕ)
      → ((l : Lexer.Lexer) → length l.rest < length t → Yields (Tokens (length l.rest)) (later l))
      → Yields (Tokens (length t)) (tokenize_from u later t n)
  unfolding tokenize_from
  tokenize_from-Tokens later [] n h = value (refl, omega arith)
  tokenize_from-Tokens later (c ∷ t) n h = Yields-then (next-Cut c t n) λ (token, l) cut.
      Yields-then (h l (weighs token l cut)) λ ts q. value (rw cut.0 q.0, omega (arith, cut.1, q.1))
    where
      weighs :
          (token : Token R) (l : Lexer.Lexer)
          → Cut (length t) (token, l)
          → length l.rest < suc (length t)
      weighs token l cut = ground (arith, cut.1)

  tokenize_within-Tokens :
      (f : ℕ) (l : Lexer.Lexer)
      → length l.rest < f
      → Yields (Tokens (length l.rest)) (tokenize_within u f l)
  unfolding tokenize_within
  tokenize_within-Tokens zero l h = absurd (omega arith)
  tokenize_within-Tokens (suc f) l h =
      Yields-then (skip_space-Yields (suc (length l.rest)) l (omega arith)) λ at q.
        Yields-map (λ ts r. (r.0, omega (arith, r.1)))
          (tokenize_from-Tokens (tokenize_within u f) at.rest at.line
            (λ l' less. tokenize_within-Tokens f l' (omega arith)))

  -- Every source is cut into tokens or refused; the model's fuel does not run out. The tokens end
  -- with the one end token, and weigh no more than the characters and the end.
  pub tokenize-Tokens :
      (source : Text)
      → Yields
          (λ (ts : List (Token R)). Ended ts × (weight ts ≤ suc (length source)))
          (tokenize u source)
  unfolding tokenize
  tokenize-Tokens source = tokenize_within-Tokens (suc (length source)) _ (omega arith)
