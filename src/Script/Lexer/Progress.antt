-- ===== src/Script/Lexer/Progress.antt =====
-- The loops of internal/script/lexer.go take characters away, so that the fuel of the model is enough
-- for every source.
use laskah.Prelude.{
  ℕ, zero, suc, ◌+◌, ◌-◌, ◌≤◌, ◌<◌, ◌≡◌, refl, Bool, true, false, Option, none, some, [], ◌∷◌, ◌==◌,
  nat_eq, length, drop, length-drop, arith,
}
use laskah.Prelude.Text.{Text}
use laskah.Script.Outcome.{
  ok, failed, then_do, string_over_lines, expression_not_closed, Yields, value, refused,
  Yields-then, Yields-map,
}
use laskah.Script.Lexer
use laskah.Script.Lexer.{Reader, Token, Kind, punctuators, has_prefix, source_weight}
use laskah.Script.Lexer.Space.{
  Skip, stop, again, stuck, after_comment, until_newline, close_comment, skip_round, skip_space,
}
use laskah.Script.Lexer.Literals.{
  is_decimal, Escape, decoded, StringRound, ends, writes, newline, string_round, read_string,
  TemplateRound, closing, text_part, expression, template_round, Template, read_template,
  line_after, push_char,
}
use laskah.Script.Lexer.Scan.{while_true, exponent}

after_comment-shrinks : (t left : Text) → after_comment t ≡ some left → length left < length t
unfolding after_comment
after_comment-shrinks [] left e = absurd (ground (arith, e))
after_comment-shrinks (c ∷ t) left e = ground (arith, after_comment-shrinks t left, length-drop 1 t)

length-until_newline : (t : Text) → length (until_newline t) ≤ length t
unfolding until_newline
length-until_newline [] = omega arith
length-until_newline (c ∷ t) = ground (arith, length-until_newline t)

-- The end of a block comment lies behind its start.
close_comment-shrinks :
    (c n : ℕ) (t : Text) (l : Lexer.Lexer)
    → close_comment (record { rest = c ∷ t; line = n }) (after_comment (drop 1 t)) ≡ again l
    → length l.rest < suc (length t)
close_comment-shrinks c n t l = from (after_comment (drop 1 t)) (after_comment-shrinks (drop 1 t))
  where
    from :
        (o : Option Text)
        → ((left : Text) → o ≡ some left → length left < length (drop 1 t))
        → close_comment (record { rest = c ∷ t; line = n }) o ≡ again l
        → length l.rest < suc (length t)
    from none h e = unfold close_comment in cc
    from (some left) h e = unfold close_comment in ground (arith, h left refl, length-drop 1 t, e)

-- A line comment starts with a slash, which is no newline.
until_newline-shrinks :
    (c : ℕ) (t : Text) → (c == 10) ≡ false → length (until_newline (c ∷ t)) < suc (length t)
unfolding until_newline
until_newline-shrinks c t e = rw e (omega (arith, length-until_newline t))

skip_round-shrinks :
    (t : Text) (n : ℕ) (l : Lexer.Lexer) → skip_round t n ≡ again l → length l.rest < length t
unfolding skip_round
skip_round-shrinks [] n l e = cc
skip_round-shrinks (c ∷ t) n l e =
    ground (arith, e, close_comment-shrinks c n t l, until_newline-shrinks c t)

-- White space is passed over within the fuel.
pub skip_space-Yields :
    (f : ℕ) (l : Lexer.Lexer)
    → length l.rest < f
    → Yields (λ (l' : Lexer.Lexer). length l'.rest ≤ length l.rest) (skip_space f l)
unfolding skip_space
skip_space-Yields zero l h = absurd (omega arith)
skip_space-Yields (suc f) l h =
    from (skip_round l.rest l.line) (skip_round-shrinks l.rest l.line)
      (λ l' less. skip_space-Yields f l' (omega arith))
  where
    from :
        (r : Skip)
        → ((l' : Lexer.Lexer) → r ≡ again l' → length l'.rest < length l.rest)
        → ((l' : Lexer.Lexer)
            → length l'.rest < length l.rest
            → Yields (λ (l'' : Lexer.Lexer). length l''.rest ≤ length l'.rest) (skip_space f l'))
        → Yields
            (λ (l' : Lexer.Lexer). length l'.rest ≤ length l.rest)
            (elim r [ stop ↦ ok l | again l' ↦ skip_space f l' | stuck w ↦ failed w ])
    from stop s ih = value (omega arith)
    from (stuck w) s ih = refused
    from (again l') s ih = Yields-map (λ l'' q. omega (arith, s l' refl)) (ih l' (s l' refl))

pub length-while_true : (test : ℕ → Bool) (t : Text) → length (while_true test t).1 ≤ length t
unfolding while_true
length-while_true test [] = omega arith
length-while_true test (c ∷ t) = ground (arith, length-while_true test t)

-- A character that passes the test is taken away.
pub while_true-shrinks :
    (test : ℕ → Bool) (c : ℕ) (t : Text)
    → test c ≡ true
    → length (while_true test (c ∷ t)).1 ≤ length t
unfolding while_true
while_true-shrinks test c t e = rw e (length-while_true test t)

pub length-exponent : (t : Text) → length (exponent t).1 ≤ length t
unfolding exponent
length-exponent [] = omega arith
length-exponent (c ∷ t) = ground (
  arith,
  length-while_true is_decimal t,
  length-while_true is_decimal (drop 1 t),
  length-drop 1 t,
)

pub length-read_string :
    (quote n skip : ℕ) (t : Text)
    → Yields (λ (r : Text × Text). length r.1 ≤ length t) (read_string quote n skip t)
unfolding read_string
length-read_string quote n skip [] = refused
length-read_string quote n (suc skip) (c ∷ t) =
    Yields-map (λ r q. omega arith) (length-read_string quote n skip t)
length-read_string quote n zero (c ∷ t) =
    from (string_round quote n c t) (λ k. length-read_string quote n k t)
  where
    from :
        (round : StringRound)
        → ((k : ℕ) → Yields (λ (r : Text × Text). length r.1 ≤ length t) (read_string quote n k t))
        → Yields
            (λ (r : Text × Text). length r.1 ≤ suc (length t))
            (elim round [
              | ends ↦ ok ([], t)
              | writes (decoded d size) ↦
                  then_do (read_string quote n (size - 1) t) λ (later, left). ok (d ∷ later, left)
              | writes (Escape.refused w) ↦ failed w
              | newline ↦ failed (string_over_lines n)
            ])
    from ends ih = value (omega arith)
    from (writes (decoded d size)) ih = Yields-then (ih (size - 1)) (λ r q. value (omega arith))
    from (writes (Escape.refused w)) ih = refused
    from newline ih = refused

pub read_template-Yields :
    (start line skip : ℕ) (t : Text)
    → Yields
        (λ (r : Template). source_weight r.exprs + length r.after.rest + skip ≤ length t)
        (read_template start line skip t)
unfolding read_template
read_template-Yields start line skip [] = refused
read_template-Yields start line (suc skip) (c ∷ t) =
    Yields-map (λ r q. omega arith) (read_template-Yields start line skip t)
read_template-Yields start line zero (c ∷ t) =
    from (template_round start c t) (λ m k. read_template-Yields start m k t)
  where
    from :
        (round : TemplateRound)
        → ((m k : ℕ)
            → Yields
                (λ (r : Template). source_weight r.exprs + length r.after.rest + k ≤ length t)
                (read_template start m k t))
        → Yields
            (λ (r : Template). source_weight r.exprs + length r.after.rest + 0 ≤ suc (length t))
            (elim round [
              | closing ↦ ok (record {
                chunks = [] ∷ [];
                exprs = [];
                after = record { rest = t; line = line };
              })
              | text_part (decoded d size) ↦
                  then_do
                    (read_template start (line_after c line) (size - 1) t)
                    λ r. ok (record r { chunks = push_char d r.chunks })
              | text_part (Escape.refused w) ↦ failed w
              | expression none ↦ failed (expression_not_closed start)
              | expression (some source) ↦
                  then_do
                    (read_template start line (length source + 2) t)
                    λ r. ok (record r { chunks = [] ∷ r.chunks; exprs = source ∷ r.exprs })
            ])
    from closing ih = value (omega arith)
    from (text_part (decoded d size)) ih =
        Yields-then (ih (line_after c line) (size - 1)) (λ r q. value (omega arith))
    from (text_part (Escape.refused w)) ih = refused
    from (expression none) ih = refused
    from (expression (some source)) ih =
        Yields-then (ih line (length source + 2)) (λ r q. value (omega arith))
