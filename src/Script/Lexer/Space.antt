-- ===== src/Script/Lexer/Space.antt =====
-- internal/script/lexer.go: `skipSpace`, white space and comments.
use laskah.Prelude.{
  ℕ, zero, suc, ◌+◌, ◌-◌, ◌||◌, Option, none, some, [], ◌∷◌, ◌==◌, nat_eq, if◌then◌else◌, drop,
  count,
}
use laskah.Prelude.Text.{Text, codes}
use laskah.Script.Outcome.{Fault, comment_not_closed, Outcome, ok, failed, out_of_fuel}
use laskah.Script.Lexer.{Lexer, has_prefix}

-- What follows the first `*/`, if there is one.
unfoldable pub after_comment : Text → Option Text
unfolding has_prefix
after_comment [] = none
after_comment (c ∷ text) =
    let later = after_comment text in
    if has_prefix (c ∷ text) (codes "*/") then some (drop 1 text) else later

unfoldable pub until_newline : Text → Text
until_newline [] = []
until_newline (c ∷ text) = let later = until_newline text in if c == 10 then c ∷ text else later

pub data Skip : Type 0 where
  stop : Skip
  again : Lexer → Skip
  stuck : Fault → Skip

-- The lines of the comment that ends where `after` starts.
unfoldable pub newlines_before : Text → Text → ℕ
newlines_before text after = count (λ c. c == 10) text - count (λ c. c == 10) after

unfoldable pub close_comment : Lexer → Option Text → Skip
unfolding newlines_before
close_comment l none = stuck (comment_not_closed l.line)
close_comment l (some after) =
    again (record { rest = after; line = l.line + newlines_before l.rest after })

-- One round of the loop of `skipSpace`.
unfoldable pub skip_round : Text → ℕ → Skip
unfolding has_prefix after_comment until_newline close_comment
skip_round [] n = stop
skip_round (c ∷ text) n =
    if c == 10
    then again (record { rest = text; line = n + 1 })
    else (if c == 32 || c == 9 || c == 13
        then again (record { rest = text; line = n })
        else (if has_prefix (c ∷ text) (codes "//")
            then again (record { rest = until_newline (c ∷ text); line = n })
            else (if has_prefix (c ∷ text) (codes "/*")
                then close_comment (record { rest = c ∷ text; line = n })
                    (after_comment (drop 1 text))
                else stop)))

unfoldable pub skip_space : ℕ → Lexer → Outcome Lexer
unfolding skip_round
skip_space zero l = out_of_fuel
skip_space (suc f) l = elim (skip_round l.rest l.line) [
  | stop ↦ ok l
  | again l' ↦ skip_space f l'
  | stuck w ↦ failed w
]
