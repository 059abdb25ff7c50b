-- ===== src/Script/Program/Guards.antt =====
-- internal/script/script.go: the test for `{{` in front of the substitution only saves work.
use laskah.Prelude.{
  ℕ, ◌≡◌, refl, Bool, true, false, Option, none, some, List, [], ◌∷◌, ◌==◌, if◌then◌else◌, length,
  drop, sym, subst, ◌-◌,
}
use laskah.Prelude.Text.{Text, codes, text_eq, text_beq_iff}
use laskah.Script.Lexer.{has_prefix}
use laskah.Script.Values.Texts.{find_text, contains}
use laskah.Script.Program.Templates.{Piece, letter, hole, pieces, fill, match_at, substitute}

contains-tail :
    (c : ℕ) (text : Text)
    → contains (c ∷ text) (codes "{{") ≡ false
    → (has_prefix (c ∷ text) (codes "{{") ≡ false) × (contains text (codes "{{") ≡ false)
unfolding contains find_text
contains-tail c text = from (has_prefix (c ∷ text) (codes "{{")) (find_text (codes "{{") text)
  where
    found : Bool → Option (Text × Text) → Option (Text × Text)
    found b later =
        if b then some ([], drop 2 (c ∷ text)) else elim later as (λ _. Option (Text × Text)) [
          | none ↦ none
          | some (before, behind) ↦ some (c ∷ before, behind)
        ]

    from :
        (b : Bool) (later : Option (Text × Text))
        → elim (found b later) as (λ (_ : Option (Text × Text)). Bool) [
          | none ↦ false
          | some _ ↦ true
        ]
          ≡ false
        → (b ≡ false) × (elim later as (λ _. Bool) [ none ↦ false | some _ ↦ true ] ≡ false)
    from true later e = absurd cc
    from false none e = (refl, refl)
    from false (some x) e = absurd cc

no_match : (text : Text) → has_prefix text (codes "{{") ≡ false → match_at text ≡ none
unfolding match_at
no_match text e = rw e

pieces-letter :
    (c : ℕ) (text : Text)
    → match_at (c ∷ text) ≡ none
    → pieces 0 (c ∷ text) ≡ letter c ∷ pieces 0 text
unfolding pieces
pieces-letter c text = from (match_at (c ∷ text))
  where
    from :
        (o : Option (Text × Text))
        → o ≡ none
        → elim o as (λ _. List Piece) [
          | none ↦ letter c ∷ pieces 0 text
          | some (name, rest) ↦ hole name ∷ pieces (length text - length rest) text
        ]
          ≡ letter c ∷ pieces 0 text
    from none e = refl
    from (some x) e = absurd cc

pieces-nil : pieces 0 [] ≡ []
unfolding pieces
pieces-nil = refl

fill-pieces :
    (vars : List (Text × Text)) (text : Text)
    → contains text (codes "{{") ≡ false
    → fill vars (pieces 0 text) ≡ text
unfolding fill
fill-pieces vars [] e = rw pieces-nil
fill-pieces vars (c ∷ text) e =
    let (p, later) = contains-tail c text e in
    rw (pieces-letter c text (no_match (c ∷ text) p), fill-pieces vars text later)

-- The tests in front of the substitution only save work: it always gives the text with each
-- match of the pattern replaced.
pub substitute-fill :
    (text : Text) (vars : List (Text × Text)) → substitute text vars ≡ fill vars (pieces 0 text)
unfolding substitute pieces fill
substitute-fill text vars =
    from (text == codes "") (contains text (codes "{{")) empty (fill-pieces vars text)
  where
    empty : (text == codes "") ≡ true → text ≡ fill vars (pieces 0 text)
    empty e = subst (λ t. t ≡ fill vars (pieces 0 t)) (sym ((text_beq_iff text []).0 e)) refl

    from :
        (b d : Bool)
        → (b ≡ true → text ≡ fill vars (pieces 0 text))
        → (d ≡ false → fill vars (pieces 0 text) ≡ text)
        → (if b then text else (if d then fill vars (pieces 0 text) else text))
          ≡ fill vars (pieces 0 text)
    from true d k l = k refl
    from false true k l = refl
    from false false k l = sym (l refl)
