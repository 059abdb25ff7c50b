-- ===== src/Script/Lexer/Longest.antt =====
-- internal/script/lexer.go: the order of `punctuators` makes the longest one win.
use laskah.Prelude.{
  ℕ, ◌≤◌, ◌≡◌, refl, ap, Bool, true, false, Option, none, some, List, [], ◌∷◌, ◌++◌, length, drop,
  find, In, All, All-In, find→In, Bool-cases, inl, inr, nat_eq, eq_of_beq, arith,
}
use laskah.Prelude.Text.{Text}
use laskah.Script.Outcome.{Outcome, ok, failed, bad_character}
use laskah.Script.Lexer
use laskah.Script.Lexer.{Reader, Token, punct, punctuators, has_prefix}
use laskah.Script.Lexer.Scan.{read_punct}

-- No later text is longer.
abbrev Descending : List Text → Type 0
Descending [] = Unit
Descending (p ∷ ps) = All (λ q. length q ≤ length p) ps × Descending ps

punctuators-Descending : Descending punctuators
punctuators-Descending = omega arith

find-longest :
    (test : Text → Bool) (p q : Text) (ps : List Text)
    → Descending ps
    → find test ps ≡ some p
    → In q ps
    → test q ≡ true
    → length q ≤ length p
unfolding find
find-longest test p q [] d e m w = absurd m
find-longest test p q (x ∷ ps) d e m w = elim (Bool-cases (test x)) [
  | inl h ↦ first m (rw h at e)
  | inr h ↦ later h m (find-longest test p q ps d.1 (rw h at e))
]
  where
    first : In q (x ∷ ps) → some x ≡ some p → length q ≤ length p
    first (inl r) e' = let same : x ≡ p = cc in rw (r, same) (omega arith)
    first (inr r) e' =
        let same : x ≡ p = cc in rw (← same) (All-In (λ y. length y ≤ length x) ps d.0 r)

    later :
        test x ≡ false
        → In q (x ∷ ps)
        → (In q ps → test q ≡ true → length q ≤ length p)
        → length q ≤ length p
    later h (inl r) ih = absurd (let h' : test q ≡ false = rw r h in ground (arith, h', w))
    later h (inr r) ih = ih r w

find-none :
    (test : Text → Bool) (q : Text) (ps : List Text)
    → find test ps ≡ none
    → In q ps
    → test q ≡ true
    → ⊥
unfolding find
find-none test q [] e m w = m
find-none test q (x ∷ ps) e (inl r) w = let w' : test x ≡ true = rw (← r) w in cc (rw w' at e)
find-none test q (x ∷ ps) e (inr r) w = elim (Bool-cases (test x)) [
  | inl h ↦ cc (rw h at e)
  | inr h ↦ find-none test q ps (rw h at e) r w
]

-- A text that starts with `p` is `p` and what is left of it.
has_prefix-append : (t p : Text) → has_prefix t p ≡ true → t ≡ p ++ drop (length p) t
unfolding has_prefix
has_prefix-append t [] e = refl
has_prefix-append [] (c ∷ p) e = cc
has_prefix-append (d ∷ t) (c ∷ p) e =
    let same : d ≡ c = eq_of_beq d c (ground (arith, e)) in
    rw same (ap (λ r. c ∷ r) (has_prefix-append t p (ground (arith, e))))

-- If a punctuator of the table stands at the start of the text, the token read is one of the
-- table that stands there and is at least as long, and exactly its characters are taken.
pub read_punct-longest :
    {R : Type 0} (u : Reader R) (t q : Text) (n : ℕ)
    → In q punctuators
    → has_prefix t q ≡ true
    → (p : Text) × In p punctuators
      × (length q ≤ length p)
      × (t ≡ p ++ drop (length p) t)
      × (read_punct u (record { rest = t; line = n })
          ≡ ok (record { kind = punct p; line = n }, record { rest = drop (length p) t; line = n }))
unfolding read_punct
read_punct-longest {R} u t q n m e = from (find (has_prefix t) punctuators) refl
  where
    from :
        (o : Option Text)
        → find (has_prefix t) punctuators ≡ o
        → (p : Text) × In p punctuators
          × (length q ≤ length p)
          × (t ≡ p ++ drop (length p) t)
          × (elim o as (λ _. Outcome (Token R × Lexer.Lexer)) [
            | some s ↦
                ok (
                  record { kind = punct s; line = n },
                  record { rest = drop (length s) t; line = n },
                )
            | none ↦ failed (bad_character n)
          ]
              ≡ ok (
                record { kind = punct p; line = n },
                record { rest = drop (length p) t; line = n },
              ))
    from none h = absurd (find-none (has_prefix t) q punctuators h m e)
    from (some p) h =
        let found = find→In (has_prefix t) punctuators h in
        (
          p,
          found.0,
          find-longest (has_prefix t) p q punctuators punctuators-Descending h m e,
          has_prefix-append t p found.1,
          refl,
        )
