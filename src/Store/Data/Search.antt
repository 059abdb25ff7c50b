-- ===== src/Store/Data/Search.antt =====
-- After `reindex`, a search through an index finds what the scan of the list finds.
use mathlib.Core.List.{append-nil, append_assoc}
use laskah.Prelude.{
  ℕ, suc, ◌+◌, ◌≡◌, refl, sym, ◌∙◌, ap, subst, true, false, Option, none, some, List, [], ◌∷◌, ◌++◌,
  arith, inl, inr, ◌⊎◌, Bool-cases, ◌==◌, if◌then◌else◌, get_elem?, find, count, keep, beq_cases,
  eq_of_beq,
}
use laskah.Prelude.Text.{Text, codes, text_eq}
use laskah.Prelude.Maps.{lookup, insert, lookup-insert, beq_swap}
use laskah.Store.Model.{Provider, ApiKey, Group}
use laskah.Store.Account.{Account}
use laskah.Store.Data.{
  Data, list_at, at_positions, put_some, own_positions, number_at, key_loads, reindex, find_group,
  find_account, find_provider, keys_using_account, account_providers,
}
use laskah.Store.Data.Positions.{
  OneEach, StandsAt, StandsAt-self, StandsAt-head, StandsAt-tail, positions_found,
}

pub number_at-insert :
    (own id : Text) (v : ℕ) (m : List (Text × ℕ))
    → number_at id (insert own v m) ≡ (if own == id then v else number_at id m)
unfolding number_at
number_at-insert own id v m =
    ap (λ (o : Option ℕ). elim o [ none ↦ 0 | some n ↦ n ]) (lookup-insert own id v m)
    ∙ elim (Bool-cases (own == id)) [ inl e ↦ rw e refl | inr e ↦ rw e refl ]

list_at-insert :
    (own id : Text) (v : List ℕ) (m : List (Text × List ℕ))
    → list_at id (insert own v m) ≡ (if own == id then v else list_at id m)
unfolding list_at
list_at-insert own id v m =
    ap (λ (o : Option (List ℕ)). elim o [ none ↦ [] | some n ↦ n ]) (lookup-insert own id v m)
    ∙ elim (Bool-cases (own == id)) [ inl e ↦ rw e refl | inr e ↦ rw e refl ]

-- An empty owner is nobody.
pub empty_owner :
    (own id : Text) → (id == codes "") ≡ false → (own == codes "") ≡ true → (own == id) ≡ false
empty_owner own id n e = rw (eq_of_beq own (codes "") e) (beq_swap (codes "") id ∙ n)

-- What one key adds to the load of an account.
number_at-bump :
    (id own : Text) (m : List (Text × ℕ))
    → (id == codes "") ≡ false
    → number_at id (if own == codes "" then m else insert own (suc (number_at own m)) m)
      ≡ number_at id m + (if own == id then 1 else 0)
number_at-bump id own m n = elim (Bool-cases (own == codes "")) [
  | inl e ↦ rw (e, empty_owner own id n e) (omega arith)
  | inr e ↦ rw e (number_at-insert own id (suc (number_at own m)) m ∙ counted (beq_cases own id))
]
  where
    counted :
        ((own == id) ≡ true) × (own ≡ id) ⊎ ((own == id) ≡ false) × (¬ (own ≡ id))
        → (if own == id then suc (number_at own m) else number_at id m)
          ≡ number_at id m + (if own == id then 1 else 0)
    counted (inl (b, q)) = rw b (rw q (omega arith))
    counted (inr (b, q)) = rw b (omega arith)

put_some-append :
    {A : Type 0} (o : Option A) (xs ys : List A) → put_some o (xs ++ ys) ≡ put_some o xs ++ ys
unfolding put_some
put_some-append none xs ys = refl
put_some-append (some x) xs ys = refl

at_positions-append :
    {A : Type 0} (ys : List A) (is js : List ℕ)
    → at_positions ys (is ++ js) ≡ at_positions ys is ++ at_positions ys js
unfolding at_positions
at_positions-append ys [] js = refl
at_positions-append ys (i ∷ is) js =
    ap (put_some (get_elem? ys i)) (at_positions-append ys is js)
    ∙ put_some-append (get_elem? ys i) (at_positions ys is) (at_positions ys js)

at_positions_one :
    {A : Type 0} (ys : List A) (i : ℕ) (x : A)
    → get_elem? ys i ≡ some x
    → at_positions ys (i ∷ []) ≡ x ∷ []
unfolding at_positions put_some
at_positions_one ys i x e = ap (λ o. put_some o []) e

pub loads_from_none : {n k : ℕ} → n ≡ 0 + k → n ≡ k
loads_from_none h = omega (arith, h)

module _ {R : Type 0} where
  pub number_at-key_loads :
      (id : Text) (ks : List (ApiKey R)) (m : List (Text × ℕ))
      → (id == codes "") ≡ false
      → number_at id (key_loads ks m) ≡ number_at id m + count (λ k. k.account_id == id) ks
  unfolding key_loads count
  number_at-key_loads id [] m n = omega arith
  number_at-key_loads id (k ∷ ks) m n =
      let own = k.account_id in
      let m' = if own == codes "" then m else insert own (suc (number_at own m)) m in
      number_at-key_loads id ks m' n ∙ elim (Bool-cases (own == id)) [
        | inl e ↦ rw (number_at-bump id own m n, e) (omega arith)
        | inr e ↦ rw (number_at-bump id own m n, e) (omega arith)
      ]

  list_at-own_positions :
      (id : Text) (ys xs : List (Provider R)) (i : ℕ) (m : List (Text × List ℕ))
      → (id == codes "") ≡ false
      → StandsAt ys i xs
      → at_positions ys (list_at id (own_positions i xs m))
        ≡ at_positions ys (list_at id m) ++ keep (λ p. p.account_id == id) xs
  unfolding own_positions keep
  list_at-own_positions id ys [] i m n h = sym (append-nil _)
  list_at-own_positions id ys (x ∷ xs) i m n h =
      let own = x.account_id in
      let m' = if own == codes "" then m else insert own (list_at own m ++ i ∷ []) m in
      list_at-own_positions id ys xs (suc i) m' n (StandsAt-tail ys i x xs h)
      ∙ elim (Bool-cases (own == codes "")) [
        | inl e ↦ rw (e, empty_owner own id n e) refl
        | inr e ↦
            rw (e, list_at-insert own id (list_at own m ++ i ∷ []) m) (listed (beq_cases own id))
      ]
    where
      tail : List (Provider R)
      tail = keep (λ p. p.account_id == id) xs

      listed :
          ((x.account_id == id) ≡ true) × (x.account_id ≡ id)
            ⊎ ((x.account_id == id) ≡ false) × (¬ (x.account_id ≡ id))
          → at_positions ys
                (if x.account_id == id then list_at x.account_id m ++ i ∷ [] else list_at id m)
              ++ tail
            ≡ at_positions ys (list_at id m) ++ (if x.account_id == id then x ∷ tail else tail)
      listed (inl (b, q)) = rw b (
          subst
            (λ o.
              at_positions ys (list_at o m ++ i ∷ []) ++ tail
              ≡ at_positions ys (list_at id m) ++ x ∷ tail)
            (sym q)
            (rw
              (
                at_positions-append ys (list_at id m) (i ∷ []),
                at_positions_one ys i x (StandsAt-head ys i x xs h),
              )
              (append_assoc (at_positions ys (list_at id m)) (x ∷ []) tail)))
      listed (inr (b, q)) = rw b refl

  -- For an id that is not empty, and accounts, groups and providers with distinct ids, the
  -- searches through the indexes that `reindex` makes find what the scans of the lists find:
  -- the account, the group, the provider, the number of keys on the account, and its providers
  -- in order.
  pub reindex-scans :
      (d : Data R) (id : Text)
      → (id == codes "") ≡ false
      → OneEach (λ (a : Account R). a.id) d.accounts
      → OneEach (λ (g : Group). g.id) d.groups
      → OneEach (λ (p : Provider R). p.id) d.providers
      → (find_account (reindex d) id ≡ find (λ a. a.id == id) d.accounts)
        × (find_group (reindex d) id ≡ find (λ g. g.id == id) d.groups)
        × (find_provider (reindex d) id ≡ find (λ p. p.id == id) d.providers)
        × (keys_using_account (reindex d) id ≡ count (λ k. k.account_id == id) d.keys)
        × (account_providers (reindex d) id ≡ keep (λ p. p.account_id == id) d.providers)
  unfolding reindex find_account find_group find_provider keys_using_account account_providers
      lookup list_at at_positions number_at count
  reindex-scans d id n a g p = (
    rw n (
        positions_found (λ (a : Account R). a.id) id 0 d.accounts d.accounts [] a refl
          (StandsAt-self d.accounts)),
    rw n (
        positions_found (λ (g : Group). g.id) id 0 d.groups d.groups [] g refl
          (StandsAt-self d.groups)),
    positions_found (λ (p : Provider R). p.id) id 0 d.providers d.providers [] p refl
        (StandsAt-self d.providers),
    loads_from_none (number_at-key_loads id d.keys [] n),
    list_at-own_positions id d.providers d.providers 0 [] n (StandsAt-self d.providers),
  )
