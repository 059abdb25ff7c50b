-- ===== src/Examples/Removals.antt =====
-- Examples for the removal of accounts, groups, upstream APIs and keys.
use laskah.Prelude.{refl, List, [], ◌∷◌, arith, inl, inr, any}
use laskah.Prelude.Text.{codes, text_eq, text_beq, trim_space, trim_left, is_space}
use laskah.Store.Remove.Links.{IsLinked}
use laskah.Store.Remove.Sequences.{
  Removal, accounts_of, groups_of, providers_of, keys_of, remove_all, remove_all-IsLinked,
}
use laskah.Examples.Samples.{two_accounts}

two_accounts-IsLinked : IsLinked two_accounts
unfolding any text_beq trim_space trim_left is_space
two_accounts-IsLinked = record {
  named = (refl, (refl, tt));
  providers = (inr refl, (inr refl, tt));
  keys = (inl refl, (inr refl, tt));
  grouped = (inl refl, (inl refl, tt));
  keys_grouped = (inl refl, (inl refl, tt));
  recent = omega arith;
}

abbrev some_removals : List Removal
some_removals =
    providers_of (codes "p" ∷ [])
    ∷ accounts_of (codes "a" ∷ []) (codes "empty") 9
    ∷ groups_of (codes "g" ∷ []) 10
    ∷ keys_of (codes "l" ∷ [])
    ∷ []

remove_all-IsLinked_example : IsLinked (remove_all two_accounts some_removals)
remove_all-IsLinked_example = remove_all-IsLinked two_accounts some_removals two_accounts-IsLinked
