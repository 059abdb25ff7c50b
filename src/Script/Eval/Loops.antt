-- ===== src/Script/Eval/Loops.antt =====
-- internal/script/array.go: the methods of arrays keep the pace.
use laskah.Prelude.{
  ℕ, zero, suc, ◌+◌, ◌≤◌, Bool, true, false, not, Option, some, List, [], ◌∷◌, ◌++◌, ◌==◌, leb,
  length, if◌then◌else◌, arith,
}
use laskah.Prelude.Text.{Text, codes, text_eq}
use laskah.Script.Outcome.{Outcome, ok, then_do, Yields, value, refused, Yields-then, Yields-if}
use laskah.Script.Values.{Host, Value, Interp, items_at, max_steps, max_array_len}
use laskah.Script.Values.Convert.{is_nullish, truthy}
use laskah.Script.Values.Methods.{arg_at, number_of}
use laskah.Script.Values.Settled.{to_string-Settles, Yields-choose}
use laskah.Script.Eval.{Calls}
use laskah.Script.Eval.Arrays.{
  item_now, call_on, map_loop, filter_loop, search_loop, each_loop, reduce_loop, reduce_items,
  comes_before, insert_back, sort_loop, concat_items, concat_arrays, test_items, array_loop,
  array_method,
}
use laskah.Script.Eval.Pace.{On, Paced, IsPaced, ahead}

module _ {R : Type 0} (h : Host R) (f : ℕ) (c : Calls R) (p : IsPaced f c) where
  call_on-Paced : (callback : Value R) (r i : ℕ) → Paced f (call_on h c callback r i)
  unfolding call_on item_now
  call_on-Paced callback r i s b w =
      Yields-then (p.invoke_lem callback (arg_at (items_at s.cells r) i ∷ number_of h i ∷ []) s b w)
        λ x q. value q

  map_loop-Paced : (callback : Value R) (r n i : ℕ) → Paced f (map_loop h c callback r n i)
  unfolding map_loop
  map_loop-Paced callback r zero i s b w = value (omega arith, b)
  map_loop-Paced callback r (suc n) i s b w =
      Yields-then (call_on-Paced callback r i s b w) λ (_, s₁) q₁.
        Yields-then (map_loop-Paced callback r n (i + 1) s₁ q₁.1 (omega arith))
          λ _ q₂. value (omega arith, q₂.1)

  filter_loop-Paced : (callback : Value R) (r n i : ℕ) → Paced f (filter_loop h c callback r n i)
  unfolding filter_loop
  filter_loop-Paced callback r zero i s b w = value (omega arith, b)
  filter_loop-Paced callback r (suc n) i s b w =
      Yields-then (call_on-Paced callback r i s b w) λ (_, s₁) q₁.
        Yields-then (filter_loop-Paced callback r n (i + 1) s₁ q₁.1 (omega arith))
          λ _ q₂. value (omega arith, q₂.1)

  search_loop-Paced :
      (wanted : Bool) (callback : Value R) (r n i : ℕ)
      → Paced f (search_loop h c wanted callback r n i)
  unfolding search_loop
  search_loop-Paced wanted callback r zero i s b w = value (omega arith, b)
  search_loop-Paced wanted callback r (suc n) i s b w =
      Yields-then (call_on-Paced callback r i s b w) λ (called, s₁) q₁. ahead s s₁ q₁.0 (
        from called.0 s₁ q₁.1 (if wanted then truthy h called.1 else not (truthy h called.1))
          (search_loop-Paced wanted callback r n (i + 1) s₁ q₁.1 (omega arith)))
    where
      from :
          (item : Value R) (s₁ : Interp R)
          → s₁.steps ≤ max_steps
          → (test : Bool) → Yields (On s₁) (search_loop h c wanted callback r n (i + 1) s₁)
          → Yields (On s₁) (elim test as (λ _. Outcome (Option (Value R) × Interp R)) [
            | true ↦ ok (some item, s₁)
            | false ↦ search_loop h c wanted callback r n (i + 1) s₁
          ])
      from item s₁ b₁ true y = value (omega arith, b₁)
      from item s₁ b₁ false y = y

  each_loop-Paced : (callback : Value R) (r n i : ℕ) → Paced f (each_loop h c callback r n i)
  unfolding each_loop
  each_loop-Paced callback r zero i s b w = value (omega arith, b)
  each_loop-Paced callback r (suc n) i s b w =
      Yields-then (call_on-Paced callback r i s b w)
        λ (_, s₁) q₁. ahead s s₁ q₁.0 (each_loop-Paced callback r n (i + 1) s₁ q₁.1 (omega arith))

  reduce_loop-Paced :
      (callback : Value R) (r n i : ℕ) (acc : Value R)
      → Paced f (reduce_loop h c callback r n i acc)
  unfolding reduce_loop item_now
  reduce_loop-Paced callback r zero i acc s b w = value (omega arith, b)
  reduce_loop-Paced callback r (suc n) i acc s b w =
      Yields-then
        (p.invoke_lem callback (acc ∷ arg_at (items_at s.cells r) i ∷ number_of h i ∷ []) s b w)
        λ (v, s₁) q₁.
          ahead s s₁ q₁.0 (reduce_loop-Paced callback r n (i + 1) v s₁ q₁.1 (omega arith))

  reduce_items-Paced :
      (callback : Value R) (r : ℕ) (items args : List (Value R))
      → Paced f (reduce_items h c callback r items args)
  unfolding reduce_items
  reduce_items-Paced callback r items (first ∷ initial ∷ args) s b w =
      reduce_loop-Paced callback r (length items) 0 initial s b w
  reduce_items-Paced callback r [] [] s b w = refused
  reduce_items-Paced callback r [] (v ∷ []) s b w = refused
  reduce_items-Paced callback r (item ∷ items) [] s b w =
      reduce_loop-Paced callback r (length items) 1 item s b w
  reduce_items-Paced callback r (item ∷ items) (v ∷ []) s b w =
      reduce_loop-Paced callback r (length items) 1 item s b w

  comes_before-Paced :
      (comparator left right : Value R) → Paced f (comes_before h c comparator left right)
  unfolding comes_before
  comes_before-Paced comparator left right s b w =
      Yields-choose (is_nullish comparator) _ _ s
        (λ _.
          Yields-then (to_string-Settles h s.cells left)
            λ _ _. Yields-then (to_string-Settles h s.cells right) λ _ _. value (omega arith, b))
        (λ _. Yields-then (p.invoke_lem comparator (left ∷ right ∷ []) s b w) λ _ q. value q)

  insert_back-Paced :
      (comparator v : Value R) (sorted : List (Value R))
      → Paced f (insert_back h c comparator v sorted)
  unfolding insert_back
  insert_back-Paced comparator v [] s b w = value (omega arith, b)
  insert_back-Paced comparator v (last ∷ sorted) s b w =
      Yields-then (comes_before-Paced comparator v last s b w) λ (before, s₁) q₁.
        ahead s s₁ q₁.0
          (from s₁ q₁.1 before (insert_back-Paced comparator v sorted s₁ q₁.1 (omega arith)))
    where
      from :
          (s₁ : Interp R)
          → s₁.steps ≤ max_steps
          → (before : Bool) → Yields (On s₁) (insert_back h c comparator v sorted s₁)
          → Yields (On s₁) (elim before as (λ _. Outcome (List (Value R) × Interp R)) [
            | true ↦
                then_do
                  (insert_back h c comparator v sorted s₁)
                  λ (values, s'). ok (last ∷ values, s')
            | false ↦ ok (v ∷ last ∷ sorted, s₁)
          ])
      from s₁ b₁ true y = Yields-then y λ _ q. value q
      from s₁ b₁ false y = value (omega arith, b₁)

  sort_loop-Paced :
      (comparator : Value R) (sorted values : List (Value R))
      → Paced f (sort_loop h c comparator sorted values)
  unfolding sort_loop
  sort_loop-Paced comparator sorted [] s b w = value (omega arith, b)
  sort_loop-Paced comparator sorted (v ∷ values) s b w =
      Yields-then (insert_back-Paced comparator v sorted s b w) λ (longer, s₁) q₁.
        ahead s s₁ q₁.0 (sort_loop-Paced comparator longer values s₁ q₁.1 (omega arith))

  concat_arrays-Paced : (r : ℕ) (args : List (Value R)) → Paced f (concat_arrays h c r args)
  unfolding concat_arrays
  concat_arrays-Paced r args s b w =
      Yields-if
        (leb (length (items_at s.cells r ++ concat_items h c (items_at s.cells) args))
          max_array_len)
        (λ _. value (omega arith, b)) (λ _. refused)

  test_items-Paced :
      (wanted : Bool) (callback : Value R) (r n : ℕ) → Paced f (test_items h c wanted callback r n)
  unfolding test_items
  test_items-Paced wanted callback r n s b w =
      Yields-then (search_loop-Paced wanted callback r n 0 s b w) λ _ q. value q

  array_loop-Paced :
      (name : Text) (r n : ℕ) (args : List (Value R)) → Paced f (array_loop h c name r n args)
  unfolding array_loop
  array_loop-Paced name r n args s b w =
      Yields-choose (name == codes "map") _ _ s
        (λ _. Yields-then (map_loop-Paced (arg_at args 0) r n 0 s b w) λ _ q. value q)
        (λ _.
          Yields-choose (name == codes "filter") _ _ s
            (λ _. Yields-then (filter_loop-Paced (arg_at args 0) r n 0 s b w) λ _ q. value q)
            (λ _.
              Yields-choose (name == codes "find") _ _ s
                (λ _.
                  Yields-then (search_loop-Paced true (arg_at args 0) r n 0 s b w) λ _ q. value q)
                (λ _.
                  Yields-choose (name == codes "some") _ _ s
                    (λ _. test_items-Paced true (arg_at args 0) r n s b w)
                    (λ _.
                      Yields-choose (name == codes "every") _ _ s
                        (λ _. test_items-Paced false (arg_at args 0) r n s b w)
                        (λ _.
                          Yields-then (each_loop-Paced (arg_at args 0) r n 0 s b w)
                            λ _ q. value q)))))

  pub array_method-Paced :
      (name : Text) (r : ℕ) (args : List (Value R)) → Paced f (array_method h c name r args)
  unfolding array_method
  array_method-Paced name r args s b w =
      Yields-if (name == codes "reduce")
        (λ _. reduce_items-Paced (arg_at args 0) r (items_at s.cells r) args s b w)
        (λ _.
          Yields-if (name == codes "sort")
            (λ _.
              Yields-then (sort_loop-Paced (arg_at args 0) [] (items_at s.cells r) s b w)
                λ _ q. value q)
            (λ _.
              Yields-if (name == codes "concat") (λ _. concat_arrays-Paced r args s b w)
                (λ _.
                  Yields-if (name == codes "push") (λ _. refused)
                    (λ _. array_loop-Paced name r (length (items_at s.cells r)) args s b w))))
