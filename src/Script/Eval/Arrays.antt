-- ===== src/Script/Eval/Arrays.antt =====
-- internal/script/array.go: the methods of arrays that call functions of the script. Each round of a loop
-- reads its item when it comes to it, since a function may have written to the array.
use laskah.Prelude.{
  ℕ, zero, suc, ◌+◌, Bool, true, false, not, Option, none, some, List, [], ◌∷◌, ◌++◌, ◌==◌, nat_eq,
  leb, if◌then◌else◌, length,
}
use mathlib.Core.List.{reverse}
use laskah.Prelude.Text.{Text, codes, text_eq}
use laskah.Script.Outcome.{ok, failed, then_do, empty_reduce, array_too_long, no_push}
use laskah.Script.Values.{
  Host, Value, undefined, bool, array, items_at, Run, done, stop_with, ◌>>=◌, ◌>>◌, new_array,
  max_array_len,
}
use laskah.Script.Values.Convert.{is_nullish, text_before, truthy, to_number, to_string}
use laskah.Script.Values.Methods.{arg_at, number_of}
use laskah.Script.Eval.{Calls}

module _ {R : Type 0} (h : Host R) (c : Calls R) where
  -- The item at an index now.
  unfoldable pub item_now : ℕ → ℕ → Run R (Value R)
  unfolding items_at
  item_now r i s = ok (arg_at (items_at s.cells r) i, s)

  -- The callback on the item at the index.
  unfoldable pub call_on : Value R → ℕ → ℕ → Run R (Value R × Value R)
  unfolding item_now
  call_on callback r i = do
    item ← item_now r i
    value ← c.invoke callback (item ∷ number_of h i ∷ [])
    done (item, value)

  -- The loops have `n` rounds left and stand at index `i`.
  unfoldable pub map_loop : Value R → ℕ → ℕ → ℕ → Run R (List (Value R))
  unfolding call_on
  map_loop callback r zero i = done []
  map_loop callback r (suc n) i = do
    called ← call_on callback r i
    values ← map_loop callback r n (i + 1)
    done (called.1 ∷ values)

  unfoldable pub filter_loop : Value R → ℕ → ℕ → ℕ → Run R (List (Value R))
  unfolding call_on truthy
  filter_loop callback r zero i = done []
  filter_loop callback r (suc n) i = do
    called ← call_on callback r i
    values ← filter_loop callback r n (i + 1)
    done (if truthy h called.1 then called.0 ∷ values else values)

  -- The item and the value of the first call whose value is truthy, or is not.
  unfoldable pub search_loop : Bool → Value R → ℕ → ℕ → ℕ → Run R (Option (Value R))
  unfolding call_on truthy
  search_loop wanted callback r zero i = done none
  search_loop wanted callback r (suc n) i = do
    called ← call_on callback r i
    (λ s. elim (if wanted then truthy h called.1 else not (truthy h called.1)) [
      | true ↦ ok (some called.0, s)
      | false ↦ search_loop wanted callback r n (i + 1) s
    ])

  unfoldable pub each_loop : Value R → ℕ → ℕ → ℕ → Run R (Unit {0})
  unfolding call_on
  each_loop callback r zero i = done tt
  each_loop callback r (suc n) i = do called ← call_on callback r i; each_loop callback r n (i + 1)

  unfoldable pub reduce_loop : Value R → ℕ → ℕ → ℕ → Value R → Run R (Value R)
  unfolding item_now
  reduce_loop callback r zero i acc = done acc
  reduce_loop callback r (suc n) i acc = do
    item ← item_now r i
    value ← c.invoke callback (acc ∷ item ∷ number_of h i ∷ [])
    reduce_loop callback r n (i + 1) value

  unfoldable pub reduce_items : Value R → ℕ → List (Value R) → List (Value R) → Run R (Value R)
  unfolding reduce_loop
  reduce_items callback r items (first ∷ initial ∷ args) =
      reduce_loop callback r (length items) 0 initial
  reduce_items callback r [] args = stop_with empty_reduce
  reduce_items callback r (item ∷ items) args = reduce_loop callback r (length items) 1 item

  -- Whether the comparator puts the first value before the second.
  unfoldable pub comes_before : Value R → Value R → Value R → Run R Bool
  unfolding is_nullish to_string text_before to_number
  comes_before comparator left right =
      let by_text : Run R Bool = λ s.
        then_do (to_string h s.cells left)
          λ a. then_do (to_string h s.cells right) λ b. ok (text_before a b, s) in
      let by_call : Run R Bool = do
        value ← c.invoke comparator (left ∷ right ∷ [])
        done (h.float.lt (to_number h value) (h.float.of_ℕ 0))
      in if is_nullish comparator then by_text else by_call

  -- The insertion of `sort.SliceStable`: the value moves to the left past those that it comes before.
  -- The sorted values stand with the last one first.
  unfoldable pub insert_back : Value R → Value R → List (Value R) → Run R (List (Value R))
  unfolding comes_before
  insert_back comparator v [] = done (v ∷ [])
  insert_back comparator v (last ∷ sorted) = do
    before ← comes_before comparator v last
    (λ s. elim before [
      | true ↦ then_do (insert_back comparator v sorted s) λ (values, s'). ok (last ∷ values, s')
      | false ↦ ok (v ∷ last ∷ sorted, s)
    ])

  unfoldable pub sort_loop : Value R → List (Value R) → List (Value R) → Run R (List (Value R))
  unfolding insert_back
  sort_loop comparator sorted [] = done (reverse sorted)
  sort_loop comparator sorted (v ∷ values) = do
    longer ← insert_back comparator v sorted
    sort_loop comparator longer values

  unfoldable pub concat_items : (ℕ → List (Value R)) → List (Value R) → List (Value R)
  concat_items items_of [] = []
  concat_items items_of (array r ∷ args) = items_of r ++ concat_items items_of args
  concat_items items_of (v ∷ args) = v ∷ concat_items items_of args

  unfoldable pub concat_arrays : ℕ → List (Value R) → Run R (Value R)
  unfolding concat_items items_at
  concat_arrays r args s =
      let items = items_at s.cells r ++ concat_items (items_at s.cells) args in
      if leb (length items) max_array_len then new_array items s else failed array_too_long

  -- `some` and `every`.
  unfoldable pub test_items : Bool → Value R → ℕ → ℕ → Run R (Value R)
  unfolding search_loop
  test_items wanted callback r n = do
    found ← search_loop wanted callback r n 0
    done (bool (elim found [ none ↦ not wanted | some _ ↦ wanted ]))

  unfoldable pub array_loop : Text → ℕ → ℕ → List (Value R) → Run R (Value R)
  unfolding map_loop filter_loop search_loop each_loop test_items
  array_loop name r n args =
      let callback = arg_at args 0 in
      if name == codes "map"
      then (do values ← map_loop callback r n 0; new_array values)
      else (if name == codes "filter"
          then (do values ← filter_loop callback r n 0; new_array values)
          else (if name == codes "find"
              then (do
                found ← search_loop true callback r n 0
                done (elim found [ none ↦ undefined | some v ↦ v ]))
              else (if name == codes "some"
                  then test_items true callback r n
                  else (if name == codes "every"
                      then test_items false callback r n
                      else (do each_loop callback r n 0; done undefined)))))

  -- `arrayMethod`, where the name is one of those that it handles.
  unfoldable pub array_method : Text → ℕ → List (Value R) → Run R (Value R)
  unfolding array_loop reduce_items sort_loop concat_arrays items_at
  array_method name r args s =
      let items = items_at s.cells r in
      let sorted = (do values ← sort_loop (arg_at args 0) [] items; new_array values) s in
      if name == codes "reduce"
      then reduce_items (arg_at args 0) r items args s
      else (if name == codes "sort"
          then sorted
          else (if name == codes "concat"
              then concat_arrays r args s
              else (if name == codes "push"
                  then failed no_push
                  else array_loop name r (length items) args s)))
