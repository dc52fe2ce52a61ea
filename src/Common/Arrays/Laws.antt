-- ===== src/Common/Arrays/Laws.antt =====
-- What the tests for duplicates and for common elements find.
use public_nest_server.Base.{
  ◌+◌, ◌≤◌, ◌≡◌, ◌↔◌, refl, ◌∙◌, List, [], ◌∷◌, ◌++◌, String, Bool, true, false, not, ◌&&◌, ◌||◌,
  any, ltb, length, arith, eq_iff,
}
use public_nest_server.Llm.Models.{is_in, IsUnique, is_in-append}
use public_nest_server.Common.Arrays.{added_to, has_duplicates, has_common_elements}

abbrev is_unique : List String → Bool
is_unique [] = true
is_unique (x ∷ xs) = not (is_in x xs) && is_unique xs

abbrev meets : List String → List String → Bool
meets seen xs = any (λ x. is_in x seen) xs

is_unique-IsUnique : (xs : List String) → (is_unique xs ≡ true) ↔ IsUnique xs
is_unique-IsUnique [] = (λ h. tt, λ h. refl)
is_unique-IsUnique (x ∷ xs) =
    let rest = is_unique-IsUnique xs in
    (λ h. (ground arith, rest.0 (ground arith)), λ (new, h). ground (arith, rest.1 h))

meets-cons :
    (x : String) (seen xs : List String) → meets (x ∷ seen) xs ≡ is_in x xs || meets seen xs
meets-cons x seen [] = refl
meets-cons x seen (y ∷ xs) = ground (arith, meets-cons x seen xs, eq_iff x y, eq_iff y x)

length-added_to :
    (seen xs : List String)
    → (length (added_to seen xs) ≤ length xs)
      × (ltb (length (added_to seen xs)) (length xs) ≡ meets seen xs || not (is_unique xs))
unfolding added_to
length-added_to seen [] = (ground arith, refl)
length-added_to seen (x ∷ xs) =
    let same = length-added_to seen xs in
    let more = length-added_to (x ∷ seen) xs in
    let met = meets-cons x seen xs in (ground arith, ground arith)

length-append : (xs ys : List String) → length (xs ++ ys) ≡ length xs + length ys
length-append [] ys = ground arith
length-append (x ∷ xs) ys = ground (arith, length-append xs ys)

meets-nil : (xs : List String) → meets [] xs ≡ false
meets-nil [] = refl
meets-nil (x ∷ xs) = ground (arith, meets-nil xs)

has_duplicates_unique : (xs : List String) → has_duplicates xs ≡ not (is_unique xs)
unfolding has_duplicates
has_duplicates_unique xs = (length-added_to [] xs).1 ∙ ground (arith, meets-nil xs)

is_unique-append :
    (xs ys : List String) → is_unique (xs ++ ys) ≡ is_unique xs && is_unique ys && not (meets xs ys)
is_unique-append [] ys = ground (arith, meets-nil ys)
is_unique-append (x ∷ xs) ys =
    ground (arith, is_unique-append xs ys, is_in-append x xs ys, meets-cons x xs ys)

-- `hasDuplicates` is false exactly for an array without a repeated element, and `hasCommonElements`
-- is true if the two arrays have a common element, but also if either of them has a duplicate.
pub has_common_elements-has_duplicates :
    (xs items : List String)
    → ((has_duplicates xs ≡ false) ↔ IsUnique xs)
      × (has_common_elements xs items
          ≡ any (λ x. is_in x xs) items || (has_duplicates xs || has_duplicates items))
unfolding has_common_elements
has_common_elements-has_duplicates xs items =
    let here = has_duplicates_unique xs in
    let there = has_duplicates_unique items in
    let unique = is_unique-IsUnique xs in
    let both = length-added_to [] (xs ++ items) in
    (
      (λ h. unique.0 (ground arith), λ h. let u = unique.1 h in ground arith),
      ground (arith, length-append xs items, meets-nil (xs ++ items), is_unique-append xs items),
    )
