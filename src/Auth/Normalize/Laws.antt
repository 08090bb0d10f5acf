-- ===== src/Auth/Normalize/Laws.antt =====
-- What the normalised lists hold.
use barq_control_plane.Base.{
  ℕ, String, ◌≡◌, refl, ◌∙◌, eq_iff, if◌then◌else◌, Bool, true, false, ◌&&◌, ◌||◌, leb, List, [],
  ◌∷◌, ◌++◌, map, Error, ok, ensure, arith, Bool-cases, inl, inr, ◌≤◌, ◌+◌,
}
use barq_control_plane.Base.Results.{>>=-eq-ok, Result-cases}
use barq_control_plane.Base.Lists.{
  length, length-append, contains, contains-append, IsDistinct, All,
}
use barq_control_plane.Base.Sorting.{
  sort_strings, IsSorted, sort_strings-IsSorted, sort_strings-IsDistinct, contains-sort_strings,
  length-sort_strings,
}
use barq_control_plane.Base.Text.{trim_space}
use barq_control_plane.Auth.Normalize.{
  collect, sorted, normalize_databases, normalize_actions, action_test,
}
use barq_control_plane.Auth.Patterns.{valid_identity}

pub append_one-IsDistinct :
    (xs : List String) (x : String)
    → contains xs x ≡ false
    → IsDistinct xs
    → IsDistinct (xs ++ x ∷ [])
unfolding contains
append_one-IsDistinct [] x h d = (refl, tt)
append_one-IsDistinct (y ∷ ys) x h (p, d) =
    ground
      (arith, append_one-IsDistinct ys x, contains-append ys (x ∷ []) y, eq_iff y x, eq_iff x y)

-- What a normalised list promises of its input.
pub record IsNormal (test : String → Bool) (input items : List String) : Type 0 where
  pub in_order : IsSorted items
  pub distinct : IsDistinct items
  pub same_items : (v : String) → contains items v ≡ contains (map trim_space input) v
  pub passed : All (λ v. test (trim_space v) ≡ true) input
  pub not_longer : length items ≤ length input

-- The same of the loop, which starts from the items in `seen`.
record Collected (test : String → Bool) (seen input items : List String) : Type 0 where
  distinct : IsDistinct seen → IsDistinct items
  same_items :
      (v : String) → contains items v ≡ (contains seen v || contains (map trim_space input) v)
  passed : All (λ v. test (trim_space v) ≡ true) input
  not_longer : length items ≤ length seen + length input

module _ (test : String → Bool) where
  -- One round more in front of the loop, for an item that is new or seen.
  round :
      (seen : List String) (x : String) (xs items : List String)
      → test (trim_space x) ≡ true
      → Collected test
          (if contains seen (trim_space x) then seen else seen ++ trim_space x ∷ [])
          xs
          items
      → Collected test seen (x ∷ xs) items
  unfolding contains
  round seen x xs items t c = elim (Bool-cases (contains seen (trim_space x))) [
    | inl old ↦
        let c' : Collected test seen xs items = rw old at c in
        record {
          distinct = c'.distinct;
          same_items = λ v. ground (arith, c'.same_items v, eq_iff (trim_space x) v, old);
          passed = (t, c'.passed);
          not_longer = omega (arith, c'.not_longer);
        }
    | inr new ↦
        let c' : Collected test (seen ++ trim_space x ∷ []) xs items = rw new at c in
        record {
          distinct = λ d. c'.distinct (append_one-IsDistinct seen (trim_space x) new d);
          same_items =
              λ v. ground (arith, c'.same_items v, contains-append seen (trim_space x ∷ []) v);
          passed = (t, c'.passed);
          not_longer = omega (arith, c'.not_longer, length-append seen (trim_space x ∷ []));
        }
  ]

  collect_lem :
      (failure : Error) (seen input : List String) {items : List String}
      → collect test failure seen input ≡ ok items
      → Collected test seen input items
  unfolding collect
  collect_lem failure seen [] {items} h =
      let e : items ≡ seen = cc in
      rw e (record {
        distinct = λ d. d;
        same_items = λ v. ground arith;
        passed = tt;
        not_longer = omega arith;
      })
  collect_lem failure seen (x ∷ xs) {items} h = elim (Bool-cases (test (trim_space x))) [
    | inl t ↦ round seen x xs items t (
        collect_lem failure
          (if contains seen (trim_space x) then seen else seen ++ trim_space x ∷ []) xs (rw t at h))
    | inr f ↦ cc (rw f at h)
  ]

  sorted_lem :
      (failure : Error) (input : List String) {items : List String}
      → sorted (collect test failure [] input) ≡ ok items
      → IsNormal test input items
  unfolding contains
  sorted_lem failure input {items} h = elim (Result-cases (collect test failure [] input)) [
    | inl (found, e) ↦
        let c = collect_lem failure [] input e in
        let same : items ≡ sort_strings found = cc (rw e at h) in
        rw same (record {
          in_order = sort_strings-IsSorted found;
          distinct = sort_strings-IsDistinct found (c.distinct tt);
          same_items = λ v. contains-sort_strings found v ∙ c.same_items v;
          passed = c.passed;
          not_longer = omega (arith, c.not_longer, length-sort_strings found);
        })
    | inr (e, failed) ↦ cc (rw failed at h)
  ]

within :
    (n low high : ℕ) (failure : Error) {u : Unit {0}}
    → ensure (leb low n && leb n high) failure ≡ ok u
    → (low ≤ n) × (n ≤ high)
within n low high failure h = ground arith

-- A list of databases that is accepted had 1 to 50 names. It becomes the list of the trimmed names,
-- sorted and without repetitions, and each of these is an identity.
pub normalize_databases-IsNormal :
    (input : List String) {items : List String}
    → normalize_databases input ≡ ok items
    → IsNormal valid_identity input items × ((1 ≤ length input) × (length input ≤ 50))
unfolding normalize_databases
normalize_databases-IsNormal input h =
    let sized = >>=-eq-ok (ensure (leb 1 (length input) && leb (length input) 50) _) _ h in
    (sorted_lem valid_identity _ input sized.2, within (length input) 1 50 _ sized.1)

-- A list of actions that is accepted had 1 to 20 actions. It becomes the list of the trimmed
-- actions, sorted and without repetitions, and each of these is `*` or fits the pattern.
pub normalize_actions-IsNormal :
    (input : List String) {items : List String}
    → normalize_actions input ≡ ok items
    → IsNormal action_test input items × ((1 ≤ length input) × (length input ≤ 20))
unfolding normalize_actions
normalize_actions-IsNormal input h =
    let sized = >>=-eq-ok (ensure (leb 1 (length input) && leb (length input) 20) _) _ h in
    (sorted_lem action_test _ input sized.2, within (length input) 1 20 _ sized.1)
