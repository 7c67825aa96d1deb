-- ===== src/Cache/Table.antt =====
-- The hash table as a map from hashes and keys to handles.
use native.Mathlib.Nat.{pow-suc, pow-le-pow_right, mod-eq_of_lt}
use squirrel.Prelude.{
  ℕ, zero, suc, ◌+◌, ◌-◌, ◌*◌, ◌^◌, ◌%◌, ◌≤◌, ◌≡◌, refl, sym, ap, ◌∙◌, subst, arith, inl, inr,
  Bool-cases, bit_and,
}
use squirrel.Prelude.{true, none, List, [], ltb, leb, length-replicate, get_or, replicate}
use squirrel.SkipList.Distinct.{All-of}
use squirrel.Cache.{
  Handles, HandleTable, find_pointer, table_lookup, slot_of, resize_table, grow, move_all,
  move_chain, new_handle_table,
}
use squirrel.Cache.Chains.{or_else, find, first-find}
use squirrel.Cache.Buckets.{concat, find-concat, Unique-concat, move_all-concat}
use squirrel.Cache.Resize.{IsArray, slot, found, move_chain-found}

-- The array has as many chains as `length_` says, a power of two.
pub record IsTable (handles : Handles) (t : HandleTable) : Type 0 where
  pub exponent : ℕ
  pub power : t.length_ ≡ 2 ^ exponent
  pub array : IsArray handles (2 ^ exponent) t.buckets

get_or-replicate : (m i : ℕ) → get_or (replicate m (let e : List ℕ = [] in e)) i [] ≡ []
get_or-replicate zero i = refl
get_or-replicate (suc m) zero = refl
get_or-replicate (suc m) (suc i) = get_or-replicate m i

grow-power : (fuel elems k : ℕ) → k + fuel ≤ 31 → (j : ℕ) × (grow fuel elems (2 ^ k) ≡ 2 ^ j)
unfolding grow
grow-power zero elems k p = (k, refl)
grow-power (suc fuel) elems k p =
    let (j, e) = grow-power fuel elems (suc k) (omega arith) in
    let bound : 2 ^ suc k ≤ 2 ^ 31 =
      pow-le-pow_right {n = 2} (omega arith) {i = suc k} {j = 31} (omega arith) in
    let twice : 2 ^ k * 2 % 2 ^ 32 ≡ 2 ^ suc k =
      ap (λ n. n % 2 ^ 32) (omega (arith, pow-suc 2 k)) ∙ mod-eq_of_lt (omega (arith, bound)) in
    elim (Bool-cases (ltb (2 ^ k) elems)) [
      | inl more ↦ (j, rw (more, twice) e)
      | inr enough ↦ (k, rw enough refl)
    ]

module _ (handles : Handles) where
  pub lookup-found :
      (t : HandleTable) (v : IsTable handles t) (key : List ℕ) (hash : ℕ)
      → table_lookup handles key hash t ≡ found handles v.exponent key hash t.buckets
  unfolding table_lookup find_pointer slot_of
  lookup-found t v key hash =
      first-find handles key hash (get_or t.buckets (bit_and hash (t.length_ - 1)) [])
      ∙ ap (λ m. find handles key hash (get_or t.buckets (bit_and hash (m - 1)) [])) v.power

  empty-IsArray : (k : ℕ) → IsArray handles (2 ^ k) (replicate (2 ^ k) [])
  empty-IsArray k = record {
    size = length-replicate {A = List ℕ} (2 ^ k) [];
    placed = λ j. rw (get_or-replicate (2 ^ k) j) tt;
    unique = λ j. rw (get_or-replicate (2 ^ k) j) tt;
  }

  nothing_below :
      (key : List ℕ) (hash j : ℕ) (xs : List ℕ)
      → or_else (find handles key hash xs) (found handles j key hash (replicate (2 ^ j) []))
        ≡ find handles key hash xs
  nothing_below key hash j xs = rw (get_or-replicate (2 ^ j) (slot (2 ^ j) hash)) (ground arith)

  all_found :
      (key : List ℕ) (hash : ℕ) (t : HandleTable) (v : IsTable handles t)
      → find handles key hash (concat t.buckets) ≡ found handles v.exponent key hash t.buckets
  all_found key hash t v =
      let all : leb 0 (slot (2 ^ v.exponent) hash) ≡ true = ground arith in
      let here : slot (2 ^ v.exponent) hash - 0 ≡ slot (2 ^ v.exponent) hash = omega arith in
      find-concat handles (slot (2 ^ v.exponent)) key hash 0 t.buckets v.array.placed
      ∙ rw (all, here) refl

  -- A resize keeps the table and what it finds.
  pub resize-lookup :
      (t : HandleTable) (v : IsTable handles t)
      → IsTable handles (resize_table handles t)
        × ((key : List ℕ) (hash : ℕ)
            → table_lookup handles key hash (resize_table handles t)
              ≡ table_lookup handles key hash t)
  unfolding resize_table
  resize-lookup t v =
      let (j, e) = grow-power 29 t.elems 2 (omega arith) in
      let xs = concat t.buckets in
      let base : List (List ℕ) = replicate (2 ^ j) [] in
      let moved =
        move_chain-found handles j xs base (empty-IsArray j)
          (Unique-concat handles (slot (2 ^ v.exponent)) 0 t.buckets v.array.placed v.array.unique)
          (All-of (λ x. found handles j (handles x).key (handles x).hash base ≡ none) xs
            (λ x. rw (get_or-replicate (2 ^ j) (slot (2 ^ j) (handles x).hash)) refl)) in
      let chains : ℕ → List (List ℕ) = λ m. move_all handles m t.buckets (replicate m []) in
      let same_chains : chains (grow 29 t.elems 4) ≡ move_chain handles (2 ^ j) xs base =
        ap chains e ∙ move_all-concat handles (2 ^ j) t.buckets base in
      let v' : IsTable handles (resize_table handles t) = record {
        exponent = j;
        power = e;
        array = subst (IsArray handles (2 ^ j)) (sym same_chains) moved.0;
      } in
      (
        v',
        λ key hash.
            lookup-found (resize_table handles t) v' key hash
            ∙ (ap (found handles j key hash) same_chains
                ∙ (moved.1 key hash
                    ∙ (nothing_below key hash j xs
                        ∙ (all_found key hash t v ∙ sym (lookup-found t v key hash))))),
      )

  -- A new table finds nothing.
  pub new_handle_table-IsTable :
      IsTable handles (new_handle_table handles)
      × ((key : List ℕ) (hash : ℕ)
          → table_lookup handles key hash (new_handle_table handles) ≡ none)
  unfolding new_handle_table
  new_handle_table-IsTable =
      let v : IsTable handles (new_handle_table handles) = record {
        exponent = 2;
        power = refl;
        array = empty-IsArray 2;
      } in
      (
        v,
        λ key hash.
            lookup-found (new_handle_table handles) v key hash
            ∙ ap (find handles key hash) (get_or-replicate 4 (slot 4 hash)),
      )
