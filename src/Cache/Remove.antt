-- ===== src/Cache/Remove.antt =====
-- What the table finds after `Remove`.
use squirrel.Prelude.{
  ℕ, ◌+◌, ◌-◌, ◌^◌, ◌≡◌, refl, sym, ap, ◌∙◌, subst, arith, inl, inr, Bool-cases, bit_and,
}
use squirrel.Prelude.{false, ◌&&◌, Option, none, some, List, [], ◌==◌, if◌then◌else◌, get_or, set}
use squirrel.Slice.{slice_eq}
use squirrel.Slice.Order.{slice_eq_iff}
use squirrel.Cache.{
  Handles, HandleTable, find_pointer, table_lookup, slot_of, removed, table_remove,
}
use squirrel.Cache.Chains.{find, take_out, find-take_out, All-take_out, take_out-Unique}
use squirrel.Cache.Resize.{IsArray, slot, slot_lt, found}
use squirrel.Cache.Table.{IsTable, lookup-found}
use squirrel.Cache.Insert.{replaced, found-replaced}

module _ (handles : Handles) (t : HandleTable) (v : IsTable handles t) where
  abbrev chain_of : ℕ → List ℕ
  chain_of hash = get_or t.buckets (slot (2 ^ v.exponent) hash) []

  removed-buckets :
      (key : List ℕ) (hash result : ℕ)
      → (removed handles key hash t (some result)).buckets
        ≡ set t.buckets (slot (2 ^ v.exponent) hash) (take_out handles key hash (chain_of hash))
  unfolding removed find_pointer slot_of take_out
  removed-buckets key hash result =
      ap
        (λ m.
          set t.buckets (bit_and hash (m - 1))
            (take_out handles key hash (get_or t.buckets (bit_and hash (m - 1)) [])))
        v.power

  taken_out :
      (key key' : List ℕ) (hash hash' : ℕ)
      → (if slot (2 ^ v.exponent) hash' == slot (2 ^ v.exponent) hash
          then find handles key' hash' (take_out handles key hash (chain_of hash))
          else found handles v.exponent key' hash' t.buckets)
        ≡ (if (hash' == hash) && slice_eq key' key
            then none
            else found handles v.exponent key' hash' t.buckets)
  taken_out key key' hash hash' =
      elim (Bool-cases (slot (2 ^ v.exponent) hash' == slot (2 ^ v.exponent) hash)) [
        | inl at ↦
            let e : slot (2 ^ v.exponent) hash' ≡ slot (2 ^ v.exponent) hash = ground arith in
            rw (at, e)
              (find-take_out handles key key' hash hash' (chain_of hash)
                (v.array.unique (slot (2 ^ v.exponent) hash)))
        | inr off ↦
            let miss : ((hash' == hash) && slice_eq key' key) ≡ false =
              ground (arith, ap (slot (2 ^ v.exponent)) {x = hash'} {y = hash}) in
            rw (off, miss) refl
      ]

  missing :
      (key key' : List ℕ) (hash hash' : ℕ)
      → table_lookup handles key hash t ≡ none
      → table_lookup handles key' hash' t
        ≡ (if (hash' == hash) && slice_eq key' key then none else table_lookup handles key' hash' t)
  missing key key' hash hash' e = elim (Bool-cases (hash' == hash)) [
    | inl h ↦ elim (Bool-cases (slice_eq key' key)) [
      | inl k ↦
          let h' : hash' ≡ hash = ground arith in
          let k' : key' ≡ key = (slice_eq_iff key' key).0 k in rw (h, k, h', k') e
      | inr k ↦ rw (h, k) refl
    ]
    | inr h ↦ rw h refl
  ]

  removed-lookup :
      (key : List ℕ) (hash : ℕ) (result : Option ℕ)
      → table_lookup handles key hash t ≡ result
      → IsTable handles (removed handles key hash t result)
        × ((key' : List ℕ) (hash' : ℕ)
            → table_lookup handles key' hash' (removed handles key hash t result) ≡ (
                if (hash' == hash) && slice_eq key' key
                then none
                else table_lookup handles key' hash' t))
  removed-lookup key hash none e =
      unfold removed in (v, λ key' hash'. missing key key' hash hash' e)
  removed-lookup key hash (some result) e =
      let t' = removed handles key hash t (some result) in
      let c = take_out handles key hash (chain_of hash) in
      let i = slot (2 ^ v.exponent) hash in
      let placed =
        All-take_out handles (λ x. slot (2 ^ v.exponent) (handles x).hash ≡ 0 + i) key hash
          (chain_of hash) (v.array.placed i) in
      let v' : IsTable handles t' = record {
        exponent = v.exponent;
        power = unfold removed in v.power;
        array = subst (IsArray handles (2 ^ v.exponent)) (sym (removed-buckets key hash result)) (
            replaced handles t v i c (slot_lt v.exponent hash) placed
              (take_out-Unique handles key hash (chain_of hash) (v.array.unique i)));
      } in
      (
        v',
        λ key' hash'.
            lookup-found handles t' v' key' hash'
            ∙ (ap (found handles v.exponent key' hash') (removed-buckets key hash result)
                ∙ (found-replaced handles v.exponent t.buckets hash c v.array.size key' hash'
                    ∙ (taken_out key key' hash hash'
                        ∙ ap (λ r. if (hash' == hash) && slice_eq key' key then none else r)
                            (sym (lookup-found handles t v key' hash'))))),
      )

  -- After `Remove` of a hash and key the table finds nothing for them, and for all others what it
  -- found before; and what `Remove` returns is what had the hash and key.
  pub remove-lookup :
      (key key' : List ℕ) (hash hash' : ℕ)
      → IsTable handles (table_remove handles key hash t).0
        × (table_lookup handles key' hash' (table_remove handles key hash t).0 ≡ (
            if (hash' == hash) && slice_eq key' key
            then none
            else table_lookup handles key' hash' t))
        × ((table_remove handles key hash t).1 ≡ table_lookup handles key hash t)
  unfolding table_remove
  remove-lookup key key' hash hash' =
      let r = removed-lookup key hash (table_lookup handles key hash t) refl in
      (r.0, r.1 key' hash', refl)
