-- ===== src/Cache/Insert.antt =====
-- What the table finds after `Insert`.
use squirrel.Prelude.{
  ℕ, ◌+◌, ◌-◌, ◌^◌, ◌%◌, ◌<◌, ◌≡◌, refl, sym, ap, ◌∙◌, subst, arith, inl, inr, Bool-cases, lt→ltb,
  bit_and,
}
use squirrel.Prelude.{
  false, Option, none, some, List, [], ◌==◌, ltb, if◌then◌else◌, All, length, length-set, get_or,
  set,
}
use squirrel.Cache.{
  Handles, HandleTable, matches, find_pointer, table_lookup, slot_of, with_handle, counted,
  table_insert,
}
use squirrel.Cache.Chains.{find, Unique, put, find-put, All-put, put-Unique}
use squirrel.Cache.Buckets.{get_or-set_bucket}
use squirrel.Cache.Resize.{IsArray, slot, slot_lt, found}
use squirrel.Cache.Table.{IsTable, lookup-found, resize-lookup}

module _ (handles : Handles) where
  -- The chain of slot `i` replaced by one that keeps to the slot.
  pub replaced :
      (t : HandleTable) (v : IsTable handles t) (i : ℕ) (c : List ℕ)
      → i < 2 ^ v.exponent
      → All (λ h. slot (2 ^ v.exponent) (handles h).hash ≡ 0 + i) c
      → Unique handles c
      → IsArray handles (2 ^ v.exponent) (set t.buckets i c)
  replaced t v i c lt p u =
      let in_range : i < length t.buckets = omega (arith, v.array.size) in
      record {
        size = length-set t.buckets i c ∙ v.array.size;
        placed = λ j. rw (get_or-set_bucket t.buckets i j c) (elim (Bool-cases (j == i)) [
          | inl at ↦
              rw (at, lt→ltb i (length t.buckets) in_range)
                (subst (λ m. All (λ x. slot (2 ^ v.exponent) (handles x).hash ≡ 0 + m) c)
                  (ground arith) p)
          | inr off ↦ rw off (v.array.placed j)
        ]);
        unique = λ j. rw (get_or-set_bucket t.buckets i j c) (elim (Bool-cases (j == i)) [
          | inl at ↦ rw (at, lt→ltb i (length t.buckets) in_range) u
          | inr off ↦ rw off (v.array.unique j)
        ]);
      }

  -- What the array finds once the chain of a slot has been replaced.
  pub found-replaced :
      (k : ℕ) (buckets : List (List ℕ)) (hash0 : ℕ) (c : List ℕ)
      → length buckets ≡ 2 ^ k
      → (key : List ℕ) (hash : ℕ)
      → found handles k key hash (set buckets (slot (2 ^ k) hash0) c) ≡ (
          if slot (2 ^ k) hash == slot (2 ^ k) hash0
          then find handles key hash c
          else found handles k key hash buckets)
  found-replaced k buckets hash0 c size key hash =
      let i = slot (2 ^ k) hash0 in
      let in_range : i < length buckets = omega (arith, slot_lt k hash0, size) in
      rw (get_or-set_bucket buckets i (slot (2 ^ k) hash) c)
        (elim (Bool-cases (slot (2 ^ k) hash == i)) [
          | inl at ↦ rw (at, lt→ltb i (length buckets) in_range) refl
          | inr off ↦ rw off refl
        ])

  -- The count has no part in what the table finds.
  recounted :
      (t : HandleTable) (v : IsTable handles t) (n : ℕ) (key : List ℕ) (hash : ℕ)
      → table_lookup handles key hash (record t { elems = n }) ≡ table_lookup handles key hash t
  unfolding table_lookup find_pointer slot_of
  recounted t v n key hash = refl

  counted-lookup :
      (t : HandleTable) (v : IsTable handles t) (old : Option ℕ)
      → IsTable handles (counted handles t old)
        × ((key : List ℕ) (hash : ℕ)
            → table_lookup handles key hash (counted handles t old)
              ≡ table_lookup handles key hash t)
  unfolding counted
  counted-lookup t v (some old) = (v, λ key hash. refl)
  counted-lookup t v none =
      let n = (t.elems + 1) % 2 ^ 32 in
      let t' : HandleTable = record t { elems = n } in
      let v' : IsTable handles t' = record {
        exponent = v.exponent;
        power = v.power;
        array = v.array;
      } in
      let bigger = resize-lookup handles t' v' in
      elim (Bool-cases (ltb t.length_ n)) [
        | inl more ↦ rw more (bigger.0, λ key hash. bigger.1 key hash ∙ recounted t v n key hash)
        | inr enough ↦ rw enough (v', λ key hash. recounted t v n key hash)
      ]

  module _ (t : HandleTable) (v : IsTable handles t) where
    abbrev chain_of : ℕ → List ℕ
    chain_of hash = get_or t.buckets (slot (2 ^ v.exponent) hash) []

    with_handle-buckets :
        (h : ℕ)
        → (with_handle handles h (handles h).key (handles h).hash t).buckets
          ≡ set t.buckets
              (slot (2 ^ v.exponent) (handles h).hash)
              (put handles h (chain_of (handles h).hash))
    unfolding with_handle find_pointer slot_of put
    with_handle-buckets h =
        ap
          (λ m.
            set t.buckets (bit_and (handles h).hash (m - 1))
              (put handles h (get_or t.buckets (bit_and (handles h).hash (m - 1)) [])))
          v.power

    put_case :
        (key : List ℕ) (hash h : ℕ)
        → (if slot (2 ^ v.exponent) hash == slot (2 ^ v.exponent) (handles h).hash
            then find handles key hash (put handles h (chain_of (handles h).hash))
            else found handles v.exponent key hash t.buckets)
          ≡ (if matches handles key hash h
              then some h
              else found handles v.exponent key hash t.buckets)
    put_case key hash h =
        elim (Bool-cases (slot (2 ^ v.exponent) hash == slot (2 ^ v.exponent) (handles h).hash)) [
          | inl at ↦
              let e : slot (2 ^ v.exponent) hash ≡ slot (2 ^ v.exponent) (handles h).hash =
                ground arith in
              rw (at, e) (find-put handles key hash h (chain_of (handles h).hash))
          | inr off ↦
              let miss : matches handles key hash h ≡ false =
                ground (arith, ap (slot (2 ^ v.exponent)) {x = (handles h).hash} {y = hash}) in
              rw (off, miss) refl
        ]

    with_handle-lookup :
        (h : ℕ)
        → IsTable handles (with_handle handles h (handles h).key (handles h).hash t)
          × ((key : List ℕ) (hash : ℕ)
              → table_lookup handles key hash
                  (with_handle handles h (handles h).key (handles h).hash t)
                ≡ (if matches handles key hash h then some h else table_lookup handles key hash t))
    with_handle-lookup h =
        let hash0 = (handles h).hash in
        let t' = with_handle handles h (handles h).key hash0 t in
        let c = put handles h (chain_of hash0) in
        let i = slot (2 ^ v.exponent) hash0 in
        let placed =
          All-put handles (λ x. slot (2 ^ v.exponent) (handles x).hash ≡ 0 + i) h (chain_of hash0)
            (omega arith) (v.array.placed i) in
        let v' : IsTable handles t' = record {
          exponent = v.exponent;
          power = unfold with_handle in v.power;
          array = subst (IsArray handles (2 ^ v.exponent)) (sym (with_handle-buckets h)) (
              replaced t v i c (slot_lt v.exponent hash0) placed
                (put-Unique handles h (chain_of hash0) (v.array.unique i)));
        } in
        (
          v',
          λ key hash.
              lookup-found handles t' v' key hash
              ∙ (ap (found handles v.exponent key hash) (with_handle-buckets h)
                  ∙ (found-replaced v.exponent t.buckets hash0 c v.array.size key hash
                      ∙ (put_case key hash h
                          ∙ ap (λ r. if matches handles key hash h then some h else r)
                              (sym (lookup-found handles t v key hash))))),
        )

    -- With fewer than 2^31 entries, after `Insert` of a handle the table finds it for its hash and key, and for all others what
    -- it found before, whether it has been resized or not; and what `Insert` returns is what had
    -- the hash and key before.
    pub insert-lookup :
        (h : ℕ) (key : List ℕ) (hash : ℕ)
        → t.elems < 2 ^ 31
        → IsTable handles (table_insert handles h t).0
          × (table_lookup handles key hash (table_insert handles h t).0
              ≡ (if matches handles key hash h then some h else table_lookup handles key hash t))
          × ((table_insert handles h t).1 ≡ table_lookup handles (handles h).key (handles h).hash t)
    unfolding table_insert
    insert-lookup h key hash few =
        let key0 = (handles h).key in
        let hash0 = (handles h).hash in
        let t1 = with_handle handles h key0 hash0 t in
        let put_in = with_handle-lookup h in
        let end = counted-lookup t1 put_in.0 (table_lookup handles key0 hash0 t) in
        (end.0, end.1 key hash ∙ put_in.1 key hash, refl)
