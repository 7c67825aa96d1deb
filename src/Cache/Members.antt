-- ===== src/Cache/Members.antt =====
-- What holds of all entries of the hash table goes on to hold.
use squirrel.Prelude.{ℕ, zero, suc, ◌+◌, ◌%◌, ◌^◌, inl, inr, Bool-cases, Option, none, some}
use squirrel.Prelude.{
  List, [], ◌∷◌, ◌++◌, ltb, All, All-append, get_or, set, replicate, bit_and, ◌-◌,
}
use squirrel.Cache.{
  Handles, HandleTable, matches, find_in_chain, find_pointer, table_lookup, move_chain, move_all,
  resize_table, grow, slot_of, with_handle, counted, table_insert, removed, table_remove, first,
  behind, new_handle_table,
}

module _ (P : ℕ → Type 0) where
  -- Every entry of the table meets `P`.
  abbrev pub Members : HandleTable → Type 0
  Members t = All (All P) t.buckets

  abbrev pub IfSome : Option ℕ → Type 0
  IfSome none = Unit {0}
  IfSome (some e) = P e

  get_or-All : (cs : List (List ℕ)) (i : ℕ) → All (All P) cs → All P (get_or cs i [])
  get_or-All [] i a = tt
  get_or-All (c ∷ cs) zero a = a.0
  get_or-All (c ∷ cs) (suc i) a = get_or-All cs i a.1

  set-All :
      (cs : List (List ℕ)) (i : ℕ) (c : List ℕ)
      → All (All P) cs
      → All P c
      → All (All P) (set cs i c)
  set-All [] i c a p = tt
  set-All (d ∷ cs) zero c a p = (p, a.1)
  set-All (d ∷ cs) (suc i) c a p = (a.0, set-All cs i c a.1 p)

  replicate-All : (n : ℕ) → All (All P) (replicate n [])
  replicate-All zero = tt
  replicate-All (suc n) = (tt, replicate-All n)

  behind-All : (c : List ℕ) → All P c → All P (behind c)
  behind-All [] a = tt
  behind-All (h ∷ c) a = a.1

  first-IfSome : (c : List ℕ) → All P c → IfSome (first c)
  first-IfSome [] a = tt
  first-IfSome (h ∷ c) a = a.0

  module _ (handles : Handles) where
    find_in_chain-All :
        (key : List ℕ) (hash : ℕ) (c : List ℕ)
        → All P c
        → All P (find_in_chain handles key hash c).0 × All P (find_in_chain handles key hash c).1
    unfolding find_in_chain
    find_in_chain-All key hash [] a = (tt, tt)
    find_in_chain-All key hash (h ∷ c) a =
        let rest = find_in_chain-All key hash c a.1 in
        elim (Bool-cases (matches handles key hash h)) [
          | inl m ↦ rw m (tt, a)
          | inr m ↦ rw m ((a.0, rest.0), rest.1)
        ]

    find_pointer-All :
        (key : List ℕ) (hash : ℕ) (t : HandleTable)
        → Members t
        → All P (find_pointer handles key hash t).0 × All P (find_pointer handles key hash t).1
    unfolding find_pointer
    find_pointer-All key hash t a =
        let c = get_or t.buckets (slot_of t hash) [] in
        find_in_chain-All key hash c (get_or-All t.buckets (slot_of t hash) a)

    pub table_lookup-IfSome :
        (key : List ℕ) (hash : ℕ) (t : HandleTable)
        → Members t
        → IfSome (table_lookup handles key hash t)
    unfolding table_lookup
    table_lookup-IfSome key hash t a =
        first-IfSome (find_pointer handles key hash t).1 (find_pointer-All key hash t a).1

    move_chain-All :
        (n : ℕ) (c : List ℕ) (cs : List (List ℕ))
        → All P c
        → All (All P) cs
        → All (All P) (move_chain handles n c cs)
    unfolding move_chain
    move_chain-All n [] cs p a = a
    move_chain-All n (h ∷ c) cs p a =
        let i = bit_and (handles h).hash (n - 1) in
        move_chain-All n c (set cs i (h ∷ get_or cs i [])) p.1
          (set-All cs i (h ∷ get_or cs i []) a (p.0, get_or-All cs i a))

    move_all-All :
        (n : ℕ) (from cs : List (List ℕ))
        → All (All P) from
        → All (All P) cs
        → All (All P) (move_all handles n from cs)
    unfolding move_all
    move_all-All n [] cs p a = a
    move_all-All n (c ∷ from) cs p a =
        move_all-All n from (move_chain handles n c cs) p.1 (move_chain-All n c cs p.0 a)

    pub resize_table-Members : (t : HandleTable) → Members t → Members (resize_table handles t)
    unfolding resize_table
    resize_table-Members t a =
        let n = grow 29 t.elems 4 in move_all-All n t.buckets (replicate n []) a (replicate-All n)

    pub new_handle_table-Members : Members (new_handle_table handles)
    unfolding new_handle_table
    new_handle_table-Members =
        resize_table-Members (record { length_ = 0; elems = 0; buckets = [] }) tt

    with_handle-Members :
        (h : ℕ) (key : List ℕ) (hash : ℕ) (t : HandleTable)
        → P h
        → Members t
        → Members (with_handle handles h key hash t)
    unfolding with_handle
    with_handle-Members h key hash t p a =
        let parts = find_pointer handles key hash t in
        let both = find_pointer-All key hash t a in
        set-All t.buckets (slot_of t hash) (parts.0 ++ (h ∷ behind parts.1)) a
          (All-append P parts.0 (h ∷ behind parts.1) both.0 (p, behind-All parts.1 both.1))

    counted-Members :
        (t : HandleTable) (old : Option ℕ) → Members t → Members (counted handles t old)
    unfolding counted
    counted-Members t (some old) a = a
    counted-Members t none a =
        let t' : HandleTable = record t { elems = (t.elems + 1) % 2 ^ 32 } in
        elim (Bool-cases (ltb t.length_ t'.elems)) [
          | inl more ↦ rw more (resize_table-Members t' a)
          | inr enough ↦ rw enough a
        ]

    pub table_insert-Members :
        (h : ℕ) (t : HandleTable)
        → P h
        → Members t
        → Members (table_insert handles h t).0 × IfSome (table_insert handles h t).1
    unfolding table_insert
    table_insert-Members h t p a =
        let key = (handles h).key in
        let hash = (handles h).hash in
        (
          counted-Members (with_handle handles h key hash t) (table_lookup handles key hash t)
              (with_handle-Members h key hash t p a),
          table_lookup-IfSome key hash t a,
        )

    removed-Members :
        (key : List ℕ) (hash : ℕ) (t : HandleTable) (result : Option ℕ)
        → Members t
        → Members (removed handles key hash t result)
    unfolding removed
    removed-Members key hash t none a = a
    removed-Members key hash t (some result) a =
        let parts = find_pointer handles key hash t in
        let both = find_pointer-All key hash t a in
        set-All t.buckets (slot_of t hash) (parts.0 ++ behind parts.1) a
          (All-append P parts.0 (behind parts.1) both.0 (behind-All parts.1 both.1))

    pub table_remove-Members :
        (key : List ℕ) (hash : ℕ) (t : HandleTable)
        → Members t
        → Members (table_remove handles key hash t).0 × IfSome (table_remove handles key hash t).1
    unfolding table_remove
    table_remove-Members key hash t a = (
      removed-Members key hash t (table_lookup handles key hash t) a,
      table_lookup-IfSome key hash t a,
    )
