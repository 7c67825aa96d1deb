-- ===== src/Memtable/Place.antt =====
-- Where an entry goes among those of the table, which changes no reader's view of them.
use squirrel.Prelude.{ℕ, ◌≡◌, ◌≢◌, refl, ap, arith}
use squirrel.Prelude.{false, List, [], ◌∷◌, if◌then◌else◌, All, map, Bool-cases, inl, inr}
use squirrel.Slice.{is_lt}
use squirrel.Comparator.{Comparator}
use squirrel.SkipList.Order.{insert_sorted, has_equal}
use squirrel.Memtable.{key_compare}
use squirrel.Memtable.Entry.{Entry, encode, IsEntry}
use squirrel.Memtable.Compare.{key_compare-encode}
use squirrel.Memtable.Newest.{newest, newest-insert}

module _ (user : Comparator) where
  -- The entries in the order of the table.
  unfoldable pub place : Entry → List Entry → List Entry
  place e [] = e ∷ []
  place e (f ∷ es) =
      let rest = place e es in
      if is_lt (key_compare user (encode f) (encode e)) then f ∷ rest else e ∷ (f ∷ es)

  pub place-insert_sorted :
      (e : Entry) (es : List Entry)
      → map encode (place e es) ≡ insert_sorted (key_compare user) (encode e) (map encode es)
  unfolding place insert_sorted
  place-insert_sorted e [] = refl
  place-insert_sorted e (f ∷ es) =
      elim (Bool-cases (is_lt (key_compare user (encode f) (encode e)))) [
        | inl h ↦ rw h (ap (λ t. encode f ∷ t) (place-insert_sorted e es))
        | inr h ↦ rw h refl
      ]

  pub All-place :
      (P : Entry → Type 0) (e : Entry) (es : List Entry) → P e → All P es → All P (place e es)
  unfolding place
  All-place P e [] h a = (h, tt)
  All-place P e (f ∷ es) h a = elim (Bool-cases (is_lt (key_compare user (encode f) (encode e)))) [
    | inl c ↦ rw c (a.0, All-place P e es h a.1)
    | inr c ↦ rw c (h, a)
  ]

  pub newest-place :
      (u : List ℕ) (s : ℕ) (e : Entry) (es : List Entry)
      → IsEntry e
      → All IsEntry es
      → All (λ f. f.sequence ≢ e.sequence) es
      → newest user u s (place e es) ≡ newest user u s (e ∷ es)
  unfolding place
  newest-place u s e [] he hes new = refl
  newest-place u s e (f ∷ es) he hes new =
      elim (Bool-cases (is_lt (key_compare user (encode f) (encode e)))) [
        | inl c ↦ rw c (
            newest-insert user u s e f es (place e es)
              (λ a b same. new.0 (omega (arith, he.packed, hes.0.packed)))
              (newest-place u s e es he hes.1 new.1))
        | inr c ↦ rw c refl
      ]

  pub fresh_key :
      (e : Entry) (es : List Entry)
      → IsEntry e
      → All IsEntry es
      → All (λ f. f.sequence ≢ e.sequence) es
      → has_equal (key_compare user) (encode e) (map encode es) ≡ false
  unfolding has_equal
  fresh_key e [] he hes new = refl
  fresh_key e (f ∷ es) he hes new =
      ground (arith, fresh_key e es he hes.1 new.1, new.0, key_compare-encode user e f he hes.0)
