-- ===== src/Memtable/Newest.antt =====
-- What a reader at a sequence number is to see, over the entries in any order.
use squirrel.Prelude.{ℕ, ◌+◌, ◌*◌, ◌<◌, ◌≡◌, ◌≢◌, refl, sym, arith}
use squirrel.Prelude.{
  Bool, true, false, ◌&&◌, Option, none, some, List, [], ◌∷◌, ltb, leb, if◌then◌else◌, All,
}
use squirrel.Slice.{is_eq}
use squirrel.Comparator.{Comparator}
use squirrel.Memtable.Entry.{Entry}

-- By sequence number, then by type.
abbrev pub rank : Entry → ℕ
rank e = e.sequence * 256 + e.value_type

module _ (user : Comparator) (u : List ℕ) (s : ℕ) where
  -- An entry of the user key that is not newer than the reader.
  abbrev pub visible : Entry → Bool
  visible e = is_eq (user.compare e.key u) && leb e.sequence s

  abbrev pub newer : Entry → Option Entry → Option Entry
  newer e none = some e
  newer e (some f) = if ltb (rank e) (rank f) then some f else some e

  abbrev pub consider : Entry → Option Entry → Option Entry
  consider e best = if visible e then newer e best else best

  -- The visible entry with the largest sequence number.
  unfoldable pub newest : List Entry → Option Entry
  newest [] = none
  newest (e ∷ es) = consider e (newest es)

  consider_swap :
      (e f : Entry) (best : Option Entry)
      → (visible e ≡ true → visible f ≡ true → rank e ≢ rank f)
      → consider e (consider f best) ≡ consider f (consider e best)
  consider_swap e f none h = ground (arith, h)
  consider_swap e f (some b) h = ground (arith, h)

  pub newest-insert :
      (e f : Entry) (es es' : List Entry)
      → (visible e ≡ true → visible f ≡ true → rank e ≢ rank f)
      → newest es' ≡ newest (e ∷ es)
      → newest (f ∷ es') ≡ newest (e ∷ (f ∷ es))
  unfolding newest
  newest-insert e f es es' h ih = rw ih (consider_swap f e (newest es) (λ a b c. h b a (sym c)))

  pub newest-none : (es : List Entry) → All (λ e. visible e ≡ false) es → newest es ≡ none
  unfolding newest
  newest-none [] h = refl
  newest-none (e ∷ es) h = rw (h.0) (newest-none es h.1)

  older_step :
      (e f : Entry) (best : Option Entry)
      → newer e best ≡ some e
      → (visible f ≡ true → rank f < rank e)
      → newer e (consider f best) ≡ some e
  older_step e f none h g = ground (arith, g)
  older_step e f (some b) h g = ground (arith, g)

  -- The first entry is the newest one where all the others are older or not visible.
  newest-older :
      (e : Entry) (es : List Entry)
      → All (λ f. visible f ≡ true → rank f < rank e) es
      → newer e (newest es) ≡ some e
  unfolding newest
  newest-older e [] h = refl
  newest-older e (f ∷ es) h = older_step e f (newest es) (newest-older e es h.1) h.0

  pub newest-first :
      (e : Entry) (es : List Entry)
      → visible e ≡ true
      → All (λ f. visible f ≡ true → rank f < rank e) es
      → newest (e ∷ es) ≡ some e
  unfolding newest
  newest-first e es v h = rw v (newest-older e es h)
