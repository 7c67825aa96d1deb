-- ===== src/SkipList/Find.antt =====
-- The results of the searches, over a list that meets the invariant.
use Prim.Native.Nat.{Ordering}
use squirrel.Prelude.{ℕ, ◌+◌, ◌-◌, ◌≤◌, ◌<◌, ◌≡◌, refl, arith, ap, subst}
use squirrel.Prelude.{Bool, false, none, some, List, [], ◌∷◌, ◌++◌, length, length-append, All}
use squirrel.SkipList.{SkipList, Ptr, Found, head, next_of, key_of, height_of, search_from_head}
use squirrel.SkipList.Chain.{first_tall, Links}
use squirrel.SkipList.Order.{IsOrder}
use squirrel.SkipList.Search.{StopsBehind, search_loop-Stops}
use squirrel.SkipList.State.{IsSkipList, Split, split_at, before, first_tall-stay}

-- The pointer to the first node of a list.
abbrev pub position : List ℕ → Ptr
position [] = none
position (x ∷ xs) = some x

pub first_tall-position :
    (height : ℕ → ℕ) (xs : List ℕ)
    → All (λ x. 0 < height x) xs
    → first_tall height 0 xs ≡ position xs
first_tall-position height [] h = refl
first_tall-position height (x ∷ xs) h = ground (arith, h.0)

All-suffix : (P : ℕ → Type 0) (xs ys : List ℕ) → All P (xs ++ ys) → All P ys
All-suffix P [] ys h = h
All-suffix P (x ∷ xs) ys h = All-suffix P xs ys h.1

pub All-positive :
    (h : ℕ → ℕ) (m : ℕ) (xs : List ℕ) → All (λ x. (0 < h x) × (h x ≤ m)) xs → All (λ x. 0 < h x) xs
All-positive h m [] a = tt
All-positive h m (x ∷ xs) a = (a.0.0, All-positive h m xs a.1)

module _ {K : Type 0} (compare : K → K → Ordering) (s : SkipList K) (xs : List ℕ)
    (valid : IsSkipList compare s xs) where
  pub suffix-position :
      (pre post : List ℕ) → xs ≡ pre ++ post → first_tall (height_of s) 0 post ≡ position post
  suffix-position pre post e = first_tall-position (height_of s) post (
      All-suffix (λ x. 0 < height_of s x) pre post
        (subst (λ l. All (λ x. 0 < height_of s x) l) e
          (All-positive (height_of s) s.max_height xs valid.heights)))

  pub search_from_head-stops :
      (goes : Ptr → Bool)
      → goes none ≡ false
      → (t : Split goes xs)
      → (f : Found) × (search_from_head goes s ≡ some f)
        × StopsBehind s goes t.post head (s.max_height - 1) (λ i. head) t.pre f
  unfolding search_from_head
  search_from_head-stops goes stop t =
      search_loop-Stops s goes t.post (λ j. first_tall-stay goes (height_of s) j t.post stop t.stay)
        (s.count + s.max_height) head (s.max_height - 1) (λ i. head) t.pre
        (subst (λ l. Links (next_of s) (height_of s) (head ∷ l)) t.whole valid.links)
        (omega (arith, valid.head_height, valid.few_levels, valid.some_level)) t.go
        (omega
          (arith, valid.counted, valid.some_level, ap length t.whole, length-append t.pre t.post))

  module _ (laws : IsOrder compare) (k : K) where
    pub split_here : Split (before compare laws (key_of s) k) xs
    split_here = split_at compare laws (key_of s) k xs valid.sorted
