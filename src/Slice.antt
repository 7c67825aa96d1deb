-- ===== src/Slice.antt =====
-- include/leveldb/slice.h: a slice is the list of its bytes. An int that only its sign is asked of
-- is an `Ordering`.
pub mod Order
mod Runs
use Prim.Native.Nat.{compare, Ordering}
use squirrel.Prelude.{ℕ, zero, suc, Bool, true, false, ◌&&◌, not, List, [], ◌∷◌}
use squirrel.Prelude.{ltb, leb, ◌==◌, if◌then◌else◌, length, take, drop}

-- The C library's `memcmp` on the first `n` bytes of both arguments, as unsigned chars.
unfoldable pub memcmp : List ℕ → List ℕ → ℕ → Ordering
memcmp a b zero = Ordering.eq
memcmp (x ∷ a) (y ∷ b) (suc n) =
    let rest = memcmp a b n in
    elim (compare x y) [
      | Ordering.lt ↦ Ordering.lt
      | Ordering.eq ↦ rest
      | Ordering.gt ↦ Ordering.gt
    ]
memcmp a b (suc n) = Ordering.eq

abbrev pub is_eq : Ordering → Bool
is_eq Ordering.eq = true
is_eq Ordering.lt = false
is_eq Ordering.gt = false

abbrev pub is_lt : Ordering → Bool
is_lt Ordering.lt = true
is_lt Ordering.eq = false
is_lt Ordering.gt = false

abbrev pub is_gt : Ordering → Bool
is_gt Ordering.gt = true
is_gt Ordering.eq = false
is_gt Ordering.lt = false

unfoldable pub slice_compare : List ℕ → List ℕ → Ordering
unfolding memcmp
slice_compare a b =
    let min_len = if ltb (length a) (length b) then length a else length b in
    let r = memcmp a b min_len in
    if is_eq r
    then (if ltb (length a) (length b)
        then Ordering.lt
        else if ltb (length b) (length a)
        then Ordering.gt
        else Ordering.eq)
    else r

unfoldable pub starts_with : List ℕ → List ℕ → Bool
unfolding memcmp
starts_with s x = leb (length x) (length s) && is_eq (memcmp s x (length x))

-- `operator==`; `operator!=` is its negation.
unfoldable pub slice_eq : List ℕ → List ℕ → Bool
unfolding memcmp
slice_eq x y = (length x == length y) && is_eq (memcmp x y (length x))
