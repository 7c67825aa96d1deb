-- ===== src/Slice/Order.antt =====
-- `Slice::compare` is the lexicographic order of the bytes, a total order; `==` and `starts_with`
-- are equality and the prefix relation.
use Prim.Native.Nat.{compare, Ordering}
use squirrel.Prelude.{ℕ, ◌≤◌, ◌≡◌, ◌≢◌, ◌↔◌, refl, sym, arith}
use squirrel.Prelude.{true, List, [], ◌∷◌, ◌++◌, length}
use squirrel.Prelude.{subst, drop, length-append}
use squirrel.Slice.{memcmp, slice_compare, starts_with, slice_eq}

-- The specification: byte by byte, and a proper prefix comes first.
unfoldable pub lexicographic : List ℕ → List ℕ → Ordering
lexicographic [] [] = Ordering.eq
lexicographic [] (y ∷ b) = Ordering.lt
lexicographic (x ∷ a) [] = Ordering.gt
lexicographic (x ∷ a) (y ∷ b) =
    let rest = lexicographic a b in
    elim (compare x y) [
      | Ordering.lt ↦ Ordering.lt
      | Ordering.eq ↦ rest
      | Ordering.gt ↦ Ordering.gt
    ]

abbrev pub flip : Ordering → Ordering
flip Ordering.lt = Ordering.gt
flip Ordering.eq = Ordering.eq
flip Ordering.gt = Ordering.lt

-- `Slice::compare` is the lexicographic order.
pub slice_compare-lexicographic : (a b : List ℕ) → slice_compare a b ≡ lexicographic a b
unfolding slice_compare lexicographic
slice_compare-lexicographic [] [] = refl
slice_compare-lexicographic [] (y ∷ b) = ground arith
slice_compare-lexicographic (x ∷ a) [] = ground arith
slice_compare-lexicographic (x ∷ a) (y ∷ b) = ground (arith, slice_compare-lexicographic a b)

pub lexicographic_refl : (a : List ℕ) → lexicographic a a ≡ Ordering.eq
unfolding lexicographic
lexicographic_refl [] = refl
lexicographic_refl (x ∷ a) = ground (arith, lexicographic_refl a)

pub lexicographic_eq : (a b : List ℕ) → lexicographic a b ≡ Ordering.eq → a ≡ b
unfolding lexicographic
lexicographic_eq [] [] h = refl
lexicographic_eq [] (y ∷ b) h = cc
lexicographic_eq (x ∷ a) [] h = cc
lexicographic_eq (x ∷ a) (y ∷ b) h = ground (arith, lexicographic_eq a b)

pub lexicographic-flip : (a b : List ℕ) → lexicographic b a ≡ flip (lexicographic a b)
unfolding lexicographic
lexicographic-flip [] [] = refl
lexicographic-flip [] (y ∷ b) = refl
lexicographic-flip (x ∷ a) [] = refl
lexicographic-flip (x ∷ a) (y ∷ b) = ground (arith, lexicographic-flip a b)

pub lexicographic_trans :
    (a b c : List ℕ)
    → lexicographic a b ≢ Ordering.gt
    → lexicographic b c ≢ Ordering.gt
    → lexicographic a c ≢ Ordering.gt
unfolding lexicographic
lexicographic_trans [] b [] h g = λ e. cc
lexicographic_trans [] b (z ∷ c) h g = λ e. cc
lexicographic_trans (x ∷ a) [] c h g = absurd (h refl)
lexicographic_trans (x ∷ a) (y ∷ b) [] h g = absurd (g refl)
lexicographic_trans (x ∷ a) (y ∷ b) (z ∷ c) h g = ground (arith, lexicographic_trans a b c)

memcmp-eq : (a b : List ℕ) → length a ≡ length b → memcmp a b (length a) ≡ Ordering.eq → a ≡ b
unfolding memcmp
memcmp-eq [] [] h e = refl
memcmp-eq [] (y ∷ b) h e = absurd (omega arith)
memcmp-eq (x ∷ a) [] h e = absurd (omega arith)
memcmp-eq (x ∷ a) (y ∷ b) h e = ground (arith, memcmp-eq a b)

memcmp-append : (x rest : List ℕ) → memcmp (x ++ rest) x (length x) ≡ Ordering.eq
unfolding memcmp
memcmp-append [] rest = refl
memcmp-append (b ∷ x) rest = ground (arith, memcmp-append x rest)

slice_eq_self : (a : List ℕ) → slice_eq a a ≡ true
unfolding slice_eq memcmp
slice_eq_self [] = refl
slice_eq_self (x ∷ a) = ground (arith, slice_eq_self a)

-- `==` on slices is equality of their bytes.
pub slice_eq_iff : (a b : List ℕ) → (slice_eq a b ≡ true) ↔ (a ≡ b)
slice_eq_iff a b = (
  λ h. unfold slice_eq in ground (arith, memcmp-eq a b),
  λ e. subst (λ c. slice_eq a c ≡ true) e (slice_eq_self a),
)

memcmp-prefix :
    (s x : List ℕ)
    → length x ≤ length s
    → memcmp s x (length x) ≡ Ordering.eq
    → s ≡ x ++ drop (length x) s
unfolding memcmp
memcmp-prefix s [] h e = refl
memcmp-prefix [] (y ∷ x) h e = absurd (omega arith)
memcmp-prefix (b ∷ s) (y ∷ x) h e = ground (arith, memcmp-prefix s x)

-- `s.starts_with(x)` holds for what begins with `x`, and what it holds of is `x` followed by the
-- bytes that `remove_prefix(x.size())` leaves.
pub starts_with_iff : (s x : List ℕ) → (starts_with s x ≡ true) ↔ (s ≡ x ++ drop (length x) s)
starts_with_iff s x = (
  λ h. unfold starts_with in ground (arith, memcmp-prefix s x),
  λ e.
      subst (λ t. starts_with t x ≡ true) (sym e)
        (unfold starts_with in
          ground (arith, memcmp-append x (drop (length x) s), length-append x (drop (length x) s))),
)
