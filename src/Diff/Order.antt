-- ===== src/Diff/Order.antt =====
-- The order of the entries of `Diff` (internal/domain/diff.go).
use Prim.Native.Nat.{compare as compare_nat, Ordering}
use Prim.Native.Char.{code}
use Prim.Native.String.compare.{nil-cons, cons-cons}
use Prim.Native.String.{compare, then as lex}
use ray_mcp.Prelude.{
  ℕ, ◌≡◌, refl, String, Bool, true, false, List, [], ◌∷◌, arith, Bool-cases, inl, inr,
}
use ray_mcp.Json.{Fields}
use ray_mcp.Diff.{FieldChange, str_leb, insert_by, sort_by, diff}

-- The comparison of texts with its clause on two non-empty texts written out.
abbrev leb_of : Ordering → Bool
leb_of Ordering.gt = false
leb_of _ = true

swap_then :
    (c d : ℕ) (x y : Ordering)
    → (leb_of x ≡ false → leb_of y ≡ true)
    → leb_of (lex (compare_nat c d) x) ≡ false
    → leb_of (lex (compare_nat d c) y) ≡ true
swap_then c d x y h e = ground arith

leb_total : (s t : String) → leb_of (compare s t) ≡ false → leb_of (compare t s) ≡ true
leb_total String.[] String.[] h = refl
leb_total String.[] (String.◌∷◌ d t) h = cc (nil-cons d t, h)
leb_total (String.◌∷◌ c s) String.[] h = rw nil-cons
leb_total (String.◌∷◌ c s) (String.◌∷◌ d t) h =
    rw cons-cons
      (swap_then (code c) (code d) (compare s t) (compare t s) (leb_total s t) (rw cons-cons at h))

-- Each entry is before or at its successor.
abbrev pub FirstLe {ℓ} : {A : Type ℓ} → (A → String) → A → List A → Type 0
FirstLe key x [] = Unit
FirstLe key x (y ∷ ys) = str_leb (key x) (key y) ≡ true

abbrev pub IsSorted {ℓ} : {A : Type ℓ} → (A → String) → List A → Type 0
IsSorted key [] = Unit
IsSorted key (x ∷ xs) = FirstLe key x xs × IsSorted key xs

module _ {ℓ} {A : Type ℓ} (key : A → String) where
  FirstLe-insert_by :
      (z x : A) (xs : List A)
      → str_leb (key z) (key x) ≡ true
      → FirstLe key z xs
      → FirstLe key z (insert_by key x xs)
  unfolding insert_by
  FirstLe-insert_by z x [] h hs = h
  FirstLe-insert_by z x (y ∷ ys) h hs = elim (Bool-cases (str_leb (key x) (key y))) [
    | inl e ↦ rw e h
    | inr e ↦ rw e hs
  ]

  insert_by-IsSorted : (x : A) (xs : List A) → IsSorted key xs → IsSorted key (insert_by key x xs)
  unfolding insert_by
  insert_by-IsSorted x [] h = (tt, tt)
  insert_by-IsSorted x (y ∷ ys) (first, h) = elim (Bool-cases (str_leb (key x) (key y))) [
    | inl e ↦ rw e (e, (first, h))
    | inr e ↦
        rw e
          (FirstLe-insert_by y x ys (leb_total (key x) (key y) e) first, insert_by-IsSorted x ys h)
  ]

  pub sort_by-IsSorted : (xs : List A) → IsSorted key (sort_by key xs)
  unfolding sort_by
  sort_by-IsSorted [] = tt
  sort_by-IsSorted (x ∷ xs) = insert_by-IsSorted x (sort_by key xs) (sort_by-IsSorted xs)

-- The entries of a summary are ordered by path.
pub diff-IsSorted :
    (before after : Fields) (max_depth : ℕ)
    → IsSorted (λ (c : FieldChange). c.path) (diff before after max_depth)
unfolding diff
diff-IsSorted before after max_depth = sort_by-IsSorted (λ (c : FieldChange). c.path) _
