-- ===== src/Diff/Keys.antt =====
-- `unionKeys` of internal/domain/diff.go, and what holds of each entry of a sorted list.
use mathlib.Core.Path.{subst}
use ray_mcp.Prelude.{
  ◌≡◌, ◌≢◌, ◌⊎◌, sym, refl, String, none, List, [], ◌∷◌, ◌==◌, eq_iff, Bool-cases, Option-cases,
  inl, inr,
}
use ray_mcp.Json.{Value, Fields, end, field, get}
use ray_mcp.Diff.{◌<>◌, str_leb, insert_by, sort_by, keys, new_keys, union_keys}

abbrev pub All {ℓ κ} : {A : Type ℓ} → (A → Type κ) → List A → Type κ
All P [] = Unit
All P (x ∷ xs) = P x × All P xs

module _ {ℓ κ} {A : Type ℓ} (P : A → Type κ) where
  All-insert_by :
      (key : A → String) (x : A) (xs : List A) → All P (insert_by key x xs) → P x × All P xs
  unfolding insert_by
  All-insert_by key x [] h = (h.0, tt)
  All-insert_by key x (y ∷ ys) h = elim (Bool-cases (str_leb (key x) (key y))) [
    | inl e ↦ let g = rw e at h in (g.0, (g.1.0, g.1.1))
    | inr e ↦ let g = rw e at h in let (px, rest) = All-insert_by key x ys g.1 in (px, (g.0, rest))
  ]

  -- What holds of each entry of the sorted list holds of each entry of the list.
  pub All-sort_by : (key : A → String) (xs : List A) → All P (sort_by key xs) → All P xs
  unfolding sort_by
  All-sort_by key [] h = tt
  All-sort_by key (x ∷ xs) h =
      let (px, rest) = All-insert_by key x (sort_by key xs) h in (px, All-sort_by key xs rest)

  All-append : (xs ys : List A) → All P (xs <> ys) → All P xs × All P ys
  All-append [] ys h = (tt, h)
  All-append (x ∷ xs) ys h = let (a, b) = All-append xs ys h.1 in ((h.0, a), b)

module _ (P : String → Type 0) where
  All-keys : (m : Fields) (k : String) → All P (keys m) → get k m ≢ none → P k
  unfolding keys get
  All-keys end k h there = absurd (there refl)
  All-keys (field j v m) k h there = elim (Bool-cases (j == k)) [
    | inl e ↦ subst P ((eq_iff j k).0 e) h.0
    | inr e ↦ All-keys m k h.1 (rw e at there)
  ]

  All-new_keys_tail :
      (m : Fields) (j : String) (v : Value) (n : Fields)
      → All P (new_keys m (field j v n))
      → All P (new_keys m n)
  unfolding new_keys
  All-new_keys_tail m j v n h = elim (Option-cases (get j m)) [
    | inl e ↦ (rw e at h).1
    | inr (w, e) ↦ rw e at h
  ]

  All-new_keys_head :
      (m : Fields) (j : String) (v : Value) (n : Fields)
      → All P (new_keys m (field j v n))
      → get j m ≡ none
      → P j
  unfolding new_keys
  All-new_keys_head m j v n h e = (rw e at h).0

  All-new_keys :
      (m n : Fields) (k : String) → All P (new_keys m n) → get k m ≡ none → get k n ≢ none → P k
  unfolding new_keys get
  All-new_keys m end k h gone there = absurd (there refl)
  All-new_keys m (field j v n) k h gone there = elim (Bool-cases (j == k)) [
    | inl e ↦
        let same : j ≡ k = (eq_iff j k).0 e in
        subst P same (All-new_keys_head m j v n h (subst (λ i. get i m ≡ none) (sym same) gone))
    | inr e ↦ All-new_keys m n k (All-new_keys_tail m j v n h) gone (rw e at there)
  ]

  -- What holds of each key of the union holds of each key that either map has.
  pub All-union_keys :
      (m n : Fields) (k : String)
      → All P (union_keys m n)
      → (get k m ≢ none) ⊎ (get k n ≢ none)
      → P k
  unfolding union_keys
  All-union_keys m n k h there =
      let (old, new) =
        All-append P (keys m) (new_keys m n) (All-sort_by P (λ j. j) (keys m <> new_keys m n) h) in
      elim (Option-cases (get k m)) [
        | inr (v, e) ↦ All-keys m k old (λ gone. cc (e, gone))
        | inl e ↦ elim there [ inl t ↦ absurd (t e) | inr t ↦ All-new_keys m n k new e t ]
      ]
