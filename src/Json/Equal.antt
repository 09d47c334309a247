-- ===== src/Json/Equal.antt =====
-- `deep_equal` compares maps by their contents: reflect.DeepEqual on `map[string]any`.
use mathlib.Core.Path.{subst}
use mathlib.Core.Option.{some-injective}
use ray_mcp.Prelude.{
  ◌≤◌, ◌≡◌, ◌≢◌, ◌↔◌, refl, String, true, false, Option, none, some, arith, ◌==◌, eq_iff, eq_refl,
  Bool-cases, Option-cases, inl, inr, nat_eq, nat_eq_iff, and-true,
}
use ray_mcp.Prelude.Int.{eqb_ℤ_iff}
use ray_mcp.Json.{
  Value, null, bool, int, float, str, arr, obj, Items, nil, cons, Fields, end, field, get, size,
  delete, deep_equal, items_equal, fields_within, IsWf, IsWfItems, IsWfFields,
}
use ray_mcp.Json.Lookup.{size-le-of_keys, size-delete, delete-IsWf, get-delete_ne}

-- What two maps hold at one key.
abbrev pub Agree : Option Value → Option Value → Type 0
Agree none none = Unit
Agree (some v) (some w) = deep_equal v w ≡ true
Agree _ _ = ⊥

within-head :
    (j : String) (u : Value) (m n : Fields)
    → fields_within (field j u m) n ≡ true
    → (w : Value) × (get j n ≡ some w) × (deep_equal u w ≡ true)
unfolding deep_equal
within-head j u m n h = elim (Option-cases (get j n)) [
  | inl e ↦ absurd (ground arith)
  | inr (w, e) ↦ (w, e, ground arith)
]

-- What a map holds is found, equal, in a map that it lies within.
pub within-at :
    (m n : Fields) (k : String) {v : Value}
    → fields_within m n ≡ true
    → get k m ≡ some v
    → (w : Value) × (get k n ≡ some w) × (deep_equal v w ≡ true)
unfolding deep_equal get
within-at end n k h e = cc
within-at (field j u m) n k {v = v} h e = elim (Bool-cases (j == k)) [
  | inl p ↦
      subst (λ x. (w : Value) × (get k n ≡ some w) × (deep_equal x w ≡ true))
        (some-injective u v (rw p at e))
        (subst (λ i. (w : Value) × (get i n ≡ some w) × (deep_equal u w ≡ true)) ((eq_iff j k).0 p)
          (within-head j u m n h))
  | inr p ↦ within-at m n k (ground arith) (rw p at e)
]

pub within_of :
    (m n : Fields)
    → IsWfFields m
    → ((k : String) (v : Value)
        → get k m ≡ some v
        → (w : Value) × (get k n ≡ some w) × (deep_equal v w ≡ true))
    → fields_within m n ≡ true
unfolding deep_equal get
within_of end n wf sub = refl
within_of (field j u m) n (fresh, hu, wf) sub =
    let (w, found, same) = sub j u (rw (eq_refl j)) in
    let rest : fields_within m n ≡ true = within_of m n wf (λ k v e. elim (Bool-cases (j == k)) [
      | inl p ↦ absurd (cc (subst (λ i. get i m ≡ none) ((eq_iff j k).0 p) fresh, e))
      | inr p ↦ sub k v (rw p e)
    ]) in
    ground (arith, rest, found, same)

-- Equal contents at each key.
pub Agree-of_within :
    (m n : Fields)
    → IsWfFields m
    → IsWfFields n
    → nat_eq (size m) (size n) ≡ true
    → fields_within m n ≡ true
    → (k : String) → Agree (get k m) (get k n)
Agree-of_within m n hm hn len h k = elim (Option-cases (get k m)) [
  | inr (v, e) ↦ let (w, f, same) = within-at m n k h e in rw (e, f) same
  | inl e ↦ elim (Option-cases (get k n)) [
    | inl f ↦ rw (e, f) tt
    | inr (w, f) ↦ absurd (too_many e (cc f))
  ]
]
  where
    missing : (j : String) → get k m ≡ none → get j m ≢ none → get j (delete k n) ≢ none
    missing j e there gone = elim (Option-cases (get j m)) [
      | inl e' ↦ there e'
      | inr (v, e') ↦
          let (w, f, same) = within-at m n j h e' in
          elim (Bool-cases (k == j)) [
            | inl p ↦ there (subst (λ i. get i m ≡ none) ((eq_iff k j).0 p) e)
            | inr p ↦ cc (f, get-delete_ne j k n p, gone)
          ]
    ]

    too_many : get k m ≡ none → get k n ≢ none → ⊥
    too_many e there = omega (
      arith,
      (nat_eq_iff (size m) (size n)).0 len,
      size-delete k n hn there,
      size-le-of_keys m (delete k n) hm (delete-IsWf k n hn) (λ j t. missing j e t),
    )

pub Agree-some :
    {x y : Option Value} {v : Value}
    → Agree x y
    → x ≡ some v
    → (w : Value) × (y ≡ some w) × (deep_equal v w ≡ true)
Agree-some {x = none} a e = cc
Agree-some {x = some u} {y = none} a e = absurd a
Agree-some {x = some u} {y = some w} {v = v} a e =
    (w, refl, subst (λ z. deep_equal z w ≡ true) (some-injective u v e) a)

Agree-none : {x y : Option Value} → Agree x y → x ≢ none ↔ y ≢ none
Agree-none {x = none} {y = none} a = (λ h. h, λ h. h)
Agree-none {x = none} {y = some w} a = absurd a
Agree-none {x = some u} {y = none} a = absurd a
Agree-none {x = some u} {y = some w} a = (λ h e. cc, λ h e. cc)

-- Two maps are deeply equal exactly when every key is in both, with deeply equal values, or in
-- neither.
pub deep_equal-obj_iff :
    (m n : Fields)
    → IsWfFields m
    → IsWfFields n
    → (deep_equal (obj m) (obj n) ≡ true) ↔ ((k : String) → Agree (get k m) (get k n))
unfolding deep_equal
deep_equal-obj_iff m n hm hn = (
  λ h k. Agree-of_within m n hm hn (and-true _ _ h).0 (and-true _ _ h).1 k,
  λ agree.
      let le : size m ≤ size n = size-le-of_keys m n hm hn (λ k. (Agree-none (agree k)).0) in
      let ge : size n ≤ size m = size-le-of_keys n m hn hm (λ k. (Agree-none (agree k)).1) in
      let within : fields_within m n ≡ true = within_of m n hm (λ k v e. Agree-some (agree k) e) in
      ground (arith, le, ge, within),
)

mutual
  unfolding deep_equal get

  deep_equal_self : (v : Value) → IsWf v → deep_equal v v ≡ true
  deep_equal_self null h = refl
  deep_equal_self (bool true) h = refl
  deep_equal_self (bool false) h = refl
  deep_equal_self (int m) h = (eqb_ℤ_iff m m).1 refl
  deep_equal_self (float m k) h = ground (arith, eqb_ℤ_iff m m)
  deep_equal_self (str s) h = eq_refl s
  deep_equal_self (arr xs) h = items_equal_self xs h
  deep_equal_self (obj m) h = ground (arith, fields_within_self m m h (λ k v e. e))

  items_equal_self : (xs : Items) → IsWfItems xs → items_equal xs xs ≡ true
  items_equal_self nil h = refl
  items_equal_self (cons x xs) h = ground (arith, deep_equal_self x h.0, items_equal_self xs h.1)

  fields_within_self :
      (m n : Fields)
      → IsWfFields m
      → ((k : String) (v : Value) → get k m ≡ some v → get k n ≡ some v)
      → fields_within m n ≡ true
  fields_within_self end n h sub = refl
  fields_within_self (field j u m) n (fresh, hu, h) sub =
      let here : get j n ≡ some u = sub j u (rw (eq_refl j)) in
      let same : deep_equal u u ≡ true = deep_equal_self u hu in
      let rest : fields_within m n ≡ true = fields_within_self m n h (λ k v e.
        elim (Bool-cases (j == k)) [
          | inl p ↦ absurd (cc (subst (λ i. get i m ≡ none) ((eq_iff j k).0 p) fresh, e))
          | inr p ↦ sub k v (rw p e)
        ]) in
      ground (arith, rest, here, same)

pub deep_equal_refl : (v : Value) → IsWf v → deep_equal v v ≡ true
deep_equal_refl v h = deep_equal_self v h
