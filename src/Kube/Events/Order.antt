-- ===== src/Kube/Events/Order.antt =====
-- Which events `boundEvents` of internal/adapters/kuberay/events.go keeps.
use ray_mcp.Prelude.{
  ℕ, zero, suc, ◌+◌, ◌≤◌, ◌≡◌, ◌≢◌, ◌⊎◌, ◌↔◌, eq_iff, ◌∙◌, ◌++◌, refl, ap, Bool, true, false, List,
  [], ◌∷◌, length, arith, Bool-cases, inl, inr, if◌then◌else◌,
}
use ray_mcp.Kube.Events.Stable.{only, alike, only-sort}
use ray_mcp.Kube.Events.{Event, before, insert_event, sort_events, bound_events, take}

-- `a` may stand before `b`: a Warning before another event, else two events of one class of which `b` is
-- no more recent.
abbrev pub InOrder : Event → Event → Type 0
InOrder a b =
    ((a.type ≡ "Warning") × (b.type ≢ "Warning"))
    ⊎ (((a.type ≡ "Warning") ↔ (b.type ≡ "Warning")) × (b.last_seen ≤ a.last_seen))

abbrev pub BeforeAll : Event → List Event → Type 0
BeforeAll x [] = Unit {0}
BeforeAll x (y ∷ ys) = InOrder x y × BeforeAll x ys

abbrev pub Ordered : List Event → Type 0
Ordered [] = Unit {0}
Ordered (x ∷ xs) = BeforeAll x xs × Ordered xs

abbrev pub EachBeforeAll : List Event → List Event → Type 0
EachBeforeAll [] ys = Unit {0}
EachBeforeAll (x ∷ xs) ys = BeforeAll x ys × EachBeforeAll xs ys

not_before-InOrder : (x y : Event) → before y x ≡ false → InOrder x y
not_before-InOrder x y h = ground (arith, h, eq_iff x.type "Warning", eq_iff y.type "Warning")

-- No event of the list is sorted before `x`.
abbrev NoneBefore : Event → List Event → Type 0
NoneBefore x [] = Unit {0}
NoneBefore x (y ∷ ys) = (before y x ≡ false) × NoneBefore x ys

abbrev Sorted : List Event → Type 0
Sorted [] = Unit {0}
Sorted (x ∷ xs) = NoneBefore x xs × Sorted xs

abbrev pub count_if : (Event → Bool) → List Event → ℕ
count_if p [] = 0
count_if p (x ∷ xs) = (if p x then 1 else 0) + count_if p xs

not_before_trans : (x y z : Event) → before y x ≡ false → before z y ≡ false → before z x ≡ false
not_before_trans x y z h g = ground arith

before_asym : (x y : Event) → before y x ≡ true → before x y ≡ false
before_asym x y h = ground arith

NoneBefore-trans :
    (x y : Event) (zs : List Event) → before y x ≡ false → NoneBefore y zs → NoneBefore x zs
NoneBefore-trans x y [] h n = tt
NoneBefore-trans x y (z ∷ zs) h n = (not_before_trans x y z h n.0, NoneBefore-trans x y zs h n.1)

insert_event-NoneBefore :
    (x y : Event) (ys : List Event)
    → before x y ≡ false
    → NoneBefore y ys
    → NoneBefore y (insert_event x ys)
unfolding insert_event
insert_event-NoneBefore x y [] h n = (h, tt)
insert_event-NoneBefore x y (z ∷ zs) h n = elim (Bool-cases (before z x)) [
  | inl b ↦ rw b (n.0, insert_event-NoneBefore x y zs h n.1)
  | inr b ↦ rw b (h, n)
]

insert_event-Sorted : (x : Event) (ys : List Event) → Sorted ys → Sorted (insert_event x ys)
unfolding insert_event
insert_event-Sorted x [] s = (tt, tt)
insert_event-Sorted x (y ∷ ys) (n, s) = elim (Bool-cases (before y x)) [
  | inl b ↦ rw b (insert_event-NoneBefore x y ys (before_asym x y b) n, insert_event-Sorted x ys s)
  | inr b ↦ rw b ((b, NoneBefore-trans x y ys b n), (n, s))
]

sort_events-Sorted : (xs : List Event) → Sorted (sort_events xs)
unfolding sort_events
sort_events-Sorted [] = tt
sort_events-Sorted (x ∷ xs) = insert_event-Sorted x (sort_events xs) (sort_events-Sorted xs)

count-insert :
    (p : Event → Bool) (x : Event) (ys : List Event)
    → count_if p (insert_event x ys) ≡ (if p x then 1 else 0) + count_if p ys
unfolding insert_event
count-insert p x [] = refl
count-insert p x (y ∷ ys) = elim (Bool-cases (before y x)) [
  | inl b ↦ rw b (omega (arith, count-insert p x ys))
  | inr b ↦ rw b refl
]

count-sort : (p : Event → Bool) (xs : List Event) → count_if p (sort_events xs) ≡ count_if p xs
unfolding sort_events
count-sort p [] = refl
count-sort p (x ∷ xs) = count-insert p x (sort_events xs) ∙ omega (arith, count-sort p xs)

abbrev pub drop : ℕ → List Event → List Event
drop zero xs = xs
drop (suc n) [] = []
drop (suc n) (x ∷ xs) = drop n xs

NoneBefore-drop : (x : Event) (n : ℕ) (ys : List Event) → NoneBefore x ys → NoneBefore x (drop n ys)
NoneBefore-drop x zero ys h = h
NoneBefore-drop x (suc n) [] h = tt
NoneBefore-drop x (suc n) (y ∷ ys) h = NoneBefore-drop x n ys h.1

NoneBefore-take : (x : Event) (n : ℕ) (ys : List Event) → NoneBefore x ys → NoneBefore x (take n ys)
NoneBefore-take x zero ys h = tt
NoneBefore-take x (suc n) [] h = tt
NoneBefore-take x (suc n) (y ∷ ys) h = (h.0, NoneBefore-take x n ys h.1)

Sorted-take : (n : ℕ) (ys : List Event) → Sorted ys → Sorted (take n ys)
Sorted-take zero ys h = tt
Sorted-take (suc n) [] h = tt
Sorted-take (suc n) (y ∷ ys) h = (NoneBefore-take y n ys h.0, Sorted-take n ys h.1)

NoneBefore-BeforeAll : (x : Event) (ys : List Event) → NoneBefore x ys → BeforeAll x ys
NoneBefore-BeforeAll x [] h = tt
NoneBefore-BeforeAll x (y ∷ ys) h = (not_before-InOrder x y h.0, NoneBefore-BeforeAll x ys h.1)

Sorted-Ordered : (xs : List Event) → Sorted xs → Ordered xs
Sorted-Ordered [] h = tt
Sorted-Ordered (x ∷ xs) h = (NoneBefore-BeforeAll x xs h.0, Sorted-Ordered xs h.1)

split-Sorted : (n : ℕ) (ys : List Event) → Sorted ys → EachBeforeAll (take n ys) (drop n ys)
split-Sorted zero ys h = tt
split-Sorted (suc n) [] h = tt
split-Sorted (suc n) (y ∷ ys) h =
    (NoneBefore-BeforeAll y (drop n ys) (NoneBefore-drop y n ys h.0), split-Sorted n ys h.1)

count-split :
    (p : Event → Bool) (n : ℕ) (ys : List Event)
    → count_if p (take n ys) + count_if p (drop n ys) ≡ count_if p ys
count-split p zero ys = omega arith
count-split p (suc n) [] = refl
count-split p (suc n) (y ∷ ys) = omega (arith, count-split p n ys)

only-split :
    (p : Event → Bool) (n : ℕ) (ys : List Event)
    → only p (take n ys) ++ only p (drop n ys) ≡ only p ys
only-split p zero ys = refl
only-split p (suc n) [] = refl
only-split p (suc n) (y ∷ ys) = elim (Bool-cases (p y)) [
  | inl h ↦ rw h (ap (◌∷◌ y) (only-split p n ys))
  | inr h ↦ rw h (only-split p n ys)
]

length-take : (n : ℕ) (ys : List Event) → length (take n ys) ≤ n
length-take zero ys = omega arith
length-take (suc n) [] = omega arith
length-take (suc n) (y ∷ ys) = omega (arith, length-take n ys)

drop_nothing : (n : ℕ) (ys : List Event) → (length (take n ys) ≡ n) ⊎ (drop n ys ≡ [])
drop_nothing zero ys = inl refl
drop_nothing (suc n) [] = inr refl
drop_nothing (suc n) (y ∷ ys) = ground (arith, drop_nothing n ys)

-- The kept events are in order: of any two, the first is a Warning and the second is none, or both
-- or neither are Warnings and the second was not seen later; and each kept event is so in front of
-- each dropped one. The kept and the dropped ones have together each event as often as the input has
-- it, and those of one class and one time in the order of the input; at most the limit is kept, and
-- something is dropped only when the limit is reached.
pub bound_events_lem :
    (xs : List Event) (limit : ℕ)
    → let out = bound_events xs limit in
      (dropped : List Event) × Ordered out
      × EachBeforeAll out dropped
      × (length out ≤ limit)
      × ((length out ≡ limit) ⊎ (dropped ≡ []))
      × ((p : Event → Bool) → count_if p out + count_if p dropped ≡ count_if p xs)
      × ((k : Event) → only (alike k) out ++ only (alike k) dropped ≡ only (alike k) xs)
unfolding bound_events
bound_events_lem xs limit =
    let ys = sort_events xs in
    let s = sort_events-Sorted xs in
    (
      drop limit ys,
      Sorted-Ordered (take limit ys) (Sorted-take limit ys s),
      split-Sorted limit ys s,
      length-take limit ys,
      drop_nothing limit ys,
      λ p. count-split p limit ys ∙ count-sort p xs,
      λ k. only-split (alike k) limit ys ∙ only-sort k xs,
    )
