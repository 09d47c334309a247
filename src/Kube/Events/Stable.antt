-- ===== src/Kube/Events/Stable.antt =====
-- The stability of the sort in `boundEvents` of internal/adapters/kuberay/events.go.
use ray_mcp.Prelude.{
  ◌≡◌, ◌∙◌, ◌&&◌, not, nat_eq, refl, Bool, true, false, List, [], ◌∷◌, arith, Bool-cases, inl, inr,
  if◌then◌else◌,
}
use ray_mcp.Kube.Events.{Event, is_warning, before, insert_event, sort_events}

abbrev pub only : (Event → Bool) → List Event → List Event
only p [] = []
only p (x ∷ xs) = if p x then x ∷ only p xs else only p xs

-- Two events that the order does not tell apart: of one class, and seen at one time.
abbrev pub alike : Event → Event → Bool
alike k e =
    (if is_warning k then is_warning e else not (is_warning e)) && nat_eq k.last_seen e.last_seen

alike-before : (k x y : Event) → alike k x ≡ true → alike k y ≡ true → before y x ≡ false
alike-before k x y h g = ground (arith, h, g)

only-swap :
    (k x y : Event) (zs : List Event)
    → before y x ≡ true
    → only (alike k) (y ∷ x ∷ zs) ≡ only (alike k) (x ∷ y ∷ zs)
only-swap k x y zs b = elim (Bool-cases (alike k x)) [
  | inr p ↦ rw p refl
  | inl p ↦ elim (Bool-cases (alike k y)) [
    | inr q ↦ rw (p, q) refl
    | inl q ↦ absurd (ground (arith, b, alike-before k x y p q))
  ]
]

only-insert :
    (k x : Event) (ys : List Event) → only (alike k) (insert_event x ys) ≡ only (alike k) (x ∷ ys)
unfolding insert_event
only-insert k x [] = refl
only-insert k x (y ∷ ys) = elim (Bool-cases (before y x)) [
  | inl b ↦ rw b (rw (only-insert k x ys) (only-swap k x y ys b))
  | inr b ↦ rw b refl
]

pub only-sort : (k : Event) (xs : List Event) → only (alike k) (sort_events xs) ≡ only (alike k) xs
unfolding sort_events
only-sort k [] = refl
only-sort k (x ∷ xs) = only-insert k x (sort_events xs) ∙ rw (only-sort k xs) refl
