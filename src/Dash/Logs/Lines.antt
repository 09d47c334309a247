-- ===== src/Dash/Logs/Lines.antt =====
-- The last lines of a log buffer: `lastLines` of internal/adapters/rayapi/client.go.
use ray_mcp.Prelude.{
  ℕ, zero, suc, ◌+◌, ◌≤◌, ◌<◌, ◌≡◌, ◌∙◌, ◌⊎◌, inl, inr, refl, ◌||◌, List, [], ◌∷◌, length, drop,
  leb, nat_eq, if◌then◌else◌, arith, Bool-cases,
}
use ray_mcp.Dash.Logs.{newline, nth, trim_newline, count_newlines, cut_lines, last_lines}

-- The lines of a text; what follows the last newline is a line if it is not empty.
abbrev pub lines : List ℕ → ℕ
lines [] = 0
lines (x ∷ []) = 1
lines (x ∷ y ∷ ys) = (if nat_eq x newline then 1 else 0) + lines (y ∷ ys)

lines-trim : (x : ℕ) (xs : List ℕ) → lines (x ∷ xs) ≡ count_newlines (trim_newline (x ∷ xs)) + 1
unfolding trim_newline count_newlines
lines-trim x [] = ground arith
lines-trim x (y ∷ ys) = ground (arith, lines-trim y ys)

pub lines-drop : (n : ℕ) (xs : List ℕ) → lines (drop n xs) ≤ lines xs
lines-drop zero xs = omega arith
lines-drop (suc n) [] = omega arith
lines-drop (suc n) (x ∷ []) = ground (arith, lines-drop n [])
lines-drop (suc n) (x ∷ y ∷ ys) = omega (arith, lines-drop n (y ∷ ys))

pub drop-nth : (i : ℕ) (xs : List ℕ) → i < length xs → drop i xs ≡ nth xs i ∷ drop (suc i) xs
drop-nth i [] h = absurd (omega arith)
drop-nth zero (x ∷ xs) h = refl
drop-nth (suc i) (x ∷ xs) h = drop-nth i xs (omega arith)

trim_newline-length :
    (xs : List ℕ)
    → (length (trim_newline xs) ≤ length xs) × (length xs ≤ suc (length (trim_newline xs)))
unfolding trim_newline
trim_newline-length [] = ground arith
trim_newline-length (x ∷ []) = ground arith
trim_newline-length (x ∷ y ∷ ys) = ground (arith, trim_newline-length (y ∷ ys))

drop-trim :
    (k : ℕ) (xs : List ℕ) → k < length xs → drop k (trim_newline xs) ≡ trim_newline (drop k xs)
unfolding trim_newline
drop-trim k [] h = absurd (omega arith)
drop-trim zero (x ∷ xs) h = refl
drop-trim (suc k) (x ∷ []) h = absurd (omega arith)
drop-trim (suc k) (x ∷ y ∷ ys) h = drop-trim k (y ∷ ys) (omega arith)

-- A newline that is left is not the last byte.
newline_inside :
    (j : ℕ) (xs : List ℕ)
    → j < length (trim_newline xs)
    → nth (trim_newline xs) j ≡ newline
    → (suc j < length xs) × (nth xs j ≡ newline)
unfolding trim_newline
newline_inside j [] h e = absurd (omega arith)
newline_inside j (x ∷ []) h e = ground arith
newline_inside zero (x ∷ y ∷ ys) h e = (omega arith, e)
newline_inside (suc j) (x ∷ y ∷ ys) h e =
    let (p, q) = newline_inside j (y ∷ ys) (omega arith) e in (omega arith, q)

abbrev pub Cut : List ℕ → List ℕ → ℕ → List ℕ → Type 0
Cut s search n out =
    (j : ℕ) × (out ≡ drop (suc j) s)
    × (j < length search)
    × (nth search j ≡ newline)
    × (count_newlines (drop (suc j) search) + 1 ≡ n)

-- The loop finds the start of the `n`-th line from the end.
cut_lines-Cut :
    (s search : List ℕ) (n count i : ℕ)
    → i ≤ length search
    → count_newlines (drop i search) ≡ count
    → count < n
    → n ≤ count_newlines search
    → Cut s search n (cut_lines s search n count i)
unfolding cut_lines count_newlines
cut_lines-Cut s search n count zero le e lt enough = absurd (omega arith)
cut_lines-Cut s search n count (suc i) le e lt enough =
    let d = drop-nth i search (omega arith) in
    elim (Bool-cases (nat_eq (nth search i) newline)) [
      | inl h ↦ elim (Bool-cases (nat_eq (suc count) n)) [
        | inl g ↦ rw (h, g) (i, refl, omega arith, ground arith, ground arith)
        | inr g ↦
            rw (h, g)
              (cut_lines-Cut s search n (suc count) i (omega arith) (rw d (ground arith))
                (ground arith) enough)
      ]
      | inr h ↦
          rw h (cut_lines-Cut s search n count i (omega arith) (rw d (ground arith)) lt enough)
    ]

-- Where the kept part starts: at the first byte, or after a newline.
abbrev pub LineStart : List ℕ → ℕ → Type 0
LineStart s zero = Unit {0}
LineStart s (suc j) = nth s j ≡ newline

abbrev pub Tail : List ℕ → ℕ → List ℕ → Type 0
Tail s n out =
    (k : ℕ) × (out ≡ drop k s) × LineStart s k × (((k ≡ 0) × (lines s ≤ n)) ⊎ (lines out ≡ n))

lines-drop_trim :
    (k : ℕ) (s : List ℕ)
    → k < length s
    → lines (drop k s) ≡ count_newlines (drop k (trim_newline s)) + 1
lines-drop_trim k s h =
    let d = drop-nth k s h in rw (drop-trim k s h, d) (lines-trim (nth s k) (drop (suc k) s))

Cut-Tail : (s : List ℕ) (n : ℕ) (out : List ℕ) → Cut s (trim_newline s) n out → Tail s n out
Cut-Tail s n out (j, e, lt, nl, c) =
    let (inside, at_j) = newline_inside j s lt nl in
    (suc j, e, at_j, inr (rw e (lines-drop_trim (suc j) s inside ∙ c)))

lines-few : (s : List ℕ) (n : ℕ) → 0 < n → count_newlines (trim_newline s) + 1 ≤ n → lines s ≤ n
lines-few [] n p h = omega arith
lines-few (x ∷ xs) n p h = omega (arith, lines-trim x xs)

count-drop_all : (xs : List ℕ) → count_newlines (drop (length xs) xs) ≡ 0
unfolding count_newlines
count-drop_all [] = refl
count-drop_all (x ∷ xs) = count-drop_all xs

pub last_lines-Tail : (s : List ℕ) (n : ℕ) → 0 < n → Tail s n (last_lines s n)
unfolding last_lines
last_lines-Tail s n p = elim (Bool-cases (nat_eq n 0 || nat_eq (length s) 0)) [
  | inl h ↦ rw h (0, refl, tt, inl (refl, empty s (ground arith)))
  | inr h ↦ elim (Bool-cases (leb (count_newlines (trim_newline s) + 1) n)) [
    | inl g ↦ rw (h, g) (0, refl, tt, inl (refl, lines-few s n p (ground arith)))
    | inr g ↦
        rw (h, g)
          (Cut-Tail s n _ (
            cut_lines-Cut s (trim_newline s) n 0 (length (trim_newline s)) (omega arith)
              (count-drop_all (trim_newline s)) p (ground arith)))
  ]
]
  where
    empty : (xs : List ℕ) → length xs ≡ 0 → lines xs ≤ n
    empty [] e = omega arith
    empty (x ∷ xs) e = absurd (omega arith)
