-- ===== src/Dash/Logs/Runes.antt =====
-- Characters are kept whole: `lastBytes` of internal/adapters/rayapi/client.go on the bytes of a text.
use Prim.Native.Char.{Char, code}
use ray_mcp.Prelude.{
  ℕ, zero, suc, ◌+◌, ◌-◌, ◌≤◌, ◌<◌, ◌≡◌, ◌∙◌, ◌⊎◌, inl, inr, refl, String, ◌||◌, List, ◌++◌, length,
  drop, length-append, ap, leb, nat_eq, arith, Bool-cases,
}
use ray_mcp.Prelude.Utf8.{bytes, utf8_char}
use ray_mcp.Dash.Logs.{nth, to_boundary, last_bytes}

-- `Suffix t s`: `t` is what is left of `s` from some character on.
pub data Suffix (t : String) : String → Type 0 where
  whole : Suffix t t
  later : (c : Char) (s : String) → Suffix t s → Suffix t (String.◌∷◌ c s)

-- The bytes of a suffix.
abbrev pub SuffixOf : String → List ℕ → Type 0
SuffixOf s out = (t : String) × Suffix t s × (out ≡ bytes t)

pub Suffix-trans : {u t s : String} → Suffix u t → Suffix t s → Suffix u s
Suffix-trans p whole = p
Suffix-trans p (later c s q) = later c s (Suffix-trans p q)

to_boundary-utf8 : (c : ℕ) (bs : List ℕ) → to_boundary (utf8_char c ++ bs) ≡ utf8_char c ++ bs
unfolding to_boundary utf8_char
to_boundary-utf8 c bs = ground arith

-- A cut inside a character, or behind it.
drop-utf8 :
    (c k : ℕ) (bs : List ℕ)
    → to_boundary (drop (suc k) (utf8_char c ++ bs))
      ≡ to_boundary (drop (suc k - length (utf8_char c)) bs)
unfolding to_boundary utf8_char
drop-utf8 c zero bs = ground arith
drop-utf8 c (suc zero) bs = ground arith
drop-utf8 c (suc (suc zero)) bs = ground arith
drop-utf8 c (suc (suc (suc k))) bs = ground arith

to_boundary-SuffixOf : (s : String) (k : ℕ) → SuffixOf s (to_boundary (drop k (bytes s)))
unfolding bytes to_boundary
to_boundary-SuffixOf String.[] zero = (String.[], whole, refl)
to_boundary-SuffixOf String.[] (suc k) = (String.[], whole, refl)
to_boundary-SuffixOf (String.◌∷◌ c s) zero =
    (String.◌∷◌ c s, whole, to_boundary-utf8 (code c) (bytes s))
to_boundary-SuffixOf (String.◌∷◌ c s) (suc k) =
    let (t, e, q) = to_boundary-SuffixOf s (suc k - length (utf8_char (code c))) in
    (t, later c s e, drop-utf8 (code c) k (bytes s) ∙ q)

-- Only a whole character starts or follows an ASCII byte.
nth-utf8 :
    (c k : ℕ) (bs : List ℕ)
    → k < length (utf8_char c ++ bs)
    → nth (utf8_char c ++ bs) k < 128
    → (drop (suc k) (utf8_char c ++ bs) ≡ bs)
      ⊎ ((k ≡ length (utf8_char c) + (k - length (utf8_char c)))
          × (nth bs (k - length (utf8_char c)) ≡ nth (utf8_char c ++ bs) k)
          × (drop (suc k) (utf8_char c ++ bs) ≡ drop (suc (k - length (utf8_char c))) bs))
unfolding utf8_char
nth-utf8 c zero bs h = ground arith
nth-utf8 c (suc zero) bs h = ground arith
nth-utf8 c (suc (suc zero)) bs h = ground arith
nth-utf8 c (suc (suc (suc zero))) bs h = ground arith
nth-utf8 c (suc (suc (suc (suc k)))) bs h = ground arith

pub after_ascii-SuffixOf :
    (s : String) (k : ℕ)
    → k < length (bytes s)
    → nth (bytes s) k < 128
    → SuffixOf s (drop (suc k) (bytes s))
unfolding bytes
after_ascii-SuffixOf String.[] k lt h = absurd (omega arith)
after_ascii-SuffixOf (String.◌∷◌ c s) k lt h = elim (nth-utf8 (code c) k (bytes s) lt h) [
  | inl e ↦ (s, later c s whole, e)
  | inr (le, same, e) ↦
      let (t, f, q) =
        after_ascii-SuffixOf s (k - length (utf8_char (code c)))
          (omega (arith, length-append (utf8_char (code c)) (bytes s))) (omega arith) in
      (t, later c s f, e ∙ q)
]

pub last_bytes-SuffixOf : (s : String) (n : ℕ) → SuffixOf s (last_bytes (bytes s) n)
unfolding last_bytes
last_bytes-SuffixOf s n = elim (Bool-cases (nat_eq n 0 || leb (length (bytes s)) n)) [
  | inl h ↦ rw h (s, whole, refl)
  | inr h ↦ rw h (to_boundary-SuffixOf s (length (bytes s) - n))
]

drop-utf8_length :
    (c k : ℕ) (bs : List ℕ)
    → (drop (suc k) (utf8_char c ++ bs) ≡ drop (suc k - length (utf8_char c)) bs)
      ⊎ ((suc k - length (utf8_char c) ≡ 0)
          × (length (drop (suc k) (utf8_char c ++ bs)) ≤ length bs + 3))
unfolding utf8_char
drop-utf8_length c zero bs = ground arith
drop-utf8_length c (suc zero) bs = ground arith
drop-utf8_length c (suc (suc zero)) bs = ground arith
drop-utf8_length c (suc (suc (suc k))) bs = ground arith

to_boundary-bytes : (s : String) → to_boundary (bytes s) ≡ bytes s
unfolding bytes to_boundary
to_boundary-bytes String.[] = refl
to_boundary-bytes (String.◌∷◌ c s) = to_boundary-utf8 (code c) (bytes s)

abbrev Near : String → ℕ → Type 0
Near s k = length (drop k (bytes s)) ≤ length (to_boundary (drop k (bytes s))) + 3

Near-later :
    (c : Char) (s : String) (k : ℕ)
    → Near s (suc k - length (utf8_char (code c)))
    → Near (String.◌∷◌ c s) (suc k)
unfolding bytes
Near-later c s k ih =
    let same = ap length (drop-utf8 (code c) k (bytes s)) in
    elim (drop-utf8_length (code c) k (bytes s)) [
      | inl e ↦ omega (arith, ih, ap length e, same)
      | inr (z, le) ↦
          let at_start = ap (λ (n : ℕ). length (to_boundary (drop n (bytes s)))) z in
          omega (arith, le, same, at_start, ap length (to_boundary-bytes s))
    ]

-- A boundary is at most three bytes away.
pub to_boundary-near :
    (s : String) (k : ℕ) → length (drop k (bytes s)) ≤ length (to_boundary (drop k (bytes s))) + 3
unfolding bytes to_boundary
to_boundary-near s zero = omega (arith, ap length (to_boundary-bytes s))
to_boundary-near String.[] (suc k) = omega arith
to_boundary-near (String.◌∷◌ c s) (suc k) =
    Near-later c s k (to_boundary-near s (suc k - length (utf8_char (code c))))

utf8_char-length : (c : ℕ) → 0 < length (utf8_char c)
unfolding utf8_char
utf8_char-length c = ground arith

Suffix-longer :
    (c : Char) (t s : String)
    → (t ≡ s) ⊎ (length (bytes t) < length (bytes s))
    → length (bytes t) < length (bytes (String.◌∷◌ c s))
unfolding bytes
Suffix-longer c t s h =
    let sum = length-append (utf8_char (code c)) (bytes s) in
    elim h [
      | inl e ↦
          omega (arith, sum, utf8_char-length (code c), ap (λ (u : String). length (bytes u)) e)
      | inr lt ↦ omega (arith, sum, lt)
    ]

-- A proper suffix has fewer bytes.
pub Suffix-bytes : {t s : String} → Suffix t s → (t ≡ s) ⊎ (length (bytes t) < length (bytes s))
Suffix-bytes whole = inl refl
Suffix-bytes {t} (later c s p) = inr (Suffix-longer c t s (Suffix-bytes p))
