-- ===== src/Dash/Logs/Bound.antt =====
-- What `boundLogs` of internal/adapters/rayapi/client.go keeps.
use ray_mcp.Prelude.{
  ℕ, zero, suc, ◌+◌, ◌-◌, ◌≤◌, ◌<◌, ◌≡◌, ◌∙◌, ◌⊎◌, ◌↔◌, inl, inr, ap, String, false, List, [], ◌∷◌,
  length, drop, length-drop, ltb, arith, Bool-cases,
}
use ray_mcp.Prelude.Int.{ℤ, pos, negsuc}
use ray_mcp.Prelude.Utf8.{bytes}
use ray_mcp.Types.{LogOptions}
use ray_mcp.Dash.Logs.{
  newline, nth, to_boundary, last_lines, last_bytes, bound_logs, or_default, default_tail_lines,
  default_max_bytes,
}
use ray_mcp.Dash.Logs.Lines.{lines, lines-drop, Tail, last_lines-Tail}
use ray_mcp.Dash.Logs.Runes.{
  SuffixOf, Suffix-bytes, to_boundary-near, Suffix-trans, whole, after_ascii-SuffixOf,
  last_bytes-SuffixOf,
}

to_boundary-drop :
    (xs : List ℕ) → (length (to_boundary xs) ≤ length xs) × (lines (to_boundary xs) ≤ lines xs)
unfolding to_boundary
to_boundary-drop [] = ground arith
to_boundary-drop (x ∷ xs) = ground (arith, to_boundary-drop xs, lines-drop 1 (x ∷ xs))

last_bytes-short :
    (xs : List ℕ) (n : ℕ)
    → 0 < n
    → (length (last_bytes xs n) ≤ n)
      × (length (last_bytes xs n) ≤ length xs)
      × (lines (last_bytes xs n) ≤ lines xs)
unfolding last_bytes
last_bytes-short xs n p =
    let d = drop (length xs - n) xs in
    ground
      (arith, to_boundary-drop d, lines-drop (length xs - n) xs, length-drop (length xs - n) xs)

-- A text whose bytes are known, cut behind a newline.
Tail-SuffixOf : (s : String) (n : ℕ) (out : List ℕ) → Tail (bytes s) n out → SuffixOf s out
Tail-SuffixOf s n out (zero, e, st, c) = (s, whole, e)
Tail-SuffixOf s n out (suc j, e, st, c) = elim (Bool-cases (ltb j (length (bytes s)))) [
  | inl h ↦
      let (t, sub, q) = after_ascii-SuffixOf s j (ground arith) (omega arith) in (t, sub, e ∙ q)
  | inr h ↦ absurd (no_newline (bytes s) j (ground arith) st)
]
  where
    no_newline : (xs : List ℕ) (i : ℕ) → length xs ≤ i → nth xs i ≡ newline → ⊥
    no_newline [] i le x = omega arith
    no_newline (x ∷ xs) zero le y = omega arith
    no_newline (x ∷ xs) (suc i) le y = no_newline xs i (omega arith) y

Tail-lines : (s : List ℕ) (n : ℕ) (out : List ℕ) → Tail s n out → lines out ≤ n
Tail-lines s n out (k, e, st, inl (z, le)) = omega (arith, lines-drop k s, ap lines e)
Tail-lines s n out (k, e, st, inr eq) = omega arith

Tail-length : (s : List ℕ) (n : ℕ) (out : List ℕ) → Tail s n out → length out ≤ length s
Tail-length s n out (k, e, st, c) = omega (arith, length-drop k s, ap length e)

or_default-positive : (d : ℕ) (z : ℤ) → 0 < d → 0 < or_default d z
or_default-positive d (negsuc n) h = h
or_default-positive d (pos n) h = ground arith

-- The bounds in force.
abbrev pub line_cap : LogOptions → ℕ
line_cap opts = or_default default_tail_lines opts.tail_lines

abbrev pub byte_cap : LogOptions → ℕ
byte_cap opts = or_default default_max_bytes opts.max_bytes

last_bytes-near :
    (s : String) (n : ℕ)
    → (last_bytes (bytes s) n ≡ bytes s) ⊎ (n ≤ length (last_bytes (bytes s) n) + 3)
unfolding last_bytes
last_bytes-near s n =
    ground (
      arith,
      to_boundary-near s (length (bytes s) - n),
      length-drop (length (bytes s) - n) (bytes s),
    )

Tail-full : (s : List ℕ) (n : ℕ) (out : List ℕ) → Tail s n out → (out ≡ s) ⊎ (lines out ≡ n)
Tail-full s n out (zero, e, st, c) = inl e
Tail-full s n out (suc j, e, st, inl (z, le)) = absurd (omega arith)
Tail-full s n out (suc j, e, st, inr eq) = inr eq

-- What both steps keep of a text.
abbrev pub Kept : String → ℕ → ℕ → List ℕ → Type 0
Kept s n m out =
    SuffixOf s out
    × (length out ≤ m)
    × (lines out ≤ n)
    × ((out ≡ bytes s) ⊎ (lines out ≡ n) ⊎ (m ≤ length out + 3))

last_bytes-Kept :
    (s : String) (n m : ℕ) (mid : List ℕ)
    → 0 < m
    → Tail (bytes s) n mid
    → Kept s n m (last_bytes mid m)
last_bytes-Kept s n m mid positive tail =
    let (t, sub, e) = Tail-SuffixOf s n mid tail in
    let (u, sub', e') = last_bytes-SuffixOf t m in
    let (short, shorter, fewer) = last_bytes-short mid m positive in
    let few = Tail-lines (bytes s) n mid tail in
    (
      (u, Suffix-trans sub' sub, ap (λ (xs : List ℕ). last_bytes xs m) e ∙ e'),
      short,
      omega (arith, fewer, few),
      filled t e (last_bytes-near t m) (Tail-full (bytes s) n mid tail),
    )
  where
    filled :
        (t : String)
        → mid ≡ bytes t
        → (last_bytes (bytes t) m ≡ bytes t) ⊎ (m ≤ length (last_bytes (bytes t) m) + 3)
        → (mid ≡ bytes s) ⊎ (lines mid ≡ n)
        → (last_bytes mid m ≡ bytes s)
          ⊎ (lines (last_bytes mid m) ≡ n)
          ⊎ (m ≤ length (last_bytes mid m) + 3)
    filled t e h g = ground arith

Suffix-whole :
    (s : String) (out : List ℕ) → SuffixOf s out → (out ≡ bytes s) ⊎ (length out < length (bytes s))
Suffix-whole s out (t, sub, e) = elim (Suffix-bytes sub) [
  | inl same ↦ inl (e ∙ ap (λ (u : String). bytes u) same)
  | inr lt ↦ inr (omega (arith, lt, ap length e))
]

-- Of every text and for all options, the bounded log is the bytes of a suffix of the text, so no
-- character is cut, of at most the byte limit and at most the line limit; it is the whole text, or
-- has exactly as many lines as the line limit, or is at most three bytes short of the byte limit.
-- The omitted and the kept bytes add up to the whole, and the log is not marked truncated exactly
-- when it is the whole text.
pub bound_logs-tail :
    (s : String) (opts : LogOptions)
    → let r = bound_logs (bytes s) opts in
      Kept s (line_cap opts) (byte_cap opts) r.text
      × (r.bytes_omitted + length r.text ≡ length (bytes s))
      × ((r.truncated ≡ false) ↔ (r.text ≡ bytes s))
unfolding bound_logs
bound_logs-tail s opts =
    let n = line_cap opts in
    let m = byte_cap opts in
    let mid = last_lines (bytes s) n in
    let out = last_bytes mid m in
    let lines_ok = or_default-positive default_tail_lines opts.tail_lines (omega arith) in
    let bytes_ok = or_default-positive default_max_bytes opts.max_bytes (omega arith) in
    let kept = last_bytes-Kept s n m mid bytes_ok (last_lines-Tail (bytes s) n lines_ok) in
    let whole_or = Suffix-whole s out kept.0 in
    (kept, sum out whole_or, ((λ h. uncut out whole_or h), (λ h. ground (arith, ap length h))))
  where
    sum :
        (out : List ℕ)
        → (out ≡ bytes s) ⊎ (length out < length (bytes s))
        → length (bytes s) - length out + length out ≡ length (bytes s)
    sum out (inl e) = omega (arith, ap length e)
    sum out (inr lt) = omega arith

    uncut :
        (out : List ℕ)
        → (out ≡ bytes s) ⊎ (length out < length (bytes s))
        → ltb 0 (length (bytes s) - length out) ≡ false
        → out ≡ bytes s
    uncut out (inl e) h = e
    uncut out (inr lt) h = absurd (ground arith)
