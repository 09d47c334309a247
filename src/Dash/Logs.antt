-- ===== src/Dash/Logs.antt =====
-- The bounding of a log buffer in internal/adapters/rayapi/client.go. A Go string is its bytes here.
pub mod Lines
pub mod Runes
pub mod Bound
use ray_mcp.Prelude.{
  ℕ, zero, suc, ◌+◌, ◌-◌, Bool, true, false, not, ◌&&◌, ◌||◌, List, [], ◌∷◌, length, drop, ltb, leb,
  nat_eq, if◌then◌else◌,
}
use ray_mcp.Prelude.Int.{ℤ, pos, negsuc}
use ray_mcp.Types.{LogOptions}

abbrev pub default_tail_lines : ℕ
default_tail_lines = 200

-- 16 KiB
abbrev pub default_max_bytes : ℕ
default_max_bytes = 16384

abbrev pub newline : ℕ
newline = 10

-- `s[i]`; the code asks for no byte out of range.
abbrev pub nth : List ℕ → ℕ → ℕ
nth [] i = 0
nth (x ∷ xs) zero = x
nth (x ∷ xs) (suc i) = nth xs i

-- `strings.TrimSuffix(s, "\n")`
unfoldable pub trim_newline : List ℕ → List ℕ
trim_newline [] = []
trim_newline (x ∷ []) = if nat_eq x newline then [] else x ∷ []
trim_newline (x ∷ y ∷ ys) = x ∷ trim_newline (y ∷ ys)

-- `strings.Count(s, "\n")`
unfoldable pub count_newlines : List ℕ → ℕ
count_newlines [] = 0
count_newlines (x ∷ xs) = (if nat_eq x newline then 1 else 0) + count_newlines xs

-- The loop of `lastLines` down from the index below `i`.
unfoldable pub cut_lines : List ℕ → List ℕ → ℕ → ℕ → ℕ → List ℕ
cut_lines s search n count zero = s
cut_lines s search n count (suc i) =
    let is_newline = nat_eq (nth search i) newline in
    let count' = if is_newline then suc count else count in
    let rest = cut_lines s search n count' i in
    if is_newline && nat_eq count' n then drop (suc i) s else rest

unfoldable pub last_lines : List ℕ → ℕ → List ℕ
unfolding cut_lines count_newlines trim_newline
last_lines s n =
    if nat_eq n 0 || nat_eq (length s) 0
    then s
    else if leb (count_newlines (trim_newline s) + 1) n
    then s
    else cut_lines s (trim_newline s) n 0 (length (trim_newline s))

-- `utf8.RuneStart`: no continuation byte.
abbrev pub rune_start : ℕ → Bool
rune_start b = ltb b 128 || leb 192 b

unfoldable pub to_boundary : List ℕ → List ℕ
to_boundary [] = []
to_boundary (b ∷ bs) = let rest = to_boundary bs in if rune_start b then b ∷ bs else rest

unfoldable pub last_bytes : List ℕ → ℕ → List ℕ
unfolding to_boundary
last_bytes s max_bytes =
    if nat_eq max_bytes 0 || leb (length s) max_bytes
    then s
    else to_boundary (drop (length s - max_bytes) s)

pub record BoundedLogs : Type 0 where
  pub text : List ℕ
  pub truncated : Bool
  pub bytes_omitted : ℕ

-- An option of 0 or less is the default.
abbrev pub or_default : ℕ → ℤ → ℕ
or_default d (negsuc n) = d
or_default d (pos n) = if nat_eq n 0 then d else n

unfoldable pub bound_logs : List ℕ → LogOptions → BoundedLogs
unfolding last_lines last_bytes
bound_logs full opts =
    let out =
      last_bytes (last_lines full (or_default default_tail_lines opts.tail_lines))
        (or_default default_max_bytes opts.max_bytes) in
    let omitted = length full - length out in
    record { text = out; truncated = ltb 0 omitted; bytes_omitted = omitted }
