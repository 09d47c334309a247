-- ===== src/Prelude/Utf8.antt =====
-- The bytes of a Go string (UTF-8), the little-endian form of a 64-bit number, and when they
-- determine what they were made of.
use Prim.Native.Char.{code}
use mathlib.Core.Path.{ap₂}
use mathlib.Core.List.{List, [], ◌∷◌, ◌++◌}
use text.Mathlib.TextEquality.{Char-path}
use Prim.Native.Nat.{ℕ, ◌+◌, ◌/◌, ◌%◌, ◌^◌, ◌<◌}
use Prim.Native.String.{String}
use mathlib.Core.Path.{◌≡◌, refl, sym}
use mathlib.Core.Logic.{◌≢◌}
use native.Mathlib.Omega.{arith}
use ray_mcp.Prelude.Tests.{ltb, if◌then◌else◌}
use ray_mcp.Prelude.Lists.{length}

unfoldable pub utf8_char : ℕ → List ℕ
utf8_char c =
    if ltb c 128
    then c ∷ []
    else if ltb c 2048
    then (192 + c / 64) ∷ (128 + c % 64) ∷ []
    else if ltb c 65536
    then (224 + c / 4096) ∷ (128 + c / 64 % 64) ∷ (128 + c % 64) ∷ []
    else (240 + c / 262144) ∷ (128 + c / 4096 % 64) ∷ (128 + c / 64 % 64) ∷ (128 + c % 64) ∷ []

-- []byte(s)
unfoldable pub bytes : String → List ℕ
unfolding utf8_char
bytes String.[] = []
bytes (String.◌∷◌ c s) = utf8_char (code c) ++ bytes s

pub utf8_char_cancel :
    (c d : ℕ) (xs ys : List ℕ) → utf8_char c ++ xs ≡ utf8_char d ++ ys → (c ≡ d) × (xs ≡ ys)
unfolding utf8_char
utf8_char_cancel c d xs ys h = ground arith

pub utf8_char-ne-nil : (c : ℕ) (xs : List ℕ) → utf8_char c ++ xs ≢ []
unfolding utf8_char
utf8_char-ne-nil c xs h = ground arith

-- No two texts have the same bytes.
pub bytes_injective : (s t : String) → bytes s ≡ bytes t → s ≡ t
unfolding bytes
bytes_injective String.[] String.[] h = refl
bytes_injective String.[] (String.◌∷◌ d t) h = absurd (utf8_char-ne-nil (code d) (bytes t) (sym h))
bytes_injective (String.◌∷◌ c s) String.[] h = absurd (utf8_char-ne-nil (code c) (bytes s) h)
bytes_injective (String.◌∷◌ c s) (String.◌∷◌ d t) h =
    let (same, rest) = utf8_char_cancel (code c) (code d) (bytes s) (bytes t) h in
    ap₂ String.◌∷◌ (Char-path c d same) (bytes_injective s t rest)

-- binary.LittleEndian.PutUint64
abbrev pub le64 : ℕ → List ℕ
le64 n =
    n % 256
    ∷ n / 256 % 256
    ∷ n / 65536 % 256
    ∷ n / 16777216 % 256
    ∷ n / 4294967296 % 256
    ∷ n / 1099511627776 % 256
    ∷ n / 281474976710656 % 256
    ∷ n / 72057594037927936 % 256
    ∷ []

le64_cancel :
    (m n : ℕ) (xs ys : List ℕ)
    → m < 2 ^ 64
    → n < 2 ^ 64
    → le64 m ++ xs ≡ le64 n ++ ys
    → (m ≡ n) × (xs ≡ ys)
le64_cancel m n xs ys hm hn h = ground arith

append_cancel_length :
    (xs ys us vs : List ℕ) → xs ++ us ≡ ys ++ vs → length xs ≡ length ys → (xs ≡ ys) × (us ≡ vs)
append_cancel_length [] [] us vs h e = (refl, h)
append_cancel_length [] (y ∷ ys) us vs h e = absurd (omega arith)
append_cancel_length (x ∷ xs) [] us vs h e = absurd (omega arith)
append_cancel_length (x ∷ xs) (y ∷ ys) us vs h e =
    let (p, q) = append_cancel_length xs ys us vs (ground arith) (omega arith) in (ground arith, q)

-- A text with its length in front: `writeField` of internal/domain/guards.go adds this to the hash.
abbrev pub framed : String → List ℕ
framed s = le64 (length (bytes s)) ++ bytes s

-- The text is no longer than a 64-bit length can say.
abbrev pub Fits : String → Type 0
Fits s = length (bytes s) < 2 ^ 64

-- Framed texts, one after the other, can be told apart.
pub framed_cancel :
    (s t : String) (xs ys : List ℕ)
    → Fits s
    → Fits t
    → framed s ++ xs ≡ framed t ++ ys
    → (s ≡ t) × (xs ≡ ys)
framed_cancel s t xs ys hs ht h =
    let (len, rest) =
      le64_cancel (length (bytes s)) (length (bytes t)) (bytes s ++ xs) (bytes t ++ ys) hs ht h in
    let (same, more) = append_cancel_length (bytes s) (bytes t) xs ys rest len in
    (bytes_injective s t same, more)
