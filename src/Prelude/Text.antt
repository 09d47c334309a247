-- ===== src/Prelude/Text.antt =====
-- Texts as the source renders them: decimal numbers (`%d`), booleans (`%t`), Go-quoted strings (`%q`)
-- and `strings.Join`.
use Prim.Native.Char.{code}
use Prim.Native.Nat.{ℕ, zero, suc, ◌/◌, ◌%◌}
use Prim.Native.String.{String, ◌++◌}
use mathlib.Core.Bool.{Bool, true, false}
use mathlib.Core.List.{List, [], ◌∷◌}
use mathlib.Core.Path.{◌≡◌, refl}
use ray_mcp.Prelude.Tests.{ltb, nat_eq, if◌then◌else◌}
use ray_mcp.Prelude.Int.{ℤ, pos, negsuc}

-- The last hexadecimal digit of a number.
hex_digit : ℕ → String
hex_digit zero = "0"
hex_digit (suc zero) = "1"
hex_digit (suc (suc zero)) = "2"
hex_digit (suc (suc (suc zero))) = "3"
hex_digit (suc (suc (suc (suc zero)))) = "4"
hex_digit (suc (suc (suc (suc (suc zero))))) = "5"
hex_digit (suc (suc (suc (suc (suc (suc zero)))))) = "6"
hex_digit (suc (suc (suc (suc (suc (suc (suc zero))))))) = "7"
hex_digit (suc (suc (suc (suc (suc (suc (suc (suc zero)))))))) = "8"
hex_digit (suc (suc (suc (suc (suc (suc (suc (suc (suc n))))))))) =
    if nat_eq n 0
    then "9"
    else if nat_eq n 1
    then "a"
    else if nat_eq n 2
    then "b"
    else if nat_eq n 3
    then "c"
    else if nat_eq n 4
    then "d"
    else if nat_eq n 5
    then "e"
    else "f"

-- The digits of `n` in front of `out`; a number has fewer than `n + 2` digits, so the fuel suffices.
emit_digits : ℕ → ℕ → String → String
emit_digits zero n out = out
emit_digits (suc fuel) n out =
    let s = hex_digit (n % 10) ++ out in
    elim (ltb n 10) [ true ↦ s | false ↦ emit_digits fuel (n / 10) s ]

unfoldable pub show_nat : ℕ → String
unfolding emit_digits hex_digit
show_nat n = emit_digits (suc n) n ""

-- `%d`
unfoldable pub show_int : ℤ → String
unfolding show_nat
show_int (pos n) = show_nat n
show_int (negsuc n) = "-" ++ show_nat (suc n)

-- `%t`
unfoldable pub show_bool : Bool → String
show_bool true = "true"
show_bool false = "false"

-- One character of `strconv.Quote`. Characters above ASCII are taken as printable.
quote_char : ℕ → String → String
unfolding hex_digit
quote_char c self =
    if nat_eq c 34
    then "\\\""
    else if nat_eq c 92
    then "\\\\"
    else if nat_eq c 7
    then "\\a"
    else if nat_eq c 8
    then "\\b"
    else if nat_eq c 9
    then "\\t"
    else if nat_eq c 10
    then "\\n"
    else if nat_eq c 11
    then "\\v"
    else if nat_eq c 12
    then "\\f"
    else if nat_eq c 13
    then "\\r"
    else if ltb c 32
    then "\\x" ++ hex_digit (c / 16) ++ hex_digit (c % 16)
    else if nat_eq c 127
    then "\\x7f"
    else self

quote_chars : String → String
quote_chars String.[] = ""
quote_chars (String.◌∷◌ c s) = quote_char (code c) (String.◌∷◌ c "") ++ quote_chars s

-- `%q`
unfoldable pub quote : String → String
unfolding quote_char quote_chars
quote s = "\"" ++ quote_chars s ++ "\""

-- `strings.Join`
unfoldable pub join : String → List String → String
join sep [] = ""
join sep (x ∷ []) = x
join sep (x ∷ y ∷ ys) = x ++ sep ++ join sep (y ∷ ys)

quote_test : quote "a\"b" ≡ "\"a\\\"b\""
unfolding quote
quote_test = refl

show_int_test : show_int (negsuc 41) ≡ "-42"
unfolding show_int
show_int_test = refl
