-- ===== src/Reads/Laws.antt =====
-- `HealthLine` of internal/domain/distill.go.
use ray_mcp.Prelude.{◌≡◌, refl, ap, String, List, [], ◌∷◌, ◌++◌}
use ray_mcp.Prelude.Text.{join}
use ray_mcp.Reads.{non_empty, health_line}

non_empty-skip : (xs ys : List String) → non_empty (xs ++ ("" ∷ ys)) ≡ non_empty (xs ++ ys)
non_empty-skip [] ys = refl
non_empty-skip (x ∷ xs) ys = rw (non_empty-skip xs ys)

-- An absent segment leaves no trace in the health line, wherever it stands: no separator dangles.
pub health_line-skip :
    (xs ys : List String) → health_line (xs ++ ("" ∷ ys)) ≡ health_line (xs ++ ys)
unfolding health_line
health_line-skip xs ys = ap (join "; ") (non_empty-skip xs ys)
