-- ===== src/Kube/Events/Cut.antt =====
-- The cut of a long message by `truncateMessage` of internal/adapters/kuberay/events.go.
use Prim.Native.Char.{code}
use ray_mcp.Prelude.{
  ℕ, zero, suc, ◌-◌, ◌<◌, ◌≡◌, ◌≢◌, ◌∙◌, inl, inr, sym, refl, ap, String, false, List, [], ◌∷◌,
  ◌++◌, length, leb, ltb, arith, Bool-cases,
}
use ray_mcp.Prelude.Utf8.{bytes, utf8_char, utf8_char_cancel}
use ray_mcp.Dash.Logs.{nth, rune_start}
use ray_mcp.Kube.Events.{take, truncate_message, max_message_len}

take-utf8 :
    (c n d : ℕ) (bs ds es : List ℕ)
    → rune_start (nth (utf8_char c ++ bs) n) ≡ false
    → take n (utf8_char c ++ bs) ++ (226 ∷ ds) ≡ utf8_char d ++ es
    → (take n (utf8_char c ++ bs) ≡ utf8_char c ++ take (n - length (utf8_char c)) bs)
      × (nth (utf8_char c ++ bs) n ≡ nth bs (n - length (utf8_char c)))
unfolding utf8_char
take-utf8 c zero d bs ds es h e = ground arith
take-utf8 c (suc zero) d bs ds es h e = ground arith
take-utf8 c (suc (suc zero)) d bs ds es h e = ground arith
take-utf8 c (suc (suc (suc zero))) d bs ds es h e = elim (Bool-cases (ltb c 128)) [
  | inl p ↦ rw p (refl, refl)
  | inr p ↦ elim (Bool-cases (ltb c 2048)) [
    | inl q ↦ rw (p, q) (refl, refl)
    | inr q ↦ elim (Bool-cases (ltb c 65536)) [
      | inl r ↦ rw (p, q, r) (refl, refl)
      | inr r ↦ ground (arith, p, q, r)
    ]
  ]
]
take-utf8 c (suc (suc (suc (suc n)))) d bs ds es h e = ground arith

append_regroup : (xs ys zs : List ℕ) → (xs ++ ys) ++ zs ≡ xs ++ (ys ++ zs)
append_regroup [] ys zs = refl
append_regroup (x ∷ xs) ys zs = ap (λ (r : List ℕ). x ∷ r) (append_regroup xs ys zs)

something_left : (xs ds : List ℕ) → xs ++ (226 ∷ ds) ≢ []
something_left [] ds e = ground arith
something_left (x ∷ xs) ds e = ground arith

-- A cut in front of a continuation byte leaves no text.
cut_inside :
    (s t : String) (n : ℕ) (ds : List ℕ)
    → rune_start (nth (bytes s) n) ≡ false
    → take n (bytes s) ++ (226 ∷ ds) ≢ bytes t
unfolding bytes
cut_inside String.[] t n ds h e = ground arith
cut_inside (String.◌∷◌ c s) String.[] n ds h e =
    something_left (take n (bytes (String.◌∷◌ c s))) ds e
cut_inside (String.◌∷◌ c s) (String.◌∷◌ d t) n ds h e =
    let k = n - length (utf8_char (code c)) in
    let (cut, at) = take-utf8 (code c) n (code d) (bytes s) ds (bytes t) h e in
    let grouped =
      sym (append_regroup (utf8_char (code c)) (take k (bytes s)) (226 ∷ ds))
      ∙ ap (λ (r : List ℕ). r ++ (226 ∷ ds)) (sym cut)
      ∙ e in
    let (same, rest) =
      utf8_char_cancel (code c) (code d) (take k (bytes s) ++ (226 ∷ ds)) (bytes t) grouped in
    cut_inside s t k ds (sym (ap (λ (b : ℕ). rune_start b) at) ∙ h) rest

leb-false : (m n : ℕ) → m < n → leb n m ≡ false
leb-false m n h = ground arith

-- For each text of more than 250 bytes whose byte after the first 250 continues a character, the
-- truncated message is the bytes of no text: the cut splits the character.
pub truncate_splits :
    (s t : String)
    → max_message_len < length (bytes s)
    → rune_start (nth (bytes s) max_message_len) ≡ false
    → truncate_message (bytes s) ≢ bytes t
unfolding truncate_message
truncate_splits s t long inside =
    rw (leb-false max_message_len (length (bytes s)) long)
      (cut_inside s t max_message_len (128 ∷ 166 ∷ []) inside)
