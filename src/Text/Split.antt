-- ===== src/Text/Split.antt =====
-- src/xty_global_function.h, SplitStringByChar: the segments that it finds.
use xty.Base.{
  ℕ, ◌≡◌, ◌≢◌, refl, ap, sym, ◌∙◌, List, [], ◌∷◌, ◌++◌, append_assoc, append-nil, ==_apart, ==_same,
  All,
}
use xty.Text.{split_from, split_string_by_char}

-- No character of the list is `c`.
abbrev pub Lacks : ℕ → List ℕ → Type 0
Lacks c s = All (λ x. x ≢ c) s

-- Each segment and the character after it, and at the end what has none after it.
abbrev pub terminated : ℕ → List (List ℕ) → List ℕ → List ℕ
terminated c [] rest = rest
terminated c (s ∷ ss) rest = s ++ (c ∷ terminated c ss rest)

split_rest : (c : ℕ) (segment rest : List ℕ) → Lacks c rest → split_from c segment rest ≡ []
unfolding split_from
split_rest c segment [] h = refl
split_rest c segment (x ∷ s) (a, h) = rw (==_apart x c a) (split_rest c (segment ++ (x ∷ [])) s h)

split_segment :
    (c : ℕ) (segment s rest : List ℕ)
    → Lacks c s
    → split_from c segment (s ++ (c ∷ rest)) ≡ (segment ++ s) ∷ split_from c [] rest
unfolding split_from
split_segment c segment [] rest h =
    rw (==_same c) (ap (λ z. z ∷ split_from c [] rest) (sym (append-nil segment)))
split_segment c segment (x ∷ s) rest (a, h) = rw (==_apart x c a) (
    split_segment c (segment ++ (x ∷ [])) s rest h
    ∙ ap (λ z. z ∷ split_from c [] rest) (append_assoc segment (x ∷ []) s))

-- SplitStringByChar gives back the segments that the character ends, and nothing of what comes
-- after its last occurrence.
pub split_string_by_char-terminated :
    (c : ℕ) (ss : List (List ℕ)) (rest : List ℕ)
    → All (Lacks c) ss
    → Lacks c rest
    → split_string_by_char (terminated c ss rest) c ≡ ss
unfolding split_string_by_char
split_string_by_char-terminated c [] rest h hr = split_rest c [] rest hr
split_string_by_char-terminated c (s ∷ ss) rest (hs, h) hr =
    split_segment c [] s (terminated c ss rest) hs
    ∙ ap (λ z. s ∷ z) (split_string_by_char-terminated c ss rest h hr)
