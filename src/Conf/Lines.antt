-- ===== src/Conf/Lines.antt =====
-- src/xty_conf_parse.cpp, ParseConfFile: what a configuration file means, line by line. A line is
-- cut at its first '#' and the rest of it is taken apart at its blanks.
use xty.Base.{ℕ, Bool, true, false, ◌&&◌, ◌||◌, List, [], ◌∷◌, ◌++◌, ◌==◌, if◌then◌else◌}
use xty.Conf.{ConfPara, is_text, is_blank, parse_one_line}

-- What is not a comment
unfoldable pub code_of : List ℕ → List ℕ
code_of [] = []
code_of (c ∷ l) = let rest = code_of l in if c == b'#' then [] else c ∷ rest

abbrev pub all_code : List ℕ → Bool
all_code [] = true
all_code (c ∷ s) = (is_blank c || is_text c) && all_code s

-- The first part with more before it
abbrev pub prepend : List ℕ → List (List ℕ) → List (List ℕ)
prepend w [] = w ∷ []
prepend w (p ∷ ps) = (w ++ p) ∷ ps

-- The parts between blanks, empty ones among them
unfoldable pub parts : List ℕ → List (List ℕ)
parts [] = [] ∷ []
parts (c ∷ s) = let rest = parts s in if is_blank c then [] ∷ rest else prepend (c ∷ []) rest

abbrev pub nonempty : List (List ℕ) → List (List ℕ)
nonempty [] = []
nonempty ([] ∷ ps) = nonempty ps
nonempty ((c ∷ p) ∷ ps) = (c ∷ p) ∷ nonempty ps

abbrev pub read_words : List (List ℕ) → List ConfPara → Bool × List ConfPara
read_words [] paras = (true, paras)
read_words (w ∷ ws) paras = parse_one_line (w ∷ ws) paras

-- Whether a line is well-formed, and the parameters after it
unfoldable pub read_line : List ℕ → List ConfPara → Bool × List ConfPara
read_line l paras =
    if all_code (code_of l) then read_words (nonempty (parts (code_of l))) paras else (false, paras)

-- The lines up to the first that is not well-formed; of what comes after the last end of line, only
-- the characters are looked at.
unfoldable pub read_lines : List (List ℕ) → List ℕ → List ConfPara → Bool × List ConfPara
read_lines [] rest paras = (all_code (code_of rest), paras)
read_lines (l ∷ ls) rest paras =
    let (fine, paras') = read_line l paras in
    let later = read_lines ls rest paras' in if fine then later else (false, paras')
