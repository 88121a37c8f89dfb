-- ===== src/Conf/Printed.antt =====
-- src/xty_conf_parse.cpp: a configuration that is written line by line is read back, and the
-- server's address is found in it.
use xty.Base.{
  ℕ, ◌<◌, ◌≡◌, ◌≢◌, refl, ap, sym, ◌∙◌, true, false, Bool-cases, inl, inr, none, some, List, [],
  ◌∷◌, ◌++◌, append-nil, append_assoc, ◌==◌, arith, All, length, subst,
}
use xty.Comparable.Strings.{string_eq, string_eq_sound}
use xty.Msg.Stream.{ok}
use xty.Text.Split.{terminated}
use xty.Conf.{
  ParaType, ConfPara, para_type_table, find_type, parse_one_line, is_text, is_blank, buf_len,
  parse_conf_file,
}
use xty.Conf.Lines.{code_of, all_code, parts, nonempty, read_line, read_lines}
use xty.Conf.Scan.{IsLine, parse_conf_file_lem}

abbrev pub IsText : List ℕ → Type 0
IsText s = All (λ c. is_text c ≡ true) s

-- A parameter that a file can hold: its name is in the table, with its type, and its value has
-- characters of the file's text only, and at least one.
pub record IsParameter (p : ConfPara) : Type 0 where
  pub typed : find_type p.para_name para_type_table ≡ some p.para_type
  pub value_text : IsText p.str_value
  pub value_ne_nil : p.str_value ≢ []

-- Its line
abbrev pub print_para : ConfPara → List ℕ
print_para p = p.para_name ++ (b' ' ∷ p.str_value)

abbrev pub print_lines : List ConfPara → List (List ℕ)
print_lines [] = []
print_lines (p ∷ ps) = print_para p ∷ print_lines ps

abbrev pub print_conf : List ConfPara → List ℕ
print_conf ps = terminated b'\n' (print_lines ps) []

module _ {ℓ} (P : List ℕ → Type ℓ) where
  find_type_lem :
      (name : List ℕ) (table : List (List ℕ × ParaType)) (t : ParaType)
      → find_type name table ≡ some t
      → All (λ entry. P entry.0) table
      → P name
  unfolding find_type
  find_type_lem name [] t e h = absurd (none≢some e)
    where
      none≢some : none ≡ some t → ⊥
      none≢some k = cc
  find_type_lem name (entry ∷ table) t e (here, h) = elim (Bool-cases (string_eq entry.0 name)) [
    | inl same ↦ subst P (string_eq_sound entry.0 name same) here
    | inr other ↦ find_type_lem name table t (rw other at e) h
  ]

-- The names of the table are words.
abbrev pub IsWord : List ℕ → Type 0
IsWord w = IsText w × (w ≢ [])

cons≢nil : (c : ℕ) (w : List ℕ) → (c ∷ w) ≢ []
cons≢nil c w e = cc

name-IsWord : (name : List ℕ) (t : ParaType) → find_type name para_type_table ≡ some t → IsWord name
name-IsWord name t e = find_type_lem IsWord name para_type_table t e (
  (
    (refl, (refl, (refl, (refl, (refl, (refl, (refl, (refl, (refl, (refl, (refl, tt))))))))))),
    λ e. cc,
  ),
  (
    ((refl, (refl, (refl, (refl, (refl, (refl, (refl, (refl, (refl, tt))))))))), λ e. cc),
    (
      (
        (refl, (refl, (refl, (refl, (refl, (refl, (refl, (refl, (refl, (refl, (refl, tt))))))))))),
        λ e. cc,
      ),
      (
        (
          (
            refl,
            (
              refl,
              (
                refl,
                (
                  refl,
                  (
                    refl,
                    (refl, (refl, (refl, (refl, (refl, (refl, (refl, (refl, (refl, tt))))))))),
                  ),
                ),
              ),
            ),
          ),
          λ e. cc,
        ),
        tt,
      ),
    ),
  ),
)

text_lem :
    (c : ℕ)
    → is_text c ≡ true
    → (c ≢ 0) × (c ≢ b'\n') × ((c == b'#') ≡ false) × (is_blank c ≡ false)
text_lem c h = ground arith

code_of-text : (w rest : List ℕ) → IsText w → code_of (w ++ rest) ≡ w ++ code_of rest
unfolding code_of
code_of-text [] rest h = refl
code_of-text (c ∷ w) rest (t, h) = rw (text_lem c t).2 (ap (λ z. c ∷ z) (code_of-text w rest h))

all_code-text : (w rest : List ℕ) → IsText w → all_code (w ++ rest) ≡ all_code rest
all_code-text [] rest h = refl
all_code-text (c ∷ w) rest (t, h) = rw ((text_lem c t).3, t) (all_code-text w rest h)

parts-text : (w : List ℕ) → IsText w → parts w ≡ w ∷ []
unfolding parts
parts-text [] h = refl
parts-text (c ∷ w) (t, h) = rw ((text_lem c t).3, parts-text w h) refl

parts-blank : (w rest : List ℕ) → IsText w → parts (w ++ (b' ' ∷ rest)) ≡ w ∷ parts rest
unfolding parts
parts-blank [] rest h = refl
parts-blank (c ∷ w) rest (t, h) = rw ((text_lem c t).3, parts-blank w rest h) refl

line_code : (w v : List ℕ) → IsText w → IsText v → code_of (w ++ (b' ' ∷ v)) ≡ w ++ (b' ' ∷ v)
unfolding code_of
line_code w v hw hv =
    code_of-text w (b' ' ∷ v) hw
    ∙ ap (λ z. w ++ (b' ' ∷ z))
        (ap code_of (sym (append-nil v)) ∙ code_of-text v [] hv ∙ append-nil v)

line_all_code : (w v : List ℕ) → IsText w → IsText v → all_code (w ++ (b' ' ∷ v)) ≡ true
line_all_code w v hw hv =
    all_code-text w (b' ' ∷ v) hw ∙ ap all_code (sym (append-nil v)) ∙ all_code-text v [] hv

two_words : (w v : List ℕ) → w ≢ [] → v ≢ [] → nonempty (w ∷ (v ∷ [])) ≡ w ∷ (v ∷ [])
two_words [] v hw hv = absurd (hw refl)
two_words (c ∷ w) [] hw hv = absurd (hv refl)
two_words (c ∷ w) (d ∷ v) hw hv = refl

parse_one_line-typed :
    (p : ConfPara) (paras : List ConfPara)
    → find_type p.para_name para_type_table ≡ some p.para_type
    → parse_one_line (p.para_name ∷ (p.str_value ∷ [])) paras ≡ (true, paras ++ (p ∷ []))
unfolding parse_one_line
parse_one_line-typed p paras h = rw (parse_one_line, h) refl

read_line-print_para :
    (p : ConfPara) (paras : List ConfPara)
    → IsParameter p
    → read_line (print_para p) paras ≡ (true, paras ++ (p ∷ []))
unfolding read_line
read_line-print_para p paras h =
    let (name, name_ne) = name-IsWord p.para_name p.para_type h.typed in
    let value = h.value_text in
    rw
      (
        line_code p.para_name p.str_value name value,
        line_all_code p.para_name p.str_value name value,
        parts-blank p.para_name p.str_value name,
        parts-text p.str_value value,
        two_words p.para_name p.str_value name_ne h.value_ne_nil,
      )
      (parse_one_line-typed p paras h.typed)

read_lines-print_lines :
    (ps paras : List ConfPara)
    → All IsParameter ps
    → read_lines (print_lines ps) [] paras ≡ (true, paras ++ ps)
unfolding read_lines code_of
read_lines-print_lines [] paras h = ap (λ z. (true, z)) (sym (append-nil paras))
read_lines-print_lines (p ∷ ps) paras (hp, h) = rw (read_line-print_para p paras hp) (
    read_lines-print_lines ps (paras ++ (p ∷ [])) h
    ∙ ap (λ z. (true, z)) (append_assoc paras (p ∷ []) ps))

IsLine-text : (w rest : List ℕ) → IsText w → IsLine rest → IsLine (w ++ rest)
IsLine-text [] rest h k = k
IsLine-text (c ∷ w) rest (t, h) k = (((text_lem c t).0, (text_lem c t).1), IsLine-text w rest h k)

IsLine-print_lines : (ps : List ConfPara) → All IsParameter ps → All IsLine (print_lines ps)
IsLine-print_lines [] h = tt
IsLine-print_lines (p ∷ ps) (hp, h) =
    let (name, name_ne) = name-IsWord p.para_name p.para_type hp.typed in
    let value : IsLine p.str_value =
      subst IsLine (append-nil p.str_value) (IsLine-text p.str_value [] hp.value_text tt) in
    (
      IsLine-text p.para_name (b' ' ∷ p.str_value) name
          (((λ e. ground arith), λ e. ground arith), value),
      IsLine-print_lines ps h,
    )

-- A configuration that is written with one parameter in each line is read back as it is, where every
-- parameter is one that a file can hold and the file is shorter than the parser's buffer.
pub parse_conf_file-print_conf :
    (ps : List ConfPara)
    → All IsParameter ps
    → length (print_conf ps) < buf_len
    → parse_conf_file (print_conf ps) ≡ ok (true, ps)
parse_conf_file-print_conf ps h short =
    parse_conf_file_lem (print_lines ps) [] (IsLine-print_lines ps h) tt short
    ∙ ap ok (read_lines-print_lines ps [] h)
