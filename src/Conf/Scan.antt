-- ===== src/Conf/Scan.antt =====
-- src/xty_conf_parse.cpp, ParseConfFile: the state machine reads a file as its lines say.
use xty.Base.{
  ℕ, zero, suc, ◌<◌, ◌≡◌, ◌≢◌, refl, ap, sym, ◌∙◌, Bool, true, false, Bool-cases, inl, inr, List,
  [], ◌∷◌, ◌++◌, append_assoc, append-nil, ==_apart, ◌==◌, if◌then◌else◌, arith, All, length,
}
use xty.Msg.Stream.{Outcome, ok}
use xty.Text.Split.{terminated}
use xty.Conf.{
  ConfPara, Parser, is_text, is_blank, push_word, parse_one_line, end_word, end_line, parse_char,
  parse_from, read_buf, buf_len, start, parse_conf_file,
}
use xty.Conf.Lines.{code_of, all_code, prepend, parts, nonempty, read_words, read_line, read_lines}

-- In a line: neither the end of the line nor the end of the buffer
abbrev pub IsLine : List ℕ → Type 0
IsLine l = All (λ c. (c ≢ 0) × (c ≢ b'\n')) l

abbrev has_word : List ℕ → Bool
has_word [] = false
has_word (c ∷ w) = true

-- In the middle of a line's code, or of its comment; m_ConfParaList is `paras`.
module _ (paras : List ConfPara) where
  abbrev in_line : Bool → List ℕ → List (List ℕ) → Parser
  in_line annotation word words = record {
    annotation_area = annotation;
    para_area = has_word word;
    temp_res = word;
    line_temp_res = words;
    conf_para_list = paras;
  }

  end_word_lem :
      (word : List ℕ) (words : List (List ℕ))
      → end_word (in_line false word words) ≡ in_line false [] (push_word word words)
  unfolding end_word
  end_word_lem [] words = refl
  end_word_lem (c ∷ word) words = refl

  more_word : (word : List ℕ) (c : ℕ) → has_word (word ++ (c ∷ [])) ≡ true
  more_word [] c = refl
  more_word (d ∷ word) c = refl

  parse_blank :
      (c : ℕ) (word : List ℕ) (words : List (List ℕ))
      → is_blank c ≡ true
      → parse_char c (in_line false word words) ≡ (true, in_line false [] (push_word word words))
  unfolding parse_char
  parse_blank c word words h =
      let hash : (c == b'#') ≡ false = ground arith in
      let newline : (c == b'\n') ≡ false = ground arith in
      rw (hash, newline, h, end_word_lem word words) refl

  parse_text :
      (c : ℕ) (word : List ℕ) (words : List (List ℕ))
      → is_text c ≡ true
      → parse_char c (in_line false word words) ≡ (true, in_line false (word ++ (c ∷ [])) words)
  unfolding parse_char
  parse_text c word words h =
      let hash : (c == b'#') ≡ false = ground arith in
      let newline : (c == b'\n') ≡ false = ground arith in
      let blank : is_blank c ≡ false = ground arith in
      rw (hash, newline, blank, h, more_word word c) refl

  parse_bad :
      (c : ℕ) (word : List ℕ) (words : List (List ℕ))
      → c ≢ b'\n'
      → (c == b'#') ≡ false
      → is_blank c ≡ false
      → is_text c ≡ false
      → parse_char c (in_line false word words) ≡ (false, in_line false word words)
  unfolding parse_char
  parse_bad c word words newline hash blank text =
      rw (hash, ==_apart c b'\n' newline, blank, text) refl

  parse_hash :
      (c : ℕ) (word : List ℕ) (words : List (List ℕ)) (annotation : Bool)
      → (c == b'#') ≡ true
      → parse_char c (in_line annotation word words) ≡ (true, in_line true word words)
  unfolding parse_char
  parse_hash c word words annotation h = rw h refl

  parse_comment :
      (c : ℕ) (word : List ℕ) (words : List (List ℕ))
      → c ≢ b'\n'
      → parse_char c (in_line true word words) ≡ (true, in_line true word words)
  unfolding parse_char
  parse_comment c word words newline = elim (Bool-cases (c == b'#')) [
    | inl e ↦ rw e refl
    | inr e ↦ rw (e, ==_apart c b'\n' newline) refl
  ]

  parse_on :
      (c : ℕ) (buf : List ℕ) (s s' : Parser)
      → c ≢ 0
      → parse_char c s ≡ (true, s')
      → parse_from (c ∷ buf) s ≡ parse_from buf s'
  unfolding parse_from
  parse_on c buf s s' h e = rw (==_apart c 0 h, e) refl

  parse_off :
      (c : ℕ) (buf : List ℕ) (s s' : Parser)
      → c ≢ 0
      → parse_char c s ≡ (false, s')
      → parse_from (c ∷ buf) s ≡ ok (false, s'.conf_para_list)
  unfolding parse_from
  parse_off c buf s s' h e = rw (==_apart c 0 h, e) refl

  push_word-append :
      (word : List ℕ) (words ps : List (List ℕ))
      → words ++ nonempty ((word ++ []) ∷ ps) ≡ push_word word words ++ nonempty ps
  push_word-append [] words ps = refl
  push_word-append (c ∷ word) words ps =
      rw (append-nil word) (sym (append_assoc words ((c ∷ word) ∷ []) (nonempty ps)))

  prepend-nil : (ps : List (List ℕ)) → nonempty (prepend [] ps) ≡ nonempty ps
  prepend-nil [] = refl
  prepend-nil (p ∷ ps) = refl

  prepend-prepend :
      (word : List ℕ) (c : ℕ) (ps : List (List ℕ))
      → prepend word (prepend (c ∷ []) ps) ≡ prepend (word ++ (c ∷ [])) ps
  prepend-prepend word c [] = refl
  prepend-prepend word c (p ∷ ps) = ap (λ z. z ∷ ps) (sym (append_assoc word (c ∷ []) p))

  -- A line up to `tail`, at which the loop is left with what `finish` makes of the words.
  module _ (tail : List ℕ) (finish : List (List ℕ) → Outcome (Bool × List ConfPara)) where
    abbrev Finishes : Type 0
    Finishes =
        (annotation : Bool) (word : List ℕ) (words : List (List ℕ))
        → parse_from tail (in_line annotation word words) ≡ finish (push_word word words)

    scan_comment :
        (l word : List ℕ) (words : List (List ℕ))
        → Finishes
        → IsLine l
        → parse_from (l ++ tail) (in_line true word words) ≡ finish (push_word word words)
    scan_comment [] word words end h = end true word words
    scan_comment (c ∷ l) word words end ((z, n), h) =
        parse_on c (l ++ tail) (in_line true word words) (in_line true word words) z
          (parse_comment c word words n)
        ∙ scan_comment l word words end h

    scan_code :
        (l word : List ℕ) (words : List (List ℕ))
        → Finishes
        → IsLine l
        → parse_from (l ++ tail) (in_line false word words) ≡ (
            if all_code (code_of l)
            then finish (words ++ nonempty (prepend word (parts (code_of l))))
            else ok (false, paras))
    unfolding code_of parts
    scan_code [] word words end h =
        end false word words
        ∙ ap finish (sym (push_word-append word words [] ∙ append-nil (push_word word words)))
    scan_code (c ∷ l) word words end ((z, n), h) = elim (Bool-cases (c == b'#')) [
      | inl e ↦ rw e (
          parse_on c (l ++ tail) (in_line false word words) (in_line true word words) z
            (parse_hash c word words false e)
          ∙ scan_comment l word words end h
          ∙ ap finish (sym (push_word-append word words [] ∙ append-nil (push_word word words))))
      | inr e ↦ elim (Bool-cases (is_blank c)) [
        | inl b ↦
            rw (e, b)
              (parse_on c (l ++ tail) (in_line false word words)
                  (in_line false [] (push_word word words)) z (parse_blank c word words b)
                ∙ scan_code l [] (push_word word words) end h
                ∙ ap (λ k. if all_code (code_of l) then finish k else ok (false, paras))
                    (ap (λ k. push_word word words ++ k) (prepend-nil (parts (code_of l)))
                      ∙ sym (push_word-append word words (parts (code_of l)))))
        | inr b ↦ elim (Bool-cases (is_text c)) [
          | inl t ↦
              rw (e, b, t)
                (parse_on c (l ++ tail) (in_line false word words)
                    (in_line false (word ++ (c ∷ [])) words) z (parse_text c word words t)
                  ∙ scan_code l (word ++ (c ∷ [])) words end h
                  ∙ ap
                      (λ k.
                        if all_code (code_of l)
                        then finish (words ++ nonempty k)
                        else ok (false, paras))
                      (sym (prepend-prepend word c (parts (code_of l)))))
          | inr t ↦
              rw (e, b, t)
                (parse_off c (l ++ tail) (in_line false word words) (in_line false word words) z
                  (parse_bad c word words n e b t))
        ]
      ]
    ]

-- At the end of the line, with these words of it
abbrev finish_line : List ConfPara → List ℕ → List (List ℕ) → Outcome (Bool × List ConfPara)
finish_line paras rest words =
    let (fine, paras') = read_words words paras in
    let later = parse_from rest (in_line paras' false [] []) in
    if fine then later else ok (false, paras')

end_line_lem :
    (paras : List ConfPara) (rest : List ℕ) (words : List (List ℕ))
    → let (fine, s) = end_line (in_line paras false [] words) in
      (if fine then parse_from rest s else ok (false, s.conf_para_list))
      ≡ finish_line paras rest words
unfolding end_line
end_line_lem paras rest [] = refl
end_line_lem paras rest (w ∷ ws) = elim (Bool-cases (parse_one_line (w ∷ ws) paras).0) [
  | inl e ↦ rw e refl
  | inr e ↦ rw e refl
]

newline_lem :
    (paras : List ConfPara) (rest : List ℕ) (annotation : Bool) (word : List ℕ)
    (words : List (List ℕ))
    → parse_from (b'\n' ∷ rest) (in_line paras annotation word words)
      ≡ finish_line paras rest (push_word word words)
unfolding parse_from parse_char
newline_lem paras rest annotation word words =
    rw (end_word_lem paras word words) (end_line_lem paras rest (push_word word words))

read_line_lem :
    (l rest : List ℕ) (paras : List ConfPara)
    → IsLine l
    → parse_from (l ++ (b'\n' ∷ rest)) (in_line paras false [] []) ≡ (
        if (read_line l paras).0
        then parse_from rest (in_line (read_line l paras).1 false [] [])
        else ok (false, (read_line l paras).1))
unfolding read_line
read_line_lem l rest paras h =
    scan_code paras (b'\n' ∷ rest) (finish_line paras rest) l [] [] (newline_lem paras rest) h
    ∙ choose (all_code (code_of l))
  where
    words : List (List ℕ)
    words = nonempty (parts (code_of l))

    choose :
        (b : Bool)
        → (if b
            then finish_line paras rest (nonempty (prepend [] (parts (code_of l))))
            else ok (false, paras))
          ≡ (if (if b then read_words words paras else (false, paras)).0
              then parse_from rest
                  (in_line (if b then read_words words paras else (false, paras)).1 false [] [])
              else ok (false, (if b then read_words words paras else (false, paras)).1))
    choose true = ap (finish_line paras rest) (prepend-nil paras (parts (code_of l)))
    choose false = refl

-- The file's end: what comes after its last end of line, and the '\0' after that
read_rest_lem :
    (l zeros : List ℕ) (paras : List ConfPara)
    → IsLine l
    → parse_from (l ++ (0 ∷ zeros)) (in_line paras false [] []) ≡ ok (all_code (code_of l), paras)
read_rest_lem l zeros paras h =
    scan_code paras (0 ∷ zeros) (λ _. ok (true, paras)) l [] [] (zero_lem) h
    ∙ choose (all_code (code_of l))
  where
    zero_lem :
        (annotation : Bool) (word : List ℕ) (words : List (List ℕ))
        → parse_from (0 ∷ zeros) (in_line paras annotation word words) ≡ ok (true, paras)
    zero_lem annotation word words = unfold parse_from in refl

    answer : Bool → Outcome (Bool × List ConfPara)
    answer b = ok (b, paras)

    choose : (b : Bool) → (if b then answer true else answer false) ≡ answer b
    choose true = refl
    choose false = refl

read_lines_lem :
    (ls : List (List ℕ)) (rest zeros : List ℕ) (paras : List ConfPara)
    → All IsLine ls
    → IsLine rest
    → parse_from (terminated b'\n' ls rest ++ (0 ∷ zeros)) (in_line paras false [] [])
      ≡ ok (read_lines ls rest paras)
unfolding read_lines
read_lines_lem [] rest zeros paras h k = read_rest_lem rest zeros paras k
read_lines_lem (l ∷ ls) rest zeros paras (hl, h) k =
    ap (λ z. parse_from z (in_line paras false [] []))
      (append_assoc l (b'\n' ∷ terminated b'\n' ls rest) (0 ∷ zeros))
    ∙ read_line_lem l (terminated b'\n' ls rest ++ (0 ∷ zeros)) paras hl
    ∙ elim (Bool-cases (read_line l paras).0) [
      | inl e ↦ rw e (read_lines_lem ls rest zeros (read_line l paras).1 h k)
      | inr e ↦ rw e refl
    ]

pub read_buf-short :
    (n : ℕ) (file : List ℕ)
    → length file < n
    → (zeros : List ℕ) × (read_buf n file ≡ file ++ (0 ∷ zeros))
unfolding read_buf
read_buf-short zero file h = absurd (omega (arith, h))
read_buf-short (suc n) [] h = (read_buf n [], refl)
read_buf-short (suc n) (c ∷ file) h =
    let (zeros, same) = read_buf-short n file (omega (arith, h)) in (zeros, ap (λ z. c ∷ z) same)

-- ParseConfFile, on a file that is shorter than its buffer and has no '\0', given as its lines and
-- what comes after its last end of line: it returns, and both its result and the parameters are
-- those that the lines say, one after the other, up to the first line that is not well-formed. What
-- comes after the last end of line adds no parameter.
pub parse_conf_file_lem :
    (ls : List (List ℕ)) (rest : List ℕ)
    → All IsLine ls
    → IsLine rest
    → length (terminated b'\n' ls rest) < buf_len
    → parse_conf_file (terminated b'\n' ls rest) ≡ ok (read_lines ls rest [])
unfolding parse_conf_file
parse_conf_file_lem ls rest h k short =
    let (zeros, same) = read_buf-short buf_len (terminated b'\n' ls rest) short in
    ap (λ z. parse_from z start) same ∙ read_lines_lem ls rest zeros [] h k
