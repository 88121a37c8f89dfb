-- ===== src/Conf/Kept.antt =====
-- src/xty_conf_parse.cpp: what holds of the parameters that any file leaves.
use xty.Base.{
  ℕ, ◌<◌, ◌≡◌, refl, ap, ◌∙◌, Bool, true, false, not, Bool-cases, Option-cases, inl, inr, List, [],
  ◌∷◌, ◌++◌, ◌==◌, if◌then◌else◌, All, All-append, length,
}
use xty.Msg.Stream.{ok}
use xty.Conf.{
  ConfPara, Parser, para_type_table, find_type, parse_one_line, is_text, is_blank, push_word,
  end_word, end_line, parse_char, parse_from, buf_len, start, parse_conf_file,
}
use xty.Conf.Scan.{read_buf-short}
use xty.Conf.Printed.{IsText, IsWord, IsParameter}

-- Between two characters
record IsSound (s : Parser) : Type 0 where
  temp_res : IsText s.temp_res
  line_temp_res : All IsWord s.line_temp_res
  conf_para_list : All IsParameter s.conf_para_list

push_word-IsWord :
    (word : List ℕ) (words : List (List ℕ))
    → IsText word
    → All IsWord words
    → All IsWord (push_word word words)
push_word-IsWord [] words h k = k
push_word-IsWord (c ∷ word) words h k =
    All-append IsWord words ((c ∷ word) ∷ []) k ((h, λ e. cc), tt)

end_word-IsSound : (s : Parser) → IsSound s → IsSound (end_word s)
unfolding end_word
end_word-IsSound s h = elim (Bool-cases s.para_area) [
  | inl e ↦ rw e (record {
    temp_res = tt;
    line_temp_res = push_word-IsWord s.temp_res s.line_temp_res h.temp_res h.line_temp_res;
    conf_para_list = h.conf_para_list;
  })
  | inr e ↦ simp e h
]

parse_one_line-IsParameter :
    (words : List (List ℕ)) (paras : List ConfPara)
    → All IsWord words
    → All IsParameter paras
    → All IsParameter (parse_one_line words paras).1
unfolding parse_one_line
parse_one_line-IsParameter [] paras h k = k
parse_one_line-IsParameter (name ∷ []) paras h k = k
parse_one_line-IsParameter (name ∷ value ∷ []) paras h k =
    elim (Option-cases (find_type name para_type_table)) [
      | inl e ↦ rw (parse_one_line, e) k
      | inr (t, e) ↦
          rw (parse_one_line, e)
            (All-append IsParameter paras
              (record { para_type = t; para_name = name; str_value = value } ∷ []) k
              (record { typed = e; value_text = h.1.0.0; value_ne_nil = h.1.0.1 }, tt))
    ]
parse_one_line-IsParameter (name ∷ value ∷ more ∷ words) paras h k = k

end_line-IsSound : (s : Parser) → IsSound s → IsSound (end_line s).1
unfolding end_line
end_line-IsSound s h = choose s.line_temp_res h.line_temp_res
  where
    choose :
        (words : List (List ℕ))
        → All IsWord words
        → IsSound (end_line (record s { line_temp_res = words })).1
    choose [] k = record {
      temp_res = h.temp_res;
      line_temp_res = tt;
      conf_para_list = h.conf_para_list;
    }
    choose (w ∷ ws) k =
        let kept = parse_one_line-IsParameter (w ∷ ws) s.conf_para_list k h.conf_para_list in
        elim (Bool-cases (parse_one_line (w ∷ ws) s.conf_para_list).0) [
          | inl e ↦
              rw e (record { temp_res = h.temp_res; line_temp_res = tt; conf_para_list = kept })
          | inr e ↦
              rw e (record { temp_res = h.temp_res; line_temp_res = k; conf_para_list = kept })
        ]

parse_char-IsSound : (c : ℕ) (s : Parser) → IsSound s → IsSound (parse_char c s).1
unfolding parse_char end_word
parse_char-IsSound c s h =
    let plain : (b : Bool) → IsSound (record s { annotation_area = b }) = λ b. record {
      temp_res = h.temp_res;
      line_temp_res = h.line_temp_res;
      conf_para_list = h.conf_para_list;
    } in
    elim (Bool-cases (c == b'#')) [
      | inl e ↦ rw e (plain true)
      | inr e ↦ elim (Bool-cases (c == b'\n')) [
        | inl n ↦
            rw (e, n)
              (end_line-IsSound (end_word (record s { annotation_area = false }))
                (end_word-IsSound (record s { annotation_area = false }) (plain false)))
        | inr n ↦ rw (e, n) (in_line s.annotation_area)
      ]
    ]
  where
    in_line :
        (annotation : Bool)
        → let read : Bool × Parser =
            if annotation
            then (true, s)
            else if is_blank c
            then (true, end_word s)
            else if not (is_text c)
            then (false, s)
            else (true, record s { para_area = true; temp_res = s.temp_res ++ (c ∷ []) }) in
          IsSound read.1
    in_line true = h
    in_line false = elim (Bool-cases (is_blank c)) [
      | inl b ↦ rw b (end_word-IsSound s h)
      | inr b ↦ elim (Bool-cases (is_text c)) [
        | inl t ↦
            rw (b, t)
              (record {
                temp_res =
                    All-append (λ x. is_text x ≡ true) s.temp_res (c ∷ []) h.temp_res (t, tt);
                line_temp_res = h.line_temp_res;
                conf_para_list = h.conf_para_list;
              })
        | inr t ↦ rw (b, t) h
      ]
    ]

parse_from-IsParameter :
    (file zeros : List ℕ) (s : Parser)
    → IsSound s
    → (fine : Bool) × (paras : List ConfPara) × (parse_from (file ++ (0 ∷ zeros)) s
        ≡ ok (fine, paras))
      × All IsParameter paras
unfolding parse_from
parse_from-IsParameter [] zeros s h = (true, s.conf_para_list, refl, h.conf_para_list)
parse_from-IsParameter (c ∷ file) zeros s h =
    let next = (parse_char c s).1 in
    let sound = parse_char-IsSound c s h in
    elim (Bool-cases (c == 0)) [
      | inl z ↦ (true, s.conf_para_list, rw z refl, h.conf_para_list)
      | inr z ↦ elim (Bool-cases (parse_char c s).0) [
        | inl on ↦
            let (fine, paras, same, kept) = parse_from-IsParameter file zeros next sound in
            (fine, paras, rw (z, on) same, kept)
        | inr off ↦ (false, next.conf_para_list, rw (z, off) refl, sound.conf_para_list)
      ]
    ]

-- ParseConfFile returns on every file that is shorter than its buffer, whatever its bytes are; and
-- whether the file is well-formed or not, each parameter that it leaves has a name of the table,
-- the type that the table has for it, and a value that is not empty and has characters of the
-- file's text only.
pub parse_conf_file-IsParameter :
    (file : List ℕ)
    → length file < buf_len
    → (fine : Bool) × (paras : List ConfPara) × (parse_conf_file file ≡ ok (fine, paras))
      × All IsParameter paras
unfolding parse_conf_file
parse_conf_file-IsParameter file short =
    let (zeros, same) = read_buf-short buf_len file short in
    let (fine, paras, parsed, kept) =
      parse_from-IsParameter file zeros start
        (record { temp_res = tt; line_temp_res = tt; conf_para_list = tt }) in
    (fine, paras, ap (λ z. parse_from z start) same ∙ parsed, kept)
