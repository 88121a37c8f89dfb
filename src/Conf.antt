-- ===== src/Conf.antt =====
-- src/xty_conf_parse.cpp and src/xty_conf_parse.h: the reading of the configuration file, and what
-- src/xty_global_function.h takes from it. A file is the list of its bytes; `char` is signed, and
-- a byte of 128 or more passes none of the tests, as here.
pub mod Lines
pub mod Scan
pub mod Printed
pub mod Kept
pub mod Address
mod Tests
use xty.Base.{
  ℕ, zero, suc, Bool, true, false, not, ◌&&◌, ◌||◌, Option, none, some, List, [], ◌∷◌, ◌++◌, leb,
  ◌==◌, if◌then◌else◌,
}
use xty.Comparable.Strings.{string_eq}
use xty.Msg.Stream.{Outcome, ok, fault}
use xty.Text.{ip_string_check, numeric_string_check, string_to_uint}

-- xtyConfParaType
pub data ParaType : Type 0 where
  type_string type_uint16 type_uint32 : ParaType

-- xtyConfPara
pub record ConfPara : Type 0 where
  pub para_type : ParaType
  pub para_name : List ℕ
  pub str_value : List ℕ

abbrev pub server_name : List ℕ
server_name = b's' ∷ b'e' ∷ b'r' ∷ b'v' ∷ b'e' ∷ b'r' ∷ b'_' ∷ b'n' ∷ b'a' ∷ b'm' ∷ b'e' ∷ []

abbrev pub server_ip : List ℕ
server_ip = b's' ∷ b'e' ∷ b'r' ∷ b'v' ∷ b'e' ∷ b'r' ∷ b'_' ∷ b'i' ∷ b'p' ∷ []

abbrev pub server_port : List ℕ
server_port = b's' ∷ b'e' ∷ b'r' ∷ b'v' ∷ b'e' ∷ b'r' ∷ b'_' ∷ b'p' ∷ b'o' ∷ b'r' ∷ b't' ∷ []

abbrev pub heart_interval : List ℕ
heart_interval =
    b'h' ∷ b'e' ∷ b'a' ∷ b'r' ∷ b't' ∷ b'_' ∷ b'i' ∷ b'n' ∷ b't' ∷ b'e' ∷ b'r' ∷ b'v' ∷ b'a' ∷ b'l'
    ∷ []

-- m_ConfParaTypeTable after InitConfParaTypeTable
abbrev pub para_type_table : List (List ℕ × ParaType)
para_type_table =
    (server_name, type_string)
    ∷ (server_ip, type_string)
    ∷ (server_port, type_uint16)
    ∷ (heart_interval, type_uint32)
    ∷ []

-- `find` of the table
unfoldable pub find_type : List ℕ → List (List ℕ × ParaType) → Option ParaType
find_type name [] = none
find_type name (entry ∷ table) =
    let later = find_type name table in if string_eq entry.0 name then some entry.1 else later

-- ParseOneLine, with m_ConfParaList before and after
unfoldable pub parse_one_line : List (List ℕ) → List ConfPara → Bool × List ConfPara
unfolding find_type
parse_one_line [] paras = (false, paras)
parse_one_line (name ∷ []) paras = (false, paras)
parse_one_line (name ∷ value ∷ []) paras = elim (find_type name para_type_table) [
  | none ↦ (false, paras)
  | some t ↦ (true, paras ++ (record { para_type = t; para_name = name; str_value = value } ∷ []))
]
parse_one_line (name ∷ value ∷ more ∷ words) paras = (false, paras)

-- What ParseConfFile keeps: b_annotation_area, b_conf_para_area, temp_res, line_temp_res, and
-- m_ConfParaList.
pub record Parser : Type 0 where
  pub annotation_area : Bool
  pub para_area : Bool
  pub temp_res : List ℕ
  pub line_temp_res : List (List ℕ)
  pub conf_para_list : List ConfPara

abbrev pub within : ℕ → ℕ → ℕ → Bool
within lo hi c = leb lo c && leb c hi

-- The characters of names and values
abbrev pub is_text : ℕ → Bool
is_text c = within b'a' b'z' c || within b'A' b'Z' c || within b'0' b'9' c || c == b'_' || c == b'.'

abbrev pub is_blank : ℕ → Bool
is_blank c = c == b' ' || c == b'\t'

-- `if (!temp_res.empty()) line_temp_res.push_back(temp_res)`
abbrev pub push_word : List ℕ → List (List ℕ) → List (List ℕ)
push_word [] words = words
push_word (c ∷ word) words = words ++ ((c ∷ word) ∷ [])

-- The end of a word, at a blank or at the end of the line
unfoldable pub end_word : Parser → Parser
end_word s =
    let ended = record s {
      para_area = false;
      temp_res = [];
      line_temp_res = push_word s.temp_res s.line_temp_res;
    } in
    if s.para_area then ended else s

-- The end of the line, and whether the loop goes on
unfoldable pub end_line : Parser → Bool × Parser
unfolding parse_one_line
end_line s = elim s.line_temp_res [
  | [] ↦ (true, s)
  | (word ∷ words) ↦
      let (fine, paras) = parse_one_line (word ∷ words) s.conf_para_list in
      let cleared = record s { line_temp_res = []; conf_para_list = paras } in
      if fine then (true, cleared) else (false, record s { conf_para_list = paras })
]

-- The body of the loop of ParseConfFile, and whether the loop goes on
unfoldable pub parse_char : ℕ → Parser → Bool × Parser
unfolding end_word end_line
parse_char c s =
    if c == b'#'
    then (true, record s { annotation_area = true })
    else if c == b'\n'
    then end_line (end_word (record s { annotation_area = false }))
    else if s.annotation_area
    then (true, s)
    else if is_blank c
    then (true, end_word s)
    else if not (is_text c)
    then (false, s)
    else (true, record s { para_area = true; temp_res = s.temp_res ++ (c ∷ []) })

-- The loop, over what is left of the buffer, up to a '\0'. It reads past a buffer without one.
unfoldable pub parse_from : List ℕ → Parser → Outcome (Bool × List ConfPara)
unfolding parse_char
parse_from [] s = fault
parse_from (c ∷ buf) s =
    let (fine, s') = parse_char c s in
    let rest = parse_from buf s' in
    if c == 0
    then ok (true, s.conf_para_list)
    else if fine
    then rest
    else ok (false, s'.conf_para_list)

-- XTY_CONF_PARSE_BUF_LEN
abbrev pub buf_len : ℕ
buf_len = 4096

-- `char buf[n] = {0}` after a `read` of at most n bytes
unfoldable pub read_buf : ℕ → List ℕ → List ℕ
read_buf zero file = []
read_buf (suc n) [] = 0 ∷ read_buf n []
read_buf (suc n) (c ∷ file) = c ∷ read_buf n file

abbrev pub start : Parser
start = record {
  annotation_area = false;
  para_area = false;
  temp_res = [];
  line_temp_res = [];
  conf_para_list = [];
}

-- ParseConfFile: its result, which the constructor does not read, and m_ConfParaList
unfoldable pub parse_conf_file : List ℕ → Outcome (Bool × List ConfPara)
unfolding parse_from read_buf
parse_conf_file file = parse_from (read_buf buf_len file) start

infixl 5 ◌>>=◌
abbrev ◌>>=◌ {ℓ κ} : {A : Type ℓ} {B : Type κ} → Option A → (A → Option B) → Option B
none >>= f = none
some a >>= f = f a

-- GetConfPara; `none` is exit(XTY_ERROR), here and below.
unfoldable pub get_conf_para : List ℕ → List ConfPara → Option ConfPara
get_conf_para name [] = none
get_conf_para name (para ∷ paras) =
    let later = get_conf_para name paras in
    if string_eq para.para_name name then some para else later

-- GetServerAddrConfig: the IP and the port
unfoldable pub get_server_addr_config : List ConfPara → Option (List ℕ × ℕ)
unfolding get_conf_para
get_server_addr_config paras = do
  ip ← get_conf_para server_ip paras
  port ← get_conf_para server_port paras
  if not (ip_string_check ip.str_value)
      then none
      else if not (numeric_string_check port.str_value)
      then none
      else some (ip.str_value, string_to_uint 16 port.str_value)

-- GetHeartIntervalConfig
unfoldable pub get_heart_interval_config : List ConfPara → Option ℕ
unfolding get_conf_para
get_heart_interval_config paras = do
  interval ← get_conf_para heart_interval paras
  if not (numeric_string_check interval.str_value)
      then none
      else some (string_to_uint 32 interval.str_value)
