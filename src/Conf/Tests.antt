-- ===== src/Conf/Tests.antt =====
-- Runs of the configuration file's reading in src/xty_conf_parse.cpp, and the theorems at them.
use xty.Base.{false, ◌≡◌, refl, true, false, List, [], ◌∷◌, Bool, ℕ, All, arith, not, ◌&&◌, ◌==◌}
use xty.Comparable.Strings.{string_eq}
use xty.Msg.Stream.{ok}
use xty.Text.{ip_string_check, ip_check_from}
use xty.Text.Split.{terminated}
use xty.Conf.{
  type_string, server_name, server_ip, server_port, heart_interval, ConfPara, find_type,
  parse_one_line, parse_conf_file,
}
use xty.Conf.Lines.{code_of, parts, read_line, read_lines}
use xty.Conf.Scan.{IsLine, parse_conf_file_lem}
use xty.Conf.Printed.{IsParameter, print_conf, parse_conf_file-print_conf}
use xty.Conf.Kept.{parse_conf_file-IsParameter}
use xty.Conf.Address.{Setting}

-- "1.1.1.1"
abbrev ip : List ℕ
ip = b'1' ∷ b'.' ∷ b'1' ∷ b'.' ∷ b'1' ∷ b'.' ∷ b'1' ∷ []

abbrev ip_para : List ℕ → ConfPara
ip_para value = record { para_type = type_string; para_name = server_ip; str_value = value }

-- "# ip", "server_ip\t1.1.1.1 #", an empty line, and "heart_interval 5" without its end of line
abbrev lines : List (List ℕ)
lines =
    (b'#' ∷ b' ' ∷ b'i' ∷ b'p' ∷ [])
    ∷ (b's' ∷ b'e' ∷ b'r' ∷ b'v' ∷ b'e' ∷ b'r' ∷ b'_' ∷ b'i' ∷ b'p' ∷ b'\t' ∷ b'1' ∷ b'.' ∷ b'1'
        ∷ b'.' ∷ b'1' ∷ b'.' ∷ b'1' ∷ b' ' ∷ b'#' ∷ [])
    ∷ []
    ∷ []

abbrev last : List ℕ
last =
    b'h' ∷ b'e' ∷ b'a' ∷ b'r' ∷ b't' ∷ b'_' ∷ b'i' ∷ b'n' ∷ b't' ∷ b'e' ∷ b'r' ∷ b'v' ∷ b'a' ∷ b'l'
    ∷ b' ' ∷ b'5' ∷ []

is_line : List ℕ → Bool
is_line [] = true
is_line (c ∷ l) = not (c == 0) && not (c == b'\n') && is_line l

is_line-IsLine : (l : List ℕ) → is_line l ≡ true → IsLine l
unfolding is_line
is_line-IsLine [] h = tt
is_line-IsLine (c ∷ l) h =
    (((λ e. ground (arith, h)), λ e. ground (arith, h)), is_line-IsLine l (ground (arith, h)))

lines-IsLine : All IsLine lines × IsLine last
unfolding is_line
lines-IsLine = (
  (
    is_line-IsLine (b'#' ∷ b' ' ∷ b'i' ∷ b'p' ∷ []) refl,
    (
      is_line-IsLine
          (b's' ∷ b'e' ∷ b'r' ∷ b'v' ∷ b'e' ∷ b'r' ∷ b'_' ∷ b'i' ∷ b'p' ∷ b'\t' ∷ b'1' ∷ b'.' ∷ b'1'
            ∷ b'.' ∷ b'1' ∷ b'.' ∷ b'1' ∷ b' ' ∷ b'#' ∷ [])
          refl,
      (tt, tt),
    ),
  ),
  is_line-IsLine last refl,
)

-- The last line is not read.
read_all : read_lines lines last [] ≡ (true, ip_para ip ∷ [])
unfolding read_lines read_line code_of parts parse_one_line find_type string_eq
read_all = refl

-- A character outside the text ends the reading; what is before its line stays.
stopped :
    read_lines
      ((b's' ∷ b'e' ∷ b'r' ∷ b'v' ∷ b'e' ∷ b'r' ∷ b'_' ∷ b'i' ∷ b'p' ∷ b' ' ∷ b'1' ∷ [])
        ∷ (b'a' ∷ b'=' ∷ b'b' ∷ [])
        ∷ [])
      []
      []
    ≡ (false, ip_para (b'1' ∷ []) ∷ [])
unfolding read_lines read_line code_of parts parse_one_line find_type string_eq
stopped = refl

ip_is_valid : ip_string_check ip ≡ true
unfolding ip_string_check ip_check_from
ip_is_valid = refl

ip_para-IsParameter : IsParameter (ip_para ip)
unfolding find_type string_eq
ip_para-IsParameter = record {
  typed = refl;
  value_text = (refl, (refl, (refl, (refl, (refl, (refl, (refl, tt)))))));
  value_ne_nil = λ e. cc;
}

parse_conf_file_lem_example :
    parse_conf_file (terminated b'\n' lines last) ≡ ok (read_lines lines last [])
parse_conf_file_lem_example =
    parse_conf_file_lem lines last lines-IsLine.0 lines-IsLine.1 (omega arith)

parse_conf_file-print_conf_example :
    parse_conf_file (print_conf (ip_para ip ∷ [])) ≡ ok (true, ip_para ip ∷ [])
parse_conf_file-print_conf_example =
    parse_conf_file-print_conf (ip_para ip ∷ []) (ip_para-IsParameter, tt) (omega arith)

parse_conf_file-IsParameter_example :
    (fine : Bool) × (paras : List ConfPara) × (parse_conf_file (terminated b'\n' lines last)
      ≡ ok (fine, paras))
    × All IsParameter paras
parse_conf_file-IsParameter_example =
    parse_conf_file-IsParameter (terminated b'\n' lines last) (omega arith)

-- The lines of conf/xty.conf; the others of them are empty.
abbrev comment_1 : List ℕ
comment_1 =
    b'#' ∷ b' ' ∷ b'T' ∷ b'h' ∷ b'i' ∷ b's' ∷ b' ' ∷ b'c' ∷ b'o' ∷ b'n' ∷ b'f' ∷ b'i' ∷ b'g' ∷ b'u'
    ∷ b'r' ∷ b'a' ∷ b't' ∷ b'i' ∷ b'o' ∷ b'n' ∷ b' ' ∷ b'f' ∷ b'i' ∷ b'l' ∷ b'e' ∷ b' ' ∷ b'i'
    ∷ b's' ∷ b' ' ∷ b's' ∷ b'e' ∷ b't' ∷ b' ' ∷ b'u' ∷ b'p' ∷ b' ' ∷ b'f' ∷ b'o' ∷ b'r' ∷ b' '
    ∷ b's' ∷ b'e' ∷ b's' ∷ b's' ∷ b'i' ∷ b'o' ∷ b'n' ∷ b' ' ∷ b'p' ∷ b'r' ∷ b'o' ∷ b'c' ∷ b'e'
    ∷ b's' ∷ b's' ∷ b'e' ∷ b's' ∷ b' ' ∷ b't' ∷ b'o' ∷ []

abbrev comment_2 : List ℕ
comment_2 =
    b'#' ∷ b' ' ∷ b'b' ∷ b'e' ∷ b' ' ∷ b'a' ∷ b'w' ∷ b'a' ∷ b'r' ∷ b'e' ∷ b' ' ∷ b'o' ∷ b'f' ∷ b' '
    ∷ b't' ∷ b'h' ∷ b'e' ∷ b' ' ∷ b's' ∷ b'e' ∷ b'r' ∷ b'v' ∷ b'e' ∷ b'r' ∷ 39 ∷ b's' ∷ b' ' ∷ b'a'
    ∷ b'd' ∷ b'd' ∷ b'r' ∷ b'.' ∷ b' ' ∷ b'I' ∷ b't' ∷ b' ' ∷ b'c' ∷ b'o' ∷ b'n' ∷ b't' ∷ b'a'
    ∷ b'i' ∷ b'n' ∷ b's' ∷ b' ' ∷ b't' ∷ b'h' ∷ b'e' ∷ b' ' ∷ b's' ∷ b'e' ∷ b'r' ∷ b'v' ∷ b'e'
    ∷ b'r' ∷ 39 ∷ b's' ∷ b' ' ∷ b'i' ∷ b'p' ∷ b',' ∷ []

abbrev comment_3 : List ℕ
comment_3 =
    b'#' ∷ b' ' ∷ b'p' ∷ b'o' ∷ b'r' ∷ b't' ∷ b',' ∷ b' ' ∷ b'a' ∷ b'n' ∷ b'd' ∷ b' ' ∷ b'i' ∷ b't'
    ∷ b's' ∷ b' ' ∷ b'p' ∷ b'r' ∷ b'o' ∷ b'c' ∷ b'e' ∷ b's' ∷ b's' ∷ b' ' ∷ b'n' ∷ b'a' ∷ b'm'
    ∷ b'e' ∷ b'.' ∷ []

abbrev comment_4 : List ℕ
comment_4 = b'#' ∷ b' ' ∷ b'2' ∷ b'0' ∷ b'1' ∷ b'5' ∷ b'-' ∷ b'1' ∷ b'0' ∷ b'-' ∷ b'2' ∷ b'2' ∷ []

abbrev name_line : List ℕ
name_line =
    b's' ∷ b'e' ∷ b'r' ∷ b'v' ∷ b'e' ∷ b'r' ∷ b'_' ∷ b'n' ∷ b'a' ∷ b'm' ∷ b'e' ∷ b'\t' ∷ b'x' ∷ b't'
    ∷ b'y' ∷ b'M' ∷ b's' ∷ b'g' ∷ b'S' ∷ b'e' ∷ b'r' ∷ b'v' ∷ b'e' ∷ b'r' ∷ []

abbrev ip_line : List ℕ
ip_line =
    b's' ∷ b'e' ∷ b'r' ∷ b'v' ∷ b'e' ∷ b'r' ∷ b'_' ∷ b'i' ∷ b'p' ∷ b'\t' ∷ b'1' ∷ b'2' ∷ b'7' ∷ b'.'
    ∷ b'0' ∷ b'.' ∷ b'0' ∷ b'.' ∷ b'1' ∷ []

abbrev port_line : List ℕ
port_line =
    b's' ∷ b'e' ∷ b'r' ∷ b'v' ∷ b'e' ∷ b'r' ∷ b'_' ∷ b'p' ∷ b'o' ∷ b'r' ∷ b't' ∷ b'\t' ∷ b'5' ∷ b'5'
    ∷ b'5' ∷ b'5' ∷ b'5' ∷ []

abbrev comment_5 : List ℕ
comment_5 =
    b'#' ∷ b' ' ∷ b'H' ∷ b'e' ∷ b'a' ∷ b'r' ∷ b't' ∷ b' ' ∷ b'b' ∷ b'e' ∷ b'a' ∷ b't' ∷ b' ' ∷ b'm'
    ∷ b'e' ∷ b'c' ∷ b'h' ∷ b'a' ∷ b'n' ∷ b'i' ∷ b's' ∷ b'm' ∷ b' ' ∷ b'h' ∷ b'a' ∷ b'v' ∷ b'e'
    ∷ b'n' ∷ 39 ∷ b't' ∷ b' ' ∷ b'i' ∷ b'm' ∷ b'p' ∷ b'l' ∷ b'e' ∷ b'd' ∷ b' ' ∷ b'y' ∷ b'e' ∷ b't'
    ∷ []

abbrev interval_line : List ℕ
interval_line =
    b'h' ∷ b'e' ∷ b'a' ∷ b'r' ∷ b't' ∷ b'_' ∷ b'i' ∷ b'n' ∷ b't' ∷ b'e' ∷ b'r' ∷ b'v' ∷ b'a' ∷ b'l'
    ∷ b'\t' ∷ b'1' ∷ b'5' ∷ []

abbrev xty_conf : List (List ℕ)
xty_conf =
    [] ∷ comment_1 ∷ comment_2 ∷ comment_3 ∷ [] ∷ comment_4 ∷ name_line ∷ ip_line ∷ port_line ∷ []
    ∷ comment_5 ∷ interval_line ∷ [] ∷ []

abbrev server_name_value : List ℕ
server_name_value =
    b'x' ∷ b't' ∷ b'y' ∷ b'M' ∷ b's' ∷ b'g' ∷ b'S' ∷ b'e' ∷ b'r' ∷ b'v' ∷ b'e' ∷ b'r' ∷ []

abbrev server_ip_value : List ℕ
server_ip_value = b'1' ∷ b'2' ∷ b'7' ∷ b'.' ∷ b'0' ∷ b'.' ∷ b'0' ∷ b'.' ∷ b'1' ∷ []

abbrev server_port_value : List ℕ
server_port_value = b'5' ∷ b'5' ∷ b'5' ∷ b'5' ∷ b'5' ∷ []

abbrev heart_interval_value : List ℕ
heart_interval_value = b'1' ∷ b'5' ∷ []

abbrev xty_settings : List Setting
xty_settings =
    (server_name, server_name_value)
    ∷ (server_ip, server_ip_value)
    ∷ (server_port, server_port_value)
    ∷ (heart_interval, heart_interval_value)
    ∷ []
