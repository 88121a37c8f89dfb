-- ===== src/Conf/Address.antt =====
-- src/xty_global_function.h, GetServerAddrConfig and GetHeartIntervalConfig, on the parameters that
-- ParseConfFile reads from a file.
use xty.Base.{ℕ, ◌≡◌, ◌≢◌, true, ◌⊎◌, some, List, [], ◌∷◌}
use xty.Conf.{ParaType, ConfPara, para_type_table, find_type}
use xty.Conf.Lines.{code_of, all_code, parts, nonempty}

-- A name and its value, as a line has them
abbrev pub Setting : Type 0
Setting = List ℕ × List ℕ

-- The words of a line without its comment
abbrev pub words : List ℕ → List (List ℕ)
words l = nonempty (parts (code_of l))

-- Lines of a configuration, and what they set: each line has only characters that are allowed
-- outside comments, and no word, or a name of the table and a value.
pub data IsConf : List (List ℕ) → List Setting → Type 0 where
  no_lines : IsConf [] []
  no_words :
      (l : List ℕ) (ls : List (List ℕ)) (sets : List Setting)
      → all_code (code_of l) ≡ true
      → words l ≡ []
      → IsConf ls sets
      → IsConf (l ∷ ls) sets
  setting :
      (l : List ℕ) (ls : List (List ℕ)) (sets : List Setting) (name value : List ℕ) (t : ParaType)
      → all_code (code_of l) ≡ true
      → words l ≡ name ∷ (value ∷ [])
      → find_type name para_type_table ≡ some t
      → IsConf ls sets
      → IsConf (l ∷ ls) ((name, value) ∷ sets)

-- The first of the settings with this name has this value.
abbrev pub IsFirst : (name value : List ℕ) → List Setting → Type 0
IsFirst name value [] = ⊥
IsFirst name value (s ∷ sets) =
    ((s.0 ≡ name) × (s.1 ≡ value)) ⊎ ((s.0 ≢ name) × IsFirst name value sets)

abbrev settings_of : List ConfPara → List Setting
settings_of [] = []
settings_of (p ∷ ps) = (p.para_name, p.str_value) ∷ settings_of ps
