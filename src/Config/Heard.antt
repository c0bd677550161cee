-- ===== src/Config/Heard.antt =====
-- What the documentation of package viper says of the variables that it hears under AutomaticEnv, and of
-- the keys that Unmarshal knows.
use Prim.Native.Char.{code}
use Prim.Native.String.{◌++◌ as ◌<>◌}
use reconx.Base.{
  if◌then◌else◌, List, [], ◌∷◌, All, String, Bool, true, false, ◌||◌, ◌&&◌, ◌≡◌, none, any, leb,
  ◌==◌,
}
use reconx.Config.{Setting, Settings, Environment, Viper}

unfoldable pub has_dot : String → Bool
has_dot String.[] = false
has_dot (String.◌∷◌ c s) = (leb 46 (code c) && leb (code c) 46) || has_dot s

-- The parents of a nested key: what stands before each of its dots.
unfoldable pub parents_after : String → String → List String
parents_after before String.[] = []
parents_after before (String.◌∷◌ c s) =
    let rest = parents_after (before <> String.◌∷◌ c String.[]) s in
    if leb 46 (code c) && leb (code c) 46 then before ∷ rest else rest

abbrev pub parents : String → List String
parents key = parents_after "" key

-- What two environments have for the variables of some keys.
abbrev pub Agree :
    (String → String → String) → String → List String → (env env' : Environment) → Type 0
Agree env_name prefix keys env env' =
    All (λ k. env (env_name prefix k) ≡ env' (env_name prefix k)) keys

-- How package viper hears variables under AutomaticEnv: what it has for a key depends on the variable of
-- the key and, where the key is nested, on those of its parents, which hide it. The variable's name is
-- the prefix and the key, with no character of the key replaced but by its capital.
pub record IsAutomatic {F T : Type 0} (viper : Viper F T) (env_name : String → String → String)
    : Type 0 where
  pub by_names :
      (s : Settings) (key : String) (env env' : Environment)
      → Agree env_name s.env_prefix (key ∷ parents key) env env'
      → viper.get env s key ≡ viper.get env' s key
  pub dots : (prefix key : String) → has_dot key ≡ true → has_dot (env_name prefix key) ≡ true

-- Unmarshal knows a key by a default or from a configuration file.
abbrev pub KnowsKeys : {F T : Type 0} → Viper F T → (String → Bool) → Type 0
KnowsKeys viper in_files =
    (s : Settings) (key : String) (env : Environment)
    → in_files key ≡ false
    → any (λ (d : String × Setting). d.0 == key) s.defaults ≡ false
    → viper.get env s key ≡ none

-- No variable has a dot in its name, as is so where a shell sets them.
abbrev pub IsUndotted : Environment → Type 0
IsUndotted env = (name : String) → has_dot name ≡ true → env name ≡ none
