-- ===== src/Config.antt =====
-- How the three Go services read their configuration, internal/config/config.go of each. Package viper
-- is a parameter: what it has for a key, and how it decodes it. An int is taken not to be negative.
pub mod Gateway
pub mod Ingestion
pub mod Resolution
pub mod Heard
pub mod Deaf
mod Examples
use reconx.Base.{◌≡◌, refl, ℕ, String, Bool, Option, none, some, List}

-- The value of a key; a float64 without a fraction is given by its integer.
pub data Setting : Type 0 where
  text : String → Setting
  number : ℕ → Setting
  float : ℕ → Setting
  flag : Bool → Setting
  texts : List String → Setting
  section : List (String × String) → Setting

-- What a Load tells viper before it calls Unmarshal.
pub record Settings : Type 0 where
  pub defaults : List (String × Setting)
  pub config_name : String
  pub config_type : String
  pub config_paths : List String
  pub env_prefix : String
  pub automatic_env : Bool

-- The variables of the process.
abbrev pub Environment : Type 0
Environment = String → Option String

-- Package viper over the configuration files that it finds; F is float64 and T time.Duration. `get` is
-- what Unmarshal has for a key.
pub record Viper (F T : Type 0) : Type 0 where
  pub get : Environment → Settings → String → Option Setting
  pub as_text : Setting → Option String
  pub as_int : Setting → Option ℕ
  pub as_bool : Setting → Option Bool
  pub as_float : Setting → Option F
  pub as_duration : Setting → Option T
  pub as_texts : Setting → Option (List String)
  pub as_rates : Setting → Option (List (String × F))
  pub zero_float : F
  pub zero_duration : T

infixl 10 ◌>>=◌
unfoldable pub ◌>>=◌ : {A B : Type 0} → Option A → (A → Option B) → Option B
none >>= f = none
some a >>= f = f a

-- Inversion of a chain that has a value.
pub >>=-eq-some :
    {A B : Type 0} (m : Option A) (f : A → Option B) {b : B}
    → (m >>= f) ≡ some b
    → (a : A) × (m ≡ some a) × (f a ≡ some b)
unfolding ◌>>=◌
>>=-eq-some none f e = cc
>>=-eq-some (some a) f e = (a, refl, e)

-- A field of the structure keeps its zero value where viper has nothing for its key.
abbrev pub field : {A : Type 0} → A → (Setting → Option A) → Option Setting → Option A
field zero_value decode none = some zero_value
field zero_value decode (some setting) = decode setting
