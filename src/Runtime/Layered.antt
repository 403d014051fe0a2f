-- ===== src/Runtime/Layered.antt =====
-- What a variable of pkg/runtimeconfig's env.go sets, and which source of a setting wins.
use oci_cpu_shaper.Base.{ℕ, ◌≡◌, refl, arith, Bool, if◌then◌else◌, Option, none, some}
use oci_cpu_shaper.Base.Int.{ℤ, pos, ltb_ℤ}
use oci_cpu_shaper.Base.Text.{Text, trim_space, to_lower}
use oci_cpu_shaper.Runtime.Sources.{
  Parsers, Environment, assign, assign_string, trimmed, env_string, env_string_allow_empty,
  bool_word, env_bool, env_float, env_duration, env_int, env_int_allow_zero,
}

-- The first of the environment and the file that sets a value, or else the default.
abbrev pub layered : {A : Type 0} → Option A → Option A → A → A
layered (some x) file default = x
layered none (some y) default = y
layered none none default = default

abbrev pub bind : {A B : Type 0} → Option A → (A → Option B) → Option B
bind none f = none
bind (some x) f = f x

abbrev pub map_text : (Text → Text) → Option Text → Option Text
map_text f none = none
map_text f (some t) = some (f t)

-- What a variable sets, if it is set to something that is read as a value.
abbrev pub bool_in : Environment → Text → Option Bool
bool_in env key = bind (env key) (λ value. bool_word (trim_space (to_lower value)))

abbrev pub text_in : Environment → Text → Option Text
text_in env key = map_text trim_space (env key)

-- An integer that is at least `least`.
abbrev pub at_least : ℕ → ℤ → Option ℤ
at_least least n = if ltb_ℤ n (pos least) then none else some n

pub assign_lem :
    {A : Type 0} → (file : Option A) (default : A) → assign default file ≡ layered none file default
unfolding assign
assign_lem none default = refl
assign_lem (some x) default = refl

pub env_string_lem :
    (env : Environment) (key : Text) (file : Option Text) (default : Text)
    → env_string env key (assign_string default file)
      ≡ layered (trimmed env key) (map_text trim_space file) default
unfolding assign assign_string env_string
env_string_lem env key file default = ground arith

pub env_string_allow_empty_lem :
    (env : Environment) (key : Text) (file : Option Text) (default : Text)
    → env_string_allow_empty env key (assign_string default file)
      ≡ layered (text_in env key) (map_text trim_space file) default
unfolding assign assign_string env_string_allow_empty
env_string_allow_empty_lem env key file default = ground arith

pub env_bool_lem :
    (env : Environment) (key : Text) (file : Option Bool) (default : Bool)
    → env_bool env key (assign default file) ≡ layered (bool_in env key) file default
unfolding assign assign_string env_bool
env_bool_lem env key file default = ground arith

module _ {F : Type 0} where
  abbrev pub float_in : Parsers F → Environment → Text → Option F
  float_in parsers env key = bind (trimmed env key) parsers.parse_float

  abbrev pub duration_in : Parsers F → Environment → Text → Option ℤ
  duration_in parsers env key = bind (trimmed env key) parsers.parse_duration

  abbrev pub int_in : Parsers F → Environment → ℕ → Text → Option ℤ
  int_in parsers env least key = bind (bind (trimmed env key) parsers.atoi) (at_least least)

  pub env_float_lem :
      (parsers : Parsers F) (env : Environment) (key : Text) (file : Option F) (default : F)
      → env_float parsers env key (assign default file)
        ≡ layered (float_in parsers env key) file default
  unfolding assign assign_string env_float
  env_float_lem parsers env key file default = ground arith

  pub env_duration_lem :
      (parsers : Parsers F) (env : Environment) (key : Text) (file : Option ℤ) (default : ℤ)
      → env_duration parsers env key (assign default file)
        ≡ layered (duration_in parsers env key) file default
  unfolding assign assign_string env_duration
  env_duration_lem parsers env key file default = ground arith

  pub env_int_lem :
      (parsers : Parsers F) (env : Environment) (key : Text) (file : Option ℤ) (default : ℤ)
      → env_int parsers env key (assign default file)
        ≡ layered (int_in parsers env 1 key) file default
  unfolding assign assign_string env_int
  env_int_lem parsers env key file default = ground arith

  pub env_int_allow_zero_lem :
      (parsers : Parsers F) (env : Environment) (key : Text) (file : Option ℤ) (default : ℤ)
      → env_int_allow_zero parsers env key (assign default file)
        ≡ layered (int_in parsers env 0 key) file default
  unfolding assign assign_string env_int_allow_zero
  env_int_allow_zero_lem parsers env key file default = ground arith
