-- ===== src/Patterns.antt =====
-- override_store/patterns.rs: the rules that say which paths are overridden, and what they look at.
pub mod Glob
pub mod Rules
pub mod Transforms
pub mod Content
use shadowfs.Base.{
  ℕ, ◌-◌, List, [], ◌∷◌, Option, none, some, Bool, true, false, ◌&&◌, ◌||◌, not, leb, ltb,
  if◌then◌else◌, reverse, is_none,
}
use shadowfs.Metadata.{FileMetadata}
use shadowfs.Path.{ShadowPath, ShadowPath-discrete, to_string}
use shadowfs.Path.Buf.{Text-discrete}
use shadowfs.Path.Chars.{Text, starts_with}
use shadowfs.Patterns.Glob.{glob_match}

-- The `regex` crate: what it compiles a pattern to, and its test.
pub record Regexes : Type 1 where
  pub Regex : Type 0
  pub is_match : Regex → Text → Bool

module _ (regexes : Regexes) where
  open regexes use {Regex, is_match}

  pub data OverrideRule : Type 0 where
    exact prefix : ShadowPath → OverrideRule
    suffix glob : Text → OverrideRule
    regex : Regex → OverrideRule

  unfoldable pub matches : OverrideRule → ShadowPath → Bool
  matches (exact pattern) path = elim (ShadowPath-discrete path pattern) [
    | yes e ↦ true
    | no e ↦ false
  ]
  matches (prefix p) path = starts_with (to_string path) (to_string p)
  matches (suffix s) path = starts_with (reverse (to_string path)) (reverse s)
  matches (glob pattern) path = glob_match pattern (to_string path)
  matches (regex r) path = is_match r (to_string path)

mutual
  pub data OverrideCondition : Type 0 where
    always : OverrideCondition
    time_range : ℕ → ℕ → OverrideCondition
    user_match : List Text → OverrideCondition
    file_size_range : Option ℕ → Option ℕ → OverrideCondition
    modified_within : ℕ → OverrideCondition
    env_var : Text → Option Text → OverrideCondition
    all_of any_of : Conditions → OverrideCondition

  pub data Conditions : Type 0 where
    no_more : Conditions
    and_then : OverrideCondition → Conditions → Conditions

-- What conditions ask the system for: a reading of the clock, which is one for all the conditions of a
-- rule, and the variables of the environment.
pub record Surroundings : Type 0 where
  pub now : ℕ
  pub var : Text → Option Text

unfoldable pub within : ℕ → ℕ → Option FileMetadata → Bool
within now duration none = false
within now duration (some meta) =
    if ltb now meta.modified then false else leb (now - meta.modified) duration

unfoldable pub size_in : Option ℕ → Option ℕ → Option FileMetadata → Bool
size_in low high none = false
size_in low high (some meta) =
    (elim low [ none ↦ true | some m ↦ leb m meta.size ])
    && (elim high [ none ↦ true | some m ↦ leb meta.size m ])

unfoldable pub var_is : Option Text → Option Text → Bool
var_is none value = is_none value
var_is (some v) none = true
var_is (some v) (some w) = elim (Text-discrete w v) [ yes e ↦ true | no e ↦ false ]

unfoldable pub not_empty : List Text → Bool
not_empty [] = false
not_empty (u ∷ l) = true

unfoldable mutual
  pub is_active : Surroundings → Option FileMetadata → OverrideCondition → Bool
  is_active at metadata always = true
  is_active at metadata (time_range start end) = leb start at.now && leb at.now end
  is_active at metadata (user_match users) = not_empty users
  is_active at metadata (file_size_range low high) = size_in low high metadata
  is_active at metadata (modified_within duration) = within at.now duration metadata
  is_active at metadata (env_var name value) = var_is (at.var name) value
  is_active at metadata (all_of l) = all_active at metadata l
  is_active at metadata (any_of l) = any_active at metadata l

  pub all_active : Surroundings → Option FileMetadata → Conditions → Bool
  all_active at metadata no_more = true
  all_active at metadata (and_then c l) = is_active at metadata c && all_active at metadata l

  pub any_active : Surroundings → Option FileMetadata → Conditions → Bool
  any_active at metadata no_more = false
  any_active at metadata (and_then c l) = is_active at metadata c || any_active at metadata l

-- `OverrideRuleEntry`, with any kind of content: no test of a rule looks at it.
pub record OverrideRuleEntry (regexes : Regexes) (C : Type 0) : Type 0 where
  pub rule : OverrideRule regexes
  pub priority : ℕ
  pub condition : OverrideCondition
  pub content : C
