-- ===== src/DeviceConfig.antt =====
-- relay/src/device-config.ts: the devices that the environment variable DEVICES names, from the
-- text of its value, a list of code units. The wording of errors is not modelled.
pub mod Trim
pub mod Parse
pub mod Entry
pub mod Print
mod Tests
use termlink.Prelude.{
  ℕ, Bool, true, false, not, ◌&&◌, ◌||◌, List, [], ◌∷◌, map, Option, none, some, ltb, leb, ◌===◌,
  if◌then◌else◌, length,
}
use termlink.Prelude.Result.{Result, err, ok, guard, ◌>>=◌, ◌>>◌}
use termlink.Credentials.{Text, split, same_codes, is_empty}
use termlink.DeviceStore.{TargetType, shell, android}

pub record AgentDeviceConfig : Type 0 where
  pub id : Text
  pub name : Text
  pub type : TargetType
  pub enrollment_token : Option Text

pub data ConfigError : Type 0 where
  too_many_parts empty_device_id empty_display_name empty_enrollment_token : ConfigError
  duplicate_device_id unsupported_type id_collision : Text → ConfigError

abbrev pub comma : ℕ
comma = 44

abbrev pub bar : ℕ
bar = 124

-- The code units that `trim` removes: white space and ends of lines.
abbrev pub is_white : ℕ → Bool
is_white c =
    (leb 9 c && leb c 13)
    || (c === 32
        || (c === 160
            || (c === 5760
                || ((leb 8192 c && leb c 8202)
                    || (c === 8232
                        || (c === 8233
                            || (c === 8239 || (c === 8287 || (c === 12288 || c === 65279)))))))))

unfoldable pub trim_start : Text → Text
trim_start [] = []
trim_start (c ∷ text) = let rest = trim_start text in if is_white c then rest else c ∷ text

unfoldable pub trim_end : Text → Text
trim_end [] = []
trim_end (c ∷ text) =
    let rest = trim_end text in if is_white c && is_empty rest then [] else c ∷ rest

unfoldable pub trim : Text → Text
trim text = trim_end (trim_start text)

abbrev pub trim_all : List Text → List Text
trim_all [] = []
trim_all (t ∷ texts) = trim t ∷ trim_all texts

abbrev pub shell_text : Text
shell_text = 115 ∷ 104 ∷ 101 ∷ 108 ∷ 108 ∷ []

abbrev pub android_text : Text
android_text = 97 ∷ 110 ∷ 100 ∷ 114 ∷ 111 ∷ 105 ∷ 100 ∷ []

abbrev pub has_text : List Text → Text → Bool
has_text [] t = false
has_text (x ∷ xs) t = same_codes x t || has_text xs t

-- The optional parts, given those that stand behind the id.
unfoldable pub parse_name : Text → List Text → Result ConfigError Text
parse_name id [] = ok id
parse_name id (name ∷ parts) = do guard (not (is_empty name)) empty_display_name; ok name

unfoldable pub parse_type : List Text → Result ConfigError TargetType
parse_type (name ∷ raw_type ∷ parts) =
    if same_codes raw_type shell_text
    then ok shell
    else if same_codes raw_type android_text
    then ok android
    else err (unsupported_type raw_type)
parse_type _ = ok shell

unfoldable pub parse_token : List Text → Result ConfigError (Option Text)
parse_token (name ∷ raw_type ∷ token ∷ parts) = do
  guard (not (is_empty token)) empty_enrollment_token
  ok (some token)
parse_token _ = ok none

-- One entry, split at its bars and trimmed; `seen` are the ids before it.
unfoldable pub parse_parts : List Text → Text → List Text → Result ConfigError AgentDeviceConfig
parse_parts seen id parts = do
  guard (leb (length parts) 3) too_many_parts
  guard (not (is_empty id)) empty_device_id
  guard (not (has_text seen id)) (duplicate_device_id id)
  name ← parse_name id parts
  type ← parse_type parts
  token ← parse_token parts
  ok (record { id = id; name = name; type = type; enrollment_token = token })

unfoldable pub parse_entry : List Text → Text → Result ConfigError AgentDeviceConfig
parse_entry seen entry =
    let (id, parts) = split bar entry in parse_parts seen (trim id) (trim_all parts)

-- The loop of `parseAgents`.
unfoldable pub parse_entries : List Text → List Text → Result ConfigError (List AgentDeviceConfig)
parse_entries seen [] = ok []
parse_entries seen (raw ∷ raws) =
    let skipped = parse_entries seen raws in
    let entry = trim raw in
    if is_empty entry
    then skipped
    else (parse_entry seen entry >>= λ agent.
        parse_entries (agent.id ∷ seen) raws >>= λ agents. ok (agent ∷ agents))

unfoldable pub parse_agents : Option Text → Result ConfigError (List AgentDeviceConfig)
parse_agents none = ok []
parse_agents (some value) =
    let (entry, entries) = split comma value in
    if is_empty value then ok [] else parse_entries [] (entry ∷ entries)

unfoldable pub assert_no_id_collisions :
    List AgentDeviceConfig → List Text → Result ConfigError (Unit {0})
assert_no_id_collisions [] target_ids = ok tt
assert_no_id_collisions (agent ∷ agents) target_ids = do
  guard (not (has_text target_ids agent.id)) (id_collision agent.id)
  assert_no_id_collisions agents target_ids
