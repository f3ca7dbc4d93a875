-- ===== src/DeviceConfig/Print.antt =====
-- Devices written as a value of DEVICES, and read back.
use termlink.Prelude.{◌≡◌, refl, ◌∙◌, false, List, [], ◌∷◌, ◌++◌, some, All}
use termlink.Prelude.Result.{ok}
use termlink.Credentials.{Text, split, is_empty}
use termlink.Credentials.Stored.{HasNo, split-append, split_whole}
use termlink.DeviceConfig.{AgentDeviceConfig, comma, parse_entries, parse_agents}
use termlink.DeviceConfig.Parse.{AreNew}
use termlink.DeviceConfig.Trim.{IsWord-nonempty, trim-word}
use termlink.DeviceConfig.Entry.{
  print_agent, IsPrintable, parse-print_agent, print_agent-no_comma, print_agent-IsWord,
}

-- The entries, with commas between them.
abbrev pub join : Text → List Text → Text
join entry [] = entry
join entry (next ∷ entries) = entry ++ comma ∷ join next entries

abbrev pub print_all : List AgentDeviceConfig → List Text
print_all [] = []
print_all (a ∷ agents) = print_agent a ∷ print_all agents

split-join :
    (entry : Text) (entries : List Text)
    → HasNo comma entry
    → All (HasNo comma) entries
    → split comma (join entry entries) ≡ (entry, entries)
split-join entry [] h all = split_whole comma entry h
split-join entry (next ∷ entries) h all =
    split-append comma entry (join next entries) h ∙ rw (split-join next entries all.0 all.1) refl

all-no_comma :
    (agents : List AgentDeviceConfig)
    → All IsPrintable agents
    → All (HasNo comma) (print_all agents)
all-no_comma [] all = tt
all-no_comma (a ∷ agents) all = (print_agent-no_comma a all.0, all-no_comma agents all.1)

parse_entries-print_all :
    (seen : List Text) (agents : List AgentDeviceConfig)
    → All IsPrintable agents
    → AreNew seen agents
    → parse_entries seen (print_all agents) ≡ ok agents
unfolding parse_entries
parse_entries-print_all seen [] all new = refl
parse_entries-print_all seen (a ∷ agents) all new =
    let w = print_agent-IsWord a all.0 in
    rw
      (
        trim-word (print_agent a) w,
        IsWord-nonempty (print_agent a) w,
        parse-print_agent seen a all.0 new.0,
        parse_entries-print_all (a.id ∷ seen) agents all.1 new.1,
      )
      refl

-- The value of DEVICES that lists some devices.
abbrev pub print_agents : AgentDeviceConfig → List AgentDeviceConfig → Text
print_agents a agents = join (print_agent a) (print_all agents)

join-nonempty :
    (entry : Text) (entries : List Text)
    → is_empty entry ≡ false
    → is_empty (join entry entries) ≡ false
join-nonempty [] [] h = h
join-nonempty (c ∷ entry) [] h = refl
join-nonempty [] (next ∷ entries) h = refl
join-nonempty (c ∷ entry) (next ∷ entries) h = refl

-- Devices with different ids, whose texts are not empty, hold no comma and no bar, and neither start
-- nor end with white space, are read back from DEVICES exactly as they were written, in order.
pub parse_agents-print_agents :
    (a : AgentDeviceConfig) (agents : List AgentDeviceConfig)
    → All IsPrintable (a ∷ agents)
    → AreNew [] (a ∷ agents)
    → parse_agents (some (print_agents a agents)) ≡ ok (a ∷ agents)
unfolding parse_agents
parse_agents-print_agents a agents all new =
    let entries = print_all agents in
    let nonempty = IsWord-nonempty (print_agent a) (print_agent-IsWord a all.0) in
    rw
      (
        split-join (print_agent a) entries (print_agent-no_comma a all.0)
            (all-no_comma agents all.1),
        join-nonempty (print_agent a) entries nonempty,
      )
      (parse_entries-print_all [] (a ∷ agents) all new)
