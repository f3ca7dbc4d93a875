-- ===== src/DeviceConfig/Tests.antt =====
-- Two devices, one with an enrollment token: `a|A|shell|t,b|B|android`, and the first again with
-- white space around it, `a | A`.
use termlink.Prelude.{ℕ, ◌≡◌, ◌≢◌, refl, false, [], ◌∷◌, ◌++◌, none, some, All, arith}
use termlink.Prelude.Result.{ok, err}
use termlink.Credentials.{Text, split}
use termlink.DeviceStore.{shell, android}
use termlink.DeviceConfig.{
  AgentDeviceConfig, comma, bar, is_white, trim_start, trim_end, trim, parse_name, parse_type,
  parse_token, parse_parts, parse_entry, parse_entries, parse_agents, duplicate_device_id,
}
use termlink.DeviceConfig.Parse.{AreNew, IsFilled, parse_agents-ok}
use termlink.DeviceConfig.Entry.{IsPlain, IsPrintable}
use termlink.DeviceConfig.Print.{print_agents, parse_agents-print_agents}

abbrev a : AgentDeviceConfig
a = record { id = 97 ∷ []; name = 65 ∷ []; type = shell; enrollment_token = some (116 ∷ []) }

abbrev b : AgentDeviceConfig
b = record { id = 98 ∷ []; name = 66 ∷ []; type = android; enrollment_token = none }

abbrev plain : AgentDeviceConfig
plain = record { id = 97 ∷ []; name = 65 ∷ []; type = shell; enrollment_token = none }

abbrev spaced : Text
spaced = 97 ∷ 32 ∷ bar ∷ 32 ∷ 65 ∷ []

spaced_read : parse_agents (some spaced) ≡ ok (plain ∷ [])
unfolding parse_agents parse_entries parse_entry parse_parts parse_name parse_type parse_token split
    trim trim_start trim_end
spaced_read = refl

twice_refused : parse_agents (some (spaced ++ comma ∷ spaced)) ≡ err (duplicate_device_id (97 ∷ []))
unfolding parse_agents parse_entries parse_entry parse_parts parse_name parse_type parse_token split
    trim trim_start trim_end
twice_refused = refl

parse_agents-ok_example : AreNew [] (plain ∷ []) × All IsFilled (plain ∷ [])
parse_agents-ok_example = parse_agents-ok (some spaced) (plain ∷ []) spaced_read

letter-IsPlain : (c : ℕ) → is_white c ≡ false → c ≢ comma → c ≢ bar → IsPlain (c ∷ [])
letter-IsPlain c black no_comma no_bar = record {
  word = record { first = rw black refl; last = rw black refl };
  no_comma = (no_comma, tt);
  no_bar = (no_bar, tt);
}

a-IsPrintable : IsPrintable a
a-IsPrintable = record {
  id = letter-IsPlain 97 refl (omega arith) (omega arith);
  name = letter-IsPlain 65 refl (omega arith) (omega arith);
  token = letter-IsPlain 116 refl (omega arith) (omega arith);
}

b-IsPrintable : IsPrintable b
b-IsPrintable = record {
  id = letter-IsPlain 98 refl (omega arith) (omega arith);
  name = letter-IsPlain 66 refl (omega arith) (omega arith);
  token = tt;
}

parse_agents-print_agents_example : parse_agents (some (print_agents a (b ∷ []))) ≡ ok (a ∷ b ∷ [])
parse_agents-print_agents_example =
    parse_agents-print_agents a (b ∷ []) (a-IsPrintable, (b-IsPrintable, tt)) (refl, (refl, tt))
