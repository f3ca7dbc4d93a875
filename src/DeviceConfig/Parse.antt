-- ===== src/DeviceConfig/Parse.antt =====
-- What every list of devices that DEVICES is read as has.
use termlink.Prelude.{
  ◌≡◌, Bool, false, List, [], ◌∷◌, Option, none, some, All, arith, inl, inr, Bool-cases,
}
use termlink.Prelude.Result.{ok, >>=-eq-ok, Result-cases}
use termlink.Credentials.{Text, split, is_empty}
use termlink.DeviceConfig.{
  AgentDeviceConfig, comma, trim, has_text, parse_name, parse_type, parse_token, parse_parts,
  parse_entry, parse_entries, parse_agents,
}

-- The ids differ from each other and from those that were seen.
abbrev pub AreNew : List Text → List AgentDeviceConfig → Type 0
AreNew seen [] = Unit
AreNew seen (a ∷ agents) = (has_text seen a.id ≡ false) × AreNew (a.id ∷ seen) agents

abbrev pub has_empty_token : Option Text → Bool
has_empty_token none = false
has_empty_token (some token) = is_empty token

-- No text of the device is empty.
pub record IsFilled (a : AgentDeviceConfig) : Type 0 where
  pub id : is_empty a.id ≡ false
  pub name : is_empty a.name ≡ false
  pub token : has_empty_token a.enrollment_token ≡ false

parse_token-filled :
    (parts : List Text) (token : Option Text)
    → parse_token parts ≡ ok token
    → has_empty_token token ≡ false
unfolding parse_token
parse_token-filled parts token h = ground (arith, h)

parse_name-filled :
    (id : Text) (parts : List Text) (name : Text)
    → is_empty id ≡ false
    → parse_name id parts ≡ ok name
    → is_empty name ≡ false
unfolding parse_name
parse_name-filled id parts name i h = ground (arith, i, h)

parse_parts-ok :
    (seen : List Text) (id : Text) (parts : List Text) (a : AgentDeviceConfig)
    → parse_parts seen id parts ≡ ok a
    → (has_text seen a.id ≡ false) × IsFilled a
unfolding parse_parts
parse_parts-ok seen id parts a h = elim (Result-cases (parse_name id parts)) [
  | inl (e, bad) ↦ ground (arith, h, bad)
  | inr (name, n) ↦ elim (Result-cases (parse_type parts)) [
    | inl (e, bad) ↦ ground (arith, h, n, bad)
    | inr (type, t) ↦ elim (Result-cases (parse_token parts)) [
      | inl (e, bad) ↦ ground (arith, h, n, t, bad)
      | inr (token, k) ↦
          ground
            (arith, h, n, t, k, parse_name-filled id parts name, parse_token-filled parts token k)
    ]
  ]
]

parse_entries-ok :
    (seen raws : List Text) (agents : List AgentDeviceConfig)
    → parse_entries seen raws ≡ ok agents
    → AreNew seen agents × All IsFilled agents
unfolding parse_entries parse_entry
parse_entries-ok seen [] agents h = let e : agents ≡ [] = cc in rw e (tt, tt)
parse_entries-ok seen (raw ∷ raws) agents h = elim (Bool-cases (is_empty (trim raw))) [
  | inl blank ↦ parse_entries-ok seen raws agents (rw blank at h)
  | inr entry ↦
      let (a, p, h') = >>=-eq-ok _ _ (rw entry at h) in
      let (rest, q, r) = >>=-eq-ok _ _ h' in
      let e : agents ≡ a ∷ rest = cc in
      let one = parse_parts-ok seen _ _ a p in
      let others = parse_entries-ok (a.id ∷ seen) raws rest q in
      rw e ((one.0, others.0), (one.1, others.1))
]

-- Whatever the value of DEVICES, the devices that it is read as have different ids, and none has
-- an empty id, an empty name or an empty enrollment token.
pub parse_agents-ok :
    (value : Option Text) (agents : List AgentDeviceConfig)
    → parse_agents value ≡ ok agents
    → AreNew [] agents × All IsFilled agents
unfolding parse_agents parse_entries
parse_agents-ok none agents h = parse_entries-ok [] [] agents h
parse_agents-ok (some value) agents h = elim (Bool-cases (is_empty value)) [
  | inl unset ↦ parse_entries-ok [] [] agents (rw unset at h)
  | inr set ↦
      parse_entries-ok [] ((split comma value).0 ∷ (split comma value).1) agents (rw set at h)
]
