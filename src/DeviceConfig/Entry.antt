-- ===== src/DeviceConfig/Entry.antt =====
-- One device written as an entry of DEVICES, and read back.
use termlink.Prelude.{
  ℕ, ◌≡◌, ◌≢◌, refl, ap, ◌∙◌, false, List, [], ◌∷◌, ◌++◌, Option, none, some, All-append,
  append-nil, arith,
}
use termlink.Prelude.Result.{ok}
use termlink.Credentials.{Text, split, is_empty}
use termlink.Credentials.Stored.{HasNo, split-append, split_whole}
use termlink.DeviceStore.{TargetType, shell, android}
use termlink.DeviceConfig.{
  AgentDeviceConfig, comma, bar, trim_all, shell_text, android_text, has_text, parse_name,
  parse_type, parse_token, parse_parts, parse_entry,
}
use termlink.DeviceConfig.Trim.{IsWord, IsWord-nonempty, trim-word, IsWord-append}

abbrev pub type_text : TargetType → Text
type_text shell = shell_text
type_text android = android_text

abbrev pub print_token : Option Text → Text
print_token none = []
print_token (some token) = bar ∷ token

-- `id|Display Name|type[|Enrollment Token]`
abbrev pub print_agent : AgentDeviceConfig → Text
print_agent a = a.id ++ bar ∷ (a.name ++ bar ∷ (type_text a.type ++ print_token a.enrollment_token))

-- A text that may stand in an entry.
pub record IsPlain (text : Text) : Type 0 where
  pub word : IsWord text
  pub no_comma : HasNo comma text
  pub no_bar : HasNo bar text

abbrev pub IsPlainToken : Option Text → Type 0
IsPlainToken none = Unit
IsPlainToken (some token) = IsPlain token

pub record IsPrintable (a : AgentDeviceConfig) : Type 0 where
  pub id : IsPlain a.id
  pub name : IsPlain a.name
  pub token : IsPlainToken a.enrollment_token

shell-IsPlain : IsPlain shell_text
shell-IsPlain = record {
  word = record { first = refl; last = refl };
  no_comma = (omega arith, (omega arith, (omega arith, (omega arith, (omega arith, tt)))));
  no_bar = (omega arith, (omega arith, (omega arith, (omega arith, (omega arith, tt)))));
}

android-IsPlain : IsPlain android_text
android-IsPlain = record {
  word = record { first = refl; last = refl };
  no_comma = (
    omega arith,
    (omega arith, (omega arith, (omega arith, (omega arith, (omega arith, (omega arith, tt)))))),
  );
  no_bar = (
    omega arith,
    (omega arith, (omega arith, (omega arith, (omega arith, (omega arith, (omega arith, tt)))))),
  );
}

type-IsPlain : (t : TargetType) → IsPlain (type_text t)
type-IsPlain shell = shell-IsPlain
type-IsPlain android = android-IsPlain

abbrev token_parts : Option Text → List Text
token_parts none = []
token_parts (some token) = token ∷ []

split_last :
    (text : Text) (token : Option Text)
    → IsPlain text
    → IsPlainToken token
    → split bar (text ++ print_token token) ≡ (text, token_parts token)
split_last text none p q = ap (split bar) (append-nil text) ∙ split_whole bar text p.no_bar
split_last text (some token) p q =
    split-append bar text token p.no_bar ∙ rw (split_whole bar token q.no_bar) refl

split-print_agent :
    (a : AgentDeviceConfig)
    → IsPrintable a
    → split bar (print_agent a) ≡ (a.id, a.name ∷ type_text a.type ∷ token_parts a.enrollment_token)
split-print_agent a p =
    rw
      (
        split-append bar a.id (a.name ++ bar ∷ (type_text a.type ++ print_token a.enrollment_token))
            p.id.no_bar,
        split-append bar a.name (type_text a.type ++ print_token a.enrollment_token) p.name.no_bar,
        split_last (type_text a.type) a.enrollment_token (type-IsPlain a.type) p.token,
      )
      refl

last-IsWord :
    (text : Text) (token : Option Text)
    → IsPlain text
    → IsPlainToken token
    → IsWord (text ++ print_token token)
last-IsWord text none p q = rw (append-nil text) p.word
last-IsWord text (some token) p q = IsWord-append text (bar ∷ []) token p.word q.word

pub print_agent-IsWord : (a : AgentDeviceConfig) → IsPrintable a → IsWord (print_agent a)
print_agent-IsWord a p =
    let tail = type_text a.type ++ print_token a.enrollment_token in
    let last = last-IsWord (type_text a.type) a.enrollment_token (type-IsPlain a.type) p.token in
    IsWord-append a.id (bar ∷ []) (a.name ++ bar ∷ tail) p.id.word
      (IsWord-append a.name (bar ∷ []) tail p.name.word last)

trim-token_parts :
    (token : Option Text) → IsPlainToken token → trim_all (token_parts token) ≡ token_parts token
trim-token_parts none q = refl
trim-token_parts (some token) q = rw (trim-word token q.word) refl

parse_parts-parts :
    (seen : List Text) (id name : Text) (t : TargetType) (token : Option Text)
    → is_empty id ≡ false
    → is_empty name ≡ false
    → IsPlainToken token
    → has_text seen id ≡ false
    → parse_parts seen id (name ∷ type_text t ∷ token_parts token)
      ≡ ok (record { id = id; name = name; type = t; enrollment_token = token })
unfolding parse_parts parse_name parse_type parse_token
parse_parts-parts seen id name shell none i n q new = rw (i, n, new) refl
parse_parts-parts seen id name android none i n q new = rw (i, n, new) refl
parse_parts-parts seen id name shell (some token) i n q new =
    rw (i, n, new, IsWord-nonempty token q.word) refl
parse_parts-parts seen id name android (some token) i n q new =
    rw (i, n, new, IsWord-nonempty token q.word) refl

pub parse-print_agent :
    (seen : List Text) (a : AgentDeviceConfig)
    → IsPrintable a
    → has_text seen a.id ≡ false
    → parse_entry seen (print_agent a) ≡ ok a
unfolding parse_entry
parse-print_agent seen a p new =
    let i = IsWord-nonempty a.id p.id.word in
    let n = IsWord-nonempty a.name p.name.word in
    rw
      (
        split-print_agent a p,
        trim-word a.id p.id.word,
        trim-word a.name p.name.word,
        trim-word (type_text a.type) (type-IsPlain a.type).word,
        trim-token_parts a.enrollment_token p.token,
      )
      (parse_parts-parts seen a.id a.name a.type a.enrollment_token i n p.token new)

bar-no_comma : (text : Text) → HasNo comma text → HasNo comma (bar ∷ text)
bar-no_comma text h = (omega arith, h)

token-no_comma : (token : Option Text) → IsPlainToken token → HasNo comma (print_token token)
token-no_comma none q = tt
token-no_comma (some token) q = bar-no_comma token q.no_comma

pub print_agent-no_comma : (a : AgentDeviceConfig) → IsPrintable a → HasNo comma (print_agent a)
print_agent-no_comma a p =
    let no : ℕ → Type 0 = λ c. c ≢ comma in
    let token = print_token a.enrollment_token in
    let type = type_text a.type in
    let last =
      All-append no type token (type-IsPlain a.type).no_comma
        (token-no_comma a.enrollment_token p.token) in
    let named =
      All-append no a.name (bar ∷ (type ++ token)) p.name.no_comma (bar-no_comma _ last) in
    All-append no a.id (bar ∷ (a.name ++ bar ∷ (type ++ token))) p.id.no_comma
      (bar-no_comma _ named)
