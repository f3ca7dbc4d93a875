-- ===== src/Credentials/Login.antt =====
-- Which secrets are accepted.
use termlink.Prelude.{
  ℕ, ◌≡◌, ◌↔◌, ◌⊎◌, inl, inr, refl, subst, String, true, false, List, [], ◌∷◌, Option, none, some,
  All, arith, Bool-cases, Option-cases, ◌==◌, eq_iff,
}
use termlink.Prelude.Dict.{Dict, get, put, get-put, Distinct}
use termlink.Credentials.{
  Bytes, Text, Scrypt, key_length, matches, hash_secret, verify_secret, hash_tokens, hash_passwords,
  new_store, verify_any, verify_token, verify_stored, verify_password, same_codes, is_empty,
}
use termlink.Credentials.Stored.{IsBuffer, parse_hash-hash_secret}

same_codes_iff : (xs ys : List ℕ) → (same_codes xs ys ≡ true) ↔ (xs ≡ ys)
same_codes_iff [] [] = ground arith
same_codes_iff [] (y ∷ ys) = ground arith
same_codes_iff (x ∷ xs) [] = ground arith
same_codes_iff (x ∷ xs) (y ∷ ys) = ground (arith, same_codes_iff xs ys)

-- Two secrets from which scrypt derives one key, with one salt.
abbrev pub SameKey : Scrypt → String → String → Bytes → Type 0
SameKey scrypt s t salt = scrypt s salt key_length ≡ scrypt t salt key_length

module _ (scrypt : Scrypt) where
  -- For a salt and a derived key of some bytes, a secret matches a stored secret exactly if scrypt
  -- derives one key from both.
  pub verify_secret-hash_secret :
      (given secret : String) (salt : Bytes)
      → IsBuffer salt
      → IsBuffer (scrypt secret salt key_length)
      → (verify_secret scrypt given (hash_secret scrypt secret salt) ≡ true)
        ↔ SameKey scrypt given secret salt
  unfolding verify_secret matches
  verify_secret-hash_secret given secret salt s k =
      let key = scrypt secret salt key_length in
      rw (parse_hash-hash_secret scrypt secret salt s k, verify_secret) ground
        (arith, same_codes_iff (scrypt given salt key_length) key)

  abbrev pub AnyToken : String → List (String × Bytes) → Type 0
  AnyToken given [] = ⊥
  AnyToken given ((token, salt) ∷ tokens) = SameKey scrypt given token salt ⊎ AnyToken given tokens

  abbrev pub AreBuffers : List (String × Bytes) → Type 0
  AreBuffers tokens = All (λ t. IsBuffer t.1 × IsBuffer (scrypt t.0 t.1 key_length)) tokens

  verify_any-hash_tokens :
      (given : String) (tokens : List (String × Bytes))
      → AreBuffers tokens
      → (verify_any scrypt given (hash_tokens scrypt tokens) ≡ true) ↔ AnyToken given tokens
  unfolding verify_any hash_tokens
  verify_any-hash_tokens given [] h = ground arith
  verify_any-hash_tokens given ((token, salt) ∷ tokens) h = ground (
    arith,
    verify_secret-hash_secret given token salt h.0.0 h.0.1,
    verify_any-hash_tokens given tokens h.1,
  )

  -- For salts and derived keys of some bytes, a token is accepted exactly if it has the key of one
  -- of the configured tokens.
  verify_token-new_store :
      (given : String) (tokens : List (String × Bytes)) (users : List (String × (String × Bytes)))
      → AreBuffers tokens
      → (verify_token scrypt given (new_store scrypt tokens users) ≡ true) ↔ AnyToken given tokens
  unfolding verify_token new_store
  verify_token-new_store given tokens users h = verify_any-hash_tokens given tokens h

  -- What a configured user, or none, leaves of what was stored under a name.
  stored_of : Option (String × Bytes) → Option Text → Option Text
  stored_of none stored = stored
  stored_of (some (password, salt)) stored = some (hash_secret scrypt password salt)

  get-hash_passwords :
      (users : Dict (String × Bytes)) (stored : Dict Text) (username : String)
      → Distinct users
      → get (hash_passwords scrypt users stored) username
        ≡ stored_of (get users username) (get stored username)
  unfolding get hash_passwords stored_of
  get-hash_passwords [] stored u h = refl
  get-hash_passwords ((name, (password, salt)) ∷ users) stored u h =
      let stored' = put stored name (hash_secret scrypt password salt) in
      ground (
        arith,
        get-hash_passwords users stored' u h.1,
        get-put stored name u (hash_secret scrypt password salt),
        eq_iff name u,
      )

  abbrev AreUserBuffers : Dict (String × Bytes) → Type 0
  AreUserBuffers users = All (λ e. IsBuffer e.1.1 × IsBuffer (scrypt e.1.0 e.1.1 key_length)) users

  user_buffers :
      (users : Dict (String × Bytes)) (username : String) (e : String × Bytes)
      → AreUserBuffers users
      → get users username ≡ some e
      → IsBuffer e.1 × IsBuffer (scrypt e.0 e.1 key_length)
  unfolding get
  user_buffers [] u e h k = ground arith
  user_buffers ((name, entry) ∷ users) u e h k = elim (Bool-cases (name == u)) [
    | inl same ↦
        let this : entry ≡ e = ground arith in
        subst (λ x. IsBuffer x.1 × IsBuffer (scrypt x.0 x.1 key_length)) this h.0
    | inr other ↦ user_buffers users u e h.1 (rw other at k)
  ]

  -- The configured password, if there is one, has the key of the given one.
  abbrev pub Fits : String → Option (String × Bytes) → Type 0
  Fits given none = ⊥
  Fits given (some (password, salt)) = SameKey scrypt given password salt

  pub hash_secret_some :
      (secret : String) (salt : Bytes) → is_empty (hash_secret scrypt secret salt) ≡ false
  unfolding hash_secret
  hash_secret_some secret salt = refl

  -- For users of different names, and salts and derived keys of some bytes, a name and a password
  -- are accepted exactly if a user of that name is configured, with a password of the same key.
  verify_password-new_store :
      (username given : String) (tokens : List (String × Bytes)) (users : Dict (String × Bytes))
      → Distinct users
      → AreUserBuffers users
      → (verify_password scrypt username given (new_store scrypt tokens users) ≡ true)
        ↔ Fits given (get users username)
  unfolding verify_password verify_stored new_store stored_of get
  verify_password-new_store username given tokens users h k =
      elim (Option-cases (get users username)) [
        | inl unknown ↦ rw (get-hash_passwords users [] username h, unknown) ground arith
        | inr (e, known) ↦
            let (salted, derived) = user_buffers users username e k known in
            rw (get-hash_passwords users [] username h, known) ground
              (
                arith,
                hash_secret_some e.0 e.1,
                verify_secret-hash_secret given e.0 e.1 salted derived,
              )
      ]
