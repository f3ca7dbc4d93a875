-- ===== src/DeviceStore/Enrollment.antt =====
-- Who may enroll a device, and whether its secret can change afterwards.
use termlink.Prelude.{
  ℕ, ◌≡◌, ◌↔◌, refl, ap, subst, ◌∙◌, sym, String, Bool, true, false, ◌&&◌, List, [], ◌∷◌, ◌++◌,
  Option, none, some, inl, inr, arith, All, ◌==◌, eq_iff, Option-cases,
}
use termlink.Prelude.Dict.{get}
use termlink.Credentials.{Text, Bytes, Scrypt, key_length, hash_secret, verify_stored}
use termlink.Credentials.Stored.{IsBuffer}
use termlink.Credentials.Login.{SameKey, verify_secret-hash_secret, hash_secret_some}
use termlink.DeviceStore.{
  DeviceState, DeviceStore, enrollment_token, update, has_token, register, remove_at, enrolled,
  finish_register, verify, Call, registers, step, run,
}
use termlink.DeviceStore.Keeps.{hash_of, IsIdle, Enrolls, step-Keeps, get-update, update-rest}

enrolled_once :
    (call : Call) (s : DeviceStore) (id : String) (hash : Text)
    → hash_of s id ≡ some hash
    → ¬ Enrolls s id call
enrolled_once call s id hash e h = ground arith

-- Once a device is enrolled, and no other enrollment of it waits for its hash, its secret never
-- changes again, whatever calls follow, further enrollments among them.
pub hash_of-run :
    (scrypt : Scrypt) (calls : List Call) (s : DeviceStore) (id : String) (hash : Text)
    → hash_of s id ≡ some hash
    → IsIdle id s
    → hash_of (run scrypt calls s) id ≡ some hash
unfolding run
hash_of-run scrypt [] s id hash e h = e
hash_of-run scrypt (call ∷ calls) s id hash e h =
    let kept = step-Keeps scrypt call s id (enrolled_once call s id hash e) h in
    hash_of-run scrypt calls (step scrypt call s) id hash (kept.same_hash ∙ e) kept.idle

-- A call that presents the enrollment token of the device.
abbrev pub presents : Option String → String → Call → Bool
presents expected id (registers j secret token) = j == id && has_token expected token
presents expected id _ = false

not_presented :
    (call : Call) (s : DeviceStore) (id : String)
    → presents (enrollment_token s id) id call ≡ false
    → ¬ Enrolls s id call
not_presented (registers j secret token) s id p h = ground (arith, eq_iff j id)
not_presented _ s id p h = ground arith

token_kept :
    (s s' : DeviceStore) (id : String)
    → s'.configs ≡ s.configs
    → enrollment_token s id ≡ enrollment_token s' id
unfolding enrollment_token
token_kept s s' id h = rw h refl

-- A device that is not enrolled, with no enrollment waiting, and for which nobody presents the
-- token, is not enrolled by any calls, whatever secrets and whatever other tokens they carry.
hash_of-run_without_token :
    (scrypt : Scrypt) (calls : List Call) (s : DeviceStore) (id : String)
    → hash_of s id ≡ none
    → IsIdle id s
    → All (λ call. presents (enrollment_token s id) id call ≡ false) calls
    → hash_of (run scrypt calls s) id ≡ none
unfolding run
hash_of-run_without_token scrypt [] s id e h p = e
hash_of-run_without_token scrypt (call ∷ calls) s id e h p =
    let kept = step-Keeps scrypt call s id (not_presented call s id p.0) h in
    let s' = step scrypt call s in
    let token : enrollment_token s id ≡ enrollment_token s' id =
      token_kept s s' id kept.same_configs in
    hash_of-run_without_token scrypt calls s' id (kept.same_hash ∙ e) kept.idle
      (subst (λ t. All (λ c. presents t id c ≡ false) calls) token p.1)

-- A device that the token given enrolls.
IsOpen : DeviceStore → String → Option String → DeviceState → Type 0
IsOpen s id token d =
    (get s.state id ≡ some d)
    × (d.secret_hash ≡ none)
    × (has_token (enrollment_token s id) token ≡ true)

waiting : String → String → DeviceStore → DeviceStore
waiting id secret s = record s { hashing = s.hashing ++ (id, secret) ∷ [] }

register_accepts :
    (id secret : String) (token : Option String) (s s' : DeviceStore)
    → register id secret token s ≡ (none, s')
    → (d : DeviceState) × IsOpen s id token d × (s' ≡ waiting id secret s)
unfolding register IsOpen waiting
register_accepts id secret token s s' h = elim (Option-cases (get s.state id)) [
  | inl unknown ↦ ground arith
  | inr (d, known) ↦ (d, (known, ground arith, ground arith), ground arith)
]

accepts_register :
    (id secret : String) (token : Option String) (s : DeviceStore) (d : DeviceState)
    → IsOpen s id token d
    → register id secret token s ≡ (none, waiting id secret s)
unfolding register IsOpen waiting
accepts_register id secret token s d h = ground arith

finish_first :
    (scrypt : Scrypt) (id secret : String) (rest : List (String × String)) (s : DeviceStore)
    (d : DeviceState) (salt : Bytes) (now : ℕ)
    → s.hashing ≡ (id, secret) ∷ rest
    → get s.state id ≡ some d
    → let s' = finish_register scrypt 0 salt now s in
      (get s'.state id ≡ some (enrolled (hash_secret scrypt secret salt) now d))
      × (s'.hashing ≡ rest)
unfolding finish_register
finish_first scrypt id secret rest s d salt now h k =
    let f = enrolled (hash_secret scrypt secret salt) now in
    let s' = record s { hashing = rest } in
    let step : finish_register scrypt 0 salt now s ≡ update id f s' =
      rw (h, finish_register) (ap (λ w. update id f (record s { hashing = remove_at w 0 })) h) in
    ground (arith, step, get-update id id f s', (update-rest id f s').1, eq_iff id id)

-- What a device enrolled with is what it is known by: behind an enrollment that is accepted while
-- no other waits, and for a salt and a derived key of some bytes, a secret is accepted exactly if
-- scrypt derives the key of the enrolled one from it.
verify-finish_register :
    (scrypt : Scrypt) (id secret given : String) (token : Option String) (s s' : DeviceStore)
    (salt : Bytes) (now : ℕ)
    → s.hashing ≡ []
    → register id secret token s ≡ (none, s')
    → IsBuffer salt
    → IsBuffer (scrypt secret salt key_length)
    → (verify scrypt id given (finish_register scrypt 0 salt now s') ≡ true)
      ↔ SameKey scrypt given secret salt
unfolding verify verify_stored IsOpen waiting
verify-finish_register scrypt id secret given token s s' salt now idle h b k =
    let (d, open_, waits) = register_accepts id secret token s s' h in
    let done = finish_first scrypt id secret [] s' d salt now (ground arith) (ground arith) in
    ground (
      arith,
      done.0,
      hash_secret_some scrypt secret salt,
      verify_secret-hash_secret scrypt given secret salt b k,
    )

-- Where no enrollment waits and one is accepted, a second one of that device with the same token,
-- which arrives before the first secret is hashed, is accepted too; and when the two hashes end in
-- the order in which the enrollments arrived, the first secret is stored, and then overwritten by
-- the second: the documented refusal of an enrolled device to enroll again does not hold between
-- them.
pub register_race :
    (scrypt : Scrypt) (id first second : String) (token : Option String) (s s1 : DeviceStore)
    (salt salt' : Bytes) (now later : ℕ)
    → s.hashing ≡ []
    → register id first token s ≡ (none, s1)
    → let (refusal, s2) = register id second token s1 in
      let s3 = finish_register scrypt 0 salt now s2 in
      let s4 = finish_register scrypt 0 salt' later s3 in
      (refusal ≡ none)
      × (hash_of s3 id ≡ some (hash_secret scrypt first salt))
      × (hash_of s4 id ≡ some (hash_secret scrypt second salt'))
unfolding IsOpen waiting enrollment_token
register_race scrypt id first second token s s1 salt salt' now later idle h =
    let (d, open_, waits) = register_accepts id first token s s1 h in
    let again =
      accepts_register id second token s1 d (subst (λ x. IsOpen x id token d) (sym waits) open_) in
    let hash = hash_secret scrypt first salt in
    let s2 = waiting id second s1 in
    let one =
      finish_first scrypt id first ((id, second) ∷ []) s2 d salt now (ground arith)
        (ground arith) in
    let two =
      finish_first scrypt id second [] (finish_register scrypt 0 salt now s2) (enrolled hash now d)
        salt' later one.1 one.0 in
    ground (arith, again, one, two)
