-- ===== src/DeviceStore/Keeps.antt =====
-- What the calls on the store leave as it was, of one device.
use termlink.Prelude.{
  ℕ, zero, suc, ◌≡◌, ◌≢◌, refl, ap, ◌⊎◌, subst, sym, String, true, List, [], ◌∷◌, ◌++◌, Option,
  none, some, inl, inr, arith, All, All-append, get_elem?, if◌then◌else◌, ◌==◌, eq_iff,
  Option-cases,
}
use termlink.Prelude.Dict.{Dict, get, get-put}
use termlink.Credentials.{Text, Bytes, Scrypt, hash_secret}
use termlink.DeviceStore.{
  DeviceState, DeviceStore, enrollment_token, update, mark_open_enrollment_warned, has_token,
  register, remove_at, enrolled, finish_register, connected, set_online, release, set_offline,
  touched, touch, Call, registers, registration_ends, goes_online, goes_offline, touches, warns,
  step,
}

abbrev pub state_hash : Option DeviceState → Option Text
state_hash none = none
state_hash (some d) = d.secret_hash

-- The secret with which a device is enrolled.
abbrev pub hash_of : DeviceStore → String → Option Text
hash_of s id = state_hash (get s.state id)

-- No registration of the device waits for its hash.
abbrev pub IsIdle : String → DeviceStore → Type 0
IsIdle id s = All (λ r. r.0 ≢ id) s.hashing

abbrev pub mapped : (DeviceState → DeviceState) → Option DeviceState → Option DeviceState
mapped f none = none
mapped f (some d) = some (f d)

pub get-update :
    (id j : String) (f : DeviceState → DeviceState) (s : DeviceStore)
    → get (update id f s).state j ≡ (if id == j then mapped f (get s.state id) else get s.state j)
unfolding update
get-update id j f s = elim (Option-cases (get s.state id)) [
  | inl unknown ↦ rw (unknown, update) ground (arith, eq_iff id j)
  | inr (d, known) ↦ rw (known, update) (get-put s.state id j (f d))
]

pub update-rest :
    (id : String) (f : DeviceState → DeviceState) (s : DeviceStore)
    → ((update id f s).configs ≡ s.configs) × ((update id f s).hashing ≡ s.hashing)
unfolding update
update-rest id f s = ground arith

release-hash :
    (connection_id : String) (now : ℕ) (state : Dict DeviceState) (j : String)
    → state_hash (get (release connection_id now state) j) ≡ state_hash (get state j)
unfolding release get
release-hash c now [] j = refl
release-hash c now ((id, d) ∷ rest) j = ground (arith, release-hash c now rest j)

remove_at-All :
    (P : String × String → Type 0) (xs : List (String × String)) (i : ℕ)
    → All P xs
    → All P (remove_at xs i)
remove_at-All P [] i h = tt
remove_at-All P (x ∷ xs) zero h = h.1
remove_at-All P (x ∷ xs) (suc i) h = (h.0, remove_at-All P xs i h.1)

get_elem-All :
    (P : String × String → Type 0) (xs : List (String × String)) (i : ℕ) (x : String × String)
    → All P xs
    → get_elem? xs i ≡ some x
    → P x
get_elem-All P [] i x h e = ground arith
get_elem-All P (y ∷ xs) zero x h e = let this : y ≡ x = ground arith in subst P this h.0
get_elem-All P (y ∷ xs) (suc i) x h e = get_elem-All P xs i x h.1 e

-- What a call leaves as it was, of a device.
pub record Keeps (id : String) (s s' : DeviceStore) : Type 0 where
  pub same_hash : hash_of s' id ≡ hash_of s id
  pub idle : IsIdle id s'
  pub same_configs : s'.configs ≡ s.configs

update-Keeps :
    (id j : String) (f : DeviceState → DeviceState) (s : DeviceStore)
    → ((d : DeviceState) → (f d).secret_hash ≡ d.secret_hash)
    → IsIdle j s
    → Keeps j s (update id f s)
update-Keeps id j f s h k =
    let (configs, hashing) = update-rest id f s in
    elim (Option-cases (get s.state id)) [
      | inl unknown ↦ ground (arith, get-update id j f s, hashing, configs, eq_iff id j)
      | inr (d, known) ↦ ground (arith, get-update id j f s, h d, hashing, configs, eq_iff id j)
    ]

finish_register-Keeps :
    (scrypt : Scrypt) (place : ℕ) (salt : Bytes) (now : ℕ) (s : DeviceStore) (id : String)
    → IsIdle id s
    → Keeps id s (finish_register scrypt place salt now s)
unfolding finish_register
finish_register-Keeps scrypt place salt now s id h =
    elim (Option-cases (get_elem? s.hashing place)) [
      | inl gone ↦
          rw (gone, finish_register) (record { same_hash = refl; idle = h; same_configs = refl })
      | inr ((j, secret), waiting) ↦
          let other : j ≢ id = get_elem-All (λ r. r.0 ≢ id) s.hashing place (j, secret) h waiting in
          let f = enrolled (hash_secret scrypt secret salt) now in
          let rest = record s { hashing = remove_at s.hashing place } in
          let (configs, hashing) = update-rest j f rest in
          let waits = remove_at-All (λ r. r.0 ≢ id) s.hashing place h in
          let kept : Keeps id s (update j f rest) = record {
            same_hash = ground (arith, get-update j id f rest, eq_iff j id);
            idle = subst (All (λ r. r.0 ≢ id)) (sym hashing) waits;
            same_configs = configs;
          } in
          rw (waiting, finish_register) kept
    ]

-- A registration of the device that goes through.
abbrev pub Enrolls : DeviceStore → String → Call → Type 0
Enrolls s id (registers j secret token) =
    (j ≡ id) × (hash_of s id ≡ none) × (has_token (enrollment_token s id) token ≡ true)
Enrolls s id _ = ⊥

register-hashing :
    (j secret : String) (token : Option String) (s : DeviceStore)
    → let s' = (register j secret token s).1 in
      (s'.state ≡ s.state)
      × (s'.configs ≡ s.configs)
      × ((s'.hashing ≡ s.hashing)
          ⊎ ((s'.hashing ≡ s.hashing ++ (j, secret) ∷ [])
              × (hash_of s j ≡ none)
              × (has_token (enrollment_token s j) token ≡ true)))
unfolding register
register-hashing j secret token s = ground arith

register-Keeps :
    (j secret : String) (token : Option String) (s : DeviceStore) (id : String)
    → ¬ Enrolls s id (registers j secret token)
    → IsIdle id s
    → Keeps id s (register j secret token s).1
register-Keeps j secret token s id e h =
    let P : String × String → Type 0 = λ r. r.0 ≢ id in
    let (state, configs, hashing) = register-hashing j secret token s in
    let same : hash_of (register j secret token s).1 id ≡ hash_of s id =
      ap (λ d. state_hash (get d id)) state in
    elim hashing [
      | inl before ↦ record {
        same_hash = same;
        idle = subst (All P) (sym before) h;
        same_configs = configs;
      }
      | inr (longer, open_, token_fits) ↦
          let other : j ≢ id = λ eq. e (
            eq,
            subst (λ k. hash_of s k ≡ none) eq open_,
            subst (λ k. has_token (enrollment_token s k) token ≡ true) eq token_fits,
          ) in
          record {
            same_hash = same;
            idle = subst (All P) (sym longer) (All-append P s.hashing _ h (other, tt));
            same_configs = configs;
          }
    ]

warned-Keeps :
    (j : String) (s : DeviceStore) (id : String)
    → IsIdle id s
    → Keeps id s (mark_open_enrollment_warned j s).1
unfolding mark_open_enrollment_warned
warned-Keeps j s id h = elim (Option-cases (get s.state j)) [
  | inl unknown ↦
      rw (unknown, mark_open_enrollment_warned)
        (record { same_hash = refl; idle = h; same_configs = refl })
  | inr (d, known) ↦
      rw (known, mark_open_enrollment_warned) ground
        (arith, get-put s.state j id (record d { open_enrollment_warned = true }), eq_iff j id)
]

-- A call that does not enroll the device leaves its secret as it was.
pub step-Keeps :
    (scrypt : Scrypt) (call : Call) (s : DeviceStore) (id : String)
    → ¬ Enrolls s id call
    → IsIdle id s
    → Keeps id s (step scrypt call s)
unfolding step set_online set_offline touch
step-Keeps scrypt (registers j secret token) s id e h = register-Keeps j secret token s id e h
step-Keeps scrypt (registration_ends place salt now) s id e h =
    finish_register-Keeps scrypt place salt now s id h
step-Keeps scrypt (goes_online j c now) s id e h =
    update-Keeps j id (connected c now) s (λ d. refl) h
step-Keeps scrypt (goes_offline c now) s id e h = record {
  same_hash = release-hash c now s.state id;
  idle = h;
  same_configs = refl;
}
step-Keeps scrypt (touches j now) s id e h = update-Keeps j id (touched now) s (λ d. ground arith) h
step-Keeps scrypt (warns j) s id e h = warned-Keeps j s id h
