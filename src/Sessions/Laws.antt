-- ===== src/Sessions/Laws.antt =====
-- Expiry, and what holds of the registry after any history of calls.
use termlink.Prelude.{
  ℕ, ◌<◌, String, eq_iff, ◌≡◌, ◌≢◌, refl, true, [], ◌∷◌, none, some, arith, truthy, ◌===◌, All,
  Option-cases, Bool-cases, inl, inr,
}
use termlink.Prelude.Dict.{
  Dict, get, remove, get-remove, get-put_self, Distinct, get-entries, absent-All, purge, unless,
  get-purge,
}
use termlink.Sessions.{
  Session, SessionRegistry, empty, create, remove_by_session_id, remove_by_connection_id,
  get_by_connection_id, is_due, expire_one, expire_all, expire_due, clear,
}
use termlink.Sessions.Invariant.{
  IsConsistent, added, empty-IsConsistent, removed-IsConsistent, create-IsConsistent,
  remove_by_session_id-IsConsistent, remove_by_connection_id-IsConsistent,
}

-- Entries with other keys are looked up alike after a removal.
kept :
    (d todo : Dict Session) (k : String)
    → All (λ e. e.0 ≢ k) todo
    → All (λ e. get d e.0 ≡ some e.1) todo
    → All (λ e. get (remove d k) e.0 ≡ some e.1) todo
kept d [] k a b = tt
kept d ((j, s) ∷ todo) k a b = (ground (arith, get-remove d k j, eq_iff k j), kept d todo k a.1 b.1)

module _ (max_age now : ℕ) where
  expire_all-IsConsistent :
      (todo : Dict Session) (r : SessionRegistry)
      → Distinct todo
      → All (λ e. get r.sessions e.0 ≡ some e.1) todo
      → IsConsistent r
      → IsConsistent (expire_all max_age now todo r)
  unfolding expire_all expire_one
  expire_all-IsConsistent [] r d a v = v
  expire_all-IsConsistent ((id, s) ∷ todo) r d a v = elim (Bool-cases (is_due max_age now s)) [
    | inl old ↦
        rw (old, expire_all, expire_one)
          (expire_all-IsConsistent todo _ d.1 (kept r.sessions todo id (absent-All todo id d.0) a.1)
            (removed-IsConsistent r id s v a.0))
    | inr young ↦ rw (young, expire_all, expire_one) (expire_all-IsConsistent todo r d.1 a.1 v)
  ]

  expire_all-sessions :
      (todo : Dict Session) (r : SessionRegistry)
      → (expire_all max_age now todo r).sessions ≡ purge (is_due max_age now) todo r.sessions
  unfolding expire_all expire_one purge
  expire_all-sessions [] r = refl
  expire_all-sessions ((id, s) ∷ todo) r =
      ground (arith, expire_all-sessions todo (expire_one max_age now id s r))

  pub expire_due-IsConsistent :
      (r : SessionRegistry) → IsConsistent r → IsConsistent (expire_due max_age now r).0
  unfolding expire_due
  expire_due-IsConsistent r v =
      let swept =
        expire_all-IsConsistent r.sessions r v.distinct (get-entries r.sessions v.distinct) v in
      elim (Bool-cases (max_age === 0)) [
        | inl off ↦ rw (off, expire_due) v
        | inr on ↦ rw (on, expire_due) swept
      ]

  -- With a positive maximum age, exactly the sessions that have reached it are taken out; every
  -- other session is looked up as before.
  pub get-expire_due :
      (r : SessionRegistry) (id : String)
      → IsConsistent r
      → 0 < max_age
      → get (expire_due max_age now r).0.sessions id
        ≡ unless (is_due max_age now) (get r.sessions id)
  unfolding expire_due
  get-expire_due r id v h = ground (
    arith,
    expire_all-sessions r.sessions r,
    get-purge (is_due max_age now) r.sessions id v.distinct,
  )

-- What a caller may do to the registry. A new id is one that is not in use, and not empty: the
-- program draws 16 random bytes.
pub data Step : SessionRegistry → SessionRegistry → Type 0 where
  creates :
      (id c : String) (now : ℕ) (r : SessionRegistry)
      → get r.sessions id ≡ none
      → truthy id ≡ true
      → Step r (create id c now r).0
  removes_session : (id : String) (r : SessionRegistry) → Step r (remove_by_session_id id r)
  removes_connection : (c : String) (r : SessionRegistry) → Step r (remove_by_connection_id c r)
  expires : (max_age now : ℕ) (r : SessionRegistry) → Step r (expire_due max_age now r).0
  clears : (r : SessionRegistry) → Step r (clear r)

pub data Reach : SessionRegistry → Type 0 where
  start : Reach empty
  next : {r q : SessionRegistry} → Reach r → Step r q → Reach q

Step-IsConsistent : {r q : SessionRegistry} → Step r q → IsConsistent r → IsConsistent q
unfolding clear
Step-IsConsistent (creates id c now r fresh named) v = create-IsConsistent id c now r v fresh named
Step-IsConsistent (removes_session id r) v = remove_by_session_id-IsConsistent id r v
Step-IsConsistent (removes_connection c r) v = remove_by_connection_id-IsConsistent c r v
Step-IsConsistent (expires max_age now r) v = expire_due-IsConsistent max_age now r v
Step-IsConsistent (clears r) v = empty-IsConsistent

-- After any history of calls the two maps are inverse to each other.
pub Reach-IsConsistent : {r : SessionRegistry} → Reach r → IsConsistent r
Reach-IsConsistent start = empty-IsConsistent
Reach-IsConsistent (next before step) = Step-IsConsistent step (Reach-IsConsistent before)

-- After any history of calls two sessions of one connection are one and the same, and the lookup
-- by connection finds it.
pub Reach-one_session :
    (r : SessionRegistry) (id j : String) (s t : Session)
    → Reach r
    → get r.sessions id ≡ some s
    → get r.sessions j ≡ some t
    → t.connection_id ≡ s.connection_id
    → (j ≡ id) × (get_by_connection_id t.connection_id r ≡ some s)
unfolding get_by_connection_id
Reach-one_session r id j s t reached h e c =
    let v = Reach-IsConsistent reached in
    let (same, mapped) = v.filed id s h in
    let (named, u, found, own) = v.owned s.connection_id id mapped in
    ground (arith, v.filed j t e, mapped, c, named, h)

-- A second `create` for a connection that has a session returns that session and changes nothing.
pub create_twice :
    (id c id' : String) (now now' : ℕ) (r : SessionRegistry)
    → Reach r
    → get r.sessions id ≡ none
    → truthy id ≡ true
    → create id' c now' (create id c now r).0 ≡ create id c now r
unfolding create
create_twice id c id' now now' r reached fresh named =
    elim (Option-cases (get r.connection_to_session c)) [
      | inl free ↦ ground (
        arith,
        free,
        get-put_self r.connection_to_session c id,
        get-put_self r.sessions id (added id c now r),
      )
      | inr (existing, held) ↦
          ground (arith, held, (Reach-IsConsistent reached).owned c existing held)
    ]
