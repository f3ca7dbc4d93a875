-- ===== src/Sessions/Invariant.antt =====
-- The two maps of the registry, and how its calls keep them inverse to each other.
use termlink.Prelude.{
  ℕ, String, ◌==◌, eq_iff, ◌≡◌, true, none, some, arith, truthy, Option-cases, Bool-cases, inl, inr,
}
use termlink.Prelude.Dict.{
  get, remove, get-put, get-remove, Distinct, put-Distinct, remove-Distinct,
}
use termlink.Sessions.{
  Session, SessionRegistry, empty, add, create, remove_by_session_id, remove_by_connection_id,
}

-- Every session is filed under its id and is the one that its connection maps to; and a
-- connection maps only to a session of its own, under an id that is not empty.
pub record IsConsistent (r : SessionRegistry) : Type 0 where
  pub filed :
      (id : String) (s : Session)
      → get r.sessions id ≡ some s
      → (s.id ≡ id) × (get r.connection_to_session s.connection_id ≡ some id)
  pub owned :
      (c id : String)
      → get r.connection_to_session c ≡ some id
      → (truthy id ≡ true) × (s : Session) × (get r.sessions id ≡ some s) × (s.connection_id ≡ c)
  pub distinct : Distinct r.sessions

pub empty-IsConsistent : IsConsistent empty
unfolding get
empty-IsConsistent = record { filed = λ id s h. cc; owned = λ c id h. cc; distinct = tt }

-- Taking a session out together with its connection.
pub removed-IsConsistent :
    (r : SessionRegistry) (id : String) (s : Session)
    → IsConsistent r
    → get r.sessions id ≡ some s
    → IsConsistent (record {
      sessions = remove r.sessions id;
      connection_to_session = remove r.connection_to_session s.connection_id;
    })
removed-IsConsistent r id s v h = record {
  filed = λ j t e. ground (
    arith,
    get-remove r.sessions id j,
    v.filed j t,
    v.filed id s h,
    get-remove r.connection_to_session s.connection_id t.connection_id,
    eq_iff id j,
    eq_iff s.connection_id t.connection_id,
  );
  owned = λ c j e.
      let before : get r.connection_to_session c ≡ some j =
        ground (arith, get-remove r.connection_to_session s.connection_id c) in
      let (named, t, found, own) = v.owned c j before in
      (
        named,
        t,
        ground (
          arith,
          get-remove r.sessions id j,
          get-remove r.connection_to_session s.connection_id c,
          eq_iff id j,
          eq_iff s.connection_id c,
        ),
        own,
      );
  distinct = remove-Distinct r.sessions id v.distinct;
}

module _ (id c : String) (now : ℕ) (r : SessionRegistry) where
  abbrev pub added : Session
  added = record { id = id; connection_id = c; created_at = now }

  add-IsConsistent :
      IsConsistent r
      → get r.sessions id ≡ none
      → get r.connection_to_session c ≡ none
      → truthy id ≡ true
      → IsConsistent (add id c now r).0
  unfolding add
  add-IsConsistent v fresh free named = record {
    filed = λ j t e. ground (
      arith,
      get-put r.sessions id j added,
      v.filed j t,
      get-put r.connection_to_session c t.connection_id id,
      eq_iff id j,
      eq_iff c t.connection_id,
    );
    owned = λ d j e. elim (Bool-cases (c == d)) [
      | inl same ↦ (
        ground (arith, get-put r.connection_to_session c d id),
        added,
        ground (
          arith,
          get-put r.connection_to_session c d id,
          get-put r.sessions id j added,
          eq_iff id j,
        ),
        (eq_iff c d).0 same,
      )
      | inr other ↦
          let before : get r.connection_to_session d ≡ some j =
            ground (arith, get-put r.connection_to_session c d id) in
          let (known, t, found, own) = v.owned d j before in
          (known, t, ground (arith, get-put r.sessions id j added, eq_iff id j), own)
    ];
    distinct = put-Distinct r.sessions id added v.distinct;
  }

  -- A new session, under an id that is new and not empty, keeps the registry consistent.
  pub create-IsConsistent :
      IsConsistent r
      → get r.sessions id ≡ none
      → truthy id ≡ true
      → IsConsistent (create id c now r).0
  unfolding create
  create-IsConsistent v fresh named = elim (Option-cases (get r.connection_to_session c)) [
    | inl free ↦ rw (free, create) (add-IsConsistent v fresh free named)
    | inr (existing, held) ↦ rw (held, create) (rw ((v.owned c existing held).0) v)
  ]

pub remove_by_session_id-IsConsistent :
    (id : String) (r : SessionRegistry) → IsConsistent r → IsConsistent (remove_by_session_id id r)
unfolding remove_by_session_id
remove_by_session_id-IsConsistent id r v = elim (Option-cases (get r.sessions id)) [
  | inl absent ↦ rw (absent, remove_by_session_id) v
  | inr (s, held) ↦ rw (held, remove_by_session_id) (removed-IsConsistent r id s v held)
]

pub remove_by_connection_id-IsConsistent :
    (c : String) (r : SessionRegistry) → IsConsistent r → IsConsistent (remove_by_connection_id c r)
unfolding remove_by_connection_id
remove_by_connection_id-IsConsistent c r v = elim (Option-cases (get r.connection_to_session c)) [
  | inl absent ↦ rw (absent, remove_by_connection_id) v
  | inr (id, held) ↦
      let (named, s, found, own) = v.owned c id held in
      rw (held, remove_by_connection_id) (rw (named, ← own) (removed-IsConsistent r id s v found))
]
