-- ===== src/HttpSessions/Store.antt =====
-- The store of browser sessions over its whole life: its size, and its tokens.
use termlink.Prelude.{
  ℕ, ◌≤◌, ◌≡◌, refl, inl, inr, String, List, [], ◌∷◌, some, arith, eq_iff, length, Option-cases,
}
use termlink.Prelude.Dict.{
  get, put, remove, get-put, get-remove, Distinct, put-Distinct, remove-Distinct, length-put-le,
  length-remove-le,
}
use termlink.HttpSessions.{
  LoginMethod, HttpSession, HttpSessionStore, max_sessions, to_remove, evict, evict_if_oversized,
  new_session, create, seen, verify, delete, Call, creates, verifies, deletes, step, run,
}
use termlink.HttpSessions.Eviction.{IsKeyed, evict-IsKeyed, length-evict-lt}

put-IsKeyed :
    (d : HttpSessionStore) (token : String) (s : HttpSession)
    → IsKeyed d
    → s.token ≡ token
    → IsKeyed (put d token s)
put-IsKeyed d token s k h = record {
  distinct = put-Distinct d token s k.distinct;
  own = λ j u e. ground (arith, get-put d token j s, eq_iff token j, k.own j u);
}

-- A store that can have come about.
pub record IsStore (d : HttpSessionStore) : Type 0 where
  pub keyed : IsKeyed d
  pub small : length d ≤ max_sessions

remove-IsStore : (d : HttpSessionStore) (token : String) → IsStore d → IsStore (remove d token)
remove-IsStore d token s = record {
  keyed = record {
    distinct = remove-Distinct d token s.keyed.distinct;
    own = λ j u e. s.keyed.own j u (ground (arith, get-remove d token j));
  };
  small = omega (arith, s.small, length-remove-le d token);
}

create-IsStore :
    (token username : String) (method : LoginMethod) (now : ℕ) (d : HttpSessionStore)
    → IsStore d
    → IsStore (create token username method now d).1
unfolding create evict_if_oversized
create-IsStore token username method now d s =
    let kept = evict max_sessions to_remove d in
    let session = new_session token username method now in
    let room =
      length-evict-lt max_sessions to_remove d s.keyed (omega arith) (omega arith) s.small in
    record {
      keyed = put-IsKeyed kept token session (evict-IsKeyed max_sessions to_remove d s.keyed) refl;
      small = omega (arith, room, length-put-le kept token session);
    }

length-put_known :
    (d : HttpSessionStore) (k : String) (s s' : HttpSession)
    → get d k ≡ some s
    → length (put d k s') ≡ length d
unfolding get put
length-put_known [] k s s' h = cc
length-put_known ((j, w) ∷ d) k s s' h = ground (arith, length-put_known d k s s')

verify-IsStore :
    (token : String) (now : ℕ) (d : HttpSessionStore) → IsStore d → IsStore (verify token now d).1
unfolding verify
verify-IsStore token now d s = elim (Option-cases (get d token)) [
  | inl unknown ↦ rw (unknown, verify) s
  | inr (u, known) ↦
      rw (known, verify)
        (record {
          keyed = put-IsKeyed d token (seen now u) s.keyed (s.keyed.own token u known);
          small = omega (arith, length-put_known d token u (seen now u) known, s.small);
        })
]

run-IsStore : (calls : List Call) (d : HttpSessionStore) → IsStore d → IsStore (run calls d)
unfolding run step delete
run-IsStore [] d s = s
run-IsStore (creates token username method now ∷ calls) d s =
    run-IsStore calls _ (create-IsStore token username method now d s)
run-IsStore (verifies token now ∷ calls) d s = run-IsStore calls _ (verify-IsStore token now d s)
run-IsStore (deletes token ∷ calls) d s = run-IsStore calls _ (remove-IsStore d token s)

none_known : (k : String) (s : HttpSession) → get [] k ≡ some s → ⊥
unfolding get
none_known k s e = cc

pub run_from_empty : (calls : List Call) → IsStore (run calls [])
run_from_empty calls = run-IsStore calls [] (record {
  keyed = record { distinct = tt; own = λ k s e. absurd (none_known k s e) };
  small = omega arith;
})

-- After any history of logins, requests and logouts the store holds no more than its limit of
-- sessions, one for each token.
run_bounded : (calls : List Call) → (length (run calls []) ≤ max_sessions) × Distinct (run calls [])
run_bounded calls = let s = run_from_empty calls in (s.small, s.keyed.distinct)
