-- ===== src/HttpSessions/Eviction.antt =====
-- The eviction of browser sessions: whom it forgets.
use termlink.Prelude.{
  ℕ, zero, suc, ◌≤◌, ◌<◌, ◌≡◌, refl, sym, ap, ◌∙◌, inl, inr, String, ◌==◌, true, false, List, [],
  ◌∷◌, none, some, ltb, All, arith, eq_iff, ltb→lt, if◌then◌else◌, length, take, includes,
  Bool-cases,
}
use termlink.Prelude.Dict.{
  get, remove, get-remove, Distinct, remove-Distinct, length-remove-le, get-entries,
}
use termlink.HttpSessions.{
  HttpSession, HttpSessionStore, by_last_seen, values, delete_all, oldest, evict,
}
use termlink.HttpSessions.Order.{
  Has, tokens, IsOrdered, by_last_seen-All, by_last_seen-IsOrdered, by_last_seen-Has,
  length-by_last_seen,
}

-- No token stands twice, and each session stands under its own token.
pub record IsKeyed (d : HttpSessionStore) : Type 0 where
  pub distinct : Distinct d
  pub own : (k : String) (s : HttpSession) → get d k ≡ some s → s.token ≡ k

get-delete_all :
    (xs : List HttpSession) (d : HttpSessionStore) (k : String)
    → get (delete_all xs d) k ≡ (if includes (tokens xs) k then none else get d k)
unfolding delete_all
get-delete_all [] d k = refl
get-delete_all (x ∷ xs) d k = ground (
  arith,
  get-delete_all xs (remove d x.token) k,
  get-remove d x.token k,
  eq_iff x.token k,
  eq_iff k x.token,
)

delete_all-Distinct :
    (xs : List HttpSession) (d : HttpSessionStore) → Distinct d → Distinct (delete_all xs d)
unfolding delete_all
delete_all-Distinct [] d h = h
delete_all-Distinct (x ∷ xs) d h =
    delete_all-Distinct xs (remove d x.token) (remove-Distinct d x.token h)

length-delete_all-le :
    (xs : List HttpSession) (d : HttpSessionStore) → length (delete_all xs d) ≤ length d
unfolding delete_all
length-delete_all-le [] d = omega arith
length-delete_all-le (x ∷ xs) d =
    omega (arith, length-delete_all-le xs (remove d x.token), length-remove-le d x.token)

length-remove-lt :
    (d : HttpSessionStore) (k : String) (s : HttpSession)
    → get d k ≡ some s
    → length (remove d k) < length d
unfolding get remove
length-remove-lt [] k s h = cc
length-remove-lt ((j, w) ∷ d) k s h = ground (arith, length-remove-lt d k s, length-remove-le d k)

-- What is known of each listed session.
abbrev IsKept : HttpSessionStore → HttpSession → Type 0
IsKept d s = get d s.token ≡ some s

values-IsKept :
    (d todo : HttpSessionStore)
    → ((k : String) (s : HttpSession) → get d k ≡ some s → s.token ≡ k)
    → All (λ e. get d e.0 ≡ some e.1) todo
    → All (IsKept d) (values todo)
values-IsKept d [] own all = tt
values-IsKept d ((k, s) ∷ todo) own all =
    let same = own k s all.0 in (ap (get d) same ∙ all.0, values-IsKept d todo own all.1)

get-Has :
    (d : HttpSessionStore) (k : String) (s : HttpSession) → get d k ≡ some s → Has s (values d)
unfolding get
get-Has [] k s h = cc
get-Has ((j, w) ∷ d) k s h = elim (Bool-cases (j == k)) [
  | inl here ↦ inl (ground (arith, here))
  | inr there ↦ inr (get-Has d k s (ground (arith, there)))
]

All-Has :
    (a : ℕ) (s : HttpSession) (xs : List HttpSession)
    → All (λ y. a ≤ y.last_seen) xs
    → Has s xs
    → a ≤ s.last_seen
All-Has a s [] all h = elim h [ ]
All-Has a s (x ∷ xs) all (inl here) = ground (arith, all.0)
All-Has a s (x ∷ xs) all (inr there) = All-Has a s xs all.1 there

-- Along an ordered list, one that is cut off by its front is older than one that is not.
front-le :
    (d : HttpSessionStore) (n : ℕ) (xs : List HttpSession) (old young : HttpSession)
    → IsOrdered xs
    → All (IsKept d) xs
    → IsKept d old
    → Has young xs
    → includes (tokens (take n xs)) old.token ≡ true
    → includes (tokens (take n xs)) young.token ≡ false
    → old.last_seen ≤ young.last_seen
front-le d zero xs old young o k e h gone stays = cc
front-le d (suc n) [] old young o k e h gone stays = elim h [ ]
front-le d (suc n) (x ∷ xs) old young o k e (inl here) gone stays =
    absurd (ground (arith, eq_iff young.token x.token))
front-le d (suc n) (x ∷ xs) old young o k e (inr there) gone stays =
    elim (Bool-cases (old.token == x.token)) [
      | inl same ↦
          let token : old.token ≡ x.token = (eq_iff old.token x.token).0 same in
          let twice : some old ≡ some x = sym e ∙ ap (get d) token ∙ k.0 in
          let known : old ≡ x = cc in rw known (All-Has x.last_seen young xs o.0 there)
      | inr other ↦ front-le d n xs old young o.1 k.1 e there (ground (arith, other)) (ground arith)
    ]

sorted-IsKept : (d : HttpSessionStore) → IsKeyed d → All (IsKept d) (by_last_seen (values d))
sorted-IsKept d k =
    by_last_seen-All (IsKept d) (values d) (values-IsKept d d k.own (get-entries d k.distinct))

evict-Distinct : (max n : ℕ) (d : HttpSessionStore) → Distinct d → Distinct (evict max n d)
unfolding evict
evict-Distinct max n d h = ground (arith, delete_all-Distinct (oldest n d) d h)

-- What an eviction does to any token: it is untouched, or its session is among the oldest.
get-evict :
    (max n : ℕ) (d : HttpSessionStore) (k : String)
    → get (evict max n d) k ≡ (
        if ltb (length d) max
        then get d k
        else if includes (tokens (oldest n d)) k
        then none
        else get d k)
unfolding evict
get-evict max n d k = ground (arith, get-delete_all (oldest n d) d k)

-- An eviction removes the sessions that were used least recently: of a session that it removed and
-- one that it kept, the first was not seen after the second, whatever the limit of the store and the
-- number of sessions to remove.
pub evicts_oldest :
    (max n : ℕ) (d : HttpSessionStore) (gone kept : String) (old young : HttpSession)
    → IsKeyed d
    → get d gone ≡ some old
    → get d kept ≡ some young
    → get (evict max n d) gone ≡ none
    → get (evict max n d) kept ≡ some young
    → old.last_seen ≤ young.last_seen
evicts_oldest max n d gone kept old young k was is lost stays =
    let sorted = by_last_seen (values d) in
    let own_old = k.own gone old was in
    let own_young = k.own kept young is in
    let e1 = get-evict max n d gone in
    let e2 = get-evict max n d kept in
    front-le d n sorted old young (by_last_seen-IsOrdered (values d)) (sorted-IsKept d k)
      (ap (get d) own_old ∙ was) (by_last_seen-Has young (values d) (get-Has d kept young is))
      (ap (includes (tokens (oldest n d))) own_old ∙ ground (arith, e1))
      (ap (includes (tokens (oldest n d))) own_young ∙ ground (arith, e1, e2))

pub evict-IsKeyed : (max n : ℕ) (d : HttpSessionStore) → IsKeyed d → IsKeyed (evict max n d)
evict-IsKeyed max n d k = record {
  distinct = evict-Distinct max n d k.distinct;
  own = λ j s h. k.own j s (ground (arith, get-evict max n d j));
}

length-values : (d : HttpSessionStore) → length (values d) ≡ length d
length-values [] = refl
length-values (e ∷ d) = omega (arith, length-values d)

length-delete_all-lt :
    (n : ℕ) (xs : List HttpSession) (d : HttpSessionStore)
    → All (IsKept d) xs
    → 0 < length xs
    → length (delete_all (take (suc n) xs) d) < length d
unfolding delete_all
length-delete_all-lt n [] d k h = absurd (omega arith)
length-delete_all-lt n (x ∷ xs) d k h =
    omega
      (arith, length-delete_all-le (take n xs) (remove d x.token), length-remove-lt d x.token x k.0)

pub length-evict-lt :
    (max n : ℕ) (d : HttpSessionStore)
    → IsKeyed d
    → 0 < max
    → 0 < n
    → length d ≤ max
    → length (evict max n d) < max
unfolding evict
length-evict-lt max zero d k pos some_ le = absurd (omega arith)
length-evict-lt max (suc n) d k pos some_ le = elim (Bool-cases (ltb (length d) max)) [
  | inl fits ↦ rw fits (ltb→lt (length d) max fits)
  | inr full ↦
      let least : 0 < length (by_last_seen (values d)) =
        ground (arith, length-by_last_seen (values d), length-values d) in
      let fewer = length-delete_all-lt n (by_last_seen (values d)) d (sorted-IsKept d k) least in
      rw full (omega (arith, fewer))
]
