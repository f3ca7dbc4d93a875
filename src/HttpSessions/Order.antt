-- ===== src/HttpSessions/Order.antt =====
-- The order in which sessions are evicted.
use termlink.Prelude.{
  ℕ, suc, ◌≤◌, ◌≡◌, refl, ◌⊎◌, inl, inr, String, List, [], ◌∷◌, map, leb, All, arith, length,
  Bool-cases,
}
use termlink.HttpSessions.{HttpSession, insert_by_age, by_last_seen}

abbrev pub Has : HttpSession → List HttpSession → Type 0
Has s [] = ⊥
Has s (x ∷ xs) = (s ≡ x) ⊎ Has s xs

abbrev pub tokens : List HttpSession → List String
tokens = map (λ s. s.token)

-- Each before all that were seen later.
abbrev pub IsOrdered : List HttpSession → Type 0
IsOrdered [] = Unit
IsOrdered (x ∷ xs) = All (λ y. x.last_seen ≤ y.last_seen) xs × IsOrdered xs

insert-All {κ} :
    (P : HttpSession → Type κ) (x : HttpSession) (ys : List HttpSession)
    → P x
    → All P ys
    → All P (insert_by_age x ys)
unfolding insert_by_age
insert-All P x [] p all = (p, tt)
insert-All P x (y ∷ ys) p all = elim (Bool-cases (leb x.last_seen y.last_seen)) [
  | inl before ↦ rw before (p, all)
  | inr behind ↦ rw behind (all.0, insert-All P x ys p all.1)
]

pub by_last_seen-All {κ} :
    (P : HttpSession → Type κ) (xs : List HttpSession) → All P xs → All P (by_last_seen xs)
unfolding by_last_seen
by_last_seen-All P [] all = tt
by_last_seen-All P (x ∷ xs) all =
    insert-All P x (by_last_seen xs) all.0 (by_last_seen-All P xs all.1)

All-le :
    (a b : ℕ) (ys : List HttpSession)
    → a ≤ b
    → All (λ y. b ≤ y.last_seen) ys
    → All (λ y. a ≤ y.last_seen) ys
All-le a b [] h all = tt
All-le a b (y ∷ ys) h all = (omega (arith, all.0), All-le a b ys h all.1)

insert-IsOrdered :
    (x : HttpSession) (ys : List HttpSession) → IsOrdered ys → IsOrdered (insert_by_age x ys)
unfolding insert_by_age
insert-IsOrdered x [] h = (tt, tt)
insert-IsOrdered x (y ∷ ys) h = elim (Bool-cases (leb x.last_seen y.last_seen)) [
  | inl before ↦
      let le : x.last_seen ≤ y.last_seen = ground arith in
      rw before ((le, All-le x.last_seen y.last_seen ys le h.0), h)
  | inr behind ↦ rw behind (
    insert-All (λ z. y.last_seen ≤ z.last_seen) x ys (ground arith) h.0,
    insert-IsOrdered x ys h.1,
  )
]

pub by_last_seen-IsOrdered : (xs : List HttpSession) → IsOrdered (by_last_seen xs)
unfolding by_last_seen
by_last_seen-IsOrdered [] = tt
by_last_seen-IsOrdered (x ∷ xs) = insert-IsOrdered x (by_last_seen xs) (by_last_seen-IsOrdered xs)

insert-Has :
    (s x : HttpSession) (ys : List HttpSession) → Has s (x ∷ ys) → Has s (insert_by_age x ys)
unfolding insert_by_age
insert-Has s x [] h = h
insert-Has s x (y ∷ ys) h = elim (Bool-cases (leb x.last_seen y.last_seen)) [
  | inl before ↦ rw before h
  | inr behind ↦ rw behind (elim h [
    | inl here ↦ inr (insert-Has s x ys (inl here))
    | inr there ↦ elim there [
      | inl next ↦ inl next
      | inr further ↦ inr (insert-Has s x ys (inr further))
    ]
  ])
]

pub by_last_seen-Has :
    (s : HttpSession) (xs : List HttpSession) → Has s xs → Has s (by_last_seen xs)
unfolding by_last_seen
by_last_seen-Has s [] h = elim h [ ]
by_last_seen-Has s (x ∷ xs) (inl here) = insert-Has s x (by_last_seen xs) (inl here)
by_last_seen-Has s (x ∷ xs) (inr there) =
    insert-Has s x (by_last_seen xs) (inr (by_last_seen-Has s xs there))

length-insert :
    (x : HttpSession) (ys : List HttpSession) → length (insert_by_age x ys) ≡ suc (length ys)
unfolding insert_by_age
length-insert x [] = refl
length-insert x (y ∷ ys) = ground (arith, length-insert x ys)

pub length-by_last_seen : (xs : List HttpSession) → length (by_last_seen xs) ≡ length xs
unfolding by_last_seen
length-by_last_seen [] = refl
length-by_last_seen (x ∷ xs) =
    omega (arith, length-insert x (by_last_seen xs), length-by_last_seen xs)
