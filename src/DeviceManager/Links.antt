-- ===== src/DeviceManager/Links.antt =====
-- The manager's links, and what the end of one does to the others.
use termlink.Prelude.{
  ℕ, zero, suc, ◌≡◌, ◌≢◌, refl, sym, ap, ◌∙◌, String, List, [], ◌∷◌, ◌++◌, Option, none, some,
  arith, ◌⊎◌, inl, inr, Option-cases, Bool-cases, get_elem?, ◌===◌, eq_iff,
}
use termlink.Prelude.Dict.{get, get-remove}
use termlink.AgentLink.{ready, AgentLink, terminate_link, teardown}
use termlink.AgentLink.Calm.{closed_in}
use termlink.DeviceManager.{DeviceManager, set_at, lend, take_back, on_link_closed, end_link}

module _ {ℓ} {A : Type ℓ} where
  pub set_at_self :
      (xs : List A) (n : ℕ) (a x : A)
      → get_elem? xs n ≡ some a
      → get_elem? (set_at n x xs) n ≡ some x
  unfolding set_at
  set_at_self [] n a x h = cc
  set_at_self (y ∷ xs) zero a x h = refl
  set_at_self (y ∷ xs) (suc n) a x h = set_at_self xs n a x h

  pub set_at_other :
      (xs : List A) (n k : ℕ) (x : A) → k ≢ n → get_elem? (set_at n x xs) k ≡ get_elem? xs k
  unfolding set_at
  set_at_other [] n k x ne = refl
  set_at_other (y ∷ xs) zero zero x ne = absurd (ne refl)
  set_at_other (y ∷ xs) zero (suc k) x ne = refl
  set_at_other (y ∷ xs) (suc n) zero x ne = refl
  set_at_other (y ∷ xs) (suc n) (suc k) x ne = set_at_other xs n k x (λ e. ne (ap suc e))

pub some_injective : {A : Type 0} {a b : A} → some a ≡ some b → a ≡ b
some_injective e = cc

pub same_or_not : (k n : ℕ) → (k ≡ n) ⊎ (k ≢ n)
same_or_not k n = elim (Bool-cases (k === n)) [
  | inl same ↦ inl (ground (arith, same))
  | inr other ↦ inr (ground (arith, other))
]

-- The manager behind the end of the link `n`: the other links and their devices are as before.
pub record Ends (n : ℕ) (m m' : DeviceManager) : Type 0 where
  pub others : (k : ℕ) → k ≢ n → get_elem? m'.links k ≡ get_elem? m.links k
  pub shut : (l : AgentLink) → get_elem? m'.links n ≡ some l → l.state ≢ ready
  pub kept :
      (id : String) (k : ℕ)
      → k ≢ n
      → get m.links_by_device id ≡ some k
      → get m'.links_by_device id ≡ some k

on_link_closed-kept :
    (n : ℕ) (device : Option String) (m : DeviceManager) (j : String) (k : ℕ)
    → k ≢ n
    → get m.links_by_device j ≡ some k
    → get (on_link_closed n device m).links_by_device j ≡ some k
unfolding on_link_closed
on_link_closed-kept n none m j k ne h = h
on_link_closed-kept n (some d) m j k ne h = elim (Option-cases (get m.links_by_device d)) [
  | inl unknown ↦ rw unknown (ground (arith, h))
  | inr (q, found) ↦
      rw found (ground (arith, h, ne, get-remove m.links_by_device d j, eq_iff d j, found))
]

closed-shut :
    (reason : Option String) (now : ℕ) (l : AgentLink) → (terminate_link reason now l).state ≢ ready
unfolding terminate_link teardown
closed-shut reason now l = ground arith

on_link_closed-links :
    (n : ℕ) (device : Option String) (m : DeviceManager)
    → (on_link_closed n device m).links ≡ m.links
unfolding on_link_closed
on_link_closed-links n none m = refl
on_link_closed-links n (some d) m = refl

-- The link `n` is put back as one that is not ready.
pub take_back-Ends :
    (n : ℕ) (l l' : AgentLink) (m : DeviceManager)
    → get_elem? m.links n ≡ some l
    → l'.state ≢ ready
    → Ends n m (take_back n l l' m)
take_back-Ends n l l' m found ended = record {
  others = λ k ne. set_at_other m.links n k _ ne;
  shut = λ x e.
      let same : some (record l' { out = l'.out ++ l.out }) ≡ some x =
        sym (set_at_self m.links n l _ found) ∙ e in
      λ r. ended (ap (λ y. y.state) (some_injective same) ∙ r);
  kept = λ id k ne h. h;
}

pub on_link_closed-Ends :
    (n : ℕ) (device : Option String) (m m' : DeviceManager)
    → Ends n m m'
    → Ends n m (on_link_closed n device m')
on_link_closed-Ends n device m m' e =
    let same = on_link_closed-links n device m' in
    record {
      others = λ k ne. ap (λ links. get_elem? links k) same ∙ e.others k ne;
      shut = λ x h. e.shut x (sym (ap (λ links. get_elem? links n) same) ∙ h);
      kept = λ id k ne h. on_link_closed-kept n device m' id k ne (e.kept id k ne h);
    }

pub end_link-Ends :
    (n : ℕ) (reason : String) (now : ℕ) (m : DeviceManager) → Ends n m (end_link n reason now m)
unfolding end_link
end_link-Ends n reason now m = elim (Option-cases (get_elem? m.links n)) [
  | inl gone ↦
      rw (gone, end_link)
        (record { others = λ k ne. refl; shut = λ x e. absurd cc; kept = λ id k ne h. h })
  | inr (l, found) ↦
      let l' = terminate_link (some reason) now (lend m l) in
      let back = take_back-Ends n l l' m found (closed-shut (some reason) now (lend m l)) in
      elim (Bool-cases (closed_in l'.out)) [
        | inl told ↦ rw (found, told, end_link) (on_link_closed-Ends n l'.device_id m _ back)
        | inr untold ↦ rw (found, untold, end_link) back
      ]
]
