-- ===== src/DeviceManager/Known.antt =====
-- Which link a device has, behind each call of the manager.
use termlink.Prelude.{
  ℕ, ◌≡◌, ◌≢◌, sym, ap, ◌∙◌, String, true, false, ◌++◌, some, arith, inl, inr, Option-cases,
  get_elem?, ◌===◌, eq_iff,
}
use termlink.Prelude.Dict.{get, put, get-put}
use termlink.AgentLink.{ready, AgentLink}
use termlink.DeviceManager.{DeviceManager, take_back, end_link, on_link_ready}
use termlink.DeviceManager.Links.{
  set_at_self, set_at_other, some_injective, same_or_not, Ends, end_link-Ends,
}

-- The manager knows, of each device, the link that is ready for it.
pub record IsKnown (m : DeviceManager) : Type 0 where
  pub known :
      (n : ℕ) (l : AgentLink) (id : String)
      → get_elem? m.links n ≡ some l
      → l.state ≡ ready
      → l.device_id ≡ some id
      → get m.links_by_device id ≡ some n

pub Ends-IsKnown : (n : ℕ) (m m' : DeviceManager) → IsKnown m → Ends n m m' → IsKnown m'
Ends-IsKnown n m m' i e = record {
  known = λ k x id h r d. elim (same_or_not k n) [
    | inl same ↦ absurd (e.shut x (ap (get_elem? m'.links) (sym same) ∙ h) r)
    | inr other ↦ e.kept id k other (i.known k x id (sym (e.others k other) ∙ h) r d)
  ];
}

-- The link `n` is put back behind a call that neither made it ready nor changed its device.
pub take_back-IsKnown :
    (n : ℕ) (l l' : AgentLink) (m : DeviceManager)
    → get_elem? m.links n ≡ some l
    → (l'.state ≡ ready → l.state ≡ ready)
    → l'.device_id ≡ l.device_id
    → IsKnown m
    → IsKnown (take_back n l l' m)
take_back-IsKnown n l l' m found stays device i = record {
  known = λ k x id h r d. elim (same_or_not k n) [
    | inl same ↦
        let here = some_injective (
          sym (set_at_self m.links n l (record l' { out = l'.out ++ l.out }) found)
          ∙ ap (get_elem? (take_back n l l' m).links) (sym same)
          ∙ h) in
        let was_ready = stays (ap (λ y. y.state) here ∙ r) in
        let was_device = sym device ∙ ap (λ y. y.device_id) here ∙ d in
        i.known n l id found was_ready was_device ∙ ap some (sym same)
    | inr other ↦ i.known k x id (sym (set_at_other m.links n k _ other) ∙ h) r d
  ];
}

-- The manager before it notes the link `n` as that of the device: every other link is known, and
-- none is ready for that device.
record Prepared (n : ℕ) (id : String) (m : DeviceManager) : Type 0 where
  at_link : (x : AgentLink) → get_elem? m.links n ≡ some x → x.device_id ≡ some id
  elsewhere :
      (k : ℕ) (x : AgentLink) (j : String)
      → k ≢ n
      → get_elem? m.links k ≡ some x
      → x.state ≡ ready
      → x.device_id ≡ some j
      → (get m.links_by_device j ≡ some k) × (j ≢ id)

put-IsKnown :
    (n : ℕ) (id : String) (m : DeviceManager)
    → Prepared n id m
    → IsKnown (record m { links_by_device = put m.links_by_device id n })
put-IsKnown n id m p = record {
  known = λ k x j h r d. elim (same_or_not k n) [
    | inl same ↦
        let named = some_injective (sym d ∙ p.at_link x (ap (get_elem? m.links) (sym same) ∙ h)) in
        get-put m.links_by_device id j n ∙ ground (arith, named, same, eq_iff id j)
    | inr other ↦
        let (there, ne) = p.elsewhere k x j other h r d in
        get-put m.links_by_device id j n ∙ ground (arith, there, ne, eq_iff id j)
  ];
}

-- The link has come back with its device named.
back-Prepared :
    (n : ℕ) (id : String) (l l' : AgentLink) (m : DeviceManager)
    → get_elem? m.links n ≡ some l
    → l'.device_id ≡ some id
    → IsKnown m
    → ((k : ℕ) → get m.links_by_device id ≡ some k → k ≡ n)
    → Prepared n id (take_back n l l' m)
back-Prepared n id l l' m found named i free = record {
  at_link = λ x h.
      let here =
        some_injective
          (sym (set_at_self m.links n l (record l' { out = l'.out ++ l.out }) found) ∙ h) in
      ap (λ y. y.device_id) (sym here) ∙ named;
  elsewhere = λ k x j ne h r d.
      let there = i.known k x j (sym (set_at_other m.links n k _ ne) ∙ h) r d in
      (there, λ e. ne (free k (ap (get m.links_by_device) (sym e) ∙ there)));
}

-- The same, where the link that the device had was ended meanwhile.
ended-Prepared :
    (n p : ℕ) (id : String) (l l' : AgentLink) (m m' : DeviceManager)
    → get_elem? m.links n ≡ some l
    → l'.device_id ≡ some id
    → IsKnown m
    → get m.links_by_device id ≡ some p
    → n ≢ p
    → Ends p (take_back n l l' m) m'
    → Prepared n id m'
ended-Prepared n p id l l' m m' found named i had ne e = record {
  at_link = λ x h.
      let here = some_injective (
        sym (set_at_self m.links n l (record l' { out = l'.out ++ l.out }) found)
        ∙ sym (e.others n ne)
        ∙ h) in
      ap (λ y. y.device_id) (sym here) ∙ named;
  elsewhere = λ k x j off h r d. elim (same_or_not k p) [
    | inl same ↦ absurd (e.shut x (ap (get_elem? m'.links) (sym same) ∙ h) r)
    | inr other ↦
        let before = sym (set_at_other m.links n k _ off) ∙ sym (e.others k other) ∙ h in
        let there = i.known k x j before r d in
        let apart : j ≢ id =
          λ eq. other (some_injective (sym there ∙ ap (get m.links_by_device) eq ∙ had)) in
        (e.kept j k other there, apart)
  ];
}

pub on_link_ready-IsKnown :
    (n : ℕ) (id : String) (now : ℕ) (l l' : AgentLink) (m : DeviceManager)
    → get_elem? m.links n ≡ some l
    → l'.device_id ≡ some id
    → IsKnown m
    → IsKnown (on_link_ready n id now (take_back n l l' m))
unfolding on_link_ready
on_link_ready-IsKnown n id now l l' m found named i =
    let m1 = take_back n l l' m in
    elim (Option-cases (get m.links_by_device id)) [
      | inl unknown ↦
          let free : (k : ℕ) → get m.links_by_device id ≡ some k → k ≡ n = λ k h. absurd cc in
          rw (unknown, on_link_ready)
            (put-IsKnown n id m1 (back-Prepared n id l l' m found named i free))
      | inr (p, had) ↦ elim (same_or_not p n) [
        | inl same ↦
            let free : (k : ℕ) → get m.links_by_device id ≡ some k → k ≡ n =
              λ k h. some_injective (sym h ∙ had) ∙ same in
            let kept : (p === n) ≡ true = ground (arith, same) in
            rw (had, kept, on_link_ready)
              (put-IsKnown n id m1 (back-Prepared n id l l' m found named i free))
        | inr other ↦
            let reason : String = "Superseded by a newer device connection" in
            let gone : (p === n) ≡ false = ground (arith, other) in
            let ended = end_link-Ends p reason now m1 in
            rw (had, gone, on_link_ready)
              (put-IsKnown n id (end_link p reason now m1)
                (ended-Prepared n p id l l' m _ found named i had (λ e. other (sym e)) ended))
      ]
    ]
