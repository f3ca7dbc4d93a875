-- ===== src/Prelude/Dict.antt =====
-- JavaScript's `Map` with string keys: its entries in the order of insertion, `get`, `set`,
-- `delete` and `size`, and a loop that deletes entries while it walks over them.
use Prim.Native.Nat.{◌+◌, ◌≤◌}
use Prim.Native.String.{String}
use mathlib.Core.Path.{◌≡◌, refl}
use mathlib.Core.Logic.{◌≢◌}
use mathlib.Core.Bool.{Bool}
use mathlib.Core.Option.{Option, none, some}
use mathlib.Core.List.{List, [], ◌∷◌}
use native.Mathlib.Omega.{arith}
use text.Mathlib.Text.{◌==◌}
use text.Mathlib.TextEquality.{eq_iff}
use termlink.Prelude.Lists.{length, All}
use termlink.Prelude.Tests.{if◌then◌else◌}

abbrev pub Dict {ℓ} : Type ℓ → Type ℓ
Dict V = List (String × V)

module _ {ℓ} {V : Type ℓ} where
  unfoldable pub get : Dict V → String → Option V
  get [] k = none
  get ((j, v) ∷ d) k = if j == k then some v else get d k

  -- `set` keeps the place of a key that is there, and appends a new one.
  unfoldable pub put : Dict V → String → V → Dict V
  put [] k v = (k, v) ∷ []
  put ((j, w) ∷ d) k v = if j == k then (j, v) ∷ d else (j, w) ∷ put d k v

  unfoldable pub remove : Dict V → String → Dict V
  remove [] k = []
  remove ((j, v) ∷ d) k = let rest = remove d k in if j == k then rest else (j, v) ∷ rest

  pub get-remove :
      (d : Dict V) (gone k : String) → get (remove d gone) k ≡ (if gone == k then none else get d k)
  unfolding get remove
  get-remove [] gone k = ground arith
  get-remove ((i, v) ∷ d) gone k =
      ground (arith, get-remove d gone k, eq_iff i gone, eq_iff i k, eq_iff gone k)

  pub get-put :
      (d : Dict V) (k j : String) (v : V) → get (put d k v) j ≡ (if k == j then some v else get d j)
  unfolding get put
  get-put [] k j v = refl
  get-put ((i, w) ∷ d) k j v = ground (arith, eq_iff k j, eq_iff i k, eq_iff i j, get-put d k j v)

  pub get-put_self : (d : Dict V) (k : String) (v : V) → get (put d k v) k ≡ some v
  get-put_self d k v = ground (arith, get-put d k k v, eq_iff k k)

  pub get-put_ne : (d : Dict V) (k j : String) (v : V) → k ≢ j → get (put d k v) j ≡ get d j
  get-put_ne d k j v h = ground (arith, get-put d k j v, eq_iff k j)

  pub get-remove_self : (d : Dict V) (k : String) → get (remove d k) k ≡ none
  get-remove_self d k = ground (arith, get-remove d k k, eq_iff k k)

  pub get-remove_ne : (d : Dict V) (k j : String) → k ≢ j → get (remove d k) j ≡ get d j
  get-remove_ne d k j h = ground (arith, get-remove d k j, eq_iff k j)

  pub length-put-le : (d : Dict V) (k : String) (v : V) → length (put d k v) ≤ length d + 1
  unfolding put
  length-put-le [] k v = omega arith
  length-put-le ((j, w) ∷ d) k v = ground (arith, length-put-le d k v)

  pub length-remove-le : (d : Dict V) (k : String) → length (remove d k) ≤ length d
  unfolding remove
  length-remove-le [] k = omega arith
  length-remove-le ((j, w) ∷ d) k = ground (arith, length-remove-le d k)

  -- No key stands twice.
  abbrev pub Distinct : Dict V → Type ℓ
  Distinct [] = Unit
  Distinct ((k, v) ∷ d) = (get d k ≡ none) × Distinct d

  pub put-Distinct : (d : Dict V) (k : String) (v : V) → Distinct d → Distinct (put d k v)
  unfolding get put
  put-Distinct [] k v h = (refl, tt)
  put-Distinct ((j, w) ∷ d) k v h =
      ground (arith, put-Distinct d k v h.1, get-put d k j v, eq_iff j k, eq_iff k j)

  pub remove-Distinct : (d : Dict V) (k : String) → Distinct d → Distinct (remove d k)
  unfolding get remove
  remove-Distinct [] k h = tt
  remove-Distinct ((j, w) ∷ d) k h = ground (arith, remove-Distinct d k h.1, get-remove d k j)

  pub remove_absent : (d : Dict V) (k : String) → get d k ≡ none → remove d k ≡ d
  unfolding get remove
  remove_absent [] k h = refl
  remove_absent ((j, w) ∷ d) k h = ground (arith, remove_absent d k)

  -- `for (const [k, v] of d) if (test v) d.delete(k)`: the entries still to visit, then the map.
  unfoldable pub purge : (V → Bool) → Dict V → Dict V → Dict V
  purge test [] d = d
  purge test ((k, v) ∷ todo) d = purge test todo (if test v then remove d k else d)

  -- What `purge` leaves of a looked up value.
  abbrev pub unless : (V → Bool) → Option V → Option V
  unless test none = none
  unless test (some v) = if test v then none else some v

  after_visit : (V → Bool) → Option V → Option V → Option V
  after_visit test none current = current
  after_visit test (some v) current = if test v then none else current

  get-purge_from :
      (test : V → Bool) (todo d : Dict V) (j : String)
      → Distinct todo
      → get (purge test todo d) j ≡ after_visit test (get todo j) (get d j)
  unfolding get purge after_visit
  get-purge_from test [] d j h = refl
  get-purge_from test ((k, v) ∷ todo) d j h = ground (
    arith,
    get-purge_from test todo (if test v then remove d k else d) j h.1,
    get-remove d k j,
    eq_iff k j,
  )

  -- A loop over the whole map deletes exactly the entries that meet the test.
  pub get-purge :
      (test : V → Bool) (d : Dict V) (j : String)
      → Distinct d
      → get (purge test d d) j ≡ unless test (get d j)
  unfolding after_visit
  get-purge test d j h = ground (arith, get-purge_from test d d j h)

  pub purge-Distinct :
      (test : V → Bool) (todo d : Dict V) → Distinct d → Distinct (purge test todo d)
  unfolding purge
  purge-Distinct test [] d h = h
  purge-Distinct test ((k, v) ∷ todo) d h =
      purge-Distinct test todo (if test v then remove d k else d)
        (ground (arith, remove-Distinct d k h))

  pub length-purge-le : (test : V → Bool) (todo d : Dict V) → length (purge test todo d) ≤ length d
  unfolding purge
  length-purge-le test [] d = omega arith
  length-purge-le test ((k, v) ∷ todo) d =
      ground
        (arith, length-purge-le test todo (if test v then remove d k else d), length-remove-le d k)

  -- A key that is absent differs from every key that is there.
  pub absent-All : (d : Dict V) (k : String) → get d k ≡ none → All (λ e. e.0 ≢ k) d
  unfolding get
  absent-All [] k h = tt
  absent-All ((j, v) ∷ d) k h = (ground (arith, eq_iff j k), absent-All d k (ground arith))

  entries_behind :
      (k : String) (v : V) (d todo : Dict V)
      → All (λ x. x.0 ≢ k) todo
      → All (λ x. get d x.0 ≡ some x.1) todo
      → All (λ x. get ((k, v) ∷ d) x.0 ≡ some x.1) todo
  unfolding get
  entries_behind k v d [] a b = tt
  entries_behind k v d ((j, w) ∷ todo) a b =
      (ground (arith, eq_iff k j), entries_behind k v d todo a.1 b.1)

  -- Each entry of a map with distinct keys is what its key is looked up as.
  pub get-entries : (d : Dict V) → Distinct d → All (λ e. get d e.0 ≡ some e.1) d
  unfolding get
  get-entries [] h = tt
  get-entries ((k, v) ∷ d) h =
      (ground (arith, eq_iff k k), entries_behind k v d d (absent-All d k h.0) (get-entries d h.1))
