-- ===== src/JsMap.antt =====
-- The `Map` of JavaScript: entries in the order of their insertion. `set` on a key that is there
-- keeps its place, and on a new key appends.
use renom.Prelude.{
  Bool, Bool-cases, KeyType, List, Option, [], arith, false, if◌then◌else◌, inl, inr, keep, length,
  none, refl, some, true, ◌+◌, ◌∷◌, ◌≡◌, ◌≢◌, ◌≤◌,
}

module _ {ℓ κ} {K : Type ℓ} {V : Type κ} ⦃e : KeyType K⦄ where
  unfoldable pub get : List (K × V) → K → Option V
  get [] k = none
  get ((j, v) ∷ m) k = if e.eqb j k then some v else get m k

  unfoldable pub set : List (K × V) → K → V → List (K × V)
  set [] k v = (k, v) ∷ []
  set ((j, w) ∷ m) k v = if e.eqb j k then (j, v) ∷ m else (j, w) ∷ set m k v

  unfoldable pub delete : List (K × V) → K → List (K × V)
  delete [] k = []
  delete ((j, w) ∷ m) k = if e.eqb j k then m else (j, w) ∷ delete m k

  unfoldable pub has : List (K × V) → K → Bool
  unfolding get
  has m k = elim (get m k) [ none ↦ false | some _ ↦ true ]

  pub get-set :
      (m : List (K × V)) (k j : K) (v : V)
      → get (set m k v) j ≡ (if e.eqb k j then some v else get m j)
  unfolding get set
  get-set [] k j v = refl
  get-set ((i, w) ∷ m) k j v =
      ground (arith, e.eqb_iff i k, e.eqb_iff i j, e.eqb_iff k j, get-set m k j v)

  pub get-delete_ne : (m : List (K × V)) (k j : K) → k ≢ j → get (delete m k) j ≡ get m j
  unfolding get delete
  get-delete_ne [] k j h = refl
  get-delete_ne ((i, w) ∷ m) k j h =
      ground (arith, e.eqb_iff i k, e.eqb_iff i j, get-delete_ne m k j h)

  -- A key is stored once.
  abbrev pub IsFresh : K → List (K × V) → Type ℓ
  IsFresh k [] = Unit
  IsFresh k ((j, v) ∷ m) = (j ≢ k) × IsFresh k m

  abbrev pub HasUniqueKeys : List (K × V) → Type ℓ
  HasUniqueKeys [] = Unit
  HasUniqueKeys ((j, v) ∷ m) = IsFresh j m × HasUniqueKeys m

  pub IsFresh-set :
      (m : List (K × V)) (i k : K) (v : V) → IsFresh i m → k ≢ i → IsFresh i (set m k v)
  unfolding set
  IsFresh-set [] i k v h n = (n, tt)
  IsFresh-set ((j, w) ∷ m) i k v (p, h) n = ground (arith, IsFresh-set m i k v h n)

  pub IsFresh-delete : (m : List (K × V)) (i k : K) → IsFresh i m → IsFresh i (delete m k)
  unfolding delete
  IsFresh-delete [] i k h = tt
  IsFresh-delete ((j, w) ∷ m) i k (p, h) = ground (arith, IsFresh-delete m i k h)

  pub IsFresh-keep :
      (p : K × V → Bool) (m : List (K × V)) (i : K) → IsFresh i m → IsFresh i (keep p m)
  IsFresh-keep p [] i h = tt
  IsFresh-keep p (b ∷ m) i (q, h) = ground (arith, IsFresh-keep p m i h)

  pub HasUniqueKeys-set :
      (m : List (K × V)) (k : K) (v : V) → HasUniqueKeys m → HasUniqueKeys (set m k v)
  unfolding set
  HasUniqueKeys-set [] k v h = (tt, tt)
  HasUniqueKeys-set ((j, w) ∷ m) k v (f, h) =
      ground (arith, HasUniqueKeys-set m k v h, IsFresh-set m j k v f, e.eqb_iff j k)

  pub HasUniqueKeys-delete :
      (m : List (K × V)) (k : K) → HasUniqueKeys m → HasUniqueKeys (delete m k)
  unfolding delete
  HasUniqueKeys-delete [] k h = tt
  HasUniqueKeys-delete ((j, w) ∷ m) k (f, h) =
      ground (arith, HasUniqueKeys-delete m k h, IsFresh-delete m j k f)

  pub HasUniqueKeys-keep :
      (p : K × V → Bool) (m : List (K × V)) → HasUniqueKeys m → HasUniqueKeys (keep p m)
  HasUniqueKeys-keep p [] h = tt
  HasUniqueKeys-keep p (b ∷ m) (f, h) =
      ground (arith, HasUniqueKeys-keep p m h, IsFresh-keep p m b.0 f)

  pub get-eq-none_of_IsFresh : (m : List (K × V)) (k : K) → IsFresh k m → get m k ≡ none
  unfolding get
  get-eq-none_of_IsFresh [] k h = refl
  get-eq-none_of_IsFresh ((j, v) ∷ m) k (n, h) =
      ground (arith, e.eqb_iff j k, get-eq-none_of_IsFresh m k h)

  -- A filter that passes the entry of `k` does not change what `k` has.
  pub get-keep :
      (p : K × V → Bool) (m : List (K × V)) (k : K) (v : V)
      → get m k ≡ some v
      → p (k, v) ≡ true
      → get (keep p m) k ≡ some v
  unfolding get
  get-keep p [] k v g h = cc
  get-keep p ((j, w) ∷ m) k v g h = elim (Bool-cases (e.eqb j k)) [
    | inl same ↦ ground (arith, e.eqb_iff j k)
    | inr other ↦ ground (arith, get-keep p m k v, e.eqb_iff j k)
  ]

  pub length-set_le : (m : List (K × V)) (k : K) (v : V) → length (set m k v) ≤ length m + 1
  unfolding set
  length-set_le [] k v = omega arith
  length-set_le ((j, w) ∷ m) k v = ground (arith, length-set_le m k v)

  pub length-set_old :
      (m : List (K × V)) (k : K) (v w : V) → get m k ≡ some w → length (set m k v) ≡ length m
  unfolding set get
  length-set_old [] k v w h = cc
  length-set_old ((j, u) ∷ m) k v w h = ground (arith, length-set_old m k v w)

  pub length-delete : (m : List (K × V)) (k : K) → length (delete m k) ≤ length m
  unfolding delete
  length-delete [] k = omega arith
  length-delete ((j, w) ∷ m) k = ground (arith, length-delete m k)

  -- With unique keys a filter shows no other entry of `k`.
  pub get-eq-some_of_keep :
      (p : K × V → Bool) (m : List (K × V)) (k : K) (v : V)
      → HasUniqueKeys m
      → get (keep p m) k ≡ some v
      → get m k ≡ some v
  unfolding get
  get-eq-some_of_keep p [] k v u g = cc
  get-eq-some_of_keep p ((j, w) ∷ m) k v (f, u) g = elim (Bool-cases (e.eqb j k)) [
    | inl same ↦
        let jk = (e.eqb_iff j k).0 same in
        ground (arith, jk, get-eq-none_of_IsFresh (keep p m) j (IsFresh-keep p m j f))
    | inr other ↦ ground (arith, get-eq-some_of_keep p m k v u)
  ]

  pub get-set_self : (m : List (K × V)) (k : K) (v : V) → get (set m k v) k ≡ some v
  get-set_self m k v = ground (arith, e.eqb_iff k k, get-set m k k v)

  pub get-set_ne : (m : List (K × V)) (k j : K) (v : V) → k ≢ j → get (set m k v) j ≡ get m j
  get-set_ne m k j v h = ground (arith, e.eqb_iff k j, get-set m k j v)

  pub get-delete_self : (m : List (K × V)) (k : K) → HasUniqueKeys m → get (delete m k) k ≡ none
  unfolding get delete
  get-delete_self [] k u = refl
  get-delete_self ((j, v) ∷ m) k (f, u) = elim (Bool-cases (e.eqb j k)) [
    | inl same ↦
        let jk = (e.eqb_iff j k).0 same in ground (arith, same, jk, get-eq-none_of_IsFresh m j f)
    | inr other ↦ ground (arith, other, get-delete_self m k u)
  ]
