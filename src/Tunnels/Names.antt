-- ===== src/Tunnels/Names.antt =====
-- The names that the panel makes are names that it accepts.
use renom.Prelude.{
  All, Bool, Bool-cases, List, Option-cases, String, Units, [], all, ap, arith, false, get_elem?,
  inl, inr, is_some, leb, length, length-append, ltb, ltb→lt, refl, some, subst, suc, true, zero, ℕ,
  ◌%◌, ◌*◌, ◌++◌, ◌+◌, ◌-◌, ◌/◌, ◌<◌, ◌∙◌, ◌∷◌, ◌≡◌, ◌≤◌,
}
use renom.JsText.{is_digit}
use renom.JsText.Digits.{digits_of, show}
use renom.JsText.Split.{Lacks, pieces, split, split_at-append, split_at_piece}
use renom.Database.{Database}
use renom.Tunnels.{
  adjectives, candidate_name, claim_from, endpoint_taken, endpoint_valid, generate_endpoint_name,
  is_lower, is_suffix, is_word, nouns, pad_four, pick, zeros,
}

-- 10 ^ k
bound : ℕ → ℕ
bound zero = 1
bound (suc k) = 10 * bound k

all-append {ℓ} :
    {A : Type ℓ} (p : A → Bool) (xs ys : List A)
    → all p xs ≡ true
    → all p ys ≡ true
    → all p (xs ++ ys) ≡ true
all-append p [] ys h k = k
all-append p (x ∷ xs) ys h k = ground (arith, all-append p xs ys)

digit_lem : (d : ℕ) → d < 10 → is_digit (b'0' + d) ≡ true
digit_lem d h = ground arith

all-digits_of : (fuel n : ℕ) → all is_digit (digits_of fuel n) ≡ true
unfolding digits_of
all-digits_of zero n = refl
all-digits_of (suc fuel) n = elim (Bool-cases (ltb n 10)) [
  | inl e ↦ rw (e, digits_of) (ground (arith, digit_lem n (ltb→lt n 10 e)))
  | inr e ↦
      let last : all is_digit ((b'0' + n % 10) ∷ []) ≡ true =
        ground (arith, digit_lem (n % 10) (omega arith)) in
      rw (e, digits_of)
        (all-append is_digit (digits_of fuel (n / 10)) ((b'0' + n % 10) ∷ [])
          (all-digits_of fuel (n / 10)) last)
]

length-digits_of : (k fuel n : ℕ) → n < bound (suc k) → length (digits_of fuel n) ≤ suc k
unfolding digits_of bound
length-digits_of k zero n h = omega arith
length-digits_of zero (suc fuel) n h =
    let small : ltb n 10 ≡ true = ground (arith, h) in rw (small, digits_of) (omega arith)
length-digits_of (suc k) (suc fuel) n h = elim (Bool-cases (ltb n 10)) [
  | inl e ↦ rw (e, digits_of) (omega arith)
  | inr e ↦
      rw (e, digits_of)
        (omega (
          arith,
          length-append (digits_of fuel (n / 10)) ((b'0' + n % 10) ∷ []),
          length-digits_of k fuel (n / 10) (omega arith),
        ))
]

all-zeros : (n : ℕ) → all is_digit (zeros n) ≡ true
all-zeros zero = refl
all-zeros (suc n) = all-zeros n

length-zeros : (n : ℕ) → length (zeros n) ≡ n
length-zeros zero = refl
length-zeros (suc n) = ap suc (length-zeros n)

pad_four-is_suffix : (n : ℕ) → n < 10000 → is_suffix (pad_four n) ≡ true
unfolding pad_four show is_suffix bound
pad_four-is_suffix n h =
    let s = digits_of (suc n) n in
    let short = length-digits_of 3 (suc n) n h in
    let long : length (zeros (4 - length s) ++ s) ≡ 4 =
      omega (arith, length-append (zeros (4 - length s)) s, length-zeros (4 - length s)) in
    let digits =
      all-append is_digit (zeros (4 - length s)) s (all-zeros (4 - length s))
        (all-digits_of (suc n) n) in
    ground (arith, long, digits)

get-All :
    (items : List Units) (i : ℕ)
    → All (λ s. is_word s ≡ true) items
    → i < length items
    → (s : Units) × (get_elem? items i ≡ some s) × (is_word s ≡ true)
get-All [] i h l = absurd (omega arith)
get-All (s ∷ items) zero (p, h) l = (s, refl, p)
get-All (s ∷ items) (suc i) (p, h) l = get-All items i h (omega arith)

pick-is_word :
    (items : List Units) (random : ℕ)
    → All (λ s. is_word s ≡ true) items
    → random % length items < length items
    → is_word (pick items random) ≡ true
unfolding pick
pick-is_word items random h l =
    let (s, found, word) = get-All items (random % length items) h l in rw (found, pick) word

adjective_words : All (λ s. is_word s ≡ true) adjectives
unfolding is_word
adjective_words = (
  refl,
  (
    refl,
    (
      refl,
      (
        refl,
        (
          refl,
          (
            refl,
            (
              refl,
              (
                refl,
                (
                  refl,
                  (
                    refl,
                    (
                      refl,
                      (
                        refl,
                        (
                          refl,
                          (
                            refl,
                            (
                              refl,
                              (
                                refl,
                                (refl, (refl, (refl, (refl, (refl, (refl, (refl, (refl, tt)))))))),
                              ),
                            ),
                          ),
                        ),
                      ),
                    ),
                  ),
                ),
              ),
            ),
          ),
        ),
      ),
    ),
  ),
)

noun_words : All (λ s. is_word s ≡ true) nouns
unfolding is_word
noun_words = (
  refl,
  (
    refl,
    (
      refl,
      (
        refl,
        (
          refl,
          (
            refl,
            (
              refl,
              (
                refl,
                (
                  refl,
                  (
                    refl,
                    (
                      refl,
                      (
                        refl,
                        (
                          refl,
                          (
                            refl,
                            (
                              refl,
                              (
                                refl,
                                (refl, (refl, (refl, (refl, (refl, (refl, (refl, (refl, tt)))))))),
                              ),
                            ),
                          ),
                        ),
                      ),
                    ),
                  ),
                ),
              ),
            ),
          ),
        ),
      ),
    ),
  ),
)

mod_lt : (n : ℕ) → n % 24 < 24
mod_lt n = omega arith

lower-Lacks : (s : Units) → all is_lower s ≡ true → Lacks b'-' s
lower-Lacks [] h = tt
lower-Lacks (c ∷ s) h = ((λ e. absurd (ground (arith, h, e))), lower-Lacks s (ground (arith, h)))

digit-Lacks : (s : Units) → all is_digit s ≡ true → Lacks b'-' s
digit-Lacks [] h = tt
digit-Lacks (c ∷ s) h = ((λ e. absurd (ground (arith, h, e))), digit-Lacks s (ground (arith, h)))

word-Lacks : (s : Units) → is_word s ≡ true → Lacks b'-' s
unfolding is_word
word-Lacks s h = lower-Lacks s (ground (arith, h))

suffix-Lacks : (s : Units) → is_suffix s ≡ true → Lacks b'-' s
unfolding is_suffix
suffix-Lacks s h = digit-Lacks s (ground (arith, h))

split-name :
    (a n d : Units)
    → Lacks b'-' a
    → Lacks b'-' n
    → Lacks b'-' d
    → split b'-' (a ++ (b'-' ∷ (n ++ (b'-' ∷ d)))) ≡ a ∷ n ∷ d ∷ []
unfolding split
split-name a n d ha hn hd =
    ap pieces (split_at-append b'-' a (n ++ (b'-' ∷ d)) ha)
    ∙ ap (λ x. a ∷ pieces x) (split_at-append b'-' n d hn)
    ∙ ap (λ x. a ∷ n ∷ pieces x) (split_at_piece b'-' d hd)

name_long : (a rest : Units) → is_word a ≡ true → leb 4 (length (a ++ (b'-' ∷ rest))) ≡ true
unfolding is_word
name_long a rest h =
    let word : 4 ≤ length a = ground (arith, h) in
    ground (arith, word, length-append a (b'-' ∷ rest))

-- Two words and four digits, with dashes between, make a valid endpoint if they are short enough.
words-endpoint_valid :
    (a n d : Units)
    → is_word a ≡ true
    → is_word n ≡ true
    → is_suffix d ≡ true
    → leb (length (a ++ (b'-' ∷ (n ++ (b'-' ∷ d))))) 16 ≡ true
    → endpoint_valid (a ++ (b'-' ∷ (n ++ (b'-' ∷ d)))) ≡ true
unfolding endpoint_valid
words-endpoint_valid a n d ha hn hd short =
    let name = a ++ (b'-' ∷ (n ++ (b'-' ∷ d))) in
    let shape = split-name a n d (word-Lacks a ha) (word-Lacks n hn) (suffix-Lacks d hd) in
    let long : leb 4 (length name) ≡ true = name_long a (n ++ (b'-' ∷ d)) ha in
    rw (shape, endpoint_valid) (ground (arith, long, short, ha, hn, hd))

candidate_name-endpoint_valid :
    (suffix adjective noun : ℕ)
    → leb (length (candidate_name suffix adjective noun)) 16 ≡ true
    → endpoint_valid (candidate_name suffix adjective noun) ≡ true
candidate_name-endpoint_valid suffix adjective noun short =
    words-endpoint_valid (pick adjectives adjective) (pick nouns noun) (pad_four (suffix % 10000))
      (pick-is_word adjectives adjective adjective_words (mod_lt adjective))
      (pick-is_word nouns noun noun_words (mod_lt noun))
      (pad_four-is_suffix (suffix % 10000) (omega arith)) short

generate-endpoint_valid :
    (fuel : ℕ) (random : ℕ → ℕ) (at : ℕ) (name : Units) (next : ℕ)
    → generate_endpoint_name fuel random at ≡ some (name, next)
    → endpoint_valid name ≡ true
unfolding generate_endpoint_name
generate-endpoint_valid zero random at name next h = absurd (ground arith)
generate-endpoint_valid (suc fuel) random at name next h =
    let made = candidate_name (random at) (random (at + 1)) (random (at + 2)) in
    elim (Bool-cases (leb (length made) 16)) [
      | inl e ↦
          let same : made ≡ name = ground (arith, e, h) in
          subst (λ s. endpoint_valid s ≡ true) same
            (candidate_name-endpoint_valid (random at) (random (at + 1)) (random (at + 2)) e)
      | inr e ↦ generate-endpoint_valid fuel random (at + 3) name next (ground (arith, e, h))
    ]

-- The loop ends in the first round whose name is short enough, if it is given that many rounds.
generate_ends :
    (k : ℕ) (random : ℕ → ℕ) (at : ℕ)
    → leb
        (length (
          candidate_name (random (at + 3 * k)) (random (at + 3 * k + 1)) (random (at + 3 * k + 2))))
        16
      ≡ true
    → is_some (generate_endpoint_name (suc k) random at) ≡ true
unfolding generate_endpoint_name
generate_ends zero random at h =
    let here : at + 3 * 0 ≡ at = omega arith in
    let short =
      subst
        (λ i. leb (length (candidate_name (random i) (random (i + 1)) (random (i + 2)))) 16 ≡ true)
        here h in
    rw (short, generate_endpoint_name) refl
generate_ends (suc k) random at h =
    let there : at + 3 * suc k ≡ (at + 3) + 3 * k = omega arith in
    let short =
      subst
        (λ i. leb (length (candidate_name (random i) (random (i + 1)) (random (i + 2)))) 16 ≡ true)
        there h in
    let later = generate_ends k random (at + 3) short in
    elim (Bool-cases
      (leb (length (candidate_name (random at) (random (at + 1)) (random (at + 2)))) 16)) [
        | inl e ↦ rw (e, generate_endpoint_name) refl
        | inr e ↦ rw (e, generate_endpoint_name) later
      ]

-- A name that a server claims is one that the panel accepts and that no other server holds.
pub claim_from-endpoint_valid :
    (attempts fuel : ℕ) (random : ℕ → ℕ) (at : ℕ) (db : Database) (server : String) (name : Units)
    → claim_from attempts fuel random at db server ≡ some name
    → (endpoint_valid name ≡ true) × (endpoint_taken db name server ≡ false)
unfolding claim_from
claim_from-endpoint_valid zero fuel random at db server name h = absurd (ground arith)
claim_from-endpoint_valid (suc attempts) fuel random at db server name h =
    elim (Option-cases (generate_endpoint_name fuel random at)) [
      | inl e ↦ absurd (ground (arith, e, h))
      | inr ((made, next), e) ↦ elim (Bool-cases (endpoint_taken db made server)) [
        | inl taken ↦
            claim_from-endpoint_valid attempts fuel random next db server name
              (ground (arith, e, taken, h))
        | inr free ↦
            let same : made ≡ name = ground (arith, e, free, h) in
            subst (λ s. (endpoint_valid s ≡ true) × (endpoint_taken db s server ≡ false)) same
              (generate-endpoint_valid fuel random at made next e, free)
      ]
    ]
