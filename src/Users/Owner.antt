-- ===== src/Users/Owner.antt =====
-- The first owner, and users that are made.
use renom.Prelude.{
  Bool-cases, List, String, [], ap, arith, codes, eq_refl, inl, inr, length, map, none, refl, some,
  sym, true, units_eq_iff, ℕ, ◌++◌, ◌==◌, ◌∙◌, ◌∷◌, ◌≡◌,
}
use renom.Database.{Database, User}
use renom.Database.Table.{
  count_where, All-of_count_where-eq-zero, select_first-eq-none, select_first-append,
}
use renom.Database.Change.{done, ◌>=>◌, change-eq-done}
use renom.Users.{
  NewUser, fold_unit, is_new_email, new_user, is_same_text, by_username, by_id, has_id, create,
  create_first_owner,
}

same_refl : (a : String) → is_same_text a a ≡ true
unfolding is_same_text
same_refl a = (units_eq_iff (map fold_unit (codes a)) (map fold_unit (codes a))).1 refl

create-eq :
    (id : String) (input : NewUser) (now : ℕ) (db : Database) {u : User} {after : Database}
    → create id input now db ≡ done u after
    → (count_where (has_id id) db.users ≡ 0)
      × (count_where (λ v. is_same_text v.username input.username) db.users ≡ 0)
      × (u ≡ new_user id input now)
      × (after ≡ record db { users = db.users ++ new_user id input now ∷ [] })
unfolding create
create-eq id input now db h =
    let new_id = count_where (has_id id) db.users == 0 in
    let new_name =
      count_where (λ (v : User). is_same_text v.username input.username) db.users == 0 in
    let new_email = is_new_email input.email db.users in
    elim (Bool-cases new_id) [
      | inr e ↦ absurd (ground (arith, e))
      | inl a ↦ elim (Bool-cases new_name) [
        | inr e ↦ absurd (ground (arith, e, a))
        | inl b ↦ elim (Bool-cases new_email) [
          | inr e ↦ absurd (ground (arith, e, a, b))
          | inl c ↦ (
            ground (arith, a),
            ground (arith, b),
            ground (arith, a, b, c, h),
            ground (arith, a, b, c, h),
          )
        ]
      ]
    ]

-- A user that is made is found under the name, which no user had before in any case of its letters,
-- and under the identifier.
pub by_username-create :
    (id : String) (input : NewUser) (now : ℕ) (db : Database) {u : User} {after : Database}
    → create id input now db ≡ done u after
    → (by_username db input.username ≡ none)
      × (by_username after input.username ≡ some u)
      × (by_id after id ≡ some u)
unfolding by_username by_id
by_username-create id input now db {u} {after} h =
    let (a, b, made, at) = create-eq id input now db h in
    let named = λ (v : User). is_same_text v.username input.username in
    let no_name =
      select_first-eq-none named db.users (All-of_count_where-eq-zero named db.users b) in
    let no_id =
      select_first-eq-none (has_id id) db.users
        (All-of_count_where-eq-zero (has_id id) db.users a) in
    (
      no_name,
      rw (made, at)
          (select_first-append named db.users (new_user id input now) no_name
            (same_refl input.username)),
      rw (made, at)
          (select_first-append (has_id id) db.users (new_user id input now) no_id (eq_refl id)),
    )

no_rows : (rows : List User) → (0 == length rows) ≡ true → rows ≡ []
no_rows [] h = refl
no_rows (u ∷ rows) h = absurd (ground arith)

-- Setting up the first owner: it goes through only on a panel without users, which then has this one
-- user, in the role of the owner, and a second call answers that there is one and changes nothing.
pub create_first_owner_once :
    (id : String) (input : NewUser) (now : ℕ) (db : Database) (id' : String) (input' : NewUser)
    (now' : ℕ) {u : User} {after : Database}
    → create_first_owner id input now db ≡ done (some u) after
    → (db.users ≡ [])
      × (after.users ≡ u ∷ [])
      × (u.role ≡ "owner")
      × (create_first_owner id' input' now' after ≡ done none after)
unfolding create_first_owner
create_first_owner_once id input now db id' input' now' {u} {after} h =
    elim (Bool-cases (0 == length db.users)) [
      | inr e ↦ absurd (ground (arith, e))
      | inl e ↦
          let owner = record input { role = "owner" } in
          let h' : (create id owner now db >=> (λ v d. done (some v) d)) ≡ done (some u) after =
            ground (arith, e, h) in
          let (v, d, made, next) =
            change-eq-done (create id owner now db) (λ v d. done (some v) d) h' in
          let (_, _, same, at) = create-eq id owner now db made in
          let empty : db.users ≡ [] = no_rows db.users e in
          let end : d ≡ after = ground (arith, next) in
          let user : v ≡ u = ground (arith, next) in
          let now_one : after.users ≡ u ∷ [] =
            ap Database.users (sym end)
            ∙ ap Database.users at
            ∙ ap (λ l. l ++ new_user id owner now ∷ []) empty
            ∙ ap (λ x. x ∷ []) (sym same ∙ user) in
          (empty, now_one, ap User.role (sym user ∙ same), rw now_one refl)
    ]
