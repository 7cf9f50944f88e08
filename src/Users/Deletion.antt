-- ===== src/Users/Deletion.antt =====
-- Deleting a user.
use renom.Prelude.{
  Bool, Bool-cases, List, Option, String, [], ap, arith, eq_iff, false, if◌then◌else◌, inl, inr,
  is_some, none, not, refl, some, str_eq, subst, sym, true, ℕ, ◌&&◌, ◌<◌, ◌==◌, ◌||◌, ◌∙◌, ◌∷◌, ◌≡◌,
  ◌≤◌, ◌⊎◌,
}
use renom.Database.{Database, Server, User}
use renom.Database.Table.{select_first, update_where, count_where}
use renom.Database.Change.{
  done, demand, ◌>=>◌, user_not_found, still_owned, change-eq-done, Change-cases, committed,
}
use renom.Servers.Rows.{is_undeleted, is_owned_by, count_owned}
use renom.Users.{
  has_id, by_id, delete_where, is_referenced, delete_user, hand_over, delete_cascade, is_of,
}

module _ {ℓ} {R : Type ℓ} where
  select_first-delete_where :
      (p : R → Bool) (rows : List R) → select_first p (delete_where p rows) ≡ none
  unfolding select_first delete_where
  select_first-delete_where p [] = refl
  select_first-delete_where p (r ∷ rows) = ground (arith, select_first-delete_where p rows)

  select_first-delete_where_other :
      (p q : R → Bool) (rows : List R)
      → ((r : R) → q r ≡ true → p r ≡ false)
      → select_first q (delete_where p rows) ≡ select_first q rows
  unfolding select_first delete_where
  select_first-delete_where_other p q [] h = refl
  select_first-delete_where_other p q (r ∷ rows) h = elim (Bool-cases (q r)) [
    | inl e ↦ let kept = h r e in ground (arith, e, kept)
    | inr e ↦ ground (arith, e, select_first-delete_where_other p q rows h)
  ]

-- The rows of deleted servers of a user.
abbrev pub is_old_of : String → Server → Bool
is_old_of user s = str_eq s.owner_id user && not (is_undeleted s)

-- The rows of an owner, of deleted servers too.
abbrev pub owner_is : String → Server → Bool
owner_is user s = str_eq s.owner_id user

count-owner_ge :
    (user : String) (rows : List Server)
    → count_where (is_old_of user) rows ≤ count_where (owner_is user) rows
unfolding count_where
count-owner_ge user [] = omega arith
count-owner_ge user (s ∷ rows) = ground (arith, count-owner_ge user rows)

-- Handing servers over leaves the rows of deleted ones.
old_rows_kept :
    (user target : String) (now : ℕ) (rows : List Server)
    → count_where (is_old_of user) (
        update_where
          (is_owned_by user)
          (λ s. record s { owner_id = target; updated_at = now })
          rows)
      ≡ count_where (is_old_of user) rows
unfolding count_where update_where is_undeleted
old_rows_kept user target now [] = refl
old_rows_kept user target now (s ∷ rows) = ground (arith, old_rows_kept user target now rows)

different :
    (user other : String)
    → str_eq other user ≡ false
    → (u : User) → has_id other u ≡ true
    → has_id user u ≡ false
different user other ne u h = let same : u.id ≡ other = (eq_iff u.id other).0 h in rw same ne

-- What a deletion of the row itself has passed and done.
delete_user-eq :
    (id : String) (db : Database) {u : Unit {0}} {after : Database}
    → delete_user id db ≡ done u after
    → ((is_some (by_id db id) && is_referenced id db) ≡ false)
      × (after ≡ record db {
        users = delete_where (has_id id) db.users;
        api_keys = delete_where (λ k. str_eq k.user_id id) db.api_keys;
        subusers = delete_where (λ s. str_eq s.user_id id) db.subusers;
      })
unfolding delete_user
delete_user-eq id db h =
    let test = not (is_some (by_id db id)) || not (is_referenced id db) in
    elim (Bool-cases test) [
      | inr e ↦ absurd (ground (arith, e))
      | inl e ↦ (ground (arith, e), ground (arith, e, h))
    ]

-- Who is to have the servers: the identifier "" counts as none.
abbrev pub new_owner : Option String → Option String
new_owner none = none
new_owner (some target) = if str_eq target "" then none else some target

-- Without a new owner there was nothing to hand over; or else the new owner is there, and has the
-- servers of the user that are not deleted, which are as many as is told.
abbrev pub HandedOver : String → Option String → ℕ → Database → ℕ → List Server → Type 0
HandedOver user target now db n rows =
    ((new_owner target ≡ none) × (count_owned db user ≡ 0) × (n ≡ 0) × (rows ≡ db.servers))
    ⊎ (t : String) × (new_owner target ≡ some t)
      × (is_some (by_id db t) ≡ true)
      × (n ≡ count_owned db user)
      × (rows
          ≡ update_where (is_owned_by user) (λ s. record s { owner_id = t; updated_at = now })
              db.servers)

kept_if :
    (user : String) (db : Database) {n : ℕ} {d : Database}
    → (demand (count_owned db user == 0) still_owned db >=> (λ _ e. done 0 e)) ≡ done n d
    → (db ≡ d) × (count_owned db user ≡ 0) × (n ≡ 0)
kept_if user db h = elim (Bool-cases (count_owned db user == 0)) [
  | inl e ↦ (ground (arith, e, h), ground (arith, e), ground (arith, e, h))
  | inr e ↦ absurd (ground (arith, e, h))
]

given_rows :
    (user target : String) (now : ℕ) (db : Database) {n : ℕ} {d : Database}
    → (demand (is_some (by_id db target)) user_not_found db >=> (λ _ e.
        done (count_where (is_owned_by user) e.servers) (record e {
          servers =
              update_where
                (is_owned_by user)
                (λ s. record s { owner_id = target; updated_at = now })
                e.servers;
        })))
      ≡ done n d
    → (record db {
      servers =
          update_where
            (is_owned_by user)
            (λ s. record s { owner_id = target; updated_at = now })
            db.servers;
    }
        ≡ d)
      × (is_some (by_id db target) ≡ true)
      × (n ≡ count_owned db user)
unfolding count_owned
given_rows user target now db h = elim (Bool-cases (is_some (by_id db target))) [
  | inl e ↦ (ground (arith, e, h), e, ground (arith, e, h))
  | inr e ↦ absurd (ground (arith, e, h))
]

-- Handing over keeps the users and the rows of deleted servers.
hand_over-HandedOver :
    (user : String) (target : Option String) (now : ℕ) (db : Database) {n : ℕ} {d : Database}
    → hand_over user target now db ≡ done n d
    → (d.users ≡ db.users) × HandedOver user target now db n d.servers
unfolding hand_over
hand_over-HandedOver user none now db h =
    let (same, owned, zero_told) = kept_if user db h in
    (ap Database.users (sym same), inl (refl, owned, zero_told, ap Database.servers (sym same)))
hand_over-HandedOver user (some target) now db {n} {d} h = elim (Bool-cases (str_eq target "")) [
  | inl e ↦
      let (same, owned, zero_told) = kept_if user db {n = n} {d = d} (ground (arith, e, h)) in
      (
        ap Database.users (sym same),
        inl (rw e refl, owned, zero_told, ap Database.servers (sym same)),
      )
  | inr e ↦
      let (at, there, told) =
        given_rows user target now db {n = n} {d = d} (ground (arith, e, h)) in
      (
        ap Database.users (sym at),
        inr (target, rw e refl, there, told, ap Database.servers (sym at)),
      )
]

HandedOver-old :
    (user : String) (target : Option String) (now : ℕ) (db : Database) {n : ℕ} {rows : List Server}
    → HandedOver user target now db n rows
    → count_where (is_old_of user) rows ≡ count_where (is_old_of user) db.servers
HandedOver-old user target now db (inl (_, _, _, same)) = ap (count_where (is_old_of user)) same
HandedOver-old user target now db (inr (t, _, _, _, at)) =
    ap (count_where (is_old_of user)) at ∙ old_rows_kept user t now db.servers

-- What a deletion that returns has gone through: the servers that are handed over, then the row.
cascade-eq :
    (user : String) (target : Option String) (now : ℕ) (db : Database) {n : ℕ} {after : Database}
    → delete_cascade user target now db ≡ done n after
    → (d : Database) × (hand_over user target now db ≡ done n d)
      × (u : Unit {0}) × (delete_user user
            (record d { subusers = delete_where (is_of user) d.subusers })
          ≡ done u after)
unfolding delete_cascade
cascade-eq user target now db {n} {after} h =
    let rest = λ (k : ℕ) (d : Database).
      delete_user user (record d { subusers = delete_where (is_of user) d.subusers })
      >=> (λ _ e. done k e) in
    let (k, d, given, tail) = change-eq-done (hand_over user target now db) rest h in
    let (u, e, gone, end) =
      change-eq-done
        (delete_user user (record d { subusers = delete_where (is_of user) d.subusers }))
        (λ _ e. done k e) tail in
    let same : done k d ≡ done n d = ground (arith, end) in
    let last : done u e ≡ done u after = ground (arith, end) in (d, given ∙ same, u, gone ∙ last)

present_after :
    (user : String) (db d : Database) → d.users ≡ db.users → by_id d user ≡ by_id db user
unfolding by_id
present_after user db d h = ap (select_first (has_id user)) h

unreferenced :
    (user : String) (d : Database)
    → is_referenced user d ≡ false
    → count_where (owner_is user) d.servers ≡ 0
unfolding is_referenced
unreferenced user d h = ground (arith, h)

-- A deletion of a user who is there, if it goes through: the user is gone, no server has the user as
-- its owner, deleted ones included, and each other user is as before. Without a new owner the user had
-- no server that is not deleted, and the servers are as before; or else the new owner is a user, the
-- servers of the deleted user that are not deleted went to the new owner, no other server has changed,
-- and the number that is returned counts them.
pub delete_cascade_gone :
    (user other : String) (target : Option String) (now : ℕ) (db : Database) {n : ℕ}
    {after : Database}
    → is_some (by_id db user) ≡ true
    → str_eq other user ≡ false
    → delete_cascade user target now db ≡ done n after
    → (by_id after user ≡ none)
      × (count_where (owner_is user) after.servers ≡ 0)
      × (by_id after other ≡ by_id db other)
      × HandedOver user target now db n after.servers
unfolding by_id
delete_cascade_gone user other target now db {n} {after} present ne h =
    let (d, given, u, gone) = cascade-eq user target now db h in
    let left = record d { subusers = delete_where (is_of user) d.subusers } in
    let (free, at) = delete_user-eq user left gone in
    let (users, handed) = hand_over-HandedOver user target now db given in
    let here : is_some (by_id left user) ≡ true =
      ap is_some (present_after user db left users) ∙ present in
    let none_left = unreferenced user left (ground (arith, free, here)) in
    (
      ap (λ e. by_id e user) at ∙ select_first-delete_where (has_id user) d.users,
      ap (λ e. count_where (owner_is user) (Database.servers e)) at ∙ none_left,
      ap (λ e. by_id e other) at
          ∙ select_first-delete_where_other (has_id user) (has_id other) d.users
              (different user other ne)
          ∙ present_after other db d users,
      subst (HandedOver user target now db n) (sym (ap Database.servers at)) handed,
    )

-- A user with the row of a deleted server, of one that no one took over before it was deleted, is
-- never deleted, whoever takes the other servers: the database stays as it is.
pub delete_cascade_old_servers :
    (user : String) (target : Option String) (now : ℕ) (db : Database)
    → is_some (by_id db user) ≡ true
    → 0 < count_where (is_old_of user) db.servers
    → committed db (delete_cascade user target now db) ≡ db
unfolding committed
delete_cascade_old_servers user target now db present old =
    elim (Change-cases (delete_cascade user target now db)) [
      | inr (f, e) ↦ rw (e, committed) refl
      | inl (n, after, e) ↦
          let (d, given, u, gone) = cascade-eq user target now db e in
          let left = record d { subusers = delete_where (is_of user) d.subusers } in
          let (free, at) = delete_user-eq user left gone in
          let (users, handed) = hand_over-HandedOver user target now db given in
          let kept = HandedOver-old user target now db handed in
          let here : is_some (by_id left user) ≡ true =
            ap is_some (present_after user db left users) ∙ present in
          let none_left = unreferenced user left (ground (arith, free, here)) in
          let more = count-owner_ge user d.servers in
          absurd (omega (arith, none_left, more, kept, old))
    ]
