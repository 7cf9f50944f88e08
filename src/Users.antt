-- ===== src/Users.antt =====
-- `UsersRepo` of modules/users/repo.ts. bcrypt is a pair of parameters; times and identifiers are
-- handed in, and a password is hashed before it comes to a statement.
pub mod Deletion
pub mod Owner
pub mod Patch
use renom.Prelude.{
  Bool, List, Option, String, [], codes, false, if◌then◌else◌, is_some, leb, length, ltb, map, none,
  not, some, str_eq, true, units_eq, ℕ, ◌&&◌, ◌++◌, ◌+◌, ◌==◌, ◌||◌, ◌∷◌,
}
use renom.Database.{Database, Server, User, Subuser, Backup}
use renom.Database.Table.{select_first, update_where, count_where}
use renom.Database.Change.{
  Change, done, failed, demand, ◌>=>◌, foreign_key_violation, unique_violation, user_not_found,
  still_owned,
}
use renom.Servers.Rows.{is_undeleted, is_owned_by, count_owned}

-- `COLLATE NOCASE`: the letters of ASCII.
abbrev pub fold_unit : ℕ → ℕ
fold_unit c = if leb b'A' c && leb c b'Z' then c + 32 else c

unfoldable pub is_same_text : String → String → Bool
is_same_text a b = units_eq (map fold_unit (codes a)) (map fold_unit (codes b))

unfoldable pub by_username : Database → String → Option User
unfolding select_first is_same_text
by_username db name = select_first (λ u. is_same_text u.username name) db.users

abbrev has_email : (String → Bool) → Option String → Bool
has_email test none = false
has_email test (some email) = test email

unfoldable pub by_email : Database → String → Option User
unfolding select_first is_same_text
by_email db email = select_first (λ u. has_email (λ e. is_same_text e email) u.email) db.users

abbrev pub has_id : String → User → Bool
has_id id u = str_eq u.id id

unfoldable pub by_id : Database → String → Option User
unfolding select_first
by_id db id = select_first (has_id id) db.users

pub record NewUser : Type 0 where
  pub username : String
  pub password_hash : Option String
  pub email : Option String
  pub role : String
  pub display_name : Option String
  pub quota_max_servers : Option ℕ
  pub quota_ram_mb : Option ℕ
  pub quota_disk_mb : Option ℕ

abbrev pub or_default {ℓ} : {A : Type ℓ} → Option A → A → A
or_default none d = d
or_default (some a) d = a

abbrev pub new_user : String → NewUser → ℕ → User
new_user id input now = record {
  id = id;
  username = input.username;
  password_hash = input.password_hash;
  email = input.email;
  role = input.role;
  display_name = or_default input.display_name input.username;
  quota_max_servers = or_default input.quota_max_servers 5;
  quota_ram_mb = or_default input.quota_ram_mb 8192;
  quota_disk_mb = or_default input.quota_disk_mb 40960;
  password_version = 0;
  suspended = 0;
  last_login_at = none;
  created_at = now;
  updated_at = now;
}

-- A unique column that is null is violated by nothing.
abbrev pub is_new_email : Option String → List User → Bool
is_new_email none rows = true
is_new_email (some email) rows =
    count_where (λ u. has_email (λ e. str_eq e email) u.email) rows == 0

-- `INSERT INTO users`: the identifier, the name without its case and the address are unique.
unfoldable pub create : String → NewUser → ℕ → Database → Change User
unfolding count_where is_same_text
create id input now db =
    demand (count_where (has_id id) db.users == 0) unique_violation db
    >=> (λ _ d.
        demand (count_where (λ u. is_same_text u.username input.username) d.users == 0)
          unique_violation d)
    >=> (λ _ d. demand (is_new_email input.email d.users) unique_violation d)
    >=> (λ _ d.
        done (new_user id input now) (record d { users = d.users ++ new_user id input now ∷ [] }))

-- One transaction: the table is empty, and then the owner is in it.
unfoldable pub create_first_owner : String → NewUser → ℕ → Database → Change (Option User)
create_first_owner id input now db =
    if 0 == length db.users
    then create id (record input { role = "owner" }) now db >=> (λ u d. done (some u) d)
    else done none db

-- A hash, if the user has one, that bcrypt accepts; `compare` is none where bcrypt throws.
unfoldable pub verify_password : (String → String → Option Bool) → User → String → Bool
verify_password compare u password = elim u.password_hash [
  | none ↦ false
  | some hash ↦ not (str_eq hash "") && or_default (compare password hash) false
]

unfoldable pub update_user : String → (User → User) → Database → Database
unfolding update_where
update_user id f db = record db { users = update_where (has_id id) f db.users }

abbrev pub touch_last_login : String → ℕ → Database → Database
touch_last_login id at = update_user id (λ u. record u { last_login_at = some at })

unfoldable pub bump_password_version : String → ℕ → Database → Change ℕ
unfolding update_user
bump_password_version id now db = elim (by_id db id) [
  | none ↦ failed user_not_found
  | some row ↦
      let next = row.password_version + 1 in
      done next (update_user id (λ u. record u { password_version = next; updated_at = now }) db)
]

abbrev pub set_password : String → String → ℕ → Database → Database
set_password id hash now =
    update_user id (λ u. record u { password_hash = some hash; updated_at = now })

abbrev pub set_suspended : String → Bool → ℕ → Database → Database
set_suspended id suspended now =
    update_user id (λ u. record u { suspended = (if suspended then 1 else 0); updated_at = now })

unfoldable pub count_by_role : Database → String → ℕ
unfolding count_where
count_by_role db role = count_where (λ u. str_eq u.role role) db.users

abbrev is_of : String → Subuser → Bool
is_of user s = str_eq s.user_id user || str_eq s.granted_by user

-- `DELETE`.
unfoldable pub delete_where {ℓ} : {R : Type ℓ} → (R → Bool) → List R → List R
delete_where p [] = []
delete_where p (r ∷ rows) = let rest = delete_where p rows in if p r then rest else r ∷ rest

abbrev is_created_by : String → Backup → Bool
is_created_by user b = has_email (λ c. str_eq c user) b.created_by

-- Rows that refer to a user without `ON DELETE`: servers, deleted ones too, and backups.
unfoldable pub is_referenced : String → Database → Bool
unfolding count_where
is_referenced user db =
    ltb 0 (count_where (λ s. str_eq s.owner_id user) db.servers)
    || ltb 0 (count_where (is_created_by user) db.backups)
    || ltb 0
        (count_where (λ s. str_eq s.granted_by user && not (str_eq s.user_id user)) db.subusers)

-- `DELETE FROM users WHERE id = ?`, which takes API keys and grants of the user along.
unfoldable pub delete_user : String → Database → Change (Unit {0})
unfolding is_referenced delete_where
delete_user id db =
    demand (not (is_some (by_id db id)) || not (is_referenced id db)) foreign_key_violation db
    >=> (λ _ d. done tt (record d {
      users = delete_where (has_id id) d.users;
      api_keys = delete_where (λ k. str_eq k.user_id id) d.api_keys;
      subusers = delete_where (λ s. str_eq s.user_id id) d.subusers;
    }))

-- The servers of a user go to another one, or there must be none. The identifier "" counts as none.
unfoldable pub hand_over : String → Option String → ℕ → Database → Change ℕ
unfolding count_where update_where
hand_over user none now db = demand (count_owned db user == 0) still_owned db >=> (λ _ d. done 0 d)
hand_over user (some target) now db =
    if str_eq target ""
    then demand (count_owned db user == 0) still_owned db >=> (λ _ d. done 0 d)
    else demand (is_some (by_id db target)) user_not_found db >=> (λ _ d.
      done (count_where (is_owned_by user) d.servers) (record d {
        servers =
            update_where (is_owned_by user) (λ s. record s { owner_id = target; updated_at = now })
              d.servers;
      }))

unfoldable pub delete_cascade : String → Option String → ℕ → Database → Change ℕ
unfolding delete_where
delete_cascade user target now db = hand_over user target now db >=> (λ n d.
    delete_user user (record d { subusers = delete_where (is_of user) d.subusers })
    >=> (λ _ e. done n e))
