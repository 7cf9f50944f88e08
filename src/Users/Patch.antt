-- ===== src/Users/Patch.antt =====
-- `update` of modules/users/repo.ts: the columns that a patch names.
use renom.Prelude.{
  Bool, Option, String, false, if◌then◌else◌, is_none, none, not, some, str_eq, ℕ, ◌&&◌, ◌==◌, ◌||◌,
}
use renom.Database.{Database, User}
use renom.Database.Table.{count_where}
use renom.Database.Change.{Change, done, demand, ◌>=>◌, unique_violation}
use renom.Users.{has_id, is_same_text, or_default, by_id, update_user}

-- `role` is "admin" or "user".
pub record UserPatch : Type 0 where
  pub suspended : Option Bool
  pub role : Option String
  pub username : Option String
  pub display_name : Option String
  pub email : Option String
  pub quota_max_servers : Option ℕ
  pub quota_ram_mb : Option ℕ
  pub quota_disk_mb : Option ℕ

unfoldable pub is_empty_patch : UserPatch → Bool
is_empty_patch p =
    is_none p.suspended
    && is_none p.role
    && is_none p.username
    && is_none p.display_name
    && is_none p.email
    && is_none p.quota_max_servers
    && is_none p.quota_ram_mb
    && is_none p.quota_disk_mb

abbrev flag_of : Option Bool → ℕ → ℕ
flag_of none old = old
flag_of (some b) old = if b then 1 else 0

abbrev email_of : Option String → Option String → Option String
email_of none old = old
email_of (some e) old = some e

abbrev pub patched : UserPatch → ℕ → User → User
patched p now u = record u {
  suspended = flag_of p.suspended u.suspended;
  role = or_default p.role u.role;
  username = or_default p.username u.username;
  display_name = or_default p.display_name u.display_name;
  email = email_of p.email u.email;
  quota_max_servers = or_default p.quota_max_servers u.quota_max_servers;
  quota_ram_mb = or_default p.quota_ram_mb u.quota_ram_mb;
  quota_disk_mb = or_default p.quota_disk_mb u.quota_disk_mb;
  updated_at = now;
}

-- Another user has the name, in any case of its letters, or the address.
abbrev is_name_of_other : String → Option String → User → Bool
is_name_of_other id none u = false
is_name_of_other id (some name) u = not (has_id id u) && is_same_text u.username name

abbrev is_same_email : String → Option String → Bool
is_same_email email none = false
is_same_email email (some other) = str_eq other email

abbrev is_email_of_other : String → Option String → User → Bool
is_email_of_other id none u = false
is_email_of_other id (some email) u = not (has_id id u) && is_same_email email u.email

-- The unique columns are checked if there is such a user.
unfoldable pub update : String → UserPatch → ℕ → Database → Change (Unit {0})
unfolding is_empty_patch count_where is_same_text
update id p now db =
    if is_empty_patch p
    then done tt db
    else demand
        (is_none (by_id db id) || count_where (is_name_of_other id p.username) db.users == 0)
        unique_violation db
      >=> (λ _ d.
          demand (is_none (by_id d id) || count_where (is_email_of_other id p.email) d.users == 0)
            unique_violation d)
      >=> (λ _ d. done tt (update_user id (patched p now) d))
