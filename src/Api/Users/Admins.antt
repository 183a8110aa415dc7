-- ===== src/Api/Users/Admins.antt =====
-- The last enabled admin in the handlers of openvtld/internal/api/auth.go.
use open_vtl.Prelude.{
  ℕ, ◌+◌, ◌≤◌, ◌≡◌, refl, String, str_eq, Bool, true, false, not, ◌&&◌, ◌||◌, ◌⊎◌, inl, inr, Option,
  none, some, List, [], ◌∷◌, ◌++◌, arith, leb, ℤ, pos, find, remove_rows, update_rows, count_rows,
}
use open_vtl.Exec.{Exec}
use open_vtl.Exec.Triple.{
  Triple, triple_bind, triple_seq, triple_pure, triple_exit, triple_exit_if, triple_weaken,
  triple_if,
}
use open_vtl.Store.{Env, User, Server}
use open_vtl.Store.Users.{has_id, is_enabled_admin}
use open_vtl.Store.Users.Numbered.{
  Numbered, Numbered-insert, Numbered-update, Numbered-remove, one, count-update, count-remove,
  count-append,
}
use open_vtl.Store.Users.Kept.{
  count_admins_lem, user_by_id_lem, update_user_row_lem, set_password_lem, delete_user_row_lem,
  create_user_row_lem,
}
use open_vtl.Store.View.{View, At, At-map, Keeps, observe-Keeps}
use open_vtl.Api.{
  write_json, user_body, NewUser, UserChange, Request, Response, server_error, bad_request,
}
use open_vtl.Api.Kept.{
  replying_lem, new_hash-Keeps, audit-Keeps, user_by_id-Keeps, guard-Keeps, body-Keeps,
}
use open_vtl.Api.Login.{validate_creds, reject_creds, bad_json}
use open_vtl.Api.Users.{
  is_valid_role, shown, bad_role, bad_id, or_same, counts, create_user, new_role, keep_last_admin,
  update_user, own_or_admin, set_user_password, delete_user,
}

abbrev pub admins : View → ℕ
admins v = count_rows is_enabled_admin v.users

-- The ids are in order, and an admin can log in.
pub record IsStaffed (v : View) : Type 0 where
  pub numbered : Numbered 1 v.users v.next_user
  pub staffed : 1 ≤ admins v

-- The row that an update leaves.
abbrev changed : String → Bool → User → User
changed role disabled u = record u { role = role; disabled = disabled }

abbrev loses : User → String → Bool → Bool
loses u role disabled = counts u && (not (str_eq role "admin") || disabled)

update-IsStaffed :
    (v : View) (id : ℤ) (u : User) (role : String) (disabled : Bool)
    → IsStaffed v
    → find (has_id id) v.users ≡ some u
    → (loses u role disabled ≡ false) ⊎ (2 ≤ admins v)
    → IsStaffed (record v { users = update_rows (has_id id) (changed role disabled) v.users })
unfolding counts is_enabled_admin
update-IsStaffed v id u role disabled s found safe =
    let n =
      count-update is_enabled_admin (changed role disabled) id v.users 1 v.next_user s.numbered
        found in
    record {
      numbered =
          Numbered-update (has_id id) (changed role disabled) (λ u. refl) v.users 1 v.next_user
            s.numbered;
      staffed =
          still (str_eq u.role "admin") u.disabled (str_eq role "admin") disabled s.staffed n safe;
    }
  where
    still :
        (was_admin was_disabled is_admin is_disabled : Bool) {before after : ℕ}
        → 1 ≤ before
        → after + one (was_admin && not was_disabled) ≡ before + one (is_admin && not is_disabled)
        → ((was_admin && not was_disabled && (not is_admin || is_disabled)) ≡ false) ⊎ (2 ≤ before)
        → 1 ≤ after
    still false _ _ _ h e safe = omega arith
    still true true _ _ h e safe = omega arith
    still true false true false h e safe = omega arith
    still true false true true h e (inr enough) = omega arith
    still true false true true h e (inl never) = cc
    still true false false _ h e (inr enough) = omega arith
    still true false false _ h e (inl never) = cc

remove-IsStaffed :
    (v : View) (id : ℤ) (u : User)
    → IsStaffed v
    → find (has_id id) v.users ≡ some u
    → (counts u ≡ false) ⊎ (2 ≤ admins v)
    → IsStaffed (record v { users = remove_rows (has_id id) v.users })
unfolding counts is_enabled_admin
remove-IsStaffed v id u s found safe = record {
  numbered = Numbered-remove (has_id id) v.users 1 v.next_user s.numbered;
  staffed =
      still (str_eq u.role "admin" && not u.disabled) s.staffed
        (count-remove is_enabled_admin id v.users 1 v.next_user s.numbered found) safe;
}
  where
    still :
        (was : Bool) {before after : ℕ}
        → 1 ≤ before
        → after + one was ≡ before
        → (was ≡ false) ⊎ (2 ≤ before)
        → 1 ≤ after
    still false h e safe = omega arith
    still true h e (inr enough) = omega arith
    still true h e (inl never) = cc

module _ (env : Env) where
  keep_last_admin_lem :
      {K : View → Type 0} (b : Bool) (text : String)
      → Triple
          (At env K)
          (keep_last_admin env b text)
          (λ _. At env (λ v. K v × ((b ≡ false) ⊎ (2 ≤ admins v))))
          (λ _. At env K)
  unfolding keep_last_admin
  keep_last_admin_lem b text =
      triple_if b
        (λ e. triple_bind (replying_lem env server_error (count_admins_lem env)) (λ n.
          triple_exit_if (leb n 1) (bad_request text) (λ t s k. At-map env (λ v h. h.0) s k)
            (λ t s k. At-map env (λ v h. (h.0, inr (ground arith))) s k)))
        (λ e. triple_pure tt (λ s k. At-map env (λ v h. (h, inl e)) s k))

  -- What the last query told is dropped where the handler ends.
  exit_left :
      {A : Type 0} {P : Server env → Type 0} {K L : View → Type 0} {Q : A → Server env → Type 0}
      {m : Exec (Server env) Response A}
      → Triple P m Q (λ _. At env (λ v. K v × L v))
      → Triple P m Q (λ _. At env K)
  exit_left t = triple_weaken (λ s k. k) (λ a s k. k) (λ e s k. At-map env (λ v h. h.0) s k) t

  pub delete_user-Keeps :
      (req : Request) (me : Option User) (segment : List ℕ)
      → Keeps env IsStaffed (delete_user env req me segment)
  unfolding delete_user
  delete_user-Keeps req me segment = triple_bind (body-Keeps env bad_id _) (λ id.
      triple_bind (replying_lem env _ (user_by_id_lem env id)) (λ u.
        triple_seq (exit_left (keep_last_admin_lem (counts u) _)) (
          triple_seq
            (replying_lem env server_error (
              delete_user_row_lem env IsStaffed id (λ v h. h.0.0)
                (λ v h. remove-IsStaffed v id u h.0.0 h.0.1 h.1)))
            (triple_seq (audit-Keeps env req me "user.delete" u.username)
              (triple_pure _ (λ s k. k))))))

  new_role-Keeps :
      {K : View → Type 0} (u : User) (role : String) → Keeps env K (new_role env u role)
  new_role-Keeps u role =
      triple_if (str_eq role "") (λ e. triple_pure u.role (λ s k. k))
        (λ e.
          triple_seq (guard-Keeps env (not (is_valid_role role)) bad_role)
            (triple_pure role (λ s k. k)))

  pub update_user-Keeps :
      (req : Request) (me : Option User) (segment : List ℕ) (body : Option UserChange)
      → Keeps env IsStaffed (update_user env req me segment body)
  unfolding update_user
  update_user-Keeps req me segment body = triple_bind (body-Keeps env bad_id _) (λ id.
      triple_bind (body-Keeps env bad_json body) (λ change.
        triple_bind (replying_lem env _ (user_by_id_lem env id)) (λ u.
          triple_bind (exit_left (new_role-Keeps u change.role)) (λ role.
            let disabled = or_same u.disabled change.disabled in
            triple_seq (exit_left (keep_last_admin_lem (loses u role disabled) _)) (
              triple_seq
                (replying_lem env server_error (
                  update_user_row_lem env IsStaffed id role disabled (λ v h. h.0.0)
                    (λ v h. update-IsStaffed v id u role disabled h.0.0 h.0.1 h.1)))
                (triple_seq (audit-Keeps env req me "user.update" u.username) (
                  triple_bind (observe-Keeps env (user_by_id-Keeps env id))
                    (λ out. triple_pure (write_json 200 (user_body (shown out))) (λ s k. k)))))))))

  password-IsStaffed :
      (v : View) (id : ℤ) (hash : String) (u : User)
      → IsStaffed v
      → find (has_id id) v.users ≡ some u
      → IsStaffed (record v {
        users = update_rows (has_id id) (λ u. record u { password_hash = hash }) v.users;
      })
  unfolding is_enabled_admin
  password-IsStaffed v id hash u s found =
      let n =
        count-update is_enabled_admin (λ u. record u { password_hash = hash }) id v.users 1
          v.next_user s.numbered found in
      record {
        numbered =
            Numbered-update (has_id id) (λ u. record u { password_hash = hash }) (λ u. refl) v.users
              1 v.next_user s.numbered;
        staffed = omega (arith, n, s.staffed);
      }

  own_or_admin-Keeps :
      {K : View → Type 0} (me : Option User) (id : ℤ) → Keeps env K (own_or_admin env me id)
  unfolding own_or_admin
  own_or_admin-Keeps none id = triple_exit _ (λ s k. k)
  own_or_admin-Keeps (some me) id = guard-Keeps env _ _

  pub set_user_password-Keeps :
      (req : Request) (me : Option User) (segment : List ℕ) (body : Option (List ℕ))
      → Keeps env IsStaffed (set_user_password env req me segment body)
  unfolding set_user_password
  set_user_password-Keeps req me segment body = triple_bind (body-Keeps env bad_id _) (λ id.
      triple_seq (own_or_admin-Keeps me id) (
        triple_bind (body-Keeps env bad_json body) (λ password. triple_seq (guard-Keeps env _ _) (
          triple_bind (replying_lem env _ (user_by_id_lem env id)) (λ u.
            triple_bind (exit_left (new_hash-Keeps env password)) (λ hash.
              triple_seq
                (replying_lem env server_error (
                  set_password_lem env IsStaffed id hash (λ v h. h.0)
                    (λ v h. password-IsStaffed v id hash u h.0 h.1)))
                (triple_seq (audit-Keeps env req me "user.password" u.username)
                  (triple_pure _ (λ s k. k)))))))))

  -- A new row, whatever its role.
  pub insert-IsStaffed :
      (v : View) (u : User)
      → u.id ≡ pos v.next_user
      → IsStaffed v
      → IsStaffed (record v { users = v.users ++ u ∷ []; next_user = v.next_user + 1 })
  insert-IsStaffed v u e s = record {
    numbered = Numbered-insert v.users 1 v.next_user u s.numbered e;
    staffed = omega (arith, s.staffed, count-append is_enabled_admin v.users u);
  }

  pub reject_creds-Keeps :
      {K : View → Type 0} (complaint : Option String) → Keeps env K (reject_creds complaint)
  reject_creds-Keeps none = triple_pure tt (λ s k. k)
  reject_creds-Keeps (some text) = triple_exit _ (λ s k. k)

  pub create_user-Keeps :
      (req : Request) (me : Option User) (body : Option NewUser)
      → Keeps env IsStaffed (create_user env req me body)
  unfolding create_user
  create_user-Keeps req me body = triple_bind (body-Keeps env bad_json body) (λ new.
      triple_seq (reject_creds-Keeps (validate_creds new.creds)) (
        triple_seq (guard-Keeps env _ _) (
          triple_bind (new_hash-Keeps env new.creds.password) (λ hash.
            triple_bind
              (replying_lem env _ (
                create_user_row_lem env IsStaffed new.creds.username hash new.role
                  (λ v s ts. insert-IsStaffed v _ refl s)))
              (λ id. triple_seq (audit-Keeps env req me "user.create" new.creds.username) (
                triple_bind (observe-Keeps env (user_by_id-Keeps env id))
                  (λ u. triple_pure (write_json 201 (user_body (shown u))) (λ s k. k))))))))
