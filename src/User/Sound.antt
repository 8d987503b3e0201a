-- ===== src/User/Sound.antt =====
-- The tables of users and of pending address changes under the writes of
-- src/user/infrastructure/postgres-user.repository.ts.
use ventura_api.Common.{
  or_false_right, ◌≡◌, sym, Bool, false, not, Option, none, some, List, [], ◌∷◌, Uuid, All,
  All-find, All-remove, All-update, filter, update, or_default, Bool-cases, Option-cases, inl, inr,
  ◌==◌,
}
use mathlib.Core.Path.{subst}
use ventura_api.Common.Tidy.{tidy-tidy}
use ventura_api.Common.Keeps.{Keeps}
use ventura_api.Common.Action.{modify}
use ventura_api.Accounts.{Accounts, Env}
use ventura_api.User.Entity.{Text, User, EmailChange}
use ventura_api.User.Repository.{
  CreateUser, UpdateUser, any, collides, has_id, apply_patch, find_by_id, new_row, create, refused,
  update_row, hard_delete, delete_by_user_id, create_email_change,
}
use ventura_api.User.Apart.{IsUnique, IsUnique-update, IsUnique-remove}
use ventura_api.User.Service.{normalize_email}

-- an address in its canonical form
abbrev pub IsNormal : Text → Type 0
IsNormal t = normalize_email t ≡ t

pub record IsSound (s : Accounts) : Type 0 where
  pub unique : IsUnique s.users
  pub normal : All (λ u. IsNormal u.email) s.users
  pub pending : All (λ c. IsNormal c.new_email) s.email_changes

module _ {A : Type 0} (P : A → Type 0) (p : A → Bool) where
  All-kept : (xs : List A) → All P xs → All P (filter p xs)
  All-kept [] h = tt
  All-kept (x ∷ xs) h = elim (Bool-cases (p x)) [
    | inl here ↦ rw here (h.0, All-kept xs h.1)
    | inr later ↦ rw later (All-kept xs h.1)
  ]

-- what a patch writes to the address is canonical
abbrev pub NormalKey : Option Text → Type 0
NormalKey none = Unit
NormalKey (some t) = IsNormal t

patched_normal :
    (e : Option Text) (old : Text) → NormalKey e → IsNormal old → IsNormal (or_default e old)
patched_normal none old h k = k
patched_normal (some t) old h k = h

pub normal_lem : (t : Text) → IsNormal (normalize_email t)
normal_lem t = tidy-tidy t

pub create-IsSound : (env : Env) (d : CreateUser) → IsNormal d.email → Keeps IsSound (create env d)
unfolding create
create-IsSound env d n = record {
  at = λ s h. elim (Bool-cases (any (collides (new_row env d s)) s.users)) [
    | inl taken ↦ rw taken (record { unique = h.unique; normal = h.normal; pending = h.pending })
    | inr free ↦
        rw free (record { unique = (free, h.unique); normal = (n, h.normal); pending = h.pending })
  ];
}

write_lem :
    (env : Env) (id : Uuid) (patch : UpdateUser) (s : Accounts) (u : User)
    → NormalKey patch.email
    → IsSound s
    → find_by_id id s ≡ some u
    → refused env id patch u s.users ≡ false
    → IsSound (record s { users = update (has_id id) (apply_patch patch) s.users })
write_lem env id patch s u n h found accepts = record {
  unique =
      IsUnique-update (has_id id) (apply_patch patch) s.users u h.unique found
        (or_false_right _ _ accepts);
  normal =
      All-update (λ v. IsNormal v.email) (has_id id) (apply_patch patch) s.users u h.normal found
        (patched_normal patch.email u.email n
          (All-find (λ v. IsNormal v.email) (has_id id) s.users u h.normal found));
  pending = h.pending;
}

pub update_row-IsSound :
    (env : Env) (id : Uuid) (patch : UpdateUser)
    → NormalKey patch.email
    → Keeps IsSound (update_row env id patch)
unfolding update_row
update_row-IsSound env id patch n = record {
  at = λ s h. elim (Option-cases (find_by_id id s)) [
    | inl missing ↦ rw (missing, update_row) h
    | inr (u, found) ↦
        rw (found, update_row)
          (elim (Bool-cases (refused env id patch u s.users)) [
            | inl refuses ↦ rw refuses h
            | inr accepts ↦ rw accepts (write_lem env id patch s u n h found accepts)
          ])
  ];
}

-- a patch that leaves the address
pub update_row-kept :
    (env : Env) (id : Uuid) (patch : UpdateUser)
    → patch.email ≡ none
    → Keeps IsSound (update_row env id patch)
update_row-kept env id patch e = update_row-IsSound env id patch (subst NormalKey (sym e) tt)

pub hard_delete-IsSound : (id : Uuid) → Keeps IsSound (hard_delete id)
unfolding hard_delete
hard_delete-IsSound id = record {
  at = λ s h. elim (Option-cases (find_by_id id s)) [
    | inl missing ↦ rw (missing, hard_delete) h
    | inr (u, found) ↦
        rw (found, hard_delete)
          (record {
            unique = IsUnique-remove (has_id id) s.users h.unique;
            normal = All-remove (λ v. IsNormal v.email) (has_id id) s.users h.normal;
            pending = h.pending;
          })
  ];
}

pub delete_by_user_id-IsSound : (id : Uuid) → Keeps IsSound (delete_by_user_id id)
unfolding delete_by_user_id
delete_by_user_id-IsSound id = record {
  at = λ s h. record {
    unique = h.unique;
    normal = h.normal;
    pending =
        All-kept (λ c. IsNormal c.new_email) (λ c. not (c.user_id == id)) s.email_changes h.pending;
  };
}

pub create_email_change-IsSound :
    (c : EmailChange) → IsNormal c.new_email → Keeps IsSound (create_email_change c)
unfolding create_email_change
create_email_change-IsSound c n = record {
  at = λ s h. record { unique = h.unique; normal = h.normal; pending = (n, h.pending) };
}

-- a change beside the tables
pub modify-IsSound :
    (f : Accounts → Accounts)
    → ((s : Accounts) → (f s).users ≡ s.users)
    → ((s : Accounts) → (f s).email_changes ≡ s.email_changes)
    → Keeps IsSound (modify f)
modify-IsSound f e c = record {
  at = λ s h. record {
    unique = rw (e s) h.unique;
    normal = rw (e s) h.normal;
    pending = rw (c s) h.pending;
  };
}
