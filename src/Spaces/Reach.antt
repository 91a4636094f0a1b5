-- ===== src/Spaces/Reach.antt =====
-- The requests of apps/api/src/routes/spaces.ts that change the tables, as steps.
use mathlib.Core.Path.{subst}
use philosophy_app.Prelude.{
  ℕ, ◌+◌, ◌-◌, ◌≡◌, refl, inl, inr, Bool, true, false, Option, List, [], ◌∷◌, Bool-cases, has_row,
}
use philosophy_app.Http.{
  ok, guard, bind-ok, ok-injective, parse_body, database_error, member_not_found,
  entity_not_in_space, comment_not_found,
}
use philosophy_app.Access.{
  Ctx, require_auth, MemberRole, MemberStatus, ModerationStatus, SpaceMember, is_active,
}
use philosophy_app.Roles.{UuidText}
use philosophy_app.Spaces.{
  SpaceParam, SpaceRow, SpaceTables, space_id_is, get_space, require_space_role, only_admin,
  admin_or_moderator, has_profile, on_member_change,
}
use philosophy_app.Spaces.Tree.{
  Move, SpaceBody, PatchBody, create_space, decide_move, patch_space, delete_space,
  recount_children,
}
use philosophy_app.Spaces.Members.{
  count_changes, recount, real_count, update_members, delete_members, upsert_join, join_status,
  join_space, own_membership, leave_space, member_key, remove_member, change_role, set_status,
  entity_in_space, comment_key, moderate_entity, moderate_comment,
}
use philosophy_app.Spaces.Ancestry.{IsRooted}
use philosophy_app.Spaces.Rooted.{update-IsRooted}
use philosophy_app.Spaces.Growth.{create-IsRooted, recount-IsRooted}
use philosophy_app.Spaces.Steps.{names_alias, patch-IsRooted, delete-IsRooted}

-- One request, by any caller. A body of a PATCH does not name as the parent the space itself in another
-- spelling of the id than the printed one. The statements of a reparenting are no transaction: `recounted` is one
-- whose last statement fails, after the counters of the parents have changed.
pub data Step (t : SpaceTables) : SpaceTables → Type 0 where
  created :
      {t' : SpaceTables} (c : Ctx) (body : Option SpaceBody) (valid : Bool) (fresh short_id : ℕ)
      → create_space t c body valid fresh short_id ≡ ok t'
      → Step t t'
  patched :
      {t' : SpaceTables} (c : Ctx) (param : SpaceParam) (body : Option PatchBody) (valid : Bool)
      {target : SpaceRow}
      → get_space t c.project_id param ≡ ok target
      → names_alias target.base.id body ≡ false
      → patch_space t c param body valid ≡ ok t'
      → Step t t'
  recounted :
      (space : SpaceRow) (project_id : ℕ) (q : Option (Option UuidText)) (move : Move)
      → decide_move t project_id space q ≡ ok move
      → Step t (record t { spaces = recount_children move space.parent_space_id t.spaces })
  deleted :
      {t' : SpaceTables} (c : Ctx) (param : SpaceParam) (now : ℕ)
      → delete_space t c param now ≡ ok t'
      → Step t t'
  joined :
      {t' : SpaceTables} (c : Ctx) (param : SpaceParam) → join_space t c param ≡ ok t' → Step t t'
  left :
      {t' : SpaceTables} (c : Ctx) (param : SpaceParam) → leave_space t c param ≡ ok t' → Step t t'
  expelled :
      {t' : SpaceTables} (c : Ctx) (param : SpaceParam) (member_id : ℕ)
      → remove_member t c param member_id ≡ ok t'
      → Step t t'
  promoted :
      {t' : SpaceTables} (c : Ctx) (param : SpaceParam) (member_id : ℕ) (body : Option MemberRole)
      → change_role t c param member_id body ≡ ok t'
      → Step t t'
  decided :
      {t' : SpaceTables} (c : Ctx) (param : SpaceParam) (member_id : ℕ) (status : MemberStatus)
      → set_status t c param member_id status ≡ ok t'
      → Step t t'
  moderated_entity :
      {t' : SpaceTables} (c : Ctx) (param : SpaceParam) (entity_id : ℕ)
      (body : Option ModerationStatus)
      → moderate_entity t c param entity_id body ≡ ok t'
      → Step t t'
  moderated_comment :
      {t' : SpaceTables} (c : Ctx) (param : SpaceParam) (comment_id : ℕ)
      (body : Option ModerationStatus)
      → moderate_comment t c param comment_id body ≡ ok t'
      → Step t t'

pub data Reach (t : SpaceTables) : SpaceTables → Type 0 where
  here : Reach t t
  next : {u v : SpaceTables} → Reach t u → Step u v → Reach t v

change-IsRooted :
    (s : ℕ) (before after : Bool) (rows : List SpaceRow)
    → IsRooted rows
    → IsRooted (on_member_change s before after rows)
change-IsRooted s true true rows rooted = rooted
change-IsRooted s false false rows rooted = rooted
change-IsRooted s false true rows rooted =
    update-IsRooted (space_id_is s)
      (λ (r : SpaceRow). record r { members_count = r.members_count + 1 }) rows (λ x r. refl)
      (λ r. refl) rooted
change-IsRooted s true false rows rooted =
    update-IsRooted (space_id_is s)
      (λ (r : SpaceRow). record r { members_count = r.members_count - 1 }) rows (λ x r. refl)
      (λ r. refl) rooted

changes-IsRooted :
    (p now_active : SpaceMember → Bool) (s : ℕ) (ms : List SpaceMember) (rows : List SpaceRow)
    → IsRooted rows
    → IsRooted (count_changes p now_active s ms rows)
changes-IsRooted p now_active s [] rows rooted = rooted
changes-IsRooted p now_active s (m ∷ ms) rows rooted =
    let rest = changes-IsRooted p now_active s ms rows rooted in
    elim (Bool-cases (p m)) [
      | inl hit ↦ rw hit (
          change-IsRooted s (is_active m.status) (now_active m)
            (count_changes p now_active s ms rows) rest)
      | inr miss ↦ rw miss rest
    ]

recount_members-IsRooted :
    (project_id s : ℕ) (t : SpaceTables)
    → IsRooted t.spaces
    → IsRooted (recount project_id s t).spaces
recount_members-IsRooted project_id s t rooted =
    update-IsRooted (space_id_is s)
      (λ (r : SpaceRow). record r { members_count = real_count t project_id s }) t.spaces
      (λ x r. refl) (λ r. refl) rooted

update_members-IsRooted :
    (t : SpaceTables) (s : ℕ) (p : SpaceMember → Bool) (f : SpaceMember → SpaceMember)
    → IsRooted t.spaces
    → IsRooted (update_members t s p f).spaces
unfolding update_members
update_members-IsRooted t s p f rooted =
    changes-IsRooted p (λ (m : SpaceMember). is_active (f m).status) s t.members t.spaces rooted

delete_members-IsRooted :
    (t : SpaceTables) (s : ℕ) (p : SpaceMember → Bool)
    → IsRooted t.spaces
    → IsRooted (delete_members t s p).spaces
unfolding delete_members
delete_members-IsRooted t s p rooted =
    changes-IsRooted p (λ (m : SpaceMember). false) s t.members t.spaces rooted

upsert-IsRooted :
    (t : SpaceTables) (project_id s user_id : ℕ) (status : MemberStatus)
    → IsRooted t.spaces
    → IsRooted (upsert_join t project_id s user_id status).spaces
unfolding upsert_join
upsert-IsRooted t project_id s user_id status rooted =
    elim (Bool-cases (has_row (member_key s user_id) t.members)) [
      | inl there ↦ rw there (
          update_members-IsRooted t s (member_key s user_id)
            (λ (m : SpaceMember). record m { status = status; role = MemberRole.member }) rooted)
      | inr new ↦ rw new (change-IsRooted s false (is_active status) t.spaces rooted)
    ]

answered :
    (t : SpaceTables) {t' : SpaceTables} → ok t ≡ ok t' → IsRooted t.spaces → IsRooted t'.spaces
answered t h rooted = subst (λ (s : SpaceTables). IsRooted s.spaces) (ok-injective h) rooted

Step-IsRooted : {t t' : SpaceTables} → Step t t' → IsRooted t.spaces → IsRooted t'.spaces
unfolding join_space leave_space remove_member change_role set_status moderate_entity
    moderate_comment
Step-IsRooted {t} (created c body valid fresh short_id h) rooted =
    create-IsRooted t c body valid fresh short_id h rooted
Step-IsRooted {t} (patched c param body valid {target} got plain h) rooted =
    patch-IsRooted t c param body valid {target = target} got plain h rooted
Step-IsRooted {t} (recounted space project_id q move h) rooted =
    recount-IsRooted move space.parent_space_id t.spaces rooted
Step-IsRooted {t} (deleted c param now h) rooted = delete-IsRooted t c param now h rooted
Step-IsRooted {t} (joined c param h) rooted =
    let (auth, from0, h1) = bind-ok (require_auth c) _ h in
    let (space, from1, h2) = bind-ok (get_space t c.project_id param) _ h1 in
    let (u, from2, h3) =
      bind-ok {A = Unit} (guard (has_profile t auth.user_id) database_error) _ h2 in
    let status = join_status space.require_join_approval in
    let added = upsert_join t c.project_id space.base.id auth.user_id status in
    answered (recount c.project_id space.base.id added) h3 (
      recount_members-IsRooted c.project_id space.base.id added
        (upsert-IsRooted t c.project_id space.base.id auth.user_id status rooted))
Step-IsRooted {t} (left c param h) rooted =
    let (auth, from0, h1) = bind-ok (require_auth c) _ h in
    let (space, from1, h2) = bind-ok (get_space t c.project_id param) _ h1 in
    let mine = own_membership c.project_id space.base.id auth.user_id in
    let fewer = delete_members t space.base.id mine in
    answered (recount c.project_id space.base.id fewer) h2 (
      recount_members-IsRooted c.project_id space.base.id fewer
        (delete_members-IsRooted t space.base.id mine rooted))
Step-IsRooted {t} (expelled c param member_id h) rooted =
    let (auth, from0, h1) = bind-ok (require_auth c) _ h in
    let (space, from1, h2) = bind-ok (get_space t c.project_id param) _ h1 in
    let (role, from2, h3) =
      bind-ok (require_space_role t c.project_id auth space admin_or_moderator) _ h2 in
    let key = member_key space.base.id member_id in
    answered (delete_members t space.base.id key) h3
      (delete_members-IsRooted t space.base.id key rooted)
Step-IsRooted {t} (promoted c param member_id body h) rooted =
    let (auth, from0, h1) = bind-ok (require_auth c) _ h in
    let (space, from1, h2) = bind-ok (get_space t c.project_id param) _ h1 in
    let (role, from2, h3) =
      bind-ok (require_space_role t c.project_id auth space only_admin) _ h2 in
    let (new_role, from3, h4) = bind-ok (parse_body body) _ h3 in
    let key = member_key space.base.id member_id in
    let (u, from4, h5) = bind-ok {A = Unit} (guard (has_row key t.members) member_not_found) _ h4 in
    let f : SpaceMember → SpaceMember = λ m. record m { role = new_role } in
    answered (update_members t space.base.id key f) h5
      (update_members-IsRooted t space.base.id key f rooted)
Step-IsRooted {t} (decided c param member_id status h) rooted =
    let (auth, from0, h1) = bind-ok (require_auth c) _ h in
    let (space, from1, h2) = bind-ok (get_space t c.project_id param) _ h1 in
    let (role, from2, h3) =
      bind-ok (require_space_role t c.project_id auth space admin_or_moderator) _ h2 in
    let key = member_key space.base.id member_id in
    let (u, from3, h4) = bind-ok {A = Unit} (guard (has_row key t.members) member_not_found) _ h3 in
    let f : SpaceMember → SpaceMember = λ m. record m { status = status } in
    answered (update_members t space.base.id key f) h4
      (update_members-IsRooted t space.base.id key f rooted)
Step-IsRooted {t} (moderated_entity c param entity_id body h) rooted =
    let (auth, from0, h1) = bind-ok (require_auth c) _ h in
    let (space, from1, h2) = bind-ok (get_space t c.project_id param) _ h1 in
    let (role, from2, h3) =
      bind-ok (require_space_role t c.project_id auth space admin_or_moderator) _ h2 in
    let (status, from3, h4) = bind-ok (parse_body body) _ h3 in
    let (u, from4, h5) =
      bind-ok {A = Unit}
        (guard (has_row (entity_in_space c.project_id entity_id space.base.id) t.entities)
          entity_not_in_space)
        _ h4 in
    subst (λ (s : SpaceTables). IsRooted s.spaces) (ok-injective h5) rooted
Step-IsRooted {t} (moderated_comment c param comment_id body h) rooted =
    let (auth, from0, h1) = bind-ok (require_auth c) _ h in
    let (space, from1, h2) = bind-ok (get_space t c.project_id param) _ h1 in
    let (role, from2, h3) =
      bind-ok (require_space_role t c.project_id auth space admin_or_moderator) _ h2 in
    let (status, from3, h4) = bind-ok (parse_body body) _ h3 in
    let (u, from4, h5) =
      bind-ok {A = Unit}
        (guard (has_row (comment_key c.project_id comment_id) t.comments) comment_not_found) _ h4 in
    subst (λ (s : SpaceTables). IsRooted s.spaces) (ok-injective h5) rooted

-- From tables in which every space stands below a root, every sequence of the requests that change
-- spaces, members, entities and comments keeps it so: the parents exist and no space is above itself. Each
-- request runs on its own, and no PATCH names as the parent the space that it moves in another spelling of
-- the id than the printed one.
pub Reach-IsRooted : {t t' : SpaceTables} → Reach t t' → IsRooted t.spaces → IsRooted t'.spaces
Reach-IsRooted here rooted = rooted
Reach-IsRooted (next before step) rooted = Step-IsRooted step (Reach-IsRooted before rooted)
