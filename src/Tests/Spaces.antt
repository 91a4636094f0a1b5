-- ===== src/Tests/Spaces.antt =====
-- The theorems on spaces, on three spaces one below the other.
use philosophy_app.Prelude.{
  ℕ, suc, ◌+◌, All, ◌≡◌, refl, Bool, true, false, Option, none, some, List, [], ◌∷◌, length,
}
use philosophy_app.Http.{Result, ok, err}
use philosophy_app.Auth.{AuthContext, TokenRole}
use philosophy_app.Access.{Ctx, ReadingPermission, PostingPermission, Visibility}
use philosophy_app.Roles.{printed}
use philosophy_app.Spaces.{SpaceParam, spells, SpaceRow, SpaceTables}
use philosophy_app.Spaces.Tree.{PatchBody, cycle_walk, patch_space, breadcrumb}
use philosophy_app.Spaces.Members.{join_space}
use philosophy_app.Spaces.Ancestry.{IsRooted}
use philosophy_app.Spaces.Loops.{Passes, LeadsTo, cycle_walk_ends, breadcrumb_ends}
use philosophy_app.Spaces.Reach.{Reach, here, next, patched, joined, Reach-IsRooted}
use philosophy_app.Access.{MemberRole, MemberStatus}
use philosophy_app.Prelude.{arith}
use philosophy_app.Spaces.Settings.{Membership, row_membership, membership_me}
use philosophy_app.Spaces.Permissions.{Honest, called_by, membership_me-Honest}
use philosophy_app.Spaces.Members.{set_status}
use philosophy_app.Spaces.Tally.{
  MemberSteps, start, after, joining, deciding, IsTallied, steps-IsTallied,
}

abbrev user : ℕ → AuthContext
user id = record {
  user_id = id;
  project_id = some 1;
  role = TokenRole.visitor;
  is_operator = false;
  is_project_owner = false;
  is_project_admin = false;
  is_steward = false;
  settings_readonly = false;
}

abbrev by : ℕ → Ctx
by id = record { project_id = 1; auth = some (user id) }

-- A segment that spells a uuid and is no slug.
abbrev path : ℕ → SpaceParam
path id = spells id (id + 1000)

abbrev space : ℕ → Option ℕ → ℕ → SpaceRow
space id parent depth = record {
  base = record {
    id = id;
    project_id = 1;
    user_id = some 5;
    reading_permission = ReadingPermission.anyone;
    posting_permission = PostingPermission.members;
    visibility = Visibility.public;
    deleted_at = none;
  };
  slug = none;
  short_id = id + 100;
  require_join_approval = false;
  parent_space_id = parent;
  depth = depth;
  members_count = 0;
  child_spaces_count = 0;
}

abbrev tables : List SpaceRow → SpaceTables
tables rows = record {
  spaces = rows;
  members = [];
  profiles = record { id = 5; project_id = 1 } ∷ record { id = 6; project_id = 1 } ∷ [];
  entities = [];
  comments = [];
}

abbrev nested : SpaceTables
nested = tables (space 3 (some 2) 2 ∷ space 2 (some 1) 1 ∷ space 1 none 0 ∷ [])

abbrev nested_rooted : IsRooted nested.spaces
nested_rooted = ((2, (refl, (refl, tt))), ((1, (refl, tt)), ((0, tt), tt)))

abbrev answer_or : SpaceTables → Result SpaceTables → SpaceTables
answer_or t (ok t') = t'
answer_or t (err e) = t

abbrev after_join : SpaceTables
unfolding join_space
after_join = answer_or nested (join_space nested (by 6) (path 2))

abbrev reparent : ℕ → PatchBody
reparent parent = record {
  slug = none;
  reading_permission = none;
  posting_permission = none;
  visibility = none;
  require_join_approval = none;
  parent_space_id = some (some (printed parent));
  other_columns = false;
}

abbrev after_move : SpaceTables
unfolding patch_space
after_move = answer_or after_join (patch_space after_join (by 5) (path 3) (some (reparent 1)) true)

moves : Reach nested after_move
unfolding patch_space join_space
moves =
    next (next here (joined (by 6) (path 2) refl)) (
      patched (by 5) (path 3) (some (reparent 1)) true {target = space 3 (some 2) 2} refl refl refl)

Reach-IsRooted_example : IsRooted after_move.spaces
Reach-IsRooted_example = Reach-IsRooted moves nested_rooted

-- Two spaces that are above each other already.
abbrev looped : List SpaceRow
looped = space 1 (some 2) 1 ∷ space 2 (some 1) 1 ∷ space 3 none 0 ∷ []

cycle_walk_ends_example :
    ((b : Bool) × (cycle_walk looped (suc (suc (length looped))) 3 [] (some (printed 1)) ≡ some b))
    × ((b : Bool) × (cycle_walk looped
            (suc (suc (suc (length looped))))
            3
            []
            (some (record { uuid = 1; spelling = 4 }))
          ≡ some b))
cycle_walk_ends_example = cycle_walk_ends looped 3 (record { uuid = 1; spelling = 4 })

breadcrumb_ends_example :
    (fuel : ℕ) × (out : List SpaceRow) × (breadcrumb nested (by 6) fuel (path 3) ≡ ok (some out))
    × All (Passes nested (by 6)) out
    × LeadsTo 3 out
unfolding breadcrumb
breadcrumb_ends_example =
    breadcrumb_ends nested (by 6) (path 3) {space = space 3 (some 2) 2} nested_rooted refl refl

abbrev crowded : SpaceTables
crowded = record nested {
  members =
      record {
        project_id = 1;
        space_id = 2;
        user_id = 6;
        role = MemberRole.moderator;
        status = MemberStatus.active;
      }
      ∷ [];
}

abbrev told : Membership
told = row_membership (space 2 (some 1) 1).base (record {
  project_id = 1;
  space_id = 2;
  user_id = 6;
  role = MemberRole.moderator;
  status = MemberStatus.active;
})

membership_me-Honest_example : Honest crowded (called_by 1 (user 6)) (space 2 (some 1) 1) told
unfolding membership_me
membership_me-Honest_example =
    membership_me-Honest crowded 1 (path 2) (user 6) {space = space 2 (some 1) 1} {v = told} refl
      (omega arith) refl

abbrev after_refusal : SpaceTables
unfolding set_status
after_refusal = answer_or after_join (set_status after_join (by 5) (path 2) 6 MemberStatus.rejected)

turned_away : MemberSteps nested after_refusal
unfolding join_space set_status
turned_away =
    after (after start (joining (by 6) (path 2) refl))
      (deciding (by 5) (path 2) 6 MemberStatus.rejected refl)

steps-IsTallied_example : IsTallied (λ s. 1) after_refusal
steps-IsTallied_example =
    steps-IsTallied (λ s. 1) turned_away
      (((refl, (refl, (refl, tt))), tt), (refl, (refl, (refl, tt))))
