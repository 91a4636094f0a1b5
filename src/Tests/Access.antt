-- ===== src/Tests/Access.antt =====
-- The gates, on one space that restricts posting and one entity in a public space.
use philosophy_app.Prelude.{◌≡◌, ◌≢◌, ◌⊎◌, refl, none, some, [], ◌∷◌, true, false, ◌==◌}
use philosophy_app.Http.{ok, is_ok}
use philosophy_app.Auth.{TokenRole}
use philosophy_app.Access.{
  Space, SpaceMember, Entity, Tables, Ctx, ReadingPermission, PostingPermission, Visibility,
  unlisted, MemberRole, MemberStatus, assert_can_read_space, assert_can_post_in_space,
  readable_entities_filter, discoverable_spaces_sql, space_visible_to_viewer, load_gated,
  should_hide, removed_policy,
}
use philosophy_app.Access.Reading.{filter-gate, post-read, discoverable-visible}
use philosophy_app.Access.Exposure.{anonymous, load_gated-public}

abbrev reader : Ctx
reader = record {
  project_id = 1;
  auth = some (record {
    user_id = 2;
    project_id = some 1;
    role = TokenRole.visitor;
    is_operator = false;
    is_project_owner = false;
    is_project_admin = false;
    is_steward = false;
    settings_readonly = false;
  });
}

abbrev salon : Space
salon = record {
  id = 9;
  project_id = 1;
  user_id = some 1;
  reading_permission = ReadingPermission.members;
  posting_permission = PostingPermission.members;
  visibility = Visibility.unlisted;
  deleted_at = none;
}

abbrev forum : Space
forum = record {
  id = 8;
  project_id = 1;
  user_id = some 1;
  reading_permission = ReadingPermission.anyone;
  posting_permission = PostingPermission.anyone;
  visibility = Visibility.public;
  deleted_at = none;
}

abbrev salon_member : SpaceMember
salon_member = record {
  project_id = 1;
  space_id = 9;
  user_id = 2;
  role = MemberRole.member;
  status = MemberStatus.active;
}

abbrev essay : Entity
essay = record {
  id = 4;
  project_id = 1;
  space_id = some 8;
  foreign_id = none;
  is_public = true;
  is_draft = none;
  moderation_status = none;
  deleted_at = none;
}

abbrev draft : Entity
draft = record essay { id = 5; is_draft = some true }

abbrev site : Tables
site = record {
  spaces = salon ∷ forum ∷ [];
  space_members = salon_member ∷ [];
  entities = essay ∷ draft ∷ [];
  comments = [];
}

filter-gate_example :
    readable_entities_filter site reader (some 9)
    ≡ is_ok (assert_can_read_space site reader (some 9) 1)
filter-gate_example =
    filter-gate site reader 9 {s = salon} (refl, (refl, tt)) ((λ k. refl), tt) refl

post-read_example : assert_can_read_space site reader (some 9) 1 ≡ ok tt
unfolding assert_can_post_in_space
post-read_example = post-read site reader 9 {s = salon} refl refl refl

discoverable-visible_example :
    (discoverable_spaces_sql site reader salon ≡ true
      → space_visible_to_viewer site reader salon ≡ true)
    × (space_visible_to_viewer site reader salon ≡ true
        → (discoverable_spaces_sql site reader salon ≡ true) ⊎ (salon.visibility ≡ unlisted))
discoverable-visible_example = discoverable-visible site reader salon ((λ k. refl), tt) refl

load_gated-public_example :
    (essay.is_public ≡ true)
    × (essay.deleted_at ≡ none)
    × (essay.is_draft ≢ some true)
    × (should_hide (removed_policy (anonymous 1)) essay.moderation_status ≡ false)
    × (assert_can_read_space site (anonymous 1) essay.space_id 1 ≡ ok tt)
    × (essay.project_id ≡ 1)
unfolding load_gated
load_gated-public_example =
    load_gated-public site 1 (λ (e : Entity). e.id == 4) {e = essay} (refl, (refl, tt)) refl
