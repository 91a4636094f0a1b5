-- ===== src/Tests/Auth.antt =====
-- The wall, on a write of a user who is not suspended.
use philosophy_app.Prelude.{some, false}
use philosophy_app.Auth.{AuthContext, TokenRole, Suspension}

abbrev visitor_auth : AuthContext
visitor_auth = record {
  user_id = 3;
  project_id = some 1;
  role = TokenRole.visitor;
  is_operator = false;
  is_project_owner = false;
  is_project_admin = false;
  is_steward = false;
  settings_readonly = false;
}

abbrev old_suspension : Suspension
old_suspension = record { profile_id = 3; start_date = 10; end_date = some 20 }
