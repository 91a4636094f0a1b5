-- ===== src/Steward/Mediation.antt =====
-- apps/api/src/lib/mediation.ts: when a joint room is allowed, and how the channels of a case are
-- wound down. A channel is the row of its conversation.
use philosophy_app.Prelude.{
  ℕ, Bool, true, false, not, ◌&&◌, List, [], ◌∷◌, ◌==◌, if◌then◌else◌, update_rows, select_rows,
}
use philosophy_app.Steward.{
  MediationMode, hybrid, caucus, MediationOnClose, archive_read_only, lock_leave, leave_open,
}

pub record Channel : Type 0 where
  pub id : ℕ
  pub project_id : ℕ
  pub steward_case_id : ℕ
  pub admins_only : Bool

pub record ChannelMember : Type 0 where
  pub conversation_id : ℕ
  pub user_id : ℕ
  pub is_admin : Bool
  pub is_active : Bool

-- `system_messages` holds the channel of each line that the server has posted.
pub record Mediation : Type 0 where
  pub channels : List Channel
  pub members : List ChannelMember
  pub system_messages : List ℕ

abbrev pub is_hybrid : MediationMode → Bool
is_hybrid hybrid = true
is_hybrid caucus = false

unfoldable pub can_open_joint : MediationMode → Bool → Bool → Bool
can_open_joint mode asymmetry has_both_parties =
    is_hybrid mode && (not asymmetry && has_both_parties)

unfoldable pub list_case_channels : List Channel → ℕ → ℕ → List Channel
list_case_channels channels project_id case_id =
    select_rows (λ (c : Channel). c.project_id == project_id && c.steward_case_id == case_id)
      channels

abbrev pub drops : MediationOnClose → Bool
drops lock_leave = true
drops _ = false

abbrev pub lock_channel : ℕ → List Channel → List Channel
lock_channel id channels =
    update_rows (λ (c : Channel). c.id == id) (λ c. record c { admins_only = true }) channels

abbrev pub drop_parties : ℕ → List ChannelMember → List ChannelMember
drop_parties id members =
    update_rows (λ (m : ChannelMember). m.conversation_id == id && (m.is_active && not m.is_admin))
      (λ m. record m { is_active = false }) members

-- One turn of the loop.
abbrev pub close_channel : MediationOnClose → ℕ → Mediation → Mediation
close_channel on_close id m = record {
  channels = lock_channel id m.channels;
  members = if drops on_close then drop_parties id m.members else m.members;
  system_messages = id ∷ m.system_messages;
}

abbrev pub close_channels : MediationOnClose → List Channel → Mediation → Mediation
close_channels on_close [] m = m
close_channels on_close (c ∷ rest) m = close_channels on_close rest (close_channel on_close c.id m)

unfoldable pub close_mediation_for_case : MediationOnClose → ℕ → ℕ → Mediation → Mediation
unfolding list_case_channels
close_mediation_for_case leave_open project_id case_id m = m
close_mediation_for_case archive_read_only project_id case_id m =
    close_channels archive_read_only (list_case_channels m.channels project_id case_id) m
close_mediation_for_case lock_leave project_id case_id m =
    close_channels lock_leave (list_case_channels m.channels project_id case_id) m
