-- ===== src/Tournament/Admin.antt =====
-- `create`, `update`, `delete`, `findById`, `transitionStatus` and `toResponseDto`.
use cardgames.Prelude.{ℕ, Bool, true, false, Option, none, some, ◌∷◌, ℤ, pos, ◌==◌, if◌then◌else◌}
use Prim.Native.String.{String}
use cardgames.Store.{
  Result, ok, err, ◌>>=◌, ◌>>◌, throw_if, or_throw, tournament_not_found, cannot_edit,
  cannot_delete, unique_violation,
}
use cardgames.Tournament.Defs.{
  Config, Tournament, TournamentStatus, Hall, StateChange, find_tournament, remove, set_tournament,
  same_status, announced, running, on_break, finished, cancelled,
}

-- `TournamentResponseDto`: the password is shown only as a flag.
pub record TournamentResponse : Type 0 where
  pub id : ℕ
  pub name : String
  pub text : Option String
  pub game_type : String
  pub entry_format : String
  pub buy_in : ℕ
  pub fee : ℕ
  pub guaranteed_prize_pool : ℕ
  pub actual_prize_pool : ℤ
  pub bounty_amount : Option ℕ
  pub starting_chips : ℕ
  pub blind_structure : String
  pub seat_cap : Option ℕ
  pub min_players_to_start : ℕ
  pub payout_structure : String
  pub start_time : ℕ
  pub late_registration : String
  pub auto_start : Bool
  pub rebuy_enabled : Bool
  pub addon_enabled : Bool
  pub status : TournamentStatus
  pub total_entries : ℤ
  pub players_remaining : ℤ
  pub current_blind_level : ℕ
  pub tables_active : ℕ
  pub is_private : Bool
  pub created_at : ℕ

-- `!!tournament.password`
abbrev pub has_text : Option String → Bool
has_text none = false
has_text (some String.[]) = false
has_text (some t) = true

pub to_response_dto : Tournament → TournamentResponse
to_response_dto t = record {
  id = t.id;
  name = t.config.name;
  text = t.config.text;
  game_type = t.config.game_type;
  entry_format = t.config.entry_format;
  buy_in = t.config.buy_in;
  fee = t.config.fee;
  guaranteed_prize_pool = t.config.guaranteed_prize_pool;
  actual_prize_pool = t.actual_prize_pool;
  bounty_amount = t.config.bounty_amount;
  starting_chips = t.config.starting_chips;
  blind_structure = t.config.blind_structure;
  seat_cap = t.config.seat_cap;
  min_players_to_start = t.config.min_players_to_start;
  payout_structure = t.config.payout_structure;
  start_time = t.config.start_time;
  late_registration = t.config.late_registration;
  auto_start = t.config.auto_start;
  rebuy_enabled = t.config.rebuy_enabled;
  addon_enabled = t.config.addon_enabled;
  status = t.status;
  total_entries = t.total_entries;
  players_remaining = t.players_remaining;
  current_blind_level = t.current_blind_level;
  tables_active = t.tables_active;
  is_private = has_text t.config.password;
  created_at = t.created_at;
}

-- The row that `create` writes, with the column defaults of the schema.
abbrev pub fresh_tournament : Config → ℕ → ℕ → ℕ → Tournament
fresh_tournament dto admin now new_id = record {
  id = new_id;
  created_at = now;
  created_by_id = admin;
  config = dto;
  status = announced;
  current_blind_level = 0;
  tables_active = 0;
  total_entries = pos 0;
  players_remaining = pos 0;
  actual_prize_pool = pos 0;
  finished_at = none;
}

-- `create`; the id is unique.
unfoldable pub create_tournament : Config → ℕ → ℕ → ℕ → Hall → Result (TournamentResponse × Hall)
unfolding to_response_dto
create_tournament dto admin now new_id h =
    let fresh = fresh_tournament dto admin now new_id in
    elim (find_tournament new_id h) [
      | some t ↦ err unique_violation
      | none ↦ ok (to_response_dto fresh, record h { tournaments = fresh ∷ h.tournaments })
    ]

abbrev pub is_immutable : TournamentStatus → Bool
is_immutable running = true
is_immutable on_break = true
is_immutable finished = true
is_immutable cancelled = true
is_immutable _ = false

abbrev pub is_under_way : TournamentStatus → Bool
is_under_way running = true
is_under_way on_break = true
is_under_way _ = false

-- `UpdateTournamentDto`: `none` is a field that is undefined; a null is a value.
pub record Patch : Type 0 where
  pub name : Option String
  pub text : Option (Option String)
  pub password : Option (Option String)
  pub game_type : Option String
  pub entry_format : Option String
  pub buy_in : Option ℕ
  pub fee : Option ℕ
  pub guaranteed_prize_pool : Option ℕ
  pub bounty_amount : Option (Option ℕ)
  pub starting_chips : Option ℕ
  pub blind_structure : Option String
  pub seat_cap : Option (Option ℕ)
  pub min_players_to_start : Option ℕ
  pub payout_structure : Option String
  pub start_time : Option ℕ
  pub late_registration : Option String
  pub auto_start : Option Bool
  pub rebuy_enabled : Option Bool
  pub rebuy_cost : Option (Option ℕ)
  pub rebuy_chips : Option (Option ℕ)
  pub addon_enabled : Option Bool
  pub addon_cost : Option (Option ℕ)
  pub addon_chips : Option (Option ℕ)
  pub max_re_entries : Option (Option ℕ)
  pub re_entry_window : Option (Option String)

-- `if (dto.x !== undefined) updateData.x = dto.x`
abbrev pub or_kept {ℓ} : {A : Type ℓ} → Option A → A → A
or_kept none kept = kept
or_kept (some new) kept = new

pub patch : Patch → Config → Config
patch dto c = record {
  name = or_kept dto.name c.name;
  text = or_kept dto.text c.text;
  password = or_kept dto.password c.password;
  game_type = or_kept dto.game_type c.game_type;
  entry_format = or_kept dto.entry_format c.entry_format;
  buy_in = or_kept dto.buy_in c.buy_in;
  fee = or_kept dto.fee c.fee;
  guaranteed_prize_pool = or_kept dto.guaranteed_prize_pool c.guaranteed_prize_pool;
  bounty_amount = or_kept dto.bounty_amount c.bounty_amount;
  starting_chips = or_kept dto.starting_chips c.starting_chips;
  blind_structure = or_kept dto.blind_structure c.blind_structure;
  seat_cap = or_kept dto.seat_cap c.seat_cap;
  min_players_to_start = or_kept dto.min_players_to_start c.min_players_to_start;
  payout_structure = or_kept dto.payout_structure c.payout_structure;
  start_time = or_kept dto.start_time c.start_time;
  late_registration = or_kept dto.late_registration c.late_registration;
  auto_start = or_kept dto.auto_start c.auto_start;
  rebuy_enabled = or_kept dto.rebuy_enabled c.rebuy_enabled;
  rebuy_cost = or_kept dto.rebuy_cost c.rebuy_cost;
  rebuy_chips = or_kept dto.rebuy_chips c.rebuy_chips;
  addon_enabled = or_kept dto.addon_enabled c.addon_enabled;
  addon_cost = or_kept dto.addon_cost c.addon_cost;
  addon_chips = or_kept dto.addon_chips c.addon_chips;
  max_re_entries = or_kept dto.max_re_entries c.max_re_entries;
  re_entry_window = or_kept dto.re_entry_window c.re_entry_window;
}

-- `update`
unfoldable pub update_tournament : ℕ → Patch → Hall → Result (TournamentResponse × Hall)
unfolding patch to_response_dto
update_tournament id dto h = do
  existing ← or_throw (find_tournament id h) tournament_not_found
  throw_if (is_immutable existing.status) cannot_edit
  ok (
    to_response_dto (record existing { config = patch dto existing.config }),
    set_tournament id (λ t. record t { config = patch dto t.config }) h,
  )

unfoldable pub find_by_id : ℕ → Hall → Result TournamentResponse
unfolding to_response_dto
find_by_id id h = do
  t ← or_throw (find_tournament id h) tournament_not_found
  ok (to_response_dto t)

-- `delete`; the entries go with the tournament (`onDelete: Cascade`).
unfoldable pub delete : ℕ → Hall → Result (Tournament × Hall)
delete id h = do
  existing ← or_throw (find_tournament id h) tournament_not_found
  throw_if (is_under_way existing.status) cannot_delete
  ok (
    existing,
    record h {
      tournaments = remove (λ t. t.id == id) h.tournaments;
      entries = remove (λ e. e.tournament_id == id) h.entries;
    },
  )

-- What a transition writes in the row.
abbrev pub set_status : TournamentStatus → ℕ → Tournament → Tournament
set_status finished now t = record t { status = finished; finished_at = some now }
set_status new_status now t = record t { status = new_status }

-- The result is the status before.
unfoldable pub transition_status :
    ℕ → TournamentStatus → ℕ → Hall → Result (TournamentStatus × Hall)
transition_status id new_status now h = do
  t ← or_throw (find_tournament id h) tournament_not_found
  let written = set_tournament id (set_status new_status now) h
  let change : StateChange = record {
    tournament_id = id;
    old_status = t.status;
    new_status = new_status;
    timestamp = now;
  }
  let published =
      if h.store.redis_up then record written { changes = change ∷ h.changes } else written
  if same_status t.status new_status then ok (t.status, h) else ok (t.status, published)
