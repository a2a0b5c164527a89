-- ===== src/Health/Render.antt =====
-- bridge_health.py: the status and the last activity as texts, and the payload of the health event.
pub mod Duration
use meshcore_control_bridge.Common.{
  ℕ, zero, suc, ◌-◌, ◌/◌, String, Bool, true, false, not, Option, none, some, List, [], ◌∷◌, ◌++◌,
  ltb, if◌then◌else◌, str_eq, codes, length, leb,
}
use meshcore_control_bridge.Text.Utf8.{Text}
use meshcore_control_bridge.Dedup.{text_eq}
use meshcore_control_bridge.Commands.Parser.{starts_with}
use meshcore_control_bridge.Health.Snapshot.{BridgeHealthSnapshot, telegram_state, status}
use meshcore_control_bridge.Health.Render.Duration.{relative_duration, relative_time}

-- `"\n".join`
abbrev pub join_lines : List Text → Text
join_lines [] = []
join_lines (line ∷ []) = line
join_lines (line ∷ lines) = line ++ 10 ∷ join_lines lines

-- `s.replace(old, new)` for an `old` that is not empty; `skip` characters of a match are left out.
unfoldable pub replace_from : Text → Text → ℕ → Text → Text
replace_from old new skip [] = []
replace_from old new (suc skip) (c ∷ s) = replace_from old new skip s
replace_from old new zero (c ∷ s) = elim (starts_with (c ∷ s) old) [
  | true ↦ new ++ replace_from old new (length old - 1) s
  | false ↦ c ∷ replace_from old new zero s
]

abbrev pub on_off : Bool → Text
on_off value = if value then codes "on" else codes "off"

-- `_on_off_override`
abbrev pub on_off_override : Bool → Option Bool → Bool → Text
on_off_override value none compact = on_off value
on_off_override value (some b) compact =
    on_off value ++ (if compact then codes "*" else codes " (override)")

abbrev pub short_connected : String → Text
short_connected value = if str_eq value "connected" then codes "on" else codes "off"

abbrev pub short_telegram : String → Text
short_telegram value =
    if str_eq value "disabled"
    then codes "off"
    else if str_eq value "connected"
    then codes "on"
    else codes "deg"

abbrev pub with_ago : Text → Text
with_ago value =
    if text_eq value (codes "never")
    then value
    else if text_eq value (codes "now")
    then value
    else value ++ codes " ago"

-- The decimal numeral of a number is a parameter.
module _ (decimal : ℕ → Text) where
  abbrev pub compact_count : ℕ → Text
  compact_count value =
      if ltb value 10000
      then decimal value
      else if ltb value 1000000
      then decimal (value / 1000) ++ codes "k"
      else codes "999k+"

  unfoldable pub render_bridge_status : BridgeHealthSnapshot → Bool → Text
  render_bridge_status s compact =
      let telegram = telegram_state s in
      let tg_to_mc =
        on_off_override s.forward_telegram_to_meshcore s.override_telegram_to_meshcore compact in
      let mc_to_tg =
        on_off_override s.forward_meshcore_to_telegram s.override_meshcore_to_telegram compact in
      let confirmation =
        on_off_override s.forward_confirmation_enabled s.override_confirmation compact in
      if compact
      then join_lines (
          (codes "Bridge " ++ codes s.version)
          ∷ (codes "MC:"
              ++ short_connected s.meshcore_transport_state
              ++ codes " TG:"
              ++ short_telegram telegram
              ++ codes " CH:?")
          ∷ (codes "T2M:" ++ tg_to_mc ++ codes " M2T:" ++ mc_to_tg ++ codes " CF:" ++ confirmation)
          ∷ (codes "DB A:" ++ codes s.audit_db_health ++ codes " T:" ++ codes s.telegram_db_health)
          ∷ (codes "Err:" ++ codes s.last_failure_reason)
          ∷ [])
      else join_lines (
          (codes "Version: " ++ codes s.version)
          ∷ (codes "MeshCore: " ++ codes s.meshcore_transport_state)
          ∷ (codes "Telegram: " ++ codes telegram)
          ∷ codes "Channel: {channel}"
          ∷ (codes "TG->MC: " ++ tg_to_mc)
          ∷ (codes "MC->TG: " ++ mc_to_tg)
          ∷ (codes "TG confirm: " ++ confirmation)
          ∷ (codes "Audit DB: " ++ codes s.audit_db_health)
          ∷ (codes "Telegram DB: " ++ codes s.telegram_db_health)
          ∷ (codes "Last error: " ++ codes s.last_failure_reason)
          ∷ [])

  unfoldable pub with_channel : ℕ → Text → Text
  unfolding replace_from
  with_channel channel_index text =
      replace_from (codes "CH:?") (codes "CH:" ++ decimal channel_index) 0
        (replace_from (codes "{channel}") (decimal channel_index) 0 text)

  abbrev pub with_events : Bool → Option Bool → Option ℕ → Text → Text
  with_events compact (some events) (some heartbeat) text =
      if compact
      then text ++ 10 ∷ codes "HAE:" ++ on_off events ++ codes " HB:" ++ decimal heartbeat
      else join_lines (
          text
          ∷ (codes "HA events: " ++ on_off events)
          ∷ (codes "Heartbeat: " ++ decimal heartbeat ++ codes "s")
          ∷ [])
  with_events compact _ _ text = text

  unfoldable pub render_bridge_status_for_channel :
      BridgeHealthSnapshot → ℕ → Bool → Option Bool → Option ℕ → Text
  unfolding render_bridge_status with_channel
  render_bridge_status_for_channel s channel_index compact events heartbeat =
      with_events compact events heartbeat
        (with_channel channel_index (render_bridge_status s compact))

  unfoldable pub render_last_activity : BridgeHealthSnapshot → ℕ → Bool → Text
  unfolding relative_duration relative_time
  render_last_activity s now compact =
      let tg_to_mc = relative_time decimal s.last_tg_to_mc now in
      let mc_to_tg = relative_time decimal s.last_mc_to_tg now in
      let last_error_time = relative_time decimal s.last_failure now in
      let uptime = relative_duration decimal s.uptime_seconds compact in
      if compact
      then join_lines (
          codes "Last"
          ∷ (codes "T2M:" ++ tg_to_mc ++ codes " M2T:" ++ mc_to_tg)
          ∷ (codes "OK:"
              ++ compact_count s.tg_to_mc_success
              ++ codes "/"
              ++ compact_count s.mc_to_tg_success
              ++ codes " F:"
              ++ compact_count s.tg_to_mc_failed
              ++ codes "/"
              ++ compact_count s.mc_to_tg_failed)
          ∷ (codes "Cmd:" ++ compact_count s.commands_processed ++ codes " Up:" ++ uptime)
          ∷ (codes "Err:" ++ codes s.last_failure_reason)
          ∷ [])
      else join_lines (
          codes "Last activity"
          ∷ []
          ∷ (codes "TG -> MC: " ++ with_ago tg_to_mc)
          ∷ (codes "MC -> TG: " ++ with_ago mc_to_tg)
          ∷ (codes "TG -> MC: "
              ++ decimal s.tg_to_mc_success
              ++ codes " success / "
              ++ decimal s.tg_to_mc_failed
              ++ codes " failed")
          ∷ (codes "MC -> TG: "
              ++ decimal s.mc_to_tg_success
              ++ codes " success / "
              ++ decimal s.mc_to_tg_failed
              ++ codes " failed")
          ∷ (codes "Commands: " ++ decimal s.commands_processed)
          ∷ (codes "Last error: " ++ codes s.last_failure_reason)
          ∷ (codes "Last error time: " ++ with_ago last_error_time)
          ∷ (codes "Uptime: " ++ uptime)
          ∷ [])
