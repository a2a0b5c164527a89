-- ===== src/Tests/Plugins.antt =====
-- The overrides of the forwarding, durations and the publisher at concrete inputs.
use meshcore_control_bridge.Common.{
  ◌+◌, ◌≤◌, ◌<◌, ◌≡◌, refl, arith, not, true, false, none, some, List, [], ◌∷◌, codes, str_eq,
}
use meshcore_control_bridge.Python.{http_error, ok}
use meshcore_control_bridge.Text.Utf8.{Text}
use meshcore_control_bridge.Auth.{admin, operator}
use meshcore_control_bridge.Health.State.{initial, effective_value}
use meshcore_control_bridge.Health.Snapshot.{same_time}
use meshcore_control_bridge.Dedup.{text_eq}
use meshcore_control_bridge.Health.Render.Duration.{
  duration_of, seconds_of, grain_of, IsProper, duration_of_lem,
}
use meshcore_control_bridge.Health.Publisher.{EventPayload, Publisher, publish_if_needed}
use meshcore_control_bridge.Health.Publisher.Laws.{publish_if_needed_once, publish_if_needed-failed}
use meshcore_control_bridge.World.Exec.{World}
use meshcore_control_bridge.Plugins.Overrides.{
  tg2mc, set_one, request_of, set_answer, handle_bridge_admin,
}
use meshcore_control_bridge.Plugins.Overrides.Laws.{
  IsGranted, effective_in, handle_bridge_admin-values,
}
use meshcore_control_bridge.Plugins.Overrides.Effect.{handle_bridge_admin-sets}
use meshcore_control_bridge.Tests.Data.{env, plain, world}

abbrev healthy : World
healthy = record world { health = some (initial "1.0" 0) }

abbrev tg2mc_on : List Text
tg2mc_on = codes "tg2mc" ∷ codes "on" ∷ []

handle_bridge_admin-values_example :
    IsGranted env none plain "telegram_to_meshcore" operator
      (request_of env none plain tg2mc_on)
      healthy
      (handle_bridge_admin env none plain "telegram" operator tg2mc_on none healthy).2
handle_bridge_admin-values_example =
    handle_bridge_admin-values env none plain "telegram_to_meshcore" "telegram" operator tg2mc_on
      none healthy

asks_tg2mc : request_of env none plain tg2mc_on ≡ set_one tg2mc true
unfolding request_of text_eq
asks_tg2mc = refl

is_off : effective_in "telegram_to_meshcore" healthy ≡ some false
unfolding effective_value
is_off = refl

handle_bridge_admin-sets_example :
    ((handle_bridge_admin env none plain "telegram" admin tg2mc_on none healthy).0
      ≡ ok (set_answer (not (str_eq "telegram" "telegram")) tg2mc true))
    × (effective_in "telegram_to_meshcore"
          (handle_bridge_admin env none plain "telegram" admin tg2mc_on none healthy).2
        ≡ some true)
handle_bridge_admin-sets_example =
    handle_bridge_admin-sets env none plain (λ n h. cc) "telegram" admin tg2mc_on none healthy tg2mc
      true false (ground arith) asks_tg2mc is_off

duration_of_lem_example :
    (seconds_of (duration_of 3725) ≤ 3725)
    × (3725 < seconds_of (duration_of 3725) + grain_of (duration_of 3725))
    × IsProper (duration_of 3725)
duration_of_lem_example = duration_of_lem 3725

abbrev publisher : Publisher
publisher = record {
  health = record (initial "1.0" 0) { has_callback = true };
  channel_index = 1;
  enabled = true;
  running = true;
  changed = false;
  critical = false;
  stopped = false;
  published_fingerprint = none;
  fired = [];
}

abbrev encode : EventPayload → Text
encode p = p.channel ∷ codes p.status

is_accepted : (publish_if_needed encode 5 none false publisher).0 ≡ ok true
unfolding publish_if_needed meshcore_control_bridge.Health.Publisher.event_fingerprint
is_accepted = refl

publish_if_needed_once_example :
    publish_if_needed encode 9 none false (publish_if_needed encode 5 none false publisher).1
    ≡ (ok false, (publish_if_needed encode 5 none false publisher).1)
publish_if_needed_once_example =
    publish_if_needed_once encode 5 9 none none false publisher is_accepted

is_first : same_time (some 5) publisher.health.last_failure ≡ false
unfolding same_time
is_first = refl

publish_if_needed-failed_example :
    ((publish_if_needed encode 5 (some http_error) true publisher).0 ≡ ok false)
    × ((publish_if_needed encode 5 (some http_error) true publisher).1.changed ≡ true)
    × ((publish_if_needed encode 5 (some http_error) true publisher).1.critical ≡ true)
    × ((publish_if_needed encode 5 (some http_error) true publisher).1.fired ≡ publisher.fired)
publish_if_needed-failed_example =
    publish_if_needed-failed encode 5 http_error publisher refl refl (refl, refl, refl) is_first
