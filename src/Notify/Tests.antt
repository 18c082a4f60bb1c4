-- ===== src/Notify/Tests.antt =====
-- A Discord webhook that is given twice, for failures only.
use goencode.Prelude.{ℕ, ◌≡◌, ◌≤◌, refl, List, [], ◌∷◌, Text, codes}
use goencode.Notify.{Options, Destination, discord, failed, skip, new, notify}
use goencode.Notify.Once.{times, notify_once}

abbrev url : Text
url = codes "https://discord.com/api/webhooks/1"

abbrev opts : Options
opts = record {
  events = codes " Failed,other" ∷ [];
  webhook_url = url;
  ntfy_url = [];
  ntfy_token = [];
  discord_webhook = url;
  gotify_url = [];
  gotify_token = [];
}

notify_once_example : times url (notify (new opts) failed) ≤ 1
notify_once_example = notify_once opts failed url

told : notify (new opts) failed ≡ discord url ∷ []
unfolding notify goencode.Notify.has_kind new goencode.Notify.parse_events goencode.Notify.or_all
    goencode.Notify.kinds_of goencode.Notify.kinds_of_parts goencode.Notify.add_kind
    goencode.Notify.kind_of goencode.Notify.webhook_dests goencode.Notify.is_discord_webhook
    goencode.Notify.discord_dests goencode.Notify.token_dests goencode.Go.Strings.split
    goencode.Go.Strings.contains goencode.Go.Strings.has_prefix goencode.Go.Strings.to_lower
    goencode.Go.Strings.lower goencode.Go.Strings.trim_space goencode.Prelude.text_eq
told = refl
