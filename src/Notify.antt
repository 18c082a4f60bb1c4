-- ===== src/Notify.antt =====
-- internal/notify/notify.go: which events are told, and to whom. The texts of the notifications and
-- the requests that carry them are left out.
pub mod Once
mod Tests
use goencode.Prelude.{
  Bool, true, false, not, ◌&&◌, ◌||◌, List, [], ◌∷◌, ◌++◌, Text, codes, text_eq, is_empty,
  if◌then◌else◌, Option, none, some,
}
use goencode.Go.Strings.{trim_space, to_lower, contains, split}

pub data Kind : Type 0 where
  success skip failed : Kind

-- The text of a kind, without regard to case and space around it.
unfoldable pub kind_of : Text → Option Kind
kind_of part =
    let kind = to_lower (trim_space part) in
    if text_eq kind (codes "success")
    then some success
    else if text_eq kind (codes "skip")
    then some skip
    else if text_eq kind (codes "failed")
    then some failed
    else none

unfoldable pub add_kind : Option Kind → List Kind → List Kind
add_kind none kinds = kinds
add_kind (some k) kinds = k ∷ kinds

unfoldable pub kinds_of_parts : List Text → List Kind
kinds_of_parts [] = []
kinds_of_parts (p ∷ ps) = add_kind (kind_of p) (kinds_of_parts ps)

unfoldable pub kinds_of : List Text → List Kind
kinds_of [] = []
kinds_of (raw ∷ list) = kinds_of_parts (split raw b',') ++ kinds_of list

unfoldable pub or_all : List Kind → List Kind
or_all [] = success ∷ skip ∷ failed ∷ []
or_all (k ∷ ks) = k ∷ ks

-- The set of the kinds, as a list.
unfoldable pub parse_events : List Text → List Kind
parse_events list = or_all (kinds_of list)

abbrev pub same_kind : Kind → Kind → Bool
same_kind success success = true
same_kind skip skip = true
same_kind failed failed = true
same_kind _ _ = false

pub data Destination : Type 0 where
  webhook discord : Text → Destination
  ntfy gotify : Text → Text → Destination

pub record Options : Type 0 where
  pub events : List Text
  pub webhook_url : Text
  pub ntfy_url : Text
  pub ntfy_token : Text
  pub discord_webhook : Text
  pub gotify_url : Text
  pub gotify_token : Text

pub record Fanout : Type 0 where
  pub events : List Kind
  pub dests : List Destination

unfoldable pub is_discord_webhook : Text → Bool
is_discord_webhook u =
    contains (to_lower u) (codes "discord.com/api/webhooks")
    || contains (to_lower u) (codes "discordapp.com/api/webhooks")

unfoldable pub webhook_dests : Text → List Destination
webhook_dests u =
    if is_empty u then [] else if is_discord_webhook u then discord u ∷ [] else webhook u ∷ []

unfoldable pub discord_dests : Text → Text → List Destination
discord_dests u other = if is_empty u || text_eq u other then [] else discord u ∷ []

unfoldable pub token_dests : (Text → Text → Destination) → Text → Text → List Destination
token_dests make u token = if is_empty u then [] else make u token ∷ []

unfoldable pub new : Options → Fanout
new opts = record {
  events = parse_events opts.events;
  dests =
      webhook_dests (trim_space opts.webhook_url)
      ++ (discord_dests (trim_space opts.discord_webhook) (trim_space opts.webhook_url)
          ++ (token_dests ntfy (trim_space opts.ntfy_url) (trim_space opts.ntfy_token)
              ++ token_dests gotify (trim_space opts.gotify_url) (trim_space opts.gotify_token)));
}

unfoldable pub has_kind : Kind → List Kind → Bool
has_kind k [] = false
has_kind k (x ∷ xs) = same_kind k x || has_kind k xs

-- The destinations that an event of the kind is sent to.
unfoldable pub notify : Fanout → Kind → List Destination
notify f kind = if has_kind kind f.events then f.dests else []
