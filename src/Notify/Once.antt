-- ===== src/Notify/Once.antt =====
-- No Discord webhook is told of an event twice.
use goencode.Prelude.{
  ℕ, suc, ◌+◌, ◌≤◌, ◌≡◌, refl, sym, ◌∙◌, Bool, true, List, [], ◌∷◌, ◌++◌, Text, text_eq,
  text_eq_iff, is_empty, if◌then◌else◌, if_both, arith,
}
use mathlib.Core.Path.{ap₂}
use goencode.Go.Strings.{trim_space}
use goencode.Notify.{
  Kind, Destination, webhook, discord, ntfy, gotify, Options, webhook_dests, discord_dests,
  token_dests, new, notify, has_kind,
}

-- How often the webhook stands in the list.
abbrev pub times : Text → List Destination → ℕ
times u [] = 0
times u (discord v ∷ ds) = if text_eq u v then suc (times u ds) else times u ds
times u (_ ∷ ds) = times u ds

times_append : (u : Text) (xs ys : List Destination) → times u (xs ++ ys) ≡ times u xs + times u ys
times_append u [] ys = omega arith
times_append u (webhook v ∷ ds) ys = times_append u ds ys
times_append u (ntfy v t ∷ ds) ys = times_append u ds ys
times_append u (gotify v t ∷ ds) ys = times_append u ds ys
times_append u (discord v ∷ ds) ys = ground (arith, times_append u ds ys)

webhook_times : (u a : Text) → times u (webhook_dests a) ≤ (if text_eq u a then 1 else 0)
unfolding webhook_dests
webhook_times u a = ground arith

discord_times :
    (u b a : Text)
    → times u (discord_dests b a) ≤ (if text_eq u b then if text_eq b a then 0 else 1 else 0)
unfolding discord_dests
discord_times u b a = ground arith

token_times :
    (u : Text) (make : Text → Text → Destination) (v t : Text)
    → ((w s : Text) → times u (make w s ∷ []) ≡ 0)
    → times u (token_dests make v t) ≡ 0
unfolding token_dests
token_times u make v t none_of_it =
    if_both (λ ds. times u ds ≡ 0) (is_empty v) refl (none_of_it v t)

same : (u a b : Text) → text_eq u a ≡ true → text_eq u b ≡ true → text_eq b a ≡ true
same u a b h k = (text_eq_iff b a).1 (sym ((text_eq_iff u b).0 k) ∙ (text_eq_iff u a).0 h)

at_most_once :
    (h k e : Bool) (n m : ℕ)
    → n ≤ (if h then 1 else 0)
    → m ≤ (if k then if e then 0 else 1 else 0)
    → (h ≡ true → k ≡ true → e ≡ true)
    → n + m ≤ 1
at_most_once h k e n m a b f = ground arith

total :
    (u a b : Text) (rest : List Destination)
    → times u rest ≡ 0
    → times u (webhook_dests a ++ (discord_dests b a ++ rest)) ≤ 1
total u a b rest none_left =
    rw
      (
        times_append u (webhook_dests a) (discord_dests b a ++ rest),
        times_append u (discord_dests b a) rest,
        none_left,
      )
      (at_least _ _ (
        at_most_once (text_eq u a) (text_eq u b) (text_eq b a) _ _ (webhook_times u a)
          (discord_times u b a) (same u a b)))
  where
    at_least : (n m : ℕ) → n + m ≤ 1 → n + (m + 0) ≤ 1
    at_least n m h = omega (arith, h)

-- Whatever the options are, no Discord webhook is told of one event twice, also where it is given as
-- the webhook and as the one of Discord.
pub notify_once : (opts : Options) (kind : Kind) (u : Text) → times u (notify (new opts) kind) ≤ 1
unfolding notify new
notify_once opts kind u =
    if_both (λ ds. times u ds ≤ 1) (has_kind kind (new opts).events)
      (total u (trim_space opts.webhook_url) (trim_space opts.discord_webhook) _ (
        times_append u (token_dests ntfy _ _) (token_dests gotify _ _)
        ∙ ap₂ ◌+◌ (token_times u ntfy _ _ (λ w s. refl)) (token_times u gotify _ _ (λ w s. refl))))
      (omega arith)
