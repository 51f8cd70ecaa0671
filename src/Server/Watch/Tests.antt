-- ===== src/Server/Watch/Tests.antt =====
-- Two polls of an inbox with one file, which grows between them.
use groot_share.Prelude.{
  inl, arith, ◌≡◌, Text, text_eq, codes, true, false, List, [], ◌∷◌, Option, none, some, pos, refl,
  if◌then◌else◌,
}
use groot_share.Store.World.{World, Result, ok, err}
use groot_share.Store.Sample.{sample, file_of, today}
use groot_share.Server.Settings.{Settings}
use groot_share.Server.Watch.{Seen, Inbox, watch_once}
use groot_share.Server.Watch.Idle.{Same}
use groot_share.Server.Watch.Waits.{no_sizes, watch_once-waits}

abbrev local : Settings
local = record {
  has_blobs = false;
  vps_s3 = false;
  s3_prefix = [];
  keep_last = pos 1;
  max_age_days = pos 1;
  staging_grace = pos 1;
}

abbrev inbox : Inbox
inbox = record { dir = codes "/in"; max_upload_bytes = pos 100 }

-- An inbox with a file of the text.
abbrev with_file : Text → World
with_file body = record sample { disk = file_of (codes "/in/a.tar.gz") body ∷ sample.disk }

abbrev poll : Seen → World → Result Seen × World
poll seen w =
    watch_once (λ e. []) (λ b. b) (λ b. b) (λ s. s) local (λ p. []) inbox true seen today w

abbrev sizes : Result Seen → Seen
sizes (ok s) = s
sizes (err e) = no_sizes

first :
    (poll no_sizes (with_file (codes "ne"))).0
    ≡ ok (sizes (poll no_sizes (with_file (codes "ne"))).0)
unfolding watch_once groot_share.Server.Watch.process_entries groot_share.Server.Watch.distinct
    groot_share.Prelude.sort_by groot_share.Blob.Keys.has_prefix
    groot_share.Server.Watch.process_inbox_entry groot_share.Blob.Keys.contains text_eq
    groot_share.Blob.Keys.has_suffix
first = refl

watch_once-waits_example :
    Same (with_file (codes "ne")) (poll no_sizes (with_file (codes "ne"))).1
    × Same
        (with_file (codes "new"))
        (poll (sizes (poll no_sizes (with_file (codes "ne"))).0) (with_file (codes "new"))).1
unfolding groot_share.Server.Watch.distinct groot_share.Prelude.sort_by
    groot_share.Blob.Keys.has_prefix text_eq
watch_once-waits_example =
    watch_once-waits (λ e. []) (λ b. b) (λ b. b) (λ s. s) local (λ p. []) inbox true true
      (sizes (poll no_sizes (with_file (codes "ne"))).0) today today (with_file (codes "ne"))
      (with_file (codes "new")) first (inl (λ e. ground (arith, e)), tt)
