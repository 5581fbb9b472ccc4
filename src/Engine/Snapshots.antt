-- ===== src/Engine/Snapshots.antt =====
-- engine_process.go and engine_background.go: the snapshots that requests leave for the background.
use guard_go.Base.{Bool, false, ◌||◌, none, some, List, [], ◌∷◌, ◌++◌, if◌then◌else◌, length}
use guard_go.Base.Int.{ℤ, pos, ltb_ℤ}
use guard_go.Text.{Bytes, codes, same_text}
use guard_go.Config.{World}
use guard_go.Http.{Header, HttpRequest}
use guard_go.Engine.{Site, Engine, Snapshot, header_get, header_values}

unfoldable pub has_key : Header → Bytes → Bool
has_key [] name = false
has_key ((key, values) ∷ h) name = same_text key name || has_key h name

module _ (w : World) (x : Site w) where
  -- The loop over CaptureHeaders in `snapshotFromRequest`; a name that comes twice is one key.
  unfoldable pub capture : Header → List Bytes → Header
  capture header [] = []
  capture header (name ∷ names) =
      let rest = capture header names in
      elim (header_values w x header name) [
        | [] ↦ rest
        | v ∷ vs ↦ if has_key rest name then rest else (name, v ∷ vs) ∷ rest
      ]

  -- `snapshotFromRequest`.
  unfoldable pub snapshot_of : List Bytes → HttpRequest → Bytes → Bytes → ℤ → Snapshot
  snapshot_of names r ip key now = record {
    ip = ip;
    key = key;
    method = r.method;
    host = r.host;
    path = elim r.url [ none ↦ [] | some url ↦ url.path ];
    raw_query = elim r.url [ none ↦ [] | some url ↦ url.raw_query ];
    ua = header_get w x r.header (codes "User-Agent");
    lang = header_get w x r.header (codes "Accept-Language");
    header = capture r.header names;
    ts = now;
  }

  -- `shouldEnqueueAnalysis` and `tryEnqueue`: the snapshot is dropped if the channel is full.
  unfoldable pub try_enqueue : w.Request → Bytes → Bytes → ℤ → Engine w x → Engine w x
  try_enqueue r ip key now e = elim e.queue [
    | none ↦ e
    | some q ↦
        if ltb_ℤ (pos (length q)) e.cfg.adaptive_ban.queue_size
        then record e {
          queue =
              some (q ++ snapshot_of e.cfg.adaptive_ban.capture_headers (x.view r) ip key now ∷ []);
        }
        else e
  ]
