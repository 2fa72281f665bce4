-- ===== src/Examples/Paths.antt =====
-- Path finding at work, with the toy signatures.
use roots.Prelude.{ℕ, ◌≡◌, ◌⊎◌, true, some, none, List, [], ◌∷◌, ◌++◌, ◌==◌, ==_iff}
use roots.Error.{ok, err, length_error}
use roots.Crypto.{toy}
use roots.Table.{Key, new}
use roots.Links.{Streams, no_links}
use roots.Tree.State.{new_tree}
use roots.Wire.Lookup.{PathNotify}
use roots.Bloom.Coverage.{no_blooms}
use roots.Paths.{Net, PathState, RumorEntry, no_paths, accept, rumor_key}
use roots.Paths.Handlers.{handle_notify}
use roots.Paths.Accept.{Shown, taken, accept-cases}
use roots.Paths.Depth.{handle_notify_enough}

abbrev byte_key : Key ℕ
byte_key = record { eq = λ a b. a == b; eq_iff = ==_iff; hash_bytes = λ k. k ∷ [] }

abbrev streams : Streams (List ℕ)
streams = record {
  write_all = λ s bytes. some (s ++ bytes);
  next_frame = λ s. (s, err length_error);
}

-- A lookup for 8 is out, with a payload behind it.
abbrev rumor : RumorEntry
rumor = record {
  dest = 8;
  send_at = some 3;
  deadline = 90;
  pending = some (1 ∷ 2 ∷ []);
  pending_is_app = true;
}

abbrev waiting : PathState
waiting = record no_paths { rumors = (rumor_key 8, rumor) ∷ [] }

-- The notify of 8, which its toy signature allows, for node 9.
abbrev notify : PathNotify
notify = record {
  path = [];
  watermark = 0;
  source = 8;
  dest = 9;
  info = record { seq = 5; path = 4 ∷ 2 ∷ []; sig = 8 };
}

accept-cases_example :
    (accept toy 10 waiting notify ≡ none)
    ⊎ ((accept toy 10 waiting notify ≡ some (taken toy 10 waiting notify))
        × Shown toy 10 waiting notify)
accept-cases_example = accept-cases toy 10 waiting notify

abbrev net : Net (List ℕ)
net = record { tree = new_tree; blooms = no_blooms (new 64); links = no_links; paths = waiting }

handle_notify_enough_example :
    handle_notify byte_key streams toy 9 10 1000 (λ n dest payload. (n, ok tt)) 7 net notify
    ≡ handle_notify byte_key streams toy 9 10 1000 (λ n dest payload. (n, ok tt)) 1 net notify
handle_notify_enough_example =
    handle_notify_enough byte_key streams toy 9 10 1000 (λ n dest payload. (n, ok tt)) 6 net notify
