-- ===== src/Links.antt =====
-- src/link.rs: `LinkSet`, the live links of a node, one entry per link and several for a key at will.
-- What a stream does with the bytes it is given is a parameter. A method that takes the time with
-- `Instant::now()` has it as its argument `now`, in nanoseconds.
pub mod Sends
pub mod FanOut
pub mod Rates
pub mod Peers
use roots.Prelude.{
  ℕ, ◌+◌, ◌-◌, ◌*◌, ◌^◌, ◌%◌, Bool, true, false, not, Option, none, some, List, [], ◌∷◌, ◌++◌, map,
  length, ◌==◌, leb, if◌then◌else◌,
}
use roots.Prelude.Map.{Map, lookup, insert}
use roots.Prelude.Words.{add64, sub64}
use roots.Prelude.Sets.{keep, contains}
use roots.Error.{Error, Result, ok, err, io, core, no_link, ok_or, ◌>>=◌}
use roots.Wire.Uvarint.{wire_len}
use roots.Wire.Frame.{FrameType, encode_frame}

-- `Box<dyn AsyncRead + AsyncWrite>`: a write that fails leaves no stream to go on with; a read leaves
-- the stream where it stopped, also when it fails.
pub record Streams (S : Type 0) : Type 0 where
  pub write_all : S → List ℕ → Option S
  pub next_frame : S → S × Result (FrameType × List ℕ)

pub record LinkEntry (S : Type 0) : Type 0 where
  pub peer : ℕ
  pub id : ℕ
  pub inbound : Bool
  pub stream : S
  pub up : ℕ
  pub rx : ℕ
  pub tx : ℕ
  pub lastrx : ℕ
  pub lasttx : ℕ
  pub rxrate : ℕ
  pub txrate : ℕ

pub record LinkStats : Type 0 where
  pub uptime : ℕ
  pub rx_bytes : ℕ
  pub tx_bytes : ℕ
  pub rx_rate : ℕ
  pub tx_rate : ℕ
  pub is_inbound : Bool

pub record LinkSet (S : Type 0) : Type 0 where
  pub entries : List (LinkEntry S)
  pub last_write : Map ℕ
  pub sampled_at : Option ℕ

abbrev pub rate_window : ℕ
rate_window = 1000000000

-- `self.last_write.entry(id).or_insert(now)`
stamp_new : ℕ → ℕ → Option ℕ → Map ℕ → Map ℕ
stamp_new id now (some t) m = m
stamp_new id now none m = insert id now m

-- `sampled_at.map(|t| now.duration_since(t) >= RATE_WINDOW).unwrap_or(true)`
unfoldable pub is_due : ℕ → Option ℕ → Bool
is_due now none = true
is_due now (some t) = leb rate_window (now - t)

module _ {S : Type 0} where
  -- `LinkSet::new`
  abbrev pub no_links : LinkSet S
  no_links = record { entries = []; last_write = []; sampled_at = none }

  -- `LinkSet::add` of a connection with this peer, id, direction and stream.
  unfoldable pub add_link : LinkSet S → ℕ → ℕ → ℕ → Bool → S → LinkSet S
  unfolding stamp_new
  add_link s now peer id inbound stream = record s {
    last_write = stamp_new id now (lookup id s.last_write) s.last_write;
    entries =
        s.entries
        ++ record {
          peer = peer;
          id = id;
          inbound = inbound;
          stream = stream;
          up = now;
          rx = 0;
          tx = 0;
          lastrx = 0;
          lasttx = 0;
          rxrate = 0;
          txrate = 0;
        }
          ∷ [];
  }

  -- `LinkSet::single`
  unfoldable pub single_link : ℕ → ℕ → ℕ → Bool → S → LinkSet S
  unfolding add_link
  single_link now peer id inbound stream = add_link no_links now peer id inbound stream

  -- `LinkSet::is_empty`
  unfoldable pub has_no_links : LinkSet S → Bool
  has_no_links s = length s.entries == 0

  -- `LinkSet::len`
  unfoldable pub link_count : LinkSet S → ℕ
  link_count s = length s.entries

  unfoldable pub ids : LinkSet S → List ℕ
  ids s = map (λ e. e.id) s.entries

  peers_loop : List ℕ → List (LinkEntry S) → List ℕ
  peers_loop out [] = out
  peers_loop out (e ∷ es) = peers_loop (if contains e.peer out then out else out ++ e.peer ∷ []) es

  unfoldable pub peers : LinkSet S → List ℕ
  unfolding peers_loop
  peers s = peers_loop [] s.entries

  unfoldable pub links_to : LinkSet S → ℕ → List ℕ
  unfolding keep
  links_to s peer = map (λ e. e.id) (keep (λ e. e.peer == peer) s.entries)

  -- `self.entries.iter().find(|e| e.link.id == id)`
  unfoldable pub find_entry : ℕ → List (LinkEntry S) → Option (LinkEntry S)
  find_entry id [] = none
  find_entry id (e ∷ es) = let rest = find_entry id es in if e.id == id then some e else rest

  unfoldable pub peer_of : LinkSet S → ℕ → Option ℕ
  unfolding find_entry
  peer_of s id = elim (find_entry id s.entries) [ none ↦ none | some e ↦ some e.peer ]

  any_to : ℕ → List (LinkEntry S) → Bool
  any_to peer [] = false
  any_to peer (e ∷ es) = let rest = any_to peer es in if e.peer == peer then true else rest

  unfoldable pub has_peer : LinkSet S → ℕ → Bool
  unfolding any_to
  has_peer s peer = any_to peer s.entries

  -- `entries.remove(at)` at the first entry with this id
  unfoldable pub drop_entry : ℕ → List (LinkEntry S) → List (LinkEntry S)
  drop_entry id [] = []
  drop_entry id (e ∷ es) = let rest = drop_entry id es in if e.id == id then es else e ∷ rest

  unfoldable pub put_entry : LinkEntry S → List (LinkEntry S) → List (LinkEntry S)
  put_entry new [] = []
  put_entry new (e ∷ es) =
      let rest = put_entry new es in if e.id == new.id then new ∷ es else e ∷ rest

  -- `LinkSet::remove`
  unfoldable pub remove_link : LinkSet S → ℕ → LinkSet S × Option (LinkEntry S)
  unfolding find_entry drop_entry
  remove_link s id = (record s { entries = drop_entry id s.entries }, find_entry id s.entries)

  unfoldable pub stats : LinkSet S → ℕ → ℕ → Option LinkStats
  unfolding find_entry
  stats s now id = elim (find_entry id s.entries) [
    | none ↦ none
    | some e ↦ some (record {
      uptime = now - e.up;
      rx_bytes = e.rx;
      tx_bytes = e.tx;
      rx_rate = e.rxrate;
      tx_rate = e.txrate;
      is_inbound = e.inbound;
    })
  ]

  -- The body of the loop of `update_rates`.
  unfoldable pub sample : LinkEntry S → LinkEntry S
  sample e = record e {
    rxrate = sub64 e.rx e.lastrx;
    txrate = sub64 e.tx e.lasttx;
    lastrx = e.rx;
    lasttx = e.tx;
  }

  unfoldable pub update_rates : LinkSet S → ℕ → LinkSet S
  unfolding is_due sample
  update_rates s now =
      if not (is_due now s.sampled_at)
      then s
      else record s { sampled_at = some now; entries = map sample s.entries }

  unfoldable pub idle_for : LinkSet S → ℕ → ℕ → ℕ
  idle_for s now id = elim (lookup id s.last_write) [ none ↦ 0 | some t ↦ now - t ]

-- A soft send made hard.
hard : Result Bool → Result (Unit {0})
hard (ok true) = ok tt
hard (ok false) = err (core no_link)
hard (err x) = err x

module _ {S : Type 0} (io_of : Streams S) where
  open io_of use {write_all, next_frame}

  -- `AnyConn::write_frame`, which is `write_frame_to`
  unfoldable pub write_frame : S → FrameType → List ℕ → Result S
  write_frame stream ftype payload = do
    enc ← encode_frame ftype payload
    ok_or (write_all stream enc) io

  -- What is sent over one entry: the set afterwards, and whether the link took the frame.
  unfoldable pub send_on :
      LinkSet S → ℕ → LinkEntry S → FrameType → List ℕ → LinkSet S × Result Bool
  unfolding write_frame put_entry drop_entry
  send_on s now e ftype payload = elim (write_frame e.stream ftype payload) [
    | ok stream ↦ (
      record s {
        entries =
            put_entry (record e { stream = stream; tx = add64 e.tx (wire_len (length payload)) })
              s.entries;
        last_write = insert e.id now s.last_write;
      },
      ok true,
    )
    | err x ↦ (record s { entries = drop_entry e.id s.entries }, err x)
  ]

  unfoldable pub send : LinkSet S → ℕ → ℕ → FrameType → List ℕ → LinkSet S × Result Bool
  unfolding find_entry send_on
  send s now target ftype payload = elim (find_entry target s.entries) [
    | none ↦ (s, ok false)
    | some e ↦ send_on s now e ftype payload
  ]

  unfoldable pub write : LinkSet S → ℕ → ℕ → FrameType → List ℕ → LinkSet S × Result (Unit {0})
  unfolding send hard
  write s now target ftype payload = let (s', r) = send s now target ftype payload in (s', hard r)

  unfoldable pub write_via : LinkSet S → ℕ → ℕ → FrameType → List ℕ → LinkSet S × Result Bool
  unfolding send
  write_via s now target ftype payload = send s now target ftype payload

  -- `for id in targets { self.write(id, ..)?; }`
  unfoldable pub write_each :
      LinkSet S → ℕ → List ℕ → FrameType → List ℕ → LinkSet S × Result (Unit {0})
  write_each s now [] ftype payload = (s, ok tt)
  write_each s now (id ∷ rest) ftype payload =
      let step = write s now id ftype payload in
      elim step.1 [ ok u ↦ write_each step.0 now rest ftype payload | err x ↦ (step.0, err x) ]

  -- `LinkSet::write_all`
  unfoldable pub write_peer : LinkSet S → ℕ → ℕ → FrameType → List ℕ → LinkSet S × Result (Unit {0})
  unfolding links_to write_each
  write_peer s now peer ftype payload = elim (links_to s peer) [
    | [] ↦ (s, err (core no_link))
    | id ∷ rest ↦ write_each s now (id ∷ rest) ftype payload
  ]

  unfoldable pub read_frame : LinkSet S → ℕ → LinkSet S × Result (FrameType × List ℕ)
  unfolding find_entry put_entry
  read_frame s id = elim (find_entry id s.entries) [
    | none ↦ (s, err (core no_link))
    | some e ↦
        let step = next_frame e.stream in
        let after = record e { stream = step.0 } in
        elim step.1 [
          | err x ↦ (record s { entries = put_entry after s.entries }, err x)
          | ok frame ↦ (
            record s {
              entries =
                  put_entry (record after { rx = add64 e.rx (wire_len (length frame.1)) })
                    s.entries;
            },
            ok frame,
          )
        ]
  ]
