-- ===== src/Examples/Links.antt =====
-- A set of three links, two of them to one key, over streams that take everything.
use roots.Prelude.{ℕ, ◌≡◌, refl, true, false, some, List, [], ◌∷◌, ◌++◌}
use roots.Prelude.Sets.{contains, distinct}
use roots.Error.{Result, ok, err}
use roots.Wire.Frame.{FrameType, sig_req, read_frame_from, encode_frame, encode_frame_to}
use roots.Wire.Uvarint.{wire_len, write_uvarint_at}
use roots.Links.{
  Streams, LinkSet, LinkEntry, no_links, add_link, ids, peers, has_peer, links_to, send, write,
  write_peer,
}
use roots.Links.Sends.{SendCases, send_cases}
use roots.Links.FanOut.{Fanned, write_peer_lem}
use roots.Links.Peers.{peers_exact}

-- A stream that a read fails on is drained.
abbrev frame_and_rest :
    Result ((FrameType × List ℕ) × List ℕ) → List ℕ × Result (FrameType × List ℕ)
frame_and_rest (ok (frame, rest)) = (rest, ok frame)
frame_and_rest (err x) = ([], err x)

abbrev lossless : Streams (List ℕ)
lossless = record {
  write_all = λ stream bytes. some (stream ++ bytes);
  next_frame = λ stream. frame_and_rest (read_frame_from stream);
}

abbrev three_links : LinkSet (List ℕ)
three_links = add_link (add_link (add_link no_links 0 5 1 true []) 0 5 2 false []) 0 6 3 true []

three_apart : distinct (ids three_links) ≡ true
unfolding distinct ids add_link
three_apart = refl

send_cases_example :
    SendCases lossless three_links 9 2 sig_req
      (7 ∷ [])
      (send lossless three_links 9 2 sig_req (7 ∷ []))
send_cases_example = send_cases lossless three_links 9 2 sig_req (7 ∷ []) three_apart

fan_out_done : (write_peer lossless three_links 9 5 sig_req (7 ∷ [])).1 ≡ ok tt
unfolding write_peer add_link write encode_frame encode_frame_to wire_len write_uvarint_at
fan_out_done = refl

write_peer_lem_example :
    Fanned lossless sig_req
      (7 ∷ [])
      three_links
      (links_to three_links 5)
      (write_peer lossless three_links 9 5 sig_req (7 ∷ [])).0
write_peer_lem_example =
    write_peer_lem lossless three_links 9 5 sig_req (7 ∷ []) three_apart fan_out_done

peers_exact_example :
    (distinct (peers three_links) ≡ true)
    × ((p : ℕ) → contains p (peers three_links) ≡ has_peer three_links p)
peers_exact_example = peers_exact three_links

abbrev one_link : LinkEntry (List ℕ)
one_link = record {
  peer = 5;
  id = 1;
  inbound = true;
  stream = [];
  up = 0;
  rx = 10;
  tx = 20;
  lastrx = 4;
  lasttx = 5;
  rxrate = 0;
  txrate = 0;
}
