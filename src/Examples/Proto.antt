-- ===== src/Examples/Proto.antt =====
-- The node protocol at work, with a `send` that notes what was sent.
use roots.Prelude.{ℕ, ◌≡◌, refl, List, [], ◌∷◌, take}
use roots.Error.{Result, ok}
use roots.Tree.State.{new_tree}
use roots.Proto.{Node, nodeinfo_default, concat_keys, handle_proto_bytes}
use roots.Proto.Answers.{key_bytes, concat_keys_lem}

concat_keys_example : concat_keys 255 4 (7 ∷ 9 ∷ []) ≡ 255 ∷ 4 ∷ key_bytes (take 2045 (7 ∷ 9 ∷ []))
concat_keys_example = concat_keys_lem 255 4 (7 ∷ 9 ∷ [])

abbrev node : Node (List (ℕ × List ℕ))
node = record {
  pubkey = 5;
  tree = new_tree;
  proto = record { nodeinfo = nodeinfo_default };
  proto_inbox = [];
  rest = [];
}

abbrev noted : Node (List (ℕ × List ℕ)) → ℕ → List ℕ → Node (List (ℕ × List ℕ)) × Result (Unit {0})
noted h dest payload = (record h { rest = (dest, payload) ∷ h.rest }, ok tt)

abbrev no_text : ℕ → ℕ → List ℕ
no_text key count = []

request_answered :
    (handle_proto_bytes noted no_text node 8 (1 ∷ [])).0.rest ≡ (8, 2 ∷ 123 ∷ 125 ∷ []) ∷ []
unfolding handle_proto_bytes
request_answered = refl

response_kept :
    (handle_proto_bytes noted no_text node 8 (255 ∷ 2 ∷ 1 ∷ [])).0.proto_inbox
    ≡ (8, 255 ∷ 2 ∷ 1 ∷ []) ∷ []
unfolding handle_proto_bytes
response_kept = refl
