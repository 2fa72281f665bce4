-- ===== src/Wire/Signed/Honest.antt =====
-- Signatures that were made honestly pass the checks.
use roots.Prelude.{ℕ, ◌≡◌, refl, not, ◌&&◌, true, arith, ◌==◌}
use roots.Crypto.{Ed25519}
use roots.Wire.Signed.{SigReq, SigRes, Announce, seal, check_res, check_announce, res_bytes_for_sig}

module _ (c : Ed25519) where
  open c use {public_key, sign, verify, verify-sign}

  -- The response that `seal` builds passes `check` for the node and the parent that it was sealed for.
  pub check_res-seal :
      (req : SigReq) (port node parent : ℕ)
      → check_res c (seal c req port node parent (public_key parent)) node (public_key parent)
        ≡ true
  unfolding check_res seal res_bytes_for_sig
  check_res-seal req port node parent = verify-sign parent _

  -- The announce that a node makes of a response, signed with its own key.
  abbrev pub signed_announce : SigRes → ℕ → ℕ → Announce
  signed_announce res seed parent = record {
    key = public_key seed;
    parent = parent;
    res = res;
    sig = sign seed (res_bytes_for_sig res (public_key seed) parent);
  }

  -- An announce of a sealed response, signed by its node, passes `check` exactly unless it names
  -- another node as parent and gives port 0.
  pub check_announce-seal :
      (req : SigReq) (port seed parent : ℕ)
      → let res = seal c req port (public_key seed) parent (public_key parent) in
        check_announce c (signed_announce res seed (public_key parent))
        ≡ not (port == 0 && not (public_key seed == public_key parent))
  unfolding check_announce res_bytes_for_sig seal
  check_announce-seal req port seed parent =
      let key : ℕ = public_key seed in
      let res : SigRes = seal c req port key parent (public_key parent) in
      let sealed : verify (public_key parent) (res_bytes_for_sig res key (public_key parent))
            res.psig
          ≡ true =
        unfold check_res in check_res-seal req port key parent in
      let same : res.port ≡ port = unfold seal in refl in
      rw (same, sealed, verify-sign seed (res_bytes_for_sig res key (public_key parent)))
        (ground arith)
