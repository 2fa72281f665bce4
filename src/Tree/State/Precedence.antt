-- ===== src/Tree/State/Precedence.antt =====
-- The precedence of announces for one key.
use roots.Prelude.{◌≡◌, ◌⊎◌, true, false, arith}
use roots.Tree.State.{Info, supersedes}

-- Two infos that the rules do not tell apart: the same seq, parent and nonce.
abbrev pub SameRank : Info → Info → Type 0
SameRank a b =
    (a.res.req.seq ≡ b.res.req.seq) × (a.parent ≡ b.parent) × (a.res.req.nonce ≡ b.res.req.nonce)

pub supersedes_irrefl : (a : Info) → supersedes a a ≡ false
unfolding supersedes
supersedes_irrefl a = ground arith

pub supersedes_asymm : (a b : Info) → supersedes a b ≡ true → supersedes b a ≡ false
unfolding supersedes
supersedes_asymm a b h = ground arith

pub supersedes_trans :
    (a b d : Info) → supersedes a b ≡ true → supersedes b d ≡ true → supersedes a d ≡ true
unfolding supersedes
supersedes_trans a b d h k = ground arith

-- What does not supersede is of the same rank or superseded.
pub supersedes_total :
    (a b : Info) → supersedes a b ≡ false → SameRank a b ⊎ (supersedes b a ≡ true)
unfolding supersedes
supersedes_total a b h = ground arith

-- Of a chain, the first link may be an equal or a better one.
pub supersedes_below :
    (a b d : Info) → supersedes a b ≡ true → supersedes d b ≡ false → supersedes d a ≡ false
unfolding supersedes
supersedes_below a b d h k = ground arith
