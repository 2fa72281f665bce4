-- ===== src/Route/Coords.antt =====
-- Distances between coordinates, and the walk to the root that gives the coordinates.
use roots.Prelude.{
  ℕ, zero, suc, ◌+◌, ◌*◌, ◌^◌, ◌≤◌, ◌<◌, ◌≡◌, ◌↔◌, inl, inr, refl, sym, ap, ◌∙◌, true, false, none,
  some, List, [], ◌∷◌, ◌++◌, arith, length, ◌==◌, ==_iff, ==_refl, Bool-cases, Option-cases,
}
use roots.Prelude.Map.{Map, lookup, keys}
use roots.Prelude.Sets.{contains, set_insert, contains-set_insert, unseen, unseen-lt, unseen-length}
use roots.Tree.State.{Info}
use roots.Tree.Walks.Rounds.{contains-keys}
use roots.Route.{common_ports, coords_dist, root_path_loop}

common_ports_self : (p : List ℕ) → common_ports p p ≡ length p
unfolding common_ports
common_ports_self [] = refl
common_ports_self (a ∷ p) = ground (arith, common_ports_self p, ==_refl a)

common_ports_comm : (p q : List ℕ) → common_ports p q ≡ common_ports q p
unfolding common_ports
common_ports_comm [] [] = refl
common_ports_comm [] (b ∷ q) = refl
common_ports_comm (a ∷ p) [] = refl
common_ports_comm (a ∷ p) (b ∷ q) = ground (arith, common_ports_comm p q)

common_ports-le : (p q : List ℕ) → (common_ports p q ≤ length p) × (common_ports p q ≤ length q)
unfolding common_ports
common_ports-le [] q = (omega arith, omega arith)
common_ports-le (a ∷ p) [] = (omega arith, omega arith)
common_ports-le (a ∷ p) (b ∷ q) =
    let rest = common_ports-le p q in (ground (arith, rest.0), ground (arith, rest.1))

-- Paths that agree in all their ports and are of one length are the same.
common_ports-all : (p q : List ℕ) → length p + length q ≤ 2 * common_ports p q → p ≡ q
unfolding common_ports
common_ports-all [] [] h = refl
common_ports-all [] (b ∷ q) h = absurd (omega arith)
common_ports-all (a ∷ p) [] h = absurd (omega arith)
common_ports-all (a ∷ p) (b ∷ q) h = elim (Bool-cases (a == b)) [
  | inl e ↦
      let same : a ≡ b = (==_iff a b).0 e in
      (λ i. same i ∷ common_ports-all p q (ground (arith, e)) i)
  | inr e ↦ absurd (ground (arith, e))
]

-- The distance is a distance, for paths of fewer than 2 ^ 64 ports together: it is the same both ways,
-- and 0 exactly between equal coordinates.
pub coords_dist_metric :
    (p q : List ℕ)
    → length p + length q < 2 ^ 64
    → (coords_dist p q ≡ coords_dist q p) × ((coords_dist p q ≡ 0) ↔ (p ≡ q))
unfolding coords_dist
coords_dist_metric p q h = (
  omega (arith, common_ports_comm p q),
  (
    (λ e. common_ports-all p q (omega (arith, e, common_ports-le p q))),
    (λ e. omega (
      arith,
      common_ports_self q,
      ap (λ (x : List ℕ). common_ports x q) e,
      ap (λ (x : List ℕ). length x) e,
    )),
  ),
)

module _ (infos : Map Info) where
  module _ (fuel : ℕ) (seen : List ℕ) (next : ℕ) (ports : List ℕ) where
    path_round_seen :
        contains next seen ≡ true → root_path_loop infos (suc fuel) seen next ports ≡ none
    unfolding root_path_loop
    path_round_seen e = rw (root_path_loop, e) refl

    path_round_lost :
        contains next seen ≡ false
        → lookup next infos ≡ none
        → root_path_loop infos (suc fuel) seen next ports ≡ none
    unfolding root_path_loop
    path_round_lost e f = rw (root_path_loop, e, f) refl

    path_round_root :
        (info : Info)
        → contains next seen ≡ false
        → lookup next infos ≡ some info
        → (next == info.parent) ≡ true
        → root_path_loop infos (suc fuel) seen next ports ≡ some ports
    unfolding root_path_loop
    path_round_root info e f g = rw (root_path_loop, e, f, g) refl

    path_round_on :
        (info : Info)
        → contains next seen ≡ false
        → lookup next infos ≡ some info
        → (next == info.parent) ≡ false
        → root_path_loop infos (suc fuel) seen next ports
          ≡ root_path_loop infos fuel
              (set_insert next seen)
              info.parent
              (ports ++ info.res.port ∷ [])
    unfolding root_path_loop
    path_round_on info e f g = rw (root_path_loop, e, f, g) refl

  root_path_loop_enough :
      (fuel more : ℕ) (seen : List ℕ) (next : ℕ) (ports : List ℕ)
      → unseen (λ k. contains k seen) (keys infos) < fuel
      → root_path_loop infos (fuel + more) seen next ports
        ≡ root_path_loop infos fuel seen next ports
  root_path_loop_enough zero more seen next ports h = absurd (omega arith)
  root_path_loop_enough (suc fuel) more seen next ports h =
      let e : suc fuel + more ≡ suc (fuel + more) = omega arith in
      rw e (elim (Bool-cases (contains next seen)) [
        | inl old ↦
            path_round_seen (fuel + more) seen next ports old
            ∙ sym (path_round_seen fuel seen next ports old)
        | inr new ↦ elim (Option-cases (lookup next infos)) [
          | inl lost ↦
              path_round_lost (fuel + more) seen next ports new lost
              ∙ sym (path_round_lost fuel seen next ports new lost)
          | inr (info, found) ↦ elim (Bool-cases (next == info.parent)) [
            | inl root ↦
                path_round_root (fuel + more) seen next ports info new found root
                ∙ sym (path_round_root fuel seen next ports info new found root)
            | inr up ↦
                path_round_on (fuel + more) seen next ports info new found up
                ∙ root_path_loop_enough fuel more (set_insert next seen) info.parent
                    (ports ++ info.res.port ∷ [])
                    (omega (arith, round_less seen next info new found))
                ∙ sym (path_round_on fuel seen next ports info new found up)
          ]
        ]
      ])
    where
      round_less :
          (seen : List ℕ) (next : ℕ) (info : Info)
          → contains next seen ≡ false
          → lookup next infos ≡ some info
          → unseen (λ k. contains k (set_insert next seen)) (keys infos)
            < unseen (λ k. contains k seen) (keys infos)
      round_less seen next info new found =
          unseen-lt (λ k. contains k seen) (λ k. contains k (set_insert next seen)) next
            (keys infos) (λ k there. contains-set_insert k next seen ∙ ground (arith, there)) new
            (contains-set_insert next next seen ∙ ground arith)
            (contains-keys next infos info found)

  -- The walk to the root ends by itself, cycles of parents included: one round more than there are
  -- known keys gives the same as any greater number of rounds.
  pub root_path_enough :
      (dest more : ℕ)
      → root_path_loop infos (length (keys infos) + 1 + more) [] dest []
        ≡ root_path_loop infos (length (keys infos) + 1) [] dest []
  root_path_enough dest more =
      root_path_loop_enough (length (keys infos) + 1) more [] dest []
        (omega (arith, unseen-length (λ k. contains k []) (keys infos)))
