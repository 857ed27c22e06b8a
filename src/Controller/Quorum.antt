-- ===== src/Controller/Quorum.antt =====
-- The part of `collectRewards` in cmd/controller/main.go that counts the nodes which agree with the
-- local one, and how long the wallet has been out of the session.
use collator.Prelude.{
  ℤ, pos, ltb_ℤ, sub64, ℕ, suc, ◌+◌, List, [], ◌∷◌, Bool, true, false, not, ◌&&◌, leb,
  if◌then◌else◌, Option, none, some, ◌=?◌,
}
use collator.Model.{Result, ok, err, RewardOverview, RewardSnapshot}

-- The last answer of a public node, where its last call succeeded.
abbrev pub Answers : Type 0
Answers = List (Option RewardSnapshot)

unfoldable pub same_session : Bool → Bool → Bool
same_session true b = b
same_session false b = not b

unfoldable pub agrees_with : RewardOverview → RewardSnapshot → Bool
unfolding same_session
agrees_with o s =
    s.schema_ok && (same_session s.active_session o.active_session && s.address =? o.address)

unfoldable pub agreeing_nodes : RewardOverview → Answers → ℕ
unfolding agrees_with
agreeing_nodes o [] = 0
agreeing_nodes o (none ∷ rest) = agreeing_nodes o rest
agreeing_nodes o (some s ∷ rest) =
    let more = agreeing_nodes o rest in if agrees_with o s then suc more else more

unfoldable pub local_vote : Result RewardSnapshot → ℕ
local_vote (err e) = 0
local_vote (ok s) = if s.schema_ok then 1 else 0

-- `previous.Quorum` and `previous.InactiveConfirmations`
unfoldable pub take_quorum : Result RewardSnapshot → Answers → RewardOverview → RewardOverview
unfolding agreeing_nodes local_vote
take_quorum local answers o =
    let quorum = local_vote local + agreeing_nodes o answers in
    record o {
      quorum = quorum;
      inactive_confirmations =
          if leb 2 quorum && not o.active_session then suc o.inactive_confirmations else 0;
    }

-- `max64`: the largest one, and 0 if none is positive.
unfoldable pub max64 : List ℤ → ℤ
max64 = largest (pos 0)
  where
    largest : ℤ → List ℤ → ℤ
    largest out [] = out
    largest out (v ∷ vs) = largest (if ltb_ℤ out v then v else out) vs

abbrev kick_threshold_blocks : ℤ
kick_threshold_blocks = pos 1200

-- `previous.BlocksSinceAuthored` and `previous.KickBlocksRemaining`
unfoldable pub take_distances : RewardOverview → RewardOverview
unfolding max64
take_distances o =
    let since_authored = max64 (pos 0 ∷ sub64 o.finalized_block o.last_authored_block ∷ []) in
    record o {
      blocks_since_authored = since_authored;
      kick_blocks_remaining = max64 (pos 0 ∷ sub64 kick_threshold_blocks since_authored ∷ []);
    }
