-- ===== src/Reward/Monitor/Recorded.antt =====
-- What a scan reports: blocks of the range, in strictly rising order, each with a verdict.
use collator.Prelude.{
  ℕ, zero, suc, ℤ, pos, ◌≤ℤ◌, ◌<ℤ◌, leb_ℤ, add64, sub64, sub64_parts, add64_parts, two63, ◌-◌, List,
  [], ◌∷◌, ◌++◌, Bool, true, false, ◌≡◌, refl, arith, inl, inr, String, ◌=?◌, Bool-cases,
}
use collator.Model.{plain, Returns, RewardObservation, RewardScan}
use collator.Reward.Codec.{decode_block_number}
use collator.Reward.Monitor.{
  Rpc, answer, Monitor, is_new, observe_reward, report, scan_loop, scan, scan_fuel, check_version,
  is_bad_range,
}
use collator.Reward.Monitor.Calls.{
  ◌>>◌, reject-Returns, pure, bind-Returns, bind-Returns_of, block_hash, storage, lift, reject_call,
}
use collator.Reward.Monitor.Observe.{Observed, observe_reward-Observed, Verdict}

-- One report of a scan up to the block `to`.
pub record Reported (to : ℤ) (x : RewardObservation) : Type 0 where
  pub in_range : x.block_number ≤ℤ to
  pub hashed : (x.block_hash =? "") ≡ false
  pub single : x.source_count ≡ 1
  pub verdict : Verdict x

-- Reports of rising blocks, all above `lo` and below `hi`.
abbrev pub Rising : ℤ → ℤ → ℤ → List RewardObservation → Type 0
Rising to lo hi [] = lo <ℤ hi
Rising to lo hi (x ∷ xs) = (lo <ℤ x.block_number) × Reported to x × Rising to x.block_number hi xs

Rising-widen :
    (to lo hi hi' : ℤ) (xs : List RewardObservation)
    → hi ≤ℤ hi'
    → Rising to lo hi xs
    → Rising to lo hi' xs
Rising-widen to lo hi hi' [] h r = omega arith
Rising-widen to lo hi hi' (x ∷ xs) h (above, good, r) =
    (above, good, Rising-widen to x.block_number hi hi' xs h r)

Rising-snoc :
    (to lo hi hi' : ℤ) (xs : List RewardObservation) (x : RewardObservation)
    → hi ≤ℤ x.block_number
    → x.block_number <ℤ hi'
    → Reported to x
    → Rising to lo hi xs
    → Rising to lo hi' (xs ++ x ∷ [])
Rising-snoc to lo hi hi' [] x h k good r = (omega arith, good, k)
Rising-snoc to lo hi hi' (y ∷ ys) x h k good (above, here, r) =
    (above, here, Rising-snoc to y.block_number hi hi' ys x h k good r)

module _ {W : Type 0} (rpc : Rpc W) (m : Monitor) where
  block_hash-nonempty :
      (block : ℤ) (w : W) → Returns (λ h. (h =? "") ≡ false) (answer (block_hash rpc block) w)
  unfolding block_hash
  block_hash-nonempty block w =
      bind-Returns (λ h. (h =? "") ≡ false) (rpc.chain_block_hash block)
        (λ h. reject_call (h =? "") (plain "block hash unavailable") >> pure h) w
        λ h v.
          reject-Returns (λ x. (x =? "") ≡ false) (h =? "") (plain "block hash unavailable")
            (pure h) v (λ e. e)

  report-Rising :
      (lo block hi to : ℤ) (hash previous_hash : String) (fires : Bool)
      (out : List RewardObservation) (w : W)
      → block ≤ℤ to
      → block <ℤ hi
      → (hash =? "") ≡ false
      → Rising to lo block out
      → Returns (Rising to lo hi) (answer (report rpc m block hash previous_hash fires out) w)
  unfolding report
  report-Rising lo block hi to hash previous_hash false out w p q ne r =
      Rising-widen to lo block hi out (omega arith) r
  report-Rising lo block hi to hash previous_hash true out w p q ne r =
      bind-Returns_of (Observed block hash) (Rising to lo hi)
        (observe_reward rpc m block hash previous_hash) (λ x. pure (out ++ x ∷ [])) w
        (observe_reward-Observed rpc m block hash previous_hash w)
        λ x v o.
          Rising-snoc to lo block hi out x (rw o.number (omega arith)) (rw o.number q)
            (record {
              in_range = rw o.number p;
              hashed = rw o.at_hash ne;
              single = o.single;
              verdict = o.verdict;
            })
            r

  scan_loop-Rising :
      (fuel : ℕ) (lo block to previous : ℤ) (previous_hash : String) (out : List RewardObservation)
      (w : W)
      → pos 0 <ℤ block
      → to <ℤ pos (two63 - 1)
      → Rising to lo block out
      → Returns
          (λ r. (hi : ℤ) × Rising to lo hi r.1)
          (answer (scan_loop rpc m fuel block to previous previous_hash out) w)
  unfolding scan_loop
  scan_loop-Rising zero lo block to previous previous_hash out w p q r = tt
  scan_loop-Rising (suc fuel) lo block to previous previous_hash out w p q r =
      let P : ℤ × List RewardObservation → Type 0 = λ s. (hi : ℤ) × Rising to lo hi s.1 in
      let next = add64 block (pos 1) in
      elim (Bool-cases (leb_ℤ block to)) [
        | inl go ↦ rw go (
            bind-Returns_of (λ h. (h =? "") ≡ false) P (block_hash rpc block) _ w
              (block_hash-nonempty block w)
              λ hash w1 ne. bind-Returns P (storage rpc m.keys.last_authored hash) _ w1 λ raw w2.
                bind-Returns P (lift (decode_block_number raw)) _ w2 λ last w3.
                  bind-Returns_of (Rising to lo next) P
                    (report rpc m block hash previous_hash (is_new block last previous) out)
                    (λ found. scan_loop rpc m fuel next to last hash found) w3
                    (report-Rising lo block next to hash previous_hash (is_new block last previous)
                      out w3 (ground arith) (ground (arith, add64_parts block (pos 1))) ne r)
                    λ found w4 r'.
                      scan_loop-Rising fuel lo next to last hash found w4
                        (ground (arith, add64_parts block (pos 1))) q r')
        | inr stop ↦ rw stop (block, r)
      ]

-- A good report of the scan from `from` to `to`.
abbrev pub GoodScan : Monitor → ℤ → ℤ → RewardScan → Type 0
GoodScan m from to s =
    (s.from ≡ from)
    × (s.to ≡ to)
    × (s.source ≡ m.source)
    × ((hi : ℤ) × Rising to (sub64 from (pos 1)) hi s.observations)

range_lem :
    (from to : ℤ)
    → is_bad_range from to ≡ false
    → to <ℤ pos (two63 - 1)
    → (pos 0 <ℤ from) × (sub64 from (pos 1) <ℤ from)
unfolding is_bad_range
range_lem from to h q = ground (arith, sub64_parts from (pos 1))

-- For every node and every range that ends below the last int64: what a successful scan reports are
-- blocks above `from - 1`, up to `to` and in strictly rising order, each with a nonempty hash, from
-- one source, and with a verdict that its amounts bear out. The envelope names the range and the
-- monitor's source.
pub scan-Rising :
    {W : Type 0} (rpc : Rpc W) (m : Monitor) (from to : ℤ) (w : W)
    → to <ℤ pos (two63 - 1)
    → Returns (GoodScan m from to) (answer (scan rpc m from to) w)
unfolding scan
scan-Rising rpc m from to w q =
    let P = GoodScan m from to in
    reject-Returns P (is_bad_range from to) (plain "invalid scan range") _ w λ fine.
      bind-Returns P (block_hash rpc (sub64 from (pos 1))) _ w λ previous_hash w1.
        bind-Returns P (block_hash rpc to) _ w1 λ end_hash w2.
          bind-Returns P (check_version rpc m previous_hash) _ w2 λ _ w3.
            bind-Returns P (check_version rpc m end_hash) _ w3 λ _ w4.
              bind-Returns P (storage rpc m.keys.last_authored previous_hash) _ w4 λ raw w5.
                bind-Returns P (lift (decode_block_number raw)) _ w5 λ previous w6.
                  bind-Returns_of (λ r. (hi : ℤ) × Rising to (sub64 from (pos 1)) hi r.1) P
                    (scan_loop rpc m scan_fuel from to previous previous_hash []) _ w6
                    (scan_loop-Rising rpc m scan_fuel (sub64 from (pos 1)) from to previous
                      previous_hash [] w6 (range_lem from to fine q).0 q
                      (range_lem from to fine q).1)
                    λ r w7 rising. (refl, refl, refl, rising)
