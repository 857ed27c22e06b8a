-- ===== src/Controller/History/Bounds.antt =====
-- The end of a chunk.
use collator.Prelude.{
  ℕ, ◌+◌, ◌≤◌, ◌<◌, pos, ◌≤ℤ◌, ◌<ℤ◌, ltb_ℤ, min_ℤ, add64, sub64, add64_parts, sub64_parts, two63,
  ltb, ◌-◌, ◌⊎◌, if◌then◌else◌, ◌≡◌, arith, eq_of_parts,
}
use collator.Model.{ok}
use collator.Store.{validate_cursor_transition}
use collator.Controller.History.{reward_scan_end}

sub_pos : (f c : ℕ) → c ≤ f → f < two63 → sub64 (pos f) (pos c) ≡ pos (f - c)
sub_pos f c h k = eq_of_parts _ _ (omega (arith, sub64_parts (pos f) (pos c)))

add_pos : (c k : ℕ) → c + k < two63 → add64 (pos c) (pos k) ≡ pos (c + k)
add_pos c k h = eq_of_parts _ _ (omega (arith, add64_parts (pos c) (pos k)))

-- The chunk's length for a lag.
abbrev chunk : ℕ → ℕ
chunk lag = if ltb 64 lag then (if ltb 128 lag then 128 else lag) else 16

chunk_lem :
    (lag : ℕ)
    → (if ltb_ℤ (pos 64) (pos lag) then min_ℤ (pos lag) (pos 128) else pos 16) ≡ pos (chunk lag)
chunk_lem lag = ground arith

end_lem :
    (c f : ℕ)
    → c < f
    → f + 128 < two63
    → reward_scan_end (pos c) (pos f)
      ≡ pos (if ltb f (c + chunk (f - c)) then f else c + chunk (f - c))
unfolding reward_scan_end
end_lem c f q r =
    let short : c + chunk (f - c) < two63 = ground arith in
    rw (sub_pos f c (omega arith) (omega arith), chunk_lem (f - c), add_pos c (chunk (f - c)) short)
      (ground arith)

accepted :
    (c e : ℕ)
    → 0 < c
    → c < e
    → e ≤ c + 128
    → e < two63
    → validate_cursor_transition (pos c) (pos e) ≡ ok tt
unfolding validate_cursor_transition
accepted c e p q r s = rw (sub_pos e c (omega arith) s) (ground arith)

-- For a positive cursor below the finalized height, which is 128 blocks below the last int64 at
-- least: a chunk ends above the cursor and at the finalized height at most, and the store accepts
-- the step. A lag of at most 16 blocks, or of 65 to 128, is closed by one chunk; otherwise it is 16
-- blocks long where the lag is at most 64, and 128 where it is more.
pub reward_scan_end-bounds :
    (cursor finalized : ℕ)
    → 0 < cursor
    → cursor < finalized
    → finalized + 128 < two63
    → let end = reward_scan_end (pos cursor) (pos finalized) in
      (pos cursor <ℤ end)
      × (end ≤ℤ pos finalized)
      × (validate_cursor_transition (pos cursor) end ≡ ok tt)
      × (((finalized ≤ cursor + 16) × (end ≡ pos finalized))
          ⊎ ((cursor + 16 < finalized) × (finalized ≤ cursor + 64) × (end ≡ pos (cursor + 16)))
          ⊎ ((cursor + 64 < finalized) × (finalized ≤ cursor + 128) × (end ≡ pos finalized))
          ⊎ ((cursor + 128 < finalized) × (end ≡ pos (cursor + 128))))
reward_scan_end-bounds c f p q r = rw (end_lem c f q r) (
  ground arith,
  ground arith,
  accepted c _ p (ground arith) (ground arith) (ground arith),
  ground arith,
)
